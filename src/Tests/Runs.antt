-- ===== src/Tests/Runs.antt =====
-- Runs and their parts in a toy world.
use certforge.Base.{
  Text, Dict, codes, same, get, insert, inl, All, true, false, none, some, List, [], ◌∷◌, ◌≡◌, ◌⊎◌,
  refl,
}
use certforge.Base.Paths.{parent, join}
use certforge.Base.Int.{pos, div_ℤ, ◌-ℤ◌}
use certforge.Error.{ok, acme}
use certforge.State.{no_state, ttl_expired, PendingRotation}
use certforge.Acme.{ChallengeInfo}
use certforge.Exec.{raise, ◌>>=◌}
use certforge.Exec.Logs.{Logs}
use certforge.Exec.Panics.{NeverPanics, NeverPanics-raise}
use certforge.World.{Log, Io, Env, attempt, observe}
use certforge.World.Rules.{IsReadOnly}
use certforge.Credentials.{make_parent}
use certforge.Solver.Server.{new_memory}
use certforge.Solver.Http01.{challenge_path, present_file, present_token}
use certforge.Solver.Any.{webroot_solver, standalone_solver, stateless, present}
use certforge.Solver.Standalone.{present-NoneBinds}
use certforge.Renew.Build.{Instance, solver_names, build_solvers}
use certforge.Renew.Order.{solver_at, present_one, unless_failed, present_all, solve}
use certforge.Renew.Certificate.{may_go_on, if_waited, renew_certificate}
use certforge.Renew.Run.{is_chosen, Progress, add_renewal, renew_one, renew_all, run}
use certforge.Renew.Steps.{RotationStep}
use certforge.Renew.Effect.{renew_certificate-RotationStep}
use certforge.Renew.Reach.{Began, IsHeld, renew_all-pending_of}
use certforge.Renew.Dry.{renew_certificate-dry_run}
use certforge.Renew.Cleanup.{Cleaned, solve-Cleaned}
use certforge.Renew.Valid.{AreChosen, HasConfigured, build_solvers-valid}
use certforge.Config.Validate.Correct.{validate_iff}
use certforge.Safety.Lookups.{Has}
use certforge.Safety.Runs.{run-NeverPanics}
use certforge.Tests.{sample, mail, is_ip, sample_passes}
use certforge.Tests.Crates.{sample_quiet, toy_crates, toy_env, rotating, toy_json}
use certforge.Tests.Solvers.{challenge}

abbrev dir : Text
dir = codes "/var/lib/certforge"

run-NeverPanics_example : NeverPanics (run toy_crates toy_env sample toy_json dir none true false)
run-NeverPanics_example =
    run-NeverPanics toy_crates toy_env sample toy_json dir false none true sample_passes
      sample_quiet

-- a rotation whose TTL has not passed is waited for
waiting :
    (renew_certificate toy_crates toy_env sample toy_json dir false mail rotating true []).0
    ≡ ok (rotating, ok false)
unfolding renew_certificate may_go_on if_waited ttl_expired get same observe ◌>>=◌ div_ℤ ◌-ℤ◌
waiting = refl

renew_certificate-RotationStep_example :
    RotationStep toy_crates toy_env mail dir false rotating rotating
renew_certificate-RotationStep_example =
    renew_certificate-RotationStep toy_crates toy_env sample toy_json dir false mail rotating true
      [] rotating (ok false) waiting

abbrev progress : Progress
progress = record { state = rotating; dirty = false; pending_hooks = [] }

all_waiting :
    (renew_all toy_crates toy_env sample toy_json dir none true false (mail ∷ []) progress []).0
    ≡ ok progress
unfolding renew_all renew_one add_renewal is_chosen renew_certificate may_go_on if_waited
    ttl_expired get same observe ◌>>=◌ div_ℤ ◌-ℤ◌
all_waiting = refl

abbrev held : PendingRotation
held = record {
  pending_key_path = codes "/var/lib/certforge/pending/mail.key";
  published_at = pos 0;
  old_ttl = 300;
}

renew_all-pending_of_example :
    (IsHeld toy_crates toy_env dir none false (mail ∷ []) (codes "mail") held
      → get (codes "mail") rotating.pending_rotations ≡ some held
      → get (codes "mail") rotating.pending_rotations ≡ some held)
    × (get (codes "mail") rotating.pending_rotations ≡ some held
        → (get (codes "mail") rotating.pending_rotations ≡ some held)
          ⊎ Began toy_crates toy_env dir none false (mail ∷ []) (codes "mail") held)
renew_all-pending_of_example =
    renew_all-pending_of toy_crates toy_env dir none false sample toy_json true (mail ∷ []) progress
      progress (codes "mail") held [] all_waiting

renew_certificate-dry_run_example :
    Logs IsReadOnly
      (renew_certificate toy_crates toy_env sample toy_json dir true mail no_state true)
renew_certificate-dry_run_example =
    renew_certificate-dry_run toy_crates toy_env sample toy_json dir mail no_state true

abbrev webroots : Dict Instance
webroots = (codes "web", (webroot_solver (codes "/srv"), new_memory)) ∷ []

abbrev failing : Dict Instance → Io Text
failing started = raise (acme "order became invalid" [])

webroots-Has : Has webroots (codes "web")
unfolding get same
webroots-Has = refl

presented :
    (present_all toy_crates toy_env ((challenge, codes "web") ∷ []) webroots []).0
    ≡ ok (webroots, ok tt)
unfolding present_all present_one unless_failed solver_at present stateless present_file make_parent
    parent get insert same attempt ◌>>=◌ challenge_path join
presented = refl

abbrev pairs : List (ChallengeInfo × Text)
pairs = (challenge, codes "web") ∷ []

solve-Cleaned_example :
    let ordered = failing webroots (present_all toy_crates toy_env pairs webroots []).1 in
    (left : Dict Instance) × (t : Log) × Cleaned toy_crates toy_env pairs webroots ordered.1 left t
    × (solve toy_crates toy_env pairs webroots failing [] ≡ (ordered.0, t))
solve-Cleaned_example =
    solve-Cleaned toy_crates toy_env pairs webroots webroots failing [] (webroots-Has, tt) (tt, tt)
      presented (NeverPanics-raise (acme "order became invalid" []))

build_solvers-valid_example :
    (names : List Text) × (solvers : Dict Instance) × (solver_names sample mail ≡ ok names)
    × (build_solvers sample names ≡ ok solvers)
    × AreChosen sample mail 0 mail.domains names
    × All (HasConfigured sample solvers) names
build_solvers-valid_example =
    build_solvers-valid is_ip sample ((validate_iff is_ip sample).0 sample_passes) mail (inl refl)

-- a world in which no request succeeds
abbrev failing_env : Env
failing_env = record toy_env { succeeds = λ h e. false }

present-NoneBinds_example :
    (present toy_crates failing_env
      (standalone_solver (codes "[::]:80" ∷ []))
      challenge
      new_memory
      []).0
    ≡ ok (record new_memory { running = false; tokens = present_token challenge [] }, ok tt)
present-NoneBinds_example =
    present-NoneBinds toy_crates failing_env (codes "[::]:80" ∷ []) challenge new_memory []
      (λ h addr. refl) refl
