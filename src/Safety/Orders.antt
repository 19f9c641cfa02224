-- ===== src/Safety/Orders.antt =====
-- Orders (src/acme.rs), and where they may panic.
use certforge.Base.{Dict, Text, Bytes, ℕ, zero, suc, Bool, Option, none, some, List, [], ◌∷◌}
use certforge.Crates.{Crates}
use certforge.Acme.{
  chosen, create_order, fetched, collect_from, collect_challenges, set_one_ready, set_ready_from,
  set_challenges_ready, refreshed, pause, after_pending, on_status, wait_ready, finalize_order,
  issued_chain, fetch_chain, after_processing, on_download, wait_valid, download_certificate,
}
use certforge.Exec.Panics.{
  NeverPanics, NeverPanics-pure, NeverPanics-raise, NeverPanics-bind, panic_rules,
}
use certforge.World.{
  ChallengeType, Challenge, Authorization, OrderStatus, pending, ready, processing, valid, invalid,
  Io, Env,
}
use certforge.Renew.Build.{Instance}
use certforge.Renew.Order.{wait, complete_order}
use certforge.Safety.Lookups.{AllQuiet}
use certforge.Safety.Challenges.{serve_all-NeverPanics}

module _ (env : Env) where
  pub create_order-NeverPanics :
      (is_ip : Text → Bool) (domains : List Text) (profile : Option Text)
      → NeverPanics (create_order env is_ip domains profile)
  unfolding create_order
  create_order-NeverPanics is_ip domains profile = search panic_rules

  chosen-NeverPanics :
      (identifier : Text) (c : Option Challenge) → NeverPanics (chosen identifier c)
  unfolding chosen
  chosen-NeverPanics identifier none = search panic_rules
  chosen-NeverPanics identifier (some c) = search panic_rules

  fetched-NeverPanics : (auth : Option Authorization) → NeverPanics (fetched env auth)
  unfolding fetched
  fetched-NeverPanics auth = search panic_rules

  collect_from-NeverPanics :
      (types : List (Text × ChallengeType)) (auths : List (Option Authorization))
      → NeverPanics (collect_from env types auths)
  unfolding collect_from
  collect_from-NeverPanics types [] = NeverPanics-pure []
  collect_from-NeverPanics types (a ∷ auths) = NeverPanics-bind _ _ (fetched-NeverPanics a) λ auth.
      NeverPanics-bind _ _ (chosen-NeverPanics _ _) λ info.
        NeverPanics-bind _ _ (collect_from-NeverPanics types auths) λ infos. NeverPanics-pure _

  pub collect_challenges-NeverPanics :
      (types : List (Text × ChallengeType)) → NeverPanics (collect_challenges env types)
  unfolding collect_challenges
  collect_challenges-NeverPanics types = record {
    at = λ h. (collect_from-NeverPanics types (env.authorizations h)).at h;
  }

  set_one_ready-NeverPanics :
      (identifier : Text) (kind : ChallengeType) (c : Option Challenge)
      → NeverPanics (set_one_ready env identifier kind c)
  unfolding set_one_ready
  set_one_ready-NeverPanics identifier kind none = search panic_rules
  set_one_ready-NeverPanics identifier kind (some c) = search panic_rules

  set_ready_from-NeverPanics :
      (types : List (Text × ChallengeType)) (auths : List (Option Authorization))
      → NeverPanics (set_ready_from env types auths)
  unfolding set_ready_from
  set_ready_from-NeverPanics types [] = NeverPanics-pure tt
  set_ready_from-NeverPanics types (a ∷ auths) =
      NeverPanics-bind _ _ (fetched-NeverPanics a) λ auth.
        NeverPanics-bind _ _ (set_one_ready-NeverPanics _ _ _)
          λ _. set_ready_from-NeverPanics types auths

  set_challenges_ready-NeverPanics :
      (types : List (Text × ChallengeType)) → NeverPanics (set_challenges_ready env types)
  unfolding set_challenges_ready
  set_challenges_ready-NeverPanics types = record {
    at = λ h. (set_ready_from-NeverPanics types (env.authorizations h)).at h;
  }

  refreshed-NeverPanics : NeverPanics (refreshed env)
  unfolding refreshed
  refreshed-NeverPanics = search panic_rules

  pause-NeverPanics : NeverPanics (pause env)
  unfolding pause
  pause-NeverPanics = search panic_rules

  on_status-NeverPanics :
      (retries : ℕ) (again : Io (Unit {0})) (status : OrderStatus)
      → NeverPanics again
      → NeverPanics (on_status env retries again status)
  unfolding on_status after_pending
  on_status-NeverPanics retries again ready k = search panic_rules
  on_status-NeverPanics zero again pending k = search panic_rules
  on_status-NeverPanics (suc retries) again pending k = search (panic_rules, pause-NeverPanics)
  on_status-NeverPanics retries again invalid k = search panic_rules
  on_status-NeverPanics retries again processing k = search panic_rules
  on_status-NeverPanics retries again valid k = search panic_rules

  wait_ready-NeverPanics : (retries : ℕ) → NeverPanics (wait_ready env retries)
  unfolding wait_ready
  wait_ready-NeverPanics zero =
      NeverPanics-bind _ _ refreshed-NeverPanics
        λ status. on_status-NeverPanics zero _ status (NeverPanics-raise _)
  wait_ready-NeverPanics (suc retries) =
      NeverPanics-bind _ _ refreshed-NeverPanics
        λ status. on_status-NeverPanics (suc retries) _ status (wait_ready-NeverPanics retries)

  finalize_order-NeverPanics : (csr_der : Bytes) → NeverPanics (finalize_order env csr_der)
  unfolding finalize_order
  finalize_order-NeverPanics csr_der = search (panic_rules, wait_ready-NeverPanics)

  issued_chain-NeverPanics : (chain : Option Text) → NeverPanics (issued_chain env chain)
  unfolding issued_chain
  issued_chain-NeverPanics none = search panic_rules
  issued_chain-NeverPanics (some chain) = search panic_rules

  fetch_chain-NeverPanics : NeverPanics (fetch_chain env)
  unfolding fetch_chain
  fetch_chain-NeverPanics = search (panic_rules, issued_chain-NeverPanics)

  on_download-NeverPanics :
      (retries : ℕ) (again : Io Text) (status : OrderStatus)
      → NeverPanics again
      → NeverPanics (on_download env retries again status)
  unfolding on_download after_processing
  on_download-NeverPanics retries again valid k = fetch_chain-NeverPanics
  on_download-NeverPanics zero again processing k = search panic_rules
  on_download-NeverPanics (suc retries) again processing k = search (panic_rules, pause-NeverPanics)
  on_download-NeverPanics retries again pending k = search panic_rules
  on_download-NeverPanics retries again ready k = search panic_rules
  on_download-NeverPanics retries again invalid k = search panic_rules

  wait_valid-NeverPanics : (retries : ℕ) → NeverPanics (wait_valid env retries)
  unfolding wait_valid
  wait_valid-NeverPanics zero =
      NeverPanics-bind _ _ refreshed-NeverPanics
        λ status. on_download-NeverPanics zero _ status (NeverPanics-raise _)
  wait_valid-NeverPanics (suc retries) =
      NeverPanics-bind _ _ refreshed-NeverPanics
        λ status. on_download-NeverPanics (suc retries) _ status (wait_valid-NeverPanics retries)

  wait-NeverPanics : (delay : Option ℕ) → NeverPanics (wait delay)
  unfolding wait
  wait-NeverPanics none = search panic_rules
  wait-NeverPanics (some delay) = search panic_rules

  pub complete_order-NeverPanics :
      (crates : Crates) (types : List (Text × ChallengeType)) (csr_der : Bytes)
      (solvers : Dict Instance)
      → AllQuiet env solvers
      → NeverPanics (complete_order crates env types csr_der solvers)
  unfolding complete_order download_certificate
  complete_order-NeverPanics crates types csr_der solvers quiet =
      let served = serve_all-NeverPanics crates env solvers quiet in
      NeverPanics-bind _ _ (wait-NeverPanics _) λ _. NeverPanics-bind _ _ served λ _.
        NeverPanics-bind _ _ (set_challenges_ready-NeverPanics types) λ _.
          NeverPanics-bind _ _ served λ _.
            NeverPanics-bind _ _ (finalize_order-NeverPanics csr_der)
              λ _. NeverPanics-bind _ _ served λ _. wait_valid-NeverPanics _
