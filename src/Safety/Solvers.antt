-- ===== src/Safety/Solvers.antt =====
-- The solvers (src/solver), and where they may panic.
use certforge.Base.{
  Text, Bytes, Bool, true, false, Dict, Option, none, some, ne_some, All, List, [], ◌∷◌, ◌≡◌, refl,
  sym, subst,
}
use certforge.Error.{Error, Result, ok, err, panic, eq_of_ok}
use certforge.Config.{SocketAddr}
use certforge.Crates.{Crates}
use certforge.Acme.{ChallengeInfo}
use certforge.Exec.Panics.{
  IsSafe, IsSafe-ok, IsSafe-ok_or, IsSafe-err, NeverPanics, NeverPanics-pure, NeverPanics-bind,
  NeverPanics-observe, NeverPanics-lift, NeverPanics-bind_ok, NeverPanics-capture, panic_rules,
}
use certforge.Exec.Gives.{Gives, Gives-pure, Gives-any, Gives-bind, Gives-capture}
use certforge.World.{Io, Env, Event, Log, observe}
use certforge.Solver.Dns01.{Dns01Solver, resolve_zone}
use certforge.Solver.Dns01
use certforge.Solver.Http01.{present_file, cleanup_file}
use certforge.Solver.Server.{Memory, bind_any, start_server, ensure_server_running}
use certforge.Solver.TlsAlpn01.{resolve_cert, resolve_all, serve, check_params, generate_acme_cert}
use certforge.Solver.Any.{
  AnySolver, dns01_solver, webroot_solver, standalone_solver, tls_alpn_solver, Step, stateless,
  after_cert, present, cleanup, serve_solver,
}
use certforge.Safety.Files.{make_parent-NeverPanics}
use certforge.Safety.Dns.{
  load_tsig_signer-NeverPanics, connect_updater-NeverPanics, update-NeverPanics,
}
use certforge.Dns.Update.{add_txt_record, delete_txt_record}

resolve_zone-IsSafe : (solver : Dns01Solver) (name : Text) → IsSafe (resolve_zone solver name)
unfolding resolve_zone
resolve_zone-IsSafe solver name = IsSafe-ok_or _ _

observe-ok :
    {A : Type 0} (e : Event) (answer : Log → A) (h : Log) {a : A}
    → (observe e answer h).0 ≡ ok a
    → answer h ≡ a
unfolding observe
observe-ok e answer h q = eq_of_ok _ _ q

stateless-NeverPanics :
    (m : Memory) (operation : Io (Unit {0}))
    → NeverPanics operation
    → NeverPanics (stateless m operation)
unfolding stateless
stateless-NeverPanics m operation k = search panic_rules

-- the result that a solver gives is no panic
abbrev pub StepSafe : Step → Type 0
StepSafe step = IsSafe step.1

stateless-Gives : (m : Memory) (operation : Io (Unit {0})) → Gives StepSafe (stateless m operation)
unfolding stateless
stateless-Gives m operation = Gives-bind _ _ (Gives-capture operation) (λ r safe. Gives-pure _ safe)

-- no handshake names a server
abbrev pub NoHandshake : Env → Type 0
NoHandshake env = (h : Log) → All (λ name. name ≡ none) (env.handshakes h)

-- a TLS-ALPN-01 solver only where no handshake names a server
abbrev pub IsQuiet : Env → AnySolver → Type 0
IsQuiet env (dns01_solver _) = Unit
IsQuiet env (webroot_solver _) = Unit
IsQuiet env (standalone_solver _) = Unit
IsQuiet env (tls_alpn_solver _) = NoHandshake env

pub resolve_all-none :
    (crates : Crates) (certs : Dict Bytes) (names : List (Option Text))
    → All (λ name. name ≡ none) names
    → resolve_all crates certs names ≡ ok tt
unfolding resolve_all resolve_cert
resolve_all-none crates certs [] none_named = refl
resolve_all-none crates certs (none ∷ names) none_named =
    resolve_all-none crates certs names none_named.1
resolve_all-none crates certs (some name ∷ names) none_named = absurd (ne_some (sym none_named.0))

module _ (crates : Crates) (env : Env) where
  serve-NeverPanics :
      (running : Bool) (certs : Dict Bytes)
      → NoHandshake env
      → NeverPanics (serve crates env running certs)
  unfolding serve
  serve-NeverPanics false certs quiet = NeverPanics-pure tt
  serve-NeverPanics true certs quiet =
      NeverPanics-bind_ok _ _ (NeverPanics-observe _ _) λ names h q.
        let all_none = subst (All (λ name. name ≡ none)) (observe-ok _ _ h q) (quiet h) in
        NeverPanics-lift _
          (subst IsSafe (sym (resolve_all-none crates certs names all_none)) (IsSafe-ok tt))

  pub serve_solver-NeverPanics :
      (solver : AnySolver) (m : Memory)
      → IsQuiet env solver
      → NeverPanics (serve_solver crates env solver m)
  unfolding serve_solver
  serve_solver-NeverPanics (dns01_solver _) m quiet = NeverPanics-pure tt
  serve_solver-NeverPanics (webroot_solver _) m quiet = NeverPanics-pure tt
  serve_solver-NeverPanics (standalone_solver _) m quiet = NeverPanics-pure tt
  serve_solver-NeverPanics (tls_alpn_solver _) m quiet = serve-NeverPanics m.running m.certs quiet

  module _ (solver : Dns01Solver) (challenge : ChallengeInfo) where
    dns_present-NeverPanics : NeverPanics (Dns01.present crates env solver challenge)
    unfolding Dns01.present add_txt_record
    dns_present-NeverPanics =
        search
          (
            panic_rules, resolve_zone-IsSafe, load_tsig_signer-NeverPanics,
            connect_updater-NeverPanics, update-NeverPanics,
          )
          depth 16

    pub dns_cleanup-NeverPanics : NeverPanics (Dns01.cleanup crates env solver challenge)
    unfolding Dns01.cleanup delete_txt_record
    dns_cleanup-NeverPanics =
        search
          (
            panic_rules, resolve_zone-IsSafe, load_tsig_signer-NeverPanics,
            connect_updater-NeverPanics, update-NeverPanics,
          )
          depth 16

  present_file-NeverPanics :
      (webroot : Text) (challenge : ChallengeInfo)
      → NeverPanics (present_file env webroot challenge)
  unfolding present_file
  present_file-NeverPanics webroot challenge = search (panic_rules, make_parent-NeverPanics)

  pub cleanup_file-NeverPanics :
      (webroot : Text) (challenge : ChallengeInfo)
      → NeverPanics (cleanup_file env webroot challenge)
  unfolding cleanup_file
  cleanup_file-NeverPanics webroot challenge = search panic_rules

  bind_any-NeverPanics : (listen : List SocketAddr) → NeverPanics (bind_any env listen)
  unfolding bind_any
  bind_any-NeverPanics [] = NeverPanics-pure false
  bind_any-NeverPanics (addr ∷ listen) =
      NeverPanics-bind _ _ (NeverPanics-observe _ _)
        λ b. NeverPanics-bind _ _ (bind_any-NeverPanics listen) λ others. NeverPanics-pure _

  ensure_server_running-NeverPanics :
      (error : Error) (listen : List SocketAddr) (running : Bool)
      → NeverPanics (ensure_server_running env error listen running)
  unfolding ensure_server_running start_server
  ensure_server_running-NeverPanics error listen true = NeverPanics-pure true
  ensure_server_running-NeverPanics error listen false = search (panic_rules, bind_any-NeverPanics)

  generate_acme_cert-NeverPanics :
      (identifier key_authorization : Text)
      → NeverPanics (generate_acme_cert crates env identifier key_authorization)
  unfolding generate_acme_cert check_params
  generate_acme_cert-NeverPanics identifier key_authorization = search panic_rules depth 12

  after_cert-StepSafe :
      (challenge : ChallengeInfo) (m : Memory) (r : Result Bytes)
      → IsSafe r
      → StepSafe (after_cert challenge m r)
  after_cert-StepSafe challenge m (ok key) safe = IsSafe-ok tt
  after_cert-StepSafe challenge m (err e) safe = IsSafe-err e
  after_cert-StepSafe challenge m panic safe = absurd safe.not_panic

  pub present-NeverPanics :
      (solver : AnySolver) (challenge : ChallengeInfo) (m : Memory)
      → IsQuiet env solver
      → NeverPanics (present crates env solver challenge m)
  unfolding present
  present-NeverPanics (dns01_solver solver) challenge m quiet =
      stateless-NeverPanics m _ (dns_present-NeverPanics solver challenge)
  present-NeverPanics (webroot_solver webroot) challenge m quiet =
      stateless-NeverPanics m _ (present_file-NeverPanics webroot challenge)
  present-NeverPanics (standalone_solver listen) challenge m quiet =
      search (panic_rules, ensure_server_running-NeverPanics)
  present-NeverPanics (tls_alpn_solver listen) challenge m quiet =
      NeverPanics-bind _ _ (ensure_server_running-NeverPanics _ listen m.running) λ running.
        NeverPanics-bind _ _ (serve-NeverPanics running m.certs quiet) λ _.
          NeverPanics-bind _ _
            (NeverPanics-capture _
              (generate_acme_cert-NeverPanics challenge.identifier challenge.key_authorization))
            λ key. NeverPanics-pure _

  pub present-Gives :
      (solver : AnySolver) (challenge : ChallengeInfo) (m : Memory)
      → Gives StepSafe (present crates env solver challenge m)
  unfolding present
  present-Gives (dns01_solver solver) challenge m = stateless-Gives m _
  present-Gives (webroot_solver webroot) challenge m = stateless-Gives m _
  present-Gives (standalone_solver listen) challenge m =
      Gives-bind _ _ (Gives-any _) (λ running _. Gives-pure _ (IsSafe-ok tt))
  present-Gives (tls_alpn_solver listen) challenge m = Gives-bind _ _ (Gives-any _) λ running _.
      Gives-bind _ _ (Gives-any _) λ _ _.
        Gives-bind _ _ (Gives-capture _)
          λ r safe. Gives-pure _ (after_cert-StepSafe challenge _ r safe)

  pub cleanup-NeverPanics :
      (solver : AnySolver) (challenge : ChallengeInfo) (m : Memory)
      → IsQuiet env solver
      → NeverPanics (cleanup crates env solver challenge m)
  unfolding cleanup
  cleanup-NeverPanics (dns01_solver solver) challenge m quiet =
      stateless-NeverPanics m _ (dns_cleanup-NeverPanics solver challenge)
  cleanup-NeverPanics (webroot_solver webroot) challenge m quiet =
      stateless-NeverPanics m _ (cleanup_file-NeverPanics webroot challenge)
  cleanup-NeverPanics (standalone_solver listen) challenge m quiet = search panic_rules
  cleanup-NeverPanics (tls_alpn_solver listen) challenge m quiet =
      NeverPanics-bind _ _ (serve-NeverPanics m.running m.certs quiet) λ _. NeverPanics-pure _
