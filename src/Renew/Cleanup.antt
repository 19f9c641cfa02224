-- ===== src/Renew/Cleanup.antt =====
-- The cleanup of challenges after an order (src/renew.rs, `renew_certificate`).
use certforge.Base.{
  insert, ◌∙◌, Text, Bytes, Bool, false, Dict, get, is_some, Option, none, some, true, List, [],
  ◌∷◌, ◌≡◌, refl, All, All-imp,
}
use certforge.Error.{Result, ok, err, panic}
use certforge.Crates.{Crates}
use certforge.Acme.{ChallengeInfo}
use certforge.Exec.{lift, ◌>>=◌}
use certforge.Exec.Panics.{IsSafe, NeverPanics}
use certforge.Exec.Gives.{Gives-any, Succeeds, Succeeds-pure, Succeeds-bind, Succeeds-capture}
use certforge.Exec.Logs.{bind-rest}
use certforge.World.{Log, Io, Env, observe}
use certforge.Solver.TlsAlpn01.{serve}
use certforge.Solver.Any.{
  AnySolver, dns01_solver, webroot_solver, standalone_solver, tls_alpn_solver, stateless, cleanup,
  Step,
}
use certforge.Solver.Server.{Memory}
use certforge.Renew.Build.{Instance}
use certforge.Renew.Order.{solver_at, cleanup_one, present_all, cleanup_all, finish_order, solve}
use certforge.Safety.Solvers.{
  NoHandshake, IsQuiet, resolve_all-none, dns_cleanup-NeverPanics, cleanup_file-NeverPanics,
}
use certforge.Safety.Lookups.{HasFor, Has-insert, AllQuiet, AllQuiet-insert, AllQuiet-get}
use certforge.Safety.Challenges.{present_all-Kept, AllHave-Kept}

stateless-Succeeds :
    (m : Memory) (operation : Io (Unit {0}))
    → NeverPanics operation
    → Succeeds (stateless m operation)
unfolding stateless
stateless-Succeeds m operation k =
    Succeeds-bind _ _ (Succeeds-capture operation k) (Gives-any _) (λ r _. Succeeds-pure _)

module _ (crates : Crates) (env : Env) where
  serve-Succeeds :
      (running : Bool) (certs : Dict Bytes)
      → NoHandshake env
      → Succeeds (serve crates env running certs)
  unfolding serve observe ◌>>=◌
  serve-Succeeds false certs quiet = Succeeds-pure tt
  serve-Succeeds true certs quiet = record {
    at = λ h. (tt, resolve_all-none crates certs (env.handshakes h) (quiet h));
  }

  cleanup-Succeeds :
      (solver : AnySolver) (challenge : ChallengeInfo) (m : Memory)
      → IsQuiet env solver
      → Succeeds (cleanup crates env solver challenge m)
  unfolding cleanup
  cleanup-Succeeds (dns01_solver solver) challenge m quiet =
      stateless-Succeeds m _ (dns_cleanup-NeverPanics crates env solver challenge)
  cleanup-Succeeds (webroot_solver webroot) challenge m quiet =
      stateless-Succeeds m _ (cleanup_file-NeverPanics crates env webroot challenge)
  cleanup-Succeeds (standalone_solver listen) challenge m quiet = Succeeds-pure _
  cleanup-Succeeds (tls_alpn_solver listen) challenge m quiet =
      Succeeds-bind _ _ (serve-Succeeds m.running m.certs quiet) (Gives-any _)
        (λ _ _. Succeeds-pure _)

  -- The challenges are cleaned up one after the other, each by its own solver with what that has in
  -- memory; the solvers and the log go from `before` and `h` to `after` and `t`, whatever results the
  -- cleanups give.
  pub data Cleaned
      : (pairs : List (ChallengeInfo × Text)) (before : Dict Instance) (h : Log)
          (after : Dict Instance) (t : Log)
        → Type 0 where
    none_left : (solvers : Dict Instance) (h : Log) → Cleaned [] solvers h solvers h
    one_cleaned :
        (challenge : ChallengeInfo) (name : Text) (pairs : List (ChallengeInfo × Text))
        (before after : Dict Instance) (h t : Log) (solver : AnySolver) (memory : Memory)
        (step : Step)
        → get name before ≡ some (solver, memory)
        → (cleanup crates env solver challenge memory h).0 ≡ ok step
        → Cleaned pairs
            (insert name (solver, step.0) before)
            (cleanup crates env solver challenge memory h).1
            after
            t
        → Cleaned ((challenge, name) ∷ pairs) before h after t

  solver_at-get :
      (name : Text) (solvers : Dict Instance) (solver : Instance)
      → get name solvers ≡ some solver
      → solver_at name solvers ≡ ok solver
  unfolding solver_at
  solver_at-get name solvers solver g = rw (g, solver_at) refl

  cleanup_one-step :
      (challenge : ChallengeInfo) (name : Text) (solvers : Dict Instance) (h : Log)
      (solver : AnySolver) (memory : Memory) (step : Step)
      → get name solvers ≡ some (solver, memory)
      → (cleanup crates env solver challenge memory h).0 ≡ ok step
      → cleanup_one crates env challenge name solvers h ≡ (
        ok (insert name (solver, step.0) solvers),
        (cleanup crates env solver challenge memory h).1,
      )
  unfolding cleanup_one ◌>>=◌
  cleanup_one-step challenge name solvers h solver memory step g e =
      bind-rest (lift (solver_at name solvers)) _ h (solver_at-get name solvers (solver, memory) g)
      ∙ bind-rest (cleanup crates env solver challenge memory) _ h e

  find :
      (name : Text) (solvers : Dict Instance) (o : Option Instance)
      → get name solvers ≡ o
      → is_some o ≡ true
      → (solver : Instance) × (get name solvers ≡ some solver)
  find name solvers none g e = absurd cc
  find name solvers (some solver) g e = (solver, g)

  cleanup_all-Cleaned :
      (pairs : List (ChallengeInfo × Text)) (solvers : Dict Instance) (h : Log)
      → All (HasFor solvers) pairs
      → AllQuiet env solvers
      → (left : Dict Instance) × ((cleanup_all crates env pairs solvers h).0 ≡ ok left)
        × Cleaned pairs solvers h left (cleanup_all crates env pairs solvers h).1
  unfolding cleanup_all ◌>>=◌
  cleanup_all-Cleaned [] solvers h has quiet = (solvers, refl, none_left solvers h)
  cleanup_all-Cleaned ((challenge, name) ∷ pairs) solvers h has quiet =
      let ((solver, memory), g) = find name solvers (get name solvers) refl has.0 in
      let calm = AllQuiet-get env name solvers (solver, memory) quiet g in
      let (step, e) = (cleanup-Succeeds solver challenge memory calm).at h in
      let next = insert name (solver, step.0) solvers in
      let kept =
        All-imp (HasFor solvers) (HasFor next) pairs
          (λ p. Has-insert name (solver, step.0) solvers p.1) has.1 in
      let (left, ends, cleaned) =
        cleanup_all-Cleaned pairs next (cleanup crates env solver challenge memory h).1 kept
          (AllQuiet-insert env name (solver, step.0) solvers calm quiet) in
      let one = cleanup_one-step challenge name solvers h solver memory step g e in
      (
        left,
        rw one ends,
        rw one (one_cleaned challenge name pairs solvers left h _ solver memory step g e cleaned),
      )

  finish_order-cleanup :
      (pairs : List (ChallengeInfo × Text)) (order : Dict Instance → Io Text)
      (started : Dict Instance) (h : Log) (r : Result Text) (left : Dict Instance)
      → (order started h).0 ≡ r
      → IsSafe r
      → (cleanup_all crates env pairs started (order started h).1).0 ≡ ok left
      → finish_order crates env pairs order (started, ok tt) h
        ≡ (r, (cleanup_all crates env pairs started (order started h).1).1)
  unfolding finish_order ◌>>=◌
  finish_order-cleanup pairs order started h (ok chain) left e safe done = rw (e, done) refl
  finish_order-cleanup pairs order started h (err x) left e safe done = rw (e, done) refl
  finish_order-cleanup pairs order started h panic left e safe done = absurd safe.not_panic

  -- Once all challenges are presented, and the solver of each is there, each of them is cleaned up in
  -- turn by its own solver, after the order's requests and whatever the order's result is, an error
  -- too, but no panic. No result of a cleanup stops the rest, they are the last requests, and the
  -- result is the order's. No solver is a TLS-ALPN-01 solver, or no handshake names a server.
  pub solve-Cleaned :
      (pairs : List (ChallengeInfo × Text)) (solvers started : Dict Instance)
      (order : Dict Instance → Io Text) (h : Log)
      → All (HasFor solvers) pairs
      → AllQuiet env solvers
      → (present_all crates env pairs solvers h).0 ≡ ok (started, ok tt)
      → NeverPanics (order started)
      → let ordered = order started (present_all crates env pairs solvers h).1 in
        (left : Dict Instance) × (t : Log) × Cleaned pairs started ordered.1 left t
        × (solve crates env pairs solvers order h ≡ (ordered.0, t))
  unfolding solve ◌>>=◌
  solve-Cleaned pairs solvers started order h has quiet e safe =
      let presented = (present_all crates env pairs solvers h).1 in
      let kept = (present_all-Kept crates env pairs solvers).at h (started, ok tt) e in
      let (left, ends, cleaned) =
        cleanup_all-Cleaned pairs started (order started presented).1
          (AllHave-Kept crates env solvers (started, ok tt) pairs kept has) (kept.quiet quiet) in
      (
        left,
        _,
        cleaned,
        rw e (
            finish_order-cleanup pairs order started presented (order started presented).0 left refl
              (safe.at presented) ends),
      )
