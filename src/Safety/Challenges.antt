-- ===== src/Safety/Challenges.antt =====
-- The challenges of a certificate (src/renew.rs), from their start to their cleanup.
use certforge.Base.{Text, Dict, All, All-imp, List, [], ◌∷◌}
use certforge.Error.{Result, ok, err, panic}
use certforge.Crates.{Crates}
use certforge.Acme.{ChallengeInfo}
use certforge.Exec.Panics.{
  IsSafe, IsSafe-ok, NeverPanics, NeverPanics-pure, NeverPanics-raise, NeverPanics-lift,
  NeverPanics-bind, NeverPanics-handle,
}
use certforge.Exec.Gives.{
  Gives, Gives-pure, Gives-any, Gives-bind, NeverPanics-bind-Gives, Gives-lift,
}
use certforge.World.{Io, Env}
use certforge.Renew.Build.{Instance}
use certforge.Renew.Order.{
  zip_names, present_one, cleanup_one, unless_failed, present_all, cleanup_all, finish_order, solve,
  serve_all,
}
use certforge.Safety.Solvers.{
  serve_solver-NeverPanics, present-NeverPanics, present-Gives, cleanup-NeverPanics,
}
use certforge.Safety.Lookups.{
  Has, HasFor, Has-insert, All-zip, solver_at-IsSafe, AllQuiet, AllQuiet-insert, AllQuiet-get,
  solver_at-get,
}

abbrev Pairs : Type 0
Pairs = List (ChallengeInfo × Text)

-- the solvers for the challenges that are there, with a result that is no panic
pub record Kept (env : Env) (before : Dict Instance) (r : Dict Instance × Result (Unit {0}))
    : Type 0 where
  pub has : (p : ChallengeInfo × Text) → HasFor before p → HasFor r.0 p
  pub quiet : AllQuiet env before → AllQuiet env r.0
  pub safe : IsSafe r.1

module _ (crates : Crates) (env : Env) where
  present_one-Kept :
      (challenge : ChallengeInfo) (name : Text) (solvers : Dict Instance)
      → Gives (Kept env solvers) (present_one crates env challenge name solvers)
  unfolding present_one
  present_one-Kept challenge name solvers = Gives-bind _ _ (Gives-lift _) λ solver found.
      Gives-bind _ _ (present-Gives crates env solver.0 challenge solver.1) λ step safe.
        Gives-pure _ (record {
          has = λ p. Has-insert name (solver.0, step.0) solvers p.1;
          quiet = λ q.
              AllQuiet-insert env name (solver.0, step.0) solvers
                (AllQuiet-get env name solvers solver q (solver_at-get name solvers solver found))
                q;
          safe = safe;
        })

  present_one-NeverPanics :
      (challenge : ChallengeInfo) (name : Text) (solvers : Dict Instance)
      → Has solvers name
      → AllQuiet env solvers
      → NeverPanics (present_one crates env challenge name solvers)
  unfolding present_one
  present_one-NeverPanics challenge name solvers h quiet =
      NeverPanics-bind-Gives _ _ (NeverPanics-lift _ (solver_at-IsSafe name solvers h))
        (Gives-lift _)
        λ solver found.
          let q =
            AllQuiet-get env name solvers solver quiet (solver_at-get name solvers solver found) in
          NeverPanics-bind _ _ (present-NeverPanics crates env solver.0 challenge solver.1 q)
            λ step. NeverPanics-pure _

  unless_failed-NeverPanics :
      (before : Dict Instance) (presented : Dict Instance × Result (Unit {0}))
      (rest : Dict Instance → Io (Dict Instance × Result (Unit {0})))
      → Kept env before presented
      → NeverPanics (rest presented.0)
      → NeverPanics (unless_failed crates env presented rest)
  unfolding unless_failed
  unless_failed-NeverPanics before (solvers, ok _) rest kept k = k
  unless_failed-NeverPanics before (solvers, err e) rest kept k = NeverPanics-pure _
  unless_failed-NeverPanics before (solvers, panic) rest kept k = absurd kept.safe.not_panic

  unless_failed-Kept :
      (before : Dict Instance) (presented : Dict Instance × Result (Unit {0}))
      (rest : Dict Instance → Io (Dict Instance × Result (Unit {0})))
      → Kept env before presented
      → Gives (Kept env presented.0) (rest presented.0)
      → Gives (Kept env before) (unless_failed crates env presented rest)
  unfolding unless_failed
  unless_failed-Kept before (solvers, ok _) rest kept k = record {
    at = λ s a q. record {
      has = λ p h. (k.at s a q).has p (kept.has p h);
      quiet = λ h. (k.at s a q).quiet (kept.quiet h);
      safe = (k.at s a q).safe;
    };
  }
  unless_failed-Kept before (solvers, err e) rest kept k = Gives-pure _ kept
  unless_failed-Kept before (solvers, panic) rest kept k = absurd kept.safe.not_panic

  pub present_all-Kept :
      (pairs : Pairs) (solvers : Dict Instance)
      → Gives (Kept env solvers) (present_all crates env pairs solvers)
  unfolding present_all
  present_all-Kept [] solvers =
      Gives-pure _ (record { has = λ p h. h; quiet = λ q. q; safe = IsSafe-ok tt })
  present_all-Kept ((challenge, name) ∷ pairs) solvers =
      Gives-bind _ _ (present_one-Kept challenge name solvers) λ presented kept.
        unless_failed-Kept solvers presented _ kept (present_all-Kept pairs presented.0)

  abbrev AllHave : Dict Instance → Pairs → Type 0
  AllHave solvers pairs = All (HasFor solvers) pairs

  pub AllHave-Kept :
      (before : Dict Instance) (r : Dict Instance × Result (Unit {0})) (pairs : Pairs)
      → Kept env before r
      → AllHave before pairs
      → AllHave r.0 pairs
  AllHave-Kept before r pairs kept = All-imp (HasFor before) (HasFor r.0) pairs kept.has

  present_all-NeverPanics :
      (pairs : Pairs) (solvers : Dict Instance)
      → AllHave solvers pairs
      → AllQuiet env solvers
      → NeverPanics (present_all crates env pairs solvers)
  unfolding present_all
  present_all-NeverPanics [] solvers h quiet = NeverPanics-pure _
  present_all-NeverPanics ((challenge, name) ∷ pairs) solvers h quiet =
      NeverPanics-bind-Gives _ _ (present_one-NeverPanics challenge name solvers h.0 quiet)
        (present_one-Kept challenge name solvers)
        λ presented kept. unless_failed-NeverPanics solvers presented _ kept (
          present_all-NeverPanics pairs presented.0 (AllHave-Kept solvers presented pairs kept h.1)
            (kept.quiet quiet))

  abbrev KeptAll : Dict Instance → Dict Instance → Type 0
  KeptAll before after =
      ((p : ChallengeInfo × Text) → HasFor before p → HasFor after p)
      × (AllQuiet env before → AllQuiet env after)

  pub cleanup_one-Has :
      (challenge : ChallengeInfo) (name : Text) (solvers : Dict Instance)
      → Gives (KeptAll solvers) (cleanup_one crates env challenge name solvers)
  unfolding cleanup_one
  cleanup_one-Has challenge name solvers = Gives-bind _ _ (Gives-lift _) λ solver found.
      Gives-bind _ _ (Gives-any _) λ step _. Gives-pure _ (
        λ p. Has-insert name (solver.0, step.0) solvers p.1,
        λ q.
            AllQuiet-insert env name (solver.0, step.0) solvers
              (AllQuiet-get env name solvers solver q (solver_at-get name solvers solver found)) q,
      )

  cleanup_one-NeverPanics :
      (challenge : ChallengeInfo) (name : Text) (solvers : Dict Instance)
      → Has solvers name
      → AllQuiet env solvers
      → NeverPanics (cleanup_one crates env challenge name solvers)
  unfolding cleanup_one
  cleanup_one-NeverPanics challenge name solvers h quiet =
      NeverPanics-bind-Gives _ _ (NeverPanics-lift _ (solver_at-IsSafe name solvers h))
        (Gives-lift _)
        λ solver found.
          let q =
            AllQuiet-get env name solvers solver quiet (solver_at-get name solvers solver found) in
          NeverPanics-bind _ _ (cleanup-NeverPanics crates env solver.0 challenge solver.1 q)
            λ step. NeverPanics-pure _

  cleanup_all-NeverPanics :
      (pairs : Pairs) (solvers : Dict Instance)
      → AllHave solvers pairs
      → AllQuiet env solvers
      → NeverPanics (cleanup_all crates env pairs solvers)
  unfolding cleanup_all
  cleanup_all-NeverPanics [] solvers h quiet = NeverPanics-pure _
  cleanup_all-NeverPanics ((challenge, name) ∷ pairs) solvers h quiet =
      NeverPanics-bind-Gives _ _ (cleanup_one-NeverPanics challenge name solvers h.0 quiet)
        (cleanup_one-Has challenge name solvers)
        λ cleaned kept.
          cleanup_all-NeverPanics pairs cleaned
            (All-imp (HasFor solvers) (HasFor cleaned) pairs kept.0 h.1) (kept.1 quiet)

  finish_order-NeverPanics :
      (pairs : Pairs) (order : Dict Instance → Io Text) (before : Dict Instance)
      (presented : Dict Instance × Result (Unit {0}))
      → Kept env before presented
      → AllHave before pairs
      → AllQuiet env before
      → ((s : Dict Instance) → AllQuiet env s → NeverPanics (order s))
      → NeverPanics (finish_order crates env pairs order presented)
  unfolding finish_order
  finish_order-NeverPanics pairs order before (solvers, ok _) kept h quiet k =
      NeverPanics-handle _ _ (k solvers (kept.quiet quiet)) λ result safe.
        NeverPanics-bind _ _
          (cleanup_all-NeverPanics pairs solvers (AllHave-Kept before _ pairs kept h)
            (kept.quiet quiet))
          λ _. NeverPanics-lift result safe
  finish_order-NeverPanics pairs order before (solvers, err e) kept h quiet k = NeverPanics-raise e
  finish_order-NeverPanics pairs order before (solvers, panic) kept h quiet k =
      absurd kept.safe.not_panic

  pub serve_all-NeverPanics :
      (solvers : Dict Instance) → AllQuiet env solvers → NeverPanics (serve_all crates env solvers)
  unfolding serve_all
  serve_all-NeverPanics [] quiet = NeverPanics-pure tt
  serve_all-NeverPanics ((_, (solver, memory)) ∷ solvers) quiet =
      NeverPanics-bind _ _ (serve_solver-NeverPanics crates env solver memory quiet.0)
        λ _. serve_all-NeverPanics solvers quiet.1

  pub solve-NeverPanics :
      (challenges : List ChallengeInfo) (names : List Text) (solvers : Dict Instance)
      (order : Dict Instance → Io Text)
      → All (Has solvers) names
      → AllQuiet env solvers
      → ((s : Dict Instance) → AllQuiet env s → NeverPanics (order s))
      → NeverPanics (solve crates env (zip_names challenges names) solvers order)
  unfolding solve
  solve-NeverPanics challenges names solvers order h quiet k =
      let pairs = zip_names challenges names in
      let has = All-zip solvers challenges names h in
      NeverPanics-bind-Gives _ _ (present_all-NeverPanics pairs solvers has quiet)
        (present_all-Kept pairs solvers)
        λ presented kept. finish_order-NeverPanics pairs order solvers presented kept has quiet k
