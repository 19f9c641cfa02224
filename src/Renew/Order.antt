-- ===== src/Renew/Order.antt =====
-- src/renew.rs, the middle of `renew_certificate`: challenges are presented, the order is completed,
-- and the challenges are cleaned up.
use certforge.Base.{
  Text, Bytes, Dict, get, insert, ltb, ℕ, Option, none, some, List, [], ◌∷◌, if◌then◌else◌,
}
use certforge.Error.{Result, ok, err, panic}
use certforge.Crates.{Crates}
use certforge.Acme.{ChallengeInfo, set_challenges_ready, finalize_order, download_certificate}
use certforge.Exec.{pure, raise, lift, capture, ◌>>=◌, ◌>>◌}
use certforge.World.{ChallengeType, sleep, Io, Env, observe}
use certforge.Solver.Any.{present, cleanup, propagation_delay, serve_solver}
use certforge.Renew.Build.{Instance}

-- `challenges.iter().zip(solver_names.iter())`
unfoldable pub zip_names : List ChallengeInfo → List Text → List (ChallengeInfo × Text)
zip_names [] names = []
zip_names (c ∷ challenges) [] = []
zip_names (c ∷ challenges) (name ∷ names) = (c, name) ∷ zip_names challenges names

-- `solvers[name]` panics where there is no such solver
unfoldable pub solver_at : Text → Dict Instance → Result Instance
solver_at name solvers = elim (get name solvers) [ none ↦ panic | some s ↦ ok s ]

-- the longest of the delays
unfoldable pub longer_delay : Option ℕ → Option ℕ → Option ℕ
longer_delay none d = d
longer_delay (some a) none = some a
longer_delay (some a) (some b) = some (if ltb a b then b else a)

unfoldable pub max_delay : Dict Instance → Option ℕ
max_delay [] = none
max_delay ((_, (solver, _)) ∷ solvers) = longer_delay (propagation_delay solver) (max_delay solvers)

unfoldable pub wait : Option ℕ → Io (Unit {0})
wait none = pure tt
wait (some delay) = observe (sleep delay) (λ _. tt)

module _ (crates : Crates) (env : Env) where
  unfoldable pub present_one :
      ChallengeInfo → Text → Dict Instance → Io (Dict Instance × Result (Unit {0}))
  present_one challenge name solvers = do
    solver ← lift (solver_at name solvers)
    step ← present crates env solver.0 challenge solver.1
    pure (insert name (solver.0, step.0) solvers, step.1)

  unfoldable pub cleanup_one : ChallengeInfo → Text → Dict Instance → Io (Dict Instance)
  cleanup_one challenge name solvers = do
    solver ← lift (solver_at name solvers)
    step ← cleanup crates env solver.0 challenge solver.1
    pure (insert name (solver.0, step.0) solvers)

  -- goes on with the next challenge unless there was an error
  unfoldable pub unless_failed :
      Dict Instance × Result (Unit {0})
      → (Dict Instance → Io (Dict Instance × Result (Unit {0})))
      → Io (Dict Instance × Result (Unit {0}))
  unless_failed (solvers, ok _) rest = rest solvers
  unless_failed (solvers, err e) rest = pure (solvers, err e)
  unless_failed (solvers, panic) rest = lift panic

  unfoldable pub present_all :
      List (ChallengeInfo × Text) → Dict Instance → Io (Dict Instance × Result (Unit {0}))
  present_all [] solvers = pure (solvers, ok tt)
  present_all ((challenge, name) ∷ pairs) solvers = do
    presented ← present_one challenge name solvers
    unless_failed presented (present_all pairs)

  -- errors are logged only
  unfoldable pub cleanup_all : List (ChallengeInfo × Text) → Dict Instance → Io (Dict Instance)
  cleanup_all [] solvers = pure solvers
  cleanup_all ((challenge, name) ∷ pairs) solvers = do
    cleaned ← cleanup_one challenge name solvers
    cleanup_all pairs cleaned

  -- the servers of all solvers
  unfoldable pub serve_all : Dict Instance → Io (Unit {0})
  serve_all [] = pure tt
  serve_all ((_, (solver, memory)) ∷ solvers) = do
    serve_solver crates env solver memory
    serve_all solvers

  -- the `async` block; the servers run beside it, and are heard between its parts
  unfoldable pub complete_order : List (Text × ChallengeType) → Bytes → Dict Instance → Io Text
  complete_order types csr_der solvers = do
    wait (max_delay solvers)
    serve_all solvers
    set_challenges_ready env types
    serve_all solvers
    finalize_order env csr_der
    serve_all solvers
    download_certificate env

  unfoldable pub finish_order :
      List (ChallengeInfo × Text)
      → (Dict Instance → Io Text)
      → Dict Instance × Result (Unit {0})
      → Io Text
  finish_order pairs order (solvers, ok _) = do
    order_result ← capture (order solvers)
    _ ← cleanup_all pairs solvers
    lift order_result
  finish_order pairs order (solvers, err e) = raise e
  finish_order pairs order (solvers, panic) = lift panic

  -- A challenge that cannot be presented ends the renewal at once.
  unfoldable pub solve :
      List (ChallengeInfo × Text) → Dict Instance → (Dict Instance → Io Text) → Io Text
  solve pairs solvers order = do
    presented ← present_all pairs solvers
    finish_order pairs order presented
