-- ===== src/Solver/Standalone.antt =====
-- The standalone HTTP-01 solver where no address can be bound (src/solver/http01.rs).
use certforge.Base.{false, List, [], ◌∷◌, ◌≡◌, refl}
use certforge.Error.{ok}
use certforge.Config.{SocketAddr}
use certforge.Crates.{Crates}
use certforge.Acme.{ChallengeInfo}
use certforge.Exec.{◌>>=◌}
use certforge.World.{bind, Log, Env, observe}
use certforge.Solver.Http01.{present_token}
use certforge.Solver.Server.{Memory, bind_any, start_server, ensure_server_running}
use certforge.Solver.Any.{standalone_solver, present}

module _ (crates : Crates) (env : Env) where
  -- no address can be bound
  abbrev pub NoneBinds : Type 0
  NoneBinds = (h : Log) (addr : SocketAddr) → env.succeeds h (bind addr) ≡ false

  bind_any-fails :
      (listen : List SocketAddr) (h : Log) → NoneBinds → (bind_any env listen h).0 ≡ ok false
  unfolding bind_any observe ◌>>=◌
  bind_any-fails [] h none_binds = refl
  bind_any-fails (addr ∷ listen) h none_binds =
      rw (none_binds h addr, bind_any-fails listen (bind addr ∷ h) none_binds) refl

  -- Where no address can be bound, no server runs, but the standalone solver still says that the
  -- challenge is presented, and puts its token where a server would look it up.
  pub present-NoneBinds :
      (listen : List SocketAddr) (challenge : ChallengeInfo) (m : Memory) (h : Log)
      → NoneBinds
      → m.running ≡ false
      → (present crates env (standalone_solver listen) challenge m h).0
        ≡ ok (record m { running = false; tokens = present_token challenge m.tokens }, ok tt)
  unfolding present ensure_server_running start_server ◌>>=◌
  present-NoneBinds listen challenge m h none_binds stopped =
      rw (stopped, bind_any-fails listen h none_binds) refl
