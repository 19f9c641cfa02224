-- ===== src/Solver/Server.antt =====
-- src/solver/http01.rs and src/solver/tls_alpn01.rs: the start of a challenge server, and what a
-- solver keeps in memory.
use certforge.Base.{Text, Bytes, Dict, Bool, true, false, ◌||◌, List, [], ◌∷◌, if◌then◌else◌}
use certforge.Error.{Error, is_ok}
use certforge.Config.{SocketAddr}
use certforge.Exec.{pure, raise, capture, ◌>>=◌}
use certforge.World.{bind, Io, Env, observe}

-- `_server_handle` is set once a server runs; a solver uses `tokens` or `certs`
pub record Memory : Type 0 where
  pub running : Bool
  pub tokens : Dict Text
  pub certs : Dict Bytes

abbrev pub new_memory : Memory
new_memory = record { running = false; tokens = []; certs = [] }

module _ (env : Env) where
  -- all addresses are tried, and one is enough
  unfoldable pub bind_any : List SocketAddr → Io Bool
  bind_any [] = pure false
  bind_any (addr ∷ listen) = do
    bound ← observe (bind addr) (λ h. env.succeeds h (bind addr))
    others ← bind_any listen
    pure (bound || others)

  unfoldable pub start_server : Error → List SocketAddr → Io (Unit {0})
  start_server error listen = do bound ← bind_any listen; if bound then pure tt else raise error

  -- the result of `get_or_try_init` is dropped
  unfoldable pub ensure_server_running : Error → List SocketAddr → Bool → Io Bool
  ensure_server_running error listen true = pure true
  ensure_server_running error listen false = do
    started ← capture (start_server error listen)
    pure (is_ok started)
