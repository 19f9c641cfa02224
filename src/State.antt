-- ===== src/State.antt =====
-- src/state.rs: what is kept between two runs. `serde_json` is a parameter.
pub mod Files
use certforge.Base.{
  Text, Bytes, codes, ℕ, ◌+◌, ◌*◌, arith, Bool, true, false, Dict, Option, none, some, [], ◌<◌, ◌≡◌,
  ◌↔◌, if◌then◌else◌,
}
use certforge.Base.Int.{ℤ, pos, negsuc, ◌+ℤ◌, ◌-ℤ◌, ◌≤ℤ◌, leb_ℤ, div_ℤ}
use certforge.Base.Paths.{join}
use certforge.Error.{Error, io}
use certforge.Error
use certforge.Config.{FilePath}
use certforge.Certs.{num_seconds}
use certforge.Exec.{pure, raise, lift, ◌>>=◌, ◌>>◌}
use certforge.World.{
  path_exists, read_text, create_dir_all, write_file, Io, Env, ok_or_err, ask, observe, attempt,
}

pub record PendingRotation : Type 0 where
  pub pending_key_path : FilePath
  pub published_at : ℤ
  pub old_ttl : ℕ

pub record State : Type 0 where
  pub pending_rotations : Dict PendingRotation

-- `State::default`
abbrev pub no_state : State
no_state = record { pending_rotations = [] }

pub record Json : Type 0 where
  pub to_string_pretty : State → Option Text
  pub from_str : Text → Option State

unfoldable pub ttl_expired : PendingRotation → ℤ → Bool
ttl_expired pending now = leb_ℤ (pos pending.old_ttl) (num_seconds (now -ℤ pending.published_at))

abbrev pub state_path : FilePath → FilePath
state_path state_dir = join state_dir (codes "state.json")

module _ (env : Env) (json : Json) where
  unfoldable pub read_state : FilePath → Io State
  read_state path = do
    content ←
        ask (read_text path) (λ h. env.text h path) (Error.state "failed to read state file: {e}")
    lift (ok_or_err (Error.state "failed to parse state file: {e}") (json.from_str content))

  unfoldable pub load : FilePath → Io State
  load state_dir = do
    exists ← observe (path_exists (state_path state_dir)) (λ h. env.exists h (state_path state_dir))
    if exists then read_state (state_path state_dir) else pure no_state

  unfoldable pub save : State → FilePath → Io (Unit {0})
  save s state_dir = do
    attempt env (create_dir_all state_dir) io
    content ←
        lift (ok_or_err (Error.state "failed to serialize state: {e}") (json.to_string_pretty s))
    attempt env (write_file (state_path state_dir) content) io

seconds-le :
    (t : ℕ) (d : ℤ) → 0 < t → (leb_ℤ (pos t) (num_seconds d) ≡ true) ↔ (pos (t * 1000000000) ≤ℤ d)
unfolding div_ℤ
seconds-le t (pos n) positive = ground arith
seconds-le t (negsuc n) positive = ground arith

le-sub : (t : ℕ) (a b : ℤ) → (pos t ≤ℤ a -ℤ b) ↔ (b +ℤ pos t ≤ℤ a)
unfolding ◌-ℤ◌ ◌+ℤ◌
le-sub t a b = ground arith

-- For a TTL of a second or more, a pending rotation may go on exactly when that many seconds have
-- passed since the record was published, to the nanosecond.
pub ttl_expired_iff :
    (pending : PendingRotation) (now : ℤ)
    → 0 < pending.old_ttl
    → (ttl_expired pending now ≡ true)
      ↔ (pending.published_at +ℤ pos (pending.old_ttl * 1000000000) ≤ℤ now)
unfolding ttl_expired
ttl_expired_iff pending now positive =
    let seconds = seconds-le pending.old_ttl (now -ℤ pending.published_at) positive in
    let moved = le-sub (pending.old_ttl * 1000000000) now pending.published_at in
    (λ h. moved.0 (seconds.0 h), λ h. seconds.1 (moved.1 h))
