-- ===== src/Permissions/Settled.antt =====
-- A file that is as it should be is left alone.
use certforge.Base.{
  Text, ◌==◌, ℕ, ◌%◌, Bool, true, false, not, Option, none, some, ◌≡◌, refl, arith, if◌then◌else◌,
}
use certforge.Error.{Error, ok}
use certforge.Config.{FilePath}
use certforge.Exec.{raise}
use certforge.Exec.Logs.{
  Logs, Logs-pure, Logs-bind, Logs-bind_ok, Logs-when, bind-ok, pure-ok, raise-ne-ok,
}
use certforge.World.{Event, Log, Io, Metadata, Env, ok_or_err, ask}
use certforge.World.Rules.{IsReadOnly, Logs-ask, Logs-observe}
use certforge.Permissions.{
  desired_mode, has_nul, resolve_each, resolve_uid, resolve_gid, changed, apply_mode, apply_ids,
  apply_owner, apply_existing, apply,
}
use certforge.Permissions.Effects.{
  desired_mode-Logs, resolve_uid-Logs, resolve_gid-Logs, resolve_each-Logs,
}

-- The file has the mode, the owner and the group that are asked for, whenever it is looked at.
pub record IsSettled (env : Env) (path : FilePath) (mode : Option Text) (default : ℕ)
    (owner group : Option Text) : Type 0 where
  pub mode_kept :
      (h t : Log) (m : Metadata) (d : ℕ)
      → env.metadata h path ≡ some m
      → (desired_mode mode default t).0 ≡ ok d
      → m.mode % 4096 ≡ d
  pub owner_kept :
      (h t : Log) (m : Metadata) (name : Text) (n : ℕ)
      → owner ≡ some name
      → env.metadata h path ≡ some m
      → env.user_id t name ≡ some n
      → n ≡ m.uid
  pub group_kept :
      (h t : Log) (m : Metadata) (name : Text) (n : ℕ)
      → group ≡ some name
      → env.metadata h path ≡ some m
      → env.group_id t name ≡ some n
      → n ≡ m.gid

ask-ok :
    {A : Type 0} (e : Event) (answer : Log → Option A) (error : Error) (h : Log) {a : A}
    → (ask e answer error h).0 ≡ ok a
    → answer h ≡ some a
unfolding ask
ask-ok {A} e answer error h {a} q = cases (answer h) q
  where
    cases : (o : Option A) → ok_or_err error o ≡ ok a → o ≡ some a
    cases none f = absurd cc
    cases (some b) f = cc

-- a look-up behind the test for a zero byte
guarded-ok :
    {A : Type 0} (b : Bool) (refused missing : Error) (e : Event) (answer : Log → Option A)
    (h : Log) {a : A}
    → ((if b then raise refused else ask e answer missing) h).0 ≡ ok a
    → answer h ≡ some a
guarded-ok true refused missing e answer h q = absurd (raise-ne-ok refused h q)
guarded-ok false refused missing e answer h q = ask-ok e answer missing h q

module _ (env : Env) where
  resolve_uid-ok :
      (name : Text) (h : Log) (n : ℕ)
      → (resolve_uid env name h).0 ≡ ok n
      → env.user_id h name ≡ some n
  unfolding resolve_uid
  resolve_uid-ok name h n q = guarded-ok (has_nul name) _ _ _ _ h q

  resolve_gid-ok :
      (name : Text) (h : Log) (n : ℕ)
      → (resolve_gid env name h).0 ≡ ok n
      → env.group_id h name ≡ some n
  unfolding resolve_gid
  resolve_gid-ok name h n q = guarded-ok (has_nul name) _ _ _ _ h q

  unchanged :
      (resolve : Text → Io ℕ) (name : Option Text) (h : Log) (id : Option ℕ) (current : ℕ)
      → ((text : Text) (n : ℕ) → name ≡ some text → (resolve text h).0 ≡ ok n → n ≡ current)
      → (resolve_each resolve name h).0 ≡ ok id
      → changed id current ≡ false
  unfolding resolve_each
  unchanged resolve none h id current k q = rw (← pure-ok none h q) refl
  unchanged resolve (some text) h id current k q =
      let (n, a, b) = bind-ok (resolve text) _ h q in
      rw (← pure-ok (some n) _ b) (rw (k text n refl a) (ground arith))

  same_mode : (a b : ℕ) → a ≡ b → not (a == b) ≡ false
  same_mode a b e = ground arith

  module _ (path : FilePath) (mode : Option Text) (default : ℕ) (owner group : Option Text) where
    settled_owner :
        (settled : IsSettled env path mode default owner group) (h : Log) (m : Metadata)
        → env.metadata h path ≡ some m
        → Logs IsReadOnly (apply_owner env path m owner group false)
    unfolding apply_owner apply_ids
    settled_owner settled h m seen =
        Logs-bind_ok _ _ (resolve_each-Logs env _ owner (resolve_uid-Logs env)) λ uid t u.
          Logs-bind_ok _ _ (resolve_each-Logs env _ group (resolve_gid-Logs env)) λ gid t' g.
            rw
              (
                unchanged (resolve_uid env) owner t uid m.uid
                    (λ text n q f.
                      settled.owner_kept h t m text n q seen (resolve_uid-ok text t n f))
                    u,
                unchanged (resolve_gid env) group t' gid m.gid
                    (λ text n q f.
                      settled.group_kept h t' m text n q seen (resolve_gid-ok text t' n f))
                    g,
              )
              (Logs-pure tt)

    settled_mode :
        (current desired : ℕ)
        → current ≡ desired
        → Logs IsReadOnly (apply_mode env path current desired false)
    unfolding apply_mode
    settled_mode current desired e = rw (same_mode current desired e) (Logs-pure tt)

    -- Outside of a dry run too, a file that has the mode, owner and group that are asked for is only
    -- looked at.
    pub apply-IsSettled :
        IsSettled env path mode default owner group
        → Logs IsReadOnly (apply env path mode default owner group false)
    unfolding apply apply_existing
    apply-IsSettled settled = Logs-bind _ _ (Logs-observe _ _ (λ _. tt)) λ exists.
        Logs-when exists _ (
          Logs-bind_ok _ _ (desired_mode-Logs env mode default) λ desired t d.
            Logs-bind_ok _ _ (Logs-ask _ _ _ (λ _. tt)) λ metadata h a.
              let seen = ask-ok _ _ _ h a in
              Logs-bind _ _
                (settled_mode (metadata.mode % 4096) desired
                  (settled.mode_kept h t metadata desired seen d))
                λ _. Logs-when _ _ (settled_owner settled h metadata seen))
