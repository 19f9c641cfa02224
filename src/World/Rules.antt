-- ===== src/World/Rules.antt =====
-- Which requests change nothing outside the process, and the rules of `Logs` for requests.
use certforge.Base.{Option, none, some, ◌∷◌, ◌≡◌, refl}
use certforge.Error.{Error}
use certforge.Exec.Logs.{Extends, Extends-trans, Logs, same, more, logs_rules}
use certforge.Exec.{continue, ◌>>=◌}
use certforge.World.{
  Event, read_clock, sleep, path_exists, read_file, read_text, read_metadata, look_up_user,
  look_up_group, decrypt, generate_key, generate_csr, generate_alpn_cert, resolve, connect,
  query_tlsa, refresh, fetch_authorizations, fetch_certificate, connect_bus, build_proxy, get_unit,
  get_active_state, load_account, print, Log, Io, Env, ok_or_err, ask, observe, attempt,
}

-- The request only reads or prints, or makes something that stays in memory.
abbrev pub IsReadOnly : Event → Log → Type 0
IsReadOnly read_clock _ = Unit
IsReadOnly (sleep _) _ = Unit
IsReadOnly (path_exists _) _ = Unit
IsReadOnly (read_file _) _ = Unit
IsReadOnly (read_text _) _ = Unit
IsReadOnly (read_metadata _) _ = Unit
IsReadOnly (look_up_user _) _ = Unit
IsReadOnly (look_up_group _) _ = Unit
IsReadOnly (decrypt _) _ = Unit
IsReadOnly (generate_key _) _ = Unit
IsReadOnly (generate_csr _ _ _) _ = Unit
IsReadOnly (generate_alpn_cert _ _) _ = Unit
IsReadOnly (resolve _ _) _ = Unit
IsReadOnly (connect _) _ = Unit
IsReadOnly (query_tlsa _) _ = Unit
IsReadOnly refresh _ = Unit
IsReadOnly fetch_authorizations _ = Unit
IsReadOnly fetch_certificate _ = Unit
IsReadOnly connect_bus _ = Unit
IsReadOnly (build_proxy _) _ = Unit
IsReadOnly (get_unit _) _ = Unit
IsReadOnly (get_active_state _) _ = Unit
IsReadOnly (load_account _) _ = Unit
IsReadOnly (print _ _) _ = Unit
IsReadOnly _ _ = ⊥

module _ {P : Event → Log → Type 0} where
  pub Logs-ask :
      {A : Type 0} (e : Event) (answer : Log → Option A) (error : Error)
      → ((h : Log) → P e h)
      → Logs P (ask e answer error)
  unfolding ask
  Logs-ask e answer error p = record { at = λ h. more (p h) same }

  pub Logs-observe :
      {A : Type 0} (e : Event) (answer : Log → A) → ((h : Log) → P e h) → Logs P (observe e answer)
  unfolding observe
  Logs-observe e answer p = record { at = λ h. more (p h) same }

  pub Logs-attempt :
      (env : Env) (e : Event) (error : Error) → ((h : Log) → P e h) → Logs P (attempt env e error)
  unfolding attempt
  Logs-attempt env e error p = record { at = λ h. more (p h) same }

  -- what follows may use which answer was given, and when
  pub Logs-ask_bind :
      {A B : Type 0} (e : Event) (answer : Log → Option A) (error : Error) (f : A → Io B)
      → ((h : Log) → P e h)
      → ((h : Log) (a : A) → answer h ≡ some a → Extends P (e ∷ h) (f a (e ∷ h)).1)
      → Logs P (ask e answer error >>= f)
  unfolding ask ◌>>=◌
  Logs-ask_bind {A} e answer error f p k = record { at = λ h. cases h (answer h) refl }
    where
      cases :
          (h : Log) (o : Option A)
          → answer h ≡ o
          → Extends P h (continue (ok_or_err error o) f (e ∷ h)).1
      cases h none q = more (p h) same
      cases h (some a) q = Extends-trans (more (p h) same) (k h a q)

pub ruleset io_rules = (logs_rules, Logs-ask, Logs-observe, Logs-attempt)
