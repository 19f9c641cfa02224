-- ===== src/Exec/Panics.antt =====
-- Computations that never panic, with one rule for each way to build a computation.
use certforge.Base.{
  Bool, true, false, Option, none, some, List, [], ◌∷◌, ◌≡◌, ◌≢◌, refl, subst, if◌then◌else◌,
}
use certforge.Error.{eq_of_ok, Error, Result, ok, err, panic}
use certforge.Error
use certforge.Config.{ok_or}
use certforge.Exec.{
  Exec, pure, raise, lift, renamed, map_err, as_value, capture, continue, ◌>>=◌, when, for_each,
}
use certforge.World.{Event, Log, Env, ok_or_err, ask, observe, attempt}

abbrev pub NotPanic {ℓ} : {A : Type ℓ} → Result A → Type 0
NotPanic (ok _) = Unit
NotPanic (err _) = Unit
NotPanic panic = ⊥

-- a result that is not a panic
pub record IsSafe {ℓ} {A : Type ℓ} (r : Result A) : Type 0 where
  pub not_panic : NotPanic r

pub IsSafe-ok {ℓ} : {A : Type ℓ} (a : A) → IsSafe (ok a)
IsSafe-ok a = record { not_panic = tt }

pub IsSafe-err {ℓ} : {A : Type ℓ} (e : Error) → IsSafe {A = A} (err e)
IsSafe-err e = record { not_panic = tt }

pub IsSafe-ne {ℓ} : {A : Type ℓ} (r : Result A) → r ≢ panic → IsSafe r
IsSafe-ne (ok a) n = IsSafe-ok a
IsSafe-ne (err e) n = IsSafe-err e
IsSafe-ne panic n = absurd (n refl)

pub IsSafe-ok_or {ℓ} : {A : Type ℓ} (o : Option A) (e : Error) → IsSafe (ok_or o e)
IsSafe-ok_or none e = IsSafe-err e
IsSafe-ok_or (some a) e = IsSafe-ok a

pub IsSafe-ok_or_err : {A : Type 0} (e : Error) (o : Option A) → IsSafe (ok_or_err e o)
IsSafe-ok_or_err e none = IsSafe-err e
IsSafe-ok_or_err e (some a) = IsSafe-ok a

pub IsSafe-bind {ℓ κ} :
    {A : Type ℓ} {B : Type κ} (r : Result A) (f : A → Result B)
    → IsSafe r
    → ((a : A) → r ≡ ok a → IsSafe (f a))
    → IsSafe (Error.◌>>=◌ r f)
IsSafe-bind (ok a) f safe k = k a refl
IsSafe-bind (err e) f safe k = IsSafe-err e
IsSafe-bind panic f safe k = absurd safe.not_panic

pub record NeverPanics {S A : Type 0} (m : Exec S A) : Type 0 where
  pub at : (s : S) → IsSafe (m s).0

module _ {S : Type 0} where
  pub NeverPanics-pure : {A : Type 0} (a : A) → NeverPanics {S = S} (pure a)
  unfolding pure
  NeverPanics-pure a = record { at = λ s. IsSafe-ok a }

  pub NeverPanics-raise : {A : Type 0} (e : Error) → NeverPanics {S = S} (raise {A = A} e)
  unfolding raise
  NeverPanics-raise e = record { at = λ s. IsSafe-err e }

  pub NeverPanics-lift : {A : Type 0} (r : Result A) → IsSafe r → NeverPanics {S = S} (lift r)
  unfolding lift
  NeverPanics-lift r safe = record { at = λ s. safe }

  -- what follows may use that the first part ended well
  pub NeverPanics-bind_ok :
      {A B : Type 0} (m : Exec S A) (f : A → Exec S B)
      → NeverPanics m
      → ((a : A) (s : S) → (m s).0 ≡ ok a → NeverPanics (f a))
      → NeverPanics (m >>= f)
  unfolding ◌>>=◌
  NeverPanics-bind_ok {A} {B} m f km kf = record { at = λ s. rest s (m s).0 refl (km.at s) }
    where
      rest : (s : S) (r : Result A) → (m s).0 ≡ r → IsSafe r → IsSafe (continue r f (m s).1).0
      rest s (ok a) q safe = (kf a s q).at (m s).1
      rest s (err e) q safe = IsSafe-err e
      rest s panic q safe = absurd safe.not_panic

  pub NeverPanics-bind :
      {A B : Type 0} (m : Exec S A) (f : A → Exec S B)
      → NeverPanics m
      → ((a : A) → NeverPanics (f a))
      → NeverPanics (m >>= f)
  NeverPanics-bind m f km kf = NeverPanics-bind_ok m f km (λ a s q. kf a)

  pub NeverPanics-map_err :
      {A : Type 0} (e : Error) (m : Exec S A) → NeverPanics m → NeverPanics (map_err e m)
  unfolding map_err
  NeverPanics-map_err {A} e m k = record { at = λ s. same (m s).0 (k.at s) }
    where
      same : (r : Result A) → IsSafe r → IsSafe (renamed e r)
      same (ok a) safe = IsSafe-ok _
      same (err x) safe = IsSafe-err e
      same panic safe = absurd safe.not_panic

  pub NeverPanics-capture : {A : Type 0} (m : Exec S A) → NeverPanics m → NeverPanics (capture m)
  unfolding capture
  NeverPanics-capture {A} m k = record { at = λ s. same (m s).0 (k.at s) }
    where
      same : (r : Result A) → IsSafe r → IsSafe (as_value r)
      same (ok a) safe = IsSafe-ok _
      same (err x) safe = IsSafe-ok _
      same panic safe = absurd safe.not_panic

  -- what a panic leaves is not captured
  pub capture-IsSafe :
      {A : Type 0} (m : Exec S A) (s : S) {r : Result A} → (capture m s).0 ≡ ok r → IsSafe r
  unfolding capture
  capture-IsSafe {A} m s {r} e = kept (m s).0 e
    where
      kept : (x : Result A) → as_value x ≡ ok r → IsSafe r
      kept (ok a) q = subst IsSafe (eq_of_ok (ok a) r q) (IsSafe-ok a)
      kept (err x) q = subst IsSafe (eq_of_ok (err x) r q) (IsSafe-err x)
      kept panic q = absurd cc

  -- a handler is given no panic
  pub NeverPanics-handle :
      {A B : Type 0} (m : Exec S A) (f : Result A → Exec S B)
      → NeverPanics m
      → ((r : Result A) → IsSafe r → NeverPanics (f r))
      → NeverPanics (capture m >>= f)
  NeverPanics-handle m f km kf =
      NeverPanics-bind_ok (capture m) f (NeverPanics-capture m km)
        λ r s q. kf r (capture-IsSafe m s q)

  pub NeverPanics-if :
      {A : Type 0} (b : Bool) (m n : Exec S A)
      → NeverPanics m
      → NeverPanics n
      → NeverPanics (if b then m else n)
  NeverPanics-if true m n km kn = km
  NeverPanics-if false m n km kn = kn

  pub NeverPanics-when : (b : Bool) (m : Exec S (Unit {0})) → NeverPanics m → NeverPanics (when b m)
  NeverPanics-when true m k = k
  NeverPanics-when false m k = NeverPanics-pure tt

  pub NeverPanics-for_each :
      {A : Type 0} (body : A → Exec S (Unit {0})) (xs : List A)
      → ((x : A) → NeverPanics (body x))
      → NeverPanics (for_each body xs)
  unfolding for_each
  NeverPanics-for_each body [] k = NeverPanics-pure tt
  NeverPanics-for_each body (x ∷ xs) k =
      NeverPanics-bind (body x) (λ _. for_each body xs) (k x) (λ _. NeverPanics-for_each body xs k)

pub NeverPanics-ask :
    {A : Type 0} (e : Event) (answer : Log → Option A) (error : Error)
    → NeverPanics (ask e answer error)
unfolding ask
NeverPanics-ask e answer error = record { at = λ h. IsSafe-ok_or_err error (answer h) }

pub NeverPanics-observe :
    {A : Type 0} (e : Event) (answer : Log → A) → NeverPanics (observe e answer)
unfolding observe
NeverPanics-observe e answer = record { at = λ h. IsSafe-ok (answer h) }

pub NeverPanics-attempt :
    (env : Env) (e : Event) (error : Error) → NeverPanics (attempt env e error)
unfolding attempt
NeverPanics-attempt env e error = record { at = λ h. answered (env.succeeds h e) }
  where
    answered : (b : Bool) → IsSafe {A = Unit {0}} (if b then ok tt else err error)
    answered true = IsSafe-ok tt
    answered false = IsSafe-err error

pub ruleset panic_rules = (
  NeverPanics-pure, NeverPanics-raise, NeverPanics-lift, NeverPanics-bind, NeverPanics-map_err,
  NeverPanics-capture, NeverPanics-if, NeverPanics-when, NeverPanics-ask, NeverPanics-observe,
  NeverPanics-attempt, IsSafe-ok_or, IsSafe-ok_or_err,
)
