-- ===== src/Exec.antt =====
-- Code with effects: a computation takes a state and returns a result beside the state that it left,
-- on an error too.
pub mod Logs
pub mod Panics
pub mod Gives
use certforge.Base.{Bool, true, false, List, [], ◌∷◌}
use certforge.Error.{Error, Result, ok, err, panic}

abbrev pub Exec {ℓ} : Type 0 → Type ℓ → Type ℓ
Exec S A = S → Result A × S

module _ {ℓ} {A : Type ℓ} where
  abbrev pub renamed : Error → Result A → Result A
  renamed e (ok a) = ok a
  renamed e (err _) = err e
  renamed e panic = panic

  -- the result as a value, for a handler; a panic goes on
  abbrev pub as_value : Result A → Result (Result A)
  as_value (ok a) = ok (ok a)
  as_value (err e) = ok (err e)
  as_value panic = panic

module _ {ℓ} {S : Type 0} {A : Type ℓ} where
  pub pure : A → Exec S A
  pure a s = (ok a, s)

  pub raise : Error → Exec S A
  raise e s = (err e, s)

  pub lift : Result A → Exec S A
  lift r s = (r, s)

  -- `.map_err(…)` with an error that does not show the first one
  pub map_err : Error → Exec S A → Exec S A
  map_err e m s = let (r, s') = m s in (renamed e r, s')

  pub capture : Exec S A → Exec S (Result A)
  capture m s = let (r, s') = m s in (as_value r, s')

module _ {ℓ κ} {S : Type 0} {A : Type ℓ} {B : Type κ} where
  abbrev pub continue : Result A → (A → Exec S B) → Exec S B
  continue (ok a) f s = f a s
  continue (err e) f s = (err e, s)
  continue panic f s = (panic, s)

  infixl 5 ◌>>=◌
  -- to unfold this is to unfold the five above
  unfoldable pub ◌>>=◌ : Exec S A → (A → Exec S B) → Exec S B
  unfolding pure raise lift map_err capture
  ◌>>=◌ m f s = let (r, s') = m s in continue r f s'

module _ {ℓ} {S : Type 0} {B : Type ℓ} where
  infixl 5 ◌>>◌
  abbrev pub ◌>>◌ : Exec S (Unit {0}) → Exec S B → Exec S B
  m >> k = m >>= λ _. k

module _ {S : Type 0} where
  abbrev pub when : Bool → Exec S (Unit {0}) → Exec S (Unit {0})
  when true m = m
  when false m = pure tt

-- `for x in xs { body(x)?; }`
module _ {S A : Type 0} where
  unfoldable pub for_each : (A → Exec S (Unit {0})) → List A → Exec S (Unit {0})
  for_each body [] = pure tt
  for_each body (x ∷ xs) = do body x; for_each body xs
