-- ===== src/Exec/Gives.antt =====
-- What a computation gives where it ends well, with one rule for each way to build it.
use certforge.Base.{Bool, true, false, ap, if◌then◌else◌, ◌≡◌, refl, subst, ◌∙◌}
use certforge.Error.{eq_of_ok, Result, ok, err, panic}
use certforge.Exec.{as_value, Exec, pure, lift, capture, continue, ◌>>=◌}
use certforge.World.{Event, Log, observe}
use certforge.Exec.Panics.{IsSafe, capture-IsSafe, NeverPanics, NeverPanics-bind_ok}

-- Every value that `m` gives is in `P`.
pub record Gives {S A : Type 0} (P : A → Type 0) (m : Exec S A) : Type 0 where
  pub at : (s : S) (a : A) → (m s).0 ≡ ok a → P a

module _ {S : Type 0} where
  pub Gives-pure : {A : Type 0} {P : A → Type 0} (a : A) → P a → Gives {S = S} P (pure a)
  unfolding pure
  Gives-pure {A} {P} a p = record { at = λ s b q. subst P (eq_of_ok a b q) p }

  pub Gives-panic : {A : Type 0} {P : A → Type 0} → Gives {S = S} P (lift panic)
  unfolding lift
  Gives-panic = record { at = λ s a q. absurd cc }

  pub Gives-any : {A : Type 0} (m : Exec S A) → Gives (λ _. Unit {0}) m
  Gives-any m = record { at = λ s a q. tt }

  pub Gives-bind :
      {A B : Type 0} {P : A → Type 0} {Q : B → Type 0} (m : Exec S A) (f : A → Exec S B)
      → Gives P m
      → ((a : A) → P a → Gives Q (f a))
      → Gives Q (m >>= f)
  unfolding ◌>>=◌
  Gives-bind {A} {B} {P} {Q} m f km kf = record { at = λ s b q. rest s (m s).0 refl b q }
    where
      rest : (s : S) (r : Result A) → (m s).0 ≡ r → (b : B) → (continue r f (m s).1).0 ≡ ok b → Q b
      rest s (ok a) e b q = (kf a (km.at s a e)).at (m s).1 b q
      rest s (err x) e b q = absurd cc
      rest s panic e b q = absurd cc

  pub Gives-capture : {A : Type 0} (m : Exec S A) → Gives IsSafe (capture m)
  Gives-capture m = record { at = λ s a q. capture-IsSafe m s q }

  -- what follows may use what the first part gives
  pub NeverPanics-bind-Gives :
      {A B : Type 0} {P : A → Type 0} (m : Exec S A) (f : A → Exec S B)
      → NeverPanics m
      → Gives P m
      → ((a : A) → P a → NeverPanics (f a))
      → NeverPanics (m >>= f)
  NeverPanics-bind-Gives m f safe gives k =
      NeverPanics-bind_ok m f safe (λ a s q. k a (gives.at s a q))

  -- a handler is given no panic, and what the computation gives
  pub Gives-capture_of :
      {A : Type 0} {P : A → Type 0} (m : Exec S A)
      → Gives P m
      → Gives (λ r. IsSafe r × ((a : A) → r ≡ ok a → P a)) (capture m)
  unfolding capture
  Gives-capture_of {A} {P} m k = record {
    at = λ s r q. (capture-IsSafe m s q, λ a e. k.at s a (inner (m s).0 a (q ∙ ap ok e)));
  }
    where
      inner : (x : Result A) (a : A) → as_value x ≡ ok (ok a) → x ≡ ok a
      inner (ok b) a e = eq_of_ok (ok b) (ok a) e
      inner (err x) a e = eq_of_ok (err x) (ok a) e
      inner panic a e = absurd cc

  -- a captured result is one that the computation has
  pub Gives-capture_from :
      {A : Type 0} (m : Exec S A) → Gives (λ r. (s : S) × ((m s).0 ≡ r)) (capture m)
  unfolding capture
  Gives-capture_from {A} m = record { at = λ s r q. (s, inner (m s).0 r q) }
    where
      inner : (x r : Result A) → as_value x ≡ ok r → x ≡ r
      inner (ok a) r e = eq_of_ok (ok a) r e
      inner (err e) r q = eq_of_ok (err e) r q
      inner panic r e = absurd cc

  pub Gives-lift : {A : Type 0} (r : Result A) → Gives {S = S} (λ a. r ≡ ok a) (lift r)
  unfolding lift
  Gives-lift r = record { at = λ s a q. q }

  pub Gives-if :
      {A : Type 0} {P : A → Type 0} (b : Bool) (m n : Exec S A)
      → (b ≡ true → Gives P m)
      → (b ≡ false → Gives P n)
      → Gives P (if b then m else n)
  Gives-if true m n km kn = km refl
  Gives-if false m n km kn = kn refl

  pub Gives-imp :
      {A : Type 0} {P Q : A → Type 0} (m : Exec S A) → ((a : A) → P a → Q a) → Gives P m → Gives Q m
  Gives-imp m imp k = record { at = λ s a q. imp a (k.at s a q) }

-- `m` always ends well.
pub record Succeeds {S A : Type 0} (m : Exec S A) : Type 0 where
  pub at : (s : S) → (a : A) × ((m s).0 ≡ ok a)

module _ {S : Type 0} where
  pub Succeeds-pure : {A : Type 0} (a : A) → Succeeds {S = S} (pure a)
  unfolding pure
  Succeeds-pure a = record { at = λ s. (a, refl) }

  pub Succeeds-bind :
      {A B : Type 0} {P : A → Type 0} (m : Exec S A) (f : A → Exec S B)
      → Succeeds m
      → Gives P m
      → ((a : A) → P a → Succeeds (f a))
      → Succeeds (m >>= f)
  unfolding ◌>>=◌
  Succeeds-bind {A} {B} {P} m f km gives kf = record { at = λ s. rest s (m s).0 refl (km.at s) }
    where
      rest :
          (s : S) (r : Result A)
          → (m s).0 ≡ r
          → (a : A) × (r ≡ ok a)
          → (b : B) × ((continue r f (m s).1).0 ≡ ok b)
      rest s (ok x) e k = (kf x (gives.at s x e)).at (m s).1
      rest s (err x) e k = absurd cc
      rest s panic e k = absurd cc

  -- an error is a value behind `capture`
  pub Succeeds-capture : {A : Type 0} (m : Exec S A) → NeverPanics m → Succeeds (capture m)
  unfolding capture
  Succeeds-capture {A} m k = record { at = λ s. value (m s).0 (k.at s) }
    where
      value : (r : Result A) → IsSafe r → (x : Result A) × (as_value r ≡ ok x)
      value (ok a) safe = (ok a, refl)
      value (err e) safe = (err e, refl)
      value panic safe = absurd safe.not_panic

  pub Succeeds-if :
      {A : Type 0} (b : Bool) (m n : Exec S A)
      → Succeeds m
      → Succeeds n
      → Succeeds (if b then m else n)
  Succeeds-if true m n km kn = km
  Succeeds-if false m n km kn = kn

pub Succeeds-observe : {A : Type 0} (e : Event) (answer : Log → A) → Succeeds (observe e answer)
unfolding observe
Succeeds-observe e answer = record { at = λ h. (answer h, refl) }
