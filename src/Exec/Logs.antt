-- ===== src/Exec/Logs.antt =====
-- Which events a computation may add to the log, with one rule for each way to build it.
use certforge.Base.{All, ◌≡◌, ◌≢◌, refl, List, [], ◌∷◌, Bool, true, false, if◌then◌else◌}
use certforge.Error.{eq_of_ok, Error, Result, ok, err, panic}
use certforge.Exec.{
  as_value, Exec, pure, raise, lift, map_err, capture, continue, ◌>>=◌, when, for_each,
}

-- The log `t` is `h` with events in front, each of which is in `P` with the log before it.
pub data Extends {E : Type 0} (P : E → List E → Type 0) (h : List E) : List E → Type 0 where
  same : Extends P h h
  more : {e : E} {t : List E} → P e t → Extends P h t → Extends P h (e ∷ t)

pub Extends-trans :
    {E : Type 0} {P : E → List E → Type 0} {h t u : List E}
    → Extends P h t
    → Extends P t u
    → Extends P h u
Extends-trans a same = a
Extends-trans a (more p b) = more p (Extends-trans a b)

-- `m` adds events of `P` only, whatever comes of it.
pub record Logs {E A : Type 0} (P : E → List E → Type 0) (m : Exec (List E) A) : Type 0 where
  pub at : (h : List E) → Extends P h (m h).1

module _ {E : Type 0} {P : E → List E → Type 0} where
  pub Logs-pure : {A : Type 0} (a : A) → Logs P (pure a)
  unfolding pure
  Logs-pure a = record { at = λ h. same }

  pub Logs-raise : {A : Type 0} (e : Error) → Logs P (raise {A = A} e)
  unfolding raise
  Logs-raise e = record { at = λ h. same }

  pub Logs-lift : {A : Type 0} (r : Result A) → Logs P (lift r)
  unfolding lift
  Logs-lift r = record { at = λ h. same }

  -- a wider class of events
  pub Logs-imp :
      {Q : E → List E → Type 0} {A : Type 0} (m : Exec (List E) A)
      → ((e : E) (t : List E) → Q e t → P e t)
      → Logs Q m
      → Logs P m
  Logs-imp {Q} m imp k = record { at = λ h. widen h (m h).1 (k.at h) }
    where
      widen : (h t : List E) → Extends Q h t → Extends P h t
      widen h t same = same
      widen h (e ∷ t) (more q x) = more (imp e t q) (widen h t x)

  pub Logs-continue :
      {A B : Type 0} (r : Result A) (f : A → Exec (List E) B)
      → ((a : A) → Logs P (f a))
      → (h : List E) → Extends P h (continue r f h).1
  Logs-continue (ok a) f k h = (k a).at h
  Logs-continue (err e) f k h = same
  Logs-continue panic f k h = same

  pub Logs-bind :
      {A B : Type 0} (m : Exec (List E) A) (f : A → Exec (List E) B)
      → Logs P m
      → ((a : A) → Logs P (f a))
      → Logs P (m >>= f)
  unfolding ◌>>=◌
  Logs-bind m f km kf = record {
    at = λ h. let (r, h') = m h in Extends-trans (km.at h) (Logs-continue r f kf h');
  }

  -- what follows may use that the first part ended well, and where
  pub Logs-bind_ok :
      {A B : Type 0} (m : Exec (List E) A) (f : A → Exec (List E) B)
      → Logs P m
      → ((a : A) (h : List E) → (m h).0 ≡ ok a → Logs P (f a))
      → Logs P (m >>= f)
  unfolding ◌>>=◌
  Logs-bind_ok {A} m f km k = record { at = λ h. cases h (m h).0 refl }
    where
      cases : (h : List E) (x : Result A) → (m h).0 ≡ x → Extends P h (continue x f (m h).1).1
      cases h (ok a) q = Extends-trans (km.at h) ((k a h q).at (m h).1)
      cases h (err e) q = km.at h
      cases h panic q = km.at h

  -- what follows may use which value it was
  pub Logs-lift_bind :
      {A B : Type 0} (r : Result A) (f : A → Exec (List E) B)
      → ((a : A) → r ≡ ok a → Logs P (f a))
      → Logs P (lift r >>= f)
  unfolding lift ◌>>=◌
  Logs-lift_bind {A} r f k = record { at = λ h. cases h r refl }
    where
      cases : (h : List E) (x : Result A) → r ≡ x → Extends P h (continue x f h).1
      cases h (ok a) q = (k a q).at h
      cases h (err e) q = same
      cases h panic q = same

  pub Logs-map_err :
      {A : Type 0} (e : Error) (m : Exec (List E) A) → Logs P m → Logs P (map_err e m)
  unfolding map_err
  Logs-map_err e m k = record { at = λ h. k.at h }

  pub Logs-capture : {A : Type 0} (m : Exec (List E) A) → Logs P m → Logs P (capture m)
  unfolding capture
  Logs-capture m k = record { at = λ h. k.at h }

  pub Logs-if :
      {A : Type 0} (b : Bool) (m n : Exec (List E) A)
      → Logs P m
      → Logs P n
      → Logs P (if b then m else n)
  Logs-if true m n km kn = km
  Logs-if false m n km kn = kn

  pub Logs-when : (b : Bool) (m : Exec (List E) (Unit {0})) → Logs P m → Logs P (when b m)
  Logs-when true m k = k
  Logs-when false m k = Logs-pure tt

  pub Logs-for_each :
      {A : Type 0} (body : A → Exec (List E) (Unit {0})) (xs : List A)
      → ((x : A) → Logs P (body x))
      → Logs P (for_each body xs)
  unfolding for_each
  Logs-for_each body [] k = Logs-pure tt
  Logs-for_each body (x ∷ xs) k =
      Logs-bind (body x) (λ _. for_each body xs) (k x) (λ _. Logs-for_each body xs k)

module _ {S : Type 0} where
  -- A chain that ends well: its first part did, and the rest did from there.
  pub bind-ok :
      {A B : Type 0} (m : Exec S A) (f : A → Exec S B) (s : S) {b : B}
      → ((m >>= f) s).0 ≡ ok b
      → (a : A) × ((m s).0 ≡ ok a) × ((f a (m s).1).0 ≡ ok b)
  unfolding ◌>>=◌
  bind-ok {A} {B} m f s {b} e = split (m s).0 e
    where
      split :
          (r : Result A)
          → (continue r f (m s).1).0 ≡ ok b
          → (a : A) × (r ≡ ok a) × ((f a (m s).1).0 ≡ ok b)
      split (ok a) q = (a, refl, q)
      split (err x) q = absurd cc
      split panic q = absurd cc

  pub bind-rest :
      {A B : Type 0} (m : Exec S A) (f : A → Exec S B) (s : S) {a : A}
      → (m s).0 ≡ ok a
      → ((m >>= f) s) ≡ f a (m s).1
  unfolding ◌>>=◌
  bind-rest m f s e = rw e refl

  pub pure-ok : {A : Type 0} (a : A) (s : S) {b : A} → (pure a s).0 ≡ ok b → a ≡ b
  unfolding pure
  pure-ok a s e = eq_of_ok _ _ e

  pub raise-ne-ok : {A : Type 0} (e : Error) (s : S) {a : A} → (raise e s).0 ≢ ok a
  unfolding raise
  raise-ne-ok e s q = cc

  pub lift-ok : {A : Type 0} (r : Result A) (s : S) {b : A} → (lift r s).0 ≡ ok b → r ≡ ok b
  unfolding lift
  lift-ok r s e = e

  pub capture-ok :
      {A : Type 0} (m : Exec S A) (s : S) {r : Result A} → (capture m s).0 ≡ ok r → (m s).0 ≡ r
  unfolding capture
  capture-ok {A} m s {r} e = split (m s).0 e
    where
      split : (x : Result A) → as_value x ≡ ok r → x ≡ r
      split (ok a) q = cc
      split (err e) q = cc
      split panic q = cc

  -- a loop that ends well has had each body end well
  pub for_each-ok :
      {A : Type 0} (body : A → Exec S (Unit {0})) (P : A → Type 0) (xs : List A) (s : S)
      → ((x : A) (t : S) → (body x t).0 ≡ ok tt → P x)
      → (for_each body xs s).0 ≡ ok tt
      → All P xs
  unfolding for_each
  for_each-ok body P [] s k e = tt
  for_each-ok body P (x ∷ xs) s k e =
      let (_, a, b) = bind-ok (body x) (λ _. for_each body xs) s e in
      (k x s a, for_each-ok body P xs (body x s).1 k b)

pub ruleset logs_rules = (
  Logs-pure, Logs-raise, Logs-lift, Logs-bind, Logs-map_err, Logs-capture, Logs-if, Logs-when,
  Logs-for_each,
)
