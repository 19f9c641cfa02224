-- ===== src/Base/Lists.antt =====
-- Lists measured and indexed by native numbers, and the predicates that statements use.
use Prim.Native.Nat.{ℕ, zero, suc, ◌+◌}
use mathlib.Core.Path.{◌≡◌, refl}
use mathlib.Core.Logic.{◌⊎◌, inl, inr}
use mathlib.Core.Bool.{Bool, true, false, ◌||◌}
use mathlib.Core.List.{List, [], ◌∷◌, ◌++◌}
use mathlib.Core.Option.{Option, none, some}
use native.Mathlib.Omega.{arith}
use certforge.Base.Tests.{Bool-cases, if◌then◌else◌}

module _ {ℓ} {A : Type ℓ} where
  abbrev pub length : List A → ℕ
  length [] = 0
  length (x ∷ xs) = suc (length xs)

  abbrev pub get_elem? : List A → ℕ → Option A
  get_elem? [] i = none
  get_elem? (x ∷ xs) zero = some x
  get_elem? (x ∷ xs) (suc i) = get_elem? xs i

  abbrev pub is_empty : List A → Bool
  is_empty [] = true
  is_empty (x ∷ xs) = false

  pub length-append : (xs ys : List A) → length (xs ++ ys) ≡ length xs + length ys
  length-append [] ys = omega arith
  length-append (x ∷ xs) ys = omega (arith, length-append xs ys)

  -- `iter().any(p)` and `iter().filter(p)`
  abbrev pub any : (A → Bool) → List A → Bool
  any p [] = false
  any p (x ∷ xs) = p x || any p xs

  abbrev pub keep : (A → Bool) → List A → List A
  keep p [] = []
  keep p (x ∷ xs) = let rest = keep p xs in if p x then x ∷ rest else rest

-- Predicates by recursion, which compute to tuples and sums.
module _ {ℓ} {A : Type ℓ} (P : A → Type 0) where
  abbrev pub All : List A → Type 0
  All [] = Unit
  All (x ∷ xs) = P x × All xs

  abbrev pub Any : List A → Type 0
  Any [] = ⊥
  Any (x ∷ xs) = P x ⊎ Any xs

  pub All-append : (xs ys : List A) → All xs → All ys → All (xs ++ ys)
  All-append [] ys h k = k
  All-append (x ∷ xs) ys h k = (h.0, All-append xs ys h.1 k)

-- `x` stands in the list.
abbrev pub In : {A : Type 0} → A → List A → Type 0
In x = Any (λ y. x ≡ y)

module _ {A : Type 0} (P : A → Type 0) where
  pub All-In : (xs : List A) {x : A} → All P xs → In x xs → P x
  All-In [] h m = absurd m
  All-In (y ∷ xs) h (inl e) = rw e h.0
  All-In (y ∷ xs) h (inr m) = All-In xs h.1 m

  pub All-of_In : (xs : List A) → ((x : A) → In x xs → P x) → All P xs
  All-of_In [] h = tt
  All-of_In (x ∷ xs) h = (h x (inl refl), All-of_In xs (λ y m. h y (inr m)))

  pub All-imp : (Q : A → Type 0) (xs : List A) → ((x : A) → P x → Q x) → All P xs → All Q xs
  All-imp Q [] f h = tt
  All-imp Q (x ∷ xs) f h = (f x h.0, All-imp Q xs f h.1)

  pub Any-In : (xs : List A) {x : A} → In x xs → P x → Any P xs
  Any-In [] m h = absurd m
  Any-In (y ∷ xs) (inl e) h = inl (rw (← e) h)
  Any-In (y ∷ xs) (inr m) h = inr (Any-In xs m h)

-- Membership in a filtered list.
module _ {A : Type 0} (p : A → Bool) where
  pub In-of_keep : (xs : List A) {x : A} → In x (keep p xs) → In x xs × (p x ≡ true)
  In-of_keep [] m = absurd m
  In-of_keep (y ∷ xs) {x} m = elim (Bool-cases (p y)) [
    | inl e ↦ head e (In-of_keep xs {x = x}) (rw e at m)
    | inr e ↦ let r = In-of_keep xs {x = x} (rw e at m) in (inr r.0, r.1)
  ]
    where
      head :
          p y ≡ true
          → (In x (keep p xs) → In x xs × (p x ≡ true))
          → In x (y ∷ keep p xs)
          → In x (y ∷ xs) × (p x ≡ true)
      head e ih (inl q) = (inl q, rw q e)
      head e ih (inr r) = let (m', h) = ih r in (inr m', h)

  pub In-keep : (xs : List A) {x : A} → In x xs → p x ≡ true → In x (keep p xs)
  In-keep [] m h = absurd m
  In-keep (y ∷ xs) (inl q) h = rw (← q) (rw h (inl refl))
  In-keep (y ∷ xs) {x} (inr m) h = elim (Bool-cases (p y)) [
    | inl e ↦ rw e (inr (In-keep xs {x = x} m h))
    | inr e ↦ rw e (In-keep xs {x = x} m h)
  ]
