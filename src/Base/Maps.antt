-- ===== src/Base/Maps.antt =====
-- A `HashMap<String, V>` as the list of its entries, in the order in which it is iterated.
use mathlib.Core.Path.{◌≡◌}
use mathlib.Core.Logic.{inl, inr}
use mathlib.Core.Bool.{Bool}
use mathlib.Core.List.{List, [], ◌∷◌}
use mathlib.Core.Option.{Option, none, some}
use native.Mathlib.Omega.{arith}
use certforge.Base.Tests.{if◌then◌else◌, is_some, Bool-cases}
use certforge.Base.Lists.{In}
use certforge.Base.Strings.{Text, same, same_iff}

abbrev pub Dict : Type 0 → Type 0
Dict V = List (Text × V)

module _ {V : Type 0} where
  unfoldable pub get : Text → Dict V → Option V
  get k [] = none
  get k ((j, v) ∷ m) = if same j k then some v else get k m

  abbrev pub contains_key : Text → Dict V → Bool
  contains_key k m = is_some (get k m)

  unfoldable pub remove : Text → Dict V → Dict V
  remove k [] = []
  remove k ((j, v) ∷ m) = let rest = remove k m in if same j k then rest else (j, v) ∷ rest

  unfoldable pub insert : Text → V → Dict V → Dict V
  unfolding remove
  insert k v m = (k, v) ∷ remove k m

  pub get-remove :
      (k j : Text) (m : Dict V) → get j (remove k m) ≡ (if same k j then none else get j m)
  unfolding get remove
  get-remove k j [] = ground arith
  get-remove k j ((i, v) ∷ m) =
      ground (arith, get-remove k j m, same_iff i k, same_iff i j, same_iff k j)

  pub get-insert :
      (k j : Text) (v : V) (m : Dict V)
      → get j (insert k v m) ≡ (if same k j then some v else get j m)
  unfolding insert get
  get-insert k j v m = ground (arith, get-remove k j m)

  pub In-of_get : (k : Text) (m : Dict V) {v : V} → get k m ≡ some v → In (k, v) m
  unfolding get
  In-of_get k [] h = cc
  In-of_get k ((j, w) ∷ m) {v} h = elim (Bool-cases (same j k)) [
    | inl e ↦ inl (ground (arith, same_iff j k))
    | inr e ↦ inr (In-of_get k m (ground arith))
  ]
