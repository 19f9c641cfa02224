-- ===== src/Base/Strings.antt =====
-- Rust strings as the list of their bytes, with the `str` methods that the program calls.
use Prim.Native.Nat.{ℕ, zero, suc, ◌+◌, ◌/◌, ◌%◌}
use Prim.Native.Char.{code}
use Prim.Native.String.{String}
use mathlib.Core.Path.{◌≡◌, refl, ap}
use mathlib.Core.Logic.{◌↔◌, inl, inr}
use mathlib.Core.Bool.{Bool, true, false, ◌&&◌, ◌||◌}
use mathlib.Core.List.{List, [], ◌∷◌, ◌++◌, map}
use mathlib.Core.Option.{Option, none, some}
use native.Mathlib.Omega.{arith}
use certforge.Base.Tests.{ltb, ◌==◌, leb, if◌then◌else◌, Bool-cases}
use certforge.Base.Lists.{is_empty}

-- bytes that are no text
abbrev pub Bytes : Type 0
Bytes = List ℕ

abbrev pub Text : Type 0
Text = List ℕ

-- The bytes of an ASCII literal.
abbrev pub codes : String → Text
codes String.[] = []
codes (String.◌∷◌ c s) = code c ∷ codes s

-- `==` of `str`
unfoldable pub same : Text → Text → Bool
same [] [] = true
same (x ∷ xs) (y ∷ ys) = x == y && same xs ys
same _ _ = false

pub same_iff : (a b : Text) → (same a b ≡ true) ↔ (a ≡ b)
unfolding same
same_iff (x ∷ a) (y ∷ b) = ground (arith, same_iff a b)
same_iff _ _ = ground arith

pub same_refl : (a : Text) → same a a ≡ true
same_refl a = (same_iff a a).1 refl

pub same_ne : (a b : Text) → same a b ≡ false → ¬ (a ≡ b)
same_ne a b h e = ground (arith, same_iff a b)

-- `to_ascii_lowercase`
abbrev lower_byte : ℕ → ℕ
lower_byte c = if leb b'A' c && leb c b'Z' then c + 32 else c

abbrev pub to_ascii_lowercase : Text → Text
to_ascii_lowercase = map lower_byte

-- `trim_end_matches('.')`
unfoldable pub trim_dots : Text → Text
trim_dots [] = []
trim_dots (c ∷ cs) = let rest = trim_dots cs in if is_empty rest && c == b'.' then [] else c ∷ rest

unfoldable pub ends_with : Text → Text → Bool
unfolding same
ends_with [] suffix = same [] suffix
ends_with (c ∷ cs) suffix = same (c ∷ cs) suffix || ends_with cs suffix

pub ends_with_sound :
    (s suffix : Text) → ends_with s suffix ≡ true → (front : Text) × (s ≡ front ++ suffix)
unfolding ends_with
ends_with_sound [] suffix h = ([], (same_iff [] suffix).0 h)
ends_with_sound (c ∷ cs) suffix h = elim (Bool-cases (same (c ∷ cs) suffix)) [
  | inl e ↦ ([], (same_iff (c ∷ cs) suffix).0 e)
  | inr e ↦ let (front, q) = ends_with_sound cs suffix (rw e at h) in (c ∷ front, ap (◌∷◌ c) q)
]

pub ends_with-append : (front suffix : Text) → ends_with (front ++ suffix) suffix ≡ true
unfolding ends_with
ends_with-append [] [] = refl
ends_with-append [] (c ∷ cs) = rw (same_refl (c ∷ cs)) refl
ends_with-append (c ∷ front) suffix = ground (arith, ends_with-append front suffix)

-- `strip_prefix`
unfoldable pub strip_prefix : Text → Text → Option Text
strip_prefix [] s = some s
strip_prefix (p ∷ ps) [] = none
strip_prefix (p ∷ ps) (c ∷ s) = if p == c then strip_prefix ps s else none

pub strip_prefix_sound :
    (prefix s : Text) {rest : Text} → strip_prefix prefix s ≡ some rest → s ≡ prefix ++ rest
unfolding strip_prefix
strip_prefix_sound [] s h = ground arith
strip_prefix_sound (p ∷ ps) [] h = cc
strip_prefix_sound (p ∷ ps) (c ∷ s) {rest} h = ground (arith, strip_prefix_sound ps s {rest = rest})

pub strip_prefix-append : (prefix rest : Text) → strip_prefix prefix (prefix ++ rest) ≡ some rest
unfolding strip_prefix
strip_prefix-append [] rest = refl
strip_prefix-append (p ∷ ps) rest = ground (arith, strip_prefix-append ps rest)

-- `{}` of a `u8`
unfoldable pub show_u8 : ℕ → Text
show_u8 n =
    if ltb n 10
    then (b'0' + n) ∷ []
    else if ltb n 100
    then (b'0' + n / 10) ∷ (b'0' + n % 10) ∷ []
    else (b'0' + n / 100) ∷ (b'0' + n / 10 % 10) ∷ (b'0' + n % 10) ∷ []

-- `{}` of a `usize`, digit by digit; there are no more digits than `fuel` where that is the number
unfoldable pub show_from : ℕ → ℕ → Text → Text
show_from zero n digits = digits
show_from (suc fuel) n digits =
    let more = show_from fuel (n / 10) ((b'0' + n % 10) ∷ digits) in
    if ltb n 10 then (b'0' + n) ∷ digits else more

unfoldable pub show_usize : ℕ → Text
show_usize n = show_from (suc n) n []
