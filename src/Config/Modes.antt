-- ===== src/Config/Modes.antt =====
-- src/config.rs, `parse_mode`: `u32::from_str_radix(s, 8)`.
use native.Mathlib.Nat.{pow-suc}
use certforge.Base.{
  Text, ℕ, zero, suc, ◌+◌, ◌-◌, ◌*◌, ◌^◌, ◌≤◌, ◌<◌, leb, ltb, ◌==◌, length, Bool, true, ◌&&◌,
  Option, none, some, [], ◌∷◌, ◌≡◌, refl, ◌↔◌, inl, inr, All, arith, if◌then◌else◌, Bool-cases, ap,
  sym, ◌∙◌, ◌≢◌,
}
use certforge.Error.{panic, config, Result, ok, err}

abbrev is_octal : ℕ → Bool
is_octal c = leb b'0' c && leb c b'7'

abbrev pub u32_mod : ℕ
u32_mod = 4294967296

-- the digit loop, with its checked multiplication and addition
accumulate : ℕ → Text → Option ℕ
accumulate n [] = some n
accumulate n (c ∷ cs) =
    let rest = accumulate (n * 8 + (c - b'0')) cs in
    if is_octal c && ltb (n * 8 + (c - b'0')) u32_mod then rest else none

-- a leading `+` is skipped, unless it stands alone
from_octal : Text → Option ℕ
from_octal [] = none
from_octal (c ∷ []) = accumulate 0 (c ∷ [])
from_octal (c ∷ d ∷ ds) = accumulate 0 (if c == b'+' then d ∷ ds else c ∷ d ∷ ds)

mode_or : Option ℕ → Text → Result ℕ
mode_or none s = err (config "invalid file mode '{s}' (expected octal, e.g. \"0640\")" (s ∷ []))
mode_or (some n) s = ok n

unfoldable pub parse_mode : Text → Result ℕ
unfolding from_octal accumulate mode_or
parse_mode s = mode_or (from_octal s) s

-- The number that octal digits write, by weights.
pub octal_value : Text → ℕ
octal_value [] = 0
octal_value (c ∷ cs) = (c - b'0') * 8 ^ length cs + octal_value cs

abbrev pub IsOctal : ℕ → Type 0
IsOctal c = (b'0' ≤ c) × (c ≤ b'7')

pow_pos : (k : ℕ) → 1 ≤ 8 ^ k
pow_pos zero = omega arith
pow_pos (suc k) = rw pow-suc (omega (arith, pow_pos k))

-- what the test of one round says
fits : ℕ → ℕ → Bool
fits n c = is_octal c && ltb (n * 8 + (c - b'0')) u32_mod

fits_sound : (n c : ℕ) → fits n c ≡ true → IsOctal c × (n * 8 + (c - b'0') < u32_mod)
unfolding fits
fits_sound n c h = ground arith

fits_complete : (n c : ℕ) → IsOctal c → n * 8 + (c - b'0') < u32_mod → fits n c ≡ true
unfolding fits
fits_complete n c h lt = ground arith

accumulate-cons :
    (n c : ℕ) (cs : Text)
    → accumulate n (c ∷ cs) ≡ (if fits n c then accumulate (n * 8 + (c - b'0')) cs else none)
unfolding accumulate fits
accumulate-cons n c cs = refl

weigh :
    (n c : ℕ) (cs : Text)
    → n * 8 ^ length (c ∷ cs) + octal_value (c ∷ cs)
      ≡ (n * 8 + (c - b'0')) * 8 ^ length cs + octal_value cs
unfolding octal_value
weigh n c cs = rw pow-suc (omega arith)

accumulate_sound :
    (n : ℕ) (s : Text) (m : ℕ)
    → accumulate n s ≡ some m
    → n < u32_mod
    → All IsOctal s × (m ≡ n * 8 ^ length s + octal_value s) × (m < u32_mod)
unfolding accumulate octal_value
accumulate_sound n [] m h lt = (tt, ground arith, ground arith)
accumulate_sound n (c ∷ cs) m h lt = elim (Bool-cases (fits n c)) [
  | inl e ↦
      let (octal, small) = fits_sound n c e in
      let (rest, value, bound) =
        accumulate_sound (n * 8 + (c - b'0')) cs m (rw e at (sym (accumulate-cons n c cs) ∙ h))
          small in
      ((octal, rest), value ∙ sym (weigh n c cs), bound)
  | inr e ↦ cc (accumulate-cons n c cs)
]

accumulate_complete :
    (n : ℕ) (s : Text)
    → All IsOctal s
    → n * 8 ^ length s + octal_value s < u32_mod
    → accumulate n s ≡ some (n * 8 ^ length s + octal_value s)
unfolding octal_value
accumulate_complete n [] h lt = unfold accumulate in ground arith
accumulate_complete n (c ∷ cs) h lt =
    let small : (n * 8 + (c - b'0')) * 8 ^ length cs + octal_value cs < u32_mod =
      omega (arith, weigh n c cs) in
    accumulate-cons n c cs
    ∙ rw (fits_complete n c h.0 (below_product _ _ _ (pow_pos (length cs)) small))
        (accumulate_complete (n * 8 + (c - b'0')) cs h.1 small ∙ ap some (sym (weigh n c cs)))
  where
    below_product : (a p v : ℕ) → 1 ≤ p → a * p + v < u32_mod → a < u32_mod
    below_product a p v hp h = grind arith

-- The digits of a mode: all of it, or what follows a `+` that does not stand alone.
abbrev pub mode_digits : Text → Text
mode_digits [] = []
mode_digits (c ∷ []) = c ∷ []
mode_digits (c ∷ d ∷ ds) = if c == b'+' then d ∷ ds else c ∷ d ∷ ds

from_octal-digits : (s : Text) → s ≢ [] → from_octal s ≡ accumulate 0 (mode_digits s)
unfolding from_octal
from_octal-digits [] ne = absurd (ne refl)
from_octal-digits (c ∷ []) ne = refl
from_octal-digits (c ∷ d ∷ ds) ne = refl

parse_mode-eq : (s : Text) → parse_mode s ≡ mode_or (from_octal s) s
unfolding parse_mode
parse_mode-eq s = refl

mode_or-ok : (o : Option ℕ) (s : Text) (n : ℕ) → mode_or o s ≡ ok n → o ≡ some n
unfolding mode_or
mode_or-ok none s n h = cc
mode_or-ok (some m) s n h = cc

mode_or-ne-panic : (o : Option ℕ) (s : Text) → mode_or o s ≢ panic
unfolding mode_or
mode_or-ne-panic none s h = cc
mode_or-ne-panic (some m) s h = cc

pub parse_mode-ne-panic : (s : Text) → parse_mode s ≢ panic
parse_mode-ne-panic s h = mode_or-ne-panic (from_octal s) s (sym (parse_mode-eq s) ∙ h)

not_empty : (s : Text) (n : ℕ) → from_octal s ≡ some n → s ≢ []
unfolding from_octal
not_empty [] n h e = cc
not_empty (c ∷ cs) n h e = cc

-- What a mode has to be to stand for `n`.
pub record Denotes (s : Text) (n : ℕ) : Type 0 where
  pub given : s ≢ []
  pub octal : All IsOctal (mode_digits s)
  pub value : n ≡ octal_value (mode_digits s)
  pub fits_u32 : n < u32_mod

parse_mode_sound : (s : Text) (n : ℕ) → parse_mode s ≡ ok n → Denotes s n
parse_mode_sound s n h =
    let found = mode_or-ok (from_octal s) s n (sym (parse_mode-eq s) ∙ h) in
    let given = not_empty s n found in
    let (octal, value, bound) =
      accumulate_sound 0 (mode_digits s) n (sym (from_octal-digits s given) ∙ found)
        (omega arith) in
    record { given = given; octal = octal; value = omega (arith, value); fits_u32 = bound }

parse_mode_complete : (s : Text) (n : ℕ) → Denotes s n → parse_mode s ≡ ok n
parse_mode_complete s n d =
    let found =
      accumulate_complete 0 (mode_digits s) d.octal (omega (arith, d.value, d.fits_u32)) in
    parse_mode-eq s
    ∙ rw (from_octal-digits s d.given, found) (unfold mode_or in ap ok (omega (arith, d.value)))

-- A mode is accepted with the result `n` exactly when it has digits, all of them octal, that write
-- `n`, and `n` is below 2^32.
pub parse_mode_iff : (s : Text) (n : ℕ) → (parse_mode s ≡ ok n) ↔ Denotes s n
parse_mode_iff s n = (parse_mode_sound s n, parse_mode_complete s n)
