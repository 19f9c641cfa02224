-- ===== src/Commands/Matching.antt =====
-- The comparison of TLSA records (src/main.rs, `dane_check`).
use certforge.Base.{
  same_iff, In, ◌==◌, ℕ, arith, Bool, true, false, ◌&&◌, Bool-cases, inl, inr, List, [], ◌∷◌, ◌≡◌,
  refl, sym,
}
use certforge.Tlsa.{TlsaRecord}
use certforge.Commands.Dane.{same_tlsa, contains}

eq_iff : (a b : ℕ) → (a == b) ≡ true → a ≡ b
eq_iff a b h = ground arith

tlsa-ext :
    (a b : TlsaRecord)
    → a.usage ≡ b.usage
    → a.selector ≡ b.selector
    → a.matching_type ≡ b.matching_type
    → a.association_data ≡ b.association_data
    → a ≡ b
tlsa-ext a b p q r s = cc

pub and-true : (a b : Bool) → (a && b) ≡ true → (a ≡ true) × (b ≡ true)
and-true true b h = (refl, h)
and-true false b h = absurd cc

same_tlsa-eq : (a b : TlsaRecord) → same_tlsa a b ≡ true → a ≡ b
unfolding same_tlsa
same_tlsa-eq a b h =
    let (l, s) = and-true _ _ h in
    let (k, m) = and-true _ _ l in
    let (u, t) = and-true _ _ k in
    tlsa-ext a b (eq_iff _ _ u) (eq_iff _ _ t) (eq_iff _ _ m) ((same_iff _ _).0 s)

pub contains-In :
    (expected : TlsaRecord) (records : List TlsaRecord)
    → contains expected records ≡ true
    → In expected records
unfolding contains
contains-In expected [] h = absurd cc
contains-In expected (r ∷ records) h = elim (Bool-cases (same_tlsa r expected)) [
  | inl e ↦ inl (sym (same_tlsa-eq r expected e))
  | inr e ↦ inr (contains-In expected records (rw e at h))
]
