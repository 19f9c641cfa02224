-- ===== src/Tlsa/Render.antt =====
-- A record's text shows all of the record.
use certforge.Base.{
  Text, Bytes, show_u8, ℕ, ◌+◌, ◌<◌, ◌-◌, ◌*◌, [], ◌∷◌, ◌++◌, ◌≡◌, ◌≢◌, refl, sym, ap, ◌∙◌, arith,
  All,
}
use certforge.Crates.{Crates}
use certforge.Tlsa.{TlsaRecord, association_data_hex, to_rdata_string}

-- No byte of the list is a space.
abbrev HasNoSpace : Text → Type 0
HasNoSpace = All (λ c. c ≢ b' ')

show_u8-HasNoSpace : (n : ℕ) → n < 256 → HasNoSpace (show_u8 n)
unfolding show_u8
show_u8-HasNoSpace n h = ground arith

-- the digits read back
read_u8 : Text → ℕ
read_u8 [] = 0
read_u8 (a ∷ []) = a - b'0'
read_u8 (a ∷ b ∷ []) = (a - b'0') * 10 + (b - b'0')
read_u8 (a ∷ b ∷ c ∷ _) = (a - b'0') * 100 + (b - b'0') * 10 + (c - b'0')

read_u8-show_u8 : (n : ℕ) → n < 256 → read_u8 (show_u8 n) ≡ n
unfolding read_u8 show_u8
read_u8-show_u8 n h = ground arith

show_u8_injective : (m n : ℕ) → m < 256 → n < 256 → show_u8 m ≡ show_u8 n → m ≡ n
show_u8_injective m n hm hn e = sym (read_u8-show_u8 m hm) ∙ ap read_u8 e ∙ read_u8-show_u8 n hn

-- texts without a space, each before a space, can be told from what follows
split_word :
    (a b r s : Text)
    → HasNoSpace a
    → HasNoSpace b
    → a ++ (b' ' ∷ r) ≡ b ++ (b' ' ∷ s)
    → (a ≡ b) × (r ≡ s)
split_word [] [] r s ha hb e = (refl, cc)
split_word [] (y ∷ b) r s ha hb e = absurd (hb.0 cc)
split_word (x ∷ a) [] r s ha hb e = absurd (ha.0 cc)
split_word (x ∷ a) (y ∷ b) r s ha hb e = let (p, q) = split_word a b r s ha.1 hb.1 cc in (cc, q)

-- The three numbers of a record are bytes.
pub record IsWire (tlsa : TlsaRecord) : Type 0 where
  pub usage_u8 : tlsa.usage < 256
  pub selector_u8 : tlsa.selector < 256
  pub matching_u8 : tlsa.matching_type < 256

abbrev written : Crates → TlsaRecord → Text
written crates tlsa =
    show_u8 tlsa.usage
    ++ (b' '
        ∷ (show_u8 tlsa.selector
            ++ (b' ' ∷ (show_u8 tlsa.matching_type ++ (b' ' ∷ association_data_hex crates tlsa)))))

to_rdata_string-written :
    (crates : Crates) (tlsa : TlsaRecord) → to_rdata_string crates tlsa ≡ written crates tlsa
unfolding to_rdata_string
to_rdata_string-written crates tlsa = refl

-- If `hex_encode` tells data apart, two records with the same text are the same record.
pub to_rdata_string_injective :
    (crates : Crates) (a b : TlsaRecord)
    → ((x y : Bytes) → crates.hex_encode x ≡ crates.hex_encode y → x ≡ y)
    → IsWire a
    → IsWire b
    → to_rdata_string crates a ≡ to_rdata_string crates b
    → a ≡ b
unfolding association_data_hex
to_rdata_string_injective crates a b hex wa wb e =
    let e' : written crates a ≡ written crates b =
      sym (to_rdata_string-written crates a) ∙ e ∙ to_rdata_string-written crates b in
    let (u, r) =
      split_word (show_u8 a.usage) (show_u8 b.usage) _ _ (show_u8-HasNoSpace a.usage wa.usage_u8)
        (show_u8-HasNoSpace b.usage wb.usage_u8) e' in
    let (s, r') =
      split_word (show_u8 a.selector) (show_u8 b.selector) _ _
        (show_u8-HasNoSpace a.selector wa.selector_u8)
        (show_u8-HasNoSpace b.selector wb.selector_u8) r in
    let (m, h) =
      split_word (show_u8 a.matching_type) (show_u8 b.matching_type) _ _
        (show_u8-HasNoSpace a.matching_type wa.matching_u8)
        (show_u8-HasNoSpace b.matching_type wb.matching_u8) r' in
    let pu = show_u8_injective a.usage b.usage wa.usage_u8 wb.usage_u8 u in
    let ps = show_u8_injective a.selector b.selector wa.selector_u8 wb.selector_u8 s in
    let pm = show_u8_injective a.matching_type b.matching_type wa.matching_u8 wb.matching_u8 m in
    let pd = hex a.association_data b.association_data h in
    λ i. record { usage = pu i; selector = ps i; matching_type = pm i; association_data = pd i }
