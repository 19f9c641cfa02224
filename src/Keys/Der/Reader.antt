-- ===== src/Keys/Der/Reader.antt =====
-- A DER reader, written from X.690 and not from the encoder, reads every wrapped key back.
use mathlib.Core.List.{append_assoc, append-nil}
use certforge.Base.{
  Bytes, length, ℕ, zero, suc, ◌+◌, ◌*◌, ◌<◌, ◌≤◌, ltb, leb, ◌==◌, true, Option, none, some, [],
  ◌∷◌, ◌++◌, ◌≡◌, refl, sym, ap, ◌∙◌, arith, if◌then◌else◌, length-append, strip_prefix,
  strip_prefix-append,
}
use certforge.Keys.Der.{length_bytes, encode_asn1_length, wrap_ec_spki, ec_public_key_oid}

-- A length of up to two bytes, in the shortest form only.
read_length : Bytes → Option (ℕ × Bytes)
read_length [] = none
read_length (b ∷ []) = if ltb b 128 then some (b, []) else none
read_length (b ∷ c ∷ []) =
    if ltb b 128
    then some (b, c ∷ [])
    else if b == 129
    then (if leb 128 c then some (c, []) else none)
    else none
read_length (b ∷ c ∷ d ∷ rest) =
    if ltb b 128
    then some (b, c ∷ d ∷ rest)
    else if b == 129
    then (if leb 128 c then some (c, d ∷ rest) else none)
    else if b == 130
    then (if leb 256 (c * 256 + d) then some (c * 256 + d, rest) else none)
    else none

split_at : ℕ → Bytes → Option (Bytes × Bytes)
split_at zero bs = some ([], bs)
split_at (suc n) [] = none
split_at (suc n) (b ∷ bs) = elim (split_at n bs) [ none ↦ none | some (l, r) ↦ some (b ∷ l, r) ]

infixl 5 ◌>>=◌
abbrev ◌>>=◌ {ℓ κ} : {A : Type ℓ} {B : Type κ} → Option A → (A → Option B) → Option B
none >>= k = none
some a >>= k = k a

-- one element: its content and what follows it
read_element : ℕ → Bytes → Option (Bytes × Bytes)
read_element tag [] = none
read_element tag (t ∷ bs) =
    if t == tag then (do (n, rest) ← read_length bs; split_at n rest) else none

finished : {A : Type 0} → Bytes → A → Option A
finished [] a = some a
finished (_ ∷ _) a = none

-- The curve's identifier and the public key of a structure for an EC key.
pub read_spki : Bytes → Option (Bytes × Bytes)
read_spki bs = do
  (spki, behind) ← read_element 0x30 bs
  (algorithm, key) ← read_element 0x30 spki
  (bits, rest) ← read_element 0x03 key
  curve ← strip_prefix ec_public_key_oid algorithm
  public_key ← strip_prefix (0x00 ∷ []) bits
  finished (behind ++ rest) (curve, public_key)

read_length-length_bytes :
    (n : ℕ) (rest : Bytes) → n < 65536 → read_length (length_bytes n ++ rest) ≡ some (n, rest)
unfolding read_length length_bytes
read_length-length_bytes n [] h = ground arith
read_length-length_bytes n (a ∷ []) h = ground arith
read_length-length_bytes n (a ∷ b ∷ rest) h = ground arith

split_at-append : (l r : Bytes) → split_at (length l) (l ++ r) ≡ some (l, r)
unfolding split_at
split_at-append [] r = refl
split_at-append (b ∷ l) r = rw (split_at-append l r, split_at)

==_refl : (n : ℕ) → (n == n) ≡ true
==_refl n = ground arith

read_element-cons :
    (tag : ℕ) (bs : Bytes)
    → read_element tag (tag ∷ bs) ≡ (do (n, rest) ← read_length bs; split_at n rest)
unfolding read_element
read_element-cons tag bs = rw (==_refl tag)

-- Any element that the encoder writes, with what follows it.
read_element-encode :
    (tag : ℕ) (content rest : Bytes)
    → length content < 65536
    → read_element tag (tag ∷ (length_bytes (length content) ++ (content ++ rest)))
      ≡ some (content, rest)
read_element-encode tag content rest h =
    read_element-cons tag _
    ∙ rw (read_length-length_bytes (length content) (content ++ rest) h)
        (split_at-append content rest)

encode-element :
    (tag n : ℕ) (a b : Bytes)
    → n ≡ length (a ++ b)
    → encode_asn1_length n (tag ∷ []) ++ a ++ b ≡ tag ∷ (length_bytes (length (a ++ b)) ++ (a ++ b))
unfolding encode_asn1_length
encode-element tag n a b e = rw e (ap (λ r. tag ∷ r) (append_assoc _ a b))

-- the content of an AlgorithmIdentifier, as an element
abbrev element : ℕ → Bytes → Bytes
element tag content = tag ∷ (length_bytes (length content) ++ content)

abbrev algorithm_of : Bytes → Bytes
algorithm_of curve = element 0x30 (ec_public_key_oid ++ curve)

abbrev bits_of : Bytes → Bytes
bits_of public_key = element 0x03 (0x00 ∷ public_key)

wrap_ec_spki-element :
    (public_key curve : Bytes)
    → wrap_ec_spki public_key curve ≡ element 0x30 (algorithm_of curve ++ bits_of public_key)
unfolding wrap_ec_spki
wrap_ec_spki-element public_key curve =
    rw
      (
        encode-element 0x30 (length ec_public_key_oid + length curve) ec_public_key_oid curve
            (sym (length-append ec_public_key_oid curve)),
        encode-element 0x03 (1 + length public_key) (0x00 ∷ []) public_key (omega arith),
      )
      (encode-element 0x30 (length (algorithm_of curve) + length (bits_of public_key))
        (algorithm_of curve) (bits_of public_key)
        (sym (length-append (algorithm_of curve) (bits_of public_key))))

length-length_bytes : (n : ℕ) → length (length_bytes n) ≤ 3
unfolding length_bytes
length-length_bytes n = ground arith

length-element : (tag : ℕ) (content : Bytes) → length (element tag content) ≤ length content + 4
length-element tag content = omega (
  arith,
  length-append (length_bytes (length content)) content,
  length-length_bytes (length content),
)

length-oid : length ec_public_key_oid ≡ 9
unfolding ec_public_key_oid
length-oid = refl

read_element-element :
    (tag : ℕ) (content rest : Bytes)
    → length content < 65536
    → read_element tag (element tag content ++ rest) ≡ some (content, rest)
read_element-element tag content rest h =
    rw (append_assoc (length_bytes (length content)) content rest)
      (read_element-encode tag content rest h)

-- A wrapped key of less than 65,000 bytes, identifier included, is read back as it was.
pub read_spki-wrap_ec_spki :
    (public_key curve : Bytes)
    → length public_key + length curve < 65000
    → read_spki (wrap_ec_spki public_key curve) ≡ some (curve, public_key)
unfolding read_spki finished
read_spki-wrap_ec_spki public_key curve h =
    let algorithm = algorithm_of curve in
    let bits = bits_of public_key in
    let small : length (ec_public_key_oid ++ curve) < 65536 =
      omega (arith, length-append ec_public_key_oid curve, length-oid) in
    let outer : length (algorithm ++ bits) < 65536 = omega (
      arith,
      length-append algorithm bits,
      length-element 0x30 (ec_public_key_oid ++ curve),
      length-element 0x03 (0x00 ∷ public_key),
      length-append ec_public_key_oid curve,
      length-oid,
    ) in
    let key_bound : length (0x00 ∷ public_key) < 65536 = omega arith in
    let e1 : read_element 0x30 (wrap_ec_spki public_key curve) ≡ some (algorithm ++ bits, []) =
      ap (read_element 0x30) (wrap_ec_spki-element public_key curve ∙ sym (append-nil _))
      ∙ read_element-element 0x30 (algorithm ++ bits) [] outer in
    let e2 = read_element-element 0x30 (ec_public_key_oid ++ curve) bits small in
    let e3 : read_element 0x03 bits ≡ some (0x00 ∷ public_key, []) =
      ap (read_element 0x03) (sym (append-nil bits))
      ∙ read_element-element 0x03 (0x00 ∷ public_key) [] key_bound in
    let e4 = strip_prefix-append ec_public_key_oid curve in
    let e5 : strip_prefix (0x00 ∷ []) (0x00 ∷ public_key) ≡ some public_key =
      strip_prefix-append (0x00 ∷ []) public_key in
    rw e1 (rw e2 (rw e3 (rw e4 (rw e5))))
