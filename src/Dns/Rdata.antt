-- ===== src/Dns/Rdata.antt =====
-- src/dns/update.rs, `tlsa_to_rdata`, over the record types of `hickory-proto`.
use certforge.Base.{Bytes, ℕ, ◌==◌, arith, ◌≡◌, if◌then◌else◌}
use certforge.Tlsa.{TlsaRecord}

-- `CertUsage`, `Selector` and `Matching` of hickory-proto, as far as they are named
pub data CertUsage : Type 0 where
  pkix_ta pkix_ee dane_ta dane_ee : CertUsage
  unassigned : ℕ → CertUsage

pub data Selector : Type 0 where
  full spki : Selector
  unassigned : ℕ → Selector

pub data Matching : Type 0 where
  raw sha256 sha512 : Matching
  unassigned : ℕ → Matching

pub record TlsaRdata : Type 0 where
  pub cert_usage : CertUsage
  pub selector : Selector
  pub matching : Matching
  pub cert_data : Bytes

cert_usage_of : ℕ → CertUsage
cert_usage_of n =
    if n == 0
    then pkix_ta
    else if n == 1
    then pkix_ee
    else if n == 2
    then dane_ta
    else if n == 3
    then dane_ee
    else CertUsage.unassigned n

selector_of : ℕ → Selector
selector_of n = if n == 0 then full else if n == 1 then spki else Selector.unassigned n

matching_of : ℕ → Matching
matching_of n =
    if n == 0
    then raw
    else if n == 1
    then sha256
    else if n == 2
    then sha512
    else Matching.unassigned n

unfoldable pub tlsa_to_rdata : TlsaRecord → TlsaRdata
unfolding cert_usage_of selector_of matching_of
tlsa_to_rdata tlsa = record {
  cert_usage = cert_usage_of tlsa.usage;
  selector = selector_of tlsa.selector;
  matching = matching_of tlsa.matching_type;
  cert_data = tlsa.association_data;
}

-- hickory's `From` conversions into `u8`
pub record Numbers : Type 0 where
  pub of_usage : CertUsage → ℕ
  pub of_selector : Selector → ℕ
  pub of_matching : Matching → ℕ

-- the numbers of RFC 6698
pub record IsStandard (numbers : Numbers) : Type 0 where
  pub usages :
      (numbers.of_usage pkix_ta ≡ 0)
      × (numbers.of_usage pkix_ee ≡ 1)
      × (numbers.of_usage dane_ta ≡ 2)
      × (numbers.of_usage dane_ee ≡ 3)
  pub other_usages : (n : ℕ) → numbers.of_usage (CertUsage.unassigned n) ≡ n
  pub selectors : (numbers.of_selector full ≡ 0) × (numbers.of_selector spki ≡ 1)
  pub other_selectors : (n : ℕ) → numbers.of_selector (Selector.unassigned n) ≡ n
  pub matchings :
      (numbers.of_matching raw ≡ 0)
      × (numbers.of_matching sha256 ≡ 1)
      × (numbers.of_matching sha512 ≡ 2)
  pub other_matchings : (n : ℕ) → numbers.of_matching (Matching.unassigned n) ≡ n

-- one record of the answers to `query_tlsa`
unfoldable pub rdata_to_tlsa : Numbers → TlsaRdata → TlsaRecord
rdata_to_tlsa numbers rdata = record {
  usage = numbers.of_usage rdata.cert_usage;
  selector = numbers.of_selector rdata.selector;
  matching_type = numbers.of_matching rdata.matching;
  association_data = rdata.cert_data;
}

module _ (numbers : Numbers) (standard : IsStandard numbers) where
  of_usage-cert_usage_of : (n : ℕ) → numbers.of_usage (cert_usage_of n) ≡ n
  unfolding cert_usage_of
  of_usage-cert_usage_of n =
      let (a, b, c, d) = standard.usages in ground (arith, standard.other_usages n)

  of_selector-selector_of : (n : ℕ) → numbers.of_selector (selector_of n) ≡ n
  unfolding selector_of
  of_selector-selector_of n =
      let (a, b) = standard.selectors in ground (arith, standard.other_selectors n)

  of_matching-matching_of : (n : ℕ) → numbers.of_matching (matching_of n) ≡ n
  unfolding matching_of
  of_matching-matching_of n =
      let (a, b, c) = standard.matchings in ground (arith, standard.other_matchings n)

  -- With hickory's numbers those of RFC 6698, a record sent is read back as it was, also where its
  -- numbers are not assigned.
  pub rdata_to_tlsa-tlsa_to_rdata :
      (tlsa : TlsaRecord) → rdata_to_tlsa numbers (tlsa_to_rdata tlsa) ≡ tlsa
  unfolding rdata_to_tlsa tlsa_to_rdata
  rdata_to_tlsa-tlsa_to_rdata tlsa = λ i. record {
    usage = of_usage-cert_usage_of tlsa.usage i;
    selector = of_selector-selector_of tlsa.selector i;
    matching_type = of_matching-matching_of tlsa.matching_type i;
    association_data = tlsa.association_data;
  }
