-- ===== src/Tlsa.antt =====
-- src/dns/tlsa.rs: TLSA records and how they are computed.
pub mod Render
use certforge.Base.{Text, Bytes, show_u8, ℕ, ◌∷◌, ◌++◌}
use certforge.Error.{Result, ok}
use certforge.Config.{
  DaneUsage, pkix_ta, pkix_ee, ta, ee, DaneSelector, spki, DaneMatching, sha256, sha512,
}
use certforge.Crates.{Crates}

pub record TlsaRecord : Type 0 where
  pub usage : ℕ
  pub selector : ℕ
  pub matching_type : ℕ
  pub association_data : Bytes

unfoldable pub usage_to_u8 : DaneUsage → ℕ
usage_to_u8 pkix_ta = 0
usage_to_u8 pkix_ee = 1
usage_to_u8 ta = 2
usage_to_u8 ee = 3

unfoldable pub selector_to_u8 : DaneSelector → ℕ
selector_to_u8 DaneSelector.full = 0
selector_to_u8 spki = 1

unfoldable pub matching_to_u8 : DaneMatching → ℕ
matching_to_u8 DaneMatching.full = 0
matching_to_u8 sha256 = 1
matching_to_u8 sha512 = 2

select : DaneSelector → Bytes → Bytes → Bytes
select DaneSelector.full cert_der spki_der = cert_der
select spki cert_der spki_der = spki_der

module _ (crates : Crates) where
  associate : DaneMatching → Bytes → Bytes
  associate DaneMatching.full bytes = bytes
  associate sha256 bytes = crates.sha256 bytes
  associate sha512 bytes = crates.sha512 bytes

  unfoldable pub from_certificate :
      Bytes → Bytes → DaneUsage → DaneSelector → DaneMatching → Result TlsaRecord
  unfolding select associate
  from_certificate cert_der spki_der usage selector matching = ok (record {
    usage = usage_to_u8 usage;
    selector = selector_to_u8 selector;
    matching_type = matching_to_u8 matching;
    association_data = associate matching (select selector cert_der spki_der);
  })

  unfoldable pub from_spki : Bytes → DaneUsage → DaneMatching → Result TlsaRecord
  unfolding associate
  from_spki spki_der usage matching = ok (record {
    usage = usage_to_u8 usage;
    selector = selector_to_u8 spki;
    matching_type = matching_to_u8 matching;
    association_data = associate matching spki_der;
  })

  pub association_data_hex : TlsaRecord → Text
  association_data_hex record_of = crates.hex_encode record_of.association_data

unfoldable pub to_rdata_string : Crates → TlsaRecord → Text
unfolding show_u8 association_data_hex
to_rdata_string crates tlsa =
    show_u8 tlsa.usage
    ++ (b' '
        ∷ (show_u8 tlsa.selector
            ++ (b' ' ∷ (show_u8 tlsa.matching_type ++ (b' ' ∷ association_data_hex crates tlsa)))))
