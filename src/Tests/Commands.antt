-- ===== src/Tests/Commands.antt =====
-- The loop over the certificates, the warnings and `dane_check` in a toy world.
use certforge.Base.{
  Text, codes, In, map, All, same, get, true, false, none, [], ◌∷◌, ◌≡◌, ◌⊎◌, ◌↔◌, refl,
}
use certforge.Error.{ok}
use certforge.Config.{NamedHookConfig}
use certforge.Config.Unused.{unused_dns, unused_solvers, unused_hooks}
use certforge.Config.Unreferenced.{RefersToDns, RefersToSolver, RefersToHook, unused-In}
use certforge.Exec.{◌>>=◌}
use certforge.World.{exit, Log, observe, ask, attempt}
use certforge.Renew.Run.{Progress, renew_all}
use certforge.State.{no_state}
use certforge.Safety.Loop.{Rounds, renew_all-Rounds}
use certforge.Commands.Dane.{
  dane_check, compare_certificates, compare_certificate, check_blocks, check_block, check_name,
  check_names, compare_records, contains, on_answer, print_found, same_tlsa,
}
use certforge.Certs.{from_pem, extract_san}
use certforge.Certs.Load.{load_cert}
use certforge.Config.{dns_client}
use certforge.Credentials.{check_decrypted, decrypt_credential, load_secret}
use certforge.Dane.Records.{compute_tlsa_records, first_record, replicate}
use certforge.Dns.Rdata.{rdata_to_tlsa}
use certforge.Dns.Tsig.{load_tsig_signer, decode_tsig_key, is_ascii_whitespace, or_raw}
use certforge.Dns.Update.{
  connect_by, connect_tcp, connect_updater, first_address, query_tlsa_records,
}
use certforge.Tlsa.{from_certificate, matching_to_u8, selector_to_u8, usage_to_u8}
use certforge.Renew.Run.{is_chosen}
use certforge.Tests.Keys.{rfc_6698}
use certforge.Commands.Confirmed.{Checked, dane_check-Checked}
use certforge.Tests.{sample, sample_passes}
use certforge.Tests.Crates.{sample_quiet, toy_crates, toy_env, toy_json}

abbrev dir : Text
dir = codes "/var/lib/certforge"

abbrev start : Progress
start = record { state = no_state; dirty = false; pending_hooks = [] }

renew_all-Rounds_example :
    (q : Progress) × (t : Log) × Rounds toy_crates toy_env sample toy_json dir none true false
      sample.certificates start [] q t
    × (renew_all toy_crates toy_env sample toy_json dir none true false sample.certificates start []
        ≡ (ok q, t))
renew_all-Rounds_example =
    renew_all-Rounds toy_crates toy_env sample toy_json dir none true false start [] sample_passes
      sample_quiet

unused-In_example :
    (In (codes "tls") (unused_dns sample)
      ↔ (In (codes "tls") (map (λ p. p.0) sample.dns) × ¬ RefersToDns sample (codes "tls")))
    × (In (codes "tls") (unused_solvers sample)
        ↔ (In (codes "tls") (map (λ p. p.0) sample.solver) × ¬ RefersToSolver sample (codes "tls")))
    × (In (codes "tls") (unused_hooks sample) ↔ (
        In (codes "tls") (map (λ (h : NamedHookConfig). h.name) sample.hook)
        × ¬ RefersToHook sample (codes "tls")))
unused-In_example = unused-In sample (codes "tls")

checked : (dane_check toy_crates toy_env rfc_6698 sample none []).0 ≡ ok tt
unfolding dane_check ◌>>=◌ compare_certificates is_chosen compare_certificate observe load_cert ask
    from_pem check_blocks check_block compute_tlsa_records from_certificate first_record replicate
    dns_client get same load_tsig_signer extract_san check_name check_names compare_records contains
    on_answer print_found same_tlsa check_decrypted decrypt_credential load_secret rdata_to_tlsa
    decode_tsig_key is_ascii_whitespace or_raw connect_by connect_tcp connect_updater first_address
    query_tlsa_records matching_to_u8 selector_to_u8 usage_to_u8 attempt
checked = refl

dane_check-Checked_example :
    ((t : Log) × ((dane_check toy_crates toy_env rfc_6698 sample none []).1 ≡ exit 1 ∷ t))
    ⊎ All (Checked toy_crates toy_env rfc_6698 sample none) sample.certificates
dane_check-Checked_example = dane_check-Checked toy_crates toy_env rfc_6698 sample none [] checked
