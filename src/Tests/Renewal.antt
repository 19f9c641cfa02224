-- ===== src/Tests/Renewal.antt =====
-- Renewals and orders in a toy world.
use certforge.Base.{
  Text, codes, same, get, insert, remove, length, ◌+◌, ◌≤◌, ◌≡◌, refl, true, false, none, some,
  Option, List, [], ◌∷◌, if◌then◌else◌, trim_dots, ends_with, strip_prefix,
}
use certforge.Base.Paths.{join}
use certforge.Base.Int.{pos}
use certforge.Error.{ok, Result}
use certforge.Config.{ecdsa_p256, dns_client}
use certforge.Config.Zones.{find_zone, all_zones, canonical}
use certforge.Keys.Pair.{check_key, unwrap_pem, from_pem_or_der, to_pem, spki_of, spki_der}
use certforge.Keys.{generate, generated_pair}
use certforge.Tlsa.{from_spki}
use certforge.Credentials.{load_secret}
use certforge.State.{no_state, save}
use certforge.Dane.Records.{
  check_selector, compute_tlsa_from_key, first_record, replicate, resolve_zone_for_name,
  zone_and_name,
}
use certforge.Dane.{add_at, add_tlsa}
use certforge.Dns.Tsig.{is_ascii_whitespace, or_raw, decode_tsig_key, load_tsig_signer}
use certforge.Dns.Update.{
  update, check_reply, check_update_response, first_address, connect_tcp, connect_by,
  connect_updater, add_tlsa_record,
}
use certforge.Exec.{for_each, ◌>>=◌}
use certforge.Exec.Logs.{Logs}
use certforge.World.{Event, ask, attempt, observe, refresh, finalize, valid}
use certforge.World.Rules.{IsReadOnly}
use certforge.Acme.{
  refreshed, on_status, wait_ready, finalize_order, issued_chain, fetch_chain, on_download,
  wait_valid, download_certificate,
}
use certforge.Acme.Polling.{
  IsPast, finalize_order-SawPast, finalize_order-length, download_certificate-IsIssued,
}
use certforge.Renew.{
  KeyResult, is_spki, pre_published, pending_path, without_pending, with_pending, pre_publish_entry,
  pre_publish_from, pre_publish_dane, load_pending, store_and_publish, record_rotation, pre_publish,
  rotate, fresh_key, key_for, determine_key,
}
use certforge.Renew.Rotation.{determine_key-dry_run, determine_key-get}
use certforge.Renew.Waiting.{Waits, determine_key-Waits}
use certforge.Tests.{sample, mail}
use certforge.Tests.Crates.{toy_crates, toy_env, rotating, toy_json}

abbrev dir : Text
dir = codes "/var/lib/certforge"

determine_key-dry_run_example :
    Logs IsReadOnly (determine_key toy_crates toy_env sample toy_json mail dir true no_state)
determine_key-dry_run_example =
    determine_key-dry_run toy_crates toy_env sample toy_json mail dir no_state

-- what a pending key gives
abbrev read_pending : Result (Option KeyResult)
read_pending = ok (
    some (record {
      key = record { key_type = ecdsa_p256; pkcs8_der = codes "contents" };
      needs_save = true;
    }))

resumed :
    (determine_key toy_crates toy_env sample toy_json mail dir false rotating []).0
    ≡ ok (no_state, read_pending)
unfolding determine_key key_for load_pending without_pending remove get same from_pem_or_der
    check_key unwrap_pem ask ◌>>=◌
resumed = refl

determine_key-get_example : get (codes "mail") [] ≡ (
    if same mail.name (codes "mail") then none else get (codes "mail") rotating.pending_rotations)
unfolding get same
determine_key-get_example =
    determine_key-get toy_crates toy_env sample toy_json mail dir false rotating no_state
      (record {
        pending_key_path = codes "/var/lib/certforge/pending/mail.key";
        published_at = pos 0;
        old_ttl = 300;
      })
      read_pending [] refl resumed (codes "mail")

postponed :
    (determine_key toy_crates toy_env sample toy_json mail dir false no_state []).0
    ≡ ok (rotating, ok none)
unfolding determine_key key_for fresh_key generate generated_pair rotate pre_published is_spki get
    same pre_publish store_and_publish pending_path join pre_publish_dane pre_publish_from
    pre_publish_entry compute_tlsa_from_key check_selector spki_der spki_of from_spki replicate
    first_record dns_client load_tsig_signer load_secret decode_tsig_key or_raw is_ascii_whitespace
    connect_updater first_address connect_by connect_tcp add_tlsa add_at zone_and_name
    resolve_zone_for_name find_zone canonical all_zones trim_dots ends_with strip_prefix
    add_tlsa_record update check_reply check_update_response for_each record_rotation with_pending
    insert remove save to_pem ask attempt observe ◌>>=◌
postponed = refl

determine_key-Waits_example : Waits toy_crates toy_env sample toy_json mail dir rotating
determine_key-Waits_example =
    determine_key-Waits toy_crates toy_env sample toy_json mail dir no_state rotating [] postponed

finalized : (finalize_order toy_env (codes "csr") []).0 ≡ ok tt
unfolding finalize_order wait_ready refreshed on_status ask attempt ◌>>=◌
finalized = refl

finalize_order-SawPast_example :
    (t : List Event) × ((finalize_order toy_env (codes "csr") []).1
      ≡ finalize (codes "csr") ∷ refresh ∷ t)
    × IsPast (toy_env.order_status t)
finalize_order-SawPast_example = finalize_order-SawPast toy_env (codes "csr") [] finalized

finalize_order-length_example :
    length (finalize_order toy_env (codes "csr") []).1 ≤ length {A = Event} [] + 42
finalize_order-length_example = finalize_order-length toy_env (codes "csr") []

downloaded : (download_certificate toy_env []).0 ≡ ok (codes "chain")
unfolding download_certificate wait_valid refreshed on_download fetch_chain issued_chain ask ◌>>=◌
downloaded = refl

download_certificate-IsIssued_example :
    (t : List Event) × (toy_env.order_status t ≡ some valid)
    × (toy_env.issued (refresh ∷ t) ≡ some (some (codes "chain")))
download_certificate-IsIssued_example =
    download_certificate-IsIssued toy_env [] (codes "chain") downloaded
