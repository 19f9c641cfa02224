-- ===== src/Tests/Parts.antt =====
-- Runs of the parts by themselves, in a toy world.
use certforge.Base.{codes, ◌≡◌, refl, ◌↔◌, true, false, some, List, arith, [], ◌∷◌, map, ◌+◌, ◌*◌}
use certforge.Base.Int.{pos, ◌<ℤ◌, ◌+ℤ◌, ◌-ℤ◌}
use certforge.Error.{ok}
use certforge.Config.{HookConfig, systemd_reload, command}
use certforge.Exec.Logs.{Logs}
use certforge.World.Rules.{IsReadOnly}
use certforge.Certs.{CertInfo, num_seconds, days_until_expiry, expires_within_days}
use certforge.Certs.Expiry.{Rounds, days_until_expiry-Rounds, expires_within_days_iff}
use certforge.Keys.Der.{wrap_ec_spki, ec_p256_oid}
use certforge.Keys.Der.Reader.{read_spki, read_spki-wrap_ec_spki}
use certforge.Tlsa.{TlsaRecord}
use certforge.Tlsa.Render.{IsWire, to_rdata_string_injective}
use certforge.Hooks.{run_hooks}
use certforge.Hooks.Runs.{
  IsForActive, run_hooks-Logs, run_hooks-dry_run, run_hooks_all, results_after, log_after,
}
use certforge.Permissions.{ensure_permissions}
use certforge.Permissions.Effects.{ensure_permissions-dry_run}
use certforge.Tests.{mail}
use certforge.Tests.Crates.{toy_crates, toy_env}

-- a certificate that expires 10 days and 11 hours after the epoch
abbrev soon : CertInfo
soon = record {
  leaf_der = [];
  not_after = pos 903600000000000;
  san = codes "mail.example.com" ∷ [];
  spki_der = [];
}

ten_days : days_until_expiry soon (pos 0) ≡ pos 10
unfolding days_until_expiry ◌-ℤ◌ ◌+ℤ◌
ten_days = refl

days_until_expiry-Rounds_example :
    Rounds (days_until_expiry soon (pos 0)) (num_seconds (soon.not_after -ℤ pos 0))
days_until_expiry-Rounds_example = days_until_expiry-Rounds soon (pos 0)

expires_within_days_iff_example :
    (expires_within_days soon (pos 0) 10 ≡ true)
    ↔ (soon.not_after <ℤ pos 0 +ℤ pos ((10 * 86400 + 43200) * 1000000000))
expires_within_days_iff_example = expires_within_days_iff soon (pos 0) 10

read_spki-wrap_ec_spki_example :
    read_spki (wrap_ec_spki (0x04 ∷ 1 ∷ 2 ∷ []) ec_p256_oid) ≡ some (ec_p256_oid, 0x04 ∷ 1 ∷ 2 ∷ [])
unfolding ec_p256_oid
read_spki-wrap_ec_spki_example =
    read_spki-wrap_ec_spki (0x04 ∷ 1 ∷ 2 ∷ []) ec_p256_oid (omega arith)

abbrev three_one_one : TlsaRecord
three_one_one = record { usage = 3; selector = 1; matching_type = 1; association_data = 7 ∷ [] }

three_one_one-IsWire : IsWire three_one_one
three_one_one-IsWire = record {
  usage_u8 = omega arith;
  selector_u8 = omega arith;
  matching_u8 = omega arith;
}

to_rdata_string_injective_example : three_one_one ≡ three_one_one
to_rdata_string_injective_example =
    to_rdata_string_injective toy_crates three_one_one three_one_one (λ x y e. e)
      three_one_one-IsWire three_one_one-IsWire refl

abbrev two_hooks : List HookConfig
two_hooks = systemd_reload (codes "postfix.service") ∷ command (codes "/bin/true" ∷ []) ∷ []

run_hooks-dry_run_example :
    run_hooks toy_env true two_hooks [] ≡ (ok (map (λ _. ok tt) two_hooks), [])
run_hooks-dry_run_example = run_hooks-dry_run toy_env two_hooks []

run_hooks-Logs_example : Logs (IsForActive toy_env) (run_hooks toy_env false two_hooks)
run_hooks-Logs_example = run_hooks-Logs toy_env false two_hooks

run_hooks_all_example :
    run_hooks toy_env false two_hooks []
    ≡ (ok (results_after toy_env false two_hooks []), log_after toy_env false two_hooks [])
run_hooks_all_example = run_hooks_all toy_env false two_hooks []

ensure_permissions-dry_run_example : Logs IsReadOnly (ensure_permissions toy_env mail true)
ensure_permissions-dry_run_example = ensure_permissions-dry_run toy_env mail
