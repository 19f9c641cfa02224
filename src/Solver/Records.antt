-- ===== src/Solver/Records.antt =====
-- The TXT records of a DNS-01 challenge (src/solver/dns01.rs).
use certforge.Base.{Text, Option, none, some, List, [], ◌∷◌, ◌≡◌, refl, ◌⊎◌, inl, inr}
use certforge.Error.{dns_update, Error, ok}
use certforge.Config.{DnsClientConfig, DnsProtocol, tcp, udp, SocketAddr, ok_or}
use certforge.Config.Zones.{find_zone}
use certforge.Crates.{Crates}
use certforge.Acme.{ChallengeInfo}
use certforge.Credentials.{load_secret-IsReadOnly}
use certforge.Dns.Tsig.{load_tsig_signer}
use certforge.Dns.Update.{
  check_update_response, check_reply, first_address, connect_tcp, connect_by, connect_updater,
  update, add_txt_record, delete_txt_record,
}
use certforge.Exec.{lift, ◌>>=◌, ◌>>◌}
use certforge.Exec.Logs.{
  Logs, Logs-imp, Logs-pure, Logs-raise, Logs-lift, Logs-lift_bind, Logs-bind, Logs-if,
}
use certforge.World.{
  Event, append_txt, delete_txt, Log, Io, Reply, no_response, failed, response, no_error, refused,
  not_auth, nx_rrset, yx_rrset, not_zone, other_code, Env,
}
use certforge.World.Rules.{IsReadOnly, Logs-ask, Logs-observe, Logs-attempt}
use certforge.Solver.Dns01.{Dns01Solver, txt_name, resolve_zone, present, cleanup}

ok_or-ok : {A : Type 0} (o : Option A) (e : Error) {a : A} → ok_or o e ≡ ok a → o ≡ some a
ok_or-ok none e q = absurd cc
ok_or-ok (some b) e q = cc

module _ (env : Env) where
  first_address-Logs :
      (server : Text) (addrs : List SocketAddr) → Logs IsReadOnly (first_address server addrs)
  unfolding first_address
  first_address-Logs server [] = Logs-raise _
  first_address-Logs server (addr ∷ _) = Logs-pure addr

  connect_by-Logs :
      (protocol : DnsProtocol) (addr : SocketAddr) → Logs IsReadOnly (connect_by env protocol addr)
  unfolding connect_by connect_tcp
  connect_by-Logs tcp addr = Logs-attempt env _ _ (λ _. tt)
  connect_by-Logs udp addr = Logs-attempt env _ _ (λ _. tt)

  -- To connect is to change nothing.
  pub connect_updater-Logs :
      (config : DnsClientConfig) → Logs IsReadOnly (connect_updater env config)
  unfolding connect_updater
  connect_updater-Logs config = Logs-bind _ _ (Logs-ask _ _ _ (λ _. tt)) λ addrs.
      Logs-bind _ _ (first_address-Logs config.server addrs)
        λ addr. connect_by-Logs config.protocol addr

  pub load_tsig_signer-Logs :
      (crates : Crates) (config : DnsClientConfig)
      → Logs IsReadOnly (load_tsig_signer crates env config)
  unfolding load_tsig_signer
  load_tsig_signer-Logs crates config =
      Logs-bind _ _ (load_secret-IsReadOnly env config.tsig_key_credential config.tsig_key_path)
        λ _. Logs-bind _ _ (Logs-lift _) λ _. Logs-if _ _ _ (Logs-pure _) (Logs-raise _)

module _ {P : Event → Log → Type 0} where
  check_reply-Logs : (operation : Text) (reply : Reply) → Logs P (check_reply operation reply)
  unfolding check_reply check_update_response
  check_reply-Logs operation no_response = Logs-raise _
  check_reply-Logs operation failed = Logs-raise _
  check_reply-Logs operation (response no_error) = Logs-pure tt
  check_reply-Logs operation (response refused) = Logs-raise _
  check_reply-Logs operation (response not_auth) = Logs-raise _
  check_reply-Logs operation (response nx_rrset) = Logs-raise _
  check_reply-Logs operation (response yx_rrset) = Logs-raise _
  check_reply-Logs operation (response not_zone) = Logs-raise _
  check_reply-Logs operation (response other_code) = Logs-raise _

  -- an update makes one request
  pub update-Logs :
      (env : Env) (e : Event) (operation : Text)
      → ((h : Log) → P e h)
      → Logs P (update env e operation)
  unfolding update
  update-Logs env e operation p =
      Logs-bind _ _ (Logs-observe _ _ p) λ reply. check_reply-Logs operation reply

module _ (crates : Crates) (env : Env) (solver : Dns01Solver) (challenge : ChallengeInfo) where
  -- The name of the challenge, in the zone found for it.
  abbrev pub IsRecordName : (zone name : Text) → Type 0
  IsRecordName zone name =
      (zone_str : Text) × (find_zone solver.dns_config (txt_name challenge) ≡ some zone_str)
      × (crates.name_from_ascii zone_str ≡ some zone)
      × (crates.name_from_ascii (txt_name challenge) ≡ some name)

  -- The request adds the record of the challenge, or only reads.
  abbrev pub Adds : Event → Log → Type 0
  Adds e t =
      IsReadOnly e t
      ⊎ ((zone : Text) × (name : Text) × IsRecordName zone name
          × (e ≡ append_txt zone name challenge.dns_value 60))

  -- The request deletes the record of the challenge, or only reads.
  abbrev pub Deletes : Event → Log → Type 0
  Deletes e t =
      IsReadOnly e t
      ⊎ ((zone : Text) × (name : Text) × IsRecordName zone name
          × (e ≡ delete_txt zone name challenge.dns_value))

  -- what both operations do, up to the update itself
  abbrev at_record : (Text → Text → Io (Unit {0})) → Io (Unit {0})
  at_record operation = do
    zone_str ← lift (resolve_zone solver (txt_name challenge))
    _ ← load_tsig_signer crates env solver.dns_config
    connect_updater env solver.dns_config
    name ← lift (
        ok_or (crates.name_from_ascii (txt_name challenge)) (dns_update "invalid TXT name: {e}" []))
    zone ← lift (ok_or (crates.name_from_ascii zone_str) (dns_update "invalid zone: {e}" []))
    operation zone name

  at_record-Logs :
      {P : Event → Log → Type 0} (operation : Text → Text → Io (Unit {0}))
      → ((e : Event) (t : Log) → IsReadOnly e t → P e t)
      → ((zone name : Text) → IsRecordName zone name → Logs P (operation zone name))
      → Logs P (at_record operation)
  unfolding resolve_zone
  at_record-Logs operation reads k = Logs-lift_bind _ _ λ zone_str a.
      Logs-bind _ _ (Logs-imp _ reads (load_tsig_signer-Logs env crates solver.dns_config)) λ _.
        Logs-bind _ _ (Logs-imp _ reads (connect_updater-Logs env solver.dns_config)) λ _.
          Logs-lift_bind _ _ λ name b.
            Logs-lift_bind _ _
              λ zone c. k zone name (zone_str, ok_or-ok _ _ a, ok_or-ok _ _ c, ok_or-ok _ _ b)

  -- To present a challenge adds no other record than that of its name and value in the zone found for
  -- the name, and to clean it up deletes no other.
  pub present-cleanup-Logs :
      Logs Adds (present crates env solver challenge)
      × Logs Deletes (cleanup crates env solver challenge)
  unfolding present cleanup add_txt_record delete_txt_record
  present-cleanup-Logs = (
    at_record-Logs _ (λ e t r. inl r)
        λ zone name at. update-Logs env _ _ (λ h. inr (zone, name, at, refl)),
    at_record-Logs _ (λ e t r. inl r)
        λ zone name at. update-Logs env _ _ (λ h. inr (zone, name, at, refl)),
  )
