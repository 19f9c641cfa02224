-- ===== src/Dns/Update.antt =====
-- src/dns/update.rs: the client for RFC 2136 updates. A name is what `Name::from_ascii` has read.
-- The operations take the connected client, which keeps no state of its own.
use certforge.Base.{Text, codes, ℕ, List, [], ◌∷◌, map}
use certforge.Error.{dns_update}
use certforge.Config.{DnsProtocol, tcp, udp, DnsClientConfig, SocketAddr}
use certforge.Tlsa.{TlsaRecord}
use certforge.Dns.Rdata.{Numbers, tlsa_to_rdata, rdata_to_tlsa}
use certforge.Exec.{pure, raise, ◌>>=◌}
use certforge.World.{
  Event, resolve, connect, append_txt, delete_txt, create_tlsa, replace_tlsa, query_tlsa, Io,
  ResponseCode, no_error, refused, not_auth, nx_rrset, yx_rrset, not_zone, other_code, Reply,
  no_response, failed, response, Env, ask, observe, attempt,
}

unfoldable pub check_update_response : Text → ResponseCode → Io (Unit {0})
check_update_response operation no_error = pure tt
check_update_response operation refused = raise (
    dns_update
      "{operation}: update REFUSED by server (check TSIG key name, secret, and update-policy/allow-update in zone config)"
      (operation ∷ []))
check_update_response operation not_auth =
    raise (
      dns_update "{operation}: server is not authoritative for this zone (NOTAUTH)"
        (operation ∷ []))
check_update_response operation nx_rrset = raise (
    dns_update "{operation}: prerequisite failed - RRset does not exist (NXRRSET)" (operation ∷ []))
check_update_response operation yx_rrset = raise (
    dns_update "{operation}: prerequisite failed - RRset already exists (YXRRSET)" (operation ∷ []))
check_update_response operation not_zone =
    raise (dns_update "{operation}: update name is not within the zone (NOTZONE)" (operation ∷ []))
check_update_response operation other_code =
    raise (dns_update "{operation}: server responded with {code}" (operation ∷ []))

-- what the client makes of the answer to one update
unfoldable pub check_reply : Text → Reply → Io (Unit {0})
check_reply operation no_response = raise (dns_update "{operation}: {detail}" (operation ∷ []))
check_reply operation failed = raise (dns_update "{operation}: {detail}" (operation ∷ []))
check_reply operation (response code) = check_update_response operation code

-- the same for a replacement, which names a stream that ends without a response
unfoldable pub check_replaced : Reply → Io (Unit {0})
check_replaced no_response = raise (dns_update "replace TLSA records: no response" [])
check_replaced failed = check_reply (codes "failed to replace TLSA records") failed
check_replaced (response code) =
    check_reply (codes "failed to replace TLSA records") (response code)

unfoldable pub first_address : Text → List SocketAddr → Io SocketAddr
first_address server [] =
    raise (dns_update "DNS server {addr_str} resolved to no addresses" (server ∷ []))
first_address server (addr ∷ _) = pure addr

module _ (env : Env) where
  -- one update and its answer
  unfoldable pub update : Event → Text → Io (Unit {0})
  update e operation = do reply ← observe e (λ h. env.reply h e); check_reply operation reply

  -- UDP is taken for TCP
  unfoldable pub connect_tcp : SocketAddr → Io (Unit {0})
  connect_tcp addr = attempt env (connect addr) (dns_update "TCP connection failed: {detail}" [])

  unfoldable pub connect_by : DnsProtocol → SocketAddr → Io (Unit {0})
  connect_by tcp addr = connect_tcp addr
  connect_by udp addr = connect_tcp addr

  unfoldable pub connect_updater : DnsClientConfig → Io (Unit {0})
  connect_updater config = do
    addresses ←
        ask (resolve config.server config.port) (λ h. env.addresses h config.server config.port)
          (dns_update "failed to resolve DNS server {addr_str}: {e}" (config.server ∷ []))
    addr ← first_address config.server addresses
    connect_by config.protocol addr

  unfoldable pub add_txt_record : Text → Text → Text → ℕ → Io (Unit {0})
  add_txt_record zone name value ttl =
      update (append_txt zone name value ttl) (codes "failed to add TXT record")

  unfoldable pub delete_txt_record : Text → Text → Text → Io (Unit {0})
  delete_txt_record zone name value =
      update (delete_txt zone name value) (codes "failed to delete TXT record")

  unfoldable pub add_tlsa_record : Text → Text → TlsaRecord → ℕ → Io (Unit {0})
  add_tlsa_record zone name tlsa ttl =
      update (create_tlsa zone name (tlsa_to_rdata tlsa) ttl) (codes "failed to add TLSA record")

  unfoldable pub replace_tlsa_records : Text → Text → List TlsaRecord → ℕ → Io (Unit {0})
  replace_tlsa_records zone name records ttl = do
    reply ←
        observe (replace_tlsa zone name (map tlsa_to_rdata records) ttl)
          (λ h. env.reply h (replace_tlsa zone name (map tlsa_to_rdata records) ttl))
    check_replaced reply

  unfoldable pub query_tlsa_records : Numbers → Text → Io (List TlsaRecord)
  query_tlsa_records numbers name = do
    answers ←
        ask (query_tlsa name) (λ h. env.tlsa_answers h name)
          (dns_update "TLSA query failed: {detail}" [])
    pure (map (rdata_to_tlsa numbers) answers)
