-- ===== src/World.antt =====
-- The world outside the process: files, clock, systemd, DNS servers and the ACME server.
-- An `Event` is one request to it, and a log holds the requests made so far, the latest first.
-- What it answers is a parameter, `Env`: a function of the whole log, so the world may change in any
-- way between two requests, and any request may fail.
pub mod Rules
use certforge.Base.{
  String, Text, Bytes, ℕ, Bool, Option, List, [], ◌∷◌, none, some, true, false, if◌then◌else◌,
}
use certforge.Base.Int.{ℤ}
use certforge.Error.{Error, Result, ok, err}
use certforge.Config.{FilePath, SocketAddr, KeyType}
use certforge.Dns.Rdata.{TlsaRdata}
use certforge.Exec.{Exec}

-- `ChallengeType` of instant-acme
pub data ChallengeType : Type 0 where
  dns01 http01 tls_alpn01 : ChallengeType

-- `Identifier` of instant-acme; an address stands as its text
pub data Identifier : Type 0 where
  ip dns : Text → Identifier

-- what `println!` inserts
pub data Shown : Type 0 where
  text : Text → Shown
  number : ℕ → Shown
  days : ℤ → Shown
  time : ℤ → Shown
  flag : Bool → Shown

pub data Event : Type 0 where
  -- `Utc::now`, `tokio::time::sleep`
  read_clock : Event
  sleep : (seconds : ℕ) → Event
  -- `std::fs`
  path_exists : FilePath → Event
  read_file : FilePath → Event
  -- `read_to_string`
  read_text : FilePath → Event
  read_metadata : FilePath → Event
  create_dir_all : FilePath → Event
  write_file : FilePath → Bytes → Event
  set_permissions : FilePath → (mode : ℕ) → Event
  change_owner : FilePath → (uid gid : ℕ) → Event
  remove_file : FilePath → Event
  -- `getpwnam`, `getgrnam`
  look_up_user : Text → Event
  look_up_group : Text → Event
  -- `systemd-creds`
  decrypt : FilePath → Event
  encrypt : Bytes → FilePath → Event
  -- `ring`, `rcgen`
  generate_key : KeyType → Event
  generate_csr : KeyType → Bytes → List Text → Event
  generate_alpn_cert : Identifier → (extension : Bytes) → Event
  -- DNS
  resolve : (server : Text) → (port : ℕ) → Event
  connect : SocketAddr → Event
  append_txt : (zone name value : Text) → (ttl : ℕ) → Event
  delete_txt : (zone name value : Text) → Event
  create_tlsa : (zone name : Text) → TlsaRdata → (ttl : ℕ) → Event
  replace_tlsa : (zone name : Text) → List TlsaRdata → (ttl : ℕ) → Event
  query_tlsa : Text → Event
  -- the ACME server
  load_account : Bytes → Event
  create_account : (contact : List Text) → (directory_url : Text) → Event
  new_order : List Identifier → (profile : Option Text) → Event
  fetch_authorizations : Event
  set_ready : (identifier : Text) → ChallengeType → Event
  refresh : Event
  finalize : Bytes → Event
  fetch_certificate : Event
  deactivate : Event
  -- challenge servers
  bind : SocketAddr → Event
  -- `TlsAcceptor::accept`, for the handshakes that have come
  accept : Event
  -- the command line
  print : (format : String) → List Shown → Event
  exit : (code : ℕ) → Event
  -- hooks: D-Bus and commands
  connect_bus : Event
  build_proxy : (path : Text) → Event
  get_unit : Text → Event
  get_active_state : (path : Text) → Event
  call_manager : (method : Text) → (unit : Text) → Event
  run_process : List Text → Event

abbrev pub Log : Type 0
Log = List Event

abbrev pub Io {ℓ} : Type ℓ → Type ℓ
Io A = Exec Log A

pub record Metadata : Type 0 where
  pub mode : ℕ
  pub uid : ℕ
  pub gid : ℕ

-- how a child process ends
pub data Exit : Type 0 where
  not_run : Exit
  io_failed : Exit
  failure : Exit
  success : (stdout : Bytes) → Exit

pub data ResponseCode : Type 0 where
  no_error refused not_auth nx_rrset yx_rrset not_zone other_code : ResponseCode

-- the answer to a DNS update
pub data Reply : Type 0 where
  no_response failed : Reply
  response : ResponseCode → Reply

pub record Challenge : Type 0 where
  pub token : Text
  pub key_authorization : Text
  pub dns_value : Text

pub record Authorization : Type 0 where
  pub identifier : Text
  pub challenge : ChallengeType → Option Challenge

pub data OrderStatus : Type 0 where
  pending ready processing valid invalid : OrderStatus

-- The answers: to a request, after the requests of a log.
pub record Env : Type 0 where
  pub clock : Log → ℤ
  pub exists : Log → FilePath → Bool
  pub contents : Log → FilePath → Option Bytes
  pub text : Log → FilePath → Option Text
  pub metadata : Log → FilePath → Option Metadata
  -- whether a request with no other answer succeeds
  pub succeeds : Log → Event → Bool
  pub user_id : Log → Text → Option ℕ
  pub group_id : Log → Text → Option ℕ
  pub process : Log → Event → Exit
  -- a generated key, CSR or certificate
  pub generated : Log → Event → Option Bytes
  pub addresses : Log → Text → ℕ → Option (List SocketAddr)
  pub reply : Log → Event → Reply
  pub tlsa_answers : Log → Text → Option (List TlsaRdata)
  -- the credentials of a new account
  pub new_account : Log → Event → Option Bytes
  pub authorizations : Log → List (Option Authorization)
  -- the server names of the handshakes that have come since they were last accepted
  pub handshakes : Log → List (Option Text)
  pub order_status : Log → Option OrderStatus
  pub issued : Log → Option (Option Text)
  -- the object path of a unit, and the state of the unit at a path
  pub unit_path : Log → Text → Option Text
  pub active_state : Log → Text → Option Text

abbrev pub ok_or_err : {A : Type 0} → Error → Option A → Result A
ok_or_err e none = err e
ok_or_err e (some a) = ok a

-- A request that fails with the error where there is no answer.
unfoldable pub ask : {A : Type 0} → Event → (Log → Option A) → Error → Io A
ask e answer error h = (ok_or_err error (answer h), e ∷ h)

-- A request that always has an answer.
unfoldable pub observe : {A : Type 0} → Event → (Log → A) → Io A
observe e answer h = (ok (answer h), e ∷ h)

module _ (env : Env) where
  -- A request that succeeds or fails with the error.
  unfoldable pub attempt : Event → Error → Io (Unit {0})
  attempt e error h = (if env.succeeds h e then ok tt else err error, e ∷ h)
