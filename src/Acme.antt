-- ===== src/Acme.antt =====
-- src/acme.rs: the two loops that wait for an order, and the choice of challenges.
pub mod Account
pub mod Polling
use certforge.Base.{
  Text, Bytes, map, codes, same, ℕ, zero, suc, Bool, true, false, Option, none, some, List, [], ◌∷◌,
  if◌then◌else◌, ◌≡◌,
}
use certforge.Error.{Error, acme, Result}
use certforge.Config.Validate.{challenge_name}
use certforge.Exec.{pure, raise, lift, ◌>>=◌, ◌>>◌}
use certforge.World.{
  Event, sleep, refresh, finalize, fetch_certificate, fetch_authorizations, set_ready, new_order,
  Log, Io, ChallengeType, dns01, Challenge, Authorization, OrderStatus, pending, ready, processing,
  valid, invalid, Env, ask, observe, attempt, Identifier, ip, dns, ok_or_err,
}

pub record ChallengeInfo : Type 0 where
  pub identifier : Text
  pub token : Text
  pub key_authorization : Text
  pub dns_value : Text

-- the first type desired for the identifier, `Dns01` if there is none
unfoldable pub desired_type : Text → List (Text × ChallengeType) → ChallengeType
desired_type identifier [] = dns01
desired_type identifier ((id, kind) ∷ desired_types) =
    let rest = desired_type identifier desired_types in if same id identifier then kind else rest

unfoldable pub challenge_info : Text → Challenge → ChallengeInfo
challenge_info identifier challenge = record {
  identifier = identifier;
  token = challenge.token;
  key_authorization = challenge.key_authorization;
  dns_value = challenge.dns_value;
}

unfoldable pub chosen : Text → Option Challenge → Io ChallengeInfo
chosen identifier none = raise (acme "no {desired:?} challenge for {identifier}" (identifier ∷ []))
chosen identifier (some challenge) = pure (challenge_info identifier challenge)

unfoldable pub identifier_of : (Text → Bool) → Text → Identifier
identifier_of is_ip d = if is_ip d then ip d else dns d

module _ (env : Env) where
  -- `acme.create_order`: the identifiers are in the order of the domains
  unfoldable pub create_order : (Text → Bool) → List Text → Option Text → Io (Unit {0})
  create_order is_ip domains profile =
      attempt env (new_order (map (identifier_of is_ip) domains) profile) (acme "{0}" [])

  -- one authorization of the list, which is fetched as it is reached
  unfoldable pub fetched : Option Authorization → Io Authorization
  fetched auth = ask fetch_authorizations (λ _. auth) (acme "{0}" [])

  unfoldable pub collect_from :
      List (Text × ChallengeType) → List (Option Authorization) → Io (List ChallengeInfo)
  collect_from desired_types [] = pure []
  collect_from desired_types (a ∷ auths) = do
    auth ← fetched a
    info ← chosen auth.identifier (auth.challenge (desired_type auth.identifier desired_types))
    infos ← collect_from desired_types auths
    pure (info ∷ infos)

  unfoldable pub collect_challenges : List (Text × ChallengeType) → Io (List ChallengeInfo)
  collect_challenges desired_types h = collect_from desired_types (env.authorizations h) h

  unfoldable pub set_one_ready : Text → ChallengeType → Option Challenge → Io (Unit {0})
  set_one_ready identifier kind none = pure tt
  set_one_ready identifier kind (some challenge) =
      attempt env (set_ready identifier kind) (acme "{0}" [])

  unfoldable pub set_ready_from :
      List (Text × ChallengeType) → List (Option Authorization) → Io (Unit {0})
  set_ready_from desired_types [] = pure tt
  set_ready_from desired_types (a ∷ auths) = do
    auth ← fetched a
    let kind = desired_type auth.identifier desired_types
    set_one_ready auth.identifier kind (auth.challenge kind)
    set_ready_from desired_types auths

  unfoldable pub set_challenges_ready : List (Text × ChallengeType) → Io (Unit {0})
  set_challenges_ready desired_types h = set_ready_from desired_types (env.authorizations h) h

  unfoldable pub refreshed : Io OrderStatus
  refreshed = ask refresh env.order_status (acme "{0}" [])

  unfoldable pub pause : Io (Unit {0})
  pause = observe (sleep 3) (λ _. tt)

  abbrev pub request_failed : Error
  request_failed = acme "{0}" []

  -- `retries` is what is left of the 20
  unfoldable pub after_pending : ℕ → Io (Unit {0}) → Io (Unit {0})
  after_pending zero again = raise (acme "order still pending after max retries" [])
  after_pending (suc retries) again = pause >> again

  unfoldable pub on_status : ℕ → Io (Unit {0}) → OrderStatus → Io (Unit {0})
  on_status retries again ready = pure tt
  on_status retries again pending = after_pending retries again
  on_status retries again invalid = raise (acme "order became invalid" [])
  on_status retries again processing = pure tt
  on_status retries again valid = pure tt

  unfoldable pub wait_ready : ℕ → Io (Unit {0})
  wait_ready zero = refreshed >>= on_status zero (raise request_failed)
  wait_ready (suc retries) = refreshed >>= on_status (suc retries) (wait_ready retries)

  unfoldable pub finalize_order : Bytes → Io (Unit {0})
  finalize_order csr_der = do wait_ready 20; attempt env (finalize csr_der) request_failed

  unfoldable pub issued_chain : Option Text → Io Text
  issued_chain none = raise (acme "order valid but no certificate available" [])
  issued_chain (some chain) = pure chain

  unfoldable pub fetch_chain : Io Text
  fetch_chain = do chain ← ask fetch_certificate env.issued request_failed; issued_chain chain

  unfoldable pub after_processing : ℕ → Io Text → Io Text
  after_processing zero again = raise (acme "certificate still processing after max retries" [])
  after_processing (suc retries) again = pause >> again

  unfoldable pub on_download : ℕ → Io Text → OrderStatus → Io Text
  on_download retries again valid = fetch_chain
  on_download retries again processing = after_processing retries again
  on_download retries again pending = raise (acme "unexpected order status: {status:?}" [])
  on_download retries again ready = raise (acme "unexpected order status: {status:?}" [])
  on_download retries again invalid = raise (acme "unexpected order status: {status:?}" [])

  unfoldable pub wait_valid : ℕ → Io Text
  wait_valid zero = refreshed >>= on_download zero (raise request_failed)
  wait_valid (suc retries) = refreshed >>= on_download (suc retries) (wait_valid retries)

  unfoldable pub download_certificate : Io Text
  download_certificate = wait_valid 20
