-- ===== src/Tests/Crates.antt =====
-- A toy instance of the parameters: other crates and the world.
use certforge.Safety.Builds.{IsConfigQuiet}
use certforge.Tests.{sample}
use certforge.State.{State, Json}
use certforge.State.Files.{KeepsFiles, holds}
use certforge.Base.{if◌then◌else◌, ◌++◌, is_some, codes, same, refl, true, none, some, All, [], ◌∷◌}
use certforge.Base.Int.{pos}
use certforge.Crates.{Crates, dns_name}
use certforge.World.{Env, success, response, no_error, valid}

-- every digest and encoding is the identity
abbrev pub toy_crates : Crates
toy_crates = record {
  blocking_read = λ inside certs. if inside then none else some certs;
  sha256 = λ b. b;
  sha512 = λ b. b;
  hex_encode = λ b. b;
  base64_decode = λ b. some b;
  pem_parse = λ b. some b;
  pem_parse_many = λ t. some (t ∷ []);
  pem_encode = λ b. b;
  ec_public_key = λ k b. some (4 ∷ 1 ∷ []);
  x509_parse = λ b. some (record {
    not_after = pos 1000000000000000000;
    subject_alternative_name = some (dns_name (codes "mail.example.com") ∷ []);
    public_key_raw = b;
  });
  from_timestamp = λ t. some t;
  is_ip = same (codes "10.0.0.1");
  name_from_ascii = λ t. some t;
  is_account = λ b. true;
  account_json = λ b. some b;
  certificate_params = λ names. true;
  csr_key = λ k b. true;
  signing_key = λ b. true;
  new_signer = λ k a n fudge. true;
}

-- every request succeeds, and every unit is active
abbrev pub toy_env : Env
toy_env = record {
  clock = λ h. pos 0;
  exists = λ h path. true;
  contents = λ h path. some (codes "contents");
  text = λ h path. some (codes "contents");
  metadata = λ h path. some (record { mode = 0o100644; uid = 0; gid = 0 });
  succeeds = λ h e. true;
  user_id = λ h name. some 0;
  group_id = λ h name. some 0;
  process = λ h e. success (codes "output");
  generated = λ h e. some (codes "generated");
  addresses = λ h name port. some (codes "192.0.2.1:53" ∷ []);
  reply = λ h e. response no_error;
  tlsa_answers = λ h name. some [];
  new_account = λ h e. some (codes "account");
  authorizations = λ h. [];
  handshakes = λ h. [];
  order_status = λ h. some valid;
  issued = λ h. some (some (codes "chain"));
  unit_path = λ h unit. some (codes "/org/freedesktop/systemd1/unit/" ++ unit);
  active_state = λ h unit. some (codes "active");
}

-- files hold what was last written to them, and nothing after other requests than looks at files
abbrev pub file_env : Env
file_env = record toy_env {
  exists = λ h path. is_some (holds toy_env.succeeds path h);
  text = λ h path. holds toy_env.succeeds path h;
}

pub file_env-KeepsFiles : KeepsFiles (λ content. true) file_env
file_env-KeepsFiles = record {
  is_there = λ h path content e. rw e refl;
  is_kept = λ h path content e u. e;
}

abbrev pub rotating : State
rotating = record {
  pending_rotations =
      (
        codes "mail",
        record {
          pending_key_path = codes "/var/lib/certforge/pending/mail.key";
          published_at = pos 0;
          old_ttl = 300;
        },
      )
      ∷ [];
}

-- a format for the one state
abbrev pub toy_json : Json
toy_json = record { to_string_pretty = λ s. some (codes "{}"); from_str = λ t. some rotating }

-- there is a TLS-ALPN-01 solver, and no handshake
pub sample_quiet : All (IsConfigQuiet toy_env) sample.solver
sample_quiet = (tt, (tt, (λ h. tt, tt)))
