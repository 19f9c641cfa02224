-- ===== src/Tests/Solvers.antt =====
-- Challenges in a toy world.
use certforge.Base.{codes, same, ◌≡◌, [], if◌then◌else◌}
use certforge.Acme.{ChallengeInfo}
use certforge.Exec.Logs.{Logs}
use certforge.Solver.Dns01.{Dns01Solver, present, cleanup}
use certforge.Solver.Http01.{
  found, not_found, handle_request, present_token, cleanup_token, url_path,
  handle_request-present_token,
}
use certforge.Solver.Records.{Adds, Deletes, present-cleanup-Logs}
use certforge.Tests.{client}
use certforge.Tests.Crates.{toy_crates, toy_env}

abbrev pub challenge : ChallengeInfo
challenge = record {
  identifier = codes "*.mail.example.com";
  token = codes "token";
  key_authorization = codes "token.thumbprint";
  dns_value = codes "digest";
}

abbrev pub solver : Dns01Solver
solver = record { dns_config = client; delay = 5 }

present-cleanup-Logs_example :
    Logs (Adds toy_crates toy_env solver challenge) (present toy_crates toy_env solver challenge)
    × Logs
        (Deletes toy_crates toy_env solver challenge)
        (cleanup toy_crates toy_env solver challenge)
present-cleanup-Logs_example = present-cleanup-Logs toy_crates toy_env solver challenge

handle_request-present_token_example :
    (handle_request (present_token challenge []) (url_path (codes "token")) ≡ (
      if same challenge.token (codes "token")
      then found challenge.key_authorization
      else handle_request [] (url_path (codes "token"))))
    × (handle_request (cleanup_token challenge []) (url_path (codes "token")) ≡ (
        if same challenge.token (codes "token")
        then not_found
        else handle_request [] (url_path (codes "token"))))
handle_request-present_token_example = handle_request-present_token challenge [] (codes "token")
