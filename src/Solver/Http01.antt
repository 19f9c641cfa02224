-- ===== src/Solver/Http01.antt =====
-- src/solver/http01.rs: the tokens of the standalone server and what it answers, and the files of the
-- webroot solver.
use certforge.Base.{
  inl, inr, Bool-cases, Text, codes, strip_prefix, same, strip_prefix-append, get, insert, remove,
  get-insert, get-remove, Dict, Option, none, some, ◌++◌, ◌≡◌, refl, if◌then◌else◌,
}
use certforge.Base.Paths.{join, parent}
use certforge.Error.{io}
use certforge.Config.{FilePath}
use certforge.Credentials.{make_parent}
use certforge.Acme.{ChallengeInfo}
use certforge.Exec.{when, ◌>>=◌, ◌>>◌}
use certforge.World.{path_exists, write_file, remove_file, Io, Env, observe, attempt}

-- `Response`
pub data Answer : Type 0 where
  found : (body : Text) → Answer
  not_found : Answer

unfoldable pub answer_for : Option Text → Answer
answer_for none = not_found
answer_for (some key_auth) = found key_auth

unfoldable pub look_up : Dict Text → Option Text → Answer
look_up tokens none = not_found
look_up tokens (some token) = answer_for (get token tokens)

unfoldable pub handle_request : Dict Text → Text → Answer
handle_request tokens path =
    look_up tokens (strip_prefix (codes "/.well-known/acme-challenge/") path)

-- what `present` and `cleanup` of the standalone solver do to the tokens
unfoldable pub present_token : ChallengeInfo → Dict Text → Dict Text
present_token challenge tokens = insert challenge.token challenge.key_authorization tokens

unfoldable pub cleanup_token : ChallengeInfo → Dict Text → Dict Text
cleanup_token challenge tokens = remove challenge.token tokens

unfoldable pub challenge_path : FilePath → Text → FilePath
challenge_path webroot token =
    join (join (join webroot (codes ".well-known")) (codes "acme-challenge")) token

module _ (env : Env) (webroot : FilePath) where
  unfoldable pub present_file : ChallengeInfo → Io (Unit {0})
  present_file challenge = do
    let path = challenge_path webroot challenge.token
    make_parent env (parent path) (λ _. io)
    attempt env (write_file path challenge.key_authorization) io

  unfoldable pub cleanup_file : ChallengeInfo → Io (Unit {0})
  cleanup_file challenge = do
    let path = challenge_path webroot challenge.token
    exists ← observe (path_exists path) (λ h. env.exists h path)
    when exists (attempt env (remove_file path) io)

-- the path that the ACME server asks for
abbrev pub url_path : Text → Text
url_path token = codes "/.well-known/acme-challenge/" ++ token

handle_request-url_path :
    (tokens : Dict Text) (token : Text)
    → handle_request tokens (url_path token) ≡ answer_for (get token tokens)
unfolding handle_request look_up
handle_request-url_path tokens token =
    rw (strip_prefix-append (codes "/.well-known/acme-challenge/") token) refl

-- While a challenge is presented the server answers it with its key authorization, and after its
-- cleanup with a 404; the answers for other tokens stay as they were.
pub handle_request-present_token :
    (challenge : ChallengeInfo) (tokens : Dict Text) (token : Text)
    → (handle_request (present_token challenge tokens) (url_path token) ≡ (
        if same challenge.token token
        then found challenge.key_authorization
        else handle_request tokens (url_path token)))
      × (handle_request (cleanup_token challenge tokens) (url_path token) ≡ (
          if same challenge.token token then not_found else handle_request tokens (url_path token)))
unfolding present_token cleanup_token answer_for
handle_request-present_token challenge tokens token =
    rw
      (
        handle_request-url_path (present_token challenge tokens) token,
        handle_request-url_path (cleanup_token challenge tokens) token,
        handle_request-url_path tokens token,
        get-insert challenge.token token challenge.key_authorization tokens,
        get-remove challenge.token token tokens,
      )
      (elim (Bool-cases (same challenge.token token)) [
        | inl e ↦ rw e (refl, refl)
        | inr e ↦ rw e (refl, refl)
      ])
