-- ===== src/Credentials.antt =====
-- src/credentials.rs: secrets in plain files, or encrypted by `systemd-creds`.
use certforge.Base.{Bytes, ◌≡◌, ◌↔◌, refl, Option, none, some, [], ◌∷◌}
use certforge.Base.Paths.{parent}
use certforge.Error.{ok, Error, io, config, systemd_creds, credential_not_found}
use certforge.Config.{FilePath}
use certforge.Exec.{pure, raise, ◌>>=◌, ◌>>◌}
use certforge.Exec.Logs.{Logs, Logs-imp, Logs-pure, Logs-bind, Logs-raise}
use certforge.World.{
  Event, decrypt, encrypt, read_file, create_dir_all, Log, Io, Exit, not_run, io_failed, failure,
  success, Env, ok_or_err, ask, observe, attempt,
}
use certforge.World.Rules.{IsReadOnly, Logs-ask, Logs-observe}

unfoldable pub check_decrypted : FilePath → Exit → Io Bytes
check_decrypted path not_run = raise (systemd_creds "failed to run systemd-creds: {e}" [])
check_decrypted path io_failed = raise (systemd_creds "failed to run systemd-creds: {e}" [])
check_decrypted path failure =
    raise (systemd_creds "systemd-creds decrypt {} failed: {stderr}" (path ∷ []))
check_decrypted path (success stdout) = pure stdout

unfoldable pub check_encrypted : FilePath → Exit → Io (Unit {0})
check_encrypted path not_run = raise (systemd_creds "failed to run systemd-creds: {e}" [])
check_encrypted path io_failed = raise io
check_encrypted path failure =
    raise (systemd_creds "systemd-creds encrypt to {} failed: {stderr}" (path ∷ []))
check_encrypted path (success _) = pure tt

-- the one place that a secret may be taken from
abbrev pub IsSource : Option FilePath → Option FilePath → Event → Type 0
IsSource (some cred_path) path e = e ≡ decrypt cred_path
IsSource none (some file_path) e = e ≡ read_file file_path
IsSource none none e = ⊥

module _ (env : Env) where
  unfoldable pub decrypt_credential : FilePath → Io Bytes
  decrypt_credential path = do
    exit ← observe (decrypt path) (λ h. env.process h (decrypt path))
    check_decrypted path exit

  -- `create_dir_all(parent)`, where there is a parent
  unfoldable pub make_parent : Option FilePath → (FilePath → Error) → Io (Unit {0})
  make_parent none error = pure tt
  make_parent (some dir) error = attempt env (create_dir_all dir) (error dir)

  unfoldable pub encrypt_credential : Bytes → FilePath → Io (Unit {0})
  encrypt_credential secret path = do
    make_parent (parent path) (λ _. io)
    exit ← observe (encrypt secret path) (λ h. env.process h (encrypt secret path))
    check_encrypted path exit

  -- An encrypted credential goes before a plain file.
  unfoldable pub load_secret : Option FilePath → Option FilePath → Io Bytes
  load_secret (some cred_path) path = decrypt_credential cred_path
  load_secret none (some file_path) =
      ask (read_file file_path) (λ h. env.contents h file_path)
        (credential_not_found file_path file_path)
  load_secret none none = raise (config "neither credential nor path configured" [])

  check_decrypted-Logs :
      {P : Event → Log → Type 0} (path : FilePath) (exit : Exit)
      → Logs P (check_decrypted path exit)
  unfolding check_decrypted
  check_decrypted-Logs path not_run = Logs-raise _
  check_decrypted-Logs path io_failed = Logs-raise _
  check_decrypted-Logs path failure = Logs-raise _
  check_decrypted-Logs path (success stdout) = Logs-pure stdout

  pub load_secret-Logs :
      (credential path : Option FilePath)
      → Logs (λ e _. IsSource credential path e) (load_secret credential path)
  unfolding load_secret decrypt_credential
  load_secret-Logs (some cred_path) path =
      Logs-bind _ _ (Logs-observe _ _ (λ _. refl)) (check_decrypted-Logs cred_path)
  load_secret-Logs none (some file_path) = Logs-ask _ _ _ (λ _. refl)
  load_secret-Logs none none = Logs-raise _

  pub load_secret-IsReadOnly :
      (credential path : Option FilePath) → Logs IsReadOnly (load_secret credential path)
  load_secret-IsReadOnly credential path =
      Logs-imp _ (reads credential path) (load_secret-Logs credential path)
    where
      reads : (c p : Option FilePath) (e : Event) (t : Log) → IsSource c p e → IsReadOnly e t
      reads (some cred_path) p e t q = rw q tt
      reads none (some file_path) e t q = rw q tt
      reads none none e t q = absurd q

  -- the secret that its one source holds at the time
  abbrev pub Holds : Option FilePath → Option FilePath → Log → Bytes → Type 0
  Holds (some cred_path) path h secret = env.process h (decrypt cred_path) ≡ success secret
  Holds none (some file_path) h secret = env.contents h file_path ≡ some secret
  Holds none none h secret = ⊥

  -- the log after the one request that is made, if any
  abbrev pub requested : Option FilePath → Option FilePath → Log → Log
  requested (some cred_path) path h = decrypt cred_path ∷ h
  requested none (some file_path) h = read_file file_path ∷ h
  requested none none h = h

  check_decrypted_iff :
      (path : FilePath) (exit : Exit) (h : Log) (secret : Bytes)
      → ((check_decrypted path exit h).0 ≡ ok secret) ↔ (exit ≡ success secret)
  unfolding check_decrypted ◌>>=◌
  check_decrypted_iff path not_run h secret = (λ e. absurd cc, λ e. absurd cc)
  check_decrypted_iff path io_failed h secret = (λ e. absurd cc, λ e. absurd cc)
  check_decrypted_iff path failure h secret = (λ e. absurd cc, λ e. absurd cc)
  check_decrypted_iff path (success stdout) h secret = (λ e. cc, λ e. cc)

  read_iff :
      (path : FilePath) (o : Option Bytes) (secret : Bytes)
      → (ok_or_err (credential_not_found path path) o ≡ ok secret) ↔ (o ≡ some secret)
  read_iff path none secret = (λ e. absurd cc, λ e. absurd cc)
  read_iff path (some b) secret = (λ e. cc, λ e. cc)

  check_decrypted-rest :
      (path : FilePath) (exit : Exit) (h : Log) → (check_decrypted path exit h).1 ≡ h
  unfolding check_decrypted ◌>>=◌
  check_decrypted-rest path not_run h = refl
  check_decrypted-rest path io_failed h = refl
  check_decrypted-rest path failure h = refl
  check_decrypted-rest path (success stdout) h = refl

  -- A secret is loaded exactly if its source holds it: what `systemd-creds` prints for the credential,
  -- if there is one, where it ends well, else the content of the file. Whatever the result, that source
  -- is asked once and nothing else is.
  pub load_secret_iff :
      (credential path : Option FilePath) (h : Log) (secret : Bytes)
      → (((load_secret credential path h).0 ≡ ok secret) ↔ Holds credential path h secret)
        × ((load_secret credential path h).1 ≡ requested credential path h)
  unfolding load_secret decrypt_credential observe ask ◌>>=◌
  load_secret_iff (some cred_path) path h secret =
      (check_decrypted_iff cred_path _ _ secret, check_decrypted-rest cred_path _ _)
  load_secret_iff none (some file_path) h secret =
      (read_iff file_path (env.contents h file_path) secret, refl)
  load_secret_iff none none h secret = ((λ e. absurd cc, λ e. absurd e), refl)
