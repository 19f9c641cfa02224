-- ===== src/Commands.antt =====
-- src/main.rs: the commands, over the arguments that `clap` parses as src/cli.rs describes them.
-- The verbosity and the logger are left out, and so is the account's id, which the server chooses.
pub mod Status
pub mod Dane
pub mod Matching
pub mod Confirmed
use certforge.Base.{Text, length, Bool, true, ℕ, ◌+◌, Option, none, some, List, [], ◌∷◌}
use certforge.Error.{io}
use certforge.Config.{FilePath, AcmeConfig, CertificateConfig, Config}
use certforge.Config.Load.{load_config}
use certforge.Crates.{Crates}
use certforge.Dns.Rdata.{Numbers}
use certforge.State.{Json}
use certforge.Exec.{pure, when, ◌>>=◌, ◌>>◌}
use certforge.World.{text, number, path_exists, remove_file, Io, Env, observe, attempt}
use certforge.Acme.Account.{load, create, deactivate_account}
use certforge.Renew.Run.{run}
use certforge.Commands.Status.{println, print_status}
use certforge.Commands.Dane.{dane_publish, dane_check}

pub data AccountAction : Type 0 where
  create_account show_account deactivate_it : AccountAction

pub data Command : Type 0 where
  renew : (name : Option Text) → (force : Bool) → Command
  status : (name : Option Text) → Command
  issue_one : (name : Text) → Command
  publish : (name : Option Text) → Command
  check : (name : Option Text) → Command
  config_check : Command
  account : AccountAction → Command

pub record Cli : Type 0 where
  pub config_path : FilePath
  pub dry_run : Bool
  pub state_dir : FilePath
  pub command : Command

unfoldable pub print_configured : List CertificateConfig → Io (Unit {0})
print_configured [] = pure tt
print_configured (cert ∷ certs) = do
  println "  - {}: {} domain(s), {} DANE block(s), {} hook(s) ({} named, {} inline)" (
      text cert.name
      ∷ number (length cert.domains)
      ∷ number (length cert.dane)
      ∷ number (length cert.hooks + length cert.inline_hooks)
      ∷ number (length cert.hooks)
      ∷ number (length cert.inline_hooks)
      ∷ [])
  print_configured certs

unfoldable pub config_is_valid : Config → Io (Unit {0})
config_is_valid c = do
  println "Configuration is valid. {} certificate(s) configured."
      (number (length c.certificates) ∷ [])
  print_configured c.certificates

module _ (crates : Crates) (env : Env) where
  -- `if let Some(path) … && path.exists()`
  unfoldable pub remove_if_there : Option FilePath → Io (Unit {0})
  remove_if_there none = pure tt
  remove_if_there (some path) = do
    exists ← observe (path_exists path) (λ h. env.exists h path)
    when exists (attempt env (remove_file path) io)

  unfoldable pub account_command : AcmeConfig → AccountAction → Io (Unit {0})
  account_command acme create_account = do create crates env acme; println "Account ID: {}" []
  account_command acme show_account = do load crates env acme; println "Account ID: {}" []
  account_command acme deactivate_it = do
    load crates env acme
    deactivate_account crates env
    remove_if_there acme.account_key_credential
    remove_if_there acme.account_key_path
    println "Account {id} deactivated" []

  module _ (json : Json) (numbers : Numbers) where
    unfoldable pub run_command_with : Cli → Config → Command → Io (Unit {0})
    run_command_with cli c (renew name force) =
        run crates env c json cli.state_dir name force cli.dry_run
    run_command_with cli c (status name) = print_status crates env c name
    run_command_with cli c (issue_one name) =
        run crates env c json cli.state_dir (some name) true cli.dry_run
    run_command_with cli c (publish name) = dane_publish crates env c name cli.dry_run
    run_command_with cli c (check name) = dane_check crates env numbers c name
    run_command_with cli c config_check = config_is_valid c
    run_command_with cli c (account action) = account_command c.acme action

    -- every command loads the configuration first
    unfoldable pub main : (from_toml : Text → Option Config) → Cli → Io (Unit {0})
    main from_toml cli = do
      c ← load_config env crates.is_ip from_toml cli.config_path
      run_command_with cli c cli.command
