-- ===== src/Hooks.antt =====
-- src/hooks.rs: post-renewal hooks, by D-Bus or as commands.
pub mod Runs
use certforge.Base.{
  Text, codes, same, Bool, true, false, Option, none, some, List, [], ◌∷◌, ◌++◌, if◌then◌else◌,
}
use certforge.Error.{Error, hook, Result, ok}
use certforge.Config.{HookConfig, systemd_reload, systemd_restart, command}
use certforge.Exec.{pure, raise, capture, ◌>>=◌, ◌>>◌}
use certforge.World.{
  connect_bus, build_proxy, get_unit, get_active_state, call_manager, run_process, Log, Io, Exit,
  not_run, io_failed, failure, success, Env, ask, observe, attempt,
}

-- `action` is only ever "reload" or "restart".
pub data Action : Type 0 where
  reload restart : Action

abbrev method_of : Action → Text
method_of reload = codes "ReloadUnit"
method_of restart = codes "RestartUnit"

abbrev hook_name : Action → Text → Text
hook_name reload unit = codes "systemd-reload(" ++ (unit ++ codes ")")
hook_name restart unit = codes "systemd-restart(" ++ (unit ++ codes ")")

abbrev join : List Text → Text
join [] = []
join (w ∷ []) = w
join (w ∷ v ∷ words) = w ++ (b' ' ∷ join (v ∷ words))

unfoldable pub check_exit : List Text → Exit → Io (Unit {0})
check_exit words (success _) = pure tt
check_exit words failure =
    raise (hook (codes "command(" ++ (join words ++ codes ")")) "exited with {}: {stderr}")
check_exit words not_run =
    raise (hook (codes "command(" ++ (join words ++ codes ")")) "failed to execute: {e}")
check_exit words io_failed =
    raise (hook (codes "command(" ++ (join words ++ codes ")")) "failed to execute: {e}")

module _ (env : Env) where
  -- a stopped unit is left alone
  unfoldable pub call_if_active : Text → Action → Text → Io (Unit {0})
  call_if_active unit action active_state =
      if same active_state (codes "active")
      then attempt env (call_manager (method_of action) unit)
          (hook (hook_name action unit) "{method} failed: {e}")
      else pure tt

  unfoldable pub systemd_unit_action : Text → Action → Io (Unit {0})
  systemd_unit_action unit action = do
    let name = hook_name action unit
    attempt env connect_bus (hook name "failed to connect to system bus: {e}")
    attempt env (build_proxy (codes "/org/freedesktop/systemd1"))
        (hook name "failed to create proxy: {e}")
    unit_path ← ask (get_unit unit) (λ h. env.unit_path h unit) (hook name "GetUnit failed: {e}")
    attempt env (build_proxy unit_path) (hook name "failed to create unit proxy: {e}")
    active_state ←
        ask (get_active_state unit_path) (λ h. env.active_state h unit_path)
          (hook name "failed to get ActiveState: {e}")
    call_if_active unit action active_state

  unfoldable pub run_command : List Text → Io (Unit {0})
  run_command [] = raise (hook (codes "command") "empty command")
  run_command (program ∷ args) = do
    exit ←
        observe (run_process (program ∷ args)) (λ h. env.process h (run_process (program ∷ args)))
    check_exit (program ∷ args) exit

  unfoldable pub run_hook : Bool → HookConfig → Io (Unit {0})
  run_hook dry_run (systemd_reload unit) =
      if dry_run then pure tt else systemd_unit_action unit reload
  run_hook dry_run (systemd_restart unit) =
      if dry_run then pure tt else systemd_unit_action unit restart
  run_hook dry_run (command words) = if dry_run then pure tt else run_command words

  -- the loop of `run_hooks`, whose results are in the order of the hooks
  unfoldable pub run_hooks : Bool → List HookConfig → Io (List (Result (Unit {0})))
  run_hooks dry_run [] = pure []
  run_hooks dry_run (h ∷ hooks) = do
    result ← capture (run_hook dry_run h)
    results ← run_hooks dry_run hooks
    pure (result ∷ results)
