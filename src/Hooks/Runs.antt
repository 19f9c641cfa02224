-- ===== src/Hooks/Runs.antt =====
-- What the hooks of a list do.
use certforge.Base.{
  Text, codes, same as same_text, same_iff, map, Bool, true, false, Option, none, some, List, [],
  ◌∷◌, ◌≡◌, ◌≢◌, refl, arith, inl, inr, Bool-cases,
}
use certforge.Error.{Error, Result, ok, err, panic}
use certforge.Config.{HookConfig, systemd_reload, systemd_restart, command}
use certforge.Exec.{as_value, ◌>>=◌, ◌>>◌}
use certforge.Exec.Logs.{
  Extends, Extends-trans, same, more, Logs, Logs-pure, Logs-bind, Logs-capture,
}
use certforge.World.{
  Event, call_manager, get_active_state, build_proxy, get_unit, Log, Exit, not_run, io_failed,
  failure, success, Env, ask, observe, attempt,
}
use certforge.World.Rules.{io_rules, Logs-ask_bind, Logs-attempt, Logs-observe}
use certforge.Hooks.{
  Action, call_if_active, systemd_unit_action, check_exit, run_command, run_hook, run_hooks,
}

-- In a dry run every hook succeeds and no request is made.
pub run_hooks-dry_run :
    (env : Env) (hooks : List HookConfig) (h : Log)
    → run_hooks env true hooks h ≡ (ok (map (λ _. ok tt) hooks), h)
unfolding run_hooks run_hook ◌>>=◌
run_hooks-dry_run env [] h = refl
run_hooks-dry_run env (systemd_reload u ∷ hooks) h = rw (run_hooks-dry_run env hooks h, ◌>>=◌)
run_hooks-dry_run env (systemd_restart u ∷ hooks) h = rw (run_hooks-dry_run env hooks h, ◌>>=◌)
run_hooks-dry_run env (command w ∷ hooks) h = rw (run_hooks-dry_run env hooks h, ◌>>=◌)

-- A manager method is called only if the request before it asked for the state of the unit, at the path
-- that GetUnit had given for it, and the answer was that it is active.
abbrev pub IsForActive : Env → Event → Log → Type 0
IsForActive env (call_manager _ unit) t =
    (h : Log) × (path : Text) × (t ≡ get_active_state path ∷ build_proxy path ∷ get_unit unit ∷ h)
    × (env.unit_path h unit ≡ some path)
    × (env.active_state (build_proxy path ∷ get_unit unit ∷ h) path ≡ some (codes "active"))
IsForActive env _ _ = Unit

call_if_active-Logs :
    (env : Env) (unit path : Text) (action : Action) (state : Text) (h : Log)
    → env.unit_path h unit ≡ some path
    → env.active_state (build_proxy path ∷ get_unit unit ∷ h) path ≡ some state
    → Extends
        (IsForActive env)
        (get_active_state path ∷ build_proxy path ∷ get_unit unit ∷ h)
        (call_if_active env unit action state
          (get_active_state path ∷ build_proxy path ∷ get_unit unit ∷ h)).1
unfolding call_if_active attempt
call_if_active-Logs env unit path action state h p q =
    elim (Bool-cases (same_text state (codes "active"))) [
      | inl e ↦ rw e (more (h, path, refl, p, rw (← (same_iff state (codes "active")).0 e) q) same)
      | inr e ↦ rw e ((Logs-pure tt).at _)
    ]

-- from the path on
at_path-Logs :
    (env : Env) (unit path : Text) (action : Action) (no_proxy no_state : Error) (h : Log)
    (b : Bool) (o : Option Text)
    → env.unit_path h unit ≡ some path
    → env.succeeds (get_unit unit ∷ h) (build_proxy path) ≡ b
    → env.active_state (build_proxy path ∷ get_unit unit ∷ h) path ≡ o
    → Extends
        (IsForActive env)
        (get_unit unit ∷ h)
        ((attempt env (build_proxy path) no_proxy
            >> (ask (get_active_state path) (λ t. env.active_state t path) no_state
                >>= call_if_active env unit action))
          (get_unit unit ∷ h)).1
unfolding attempt ask ◌>>=◌
at_path-Logs env unit path action no_proxy no_state h false o p b q = rw b (more tt same)
at_path-Logs env unit path action no_proxy no_state h true none p b q =
    rw (b, q) (more tt (more tt same))
at_path-Logs env unit path action no_proxy no_state h true (some state) p b q =
    rw (b, q)
      (Extends-trans (more tt (more tt same))
        (call_if_active-Logs env unit path action state h p q))

systemd_unit_action-Logs :
    (env : Env) (unit : Text) (action : Action)
    → Logs (IsForActive env) (systemd_unit_action env unit action)
unfolding systemd_unit_action
systemd_unit_action-Logs env unit action = Logs-bind _ _ (Logs-attempt env _ _ (λ _. tt)) λ _.
    Logs-bind _ _ (Logs-attempt env _ _ (λ _. tt)) λ _.
      Logs-ask_bind _ _ _ _ (λ _. tt)
        λ h path p. at_path-Logs env unit path action _ _ h _ _ p refl refl

check_exit-Logs :
    (env : Env) (words : List Text) (exit : Exit) → Logs (IsForActive env) (check_exit words exit)
unfolding check_exit
check_exit-Logs env words (success _) = search io_rules
check_exit-Logs env words failure = search io_rules
check_exit-Logs env words not_run = search io_rules
check_exit-Logs env words io_failed = search io_rules

run_command-Logs : (env : Env) (words : List Text) → Logs (IsForActive env) (run_command env words)
unfolding run_command
run_command-Logs env [] = search io_rules
run_command-Logs env (program ∷ args) =
    Logs-bind _ _ (Logs-observe _ _ (λ _. tt)) (check_exit-Logs env (program ∷ args))

run_hook-Logs :
    (env : Env) (dry_run : Bool) (k : HookConfig) → Logs (IsForActive env) (run_hook env dry_run k)
unfolding run_hook
run_hook-Logs env dry_run (systemd_reload unit) = search (io_rules, systemd_unit_action-Logs)
run_hook-Logs env dry_run (systemd_restart unit) = search (io_rules, systemd_unit_action-Logs)
run_hook-Logs env dry_run (command words) = search (io_rules, run_command-Logs)

-- Whatever the hooks and the world, a unit is reloaded or restarted only if the request just before
-- asked systemd for its state and the answer was "active".
pub run_hooks-Logs :
    (env : Env) (dry_run : Bool) (hooks : List HookConfig)
    → Logs (IsForActive env) (run_hooks env dry_run hooks)
unfolding run_hooks
run_hooks-Logs env dry_run [] = Logs-pure []
run_hooks-Logs env dry_run (k ∷ hooks) =
    Logs-bind _ _ (Logs-capture _ (run_hook-Logs env dry_run k))
      λ r. Logs-bind _ _ (run_hooks-Logs env dry_run hooks) λ rs. Logs-pure (r ∷ rs)

-- A hook ends with a result, never in a panic.
run_hook-ne-panic :
    (env : Env) (dry_run : Bool) (k : HookConfig) (h : Log) → (run_hook env dry_run k h).0 ≢ panic
unfolding run_hook systemd_unit_action call_if_active run_command check_exit ask observe attempt
    ◌>>=◌
run_hook-ne-panic env true (systemd_reload unit) h = cc
run_hook-ne-panic env true (systemd_restart unit) h = cc
run_hook-ne-panic env true (command words) h = cc
run_hook-ne-panic env false (systemd_reload unit) h = ground arith
run_hook-ne-panic env false (systemd_restart unit) h = ground arith
run_hook-ne-panic env false (command []) h = cc
run_hook-ne-panic env false (command (program ∷ args)) h = ground arith

as_value-ne-panic : {A : Type 0} (r : Result A) → r ≢ panic → as_value r ≡ ok r
as_value-ne-panic (ok a) n = refl
as_value-ne-panic (err e) n = refl
as_value-ne-panic panic n = absurd (n refl)

-- Each hook by itself, from the log that the one before it left.
module _ (env : Env) (dry_run : Bool) where
  abbrev pub log_after : List HookConfig → Log → Log
  log_after [] h = h
  log_after (k ∷ hooks) h = log_after hooks (run_hook env dry_run k h).1

  abbrev pub results_after : List HookConfig → Log → List (Result (Unit {0}))
  results_after [] h = []
  results_after (k ∷ hooks) h =
      (run_hook env dry_run k h).0 ∷ results_after hooks (run_hook env dry_run k h).1

  -- All hooks run in their order, whatever the results of those before, and the results come back in
  -- that order.
  pub run_hooks_all :
      (hooks : List HookConfig) (h : Log)
      → run_hooks env dry_run hooks h ≡ (ok (results_after hooks h), log_after hooks h)
  unfolding run_hooks ◌>>=◌
  run_hooks_all [] h = refl
  run_hooks_all (k ∷ hooks) h =
      rw (as_value-ne-panic (run_hook env dry_run k h).0 (run_hook-ne-panic env dry_run k h))
        (rw (run_hooks_all hooks (run_hook env dry_run k h).1) refl)
