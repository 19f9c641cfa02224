-- ===== src/Tests/Settled.antt =====
-- A file with the right mode and owner in a toy world.
use certforge.Base.{codes, ◌≡◌, refl, sym, ◌∙◌, ap, eq_of_some, some, none, false, ◌%◌}
use certforge.Error.{ok, eq_of_ok}
use certforge.Config.Modes.{parse_mode}
use certforge.Exec.Logs.{Logs, lift-ok}
use certforge.World.Rules.{IsReadOnly}
use certforge.Permissions.{apply, desired_mode}
use certforge.Permissions.Settled.{IsSettled, apply-IsSettled}
use certforge.Tests.Crates.{toy_env}

mode_read : parse_mode (codes "0644") ≡ ok 420
unfolding parse_mode
mode_read = refl

settled : IsSettled toy_env (codes "/a") (some (codes "0644")) 384 (some (codes "root")) none
unfolding desired_mode
settled = record {
  mode_kept = λ h t m d seen e.
      ap (λ x. x.mode % 4096) (sym (eq_of_some _ _ seen))
      ∙ eq_of_ok _ _ (sym mode_read ∙ lift-ok (parse_mode (codes "0644")) t e);
  owner_kept =
      λ h t m name n q seen e. sym (eq_of_some _ _ e) ∙ ap (λ x. x.uid) (eq_of_some _ _ seen);
  group_kept = λ h t m name n q seen e. absurd cc;
}

apply-IsSettled_example :
    Logs IsReadOnly
      (apply toy_env (codes "/a") (some (codes "0644")) 384 (some (codes "root")) none false)
apply-IsSettled_example =
    apply-IsSettled toy_env (codes "/a") (some (codes "0644")) 384 (some (codes "root")) none
      settled
