-- ===== src/Config/Validate/Parts.antt =====
-- What each small check of `Config::validate` decides.
use certforge.Base.{
  Text, get, contains_key, is_empty, is_none, ℕ, true, not, ◌&&◌, Option, none, some, Option-cases,
  List, [], ◌∷◌, ◌≡◌, ◌≢◌, refl, inl, inr, eq_of_some,
}
use certforge.Error.{Error, Result, ok, err, panic, reject_if}
use certforge.Config.{
  FilePath, DnsClientConfig, SolverConfig, dns01, http01, tls_alpn01, HookConfig, systemd_reload,
  systemd_restart, command, Config,
}
use certforge.Config.Zones.{find_zone, find_zone-some, find_zone-none}
use certforge.Config.Modes.{parse_mode, parse_mode_iff}
use certforge.Config.Decides.{Decides, Decides-pass, Decides-iff}
use certforge.Config.Validate.{check_default, check_command, check_solver, with_error, check_mode}
use certforge.Config.Validate.Spec.{
  HasSecret, IsCommandFilled, IsMode, HasZone, IsDefined, IsSolverValid,
}

pub Decides-secret :
    (credential path : Option FilePath) (e : Error)
    → Decides (reject_if (is_none credential && is_none path) e) (HasSecret credential path)
Decides-secret none none e = record {
  sound = λ h. cc;
  complete = λ (h : HasSecret none none). empty h;
}
  where
    empty : HasSecret none none → reject_if true e ≡ ok tt
    empty (inl h) = absurd (h refl)
    empty (inr h) = absurd (h refl)
Decides-secret none (some p) e = record { sound = λ h. inr (λ q. cc); complete = λ h. refl }
Decides-secret (some p) path e = record { sound = λ h. inl (λ q. cc); complete = λ h. refl }

pub Decides-filled :
    {A : Type 0} (xs : List A) (e : Error) → Decides (reject_if (is_empty xs) e) (xs ≢ [])
Decides-filled [] e = record { sound = λ h. cc; complete = λ h. absurd (h refl) }
Decides-filled (x ∷ xs) e = record { sound = λ h q. cc; complete = λ h. refl }

pub Decides-IsDefined :
    {V : Type 0} (name : Text) (m : List (Text × V)) (e : Error)
    → Decides (reject_if (not (contains_key name m)) e) (IsDefined name m)
Decides-IsDefined name m e = elim (Option-cases (get name m)) [
  | inl q ↦ rw q (record { sound = λ h. cc; complete = λ h. cc h.1 })
  | inr (v, q) ↦ rw q (record { sound = λ h. (v, refl); complete = λ h. refl })
]

pub Decides-zone :
    (dns : DnsClientConfig) (name : Text) (e : Error)
    → Decides (reject_if (is_none (find_zone dns name)) e) (HasZone dns name)
Decides-zone dns name e = elim (Option-cases (find_zone dns name)) [
  | inl q ↦ rw q (record {
    sound = λ h. cc;
    complete = λ (zone, m, l). absurd ((find_zone-none dns name).0 q zone m l);
  })
  | inr (z, q) ↦ rw q (record {
    sound = λ h. let (m, l, _) = find_zone-some dns name q in (z, m, l);
    complete = λ h. refl;
  })
]

pub Decides-command : (e : Error) (h : HookConfig) → Decides (check_command e h) (IsCommandFilled h)
unfolding check_command
Decides-command e (systemd_reload unit) = Decides-pass
Decides-command e (systemd_restart unit) = Decides-pass
Decides-command e (command words) = Decides-filled words e

pub Decides-IsMode :
    (e : Text → Error) (mode : Option Text) → Decides (check_mode e mode) (IsMode mode)
unfolding check_mode
Decides-IsMode e none = Decides-pass
Decides-IsMode e (some mode) = cases (parse_mode mode) refl
  where
    cases :
        (r : Result ℕ)
        → parse_mode mode ≡ r
        → Decides (with_error (e mode) (parse_mode mode)) (IsMode (some mode))
    cases (ok n) q =
        rw q (record { sound = λ h. (n, (parse_mode_iff mode n).0 q); complete = λ h. refl })
    cases panic q =
        rw q (record { sound = λ h. cc; complete = λ (n, d). cc ((parse_mode_iff mode n).1 d) })
    cases (err x) q =
        rw q (record { sound = λ h. cc; complete = λ (n, d). cc ((parse_mode_iff mode n).1 d) })

pub Decides-solver :
    (c : Config) (name : Text) (s : SolverConfig)
    → Decides (check_solver c (name, s)) (IsSolverValid c s)
unfolding check_solver
Decides-solver c name (dns01 dns _) = Decides-IsDefined dns c.dns _
Decides-solver c name (http01 none none) = record { sound = λ h. cc; complete = λ h. neither h }
  where
    neither : IsSolverValid c (http01 none none) → check_solver c (name, http01 none none) ≡ ok tt
    neither (inl h) = absurd (h.0 refl)
    neither (inr h) = absurd (h.1 refl)
Decides-solver c name (http01 none (some w)) = record {
  sound = λ h. inr (refl, λ q. cc);
  complete = λ h. refl;
}
Decides-solver c name (http01 (some l) none) = record {
  sound = λ h. inl ((λ q. cc), refl);
  complete = λ h. refl;
}
Decides-solver c name (http01 (some l) (some w)) = record {
  sound = λ h. cc;
  complete = λ h. both h;
}
  where
    both :
        IsSolverValid c (http01 (some l) (some w))
        → check_solver c (name, http01 (some l) (some w)) ≡ ok tt
    both (inl h) = cc h.1
    both (inr h) = cc h.0
Decides-solver c name (tls_alpn01 _) = Decides-pass

pub Decides-default :
    (c : Config) (default : Option Text)
    → Decides
        (check_default c default)
        ((name : Text) → default ≡ some name → IsDefined name c.solver)
unfolding check_default
Decides-default c none = record { sound = λ h name q. cc; complete = λ h. refl }
Decides-default c (some n) =
    Decides-iff _ (Decides-IsDefined n c.solver _) (λ d name q. rw (← eq_of_some n name q) d)
      (λ h. h n refl)
