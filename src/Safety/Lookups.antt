-- ===== src/Safety/Lookups.antt =====
-- The solvers that are looked up by name for a certificate's challenges (src/renew.rs).
use certforge.Base.{
  Text, Bool-cases, Dict, get, insert, get-insert, contains_key, is_some, same, All, true, inl, inr,
  remove, All-In, In-of_get, Option, none, some, List, [], ◌∷◌, ◌≡◌, sym, refl,
}
use certforge.Error.{ok, panic}
use certforge.Acme.{ChallengeInfo}
use certforge.Exec.Panics.{IsSafe, IsSafe-ok}
use certforge.World.{Env}
use certforge.Renew.Build.{Instance}
use certforge.Renew.Order.{zip_names, solver_at}
use certforge.Safety.Solvers.{IsQuiet}

-- the solver is there
abbrev pub Has : {V : Type 0} → Dict V → Text → Type 0
Has solvers name = contains_key name solvers ≡ true

abbrev pub HasFor : Dict Instance → ChallengeInfo × Text → Type 0
HasFor solvers (challenge, name) = Has solvers name

pub Has-insert :
    {V : Type 0} (key : Text) (v : V) (solvers : Dict V) (name : Text)
    → Has solvers name
    → Has (insert key v solvers) name
Has-insert {V} key v solvers name h = elim (Bool-cases (same key name)) [
  | inl e ↦ rw (get-insert key name v solvers, e) refl
  | inr e ↦ rw (get-insert key name v solvers, e) h
]

pub Has-insert-same :
    {V : Type 0} (name : Text) (v : V) (solvers : Dict V)
    → same name name ≡ true
    → Has (insert name v solvers) name
Has-insert-same name v solvers e = rw (get-insert name name v solvers, e) refl

pub All-zip :
    (solvers : Dict Instance) (challenges : List ChallengeInfo) (names : List Text)
    → All (Has solvers) names
    → All (HasFor solvers) (zip_names challenges names)
unfolding zip_names
All-zip solvers [] names h = tt
All-zip solvers (c ∷ challenges) [] h = tt
All-zip solvers (c ∷ challenges) (name ∷ names) h = (h.0, All-zip solvers challenges names h.1)

pub solver_at-IsSafe :
    (name : Text) (solvers : Dict Instance) → Has solvers name → IsSafe (solver_at name solvers)
unfolding solver_at
solver_at-IsSafe name solvers h = found (get name solvers) h
  where
    found :
        (o : Option Instance) → is_some o ≡ true → IsSafe (elim o [ none ↦ panic | some s ↦ ok s ])
    found none e = absurd cc
    found (some s) e = IsSafe-ok s

abbrev pub IsQuietAt : Env → Text × Instance → Type 0
IsQuietAt env entry = IsQuiet env entry.1.0

-- a TLS-ALPN-01 solver is there only where no handshake names a server
abbrev pub AllQuiet : Env → Dict Instance → Type 0
AllQuiet env solvers = All (IsQuietAt env) solvers

AllQuiet-remove :
    (env : Env) (key : Text) (solvers : Dict Instance)
    → AllQuiet env solvers
    → AllQuiet env (remove key solvers)
unfolding remove
AllQuiet-remove env key [] quiet = tt
AllQuiet-remove env key ((name, solver) ∷ solvers) quiet =
    let rest = AllQuiet-remove env key solvers quiet.1 in
    elim (Bool-cases (same name key)) [ inl e ↦ rw e rest | inr e ↦ rw e (quiet.0, rest) ]

pub AllQuiet-insert :
    (env : Env) (key : Text) (solver : Instance) (solvers : Dict Instance)
    → IsQuiet env solver.0
    → AllQuiet env solvers
    → AllQuiet env (insert key solver solvers)
unfolding insert
AllQuiet-insert env key solver solvers q quiet = (q, AllQuiet-remove env key solvers quiet)

pub AllQuiet-get :
    (env : Env) (name : Text) (solvers : Dict Instance) (solver : Instance)
    → AllQuiet env solvers
    → get name solvers ≡ some solver
    → IsQuiet env solver.0
AllQuiet-get env name solvers solver quiet g = All-In _ solvers quiet (In-of_get name solvers g)

pub solver_at-get :
    (name : Text) (solvers : Dict Instance) (solver : Instance)
    → solver_at name solvers ≡ ok solver
    → get name solvers ≡ some solver
unfolding solver_at
solver_at-get name solvers solver e = found (get name solvers) (sym e)
  where
    found :
        (o : Option Instance)
        → ok solver ≡ elim o [ none ↦ panic | some s ↦ ok s ]
        → o ≡ some solver
    found none e = absurd cc
    found (some s) e = cc
