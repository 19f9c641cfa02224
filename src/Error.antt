-- ===== src/Error.antt =====
-- src/error.rs: the crate's error type, and `Result`.
-- An error keeps its variant, the format string of its message and the arguments of that string.
-- A panic is no error: no handler of an `Err` sees it.
-- What `{e}` inserts, the text of an error of another crate, is left out.
use certforge.Base.{Text, String, List, Bool, true, false, ◌≡◌, refl}

pub data Error : Type 0 where
  acme : String → List Text → Error
  dns_update : String → List Text → Error
  certificate : String → List Text → Error
  key : String → List Text → Error
  config : String → List Text → Error
  credential_not_found : (name path : Text) → Error
  systemd_creds : String → List Text → Error
  hook : (name : Text) (message : String) → Error
  state : String → Error
  io : Error
  other : String → List Text → Error

pub data Result {ℓ} (A : Type ℓ) : Type ℓ where
  panic : Result A
  err : Error → Result A
  ok : A → Result A

-- the operator `?`
module _ {ℓ κ} {A : Type ℓ} {B : Type κ} where
  infixl 5 ◌>>=◌
  abbrev pub ◌>>=◌ : Result A → (A → Result B) → Result B
  panic >>= next = panic
  err e >>= next = err e
  ok a >>= next = next a

  -- a chain ends well only if both parts do
  pub >>=-eq-ok :
      (first : Result A) (next : A → Result B) {end : B}
      → (first >>= next) ≡ ok end
      → (mid : A) × (first ≡ ok mid) × (next mid ≡ ok end)
  >>=-eq-ok panic next h = cc
  >>=-eq-ok (err e) next h = cc
  >>=-eq-ok (ok a) next h = (a, refl, h)

module _ {ℓ} {B : Type ℓ} where
  infixl 5 ◌>>◌
  abbrev pub ◌>>◌ : Result (Unit {0}) → Result B → Result B
  first >> second = first >>= λ _. second

-- `if test { return Err(e) }`
abbrev pub reject_if : Bool → Error → Result (Unit {0})
reject_if true e = err e
reject_if false e = ok tt

abbrev pub is_ok {ℓ} : {A : Type ℓ} → Result A → Bool
is_ok (ok a) = true
is_ok (err e) = false
is_ok panic = false

pub eq_of_ok {ℓ} : {A : Type ℓ} (a b : A) → ok a ≡ ok b → a ≡ b
eq_of_ok a b e = cc
