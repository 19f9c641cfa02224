-- ===== src/Config/Decides.antt =====
-- Checks that return `Result<()>` as decisions: a check decides a property if it passes exactly when
-- the property holds. One rule for each way in which `Config::validate` is put together.
use certforge.Base.{
  Text, same, same_iff, any, Bool, true, false, List, [], ◌∷◌, ◌≡◌, refl, sym, inl, inr, All, In,
  map, arith, Bool-cases,
}
use certforge.Error.{Error, Result, ok, err, panic, ◌>>◌, reject_if}

pub record Decides (r : Result (Unit {0})) (P : Type 0) : Type 0 where
  pub sound : r ≡ ok tt → P
  pub complete : P → r ≡ ok tt

-- `for x in xs { check(x)?; }`
unfoldable pub each : {A : Type 0} → (A → Result (Unit {0})) → List A → Result (Unit {0})
each check [] = ok tt
each check (x ∷ xs) = do check x; each check xs

-- `for x in xs { before(x)?; if !seen.insert(name(x)) { return Err(..) } after(x)?; }`
unfoldable pub each_new :
    {A : Type 0} (name : A → Text) (before : A → Result (Unit {0})) (duplicate : A → Error)
    (after : A → Result (Unit {0}))
    → List Text
    → List A
    → Result (Unit {0})
each_new name before duplicate after seen [] = ok tt
each_new name before duplicate after seen (x ∷ xs) = do
  before x
  reject_if (any (λ s. same s (name x)) seen) (duplicate x)
  after x
  each_new name before duplicate after (name x ∷ seen) xs

pub Decides-pass : Decides (ok tt) Unit
Decides-pass = record { sound = λ _. tt; complete = λ _. refl }

pub Decides-seq :
    {P Q : Type 0} (m k : Result (Unit {0})) → Decides m P → Decides k Q → Decides (m >> k) (P × Q)
Decides-seq (ok tt) k dm dk = record {
  sound = λ h. (dm.sound refl, dk.sound h);
  complete = λ h. dk.complete h.1;
}
Decides-seq (err e) k dm dk = record { sound = λ h. cc; complete = λ h. cc (dm.complete h.0) }
Decides-seq panic k dm dk = record { sound = λ h. cc; complete = λ h. cc (dm.complete h.0) }

pub Decides-reject :
    {P : Type 0} (b : Bool) (e : Error)
    → (b ≡ false → P)
    → (P → b ≡ false)
    → Decides (reject_if b e) P
Decides-reject true e f g = record { sound = λ h. cc; complete = λ h. cc (g h) }
Decides-reject false e f g = record { sound = λ h. f refl; complete = λ h. refl }

pub Decides-iff :
    {P Q : Type 0} (m : Result (Unit {0})) → Decides m P → (P → Q) → (Q → P) → Decides m Q
Decides-iff m d f g = record { sound = λ h. f (d.sound h); complete = λ q. d.complete (g q) }

pub Decides-each :
    {A : Type 0} (check : A → Result (Unit {0})) (P : A → Type 0) (xs : List A)
    → ((x : A) → Decides (check x) (P x))
    → Decides (each check xs) (All P xs)
unfolding each
Decides-each check P [] d = Decides-pass
Decides-each check P (x ∷ xs) d =
    Decides-seq (check x) (each check xs) (d x) (Decides-each check P xs d)

-- No text stands twice.
abbrev pub NoDup : List Text → Type 0
NoDup [] = Unit
NoDup (n ∷ ns) = (¬ In n ns) × NoDup ns

-- what the loop has checked after it has seen `seen`
abbrev Unseen : List Text → List Text → Type 0
Unseen seen [] = Unit
Unseen seen (n ∷ ns) = (¬ In n seen) × Unseen (n ∷ seen) ns

seen_iff_sound : (n : Text) (seen : List Text) → any (λ s. same s n) seen ≡ false → ¬ In n seen
seen_iff_sound n [] h m = m
seen_iff_sound n (s ∷ seen) h (inl e) = ground (arith, same_iff s n)
seen_iff_sound n (s ∷ seen) h (inr m) = seen_iff_sound n seen (ground arith) m

seen_iff_complete : (n : Text) (seen : List Text) → ¬ In n seen → any (λ s. same s n) seen ≡ false
seen_iff_complete n [] h = refl
seen_iff_complete n (s ∷ seen) h = elim (Bool-cases (same s n)) [
  | inl e ↦ absurd (h (inl (sym ((same_iff s n).0 e))))
  | inr e ↦ rw e (seen_iff_complete n seen (λ m. h (inr m)))
]

module _ {A : Type 0} (name : A → Text) (before : A → Result (Unit {0})) (duplicate : A → Error)
    (after : A → Result (Unit {0})) (P Q : A → Type 0) (dp : (x : A) → Decides (before x) (P x))
    (dq : (x : A) → Decides (after x) (Q x)) where
  each_new-Unseen :
      (seen : List Text) (xs : List A)
      → Decides
          (each_new name before duplicate after seen xs)
          (All (λ x. P x × Q x) xs × Unseen seen (map name xs))
  unfolding each_new
  each_new-Unseen seen [] = Decides-iff (ok tt) Decides-pass (λ _. (tt, tt)) (λ _. tt)
  each_new-Unseen seen (x ∷ xs) =
      Decides-iff (each_new name before duplicate after seen (x ∷ xs))
        (Decides-seq (before x) _ (dp x) (
          Decides-seq (reject_if (any (λ s. same s (name x)) seen) (duplicate x)) _
            (Decides-reject (any (λ s. same s (name x)) seen) (duplicate x)
              (seen_iff_sound (name x) seen) (seen_iff_complete (name x) seen))
            (Decides-seq (after x) _ (dq x) (each_new-Unseen (name x ∷ seen) xs))))
        (λ h. (((h.0, h.1.1.0), h.1.1.1.0), (h.1.0, h.1.1.1.1)))
        (λ h. (h.0.0.0, (h.1.0, (h.0.0.1, (h.0.1, h.1.1)))))

Unseen-NoDup :
    (seen ns : List Text) → Unseen seen ns → NoDup ns × ((n : Text) → In n ns → ¬ In n seen)
Unseen-NoDup seen [] u = (tt, λ n m. absurd m)
Unseen-NoDup seen (n ∷ ns) (fresh, u) =
    let (nodup, apart) = Unseen-NoDup (n ∷ seen) ns u in
    ((λ m. apart n m (inl refl), nodup), λ k m s. elsewhere apart k m s)
  where
    elsewhere :
        ((k : Text) → In k ns → ¬ In k (n ∷ seen)) → (k : Text) → In k (n ∷ ns) → ¬ In k seen
    elsewhere apart k (inl e) s = fresh (rw (← e) s)
    elsewhere apart k (inr m) s = apart k m (inr s)

NoDup-Unseen :
    (seen ns : List Text) → NoDup ns → ((n : Text) → In n ns → ¬ In n seen) → Unseen seen ns
NoDup-Unseen seen [] d h = tt
NoDup-Unseen seen (n ∷ ns) (here, d) h =
    (h n (inl refl), NoDup-Unseen (n ∷ seen) ns d (λ k m s. later k m s))
  where
    later : (k : Text) → In k ns → ¬ In k (n ∷ seen)
    later k m (inl e) = here (rw (← e) m)
    later k m (inr s) = h k (inr m) s

-- The loop passes when every element does and no name stands twice.
pub Decides-each_new :
    {A : Type 0} (name : A → Text) (before : A → Result (Unit {0})) (duplicate : A → Error)
    (after : A → Result (Unit {0})) (P Q : A → Type 0)
    → ((x : A) → Decides (before x) (P x))
    → ((x : A) → Decides (after x) (Q x))
    → (xs : List A)
    → Decides
        (each_new name before duplicate after [] xs)
        (All (λ x. P x × Q x) xs × NoDup (map name xs))
Decides-each_new name before duplicate after P Q dp dq xs =
    Decides-iff (each_new name before duplicate after [] xs)
      (each_new-Unseen name before duplicate after P Q dp dq [] xs)
      (λ h. (h.0, (Unseen-NoDup [] (map name xs) h.1).0))
      (λ h. (h.0, NoDup-Unseen [] (map name xs) h.1 (λ n m s. s)))
