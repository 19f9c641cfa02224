-- ===== src/Config/Zones.antt =====
-- src/config.rs, `DnsClientConfig::all_zones` and `find_zone`: which zone serves a DNS name.
use certforge.Base.{
  Text, same, same_iff, to_ascii_lowercase, trim_dots, ends_with, ends_with_sound, ends_with-append,
  ◌≤◌, leb, length, keep, Bool, true, not, ◌||◌, Option, none, some, List, [], ◌∷◌, ◌++◌, ◌≡◌, refl,
  ◌∙◌, ◌↔◌, ◌⊎◌, inl, inr, In, All, All-In, arith, if◌then◌else◌, Bool-cases, Option-cases,
  eq_of_some, ap, sym, any, In-keep, In-of_keep,
}
use mathlib.Core.Path.{subst}
use certforge.Config.{DnsClientConfig}

-- the configured list, then the single zone unless it is there already
zones_of : Option (List Text) → Option Text → List Text
zones_of none none = []
zones_of none (some zone) = zone ∷ []
zones_of (some zones) none = zones
zones_of (some zones) (some zone) =
    if not (any (λ z. same z zone) zones) then zones ++ zone ∷ [] else zones

unfoldable pub all_zones : DnsClientConfig → List Text
unfolding zones_of
all_zones dns = zones_of dns.zones dns.zone

-- case and trailing dots do not count
unfoldable pub canonical : Text → Text
canonical name = trim_dots (to_ascii_lowercase name)

-- the closure of `filter` in `find_zone`
pub zone_matches : Text → Text → Bool
unfolding canonical
zone_matches name zone =
    same (canonical name) (canonical zone) || ends_with (canonical name) (b'.' ∷ canonical zone)

-- `max_by_key` with the length: the last of the longest
longer : Text → Text → Text
longer best z = if leb (length best) (length z) then z else best

longest_from : Text → List Text → Text
longest_from best [] = best
longest_from best (z ∷ zs) = longest_from (longer best z) zs

longest : List Text → Option Text
longest [] = none
longest (z ∷ zs) = some (longest_from z zs)

unfoldable pub find_zone : DnsClientConfig → Text → Option Text
unfolding zone_matches longest longest_from longer
find_zone dns name = longest (keep (zone_matches name) (all_zones dns))

-- A name lies in a zone if, up to case and trailing dots, it is the zone or ends in a dot and the zone.
pub data LiesIn (name zone : Text) : Type 0 where
  apex : canonical name ≡ canonical zone → LiesIn name zone
  below : (host : Text) → canonical name ≡ host ++ (b'.' ∷ canonical zone) → LiesIn name zone

zone_matches_sound : (name zone : Text) → zone_matches name zone ≡ true → LiesIn name zone
unfolding zone_matches
zone_matches_sound name zone h = elim (Bool-cases (same (canonical name) (canonical zone))) [
  | inl e ↦ apex ((same_iff _ _).0 e)
  | inr e ↦
      let (host, q) = ends_with_sound (canonical name) (b'.' ∷ canonical zone) (rw e at h) in
      below host q
]

zone_matches_complete : (name zone : Text) → LiesIn name zone → zone_matches name zone ≡ true
unfolding zone_matches
zone_matches_complete name zone (apex e) =
    ground (arith, same_iff (canonical name) (canonical zone))
zone_matches_complete name zone (below host e) =
    ground (arith, e, ends_with-append host (b'.' ∷ canonical zone))

longer-ge : (a b : Text) → (length a ≤ length (longer a b)) × (length b ≤ length (longer a b))
unfolding longer
longer-ge a b = ground arith

longer-or : (a b : Text) → (longer a b ≡ a) ⊎ (longer a b ≡ b)
unfolding longer
longer-or a b = ground arith

longest_from-ge : (best : Text) (zs : List Text) → length best ≤ length (longest_from best zs)
unfolding longest_from
longest_from-ge best [] = omega arith
longest_from-ge best (z ∷ zs) =
    omega (arith, longest_from-ge (longer best z) zs, (longer-ge best z).0)

longest_from-max :
    (best : Text) (zs : List Text) → All (λ z. length z ≤ length (longest_from best zs)) zs
unfolding longest_from
longest_from-max best [] = tt
longest_from-max best (z ∷ zs) = (
  omega (arith, longest_from-ge (longer best z) zs, (longer-ge best z).1),
  longest_from-max (longer best z) zs,
)

longest_from-In : (best : Text) (zs : List Text) → In (longest_from best zs) (best ∷ zs)
unfolding longest_from
longest_from-In best [] = inl refl
longest_from-In best (z ∷ zs) = place (longer-or best z) (longest_from-In (longer best z) zs)
  where
    place :
        {w : Text}
        → (longer best z ≡ best) ⊎ (longer best z ≡ z)
        → In w (longer best z ∷ zs)
        → In w (best ∷ z ∷ zs)
    place (inl e) (inl q) = inl (q ∙ e)
    place (inr e) (inl q) = inr (inl (q ∙ e))
    place c (inr m) = inr (inr m)

longest-some :
    (zs : List Text) {z : Text}
    → longest zs ≡ some z
    → In z zs × ((y : Text) → In y zs → length y ≤ length z)
unfolding longest
longest-some [] h = cc
longest-some (b ∷ zs) {z} h =
    subst (λ z. In z (b ∷ zs) × ((y : Text) → In y (b ∷ zs) → length y ≤ length z))
      (eq_of_some _ _ h)
      (
        longest_from-In b zs,
        λ y m.
            All-In (λ y. length y ≤ length (longest_from b zs)) (b ∷ zs)
              (longest_from-ge b zs, longest_from-max b zs) m,
      )

longest-none : (zs : List Text) → longest zs ≡ none → zs ≡ []
unfolding longest
longest-none [] h = refl
longest-none (z ∷ zs) h = cc

-- The zone found is configured, holds the name, and no longer one does.
pub find_zone-some :
    (dns : DnsClientConfig) (name : Text) {zone : Text}
    → find_zone dns name ≡ some zone
    → In zone (all_zones dns)
      × LiesIn name zone
      × ((other : Text) → In other (all_zones dns) → LiesIn name other → length other ≤ length zone)
unfolding find_zone
find_zone-some dns name {zone} h =
    let (found, most) = longest-some (keep (zone_matches name) (all_zones dns)) h in
    let (configured, matches) = In-of_keep (zone_matches name) (all_zones dns) found in
    (
      configured,
      zone_matches_sound name zone matches,
      λ other m l.
          most other
            (In-keep (zone_matches name) (all_zones dns) m (zone_matches_complete name other l)),
    )

-- There is no zone for a name exactly when it lies in none of those configured.
pub find_zone-none :
    (dns : DnsClientConfig) (name : Text)
    → (find_zone dns name ≡ none) ↔ ((zone : Text) → In zone (all_zones dns) → ¬ LiesIn name zone)
unfolding find_zone
find_zone-none dns name = (forth, back)
  where
    forth : find_zone dns name ≡ none → (zone : Text) → In zone (all_zones dns) → ¬ LiesIn name zone
    forth h zone m l =
        rw (longest-none (keep (zone_matches name) (all_zones dns)) h) at
          (In-keep (zone_matches name) (all_zones dns) m (zone_matches_complete name zone l))

    back :
        ((zone : Text) → In zone (all_zones dns) → ¬ LiesIn name zone) → find_zone dns name ≡ none
    back h = elim (Option-cases (find_zone dns name)) [
      | inl e ↦ e
      | inr (z, e) ↦ let (m, l, _) = find_zone-some dns name e in absurd (h z m l)
    ]

any-same : (zone : Text) (zs : List Text) → any (λ z. same z zone) zs ≡ true → In zone zs
any-same zone [] h = cc
any-same zone (z ∷ zs) h = elim (Bool-cases (same z zone)) [
  | inl e ↦ inl (sym ((same_iff z zone).0 e))
  | inr e ↦ inr (any-same zone zs (rw e at h))
]

In-of_concat : {z : Text} (x : Text) (zs : List Text) → In z (zs ++ x ∷ []) → In z zs ⊎ (x ≡ z)
In-of_concat x [] (inl e) = inr (sym e)
In-of_concat x [] (inr m) = absurd m
In-of_concat x (y ∷ zs) (inl e) = inl (inl e)
In-of_concat x (y ∷ zs) (inr m) = elim (In-of_concat x zs m) [ inl k ↦ inl (inr k) | inr e ↦ inr e ]

In-concat : {z : Text} (x : Text) (zs : List Text) → In z zs ⊎ (x ≡ z) → In z (zs ++ x ∷ [])
In-concat x [] (inl m) = absurd m
In-concat x [] (inr e) = inl (sym e)
In-concat x (y ∷ zs) (inl (inl e)) = inl e
In-concat x (y ∷ zs) (inl (inr m)) = inr (In-concat x zs (inl m))
In-concat x (y ∷ zs) (inr e) = inr (In-concat x zs (inr e))

-- `z` is one of the zones that the two fields name.
abbrev pub IsConfigured : Option (List Text) → Option Text → Text → Type 0
IsConfigured zones zone z = ((zs : List Text) × (zones ≡ some zs) × In z zs) ⊎ (zone ≡ some z)

zones_of_sound :
    (zones : Option (List Text)) (zone : Option Text) (z : Text)
    → In z (zones_of zones zone)
    → IsConfigured zones zone z
unfolding zones_of
zones_of_sound none none z m = absurd m
zones_of_sound none (some x) z (inl e) = inr (ap some (sym e))
zones_of_sound none (some x) z (inr m) = absurd m
zones_of_sound (some zs) none z m = inl (zs, refl, m)
zones_of_sound (some zs) (some x) z m = elim (Bool-cases (any (λ y. same y x) zs)) [
  | inl e ↦ inl (zs, refl, rw e at m)
  | inr e ↦ elim (In-of_concat x zs (rw e at m)) [
    | inl k ↦ inl (zs, refl, k)
    | inr q ↦ inr (ap some q)
  ]
]

zones_of_complete :
    (zones : Option (List Text)) (zone : Option Text) (z : Text)
    → IsConfigured zones zone z
    → In z (zones_of zones zone)
unfolding zones_of
zones_of_complete none none z (inl (zs, e, m)) = cc
zones_of_complete none none z (inr e) = cc
zones_of_complete none (some x) z (inl (zs, e, m)) = cc
zones_of_complete none (some x) z (inr e) = inl (sym (eq_of_some _ _ e))
zones_of_complete (some zs) none z (inl (ys, e, m)) = rw (eq_of_some _ _ e) m
zones_of_complete (some zs) none z (inr e) = cc
zones_of_complete (some zs) (some x) z c = elim (Bool-cases (any (λ y. same y x) zs)) [
  | inl e ↦ rw e (present e c)
  | inr e ↦ rw e (added c)
]
  where
    present : any (λ y. same y x) zs ≡ true → IsConfigured (some zs) (some x) z → In z zs
    present e (inl (ys, q, m)) = rw (eq_of_some _ _ q) m
    present e (inr q) = rw (← eq_of_some _ _ q) (any-same x zs e)

    added : IsConfigured (some zs) (some x) z → In z (zs ++ x ∷ [])
    added (inl (ys, q, m)) = In-concat x zs (inl (rw (eq_of_some _ _ q) m))
    added (inr q) = In-concat x zs (inr (eq_of_some _ _ q))

-- The zones of a client are exactly those of `zones` and the one of `zone`.
pub In-all_zones :
    (dns : DnsClientConfig) (z : Text) → In z (all_zones dns) ↔ IsConfigured dns.zones dns.zone z
unfolding all_zones
In-all_zones dns z = (zones_of_sound dns.zones dns.zone z, zones_of_complete dns.zones dns.zone z)
