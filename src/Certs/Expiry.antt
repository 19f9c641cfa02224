-- ===== src/Certs/Expiry.antt =====
-- The day count is the nearest number of days, and the renewal window opens half a day early.
use certforge.Base.{ℕ, ◌+◌, ◌*◌, ◌≤◌, ◌≡◌, ◌↔◌, true, arith}
use certforge.Base.Int.{ℤ, pos, negsuc, pos_part, neg_part, ◌<ℤ◌, ◌+ℤ◌, ◌-ℤ◌, leb_ℤ, div_ℤ}
use certforge.Certs.{CertInfo, num_seconds, days_of_seconds, days_until_expiry, expires_within_days}

-- `d` days are `s` seconds, give or take half a day.
pub record Rounds (d s : ℤ) : Type 0 where
  pub upper : pos_part d * 86400 + neg_part s ≤ pos_part s + neg_part d * 86400 + 43200
  pub lower : pos_part s + neg_part d * 86400 ≤ pos_part d * 86400 + neg_part s + 43200

days_of_seconds-Rounds : (s : ℤ) → Rounds (days_of_seconds s) s
unfolding days_of_seconds
days_of_seconds-Rounds (pos n) = ground arith
days_of_seconds-Rounds (negsuc n) = ground arith

days_of_seconds-le :
    (s : ℤ) (d : ℕ) → (leb_ℤ (days_of_seconds s) (pos d) ≡ true) ↔ (s <ℤ pos (d * 86400 + 43200))
unfolding days_of_seconds
days_of_seconds-le (pos n) d = ground arith
days_of_seconds-le (negsuc n) d = ground arith

num_seconds-lt :
    (x : ℤ) (k : ℕ) → (num_seconds x <ℤ pos (k + 43200)) ↔ (x <ℤ pos ((k + 43200) * 1000000000))
unfolding div_ℤ
num_seconds-lt (pos n) k = ground arith
num_seconds-lt (negsuc n) k = ground arith

sub-lt : (a b : ℤ) (k : ℕ) → (a -ℤ b <ℤ pos k) ↔ (a <ℤ b +ℤ pos k)
unfolding ◌-ℤ◌ ◌+ℤ◌
sub-lt a b k = ground arith

-- The days reported are the seconds left, rounded to the nearest day.
pub days_until_expiry-Rounds :
    (cert : CertInfo) (now : ℤ)
    → Rounds (days_until_expiry cert now) (num_seconds (cert.not_after -ℤ now))
unfolding days_until_expiry
days_until_expiry-Rounds cert now = days_of_seconds-Rounds (num_seconds (cert.not_after -ℤ now))

-- A certificate expires within `days` days exactly when it expires less than that many days and
-- twelve hours from now.
pub expires_within_days_iff :
    (cert : CertInfo) (now : ℤ) (days : ℕ)
    → (expires_within_days cert now days ≡ true)
      ↔ (cert.not_after <ℤ now +ℤ pos ((days * 86400 + 43200) * 1000000000))
unfolding expires_within_days
expires_within_days_iff cert now days =
    let left = cert.not_after -ℤ now in
    let seconds = days_of_seconds-le (num_seconds left) days in
    let nanos = num_seconds-lt left (days * 86400) in
    let moved = sub-lt cert.not_after now ((days * 86400 + 43200) * 1000000000) in
    (λ h. moved.0 (nanos.0 (seconds.0 h)), λ h. seconds.1 (nanos.1 (moved.1 h)))
