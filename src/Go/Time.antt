-- ===== src/Go/Time.antt =====
-- `time.Time` as the nanoseconds since Go's zero time, and `time.Duration` as a signed number of
-- nanoseconds.
use proxy_sampler.Prelude.{ℕ, ◌-◌, ◌^◌, Bool, true, false, leb, ℤ, pos, negsuc, min, if◌then◌else◌}

abbrev pub Time : Type 0
Time = ℕ

abbrev pub Duration : Type 0
Duration = ℤ

abbrev pub max_duration : ℕ
max_duration = 2 ^ 63 - 1

-- `Time.Sub`, which stops at the ends of the 64-bit range.
unfoldable pub sub_time : Time → Time → Duration
sub_time a b =
    if leb b a then pos (min (a - b) max_duration) else negsuc (min (b - a - 1) max_duration)

-- `a <= b`.
abbrev pub leb_ℤ : ℤ → ℤ → Bool
leb_ℤ (pos a) (pos b) = leb a b
leb_ℤ (pos a) (negsuc b) = false
leb_ℤ (negsuc a) (pos b) = true
leb_ℤ (negsuc a) (negsuc b) = leb b a
