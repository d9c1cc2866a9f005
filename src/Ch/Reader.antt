-- ===== src/Ch/Reader.antt =====
-- internal/ch/reader.go, with the reports' types of event.go: what the reader computes itself from the
-- rows that ClickHouse returns. `IP.String` is an argument. A mean, which is a floating-point number,
-- is left to what it is the mean of.
pub mod Holds
pub mod Tests
use proxy_sampler.Prelude.{
  ℕ, zero, suc, ◌+◌, ◌-◌, ◌*◌, ◌/◌, ◌%◌, ◌^◌, ◌≡◌, Bool, true, false, not, ◌&&◌, ltb, leb, ◌==◌,
  List, [], ◌∷◌, ◌++◌, map, Option, none, some, Text, length, get_or, ℤ, pos, negsuc, sort, list_eq,
  nat_eq, ◌=?◌, if◌then◌else◌, ◌⊎◌, inl, inr,
}
use proxy_sampler.Go.Time.{Time, Duration, sub_time, leb_ℤ}
use proxy_sampler.Db.Columns.{units, second}
use proxy_sampler.Go.Ints.{add_uint32}
use proxy_sampler.Ch.Event.{NetIp}

pub record Hold : Type 0 where
  pub ip : Text
  pub started_at : Time
  pub ended_at : Time
  pub duration_seconds : ℤ
  pub samples : ℕ

pub record Rotation : Type 0 where
  pub at : Time
  pub from_ip : Text
  pub to_ip : Text
  pub since_previous_seconds : ℤ

-- `total_seconds` over the number of holds is the average; the median is the mean of `middle`.
pub record Stickiness : Type 0 where
  pub holds : List Hold
  pub rotations : List Rotation
  pub hold_seconds : List ℤ
  pub middle : ℤ × ℤ

pub record StickinessObservation : Type 0 where
  pub at : Time
  pub ip : NetIp
  pub changed : ℕ

abbrev pub seconds_between : Time → Time → ℤ
seconds_between a b = units (sub_time a b) second

abbrev pub new_hold : Text → Time → Hold
new_hold ip at = record {
  ip = ip;
  started_at = at;
  ended_at = at;
  duration_seconds = pos 0;
  samples = 1;
}

abbrev pub closed_hold : Hold → Hold
closed_hold h = record h { duration_seconds = seconds_between h.ended_at h.started_at }

-- The middle of the sorted durations.
abbrev pub middle_of : List ℤ → ℤ × ℤ
middle_of durations =
    let middle = length durations / 2 in
    if (length durations % 2) == 1
    then (get_or durations middle (pos 0), get_or durations middle (pos 0))
    else (get_or durations (middle - 1) (pos 0), get_or durations middle (pos 0))

module _ (ip_string : NetIp → Text) where
  -- The loop over the observations behind the first, with the first one's time, the time of the
  -- previous rotation (zero before any) and the current hold.
  unfoldable pub hold_loop :
      Time → Time → Hold → List StickinessObservation → List Hold × List Rotation
  hold_loop first previous current [] = (closed_hold current ∷ [], [])
  hold_loop first previous current (o ∷ os) = elim (ip_string o.ip =? current.ip) [
    | true ↦
        hold_loop first previous
          (record current { ended_at = o.at; samples = add_uint32 current.samples 1 }) os
    | false ↦
        let (holds, rotations) = hold_loop first o.at (new_hold (ip_string o.ip) o.at) os in
        let since = if previous == 0 then first else previous in
        (
          closed_hold current ∷ holds,
          record {
            at = o.at;
            from_ip = current.ip;
            to_ip = ip_string o.ip;
            since_previous_seconds = seconds_between o.at since;
          }
              ∷ rotations,
        )
  ]

  unfoldable pub derive_stickiness : List StickinessObservation → Stickiness
  unfolding hold_loop
  derive_stickiness [] = record {
    holds = [];
    rotations = [];
    hold_seconds = [];
    middle = (pos 0, pos 0);
  }
  derive_stickiness (o ∷ os) =
      let (holds, rotations) = hold_loop o.at 0 (new_hold (ip_string o.ip) o.at) os in
      let durations = map (λ h. h.duration_seconds) holds in
      record {
        holds = holds;
        rotations = rotations;
        hold_seconds = durations;
        middle = middle_of (sort leb_ℤ durations);
      }

pub record GrowthPoint : Type 0 where
  pub at : Time
  pub distinct_ips : ℕ

-- The loop of `PoolGrowth` over the rows, with the total so far in 64 bits.
unfoldable pub growth_loop : ℕ → List (Time × ℕ) → List GrowthPoint
growth_loop total [] = []
growth_loop total ((at, new_ips) ∷ rows) =
    let sum = (total + new_ips) % 2 ^ 64 in
    record { at = at; distinct_ips = sum } ∷ growth_loop sum rows

unfoldable pub pool_growth : List (Time × ℕ) → List GrowthPoint
unfolding growth_loop
pool_growth rows = growth_loop 0 rows

pub data ReaderError : Type 0 where
  invalid_range invalid_bucket invalid_page : ReaderError

abbrev pub sample_page_size : ℕ
sample_page_size = 50

-- A page from 1 on; the offset fits an `int64`.
unfoldable pub checked_page_offset : ℕ → ReaderError ⊎ ℕ
checked_page_offset page =
    let index = page - 1 in
    if ltb ((2 ^ 63 - 1) / sample_page_size) index
    then inl invalid_page
    else inr (index * sample_page_size)

unfoldable pub optional_range : Option Time → Option Time → Option ReaderError
optional_range none to = none
optional_range (some from) none = none
optional_range (some from) (some to) = if ltb to from then some invalid_range else none
