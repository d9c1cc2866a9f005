-- ===== src/Db/Columns/RoundTrip.antt =====
-- A session that fits the columns comes back from them.
use native.Mathlib.Nat.{mul-div_cancel}
use proxy_sampler.Prelude.{
  ℕ, ◌*◌, ◌^◌, ◌<◌, ◌≡◌, refl, sym, ap, ◌∙◌, Option, none, some, Text, ℤ, pos, arith, ◌/◌, ◌≢◌, ◌⊎◌,
  inl, inr, [], ◌∷◌, is_nil, true, false,
}
use proxy_sampler.Go.Ints.{low32, sign_extend, Int64}
use proxy_sampler.Go.Addr.{Addr, invalid, v4, v6, is_valid}
use proxy_sampler.Go.Time.{Time}
use proxy_sampler.Session.{Session}
use proxy_sampler.Db.Columns.{
  to_int32, of_int32, units, times_unit, second, millisecond, option_map, insert_params,
  map_session, Conversions, parse_address, parse_optional_addr, kept_addr, SessionRow, read_row,
  session_row, session_of,
}

-- A whole number of units, and a number, that a column holds.
abbrev pub Whole : ℕ → ℤ → Type 0
Whole unit d = (k : ℕ) × (d ≡ pos (k * unit)) × (k < 2 ^ 31)

abbrev pub Small : ℤ → Type 0
Small v = (k : ℕ) × (v ≡ pos k) × (k < 2 ^ 31)

abbrev pub Maybe : (ℤ → Type 0) → Option ℤ → Type 0
Maybe P none = Unit
Maybe P (some v) = P v

-- A time that is a whole number of microseconds, up to the year 292,000.
abbrev pub Micro : Time → Type 0
Micro t = (k : ℕ) × (t ≡ k * 1000) × (k < 2 ^ 63)

abbrev pub MaybeMicro : Option Time → Type 0
MaybeMicro none = Unit
MaybeMicro (some t) = Micro t

-- An address without a zone, and not an IPv4 one that IPv6 maps.
abbrev pub Host : Addr → Type 0
Host invalid = ⊥
Host (v4 n) = n < 2 ^ 32
Host (v6 n zone) = (zone ≡ []) × (n < 2 ^ 128) × (n / 2 ^ 32 ≢ 0xffff)

abbrev pub OptionalHost : Addr → Type 0
OptionalHost a = (a ≡ invalid) ⊎ Host a

-- What is documented of Go's library and of Postgres: a `timestamptz` keeps microseconds, and an
-- address without a zone comes back as the text of a prefix that holds that one address, which
-- `netip.ParseAddr` refuses and `netip.ParsePrefix` reads.
pub record IsDocumented (c : Conversions) : Type 0 where
  pub keeps_micro : (k : ℕ) → k < 2 ^ 63 → c.keep_time (k * 1000) ≡ k * 1000
  pub written : (a : Addr) → Host a → c.addr_text a ≢ []
  pub host :
      (a : Addr)
      → Host a
      → (u e : Text) × (c.inet_text (c.addr_text a) ≡ some u)
        × (u ≢ [])
        × (c.parse_addr u ≡ inl e)
        × (c.parse_prefix u ≡ some a)

pub record Fits (s : Session) : Type 0 where
  pub cadence : Whole second s.cadence
  pub dial_timeout : Whole millisecond s.dial_timeout
  pub probes : Small s.probes_per_sample
  pub max_samples : Maybe Small s.max_samples
  pub max_duration : Maybe (Whole second) s.max_duration
  pub last_rtt : Maybe (Whole millisecond) s.snapshot.last_rtt
  pub last_primary_ip : OptionalHost s.snapshot.last_primary_ip
  pub last_sample_at : MaybeMicro s.snapshot.last_sample_at
  pub created_at : Micro s.created_at
  pub started_at : MaybeMicro s.started_at
  pub stopped_at : MaybeMicro s.stopped_at
  pub samples_taken : s.snapshot.samples_taken < 2 ^ 31
  pub distinct_ips : s.snapshot.distinct_ips < 2 ^ 31
  pub sequence_offset : s.sequence_offset < 2 ^ 31

Whole-back :
    (unit : ℕ) (d : ℤ)
    → 0 < unit
    → Whole unit d
    → times_unit (of_int32 (to_int32 (units d unit))) unit ≡ d
Whole-back unit d u (k, e, b) =
    ap (λ x. times_unit (of_int32 (to_int32 (units x unit))) unit) e
    ∙ ap (λ x. times_unit (of_int32 (to_int32 (pos x))) unit) (mul-div_cancel k u)
    ∙ ap (λ x. times_unit x unit) small
    ∙ sym e
  where
    small : of_int32 (to_int32 (pos k)) ≡ pos k
    small = ground arith

Small-back : (v : ℤ) → Small v → of_int32 (to_int32 v) ≡ v
Small-back v (k, e, b) = ground arith

Maybe-back :
    (P : ℤ → Type 0) (f : ℤ → ℕ) (g : ℕ → ℤ)
    → ((v : ℤ) → P v → g (f v) ≡ v)
    → (o : Option ℤ) → Maybe P o
    → option_map g (option_map f o) ≡ o
Maybe-back P f g h none m = refl
Maybe-back P f g h (some v) m = ap some (h v m)

low32-back : (n : Int64) → n < 2 ^ 31 → sign_extend (low32 n) ≡ n
low32-back n b = ground arith

module _ (c : Conversions) (law : IsDocumented c) where
  time-back : (t : Time) → Micro t → c.keep_time t ≡ t
  time-back t (k, e, b) = ap c.keep_time e ∙ law.keeps_micro k b ∙ sym e

  times-back : (o : Option Time) → MaybeMicro o → option_map c.keep_time o ≡ o
  times-back none m = refl
  times-back (some t) m = ap some (time-back t m)

  is_valid-Host : (a : Addr) → Host a → is_valid a ≡ true
  is_valid-Host invalid h = absurd h
  is_valid-Host (v4 n) h = refl
  is_valid-Host (v6 n z) h = refl

  not_nil : (t : Text) → t ≢ [] → is_nil t ≡ false
  not_nil [] h = absurd (h refl)
  not_nil (x ∷ t) h = refl

  -- An address comes back through the text of its column.
  address-back :
      (a : Addr)
      → OptionalHost a
      → (u : Text) × (kept_addr c a ≡ some u) × (parse_optional_addr c u ≡ inr a)
  unfolding kept_addr parse_optional_addr parse_address
  address-back a (inl e) = ([], ground (arith, e), ground (arith, e))
  address-back a (inr h) =
      let (u, e, kept, some_text, refused, read) = law.host a h in
      let valid = is_valid-Host a h in
      let written = not_nil (c.addr_text a) (law.written a h) in
      let nonempty = not_nil u some_text in
      (u, ground (arith, valid, written, kept), ground (arith, nonempty, refused, read))

-- The columns but for the address.
session_of-insert_params :
    (s : Session) (category : Text) (c : Conversions)
    → IsDocumented c
    → Fits s
    → session_of category s.snapshot.last_primary_ip (record (insert_params s) {
      last_sample_at = option_map c.keep_time s.snapshot.last_sample_at;
      created_at = c.keep_time s.created_at;
      started_at = option_map c.keep_time s.started_at;
      stopped_at = option_map c.keep_time s.stopped_at;
    })
      ≡ record s { snapshot = record s.snapshot { last_category = category } }
unfolding insert_params
session_of-insert_params s category c law f =
    let a = Whole-back second s.cadence (omega arith) f.cadence in
    let b = Whole-back millisecond s.dial_timeout (omega arith) f.dial_timeout in
    let p = Small-back s.probes_per_sample f.probes in
    let d = Maybe-back Small to_int32 of_int32 Small-back s.max_samples f.max_samples in
    let e =
      Maybe-back (Whole second) (λ d. to_int32 (units d second))
        (λ c. times_unit (of_int32 c) second) (λ v. Whole-back second v (omega arith))
        s.max_duration f.max_duration in
    let g =
      Maybe-back (Whole millisecond) (λ d. to_int32 (units d millisecond))
        (λ c. times_unit (of_int32 c) millisecond) (λ v. Whole-back millisecond v (omega arith))
        s.snapshot.last_rtt f.last_rtt in
    let h = low32-back s.snapshot.samples_taken f.samples_taken in
    let i = low32-back s.snapshot.distinct_ips f.distinct_ips in
    let j = low32-back s.sequence_offset f.sequence_offset in
    let k = times-back c law s.snapshot.last_sample_at f.last_sample_at in
    let l = time-back c law s.created_at f.created_at in
    let m = times-back c law s.started_at f.started_at in
    let n = times-back c law s.stopped_at f.stopped_at in cc

map_session-read :
    (c : Conversions) (x : SessionRow) (ip : Addr)
    → parse_optional_addr c x.last_primary_ip ≡ inr ip
    → map_session c x ≡ inr (session_of x.last_category ip x.row)
unfolding map_session
map_session-read c x ip h = ground (arith, h)

-- A session comes back from the columns that it was written to, but for the category of its last
-- address, which is read from the reputation cache: if its durations are whole seconds or
-- milliseconds, its numbers not negative and below 2^31, its times whole microseconds below 2^63 of
-- them, and its last address is missing or has no zone and is not a mapped one. That Postgres gives
-- such a time back as it is, and such an address as the text of a prefix that holds it alone, is a
-- hypothesis.
pub map_session-insert_params :
    (c : Conversions) (s : Session) (category : Text)
    → IsDocumented c
    → Fits s
    → (x : SessionRow) × (session_row c category (insert_params s) ≡ some x)
      × (map_session c x
          ≡ inr (record s { snapshot = record s.snapshot { last_category = category } }))
unfolding session_row map_session insert_params
map_session-insert_params c s category law f =
    let (u, kept, read) = address-back c law s.snapshot.last_primary_ip f.last_primary_ip in
    let x = read_row c category (insert_params s) u in
    (
      x,
      ap (option_map (read_row c category (insert_params s))) kept,
      map_session-read c x s.snapshot.last_primary_ip read
          ∙ ap inr (session_of-insert_params s category c law f),
    )
