-- ===== src/Db/Columns.antt =====
-- internal/db/store.go: how a session's values become columns, and columns a session.
pub mod RoundTrip
use proxy_sampler.Prelude.{
  ℕ, zero, suc, ◌+◌, ◌-◌, ◌*◌, ◌/◌, ◌%◌, ◌^◌, Bool, true, false, ltb, ◌==◌, List, Option, none,
  some, Text, codes, is_nil, [], ◌++◌, ◌⊎◌, inl, inr, ℤ, pos, negsuc, if◌then◌else◌,
}
use proxy_sampler.Go.Addr.{Addr, invalid, is_valid}
use proxy_sampler.Go.Time.{Time, Duration}
use proxy_sampler.Go.Ints.{Int32, Int64, low32, sign_extend}
use proxy_sampler.Session.{Mode, Status, Session, Snapshot}

-- `int32(v)` of a signed value, and the value of a column.
abbrev pub to_int32 : ℤ → Int32
to_int32 (pos n) = n % 2 ^ 32
to_int32 (negsuc n) = 2 ^ 32 - 1 - n % 2 ^ 32

abbrev pub of_int32 : Int32 → ℤ
of_int32 c = if ltb c (2 ^ 31) then pos c else negsuc (2 ^ 32 - 1 - c)

-- `d / unit`, which Go rounds towards 0, and `time.Duration(c) * unit`.
abbrev pub units : Duration → ℕ → ℤ
units (pos n) unit = pos (n / unit)
units (negsuc n) unit = if (suc n / unit) == 0 then pos 0 else negsuc (suc n / unit - 1)

abbrev pub times_unit : ℤ → ℕ → Duration
times_unit (pos n) unit = pos (n * unit)
times_unit (negsuc n) unit = negsuc (suc n * unit - 1)

abbrev pub second : ℕ
second = 1000000000

abbrev pub millisecond : ℕ
millisecond = 1000000

abbrev pub option_map {ℓ κ} : {A : Type ℓ} {B : Type κ} → (A → B) → Option A → Option B
option_map f none = none
option_map f (some a) = some (f a)

-- What Go's library and Postgres make of an address and of a time: the text of an address, the
-- parsing of an address (with its error) and of a prefix, of which the address is read, the text that
-- an `inet` column gives back, none where it refuses the text, and the time that a `timestamptz`
-- column gives back.
pub record Conversions : Type 0 where
  pub addr_text : Addr → Text
  pub parse_addr : Text → Text ⊎ Addr
  pub parse_prefix : Text → Option Addr
  pub inet_text : Text → Option Text
  pub keep_time : Time → Time

abbrev pub addr_string : Conversions → Addr → Text
addr_string c a = if is_valid a then c.addr_text a else []

-- `parseAddr`, which takes the address of a prefix too.
unfoldable pub parse_address : Conversions → Text → Text → Text ⊎ Addr
parse_address c value field = elim (c.parse_addr value) [
  | inr a ↦ inr a
  | inl e ↦ elim (c.parse_prefix value) [
    | some a ↦ inr a
    | none ↦ inl (codes "map " ++ (field ++ (codes ": " ++ e)))
  ]
]

unfoldable pub parse_optional_addr : Conversions → Text → Text ⊎ Addr
parse_optional_addr c value =
    if is_nil value then inr invalid else parse_address c value (codes "address")

-- The values of a session's columns as they are written. An address that is NULL is the invalid one, a
-- text that is NULL empty. What a column gives back of an address or a time is in `session_row`.
pub record Row : Type 0 where
  pub id : ℕ
  pub name : Text
  pub proxy_ciphertext : List ℕ
  pub proxy_nonce : List ℕ
  pub proxy_display : Text
  pub mode : Mode
  pub cadence_seconds : Int32
  pub probes_per_sample : Int32
  pub probe_target : Text
  pub dial_timeout_ms : Int32
  pub max_samples : Option Int32
  pub max_duration_seconds : Option Int32
  pub status : Status
  pub samples_taken : Int32
  pub probes_ok : Int64
  pub probes_total : Int64
  pub distinct_ips : Int32
  pub last_sample_at : Option Time
  pub last_primary_ip : Addr
  pub last_rtt_ms : Option Int32
  pub last_error : Text
  pub created_at : Time
  pub started_at : Option Time
  pub stopped_at : Option Time
  pub sequence_offset : Int32
  pub target_country : Text
  pub name_customized : Bool

-- `insertSessionParams`, with the constant that the statement adds.
unfoldable pub insert_params : Session → Row
insert_params s = record {
  id = s.id;
  name = s.name;
  proxy_ciphertext = s.proxy_ciphertext;
  proxy_nonce = s.proxy_nonce;
  proxy_display = s.proxy_display;
  mode = s.mode;
  cadence_seconds = to_int32 (units s.cadence second);
  probes_per_sample = to_int32 s.probes_per_sample;
  probe_target = s.probe_target;
  dial_timeout_ms = to_int32 (units s.dial_timeout millisecond);
  max_samples = option_map to_int32 s.max_samples;
  max_duration_seconds = option_map (λ d. to_int32 (units d second)) s.max_duration;
  status = s.status;
  samples_taken = low32 s.snapshot.samples_taken;
  probes_ok = s.snapshot.probes_ok;
  probes_total = s.snapshot.probes_total;
  distinct_ips = low32 s.snapshot.distinct_ips;
  last_sample_at = s.snapshot.last_sample_at;
  last_primary_ip = s.snapshot.last_primary_ip;
  last_rtt_ms = option_map (λ d. to_int32 (units d millisecond)) s.snapshot.last_rtt;
  last_error = s.snapshot.last_error;
  created_at = s.created_at;
  started_at = s.started_at;
  stopped_at = s.stopped_at;
  sequence_offset = low32 s.sequence_offset;
  target_country = s.target_country;
  name_customized = true;
}

-- What the `inet` column gives back, where NULL is the empty text; none where it refuses the address.
unfoldable pub kept_addr : Conversions → Addr → Option Text
kept_addr c a = let t = addr_string c a in if is_nil t then some [] else c.inet_text t

-- `sessionRow`, of which the columns that the query passes on as they are stand in `row`.
pub record SessionRow : Type 0 where
  pub row : Row
  pub last_primary_ip : Text
  pub last_category : Text

-- A row as the queries read it after it is written, with the category that they join from the
-- reputation cache.
abbrev pub read_row : Conversions → Text → Row → Text → SessionRow
read_row c category r text = record {
  row = record r {
    last_sample_at = option_map c.keep_time r.last_sample_at;
    created_at = c.keep_time r.created_at;
    started_at = option_map c.keep_time r.started_at;
    stopped_at = option_map c.keep_time r.stopped_at;
  };
  last_primary_ip = text;
  last_category = category;
}

unfoldable pub session_row : Conversions → Text → Row → Option SessionRow
session_row c category r = option_map (read_row c category r) (kept_addr c r.last_primary_ip)

-- `mapSession` behind the parsing of the address.
abbrev pub session_of : Text → Addr → Row → Session
session_of category last_primary_ip r = record {
  id = r.id;
  name = r.name;
  proxy_ciphertext = r.proxy_ciphertext;
  proxy_nonce = r.proxy_nonce;
  proxy_display = r.proxy_display;
  mode = r.mode;
  cadence = times_unit (of_int32 r.cadence_seconds) second;
  probes_per_sample = of_int32 r.probes_per_sample;
  probe_target = r.probe_target;
  dial_timeout = times_unit (of_int32 r.dial_timeout_ms) millisecond;
  max_samples = option_map of_int32 r.max_samples;
  max_duration = option_map (λ c. times_unit (of_int32 c) second) r.max_duration_seconds;
  status = r.status;
  target_country = r.target_country;
  sequence_offset = sign_extend r.sequence_offset;
  snapshot = record {
    samples_taken = sign_extend r.samples_taken;
    probes_ok = r.probes_ok;
    probes_total = r.probes_total;
    distinct_ips = sign_extend r.distinct_ips;
    last_sample_at = r.last_sample_at;
    last_primary_ip = last_primary_ip;
    last_category = category;
    last_rtt = option_map (λ c. times_unit (of_int32 c) millisecond) r.last_rtt_ms;
    last_error = r.last_error;
  };
  created_at = r.created_at;
  started_at = r.started_at;
  stopped_at = r.stopped_at;
}

unfoldable pub map_session : Conversions → SessionRow → Text ⊎ Session
map_session c x = elim (parse_optional_addr c x.last_primary_ip) [
  | inl e ↦ inl (codes "map last primary ip: " ++ e)
  | inr ip ↦ inr (session_of x.last_category ip x.row)
]
