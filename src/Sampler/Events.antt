-- ===== src/Sampler/Events.antt =====
-- internal/sampler/worker.go: the event that is made of a sample, with the conversions of its
-- columns.
use proxy_sampler.Prelude.{
  ℕ, zero, suc, ◌/◌, ◌%◌, Bool, true, false, ltb, [], ◌∷◌, ◌++◌, map, Option, none, some, Text,
  codes, ℤ, pos, is_nil, if◌then◌else◌,
}
use proxy_sampler.Go.Addr.{Addr, invalid, v4, v6, unmap, addr_eq}
use proxy_sampler.Go.Time.{Time}
use proxy_sampler.Go.Ints.{max_uint32}
use proxy_sampler.Session.{Reputation}
use proxy_sampler.Ch.Event.{Event, NetIp}
use proxy_sampler.Sampler.Aggregate.{Sample}

abbrev pub unknown_primary_category : Text
unknown_primary_category = codes "unknown"

abbrev pub with_category : Reputation → Reputation
with_category r = if is_nil r.category then record r { category = unknown_primary_category } else r

unfoldable pub bytes_of : ℕ → ℕ → NetIp
bytes_of zero n = []
bytes_of (suc k) n = bytes_of k (n / 256) ++ (n % 256) ∷ []

unfoldable pub addr_ip : Addr → NetIp
addr_ip address = elim (unmap address) [
  | invalid ↦ []
  | v4 n ↦ bytes_of 4 n
  | v6 n zone ↦ bytes_of 16 n
]

unfoldable pub duration_millis : ℕ → ℕ
duration_millis value = if ltb max_uint32 (value / 1000000) then max_uint32 else value / 1000000

unfoldable pub risk_byte : Option ℤ → ℕ
risk_byte (some (pos n)) = if ltb 255 n then 255 else n
risk_byte _ = 0

unfoldable pub bool_byte : Bool → ℕ
bool_byte true = 1
bool_byte false = 0

-- The event of a sample, with the category and the risk of its primary address.
unfoldable pub sample_event : ℕ → Time → ℕ → Sample → Option Reputation → Event
sample_event id at sequence sample reputation = record {
  session_id = id;
  sampled_at = at;
  sample_seq = sequence;
  probes_attempted = sample.probes_attempted % 256;
  probes_ok = sample.probes_ok % 256;
  primary_ip = addr_ip sample.primary_ip;
  distinct_ips = sample.distinct_ips % 256;
  ip_changed = bool_byte sample.ip_changed;
  new_ips = sample.new_ips % 256;
  rtt_min_ms = duration_millis sample.rtt_min;
  rtt_med_ms = duration_millis sample.rtt_med;
  rtt_max_ms = duration_millis sample.rtt_max;
  egress_country = sample.egress_country;
  primary_category = elim reputation [
    | none ↦ unknown_primary_category
    | some r ↦ (with_category r).category
  ];
  primary_risk = elim reputation [ none ↦ 0 | some r ↦ risk_byte r.risk_score ];
  probe_ips = map addr_ip sample.probe_ips;
  probe_rtts_ms = map duration_millis sample.probe_rtts;
  probe_ok = map bool_byte sample.probe_ok;
  error = sample.error;
}
