-- ===== src/Ch/Event.antt =====
-- internal/ch/event.go, and the row that internal/ch/writer.go makes of an event. An address is
-- its bytes, and the nil address has none.
use proxy_sampler.Prelude.{
  ℕ, Bool, ◌&&◌, ◌==◌, List, [], ◌∷◌, Option, none, some, Text, length, replicate, if◌then◌else◌,
}
use proxy_sampler.Go.Time.{Time}

abbrev pub NetIp : Type 0
NetIp = List ℕ

pub record Event : Type 0 where
  pub session_id : ℕ
  pub sampled_at : Time
  pub sample_seq : ℕ
  pub probes_attempted : ℕ
  pub probes_ok : ℕ
  pub primary_ip : NetIp
  pub distinct_ips : ℕ
  pub ip_changed : ℕ
  pub new_ips : ℕ
  pub rtt_min_ms : ℕ
  pub rtt_med_ms : ℕ
  pub rtt_max_ms : ℕ
  pub egress_country : Text
  pub primary_category : Text
  pub primary_risk : ℕ
  pub probe_ips : List NetIp
  pub probe_rtts_ms : List ℕ
  pub probe_ok : List ℕ
  pub error : Text

unfoldable pub valid_event : Event → Bool
valid_event e =
    (length e.probe_ips == e.probes_attempted)
    && ((length e.probe_rtts_ms == e.probes_attempted) && (length e.probe_ok == e.probes_attempted))

abbrev pub ipv6_zero : NetIp
ipv6_zero = replicate 16 0

unfoldable pub normalized_ip : NetIp → NetIp
normalized_ip [] = ipv6_zero
normalized_ip (b ∷ ip) = b ∷ ip

-- The loop over `ProbeIPs`, which reads `ProbeOK` at the same index; none is the panic of an index
-- out of range.
unfoldable pub probe_ips_row : List NetIp → List ℕ → Option (List NetIp)
unfolding normalized_ip
probe_ips_row [] oks = some []
probe_ips_row (ip ∷ ips) [] = none
probe_ips_row (ip ∷ ips) (ok ∷ oks) = elim (probe_ips_row ips oks) [
  | none ↦ none
  | some rest ↦ some ((if ok == 0 then ipv6_zero else normalized_ip ip) ∷ rest)
]

-- The arguments of `batch.Append`: the event with its addresses made ready for their columns.
unfoldable pub append_args : Event → Option Event
append_args e = elim (probe_ips_row e.probe_ips e.probe_ok) [
  | none ↦ none
  | some ips ↦ some (record e { primary_ip = normalized_ip e.primary_ip; probe_ips = ips })
]
