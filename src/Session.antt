-- ===== src/Session.antt =====
-- internal/session/session.go: the sessions, their snapshots, and what is known of an address.
use proxy_sampler.Prelude.{ℕ, Bool, List, Option, Text, ℤ}
use proxy_sampler.Go.Addr.{Addr}
use proxy_sampler.Go.Time.{Time, Duration}
use proxy_sampler.Go.Ints.{Int64}

pub data Mode : Type 0 where
  sticky pool : Mode

pub data Status : Type 0 where
  running stopped finished : Status

pub record Snapshot : Type 0 where
  pub samples_taken : Int64
  pub probes_ok : Int64
  pub probes_total : Int64
  pub distinct_ips : Int64
  pub last_sample_at : Option Time
  pub last_primary_ip : Addr
  pub last_category : Text
  pub last_rtt : Option Duration
  pub last_error : Text

pub record Session : Type 0 where
  pub id : ℕ
  pub name : Text
  pub proxy_ciphertext : List ℕ
  pub proxy_nonce : List ℕ
  pub proxy_display : Text
  pub mode : Mode
  pub cadence : Duration
  pub probes_per_sample : ℤ
  pub probe_target : Text
  pub dial_timeout : Duration
  pub max_samples : Option ℤ
  pub max_duration : Option Duration
  pub status : Status
  pub target_country : Text
  pub sequence_offset : Int64
  pub snapshot : Snapshot
  pub created_at : Time
  pub started_at : Option Time
  pub stopped_at : Option Time

pub record IpHit : Type 0 where
  pub ip : Addr
  pub seen_at : Time
  pub hits : ℕ

-- `Raw` is the JSON text.
pub record Reputation : Type 0 where
  pub ip : Addr
  pub country : Text
  pub region : Text
  pub city : Text
  pub isp : Text
  pub asn : Text
  pub is_mobile : Option Bool
  pub ip_api_proxy : Option Bool
  pub ip_api_hosting : Option Bool
  pub proxy_check_type : Text
  pub proxy_check_proxy : Option Bool
  pub risk_score : Option ℤ
  pub grey_noise_class : Text
  pub sfs_appears : Option Bool
  pub sfs_frequency : Option ℤ
  pub dnsbl_listed : Option Bool
  pub dnsbl_hits : List Text
  pub category : Text
  pub raw : Text
  pub first_seen : Time
  pub refreshed_at : Time

pub record IpRecord : Type 0 where
  pub ip : Addr
  pub first_seen : Time
  pub last_seen : Time
  pub hit_count : ℕ
  pub reputation : Option Reputation
