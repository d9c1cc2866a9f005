-- ===== src/Enrich/Service.antt =====
-- internal/enrich/service.go: the lookup of an address, with what the store, the clock, the semaphore and
-- the providers answer in an argument.
pub mod Asked
pub mod Caching
pub mod Tests
use proxy_sampler.Prelude.{
  ℕ, zero, suc, ◌+◌, Bool, true, false, not, ◌&&◌, List, [], ◌∷◌, ◌++◌, map, Option, none, some,
  Text, codes, Map, insert, list_eq, nat_eq, is_nil, if◌then◌else◌, ℤ, ◌⊎◌, inl, inr,
}
use proxy_sampler.Go.Addr.{Addr, unmap}
use proxy_sampler.Go.Time.{Time, Duration, sub_time, leb_ℤ}
use proxy_sampler.Session.{Reputation}
use proxy_sampler.Enrich.Partial.{Partial, no_partial, merge, WordOps, classify}

-- What one provider answers: its name, its signals and its error.
pub record ProviderAnswer : Type 0 where
  pub name : Text
  pub partial : Partial
  pub error : Option Text

pub record LookupAnswers : Type 0 where
  pub first_read : Text ⊎ Option Reputation
  pub first_now : Time
  pub key_error : Option Text
  pub second_read : Text ⊎ Option Reputation
  pub second_now : Time
  pub slot_error : Option Text
  pub providers : List ProviderAnswer
  pub encode_raw : Map Text Text → Text ⊎ Text
  pub refreshed_now : Time
  pub save_error : Option Text

-- The reputation, if one is returned, the joined errors, what was handed to the store, and the
-- providers that were asked.
pub record Looked : Type 0 where
  pub result : Option Reputation
  pub errors : List Text
  pub saved : Option Reputation
  pub asked : List Text

abbrev pub failed_with : Text → Looked
failed_with e = record { result = none; errors = e ∷ []; saved = none; asked = [] }

abbrev pub from_cache : Reputation → Looked
from_cache r = record { result = some r; errors = []; saved = none; asked = [] }

-- `now.Sub(refreshed_at) < ttl`.
abbrev pub is_fresh : Duration → Time → Reputation → Bool
is_fresh ttl now r = not (leb_ℤ ttl (sub_time now r.refreshed_at))

abbrev pub fresh_of : Duration → Time → Option Reputation → Option Reputation
fresh_of ttl now none = none
fresh_of ttl now (some r) = if is_fresh ttl now r then some r else none

-- The loop over the providers, with what is merged and the errors so far.
unfoldable pub ask_all : Partial → List Text → List ProviderAnswer → Partial × List Text
ask_all merged errors [] = (merged, errors)
ask_all merged errors (a ∷ answers) = elim a.error [
  | none ↦ ask_all (merge merged a.partial) errors answers
  | some e ↦
      let partial = merge merged a.partial in
      ask_all (record partial { errors = insert a.name e partial.errors })
        (errors ++ (a.name ++ (codes ": " ++ e)) ∷ []) answers
]

-- `marshalProviderRaw`: the payload and the error.
unfoldable pub marshal_provider_raw :
    (Map Text Text → Text ⊎ Text) → Map Text Text → Text × List Text
marshal_provider_raw encode raw = if is_nil raw then (codes "{}", []) else elim (encode raw) [
  | inl e ↦ (codes "{}", (codes "encode provider payloads: " ++ e) ∷ [])
  | inr text ↦ (text, [])
]

abbrev pub to_reputation : Addr → Partial → Text → Time → Time → Text → Reputation
to_reputation ip p category first_seen refreshed_at raw = record {
  ip = ip;
  country = p.country;
  region = p.region;
  city = p.city;
  isp = p.isp;
  asn = p.asn;
  is_mobile = p.is_mobile;
  ip_api_proxy = p.ip_api_proxy;
  ip_api_hosting = p.ip_api_hosting;
  proxy_check_type = p.proxy_check_type;
  proxy_check_proxy = p.proxy_check_proxy;
  risk_score = p.risk_score;
  grey_noise_class = p.grey_noise_class;
  sfs_appears = p.sfs_appears;
  sfs_frequency = p.sfs_frequency;
  dnsbl_listed = p.dnsbl_listed;
  dnsbl_hits = p.dnsbl_hits;
  category = category;
  raw = raw;
  first_seen = first_seen;
  refreshed_at = refreshed_at;
}

abbrev pub first_seen_of : Option Reputation → Time → Time
first_seen_of none now = now
first_seen_of (some r) now = r.first_seen

-- The end of `Lookup`, once the slot is acquired.
unfoldable pub refresh : WordOps → Addr → Option Reputation → LookupAnswers → Looked
refresh ops ip cached a =
    let (merged, errors) = ask_all no_partial [] a.providers in
    let (raw, raw_errors) = marshal_provider_raw a.encode_raw merged.raw in
    let reputation =
      to_reputation ip merged (classify ops merged) (first_seen_of cached a.refreshed_now)
        a.refreshed_now raw in
    let asked = map (λ p. p.name) a.providers in
    elim a.save_error [
      | none ↦ record {
        result = some reputation;
        errors = errors ++ raw_errors;
        saved = some reputation;
        asked = asked;
      }
      | some e ↦ record {
        result = none;
        errors = (errors ++ raw_errors) ++ (codes "save reputation: " ++ e) ∷ [];
        saved = some reputation;
        asked = asked;
      }
    ]

-- The second half of `Lookup`, under the key of the address.
unfoldable pub recheck : WordOps → Duration → Addr → LookupAnswers → Looked
recheck ops ttl ip a = elim a.second_read [
  | inl e ↦ failed_with (codes "recheck reputation cache: " ++ e)
  | inr cached ↦ elim (fresh_of ttl a.second_now cached) [
    | some r ↦ from_cache r
    | none ↦ elim a.slot_error [
      | some e ↦ failed_with (codes "acquire enrichment slot: " ++ e)
      | none ↦ refresh ops ip cached a
    ]
  ]
]

unfoldable pub lookup_ip : WordOps → Duration → Addr → LookupAnswers → Looked
lookup_ip ops ttl ip a = elim a.first_read [
  | inl e ↦ failed_with (codes "read reputation cache: " ++ e)
  | inr cached ↦ elim (fresh_of ttl a.first_now cached) [
    | some r ↦ from_cache r
    | none ↦ elim a.key_error [
      | some e ↦ failed_with (codes "acquire enrichment key: " ++ e)
      | none ↦ recheck ops ttl (unmap ip) a
    ]
  ]
]
