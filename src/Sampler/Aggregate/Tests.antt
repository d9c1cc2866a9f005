-- ===== src/Sampler/Aggregate/Tests.antt =====
-- Runs of `Aggregate`, and its theorems at them.
use proxy_sampler.Prelude.{
  ℕ, ◌<◌, ◌≡◌, refl, true, List, [], ◌∷◌, none, some, codes, arith, pos, negsuc, take,
}
use proxy_sampler.Go.Addr.{v4, invalid, addr_beq, addr_eq}
use proxy_sampler.Go.Utf8.{to_valid_utf8, next, lead, rune_end, to_valid_from}
use proxy_sampler.Sampler.Aggregate.{
  ProbeResult, aggregate, truncated, fold_probes, fold_probe, outcome, finish_sample, sample_of,
  best_hits, count_new, clamp_uint8, median, join_probe_errors, cut_error, unique_messages, join,
}
use proxy_sampler.Sampler.Aggregate.Bounds.{IsCounted, aggregate-IsCounted}
use proxy_sampler.Sampler.Aggregate.Egress.{IsPrimary, aggregate-IsPrimary}
use proxy_sampler.Sampler.Aggregate.Times.{IsTimed, aggregate-IsTimed}
use proxy_sampler.Sampler.Aggregate.Errors.{Reports, messages, aggregate-Reports}

abbrev probe : ℕ → ℕ → ProbeResult
probe ip rtt = record {
  ip = v4 ip;
  country = codes "DE";
  colo = codes "FRA";
  rtt = pos rtt;
  err = none;
}

abbrev failure : ProbeResult
failure = record {
  ip = invalid;
  country = [];
  colo = [];
  rtt = pos 0;
  err = some (codes "dial proxy: refused");
}

abbrev backwards : ProbeResult
backwards = record { ip = v4 7; country = []; colo = []; rtt = negsuc 0; err = none }

abbrev mixed : List ProbeResult
mixed = probe 1 30 ∷ failure ∷ probe 2 10 ∷ probe 2 50 ∷ probe 1 20 ∷ []

abbrev all_failed : List ProbeResult
all_failed = failure ∷ backwards ∷ failure ∷ []

mixed_sample :
    let s = aggregate mixed (v4 2) (v4 2 ∷ []) in
    (s.primary_ip ≡ v4 1)
    × (s.ip_changed ≡ true)
    × (s.new_ips ≡ 1)
    × (s.probes_ok ≡ 4)
    × (s.rtt_min ≡ 10)
    × (s.rtt_med ≡ 25)
    × (s.rtt_max ≡ 50)
    × (s.egress_country ≡ codes "DE")
unfolding aggregate truncated fold_probes fold_probe outcome finish_sample sample_of best_hits
    count_new clamp_uint8 median addr_beq
mixed_sample = (refl, refl, refl, refl, refl, refl, refl, refl)

failed_sample :
    (aggregate all_failed invalid []).error
    ≡ codes "dial proxy: refused; probe returned negative RTT"
unfolding aggregate truncated fold_probes fold_probe outcome finish_sample sample_of best_hits
    count_new clamp_uint8 median addr_beq join_probe_errors cut_error unique_messages join
    to_valid_utf8 to_valid_from rune_end next lead
failed_sample = refl

aggregate-IsCounted_example : IsCounted (v4 2 ∷ []) (aggregate mixed (v4 2) (v4 2 ∷ [])) 5
aggregate-IsCounted_example = aggregate-IsCounted mixed (v4 2) (v4 2 ∷ [])

aggregate-IsPrimary_example : IsPrimary (aggregate mixed (v4 2) (v4 2 ∷ []))
aggregate-IsPrimary_example = aggregate-IsPrimary mixed (v4 2) (v4 2 ∷ [])

aggregate-IsTimed_example : IsTimed (30 ∷ 10 ∷ 50 ∷ 20 ∷ []) 10 25 50
unfolding aggregate truncated fold_probes fold_probe outcome finish_sample sample_of best_hits
    count_new clamp_uint8 median addr_beq
aggregate-IsTimed_example = aggregate-IsTimed mixed (v4 2) (v4 2 ∷ []) (omega arith)

aggregate-Reports_example :
    let s = aggregate all_failed invalid [] in
    (0 < s.probes_ok → s.error ≡ [])
    × (s.probes_ok ≡ 0 → Reports (messages (take 255 all_failed)) s.error)
aggregate-Reports_example = aggregate-Reports all_failed invalid []
