-- ===== src/Variation/Pool/Tests.antt =====
-- Runs of the pool's statistics, and their theorems at them.
use proxy_sampler.Prelude.{
  ℕ, ◌+◌, ◌-◌, ◌*◌, ◌≤◌, ◌<◌, ◌≡◌, ◌↔◌, Bool, true, false, List, [], ◌∷◌, none, some, Text, length,
  ◌≢◌, arith, list_eq, nat_eq, Map, map, count, All, add_all, not, ◌||◌, is_nil, codes, ◌=?◌,
}
use proxy_sampler.Go.Addr.{v4}
use proxy_sampler.Session.{Reputation, Snapshot, running}
use proxy_sampler.Variation.Pool.{chao1, IpObservation, observe_all, build_pool, dominant}
use proxy_sampler.Variation.Pool.Dominant.{weight_of, dominant_lem}
use proxy_sampler.Variation.Pool.Honor.{
  VariantSession, TextOps, variant_honor, isp_matches, build_honor_and_cells, outcome_of, is_match,
  is_known, rate,
}
use proxy_sampler.Variation.Pool.Cells.{IsTold, build_honor_and_cells-IsTold}
use proxy_sampler.Variation.Pool.Outcome.{
  asked_country, asked_isp, missed, met, judge, variant_honor_lem,
}
use proxy_sampler.Variation.Pool.Chao1.{singletons, doubletons, chao1_lem}
use proxy_sampler.Variation.Pool.Rows.{IsPooled}
use proxy_sampler.Variation.Pool.Tally.{IsTallied, build_pool-IsTallied}
use proxy_sampler.Variation.Pool.Sessions.{IsSeen, observe_all-IsSeen}

abbrev some_frequencies : List ℕ
some_frequencies = 1 ∷ 2 ∷ 1 ∷ 3 ∷ 1 ∷ []

chao1_lem_example :
    (let e = chao1 some_frequencies in
      let f1 = singletons some_frequencies in
      let f2 = doubletons some_frequencies in
      (e.observed ≡ length some_frequencies)
      × (e.observed ≤ e.estimate)
      × ((e.lower_bound ≡ true) ↔ (f2 ≡ 0))
      × (e.lower_bound ≡ true → e.estimate ≡ e.observed)
      × (e.lower_bound ≡ false
          → ((2 * f2) * (e.estimate - e.observed) ≤ f1 * f1)
            × (f1 * f1 < (2 * f2) * (e.estimate - e.observed + 1))))
chao1_lem_example = chao1_lem some_frequencies

abbrev observation : ℕ → ℕ → IpObservation
observation s n = record {
  session_id = s;
  ip = v4 n;
  hit_count = 1;
  first_seen = 5;
  last_seen = 6;
  reputation = none;
}

abbrev some_observations : List IpObservation
some_observations = observation 1 10 ∷ observation 2 10 ∷ observation 1 11 ∷ observation 1 10 ∷ []

abbrev never_equal : Text → Text → Bool
never_equal s t = false

observe_all-IsSeen_example : IsSeen some_observations (observe_all never_equal [] some_observations)
observe_all-IsSeen_example = observe_all-IsSeen never_equal some_observations

build_pool-IsTallied_example :
    (let report = build_pool never_equal some_observations in
      IsPooled some_observations report.0.ips
      × IsTallied report.0
      × (length report.0.ips ≡ report.1.0))
build_pool-IsTallied_example = build_pool-IsTallied never_equal some_observations

abbrev from_country : Text → Reputation
from_country c = record {
  ip = v4 10;
  country = c;
  region = [];
  city = [];
  isp = [];
  asn = [];
  is_mobile = none;
  ip_api_proxy = none;
  ip_api_hosting = none;
  proxy_check_type = [];
  proxy_check_proxy = none;
  risk_score = none;
  grey_noise_class = [];
  sfs_appears = none;
  sfs_frequency = none;
  dnsbl_listed = none;
  dnsbl_hits = [];
  category = [];
  raw = [];
  first_seen = 5;
  refreshed_at = 5;
}

abbrev seen_from : ℕ → Text → IpObservation
seen_from n c = record {
  session_id = 1;
  ip = v4 n;
  hit_count = n;
  first_seen = 5;
  last_seen = 6;
  reputation = some (from_country c);
}

abbrev two_countries : List IpObservation
two_countries = seen_from 3 (2 ∷ []) ∷ seen_from 7 (1 ∷ []) ∷ []

others-less :
    (u : Text)
    → u ≢ 1 ∷ []
    → weight_of (λ r. r.country) u two_countries < weight_of (λ r. r.country) (1 ∷ []) two_countries
others-less u ne = ground (arith, (list_eq {A = ℕ}).beq_iff (1 ∷ []) u, ne)

dominant_lem_example : dominant two_countries (λ r. r.country) ≡ 1 ∷ []
dominant_lem_example =
    dominant_lem two_countries (λ r. r.country) (1 ∷ []) (omega arith) others-less

-- Parameters that are their own country, and texts that are compared as they are.
abbrev plain_ops : TextOps
plain_ops = record {
  equal_fold = λ s t. s =? t;
  to_lower = λ t. t;
  trim_space = λ t. t;
  parse_params = λ t. (codes "cc", t) ∷ [];
}

abbrev no_samples : Snapshot
no_samples = record {
  samples_taken = 0;
  probes_ok = 0;
  probes_total = 0;
  distinct_ips = 0;
  last_sample_at = none;
  last_primary_ip = v4 0;
  last_category = [];
  last_rtt = none;
  last_error = [];
}

abbrev variant_in : ℕ → Text → VariantSession
variant_in id country = record {
  session_id = id;
  name = [];
  params = country;
  cell_key = country;
  target_country = [];
  status = running;
  snapshot = no_samples;
}

abbrev three_variants : List VariantSession
three_variants = variant_in 1 (1 ∷ []) ∷ variant_in 2 (2 ∷ []) ∷ variant_in 3 (1 ∷ []) ∷ []

abbrev seen_by_first : Map ℕ (List IpObservation)
seen_by_first = (1, two_countries) ∷ []

build_honor_and_cells-IsTold_example :
    let report = build_honor_and_cells plain_ops three_variants seen_by_first in
    (report.0
      ≡ rate
          (count (λ v. is_match (outcome_of plain_ops seen_by_first v)) three_variants)
          (count (λ v. is_known (outcome_of plain_ops seen_by_first v)) three_variants))
    × (map (λ r. r.cell_key) report.1 ≡ add_all [] (map (λ v. v.cell_key) three_variants))
    × All (IsTold plain_ops seen_by_first three_variants) report.1
build_honor_and_cells-IsTold_example =
    build_honor_and_cells-IsTold plain_ops three_variants seen_by_first

variant_honor_lem_example :
    let c = asked_country plain_ops (1 ∷ []) [] in
    let i = asked_isp plain_ops (1 ∷ []) in
    let oc = dominant two_countries (λ r. r.country) in
    let oi = dominant two_countries (λ r. r.isp) in
    variant_honor plain_ops (1 ∷ []) [] two_countries
    ≡ judge
        (not (is_nil c) || not (is_nil i))
        (missed c oc (plain_ops.equal_fold oc c))
        (missed i oi (isp_matches plain_ops i oi))
        (met c oc (plain_ops.equal_fold oc c))
        (met i oi (isp_matches plain_ops i oi))
variant_honor_lem_example = variant_honor_lem plain_ops (1 ∷ []) [] two_countries
