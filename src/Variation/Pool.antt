-- ===== src/Variation/Pool.antt =====
-- internal/variation/report.go and chao1.go: the addresses of a run's pool and their statistics. A
-- percentage is left to its numerator and denominator, `strings.EqualFold` is an argument, and the
-- hits of a run add up without leaving 64 bits.
pub mod Chao1
pub mod Histogram
pub mod Sessions
pub mod Rows
pub mod Tally
pub mod Dominant
pub mod Honor
pub mod Cells
pub mod Outcome
pub mod Tests
use proxy_sampler.Prelude.{
  ℕ, zero, suc, ◌+◌, ◌-◌, ◌*◌, ◌/◌, Bool, true, false, not, ◌&&◌, ◌||◌, ltb, leb, ◌==◌, List, [],
  ◌∷◌, ◌++◌, map, Option, none, some, Text, codes, Map, keys, lookup, lookup_or, insert, add,
  contains, length, count, max, sort, list_eq, nat_eq, ◌=?◌, is_nil, is_some, ℤ, pos, negsuc,
  if◌then◌else◌, text_leb,
}
use proxy_sampler.Go.Addr.{Addr, invalid, v4, v6, addr_eq}
use proxy_sampler.Go.Time.{Time}
use proxy_sampler.Session.{Reputation}

pub record Composition : Type 0 where
  pub mobile : ℕ
  pub residential : ℕ
  pub datacenter : ℕ
  pub unknown : ℕ

abbrev pub no_composition : Composition
no_composition = record { mobile = 0; residential = 0; datacenter = 0; unknown = 0 }

unfoldable pub apply_composition : Composition → Text → Composition
apply_composition c category =
    if category =? codes "mobile"
    then record c { mobile = c.mobile + 1 }
    else if category =? codes "residential"
    then record c { residential = c.residential + 1 }
    else if category =? codes "datacenter"
    then record c { datacenter = c.datacenter + 1 }
    else record c { unknown = c.unknown + 1 }

unfoldable pub normalize_category : Text → Text
normalize_category value =
    if (value =? codes "mobile")
      || ((value =? codes "residential") || (value =? codes "datacenter"))
    then value
    else codes "unknown"

pub record RiskBucket : Type 0 where
  pub min_score : ℕ
  pub max_score : ℕ
  pub count : ℕ

abbrev pub bucket_at : ℕ → RiskBucket
bucket_at i = record {
  min_score = i * 10;
  max_score = if i == 9 then 100 else i * 10 + 9;
  count = 0;
}

abbrev pub buckets_from : ℕ → ℕ → List RiskBucket
buckets_from zero i = []
buckets_from (suc n) i = bucket_at i ∷ buckets_from n (suc i)

abbrev pub new_risk_histogram : List RiskBucket
new_risk_histogram = buckets_from 10 0

abbrev pub count_at : List RiskBucket → ℕ → List RiskBucket
count_at [] i = []
count_at (b ∷ bs) zero = record b { count = b.count + 1 } ∷ bs
count_at (b ∷ bs) (suc i) = b ∷ count_at bs i

unfoldable pub add_risk : List RiskBucket → ℤ → List RiskBucket
add_risk buckets (negsuc n) = buckets
add_risk buckets (pos score) =
    if ltb 100 score
    then buckets
    else count_at buckets (if (score / 10) == 10 then 9 else score / 10)

pub record Estimate : Type 0 where
  pub observed : ℕ
  pub estimate : ℕ
  pub lower_bound : Bool

unfoldable pub chao1 : List ℕ → Estimate
chao1 frequencies =
    let observed = length frequencies in
    let f1 = count (λ f. f == 1) frequencies in
    let f2 = count (λ f. f == 2) frequencies in
    if (observed == 0) || (f2 == 0)
    then record { observed = observed; estimate = observed; lower_bound = true }
    else record {
      observed = observed;
      estimate = observed + (f1 * f1) / (2 * f2);
      lower_bound = false;
    }

pub record IpObservation : Type 0 where
  pub session_id : ℕ
  pub ip : Addr
  pub hit_count : ℕ
  pub first_seen : Time
  pub last_seen : Time
  pub reputation : Option Reputation

pub record IpRow : Type 0 where
  pub ip : Addr
  pub category : Text
  pub country : Text
  pub isp : Text
  pub asn : Text
  pub risk_score : Option ℤ
  pub grey_noise_class : Text
  pub dnsbl_listed : Bool
  pub dnsbl_hits : List Text
  pub hit_count : ℕ
  pub first_seen : Time
  pub last_seen : Time

abbrev pub bool_value : Option Bool → Bool
bool_value none = false
bool_value (some b) = b

unfoldable pub new_ip_row : IpObservation → IpRow
unfolding normalize_category
new_ip_row obs = elim obs.reputation [
  | none ↦ record {
    ip = obs.ip;
    category = codes "unknown";
    country = [];
    isp = [];
    asn = [];
    risk_score = none;
    grey_noise_class = [];
    dnsbl_listed = false;
    dnsbl_hits = [];
    hit_count = obs.hit_count;
    first_seen = obs.first_seen;
    last_seen = obs.last_seen;
  }
  | some r ↦ record {
    ip = obs.ip;
    category = normalize_category r.category;
    country = r.country;
    isp = r.isp;
    asn = r.asn;
    risk_score = r.risk_score;
    grey_noise_class = r.grey_noise_class;
    dnsbl_listed = bool_value r.dnsbl_listed;
    dnsbl_hits = r.dnsbl_hits;
    hit_count = obs.hit_count;
    first_seen = obs.first_seen;
    last_seen = obs.last_seen;
  }
]

pub record IpAccum : Type 0 where
  pub row : IpRow
  pub variants : List ℕ
  pub flagged : Bool

-- A further observation of an address; the zero time is 0.
unfoldable pub merge_observation : IpAccum → IpObservation → IpAccum
merge_observation a obs = record a {
  row = record a.row {
    hit_count = a.row.hit_count + obs.hit_count;
    first_seen =
        if not (obs.first_seen == 0)
          && ((a.row.first_seen == 0) || ltb obs.first_seen a.row.first_seen)
        then obs.first_seen
        else a.row.first_seen;
    last_seen = if ltb a.row.last_seen obs.last_seen then obs.last_seen else a.row.last_seen;
  };
  variants = add a.variants obs.session_id;
}

-- `Addr.Compare`: the shorter kind first, then the number, then the zone.
abbrev pub addr_leb : Addr → Addr → Bool
addr_leb invalid b = true
addr_leb (v4 n) invalid = false
addr_leb (v4 n) (v4 m) = leb n m
addr_leb (v4 n) (v6 m z) = true
addr_leb (v6 n y) invalid = false
addr_leb (v6 n y) (v4 m) = false
addr_leb (v6 n y) (v6 m z) = if ltb n m then true else if ltb m n then false else text_leb y z

-- The statistics of the loop over the sorted addresses.
pub record PoolReport : Type 0 where
  pub frequencies : List ℕ
  pub composition : Composition
  pub risk_histogram : List RiskBucket
  pub flagged_ips : ℕ
  pub dnsbl_hit_ips : ℕ
  pub ips : List IpRow

abbrev pub empty_report : PoolReport
empty_report = record {
  frequencies = [];
  composition = no_composition;
  risk_histogram = new_risk_histogram;
  flagged_ips = 0;
  dnsbl_hit_ips = 0;
  ips = [];
}

unfoldable pub report_ip : PoolReport → IpAccum → PoolReport
report_ip report a = record {
  frequencies = report.frequencies ++ length a.variants ∷ [];
  composition = apply_composition report.composition a.row.category;
  risk_histogram = elim a.row.risk_score [
    | none ↦ report.risk_histogram
    | some score ↦ add_risk report.risk_histogram score
  ];
  flagged_ips = if a.flagged then report.flagged_ips + 1 else report.flagged_ips;
  dnsbl_hit_ips = if a.row.dnsbl_listed then report.dnsbl_hit_ips + 1 else report.dnsbl_hit_ips;
  ips = report.ips ++ a.row ∷ [];
}

unfoldable pub report_ips : PoolReport → List Addr → Map Addr IpAccum → PoolReport
report_ips report [] m = report
report_ips report (ip ∷ ips) m = elim (lookup ip m) [
  | none ↦ report_ips report ips m
  | some a ↦ report_ips (report_ip report a) ips m
]

module _ (equal_fold : Text → Text → Bool) where
  unfoldable pub reputation_flagged : Option Reputation → Bool
  reputation_flagged none = false
  reputation_flagged (some r) =
      bool_value r.proxy_check_proxy
      || (elim r.risk_score [ none ↦ false | some (negsuc n) ↦ false | some (pos n) ↦ leb 70 n ]
          || (equal_fold r.grey_noise_class (codes "malicious")
              || (bool_value r.sfs_appears || bool_value r.dnsbl_listed)))

  -- The first observation of an address.
  abbrev pub new_accum : IpObservation → IpAccum
  new_accum obs = record {
    row = new_ip_row obs;
    variants = obs.session_id ∷ [];
    flagged = reputation_flagged obs.reputation;
  }

  -- The loop that merges the observations by address.
  unfoldable pub observe : Map Addr IpAccum → IpObservation → Map Addr IpAccum
  observe ips obs = elim (lookup obs.ip ips) [
    | none ↦ insert obs.ip (new_accum obs) ips
    | some a ↦ insert obs.ip (merge_observation a obs) ips
  ]

  unfoldable pub observe_all : Map Addr IpAccum → List IpObservation → Map Addr IpAccum
  observe_all ips [] = ips
  observe_all ips (o ∷ os) = observe_all (observe ips o) os

  -- The pool's part of `BuildPoolReport`, with the number of addresses and the estimate.
  unfoldable pub build_pool : List IpObservation → PoolReport × (ℕ × Estimate)
  build_pool observations =
      let ips = observe_all [] observations in
      let report = report_ips empty_report (sort addr_leb (keys ips)) ips in
      (report, (length ips, chao1 report.frequencies))

-- `dominant`, on the values that `pick` reads.
unfoldable pub add_weight : (Reputation → Text) → Map Text ℕ → IpObservation → Map Text ℕ
add_weight pick weights o = elim o.reputation [
  | none ↦ weights
  | some r ↦
      if is_nil (pick r)
      then weights
      else insert (pick r) (lookup_or 0 (pick r) weights + max o.hit_count 1) weights
]

unfoldable pub weigh : (Reputation → Text) → List IpObservation → Map Text ℕ → Map Text ℕ
weigh pick [] weights = weights
weigh pick (o ∷ os) weights = weigh pick os (add_weight pick weights o)

unfoldable pub max_weight : Map Text ℕ → ℕ → ℕ
max_weight [] best = best
max_weight ((v, w) ∷ m) best = max_weight m (if ltb best w then w else best)

-- The last value of the greatest weight in the map's order, and how many there are.
unfoldable pub best_value : ℕ → Map Text ℕ → Text × ℕ → Text × ℕ
best_value top [] best = best
best_value top ((v, w) ∷ m) (b, n) = best_value top m (if w == top then (v, n + 1) else (b, n))

unfoldable pub dominant_of : Map Text ℕ → Text
unfolding max_weight
dominant_of weights =
    let (best, n) = best_value (max_weight weights 0) weights ([], 0) in
    if not (n == 1) then [] else best

unfoldable pub dominant : List IpObservation → (Reputation → Text) → Text
dominant observations pick = dominant_of (weigh pick observations [])
