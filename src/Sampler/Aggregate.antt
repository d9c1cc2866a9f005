-- ===== src/Sampler/Aggregate.antt =====
-- internal/sampler/aggregate.go, with the probe results of probe.go: one tick's ordered probes
-- become one sample. A duration that is not negative is its number of nanoseconds; the arrays
-- that the source allocates and fills by index are lists that grow by one entry for each probe.
pub mod Folding
pub mod Primary
pub mod Bounds
pub mod Egress
pub mod Times
pub mod Errors
pub mod Keys
pub mod Tests
use proxy_sampler.Prelude.{
  ℕ, zero, suc, ◌+◌, ◌-◌, ◌/◌, ◌%◌, Bool, true, false, not, ◌&&◌, ltb, leb, ◌==◌, List, [], ◌∷◌,
  ◌++◌, Option, none, some, Text, codes, nat_eq, list_eq, ◌=?◌, contains, Map, keys, lookup,
  lookup_or, insert, length, take, get_or, sort, ℤ, pos, negsuc, is_nil, is_some, if◌then◌else◌,
}
use proxy_sampler.Go.Addr.{Addr, invalid, is_valid, addr_eq}
use proxy_sampler.Go.Utf8.{valid_string, to_valid_utf8}

abbrev pub max_uint8_value : ℕ
max_uint8_value = 255

abbrev pub max_sample_error : ℕ
max_sample_error = 2048

-- An error is its message.
pub record ProbeResult : Type 0 where
  pub ip : Addr
  pub country : Text
  pub colo : Text
  pub rtt : ℤ
  pub err : Option Text

pub record Sample : Type 0 where
  pub probes_attempted : ℕ
  pub probes_ok : ℕ
  pub primary_ip : Addr
  pub distinct_ips : ℕ
  pub ip_changed : Bool
  pub new_ips : ℕ
  pub rtt_min : ℕ
  pub rtt_med : ℕ
  pub rtt_max : ℕ
  pub egress_country : Text
  pub probe_ips : List Addr
  pub probe_rtts : List ℕ
  pub probe_ok : List Bool
  pub ip_hits : Map Addr ℕ
  pub error : Text

unfoldable pub clamp_uint8 : ℕ → ℕ
clamp_uint8 value = if ltb max_uint8_value value then max_uint8_value else value

-- How the loop reads one result: the two tests in front, and what lies behind them.
pub data Outcome : Type 0 where
  succeeded : Addr → Text → ℕ → Outcome
  failed : Text → Outcome

abbrev pub negative_rtt : Text
negative_rtt = codes "probe returned negative RTT"

abbrev pub invalid_ip : Text
invalid_ip = codes "probe returned invalid IP"

unfoldable pub outcome : ProbeResult → Outcome
outcome r = elim r.err [
  | some e ↦ failed e
  | none ↦
      if is_valid r.ip
      then elim r.rtt [ pos n ↦ succeeded r.ip r.country n | negsuc n ↦ failed negative_rtt ]
      else failed invalid_ip
]

-- The variables of the first loop.
pub record Folded : Type 0 where
  pub probe_ips : List Addr
  pub probe_rtts : List ℕ
  pub probe_ok : List Bool
  pub ip_hits : Map Addr ℕ
  pub countries : Map Addr Text
  pub rtts : List ℕ
  pub errors_in_order : List Text

abbrev pub nothing_folded : Folded
nothing_folded = record {
  probe_ips = [];
  probe_rtts = [];
  probe_ok = [];
  ip_hits = [];
  countries = [];
  rtts = [];
  errors_in_order = [];
}

-- A failed probe keeps the zero values that its places in the arrays were made with.
unfoldable pub fold_probe : Folded → Outcome → Folded
fold_probe f (failed message) = record f {
  probe_ips = f.probe_ips ++ invalid ∷ [];
  probe_rtts = f.probe_rtts ++ 0 ∷ [];
  probe_ok = f.probe_ok ++ false ∷ [];
  errors_in_order = f.errors_in_order ++ message ∷ [];
}
fold_probe f (succeeded ip country rtt) = record f {
  probe_ips = f.probe_ips ++ ip ∷ [];
  probe_rtts = f.probe_rtts ++ rtt ∷ [];
  probe_ok = f.probe_ok ++ true ∷ [];
  ip_hits = insert ip (lookup_or 0 ip f.ip_hits + 1) f.ip_hits;
  countries =
      if is_some (lookup ip f.countries) then f.countries else insert ip country f.countries;
  rtts = f.rtts ++ rtt ∷ [];
}

unfoldable pub fold_probes : Folded → List ProbeResult → Folded
fold_probes f [] = f
fold_probes f (r ∷ rs) = fold_probes (fold_probe f (outcome r)) rs

-- The loop over the distinct addresses of the sample that the session has not seen.
unfoldable pub count_new : List Addr → List Addr → ℕ → ℕ
unfolding clamp_uint8
count_new seen [] new_ips = new_ips
count_new seen (ip ∷ ips) new_ips =
    count_new seen ips (if contains seen ip then new_ips else clamp_uint8 (new_ips + 1))

-- The loop that looks for the address with most hits, with `PrimaryIP` and `bestHits`.
unfoldable pub best_hits : Map Addr ℕ → List Bool → List Addr → Addr × ℕ → Addr × ℕ
best_hits hits (ok ∷ oks) (ip ∷ ips) (primary, best) =
    let h = lookup_or 0 ip hits in
    best_hits hits oks ips (if ok && ltb best h then (ip, h) else (primary, best))
best_hits hits _ _ best = best

-- The loop of `joinProbeErrors` keeps the first of equal messages.
unfoldable pub unique_messages : List Text → List Text → List Text
unique_messages [] unique = unique
unique_messages (m ∷ ms) unique =
    unique_messages ms (if contains unique m then unique else unique ++ m ∷ [])

-- `strings.Join`.
unfoldable pub join : List Text → Text → Text
join [] sep = []
join (m ∷ []) sep = m
join (m ∷ n ∷ ms) sep = m ++ (sep ++ join (n ∷ ms) sep)

-- `for !utf8.ValidString(joined) { joined = joined[:len(joined)-1] }`, on the first `n` bytes.
unfoldable pub trim_invalid : ℕ → Text → Text
trim_invalid zero t = []
trim_invalid (suc n) t =
    let shorter = trim_invalid n t in
    if valid_string (take (suc n) t) then take (suc n) t else shorter

unfoldable pub cut_error : Text → Text
cut_error joined =
    if leb (length joined) max_sample_error then joined else trim_invalid max_sample_error joined

unfoldable pub join_probe_errors : List Text → Text
join_probe_errors messages =
    cut_error (to_valid_utf8 (join (unique_messages messages []) (codes "; ")))

-- The median of the sorted times; an even number of them has the middle of two, rounded down.
unfoldable pub median : List ℕ → ℕ
median rtts =
    let middle = length rtts / 2 in
    if (length rtts % 2) == 0
    then get_or rtts (middle - 1) 0 + (get_or rtts middle 0 - get_or rtts (middle - 1) 0) / 2
    else get_or rtts middle 0

-- The part of the sample that stands before the round-trip times are looked at.
unfoldable pub sample_of : ℕ → Folded → Addr → List Addr → Sample
sample_of attempted f previous seen =
    let primary = (best_hits f.ip_hits f.probe_ok f.probe_ips (invalid, 0)).0 in
    record {
      probes_attempted = clamp_uint8 attempted;
      probes_ok = clamp_uint8 (length f.rtts);
      primary_ip = primary;
      distinct_ips = clamp_uint8 (length f.ip_hits);
      ip_changed = is_valid previous && (is_valid primary && not (previous =? primary));
      new_ips = count_new seen (keys f.ip_hits) 0;
      rtt_min = 0;
      rtt_med = 0;
      rtt_max = 0;
      egress_country = if is_valid primary then lookup_or [] primary f.countries else [];
      probe_ips = f.probe_ips;
      probe_rtts = f.probe_rtts;
      probe_ok = f.probe_ok;
      ip_hits = f.ip_hits;
      error = [];
    }

-- The return with an error text, or with the times.
unfoldable pub finish_sample : Folded → Sample → Sample
finish_sample f s =
    if is_nil f.rtts
    then record s { error = join_probe_errors f.errors_in_order }
    else (let sorted = sort leb f.rtts in
        record s {
          rtt_min = get_or sorted 0 0;
          rtt_med = median sorted;
          rtt_max = get_or sorted (length sorted - 1) 0;
        })

unfoldable pub truncated : List ProbeResult → List ProbeResult
truncated results =
    if ltb max_uint8_value (length results) then take max_uint8_value results else results

unfoldable pub aggregate : List ProbeResult → Addr → List Addr → Sample
aggregate results previous seen =
    let rs = truncated results in
    let f = fold_probes nothing_folded rs in finish_sample f (sample_of (length rs) f previous seen)
