-- ===== src/Sampler/Aggregate/Bounds.antt =====
-- The counts of a sample, and its arrays.
use proxy_sampler.Prelude.{
  true, false, ◌<◌, ℕ, suc, ◌+◌, ◌≤◌, ◌≡◌, refl, sym, ap, ◌∙◌, Bool, not, List, [], ◌∷◌, arith,
  length, take, length-take, cut-take, length-map, count, count-le-length, contains, keys, Map, All,
  is_nil, Bool-cases, inl, inr, min,
}
use proxy_sampler.Go.Addr.{Addr, addr_eq}
use proxy_sampler.Sampler.Aggregate.{
  ProbeResult, outcome, Sample, Folded, nothing_folded, fold_probes, clamp_uint8, count_new,
  sample_of, finish_sample, truncated, aggregate,
}
use proxy_sampler.Sampler.Aggregate.Folding.{
  IsFolded, fold_probes-IsFolded, fold_probes-Arrays, total, ok_rtts, ok_of,
}

-- What the last step leaves alone holds of the sample if it holds before it.
pub finish_sample_cases {ℓ} :
    (P : Sample → Type ℓ) (f : Folded) (s : Sample)
    → ((e : List ℕ) → P (record s { error = e }))
    → ((a b c : ℕ) → P (record s { rtt_min = a; rtt_med = b; rtt_max = c }))
    → P (finish_sample f s)
unfolding finish_sample
finish_sample_cases P f s with_error with_times = elim (Bool-cases (is_nil f.rtts)) [
  | inl e ↦ rw (e, finish_sample) (with_error _)
  | inr e ↦ rw (e, finish_sample) (with_times _ _ _)
]

pub truncated-take : (rs : List ProbeResult) → truncated rs ≡ take 255 rs
unfolding truncated
truncated-take rs = cut-take 255 rs

length-truncated : (rs : List ProbeResult) → length (truncated rs) ≡ min 255 (length rs)
length-truncated rs = rw truncated-take (length-take 255 rs)

pub length_of_nil {ℓ} : {A : Type ℓ} (xs : List A) → is_nil xs ≡ true → length xs ≡ 0
length_of_nil [] h = refl
length_of_nil (x ∷ xs) h = cc

pub length_of_not_nil {ℓ} : {A : Type ℓ} (xs : List A) → is_nil xs ≡ false → 0 < length xs
length_of_not_nil [] h = cc
length_of_not_nil (x ∷ xs) h = omega arith

length-keys : (m : Map Addr ℕ) → length (keys m) ≡ length m
length-keys [] = refl
length-keys (e ∷ m) = ap suc (length-keys m)

length-le-total : (m : Map Addr ℕ) → All (λ e. 1 ≤ e.1) m → length m ≤ total m
length-le-total [] h = omega arith
length-le-total ((ip, n) ∷ m) h = omega (arith, length-le-total m h.1)

length-ok_rtts :
    (oks : List Bool) (rtts : List ℕ)
    → length rtts ≡ length oks
    → length (ok_rtts oks rtts) ≡ count (λ ok. ok) oks
length-ok_rtts [] rtts e = refl
length-ok_rtts (ok ∷ oks) [] e = absurd (omega arith)
length-ok_rtts (ok ∷ oks) (t ∷ rtts) e = ground (arith, length-ok_rtts oks rtts (omega arith))

-- No clamp is reached below 256 addresses.
count_new_lem :
    (seen ips : List Addr) (n : ℕ)
    → n + length ips ≤ 255
    → count_new seen ips n ≡ n + count (λ ip. not (contains seen ip)) ips
unfolding count_new clamp_uint8
count_new_lem seen [] n h = omega arith
count_new_lem seen (ip ∷ ips) n h =
    ground (arith, count_new_lem seen ips n, count_new_lem seen ips (n + 1))

-- The bookkeeping fields of a sample, of which the counts and the arrays speak.
pub record IsCounted (seen : List Addr) (s : Sample) (n : ℕ) : Type 0 where
  pub attempted : s.probes_attempted ≡ n
  pub attempted_bound : n ≤ 255
  pub succeeded : s.probes_ok ≡ count (λ ok. ok) s.probe_ok
  pub distinct : s.distinct_ips ≡ length (keys s.ip_hits)
  pub new : s.new_ips ≡ count (λ ip. not (contains seen ip)) (keys s.ip_hits)
  pub hit_total : total s.ip_hits ≡ s.probes_ok
  pub distinct_bound : s.distinct_ips ≤ s.probes_ok
  pub ok_bound : s.probes_ok ≤ s.probes_attempted
  pub oks : length s.probe_ok ≡ n
  pub ips : length s.probe_ips ≡ n
  pub rtts : length s.probe_rtts ≡ n

pub clamp_uint8_small : (n : ℕ) → n ≤ 255 → clamp_uint8 n ≡ n
unfolding clamp_uint8
clamp_uint8_small n h = ground arith

sample_of-IsCounted :
    (rs : List ProbeResult) (f : Folded) (previous : Addr) (seen : List Addr)
    → length rs ≤ 255
    → length f.probe_ok ≡ length rs
    → IsFolded f
    → IsCounted seen (sample_of (length rs) f previous seen) (length rs)
unfolding sample_of
sample_of-IsCounted rs f previous seen small same v =
    let times : length f.rtts ≡ count (λ ok. ok) f.probe_ok =
      ap length v.times ∙ length-ok_rtts f.probe_ok f.probe_rtts v.as_many_rtts in
    let some_ok : length f.rtts ≤ length rs =
      omega (arith, times, count-le-length (λ ok. ok) f.probe_ok, same) in
    let few : length f.ip_hits ≤ length f.rtts =
      omega (arith, length-le-total f.ip_hits v.positive, v.counted) in
    let ok_small = clamp_uint8_small (length f.rtts) (omega arith) in
    let ip_small = clamp_uint8_small (length f.ip_hits) (omega arith) in
    record {
      attempted = clamp_uint8_small (length rs) small;
      attempted_bound = small;
      succeeded = ok_small ∙ times;
      distinct = ip_small ∙ sym (length-keys f.ip_hits);
      new =
          count_new_lem seen (keys f.ip_hits) 0 (omega (arith, length-keys f.ip_hits))
          ∙ omega arith;
      hit_total = v.counted ∙ sym ok_small;
      distinct_bound = omega (arith, ok_small, ip_small, few);
      ok_bound = omega (arith, ok_small, clamp_uint8_small (length rs) small, some_ok);
      oks = same;
      ips = omega (arith, v.as_many_ips, same);
      rtts = omega (arith, v.as_many_rtts, same);
    }

-- At most 255 probes succeed.
pub few_rtts :
    (results : List ProbeResult)
    → length (fold_probes nothing_folded (truncated results)).rtts ≤ 255
few_rtts results =
    let rs = truncated results in
    let v = fold_probes-IsFolded rs in
    let f = fold_probes nothing_folded rs in
    omega (
      arith,
      ap length v.times,
      length-ok_rtts f.probe_ok f.probe_rtts v.as_many_rtts,
      count-le-length (λ ok. ok) f.probe_ok,
      ap length (fold_probes-Arrays rs).0,
      length-map (λ r. ok_of (outcome r)) rs,
      length-truncated results,
    )

-- The counts of a sample are exact: the probes attempted are the results, 255 at most; those that
-- succeeded are the true entries of `ProbeOK`, and the hits add up to them; the distinct addresses
-- are the keys of `IPHits`, and the new ones those among
-- them that the session has not seen; distinct ≤ succeeded ≤ attempted ≤ 255; and each of the three arrays
-- has one entry for each probe attempted.
pub aggregate-IsCounted :
    (results : List ProbeResult) (previous : Addr) (seen : List Addr)
    → IsCounted seen (aggregate results previous seen) (min 255 (length results))
unfolding aggregate
aggregate-IsCounted results previous seen = rw (← length-truncated results) (
    finish_sample_cases (λ s. IsCounted seen s (length rs)) f
      (sample_of (length rs) f previous seen) (λ e. assumption counted)
      (λ a b c. assumption counted))
  where
    rs : List ProbeResult
    rs = truncated results

    f : Folded
    f = fold_probes nothing_folded rs

    counted : IsCounted seen (sample_of (length rs) f previous seen) (length rs)
    counted =
        sample_of-IsCounted rs f previous seen (omega (arith, length-truncated results))
          (ap length (fold_probes-Arrays rs).0 ∙ length-map _ rs) (fold_probes-IsFolded rs)
