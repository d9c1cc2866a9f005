-- ===== src/Sampler/Aggregate/Times.antt =====
-- The round-trip times of a sample, against its arrays.
use proxy_sampler.Prelude.{
  ℕ, ◌-◌, ◌*◌, ◌/◌, ◌%◌, ◌≤◌, ◌<◌, ◌≡◌, ◌⊎◌, inl, inr, List, [], ◌∷◌, arith, length, leb, ◌==◌,
  count, All, get_or, sort, subst, length-sort, count-sort, sort-Sorted, All-of_sort, Sorted,
  Sorted-first, Sorted-last, get_or_mono, count-get_or, count-le-get_or, count-ge-get_or, is_nil,
  Bool-cases,
}
use proxy_sampler.Go.Addr.{Addr}
use proxy_sampler.Sampler.Aggregate.{
  ProbeResult, Sample, Folded, nothing_folded, fold_probes, median, sample_of, finish_sample,
  truncated, aggregate,
}
use proxy_sampler.Sampler.Aggregate.Folding.{IsFolded, fold_probes-IsFolded, ok_rtts}
use proxy_sampler.Sampler.Aggregate.Bounds.{clamp_uint8_small, few_rtts, length_of_nil}

-- A number is a median of the times if no more than half of them lie on either side of it.
pub record IsTimed (rtts : List ℕ) (least middle most : ℕ) : Type 0 where
  pub bounds : All (λ t. (least ≤ t) × (t ≤ most)) rtts
  pub ordered : (least ≤ middle) × (middle ≤ most)
  pub attained : (0 < count (λ t. t == least) rtts) × (0 < count (λ t. t == most) rtts)
  pub below : length rtts ≤ 2 * count (λ t. leb t middle) rtts
  pub above : length rtts ≤ 2 * count (λ t. leb middle t) rtts

All-both :
    (a b : ℕ) (xs : List ℕ)
    → All (λ t. a ≤ t) xs
    → All (λ t. t ≤ b) xs
    → All (λ t. (a ≤ t) × (t ≤ b)) xs
All-both a b [] h k = tt
All-both a b (x ∷ xs) h k = ((h.0, k.0), All-both a b xs h.1 k.1)

-- The median lies between the two middle entries; of an odd number of entries it is the middle.
median_middle :
    (xs : List ℕ)
    → Sorted xs
    → 0 < length xs
    → (get_or xs (length xs / 2) 0 ≡ median xs)
      ⊎ ((length xs % 2 ≡ 0)
          × (get_or xs (length xs / 2 - 1) 0 ≤ median xs)
          × (median xs ≤ get_or xs (length xs / 2) 0))
unfolding median
median_middle xs s h =
    ground
      (arith, get_or_mono xs (length xs / 2 - 1) (length xs / 2) 0 s (omega arith) (omega arith))

module _ (xs : List ℕ) (s : Sorted xs) (h : 0 < length xs) where
  median_ordered : (get_or xs 0 0 ≤ median xs) × (median xs ≤ get_or xs (length xs - 1) 0)
  median_ordered =
      let up = get_or_mono xs (length xs / 2) (length xs - 1) 0 s (omega arith) (omega arith) in
      let down = get_or_mono xs 0 (length xs / 2) 0 s (omega arith) (omega arith) in
      let down' = get_or_mono xs 0 (length xs / 2 - 1) 0 s (omega arith) (omega arith) in
      elim (median_middle xs s h) [ inl e ↦ omega arith | inr e ↦ omega arith ]

  median_below : length xs ≤ 2 * count (λ t. leb t (median xs)) xs
  median_below = elim (median_middle xs s h) [
    | inl e ↦
        omega (arith, count-le-get_or xs (length xs / 2) (median xs) s (omega arith) (omega arith))
    | inr (even, lo, hi) ↦
        omega (arith, count-le-get_or xs (length xs / 2 - 1) (median xs) s (omega arith) lo)
  ]

  median_above : length xs ≤ 2 * count (λ t. leb (median xs) t) xs
  median_above = elim (median_middle xs s h) [
    | inl e ↦
        omega (arith, count-ge-get_or xs (length xs / 2) (median xs) s (omega arith) (omega arith))
    | inr (even, lo, hi) ↦
        omega (arith, count-ge-get_or xs (length xs / 2) (median xs) s (omega arith) hi)
  ]

sorted-IsTimed :
    (rtts : List ℕ)
    → 0 < length rtts
    → let sorted = sort leb rtts in
      IsTimed rtts (get_or sorted 0 0) (median sorted) (get_or sorted (length sorted - 1) 0)
sorted-IsTimed rtts h =
    let xs = sort leb rtts in
    let s = sort-Sorted rtts in
    let same = length-sort leb rtts in
    let h' : 0 < length xs = omega (arith, same) in
    record {
      bounds = All-of_sort _ rtts (All-both _ _ xs (Sorted-first xs s) (Sorted-last xs s));
      ordered = median_ordered xs s h';
      attained = (
        omega (arith, count-get_or xs 0 h', count-sort leb (λ t. t == get_or xs 0 0) rtts),
        omega (
          arith,
          count-get_or xs (length xs - 1) (omega arith),
          count-sort leb (λ t. t == get_or xs (length xs - 1) 0) rtts,
        ),
      );
      below =
          omega (arith, same, median_below xs s h', count-sort leb (λ t. leb t (median xs)) rtts);
      above =
          omega (arith, same, median_above xs s h', count-sort leb (λ t. leb (median xs) t) rtts);
    }

abbrev TimedSample : Sample → Type 0
TimedSample s =
    0 < s.probes_ok → IsTimed (ok_rtts s.probe_ok s.probe_rtts) s.rtt_min s.rtt_med s.rtt_max

finish_sample-TimedSample :
    (f : Folded) (v : IsFolded f) (n : ℕ) (previous : Addr) (seen : List Addr)
    → length f.rtts ≤ 255
    → TimedSample (finish_sample f (sample_of n f previous seen))
unfolding finish_sample sample_of
finish_sample-TimedSample f v n previous seen few = elim (Bool-cases (is_nil f.rtts)) [
  | inl e ↦
      rw (e, finish_sample)
        (λ h. absurd (omega (arith, clamp_uint8_small (length f.rtts) few, length_of_nil f.rtts e)))
  | inr e ↦
      rw (e, finish_sample)
        (λ h.
          subst
            (λ rtts.
              IsTimed rtts (get_or (sort leb f.rtts) 0 0) (median (sort leb f.rtts))
                (get_or (sort leb f.rtts) (length (sort leb f.rtts) - 1) 0))
            v.times (sorted-IsTimed f.rtts (omega (arith, clamp_uint8_small (length f.rtts) few))))
]

-- If a probe succeeded, the times of a sample are those of its successful probes: `RTTMin` and
-- `RTTMax` are the least and the greatest of them, and `RTTMed` lies between and is a median, so
-- at least half of the times are at most, and at least half are at least, `RTTMed`.
pub aggregate-IsTimed :
    (results : List ProbeResult) (previous : Addr) (seen : List Addr)
    → let s = aggregate results previous seen in
      0 < s.probes_ok → IsTimed (ok_rtts s.probe_ok s.probe_rtts) s.rtt_min s.rtt_med s.rtt_max
unfolding aggregate
aggregate-IsTimed results previous seen =
    let rs = truncated results in
    finish_sample-TimedSample (fold_probes nothing_folded rs) (fold_probes-IsFolded rs) (length rs)
      previous seen (few_rtts results)
