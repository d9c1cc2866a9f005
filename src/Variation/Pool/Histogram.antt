-- ===== src/Variation/Pool/Histogram.antt =====
-- The risk histogram counts each score in the bucket whose bounds hold it.
use proxy_sampler.Prelude.{
  ℕ, zero, suc, ◌+◌, ◌/◌, ◌≤◌, ◌<◌, ◌≡◌, refl, sym, ap, ◌∙◌, Bool, false, ◌&&◌, ltb, leb, ◌==◌,
  List, [], ◌∷◌, ◌++◌, count, count-append, arith, ℤ, pos, negsuc, Bool-cases, inl, inr,
  if◌then◌else◌,
}
use proxy_sampler.Variation.Pool.{RiskBucket, bucket_at, count_at, add_risk}

-- Whether a score lies in the bounds of a bucket.
abbrev pub in_bucket : ℕ → ℤ → Bool
in_bucket i (negsuc n) = false
in_bucket i (pos n) = leb (bucket_at i).min_score n && leb n (bucket_at i).max_score

-- The buckets from `i` on, each with how many of the scores lie in its bounds.
abbrev pub histogram_of : List ℤ → ℕ → ℕ → List RiskBucket
histogram_of scores zero i = []
histogram_of scores (suc n) i =
    record (bucket_at i) { count = count (in_bucket i) scores } ∷ histogram_of scores n (suc i)

-- A score outside the buckets' bounds changes none.
histogram_of-outside :
    (scores : List ℤ) (s : ℤ) (n i : ℕ)
    → ((k : ℕ) → i ≤ k → k < i + n → in_bucket k s ≡ false)
    → histogram_of (scores ++ s ∷ []) n i ≡ histogram_of scores n i
histogram_of-outside scores s zero i h = refl
histogram_of-outside scores s (suc n) i h =
    let same : count (in_bucket i) (scores ++ s ∷ []) ≡ count (in_bucket i) scores =
      count-append (in_bucket i) scores (s ∷ [])
      ∙ rw (h i (omega arith) (omega arith)) (omega arith) in
    ap (λ c. record (bucket_at i) { count = c } ∷ histogram_of (scores ++ s ∷ []) n (suc i)) same
    ∙ ap (λ bs. record (bucket_at i) { count = count (in_bucket i) scores } ∷ bs)
        (histogram_of-outside scores s n (suc i) (λ k a b. h k (omega arith) (omega arith)))

count_at-histogram_of :
    (scores : List ℤ) (s : ℤ) (n i j : ℕ)
    → ((k : ℕ) → i ≤ k → k < i + n → in_bucket k s ≡ (k == i + j))
    → count_at (histogram_of scores n i) j ≡ histogram_of (scores ++ s ∷ []) n i
count_at-histogram_of scores s zero i j h = refl
count_at-histogram_of scores s (suc n) i zero h =
    let here : count (in_bucket i) (scores ++ s ∷ []) ≡ count (in_bucket i) scores + 1 =
      count-append (in_bucket i) scores (s ∷ [])
      ∙ rw (h i (omega arith) (omega arith)) (ground arith) in
    ap (λ c. record (bucket_at i) { count = c } ∷ histogram_of scores n (suc i)) (sym here)
    ∙ ap (λ bs. record (bucket_at i) { count = count (in_bucket i) (scores ++ s ∷ []) } ∷ bs)
        (sym (
          histogram_of-outside scores s n (suc i)
            (λ k a b. h k (omega arith) (omega arith) ∙ ground arith)))
count_at-histogram_of scores s (suc n) i (suc j) h =
    let same : count (in_bucket i) (scores ++ s ∷ []) ≡ count (in_bucket i) scores =
      count-append (in_bucket i) scores (s ∷ [])
      ∙ rw (h i (omega arith) (omega arith)) (ground arith) in
    ap (λ c. record (bucket_at i) { count = c } ∷ count_at (histogram_of scores n (suc i)) j)
      (sym same)
    ∙ ap (λ bs. record (bucket_at i) { count = count (in_bucket i) (scores ++ s ∷ []) } ∷ bs)
        (count_at-histogram_of scores s n (suc i) j
          (λ k a b. h k (omega arith) (omega arith) ∙ ground arith))

pub add_risk-histogram_of :
    (scores : List ℤ) (s : ℤ)
    → add_risk (histogram_of scores 10 0) s ≡ histogram_of (scores ++ s ∷ []) 10 0
unfolding add_risk
add_risk-histogram_of scores (negsuc n) =
    sym (histogram_of-outside scores (negsuc n) 10 0 (λ k a b. refl))
add_risk-histogram_of scores (pos n) = elim (Bool-cases (ltb 100 n)) [
  | inl e ↦ rw e (sym (histogram_of-outside scores (pos n) 10 0 (λ k a b. ground (arith, e))))
  | inr e ↦ rw e (
      count_at-histogram_of scores (pos n) 10 0 (if (n / 10) == 10 then 9 else n / 10)
        (λ k a b. ground (arith, e)))
]
