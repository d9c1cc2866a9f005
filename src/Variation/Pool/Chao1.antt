-- ===== src/Variation/Pool/Chao1.antt =====
-- The estimate of the pool's size.
use mathlib.Core.Bool.{true≢false, false≢true}
use native.Mathlib.Nat.{mul-div-le, lt-mul-div-succ}
use proxy_sampler.Prelude.{
  ℕ, ◌+◌, ◌-◌, ◌*◌, ◌/◌, ◌≤◌, ◌<◌, ◌≡◌, refl, subst, ◌↔◌, Bool, true, false, ◌||◌, ◌==◌, List, [],
  ◌∷◌, length, count, arith, Bool-cases, inl, inr,
}
use proxy_sampler.Variation.Pool.{chao1}

abbrev pub singletons : List ℕ → ℕ
singletons = count (λ f. f == 1)

abbrev pub doubletons : List ℕ → ℕ
doubletons = count (λ f. f == 2)

count-le : (p : ℕ → Bool) (xs : List ℕ) → length xs ≡ 0 → count p xs ≡ 0
count-le p [] h = refl
count-le p (x ∷ xs) h = absurd (omega arith)

-- The estimate is marked a lower bound exactly if no address was seen by two variants, and then it
-- is the number of observed addresses. Otherwise it exceeds that number by the greatest number
-- whose product with 2 f2 is at most f1 squared.
pub chao1_lem :
    (frequencies : List ℕ)
    → (let e = chao1 frequencies in
        let f1 = singletons frequencies in
        let f2 = doubletons frequencies in
        (e.observed ≡ length frequencies)
        × (e.observed ≤ e.estimate)
        × ((e.lower_bound ≡ true) ↔ (f2 ≡ 0))
        × (e.lower_bound ≡ true → e.estimate ≡ e.observed)
        × (e.lower_bound ≡ false
            → ((2 * f2) * (e.estimate - e.observed) ≤ f1 * f1)
              × (f1 * f1 < (2 * f2) * (e.estimate - e.observed + 1))))
unfolding chao1
chao1_lem frequencies =
    elim (Bool-cases ((length frequencies == 0) || (doubletons frequencies == 0))) [
      | inl e ↦
          let no_two : doubletons frequencies ≡ 0 =
            ground (arith, e, count-le (λ f. f == 2) frequencies) in
          rw e (
            refl,
            omega arith,
            ((λ _. no_two), (λ _. refl)),
            (λ _. refl),
            λ h. absurd (true≢false h),
          )
      | inr e ↦
          let some_two : 0 < 2 * doubletons frequencies = ground (arith, e) in
          let ones = singletons frequencies * singletons frequencies in
          let q : ℕ = ones / (2 * doubletons frequencies) in
          let same : q ≡ (length frequencies + q) - length frequencies = omega arith in
          rw e (
            refl,
            omega arith,
            ((λ h. absurd (false≢true h)), (λ h. absurd (omega arith))),
            (λ h. absurd (false≢true h)),
            λ _. (
              subst (λ k. (2 * doubletons frequencies) * k ≤ ones) same
                  (mul-div-le ones (2 * doubletons frequencies)),
              subst (λ k. ones < (2 * doubletons frequencies) * (k + 1)) same
                  (lt-mul-div-succ ones some_two),
            ),
          )
    ]
