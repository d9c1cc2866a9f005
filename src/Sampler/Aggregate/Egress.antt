-- ===== src/Sampler/Aggregate/Egress.antt =====
-- The primary address of a sample, against its arrays.
use proxy_sampler.Prelude.{
  ℕ, ◌≤◌, ◌<◌, ◌≡◌, sym, ap, ◌∙◌, ◌⊎◌, inl, inr, true, false, List, arith, length, lookup_or, ltb,
  subst,
}
use proxy_sampler.Go.Addr.{Addr, invalid, addr_eq, is_valid}
use proxy_sampler.Sampler.Aggregate.{
  ProbeResult, Sample, Folded, nothing_folded, fold_probes, best_hits, sample_of, truncated,
  aggregate,
}
use proxy_sampler.Sampler.Aggregate.Folding.{
  IsFolded, fold_probes-IsFolded, fold_probes-Arrays, hits_at,
}
use proxy_sampler.Sampler.Aggregate.Primary.{
  ValidAt, first_at, best_hits-cases, best_hits-max, best_hits-first, best_hits-is_valid,
  outcomes-ValidAt, hits_at_of_ok, hits_at_of_none,
}
use proxy_sampler.Sampler.Aggregate.Bounds.{finish_sample_cases, clamp_uint8_small, few_rtts}

pub record IsPrimary (s : Sample) : Type 0 where
  pub hits : (ip : Addr) → lookup_or 0 ip s.ip_hits ≡ hits_at ip s.probe_ok s.probe_ips
  pub most : (ip : Addr) → lookup_or 0 ip s.ip_hits ≤ lookup_or 0 s.primary_ip s.ip_hits
  pub first :
      (ip : Addr)
      → 0 < lookup_or 0 ip s.ip_hits
      → lookup_or 0 ip s.ip_hits ≡ lookup_or 0 s.primary_ip s.ip_hits
      → first_at s.primary_ip s.probe_ok s.probe_ips ≤ first_at ip s.probe_ok s.probe_ips
  pub valid : is_valid s.primary_ip ≡ ltb 0 s.probes_ok

-- The same of the loop's variables and a pair that the second loop ends with.
module _ (f : Folded) (v : IsFolded f) (valid_at : ValidAt f.probe_ok f.probe_ips) where
  r : Addr × ℕ
  r = best_hits f.ip_hits f.probe_ok f.probe_ips (invalid, 0)

  cases : ((r.0 ≡ invalid) × (r.1 ≡ 0)) ⊎ ((0 < r.1) × (lookup_or 0 r.0 f.ip_hits ≡ r.1))
  unfolding r
  cases = best_hits-cases f.ip_hits f.probe_ok f.probe_ips invalid 0

  r_max : (ip : Addr) → lookup_or 0 ip f.ip_hits ≤ r.1
  unfolding r
  r_max ip = ground (arith, v.hits ip, best_hits-max f.ip_hits f.probe_ok f.probe_ips invalid 0 ip)

  r_most : (ip : Addr) → lookup_or 0 ip f.ip_hits ≤ lookup_or 0 r.0 f.ip_hits
  r_most ip = ground (arith, cases, r_max ip)

  r_first :
      (ip : Addr)
      → 0 < lookup_or 0 ip f.ip_hits
      → lookup_or 0 ip f.ip_hits ≡ lookup_or 0 r.0 f.ip_hits
      → first_at r.0 f.probe_ok f.probe_ips ≤ first_at ip f.probe_ok f.probe_ips
  r_first ip h e = elim cases [
    | inl none ↦ absurd (omega (arith, r_max ip))
    | inr found ↦
        unfold r in
        (best_hits-first f.ip_hits f.probe_ok f.probe_ips invalid 0 ip found.0 (e ∙ found.1))
  ]

  r_valid_of_some : 0 < length f.rtts → is_valid r.0 ≡ true
  r_valid_of_some h =
      let (ip, hit) =
        hits_at_of_ok f.probe_ok f.probe_ips f.probe_rtts v.as_many_ips
          (subst (λ t. 0 < length t) v.times h) in
      unfold r in
      (best_hits-is_valid f.ip_hits f.probe_ok f.probe_ips invalid 0 valid_at
        (λ z. absurd (omega arith)) (omega (arith, v.hits ip, r_max ip)))

  r_valid_of_none : length f.rtts ≡ 0 → is_valid r.0 ≡ false
  r_valid_of_none h = elim cases [
    | inl none ↦ rw none.0
    | inr found ↦ absurd (
        omega (
          arith,
          v.hits r.0,
          found.0,
          found.1,
          hits_at_of_none f.probe_ok f.probe_ips f.probe_rtts r.0 v.as_many_ips v.as_many_rtts
              (subst (λ t. length t ≡ 0) v.times h),
        ))
  ]

  r_valid : is_valid r.0 ≡ ltb 0 (length f.rtts)
  r_valid = ground (arith, r_valid_of_some, r_valid_of_none)

  sample_of-IsPrimary :
      (n : ℕ) (previous : Addr) (seen : List Addr)
      → length f.rtts ≤ 255
      → IsPrimary (sample_of n f previous seen)
  unfolding sample_of r
  sample_of-IsPrimary n previous seen h = record {
    hits = v.hits;
    most = r_most;
    first = r_first;
    valid = r_valid ∙ ap (ltb 0) (sym (clamp_uint8_small (length f.rtts) h));
  }

-- The primary address of a sample. `IPHits` counts the successes of each address in the arrays.
-- The primary address has as many hits as any other, and of those with as many it is the one that
-- answered first. It is a valid address exactly if some probe succeeded.
pub aggregate-IsPrimary :
    (results : List ProbeResult) (previous : Addr) (seen : List Addr)
    → IsPrimary (aggregate results previous seen)
unfolding aggregate
aggregate-IsPrimary results previous seen =
    finish_sample_cases IsPrimary f (sample_of (length rs) f previous seen)
      (λ e. record { hits = p.hits; most = p.most; first = p.first; valid = p.valid })
      (λ a b c. record { hits = p.hits; most = p.most; first = p.first; valid = p.valid })
  where
    rs : List ProbeResult
    rs = truncated results

    f : Folded
    f = fold_probes nothing_folded rs

    ready : ValidAt f.probe_ok f.probe_ips
    ready = let a = fold_probes-Arrays rs in rw (a.0, a.1) (outcomes-ValidAt rs)

    p : IsPrimary (sample_of (length rs) f previous seen)
    p =
        sample_of-IsPrimary f (fold_probes-IsFolded rs) ready (length rs) previous seen
          (few_rtts results)
