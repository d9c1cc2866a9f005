-- ===== src/Sampler/Aggregate/Keys.antt =====
-- The keys of `IPHits` are the valid addresses of the sample's array.
use proxy_sampler.Prelude.{
  ℕ, ◌+◌, ◌≡◌, refl, Bool, true, false, ◌&&◌, ◌||◌, List, [], ◌∷◌, ◌++◌, arith, length, contains,
  keys, Distinct, lookup_or, contains-keys-insert, ◌=?◌,
}
use proxy_sampler.Go.Addr.{Addr, invalid, is_valid, addr_eq}
use proxy_sampler.Sampler.Aggregate.{
  ProbeResult, Outcome, succeeded, failed, outcome, Folded, nothing_folded, fold_probe, fold_probes,
  sample_of, truncated, aggregate,
}
use proxy_sampler.Sampler.Aggregate.Folding.{fold_probes-IsFolded}
use proxy_sampler.Sampler.Aggregate.Bounds.{finish_sample_cases}

-- Whether a valid entry of the list is the address.
abbrev pub valid_in : List Addr → Addr → Bool
valid_in [] a = false
valid_in (ip ∷ ips) a = (is_valid ip && (ip =? a)) || valid_in ips a

valid_in-append :
    (ips : List Addr) (ip a : Addr)
    → valid_in (ips ++ ip ∷ []) a ≡ (valid_in ips a || (is_valid ip && (ip =? a)))
valid_in-append [] ip a = ground arith
valid_in-append (b ∷ ips) ip a = ground (arith, valid_in-append ips ip a)

abbrev Keyed : Folded → Type 0
Keyed f = (a : Addr) → contains (keys f.ip_hits) a ≡ valid_in f.probe_ips a

outcome-is_valid :
    (r : ProbeResult) (ip : Addr) (country : List ℕ) (rtt : ℕ)
    → outcome r ≡ succeeded ip country rtt
    → is_valid ip ≡ true
unfolding outcome
outcome-is_valid r ip country rtt h = ground arith

fold_probe-Keyed :
    (f : Folded) (o : Outcome)
    → ((ip : Addr) (country : List ℕ) (rtt : ℕ) → o ≡ succeeded ip country rtt → is_valid ip ≡ true)
    → Keyed f
    → Keyed (fold_probe f o)
unfolding fold_probe
fold_probe-Keyed f (failed message) g v a =
    ground (arith, v a, valid_in-append f.probe_ips invalid a)
fold_probe-Keyed f (succeeded ip country rtt) g v a = ground (
  arith,
  v a,
  g ip country rtt refl,
  valid_in-append f.probe_ips ip a,
  contains-keys-insert ip a (lookup_or 0 ip f.ip_hits + 1) f.ip_hits,
)

fold_probes-Keyed : (f : Folded) (rs : List ProbeResult) → Keyed f → Keyed (fold_probes f rs)
unfolding fold_probes
fold_probes-Keyed f [] v = v
fold_probes-Keyed f (r ∷ rs) v =
    fold_probes-Keyed (fold_probe f (outcome r)) rs
      (fold_probe-Keyed f (outcome r) (outcome-is_valid r) v)

pub aggregate-keys :
    (results : List ProbeResult) (previous : Addr) (seen : List Addr)
    → (let s = aggregate results previous seen in
        ((a : Addr) → contains (keys s.ip_hits) a ≡ valid_in s.probe_ips a)
        × Distinct (keys s.ip_hits))
unfolding aggregate sample_of
aggregate-keys results previous seen =
    finish_sample_cases
      (λ s.
        ((a : Addr) → contains (keys s.ip_hits) a ≡ valid_in s.probe_ips a)
        × Distinct (keys s.ip_hits))
      f (sample_of (length rs) f previous seen) (λ e. known) (λ a b c. known)
  where
    rs : List ProbeResult
    rs = truncated results

    f : Folded
    f = fold_probes nothing_folded rs

    known : Keyed f × Distinct (keys f.ip_hits)
    known = (fold_probes-Keyed nothing_folded rs (λ a. refl), (fold_probes-IsFolded rs).distinct)
