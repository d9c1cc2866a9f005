-- ===== src/Sampler/Aggregate/Folding.antt =====
-- The first loop of `Aggregate`: what its variables hold behind any number of probes.
use proxy_sampler.Prelude.{
  ℕ, suc, ◌+◌, ◌≤◌, ◌≡◌, refl, Bool, true, false, ◌&&◌, List, [], ◌∷◌, ◌++◌, map, append_assoc,
  append-nil, arith, length, length-append, Distinct, keys, lookup_or, insert, ◌=?◌,
  lookup_or-insert, insert-Distinct, if◌then◌else◌, Map, All, sym, ◌∙◌,
}
use proxy_sampler.Go.Addr.{Addr, invalid, addr_eq, addr_beq_iff}
use proxy_sampler.Sampler.Aggregate.{
  ProbeResult, Outcome, succeeded, failed, outcome, Folded, nothing_folded, fold_probe, fold_probes,
}

-- The arrays of a sample, read together: how often an address answered, and the times of the
-- successful probes.
abbrev pub hits_at : Addr → List Bool → List Addr → ℕ
hits_at ip [] ips = 0
hits_at ip (ok ∷ oks) [] = 0
hits_at ip (ok ∷ oks) (a ∷ ips) =
    if ok && (a =? ip) then suc (hits_at ip oks ips) else hits_at ip oks ips

abbrev pub ok_rtts : List Bool → List ℕ → List ℕ
ok_rtts [] rtts = []
ok_rtts (ok ∷ oks) [] = []
ok_rtts (ok ∷ oks) (t ∷ rtts) = if ok then t ∷ ok_rtts oks rtts else ok_rtts oks rtts

abbrev pub total : Map Addr ℕ → ℕ
total [] = 0
total ((ip, n) ∷ m) = n + total m

pub record IsFolded (f : Folded) : Type 0 where
  pub as_many_ips : length f.probe_ips ≡ length f.probe_ok
  pub as_many_rtts : length f.probe_rtts ≡ length f.probe_ok
  pub times : f.rtts ≡ ok_rtts f.probe_ok f.probe_rtts
  pub distinct : Distinct (keys f.ip_hits)
  pub hits : (ip : Addr) → lookup_or 0 ip f.ip_hits ≡ hits_at ip f.probe_ok f.probe_ips
  pub counted : total f.ip_hits ≡ length f.rtts
  pub positive : All (λ e. 1 ≤ e.1) f.ip_hits

hits_at-append :
    (ip a : Addr) (ok : Bool) (oks : List Bool) (ips : List Addr)
    → length ips ≡ length oks
    → hits_at ip (oks ++ ok ∷ []) (ips ++ a ∷ [])
      ≡ (if ok && (a =? ip) then suc (hits_at ip oks ips) else hits_at ip oks ips)
hits_at-append ip a ok [] [] h = ground arith
hits_at-append ip a ok [] (b ∷ ips) h = absurd (omega arith)
hits_at-append ip a ok (o ∷ oks) [] h = absurd (omega arith)
hits_at-append ip a ok (o ∷ oks) (b ∷ ips) h =
    ground (arith, hits_at-append ip a ok oks ips (omega arith))

ok_rtts-append :
    (t : ℕ) (ok : Bool) (oks : List Bool) (rtts : List ℕ)
    → length rtts ≡ length oks
    → ok_rtts (oks ++ ok ∷ []) (rtts ++ t ∷ [])
      ≡ (if ok then ok_rtts oks rtts ++ t ∷ [] else ok_rtts oks rtts)
ok_rtts-append t ok [] [] h = ground arith
ok_rtts-append t ok [] (b ∷ ips) h = absurd (omega arith)
ok_rtts-append t ok (o ∷ oks) [] h = absurd (omega arith)
ok_rtts-append t ok (o ∷ oks) (b ∷ rtts) h =
    ground (arith, ok_rtts-append t ok oks rtts (omega arith))

total-insert :
    (ip : Addr) (m : Map Addr ℕ) → total (insert ip (lookup_or 0 ip m + 1) m) ≡ total m + 1
total-insert ip [] = omega arith
total-insert ip ((a, n) ∷ m) = ground (arith, total-insert ip m)

insert-positive :
    (ip : Addr) (n : ℕ) (m : Map Addr ℕ)
    → All (λ e. 1 ≤ e.1) m
    → All (λ e. 1 ≤ e.1) (insert ip (n + 1) m)
insert-positive ip n [] h = (omega arith, tt)
insert-positive ip n ((a, k) ∷ m) h = ground (arith, insert-positive ip n m h.1)

fold_probe-IsFolded : (f : Folded) (o : Outcome) → IsFolded f → IsFolded (fold_probe f o)
unfolding fold_probe
fold_probe-IsFolded f (failed message) v = record {
  as_many_ips = omega (
    arith,
    v.as_many_ips,
    length-append f.probe_ips (invalid ∷ []),
    length-append f.probe_ok (false ∷ []),
  );
  as_many_rtts = omega (
    arith,
    v.as_many_rtts,
    length-append f.probe_rtts (0 ∷ []),
    length-append f.probe_ok (false ∷ []),
  );
  times = ground (arith, v.times, ok_rtts-append 0 false f.probe_ok f.probe_rtts v.as_many_rtts);
  distinct = v.distinct;
  hits = λ ip.
      ground
        (arith, v.hits ip, hits_at-append ip invalid false f.probe_ok f.probe_ips v.as_many_ips);
  counted = v.counted;
  positive = v.positive;
}
fold_probe-IsFolded f (succeeded a country t) v = record {
  as_many_ips = omega (
    arith,
    v.as_many_ips,
    length-append f.probe_ips (a ∷ []),
    length-append f.probe_ok (true ∷ []),
  );
  as_many_rtts = omega (
    arith,
    v.as_many_rtts,
    length-append f.probe_rtts (t ∷ []),
    length-append f.probe_ok (true ∷ []),
  );
  times = ground (arith, v.times, ok_rtts-append t true f.probe_ok f.probe_rtts v.as_many_rtts);
  distinct = insert-Distinct a _ f.ip_hits v.distinct;
  hits = λ ip. ground (
    arith,
    v.hits ip,
    v.hits a,
    addr_beq_iff a ip,
    lookup_or-insert 0 a ip (lookup_or 0 a f.ip_hits + 1) f.ip_hits,
    hits_at-append ip a true f.probe_ok f.probe_ips v.as_many_ips,
  );
  counted = omega (arith, v.counted, total-insert a f.ip_hits, length-append f.rtts (t ∷ []));
  positive = insert-positive a _ f.ip_hits v.positive;
}

nothing_folded-IsFolded : IsFolded nothing_folded
nothing_folded-IsFolded = record {
  as_many_ips = refl;
  as_many_rtts = refl;
  times = refl;
  distinct = tt;
  hits = λ ip. refl;
  counted = refl;
  positive = tt;
}

fold_probes-keeps : (f : Folded) (rs : List ProbeResult) → IsFolded f → IsFolded (fold_probes f rs)
unfolding fold_probes
fold_probes-keeps f [] v = v
fold_probes-keeps f (r ∷ rs) v =
    fold_probes-keeps (fold_probe f (outcome r)) rs (fold_probe-IsFolded f (outcome r) v)

pub fold_probes-IsFolded : (rs : List ProbeResult) → IsFolded (fold_probes nothing_folded rs)
fold_probes-IsFolded rs = fold_probes-keeps nothing_folded rs nothing_folded-IsFolded

-- What one probe writes into its places of the arrays, and what it adds to the error texts.
abbrev pub ok_of : Outcome → Bool
ok_of (succeeded ip country rtt) = true
ok_of (failed message) = false

abbrev pub ip_of : Outcome → Addr
ip_of (succeeded ip country rtt) = ip
ip_of (failed message) = invalid

abbrev pub rtt_of : Outcome → ℕ
rtt_of (succeeded ip country rtt) = rtt
rtt_of (failed message) = 0

-- An array that grows by one entry for each probe is, at the end, the list of those entries.
fold_probes-map {ℓ} :
    {B : Type ℓ} (array : Folded → List B) (entry : Outcome → B)
    → ((f : Folded) (o : Outcome) → array (fold_probe f o) ≡ array f ++ entry o ∷ [])
    → (f : Folded) (rs : List ProbeResult)
    → array (fold_probes f rs) ≡ array f ++ map (λ r. entry (outcome r)) rs
unfolding fold_probes
fold_probes-map array entry grows f [] = sym (append-nil _)
fold_probes-map array entry grows f (r ∷ rs) =
    fold_probes-map array entry grows (fold_probe f (outcome r)) rs
    ∙ rw (grows f (outcome r)) (append_assoc (array f) _ _)

abbrev pub Arrays : Folded → List ProbeResult → Type 0
Arrays f rs =
    (f.probe_ok ≡ map (λ r. ok_of (outcome r)) rs)
    × (f.probe_ips ≡ map (λ r. ip_of (outcome r)) rs)
    × (f.probe_rtts ≡ map (λ r. rtt_of (outcome r)) rs)

pub fold_probes-Arrays : (rs : List ProbeResult) → Arrays (fold_probes nothing_folded rs) rs
unfolding fold_probe
fold_probes-Arrays rs = (
  fold_probes-map (λ f. f.probe_ok) ok_of (λ f. elim [ succeeded a c t ↦ refl | failed m ↦ refl ])
      nothing_folded rs,
  fold_probes-map (λ f. f.probe_ips) ip_of (λ f. elim [ succeeded a c t ↦ refl | failed m ↦ refl ])
      nothing_folded rs,
  fold_probes-map (λ f. f.probe_rtts) rtt_of
      (λ f. elim [ succeeded a c t ↦ refl | failed m ↦ refl ]) nothing_folded rs,
)
