-- ===== src/Variation/Pool/Tally.antt =====
-- The counts of a pool report, against its rows.
use proxy_sampler.Prelude.{
  ℕ, suc, ◌+◌, ◌≤◌, ◌≡◌, refl, sym, ap, ◌∙◌, Bool, true, List, [], ◌∷◌, ◌++◌, Option, none, some,
  Map, keys, lookup, contains, contains-keys, length, length-snoc, length-sort, count, count-append,
  sort, Text, All, All-sort, append-nil, arith, ℤ, nat_eq, Option-cases, inl, inr,
}
use proxy_sampler.Go.Addr.{Addr, addr_eq}
use proxy_sampler.Variation.Pool.{
  Composition, apply_composition, add_risk, IpObservation, IpRow, IpAccum, PoolReport, RiskBucket,
  empty_report, report_ip, report_ips, addr_leb, observe_all, build_pool,
}
use proxy_sampler.Variation.Pool.Rows.{IsPooled, report_ips-IsPooled}
use proxy_sampler.Variation.Pool.Histogram.{histogram_of, add_risk-histogram_of}

-- The scores of the rows that have one.
abbrev pub scores_of : List IpRow → List ℤ
scores_of [] = []
scores_of (r ∷ rs) = elim r.risk_score [ none ↦ scores_of rs | some s ↦ s ∷ scores_of rs ]

abbrev pub all_in : Composition → ℕ
all_in c = c.mobile + (c.residential + (c.datacenter + c.unknown))

pub record IsTallied (r : PoolReport) : Type 0 where
  pub as_many : length r.frequencies ≡ length r.ips
  pub composed : all_in r.composition ≡ length r.ips
  pub histogram : r.risk_histogram ≡ histogram_of (scores_of r.ips) 10 0
  pub flagged : r.flagged_ips ≤ length r.ips
  pub dnsbl : r.dnsbl_hit_ips ≡ count (λ row. row.dnsbl_listed) r.ips

scores_of-append :
    (rows : List IpRow) (row : IpRow)
    → scores_of (rows ++ row ∷ []) ≡ scores_of rows ++ scores_of (row ∷ [])
scores_of-append [] row = refl
scores_of-append (r ∷ rows) row = ground (arith, scores_of-append rows row)

pub apply_composition-all_in :
    (c : Composition) (t : List ℕ) → all_in (apply_composition c t) ≡ all_in c + 1
unfolding apply_composition
apply_composition-all_in c t = ground arith

report_ip-histogram :
    (r : PoolReport) (a : IpAccum)
    → r.risk_histogram ≡ histogram_of (scores_of r.ips) 10 0
    → (report_ip r a).risk_histogram ≡ histogram_of (scores_of (r.ips ++ a.row ∷ [])) 10 0
unfolding report_ip
report_ip-histogram r a h =
    go a.row.risk_score ∙ ap (λ ss. histogram_of ss 10 0) (sym (scores_of-append r.ips a.row))
  where
    go :
        (score : Option ℤ)
        → (elim score as (λ _. List RiskBucket) [
          | none ↦ r.risk_histogram
          | some s ↦ add_risk r.risk_histogram s
        ])
          ≡ histogram_of
              (scores_of r.ips ++ (elim score as (λ _. List ℤ) [ none ↦ [] | some s ↦ s ∷ [] ]))
              10
              0
    go none = h ∙ ap (λ ss. histogram_of ss 10 0) (sym (append-nil (scores_of r.ips)))
    go (some s) = ap (λ b. add_risk b s) h ∙ add_risk-histogram_of (scores_of r.ips) s

report_ip-IsTallied : (r : PoolReport) (a : IpAccum) → IsTallied r → IsTallied (report_ip r a)
unfolding report_ip
report_ip-IsTallied r a v = record {
  as_many = length-snoc r.frequencies _ ∙ ap suc v.as_many ∙ sym (length-snoc r.ips a.row);
  composed =
      apply_composition-all_in r.composition a.row.category
      ∙ omega (arith, v.composed, length-snoc r.ips a.row);
  histogram = report_ip-histogram r a v.histogram;
  flagged = ground (arith, v.flagged, length-snoc r.ips a.row);
  dnsbl =
      ground (arith, v.dnsbl, count-append (λ (row : IpRow). row.dnsbl_listed) r.ips (a.row ∷ []));
}

report_ips-IsTallied :
    (r : PoolReport) (names : List Addr) (m : Map Addr IpAccum)
    → All (λ ip. contains (keys m) ip ≡ true) names
    → IsTallied r
    → IsTallied (report_ips r names m)
      × (length (report_ips r names m).ips ≡ length r.ips + length names)
unfolding report_ips
report_ips-IsTallied r [] m k v = (v, omega arith)
report_ips-IsTallied r (ip ∷ names) m k v = elim (Option-cases (lookup ip m)) [
  | inl e ↦ absurd (ground (arith, e, k.0, contains-keys ip m))
  | inr (a, e) ↦
      let (w, l) = report_ips-IsTallied (report_ip r a) names m k.1 (report_ip-IsTallied r a v) in
      let longer : length (report_ip r a).ips ≡ suc (length r.ips) =
        unfold report_ip in (length-snoc r.ips a.row) in
      rw (report_ips, e) (w, omega (arith, l, longer))
]

keys-known :
    (names more : List Addr)
    → ((ip : Addr) → contains names ip ≡ true → contains more ip ≡ true)
    → All (λ ip. contains more ip ≡ true) names
keys-known [] more h = tt
keys-known (ip ∷ names) more h = (
  h ip (ground (arith, addr_eq.beq_iff ip ip)),
  keys-known names more (λ j c. h j (ground (arith, c))),
)

length-keys : (m : Map Addr IpAccum) → length (keys m) ≡ length m
length-keys [] = refl
length-keys (e ∷ m) = ap suc (length-keys m)

-- Whatever was observed, a pool report has one row for each observed address and no other, as many
-- as it says, and its counts agree with the rows: as many frequencies, composition counts that add
-- up to the rows, each bucket of the risk histogram counting exactly the scores of the rows within
-- its bounds, no more flagged addresses than rows, and as many DNSBL hits as rows that are listed.
pub build_pool-IsTallied :
    (equal_fold : Text → Text → Bool) (observations : List IpObservation)
    → (let report = build_pool equal_fold observations in
        IsPooled observations report.0.ips
        × IsTallied report.0
        × (length report.0.ips ≡ report.1.0))
unfolding build_pool
build_pool-IsTallied equal_fold observations =
    let m = observe_all equal_fold [] observations in
    let known = All-sort addr_leb _ (keys m) (keys-known (keys m) (keys m) (λ ip c. c)) in
    let (v, l) = report_ips-IsTallied empty_report (sort addr_leb (keys m)) m known (record {
      as_many = refl;
      composed = refl;
      histogram = refl;
      flagged = omega arith;
      dnsbl = refl;
    }) in
    (
      report_ips-IsPooled equal_fold observations known,
      v,
      omega (arith, l, length-sort addr_leb (keys m), length-keys m),
    )
