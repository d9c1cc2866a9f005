-- ===== src/Variation/Pool/Rows.antt =====
-- The rows of a pool report are those of the observed addresses.
use proxy_sampler.Prelude.{
  ◌≡◌, refl, sym, ap, ◌∙◌, subst, Bool, true, false, ◌||◌, List, [], ◌∷◌, ◌++◌, map, map-append,
  append-nil, append_assoc, some, Text, Map, keys, lookup, insert, lookup-insert, contains,
  contains-keys, Distinct, sort, insert_sorted, All, ◌=?◌, Option-cases, inl, inr, arith,
}
use proxy_sampler.Go.Addr.{Addr, addr_eq}
use proxy_sampler.Variation.Pool.{
  IpObservation, IpRow, IpAccum, PoolReport, new_ip_row, merge_observation, addr_leb, empty_report,
  report_ip, report_ips, new_accum, observe, observe_all,
}
use proxy_sampler.Variation.Pool.Sessions.{saw, observe_all-IsSeen}

abbrev pub row_ip : IpRow → Addr
row_ip row = row.ip

-- One row for each observed address, and no other.
abbrev pub IsPooled : List IpObservation → List IpRow → Type 0
IsPooled os rows =
    Distinct (map row_ip rows) × ((ip : Addr) → contains (map row_ip rows) ip ≡ saw os ip)

-- The row that the map holds for an address is of that address.
abbrev IsKeyed : Map Addr IpAccum → Type 0
IsKeyed m = (ip : Addr) (a : IpAccum) → lookup ip m ≡ some a → a.row.ip ≡ ip

new_ip_row-ip : (o : IpObservation) → (new_ip_row o).ip ≡ o.ip
unfolding new_ip_row
new_ip_row-ip o = ground arith

insert-IsKeyed :
    (m : Map Addr IpAccum) (ip : Addr) (a : IpAccum)
    → a.row.ip ≡ ip
    → IsKeyed m
    → IsKeyed (insert ip a m)
insert-IsKeyed m ip a e k j b h =
    ground (arith, lookup-insert ip j a m, addr_eq.beq_iff ip j, k j b)

merged-ip : (a : IpAccum) (o : IpObservation) → (merge_observation a o).row.ip ≡ a.row.ip
unfolding merge_observation
merged-ip a o = refl

observe-IsKeyed :
    (equal_fold : Text → Text → Bool) (m : Map Addr IpAccum) (o : IpObservation)
    → IsKeyed m
    → IsKeyed (observe equal_fold m o)
unfolding observe
observe-IsKeyed equal_fold m o k = elim (Option-cases (lookup o.ip m)) [
  | inl e ↦
      subst IsKeyed (sym (ground (arith, e)))
        (insert-IsKeyed m o.ip (new_accum equal_fold o) (new_ip_row-ip o) k)
  | inr (a, e) ↦
      subst IsKeyed (sym (ground (arith, e)))
        (insert-IsKeyed m o.ip (merge_observation a o) (merged-ip a o ∙ k o.ip a e) k)
]

observe_all-IsKeyed :
    (equal_fold : Text → Text → Bool) (os : List IpObservation) (m : Map Addr IpAccum)
    → IsKeyed m
    → IsKeyed (observe_all equal_fold m os)
unfolding observe_all
observe_all-IsKeyed equal_fold [] m k = k
observe_all-IsKeyed equal_fold (o ∷ os) m k =
    observe_all-IsKeyed equal_fold os (observe equal_fold m o) (observe-IsKeyed equal_fold m o k)

report_ips-rows :
    (r : PoolReport) (names : List Addr) (m : Map Addr IpAccum)
    → All (λ ip. contains (keys m) ip ≡ true) names
    → IsKeyed m
    → map row_ip (report_ips r names m).ips ≡ map row_ip r.ips ++ names
unfolding report_ips report_ip
report_ips-rows r [] m h k = sym (append-nil (map row_ip r.ips))
report_ips-rows r (ip ∷ names) m h k = elim (Option-cases (lookup ip m)) [
  | inl e ↦ absurd (ground (arith, e, h.0, contains-keys ip m))
  | inr (a, e) ↦
      let one : (a.row.ip ∷ []) ≡ (ip ∷ []) = ap (λ j. j ∷ []) (k ip a e) in
      rw (report_ips, e)
        (report_ips-rows (report_ip r a) names m h.1 k
          ∙ ap (λ l. l ++ names) (map-append row_ip r.ips (a.row ∷ []))
          ∙ append_assoc (map row_ip r.ips) (a.row.ip ∷ []) names
          ∙ ap (λ l. map row_ip r.ips ++ (l ++ names)) one)
]

contains-insert_sorted :
    (a b : Addr) (xs : List Addr)
    → contains (insert_sorted addr_leb a xs) b ≡ ((a =? b) || contains xs b)
contains-insert_sorted a b [] = refl
contains-insert_sorted a b (x ∷ xs) = ground (arith, contains-insert_sorted a b xs)

contains-sort : (b : Addr) (xs : List Addr) → contains (sort addr_leb xs) b ≡ contains xs b
contains-sort b [] = refl
contains-sort b (x ∷ xs) =
    contains-insert_sorted x b (sort addr_leb xs) ∙ ground (arith, contains-sort b xs)

insert_sorted-Distinct :
    (a : Addr) (xs : List Addr)
    → contains xs a ≡ false
    → Distinct xs
    → Distinct (insert_sorted addr_leb a xs)
insert_sorted-Distinct a [] h d = (refl, tt)
insert_sorted-Distinct a (x ∷ xs) h d = ground (
  arith,
  insert_sorted-Distinct a xs,
  contains-insert_sorted a x xs,
  addr_eq.beq_iff a x,
  addr_eq.beq_iff x a,
)

sort-Distinct : (xs : List Addr) → Distinct xs → Distinct (sort addr_leb xs)
sort-Distinct [] d = tt
sort-Distinct (x ∷ xs) d =
    insert_sorted-Distinct x (sort addr_leb xs) (contains-sort x xs ∙ d.0) (sort-Distinct xs d.1)

pub report_ips-IsPooled :
    (equal_fold : Text → Text → Bool) (os : List IpObservation)
    → (let m = observe_all equal_fold [] os in
        All (λ ip. contains (keys m) ip ≡ true) (sort addr_leb (keys m))
        → IsPooled os (report_ips empty_report (sort addr_leb (keys m)) m).ips)
report_ips-IsPooled equal_fold os known =
    let m = observe_all equal_fold [] os in
    let (distinct, seen, _, _) = observe_all-IsSeen equal_fold os in
    let rows =
      report_ips-rows empty_report (sort addr_leb (keys m)) m known
        (observe_all-IsKeyed equal_fold os [] (λ ip a h. absurd (cc))) in
    (
      subst Distinct (sym rows) (sort-Distinct (keys m) distinct),
      (λ ip. ap (λ l. contains l ip) rows ∙ contains-sort ip (keys m) ∙ seen ip),
    )
