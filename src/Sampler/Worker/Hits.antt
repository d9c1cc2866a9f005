-- ===== src/Sampler/Worker/Hits.antt =====
-- The addresses that a tick saves, and those that the session has seen.
use proxy_sampler.Prelude.{
  ℕ, ◌+◌, ◌≡◌, refl, sym, ap, subst, ◌∙◌, Bool, true, false, not, ◌&&◌, ◌||◌, List, [], ◌∷◌, ◌++◌,
  map, arith, length, map-append, All, All-append, count, contains, contains-add, add, add-Distinct,
  Distinct, keys, Map, lookup_or, ◌=?◌, sum_of, sum_of_same, count-sum_of, add_all, add_all-append,
  add_absent, length-add, if-cases, min,
}
use proxy_sampler.Go.Addr.{Addr, is_valid, unmap, addr_eq, unmap-unmap, is_valid-unmap}
use proxy_sampler.Go.Time.{Time}
use proxy_sampler.Session.{IpHit}
use proxy_sampler.Sampler.Aggregate.{ProbeResult, Sample, aggregate}
use proxy_sampler.Sampler.Aggregate.Folding.{total}
use proxy_sampler.Sampler.Aggregate.Bounds.{IsCounted, aggregate-IsCounted}
use proxy_sampler.Sampler.Aggregate.Keys.{valid_in, aggregate-keys}
use proxy_sampler.Sampler.Worker.{Found, find_ip, find_ips, found_in}

contains-add_all :
    (xs ys : List Addr) (a : Addr) → contains (add_all xs ys) a ≡ (contains xs a || contains ys a)
contains-add_all xs [] a = ground arith
contains-add_all xs (y ∷ ys) a =
    ground (arith, contains-add_all (add xs y) ys a, contains-add xs y a)

add_all-Distinct : (xs ys : List Addr) → Distinct xs → Distinct (add_all xs ys)
add_all-Distinct xs [] h = h
add_all-Distinct xs (y ∷ ys) h = add_all-Distinct (add xs y) ys (add-Distinct xs y h)

count-add :
    (xs ys : List Addr) (y : Addr)
    → contains ys y ≡ false
    → count (λ z. not (contains (add xs y) z)) ys ≡ count (λ z. not (contains xs z)) ys
count-add xs [] y h = refl
count-add xs (z ∷ ys) y h =
    ground (arith, count-add xs ys y, contains-add xs y z, addr_eq.beq_iff y z, addr_eq.beq_iff z y)

length-add_all :
    (xs ys : List Addr)
    → Distinct ys
    → length (add_all xs ys) ≡ length xs + count (λ z. not (contains xs z)) ys
length-add_all xs [] h = omega arith
length-add_all xs (y ∷ ys) h =
    ground (arith, length-add_all (add xs y) ys h.1, count-add xs ys y h.0, length-add xs y)

-- What the loop's variables hold.
record IsFound (now : Time) (ip_hits : Map Addr ℕ) (seen : List Addr) (f : Found) : Type 0 where
  pub listed : f.added ≡ map (λ h. h.ip) f.hits
  pub grown : f.next_seen ≡ add_all seen f.added
  pub distinct : Distinct f.added
  pub values :
      All
        (λ h.
          (h.seen_at ≡ now)
          × (h.hits ≡ lookup_or 0 h.ip ip_hits)
          × (is_valid h.ip ≡ true)
          × (unmap h.ip ≡ h.ip))
        f.hits

-- Whether a valid entry of the list is the address once unmapped.
abbrev pub unmapped_in : List Addr → Addr → Bool
unmapped_in [] a = false
unmapped_in (ip ∷ ips) a = (is_valid ip && (unmap ip =? a)) || unmapped_in ips a

find_ip-IsFound :
    (now : Time) (ip_hits : Map Addr ℕ) (seen : List Addr) (raw : Addr) (f : Found)
    → IsFound now ip_hits seen f
    → IsFound now ip_hits seen (find_ip now ip_hits raw f)
unfolding find_ip
find_ip-IsFound now ip_hits seen raw f v =
    if-cases (IsFound now ip_hits seen) (not (is_valid raw)) (λ _. v)
      (λ ok.
        if-cases (IsFound now ip_hits seen) (contains f.added (unmap raw)) (λ _. v)
          (λ fresh.
            let same : add f.added (unmap raw) ≡ f.added ++ unmap raw ∷ [] =
              add_absent f.added (unmap raw) fresh in
            record {
              listed =
                  same
                  ∙ ap (λ xs. xs ++ unmap raw ∷ []) v.listed
                  ∙ sym (map-append (λ (h : IpHit). h.ip) f.hits _);
              grown =
                  ap (λ xs. add xs (unmap raw)) v.grown
                  ∙ sym (ap (add_all seen) same ∙ add_all-append seen f.added (unmap raw ∷ []));
              distinct = add-Distinct f.added (unmap raw) v.distinct;
              values =
                  All-append _ f.hits _ v.values
                    ((refl, refl, is_valid-unmap raw ∙ ground arith, unmap-unmap raw), tt);
            }))

find_ip-added :
    (now : Time) (ip_hits : Map Addr ℕ) (raw : Addr) (f : Found) (a : Addr)
    → contains (find_ip now ip_hits raw f).added a
      ≡ (contains f.added a || (is_valid raw && (unmap raw =? a)))
unfolding find_ip
find_ip-added now ip_hits raw f a =
    ground (arith, contains-add f.added (unmap raw) a, addr_eq.beq_iff (unmap raw) a)

find_ips-IsFound :
    (now : Time) (ip_hits : Map Addr ℕ) (seen : List Addr) (ips : List Addr) (f : Found)
    → IsFound now ip_hits seen f
    → IsFound now ip_hits seen (find_ips now ip_hits ips f)
      × ((a : Addr)
          → contains (find_ips now ip_hits ips f).added a
            ≡ (contains f.added a || unmapped_in ips a))
unfolding find_ips
find_ips-IsFound now ip_hits seen [] f v = (v, λ a. ground arith)
find_ips-IsFound now ip_hits seen (raw ∷ ips) f v =
    let (w, m) =
      find_ips-IsFound now ip_hits seen ips (find_ip now ip_hits raw f)
        (find_ip-IsFound now ip_hits seen raw f v) in
    (w, λ a. ground (arith, m a, find_ip-added now ip_hits raw f a))

unmapped_in-same :
    (ips : List Addr) (a : Addr)
    → All (λ ip. unmap ip ≡ ip) ips
    → unmapped_in ips a ≡ valid_in ips a
unmapped_in-same [] a h = refl
unmapped_in-same (ip ∷ ips) a h =
    rw (unmapped_in-same ips a h.1) (ap (λ x. (is_valid ip && (x =? a)) || valid_in ips a) h.0)

sum-hits :
    (now : Time) (m : Map Addr ℕ) (hs : List IpHit)
    → All
        (λ h.
          (h.seen_at ≡ now)
          × (h.hits ≡ lookup_or 0 h.ip m)
          × (is_valid h.ip ≡ true)
          × (unmap h.ip ≡ h.ip))
        hs
    → sum_of (λ h. h.hits) hs ≡ sum_of (λ a. lookup_or 0 a m) (map (λ h. h.ip) hs)
sum-hits now m [] v = refl
sum-hits now m (h ∷ hs) v = omega (arith, sum-hits now m hs v.1, v.0.1)

lookup_absent :
    (m : Map Addr ℕ) (ip a : Addr) (n : ℕ) (as' : List Addr)
    → contains as' ip ≡ false
    → sum_of (λ a. lookup_or 0 a ((ip, n) ∷ m)) as' ≡ sum_of (λ a. lookup_or 0 a m) as'
lookup_absent m ip a n [] h = refl
lookup_absent m ip a n (b ∷ as') h =
    ground (arith, lookup_absent m ip a n as', addr_eq.beq_iff ip b, addr_eq.beq_iff b ip)

total-sum_of :
    (m : Map Addr ℕ) → Distinct (keys m) → total m ≡ sum_of (λ a. lookup_or 0 a m) (keys m)
total-sum_of [] d = refl
total-sum_of ((ip, n) ∷ m) d =
    ground (arith, total-sum_of m d.1, lookup_absent m ip ip n (keys m) d.0, addr_eq.beq_iff ip ip)

-- What a tick takes from its sample.
pub record IsTaken (now : Time) (seen : List Addr) (s : Sample) (f : Found) : Type 0 where
  pub once : Distinct (map (λ h. h.ip) f.hits)
  pub all_of : (a : Addr) → contains (map (λ h. h.ip) f.hits) a ≡ unmapped_in s.probe_ips a
  pub at : All (λ h. h.seen_at ≡ now) f.hits
  pub set : Distinct f.next_seen
  pub grown : (a : Addr) → contains f.next_seen a ≡ (contains seen a || unmapped_in s.probe_ips a)
  pub exact :
      All (λ ip. unmap ip ≡ ip) s.probe_ips
      → (sum_of (λ h. h.hits) f.hits ≡ s.probes_ok) × (length f.next_seen ≡ length seen + s.new_ips)

-- The addresses that a tick saves with its snapshot are each of the valid addresses that answered,
-- unmapped and once, seen at the time of the tick; the session's set of seen addresses grows by
-- exactly them. If the probes answer unmapped addresses, the hits of the saved addresses add up to
-- the successful probes, and the set grows by as many as the sample calls new.
pub found_in-IsTaken :
    (now : Time) (results : List ProbeResult) (previous : Addr) (seen : List Addr)
    → Distinct seen
    → (let s = aggregate results previous seen in IsTaken now seen s (found_in now s seen))
found_in-IsTaken now results previous seen d = record {
  once = subst Distinct v.listed v.distinct;
  all_of = same_ips;
  at = at_now (found_in now s seen).hits v.values;
  set = subst Distinct (sym v.grown) (add_all-Distinct seen f.added d);
  grown = λ a.
      ap (λ xs. contains xs a) v.grown
      ∙ contains-add_all seen f.added a
      ∙ ap (λ b. contains seen a || b) (m a);
  exact = λ u. (
    sum-hits now s.ip_hits f.hits v.values
        ∙ sum_of_same _ (map (λ h. h.ip) f.hits) (keys s.ip_hits)
            (subst Distinct v.listed v.distinct) known.1
            (λ a. same_ips a ∙ unmapped_in-same s.probe_ips a u ∙ sym (known.0 a))
        ∙ sym (total-sum_of s.ip_hits known.1)
        ∙ c.hit_total,
    ap length v.grown
        ∙ length-add_all seen f.added v.distinct
        ∙ ap (◌+◌ (length seen)) (
            count-sum_of _ f.added
            ∙ sum_of_same _ f.added (keys s.ip_hits) v.distinct known.1
                (λ a. m a ∙ unmapped_in-same s.probe_ips a u ∙ sym (known.0 a))
            ∙ sym (count-sum_of _ (keys s.ip_hits))
            ∙ sym c.new),
  );
}
  where
    s : Sample
    s = aggregate results previous seen

    f : Found
    f = found_in now s seen

    known :
        ((a : Addr) → contains (keys s.ip_hits) a ≡ valid_in s.probe_ips a)
        × Distinct (keys s.ip_hits)
    known = aggregate-keys results previous seen

    c : IsCounted seen s (min 255 (length results))
    c = aggregate-IsCounted results previous seen

    both :
        IsFound now s.ip_hits seen f × ((a : Addr) → contains f.added a ≡ unmapped_in s.probe_ips a)
    both =
        find_ips-IsFound now s.ip_hits seen s.probe_ips
          (record { next_seen = seen; hits = []; added = [] })
          (record { listed = refl; grown = refl; distinct = tt; values = tt })

    v : IsFound now s.ip_hits seen f
    v = both.0

    m : (a : Addr) → contains f.added a ≡ unmapped_in s.probe_ips a
    m = both.1

    same_ips : (a : Addr) → contains (map (λ h. h.ip) f.hits) a ≡ unmapped_in s.probe_ips a
    same_ips a = ap (λ xs. contains xs a) (sym v.listed) ∙ m a

    at_now :
        (hs : List IpHit)
        → All
            (λ h.
              (h.seen_at ≡ now)
              × (h.hits ≡ lookup_or 0 h.ip s.ip_hits)
              × (is_valid h.ip ≡ true)
              × (unmap h.ip ≡ h.ip))
            hs
        → All (λ h. h.seen_at ≡ now) hs
    at_now [] v = tt
    at_now (h ∷ hs) v = (v.0.0, at_now hs v.1)
