-- ===== src/Enrich/Keys/Steps.antt =====
-- Registering and leaving, and what a reachable state keeps.
use proxy_sampler.Prelude.{
  ℕ, suc, ◌+◌, ◌-◌, ◌≡◌, refl, true, false, ◌==◌, ==_iff, List, [], ◌∷◌, ◌++◌, none, some, Map,
  keys, lookup, insert, delete, lookup-insert, insert-Distinct, lookup-delete, delete-Distinct,
  Distinct, nat_eq, count, All, All-map, Option-cases, Bool-cases, inl, inr, arith,
}
use proxy_sampler.Go.Addr.{Addr, addr_eq, addr_beq_iff}
use proxy_sampler.Enrich.Keys.{
  Key, Locks, new_key, put, register, release_key_reference, waiting, holding, leaving, Caller, at,
  Step, arrive, take_token, cancel, put_token, leave, Reach, idle, later,
}
use proxy_sampler.Enrich.Keys.Kept.{
  refers, holds, one_if, IsMapped, IsKept, new_locks-IsKept, count-between, All-between, count-none,
  count-holds-le, stage-IsKept, key-mapped, join-IsKept,
}

mapped-insert :
    (m : Map Addr ℕ) (ip : Addr) (k : ℕ)
    → lookup ip m ≡ none
    → (c : Caller) → IsMapped m c
    → IsMapped (insert ip k m) c
mapped-insert m ip k e c h = ground (arith, lookup-insert ip c.ip k m, addr_beq_iff ip c.ip)

-- The key that the next registration allocates has no caller.
next-unused : (l : Locks) (cs : List Caller) → IsKept l cs → count (refers l.next) cs ≡ 0
next-unused l cs kept =
    count-none l.keys l.next cs kept.mapped
      (λ ip h. let b = kept.bound ip l.next h in omega (arith, b))

fresh-IsKept :
    (l : Locks) (ip : Addr) (cs : List Caller)
    → lookup ip l.keys ≡ none
    → IsKept l cs
    → IsKept
        (record l {
          keys = insert ip l.next l.keys;
          heap = put l.next (record new_key { refs = 1 }) l.heap;
          next = suc l.next;
        })
        (at ip l.next waiting ∷ cs)
fresh-IsKept l ip cs e kept =
    let found = λ (i : Addr). lookup-insert ip i l.next l.keys in
    record {
      distinct = insert-Distinct ip l.next l.keys kept.distinct;
      counted = λ j. ground (arith, kept.counted j, next-unused l cs kept, ==_iff l.next j);
      single = λ j.
          ground (
            arith,
            kept.single j,
            next-unused l cs kept,
            count-holds-le l.next cs,
            ==_iff l.next j,
          );
      mapped = (
        ground (arith, found ip, addr_beq_iff ip ip),
        All-map _ _ (mapped-insert l.keys ip l.next e) cs kept.mapped,
      );
      bound = λ i j h. ground (arith, found i, kept.bound i j);
      used = λ i j h. ground (arith, found i, kept.used i j);
      separate = λ i j k h g. ground (
        arith,
        found i,
        found j,
        kept.bound i k,
        kept.bound j k,
        kept.separate i j k,
        addr_beq_iff ip i,
        addr_beq_iff ip j,
      );
    }

register-IsKept :
    (l : Locks) (ip : Addr) (cs : List Caller)
    → IsKept l cs
    → IsKept ((register ip l).0) (at ip ((register ip l).1) waiting ∷ cs)
unfolding register
register-IsKept l ip cs kept = elim (Option-cases (lookup ip l.keys)) [
  | inl e ↦ rw (e, register) (fresh-IsKept l ip cs e kept)
  | inr (k, e) ↦ rw (e, register) (join-IsKept l ip k cs e kept)
]

-- Callers stay in the map where the entry of another address goes.
mapped-delete :
    (m : Map Addr ℕ) (ip : Addr) (k : ℕ) (cs : List Caller)
    → Distinct (keys m)
    → lookup ip m ≡ some k
    → count (refers k) cs ≡ 0
    → All (IsMapped m) cs
    → All (IsMapped (delete ip m)) cs
mapped-delete m ip k [] d e n h = tt
mapped-delete m ip k (c ∷ cs) d e n h = (
  ground (arith, lookup-delete ip c.ip m d, addr_beq_iff ip c.ip, ==_iff c.key k),
  mapped-delete m ip k cs d e (ground arith) h.1,
)

same_key : (k : ℕ) → (k == k) ≡ true
same_key k = (==_iff k k).1 refl

abbrev left : ℕ → Locks → ℕ → Key
left k l = put k (record (l.heap k) { refs = (l.heap k).refs - 1 }) l.heap

module _ (l : Locks) (ip : Addr) (k : ℕ) (bs cs : List Caller)
    (kept : IsKept l (bs ++ at ip k leaving ∷ cs)) where
  found : lookup ip l.keys ≡ some k
  found = key-mapped l ip k leaving bs cs kept

  between :
      (j : ℕ)
      → count (refers j) (bs ++ at ip k leaving ∷ cs)
        ≡ one_if (k == j) + count (refers j) (bs ++ cs)
  between j = count-between (refers j) bs (at ip k leaving) cs

  rest : All (IsMapped l.keys) (bs ++ cs)
  rest = (All-between (IsMapped l.keys) bs (at ip k leaving) cs kept.mapped).1

  left-counted : (j : ℕ) → (left k l j).refs ≡ count (refers j) (bs ++ cs)
  left-counted j =
      ground (arith, kept.counted j, kept.counted k, between j, between k, ==_iff k j, ==_iff j k)

  left-single : (j : ℕ) → one_if (left k l j).token + count (holds j) (bs ++ cs) ≡ 1
  left-single j = ground (
    arith,
    kept.single j,
    kept.single k,
    count-between (holds j) bs (at ip k leaving) cs,
    ==_iff k j,
    ==_iff j k,
  )

  -- Others have the key.
  shared-IsKept :
      (((l.heap k).refs - 1) == 0) ≡ false → IsKept (record l { heap = left k l }) (bs ++ cs)
  shared-IsKept z = record {
    distinct = kept.distinct;
    counted = left-counted;
    single = left-single;
    mapped = rest;
    bound = kept.bound;
    used = λ i j h.
        ground
          (arith, kept.used i j h, between j, between k, kept.counted k, ==_iff k j, ==_iff j k);
    separate = kept.separate;
  }

  -- The last reference goes, and with it the entry.
  gone-IsKept :
      (((l.heap k).refs - 1) == 0) ≡ true
      → IsKept (record l { keys = delete ip l.keys; heap = left k l }) (bs ++ cs)
  gone-IsKept z =
      let looked = λ (i : Addr). lookup-delete ip i l.keys kept.distinct in
      record {
        distinct = delete-Distinct ip l.keys kept.distinct;
        counted = left-counted;
        single = left-single;
        mapped =
            mapped-delete l.keys ip k (bs ++ cs) kept.distinct found
              (ground (arith, kept.counted k, between k)) rest;
        bound = λ i j h. ground (arith, looked i, kept.bound i j);
        used = λ i j h. ground (
          arith,
          looked i,
          kept.used i j,
          kept.separate ip i k found,
          between j,
          ==_iff k j,
          addr_beq_iff ip i,
        );
        separate = λ i j m h g. ground (arith, looked i, looked j, kept.separate i j m);
      }

  leave-IsKept : IsKept (release_key_reference ip k l) (bs ++ cs)
  unfolding release_key_reference
  leave-IsKept = elim (Bool-cases (((l.heap k).refs - 1) == 0)) [
    | inl z ↦ rw (z, found, same_key k) (gone-IsKept z)
    | inr z ↦ rw (z) (shared-IsKept z)
  ]

Step-IsKept : {l m : Locks} {bs cs : List Caller} → Step l bs m cs → IsKept l bs → IsKept m cs
Step-IsKept {l} (arrive ip cs) kept = register-IsKept l ip cs kept
Step-IsKept {l} (take_token ip k bs cs e) kept =
    stage-IsKept l _ ip k waiting holding bs cs (λ j. ground (arith, ==_iff j k))
      (λ j. ground (arith, e, ==_iff j k, ==_iff k j)) kept
Step-IsKept {l} (cancel ip k bs cs) kept =
    stage-IsKept l l.heap ip k waiting leaving bs cs (λ j. refl) (λ j. ground arith) kept
Step-IsKept {l} (put_token ip k bs cs e) kept =
    stage-IsKept l _ ip k holding leaving bs cs (λ j. ground (arith, ==_iff j k))
      (λ j. ground (arith, e, ==_iff j k, ==_iff k j)) kept
Step-IsKept {l} (leave ip k bs cs) kept = leave-IsKept l ip k bs cs kept

pub Reach-IsKept : {l : Locks} {cs : List Caller} → Reach l cs → IsKept l cs
Reach-IsKept idle = new_locks-IsKept
Reach-IsKept (later r s) = Step-IsKept s (Reach-IsKept r)
