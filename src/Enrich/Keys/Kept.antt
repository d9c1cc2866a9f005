-- ===== src/Enrich/Keys/Kept.antt =====
-- What every step of the lookups keeps of the locks.
use proxy_sampler.Prelude.{
  ℕ, suc, ◌+◌, ◌≤◌, ◌<◌, ◌≡◌, refl, sym, ap, ◌∙◌, subst, Bool, true, false, ◌==◌, ◌&&◌, ==_iff,
  List, [], ◌∷◌, ◌++◌, some, Map, keys, lookup, Distinct, nat_eq, count, count-append, All,
  Bool-cases, inl, inr, arith, ◌=?◌,
}
use proxy_sampler.Go.Addr.{Addr, addr_eq}
use proxy_sampler.Enrich.Keys.{
  Key, Locks, new_locks, put, Stage, waiting, holding, leaving, Caller, at,
}

abbrev pub refers : ℕ → Caller → Bool
refers k c = c.key == k

abbrev pub is_holding : Stage → Bool
is_holding waiting = false
is_holding holding = true
is_holding leaving = false

abbrev pub holds : ℕ → Caller → Bool
holds k c = (c.key == k) && is_holding c.stage

abbrev pub holds_address : Addr → Caller → Bool
holds_address ip c = (c.ip =? ip) && is_holding c.stage

abbrev pub one_if : Bool → ℕ
one_if true = 1
one_if false = 0

abbrev pub IsMapped : Map Addr ℕ → Caller → Type 0
IsMapped m c = lookup c.ip m ≡ some c.key

pub record IsKept (l : Locks) (cs : List Caller) : Type 0 where
  pub distinct : Distinct (keys l.keys)
  pub counted : (k : ℕ) → (l.heap k).refs ≡ count (refers k) cs
  pub single : (k : ℕ) → one_if (l.heap k).token + count (holds k) cs ≡ 1
  pub mapped : All (IsMapped l.keys) cs
  pub bound : (ip : Addr) (k : ℕ) → lookup ip l.keys ≡ some k → k < l.next
  pub used : (ip : Addr) (k : ℕ) → lookup ip l.keys ≡ some k → 1 ≤ count (refers k) cs
  pub separate : (i j : Addr) (k : ℕ) → lookup i l.keys ≡ some k → lookup j l.keys ≡ some k → i ≡ j

pub new_locks-IsKept : IsKept new_locks []
new_locks-IsKept = record {
  distinct = tt;
  counted = λ k. refl;
  single = λ k. refl;
  mapped = tt;
  bound = λ ip k h. absurd (cc);
  used = λ ip k h. absurd (cc);
  separate = λ i j k h g. absurd (cc);
}

-- A count over a list in which one caller stands between others.
pub count-between :
    (p : Caller → Bool) (bs : List Caller) (c : Caller) (cs : List Caller)
    → count p (bs ++ c ∷ cs) ≡ one_if (p c) + count p (bs ++ cs)
count-between p bs c cs = ground (arith, count-append p bs (c ∷ cs), count-append p bs cs)

pub All-between :
    (P : Caller → Type 0) (bs : List Caller) (c : Caller) (cs : List Caller)
    → All P (bs ++ c ∷ cs)
    → P c × All P (bs ++ cs)
All-between P [] c cs h = h
All-between P (b ∷ bs) c cs h = let r = All-between P bs c cs h.1 in (r.0, (h.0, r.1))

All-insert :
    (P : Caller → Type 0) (bs : List Caller) (c : Caller) (cs : List Caller)
    → P c
    → All P (bs ++ cs)
    → All P (bs ++ c ∷ cs)
All-insert P [] c cs p h = (p, h)
All-insert P (b ∷ bs) c cs p h = (h.0, All-insert P bs c cs p h.1)

-- A key that no entry of the map points to has no caller.
pub count-none :
    (m : Map Addr ℕ) (k : ℕ) (cs : List Caller)
    → All (IsMapped m) cs
    → ((ip : Addr) → lookup ip m ≡ some k → 1 ≤ 0)
    → count (refers k) cs ≡ 0
count-none m k [] h f = refl
count-none m k (c ∷ cs) h f = elim (Bool-cases (c.key == k)) [
  | inl e ↦ absurd (let g = f c.ip (h.0 ∙ ap some ((==_iff c.key k).0 e)) in omega (arith, g))
  | inr e ↦ ground (arith, e, count-none m k cs h.1 f)
]

pub count-holds-le : (k : ℕ) (cs : List Caller) → count (holds k) cs ≤ count (refers k) cs
count-holds-le k [] = omega arith
count-holds-le k (c ∷ cs) = ground (arith, count-holds-le k cs)

-- A change of one caller's stage, with what it does to the tokens.
pub stage-IsKept :
    (l : Locks) (heap : ℕ → Key) (ip : Addr) (k : ℕ) (s t : Stage) (bs cs : List Caller)
    → ((j : ℕ) → (heap j).refs ≡ (l.heap j).refs)
    → ((j : ℕ)
        → one_if (heap j).token + one_if ((k == j) && is_holding t)
          ≡ one_if (l.heap j).token + one_if ((k == j) && is_holding s))
    → IsKept l (bs ++ at ip k s ∷ cs)
    → IsKept (record l { heap = heap }) (bs ++ at ip k t ∷ cs)
stage-IsKept l heap ip k s t bs cs refs tokens kept =
    let same = λ (j : ℕ).
      count-between (refers j) bs (at ip k s) cs
      ∙ sym (count-between (refers j) bs (at ip k t) cs) in
    let r = All-between (IsMapped l.keys) bs (at ip k s) cs kept.mapped in
    record {
      distinct = kept.distinct;
      counted = λ j. refs j ∙ kept.counted j ∙ same j;
      single = λ j. omega (
        arith,
        kept.single j,
        tokens j,
        count-between (holds j) bs (at ip k s) cs,
        count-between (holds j) bs (at ip k t) cs,
      );
      mapped = All-insert (IsMapped l.keys) bs (at ip k t) cs r.0 r.1;
      bound = kept.bound;
      used = λ i j h. subst (λ n. 1 ≤ n) (same j) (kept.used i j h);
      separate = kept.separate;
    }

-- The key of a caller who stands in the list.
pub key-mapped :
    (l : Locks) (ip : Addr) (k : ℕ) (s : Stage) (bs cs : List Caller)
    → IsKept l (bs ++ at ip k s ∷ cs)
    → lookup ip l.keys ≡ some k
key-mapped l ip k s bs cs kept = (All-between (IsMapped l.keys) bs (at ip k s) cs kept.mapped).0

-- A caller joins those of a key that the map has.
pub join-IsKept :
    (l : Locks) (ip : Addr) (k : ℕ) (cs : List Caller)
    → lookup ip l.keys ≡ some k
    → IsKept l cs
    → IsKept
        (record l { heap = put k (record (l.heap k) { refs = suc (l.heap k).refs }) l.heap })
        (at ip k waiting ∷ cs)
join-IsKept l ip k cs e kept = record {
  distinct = kept.distinct;
  counted = λ j. ground (arith, kept.counted j, kept.counted k, ==_iff k j, ==_iff j k);
  single = λ j. ground (arith, kept.single j, kept.single k);
  mapped = (e, kept.mapped);
  bound = kept.bound;
  used = λ i j h. ground (arith, kept.used i j h);
  separate = kept.separate;
}
