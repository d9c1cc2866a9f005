-- ===== src/Enrich/Keys/Exclusion.antt =====
-- Lookups of one address exclude each other, and the map holds the addresses in use.
use proxy_sampler.Prelude.{
  ℕ, ◌≤◌, ◌≡◌, refl, Bool, true, ◌==◌, ==_iff, ltb, List, [], ◌∷◌, none, some, Map, lookup, is_some,
  nat_eq, count, All, Option-cases, inl, inr, arith, ◌=?◌,
}
use proxy_sampler.Go.Addr.{Addr, addr_eq, addr_beq_iff}
use proxy_sampler.Enrich.Keys.{Locks, Caller, Reach}
use proxy_sampler.Enrich.Keys.Kept.{refers, holds, holds_address, IsMapped}
use proxy_sampler.Enrich.Keys.Steps.{Reach-IsKept}

-- The lookups of an address that have a reference.
abbrev pub stands_at : Addr → Caller → Bool
stands_at ip c = c.ip =? ip

-- Whether the key of an address is there to be taken. One that the map does not hold is made with
-- its token.
abbrev pub is_free : Addr → Locks → Bool
is_free ip l = elim (lookup ip l.keys) [ none ↦ true | some k ↦ (l.heap k).token ]

module _ (m : Map Addr ℕ) (ip : Addr) (k : ℕ) (e : lookup ip m ≡ some k)
    (separate : (i j : Addr) (k : ℕ) → lookup i m ≡ some k → lookup j m ≡ some k → i ≡ j) where
  same_place : (c : Caller) → IsMapped m c → (c.ip =? ip) ≡ (c.key == k)
  same_place c h = ground (arith, e, h, separate c.ip ip k, addr_beq_iff c.ip ip, ==_iff c.key k)

  count-stands_at :
      (cs : List Caller) → All (IsMapped m) cs → count (stands_at ip) cs ≡ count (refers k) cs
  count-stands_at [] h = refl
  count-stands_at (c ∷ cs) h = ground (arith, same_place c h.0, count-stands_at cs h.1)

  count-holds_address :
      (cs : List Caller) → All (IsMapped m) cs → count (holds_address ip) cs ≡ count (holds k) cs
  count-holds_address [] h = refl
  count-holds_address (c ∷ cs) h = ground (arith, same_place c h.0, count-holds_address cs h.1)

count-absent :
    (m : Map Addr ℕ) (ip : Addr) (cs : List Caller)
    → lookup ip m ≡ none
    → All (IsMapped m) cs
    → (count (stands_at ip) cs ≡ 0) × (count (holds_address ip) cs ≡ 0)
count-absent m ip [] e h = (refl, refl)
count-absent m ip (c ∷ cs) e h = ground (arith, count-absent m ip cs e h.1, addr_beq_iff c.ip ip)

-- However lookups interleave, at most one of them holds the key of an address. The token of an
-- address is there exactly where none of them holds it, and the map has an entry for an address
-- exactly where a lookup has a reference to its key.
pub Reach-holds_address :
    {l : Locks} {cs : List Caller}
    → Reach l cs
    → (ip : Addr)
    → (count (holds_address ip) cs ≤ 1)
      × (is_free ip l ≡ (count (holds_address ip) cs == 0))
      × (is_some (lookup ip l.keys) ≡ ltb 0 (count (stands_at ip) cs))
Reach-holds_address {l} {cs} r ip =
    let kept = Reach-IsKept r in
    elim (Option-cases (lookup ip l.keys)) [
      | inl e ↦ ground (arith, count-absent l.keys ip cs e kept.mapped)
      | inr (k, e) ↦
          let holders = count-holds_address l.keys ip k e kept.separate cs kept.mapped in
          let standing = count-stands_at l.keys ip k e kept.separate cs kept.mapped in
          ground (arith, kept.single k, kept.used ip k e)
    ]
