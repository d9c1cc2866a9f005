-- ===== src/Sampler/Aggregate/Primary.antt =====
-- The second loop of `Aggregate`: the primary address is the first among those with most hits.
use proxy_sampler.Prelude.{
  ℕ, suc, ◌≤◌, ◌<◌, ◌≡◌, refl, ◌⊎◌, inl, inr, Bool, true, false, ◌&&◌, List, [], ◌∷◌, map, arith,
  lookup_or, ◌=?◌, if◌then◌else◌, ltb, Map, length, Bool-cases,
}
use proxy_sampler.Go.Addr.{Addr, addr_eq, addr_beq_iff, is_valid}
use proxy_sampler.Sampler.Aggregate.{ProbeResult, outcome, best_hits}
use proxy_sampler.Sampler.Aggregate.Folding.{hits_at, ok_rtts, ok_of, ip_of}

-- The place of an address's first success.
abbrev pub first_at : Addr → List Bool → List Addr → ℕ
first_at ip [] ips = 0
first_at ip (ok ∷ oks) [] = 0
first_at ip (ok ∷ oks) (a ∷ ips) = if ok && (a =? ip) then 0 else suc (first_at ip oks ips)

abbrev pub ValidAt : List Bool → List Addr → Type 0
ValidAt [] ips = Unit
ValidAt (ok ∷ oks) [] = Unit
ValidAt (ok ∷ oks) (a ∷ ips) = (ok ≡ true → is_valid a ≡ true) × ValidAt oks ips

module _ (hits : Map Addr ℕ) where
  -- The loop keeps its pair, or ends with a pair that has more hits and is an entry of the map.
  pub best_hits-cases :
      (oks : List Bool) (ips : List Addr) (p : Addr) (b : ℕ)
      → let r = best_hits hits oks ips (p, b) in
        ((r.0 ≡ p) × (r.1 ≡ b)) ⊎ ((b < r.1) × (lookup_or 0 r.0 hits ≡ r.1))
  unfolding best_hits
  best_hits-cases [] ips p b = inl (refl, refl)
  best_hits-cases (ok ∷ oks) [] p b = inl (refl, refl)
  best_hits-cases (ok ∷ oks) (a ∷ ips) p b =
      ground (arith, best_hits-cases oks ips p b, best_hits-cases oks ips a (lookup_or 0 a hits))

  pub best_hits-max :
      (oks : List Bool) (ips : List Addr) (p : Addr) (b : ℕ) (ip : Addr)
      → 0 < hits_at ip oks ips
      → lookup_or 0 ip hits ≤ (best_hits hits oks ips (p, b)).1
  unfolding best_hits
  best_hits-max [] ips p b ip h = absurd (omega arith)
  best_hits-max (ok ∷ oks) [] p b ip h = absurd (omega arith)
  best_hits-max (ok ∷ oks) (a ∷ ips) p b ip h = ground (
    arith,
    addr_beq_iff a ip,
    best_hits-cases oks ips p b,
    best_hits-cases oks ips a (lookup_or 0 a hits),
    best_hits-max oks ips p b ip,
    best_hits-max oks ips a (lookup_or 0 a hits) ip,
  )

  -- Of the addresses with as many hits, the loop chooses the one that answered first.
  pub best_hits-first :
      (oks : List Bool) (ips : List Addr) (p : Addr) (b : ℕ) (ip : Addr)
      → let r = best_hits hits oks ips (p, b) in
        b < r.1 → lookup_or 0 ip hits ≡ r.1 → first_at r.0 oks ips ≤ first_at ip oks ips
  unfolding best_hits
  best_hits-first [] ips p b ip h e = omega arith
  best_hits-first (ok ∷ oks) [] p b ip h e = omega arith
  best_hits-first (ok ∷ oks) (a ∷ ips) p b ip h e = ground (
    arith,
    addr_beq_iff a ip,
    addr_beq_iff a (best_hits hits oks ips (p, b)).0,
    addr_beq_iff a (best_hits hits oks ips (a, lookup_or 0 a hits)).0,
    best_hits-cases oks ips p b,
    best_hits-cases oks ips a (lookup_or 0 a hits),
    best_hits-first oks ips p b ip,
    best_hits-first oks ips a (lookup_or 0 a hits) ip,
  )

  -- Where the successful probes have valid addresses, an address that the loop has found is valid.
  pub best_hits-is_valid :
      (oks : List Bool) (ips : List Addr) (p : Addr) (b : ℕ)
      → ValidAt oks ips
      → (0 < b → is_valid p ≡ true)
      → let r = best_hits hits oks ips (p, b) in 0 < r.1 → is_valid r.0 ≡ true
  unfolding best_hits
  best_hits-is_valid [] ips p b v w h = w h
  best_hits-is_valid (ok ∷ oks) [] p b v w h = w h
  best_hits-is_valid (true ∷ oks) (a ∷ ips) p b v w h =
      elim (Bool-cases (ltb b (lookup_or 0 a hits))) [
        | inl e ↦
            rw (e, best_hits)
              (best_hits-is_valid oks ips a (lookup_or 0 a hits) v.1 (λ k. v.0 refl)
                (rw (e, best_hits) at h))
        | inr e ↦ rw (e, best_hits) (best_hits-is_valid oks ips p b v.1 w (rw (e, best_hits) at h))
      ]
  best_hits-is_valid (false ∷ oks) (a ∷ ips) p b v w h = best_hits-is_valid oks ips p b v.1 w h

outcome-is_valid :
    (r : ProbeResult) → ok_of (outcome r) ≡ true → is_valid (ip_of (outcome r)) ≡ true
unfolding outcome
outcome-is_valid r h = ground arith

pub outcomes-ValidAt :
    (rs : List ProbeResult)
    → ValidAt (map (λ r. ok_of (outcome r)) rs) (map (λ r. ip_of (outcome r)) rs)
outcomes-ValidAt [] = tt
outcomes-ValidAt (r ∷ rs) = (outcome-is_valid r, outcomes-ValidAt rs)

-- Some probe has succeeded exactly where some address has a hit.
pub hits_at_of_ok :
    (oks : List Bool) (ips : List Addr) (rtts : List ℕ)
    → length ips ≡ length oks
    → 0 < length (ok_rtts oks rtts)
    → (ip : Addr) × (0 < hits_at ip oks ips)
hits_at_of_ok [] ips rtts e h = absurd (omega arith)
hits_at_of_ok (ok ∷ oks) [] rtts e h = absurd (omega arith)
hits_at_of_ok (ok ∷ oks) (a ∷ ips) [] e h = absurd (omega arith)
hits_at_of_ok (true ∷ oks) (a ∷ ips) (t ∷ rtts) e h = (a, ground (arith, addr_beq_iff a a))
hits_at_of_ok (false ∷ oks) (a ∷ ips) (t ∷ rtts) e h = hits_at_of_ok oks ips rtts (omega arith) h

pub hits_at_of_none :
    (oks : List Bool) (ips : List Addr) (rtts : List ℕ) (ip : Addr)
    → length ips ≡ length oks
    → length rtts ≡ length oks
    → length (ok_rtts oks rtts) ≡ 0
    → hits_at ip oks ips ≡ 0
hits_at_of_none [] ips rtts ip e f h = refl
hits_at_of_none (ok ∷ oks) [] rtts ip e f h = refl
hits_at_of_none (ok ∷ oks) (a ∷ ips) [] ip e f h = absurd (omega arith)
hits_at_of_none (true ∷ oks) (a ∷ ips) (t ∷ rtts) ip e f h = absurd (omega arith)
hits_at_of_none (false ∷ oks) (a ∷ ips) (t ∷ rtts) ip e f h =
    hits_at_of_none oks ips rtts ip (omega arith) (omega arith) h
