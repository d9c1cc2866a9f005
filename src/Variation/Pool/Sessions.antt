-- ===== src/Variation/Pool/Sessions.antt =====
-- The addresses of a pool and the sessions that saw them.
use proxy_sampler.Prelude.{
  ℕ, ◌≡◌, refl, sym, ap, ◌∙◌, subst, Bool, false, ◌&&◌, ◌||◌, List, [], ◌∷◌, ◌++◌, append-nil,
  append_assoc, Bool-cases, if-cases, none, some, Text, Map, keys, lookup, insert, lookup-insert,
  contains-keys-insert, insert-Distinct, Distinct, add, contains, contains-add, add-Distinct,
  nat_eq, ◌=?◌, Option-cases, inl, inr, arith, if◌then◌else◌,
}
use proxy_sampler.Go.Addr.{Addr, addr_eq}
use proxy_sampler.Variation.Pool.{
  IpObservation, IpAccum, merge_observation, new_accum, observe, observe_all,
}

-- Whether an observation is of an address, and by a session.
abbrev pub saw : List IpObservation → Addr → Bool
saw [] ip = false
saw (o ∷ os) ip = (o.ip =? ip) || saw os ip

abbrev pub saw_by : List IpObservation → Addr → ℕ → Bool
saw_by [] ip s = false
saw_by (o ∷ os) ip s = ((o.ip =? ip) && (o.session_id =? s)) || saw_by os ip s

-- The sessions listed for an address.
abbrev pub variants_at : Addr → Map Addr IpAccum → List ℕ
variants_at ip m = elim (lookup ip m) [ none ↦ [] | some a ↦ a.variants ]

-- What the map of the pool holds.
abbrev pub IsSeen : List IpObservation → Map Addr IpAccum → Type 0
IsSeen os m =
    Distinct (keys m)
    × ((ip : Addr) → contains (keys m) ip ≡ saw os ip)
    × ((ip : Addr) → Distinct (variants_at ip m))
    × ((ip : Addr) (s : ℕ) → contains (variants_at ip m) s ≡ saw_by os ip s)

saw-append :
    (os : List IpObservation) (o : IpObservation) (ip : Addr)
    → saw (os ++ o ∷ []) ip ≡ (saw os ip || (o.ip =? ip))
saw-append [] o ip = ground arith
saw-append (p ∷ os) o ip = ground (arith, saw-append os o ip)

saw_by-append :
    (os : List IpObservation) (o : IpObservation) (ip : Addr) (s : ℕ)
    → saw_by (os ++ o ∷ []) ip s ≡ (saw_by os ip s || ((o.ip =? ip) && (o.session_id =? s)))
saw_by-append [] o ip s = ground arith
saw_by-append (p ∷ os) o ip s = ground (arith, saw_by-append os o ip s)

module _ (equal_fold : Text → Text → Bool) where
  -- An observation writes one address, with one session more.
  observe-insert :
      (m : Map Addr IpAccum) (o : IpObservation)
      → (a : IpAccum) × (observe equal_fold m o ≡ insert o.ip a m)
        × (a.variants ≡ add (variants_at o.ip m) o.session_id)
  unfolding observe merge_observation
  observe-insert m o = elim (Option-cases (lookup o.ip m)) [
    | inl e ↦ (new_accum equal_fold o, rw (observe, e) refl, rw (variants_at, e) refl)
    | inr (a, e) ↦ (merge_observation a o, rw (observe, e) refl, rw (variants_at, e) refl)
  ]

  observe-variants :
      (m : Map Addr IpAccum) (o : IpObservation) (ip : Addr)
      → variants_at ip (observe equal_fold m o)
        ≡ (if o.ip =? ip then add (variants_at ip m) o.session_id else variants_at ip m)
  observe-variants m o ip =
      let (a, e, v) = observe-insert m o in
      ap (variants_at ip) e ∙ elim (Bool-cases (o.ip =? ip)) [
        | inl h ↦
            rw (variants_at, lookup-insert o.ip ip a m, h)
              (v ∙ ap (λ x. add (variants_at x m) o.session_id) ((addr_eq.beq_iff o.ip ip).0 h))
        | inr h ↦ rw (variants_at, lookup-insert o.ip ip a m, h) refl
      ]

  observe_all-IsSeen_append :
      (before os : List IpObservation) (m : Map Addr IpAccum)
      → IsSeen before m
      → IsSeen (before ++ os) (observe_all equal_fold m os)
  unfolding observe_all
  observe_all-IsSeen_append before [] m v = subst (λ xs. IsSeen xs m) (sym (append-nil before)) v
  observe_all-IsSeen_append before (o ∷ os) m (d, k, u, w) =
      let (a, e, _) = observe-insert m o in
      let next : IsSeen (before ++ o ∷ []) (observe equal_fold m o) = (
        subst (λ x. Distinct (keys x)) (sym e) (insert-Distinct o.ip a m d),
        (λ ip.
            ap (λ x. contains (keys x) ip) e
            ∙ contains-keys-insert o.ip ip a m
            ∙ ground (arith, k ip, saw-append before o ip)),
        (λ ip. subst Distinct (sym (observe-variants m o ip)) (
            if-cases Distinct (o.ip =? ip)
              (λ _. add-Distinct (variants_at ip m) o.session_id (u ip)) (λ _. u ip))),
        (λ ip s.
            ap (λ x. contains x s) (observe-variants m o ip)
            ∙ ground (
              arith,
              w ip s,
              contains-add (variants_at ip m) o.session_id s,
              saw_by-append before o ip s,
            )),
      ) in
      subst (λ xs. IsSeen xs (observe_all equal_fold (observe equal_fold m o) os))
        (append_assoc before (o ∷ []) os)
        (observe_all-IsSeen_append (before ++ o ∷ []) os (observe equal_fold m o) next)

  -- However the observations come: the addresses of the pool are those observed, each once, and the
  -- sessions listed for an address are those that observed it, each once, so that their number is the
  -- frequency the estimate needs.
  pub observe_all-IsSeen : (os : List IpObservation) → IsSeen os (observe_all equal_fold [] os)
  observe_all-IsSeen os =
      observe_all-IsSeen_append [] os [] (tt, (λ ip. refl), (λ ip. tt), λ ip s. refl)
