-- ===== src/Variation/Pool/Dominant.antt =====
-- The dominant value of a variant's observations.
use mathlib.Core.Bool.{false≢true}
use proxy_sampler.Prelude.{
  ℕ, ◌+◌, ◌≤◌, ◌<◌, ◌≡◌, ◌≢◌, refl, sym, ap, ◌∙◌, true, false, not, ◌==◌, ltb, List, [], ◌∷◌, none,
  some, Text, Map, keys, lookup_or, lookup_or-insert, insert, insert-Distinct, contains, Distinct,
  All, arith, list_eq, nat_eq, Eq, ◌=?◌, is_nil, max, if◌then◌else◌, Bool-cases, Option-cases, inl,
  inr, if-cases,
}
use proxy_sampler.Session.{Reputation}
use proxy_sampler.Variation.Pool.{
  IpObservation, add_weight, weigh, max_weight, best_value, dominant_of, dominant,
}

abbrev text_eq : Eq Text
text_eq = list_eq

-- The weight of a value: the hits of the observations that have it, each at least one.
abbrev pub vote_of : (Reputation → Text) → Text → IpObservation → ℕ
vote_of pick v o = elim o.reputation [
  | none ↦ 0
  | some r ↦ if is_nil (pick r) then 0 else if pick r =? v then max o.hit_count 1 else 0
]

abbrev pub weight_of : (Reputation → Text) → Text → List IpObservation → ℕ
weight_of pick v [] = 0
weight_of pick v (o ∷ os) = vote_of pick v o + weight_of pick v os

add_weight-lookup :
    (pick : Reputation → Text) (o : IpObservation) (m : Map Text ℕ) (v : Text)
    → lookup_or 0 v (add_weight pick m o) ≡ lookup_or 0 v m + vote_of pick v o
unfolding add_weight
add_weight-lookup pick o m v = elim (Option-cases o.reputation) [
  | inl e ↦ rw (add_weight, vote_of, e) (omega arith)
  | inr (r, e) ↦ rw (add_weight, vote_of, e) (write r)
]
  where
    write :
        (r : Reputation)
        → lookup_or 0 v (
            if is_nil (pick r)
            then m
            else insert (pick r) (lookup_or 0 (pick r) m + max o.hit_count 1) m)
          ≡ lookup_or 0 v m
            + (if is_nil (pick r) then 0 else if pick r =? v then max o.hit_count 1 else 0)
    write r = ground (
      arith,
      lookup_or-insert 0 (pick r) v (lookup_or 0 (pick r) m + max o.hit_count 1) m,
      text_eq.beq_iff (pick r) v,
    )

weigh-lookup :
    (pick : Reputation → Text) (os : List IpObservation) (m : Map Text ℕ) (v : Text)
    → lookup_or 0 v (weigh pick os m) ≡ lookup_or 0 v m + weight_of pick v os
unfolding weigh
weigh-lookup pick [] m v = omega arith
weigh-lookup pick (o ∷ os) m v =
    omega (arith, weigh-lookup pick os (add_weight pick m o) v, add_weight-lookup pick o m v)

add_weight-Distinct :
    (pick : Reputation → Text) (o : IpObservation) (m : Map Text ℕ)
    → Distinct (keys m)
    → Distinct (keys (add_weight pick m o))
unfolding add_weight
add_weight-Distinct pick o m d = elim (Option-cases o.reputation) [
  | inl e ↦ rw (add_weight, e) d
  | inr (r, e) ↦
      rw (add_weight, e)
        (if-cases (λ (x : Map Text ℕ). Distinct (keys x)) (is_nil (pick r)) (λ _. d)
          (λ _. insert-Distinct (pick r) _ m d))
]

weigh-Distinct :
    (pick : Reputation → Text) (os : List IpObservation) (m : Map Text ℕ)
    → Distinct (keys m)
    → Distinct (keys (weigh pick os m))
unfolding weigh
weigh-Distinct pick [] m d = d
weigh-Distinct pick (o ∷ os) m d =
    weigh-Distinct pick os (add_weight pick m o) (add_weight-Distinct pick o m d)

absent : (m : Map Text ℕ) (k : Text) → contains (keys m) k ≡ false → lookup_or 0 k m ≡ 0
absent [] k h = refl
absent ((j, w) ∷ m) k h = ground (arith, absent m k)

-- With distinct keys, the entries are what the lookups give.
entries :
    (m : Map Text ℕ) (top : ℕ) (v : Text)
    → Distinct (keys m)
    → ((u : Text) → u ≢ v → lookup_or 0 u m < top)
    → All (λ e. e.0 ≢ v → e.1 < top) m
entries [] top v d h = tt
entries ((k, w) ∷ m) top v d h = (
  λ ne. ground (arith, h k ne, text_eq.beq_iff k k),
  entries m top v d.1 (λ u ne. ground (arith, h u ne, absent m k d.0, text_eq.beq_iff k u)),
)

max_weight-le :
    (m : Map Text ℕ) (top best : ℕ) (v : Text)
    → Distinct (keys m)
    → All (λ e. e.0 ≢ v → e.1 < top) m
    → lookup_or 0 v m ≤ top
    → best ≤ top
    → max_weight m best ≤ top
unfolding max_weight
max_weight-le [] top best v d h l b = b
max_weight-le ((k, w) ∷ m) top best v d h l b = elim (Bool-cases (k =? v)) [
  | inl e ↦
      let same : k ≡ v = (text_eq.beq_iff k v).0 e in
      max_weight-le m top (if ltb best w then w else best) v d.1 h.1
        (ground (arith, absent m v (ap (λ x. contains (keys m) x) (sym same) ∙ d.0)))
        (ground (arith, e))
  | inr e ↦
      let other : k ≢ v = (λ q. false≢true (sym e ∙ (text_eq.beq_iff k v).1 q)) in
      let less : w < top = h.0 other in
      max_weight-le m top (if ltb best w then w else best) v d.1 h.1 (ground (arith, e))
        (ground (arith, less))
]

max_weight-ge :
    (m : Map Text ℕ) (best : ℕ) (v : Text)
    → (best ≤ max_weight m best) × (lookup_or 0 v m ≤ max_weight m best)
unfolding max_weight
max_weight-ge [] best v = (omega arith, omega arith)
max_weight-ge ((k, w) ∷ m) best v =
    let (a, b) = max_weight-ge m (if ltb best w then w else best) v in
    (ground (arith, a), ground (arith, a, b))

best_value-none :
    (m : Map Text ℕ) (top : ℕ) (v b : Text) (n : ℕ)
    → All (λ e. e.0 ≢ v → e.1 < top) m
    → contains (keys m) v ≡ false
    → best_value top m (b, n) ≡ (b, n)
unfolding best_value
best_value-none [] top v b n h c = refl
best_value-none ((k, w) ∷ m) top v b n h c =
    let other : k ≢ v = (λ q. false≢true (sym (ground (arith, c)) ∙ (text_eq.beq_iff k v).1 q)) in
    let less : w < top = h.0 other in
    let skip : (w == top) ≡ false = ground (arith, less) in
    rw (best_value, skip) (best_value-none m top v b n h.1 (ground (arith, c)))

best_value-one :
    (m : Map Text ℕ) (top : ℕ) (v b : Text) (n : ℕ)
    → Distinct (keys m)
    → All (λ e. e.0 ≢ v → e.1 < top) m
    → lookup_or 0 v m ≡ top
    → 0 < top
    → best_value top m (b, n) ≡ (v, n + 1)
unfolding best_value
best_value-one [] top v b n d h l p = absurd (omega arith)
best_value-one ((k, w) ∷ m) top v b n d h l p = elim (Bool-cases (k =? v)) [
  | inl e ↦
      let same : k ≡ v = (text_eq.beq_iff k v).0 e in
      let full : (w == top) ≡ true = ground (arith, e, l) in
      rw (best_value, full)
        (best_value-none m top v k (n + 1) h.1 (ap (λ x. contains (keys m) x) (sym same) ∙ d.0)
          ∙ ap (λ x. (x, n + 1)) same)
  | inr e ↦
      let other : k ≢ v = (λ q. false≢true (sym e ∙ (text_eq.beq_iff k v).1 q)) in
      let less : w < top = h.0 other in
      let skip : (w == top) ≡ false = ground (arith, less) in
      rw (best_value, skip) (best_value-one m top v b n d.1 h.1 (ground (arith, e, l)) p)
]

-- If the observations give one value a positive weight that is strictly greater than that of any
-- other value, that value is the dominant one. The weight of a value adds up the hits of the
-- observations whose reputation has it, each counted as at least one hit.
pub dominant_lem :
    (observations : List IpObservation) (pick : Reputation → Text) (v : Text)
    → 0 < weight_of pick v observations
    → ((u : Text) → u ≢ v → weight_of pick u observations < weight_of pick v observations)
    → dominant observations pick ≡ v
unfolding dominant dominant_of
dominant_lem observations pick v p h =
    let m = weigh pick observations [] in
    let top : ℕ = weight_of pick v observations in
    let weight = (λ (u : Text). weigh-lookup pick observations [] u) in
    let distinct : Distinct (keys m) = weigh-Distinct pick observations [] tt in
    let others : All (λ e. e.0 ≢ v → e.1 < top) m =
      entries m top v distinct (λ u ne. omega (arith, weight u, h u ne)) in
    let greatest : max_weight m 0 ≡ top = omega (
      arith,
      max_weight-le m top 0 v distinct others (omega (arith, weight v)) (omega arith),
      (max_weight-ge m 0 v).1,
      weight v,
    ) in
    let found : best_value (max_weight m 0) m ([], 0) ≡ (v, 1) =
      ap (λ t. best_value t m ([], 0)) greatest
      ∙ best_value-one m top v [] 0 distinct others (omega (arith, weight v)) p
      ∙ ap (λ k. (v, k)) (omega arith) in
    ap (λ (r : Text × ℕ). if not (r.1 == 1) then [] else r.0) found
