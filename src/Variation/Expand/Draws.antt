-- ===== src/Variation/Expand/Draws.antt =====
-- The random values of one cell are distinct.
use proxy_sampler.Prelude.{
  ℕ, zero, suc, ◌≡◌, refl, false, List, [], ◌∷◌, inl, inr, Text, contains, Distinct, length,
  list_eq, nat_eq, arith, All, Sum-cases, subst, Eq,
}
use proxy_sampler.Variation.Expand.{Draw, draw_distinct, draw_values}

abbrev text_eq : Eq Text
text_eq = list_eq

draw_distinct-fresh :
    (rnd : Draw) (attempts length n : ℕ) (seen : List Text) (value : Text) (n' : ℕ)
    → draw_distinct rnd attempts length n seen ≡ inr (value, n')
    → contains seen value ≡ false
unfolding draw_distinct
draw_distinct-fresh rnd zero length n seen value n' h = ground arith
draw_distinct-fresh rnd (suc attempts) length n seen value n' h =
    ground (arith, draw_distinct-fresh rnd attempts length (suc n) seen value n')

apart :
    (value : Text) (seen vs : List Text)
    → All (λ v. contains (value ∷ seen) v ≡ false) vs
    → (contains vs value ≡ false) × All (λ v. contains seen v ≡ false) vs
apart value seen [] h = (refl, tt)
apart value seen (v ∷ vs) h =
    let (a, b) = apart value seen vs h.1 in
    (
      ground (arith, a, h.0, text_eq.beq_iff value v, text_eq.beq_iff v value),
      (ground (arith, h.0), b),
    )

-- However the source draws: if `count` values are found, they are `count`, and none of them stands
-- twice or is one that was seen before.
pub draw_values-Distinct :
    (rnd : Draw) (count attempts len n : ℕ) (seen : List Text) (values : List Text) (n' : ℕ)
    → draw_values rnd count attempts len n seen ≡ inr (values, n')
    → (length values ≡ count) × Distinct values × All (λ v. contains seen v ≡ false) values
unfolding draw_values
draw_values-Distinct rnd zero attempts len n seen values n' h =
    subst (λ vs. (length vs ≡ 0) × Distinct vs × All (λ v. contains seen v ≡ false) vs) empty
      (refl, tt, tt)
  where
    empty : [] ≡ values
    empty = cc
draw_values-Distinct rnd (suc count) attempts len n seen values n' h =
    elim (Sum-cases (draw_distinct rnd attempts len n seen)) [
      | inl (e, p) ↦ absurd (ground (arith, p))
      | inr ((value, n1), p) ↦
          elim (Sum-cases (draw_values rnd count attempts len n1 (value ∷ seen))) [
            | inl (e, q) ↦ absurd (ground (arith, p, q))
            | inr ((vs, n2), q) ↦
                let found : draw_values rnd (suc count) attempts len n seen ≡ inr (value ∷ vs, n2) =
                  rw (draw_values, p, q) refl in
                let same : value ∷ vs ≡ values = cc in
                let (size, distinct, unseen) =
                  draw_values-Distinct rnd count attempts len n1 (value ∷ seen) vs n2 q in
                let (here, there) = apart value seen vs unseen in
                subst
                  (λ xs.
                    (length xs ≡ suc count) × Distinct xs × All (λ v. contains seen v ≡ false) xs)
                  same
                  (
                    omega (arith, size),
                    (here, distinct),
                    (draw_distinct-fresh rnd attempts len n seen value n1 p, there),
                  )
          ]
    ]
