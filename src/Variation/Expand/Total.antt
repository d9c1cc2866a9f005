-- ===== src/Variation/Expand/Total.antt =====
-- An expansion makes as many variants as it has planned.
use native.Mathlib.Nat.{mul_assoc, mul_left_comm, zero-mul, suc-mul, one-mul}
use proxy_sampler.Prelude.{
  ℕ, suc, ◌*◌, ◌≤◌, ◌<◌, ◌≡◌, refl, sym, ap, ◌∙◌, Bool, true, not, List, [], ◌∷◌, ◌++◌, ◌⊎◌, inl,
  inr, Text, Map, lookup_or, keys, length, length-append, list_eq, nat_eq, arith, if-cases,
  Sum-cases, Bool-cases, Option-cases, All, All-sort, All-map, sort, text_leb, prod_of,
  prod_of-sort,
}
use proxy_sampler.Variation.Axis.{
  AxisSpec, no_axis, planned_loop, planned_count, fixed_values, fixed_axis_values, random_axis,
}
use proxy_sampler.Variation.Expand.{
  Params, Variant, Draw, cartesian, random_cartesian, count_of, is_random, those, copy_over,
  render_all, expand_cells, expand, first_missing,
}
use proxy_sampler.Variation.Expand.Count.{
  size_of, Sized, planned_loop_lem, cartesian_lem, random_cartesian_lem, fixed_axis_values_lem,
  All-contained, fixed_values_lem, count_of_lem,
}

those-prod :
    (f : Text → ℕ) (p : Text → Bool) (xs : List Text)
    → prod_of f xs ≡ prod_of f (those (λ x. not (p x)) xs) * prod_of f (those p xs)
those-prod f p [] = omega arith
those-prod f p (x ∷ xs) = elim (Bool-cases (p x)) [
  | inl e ↦
      ap (◌*◌ (f x)) (those-prod f p xs)
      ∙ rw (those, e)
          (mul_left_comm (f x) (prod_of f (those (λ x. not (p x)) xs)) (prod_of f (those p xs)))
  | inr e ↦
      ap (◌*◌ (f x)) (those-prod f p xs)
      ∙ rw (those, e)
          (sym (mul_assoc (f x) (prod_of f (those (λ x. not (p x)) xs)) (prod_of f (those p xs))))
]

those-All :
    (P : Text → Type 0) (p : Text → Bool) (xs : List Text)
    → All P xs
    → All (λ x. P x × (p x ≡ true)) (those p xs)
those-All P p [] h = tt
those-All P p (x ∷ xs) h =
    if-cases (All (λ x. P x × (p x ≡ true))) (p x) (λ e. ((h.0, e), those-All P p xs h.1))
      (λ e. those-All P p xs h.1)

module _ (render : Params → Text ⊎ Text) (canonical_key : Params → Text ⊎ Text) (rnd : Draw) where
  render_all_lem :
      (cell : Params) (key : Text) (combos : List Params) (vs : List Variant)
      → render_all render canonical_key rnd cell key combos ≡ inr vs
      → length vs ≡ length combos
  unfolding render_all
  render_all_lem cell key [] vs h = let same : [] ≡ vs = cc in ap length (sym same)
  render_all_lem cell key (combo ∷ combos) vs h =
      elim (Sum-cases (render (copy_over combo (copy_over cell [])))) [
        | inl (e, p) ↦ absurd (ground (arith, p))
        | inr (url, p) ↦ elim (Sum-cases (render_all render canonical_key rnd cell key combos)) [
          | inl (e, q) ↦ absurd (ground (arith, p, q))
          | inr (rest, q) ↦
              let one : Variant = record {
                params = copy_over combo (copy_over cell []);
                cell_key = key;
                url = url;
              } in
              let found : render_all render canonical_key rnd cell key (combo ∷ combos)
                  ≡ inr (one ∷ rest) =
                rw (render_all, p, q) refl in
              let same : one ∷ rest ≡ vs = cc in
              ap length (sym same) ∙ ap suc (render_all_lem cell key combos rest q)
        ]
      ]

  expand_cells_lem :
      (f : Text → ℕ) (names : List Text) (axes : Map Text AxisSpec) (cells : List Params) (n : ℕ)
      (vs : List Variant)
      → All (λ name. count_of (lookup_or no_axis name axes) ≡ f name) names
      → expand_cells render canonical_key rnd names axes cells n ≡ inr vs
      → length vs ≡ length cells * prod_of f names
  unfolding expand_cells
  expand_cells_lem f names axes [] n vs v h =
      let same : [] ≡ vs = cc in ap length (sym same) ∙ sym (zero-mul (prod_of f names))
  expand_cells_lem f names axes (cell ∷ cells) n vs v h = elim (Sum-cases (canonical_key cell)) [
    | inl (e, p) ↦ absurd (ground (arith, p))
    | inr (key, p) ↦ elim (Sum-cases (random_cartesian rnd names axes ([] ∷ []) n)) [
      | inl (e, q) ↦ absurd (ground (arith, p, q))
      | inr ((combos, n1), q) ↦
          elim (Sum-cases (render_all render canonical_key rnd cell key combos)) [
            | inl (e, r) ↦ absurd (ground (arith, p, q, r))
            | inr (ws, r) ↦
                elim (Sum-cases (expand_cells render canonical_key rnd names axes cells n1)) [
                  | inl (e, t) ↦ absurd (ground (arith, p, q, r, t))
                  | inr (rest, t) ↦
                      let found : expand_cells render canonical_key rnd names axes (cell ∷ cells) n
                          ≡ inr (ws ++ rest) =
                        rw (expand_cells, p, q, r, t) refl in
                      let same : ws ++ rest ≡ vs = cc in
                      ap length (sym same)
                      ∙ length-append ws rest
                      ∙ omega (
                        arith,
                        render_all_lem cell key combos ws r,
                        random_cartesian_lem rnd f names axes ([] ∷ []) n combos n1 v q,
                        expand_cells_lem f names axes cells n1 rest v t,
                        suc-mul (length cells) (prod_of f names),
                      )
                ]
          ]
    ]
  ]

  -- The two lists of names, each with what it is planned with.
  random_names-count :
      (placeholders : List Text) (axes : Map Text AxisSpec) (m : ℕ)
      → All (Sized axes m) placeholders
      → All
          (λ name. count_of (lookup_or no_axis name axes) ≡ size_of axes m name)
          (sort text_leb (those (is_random axes) placeholders))
  random_names-count placeholders axes m v = All-sort text_leb _ _ (
      All-map _ _
        (λ name q.
          count_of_lem name (lookup_or no_axis name axes) m (size_of axes m name) q.0
            (random_kind name axes q.1))
        (those (is_random axes) placeholders)
        (those-All (Sized axes m) (is_random axes) placeholders v))
    where
      random_kind :
          (name : Text) (axes : Map Text AxisSpec)
          → is_random axes name ≡ true
          → (lookup_or no_axis name axes).kind ≡ random_axis
      random_kind name axes h = ground arith

  fixed_names-values :
      (placeholders : List Text) (axes : Map Text AxisSpec) (m : ℕ) (values : Map Text (List Text))
      → All (Sized axes m) placeholders
      → (let names = sort text_leb (those (λ name. not (is_random axes name)) placeholders) in
          fixed_axis_values names axes [] ≡ inr values
          → All (λ name. length (lookup_or [] name values) ≡ size_of axes m name) names)
  fixed_names-values placeholders axes m values v h =
      All-contained (size_of axes m) (λ name. length (lookup_or [] name values)) names names
        (λ x c. fixed_axis_values_lem (size_of axes m) names axes [] values planned h x (inl c))
        (λ x c. c)
    where
      names : List Text
      names = sort text_leb (those (λ name. not (is_random axes name)) placeholders)

      planned :
          All
            (λ name.
              (vs : List Text)
              → fixed_values name (lookup_or no_axis name axes) ≡ inr vs
              → length vs ≡ size_of axes m name)
            names
      planned = All-sort text_leb _ _ (
          All-map _ _
            (λ name q vs e.
              fixed_values_lem name (lookup_or no_axis name axes) m (size_of axes m name) vs q.0 e)
            (those (λ name. not (is_random axes name)) placeholders)
            (those-All (Sized axes m) (λ name. not (is_random axes name)) placeholders v))

  -- If an expansion of at most `max_variants` (at least 1) succeeds, it makes as many variants as the
  -- product of the planned sizes of its placeholders' axes, at most `max_variants` and at least one.
  pub expand_lem :
      (placeholders : List Text) (axes : Map Text AxisSpec) (max_variants : ℕ) (vs : List Variant)
      → 1 ≤ max_variants
      → expand render canonical_key rnd placeholders axes max_variants ≡ inr vs
      → (length vs ≡ prod_of (size_of axes max_variants) placeholders)
        × (length vs ≤ max_variants)
        × (1 ≤ length vs)
  unfolding expand planned_count
  expand_lem placeholders axes m vs b h =
      let f = size_of axes m in
      let random_names = sort text_leb (those (is_random axes) placeholders) in
      let fixed_names = sort text_leb (those (λ name. not (is_random axes name)) placeholders) in
      elim (Option-cases (first_missing render canonical_key rnd placeholders (keys axes))) [
        | inr (name, p) ↦ absurd (ground (arith, p))
        | inl p ↦
            elim (Option-cases (first_missing render canonical_key rnd (keys axes) placeholders)) [
              | inr (name, q) ↦ absurd (ground (arith, p, q))
              | inl q ↦ elim (Sum-cases (planned_loop placeholders axes m 1)) [
                | inl (e, r) ↦ absurd (ground (arith, p, q, r))
                | inr (total, r) ↦ elim (Sum-cases (fixed_axis_values fixed_names axes [])) [
                  | inl (e, t) ↦ absurd (ground (arith, p, q, r, t))
                  | inr (values, t) ↦
                      let some_variants : 0 < total = ground (arith, p, q, r, t) in
                      let cells : expand_cells render canonical_key rnd random_names axes
                            (cartesian fixed_names values ([] ∷ [])) 0
                          ≡ inr vs =
                        ground (arith, p, q, r, t) in
                      let (fits, product, sized) =
                        planned_loop_lem placeholders axes m 1 total b r in
                      let size : length vs ≡ prod_of f placeholders =
                        expand_cells_lem f random_names axes
                          (cartesian fixed_names values ([] ∷ [])) 0 vs
                          (random_names-count placeholders axes m sized) cells
                        ∙ ap (λ k. k * prod_of f random_names)
                            (cartesian_lem f fixed_names values ([] ∷ [])
                                (fixed_names-values placeholders axes m values sized t)
                              ∙ one-mul (prod_of f fixed_names)
                              ∙ prod_of-sort text_leb f
                                  (those (λ name. not (is_random axes name)) placeholders))
                        ∙ ap
                            (λ k.
                              prod_of f (those (λ name. not (is_random axes name)) placeholders)
                              * k)
                            (prod_of-sort text_leb f (those (is_random axes) placeholders))
                        ∙ sym (those-prod f (is_random axes) placeholders) in
                      (
                        size,
                        omega (arith, size, product, fits),
                        omega (arith, size, product, some_variants),
                      )
                ]
              ]
            ]
      ]
