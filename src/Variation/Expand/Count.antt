-- ===== src/Variation/Expand/Count.antt =====
-- How many variants an expansion makes.
use native.Mathlib.Nat.{mul-le-mul_right, mul_assoc, div-mul-le_self, zero-mul, suc-mul}
use proxy_sampler.Prelude.{
  ℕ, zero, suc, ◌+◌, ◌*◌, ◌/◌, ◌≤◌, ◌≡◌, refl, sym, ap, ◌∙◌, true, List, [], ◌∷◌, ◌++◌, ◌⊎◌, inl,
  inr, Text, Map, lookup_or, lookup_or-insert, insert, contains, length, length-append, list_eq,
  nat_eq, arith, Sum-cases, Bool-cases, Eq, All, prod_of, ◌=?◌, ℤ,
}
use proxy_sampler.Variation.Axis.{
  AxisSpec, no_axis, axis_size, planned_loop, fixed_values, fixed_axis_values, range_values,
  random_axis, drawn_length, next_int,
}
use proxy_sampler.Variation.Expand.{
  Params, Draw, with_values, over_bases, cartesian, draw_values, random_bases, random_cartesian,
  count_of,
}
use proxy_sampler.Variation.Expand.Draws.{draw_values-Distinct}

abbrev text_eq : Eq Text
text_eq = list_eq

-- The size that an axis is planned with.
abbrev pub size_of : Map Text AxisSpec → ℕ → Text → ℕ
size_of axes max_variants name = elim (axis_size name (lookup_or no_axis name axes) max_variants) [
  | inl e ↦ 0
  | inr size ↦ size
]

abbrev pub Sized : Map Text AxisSpec → ℕ → Text → Type 0
Sized axes max_variants name =
    axis_size name (lookup_or no_axis name axes) max_variants ≡ inr (size_of axes max_variants name)

pub planned_loop_lem :
    (names : List Text) (axes : Map Text AxisSpec) (max_variants total planned : ℕ)
    → total ≤ max_variants
    → planned_loop names axes max_variants total ≡ inr planned
    → (planned ≤ max_variants)
      × (planned ≡ total * prod_of (size_of axes max_variants) names)
      × All (Sized axes max_variants) names
unfolding planned_loop
planned_loop_lem [] axes m total planned b h =
    let same : total ≡ planned = ground arith in (omega arith, omega arith, tt)
planned_loop_lem (name ∷ names) axes m total planned b h =
    elim (Sum-cases (axis_size name (lookup_or no_axis name axes) m)) [
      | inl (e, p) ↦ absurd (ground (arith, p))
      | inr (size, p) ↦
          let rest : planned_loop names axes m (total * size) ≡ inr planned = ground (arith, p) in
          let fits : total * size ≤ m =
            let small : total ≤ m / size = ground (arith, p) in
            omega (arith, mul-le-mul_right size small, div-mul-le_self m size) in
          let (a, b', c) = planned_loop_lem names axes m (total * size) planned fits rest in
          (a, rw (prod_of, size_of, p) (b' ∙ mul_assoc total size _), (rw (size_of, p) refl, c))
    ]

with_values_lem :
    (base : Params) (name : Text) (vs : List Text) → length (with_values base name vs) ≡ length vs
unfolding with_values
with_values_lem base name [] = refl
with_values_lem base name (v ∷ vs) = ap suc (with_values_lem base name vs)

over_bases_lem :
    (bases : List Params) (name : Text) (vs : List Text)
    → length (over_bases bases name vs) ≡ length bases * length vs
unfolding over_bases
over_bases_lem [] name vs = sym (zero-mul (length vs))
over_bases_lem (base ∷ bases) name vs =
    length-append (with_values base name vs) (over_bases bases name vs)
    ∙ ap (λ n. n + length (over_bases bases name vs)) (with_values_lem base name vs)
    ∙ ap (λ n. length vs + n) (over_bases_lem bases name vs)
    ∙ omega (arith, suc-mul (length bases) (length vs))

pub cartesian_lem :
    (f : Text → ℕ) (names : List Text) (values : Map Text (List Text)) (combos : List Params)
    → All (λ name. length (lookup_or [] name values) ≡ f name) names
    → length (cartesian names values combos) ≡ length combos * prod_of f names
unfolding cartesian
cartesian_lem f [] values combos h = omega arith
cartesian_lem f (name ∷ names) values combos h =
    cartesian_lem f names values (over_bases combos name (lookup_or [] name values)) h.1
    ∙ ap (λ n. n * prod_of f names)
        (over_bases_lem combos name (lookup_or [] name values) ∙ ap (◌*◌ (length combos)) h.0)
    ∙ mul_assoc (length combos) (f name) (prod_of f names)

random_bases_lem :
    (rnd : Draw) (spec : AxisSpec) (name : Text) (bases : List Params) (n : ℕ) (next : List Params)
    (n' : ℕ)
    → random_bases rnd spec name bases n ≡ inr (next, n')
    → length next ≡ length bases * count_of spec
unfolding random_bases
random_bases_lem rnd spec name [] n next n' h =
    let none_left : [] ≡ next = cc in ap length (sym none_left) ∙ sym (zero-mul (count_of spec))
random_bases_lem rnd spec name (base ∷ bases) n next n' h =
    elim (Sum-cases
      (draw_values rnd (count_of spec) (32 * count_of spec) (drawn_length spec.length_of) n [])) [
        | inl (e, p) ↦ absurd (ground (arith, p))
        | inr ((vs, n1), p) ↦ elim (Sum-cases (random_bases rnd spec name bases n1)) [
          | inl (e, q) ↦ absurd (ground (arith, p, q))
          | inr ((rest, n2), q) ↦
              let found : random_bases rnd spec name (base ∷ bases) n
                  ≡ inr (with_values base name vs ++ rest, n2) =
                rw (random_bases, p, q) refl in
              let same : with_values base name vs ++ rest ≡ next = cc in
              ap length (sym same)
              ∙ length-append (with_values base name vs) rest
              ∙ ap (λ k. k + length rest)
                  (with_values_lem base name vs ∙ (draw_values-Distinct rnd _ _ _ n [] vs n1 p).0)
              ∙ ap (λ k. count_of spec + k) (random_bases_lem rnd spec name bases n1 rest n2 q)
              ∙ omega (arith, suc-mul (length bases) (count_of spec))
        ]
      ]

pub random_cartesian_lem :
    (rnd : Draw) (f : Text → ℕ) (names : List Text) (axes : Map Text AxisSpec)
    (combos : List Params) (n : ℕ) (next : List Params) (n' : ℕ)
    → All (λ name. count_of (lookup_or no_axis name axes) ≡ f name) names
    → random_cartesian rnd names axes combos n ≡ inr (next, n')
    → length next ≡ length combos * prod_of f names
unfolding random_cartesian
random_cartesian_lem rnd f [] axes combos n next n' v h =
    let same : combos ≡ next = cc in ap length (sym same) ∙ omega arith
random_cartesian_lem rnd f (name ∷ names) axes combos n next n' v h =
    elim (Sum-cases (random_bases rnd (lookup_or no_axis name axes) name combos n)) [
      | inl (e, p) ↦ absurd (ground (arith, p))
      | inr ((mid, n1), p) ↦
          let rest : random_cartesian rnd names axes mid n1 ≡ inr (next, n') = ground (arith, p) in
          random_cartesian_lem rnd f names axes mid n1 next n' v.1 rest
          ∙ ap (λ k. k * prod_of f names)
              (random_bases_lem rnd (lookup_or no_axis name axes) name combos n mid n1 p
                ∙ ap (◌*◌ (length combos)) v.0)
          ∙ mul_assoc (length combos) (f name) (prod_of f names)
    ]

-- Looking up what the fixed axes have been given.
pub fixed_axis_values_lem :
    (f : Text → ℕ) (names : List Text) (axes : Map Text AxisSpec)
    (acc values : Map Text (List Text))
    → All
        (λ name.
          (vs : List Text)
          → fixed_values name (lookup_or no_axis name axes) ≡ inr vs
          → length vs ≡ f name)
        names
    → fixed_axis_values names axes acc ≡ inr values
    → (x : Text) → ((contains names x ≡ true) ⊎ (length (lookup_or [] x acc) ≡ f x))
    → length (lookup_or [] x values) ≡ f x
unfolding fixed_axis_values
fixed_axis_values_lem f [] axes acc values v h x k =
    let same : acc ≡ values = cc in
    ap (λ m. length (lookup_or [] x m)) (sym same)
    ∙ elim k [ inl e ↦ absurd (ground arith) | inr e ↦ e ]
fixed_axis_values_lem f (name ∷ names) axes acc values v h x k =
    elim (Sum-cases (fixed_values name (lookup_or no_axis name axes))) [
      | inl (e, p) ↦ absurd (ground (arith, p))
      | inr (vs, p) ↦
          let rest : fixed_axis_values names axes (insert name vs acc) ≡ inr values =
            ground (arith, p) in
          let sized : length vs ≡ f name = v.0 vs p in
          fixed_axis_values_lem f names axes (insert name vs acc) values v.1 rest x
            (elim (Bool-cases (name =? x)) [
              | inl e ↦ inr (
                  ap length (lookup_or-insert [] name x vs acc ∙ rw e refl)
                  ∙ sized
                  ∙ ap f ((text_eq.beq_iff name x).0 e))
              | inr e ↦ elim k [
                | inl c ↦ inl (ground (arith, c, e))
                | inr c ↦ inr (ap length (lookup_or-insert [] name x vs acc ∙ rw e refl) ∙ c)
              ]
            ])
    ]

-- The names that are in a list are looked up as the list says.
pub All-contained :
    (f g : Text → ℕ) (xs ys : List Text)
    → ((x : Text) → contains ys x ≡ true → g x ≡ f x)
    → ((x : Text) → contains xs x ≡ true → contains ys x ≡ true)
    → All (λ x. g x ≡ f x) xs
All-contained f g [] ys h k = tt
All-contained f g (x ∷ xs) ys h k = (
  h x (k x (ground (arith, text_eq.beq_iff x x))),
  All-contained f g xs ys h (λ y c. k y (ground (arith, c))),
)

range_values_lem : (d : ℕ) (n : ℤ) → length (range_values d n) ≡ suc d
unfolding range_values
range_values_lem zero n = refl
range_values_lem (suc d) n = ap suc (range_values_lem d (next_int n))

-- A fixed axis has as many values as planned, and a random one draws as many.
pub fixed_values_lem :
    (name : Text) (spec : AxisSpec) (m k : ℕ) (vs : List Text)
    → axis_size name spec m ≡ inr k
    → fixed_values name spec ≡ inr vs
    → length vs ≡ k
unfolding fixed_values axis_size
fixed_values_lem name spec m k vs s h = grind (arith, range_values_lem)

pub count_of_lem :
    (name : Text) (spec : AxisSpec) (m k : ℕ)
    → axis_size name spec m ≡ inr k
    → spec.kind ≡ random_axis
    → count_of spec ≡ k
unfolding axis_size
count_of_lem name spec m k s h = ground arith
