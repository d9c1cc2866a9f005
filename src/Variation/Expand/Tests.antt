-- ===== src/Variation/Expand/Tests.antt =====
-- Runs of the expansion, and its theorems at them.
use proxy_sampler.Prelude.{
  zero, suc, ◌+◌, ◌≤◌, ◌≡◌, refl, false, List, [], ◌∷◌, ◌⊎◌, inl, inr, Text, codes, Map, length,
  Distinct, list_eq, nat_eq, contains, All, prod_of, pos, arith,
}
use proxy_sampler.Variation.Axis.{
  AxisSpec, range_axis, random_axis, axis_size, planned_loop, planned_count, fixed_values,
  fixed_axis_values, range_values, random_space, space_loop,
}
use proxy_sampler.Variation.Expand.{
  Params, Variant, Draw, with_values, over_bases, cartesian, draw_distinct, draw_values,
  random_bases, random_cartesian, render_all, expand_cells, expand,
}
use proxy_sampler.Variation.Expand.Count.{size_of}
use proxy_sampler.Variation.Expand.Draws.{draw_values-Distinct}
use proxy_sampler.Variation.Expand.Total.{expand_lem}

-- A source whose second draw repeats its first.
abbrev draws : Draw
draws zero len = inr (97 ∷ [])
draws (suc zero) len = inr (97 ∷ [])
draws (suc (suc n)) len = inr ((98 + n) ∷ [])

-- One whose draws all differ.
abbrev late : Draw
late n len = inr (n ∷ [])

abbrev ports : AxisSpec
ports = record {
  kind = range_axis;
  values = [];
  from = pos 8000;
  to = pos 8002;
  count = pos 0;
  length_of = pos 0;
}

abbrev sessions : AxisSpec
sessions = record {
  kind = random_axis;
  values = [];
  from = pos 0;
  to = pos 0;
  count = pos 2;
  length_of = pos 1;
}

abbrev two_axes : Map Text AxisSpec
two_axes = (codes "port", ports) ∷ (codes "sid", sessions) ∷ []

abbrev two_names : List Text
two_names = codes "port" ∷ codes "sid" ∷ []

abbrev plain : Params → Text ⊎ Text
plain params = inr []

abbrev found {ℓ κ} : {A : Type ℓ} {B : Type κ} → A ⊎ List B → List B
found (inl a) = []
found (inr bs) = bs

abbrev some_variants : List Variant
some_variants = found (expand plain plain late two_names two_axes 100)

expand_lem_example :
    (length some_variants ≡ prod_of (size_of two_axes 100) two_names)
    × (length some_variants ≤ 100)
    × (1 ≤ length some_variants)
unfolding expand expand_cells render_all random_cartesian random_bases draw_values draw_distinct
    cartesian over_bases with_values planned_count planned_loop axis_size random_space space_loop
    fixed_axis_values fixed_values range_values
expand_lem_example =
    expand_lem plain plain late two_names two_axes 100 some_variants (omega arith) refl

draw_values-Distinct_example :
    (length (codes "a" ∷ codes "b" ∷ []) ≡ 2)
    × Distinct (codes "a" ∷ codes "b" ∷ [])
    × All (λ v. contains [] v ≡ false) (codes "a" ∷ codes "b" ∷ [])
unfolding draw_values draw_distinct
draw_values-Distinct_example =
    draw_values-Distinct draws 2 64 1 0 [] (codes "a" ∷ codes "b" ∷ []) 3 refl
