-- ===== src/Variation/Expand.antt =====
-- internal/variation/expand.go: a template's variants over its axes. Rendering a template and
-- writing a cell's key are arguments, and so is the source of random values, which numbers its
-- draws.

pub mod Count
pub mod Draws
pub mod Total
pub mod Tests
use proxy_sampler.Prelude.{
  ℕ, zero, suc, ◌+◌, ◌*◌, Bool, true, false, not, ◌&&◌, List, [], ◌∷◌, ◌++◌, map, Option, none,
  some, ◌⊎◌, inl, inr, Text, Map, lookup, lookup_or, insert, keys, contains, length, list_eq,
  nat_eq, is_some, sort, text_leb, ℤ, pos, negsuc, if◌then◌else◌,
}
use proxy_sampler.Variation.Axis.{
  AxisKind, AxisSpec, random_axis, list_axis, range_axis, unknown_axis, no_axis, AxisError,
  no_such_axis, no_placeholder, no_distinct_value, outside, drawn_length, planned_count,
  fixed_axis_values,
}

abbrev pub Params : Type 0
Params = Map Text Text

pub record Variant : Type 0 where
  pub params : Params
  pub cell_key : Text
  pub url : Text

-- The n-th draw of a value of a length.
abbrev pub Draw : Type 0
Draw = ℕ → ℕ → Text ⊎ Text

-- `cartesian`: one name over the combinations so far, and all names.
unfoldable pub with_values : Params → Text → List Text → List Params
with_values base name [] = []
with_values base name (v ∷ vs) = insert name v base ∷ with_values base name vs

unfoldable pub over_bases : List Params → Text → List Text → List Params
unfolding with_values
over_bases [] name vs = []
over_bases (base ∷ bases) name vs = with_values base name vs ++ over_bases bases name vs

unfoldable pub cartesian : List Text → Map Text (List Text) → List Params → List Params
cartesian [] values combos = combos
cartesian (name ∷ names) values combos =
    cartesian names values (over_bases combos name (lookup_or [] name values))

-- `drawDistinct` over the attempts left, with the number of the next draw.
unfoldable pub draw_distinct : Draw → ℕ → ℕ → ℕ → List Text → AxisError ⊎ (Text × ℕ)
draw_distinct rnd zero length n seen = inl (no_distinct_value length)
draw_distinct rnd (suc attempts) length n seen =
    let rest = draw_distinct rnd attempts length (suc n) seen in
    elim (rnd n length) [
      | inl e ↦ inl (outside e)
      | inr value ↦ if contains seen value then rest else inr (value, n + 1)
    ]

-- The inner loop of `randomCartesian` over one base: `count` distinct values.
unfoldable pub draw_values : Draw → ℕ → ℕ → ℕ → ℕ → List Text → AxisError ⊎ (List Text × ℕ)
draw_values rnd zero attempts length n seen = inr ([], n)
draw_values rnd (suc count) attempts length n seen =
    elim (draw_distinct rnd attempts length n seen) [
      | inl e ↦ inl e
      | inr (value, n') ↦ elim (draw_values rnd count attempts length n' (value ∷ seen)) [
        | inl e ↦ inl e
        | inr (values, n'') ↦ inr (value ∷ values, n'')
      ]
    ]

abbrev pub count_of : AxisSpec → ℕ
count_of spec = elim spec.count [ pos c ↦ c | negsuc c ↦ 0 ]

unfoldable pub random_bases :
    Draw → AxisSpec → Text → List Params → ℕ → AxisError ⊎ (List Params × ℕ)
random_bases rnd spec name [] n = inr ([], n)
random_bases rnd spec name (base ∷ bases) n =
    elim (draw_values rnd (count_of spec) (32 * count_of spec) (drawn_length spec.length_of) n []) [
      | inl e ↦ inl e
      | inr (values, n') ↦ elim (random_bases rnd spec name bases n') [
        | inl e ↦ inl e
        | inr (rest, n'') ↦ inr (with_values base name values ++ rest, n'')
      ]
    ]

unfoldable pub random_cartesian :
    Draw → List Text → Map Text AxisSpec → List Params → ℕ → AxisError ⊎ (List Params × ℕ)
random_cartesian rnd [] axes combos n = inr (combos, n)
random_cartesian rnd (name ∷ names) axes combos n =
    elim (random_bases rnd (lookup_or no_axis name axes) name combos n) [
      | inl e ↦ inl e
      | inr (next, n') ↦ random_cartesian rnd names axes next n'
    ]

-- The loops that copy one map's entries over another's.
abbrev pub copy_over : Params → Params → Params
copy_over [] target = target
copy_over ((k, v) ∷ m) target = copy_over m (insert k v target)

abbrev pub is_random : Map Text AxisSpec → Text → Bool
is_random axes name = elim (lookup_or no_axis name axes).kind [ random_axis ↦ true | _ ↦ false ]

abbrev pub those : (Text → Bool) → List Text → List Text
those p [] = []
those p (x ∷ xs) = if p x then x ∷ those p xs else those p xs

module _ (render : Params → Text ⊎ Text) (canonical_key : Params → Text ⊎ Text) (rnd : Draw) where
  -- The variants of one cell.
  unfoldable pub render_all : Params → Text → List Params → AxisError ⊎ List Variant
  render_all cell key [] = inr []
  render_all cell key (combo ∷ combos) =
      let params = copy_over combo (copy_over cell []) in
      let rest = render_all cell key combos in
      elim (render params) [
        | inl e ↦ inl (outside e)
        | inr url ↦ elim rest [
          | inl e ↦ inl e
          | inr vs ↦ inr (record { params = params; cell_key = key; url = url } ∷ vs)
        ]
      ]

  unfoldable pub expand_cells :
      List Text → Map Text AxisSpec → List Params → ℕ → AxisError ⊎ List Variant
  expand_cells random_names axes [] n = inr []
  expand_cells random_names axes (cell ∷ cells) n = elim (canonical_key cell) [
    | inl e ↦ inl (outside e)
    | inr key ↦ elim (random_cartesian rnd random_names axes ([] ∷ []) n) [
      | inl e ↦ inl e
      | inr (combos, n') ↦ elim (render_all cell key combos) [
        | inl e ↦ inl e
        | inr vs ↦ elim (expand_cells random_names axes cells n') [
          | inl e ↦ inl e
          | inr rest ↦ inr (vs ++ rest)
        ]
      ]
    ]
  ]

  -- The two checks in front: the first placeholder without an axis, the first axis without one.
  abbrev pub first_missing : List Text → List Text → Option Text
  first_missing [] present = none
  first_missing (x ∷ xs) present = if contains present x then first_missing xs present else some x

  unfoldable pub expand : List Text → Map Text AxisSpec → ℕ → AxisError ⊎ List Variant
  expand placeholders axes max_variants =
      let random_names = sort text_leb (those (is_random axes) placeholders) in
      let fixed_names = sort text_leb (those (λ name. not (is_random axes name)) placeholders) in
      elim (first_missing placeholders (keys axes)) [
        | some name ↦ inl (no_such_axis name)
        | none ↦ elim (first_missing (keys axes) placeholders) [
          | some name ↦ inl (no_placeholder name)
          | none ↦ elim (planned_count placeholders axes max_variants) [
            | inl e ↦ inl e
            | inr total ↦ elim (fixed_axis_values fixed_names axes []) [
              | inl e ↦ inl e
              | inr values ↦
                  expand_cells random_names axes (cartesian fixed_names values ([] ∷ [])) 0
            ]
          ]
        ]
      ]
