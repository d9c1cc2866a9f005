-- ===== src/Variation/Axis.antt =====
-- internal/variation/axis.go, and the count of variants and the values of the fixed axes from
-- expand.go. An `int` is its value, and the width of a range its wrapped difference.
use proxy_sampler.Prelude.{
  ℕ, zero, suc, ◌+◌, ◌-◌, ◌*◌, ◌/◌, ◌%◌, ◌^◌, Bool, true, not, ◌&&◌, ◌||◌, ltb, leb, ◌==◌, List, [],
  ◌∷◌, ◌++◌, Option, none, some, ◌⊎◌, inl, inr, Text, Map, lookup_or, insert, length, list_eq,
  nat_eq, ℤ, pos, negsuc, if◌then◌else◌,
}
use proxy_sampler.Go.Ints.{Int64, is_negative}

pub data AxisKind : Type 0 where
  list_axis range_axis random_axis unknown_axis : AxisKind

pub record AxisSpec : Type 0 where
  pub kind : AxisKind
  pub values : List Text
  pub from : ℤ
  pub to : ℤ
  pub count : ℤ
  pub length_of : ℤ

-- The zero value, which a missing key of the map gives.
abbrev pub no_axis : AxisSpec
no_axis = record {
  kind = unknown_axis;
  values = [];
  from = pos 0;
  to = pos 0;
  count = pos 0;
  length_of = pos 0;
}

abbrev pub max_random_length : ℕ
max_random_length = 64

abbrev pub default_random_length : ℕ
default_random_length = 8

abbrev pub alphabet_size : ℕ
alphabet_size = 36

pub data AxisError : Type 0 where
  no_values from_above_to too_wide count_below_one bad_length too_many_values unknown_kind :
      Text → AxisError
  over_limit no_variants : AxisError
  no_such_axis no_placeholder not_fixed : Text → AxisError
  no_distinct_value : ℕ → AxisError
  outside : Text → AxisError

-- `to - from` where `from` is not above `to`; none where it is.
abbrev pub gap : ℤ → ℤ → Option ℕ
gap (pos a) (pos b) = if leb a b then some (b - a) else none
gap (pos a) (negsuc b) = none
gap (negsuc a) (pos b) = some (a + 1 + b)
gap (negsuc a) (negsuc b) = if leb b a then some (a - b) else none

-- The loop of `randomSpace`, with the rest of `length` and the space so far in 64 bits.
unfoldable pub space_loop : ℕ → Int64 → ℕ → Bool
space_loop zero space count = not (is_negative space) && leb count space
space_loop (suc n) space count =
    let wider = (space * alphabet_size) % 2 ^ 64 in
    let rest = space_loop n wider count in
    if not (is_negative wider) && leb count wider then true else rest

unfoldable pub random_space : ℕ → ℕ → Bool
random_space length count = space_loop length 1 count

abbrev pub drawn_length : ℤ → ℕ
drawn_length (pos zero) = default_random_length
drawn_length (pos (suc n)) = suc n
drawn_length (negsuc n) = default_random_length

-- How many values an axis has, by the cases of `plannedCount`.
unfoldable pub axis_size : Text → AxisSpec → ℕ → AxisError ⊎ ℕ
axis_size name spec max_variants = elim spec.kind [
  | list_axis ↦ if length spec.values == 0 then inl (no_values name) else inr (length spec.values)
  | range_axis ↦ elim (gap spec.from spec.to) [
    | none ↦ inl (from_above_to name)
    | some d ↦ if leb (2 ^ 63) d || leb max_variants d then inl (too_wide name) else inr (d + 1)
  ]
  | random_axis ↦ elim spec.count [
    | negsuc c ↦ inl (count_below_one name)
    | pos c ↦ if c == 0 then inl (count_below_one name) else elim spec.length_of [
      | negsuc l ↦ inl (bad_length name)
      | pos l ↦
          if ltb max_random_length l
          then inl (bad_length name)
          else if not (random_space (drawn_length (pos l)) c)
          then inl (too_many_values name)
          else inr c
    ]
  ]
  | unknown_axis ↦ inl (unknown_kind name)
]

-- The loop of `plannedCount`, with its running product.
unfoldable pub planned_loop : List Text → Map Text AxisSpec → ℕ → ℕ → AxisError ⊎ ℕ
planned_loop [] axes max_variants total = inr total
planned_loop (name ∷ names) axes max_variants total =
    elim (axis_size name (lookup_or no_axis name axes) max_variants) [
      | inl e ↦ inl e
      | inr size ↦
          if ltb max_variants size || ltb (max_variants / size) total
          then inl over_limit
          else planned_loop names axes max_variants (total * size)
    ]

unfoldable pub planned_count : List Text → Map Text AxisSpec → ℕ → AxisError ⊎ ℕ
planned_count placeholders axes max_variants =
    elim (planned_loop placeholders axes max_variants 1) [
      | inl e ↦ inl e
      | inr total ↦ if total == 0 then inl no_variants else inr total
    ]

-- `strconv.Itoa`, on fuel that the number itself gives.
abbrev pub digits : ℕ → ℕ → Text
digits zero n = []
digits (suc fuel) n =
    let front = digits fuel (n / 10) in (if ltb n 10 then [] else front) ++ (48 + n % 10) ∷ []

abbrev pub itoa : ℤ → Text
itoa (pos n) = digits (suc n) n
itoa (negsuc n) = 45 ∷ digits (suc (suc n)) (suc n)

abbrev pub next_int : ℤ → ℤ
next_int (pos n) = pos (suc n)
next_int (negsuc zero) = pos 0
next_int (negsuc (suc n)) = negsuc n

-- The loop from `n` that appends before it looks for the end, `d` steps before it.
unfoldable pub range_values : ℕ → ℤ → List Text
range_values zero n = itoa n ∷ []
range_values (suc d) n = itoa n ∷ range_values d (next_int n)

-- The values of one fixed axis.
unfoldable pub fixed_values : Text → AxisSpec → AxisError ⊎ List Text
fixed_values name spec = elim spec.kind [
  | list_axis ↦ if length spec.values == 0 then inl (no_values name) else inr spec.values
  | range_axis ↦ elim (gap spec.from spec.to) [
    | none ↦ inl (from_above_to name)
    | some d ↦ inr (range_values d spec.from)
  ]
  | random_axis ↦ inl (not_fixed name)
  | unknown_axis ↦ inl (not_fixed name)
]

unfoldable pub fixed_axis_values :
    List Text → Map Text AxisSpec → Map Text (List Text) → AxisError ⊎ Map Text (List Text)
fixed_axis_values [] axes values = inr values
fixed_axis_values (name ∷ names) axes values =
    elim (fixed_values name (lookup_or no_axis name axes)) [
      | inl e ↦ inl e
      | inr vs ↦ fixed_axis_values names axes (insert name vs values)
    ]
