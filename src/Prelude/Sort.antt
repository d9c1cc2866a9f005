-- ===== src/Prelude/Sort.antt =====
-- The sorting that the library of the source does, as insertion sort: a sorted permutation of a
-- list of numbers, or of byte strings, is one list, whichever algorithm computes it.
use Prim.Native.Nat.{ℕ, zero, suc, ◌+◌, ◌-◌, ◌≤◌, ◌<◌}
use mathlib.Core.Path.{◌≡◌, refl, sym, subst}
use mathlib.Core.Logic.{inl, inr}
use mathlib.Core.Bool.{Bool, true, false}
use mathlib.Core.List.{List, [], ◌∷◌}
use native.Mathlib.Omega.{arith}
use proxy_sampler.Prelude.Tests.{leb, ltb, ◌==◌, Bool-cases, if◌then◌else◌}
use proxy_sampler.Prelude.Lists.{length, count, All, get_or}
use proxy_sampler.Prelude.Equality.{Text}

module _ {ℓ} {A : Type ℓ} (le : A → A → Bool) where
  abbrev pub insert_sorted : A → List A → List A
  insert_sorted a [] = a ∷ []
  insert_sorted a (x ∷ xs) = if le a x then a ∷ x ∷ xs else x ∷ insert_sorted a xs

  abbrev pub sort : List A → List A
  sort [] = []
  sort (x ∷ xs) = insert_sorted x (sort xs)

  pub length-insert_sorted : (a : A) (xs : List A) → length (insert_sorted a xs) ≡ suc (length xs)
  length-insert_sorted a [] = refl
  length-insert_sorted a (x ∷ xs) = ground (arith, length-insert_sorted a xs)

  pub length-sort : (xs : List A) → length (sort xs) ≡ length xs
  length-sort [] = refl
  length-sort (x ∷ xs) = ground (arith, length-insert_sorted x (sort xs), length-sort xs)

  count-insert_sorted :
      (p : A → Bool) (a : A) (xs : List A) → count p (insert_sorted a xs) ≡ count p (a ∷ xs)
  count-insert_sorted p a [] = refl
  count-insert_sorted p a (x ∷ xs) = ground (arith, count-insert_sorted p a xs)

  -- Sorting keeps every entry, as often as it stands there.
  pub count-sort : (p : A → Bool) (xs : List A) → count p (sort xs) ≡ count p xs
  count-sort p [] = refl
  count-sort p (x ∷ xs) = ground (arith, count-insert_sorted p x (sort xs), count-sort p xs)

  All-insert_sorted {κ} :
      (P : A → Type κ) (a : A) (xs : List A) → P a → All P xs → All P (insert_sorted a xs)
  All-insert_sorted P a [] h k = (h, tt)
  All-insert_sorted P a (x ∷ xs) h k =
      elim (le a x) as (λ b. All P (if b then a ∷ x ∷ xs else x ∷ insert_sorted a xs)) [
        | true ↦ (h, k)
        | false ↦ (k.0, All-insert_sorted P a xs h k.1)
      ]

  pub All-sort {κ} : (P : A → Type κ) (xs : List A) → All P xs → All P (sort xs)
  All-sort P [] h = tt
  All-sort P (x ∷ xs) h = All-insert_sorted P x (sort xs) h.0 (All-sort P xs h.1)

-- Byte strings in the order of `sort.Strings`.
abbrev pub text_leb : Text → Text → Bool
text_leb [] t = true
text_leb (a ∷ s) [] = false
text_leb (a ∷ s) (b ∷ t) = if ltb a b then true else if ltb b a then false else text_leb s t

abbrev pub Sorted : List ℕ → Type 0
Sorted [] = Unit
Sorted (x ∷ xs) = All (λ y. x ≤ y) xs × Sorted xs

All-weaken : (a b : ℕ) (xs : List ℕ) → a ≤ b → All (λ y. b ≤ y) xs → All (λ y. a ≤ y) xs
All-weaken a b [] h k = tt
All-weaken a b (x ∷ xs) h k = (omega arith, All-weaken a b xs h k.1)

insert_sorted-Sorted : (a : ℕ) (xs : List ℕ) → Sorted xs → Sorted (insert_sorted leb a xs)
insert_sorted-Sorted a [] h = (tt, tt)
insert_sorted-Sorted a (x ∷ xs) h = ground (
  arith,
  insert_sorted-Sorted a xs h.1,
  All-insert_sorted leb (λ y. x ≤ y) a xs,
  All-weaken a x xs,
)

pub sort-Sorted : (xs : List ℕ) → Sorted (sort leb xs)
sort-Sorted [] = tt
sort-Sorted (x ∷ xs) = insert_sorted-Sorted x (sort leb xs) (sort-Sorted xs)

All-get_or :
    (a : ℕ) (xs : List ℕ) (i d : ℕ) → All (λ y. a ≤ y) xs → i < length xs → a ≤ get_or xs i d
All-get_or a [] i d h k = absurd (omega arith)
All-get_or a (x ∷ xs) zero d h k = h.0
All-get_or a (x ∷ xs) (suc i) d h k = All-get_or a xs i d h.1 (omega arith)

-- A sorted list read at two places.
pub get_or_mono :
    (xs : List ℕ) (i j d : ℕ) → Sorted xs → i ≤ j → j < length xs → get_or xs i d ≤ get_or xs j d
get_or_mono [] i j d h k l = absurd (omega arith)
get_or_mono (x ∷ xs) zero zero d h k l = omega arith
get_or_mono (x ∷ xs) zero (suc j) d h k l = All-get_or x xs j d h.0 (omega arith)
get_or_mono (x ∷ xs) (suc i) zero d h k l = absurd (omega arith)
get_or_mono (x ∷ xs) (suc i) (suc j) d h k l = get_or_mono xs i j d h.1 (omega arith) (omega arith)

All-of_insert_sorted {κ} :
    (P : ℕ → Type κ) (a : ℕ) (xs : List ℕ) → All P (insert_sorted leb a xs) → P a × All P xs
All-of_insert_sorted P a [] h = (h.0, tt)
All-of_insert_sorted P a (x ∷ xs) h = elim (Bool-cases (leb a x)) [
  | inl e ↦ let g = rw e at h in (g.0, g.1)
  | inr e ↦ let g = rw e at h in let r = All-of_insert_sorted P a xs g.1 in (r.0, (g.0, r.1))
]

-- What holds of every entry of the sorted list holds of every entry.
pub All-of_sort {κ} : (P : ℕ → Type κ) (xs : List ℕ) → All P (sort leb xs) → All P xs
All-of_sort P [] h = tt
All-of_sort P (x ∷ xs) h =
    let r = All-of_insert_sorted P x (sort leb xs) h in (r.0, All-of_sort P xs r.1)

-- The ends of a sorted list bound it.
pub Sorted-first : (xs : List ℕ) → Sorted xs → All (λ t. get_or xs 0 0 ≤ t) xs
Sorted-first [] h = tt
Sorted-first (x ∷ xs) h = (omega arith, h.0)

last : (x : ℕ) (xs : List ℕ) → ℕ
last x [] = x
last x (y ∷ xs) = last y xs

last-get_or : (x : ℕ) (xs : List ℕ) → get_or (x ∷ xs) (length (x ∷ xs) - 1) 0 ≡ last x xs
unfolding last
last-get_or x [] = refl
last-get_or x (y ∷ xs) =
    let e : suc (suc (length xs)) - 1 ≡ suc (suc (length xs) - 1) = omega arith in
    rw e (last-get_or y xs)

last_bound : (x : ℕ) (xs : List ℕ) → Sorted (x ∷ xs) → All (λ t. t ≤ last x xs) (x ∷ xs)
unfolding last
last_bound x [] h = (omega arith, tt)
last_bound x (y ∷ xs) h = let r = last_bound y xs h.1 in (omega arith, r)

pub Sorted-last : (xs : List ℕ) → Sorted xs → All (λ t. t ≤ get_or xs (length xs - 1) 0) xs
Sorted-last [] h = tt
Sorted-last (x ∷ xs) h =
    subst (λ m. All (λ t. t ≤ m) (x ∷ xs)) (sym (last-get_or x xs)) (last_bound x xs h)

-- An entry of a list stands in it.
pub count-get_or : (xs : List ℕ) (i : ℕ) → i < length xs → 0 < count (λ t. t == get_or xs i 0) xs
count-get_or [] i h = absurd (omega arith)
count-get_or (x ∷ xs) zero h = ground arith
count-get_or (x ∷ xs) (suc i) h = ground (arith, count-get_or xs i)

-- How many entries of a sorted list lie on either side of a place.
pub count-le-get_or :
    (xs : List ℕ) (i m : ℕ)
    → Sorted xs
    → i < length xs
    → get_or xs i 0 ≤ m
    → suc i ≤ count (λ t. leb t m) xs
count-le-get_or [] i m s h e = absurd (omega arith)
count-le-get_or (x ∷ xs) zero m s h e = ground arith
count-le-get_or (x ∷ xs) (suc i) m s h e =
    ground (arith, count-le-get_or xs i m s.1, All-get_or x xs i 0 s.0)

pub count-ge-get_or :
    (xs : List ℕ) (i m : ℕ)
    → Sorted xs
    → i < length xs
    → m ≤ get_or xs i 0
    → length xs ≤ i + count (λ t. leb m t) xs
count-ge-get_or [] i m s h e = absurd (omega arith)
count-ge-get_or (x ∷ []) zero m s h e = ground arith
count-ge-get_or (x ∷ y ∷ xs) zero m s h e =
    ground (arith, count-ge-get_or (y ∷ xs) zero m s.1, s.0.0)
count-ge-get_or (x ∷ xs) (suc i) m s h e = ground (arith, count-ge-get_or xs i m s.1)
