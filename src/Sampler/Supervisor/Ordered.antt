-- ===== src/Sampler/Supervisor/Ordered.antt =====
-- The sessions of a deletion in a strict order, without repetitions.
use proxy_sampler.Prelude.{
  ℕ, true, ◌==◌, leb, ◌≤◌, ◌≡◌, refl, ◌∙◌, List, [], ◌∷◌, All, Sorted, sort-Sorted, sort,
  insert_sorted, contains, nat_eq, if-cases, arith, ==_iff, subst,
}
use proxy_sampler.Sampler.Supervisor.Flows.{dedup_from, dedup, ordered}
use proxy_sampler.Sampler.Supervisor.Protocol.{may_acquire, all_in}

-- Each session may be acquired over those that are held by then.
abbrev pub Ascends : List ℕ → List ℕ → Type 0
Ascends held [] = Unit
Ascends held (id ∷ ids) = (may_acquire held id ≡ true) × Ascends (id ∷ held) ids

dedup_from-Ascends :
    (last : ℕ) (held xs : List ℕ)
    → All (λ y. last ≤ y) xs
    → Sorted xs
    → Ascends (last ∷ held) (dedup_from last xs)
dedup_from-Ascends last held [] a s = tt
dedup_from-Ascends last held (x ∷ xs) a s =
    if-cases (Ascends (last ∷ held)) (last == x)
      (λ e.
        subst (λ (y : ℕ). Ascends (y ∷ held) (dedup_from x xs)) (ground arith)
          (dedup_from-Ascends x held xs s.0 s.1))
      (λ e. (ground (arith, a.0), dedup_from-Ascends x (last ∷ held) xs s.0 s.1))

dedup-Ascends : (xs : List ℕ) → Sorted xs → Ascends [] (dedup xs)
dedup-Ascends [] s = tt
dedup-Ascends (x ∷ xs) s = (refl, dedup_from-Ascends x [] xs s.0 s.1)

pub ordered-Ascends : (ids : List ℕ) → Ascends [] (ordered ids)
unfolding ordered
ordered-Ascends ids = dedup-Ascends (sort leb ids) (sort-Sorted ids)

contains-insert_sorted :
    (a j : ℕ) (xs : List ℕ) → contains (insert_sorted leb a xs) j ≡ contains (a ∷ xs) j
contains-insert_sorted a j [] = refl
contains-insert_sorted a j (x ∷ xs) = ground (arith, contains-insert_sorted a j xs)

contains-sort : (j : ℕ) (xs : List ℕ) → contains (sort leb xs) j ≡ contains xs j
contains-sort j [] = refl
contains-sort j (x ∷ xs) =
    ground (arith, contains-insert_sorted x j (sort leb xs), contains-sort j xs)

contains-dedup_from :
    (last j : ℕ) (xs : List ℕ) → contains (last ∷ dedup_from last xs) j ≡ contains (last ∷ xs) j
contains-dedup_from last j [] = refl
contains-dedup_from last j (x ∷ xs) = ground (arith, contains-dedup_from x j xs, ==_iff last x)

pub contains-ordered : (j : ℕ) (ids : List ℕ) → contains (ordered ids) j ≡ contains ids j
unfolding ordered
contains-ordered j ids = contains-dedup (sort leb ids) ∙ contains-sort j ids
  where
    contains-dedup : (xs : List ℕ) → contains (dedup xs) j ≡ contains xs j
    contains-dedup [] = refl
    contains-dedup (x ∷ xs) = contains-dedup_from x j xs

pub all_in-Grows :
    (xs ys zs : List ℕ)
    → ((j : ℕ) → contains ys j ≡ true → contains zs j ≡ true)
    → all_in xs ys ≡ true
    → all_in xs zs ≡ true
all_in-Grows [] ys zs g h = refl
all_in-Grows (x ∷ xs) ys zs g h = ground (arith, g x, all_in-Grows xs ys zs g)

pub all_in-more :
    (xs ys : List ℕ) → ((j : ℕ) → contains xs j ≡ true → contains ys j ≡ true) → all_in xs ys ≡ true
all_in-more [] ys g = refl
all_in-more (x ∷ xs) ys g =
    ground (arith, g x, ==_iff x x, all_in-more xs ys (λ j h. g j (ground arith)))

pub contains_of_all_in :
    (xs ys : List ℕ) (j : ℕ) → all_in xs ys ≡ true → contains xs j ≡ true → contains ys j ≡ true
contains_of_all_in [] ys j h c = absurd (ground arith)
contains_of_all_in (x ∷ xs) ys j h c = ground (arith, contains_of_all_in xs ys j, ==_iff x j)
