-- ===== src/Prelude/Sums.antt =====
-- Sums over lists that stand for sets: they do not depend on the order.
use Prim.Native.Nat.{ℕ, suc, ◌+◌, ◌*◌}
use mathlib.Core.Path.{◌≡◌, refl, sym, ap, ◌∙◌}
use mathlib.Core.Bool.{Bool, true, false, not, ◌&&◌, ◌||◌}
use mathlib.Core.List.{List, [], ◌∷◌, ◌++◌}
use native.Mathlib.Omega.{arith}
use native.Mathlib.Nat.{mul_left_comm}
use proxy_sampler.Prelude.Tests.{if◌then◌else◌, if-cases}
use proxy_sampler.Prelude.Sort.{insert_sorted, sort}
use proxy_sampler.Prelude.Lists.{length, count}
use proxy_sampler.Prelude.Equality.{
  Eq, ◌=?◌, contains, add, remove, Distinct, contains-add, add-Distinct,
}

abbrev pub sum_of {ℓ} : {A : Type ℓ} → (A → ℕ) → List A → ℕ
sum_of f [] = 0
sum_of f (x ∷ xs) = f x + sum_of f xs

abbrev pub prod_of {ℓ} : {A : Type ℓ} → (A → ℕ) → List A → ℕ
prod_of f [] = 1
prod_of f (x ∷ xs) = f x * prod_of f xs

module _ {ℓ} {A : Type ℓ} where
  prod_of-insert_sorted :
      (le : A → A → Bool) (f : A → ℕ) (a : A) (xs : List A)
      → prod_of f (insert_sorted le a xs) ≡ f a * prod_of f xs
  prod_of-insert_sorted le f a [] = refl
  prod_of-insert_sorted le f a (x ∷ xs) =
      if-cases (λ ys. prod_of f ys ≡ f a * (f x * prod_of f xs)) (le a x) (λ _. refl)
        (λ _.
          ap (◌*◌ (f x)) (prod_of-insert_sorted le f a xs)
          ∙ mul_left_comm (f x) (f a) (prod_of f xs))

  pub prod_of-sort :
      (le : A → A → Bool) (f : A → ℕ) (xs : List A) → prod_of f (sort le xs) ≡ prod_of f xs
  prod_of-sort le f [] = refl
  prod_of-sort le f (x ∷ xs) =
      prod_of-insert_sorted le f x (sort le xs) ∙ ap (◌*◌ (f x)) (prod_of-sort le f xs)

module _ {ℓ} {A : Type ℓ} where
  pub sum_of-append : (f : A → ℕ) (xs ys : List A) → sum_of f (xs ++ ys) ≡ sum_of f xs + sum_of f ys
  sum_of-append f [] ys = omega arith
  sum_of-append f (x ∷ xs) ys = omega (arith, sum_of-append f xs ys)

  pub count-sum_of :
      (p : A → Bool) (xs : List A) → count p xs ≡ sum_of (λ x. if p x then 1 else 0) xs
  count-sum_of p [] = refl
  count-sum_of p (x ∷ xs) = ground (arith, count-sum_of p xs)

module _ {ℓ} {A : Type ℓ} ⦃e : Eq A⦄ where
  pub contains-remove :
      (xs : List A) (a b : A) → contains (remove xs a) b ≡ (contains xs b && not (a =? b))
  contains-remove [] a b = refl
  contains-remove (x ∷ xs) a b =
      ground (arith, contains-remove xs a b, e.beq_iff x a, e.beq_iff x b, e.beq_iff a b)

  pub remove-Distinct : (xs : List A) (a : A) → Distinct xs → Distinct (remove xs a)
  remove-Distinct [] a h = tt
  remove-Distinct (x ∷ xs) a h = ground (arith, contains-remove xs a x, remove-Distinct xs a h.1)

  remove_absent : (xs : List A) (a : A) → contains xs a ≡ false → remove xs a ≡ xs
  remove_absent [] a h = refl
  remove_absent (x ∷ xs) a h = ground (arith, remove_absent xs a)

  sum_of-remove :
      (f : A → ℕ) (xs : List A) (a : A)
      → Distinct xs
      → contains xs a ≡ true
      → sum_of f xs ≡ f a + sum_of f (remove xs a)
  sum_of-remove f [] a d h = ground arith
  sum_of-remove f (x ∷ xs) a d h =
      ground (arith, sum_of-remove f xs a d.1, remove_absent xs a, e.beq_iff x a)

  -- Two sets with the same elements have the same sum.
  pub sum_of_same :
      (f : A → ℕ) (xs ys : List A)
      → Distinct xs
      → Distinct ys
      → ((a : A) → contains xs a ≡ contains ys a)
      → sum_of f xs ≡ sum_of f ys
  sum_of_same f [] [] dx dy h = refl
  sum_of_same f [] (y ∷ ys) dx dy h = ground (arith, h y, e.beq_iff y y)
  sum_of_same f (x ∷ xs) ys dx dy h = omega (
    arith,
    sum_of-remove f ys x dy ((sym (h x)) ∙ ground (arith, e.beq_iff x x)),
    sum_of_same f xs (remove ys x) dx.1 (remove-Distinct ys x dy)
        (λ a. ground (arith, contains-remove ys x a, h a, e.beq_iff x a, dx.0)),
  )

  -- Adding a set to a list.
  abbrev pub add_all : List A → List A → List A
  add_all xs [] = xs
  add_all xs (y ∷ ys) = add_all (add xs y) ys

  pub add_all-append : (xs ys zs : List A) → add_all xs (ys ++ zs) ≡ add_all (add_all xs ys) zs
  add_all-append xs [] zs = refl
  add_all-append xs (y ∷ ys) zs = add_all-append (add xs y) ys zs

  pub contains-add_all :
      (xs ys : List A) (a : A) → contains (add_all xs ys) a ≡ (contains xs a || contains ys a)
  contains-add_all xs [] a = ground arith
  contains-add_all xs (y ∷ ys) a =
      ground (arith, contains-add_all (add xs y) ys a, contains-add xs y a)

  pub add_all-Distinct : (xs ys : List A) → Distinct xs → Distinct (add_all xs ys)
  add_all-Distinct xs [] h = h
  add_all-Distinct xs (y ∷ ys) h = add_all-Distinct (add xs y) ys (add-Distinct xs y h)

  pub length-add :
      (xs : List A) (a : A)
      → length (add xs a) ≡ (if contains xs a then length xs else suc (length xs))
  length-add [] a = refl
  length-add (x ∷ xs) a = ground (arith, length-add xs a)

  pub add_absent : (xs : List A) (a : A) → contains xs a ≡ false → add xs a ≡ xs ++ a ∷ []
  add_absent [] a h = refl
  add_absent (x ∷ xs) a h = ground (arith, add_absent xs a)
