-- ===== src/Prelude/Equality.antt =====
-- Comparable types: the keys of Go's maps, and byte strings.
use Prim.Native.Nat.{ℕ}
use Prim.Native.Char.{code}
use Prim.Native.String.{String}
use mathlib.Core.Path.{◌≡◌, refl}
use mathlib.Core.Logic.{◌↔◌}
use mathlib.Core.Bool.{Bool, true, false, ◌&&◌, ◌||◌}
use mathlib.Core.List.{List, [], ◌∷◌}
use native.Mathlib.Omega.{arith}
use proxy_sampler.Prelude.Tests.{◌==◌ as nat_beq, ==_iff}

pub record Eq {ℓ} (A : Type ℓ) : Type ℓ where
  pub beq : A → A → Bool
  pub beq_iff : (a b : A) → (beq a b ≡ true) ↔ (a ≡ b)

infix 50 ◌=?◌
abbrev pub ◌=?◌ {ℓ} : {A : Type ℓ} ⦃e : Eq A⦄ → A → A → Bool
◌=?◌ ⦃e⦄ = e.beq

instance abbrev pub nat_eq : Eq ℕ
nat_eq = record { beq = nat_beq; beq_iff = ==_iff }

module _ {ℓ} {A : Type ℓ} ⦃e : Eq A⦄ where
  abbrev pub list_beq : List A → List A → Bool
  list_beq [] [] = true
  list_beq [] (y ∷ ys) = false
  list_beq (x ∷ xs) [] = false
  list_beq (x ∷ xs) (y ∷ ys) = (x =? y) && list_beq xs ys

  pub list_beq_iff : (xs ys : List A) → (list_beq xs ys ≡ true) ↔ (xs ≡ ys)
  list_beq_iff [] [] = ground arith
  list_beq_iff [] (y ∷ ys) = ground arith
  list_beq_iff (x ∷ xs) [] = ground arith
  list_beq_iff (x ∷ xs) (y ∷ ys) = ground (arith, e.beq_iff x y, list_beq_iff xs ys)

  instance abbrev pub list_eq : Eq (List A)
  list_eq = record { beq = list_beq; beq_iff = list_beq_iff }

  pub beq_self : (a : A) → (a =? a) ≡ true
  beq_self a = (e.beq_iff a a).1 refl

  -- Membership of a list that stands for a set, or for the keys of a map.
  abbrev pub contains : List A → A → Bool
  contains [] a = false
  contains (x ∷ xs) a = (x =? a) || contains xs a

  -- A set's insertion keeps the order of the first occurrences.
  abbrev pub add : List A → A → List A
  add [] a = a ∷ []
  add (x ∷ xs) a = elim (x =? a) [ true ↦ x ∷ xs | false ↦ x ∷ add xs a ]

  -- Every entry equal to `a` is taken out.
  abbrev pub remove : List A → A → List A
  remove [] a = []
  remove (x ∷ xs) a = elim (x =? a) [ true ↦ remove xs a | false ↦ x ∷ remove xs a ]

  -- No entry stands twice.
  abbrev pub Distinct : List A → Type 0
  Distinct [] = Unit
  Distinct (x ∷ xs) = (contains xs x ≡ false) × Distinct xs

  pub contains-add : (xs : List A) (a b : A) → contains (add xs a) b ≡ (contains xs b || (a =? b))
  contains-add [] a b = ground arith
  contains-add (x ∷ xs) a b = ground (arith, contains-add xs a b, e.beq_iff x a)

  pub add-Distinct : (xs : List A) (a : A) → Distinct xs → Distinct (add xs a)
  add-Distinct [] a h = (refl, tt)
  add-Distinct (x ∷ xs) a h =
      ground (arith, contains-add xs a x, add-Distinct xs a h.1, e.beq_iff x a, e.beq_iff a x)

-- Go's strings are byte strings.
abbrev pub Text : Type 0
Text = List ℕ

-- The bytes of an ASCII literal.
abbrev pub codes : String → Text
codes String.[] = []
codes (String.◌∷◌ c s) = code c ∷ codes s

abbrev pub is_nil {ℓ} : {A : Type ℓ} → List A → Bool
is_nil [] = true
is_nil (x ∷ xs) = false
