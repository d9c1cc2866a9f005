-- ===== src/Prelude/Maps.antt =====
-- Go's maps as association lists with distinct keys. A range over a map visits the entries in
-- the list's order, and the theorems do not depend on which order that is.
use mathlib.Core.Path.{◌≡◌, refl}
use mathlib.Core.Bool.{Bool, true, false, ◌||◌}
use mathlib.Core.List.{List, [], ◌∷◌}
use mathlib.Core.Option.{Option, none, some}
use native.Mathlib.Omega.{arith}
use proxy_sampler.Prelude.Tests.{if◌then◌else◌}
use proxy_sampler.Prelude.Equality.{Eq, ◌=?◌, contains, Distinct}

abbrev pub Map {ℓ κ} : Type ℓ → Type κ → Type (ℓ ⊔ κ)
Map K V = List (K × V)

abbrev pub is_some {ℓ} : {A : Type ℓ} → Option A → Bool
is_some none = false
is_some (some a) = true

module _ {ℓ κ} {K : Type ℓ} {V : Type κ} where
  abbrev pub keys : Map K V → List K
  keys [] = []
  keys (e ∷ m) = e.0 ∷ keys m

module _ {ℓ κ} {K : Type ℓ} {V : Type κ} ⦃e : Eq K⦄ where
  abbrev pub lookup : K → Map K V → Option V
  lookup k [] = none
  lookup k ((j, v) ∷ m) = if j =? k then some v else lookup k m

  abbrev pub insert : K → V → Map K V → Map K V
  insert k v [] = (k, v) ∷ []
  insert k v ((j, w) ∷ m) = if j =? k then (k, v) ∷ m else (j, w) ∷ insert k v m

  -- `delete(m, k)`.
  abbrev pub delete : K → Map K V → Map K V
  delete k [] = []
  delete k ((j, w) ∷ m) = if j =? k then m else (j, w) ∷ delete k m

  -- `m[k]`, which is the zero value for a missing key.
  abbrev pub lookup_or : V → K → Map K V → V
  lookup_or d k [] = d
  lookup_or d k ((j, v) ∷ m) = if j =? k then v else lookup_or d k m

  pub lookup-insert :
      (k j : K) (v : V) (m : Map K V)
      → lookup j (insert k v m) ≡ (if k =? j then some v else lookup j m)
  lookup-insert k j v [] = refl
  lookup-insert k j v ((i, w) ∷ m) =
      ground (arith, e.beq_iff k j, e.beq_iff i k, e.beq_iff i j, lookup-insert k j v m)

  pub lookup_or-insert :
      (d : V) (k j : K) (v : V) (m : Map K V)
      → lookup_or d j (insert k v m) ≡ (if k =? j then v else lookup_or d j m)
  lookup_or-insert d k j v [] = refl
  lookup_or-insert d k j v ((i, w) ∷ m) =
      ground (arith, e.beq_iff k j, e.beq_iff i k, e.beq_iff i j, lookup_or-insert d k j v m)

  pub contains-keys-insert :
      (k j : K) (v : V) (m : Map K V)
      → contains (keys (insert k v m)) j ≡ (contains (keys m) j || (k =? j))
  contains-keys-insert k j v [] = ground arith
  contains-keys-insert k j v ((i, w) ∷ m) =
      ground (arith, e.beq_iff k j, e.beq_iff i k, e.beq_iff i j, contains-keys-insert k j v m)

  pub insert-Distinct :
      (k : K) (v : V) (m : Map K V) → Distinct (keys m) → Distinct (keys (insert k v m))
  insert-Distinct k v [] h = (refl, tt)
  insert-Distinct k v ((i, w) ∷ m) h =
      ground (
        arith,
        contains-keys-insert k i v m,
        insert-Distinct k v m h.1,
        e.beq_iff i k,
        e.beq_iff k i,
      )

  pub lookup-delete :
      (k j : K) (m : Map K V)
      → Distinct (keys m)
      → lookup j (delete k m) ≡ (if k =? j then none else lookup j m)
  lookup-delete k j [] h = ground arith
  lookup-delete k j ((i, w) ∷ m) h = ground (
    arith,
    e.beq_iff k j,
    e.beq_iff i k,
    e.beq_iff i j,
    lookup-delete k j m h.1,
    lookup_absent i m h.0,
  )
    where
      lookup_absent : (i : K) (m : Map K V) → contains (keys m) i ≡ false → lookup i m ≡ none
      lookup_absent i [] h = refl
      lookup_absent i ((l, w) ∷ m) h = ground (arith, lookup_absent i m, e.beq_iff l i)

  -- A key is present exactly where the lookup finds a value.
  pub contains-keys : (k : K) (m : Map K V) → contains (keys m) k ≡ is_some (lookup k m)
  contains-keys k [] = refl
  contains-keys k ((j, v) ∷ m) = ground (arith, contains-keys k m)

  contains-keys-delete :
      (k j : K) (m : Map K V) → contains (keys m) j ≡ false → contains (keys (delete k m)) j ≡ false
  contains-keys-delete k j [] h = refl
  contains-keys-delete k j ((i, w) ∷ m) h = ground (arith, contains-keys-delete k j m)

  pub delete-Distinct : (k : K) (m : Map K V) → Distinct (keys m) → Distinct (keys (delete k m))
  delete-Distinct k [] h = tt
  delete-Distinct k ((i, w) ∷ m) h =
      ground (arith, delete-Distinct k m h.1, contains-keys-delete k i m)
