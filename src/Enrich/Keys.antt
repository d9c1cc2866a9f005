-- ===== src/Enrich/Keys.antt =====
-- internal/enrich/service.go: the lock that a lookup holds for its address, `acquireKey` and
-- `releaseKeyReference`, and any number of lookups interleaved at what they do to it.
pub mod Kept
pub mod Steps
pub mod Exclusion
pub mod Tests
use proxy_sampler.Prelude.{
  ℕ, suc, ◌-◌, ◌≡◌, Bool, true, false, ◌==◌, ◌&&◌, List, [], ◌∷◌, ◌++◌, Option, none, some, Map,
  lookup, insert, delete, nat_eq, if◌then◌else◌,
}
use proxy_sampler.Go.Addr.{Addr, addr_eq}

-- `enrichmentKey`: whether its channel holds the token, and its references. The theorems show that
-- the count is positive wherever it is decremented.
pub record Key : Type 0 where
  pub token : Bool
  pub refs : ℕ

-- The map, and the keys that were ever allocated, by their pointers.
pub record Locks : Type 0 where
  pub keys : Map Addr ℕ
  pub heap : ℕ → Key
  pub next : ℕ

abbrev pub new_key : Key
new_key = record { token = true; refs = 0 }

abbrev pub new_locks : Locks
new_locks = record { keys = []; heap = λ k. new_key; next = 0 }

abbrev pub put : ℕ → Key → (ℕ → Key) → ℕ → Key
put k key heap j = if j == k then key else heap j

abbrev pub points_to : Option ℕ → ℕ → Bool
points_to none k = false
points_to (some j) k = j == k

-- The part of `acquireKey` under the mutex, with the key that it takes a reference to.
unfoldable pub register : Addr → Locks → Locks × ℕ
register ip l = elim (lookup ip l.keys) [
  | some k ↦
      (record l { heap = put k (record (l.heap k) { refs = suc (l.heap k).refs }) l.heap }, k)
  | none ↦ (
    record l {
      keys = insert ip l.next l.keys;
      heap = put l.next (record new_key { refs = 1 }) l.heap;
      next = suc l.next;
    },
    l.next,
  )
]

-- `<-key.token` and `key.token <- struct{}{}`.
abbrev pub set_token : Bool → ℕ → Locks → Locks
set_token b k l = record l { heap = put k (record (l.heap k) { token = b }) l.heap }

unfoldable pub release_key_reference : Addr → ℕ → Locks → Locks
release_key_reference ip k l =
    let refs = (l.heap k).refs - 1 in
    let heap = put k (record (l.heap k) { refs = refs }) l.heap in
    if (refs == 0) && points_to (lookup ip l.keys) k
    then record l { keys = delete ip l.keys; heap = heap }
    else record l { heap = heap }

-- Where a lookup stands that has a reference: it waits for the token, holds the key, or has only its
-- reference left to release.
pub data Stage : Type 0 where
  waiting : Stage
  holding : Stage
  leaving : Stage

pub record Caller : Type 0 where
  pub ip : Addr
  pub key : ℕ
  pub stage : Stage

abbrev pub at : Addr → ℕ → Stage → Caller
at ip k stage = record { ip = ip; key = k; stage = stage }

-- One step of one lookup, with those before and after it.
pub data Step (l : Locks) : List Caller → Locks → List Caller → Type 0 where
  arrive :
      (ip : Addr) (cs : List Caller)
      → Step l cs ((register ip l).0) (at ip ((register ip l).1) waiting ∷ cs)
  take_token :
      (ip : Addr) (k : ℕ) (bs cs : List Caller)
      → (l.heap k).token ≡ true
      → Step l (bs ++ at ip k waiting ∷ cs) (set_token false k l) (bs ++ at ip k holding ∷ cs)
  cancel :
      (ip : Addr) (k : ℕ) (bs cs : List Caller)
      → Step l (bs ++ at ip k waiting ∷ cs) l (bs ++ at ip k leaving ∷ cs)
  put_token :
      (ip : Addr) (k : ℕ) (bs cs : List Caller)
      → (l.heap k).token ≡ false
      → Step l (bs ++ at ip k holding ∷ cs) (set_token true k l) (bs ++ at ip k leaving ∷ cs)
  leave :
      (ip : Addr) (k : ℕ) (bs cs : List Caller)
      → Step l (bs ++ at ip k leaving ∷ cs) (release_key_reference ip k l) (bs ++ cs)

pub data Reach : Locks → List Caller → Type 0 where
  idle : Reach new_locks []
  later : {l m : Locks} {bs cs : List Caller} → Reach l bs → Step l bs m cs → Reach m cs
