-- ===== src/Sampler/Supervisor/Protocol.antt =====
-- The order in which an operation of the supervisor may act, as a monitor of its actions.
use mathlib.Core.Bool.{false≢true}
use proxy_sampler.Prelude.{
  ℕ, Bool, true, false, not, ◌&&◌, ◌==◌, ltb, ◌≡◌, List, [], ◌∷◌, Option, none, some, ◌⊎◌, inl, inr,
  contains, remove, nat_eq, if◌then◌else◌,
}
use proxy_sampler.Session.{Status}
use proxy_sampler.Db.Store.{StoreError, not_found, not_running, is_running}
use proxy_sampler.Sampler.Supervisor.Interleaving.{has}
use proxy_sampler.Sampler.Supervisor.Flows.{
  Action, Answer, Flow, return, act, ◌>>=◌, acquire, release, find_worker, cancel_and_wait, publish,
  session_by_id, store_stop, store_delete, flush, delete_samples,
}

-- `held` are the sessions whose operation this is, the last one first; `found` the workers that the
-- map has shown, with their pointers; `ended` the sessions for which the map has last shown no worker,
-- or whose shown worker has been canceled and has ended, and that have got no worker since; `quiet`
-- those that the store has said not to run, or has stopped, and that have got no worker since; `flushed` those that were
-- quiet at the last flush of the sink; `cleared` those whose samples are deleted after that flush;
-- and `deleted` those whose rows are deleted.
pub record Progress : Type 0 where
  pub held : List ℕ
  pub found : List (ℕ × ℕ)
  pub ended : List ℕ
  pub quiet : List ℕ
  pub flushed : List ℕ
  pub cleared : List ℕ
  pub deleted : List ℕ

abbrev pub no_progress : Progress
no_progress = record {
  held = [];
  found = [];
  ended = [];
  quiet = [];
  flushed = [];
  cleared = [];
  deleted = [];
}

-- A session is acquired above all that are held.
abbrev pub may_acquire : List ℕ → ℕ → Bool
may_acquire [] id = true
may_acquire (h ∷ held) id = ltb h id

abbrev pub may_release : List ℕ → ℕ → Bool
may_release [] id = false
may_release (h ∷ held) id = h == id

abbrev pub tail_of : List ℕ → List ℕ
tail_of [] = []
tail_of (h ∷ held) = held

abbrev pub all_in : List ℕ → List ℕ → Bool
all_in [] ys = true
all_in (x ∷ xs) ys = contains ys x && all_in xs ys

-- What is not running.
abbrev pub says_quiet : StoreError ⊎ Status → Bool
says_quiet (inl not_found) = true
says_quiet (inl not_running) = true
says_quiet (inl e) = false
says_quiet (inr status) = not (is_running status)

abbrev pub says_stopped : Option StoreError → Bool
says_stopped none = true
says_stopped (some not_running) = true
says_stopped (some e) = false

abbrev pub only : Bool → Progress → Option Progress
only true p = some p
only false p = none

abbrev pub quieted : Bool → ℕ → Progress → Progress
quieted yes_quiet id p = if yes_quiet then record p { quiet = id ∷ p.quiet } else p

-- The progress behind an action with its answer; none where the action is not allowed. The row of a
-- session is stopped only where its worker has ended.
abbrev pub observe : Progress → (a : Action) → Answer a → Option Progress
observe p (acquire id) none = only (may_acquire p.held id) (record p { held = id ∷ p.held })
observe p (acquire id) (some r) = only (may_acquire p.held id) p
observe p (release id) u = only (may_release p.held id) (record p { held = tail_of p.held })
observe p (find_worker id) none = only (contains p.held id) (record p { ended = id ∷ p.ended })
observe p (find_worker id) (some w) =
    only (contains p.held id) (record p { found = (id, w.0) ∷ p.found; ended = remove p.ended id })
observe p (cancel_and_wait id pointer) none =
    only (contains p.held id && has p.found (id, pointer)) (record p { ended = id ∷ p.ended })
observe p (cancel_and_wait id pointer) (some e) =
    only (contains p.held id && has p.found (id, pointer)) p
observe p (session_by_id id) x = only (contains p.held id) (quieted (says_quiet x) id p)
observe p (store_stop id) x =
    only (contains p.held id && contains p.ended id) (quieted (says_stopped x) id p)
observe p (publish id prepared) x = only (contains p.held id) (record p {
  ended = remove p.ended id;
  quiet = remove p.quiet id;
  flushed = remove p.flushed id;
  cleared = remove p.cleared id;
})
observe p flush none = some (record p { flushed = p.quiet; cleared = [] })
observe p flush (some e) = some p
observe p (delete_samples ids) none = only (all_in ids p.flushed) (record p { cleared = ids })
observe p (delete_samples ids) (some e) = only (all_in ids p.flushed) p
observe p (store_delete id) none =
    only (contains p.held id && contains p.cleared id) (record p { deleted = id ∷ p.deleted })
observe p (store_delete id) (some e) = only (contains p.held id && contains p.cleared id) p
observe p a x = some p

abbrev pub Allowed : Option Progress → (Progress → Type 0) → Type 0
Allowed none F = ⊥
Allowed (some p) F = F p

-- Whatever the actions answer, each is allowed, and the end is as the predicate says.
abbrev pub Keeps : {A : Type 0} → Progress → Flow A → (Progress → A → Type 0) → Type 0
Keeps p (return a) Q = Q p a
Keeps p (act a k) Q = (x : Answer a) → Allowed (observe p a x) (λ p'. Keeps p' (k x) Q)

pub allow :
    (b : Bool) (p : Progress) (F : Progress → Type 0) → b ≡ true → F p → Allowed (only b p) F
allow true p F h k = k
allow false p F h k = absurd (false≢true h)

Allowed-map :
    (o : Option Progress) (F G : Progress → Type 0)
    → ((p : Progress) → F p → G p)
    → Allowed o F
    → Allowed o G
Allowed-map none F G f h = h
Allowed-map (some p) F G f h = f p h

-- A flow's end may be weakened, and a flow goes on from its end.
pub Keeps-map :
    {A : Type 0} (p : Progress) (m : Flow A) (Q R : Progress → A → Type 0)
    → ((p' : Progress) (a : A) → Q p' a → R p' a)
    → Keeps p m Q
    → Keeps p m R
Keeps-map p (return a) Q R f h = f p a h
Keeps-map p (act a k) Q R f h = λ x.
    Allowed-map (observe p a x) (λ p'. Keeps p' (k x) Q) (λ p'. Keeps p' (k x) R)
      (λ p'. Keeps-map p' (k x) Q R f) (h x)

pub Keeps-bind :
    {A B : Type 0} (p : Progress) (m : Flow A) (f : A → Flow B) (R : Progress → B → Type 0)
    → Keeps p m (λ p' a. Keeps p' (f a) R)
    → Keeps p (m >>= f) R
Keeps-bind p (return a) f R h = h
Keeps-bind p (act a k) f R h = λ x.
    Allowed-map (observe p a x) (λ p'. Keeps p' (k x) (λ p'' a. Keeps p'' (f a) R))
      (λ p'. Keeps p' (k x >>= f) R) (λ p'. Keeps-bind p' (k x) f R) (h x)
