-- ===== src/Sampler/Supervisor/Deleting.antt =====
-- Deleting sessions keeps the protocol.
use mathlib.Core.Bool.{false≢true}
use proxy_sampler.Prelude.{
  ℕ, Bool, true, false, not, ◌&&◌, ◌≡◌, refl, sym, ap, ◌∙◌, List, [], ◌∷◌, Option, none, some, Text,
  inl, contains, nat_eq, if-cases, subst, arith, ==_iff,
}
use proxy_sampler.Db.Store.{
  StoreError, database, not_found, not_running, already_running, is_running,
}
use proxy_sampler.Sampler.Supervisor.Flows.{
  Failure, of_store, is_not_running, is_not_found, Flow, ◌>>=◌, ◌orelse◌, with_session_operation,
  stop_with_ownership, unless_not_running, stop_all, delete_all, clear, ordered, with_operations,
  delete_sessions,
}
use proxy_sampler.Sampler.Supervisor.Protocol.{
  Progress, no_progress, may_acquire, may_release, tail_of, all_in, says_quiet, quieted, Keeps,
  allow, Keeps-map, Keeps-bind,
}
use proxy_sampler.Sampler.Supervisor.Starting.{on_option, on_sum, Keeps-if, quieted-IsSame, still}
use proxy_sampler.Sampler.Supervisor.Stopping.{
  passes, Grows, stop_with_ownership-Keeps, quieted-Grows, quieted-quiet,
}
use proxy_sampler.Sampler.Supervisor.Ordered.{
  Ascends, ordered-Ascends, contains-ordered, all_in-more, contains_of_all_in,
}

abbrev pub fine : Option Failure → Bool
fine none = true
fine (some e) = false

abbrev IsDeleted : List ℕ → Progress → Progress → Option Failure → Type 0
IsDeleted ids p p' r =
    (p'.held ≡ p.held) × (fine r ≡ true → all_in ids p'.deleted ≡ true) × Grows p.deleted p'.deleted

delete_all-Keeps :
    (p : Progress) (ids : List ℕ)
    → all_in ids p.held ≡ true
    → all_in ids p.cleared ≡ true
    → Keeps p (delete_all ids) (IsDeleted ids p)
unfolding delete_all
delete_all-Keeps p [] h c = (refl, λ _. refl, λ j k. k)
delete_all-Keeps p (id ∷ ids) h c =
    let q = record p { deleted = id ∷ p.deleted } in
    on_option _
      (allow (contains p.held id && contains p.cleared id) _ _ (ground arith) (
        Keeps-map q (delete_all ids) _ _
          (λ p' r d.
            (d.0, λ f. ground (arith, d.1 f, d.2 id, ==_iff id id), λ j k. d.2 j (ground arith)))
          (delete_all-Keeps q ids (ground arith) (ground arith))))
      (λ e.
        allow (contains p.held id && contains p.cleared id) _ _ (ground arith)
          (refl, λ f. absurd (false≢true f), λ j k. k))

abbrev pub IsCleared : List ℕ → Progress → Progress → Option Failure → Type 0
IsCleared ids p p' r = (p'.held ≡ p.held) × (fine r ≡ true → all_in ids p'.deleted ≡ true)

pub clear-Keeps :
    (p : Progress) (ids : List ℕ)
    → all_in ids p.held ≡ true
    → all_in ids p.quiet ≡ true
    → Keeps p (clear ids) (IsCleared ids p)
unfolding clear
clear-Keeps p ids h q =
    on_option _
      (on_option _
        (allow (all_in ids p.quiet) _ _ q (
          let c = record p { flushed = p.quiet; cleared = ids } in
          Keeps-map c (delete_all ids) _ _ (λ p' r d. (d.0, d.1))
            (delete_all-Keeps c ids h (all_in-more ids ids (λ j k. k)))))
        (λ e. allow (all_in ids p.quiet) _ _ q (refl, λ f. absurd (false≢true f))))
      (λ e. (refl, λ f. absurd (false≢true f)))

abbrev pub IsQuiet : List ℕ → Progress → Progress → Option Failure → Type 0
IsQuiet ids p p' r =
    (p'.held ≡ p.held) × (fine r ≡ true → (all_in ids p'.quiet ≡ true) × Grows p.quiet p'.quiet)

-- The rest of the loop, behind a session that is quiet.
IsQuiet-after :
    (id : ℕ) (ids : List ℕ) (p q p' : Progress) (r : Option Failure)
    → q.held ≡ p.held
    → contains q.quiet id ≡ true
    → Grows p.quiet q.quiet
    → IsQuiet ids q p' r
    → IsQuiet (id ∷ ids) p p' r
IsQuiet-after id ids p q p' r held quiet grows s = (
  s.0 ∙ held,
  λ f. let (all, more) = s.1 f in (ground (arith, more id), λ j k. more j (grows j k)),
)

-- A deletion goes on behind a stop that did not fail.
pub orelse-Keeps :
    (p : Progress) (e : Option Failure) (rest : Flow (Option Failure))
    (Q : Progress → Option Failure → Type 0)
    → (passes e ≡ true → Keeps p rest Q)
    → ((f : Failure) → Q p (some f))
    → Keeps p (unless_not_running e orelse rest) Q
orelse-Keeps p none rest Q h k = h refl
orelse-Keeps p (some f) rest Q h k =
    if-cases (λ o. Keeps p (o orelse rest) Q) (is_not_running f) h (λ _. k f)

not_found-quiet : (e : StoreError) → is_not_found (of_store e) ≡ true → says_quiet (inl e) ≡ true
unfolding is_not_found
not_found-quiet (database t) h = absurd (false≢true h)
not_found-quiet not_found h = refl
not_found-quiet not_running h = refl
not_found-quiet already_running h = absurd (false≢true h)

stop_all-Keeps :
    (waits : ℕ) (deadline : Text) (ids : List ℕ) (p : Progress)
    → all_in ids p.held ≡ true
    → Keeps p (stop_all waits deadline ids) (IsQuiet ids p)
unfolding stop_all
stop_all-Keeps waits deadline [] p h = (refl, λ f. (refl, λ j k. k))
stop_all-Keeps waits deadline (id ∷ ids) p h =
    let mine : contains p.held id ≡ true = ground arith in
    let rest : (q : Progress)
        → q.held ≡ p.held
        → contains q.quiet id ≡ true
        → Grows p.quiet q.quiet
        → Keeps q (stop_all waits deadline ids) (IsQuiet (id ∷ ids) p) =
      λ q held quiet grows.
        Keeps-map q (stop_all waits deadline ids) _ _
          (λ p' r. IsQuiet-after id ids p q p' r held quiet grows)
          (stop_all-Keeps waits deadline ids q (ap (all_in ids) held ∙ ground arith)) in
    on_sum _
      (λ e.
        let b = says_quiet (inl e) in
        let q = quieted b id p in
        allow (contains p.held id) _ _ mine (
          Keeps-if q (is_not_found (of_store e)) _ _ _
            (λ gone.
              rest q ((quieted-IsSame b id p).0) (quieted-quiet b id p (not_found-quiet e gone))
                (quieted-Grows b id p))
            (λ _. ((quieted-IsSame b id p).0, λ f. absurd (false≢true f)))))
      (λ status.
        let b = not (is_running status) in
        let q = quieted b id p in
        allow (contains p.held id) _ _ mine (
          Keeps-if q b _ _ _
            (λ quiet.
              rest q ((quieted-IsSame b id p).0) (quieted-quiet b id p quiet)
                (quieted-Grows b id p))
            (λ _. Keeps-bind q (stop_with_ownership waits deadline id) _ _ (
              Keeps-map q (stop_with_ownership waits deadline id) _ _
                (λ q' e s.
                  orelse-Keeps q' e _ _
                    (λ ok.
                      let (quiet, grows) = s.1 ok in
                      rest q' (s.0.0 ∙ (quieted-IsSame b id p).0) quiet
                        (λ j k. grows j (quieted-Grows b id p j k)))
                    (λ f. (s.0.0 ∙ (quieted-IsSame b id p).0, λ x. absurd (false≢true x))))
                (stop_with_ownership-Keeps waits deadline q id
                  (still p q id (quieted-IsSame b id p) mine))))))

-- An operation under the locks of `ids`, for deletions of `all`.
pub with_session_operation-Keeps :
    (all : List ℕ) (p : Progress) (id : ℕ) (operation : Flow (Option Failure))
    → may_acquire p.held id ≡ true
    → ((q : Progress) → q.held ≡ id ∷ p.held → Keeps q operation (IsCleared all q))
    → Keeps p (with_session_operation id operation) (IsCleared all p)
unfolding with_session_operation
with_session_operation-Keeps all p id operation h run =
    let q = record p { held = id ∷ p.held } in
    on_option _
      (allow (may_acquire p.held id) _ _ h (
        Keeps-bind q operation _ _ (
          Keeps-map q operation _ _
            (λ p' r c u.
              allow (may_release p'.held id) _ _
                (ap (λ l. may_release l id) c.0 ∙ (==_iff id id).1 refl) (ap tail_of c.0, c.1))
            (run q refl))))
      (λ r. allow (may_acquire p.held id) _ _ h (refl, λ f. absurd (false≢true f)))

with_operations-Keeps :
    (all ids : List ℕ) (p : Progress) (operation : Flow (Option Failure))
    → Ascends p.held ids
    → ((q : Progress)
        → Grows p.held q.held
        → all_in ids q.held ≡ true
        → Keeps q operation (IsCleared all q))
    → Keeps p (with_operations ids operation) (IsCleared all p)
unfolding with_operations
with_operations-Keeps all [] p operation a run = run p (λ j k. k) refl
with_operations-Keeps all (id ∷ ids) p operation a run =
    with_session_operation-Keeps all p id (with_operations ids operation) a.0 (λ q held.
      with_operations-Keeps all ids q operation (subst (λ l. Ascends l ids) (sym held) a.1)
        (λ r grows inside.
          let outer = λ (j : ℕ) (k : contains (id ∷ p.held) j ≡ true).
            grows j (ap (λ l. contains l j) held ∙ k) in
          run r (λ j k. outer j (ground arith))
            (ground (arith, outer id (ground (arith, ==_iff id id)), inside))))

-- Whatever happens, a deletion of many sessions takes their operations in a strict order; it has
-- the store stop a session only after the map showed no worker of it, or the worker that it showed
-- was canceled and has ended; it flushes the sink before it deletes the samples, and deletes only
-- those of sessions that the store said not to run, or stopped, before that flush; it deletes the
-- rows after the samples, starts no worker in between, and gives every operation back; and where it
-- reports no error, every row is deleted.
pub delete_sessions-Keeps :
    (waits : ℕ) (deadline : Text) (ids : List ℕ)
    → Keeps no_progress (delete_sessions waits deadline ids) (IsCleared ids no_progress)
unfolding delete_sessions
delete_sessions-Keeps waits deadline [] = (refl, λ _. refl)
delete_sessions-Keeps waits deadline (id ∷ ids) =
    let all = ordered (id ∷ ids) in
    with_operations-Keeps (id ∷ ids) all no_progress
      (stop_all waits deadline all >>= λ e. e orelse clear all) (ordered-Ascends (id ∷ ids))
      (λ q grows inside. Keeps-bind q (stop_all waits deadline all) _ _ (
        Keeps-map q (stop_all waits deadline all) _ _ (finish q inside)
          (stop_all-Keeps waits deadline all q inside)))
  where
    finish :
        (q : Progress)
        → all_in (ordered (id ∷ ids)) q.held ≡ true
        → (q' : Progress) (e : Option Failure) → IsQuiet (ordered (id ∷ ids)) q q' e
        → Keeps q' (e orelse clear (ordered (id ∷ ids))) (IsCleared (id ∷ ids) q)
    finish q inside q' none s =
        let all = ordered (id ∷ ids) in
        Keeps-map q' (clear all) _ _
          (λ p' r c. (
            c.0 ∙ s.0,
            λ f. all_in-more (id ∷ ids) p'.deleted (λ j k.
                contains_of_all_in all p'.deleted j (c.1 f) (contains-ordered j (id ∷ ids) ∙ k)),
          ))
          (clear-Keeps q' all (ap (all_in all) s.0 ∙ inside) ((s.1 refl).0))
    finish q inside q' (some e) s = (s.0, λ f. absurd (false≢true f))
