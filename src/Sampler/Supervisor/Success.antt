-- ===== src/Sampler/Supervisor/Success.antt =====
-- The supervisor's deletions against answers that report no error.
use proxy_sampler.Prelude.{
  ℕ, zero, suc, Bool, true, false, not, ◌≡◌, refl, sym, ap, List, [], ◌∷◌, Option, none, some, Text,
  inl, nat_eq, if◌then◌else◌, subst,
}
use proxy_sampler.Db.Store.{is_running}
use proxy_sampler.Sampler.Supervisor.Flows.{
  Failure, is_not_running, Action, Answer, Flow, return, act, ◌>>=◌, ◌orelse◌, acquire,
  cancel_and_wait, session_by_id, store_stop, store_delete, flush, delete_samples,
  with_session_operation, is_gone, stop_row, stop_worker, restore, stop_with_ownership,
  unless_not_running, stop_all, delete_all, clear, ordered, with_operations, delete_sessions,
}
use proxy_sampler.Sampler.Supervisor.Starting.{on_option, on_sum}
use proxy_sampler.Sampler.Supervisor.Stopping.{passes}

-- An answer to a deletion that reports no error. A session may run or not, with a worker or without.
abbrev pub Good : (a : Action) → Answer a → Type 0
Good (acquire id) (some e) = ⊥
Good (cancel_and_wait id pointer) (some e) = ⊥
Good (session_by_id id) (inl e) = ⊥
Good (store_stop id) (some e) = ⊥
Good flush (some e) = ⊥
Good (delete_samples ids) (some e) = ⊥
Good (store_delete id) (some e) = ⊥
Good a x = Unit

-- Where every answer is good, the flow ends as the predicate says.
abbrev pub Ends : {A : Type 0} → Flow A → (A → Type 0) → Type 0
Ends (return a) Q = Q a
Ends (act a k) Q = (x : Answer a) → Good a x → Ends (k x) Q

Ends-map :
    {A : Type 0} (m : Flow A) (Q R : A → Type 0) → ((a : A) → Q a → R a) → Ends m Q → Ends m R
Ends-map (return a) Q R f h = f a h
Ends-map (act a k) Q R f h = λ x g. Ends-map (k x) Q R f (h x g)

Ends-bind :
    {A B : Type 0} (m : Flow A) (f : A → Flow B) (R : B → Type 0)
    → Ends m (λ a. Ends (f a) R)
    → Ends (m >>= f) R
Ends-bind (return a) f R h = h
Ends-bind (act a k) f R h = λ x g. Ends-bind (k x) f R (h x g)

Ends-if :
    {A : Type 0} (b : Bool) (m n : Flow A) (Q : A → Type 0)
    → Ends m Q
    → Ends n Q
    → Ends (if b then m else n) Q
Ends-if true m n Q hm hn = hm
Ends-if false m n Q hm hn = hn

abbrev pub Fine : Option Failure → Type 0
Fine r = r ≡ none

stop_row-Ends : (waits : ℕ) (deadline : Text) (id : ℕ) → Ends (stop_row waits deadline id) Fine
unfolding stop_row
stop_row-Ends zero deadline id = on_option _ (λ g. refl) (λ e g. absurd g)
stop_row-Ends (suc waits) deadline id = on_option _ (λ g. refl) (λ e g. absurd g)

stop_worker-Ends :
    (waits : ℕ) (deadline : Text) (id : ℕ)
    → Ends (stop_worker waits deadline id) (λ r. passes r.1.1 ≡ true)
unfolding stop_worker is_not_running
stop_worker-Ends waits deadline id =
    on_option _
      (λ g.
        on_sum _ (λ e g. absurd g)
          (λ status g. Ends-if (not (is_running status)) _ _ _ refl (
            Ends-bind (stop_row waits deadline id) _ _ (
              Ends-map (stop_row waits deadline id) _ _ (λ r e. ap passes e)
                (stop_row-Ends waits deadline id)))))
      (λ owner g.
        on_option _
          (λ g. Ends-bind (stop_row waits deadline id) _ _ (
            Ends-map (stop_row waits deadline id) _ _ (λ r e. ap passes e)
              (stop_row-Ends waits deadline id)))
          (λ e g. absurd g))

stop_with_ownership-Ends :
    (waits : ℕ) (deadline : Text) (id : ℕ)
    → Ends (stop_with_ownership waits deadline id) (λ r. passes r ≡ true)
unfolding stop_with_ownership
stop_with_ownership-Ends waits deadline id =
    Ends-bind (stop_worker waits deadline id) _ _
      (Ends-map (stop_worker waits deadline id) _ _ ending (stop_worker-Ends waits deadline id))
  where
    ending :
        (r : Option ℕ × (Option ℕ × Option Failure))
        → passes r.1.1 ≡ true
        → Ends
            (elim r.1.1 [
              | none ↦ return none
              | some e ↦ if is_gone (some e) then return (some e) else restore id r.0 r.1.0 e
            ])
            (λ f. passes f ≡ true)
    ending (prepared, (delayed, none)) h = refl
    ending (prepared, (delayed, some e)) h = rw h h

-- A stop that passes lets the deletion go on.
orelse-Ends :
    (e : Option Failure) (rest : Flow (Option Failure))
    → passes e ≡ true
    → Ends rest Fine
    → Ends (unless_not_running e orelse rest) Fine
orelse-Ends none rest h k = k
orelse-Ends (some f) rest h k = rw h k

stop_all-Ends :
    (waits : ℕ) (deadline : Text) (ids : List ℕ) → Ends (stop_all waits deadline ids) Fine
unfolding stop_all
stop_all-Ends waits deadline [] = refl
stop_all-Ends waits deadline (id ∷ ids) =
    on_sum _ (λ e g. absurd g)
      (λ status g. Ends-if (not (is_running status)) _ _ _ (stop_all-Ends waits deadline ids) (
        Ends-bind (stop_with_ownership waits deadline id) _ _ (
          Ends-map (stop_with_ownership waits deadline id) _ _
            (λ e h. orelse-Ends e _ h (stop_all-Ends waits deadline ids))
            (stop_with_ownership-Ends waits deadline id))))

delete_all-Ends : (ids : List ℕ) → Ends (delete_all ids) Fine
unfolding delete_all
delete_all-Ends [] = refl
delete_all-Ends (id ∷ ids) = on_option _ (λ g. delete_all-Ends ids) (λ e g. absurd g)

clear-Ends : (ids : List ℕ) → Ends (clear ids) Fine
unfolding clear
clear-Ends ids =
    on_option _ (λ g. on_option _ (λ g. delete_all-Ends ids) (λ e g. absurd g)) (λ e g. absurd g)

with_operations-Ends :
    (ids : List ℕ) (operation : Flow (Option Failure))
    → Ends operation Fine
    → Ends (with_operations ids operation) Fine
unfolding with_operations with_session_operation
with_operations-Ends [] operation h = h
with_operations-Ends (id ∷ ids) operation h =
    on_option _
      (λ g. Ends-bind (with_operations ids operation) _ _ (
        Ends-map (with_operations ids operation) _ _ (λ r e u g. e)
          (with_operations-Ends ids operation h)))
      (λ e g. absurd g)

-- Where the supervisor lets the deletion take every operation, so that it is not closing and the
-- context of the call not done, and where the store, the workers, the sink and the reader report no
-- error, a deletion of many sessions ends without an error, whether the sessions run or not.
pub delete_sessions-Ends :
    (waits : ℕ) (deadline : Text) (ids : List ℕ) → Ends (delete_sessions waits deadline ids) Fine
unfolding delete_sessions
delete_sessions-Ends waits deadline [] = refl
delete_sessions-Ends waits deadline (id ∷ ids) =
    let all = ordered (id ∷ ids) in
    with_operations-Ends all _ (
      Ends-bind (stop_all waits deadline all) _ _ (
        Ends-map (stop_all waits deadline all) _ _
          (λ e h. subst (λ e. Ends (e orelse clear all) Fine) (sym h) (clear-Ends all))
          (stop_all-Ends waits deadline all)))
