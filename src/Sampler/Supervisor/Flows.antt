-- ===== src/Sampler/Supervisor/Flows.antt =====
-- internal/sampler/supervisor.go: the operations as flows of actions on what is outside of them: the
-- sections under the mutex, the store, a worker, the sink and the reader. A flow goes on with whatever
-- an action answers, so it holds for every behaviour of these and for every interleaving.
use proxy_sampler.Prelude.{
  ℕ, zero, suc, Bool, true, false, not, ◌&&◌, ◌||◌, ◌==◌, List, [], ◌∷◌, Option, none, some, Text,
  codes, ◌⊎◌, inl, inr, leb, sort, if◌then◌else◌,
}
use proxy_sampler.Session.{Status}
use proxy_sampler.Db.Store.{StoreError, not_found, not_running, is_running}
use proxy_sampler.Db.Columns.{option_map}
use proxy_sampler.Sampler.Supervisor.Sections.{Refusal, supervisor_closed, context_done}

pub data Failure : Type 0 where
  of_store : StoreError → Failure
  of_refusal : Refusal → Failure
  of_text : Text → Failure
  joined : Failure → Failure → Failure
  wrapped : Text → Failure → Failure

-- `errors.Is`, which looks into joined and wrapped errors.
unfoldable pub is_not_running : Failure → Bool
is_not_running (of_store not_running) = true
is_not_running (of_store e) = false
is_not_running (of_refusal r) = false
is_not_running (of_text t) = false
is_not_running (joined a b) = is_not_running a || is_not_running b
is_not_running (wrapped t a) = is_not_running a

unfoldable pub is_not_found : Failure → Bool
is_not_found (of_store not_found) = true
is_not_found (of_store e) = false
is_not_found (of_refusal r) = false
is_not_found (of_text t) = false
is_not_found (joined a b) = is_not_found a || is_not_found b
is_not_found (wrapped t a) = is_not_found a

unfoldable pub is_closed : Failure → Bool
is_closed (of_store e) = false
is_closed (of_refusal supervisor_closed) = true
is_closed (of_refusal (context_done e)) = false
is_closed (of_text t) = false
is_closed (joined a b) = is_closed a || is_closed b
is_closed (wrapped t a) = is_closed a

-- `acquire` is the wait of `withSessionOperation` until it enters, `release` its end, `find_worker`
-- the look into the map of workers, with the worker's pointer and what it was prepared as,
-- `cancel_and_wait` the end of a worker, or of the context before it, and `await_exit` and
-- `retry_later` the waits of a recovery, which answer false where its own context ends them.
pub data Action : Type 0 where
  check_root : Action
  acquire release : ℕ → Action
  find_worker : ℕ → Action
  cancel_and_wait : ℕ → ℕ → Action
  make_worker prepare : ℕ → Action
  publish : ℕ → ℕ → Action
  await_exit : ℕ → Action
  retry_later : Action
  schedule_recovery : ℕ → ℕ → Action
  running_sessions : Action
  session_by_id : ℕ → Action
  store_reenable store_stop store_delete : ℕ → Action
  flush : Action
  delete_samples : List ℕ → Action

-- What an action answers. Only the store says that a session is not found or not running.
abbrev pub Answer : Action → Type 0
Answer check_root = Option Text
Answer (acquire id) = Option Refusal
Answer (release id) = Unit {0}
Answer (find_worker id) = Option (ℕ × ℕ)
Answer (cancel_and_wait id pointer) = Option Text
Answer (make_worker id) = Option Text
Answer (prepare id) = Text ⊎ ℕ
Answer (publish id prepared) = Option Refusal
Answer (await_exit pointer) = Bool
Answer retry_later = Bool
Answer (schedule_recovery id pointer) = Option Refusal
Answer running_sessions = StoreError ⊎ List (ℕ × Status)
Answer (session_by_id id) = StoreError ⊎ Status
Answer (store_reenable id) = Option StoreError
Answer (store_stop id) = Option StoreError
Answer (store_delete id) = Option StoreError
Answer flush = Option Text
Answer (delete_samples ids) = Option Text

pub data Flow {ℓ} (A : Type ℓ) : Type ℓ where
  return : A → Flow A
  act : (a : Action) → (Answer a → Flow A) → Flow A

infixl 5 ◌>>=◌
abbrev pub ◌>>=◌ {ℓ κ} : {A : Type ℓ} {B : Type κ} → Flow A → (A → Flow B) → Flow B
return a >>= f = f a
act a k >>= f = act a (λ x. k x >>= f)

abbrev pub call : (a : Action) → Flow (Answer a)
call a = act a (λ x. return x)

-- `if err := …; err != nil { return err }` before the rest.
infixr 3 ◌orelse◌
abbrev pub ◌orelse◌ : Option Failure → Flow (Option Failure) → Flow (Option Failure)
none orelse rest = rest
some e orelse rest = return (some e)

-- `start`, of a session that is running.
unfoldable pub start : ℕ → Flow (Option Failure)
start id = do
  owner ← call (find_worker id)
  elim owner [
    | some w ↦ return none
    | none ↦ do
      missing ← call (make_worker id)
      option_map of_text missing orelse do
        prepared ← call (prepare id)
        elim prepared [
          | inl e ↦ return (some (of_text e))
          | inr p ↦ do refusal ← call (publish id p); return (option_map of_refusal refusal)
        ]
  ]

-- `startCurrent`: whether the row itself is stale, and the error.
unfoldable pub start_current : ℕ → Flow (Bool × Option Failure)
start_current id = do
  owner ← call (find_worker id)
  elim owner [
    | some w ↦ return (false, none)
    | none ↦ do
      value ← call (session_by_id id)
      elim value [
        | inl e ↦
            return (is_not_found (of_store e) || is_not_running (of_store e), some (of_store e))
        | inr status ↦
            if not (is_running status)
            then return (true, some (of_store not_running))
            else start id >>= λ e. return (false, e)
      ]
  ]

-- `withSessionOperation`.
unfoldable pub with_session_operation : ℕ → Flow (Option Failure) → Flow (Option Failure)
with_session_operation id operation = do
  refusal ← call (acquire id)
  option_map of_refusal refusal
      orelse do result ← operation; left ← call (release id); return result

-- A session that is gone or not running is none of the supervisor's business.
abbrev pub is_gone : Option Failure → Bool
is_gone none = false
is_gone (some e) = is_not_running e || is_not_found e

-- One round of the loop of `stop` on the row.
abbrev pub stop_round : ℕ → (StoreError → Flow (Option Failure)) → Flow (Option Failure)
stop_round id again = do
  result ← call (store_stop id)
  elim result [
    | none ↦ return none
    | some e ↦ if is_not_running (of_store e) then return (some (of_store e)) else again e
  ]

-- The loop, where the timer comes before the context's end in the first `waits` rounds.
unfoldable pub stop_row : ℕ → Text → ℕ → Flow (Option Failure)
stop_row zero deadline id =
    stop_round id (λ e. return (some (joined (of_store e) (of_text deadline))))
stop_row (suc waits) deadline id = stop_round id (λ e. stop_row waits deadline id)

-- `stop`: what the worker was prepared as, the worker that outlived the context, and the error.
unfoldable pub stop_worker : ℕ → Text → ℕ → Flow (Option ℕ × (Option ℕ × Option Failure))
stop_worker waits deadline id = do
  owner ← call (find_worker id)
  elim owner [
    | some (pointer, prepared) ↦ do
      late ← call (cancel_and_wait id pointer)
      elim late [
        | some e ↦ return (some prepared, (some pointer, some (of_text e)))
        | none ↦ stop_row waits deadline id >>= λ e. return (some prepared, (none, e))
      ]
    | none ↦ do
      value ← call (session_by_id id)
      elim value [
        | inl e ↦ return (none, (none, some (of_store e)))
        | inr status ↦
            if not (is_running status)
            then return (none, (none, some (of_store not_running)))
            else stop_row waits deadline id >>= λ e. return (none, (none, e))
      ]
  ]

-- Go's `restore worker ownership after failed stop` and `schedule worker recovery`.
abbrev pub join_with : Failure → Text → Option Failure → Option Failure
join_with e context none = some e
join_with e context (some r) = some (joined e (wrapped context r))

-- The rest of `stopWithOwnership` where the stop failed.
unfoldable pub restore : ℕ → Option ℕ → Option ℕ → Failure → Flow (Option Failure)
restore id prepared (some delayed) e = do
  refusal ← call (schedule_recovery id delayed)
  return (join_with e (codes "schedule worker recovery") (option_map of_refusal refusal))
restore id (some prepared) none e = do
  refusal ← call (publish id prepared)
  return (join_with e (codes "restore worker ownership") (option_map of_refusal refusal))
restore id none none e = do
  current ← start_current id
  return (
      if current.0 && is_gone current.1
      then some e
      else join_with e (codes "restore worker ownership") current.1)

unfoldable pub stop_with_ownership : ℕ → Text → ℕ → Flow (Option Failure)
stop_with_ownership waits deadline id = do
  result ← stop_worker waits deadline id
  elim result.1.1 [
    | none ↦ return none
    | some e ↦ if is_gone (some e) then return (some e) else restore id result.0 result.1.0 e
  ]

-- An error that ends a deletion: not that the session was not running.
abbrev pub unless_not_running : Option Failure → Option Failure
unless_not_running none = none
unless_not_running (some e) = if is_not_running e then none else some e

-- The loops of `DeleteSessions`.
unfoldable pub stop_all : ℕ → Text → List ℕ → Flow (Option Failure)
stop_all waits deadline [] = return none
stop_all waits deadline (id ∷ ids) = do
  value ← call (session_by_id id)
  elim value [
    | inl e ↦
        if is_not_found (of_store e)
        then stop_all waits deadline ids
        else return (some (of_store e))
    | inr status ↦ if not (is_running status) then stop_all waits deadline ids else do
      e ← stop_with_ownership waits deadline id
      unless_not_running e orelse stop_all waits deadline ids
  ]

unfoldable pub delete_all : List ℕ → Flow (Option Failure)
delete_all [] = return none
delete_all (id ∷ ids) = do e ← call (store_delete id); option_map of_store e orelse delete_all ids

-- The flush, the mutation and the deletion of the rows, in this order.
unfoldable pub clear : List ℕ → Flow (Option Failure)
clear ids = do
  unflushed ← call flush
  option_map (λ t. wrapped (codes "flush samples before delete") (of_text t)) unflushed
      orelse do kept ← call (delete_samples ids); option_map of_text kept orelse delete_all ids

-- The sorted list without its repetitions, which stand side by side.
abbrev pub dedup_from : ℕ → List ℕ → List ℕ
dedup_from last [] = []
dedup_from last (x ∷ xs) = let rest = dedup_from x xs in if last == x then rest else x ∷ rest

abbrev pub dedup : List ℕ → List ℕ
dedup [] = []
dedup (x ∷ xs) = x ∷ dedup_from x xs

unfoldable pub ordered : List ℕ → List ℕ
ordered ids = dedup (sort leb ids)

unfoldable pub with_operations : List ℕ → Flow (Option Failure) → Flow (Option Failure)
with_operations [] operation = operation
with_operations (id ∷ ids) operation = with_session_operation id (with_operations ids operation)

unfoldable pub delete_sessions : ℕ → Text → List ℕ → Flow (Option Failure)
delete_sessions waits deadline [] = return none
delete_sessions waits deadline (id ∷ ids) =
    let all = ordered (id ∷ ids) in
    with_operations all (stop_all waits deadline all >>= λ e. e orelse clear all)

-- `Delete`, of one session.
unfoldable pub delete_session : ℕ → Text → ℕ → Flow (Option Failure)
delete_session waits deadline id = with_session_operation id do
  value ← call (session_by_id id)
  elim value [
    | inl e ↦ return (some (of_store e))
    | inr status ↦ if not (is_running status) then clear (id ∷ []) else do
      e ← stop_with_ownership waits deadline id
      unless_not_running e orelse clear (id ∷ [])
  ]

unfoldable pub stop_session : ℕ → Text → ℕ → Flow (Option Failure)
stop_session waits deadline id = with_session_operation id (stop_with_ownership waits deadline id)

unfoldable pub start_session : ℕ → Flow (Option Failure)
start_session id = do
  gone ← call check_root
  option_map of_text gone
      orelse with_session_operation id (start_current id >>= λ current. return current.1)

unfoldable pub reenable_session : ℕ → Flow (Option Failure)
reenable_session id = do
  gone ← call check_root
  option_map of_text gone
      orelse do e ← call (store_reenable id); option_map of_store e orelse start_session id

-- `stale` is false where the operation was not entered.
abbrev pub forget_stale : Bool × Option Failure → Option Failure
forget_stale (stale, none) = none
forget_stale (stale, some e) = if stale && is_gone (some e) then none else some e

-- The loop of `Resume`.
unfoldable pub resume_all : List (ℕ × Status) → Flow (Option Failure)
resume_all [] = return none
resume_all ((id, status) ∷ values) = if not (is_running status) then resume_all values else do
  refusal ← call (acquire id)
  option_map (λ r. wrapped (codes "resume session") (of_refusal r)) refusal orelse do
    current ← start_current id
    left ← call (release id)
    option_map (wrapped (codes "resume session")) (forget_stale current) orelse resume_all values

unfoldable pub resume : Flow (Option Failure)
resume = do
  values ← call running_sessions
  elim values [ inl e ↦ return (some (of_store e)) | inr vs ↦ resume_all vs ]

-- One attempt of a recovery, with the error that is not just a stale row.
abbrev pub attempt : ℕ → Flow (Option Failure)
attempt id = do
  refusal ← call (acquire id)
  option_map of_refusal refusal
      orelse do current ← start_current id; left ← call (release id); return (forget_stale current)

-- The loop of `recoverAfterExit`, of which the first `rounds` are run.
unfoldable pub recover_loop : ℕ → ℕ → Flow (Option Failure)
recover_loop zero id = return none
recover_loop (suc rounds) id = do
  e ← attempt id
  elim e [
    | none ↦ return none
    | some f ↦
        if is_closed f
        then return none
        else do more ← call retry_later; if more then recover_loop rounds id else return none
  ]

unfoldable pub recover_after_exit : ℕ → ℕ → ℕ → Flow (Option Failure)
recover_after_exit rounds id pointer = do
  exited ← call (await_exit pointer)
  if exited then recover_loop rounds id else return none
