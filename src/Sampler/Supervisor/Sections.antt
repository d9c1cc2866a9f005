-- ===== src/Sampler/Supervisor/Sections.antt =====
-- internal/sampler/supervisor.go: the sections of code that hold the mutex, each one a step on the
-- shared fields. A pointer, to a running worker or to an operation, is a number that no other has.
use proxy_sampler.Prelude.{
  ℕ, ◌+◌, ◌-◌, Bool, true, false, ◌==◌, List, [], ◌∷◌, contains, Option, none, some, Text, Map,
  lookup, insert, delete, nat_eq, if◌then◌else◌,
}

-- `runningWorker` in the map, without its channels and its worker. Its flag `recoveryScheduled` is in
-- `flagged`, since it outlives the entry of the map.
pub record RunningWorker : Type 0 where
  pub pointer : ℕ

-- `flagged` are the pointers of the workers for which a recovery was scheduled, `root_error` and `recovery_error` are what the contexts' `Err` return, and `waiting` is the counter
-- of the wait group.
pub record Supervisor : Type 0 where
  pub workers : Map ℕ RunningWorker
  pub flagged : List ℕ
  pub operations : Map ℕ ℕ
  pub closing : Bool
  pub root_error : Option Text
  pub recovery_error : Option Text
  pub waiting : ℕ

abbrev pub new_supervisor : Supervisor
new_supervisor = record {
  workers = [];
  flagged = [];
  operations = [];
  closing = false;
  root_error = none;
  recovery_error = none;
  waiting = 0;
}

-- Why a section refuses.
pub data Refusal : Type 0 where
  supervisor_closed : Refusal
  context_done : Text → Refusal

pub data Entry : Type 0 where
  closed : Entry
  busy : ℕ → Entry
  entered : Supervisor → Entry

-- One round of `withSessionOperation`: a waiter comes back with the operation it found.
unfoldable pub begin_operation : ℕ → ℕ → Supervisor → Entry
begin_operation id pointer s = if s.closing then closed else elim (lookup id s.operations) [
  | some active ↦ busy active
  | none ↦ entered (record s { operations = insert id pointer s.operations })
]

-- The end of `withSessionOperation`.
unfoldable pub end_operation : ℕ → ℕ → Supervisor → Supervisor
end_operation id pointer s = elim (lookup id s.operations) [
  | none ↦ s
  | some active ↦ if active == pointer then record s { operations = delete id s.operations } else s
]

pub data Publication : Type 0 where
  refused : Refusal → Publication
  exists : Publication
  published : Supervisor → Publication

-- `publishPrepared`.
unfoldable pub publish : ℕ → ℕ → Supervisor → Publication
publish id pointer s = if s.closing then refused supervisor_closed else elim s.root_error [
  | some e ↦ refused (context_done e)
  | none ↦ elim (lookup id s.workers) [
    | some running ↦ exists
    | none ↦ published (record s {
      workers = insert id (record { pointer = pointer }) s.workers;
      waiting = s.waiting + 1;
    })
  ]
]

-- The goroutine of a worker after its run.
unfoldable pub exit_worker : ℕ → ℕ → Supervisor → Supervisor
exit_worker id pointer s = elim (lookup id s.workers) [
  | none ↦ record s { waiting = s.waiting - 1 }
  | some running ↦
      if running.pointer == pointer
      then record s { workers = delete id s.workers; waiting = s.waiting - 1 }
      else record s { waiting = s.waiting - 1 }
]

pub data Scheduling : Type 0 where
  already : Scheduling
  not_scheduled : Refusal → Scheduling
  scheduled : Supervisor → Scheduling

-- `scheduleRecovery`.
unfoldable pub schedule_recovery : ℕ → ℕ → Supervisor → Scheduling
schedule_recovery id pointer s =
    if contains s.flagged pointer
    then already
    else if s.closing
    then not_scheduled supervisor_closed
    else elim s.recovery_error [
      | some e ↦ not_scheduled (context_done e)
      | none ↦ scheduled (record s { flagged = pointer ∷ s.flagged; waiting = s.waiting + 1 })
    ]

-- `Wait` up to its wait, which ends when the counter is 0.
unfoldable pub close_down : Text → Supervisor → Supervisor
close_down cancelled s = record s {
  closing = true;
  recovery_error = elim s.recovery_error [ some e ↦ some e | none ↦ some cancelled ];
}
