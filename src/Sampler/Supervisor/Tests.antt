-- ===== src/Sampler/Supervisor/Tests.antt =====
-- Runs of the supervisor, and its theorems at them.
use proxy_sampler.Prelude.{ℕ, ◌≡◌, refl, true, [], ◌∷◌, some, codes, lookup, nat_eq}
use proxy_sampler.Sampler.Supervisor.Sections.{
  Supervisor, new_supervisor, begin_operation, busy, publish, exit_worker, close_down,
}
use proxy_sampler.Sampler.Supervisor.Interleaving.{
  System, start, Reach, here, later, enter, launch, exit, wait, has,
}
use proxy_sampler.Sampler.Supervisor.Ownership.{pointer_of}
use proxy_sampler.Sampler.Supervisor.Exclusion.{Reach-exclusive, Reach-closed}
use proxy_sampler.Sampler.Supervisor.Flows.{ordered, delete_sessions}
use proxy_sampler.Sampler.Supervisor.Protocol.{no_progress, Keeps}
use proxy_sampler.Sampler.Supervisor.Deleting.{IsCleared, delete_sessions-Keeps}
use proxy_sampler.Sampler.Supervisor.Operations.{perform, stop_call, IsReleased, perform-Keeps}
use proxy_sampler.Sampler.Supervisor.Success.{Ends, Fine, delete_sessions-Ends}

-- An operation on session 7 that has started its worker.
abbrev one_entered : Supervisor
one_entered = record new_supervisor { operations = (7, 0) ∷ [] }

abbrev one_launched : Supervisor
one_launched = record one_entered { workers = (7, record { pointer = 1 }) ∷ []; waiting = 1 }

abbrev one_running : System
one_running = record {
  shared = one_launched;
  inside = (7, 0) ∷ [];
  live = (7, 1) ∷ [];
  recoveries = [];
  next = 2;
}

Reach-one_running : Reach start one_running
unfolding begin_operation publish
Reach-one_running = later (later here (enter 7 one_entered refl)) (launch 7 one_launched refl)

second_waits : begin_operation 7 5 one_launched ≡ busy 0
unfolding begin_operation
second_waits = refl

Reach-exclusive_example :
    (has one_running.inside (7, 0) ≡ true → has one_running.inside (7, 0) ≡ true → ◌≡◌ {A = ℕ} 0 0)
    × (has one_running.live (7, 0) ≡ true → has one_running.live (7, 0) ≡ true → ◌≡◌ {A = ℕ} 0 0)
    × (has one_running.live (7, 0) ≡ true
        → pointer_of (lookup 7 one_running.shared.workers) ≡ some 0)
Reach-exclusive_example = Reach-exclusive Reach-one_running 7 0 0

-- The worker is gone, and the supervisor closes.
abbrev all_down : System
all_down = record {
  shared = record one_entered { closing = true; recovery_error = some (codes "canceled") };
  inside = (7, 0) ∷ [];
  live = [];
  recoveries = [];
  next = 2;
}

Reach-all_down : Reach start all_down
unfolding exit_worker close_down
Reach-all_down = later (later Reach-one_running (exit 7 1 refl)) (wait (codes "canceled"))

Reach-closed_example :
    (all_down.live ≡ []) × (all_down.recoveries ≡ []) × (all_down.shared.closing ≡ true)
Reach-closed_example = Reach-closed {s = all_down} {t = all_down} Reach-all_down refl refl here

ordered_example : ordered (5 ∷ 2 ∷ 5 ∷ 9 ∷ 2 ∷ []) ≡ 2 ∷ 5 ∷ 9 ∷ []
unfolding ordered
ordered_example = refl

delete_sessions-Keeps_example :
    Keeps no_progress
      (delete_sessions 50 (codes "deadline") (4 ∷ 2 ∷ 4 ∷ []))
      (IsCleared (4 ∷ 2 ∷ 4 ∷ []) no_progress)
delete_sessions-Keeps_example = delete_sessions-Keeps 50 (codes "deadline") (4 ∷ 2 ∷ 4 ∷ [])

delete_sessions-Ends_example : Ends (delete_sessions 50 (codes "deadline") (4 ∷ 2 ∷ 4 ∷ [])) Fine
delete_sessions-Ends_example = delete_sessions-Ends 50 (codes "deadline") (4 ∷ 2 ∷ 4 ∷ [])

perform-Keeps_example : Keeps no_progress (perform (stop_call 2 (codes "deadline") 3)) IsReleased
perform-Keeps_example = perform-Keeps (stop_call 2 (codes "deadline") 3)
