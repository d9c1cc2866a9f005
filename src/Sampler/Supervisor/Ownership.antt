-- ===== src/Sampler/Supervisor/Ownership.antt =====
-- Who owns what in each reachable state of the supervisor.
use proxy_sampler.Prelude.{
  ℕ, suc, ◌+◌, ◌-◌, ◌≡◌, refl, sym, ap, true, false, ◌∷◌, Option, none, some, keys, lookup, insert,
  delete, lookup-insert, lookup-delete, insert-Distinct, delete-Distinct, nat_eq, contains,
  Distinct, length, All, arith, ==_iff, subst,
}
use proxy_sampler.Sampler.Supervisor.Sections.{
  RunningWorker, Supervisor, entered, begin_operation, end_operation, published, publish,
  exit_worker, scheduled, schedule_recovery, close_down,
}
use proxy_sampler.Sampler.Supervisor.Interleaving.{
  System, drop, has, Step, enter, leave, launch, exit, schedule, recovered, wait, root_done, Reach,
  here, later, start, ids,
}
use proxy_sampler.Sampler.Supervisor.Entries.{
  All-moved, drop-Distinct, drop-absent, All-drop, length-drop, All-has, absent, All-same,
}

abbrev pub pointer_of : Option RunningWorker → Option ℕ
pointer_of none = none
pointer_of (some r) = some r.pointer

pub record IsOwned (s : System) : Type 0 where
  pub held : All (λ e. lookup e.0 s.shared.operations ≡ some e.1) s.inside
  pub exclusive : Distinct (ids s.inside)
  pub operation_keys : Distinct (keys s.shared.operations)
  pub owned : All (λ e. pointer_of (lookup e.0 s.shared.workers) ≡ some e.1) s.live
  pub single : Distinct (ids s.live)
  pub worker_keys : Distinct (keys s.shared.workers)
  pub counted : s.shared.waiting ≡ length s.live + length s.recoveries

enter-fields :
    (id pointer : ℕ) (s t : Supervisor)
    → begin_operation id pointer s ≡ entered t
    → (lookup id s.operations ≡ none)
      × (t.operations ≡ insert id pointer s.operations)
      × (t.workers ≡ s.workers)
      × (t.waiting ≡ s.waiting)
unfolding begin_operation
enter-fields id pointer s t h = ground arith

launch-fields :
    (id pointer : ℕ) (s t : Supervisor)
    → publish id pointer s ≡ published t
    → (lookup id s.workers ≡ none)
      × (t.workers ≡ insert id (record { pointer = pointer }) s.workers)
      × (t.operations ≡ s.operations)
      × (t.waiting ≡ s.waiting + 1)
unfolding publish
launch-fields id pointer s t h = ground arith

enter-IsOwned :
    (s : System) (id : ℕ) (t : Supervisor)
    → begin_operation id s.next s.shared ≡ entered t
    → IsOwned s
    → IsOwned (record s { shared = t; inside = (id, s.next) ∷ s.inside; next = suc s.next })
enter-IsOwned s id t h o =
    let (free, operations, workers, waiting) = enter-fields id s.next s.shared t h in
    let new : contains (ids s.inside) id ≡ false =
      absent (λ i. lookup i s.shared.operations) id s.inside o.held free in
    record {
      held = (
        ground (arith, lookup-insert id id s.next s.shared.operations, ==_iff id id),
        All-moved (λ i. lookup i s.shared.operations) (λ i. lookup i t.operations) id s.inside
            (λ j ne. ground (arith, lookup-insert id j s.next s.shared.operations, ==_iff id j)) new
            o.held,
      );
      exclusive = (new, o.exclusive);
      operation_keys =
          rw operations (insert-Distinct id s.next s.shared.operations o.operation_keys);
      owned =
          subst (λ m. All (λ e. pointer_of (lookup e.0 m) ≡ some e.1) s.live) (sym workers) o.owned;
      single = o.single;
      worker_keys = rw workers o.worker_keys;
      counted = rw waiting o.counted;
    }

launch-IsOwned :
    (s : System) (id : ℕ) (t : Supervisor)
    → publish id s.next s.shared ≡ published t
    → IsOwned s
    → IsOwned (record s { shared = t; live = (id, s.next) ∷ s.live; next = suc s.next })
launch-IsOwned s id t h o =
    let (free, workers, operations, waiting) = launch-fields id s.next s.shared t h in
    let new : contains (ids s.live) id ≡ false =
      absent (λ i. pointer_of (lookup i s.shared.workers)) id s.live o.owned (ap pointer_of free) in
    record {
      held = subst (λ m. All (λ e. lookup e.0 m ≡ some e.1) s.inside) (sym operations) o.held;
      exclusive = o.exclusive;
      operation_keys = rw operations o.operation_keys;
      owned =
          let r : RunningWorker = record { pointer = s.next } in
          (
            ground (arith, lookup-insert id id r s.shared.workers, ==_iff id id),
            All-moved (λ i. pointer_of (lookup i s.shared.workers))
                (λ i. pointer_of (lookup i t.workers)) id s.live
                (λ j ne. ground (arith, lookup-insert id j r s.shared.workers, ==_iff id j)) new
                o.owned,
          );
      single = (new, o.single);
      worker_keys = rw workers (insert-Distinct id _ s.shared.workers o.worker_keys);
      counted = omega (arith, o.counted);
    }

leave-IsOwned :
    (s : System) (id pointer : ℕ)
    → has s.inside (id, pointer) ≡ true
    → IsOwned s
    → IsOwned (record s {
      shared = end_operation id pointer s.shared;
      inside = drop (id, pointer) s.inside;
    })
unfolding end_operation
leave-IsOwned s id pointer h o =
    let mine : lookup id s.shared.operations ≡ some pointer =
      All-has (λ i q. lookup i s.shared.operations ≡ some q) id pointer s.inside o.held h in
    let left : end_operation id pointer s.shared
        ≡ record s.shared { operations = delete id s.shared.operations } =
      ground (arith, ==_iff pointer pointer) in
    let gone : contains (ids (drop (id, pointer) s.inside)) id ≡ false =
      drop-absent (id, pointer) s.inside o.exclusive h in
    rw left (record {
      held =
          All-moved (λ i. lookup i s.shared.operations)
            (λ i. lookup i (delete id s.shared.operations)) id (drop (id, pointer) s.inside)
            (λ j ne.
              ground (arith, lookup-delete id j s.shared.operations o.operation_keys, ==_iff id j))
            gone
            (All-drop (λ e. lookup e.0 s.shared.operations ≡ some e.1) (id, pointer) s.inside
              o.held);
      exclusive = drop-Distinct (id, pointer) s.inside o.exclusive;
      operation_keys = delete-Distinct id s.shared.operations o.operation_keys;
      owned = o.owned;
      single = o.single;
      worker_keys = o.worker_keys;
      counted = o.counted;
    })

exit-IsOwned :
    (s : System) (id pointer : ℕ)
    → has s.live (id, pointer) ≡ true
    → IsOwned s
    → IsOwned
        (record s { shared = exit_worker id pointer s.shared; live = drop (id, pointer) s.live })
unfolding exit_worker
exit-IsOwned s id pointer h o =
    let mine : pointer_of (lookup id s.shared.workers) ≡ some pointer =
      All-has (λ i q. pointer_of (lookup i s.shared.workers) ≡ some q) id pointer s.live o.owned
        h in
    let left : exit_worker id pointer s.shared
        ≡ record s.shared { workers = delete id s.shared.workers; waiting = s.shared.waiting - 1 } =
      ground (arith, ==_iff pointer pointer) in
    let gone : contains (ids (drop (id, pointer) s.live)) id ≡ false =
      drop-absent (id, pointer) s.live o.single h in
    rw left (record {
      held = o.held;
      exclusive = o.exclusive;
      operation_keys = o.operation_keys;
      owned =
          All-moved (λ i. pointer_of (lookup i s.shared.workers))
            (λ i. pointer_of (lookup i (delete id s.shared.workers))) id (drop (id, pointer) s.live)
            (λ j ne. ground (arith, lookup-delete id j s.shared.workers o.worker_keys, ==_iff id j))
            gone
            (All-drop (λ e. pointer_of (lookup e.0 s.shared.workers) ≡ some e.1) (id, pointer)
              s.live o.owned);
      single = drop-Distinct (id, pointer) s.live o.single;
      worker_keys = delete-Distinct id s.shared.workers o.worker_keys;
      counted = omega (arith, o.counted, length-drop (id, pointer) s.live h);
    })

schedule-fields :
    (id pointer : ℕ) (s t : Supervisor)
    → schedule_recovery id pointer s ≡ scheduled t
    → (t.operations ≡ s.operations) × (t.workers ≡ s.workers) × (t.waiting ≡ s.waiting + 1)
unfolding schedule_recovery
schedule-fields id pointer s t h = ground arith

schedule-IsOwned :
    (s : System) (id pointer : ℕ) (t : Supervisor)
    → schedule_recovery id pointer s.shared ≡ scheduled t
    → IsOwned s
    → IsOwned (record s { shared = t; recoveries = (id, pointer) ∷ s.recoveries })
schedule-IsOwned s id pointer t h o =
    let (operations, workers, waiting) = schedule-fields id pointer s.shared t h in
    record {
      held = subst (λ m. All (λ e. lookup e.0 m ≡ some e.1) s.inside) (sym operations) o.held;
      exclusive = o.exclusive;
      operation_keys = rw operations o.operation_keys;
      owned =
          All-same (λ i. pointer_of (lookup i s.shared.workers))
            (λ i. pointer_of (lookup i t.workers)) s.live
            (λ j. ap (λ m. pointer_of (lookup j m)) workers) o.owned;
      single = o.single;
      worker_keys = rw workers o.worker_keys;
      counted = omega (arith, o.counted);
    }

-- Every section keeps the invariant, whichever goroutine runs it.
pub Step-IsOwned : {s t : System} → Step s t → IsOwned s → IsOwned t
unfolding close_down
Step-IsOwned {s} (enter id t h) o = enter-IsOwned s id t h o
Step-IsOwned {s} (leave id pointer h) o = leave-IsOwned s id pointer h o
Step-IsOwned {s} (launch id t h) o = launch-IsOwned s id t h o
Step-IsOwned {s} (exit id pointer h) o = exit-IsOwned s id pointer h o
Step-IsOwned {s} (schedule id pointer t h) o = schedule-IsOwned s id pointer t h o
Step-IsOwned {s} (recovered id pointer h) o = record {
  held = o.held;
  exclusive = o.exclusive;
  operation_keys = o.operation_keys;
  owned = o.owned;
  single = o.single;
  worker_keys = o.worker_keys;
  counted = omega (arith, o.counted, length-drop (id, pointer) s.recoveries h);
}
Step-IsOwned {s} (wait cancelled) o = ground (arith, o)
Step-IsOwned {s} (root_done e) o = ground (arith, o)

start-IsOwned : IsOwned start
start-IsOwned = record {
  held = tt;
  exclusive = tt;
  operation_keys = tt;
  owned = tt;
  single = tt;
  worker_keys = tt;
  counted = refl;
}

pub Reach-IsOwned : {s : System} → Reach start s → IsOwned s
Reach-IsOwned here = start-IsOwned
Reach-IsOwned (later r st) = Step-IsOwned st (Reach-IsOwned r)
