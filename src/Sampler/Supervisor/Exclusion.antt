-- ===== src/Sampler/Supervisor/Exclusion.antt =====
-- What ownership means: one operation and one worker for a session, and a shutdown that is final.
use mathlib.Core.Bool.{false≢true}
use proxy_sampler.Prelude.{
  ℕ, ◌+◌, ◌≡◌, refl, sym, ap, ◌∙◌, true, false, List, [], ◌∷◌, Option, some, lookup, nat_eq, length,
  arith,
}
use proxy_sampler.Sampler.Supervisor.Sections.{
  Supervisor, entered, begin_operation, end_operation, published, publish, scheduled,
  schedule_recovery, close_down,
}
use proxy_sampler.Sampler.Supervisor.Interleaving.{
  System, has, Step, enter, leave, launch, exit, schedule, recovered, wait, root_done, Reach, here,
  later, start,
}
use proxy_sampler.Sampler.Supervisor.Entries.{All-has}
use proxy_sampler.Sampler.Supervisor.Ownership.{pointer_of, Reach-IsOwned}

some_same : {o : Option ℕ} {p q : ℕ} → o ≡ some p → o ≡ some q → p ≡ q
some_same a b = ground arith

-- In every state that the supervisor reaches, two operations that are being performed on one session
-- are the same, two workers of one session that have not left the map are the same, and the map
-- holds the one that there is.
pub Reach-exclusive :
    {s : System}
    → Reach start s
    → (id p q : ℕ)
    → (has s.inside (id, p) ≡ true → has s.inside (id, q) ≡ true → p ≡ q)
      × (has s.live (id, p) ≡ true → has s.live (id, q) ≡ true → p ≡ q)
      × (has s.live (id, p) ≡ true → pointer_of (lookup id s.shared.workers) ≡ some p)
Reach-exclusive {s} r id p q =
    let o = Reach-IsOwned r in
    let operation =
      λ (i : ℕ). All-has (λ j x. lookup j s.shared.operations ≡ some x) id i s.inside o.held in
    let worker = λ (i : ℕ).
      All-has (λ j x. pointer_of (lookup j s.shared.workers) ≡ some x) id i s.live o.owned in
    (
      (λ hp hq. some_same (operation p hp) (operation q hq)),
      (λ hp hq. some_same (worker p hp) (worker q hq)),
      worker p,
    )

record IsDown (s : System) : Type 0 where
  closing : s.shared.closing ≡ true
  no_worker : s.live ≡ []
  no_recovery : s.recoveries ≡ []

enter-closing :
    (id pointer : ℕ) (s t : Supervisor)
    → begin_operation id pointer s ≡ entered t
    → s.closing ≡ false
unfolding begin_operation
enter-closing id pointer s t h = ground arith

launch-closing :
    (id pointer : ℕ) (s t : Supervisor) → publish id pointer s ≡ published t → s.closing ≡ false
unfolding publish
launch-closing id pointer s t h = ground arith

schedule-closing :
    (id pointer : ℕ) (s t : Supervisor)
    → schedule_recovery id pointer s ≡ scheduled t
    → s.closing ≡ false
unfolding schedule_recovery
schedule-closing id pointer s t h = ground arith

end_operation-closing :
    (id pointer : ℕ) (s : Supervisor) → (end_operation id pointer s).closing ≡ s.closing
unfolding end_operation
end_operation-closing id pointer s = ground arith

Step-IsDown : {s t : System} → Step s t → IsDown s → IsDown t
unfolding close_down
Step-IsDown {s} (enter id t h) d = ground (arith, d, enter-closing id s.next s.shared t h)
Step-IsDown {s} (leave id pointer h) d =
    ground (arith, d, end_operation-closing id pointer s.shared)
Step-IsDown {s} (launch id t h) d = ground (arith, d, launch-closing id s.next s.shared t h)
Step-IsDown {s} (exit id pointer h) d =
    absurd (false≢true (ap (λ l. has l (id, pointer)) (sym d.no_worker) ∙ h))
Step-IsDown {s} (schedule id pointer t h) d =
    ground (arith, d, schedule-closing id pointer s.shared t h)
Step-IsDown {s} (recovered id pointer h) d =
    absurd (false≢true (ap (λ l. has l (id, pointer)) (sym d.no_recovery) ∙ h))
Step-IsDown {s} (wait cancelled) d = ground (arith, d)
Step-IsDown {s} (root_done e) d = ground (arith, d)

Reach-IsDown : {s t : System} → IsDown s → Reach s t → IsDown t
Reach-IsDown d here = d
Reach-IsDown d (later r st) = Step-IsDown st (Reach-IsDown d r)

no_entry : (es fs : List (ℕ × ℕ)) → length es + length fs ≡ 0 → (es ≡ []) × (fs ≡ [])
no_entry [] [] h = (refl, refl)
no_entry [] (x ∷ xs) h = absurd (omega arith)
no_entry (x ∷ xs) fs h = absurd (omega arith)

-- Where the wait of a closing supervisor ends, which is where the counter of its wait group is 0, no
-- worker and no recovery runs, and none does in any state that follows.
pub Reach-closed :
    {s t : System}
    → Reach start s
    → s.shared.closing ≡ true
    → s.shared.waiting ≡ 0
    → Reach s t
    → (t.live ≡ []) × (t.recoveries ≡ []) × (t.shared.closing ≡ true)
Reach-closed {s} r closing waited after =
    let (no_worker, no_recovery) =
      no_entry s.live s.recoveries (sym ((Reach-IsOwned r).counted) ∙ waited) in
    let down =
      Reach-IsDown (record { closing = closing; no_worker = no_worker; no_recovery = no_recovery })
        after in
    (down.no_worker, down.no_recovery, down.closing)
