-- ===== src/Sampler/Worker/Cap.antt =====
-- The cap on a session's samples: the loop of `Run` stops at it, and reaches it.
use proxy_sampler.Prelude.{
  ℕ, suc, ◌+◌, ◌-◌, ◌^◌, ◌≤◌, ◌<◌, ◌≡◌, refl, ap, ◌∙◌, true, false, List, [], ◌∷◌, none, some,
  arith, length, length-snoc, All, if◌then◌else◌, pos, leb, inl, inr, Bool-cases, if-cases,
}
use proxy_sampler.Go.Ints.{add_uint32}
use proxy_sampler.Sampler.Worker.{
  PreparedWorker, TickAnswers, Working, next_snapshot, advance, tick, started,
}
use proxy_sampler.Sampler.Worker.Numbering.{tick-cases}
use proxy_sampler.Sampler.Worker.Run.{
  Round, RunState, sampling, finishing, canceled, run, cap_reached, max_samples_reached,
}

abbrev pub working_of : RunState → Working
working_of (sampling w) = w
working_of (finishing w) = w
working_of (canceled w) = w

-- With the cap `m`, from the counter `start`.
pub record IsCapped (m start : ℕ) (w : Working) : Type 0 where
  pub cap : w.worker.session.max_samples ≡ some (pos m)
  pub bounded : w.worker.sample_seq ≤ m
  pub counted : w.worker.sample_seq ≡ start + length w.saved

cap_reached-below :
    (m : ℕ) (now : ℕ) (p : PreparedWorker)
    → p.session.max_samples ≡ some (pos m)
    → cap_reached now p ≡ false
    → p.sample_seq < m
unfolding cap_reached max_samples_reached
cap_reached-below m now p c h = ground arith

advance-IsCapped :
    (m start : ℕ) (a : TickAnswers) (w : Working)
    → m < 2 ^ 32
    → w.worker.sample_seq < m
    → IsCapped m start w
    → IsCapped m start (advance a w)
unfolding advance next_snapshot
advance-IsCapped m start a w small below v = record {
  cap = v.cap;
  bounded = omega arith;
  counted = omega (arith, v.counted, length-snoc w.saved _);
}

-- Where a round can lead.
run-cases :
    (r : Round) (rounds : List Round) (w : Working) (P : RunState → Type 0)
    → P (canceled w)
    → P (finishing w)
    → (cap_reached r.now_before w.worker ≡ false
        → P (canceled (tick r.answers w).0)
          × P (finishing (tick r.answers w).0)
          × P (run rounds (tick r.answers w).0))
    → P (run (r ∷ rounds) w)
unfolding run
run-cases r rounds w P stop end next =
    if-cases P r.canceled_before (λ _. stop)
      (λ _.
        if-cases P (cap_reached r.now_before w.worker) (λ _. end)
          (λ h.
            if-cases P r.canceled_after (λ _. (next h).0)
              (λ _.
                if-cases P _ (λ _. (next h).1)
                  (λ _. if-cases P r.canceled_waiting (λ _. (next h).0) (λ _. (next h).2)))))

run-IsCapped :
    (m start : ℕ) (rounds : List Round) (w : Working)
    → m < 2 ^ 32
    → IsCapped m start w
    → IsCapped m start (working_of (run rounds w))
run-IsCapped m start [] w small v = unfold run in v
run-IsCapped m start (r ∷ rounds) w small v =
    run-cases r rounds w (λ s. IsCapped m start (working_of s)) v v
      (λ h.
        let next : IsCapped m start (tick r.answers w).0 =
          tick-cases r.answers w (IsCapped m start) v (
            advance-IsCapped m start r.answers w small
              (cap_reached-below m r.now_before w.worker v.cap h) v) in
        (next, next, run-IsCapped m start rounds (tick r.answers w).0 small next))

-- However its rounds go, a worker whose session has the cap m (below 2^32) on its samples, and
-- whose counter starts at m or below, never saves a sample beyond it: its counter is the one it
-- started with and one for each save, and at most m.
pub run-started-IsCapped :
    (m : ℕ) (rounds : List Round) (p : PreparedWorker)
    → p.session.max_samples ≡ some (pos m)
    → m < 2 ^ 32
    → p.sample_seq ≤ m
    → IsCapped m p.sample_seq (working_of (run rounds (started p)))
run-started-IsCapped m rounds p cap small h =
    run-IsCapped m p.sample_seq rounds (started p) small
      (record { cap = cap; bounded = h; counted = omega arith })

-- A round in which nothing is canceled and the save succeeds.
abbrev pub Undisturbed : Round → Type 0
Undisturbed r =
    (r.canceled_before ≡ false)
    × (r.canceled_after ≡ false)
    × (r.canceled_waiting ≡ false)
    × (r.answers.save_error ≡ none)

tick-advance :
    (a : TickAnswers) (w : Working) → a.save_error ≡ none → tick a w ≡ (advance a w, none)
unfolding tick
tick-advance a w h = rw h refl

cap_reached_iff :
    (m : ℕ) (now : ℕ) (p : PreparedWorker)
    → p.session.max_samples ≡ some (pos m)
    → p.session.max_duration ≡ none
    → cap_reached now p ≡ leb m p.sample_seq
unfolding cap_reached max_samples_reached
cap_reached_iff m now p c d = ground arith

advance-keeps :
    (a : TickAnswers) (w : Working)
    → ((advance a w).worker.session.max_samples ≡ w.worker.session.max_samples)
      × ((advance a w).worker.session.max_duration ≡ w.worker.session.max_duration)
      × ((advance a w).worker.sample_seq ≡ add_uint32 w.worker.sample_seq 1)
      × (length (advance a w).saved ≡ suc (length w.saved))
unfolding advance next_snapshot
advance-keeps a w = (refl, refl, refl, length-snoc w.saved _)

cap_reached-advance :
    (m : ℕ) (now : ℕ) (a : TickAnswers) (w : Working)
    → w.worker.session.max_samples ≡ some (pos m)
    → w.worker.session.max_duration ≡ none
    → w.worker.sample_seq < m
    → m < 2 ^ 32
    → cap_reached now (advance a w).worker ≡ leb m (w.worker.sample_seq + 1)
cap_reached-advance m now a w c d below small =
    let (k, l, n, _) = advance-keeps a w in
    cap_reached_iff m now (advance a w).worker (k ∙ c) (l ∙ d) ∙ ap (leb m) (n ∙ omega arith)

-- One undisturbed round, at the cap and below it.
run-at_cap :
    (m : ℕ) (r : Round) (rounds : List Round) (w : Working)
    → r.canceled_before ≡ false
    → w.worker.session.max_samples ≡ some (pos m)
    → w.worker.session.max_duration ≡ none
    → m ≤ w.worker.sample_seq
    → run (r ∷ rounds) w ≡ finishing w
unfolding run
run-at_cap m r rounds w b c d h =
    let reached : cap_reached r.now_before w.worker ≡ true =
      cap_reached_iff m r.now_before w.worker c d ∙ ground arith in
    rw (b, reached) refl

run-below_cap :
    (m : ℕ) (r : Round) (rounds : List Round) (w : Working)
    → Undisturbed r
    → w.worker.session.max_samples ≡ some (pos m)
    → w.worker.session.max_duration ≡ none
    → w.worker.sample_seq < m
    → m < 2 ^ 32
    → run (r ∷ rounds) w ≡ (
        if leb m (w.worker.sample_seq + 1)
        then finishing (advance r.answers w)
        else run rounds (advance r.answers w))
unfolding run
run-below_cap m r rounds w (b, a, q, s) c d below small =
    let open_cap : cap_reached r.now_before w.worker ≡ false =
      cap_reached_iff m r.now_before w.worker c d ∙ ground arith in
    rw
      (
        b,
        open_cap,
        a,
        tick-advance r.answers w s,
        q,
        cap_reached-advance m r.now_after r.answers w c d below small,
      )
      refl

run-reaches :
    (m : ℕ) (rounds : List Round) (w : Working)
    → All Undisturbed rounds
    → w.worker.session.max_samples ≡ some (pos m)
    → w.worker.session.max_duration ≡ none
    → w.worker.sample_seq ≤ m
    → m < 2 ^ 32
    → 0 < length rounds
    → m ≤ w.worker.sample_seq + length rounds
    → (w' : Working) × (run rounds w ≡ finishing w')
      × (w'.worker.sample_seq ≡ m)
      × (length w'.saved ≡ length w.saved + (m - w.worker.sample_seq))
run-reaches m [] w u c d h small some_rounds enough = absurd (omega arith)
run-reaches m (r ∷ rounds) w u c d h small some_rounds enough =
    elim (Bool-cases (leb m w.worker.sample_seq)) [
      | inl e ↦ (w, run-at_cap m r rounds w u.0.0 c d (ground arith), ground arith, ground arith)
      | inr e ↦ elim (Bool-cases (leb m (w.worker.sample_seq + 1))) [
        | inl f ↦
            let (k, l, n, t) = advance-keeps r.answers w in
            (
              advance r.answers w,
              run-below_cap m r rounds w u.0 c d (ground arith) small ∙ rw f refl,
              ground (arith, n),
              ground (arith, t),
            )
        | inr f ↦
            let (k, l, n, t) = advance-keeps r.answers w in
            let next : (advance r.answers w).worker.sample_seq ≡ w.worker.sample_seq + 1 =
              ground (arith, n) in
            let (w', g, sq, ln) =
              run-reaches m rounds (advance r.answers w) u.1 (k ∙ c) (l ∙ d) (ground (arith, next))
                small (ground arith) (ground (arith, next)) in
            (
              w',
              run-below_cap m r rounds w u.0 c d (ground arith) small ∙ rw f g,
              sq,
              ground (arith, next, t, ln),
            )
      ]
    ]

-- A worker whose session has only the cap m on its samples, below 2^32, whose counter starts at m
-- or below, and whose rounds are not canceled and save what they sample, goes on to mark the
-- session finished once it has had a round and as many as there are samples left to the cap, and
-- has saved exactly those.
pub run-started-reaches :
    (m : ℕ) (rounds : List Round) (p : PreparedWorker)
    → All Undisturbed rounds
    → p.session.max_samples ≡ some (pos m)
    → p.session.max_duration ≡ none
    → p.sample_seq ≤ m
    → m < 2 ^ 32
    → 0 < length rounds
    → m ≤ p.sample_seq + length rounds
    → (w : Working) × (run rounds (started p) ≡ finishing w)
      × (w.worker.sample_seq ≡ m)
      × (length w.saved ≡ m - p.sample_seq)
run-started-reaches m rounds p u c d h small some_rounds enough =
    let (w, e, k, l) = run-reaches m rounds (started p) u c d h small some_rounds enough in
    (w, e, k, omega (arith, l))
