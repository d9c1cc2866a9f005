-- ===== src/Sampler/Worker/Run.antt =====
-- internal/sampler/worker.go: the loop of `Run` over its rounds, and that of `finish` over its
-- attempts.
use proxy_sampler.Prelude.{
  Bool, true, false, ◌&&◌, ◌||◌, not, List, [], ◌∷◌, Option, none, some, Text, pos, is_some,
  if◌then◌else◌,
}
use proxy_sampler.Go.Time.{Time, sub_time, leb_ℤ}
use proxy_sampler.Sampler.Worker.{PreparedWorker, TickAnswers, Working, tick}

unfoldable pub max_samples_reached : PreparedWorker → Bool
max_samples_reached p = elim p.session.max_samples [
  | none ↦ false
  | some m ↦ leb_ℤ m (pos p.sample_seq)
]

unfoldable pub cap_reached : Time → PreparedWorker → Bool
cap_reached now p = if max_samples_reached p then true else elim p.session.max_duration [
  | none ↦ false
  | some d ↦ elim p.session.started_at [ none ↦ false | some at ↦ leb_ℤ d (sub_time now at) ]
]

-- One round: whether the context is done when it begins, the clock at the two looks at the cap,
-- the tick, and whether the context is done behind the tick and while it waits for the cadence.
pub record Round : Type 0 where
  pub canceled_before : Bool
  pub now_before : Time
  pub answers : TickAnswers
  pub canceled_after : Bool
  pub now_after : Time
  pub canceled_waiting : Bool

-- Where the rounds leave the loop: still sampling, in `finish`, or returned.
pub data RunState : Type 0 where
  sampling finishing canceled : Working → RunState

unfoldable pub run : List Round → Working → RunState
run [] w = sampling w
run (r ∷ rs) w =
    let (w', err) = tick r.answers w in
    let rest = run rs w' in
    if r.canceled_before
    then canceled w
    else if cap_reached r.now_before w.worker
    then finishing w
    else if r.canceled_after
    then canceled w'
    else if not (is_some err) && cap_reached r.now_after w'.worker
    then finishing w'
    else if r.canceled_waiting
    then canceled w'
    else rest

-- One call of the store's `Finish`, and whether the context is done behind it and while it waits.
pub record Attempt : Type 0 where
  pub at : Time
  pub error : Option Text
  pub canceled_after : Bool
  pub canceled_waiting : Bool

-- Whether the loop has returned, and the times of its calls.
unfoldable pub finish : List Attempt → List Time × Bool
finish [] = ([], false)
finish (a ∷ as') =
    let (times, returned) = finish as' in
    if not (is_some a.error) || a.canceled_after
    then (a.at ∷ [], true)
    else if a.canceled_waiting
    then (a.at ∷ [], true)
    else (a.at ∷ times, returned)
