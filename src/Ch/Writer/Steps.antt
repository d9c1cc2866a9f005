-- ===== src/Ch/Writer/Steps.antt =====
-- Histories of the writer: any interleaving of its callers and its loop, and what they have
-- accepted and flushed.
use proxy_sampler.Prelude.{ℕ, List, [], ◌∷◌, ◌++◌, Text, if◌then◌else◌}
use proxy_sampler.Ch.Event.{Event}
use proxy_sampler.Ch.Writer.{
  Command, event, barrier, FlushResult, Writer, Batch, enqueue, start_flush, resume_flush,
  abandon_flush, close, initiate_close, receive, tick,
}

pub data Action : Type 0 where
  enqueues : Event → Action
  starts_flush resumes_flush abandons_flush : ℕ → Action
  closes initiates_close : Action
  receives : Batch → List Text → Action
  ticks : Batch → Action

unfoldable pub step : Action → Writer → Writer
step (enqueues e) w = (enqueue e w).0
step (starts_flush id) w = (start_flush id w).0
step (resumes_flush id) w = resume_flush id w
step (abandons_flush id) w = abandon_flush id w
step closes w = close w
step initiates_close w = initiate_close w
step (receives b errs) w = receive b errs w
step (ticks b) w = tick b w

unfoldable pub steps : List Action → Writer → Writer
steps [] w = w
steps (a ∷ as') w = steps as' (step a w)

-- The events that an action has been told are accepted.
abbrev pub accepted_by : Action → Writer → List Event
accepted_by (enqueues e) w = if (enqueue e w).1 then e ∷ [] else []
accepted_by _ w = []

unfoldable pub accepted : List Action → Writer → List Event
accepted [] w = []
accepted (a ∷ as') w = accepted_by a w ++ accepted as' (step a w)

-- The events of the flushes, of the queue, and of the writer from the oldest to the newest.
abbrev pub flushed : List (List Event × FlushResult) → List Event
flushed [] = []
flushed ((es, r) ∷ fs) = es ++ flushed fs

abbrev pub events_in : List Command → List Event
events_in [] = []
events_in (event e ∷ cs) = e ∷ events_in cs
events_in (barrier id ∷ cs) = events_in cs

abbrev pub contents : Writer → List Event
contents w = flushed w.flushes ++ (w.batch ++ events_in w.commands)
