-- ===== src/Ch/Writer.antt =====
-- internal/ch/writer.go: the bounded queue of commands, the loop that batches events, and its
-- barrier and shutdown. The goroutines' steps are functions on the writer's state, which a history
-- applies in any order. ClickHouse's batch is what the driver answers to each call.
pub mod Steps
pub mod Order
pub mod Invariant
pub mod Errors
pub mod Barrier
pub mod Drain
pub mod Tests
use proxy_sampler.Prelude.{
  ℕ, zero, suc, ◌+◌, Bool, true, false, not, ◌&&◌, ◌||◌, ltb, leb, ◌==◌, List, [], ◌∷◌, ◌++◌, map,
  Option, none, some, Text, nat_eq, contains, add, remove, length, ℤ, pos, negsuc, is_nil,
  if◌then◌else◌,
}
use proxy_sampler.Ch.Event.{Event, valid_event, append_args}

-- A barrier is the channel that waits for its answer.
pub data Command : Type 0 where
  event : Event → Command
  barrier : ℕ → Command

-- What the driver answers to one flush: to opening a batch, to each appended row, to sending.
pub record Batch : Type 0 where
  pub open_error : Option Text
  pub append_error : Event → Option Text
  pub send_error : Option Text

pub data FlushResult : Type 0 where
  sent : List Event → FlushResult
  failed : Text → FlushResult
  panicked : FlushResult

-- The loop of `flush` over the events, behind an opened batch.
unfoldable pub append_all : Batch → List Event → List Event → FlushResult
append_all b [] rows = elim b.send_error [ none ↦ sent rows | some e ↦ failed e ]
append_all b (e ∷ es) rows = elim (append_args e) [
  | none ↦ panicked
  | some row ↦ elim (b.append_error row) [
    | some err ↦ failed err
    | none ↦ append_all b es (rows ++ row ∷ [])
  ]
]

unfoldable pub flush_events : Batch → List Event → FlushResult
unfolding append_all
flush_events b es = elim b.open_error [ some e ↦ failed e | none ↦ append_all b es [] ]

-- `pendingErr` and `closeErr` join errors, which is a list. `flushes` are the calls that the
-- driver has seen, each with its events and its result, and `replies` what went into barriers.
-- `waiting` are the calls of `Flush` that hold the read lock until the queue has room.
pub record Writer : Type 0 where
  pub commands : List Command
  pub channel_closed : Bool
  pub accepting : Bool
  pub closing : Bool
  pub waiting : List ℕ
  pub done : Bool
  pub close_err : List Text
  pub batch : List Event
  pub pending_err : List Text
  pub dropped : ℕ
  pub flush_errors : ℕ
  pub batch_size : ℕ
  pub queue_capacity : ℕ
  pub flushes : List (List Event × FlushResult)
  pub replies : List (ℕ × List Text)

abbrev pub default_batch_size : ℕ
default_batch_size = 100

abbrev pub default_queue_capacity : ℕ
default_queue_capacity = 4096

-- `if cfg.X <= 0 { cfg.X = defaultX }`.
unfoldable pub or_default : ℤ → ℕ → ℕ
or_default (pos zero) d = d
or_default (pos (suc n)) d = suc n
or_default (negsuc n) d = d

unfoldable pub new_writer : ℤ → ℤ → Writer
unfolding or_default
new_writer batch_size queue_capacity = record {
  commands = [];
  channel_closed = false;
  accepting = true;
  closing = false;
  waiting = [];
  done = false;
  close_err = [];
  batch = [];
  pending_err = [];
  dropped = 0;
  flush_errors = 0;
  batch_size = or_default batch_size default_batch_size;
  queue_capacity = or_default queue_capacity default_queue_capacity;
  flushes = [];
  replies = [];
}

abbrev pub has_room : Writer → Bool
has_room w = ltb (length w.commands) w.queue_capacity

-- The rate-limited log line of a dropped event changes no other state, and is left out.
unfoldable pub enqueue : Event → Writer → Writer × Bool
enqueue e w =
    if not (valid_event e)
    then (w, false)
    else if w.closing || (not w.accepting || w.closing)
    then (w, false)
    else if has_room w
    then (record w { commands = w.commands ++ event e ∷ [] }, true)
    else (record w { dropped = w.dropped + 1 }, false)

-- How `Flush` starts: it is refused, it waits for room in the queue, or its barrier is queued.
pub data FlushStart : Type 0 where
  writer_closed waits queued : FlushStart

unfoldable pub start_flush : ℕ → Writer → Writer × FlushStart
start_flush id w =
    if w.closing || (not w.accepting || w.closing)
    then (w, writer_closed)
    else if has_room w
    then (record w { commands = w.commands ++ barrier id ∷ [] }, queued)
    else (record w { waiting = add w.waiting id }, waits)

-- A waiting call goes on when there is room, or gives up when its context is done.
unfoldable pub resume_flush : ℕ → Writer → Writer
resume_flush id w =
    if contains w.waiting id && has_room w
    then record w { commands = w.commands ++ barrier id ∷ []; waiting = remove w.waiting id }
    else w

unfoldable pub abandon_flush : ℕ → Writer → Writer
abandon_flush id w = record w { waiting = remove w.waiting id }

-- `Close` marks the writer; `initiateClose` runs beside it, once, when no call holds the read lock.
unfoldable pub close : Writer → Writer
close w = record w { closing = true }

unfoldable pub initiate_close : Writer → Writer
initiate_close w =
    if w.closing && is_nil w.waiting
    then record w { accepting = false; channel_closed = true }
    else w

-- The closure `flush` of the loop, with the counter of `recordFlushError`.
unfoldable pub flush : Batch → Writer → Writer
flush b w = if is_nil w.batch then w else elim (flush_events b w.batch) [
  | failed err ↦ record w {
    batch = [];
    pending_err = w.pending_err ++ err ∷ [];
    flush_errors = w.flush_errors + 1;
    flushes = w.flushes ++ (w.batch, failed err) ∷ [];
  }
  | r ↦ record w { batch = []; flushes = w.flushes ++ (w.batch, r) ∷ [] }
]

-- A received command.
unfoldable pub handle : Batch → Command → Writer → Writer
unfolding flush
handle b (event e) w =
    let w' = record w { batch = w.batch ++ e ∷ [] } in
    if leb w.batch_size (length w'.batch) then flush b w' else w'
handle b (barrier id) w =
    let w' = flush b w in
    record w' { replies = w'.replies ++ (id, w'.pending_err) ∷ []; pending_err = [] }

-- One round of `run` that receives from the queue; `closer_err` is what closing the connection
-- returns. An open and empty queue gives nothing to receive, and a loop that has returned does no
-- more.
unfoldable pub receive : Batch → List Text → Writer → Writer
unfolding handle flush
receive b closer_err w = if w.done then w else elim w.commands [
  | c ∷ rest ↦ handle b c (record w { commands = rest })
  | [] ↦
      if w.channel_closed
      then (let w' = flush b w in
          record w' { close_err = w'.pending_err ++ closer_err; done = true })
      else w
]

-- One round of `run` at the ticker.
unfoldable pub tick : Batch → Writer → Writer
unfolding flush
tick b w = if w.done then w else flush b w
