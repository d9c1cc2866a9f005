-- ===== src/Ch/Writer/Tests.antt =====
-- Runs of the writer, and its theorems at them.
use proxy_sampler.Prelude.{ℕ, ◌≡◌, refl, true, List, [], ◌∷◌, ◌++◌, none, some, codes, Text, pos}
use proxy_sampler.Ch.Event.{Event, valid_event, append_args, probe_ips_row, normalized_ip}
use proxy_sampler.Ch.Writer.{
  Writer, Batch, new_writer, or_default, enqueue, start_flush, close, initiate_close, receive, tick,
  handle, flush, flush_events, append_all,
}
use proxy_sampler.Ch.Writer.Steps.{
  Action, enqueues, starts_flush, closes, initiates_close, receives, ticks, step, steps, accepted,
  flushed, contents,
}
use proxy_sampler.Ch.Writer.Order.{contents-steps}
use proxy_sampler.Ch.Writer.Invariant.{IsWriter, new_writer-steps-IsWriter}
use proxy_sampler.Ch.Writer.Errors.{IsReported, new_writer-IsReported}
use proxy_sampler.Ch.Writer.Barrier.{steps-flushed}
use proxy_sampler.Ch.Writer.Drain.{receiving, receiving-flushed}

abbrev event_of : ℕ → Event
event_of n = record {
  session_id = 7;
  sampled_at = 0;
  sample_seq = n;
  probes_attempted = 2;
  probes_ok = 1;
  primary_ip = 10 ∷ 0 ∷ 0 ∷ 1 ∷ [];
  distinct_ips = 1;
  ip_changed = 0;
  new_ips = 0;
  rtt_min_ms = 5;
  rtt_med_ms = 5;
  rtt_max_ms = 5;
  egress_country = codes "DE";
  primary_category = codes "isp";
  primary_risk = 0;
  probe_ips = (10 ∷ 0 ∷ 0 ∷ 1 ∷ []) ∷ [] ∷ [];
  probe_rtts_ms = 5 ∷ 0 ∷ [];
  probe_ok = 1 ∷ 0 ∷ [];
  error = [];
}

abbrev works : Batch
works = record { open_error = none; append_error = λ e. none; send_error = none }

abbrev refuses : Batch
refuses = record {
  open_error = none;
  append_error = λ e. none;
  send_error = some (codes "broken pipe");
}

-- A batch of two, a queue of three, a failed send, a dropped event, a barrier and the shutdown.
abbrev busy : List Action
busy =
    enqueues (event_of 1)
    ∷ enqueues (event_of 2)
    ∷ starts_flush 0
    ∷ enqueues (event_of 3)
    ∷ receives refuses []
    ∷ receives refuses []
    ∷ enqueues (event_of 4)
    ∷ receives works []
    ∷ ticks works
    ∷ closes
    ∷ initiates_close
    ∷ enqueues (event_of 5)
    ∷ receives works []
    ∷ receives works []
    ∷ []

busy_run :
    let w = steps busy (new_writer (pos 2) (pos 3)) in
    (w.done ≡ true)
    × (w.dropped ≡ 1)
    × (w.flush_errors ≡ 1)
    × (w.replies ≡ (0, codes "broken pipe" ∷ []) ∷ [])
    × (flushed w.flushes ≡ event_of 1 ∷ event_of 2 ∷ event_of 4 ∷ [])
unfolding steps step new_writer or_default enqueue start_flush close initiate_close receive tick
    handle flush flush_events append_all append_args probe_ips_row normalized_ip valid_event
busy_run = (refl, refl, refl, refl, refl)

contents-steps_example :
    contents (steps busy (new_writer (pos 2) (pos 3)))
    ≡ contents (new_writer (pos 2) (pos 3)) ++ accepted busy (new_writer (pos 2) (pos 3))
contents-steps_example = contents-steps busy (new_writer (pos 2) (pos 3))

new_writer-steps-IsWriter_example : IsWriter (steps busy (new_writer (pos 2) (pos 3)))
new_writer-steps-IsWriter_example = new_writer-steps-IsWriter (pos 2) (pos 3) busy

new_writer-IsReported_example : IsReported (steps busy (new_writer (pos 2) (pos 3)))
new_writer-IsReported_example = new_writer-IsReported (pos 2) (pos 3) busy

abbrev holding : Writer
holding = record (new_writer (pos 2) (pos 3)) { batch = event_of 1 ∷ [] }

abbrev answering : List Action
answering = enqueues (event_of 2) ∷ receives works [] ∷ []

steps-flushed_example :
    (rest : List Event) × (flushed (steps answering (start_flush 4 holding).0).flushes
      ≡ contents holding ++ rest)
unfolding steps step new_writer or_default enqueue start_flush receive handle flush flush_events
    append_all append_args probe_ips_row normalized_ip valid_event
steps-flushed_example = steps-flushed 4 holding answering refl refl refl refl

abbrev closed_writer : Writer
closed_writer =
    steps (enqueues (event_of 1) ∷ closes ∷ initiates_close ∷ []) (new_writer (pos 2) (pos 3))

abbrev last_rounds : List (Batch × List Text)
last_rounds = (refuses, []) ∷ (works, []) ∷ []

receiving-flushed_example :
    ((steps (receiving last_rounds) closed_writer).done ≡ true)
    × (flushed (steps (receiving last_rounds) closed_writer).flushes ≡ contents closed_writer)
unfolding steps step new_writer or_default enqueue close initiate_close valid_event
receiving-flushed_example = receiving-flushed last_rounds closed_writer refl refl refl
