-- ===== src/Ch/Writer/Errors.antt =====
-- Every failed flush is reported once: to the next barrier, or to `Close`.
use mathlib.Core.Bool.{false≢true}
use proxy_sampler.Prelude.{
  ℕ, ◌+◌, ◌≡◌, refl, sym, ap, ◌∙◌, Bool, true, false, List, [], ◌∷◌, ◌++◌, append_assoc, append-nil,
  Text, ℤ, arith, length, length-append, leb, is_nil, if◌then◌else◌,
}
use proxy_sampler.Ch.Event.{Event}
use proxy_sampler.Ch.Writer.{
  Command, event, barrier, FlushResult, sent, failed, panicked, Writer, Batch, new_writer, enqueue,
  start_flush, resume_flush, abandon_flush, close, initiate_close, receive, tick, handle, flush,
  flush_events,
}
use proxy_sampler.Ch.Writer.Steps.{
  Action, enqueues, starts_flush, resumes_flush, abandons_flush, closes, initiates_close, receives,
  ticks, step, steps,
}

-- The errors of the flushes that the driver has seen, in order.
abbrev pub errors_of : List (List Event × FlushResult) → List Text
errors_of [] = []
errors_of ((es, failed e) ∷ fs) = e ∷ errors_of fs
errors_of ((es, sent rows) ∷ fs) = errors_of fs
errors_of ((es, panicked) ∷ fs) = errors_of fs

abbrev pub replied : List (ℕ × List Text) → List Text
replied [] = []
replied ((id, errs) ∷ rs) = errs ++ replied rs

errors_of-append :
    (fs : List (List Event × FlushResult)) (es : List Event) (r : FlushResult)
    → errors_of (fs ++ (es, r) ∷ []) ≡ errors_of fs ++ errors_of ((es, r) ∷ [])
errors_of-append [] es r = refl
errors_of-append ((ds, failed e) ∷ fs) es r = ap (◌∷◌ e) (errors_of-append fs es r)
errors_of-append ((ds, sent rows) ∷ fs) es r = errors_of-append fs es r
errors_of-append ((ds, panicked) ∷ fs) es r = errors_of-append fs es r

replied-append :
    (rs : List (ℕ × List Text)) (id : ℕ) (errs : List Text)
    → replied (rs ++ (id, errs) ∷ []) ≡ replied rs ++ errs
replied-append [] id errs = append-nil errs
replied-append ((j, es) ∷ rs) id errs =
    ap (◌++◌ es) (replied-append rs id errs) ∙ sym (append_assoc es (replied rs) errs)

-- The reports that have been made and that still wait are the errors of the flushes.
pub record IsReported (w : Writer) : Type 0 where
  pub exact : errors_of w.flushes ≡ replied w.replies ++ w.pending_err
  pub counted : w.flush_errors ≡ length (errors_of w.flushes)
  pub at_close : w.done ≡ true → (errs : List Text) × (w.close_err ≡ w.pending_err ++ errs)

flush-IsReported : (b : Batch) (w : Writer) → IsReported w → w.done ≡ false → IsReported (flush b w)
unfolding flush
flush-IsReported b w v running = pick (is_nil w.batch) (flush_events b w.batch)
  where
    after : FlushResult → Writer
    after (failed err) = record w {
      batch = [];
      pending_err = w.pending_err ++ err ∷ [];
      flush_errors = w.flush_errors + 1;
      flushes = w.flushes ++ (w.batch, failed err) ∷ [];
    }
    after r = record w { batch = []; flushes = w.flushes ++ (w.batch, r) ∷ [] }

    pick : (n : Bool) (r : FlushResult) → IsReported (if n then w else after r)
    pick true r = v
    pick false (failed e) = record {
      exact =
          errors_of-append w.flushes w.batch (failed e)
          ∙ ap (λ es. es ++ e ∷ []) v.exact
          ∙ append_assoc (replied w.replies) w.pending_err (e ∷ []);
      counted = omega (
        arith,
        v.counted,
        ap length (errors_of-append w.flushes w.batch (failed e)),
        length-append (errors_of w.flushes) (e ∷ []),
      );
      at_close = λ d. absurd (false≢true (sym running ∙ d));
    }
    pick false (sent rows) = record {
      exact = errors_of-append w.flushes w.batch (sent rows) ∙ append-nil _ ∙ v.exact;
      counted = omega (
        arith,
        v.counted,
        ap length (errors_of-append w.flushes w.batch (sent rows)),
        length-append (errors_of w.flushes) [],
      );
      at_close = λ d. absurd (false≢true (sym running ∙ d));
    }
    pick false panicked = record {
      exact = errors_of-append w.flushes w.batch panicked ∙ append-nil _ ∙ v.exact;
      counted = omega (
        arith,
        v.counted,
        ap length (errors_of-append w.flushes w.batch panicked),
        length-append (errors_of w.flushes) [],
      );
      at_close = λ d. absurd (false≢true (sym running ∙ d));
    }

flush-done : (b : Batch) (w : Writer) → (flush b w).done ≡ w.done
unfolding flush
flush-done b w = ground arith

handle-IsReported :
    (b : Batch) (c : Command) (w : Writer)
    → IsReported w
    → w.done ≡ false
    → IsReported (handle b c w)
unfolding handle
handle-IsReported b (event e) w v running = pick (leb w.batch_size (length (w.batch ++ e ∷ [])))
  where
    w' : Writer
    w' = record w { batch = w.batch ++ e ∷ [] }

    v' : IsReported w'
    v' = record { exact = v.exact; counted = v.counted; at_close = v.at_close }

    pick : (full : Bool) → IsReported (if full then flush b w' else w')
    pick true = flush-IsReported b w' v' running
    pick false = v'
handle-IsReported b (barrier id) w v running =
    let f = flush-IsReported b w v running in
    record {
      exact =
          f.exact
          ∙ sym (append-nil _ ∙ replied-append (flush b w).replies id (flush b w).pending_err);
      counted = f.counted;
      at_close = λ d. absurd (false≢true (sym running ∙ sym (flush-done b w) ∙ d));
    }

receive-IsReported :
    (b : Batch) (errs : List Text) (w : Writer) → IsReported w → IsReported (receive b errs w)
unfolding receive
receive-IsReported b errs w v = pick w.done w.commands refl
  where
    idle :
        (closed : Bool)
        → w.done ≡ false
        → IsReported (
            if closed
            then (let w' = flush b w in
                record w' { close_err = w'.pending_err ++ errs; done = true })
            else w)
    idle true running =
        let f = flush-IsReported b w v running in
        record { exact = f.exact; counted = f.counted; at_close = λ d. (errs, refl) }
    idle false running = v

    pick :
        (d : Bool) (cs : List Command)
        → w.done ≡ d
        → IsReported (
            if d then w else elim cs [
              | c ∷ rest ↦ handle b c (record w { commands = rest })
              | [] ↦
                  if w.channel_closed
                  then (let w' = flush b w in
                      record w' { close_err = w'.pending_err ++ errs; done = true })
                  else w
            ])
    pick true cs r = v
    pick false [] r = idle w.channel_closed r
    pick false (c ∷ rest) r =
        handle-IsReported b c (record w { commands = rest })
          (record { exact = v.exact; counted = v.counted; at_close = v.at_close }) r

step-IsReported : (a : Action) (w : Writer) → IsReported w → IsReported (step a w)
unfolding step
step-IsReported (enqueues e) w v = unfold enqueue in ground arith
step-IsReported (starts_flush id) w v = unfold start_flush in ground arith
step-IsReported (resumes_flush id) w v = unfold resume_flush in ground arith
step-IsReported (abandons_flush id) w v = unfold abandon_flush in assumption v
step-IsReported closes w v = unfold close in assumption v
step-IsReported initiates_close w v = unfold initiate_close in ground arith
step-IsReported (receives b errs) w v = receive-IsReported b errs w v
step-IsReported (ticks b) w v = unfold tick in (pick w.done refl)
  where
    pick : (d : Bool) → w.done ≡ d → IsReported (if d then w else flush b w)
    pick true e = v
    pick false e = flush-IsReported b w v e

steps-IsReported :
    (history : List Action) (w : Writer) → IsReported w → IsReported (steps history w)
unfolding steps
steps-IsReported [] w v = v
steps-IsReported (a ∷ history) w v = steps-IsReported history (step a w) (step-IsReported a w v)

-- Over any history of a new writer, the errors of the failed flushes are, in order and each once,
-- those in the answers of the barriers and then those still pending; `FlushErrors` counts them;
-- and once the loop has returned, `Close` reports those still pending.
pub new_writer-IsReported :
    (batch_size queue_capacity : ℤ) (history : List Action)
    → IsReported (steps history (new_writer batch_size queue_capacity))
new_writer-IsReported batch_size queue_capacity history =
    steps-IsReported history _
      (unfold new_writer in record { exact = refl; counted = refl; at_close = λ d. cc })
