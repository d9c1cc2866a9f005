-- ===== src/Ch/Writer/Order.antt =====
-- No event that the writer accepts is lost, doubled or overtaken on its way to a flush.
use proxy_sampler.Prelude.{
  ◌≡◌, refl, sym, ap, ◌∙◌, Bool, true, false, List, [], ◌∷◌, ◌++◌, append_assoc, append-nil, Text,
  arith, length, leb, is_nil, Bool-cases, inl, inr, if◌then◌else◌,
}
use proxy_sampler.Ch.Event.{Event}
use proxy_sampler.Ch.Writer.{
  Command, event, barrier, FlushResult, Writer, Batch, enqueue, start_flush, resume_flush,
  abandon_flush, close, initiate_close, receive, tick, handle, flush, flush_events,
}
use proxy_sampler.Ch.Writer.Steps.{
  Action, enqueues, starts_flush, resumes_flush, abandons_flush, closes, initiates_close, receives,
  ticks, step, steps, accepted_by, accepted, flushed, events_in, contents,
}

pub flushed-append :
    (fs gs : List (List Event × FlushResult)) → flushed (fs ++ gs) ≡ flushed fs ++ flushed gs
flushed-append [] gs = refl
flushed-append ((es, r) ∷ fs) gs = rw (flushed-append fs gs) (sym (append_assoc es _ _))

pub events_in-append : (cs ds : List Command) → events_in (cs ++ ds) ≡ events_in cs ++ events_in ds
events_in-append [] ds = refl
events_in-append (event e ∷ cs) ds = ap (◌∷◌ e) (events_in-append cs ds)
events_in-append (barrier id ∷ cs) ds = events_in-append cs ds

-- A flush moves the batch behind the flushed events, and touches no command.
pub flush-batch : (b : Batch) (w : Writer) → (flush b w).batch ≡ []
unfolding flush
flush-batch b w = ground arith

pub flush-commands : (b : Batch) (w : Writer) → (flush b w).commands ≡ w.commands
unfolding flush
flush-commands b w = ground arith

pub flush-flushes :
    (b : Batch) (w : Writer)
    → (flush b w).flushes
      ≡ (if is_nil w.batch then w.flushes else w.flushes ++ (w.batch, flush_events b w.batch) ∷ [])
unfolding flush
flush-flushes b w = ground arith

flushed-one :
    (fs : List (List Event × FlushResult)) (es : List Event) (r : FlushResult)
    → flushed (fs ++ (es, r) ∷ []) ≡ flushed fs ++ es
flushed-one fs es r = flushed-append fs ((es, r) ∷ []) ∙ ap (◌++◌ (flushed fs)) (append-nil es)

nil_of_is_nil : (es : List Event) → is_nil es ≡ true → es ≡ []
nil_of_is_nil [] h = refl
nil_of_is_nil (e ∷ es) h = cc

pub flush-flushed :
    (b : Batch) (w : Writer) → flushed (flush b w).flushes ≡ flushed w.flushes ++ w.batch
flush-flushed b w = elim (Bool-cases (is_nil w.batch)) [
  | inl e ↦
      rw (flush-flushes b w, e)
        (sym (ap (◌++◌ (flushed w.flushes)) (nil_of_is_nil w.batch e) ∙ append-nil _))
  | inr e ↦ rw (flush-flushes b w, e) (flushed-one w.flushes w.batch (flush_events b w.batch))
]

-- Flushing keeps the contents.
flush-contents : (b : Batch) (w : Writer) → contents (flush b w) ≡ contents w
flush-contents b w =
    rw (flush-batch b w, flush-commands b w, flush-flushed b w)
      (append_assoc (flushed w.flushes) w.batch (events_in w.commands))

handle-contents :
    (b : Batch) (c : Command) (rest : List Command) (w : Writer)
    → w.commands ≡ c ∷ rest
    → contents (handle b c (record w { commands = rest })) ≡ contents w
unfolding handle
handle-contents b (event e) rest w h = pick (leb w.batch_size (length (w.batch ++ e ∷ [])))
  where
    w' : Writer
    w' = record w { commands = rest; batch = w.batch ++ e ∷ [] }

    moved : contents w' ≡ contents w
    moved = rw (h, append_assoc w.batch (e ∷ []) (events_in rest)) refl

    pick : (full : Bool) → contents (if full then flush b w' else w') ≡ contents w
    pick true = flush-contents b w' ∙ moved
    pick false = moved
handle-contents b (barrier id) rest w h =
    flush-contents b (record w { commands = rest }) ∙ (rw h refl)

receive-contents :
    (b : Batch) (errs : List Text) (w : Writer) → contents (receive b errs w) ≡ contents w
unfolding receive
receive-contents b errs w = pick w.done w.commands refl
  where
    idle :
        (closed : Bool)
        → contents (
            if closed
            then (let w' = flush b w in
                record w' { close_err = w'.pending_err ++ errs; done = true })
            else w)
          ≡ contents w
    idle true = flush-contents b w
    idle false = refl

    pick :
        (d : Bool) (cs : List Command)
        → w.commands ≡ cs
        → contents (
            if d then w else elim cs [
              | c ∷ rest ↦ handle b c (record w { commands = rest })
              | [] ↦
                  if w.channel_closed
                  then (let w' = flush b w in
                      record w' { close_err = w'.pending_err ++ errs; done = true })
                  else w
            ])
          ≡ contents w
    pick true cs e = refl
    pick false [] e = idle w.channel_closed
    pick false (c ∷ rest) e = handle-contents b c rest w e

tick-contents : (b : Batch) (w : Writer) → contents (tick b w) ≡ contents w
unfolding tick
tick-contents b w = pick w.done
  where
    pick : (d : Bool) → contents (if d then w else flush b w) ≡ contents w
    pick true = refl
    pick false = flush-contents b w

-- A command that joins the queue adds its event, if it has one, at the end.
push-contents :
    (w : Writer) (cs : List Command)
    → contents (record w { commands = w.commands ++ cs }) ≡ contents w ++ events_in cs
push-contents w cs = rw (events_in-append w.commands cs) (simp append_assoc)

step-contents : (a : Action) (w : Writer) → contents (step a w) ≡ contents w ++ accepted_by a w
unfolding step
step-contents (enqueues e) w =
    unfold enqueue in ground (arith, push-contents w (event e ∷ []), append-nil (contents w))
step-contents (starts_flush id) w =
    unfold start_flush in ground (arith, push-contents w (barrier id ∷ []), append-nil (contents w))
step-contents (resumes_flush id) w =
    unfold resume_flush in
    ground (arith, push-contents w (barrier id ∷ []), append-nil (contents w))
step-contents (abandons_flush id) w = unfold abandon_flush in sym (append-nil (contents w))
step-contents closes w = unfold close in sym (append-nil (contents w))
step-contents initiates_close w = unfold initiate_close in ground (arith, append-nil (contents w))
step-contents (receives b errs) w = receive-contents b errs w ∙ sym (append-nil (contents w))
step-contents (ticks b) w = tick-contents b w ∙ sym (append-nil (contents w))

-- Over any history the events that were flushed, that are in the batch and that are in the queue
-- are, in this order, those at the start and then those that `Enqueue` accepted, in the order in
-- which it accepted them: none is lost, doubled, made up or overtaken.
pub contents-steps :
    (history : List Action) (w : Writer)
    → contents (steps history w) ≡ contents w ++ accepted history w
unfolding steps accepted
contents-steps [] w = sym (append-nil (contents w))
contents-steps (a ∷ history) w =
    contents-steps history (step a w)
    ∙ ap (λ es. es ++ accepted history (step a w)) (step-contents a w)
    ∙ append_assoc (contents w) _ _
