-- ===== src/Ch/Writer/Invariant.antt =====
-- What holds of the writer at every moment.
use mathlib.Core.Bool.{false≢true}
use proxy_sampler.Prelude.{
  ℕ, zero, suc, ◌≤◌, ◌<◌, ◌≡◌, ◌≢◌, refl, sym, ◌∙◌, subst, Bool, true, false, ◌==◌, List, [], ◌∷◌,
  ◌++◌, append-nil, some, Text, arith, length, leb, length-append, All, All-append, is_nil,
  Bool-cases, inl, inr, if◌then◌else◌, ℤ, pos, negsuc,
}
use proxy_sampler.Ch.Event.{
  Event, NetIp, valid_event, probe_ips_row, append_args, normalized_ip, ipv6_zero,
}
use proxy_sampler.Ch.Writer.{
  Command, event, barrier, panicked, Writer, Batch, new_writer, or_default, enqueue, start_flush,
  resume_flush, abandon_flush, close, initiate_close, receive, tick, handle, flush, flush_events,
  append_all,
}
use proxy_sampler.Ch.Writer.Steps.{
  Action, enqueues, starts_flush, resumes_flush, abandons_flush, closes, initiates_close, receives,
  ticks, step, steps, events_in,
}
use proxy_sampler.Ch.Writer.Order.{flush-batch, flush-commands, flush-flushes, events_in-append}

abbrev pub Valid : List Event → Type 0
Valid = All (λ e. valid_event e ≡ true)

-- A valid event has as many flags as addresses, so its row can be made.
probe_ips_row-some :
    (ips : List NetIp) (oks : List ℕ)
    → length ips ≡ length oks
    → (row : List NetIp) × (probe_ips_row ips oks ≡ some row)
unfolding probe_ips_row
probe_ips_row-some [] oks h = ([], refl)
probe_ips_row-some (ip ∷ ips) [] h = absurd (omega arith)
probe_ips_row-some (ip ∷ ips) (ok ∷ oks) h =
    let (row, e) = probe_ips_row-some ips oks (omega arith) in
    ((if ok == 0 then ipv6_zero else normalized_ip ip) ∷ row, rw e)

append_args-some : (e : Event) → valid_event e ≡ true → (row : Event) × (append_args e ≡ some row)
unfolding append_args valid_event
append_args-some e h =
    let (row, eq) = probe_ips_row-some e.probe_ips e.probe_ok (ground arith) in
    (record e { primary_ip = normalized_ip e.primary_ip; probe_ips = row }, rw (eq, append_args))

append_all-ne-panicked :
    (b : Batch) (es rows : List Event) → Valid es → append_all b es rows ≢ panicked
unfolding append_all
append_all-ne-panicked b [] rows v = ground arith
append_all-ne-panicked b (e ∷ es) rows v =
    let (row, eq) = append_args-some e v.0 in
    ground (arith, append_all-ne-panicked b es (rows ++ row ∷ []) v.1)

flush_events-ne-panicked : (b : Batch) (es : List Event) → Valid es → flush_events b es ≢ panicked
unfolding flush_events
flush_events-ne-panicked b es v = ground (arith, append_all-ne-panicked b es [] v)

pub record IsWriter (w : Writer) : Type 0 where
  pub capacity : length w.commands ≤ w.queue_capacity
  pub queued : Valid (events_in w.commands)
  pub batched : Valid w.batch
  pub small : length w.batch < w.batch_size
  pub sane : All (λ f. f.1 ≢ panicked) w.flushes
  pub locked :
      w.channel_closed ≡ true → (w.accepting ≡ false) × (w.closing ≡ true) × (w.waiting ≡ [])
  pub finished : w.done ≡ true → (w.channel_closed ≡ true) × (w.commands ≡ []) × (w.batch ≡ [])

new_writer-IsWriter :
    (batch_size queue_capacity : ℤ) → IsWriter (new_writer batch_size queue_capacity)
unfolding new_writer or_default
new_writer-IsWriter batch_size queue_capacity = record {
  capacity = omega arith;
  queued = tt;
  batched = tt;
  small = positive batch_size;
  sane = tt;
  locked = λ h. cc;
  finished = λ h. cc;
}
  where
    positive : (n : ℤ) → 0 < or_default n 100
    positive (pos zero) = omega arith
    positive (pos (suc n)) = omega arith
    positive (negsuc n) = omega arith

Valid-events_in :
    (cs : List Command) (e : Event)
    → Valid (events_in cs)
    → valid_event e ≡ true
    → Valid (events_in (cs ++ event e ∷ []))
Valid-events_in cs e v h =
    rw (events_in-append cs (event e ∷ [])) (All-append _ (events_in cs) (e ∷ []) v (h, tt))

Valid-events_in_barrier :
    (cs : List Command) (id : ℕ) → Valid (events_in cs) → Valid (events_in (cs ++ barrier id ∷ []))
Valid-events_in_barrier cs id v =
    rw (events_in-append cs (barrier id ∷ []), append-nil (events_in cs)) v

enqueue-IsWriter : (e : Event) (w : Writer) → IsWriter w → IsWriter (enqueue e w).0
unfolding enqueue
enqueue-IsWriter e w v =
    ground (arith, length-append w.commands (event e ∷ []), Valid-events_in w.commands e v.queued)

start_flush-IsWriter : (id : ℕ) (w : Writer) → IsWriter w → IsWriter (start_flush id w).0
unfolding start_flush
start_flush-IsWriter id w v = ground (
  arith,
  length-append w.commands (barrier id ∷ []),
  Valid-events_in_barrier w.commands id v.queued,
)

resume_flush-IsWriter : (id : ℕ) (w : Writer) → IsWriter w → IsWriter (resume_flush id w)
unfolding resume_flush
resume_flush-IsWriter id w v = ground (
  arith,
  length-append w.commands (barrier id ∷ []),
  Valid-events_in_barrier w.commands id v.queued,
)

abandon_flush-IsWriter : (id : ℕ) (w : Writer) → IsWriter w → IsWriter (abandon_flush id w)
unfolding abandon_flush
abandon_flush-IsWriter id w v = ground arith

close-IsWriter : (w : Writer) → IsWriter w → IsWriter (close w)
unfolding close
close-IsWriter w v = ground arith

initiate_close-IsWriter : (w : Writer) → IsWriter w → IsWriter (initiate_close w)
unfolding initiate_close
initiate_close-IsWriter w v = ground arith

-- What a flush leaves alone.
flush-keeps :
    (b : Batch) (w : Writer)
    → ((flush b w).batch_size ≡ w.batch_size)
      × ((flush b w).queue_capacity ≡ w.queue_capacity)
      × ((flush b w).accepting ≡ w.accepting)
      × ((flush b w).closing ≡ w.closing)
      × ((flush b w).waiting ≡ w.waiting)
      × ((flush b w).channel_closed ≡ w.channel_closed)
      × ((flush b w).done ≡ w.done)
unfolding flush
flush-keeps b w = ground arith

flush-sane :
    (b : Batch) (w : Writer)
    → Valid w.batch
    → All (λ f. f.1 ≢ panicked) w.flushes
    → All (λ f. f.1 ≢ panicked) (flush b w).flushes
flush-sane b w v h = elim (Bool-cases (is_nil w.batch)) [
  | inl e ↦ rw (flush-flushes b w, e) h
  | inr e ↦
      rw (flush-flushes b w, e)
        (All-append _ w.flushes _ h (flush_events-ne-panicked b w.batch v, tt))
]

flush-IsWriter :
    (b : Batch) (w : Writer)
    → length w.commands ≤ w.queue_capacity
    → Valid (events_in w.commands)
    → Valid w.batch
    → 0 < w.batch_size
    → All (λ f. f.1 ≢ panicked) w.flushes
    → (w.channel_closed ≡ true → (w.accepting ≡ false) × (w.closing ≡ true) × (w.waiting ≡ []))
    → w.done ≡ false
    → IsWriter (flush b w)
flush-IsWriter b w capacity queued batched positive sane locked running =
    let k = flush-keeps b w in
    let c = flush-commands b w in
    let e = flush-batch b w in
    record {
      capacity = rw (c, k.1) capacity;
      queued = rw c queued;
      batched = rw e tt;
      small = rw (e, k.0) positive;
      sane = flush-sane b w batched sane;
      locked = λ h. rw (k.2, k.3, k.4) (locked (rw k.5 at h));
      finished = λ h. absurd (false≢true (sym running ∙ (rw k.6 at h)));
    }

handle-IsWriter :
    (b : Batch) (c : Command) (rest : List Command) (w : Writer)
    → IsWriter w
    → w.commands ≡ c ∷ rest
    → w.done ≡ false
    → IsWriter (handle b c (record w { commands = rest }))
unfolding handle
handle-IsWriter b (event e) rest w v h running =
    let q : Valid (e ∷ events_in rest) = subst (λ cs. Valid (events_in cs)) h v.queued in
    let room : suc (length rest) ≤ w.queue_capacity =
      subst (λ cs. length cs ≤ w.queue_capacity) h v.capacity in
    let more = All-append _ w.batch (e ∷ []) v.batched (q.0, tt) in
    elim (Bool-cases (leb w.batch_size (length (w.batch ++ e ∷ [])))) [
      | inl full ↦ rw full (
          flush-IsWriter b (record w { commands = rest; batch = w.batch ++ e ∷ [] }) (omega arith)
            q.1 more (omega (arith, v.small)) v.sane v.locked running)
      | inr fits ↦ rw fits (record {
        capacity = omega arith;
        queued = q.1;
        batched = more;
        small = ground arith;
        sane = v.sane;
        locked = v.locked;
        finished = λ d. absurd (false≢true (sym running ∙ d));
      })
    ]
handle-IsWriter b (barrier id) rest w v h running =
    let q : Valid (events_in rest) = subst (λ cs. Valid (events_in cs)) h v.queued in
    let room : suc (length rest) ≤ w.queue_capacity =
      subst (λ cs. length cs ≤ w.queue_capacity) h v.capacity in
    let f =
      flush-IsWriter b (record w { commands = rest }) (omega arith) q v.batched
        (omega (arith, v.small)) v.sane v.locked running in
    record {
      capacity = f.capacity;
      queued = f.queued;
      batched = f.batched;
      small = f.small;
      sane = f.sane;
      locked = f.locked;
      finished = f.finished;
    }

flush_now-IsWriter : (b : Batch) (w : Writer) → IsWriter w → w.done ≡ false → IsWriter (flush b w)
flush_now-IsWriter b w v running =
    flush-IsWriter b w v.capacity v.queued v.batched (omega (arith, v.small)) v.sane v.locked
      running

-- The last round, in which the closed queue is empty.
last_round : Batch → List Text → Writer → Writer
last_round b errs w =
    let w' = flush b w in record w' { close_err = w'.pending_err ++ errs; done = true }

last_round-IsWriter :
    (b : Batch) (errs : List Text) (w : Writer)
    → IsWriter w
    → w.done ≡ false
    → w.channel_closed ≡ true
    → w.commands ≡ []
    → IsWriter (last_round b errs w)
unfolding last_round
last_round-IsWriter b errs w v running closed empty =
    let f = flush_now-IsWriter b w v running in
    record {
      capacity = f.capacity;
      queued = f.queued;
      batched = f.batched;
      small = f.small;
      sane = f.sane;
      locked = f.locked;
      finished = λ d. ((flush-keeps b w).5 ∙ closed, flush-commands b w ∙ empty, flush-batch b w);
    }

receive-IsWriter :
    (b : Batch) (errs : List Text) (w : Writer) → IsWriter w → IsWriter (receive b errs w)
unfolding receive last_round
receive-IsWriter b errs w v = pick w.done w.commands refl refl
  where
    idle :
        (closed : Bool)
        → w.done ≡ false
        → w.commands ≡ []
        → w.channel_closed ≡ closed
        → IsWriter (if closed then last_round b errs w else w)
    idle true running empty e = last_round-IsWriter b errs w v running e empty
    idle false running empty e = v

    pick :
        (d : Bool) (cs : List Command)
        → w.done ≡ d
        → w.commands ≡ cs
        → IsWriter (
            if d then w else elim cs [
              | c ∷ rest ↦ handle b c (record w { commands = rest })
              | [] ↦ if w.channel_closed then last_round b errs w else w
            ])
    pick true cs r e = v
    pick false [] r e = idle w.channel_closed r e refl
    pick false (c ∷ rest) r e = handle-IsWriter b c rest w v e r

tick-IsWriter : (b : Batch) (w : Writer) → IsWriter w → IsWriter (tick b w)
unfolding tick
tick-IsWriter b w v = pick w.done refl
  where
    pick : (d : Bool) → w.done ≡ d → IsWriter (if d then w else flush b w)
    pick true e = v
    pick false e = flush_now-IsWriter b w v e

step-IsWriter : (a : Action) (w : Writer) → IsWriter w → IsWriter (step a w)
unfolding step
step-IsWriter (enqueues e) w v = enqueue-IsWriter e w v
step-IsWriter (starts_flush id) w v = start_flush-IsWriter id w v
step-IsWriter (resumes_flush id) w v = resume_flush-IsWriter id w v
step-IsWriter (abandons_flush id) w v = abandon_flush-IsWriter id w v
step-IsWriter closes w v = close-IsWriter w v
step-IsWriter initiates_close w v = initiate_close-IsWriter w v
step-IsWriter (receives b errs) w v = receive-IsWriter b errs w v
step-IsWriter (ticks b) w v = tick-IsWriter b w v

pub steps-IsWriter : (history : List Action) (w : Writer) → IsWriter w → IsWriter (steps history w)
unfolding steps
steps-IsWriter [] w v = v
steps-IsWriter (a ∷ history) w v = steps-IsWriter history (step a w) (step-IsWriter a w v)

-- Whatever the sizes asked for and the order of calls, rounds and answers of ClickHouse, the queue
-- never holds more than its capacity and the batch is always below the batch size; the queue and
-- the batch hold only events whose arrays have their announced length, so no flush panics; a
-- closed queue is closed to every caller; and a loop that has returned left nothing behind.
pub new_writer-steps-IsWriter :
    (batch_size queue_capacity : ℤ) (history : List Action)
    → IsWriter (steps history (new_writer batch_size queue_capacity))
new_writer-steps-IsWriter batch_size queue_capacity history =
    steps-IsWriter history _ (new_writer-IsWriter batch_size queue_capacity)
