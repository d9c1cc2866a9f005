-- ===== src/Ch/Writer/Barrier.antt =====
-- What the answer to a barrier says: every event accepted before `Flush` was called has been in a
-- flush.
use mathlib.Core.Bool.{false≢true}
use proxy_sampler.Prelude.{
  ℕ, ◌+◌, ◌≡◌, refl, sym, ap, ◌∙◌, subst, ◌⊎◌, Bool, true, false, ◌||◌, ◌&&◌, add, remove, List, [],
  ◌∷◌, ◌++◌, append_assoc, append-nil, Text, arith, length, leb, is_nil, inl, inr, if◌then◌else◌,
  contains, nat_eq, keys, ◌=?◌,
}
use proxy_sampler.Ch.Event.{Event}
use proxy_sampler.Ch.Writer.{
  Command, event, barrier, Writer, Batch, enqueue, start_flush, queued, resume_flush, abandon_flush,
  close, initiate_close, receive, tick, handle, flush,
}
use proxy_sampler.Ch.Writer.Steps.{
  Action, enqueues, starts_flush, resumes_flush, abandons_flush, closes, initiates_close, receives,
  ticks, step, steps, flushed, events_in, contents,
}
use proxy_sampler.Ch.Writer.Order.{flush-batch, flush-commands, flush-flushed}

abbrev pub barriers_in : List Command → List ℕ
barriers_in [] = []
barriers_in (event e ∷ cs) = barriers_in cs
barriers_in (barrier id ∷ cs) = id ∷ barriers_in cs

-- The barrier `id` waits in the queue, and what lies before it in the writer is `base`; or all of
-- `base` has been flushed.
abbrev Ahead : ℕ → List Event → Writer → Type 0
Ahead id base w =
    ((before : List Command) × (after : List Command) × (w.commands ≡ before ++ barrier id ∷ after)
      × (flushed w.flushes ++ (w.batch ++ events_in before) ≡ base)
      × (contains (barriers_in before) id ≡ false)
      × (contains (keys w.replies) id ≡ false))
    ⊎ ((rest : List Event) × (flushed w.flushes ≡ base ++ rest))

push-Ahead :
    (id : ℕ) (base : List Event) (w : Writer) (cs : List Command)
    → Ahead id base w
    → Ahead id base (record w { commands = w.commands ++ cs })
push-Ahead id base w cs (inr done) = inr done
push-Ahead id base w cs (inl (before, after, e, f, g, h)) = inl (
  before,
  after ++ cs,
  ap (λ x. x ++ cs) e ∙ append_assoc before (barrier id ∷ after) cs,
  f,
  g,
  h,
)

flush-replies : (b : Batch) (w : Writer) → (flush b w).replies ≡ w.replies
unfolding flush
flush-replies b w = ground arith

flush-Ahead :
    (id : ℕ) (base : List Event) (b : Batch) (w : Writer)
    → Ahead id base w
    → Ahead id base (flush b w)
flush-Ahead id base b w (inr (rest, e)) =
    inr (
      rest ++ w.batch,
      flush-flushed b w ∙ ap (λ x. x ++ w.batch) e ∙ append_assoc base rest w.batch,
    )
flush-Ahead id base b w (inl (before, after, e, f, g, h)) = inl (
  before,
  after,
  flush-commands b w ∙ e,
  rw (flush-batch b w, flush-flushed b w)
      (append_assoc (flushed w.flushes) w.batch (events_in before) ∙ f),
  g,
  rw (flush-replies b w) h,
)

contains-keys-append :
    (rs : List (ℕ × List Text)) (j : ℕ) (errs : List Text) (id : ℕ)
    → contains (keys (rs ++ (j, errs) ∷ [])) id ≡ (contains (keys rs) id || (j =? id))
contains-keys-append [] j errs id = ground arith
contains-keys-append (r ∷ rs) j errs id = ground (arith, contains-keys-append rs j errs id)

handle-Ahead :
    (id : ℕ) (base : List Event) (b : Batch) (c : Command) (cs : List Command) (w : Writer)
    → w.commands ≡ c ∷ cs
    → Ahead id base w
    → Ahead id base (handle b c (record w { commands = cs }))
unfolding handle
handle-Ahead id base b (event e) cs w q v = pick (leb w.batch_size (length (w.batch ++ e ∷ [])))
  where
    w' : Writer
    w' = record w { commands = cs; batch = w.batch ++ e ∷ [] }

    moved : Ahead id base w → Ahead id base w'
    moved (inr done) = inr done
    moved (inl ([], after, p, f, g, h)) = absurd (cc)
    moved (inl (barrier j ∷ before, after, p, f, g, h)) = absurd (cc)
    moved (inl (event d ∷ before, after, p, f, g, h)) =
        let same : d ≡ e = cc in
        inl (
          before,
          after,
          cc,
          ap (◌++◌ (flushed w.flushes)) (append_assoc w.batch (e ∷ []) (events_in before))
              ∙ ap (λ x. flushed w.flushes ++ (w.batch ++ x ∷ events_in before)) (sym same)
              ∙ f,
          g,
          h,
        )

    pick : (full : Bool) → Ahead id base (if full then flush b w' else w')
    pick true = flush-Ahead id base b w' (moved v)
    pick false = moved v
handle-Ahead id base b (barrier j) cs w q v = moved v
  where
    w' : Writer
    w' = flush b (record w { commands = cs })

    moved :
        Ahead id base w
        → Ahead id base
            (record w' { replies = w'.replies ++ (j, w'.pending_err) ∷ []; pending_err = [] })
    moved (inr (rest, e)) = inr (
      rest ++ w.batch,
      flush-flushed b (record w { commands = cs })
          ∙ ap (λ x. x ++ w.batch) e
          ∙ append_assoc base rest w.batch,
    )
    moved (inl ([], after, p, f, g, h)) = inr (
      [],
      flush-flushed b (record w { commands = cs })
          ∙ ap (◌++◌ (flushed w.flushes)) (sym (append-nil w.batch))
          ∙ f
          ∙ sym (append-nil base),
    )
    moved (inl (event d ∷ before, after, p, f, g, h)) = absurd (cc)
    moved (inl (barrier i ∷ before, after, p, f, g, h)) =
        let same : i ≡ j = cc in
        inl (
          before,
          after,
          flush-commands b (record w { commands = cs }) ∙ cc,
          rw
              (
                flush-batch b (record w { commands = cs }),
                flush-flushed b (record w { commands = cs }),
              )
              (append_assoc (flushed w.flushes) w.batch (events_in before) ∙ f),
          ground arith,
          ground (
            arith,
            contains-keys-append w'.replies j w'.pending_err id,
            flush-replies b (record w { commands = cs }),
          ),
        )

receive-Ahead :
    (id : ℕ) (base : List Event) (b : Batch) (errs : List Text) (w : Writer)
    → Ahead id base w
    → Ahead id base (receive b errs w)
unfolding receive
receive-Ahead id base b errs w v = pick w.done w.commands refl
  where
    returned :
        Ahead id base (flush b w)
        → Ahead id base
            (let w' = flush b w in record w' { close_err = w'.pending_err ++ errs; done = true })
    returned (inl h) = inl h
    returned (inr h) = inr h

    idle :
        (closed : Bool)
        → Ahead id base (
            if closed
            then (let w' = flush b w in
                record w' { close_err = w'.pending_err ++ errs; done = true })
            else w)
    idle true = returned (flush-Ahead id base b w v)
    idle false = v

    pick :
        (d : Bool) (cs : List Command)
        → w.commands ≡ cs
        → Ahead id base (
            if d then w else elim cs [
              | c ∷ rest ↦ handle b c (record w { commands = rest })
              | [] ↦
                  if w.channel_closed
                  then (let w' = flush b w in
                      record w' { close_err = w'.pending_err ++ errs; done = true })
                  else w
            ])
    pick true cs e = v
    pick false [] e = idle w.channel_closed
    pick false (c ∷ rest) e = handle-Ahead id base b c rest w e v

enqueue-cases :
    (e : Event) (w : Writer) (P : Writer → Type 0)
    → P w
    → P (record w { commands = w.commands ++ event e ∷ [] })
    → P (record w { dropped = w.dropped + 1 })
    → P (enqueue e w).0
unfolding enqueue
enqueue-cases e w P same pushed dropped = ground arith

start_flush-cases :
    (id : ℕ) (w : Writer) (P : Writer → Type 0)
    → P w
    → P (record w { commands = w.commands ++ barrier id ∷ [] })
    → P (record w { waiting = add w.waiting id })
    → P (start_flush id w).0
unfolding start_flush
start_flush-cases id w P same pushed waits = ground arith

resume_flush-cases :
    (id : ℕ) (w : Writer) (P : Writer → Type 0)
    → P w
    → P (record w { commands = w.commands ++ barrier id ∷ []; waiting = remove w.waiting id })
    → P (resume_flush id w)
unfolding resume_flush
resume_flush-cases id w P same pushed = ground arith

-- The predicate reads four fields of the writer.
same-Ahead :
    (id : ℕ) (base : List Event) (w w' : Writer)
    → w.commands ≡ w'.commands
    → w.batch ≡ w'.batch
    → w.flushes ≡ w'.flushes
    → w.replies ≡ w'.replies
    → Ahead id base w
    → Ahead id base w'
same-Ahead id base w w' c b f r (inl (before, after, e, g, h, k)) = inl (
  before,
  after,
  sym c ∙ e,
  subst (λ x. flushed x ++ (w'.batch ++ events_in before) ≡ base) f
      (subst (λ x. flushed w.flushes ++ (x ++ events_in before) ≡ base) b g),
  h,
  subst (λ x. contains (keys x) id ≡ false) r k,
)
same-Ahead id base w w' c b f r (inr (rest, e)) =
    inr (rest, subst (λ x. flushed x ≡ base ++ rest) f e)

step-Ahead :
    (id : ℕ) (base : List Event) (a : Action) (w : Writer)
    → Ahead id base w
    → Ahead id base (step a w)
unfolding step
step-Ahead id base (enqueues e) w v =
    enqueue-cases e w (Ahead id base) v (push-Ahead id base w (event e ∷ []) v)
      (same-Ahead id base w (record w { dropped = w.dropped + 1 }) refl refl refl refl v)
step-Ahead id base (starts_flush j) w v =
    start_flush-cases j w (Ahead id base) v (push-Ahead id base w (barrier j ∷ []) v)
      (same-Ahead id base w (record w { waiting = add w.waiting j }) refl refl refl refl v)
step-Ahead id base (resumes_flush j) w v = resume_flush-cases j w (Ahead id base) v (
    same-Ahead id base (record w { commands = w.commands ++ barrier j ∷ [] })
      (record w { commands = w.commands ++ barrier j ∷ []; waiting = remove w.waiting j }) refl refl
      refl refl (push-Ahead id base w (barrier j ∷ []) v))
step-Ahead id base (abandons_flush j) w v =
    unfold abandon_flush in
    same-Ahead id base w (record w { waiting = remove w.waiting j }) refl refl refl refl v
step-Ahead id base closes w v =
    unfold close in same-Ahead id base w (record w { closing = true }) refl refl refl refl v
step-Ahead id base initiates_close w v =
    unfold initiate_close in (pick (w.closing && is_nil w.waiting))
  where
    pick :
        (b : Bool)
        → Ahead id base (if b then record w { accepting = false; channel_closed = true } else w)
    pick true =
        same-Ahead id base w (record w { accepting = false; channel_closed = true }) refl refl refl
          refl v
    pick false = v
step-Ahead id base (receives b errs) w v = receive-Ahead id base b errs w v
step-Ahead id base (ticks b) w v = unfold tick in (pick w.done)
  where
    pick : (d : Bool) → Ahead id base (if d then w else flush b w)
    pick true = v
    pick false = flush-Ahead id base b w v

steps-Ahead :
    (id : ℕ) (base : List Event) (history : List Action) (w : Writer)
    → Ahead id base w
    → Ahead id base (steps history w)
unfolding steps
steps-Ahead id base [] w v = v
steps-Ahead id base (a ∷ history) w v =
    steps-Ahead id base history (step a w) (step-Ahead id base a w v)

start_flush-queued :
    (id : ℕ) (w : Writer)
    → (start_flush id w).1 ≡ queued
    → (start_flush id w).0 ≡ record w { commands = w.commands ++ barrier id ∷ [] }
unfolding start_flush
start_flush-queued id w h = ground arith

-- For any writer and any history after a call of `Flush` whose barrier `id` was queued: if that
-- name is not yet in the queue nor among the answers before the call, then as soon as it has been
-- answered, every event the writer held at the call has been through a flush, in order and before
-- any later event.
pub steps-flushed :
    (id : ℕ) (w : Writer) (history : List Action)
    → (start_flush id w).1 ≡ queued
    → contains (barriers_in w.commands) id ≡ false
    → contains (keys w.replies) id ≡ false
    → contains (keys (steps history (start_flush id w).0).replies) id ≡ true
    → (rest : List Event) × (flushed (steps history (start_flush id w).0).flushes
        ≡ contents w ++ rest)
steps-flushed id w history q fresh unanswered answered =
    elim (steps-Ahead id (contents w) history (start_flush id w).0 (
      subst (Ahead id (contents w)) (sym (start_flush-queued id w q))
        (inl (w.commands, [], refl, refl, fresh, unanswered)))) [
          | inl v ↦ absurd (false≢true (sym v.5 ∙ answered))
          | inr v ↦ v
        ]
