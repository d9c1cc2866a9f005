-- ===== src/Ch/Writer/Drain.antt =====
-- The shutdown of the writer: how many rounds the loop takes to return once the queue is closed.
use proxy_sampler.Prelude.{
  suc, ◌≡◌, refl, sym, ap, ◌∙◌, true, false, List, [], ◌∷◌, ◌++◌, append-nil, arith, length, Text,
}
use proxy_sampler.Ch.Writer.{Command, event, barrier, Writer, Batch, receive, handle, flush}
use proxy_sampler.Ch.Writer.Steps.{
  Action, receives, step, steps, flushed, events_in, contents, accepted,
}
use proxy_sampler.Ch.Writer.Order.{flush-batch, flush-commands, contents-steps}

-- Rounds of the loop with nobody else acting, each with what the driver and the closer answer.
abbrev pub receiving : List (Batch × List Text) → List Action
receiving [] = []
receiving ((b, errs) ∷ rounds) = receives b errs ∷ receiving rounds

flush-running :
    (b : Batch) (w : Writer)
    → ((flush b w).done ≡ w.done) × ((flush b w).channel_closed ≡ w.channel_closed)
unfolding flush
flush-running b w = ground arith

handle-running :
    (b : Batch) (c : Command) (w : Writer)
    → ((handle b c w).done ≡ w.done)
      × ((handle b c w).channel_closed ≡ w.channel_closed)
      × ((handle b c w).commands ≡ w.commands)
unfolding handle
handle-running b (event e) w = unfold flush in ground arith
handle-running b (barrier id) w = unfold flush in ground arith

receive-command :
    (b : Batch) (errs : List Text) (w : Writer) (c : Command) (cs : List Command)
    → w.done ≡ false
    → w.commands ≡ c ∷ cs
    → receive b errs w ≡ handle b c (record w { commands = cs })
unfolding receive
receive-command b errs w c cs d e = ground arith

receive-last :
    (b : Batch) (errs : List Text) (w : Writer)
    → w.done ≡ false
    → w.commands ≡ []
    → w.channel_closed ≡ true
    → ((receive b errs w).done ≡ true)
      × ((receive b errs w).commands ≡ [])
      × ((receive b errs w).batch ≡ [])
unfolding receive
receive-last b errs w d e c = ground (arith, flush-commands b w, flush-batch b w)

drain :
    (rounds : List (Batch × List Text)) (w : Writer)
    → w.done ≡ false
    → w.channel_closed ≡ true
    → length rounds ≡ suc (length w.commands)
    → (let w' = steps (receiving rounds) w in
        (w'.done ≡ true) × (w'.commands ≡ []) × (w'.batch ≡ []))
unfolding steps step
drain rounds w d c n = go rounds w.commands w d c refl n
  where
    go :
        (rounds : List (Batch × List Text)) (cs : List Command) (w : Writer)
        → w.done ≡ false
        → w.channel_closed ≡ true
        → w.commands ≡ cs
        → length rounds ≡ suc (length cs)
        → (let w' = steps (receiving rounds) w in
            (w'.done ≡ true) × (w'.commands ≡ []) × (w'.batch ≡ []))
    go [] cs w d c e n = absurd (omega arith)
    go ((b, errs) ∷ []) [] w d c e n = receive-last b errs w d e c
    go (r ∷ q ∷ rounds) [] w d c e n = absurd (omega arith)
    go ((b, errs) ∷ rounds) (x ∷ cs) w d c e n =
        let (hd, hc, hq) = handle-running b x (record w { commands = cs }) in
        go rounds cs (receive b errs w)
          (ap (λ v. v.done) (receive-command b errs w x cs d e) ∙ hd ∙ d)
          (ap (λ v. v.channel_closed) (receive-command b errs w x cs d e) ∙ hc ∙ c)
          (ap (λ v. v.commands) (receive-command b errs w x cs d e) ∙ hq) (omega arith)

accepted-receiving :
    (rounds : List (Batch × List Text)) (w : Writer) → accepted (receiving rounds) w ≡ []
unfolding accepted
accepted-receiving [] w = refl
accepted-receiving ((b, errs) ∷ rounds) w = accepted-receiving rounds (step (receives b errs) w)

-- Once the queue of a running writer is closed, as many rounds of its loop as there are commands,
-- and one more, make it return, whatever the driver answers in them; and then all that the writer
-- held has been through a flush, in order.
pub receiving-flushed :
    (rounds : List (Batch × List Text)) (w : Writer)
    → w.done ≡ false
    → w.channel_closed ≡ true
    → length rounds ≡ suc (length w.commands)
    → ((steps (receiving rounds) w).done ≡ true)
      × (flushed (steps (receiving rounds) w).flushes ≡ contents w)
receiving-flushed rounds w d c n =
    let (hd, hq, hb) = drain rounds w d c n in
    let w' = steps (receiving rounds) w in
    (
      hd,
      sym (append-nil (flushed w'.flushes))
          ∙ sym (
              ap (λ es. flushed w'.flushes ++ es)
                (ap (λ es. es ++ events_in w'.commands) hb ∙ ap events_in hq))
          ∙ contents-steps (receiving rounds) w
          ∙ ap (◌++◌ (contents w)) (accepted-receiving rounds w)
          ∙ append-nil (contents w),
    )
