-- ===== src/Sampler/Worker/Numbering.antt =====
-- The numbers of the samples that a worker saves and of the events that it offers.
use proxy_sampler.Prelude.{
  ℕ, zero, suc, ◌+◌, ◌%◌, ◌^◌, ◌<◌, ◌≡◌, refl, sym, ap, ◌∙◌, true, not, is_some, ◌&&◌, List, [],
  ◌∷◌, ◌++◌, map, Option, none, some, Text, arith, length, length-snoc, map-append, length-map, All,
  All-append, if◌then◌else◌, min, count,
}
use proxy_sampler.Go.Addr.{Addr, addr_eq}
use proxy_sampler.Go.Ints.{low32, add_uint32, Int64}
use proxy_sampler.Go.Time.{Time}
use proxy_sampler.Session.{Snapshot, IpHit, Reputation}
use proxy_sampler.Ch.Event.{Event, valid_event}
use proxy_sampler.Sampler.Aggregate.{Sample}
use proxy_sampler.Sampler.Aggregate.Bounds.{IsCounted, aggregate-IsCounted}
use proxy_sampler.Sampler.Events.{sample_event, addr_ip, duration_millis, bool_byte}
use proxy_sampler.Sampler.Worker.{
  PreparedWorker, TickAnswers, Working, next_snapshot, advance, tick, ticks, started, sample_at,
  event_of, snapshot_of, probe_results, probe_count,
}

-- The numbers behind `start`, in the 32 bits of a counter.
abbrev pub count_up : ℕ → ℕ → List ℕ
count_up start zero = []
count_up start (suc n) = count_up start n ++ ((start + suc n) % 2 ^ 32) ∷ []

-- The arrays of a sample have the announced length, which fits a byte.
sample_event-valid :
    (id : ℕ) (at : Time) (sequence : ℕ) (s : Sample) (r : Option Reputation) (seen : List Addr)
    (n : ℕ)
    → IsCounted seen s n
    → valid_event (sample_event id at sequence s r) ≡ true
unfolding sample_event valid_event
sample_event-valid id at sequence s r seen n c = ground (
  arith,
  c.attempted,
  c.attempted_bound,
  c.ips ∙ sym c.attempted,
  c.rtts ∙ sym c.attempted,
  c.oks ∙ sym c.attempted,
  length-map addr_ip s.probe_ips,
  length-map duration_millis s.probe_rtts,
  length-map bool_byte s.probe_ok,
)

-- `start` is the number of the last sample before these, and `offset` what the session adds.
pub record IsNumbered (start : ℕ) (offset : Int64) (w : Working) : Type 0 where
  pub saves : map (λ s. s.0.samples_taken) w.saved ≡ count_up start (length w.saved)
  pub events :
      map (λ e. e.sample_seq) w.offered
      ≡ map (λ s. add_uint32 (low32 offset) s.0.samples_taken) w.saved
  pub last : w.worker.sample_seq ≡ (start + length w.saved) % 2 ^ 32
  pub kept : w.worker.session.sequence_offset ≡ offset
  pub valid : All (λ e. valid_event e ≡ true) w.offered

push-saves :
    (start : ℕ) (ss : List (Snapshot × List IpHit)) (s : Snapshot) (hs : List IpHit)
    → map (λ s. s.0.samples_taken) ss ≡ count_up start (length ss)
    → s.samples_taken ≡ (start + suc (length ss)) % 2 ^ 32
    → map (λ s. s.0.samples_taken) (ss ++ (s, hs) ∷ [])
      ≡ count_up start (length (ss ++ (s, hs) ∷ []))
push-saves start ss s hs v h =
    rw
      (
        map-append (λ (s : Snapshot × List IpHit). s.0.samples_taken) ss ((s, hs) ∷ []),
        length-snoc ss (s, hs),
      )
      (cc)

push-events :
    (offset : Int64) (es : List Event) (e : Event) (ss : List (Snapshot × List IpHit))
    (s : Snapshot) (hs : List IpHit)
    → map (λ e. e.sample_seq) es ≡ map (λ s. add_uint32 (low32 offset) s.0.samples_taken) ss
    → e.sample_seq ≡ add_uint32 (low32 offset) s.samples_taken
    → map (λ e. e.sample_seq) (es ++ e ∷ [])
      ≡ map (λ s. add_uint32 (low32 offset) s.0.samples_taken) (ss ++ (s, hs) ∷ [])
push-events offset es e ss s hs v h =
    rw
      (
        map-append (λ (e : Event). e.sample_seq) es (e ∷ []),
        map-append (λ (s : Snapshot × List IpHit). add_uint32 (low32 offset) s.0.samples_taken) ss
            ((s, hs) ∷ []),
      )
      (cc)

advance-IsNumbered :
    (start : ℕ) (offset : Int64) (a : TickAnswers) (w : Working)
    → IsNumbered start offset w
    → IsNumbered start offset (advance a w)
unfolding advance next_snapshot sample_event
advance-IsNumbered start offset a w v = record {
  saves = push-saves start w.saved (snapshot_of a w.worker) _ v.saves (omega (arith, v.last));
  events =
      push-events offset w.offered (event_of a w.worker) w.saved (snapshot_of a w.worker) _ v.events
        (ap (λ o. add_uint32 (low32 o) (add_uint32 w.worker.sample_seq 1)) v.kept);
  last = omega (arith, v.last, length-snoc w.saved _);
  kept = v.kept;
  valid = All-append _ w.offered _ v.valid (
    sample_event-valid w.worker.session.id a.now _ (sample_at a w.worker) _ w.worker.seen _ c,
    tt,
  );
}
  where
    c :
        IsCounted w.worker.seen (sample_at a w.worker) (
          min 255 (length (probe_results (probe_count w.worker.session.probes_per_sample) a.probe)))
    c =
        aggregate-IsCounted (probe_results (probe_count w.worker.session.probes_per_sample) a.probe)
          w.worker.previous_primary w.worker.seen

-- The ticks whose save succeeded, and those of them whose event the sink refused.
abbrev pub saves_of : List TickAnswers → ℕ
saves_of = count (λ a. not (is_some a.save_error))

abbrev pub refusals_of : List TickAnswers → ℕ
refusals_of = count (λ a. not (is_some a.save_error) && not a.accepts)

-- A tick changes nothing, or advances.
pub tick-cases {ℓ} :
    (a : TickAnswers) (w : Working) (P : Working → Type ℓ) → P w → P (advance a w) → P (tick a w).0
unfolding tick
tick-cases a w P same next = pick a.save_error
  where
    pick :
        (e : Option Text)
        → P
            (elim e as (λ _. Working × Option Text) [
              | some e ↦ (w, some e)
              | none ↦ (advance a w, none)
            ]).0
    pick (some e) = same
    pick none = next

ticks-IsNumbered :
    (start : ℕ) (offset : Int64) (as' : List TickAnswers) (w : Working)
    → IsNumbered start offset w
    → IsNumbered start offset (ticks as' w)
unfolding ticks tick
ticks-IsNumbered start offset [] w v = v
ticks-IsNumbered start offset (a ∷ as') w v =
    tick-cases a w (λ w'. IsNumbered start offset (ticks as' w'))
      (ticks-IsNumbered start offset as' w v)
      (ticks-IsNumbered start offset as' (advance a w) (advance-IsNumbered start offset a w v))

advance-counts :
    (a : TickAnswers) (w : Working)
    → (length (advance a w).saved ≡ suc (length w.saved))
      × ((advance a w).dropped ≡ (if a.accepts then w.dropped else w.dropped + 1))
unfolding advance
advance-counts a w = (length-snoc w.saved _, refl)

ticks-counts :
    (as' : List TickAnswers) (w : Working)
    → (length (ticks as' w).saved ≡ length w.saved + saves_of as')
      × ((ticks as' w).dropped ≡ w.dropped + refusals_of as')
unfolding ticks tick
ticks-counts [] w = (omega arith, omega arith)
ticks-counts (a ∷ as') w =
    ground (arith, ticks-counts as' w, ticks-counts as' (advance a w), advance-counts a w)

-- Over any ticks of a prepared worker whose counter fits 32 bits: the saved snapshots are numbered
-- upwards from the worker's counter without a gap or a repeat, in 32 bits; the offered events are
-- one for each of them, in order, with the session's offset added, and all valid; the saves are
-- the ticks that the store did not refuse, and the drops those of them that the sink did not take.
pub ticks-started-IsNumbered :
    (as' : List TickAnswers) (p : PreparedWorker)
    → p.sample_seq < 2 ^ 32
    → IsNumbered p.sample_seq p.session.sequence_offset (ticks as' (started p))
      × (length (ticks as' (started p)).saved ≡ saves_of as')
      × ((ticks as' (started p)).dropped ≡ refusals_of as')
ticks-started-IsNumbered as' p h = (
  ticks-IsNumbered p.sample_seq p.session.sequence_offset as' (started p)
      (record { saves = refl; events = refl; last = omega arith; kept = refl; valid = tt }),
  omega (arith, (ticks-counts as' (started p)).0),
  omega (arith, (ticks-counts as' (started p)).1),
)
