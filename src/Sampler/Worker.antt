-- ===== src/Sampler/Worker.antt =====
-- internal/sampler/worker.go: what one session's worker keeps, one tick of it, and its run to the
-- session's cap. Each call out of the worker is an argument: the clock's times, what the probes
-- and the reputation lookup answer, the error of `SaveTick`, and whether the event sink accepts.

pub mod Run
pub mod Numbering
pub mod Cap
pub mod Hits
pub mod Tests
use proxy_sampler.Prelude.{
  ℕ, zero, suc, ◌+◌, ◌-◌, ◌*◌, ◌/◌, ◌%◌, ◌^◌, Bool, true, false, not, ◌&&◌, ◌||◌, ltb, leb, List,
  [], ◌∷◌, ◌++◌, map, Option, none, some, ◌⊎◌, inl, inr, Text, codes, Map, lookup, lookup_or,
  insert, contains, keys, add, length, ℤ, pos, negsuc, is_nil, is_some, if◌then◌else◌,
}
use proxy_sampler.Go.Addr.{Addr, invalid, v4, v6, is_valid, unmap, addr_eq}
use proxy_sampler.Go.Time.{Time, Duration, sub_time, leb_ℤ}
use proxy_sampler.Go.Ints.{Int64, max_uint32, add_int64, is_negative, low32, add_uint32}
use proxy_sampler.Session.{Session, Snapshot, IpHit, IpRecord, Reputation}
use proxy_sampler.Ch.Event.{Event, NetIp}
use proxy_sampler.Sampler.Events.{with_category, sample_event}
use proxy_sampler.Sampler.Aggregate.{ProbeResult, Sample, aggregate, max_uint8_value}

-- The dialer and the shared process dependencies are the arguments of the calls.
pub record PreparedWorker : Type 0 where
  pub session : Session
  pub seen : List Addr
  pub previous_primary : Addr
  pub sample_seq : ℕ

-- The loop over the stored addresses of the session.
unfoldable pub restore_seen : List IpRecord → List Addr → List Addr
restore_seen [] seen = seen
restore_seen (r ∷ rs) seen = restore_seen rs (if is_valid r.ip then add seen (unmap r.ip) else seen)

unfoldable pub restore_sequence : Int64 → ℕ
restore_sequence samples_taken =
    if is_negative samples_taken
    then 0
    else if ltb max_uint32 samples_taken
    then max_uint32
    else samples_taken

-- What the calls of `Prepare` answer, in their order: decrypting, building the dialer, and the
-- stored addresses.
pub record Preparation : Type 0 where
  pub dependencies_complete : Bool
  pub decrypt_error : Option Text
  pub dialer_error : Option Text
  pub session_ips : Text ⊎ List IpRecord

unfoldable pub prepare : Preparation → Session → Text ⊎ PreparedWorker
unfolding restore_seen restore_sequence
prepare answers session =
    if not answers.dependencies_complete
    then inl (codes "worker dependencies are incomplete")
    else elim answers.decrypt_error [
      | some e ↦ inl e
      | none ↦ elim answers.dialer_error [
        | some e ↦ inl e
        | none ↦ elim answers.session_ips [
          | inl e ↦ inl e
          | inr records ↦ inr (record {
            session = session;
            seen = restore_seen records [];
            previous_primary = session.snapshot.last_primary_ip;
            sample_seq = restore_sequence session.snapshot.samples_taken;
          })
        ]
      ]
    ]

-- `probe` asks for as many results as the session wants, from 0 to 255.
unfoldable pub probe_count : ℤ → ℕ
probe_count (negsuc n) = 0
probe_count (pos n) = if ltb max_uint8_value n then max_uint8_value else n

abbrev pub max_concurrent_probes : ℕ
max_concurrent_probes = 8

unfoldable pub probe_limit : ℕ → ℕ
probe_limit count = if ltb max_concurrent_probes count then max_concurrent_probes else count

-- The results by index, once every probe has answered.
unfoldable pub probe_results : ℕ → (ℕ → ProbeResult) → List ProbeResult
probe_results zero answer = []
probe_results (suc n) answer = probe_results n answer ++ answer n ∷ []

-- The loop of `enrich`; an error of the lookup is logged, and the reputation that comes with it is
-- used all the same.
unfoldable pub enrich : (Addr → Reputation) → List Addr → Map Addr Reputation → Map Addr Reputation
enrich look_up [] result = result
enrich look_up (ip ∷ ips) result = enrich look_up ips (
    if not (is_valid ip)
    then result
    else if is_some (lookup (unmap ip) result)
    then result
    else insert (unmap ip) (with_category (look_up (unmap ip))) result)

-- The variables `nextSeen`, `hits` and `added` of the loop in `tick`.
pub record Found : Type 0 where
  pub next_seen : List Addr
  pub hits : List IpHit
  pub added : List Addr

unfoldable pub find_ip : Time → Map Addr ℕ → Addr → Found → Found
find_ip sampled_at ip_hits raw found =
    if not (is_valid raw)
    then found
    else if contains found.added (unmap raw)
    then found
    else record {
      next_seen = add found.next_seen (unmap raw);
      hits =
          found.hits
          ++ record { ip = unmap raw; seen_at = sampled_at; hits = lookup_or 0 (unmap raw) ip_hits }
            ∷ [];
      added = add found.added (unmap raw);
    }

unfoldable pub find_ips : Time → Map Addr ℕ → List Addr → Found → Found
find_ips sampled_at ip_hits [] found = found
find_ips sampled_at ip_hits (raw ∷ ips) found =
    find_ips sampled_at ip_hits ips (find_ip sampled_at ip_hits raw found)

-- What the outside answers in one tick.
pub record TickAnswers : Type 0 where
  pub now : Time
  pub probe : ℕ → ProbeResult
  pub look_up : Addr → Reputation
  pub save_error : Option Text
  pub accepts : Bool

-- A worker with the calls it has made: the saved ticks, the events offered to the sink, and the
-- samples that the sink refused.
pub record Working : Type 0 where
  pub worker : PreparedWorker
  pub saved : List (Snapshot × List IpHit)
  pub offered : List Event
  pub dropped : ℕ

abbrev pub sample_at : TickAnswers → PreparedWorker → Sample
sample_at answers p =
    aggregate (probe_results (probe_count p.session.probes_per_sample) answers.probe)
      p.previous_primary p.seen

abbrev pub found_in : Time → Sample → List Addr → Found
found_in now sample seen =
    find_ips now sample.ip_hits sample.probe_ips
      (record { next_seen = seen; hits = []; added = [] })

unfoldable pub next_snapshot :
    Time → PreparedWorker → Sample → List Addr → Map Addr Reputation → Snapshot
next_snapshot now p sample next_seen reputations = record {
  samples_taken = add_uint32 p.sample_seq 1;
  probes_ok = add_int64 p.session.snapshot.probes_ok sample.probes_ok;
  probes_total = add_int64 p.session.snapshot.probes_total sample.probes_attempted;
  distinct_ips = length next_seen;
  last_sample_at = some now;
  last_primary_ip = if is_valid sample.primary_ip then sample.primary_ip else p.previous_primary;
  last_category = elim (lookup sample.primary_ip reputations) [
    | none ↦ p.session.snapshot.last_category
    | some r ↦ r.category
  ];
  last_rtt = if ltb 0 sample.probes_ok then some (pos sample.rtt_med) else none;
  last_error = sample.error;
}

abbrev pub reputations_of : TickAnswers → PreparedWorker → Map Addr Reputation
reputations_of answers p = enrich answers.look_up (sample_at answers p).probe_ips []

-- The snapshot and the event of a tick.
abbrev pub snapshot_of : TickAnswers → PreparedWorker → Snapshot
snapshot_of answers p =
    next_snapshot answers.now p (sample_at answers p)
      (found_in answers.now (sample_at answers p) p.seen).next_seen (reputations_of answers p)

abbrev pub event_of : TickAnswers → PreparedWorker → Event
event_of answers p =
    sample_event p.session.id answers.now
      (add_uint32 (low32 p.session.sequence_offset) (add_uint32 p.sample_seq 1))
      (sample_at answers p) (lookup (sample_at answers p).primary_ip (reputations_of answers p))

-- What `tick` does once the snapshot and the hits are saved.
unfoldable pub advance : TickAnswers → Working → Working
unfolding next_snapshot
advance answers w =
    let p = w.worker in
    let found = found_in answers.now (sample_at answers p) p.seen in
    let snapshot = snapshot_of answers p in
    record {
      worker = record {
        session = record p.session { snapshot = snapshot };
        seen = found.next_seen;
        previous_primary = snapshot.last_primary_ip;
        sample_seq = snapshot.samples_taken;
      };
      saved = w.saved ++ (snapshot, found.hits) ∷ [];
      offered = w.offered ++ event_of answers p ∷ [];
      dropped = if answers.accepts then w.dropped else w.dropped + 1;
    }

unfoldable pub tick : TickAnswers → Working → Working × Option Text
tick answers w = elim answers.save_error [ some e ↦ (w, some e) | none ↦ (advance answers w, none) ]

unfoldable pub ticks : List TickAnswers → Working → Working
ticks [] w = w
ticks (a ∷ as') w = ticks as' (tick a w).0

-- A worker that has just been prepared.
abbrev pub started : PreparedWorker → Working
started p = record { worker = p; saved = []; offered = []; dropped = 0 }
