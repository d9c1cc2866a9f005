-- ===== src/Db/Store.antt =====
-- internal/db/store.go with query/sessions.sql: the transitions of the sessions' rows. Each statement
-- takes what Postgres answers: none, or the error with which it changes nothing.
pub mod Transitions
pub mod Hits
pub mod Tests
use proxy_sampler.Prelude.{
  ℕ, suc, ◌+◌, ◌%◌, ◌^◌, Bool, true, false, not, ◌&&◌, ◌||◌, ltb, ◌==◌, List, [], ◌∷◌, Option, none,
  some, Text, count, nat_eq, ◌=?◌, if◌then◌else◌,
}
use proxy_sampler.Go.Addr.{invalid, Addr, addr_eq}
use proxy_sampler.Go.Time.{Time}
use proxy_sampler.Go.Ints.{low32, Int64, add_int64}
use proxy_sampler.Session.{Session, Snapshot, IpHit, Status, running, stopped, finished}
use proxy_sampler.Db.Columns.{Row, to_int32, units, millisecond, option_map}

pub data StoreError : Type 0 where
  database : Text → StoreError
  not_found not_running already_running : StoreError

-- `UPDATE … SET f WHERE p`, with the number of rows that it changed.
abbrev pub update_where : (Row → Bool) → (Row → Row) → List Row → List Row
update_where p f [] = []
update_where p f (r ∷ rows) = (if p r then f r else r) ∷ update_where p f rows

abbrev pub is_running : Status → Bool
is_running running = true
is_running stopped = false
is_running finished = false

abbrev pub has_id : ℕ → Row → Bool
has_id id r = r.id == id

-- A statement that must change a row, and what it means that it has changed none.
unfoldable pub transition :
    Option Text → (Row → Bool) → (Row → Row) → StoreError → List Row → List Row × Option StoreError
transition answer p f otherwise rows = elim answer [
  | some e ↦ (rows, some (database e))
  | none ↦ if count p rows == 0 then (rows, some otherwise) else (update_where p f rows, none)
]

abbrev pub stopped_row : Time → Row → Row
stopped_row at r = record r { status = stopped; stopped_at = some at }

abbrev pub finished_row : Time → Row → Row
finished_row at r = record r { status = finished; stopped_at = some at }

-- The sum of the two counters must stay an `integer`: Postgres refuses the statement otherwise.
abbrev pub reenabled_row : Time → Row → Row
reenabled_row at r = record r {
  status = running;
  sequence_offset = r.sequence_offset + r.samples_taken;
  samples_taken = 0;
  probes_ok = 0;
  probes_total = 0;
  last_sample_at = none;
  last_primary_ip = invalid;
  last_rtt_ms = none;
  last_error = [];
  started_at = some at;
  stopped_at = none;
}

unfoldable pub stop : Option Text → ℕ → Time → List Row → List Row × Option StoreError
stop answer id at =
    transition answer (λ r. has_id id r && is_running r.status) (stopped_row at) not_running

unfoldable pub finish_session : Option Text → ℕ → Time → List Row → List Row × Option StoreError
finish_session answer id at =
    transition answer (λ r. has_id id r && is_running r.status) (finished_row at) not_running

-- With no row changed, a second query tells a missing session from a running one.
unfoldable pub reenable :
    Option Text → Option Text → ℕ → Time → List Row → List Row × Option StoreError
reenable answer lookup_answer id at rows =
    transition answer (λ r. has_id id r && not (is_running r.status)) (reenabled_row at)
      (elim lookup_answer [
        | some e ↦ database e
        | none ↦ if count (has_id id) rows == 0 then not_found else already_running
      ])
      rows

unfoldable pub rename : Option Text → ℕ → Text → List Row → List Row × Option StoreError
rename answer id name =
    transition answer (has_id id) (λ r. record r { name = name; name_customized = true }) not_found

abbrev pub remove_rows : (Row → Bool) → List Row → List Row
remove_rows p [] = []
remove_rows p (r ∷ rows) = if p r then remove_rows p rows else r ∷ remove_rows p rows

unfoldable pub delete_session : Option Text → ℕ → List Row → List Row × Option StoreError
delete_session (some e) id rows = (rows, some (database e))
delete_session none id rows = (remove_rows (has_id id) rows, none)

-- `snapshotParams` into the row.
abbrev pub snapshot_row : Snapshot → Row → Row
snapshot_row s r = record r {
  samples_taken = low32 s.samples_taken;
  probes_ok = s.probes_ok;
  probes_total = s.probes_total;
  distinct_ips = low32 s.distinct_ips;
  last_sample_at = s.last_sample_at;
  last_primary_ip = s.last_primary_ip;
  last_rtt_ms = option_map (λ d. to_int32 (units d millisecond)) s.last_rtt;
  last_error = s.last_error;
}

-- The row of one address of one session.
pub record IpEntry : Type 0 where
  pub session_id : ℕ
  pub ip : Addr
  pub first_seen : Time
  pub last_seen : Time
  pub hit_count : Int64

unfoldable pub upsert_ip : ℕ → IpHit → List IpEntry → List IpEntry
upsert_ip id hit [] =
    record {
      session_id = id;
      ip = hit.ip;
      first_seen = hit.seen_at;
      last_seen = hit.seen_at;
      hit_count = hit.hits;
    }
    ∷ []
upsert_ip id hit (e ∷ entries) =
    if (e.session_id == id) && (e.ip =? hit.ip)
    then record e { last_seen = hit.seen_at; hit_count = e.hit_count + hit.hits } ∷ entries
    else e ∷ upsert_ip id hit entries

unfoldable pub upsert_ips : ℕ → List IpHit → List IpEntry → List IpEntry
upsert_ips id [] entries = entries
upsert_ips id (h ∷ hits) entries = upsert_ips id hits (upsert_ip id h entries)

-- What Postgres answers within one transaction.
pub record TickAnswer : Type 0 where
  pub begin_error : Option Text
  pub snapshot_error : Option Text
  pub hit_error : IpHit → Option Text
  pub commit_error : Option Text

-- The first hit that is refused.
abbrev pub first_refused : (IpHit → Option Text) → List IpHit → Option Text
first_refused f [] = none
first_refused f (h ∷ hits) = elim (f h) [ some e ↦ some e | none ↦ first_refused f hits ]

-- `SaveTick`: a failure rolls the transaction back.
unfoldable pub save_tick :
    TickAnswer
    → ℕ
    → Snapshot
    → List IpHit
    → List Row × List IpEntry
    → (List Row × List IpEntry) × Option StoreError
save_tick answer id snapshot hits db = elim answer.begin_error [
  | some e ↦ (db, some (database e))
  | none ↦ elim answer.snapshot_error [
    | some e ↦ (db, some (database e))
    | none ↦ elim (first_refused answer.hit_error hits) [
      | some e ↦ (db, some (database e))
      | none ↦ elim answer.commit_error [
        | some e ↦ (db, some (database e))
        | none ↦
            ((update_where (has_id id) (snapshot_row snapshot) db.0, upsert_ips id hits db.1), none)
      ]
    ]
  ]
]
