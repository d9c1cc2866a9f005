-- ===== src/Db/Store/Tests.antt =====
-- Runs of the store, and its theorems at them.
use native.Mathlib.Nat.{mul-div_cancel}
use proxy_sampler.Prelude.{
  ℕ, ◌+◌, ◌*◌, ◌<◌, ◌≡◌, ◌≢◌, refl, ap, ◌/◌, Option, Text, inl, inr, List, [], ◌∷◌, map, none, some,
  codes, count, arith, pos, ◌==◌, is_some, if◌then◌else◌,
}
use proxy_sampler.Go.Addr.{Addr, invalid, v4, v6, addr_eq}
use proxy_sampler.Session.{Session, Snapshot, IpHit, pool, running}
use proxy_sampler.Db.Columns.{
  Row, insert_params, map_session, Conversions, SessionRow, session_row, second, millisecond,
}
use proxy_sampler.Db.Columns.RoundTrip.{Fits, Host, IsDocumented, map_session-insert_params}
use proxy_sampler.Db.Store.{IpEntry, TickAnswer, save_tick}
use proxy_sampler.Db.Store.Transitions.{
  Op, stops, finishes, reenables, renames, apply, apply_all, id_and_total, eligible, apply_all-map,
  apply-Reports,
}
use proxy_sampler.Db.Store.Hits.{hits_in, fails, hits_of, save_tick-hits_in}

abbrev a_snapshot : Snapshot
a_snapshot = record {
  samples_taken = 12;
  probes_ok = 30;
  probes_total = 36;
  distinct_ips = 4;
  last_sample_at = some 5000;
  last_primary_ip = v4 1;
  last_category = codes "mobile";
  last_rtt = some (pos (7 * millisecond));
  last_error = [];
}

abbrev a_session : Session
a_session = record {
  id = 9;
  name = codes "berlin";
  proxy_ciphertext = [];
  proxy_nonce = [];
  proxy_display = [];
  mode = pool;
  cadence = pos (30 * second);
  probes_per_sample = pos 3;
  probe_target = [];
  dial_timeout = pos (5000 * millisecond);
  max_samples = some (pos 40);
  max_duration = none;
  status = running;
  target_country = codes "DE";
  sequence_offset = 100;
  snapshot = a_snapshot;
  created_at = 1000;
  started_at = some 2000;
  stopped_at = none;
}

a_session-Fits : Fits a_session
a_session-Fits = record {
  cadence = (30, refl, omega arith);
  dial_timeout = (5000, refl, omega arith);
  probes = (3, refl, omega arith);
  max_samples = (40, refl, omega arith);
  max_duration = tt;
  last_rtt = (7, refl, omega arith);
  last_primary_ip = inr (omega arith);
  last_sample_at = (5, refl, omega arith);
  created_at = (1, refl, omega arith);
  started_at = (2, refl, omega arith);
  stopped_at = tt;
  samples_taken = omega arith;
  distinct_ips = omega arith;
  sequence_offset = omega arith;
}

-- A column that keeps microseconds, and texts that hold the number of an address.
abbrev some_text : Addr → Text
some_text invalid = []
some_text (v4 n) = 4 ∷ n ∷ []
some_text (v6 n zone) = 6 ∷ n ∷ zone

abbrev read_prefix : Text → Option Addr
read_prefix [] = none
read_prefix (k ∷ []) = none
read_prefix (k ∷ n ∷ zone) = if k == 4 then some (v4 n) else some (v6 n zone)

abbrev some_conversions : Conversions
some_conversions = record {
  addr_text = some_text;
  parse_addr = λ t. inl (codes "no address");
  parse_prefix = read_prefix;
  inet_text = λ t. some t;
  keep_time = λ t. (t / 1000) * 1000;
}

read_prefix-Host : (a : Addr) → Host a → (some_text a ≢ []) × (read_prefix (some_text a) ≡ some a)
read_prefix-Host invalid h = absurd h
read_prefix-Host (v4 n) h = ((λ e. cc), refl)
read_prefix-Host (v6 n zone) h = ((λ e. cc), refl)

some_conversions-IsDocumented : IsDocumented some_conversions
some_conversions-IsDocumented = record {
  keeps_micro = λ k b. ap (λ n. n * 1000) (mul-div_cancel k (omega arith));
  written = λ a h. (read_prefix-Host a h).0;
  host = λ a h. (
    some_text a,
    codes "no address",
    refl,
    (read_prefix-Host a h).0,
    refl,
    (read_prefix-Host a h).1,
  );
}

map_session-insert_params_example :
    (x : SessionRow) × (session_row some_conversions (codes "isp") (insert_params a_session)
      ≡ some x)
    × (map_session some_conversions x
        ≡ inr (record a_session { snapshot = record a_snapshot { last_category = codes "isp" } }))
map_session-insert_params_example =
    map_session-insert_params some_conversions a_session (codes "isp") some_conversions-IsDocumented
      a_session-Fits

abbrev one_row : List Row
one_row = insert_params a_session ∷ []

abbrev a_life : List Op
a_life =
    reenables none none 9 3
    ∷ stops none 9 4
    ∷ stops (some (codes "timeout")) 9 5
    ∷ renames none 9 (codes "munich")
    ∷ reenables none none 9 6
    ∷ finishes none 9 7
    ∷ []

apply_all-map_example : map id_and_total (apply_all a_life one_row) ≡ map id_and_total one_row
apply_all-map_example = apply_all-map a_life one_row

apply-Reports_example :
    ((apply (reenables none none 9 3) one_row).1 ≡ none
      → 0 < count (eligible (reenables none none 9 3)) one_row)
    × ((apply (reenables none none 9 3) one_row).1 ≢ none
        → (apply (reenables none none 9 3) one_row).0 ≡ one_row)
apply-Reports_example = apply-Reports (reenables none none 9 3) one_row

abbrev all_well : TickAnswer
all_well = record {
  begin_error = none;
  snapshot_error = none;
  hit_error = λ h. none;
  commit_error = none;
}

abbrev two_hits : List IpHit
two_hits =
    record { ip = v4 1; seen_at = 6; hits = 2 } ∷ record { ip = v4 2; seen_at = 6; hits = 1 } ∷ []

abbrev an_entry : List IpEntry
an_entry = record { session_id = 9; ip = v4 1; first_seen = 1; last_seen = 5; hit_count = 4 } ∷ []

save_tick-hits_in_example :
    (let after = save_tick all_well 9 a_snapshot two_hits (one_row, an_entry) in
      (is_some after.1 ≡ fails all_well two_hits)
      × (after.1 ≢ none → after.0 ≡ (one_row, an_entry))
      × (after.1 ≡ none
          → (sid : ℕ) (ip : Addr)
          → hits_in sid ip after.0.1
            ≡ hits_in sid ip an_entry + (if 9 == sid then hits_of ip two_hits else 0)))
save_tick-hits_in_example = save_tick-hits_in all_well 9 a_snapshot two_hits one_row an_entry
