-- ===== src/Db/Runs/Summary.antt =====
-- internal/db/runs.go: what is reported of a run.
use proxy_sampler.Prelude.{
  ℕ, Bool, true, false, ◌&&◌, ◌==◌, ltb, List, [], ◌∷◌, count, map, length, contains, add, Option,
  none, some, Text, lookup, nat_eq, ◌⊎◌, inl, inr, if◌then◌else◌,
}
use proxy_sampler.Session.{Status, running, stopped, finished}
use proxy_sampler.Db.Store.{StoreError, database, not_found, is_running, IpEntry}
use proxy_sampler.Go.Addr.{Addr, addr_eq}
use proxy_sampler.Db.Runs.{Run, Tables, in_run, targets_of}

-- A run's status follows from its children.
unfoldable pub derive_run_status : ℕ → ℕ → ℕ → Status
derive_run_status variant_count running_count finished_count =
    if ltb 0 running_count
    then running
    else if ltb 0 variant_count && (finished_count == variant_count)
    then finished
    else stopped

abbrev pub is_finished : Status → Bool
is_finished running = false
is_finished stopped = false
is_finished finished = true

pub record RunSummary : Type 0 where
  pub run : Run
  pub variant_count : ℕ
  pub distinct_ips : ℕ
  pub status : Status

-- The addresses of the sessions of a run, each once.
unfoldable pub run_ips : List ℕ → List IpEntry → List Addr
run_ips sessions [] = []
run_ips sessions (e ∷ entries) =
    if contains sessions e.session_id
    then add (run_ips sessions entries) e.ip
    else run_ips sessions entries

-- `RunByID`. A run's status has the names of a session's.
unfoldable pub run_by_id : Option Text → ℕ → List IpEntry → Tables → StoreError ⊎ RunSummary
run_by_id answer id entries db = elim answer [
  | some e ↦ inl (database e)
  | none ↦ elim (lookup id db.runs) [
    | none ↦ inl not_found
    | some run ↦
        let variant_count = count (in_run id) db.children in
        inr record {
          run = run;
          variant_count = variant_count;
          distinct_ips = length (run_ips (map (λ t. t.0) (targets_of id db.children)) entries);
          status =
              derive_run_status variant_count
                (count (λ c. in_run id c && is_running c.row.status) db.children)
                (count (λ c. in_run id c && is_finished c.row.status) db.children);
        }
  ]
]
