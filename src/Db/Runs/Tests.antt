-- ===== src/Db/Runs/Tests.antt =====
-- A run of two sessions, of which one is renamed while the run is.
use proxy_sampler.Prelude.{
  ◌==◌, ◌≡◌, refl, List, [], ◌∷◌, map, Option, none, some, Text, codes, Map, pos, list_eq, nat_eq,
  if◌then◌else◌,
}
use proxy_sampler.Go.Addr.{invalid}
use proxy_sampler.Session.{Session, sticky, running}
use proxy_sampler.Db.Columns.{insert_params}
use proxy_sampler.Variation.Template.{variant_name}
use proxy_sampler.Db.Runs.{
  Run, ChildSession, Tables, CreateAnswer, RenameAnswer, insert_children, create_run, cascade,
  rename_run,
}
use proxy_sampler.Db.Runs.Names.{IsNamed}
use proxy_sampler.Db.Runs.History.{Op, creates, renames_run, apply_all, apply_all-IsNamed}

abbrev berlin : Session
berlin = record {
  id = 1;
  name = codes "pool (country=DE)";
  proxy_ciphertext = [];
  proxy_nonce = [];
  proxy_display = [];
  mode = sticky;
  cadence = pos 1000000000;
  probes_per_sample = pos 3;
  probe_target = [];
  dial_timeout = pos 0;
  max_samples = none;
  max_duration = none;
  status = running;
  target_country = [];
  sequence_offset = 0;
  snapshot = record {
    samples_taken = 0;
    probes_ok = 0;
    probes_total = 0;
    distinct_ips = 0;
    last_sample_at = none;
    last_primary_ip = invalid;
    last_category = [];
    last_rtt = none;
    last_error = [];
  };
  created_at = 0;
  started_at = some 0;
  stopped_at = none;
}

abbrev munich : Session
munich = record berlin { id = 2; name = codes "pool (country=AT)" }

abbrev decode_country : Text → Option (Map Text Text)
decode_country t = some ((codes "country", t) ∷ [])

abbrev pool : Run
pool = record {
  id = 7;
  name = codes "pool";
  template_ciphertext = [];
  template_nonce = [];
  template_display = [];
  axes = [];
  created_at = 0;
}

abbrev both : List ChildSession
both =
    record { session = berlin; params = codes "DE"; cell_key = [] }
    ∷ record { session = munich; params = codes "AT"; cell_key = [] }
    ∷ []

abbrev all_well : CreateAnswer
all_well = record {
  begin_error = none;
  run_error = none;
  child_error = λ id. none;
  commit_error = none;
}

-- The second child is renamed before the statement for the first.
abbrev interrupted : RenameAnswer
interrupted = record {
  begin_error = none;
  update_error = none;
  read_error = none;
  child_error = λ id. none;
  commit_error = none;
  between = λ id. if id == 2 then (1, codes "mine") ∷ [] else [];
}

abbrev two_ops : List Op
two_ops = creates all_well pool both ∷ renames_run interrupted 7 (codes "eu") ∷ []

abbrev empty_tables : Tables
empty_tables = record { runs = []; children = [] }

names_after :
    map (λ c. c.row.name) (apply_all decode_country two_ops empty_tables).children
    ≡ codes "eu (country=AT)" ∷ codes "mine" ∷ []
unfolding create_run insert_children rename_run cascade insert_params variant_name
names_after = refl

apply_all-IsNamed_example : IsNamed decode_country (apply_all decode_country two_ops empty_tables)
unfolding insert_params variant_name
apply_all-IsNamed_example =
    apply_all-IsNamed decode_country two_ops empty_tables ((refl, (refl, tt)), (tt, tt))
      (record { distinct = tt; run_ids = tt; named = tt })
