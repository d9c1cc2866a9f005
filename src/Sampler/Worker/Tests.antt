-- ===== src/Sampler/Worker/Tests.antt =====
-- Runs of the worker and of its probes, and their theorems at them.
use proxy_sampler.Prelude.{
  ℕ, zero, suc, ◌-◌, ◌≤◌, ◌≡◌, refl, Bool, true, false, List, [], ◌∷◌, Option, none, some, Text,
  codes, arith, pos, length, All,
}
use proxy_sampler.Go.Addr.{Addr, v4}
use proxy_sampler.Session.{Session, sticky, running, Reputation}
use proxy_sampler.Sampler.Aggregate.{ProbeResult, aggregate}
use proxy_sampler.Sampler.Probes.{
  start_probes, ProbeStep, acquires, gives_up, finishes, probe_steps, Follows, error_result,
}
use proxy_sampler.Sampler.Probes.Order.{probe_steps-ordered}
use proxy_sampler.Sampler.Probes.Return.{probe_steps-return}
use proxy_sampler.Sampler.Worker.{
  PreparedWorker, TickAnswers, Working, started, ticks, found_in, probe_results,
}
use proxy_sampler.Sampler.Worker.Run.{Round, run, finishing}
use proxy_sampler.Sampler.Worker.Numbering.{
  IsNumbered, saves_of, refusals_of, ticks-started-IsNumbered,
}
use proxy_sampler.Sampler.Worker.Cap.{
  IsCapped, working_of, Undisturbed, run-started-IsCapped, run-started-reaches,
}
use proxy_sampler.Sampler.Worker.Hits.{IsTaken, found_in-IsTaken}

abbrev answered : ℕ → ProbeResult
answered zero = record { ip = v4 1; country = codes "DE"; colo = []; rtt = pos 4000000; err = none }
answered (suc zero) = error_result (codes "timeout")
answered (suc (suc n)) = record {
  ip = v4 2;
  country = codes "FR";
  colo = [];
  rtt = pos 6000000;
  err = none;
}

abbrev one_session : Session
one_session = record {
  id = 3;
  name = codes "one";
  proxy_ciphertext = [];
  proxy_nonce = [];
  proxy_display = [];
  mode = sticky;
  cadence = pos 1000000000;
  probes_per_sample = pos 3;
  probe_target = [];
  dial_timeout = pos 0;
  max_samples = some (pos 7);
  max_duration = none;
  status = running;
  target_country = [];
  sequence_offset = 10;
  snapshot = record {
    samples_taken = 5;
    probes_ok = 9;
    probes_total = 15;
    distinct_ips = 1;
    last_sample_at = none;
    last_primary_ip = v4 1;
    last_category = [];
    last_rtt = none;
    last_error = [];
  };
  created_at = 0;
  started_at = some 0;
  stopped_at = none;
}

abbrev one_worker : PreparedWorker
one_worker = record {
  session = one_session;
  seen = v4 1 ∷ [];
  previous_primary = v4 1;
  sample_seq = 5;
}

abbrev blank : Addr → Reputation
blank ip = record {
  ip = ip;
  country = [];
  region = [];
  city = [];
  isp = [];
  asn = [];
  is_mobile = none;
  ip_api_proxy = none;
  ip_api_hosting = none;
  proxy_check_type = [];
  proxy_check_proxy = none;
  risk_score = none;
  grey_noise_class = [];
  sfs_appears = none;
  sfs_frequency = none;
  dnsbl_listed = none;
  dnsbl_hits = [];
  category = [];
  raw = [];
  first_seen = 0;
  refreshed_at = 0;
}

abbrev answers_at : ℕ → Option Text → Bool → TickAnswers
answers_at now e accepts = record {
  now = now;
  probe = answered;
  look_up = blank;
  save_error = e;
  accepts = accepts;
}

abbrev three_ticks : List TickAnswers
three_ticks =
    answers_at 1 none true ∷ answers_at 2 (some (codes "down")) true ∷ answers_at 3 none false ∷ []

ticks-started-IsNumbered_example :
    IsNumbered 5 10 (ticks three_ticks (started one_worker))
    × (length (ticks three_ticks (started one_worker)).saved ≡ saves_of three_ticks)
    × ((ticks three_ticks (started one_worker)).dropped ≡ refusals_of three_ticks)
ticks-started-IsNumbered_example = ticks-started-IsNumbered three_ticks one_worker (omega arith)

abbrev round_at : ℕ → Option Text → Round
round_at now e = record {
  canceled_before = false;
  now_before = now;
  answers = answers_at now e true;
  canceled_after = false;
  now_after = now;
  canceled_waiting = false;
}

abbrev four_rounds : List Round
four_rounds =
    round_at 1 none ∷ round_at 2 (some (codes "down")) ∷ round_at 3 none ∷ round_at 4 none ∷ []

run-started-IsCapped_example : IsCapped 7 5 (working_of (run four_rounds (started one_worker)))
run-started-IsCapped_example =
    run-started-IsCapped 7 four_rounds one_worker refl (omega arith) (omega arith)

abbrev quiet_rounds : List Round
quiet_rounds = round_at 1 none ∷ round_at 2 none ∷ []

quiet_rounds-Undisturbed : All Undisturbed quiet_rounds
quiet_rounds-Undisturbed = ((refl, refl, refl, refl), ((refl, refl, refl, refl), tt))

run-started-reaches_example :
    (w : Working) × (run quiet_rounds (started one_worker) ≡ finishing w)
    × (w.worker.sample_seq ≡ 7)
    × (length w.saved ≡ 7 - 5)
run-started-reaches_example =
    run-started-reaches 7 quiet_rounds one_worker quiet_rounds-Undisturbed refl refl (omega arith)
      (omega arith) (omega arith) (omega arith)

found_in-IsTaken_example :
    IsTaken 4
      (v4 1 ∷ [])
      (aggregate (probe_results 3 answered) (v4 1) (v4 1 ∷ []))
      (found_in 4 (aggregate (probe_results 3 answered) (v4 1) (v4 1 ∷ [])) (v4 1 ∷ []))
found_in-IsTaken_example =
    found_in-IsTaken 4 (probe_results 3 answered) (v4 1) (v4 1 ∷ []) (refl, tt)

-- Three probes, two at a time, that return out of order.
abbrev out_of_order : List ProbeStep
out_of_order =
    acquires 2
    ∷ acquires 0
    ∷ acquires 1
    ∷ finishes 2 (answered 2)
    ∷ gives_up 1 (codes "timeout")
    ∷ finishes 0 (answered 0)
    ∷ []

probe_steps-ordered_example :
    (length (probe_steps out_of_order (start_probes 3 2)).holding ≤ 2)
    × ((probe_steps out_of_order (start_probes 3 2)).waiting ≡ []
        → (probe_steps out_of_order (start_probes 3 2)).holding ≡ []
        → (probe_steps out_of_order (start_probes 3 2)).results ≡ probe_results 3 answered)
probe_steps-ordered_example =
    probe_steps-ordered answered 3 2 out_of_order (omega arith)
      (tt, (tt, (tt, (refl, (refl, (refl, tt))))))

abbrev begun : List ProbeStep
begun = acquires 2 ∷ acquires 0 ∷ finishes 2 (answered 2) ∷ []

probe_steps-return_example :
    (after : List ProbeStep) × All (Follows answered) after
    × ((probe_steps after (probe_steps begun (start_probes 3 2))).waiting ≡ [])
    × ((probe_steps after (probe_steps begun (start_probes 3 2))).holding ≡ [])
probe_steps-return_example = probe_steps-return answered 3 2 begun (omega arith)
