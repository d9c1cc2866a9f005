-- ===== src/Sampler/Probes.antt =====
-- internal/sampler/worker.go: `runOrderedProbes`. Its goroutines acquire the semaphore, give up when
-- the context is done, or finish with a result, in any order; each writes at its own index.
pub mod Order
pub mod Return
use proxy_sampler.Prelude.{
  ℕ, zero, suc, ◌+◌, ◌*◌, ◌≤◌, ◌<◌, ◌≡◌, ◌⊎◌, inl, inr, refl, sym, ap, ◌∙◌, subst, Bool, true,
  false, ◌&&◌, ◌||◌, ◌==◌, ltb, List, [], ◌∷◌, ◌++◌, Option, none, some, Text, arith, pos, length,
  length-snoc, length-replicate, replicate, get_or, All, contains, remove, contains-remove, nat_eq,
  if◌then◌else◌, if-cases, not, Bool-cases, ==_iff, ◌=?◌,
}
use proxy_sampler.Go.Addr.{invalid}
use proxy_sampler.Sampler.Aggregate.{ProbeResult}
use proxy_sampler.Sampler.Worker.{probe_results}

abbrev pub no_result : ProbeResult
no_result = record { ip = invalid; country = []; colo = []; rtt = pos 0; err = none }

abbrev pub error_result : Text → ProbeResult
error_result e = record no_result { err = some e }

abbrev pub set_at : List ProbeResult → ℕ → ProbeResult → List ProbeResult
set_at [] i r = []
set_at (x ∷ xs) zero r = r ∷ xs
set_at (x ∷ xs) (suc i) r = x ∷ set_at xs i r

-- The goroutines that wait for the semaphore and those that hold it, by index.
pub record Probing : Type 0 where
  pub waiting : List ℕ
  pub holding : List ℕ
  pub results : List ProbeResult
  pub limit : ℕ

abbrev pub indexes : ℕ → List ℕ
indexes zero = []
indexes (suc n) = indexes n ++ n ∷ []

-- No goroutine is started for no probes, or without a limit above 0.
unfoldable pub start_probes : ℕ → ℕ → Probing
start_probes count limit = record {
  waiting = if (count == 0) || (limit == 0) then [] else indexes count;
  holding = [];
  results = replicate count no_result;
  limit = limit;
}

pub data ProbeStep : Type 0 where
  acquires : ℕ → ProbeStep
  gives_up : ℕ → Text → ProbeStep
  finishes : ℕ → ProbeResult → ProbeStep

-- A step that its goroutine cannot take changes nothing.
unfoldable pub probe_step : ProbeStep → Probing → Probing
probe_step (acquires i) s =
    if contains s.waiting i && ltb (length s.holding) s.limit
    then record s { waiting = remove s.waiting i; holding = i ∷ s.holding }
    else s
probe_step (gives_up i e) s =
    if contains s.waiting i
    then record s { waiting = remove s.waiting i; results = set_at s.results i (error_result e) }
    else s
probe_step (finishes i r) s =
    if contains s.holding i
    then record s { holding = remove s.holding i; results = set_at s.results i r }
    else s

unfoldable pub probe_steps : List ProbeStep → Probing → Probing
probe_steps [] s = s
probe_steps (a ∷ as') s = probe_steps as' (probe_step a s)

-- The step writes what the index is answered.
abbrev pub Follows : (ℕ → ProbeResult) → ProbeStep → Type 0
Follows answer (acquires i) = Unit
Follows answer (gives_up i e) = answer i ≡ error_result e
Follows answer (finishes i r) = answer i ≡ r
