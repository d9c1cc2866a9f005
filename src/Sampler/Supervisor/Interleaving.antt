-- ===== src/Sampler/Supervisor/Interleaving.antt =====
-- internal/sampler/supervisor.go: any number of operations, workers and recoveries, interleaved at the
-- sections under the mutex.
use proxy_sampler.Prelude.{
  ℕ, suc, ◌-◌, ◌≡◌, Bool, true, false, ◌==◌, ◌&&◌, ◌||◌, List, [], ◌∷◌, some, Text, nat_eq,
  if◌then◌else◌,
}
use proxy_sampler.Sampler.Supervisor.Sections.{
  Supervisor, entered, begin_operation, end_operation, published, publish, exit_worker, scheduled,
  schedule_recovery, close_down, new_supervisor,
}

-- The shared fields with the goroutines: the operations that are being performed, the workers that
-- have not left the map yet, the recoveries, each with its session and its pointer.
pub record System : Type 0 where
  pub shared : Supervisor
  pub inside : List (ℕ × ℕ)
  pub live : List (ℕ × ℕ)
  pub recoveries : List (ℕ × ℕ)
  pub next : ℕ

-- One goroutine ends.
abbrev pub drop : ℕ × ℕ → List (ℕ × ℕ) → List (ℕ × ℕ)
drop e [] = []
drop e (x ∷ xs) = if (x.0 == e.0) && (x.1 == e.1) then xs else x ∷ drop e xs

abbrev pub has : List (ℕ × ℕ) → ℕ × ℕ → Bool
has [] e = false
has (x ∷ xs) e = ((x.0 == e.0) && (x.1 == e.1)) || has xs e

pub data Step (s : System) : System → Type 0 where
  enter :
      (id : ℕ) (t : Supervisor)
      → begin_operation id s.next s.shared ≡ entered t
      → Step s (record s { shared = t; inside = (id, s.next) ∷ s.inside; next = suc s.next })
  leave :
      (id pointer : ℕ)
      → has s.inside (id, pointer) ≡ true
      → Step s (record s {
        shared = end_operation id pointer s.shared;
        inside = drop (id, pointer) s.inside;
      })
  launch :
      (id : ℕ) (t : Supervisor)
      → publish id s.next s.shared ≡ published t
      → Step s (record s { shared = t; live = (id, s.next) ∷ s.live; next = suc s.next })
  exit :
      (id pointer : ℕ)
      → has s.live (id, pointer) ≡ true
      → Step s
          (record s { shared = exit_worker id pointer s.shared; live = drop (id, pointer) s.live })
  schedule :
      (id pointer : ℕ) (t : Supervisor)
      → schedule_recovery id pointer s.shared ≡ scheduled t
      → Step s (record s { shared = t; recoveries = (id, pointer) ∷ s.recoveries })
  recovered :
      (id pointer : ℕ)
      → has s.recoveries (id, pointer) ≡ true
      → Step s (record s {
        shared = record s.shared { waiting = s.shared.waiting - 1 };
        recoveries = drop (id, pointer) s.recoveries;
      })
  wait : (cancelled : Text) → Step s (record s { shared = close_down cancelled s.shared })
  root_done :
      (e : Text)
      → Step s
          (record s { shared = record s.shared { root_error = some e; recovery_error = some e } })

pub data Reach (s : System) : System → Type 0 where
  here : Reach s s
  later : {t u : System} → Reach s t → Step t u → Reach s u

abbrev pub start : System
start = record { shared = new_supervisor; inside = []; live = []; recoveries = []; next = 0 }

abbrev pub ids : List (ℕ × ℕ) → List ℕ
ids [] = []
ids (e ∷ es) = e.0 ∷ ids es
