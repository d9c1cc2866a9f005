-- ===== src/Sampler/Supervisor/Stopping.antt =====
-- Stopping a worker keeps the protocol, and a stop that succeeds leaves the session quiet.
use mathlib.Core.Bool.{false≢true}
use proxy_sampler.Prelude.{
  ℕ, zero, suc, Bool, true, false, not, ◌&&◌, ◌≡◌, refl, sym, ◌∙◌, List, Option, none, some, Text,
  codes, inl, contains, remove, ◌∷◌, nat_eq, if◌then◌else◌, if-cases, arith, ==_iff,
}
use proxy_sampler.Db.Columns.{option_map}
use proxy_sampler.Db.Store.{
  StoreError, database, not_found, not_running, already_running, is_running,
}
use proxy_sampler.Sampler.Supervisor.Sections.{Refusal}
use proxy_sampler.Sampler.Supervisor.Flows.{
  Failure, of_store, of_refusal, is_not_running, Flow, return, start_current, is_gone, stop_round,
  stop_row, stop_worker, join_with, restore, stop_with_ownership,
}
use proxy_sampler.Sampler.Supervisor.Interleaving.{has}
use proxy_sampler.Sampler.Supervisor.Protocol.{
  Progress, says_quiet, says_stopped, quieted, Keeps, allow, Keeps-map, Keeps-bind,
}
use proxy_sampler.Sampler.Supervisor.Starting.{
  IsSame, on_option, on_sum, same, denies, start_current-Keeps, Keeps-if, quieted-IsSame,
  IsSame-trans, still,
}

-- A stop that did not fail leaves the session quiet, as all that were.
abbrev pub passes : Option Failure → Bool
passes none = true
passes (some e) = is_not_running e

abbrev pub Grows : List ℕ → List ℕ → Type 0
Grows xs ys = (j : ℕ) → contains xs j ≡ true → contains ys j ≡ true

abbrev pub IsStopped : ℕ → Progress → Progress → Option Failure → Type 0
IsStopped id p p' r =
    IsSame p p' × (passes r ≡ true → (contains p'.quiet id ≡ true) × Grows p.quiet p'.quiet)

pub quieted-Grows : (b : Bool) (id : ℕ) (p : Progress) → Grows p.quiet (quieted b id p).quiet
quieted-Grows true id p j h = ground arith
quieted-Grows false id p j h = h

pub quieted-quiet :
    (b : Bool) (id : ℕ) (p : Progress) → b ≡ true → contains (quieted b id p).quiet id ≡ true
quieted-quiet true id p h = ground (arith, ==_iff id id)
quieted-quiet false id p h = absurd (false≢true h)

IsStopped-quieted :
    (b : Bool) (id : ℕ) (p : Progress) (r : Option Failure)
    → (passes r ≡ true → b ≡ true)
    → IsStopped id p (quieted b id p) r
IsStopped-quieted b id p r h =
    (quieted-IsSame b id p, λ x. (quieted-quiet b id p (h x), quieted-Grows b id p))

IsStopped-after :
    (b : Bool) (id : ℕ) (p p' : Progress) (r : Option Failure)
    → IsStopped id (quieted b id p) p' r
    → IsStopped id p p' r
IsStopped-after b id p p' r s = (
  IsSame-trans p (quieted b id p) p' (quieted-IsSame b id p) s.0,
  λ x. let (quiet, grows) = s.1 x in (quiet, λ j h. grows j (quieted-Grows b id p j h)),
)

stop_says : (e : StoreError) → is_not_running (of_store e) ≡ says_stopped (some e)
unfolding is_not_running
stop_says (database t) = refl
stop_says not_found = refl
stop_says not_running = refl
stop_says already_running = refl

quieted-ended :
    (b : Bool) (id : ℕ) (p : Progress)
    → contains p.ended id ≡ true
    → contains (quieted b id p).ended id ≡ true
quieted-ended true id p h = h
quieted-ended false id p h = h

both : {a b : Bool} → a ≡ true → b ≡ true → (a && b) ≡ true
both h k = ground arith

stop_round-Keeps :
    (p : Progress) (id : ℕ) (again : StoreError → Flow (Option Failure))
    → contains p.held id ≡ true
    → contains p.ended id ≡ true
    → ((q : Progress) (e : StoreError)
        → contains q.held id ≡ true
        → contains q.ended id ≡ true
        → is_not_running (of_store e) ≡ false
        → Keeps q (again e) (IsStopped id q))
    → Keeps p (stop_round id again) (IsStopped id p)
stop_round-Keeps p id again h d rest =
    let may = contains p.held id && contains p.ended id in
    on_option _ (allow may _ _ (both h d) (IsStopped-quieted true id p none (λ x. x))) (λ e.
      let b = says_stopped (some e) in
      let q = quieted b id p in
      allow may _ _ (both h d) (
        Keeps-if q (is_not_running (of_store e)) _ _ _
          (λ stopped. IsStopped-quieted b id p (some (of_store e)) (λ x. sym (stop_says e) ∙ x))
          (λ more.
            Keeps-map q (again e) _ _ (IsStopped-after b id p)
              (rest q e (still p q id (quieted-IsSame b id p) h) (quieted-ended b id p d) more))))

pub stop_row-Keeps :
    (waits : ℕ) (deadline : Text) (p : Progress) (id : ℕ)
    → contains p.held id ≡ true
    → contains p.ended id ≡ true
    → Keeps p (stop_row waits deadline id) (IsStopped id p)
unfolding stop_row is_not_running
stop_row-Keeps zero deadline p id h d =
    stop_round-Keeps p id _ h d (λ q e k l more. (same q, λ x. absurd (false≢true (ground arith))))
stop_row-Keeps (suc waits) deadline p id h d =
    stop_round-Keeps p id _ h d (λ q e k l more. stop_row-Keeps waits deadline q id k l)

says-quiet : (e : StoreError) → is_not_running (of_store e) ≡ true → says_quiet (inl e) ≡ true
unfolding is_not_running
says-quiet (database t) h = absurd (false≢true h)
says-quiet not_found h = refl
says-quiet not_running h = refl
says-quiet already_running h = absurd (false≢true h)

pub stop_worker-Keeps :
    (waits : ℕ) (deadline : Text) (p : Progress) (id : ℕ)
    → contains p.held id ≡ true
    → Keeps p (stop_worker waits deadline id) (λ p' r. IsStopped id p p' r.1.1)
unfolding stop_worker is_not_running
stop_worker-Keeps waits deadline p id h =
    let here : contains (id ∷ p.ended) id ≡ true = ground (arith, ==_iff id id) in
    let alone = record p { ended = id ∷ p.ended } in
    on_option _
      (allow (contains p.held id) _ _ h (
        on_sum _
          (λ e.
            allow (contains p.held id) _ _ h
              (IsStopped-quieted (says_quiet (inl e)) id alone (some (of_store e)) (says-quiet e)))
          (λ status.
            let b = not (is_running status) in
            let q = quieted b id alone in
            allow (contains p.held id) _ _ h (
              Keeps-if q b _ _ _
                (λ quiet. IsStopped-quieted b id alone (some (of_store not_running)) (λ _. quiet))
                (λ _. Keeps-bind q (stop_row waits deadline id) _ _ (
                  Keeps-map q (stop_row waits deadline id) _ _ (IsStopped-after b id alone) (
                    stop_row-Keeps waits deadline q id
                      (still alone q id (quieted-IsSame b id alone) h)
                      (quieted-ended b id alone here))))))))
      (λ owner.
        let shown = record p { found = (id, owner.0) ∷ p.found; ended = remove p.ended id } in
        let gone = record shown { ended = id ∷ shown.ended } in
        let known : (contains p.held id && has shown.found (id, owner.0)) ≡ true =
          ground (arith, ==_iff id id, ==_iff (owner.0) (owner.0)) in
        let last : contains gone.ended id ≡ true = ground (arith, ==_iff id id) in
        allow (contains p.held id) _ _ h (
          on_option _
            (allow (contains p.held id && has shown.found (id, owner.0)) _ _ known (
              Keeps-bind gone (stop_row waits deadline id) _ _
                (stop_row-Keeps waits deadline gone id h last)))
            (λ e.
              allow (contains p.held id && has shown.found (id, owner.0)) _ _ known
                ((refl, refl), λ x. absurd (false≢true x)))))

-- The errors of a restoration never say that the session is not running.
join_with-passes :
    (e : Failure) (context : Text) (r : Option Failure)
    → is_not_running e ≡ false
    → denies r ≡ true
    → passes (join_with e context r) ≡ false
unfolding is_not_running
join_with-passes e context none h d = h
join_with-passes e context (some f) h d = ground arith

refusal_denies : (r : Option Refusal) → denies (option_map of_refusal r) ≡ true
unfolding is_not_running
refusal_denies none = refl
refusal_denies (some r) = refl

abbrev IsFailed : Progress → Progress → Option Failure → Type 0
IsFailed p p' r = IsSame p p' × (passes r ≡ false)

restored :
    (stale : Bool) (e : Failure) (r : Option Failure)
    → is_not_running e ≡ false
    → (stale && is_gone r ≡ false → denies r ≡ true)
    → passes
        (if stale && is_gone r then some e else join_with e (codes "restore worker ownership") r)
      ≡ false
restored stale e r h d =
    if-cases (λ x. passes x ≡ false) (stale && is_gone r) (λ _. h)
      (λ fresh. join_with-passes e (codes "restore worker ownership") r h (d fresh))

restore-Keeps :
    (p : Progress) (id : ℕ) (prepared delayed : Option ℕ) (e : Failure)
    → contains p.held id ≡ true
    → is_not_running e ≡ false
    → Keeps p (restore id prepared delayed e) (IsFailed p)
unfolding restore
restore-Keeps p id prepared (some pointer) e h k =
    λ r. (same p, join_with-passes e (codes "schedule worker recovery") _ k (refusal_denies r))
restore-Keeps p id (some q) none e h k =
    on_option _ (allow (contains p.held id) _ _ h ((refl, refl), k)) (λ r.
      allow (contains p.held id) _ _ h (
        (refl, refl),
        join_with-passes e (codes "restore worker ownership") (some (of_refusal r)) k
            (refusal_denies (some r)),
      ))
restore-Keeps p id none none e h k = Keeps-bind p (start_current id) _ _ (
    Keeps-map p (start_current id) _ _ (λ q r c. (c.0, restored r.0 e r.1 k c.1))
      (start_current-Keeps p id h))

IsStopped-failed :
    (id : ℕ) (p q p' : Progress) (r : Option Failure)
    → IsSame p q
    → IsFailed q p' r
    → IsStopped id p p' r
IsStopped-failed id p q p' r a f =
    (IsSame-trans p q p' a f.0, λ x. absurd (false≢true (sym f.1 ∙ x)))

pub stop_with_ownership-Keeps :
    (waits : ℕ) (deadline : Text) (p : Progress) (id : ℕ)
    → contains p.held id ≡ true
    → Keeps p (stop_with_ownership waits deadline id) (IsStopped id p)
unfolding stop_with_ownership
stop_with_ownership-Keeps waits deadline p id h = Keeps-bind p (stop_worker waits deadline id) _ _ (
    Keeps-map p (stop_worker waits deadline id) _ _ ending
      (stop_worker-Keeps waits deadline p id h))
  where
    ending :
        (q : Progress) (r : Option ℕ × (Option ℕ × Option Failure))
        → IsStopped id p q r.1.1
        → Keeps q
            (elim r.1.1 [
              | none ↦ return none
              | some e ↦ if is_gone (some e) then return (some e) else restore id r.0 r.1.0 e
            ])
            (IsStopped id p)
    ending q (prepared, (delayed, none)) s = s
    ending q (prepared, (delayed, some e)) s =
        Keeps-if q (is_gone (some e)) _ _ _ (λ _. s)
          (λ kept.
            Keeps-map q (restore id prepared delayed e) _ _
              (λ p' r. IsStopped-failed id p q p' r s.0)
              (restore-Keeps q id prepared delayed e (still p q id s.0 h) (ground arith)))
