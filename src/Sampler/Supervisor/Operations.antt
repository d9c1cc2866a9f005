-- ===== src/Sampler/Supervisor/Operations.antt =====
-- Every operation of the supervisor keeps the protocol, and gives back what it holds.
use mathlib.Core.Bool.{false≢true}
use proxy_sampler.Prelude.{
  ℕ, zero, suc, Bool, true, not, ◌≡◌, refl, ap, ◌∙◌, List, [], ◌∷◌, Option, none, some, Text, codes,
  inl, contains, nat_eq, if◌then◌else◌, arith, ==_iff,
}
use proxy_sampler.Session.{Status}
use proxy_sampler.Db.Columns.{option_map}
use proxy_sampler.Db.Store.{is_running}
use proxy_sampler.Sampler.Supervisor.Sections.{Refusal}
use proxy_sampler.Sampler.Supervisor.Flows.{
  Failure, wrapped, is_closed, Flow, return, ◌>>=◌, call, ◌orelse◌, acquire, release, retry_later,
  start_current, with_session_operation, stop_with_ownership, clear, delete_sessions,
  delete_session, stop_session, start_session, reenable_session, forget_stale, resume_all, resume,
  attempt, recover_loop, recover_after_exit,
}
use proxy_sampler.Sampler.Supervisor.Protocol.{
  Progress, no_progress, may_acquire, may_release, tail_of, says_quiet, quieted, Keeps, allow,
  Keeps-map, Keeps-bind,
}
use proxy_sampler.Sampler.Supervisor.Starting.{
  IsSame, on_option, on_sum, start_current-Keeps, Keeps-if, quieted-IsSame, still,
}
use proxy_sampler.Sampler.Supervisor.Stopping.{stop_with_ownership-Keeps, quieted-quiet}
use proxy_sampler.Sampler.Supervisor.Deleting.{
  IsCleared, orelse-Keeps, clear-Keeps, with_session_operation-Keeps, delete_sessions-Keeps,
}

-- The calls of a supervisor's methods.
pub data Operation : Type 0 where
  resume_call : Operation
  start_call reenable_call : ℕ → Operation
  stop_call delete_call : ℕ → Text → ℕ → Operation
  delete_many_call : ℕ → Text → List ℕ → Operation
  recover_call : ℕ → ℕ → ℕ → Operation

unfoldable pub perform : Operation → Flow (Option Failure)
perform resume_call = resume
perform (start_call id) = start_session id
perform (reenable_call id) = reenable_session id
perform (stop_call waits deadline id) = stop_session waits deadline id
perform (delete_call waits deadline id) = delete_session waits deadline id
perform (delete_many_call waits deadline ids) = delete_sessions waits deadline ids
perform (recover_call rounds id pointer) = recover_after_exit rounds id pointer

abbrev pub IsReleased : Progress → Option Failure → Type 0
IsReleased p r = p.held ≡ []

-- An operation under one lock that keeps what is held.
locked-Keeps :
    (p : Progress) (id : ℕ) (operation : Flow (Option Failure))
    → p.held ≡ []
    → ((q : Progress) → contains q.held id ≡ true → Keeps q operation (λ q' r. q'.held ≡ q.held))
    → Keeps p (with_session_operation id operation) IsReleased
locked-Keeps p id operation free run =
    Keeps-map p (with_session_operation id operation) _ _ (λ p' r c. c.0 ∙ free)
      (with_session_operation-Keeps [] p id operation (ap (λ l. may_acquire l id) free) (λ q held.
        Keeps-map q operation _ _ (λ q' r c. (c, λ _. refl))
          (run q (ap (λ l. contains l id) held ∙ ground (arith, ==_iff id id)))))

start_session-Keeps : (p : Progress) (id : ℕ) → p.held ≡ [] → Keeps p (start_session id) IsReleased
unfolding start_session
start_session-Keeps p id free =
    on_option _
      (locked-Keeps p id _ free (λ q mine.
        Keeps-bind q (start_current id) _ _
          (Keeps-map q (start_current id) _ _ (λ q' r c. c.0.0) (start_current-Keeps q id mine))))
      (λ e. free)

reenable_session-Keeps :
    (p : Progress) (id : ℕ) → p.held ≡ [] → Keeps p (reenable_session id) IsReleased
unfolding reenable_session
reenable_session-Keeps p id free =
    on_option _ (on_option _ (start_session-Keeps p id free) (λ e. free)) (λ e. free)

-- A worker is started between an acquisition and its release.
visit-Keeps :
    (p : Progress) (id : ℕ) (context : Refusal → Failure)
    (rest : Bool × Option Failure → Flow (Option Failure))
    → p.held ≡ []
    → ((q : Progress) (r : Bool × Option Failure) → q.held ≡ [] → Keeps q (rest r) IsReleased)
    → Keeps p
        (call (acquire id) >>= λ refusal.
          option_map context refusal
          orelse (start_current id >>= λ current. call (release id) >>= λ left. rest current))
        IsReleased
visit-Keeps p id context rest free go =
    let q = record p { held = id ∷ p.held } in
    let may : may_acquire p.held id ≡ true = ap (λ l. may_acquire l id) free in
    on_option _
      (allow (may_acquire p.held id) _ _ may (
        Keeps-bind q (start_current id) _ _ (
          Keeps-map q (start_current id) _ _
            (λ q' r c u.
              allow (may_release q'.held id) _ _
                (ap (λ l. may_release l id) c.0.0 ∙ (==_iff id id).1 refl)
                (go (record q' { held = tail_of q'.held }) r (ap tail_of c.0.0 ∙ free)))
            (start_current-Keeps q id (ground (arith, ==_iff id id))))))
      (λ r. allow (may_acquire p.held id) _ _ may free)

resume_all-Keeps :
    (values : List (ℕ × Status)) (p : Progress)
    → p.held ≡ []
    → Keeps p (resume_all values) IsReleased
unfolding resume_all
resume_all-Keeps [] p free = free
resume_all-Keeps ((id, status) ∷ values) p free =
    Keeps-if p (not (is_running status)) _ _ _ (λ _. resume_all-Keeps values p free)
      (λ _.
        visit-Keeps p id _ _ free
          (λ q r held. on_wrapped q (forget_stale r) held (resume_all-Keeps values q held)))
  where
    on_wrapped :
        (q : Progress) (e : Option Failure)
        → q.held ≡ []
        → Keeps q (resume_all values) IsReleased
        → Keeps q
            (option_map (wrapped (codes "resume session")) e orelse resume_all values)
            IsReleased
    on_wrapped q none held k = k
    on_wrapped q (some f) held k = held

recover_loop-Keeps :
    (rounds id : ℕ) (p : Progress) → p.held ≡ [] → Keeps p (recover_loop rounds id) IsReleased
unfolding recover_loop
recover_loop-Keeps zero id p free = free
recover_loop-Keeps (suc rounds) id p free = Keeps-bind p (attempt id) _ _ (
    Keeps-map p (attempt id) _ _
      (λ q e held. next q e held (λ q' held'. recover_loop-Keeps rounds id q' held'))
      (visit-Keeps p id _ _ free (λ q r held. held)))
  where
    next :
        (q : Progress) (e : Option Failure)
        → q.held ≡ []
        → ((q' : Progress) → q'.held ≡ [] → Keeps q' (recover_loop rounds id) IsReleased)
        → Keeps q
            (elim e [
              | none ↦ return none
              | some f ↦
                  if is_closed f
                  then return none
                  else (call retry_later >>= λ more.
                      if more then recover_loop rounds id else return none)
            ])
            IsReleased
    next q none held again = held
    next q (some f) held again =
        Keeps-if q (is_closed f) _ _ _ (λ _. held)
          (λ _ more. Keeps-if q more _ _ _ (λ _. again q held) (λ _. held))

stop_session-Keeps :
    (waits : ℕ) (deadline : Text) (p : Progress) (id : ℕ)
    → p.held ≡ []
    → Keeps p (stop_session waits deadline id) IsReleased
unfolding stop_session
stop_session-Keeps waits deadline p id free =
    locked-Keeps p id (stop_with_ownership waits deadline id) free (λ q mine.
      Keeps-map q (stop_with_ownership waits deadline id) _ _ (λ q' r s. s.0.0)
        (stop_with_ownership-Keeps waits deadline q id mine))

-- Whatever happens, `Delete` of one session acts in the order of the protocol, and where it reports
-- no error the row is deleted.
delete_session-Keeps :
    (waits : ℕ) (deadline : Text) (id : ℕ)
    → Keeps no_progress (delete_session waits deadline id) (IsCleared (id ∷ []) no_progress)
unfolding delete_session
delete_session-Keeps waits deadline id =
    with_session_operation-Keeps (id ∷ []) no_progress id _ refl (λ p held.
      let mine : contains p.held id ≡ true =
        ap (λ l. contains l id) held ∙ ground (arith, ==_iff id id) in
      on_sum _
        (λ e.
          allow (contains p.held id) _ _ mine
            ((quieted-IsSame (says_quiet (inl e)) id p).0, λ f. absurd (false≢true f)))
        (λ status.
          let b = not (is_running status) in
          let q = quieted b id p in
          let kept : IsSame p q = quieted-IsSame b id p in
          let here : contains q.held id ≡ true = still p q id kept mine in
          allow (contains p.held id) _ _ mine (
            Keeps-if q b _ _ _ (λ quiet. cleared p q kept.0 here (quieted-quiet b id p quiet))
              (λ _. Keeps-bind q (stop_with_ownership waits deadline id) _ _ (
                Keeps-map q (stop_with_ownership waits deadline id) _ _
                  (λ q' e s.
                    orelse-Keeps q' e _ _
                      (λ ok. cleared p q' (s.0.0 ∙ kept.0) (still q q' id s.0 here) ((s.1 ok).0))
                      (λ f. (s.0.0 ∙ kept.0, λ x. absurd (false≢true x))))
                  (stop_with_ownership-Keeps waits deadline q id here))))))
  where
    cleared :
        (p q : Progress)
        → q.held ≡ p.held
        → contains q.held id ≡ true
        → contains q.quiet id ≡ true
        → Keeps q (clear (id ∷ [])) (IsCleared (id ∷ []) p)
    cleared p q held here quiet =
        Keeps-map q (clear (id ∷ [])) _ _ (λ p' r c. (c.0 ∙ held, c.1))
          (clear-Keeps q (id ∷ []) (ground arith) (ground arith))

-- Whatever the store, the workers, the sink, the reader and the other goroutines do, each operation
-- of the supervisor acts in the order of the protocol and holds no session at its end.
pub perform-Keeps : (o : Operation) → Keeps no_progress (perform o) IsReleased
unfolding perform resume recover_after_exit
perform-Keeps resume_call =
    on_sum _ (λ e. refl) (λ values. resume_all-Keeps values no_progress refl)
perform-Keeps (start_call id) = start_session-Keeps no_progress id refl
perform-Keeps (reenable_call id) = reenable_session-Keeps no_progress id refl
perform-Keeps (stop_call waits deadline id) = stop_session-Keeps waits deadline no_progress id refl
perform-Keeps (delete_call waits deadline id) =
    Keeps-map no_progress (delete_session waits deadline id) _ _ (λ p r c. c.0)
      (delete_session-Keeps waits deadline id)
perform-Keeps (delete_many_call waits deadline ids) =
    Keeps-map no_progress (delete_sessions waits deadline ids) _ _ (λ p r c. c.0)
      (delete_sessions-Keeps waits deadline ids)
perform-Keeps (recover_call rounds id pointer) = λ exited.
    Keeps-if no_progress exited _ _ _ (λ _. recover_loop-Keeps rounds id no_progress refl)
      (λ _. refl)
