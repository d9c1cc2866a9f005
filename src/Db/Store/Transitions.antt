-- ===== src/Db/Store/Transitions.antt =====
-- What the transitions of a session's row keep, and what their answers tell.
use proxy_sampler.Prelude.{
  ℕ, ◌+◌, ◌<◌, ◌≡◌, ◌≢◌, refl, ap, ◌∙◌, Bool, not, ◌&&◌, ◌==◌, List, [], ◌∷◌, map, Option, none,
  some, Text, count, arith, if-cases,
}
use proxy_sampler.Go.Time.{Time}
use proxy_sampler.Db.Columns.{Row}
use proxy_sampler.Db.Store.{
  StoreError, update_where, is_running, has_id, transition, stopped_row, finished_row,
  reenabled_row, stop, finish_session, reenable, rename,
}

-- The operations on a row's status and name, each with what Postgres answers.
pub data Op : Type 0 where
  stops : Option Text → ℕ → Time → Op
  finishes : Option Text → ℕ → Time → Op
  reenables : Option Text → Option Text → ℕ → Time → Op
  renames : Option Text → ℕ → Text → Op

unfoldable pub apply : Op → List Row → List Row × Option StoreError
apply (stops a id at) rows = stop a id at rows
apply (finishes a id at) rows = finish_session a id at rows
apply (reenables a b id at) rows = reenable a b id at rows
apply (renames a id name) rows = rename a id name rows

unfoldable pub apply_all : List Op → List Row → List Row
apply_all [] rows = rows
apply_all (o ∷ os) rows = apply_all os (apply o rows).0

-- How many samples a session has ever taken: those of the runs before, and of this one.
abbrev pub total_samples : Row → ℕ
total_samples r = r.sequence_offset + r.samples_taken

abbrev pub id_and_total : Row → ℕ × ℕ
id_and_total r = (r.id, total_samples r)

update_where-map :
    (p : Row → Bool) (f : Row → Row) (rows : List Row)
    → ((r : Row) → id_and_total (f r) ≡ id_and_total r)
    → map id_and_total (update_where p f rows) ≡ map id_and_total rows
update_where-map p f [] h = refl
update_where-map p f (r ∷ rows) h =
    ap (λ t. t ∷ map id_and_total (update_where p f rows))
      (if-cases (λ x. id_and_total x ≡ id_and_total r) (p r) (λ _. h r) (λ _. refl))
    ∙ ap (◌∷◌ (id_and_total r)) (update_where-map p f rows h)

transition-map :
    (a : Option Text) (p : Row → Bool) (f : Row → Row) (e : StoreError) (rows : List Row)
    → ((r : Row) → id_and_total (f r) ≡ id_and_total r)
    → map id_and_total (transition a p f e rows).0 ≡ map id_and_total rows
unfolding transition
transition-map (some x) p f e rows h = refl
transition-map none p f e rows h =
    if-cases (λ (x : List Row × Option StoreError). map id_and_total x.0 ≡ map id_and_total rows)
      (count p rows == 0) (λ _. refl) (λ _. update_where-map p f rows h)

apply-map : (o : Op) (rows : List Row) → map id_and_total (apply o rows).0 ≡ map id_and_total rows
unfolding apply stop finish_session reenable rename
apply-map (stops a id at) rows = transition-map a _ (stopped_row at) _ rows (λ r. refl)
apply-map (finishes a id at) rows = transition-map a _ (finished_row at) _ rows (λ r. refl)
apply-map (reenables a b id at) rows =
    transition-map a _ (reenabled_row at) _ rows (λ r. ap (λ n. (r.id, n)) (omega arith))
apply-map (renames a id name) rows = transition-map a _ _ _ rows (λ r. refl)

-- Over any history of stopping, finishing, re-enabling and renaming, each session keeps its identity
-- and how many samples it has ever taken, so that re-enabling continues the numbers of its samples.
pub apply_all-map :
    (os : List Op) (rows : List Row) → map id_and_total (apply_all os rows) ≡ map id_and_total rows
unfolding apply_all
apply_all-map [] rows = refl
apply_all-map (o ∷ os) rows = apply_all-map os (apply o rows).0 ∙ apply-map o rows

-- The rows that an operation may change.
abbrev pub eligible : Op → Row → Bool
eligible (stops a id at) r = has_id id r && is_running r.status
eligible (finishes a id at) r = has_id id r && is_running r.status
eligible (reenables a b id at) r = has_id id r && not (is_running r.status)
eligible (renames a id name) r = has_id id r

transition-Reports :
    (a : Option Text) (p : Row → Bool) (f : Row → Row) (e : StoreError) (rows : List Row)
    → ((transition a p f e rows).1 ≡ none → 0 < count p rows)
      × ((transition a p f e rows).1 ≢ none → (transition a p f e rows).0 ≡ rows)
unfolding transition
transition-Reports (some x) p f e rows = ground arith
transition-Reports none p f e rows = ground arith

-- An operation that reports no error found a row it may change, of the session and in the status it
-- starts from; one that reports an error has changed no row.
pub apply-Reports :
    (o : Op) (rows : List Row)
    → ((apply o rows).1 ≡ none → 0 < count (eligible o) rows)
      × ((apply o rows).1 ≢ none → (apply o rows).0 ≡ rows)
unfolding apply stop finish_session reenable rename
apply-Reports (stops a id at) rows = transition-Reports a _ _ _ rows
apply-Reports (finishes a id at) rows = transition-Reports a _ _ _ rows
apply-Reports (reenables a b id at) rows = transition-Reports a _ _ _ rows
apply-Reports (renames a id name) rows = transition-Reports a _ _ _ rows
