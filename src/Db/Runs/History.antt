-- ===== src/Db/Runs/History.antt =====
-- Any history of runs: their sessions keep the names that the runs generate, unless they are given one.
use proxy_sampler.Prelude.{
  ℕ, ◌≡◌, refl, sym, ◌∙◌, subst, true, false, ◌==◌, ==_iff, List, [], ◌∷◌, map, Option, none, some,
  Text, Map, keys, lookup, insert, delete, is_some, insert-Distinct, delete-Distinct, contains-keys,
  contains, Distinct, nat_eq, list_eq, All, All-map, Option-cases, Sum-cases, Bool-cases, if-cases,
  ◌⊎◌, inl, inr, arith, count,
}
use proxy_sampler.Db.Store.{StoreError}
use proxy_sampler.Db.Runs.{
  Run, ChildSession, ChildRow, Tables, child_id, CreateAnswer, child_row, insert_children,
  create_run, renamed, RenameAnswer, in_run, rename_run, rename_session, without_run, delete_run,
}
use proxy_sampler.Db.Runs.Rows.{keeps_name, renamed_all-IsSameChild}
use proxy_sampler.Db.Runs.Names.{
  fits, IsNamed, fits-renamed_all, fits-insert_other, fits-insert_this, fits-absent, fits-delete,
}
use proxy_sampler.Db.Runs.Renaming.{rename_run-IsNamed}

abbrev Decoder : Type 0
Decoder = Text → Option (Map Text Text)

-- The children that are inserted with a run have the names that it generates.
abbrev pub IsGenerated : Decoder → Run → ChildSession → Type 0
IsGenerated decode run child = keeps_name decode run.name (child_row run.id child) ≡ true

abbrev stored : List ChildRow → StoreError ⊎ List ChildRow
stored cs = inr cs

stored_inj : {a b : List ChildRow} → stored a ≡ stored b → a ≡ b
stored_inj h = cc

insert_children-fits :
    (decode : Decoder) (child_error : ℕ → Option Text) (run : Run) (runs : Map ℕ Run)
    (children : List ChildSession) (rows out : List ChildRow)
    → All (IsGenerated decode run) children
    → Distinct (map child_id rows)
    → All (λ c. fits decode (insert run.id run runs) c ≡ true) rows
    → insert_children child_error run.id children rows ≡ inr out
    → Distinct (map child_id out) × All (λ c. fits decode (insert run.id run runs) c ≡ true) out
unfolding insert_children
insert_children-fits decode child_error run runs [] rows out g d f e =
    subst
      (λ cs.
        Distinct (map child_id cs) × All (λ c. fits decode (insert run.id run runs) c ≡ true) cs)
      (stored_inj e) (d, f)
insert_children-fits decode child_error run runs (child ∷ children) rows out g d f e =
    elim (Option-cases (child_error child.session.id)) [
      | inr (x, h) ↦ absurd (ground (arith, h, e))
      | inl h ↦
          elim (Bool-cases (contains (map child_id rows) (child_id (child_row run.id child)))) [
            | inl k ↦ absurd (ground (arith, h, k, e))
            | inr k ↦
                insert_children-fits decode child_error run runs children
                  (child_row run.id child ∷ rows) out g.1 (k, d)
                  (
                    fits-insert_this decode run.id run runs (child_row run.id child)
                        ((==_iff run.id run.id).1 refl) g.0,
                    f,
                  )
                  (ground (arith, h, k, e))
          ]
    ]

create_run-IsNamed :
    (decode : Decoder) (answer : CreateAnswer) (run : Run) (children : List ChildSession)
    (db : Tables)
    → All (IsGenerated decode run) children
    → IsNamed decode db
    → IsNamed decode ((create_run answer run children db).0)
unfolding create_run
create_run-IsNamed decode answer run children db g n = elim (Option-cases answer.begin_error) [
  | inr (x, e) ↦ subst (IsNamed decode) (sym (ground (arith, e))) n
  | inl e ↦ elim (Option-cases answer.run_error) [
    | inr (x, f) ↦ subst (IsNamed decode) (sym (ground (arith, e, f))) n
    | inl f ↦ elim (Bool-cases (contains (keys db.runs) run.id)) [
      | inl h ↦ subst (IsNamed decode) (sym (ground (arith, e, f, h))) n
      | inr h ↦ elim (Sum-cases (insert_children answer.child_error run.id children db.children)) [
        | inl (x, k) ↦ subst (IsNamed decode) (sym (ground (arith, e, f, h, k))) n
        | inr (rows, k) ↦ elim (Option-cases answer.commit_error) [
          | inr (x, l) ↦ subst (IsNamed decode) (sym (ground (arith, e, f, h, k, l))) n
          | inl l ↦
              let absent =
                Option-none (lookup run.id db.runs) (sym (contains-keys run.id db.runs) ∙ h) in
              let stored =
                insert_children-fits decode answer.child_error run db.runs children db.children rows
                  g n.distinct
                  (All-map _ _
                    (λ c q.
                      fits-insert_other decode run.id run db.runs c
                        (fits-absent decode run.id db.runs c absent q) q)
                    db.children n.named)
                  k in
              subst (IsNamed decode) (sym (ground (arith, e, f, h, k, l))) (record {
                distinct = stored.0;
                run_ids = insert-Distinct run.id run db.runs n.run_ids;
                named = stored.1;
              })
        ]
      ]
    ]
  ]
]
  where
    Option-none : (o : Option Run) → is_some o ≡ false → o ≡ none
    Option-none none h = refl
    Option-none (some r) h = absurd (ground arith)

renamed_rows :
    (decode : Decoder) (runs : Map ℕ Run) (e : ℕ × Text) (cs : List ChildRow)
    → All (λ c. fits decode runs c ≡ true) cs
    → (map child_id (map (renamed e) cs) ≡ map child_id cs)
      × All (λ c. fits decode runs c ≡ true) (map (renamed e) cs)
renamed_rows decode runs e [] h = (refl, tt)
renamed_rows decode runs e (c ∷ cs) h =
    let rest = renamed_rows decode runs e cs h.1 in
    let same = (renamed_all-IsSameChild (e ∷ []) c).same_id in
    ((let ids = rest.0 in cc), (fits-renamed_all decode runs (e ∷ []) c h.0, rest.1))

rename_session-IsNamed :
    (decode : Decoder) (answer : Option Text) (id : ℕ) (name : Text) (db : Tables)
    → IsNamed decode db
    → IsNamed decode ((rename_session answer id name db).0)
unfolding rename_session
rename_session-IsNamed decode answer id name db n = elim (Option-cases answer) [
  | inr (x, e) ↦ subst (IsNamed decode) (sym (ground (arith, e))) n
  | inl e ↦ elim (Bool-cases (count (λ c. child_id c == id) db.children == 0)) [
    | inl f ↦ subst (IsNamed decode) (sym (ground (arith, e, f))) n
    | inr f ↦
        let rows = renamed_rows decode db.runs (id, name) db.children n.named in
        subst (IsNamed decode) (sym (ground (arith, e, f))) (record {
          distinct = subst Distinct (sym rows.0) n.distinct;
          run_ids = n.run_ids;
          named = rows.1;
        })
  ]
]

without_run-absent :
    (id i : ℕ) (cs : List ChildRow)
    → contains (map child_id cs) i ≡ false
    → contains (map child_id (without_run id cs)) i ≡ false
without_run-absent id i [] h = refl
without_run-absent id i (c ∷ cs) h = ground (arith, without_run-absent id i cs)

without_run-Distinct :
    (id : ℕ) (cs : List ChildRow)
    → Distinct (map child_id cs)
    → Distinct (map child_id (without_run id cs))
without_run-Distinct id [] d = tt
without_run-Distinct id (c ∷ cs) d =
    if-cases (λ ds. Distinct (map child_id ds)) (in_run id c) (λ r. without_run-Distinct id cs d.1)
      (λ r. (without_run-absent id (child_id c) cs d.0, without_run-Distinct id cs d.1))

without_run-fits :
    (decode : Decoder) (id : ℕ) (runs : Map ℕ Run) (cs : List ChildRow)
    → Distinct (keys runs)
    → All (λ c. fits decode runs c ≡ true) cs
    → All (λ c. fits decode (delete id runs) c ≡ true) (without_run id cs)
without_run-fits decode id runs [] d h = tt
without_run-fits decode id runs (c ∷ cs) d h =
    if-cases (All (λ c. fits decode (delete id runs) c ≡ true)) (in_run id c)
      (λ r. without_run-fits decode id runs cs d h.1)
      (λ r. (fits-delete decode id runs c d r h.0, without_run-fits decode id runs cs d h.1))

delete_run-IsNamed :
    (decode : Decoder) (answer : Option Text) (id : ℕ) (db : Tables)
    → IsNamed decode db
    → IsNamed decode ((delete_run answer id db).0)
unfolding delete_run
delete_run-IsNamed decode (some e) id db n = n
delete_run-IsNamed decode none id db n = record {
  distinct = without_run-Distinct id db.children n.distinct;
  run_ids = delete-Distinct id db.runs n.run_ids;
  named = without_run-fits decode id db.runs db.children n.run_ids n.named;
}

-- One call.
pub data Op : Type 0 where
  creates : CreateAnswer → Run → List ChildSession → Op
  renames_run : RenameAnswer → ℕ → Text → Op
  renames_session : Option Text → ℕ → Text → Op
  deletes_run : Option Text → ℕ → Op

abbrev pub apply : Decoder → Op → Tables → Tables
apply decode (creates answer run children) db = (create_run answer run children db).0
apply decode (renames_run answer id name) db = (rename_run decode answer id name db).0
apply decode (renames_session answer id name) db = (rename_session answer id name db).0
apply decode (deletes_run answer id) db = (delete_run answer id db).0

abbrev pub apply_all : Decoder → List Op → Tables → Tables
apply_all decode [] db = db
apply_all decode (op ∷ ops) db = apply_all decode ops (apply decode op db)

abbrev pub IsAllowed : Decoder → Op → Type 0
IsAllowed decode (creates answer run children) = All (IsGenerated decode run) children
IsAllowed decode (renames_run answer id name) = Unit
IsAllowed decode (renames_session answer id name) = Unit
IsAllowed decode (deletes_run answer id) = Unit

apply-IsNamed :
    (decode : Decoder) (op : Op) (db : Tables)
    → IsAllowed decode op
    → IsNamed decode db
    → IsNamed decode (apply decode op db)
apply-IsNamed decode (creates answer run children) db a n =
    create_run-IsNamed decode answer run children db a n
apply-IsNamed decode (renames_run answer id name) db a n =
    rename_run-IsNamed decode answer id name db n
apply-IsNamed decode (renames_session answer id name) db a n =
    rename_session-IsNamed decode answer id name db n
apply-IsNamed decode (deletes_run answer id) db a n = delete_run-IsNamed decode answer id db n

-- Over any history of runs that are created, renamed and deleted and of sessions that are renamed,
-- also in the middle of a renaming of their run, and whatever fails: if the children that are created
-- have the names that their run generates, each session of a run has the name that the run's present
-- name generates from its parameters, or has been given one, or has parameters that cannot be read;
-- every session's run is there; and no id stands twice.
pub apply_all-IsNamed :
    (decode : Text → Option (Map Text Text)) (ops : List Op) (db : Tables)
    → All (IsAllowed decode) ops
    → IsNamed decode db
    → IsNamed decode (apply_all decode ops db)
apply_all-IsNamed decode [] db a n = n
apply_all-IsNamed decode (op ∷ ops) db a n =
    apply_all-IsNamed decode ops (apply decode op db) a.1 (apply-IsNamed decode op db a.0 n)
