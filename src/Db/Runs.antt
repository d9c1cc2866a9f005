-- ===== src/Db/Runs.antt =====
-- internal/db/runs.go with query/runs.sql: runs and their sessions, with what Postgres answers and Go's
-- reading of JSON as arguments.
pub mod Summary
pub mod Rows
pub mod Cascade
pub mod Targets
pub mod Names
pub mod Renaming
pub mod History
pub mod Tests
use proxy_sampler.Prelude.{
  ℕ, Bool, true, false, not, ◌&&◌, ◌||◌, ◌==◌, ltb, List, [], ◌∷◌, ◌++◌, map, length, count, Option,
  none, some, Text, codes, Map, keys, lookup, insert, delete, contains, is_nil, nat_eq, list_eq,
  ◌=?◌, ◌⊎◌, inl, inr, if◌then◌else◌,
}
use proxy_sampler.Go.Time.{Time}
use proxy_sampler.Session.{Session, Status, running, stopped, finished}
use proxy_sampler.Db.Columns.{Row, insert_params}
use proxy_sampler.Db.Store.{StoreError, database, not_found, is_running, update_where}
use proxy_sampler.Variation.Template.{variant_name}

pub record Run : Type 0 where
  pub id : ℕ
  pub name : Text
  pub template_ciphertext : List ℕ
  pub template_nonce : List ℕ
  pub template_display : Text
  pub axes : Text
  pub created_at : Time

-- `ChildSession`, and the row of a session with the columns that tie it to a run.
pub record ChildSession : Type 0 where
  pub session : Session
  pub params : Text
  pub cell_key : Text

pub record ChildRow : Type 0 where
  pub row : Row
  pub run_id : Option ℕ
  pub variant_params : Text
  pub cell_key : Text

-- The two tables.
pub record Tables : Type 0 where
  pub runs : Map ℕ Run
  pub children : List ChildRow

abbrev pub child_id : ChildRow → ℕ
child_id c = c.row.id

abbrev pub duplicate_key : StoreError
duplicate_key = database (codes "duplicate key")

-- What Postgres answers to the statements of `CreateRun`.
pub record CreateAnswer : Type 0 where
  pub begin_error : Option Text
  pub run_error : Option Text
  pub child_error : ℕ → Option Text
  pub commit_error : Option Text

abbrev pub child_row : ℕ → ChildSession → ChildRow
child_row run_id child = record {
  row = record (insert_params child.session) { name_customized = false };
  run_id = some run_id;
  variant_params = child.params;
  cell_key = child.cell_key;
}

-- The loop over the children. The id is the primary key.
unfoldable pub insert_children :
    (ℕ → Option Text) → ℕ → List ChildSession → List ChildRow → StoreError ⊎ List ChildRow
insert_children child_error run_id [] rows = inr rows
insert_children child_error run_id (child ∷ children) rows = elim (child_error child.session.id) [
  | some e ↦ inl (database e)
  | none ↦
      let rest = insert_children child_error run_id children (child_row run_id child ∷ rows) in
      if contains (map child_id rows) (child_id (child_row run_id child))
      then inl duplicate_key
      else rest
]

unfoldable pub create_run :
    CreateAnswer → Run → List ChildSession → Tables → Tables × Option StoreError
create_run answer run children db = elim answer.begin_error [
  | some e ↦ (db, some (database e))
  | none ↦ elim answer.run_error [
    | some e ↦ (db, some (database e))
    | none ↦
        if contains (keys db.runs) run.id
        then (db, some duplicate_key)
        else elim (insert_children answer.child_error run.id children db.children) [
          | inl e ↦ (db, some e)
          | inr rows ↦ elim answer.commit_error [
            | some e ↦ (db, some (database e))
            | none ↦ (record { runs = insert run.id run db.runs; children = rows }, none)
          ]
        ]
  ]
]

-- `RenameSession`, as in query/sessions.sql.
abbrev pub renamed : ℕ × Text → ChildRow → ChildRow
renamed e c =
    if child_id c == e.0
    then record c { row = record c.row { name = e.1; name_customized = true } }
    else c

abbrev pub renamed_all : List (ℕ × Text) → ChildRow → ChildRow
renamed_all [] c = c
renamed_all (e ∷ es) c = renamed_all es (renamed e c)

-- The parameters of a child: none at all where the column is empty, no answer where it is unreadable.
abbrev pub params_of : (Text → Option (Map Text Text)) → Text → Option (Map Text Text)
params_of decode t = if is_nil t then some [] else decode t

-- `RenameGeneratedRunSession`.
abbrev pub regenerated : ℕ → Text → ChildRow → ChildRow
regenerated id name c =
    if (child_id c == id) && not c.row.name_customized
    then record c { row = record c.row { name = name } }
    else c

-- What Postgres answers to the statements of `RenameRun`, and, for each child that is read, the
-- sessions that others rename before the statement for it.
pub record RenameAnswer : Type 0 where
  pub begin_error : Option Text
  pub update_error : Option Text
  pub read_error : Option Text
  pub child_error : ℕ → Option Text
  pub commit_error : Option Text
  pub between : ℕ → List (ℕ × Text)

-- The rows as the transaction sees them, those without its own changes, and its error.
pub record Cascaded : Type 0 where
  pub mine : List ChildRow
  pub theirs : List ChildRow
  pub error : Option Text

-- The loop over the children that were read.
unfoldable pub cascade :
    (Text → Option (Map Text Text))
    → RenameAnswer
    → Text
    → List (ℕ × Text)
    → List ChildRow
    → List ChildRow
    → Cascaded
cascade decode answer name [] mine theirs = record { mine = mine; theirs = theirs; error = none }
cascade decode answer name (t ∷ targets) mine theirs =
    let mine' = map (renamed_all (answer.between t.0)) mine in
    let theirs' = map (renamed_all (answer.between t.0)) theirs in
    elim (params_of decode t.1) [
      | none ↦ cascade decode answer name targets mine' theirs'
      | some params ↦ elim (answer.child_error t.0) [
        | some e ↦ record { mine = mine'; theirs = theirs'; error = some e }
        | none ↦
            cascade decode answer name targets
              (map (regenerated t.0 (variant_name name params)) mine') theirs'
      ]
    ]

abbrev pub in_run : ℕ → ChildRow → Bool
in_run id c = elim c.run_id [ none ↦ false | some r ↦ r == id ]

-- `RunSessionVariantParams`.
abbrev pub targets_of : ℕ → List ChildRow → List (ℕ × Text)
targets_of id [] = []
targets_of id (c ∷ cs) =
    if in_run id c then (child_id c, c.variant_params) ∷ targets_of id cs else targets_of id cs

unfoldable pub rename_run :
    (Text → Option (Map Text Text)) → RenameAnswer → ℕ → Text → Tables → Tables × Option StoreError
rename_run decode answer id name db = elim answer.begin_error [
  | some e ↦ (db, some (database e))
  | none ↦ elim answer.update_error [
    | some e ↦ (db, some (database e))
    | none ↦ elim (lookup id db.runs) [
      | none ↦ (db, some not_found)
      | some run ↦ elim answer.read_error [
        | some e ↦ (db, some (database e))
        | none ↦
            let c =
              cascade decode answer name (targets_of id db.children) db.children db.children in
            elim c.error [
              | some e ↦ (record db { children = c.theirs }, some (database e))
              | none ↦ elim answer.commit_error [
                | some e ↦ (record db { children = c.theirs }, some (database e))
                | none ↦ (
                  record {
                    runs = insert id (record run { name = name }) db.runs;
                    children = c.mine;
                  },
                  none,
                )
              ]
            ]
      ]
    ]
  ]
]

unfoldable pub rename_session : Option Text → ℕ → Text → Tables → Tables × Option StoreError
rename_session answer id name db = elim answer [
  | some e ↦ (db, some (database e))
  | none ↦
      if count (λ c. child_id c == id) db.children == 0
      then (db, some not_found)
      else (record db { children = map (renamed (id, name)) db.children }, none)
]

-- Deleting a run deletes its sessions, as the foreign key of the schema says.
abbrev pub without_run : ℕ → List ChildRow → List ChildRow
without_run id [] = []
without_run id (c ∷ cs) = if in_run id c then without_run id cs else c ∷ without_run id cs

unfoldable pub delete_run : Option Text → ℕ → Tables → Tables × Option StoreError
delete_run answer id db = elim answer [
  | some e ↦ (db, some (database e))
  | none ↦ (record { runs = delete id db.runs; children = without_run id db.children }, none)
]
