-- ===== src/Db/Runs/Names.antt =====
-- Sessions of a run keep the names that their run generates, unless they are given one.
use proxy_sampler.Prelude.{
  ℕ, ◌≡◌, ◌∙◌, Bool, true, false, ==_iff, List, map, Option, none, some, Text, Map, keys, lookup,
  insert, delete, lookup-insert, lookup-delete, Distinct, nat_eq, list_eq, All, Option-cases, inl,
  inr, arith,
}
use proxy_sampler.Db.Runs.{Run, ChildRow, Tables, child_id, renamed_all, in_run}
use proxy_sampler.Db.Runs.Rows.{keeps_name, renamed_all-keeps, renamed_all-IsSameChild}

abbrev pub fits : (Text → Option (Map Text Text)) → Map ℕ Run → ChildRow → Bool
fits decode runs c = elim c.run_id [
  | none ↦ true
  | some r ↦ elim (lookup r runs) [ none ↦ false | some run ↦ keeps_name decode run.name c ]
]

pub record IsNamed (decode : Text → Option (Map Text Text)) (db : Tables) : Type 0 where
  pub distinct : Distinct (map child_id db.children)
  pub run_ids : Distinct (keys db.runs)
  pub named : All (λ c. fits decode db.runs c ≡ true) db.children

module _ (decode : Text → Option (Map Text Text)) where
  pub fits-renamed_all :
      (runs : Map ℕ Run) (es : List (ℕ × Text)) (c : ChildRow)
      → fits decode runs c ≡ true
      → fits decode runs (renamed_all es c) ≡ true
  fits-renamed_all runs es c h =
      let same = renamed_all-IsSameChild es c in
      elim (Option-cases c.run_id) [
        | inl e ↦ ground (arith, same.same_run ∙ e)
        | inr (r, e) ↦ elim (Option-cases (lookup r runs)) [
          | inl f ↦ absurd (ground (arith, e, f))
          | inr (run, f) ↦
              ground (arith, same.same_run ∙ e, e, f, renamed_all-keeps decode run.name es c)
        ]
      ]

  -- The row of another run does not see a change of this one.
  pub fits-insert_other :
      (id : ℕ) (run : Run) (runs : Map ℕ Run) (c : ChildRow)
      → in_run id c ≡ false
      → fits decode runs c ≡ true
      → fits decode (insert id run runs) c ≡ true
  fits-insert_other id run runs c o h = elim (Option-cases c.run_id) [
    | inl e ↦ ground (arith, e)
    | inr (r, e) ↦ ground (arith, e, lookup-insert id r run runs, ==_iff id r, ==_iff r id)
  ]

  pub fits-insert_this :
      (id : ℕ) (run : Run) (runs : Map ℕ Run) (c : ChildRow)
      → in_run id c ≡ true
      → keeps_name decode run.name c ≡ true
      → fits decode (insert id run runs) c ≡ true
  fits-insert_this id run runs c o h = elim (Option-cases c.run_id) [
    | inl e ↦ ground (arith, e)
    | inr (r, e) ↦ ground (arith, e, lookup-insert id r run runs, ==_iff id r, ==_iff r id)
  ]

  -- No row is in a run that the table does not have.
  pub fits-absent :
      (id : ℕ) (runs : Map ℕ Run) (c : ChildRow)
      → lookup id runs ≡ none
      → fits decode runs c ≡ true
      → in_run id c ≡ false
  fits-absent id runs c e h = elim (Option-cases c.run_id) [
    | inl f ↦ ground (arith, f)
    | inr (r, f) ↦ ground (arith, e, f, ==_iff r id)
  ]

  -- The row of another run does not see that this one goes.
  pub fits-delete :
      (id : ℕ) (runs : Map ℕ Run) (c : ChildRow)
      → Distinct (keys runs)
      → in_run id c ≡ false
      → fits decode runs c ≡ true
      → fits decode (delete id runs) c ≡ true
  fits-delete id runs c d o h = elim (Option-cases c.run_id) [
    | inl e ↦ ground (arith, e)
    | inr (r, e) ↦ ground (arith, e, lookup-delete id r runs d, ==_iff id r, ==_iff r id)
  ]
