-- ===== src/Db/Runs/Renaming.antt =====
-- A renaming of a run leaves its sessions with the names that it generates, whatever happens.
use proxy_sampler.Prelude.{
  ℕ, ◌≡◌, refl, sym, subst, true, List, [], ◌∷◌, map, Option, none, Text, Map, lookup, insert,
  insert-Distinct, Distinct, nat_eq, list_eq, All, All-map, Option-cases, Bool-cases, inl, inr,
  arith,
}
use proxy_sampler.Db.Runs.{
  Run, ChildRow, Tables, child_id, RenameAnswer, Cascaded, cascade, in_run, targets_of, rename_run,
}
use proxy_sampler.Db.Runs.Rows.{Has}
use proxy_sampler.Db.Runs.Cascade.{Awaits, IsCascaded, cascade-IsCascaded}
use proxy_sampler.Db.Runs.Targets.{targets_of-Has, Tells, targets_of-Tells}
use proxy_sampler.Db.Runs.Names.{
  fits, IsNamed, fits-renamed_all, fits-insert_other, fits-insert_this,
}

abbrev Decoder : Type 0
Decoder = Text → Option (Map Text Text)

start-Awaits :
    (decode : Decoder) (name : Text) (id : ℕ) (db : Tables)
    → IsNamed decode db
    → All
        (Awaits decode name id
          (λ c. fits decode db.runs c ≡ true)
          (λ es c. fits-renamed_all decode db.runs es c)
          (targets_of id db.children))
        db.children
start-Awaits decode name id db n =
    both db.children (targets_of-Has id db.children) (targets_of-Tells id db.children n.distinct)
      n.named
  where
    both :
        (cs : List ChildRow)
        → All (λ c. in_run id c ≡ true → Has (targets_of id db.children) c) cs
        → All (λ c. All (Tells id c) (targets_of id db.children)) cs
        → All (λ c. fits decode db.runs c ≡ true) cs
        → All
            (Awaits decode name id
              (λ c. fits decode db.runs c ≡ true)
              (λ es c. fits-renamed_all decode db.runs es c)
              (targets_of id db.children))
            cs
    both [] h t f = tt
    both (c ∷ cs) h t f =
        (record { named = λ r. inr (h.0 r); other = λ _. f.0; agrees = t.0 }, both cs h.1 t.1 f.1)

module _ (decode : Decoder) (answer : RenameAnswer) (id : ℕ) (name : Text) (db : Tables)
    (n : IsNamed decode db) where
  abbrev cascaded : Cascaded
  cascaded = cascade decode answer name (targets_of id db.children) db.children db.children

  cascaded-IsCascaded :
      IsCascaded decode name id
        (λ c. fits decode db.runs c ≡ true)
        (λ es c. fits-renamed_all decode db.runs es c)
        (map child_id db.children)
        cascaded
  cascaded-IsCascaded =
      cascade-IsCascaded decode name id (λ c. fits decode db.runs c ≡ true)
        (λ es c. fits-renamed_all decode db.runs es c) answer (targets_of id db.children)
        db.children db.children (map child_id db.children) (start-Awaits decode name id db n)
        n.named refl refl

  rolled_back-IsNamed : IsNamed decode (record db { children = cascaded.theirs })
  rolled_back-IsNamed = record {
    distinct = subst Distinct (sym cascaded-IsCascaded.their_ids) n.distinct;
    run_ids = n.run_ids;
    named = cascaded-IsCascaded.kept;
  }

  committed-IsNamed :
      (run : Run)
      → cascaded.error ≡ none
      → IsNamed decode (record {
        runs = insert id (record run { name = name }) db.runs;
        children = cascaded.mine;
      })
  committed-IsNamed run e = record {
    distinct = subst Distinct (sym cascaded-IsCascaded.my_ids) n.distinct;
    run_ids = insert-Distinct id (record run { name = name }) db.runs n.run_ids;
    named = All-map _ _ settle cascaded.mine (cascaded-IsCascaded.settled e);
  }
    where
      settle :
          (c : ChildRow)
          → Awaits decode name id
              (λ c. fits decode db.runs c ≡ true)
              (λ es c. fits-renamed_all decode db.runs es c)
              []
              c
          → fits decode (insert id (record run { name = name }) db.runs) c ≡ true
      settle c h = elim (Bool-cases (in_run id c)) [
        | inl r ↦ elim (h.named r) [
          | inl k ↦ fits-insert_this decode id (record run { name = name }) db.runs c r k
          | inr k ↦ absurd k
        ]
        | inr r ↦ fits-insert_other decode id (record run { name = name }) db.runs c r (h.other r)
      ]

  pub rename_run-IsNamed : IsNamed decode ((rename_run decode answer id name db).0)
  unfolding rename_run
  rename_run-IsNamed = elim (Option-cases answer.begin_error) [
    | inr (x, e) ↦ subst (IsNamed decode) (sym (ground (arith, e))) n
    | inl e ↦ elim (Option-cases answer.update_error) [
      | inr (x, f) ↦ subst (IsNamed decode) (sym (ground (arith, e, f))) n
      | inl f ↦ elim (Option-cases (lookup id db.runs)) [
        | inl g ↦ subst (IsNamed decode) (sym (ground (arith, e, f, g))) n
        | inr (run, g) ↦ elim (Option-cases answer.read_error) [
          | inr (x, h) ↦ subst (IsNamed decode) (sym (ground (arith, e, f, g, h))) n
          | inl h ↦ elim (Option-cases cascaded.error) [
            | inr (x, k) ↦
                subst (IsNamed decode) (sym (ground (arith, e, f, g, h, k))) rolled_back-IsNamed
            | inl k ↦ elim (Option-cases answer.commit_error) [
              | inr (x, l) ↦
                  subst (IsNamed decode) (sym (ground (arith, e, f, g, h, k, l)))
                    rolled_back-IsNamed
              | inl l ↦
                  subst (IsNamed decode) (sym (ground (arith, e, f, g, h, k, l)))
                    (committed-IsNamed run k)
            ]
          ]
        ]
      ]
    ]
  ]
