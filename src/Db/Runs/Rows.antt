-- ===== src/Db/Runs/Rows.antt =====
-- What a statement of a renaming does to the row of a session.
use proxy_sampler.Prelude.{
  ℕ, ◌≡◌, refl, sym, ◌∙◌, Bool, true, false, ◌||◌, ◌==◌, ==_iff, List, [], ◌∷◌, Option, none, some,
  Text, Map, nat_eq, list_eq, beq_self, ◌=?◌, Bool-cases, ◌⊎◌, inl, inr, arith, if◌then◌else◌,
}
use proxy_sampler.Variation.Template.{variant_name}
use proxy_sampler.Db.Runs.{ChildRow, child_id, renamed, renamed_all, params_of, regenerated}

-- A child has the name that a run's name generates, if it has not been given one and its parameters
-- can be read.
abbrev pub keeps_name : (Text → Option (Map Text Text)) → Text → ChildRow → Bool
keeps_name decode name c = c.row.name_customized || elim (params_of decode c.variant_params) [
  | none ↦ true
  | some params ↦ c.row.name =? variant_name name params
]

renamed-keeps :
    (decode : Text → Option (Map Text Text)) (name : Text) (e : ℕ × Text) (c : ChildRow)
    → keeps_name decode name c ≡ true
    → keeps_name decode name (renamed e c) ≡ true
renamed-keeps decode name e c h =
    elim (child_id c == e.0)
      as (λ b.
        keeps_name decode name
          (if b then record c { row = record c.row { name = e.1; name_customized = true } } else c)
        ≡ true) [ true ↦ refl | false ↦ h ]

pub renamed_all-keeps :
    (decode : Text → Option (Map Text Text)) (name : Text) (es : List (ℕ × Text)) (c : ChildRow)
    → keeps_name decode name c ≡ true
    → keeps_name decode name (renamed_all es c) ≡ true
renamed_all-keeps decode name [] c h = h
renamed_all-keeps decode name (e ∷ es) c h =
    renamed_all-keeps decode name es (renamed e c) (renamed-keeps decode name e c h)

pub record IsSameChild (c d : ChildRow) : Type 0 where
  pub same_id : child_id d ≡ child_id c
  pub same_run : d.run_id ≡ c.run_id
  pub same_params : d.variant_params ≡ c.variant_params

renamed-IsSameChild : (e : ℕ × Text) (c : ChildRow) → IsSameChild c (renamed e c)
renamed-IsSameChild e c = record {
  same_id = ground arith;
  same_run = ground arith;
  same_params = ground arith;
}

pub renamed_all-IsSameChild :
    (es : List (ℕ × Text)) (c : ChildRow) → IsSameChild c (renamed_all es c)
renamed_all-IsSameChild [] c = record { same_id = refl; same_run = refl; same_params = refl }
renamed_all-IsSameChild (e ∷ es) c =
    let r = renamed_all-IsSameChild es (renamed e c) in
    let o = renamed-IsSameChild e c in
    record {
      same_id = r.same_id ∙ o.same_id;
      same_run = r.same_run ∙ o.same_run;
      same_params = r.same_params ∙ o.same_params;
    }

pub regenerated-IsSameChild :
    (id : ℕ) (name : Text) (c : ChildRow) → IsSameChild c (regenerated id name c)
regenerated-IsSameChild id name c = record {
  same_id = ground arith;
  same_run = ground arith;
  same_params = ground arith;
}

-- The statement of the cascade for a child leaves it with the generated name, or with one that it
-- was given; and it leaves other children alone.
pub regenerated-keeps :
    (decode : Text → Option (Map Text Text)) (name : Text) (params : Map Text Text) (c : ChildRow)
    → params_of decode c.variant_params ≡ some params
    → keeps_name decode name (regenerated (child_id c) (variant_name name params) c) ≡ true
regenerated-keeps decode name params c e = elim (Bool-cases c.row.name_customized) [
  | inl given ↦ ground (arith, given, ==_iff (child_id c) (child_id c))
  | inr free ↦
      ground (arith, free, e, ==_iff (child_id c) (child_id c), beq_self (variant_name name params))
]

pub regenerated_other :
    (id : ℕ) (name : Text) (c : ChildRow) → (child_id c == id) ≡ false → regenerated id name c ≡ c
regenerated_other id name c e = ground (arith, e)

-- A child is among the targets.
abbrev pub Has : List (ℕ × Text) → ChildRow → Type 0
Has [] c = ⊥
Has (t ∷ ts) c = ((t.0 ≡ child_id c) × (t.1 ≡ c.variant_params)) ⊎ Has ts c

pub Has-same : (ts : List (ℕ × Text)) (c d : ChildRow) → IsSameChild c d → Has ts c → Has ts d
Has-same [] c d same h = absurd h
Has-same (t ∷ ts) c d same (inl h) = inl (h.0 ∙ sym same.same_id, h.1 ∙ sym same.same_params)
Has-same (t ∷ ts) c d same (inr h) = inr (Has-same ts c d same h)
