-- ===== src/Db/Runs/Targets.antt =====
-- The children that a renaming of their run reads.
use proxy_sampler.Prelude.{
  ℕ, ◌≡◌, refl, true, false, ==_iff, List, [], ◌∷◌, map, Text, contains, Distinct, nat_eq, list_eq,
  All, All-map, Bool-cases, if-cases, inl, inr, arith,
}
use proxy_sampler.Db.Runs.{ChildRow, child_id, in_run, targets_of}
use proxy_sampler.Db.Runs.Rows.{Has}

-- Ids that no row has.
absent-targets :
    (id i : ℕ) (cs : List ChildRow)
    → contains (map child_id cs) i ≡ false
    → All (λ t. t.0 ≡ i → ⊥) (targets_of id cs)
absent-targets id i [] h = tt
absent-targets id i (c ∷ cs) h = elim (Bool-cases (in_run id c)) [
  | inl r ↦ rw (r) (
    (λ e. absurd (ground (arith, h, ==_iff (child_id c) i, e))),
    absent-targets id i cs (ground arith),
  )
  | inr r ↦ rw (r) (absent-targets id i cs (ground arith))
]

absent-rows :
    (i : ℕ) (cs : List ChildRow)
    → contains (map child_id cs) i ≡ false
    → All (λ c. i ≡ child_id c → ⊥) cs
absent-rows i [] h = tt
absent-rows i (c ∷ cs) h =
    ((λ e. absurd (ground (arith, h, ==_iff (child_id c) i, e))), absent-rows i cs (ground arith))

-- The targets of a list with one child more.
targets-cons :
    (id : ℕ) (c : ChildRow) (cs : List ChildRow) (Q : List (ℕ × Text) → Type 0)
    → (in_run id c ≡ true → Q ((child_id c, c.variant_params) ∷ targets_of id cs))
    → (in_run id c ≡ false → Q (targets_of id cs))
    → Q (targets_of id (c ∷ cs))
targets-cons id c cs Q = if-cases Q (in_run id c)

-- The targets are the children of the run.
pub targets_of-Has :
    (id : ℕ) (cs : List ChildRow) → All (λ c. in_run id c ≡ true → Has (targets_of id cs) c) cs
targets_of-Has id [] = tt
targets_of-Has id (c ∷ cs) = (
  (λ r.
      targets-cons id c cs (λ ts. Has ts c) (λ _. inl (refl, refl))
        (λ n. absurd (ground (arith, r, n)))),
  All-map (λ d. in_run id d ≡ true → Has (targets_of id cs) d)
      (λ d. in_run id d ≡ true → Has (targets_of id (c ∷ cs)) d)
      (λ d h e. targets-cons id c cs (λ ts. Has ts d) (λ _. inr (h e)) (λ _. h e)) cs
      (targets_of-Has id cs),
)

-- What a target says of a child with its id.
abbrev pub Tells : ℕ → ChildRow → ℕ × Text → Type 0
Tells id c t = t.0 ≡ child_id c → (t.1 ≡ c.variant_params) × (in_run id c ≡ true)

pub targets_of-Tells :
    (id : ℕ) (cs : List ChildRow)
    → Distinct (map child_id cs)
    → All (λ c. All (Tells id c) (targets_of id cs)) cs
targets_of-Tells id [] d = tt
targets_of-Tells id (c ∷ cs) d =
    let others =
      All-map (λ t. t.0 ≡ child_id c → ⊥) (Tells id c) (λ t n e. absurd (n e)) (targets_of id cs)
        (absent-targets id (child_id c) cs d.0) in
    (
      targets-cons id c cs (All (Tells id c)) (λ r. ((λ e. (refl, r)), others)) (λ _. others),
      apart cs (absent-rows (child_id c) cs d.0) (targets_of-Tells id cs d.1),
    )
  where
    apart :
        (ds : List ChildRow)
        → All (λ e. child_id c ≡ child_id e → ⊥) ds
        → All (λ e. All (Tells id e) (targets_of id cs)) ds
        → All (λ e. All (Tells id e) (targets_of id (c ∷ cs))) ds
    apart [] n h = tt
    apart (e ∷ ds) n h = (
      targets-cons id c cs (All (Tells id e)) (λ _. ((λ q. absurd (n.0 q)), h.0)) (λ _. h.0),
      apart ds n.1 h.1,
    )
