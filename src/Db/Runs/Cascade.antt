-- ===== src/Db/Runs/Cascade.antt =====
-- What the cascade of a renaming does to each row.
use proxy_sampler.Prelude.{
  ℕ, ◌≡◌, refl, sym, ap, ◌∙◌, subst, true, false, ◌==◌, ==_iff, List, [], ◌∷◌, map, Option, none,
  some, Text, Map, nat_eq, list_eq, All, All-map, Option-cases, Bool-cases, ◌⊎◌, inl, inr, arith,
}
use proxy_sampler.Variation.Template.{variant_name}
use proxy_sampler.Db.Runs.{
  ChildRow, child_id, renamed_all, params_of, regenerated, RenameAnswer, Cascaded, cascade, in_run,
}
use proxy_sampler.Db.Runs.Rows.{
  keeps_name, renamed_all-keeps, IsSameChild, renamed_all-IsSameChild, regenerated-IsSameChild,
  regenerated-keeps, regenerated_other, Has, Has-same,
}

module _ (decode : Text → Option (Map Text Text)) (name : Text) (id : ℕ) (P : ChildRow → Type 0)
    (stable : (es : List (ℕ × Text)) (c : ChildRow) → P c → P (renamed_all es c)) where
  -- What a target with the id of a child is of it.
  abbrev pub Agrees : ChildRow → ℕ × Text → Type 0
  Agrees c t = t.0 ≡ child_id c → (t.1 ≡ c.variant_params) × (in_run id c ≡ true)

  -- A child of the run has the generated name or is still to get it; another is as it was.
  pub record Awaits (ts : List (ℕ × Text)) (c : ChildRow) : Type 0 where
    pub named : in_run id c ≡ true → (keeps_name decode name c ≡ true) ⊎ Has ts c
    pub other : in_run id c ≡ false → P c
    pub agrees : All (Agrees c) ts

  All-Agrees-same :
      (ts : List (ℕ × Text)) (c d : ChildRow)
      → IsSameChild c d
      → All (Agrees c) ts
      → All (Agrees d) ts
  All-Agrees-same ts c d same h =
      All-map _ _
        (λ t a e.
          let r = a (e ∙ same.same_id) in
          (r.0 ∙ sym same.same_params, ground (arith, same.same_run, r.1)))
        ts h

  same_run : (c d : ChildRow) → IsSameChild c d → in_run id d ≡ in_run id c
  same_run c d same = ground (arith, same.same_run)

  Awaits-renamed_all :
      (ts : List (ℕ × Text)) (es : List (ℕ × Text)) (c : ChildRow)
      → Awaits ts c
      → Awaits ts (renamed_all es c)
  Awaits-renamed_all ts es c h =
      let same = renamed_all-IsSameChild es c in
      record {
        named = λ r. elim (h.named (sym (same_run c _ same) ∙ r)) [
          | inl k ↦ inl (renamed_all-keeps decode name es c k)
          | inr t ↦ inr (Has-same ts c _ same t)
        ];
        other = λ r. stable es c (h.other (sym (same_run c _ same) ∙ r));
        agrees = All-Agrees-same ts c _ same h.agrees;
      }

  -- A target whose parameters cannot be read is passed over.
  Awaits-unreadable :
      (t : ℕ × Text) (ts : List (ℕ × Text)) (c : ChildRow)
      → params_of decode t.1 ≡ none
      → Awaits (t ∷ ts) c
      → Awaits ts c
  Awaits-unreadable t ts c e h = record {
    named = λ r. elim (h.named r) [
      | inl k ↦ inl k
      | inr (inl q) ↦ inl (ground (arith, ap (params_of decode) (sym q.1) ∙ e))
      | inr (inr q) ↦ inr q
    ];
    other = h.other;
    agrees = h.agrees.1;
  }

  Awaits-regenerated :
      (t : ℕ × Text) (ts : List (ℕ × Text)) (params : Map Text Text) (c : ChildRow)
      → params_of decode t.1 ≡ some params
      → Awaits (t ∷ ts) c
      → Awaits ts (regenerated t.0 (variant_name name params) c)
  Awaits-regenerated t ts params c e h = elim (Bool-cases (child_id c == t.0)) [
    | inl this ↦
        let i = sym ((==_iff (child_id c) t.0).0 this) in
        let same = regenerated-IsSameChild t.0 (variant_name name params) c in
        record {
          named = λ r. inl (
              subst
                (λ (j : ℕ).
                  keeps_name decode name (regenerated j (variant_name name params) c) ≡ true)
                (sym i)
                (regenerated-keeps decode name params c
                  (ap (params_of decode) (sym ((h.agrees.0 i).0)) ∙ e)));
          other = λ r. absurd (ground (arith, r, same_run c _ same, (h.agrees.0 i).1));
          agrees = All-Agrees-same ts c _ same h.agrees.1;
        }
    | inr other ↦
        subst (Awaits ts) (sym (regenerated_other t.0 (variant_name name params) c other)) (record {
          named = λ r. elim (h.named r) [
            | inl k ↦ inl k
            | inr (inl q) ↦ absurd (ground (arith, other, q.0, ==_iff (child_id c) t.0))
            | inr (inr q) ↦ inr q
          ];
          other = h.other;
          agrees = h.agrees.1;
        })
  ]

  map-All :
      (Q R : ChildRow → Type 0) (f : ChildRow → ChildRow) (g : (c : ChildRow) → Q c → R (f c))
      (cs : List ChildRow)
      → All Q cs
      → All R (map f cs)
  map-All Q R f g [] h = tt
  map-All Q R f g (c ∷ cs) h = (g c h.0, map-All Q R f g cs h.1)

  map-ids :
      (f : ChildRow → ChildRow) (g : (c : ChildRow) → IsSameChild c (f c)) (cs : List ChildRow)
      → map child_id (map f cs) ≡ map child_id cs
  map-ids f g [] = refl
  map-ids f g (c ∷ cs) = let head = (g c).same_id in let rest = map-ids f g cs in cc

  -- What the transaction sees once every target has had its statement, and what stands if it is
  -- rolled back.
  pub record IsCascaded (ids : List ℕ) (x : Cascaded) : Type 0 where
    pub settled : x.error ≡ none → All (Awaits []) x.mine
    pub kept : All P x.theirs
    pub my_ids : map child_id x.mine ≡ ids
    pub their_ids : map child_id x.theirs ≡ ids

  pub cascade-IsCascaded :
      (answer : RenameAnswer) (ts : List (ℕ × Text)) (mine theirs : List ChildRow) (ids : List ℕ)
      → All (Awaits ts) mine
      → All P theirs
      → map child_id mine ≡ ids
      → map child_id theirs ≡ ids
      → IsCascaded ids (cascade decode answer name ts mine theirs)
  unfolding cascade
  cascade-IsCascaded answer [] mine theirs ids m k i j = record {
    settled = λ e. m;
    kept = k;
    my_ids = i;
    their_ids = j;
  }
  cascade-IsCascaded answer (t ∷ ts) mine theirs ids m k i j =
      let es = answer.between t.0 in
      let mine' = map (renamed_all es) mine in
      let theirs' = map (renamed_all es) theirs in
      let m' = map-All _ _ (renamed_all es) (λ c. Awaits-renamed_all (t ∷ ts) es c) mine m in
      let k' = map-All P P (renamed_all es) (stable es) theirs k in
      let i' = map-ids (renamed_all es) (renamed_all-IsSameChild es) mine ∙ i in
      let j' = map-ids (renamed_all es) (renamed_all-IsSameChild es) theirs ∙ j in
      elim (Option-cases (params_of decode t.1)) [
        | inl e ↦ subst (IsCascaded ids) (sym (ground (arith, e))) (
            cascade-IsCascaded answer ts mine' theirs' ids
              (All-map _ _ (λ c. Awaits-unreadable t ts c e) mine' m') k' i' j')
        | inr (params, e) ↦ elim (Option-cases (answer.child_error t.0)) [
          | inr (x, f) ↦ subst (IsCascaded ids) (sym (ground (arith, e, f))) (record {
            settled = λ (h : some x ≡ none). absurd (cc);
            kept = k';
            my_ids = i';
            their_ids = j';
          })
          | inl f ↦
              let g = regenerated t.0 (variant_name name params) in
              subst (IsCascaded ids) (sym (ground (arith, e, f))) (
                cascade-IsCascaded answer ts (map g mine') theirs' ids
                  (map-All _ _ g (λ c. Awaits-regenerated t ts params c e) mine' m') k'
                  (map-ids g (regenerated-IsSameChild t.0 (variant_name name params)) mine' ∙ i')
                  j')
        ]
      ]
