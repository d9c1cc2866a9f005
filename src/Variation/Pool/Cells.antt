-- ===== src/Variation/Pool/Cells.antt =====
-- The cells of a run count its variants, each once.
use proxy_sampler.Prelude.{
  ℕ, suc, ◌+◌, ◌≡◌, refl, sym, ap, ◌∙◌, Bool, ◌&&◌, List, [], ◌∷◌, map, Text, Map, lookup_or,
  lookup_or-insert, Eq, contains, add_all, count, length, length-add, list_eq, nat_eq, ◌=?◌,
  if◌then◌else◌, arith, Bool-cases, if-cases, subst, All, inl, inr,
}
use proxy_sampler.Go.Addr.{addr_eq}
use proxy_sampler.Variation.Pool.{normalize_category, IpObservation}
use proxy_sampler.Variation.Pool.Tally.{all_in, apply_composition-all_in}
use proxy_sampler.Variation.Pool.Honor.{
  VariantSession, TextOps, CellAccum, no_cell, cell_ips, Cells, no_cells, is_match, is_known,
  with_variant, outcome_of, add_variant, add_variants, CellReport, rate, cell_report,
  build_honor_and_cells, reputation_category,
}

abbrev text_eq : Eq Text
text_eq = list_eq

module _ (ops : TextOps) (session_obs : Map ℕ (List IpObservation)) where
  abbrev pub of_key : Text → VariantSession → Bool
  of_key k v = v.cell_key =? k

  abbrev pub honored_of : Text → VariantSession → Bool
  honored_of k v = of_key k v && is_match (outcome_of ops session_obs v)

  abbrev pub sampled_of : Text → VariantSession → Bool
  sampled_of k v = of_key k v && is_known (outcome_of ops session_obs v)

  -- What a cell has more than before.
  record Gains (k : Text) (c d : CellAccum) (vs : List VariantSession) : Type 0 where
    variants : d.variant_count ≡ c.variant_count + count (of_key k) vs
    honored : d.honored ≡ c.honored + count (honored_of k) vs
    sampled : d.sampled ≡ c.sampled + count (sampled_of k) vs

  abbrev with_one : CellAccum → VariantSession → CellAccum
  with_one c v =
      with_variant c v (lookup_or [] v.session_id session_obs) (outcome_of ops session_obs v)

  add_variant-cell :
      (k : Text) (s : Cells) (v : VariantSession)
      → lookup_or no_cell k (add_variant ops session_obs s v).cells ≡ (
          if v.cell_key =? k
          then with_one (lookup_or no_cell k s.cells) v
          else lookup_or no_cell k s.cells)
  unfolding add_variant
  add_variant-cell k s v =
      lookup_or-insert no_cell v.cell_key k (with_one (lookup_or no_cell v.cell_key s.cells) v)
        s.cells
      ∙ elim (Bool-cases (v.cell_key =? k)) [
        | inl e ↦ rw e (
            ap (λ j. with_one (lookup_or no_cell j s.cells) v) ((text_eq.beq_iff v.cell_key k).0 e))
        | inr e ↦ rw e
      ]

  one-Gains :
      (k : Text) (c : CellAccum) (v : VariantSession)
      → Gains k c (if v.cell_key =? k then with_one c v else c) (v ∷ [])
  unfolding with_variant
  one-Gains k c v = elim (Bool-cases (v.cell_key =? k)) [
    | inl e ↦ rw e (record {
      variants = ground (arith, e);
      honored = ground (arith, e);
      sampled = ground (arith, e);
    })
    | inr e ↦ rw e (record {
      variants = ground (arith, e);
      honored = ground (arith, e);
      sampled = ground (arith, e);
    })
  ]

  count-cons :
      (p : VariantSession → Bool) (v : VariantSession) (vs : List VariantSession)
      → count p (v ∷ vs) ≡ count p (v ∷ []) + count p vs
  count-cons p v vs = ground arith

  Gains-cons :
      (k : Text) (a b c : CellAccum) (v : VariantSession) (vs : List VariantSession)
      → Gains k a b (v ∷ [])
      → Gains k b c vs
      → Gains k a c (v ∷ vs)
  Gains-cons k a b c v vs g h = record {
    variants = omega (arith, g.variants, h.variants, count-cons (of_key k) v vs);
    honored = omega (arith, g.honored, h.honored, count-cons (honored_of k) v vs);
    sampled = omega (arith, g.sampled, h.sampled, count-cons (sampled_of k) v vs);
  }

  add_variants-Gains :
      (k : Text) (s : Cells) (vs : List VariantSession)
      → Gains k
          (lookup_or no_cell k s.cells)
          (lookup_or no_cell k (add_variants ops session_obs s vs).cells)
          vs
  unfolding add_variants
  add_variants-Gains k s [] = record {
    variants = omega arith;
    honored = omega arith;
    sampled = omega arith;
  }
  add_variants-Gains k s (v ∷ vs) =
      let t = add_variant ops session_obs s v in
      Gains-cons k (lookup_or no_cell k s.cells) (lookup_or no_cell k t.cells) _ v vs
        (subst (λ d. Gains k (lookup_or no_cell k s.cells) d (v ∷ []))
          (sym (add_variant-cell k s v)) (one-Gains k (lookup_or no_cell k s.cells) v))
        (add_variants-Gains k t vs)

  -- The composition of a cell has each of its addresses once.
  abbrev IsComposed : CellAccum → Type 0
  IsComposed c = all_in c.composition ≡ length c.ips

  cell_ips-IsComposed :
      (os : List IpObservation) (c : CellAccum) → IsComposed c → IsComposed (cell_ips c os)
  unfolding cell_ips
  cell_ips-IsComposed [] c h = h
  cell_ips-IsComposed (o ∷ os) c h = cell_ips-IsComposed os _ (
      if-cases IsComposed (contains c.ips o.ip) (λ _. h)
        (λ new. omega (
          arith,
          h,
          ap (λ b. if b then length c.ips else suc (length c.ips)) new,
          length-add c.ips o.ip,
          apply_composition-all_in c.composition
              (normalize_category (reputation_category o.reputation)),
        )))

  add_variants-IsComposed :
      (k : Text) (s : Cells) (vs : List VariantSession)
      → IsComposed (lookup_or no_cell k s.cells)
      → IsComposed (lookup_or no_cell k (add_variants ops session_obs s vs).cells)
  unfolding add_variants with_variant
  add_variants-IsComposed k s [] h = h
  add_variants-IsComposed k s (v ∷ vs) h =
      add_variants-IsComposed k (add_variant ops session_obs s v) vs (
        subst IsComposed (sym (add_variant-cell k s v)) (
          if-cases IsComposed (v.cell_key =? k)
            (λ _.
              cell_ips-IsComposed (lookup_or [] v.session_id session_obs)
                (lookup_or no_cell k s.cells) h)
            (λ _. h)))

  add_variants-globals :
      (s : Cells) (vs : List VariantSession)
      → let t = add_variants ops session_obs s vs in
        (t.order ≡ add_all s.order (map (λ v. v.cell_key) vs))
        × (t.global_honored
            ≡ s.global_honored + count (λ v. is_match (outcome_of ops session_obs v)) vs)
        × (t.global_sampled
            ≡ s.global_sampled + count (λ v. is_known (outcome_of ops session_obs v)) vs)
  unfolding add_variants add_variant
  add_variants-globals s [] = (refl, omega arith, omega arith)
  add_variants-globals s (v ∷ vs) =
      let (order, honored, sampled) = add_variants-globals (add_variant ops session_obs s v) vs in
      (order, ground (arith, honored), ground (arith, sampled))

  -- What the report says of a cell.
  pub record IsTold (vs : List VariantSession) (r : CellReport) : Type 0 where
    variants : r.variant_count ≡ count (of_key r.cell_key) vs
    rated :
        r.honor_rate ≡ rate (count (honored_of r.cell_key) vs) (count (sampled_of r.cell_key) vs)
    composed : all_in r.composition ≡ r.distinct_ips

  cell_report-IsTold :
      (vs : List VariantSession) (k : Text)
      → IsTold vs (cell_report (add_variants ops session_obs no_cells vs).cells k)
  cell_report-IsTold vs k =
      let g = add_variants-Gains k no_cells vs in
      let c = lookup_or no_cell k (add_variants ops session_obs no_cells vs).cells in
      let honored : c.honored ≡ count (honored_of k) vs = g.honored ∙ omega arith in
      let sampled : c.sampled ≡ count (sampled_of k) vs = g.sampled ∙ omega arith in
      record {
        variants = g.variants ∙ omega arith;
        rated =
            ap (λ (n : ℕ). rate n c.sampled) honored
            ∙ ap (λ (n : ℕ). rate (count (honored_of k) vs) n) sampled;
        composed = add_variants-IsComposed k no_cells vs refl;
      }

  All-map :
      (f : Text → CellReport) (P : CellReport → Type 0) (ks : List Text)
      → ((k : Text) → P (f k))
      → All P (map f ks)
  All-map f P [] h = tt
  All-map f P (k ∷ ks) h = (h k, All-map f P ks h)

  keys-reports :
      (m : Map Text CellAccum) (ks : List Text)
      → map (λ r. r.cell_key) (map (cell_report m) ks) ≡ ks
  keys-reports m [] = refl
  keys-reports m (k ∷ ks) = ap (λ l. k ∷ l) (keys-reports m ks)

-- A report has one cell for each key of the variants, in the order in which they come up. A cell
-- counts the variants of its key; its honor rate is the matches among those with a known outcome,
-- and is left out where there are none; and its composition adds up to its distinct addresses. The
-- honor rate of the run is the same of all variants.
pub build_honor_and_cells-IsTold :
    (ops : TextOps) (variants : List VariantSession) (session_obs : Map ℕ (List IpObservation))
    → let report = build_honor_and_cells ops variants session_obs in
      (report.0
        ≡ rate
            (count (λ v. is_match (outcome_of ops session_obs v)) variants)
            (count (λ v. is_known (outcome_of ops session_obs v)) variants))
      × (map (λ r. r.cell_key) report.1 ≡ add_all [] (map (λ v. v.cell_key) variants))
      × All (IsTold ops session_obs variants) report.1
unfolding build_honor_and_cells
build_honor_and_cells-IsTold ops variants session_obs =
    let s = add_variants ops session_obs no_cells variants in
    let (order, honored, sampled) = add_variants-globals ops session_obs no_cells variants in
    let h : s.global_honored ≡ count (λ v. is_match (outcome_of ops session_obs v)) variants =
      honored ∙ omega arith in
    let k : s.global_sampled ≡ count (λ v. is_known (outcome_of ops session_obs v)) variants =
      sampled ∙ omega arith in
    (
      ap (λ (n : ℕ). rate n s.global_sampled) h
          ∙ ap (λ (n : ℕ). rate (count (λ v. is_match (outcome_of ops session_obs v)) variants) n)
              k,
      keys-reports ops session_obs s.cells s.order ∙ order,
      All-map ops session_obs (cell_report s.cells) (IsTold ops session_obs variants) s.order
          (cell_report-IsTold ops session_obs variants),
    )
