-- ===== src/Variation/Pool/Honor.antt =====
-- internal/variation/report.go: whether the variants of a run got the country and the provider that they
-- asked for, by the cells of the run. The case folding of Go's `strings`, `strings.TrimSpace` and the
-- JSON of the parameters are arguments, and a rate is its numerator and denominator.
use proxy_sampler.Prelude.{
  ℕ, ◌+◌, Bool, true, false, ◌&&◌, ◌||◌, ltb, List, [], ◌∷◌, ◌++◌, map, Option, none, some, Text,
  codes, Map, lookup, lookup_or, insert, contains, add, length, list_eq, nat_eq, is_nil,
  if◌then◌else◌,
}
use proxy_sampler.Go.Addr.{Addr, addr_eq}
use proxy_sampler.Go.Strings.{has_substring}
use proxy_sampler.Session.{Reputation, Status, Snapshot}
use proxy_sampler.Variation.Pool.{
  Composition, no_composition, apply_composition, normalize_category, IpObservation, dominant,
}

pub record VariantSession : Type 0 where
  pub session_id : ℕ
  pub name : Text
  pub params : Text
  pub cell_key : Text
  pub target_country : Text
  pub status : Status
  pub snapshot : Snapshot

pub data HonorOutcome : Type 0 where
  honor_unknown honor_match honor_mismatch : HonorOutcome

-- `firstParam`.
unfoldable pub first_param : Map Text Text → List Text → Text
first_param params [] = []
first_param params (key ∷ keys) = elim (lookup key params) [
  | none ↦ first_param params keys
  | some v ↦ if is_nil v then first_param params keys else v
]

unfoldable pub reputation_category : Option Reputation → Text
reputation_category none = codes "unknown"
reputation_category (some r) = r.category

-- The text operations that the comparison takes from Go's library.
pub record TextOps : Type 0 where
  pub equal_fold : Text → Text → Bool
  pub to_lower : Text → Text
  pub trim_space : Text → Text
  pub parse_params : Text → Map Text Text

unfoldable pub isp_matches : TextOps → Text → Text → Bool
isp_matches ops requested observed =
    let r = ops.to_lower (ops.trim_space requested) in
    let o = ops.to_lower (ops.trim_space observed) in
    if is_nil r || is_nil o then false else has_substring o r || has_substring r o

-- One requested field: none where it is a proven mismatch, otherwise whether it could be compared.
abbrev pub compare_field : (Text → Text → Bool) → Text → Text → Option Bool
compare_field matches requested observed =
    if is_nil requested
    then some true
    else if is_nil observed
    then some false
    else if matches requested observed
    then some true
    else none

unfoldable pub variant_honor : TextOps → Text → Text → List IpObservation → HonorOutcome
variant_honor ops params target_country obs =
    let requested = ops.parse_params params in
    let country =
      if is_nil target_country
      then first_param requested (codes "country" ∷ codes "cc" ∷ [])
      else target_country in
    let isp = first_param requested (codes "isp" ∷ []) in
    if is_nil country && is_nil isp
    then honor_unknown
    else elim (compare_field (λ c o. ops.equal_fold o c) country (dominant obs (λ r. r.country))) [
      | none ↦ honor_mismatch
      | some country_known ↦
          elim (compare_field (isp_matches ops) isp (dominant obs (λ r. r.isp))) [
            | none ↦ honor_mismatch
            | some isp_known ↦ if country_known && isp_known then honor_match else honor_unknown
          ]
    ]

pub record CellAccum : Type 0 where
  pub target_country : Text
  pub variant_count : ℕ
  pub honored : ℕ
  pub sampled : ℕ
  pub ips : List Addr
  pub composition : Composition

abbrev pub no_cell : CellAccum
no_cell = record {
  target_country = [];
  variant_count = 0;
  honored = 0;
  sampled = 0;
  ips = [];
  composition = no_composition;
}

-- The loop over a variant's observations.
unfoldable pub cell_ips : CellAccum → List IpObservation → CellAccum
cell_ips c [] = c
cell_ips c (o ∷ os) =
    cell_ips
      (if contains c.ips o.ip then c else record c {
        ips = add c.ips o.ip;
        composition =
            apply_composition c.composition (normalize_category (reputation_category o.reputation));
      })
      os

-- `order` lists the keys of the cells as they came up.
pub record Cells : Type 0 where
  pub order : List Text
  pub cells : Map Text CellAccum
  pub global_honored : ℕ
  pub global_sampled : ℕ

abbrev pub no_cells : Cells
no_cells = record { order = []; cells = []; global_honored = 0; global_sampled = 0 }

abbrev pub is_match : HonorOutcome → Bool
is_match honor_match = true
is_match honor_mismatch = false
is_match honor_unknown = false

abbrev pub is_known : HonorOutcome → Bool
is_known honor_match = true
is_known honor_mismatch = true
is_known honor_unknown = false

abbrev pub more_if : Bool → ℕ → ℕ
more_if b n = if b then n + 1 else n

-- A cell with one more variant, with its observations and its outcome.
unfoldable pub with_variant :
    CellAccum → VariantSession → List IpObservation → HonorOutcome → CellAccum
with_variant c v obs outcome =
    let seen = cell_ips c obs in
    record seen {
      target_country = if is_nil c.target_country then v.target_country else c.target_country;
      variant_count = c.variant_count + 1;
      honored = more_if (is_match outcome) c.honored;
      sampled = more_if (is_known outcome) c.sampled;
    }

module _ (ops : TextOps) where
  abbrev pub outcome_of : Map ℕ (List IpObservation) → VariantSession → HonorOutcome
  outcome_of session_obs v =
      variant_honor ops v.params v.target_country (lookup_or [] v.session_id session_obs)

  unfoldable pub add_variant : Map ℕ (List IpObservation) → Cells → VariantSession → Cells
  add_variant session_obs s v =
      let obs = lookup_or [] v.session_id session_obs in
      let outcome = outcome_of session_obs v in
      record {
        order = add s.order v.cell_key;
        cells =
            insert v.cell_key (with_variant (lookup_or no_cell v.cell_key s.cells) v obs outcome)
              s.cells;
        global_honored = more_if (is_match outcome) s.global_honored;
        global_sampled = more_if (is_known outcome) s.global_sampled;
      }

  unfoldable pub add_variants : Map ℕ (List IpObservation) → Cells → List VariantSession → Cells
  add_variants session_obs s [] = s
  add_variants session_obs s (v ∷ vs) = add_variants session_obs (add_variant session_obs s v) vs

pub record CellReport : Type 0 where
  pub cell_key : Text
  pub params : Text
  pub target_country : Text
  pub variant_count : ℕ
  pub distinct_ips : ℕ
  pub honor_rate : Option (ℕ × ℕ)
  pub composition : Composition

abbrev pub rate : ℕ → ℕ → Option (ℕ × ℕ)
rate honored sampled = if ltb 0 sampled then some (honored, sampled) else none

abbrev pub cell_report : Map Text CellAccum → Text → CellReport
cell_report cells key =
    let c = lookup_or no_cell key cells in
    record {
      cell_key = key;
      params = key;
      target_country = c.target_country;
      variant_count = c.variant_count;
      distinct_ips = length c.ips;
      honor_rate = rate c.honored c.sampled;
      composition = c.composition;
    }

-- `sessionObs` of `BuildPoolReport`.
unfoldable pub session_observations :
    Map ℕ (List IpObservation) → List IpObservation → Map ℕ (List IpObservation)
session_observations m [] = m
session_observations m (o ∷ os) =
    session_observations (insert o.session_id (lookup_or [] o.session_id m ++ o ∷ []) m) os

unfoldable pub build_honor_and_cells :
    TextOps → List VariantSession → Map ℕ (List IpObservation) → Option (ℕ × ℕ) × List CellReport
build_honor_and_cells ops variants session_obs =
    let s = add_variants ops session_obs no_cells variants in
    (rate s.global_honored s.global_sampled, map (cell_report s.cells) s.order)
