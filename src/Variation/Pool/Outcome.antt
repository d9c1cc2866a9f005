-- ===== src/Variation/Pool/Outcome.antt =====
-- The outcome of a variant against a description that does not depend on the order of the fields.
use proxy_sampler.Prelude.{
  ◌≡◌, Bool, not, ◌&&◌, ◌||◌, List, [], ◌∷◌, none, some, Text, codes, is_nil, if◌then◌else◌, arith,
}
use proxy_sampler.Variation.Pool.{IpObservation, dominant}
use proxy_sampler.Variation.Pool.Honor.{
  HonorOutcome, honor_unknown, honor_match, honor_mismatch, TextOps, first_param, compare_field,
  isp_matches, variant_honor,
}

-- The country that counts, and the provider.
abbrev pub asked_country : TextOps → Text → Text → Text
asked_country ops params target =
    if is_nil target
    then first_param (ops.parse_params params) (codes "country" ∷ codes "cc" ∷ [])
    else target

abbrev pub asked_isp : TextOps → Text → Text
asked_isp ops params = first_param (ops.parse_params params) (codes "isp" ∷ [])

-- A field that was asked for, is known, and is another one.
abbrev pub missed : Text → Text → Bool → Bool
missed asked observed same = not (is_nil asked) && (not (is_nil observed) && not same)

-- A field that was not asked for, or is known and the right one.
abbrev pub met : Text → Text → Bool → Bool
met asked observed same = is_nil asked || (not (is_nil observed) && same)

-- The outcome by the two fields.
abbrev pub judge : Bool → Bool → Bool → Bool → Bool → HonorOutcome
judge asked missed_country missed_isp met_country met_isp =
    if missed_country || missed_isp
    then honor_mismatch
    else if asked && (met_country && met_isp)
    then honor_match
    else honor_unknown

-- A variant is a mismatch exactly if a field that was asked for is known to be another one, whatever
-- the other field is; otherwise it is a match if at least one field was asked for and each that was is
-- known and the right one, and unknown in all other cases. The declared country comes before that of
-- the parameters.
pub variant_honor_lem :
    (ops : TextOps) (params target : Text) (obs : List IpObservation)
    → let c = asked_country ops params target in
      let i = asked_isp ops params in
      let oc = dominant obs (λ r. r.country) in
      let oi = dominant obs (λ r. r.isp) in
      variant_honor ops params target obs
      ≡ judge
          (not (is_nil c) || not (is_nil i))
          (missed c oc (ops.equal_fold oc c))
          (missed i oi (isp_matches ops i oi))
          (met c oc (ops.equal_fold oc c))
          (met i oi (isp_matches ops i oi))
unfolding variant_honor
variant_honor_lem ops params target obs =
    decided (asked_country ops params target) (asked_isp ops params) (dominant obs (λ r. r.country))
      (dominant obs (λ r. r.isp))
  where
    decided :
        (c i oc oi : Text)
        → (if is_nil c && is_nil i
            then honor_unknown
            else elim (compare_field (λ a o. ops.equal_fold o a) c oc) [
              | none ↦ honor_mismatch
              | some country_known ↦ elim (compare_field (isp_matches ops) i oi) [
                | none ↦ honor_mismatch
                | some isp_known ↦ if country_known && isp_known then honor_match else honor_unknown
              ]
            ])
          ≡ judge
              (not (is_nil c) || not (is_nil i))
              (missed c oc (ops.equal_fold oc c))
              (missed i oi (isp_matches ops i oi))
              (met c oc (ops.equal_fold oc c))
              (met i oi (isp_matches ops i oi))
    decided c i oc oi = ground arith
