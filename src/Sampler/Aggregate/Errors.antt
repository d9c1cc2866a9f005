-- ===== src/Sampler/Aggregate/Errors.antt =====
-- The error text of a sample.
use mathlib.Core.Bool.{false≢true}
use native.Mathlib.Decide.{ℕ_discrete}
use proxy_sampler.Prelude.{
  ℕ, zero, suc, ◌+◌, ◌-◌, ◌≤◌, ◌<◌, ◌≡◌, refl, sym, ap, ◌∙◌, inl, inr, true, false, ◌||◌, List, [],
  ◌∷◌, ◌++◌, arith, append_assoc, append-nil, length, take, min, leb, Text, codes, nat_eq, list_eq,
  list_beq_iff, contains, Distinct, is_nil, Bool-cases, length-take, take_of_length-le, subst,
}
use proxy_sampler.Go.Addr.{Addr}
use proxy_sampler.Go.Utf8.{valid_string, to_valid_utf8}
use proxy_sampler.Go.Utf8.Laws.{valid-nil, valid-to_valid_utf8, valid_prefix}
use proxy_sampler.Sampler.Aggregate.{
  ProbeResult, Outcome, succeeded, failed, outcome, Folded, nothing_folded, fold_probe, fold_probes,
  unique_messages, join, trim_invalid, cut_error, join_probe_errors, sample_of, finish_sample,
  truncated, aggregate,
}
use proxy_sampler.Sampler.Aggregate.Bounds.{
  clamp_uint8_small, few_rtts, length_of_nil, length_of_not_nil, truncated-take,
}

trim_invalid-valid : (n : ℕ) (t : Text) → valid_string (trim_invalid n t) ≡ true
unfolding trim_invalid
trim_invalid-valid zero t = valid-nil
trim_invalid-valid (suc n) t = ground (arith, trim_invalid-valid n t)

-- Cutting finds the longest valid prefix.
trim_invalid-take :
    (n : ℕ) (t : Text)
    → (m : ℕ) × (m ≤ n)
      × (trim_invalid n t ≡ take m t)
      × ((k : ℕ) → k ≤ n → valid_string (take k t) ≡ true → k ≤ m)
unfolding trim_invalid
trim_invalid-take zero t = (zero, omega arith, refl, λ k h v. h)
trim_invalid-take (suc n) t = elim (Bool-cases (valid_string (take (suc n) t))) [
  | inl e ↦ (suc n, omega arith, rw e, λ k h v. h)
  | inr e ↦
      let (m, le, eq, best) = trim_invalid-take n t in
      (
        m,
        omega arith,
        rw e eq,
        λ k h v. elim (ℕ_discrete k (suc n)) [
          | yes same ↦
              absurd (false≢true (sym e ∙ subst (λ i. valid_string (take i t) ≡ true) same v))
          | no other ↦ best k (omega arith) v
        ],
      )
]

-- The text `e` stands for the text `joined` within the size limit.
pub record IsCut (joined e : Text) : Type 0 where
  pub fits : length e ≤ 2048
  pub valid : valid_string e ≡ true
  pub prefix : e ≡ take (length e) joined
  pub lost : min 2048 (length joined) ≤ length e + 3

cut_error-IsCut : (t : Text) → valid_string t ≡ true → IsCut t (cut_error t)
cut_error-IsCut t v = elim (Bool-cases (leb (length t) 2048)) [
  | inl short ↦ subst (IsCut t) (sym (whole t short)) (record {
    fits = ground arith;
    valid = v;
    prefix = sym (take_of_length-le (length t) t (omega arith));
    lost = omega arith;
  })
  | inr long ↦
      let (m, le, eq, best) = trim_invalid-take 2048 t in
      let (k, k3, _, good) = valid_prefix t 2048 v (ground arith) in
      let size = ap length eq ∙ length-take m t in
      let exact : length (trim_invalid 2048 t) ≡ m = ground (arith, size) in
      subst (IsCut t) (sym (cut t long)) (record {
        fits = omega (arith, exact);
        valid = trim_invalid-valid 2048 t;
        prefix = rw exact eq;
        lost = omega (arith, exact, best (2048 - k) (omega arith) good);
      })
]
  where
    whole : (t : Text) → leb (length t) 2048 ≡ true → cut_error t ≡ t
    whole t h = unfold cut_error in (rw h)

    cut : (t : Text) → leb (length t) 2048 ≡ false → cut_error t ≡ trim_invalid 2048 t
    cut t h = unfold cut_error in (rw h)

-- The messages of the failed probes, in order.
abbrev pub messages : List ProbeResult → List Text
messages [] = []
messages (r ∷ rs) = elim (outcome r) [
  | failed message ↦ message ∷ messages rs
  | succeeded ip country rtt ↦ messages rs
]

fold_probes-errors :
    (f : Folded) (rs : List ProbeResult)
    → (fold_probes f rs).errors_in_order ≡ f.errors_in_order ++ messages rs
unfolding fold_probes
fold_probes-errors f [] = sym (append-nil _)
fold_probes-errors f (r ∷ rs) =
    fold_probes-errors (fold_probe f (outcome r)) rs ∙ one (outcome r) refl
  where
    one :
        (o : Outcome)
        → outcome r ≡ o
        → (fold_probe f (outcome r)).errors_in_order ++ messages rs
          ≡ f.errors_in_order ++ messages (r ∷ rs)
    one (failed message) e =
        rw (e, messages)
          (unfold fold_probe in append_assoc f.errors_in_order (message ∷ []) (messages rs))
    one (succeeded ip country rtt) e = rw (e, messages) (unfold fold_probe in refl)

contains-append :
    (xs ys : List Text) (m : Text) → contains (xs ++ ys) m ≡ (contains xs m || contains ys m)
contains-append [] ys m = refl
contains-append (x ∷ xs) ys m = ground (arith, contains-append xs ys m)

Distinct-append :
    (xs : List Text) (m : Text) → contains xs m ≡ false → Distinct xs → Distinct (xs ++ m ∷ [])
Distinct-append [] m h d = (refl, tt)
Distinct-append (x ∷ xs) m h d =
    ground (
      arith,
      contains-append xs (m ∷ []) x,
      Distinct-append xs m,
      list_beq_iff x m,
      list_beq_iff m x,
    )

unique_messages-contains :
    (ms unique : List Text) (m : Text)
    → contains (unique_messages ms unique) m ≡ (contains unique m || contains ms m)
unfolding unique_messages
unique_messages-contains [] unique m = ground arith
unique_messages-contains (x ∷ ms) unique m = ground (
  arith,
  unique_messages-contains ms unique m,
  unique_messages-contains ms (unique ++ x ∷ []) m,
  contains-append unique (x ∷ []) m,
  list_beq_iff x m,
)

unique_messages-Distinct :
    (ms unique : List Text) → Distinct unique → Distinct (unique_messages ms unique)
unfolding unique_messages
unique_messages-Distinct [] unique d = d
unique_messages-Distinct (x ∷ ms) unique d = elim (Bool-cases (contains unique x)) [
  | inl e ↦ rw (e, unique_messages) (unique_messages-Distinct ms unique d)
  | inr e ↦
      rw (e, unique_messages)
        (unique_messages-Distinct ms (unique ++ x ∷ []) (Distinct-append unique x e d))
]

-- An error text that stands for the messages of failed probes.
abbrev pub Reports : List Text → Text → Type 0
Reports ms e =
    (unique : List Text) × Distinct unique
    × ((m : Text) → contains unique m ≡ contains ms m)
    × IsCut (to_valid_utf8 (join unique (codes "; "))) e

join_probe_errors-Reports : (ms : List Text) → Reports ms (join_probe_errors ms)
unfolding join_probe_errors
join_probe_errors-Reports ms = (
  unique_messages ms [],
  unique_messages-Distinct ms [] tt,
  unique_messages-contains ms [],
  cut_error-IsCut _ (valid-to_valid_utf8 _),
)

finish_sample-error :
    (f : Folded) (n : ℕ) (previous : Addr) (seen : List Addr)
    → length f.rtts ≤ 255
    → let s = finish_sample f (sample_of n f previous seen) in
      (0 < s.probes_ok → s.error ≡ []) × (s.probes_ok ≡ 0 → Reports f.errors_in_order s.error)
unfolding finish_sample sample_of
finish_sample-error f n previous seen few =
    let exact = clamp_uint8_small (length f.rtts) few in
    elim (Bool-cases (is_nil f.rtts)) [
      | inl e ↦
          rw (e, finish_sample)
            (
              λ h. absurd (omega (arith, exact, length_of_nil f.rtts e)),
              λ h. join_probe_errors-Reports f.errors_in_order,
            )
      | inr e ↦
          rw (e, finish_sample)
            (λ h. refl, λ h. absurd (omega (arith, exact, length_of_not_nil f.rtts e)))
    ]

-- A sample with a successful probe has no error text. Otherwise its text joins by "; " the
-- messages of the failed probes, each once, made valid UTF-8; what does not fit 2048 bytes is cut
-- off, and up to three bytes more, so that the text is valid UTF-8 too.
pub aggregate-Reports :
    (results : List ProbeResult) (previous : Addr) (seen : List Addr)
    → let s = aggregate results previous seen in
      (0 < s.probes_ok → s.error ≡ [])
      × (s.probes_ok ≡ 0 → Reports (messages (take 255 results)) s.error)
unfolding aggregate
aggregate-Reports results previous seen =
    let rs = truncated results in
    let f = fold_probes nothing_folded rs in
    let r = finish_sample-error f (length rs) previous seen (few_rtts results) in
    let e : f.errors_in_order ≡ messages (take 255 results) =
      fold_probes-errors nothing_folded rs ∙ ap messages (truncated-take results) in
    let s = finish_sample f (sample_of (length rs) f previous seen) in
    (r.0, λ h. subst (λ ms. Reports ms s.error) e (r.1 h))
