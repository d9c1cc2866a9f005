-- ===== src/Variation/Template/Rendering.antt =====
-- Rendering against the substitution without a bound.
use proxy_sampler.Prelude.{
  ◌≤◌, ◌≡◌, refl, sym, ap, ◌∙◌, false, ltb, List, [], ◌∷◌, ◌++◌, append_assoc, Option, none, some,
  Text, Map, lookup, length, length-append, list_eq, nat_eq, inl, inr, ◌↔◌, arith, Option-cases,
  subst,
}
use proxy_sampler.Variation.Template.{split, Template, max_rendered_bytes, render_loop, render}

module _ (trim_space : Text → Text) (values : Map Text Text) where
  -- The template with every placeholder replaced; none where a value is missing.
  abbrev pub fill : List (Text × Text) → Text → Option Text
  fill [] tail = some tail
  fill ((literal, name) ∷ pieces) tail = elim (lookup (trim_space name) values) [
    | none ↦ none
    | some value ↦ elim (fill pieces tail) [
      | none ↦ none
      | some rest ↦ some ((literal ++ value) ++ rest)
    ]
  ]

  render_loop-fill :
      (built : Text) (pieces : List (Text × Text)) (tail s : Text)
      → render_loop trim_space values built pieces tail ≡ inr s
      → (rest : Text) × (fill pieces tail ≡ some rest)
        × (s ≡ built ++ rest)
        × (length s ≤ max_rendered_bytes)
  unfolding render_loop
  render_loop-fill built [] tail s h = (tail, refl, ground arith, ground arith)
  render_loop-fill built ((literal, name) ∷ pieces) tail s h =
      elim (Option-cases (lookup (trim_space name) values)) [
        | inl e ↦ absurd (ground (arith, e, h))
        | inr (value, e) ↦
            let built' = built ++ (literal ++ value) in
            let went : render_loop trim_space values built' pieces tail ≡ inr s =
              ground (arith, e, h) in
            let (rest, filled, built_up, short) = render_loop-fill built' pieces tail s went in
            (
              (literal ++ value) ++ rest,
              rw (e, fill, filled) refl,
              built_up ∙ append_assoc built (literal ++ value) rest,
              short,
            )
      ]

  fill-render_loop :
      (built : Text) (pieces : List (Text × Text)) (tail rest : Text)
      → fill pieces tail ≡ some rest
      → length (built ++ rest) ≤ max_rendered_bytes
      → render_loop trim_space values built pieces tail ≡ inr (built ++ rest)
  unfolding render_loop
  fill-render_loop built [] tail rest f short = ground arith
  fill-render_loop built ((literal, name) ∷ pieces) tail rest f short =
      elim (Option-cases (lookup (trim_space name) values)) [
        | inl e ↦ absurd (ground (arith, e, f))
        | inr (value, e) ↦ elim (Option-cases (fill pieces tail)) [
          | inl missing ↦ absurd (ground (arith, e, f, missing))
          | inr (more, filled) ↦
              let built' = built ++ (literal ++ value) in
              let same : rest ≡ (literal ++ value) ++ more = ground (arith, e, f, filled) in
              let all : built ++ rest ≡ built' ++ more =
                ap (λ r. built ++ r) same ∙ sym (append_assoc built (literal ++ value) more) in
              let fits : length (built' ++ more) ≤ max_rendered_bytes =
                subst (λ t. length t ≤ max_rendered_bytes) all short in
              let rendered = fill-render_loop built' pieces tail more filled fits in
              let within : ltb max_rendered_bytes (length built') ≡ false =
                ground (arith, fits, length-append built' more) in
              rw (e, render_loop, within) (rendered ∙ ap (λ t. inr t) (sym all))
        ]
      ]

-- Rendering succeeds exactly if every placeholder has a value and the template with all of them
-- replaced is at most 8192 bytes long, and then it gives that text.
pub render_lem :
    (trim_space : Text → Text) (t : Template) (values : Map Text Text) (s : Text)
    → (render trim_space t values ≡ inr s) ↔ (
        (fill trim_space values (split t.raw).0 (split t.raw).1 ≡ some s)
        × (length s ≤ max_rendered_bytes))
unfolding render
render_lem trim_space t values s = (
  λ h.
      let (rest, filled, same, short) =
        render_loop-fill trim_space values [] (split t.raw).0 (split t.raw).1 s h in
      (filled ∙ ap (λ r. some r) (sym same), short),
  λ h. fill-render_loop trim_space values [] (split t.raw).0 (split t.raw).1 s h.0 h.1,
)
