-- ===== src/Variation/Template.antt =====
-- internal/variation/template.go and name.go: the placeholders of a template, their substitution, and the
-- names of the variants. `strings.TrimSpace` is an argument.
pub mod Pieces
pub mod Rendering
pub mod Tests
use proxy_sampler.Prelude.{
  ℕ, Bool, true, false, not, ltb, ◌==◌, List, [], ◌∷◌, ◌++◌, map, Option, none, some, Text, codes,
  Map, keys, lookup, lookup_or, add_all, length, sort, text_leb, list_eq, nat_eq, is_nil, ◌⊎◌, inl,
  inr, if◌then◌else◌,
}
use proxy_sampler.Go.Strings.{join}

pub data Brace : Type 0 where
  opens closes other : Brace

unfoldable pub brace : ℕ → Brace
brace c = if c == b'{' then opens else if c == b'}' then closes else other

-- The matches of `\{([^{}]*)\}` from left to right, each with the text between the one before and
-- itself, and the text behind the last. `literal` is that text so far, and `name` what has been read
-- since an open brace.
unfoldable pub scan : Text → Option Text → Text → List (Text × Text) × Text
unfolding brace
scan literal none [] = ([], literal)
scan literal (some name) [] = ([], literal ++ b'{' ∷ name)
scan literal none (c ∷ t) = elim (brace c) [
  | opens ↦ scan literal (some []) t
  | closes ↦ scan (literal ++ c ∷ []) none t
  | other ↦ scan (literal ++ c ∷ []) none t
]
scan literal (some name) (c ∷ t) = elim (brace c) [
  | opens ↦ scan (literal ++ b'{' ∷ name) (some []) t
  | closes ↦ let (pieces, tail) = scan [] none t in ((literal, name) ∷ pieces, tail)
  | other ↦ scan literal (some (name ++ c ∷ [])) t
]

abbrev pub split : Text → List (Text × Text) × Text
split raw = scan [] none raw

pub record Template : Type 0 where
  pub raw : Text
  pub names : List Text

pub data TemplateError : Type 0 where
  empty_template empty_placeholder too_long : TemplateError
  no_value : Text → TemplateError

abbrev pub max_rendered_bytes : ℕ
max_rendered_bytes = 8192

module _ (trim_space : Text → Text) where
  -- The names of the matches, up to one that is empty.
  unfoldable pub names_of : List (Text × Text) → TemplateError ⊎ List Text
  names_of [] = inr []
  names_of ((literal, name) ∷ pieces) =
      if is_nil (trim_space name)
      then inl empty_placeholder
      else elim (names_of pieces) [ inl e ↦ inl e | inr names ↦ inr (trim_space name ∷ names) ]

  unfoldable pub parse_template : Text → TemplateError ⊎ Template
  parse_template raw =
      if is_nil (trim_space raw) then inl empty_template else elim (names_of (split raw).0) [
        | inl e ↦ inl e
        | inr names ↦ inr (record { raw = raw; names = sort text_leb (add_all [] names) })
      ]

  -- The loop of `Render`, with what is built so far.
  unfoldable pub render_loop :
      Map Text Text → Text → List (Text × Text) → Text → TemplateError ⊎ Text
  render_loop values built [] tail =
      if ltb max_rendered_bytes (length (built ++ tail)) then inl too_long else inr (built ++ tail)
  render_loop values built ((literal, name) ∷ pieces) tail =
      elim (lookup (trim_space name) values) [
        | none ↦ inl (no_value (trim_space name))
        | some value ↦
            if ltb max_rendered_bytes (length (built ++ (literal ++ value)))
            then inl too_long
            else render_loop values (built ++ (literal ++ value)) pieces tail
      ]

  unfoldable pub render : Template → Map Text Text → TemplateError ⊎ Text
  unfolding render_loop
  render t values = render_loop values [] (split t.raw).0 (split t.raw).1

unfoldable pub variant_name : Text → Map Text Text → Text
variant_name run_name params =
    if is_nil (keys params)
    then run_name
    else run_name
      ++ (codes " ("
          ++ (join (codes ",")
                (map (λ k. k ++ (b'=' ∷ lookup_or [] k params)) (sort text_leb (keys params)))
              ++ codes ")"))
