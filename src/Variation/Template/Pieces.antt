-- ===== src/Variation/Template/Pieces.antt =====
-- The pieces of a template, and what rendering makes of them.
use proxy_sampler.Prelude.{
  ℕ, ◌≡◌, refl, sym, ap, ◌∙◌, Bool, true, false, ◌==◌, List, [], ◌∷◌, ◌++◌, append-nil,
  append_assoc, Option, none, some, Text, All, list_eq, nat_eq, ◌⊎◌, inl, inr, arith, Bool-cases,
  Option-cases,
}
use proxy_sampler.Variation.Template.{Brace, opens, closes, other, brace, scan, split}

-- The text that the pieces come from.
abbrev pub unsplit : List (Text × Text) × Text → Text
unsplit ([], tail) = tail
unsplit ((literal, name) ∷ pieces, tail) =
    literal ++ (b'{' ∷ (name ++ (b'}' ∷ unsplit (pieces, tail))))

abbrev pub HasNoBrace : Text → Type 0
HasNoBrace t = All (λ c. brace c ≡ other) t

abbrev pending : Option Text → Text
pending none = []
pending (some name) = b'{' ∷ name

brace-cases :
    (c : ℕ)
    → ((brace c ≡ opens) × (c ≡ b'{')) ⊎ (((brace c ≡ closes) × (c ≡ b'}')) ⊎ (brace c ≡ other))
unfolding brace
brace-cases c = elim (Bool-cases (c == b'{')) [
  | inl e ↦ inl (ground (arith, e), ground (arith, e))
  | inr n ↦ elim (Bool-cases (c == b'}')) [
    | inl e ↦ inr (inl (ground (arith, e), ground (arith, e)))
    | inr m ↦ inr (inr (ground (arith, n, m)))
  ]
]

snoc : (xs ys : Text) (c : ℕ) → (xs ++ c ∷ []) ++ ys ≡ xs ++ c ∷ ys
snoc xs ys c = append_assoc xs (c ∷ []) ys

scan-unsplit :
    (literal : Text) (name : Option Text) (t : Text)
    → unsplit (scan literal name t) ≡ literal ++ (pending name ++ t)
unfolding scan
scan-unsplit literal none [] = sym (append-nil literal)
scan-unsplit literal (some name) [] = ap (λ n. literal ++ (b'{' ∷ n)) (sym (append-nil name))
scan-unsplit literal none (c ∷ t) = elim (brace-cases c) [
  | inl (e, q) ↦
      rw (e, scan) (scan-unsplit literal (some []) t ∙ ap (λ d. literal ++ (d ∷ t)) (sym q))
  | inr (inl (e, q)) ↦ rw (e, scan) (scan-unsplit (literal ++ c ∷ []) none t ∙ snoc literal t c)
  | inr (inr e) ↦ rw (e, scan) (scan-unsplit (literal ++ c ∷ []) none t ∙ snoc literal t c)
]
scan-unsplit literal (some name) (c ∷ t) = elim (brace-cases c) [
  | inl (e, q) ↦
      rw (e, scan)
        (scan-unsplit (literal ++ (b'{' ∷ name)) (some []) t
          ∙ append_assoc literal (b'{' ∷ name) (b'{' ∷ t)
          ∙ ap (λ d. literal ++ (b'{' ∷ (name ++ (d ∷ t)))) (sym q))
  | inr (inl (e, q)) ↦
      rw (e, scan)
        (ap (λ u. literal ++ (b'{' ∷ (name ++ (b'}' ∷ u)))) (scan-unsplit [] none t)
          ∙ ap (λ d. literal ++ (b'{' ∷ (name ++ (d ∷ t)))) (sym q))
  | inr (inr e) ↦
      rw (e, scan)
        (scan-unsplit literal (some (name ++ c ∷ [])) t
          ∙ ap (λ u. literal ++ (b'{' ∷ u)) (snoc name t c))
]

All-snoc : (t : Text) (c : ℕ) → HasNoBrace t → brace c ≡ other → HasNoBrace (t ++ c ∷ [])
All-snoc [] c h e = (e, tt)
All-snoc (x ∷ t) c h e = (h.0, All-snoc t c h.1 e)

-- Whether a brace is open behind a text; none where a placeholder has been closed.
abbrev after_brace : Bool → Brace → Option Bool
after_brace opened opens = some true
after_brace true closes = none
after_brace false closes = some false
after_brace opened other = some opened

abbrev run : Bool → Text → Option Bool
run opened [] = some opened
run opened (c ∷ t) = elim (after_brace opened (brace c)) [ none ↦ none | some o ↦ run o t ]

-- No placeholder stands in a text.
abbrev pub HasNoMatch : Text → Type 0
HasNoMatch t = (opened : Bool) × (run false t ≡ some opened)

run-append :
    (opened after : Bool) (s t : Text)
    → run opened s ≡ some after
    → run opened (s ++ t) ≡ run after t
run-append opened after [] t h = ap (λ o. run o t) (ground arith)
run-append opened after (c ∷ s) t h = elim (Option-cases (after_brace opened (brace c))) [
  | inl e ↦ ground (arith, e, h)
  | inr (o, e) ↦ ground (arith, e, h, run-append o after s t)
]

run-plain : (opened : Bool) (t : Text) → HasNoBrace t → run opened t ≡ some opened
run-plain opened [] h = refl
run-plain opened (c ∷ t) h = rw (h.0, run) (run-plain opened t h.1)

-- What the scan knows of the literal that it collects.
abbrev IsOpen : Text → Option Text → Type 0
IsOpen literal none = run false literal ≡ some false
IsOpen literal (some name) = HasNoMatch literal × HasNoBrace name

opened_brace : brace b'{' ≡ opens
unfolding brace
opened_brace = refl

HasNoMatch-open :
    (literal name : Text)
    → HasNoMatch literal
    → HasNoBrace name
    → HasNoMatch (literal ++ (b'{' ∷ name))
HasNoMatch-open literal name (opened, e) h = (
  true,
  run-append false opened literal (b'{' ∷ name) e ∙ rw (opened_brace, run) (run-plain true name h),
)

abbrev pub IsSplit : List (Text × Text) × Text → Type 0
IsSplit ([], tail) = HasNoMatch tail
IsSplit ((literal, name) ∷ pieces, tail) =
    HasNoMatch literal × HasNoBrace name × IsSplit (pieces, tail)

scan-IsSplit :
    (literal : Text) (name : Option Text) (t : Text)
    → IsOpen literal name
    → IsSplit (scan literal name t)
unfolding scan
scan-IsSplit literal none [] h = (false, h)
scan-IsSplit literal (some name) [] h = HasNoMatch-open literal name h.0 h.1
scan-IsSplit literal none (c ∷ t) h = elim (brace-cases c) [
  | inl (e, q) ↦ rw (e, scan, IsSplit) (scan-IsSplit literal (some []) t ((false, h), tt))
  | inr (inl (e, q)) ↦
      rw (e, scan, IsSplit)
        (scan-IsSplit (literal ++ c ∷ []) none t
          (run-append false false literal (c ∷ []) h ∙ rw (e, run)))
  | inr (inr e) ↦
      rw (e, scan, IsSplit)
        (scan-IsSplit (literal ++ c ∷ []) none t
          (run-append false false literal (c ∷ []) h ∙ rw (e, run)))
]
scan-IsSplit literal (some name) (c ∷ t) h = elim (brace-cases c) [
  | inl (e, q) ↦
      rw (e, scan, IsSplit)
        (scan-IsSplit (literal ++ (b'{' ∷ name)) (some []) t
          (HasNoMatch-open literal name h.0 h.1, tt))
  | inr (inl (e, q)) ↦ rw (e, scan, IsSplit) (h.0, h.1, scan-IsSplit [] none t refl)
  | inr (inr e) ↦
      rw (e, scan, IsSplit)
        (scan-IsSplit literal (some (name ++ c ∷ [])) t (h.0, All-snoc name c h.1 e))
]

-- The placeholders of a template and the text around them make up the template; no name has a brace
-- in it, and no further placeholder stands in the text before or behind one.
pub split-unsplit : (raw : Text) → (unsplit (split raw) ≡ raw) × IsSplit (split raw)
split-unsplit raw = (scan-unsplit [] none raw, scan-IsSplit [] none raw refl)
