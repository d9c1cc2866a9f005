-- ===== src/Go/Utf8.antt =====
-- `utf8.ValidString` as the automaton of RFC 3629 (no overlong form, no surrogate, nothing above
-- U+10FFFF), and `strings.ToValidUTF8`.
pub mod Laws
use proxy_sampler.Prelude.{
  ℕ, zero, suc, Bool, true, false, ◌&&◌, ◌==◌, leb, ltb, Text, [], ◌∷◌, ◌++◌, Option, none, some,
  if◌then◌else◌,
}

-- What the automaton still wants: `more n` is n continuation bytes; the other states restrict
-- the byte behind E0, ED, F0 and F4.
pub data Utf8State : Type 0 where
  start reject : Utf8State
  more1 more2 more3 : Utf8State
  after_e0 after_ed after_f0 after_f4 : Utf8State

abbrev pub between : ℕ → ℕ → ℕ → Bool
between lo hi b = leb lo b && leb b hi

unfoldable pub lead : ℕ → Utf8State
lead b =
    if ltb b 0x80
    then start
    else if between 0xc2 0xdf b
    then more1
    else if b == 0xe0
    then after_e0
    else if b == 0xed
    then after_ed
    else if between 0xe1 0xef b
    then more2
    else if b == 0xf0
    then after_f0
    else if b == 0xf4
    then after_f4
    else if between 0xf1 0xf3 b
    then more3
    else reject

unfoldable pub next : Utf8State → ℕ → Utf8State
next start b = lead b
next reject b = reject
next more1 b = if between 0x80 0xbf b then start else reject
next more2 b = if between 0x80 0xbf b then more1 else reject
next more3 b = if between 0x80 0xbf b then more2 else reject
next after_e0 b = if between 0xa0 0xbf b then more1 else reject
next after_ed b = if between 0x80 0x9f b then more1 else reject
next after_f0 b = if between 0x90 0xbf b then more2 else reject
next after_f4 b = if between 0x80 0x8f b then more2 else reject

unfoldable pub run : Utf8State → Text → Utf8State
run s [] = s
run s (b ∷ t) = run (next s b) t

abbrev pub is_start : Utf8State → Bool
is_start start = true
is_start _ = false

unfoldable pub valid_string : Text → Bool
valid_string t = is_start (run start t)

-- How many bytes complete the encoding that has been read up to a state: the width that
-- `utf8.DecodeRune` returns at `start`, where none is its error.
unfoldable pub rune_end : Utf8State → Text → Option ℕ
rune_end s [] = none
rune_end s (b ∷ t) = elim (next s b) [
  | start ↦ some 1
  | reject ↦ none
  | s' ↦ elim (rune_end s' t) [ none ↦ none | some width ↦ some (suc width) ]
]

-- U+FFFD.
abbrev pub replacement : Text
replacement = 0xef ∷ 0xbf ∷ 0xbd ∷ []

-- The loop of `strings.ToValidUTF8`: `left` bytes of an encoding are still to be copied, and
-- `inside` says that the byte before was invalid.
unfoldable pub to_valid_from : Text → ℕ → Bool → Text
to_valid_from [] left inside = []
to_valid_from (b ∷ t) (suc left) inside = b ∷ to_valid_from t left false
to_valid_from (b ∷ t) zero inside = elim (rune_end start (b ∷ t)) [
  | some (suc left) ↦ b ∷ to_valid_from t left false
  | _ ↦ (if inside then [] else replacement) ++ to_valid_from t zero true
]

unfoldable pub to_valid_utf8 : Text → Text
to_valid_utf8 t = to_valid_from t zero false
