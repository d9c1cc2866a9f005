-- ===== src/Go/Strings.antt =====
-- What the code uses of Go's `strings`.
use proxy_sampler.Prelude.{Bool, true, false, ◌&&◌, ◌||◌, ◌==◌, List, [], ◌∷◌, ◌++◌, Text}

-- `strings.HasPrefix` and `strings.Contains`.
abbrev pub has_prefix : Text → Text → Bool
has_prefix t [] = true
has_prefix [] (p ∷ ps) = false
has_prefix (c ∷ t) (p ∷ ps) = (c == p) && has_prefix t ps

abbrev pub has_substring : Text → Text → Bool
has_substring [] p = has_prefix [] p
has_substring (c ∷ t) p = has_prefix (c ∷ t) p || has_substring t p

-- `strings.Join`.
abbrev pub join : Text → List Text → Text
join separator [] = []
join separator (t ∷ []) = t
join separator (t ∷ u ∷ us) = t ++ (separator ++ join separator (u ∷ us))
