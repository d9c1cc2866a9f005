-- ===== src/Go/Utf8/Laws.antt =====
-- Laws of the UTF-8 functions: a repaired string is valid, and a valid string that is cut is valid
-- again once at most three bytes are dropped.
use proxy_sampler.Prelude.{
  ℕ, zero, suc, ◌+◌, ◌-◌, ◌≤◌, ◌≡◌, ◌≢◌, refl, ◌⊎◌, inl, inr, Bool, true, false, arith, Text, [],
  ◌∷◌, ◌++◌, Option, none, some, length, take, if◌then◌else◌,
}
use proxy_sampler.Go.Utf8.{
  Utf8State, lead, start, reject, more1, more2, next, run, valid_string, rune_end, replacement,
  to_valid_from, to_valid_utf8,
}

-- A state from which `left` more bytes of the text reach the end of an encoding.
abbrev Ready : Utf8State → Text → ℕ → Type 0
Ready s t zero = s ≡ start
Ready s t (suc left) = rune_end s t ≡ some (suc left)

rune_end-pos : (s : Utf8State) (t : Text) → rune_end s t ≢ some 0
unfolding rune_end
rune_end-pos s [] = ground arith
rune_end-pos s (b ∷ t) = ground (arith, rune_end-pos (next s b) t)

Ready-next :
    (s : Utf8State) (b : ℕ) (t : Text) (left : ℕ)
    → rune_end s (b ∷ t) ≡ some (suc left)
    → Ready (next s b) t left
unfolding rune_end
Ready-next s b t zero h = ground (arith, rune_end-pos (next s b) t)
Ready-next s b t (suc left) h = ground arith

run-replacement : run start replacement ≡ start
unfolding run next lead
run-replacement = refl

run-append : (xs ys : Text) (s : Utf8State) → run s (xs ++ ys) ≡ run (run s xs) ys
unfolding run
run-append [] ys s = refl
run-append (b ∷ xs) ys s = run-append xs ys (next s b)

run-marker :
    (inside : Bool) (t : Text)
    → run start t ≡ start
    → run start ((if inside then [] else replacement) ++ t) ≡ start
run-marker true t h = h
run-marker false t h = rw (run-append replacement t start, run-replacement) h

run-to_valid_from :
    (t : Text) (left : ℕ) (inside : Bool) (s : Utf8State)
    → Ready s t left
    → run s (to_valid_from t left inside) ≡ start
unfolding run to_valid_from
run-to_valid_from [] zero inside s h = h
run-to_valid_from [] (suc left) inside s h = unfold rune_end in cc
run-to_valid_from (b ∷ t) (suc left) inside s h =
    run-to_valid_from t left false (next s b) (Ready-next s b t left h)
run-to_valid_from (b ∷ t) zero inside s h = rw h (
    go (rune_end start (b ∷ t)) refl (λ left. run-to_valid_from t left false (next start b))
      (run-marker inside _ (run-to_valid_from t zero true start refl)))
  where
    go :
        (o : Option ℕ)
        → rune_end start (b ∷ t) ≡ o
        → ((left : ℕ)
            → Ready (next start b) t left
            → run (next start b) (to_valid_from t left false) ≡ start)
        → run start ((if inside then [] else replacement) ++ to_valid_from t zero true) ≡ start
        → run start (to_valid_from (b ∷ t) zero inside) ≡ start
    go none e copy mark = rw (e, to_valid_from) mark
    go (some zero) e copy mark = rw (e, to_valid_from) mark
    go (some (suc left)) e copy mark =
        rw (e, to_valid_from) (copy left (Ready-next start b t left e))

pub valid-nil : valid_string [] ≡ true
unfolding valid_string run
valid-nil = refl

-- Repair makes any string valid.
pub valid-to_valid_utf8 : (t : Text) → valid_string (to_valid_utf8 t) ≡ true
unfolding valid_string to_valid_utf8
valid-to_valid_utf8 t = rw (run-to_valid_from t zero false start refl)

-- How many bytes of an unfinished encoding have been read, at most.
abbrev depth : Utf8State → ℕ
depth start = 0
depth more1 = 3
depth more2 = 2
depth _ = 1

run-reject : (t : Text) → run reject t ≡ reject
unfolding run next
run-reject [] = refl
run-reject (b ∷ t) = run-reject t

depth-next :
    (s : Utf8State) (b : ℕ)
    → (next s b ≡ start) ⊎ (next s b ≡ reject) ⊎ (depth s + 1 ≤ depth (next s b))
unfolding next lead
depth-next start b = ground arith
depth-next reject b = ground arith
depth-next s b = ground arith

depth-le : (s : Utf8State) → depth s ≤ 3
depth-le start = omega arith
depth-le reject = omega arith
depth-le s = omega arith

take_later :
    (b n k : ℕ) (t : Text) (s : Utf8State)
    → k ≤ n
    → run (next s b) (take (n - k) t) ≡ start
    → run s (take (suc n - k) (b ∷ t)) ≡ start
unfolding run
take_later b n k t s h r = let e : suc n - k ≡ suc (n - k) = omega arith in rw e r

-- Cutting a string behind `n` bytes, in a state that has read `j` bytes of an encoding: a cut at
-- most three bytes earlier ends an encoding, unless the encoding began before the string.
cut_back :
    (t : Text) (n j : ℕ) (s : Utf8State)
    → run s t ≢ reject
    → n ≤ length t
    → j ≤ depth s
    → ((k : ℕ) × (k ≤ 3) × (k ≤ n) × (run s (take (n - k) t) ≡ start)) ⊎ (n + j ≤ 3)
unfolding run
cut_back t zero j s h l d = inr (omega (arith, depth-le s))
cut_back [] (suc n) j s h l d = absurd (omega arith)
cut_back (b ∷ t) (suc n) j s h l d = elim (depth-next s b) [
  | inl e ↦ elim (cut_back t n 0 (next s b) h (omega arith) (omega arith)) [
    | inl (k, k3, kn, r) ↦ inl (k, k3, omega arith, take_later b n k t s kn r)
    | inr few ↦ inl (
      n,
      omega arith,
      omega arith,
      take_later b n n t s (omega arith) (let z : n - n ≡ 0 = omega arith in rw (z, e)),
    )
  ]
  | inr (inl e) ↦ absurd (h (rw (e, run) (run-reject t)))
  | inr (inr e) ↦ elim (cut_back t n (j + 1) (next s b) h (omega arith) (omega arith)) [
    | inl (k, k3, kn, r) ↦ inl (k, k3, omega arith, take_later b n k t s kn r)
    | inr few ↦ inr (omega arith)
  ]
]

-- A valid string that is cut anywhere is valid once up to three more bytes are dropped.
pub valid_prefix :
    (t : Text) (n : ℕ)
    → valid_string t ≡ true
    → n ≤ length t
    → (k : ℕ) × (k ≤ 3) × (k ≤ n) × (valid_string (take (n - k) t) ≡ true)
unfolding valid_string
valid_prefix t n h l = elim (cut_back t n 0 start (λ e. ground arith) l (omega arith)) [
  | inl (k, k3, kn, r) ↦ (k, k3, kn, rw r)
  | inr few ↦
      (n, omega arith, omega arith, (let z : n - n ≡ 0 = omega arith in rw z (unfold run in refl)))
]
