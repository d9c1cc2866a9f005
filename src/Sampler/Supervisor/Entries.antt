-- ===== src/Sampler/Supervisor/Entries.antt =====
-- The goroutines that are listed, against what the supervisor's maps say of their sessions.
use proxy_sampler.Prelude.{
  ℕ, suc, ◌≡◌, ◌≢◌, refl, sym, ap, ◌∙◌, true, false, ◌==◌, ◌&&◌, List, [], ◌∷◌, Option, none, some,
  nat_eq, contains, Distinct, length, All, arith, if-cases, ==_iff, subst, Bool-cases, inl, inr,
}
use proxy_sampler.Sampler.Supervisor.Interleaving.{drop, has, ids}

-- What is said of the entries survives a change of the map at a session that none of them has.
pub All-moved :
    (f g : ℕ → Option ℕ) (id : ℕ) (es : List (ℕ × ℕ))
    → ((j : ℕ) → j ≢ id → g j ≡ f j)
    → contains (ids es) id ≡ false
    → All (λ e. f e.0 ≡ some e.1) es
    → All (λ e. g e.0 ≡ some e.1) es
All-moved f g id [] same c h = tt
All-moved f g id (e ∷ es) same c h = (
  same e.0 (λ q. ground (arith, ==_iff e.0 id)) ∙ h.0,
  All-moved f g id es same (ground arith) h.1,
)

pub contains-drop :
    (e : ℕ × ℕ) (es : List (ℕ × ℕ)) (i : ℕ)
    → contains (ids es) i ≡ false
    → contains (ids (drop e es)) i ≡ false
contains-drop e [] i h = refl
contains-drop e (x ∷ xs) i h = ground (arith, contains-drop e xs i)

pub drop-Distinct : (e : ℕ × ℕ) (es : List (ℕ × ℕ)) → Distinct (ids es) → Distinct (ids (drop e es))
drop-Distinct e [] h = tt
drop-Distinct e (x ∷ xs) h = ground (arith, drop-Distinct e xs h.1, contains-drop e xs x.0)

pub contains-has : (e : ℕ × ℕ) (es : List (ℕ × ℕ)) → has es e ≡ true → contains (ids es) e.0 ≡ true
contains-has e [] h = ground arith
contains-has e (x ∷ xs) h = ground (arith, contains-has e xs)

-- The session of an entry that is dropped is gone.
pub drop-absent :
    (e : ℕ × ℕ) (es : List (ℕ × ℕ))
    → Distinct (ids es)
    → has es e ≡ true
    → contains (ids (drop e es)) e.0 ≡ false
drop-absent e [] d h = refl
drop-absent e (x ∷ xs) d h = elim (Bool-cases (x.0 == e.0)) [
  | inl same ↦
      let id : x.0 ≡ e.0 = (==_iff x.0 e.0).0 same in
      let gone : contains (ids xs) e.0 ≡ false =
        sym (ap (λ (i : ℕ). contains (ids xs) i) id) ∙ d.0 in
      ground (arith, contains-has e xs)
  | inr other ↦ ground (arith, drop-absent e xs d.1)
]

pub All-drop : (P : ℕ × ℕ → Type 0) (e : ℕ × ℕ) (es : List (ℕ × ℕ)) → All P es → All P (drop e es)
All-drop P e [] h = tt
All-drop P e (x ∷ xs) h =
    if-cases (All P) ((x.0 == e.0) && (x.1 == e.1)) (λ _. h.1) (λ _. (h.0, All-drop P e xs h.1))

pub length-drop :
    (e : ℕ × ℕ) (es : List (ℕ × ℕ)) → has es e ≡ true → length es ≡ suc (length (drop e es))
length-drop e [] h = ground arith
length-drop e (x ∷ xs) h = ground (arith, length-drop e xs)

-- An entry that the list has is as the predicate says.
pub All-has :
    (P : ℕ → ℕ → Type 0) (id pointer : ℕ) (es : List (ℕ × ℕ))
    → All (λ e. P e.0 e.1) es
    → has es (id, pointer) ≡ true
    → P id pointer
All-has P id pointer [] h e = absurd (ground arith)
All-has P id pointer (x ∷ xs) h e = elim (Bool-cases ((x.0 == id) && (x.1 == pointer))) [
  | inl same ↦
      subst (λ (i : ℕ). P i pointer) (ground arith) (subst (λ (q : ℕ). P x.0 q) (ground arith) h.0)
  | inr other ↦ All-has P id pointer xs h.1 (ground arith)
]

-- A key without a value stands in no entry.
pub absent :
    (f : ℕ → Option ℕ) (id : ℕ) (es : List (ℕ × ℕ))
    → All (λ e. f e.0 ≡ some e.1) es
    → f id ≡ none
    → contains (ids es) id ≡ false
absent f id [] h e = refl
absent f id (x ∷ xs) h e = ground (arith, absent f id xs h.1 e, ==_iff x.0 id, h.0)

pub All-same :
    (f g : ℕ → Option ℕ) (es : List (ℕ × ℕ))
    → ((j : ℕ) → g j ≡ f j)
    → All (λ e. f e.0 ≡ some e.1) es
    → All (λ e. g e.0 ≡ some e.1) es
All-same f g [] same h = tt
All-same f g (e ∷ es) same h = (same e.0 ∙ h.0, All-same f g es same h.1)
