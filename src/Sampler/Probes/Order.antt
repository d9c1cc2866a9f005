-- ===== src/Sampler/Probes/Order.antt =====
-- The order of the results of `runOrderedProbes`.
use mathlib.Core.Bool.{false≢true}
use proxy_sampler.Prelude.{
  ℕ, zero, suc, ◌≤◌, ◌<◌, ◌≡◌, ◌⊎◌, inl, inr, refl, sym, ap, ◌∙◌, true, ◌&&◌, ◌||◌, ◌==◌, ltb, List,
  [], ◌∷◌, ◌++◌, arith, length, length-snoc, length-replicate, get_or, All, contains, remove,
  contains-remove, nat_eq, if◌then◌else◌, if-cases, Bool-cases, ==_iff, ◌=?◌,
}
use proxy_sampler.Sampler.Aggregate.{ProbeResult}
use proxy_sampler.Sampler.Worker.{probe_results}
use proxy_sampler.Sampler.Probes.{
  no_result, error_result, set_at, Probing, indexes, start_probes, ProbeStep, acquires, gives_up,
  finishes, probe_step, probe_steps, Follows,
}

record IsProbing (answer : ℕ → ProbeResult) (count limit : ℕ) (s : Probing) : Type 0 where
  pub size : length s.results ≡ count
  pub kept : s.limit ≡ limit
  pub few : length s.holding ≤ limit
  pub written :
      (i : ℕ)
      → i < count
      → (contains s.waiting i ≡ true)
        ⊎ ((contains s.holding i ≡ true) ⊎ (get_or s.results i no_result ≡ answer i))

length-set_at :
    (xs : List ProbeResult) (i : ℕ) (r : ProbeResult) → length (set_at xs i r) ≡ length xs
length-set_at [] i r = refl
length-set_at (x ∷ xs) zero r = refl
length-set_at (x ∷ xs) (suc i) r = ap suc (length-set_at xs i r)

get_or-set_at :
    (xs : List ProbeResult) (i j : ℕ) (r : ProbeResult)
    → j < length xs
    → get_or (set_at xs i r) j no_result ≡ (if i == j then r else get_or xs j no_result)
get_or-set_at [] i j r h = absurd (omega arith)
get_or-set_at (x ∷ xs) zero zero r h = refl
get_or-set_at (x ∷ xs) zero (suc j) r h = ground arith
get_or-set_at (x ∷ xs) (suc i) zero r h = ground arith
get_or-set_at (x ∷ xs) (suc i) (suc j) r h = ground (arith, get_or-set_at xs i j r (omega arith))

pub length-remove : (xs : List ℕ) (i : ℕ) → length (remove xs i) ≤ length xs
length-remove [] i = omega arith
length-remove (x ∷ xs) i = ground (arith, length-remove xs i)

-- Writing an index's answer makes its entry right, and keeps the others so.
set_at-written :
    (answer : ℕ → ProbeResult) (xs : List ProbeResult) (i j : ℕ) (r : ProbeResult)
    → j < length xs
    → answer i ≡ r
    → ((i == j) ≡ true) ⊎ (get_or xs j no_result ≡ answer j)
    → get_or (set_at xs i r) j no_result ≡ answer j
set_at-written answer xs i j r b f h = elim (Bool-cases (i == j)) [
  | inl e ↦ get_or-set_at xs i j r b ∙ rw e (sym f ∙ ap answer ((==_iff i j).0 e))
  | inr e ↦
      get_or-set_at xs i j r b
      ∙ rw e (elim h [ inl e' ↦ absurd (false≢true (sym e ∙ e')) | inr g ↦ g ])
]

probe_step-IsProbing :
    (answer : ℕ → ProbeResult) (count limit : ℕ) (a : ProbeStep) (s : Probing)
    → Follows answer a
    → IsProbing answer count limit s
    → IsProbing answer count limit (probe_step a s)
unfolding probe_step
probe_step-IsProbing answer count limit (acquires i) s f v =
    if-cases (IsProbing answer count limit) (contains s.waiting i && ltb (length s.holding) s.limit)
      (λ h. record {
        size = v.size;
        kept = v.kept;
        few = ground (arith, v.kept);
        written =
            λ j b. ground (arith, v.written j b, contains-remove s.waiting i j, nat_eq.beq_iff i j);
      })
      (λ h. v)
probe_step-IsProbing answer count limit (gives_up i e) s f v =
    if-cases (IsProbing answer count limit) (contains s.waiting i)
      (λ h. record {
        size = length-set_at s.results i (error_result e) ∙ v.size;
        kept = v.kept;
        few = v.few;
        written = λ j b. elim (v.written j b) [
          | inl w ↦ elim (Bool-cases (i == j)) [
            | inl same ↦ inr (
                inr (
                  set_at-written answer s.results i j (error_result e) (omega (arith, v.size)) f
                    (inl same)))
            | inr other ↦ inl (contains-remove s.waiting i j ∙ rw (w, other) refl)
          ]
          | inr (inl w) ↦ inr (inl w)
          | inr (inr g) ↦ inr (
              inr (
                set_at-written answer s.results i j (error_result e) (omega (arith, v.size)) f
                  (inr g)))
        ];
      })
      (λ h. v)
probe_step-IsProbing answer count limit (finishes i r) s f v =
    if-cases (IsProbing answer count limit) (contains s.holding i)
      (λ h. record {
        size = length-set_at s.results i r ∙ v.size;
        kept = v.kept;
        few = omega (arith, v.few, length-remove s.holding i);
        written = λ j b. elim (v.written j b) [
          | inl w ↦ inl w
          | inr (inl w) ↦ elim (Bool-cases (i == j)) [
            | inl same ↦
                inr
                  (inr (set_at-written answer s.results i j r (omega (arith, v.size)) f (inl same)))
            | inr other ↦ inr (inl (contains-remove s.holding i j ∙ rw (w, other) refl))
          ]
          | inr (inr g) ↦
              inr (inr (set_at-written answer s.results i j r (omega (arith, v.size)) f (inr g)))
        ];
      })
      (λ h. v)

probe_steps-IsProbing :
    (answer : ℕ → ProbeResult) (count limit : ℕ) (history : List ProbeStep) (s : Probing)
    → All (Follows answer) history
    → IsProbing answer count limit s
    → IsProbing answer count limit (probe_steps history s)
unfolding probe_steps
probe_steps-IsProbing answer count limit [] s f v = v
probe_steps-IsProbing answer count limit (a ∷ history) s f v =
    probe_steps-IsProbing answer count limit history (probe_step a s) f.1
      (probe_step-IsProbing answer count limit a s f.0 v)

contains-indexes : (n i : ℕ) → i < n → contains (indexes n) i ≡ true
contains-indexes zero i h = absurd (omega arith)
contains-indexes (suc n) i h = ground (arith, contains-indexes n i, contains_last (indexes n) n i)
  where
    contains_last :
        (xs : List ℕ) (n i : ℕ) → contains (xs ++ n ∷ []) i ≡ (contains xs i || (n =? i))
    contains_last [] n i = ground arith
    contains_last (x ∷ xs) n i = ground (arith, contains_last xs n i)

start_probes-IsProbing :
    (answer : ℕ → ProbeResult) (count limit : ℕ)
    → 0 < limit
    → IsProbing answer count limit (start_probes count limit)
unfolding start_probes
start_probes-IsProbing answer count limit h = record {
  size = length-replicate count no_result;
  kept = refl;
  few = omega arith;
  written = λ i b. inl (ground (arith, contains-indexes count i b));
}

length-probe_results : (n : ℕ) (answer : ℕ → ProbeResult) → length (probe_results n answer) ≡ n
unfolding probe_results
length-probe_results zero answer = refl
length-probe_results (suc n) answer =
    length-snoc (probe_results n answer) (answer n) ∙ ap suc (length-probe_results n answer)

get_or-snoc :
    (xs : List ProbeResult) (x : ProbeResult) (i : ℕ)
    → get_or (xs ++ x ∷ []) i no_result ≡ (if i == length xs then x else get_or xs i no_result)
get_or-snoc [] x zero = ground arith
get_or-snoc [] x (suc i) = ground arith
get_or-snoc (y ∷ ys) x zero = ground arith
get_or-snoc (y ∷ ys) x (suc i) = ground (arith, get_or-snoc ys x i)

get_or-probe_results :
    (n i : ℕ) (answer : ℕ → ProbeResult)
    → i < n
    → get_or (probe_results n answer) i no_result ≡ answer i
unfolding probe_results
get_or-probe_results zero i answer h = absurd (omega arith)
get_or-probe_results (suc n) i answer h = elim (Bool-cases (i == n)) [
  | inl e ↦
      get_or-snoc (probe_results n answer) (answer n) i
      ∙ rw (length-probe_results n answer, e) (ap answer (sym ((==_iff i n).0 e)))
  | inr e ↦
      get_or-snoc (probe_results n answer) (answer n) i
      ∙ rw (length-probe_results n answer, e)
          (get_or-probe_results n i answer (ground (arith, ==_iff i n)))
]

same_entries :
    (xs ys : List ProbeResult)
    → length xs ≡ length ys
    → ((i : ℕ) → i < length xs → get_or xs i no_result ≡ get_or ys i no_result)
    → xs ≡ ys
same_entries [] [] e h = refl
same_entries [] (y ∷ ys) e h = absurd (omega arith)
same_entries (x ∷ xs) [] e h = absurd (omega arith)
same_entries (x ∷ xs) (y ∷ ys) e h =
    ap (λ z. z ∷ xs) (h 0 (omega arith))
    ∙ ap (◌∷◌ y) (same_entries xs ys (omega arith) (λ i b. h (suc i) (omega arith)))

-- However the goroutines interleave, `runOrderedProbes` with a limit above 0 never lets more of them
-- probe at once than the limit; and once all have returned, the results stand in the order of the
-- indexes, each what its own goroutine was answered.
pub probe_steps-ordered :
    (answer : ℕ → ProbeResult) (count limit : ℕ) (history : List ProbeStep)
    → 0 < limit
    → All (Follows answer) history
    → (let s = probe_steps history (start_probes count limit) in
        (length s.holding ≤ limit)
        × (s.waiting ≡ [] → s.holding ≡ [] → s.results ≡ probe_results count answer))
probe_steps-ordered answer count limit history h f =
    let v =
      probe_steps-IsProbing answer count limit history (start_probes count limit) f
        (start_probes-IsProbing answer count limit h) in
    (
      v.few,
      λ w g. same_entries _ _ (v.size ∙ sym (length-probe_results count answer)) (λ i b.
          elim (v.written i (omega (arith, v.size))) [
            | inl x ↦ absurd (false≢true (sym (ap (λ xs. contains xs i) w) ∙ x))
            | inr (inl x) ↦ absurd (false≢true (sym (ap (λ xs. contains xs i) g) ∙ x))
            | inr (inr x) ↦ x ∙ sym (get_or-probe_results count i answer (omega (arith, v.size)))
          ]),
    )
