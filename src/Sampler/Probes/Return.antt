-- ===== src/Sampler/Probes/Return.antt =====
-- The goroutines of `runOrderedProbes` can always go on until all have returned.
use proxy_sampler.Prelude.{
  ℕ, zero, suc, ◌+◌, ◌*◌, ◌≤◌, ◌<◌, ◌≡◌, refl, sym, ap, ◌∙◌, subst, true, ◌&&◌, ltb, List, [], ◌∷◌,
  arith, length, All, contains, remove, nat_eq,
}
use proxy_sampler.Sampler.Aggregate.{ProbeResult}
use proxy_sampler.Sampler.Probes.Order.{length-remove}
use proxy_sampler.Sampler.Probes.{
  Probing, start_probes, ProbeStep, acquires, gives_up, finishes, probe_step, probe_steps, Follows,
}

length-remove_head : (xs : List ℕ) (i : ℕ) → length (remove (i ∷ xs) i) ≤ length xs
length-remove_head xs i = ground (arith, length-remove xs i)

finishes-shorter :
    (i : ℕ) (r : ProbeResult) (rest : List ℕ) (s : Probing)
    → s.holding ≡ i ∷ rest
    → ((probe_step (finishes i r) s).limit ≡ s.limit)
      × ((probe_step (finishes i r) s).waiting ≡ s.waiting)
      × (length (probe_step (finishes i r) s).holding ≤ length rest)
unfolding probe_step
finishes-shorter i r rest s e =
    let here : contains s.holding i ≡ true = ap (λ xs. contains xs i) e ∙ ground arith in
    rw here (
      refl,
      refl,
      subst (λ xs. length (remove xs i) ≤ length rest) (sym e) (length-remove_head rest i),
    )

acquires-shorter :
    (i : ℕ) (rest : List ℕ) (s : Probing)
    → s.holding ≡ []
    → s.waiting ≡ i ∷ rest
    → 0 < s.limit
    → ((probe_step (acquires i) s).limit ≡ s.limit)
      × (length (probe_step (acquires i) s).waiting ≤ length rest)
      × (length (probe_step (acquires i) s).holding ≡ 1)
unfolding probe_step
acquires-shorter i rest s e w l =
    let here : (contains s.waiting i && ltb (length s.holding) s.limit) ≡ true =
      ap (λ xs. contains xs i && ltb (length s.holding) s.limit) w
      ∙ ap (λ xs. contains (i ∷ rest) i && ltb (length xs) s.limit) e
      ∙ ground arith in
    rw here (
      refl,
      subst (λ xs. length (remove xs i) ≤ length rest) (sym w) (length-remove_head rest i),
      ap (λ xs. suc (length xs)) e,
    )

return_within :
    (answer : ℕ → ProbeResult) (n : ℕ) (s : Probing) (ws hs : List ℕ)
    → s.waiting ≡ ws
    → s.holding ≡ hs
    → 0 < s.limit
    → 2 * length ws + length hs ≤ n
    → (history : List ProbeStep) × All (Follows answer) history
      × ((probe_steps history s).waiting ≡ [])
      × ((probe_steps history s).holding ≡ [])
unfolding probe_steps
return_within answer n s [] [] w h l b = ([], tt, w, h)
return_within answer zero s (i ∷ ws) hs w h l b = absurd (omega arith)
return_within answer zero s [] (i ∷ hs) w h l b = absurd (omega arith)
return_within answer (suc n) s ws (i ∷ hs) w h l b =
    let (k, e, m) = finishes-shorter i (answer i) hs s h in
    let (history, f, x, y) =
      return_within answer n (probe_step (finishes i (answer i)) s) _ _ refl refl (omega (arith, k))
        (omega (arith, m, ap length (e ∙ w))) in
    (finishes i (answer i) ∷ history, (refl, f), x, y)
return_within answer (suc n) s (i ∷ ws) [] w h l b =
    let (k, m, e) = acquires-shorter i ws s h w l in
    let (history, f, x, y) =
      return_within answer n (probe_step (acquires i) s) _ _ refl refl (omega (arith, k))
        (omega (arith, m, e)) in
    (acquires i ∷ history, (tt, f), x, y)

step-limit : (a : ProbeStep) (s : Probing) → (probe_step a s).limit ≡ s.limit
unfolding probe_step
step-limit (acquires i) s = ground arith
step-limit (gives_up i e) s = ground arith
step-limit (finishes i r) s = ground arith

steps-limit : (history : List ProbeStep) (s : Probing) → (probe_steps history s).limit ≡ s.limit
unfolding probe_steps
steps-limit [] s = refl
steps-limit (a ∷ history) s = steps-limit history (probe_step a s) ∙ step-limit a s

-- Whatever the goroutines of `runOrderedProbes` with a limit above 0 have done, they can still all
-- return: some further steps, each with its index's answer, leave none waiting and none probing.
pub probe_steps-return :
    (answer : ℕ → ProbeResult) (count limit : ℕ) (before : List ProbeStep)
    → 0 < limit
    → (after : List ProbeStep) × All (Follows answer) after
      × ((probe_steps after (probe_steps before (start_probes count limit))).waiting ≡ [])
      × ((probe_steps after (probe_steps before (start_probes count limit))).holding ≡ [])
unfolding start_probes
probe_steps-return answer count limit before h =
    let s = probe_steps before (start_probes count limit) in
    return_within answer (2 * length s.waiting + length s.holding) s s.waiting s.holding refl refl
      (omega (arith, steps-limit before (start_probes count limit))) (omega arith)
