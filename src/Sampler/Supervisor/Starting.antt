-- ===== src/Sampler/Supervisor/Starting.antt =====
-- Starting a worker keeps the protocol.
use proxy_sampler.Prelude.{
  ℕ, Bool, true, false, not, ◌&&◌, ◌||◌, ◌≡◌, refl, sym, ap, ◌∙◌, ◌∷◌, Option, none, some, ◌⊎◌, inl,
  inr, contains, nat_eq, if◌then◌else◌,
}
use proxy_sampler.Db.Store.{
  StoreError, database, not_found, not_running, already_running, is_running,
}
use proxy_sampler.Sampler.Supervisor.Flows.{
  Failure, of_store, is_not_running, is_not_found, Flow, start, start_current, is_gone,
}
use proxy_sampler.Sampler.Supervisor.Protocol.{
  Progress, says_quiet, quieted, Keeps, allow, Keeps-map, Keeps-bind,
}

-- The sessions that are held, and the rows that are deleted, stay the same.
abbrev pub IsSame : Progress → Progress → Type 0
IsSame p p' = (p'.held ≡ p.held) × (p'.deleted ≡ p.deleted)

-- An answer is one thing or the other.
pub on_option {ℓ} :
    {A : Type ℓ} (P : Option A → Type 0) → P none → ((a : A) → P (some a)) → (o : Option A) → P o
on_option P hn hs none = hn
on_option P hn hs (some a) = hs a

pub on_sum {ℓ κ} :
    {A : Type ℓ} {B : Type κ} (P : A ⊎ B → Type 0)
    → ((a : A) → P (inl a))
    → ((b : B) → P (inr b))
    → (s : A ⊎ B) → P s
on_sum P hl hr (inl a) = hl a
on_sum P hl hr (inr b) = hr b

pub same : (p : Progress) → IsSame p p
same p = (refl, refl)

-- An error that does not say that the session is not running.
abbrev pub denies : Option Failure → Bool
denies none = true
denies (some e) = not (is_not_running e)

pub start-Keeps :
    (p : Progress) (id : ℕ)
    → contains p.held id ≡ true
    → Keeps p (start id) (λ p' r. IsSame p p' × (denies r ≡ true))
unfolding start is_not_running
start-Keeps p id h =
    on_option _
      (allow (contains p.held id) _ _ h (
        on_option _
          (on_sum _ (λ e. ((refl, refl), refl))
            (λ prepared.
              on_option _ (allow (contains p.held id) _ _ h ((refl, refl), refl))
                (λ r. allow (contains p.held id) _ _ h ((refl, refl), refl))))
          (λ e. ((refl, refl), refl))))
      (λ w. allow (contains p.held id) _ _ h ((refl, refl), refl))

-- A case of a conditional flow.
pub Keeps-if :
    {A : Type 0} (p : Progress) (b : Bool) (m n : Flow A) (Q : Progress → A → Type 0)
    → (b ≡ true → Keeps p m Q)
    → (b ≡ false → Keeps p n Q)
    → Keeps p (if b then m else n) Q
Keeps-if p true m n Q hm hn = hm refl
Keeps-if p false m n Q hm hn = hn refl

pub quieted-IsSame : (b : Bool) (id : ℕ) (p : Progress) → IsSame p (quieted b id p)
quieted-IsSame true id p = (refl, refl)
quieted-IsSame false id p = (refl, refl)

pub IsSame-trans : (p q r : Progress) → IsSame p q → IsSame q r → IsSame p r
IsSame-trans p q r a b = (b.0 ∙ a.0, b.1 ∙ a.1)

pub still :
    (p q : Progress) (id : ℕ) → IsSame p q → contains p.held id ≡ true → contains q.held id ≡ true
still p q id s h = ap (λ l. contains l id) s.0 ∙ h

stale_denies :
    (e : StoreError)
    → ((is_not_found (of_store e) || is_not_running (of_store e)) && is_gone (some (of_store e)))
      ≡ false
    → denies (some (of_store e)) ≡ true
unfolding is_not_found is_not_running
stale_denies (database t) h = refl
stale_denies not_found h = refl
stale_denies not_running h = sym h
stale_denies already_running h = refl

abbrev pub IsCurrent : Progress → Progress → Bool × Option Failure → Type 0
IsCurrent p p' r = IsSame p p' × ((r.0 && is_gone r.1) ≡ false → denies r.1 ≡ true)

pub start_current-Keeps :
    (p : Progress) (id : ℕ) → contains p.held id ≡ true → Keeps p (start_current id) (IsCurrent p)
unfolding start_current is_not_running is_not_found
start_current-Keeps p id h =
    let alone = record p { ended = id ∷ p.ended } in
    on_option _
      (allow (contains p.held id) _ _ h (
        on_sum _
          (λ e.
            allow (contains p.held id) _ _ h
              (quieted-IsSame (says_quiet (inl e)) id alone, stale_denies e))
          (λ status.
            let q = quieted (not (is_running status)) id alone in
            let kept : IsSame p q = quieted-IsSame (not (is_running status)) id alone in
            allow (contains p.held id) _ _ h (
              Keeps-if q (not (is_running status)) _ _ _ (λ _. (kept, stale_denies not_running))
                (λ _. Keeps-bind q (start id) _ _ (
                  Keeps-map q (start id) _ _ (λ q' e t. (IsSame-trans p q q' kept t.0, λ _. t.1))
                    (start-Keeps q id (still p q id kept h))))))))
      (λ w. allow (contains p.held id) _ _ h ((refl, refl), λ _. refl))
