-- ===== src/Ch/Reader/Holds.antt =====
-- The holds are the maximal runs of one address, and the rotations stand between them.
use mathlib.Core.Bool.{false≢true}
use proxy_sampler.Prelude.{
  ℕ, suc, ◌%◌, ◌^◌, ◌+◌, ◌<◌, ◌≡◌, ◌≢◌, refl, sym, ap, ◌∙◌, true, false, ◌==◌, List, [], ◌∷◌, ◌++◌,
  map, append_assoc, Text, length, length-snoc, All, list_eq, nat_eq, ◌=?◌, if◌then◌else◌, arith,
  Bool-cases, inl, inr, pos, Eq, Option, none, some,
}
use proxy_sampler.Go.Time.{Time}
use proxy_sampler.Go.Ints.{add_uint32}
use proxy_sampler.Ch.Event.{NetIp}
use proxy_sampler.Ch.Reader.{
  Hold, Rotation, StickinessObservation, seconds_between, hold_loop, derive_stickiness,
}

-- A run: its first observation and the others.
abbrev pub Run : Type 0
Run = StickinessObservation × List StickinessObservation

abbrev pub flatten : List Run → List StickinessObservation
flatten [] = []
flatten ((o, os) ∷ runs) = (o ∷ os) ++ flatten runs

abbrev pub last_at : Time → List StickinessObservation → Time
last_at at [] = at
last_at at (o ∷ os) = last_at o.at os

abbrev text_eq : Eq Text
text_eq = list_eq

module _ (ip_string : NetIp → Text) where
  -- The hold of a run.
  abbrev pub hold_of : Run → Hold
  hold_of (o, os) = record {
    ip = ip_string o.ip;
    started_at = o.at;
    ended_at = last_at o.at os;
    duration_seconds = seconds_between (last_at o.at os) o.at;
    samples = suc (length os) % 2 ^ 32;
  }

  -- From the start of one run to the start of the next.
  abbrev pub rotation_of : StickinessObservation → StickinessObservation → Rotation
  rotation_of p o = record {
    at = o.at;
    from_ip = ip_string p.ip;
    to_ip = ip_string o.ip;
    since_previous_seconds = seconds_between o.at p.at;
  }

  abbrev pub rotations_from : Option StickinessObservation → List Run → List Rotation
  rotations_from p [] = []
  rotations_from none (r ∷ rs) = rotations_from (some r.0) rs
  rotations_from (some p) (r ∷ rs) = rotation_of p r.0 ∷ rotations_from (some r.0) rs

  -- Within a run the address stays, and from one run to the next it changes.
  abbrev pub Stays : Run → Type 0
  Stays r = All (λ o. ip_string o.ip ≡ ip_string r.0.ip) r.1

  abbrev pub Differs : Option Text → Text → Type 0
  Differs none t = Unit
  Differs (some u) t = t ≢ u

  abbrev pub Changes : Option Text → List Run → Type 0
  Changes u [] = Unit
  Changes u (r ∷ rs) = Differs u (ip_string r.0.ip) × Changes (some (ip_string r.0.ip)) rs

  -- The maximal runs of the observations, behind the run that is open.
  abbrev runs_from : Run → List StickinessObservation → List Run
  runs_from r [] = r ∷ []
  runs_from r (o ∷ os) = elim (ip_string o.ip =? ip_string r.0.ip) [
    | true ↦ runs_from (r.0, r.1 ++ o ∷ []) os
    | false ↦ r ∷ runs_from (o, []) os
  ]

  abbrev pub runs : List StickinessObservation → List Run
  runs [] = []
  runs (o ∷ os) = runs_from (o, []) os

  runs_from-flatten :
      (r : Run) (os : List StickinessObservation) → flatten (runs_from r os) ≡ (r.0 ∷ r.1) ++ os
  runs_from-flatten r [] = refl
  runs_from-flatten r (o ∷ os) = elim (Bool-cases (ip_string o.ip =? ip_string r.0.ip)) [
    | inl e ↦
        rw (e, runs_from)
          (runs_from-flatten (r.0, r.1 ++ o ∷ []) os ∙ append_assoc (r.0 ∷ r.1) (o ∷ []) os)
    | inr e ↦ rw (e, runs_from) (ap (λ l. (r.0 ∷ r.1) ++ l) (runs_from-flatten (o, []) os))
  ]

  All-snoc :
      (t : Text) (xs : List StickinessObservation) (o : StickinessObservation)
      → All (λ x. ip_string x.ip ≡ t) xs
      → ip_string o.ip ≡ t
      → All (λ x. ip_string x.ip ≡ t) (xs ++ o ∷ [])
  All-snoc t [] o h e = (e, tt)
  All-snoc t (x ∷ xs) o h e = (h.0, All-snoc t xs o h.1 e)

  runs_from-Stays :
      (r : Run) (os : List StickinessObservation) → Stays r → All Stays (runs_from r os)
  runs_from-Stays r [] h = (h, tt)
  runs_from-Stays r (o ∷ os) h = elim (Bool-cases (ip_string o.ip =? ip_string r.0.ip)) [
    | inl e ↦
        rw (e, runs_from)
          (runs_from-Stays (r.0, r.1 ++ o ∷ []) os
            (All-snoc (ip_string r.0.ip) r.1 o h ((text_eq.beq_iff _ _).0 e)))
    | inr e ↦ rw (e, runs_from) (h, runs_from-Stays (o, []) os tt)
  ]

  runs_from-Changes :
      (u : Option Text) (r : Run) (os : List StickinessObservation)
      → Differs u (ip_string r.0.ip)
      → Changes u (runs_from r os)
  runs_from-Changes u r [] h = (h, tt)
  runs_from-Changes u r (o ∷ os) h = elim (Bool-cases (ip_string o.ip =? ip_string r.0.ip)) [
    | inl e ↦ rw (e, runs_from) (runs_from-Changes u (r.0, r.1 ++ o ∷ []) os h)
    | inr e ↦
        rw (e, runs_from)
          (
            h,
            runs_from-Changes (some (ip_string r.0.ip)) (o, []) os
                (λ q. false≢true (sym e ∙ (text_eq.beq_iff _ _).1 q)),
          )
  ]

  rotations_from-runs :
      (p : StickinessObservation) (r : Run) (os : List StickinessObservation)
      → rotations_from (some p) (runs_from r os)
        ≡ rotation_of p r.0 ∷ rotations_from none (runs_from r os)
  rotations_from-runs p r [] = refl
  rotations_from-runs p r (o ∷ os) = elim (Bool-cases (ip_string o.ip =? ip_string r.0.ip)) [
    | inl e ↦ rw (e, runs_from) (rotations_from-runs p (r.0, r.1 ++ o ∷ []) os)
    | inr e ↦ rw (e, runs_from)
  ]

  -- The hold that the loop has for the open run.
  abbrev open_hold : Run → Hold
  open_hold (o, os) = record {
    ip = ip_string o.ip;
    started_at = o.at;
    ended_at = last_at o.at os;
    duration_seconds = pos 0;
    samples = suc (length os) % 2 ^ 32;
  }

  last_at-snoc :
      (at : Time) (os : List StickinessObservation) (o : StickinessObservation)
      → last_at at (os ++ o ∷ []) ≡ o.at
  last_at-snoc at [] o = refl
  last_at-snoc at (x ∷ os) o = last_at-snoc x.at os o

  wrapped : (n : ℕ) → (suc n % 2 ^ 32 + 1) % 2 ^ 32 ≡ suc (suc n) % 2 ^ 32
  wrapped n = omega arith

  open_hold-snoc :
      (r : Run) (o : StickinessObservation)
      → record (open_hold r) { ended_at = o.at; samples = add_uint32 (open_hold r).samples 1 }
        ≡ open_hold (r.0, r.1 ++ o ∷ [])
  open_hold-snoc r o =
      ground (arith, last_at-snoc r.0.at r.1 o, length-snoc r.1 o, wrapped (length r.1))

  hold_loop-runs :
      (first previous : Time) (r : Run) (os : List StickinessObservation)
      → (if previous == 0 then first else previous) ≡ r.0.at
      → All (λ o. 0 < o.at) os
      → hold_loop ip_string first previous (open_hold r) os
        ≡ (map hold_of (runs_from r os), rotations_from none (runs_from r os))
  unfolding hold_loop
  hold_loop-runs first previous r [] h z = refl
  hold_loop-runs first previous r (o ∷ os) h z =
      elim (Bool-cases (ip_string o.ip =? ip_string r.0.ip)) [
        | inl e ↦
            rw (e, runs_from, hold_loop)
              (ap (λ c. hold_loop ip_string first previous c os) (open_hold-snoc r o)
                ∙ hold_loop-runs first previous (r.0, r.1 ++ o ∷ []) os h z.1)
        | inr e ↦
            let rest = hold_loop-runs first o.at (o, []) os (ground (arith, z.0)) z.1 in
            let rotated = rotations_from-runs r.0 (o, []) os in
            rw (e, runs_from, hold_loop) (rw rest (rw rotated (rw h refl)))
      ]

-- If no observation stands at the zero time, the observations of a report split into runs, each of
-- one address and each of another address than the one before; the holds are those of the runs,
-- with the times of the first and the last observation and the number of them modulo 2^32; and the
-- rotations are those between a run and the next, each with the time since the start of the former.
pub derive_stickiness-runs :
    (ip_string : NetIp → Text) (os : List StickinessObservation)
    → All (λ o. 0 < o.at) os
    → (rs : List Run) × (flatten rs ≡ os)
      × All (Stays ip_string) rs
      × Changes ip_string none rs
      × ((derive_stickiness ip_string os).holds ≡ map (hold_of ip_string) rs)
      × ((derive_stickiness ip_string os).rotations ≡ rotations_from ip_string none rs)
unfolding derive_stickiness
derive_stickiness-runs ip_string [] z = ([], refl, tt, tt, refl, refl)
derive_stickiness-runs ip_string (o ∷ os) z =
    let rs = runs_from ip_string (o, []) os in
    let looped = hold_loop-runs ip_string o.at 0 (o, []) os refl z.1 in
    (
      rs,
      runs_from-flatten ip_string (o, []) os,
      runs_from-Stays ip_string (o, []) os tt,
      runs_from-Changes ip_string none (o, []) os tt,
      ap (λ (l : List Hold × List Rotation). l.0) looped,
      ap (λ (l : List Hold × List Rotation). l.1) looped,
    )
