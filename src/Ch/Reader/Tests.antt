-- ===== src/Ch/Reader/Tests.antt =====
-- Runs of the reader's reports, and their theorem at one.
use proxy_sampler.Prelude.{
  ℕ, ◌*◌, ◌≡◌, refl, List, [], ◌∷◌, none, Text, All, map, arith, pos, inl, inr, ◌^◌,
}
use proxy_sampler.Ch.Event.{NetIp}
use proxy_sampler.Ch.Reader.{
  StickinessObservation, derive_stickiness, pool_growth, checked_page_offset, invalid_page,
}
use proxy_sampler.Db.Columns.{second}
use proxy_sampler.Go.Time.{sub_time}
use proxy_sampler.Ch.Reader.Holds.{
  Run, flatten, Stays, Changes, hold_of, rotations_from, derive_stickiness-runs,
}

abbrev observed : ℕ → ℕ → StickinessObservation
observed at ip = record { at = at * second; ip = ip ∷ []; changed = 0 }

abbrev bytes : NetIp → Text
bytes ip = ip

abbrev four_observations : List StickinessObservation
four_observations = observed 10 7 ∷ observed 20 7 ∷ observed 35 8 ∷ observed 40 7 ∷ []

four_seconds :
    (derive_stickiness bytes four_observations).hold_seconds ≡ pos 10 ∷ pos 0 ∷ pos 0 ∷ []
unfolding derive_stickiness sub_time
four_seconds = refl

four_middle : (derive_stickiness bytes four_observations).middle ≡ (pos 0, pos 0)
unfolding derive_stickiness sub_time
four_middle = refl

derive_stickiness-runs_example :
    (rs : List Run) × (flatten rs ≡ four_observations)
    × All (Stays bytes) rs
    × Changes bytes none rs
    × ((derive_stickiness bytes four_observations).holds ≡ map (hold_of bytes) rs)
    × ((derive_stickiness bytes four_observations).rotations ≡ rotations_from bytes none rs)
derive_stickiness-runs_example = derive_stickiness-runs bytes four_observations (omega arith)

first_page : checked_page_offset 3 ≡ inr 100
unfolding checked_page_offset
first_page = refl

last_page : checked_page_offset (2 ^ 63) ≡ inl invalid_page
unfolding checked_page_offset
last_page = refl

growth_example :
    map (λ p. p.distinct_ips) (pool_growth ((1, 2) ∷ (2, 0) ∷ (3, 5) ∷ [])) ≡ 2 ∷ 2 ∷ 7 ∷ []
unfolding pool_growth
growth_example = refl
