-- ===== src/Enrich/Keys/Tests.antt =====
-- Two lookups of one address, and the theorem at them.
use proxy_sampler.Prelude.{◌≤◌, ◌≡◌, refl, true, false, [], ◌∷◌, lookup, is_some}
use proxy_sampler.Go.Addr.{v4, addr_beq, addr_eq}
use proxy_sampler.Enrich.Keys.{
  Locks, new_locks, register, set_token, waiting, holding, at, arrive, take_token, Reach, idle,
  later,
}
use proxy_sampler.Enrich.Keys.Exclusion.{is_free, Reach-holds_address}

abbrev one_registered : Locks
one_registered = (register (v4 1) new_locks).0

abbrev two_registered : Locks
two_registered = (register (v4 1) one_registered).0

abbrev one_holds : Locks
one_holds = set_token false 0 two_registered

one_and_one : Reach one_holds (at (v4 1) 0 waiting ∷ at (v4 1) 0 holding ∷ [])
unfolding register addr_beq
one_and_one =
    later (later (later idle (arrive (v4 1) [])) (arrive (v4 1) (at (v4 1) 0 waiting ∷ [])))
      (take_token (v4 1) 0 (at (v4 1) 0 waiting ∷ []) [] refl)

Reach-holds_address_example :
    (1 ≤ 1) × (is_free (v4 1) one_holds ≡ false) × (is_some (lookup (v4 1) one_holds.keys) ≡ true)
unfolding register addr_beq
Reach-holds_address_example = Reach-holds_address one_and_one (v4 1)
