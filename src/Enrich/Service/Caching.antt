-- ===== src/Enrich/Service/Caching.antt =====
-- What a lookup returns, and what it saves.
use proxy_sampler.Prelude.{
  ◌≡◌, ◌≢◌, refl, sym, List, [], ◌∷◌, ◌++◌, Option, none, some, Text, codes, subst, Option-cases,
  Sum-cases, ◌⊎◌, inl, inr, arith,
}
use proxy_sampler.Go.Addr.{Addr, unmap}
use proxy_sampler.Go.Time.{Duration}
use proxy_sampler.Session.{Reputation}
use proxy_sampler.Enrich.Partial.{WordOps}
use proxy_sampler.Enrich.Service.{
  LookupAnswers, Looked, failed_with, from_cache, fresh_of, first_seen_of, refresh, recheck,
  lookup_ip,
}

-- A fresh reputation that one of the reads of the cache gave.
abbrev pub IsCached : Duration → LookupAnswers → Reputation → Type 0
IsCached ttl a x =
    ((cached : Option Reputation) × (a.first_read ≡ inr cached)
      × (fresh_of ttl a.first_now cached ≡ some x))
    ⊎ ((cached : Option Reputation) × (a.second_read ≡ inr cached)
        × (fresh_of ttl a.second_now cached ≡ some x))

-- A reputation that is handed to the store: there was no fresh one, and the time at which the address
-- was first seen is that of the old one, if there is one.
abbrev pub IsRefreshed : Duration → Addr → LookupAnswers → Reputation → Type 0
IsRefreshed ttl ip a x =
    (cached : Option Reputation) × (a.second_read ≡ inr cached)
    × (fresh_of ttl a.second_now cached ≡ none)
    × (x.first_seen ≡ first_seen_of cached a.refreshed_now)
    × (x.refreshed_at ≡ a.refreshed_now)
    × (x.ip ≡ unmap ip)

pub record IsSound (ttl : Duration) (ip : Addr) (a : LookupAnswers) (r : Looked) : Type 0 where
  pub explained : r.result ≡ none → r.errors ≢ []
  pub refreshed : (x : Reputation) → r.saved ≡ some x → IsRefreshed ttl ip a x
  pub known :
      (x : Reputation)
      → r.result ≡ some x
      → (r.saved ≡ some x) ⊎ ((r.saved ≡ none) × (r.asked ≡ []) × IsCached ttl a x)

some_inj : {x y : Reputation} → some x ≡ some y → x ≡ y
some_inj h = cc

failed_with-IsSound :
    (ttl : Duration) (ip : Addr) (a : LookupAnswers) (e : Text) → IsSound ttl ip a (failed_with e)
failed_with-IsSound ttl ip a e = record {
  explained = λ h. cc;
  refreshed = λ x h. absurd (cc);
  known = λ x h. absurd (cc);
}

from_cache-IsSound :
    (ttl : Duration) (ip : Addr) (a : LookupAnswers) (r : Reputation)
    → IsCached ttl a r
    → IsSound ttl ip a (from_cache r)
from_cache-IsSound ttl ip a r c = record {
  explained = λ h. absurd (cc);
  refreshed = λ x h. absurd (cc);
  known = λ x h. inr (refl, refl, subst (IsCached ttl a) (some_inj h) c);
}

snoc-ne : (ts : List Text) (t : Text) → ts ++ t ∷ [] ≢ []
snoc-ne [] t h = cc
snoc-ne (x ∷ ts) t h = cc

refresh-IsSound :
    (ops : WordOps) (ttl : Duration) (ip : Addr) (cached : Option Reputation) (a : LookupAnswers)
    → a.second_read ≡ inr cached
    → fresh_of ttl a.second_now cached ≡ none
    → IsSound ttl ip a (refresh ops (unmap ip) cached a)
unfolding refresh
refresh-IsSound ops ttl ip cached a e f = elim (Option-cases a.save_error) [
  | inl h ↦
      rw (h, refresh)
        (record {
          explained = λ n. absurd (cc);
          refreshed =
              λ x s. subst (IsRefreshed ttl ip a) (some_inj s) (cached, e, f, refl, refl, refl);
          known = λ x s. inl s;
        })
  | inr (m, h) ↦
      rw (h, refresh)
        (record {
          explained = λ n q. snoc-ne _ _ q;
          refreshed =
              λ x s. subst (IsRefreshed ttl ip a) (some_inj s) (cached, e, f, refl, refl, refl);
          known = λ x s. absurd (cc);
        })
]

recheck-IsSound :
    (ops : WordOps) (ttl : Duration) (ip : Addr) (a : LookupAnswers)
    → IsSound ttl ip a (recheck ops ttl (unmap ip) a)
unfolding recheck
recheck-IsSound ops ttl ip a = elim (Sum-cases a.second_read) [
  | inl (m, e) ↦
      subst (IsSound ttl ip a) (sym (ground (arith, e)))
        (failed_with-IsSound ttl ip a (codes "recheck reputation cache: " ++ m))
  | inr (cached, e) ↦ elim (Option-cases (fresh_of ttl a.second_now cached)) [
    | inr (r, f) ↦
        subst (IsSound ttl ip a) (sym (ground (arith, e, f)))
          (from_cache-IsSound ttl ip a r (inr (cached, e, f)))
    | inl f ↦ elim (Option-cases a.slot_error) [
      | inr (m, g) ↦
          subst (IsSound ttl ip a) (sym (ground (arith, e, f, g)))
            (failed_with-IsSound ttl ip a (codes "acquire enrichment slot: " ++ m))
      | inl g ↦
          subst (IsSound ttl ip a) (sym (ground (arith, e, f, g)))
            (refresh-IsSound ops ttl ip cached a e f)
    ]
  ]
]

-- A lookup returns a reputation, or reports an error. One that it returns was either fresh in the
-- cache, and then no provider was asked and nothing saved; or it has been handed to the store. What is
-- handed to the store is for the unmapped address, replaces none that was fresh at the second look,
-- is dated to the end of the lookup, and keeps the time at which the address was first seen.
pub lookup_ip-IsSound :
    (ops : WordOps) (ttl : Duration) (ip : Addr) (a : LookupAnswers)
    → IsSound ttl ip a (lookup_ip ops ttl ip a)
unfolding lookup_ip
lookup_ip-IsSound ops ttl ip a = elim (Sum-cases a.first_read) [
  | inl (m, e) ↦
      subst (IsSound ttl ip a) (sym (ground (arith, e)))
        (failed_with-IsSound ttl ip a (codes "read reputation cache: " ++ m))
  | inr (cached, e) ↦ elim (Option-cases (fresh_of ttl a.first_now cached)) [
    | inr (r, f) ↦
        subst (IsSound ttl ip a) (sym (ground (arith, e, f)))
          (from_cache-IsSound ttl ip a r (inl (cached, e, f)))
    | inl f ↦ elim (Option-cases a.key_error) [
      | inr (m, g) ↦
          subst (IsSound ttl ip a) (sym (ground (arith, e, f, g)))
            (failed_with-IsSound ttl ip a (codes "acquire enrichment key: " ++ m))
      | inl g ↦
          subst (IsSound ttl ip a) (sym (ground (arith, e, f, g))) (recheck-IsSound ops ttl ip a)
    ]
  ]
]
