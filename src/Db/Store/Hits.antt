-- ===== src/Db/Store/Hits.antt =====
-- The addresses of a session that a saved tick writes.
use proxy_sampler.Prelude.{
  ℕ, ◌+◌, ◌≡◌, refl, ◌&&◌, ◌||◌, Bool, false, ◌==◌, List, [], ◌∷◌, Option, none, some, Text, arith,
  ◌≢◌, is_some, nat_eq, ◌=?◌, if◌then◌else◌,
}
use proxy_sampler.Go.Addr.{Addr, addr_eq}
use proxy_sampler.Session.{Snapshot, IpHit}
use proxy_sampler.Db.Columns.{Row}
use proxy_sampler.Db.Store.{
  StoreError, database, IpEntry, upsert_ip, upsert_ips, TickAnswer, first_refused, save_tick,
  update_where, has_id, snapshot_row,
}

-- How often a session has met an address by its entries, and by a list of hits.
abbrev pub hits_in : ℕ → Addr → List IpEntry → ℕ
hits_in id ip [] = 0
hits_in id ip (e ∷ entries) =
    (if (e.session_id == id) && (e.ip =? ip) then e.hit_count else 0) + hits_in id ip entries

abbrev pub hits_of : Addr → List IpHit → ℕ
hits_of ip [] = 0
hits_of ip (h ∷ hits) = (if h.ip =? ip then h.hits else 0) + hits_of ip hits

abbrev pub any_refused : (IpHit → Option Text) → List IpHit → Bool
any_refused f [] = false
any_refused f (h ∷ hits) = is_some (f h) || any_refused f hits

-- Some statement of the transaction fails.
abbrev pub fails : TickAnswer → List IpHit → Bool
fails answer hits =
    is_some answer.begin_error
    || (is_some answer.snapshot_error
        || (any_refused answer.hit_error hits || is_some answer.commit_error))

first_refused-any :
    (f : IpHit → Option Text) (hits : List IpHit)
    → any_refused f hits ≡ is_some (first_refused f hits)
first_refused-any f [] = refl
first_refused-any f (h ∷ hits) = ground (arith, first_refused-any f hits)

upsert_ip-hits_in :
    (id : ℕ) (h : IpHit) (entries : List IpEntry) (sid : ℕ) (ip : Addr)
    → hits_in sid ip (upsert_ip id h entries)
      ≡ hits_in sid ip entries + (if (id == sid) && (h.ip =? ip) then h.hits else 0)
unfolding upsert_ip
upsert_ip-hits_in id h [] sid ip = ground arith
upsert_ip-hits_in id h (e ∷ entries) sid ip = ground (
  arith,
  upsert_ip-hits_in id h entries sid ip,
  addr_eq.beq_iff e.ip h.ip,
  addr_eq.beq_iff e.ip ip,
  addr_eq.beq_iff h.ip ip,
)

upsert_ips-hits_in :
    (id : ℕ) (hits : List IpHit) (entries : List IpEntry) (sid : ℕ) (ip : Addr)
    → hits_in sid ip (upsert_ips id hits entries)
      ≡ hits_in sid ip entries + (if id == sid then hits_of ip hits else 0)
unfolding upsert_ips
upsert_ips-hits_in id [] entries sid ip = ground arith
upsert_ips-hits_in id (h ∷ hits) entries sid ip = ground (
  arith,
  upsert_ips-hits_in id hits (upsert_ip id h entries) sid ip,
  upsert_ip-hits_in id h entries sid ip,
)

-- Saving a tick is all or nothing: it reports an error exactly if one of its statements fails, and
-- then rows and entries are as before; otherwise, for every session and address, the hits have
-- grown by those of the tick if the session is its, and by nothing otherwise.
pub save_tick-hits_in :
    (answer : TickAnswer) (id : ℕ) (snapshot : Snapshot) (hits : List IpHit) (rows : List Row)
    (entries : List IpEntry)
    → (let after = save_tick answer id snapshot hits (rows, entries) in
        (is_some after.1 ≡ fails answer hits)
        × (after.1 ≢ none → after.0 ≡ (rows, entries))
        × (after.1 ≡ none
            → (sid : ℕ) (ip : Addr)
            → hits_in sid ip after.0.1
              ≡ hits_in sid ip entries + (if id == sid then hits_of ip hits else 0)))
unfolding save_tick
save_tick-hits_in answer id snapshot hits rows entries =
    let rest =
      pick answer.begin_error answer.snapshot_error (first_refused answer.hit_error hits)
        answer.commit_error in
    (
      (let refused = first_refused-any answer.hit_error hits in ground (arith, refused)),
      rest.0,
      rest.1,
    )
  where
    pick :
        (a b c d : Option Text)
        → (let after : (List Row × List IpEntry) × Option StoreError = elim a [
          | some e ↦ ((rows, entries), some (database e))
          | none ↦ elim b [
            | some e ↦ ((rows, entries), some (database e))
            | none ↦ elim c [
              | some e ↦ ((rows, entries), some (database e))
              | none ↦ elim d [
                | some e ↦ ((rows, entries), some (database e))
                | none ↦ (
                  (
                    update_where (has_id id) (snapshot_row snapshot) rows,
                    upsert_ips id hits entries,
                  ),
                  none,
                )
              ]
            ]
          ]
        ] in
            (after.1 ≢ none → after.0 ≡ (rows, entries))
            × (after.1 ≡ none
                → (sid : ℕ) (ip : Addr)
                → hits_in sid ip after.0.1
                  ≡ hits_in sid ip entries + (if id == sid then hits_of ip hits else 0)))
    pick (some e) b c d = ((λ _. refl), (λ h. absurd (cc)))
    pick none (some e) c d = ((λ _. refl), (λ h. absurd (cc)))
    pick none none (some e) d = ((λ _. refl), (λ h. absurd (cc)))
    pick none none none (some e) = ((λ _. refl), (λ h. absurd (cc)))
    pick none none none none =
        ((λ h. absurd (h refl)), (λ _ sid ip. upsert_ips-hits_in id hits entries sid ip))
