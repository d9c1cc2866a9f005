-- ===== src/Enrich/Dnsbl/Zones.antt =====
-- What a lookup of the block lists says, zone by zone.
use proxy_sampler.Prelude.{
  ℕ, ◌+◌, ◌≡◌, refl, ap, Bool, true, false, not, ◌&&◌, ◌||◌, List, [], ◌∷◌, ◌++◌, Option, none,
  some, Text, codes, list_eq, nat_eq, sort, text_leb, length, length-append, append_assoc,
  append-nil, count, Option-cases, inl, inr, arith, if◌then◌else◌,
}
use proxy_sampler.Go.Addr.{Addr, v4, unmap}
use proxy_sampler.Variation.Expand.{those}
use proxy_sampler.Enrich.Partial.{Partial}
use proxy_sampler.Enrich.Dnsbl.{
  HostAnswer, not_found, failed, answered, reverse_ipv4, answer_error, check_answers,
  is_dynamic_answer, read_answers, Listing, no_listing, ask_zone, ask_zones, dnsbl_lookup,
}

abbrev pub any_of : (Text → Bool) → List Text → Bool
any_of p [] = false
any_of p (x ∷ xs) = p x || any_of p xs

abbrev pub all_of : (Text → Bool) → List Text → Bool
all_of p [] = true
all_of p (x ∷ xs) = p x && all_of p xs

abbrev pub is_none : Option Text → Bool
is_none none = true
is_none (some e) = false

-- What the resolver answers for a zone.
abbrev pub reply : (Text → HostAnswer) → Text → Text → HostAnswer
reply resolver reversed zone = resolver (reversed ++ (codes "." ++ zone))

module _ (parse : Text → Option Addr) where
  -- An answer that is an address and reports no limit.
  abbrev pub is_good : Text → Text → Bool
  is_good zone answer = is_none (answer_error zone (parse answer))

  -- Whether a zone's answer counts, lists the address, and tells that it is dynamic.
  abbrev pub tells : Text → HostAnswer → Bool
  tells zone not_found = true
  tells zone (failed e) = false
  tells zone (answered answers) = all_of (is_good zone) answers

  abbrev pub lists : Text → HostAnswer → Bool
  lists zone not_found = false
  lists zone (failed e) = false
  lists zone (answered answers) =
      all_of (is_good zone) answers && any_of (λ a. not (is_dynamic_answer zone a)) answers

  abbrev pub hints : Text → HostAnswer → Bool
  hints zone not_found = false
  hints zone (failed e) = false
  hints zone (answered answers) =
      all_of (is_good zone) answers && any_of (is_dynamic_answer zone) answers

  check_answers_lem :
      (zone : Text) (answers : List Text)
      → is_none (check_answers parse zone answers) ≡ all_of (is_good zone) answers
  unfolding check_answers
  check_answers_lem zone [] = refl
  check_answers_lem zone (a ∷ answers) = ground (arith, check_answers_lem zone answers)

  read_answers_lem :
      (zone : Text) (dynamic listed : Bool) (answers : List Text)
      → read_answers zone dynamic listed answers ≡ (
        (dynamic || any_of (is_dynamic_answer zone) answers),
        (listed || any_of (λ a. not (is_dynamic_answer zone a)) answers),
      )
  unfolding read_answers
  read_answers_lem zone dynamic listed [] = ground arith
  read_answers_lem zone dynamic listed (a ∷ answers) =
      ground (
        arith,
        read_answers_lem zone true listed answers,
        read_answers_lem zone dynamic true answers,
      )

  -- What one zone adds.
  record IsAdded (zone : Text) (a : HostAnswer) (l m : Listing) : Type 0 where
    listed : m.listed ≡ (l.listed || lists zone a)
    dynamic : m.dynamic ≡ (l.dynamic || hints zone a)
    had_signal : m.had_signal ≡ (l.had_signal || tells zone a)
    hits : m.hits ≡ l.hits ++ (if lists zone a then zone ∷ [] else [])
    errors : length m.errors ≡ length l.errors + (if tells zone a then 0 else 1)

  ask_zone-IsAdded :
      (zone : Text) (a : HostAnswer) (l : Listing) → IsAdded zone a l (ask_zone parse zone a l)
  unfolding ask_zone
  ask_zone-IsAdded zone not_found l = ground (arith, append-nil l.hits)
  ask_zone-IsAdded zone (failed e) l =
      ground (arith, append-nil l.hits, length-append l.errors ((zone ++ (codes ": " ++ e)) ∷ []))
  ask_zone-IsAdded zone (answered answers) l =
      let checked = check_answers_lem zone answers in
      let read = read_answers_lem zone l.dynamic false answers in
      elim (Option-cases (check_answers parse zone answers)) [
        | inr (e, h) ↦
            ground (arith, h, checked, append-nil l.hits, length-append l.errors (e ∷ []))
        | inl h ↦ ground (arith, h, checked, read, append-nil l.hits)
      ]

  module _ (resolver : Text → HostAnswer) (reversed : Text) where
    record IsAsked (zones : List Text) (l m : Listing) : Type 0 where
      listed : m.listed ≡ (l.listed || any_of (λ z. lists z (reply resolver reversed z)) zones)
      dynamic : m.dynamic ≡ (l.dynamic || any_of (λ z. hints z (reply resolver reversed z)) zones)
      had_signal :
          m.had_signal ≡ (l.had_signal || any_of (λ z. tells z (reply resolver reversed z)) zones)
      hits : m.hits ≡ l.hits ++ those (λ z. lists z (reply resolver reversed z)) zones
      errors :
          length m.errors
          ≡ length l.errors + count (λ z. not (tells z (reply resolver reversed z))) zones

    ask_zones-IsAsked :
        (zones : List Text) (l : Listing)
        → IsAsked zones l (ask_zones parse resolver reversed zones l)
    unfolding ask_zones
    ask_zones-IsAsked [] l = ground (arith, append-nil l.hits)
    ask_zones-IsAsked (zone ∷ zones) l =
        let m = ask_zone parse zone (reply resolver reversed zone) l in
        let one = ask_zone-IsAdded zone (reply resolver reversed zone) l in
        let others = ask_zones-IsAsked zones m in
        let later = those (λ z. lists z (reply resolver reversed z)) zones in
        record {
          listed = ground (arith, one.listed, others.listed);
          dynamic = ground (arith, one.dynamic, others.dynamic);
          had_signal = ground (arith, one.had_signal, others.had_signal);
          hits = ground (
            arith,
            one.hits,
            others.hits,
            append_assoc l.hits (zone ∷ []) later,
            append-nil l.hits,
          );
          errors = ground (arith, one.errors, others.errors);
        }

-- The fields of the partial reputation, and how many errors there are.
pub record IsChecked (parse : Text → Option Addr) (reply : Text → HostAnswer) (zones : List Text)
    (r : Partial × List Text) : Type 0 where
  pub signal : r.0.had_signal ≡ any_of (λ z. tells parse z (reply z)) zones
  pub hits : r.0.dnsbl_hits ≡ sort text_leb (those (λ z. lists parse z (reply z)) zones)
  pub listed : r.0.dnsbl_listed ≡ (
      if any_of (λ z. tells parse z (reply z)) zones
      then some (any_of (λ z. lists parse z (reply z)) zones)
      else none)
  pub dynamic : r.0.dnsbl_dynamic ≡ any_of (λ z. hints parse z (reply z)) zones
  pub errors : length r.1 ≡ count (λ z. not (tells parse z (reply z))) zones

-- A lookup of an IPv4 address asks every zone, whatever fails: the hits are the sorted zones that
-- list the address, it is said to be listed or not as soon as one zone answers, it is dynamic where
-- some zone says so, and there is one error for each zone that fails. A zone counts only where all of
-- its answers are addresses and none reports a limit, and lists the address if one of its answers
-- does not merely tell that the address is dynamic.
pub dnsbl_lookup-IsChecked :
    (parse : Text → Option Addr) (resolver : Text → HostAnswer) (zones : List Text) (ip : Addr)
    (n : ℕ)
    → unmap ip ≡ v4 n
    → IsChecked parse (reply resolver (reverse_ipv4 n)) zones (dnsbl_lookup parse resolver zones ip)
unfolding dnsbl_lookup
dnsbl_lookup-IsChecked parse resolver zones ip n e =
    let asked = ask_zones-IsAsked parse resolver (reverse_ipv4 n) zones no_listing in
    rw (e, dnsbl_lookup)
      (record {
        signal = asked.had_signal;
        hits = ap (sort text_leb) asked.hits;
        listed = ground (arith, asked.had_signal, asked.listed);
        dynamic = asked.dynamic;
        errors = omega (arith, asked.errors);
      })
