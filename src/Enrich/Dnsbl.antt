-- ===== src/Enrich/Dnsbl.antt =====
-- internal/enrich/dnsbl.go: the question to the block lists, with what the resolver answers and Go's
-- parsing of an address as arguments.
pub mod Zones
pub mod Tests
use proxy_sampler.Prelude.{
  ℕ, ◌*◌, ◌/◌, ◌%◌, ◌^◌, Bool, true, false, not, ◌&&◌, ◌||◌, ◌==◌, List, [], ◌∷◌, ◌++◌, Option,
  none, some, Text, codes, list_eq, nat_eq, ◌=?◌, sort, text_leb, ℤ, pos, if◌then◌else◌,
}
use proxy_sampler.Go.Addr.{Addr, invalid, v4, v6, unmap}
use proxy_sampler.Go.Strings.{join}
use proxy_sampler.Variation.Axis.{itoa}
use proxy_sampler.Enrich.Partial.{Partial, no_partial}

abbrev pub default_dnsbl_zones : List Text
default_dnsbl_zones =
    codes "zen.spamhaus.org"
    ∷ codes "b.barracudacentral.org"
    ∷ codes "dnsbl.sorbs.net"
    ∷ codes "bl.spamcop.net"
    ∷ codes "dnsbl-1.uceprotect.net"
    ∷ []

-- What `LookupHost` returns: the error that the host is not found, another one, or addresses.
pub data HostAnswer : Type 0 where
  not_found : HostAnswer
  failed : Text → HostAnswer
  answered : List Text → HostAnswer

-- The byte of an IPv4 address at a place.
abbrev pub byte_at : ℕ → ℕ → ℕ
byte_at n place = (n / 2 ^ (8 * place)) % 256

abbrev pub reverse_ipv4 : ℕ → Text
reverse_ipv4 n = join (codes ".") (
    itoa (pos (byte_at n 0))
    ∷ itoa (pos (byte_at n 1))
    ∷ itoa (pos (byte_at n 2))
    ∷ itoa (pos (byte_at n 3))
    ∷ [])

-- The error for one answer, if there is one.
abbrev pub answer_error : Text → Option Addr → Option Text
answer_error zone none = some (zone ++ codes ": invalid answer")
answer_error zone (some a) = elim (unmap a) [
  | invalid ↦ some (zone ++ codes ": invalid answer")
  | v4 n ↦
      if (byte_at n 3 == 127) && (byte_at n 2 == 255) && (byte_at n 1 == 255)
      then some (zone ++ codes ": provider ratelimit response")
      else none
  | v6 n z ↦ some (zone ++ codes ": invalid answer")
]

-- The loop that checks the answers, which breaks at the first error.
unfoldable pub check_answers : (Text → Option Addr) → Text → List Text → Option Text
check_answers parse zone [] = none
check_answers parse zone (answer ∷ answers) = elim (answer_error zone (parse answer)) [
  | some e ↦ some e
  | none ↦ check_answers parse zone answers
]

-- The answers of this zone that tell a dynamic address.
unfoldable pub is_dynamic_answer : Text → Text → Bool
is_dynamic_answer zone answer =
    (zone =? codes "zen.spamhaus.org")
    && ((answer =? codes "127.0.0.10") || (answer =? codes "127.0.0.11"))

-- The loop over the answers of a zone: `DNSBLDynamic` and `zoneListed`.
unfoldable pub read_answers : Text → Bool → Bool → List Text → Bool × Bool
read_answers zone dynamic listed [] = (dynamic, listed)
read_answers zone dynamic listed (answer ∷ answers) =
    if is_dynamic_answer zone answer
    then read_answers zone true listed answers
    else read_answers zone dynamic true answers

pub record Listing : Type 0 where
  pub listed : Bool
  pub dynamic : Bool
  pub had_signal : Bool
  pub hits : List Text
  pub errors : List Text

abbrev pub no_listing : Listing
no_listing = record { listed = false; dynamic = false; had_signal = false; hits = []; errors = [] }

-- One round of the loop over the zones.
unfoldable pub ask_zone : (Text → Option Addr) → Text → HostAnswer → Listing → Listing
ask_zone parse zone not_found l = record l { had_signal = true }
ask_zone parse zone (failed e) l = record l {
  errors = l.errors ++ (zone ++ (codes ": " ++ e)) ∷ [];
}
ask_zone parse zone (answered answers) l = elim (check_answers parse zone answers) [
  | some e ↦ record l { errors = l.errors ++ e ∷ [] }
  | none ↦
      let (dynamic, zone_listed) = read_answers zone l.dynamic false answers in
      if zone_listed
      then record l {
        listed = true;
        dynamic = dynamic;
        had_signal = true;
        hits = l.hits ++ zone ∷ [];
      }
      else record l { dynamic = dynamic; had_signal = true }
]

unfoldable pub ask_zones :
    (Text → Option Addr) → (Text → HostAnswer) → Text → List Text → Listing → Listing
ask_zones parse resolver reversed [] l = l
ask_zones parse resolver reversed (zone ∷ zones) l =
    ask_zones parse resolver reversed zones
      (ask_zone parse zone (resolver (reversed ++ (codes "." ++ zone))) l)

abbrev pub partial_of : Listing → Partial
partial_of l = record no_partial {
  dnsbl_listed = if l.had_signal then some l.listed else none;
  dnsbl_hits = sort text_leb l.hits;
  dnsbl_dynamic = l.dynamic;
  had_signal = l.had_signal;
}

-- `Lookup`.
unfoldable pub dnsbl_lookup :
    (Text → Option Addr) → (Text → HostAnswer) → List Text → Addr → Partial × List Text
dnsbl_lookup parse resolver zones ip = elim (unmap ip) [
  | invalid ↦ (no_partial, [])
  | v4 n ↦
      let l = ask_zones parse resolver (reverse_ipv4 n) zones no_listing in (partial_of l, l.errors)
  | v6 n z ↦ (no_partial, [])
]
