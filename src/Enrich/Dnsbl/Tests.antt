-- ===== src/Enrich/Dnsbl/Tests.antt =====
-- A lookup in which one zone lists the address, one tells that it is dynamic and one fails.
use proxy_sampler.Prelude.{
  ◌≡◌, refl, List, [], ◌∷◌, Option, some, Text, codes, list_eq, nat_eq, ◌=?◌, if◌then◌else◌,
}
use proxy_sampler.Go.Addr.{Addr, v4, unmap}
use proxy_sampler.Enrich.Dnsbl.{
  HostAnswer, failed, answered, reverse_ipv4, check_answers, is_dynamic_answer, read_answers,
  ask_zone, ask_zones, dnsbl_lookup,
}
use proxy_sampler.Enrich.Dnsbl.Zones.{reply, IsChecked, dnsbl_lookup-IsChecked}

abbrev parse_local : Text → Option Addr
parse_local t = some (v4 2130706434)

abbrev three_zones : List Text
three_zones = codes "zen.spamhaus.org" ∷ codes "slow" ∷ codes "bl" ∷ []

abbrev some_resolver : Text → HostAnswer
some_resolver host =
    if host =? codes "4.3.2.1.zen.spamhaus.org"
    then answered (codes "127.0.0.10" ∷ [])
    else if host =? codes "4.3.2.1.bl"
    then answered (codes "127.0.0.2" ∷ [])
    else failed (codes "timeout")

seen :
    ((dnsbl_lookup parse_local some_resolver three_zones (v4 16909060)).0).dnsbl_hits
    ≡ codes "bl" ∷ []
unfolding dnsbl_lookup ask_zones ask_zone read_answers check_answers is_dynamic_answer unmap
seen = refl

dnsbl_lookup-IsChecked_example :
    IsChecked parse_local
      (reply some_resolver (reverse_ipv4 16909060))
      three_zones
      (dnsbl_lookup parse_local some_resolver three_zones (v4 16909060))
unfolding unmap
dnsbl_lookup-IsChecked_example =
    dnsbl_lookup-IsChecked parse_local some_resolver three_zones (v4 16909060) 16909060 refl
