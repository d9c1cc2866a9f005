-- ===== src/Enrich/Service/Tests.antt =====
-- A lookup that replaces an old reputation while a provider fails, and the theorem at it.
use proxy_sampler.Prelude.{◌+◌, ◌*◌, ◌≡◌, refl, true, [], ◌∷◌, none, some, codes, pos, inr}
use proxy_sampler.Go.Addr.{v4, v6, unmap}
use proxy_sampler.Go.Time.{sub_time}
use proxy_sampler.Session.{Reputation}
use proxy_sampler.Enrich.Partial.{
  Partial, no_partial, merge, insert_all, union_strings, WordOps, classify, is_datacenter_type,
  has_datacenter_asn,
}
use proxy_sampler.Enrich.Service.{
  LookupAnswers, to_reputation, ask_all, marshal_provider_raw, refresh, recheck, lookup_ip,
}
use proxy_sampler.Enrich.Service.Asked.{IsCollected, ask_all-IsCollected}
use proxy_sampler.Enrich.Service.Caching.{IsSound, lookup_ip-IsSound}

abbrev lower_already : WordOps
lower_already = record { to_lower = λ t. t; trim_space = λ t. t; fields = λ t. t ∷ [] }

abbrev old : Reputation
old = to_reputation (v4 16909060) no_partial (codes "unknown") 5 10 (codes "{}")

abbrev wireless : Partial
wireless = record no_partial {
  country = codes "DE";
  proxy_check_type = codes "wireless";
  had_signal = true;
}

abbrev some_answers : LookupAnswers
some_answers = record {
  first_read = inr (some old);
  first_now = 1000;
  key_error = none;
  second_read = inr (some old);
  second_now = 1000;
  slot_error = none;
  providers =
      record { name = codes "a"; partial = wireless; error = none }
      ∷ record { name = codes "b"; partial = no_partial; error = some (codes "timeout") }
      ∷ [];
  encode_raw = λ m. inr (codes "{}");
  refreshed_now = 1002;
  save_error = none;
}

renewed :
    (lookup_ip lower_already (pos 60) (v6 (0xffff * 4294967296 + 16909060) []) some_answers).result
    ≡ some (to_reputation (v4 16909060) wireless (codes "mobile") 5 1002 (codes "{}"))
unfolding lookup_ip recheck refresh ask_all merge insert_all union_strings marshal_provider_raw
    classify is_datacenter_type has_datacenter_asn sub_time unmap
renewed = refl

lookup_ip-IsSound_example :
    IsSound
      (pos 60)
      (v4 16909060)
      some_answers
      (lookup_ip lower_already (pos 60) (v4 16909060) some_answers)
lookup_ip-IsSound_example = lookup_ip-IsSound lower_already (pos 60) (v4 16909060) some_answers

ask_all-IsCollected_example :
    IsCollected some_answers.providers (ask_all no_partial [] some_answers.providers)
ask_all-IsCollected_example = ask_all-IsCollected some_answers.providers
