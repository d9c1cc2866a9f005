-- ===== src/Variation/Template/Tests.antt =====
-- Templates at work, and their theorems at one.
use proxy_sampler.Prelude.{◌≤◌, ◌≡◌, refl, [], ◌∷◌, some, Text, codes, Map, length, inl, inr, ◌↔◌}
use proxy_sampler.Variation.Template.{
  scan, split, Template, empty_placeholder, no_value, max_rendered_bytes, parse_template, render,
  names_of, variant_name,
}
use proxy_sampler.Variation.Template.Pieces.{unsplit, IsSplit, split-unsplit}
use proxy_sampler.Variation.Template.Rendering.{fill, render_lem}

abbrev untrimmed : Text → Text
untrimmed t = t

abbrev with_zone : Template
with_zone = record { raw = codes "u-{cc}-{s}@{cc}"; names = codes "cc" ∷ codes "s" ∷ [] }

abbrev german : Map Text Text
german = (codes "cc", codes "de") ∷ (codes "s", codes "9") ∷ []

with_zone_names : parse_template untrimmed (codes "u-{cc}-{s}@{cc}") ≡ inr with_zone
unfolding parse_template names_of scan
with_zone_names = refl

with_zone_rendered : render untrimmed with_zone german ≡ inr (codes "u-de-9@de")
unfolding render scan
with_zone_rendered = refl

with_zone_missing : render untrimmed with_zone [] ≡ inl (no_value (codes "cc"))
unfolding render scan
with_zone_missing = refl

nested : split (codes "{{a}}{b") ≡ ((codes "{", codes "a") ∷ [], codes "}{b")
unfolding scan
nested = refl

unnamed : parse_template untrimmed (codes "a{}") ≡ inl empty_placeholder
unfolding parse_template names_of scan
unnamed = refl

named : variant_name (codes "run") german ≡ codes "run (cc=de,s=9)"
unfolding variant_name
named = refl

split-unsplit_example :
    (unsplit (split (codes "u-{cc}-{s}@{cc}")) ≡ codes "u-{cc}-{s}@{cc}")
    × IsSplit (split (codes "u-{cc}-{s}@{cc}"))
split-unsplit_example = split-unsplit (codes "u-{cc}-{s}@{cc}")

render_lem_example : (render untrimmed with_zone german ≡ inr (codes "u-de-9@de")) ↔ (
    (fill untrimmed german (split with_zone.raw).0 (split with_zone.raw).1
      ≡ some (codes "u-de-9@de"))
    × (length (codes "u-de-9@de") ≤ max_rendered_bytes))
render_lem_example = render_lem untrimmed with_zone german (codes "u-de-9@de")
