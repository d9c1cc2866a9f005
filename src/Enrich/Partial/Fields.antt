-- ===== src/Enrich/Partial/Fields.antt =====
-- The fields of a partial reputation, and what merging does to each.
use proxy_sampler.Prelude.{
  ◌≡◌, refl, Bool, ◌||◌, List, [], ◌∷◌, Option, none, some, Text, Map, contains, Distinct, add_all,
  contains-add_all, add_all-Distinct, list_eq, nat_eq, arith, ℤ,
}
use proxy_sampler.Enrich.Partial.{
  Partial, no_partial, merge_text, merge_option, merge, union_strings,
}

-- The fields that hold one value, by what they hold.
pub data TextField : Type 0 where
  the_country : TextField
  the_region : TextField
  the_city : TextField
  the_isp : TextField
  the_asn : TextField
  the_proxy_check_type : TextField
  the_grey_noise_class : TextField

abbrev pub text_of : TextField → Partial → Text
text_of the_country p = p.country
text_of the_region p = p.region
text_of the_city p = p.city
text_of the_isp p = p.isp
text_of the_asn p = p.asn
text_of the_proxy_check_type p = p.proxy_check_type
text_of the_grey_noise_class p = p.grey_noise_class

pub data BoolField : Type 0 where
  the_is_mobile : BoolField
  the_ip_api_proxy : BoolField
  the_ip_api_hosting : BoolField
  the_proxy_check_proxy : BoolField
  the_sfs_appears : BoolField
  the_dnsbl_listed : BoolField

abbrev pub bool_of : BoolField → Partial → Option Bool
bool_of the_is_mobile p = p.is_mobile
bool_of the_ip_api_proxy p = p.ip_api_proxy
bool_of the_ip_api_hosting p = p.ip_api_hosting
bool_of the_proxy_check_proxy p = p.proxy_check_proxy
bool_of the_sfs_appears p = p.sfs_appears
bool_of the_dnsbl_listed p = p.dnsbl_listed

pub data IntField : Type 0 where
  the_risk_score : IntField
  the_sfs_frequency : IntField

abbrev pub int_of : IntField → Partial → Option ℤ
int_of the_risk_score p = p.risk_score
int_of the_sfs_frequency p = p.sfs_frequency

pub text_of-merge :
    (f : TextField) (p q : Partial) → text_of f (merge p q) ≡ merge_text (text_of f p) (text_of f q)
unfolding merge
text_of-merge the_country p q = refl
text_of-merge the_region p q = refl
text_of-merge the_city p q = refl
text_of-merge the_isp p q = refl
text_of-merge the_asn p q = refl
text_of-merge the_proxy_check_type p q = refl
text_of-merge the_grey_noise_class p q = refl

pub text_of-errors :
    (f : TextField) (p : Partial) (es : Map Text Text)
    → text_of f (record p { errors = es }) ≡ text_of f p
text_of-errors the_country p es = refl
text_of-errors the_region p es = refl
text_of-errors the_city p es = refl
text_of-errors the_isp p es = refl
text_of-errors the_asn p es = refl
text_of-errors the_proxy_check_type p es = refl
text_of-errors the_grey_noise_class p es = refl

pub bool_of-merge :
    (f : BoolField) (p q : Partial)
    → bool_of f (merge p q) ≡ merge_option (bool_of f p) (bool_of f q)
unfolding merge
bool_of-merge the_is_mobile p q = refl
bool_of-merge the_ip_api_proxy p q = refl
bool_of-merge the_ip_api_hosting p q = refl
bool_of-merge the_proxy_check_proxy p q = refl
bool_of-merge the_sfs_appears p q = refl
bool_of-merge the_dnsbl_listed p q = refl

pub bool_of-errors :
    (f : BoolField) (p : Partial) (es : Map Text Text)
    → bool_of f (record p { errors = es }) ≡ bool_of f p
bool_of-errors the_is_mobile p es = refl
bool_of-errors the_ip_api_proxy p es = refl
bool_of-errors the_ip_api_hosting p es = refl
bool_of-errors the_proxy_check_proxy p es = refl
bool_of-errors the_sfs_appears p es = refl
bool_of-errors the_dnsbl_listed p es = refl

pub int_of-merge :
    (f : IntField) (p q : Partial) → int_of f (merge p q) ≡ merge_option (int_of f p) (int_of f q)
unfolding merge
int_of-merge the_risk_score p q = refl
int_of-merge the_sfs_frequency p q = refl

pub int_of-errors :
    (f : IntField) (p : Partial) (es : Map Text Text)
    → int_of f (record p { errors = es }) ≡ int_of f p
int_of-errors the_risk_score p es = refl
int_of-errors the_sfs_frequency p es = refl

pub had_signal-merge : (p q : Partial) → (merge p q).had_signal ≡ (p.had_signal || q.had_signal)
unfolding merge
had_signal-merge p q = refl

pub contains-union_strings :
    (xs ys : List Text) (t : Text)
    → contains (union_strings xs ys) t ≡ (contains xs t || contains ys t)
unfolding union_strings
contains-union_strings [] [] t = refl
contains-union_strings [] (y ∷ ys) t = contains-add_all [] (y ∷ ys) t
contains-union_strings (x ∷ xs) ys t =
    ground (arith, contains-add_all (add_all [] (x ∷ xs)) ys t, contains-add_all [] (x ∷ xs) t)

pub union_strings-Distinct : (xs ys : List Text) → Distinct xs → Distinct (union_strings xs ys)
unfolding union_strings
union_strings-Distinct [] [] h = h
union_strings-Distinct [] (y ∷ ys) h = add_all-Distinct [] (y ∷ ys) tt
union_strings-Distinct (x ∷ xs) ys h =
    add_all-Distinct (add_all [] (x ∷ xs)) ys (add_all-Distinct [] (x ∷ xs) tt)

pub hits_of-merge :
    (p q : Partial) → (merge p q).dnsbl_hits ≡ union_strings p.dnsbl_hits q.dnsbl_hits
unfolding merge
hits_of-merge p q = refl

pub nothing_text : (t : Text) → merge_text [] t ≡ t
nothing_text [] = refl
nothing_text (c ∷ t) = refl

pub nothing_option {ℓ} : {A : Type ℓ} (o : Option A) → merge_option none o ≡ o
nothing_option none = refl
nothing_option (some a) = refl

pub empty_text : (f : TextField) (t : Text) → merge_text (text_of f no_partial) t ≡ t
empty_text the_country t = nothing_text t
empty_text the_region t = nothing_text t
empty_text the_city t = nothing_text t
empty_text the_isp t = nothing_text t
empty_text the_asn t = nothing_text t
empty_text the_proxy_check_type t = nothing_text t
empty_text the_grey_noise_class t = nothing_text t

pub empty_bool : (f : BoolField) (o : Option Bool) → merge_option (bool_of f no_partial) o ≡ o
empty_bool the_is_mobile o = nothing_option o
empty_bool the_ip_api_proxy o = nothing_option o
empty_bool the_ip_api_hosting o = nothing_option o
empty_bool the_proxy_check_proxy o = nothing_option o
empty_bool the_sfs_appears o = nothing_option o
empty_bool the_dnsbl_listed o = nothing_option o

pub empty_int : (f : IntField) (o : Option ℤ) → merge_option (int_of f no_partial) o ≡ o
empty_int the_risk_score o = nothing_option o
empty_int the_sfs_frequency o = nothing_option o
