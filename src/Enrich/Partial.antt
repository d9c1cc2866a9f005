-- ===== src/Enrich/Partial.antt =====
-- internal/enrich/types.go and classify.go: merging what the providers supply, and the category.
pub mod Fields
use proxy_sampler.Prelude.{
  ℕ, Bool, true, false, not, ◌&&◌, ◌||◌, List, [], ◌∷◌, ◌++◌, Option, none, some, Text, codes, Map,
  insert, add_all, contains, list_eq, nat_eq, ◌=?◌, is_nil, if◌then◌else◌, ℤ,
}
use proxy_sampler.Go.Strings.{has_substring, join}

pub record Partial : Type 0 where
  pub country : Text
  pub region : Text
  pub city : Text
  pub isp : Text
  pub asn : Text
  pub is_mobile : Option Bool
  pub ip_api_proxy : Option Bool
  pub ip_api_hosting : Option Bool
  pub proxy_check_type : Text
  pub proxy_check_proxy : Option Bool
  pub risk_score : Option ℤ
  pub grey_noise_class : Text
  pub sfs_appears : Option Bool
  pub sfs_frequency : Option ℤ
  pub dnsbl_listed : Option Bool
  pub dnsbl_hits : List Text
  pub dnsbl_dynamic : Bool
  pub raw : Map Text Text
  pub had_signal : Bool
  pub errors : Map Text Text

abbrev pub no_partial : Partial
no_partial = record {
  country = [];
  region = [];
  city = [];
  isp = [];
  asn = [];
  is_mobile = none;
  ip_api_proxy = none;
  ip_api_hosting = none;
  proxy_check_type = [];
  proxy_check_proxy = none;
  risk_score = none;
  grey_noise_class = [];
  sfs_appears = none;
  sfs_frequency = none;
  dnsbl_listed = none;
  dnsbl_hits = [];
  dnsbl_dynamic = false;
  raw = [];
  had_signal = false;
  errors = [];
}

-- `mergeString`, and `mergeBool` and `mergeInt`.
abbrev pub merge_text : Text → Text → Text
merge_text destination incoming = if is_nil incoming then destination else incoming

abbrev pub merge_option {ℓ} : {A : Type ℓ} → Option A → Option A → Option A
merge_option destination none = destination
merge_option destination (some a) = some a

-- `unionStrings`.
unfoldable pub union_strings : List Text → List Text → List Text
union_strings existing incoming =
    if is_nil existing && is_nil incoming then existing else add_all (add_all [] existing) incoming

-- A range over one map that writes into another.
unfoldable pub insert_all : Map Text Text → Map Text Text → Map Text Text
insert_all m [] = m
insert_all m ((k, v) ∷ es) = insert_all (insert k v m) es

-- `Merge`.
unfoldable pub merge : Partial → Partial → Partial
merge p q = record {
  country = merge_text p.country q.country;
  region = merge_text p.region q.region;
  city = merge_text p.city q.city;
  isp = merge_text p.isp q.isp;
  asn = merge_text p.asn q.asn;
  is_mobile = merge_option p.is_mobile q.is_mobile;
  ip_api_proxy = merge_option p.ip_api_proxy q.ip_api_proxy;
  ip_api_hosting = merge_option p.ip_api_hosting q.ip_api_hosting;
  proxy_check_type = merge_text p.proxy_check_type q.proxy_check_type;
  proxy_check_proxy = merge_option p.proxy_check_proxy q.proxy_check_proxy;
  risk_score = merge_option p.risk_score q.risk_score;
  grey_noise_class = merge_text p.grey_noise_class q.grey_noise_class;
  sfs_appears = merge_option p.sfs_appears q.sfs_appears;
  sfs_frequency = merge_option p.sfs_frequency q.sfs_frequency;
  dnsbl_listed = merge_option p.dnsbl_listed q.dnsbl_listed;
  dnsbl_hits = union_strings p.dnsbl_hits q.dnsbl_hits;
  dnsbl_dynamic = p.dnsbl_dynamic || q.dnsbl_dynamic;
  raw = insert_all p.raw q.raw;
  had_signal = p.had_signal || q.had_signal;
  errors = insert_all p.errors q.errors;
}

-- What classification takes from Go's library: lower case, trimming, and the runs of letters and
-- digits of a text, which are those that `strings.FieldsFunc` gives.
pub record WordOps : Type 0 where
  pub to_lower : Text → Text
  pub trim_space : Text → Text
  pub fields : Text → List Text

abbrev pub datacenter_asn_tokens : List Text
datacenter_asn_tokens =
    codes "amazon"
    ∷ codes "aws"
    ∷ codes "google cloud"
    ∷ codes "microsoft"
    ∷ codes "azure"
    ∷ codes "digitalocean"
    ∷ codes "linode"
    ∷ codes "vultr"
    ∷ codes "ovh"
    ∷ codes "hetzner"
    ∷ codes "hostrush"
    ∷ codes "database mart"
    ∷ codes "hosting"
    ∷ codes "cloud"
    ∷ codes "colo"
    ∷ codes "datacenter"
    ∷ codes "data center"
    ∷ codes "server"
    ∷ []

abbrev pub datacenter_types : List Text
datacenter_types =
    codes "dch" ∷ codes "business" ∷ codes "hosting" ∷ codes "corporate" ∷ codes "education" ∷ []

unfoldable pub is_datacenter_type : Text → Bool
is_datacenter_type t = contains datacenter_types t

abbrev pub normalize_words : WordOps → Text → Text
normalize_words ops value = join (codes " ") (ops.fields (ops.to_lower value))

abbrev pub has_token : Text → List Text → Bool
has_token normalized [] = false
has_token normalized (token ∷ tokens) =
    has_substring normalized (codes " " ++ (token ++ codes " ")) || has_token normalized tokens

unfoldable pub has_datacenter_asn : WordOps → Text → Bool
has_datacenter_asn ops asn =
    has_token (codes " " ++ (normalize_words ops asn ++ codes " ")) datacenter_asn_tokens

abbrev pub is_true : Option Bool → Bool
is_true none = false
is_true (some b) = b

unfoldable pub classify : WordOps → Partial → Text
classify ops partial =
    if not partial.had_signal
    then codes "unknown"
    else let kind = ops.to_lower (ops.trim_space partial.proxy_check_type) in
      if is_datacenter_type kind || has_datacenter_asn ops partial.asn
      then codes "datacenter"
      else if is_true partial.is_mobile || (kind =? codes "wireless")
      then codes "mobile"
      else codes "residential"
