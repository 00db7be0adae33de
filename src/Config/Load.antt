-- ===== src/Config/Load.antt =====
-- Load: what is made of a decoded configuration file. The decoded document and the files that it names
-- are arguments; a slice that the document leaves out is `none`.
pub mod Ready
use teen_dns.Base.{
  ℕ, Bool, true, false, not, ◌&&◌, ◌||◌, eqb, if◌then◌else◌, List, [], ◌∷◌, Option, none, some,
  Text, is_empty, Result, ok, err, ◌>>=◌, ◌>>◌, require,
}
use teen_dns.Platform.{Platform}
use teen_dns.Policy.{RuleGroup, Profile}
use teen_dns.Policy.Store.{StoreError, Store, new_store}
use teen_dns.Config.{House, Config, apply_house_time_zones, load_domains}
use teen_dns.Admin.{settle_all}

-- The slices of the group itself are read from `domains` and `default_domains`.
pub record StoredGroup : Type 0 where
  pub group : RuleGroup
  pub domains : Option (List Text)
  pub default_domains : Option (List Text)

pub record StoredProfile : Type 0 where
  pub decoded : Profile
  pub groups : List StoredGroup

-- The profiles of `config` are those of `profiles`, whose groups are beside them.
pub record StoredConfig : Type 0 where
  pub config : Config
  pub profiles : List StoredProfile

pub data LoadError : Type 0 where
  not_decoded address_required key_required : LoadError
  unknown_house_zone : Text → LoadError
  no_domain_source : Text → Text → LoadError
  profiles_rejected : StoreError → LoadError

abbrev pub has_emails : List Text → Bool
has_emails [] = false
has_emails (e ∷ es) = true

unfoldable pub migrate_emails : List House → List House
migrate_emails [] = []
migrate_emails (h ∷ hs) =
    (if not (has_emails h.emails) && not (is_empty h.email)
      then record h { emails = h.email ∷ [] }
      else h)
    ∷ migrate_emails hs

abbrev pub slice_or : List Text → Option (List Text) → List Text
slice_or other none = other
slice_or other (some slice) = slice

-- A group whose domains do not come from a file.
abbrev pub own_group : StoredGroup → RuleGroup
own_group g = record (g.group) {
  domains = slice_or [] g.domains;
  default_domains = slice_or (slice_or [] g.domains) g.default_domains;
}

abbrev pub sourced_group : StoredGroup → List Text → RuleGroup
sourced_group g defaults = record (g.group) {
  default_domains = defaults;
  domains = if g.group.customized then slice_or [] g.domains else defaults;
}

abbrev pub with_source :
    Platform → Text → StoredGroup → Option (List Text) → Result LoadError RuleGroup
with_source env profile g none = err (no_domain_source profile g.group.id)
with_source env profile g (some lines) = ok (sourced_group g (load_domains env lines))

unfoldable pub load_group :
    Platform → (Text → Option (List Text)) → Text → StoredGroup → Result LoadError RuleGroup
load_group env files profile g =
    if is_empty g.group.domain_source
    then ok (own_group g)
    else with_source env profile g (files g.group.domain_source)

unfoldable pub load_groups :
    Platform
    → (Text → Option (List Text))
    → Text
    → List StoredGroup
    → Result LoadError (List RuleGroup)
unfolding load_group
load_groups env files profile [] = ok []
load_groups env files profile (g ∷ gs) = do
  first ← load_group env files profile g
  rest ← load_groups env files profile gs
  ok (first ∷ rest)

-- The profiles with their zones, and beside them what was decoded.
unfoldable pub load_profiles :
    Platform
    → (Text → Option (List Text))
    → List Profile
    → List StoredProfile
    → Result LoadError (List Profile)
unfolding load_groups
load_profiles env files (p ∷ ps) (stored ∷ more) = do
  groups ← load_groups env files p.id stored.groups
  rest ← load_profiles env files ps more
  ok (record p { groups = groups } ∷ rest)
load_profiles env files _ _ = ok []

unfoldable pub decoded_profiles : List StoredProfile → List Profile
decoded_profiles [] = []
decoded_profiles (stored ∷ more) = stored.decoded ∷ decoded_profiles more

abbrev pub zone_or_error : Result Text Config → Result LoadError Config
zone_or_error (ok cfg) = ok cfg
zone_or_error (err house) = err (unknown_house_zone house)

abbrev pub store_or_error : Result StoreError Store → Result LoadError Store
store_or_error (ok store) = ok store
store_or_error (err e) = err (profiles_rejected e)

abbrev pub with_defaults : StoredConfig → Config
with_defaults stored = record (stored.config) {
  max_ttl = if eqb stored.config.max_ttl 0 then 300 else stored.config.max_ttl;
  houses = migrate_emails stored.config.houses;
  profiles = decoded_profiles stored.profiles;
}

-- Load behind the reading and decoding of its file. NewStore normalizes domains in the slices of the
-- profiles, so the result holds what it leaves there.
unfoldable pub load :
    Platform → (Text → Option (List Text)) → Option StoredConfig → Result LoadError Config
unfolding load_profiles decoded_profiles migrate_emails
load env files none = err not_decoded
load env files (some stored) = do
  let cfg = stored.config
  require (not (is_empty cfg.listen || is_empty cfg.upstream)) address_required
  require (not (is_empty cfg.certificate || is_empty cfg.private_key)) key_required
  zoned ← zone_or_error (apply_house_time_zones env (with_defaults stored))
  profiles ← load_profiles env files zoned.profiles stored.profiles
  store ← store_or_error (new_store env profiles)
  ok (record zoned { profiles = settle_all env profiles })
