-- ===== src/Config.antt =====
-- internal/config/config.go: what is stored of the households, and what is done to it when loaded.
pub mod Zones
pub mod Domains
pub mod Load
pub mod Reload
mod Samples
use teen_dns.Base.{
  ℕ, Bool, true, false, not, ◌||◌, eqb, if◌then◌else◌, any, List, [], ◌∷◌, Option, none, some, Text,
  texts_equal, is_empty, trim_space, Map, lookup, insert, text_eq, Result, ok, err, ◌>>=◌, ◌>>◌,
  require,
}
use teen_dns.Platform.{Platform, Instant, to_lower}
use teen_dns.Policy.{Profile}
use teen_dns.Policy.Schedule.{zone_or_default, default_time_zone}

pub record House : Type 0 where
  pub id : Text
  pub name : Text
  pub admin_token_hash : Text
  pub time_zone : Text
  pub email : Text
  pub emails : List Text

pub record Invitation : Type 0 where
  pub code_hash : Text
  pub email : Text
  pub created_at : Instant
  pub expires_at : Instant
  pub used_at : Option Instant

pub record WaitlistEntry : Type 0 where
  pub email : Text
  pub created_at : Instant

pub record Config : Type 0 where
  pub listen : Text
  pub upstream : Text
  pub certificate : Text
  pub private_key : Text
  pub max_ttl : ℕ
  pub houses : List House
  pub invitations : List Invitation
  pub waitlist : List WaitlistEntry
  pub profiles : List Profile

-- The loop over the houses: their zones are filled in, and the map from their ids to their zones is
-- built. The error is the id of a house whose zone is not known.
unfoldable pub house_zones :
    Platform → List House → Map Text Text → Result Text (List House × Map Text Text)
house_zones env [] zones = ok ([], zones)
house_zones env (h ∷ hs) zones = do
  let zone = zone_or_default h.time_zone
  require (env.known_zone zone) h.id
  rest ← house_zones env hs (insert h.id zone zones)
  ok (record h { time_zone = zone } ∷ rest.0, rest.1)

abbrev pub or_default : Option Text → Text
or_default none = default_time_zone
or_default (some zone) = zone

unfoldable pub zone_profiles : Map Text Text → List Profile → List Profile
zone_profiles zones [] = []
zone_profiles zones (p ∷ ps) =
    record p { time_zone = or_default (lookup p.house_id zones) } ∷ zone_profiles zones ps

-- ApplyHouseTimeZones
unfoldable pub apply_house_time_zones : Platform → Config → Result Text Config
unfolding house_zones zone_profiles
apply_house_time_zones env cfg = do
  zoned ← house_zones env cfg.houses []
  ok (record cfg { houses = zoned.0; profiles = zone_profiles zoned.1 cfg.profiles })

unfoldable pub is_comment : Text → Bool
is_comment [] = false
is_comment (c ∷ s) = eqb c b'#'

-- The loop of loadDomains over the lines of a file, behind those that were `seen`.
unfoldable pub domains_of : Platform → List Text → List Text → List Text
unfolding is_comment
domains_of env seen [] = []
domains_of env seen (raw ∷ lines) =
    let line = to_lower env (trim_space raw) in
    let rest = domains_of env seen lines in
    let added = domains_of env (line ∷ seen) lines in
    if is_empty line || is_comment line || any (texts_equal line) seen then rest else line ∷ added

-- loadDomains of a file that can be read
unfoldable pub load_domains : Platform → List Text → List Text
unfolding domains_of
load_domains env lines = domains_of env [] lines
