-- ===== src/Admin/Profiles.antt =====
-- The changes that a request asks for of one profile: the PUT and DELETE of profileResource,
-- rotateEndpoint and updateProfilePackage, and the profile that profilesCollection creates.
pub mod Isolation
use teen_dns.Base.{
  ◌+◌, Bool, true, false, not, ◌&&◌, ◌||◌, if◌then◌else◌, List, [], ◌∷◌, ◌++◌, Option, none, some,
  Text, codes, texts_equal, is_empty, trim_space, Result, ok, err, ◌>>=◌, ◌>>◌, require, or_fail,
}
use teen_dns.Platform.{Platform}
use teen_dns.Policy.{Action, allow, other, Rule, TimeWindow, RuleGroup, Profile}
use teen_dns.Config.{House, Config}
use teen_dns.Admin.Groups.{Incoming, MergeError, merge_groups, set_package}

-- A slice or pointer that the request leaves out is `none`.
pub record ProfileRequest : Type 0 where
  pub label : Text
  pub default_action : Action
  pub rules : List Rule
  pub groups : Option (List Incoming)
  pub pauses : Option (List TimeWindow)
  pub time_zone : Option Text

pub data ChangeError : Type 0 where
  no_profile label_required unknown_zone no_house house_not_found : ChangeError
  not_merged : MergeError → ChangeError

-- profileByID
unfoldable pub profile_by_id : Text → List Profile → Option Profile
profile_by_id id [] = none
profile_by_id id (p ∷ ps) =
    let rest = profile_by_id id ps in if texts_equal p.id id then some p else rest

-- What the pointer to the first profile with the id is written through.
unfoldable pub set_profile : Text → Profile → List Profile → List Profile
set_profile id new [] = []
set_profile id new (p ∷ ps) =
    let rest = set_profile id new ps in if texts_equal p.id id then new ∷ ps else p ∷ rest

-- `if input.DefaultAction == ""`
unfoldable pub action_or_allow : Action → Action
action_or_allow (other []) = allow
action_or_allow a = a

unfoldable pub find_house : Text → List House → Option House
find_house id [] = none
find_house id (h ∷ hs) = let rest = find_house id hs in if texts_equal h.id id then some h else rest

unfoldable pub set_zone : Text → Text → List House → List House
set_zone id zone [] = []
set_zone id zone (h ∷ hs) =
    let rest = set_zone id zone hs in
    if texts_equal h.id id then record h { time_zone = zone } ∷ hs else h ∷ rest

-- The other profiles of the house get a new version.
unfoldable pub bump_siblings : Profile → List Profile → List Profile
bump_siblings p [] = []
bump_siblings p (q ∷ qs) =
    (if texts_equal q.house_id p.house_id && not (texts_equal q.id p.id)
      then record q { version = q.version + 1 }
      else q)
    ∷ bump_siblings p qs

abbrev pub found_house : Option House → Result ChangeError House
found_house none = err house_not_found
found_house (some h) = ok h

-- `if input.TimeZone != nil`
unfoldable pub change_zone : Platform → Profile → Option Text → Config → Result ChangeError Config
change_zone env p none cfg = ok cfg
change_zone env p (some raw) cfg = do
  let zone = trim_space raw
  require (env.known_zone zone) unknown_zone
  require (not (is_empty p.house_id)) no_house
  house ← found_house (find_house p.house_id cfg.houses)
  ok (record cfg {
    houses = set_zone p.house_id zone cfg.houses;
    profiles =
        if texts_equal house.time_zone zone then cfg.profiles else bump_siblings p cfg.profiles;
  })

abbrev pub merge_errors : {A : Type 0} → Result MergeError A → Result ChangeError A
merge_errors (ok a) = ok a
merge_errors (err e) = err (not_merged e)

unfoldable pub new_groups :
    List RuleGroup → Option (List Incoming) → Result ChangeError (List RuleGroup)
new_groups stored none = ok stored
new_groups stored (some incoming) = merge_errors (merge_groups stored incoming)

abbrev pub pauses_or : List TimeWindow → Option (List TimeWindow) → List TimeWindow
pauses_or stored none = stored
pauses_or stored (some given) = given

abbrev pub found_profile : Option Profile → Result ChangeError Profile
found_profile none = err no_profile
found_profile (some p) = ok p

-- The mutation of the PUT.
unfoldable pub edit_profile : Platform → Text → ProfileRequest → Config → Result ChangeError Config
unfolding change_zone new_groups
edit_profile env id input cfg = do
  p ← found_profile (profile_by_id id cfg.profiles)
  let label = trim_space input.label
  require (not (is_empty label)) label_required
  zoned ← change_zone env p input.time_zone cfg
  groups ← new_groups p.groups input.groups
  ok (record zoned {
    profiles =
        set_profile id
          (record p {
            label = label;
            default_action = action_or_allow input.default_action;
            rules = input.rules;
            groups = groups;
            pauses = pauses_or p.pauses input.pauses;
            version = p.version + 1;
          })
          zoned.profiles;
  })

pub data Change : Type 0 where
  edit : ProfileRequest → Change
  disable : Change
  rotate : Text → Change
  put_package : RuleGroup → Bool → Change

unfoldable pub rotated : Text → Text → Profile → Profile
rotated suffix token p = record p {
  hostname = codes "p-" ++ token ++ b'.' ∷ suffix;
  version = p.version + 1;
}

abbrev pub disabled_profile : Profile → Profile
disabled_profile p = record p { disabled = true; version = p.version + 1 }

-- A mutation that only writes through the pointer to the profile.
abbrev pub rewrite_profile : Text → (Profile → Profile) → Config → Result ChangeError Config
rewrite_profile id f cfg = do
  p ← found_profile (profile_by_id id cfg.profiles)
  ok (record cfg { profiles = set_profile id (f p) cfg.profiles })

-- The mutation that a request for one profile hands to `update`.
unfoldable pub change_profile : Platform → Text → Text → Change → Config → Result ChangeError Config
unfolding edit_profile rotated
change_profile env suffix id (edit input) cfg = edit_profile env id input cfg
change_profile env suffix id disable cfg = rewrite_profile id disabled_profile cfg
change_profile env suffix id (rotate token) cfg = rewrite_profile id (rotated suffix token) cfg
change_profile env suffix id (put_package offer enabled) cfg =
    rewrite_profile id (set_package offer enabled) cfg
