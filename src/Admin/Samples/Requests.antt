-- ===== src/Admin/Samples/Requests.antt =====
-- The requests for profiles and of paired devices, at two households.
use teen_dns.Base.{
  ◌+◌, ◌≡◌, ◌⊎◌, refl, ltb, if◌then◌else◌, true, false, [], ◌∷◌, none, some, codes, texts_equal,
  arith, any, trim_prefix, strip_prefix, drop_code, trim_code, split_on, has_prefix, is_empty,
  is_space, drop_space, trim_space, trim_suffix, has_suffix, contains, lookup, insert, retain, ok,
  err,
}
use teen_dns.Platform.{to_lower}
use teen_dns.Policy.{Profile, block}
use teen_dns.Policy.Decide.{decide_at, location_of}
use teen_dns.Policy.Schedule.{profile_location}
use teen_dns.Config.{House, Config}
use teen_dns.Admin.{Control}
use teen_dns.Admin.Access.{AccessScope, scope_allows, house_scope}
use teen_dns.Admin.Profiles.{
  ProfileRequest, edit, change_profile, profile_by_id, set_profile, action_or_allow, find_house,
  set_zone, bump_siblings, change_zone, new_groups, edit_profile,
}
use teen_dns.Admin.Profiles.Isolation.{Contained, change_profile-Contained}
use teen_dns.Admin.Resource.{
  Request, Reply, fails, profile_resource, path_parts, route_profile, allowed_request,
}
use teen_dns.Admin.Resource.Replies.{Failed, Served, profile_resource-Served}
use teen_dns.Pairing.{
  Manager, create, add_challenge, observe, outcome, cleanup, drop_tokens, challenge_token,
}
use teen_dns.Admin.Youth.{
  create_challenge, challenge_status, challenge_outcome, scoped_outcome, group_views, first_label,
  extension_view, extension_policy, youth_profile,
}
use teen_dns.Admin.Youth.Mirror.{extension_view-decide_at}
use teen_dns.Admin.Youth.Sessions.{blocking_rules, paired_device-extension_policy}
use teen_dns.Admin.Samples.{machine, config, begin, dotted}

abbrev ana : Profile
ana = record dotted {
  id = codes "ana";
  house_id = codes "red";
  hostname = codes "p-a.test";
  groups = [];
}

abbrev bia : Profile
bia = record dotted {
  id = codes "bia";
  house_id = codes "blue";
  hostname = codes "p-b.test";
  groups = [];
}

abbrev red : House
red = record {
  id = codes "red";
  name = codes "Red";
  admin_token_hash = codes "hash";
  time_zone = codes "UTC";
  email = [];
  emails = [];
}

abbrev homes : Config
homes = record config {
  houses = red ∷ record red { id = codes "blue" } ∷ [];
  profiles = ana ∷ bia ∷ [];
}

abbrev homes_control : Control
homes_control = record begin { config = homes; disk = homes }

abbrev asked : ProfileRequest
asked = record {
  label = codes " Ana ";
  default_action = block;
  rules = [];
  groups = none;
  pauses = none;
  time_zone = some (codes "Lima");
}

abbrev edited : Config
edited = record homes {
  houses = record red { time_zone = codes "Lima" } ∷ record red { id = codes "blue" } ∷ [];
  profiles = record ana { label = codes "Ana"; default_action = block; version = 2 } ∷ bia ∷ [];
}

requests_run : Unit {0}
unfolding any texts_equal is_empty is_space drop_space trim_space trim_prefix strip_prefix drop_code
    trim_code split_on has_prefix profile_by_id set_profile action_or_allow find_house set_zone
    bump_siblings change_zone new_groups edit_profile change_profile path_parts
requests_run = tt

change_profile-Contained_example : Contained (codes "ana") ana homes edited
unfolding requests_run
change_profile-Contained_example =
    change_profile-Contained machine (codes "test") (codes "ana") (edit asked) ana homes edited refl
      refl

abbrev pub sent : Request
sent = record {
  method = codes "PUT";
  path = codes "/api/v1/profiles/ana";
  profile_body = some asked;
  package_body = none;
  packages = some [];
  token = none;
  writable = true;
}

abbrev replied : AccessScope → Control × Reply
replied scope = profile_resource machine (codes "test") homes_control [] scope sent

other_house_is_refused : (replied (house_scope (codes "blue"))).1 ≡ fails 404
unfolding requests_run profile_resource route_profile allowed_request scope_allows
other_house_is_refused = refl

profile_resource-Served_example :
    Failed homes_control (replied (house_scope (codes "red")))
    ⊎ Served machine
        (codes "test")
        homes_control
        (house_scope (codes "red"))
        (path_parts sent.path)
        (replied (house_scope (codes "red")))
profile_resource-Served_example =
    profile_resource-Served machine (codes "test") homes_control [] (house_scope (codes "red")) sent

abbrev away : Profile
away = record ana { house_id = codes "blue"; hostname = codes "p-a.dns.test"; disabled = true }

extension_view-decide_at_example :
    decide_at machine ana (codes "www.test") 5 ≡ decide_at machine away (codes "www.test") 5
unfolding extension_view group_views first_label location_of profile_location
extension_view-decide_at_example =
    extension_view-decide_at machine ana away (codes "www.test") 5 refl refl refl

abbrev pub pairings : Manager
pairings = record {
  suffix = codes "pair.test";
  challenge_ttl = 100;
  session_ttl = 1000;
  challenges = [];
  dns_tokens = [];
  sessions = [];
}

abbrev asking : Manager
asking = (create_challenge pairings 5 6 (some (codes "id")) (some (codes "tok"))).0

abbrev device : Manager
device =
    (observe machine asking (codes "ana") (codes "tok.pair.test.") 10 11 (some (codes "key"))).0

paired_device-extension_policy_example :
    ((challenge_status device (codes "id") 90).1
      ≡ ok (record { paired = true; session_token = codes "key"; expires_at = some (11 + 1000) }))
    × ((extension_policy homes device (codes "Bearer key") 500).1
        ≡ (if ltb (11 + 1000) 500 then err 401 else ok (extension_view ana)))
    × ((youth_profile homes device (codes "Bearer key") 500).1 ≡ (
        if ltb (11 + 1000) 500
        then err 401
        else ok (record { label = ana.label; rules = blocking_rules ana.groups })))
unfolding requests_run cleanup drop_tokens retain challenge_token to_lower trim_suffix has_suffix
    contains lookup
paired_device-extension_policy_example =
    paired_device-extension_policy machine homes pairings (codes "id") (codes "tok") (codes "key")
      (codes "tok.pair.test.") ana (codes "ana") 5 6 10 11 90 500 (omega arith) tt refl refl
      (omega arith) (omega arith) refl refl

-- A challenge that no device has resolved is answered to whoever knows its id.
unresolved_is_shown :
    (challenge_outcome (house_scope (codes "blue")) homes asking (codes "id") 7).1
    ≡ ok (record { observed = false; profile_id = [] })
unfolding requests_run create_challenge create add_challenge challenge_outcome scoped_outcome
    outcome cleanup drop_tokens retain lookup insert
unresolved_is_shown = refl
