-- ===== src/Admin/Samples.antt =====
-- One household that joins and leaves, and each theorem at it.
mod Requests
mod Histories
use teen_dns.Base.{
  trim_prefix, strip_prefix, retain, delete, ◌+◌, ◌≡◌, ◌⊎◌, refl, true, false, any, [], ◌∷◌, All,
  none, some, Text, codes, texts_equal, is_empty, is_space, drop_space, trim_space, trim_suffix,
  has_suffix, contains, contains_any, before_dot, lookup, insert, has_key, text_eq, ok, err, List,
}
use teen_dns.Platform.{Platform, to_lower}
use teen_dns.Policy.{Profile, RuleGroup, allow, observe, valid_action, schedule_action}
use teen_dns.Policy.Names.{normalize_name}
use teen_dns.Policy.Schedule.{profile_location}
use teen_dns.Policy.Store.{
  empty_store, seen_before, check_pauses, normalize_rules, check_schedules, normalize_domains,
  normalize_groups, check_profile, add_profile, add_profiles, new_store, repeated_domain,
}
use teen_dns.Config.{House, Invitation, Config, house_zones, zone_profiles, apply_house_time_zones}
use teen_dns.Digest.{Key, key_eq, Store}
use teen_dns.Admin.{
  Control, UpdateError, not_activated, settle, settle_all, activate, write_config, validate,
  zone_config, update,
}
use teen_dns.Magiclink.{Manager, house_id, cleanup}
use teen_dns.Admin.Access.{house_scope, house_by_hash, authorize}
use teen_dns.Admin.Access.Scopes.{Granted, authorize-Granted}
use teen_dns.Admin.Groups.{Incoming, known_groups, merge_with, merge_group, merge_all, merge_groups}
use teen_dns.Admin.Groups.Merged.{names_of, sent_names, MergedInto, merge_groups-Merged}
use teen_dns.Admin.Emails.{normalize_emails, looks_like_email, after_at}
use teen_dns.Admin.Update.{Done, Untouched, update-Done}
use teen_dns.Admin.Houses.{
  valid_invitation, find_valid_invitation, use_invitation, Registration, Supplies, RegisterError,
  new_house, new_profile, first_letters, prepare, register_house, remove_house, remaining,
  removed_ids, delete_house,
}
use teen_dns.Admin.Houses.Invitations.{valid_count, register_house-once}
use teen_dns.Admin.Houses.Left.{TakenOut, house_ids}
use teen_dns.Admin.Houses.Removal.{owners, of_others, Owns, delete_house_lem}

admin_run : Unit {0}
unfolding any texts_equal is_empty is_space drop_space trim_space trim_suffix has_suffix contains
    contains_any before_dot lookup insert has_key to_lower valid_action schedule_action
    normalize_name profile_location seen_before check_pauses normalize_rules check_schedules
    normalize_domains normalize_groups check_profile add_profile add_profiles new_store house_zones
    zone_profiles apply_house_time_zones settle settle_all activate write_config validate
    zone_config update valid_invitation find_valid_invitation use_invitation new_house new_profile
    first_letters prepare register_house remove_house remaining removed_ids delete_house valid_count
admin_run = tt

abbrev pub machine : Platform
machine = record {
  lower_rune = λ c. c;
  known_zone = λ zone. true;
  local_time = λ zone at. record { weekday = 0; hour = 0; minute = 0 };
}

abbrev invited : Invitation
invited = record {
  code_hash = codes "code";
  email = codes "a@b.test";
  created_at = 0;
  expires_at = 100;
  used_at = none;
}

abbrev pub config : Config
config = record {
  listen = codes ":853";
  upstream = codes "up";
  certificate = codes "c";
  private_key = codes "k";
  max_ttl = 300;
  houses = [];
  invitations = invited ∷ [];
  waitlist = [];
  profiles = [];
}

abbrev pub begin : Control
begin = record { config = config; disk = config; profiles = empty_store }

abbrev pub form : Registration
form = record {
  invitation_code = codes " code ";
  house_name = codes "House";
  profile_name = codes "Ana";
}

abbrev pub supplies : Supplies
supplies = record {
  house_token = some (codes "aaaaaaaaaaaaaa");
  house_id_token = some (codes "bbbbbbbbbbbbbb");
  profile_token = some (codes "cccccccccccccc");
  groups = some [];
  found_at = 5;
  checked_at = 6;
  used_at = 7;
  writable = true;
}

abbrev pub same : Text → Text
same s = s

joined_control : Control
joined_control = (register_house machine same (codes "dns.test") begin form supplies).0

-- The second household with the same code is turned away.
second_is_rejected :
    (register_house machine same (codes "dns.test") joined_control form supplies).1
    ≡ err RegisterError.bad_invitation
unfolding admin_run joined_control
second_is_rejected = refl

register_house-once_example :
    ((made : House × Profile) × ((register_house machine same
          (codes "dns.test")
          begin
          form
          supplies).1
        ≡ ok made)
      × (valid_count
              (codes "code")
              6
              (register_house machine same
                (codes "dns.test")
                begin
                form
                supplies).0.config.invitations
            + 1
          ≡ valid_count (codes "code") 6 (invited ∷ [])))
    ⊎ ((e : RegisterError) × ((register_house machine same (codes "dns.test") begin form supplies).1
          ≡ err e)
        × ((register_house machine same (codes "dns.test") begin form supplies).0.config ≡ config)
        × ((register_house machine same (codes "dns.test") begin form supplies).0.profiles
            ≡ empty_store))
unfolding admin_run
register_house-once_example =
    register_house-once machine same (codes "dns.test") begin form supplies

update-Done_example :
    (((update machine begin (some config) true).1 ≡ none)
      × Done machine (update machine begin (some config) true).0 (some config))
    ⊎ ((e : UpdateError) × ((update machine begin (some config) true).1 ≡ some e)
        × Untouched begin (update machine begin (some config) true).0 e)
update-Done_example = update-Done machine begin (some config) true

abbrev pub nothing_observed : Store
nothing_observed = record { path = []; entries = []; last_sent_at = []; disk = none }

house_leaves :
    owners
      (delete_house machine joined_control nothing_observed
        (codes "bbbbbbbbbbbb")
        true
        true).0.config.profiles
    ≡ []
unfolding admin_run joined_control
house_leaves = refl

abbrev id : Text
id = codes "bbbbbbbbbbbb"

delete_house_lem_example :
    (((delete_house machine joined_control nothing_observed id true true).2 ≡ none)
      × (owners
            (delete_house machine joined_control nothing_observed id true true).0.config.profiles
          ≡ of_others id (owners joined_control.config.profiles))
      × ((rest : List House) × TakenOut id joined_control.config.houses rest
          × (house_ids
                (delete_house machine joined_control nothing_observed id true true).0.config.houses
              ≡ house_ids rest))
      × ((k : Key)
          → Owns id joined_control.config.profiles k.profile_id
          → lookup k (delete_house machine joined_control nothing_observed id true true).1.entries
            ≡ none)
      × ((k : Key)
          → ¬ Owns id joined_control.config.profiles k.profile_id
          → lookup k (delete_house machine joined_control nothing_observed id true true).1.entries
            ≡ lookup k nothing_observed.entries))
    ⊎ ((e : UpdateError) × ((delete_house machine joined_control nothing_observed id true true).2
          ≡ some e)
        × ((delete_house machine joined_control nothing_observed id true true).0.config
            ≡ joined_control.config)
        × ((delete_house machine joined_control nothing_observed id true true).0.profiles
            ≡ joined_control.profiles)
        × ((delete_house machine joined_control nothing_observed id true true).1
            ≡ nothing_observed))
delete_house_lem_example = delete_house_lem machine joined_control nothing_observed id true true

-- "a.test.." loses one final dot each time it is normalized: a group with it and "a.test" is valid
-- once and repeats a domain the second time.
abbrev dots : RuleGroup
dots = record {
  id = codes "g";
  name = codes "G";
  action = observe;
  category = [];
  reason = [];
  domains = codes "a.test.." ∷ codes "a.test" ∷ [];
  default_domains = [];
  domain_source = [];
  customized = true;
  schedules = [];
}

abbrev pub dotted : Profile
dotted = record {
  id = codes "p";
  house_id = [];
  label = [];
  hostname = codes "p.test";
  disabled = false;
  default_action = allow;
  version = 1;
  rules = [];
  groups = dots ∷ [];
  pauses = [];
  time_zone = [];
  location = none;
}

file_is_ahead :
    (update machine begin (some (record config { profiles = dotted ∷ [] })) true).1
    ≡ some (not_activated (repeated_domain (codes "p") (codes "g")))
unfolding admin_run
file_is_ahead = refl

abbrev sent_group : Incoming
sent_group = record { group = record dots { domain_source = codes "forged" }; schedules = none }

abbrev unknown_group : Incoming
unknown_group = record {
  group = record dots { id = codes " new "; domain_source = codes "forged"; customized = false };
  schedules = none;
}

abbrev first_stored : RuleGroup
first_stored = record dots { domain_source = codes "old" }

abbrev last_stored : RuleGroup
last_stored = record dots { domain_source = codes "list"; default_domains = codes "b.test" ∷ [] }

abbrev merged : List RuleGroup
merged = last_stored ∷ record dots { id = codes "new" } ∷ []

merge_groups-Merged_example :
    (names_of merged ≡ sent_names (sent_group ∷ unknown_group ∷ []))
    × All (MergedInto (first_stored ∷ last_stored ∷ [])) merged
unfolding admin_run known_groups merge_with merge_group merge_all merge_groups
merge_groups-Merged_example =
    merge_groups-Merged (first_stored ∷ last_stored ∷ []) (sent_group ∷ unknown_group ∷ []) merged
      refl

abbrev pub sessions : Manager
sessions = record {
  link_ttl = 10;
  session_ttl = 10;
  links = [];
  sessions = (codes "session", record { house_id = codes "house"; expires_at = 50 }) ∷ [];
}

authorize-Granted_example :
    Granted same
      (codes "operator")
      sessions
      []
      (trim_prefix (codes "Bearer session") (codes "Bearer "))
      9
      (dotted ∷ [])
      (house_scope (codes "house"))
unfolding admin_run authorize house_by_hash trim_prefix strip_prefix house_id cleanup retain delete
authorize-Granted_example =
    authorize-Granted same (codes "operator") sessions [] (codes "Bearer session") 9 (dotted ∷ [])
      (house_scope (codes "house")) refl

addresses :
    normalize_emails machine [] (codes " A@b.test" ∷ [] ∷ codes "a@B.test" ∷ [])
    ≡ ok (codes "a@b.test" ∷ [])
unfolding admin_run normalize_emails looks_like_email after_at
addresses = refl
