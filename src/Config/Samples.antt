-- ===== src/Config/Samples.antt =====
-- A small file and a small configuration, and each theorem at them.
use teen_dns.Base.{
  ◌≡◌, refl, true, any, List, [], ◌∷◌, Text, codes, texts_equal, is_empty, is_space, drop_space,
  trim_space, lookup, insert, text_eq, trim_suffix, has_suffix, contains, contains_any, before_dot,
  has_key, Option, some, none, false, ok, err,
}
use teen_dns.Platform.{Platform, to_lower}
use teen_dns.Config.{
  House, Config, is_comment, domains_of, load_domains, house_zones, zone_profiles,
  apply_house_time_zones,
}
use teen_dns.Policy.{valid_action, schedule_action, observe, block}
use teen_dns.Policy.Names.{normalize_name}
use teen_dns.Policy.Schedule.{profile_location}
use teen_dns.Policy.Store.{
  seen_before, check_pauses, normalize_rules, check_schedules, normalize_domains, normalize_groups,
  check_profile, add_profile, add_profiles, new_store,
}
use teen_dns.Admin.{settle, settle_all}
use teen_dns.Config.Load.{
  StoredConfig, migrate_emails, load_group, load_groups, load_profiles, decoded_profiles, load,
}
use teen_dns.Config.Load.Ready.{Ready, load-Ready}

config_run : Unit {0}
unfolding any texts_equal is_empty is_space drop_space trim_space lookup insert to_lower is_comment
    domains_of load_domains house_zones zone_profiles apply_house_time_zones
config_run = tt

load_run : Unit {0}
unfolding config_run trim_suffix has_suffix contains contains_any before_dot has_key valid_action
    schedule_action normalize_name profile_location seen_before check_pauses normalize_rules
    check_schedules normalize_domains normalize_groups check_profile add_profile add_profiles
    new_store settle settle_all migrate_emails load_group load_groups load_profiles decoded_profiles
    load
load_run = tt

abbrev machine : Platform
machine = record {
  lower_rune = λ c. c;
  known_zone = λ zone. true;
  local_time = λ zone at. record { weekday = 0; hour = 0; minute = 0 };
}

abbrev lines : List Text
lines = codes " Video.test " ∷ codes "# video" ∷ [] ∷ codes "video.TEST" ∷ codes "play.test" ∷ []

two_domains : load_domains machine lines ≡ codes "video.test" ∷ codes "play.test" ∷ []
unfolding config_run
two_domains = refl

abbrev house : House
house = record {
  id = codes "house";
  name = codes "House";
  admin_token_hash = [];
  time_zone = codes "Europe/Lisbon";
  email = [];
  emails = [];
}

abbrev config : Config
config = record {
  listen = codes ":853";
  upstream = codes "up";
  certificate = codes "c";
  private_key = codes "k";
  max_ttl = 300;
  houses = house ∷ [];
  invitations = [];
  waitlist = [];
  profiles = [];
}

abbrev stored : StoredConfig
stored = record {
  config = record config { max_ttl = 0; houses = record house { email = codes "a@b.test" } ∷ [] };
  profiles =
      record {
        decoded = record {
          id = codes "p";
          house_id = codes "house";
          label = [];
          hostname = codes "p.test";
          disabled = false;
          default_action = observe;
          version = 1;
          rules = [];
          groups = [];
          pauses = [];
          time_zone = [];
          location = none;
        };
        groups =
            record {
              group = record {
                id = codes "g";
                name = codes "G";
                action = block;
                category = [];
                reason = [];
                domains = [];
                default_domains = [];
                domain_source = codes "file";
                customized = false;
                schedules = [];
              };
              domains = none;
              default_domains = none;
            }
            ∷ [];
      }
      ∷ [];
}

abbrev read_file : Text → Option (List Text)
read_file path = some lines

-- What is loaded.
abbrev loaded : Config
loaded = elim (load machine read_file (some stored)) [ err e ↦ config | ok out ↦ out ]

load-Ready_example : Ready machine loaded
unfolding load_run
load-Ready_example = load-Ready machine read_file stored loaded refl refl
