-- ===== src/Policy/Samples.antt =====
-- Tests of the policy on one family's configuration, and each theorem at it.
use teen_dns.Base.{
  ℕ, ◌+◌, ◌*◌, ◌/◌, ◌%◌, ◌<◌, ◌≡◌, ◌↔◌, refl, inl, true, false, [], ◌∷◌, any, Pairs, Option, none,
  some, Text, codes, texts_equal, is_empty, is_space, drop_space, trim_space, trim_suffix,
  has_suffix, contains, contains_any, before_dot, byte_length, lookup, insert, has_key,
  if◌then◌else◌, text_eq, Result, ok, err, arith, pos, In, ◌⊎◌, List,
}
use teen_dns.Platform.{Platform, LocalTime, IsClock, to_lower}
use teen_dns.Policy.{
  allow, block, observe, TimeWindow, RuleGroup, Profile, Decision, valid_action, schedule_action,
}
use teen_dns.Policy.Names.{NameError, normalize_name}
use teen_dns.Policy.Schedule.{
  zone_or_default, profile_location, parse_minute, minute_or_zero, check_days, in_week, same_day,
  validate_window, day_active, window_active, active_scheduled_action, occupy_minutes, occupy_days,
  occupy_window, week, Occupied,
}
use teen_dns.Policy.Schedule.Minutes.{format_minute, parse_minute_iff}
use teen_dns.Policy.Schedule.Valid.{validate_window-IsWindow}
use teen_dns.Policy.Schedule.Windows.{covers, week_minute, window_active-covers}
use teen_dns.Policy.Schedule.Free.{occupy_window_iff}
use teen_dns.Policy.Decide.{
  bad_name, first_active_pause, domain_matches, is_longer, scan_rule, scan_rules, with_schedule,
  group_decision, scan_domain, scan_domains, scan_groups, scan_all, location_of, decide_local,
  decide_at,
}
use teen_dns.Policy.Decide.Longest.{Decided, decide_local-Decided}
use teen_dns.Policy.Decide.Pauses.{Paused, decide_at-pause, scan_all-stale_label}
use teen_dns.Policy.Store.{
  Store, seen_before, check_pauses, normalize_rules, check_schedules, normalize_domains,
  normalize_groups, check_profile, add_profile, new_store, empty_store, profile, profile_label,
}
use teen_dns.Policy.Store.Lookup.{Origin, lookup-new_store_iff}
use teen_dns.Policy.Store.Exclusive.{Together}
use teen_dns.Policy.Store.Stored.{
  IsStored, lookup-IsStored, stored_schedules-exclusive, decide_at-total,
}

-- What a run of the policy computes with.
policy_run : Unit {0}
unfolding any texts_equal is_empty is_space drop_space trim_space trim_suffix has_suffix contains
    contains_any before_dot byte_length lookup insert has_key to_lower valid_action schedule_action
    normalize_name profile_location parse_minute minute_or_zero check_days in_week same_day
    validate_window day_active window_active active_scheduled_action occupy_minutes occupy_days
    occupy_window first_active_pause domain_matches is_longer scan_rule scan_rules with_schedule
    group_decision scan_domain scan_domains scan_groups scan_all location_of decide_local decide_at
    seen_before check_pauses normalize_rules check_schedules normalize_domains normalize_groups
    check_profile add_profile new_store profile profile_label
policy_run = tt

-- A machine whose instants are minutes, whose zones are all known and eastern by nothing.
abbrev clock : ℕ → LocalTime
clock at = record { weekday = at / 1440 % 7; hour = at / 60 % 24; minute = at % 60 }

abbrev machine : Platform
machine = record {
  lower_rune = λ c. c;
  known_zone = λ zone. true;
  local_time = λ zone at. clock at;
}

abbrev lunch : TimeWindow
lunch = record {
  id = codes "lunch";
  label = codes "Lunch";
  days = pos 1 ∷ pos 2 ∷ [];
  start = codes "12:00";
  end = codes "12:10";
}

-- Round midnight, from Saturday to Sunday.
abbrev night : TimeWindow
night = record {
  id = codes "night";
  label = codes "Night";
  days = pos 6 ∷ [];
  start = codes "23:55";
  end = codes "00:05";
}

abbrev games : RuleGroup
games = record {
  id = codes "games";
  name = codes "Games";
  action = observe;
  category = codes "games";
  reason = codes "Play";
  domains = codes "Roblox.com" ∷ [];
  default_domains = [];
  domain_source = [];
  customized = false;
  schedules =
      record { window = lunch; action = block } ∷ record { window = night; action = allow } ∷ [];
}

abbrev school : RuleGroup
school = record games {
  id = codes "school";
  name = codes "School";
  action = allow;
  domains = codes "edu.roblox.com" ∷ [];
  schedules = [];
}

abbrev home : Profile
home = record {
  id = codes "home";
  house_id = codes "house";
  label = codes "Home";
  hostname = codes "P-1.dns.Test.";
  disabled = false;
  default_action = allow;
  version = 7;
  rules =
      record {
        domain = codes "ads.test";
        include_subdomains = true;
        action = block;
        category = codes "ads";
        reason = codes "Ads";
      }
      ∷ [];
  groups = games ∷ school ∷ [];
  pauses = record lunch { id = codes "sleep"; days = pos 3 ∷ [] } ∷ [];
  time_zone = [];
  location = none;
}

abbrev store_or_empty : {E : Type 0} → Result E Store → Store
store_or_empty (ok s) = s
store_or_empty (err e) = empty_store

home_store : Store
home_store = store_or_empty (new_store machine (home ∷ []))

abbrev host : Text
host = codes "p-1.dns.test"

abbrev profile_or : Option Profile → Profile
profile_or none = home
profile_or (some p) = p

kept_home : Profile
unfolding home_store
kept_home = profile_or (lookup host home_store.profiles)

home_accepted : new_store machine (home ∷ []) ≡ ok home_store
unfolding policy_run home_store
home_accepted = refl

home_found : lookup host home_store.profiles ≡ some kept_home
unfolding policy_run kept_home
home_found = refl

-- Monday at 12:05.
abbrev monday_noon : ℕ
monday_noon = 1440 + 725

monday_IsClock : IsClock (clock monday_noon)
monday_IsClock = omega arith

abbrev pupil : Text
pupil = codes "a.edu.roblox.com"

-- The longer domain of the later group wins over the group whose schedule is active.
pupil_decision : scan_all kept_home pupil (clock monday_noon) ≡ record {
  action = allow;
  category = codes "games";
  reason = codes "Play";
  matched_domain = codes "edu.roblox.com";
  group_name = codes "School";
  schedule_label = codes "Lunch";
  policy_version = 7;
}
unfolding policy_run kept_home
pupil_decision = refl

decide_local-Decided_example :
    Decided kept_home pupil (clock monday_noon) (decide_local kept_home pupil (clock monday_noon))
unfolding policy_run kept_home
decide_local-Decided_example = decide_local-Decided kept_home pupil (clock monday_noon) refl

stored_schedules-exclusive_example :
    Pairs
      (λ a b. ¬ Together (clock monday_noon) a b)
      (record games { domains = codes "roblox.com" ∷ [] }).schedules
unfolding policy_run kept_home
stored_schedules-exclusive_example =
    stored_schedules-exclusive machine (home ∷ []) home_store host kept_home
      (record games { domains = codes "roblox.com" ∷ [] }) (clock monday_noon) home_accepted
      home_found (inl refl) monday_IsClock

night_valid : validate_window night ≡ ok tt
unfolding policy_run
night_valid = refl

window_active-covers_example : window_active night (clock 3) ≡ covers night (week_minute (clock 3))
window_active-covers_example =
    window_active-covers night (clock 3) (validate_window-IsWindow night night_valid) (omega arith)

occupy_window_iff_example :
    ((after : Occupied) × (occupy_window (λ _. []) night ≡ ok after)
      × ((t : ℕ) → t < week → after t ≡ (if covers night t then night.id else [])))
    ↔ ((t : ℕ) → t < week → covers night t ≡ true → ◌≡◌ {A = Text} [] [])
occupy_window_iff_example =
    occupy_window_iff night (λ _. []) (validate_window-IsWindow night night_valid)

lookup-new_store_iff_example :
    (lookup host home_store.profiles ≡ some kept_home) ↔ Origin machine (home ∷ []) host kept_home
lookup-new_store_iff_example =
    lookup-new_store_iff machine (home ∷ []) home_store host kept_home home_accepted

lookup-IsStored_example : IsStored machine kept_home
lookup-IsStored_example =
    lookup-IsStored machine (home ∷ []) home_store host kept_home home_accepted home_found

decide_at-total_example :
    (l : Text) × (kept_home.location ≡ some l)
    × (l ≡ zone_or_default kept_home.time_zone)
    × (machine.known_zone l ≡ true)
    × (((name : Text) × (normalize_name machine (codes "Example.com.") ≡ ok name)
          × (decide_at machine kept_home (codes "Example.com.") 3
              ≡ ok (decide_local kept_home name (machine.local_time l 3))))
        ⊎ ((e : NameError) × (normalize_name machine (codes "Example.com.") ≡ err e)
            × (decide_at machine kept_home (codes "Example.com.") 3 ≡ err (bad_name e))))
decide_at-total_example =
    decide_at-total machine (home ∷ []) home_store host kept_home (codes "Example.com.") 3
      home_accepted home_found

abbrev sleep : TimeWindow
sleep = record lunch { id = codes "sleep"; days = pos 3 ∷ [] }

-- Wednesday at 12:00.
abbrev wednesday : ℕ
wednesday = 3 * 1440 + 720

decide_at-pause_example :
    (v : TimeWindow) × (d : Decision) × In v home.pauses
    × (window_active v (clock wednesday) ≡ true)
    × (decide_at machine home (codes "example.com") wednesday ≡ ok d)
    × Paused home v d
unfolding policy_run
decide_at-pause_example =
    decide_at-pause machine home (codes "example.com") (codes "example.com")
      (codes "America/Sao_Paulo") wednesday sleep refl refl (inl refl) refl

parse_minute_iff_example :
    (parse_minute (codes "07:30") ≡ some 450) ↔ ((450 < 1440) × (codes "07:30" ≡ format_minute 450))
parse_minute_iff_example = parse_minute_iff (codes "07:30") 450

abbrev overlapping : Profile
overlapping = record home {
  rules = [];
  groups = record games { domains = codes "roblox.com" ∷ [] } ∷ school ∷ [];
}

abbrev before_school : List RuleGroup
before_school = record games { domains = codes "roblox.com" ∷ [] } ∷ []

scan_all-stale_label_example :
    ((scan_all overlapping (codes "a.edu.roblox.com") (clock monday_noon)).schedule_label
      ≡ (scan_all
          (record overlapping { groups = before_school })
          (codes "a.edu.roblox.com")
          (clock monday_noon)).schedule_label)
    × Decided overlapping
        (codes "a.edu.roblox.com")
        (clock monday_noon)
        (scan_all overlapping (codes "a.edu.roblox.com") (clock monday_noon))
unfolding policy_run
scan_all-stale_label_example =
    scan_all-stale_label overlapping before_school (school ∷ []) (codes "a.edu.roblox.com")
      (clock monday_noon) refl (refl, tt)

-- The later group allows the name, under the label of the earlier group's schedule.
label_of_another_group :
    let d = scan_all overlapping (codes "a.edu.roblox.com") (clock monday_noon) in
    (d.action ≡ allow) × (d.group_name ≡ codes "School") × (d.schedule_label ≡ codes "Lunch")
unfolding policy_run
label_of_another_group = (refl, refl, refl)
