-- ===== src/Policy/Decide.antt =====
-- DecideAt of policy.go: a pause first, then the longest matching domain of the rules and groups.
pub mod Candidates
pub mod Longest
pub mod Pauses
use teen_dns.Base.{
  ℕ, Bool, true, false, ◌&&◌, ◌||◌, ltb, if◌then◌else◌, List, [], ◌∷◌, Option, none, some, Text,
  codes, texts_equal, has_suffix, byte_length, Result, ok, err, ◌>>=◌, ◌>>◌, or_fail,
}
use teen_dns.Platform.{Platform, LocalTime, Instant}
use teen_dns.Policy.{Action, block, Rule, TimeWindow, RuleGroup, Profile, Decision, ScheduledAction}
use teen_dns.Policy.Names.{NameError, normalize_name}
use teen_dns.Policy.Schedule.{window_active, active_scheduled_action, profile_location}

pub data DecideError : Type 0 where
  bad_name : NameError → DecideError
  unknown_zone : Text → DecideError

abbrev pub default_decision : Profile → Decision
default_decision p = record {
  action = p.default_action;
  category = [];
  reason = [];
  matched_domain = [];
  group_name = [];
  schedule_label = [];
  policy_version = p.version;
}

abbrev pub pause_decision : Profile → TimeWindow → Decision
pause_decision p pause = record {
  action = block;
  category = codes "global_pause";
  reason = codes "Pausa geral";
  matched_domain = [];
  group_name = [];
  schedule_label = pause.label;
  policy_version = p.version;
}

unfoldable pub first_active_pause : List TimeWindow → LocalTime → Option TimeWindow
first_active_pause [] now = none
first_active_pause (w ∷ ws) now =
    let rest = first_active_pause ws now in if window_active w now then some w else rest

-- `name == domain || strings.HasSuffix(name, "."+domain)`, the second part where asked for
unfoldable pub domain_matches : Text → Bool → Text → Bool
domain_matches name subdomains domain =
    texts_equal name domain || (subdomains && has_suffix name (b'.' ∷ domain))

-- The loop's variables; `best` is `none` where bestMatchLength is -1.
pub record Scan : Type 0 where
  pub best : Option ℕ
  pub decision : Decision

unfoldable pub is_longer : ℕ → Option ℕ → Bool
is_longer n none = true
is_longer n (some best) = ltb best n

unfoldable pub scan_rule : Text → Scan → Rule → Scan
scan_rule name s rule =
    if domain_matches name rule.include_subdomains rule.domain
      && is_longer (byte_length rule.domain) s.best
    then record {
      best = some (byte_length rule.domain);
      decision = record d {
        action = rule.action;
        category = rule.category;
        reason = rule.reason;
        matched_domain = rule.domain;
      };
    }
    else s
  where
    d : Decision
    d = s.decision

unfoldable pub scan_rules : Text → Scan → List Rule → Scan
scan_rules name s [] = s
scan_rules name s (r ∷ rs) = scan_rules name (scan_rule name s r) rs

-- What a schedule of the group changes, if one is active.
unfoldable pub with_schedule : Decision → Option ScheduledAction → Decision
with_schedule d none = d
with_schedule d (some s) = record d { action = s.action; schedule_label = s.window.label }

unfoldable pub group_decision : RuleGroup → LocalTime → Text → Decision → Decision
unfolding with_schedule
group_decision g now domain d =
    with_schedule
      (record d {
        action = g.action;
        category = g.category;
        reason = g.reason;
        matched_domain = domain;
        group_name = g.name;
      })
      (active_scheduled_action g.schedules now)

unfoldable pub scan_domain : Text → LocalTime → RuleGroup → Scan → Text → Scan
scan_domain name now g s domain =
    if domain_matches name true domain && is_longer (byte_length domain) s.best
    then record {
      best = some (byte_length domain);
      decision = group_decision g now domain s.decision;
    }
    else s

unfoldable pub scan_domains : Text → LocalTime → RuleGroup → Scan → List Text → Scan
scan_domains name now g s [] = s
scan_domains name now g s (d ∷ ds) = scan_domains name now g (scan_domain name now g s d) ds

unfoldable pub scan_groups : Text → LocalTime → Scan → List RuleGroup → Scan
scan_groups name now s [] = s
scan_groups name now s (g ∷ gs) = scan_groups name now (scan_domains name now g s g.domains) gs

-- The two loops, from `bestMatchLength := -1` on.
unfoldable pub scan_all : Profile → Text → LocalTime → Decision
scan_all p name now =
    let start : Scan = record { best = none; decision = default_decision p } in
    (scan_groups name now (scan_rules name start p.rules) p.groups).decision

-- The location that the store has loaded, or the one of the profile's zone.
unfoldable pub location_of : Platform → Profile → Result Text Text
location_of env p = elim p.location [ none ↦ profile_location env p.time_zone | some l ↦ ok l ]

-- The part of DecideAt that follows the choice of the location.
unfoldable pub decide_local : Profile → Text → LocalTime → Decision
decide_local p name now = elim (first_active_pause p.pauses now) [
  | some pause ↦ pause_decision p pause
  | none ↦ scan_all p name now
]

abbrev pub rename_errors : {A : Type 0} → Result NameError A → Result DecideError A
rename_errors (ok a) = ok a
rename_errors (err e) = err (bad_name e)

abbrev pub zone_errors : {A : Type 0} → Result Text A → Result DecideError A
zone_errors (ok a) = ok a
zone_errors (err zone) = err (unknown_zone zone)

unfoldable pub decide_at : Platform → Profile → Text → Instant → Result DecideError Decision
decide_at env p query now = do
  name ← rename_errors (normalize_name env query)
  location ← zone_errors (location_of env p)
  ok (decide_local p name (env.local_time location now))
