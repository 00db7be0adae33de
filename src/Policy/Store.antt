-- ===== src/Policy/Store.antt =====
-- NewStore, Store and Manager of policy.go: the validated profiles by hostname and by label.
pub mod Lookup
pub mod Exclusive
pub mod Stored
use teen_dns.Base.{
  ℕ, Bool, true, false, not, ◌&&◌, ◌||◌, if◌then◌else◌, List, [], ◌∷◌, any, Option, none, some,
  Text, texts_equal, is_empty, before_dot, contains, Map, lookup, insert, has_key, Result, ok, err,
  ◌>>=◌, ◌>>◌, require, or_fail, text_eq,
}
use teen_dns.Platform.{Platform}
use teen_dns.Policy.{
  Action, Rule, TimeWindow, RuleGroup, Profile, ScheduledAction, valid_action, schedule_action,
}
use teen_dns.Policy.Names.{NameError, normalize_name}
use teen_dns.Policy.Schedule.{
  WindowError, validate_window, occupy_window, Occupied, profile_location,
}

-- The errors of NewStore, with the ids that the messages quote.
pub data StoreError : Type 0 where
  bad_hostname : Text → StoreError
  profile_id_required : StoreError
  duplicate_hostname duplicate_label : Text → StoreError
  bad_default_action unknown_zone : Text → StoreError
  bad_pause : Text → StoreError
  repeated_pause : Text → Text → StoreError
  bad_rule_domain bad_rule_action : Text → StoreError
  group_requires_id_and_name : Text → StoreError
  duplicate_group : Text → Text → StoreError
  bad_group_action bad_schedule bad_schedule_action : Text → Text → StoreError
  repeated_schedule overlapping_schedules : Text → Text → StoreError
  bad_group_domain repeated_domain : Text → Text → StoreError

pub record Store : Type 0 where
  pub profiles : Map Text Profile
  pub profile_labels : Map Text Profile

-- `_, exists := seen[id]` where only the keys of the map matter
unfoldable pub seen_before : Text → List Text → Bool
seen_before id seen = any (texts_equal id) seen

unfoldable pub check_pauses : Text → List Text → List TimeWindow → Result StoreError (Unit {0})
check_pauses p seen [] = ok tt
check_pauses p seen (w ∷ ws) = do
  or_fail (validate_window w) (bad_pause p)
  require (not (seen_before w.id seen)) (repeated_pause p w.id)
  check_pauses p (w.id ∷ seen) ws

unfoldable pub normalize_rules : Platform → Text → List Rule → Result StoreError (List Rule)
normalize_rules env p [] = ok []
normalize_rules env p (r ∷ rs) = do
  domain ← or_fail (normalize_name env r.domain) (bad_rule_domain p)
  require (valid_action r.action) (bad_rule_action p)
  rest ← normalize_rules env p rs
  ok (record r { domain = domain } ∷ rest)

unfoldable pub check_schedules :
    Text → Text → List Text → Occupied → List ScheduledAction → Result StoreError (Unit {0})
check_schedules p g seen occupied [] = ok tt
check_schedules p g seen occupied (s ∷ ss) = do
  or_fail (validate_window s.window) (bad_schedule p g)
  require (schedule_action s.action) (bad_schedule_action p g)
  require (not (seen_before s.window.id seen)) (repeated_schedule p g)
  next ← or_fail (occupy_window occupied s.window) (overlapping_schedules p g)
  check_schedules p g (s.window.id ∷ seen) next ss

unfoldable pub normalize_domains :
    Platform → Text → Text → List Text → List Text → Result StoreError (List Text)
normalize_domains env p g seen [] = ok []
normalize_domains env p g seen (d ∷ ds) = do
  domain ← or_fail (normalize_name env d) (bad_group_domain p g)
  require (not (seen_before domain seen)) (repeated_domain p g)
  rest ← normalize_domains env p g (domain ∷ seen) ds
  ok (domain ∷ rest)

-- No minute of the week is taken.
abbrev pub nothing_occupied : Occupied
nothing_occupied m = []

unfoldable pub normalize_groups :
    Platform → Text → List Text → List RuleGroup → Result StoreError (List RuleGroup)
normalize_groups env p seen [] = ok []
normalize_groups env p seen (g ∷ gs) = do
  require (not (is_empty g.id || is_empty g.name)) (group_requires_id_and_name p)
  require (not (seen_before g.id seen)) (duplicate_group p g.id)
  require (valid_action g.action) (bad_group_action p g.id)
  check_schedules p g.id [] nothing_occupied g.schedules
  domains ← normalize_domains env p g.id [] g.domains
  rest ← normalize_groups env p (g.id ∷ seen) gs
  ok (record g { domains = domains } ∷ rest)

-- The checks of one enabled profile after its hostname is known to be new. The result is the
-- profile that the store keeps.
unfoldable pub check_profile : Platform → Text → Profile → Result StoreError Profile
check_profile env host p = do
  require (valid_action p.default_action) (bad_default_action p.id)
  location ← or_fail (profile_location env p.time_zone) (unknown_zone p.id)
  check_pauses p.id [] p.pauses
  rules ← normalize_rules env p.id p.rules
  groups ← normalize_groups env p.id [] p.groups
  ok (record p { hostname = host; rules = rules; groups = groups; location = some location })

-- The body of NewStore's loop.
unfoldable pub add_profile : Platform → Store → Profile → Result StoreError Store
add_profile env s p = if p.disabled then ok s else do
  host ← or_fail (normalize_name env p.hostname) (bad_hostname p.id)
  require (not (is_empty p.id)) profile_id_required
  require (not (has_key host s.profiles)) (duplicate_hostname host)
  let label = before_dot host
  require (not (has_key label s.profile_labels)) (duplicate_label label)
  stored ← check_profile env host p
  ok (record {
    profiles = insert host stored s.profiles;
    profile_labels = insert label stored s.profile_labels;
  })

unfoldable pub add_profiles : Platform → Store → List Profile → Result StoreError Store
add_profiles env s [] = ok s
add_profiles env s (p ∷ ps) = do next ← add_profile env s p; add_profiles env next ps

abbrev pub empty_store : Store
empty_store = record { profiles = []; profile_labels = [] }

unfoldable pub new_store : Platform → List Profile → Result StoreError Store
unfolding add_profiles
new_store env ps = add_profiles env empty_store ps

-- Store.Profile
unfoldable pub profile : Platform → Store → Text → Option Profile
profile env s hostname = elim (normalize_name env hostname) [
  | ok name ↦ lookup name s.profiles
  | err _ ↦ none
]

-- Store.ProfileLabel
unfoldable pub profile_label : Platform → Store → Text → Option Profile
profile_label env s label = elim (normalize_name env label) [
  | ok name ↦ if contains name b'.' then none else lookup name s.profile_labels
  | err _ ↦ none
]

-- Manager.Replace: the store that the manager points to afterwards, beside the error.
unfoldable pub replace : Platform → Store → List Profile → Store × Option StoreError
replace env current ps = elim (new_store env ps) [ ok s ↦ (s, none) | err e ↦ (current, some e) ]
