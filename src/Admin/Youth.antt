-- ===== src/Admin/Youth.antt =====
-- What a paired device may ask for: the handlers on pairing challenges, youthProfile and
-- extensionPolicy. A failure is the status of its reply.
pub mod Mirror
pub mod Sessions
use teen_dns.Base.{
  ◌+◌, ℕ, Bool, true, false, not, ◌||◌, if◌then◌else◌, List, [], ◌∷◌, Option, none, some, Text,
  codes, texts_equal, is_empty, eqb, trim_prefix, Result, ok, err, ◌>>=◌, ◌>>◌, require,
}
use teen_dns.Platform.{Instant}
use teen_dns.Policy.{Action, Rule, TimeWindow, ScheduledAction, RuleGroup, Profile, is_block}
use teen_dns.Policy.Schedule.{zone_or_default}
use teen_dns.Config.{Config}
use teen_dns.Pairing.{
  Manager, Challenge, CreateError, Status, create, status, outcome, session_profile,
}
use teen_dns.Admin.Access.{AccessScope, scope_allows}
use teen_dns.Admin.Profiles.{profile_by_id}

pub record PairingOutcome : Type 0 where
  pub observed : Bool
  pub profile_id : Text

pub record YouthRule : Type 0 where
  pub name : Text
  pub reason : Text

pub record YouthProfile : Type 0 where
  pub label : Text
  pub rules : List YouthRule

pub record ExtensionGroup : Type 0 where
  pub id : Text
  pub name : Text
  pub action : Action
  pub category : Text
  pub reason : Text
  pub domains : List Text
  pub schedules : List ScheduledAction

pub record ExtensionPolicy : Type 0 where
  pub label : Text
  pub fingerprint : Text
  pub default_action : Action
  pub version : ℕ
  pub time_zone : Text
  pub rules : List Rule
  pub groups : List ExtensionGroup
  pub pauses : List TimeWindow

abbrev pub reply_of : {A : Type 0} → ℕ → Option A → Result ℕ A
reply_of status none = err status
reply_of status (some a) = ok a

abbrev pub challenge_reply : Manager × Result CreateError Challenge → Manager × Result ℕ Challenge
challenge_reply (m, ok challenge) = (m, ok challenge)
challenge_reply (m, err e) = (m, err 503)

-- createPairingChallenge
unfoldable pub create_challenge :
    Manager → Instant → Instant → Option Text → Option Text → Manager × Result ℕ Challenge
create_challenge m now later id_token dns_token =
    challenge_reply (create m now later id_token dns_token)

-- pairingChallengeStatus
unfoldable pub challenge_status : Manager → Text → Instant → Manager × Result ℕ Status
challenge_status m id now = let answer = status m id now in (answer.0, reply_of 404 answer.1)

-- The reply to the outcome of a challenge that exists.
unfoldable pub scoped_outcome : AccessScope → Config → Text → Result ℕ PairingOutcome
scoped_outcome scope cfg id =
    if is_empty id then ok (record { observed = false; profile_id = [] }) else (do
      p ← reply_of 404 (profile_by_id id cfg.profiles)
      require (scope_allows scope p) 404
      ok (record { observed = true; profile_id = id }))

-- pairingChallengeOutcome
unfoldable pub challenge_outcome :
    AccessScope → Config → Manager → Text → Instant → Manager × Result ℕ PairingOutcome
unfolding scoped_outcome
challenge_outcome scope cfg m id now =
    let answer = outcome m id now in
    (answer.0, (do found ← reply_of 404 answer.1; scoped_outcome scope cfg found))

-- The profile of a pairing session, as youthProfile and extensionPolicy look it up.
unfoldable pub paired_profile : Config → Option Text → Result ℕ Profile
paired_profile cfg session = do
  id ← reply_of 401 session
  p ← reply_of 404 (profile_by_id id cfg.profiles)
  require (not p.disabled) 404
  ok p

abbrev pub bearer_token : Text → Text
bearer_token header = trim_prefix header (codes "Bearer ")

-- The groups that block, without what they hold.
unfoldable pub youth_rules : List RuleGroup → List YouthRule
youth_rules [] = []
youth_rules (g ∷ gs) =
    let rest = youth_rules gs in
    if is_block g.action then record { name = g.name; reason = g.reason } ∷ rest else rest

-- youthProfile
unfoldable pub youth_profile : Config → Manager → Text → Instant → Manager × Result ℕ YouthProfile
unfolding paired_profile youth_rules
youth_profile cfg m header now =
    let session = session_profile m (bearer_token header) now in
    (
      session.0,
      (do
        p ← paired_profile cfg session.1
        ok (record { label = p.label; rules = youth_rules p.groups })),
    )

abbrev pub group_view : RuleGroup → ExtensionGroup
group_view g = record {
  id = g.id;
  name = g.name;
  action = g.action;
  category = g.category;
  reason = g.reason;
  domains = g.domains;
  schedules = g.schedules;
}

unfoldable pub group_views : List RuleGroup → List ExtensionGroup
group_views [] = []
group_views (g ∷ gs) = group_view g ∷ group_views gs

-- strings.SplitN(hostname, ".", 2)[0]
unfoldable pub first_label : Text → Text
first_label [] = []
first_label (c ∷ s) = let rest = first_label s in if eqb c b'.' then [] else c ∷ rest

unfoldable pub extension_view : Profile → ExtensionPolicy
unfolding group_views first_label
extension_view p = record {
  label = p.label;
  fingerprint = first_label p.hostname;
  default_action = p.default_action;
  version = p.version;
  time_zone = zone_or_default p.time_zone;
  rules = p.rules;
  groups = group_views p.groups;
  pauses = p.pauses;
}

-- extensionPolicy
unfoldable pub extension_policy :
    Config → Manager → Text → Instant → Manager × Result ℕ ExtensionPolicy
unfolding paired_profile extension_view
extension_policy cfg m header now =
    let session = session_profile m (bearer_token header) now in
    (session.0, (do p ← paired_profile cfg session.1; ok (extension_view p)))
