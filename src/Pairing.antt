-- ===== src/Pairing.antt =====
-- internal/pairing/manager.go: one-time DNS challenges that bind a device to a profile.
-- A random token is an argument, `none` where rand.Read fails. `now` is the clock as cleanup reads
-- it and `later` as the rest of the operation does. The mutex makes each operation one step.
pub mod Histories
pub mod Flow
pub mod Bounds
mod Samples
use mathlib.Core.Option
use teen_dns.Base.{
  ℕ, ◌+◌, Bool, true, false, not, ◌||◌, ltb, leb, eqb, reverse, if◌then◌else◌, List, [], ◌∷◌, ◌++◌,
  length, Option, none, some, Text, codes, is_empty, trim_space, trim_suffix, has_suffix, contains,
  Map, lookup, insert, delete, retain, text_eq, Result, ok, err, ◌>>=◌, ◌>>◌, require,
}
use teen_dns.Platform.{Platform, to_lower, Instant}

abbrev pub max_pending_challenges : ℕ
max_pending_challenges = 10_000

pub record Challenge : Type 0 where
  pub id : Text
  pub dns_name : Text
  pub expires_at : Instant

pub record Status : Type 0 where
  pub paired : Bool
  pub session_token : Text
  pub expires_at : Option Instant

pub record ChallengeRecord : Type 0 where
  pub dns_token : Text
  pub expires_at : Instant
  pub profile_id : Text
  pub session_token : Text
  pub session_expiry : Option Instant

pub record SessionRecord : Type 0 where
  pub profile_id : Text
  pub expires_at : Instant

pub record Manager : Type 0 where
  pub suffix : Text
  pub challenge_ttl : ℕ
  pub session_ttl : ℕ
  pub challenges : Map Text ChallengeRecord
  pub dns_tokens : Map Text Text
  pub sessions : Map Text SessionRecord

-- strings.Trim(s, "."): at both ends
unfoldable pub drop_dots : Text → Text
drop_dots [] = []
drop_dots (c ∷ s) = let rest = drop_dots s in if eqb c b'.' then rest else c ∷ s

unfoldable pub trim_dots : Text → Text
unfolding drop_dots
trim_dots s = reverse (drop_dots (reverse (drop_dots s)))

unfoldable pub new_manager : Platform → Text → ℕ → ℕ → Manager
unfolding trim_dots
new_manager env suffix challenge_ttl session_ttl = record {
  suffix = trim_dots (to_lower env suffix);
  challenge_ttl = challenge_ttl;
  session_ttl = session_ttl;
  challenges = [];
  dns_tokens = [];
  sessions = [];
}

-- The DNS tokens of the challenges that have run out are deleted.
unfoldable pub drop_tokens : Instant → Map Text ChallengeRecord → Map Text Text → Map Text Text
drop_tokens now [] tokens = tokens
drop_tokens now ((id, r) ∷ cs) tokens =
    drop_tokens now cs (if ltb r.expires_at now then delete r.dns_token tokens else tokens)

abbrev pub live_challenge : Instant → Text → ChallengeRecord → Bool
live_challenge now id r = not (ltb r.expires_at now)

abbrev pub live_session : Instant → Text → SessionRecord → Bool
live_session now token s = not (ltb s.expires_at now)

unfoldable pub cleanup : Manager → Instant → Manager
cleanup m now = record m {
  challenges = retain (live_challenge now) m.challenges;
  dns_tokens = drop_tokens now m.challenges m.dns_tokens;
  sessions = retain (live_session now) m.sessions;
}

pub data CreateError : Type 0 where
  too_many_challenges no_randomness : CreateError

abbrev pub random : Option Text → Result CreateError Text
random none = err no_randomness
random (some t) = ok t

unfoldable pub add_challenge :
    Manager
    → Instant
    → Result CreateError Text
    → Result CreateError Text
    → Manager × Result CreateError Challenge
add_challenge m later (err e) dns = (m, err e)
add_challenge m later (ok id) (err e) = (m, err e)
add_challenge m later (ok id) (ok dns) = (
  record m {
    challenges =
        insert id
          (record {
            dns_token = dns;
            expires_at = later + m.challenge_ttl;
            profile_id = [];
            session_token = [];
            session_expiry = none;
          })
          m.challenges;
    dns_tokens = insert dns id m.dns_tokens;
  },
  ok (record { id = id; dns_name = dns ++ b'.' ∷ m.suffix; expires_at = later + m.challenge_ttl }),
)

-- The state is the cleaned one also where the call fails.
unfoldable pub create :
    Manager → Instant → Instant → Option Text → Option Text → Manager × Result CreateError Challenge
create m now later id_token dns_random =
    let clean = cleanup m now in
    if leb max_pending_challenges (length clean.challenges)
    then (clean, err too_many_challenges)
    else add_challenge clean later (random id_token) (random dns_random)

-- The DNS token that a query spells, if it is a name below the suffix with one more label.
unfoldable pub challenge_token : Platform → Text → Text → Option Text
challenge_token env suffix query =
    let name = trim_suffix (to_lower env (trim_space query)) (b'.' ∷ []) in
    let token = trim_suffix name (b'.' ∷ suffix) in
    if not (has_suffix name (b'.' ∷ suffix))
    then none
    else if is_empty token || contains token b'.'
    then none
    else some token

-- `record.profileID == ""`: the first profile that resolves the challenge is bound to it.
unfoldable pub bind_profile :
    Manager → Text → ChallengeRecord → Text → Instant → Option Text → Manager × Bool
bind_profile m id r profile_id later none = (m, false)
bind_profile m id r profile_id later (some token) = (
  record m {
    challenges =
        insert id
          (record r {
            profile_id = profile_id;
            session_token = token;
            session_expiry = some (later + m.session_ttl);
          })
          m.challenges;
    sessions =
        insert token (record { profile_id = profile_id; expires_at = later + m.session_ttl })
          m.sessions;
  },
  true,
)

unfoldable pub observe_record :
    Manager → Text → Option ChallengeRecord → Text → Instant → Option Text → Manager × Bool
observe_record m id none profile_id later token = (m, false)
observe_record m id (some r) profile_id later token =
    if is_empty r.profile_id then bind_profile m id r profile_id later token else (m, true)

unfoldable pub observe_token : Manager → Option Text → Text → Instant → Option Text → Manager × Bool
observe_token m none profile_id later token = (m, false)
observe_token m (some dns) profile_id later token = elim (lookup dns m.dns_tokens) [
  | none ↦ (m, false)
  | some id ↦ observe_record m id (lookup id m.challenges) profile_id later token
]

-- Observe. The Boolean tells whether the query was a challenge of this manager.
unfoldable pub observe :
    Platform → Manager → Text → Text → Instant → Instant → Option Text → Manager × Bool
observe env m profile_id query now later token =
    let clean = cleanup m now in
    observe_token clean (challenge_token env m.suffix query) profile_id later token

abbrev pub status_of : ChallengeRecord → Status
status_of r =
    if is_empty r.profile_id
    then record { paired = false; session_token = []; expires_at = none }
    else record { paired = true; session_token = r.session_token; expires_at = r.session_expiry }

-- Status; `none` where the challenge is unknown
unfoldable pub status : Manager → Text → Instant → Manager × Option Status
status m id now =
    let clean = cleanup m now in (clean, Option.map status_of (lookup id clean.challenges))

-- Outcome: the profile that resolved the challenge, "" while none has
unfoldable pub outcome : Manager → Text → Instant → Manager × Option Text
outcome m id now =
    let clean = cleanup m now in
    (clean, Option.map (λ (r : ChallengeRecord). r.profile_id) (lookup id clean.challenges))

-- Profile: the profile of a session
unfoldable pub session_profile : Manager → Text → Instant → Manager × Option Text
session_profile m token now =
    let clean = cleanup m now in
    (clean, Option.map (λ (s : SessionRecord). s.profile_id) (lookup token clean.sessions))
