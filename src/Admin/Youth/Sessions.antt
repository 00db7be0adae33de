-- ===== src/Admin/Youth/Sessions.antt =====
-- What a device is served once it is paired.
use teen_dns.Base.{
  ◌+◌, ◌≤◌, ◌<◌, ◌≡◌, refl, Bool, true, false, ltb, if◌then◌else◌, ◌++◌, length, none, some, Text,
  codes, is_empty, trim_prefix, Result, ok, err, ◌>>=◌, List, [], ◌∷◌, map, select, Bool-cases, inl,
  inr, ap, ◌∙◌,
}
use teen_dns.Platform.{Platform, Instant}
use teen_dns.Policy.{Action, allow, block, other, is_block, RuleGroup, Profile}
use teen_dns.Config.{Config}
use teen_dns.Pairing.{
  Manager, Challenge, CreateError, max_pending_challenges, cleanup, create, observe,
  challenge_token,
}
use teen_dns.Pairing.Flow.{pairing_flow, Unused}
use teen_dns.Admin.Profiles.{profile_by_id}
use teen_dns.Admin.Youth.{
  YouthRule, challenge_reply, create_challenge, challenge_status, bearer_token, paired_profile,
  extension_view, extension_policy, youth_rules, youth_profile,
}

challenge_reply-state : (x : Manager × Result CreateError Challenge) → (challenge_reply x).0 ≡ x.0
challenge_reply-state (m, ok challenge) = refl
challenge_reply-state (m, err e) = refl

abbrev blocks : Action → Bool
blocks block = true
blocks _ = false

-- The name and the reason of each group whose own action is to block.
abbrev pub blocking_rules : List RuleGroup → List YouthRule
blocking_rules gs =
    map {B = YouthRule} (λ (g : RuleGroup). record { name = g.name; reason = g.reason })
      (select (λ (g : RuleGroup). blocks g.action) gs)

is_block-blocks : (a : Action) → is_block a ≡ blocks a
unfolding is_block
is_block-blocks allow = refl
is_block-blocks block = refl
is_block-blocks Action.observe = refl
is_block-blocks (other _) = refl

youth_rules-blocking : (gs : List RuleGroup) → youth_rules gs ≡ blocking_rules gs
unfolding youth_rules select
youth_rules-blocking [] = refl
youth_rules-blocking (g ∷ gs) = elim (Bool-cases (blocks g.action)) [
  | inl blocked ↦
      rw (is_block-blocks g.action, blocked)
        (ap (◌∷◌ (record { name = g.name; reason = g.reason })) (youth_rules-blocking gs))
  | inr passed ↦ rw (is_block-blocks g.action, passed) (youth_rules-blocking gs)
]

-- What is made of the profile of a session that `late` says has run out.
served :
    {A : Type 0} (cfg : Config) (profile : Text) (p : Profile) (late : Bool) (view : Profile → A)
    → profile_by_id profile cfg.profiles ≡ some p
    → p.disabled ≡ false
    → (do found ← paired_profile cfg (if late then none else some profile); ok (view found))
      ≡ (if late then err 401 else ok (view p))
unfolding paired_profile
served cfg profile p true view found enabled = refl
served cfg profile p false view found enabled = rw (found, enabled) refl

bearer_token-append : (s : Text) → bearer_token (codes "Bearer " ++ s) ≡ s
unfolding trim_prefix
bearer_token-append s = refl

-- The challenge that a device asks for, the query of its name through a profile in time, and the
-- status that the device then reads: the session token in it is served the snapshot of that profile
-- and its blocking groups, for as long as the session lasts and the profile is there and enabled;
-- afterwards the reply is 401. There has to be room for the challenge and a DNS token that no
-- pending one holds.
pub paired_device-extension_policy :
    (env : Platform) (cfg : Config) (m : Manager) (id dns s query : Text) (p : Profile)
    (profile : Text) (now later now' later' at at' : Instant)
    → length (cleanup m now).challenges < max_pending_challenges
    → Unused dns (cleanup m now).challenges
    → is_empty profile ≡ false
    → challenge_token env m.suffix query ≡ some dns
    → now' ≤ later + m.challenge_ttl
    → at ≤ later + m.challenge_ttl
    → profile_by_id profile cfg.profiles ≡ some p
    → p.disabled ≡ false
    → let new = create_challenge m now later (some id) (some dns) in
      let done = (observe env new.0 profile query now' later' (some s)).0 in
      let header = codes "Bearer " ++ s in
      ((challenge_status done id at).1
        ≡ ok (record {
          paired = true;
          session_token = s;
          expires_at = some (later' + m.session_ttl);
        }))
      × ((extension_policy cfg done header at').1
          ≡ (if ltb (later' + m.session_ttl) at' then err 401 else ok (extension_view p)))
      × ((youth_profile cfg done header at').1 ≡ (
          if ltb (later' + m.session_ttl) at'
          then err 401
          else ok (record { label = p.label; rules = blocking_rules p.groups })))
unfolding create_challenge challenge_status extension_policy youth_profile
paired_device-extension_policy env cfg m id dns s query p profile now later now' later' at at' room
      unused named q h h' found enabled =
    let new = create m now later (some id) (some dns) in
    let (_, _, seen, session) =
      pairing_flow env m id dns s profile query now later now' later' at at' room unused named q h
        h' in
    let same : (create_challenge m now later (some id) (some dns)).0 ≡ new.0 =
      challenge_reply-state new in
    rw (same, bearer_token-append s, seen, session)
      (
        refl,
        served cfg profile p _ extension_view found enabled,
        served cfg profile p _ _ found enabled ∙ rw (youth_rules-blocking p.groups) refl,
      )
