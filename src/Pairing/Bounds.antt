-- ===== src/Pairing/Bounds.antt =====
-- The number of pending challenges, over any history, and what has run out.
use teen_dns.Base.{
  ◌+◌, ◌≤◌, ◌<◌, ◌≡◌, refl, sym, ◌∙◌, inl, inr, false, ltb, if◌then◌else◌, List, [], ◌∷◌, length,
  Option, none, some, Text, arith, Option-cases, Map, lookup, insert, delete, lookup-delete,
  lookup-retain, length-insert, length-retain-le, text_eq,
}
use teen_dns.Platform.{Platform, Instant}
use teen_dns.Pairing.{
  Manager, ChallengeRecord, max_pending_challenges, cleanup, create, add_challenge, observe,
  observe_token, observe_record, bind_profile, challenge_token, status, outcome, session_profile,
  random, live_challenge, drop_tokens,
}
use teen_dns.Pairing.Histories.{
  Call, creates, observes, asks_status, asks_outcome, asks_profile, step, run,
}

pub length-cleanup-le :
    (m : Manager) (now : Instant) → length (cleanup m now).challenges ≤ length m.challenges
unfolding cleanup
length-cleanup-le m now = length-retain-le (live_challenge now) m.challenges

-- A write under a key that is there adds no entry.
length-insert_old :
    (k : Text) (v r : ChallengeRecord) (m : Map Text ChallengeRecord)
    → lookup k m ≡ some r
    → length (insert k v m) ≡ length m
unfolding insert lookup
length-insert_old k v r [] h = cc
length-insert_old k v r ((j, w) ∷ m) h = ground (arith, length-insert_old k v r m)

add_challenge-length :
    (m : Manager) (later : Instant) (id dns : Option Text)
    → length (add_challenge m later (random id) (random dns)).0.challenges ≤ length m.challenges + 1
unfolding add_challenge
add_challenge-length m later none dns = omega arith
add_challenge-length m later (some k) none = omega arith
add_challenge-length m later (some k) (some d) = length-insert k _ m.challenges

bind_profile-length :
    (m : Manager) (k : Text) (r : ChallengeRecord) (p : Text) (later : Instant) (t : Option Text)
    → lookup k m.challenges ≡ some r
    → length (bind_profile m k r p later t).0.challenges ≡ length m.challenges
unfolding bind_profile
bind_profile-length m k r p later none e = refl
bind_profile-length m k r p later (some s) e = length-insert_old k _ r m.challenges e

observe_record-length :
    (m : Manager) (k : Text) (o : Option ChallengeRecord) (p : Text) (later : Instant)
    (t : Option Text)
    → lookup k m.challenges ≡ o
    → length (observe_record m k o p later t).0.challenges ≡ length m.challenges
unfolding observe_record
observe_record-length m k none p later t e = refl
observe_record-length m k (some r) p later t e =
    ground (arith, bind_profile-length m k r p later t e)

observe_token-length :
    (m : Manager) (dns : Option Text) (p : Text) (later : Instant) (t : Option Text)
    → length (observe_token m dns p later t).0.challenges ≡ length m.challenges
unfolding observe_token
observe_token-length m none p later t = refl
observe_token-length m (some d) p later t = elim (Option-cases (lookup d m.dns_tokens)) [
  | inl e ↦ rw (e, observe_token)
  | inr (k, e) ↦
      rw (e, observe_token) (observe_record-length m k (lookup k m.challenges) p later t refl)
]

step-bounded :
    (env : Platform) (m : Manager) (c : Call)
    → length m.challenges ≤ max_pending_challenges
    → length (step env m c).challenges ≤ max_pending_challenges
unfolding step create observe status outcome session_profile
step-bounded env m (creates now later id dns) h =
    ground (arith, length-cleanup-le m now, add_challenge-length (cleanup m now) later id dns)
step-bounded env m (observes p query now later t) h = omega (
  arith,
  length-cleanup-le m now,
  observe_token-length (cleanup m now) (challenge_token env m.suffix query) p later t,
)
step-bounded env m (asks_status id now) h = omega (arith, length-cleanup-le m now)
step-bounded env m (asks_outcome id now) h = omega (arith, length-cleanup-le m now)
step-bounded env m (asks_profile t now) h = omega (arith, length-cleanup-le m now)

-- From a state with at most ten thousand pending challenges, no history of calls makes more
-- than ten thousand pending.
pub run-challenges_bounded :
    (env : Platform) (m : Manager) (cs : List Call)
    → length m.challenges ≤ max_pending_challenges
    → length (run env m cs).challenges ≤ max_pending_challenges
unfolding run
run-challenges_bounded env m [] h = h
run-challenges_bounded env m (c ∷ cs) h =
    run-challenges_bounded env (step env m c) cs (step-bounded env m c h)

-- Deleting tokens adds none.
drop_tokens_inv :
    (now : Instant) (cs : Map Text ChallengeRecord) (tokens : Map Text Text) (k id : Text)
    → lookup k (drop_tokens now cs tokens) ≡ some id
    → lookup k tokens ≡ some id
unfolding drop_tokens
drop_tokens_inv now [] tokens k id h = h
drop_tokens_inv now ((j, r) ∷ cs) tokens k id h = ground (
  arith,
  drop_tokens_inv now cs (if ltb r.expires_at now then delete r.dns_token tokens else tokens) k id
      h,
  lookup-delete r.dns_token k tokens,
)

cleanup-token :
    (m : Manager) (dns k : Text) (now : Instant)
    → lookup dns (cleanup m now).dns_tokens ≡ some k
    → lookup dns m.dns_tokens ≡ some k
unfolding cleanup
cleanup-token m dns k now e = drop_tokens_inv now m.challenges m.dns_tokens dns k e

cleanup-expired :
    (m : Manager) (id : Text) (r : ChallengeRecord) (now : Instant)
    → lookup id m.challenges ≡ some r
    → r.expires_at < now
    → lookup id (cleanup m now).challenges ≡ none
unfolding cleanup
cleanup-expired m id r now e h =
    rw (lookup-retain (live_challenge now) id m.challenges, e) (ground arith)

-- Its token leads to no record.
observe_token-expired :
    (m : Manager) (id dns profile : Text) (now later : Instant) (token : Option Text)
    → lookup id (cleanup m now).challenges ≡ none
    → lookup dns m.dns_tokens ≡ some id
    → observe_token (cleanup m now) (some dns) profile later token ≡ (cleanup m now, false)
unfolding observe_token observe_record
observe_token-expired m id dns profile now later token gone d =
    elim (Option-cases (lookup dns (cleanup m now).dns_tokens)) [
      | inl e ↦ rw (e, observe_token)
      | inr (k, e) ↦
          let old : some k ≡ some id = sym (cleanup-token m dns k now e) ∙ d in
          let same : lookup k (cleanup m now).challenges ≡ none = ground (arith, gone, old) in
          rw (e, observe_token, same, observe_record)
    ]

-- A challenge that has run out is unknown to Status and Outcome, and a query for its name binds
-- nothing and is no challenge any more, whoever asks.
pub expired_challenge :
    (env : Platform) (m : Manager) (id dns query profile : Text) (r : ChallengeRecord)
    (now later : Instant) (token : Option Text)
    → lookup id m.challenges ≡ some r
    → lookup dns m.dns_tokens ≡ some id
    → r.expires_at < now
    → challenge_token env m.suffix query ≡ some dns
    → ((status m id now).1 ≡ none)
      × ((outcome m id now).1 ≡ none)
      × (observe env m profile query now later token ≡ (cleanup m now, false))
unfolding status outcome observe
expired_challenge env m id dns query profile r now later token e d h q =
    let gone = cleanup-expired m id r now e h in
    (rw gone, rw gone, rw q (observe_token-expired m id dns profile now later token gone d))
