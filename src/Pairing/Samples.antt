-- ===== src/Pairing/Samples.antt =====
-- A pairing from its start to its end, and each theorem at it.
use teen_dns.Base.{
  ◌≤◌, ◌≡◌, refl, true, [], ◌∷◌, any, length, some, Text, codes, texts_equal, is_empty, is_space,
  drop_space, trim_space, trim_suffix, has_suffix, contains, lookup, insert, delete, retain,
  text_eq, arith, List, none, ltb, if◌then◌else◌,
}
use teen_dns.Platform.{Platform, to_lower}
use teen_dns.Pairing.{
  Manager, ChallengeRecord, max_pending_challenges, new_manager, drop_tokens, cleanup,
  add_challenge, create, challenge_token, bind_profile, observe_record, observe_token, observe,
  status, outcome, session_profile,
}
use teen_dns.Pairing.Histories.{
  Call, creates, observes, asks_outcome, clock_of, step, run, run-Bound,
}
use teen_dns.Pairing.Bounds.{run-challenges_bounded}

pairing_run : Unit {0}
unfolding any texts_equal is_empty is_space drop_space trim_space trim_suffix has_suffix contains
    lookup insert delete retain to_lower new_manager drop_tokens cleanup add_challenge create
    challenge_token bind_profile observe_record observe_token observe status outcome session_profile
    step run
pairing_run = tt

abbrev machine : Platform
machine = record {
  lower_rune = λ c. c;
  known_zone = λ zone. true;
  local_time = λ zone at. record { weekday = 0; hour = 0; minute = 0 };
}

start : Manager
start = new_manager machine (codes ".Pair.Test.") 100 1000

abbrev dns : Text
dns = codes "tok"

abbrev query : Text
query = codes "TOK.pair.test."

opened : Manager
unfolding start
opened = (create start 5 6 (some (codes "id")) (some dns)).0

paired : Manager
unfolding opened
paired = (observe machine opened (codes "ana") query 10 11 (some (codes "session"))).0

second_profile_is_ignored :
    (status
      (observe machine paired (codes "bia") query 20 21 (some (codes "other"))).0
      (codes "id")
      30).1
    ≡ some (record { paired = true; session_token = codes "session"; expires_at = some 1011 })
unfolding pairing_run paired
second_profile_is_ignored = refl

abbrev bound : ChallengeRecord
bound = record {
  dns_token = dns;
  expires_at = 106;
  profile_id = codes "ana";
  session_token = codes "session";
  session_expiry = some 1011;
}

abbrev further : List Call
further = observes (codes "bia") query 20 21 (some (codes "s")) ∷ asks_outcome (codes "id") 106 ∷ []

run-Bound_example :
    lookup (codes "id") (run machine paired further).challenges
    ≡ (if any (λ c. ltb bound.expires_at (clock_of c)) further then none else some bound)
unfolding pairing_run paired
run-Bound_example = run-Bound machine paired further (codes "id") bound refl refl (tt, (tt, tt))

-- The challenge is there at its last moment, and gone one later.
kept_to_the_end : lookup (codes "id") (run machine paired further).challenges ≡ some bound
unfolding pairing_run paired
kept_to_the_end = refl

gone_behind_it :
    lookup (codes "id") (run machine paired (asks_outcome (codes "id") 107 ∷ [])).challenges ≡ none
unfolding pairing_run paired
gone_behind_it = refl

run-challenges_bounded_example :
    length (run machine start (creates 5 6 (some (codes "id")) (some dns) ∷ [])).challenges
    ≤ max_pending_challenges
unfolding pairing_run start
run-challenges_bounded_example =
    run-challenges_bounded machine start (creates 5 6 (some (codes "id")) (some dns) ∷ [])
      (omega arith)
