-- ===== src/Pairing/Histories.antt =====
-- Any history of pairing calls: the challenges stay bounded, and the first profile that resolves a
-- challenge keeps it.
use teen_dns.Base.{
  ◌≡◌, refl, ap, sym, ◌∙◌, inl, inr, true, false, leb, List, [], ◌∷◌, length, All, Option, none,
  some, Text, texts_equal, texts_equal_iff, is_empty, arith, Bool-cases, Option-cases, Map, lookup,
  insert, lookup-insert, lookup-retain, text_eq, any, ltb, if◌then◌else◌, subst,
}
use teen_dns.Platform.{Platform, Instant}
use teen_dns.Pairing.{
  Manager, ChallengeRecord, max_pending_challenges, cleanup, create, add_challenge, observe,
  observe_token, observe_record, bind_profile, challenge_token, status, outcome, session_profile,
  random, live_challenge,
}

pub data Call : Type 0 where
  creates : Instant → Instant → Option Text → Option Text → Call
  observes : Text → Text → Instant → Instant → Option Text → Call
  asks_status asks_outcome asks_profile : Text → Instant → Call

unfoldable pub step : Platform → Manager → Call → Manager
step env m (creates now later id dns) = (create m now later id dns).0
step env m (observes profile query now later token) =
    (observe env m profile query now later token).0
step env m (asks_status id now) = (status m id now).0
step env m (asks_outcome id now) = (outcome m id now).0
step env m (asks_profile token now) = (session_profile m token now).0

unfoldable pub run : Platform → Manager → List Call → Manager
run env m [] = m
run env m (c ∷ cs) = run env (step env m c) cs

-- The call draws no challenge id that is `id`.
abbrev pub Fresh : Text → Call → Type 0
Fresh id (creates now later (some t) dns) = texts_equal t id ≡ false
Fresh id _ = Unit

-- The clock by which the call removes what has run out.
abbrev pub clock_of : Call → Instant
clock_of (creates now later id dns) = now
clock_of (observes profile query now later token) = now
clock_of (asks_status id now) = now
clock_of (asks_outcome id now) = now
clock_of (asks_profile token now) = now

abbrev survivor : Instant → Option ChallengeRecord → Option ChallengeRecord
survivor now none = none
survivor now (some r) = if ltb r.expires_at now then none else some r

abbrev survivor_of_all : List Call → Option ChallengeRecord → Option ChallengeRecord
survivor_of_all [] o = o
survivor_of_all (c ∷ cs) o = survivor_of_all cs (survivor (clock_of c) o)

-- Nothing is found, or a challenge that a profile has resolved.
abbrev Taken : Option ChallengeRecord → Type 0
Taken none = Unit
Taken (some r) = is_empty r.profile_id ≡ false

survivor-Taken : (now : Instant) (o : Option ChallengeRecord) → Taken o → Taken (survivor now o)
survivor-Taken now none t = tt
survivor-Taken now (some r) t = elim (Bool-cases (ltb r.expires_at now)) [
  | inl over ↦ rw over tt
  | inr live ↦ rw live t
]

survivor_of_all-none : (cs : List Call) → survivor_of_all cs none ≡ none
survivor_of_all-none [] = refl
survivor_of_all-none (c ∷ cs) = survivor_of_all-none cs

survivor_of_all-some :
    (cs : List Call) (r : ChallengeRecord)
    → survivor_of_all cs (some r)
      ≡ (if any (λ c. ltb r.expires_at (clock_of c)) cs then none else some r)
unfolding any
survivor_of_all-some [] r = refl
survivor_of_all-some (c ∷ cs) r = elim (Bool-cases (ltb r.expires_at (clock_of c))) [
  | inl over ↦ rw over (survivor_of_all-none cs)
  | inr live ↦ rw live (survivor_of_all-some cs r)
]

module _ (id : Text) where
  abbrev Holds : Option ChallengeRecord → Manager → Type 0
  Holds o m = lookup id m.challenges ≡ o

  cleanup-Holds :
      (m : Manager) (now : Instant) (o : Option ChallengeRecord)
      → Holds o m
      → Holds (survivor now o) (cleanup m now)
  unfolding cleanup
  cleanup-Holds m now none e = rw (lookup-retain (live_challenge now) id m.challenges, e) refl
  cleanup-Holds m now (some r) e = elim (Bool-cases (ltb r.expires_at now)) [
    | inl over ↦ rw (lookup-retain (live_challenge now) id m.challenges, e, over) refl
    | inr live ↦ rw (lookup-retain (live_challenge now) id m.challenges, e, live) refl
  ]

  -- A write under another id does not touch it.
  insert_other :
      (cs : Map Text ChallengeRecord) (k : Text) (r : ChallengeRecord)
      → texts_equal k id ≡ false
      → lookup id (insert k r cs) ≡ lookup id cs
  insert_other cs k r other = rw (lookup-insert k id r cs, other)

  -- An unbound record stands under another id.
  other_id :
      (m : Manager) (k : Text) (r : ChallengeRecord) (o : Option ChallengeRecord)
      → lookup k m.challenges ≡ some r
      → is_empty r.profile_id ≡ true
      → Taken o
      → Holds o m
      → texts_equal k id ≡ false
  other_id m k r o e unbound t h = elim (Bool-cases (texts_equal k id)) [
    | inr other ↦ other
    | inl same ↦
        let here : o ≡ some r =
          sym h ∙ ap (λ x. lookup x m.challenges) (sym ((texts_equal_iff k id).0 same)) ∙ e in
        let bound : is_empty r.profile_id ≡ false = subst Taken here t in
        ground (arith, unbound, bound)
  ]

  module _ (o : Option ChallengeRecord) (t : Taken o) where
    add_challenge-Holds :
        (m : Manager) (later : Instant) (id_token dns : Option Text)
        → Fresh id (creates later later id_token dns)
        → Holds o m
        → Holds o (add_challenge m later (random id_token) (random dns)).0
    unfolding add_challenge
    add_challenge-Holds m later none dns f h = h
    add_challenge-Holds m later (some k) none f h = h
    add_challenge-Holds m later (some k) (some d) f h = insert_other m.challenges k _ f ∙ h

    bind_profile-Holds :
        (m : Manager) (k : Text) (r : ChallengeRecord) (p : Text) (later : Instant)
        (token : Option Text)
        → texts_equal k id ≡ false
        → Holds o m
        → Holds o (bind_profile m k r p later token).0
    unfolding bind_profile
    bind_profile-Holds m k r p later none other h = h
    bind_profile-Holds m k r p later (some s) other h = insert_other m.challenges k _ other ∙ h

    observe_record-Holds :
        (m : Manager) (k : Text) (found : Option ChallengeRecord) (p : Text) (later : Instant)
        (token : Option Text)
        → lookup k m.challenges ≡ found
        → Holds o m
        → Holds o (observe_record m k found p later token).0
    unfolding observe_record
    observe_record-Holds m k none p later token e h = h
    observe_record-Holds m k (some r) p later token e h =
        elim (Bool-cases (is_empty r.profile_id)) [
          | inl unbound ↦
              rw unbound (bind_profile-Holds m k r p later token (other_id m k r o e unbound t h) h)
          | inr bound ↦ rw bound h
        ]

    observe_token-Holds :
        (m : Manager) (dns : Option Text) (p : Text) (later : Instant) (token : Option Text)
        → Holds o m
        → Holds o (observe_token m dns p later token).0
    unfolding observe_token
    observe_token-Holds m none p later token h = h
    observe_token-Holds m (some d) p later token h = elim (Option-cases (lookup d m.dns_tokens)) [
      | inl e ↦ rw (e, observe_token) h
      | inr (k, e) ↦
          rw (e, observe_token)
            (observe_record-Holds m k (lookup k m.challenges) p later token refl h)
    ]

  create-Holds :
      (m : Manager) (now later : Instant) (id_token dns : Option Text) (o : Option ChallengeRecord)
      → Taken o
      → Fresh id (creates later later id_token dns)
      → Holds o m
      → Holds (survivor now o) (create m now later id_token dns).0
  unfolding create
  create-Holds m now later id_token dns o t f h =
      let kept = cleanup-Holds m now o h in
      elim (Bool-cases (leb max_pending_challenges (length (cleanup m now).challenges))) [
        | inl full ↦ rw full kept
        | inr room ↦ rw room (
            add_challenge-Holds (survivor now o) (survivor-Taken now o t) (cleanup m now) later
              id_token dns f kept)
      ]

  step-Holds :
      (env : Platform) (m : Manager) (c : Call) (o : Option ChallengeRecord)
      → Taken o
      → Fresh id c
      → Holds o m
      → Holds (survivor (clock_of c) o) (step env m c)
  unfolding step observe status outcome session_profile
  step-Holds env m (creates now later none dns) o t f h = create-Holds m now later none dns o t f h
  step-Holds env m (creates now later (some k) dns) o t f h =
      create-Holds m now later (some k) dns o t f h
  step-Holds env m (observes p query now later token) o t f h =
      observe_token-Holds (survivor now o) (survivor-Taken now o t) (cleanup m now)
        (challenge_token env m.suffix query) p later token (cleanup-Holds m now o h)
  step-Holds env m (asks_status k now) o t f h = cleanup-Holds m now o h
  step-Holds env m (asks_outcome k now) o t f h = cleanup-Holds m now o h
  step-Holds env m (asks_profile k now) o t f h = cleanup-Holds m now o h

  run-Holds :
      (env : Platform) (m : Manager) (cs : List Call) (o : Option ChallengeRecord)
      → Taken o
      → All (Fresh id) cs
      → Holds o m
      → Holds (survivor_of_all cs o) (run env m cs)
  unfolding run
  run-Holds env m [] o t f h = h
  run-Holds env m (c ∷ cs) o t f h =
      run-Holds env (step env m c) cs (survivor (clock_of c) o) (survivor-Taken (clock_of c) o t)
        f.1 (step-Holds env m c o t f.0 h)

-- The first profile that resolves a challenge keeps it until it runs out: after any further calls that
-- do not draw its id again, queries of other profiles included, the challenge is stored exactly as
-- that profile has bound it, with its session token, unless one of the calls read a time behind the
-- end of the challenge; then, and only then, it is gone.
pub run-Bound :
    (env : Platform) (m : Manager) (cs : List Call) (id : Text) (r : ChallengeRecord)
    → lookup id m.challenges ≡ some r
    → is_empty r.profile_id ≡ false
    → All (Fresh id) cs
    → lookup id (run env m cs).challenges
      ≡ (if any (λ c. ltb r.expires_at (clock_of c)) cs then none else some r)
run-Bound env m cs id r found named fresh =
    run-Holds id env m cs (some r) named fresh found ∙ survivor_of_all-some cs r
