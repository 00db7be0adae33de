-- ===== src/Pairing/Flow.antt =====
-- The whole pairing: a challenge is created, resolved through a profile, and exchanged.
use teen_dns.Base.{
  ◌+◌, ◌≤◌, ◌<◌, ◌≡◌, refl, inl, inr, true, false, leb, ltb, if◌then◌else◌, [], ◌∷◌, ◌++◌, length,
  none, some, Text, is_empty, contains, arith, Bool-cases, Map, lookup, insert, delete,
  lookup-insert_self, lookup-delete, lookup-retain, texts_equal, has_suffix, has_suffix_iff,
  text_eq, ok,
}
use teen_dns.Platform.{Platform, Instant}
use teen_dns.Platform.Plain.{
  IsPlain, to_lower-plain, trim_space-plain, trim_suffix-missing, trim_suffix-append,
}
use teen_dns.Pairing.{
  Manager, ChallengeRecord, max_pending_challenges, cleanup, create, add_challenge, observe,
  observe_token, observe_record, bind_profile, challenge_token, status, session_profile, random,
  live_challenge, live_session, drop_tokens,
}

-- The DNS name that Create hands out is recognized as its token, where token and suffix are plain,
-- the token has no dot, and the name does not end in one.
pub challenge_token-dns_name :
    (env : Platform) (suffix dns : Text)
    → IsPlain (dns ++ b'.' ∷ suffix)
    → has_suffix (dns ++ b'.' ∷ suffix) (b'.' ∷ []) ≡ false
    → is_empty dns ≡ false
    → contains dns b'.' ≡ false
    → challenge_token env suffix (dns ++ b'.' ∷ suffix) ≡ some dns
unfolding challenge_token
challenge_token-dns_name env suffix dns plain no_dot present one_label =
    let name = dns ++ b'.' ∷ suffix in
    let ends : has_suffix name (b'.' ∷ suffix) ≡ true =
      (has_suffix_iff name (b'.' ∷ suffix)).1 (dns, refl) in
    rw (
      trim_space-plain name plain,
      to_lower-plain env name plain,
      trim_suffix-missing name (b'.' ∷ []) no_dot,
      ends,
      trim_suffix-append dns suffix b'.',
      present,
      one_label,
    )

-- No challenge that has run out holds the DNS token.
abbrev pub Unused : Text → Map Text ChallengeRecord → Type 0
Unused dns [] = Unit
Unused dns ((k, r) ∷ cs) = (texts_equal r.dns_token dns ≡ false) × Unused dns cs

abbrev NotDue : Text → Instant → Map Text ChallengeRecord → Type 0
NotDue dns now [] = Unit
NotDue dns now ((k, r) ∷ cs) =
    (ltb r.expires_at now ≡ true → texts_equal r.dns_token dns ≡ false) × NotDue dns now cs

drop_tokens-keeps :
    (now : Instant) (cs : Map Text ChallengeRecord) (tokens : Map Text Text) (dns id : Text)
    → NotDue dns now cs
    → lookup dns tokens ≡ some id
    → lookup dns (drop_tokens now cs tokens) ≡ some id
unfolding drop_tokens
drop_tokens-keeps now [] tokens dns id f h = h
drop_tokens-keeps now ((k, r) ∷ cs) tokens dns id f h = elim (Bool-cases (ltb r.expires_at now)) [
  | inl due ↦ rw due (
      drop_tokens-keeps now cs (delete r.dns_token tokens) dns id f.1
        (rw (lookup-delete r.dns_token dns tokens, f.0 due) h))
  | inr live ↦ rw live (drop_tokens-keeps now cs tokens dns id f.1 h)
]

Unused-NotDue :
    (dns : Text) (now : Instant) (cs : Map Text ChallengeRecord) → Unused dns cs → NotDue dns now cs
Unused-NotDue dns now [] u = tt
Unused-NotDue dns now ((k, r) ∷ cs) u = ((λ _. u.0), Unused-NotDue dns now cs u.1)

insert-NotDue :
    (dns : Text) (now : Instant) (cs : Map Text ChallengeRecord) (id : Text) (r : ChallengeRecord)
    → now ≤ r.expires_at
    → Unused dns cs
    → NotDue dns now (insert id r cs)
unfolding insert
insert-NotDue dns now [] id r h u = (λ e. ground arith, tt)
insert-NotDue dns now ((k, x) ∷ cs) id r h u = elim (Bool-cases (texts_equal k id)) [
  | inl same ↦ rw same ((λ e. ground arith), Unused-NotDue dns now cs u.1)
  | inr other ↦ rw other ((λ _. u.0), insert-NotDue dns now cs id r h u.1)
]

-- The state once the challenge is bound to the profile under the session token.
module _ (m : Manager) (id profile s : Text) (r : ChallengeRecord) (later : Instant) where
  bind_profile-status :
      (at : Instant)
      → is_empty profile ≡ false
      → at ≤ r.expires_at
      → (status (bind_profile m id r profile later (some s)).0 id at).1
        ≡ some
            (record { paired = true; session_token = s; expires_at = some (later + m.session_ttl) })
  unfolding bind_profile status cleanup
  bind_profile-status at named h =
      rw
        (
          lookup-retain (live_challenge at) id (insert id _ m.challenges),
          lookup-insert_self id _ m.challenges,
        )
        (ground arith)

  bind_profile-session :
      (at : Instant)
      → (session_profile (bind_profile m id r profile later (some s)).0 s at).1
        ≡ (if ltb (later + m.session_ttl) at then none else some profile)
  unfolding bind_profile session_profile cleanup
  bind_profile-session at =
      rw
        (
          lookup-retain (live_session at) s (insert s _ m.sessions),
          lookup-insert_self s _ m.sessions,
        )
        (ground arith)

created : Manager → Text → Text → Instant → Manager
created m id dns later = (add_challenge m later (random (some id)) (random (some dns))).0

abbrev fresh_record : Text → Instant → ChallengeRecord
fresh_record dns expires_at = record {
  dns_token = dns;
  expires_at = expires_at;
  profile_id = [];
  session_token = [];
  session_expiry = none;
}

observe-created :
    (env : Platform) (m : Manager) (id dns s profile query : Text) (later now' later' : Instant)
    → Unused dns m.challenges
    → now' ≤ later + m.challenge_ttl
    → challenge_token env m.suffix query ≡ some dns
    → observe env (created m id dns later) profile query now' later' (some s)
      ≡ bind_profile
          (cleanup (created m id dns later) now')
          id
          (fresh_record dns (later + m.challenge_ttl))
          profile
          later'
          (some s)
unfolding observe observe_token observe_record created add_challenge cleanup is_empty
observe-created env m id dns s profile query later now' later' unused h q =
    let r = fresh_record dns (later + m.challenge_ttl) in
    let live : ltb (later + m.challenge_ttl) now' ≡ false = ground arith in
    let clean = cleanup (created m id dns later) now' in
    let named : lookup dns clean.dns_tokens ≡ some id =
      drop_tokens-keeps now' (insert id r m.challenges) (insert dns id m.dns_tokens) dns id
        (insert-NotDue dns now' m.challenges id r h unused)
        (lookup-insert_self dns id m.dns_tokens) in
    let found : lookup id clean.challenges ≡ some r = rw (
      lookup-retain (live_challenge now') id (insert id r m.challenges),
      lookup-insert_self id r m.challenges,
      live,
    ) in
    rw (q, named, observe_token, found, observe_record)

-- With room for another challenge and a DNS token that no pending challenge holds, Create answers
-- with the challenge; the query for its name through a profile, in time, is recognized; from then
-- on Status shows the challenge as paired, with the session's token and expiry, until the
-- challenge runs out; and the session stands for that profile exactly until it runs out.
pub pairing_flow :
    (env : Platform) (m : Manager) (id dns s profile query : Text)
    (now later now' later' at at' : Instant)
    → length (cleanup m now).challenges < max_pending_challenges
    → Unused dns (cleanup m now).challenges
    → is_empty profile ≡ false
    → challenge_token env m.suffix query ≡ some dns
    → now' ≤ later + m.challenge_ttl
    → at ≤ later + m.challenge_ttl
    → let new = create m now later (some id) (some dns) in
      let done = observe env new.0 profile query now' later' (some s) in
      (new.1
        ≡ ok (record {
          id = id;
          dns_name = dns ++ b'.' ∷ m.suffix;
          expires_at = later + m.challenge_ttl;
        }))
      × (done.1 ≡ true)
      × ((status done.0 id at).1
          ≡ some (record {
            paired = true;
            session_token = s;
            expires_at = some (later' + m.session_ttl);
          }))
      × ((session_profile done.0 s at').1
          ≡ (if ltb (later' + m.session_ttl) at' then none else some profile))
unfolding create add_challenge created cleanup bind_profile
pairing_flow env m id dns s profile query now later now' later' at at' room unused named q h h' =
    let open_slot : leb max_pending_challenges (length (cleanup m now).challenges) ≡ false =
      ground arith in
    let clean = cleanup (created (cleanup m now) id dns later) now' in
    let r = fresh_record dns (later + m.challenge_ttl) in
    rw
      (
        open_slot,
        observe-created env (cleanup m now) id dns s profile query later now' later' unused h q,
      )
      (
        refl,
        refl,
        bind_profile-status clean id profile s r later' at named h',
        bind_profile-session clean id profile s r later' at',
      )
