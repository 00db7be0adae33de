-- ===== src/Gateway/Resolve/Effects.antt =====
-- What a query leaves behind: requests to the upstream, events, and answers on a connection.
use teen_dns.Base.{
  ℕ, suc, ◌≡◌, refl, ap, ◌⊎◌, inl, inr, true, false, if◌then◌else◌, List, [], ◌∷◌, ◌++◌, none, some,
  Text, arith, Bool-cases, Option-cases, Result-cases, Result, ok, err,
}
use teen_dns.Platform.{Platform, Instant}
use teen_dns.Policy.{Profile, Decision, is_block}
use teen_dns.Policy.Decide.{DecideError, decide_at}
use teen_dns.Policy.Store.{profile}
use teen_dns.Gateway.{Event}
use teen_dns.Gateway.Resolve.{
  Question, Message, Resource, Data, cname, soa, other_data, Dns, Moment, World, Arrival,
  rcode_format_error, rcode_server_failure, blocked_response, cap_ttl, alias_decision,
  blocked_alias, event_of, relay, forward, answer, observe_pairing, resolve_question,
  resolve_questions, resolve, serve,
}

module _ (env : Platform) (dns : Dns) (max_ttl : ℕ) (p : Profile) (request : Message)
    (m : Moment) where
  -- The request went upstream: its question has a decision that does not block.
  abbrev pub Asked : Question → Type 0
  Asked q = (d : Decision) × (decide_at env p q.name m.at ≡ ok d) × (is_block d.action ≡ false)

  -- The answer that goes with an event that does not block.
  abbrev pub Relayed : Message → Type 0
  Relayed out =
      ((dns.exchange request ≡ none) × (out ≡ dns.set_rcode request rcode_server_failure))
      ⊎ ((response : Message) × (dns.exchange request ≡ some response)
          × (blocked_alias env p m.alias_now response.answer ≡ none)
          × (out ≡ cap_ttl max_ttl response))

  -- An event says what the answer does: it blocks exactly where the answer is the blocked one.
  abbrev pub Tells : Question → Event → Message → Type 0
  Tells q e out =
      ((is_block e.action ≡ true) × (out ≡ blocked_response dns request q))
      ⊎ ((is_block e.action ≡ false) × Asked q × Relayed out)

  -- What one question leaves of the world `w`, with the answer `out`.
  record Left (q : Question) (w : World) (out : Message × World) : Type 0 where
    sent : (out.1.sent ≡ w.sent) ⊎ (Asked q × (out.1.sent ≡ request ∷ w.sent))
    events :
        (out.1.events ≡ w.events)
        ⊎ ((e : Event) × (out.1.events ≡ e ∷ w.events) × (e.profile_id ≡ p.id) × Tells q e out.0)

  alias_decision-blocks :
      (at : Instant) (held : Data) (d : Decision)
      → alias_decision env p at held ≡ some d
      → is_block d.action ≡ true
  unfolding alias_decision
  alias_decision-blocks at (cname target) d h = elim (Result-cases (decide_at env p target at)) [
    | inr (e, bad) ↦ ground (arith, bad)
    | inl (x, good) ↦ ground (arith, good)
  ]
  alias_decision-blocks at (soa _ _ _) d h = ground arith
  alias_decision-blocks at (other_data _) d h = ground arith

  first-blocks :
      (clock : ℕ → Instant) (rs : List Resource) (d : Decision)
      → blocked_alias env p clock rs ≡ some d
      → is_block d.action ≡ true
  unfolding blocked_alias
  first-blocks clock [] d h = ground arith
  first-blocks clock (r ∷ rs) d h = elim (Option-cases (alias_decision env p (clock 0) r.data_of)) [
    | inl passed ↦ first-blocks (λ i. clock (suc i)) rs d (ground (arith, passed, h))
    | inr (x, found) ↦ ground (arith, found, alias_decision-blocks (clock 0) r.data_of x found)
  ]

  forward-Left :
      (q : Question) (d : Decision) (w : World)
      → decide_at env p q.name m.at ≡ ok d
      → is_block d.action ≡ false
      → Left q w (forward env dns max_ttl p request q m (event_of env p q m.at d) w)
  unfolding forward relay event_of
  forward-Left q d w h free = elim (Option-cases (dns.exchange request)) [
    | inl e ↦
        rw (e, forward)
          (record {
            sent = inr ((d, h, free), refl);
            events =
                inr (event_of env p q m.at d, refl, refl, inr (free, (d, h, free), inl (e, refl)));
          })
    | inr (response, e) ↦ elim (Option-cases (blocked_alias env p m.alias_now response.answer)) [
      | inl none_blocked ↦
          rw (e, none_blocked, forward, relay)
            (record {
              sent = inr ((d, h, free), refl);
              events = inr (
                event_of env p q m.at d,
                refl,
                refl,
                inr (free, (d, h, free), inr (response, e, none_blocked, refl)),
              );
            })
      | inr (alias, found) ↦
          rw (e, found, forward, relay)
            (record {
              sent = inr ((d, h, free), refl);
              events =
                  inr (
                    _,
                    refl,
                    refl,
                    inl (first-blocks m.alias_now response.answer alias found, refl),
                  );
            })
    ]
  ]

  answer-Left :
      (q : Question) (r : Result DecideError Decision) (w : World)
      → decide_at env p q.name m.at ≡ r
      → Left q w (answer env dns max_ttl p request q m r w)
  unfolding answer event_of
  answer-Left q (err e) w h = record { sent = inl refl; events = inl refl }
  answer-Left q (ok d) w h = elim (Bool-cases (is_block d.action)) [
    | inl block ↦
        rw (block, answer)
          (record { sent = inl refl; events = inr (_, refl, refl, inl (block, refl)) })
    | inr free ↦ rw (free, answer) (forward-Left q d w h free)
  ]

  resolve_question-Left :
      (q : Question) (w : World) → Left q w (resolve_question env dns max_ttl p request q m w)
  unfolding resolve_question
  resolve_question-Left q w = elim (Bool-cases (observe_pairing env w.pairings p.id q.name m).1) [
    | inl seen ↦ rw (seen, resolve_question) (record { sent = inl refl; events = inl refl })
    | inr unseen ↦
        let next : World = record w {
          pairings = (observe_pairing env w.pairings p.id q.name m).0;
        } in
        let l = answer-Left q (decide_at env p q.name m.at) next refl in
        rw (unseen, resolve_question) (record { sent = l.sent; events = l.events })
  ]

  resolve_questions-Left :
      (qs : List Question) (w : World)
      → (resolve_questions env dns max_ttl p request qs m w
          ≡ (dns.set_rcode request rcode_format_error, w))
        ⊎ ((q : Question) × (qs ≡ q ∷ [])
            × Left q w (resolve_questions env dns max_ttl p request qs m w))
  unfolding resolve_questions
  resolve_questions-Left [] w = inl refl
  resolve_questions-Left (q ∷ []) w = inr (q, refl, resolve_question-Left q w)
  resolve_questions-Left (q ∷ r ∷ qs) w = inl refl

  -- A request goes upstream only if it has exactly one question and the policy decides on its name
  -- without blocking it; then it is sent once. In every other case nothing is sent.
  pub resolve-sent :
      (w : World)
      → ((resolve env dns max_ttl p request m w).1.sent ≡ w.sent)
        ⊎ ((q : Question) × (request.questions ≡ q ∷ [])
            × Asked q
            × ((resolve env dns max_ttl p request m w).1.sent ≡ request ∷ w.sent))
  unfolding resolve
  resolve-sent w = elim (resolve_questions-Left request.questions w) [
    | inl e ↦ inl (ap (λ x. x.1.sent) e)
    | inr (q, one, l) ↦ elim l.sent [
      | inl same ↦ inl same
      | inr (asked, e) ↦ inr (q, one, asked, e)
    ]
  ]

  -- A request leaves at most one event, and that is of the profile. Either the event blocks
  -- and the answer is the blocked one; or it does not, and the policy does not block the
  -- question, and the answer is the upstream's with its times to live capped and without a
  -- blocked alias, or a server failure where the upstream did not answer.
  pub resolve-events :
      (w : World)
      → ((resolve env dns max_ttl p request m w).1.events ≡ w.events)
        ⊎ ((q : Question) × (e : Event) × (request.questions ≡ q ∷ [])
            × ((resolve env dns max_ttl p request m w).1.events ≡ e ∷ w.events)
            × (e.profile_id ≡ p.id)
            × Tells q e (resolve env dns max_ttl p request m w).0)
  unfolding resolve
  resolve-events w = elim (resolve_questions-Left request.questions w) [
    | inl e ↦ inl (ap (λ x. x.1.events) e)
    | inr (q, one, l) ↦ elim l.events [
      | inl same ↦ inl same
      | inr (e, written, own, told) ↦ inr (q, e, one, written, own, told)
    ]
  ]

-- A connection is cut off by the revocation of its profile: from the first message on at which the
-- store does not find the endpoint, nothing is answered, sent or written.
pub serve-revoked :
    (env : Platform) (dns : Dns) (max_ttl : ℕ) (hostname : Text) (before after : List Arrival)
    (a : Arrival) (w : World)
    → profile env a.store hostname ≡ none
    → serve env dns max_ttl hostname (before ++ a ∷ after) w
      ≡ serve env dns max_ttl hostname before w
unfolding serve
serve-revoked env dns max_ttl hostname [] after a w h = rw (h, serve) refl
serve-revoked env dns max_ttl hostname (b ∷ before) after a w h =
    elim (Option-cases (profile env b.store hostname)) [
      | inl gone ↦ rw (gone, serve) refl
      | inr (p, found) ↦
          rw (found, serve)
            (ap
              (λ (rest : List Message × World).
                if b.writable
                then ((resolve env dns max_ttl p b.request b.moment w).0 ∷ rest.0, rest.1)
                else ([], (resolve env dns max_ttl p b.request b.moment w).1))
              (serve-revoked env dns max_ttl hostname before after a _ h))
    ]
