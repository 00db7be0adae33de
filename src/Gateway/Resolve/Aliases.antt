-- ===== src/Gateway/Resolve/Aliases.antt =====
-- Names that an answer of the upstream leads on to.
use teen_dns.Base.{
  ℕ, zero, suc, ◌≡◌, refl, ap, ◌∙◌, inl, inr, true, false, List, [], ◌∷◌, some, Text, arith,
  Option-cases, ok, get_elem?,
}
use teen_dns.Platform.{Platform, Instant}
use teen_dns.Policy.{Profile, Decision, is_block}
use teen_dns.Policy.Decide.{decide_at}
use teen_dns.Gateway.Resolve.{
  Question, Message, Resource, cname, Dns, Moment, World, blocked_response, alias_decision,
  blocked_alias, relay, forward, answer, observe_pairing, resolve_question, resolve_questions,
  resolve,
}

module _ (env : Platform) (dns : Dns) (max_ttl : ℕ) (p : Profile) (request : Message)
    (m : Moment) where
  found_alias :
      (clock : ℕ → Instant) (rs : List Resource) (i : ℕ) (r : Resource) (d : Decision)
      → get_elem? rs i ≡ some r
      → alias_decision env p (clock i) r.data_of ≡ some d
      → (x : Decision) × (blocked_alias env p clock rs ≡ some x)
  unfolding blocked_alias get_elem?
  found_alias clock [] i r d at h = ground arith
  found_alias clock (s ∷ rs) zero r d at h = (d, ground (arith, at, h))
  found_alias clock (s ∷ rs) (suc i) r d at h =
      elim (Option-cases (alias_decision env p (clock 0) s.data_of)) [
        | inr (x, e) ↦ (x, rw e refl)
        | inl e ↦ let (x, found) = found_alias (λ j. clock (suc j)) rs i r d at h in (x, rw e found)
      ]

  -- An answer that leads on to a blocked name is withheld: if a request has one question,
  -- which is no pairing challenge and which the policy does not block, and a record of the
  -- upstream's answer is an alias of a name that the policy blocks at the time when the
  -- record is looked at, then the device gets the blocked answer.
  pub resolve-alias :
      (w : World) (q : Question) (own d : Decision) (response : Message) (i : ℕ) (r : Resource)
      (target : Text)
      → request.questions ≡ q ∷ []
      → (observe_pairing env w.pairings p.id q.name m).1 ≡ false
      → decide_at env p q.name m.at ≡ ok own
      → is_block own.action ≡ false
      → dns.exchange request ≡ some response
      → get_elem? response.answer i ≡ some r
      → r.data_of ≡ cname target
      → decide_at env p target (m.alias_now i) ≡ ok d
      → is_block d.action ≡ true
      → (resolve env dns max_ttl p request m w).0 ≡ blocked_response dns request q
  unfolding resolve resolve_questions resolve_question alias_decision answer forward relay
      blocked_response
  resolve-alias w q own d response i r target one unseen decided free sent at alias bad block =
      let blocks : alias_decision env p (m.alias_now i) r.data_of ≡ some d =
        rw (alias, bad, block) refl in
      let (x, found) = found_alias m.alias_now response.answer i r d at blocks in
      ap (λ qs. (resolve_questions env dns max_ttl p request qs m w).0) one
      ∙ rw (unseen, resolve_question, decided, answer, free, forward, sent, found, relay) refl
