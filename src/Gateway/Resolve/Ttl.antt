-- ===== src/Gateway/Resolve/Ttl.antt =====
-- The times to live of an answer, and the aliases in it.
use teen_dns.Base.{
  ℕ, ◌≤◌, ◌≡◌, ◌↔◌, refl, ap₂, subst, ◌⊎◌, inl, inr, List, [], ◌∷◌, map, All, Option, none, some,
  arith, Bool-cases, Option-cases, Result, ok, err,
}
use teen_dns.Platform.{Platform}
use teen_dns.Policy.{Profile, Decision, is_block}
use teen_dns.Policy.Decide.{DecideError}
use teen_dns.Gateway.{Event}
use teen_dns.Gateway.Resolve.{
  Question, Message, Resource, Dns, Moment, World, type_opt, rcode_format_error,
  rcode_server_failure, blocked_response, cap_ttl, cap_record, blocked_alias, relay, forward,
  answer, observe_pairing, resolve_question, resolve_questions, resolve,
}

-- The pseudo-record of EDNS uses its field for flags, so it has no bound.
abbrev pub InTtl : ℕ → Resource → Type 0
InTtl n r = (r.rrtype ≡ type_opt) ⊎ (r.ttl ≤ n)

abbrev pub Bounded : ℕ → Message → Type 0
Bounded n m = All (InTtl n) m.answer × All (InTtl n) m.ns × All (InTtl n) m.extra

cap_record-InTtl : (n : ℕ) (r : Resource) → InTtl n (cap_record n r)
unfolding cap_record
cap_record-InTtl n r = ground arith

map-InTtl : (n : ℕ) (rs : List Resource) → All (InTtl n) (map (cap_record n) rs)
map-InTtl n [] = tt
map-InTtl n (r ∷ rs) = (cap_record-InTtl n r, map-InTtl n rs)

cap_record-keeps : (n : ℕ) (r : Resource) → InTtl n r → cap_record n r ≡ r
unfolding cap_record
cap_record-keeps n r h = ground arith

map-keeps : (n : ℕ) (rs : List Resource) → All (InTtl n) rs → map (cap_record n) rs ≡ rs
map-keeps n [] h = refl
map-keeps n (r ∷ rs) h = ap₂ (◌∷◌) (cap_record-keeps n r h.0) (map-keeps n rs h.1)

cap_ttl-Bounded : (n : ℕ) (m : Message) → Bounded n (cap_ttl n m)
unfolding cap_ttl
cap_ttl-Bounded n m = (map-InTtl n m.answer, map-InTtl n m.ns, map-InTtl n m.extra)

-- The cap changes a message exactly if a record of it, other than EDNS's, lives too long.
pub cap_ttl_iff : (n : ℕ) (m : Message) → (cap_ttl n m ≡ m) ↔ Bounded n m
unfolding cap_ttl
cap_ttl_iff n m = (
  λ e. subst (Bounded n) e (cap_ttl-Bounded n m),
  λ (a, b, c). cc (map-keeps n m.answer a, map-keeps n m.ns b, map-keeps n m.extra c),
)

InTtl-le : (n k : ℕ) (rs : List Resource) → n ≤ k → All (InTtl n) rs → All (InTtl k) rs
InTtl-le n k [] h a = tt
InTtl-le n k (r ∷ rs) h a = (ground (arith, a.0), InTtl-le n k rs h a.1)

-- What SetRcode makes of a new message has no records.
abbrev pub Bare : Dns → Type 0
Bare dns =
    (request : Message) (code : ℕ)
    → ((dns.set_rcode request code).answer ≡ [])
      × ((dns.set_rcode request code).ns ≡ [])
      × ((dns.set_rcode request code).extra ≡ [])

module _ (env : Platform) (dns : Dns) (max_ttl : ℕ) (p : Profile) (request : Message)
    (m : Moment) where
  module _ (bare : Bare dns) (n : ℕ) (soa_fits : 30 ≤ n) (max_fits : max_ttl ≤ n) where
    rcode-Bounded : (code : ℕ) → Bounded n (dns.set_rcode request code)
    rcode-Bounded code = let (a, b, c) = bare request code in rw (a, b, c) (tt, tt, tt)

    blocked-Bounded : (q : Question) → Bounded n (blocked_response dns request q)
    unfolding blocked_response
    blocked-Bounded q = let (a, b, c) = bare request 3 in rw (a, c) (tt, (inr soa_fits, tt), tt)

    relay-Bounded :
        (q : Question) (e : Event) (response : Message) (o : Option Decision) (w : World)
        → Bounded n (relay dns max_ttl request q e response o w).0
    unfolding relay
    relay-Bounded q e response (some d) w = blocked-Bounded q
    relay-Bounded q e response none w =
        let (a, b, c) = cap_ttl-Bounded max_ttl response in
        (
          InTtl-le max_ttl n _ max_fits a,
          InTtl-le max_ttl n _ max_fits b,
          InTtl-le max_ttl n _ max_fits c,
        )

    answer-Bounded :
        (q : Question) (r : Result DecideError Decision) (w : World)
        → Bounded n (answer env dns max_ttl p request q m r w).0
    unfolding answer forward
    answer-Bounded q (err e) w = rcode-Bounded rcode_format_error
    answer-Bounded q (ok d) w = elim (Bool-cases (is_block d.action)) [
      | inl block ↦ rw (block, answer) (blocked-Bounded q)
      | inr free ↦ elim (Option-cases (dns.exchange request)) [
        | inl e ↦ rw (free, answer, forward, e) (rcode-Bounded rcode_server_failure)
        | inr (response, e) ↦
            rw (free, answer, forward, e)
              (relay-Bounded q _ response (blocked_alias env p m.alias_now response.answer) _)
      ]
    ]

    question-Bounded :
        (q : Question) (w : World) → Bounded n (resolve_question env dns max_ttl p request q m w).0
    unfolding resolve_question
    question-Bounded q w = elim (Bool-cases (observe_pairing env w.pairings p.id q.name m).1) [
      | inl seen ↦ rw (seen, resolve_question) (blocked-Bounded q)
      | inr unseen ↦ rw (unseen, resolve_question) (answer-Bounded q _ _)
    ]

    questions-Bounded :
        (qs : List Question) (w : World)
        → Bounded n (resolve_questions env dns max_ttl p request qs m w).0
    unfolding resolve_questions
    questions-Bounded [] w = rcode-Bounded rcode_format_error
    questions-Bounded (q ∷ []) w = question-Bounded q w
    questions-Bounded (q ∷ r ∷ qs) w = rcode-Bounded rcode_format_error

    -- If SetRcode adds no records, no record of an answer, other than EDNS's, lives longer
    -- than any bound that is at least the configured maximum and the 30 seconds of a
    -- blocked answer.
    pub resolve-Bounded : (w : World) → Bounded n (resolve env dns max_ttl p request m w).0
    unfolding resolve
    resolve-Bounded w = questions-Bounded request.questions w
