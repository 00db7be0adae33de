-- ===== src/Gateway/Resolve.antt =====
-- resolve, blockedAlias, blockedResponse, capTTL and the loop of handleConnection of server.go. The
-- package miekg/dns stands outside the repository: a message keeps the fields that the code reads
-- or writes, and SetRcode and Exchange are parameters.
pub mod Effects
pub mod Ttl
pub mod Aliases
use teen_dns.Base.{
  ℕ, suc, Bool, true, false, not, ◌&&◌, ltb, eqb, if◌then◌else◌, List, [], ◌∷◌, map, Option, none,
  some, Text, codes, trim_suffix, Result, ok, err,
}
use teen_dns.Platform.{Platform, Instant, to_lower}
use teen_dns.Policy.{Profile, Decision, is_block}
use teen_dns.Policy.Decide.{DecideError, decide_at}
use teen_dns.Policy.Store.{Store, profile}
use teen_dns.Pairing.{Manager, observe}
use teen_dns.Gateway.{Event}

pub record Question : Type 0 where
  pub name : Text
  pub qtype : ℕ

pub data Data : Type 0 where
  cname : Text → Data
  soa : Text → Text → List ℕ → Data
  other_data : Text → Data

pub record Resource : Type 0 where
  pub name : Text
  pub rrtype : ℕ
  pub class : ℕ
  pub ttl : ℕ
  pub data_of : Data

pub record Message : Type 0 where
  pub id : ℕ
  pub rcode : ℕ
  pub questions : List Question
  pub answer : List Resource
  pub ns : List Resource
  pub extra : List Resource

-- What miekg/dns does: `SetRcode` of a new message, and `Exchange` with the upstream, `none` for an
-- error.
pub record Dns : Type 0 where
  pub set_rcode : Message → ℕ → Message
  pub exchange : Message → Option Message

-- The clock as one call of resolve reads it: in resolve, in cleanup, in the rest of Observe, and at
-- the aliases of the answer in turn; and the token that Observe would draw.
pub record Moment : Type 0 where
  pub at : Instant
  pub pairing_now : Instant
  pub pairing_later : Instant
  pub token : Option Text
  pub alias_now : ℕ → Instant

-- What resolve changes: the pairings, the events that were written, the latest first, and the
-- requests that were sent upstream, the latest first.
pub record World : Type 0 where
  pub pairings : Option Manager
  pub events : List Event
  pub sent : List Message

abbrev pub type_soa : ℕ
type_soa = 6

abbrev pub type_opt : ℕ
type_opt = 41

abbrev pub class_inet : ℕ
class_inet = 1

abbrev pub rcode_format_error : ℕ
rcode_format_error = 1

abbrev pub rcode_server_failure : ℕ
rcode_server_failure = 2

abbrev pub rcode_name_error : ℕ
rcode_name_error = 3

-- Serial, Refresh, Retry, Expire and Minttl
abbrev pub blocked_soa : Text → Resource
blocked_soa name = record {
  name = name;
  rrtype = type_soa;
  class = class_inet;
  ttl = 30;
  data_of =
      soa (codes "blocked.teendns.invalid.") (codes "hostmaster.teendns.invalid.")
        (1 ∷ 30 ∷ 30 ∷ 30 ∷ 30 ∷ []);
}

-- `q` is the request's only question.
unfoldable pub blocked_response : Dns → Message → Question → Message
blocked_response dns request q = record (dns.set_rcode request rcode_name_error) {
  ns = blocked_soa q.name ∷ [];
}

unfoldable pub cap_record : ℕ → Resource → Resource
cap_record maximum r =
    if not (eqb r.rrtype type_opt) && ltb maximum r.ttl then record r { ttl = maximum } else r

unfoldable pub cap_ttl : ℕ → Message → Message
unfolding cap_record
cap_ttl maximum m = record m {
  answer = map (cap_record maximum) m.answer;
  ns = map (cap_record maximum) m.ns;
  extra = map (cap_record maximum) m.extra;
}

-- `err == nil && decision.Action == policy.ActionBlock`
abbrev pub blocking : Result DecideError Decision → Option Decision
blocking (ok d) = if is_block d.action then some d else none
blocking (err e) = none

abbrev pub first_of : Option Decision → Option Decision → Option Decision
first_of (some d) rest = some d
first_of none rest = rest

unfoldable pub alias_decision : Platform → Profile → Instant → Data → Option Decision
alias_decision env p at (cname target) = blocking (decide_at env p target at)
alias_decision env p at _ = none

-- Decide reads the clock anew for each record.
unfoldable pub blocked_alias : Platform → Profile → (ℕ → Instant) → List Resource → Option Decision
blocked_alias env p clock [] = none
blocked_alias env p clock (r ∷ rs) =
    let rest = blocked_alias env p (λ i. clock (suc i)) rs in
    first_of (alias_decision env p (clock 0) r.data_of) rest

unfoldable pub event_of : Platform → Profile → Question → Instant → Decision → Event
event_of env p q at d = record {
  timestamp = at;
  profile_id = p.id;
  query = to_lower env (trim_suffix q.name (b'.' ∷ []));
  query_type = q.qtype;
  action = d.action;
  category = d.category;
  reason = d.reason;
  matched_domain = d.matched_domain;
  group_name = d.group_name;
  policy_version = d.policy_version;
}

abbrev pub write_event : Event → World → World
write_event e w = record w { events = e ∷ w.events }

-- What an answer of the upstream becomes.
unfoldable pub relay :
    Dns → ℕ → Message → Question → Event → Message → Option Decision → World → Message × World
relay dns max_ttl request q event response (some d) w = (
  blocked_response dns request q,
  write_event
      (record event { action = d.action; category = d.category; policy_version = d.policy_version })
      w,
)
relay dns max_ttl request q event response none w = (cap_ttl max_ttl response, write_event event w)

unfoldable pub forward :
    Platform → Dns → ℕ → Profile → Message → Question → Moment → Event → World → Message × World
forward env dns max_ttl p request q m event w =
    let asked : World = record w { sent = request ∷ w.sent } in
    elim (dns.exchange request) [
      | none ↦ (dns.set_rcode request rcode_server_failure, write_event event asked)
      | some response ↦
          relay dns max_ttl request q event response
            (blocked_alias env p m.alias_now response.answer) asked
    ]

unfoldable pub answer :
    Platform
    → Dns
    → ℕ
    → Profile
    → Message
    → Question
    → Moment
    → Result DecideError Decision
    → World
    → Message × World
answer env dns max_ttl p request q m (err e) w = (dns.set_rcode request rcode_format_error, w)
answer env dns max_ttl p request q m (ok d) w =
    if is_block d.action
    then (blocked_response dns request q, write_event (event_of env p q m.at d) w)
    else forward env dns max_ttl p request q m (event_of env p q m.at d) w

-- `s.pairings != nil && s.pairings.Observe(...)`
unfoldable pub observe_pairing :
    Platform → Option Manager → Text → Text → Moment → Option Manager × Bool
observe_pairing env none id name m = (none, false)
observe_pairing env (some pairings) id name m =
    let (next, seen) = observe env pairings id name m.pairing_now m.pairing_later m.token in
    (some next, seen)

unfoldable pub resolve_question :
    Platform → Dns → ℕ → Profile → Message → Question → Moment → World → Message × World
resolve_question env dns max_ttl p request q m w =
    let seen = observe_pairing env w.pairings p.id q.name m in
    let next : World = record w { pairings = seen.0 } in
    if seen.1
    then (blocked_response dns request q, next)
    else answer env dns max_ttl p request q m (decide_at env p q.name m.at) next

unfoldable pub resolve_questions :
    Platform → Dns → ℕ → Profile → Message → List Question → Moment → World → Message × World
resolve_questions env dns max_ttl p request (q ∷ []) m w =
    resolve_question env dns max_ttl p request q m w
resolve_questions env dns max_ttl p request _ m w = (dns.set_rcode request rcode_format_error, w)

-- Server.resolve
unfoldable pub resolve : Platform → Dns → ℕ → Profile → Message → Moment → World → Message × World
unfolding resolve_questions
resolve env dns max_ttl p request m w =
    resolve_questions env dns max_ttl p request request.questions m w

-- A message that a connection reads: the store at that time, the request, the clock, and whether
-- the answer can be written.
pub record Arrival : Type 0 where
  pub store : Store
  pub request : Message
  pub moment : Moment
  pub writable : Bool

-- The loop of handleConnection over the messages that are read; the answers that were written.
unfoldable pub serve : Platform → Dns → ℕ → Text → List Arrival → World → List Message × World
serve env dns max_ttl hostname [] w = ([], w)
serve env dns max_ttl hostname (a ∷ more) w = elim (profile env a.store hostname) [
  | none ↦ ([], w)
  | some p ↦
      let answered = resolve env dns max_ttl p a.request a.moment w in
      let rest = serve env dns max_ttl hostname more answered.1 in
      if a.writable then (answered.0 ∷ rest.0, rest.1) else ([], answered.1)
]

-- handleConnection behind the handshake.
unfoldable pub handle_connection :
    Platform → Dns → ℕ → Text → Store → List Arrival → World → List Message × World
unfolding serve
handle_connection env dns max_ttl hostname at_handshake arrivals w =
    elim (profile env at_handshake hostname) [
      | none ↦ ([], w)
      | some _ ↦ serve env dns max_ttl hostname arrivals w
    ]
