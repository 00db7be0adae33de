-- ===== src/Fixture.antt =====
-- internal/fixture/server.go: the DNS server of the laboratory, with the counter of the names it was
-- asked for. SetReply, SetRcode and NewRR of miekg/dns are arguments;
-- an answer is what is given to WriteMsg.
use teen_dns.Base.{
  ℕ, suc, ◌&&◌, eqb, if◌then◌else◌, [], ◌∷◌, ◌++◌, Option, none, some, Text, codes, texts_equal,
  trim_suffix, Map, lookup, insert, text_eq,
}
use teen_dns.Platform.{Platform, to_lower}
use teen_dns.Gateway.Resolve.{Question, Resource, Message}

pub record Library : Type 0 where
  pub set_reply : Message → Message
  pub set_rcode : Message → Message → ℕ → Message
  pub new_record : Text → Option Resource

abbrev pub asked_name : Platform → Text → Text
asked_name env name = to_lower env (trim_suffix name (codes "."))

abbrev pub asked_count : Map Text ℕ → Text → ℕ
asked_count counts name = elim (lookup name counts) [ none ↦ 0 | some n ↦ n ]

abbrev pub fixed_records : Map Text Text
fixed_records =
    (codes "allowed.test", codes "192.0.2.10")
    ∷ (codes "blocked.test", codes "192.0.2.20")
    ∷ (codes "dynamic.test", codes "192.0.2.50")
    ∷ (codes "shared.test", codes "192.0.2.30")
    ∷ (codes "school.blocked.test", codes "192.0.2.40")
    ∷ []

-- The record that the text describes is the answer, if it can be read.
abbrev pub with_record : Library → Message → Text → Message
with_record dns response text = elim (dns.new_record text) [
  | none ↦ response
  | some record_of ↦ record response { answer = record_of ∷ [] }
]

abbrev pub fixed_answer : Library → Message → Question → Option Text → Message
fixed_answer dns request question none = dns.set_rcode (dns.set_reply request) request 3
fixed_answer dns request question (some ip) =
    if eqb question.qtype 1
    then with_record dns (dns.set_reply request) (question.name ++ codes " 600 IN A " ++ ip)
    else dns.set_reply request

unfoldable pub fixture_answer : Library → Message → Question → Text → Message
fixture_answer dns request question name =
    if texts_equal name (codes "alias.test") && eqb question.qtype 1
    then with_record dns (dns.set_reply request) (codes "alias.test. 600 IN CNAME blocked.test.")
    else fixed_answer dns request question (lookup name fixed_records)

-- ServeDNS
unfoldable pub serve_dns : Platform → Library → Map Text ℕ → Message → Map Text ℕ × Message
unfolding fixture_answer
serve_dns env dns counts request = elim request.questions [
  | [] ↦ (counts, dns.set_rcode (dns.set_reply request) request 1)
  | question ∷ others ↦ elim others [
    | _ ∷ _ ↦ (counts, dns.set_rcode (dns.set_reply request) request 1)
    | [] ↦
        let name = asked_name env question.name in
        (
          insert name (suc (asked_count counts name)) counts,
          fixture_answer dns request question name,
        )
  ]
]

-- count, as the number that it writes
unfoldable pub fixture_count : Platform → Map Text ℕ → Text → ℕ
fixture_count env counts name = asked_count counts (asked_name env name)
