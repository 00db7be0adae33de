-- ===== src/Gateway/Samples.antt =====
-- Queries of one profile, and each theorem at them.
use teen_dns.Base.{
  ℕ, ◌≡◌, refl, true, false, [], ◌∷◌, any, none, some, codes, texts_equal, is_empty, is_space,
  drop_space, trim_space, trim_suffix, has_suffix, contains, contains_any, byte_length, get_elem?,
  lookup, insert, text_eq, arith, ◌⊎◌, has_key, before_dot, strip_prefix, Result, ok, err,
}
use teen_dns.Platform.{Platform, to_lower}
use teen_dns.Policy.{
  Profile, Decision, block, allow, is_block, is_observe, valid_action, schedule_action,
}
use teen_dns.Policy.Names.{normalize_name}
use teen_dns.Policy.Schedule.{active_scheduled_action, profile_location}
use teen_dns.Policy.Decide.{
  first_active_pause, domain_matches, is_longer, scan_rule, scan_rules, with_schedule,
  group_decision, scan_domain, scan_domains, scan_groups, scan_all, location_of, decide_local,
  decide_at,
}
use teen_dns.Policy.Store.{
  Store, profile, profile_label, empty_store, seen_before, check_pauses, normalize_rules,
  check_schedules, normalize_domains, normalize_groups, check_profile, add_profile, add_profiles,
  new_store,
}
use teen_dns.Gateway.{Event}
use teen_dns.Gateway.Events.{
  new_summary, count_action, count_category, count_unknown, count_event, write, write_all, place,
  sort_categories, summary,
}
use teen_dns.Gateway.Events.Counted.{Counts, summary-Counts}
use teen_dns.Gateway.Resolve.{
  Question, Message, Resource, cname, Dns, Moment, World, blocked_response, cap_ttl, cap_record,
  alias_decision, blocked_alias, event_of, relay, forward, answer, observe_pairing,
  resolve_question, resolve_questions, resolve, serve,
}
use teen_dns.Gateway.Doh.{
  Wire, DohRequest, refused, answered, get_message, doh_request_message, doh_label, doh_query,
  handle_doh,
}
use teen_dns.Gateway.Doh.Replies.{Named, Refuses, Answers, handle_doh_lem}
use teen_dns.Gateway.Resolve.Effects.{Asked, Tells, resolve-sent, resolve-events}
use teen_dns.Gateway.Resolve.Ttl.{Bounded, resolve-Bounded}
use teen_dns.Gateway.Resolve.Aliases.{resolve-alias}

gateway_run : Unit {0}
unfolding any texts_equal is_empty is_space drop_space trim_space trim_suffix has_suffix contains
    contains_any byte_length get_elem? lookup insert to_lower is_block is_observe normalize_name
    active_scheduled_action profile_location first_active_pause domain_matches is_longer scan_rule
    scan_rules with_schedule group_decision scan_domain scan_domains scan_groups scan_all
    location_of decide_local decide_at profile count_action count_category count_unknown count_event
    write write_all place sort_categories summary blocked_response cap_record cap_ttl alias_decision
    blocked_alias event_of relay forward answer observe_pairing resolve_question resolve_questions
    resolve serve
gateway_run = tt

store_run : Unit {0}
unfolding has_key seen_before check_pauses normalize_rules check_schedules normalize_domains
    normalize_groups check_profile add_profile add_profiles new_store valid_action schedule_action
    profile_label any texts_equal is_empty is_space drop_space trim_space trim_suffix has_suffix
    contains contains_any before_dot lookup insert to_lower normalize_name profile_location
    byte_length
store_run = tt

doh_run : Unit {0}
unfolding strip_prefix get_message doh_request_message doh_label doh_query handle_doh
doh_run = tt

abbrev machine : Platform
machine = record {
  lower_rune = λ c. c;
  known_zone = λ zone. true;
  local_time = λ zone at. record { weekday = 0; hour = 0; minute = 0 };
}

abbrev home : Profile
home = record {
  id = codes "home";
  house_id = codes "house";
  label = codes "Home";
  hostname = codes "p-1.test";
  disabled = false;
  default_action = allow;
  version = 7;
  rules =
      record {
        domain = codes "ads.test";
        include_subdomains = true;
        action = block;
        category = codes "ads";
        reason = codes "Ads";
      }
      ∷ [];
  groups = [];
  pauses = [];
  time_zone = [];
  location = none;
}

abbrev question : Question
question = record { name = codes "Shop.test."; qtype = 1 }

abbrev request : Message
request = record { id = 9; rcode = 0; questions = question ∷ []; answer = []; ns = []; extra = [] }

abbrev alias : Resource
alias = record {
  name = codes "shop.test.";
  rrtype = 5;
  class = 1;
  ttl = 900;
  data_of = cname (codes "x.ads.test.");
}

-- An upstream that answers every question with an alias.
abbrev upstream : Dns
upstream = record {
  set_rcode = λ r code. record {
    id = r.id;
    rcode = code;
    questions = r.questions;
    answer = [];
    ns = [];
    extra = [];
  };
  exchange = λ r. some (record r { answer = alias ∷ [] });
}

abbrev moment : Moment
moment = record { at = 5; pairing_now = 5; pairing_later = 5; token = none; alias_now = λ i. 6 }

abbrev quiet : World
quiet = record { pairings = none; events = []; sent = [] }

abbrev advert : Decision
advert = record {
  action = block;
  category = codes "ads";
  reason = codes "Ads";
  matched_domain = codes "ads.test";
  group_name = [];
  schedule_label = [];
  policy_version = 7;
}

abbrev plain : Decision
plain = record {
  action = allow;
  category = [];
  reason = [];
  matched_domain = [];
  group_name = [];
  schedule_label = [];
  policy_version = 7;
}

abbrev seen_event : Event
seen_event = record {
  timestamp = 5;
  profile_id = codes "home";
  query = codes "shop.test";
  query_type = 1;
  action = block;
  category = codes "ads";
  reason = [];
  matched_domain = [];
  group_name = [];
  policy_version = 7;
}

-- The event of a blocked alias has the category of the alias and the reason of the question.
alias_event : (resolve machine upstream 300 home request moment quiet).1.events ≡ seen_event ∷ []
unfolding gateway_run
alias_event = refl

resolve-alias_example :
    (resolve machine upstream 300 home request moment quiet).0
    ≡ blocked_response upstream request question
unfolding gateway_run
resolve-alias_example =
    resolve-alias machine upstream 300 home request moment quiet question plain advert
      (record request { answer = alias ∷ [] }) 0 alias (codes "x.ads.test.") refl refl refl refl
      refl refl refl refl refl

abbrev Sent : Type 0
Sent =
    ((resolve machine upstream 300 home request moment quiet).1.sent ≡ [])
    ⊎ ((q : Question) × (request.questions ≡ q ∷ [])
        × Asked machine upstream 300 home request moment q
        × ((resolve machine upstream 300 home request moment quiet).1.sent ≡ request ∷ []))

resolve-sent_example : Sent
resolve-sent_example = resolve-sent machine upstream 300 home request moment quiet

abbrev Left : Type 0
Left =
    ((resolve machine upstream 300 home request moment quiet).1.events ≡ [])
    ⊎ ((q : Question) × (e : Event) × (request.questions ≡ q ∷ [])
        × ((resolve machine upstream 300 home request moment quiet).1.events ≡ e ∷ [])
        × (e.profile_id ≡ codes "home")
        × Tells machine upstream 300 home request moment q e
            (resolve machine upstream 300 home request moment quiet).0)

resolve-events_example : Left
resolve-events_example = resolve-events machine upstream 300 home request moment quiet

resolve-Bounded_example : Bounded 300 (resolve machine upstream 300 home request moment quiet).0
resolve-Bounded_example =
    resolve-Bounded machine upstream 300 home request moment (λ r code. (refl, refl, refl)) 300
      (omega arith) (omega arith) quiet

summary-Counts_example :
    Counts
      (codes "home")
      (new_summary (codes "home"))
      (summary (write_all [] (seen_event ∷ [])) (codes "home"))
      (seen_event ∷ [])
summary-Counts_example = summary-Counts (seen_event ∷ []) (codes "home")

abbrev wire : Wire
wire = record {
  decode_raw = λ text. some text;
  decode_padded = λ text. none;
  media_type = λ header. some header;
  unpack = λ bytes. some request;
  pack = λ message. some (message.rcode ∷ []);
}

abbrev store_or_empty : {E : Type 0} → Result E Store → Store
store_or_empty (ok s) = s
store_or_empty (err e) = empty_store

labelled : Store
labelled = store_or_empty (new_store machine (home ∷ []))

home_accepted : new_store machine (home ∷ []) ≡ ok labelled
unfolding store_run labelled
home_accepted = refl

abbrev over_https : DohRequest
over_https = record {
  method = codes "GET";
  path = codes "/dns-query/P-1";
  dns_parameter = codes "AAAA";
  content_type = [];
  body = record { bytes = []; breaks = false };
}

handle_doh_lem_example :
    ((n : ℕ) × (handle_doh machine upstream wire 300 labelled over_https moment quiet
        ≡ (refused n, quiet))
      × Refuses machine (home ∷ []) over_https n
      × ((p : Profile) (q : Message) → ¬ Named machine wire (home ∷ []) over_https p q))
    ⊎ ((p : Profile) × (q : Message) × Named machine wire (home ∷ []) over_https p q
        × ((handle_doh machine upstream wire 300 labelled over_https moment quiet).1
            ≡ (resolve machine upstream 300 p q moment quiet).1)
        × Answers wire
            (resolve machine upstream 300 p q moment quiet).0
            (handle_doh machine upstream wire 300 labelled over_https moment quiet).0)
handle_doh_lem_example =
    handle_doh_lem machine upstream wire 300 (home ∷ []) labelled over_https moment quiet
      home_accepted

-- The label stands in upper case, and yet reaches the profile, which blocks the name.
answered_over_https :
    (handle_doh machine upstream wire 300 labelled over_https moment quiet).0 ≡ answered (3 ∷ [])
unfolding gateway_run store_run labelled doh_run
answered_over_https = refl
