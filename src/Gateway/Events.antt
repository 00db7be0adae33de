-- ===== src/Gateway/Events.antt =====
-- EventBuffer of events.go: counters of the events of each profile, without the names.
pub mod Counted
use teen_dns.Base.{
  ℕ, zero, suc, ◌+◌, Bool, true, false, ltb, if◌then◌else◌, List, [], ◌∷◌, Option, none, some, Text,
  codes, texts_equal, is_empty, Map, lookup, insert, text_eq,
}
use teen_dns.Policy.{Action, block, observe}
use teen_dns.Gateway.{Event}

pub record CategoryEventSummary : Type 0 where
  pub category : Text
  pub count : ℕ

pub record EventSummary : Type 0 where
  pub profile_id : Text
  pub total : ℕ
  pub blocked : ℕ
  pub observed : ℕ
  pub unknown : ℕ
  pub categories : List CategoryEventSummary

abbrev pub EventBuffer : Type 0
EventBuffer = Map Text EventSummary

abbrev pub new_summary : Text → EventSummary
new_summary id = record {
  profile_id = id;
  total = 0;
  blocked = 0;
  observed = 0;
  unknown = 0;
  categories = [];
}

-- `switch event.Action`
unfoldable pub count_action : Action → EventSummary → EventSummary
count_action block s = record s { blocked = s.blocked + 1 }
count_action observe s = record s { observed = s.observed + 1 }
count_action _ s = s

abbrev pub unknown_category : Text
unknown_category = codes "unknown"

abbrev pub category_of : Event → Text
category_of e = if is_empty e.category then unknown_category else e.category

-- The loop over the categories, and the append behind it.
unfoldable pub count_category : Text → List CategoryEventSummary → List CategoryEventSummary
count_category c [] = record { category = c; count = 1 } ∷ []
count_category c (x ∷ xs) =
    let rest = count_category c xs in
    if texts_equal x.category c then record x { count = x.count + 1 } ∷ xs else x ∷ rest

unfoldable pub count_unknown : Event → EventSummary → EventSummary
count_unknown e s = if is_empty e.category then record s { unknown = s.unknown + 1 } else s

unfoldable pub count_event : Event → EventSummary → EventSummary
unfolding count_action count_unknown count_category
count_event e s =
    let counted = count_unknown e (count_action e.action (record s { total = s.total + 1 })) in
    record counted { categories = count_category (category_of e) counted.categories }

abbrev pub summary_or_new : Text → Option EventSummary → EventSummary
summary_or_new id none = new_summary id
summary_or_new id (some s) = s

-- EventBuffer.Write
unfoldable pub write : EventBuffer → Event → EventBuffer
write b e =
    insert e.profile_id (count_event e (summary_or_new e.profile_id (lookup e.profile_id b))) b

-- sort.Slice by falling counts; the order of equal counts is not specified there.
unfoldable pub place : CategoryEventSummary → List CategoryEventSummary → List CategoryEventSummary
place x [] = x ∷ []
place x (y ∷ ys) = let rest = place x ys in if ltb x.count y.count then y ∷ rest else x ∷ y ∷ ys

unfoldable pub sort_categories : List CategoryEventSummary → List CategoryEventSummary
unfolding place
sort_categories [] = []
sort_categories (x ∷ xs) = place x (sort_categories xs)

-- EventBuffer.Summary
unfoldable pub summary : EventBuffer → Text → EventSummary
unfolding sort_categories
summary b id =
    let s = summary_or_new id (lookup id b) in
    record s { categories = sort_categories s.categories }

unfoldable pub write_all : EventBuffer → List Event → EventBuffer
unfolding write
write_all b [] = b
write_all b (e ∷ es) = write_all (write b e) es
