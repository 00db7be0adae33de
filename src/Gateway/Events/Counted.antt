-- ===== src/Gateway/Events/Counted.antt =====
-- What the counters of an EventBuffer count.
use teen_dns.Base.{
  ℕ, ◌+◌, ◌≤◌, ◌≡◌, refl, ap, sym, subst, ◌∙◌, inl, inr, Bool, true, false, ◌&&◌, ltb,
  if◌then◌else◌, List, [], ◌∷◌, All, Text, texts_equal, texts_equal_iff, is_empty, arith,
  Bool-cases, lookup, lookup-insert, text_eq,
}
use teen_dns.Policy.{is_block, is_observe}
use teen_dns.Gateway.{Event}
use teen_dns.Gateway.Events.{
  CategoryEventSummary, EventSummary, EventBuffer, new_summary, count_action, category_of,
  count_category, count_unknown, count_event, summary_or_new, write, write_all, place,
  sort_categories, summary,
}

-- What a summary says of a category: the sum over its entries.
unfoldable pub count_of : Text → List CategoryEventSummary → ℕ
count_of c [] = 0
count_of c (x ∷ xs) =
    let rest = count_of c xs in if texts_equal x.category c then x.count + rest else rest

abbrev one : Bool → ℕ
one true = 1
one false = 0

-- How many events of a profile pass a test.
unfoldable pub tally : (Event → Bool) → Text → List Event → ℕ
tally p id [] = 0
tally p id (e ∷ es) = one (texts_equal e.profile_id id && p e) + tally p id es

abbrev pub in_category : Text → Event → Bool
in_category c e = texts_equal (category_of e) c

-- The counters of a summary are those of `before` and of the events.
pub record Counts (id : Text) (before after : EventSummary) (es : List Event) : Type 0 where
  pub total : after.total ≡ before.total + tally (λ e. true) id es
  pub blocked : after.blocked ≡ before.blocked + tally (λ e. is_block e.action) id es
  pub observed : after.observed ≡ before.observed + tally (λ e. is_observe e.action) id es
  pub unknown : after.unknown ≡ before.unknown + tally (λ e. is_empty e.category) id es
  pub categories :
      (c : Text)
      → count_of c after.categories ≡ count_of c before.categories + tally (in_category c) id es

count_of-count_category :
    (c d : Text) (xs : List CategoryEventSummary)
    → count_of d (count_category c xs) ≡ one (texts_equal c d) + count_of d xs
unfolding count_of count_category
count_of-count_category c d [] = ground arith
count_of-count_category c d (x ∷ xs) = ground (
  arith,
  count_of-count_category c d xs,
  texts_equal_iff x.category c,
  texts_equal_iff c d,
  texts_equal_iff x.category d,
)

count_of-place :
    (c : Text) (x : CategoryEventSummary) (xs : List CategoryEventSummary)
    → count_of c (place x xs) ≡ count_of c (x ∷ xs)
unfolding count_of place
count_of-place c x [] = refl
count_of-place c x (y ∷ ys) = ground (arith, count_of-place c x ys)

count_of-sort :
    (c : Text) (xs : List CategoryEventSummary) → count_of c (sort_categories xs) ≡ count_of c xs
unfolding count_of sort_categories
count_of-sort c [] = refl
count_of-sort c (x ∷ xs) =
    ground (arith, count_of-place c x (sort_categories xs), count_of-sort c xs)

-- One event adds to each counter what it is counted as.
record Added (e : Event) (before after : EventSummary) : Type 0 where
  total : after.total ≡ before.total + 1
  blocked : after.blocked ≡ before.blocked + one (is_block e.action)
  observed : after.observed ≡ before.observed + one (is_observe e.action)
  unknown : after.unknown ≡ before.unknown + one (is_empty e.category)
  categories :
      (c : Text)
      → count_of c after.categories ≡ count_of c before.categories + one (in_category c e)

categories-kept :
    (e : Event) (s : EventSummary)
    → (count_unknown e (count_action e.action (record s { total = s.total + 1 }))).categories
      ≡ s.categories
unfolding count_unknown count_action
categories-kept e s = ground arith

count_event-Added : (e : Event) (s : EventSummary) → Added e s (count_event e s)
unfolding count_event count_unknown count_action is_block is_observe
count_event-Added e s = record {
  total = ground arith;
  blocked = ground arith;
  observed = ground arith;
  unknown = ground arith;
  categories = λ c.
      omega
        (arith, count_of-count_category (category_of e) c _, ap (count_of c) (categories-kept e s));
}

stored : EventBuffer → Text → EventSummary
stored b id = summary_or_new id (lookup id b)

stored-write_own :
    (b : EventBuffer) (e : Event) (id : Text)
    → texts_equal e.profile_id id ≡ true
    → stored (write b e) id ≡ count_event e (stored b id)
unfolding stored write
stored-write_own b e id h =
    let same = (texts_equal_iff e.profile_id id).0 h in
    rw
      (
        lookup-insert e.profile_id id
            (count_event e (summary_or_new e.profile_id (lookup e.profile_id b))) b,
        h,
      )
      (ap (λ x. count_event e (summary_or_new x (lookup x b))) same)

stored-write_other :
    (b : EventBuffer) (e : Event) (id : Text)
    → texts_equal e.profile_id id ≡ false
    → stored (write b e) id ≡ stored b id
unfolding stored write
stored-write_other b e id h = rw (
  lookup-insert e.profile_id id
      (count_event e (summary_or_new e.profile_id (lookup e.profile_id b))) b,
  h,
)

Counts-nil : (id : Text) (s : EventSummary) → Counts id s s []
unfolding tally
Counts-nil id s = record {
  total = omega arith;
  blocked = omega arith;
  observed = omega arith;
  unknown = omega arith;
  categories = λ c. omega arith;
}

Counts-own :
    (id : Text) (e : Event) (es : List Event) (s t u : EventSummary)
    → texts_equal e.profile_id id ≡ true
    → Added e s t
    → Counts id t u es
    → Counts id s u (e ∷ es)
unfolding tally
Counts-own id e es s t u h a r = record {
  total = ground (arith, a.total, r.total);
  blocked = ground (arith, a.blocked, r.blocked);
  observed = ground (arith, a.observed, r.observed);
  unknown = ground (arith, a.unknown, r.unknown);
  categories = λ c. ground (arith, a.categories c, r.categories c);
}

Counts-other :
    (id : Text) (e : Event) (es : List Event) (s u : EventSummary)
    → texts_equal e.profile_id id ≡ false
    → Counts id s u es
    → Counts id s u (e ∷ es)
unfolding tally
Counts-other id e es s u h r = record {
  total = ground (arith, r.total);
  blocked = ground (arith, r.blocked);
  observed = ground (arith, r.observed);
  unknown = ground (arith, r.unknown);
  categories = λ c. ground (arith, r.categories c);
}

write_all-Counts :
    (b : EventBuffer) (es : List Event) (id : Text)
    → Counts id (stored b id) (stored (write_all b es) id) es
unfolding write_all
write_all-Counts b [] id = Counts-nil id (stored b id)
write_all-Counts b (e ∷ es) id =
    let rest = write_all-Counts (write b e) es id in
    elim (Bool-cases (texts_equal e.profile_id id)) [
      | inl own ↦
          Counts-own id e es _ _ _ own
            (subst (Added e (stored b id)) (sym (stored-write_own b e id own))
              (count_event-Added e (stored b id)))
            rest
      | inr other ↦ Counts-other id e es _ _ other (
          subst (λ s. Counts id s (stored (write_all (write b e) es) id) es)
            (stored-write_other b e id other) rest)
    ]

-- After any events were written to an empty buffer, the summary of a profile counts exactly its
-- events: all of them, the blocked, the observed, those without a category, and, for every
-- category, those that fall into it ("unknown" where an event has none).
pub summary-Counts :
    (es : List Event) (id : Text) → Counts id (new_summary id) (summary (write_all [] es) id) es
unfolding summary count_of stored lookup
summary-Counts es id =
    let c = write_all-Counts [] es id in
    record {
      total = c.total;
      blocked = c.blocked;
      observed = c.observed;
      unknown = c.unknown;
      categories = λ k. count_of-sort k (stored (write_all [] es) id).categories ∙ c.categories k;
    }

-- The counts fall along the list.
abbrev pub Falling : List CategoryEventSummary → Type 0
Falling [] = Unit
Falling (x ∷ xs) = All (λ (y : CategoryEventSummary). y.count ≤ x.count) xs × Falling xs

place-below :
    (n : ℕ) (x : CategoryEventSummary) (xs : List CategoryEventSummary)
    → x.count ≤ n
    → All (λ (y : CategoryEventSummary). y.count ≤ n) xs
    → All (λ (y : CategoryEventSummary). y.count ≤ n) (place x xs)
unfolding place
place-below n x [] h k = (h, tt)
place-below n x (y ∷ ys) h k = ground (arith, place-below n x ys h k.1)

below_trans :
    (n m : ℕ) (xs : List CategoryEventSummary)
    → n ≤ m
    → All (λ (y : CategoryEventSummary). y.count ≤ n) xs
    → All (λ (y : CategoryEventSummary). y.count ≤ m) xs
below_trans n m [] h k = tt
below_trans n m (x ∷ xs) h k = (omega (arith, k.0), below_trans n m xs h k.1)

place-Falling :
    (x : CategoryEventSummary) (xs : List CategoryEventSummary) → Falling xs → Falling (place x xs)
unfolding place
place-Falling x [] f = (tt, tt)
place-Falling x (y ∷ ys) f = elim (Bool-cases (ltb x.count y.count)) [
  | inl less ↦ rw less (place-below y.count x ys (ground arith) f.0, place-Falling x ys f.1)
  | inr more ↦ rw more ((ground arith, below_trans y.count x.count ys (ground arith) f.0), f)
]

sort-Falling : (xs : List CategoryEventSummary) → Falling (sort_categories xs)
unfolding sort_categories
sort-Falling [] = tt
sort-Falling (x ∷ xs) = place-Falling x (sort_categories xs) (sort-Falling xs)

-- A summary lists its categories by falling counts.
pub summary-Falling : (b : EventBuffer) (id : Text) → Falling (summary b id).categories
unfolding summary
summary-Falling b id = sort-Falling (summary_or_new id (lookup id b)).categories
