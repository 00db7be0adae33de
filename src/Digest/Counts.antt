-- ===== src/Digest/Counts.antt =====
-- What the counters of the store count, and what a household leaves behind.
use teen_dns.Base.{
  ℕ, ◌+◌, ◌≡◌, refl, ap, ◌∙◌, inl, inr, Bool, true, false, ◌&&◌, any, if◌then◌else◌, List, [], ◌∷◌,
  none, Text, texts_equal, texts_equal_iff, arith, Bool-cases, lookup, lookup-insert, lookup-retain,
  lookup-delete, text_eq, leb, not, ◌||◌, is_empty, codes,
}
use teen_dns.Platform.{Platform, Instant}
use teen_dns.Policy.{Action, observe, is_observe}
use teen_dns.Gateway.{Event}
use teen_dns.Digest.{
  Key, Store, key_eq, keys_equal, keys_equal_iff, save, key_of, count_or_zero, recorded, write,
  is_due, kept_key, forget, period_for,
}

abbrev pub count_at : Store → Key → ℕ
count_at s k = count_or_zero (lookup k s.entries)

abbrev pub one_if : Bool → ℕ
one_if true = 1
one_if false = 0

unfoldable pub write_all : Platform → Store → List Event → Store
write_all env s [] = s
write_all env s (e ∷ es) = write_all env (write env s e) es

abbrev pub observed : Action → Bool
observed observe = true
observed _ = false

-- From five in the morning, from noon, and from six in the evening to five.
abbrev pub in_day_part : Text → ℕ → Bool
in_day_part part hour =
    (texts_equal (codes "manha") part && leb 5 hour && leb hour 11)
    || (texts_equal (codes "tarde") part && leb 12 hour && leb hour 17)
    || (texts_equal (codes "noite") part && (leb 18 hour || leb hour 4))

-- The event is an observation of the profile and the matched domain, in the day part in São Paulo.
abbrev pub stands_for : Platform → Event → Key → Bool
stands_for env e k =
    observed e.action
    && not (is_empty e.matched_domain)
    && texts_equal e.profile_id k.profile_id
    && in_day_part k.period (env.local_time (codes "America/Sao_Paulo") e.timestamp).hour
    && texts_equal e.matched_domain k.domain

-- The events that a key stands for.
unfoldable pub events_at : Platform → Key → List Event → ℕ
events_at env k [] = 0
events_at env k (e ∷ es) = one_if (stands_for env e k) + events_at env k es

period_for-part :
    (env : Platform) (at : Instant) (part : Text)
    → texts_equal (period_for env at) part
      ≡ in_day_part part (env.local_time (codes "America/Sao_Paulo") at).hour
unfolding period_for
period_for-part env at part = ground arith

recorded-stands_for :
    (env : Platform) (e : Event) (k : Key)
    → (recorded e && keys_equal (key_of env e) k) ≡ stands_for env e k
unfolding recorded keys_equal is_observe
recorded-stands_for env e k = ground (arith, period_for-part env e.timestamp k.period)

count_at-write :
    (env : Platform) (s : Store) (e : Event) (k : Key)
    → count_at (write env s e) k ≡ one_if (recorded e && keys_equal (key_of env e) k) + count_at s k
unfolding write
count_at-write env s e k = elim (Bool-cases (recorded e)) [
  | inr ignored ↦ rw (ignored, write) (omega arith)
  | inl counted ↦ elim (Bool-cases (keys_equal (key_of env e) k)) [
    | inl same ↦
        rw (counted, write, lookup-insert (key_of env e) k _ s.entries, same)
          (ground (arith, ap (count_at s) ((keys_equal_iff (key_of env e) k).0 same)))
    | inr other ↦
        rw (counted, write, lookup-insert (key_of env e) k _ s.entries, other) (omega arith)
  ]
]

-- A counter grows by exactly the observed events of its profile, its day part in São Paulo and its
-- domain as the matched one; no other event, no event without a matched domain, and no name that
-- only was asked for is counted.
pub write_all-count_at :
    (env : Platform) (s : Store) (es : List Event) (k : Key)
    → count_at (write_all env s es) k ≡ count_at s k + events_at env k es
unfolding write_all events_at
write_all-count_at env s [] k = omega arith
write_all-count_at env s (e ∷ es) k = omega (
  arith,
  write_all-count_at env (write env s e) es k,
  count_at-write env s e k,
  ap one_if (recorded-stands_for env e k),
)

pub save-entries : (s : Store) (writable : Bool) → (save s writable).0.entries ≡ s.entries
unfolding save
save-entries s writable = ground arith

pub save-sent : (s : Store) (writable : Bool) → (save s writable).0.last_sent_at ≡ s.last_sent_at
unfolding save
save-sent s writable = ground arith

forget-sent :
    (s : Store) (house : Text) (ids : List Text) (writable : Bool)
    → lookup house (forget s house ids writable).0.last_sent_at ≡ none
unfolding forget
forget-sent s house ids writable =
    ap (lookup house) (save-sent _ writable)
    ∙ lookup-delete house house s.last_sent_at
    ∙ rw ((texts_equal_iff house house).1 refl) refl

-- Forget leaves nothing of the household: no counter of its profiles and no sending time, so that it
-- is due at once; the counters of every other profile stay, whether the file can be written or not.
pub forget_lem :
    (s : Store) (house : Text) (ids : List Text) (writable : Bool) (k : Key) (now interval : ℕ)
    → (lookup k (forget s house ids writable).0.entries
        ≡ (if any (texts_equal k.profile_id) ids then none else lookup k s.entries))
      × (is_due (forget s house ids writable).0 house now interval ≡ true)
unfolding forget is_due
forget_lem s house ids writable k now interval = (
  ap (lookup k) (save-entries _ writable) ∙ lookup-retain (kept_key ids) k s.entries ∙ ground arith,
  rw (forget-sent s house ids writable, is_due) refl,
)
