-- ===== src/Digest.antt =====
-- internal/digest: what a household is told of the observed domains. This file models the store
-- of store.go, Report its report, and Scheduler the letters of scheduler.go.
pub mod Kept
pub mod Counts
pub mod Report
pub mod Scheduler
pub mod Letter
mod Samples
use mathlib.Core.Path.{subst}
use teen_dns.Base.{
  ℕ, ◌+◌, ◌≡◌, ◌↔◌, refl, Bool, true, false, not, ◌&&◌, ◌||◌, ltb, leb, if◌then◌else◌, List, [],
  ◌∷◌, any, map, Option, none, some, Text, codes, texts_equal, texts_equal_iff, is_empty, Eq, Map,
  lookup, insert, delete, retain, text_eq, arith,
}
use teen_dns.Platform.{Platform, Instant}
use teen_dns.Policy.{is_observe}
use teen_dns.Gateway.{Event}

abbrev pub zone_name : Text
zone_name = codes "America/Sao_Paulo"

abbrev pub period_morning : Text
period_morning = codes "manha"

abbrev pub period_afternoon : Text
period_afternoon = codes "tarde"

abbrev pub period_evening : Text
period_evening = codes "noite"

pub record Key : Type 0 where
  pub profile_id : Text
  pub period : Text
  pub domain : Text

unfoldable pub keys_equal : Key → Key → Bool
keys_equal a b =
    texts_equal a.profile_id b.profile_id
    && texts_equal a.period b.period
    && texts_equal a.domain b.domain

pub keys_equal_iff : (a b : Key) → (keys_equal a b ≡ true) ↔ (a ≡ b)
unfolding keys_equal
keys_equal_iff a b = ground (
  arith,
  texts_equal_iff a.profile_id b.profile_id,
  texts_equal_iff a.period b.period,
  texts_equal_iff a.domain b.domain,
)

instance abbrev pub key_eq : Eq Key
key_eq = record { test = keys_equal; test_iff = keys_equal_iff }

pub record Entry : Type 0 where
  pub category : Text
  pub reason : Text
  pub group_name : Text
  pub count : ℕ

pub record SnapshotEntry : Type 0 where
  pub key : Key
  pub entry : Entry

pub record Snapshot : Type 0 where
  pub entries : List SnapshotEntry
  pub last_sent_at : Map Text Instant

-- `disk` is the file at `path`, as it decodes; `none` where there is no file.
pub record Store : Type 0 where
  pub path : Text
  pub entries : Map Key Entry
  pub last_sent_at : Map Text Instant
  pub disk : Option Snapshot

unfoldable pub load_entries : List SnapshotEntry → Map Key Entry → Map Key Entry
load_entries [] m = m
load_entries (x ∷ xs) m = load_entries xs (insert x.key x.entry m)

unfoldable pub load_sent : Map Text Instant → Map Text Instant → Map Text Instant
load_sent [] m = m
load_sent ((house, at) ∷ xs) m = load_sent xs (insert house at m)

-- NewStore, with `load`
unfoldable pub new_store : Text → Option Snapshot → Store
unfolding load_entries load_sent
new_store path none = record { path = path; entries = []; last_sent_at = []; disk = none }
new_store path (some s) = record {
  path = path;
  entries = load_entries s.entries [];
  last_sent_at = load_sent s.last_sent_at [];
  disk = some s;
}

unfoldable pub snapshot_entries : Map Key Entry → List SnapshotEntry
snapshot_entries [] = []
snapshot_entries ((k, e) ∷ m) = record { key = k; entry = e } ∷ snapshot_entries m

-- saveLocked; `writable` tells whether the file can be replaced, the result whether the call did
-- not fail.
unfoldable pub save : Store → Bool → Store × Bool
unfolding snapshot_entries
save s writable =
    if is_empty s.path
    then (s, true)
    else if writable
    then (
      record s {
        disk =
            some (record { entries = snapshot_entries s.entries; last_sent_at = s.last_sent_at });
      },
      true,
    )
    else (s, false)

unfoldable pub period_for : Platform → Instant → Text
period_for env at =
    let hour = (env.local_time zone_name at).hour in
    if leb 5 hour && ltb hour 12
    then period_morning
    else if leb 12 hour && ltb hour 18
    then period_afternoon
    else period_evening

abbrev pub key_of : Platform → Event → Key
key_of env e = record {
  profile_id = e.profile_id;
  period = period_for env e.timestamp;
  domain = e.matched_domain;
}

abbrev pub count_or_zero : Option Entry → ℕ
count_or_zero none = 0
count_or_zero (some e) = e.count

unfoldable pub recorded : Event → Bool
recorded e = is_observe e.action && not (is_empty e.matched_domain)

-- Store.Write
unfoldable pub write : Platform → Store → Event → Store
unfolding recorded period_for
write env s e = if not (recorded e) then s else record s {
  entries =
      insert (key_of env e)
        (record {
          category = e.category;
          reason = e.reason;
          group_name = e.group_name;
          count = count_or_zero (lookup (key_of env e) s.entries) + 1;
        })
        s.entries;
}

-- now.Sub(last) >= interval
unfoldable pub is_due : Store → Text → Instant → ℕ → Bool
is_due s house now interval = elim (lookup house s.last_sent_at) [
  | none ↦ true
  | some last ↦ leb (last + interval) now
]

abbrev pub kept_key : List Text → Key → Entry → Bool
kept_key ids k e = not (any (texts_equal k.profile_id) ids)

-- CompleteDigest
unfoldable pub complete_digest : Store → Text → List Text → Instant → Bool → Store × Bool
unfolding save
complete_digest s house ids at writable =
    save
      (record s {
        entries = retain (kept_key ids) s.entries;
        last_sent_at = insert house at s.last_sent_at;
      })
      writable

-- Forget
unfoldable pub forget : Store → Text → List Text → Bool → Store × Bool
unfolding save
forget s house ids writable =
    save
      (record s {
        entries = retain (kept_key ids) s.entries;
        last_sent_at = delete house s.last_sent_at;
      })
      writable
