-- ===== src/Digest/Kept.antt =====
-- What the store keeps: through a restart, of the events, and of a household that leaves.
use teen_dns.Base.{
  ◌≡◌, refl, ap, ◌∙◌, inl, inr, Bool, true, false, List, [], ◌∷◌, Option, none, some, Text,
  texts_equal_iff, is_empty, arith, Bool-cases, Map, Distinct, lookup, insert, lookup-insert,
  insert-Distinct, delete-Distinct, retain-Distinct, text_eq,
}
use teen_dns.Platform.{Platform, Instant}
use teen_dns.Gateway.{Event}
use teen_dns.Digest.{
  Key, Entry, Store, key_eq, keys_equal_iff, load_entries, load_sent, new_store, snapshot_entries,
  save, recorded, write, kept_key, complete_digest, forget,
}

pub data Call : Type 0 where
  writes : Event → Call
  saves : Bool → Call
  completes : Text → List Text → Instant → Bool → Call
  forgets : Text → List Text → Bool → Call

unfoldable pub step : Platform → Store → Call → Store
step env s (writes e) = write env s e
step env s (saves writable) = (save s writable).0
step env s (completes house ids at writable) = (complete_digest s house ids at writable).0
step env s (forgets house ids writable) = (forget s house ids writable).0

unfoldable pub run : Platform → Store → List Call → Store
run env s [] = s
run env s (c ∷ cs) = run env (step env s c) cs

record IsMap (s : Store) : Type 0 where
  entries : Distinct s.entries
  sent : Distinct s.last_sent_at

save-IsMap : (s : Store) (writable : Bool) → IsMap s → IsMap (save s writable).0
unfolding save
save-IsMap s writable h = ground arith

write-IsMap : (env : Platform) (s : Store) (e : Event) → IsMap s → IsMap (write env s e)
unfolding write
write-IsMap env s e h = elim (Bool-cases (recorded e)) [
  | inl counted ↦
      rw (counted, write)
        (record { entries = insert-Distinct _ _ s.entries h.entries; sent = h.sent })
  | inr ignored ↦ rw (ignored, write) h
]

step-IsMap : (env : Platform) (s : Store) (c : Call) → IsMap s → IsMap (step env s c)
unfolding step complete_digest forget
step-IsMap env s (writes e) h = write-IsMap env s e h
step-IsMap env s (saves writable) h = save-IsMap s writable h
step-IsMap env s (completes house ids at writable) h = save-IsMap _ writable (record {
  entries = retain-Distinct (kept_key ids) s.entries h.entries;
  sent = insert-Distinct house at s.last_sent_at h.sent;
})
step-IsMap env s (forgets house ids writable) h = save-IsMap _ writable (record {
  entries = retain-Distinct (kept_key ids) s.entries h.entries;
  sent = delete-Distinct house s.last_sent_at h.sent;
})

run-IsMap : (env : Platform) (s : Store) (cs : List Call) → IsMap s → IsMap (run env s cs)
unfolding run
run-IsMap env s [] h = h
run-IsMap env s (c ∷ cs) h = run-IsMap env (step env s c) cs (step-IsMap env s c h)

abbrev or_else : {V : Type 0} → Option V → Option V → Option V
or_else (some v) o = some v
or_else none o = o

lookup-load_entries :
    (k : Key) (es m : Map Key Entry)
    → Distinct es
    → lookup k (load_entries (snapshot_entries es) m) ≡ or_else (lookup k es) (lookup k m)
unfolding load_entries snapshot_entries lookup
lookup-load_entries k [] m d = refl
lookup-load_entries k ((j, e) ∷ es) m d =
    lookup-load_entries k es (insert j e m) d.1
    ∙ ground (arith, lookup-insert j k e m, keys_equal_iff j k, ap (λ x. lookup x es), d.0)

lookup-load_sent :
    (k : Text) (es m : Map Text Instant)
    → Distinct es
    → lookup k (load_sent es m) ≡ or_else (lookup k es) (lookup k m)
unfolding load_sent lookup
lookup-load_sent k [] m d = refl
lookup-load_sent k ((j, e) ∷ es) m d =
    lookup-load_sent k es (insert j e m) d.1
    ∙ ground (arith, lookup-insert j k e m, texts_equal_iff j k, ap (λ x. lookup x es), d.0)

abbrev pub Same : Store → Store → Type 0
Same s t =
    ((k : Key) → lookup k s.entries ≡ lookup k t.entries)
    × ((house : Text) → lookup house s.last_sent_at ≡ lookup house t.last_sent_at)

or_else-none : {V : Type 0} (o : Option V) → or_else o none ≡ o
or_else-none none = refl
or_else-none (some v) = refl

reload-Same :
    (s : Store) → IsMap s → is_empty s.path ≡ false → Same (new_store s.path (save s true).0.disk) s
unfolding save new_store lookup
reload-Same s h named =
    rw (named, save)
      (
        (λ k. lookup-load_entries k s.entries [] h.entries ∙ or_else-none (lookup k s.entries)),
        (λ k. lookup-load_sent k s.last_sent_at [] h.sent ∙ or_else-none (lookup k s.last_sent_at)),
      )

save-path : (s : Store) (writable : Bool) → (save s writable).0.path ≡ s.path
unfolding save
save-path s writable = ground arith

step-path : (env : Platform) (s : Store) (c : Call) → (step env s c).path ≡ s.path
unfolding step complete_digest forget write
step-path env s (writes e) = ground arith
step-path env s (saves writable) = save-path s writable
step-path env s (completes house ids at writable) = save-path _ writable
step-path env s (forgets house ids writable) = save-path _ writable

run-path : (env : Platform) (s : Store) (cs : List Call) → (run env s cs).path ≡ s.path
unfolding run
run-path env s [] = refl
run-path env s (c ∷ cs) = run-path env (step env s c) cs ∙ step-path env s c

-- A restart loses nothing: after any history of a store with a path that starts without a file,
-- a successful save and a new start from the file give back every counter and every sending
-- time.
pub run-reload :
    (env : Platform) (path : Text) (cs : List Call)
    → is_empty path ≡ false
    → Same
        (new_store
          (run env (new_store path none) cs).path
          (save (run env (new_store path none) cs) true).0.disk)
        (run env (new_store path none) cs)
unfolding new_store
run-reload env path cs named =
    reload-Same (run env (new_store path none) cs)
      (run-IsMap env (new_store path none) cs (record { entries = tt; sent = tt }))
      (ap is_empty (run-path env (new_store path none) cs) ∙ named)
