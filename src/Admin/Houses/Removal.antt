-- ===== src/Admin/Houses/Removal.antt =====
-- A house that is deleted leaves nothing behind.
use teen_dns.Base.{
  ◌≡◌, refl, ap, sym, ◌∙◌, ◌⊎◌, inl, inr, Bool, true, false, any, List, [], ◌∷◌, map, Option, none,
  some, Text, texts_equal, arith, Bool-cases, pair_eq, ok, Result-cases, ok_inj, lookup, Map,
  select, not, In, texts_equal_iff,
}
use teen_dns.Platform.{Platform}
use teen_dns.Policy.{Profile}
use teen_dns.Config.{House, Config, apply_house_time_zones, house_zones, zone_profiles}
use teen_dns.Digest.{Key, key_eq, forget, Store}
use teen_dns.Digest.Counts.{forget_lem}
use teen_dns.Admin.{Control, UpdateError, settle, settle_all, settle_config, update}
use teen_dns.Admin.Update.{update-Done}
use teen_dns.Admin.Houses.Left.{TakenOut, house_ids, house_ids-zones, without_house-TakenOut}
use teen_dns.Admin.Houses.{remove_house, remaining, removed_ids, without_house, purge, delete_house}

-- The house and the id of each profile.
abbrev pub owners : List Profile → List (Text × Text)
owners ps = map (λ (p : Profile). (p.house_id, p.id)) ps

pub owners-settle_all :
    (env : Platform) (ps : List Profile) → owners (settle_all env ps) ≡ owners ps
unfolding settle_all settle
owners-settle_all env [] = refl
owners-settle_all env (p ∷ ps) = elim (Bool-cases p.disabled) [
  | inl disabled ↦ rw (disabled, settle) (ap (◌∷◌ (p.house_id, p.id)) (owners-settle_all env ps))
  | inr enabled ↦ rw (enabled, settle) (ap (◌∷◌ (p.house_id, p.id)) (owners-settle_all env ps))
]

owners-zone_profiles :
    (zones : Map Text Text) (ps : List Profile) → owners (zone_profiles zones ps) ≡ owners ps
unfolding zone_profiles
owners-zone_profiles zones [] = refl
owners-zone_profiles zones (p ∷ ps) = ap (◌∷◌ (p.house_id, p.id)) (owners-zone_profiles zones ps)

pub owners-zones :
    (env : Platform) (cfg out : Config)
    → apply_house_time_zones env cfg ≡ ok out
    → owners out.profiles ≡ owners cfg.profiles
unfolding apply_house_time_zones
owners-zones env cfg out h = elim (Result-cases (house_zones env cfg.houses [])) [
  | inr (e, bad) ↦ absurd (ground (arith, bad, h))
  | inl (z, good) ↦
      ap (λ (c : Config). owners c.profiles) (sym (ok_inj _ _ (rw good at h)))
      ∙ owners-zone_profiles z.1 cfg.profiles
]

-- The profiles that stay are those of other houses.
abbrev pub of_others : Text → List (Text × Text) → List (Text × Text)
of_others id os = select (λ (o : Text × Text). not (texts_equal o.0 id)) os

owners-remaining :
    (house : Text) (ps : List Profile) → owners (remaining house ps) ≡ of_others house (owners ps)
unfolding remaining select
owners-remaining house [] = refl
owners-remaining house (p ∷ ps) = elim (Bool-cases (texts_equal p.house_id house)) [
  | inl own ↦ rw own (owners-remaining house ps)
  | inr other ↦ rw other (ap (◌∷◌ (p.house_id, p.id)) (owners-remaining house ps))
]

-- Some profile of the house has the id.
abbrev pub Owns : Text → List Profile → Text → Type 0
Owns house ps id = In (house, id) (owners ps)

removed_ids-Owns :
    (house : Text) (ps : List Profile) (id : Text)
    → Owns house ps id
    → any (texts_equal id) (removed_ids house ps) ≡ true
unfolding removed_ids any
removed_ids-Owns house [] id i = absurd i.0
removed_ids-Owns house (p ∷ ps) id i = elim (Bool-cases (texts_equal p.house_id house)) [
  | inl own ↦ elim i [
    | inl e ↦
        let same : texts_equal id p.id ≡ true =
          (texts_equal_iff id p.id).1 (ap (λ (o : Text × Text). o.1) e) in
        rw (own, same) refl
    | inr j ↦ let rest = removed_ids-Owns house ps id j in rw own (ground (arith, rest))
  ]
  | inr other ↦ elim i [
    | inl e ↦
        let own : texts_equal p.house_id house ≡ true =
          (texts_equal_iff p.house_id house).1 (sym (ap (λ (o : Text × Text). o.0) e)) in
        absurd (ground (arith, own, other))
    | inr j ↦ rw other (removed_ids-Owns house ps id j)
  ]
]

removed_ids_inv :
    (house : Text) (ps : List Profile) (id : Text)
    → any (texts_equal id) (removed_ids house ps) ≡ true
    → Owns house ps id
unfolding removed_ids any
removed_ids_inv house [] id h = absurd (ground (arith, h))
removed_ids_inv house (p ∷ ps) id h = elim (Bool-cases (texts_equal p.house_id house)) [
  | inr other ↦ inr (removed_ids_inv house ps id (rw other at h))
  | inl own ↦ elim (Bool-cases (texts_equal id p.id)) [
    | inl same ↦ inl (
        pair_eq (sym ((texts_equal_iff p.house_id house).0 own)) ((texts_equal_iff id p.id).0 same))
    | inr differs ↦ inr (removed_ids_inv house ps id (rw (own, differs) at h))
  ]
]

not_owned :
    (house : Text) (ps : List Profile) (id : Text)
    → ¬ Owns house ps id
    → any (texts_equal id) (removed_ids house ps) ≡ false
not_owned house ps id foreign = elim (Bool-cases (any (texts_equal id) (removed_ids house ps))) [
  | inl owned ↦ absurd (foreign (removed_ids_inv house ps id owned))
  | inr none_left ↦ none_left
]

asked_profiles :
    (cfg next : Config) (id : Text) (o : Option (List House))
    → without_house cfg id o ≡ some next
    → next.profiles ≡ remaining id cfg.profiles
asked_profiles cfg next id none h = absurd (ground arith)
asked_profiles cfg next id (some hs) h = ground (arith, h)

purge-ok :
    (observed : Store) (id : Text) (ids : List Text) (purged : Bool)
    (u : Control × Option UpdateError)
    → u.1 ≡ none
    → purge observed id ids purged u ≡ (u.0, (forget observed id ids purged).0, none)
purge-ok observed id ids purged (s, none) h = refl
purge-ok observed id ids purged (s, some e) h = absurd (ground (arith, h))

purge-err :
    (observed : Store) (id : Text) (ids : List Text) (purged : Bool)
    (u : Control × Option UpdateError) (e : UpdateError)
    → u.1 ≡ some e
    → purge observed id ids purged u ≡ (u.0, observed, some e)
purge-err observed id ids purged (s, none) e h = absurd (ground (arith, h))
purge-err observed id ids purged (s, some f) e h = ground (arith, h)

-- Deleting a house either succeeds, and then the first house with its id is out and the others are left,
-- by id and in their order, the profiles that are left are exactly those with another house, by
-- house and id and in their order, and the digest has lost exactly the counters under
-- the ids of the removed profiles, whether its file can be written or not; or it fails, and then
-- the configuration in memory, the active profiles and the digest are as before.
pub delete_house_lem :
    (env : Platform) (s : Control) (observed : Store) (id : Text) (writable purged : Bool)
    → (((delete_house env s observed id writable purged).2 ≡ none)
        × (owners (delete_house env s observed id writable purged).0.config.profiles
            ≡ of_others id (owners s.config.profiles))
        × ((rest : List House) × TakenOut id s.config.houses rest
            × (house_ids (delete_house env s observed id writable purged).0.config.houses
                ≡ house_ids rest))
        × ((k : Key)
            → Owns id s.config.profiles k.profile_id
            → lookup k (delete_house env s observed id writable purged).1.entries ≡ none)
        × ((k : Key)
            → ¬ Owns id s.config.profiles k.profile_id
            → lookup k (delete_house env s observed id writable purged).1.entries
              ≡ lookup k observed.entries))
      ⊎ ((e : UpdateError) × ((delete_house env s observed id writable purged).2 ≡ some e)
          × ((delete_house env s observed id writable purged).0.config ≡ s.config)
          × ((delete_house env s observed id writable purged).0.profiles ≡ s.profiles)
          × ((delete_house env s observed id writable purged).1 ≡ observed))
unfolding delete_house
delete_house_lem env s observed id writable purged =
    let ids = removed_ids id s.config.profiles in
    let changed = without_house s.config id (remove_house id s.config.houses) in
    let u = update env s changed writable in
    elim (update-Done env s changed writable) [
      | inr (e, failed, (config_same, profiles_same, disk)) ↦
          rw (purge-err observed id ids purged u e failed)
            (inr (e, refl, config_same, profiles_same, refl))
      | inl (fine, (next, zoned, asked, zones, written, kept, active)) ↦
          let left : owners u.0.config.profiles ≡ of_others id (owners s.config.profiles) =
            ap (λ (c : Config). owners c.profiles) kept
            ∙ owners-settle_all env u.0.disk.profiles
            ∙ ap (λ (c : Config). owners c.profiles) written
            ∙ owners-settle_all env zoned.profiles
            ∙ owners-zones env next zoned zones
            ∙ ap owners (asked_profiles s.config next id (remove_house id s.config.houses) asked)
            ∙ owners-remaining id s.config.profiles in
          let houses : house_ids u.0.config.houses ≡ house_ids next.houses =
            ap (λ (c : Config). house_ids c.houses) (kept ∙ ap (settle_config env) written)
            ∙ house_ids-zones env next zoned zones in
          rw (purge-ok observed id ids purged u fine) (
            inl (
              refl,
              left,
              (next.houses, without_house-TakenOut s.config next id asked, houses),
              λ k own.
                  (forget_lem observed id ids purged k 0 0).0
                  ∙ rw (removed_ids-Owns id s.config.profiles k.profile_id own) refl,
              λ k foreign.
                  (forget_lem observed id ids purged k 0 0).0
                  ∙ rw (not_owned id s.config.profiles k.profile_id foreign) refl,
            ))
    ]
