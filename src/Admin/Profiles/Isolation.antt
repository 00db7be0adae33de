-- ===== src/Admin/Profiles/Isolation.antt =====
-- A change of one profile stays within its household.
use teen_dns.Base.{
  ◌+◌, ◌≡◌, refl, ap, subst, ◌∙◌, inl, inr, true, not, List, [], ◌∷◌, Option, none, some, Text,
  texts_equal, texts_equal_iff, is_empty, trim_space, select, arith, map, Bool-cases, Option-cases,
  ok, Result-cases, ok_inj,
}
use teen_dns.Platform.{Platform}
use teen_dns.Policy.{Profile}
use teen_dns.Config.{House, Config}
use teen_dns.Admin.Groups.{set_package}
use teen_dns.Admin.Houses.Removal.{owners}
use teen_dns.Admin.Profiles.{
  ProfileRequest, profile_by_id, set_profile, find_house, set_zone, bump_siblings, change_zone,
  new_groups, edit_profile, Change, edit, disable, rotate, put_package, rotated, disabled_profile,
  rewrite_profile, change_profile,
}

-- The profiles and the houses of other households, in their order.
abbrev pub foreign_profiles : Text → List Profile → List Profile
foreign_profiles house = select (λ (p : Profile). not (texts_equal p.house_id house))

abbrev pub house_ids : List House → List Text
house_ids hs = map (λ (h : House). h.id) hs

abbrev pub foreign_houses : Text → List House → List House
foreign_houses house = select (λ (h : House). not (texts_equal h.id house))

profile_by_id-id :
    (id : Text) (ps : List Profile) (p : Profile)
    → profile_by_id id ps ≡ some p
    → texts_equal p.id id ≡ true
unfolding profile_by_id
profile_by_id-id id [] p h = ground arith
profile_by_id-id id (q ∷ qs) p h = elim (Bool-cases (texts_equal q.id id)) [
  | inl same ↦ ground (arith, same, h)
  | inr other ↦ profile_by_id-id id qs p (rw other at h)
]

set_profile-foreign :
    (id : Text) (new p : Profile) (ps : List Profile)
    → profile_by_id id ps ≡ some p
    → new.house_id ≡ p.house_id
    → foreign_profiles p.house_id (set_profile id new ps) ≡ foreign_profiles p.house_id ps
unfolding profile_by_id set_profile select
set_profile-foreign id new p [] h e = ground arith
set_profile-foreign id new p (q ∷ qs) h e = elim (Bool-cases (texts_equal q.id id)) [
  | inl same ↦ ground (
    arith,
    same,
    h,
    (texts_equal_iff new.house_id p.house_id).1 e,
    (texts_equal_iff p.house_id p.house_id).1 refl,
  )
  | inr other ↦ rw other (ground (arith, set_profile-foreign id new p qs (rw other at h) e))
]

set_profile-by_id :
    (id : Text) (new p : Profile) (ps : List Profile)
    → profile_by_id id ps ≡ some p
    → new.id ≡ p.id
    → profile_by_id id (set_profile id new ps) ≡ some new
unfolding profile_by_id set_profile
set_profile-by_id id new p [] h e = ground arith
set_profile-by_id id new p (q ∷ qs) h e = elim (Bool-cases (texts_equal q.id id)) [
  | inl same ↦
      let own : texts_equal new.id id ≡ true =
        ap (λ x. texts_equal x id) e ∙ profile_by_id-id id (q ∷ qs) p h in
      rw (same, own) refl
  | inr other ↦ rw (other, other) (set_profile-by_id id new p qs (rw other at h) e)
]

bump-foreign :
    (p : Profile) (ps : List Profile)
    → foreign_profiles p.house_id (bump_siblings p ps) ≡ foreign_profiles p.house_id ps
unfolding bump_siblings select
bump-foreign p [] = refl
bump-foreign p (q ∷ qs) = ground (arith, bump-foreign p qs)

bump-by_id :
    (id : Text) (p : Profile) (ps : List Profile)
    → profile_by_id id ps ≡ some p
    → profile_by_id id (bump_siblings p ps) ≡ some p
unfolding bump_siblings profile_by_id
bump-by_id id p [] h = ground arith
bump-by_id id p (q ∷ qs) h = elim (Bool-cases (texts_equal q.id id)) [
  | inl same ↦ ground (arith, same, h, (texts_equal_iff p.id p.id).1 refl)
  | inr other ↦ ground (arith, other, bump-by_id id p qs (rw other at h))
]

set_zone-foreign :
    (house zone : Text) (hs : List House)
    → foreign_houses house (set_zone house zone hs) ≡ foreign_houses house hs
unfolding set_zone select
set_zone-foreign house zone [] = refl
set_zone-foreign house zone (h ∷ hs) = ground (arith, set_zone-foreign house zone hs)

set_profile-owners :
    (id : Text) (new p : Profile) (ps : List Profile)
    → profile_by_id id ps ≡ some p
    → new.id ≡ p.id
    → new.house_id ≡ p.house_id
    → owners (set_profile id new ps) ≡ owners ps
unfolding profile_by_id set_profile
set_profile-owners id new p [] h same own = refl
set_profile-owners id new p (q ∷ qs) h same own = elim (Bool-cases (texts_equal q.id id)) [
  | inl first ↦ ground (arith, first, h, same, own)
  | inr other ↦
      rw other
        (ap (◌∷◌ (q.house_id, q.id)) (set_profile-owners id new p qs (rw other at h) same own))
]

bump-owners : (p : Profile) (ps : List Profile) → owners (bump_siblings p ps) ≡ owners ps
unfolding bump_siblings
bump-owners p [] = refl
bump-owners p (q ∷ qs) = ground (arith, bump-owners p qs)

set_zone-ids :
    (house zone : Text) (hs : List House) → house_ids (set_zone house zone hs) ≡ house_ids hs
unfolding set_zone
set_zone-ids house zone [] = refl
set_zone-ids house zone (h ∷ hs) = ground (arith, set_zone-ids house zone hs)

-- What a change of the profile `p` does with the configuration.
pub record Contained (id : Text) (p : Profile) (cfg out : Config) : Type 0 where
  pub profiles : foreign_profiles p.house_id out.profiles ≡ foreign_profiles p.house_id cfg.profiles
  pub houses : foreign_houses p.house_id out.houses ≡ foreign_houses p.house_id cfg.houses
  pub invitations : out.invitations ≡ cfg.invitations
  pub waitlist : out.waitlist ≡ cfg.waitlist
  pub all_owners : owners out.profiles ≡ owners cfg.profiles
  pub all_houses : house_ids out.houses ≡ house_ids cfg.houses
  pub kept :
      (q : Profile) × (profile_by_id id out.profiles ≡ some q)
      × (q.id ≡ p.id)
      × (q.house_id ≡ p.house_id)
      × (q.version ≡ p.version + 1)

-- Writing through the pointer, after the zone of the house may have changed.
written-Contained :
    (id : Text) (p new : Profile) (cfg zoned : Config)
    → profile_by_id id zoned.profiles ≡ some p
    → foreign_profiles p.house_id zoned.profiles ≡ foreign_profiles p.house_id cfg.profiles
    → foreign_houses p.house_id zoned.houses ≡ foreign_houses p.house_id cfg.houses
    → zoned.invitations ≡ cfg.invitations
    → zoned.waitlist ≡ cfg.waitlist
    → owners zoned.profiles ≡ owners cfg.profiles
    → house_ids zoned.houses ≡ house_ids cfg.houses
    → new.id ≡ p.id
    → new.house_id ≡ p.house_id
    → new.version ≡ p.version + 1
    → Contained id p cfg (record zoned { profiles = set_profile id new zoned.profiles })
written-Contained id p new cfg zoned found foreign houses invitations waitlist owned ids same own
      next =
    record {
      profiles = set_profile-foreign id new p zoned.profiles found own ∙ foreign;
      houses = houses;
      invitations = invitations;
      waitlist = waitlist;
      all_owners = set_profile-owners id new p zoned.profiles found same own ∙ owned;
      all_houses = ids;
      kept = (new, set_profile-by_id id new p zoned.profiles found same, same, own, next);
    }

record Zoned (id : Text) (p : Profile) (cfg zoned : Config) : Type 0 where
  found : profile_by_id id zoned.profiles ≡ some p
  profiles : foreign_profiles p.house_id zoned.profiles ≡ foreign_profiles p.house_id cfg.profiles
  houses : foreign_houses p.house_id zoned.houses ≡ foreign_houses p.house_id cfg.houses
  invitations : zoned.invitations ≡ cfg.invitations
  waitlist : zoned.waitlist ≡ cfg.waitlist
  all_owners : owners zoned.profiles ≡ owners cfg.profiles
  all_houses : house_ids zoned.houses ≡ house_ids cfg.houses

change_zone-Zoned :
    (env : Platform) (id : Text) (p : Profile) (zone : Option Text) (cfg zoned : Config)
    → profile_by_id id cfg.profiles ≡ some p
    → change_zone env p zone cfg ≡ ok zoned
    → Zoned id p cfg zoned
unfolding change_zone
change_zone-Zoned env id p none cfg zoned found h = subst (Zoned id p cfg) (ok_inj _ _ h) (record {
  found = found;
  profiles = refl;
  houses = refl;
  invitations = refl;
  waitlist = refl;
  all_owners = refl;
  all_houses = refl;
})
change_zone-Zoned env id p (some raw) cfg zoned found h =
    elim (Bool-cases (env.known_zone (trim_space raw))) [
      | inr unknown ↦ absurd (ground (arith, unknown, h))
      | inl known ↦ elim (Bool-cases (is_empty p.house_id)) [
        | inl bare ↦ absurd (ground (arith, known, bare, h))
        | inr housed ↦ elim (Option-cases (find_house p.house_id cfg.houses)) [
          | inl missing ↦ absurd (ground (arith, known, housed, missing, h))
          | inr (house, there) ↦ elim (Bool-cases (texts_equal house.time_zone (trim_space raw))) [
            | inl same ↦
                subst (Zoned id p cfg) (ok_inj _ _ (rw (known, housed, there, same) at h)) (record {
                  found = found;
                  profiles = refl;
                  houses = set_zone-foreign p.house_id (trim_space raw) cfg.houses;
                  invitations = refl;
                  waitlist = refl;
                  all_owners = refl;
                  all_houses = set_zone-ids p.house_id (trim_space raw) cfg.houses;
                })
            | inr new ↦
                subst (Zoned id p cfg) (ok_inj _ _ (rw (known, housed, there, new) at h)) (record {
                  found = bump-by_id id p cfg.profiles found;
                  profiles = bump-foreign p cfg.profiles;
                  houses = set_zone-foreign p.house_id (trim_space raw) cfg.houses;
                  invitations = refl;
                  waitlist = refl;
                  all_owners = bump-owners p cfg.profiles;
                  all_houses = set_zone-ids p.house_id (trim_space raw) cfg.houses;
                })
          ]
        ]
      ]
    ]

edit_profile-Contained :
    (env : Platform) (id : Text) (input : ProfileRequest) (p : Profile) (cfg out : Config)
    → profile_by_id id cfg.profiles ≡ some p
    → edit_profile env id input cfg ≡ ok out
    → Contained id p cfg out
unfolding edit_profile
edit_profile-Contained env id input p cfg out found h =
    elim (Bool-cases (is_empty (trim_space input.label))) [
      | inl bare ↦ absurd (ground (arith, found, bare, h))
      | inr named ↦ elim (Result-cases (change_zone env p input.time_zone cfg)) [
        | inr (e, bad) ↦ absurd (ground (arith, found, named, bad, h))
        | inl (zoned, good) ↦ elim (Result-cases (new_groups p.groups input.groups)) [
          | inr (e, bad) ↦ absurd (ground (arith, found, named, good, bad, h))
          | inl (groups, merged) ↦
              let z = change_zone-Zoned env id p input.time_zone cfg zoned found good in
              subst (Contained id p cfg) (ok_inj _ _ (rw (found, named, good, merged) at h)) (
                written-Contained id p _ cfg zoned z.found z.profiles z.houses z.invitations
                  z.waitlist z.all_owners z.all_houses refl refl refl)
        ]
      ]
    ]

rewrite_profile-Contained :
    (id : Text) (f : Profile → Profile) (p : Profile) (cfg out : Config)
    → profile_by_id id cfg.profiles ≡ some p
    → (f p).id ≡ p.id
    → (f p).house_id ≡ p.house_id
    → (f p).version ≡ p.version + 1
    → rewrite_profile id f cfg ≡ ok out
    → Contained id p cfg out
rewrite_profile-Contained id f p cfg out found same own next h =
    subst (Contained id p cfg) (ok_inj _ _ (rw found at h))
      (written-Contained id p (f p) cfg cfg found refl refl refl refl refl refl same own next)

-- Every change of a profile that succeeds, whatever it asks for, leaves the profiles and the houses of
-- other households, the invitations and the waiting list exactly as they were; no profile and no
-- house is added, removed or moved; and the version of the profile is the next one.
pub change_profile-Contained :
    (env : Platform) (suffix id : Text) (c : Change) (p : Profile) (cfg out : Config)
    → profile_by_id id cfg.profiles ≡ some p
    → change_profile env suffix id c cfg ≡ ok out
    → Contained id p cfg out
unfolding change_profile set_package rotated
change_profile-Contained env suffix id (edit input) p cfg out found h =
    edit_profile-Contained env id input p cfg out found h
change_profile-Contained env suffix id disable p cfg out found h =
    rewrite_profile-Contained id disabled_profile p cfg out found refl refl refl h
change_profile-Contained env suffix id (rotate token) p cfg out found h =
    rewrite_profile-Contained id (rotated suffix token) p cfg out found refl refl refl h
change_profile-Contained env suffix id (put_package offer enabled) p cfg out found h =
    rewrite_profile-Contained id (set_package offer enabled) p cfg out found refl refl refl h
