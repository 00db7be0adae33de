-- ===== src/Admin/Houses/Invitations.antt =====
-- An invitation lets in one household.
use teen_dns.Base.{
  ℕ, ◌+◌, ◌≡◌, refl, ap, sym, ◌∙◌, ◌⊎◌, inl, inr, true, false, if◌then◌else◌, List, [], ◌∷◌, Option,
  none, some, Text, arith, trim_space, Bool-cases, Option-cases, ok, err, Result-cases, ok_inj,
  subst,
}
use teen_dns.Platform.{Platform, Instant}
use teen_dns.Policy.{Profile}
use teen_dns.Config.{House, Invitation, Config, apply_house_time_zones, house_zones}
use teen_dns.Admin.{Control, UpdateError, update}
use teen_dns.Admin.Update.{update-Done}
use teen_dns.Admin.Houses.{
  valid_invitation, use_invitation, prepend, RegisterError, not_updated, Registration, Supplies,
  prepare, joined, registered, register_house,
}

-- How many invitations a code opens at a time.
unfoldable pub valid_count : Text → Instant → List Invitation → ℕ
valid_count wanted now [] = 0
valid_count wanted now (i ∷ is) =
    let rest = valid_count wanted now is in if valid_invitation wanted now i then rest + 1 else rest

abbrev Fewer : Text → Instant → List Invitation → Option (List Invitation) → Type 0
Fewer wanted now is none = Unit
Fewer wanted now is (some js) = valid_count wanted now js + 1 ≡ valid_count wanted now is

prepend-Fewer :
    (wanted : Text) (now : Instant) (i : Invitation) (is : List Invitation)
    (o : Option (List Invitation))
    → valid_invitation wanted now i ≡ false
    → Fewer wanted now is o
    → Fewer wanted now (i ∷ is) (prepend i o)
unfolding valid_count
prepend-Fewer wanted now i is none h f = tt
prepend-Fewer wanted now i is (some js) h f = rw h f

used_up :
    (wanted : Text) (now used : Instant) (i : Invitation)
    → valid_invitation wanted now (record i { used_at = some used; email = [] }) ≡ false
unfolding valid_invitation
used_up wanted now used i = refl

used-count :
    (wanted : Text) (now used : Instant) (i : Invitation) (is : List Invitation)
    → valid_invitation wanted now i ≡ true
    → Fewer wanted now (i ∷ is) (some (record i { used_at = some used; email = [] } ∷ is))
unfolding valid_count
used-count wanted now used i is h = rw (used_up wanted now used i, h) refl

use_invitation-Fewer :
    (wanted : Text) (now used : Instant) (is : List Invitation)
    → Fewer wanted now is (use_invitation wanted now used is)
unfolding use_invitation
use_invitation-Fewer wanted now used [] = tt
use_invitation-Fewer wanted now used (i ∷ is) = elim (Bool-cases (valid_invitation wanted now i)) [
  | inl valid ↦ rw valid (used-count wanted now used i is valid)
  | inr passed ↦ rw passed (
      prepend-Fewer wanted now i is (use_invitation wanted now used is) passed
        (use_invitation-Fewer wanted now used is))
]

pub zones-invitations :
    (env : Platform) (cfg out : Config)
    → apply_house_time_zones env cfg ≡ ok out
    → out.invitations ≡ cfg.invitations
unfolding apply_house_time_zones
zones-invitations env cfg out h = elim (Result-cases (house_zones env cfg.houses [])) [
  | inr (e, bad) ↦ ground (arith, bad, h)
  | inl (z, good) ↦ ap (λ (c : Config). c.invitations) (sym (ok_inj _ _ (rw good at h)))
]

registered-ok :
    (made : House × Profile) (u : Control × Option UpdateError)
    → u.1 ≡ none
    → registered made u ≡ (u.0, ok made)
registered-ok made (s, none) h = refl
registered-ok made (s, some e) h = ground arith

registered-err :
    (made : House × Profile) (u : Control × Option UpdateError) (e : UpdateError)
    → u.1 ≡ some e
    → registered made u ≡ (u.0, err (not_updated e))
registered-err made (s, none) e h = ground arith
registered-err made (s, some f) e h = ground (arith, h)

-- The configuration that a registration asks for has one opening less.
joined-count :
    (wanted : Text) (now used : Instant) (cfg next : Config) (h : House) (p : Profile)
    → joined cfg h p (use_invitation wanted now used cfg.invitations) ≡ some next
    → valid_count wanted now next.invitations + 1 ≡ valid_count wanted now cfg.invitations
joined-count wanted now used cfg next h p e =
    elim (Option-cases (use_invitation wanted now used cfg.invitations)) [
      | inl missing ↦ absurd (ground (arith, missing, e))
      | inr (js, found) ↦
          let same : js ≡ next.invitations = ground (arith, rw found at e) in
          subst (λ x. valid_count wanted now x + 1 ≡ valid_count wanted now cfg.invitations) same
            (subst (Fewer wanted now cfg.invitations) found
              (use_invitation-Fewer wanted now used cfg.invitations))
    ]

-- A registration that succeeds leaves its invitation code with one valid invitation less, at
-- the time at which the code was checked. One that fails leaves the configuration and the
-- active profiles as they were.
pub register_house-once :
    (env : Platform) (hash : Text → Text) (suffix : Text) (s : Control) (input : Registration)
    (supplies : Supplies)
    → ((made : House × Profile) × ((register_house env hash suffix s input supplies).1 ≡ ok made)
        × (valid_count
                (hash (trim_space input.invitation_code))
                supplies.checked_at
                (register_house env hash suffix s input supplies).0.config.invitations
              + 1
            ≡ valid_count
                (hash (trim_space input.invitation_code))
                supplies.checked_at
                s.config.invitations))
      ⊎ ((e : RegisterError) × ((register_house env hash suffix s input supplies).1 ≡ err e)
          × ((register_house env hash suffix s input supplies).0.config ≡ s.config)
          × ((register_house env hash suffix s input supplies).0.profiles ≡ s.profiles))
unfolding register_house
register_house-once env hash suffix s input supplies =
    let wanted = hash (trim_space input.invitation_code) in
    let used = use_invitation wanted supplies.checked_at supplies.used_at s.config.invitations in
    elim (Result-cases (prepare hash suffix s.config input supplies)) [
      | inr (e, bad) ↦ rw (bad, register_house) (inr (e, refl, refl, refl))
      | inl (made, good) ↦
          let changed = joined s.config made.0 made.1 used in
          let u = update env s changed supplies.writable in
          elim (update-Done env s changed supplies.writable) [
            | inr (e, failed, (config_same, profiles_same, disk)) ↦
                rw (good, register_house, registered-err made u e failed)
                  (inr (_, refl, config_same, profiles_same))
            | inl (fine, (next, zoned, asked, zones, written, kept, active)) ↦
                rw (good, register_house, registered-ok made u fine)
                  (inl (
                    made,
                    refl,
                    (ap (λ x. valid_count wanted supplies.checked_at x + 1)
                          (ap (λ (c : Config). c.invitations) kept
                            ∙ ap (λ (c : Config). c.invitations) written
                            ∙ zones-invitations env next zoned zones)
                        ∙ joined-count wanted supplies.checked_at supplies.used_at s.config next
                            made.0 made.1 asked),
                  ))
          ]
    ]
