-- ===== src/Admin.antt =====
-- internal/admin/server.go: the control plane. This file models `update`, through which every change
-- of the configuration goes; Houses models registration, invitations and the removal of
-- a house, Access who may do what, Groups the editing of groups, Emails the addresses of a
-- house, Links login links,
-- Profiles the changes of a profile.
pub mod Update
pub mod Houses
pub mod Access
pub mod Groups
pub mod Emails
pub mod Links
pub mod Profiles
pub mod Resource
pub mod Youth
pub mod Letters
pub mod Console
pub mod Packages
pub mod Server
pub mod Devices
mod Samples
use teen_dns.Base.{
  Bool, not, if◌then◌else◌, List, [], ◌∷◌, Option, none, some, Text, Result, ok, err,
}
use teen_dns.Platform.{Platform}
use teen_dns.Policy.{Profile}
use teen_dns.Policy.Store.{Store, StoreError, new_store, normalize_rules, normalize_groups}
use teen_dns.Config.{Config, apply_house_time_zones}

-- What `update` changes: the configuration in memory, the one that was written to the file (where
-- the zones of the profiles are left out, since Load derives them), and the active profiles.
pub record Control : Type 0 where
  pub config : Config
  pub disk : Config
  pub profiles : Store

pub data UpdateError : Type 0 where
  rejected not_written : UpdateError
  bad_zone : Text → UpdateError
  bad_profiles not_activated : StoreError → UpdateError

abbrev pub ok_or : {E A : Type 0} → A → Result E A → A
ok_or a (ok b) = b
ok_or a (err e) = a

-- NewStore normalizes the rules and the domains of the enabled profiles in place: this is what the
-- slices of its argument hold after it has succeeded.
unfoldable pub settle : Platform → Profile → Profile
settle env p = if p.disabled then p else record p {
  rules = ok_or p.rules (normalize_rules env p.id p.rules);
  groups = ok_or p.groups (normalize_groups env p.id [] p.groups);
}

unfoldable pub settle_all : Platform → List Profile → List Profile
settle_all env [] = []
settle_all env (p ∷ ps) = settle env p ∷ settle_all env ps

abbrev pub settle_config : Platform → Config → Config
settle_config env cfg = record cfg { profiles = settle_all env cfg.profiles }

-- profiles.Replace, and the assignment behind it.
unfoldable pub activate : Platform → Control → Config → Control × Option UpdateError
activate env s next = elim (new_store env next.profiles) [
  | err e ↦ (s, some (not_activated e))
  | ok store ↦ (record s { config = settle_config env next; profiles = store }, none)
]

unfoldable pub write_config : Platform → Control → Config → Bool → Control × Option UpdateError
write_config env s next writable =
    if not writable then (s, some not_written) else activate env (record s { disk = next }) next

unfoldable pub validate : Platform → Control → Config → Bool → Control × Option UpdateError
validate env s next writable = elim (new_store env next.profiles) [
  | err e ↦ (s, some (bad_profiles e))
  | ok _ ↦ write_config env s (settle_config env next) writable
]

unfoldable pub zone_config : Platform → Control → Config → Bool → Control × Option UpdateError
zone_config env s next writable = elim (apply_house_time_zones env next) [
  | err house ↦ (s, some (bad_zone house))
  | ok zoned ↦ validate env s zoned writable
]

-- update: `changed` is what `mutate` makes of the configuration, `none` where it fails.
unfoldable pub update : Platform → Control → Option Config → Bool → Control × Option UpdateError
unfolding zone_config
update env s none writable = (s, some rejected)
update env s (some next) writable = zone_config env s next writable
