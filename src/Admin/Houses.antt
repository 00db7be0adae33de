-- ===== src/Admin/Houses.antt =====
-- Invitations, registration and the removal of a house. Catalogue files, SHA-256, mail and the
-- random tokens are arguments; the identity of a house or profile is the first twelve letters of
-- its token.
pub mod Invitations
pub mod Left
pub mod Removal
use teen_dns.Base.{
  ℕ, zero, suc, ◌+◌, ◌*◌, Bool, true, false, not, ◌&&◌, ◌||◌, ltb, leb, if◌then◌else◌, List, [],
  ◌∷◌, ◌++◌, length, Option, none, some, Text, codes, texts_equal, is_empty, trim_space, Result, ok,
  err, ◌>>=◌, ◌>>◌, require,
}
use teen_dns.Platform.{Platform, Instant, second}
use teen_dns.Policy.{Profile, RuleGroup, allow}
use teen_dns.Policy.Schedule.{default_time_zone}
use teen_dns.Config.{House, Invitation, Config}
use teen_dns.Digest.{Store, forget}
use teen_dns.Admin.{Control, UpdateError, update}

abbrev pub invitation_validity : ℕ
invitation_validity = 7 * 24 * 3600 * second

abbrev pub is_unused : Option Instant → Bool
is_unused none = true
is_unused (some at) = false

-- The test of findValidInvitationIndex.
unfoldable pub valid_invitation : Text → Instant → Invitation → Bool
valid_invitation wanted now i =
    is_unused i.used_at && not (ltb i.expires_at now) && texts_equal i.code_hash wanted

unfoldable pub find_valid_invitation : List Invitation → Text → Instant → Option Invitation
find_valid_invitation [] wanted now = none
find_valid_invitation (i ∷ is) wanted now =
    let rest = find_valid_invitation is wanted now in
    if valid_invitation wanted now i then some i else rest

abbrev pub prepend : Invitation → Option (List Invitation) → Option (List Invitation)
prepend i none = none
prepend i (some is) = some (i ∷ is)

-- The first valid invitation is marked as used, and its address is taken out.
unfoldable pub use_invitation :
    Text → Instant → Instant → List Invitation → Option (List Invitation)
use_invitation wanted now used [] = none
use_invitation wanted now used (i ∷ is) =
    let rest = prepend i (use_invitation wanted now used is) in
    if valid_invitation wanted now i
    then some (record i { used_at = some used; email = [] } ∷ is)
    else rest

-- createInvitation: what its update makes of the configuration.
unfoldable pub add_invitation : Text → Text → Instant → Config → Config
add_invitation code_hash email now cfg = record cfg {
  invitations =
      cfg.invitations
      ++ record {
        code_hash = code_hash;
        email = email;
        created_at = now;
        expires_at = now + invitation_validity;
        used_at = none;
      }
        ∷ [];
}

pub data RegisterError : Type 0 where
  names_required names_too_long bad_invitation no_randomness bad_preset : RegisterError
  not_updated : UpdateError → RegisterError

pub record Registration : Type 0 where
  pub invitation_code : Text
  pub house_name : Text
  pub profile_name : Text

-- The outside of one registration: the tokens, the groups of the preset (`none` where presetGroups
-- fails), the readings of the clock, and whether the file can be written.
pub record Supplies : Type 0 where
  pub house_token : Option Text
  pub house_id_token : Option Text
  pub profile_token : Option Text
  pub groups : Option (List RuleGroup)
  pub found_at : Instant
  pub checked_at : Instant
  pub used_at : Instant
  pub writable : Bool

-- token[:12]
unfoldable pub first_letters : ℕ → Text → Text
first_letters zero s = []
first_letters (suc n) [] = []
first_letters (suc n) (c ∷ s) = c ∷ first_letters n s

abbrev pub given : {A : Type 0} → Option A → RegisterError → Result RegisterError A
given none e = err e
given (some a) e = ok a

unfoldable pub new_house : (Text → Text) → Text → Text → Text → Text → House
new_house hash name email token id_token = record {
  id = first_letters 12 id_token;
  name = name;
  admin_token_hash = hash token;
  time_zone = default_time_zone;
  email = email;
  emails = if is_empty email then [] else email ∷ [];
}

unfoldable pub new_profile : Text → Text → Text → Text → List RuleGroup → Profile
new_profile suffix house label token groups = record {
  id = first_letters 12 token;
  house_id = house;
  label = label;
  hostname = codes "p-" ++ token ++ b'.' ∷ suffix;
  disabled = false;
  default_action = allow;
  version = 1;
  rules = [];
  groups = groups;
  pauses = [];
  time_zone = [];
  location = none;
}

-- What registerHouse checks and makes before its update.
unfoldable pub prepare :
    (Text → Text) → Text → Config → Registration → Supplies → Result RegisterError (House × Profile)
prepare hash suffix cfg input supplies = do
  let house_name = trim_space input.house_name
  let profile_name = trim_space input.profile_name
  require (not (is_empty house_name || is_empty profile_name)) names_required
  require (not (ltb 80 (length house_name) || ltb 80 (length profile_name))) names_too_long
  invitation ←
      given
        (find_valid_invitation cfg.invitations (hash (trim_space input.invitation_code))
          supplies.found_at)
        bad_invitation
  token ← given supplies.house_token no_randomness
  id_token ← given supplies.house_id_token no_randomness
  profile_token ← given supplies.profile_token no_randomness
  groups ← given supplies.groups bad_preset
  let house = new_house hash house_name invitation.email token id_token
  ok (house, new_profile suffix house.id profile_name profile_token groups)

abbrev pub joined : Config → House → Profile → Option (List Invitation) → Option Config
joined cfg house p none = none
joined cfg house p (some is) = some (record cfg {
  invitations = is;
  houses = cfg.houses ++ house ∷ [];
  profiles = cfg.profiles ++ p ∷ [];
})

abbrev pub registered :
    House × Profile
    → Control × Option UpdateError
    → Control × Result RegisterError (House × Profile)
registered made (s, none) = (s, ok made)
registered made (s, some e) = (s, err (not_updated e))

-- registerHouse
unfoldable pub register_house :
    Platform
    → (Text → Text)
    → Text
    → Control
    → Registration
    → Supplies
    → Control × Result RegisterError (House × Profile)
unfolding prepare
register_house env hash suffix s input supplies =
    elim (prepare hash suffix s.config input supplies) [
      | err e ↦ (s, err e)
      | ok made ↦ registered made (
          update env s
            (joined s.config made.0 made.1 (
              use_invitation (hash (trim_space input.invitation_code)) supplies.checked_at
                supplies.used_at s.config.invitations))
            supplies.writable)
    ]

-- slices.Delete of the first house with the id; `none` where there is none
abbrev pub prepend_house : House → Option (List House) → Option (List House)
prepend_house h none = none
prepend_house h (some hs) = some (h ∷ hs)

unfoldable pub remove_house : Text → List House → Option (List House)
remove_house id [] = none
remove_house id (h ∷ hs) =
    let rest = prepend_house h (remove_house id hs) in if texts_equal h.id id then some hs else rest

unfoldable pub remaining : Text → List Profile → List Profile
remaining house [] = []
remaining house (p ∷ ps) =
    let rest = remaining house ps in if texts_equal p.house_id house then rest else p ∷ rest

unfoldable pub removed_ids : Text → List Profile → List Text
removed_ids house [] = []
removed_ids house (p ∷ ps) =
    let rest = removed_ids house ps in if texts_equal p.house_id house then p.id ∷ rest else rest

abbrev pub without_house : Config → Text → Option (List House) → Option Config
without_house cfg id none = none
without_house cfg id (some hs) =
    some (record cfg { houses = hs; profiles = remaining id cfg.profiles })

-- `s.digest.Forget`, only after the update has succeeded; its own failure is logged.
abbrev pub purge :
    Store
    → Text
    → List Text
    → Bool
    → Control × Option UpdateError
    → Control × Store × Option UpdateError
purge observed id ids purged (s, none) = (s, (forget observed id ids purged).0, none)
purge observed id ids purged (s, some e) = (s, observed, some e)

-- deleteHouse, for the operator
unfoldable pub delete_house :
    Platform → Control → Store → Text → Bool → Bool → Control × Store × Option UpdateError
delete_house env s observed id writable purged =
    purge observed id (removed_ids id s.config.profiles) purged
      (update env s (without_house s.config id (remove_house id s.config.houses)) writable)
