-- ===== src/Config/Reload.antt =====
-- The reload of cmd/teendns/main.go on a hangup signal, with Reload of
-- internal/admin/server.go. The three steps take different locks, so that an update of the
-- administration can come between any two of them: each is a definition of its own, and the file is
-- what it decoded to when it was read.
use teen_dns.Base.{Text, List, Option, none, some, ok, err}
use teen_dns.Platform.{Platform}
use teen_dns.Policy.Store.{StoreError, Store, replace}
use teen_dns.Config.{Config}
use teen_dns.Config.Load.{StoredConfig, LoadError, load}
use teen_dns.Admin.{Control, settle_config}

pub data ReloadError : Type 0 where
  not_loaded : LoadError → ReloadError
  not_replaced : StoreError → ReloadError

abbrev pub stored_profiles_of : Control → Store × Option StoreError → Control × Option StoreError
stored_profiles_of s (store, e) = (record s { profiles = store }, e)

-- profiles.Replace, which takes the place of the active profiles
unfoldable pub reload_profiles : Platform → Control → Config → Control × Option StoreError
reload_profiles env s updated = stored_profiles_of s (replace env s.profiles updated.profiles)

-- Server.Reload: the profiles are those that Replace has normalized in place.
unfoldable pub reload_config : Platform → Control → Config → Control
reload_config env s updated = record s { config = settle_config env updated }

unfoldable pub reload_loaded : Platform → Control → Config → Control × Option ReloadError
unfolding reload_profiles reload_config
reload_loaded env s updated =
    let (out, e) = reload_profiles env s updated in
    elim e [
      | some bad ↦ (out, some (not_replaced bad))
      | none ↦ (reload_config env out updated, none)
    ]

-- The body of the loop over the signals, where nothing comes in between.
unfoldable pub reload_file :
    Platform
    → (Text → Option (List Text))
    → Control
    → Option StoredConfig
    → Control × Option ReloadError
unfolding reload_loaded
reload_file env files s stored = elim (load env files stored) [
  | err e ↦ (s, some (not_loaded e))
  | ok updated ↦ reload_loaded env s updated
]
