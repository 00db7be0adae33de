-- ===== src/Admin/Update.antt =====
-- What `update` leaves behind when it succeeds and when it fails.
use teen_dns.Base.{◌≡◌, refl, ◌⊎◌, inl, inr, Bool, Option, none, some, Bool-cases, ok, Result-cases}
use teen_dns.Platform.{Platform}
use teen_dns.Policy.Store.{StoreError, new_store}
use teen_dns.Config.{Config, apply_house_time_zones}
use teen_dns.Admin.{
  Control, UpdateError, not_activated, settle_all, settle_config, activate, write_config, validate,
  zone_config, update,
}

-- What was asked for went through: the file holds `next` with its zones and its normal domains, and
-- what is active is the store that this configuration builds.
abbrev pub Done : Platform → Control → Option Config → Type 0
Done env out changed =
    (next : Config) × (zoned : Config) × (changed ≡ some next)
    × (apply_house_time_zones env next ≡ ok zoned)
    × (out.disk ≡ settle_config env zoned)
    × (out.config ≡ settle_config env out.disk)
    × (new_store env out.disk.profiles ≡ ok out.profiles)

-- Nothing happened, except that the file may be ahead where the activation failed.
abbrev pub Untouched : Control → Control → UpdateError → Type 0
Untouched s out e =
    (out.config ≡ s.config)
    × (out.profiles ≡ s.profiles)
    × ((out.disk ≡ s.disk) ⊎ ((f : StoreError) × (e ≡ not_activated f)))

-- An update is all or nothing in memory: either it reports no error, and then the changed
-- configuration is in the file and in memory and the active profiles are those that the file
-- builds; or it reports an error, and then neither the configuration in memory nor the active
-- profiles have changed, and the file has not either, unless the activation of what was written
-- has failed.
pub update-Done :
    (env : Platform) (s : Control) (changed : Option Config) (writable : Bool)
    → (((update env s changed writable).1 ≡ none)
        × Done env (update env s changed writable).0 changed)
      ⊎ ((e : UpdateError) × ((update env s changed writable).1 ≡ some e)
          × Untouched s (update env s changed writable).0 e)
unfolding update zone_config validate write_config activate
update-Done env s none writable = inr (_, refl, (refl, refl, inl refl))
update-Done env s (some next) writable = elim (Result-cases (apply_house_time_zones env next)) [
  | inr (house, bad) ↦ rw (bad, zone_config) (inr (_, refl, (refl, refl, inl refl)))
  | inl (zoned, good) ↦ elim (Result-cases (new_store env zoned.profiles)) [
    | inr (e, bad) ↦ rw (good, zone_config, validate, bad) (inr (_, refl, (refl, refl, inl refl)))
    | inl (first, valid) ↦ elim (Bool-cases writable) [
      | inr stuck ↦
          rw (good, zone_config, validate, valid, write_config, stuck)
            (inr (_, refl, (refl, refl, inl refl)))
      | inl fine ↦ elim (Result-cases (new_store env (settle_all env zoned.profiles))) [
        | inr (e, bad) ↦
            rw (good, zone_config, validate, valid, write_config, fine, activate, bad)
              (inr (_, refl, (refl, refl, inr (e, refl))))
        | inl (store, active) ↦
            rw (good, zone_config, validate, valid, write_config, fine, activate, active)
              (inl (refl, (next, zoned, refl, good, refl, refl, active)))
      ]
    ]
  ]
]
