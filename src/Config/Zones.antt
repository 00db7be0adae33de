-- ===== src/Config/Zones.antt =====
-- ApplyHouseTimeZones: every profile lives in the time zone of its household.
use teen_dns.Base.{
  ◌≡◌, ◌≢◌, refl, subst, ap, ◌∙◌, ◌⊎◌, inl, inr, true, if◌then◌else◌, List, [], ◌∷◌, All, In, some,
  Text, texts_equal, texts_equal_iff, arith, Bool-cases, Map, lookup, insert, lookup-insert,
  text_eq, ok, Result-cases, ok_inj,
}
use teen_dns.Platform.{Platform}
use teen_dns.Policy.{Profile}
use teen_dns.Policy.Schedule.{zone_or_default, default_time_zone}
use teen_dns.Config.{House, Config, house_zones, zone_profiles, apply_house_time_zones, or_default}

-- The map's answer for an id: what it said before where no house has the id, else a house's zone.
abbrev Found : Platform → List House → Map Text Text → Map Text Text → Text → Type 0
Found env hs before after k =
    (All (λ (h : House). h.id ≢ k) hs × (lookup k after ≡ lookup k before))
    ⊎ ((h : House) × In h hs
        × (h.id ≡ k)
        × (env.known_zone h.time_zone ≡ true)
        × (lookup k after ≡ some h.time_zone))

-- A house before the others: what the others say holds of all.
Found-cons :
    (env : Platform) (x : House) (hs : List House) (before after : Map Text Text) (k : Text)
    → env.known_zone x.time_zone ≡ true
    → Found env hs (insert x.id x.time_zone before) after k
    → Found env (x ∷ hs) before after k
Found-cons env x hs before after k known (inr (h, i, e, z, found)) = inr (h, inr i, e, z, found)
Found-cons env x hs before after k known (inl (others, same)) =
    let own = lookup-insert x.id k x.time_zone before in
    elim (Bool-cases (texts_equal x.id k)) [
      | inl here ↦
          let set : (if texts_equal x.id k then some x.time_zone else lookup k before)
              ≡ some x.time_zone =
            rw here refl in
          inr (x, inl refl, (texts_equal_iff x.id k).0 here, known, same ∙ own ∙ set)
      | inr other ↦
          let unset : (if texts_equal x.id k then some x.time_zone else lookup k before)
              ≡ lookup k before =
            rw other refl in
          inl (
            ((λ e. ground (arith, other, (texts_equal_iff x.id k).1 e)), others),
            same ∙ own ∙ unset,
          )
    ]

house_zones-Found :
    (env : Platform) (hs : List House) (before : Map Text Text) (r : List House × Map Text Text)
    (k : Text)
    → house_zones env hs before ≡ ok r
    → Found env r.0 before r.1 k
unfolding house_zones
house_zones-Found env [] before r k h =
    subst (λ (r : List House × Map Text Text). Found env r.0 before r.1 k) (ok_inj _ _ h)
      (inl (tt, refl))
house_zones-Found env (x ∷ hs) before r k h =
    let zone = zone_or_default x.time_zone in
    elim (Bool-cases (env.known_zone zone)) [
      | inr unknown ↦ absurd (ground (arith, unknown, h))
      | inl known ↦ elim (Result-cases (house_zones env hs (insert x.id zone before))) [
        | inr (e, bad) ↦ absurd (ground (arith, known, bad, h))
        | inl (rest, good) ↦
            subst (λ (r : List House × Map Text Text). Found env r.0 before r.1 k)
              (ok_inj _ _ (rw (known, good) at h))
              (Found-cons env (record x { time_zone = zone }) rest.0 before rest.1 k known
                (house_zones-Found env hs (insert x.id zone before) rest k good))
      ]
    ]

-- The zone is known, and it is that of a house with the profile's house id, or the default one
-- where there is no such house.
abbrev pub Zoned : Platform → List House → Profile → Type 0
Zoned env hs p =
    (env.known_zone p.time_zone ≡ true)
    × ((All (λ (h : House). h.id ≢ p.house_id) hs × (p.time_zone ≡ default_time_zone))
        ⊎ ((h : House) × In h hs × (h.id ≡ p.house_id) × (p.time_zone ≡ h.time_zone)))

zone_profiles-Zoned :
    (env : Platform) (hs : List House) (zones : Map Text Text) (ps : List Profile)
    → env.known_zone default_time_zone ≡ true
    → ((k : Text) → Found env hs [] zones k)
    → All (Zoned env hs) (zone_profiles zones ps)
unfolding zone_profiles lookup
zone_profiles-Zoned env hs zones [] d f = tt
zone_profiles-Zoned env hs zones (p ∷ ps) d f = (
  elim (f p.house_id) [
    | inl (others, missing) ↦ (rw missing d, inl (others, ap or_default missing))
    | inr (h, i, e, known, found) ↦ (rw found known, inr (h, i, e, ap or_default found))
  ],
  zone_profiles-Zoned env hs zones ps d f,
)

-- A configuration that gets its time zones has every profile in a known zone: that of a household
-- with its id, or the default one if no household has it. The default zone is a known one.
pub apply_house_time_zones-Zoned :
    (env : Platform) (cfg out : Config)
    → env.known_zone default_time_zone ≡ true
    → apply_house_time_zones env cfg ≡ ok out
    → All (Zoned env out.houses) out.profiles
unfolding apply_house_time_zones
apply_house_time_zones-Zoned env cfg out d h = elim (Result-cases (house_zones env cfg.houses [])) [
  | inr (e, bad) ↦ absurd (ground (arith, bad, h))
  | inl (zoned, good) ↦
      subst (λ (c : Config). All (Zoned env c.houses) c.profiles) (ok_inj _ _ (rw good at h))
        (zone_profiles-Zoned env zoned.0 zoned.1 cfg.profiles d
          (λ k. house_zones-Found env cfg.houses [] zoned k good))
]
