-- ===== src/Config/Load/Ready.antt =====
-- What a loaded configuration is ready for.
use teen_dns.Base.{
  ◌≡◌, ◌<◌, refl, ap, sym, ◌∙◌, subst, inl, inr, Bool, true, false, not, ◌||◌, eqb, if◌then◌else◌,
  List, [], ◌∷◌, All, Option, some, Text, is_empty, arith, Bool-cases, ok, Result-cases, ok_inj,
  branch, Map, insert, text_eq, ℕ,
}
use teen_dns.Platform.{Platform}
use teen_dns.Policy.{Profile}
use teen_dns.Policy.Schedule.{default_time_zone, zone_or_default}
use teen_dns.Policy.Store.{Store, new_store}
use teen_dns.Config.{House, Config, house_zones, apply_house_time_zones}
use teen_dns.Config.Zones.{Zoned, apply_house_time_zones-Zoned}
use teen_dns.Admin.{settle, settle_all}
use teen_dns.Config.Load.{
  StoredProfile, StoredConfig, load_groups, load_profiles, with_defaults, migrate_emails,
  has_emails, load,
}

-- A house with a primary address has it, or other addresses, in the list that may log in.
abbrev pub Reachable : House → Type 0
Reachable h = (is_empty h.email || has_emails h.emails) ≡ true

migrate_emails-Reachable : (hs : List House) → All Reachable (migrate_emails hs)
unfolding migrate_emails
migrate_emails-Reachable [] = tt
migrate_emails-Reachable (h ∷ hs) = (
  elim (Bool-cases (is_empty h.email)) [
    | inl none_given ↦ rw none_given (elim (Bool-cases (has_emails h.emails)) [
      | inl some_given ↦ rw (some_given, none_given) refl
      | inr empty ↦ rw (empty, none_given) refl
    ])
    | inr primary ↦ elim (Bool-cases (has_emails h.emails)) [
      | inl given ↦ rw (given, primary) (ground (arith, given))
      | inr empty ↦ rw (empty, primary) (ground arith)
    ]
  ],
  migrate_emails-Reachable hs,
)

house_zones-Reachable :
    (env : Platform) (hs : List House) (zones : Map Text Text) (out : List House × Map Text Text)
    → house_zones env hs zones ≡ ok out
    → All Reachable hs
    → All Reachable out.0
unfolding house_zones
house_zones-Reachable env [] zones out h a =
    subst (λ (x : List House × Map Text Text). All Reachable x.0) (ok_inj _ _ h) tt
house_zones-Reachable env (x ∷ hs) zones out h a =
    elim (Bool-cases (env.known_zone (zone_or_default x.time_zone))) [
      | inr unknown ↦ absurd (ground (arith, unknown, h))
      | inl known ↦
          elim (Result-cases
            (house_zones env hs (insert x.id (zone_or_default x.time_zone) zones))) [
              | inr (e, bad) ↦ absurd (ground (arith, known, bad, h))
              | inl (rest, good) ↦
                  subst (λ (y : List House × Map Text Text). All Reachable y.0)
                    (ok_inj _ _ (rw (known, good) at h))
                    (a.0, house_zones-Reachable env hs _ rest good a.1)
            ]
    ]

load_profiles-Zoned :
    (env : Platform) (files : Text → Option (List Text)) (hs : List House) (ps : List Profile)
    (stored : List StoredProfile) (out : List Profile)
    → load_profiles env files ps stored ≡ ok out
    → All (Zoned env hs) ps
    → All (Zoned env hs) out
unfolding load_profiles
load_profiles-Zoned env files hs [] stored out h a = subst (All (Zoned env hs)) (ok_inj _ _ h) tt
load_profiles-Zoned env files hs (p ∷ ps) [] out h a = subst (All (Zoned env hs)) (ok_inj _ _ h) tt
load_profiles-Zoned env files hs (p ∷ ps) (stored ∷ more) out h a =
    elim (Result-cases (load_groups env files p.id stored.groups)) [
      | inr (e, bad) ↦ absurd (ground (arith, bad, h))
      | inl (groups, loaded) ↦ elim (Result-cases (load_profiles env files ps more)) [
        | inr (e, bad) ↦ absurd (ground (arith, loaded, bad, h))
        | inl (rest, good) ↦
            subst (All (Zoned env hs)) (ok_inj _ _ (rw (loaded, good) at h))
              (a.0, load_profiles-Zoned env files hs ps more rest good a.1)
      ]
    ]

settle_all-Zoned :
    (env : Platform) (hs : List House) (ps : List Profile)
    → All (Zoned env hs) ps
    → All (Zoned env hs) (settle_all env ps)
unfolding settle_all settle
settle_all-Zoned env hs [] a = tt
settle_all-Zoned env hs (p ∷ ps) a =
    (branch (Zoned env hs) p.disabled a.0 a.0, settle_all-Zoned env hs ps a.1)

-- What the program relies on in a configuration that it runs with.
pub record Ready (env : Platform) (out : Config) : Type 0 where
  pub listen : is_empty out.listen ≡ false
  pub upstream : is_empty out.upstream ≡ false
  pub certificate : is_empty out.certificate ≡ false
  pub private_key : is_empty out.private_key ≡ false
  pub max_ttl : 0 < out.max_ttl
  pub houses : All Reachable out.houses
  pub profiles : All (Zoned env out.houses) out.profiles
  pub store :
      (before : List Profile) × (store : Store) × (new_store env before ≡ ok store)
      × (out.profiles ≡ settle_all env before)

-- What is known once the zones are there.
zoned-Reachable :
    (env : Platform) (cfg zoned : Config)
    → apply_house_time_zones env cfg ≡ ok zoned
    → All Reachable cfg.houses
    → All Reachable zoned.houses
unfolding apply_house_time_zones
zoned-Reachable env cfg zoned h a = elim (Result-cases (house_zones env cfg.houses [])) [
  | inr (e, bad) ↦ absurd (ground (arith, bad, h))
  | inl (z, good) ↦
      subst (λ (c : Config). All Reachable c.houses) (ok_inj _ _ (rw good at h))
        (house_zones-Reachable env cfg.houses [] z good a)
]

record Same (cfg zoned : Config) : Type 0 where
  listen : zoned.listen ≡ cfg.listen
  upstream : zoned.upstream ≡ cfg.upstream
  certificate : zoned.certificate ≡ cfg.certificate
  private_key : zoned.private_key ≡ cfg.private_key
  max_ttl : zoned.max_ttl ≡ cfg.max_ttl

zoned-Same :
    (env : Platform) (cfg zoned : Config)
    → apply_house_time_zones env cfg ≡ ok zoned
    → Same cfg zoned
unfolding apply_house_time_zones
zoned-Same env cfg zoned h = elim (Result-cases (house_zones env cfg.houses [])) [
  | inr (e, bad) ↦ absurd (ground (arith, bad, h))
  | inl (z, good) ↦ subst (Same cfg) (ok_inj _ _ (rw good at h)) (record {
    listen = refl;
    upstream = refl;
    certificate = refl;
    private_key = refl;
    max_ttl = refl;
  })
]

or_false : (a b : Bool) → not (a || b) ≡ true → (a ≡ false) × (b ≡ false)
or_false a b h = ground (arith, h)

max_ttl-positive : (n : ℕ) → 0 < (if eqb n 0 then 300 else n)
max_ttl-positive n = ground arith

-- A configuration that Load returns, with a default zone that is known, has an address, an upstream and
-- a key pair, a positive bound on times to live, an address to log in with for every house that has
-- a primary one, and every profile in a known zone, which is that of its house or the default; and
-- NewStore has accepted its profiles, which are what NewStore has made of their domains.
pub load-Ready :
    (env : Platform) (files : Text → Option (List Text)) (stored : StoredConfig) (out : Config)
    → env.known_zone default_time_zone ≡ true
    → load env files (some stored) ≡ ok out
    → Ready env out
unfolding load
load-Ready env files stored out d h =
    let cfg = stored.config in
    elim (Bool-cases (not (is_empty cfg.listen || is_empty cfg.upstream))) [
      | inr bare ↦ absurd (ground (arith, bare, h))
      | inl address ↦
          elim (Bool-cases (not (is_empty cfg.certificate || is_empty cfg.private_key))) [
            | inr bare ↦ absurd (ground (arith, address, bare, h))
            | inl key ↦ elim (Result-cases (apply_house_time_zones env (with_defaults stored))) [
              | inr (e, bad) ↦ absurd (ground (arith, address, key, bad, h))
              | inl (zoned, zones) ↦
                  elim (Result-cases (load_profiles env files zoned.profiles stored.profiles)) [
                    | inr (e, bad) ↦ absurd (ground (arith, address, key, zones, bad, h))
                    | inl (profiles, loaded) ↦ elim (Result-cases (new_store env profiles)) [
                      | inr (e, bad) ↦ absurd (ground (arith, address, key, zones, loaded, bad, h))
                      | inl (store, valid) ↦
                          let same = zoned-Same env (with_defaults stored) zoned zones in
                          let fine =
                            or_false (is_empty cfg.listen) (is_empty cfg.upstream) address in
                          let keys =
                            or_false (is_empty cfg.certificate) (is_empty cfg.private_key) key in
                          subst (Ready env)
                            (ok_inj _ out (rw (address, key, zones, loaded, valid) at h))
                            (record {
                              listen = ap is_empty same.listen ∙ fine.0;
                              upstream = ap is_empty same.upstream ∙ fine.1;
                              certificate = ap is_empty same.certificate ∙ keys.0;
                              private_key = ap is_empty same.private_key ∙ keys.1;
                              max_ttl =
                                  subst (λ n. 0 < n) (sym same.max_ttl)
                                    (max_ttl-positive cfg.max_ttl);
                              houses =
                                  zoned-Reachable env (with_defaults stored) zoned zones
                                    (migrate_emails-Reachable cfg.houses);
                              profiles = settle_all-Zoned env zoned.houses profiles (
                                  load_profiles-Zoned env files zoned.houses zoned.profiles
                                    stored.profiles profiles loaded
                                    (apply_house_time_zones-Zoned env (with_defaults stored) zoned d
                                      zones));
                              store = (profiles, store, valid, refl);
                            })
                    ]
                  ]
            ]
          ]
    ]
