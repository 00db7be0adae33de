-- ===== src/Policy/Store/Stored.antt =====
-- What NewStore promises of each profile that a lookup finds.
use teen_dns.Base.{
  subst, ◌≡◌, refl, inl, inr, true, false, List, [], ◌∷◌, All, some, Text, arith, is_empty, ok, ◌⊎◌,
  err, Result-cases, lookup, text_eq, ok_inj, Pairs, In, All-In,
}
use teen_dns.Platform.{Platform, Instant, LocalTime, IsClock}
use teen_dns.Policy.{Rule, RuleGroup, TimeWindow, Profile, valid_action}
use teen_dns.Policy.Names.{NameError, normalize_name}
use teen_dns.Policy.Schedule.{profile_location, zone_or_default}
use teen_dns.Policy.Schedule.Valid.{IsWindow, validate_window-IsWindow}
use teen_dns.Policy.Decide.{bad_name, decide_at, decide_local, location_of}
use teen_dns.Policy.Store.{
  Store, check_pauses, normalize_rules, normalize_groups, normalize_domains, check_schedules,
  check_profile, new_store, nothing_occupied,
}
use teen_dns.Policy.Store.Lookup.{lookup-new_store_iff}
use teen_dns.Policy.Store.Exclusive.{Together, check_schedules-exclusive}

-- The domain is one that normalizeName returned.
abbrev pub IsNormal : Platform → Text → Type 0
IsNormal env d = (raw : Text) × (normalize_name env raw ≡ ok d)

pub record IsGroup (env : Platform) (g : RuleGroup) : Type 0 where
  pub has_id : is_empty g.id ≡ false
  pub has_name : is_empty g.name ≡ false
  pub action_valid : valid_action g.action ≡ true
  pub schedules_checked :
      (p : Text) × (check_schedules p g.id [] nothing_occupied g.schedules ≡ ok tt)
  pub domains_normal : All (IsNormal env) g.domains

pub record IsStored (env : Platform) (q : Profile) : Type 0 where
  pub default_valid : valid_action q.default_action ≡ true
  pub location_known :
      (l : Text) × (q.location ≡ some l)
      × (env.known_zone l ≡ true)
      × (l ≡ zone_or_default q.time_zone)
  pub pauses_valid : All IsWindow q.pauses
  pub rules_valid : All (λ r. IsNormal env r.domain × (valid_action r.action ≡ true)) q.rules
  pub groups_valid : All (IsGroup env) q.groups

check_pauses-IsWindow :
    (p : Text) (seen : List Text) (ws : List TimeWindow)
    → check_pauses p seen ws ≡ ok tt
    → All IsWindow ws
unfolding check_pauses
check_pauses-IsWindow p seen [] h = tt
check_pauses-IsWindow p seen (w ∷ ws) h = (
  validate_window-IsWindow w (ground arith),
  check_pauses-IsWindow p (w.id ∷ seen) ws (ground arith),
)

module _ (env : Platform) (p : Text) where
  abbrev ValidRule : Rule → Type 0
  ValidRule r = IsNormal env r.domain × (valid_action r.action ≡ true)

  normalize_rules-valid :
      (rs out : List Rule) → normalize_rules env p rs ≡ ok out → All ValidRule out
  unfolding normalize_rules
  normalize_rules-valid [] out h = subst (All ValidRule) (ok_inj [] out h) tt
  normalize_rules-valid (r ∷ rs) out h = elim (Result-cases (normalize_name env r.domain)) [
    | inl (domain, e) ↦ elim (Result-cases (normalize_rules env p rs)) [
      | inl (rest, e') ↦
          let shape : record r { domain = domain } ∷ rest ≡ out = ground arith in
          let good : valid_action r.action ≡ true = ground arith in
          subst (All ValidRule) shape (((r.domain, e), good), normalize_rules-valid rs rest e')
      | inr (x, e') ↦ ground arith
    ]
    | inr (x, e) ↦ ground arith
  ]

  normalize_domains-IsNormal :
      (g : Text) (seen ds out : List Text)
      → normalize_domains env p g seen ds ≡ ok out
      → All (IsNormal env) out
  unfolding normalize_domains
  normalize_domains-IsNormal g seen [] out h = subst (All (IsNormal env)) (ok_inj [] out h) tt
  normalize_domains-IsNormal g seen (d ∷ ds) out h = elim (Result-cases (normalize_name env d)) [
    | inl (domain, e) ↦ elim (Result-cases (normalize_domains env p g (domain ∷ seen) ds)) [
      | inl (rest, e') ↦
          let shape : domain ∷ rest ≡ out = ground arith in
          subst (All (IsNormal env)) shape
            ((d, e), normalize_domains-IsNormal g (domain ∷ seen) ds rest e')
      | inr (x, e') ↦ ground arith
    ]
    | inr (x, e) ↦ ground arith
  ]

  normalize_groups-valid :
      (seen : List Text) (gs out : List RuleGroup)
      → normalize_groups env p seen gs ≡ ok out
      → All (IsGroup env) out
  unfolding normalize_groups
  normalize_groups-valid seen [] out h = subst (All (IsGroup env)) (ok_inj [] out h) tt
  normalize_groups-valid seen (g ∷ gs) out h =
      elim (Result-cases (normalize_domains env p g.id [] g.domains)) [
        | inl (domains, e) ↦ elim (Result-cases (normalize_groups env p (g.id ∷ seen) gs)) [
          | inl (rest, e') ↦
              let shape : record g { domains = domains } ∷ rest ≡ out = ground arith in
              subst (All (IsGroup env)) shape (
                record {
                  has_id = ground arith;
                  has_name = ground arith;
                  action_valid = ground arith;
                  schedules_checked = (p, ground arith);
                  domains_normal = normalize_domains-IsNormal g.id [] g.domains domains e;
                },
                normalize_groups-valid (g.id ∷ seen) gs rest e',
              )
          | inr (x, e') ↦ ground arith
        ]
        | inr (x, e) ↦ ground arith
      ]

profile_location-known :
    (env : Platform) (zone l : Text) → profile_location env zone ≡ ok l → env.known_zone l ≡ true
unfolding profile_location
profile_location-known env zone l h = ground arith

profile_location-zone :
    (env : Platform) (zone l : Text) → profile_location env zone ≡ ok l → l ≡ zone_or_default zone
unfolding profile_location
profile_location-zone env zone l h = ground arith

check_profile-IsStored :
    (env : Platform) (host : Text) (p q : Profile)
    → check_profile env host p ≡ ok q
    → IsStored env q
unfolding check_profile
check_profile-IsStored env host p q h = elim (Result-cases (profile_location env p.time_zone)) [
  | inl (l, e) ↦ elim (Result-cases (normalize_rules env p.id p.rules)) [
    | inl (rules, e') ↦ elim (Result-cases (normalize_groups env p.id [] p.groups)) [
      | inl (groups, e'') ↦
          let shape : record p {
            hostname = host;
            rules = rules;
            groups = groups;
            location = some l;
          }
              ≡ q =
            ground arith in
          subst (IsStored env) shape (record {
            default_valid = ground arith;
            location_known = (
              l,
              refl,
              profile_location-known env p.time_zone l e,
              profile_location-zone env p.time_zone l e,
            );
            pauses_valid = check_pauses-IsWindow p.id [] p.pauses (ground arith);
            rules_valid = normalize_rules-valid env p.id p.rules rules e';
            groups_valid = normalize_groups-valid env p.id [] p.groups groups e'';
          })
      | inr (x, e'') ↦ ground arith
    ]
    | inr (x, e') ↦ ground arith
  ]
  | inr (x, e) ↦ ground arith
]

-- Every profile that a hostname finds in an accepted store has a valid default action, a known
-- zone that is loaded, valid pauses, rules with valid actions and normalized domains, and groups
-- with an id, a name, a valid action, normalized domains and schedules that passed the checks.
pub lookup-IsStored :
    (env : Platform) (ps : List Profile) (s : Store) (host : Text) (q : Profile)
    → new_store env ps ≡ ok s
    → lookup host s.profiles ≡ some q
    → IsStored env q
lookup-IsStored env ps s host q h e =
    let (p, _, k) = (lookup-new_store_iff env ps s host q h).0 e in
    check_profile-IsStored env host p q k.checked

-- In a profile that a hostname finds in an accepted store, no two schedules of one group are
-- active together at any clock time.
pub stored_schedules-exclusive :
    (env : Platform) (ps : List Profile) (s : Store) (host : Text) (q : Profile) (g : RuleGroup)
    (now : LocalTime)
    → new_store env ps ≡ ok s
    → lookup host s.profiles ≡ some q
    → In g q.groups
    → IsClock now
    → Pairs (λ a b. ¬ Together now a b) g.schedules
stored_schedules-exclusive env ps s host q g now h e i c =
    let stored = lookup-IsStored env ps s host q h e in
    let group = All-In (IsGroup env) q.groups stored.groups_valid i in
    (check_schedules-exclusive group.schedules_checked.0 g.id g.schedules now
      group.schedules_checked.1 c).1

-- A profile that a hostname finds in an accepted store decides every query: one that is no domain name
-- fails with the reason, and every other gets the decision for the local time of one zone, which
-- is known, is the profile's own or the default one, and is what NewStore has loaded. No other
-- error comes up.
pub decide_at-total :
    (env : Platform) (ps : List Profile) (s : Store) (host : Text) (q : Profile) (query : Text)
    (at : Instant)
    → new_store env ps ≡ ok s
    → lookup host s.profiles ≡ some q
    → (l : Text) × (q.location ≡ some l)
      × (l ≡ zone_or_default q.time_zone)
      × (env.known_zone l ≡ true)
      × (((name : Text) × (normalize_name env query ≡ ok name)
            × (decide_at env q query at ≡ ok (decide_local q name (env.local_time l at))))
          ⊎ ((e : NameError) × (normalize_name env query ≡ err e)
              × (decide_at env q query at ≡ err (bad_name e))))
unfolding decide_at location_of
decide_at-total env ps s host q query at h found =
    let (l, loaded, known, own) = (lookup-IsStored env ps s host q h found).location_known in
    (
      l,
      loaded,
      own,
      known,
      elim (Result-cases (normalize_name env query)) [
        | inl (name, e) ↦ inl (name, e, rw (e, loaded, decide_at, location_of))
        | inr (x, e) ↦ inr (x, e, rw (e, decide_at))
      ],
    )
