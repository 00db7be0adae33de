-- ===== src/Policy/Decide/Pauses.antt =====
-- What DecideAt promises whatever the rules are: pauses, label boundaries, and the stale label.
use teen_dns.Base.{
  ap, ◌≡◌, ◌↔◌, refl, ◌⊎◌, inl, inr, Bool, true, ◌||◌, List, [], ◌∷◌, ◌++◌, In, none, some, Text,
  arith, Bool-cases, has_suffix, has_suffix_iff, texts_equal, texts_equal_iff, ok, codes, All, ◌∙◌,
}
use teen_dns.Platform.{LocalTime, Platform, Instant}
use teen_dns.Policy.{block, RuleGroup, Profile, Decision, TimeWindow}
use teen_dns.Policy.Names.{normalize_name}
use teen_dns.Policy.Schedule.{window_active, active_scheduled_action}
use teen_dns.Policy.Decide.{
  pause_decision, first_active_pause, decide_local, decide_at, location_of, domain_matches,
  scan_all, scan_rules, scan_groups, scan_domains, scan_domain, group_decision, default_decision,
  Scan,
}
use teen_dns.Policy.Decide.Longest.{Decided, scan_all-Decided}

first_active_pause-In :
    (ws : List TimeWindow) (w : TimeWindow) (now : LocalTime)
    → In w ws
    → window_active w now ≡ true
    → (v : TimeWindow) × In v ws
      × (window_active v now ≡ true)
      × (first_active_pause ws now ≡ some v)
unfolding first_active_pause
first_active_pause-In [] w now i h = absurd i.0
first_active_pause-In (v ∷ ws) w now i h = elim (Bool-cases (window_active v now)) [
  | inl on ↦ (v, inl refl, on, rw on)
  | inr off ↦ elim i [
    | inl e ↦ cc (ap (λ x. window_active x now) e)
    | inr j ↦ let (u, k, on, e) = first_active_pause-In ws w now j h in (u, inr k, on, rw off e)
  ]
]

-- A general pause blocks, names the pause, and shows no rule, group or domain.
pub record Paused (p : Profile) (pause : TimeWindow) (d : Decision) : Type 0 where
  pub blocks : d.action ≡ block
  pub category : d.category ≡ codes "global_pause"
  pub reason : d.reason ≡ codes "Pausa geral"
  pub label : d.schedule_label ≡ pause.label
  pub no_domain : d.matched_domain ≡ []
  pub no_group : d.group_name ≡ []
  pub version : d.policy_version ≡ p.version

-- While any pause of a profile with a known zone is active, every name that is a domain name is
-- blocked, whatever the rules, the groups and the default action are: the decision is to block,
-- it carries the label of an active pause and the profile's version, and it names no domain and
-- no group.
pub decide_at-pause :
    (env : Platform) (p : Profile) (query name location : Text) (at : Instant) (w : TimeWindow)
    → normalize_name env query ≡ ok name
    → location_of env p ≡ ok location
    → In w p.pauses
    → window_active w (env.local_time location at) ≡ true
    → (v : TimeWindow) × (d : Decision) × In v p.pauses
      × (window_active v (env.local_time location at) ≡ true)
      × (decide_at env p query at ≡ ok d)
      × Paused p v d
unfolding decide_at decide_local
decide_at-pause env p query name location at w hn hl i h =
    let (v, j, on, e) = first_active_pause-In p.pauses w (env.local_time location at) i h in
    (
      v,
      pause_decision p v,
      j,
      on,
      rw (hn, hl, e, decide_at, decide_local),
      record {
        blocks = refl;
        category = refl;
        reason = refl;
        label = refl;
        no_domain = refl;
        no_group = refl;
        version = refl;
      },
    )

texts_equal_comm_or :
    (name domain : Text) (b : Bool)
    → (texts_equal name domain || b) ≡ true
    → (name ≡ domain) ⊎ (b ≡ true)
texts_equal_comm_or name domain b h = elim (Bool-cases (texts_equal name domain)) [
  | inl same ↦ inl ((texts_equal_iff name domain).0 same)
  | inr other ↦ inr (rw other at h)
]

-- A domain of a group matches a name exactly if the name is the domain, or ends in it behind a
-- dot: a name that only shares its last letters does not match.
pub domain_matches_iff :
    (name domain : Text)
    → (domain_matches name true domain ≡ true)
      ↔ ((name ≡ domain) ⊎ ((front : Text) × (name ≡ front ++ b'.' ∷ domain)))
unfolding domain_matches
domain_matches_iff name domain = (sound, complete)
  where
    sound :
        (texts_equal name domain || has_suffix name (b'.' ∷ domain)) ≡ true
        → (name ≡ domain) ⊎ ((front : Text) × (name ≡ front ++ b'.' ∷ domain))
    sound h = elim (texts_equal_comm_or name domain _ h) [
      | inl e ↦ inl e
      | inr s ↦ inr ((has_suffix_iff name (b'.' ∷ domain)).0 s)
    ]

    complete :
        (name ≡ domain) ⊎ ((front : Text) × (name ≡ front ++ b'.' ∷ domain))
        → (texts_equal name domain || has_suffix name (b'.' ∷ domain)) ≡ true
    complete (inl e) = rw ((texts_equal_iff name domain).1 e)
    complete (inr s) = let h = (has_suffix_iff name (b'.' ∷ domain)).1 s in ground (arith, h)

-- No schedule of the group is active.
abbrev Idle : LocalTime → RuleGroup → Type 0
Idle now g = active_scheduled_action g.schedules now ≡ none

module _ (name : Text) (now : LocalTime) where
  scan_domain-label :
      (g : RuleGroup) (s : Scan) (d : Text)
      → Idle now g
      → (scan_domain name now g s d).decision.schedule_label ≡ s.decision.schedule_label
  unfolding scan_domain group_decision
  scan_domain-label g s d idle = ground (arith, idle)

  scan_domains-label :
      (g : RuleGroup) (ds : List Text) (s : Scan)
      → Idle now g
      → (scan_domains name now g s ds).decision.schedule_label ≡ s.decision.schedule_label
  unfolding scan_domains
  scan_domains-label g [] s idle = refl
  scan_domains-label g (d ∷ ds) s idle =
      scan_domains-label g ds (scan_domain name now g s d) idle ∙ scan_domain-label g s d idle

  scan_groups-label :
      (gs hs : List RuleGroup) (s : Scan)
      → All (Idle now) hs
      → (scan_groups name now s (gs ++ hs)).decision.schedule_label
        ≡ (scan_groups name now s gs).decision.schedule_label
  unfolding scan_groups
  scan_groups-label [] [] s idle = refl
  scan_groups-label [] (h ∷ hs) s idle =
      scan_groups-label [] hs (scan_domains name now h s h.domains) idle.1
      ∙ scan_domains-label h h.domains s idle.0
  scan_groups-label (g ∷ gs) hs s idle =
      scan_groups-label gs hs (scan_domains name now g s g.domains) idle

-- The label of a schedule outlives its group: in any profile, groups at the end of the list without an
-- active schedule leave the schedule label of the decision as the groups before them have set it,
-- also where a longer domain of theirs takes the decision over. Everything else in the decision is
-- that of the candidate that wins among the rules and all groups; where none matches, the decision
-- is the profile's default.
pub scan_all-stale_label :
    (p : Profile) (gs hs : List RuleGroup) (name : Text) (now : LocalTime)
    → p.groups ≡ gs ++ hs
    → All (λ (h : RuleGroup). active_scheduled_action h.schedules now ≡ none) hs
    → ((scan_all p name now).schedule_label
        ≡ (scan_all (record p { groups = gs }) name now).schedule_label)
      × Decided p name now (scan_all p name now)
unfolding scan_all
scan_all-stale_label p gs hs name now split idle = (
  ap (λ all. (scan_groups name now rules all).decision.schedule_label) split
      ∙ scan_groups-label name now gs hs rules idle,
  scan_all-Decided p name now,
)
  where
    rules : Scan
    rules = scan_rules name (record { best = none; decision = default_decision p }) p.rules
