-- ===== src/Admin/Youth/Mirror.antt =====
-- The snapshot that extensionPolicy serves carries all that a decision depends on.
use teen_dns.Base.{
  ◌≡◌, refl, ap, sym, ◌∙◌, inl, inr, false, if◌then◌else◌, List, [], ◌∷◌, some, none, Text, ok, err,
  Result-cases,
}
use teen_dns.Platform.{Platform, LocalTime, Instant}
use teen_dns.Policy.{RuleGroup, Profile}
use teen_dns.Policy.Names.{normalize_name}
use teen_dns.Policy.Schedule.{profile_location, zone_or_default}
use teen_dns.Policy.Decide.{
  Scan, scan_domain, scan_domains, scan_groups, scan_all, decide_local, decide_at, location_of,
  group_decision, first_active_pause, pause_decision,
}
use teen_dns.Admin.Youth.{ExtensionGroup, ExtensionPolicy, group_view, group_views, extension_view}

-- What is left out is empty.
group_of : ExtensionGroup → RuleGroup
group_of v = record {
  id = v.id;
  name = v.name;
  action = v.action;
  category = v.category;
  reason = v.reason;
  domains = v.domains;
  default_domains = [];
  domain_source = [];
  customized = false;
  schedules = v.schedules;
}

groups_of : List ExtensionGroup → List RuleGroup
groups_of [] = []
groups_of (v ∷ vs) = group_of v ∷ groups_of vs

profile_of : ExtensionPolicy → Profile
profile_of v = record {
  id = [];
  house_id = [];
  label = v.label;
  hostname = [];
  disabled = false;
  default_action = v.default_action;
  version = v.version;
  rules = v.rules;
  groups = groups_of v.groups;
  pauses = v.pauses;
  time_zone = v.time_zone;
  location = none;
}

scan_domains-view :
    (name : Text) (now : LocalTime) (g : RuleGroup) (ds : List Text) (s : Scan)
    → scan_domains name now (group_of (group_view g)) s ds ≡ scan_domains name now g s ds
unfolding scan_domains scan_domain group_decision group_of
scan_domains-view name now g [] s = refl
scan_domains-view name now g (d ∷ ds) s = scan_domains-view name now g ds _

scan_groups-views :
    (name : Text) (now : LocalTime) (gs : List RuleGroup) (s : Scan)
    → scan_groups name now s (groups_of (group_views gs)) ≡ scan_groups name now s gs
unfolding scan_groups groups_of group_views group_of
scan_groups-views name now [] s = refl
scan_groups-views name now (g ∷ gs) s =
    ap (λ t. scan_groups name now t (groups_of (group_views gs)))
      (scan_domains-view name now g g.domains s)
    ∙ scan_groups-views name now gs _

decide_local-view :
    (p : Profile) (name : Text) (now : LocalTime)
    → decide_local (profile_of (extension_view p)) name now ≡ decide_local p name now
unfolding decide_local scan_all profile_of extension_view
decide_local-view p name now =
    ap
      (λ t. elim (first_active_pause p.pauses now) [
        | some pause ↦ pause_decision p pause
        | none ↦ t.decision
      ])
      (scan_groups-views name now p.groups _)

-- Two profiles that the extension is served the same snapshot of are decided alike: if the location
-- of each is the one of its zone, then whatever is asked for, and whenever, DecideAt answers the
-- same for both, errors included. So the snapshot leaves out nothing that a decision depends on.
pub extension_view-decide_at :
    (env : Platform) (p q : Profile) (query : Text) (at : Instant)
    → location_of env p ≡ profile_location env p.time_zone
    → location_of env q ≡ profile_location env q.time_zone
    → extension_view p ≡ extension_view q
    → decide_at env p query at ≡ decide_at env q query at
unfolding decide_at profile_location extension_view
extension_view-decide_at env p q query at hp hq e =
    let zones : zone_or_default p.time_zone ≡ zone_or_default q.time_zone =
      ap (λ v. v.time_zone) e in
    let places : location_of env p ≡ location_of env q =
      hp ∙ ap (λ z. if env.known_zone z then ok z else err z) zones ∙ sym hq in
    let local : (name : Text) (now : LocalTime)
        → decide_local p name now ≡ decide_local q name now =
      λ name now.
        sym (decide_local-view p name now)
        ∙ ap (λ v. decide_local (profile_of v) name now) e
        ∙ decide_local-view q name now in
    elim (Result-cases (normalize_name env query)) [
      | inr (bad, h) ↦ rw h refl
      | inl (name, h) ↦ elim (Result-cases (location_of env q)) [
        | inr (bad, z) ↦ rw (h, places, z) refl
        | inl (zone, z) ↦ rw (h, places, z) (ap ok (local name (env.local_time zone at)))
      ]
    ]
