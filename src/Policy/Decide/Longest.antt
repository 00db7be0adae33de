-- ===== src/Policy/Decide/Longest.antt =====
-- The loops of DecideAt find the winning candidate.
use teen_dns.Base.{
  ap, ◌∙◌, ◌≡◌, refl, ◌⊎◌, inl, inr, Bool, true, false, ◌&&◌, if◌then◌else◌, List, [], ◌∷◌, ◌++◌,
  map, All, Option, none, some, Text, byte_length, arith, Bool-cases,
}
use teen_dns.Platform.{LocalTime}
use teen_dns.Policy.{Rule, RuleGroup, Profile, Decision}
use teen_dns.Policy.Decide.{
  Scan, scan_rule, scan_rules, scan_domain, scan_domains, scan_groups, scan_all, group_decision,
  default_decision, first_active_pause, decide_local, is_longer, domain_matches,
}
use teen_dns.Policy.Decide.Candidates.{
  Candidate, rule_candidate, group_candidate, groups_candidates, candidates, IsWinner, best_length,
  takes_over, pick, pick-Picked,
}

-- What the decision shows of the candidate that it follows. Its schedule label is not among it.
abbrev pub Carries : Profile → Candidate → Decision → Type 0
Carries p c d =
    (d.action ≡ c.action)
    × (d.category ≡ c.category)
    × (d.reason ≡ c.reason)
    × (d.matched_domain ≡ c.domain)
    × (d.group_name ≡ c.group_name)
    × (d.policy_version ≡ p.version)

abbrev Shows : Profile → Option Candidate → Decision → Type 0
Shows p none d = d ≡ default_decision p
Shows p (some c) d = Carries p c d

record Agrees (p : Profile) (s : Scan) (o : Option Candidate) : Type 0 where
  best : s.best ≡ best_length o
  shows : Shows p o s.decision

abbrev next : Text → Option Candidate → Candidate → Option Candidate
next name o c = if takes_over name o c then some c else o

version_of :
    (p : Profile) (o : Option Candidate) (d : Decision) → Shows p o d → d.policy_version ≡ p.version
version_of p none d h = ground arith
version_of p (some c) d h = h.5

pick-append :
    (name : Text) (o : Option Candidate) (cs ds : List Candidate)
    → pick name o (cs ++ ds) ≡ pick name (pick name o cs) ds
unfolding pick
pick-append name o [] ds = refl
pick-append name o (c ∷ cs) ds = pick-append name (next name o c) cs ds

module _ (p : Profile) (name : Text) (now : LocalTime) where
  -- The loops test what `takes_over` asks of the candidate.
  test_eq :
      (s : Scan) (o : Option Candidate) (c : Candidate) (b : Bool)
      → Agrees p s o
      → takes_over name o c ≡ b
      → (domain_matches name c.subdomains c.domain && is_longer (byte_length c.domain) s.best) ≡ b
  test_eq s o c b a e =
      ap
        (λ best. domain_matches name c.subdomains c.domain && is_longer (byte_length c.domain) best)
        a.best
      ∙ e

  scan_rule-Agrees :
      (s : Scan) (o : Option Candidate) (r : Rule)
      → Agrees p s o
      → s.decision.group_name ≡ []
      → Agrees p (scan_rule name s r) (next name o (rule_candidate r))
        × ((scan_rule name s r).decision.group_name ≡ [])
  unfolding scan_rule
  scan_rule-Agrees s o r a h = elim (Bool-cases (takes_over name o (rule_candidate r))) [
    | inl over ↦
        rw (test_eq s o (rule_candidate r) true a over, over)
          (
            record {
              best = refl;
              shows = (refl, refl, refl, refl, h, version_of p o s.decision a.shows);
            },
            h,
          )
    | inr stays ↦ rw (test_eq s o (rule_candidate r) false a stays, stays) (a, h)
  ]

  scan_rules-Agrees :
      (rs : List Rule) (s : Scan) (o : Option Candidate)
      → Agrees p s o
      → s.decision.group_name ≡ []
      → Agrees p (scan_rules name s rs) (pick name o (map rule_candidate rs))
  unfolding scan_rules pick
  scan_rules-Agrees [] s o a h = a
  scan_rules-Agrees (r ∷ rs) s o a h =
      let (a', h') = scan_rule-Agrees s o r a h in scan_rules-Agrees rs _ _ a' h'

  group_decision-Carries :
      (g : RuleGroup) (d : Text) (before : Decision)
      → before.policy_version ≡ p.version
      → Carries p (group_candidate now g d) (group_decision g now d before)
  unfolding group_decision
  group_decision-Carries g d before v = ground arith

  scan_domain-Agrees :
      (g : RuleGroup) (s : Scan) (o : Option Candidate) (d : Text)
      → Agrees p s o
      → Agrees p (scan_domain name now g s d) (next name o (group_candidate now g d))
  unfolding scan_domain
  scan_domain-Agrees g s o d a = elim (Bool-cases (takes_over name o (group_candidate now g d))) [
    | inl over ↦
        rw (test_eq s o (group_candidate now g d) true a over, over)
          (record {
            best = refl;
            shows = group_decision-Carries g d s.decision (version_of p o s.decision a.shows);
          })
    | inr stays ↦ rw (test_eq s o (group_candidate now g d) false a stays, stays) a
  ]

  scan_domains-Agrees :
      (g : RuleGroup) (ds : List Text) (s : Scan) (o : Option Candidate)
      → Agrees p s o
      → Agrees p (scan_domains name now g s ds) (pick name o (map (group_candidate now g) ds))
  unfolding scan_domains pick
  scan_domains-Agrees g [] s o a = a
  scan_domains-Agrees g (d ∷ ds) s o a = scan_domains-Agrees g ds _ _ (scan_domain-Agrees g s o d a)

  scan_groups-Agrees :
      (gs : List RuleGroup) (s : Scan) (o : Option Candidate)
      → Agrees p s o
      → Agrees p (scan_groups name now s gs) (pick name o (groups_candidates now gs))
  unfolding scan_groups pick
  scan_groups-Agrees [] s o a = a
  scan_groups-Agrees (g ∷ gs) s o a =
      rw (pick-append name o (map (group_candidate now g) g.domains) (groups_candidates now gs))
        (scan_groups-Agrees gs _ _ (scan_domains-Agrees g g.domains s o a))

  scan_all-Shows : Shows p (pick name none (candidates p now)) (scan_all p name now)
  unfolding scan_all
  scan_all-Shows =
      let start : Scan = record { best = none; decision = default_decision p } in
      let rules =
        scan_rules-Agrees p.rules start none (record { best = refl; shows = refl }) refl in
      rw (pick-append name none (map rule_candidate p.rules) (groups_candidates now p.groups))
        (scan_groups-Agrees p.groups _ _ rules).shows

-- How a name is decided where no pause is active.
abbrev pub Decided : Profile → Text → LocalTime → Decision → Type 0
Decided p name now d =
    (All (λ c. domain_matches name c.subdomains c.domain ≡ false) (candidates p now)
      × (d ≡ record {
        action = p.default_action;
        category = [];
        reason = [];
        matched_domain = [];
        group_name = [];
        schedule_label = [];
        policy_version = p.version;
      }))
    ⊎ ((c : Candidate) × IsWinner name (candidates p now) c × Carries p c d)

no_match :
    (name : Text) (cs : List Candidate)
    → All (λ c. takes_over name none c ≡ false) cs
    → All (λ c. domain_matches name c.subdomains c.domain ≡ false) cs
unfolding is_longer
no_match name [] h = tt
no_match name (c ∷ cs) h = (ground arith, no_match name cs h.1)

pub scan_all-Decided :
    (p : Profile) (name : Text) (now : LocalTime) → Decided p name now (scan_all p name now)
scan_all-Decided p name now = elim (pick-Picked name none (candidates p now)) [
  | inl (none_matches, e) ↦
      inl (no_match name (candidates p now) none_matches, rw e at (scan_all-Shows p name now))
  | inr (c, e, w, _) ↦ inr (c, w, rw e at (scan_all-Shows p name now))
]

-- Where no pause is active, the decision is the profile's default if no rule and no group's domain
-- matches the name, and otherwise that of a candidate that matches, is longer than every match
-- before it and at least as long as every match after it: rules stand before groups, a group with
-- an active schedule takes the schedule's action, and the version is always the profile's.
pub decide_local-Decided :
    (p : Profile) (name : Text) (now : LocalTime)
    → first_active_pause p.pauses now ≡ none
    → Decided p name now (decide_local p name now)
unfolding decide_local
decide_local-Decided p name now h = rw (h, decide_local) (scan_all-Decided p name now)
