-- ===== src/Policy/Decide/Candidates.antt =====
-- The specification of a decision: the rules and the groups' domains as one list of candidates,
-- and what it means that one of them wins.
use teen_dns.Base.{
  ℕ, ◌≤◌, ◌<◌, ◌≡◌, refl, ◌⊎◌, inl, inr, Bool, true, false, ◌&&◌, if◌then◌else◌, List, [], ◌∷◌,
  ◌++◌, map, All, Option, none, some, Text, byte_length, arith, Bool-cases, ap, and_true,
}
use teen_dns.Platform.{LocalTime}
use teen_dns.Policy.{Action, Rule, RuleGroup, Profile, ScheduledAction}
use teen_dns.Policy.Schedule.{active_scheduled_action}
use teen_dns.Policy.Decide.{domain_matches, is_longer}

pub record Candidate : Type 0 where
  pub domain : Text
  pub subdomains : Bool
  pub action : Action
  pub category : Text
  pub reason : Text
  pub group_name : Text

abbrev pub rule_candidate : Rule → Candidate
rule_candidate r = record {
  domain = r.domain;
  subdomains = r.include_subdomains;
  action = r.action;
  category = r.category;
  reason = r.reason;
  group_name = [];
}

abbrev pub action_or : Action → Option ScheduledAction → Action
action_or a none = a
action_or a (some s) = s.action

-- A domain of a group stands for the group's action, or for that of its active schedule.
abbrev pub group_candidate : LocalTime → RuleGroup → Text → Candidate
group_candidate now g domain = record {
  domain = domain;
  subdomains = true;
  action = action_or g.action (active_scheduled_action g.schedules now);
  category = g.category;
  reason = g.reason;
  group_name = g.name;
}

abbrev pub groups_candidates : LocalTime → List RuleGroup → List Candidate
groups_candidates now [] = []
groups_candidates now (g ∷ gs) = map (group_candidate now g) g.domains ++ groups_candidates now gs

abbrev pub candidates : Profile → LocalTime → List Candidate
candidates p now = map rule_candidate p.rules ++ groups_candidates now p.groups

abbrev pub Matches : Text → Candidate → Type 0
Matches name c = domain_matches name c.subdomains c.domain ≡ true

abbrev pub len : Candidate → ℕ
len c = byte_length c.domain

-- `c` matches, is longer than every match before it, and no match after it is longer.
pub record IsWinner (name : Text) (cs : List Candidate) (c : Candidate) : Type 0 where
  pub before : List Candidate
  pub after : List Candidate
  pub split : cs ≡ before ++ c ∷ after
  pub matches : Matches name c
  pub earlier : All (λ d. Matches name d → len d < len c) before
  pub later : All (λ d. Matches name d → len d ≤ len c) after

abbrev pub best_length : Option Candidate → Option ℕ
best_length none = none
best_length (some c) = some (len c)

-- The candidate takes over from the best one so far.
abbrev pub takes_over : Text → Option Candidate → Candidate → Bool
takes_over name o c = domain_matches name c.subdomains c.domain && is_longer (len c) (best_length o)

unfoldable pub pick : Text → Option Candidate → List Candidate → Option Candidate
pick name o [] = o
pick name o (c ∷ cs) = pick name (if takes_over name o c then some c else o) cs

abbrev pub Picked : Text → Option Candidate → List Candidate → Type 0
Picked name o cs =
    (All (λ c. takes_over name o c ≡ false) cs × (pick name o cs ≡ o))
    ⊎ ((c : Candidate) × (pick name o cs ≡ some c)
        × IsWinner name cs c
        × (is_longer (len c) (best_length o) ≡ true))

not_over :
    (name : Text) (c : Candidate) (ds : List Candidate)
    → All (λ d. takes_over name (some c) d ≡ false) ds
    → All (λ d. Matches name d → len d ≤ len c) ds
unfolding is_longer
not_over name c [] h = tt
not_over name c (d ∷ ds) h = (λ m. ground (arith, h.0, m), not_over name c ds h.1)

shorter_than :
    (name : Text) (o : Option Candidate) (c d : Candidate)
    → takes_over name o c ≡ false
    → is_longer (len d) (best_length o) ≡ true
    → Matches name c
    → len c < len d
unfolding is_longer
shorter_than name none c d h l m = ground arith
shorter_than name (some b) c d h l m = ground arith

longer_trans :
    (name : Text) (o : Option Candidate) (c d : Candidate)
    → takes_over name o c ≡ true
    → len c < len d
    → is_longer (len d) (best_length o) ≡ true
unfolding is_longer
longer_trans name none c d h l = refl
longer_trans name (some b) c d h l = ground arith

IsWinner-cons :
    (name : Text) (c d : Candidate) (cs : List Candidate)
    → (Matches name c → len c < len d)
    → IsWinner name cs d
    → IsWinner name (c ∷ cs) d
IsWinner-cons name c d cs h w = record {
  before = c ∷ w.before;
  after = w.after;
  split = ap (◌∷◌ c) w.split;
  matches = w.matches;
  earlier = (h, w.earlier);
  later = w.later;
}

longer_than : (c d : Candidate) → is_longer (len d) (best_length (some c)) ≡ true → len c < len d
unfolding is_longer
longer_than c d l = ground arith

IsWinner-first :
    (name : Text) (c : Candidate) (cs : List Candidate)
    → Matches name c
    → All (λ d. takes_over name (some c) d ≡ false) cs
    → IsWinner name (c ∷ cs) c
IsWinner-first name c cs m rest = record {
  before = [];
  after = cs;
  split = refl;
  matches = m;
  earlier = tt;
  later = not_over name c cs rest;
}

-- The scan keeps the best candidate so far, unless a later one wins over it.
pub pick-Picked : (name : Text) (o : Option Candidate) (cs : List Candidate) → Picked name o cs
unfolding pick
pick-Picked name o [] = inl (tt, refl)
pick-Picked name o (c ∷ cs) = elim (Bool-cases (takes_over name o c)) [
  | inl over ↦ elim (pick-Picked name (some c) cs) [
    | inl (rest, e) ↦
        inr
          (c, rw over e, IsWinner-first name c cs (and_true _ _ over).0 rest, (and_true _ _ over).1)
    | inr (d, e, w, l) ↦ inr (
      d,
      rw over e,
      IsWinner-cons name c d cs (λ _. longer_than c d l) w,
      longer_trans name o c d over (longer_than c d l),
    )
  ]
  | inr stays ↦ elim (pick-Picked name o cs) [
    | inl (rest, e) ↦ inl ((stays, rest), rw stays e)
    | inr (d, e, w, l) ↦
        inr (d, rw stays e, IsWinner-cons name c d cs (shorter_than name o c d stays l) w, l)
  ]
]
