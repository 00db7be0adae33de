-- ===== src/Admin/Groups.antt =====
-- mergeGroups and updateProfilePackage: how the groups of a profile are edited.
pub mod Merged
use teen_dns.Base.{
  ℕ, ◌+◌, ◌≤◌, Bool, true, false, not, ◌&&◌, ◌||◌, if◌then◌else◌, List, [], ◌∷◌, ◌++◌, Option, none,
  some, Text, texts_equal, is_empty, trim_space, Map, lookup, insert, text_eq, Result, ok, err,
  ◌>>=◌, ◌>>◌, require,
}
use teen_dns.Policy.{Action, RuleGroup, ScheduledAction, Profile}

-- A group as a request sends it: `schedules` is `none` for the nil slice.
pub record Incoming : Type 0 where
  pub group : RuleGroup
  pub schedules : Option (List ScheduledAction)

pub data MergeError : Type 0 where
  id_and_name_required : MergeError
  domain_required : Text → MergeError

unfoldable pub known_groups : List RuleGroup → Map Text RuleGroup → Map Text RuleGroup
known_groups [] m = m
known_groups (g ∷ gs) m = known_groups gs (insert g.id g m)

abbrev pub schedules_or :
    List ScheduledAction → Option (List ScheduledAction) → List ScheduledAction
schedules_or stored none = stored
schedules_or stored (some given) = given

abbrev pub no_domains : List Text → Bool
no_domains [] = true
no_domains (d ∷ ds) = false

abbrev pub own_schedules : Option (List ScheduledAction) → List ScheduledAction
own_schedules none = []
own_schedules (some given) = given

-- The group beside the one that is stored under its id, if there is one.
unfoldable pub merge_with :
    RuleGroup → Option (List ScheduledAction) → Option RuleGroup → Result MergeError RuleGroup
merge_with g schedules none =
    if no_domains g.domains
    then err (domain_required g.name)
    else ok (record g {
      domain_source = [];
      default_domains = [];
      customized = true;
      schedules = own_schedules schedules;
    })
merge_with g schedules (some stored) = ok (record g {
  domain_source = stored.domain_source;
  default_domains = stored.default_domains;
  schedules = schedules_or stored.schedules schedules;
  domains =
      if not g.customized && not (no_domains stored.default_domains)
      then stored.default_domains
      else g.domains;
})

unfoldable pub merge_group : Map Text RuleGroup → Incoming → Result MergeError RuleGroup
unfolding merge_with
merge_group known i = do
  let g : RuleGroup = record (i.group) {
    id = trim_space i.group.id;
    name = trim_space i.group.name;
  }
  require (not (is_empty g.id || is_empty g.name)) id_and_name_required
  merge_with g i.schedules (lookup g.id known)

unfoldable pub merge_all : Map Text RuleGroup → List Incoming → Result MergeError (List RuleGroup)
unfolding merge_group
merge_all known [] = ok []
merge_all known (i ∷ is) = do
  first ← merge_group known i
  rest ← merge_all known is
  ok (first ∷ rest)

-- mergeGroups
unfoldable pub merge_groups : List RuleGroup → List Incoming → Result MergeError (List RuleGroup)
unfolding known_groups merge_all
merge_groups existing incoming = merge_all (known_groups existing []) incoming

-- The groups of a profile when a package is switched off: the first with its id is taken out.
unfoldable pub drop_group : Text → List RuleGroup → List RuleGroup
drop_group id [] = []
drop_group id (g ∷ gs) = let rest = drop_group id gs in if texts_equal g.id id then gs else g ∷ rest

-- Switched on: the first group with the id gets the action, and the package's text and domains if it
-- has no domains itself; without such a group the package is appended.
unfoldable pub put_group : RuleGroup → List RuleGroup → List RuleGroup
put_group offer [] = offer ∷ []
put_group offer (g ∷ gs) =
    let rest = put_group offer gs in
    if texts_equal g.id offer.id
    then (if no_domains g.domains then offer else record g { action = offer.action }) ∷ gs
    else g ∷ rest

-- The mutation of updateProfilePackage; `offer` is the package with the action of the request.
unfoldable pub set_package : RuleGroup → Bool → Profile → Profile
unfolding drop_group put_group
set_package offer enabled p = record p {
  groups = if enabled then put_group offer p.groups else drop_group offer.id p.groups;
  version = p.version + 1;
}
