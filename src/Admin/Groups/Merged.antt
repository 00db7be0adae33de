-- ===== src/Admin/Groups/Merged.antt =====
-- A request cannot choose where the domains of a group come from.
use teen_dns.Base.{
  ◌≡◌, refl, ◌⊎◌, inl, inr, true, false, ◌||◌, List, [], ◌∷◌, All, Option, none, some, Text,
  is_empty, trim_space, arith, Bool-cases, pair_eq, Option-cases, Map, lookup, text_eq, ok,
  Result-cases, ok_inj, subst, sym, ap, ap₂, ◌∙◌, map, All-map, insert,
}
use teen_dns.Base.Latest.{insert_all, Lacks, IsLast, lookup-insert_all_iff, lookup-insert_all-none}
use teen_dns.Policy.{RuleGroup, ScheduledAction}
use teen_dns.Admin.Groups.{
  Incoming, known_groups, no_domains, merge_with, merge_group, merge_all, merge_groups,
}

-- A group with an id that is known keeps the source and the defaults of the stored one; any other is
-- a customized one without a source, and has domains.
abbrev Merged : Map Text RuleGroup → RuleGroup → Type 0
Merged known g =
    (is_empty g.id ≡ false)
    × (is_empty g.name ≡ false)
    × (((lookup g.id known ≡ none)
          × (g.customized ≡ true)
          × (g.domain_source ≡ [])
          × (g.default_domains ≡ [])
          × (no_domains g.domains ≡ false))
        ⊎ ((stored : RuleGroup) × (lookup g.id known ≡ some stored)
            × (g.domain_source ≡ stored.domain_source)
            × (g.default_domains ≡ stored.default_domains)))

merge_with-Merged :
    (known : Map Text RuleGroup) (g out : RuleGroup) (schedules : Option (List ScheduledAction))
    → is_empty g.id ≡ false
    → is_empty g.name ≡ false
    → merge_with g schedules (lookup g.id known) ≡ ok out
    → Merged known out
unfolding merge_with
merge_with-Merged known g out schedules id name h = elim (Option-cases (lookup g.id known)) [
  | inr (stored, found) ↦
      subst (Merged known) (ok_inj _ _ (rw (found, merge_with) at h))
        (id, name, inr (stored, found, refl, refl))
  | inl missing ↦ elim (Bool-cases (no_domains g.domains)) [
    | inl bare ↦ absurd (ground (arith, missing, bare, h))
    | inr full ↦
        subst (Merged known) (ok_inj _ _ (rw (missing, merge_with, full) at h))
          (id, name, inl (missing, refl, refl, refl, full))
  ]
]

merge_group-Merged :
    (known : Map Text RuleGroup) (i : Incoming) (out : RuleGroup)
    → merge_group known i ≡ ok out
    → Merged known out
unfolding merge_group
merge_group-Merged known i out h =
    elim (Bool-cases (is_empty (trim_space i.group.id) || is_empty (trim_space i.group.name))) [
      | inl bare ↦ absurd (ground (arith, bare, h))
      | inr full ↦
          merge_with-Merged known
            (record (i.group) { id = trim_space i.group.id; name = trim_space i.group.name }) out
            i.schedules (ground (arith, full)) (ground (arith, full)) (rw full at h)
    ]

merge_all-Merged :
    (known : Map Text RuleGroup) (is : List Incoming) (out : List RuleGroup)
    → merge_all known is ≡ ok out
    → All (Merged known) out
unfolding merge_all
merge_all-Merged known [] out h = subst (All (Merged known)) (ok_inj _ _ h) tt
merge_all-Merged known (i ∷ is) out h = elim (Result-cases (merge_group known i)) [
  | inr (e, bad) ↦ absurd (ground (arith, bad, h))
  | inl (g, good) ↦ elim (Result-cases (merge_all known is)) [
    | inr (e, bad) ↦ absurd (ground (arith, good, bad, h))
    | inl (gs, all) ↦
        subst (All (Merged known)) (ok_inj _ _ (rw (good, all) at h))
          (merge_group-Merged known i g good, merge_all-Merged known is gs all)
  ]
]

known_groups-insert_all :
    (gs : List RuleGroup) (m : Map Text RuleGroup)
    → known_groups gs m ≡ insert_all (λ (g : RuleGroup). g.id) gs m
unfolding known_groups insert_all
known_groups-insert_all [] m = refl
known_groups-insert_all (g ∷ gs) m = known_groups-insert_all gs (insert g.id g m)

-- A group under whose id a group was stored keeps the source and the defaults of the last such one; any
-- other is a customized one without a source, and has domains.
abbrev pub MergedInto : List RuleGroup → RuleGroup → Type 0
MergedInto existing g =
    (is_empty g.id ≡ false)
    × (is_empty g.name ≡ false)
    × ((Lacks (λ (x : RuleGroup). x.id) g.id existing
          × (g.customized ≡ true)
          × (g.domain_source ≡ [])
          × (g.default_domains ≡ [])
          × (no_domains g.domains ≡ false))
        ⊎ ((stored : RuleGroup) × IsLast (λ (x : RuleGroup). x.id) g.id existing stored
            × (g.domain_source ≡ stored.domain_source)
            × (g.default_domains ≡ stored.default_domains)))

Merged-MergedInto :
    (existing : List RuleGroup) (g : RuleGroup)
    → Merged (known_groups existing []) g
    → MergedInto existing g
Merged-MergedInto existing g (id, name, rest) =
    let same = ap (lookup g.id) (known_groups-insert_all existing []) in
    (
      id,
      name,
      elim rest [
        | inl (missing, customized, source, defaults, full) ↦ inl (
          lookup-insert_all-none (λ (x : RuleGroup). x.id) g.id existing (sym same ∙ missing),
          customized,
          source,
          defaults,
          full,
        )
        | inr (stored, found, source, defaults) ↦ inr (
          stored,
          (lookup-insert_all_iff (λ (x : RuleGroup). x.id) g.id existing stored).0
              (sym same ∙ found),
          source,
          defaults,
        )
      ],
    )

merge_with-names :
    (g out : RuleGroup) (schedules : Option (List ScheduledAction)) (found : Option RuleGroup)
    → merge_with g schedules found ≡ ok out
    → (out.id ≡ g.id) × (out.name ≡ g.name)
unfolding merge_with
merge_with-names g out schedules none h = elim (Bool-cases (no_domains g.domains)) [
  | inl bare ↦ absurd (ground (arith, bare, h))
  | inr full ↦
      subst (λ (x : RuleGroup). (x.id ≡ g.id) × (x.name ≡ g.name)) (ok_inj _ _ (rw full at h))
        (refl, refl)
]
merge_with-names g out schedules (some stored) h =
    subst (λ (x : RuleGroup). (x.id ≡ g.id) × (x.name ≡ g.name)) (ok_inj _ _ h) (refl, refl)

merge_group-names :
    (known : Map Text RuleGroup) (i : Incoming) (out : RuleGroup)
    → merge_group known i ≡ ok out
    → (out.id ≡ trim_space i.group.id) × (out.name ≡ trim_space i.group.name)
unfolding merge_group
merge_group-names known i out h =
    elim (Bool-cases (is_empty (trim_space i.group.id) || is_empty (trim_space i.group.name))) [
      | inl bare ↦ absurd (ground (arith, bare, h))
      | inr full ↦
          merge_with-names
            (record (i.group) { id = trim_space i.group.id; name = trim_space i.group.name }) out
            i.schedules (lookup (trim_space i.group.id) known) (rw full at h)
    ]

-- The id and the name of each group, and as a request sends them, without spaces around.
abbrev pub names_of : List RuleGroup → List (Text × Text)
names_of gs = map {B = Text × Text} (λ (g : RuleGroup). (g.id, g.name)) gs

abbrev pub sent_names : List Incoming → List (Text × Text)
sent_names is =
    map {B = Text × Text} (λ (i : Incoming). (trim_space i.group.id, trim_space i.group.name)) is

merge_all-names :
    (known : Map Text RuleGroup) (is : List Incoming) (out : List RuleGroup)
    → merge_all known is ≡ ok out
    → names_of out ≡ sent_names is
unfolding merge_all
merge_all-names known [] out h = ap names_of (sym (ok_inj _ _ h))
merge_all-names known (i ∷ is) out h = elim (Result-cases (merge_group known i)) [
  | inr (e, bad) ↦ absurd (ground (arith, bad, h))
  | inl (g, good) ↦ elim (Result-cases (merge_all known is)) [
    | inr (e, bad) ↦ absurd (ground (arith, good, bad, h))
    | inl (gs, all) ↦
        let (id, name) = merge_group-names known i g good in
        ap names_of (sym (ok_inj _ _ (rw (good, all) at h)))
        ∙ ap₂ (λ (a : Text × Text) (b : List (Text × Text)). a ∷ b) (pair_eq id name)
            (merge_all-names known is gs all)
  ]
]

-- Whatever groups a request sends, the merged groups have the ids and names that were sent, in their
-- order and without spaces around them, and none is empty. The source and the default domains of a
-- merged group are those of the last group of the profile with its id; a group whose id no group of
-- the profile has is a customized one without source and defaults, and has domains of its own.
pub merge_groups-Merged :
    (existing : List RuleGroup) (incoming : List Incoming) (out : List RuleGroup)
    → merge_groups existing incoming ≡ ok out
    → (names_of out ≡ sent_names incoming) × All (MergedInto existing) out
unfolding merge_groups
merge_groups-Merged existing incoming out h = (
  merge_all-names (known_groups existing []) incoming out h,
  All-map out (Merged-MergedInto existing)
      (merge_all-Merged (known_groups existing []) incoming out h),
)
