-- ===== src/Classifier/Catalog/Loaded.antt =====
-- What LoadCatalog promises of a catalogue.
use teen_dns.Base.{
  ◌≡◌, ◌<◌, refl, sym, subst, inl, inr, true, false, any, List, [], ◌∷◌, All, All-map, Pairs,
  length, some, Text, texts_equal, texts_equal_iff, is_empty, trim_space, arith, Bool-cases, branch,
  Option-cases, ok, Result-cases, ok_inj, Map, lookup, text_eq,
}
use teen_dns.Digest.Report.{text_less}
use teen_dns.Digest.Report.Order.{text_less_trans, text_less_total}
use teen_dns.Classifier.{Criterion}
use teen_dns.Classifier.Catalog.{
  Axis, GuidanceItem, GuidanceGroup, Metadata, know_axes, guided, guide, all_items, place_criterion,
  sort_criteria, nonempty, load_catalog,
}

-- The criterion says what the taxonomy knows under its id, and has a definition.
abbrev pub Defined : Map Text Metadata → Criterion → Type 0
Defined known c =
    (lookup c.id known ≡ some (record { label = c.label; axis = c.axis; rating = c.rating }))
    × (is_empty (trim_space c.definition) ≡ false)

abbrev pub Before : Criterion → Criterion → Type 0
Before c d = text_less c.id d.id ≡ true

abbrev Other : Text → Criterion → Type 0
Other id c = texts_equal id c.id ≡ false

guided-Defined :
    (known : Map Text Metadata) (seen : List Text) (rating : Text) (item : GuidanceItem)
    (c : Criterion)
    → guided known seen rating item ≡ ok c
    → Defined known c × (c.id ≡ item.id) × (any (texts_equal c.id) seen ≡ false)
unfolding guided
guided-Defined known seen rating item c h = elim (Option-cases (lookup item.id known)) [
  | inl missing ↦ absurd (ground (arith, missing, h))
  | inr (meta, found) ↦ elim (Bool-cases (any (texts_equal item.id) seen)) [
    | inl again ↦ absurd (ground (arith, found, again, h))
    | inr new ↦ elim (Bool-cases (texts_equal meta.rating rating)) [
      | inr other ↦ absurd (ground (arith, found, new, other, h))
      | inl agrees ↦ elim (Bool-cases (is_empty (trim_space item.definition))) [
        | inl blank ↦ absurd (ground (arith, found, new, agrees, blank, h))
        | inr told ↦
            subst
              (λ (x : Criterion).
                Defined known x × (x.id ≡ item.id) × (any (texts_equal x.id) seen ≡ false))
              (ok_inj _ c (rw (found, new, agrees, told) at h)) ((found, told), refl, new)
      ]
    ]
  ]
]

unseen :
    (t u : Text) (seen : List Text)
    → any (texts_equal t) (u ∷ seen) ≡ false
    → (texts_equal u t ≡ false) × (any (texts_equal t) seen ≡ false)
unfolding any
unseen t u seen h = elim (Bool-cases (texts_equal u t)) [
  | inl same ↦
      let back : texts_equal t u ≡ true =
        (texts_equal_iff t u).1 (sym ((texts_equal_iff u t).0 same)) in
      absurd (ground (arith, back, h))
  | inr other ↦ (other, ground (arith, h))
]

-- The criteria of the guidance, behind the ids that were seen.
record Guided (known : Map Text Metadata) (seen : List Text) (cs : List Criterion) : Type 0 where
  defined : All (Defined known) cs
  new : All (λ (c : Criterion). any (texts_equal c.id) seen ≡ false) cs
  distinct : Pairs (λ (c d : Criterion). Other c.id d) cs

guide-Guided :
    (known : Map Text Metadata) (seen : List Text) (items : List (Text × GuidanceItem))
    (cs : List Criterion)
    → guide known seen items ≡ ok cs
    → Guided known seen cs
unfolding guide
guide-Guided known seen [] cs h =
    subst (Guided known seen) (ok_inj _ cs h) (record { defined = tt; new = tt; distinct = tt })
guide-Guided known seen ((rating, item) ∷ items) cs h =
    elim (Result-cases (guided known seen rating item)) [
      | inr (e, bad) ↦ absurd (ground (arith, bad, h))
      | inl (c, good) ↦ elim (Result-cases (guide known (item.id ∷ seen) items)) [
        | inr (e, bad) ↦ absurd (ground (arith, good, bad, h))
        | inl (rest, fine) ↦
            let first = guided-Defined known seen rating item c good in
            let more = guide-Guided known (item.id ∷ seen) items rest fine in
            subst (Guided known seen) (ok_inj _ cs (rw (good, fine) at h)) (record {
              defined = (first.0, more.defined);
              new = (first.2, All-map rest (λ d k. (unseen d.id item.id seen k).1) more.new);
              distinct = (
                All-map rest
                    (λ d k. subst (λ id. Other id d) (sym first.1) (unseen d.id item.id seen k).0)
                    more.new,
                more.distinct,
              );
            })
      ]
    ]

place_criterion-All :
    (P : Criterion → Type 0) (c : Criterion) (ds : List Criterion)
    → P c
    → All P ds
    → All P (place_criterion c ds)
unfolding place_criterion
place_criterion-All P c [] h a = (h, tt)
place_criterion-All P c (d ∷ ds) h a =
    branch (All P) (text_less d.id c.id) (a.0, place_criterion-All P c ds h a.1) (h, a)

place_criterion_ascending :
    (c : Criterion) (ds : List Criterion)
    → All (Other c.id) ds
    → Pairs Before ds
    → Pairs Before (place_criterion c ds)
unfolding place_criterion
place_criterion_ascending c [] h a = (tt, tt)
place_criterion_ascending c (d ∷ ds) h a = elim (Bool-cases (text_less d.id c.id)) [
  | inl later ↦
      rw later
        (place_criterion-All (Before d) c ds later a.0, place_criterion_ascending c ds h.1 a.1)
  | inr first ↦
      let less : text_less c.id d.id ≡ true =
        ground (arith, first, text_less_total c.id d.id h.0) in
      rw first ((less, All-map ds (λ e k. text_less_trans d.id e.id c.id k first) a.0), a)
]

sort_criteria-All :
    (P : Criterion → Type 0) (cs : List Criterion) → All P cs → All P (sort_criteria cs)
unfolding sort_criteria
sort_criteria-All P [] a = tt
sort_criteria-All P (c ∷ cs) a =
    place_criterion-All P c (sort_criteria cs) a.0 (sort_criteria-All P cs a.1)

sort_criteria_ascending :
    (cs : List Criterion)
    → Pairs (λ (c d : Criterion). Other c.id d) cs
    → Pairs Before (sort_criteria cs)
unfolding sort_criteria
sort_criteria_ascending [] a = tt
sort_criteria_ascending (c ∷ cs) a =
    place_criterion_ascending c (sort_criteria cs) (sort_criteria-All (Other c.id) cs a.0)
      (sort_criteria_ascending cs a.1)

nonempty-length : (cs out : List Criterion) → nonempty cs ≡ ok out → (0 < length out) × (cs ≡ out)
nonempty-length [] out h = absurd (ground (arith, h))
nonempty-length (c ∷ cs) out h =
    subst (λ (x : List Criterion). (0 < length x) × (c ∷ cs ≡ x)) (ok_inj _ out h)
      (ground arith, refl)

some_length : (c : Criterion) (ds : List Criterion) → 0 < length (c ∷ ds)
some_length c ds = ground arith

length-place_criterion : (c : Criterion) (ds : List Criterion) → 0 < length (place_criterion c ds)
unfolding place_criterion
length-place_criterion c [] = ground arith
length-place_criterion c (d ∷ ds) =
    branch (λ (xs : List Criterion). 0 < length xs) (text_less d.id c.id)
      (some_length d (place_criterion c ds)) (some_length c (d ∷ ds))

length-sort_criteria : (cs : List Criterion) → 0 < length cs → 0 < length (sort_criteria cs)
unfolding sort_criteria
length-sort_criteria [] h = ground (arith, h)
length-sort_criteria (c ∷ cs) h = length-place_criterion c (sort_criteria cs)

-- A catalogue that LoadCatalog returns is not empty; its criteria are in strictly ascending order of
-- their ids, so that no id stands twice; and each has a definition, and the label, the axis and the
-- rating that the taxonomy has under its id.
pub load_catalog-Defined :
    (taxonomy : List Axis) (guidance : List GuidanceGroup) (cs : List Criterion)
    → load_catalog (some taxonomy) (some guidance) ≡ ok cs
    → (0 < length cs)
      × Pairs Before cs
      × ((known : Map Text Metadata) × (know_axes taxonomy [] ≡ ok known) × All (Defined known) cs)
unfolding load_catalog
load_catalog-Defined taxonomy guidance cs h = elim (Result-cases (know_axes taxonomy [])) [
  | inr (e, bad) ↦ absurd (ground (arith, bad, h))
  | inl (known, good) ↦ elim (Result-cases (guide known [] (all_items guidance))) [
    | inr (e, bad) ↦ absurd (ground (arith, good, bad, h))
    | inl (items, fine) ↦ elim (Result-cases (nonempty items)) [
      | inr (e, bad) ↦ absurd (ground (arith, good, fine, bad, h))
      | inl (some_items, there) ↦
          let g = guide-Guided known [] (all_items guidance) items fine in
          let full = nonempty-length items some_items there in
          let same : sort_criteria some_items ≡ cs = ok_inj _ cs (rw (good, fine, there) at h) in
          subst
            (λ (x : List Criterion).
              (0 < length x)
              × Pairs Before x
              × ((m : Map Text Metadata) × (know_axes taxonomy [] ≡ ok m) × All (Defined m) x))
            same
            (
              length-sort_criteria some_items full.0,
              sort_criteria_ascending some_items (subst (Pairs _) full.1 g.distinct),
              (
                known,
                good,
                sort_criteria-All (Defined known) some_items (subst (All _) full.1 g.defined),
              ),
            )
    ]
  ]
]
