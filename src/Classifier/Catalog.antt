-- ===== src/Classifier/Catalog.antt =====
-- LoadCatalog, Criteria and Questions. The two documents are arguments, as what they decode to.
pub mod Loaded
use teen_dns.Base.{
  ℕ, Bool, true, false, not, ◌&&◌, if◌then◌else◌, any, List, [], ◌∷◌, ◌++◌, Option, none, some,
  Text, codes, texts_equal, is_empty, trim_space, Map, lookup, insert, has_key, text_eq, Result, ok,
  err, ◌>>=◌, ◌>>◌, require,
}
use teen_dns.Digest.Report.{text_less}
use teen_dns.Classifier.{Criterion, Question}

pub record TaxonomyCriterion : Type 0 where
  pub id : Text
  pub label : Text

pub record Axis : Type 0 where
  pub code : Text
  pub bands : Map Text (List TaxonomyCriterion)

pub record GuidanceItem : Type 0 where
  pub id : Text
  pub definition : Text
  pub signals : List Text

pub record GuidanceGroup : Type 0 where
  pub rating : Text
  pub criteria : List GuidanceItem

pub record Metadata : Type 0 where
  pub label : Text
  pub axis : Text
  pub rating : Text

pub data CatalogError : Type 0 where
  not_decoded no_criteria : CatalogError
  duplicate_criterion unknown_criterion duplicate_guidance rating_mismatch empty_definition :
      Text → CatalogError

unfoldable pub know_criteria :
    Text
    → Text
    → List TaxonomyCriterion
    → Map Text Metadata
    → Result CatalogError (Map Text Metadata)
know_criteria axis rating [] known = ok known
know_criteria axis rating (c ∷ cs) known = do
  require (not (has_key c.id known)) (duplicate_criterion c.id)
  know_criteria axis rating cs
      (insert c.id (record { label = c.label; axis = axis; rating = rating }) known)

unfoldable pub know_bands :
    Text
    → Map Text (List TaxonomyCriterion)
    → Map Text Metadata
    → Result CatalogError (Map Text Metadata)
unfolding know_criteria
know_bands axis [] known = ok known
know_bands axis ((rating, criteria) ∷ bands) known = do
  next ← know_criteria axis rating criteria known
  know_bands axis bands next

unfoldable pub know_axes : List Axis → Map Text Metadata → Result CatalogError (Map Text Metadata)
unfolding know_bands
know_axes [] known = ok known
know_axes (a ∷ axes) known = do next ← know_bands a.code a.bands known; know_axes axes next

abbrev pub known_or : Text → Option Metadata → Result CatalogError Metadata
known_or id none = err (unknown_criterion id)
known_or id (some meta) = ok meta

-- What one item of the guidance adds, behind the ids that were `seen`.
unfoldable pub guided :
    Map Text Metadata → List Text → Text → GuidanceItem → Result CatalogError Criterion
guided known seen rating item = do
  meta ← known_or item.id (lookup item.id known)
  require (not (any (texts_equal item.id) seen)) (duplicate_guidance item.id)
  require (texts_equal meta.rating rating) (rating_mismatch item.id)
  require (not (is_empty (trim_space item.definition))) (empty_definition item.id)
  ok (record {
    id = item.id;
    label = meta.label;
    axis = meta.axis;
    rating = meta.rating;
    definition = item.definition;
    signals = item.signals;
  })

-- The items of the groups with their ratings, in the order of the two loops.
unfoldable pub rated_items : Text → List GuidanceItem → List (Text × GuidanceItem)
rated_items rating [] = []
rated_items rating (item ∷ items) = (rating, item) ∷ rated_items rating items

unfoldable pub all_items : List GuidanceGroup → List (Text × GuidanceItem)
unfolding rated_items
all_items [] = []
all_items (g ∷ groups) = rated_items g.rating g.criteria ++ all_items groups

unfoldable pub guide :
    Map Text Metadata
    → List Text
    → List (Text × GuidanceItem)
    → Result CatalogError (List Criterion)
unfolding guided
guide known seen [] = ok []
guide known seen ((rating, item) ∷ items) = do
  first ← guided known seen rating item
  rest ← guide known (item.id ∷ seen) items
  ok (first ∷ rest)

unfoldable pub place_criterion : Criterion → List Criterion → List Criterion
place_criterion c [] = c ∷ []
place_criterion c (d ∷ ds) =
    let rest = place_criterion c ds in if text_less d.id c.id then d ∷ rest else c ∷ d ∷ ds

-- sort.Slice by id
unfoldable pub sort_criteria : List Criterion → List Criterion
unfolding place_criterion
sort_criteria [] = []
sort_criteria (c ∷ cs) = place_criterion c (sort_criteria cs)

abbrev pub nonempty : List Criterion → Result CatalogError (List Criterion)
nonempty [] = err no_criteria
nonempty (c ∷ cs) = ok (c ∷ cs)

abbrev pub decoded : {A : Type 0} → Option A → Result CatalogError A
decoded none = err not_decoded
decoded (some a) = ok a

-- LoadCatalog; the catalogue is its criteria
unfoldable pub load_catalog :
    Option (List Axis) → Option (List GuidanceGroup) → Result CatalogError (List Criterion)
unfolding know_axes all_items guide sort_criteria
load_catalog taxonomy guidance = do
  axes ← decoded taxonomy
  groups ← decoded guidance
  known ← know_axes axes []
  criteria ← guide known [] (all_items groups)
  found ← nonempty criteria
  ok (sort_criteria found)

-- strings.Join
unfoldable pub join_texts : Text → List Text → Text
join_texts sep [] = []
join_texts sep (part ∷ []) = part
join_texts sep (part ∷ next ∷ parts) = part ++ sep ++ join_texts sep (next ∷ parts)

abbrev pub signals_of : List Text → Text
signals_of [] = []
signals_of (s ∷ signals) =
    codes " Sinais possíveis: " ++ join_texts (codes "; ") (s ∷ signals) ++ codes "."

abbrev pub question_of : Criterion → Question
question_of c = record {
  instructions =
      codes
        "Com base somente no estado fornecido, há evidência suficiente para este critério de classificação indicativa? Critério: "
      ++ c.definition
      ++ signals_of c.signals;
  true_label = codes "Há evidência concreta no estado para o critério.";
  false_label = codes "O estado não contém evidência suficiente para o critério.";
}

-- Questions, from the map of the criteria before
unfoldable pub catalog_questions : List Criterion → Map Text Question → Map Text Question
unfolding join_texts
catalog_questions [] m = m
catalog_questions (c ∷ cs) m = catalog_questions cs (insert c.id (question_of c) m)
