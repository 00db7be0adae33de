-- ===== src/Classifier/Rating.antt =====
-- ClassifyURL of classifier.go: from the scores of the criteria to a rating and a decision. The scores
-- come in the order in which Go ranges over their map.
pub mod Orders
pub mod Decided
use teen_dns.Base.{
  ℕ, ℤ, pos, negsuc, zero, suc, ◌+◌, ◌-◌, ◌*◌, ◌/◌, ◌%◌, Bool, true, false, not, ◌&&◌, ◌||◌, ltb,
  leb, eqb, if◌then◌else◌, List, [], ◌∷◌, ◌++◌, Option, none, some, Text, codes, texts_equal, Map,
  lookup, insert, text_eq, Result, ok, err, ◌>>=◌, ◌>>◌, require,
}
use teen_dns.Platform.{Instant}
use teen_dns.Digest.Report.{text_less}
use teen_dns.Classifier.{
  PageProfile, Criterion, Question, Evidence, CriterionResult, ClassifierInfo, Classification,
}
use teen_dns.Classifier.Catalog.{catalog_questions}

-- strconv.Atoi, where only what exceeds 0 counts: 0 for no number and for a negative one, and the
-- greatest int for a number beyond it.
unfoldable pub digits_value : ℕ → Text → Option ℕ
digits_value n [] = some n
digits_value n (c ∷ s) =
    let rest = digits_value (10 * n + (c - b'0')) s in
    if leb b'0' c && leb c b'9' then rest else none

abbrev pub max_int : ℕ
max_int = 9_223_372_036_854_775_807

abbrev pub clamp : Option ℕ → ℕ
clamp none = 0
clamp (some n) = if ltb max_int n then max_int else n

abbrev pub unsigned_value : Text → ℕ
unsigned_value [] = 0
unsigned_value (c ∷ s) = clamp (digits_value 0 (c ∷ s))

unfoldable pub rating_value : Text → ℕ
unfolding digits_value
rating_value [] = 0
rating_value (c ∷ s) = if eqb c b'+' then unsigned_value s else unsigned_value (c ∷ s)

-- strconv.Itoa: as many steps as the number has digits, for which the number itself is enough.
unfoldable pub print_digits : ℕ → ℕ → Text
print_digits zero n = []
print_digits (suc fuel) n =
    let rest = print_digits fuel (n / 10) in (if ltb n 10 then [] else rest) ++ (b'0' + n % 10) ∷ []

unfoldable pub itoa : ℕ → Text
unfolding print_digits
itoa n = print_digits (suc n) n

unfoldable pub criteria_by_id : List Criterion → Map Text Criterion → Map Text Criterion
criteria_by_id [] m = m
criteria_by_id (c ∷ cs) m = criteria_by_id cs (insert c.id c m)

abbrev pub matched_result : PageProfile → ℕ → Criterion → CriterionResult
matched_result page score c = record {
  axis = c.axis;
  criterion_id = c.id;
  label = c.label;
  confidence = score;
  evidence =
      record {
        kind = codes "metadata";
        description =
            codes
              "Pontuação calculada sobre o perfil textual extraído da página; requer revisão da evidência original.";
        locator = page.final_url;
      }
      ∷ [];
}

-- What the loop over the scores keeps: the greatest rating and the matched criteria, the latest first.
pub record MatchState : Type 0 where
  pub max_rating : ℕ
  pub matched : List CriterionResult

abbrev pub higher : ℕ → ℕ → ℕ
higher rating best = if ltb best rating then rating else best

unfoldable pub match_criterion : PageProfile → ℕ → Option Criterion → MatchState → MatchState
match_criterion page score none m = m
match_criterion page score (some c) m = record {
  max_rating = higher (rating_value c.rating) m.max_rating;
  matched = matched_result page score c ∷ m.matched;
}

unfoldable pub match_scores :
    PageProfile → Map Text Criterion → ℕ → Map Text ℕ → MatchState → MatchState
unfolding match_criterion
match_scores page known threshold [] m = m
match_scores page known threshold ((id, score) ∷ scores) m =
    match_scores page known threshold scores
      (if ltb score threshold then m else match_criterion page score (lookup id known) m)

-- The test of the sort: confidence first, the greater one in front, then the id.
unfoldable pub result_less : CriterionResult → CriterionResult → Bool
result_less a b =
    if eqb a.confidence b.confidence
    then text_less a.criterion_id b.criterion_id
    else ltb b.confidence a.confidence

unfoldable pub place_result : CriterionResult → List CriterionResult → List CriterionResult
unfolding result_less
place_result x [] = x ∷ []
place_result x (y ∷ ys) =
    let rest = place_result x ys in if result_less y x then y ∷ rest else x ∷ y ∷ ys

-- sort.Slice
unfoldable pub sort_results : List CriterionResult → List CriterionResult
unfolding place_result
sort_results [] = []
sort_results (x ∷ xs) = place_result x (sort_results xs)

unfoldable pub rating_text : ℕ → Text
unfolding itoa
rating_text n = if ltb 0 n then itoa n else codes "unknown"

unfoldable pub decision_text : ℕ → Text
decision_text n =
    if ltb 0 n then (if leb 16 n then codes "protect" else codes "mediate") else codes "observe"

unfoldable pub reasons_for : ℕ → List Text
reasons_for n =
    if ltb 0 n
    then codes "Foi detectado ao menos um critério incompatível com a faixa de 12 a 13 anos." ∷ []
    else codes "Nenhum critério 14+ superou o limiar; isso não comprova classificação livre ou 12."
      ∷ []

-- The part of ClassifyURL behind the engine's scores.
unfoldable pub classify :
    PageProfile → List Criterion → ℕ → Map Text ℕ → Instant → ClassifierInfo → Classification
unfolding criteria_by_id match_scores sort_results rating_text decision_text reasons_for
classify page catalog threshold scores now info =
    let found =
      match_scores page (criteria_by_id catalog []) threshold scores
        (record { max_rating = 0; matched = [] }) in
    record {
      taxonomy_version = codes "1.0.0";
      profile_id = codes "br-12-13-v1";
      subject_url = page.final_url;
      subject_scope = codes "page";
      rating = rating_text found.max_rating;
      criteria = sort_results found.matched;
      decision = decision_text found.max_rating;
      decision_reasons = reasons_for found.max_rating;
      review_status = codes "machine_suggestion";
      classified_at = now;
      classifier = info;
    }

pub data ClassifyError : Type 0 where
  not_configured bad_threshold not_extracted not_evaluated : ClassifyError

-- 0.75 where no threshold is set
abbrev pub threshold_or_default : ℕ → ℤ → ℤ
threshold_or_default quarter (pos zero) = pos (3 * quarter)
threshold_or_default quarter t = t

abbrev pub positive_threshold : ℕ → ℤ → Result ClassifyError ℕ
positive_threshold quarter (negsuc n) = err bad_threshold
positive_threshold quarter (pos n) =
    if ltb 0 n && leb n (4 * quarter) then ok n else err bad_threshold

abbrev pub or_error : {A : Type 0} → ClassifyError → Option A → Result ClassifyError A
or_error e none = err e
or_error e (some a) = ok a

-- ClassifyURL; the catalogue is `none` where one of the three parts is missing, `extract` and `evaluate`
-- are the other two.
unfoldable pub classify_url :
    ℕ
    → Option (List Criterion)
    → ℤ
    → (Text → Option PageProfile)
    → (PageProfile → Map Text Question → Option (Map Text ℕ))
    → Instant
    → ClassifierInfo
    → Text
    → Result ClassifyError Classification
unfolding classify
classify_url quarter catalog threshold extract evaluate now info raw_url = do
  criteria ← or_error not_configured catalog
  t ← positive_threshold quarter (threshold_or_default quarter threshold)
  page ← or_error not_extracted (extract raw_url)
  scores ← or_error not_evaluated (evaluate page (catalog_questions criteria []))
  ok (classify page criteria t scores now info)
