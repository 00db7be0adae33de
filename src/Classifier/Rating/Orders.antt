-- ===== src/Classifier/Rating/Orders.antt =====
-- The order in which Go ranges over the scores makes no difference.
use teen_dns.Base.{
  ℕ, ◌≡◌, refl, ap, sym, ◌∙◌, inl, inr, Bool, true, false, not, ltb, if◌then◌else◌, List, [], ◌∷◌,
  Option, none, some, Text, texts_equal, texts_equal_iff, arith, Bool-cases, Option-cases, Map,
  lookup, insert, text_eq, lookup-insert, some_inj,
}
use teen_dns.Platform.{Instant}
use teen_dns.Digest.Report.Order.{text_less_trans, text_less_total}
use teen_dns.Classifier.{PageProfile, Criterion, CriterionResult, ClassifierInfo}
use teen_dns.Classifier.Rating.{
  criteria_by_id, matched_result, MatchState, higher, rating_value, match_criterion, match_scores,
  result_less, place_result, sort_results, classify,
}

result_less_trans :
    (z x y : CriterionResult)
    → result_less z x ≡ true
    → result_less z y ≡ false
    → result_less y x ≡ true
unfolding result_less
result_less_trans z x y h k =
    ground (arith, h, k, text_less_trans z.criterion_id x.criterion_id y.criterion_id)

result_less_total :
    (x y : CriterionResult)
    → texts_equal x.criterion_id y.criterion_id ≡ false
    → result_less x y ≡ not (result_less y x)
unfolding result_less
result_less_total x y h = ground (arith, h, text_less_total x.criterion_id y.criterion_id h)

place_result_comm :
    (x y : CriterionResult) (l : List CriterionResult)
    → texts_equal x.criterion_id y.criterion_id ≡ false
    → place_result x (place_result y l) ≡ place_result y (place_result x l)
unfolding place_result
place_result_comm x y [] h = ground (arith, result_less_total x y h)
place_result_comm x y (z ∷ l) h =
    let either : result_less x y ≡ not (result_less y x) = result_less_total x y h in
    elim (Bool-cases (result_less z x)) [
      | inl zx ↦ elim (Bool-cases (result_less z y)) [
        | inl zy ↦ ground (arith, zx, zy, place_result_comm x y l h)
        | inr yz ↦
            let yx : result_less y x ≡ true = result_less_trans z x y zx yz in
            ground (arith, zx, yz, yx)
      ]
      | inr xz ↦ elim (Bool-cases (result_less z y)) [
        | inl zy ↦
            let xy : result_less x y ≡ true = result_less_trans z y x zy xz in
            ground (arith, xz, zy, xy)
        | inr yz ↦ ground (arith, xz, yz, either)
      ]
    ]

-- Two orders of one map: neighbours with different keys change places.
pub data Reordered : Map Text ℕ → Map Text ℕ → Type 0 where
  same : {m : Map Text ℕ} → Reordered m m
  swap :
      {a b : Text × ℕ} {m : Map Text ℕ}
      → texts_equal a.0 b.0 ≡ false
      → Reordered (a ∷ b ∷ m) (b ∷ a ∷ m)
  below : {a : Text × ℕ} {m n : Map Text ℕ} → Reordered m n → Reordered (a ∷ m) (a ∷ n)
  andthen : {l m n : Map Text ℕ} → Reordered l m → Reordered m n → Reordered l n

module _ (page : PageProfile) (known : Map Text Criterion) (threshold : ℕ) where
  -- What one score adds to the sorted results and to the greatest rating.
  place_match : ℕ → Option Criterion → List CriterionResult → List CriterionResult
  place_match score none l = l
  place_match score (some c) l = place_result (matched_result page score c) l

  step : Text × ℕ → List CriterionResult → List CriterionResult
  step a l = if ltb a.1 threshold then l else place_match a.1 (lookup a.0 known) l

  rate : ℕ → Option Criterion → ℕ → ℕ
  rate score none n = n
  rate score (some c) n = higher (rating_value c.rating) n

  step_rating : Text × ℕ → ℕ → ℕ
  step_rating a n = if ltb a.1 threshold then n else rate a.1 (lookup a.0 known) n

  steps : Map Text ℕ → List CriterionResult → List CriterionResult
  steps [] l = l
  steps (a ∷ scores) l = steps scores (step a l)

  step_ratings : Map Text ℕ → ℕ → ℕ
  step_ratings [] n = n
  step_ratings (a ∷ scores) n = step_ratings scores (step_rating a n)

  matched_step :
      (low : Bool) (score : ℕ) (o : Option Criterion) (m : MatchState)
      → sort_results (if low then m else match_criterion page score o m).matched
        ≡ (if low then sort_results m.matched else place_match score o (sort_results m.matched))
  unfolding match_criterion sort_results place_match
  matched_step true score o m = refl
  matched_step false score none m = refl
  matched_step false score (some c) m = refl

  rated_step :
      (low : Bool) (score : ℕ) (o : Option Criterion) (m : MatchState)
      → (if low then m else match_criterion page score o m).max_rating
        ≡ (if low then m.max_rating else rate score o m.max_rating)
  unfolding match_criterion rate
  rated_step true score o m = refl
  rated_step false score none m = refl
  rated_step false score (some c) m = refl

  match_scores-steps :
      (scores : Map Text ℕ) (m : MatchState)
      → sort_results (match_scores page known threshold scores m).matched
        ≡ steps scores (sort_results m.matched)
  unfolding match_scores steps step
  match_scores-steps [] m = refl
  match_scores-steps ((id, score) ∷ scores) m =
      match_scores-steps scores _
      ∙ ap (steps scores) (matched_step (ltb score threshold) score (lookup id known) m)

  match_scores-ratings :
      (scores : Map Text ℕ) (m : MatchState)
      → (match_scores page known threshold scores m).max_rating ≡ step_ratings scores m.max_rating
  unfolding match_scores step_ratings step_rating
  match_scores-ratings [] m = refl
  match_scores-ratings ((id, score) ∷ scores) m =
      match_scores-ratings scores _
      ∙ ap (step_ratings scores) (rated_step (ltb score threshold) score (lookup id known) m)

  module _ (keyed : (id : Text) (c : Criterion) → lookup id known ≡ some c → c.id ≡ id) where
    step_comm :
        (a b : Text × ℕ) (l : List CriterionResult)
        → texts_equal a.0 b.0 ≡ false
        → step a (step b l) ≡ step b (step a l)
    unfolding step place_match
    step_comm a b l h = elim (Bool-cases (ltb a.1 threshold)) [
      | inl low ↦ rw low refl
      | inr high ↦ elim (Option-cases (lookup a.0 known)) [
        | inl missing ↦ rw (high, missing) refl
        | inr (c, found) ↦ elim (Bool-cases (ltb b.1 threshold)) [
          | inl low ↦ rw low refl
          | inr high' ↦ elim (Option-cases (lookup b.0 known)) [
            | inl missing ↦ rw (high', missing) refl
            | inr (d, found') ↦
                rw (high, found, high', found')
                  (place_result_comm (matched_result page a.1 c) (matched_result page b.1 d) l
                    (rw (keyed a.0 c found, keyed b.0 d found') h))
          ]
        ]
      ]
    ]

    step_rating_comm :
        (a b : Text × ℕ) (n : ℕ) → step_rating a (step_rating b n) ≡ step_rating b (step_rating a n)
    unfolding step_rating rate
    step_rating_comm a b n = elim (Option-cases (lookup a.0 known)) [
      | inl missing ↦ rw missing (ground arith)
      | inr (c, found) ↦ elim (Option-cases (lookup b.0 known)) [
        | inl missing ↦ rw missing (ground arith)
        | inr (d, found') ↦ rw (found, found') (ground arith)
      ]
    ]

    steps-Reordered :
        (scores others : Map Text ℕ) (l : List CriterionResult)
        → Reordered scores others
        → steps scores l ≡ steps others l
    unfolding steps
    steps-Reordered scores _ l same = refl
    steps-Reordered _ _ l (swap {a} {b} {m} h) = ap (steps m) (sym (step_comm a b l h))
    steps-Reordered _ _ l (below {a} {m} {n} r) = steps-Reordered m n (step a l) r
    steps-Reordered x z l (andthen {m = y} r s) = steps-Reordered x y l r ∙ steps-Reordered y z l s

    step_ratings-Reordered :
        (scores others : Map Text ℕ) (n : ℕ)
        → Reordered scores others
        → step_ratings scores n ≡ step_ratings others n
    unfolding step_ratings
    step_ratings-Reordered scores _ n same = refl
    step_ratings-Reordered _ _ n (swap {a} {b} {m} h) =
        ap (step_ratings m) (sym (step_rating_comm a b n))
    step_ratings-Reordered _ _ n (below {a} {m = x} {n = y} r) =
        step_ratings-Reordered x y (step_rating a n) r
    step_ratings-Reordered x z n (andthen {m = y} r s) =
        step_ratings-Reordered x y n r ∙ step_ratings-Reordered y z n s

-- The criterion under an id has that id.
criteria_by_id-keyed :
    (cs : List Criterion) (m : Map Text Criterion)
    → ((id : Text) (c : Criterion) → lookup id m ≡ some c → c.id ≡ id)
    → (id : Text) (c : Criterion) → lookup id (criteria_by_id cs m) ≡ some c
    → c.id ≡ id
unfolding criteria_by_id
criteria_by_id-keyed [] m keyed id c h = keyed id c h
criteria_by_id-keyed (x ∷ cs) m keyed id c h =
    criteria_by_id-keyed cs (insert x.id x m)
      (λ k d found.
        let read : (if texts_equal x.id k then some x else lookup k m) ≡ some d =
          sym (lookup-insert x.id k x m) ∙ found in
        elim (Bool-cases (texts_equal x.id k)) [
          | inl own ↦
              ap (λ (y : Criterion). y.id) (some_inj x d (rw own at read))
              ∙ (texts_equal_iff x.id k).0 own
          | inr other ↦ keyed k d (rw other at read)
        ])
      id c h

-- The classification of a page does not depend on the order in which Go ranges over the map of the
-- scores: any two orders of the same map give the same rating, the same decision and the same criteria
-- in the same order.
pub classify-Reordered :
    (page : PageProfile) (catalog : List Criterion) (threshold : ℕ) (scores others : Map Text ℕ)
    (now : Instant) (info : ClassifierInfo)
    → Reordered scores others
    → classify page catalog threshold scores now info
      ≡ classify page catalog threshold others now info
unfolding classify sort_results lookup
classify-Reordered page catalog threshold scores others now info r =
    let known = criteria_by_id catalog [] in
    let keyed : (id : Text) (c : Criterion) → lookup id known ≡ some c → c.id ≡ id =
      criteria_by_id-keyed catalog [] (λ id c h. ground (arith, h)) in
    let start : MatchState = record { max_rating = 0; matched = [] } in
    let results : sort_results (match_scores page known threshold scores start).matched
        ≡ sort_results (match_scores page known threshold others start).matched =
      match_scores-steps page known threshold scores start
      ∙ steps-Reordered page known threshold keyed scores others [] r
      ∙ sym (match_scores-steps page known threshold others start) in
    let ratings : (match_scores page known threshold scores start).max_rating
        ≡ (match_scores page known threshold others start).max_rating =
      match_scores-ratings page known threshold scores start
      ∙ step_ratings-Reordered page known threshold keyed scores others 0 r
      ∙ sym (match_scores-ratings page known threshold others start) in
    rw (results, ratings) refl
