-- ===== src/Classifier/Engine.antt =====
-- Evaluate of simplejev.go: what is asked of the engine and how its answer is read. The exchange over HTTP
-- is an argument: the status and the body, as what it decodes to.
use teen_dns.Base.{
  ℕ, ℤ, pos, negsuc, not, ◌||◌, ltb, leb, if◌then◌else◌, [], ◌∷◌, Option, none, some, Text, codes,
  texts_equal, is_empty, trim_space, Map, lookup, text_eq, ◌*◌, Result, ok, err, ◌>>=◌, ◌>>◌,
  require,
}
use teen_dns.Classifier.{PageProfile, Question}

pub record EngineQuestion : Type 0 where
  pub kind : Text
  pub instructions : Text
  pub criteria : Map Text Text

pub record EngineRequest : Type 0 where
  pub model : Text
  pub state : PageProfile
  pub questions : Map Text EngineQuestion

pub record EngineAnswer : Type 0 where
  pub kind : Text
  pub noul : ℤ
  pub probability : ℤ

-- `answers` is none where the body cannot be decoded.
pub record EngineResponse : Type 0 where
  pub status : ℕ
  pub answers : Option (Map Text EngineAnswer)

pub record SimpleJev : Type 0 where
  pub endpoint : Text
  pub model : Text
  pub token : Text

pub data EvaluateError : Type 0 where
  endpoint_required model_required not_called bad_response : EvaluateError
  bad_status : ℕ → EvaluateError
  missing_answer invalid_score : Text → EvaluateError

abbrev pub asked_question : Question → EngineQuestion
asked_question q = record {
  kind = codes "noul";
  instructions = q.instructions;
  criteria = (codes "true", q.true_label) ∷ (codes "false", q.false_label) ∷ [];
}

unfoldable pub request_questions : Map Text Question → Map Text EngineQuestion
request_questions [] = []
request_questions ((id, q) ∷ qs) = (id, asked_question q) ∷ request_questions qs

unfoldable pub answer_score : EngineAnswer → ℤ
answer_score a = if texts_equal a.kind (codes "boolean") then a.probability else a.noul

-- `score < 0 || score > 1` fails
abbrev pub valid_score : ℕ → Text → ℤ → Result EvaluateError ℕ
valid_score quarter id (negsuc n) = err (invalid_score id)
valid_score quarter id (pos n) = if leb n (4 * quarter) then ok n else err (invalid_score id)

abbrev pub scored : ℕ → Text → Option EngineAnswer → Result EvaluateError ℕ
scored quarter id none = err (missing_answer id)
scored quarter id (some a) = valid_score quarter id (answer_score a)

-- The loop over the questions.
unfoldable pub read_scores :
    ℕ → Map Text EngineAnswer → Map Text Question → Result EvaluateError (Map Text ℕ)
unfolding answer_score
read_scores quarter answers [] = ok []
read_scores quarter answers ((id, q) ∷ qs) = do
  score ← scored quarter id (lookup id answers)
  rest ← read_scores quarter answers qs
  ok ((id, score) ∷ rest)

abbrev pub called : Option EngineResponse → Result EvaluateError EngineResponse
called none = err not_called
called (some response) = ok response

abbrev pub decoded_answers :
    Option (Map Text EngineAnswer) → Result EvaluateError (Map Text EngineAnswer)
decoded_answers none = err bad_response
decoded_answers (some answers) = ok answers

-- Evaluate; `call` posts the request with the token, `none` where that fails.
unfoldable pub evaluate :
    ℕ
    → SimpleJev
    → (Text → Text → EngineRequest → Option EngineResponse)
    → PageProfile
    → Map Text Question
    → Result EvaluateError (Map Text ℕ)
unfolding request_questions read_scores
evaluate quarter engine call state questions = do
  require (not (is_empty (trim_space engine.endpoint))) endpoint_required
  require (not (is_empty (trim_space engine.model))) model_required
  response ← called (
      call engine.endpoint engine.token
        (record { model = engine.model; state = state; questions = request_questions questions }))
  require (not (ltb response.status 200 || leb 300 response.status)) (bad_status response.status)
  answers ← decoded_answers response.answers
  read_scores quarter answers questions
