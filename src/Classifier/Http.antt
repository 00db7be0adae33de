-- ===== src/Classifier/Http.antt =====
-- classifier/http.go: Handler. `classify` is ClassifyURL of the configured classifier, and a body is what
-- it decodes to within its first 64 KiB: `none` where it does not decode. The matching of a path to
-- its route and the JSON of the answers are left out.
use teen_dns.Base.{ℕ, if◌then◌else◌, Option, none, some, Text, is_empty, Result, ok, err}
use teen_dns.Classifier.{Classification}
use teen_dns.Classifier.Rating.{ClassifyError}

pub data RatingReply : Type 0 where
  healthy : RatingReply
  rated : Classification → RatingReply
  rejected : ℕ → RatingReply

pub data RatingRequest : Type 0 where
  health_check : RatingRequest
  rating_of : Option Text → RatingRequest

abbrev pub rating_reply : Result ClassifyError Classification → RatingReply
rating_reply (err e) = rejected 422
rating_reply (ok c) = rated c

unfoldable pub handle_rating :
    (Text → Result ClassifyError Classification) → RatingRequest → RatingReply
handle_rating classify health_check = healthy
handle_rating classify (rating_of none) = rejected 400
handle_rating classify (rating_of (some url)) =
    if is_empty url then rejected 400 else rating_reply (classify url)
