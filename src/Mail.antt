-- ===== src/Mail.antt =====
-- internal/mail/mail.go: ResendClient.Send. The exchange over HTTP is an argument: the status of the reply,
-- `none` where there is none.
use teen_dns.Base.{
  ℕ, leb, if◌then◌else◌, List, [], ◌∷◌, ◌++◌, Option, none, some, Text, codes, is_empty, trim_space,
  Result, ok, err,
}

pub record ResendClient : Type 0 where
  pub api_key : Text
  pub from : Text
  pub endpoint : Text

pub record ResendRequest : Type 0 where
  pub from : Text
  pub to : List Text
  pub subject : Text
  pub html : Text

pub data SendError : Type 0 where
  not_sent : SendError
  bad_status : ℕ → SendError

pub data Delivery : Type 0 where
  logged delivered : Delivery

abbrev pub endpoint_or_default : Text → Text
endpoint_or_default endpoint =
    if is_empty endpoint then codes "https://api.resend.com/emails" else endpoint

abbrev pub sent_reply : Option ℕ → Result SendError Delivery
sent_reply none = err not_sent
sent_reply (some status) = if leb 300 status then err (bad_status status) else ok delivered

-- Send; `post` takes the address, the Authorization header and the request.
unfoldable pub send :
    ResendClient
    → (Text → Text → ResendRequest → Option ℕ)
    → Text
    → Text
    → Text
    → Result SendError Delivery
send c post to subject html =
    if is_empty (trim_space c.api_key)
    then ok logged
    else sent_reply (
        post (endpoint_or_default c.endpoint) (codes "Bearer " ++ c.api_key)
          (record { from = c.from; to = to ∷ []; subject = subject; html = html }))
