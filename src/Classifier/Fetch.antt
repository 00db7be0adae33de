-- ===== src/Classifier/Fetch.antt =====
-- Extract, validateURL and safeHTTPClient of extract.go: which addresses are fetched and which replies are
-- read. net/url, net/http, the resolver and the parsing of HTML are arguments.
use teen_dns.Base.{
  sym, ℕ, ◌≡◌, inl, inr, Bool, true, false, not, ◌&&◌, ◌||◌, ltb, leb, eqb, if◌then◌else◌, List, [],
  ◌∷◌, Option, none, some, Text, codes, texts_equal, is_empty, has_prefix, trim_space, arith,
  Bool-cases, some_inj, subst, Result, ok, err, ◌>>=◌, ◌>>◌, require,
}
use teen_dns.Platform.{to_lower}
use teen_dns.Classifier.{PageProfile}
use teen_dns.Classifier.Extract.{Node, Browser, extract_document}

-- What url.Parse makes of an address, with the text that it prints as.
pub record Address : Type 0 where
  pub text : Text
  pub scheme : Text
  pub host : Text
  pub has_user : Bool

pub data FetchError : Type 0 where
  not_parsed bad_scheme host_required credentials too_many_redirects : FetchError
  no_address only_unsafe not_fetched not_read too_large not_html bad_kind : FetchError
  bad_status : ℕ → FetchError

abbrev pub or_error : {A : Type 0} → FetchError → Option A → Result FetchError A
or_error e none = err e
or_error e (some a) = ok a

-- validateURL
unfoldable pub validate_url : (Text → Option Address) → Text → Result FetchError Address
validate_url parse raw = do
  address ← or_error not_parsed (parse (trim_space raw))
  require (texts_equal address.scheme (codes "http") || texts_equal address.scheme (codes "https"))
      bad_scheme
  require (not (is_empty address.host)) host_required
  require (not address.has_user) credentials
  ok address

-- CheckRedirect: `via` requests were made before.
unfoldable pub check_redirect : (Text → Option Address) → ℕ → Text → Result FetchError Address
unfolding validate_url
check_redirect parse via target = do
  require (not (leb 5 via)) too_many_redirects
  validate_url parse target

-- The first address of a host that may be dialled.
unfoldable pub first_safe : {Ip : Type 0} → Bool → (Ip → Bool) → List Ip → Option Ip
first_safe allow_private unsafe [] = none
first_safe allow_private unsafe (ip ∷ ips) =
    let rest = first_safe allow_private unsafe ips in
    if not allow_private && unsafe ip then rest else some ip

abbrev pub some_address : {Ip : Type 0} → List Ip → Bool
some_address [] = false
some_address (ip ∷ ips) = true

-- DialContext: the address that is dialled.
unfoldable pub dial : {Ip : Type 0} → Bool → (Ip → Bool) → Option (List Ip) → Result FetchError Ip
unfolding first_safe
dial allow_private unsafe resolved = do
  ips ← or_error no_address resolved
  require (some_address ips) no_address
  or_error only_unsafe (first_safe allow_private unsafe ips)

-- The reply behind the redirects: `length` counts the bytes that the body delivers, `breaks` says that
-- reading it fails, `document` is what html.Parse makes of it.
pub record Fetched : Type 0 where
  pub status : ℕ
  pub content_type : Text
  pub length : ℕ
  pub breaks : Bool
  pub document : Option Node
  pub final_url : Text
  pub final_host : Text

abbrev pub default_max_body : ℕ
default_max_body = 2_097_152

-- strings.Contains
unfoldable pub holds_text : Text → Text → Bool
holds_text x [] = is_empty x
holds_text x (c ∷ s) = let rest = holds_text x s in has_prefix (c ∷ s) x || rest

abbrev pub page_of : Browser → Address → ℕ → Fetched → Node → PageProfile
page_of b address max_text reply document =
    let page = extract_document b document max_text in
    record {
      url = address.text;
      final_url = reply.final_url;
      domain = to_lower b.env reply.final_host;
      title = page.title;
      description = page.description;
      text = page.text;
      links = page.links;
    }

-- Extract; a limit of 0 stands for one that is not positive
unfoldable pub extract :
    Browser
    → (Text → Option Address)
    → (Address → Option Fetched)
    → ℕ
    → ℕ
    → Text
    → Result FetchError PageProfile
unfolding validate_url holds_text
extract b parse fetch max_body max_text raw = do
  address ← validate_url parse raw
  reply ← or_error not_fetched (fetch address)
  require (not (ltb reply.status 200 || leb 300 reply.status)) (bad_status reply.status)
  let kind = to_lower b.env reply.content_type
  require (holds_text (codes "text/html") kind || holds_text (codes "application/xhtml+xml") kind)
      bad_kind
  let limit = if eqb max_body 0 then default_max_body else max_body
  require (not (reply.breaks && leb reply.length limit)) not_read
  require (leb reply.length limit) too_large
  document ← or_error not_html reply.document
  ok (page_of b address max_text reply document)

-- Where private destinations are not allowed, no unsafe one is dialled, whatever the host resolves to.
first_safe-unsafe :
    {Ip : Type 0} (unsafe : Ip → Bool) (ips : List Ip) (ip : Ip)
    → first_safe false unsafe ips ≡ some ip
    → unsafe ip ≡ false
unfolding first_safe
first_safe-unsafe unsafe [] ip h = absurd (ground (arith, h))
first_safe-unsafe unsafe (x ∷ ips) ip h = elim (Bool-cases (unsafe x)) [
  | inl bad ↦ first_safe-unsafe unsafe ips ip (rw bad at h)
  | inr safe ↦ subst (λ y. unsafe y ≡ false) (sym (some_inj x ip (rw safe at h))) safe
]
