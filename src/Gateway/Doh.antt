-- ===== src/Gateway/Doh.antt =====
-- handleDoH and dohRequestMessage of server.go: DNS over HTTPS. encoding/base64, the parsing of a media
-- type, and the wire format of miekg/dns stand outside the repository and are parameters.
pub mod Requests
pub mod Replies
use teen_dns.Base.{
  ℕ, Bool, true, false, not, ◌&&◌, ◌||◌, ltb, if◌then◌else◌, List, [], ◌∷◌, length, Option, none,
  some, Text, codes, texts_equal, is_empty, strip_prefix, contains, Result, ok, err, ◌>>=◌, ◌>>◌,
  require,
}
use teen_dns.Platform.{Platform}
use teen_dns.Policy.{Profile}
use teen_dns.Policy.Store.{Store, profile_label}
use teen_dns.Gateway.Resolve.{Message, Dns, Moment, World, resolve}

-- `decode_raw` and `decode_padded` are the two URL alphabets, `media_type` the type that a header
-- spells, `unpack` and `pack` the wire format; `none` where they fail.
pub record Wire : Type 0 where
  pub decode_raw : Text → Option (List ℕ)
  pub decode_padded : Text → Option (List ℕ)
  pub media_type : Text → Option Text
  pub unpack : List ℕ → Option Message
  pub pack : Message → Option (List ℕ)

-- The bytes that the body delivers, and whether reading it then fails.
pub record Body : Type 0 where
  pub bytes : List ℕ
  pub breaks : Bool

pub record DohRequest : Type 0 where
  pub method : Text
  pub path : Text
  pub dns_parameter : Text
  pub content_type : Text
  pub body : Body

-- The status of a reply without a message, or the bytes of the message.
pub data DohReply : Type 0 where
  refused : ℕ → DohReply
  answered : List ℕ → DohReply

abbrev pub max_message : ℕ
max_message = 65_535

abbrev pub bounded : List ℕ → Result ℕ (List ℕ)
bounded bytes = if ltb max_message (length bytes) then err 413 else ok bytes

abbrev pub decoded : Option (List ℕ) → Option (List ℕ) → Result ℕ (List ℕ)
decoded (some bytes) padded = bounded bytes
decoded none (some bytes) = bounded bytes
decoded none none = err 400

unfoldable pub get_message : Wire → Text → Result ℕ (List ℕ)
get_message wire encoded =
    if is_empty encoded
    then err 400
    else decoded (wire.decode_raw encoded) (wire.decode_padded encoded)

abbrev pub is_dns_message : Option Text → Bool
is_dns_message none = false
is_dns_message (some kind) = texts_equal kind (codes "application/dns-message")

-- io.ReadAll of a MaxBytesReader
unfoldable pub read_body : Body → Result ℕ (List ℕ)
read_body body =
    if ltb max_message (length body.bytes)
    then err 413
    else if body.breaks
    then err 400
    else ok body.bytes

-- dohRequestMessage
unfoldable pub doh_request_message : Wire → DohRequest → Result ℕ (List ℕ)
unfolding get_message read_body
doh_request_message wire r =
    if texts_equal r.method (codes "GET")
    then get_message wire r.dns_parameter
    else if is_dns_message (wire.media_type r.content_type)
    then read_body r.body
    else err 415

abbrev pub label_of : Option Text → Result ℕ Text
label_of none = err 404
label_of (some label) = if is_empty label || contains label b'/' then err 404 else ok label

-- The opaque label in the path.
unfoldable pub doh_label : Text → Result ℕ Text
doh_label path = label_of (strip_prefix path (codes "/dns-query/"))

abbrev pub found_or : {A : Type 0} → ℕ → Option A → Result ℕ A
found_or status none = err status
found_or status (some a) = ok a

-- The checks in their order: the profile and the message that they let through.
unfoldable pub doh_query : Platform → Wire → Store → DohRequest → Result ℕ (Profile × Message)
unfolding doh_label doh_request_message
doh_query env wire store r = do
  require (texts_equal r.method (codes "GET") || texts_equal r.method (codes "POST")) 405
  label ← doh_label r.path
  p ← found_or 404 (profile_label env store label)
  bytes ← doh_request_message wire r
  request ← found_or 400 (wire.unpack bytes)
  ok (p, request)

abbrev pub packed : Option (List ℕ) → DohReply
packed none = refused 500
packed (some bytes) = answered bytes

-- handleDoH, with a lookup that has ProfileLabel
unfoldable pub handle_doh :
    Platform → Dns → Wire → ℕ → Store → DohRequest → Moment → World → DohReply × World
unfolding doh_query
handle_doh env dns wire max_ttl store r m w = elim (doh_query env wire store r) [
  | err status ↦ (refused status, w)
  | ok query ↦
      let out = resolve env dns max_ttl query.0 query.1 m w in (packed (wire.pack out.0), out.1)
]
