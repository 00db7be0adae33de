-- ===== src/Gateway/Doh/Requests.antt =====
-- Which requests over HTTPS carry a query for a profile, said without the checks of the code.
use teen_dns.Base.{
  subst, ap, sym, ◌∙◌, ◌≡◌, ◌↔◌, refl, ◌⊎◌, inl, inr, ◌≤◌, ℕ, true, false, ◌||◌, ltb, List, [], ◌∷◌,
  ◌++◌, length, Option, none, some, some_inj, Text, codes, texts_equal, texts_equal_iff, is_empty,
  contains, strip_prefix, before_dot, text_eq, arith, eqb, eqb_iff, Bool-cases, Option-cases, ok,
  Result-cases, ok_inj,
}
use teen_dns.Platform.{Platform}
use teen_dns.Policy.{Profile}
use teen_dns.Policy.Names.{normalize_name}
use teen_dns.Policy.Store.{Store, new_store, profile_label}
use teen_dns.Policy.Store.Lookup.{Origin, lookup-label_iff}
use teen_dns.Gateway.Doh.{
  Wire, DohRequest, max_message, bounded, is_dns_message, decoded, get_message, read_body,
  doh_request_message, label_of, doh_label,
}

-- The path is the endpoint's with one more part.
pub record LabelPath (path label : Text) : Type 0 where
  pub spelled : path ≡ codes "/dns-query/" ++ label
  pub has_label : is_empty label ≡ false
  pub one_part : contains label b'/' ≡ false

strip_prefix_inv : (s x rest : Text) → strip_prefix s x ≡ some rest → s ≡ x ++ rest
unfolding strip_prefix
strip_prefix_inv s [] rest h = some_inj rest s (sym h)
strip_prefix_inv [] (d ∷ x) rest h = cc
strip_prefix_inv (c ∷ s) (d ∷ x) rest h = elim (Bool-cases (eqb c d)) [
  | inl same ↦
      let tail = strip_prefix_inv s x rest (rw same at h) in
      ap (◌∷◌ c) tail ∙ ap (λ n. n ∷ x ++ rest) ((eqb_iff c d).0 same)
  | inr other ↦ absurd (ground (arith, other, h))
]

strip_prefix-append : (x rest : Text) → strip_prefix (x ++ rest) x ≡ some rest
unfolding strip_prefix
strip_prefix-append [] [] = refl
strip_prefix-append [] (c ∷ rest) = refl
strip_prefix-append (d ∷ x) rest = rw ((eqb_iff d d).1 refl) (strip_prefix-append x rest)

pub doh_label_iff : (path label : Text) → (doh_label path ≡ ok label) ↔ LabelPath path label
unfolding doh_label
doh_label_iff path label = (sound, complete)
  where
    sound : label_of (strip_prefix path (codes "/dns-query/")) ≡ ok label → LabelPath path label
    sound h = elim (Option-cases (strip_prefix path (codes "/dns-query/"))) [
      | inl foreign ↦ absurd (ground (arith, foreign, h))
      | inr (rest, e) ↦ elim (Bool-cases (is_empty rest || contains rest b'/')) [
        | inl bad ↦ absurd (ground (arith, e, bad, h))
        | inr good ↦
            let same : rest ≡ label = ok_inj rest label (rw (e, good) at h) in
            subst (LabelPath path) same (record {
              spelled = strip_prefix_inv path (codes "/dns-query/") rest e;
              has_label = ground (arith, good);
              one_part = ground (arith, good);
            })
      ]
    ]

    complete : LabelPath path label → label_of (strip_prefix path (codes "/dns-query/")) ≡ ok label
    complete p =
        ap (λ s. label_of (strip_prefix s (codes "/dns-query/"))) p.spelled
        ∙ ap label_of (strip_prefix-append (codes "/dns-query/") label)
        ∙ rw (p.has_label, p.one_part) refl

-- The label is, once normalized, one label, and the first of the hostname of an enabled profile that
-- NewStore has taken from the list as `p`.
pub record Reaches (env : Platform) (ps : List Profile) (label : Text) (p : Profile) : Type 0 where
  pub name : Text
  pub host : Text
  pub normal : normalize_name env label ≡ ok name
  pub single : contains name b'.' ≡ false
  pub origin : Origin env ps host p
  pub first : name ≡ before_dot host

pub profile_label_iff :
    (env : Platform) (ps : List Profile) (store : Store) (label : Text) (p : Profile)
    → new_store env ps ≡ ok store
    → (profile_label env store label ≡ some p) ↔ Reaches env ps label p
unfolding profile_label
profile_label_iff env ps store label p accepted = (sound, complete)
  where
    sound : profile_label env store label ≡ some p → Reaches env ps label p
    sound h = elim (Result-cases (normalize_name env label)) [
      | inr (e, bad) ↦ absurd (ground (arith, bad, h))
      | inl (name, normal) ↦ elim (Bool-cases (contains name b'.')) [
        | inl dotted ↦ absurd (ground (arith, normal, dotted, h))
        | inr single ↦
            let (host, origin, first) =
              (lookup-label_iff env ps store name p accepted).0
                (rw (normal, profile_label, single) at h) in
            record {
              name = name;
              host = host;
              normal = normal;
              single = single;
              origin = origin;
              first = first;
            }
      ]
    ]

    complete : Reaches env ps label p → profile_label env store label ≡ some p
    complete k =
        rw (k.normal, profile_label, k.single)
          ((lookup-label_iff env ps store k.name p accepted).1 (k.host, k.origin, k.first))

-- The message's bytes: the parameter `dns` of a GET in one of the two URL alphabets, or the whole body
-- of a POST with the media type of a DNS message.
abbrev pub Carries : Wire → DohRequest → List ℕ → Type 0
Carries wire r bytes =
    ((r.method ≡ codes "GET")
      × (is_empty r.dns_parameter ≡ false)
      × ((wire.decode_raw r.dns_parameter ≡ some bytes)
          ⊎ ((wire.decode_raw r.dns_parameter ≡ none)
              × (wire.decode_padded r.dns_parameter ≡ some bytes))))
    ⊎ ((r.method ≡ codes "POST")
        × (wire.media_type r.content_type ≡ some (codes "application/dns-message"))
        × (r.body.bytes ≡ bytes)
        × (r.body.breaks ≡ false))

not_longer : (n : ℕ) → n ≤ 65_535 → ltb max_message n ≡ false
not_longer n small = ground arith

get_is_not_post : texts_equal (codes "POST") (codes "GET") ≡ false
unfolding texts_equal
get_is_not_post = refl

dns_message_itself :
    texts_equal (codes "application/dns-message") (codes "application/dns-message") ≡ true
dns_message_itself =
    (texts_equal_iff (codes "application/dns-message") (codes "application/dns-message")).1 refl

bounded_iff :
    (bytes out : List ℕ) → (bounded bytes ≡ ok out) ↔ ((bytes ≡ out) × (length out ≤ 65_535))
bounded_iff bytes out = (sound, complete)
  where
    sound : bounded bytes ≡ ok out → (bytes ≡ out) × (length out ≤ 65_535)
    sound h = elim (Bool-cases (ltb max_message (length bytes))) [
      | inl large ↦ absurd (ground (arith, large, h))
      | inr small ↦
          let same : bytes ≡ out = ok_inj bytes out (rw small at h) in
          (same, subst (λ (x : List ℕ). length x ≤ 65_535) same (ground (arith, small)))
    ]

    complete : (bytes ≡ out) × (length out ≤ 65_535) → bounded bytes ≡ ok out
    complete (same, small) = ap bounded same ∙ rw (not_longer (length out) small) refl

decoded_inv :
    (raw padded : Option (List ℕ)) (out : List ℕ)
    → decoded raw padded ≡ ok out
    → ((raw ≡ some out) ⊎ ((raw ≡ none) × (padded ≡ some out))) × (length out ≤ 65_535)
decoded_inv (some bytes) padded out h =
    let (same, small) = (bounded_iff bytes out).0 h in (inl (ap some same), small)
decoded_inv none (some bytes) out h =
    let (same, small) = (bounded_iff bytes out).0 h in (inr (refl, ap some same), small)
decoded_inv none none out h = absurd (ground (arith, h))

decoded-ok :
    (raw padded : Option (List ℕ)) (out : List ℕ)
    → (raw ≡ some out) ⊎ ((raw ≡ none) × (padded ≡ some out))
    → length out ≤ 65_535
    → decoded raw padded ≡ ok out
decoded-ok raw padded out (inl e) small =
    ap (λ o. decoded o padded) e ∙ (bounded_iff out out).1 (refl, small)
decoded-ok raw padded out (inr (e, f)) small =
    ap (λ o. decoded o padded) e ∙ ap (decoded none) f ∙ (bounded_iff out out).1 (refl, small)

is_dns_message_inv :
    (o : Option Text) → is_dns_message o ≡ true → o ≡ some (codes "application/dns-message")
is_dns_message_inv none h = absurd (ground (arith, h))
is_dns_message_inv (some kind) h =
    ap some ((texts_equal_iff kind (codes "application/dns-message")).0 h)

-- Over an allowed method, what dohRequestMessage lets through is what the request carries.
pub doh_request_message_inv :
    (wire : Wire) (r : DohRequest) (out : List ℕ)
    → (texts_equal r.method (codes "GET") || texts_equal r.method (codes "POST")) ≡ true
    → doh_request_message wire r ≡ ok out
    → Carries wire r out × (length out ≤ 65_535)
unfolding doh_request_message get_message read_body
doh_request_message_inv wire r out allowed h =
    elim (Bool-cases (texts_equal r.method (codes "GET"))) [
      | inl get ↦ elim (Bool-cases (is_empty r.dns_parameter)) [
        | inl missing ↦ absurd (ground (arith, get, missing, h))
        | inr there ↦
            let (which, small) =
              decoded_inv (wire.decode_raw r.dns_parameter) (wire.decode_padded r.dns_parameter) out
                (rw (get, there) at h) in
            (inl ((texts_equal_iff r.method (codes "GET")).0 get, there, which), small)
      ]
      | inr post ↦ elim (Bool-cases (is_dns_message (wire.media_type r.content_type))) [
        | inr foreign ↦ absurd (ground (arith, post, foreign, h))
        | inl fits ↦ elim (Bool-cases (ltb max_message (length r.body.bytes))) [
          | inl large ↦ absurd (ground (arith, post, fits, large, h))
          | inr small ↦ elim (Bool-cases r.body.breaks) [
            | inl broken ↦ absurd (ground (arith, post, fits, small, broken, h))
            | inr whole ↦
                let same : r.body.bytes ≡ out =
                  ok_inj r.body.bytes out (rw (post, fits, small, whole) at h) in
                (
                  inr (
                    (texts_equal_iff r.method (codes "POST")).0 (rw post at allowed),
                    is_dns_message_inv (wire.media_type r.content_type) fits,
                    same,
                    whole,
                  ),
                  subst (λ (x : List ℕ). length x ≤ 65_535) same (ground (arith, small)),
                )
          ]
        ]
      ]
    ]

pub doh_request_message-Carries :
    (wire : Wire) (r : DohRequest) (out : List ℕ)
    → Carries wire r out
    → length out ≤ 65_535
    → ((texts_equal r.method (codes "GET") || texts_equal r.method (codes "POST")) ≡ true)
      × (doh_request_message wire r ≡ ok out)
unfolding doh_request_message get_message read_body
doh_request_message-Carries wire r out (inl (get, there, which)) small =
    let is_get = (texts_equal_iff r.method (codes "GET")).1 get in
    (
      ground (arith, is_get),
      rw (is_get, there)
          (decoded-ok (wire.decode_raw r.dns_parameter) (wire.decode_padded r.dns_parameter) out
            which small),
    )
doh_request_message-Carries wire r out (inr (post, kind, same, whole)) small =
    let is_post = (texts_equal_iff r.method (codes "POST")).1 post in
    let no_get : texts_equal r.method (codes "GET") ≡ false =
      ap (λ m. texts_equal m (codes "GET")) post ∙ get_is_not_post in
    let fits : ltb max_message (length r.body.bytes) ≡ false =
      ap (λ (b : List ℕ). ltb max_message (length b)) same ∙ not_longer (length out) small in
    (ground (arith, is_post), rw (no_get, kind, dns_message_itself, fits, whole) (ap ok same))
