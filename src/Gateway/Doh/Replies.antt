-- ===== src/Gateway/Doh/Replies.antt =====
-- What a request over HTTPS gets and leaves behind.
use teen_dns.Base.{
  subst, sym, ◌∙◌, ◌≡◌, refl, ap, ◌⊎◌, inl, inr, ◌≤◌, ℕ, ◌||◌, List, length, none, some, Text,
  codes, texts_equal, true, false, arith, Bool-cases, Option-cases, Result, ok, err, Result-cases,
  ok_inj, texts_equal_iff, ◌≢◌,
}
use teen_dns.Platform.{Platform}
use teen_dns.Policy.{Profile}
use teen_dns.Policy.Store.{Store, new_store, profile_label}
use teen_dns.Gateway.Resolve.{Message, Dns, Moment, World, resolve}
use teen_dns.Gateway.Doh.{
  Wire, DohRequest, DohReply, refused, answered, doh_request_message, doh_label, doh_query, packed,
  handle_doh, get_message, read_body,
}
use teen_dns.Gateway.Doh.Requests.{
  LabelPath, doh_label_iff, Reaches, profile_label_iff, Carries, doh_request_message_inv,
  doh_request_message-Carries,
}

-- The request names an enabled profile by its label, and carries a DNS message.
pub record Named (env : Platform) (wire : Wire) (ps : List Profile) (r : DohRequest) (p : Profile)
    (q : Message) : Type 0 where
  pub label : Text
  pub bytes : List ℕ
  pub in_path : LabelPath r.path label
  pub reaches : Reaches env ps label p
  pub carried : Carries wire r bytes
  pub small : length bytes ≤ 65_535
  pub unpacked : wire.unpack bytes ≡ some q

module _ (env : Platform) (wire : Wire) (ps : List Profile) (store : Store)
    (accepted : new_store env ps ≡ ok store) where
  doh_query-Named :
      (r : DohRequest) (x : Profile × Message)
      → doh_query env wire store r ≡ ok x
      → Named env wire ps r x.0 x.1
  unfolding doh_query
  doh_query-Named r x h =
      elim (Bool-cases
        (texts_equal r.method (codes "GET") || texts_equal r.method (codes "POST"))) [
          | inr foreign ↦ absurd (ground (arith, foreign, h))
          | inl allowed ↦ elim (Result-cases (doh_label r.path)) [
            | inr (e, bad) ↦ absurd (ground (arith, allowed, bad, h))
            | inl (label, in_path) ↦ elim (Option-cases (profile_label env store label)) [
              | inl unknown ↦ absurd (ground (arith, allowed, in_path, unknown, h))
              | inr (p, found) ↦ elim (Result-cases (doh_request_message wire r)) [
                | inr (e, bad) ↦ absurd (ground (arith, allowed, in_path, found, bad, h))
                | inl (bytes, sent) ↦ elim (Option-cases (wire.unpack bytes)) [
                  | inl wrong ↦ absurd (ground (arith, allowed, in_path, found, sent, wrong, h))
                  | inr (q, unpacked) ↦
                      let (carried, small) = doh_request_message_inv wire r bytes allowed sent in
                      subst (λ (y : Profile × Message). Named env wire ps r y.0 y.1)
                        (ok_inj (p, q) x (rw (allowed, in_path, found, sent, unpacked) at h))
                        (record {
                          label = label;
                          bytes = bytes;
                          in_path = (doh_label_iff r.path label).0 in_path;
                          reaches = (profile_label_iff env ps store label p accepted).0 found;
                          carried = carried;
                          small = small;
                          unpacked = unpacked;
                        })
                ]
              ]
            ]
          ]
        ]

  Named-doh_query :
      (r : DohRequest) (p : Profile) (q : Message)
      → Named env wire ps r p q
      → doh_query env wire store r ≡ ok (p, q)
  unfolding doh_query
  Named-doh_query r p q n =
      let (allowed, sent) = doh_request_message-Carries wire r n.bytes n.carried n.small in
      let in_path = (doh_label_iff r.path n.label).1 n.in_path in
      let found = (profile_label_iff env ps store n.label p accepted).1 n.reaches in
      rw (allowed, in_path, found, sent, n.unpacked) refl

two : {A : Type 0} {o : Result ℕ A} {x : A} {n : ℕ} → o ≡ ok x → o ≡ err n → ⊥
two h k = cc

err_inj : {A : Type 0} {n k : ℕ} → ◌≡◌ {A = Result ℕ A} (err k) (err n) → n ≡ k
err_inj h = cc

-- The answer as bytes, or 500 where it cannot be packed.
abbrev pub Answers : Wire → Message → DohReply → Type 0
Answers wire answer reply =
    ((wire.pack answer ≡ none) × (reply ≡ refused 500))
    ⊎ ((bytes : List ℕ) × (wire.pack answer ≡ some bytes) × (reply ≡ answered bytes))

packed-Answers : (wire : Wire) (answer : Message) → Answers wire answer (packed (wire.pack answer))
packed-Answers wire answer = elim (Option-cases (wire.pack answer)) [
  | inl stuck ↦ inl (stuck, ap packed stuck)
  | inr (bytes, fine) ↦ inr (bytes, fine, ap packed fine)
]

-- Why the status is `n`: the method, the path, or the message.
abbrev pub Refuses : Platform → List Profile → DohRequest → ℕ → Type 0
Refuses env ps r n =
    ((n ≡ 405) × (r.method ≢ codes "GET") × (r.method ≢ codes "POST"))
    ⊎ ((n ≡ 404)
        × ((r.method ≡ codes "GET") ⊎ (r.method ≡ codes "POST"))
        × ((label : Text) (p : Profile) → LabelPath r.path label → ¬ Reaches env ps label p))
    ⊎ (((n ≡ 400) ⊎ (n ≡ 413) ⊎ (n ≡ 415))
        × ((r.method ≡ codes "GET") ⊎ (r.method ≡ codes "POST"))
        × ((label : Text) × (p : Profile) × LabelPath r.path label × Reaches env ps label p))

message_status :
    (wire : Wire) (r : DohRequest) (n : ℕ)
    → doh_request_message wire r ≡ err n
    → (n ≡ 400) ⊎ (n ≡ 413) ⊎ (n ≡ 415)
unfolding doh_request_message get_message read_body
message_status wire r n h = elim (Bool-cases (texts_equal r.method (codes "GET"))) [
  | inl get ↦ ground (arith, get, h)
  | inr post ↦ ground (arith, post, h)
]

label_status : (path : Text) (n : ℕ) → doh_label path ≡ err n → n ≡ 404
unfolding doh_label
label_status path n h = ground (arith, h)

methods :
    (s : Text)
    → (texts_equal s (codes "GET") || texts_equal s (codes "POST")) ≡ true
    → (s ≡ codes "GET") ⊎ (s ≡ codes "POST")
methods s h = elim (Bool-cases (texts_equal s (codes "GET"))) [
  | inl get ↦ inl ((texts_equal_iff s (codes "GET")).0 get)
  | inr other ↦ inr ((texts_equal_iff s (codes "POST")).0 (rw other at h))
]

other_method : (s t : Text) → texts_equal s t ≡ false → s ≢ t
other_method s t h e = cc ((texts_equal_iff s t).1 e)

doh_query-Refuses :
    (env : Platform) (wire : Wire) (ps : List Profile) (store : Store) (r : DohRequest) (n : ℕ)
    → new_store env ps ≡ ok store
    → doh_query env wire store r ≡ err n
    → Refuses env ps r n
unfolding doh_query
doh_query-Refuses env wire ps store r n accepted h =
    elim (Bool-cases (texts_equal r.method (codes "GET") || texts_equal r.method (codes "POST"))) [
      | inr foreign ↦ inl (
        ground (arith, foreign, h),
        other_method r.method (codes "GET") (ground (arith, foreign)),
        other_method r.method (codes "POST") (ground (arith, foreign)),
      )
      | inl allowed ↦ elim (Result-cases (doh_label r.path)) [
        | inr (e, bad) ↦ inr (
            inl (
              err_inj (rw (allowed, bad) at h) ∙ label_status r.path e bad,
              methods r.method allowed,
              λ label p in_path _. two ((doh_label_iff r.path label).1 in_path) bad,
            ))
        | inl (label, in_path) ↦ elim (Option-cases (profile_label env store label)) [
          | inl unknown ↦ inr (
              inl (
                ground (arith, allowed, in_path, unknown, h),
                methods r.method allowed,
                λ other p spelled reaches.
                    let same : label ≡ other =
                      ok_inj label other (sym in_path ∙ (doh_label_iff r.path other).1 spelled) in
                    let found : profile_label env store label ≡ some p =
                      rw same ((profile_label_iff env ps store other p accepted).1 reaches) in
                    absurd (ground (arith, found, unknown)),
              ))
          | inr (p, found) ↦ inr (
              inr (
                elim (Result-cases (doh_request_message wire r)) [
                  | inr (e, bad) ↦
                      subst (λ x. (x ≡ 400) ⊎ (x ≡ 413) ⊎ (x ≡ 415))
                        (sym (err_inj (rw (allowed, in_path, found, bad) at h)))
                        (message_status wire r e bad)
                  | inl (bytes, sent) ↦ elim (Option-cases (wire.unpack bytes)) [
                    | inl wrong ↦ inl (ground (arith, allowed, in_path, found, sent, wrong, h))
                    | inr (q, fine) ↦
                        absurd (ground (arith, allowed, in_path, found, sent, fine, h))
                  ]
                ],
                methods r.method allowed,
                (
                  label,
                  p,
                  (doh_label_iff r.path label).0 in_path,
                  (profile_label_iff env ps store label p accepted).0 found,
                ),
              ))
        ]
      ]
    ]

-- With a store that NewStore has built, a request over HTTPS is answered exactly if it is a GET with a
-- `dns` parameter or a POST with the media type and a whole body, carries a DNS message of at most
-- 65,535 bytes, and its path ends in a label that is the first of the hostname of an enabled
-- profile of the list. Then the world is what `resolve` makes of that message for that profile, as
-- over TLS, and the reply is the answer of `resolve`, or 500 where it cannot be packed. Every other
-- request is refused and leaves the pairings, the events and the upstream alone: with 405 for another
-- method, then with 404 for a path that reaches no profile, then with 400, 413 or 415 for what it
-- carries.
pub handle_doh_lem :
    (env : Platform) (dns : Dns) (wire : Wire) (max_ttl : ℕ) (ps : List Profile) (store : Store)
    (r : DohRequest) (m : Moment) (w : World)
    → new_store env ps ≡ ok store
    → ((n : ℕ) × (handle_doh env dns wire max_ttl store r m w ≡ (refused n, w))
        × Refuses env ps r n
        × ((p : Profile) (q : Message) → ¬ Named env wire ps r p q))
      ⊎ ((p : Profile) × (q : Message) × Named env wire ps r p q
          × ((handle_doh env dns wire max_ttl store r m w).1 ≡ (resolve env dns max_ttl p q m w).1)
          × Answers wire
              (resolve env dns max_ttl p q m w).0
              (handle_doh env dns wire max_ttl store r m w).0)
unfolding handle_doh
handle_doh_lem env dns wire max_ttl ps store r m w accepted =
    elim (Result-cases (doh_query env wire store r)) [
      | inr (n, bad) ↦ inl (
        n,
        rw (bad, handle_doh) refl,
        doh_query-Refuses env wire ps store r n accepted bad,
        λ p q named. two (Named-doh_query env wire ps store accepted r p q named) bad,
      )
      | inl ((p, q), good) ↦ inr (
        p,
        q,
        doh_query-Named env wire ps store accepted r (p, q) good,
        rw (good, handle_doh) refl,
        rw (good, handle_doh) (packed-Answers wire (resolve env dns max_ttl p q m w).0),
      )
    ]
