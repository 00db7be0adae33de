-- ===== src/Digest/Report/Sums.antt =====
-- What the report of a digest counts.
use teen_dns.Base.{
  ℕ, ◌+◌, ◌≡◌, refl, ap, ◌∙◌, inl, inr, Bool, true, false, ◌&&◌, any, if◌then◌else◌, List, [], ◌∷◌,
  Option, none, some, Text, texts_equal, texts_equal_iff, arith, Bool-cases, Map, lookup, insert,
  lookup-insert, text_eq,
}
use teen_dns.Digest.{Key, Entry, Store}
use teen_dns.Digest.Report.{
  DomainPeriods, CategoryDigest, Accumulator, number, counts_or_none, bucket_or_new, add_count,
  gather, domain_list, category_list, text_less, place_domain, sort_domains, place_category,
  sort_digests, digest,
}

-- The count that a reader finds under a category, a domain and a day part.
unfoldable pub in_domains : Text → Text → List DomainPeriods → ℕ
in_domains d t [] = 0
in_domains d t (x ∷ xs) =
    let rest = in_domains d t xs in
    if texts_equal x.domain d then number (lookup t x.counts) else rest

unfoldable pub reported : Text → Text → Text → List CategoryDigest → ℕ
reported c d t [] = 0
reported c d t (x ∷ xs) =
    let rest = reported c d t xs in
    if texts_equal x.category c then in_domains d t x.domains else rest

abbrev if_then : Bool → ℕ → ℕ
if_then true n = n
if_then false n = 0

-- The sum of the counters of the wanted profiles with this category, domain and day part.
unfoldable pub observed_sum : List Text → Text → Text → Text → Map Key Entry → ℕ
observed_sum wanted c d t [] = 0
observed_sum wanted c d t ((k, e) ∷ es) =
    if_then
      (any (texts_equal k.profile_id) wanted
        && texts_equal e.category c
        && texts_equal k.domain d
        && texts_equal k.period t)
      e.count
    + observed_sum wanted c d t es

abbrev counts_of : Option (Map Text ℕ) → Text → ℕ
counts_of none t = 0
counts_of (some counts) t = number (lookup t counts)

abbrev bucket_count : Option Accumulator → Text → Text → ℕ
bucket_count none d t = 0
bucket_count (some b) d t = counts_of (lookup d b.domains) t

text_less_irrefl : (s : Text) → text_less s s ≡ false
unfolding text_less
text_less_irrefl [] = refl
text_less_irrefl (c ∷ s) = ground (arith, text_less_irrefl s)

text_less-ne : (s t : Text) → text_less s t ≡ true → texts_equal s t ≡ false
text_less-ne s t h = elim (Bool-cases (texts_equal s t)) [
  | inr other ↦ other
  | inl same ↦
      ground (arith, ap (text_less s) ((texts_equal_iff s t).0 same), text_less_irrefl s, h)
]

in_domains-place :
    (d t : Text) (x : DomainPeriods) (xs : List DomainPeriods)
    → in_domains d t (place_domain x xs) ≡ in_domains d t (x ∷ xs)
unfolding in_domains place_domain
in_domains-place d t x [] = refl
in_domains-place d t x (y ∷ ys) = ground (
  arith,
  in_domains-place d t x ys,
  text_less-ne y.domain x.domain,
  texts_equal_iff x.domain d,
  texts_equal_iff y.domain d,
  texts_equal_iff y.domain x.domain,
)

in_domains-sort :
    (d t : Text) (xs : List DomainPeriods) → in_domains d t (sort_domains xs) ≡ in_domains d t xs
unfolding in_domains sort_domains
in_domains-sort d t [] = refl
in_domains-sort d t (x ∷ xs) =
    ground (arith, in_domains-place d t x (sort_domains xs), in_domains-sort d t xs)

reported-place :
    (c d t : Text) (x : CategoryDigest) (xs : List CategoryDigest)
    → reported c d t (place_category x xs) ≡ reported c d t (x ∷ xs)
unfolding reported place_category
reported-place c d t x [] = refl
reported-place c d t x (y ∷ ys) = ground (
  arith,
  reported-place c d t x ys,
  text_less-ne y.category x.category,
  texts_equal_iff x.category c,
  texts_equal_iff y.category c,
  texts_equal_iff y.category x.category,
)

reported-sort :
    (c d t : Text) (xs : List CategoryDigest) → reported c d t (sort_digests xs) ≡ reported c d t xs
unfolding reported sort_digests
reported-sort c d t [] = refl
reported-sort c d t (x ∷ xs) = ground (
  arith,
  reported-place c d t (record x { domains = sort_domains x.domains }) (sort_digests xs),
  in_domains-sort d t x.domains,
  reported-sort c d t xs,
)

in_domains-list :
    (d t : Text) (m : Map Text (Map Text ℕ))
    → in_domains d t (domain_list m) ≡ counts_of (lookup d m) t
unfolding in_domains domain_list lookup
in_domains-list d t [] = refl
in_domains-list d t ((j, counts) ∷ m) = ground (arith, in_domains-list d t m)

reported-list :
    (c d t : Text) (m : Map Text Accumulator)
    → reported c d t (category_list m) ≡ bucket_count (lookup c m) d t
unfolding reported category_list lookup
reported-list c d t [] = refl
reported-list c d t ((j, b) ∷ m) =
    ground (arith, reported-list c d t m, in_domains-list d t b.domains)

counts_known :
    (o : Option (Map Text ℕ)) (t : Text) → number (lookup t (counts_or_none o)) ≡ counts_of o t
unfolding lookup
counts_known none t = refl
counts_known (some m) t = refl

-- One entry adds its count at its own domain and day part of the bucket.
add_count-bucket :
    (k : Key) (e : Entry) (b : Accumulator) (d t : Text)
    → bucket_count (some (add_count k e b)) d t
      ≡ bucket_count (some b) d t
        + if_then (texts_equal k.domain d && texts_equal k.period t) e.count
unfolding add_count
add_count-bucket k e b d t =
    let counts = counts_or_none (lookup k.domain b.domains) in
    let n = number (lookup k.period counts) + e.count in
    elim (Bool-cases (texts_equal k.domain d)) [
      | inr other ↦
          rw (lookup-insert k.domain d (insert k.period n counts) b.domains, other) (omega arith)
      | inl same ↦
          rw
            (
              lookup-insert k.domain d (insert k.period n counts) b.domains,
              same,
              lookup-insert k.period t n counts,
            )
            (ground (
              arith,
              counts_known (lookup k.domain b.domains) t,
              counts_known (lookup k.domain b.domains) k.period,
              texts_equal_iff k.period t,
              ap (λ x. counts_of (lookup x b.domains) t) ((texts_equal_iff k.domain d).0 same),
              ap (λ x. number (lookup x counts)),
            ))
    ]

fresh_bucket :
    (e : Entry) (o : Option Accumulator) (d t : Text)
    → bucket_count (some (bucket_or_new e o)) d t ≡ bucket_count o d t
unfolding lookup
fresh_bucket e none d t = refl
fresh_bucket e (some b) d t = refl

gather-sum :
    (wanted : List Text) (es : Map Key Entry) (m : Map Text Accumulator) (c d t : Text)
    → bucket_count (lookup c (gather wanted es m)) d t
      ≡ bucket_count (lookup c m) d t + observed_sum wanted c d t es
unfolding gather observed_sum
gather-sum wanted [] m c d t = omega arith
gather-sum wanted ((k, e) ∷ es) m c d t =
    elim (Bool-cases (any (texts_equal k.profile_id) wanted)) [
      | inr unwanted ↦ rw unwanted (omega (arith, gather-sum wanted es m c d t))
      | inl picked ↦
          let bucket = add_count k e (bucket_or_new e (lookup e.category m)) in
          let rest = gather-sum wanted es (insert e.category bucket m) c d t in
          elim (Bool-cases (texts_equal e.category c)) [
            | inr other ↦
                rw (picked, other)
                  (ground (
                    arith,
                    rest,
                    other,
                    ap (λ o. bucket_count o d t) (lookup-insert e.category c bucket m),
                  ))
            | inl same ↦
                rw (picked, same)
                  (ground (
                    arith,
                    rest,
                    same,
                    ap (λ o. bucket_count o d t) (lookup-insert e.category c bucket m),
                    add_count-bucket k e (bucket_or_new e (lookup e.category m)) d t,
                    fresh_bucket e (lookup e.category m) d t,
                    ap (λ x. bucket_count (lookup x m) d t) ((texts_equal_iff e.category c).0 same),
                  ))
          ]
    ]

-- The report is the sum of what the wanted profiles did: under each category, domain and day part
-- it counts all their counters there, and nothing of another profile.
pub digest-observed_sum :
    (s : Store) (wanted : List Text) (c d t : Text)
    → reported c d t (digest s wanted) ≡ observed_sum wanted c d t s.entries
unfolding digest lookup
digest-observed_sum s wanted c d t =
    reported-sort c d t (category_list (gather wanted s.entries []))
    ∙ reported-list c d t (gather wanted s.entries [])
    ∙ omega (arith, gather-sum wanted s.entries [] c d t)
