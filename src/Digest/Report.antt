-- ===== src/Digest/Report.antt =====
-- Store.Digest and sortCategoryDigests: the observed domains by category.
pub mod Sums
pub mod Order
use teen_dns.Base.{
  ℕ, ◌+◌, Bool, true, false, ltb, eqb, any, if◌then◌else◌, List, [], ◌∷◌, Option, none, some, Text,
  texts_equal, Map, lookup, insert, text_eq,
}
use teen_dns.Digest.{Key, Entry, Store}

pub record DomainPeriods : Type 0 where
  pub domain : Text
  pub counts : Map Text ℕ

pub record CategoryDigest : Type 0 where
  pub category : Text
  pub group_name : Text
  pub reason : Text
  pub domains : List DomainPeriods

-- The counts of a domain by period, of a bucket by domain.
pub record Accumulator : Type 0 where
  pub group_name : Text
  pub reason : Text
  pub domains : Map Text (Map Text ℕ)

abbrev pub number : Option ℕ → ℕ
number none = 0
number (some n) = n

abbrev pub counts_or_none : Option (Map Text ℕ) → Map Text ℕ
counts_or_none none = []
counts_or_none (some m) = m

abbrev pub bucket_or_new : Entry → Option Accumulator → Accumulator
bucket_or_new e none = record { group_name = e.group_name; reason = e.reason; domains = [] }
bucket_or_new e (some b) = b

-- `domain.Counts[storeKey.Period] += item.Count`
unfoldable pub add_count : Key → Entry → Accumulator → Accumulator
add_count k e b =
    let counts = counts_or_none (lookup k.domain b.domains) in
    record b {
      domains =
          insert k.domain (insert k.period (number (lookup k.period counts) + e.count) counts)
            b.domains;
    }

-- The loop over the entries.
unfoldable pub gather : List Text → Map Key Entry → Map Text Accumulator → Map Text Accumulator
unfolding add_count
gather wanted [] m = m
gather wanted ((k, e) ∷ es) m = gather wanted es (
    if any (texts_equal k.profile_id) wanted
    then insert e.category (add_count k e (bucket_or_new e (lookup e.category m))) m
    else m)

unfoldable pub domain_list : Map Text (Map Text ℕ) → List DomainPeriods
domain_list [] = []
domain_list ((d, counts) ∷ m) = record { domain = d; counts = counts } ∷ domain_list m

unfoldable pub category_list : Map Text Accumulator → List CategoryDigest
unfolding domain_list
category_list [] = []
category_list ((c, b) ∷ m) =
    record {
      category = c;
      group_name = b.group_name;
      reason = b.reason;
      domains = domain_list b.domains;
    }
    ∷ category_list m

-- `<` of strings
unfoldable pub text_less : Text → Text → Bool
text_less [] [] = false
text_less [] (d ∷ t) = true
text_less (c ∷ s) [] = false
text_less (c ∷ s) (d ∷ t) =
    let rest = text_less s t in if ltb c d then true else if eqb c d then rest else false

unfoldable pub place_domain : DomainPeriods → List DomainPeriods → List DomainPeriods
unfolding text_less
place_domain x [] = x ∷ []
place_domain x (y ∷ ys) =
    let rest = place_domain x ys in if text_less y.domain x.domain then y ∷ rest else x ∷ y ∷ ys

unfoldable pub sort_domains : List DomainPeriods → List DomainPeriods
unfolding place_domain
sort_domains [] = []
sort_domains (x ∷ xs) = place_domain x (sort_domains xs)

unfoldable pub place_category : CategoryDigest → List CategoryDigest → List CategoryDigest
unfolding text_less
place_category x [] = x ∷ []
place_category x (y ∷ ys) =
    let rest = place_category x ys in
    if text_less y.category x.category then y ∷ rest else x ∷ y ∷ ys

-- sortCategoryDigests
unfoldable pub sort_digests : List CategoryDigest → List CategoryDigest
unfolding place_category sort_domains
sort_digests [] = []
sort_digests (x ∷ xs) =
    place_category (record x { domains = sort_domains x.domains }) (sort_digests xs)

-- Store.Digest
unfoldable pub digest : Store → List Text → List CategoryDigest
unfolding gather category_list sort_digests
digest s wanted = sort_digests (category_list (gather wanted s.entries []))
