-- ===== src/Admin/Access/Scopes.antt =====
-- Who may see which profiles.
use teen_dns.Base.{
  ◌≡◌, refl, sym, ◌⊎◌, inl, inr, true, false, List, [], ◌∷◌, All, In, Option, none, some, Text,
  codes, texts_equal, texts_equal_iff, is_empty, trim_prefix, arith, Bool-cases, subst,
}
use teen_dns.Platform.{Instant}
use teen_dns.Policy.{Profile}
use teen_dns.Config.{House}
use teen_dns.Magiclink.{Manager, house_id}
use teen_dns.Admin.Access.{
  AccessScope, house_scope, house_by_hash, scope_by_token, scope_of_house, authorize, scope_allows,
  filter_profiles,
}

-- A house of the list has the id and the hash.
abbrev pub Owns : Text → List House → Text → Type 0
Owns wanted hs id = (h : House) × In h hs × (h.admin_token_hash ≡ wanted) × (h.id ≡ id)

house_by_hash-Owns :
    (wanted found : Text) (hs : List House)
    → (house_by_hash wanted found hs ≡ found) ⊎ Owns wanted hs (house_by_hash wanted found hs)
unfolding house_by_hash
house_by_hash-Owns wanted found [] = inl refl
house_by_hash-Owns wanted found (h ∷ hs) =
    elim (Bool-cases (texts_equal h.admin_token_hash wanted)) [
      | inr other ↦ elim (house_by_hash-Owns wanted found hs) [
        | inl kept ↦ rw other (inl kept)
        | inr (x, i, agrees, e) ↦ rw other (inr (x, inr i, agrees, e))
      ]
      | inl same ↦ elim (house_by_hash-Owns wanted h.id hs) [
        | inl kept ↦
            rw same
              (inr (h, inl refl, (texts_equal_iff h.admin_token_hash wanted).0 same, sym kept))
        | inr (x, i, agrees, e) ↦ rw same (inr (x, inr i, agrees, e))
      ]
    ]

filter_profiles-own :
    (id : Text) (ps : List Profile)
    → All (λ (p : Profile). p.house_id ≡ id) (filter_profiles (house_scope id) ps)
unfolding filter_profiles scope_allows
filter_profiles-own id [] = tt
filter_profiles-own id (p ∷ ps) = elim (Bool-cases (scope_allows (house_scope id) p)) [
  | inl allowed ↦
      rw allowed (ground (arith, allowed, texts_equal_iff p.house_id id), filter_profiles-own id ps)
  | inr refused ↦ rw refused (filter_profiles-own id ps)
]

-- What a granted scope rests on, and what it shows of the profiles.
abbrev pub Granted :
    (Text → Text)
    → Text
    → Manager
    → List House
    → Text
    → Instant
    → List Profile
    → AccessScope
    → Type 0
Granted hash token m houses provided now ps scope =
    ((scope.operator ≡ true) × (provided ≡ token))
    ⊎ ((scope.operator ≡ false)
        × (((house_id m provided now).1 ≡ some scope.house_id)
            ⊎ Owns (hash provided) houses scope.house_id)
        × All (λ (p : Profile). p.house_id ≡ scope.house_id) (filter_profiles scope ps))

abbrev Grants :
    (Text → Text)
    → Text
    → Manager
    → List House
    → Text
    → Instant
    → List Profile
    → Option AccessScope
    → Type 0
Grants hash token m houses provided now ps none = Unit
Grants hash token m houses provided now ps (some scope) =
    Granted hash token m houses provided now ps scope

token-Grants :
    (hash : Text → Text) (token : Text) (m : Manager) (houses : List House) (provided : Text)
    (now : Instant) (ps : List Profile) (id : Text)
    → (id ≡ []) ⊎ Owns (hash provided) houses id
    → Grants hash token m houses provided now ps (scope_by_token id)
unfolding is_empty
token-Grants hash token m houses provided now ps [] o = tt
token-Grants hash token m houses provided now ps (c ∷ id) (inl e) = absurd (ground (arith, e))
token-Grants hash token m houses provided now ps (c ∷ id) (inr own) =
    inr (refl, inr own, filter_profiles-own (c ∷ id) ps)

house-Grants :
    (hash : Text → Text) (token : Text) (m : Manager) (houses : List House) (provided : Text)
    (now : Instant) (ps : List Profile) (r : Manager × Option Text)
    → (house_id m provided now).1 ≡ r.1
    → Grants hash token m houses provided now ps (scope_of_house hash houses provided r).1
house-Grants hash token m houses provided now ps (n, some id) h =
    inr (refl, inl h, filter_profiles-own id ps)
house-Grants hash token m houses provided now ps (n, none) h =
    token-Grants hash token m houses provided now ps _
      (house_by_hash-Owns (hash provided) [] houses)

-- Access is granted to the operator only for the operator's token; every other scope is that of one
-- house, for which the caller showed a live session or a token with the house's hash, and under it
-- only profiles of that house are seen.
pub authorize-Granted :
    (hash : Text → Text) (token : Text) (m : Manager) (houses : List House) (header : Text)
    (now : Instant) (ps : List Profile) (scope : AccessScope)
    → (authorize hash token m houses header now).1 ≡ some scope
    → Granted hash token m houses (trim_prefix header (codes "Bearer ")) now ps scope
unfolding authorize
authorize-Granted hash token m houses header now ps scope h =
    let provided = trim_prefix header (codes "Bearer ") in
    let all : Grants hash token m houses provided now ps
        (authorize hash token m houses header now).1 =
      elim (Bool-cases (texts_equal provided token)) [
        | inl operator ↦
            rw (operator, authorize) (inl (refl, (texts_equal_iff provided token).0 operator))
        | inr other ↦
            rw (other, authorize)
              (house-Grants hash token m houses provided now ps (house_id m provided now) refl)
      ] in
    subst (Grants hash token m houses provided now ps) h all
