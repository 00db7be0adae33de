-- ===== src/Base/Maps.antt =====
-- Go maps: an association list with at most one entry for a key that is read. An interface of
-- equality lets texts, numbers and structs serve as keys.
use Prim.Native.Nat.{ℕ, ◌+◌, ◌≤◌}
use mathlib.Core.Path.{◌≡◌, refl, sym, ap, ◌∙◌}
use mathlib.Core.Bool.{Bool, true, false}
use mathlib.Core.Logic.{◌↔◌, ◌⊎◌, inl, inr}
use mathlib.Core.Option.{Option, none, some}
use mathlib.Core.List.{List, [], ◌∷◌}
use native.Mathlib.Omega.{arith}
use teen_dns.Base.Tests.{if◌then◌else◌, eqb, eqb_iff, Bool-cases}
use teen_dns.Base.Lists.{length}
use teen_dns.Base.Strings.{Text, texts_equal, texts_equal_iff}

-- An equality test and the proof that it decides equality.
pub record Eq {ℓ} (K : Type ℓ) : Type ℓ where
  pub test : K → K → Bool
  pub test_iff : (x y : K) → (test x y ≡ true) ↔ (x ≡ y)

instance abbrev pub text_eq : Eq Text
text_eq = record { test = texts_equal; test_iff = texts_equal_iff }

instance abbrev pub nat_eq : Eq ℕ
nat_eq = record { test = eqb; test_iff = eqb_iff }

infix 50 ◌==◌
abbrev pub ◌==◌ {ℓ} : {K : Type ℓ} ⦃eq : Eq K⦄ → K → K → Bool
◌==◌ ⦃eq⦄ x y = eq.test x y

pub some_inj : {V : Type 0} (v q : V) → some v ≡ some q → q ≡ v
some_inj v q h = cc

abbrev pub Map : Type 0 → Type 0 → Type 0
Map K V = List (K × V)

module _ {K V : Type 0} ⦃e : Eq K⦄ where
  -- m[k]
  unfoldable pub lookup : K → Map K V → Option V
  lookup k [] = none
  lookup k ((key, value) ∷ rest) = if key == k then some value else lookup k rest

  -- m[k] = v
  unfoldable pub insert : K → V → Map K V → Map K V
  insert k v [] = (k, v) ∷ []
  insert k v ((key, value) ∷ rest) =
      let tail = insert k v rest in if key == k then (k, v) ∷ rest else (key, value) ∷ tail

  -- delete(m, k)
  unfoldable pub delete : K → Map K V → Map K V
  delete k [] = []
  delete k ((j, w) ∷ m) = let rest = delete k m in if j == k then rest else (j, w) ∷ rest

  -- A loop over the map that deletes each entry for which `keep` fails.
  unfoldable pub retain : (K → V → Bool) → Map K V → Map K V
  unfolding delete
  retain keep [] = []
  retain keep ((j, w) ∷ m) =
      let rest = retain keep m in if keep j w then (j, w) ∷ rest else delete j rest

  unfoldable pub has_key : K → Map K V → Bool
  has_key k [] = false
  has_key k ((j, v) ∷ m) = if j == k then true else has_key k m

  pub lookup-insert :
      (written read : K) (v : V) (m : Map K V)
      → lookup read (insert written v m) ≡ (if written == read then some v else lookup read m)
  unfolding lookup insert
  lookup-insert written read v [] = refl
  lookup-insert written read v ((key, _) ∷ rest) = ground (
    arith,
    e.test_iff written read,
    e.test_iff key written,
    e.test_iff key read,
    lookup-insert written read v rest,
  )

  pub lookup-delete :
      (k j : K) (m : Map K V) → lookup j (delete k m) ≡ (if k == j then none else lookup j m)
  unfolding lookup delete
  lookup-delete k j [] = ground arith
  lookup-delete k j ((i, w) ∷ m) =
      ground (arith, e.test_iff k j, e.test_iff i k, e.test_iff i j, lookup-delete k j m)

  abbrev kept : (K → V → Bool) → K → Option V → Option V
  kept keep j none = none
  kept keep j (some v) = if keep j v then some v else none

  pub lookup-retain :
      (keep : K → V → Bool) (j : K) (m : Map K V)
      → lookup j (retain keep m) ≡ kept keep j (lookup j m)
  unfolding lookup retain
  lookup-retain keep j [] = refl
  lookup-retain keep j ((i, w) ∷ m) =
      ground (arith, e.test_iff i j, lookup-retain keep j m, lookup-delete i j (retain keep m))

  pub length-insert : (k : K) (v : V) (m : Map K V) → length (insert k v m) ≤ length m + 1
  unfolding insert
  length-insert k v [] = omega arith
  length-insert k v ((j, w) ∷ m) = ground (arith, length-insert k v m)

  pub length-delete-le : (k : K) (m : Map K V) → length (delete k m) ≤ length m
  unfolding delete
  length-delete-le k [] = omega arith
  length-delete-le k ((j, w) ∷ m) = ground (arith, length-delete-le k m)

  pub length-retain-le : (keep : K → V → Bool) (m : Map K V) → length (retain keep m) ≤ length m
  unfolding retain
  length-retain-le keep [] = omega arith
  length-retain-le keep ((j, w) ∷ m) =
      ground (arith, length-retain-le keep m, length-delete-le j (retain keep m))

  pub has_key-lookup : (k : K) (m : Map K V) → has_key k m ≡ false → lookup k m ≡ none
  unfolding has_key lookup
  has_key-lookup k [] h = refl
  has_key-lookup k ((j, v) ∷ m) h = ground (arith, has_key-lookup k m)

  pub lookup-insert_self : (k : K) (v : V) (m : Map K V) → lookup k (insert k v m) ≡ some v
  lookup-insert_self k v m = rw (lookup-insert k k v m, (e.test_iff k k).1 refl)

  pub lookup-insert_ne :
      (k j : K) (v : V) (m : Map K V) → (k == j) ≡ false → lookup j (insert k v m) ≡ lookup j m
  lookup-insert_ne k j v m h = rw (lookup-insert k j v m, h)

  -- A new key leaves what other keys find as it was.
  pub lookup-insert_new :
      (k j : K) (v q : V) (m : Map K V)
      → lookup k m ≡ none
      → lookup j m ≡ some q
      → lookup j (insert k v m) ≡ some q
  lookup-insert_new k j v q m new h = elim (Bool-cases (k == j)) [
    | inl same ↦ cc (ap (λ x. lookup x m) ((e.test_iff k j).0 same))
    | inr other ↦ lookup-insert_ne k j v m other ∙ h
  ]

  pub insert_inv :
      (k j : K) (v q : V) (m : Map K V)
      → lookup j (insert k v m) ≡ some q
      → ((j ≡ k) × (q ≡ v)) ⊎ (lookup j m ≡ some q)
  insert_inv k j v q m h = elim (Bool-cases (k == j)) [
    | inl same ↦
        let found : (if k == j then some v else lookup j m) ≡ some q =
          sym (lookup-insert k j v m) ∙ h in
        inl (sym ((e.test_iff k j).0 same), some_inj v q (rw same at found))
    | inr other ↦ inr (sym (lookup-insert_ne k j v m other) ∙ h)
  ]

  -- Each key stands once.
  abbrev pub Distinct : Map K V → Type 0
  Distinct [] = Unit
  Distinct ((j, v) ∷ m) = (lookup j m ≡ none) × Distinct m

  pub insert-Distinct : (k : K) (v : V) (m : Map K V) → Distinct m → Distinct (insert k v m)
  unfolding insert lookup
  insert-Distinct k v [] d = (refl, tt)
  insert-Distinct k v ((j, w) ∷ m) d = elim (Bool-cases (j == k)) [
    | inl same ↦ rw same (ground (arith, (e.test_iff j k).0 same, d.0), d.1)
    | inr other ↦ rw other (
      ground (arith, lookup-insert k j v m, e.test_iff j k, e.test_iff k j, other, d.0),
      insert-Distinct k v m d.1,
    )
  ]

  pub delete-Distinct : (k : K) (m : Map K V) → Distinct m → Distinct (delete k m)
  unfolding delete
  delete-Distinct k [] d = tt
  delete-Distinct k ((j, w) ∷ m) d =
      ground (arith, delete-Distinct k m d.1, lookup-delete k j m, d.0)

  pub retain-Distinct : (keep : K → V → Bool) (m : Map K V) → Distinct m → Distinct (retain keep m)
  unfolding retain
  retain-Distinct keep [] d = tt
  retain-Distinct keep ((j, w) ∷ m) d = ground (
    arith,
    retain-Distinct keep m d.1,
    lookup-retain keep j m,
    d.0,
    delete-Distinct j (retain keep m) (retain-Distinct keep m d.1),
  )
