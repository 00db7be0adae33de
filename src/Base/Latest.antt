-- ===== src/Base/Latest.antt =====
-- A Go map that a loop fills from a slice, one item after the other under its key: what is found under
-- a key is the last item that has it.
use mathlib.Core.Path.{◌≡◌, refl, sym, ap, subst, ◌∙◌}
use mathlib.Core.Logic.{◌≢◌, ◌⊎◌, inl, inr, ◌↔◌}
use mathlib.Core.Bool.{true, false}
use mathlib.Core.Option.{none, some}
use mathlib.Core.List.{List, [], ◌∷◌, ◌++◌}
use teen_dns.Base.Lists.{All}
use teen_dns.Base.Maps.{
  Map, text_eq, lookup, insert, lookup-insert_self, lookup-insert_ne, some_inj,
}
use teen_dns.Base.Strings.{Text, texts_equal, texts_equal_iff}
use teen_dns.Base.Tests.{Bool-cases}

module _ {A : Type 0} (key : A → Text) where
  unfoldable pub insert_all : List A → Map Text A → Map Text A
  insert_all [] m = m
  insert_all (x ∷ xs) m = insert_all xs (insert (key x) x m)

  -- No item has the key.
  abbrev pub Lacks : Text → List A → Type 0
  Lacks k xs = All (λ x. key x ≢ k) xs

  -- The item is the last one with the key.
  pub record IsLast (k : Text) (xs : List A) (x : A) : Type 0 where
    pub before : List A
    pub after : List A
    pub split : xs ≡ before ++ x ∷ after
    pub here : key x ≡ k
    pub later : Lacks k after

  differs : (s k : Text) → s ≢ k → texts_equal s k ≡ false
  differs s k other = elim (Bool-cases (texts_equal s k)) [
    | inl same ↦ absurd (other ((texts_equal_iff s k).0 same))
    | inr h ↦ h
  ]

  lookup-insert_all-Lacks :
      (k : Text) (xs : List A) (m : Map Text A)
      → Lacks k xs
      → lookup k (insert_all xs m) ≡ lookup k m
  unfolding insert_all
  lookup-insert_all-Lacks k [] m h = refl
  lookup-insert_all-Lacks k (x ∷ xs) m h =
      lookup-insert_all-Lacks k xs (insert (key x) x m) h.1
      ∙ lookup-insert_ne (key x) k x m (differs (key x) k h.0)

  lookup-insert_all-append :
      (k : Text) (before after : List A) (x : A) (m : Map Text A)
      → key x ≡ k
      → Lacks k after
      → lookup k (insert_all (before ++ x ∷ after) m) ≡ some x
  unfolding insert_all
  lookup-insert_all-append k [] after x m here later =
      lookup-insert_all-Lacks k after (insert (key x) x m) later
      ∙ subst (λ j. lookup j (insert (key x) x m) ≡ some x) here (lookup-insert_self (key x) x m)
  lookup-insert_all-append k (y ∷ before) after x m here later =
      lookup-insert_all-append k before after x (insert (key y) y m) here later

  IsLast-cons : (k : Text) (y : A) (xs : List A) (x : A) → IsLast k xs x → IsLast k (y ∷ xs) x
  IsLast-cons k y xs x last = record {
    before = y ∷ last.before;
    after = last.after;
    split = ap (◌∷◌ y) last.split;
    here = last.here;
    later = last.later;
  }

  -- A key stands somewhere last, or nowhere.
  IsLast-cases : (k : Text) (xs : List A) → ((x : A) × IsLast k xs x) ⊎ Lacks k xs
  IsLast-cases k [] = inr tt
  IsLast-cases k (y ∷ xs) = elim (IsLast-cases k xs) [
    | inl (x, last) ↦ inl (x, IsLast-cons k y xs x last)
    | inr lacks ↦ elim (Bool-cases (texts_equal (key y) k)) [
      | inl same ↦ inl (
        y,
        record {
          before = [];
          after = xs;
          split = refl;
          here = (texts_equal_iff (key y) k).0 same;
          later = lacks;
        },
      )
      | inr other ↦
          inr
            ((λ e. absurd (true_not_false (sym ((texts_equal_iff (key y) k).1 e) ∙ other))), lacks)
    ]
  ]
    where
      true_not_false : true ≢ false
      true_not_false h = cc

  lookup-IsLast :
      (k : Text) (xs : List A) (x : A) → IsLast k xs x → lookup k (insert_all xs []) ≡ some x
  lookup-IsLast k xs x last =
      ap (λ ys. lookup k (insert_all ys [])) last.split
      ∙ lookup-insert_all-append k last.before last.after x [] last.here last.later

  -- The map finds exactly the last item with the key.
  pub lookup-insert_all_iff :
      (k : Text) (xs : List A) (x : A) → (lookup k (insert_all xs []) ≡ some x) ↔ IsLast k xs x
  unfolding lookup
  lookup-insert_all_iff k xs x = (sound, lookup-IsLast k xs x)
    where
      sound : lookup k (insert_all xs []) ≡ some x → IsLast k xs x
      sound h = elim (IsLast-cases k xs) [
        | inl (y, last) ↦
            subst (IsLast k xs) (sym (some_inj y x (sym (lookup-IsLast k xs y last) ∙ h))) last
        | inr lacks ↦ cc (lookup-insert_all-Lacks k xs [] lacks)
      ]

  -- It finds nothing exactly if no item has the key.
  pub lookup-insert_all-none :
      (k : Text) (xs : List A) → lookup k (insert_all xs []) ≡ none → Lacks k xs
  lookup-insert_all-none k xs h = elim (IsLast-cases k xs) [
    | inl (y, last) ↦ cc (lookup-IsLast k xs y last)
    | inr lacks ↦ lacks
  ]
