-- ===== src/Base/Strings.antt =====
-- Go strings as lists of code points, with what the source uses of the packages strings and
-- unicode. `len` of a string counts the bytes of its UTF-8 form, `len([]rune(s))` its code points.
use Prim.Native.Nat.{ℕ, ◌+◌}
use Prim.Native.Char.{code}
use Prim.Native.String.{String}
use mathlib.Core.Path.{◌≡◌, refl, ap}
use mathlib.Core.Bool.{Bool, true, false, ◌||◌, ◌&&◌}
use mathlib.Core.Logic.{◌↔◌, inl, inr}
use mathlib.Core.Option.{Option, none, some}
use mathlib.Core.List.{List, [], ◌∷◌, ◌++◌, reverse}
use native.Mathlib.Omega.{arith}
use teen_dns.Base.Tests.{if◌then◌else◌, ltb, leb, eqb, Bool-cases}
use teen_dns.Base.Lists.{any}

abbrev pub Text : Type 0
Text = List ℕ

unfoldable pub texts_equal : Text → Text → Bool
texts_equal [] [] = true
texts_equal [] (d ∷ t) = false
texts_equal (c ∷ s) [] = false
texts_equal (c ∷ s) (d ∷ t) = eqb c d && texts_equal s t

pub texts_equal_iff : (s t : Text) → (texts_equal s t ≡ true) ↔ (s ≡ t)
unfolding texts_equal
texts_equal_iff [] [] = (λ _. refl, λ _. refl)
texts_equal_iff [] (d ∷ t) = (λ h. cc, λ h. cc)
texts_equal_iff (c ∷ s) [] = (λ h. cc, λ h. cc)
texts_equal_iff (c ∷ s) (d ∷ t) = ground (arith, texts_equal_iff s t)

-- A literal.
abbrev pub codes : String → Text
codes String.[] = []
codes (String.◌∷◌ c s) = code c ∷ codes s

unfoldable pub is_empty : Text → Bool
is_empty [] = true
is_empty (c ∷ s) = false

pub is_empty_iff : (s : Text) → (is_empty s ≡ true) ↔ (s ≡ [])
unfolding is_empty
is_empty_iff [] = (λ _. refl, λ _. refl)
is_empty_iff (c ∷ s) = (λ h. cc, λ h. cc)

-- unicode.IsSpace
unfoldable pub is_space : ℕ → Bool
is_space c =
    (leb 9 c && leb c 13)
    || eqb c 32
    || eqb c 0x85
    || eqb c 0xa0
    || eqb c 0x1680
    || (leb 0x2000 c && leb c 0x200a)
    || eqb c 0x2028
    || eqb c 0x2029
    || eqb c 0x202f
    || eqb c 0x205f
    || eqb c 0x3000

unfoldable pub drop_space : Text → Text
unfolding is_space
drop_space [] = []
drop_space (c ∷ s) = let rest = drop_space s in if is_space c then rest else c ∷ s

-- strings.TrimSpace
unfoldable pub trim_space : Text → Text
unfolding drop_space
trim_space s = reverse (drop_space (reverse (drop_space s)))

-- strings.HasSuffix
unfoldable pub has_suffix : Text → Text → Bool
has_suffix [] x = texts_equal [] x
has_suffix (c ∷ s) x = texts_equal (c ∷ s) x || has_suffix s x

-- strings.TrimSuffix
unfoldable pub trim_suffix : Text → Text → Text
trim_suffix [] x = []
trim_suffix (c ∷ s) x = if texts_equal (c ∷ s) x then [] else c ∷ trim_suffix s x

unfoldable pub strip_prefix : Text → Text → Option Text
strip_prefix s [] = some s
strip_prefix [] (d ∷ x) = none
strip_prefix (c ∷ s) (d ∷ x) = let rest = strip_prefix s x in if eqb c d then rest else none

-- strings.TrimPrefix
unfoldable pub trim_prefix : Text → Text → Text
unfolding strip_prefix
trim_prefix s x = elim (strip_prefix s x) [ none ↦ s | some rest ↦ rest ]

-- strings.Trim with one code point: at both ends
unfoldable pub drop_code : ℕ → Text → Text
drop_code d [] = []
drop_code d (c ∷ s) = let rest = drop_code d s in if eqb c d then rest else c ∷ s

unfoldable pub trim_code : ℕ → Text → Text
unfolding drop_code
trim_code d s = reverse (drop_code d (reverse (drop_code d s)))

-- strings.Split at one code point: at least one part
abbrev pub onto_first : ℕ → List Text → List Text
onto_first c [] = (c ∷ []) ∷ []
onto_first c (part ∷ parts) = (c ∷ part) ∷ parts

unfoldable pub split_on : ℕ → Text → List Text
split_on d [] = [] ∷ []
split_on d (c ∷ s) = let rest = split_on d s in if eqb c d then [] ∷ rest else onto_first c rest

-- strings.HasPrefix
unfoldable pub has_prefix : Text → Text → Bool
has_prefix s [] = true
has_prefix [] (d ∷ x) = false
has_prefix (c ∷ s) (d ∷ x) = eqb c d && has_prefix s x

-- strings.Contains for one code point, strings.ContainsAny
unfoldable pub contains : Text → ℕ → Bool
unfolding any
contains s c = any (eqb c) s

unfoldable pub contains_any : Text → Text → Bool
unfolding any contains
contains_any s cs = any (contains s) cs

-- strings.SplitN(s, ".", 2)[0]
unfoldable pub before_dot : Text → Text
before_dot [] = []
before_dot (c ∷ s) = let rest = before_dot s in if eqb c b'.' then [] else c ∷ rest

-- The bytes of one code point in UTF-8, and of a text: Go's `len`.
unfoldable pub rune_bytes : ℕ → ℕ
rune_bytes c = if ltb c 0x80 then 1 else if ltb c 0x800 then 2 else if ltb c 0x10000 then 3 else 4

unfoldable pub byte_length : Text → ℕ
unfolding rune_bytes
byte_length [] = 0
byte_length (c ∷ s) = rune_bytes c + byte_length s

has_suffix_sound : (s x : Text) → has_suffix s x ≡ true → (front : Text) × (s ≡ front ++ x)
unfolding has_suffix
has_suffix_sound [] x h = ([], (texts_equal_iff [] x).0 h)
has_suffix_sound (c ∷ s) x h = elim (Bool-cases (texts_equal (c ∷ s) x)) [
  | inl same ↦ ([], (texts_equal_iff (c ∷ s) x).0 same)
  | inr other ↦ let (front, e) = has_suffix_sound s x (ground arith) in (c ∷ front, ap (◌∷◌ c) e)
]

has_suffix_self : (x : Text) → has_suffix x x ≡ true
unfolding has_suffix
has_suffix_self [] = (texts_equal_iff [] []).1 refl
has_suffix_self (c ∷ x) = ground (arith, (texts_equal_iff (c ∷ x) (c ∷ x)).1 refl)

has_suffix-append : (front x : Text) → has_suffix (front ++ x) x ≡ true
unfolding has_suffix
has_suffix-append [] x = has_suffix_self x
has_suffix-append (c ∷ front) x = ground (arith, has_suffix-append front x)

-- A suffix is what is left behind some first part.
pub has_suffix_iff : (s x : Text) → (has_suffix s x ≡ true) ↔ ((front : Text) × (s ≡ front ++ x))
has_suffix_iff s x = (has_suffix_sound s x, λ (front, e). rw e (has_suffix-append front x))
