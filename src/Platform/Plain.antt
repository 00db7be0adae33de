-- ===== src/Platform/Plain.antt =====
-- Plain texts, of printable ASCII without capitals: lowering and trimming leave them as they are.
use mathlib.Core.List.{reverse-reverse, reverse-cons}
use teen_dns.Base.{
  ℕ, ◌≡◌, refl, ap, inl, inr, Bool, true, false, not, ◌&&◌, leb, [], ◌∷◌, ◌++◌, reverse, All,
  length, length-append, Text, texts_equal, texts_equal_iff, is_space, trim_space, drop_space,
  trim_suffix, has_suffix, arith, Bool-cases,
}
use teen_dns.Platform.{Platform, to_lower}

-- Printable, no space, no capital.
unfoldable pub plain_code : ℕ → Bool
plain_code c = leb 33 c && leb c 126 && not (leb b'A' c && leb c b'Z')

abbrev pub IsPlain : Text → Type 0
IsPlain s = All (λ c. plain_code c ≡ true) s

plain_code-lower : (env : Platform) (c : ℕ) → plain_code c ≡ true → to_lower env (c ∷ []) ≡ c ∷ []
unfolding plain_code to_lower
plain_code-lower env c h = ground arith

plain_code-not_space : (c : ℕ) → plain_code c ≡ true → is_space c ≡ false
unfolding plain_code is_space
plain_code-not_space c h = ground arith

pub to_lower-plain : (env : Platform) (s : Text) → IsPlain s → to_lower env s ≡ s
unfolding to_lower plain_code
to_lower-plain env [] h = refl
to_lower-plain env (c ∷ s) h = ground (arith, to_lower-plain env s h.1)

drop_space-plain : (s : Text) → IsPlain s → drop_space s ≡ s
unfolding drop_space
drop_space-plain [] h = refl
drop_space-plain (c ∷ s) h = rw (plain_code-not_space c h.0)

IsPlain-append : (s t : Text) → IsPlain s → IsPlain t → IsPlain (s ++ t)
IsPlain-append [] t h k = k
IsPlain-append (c ∷ s) t h k = (h.0, IsPlain-append s t h.1 k)

IsPlain-reverse : (s : Text) → IsPlain s → IsPlain (reverse s)
IsPlain-reverse [] h = tt
IsPlain-reverse (c ∷ s) h =
    rw (reverse-cons c s) (IsPlain-append (reverse s) (c ∷ []) (IsPlain-reverse s h.1) (h.0, tt))

pub trim_space-plain : (s : Text) → IsPlain s → trim_space s ≡ s
unfolding trim_space
trim_space-plain s h =
    rw (drop_space-plain s h, drop_space-plain (reverse s) (IsPlain-reverse s h))
      (reverse-reverse s)

pub trim_suffix-missing : (s x : Text) → has_suffix s x ≡ false → trim_suffix s x ≡ s
unfolding trim_suffix has_suffix
trim_suffix-missing [] x h = refl
trim_suffix-missing (c ∷ s) x h = ground (arith, trim_suffix-missing s x)

longer-ne : (front x : Text) (c : ℕ) → texts_equal (c ∷ front ++ x) x ≡ false
longer-ne front x c = elim (Bool-cases (texts_equal (c ∷ front ++ x) x)) [
  | inr other ↦ other
  | inl same ↦ absurd (
      omega (arith, ap length ((texts_equal_iff (c ∷ front ++ x) x).0 same), length-append front x))
]

-- The suffix that was put on is the one that is taken off.
pub trim_suffix-append : (front x : Text) (c : ℕ) → trim_suffix (front ++ c ∷ x) (c ∷ x) ≡ front
unfolding trim_suffix
trim_suffix-append [] x c = rw ((texts_equal_iff (c ∷ x) (c ∷ x)).1 refl)
trim_suffix-append (d ∷ front) x c =
    rw (longer-ne front (c ∷ x) d) (ap (◌∷◌ d) (trim_suffix-append front x c))
