-- ===== src/Policy/Names/Laws.antt =====
-- What normalizeName promises of names as they come over the wire.
use teen_dns.Base.{◌≡◌, refl, false, [], ◌∷◌, ◌++◌, Text, is_empty, has_suffix, contains_any, ok}
use teen_dns.Platform.{Platform}
use teen_dns.Platform.Plain.{
  IsPlain, plain_code, to_lower-plain, trim_space-plain, trim_suffix-missing, trim_suffix-append,
}
use teen_dns.Policy.Names.{check_name, normalize_name, separators}

-- A name that needs no normalization: plain, not empty, without separators, no dot at its end.
pub record IsCanonical (s : Text) : Type 0 where
  pub plain : IsPlain s
  pub present : is_empty s ≡ false
  pub unseparated : contains_any s separators ≡ false
  pub no_final_dot : has_suffix s (b'.' ∷ []) ≡ false

check_name-canonical : (s : Text) → IsCanonical s → check_name s ≡ ok s
unfolding check_name
check_name-canonical s c = rw (c.present, c.unseparated)

IsPlain-dot : (s : Text) → IsPlain s → IsPlain (s ++ b'.' ∷ [])
unfolding plain_code
IsPlain-dot [] h = (refl, tt)
IsPlain-dot (c ∷ s) h = (h.0, IsPlain-dot s h.1)

-- A canonical name normalizes to itself, and so does its fully qualified form with the final dot,
-- as the DNS library delivers it: rules, hostnames and queries meet in one form.
pub normalize_name-canonical :
    (env : Platform) (s : Text)
    → IsCanonical s
    → (normalize_name env s ≡ ok s) × (normalize_name env (s ++ b'.' ∷ []) ≡ ok s)
unfolding normalize_name
normalize_name-canonical env s c = (
  rw
      (
        trim_space-plain s c.plain,
        trim_suffix-missing s (b'.' ∷ []) c.no_final_dot,
        to_lower-plain env s c.plain,
      )
      (check_name-canonical s c),
  rw
      (
        trim_space-plain (s ++ b'.' ∷ []) (IsPlain-dot s c.plain),
        trim_suffix-append s [] b'.',
        to_lower-plain env s c.plain,
      )
      (check_name-canonical s c),
)
