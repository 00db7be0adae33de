-- ===== src/Policy/Names.antt =====
-- normalizeName of policy.go.
pub mod Laws
use teen_dns.Base.{
  if◌then◌else◌, [], ◌∷◌, Text, codes, is_empty, trim_space, trim_suffix, contains_any, Result, ok,
  err,
}
use teen_dns.Platform.{Platform, to_lower}

pub data NameError : Type 0 where
  name_required : NameError
  invalid_name : Text → NameError

-- the characters that a domain name may not hold
abbrev pub separators : Text
separators = codes " /:@"

unfoldable pub check_name : Text → Result NameError Text
check_name value =
    if is_empty value
    then err name_required
    else if contains_any value separators
    then err (invalid_name value)
    else ok value

unfoldable pub normalize_name : Platform → Text → Result NameError Text
unfolding check_name
normalize_name env value = check_name (to_lower env (trim_suffix (trim_space value) (b'.' ∷ [])))
