-- ===== src/Admin/Emails.antt =====
-- The addresses of a house: looksLikeEmail, houseEmails, normalizeEmails and setHouseEmails.
use teen_dns.Base.{
  Bool, false, not, ◌&&◌, eqb, any, if◌then◌else◌, List, [], ◌∷◌, Option, none, some, Text,
  texts_equal, is_empty, trim_space, contains, contains_any, Result, ok, err, ◌>>=◌,
}
use teen_dns.Platform.{Platform, to_lower}
use teen_dns.Config.{House}

-- The text behind the first `@`, `none` where there is no `@`
unfoldable pub after_at : Text → Option Text
after_at [] = none
after_at (c ∷ s) = let rest = after_at s in if eqb c b'@' then some s else rest

abbrev pub starts_at : Text → Bool
starts_at [] = false
starts_at (c ∷ s) = eqb c b'@'

-- looksLikeEmail
unfoldable pub looks_like_email : Text → Bool
unfolding after_at
looks_like_email value = elim (after_at value) [
  | none ↦ false
  | some domain ↦
      not (starts_at value)
      && not (is_empty domain)
      && contains domain b'.'
      && not (contains_any value (32 ∷ 9 ∷ 10 ∷ []))
]

-- houseEmails
unfoldable pub house_emails : House → List Text
house_emails h = elim h.emails [
  | [] ↦ if is_empty h.email then [] else h.email ∷ []
  | e ∷ es ↦ e ∷ es
]

-- The loop of normalizeEmails; the error is the text that is no address.
unfoldable pub normalize_emails : Platform → List Text → List Text → Result Text (List Text)
normalize_emails env seen [] = ok []
normalize_emails env seen (raw ∷ values) =
    let email = to_lower env (trim_space raw) in
    let rest = normalize_emails env seen values in
    let added = normalize_emails env (email ∷ seen) values in
    if is_empty email
    then rest
    else if not (looks_like_email email)
    then err raw
    else if any (texts_equal email) seen
    then rest
    else (do es ← added; ok (email ∷ es))

abbrev pub first_or_none : List Text → Text
first_or_none [] = []
first_or_none (e ∷ es) = e

-- The mutation of setHouseEmails on the first house with the id; `none` where there is none.
unfoldable pub set_emails : Text → List Text → List House → Option (List House)
set_emails id emails [] = none
set_emails id emails (h ∷ hs) =
    let rest = set_emails id emails hs in
    if texts_equal h.id id
    then some (record h { emails = emails; email = first_or_none emails } ∷ hs)
    else elim rest [ none ↦ none | some done ↦ some (h ∷ done) ]
