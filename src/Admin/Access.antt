-- ===== src/Admin/Access.antt =====
-- authorize and the scope of a request: the operator, a house by a session of a magic link, or a
-- house by its own token.
pub mod Scopes
use teen_dns.Base.{
  Bool, true, false, not, ◌&&◌, ◌||◌, if◌then◌else◌, List, [], ◌∷◌, Option, none, some, Text, codes,
  texts_equal, is_empty, trim_prefix,
}
use teen_dns.Platform.{Instant}
use teen_dns.Policy.{Profile}
use teen_dns.Config.{House}
use teen_dns.Magiclink.{Manager, house_id}

pub record AccessScope : Type 0 where
  pub operator : Bool
  pub house_id : Text

abbrev pub operator_scope : AccessScope
operator_scope = record { operator = true; house_id = [] }

abbrev pub house_scope : Text → AccessScope
house_scope id = record { operator = false; house_id = id }

-- The loop over the houses: the last one whose hash agrees, "" where none does.
unfoldable pub house_by_hash : Text → Text → List House → Text
house_by_hash wanted found [] = found
house_by_hash wanted found (h ∷ hs) =
    house_by_hash wanted (if texts_equal h.admin_token_hash wanted then h.id else found) hs

abbrev pub scope_by_token : Text → Option AccessScope
scope_by_token id = if is_empty id then none else some (house_scope id)

abbrev pub scope_of_house :
    (Text → Text) → List House → Text → Manager × Option Text → Manager × Option AccessScope
scope_of_house hash houses provided (m, some id) = (m, some (house_scope id))
scope_of_house hash houses provided (m, none) =
    (m, scope_by_token (house_by_hash (hash provided) [] houses))

-- authorize; `none` is the answer 401
unfoldable pub authorize :
    (Text → Text) → Text → Manager → List House → Text → Instant → Manager × Option AccessScope
authorize hash token m houses header now =
    let provided = trim_prefix header (codes "Bearer ") in
    if texts_equal provided token
    then (m, some operator_scope)
    else scope_of_house hash houses provided (house_id m provided now)

unfoldable pub scope_allows : AccessScope → Profile → Bool
scope_allows scope p =
    scope.operator || (not (is_empty scope.house_id) && texts_equal p.house_id scope.house_id)

unfoldable pub filter_profiles : AccessScope → List Profile → List Profile
unfolding scope_allows
filter_profiles scope [] = []
filter_profiles scope (p ∷ ps) =
    let rest = filter_profiles scope ps in if scope_allows scope p then p ∷ rest else rest
