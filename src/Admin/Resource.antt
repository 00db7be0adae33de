-- ===== src/Admin/Resource.antt =====
-- profileResource and profilesCollection: the requests for profiles, behind `authorize`. A body is
-- what it decodes to, `none` where decodeJSON fails; the packages are those of the catalogue, `none`
-- where it cannot be read.
pub mod Replies
use teen_dns.Base.{
  ◌+◌, ℕ, Bool, true, false, not, ◌&&◌, ◌||◌, if◌then◌else◌, List, [], ◌∷◌, ◌++◌, Option, none,
  some, Text, codes, texts_equal, is_empty, trim_space, trim_prefix, trim_code, split_on, Result,
  ok, err,
}
use teen_dns.Platform.{Platform}
use teen_dns.Policy.{Action, allow, other, RuleGroup, Profile, valid_action}
use teen_dns.Config.{Config}
use teen_dns.Gateway.Events.{EventSummary, EventBuffer, summary}
use teen_dns.Admin.{Control, UpdateError, settle, update}
use teen_dns.Admin.Access.{AccessScope, scope_allows, filter_profiles}
use teen_dns.Admin.Houses.{new_profile}
use teen_dns.Admin.Profiles.{
  ProfileRequest, ChangeError, no_profile, profile_by_id, Change, edit, disable, rotate,
  put_package, change_profile,
}

pub record PackageRequest : Type 0 where
  pub enabled : Bool
  pub action : Action

-- `setup_file` hands the request on to serveSetupFile.
pub data Reply : Type 0 where
  fails : ℕ → Reply
  shows created : Profile → Reply
  lists : List Profile → Reply
  sums : EventSummary → Reply
  setup_file : Text → Profile → Reply

pub record Request : Type 0 where
  pub method : Text
  pub path : Text
  pub profile_body : Option ProfileRequest
  pub package_body : Option PackageRequest
  pub packages : Option (List RuleGroup)
  pub token : Option Text
  pub writable : Bool

abbrev pub method_is : Request → Text → Bool
method_is r name = texts_equal r.method name

pub data Failure : Type 0 where
  missing refused : Failure

abbrev pub failure_of : ChangeError → Failure
failure_of no_profile = missing
failure_of _ = refused

-- The status of the reply to a change that has failed.
unfoldable pub failure_status : Change → Failure → ℕ
failure_status (put_package _ _) f = 400
failure_status c missing = 404
failure_status (edit _) refused = 400
failure_status c refused = 500

abbrev pub profile_or_same : Profile → Option Profile → Profile
profile_or_same p none = p
profile_or_same p (some q) = q

-- `updated` shares its slices with the configuration, which NewStore has normalized twice by the time
-- of the reply.
unfoldable pub updated : Platform → Text → Profile → Config → Profile
updated env id p next = settle env (settle env (profile_or_same p (profile_by_id id next.profiles)))

abbrev pub change_reply : Change → Profile → Control × Option UpdateError → Control × Reply
change_reply c p (s, none) = (s, shows p)
change_reply c p (s, some e) = (s, fails (failure_status c refused))

unfoldable pub apply_change :
    Platform → Text → Control → Text → Profile → Change → Bool → Control × Reply
unfolding updated
apply_change env suffix s id p c writable = elim (change_profile env suffix id c s.config) [
  | err e ↦ (s, fails (failure_status c (failure_of e)))
  | ok next ↦ change_reply c (updated env id p next) (update env s (some next) writable)
]

unfoldable pub rotate_endpoint :
    Platform → Text → Control → Text → Profile → Option Text → Bool → Control × Reply
rotate_endpoint env suffix s id p none writable = (s, fails 500)
rotate_endpoint env suffix s id p (some token) writable =
    apply_change env suffix s id p (rotate token) writable

unfoldable pub package_by_id : Text → List RuleGroup → Option RuleGroup
package_by_id id [] = none
package_by_id id (g ∷ gs) =
    let rest = package_by_id id gs in if texts_equal g.id id then some g else rest

-- `if input.Action == ""`
abbrev pub action_or_suggested : Action → Action → Action
action_or_suggested suggested (other []) = suggested
action_or_suggested suggested a = a

-- updateProfilePackage behind the reading of the body and of the catalogue.
unfoldable pub set_offer :
    Platform
    → Text
    → Control
    → Text
    → Profile
    → PackageRequest
    → Option RuleGroup
    → Bool
    → Control × Reply
set_offer env suffix s id p input none writable = (s, fails 404)
set_offer env suffix s id p input (some offer) writable =
    if not (valid_action (action_or_suggested offer.action input.action))
    then (s, fails 400)
    else apply_change env suffix s id p
        (put_package (record offer { action = action_or_suggested offer.action input.action })
          input.enabled)
        writable

unfoldable pub update_package :
    Platform
    → Text
    → Control
    → Text
    → Profile
    → Text
    → Option PackageRequest
    → Option (List RuleGroup)
    → Bool
    → Control × Reply
unfolding package_by_id set_offer
update_package env suffix s id p package_id none packages writable = (s, fails 400)
update_package env suffix s id p package_id (some input) none writable = (s, fails 500)
update_package env suffix s id p package_id (some input) (some packages) writable =
    set_offer env suffix s id p input (package_by_id package_id packages) writable

unfoldable pub put_profile :
    Platform → Text → Control → Text → Profile → Option ProfileRequest → Bool → Control × Reply
put_profile env suffix s id p none writable = (s, fails 400)
put_profile env suffix s id p (some input) writable =
    apply_change env suffix s id p (edit input) writable

-- The part behind the lookup of the profile, by the other parts of the path.
unfoldable pub profile_request :
    Platform → Text → Control → EventBuffer → Text → Profile → List Text → Request → Control × Reply
unfolding update_package put_profile rotate_endpoint
profile_request env suffix s events id p [] r =
    if method_is r (codes "GET")
    then (s, shows p)
    else if method_is r (codes "PUT")
    then put_profile env suffix s id p r.profile_body r.writable
    else if method_is r (codes "DELETE")
    then apply_change env suffix s id p disable r.writable
    else (s, fails 405)
profile_request env suffix s events id p (part ∷ []) r =
    if texts_equal part (codes "rotate-endpoint") && method_is r (codes "POST")
    then rotate_endpoint env suffix s id p r.token r.writable
    else if texts_equal part (codes "summary") && method_is r (codes "GET")
    then (s, sums (summary events id))
    else (s, fails 404)
profile_request env suffix s events id p (part ∷ kind ∷ []) r =
    if texts_equal part (codes "packages") && method_is r (codes "PUT")
    then update_package env suffix s id p kind r.package_body r.packages r.writable
    else if texts_equal part (codes "setup") && method_is r (codes "GET")
    then (s, setup_file kind p)
    else (s, fails 404)
profile_request env suffix s events id p _ r = (s, fails 404)

unfoldable pub allowed_request :
    Platform
    → Text
    → Control
    → EventBuffer
    → AccessScope
    → Text
    → List Text
    → Request
    → Option Profile
    → Control × Reply
allowed_request env suffix s events scope id parts r none = (s, fails 404)
allowed_request env suffix s events scope id parts r (some p) =
    if scope_allows scope p
    then profile_request env suffix s events id p parts r
    else (s, fails 404)

unfoldable pub route_profile :
    Platform → Text → Control → EventBuffer → AccessScope → List Text → Request → Control × Reply
unfolding allowed_request
route_profile env suffix s events scope [] r = (s, fails 404)
route_profile env suffix s events scope (id ∷ parts) r =
    if is_empty id
    then (s, fails 404)
    else allowed_request env suffix s events scope id parts r (profile_by_id id s.config.profiles)

unfoldable pub path_parts : Text → List Text
path_parts path = split_on b'/' (trim_code b'/' (trim_prefix path (codes "/api/v1/profiles/")))

-- profileResource
unfoldable pub profile_resource :
    Platform → Text → Control → EventBuffer → AccessScope → Request → Control × Reply
unfolding route_profile path_parts
profile_resource env suffix s events scope r =
    route_profile env suffix s events scope (path_parts r.path) r

abbrev pub created_reply : Platform → Profile → Control × Option UpdateError → Control × Reply
created_reply env p (s, none) = (s, created p)
created_reply env p (s, some e) = (s, fails 500)

unfoldable pub create_profile :
    Platform → Text → Control → AccessScope → ProfileRequest → Option Text → Bool → Control × Reply
create_profile env suffix s scope input none writable = (s, fails 500)
create_profile env suffix s scope input (some token) writable =
    let p = new_profile suffix scope.house_id (trim_space input.label) token [] in
    created_reply env p
      (update env s (some (record (s.config) { profiles = s.config.profiles ++ p ∷ [] })) writable)

unfoldable pub post_profile :
    Platform
    → Text
    → Control
    → AccessScope
    → Option ProfileRequest
    → Option Text
    → Bool
    → Control × Reply
unfolding create_profile
post_profile env suffix s scope none token writable = (s, fails 400)
post_profile env suffix s scope (some input) token writable =
    if is_empty (trim_space input.label)
    then (s, fails 400)
    else create_profile env suffix s scope input token writable

-- profilesCollection
unfoldable pub profiles_collection :
    Platform → Text → Control → AccessScope → Request → Control × Reply
unfolding post_profile
profiles_collection env suffix s scope r =
    if method_is r (codes "GET")
    then (s, lists (filter_profiles scope s.config.profiles))
    else if method_is r (codes "POST")
    then post_profile env suffix s scope r.profile_body r.token r.writable
    else (s, fails 405)
