-- ===== src/Admin/Resource/Replies.antt =====
-- What profileResource may do: nothing with a failure, nothing out of scope, and else one change.
use teen_dns.Base.{
  ◌≡◌, refl, ◌⊎◌, inl, inr, ℕ, Bool, true, not, List, [], ◌∷◌, Option, none, some, Text, is_empty,
  arith, Bool-cases, branch, Option-cases, ok, Result-cases,
}
use teen_dns.Platform.{Platform}
use teen_dns.Policy.{Profile, RuleGroup, valid_action}
use teen_dns.Gateway.Events.{EventBuffer}
use teen_dns.Config.{Config}
use teen_dns.Admin.{Control, UpdateError}
use teen_dns.Admin.Update.{update-Done, Done, Untouched}
use teen_dns.Admin.Access.{AccessScope, scope_allows}
use teen_dns.Admin.Profiles.{
  ProfileRequest, Change, edit, disable, rotate, profile_by_id, change_profile,
}
use teen_dns.Admin.Profiles.Isolation.{Contained, change_profile-Contained}
use teen_dns.Admin.Resource.{
  PackageRequest, Request, Reply, fails, apply_change, change_reply, package_by_id,
  action_or_suggested, set_offer, update_package, put_profile, rotate_endpoint, profile_request,
  allowed_request, route_profile, path_parts, profile_resource,
}

-- A failure, which leaves the configuration and the active profiles as they were.
abbrev pub Failed : Control → Control × Reply → Type 0
Failed s (out, reply) =
    (n : ℕ) × (reply ≡ fails n) × (out.config ≡ s.config) × (out.profiles ≡ s.profiles)

-- One change of the profile went through, and stayed within its household.
abbrev pub Changed : Platform → Text → Text → Profile → Control → Control → Type 0
Changed env suffix id p s out =
    (c : Change) × (next : Config) × (change_profile env suffix id c s.config ≡ ok next)
    × Contained id p s.config next
    × Done env out (some next)

abbrev pub Answer : Platform → Text → Text → Profile → Control → Control × Reply → Type 0
Answer env suffix id p s x = Failed s x ⊎ (x.0 ≡ s) ⊎ Changed env suffix id p s x.0

module _ (env : Platform) (suffix id : Text) (s : Control) (p : Profile)
    (found : profile_by_id id s.config.profiles ≡ some p) where
  failed : (n : ℕ) → Answer env suffix id p s (s, fails n)
  failed n = inl (n, refl, refl, refl)

  change_reply-Answer :
      (q : Profile) (c : Change) (next : Config) (x : Control × Option UpdateError)
      → change_profile env suffix id c s.config ≡ ok next
      → (((x.1 ≡ none) × Done env x.0 (some next))
          ⊎ ((e : UpdateError) × (x.1 ≡ some e) × Untouched s x.0 e))
      → Answer env suffix id p s (change_reply c q x)
  change_reply-Answer q c next (out, none) good (inl (fine, done)) = inr (
      inr
        (c, next, good, change_profile-Contained env suffix id c p s.config next found good, done))
  change_reply-Answer q c next (out, none) good (inr (e, bad, _)) = ground arith
  change_reply-Answer q c next (out, some e) good (inl (fine, done)) = ground arith
  change_reply-Answer q c next (out, some e) good (inr (_, _, (same, active, _))) =
      inl (_, refl, same, active)

  apply_change-Answer :
      (q : Profile) (c : Change) (writable : Bool)
      → Answer env suffix id p s (apply_change env suffix s id q c writable)
  unfolding apply_change
  apply_change-Answer q c writable = elim (Result-cases (change_profile env suffix id c s.config)) [
    | inr (e, bad) ↦ rw (bad, apply_change) (failed _)
    | inl (next, good) ↦
        rw (good, apply_change)
          (change_reply-Answer _ c next _ good (update-Done env s (some next) writable))
  ]

  update_package-Answer :
      (part : Text) (body : Option PackageRequest) (packages : Option (List RuleGroup))
      (writable : Bool)
      → Answer env suffix id p s (update_package env suffix s id p part body packages writable)
  unfolding update_package set_offer
  update_package-Answer part none packages writable = failed _
  update_package-Answer part (some input) none writable = failed _
  update_package-Answer part (some input) (some packages) writable =
      elim (Option-cases (package_by_id part packages)) [
        | inl missing ↦ rw missing (failed _)
        | inr (offer, there) ↦
            elim (Bool-cases (not (valid_action (action_or_suggested offer.action input.action)))) [
              | inl bad ↦ rw (there, bad) (failed _)
              | inr good ↦ rw (there, good) (apply_change-Answer p _ writable)
            ]
      ]

  put_profile-Answer :
      (body : Option ProfileRequest) (writable : Bool)
      → Answer env suffix id p s (put_profile env suffix s id p body writable)
  unfolding put_profile
  put_profile-Answer none writable = failed _
  put_profile-Answer (some input) writable = apply_change-Answer p (edit input) writable

  rotate_endpoint-Answer :
      (token : Option Text) (writable : Bool)
      → Answer env suffix id p s (rotate_endpoint env suffix s id p token writable)
  unfolding rotate_endpoint
  rotate_endpoint-Answer none writable = failed _
  rotate_endpoint-Answer (some token) writable = apply_change-Answer p (rotate token) writable

  profile_request-Answer :
      (events : EventBuffer) (parts : List Text) (r : Request)
      → Answer env suffix id p s (profile_request env suffix s events id p parts r)
  unfolding profile_request
  profile_request-Answer events [] r = branch (Answer env suffix id p s) _ (inr (inl refl)) (
      branch (Answer env suffix id p s) _ (put_profile-Answer r.profile_body r.writable)
        (branch (Answer env suffix id p s) _ (apply_change-Answer p disable r.writable) (failed _)))
  profile_request-Answer events (part ∷ []) r =
      branch (Answer env suffix id p s) _ (rotate_endpoint-Answer r.token r.writable)
        (branch (Answer env suffix id p s) _ (inr (inl refl)) (failed _))
  profile_request-Answer events (part ∷ kind ∷ []) r =
      branch (Answer env suffix id p s) _
        (update_package-Answer kind r.package_body r.packages r.writable)
        (branch (Answer env suffix id p s) _ (inr (inl refl)) (failed _))
  profile_request-Answer events (a ∷ b ∷ c ∷ rest) r = failed _

-- The path names a profile that exists and is in scope, and is all that may have changed.
abbrev pub Served : Platform → Text → Control → AccessScope → List Text → Control × Reply → Type 0
Served env suffix s scope parts x =
    (id : Text) × (rest : List Text) × (p : Profile) × (parts ≡ id ∷ rest)
    × (profile_by_id id s.config.profiles ≡ some p)
    × (scope_allows scope p ≡ true)
    × ((x.0 ≡ s) ⊎ Changed env suffix id p s x.0)

route_profile-Served :
    (env : Platform) (suffix : Text) (s : Control) (events : EventBuffer) (scope : AccessScope)
    (parts : List Text) (r : Request)
    → Failed s (route_profile env suffix s events scope parts r)
      ⊎ Served env suffix s scope parts (route_profile env suffix s events scope parts r)
unfolding route_profile allowed_request
route_profile-Served env suffix s events scope [] r = inl (_, refl, refl, refl)
route_profile-Served env suffix s events scope (id ∷ parts) r = elim (Bool-cases (is_empty id)) [
  | inl bare ↦ rw bare (inl (_, refl, refl, refl))
  | inr named ↦ elim (Option-cases (profile_by_id id s.config.profiles)) [
    | inl missing ↦ rw (named, missing) (inl (_, refl, refl, refl))
    | inr (p, found) ↦ elim (Bool-cases (scope_allows scope p)) [
      | inr foreign ↦ rw (named, found, foreign) (inl (_, refl, refl, refl))
      | inl allowed ↦
          rw (named, found, allowed)
            (elim (profile_request-Answer env suffix id s p found events parts r) [
              | inl bad ↦ inl bad
              | inr fine ↦ inr (id, parts, p, refl, found, allowed, fine)
            ])
    ]
  ]
]

-- The reply to a request for a profile, whatever its path, method and body: either it is a failure,
-- and the configuration in memory and the active profiles are those of before; or the path names a
-- profile that exists and that the scope of the request allows, and then either nothing changed at
-- all, or one change of that profile took place: it is in the file and in memory, the active
-- profiles are those that the file builds, and the profiles and houses of other households, the
-- invitations and the waiting list that were handed to it are as they were.
pub profile_resource-Served :
    (env : Platform) (suffix : Text) (s : Control) (events : EventBuffer) (scope : AccessScope)
    (r : Request)
    → Failed s (profile_resource env suffix s events scope r)
      ⊎ Served env suffix s scope (path_parts r.path) (profile_resource env suffix s events scope r)
unfolding profile_resource
profile_resource-Served env suffix s events scope r =
    route_profile-Served env suffix s events scope (path_parts r.path) r
