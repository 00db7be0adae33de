-- ===== src/Admin/Server/Histories.antt =====
-- What a history of requests can do to the households without the operator's token.
use teen_dns.Base.{
  any, ◌≡◌, refl, sym, subst, Bool, false, not, inl, inr, List, [], ◌∷◌, All, Option, none, some,
  Text, texts_equal, codes, some_inj, is_empty, trim_space, trim_prefix, arith, Bool-cases, branch,
  Result, ok, err, Result-cases,
}
use teen_dns.Platform.{Platform, Instant, to_lower}
use teen_dns.Policy.{Profile}
use teen_dns.Config.{House, WaitlistEntry, Config}
use teen_dns.Admin.{Control, UpdateError, update}
use teen_dns.Admin.Access.{AccessScope, authorize, scope_of_house, house_by_hash}
use teen_dns.Admin.Emails.{looks_like_email}
use teen_dns.Admin.Houses.{Registration, Supplies, registered, register_house, prepare}
use teen_dns.Admin.Links.{
  request_magic_link, waitlist_answer, link_answer, house_for_email, join_waitlist,
}
use teen_dns.Admin.Console.{set_house_emails, create_invitation, delete_house_request}
use teen_dns.Admin.Profiles.{ProfileRequest}
use teen_dns.Admin.Resource.{
  Request, Reply, created_reply, create_profile, post_profile, profiles_collection,
  profile_resource,
}
use teen_dns.Admin.Resource.Replies.{profile_resource-Served}
use teen_dns.Admin.Server.{
  Settings, State, Inputs, OpenCall, ScopedCall, Call, guard, youth, extension, new_challenge,
  show_challenge, join_house, ask_link, open_session, show_outcome, show_houses, show_waitlist,
  show_packages, drop_house, show_zone, put_emails, invite_family, on_profiles, on_profile, health,
  open_call, scoped_call, handle_open, handle_scoped, scoped_or_401, handle, run,
}
use teen_dns.Admin.Server.Grown.{
  Grown, Grown-refl, Grown-trans, update-Grown, Done-Grown, Contained-Grown, profile-Grown,
  joined-Grown, Kept-Grown,
}
use teen_dns.Gateway.Events.{EventBuffer}
use teen_dns.Magiclink

registered-state :
    (made : House × Profile) (u : Control × Option UpdateError) → (registered made u).0 ≡ u.0
registered-state made (s, none) = refl
registered-state made (s, some e) = refl

register_house-Grown :
    (env : Platform) (hash : Text → Text) (suffix : Text) (s : Control) (input : Registration)
    (supplies : Supplies)
    → Grown s.config (register_house env hash suffix s input supplies).0.config
unfolding register_house
register_house-Grown env hash suffix s input supplies =
    elim (Result-cases (prepare hash suffix s.config input supplies)) [
      | inr (e, bad) ↦ rw (bad, register_house) (Grown-refl s.config)
      | inl (made, good) ↦
          rw (good, register_house, registered-state made _)
            (update-Grown env s _ supplies.writable (λ next asked.
              joined-Grown _ supplies.checked_at supplies.used_at s.config next made.0 made.1
                asked))
    ]

waitlist_answer-state :
    (m : Magiclink.Manager) (u : Control × Option UpdateError) → (waitlist_answer m u).0 ≡ u.0
waitlist_answer-state m (s, none) = refl
waitlist_answer-state m (s, some e) = refl

link_answer-state :
    (s : Control) (x : Magiclink.Manager × Result Magiclink.IssueError Text)
    → (link_answer s x).0 ≡ s
link_answer-state s (m, ok token) = refl
link_answer-state s (m, err e) = refl

join_waitlist-Grown :
    (equal_fold : Text → Text → Bool) (email : Text) (now : Instant) (cfg : Config)
    → Grown cfg (join_waitlist equal_fold email now cfg)
unfolding join_waitlist
join_waitlist-Grown equal_fold email now cfg =
    elim (Bool-cases (any (λ (w : WaitlistEntry). equal_fold w.email email) cfg.waitlist)) [
      | inl there ↦ rw there (Grown-refl cfg)
      | inr new ↦
          rw new (Kept-Grown cfg _ (record { profiles = refl; houses = refl; invitations = refl }))
    ]

waitlist_answer-Grown :
    (env : Platform) (equal_fold : Text → Text → Bool) (s : Control) (m : Magiclink.Manager)
    (email : Text) (now : Instant) (writable : Bool)
    → Grown s.config
        (waitlist_answer m
          (update env s (some (join_waitlist equal_fold email now s.config)) writable)).0.config
waitlist_answer-Grown env equal_fold s m email now writable = rw (waitlist_answer-state m _) (
    update-Grown env s _ writable (λ next asked.
      subst (Grown s.config) (sym (some_inj _ next asked))
        (join_waitlist-Grown equal_fold email now s.config)))

link_answer-Grown :
    (s : Control) (x : Magiclink.Manager × Result Magiclink.IssueError Text)
    → Grown s.config (link_answer s x).0.config
link_answer-Grown s x = rw (link_answer-state s x) (Grown-refl s.config)

request_magic_link-Grown :
    (env : Platform) (equal_fold : Text → Text → Bool) (s : Control) (m : Magiclink.Manager)
    (input : Text) (now later : Instant) (token : Option Text) (writable : Bool)
    → Grown s.config (request_magic_link env equal_fold s m input now later token writable).0.config
unfolding request_magic_link
request_magic_link-Grown env equal_fold s m input now later token writable =
    let email = to_lower env (trim_space input) in
    elim (Bool-cases (not (looks_like_email email))) [
      | inl bad ↦ rw (bad, request_magic_link) (Grown-refl s.config)
      | inr good ↦ elim (Bool-cases (is_empty (house_for_email equal_fold email s.config.houses))) [
        | inl unknown ↦
            rw (good, unknown, request_magic_link)
              (waitlist_answer-Grown env equal_fold s m email now writable)
        | inr known ↦ rw (good, known, request_magic_link) (link_answer-Grown s _)
      ]
    ]

created_reply-state :
    (env : Platform) (p : Profile) (u : Control × Option UpdateError)
    → (created_reply env p u).0 ≡ u.0
created_reply-state env p (s, none) = refl
created_reply-state env p (s, some e) = refl

create_profile-Grown :
    (env : Platform) (suffix : Text) (s : Control) (scope : AccessScope) (input : ProfileRequest)
    (token : Option Text) (writable : Bool)
    → Grown s.config (create_profile env suffix s scope input token writable).0.config
unfolding create_profile
create_profile-Grown env suffix s scope input none writable = Grown-refl s.config
create_profile-Grown env suffix s scope input (some token) writable =
    rw (created_reply-state env _ _) (
      update-Grown env s _ writable (λ next asked.
        subst (Grown s.config) (sym (some_inj _ next asked)) (profile-Grown s.config _)))

abbrev GrownBy : Control → Control × Reply → Type 0
GrownBy s x = Grown s.config x.0.config

post_profile-Grown :
    (env : Platform) (suffix : Text) (s : Control) (scope : AccessScope)
    (body : Option ProfileRequest) (token : Option Text) (writable : Bool)
    → GrownBy s (post_profile env suffix s scope body token writable)
unfolding post_profile
post_profile-Grown env suffix s scope none token writable = Grown-refl s.config
post_profile-Grown env suffix s scope (some input) token writable =
    branch (GrownBy s) _ (Grown-refl s.config)
      (create_profile-Grown env suffix s scope input token writable)

profiles_collection-Grown :
    (env : Platform) (suffix : Text) (s : Control) (scope : AccessScope) (r : Request)
    → GrownBy s (profiles_collection env suffix s scope r)
unfolding profiles_collection
profiles_collection-Grown env suffix s scope r = branch (GrownBy s) _ (Grown-refl s.config) (
    branch (GrownBy s) _ (post_profile-Grown env suffix s scope r.profile_body r.token r.writable)
      (Grown-refl s.config))

profile_resource-Grown :
    (env : Platform) (suffix : Text) (s : Control) (events : EventBuffer) (scope : AccessScope)
    (r : Request)
    → Grown s.config (profile_resource env suffix s events scope r).0.config
profile_resource-Grown env suffix s events scope r =
    elim (profile_resource-Served env suffix s events scope r) [
      | inl (n, _, same, _) ↦ subst (Grown s.config) (sym same) (Grown-refl s.config)
      | inr (id, rest, p, _, found, allowed, what) ↦ elim what [
        | inl same ↦
            subst (λ (c : Control). Grown s.config c.config) (sym same) (Grown-refl s.config)
        | inr (c, next, changed, contained, done) ↦
            Done-Grown env s.config (profile_resource env suffix s events scope r).0 next
              (Contained-Grown id p s.config next contained) done
      ]
    ]

handle_open-Grown :
    (c : Settings) (s : State) (o : Inputs) (call : OpenCall)
    → Grown s.control.config (handle_open c s o call).0.control.config
unfolding handle_open
handle_open-Grown c s o (guard header) = Grown-refl s.control.config
handle_open-Grown c s o (youth header) = Grown-refl s.control.config
handle_open-Grown c s o (extension header) = Grown-refl s.control.config
handle_open-Grown c s o new_challenge = Grown-refl s.control.config
handle_open-Grown c s o (show_challenge id) = Grown-refl s.control.config
handle_open-Grown c s o (join_house none supplies) = Grown-refl s.control.config
handle_open-Grown c s o (join_house (some input) supplies) =
    register_house-Grown c.env c.hash c.suffix s.control input supplies
handle_open-Grown c s o (ask_link none) = Grown-refl s.control.config
handle_open-Grown c s o (ask_link (some email)) =
    request_magic_link-Grown c.env c.equal_fold s.control s.links email o.now o.later o.first_token
      o.writable
handle_open-Grown c s o (open_session body) = Grown-refl s.control.config

handle_scoped-Grown :
    (c : Settings) (s : State) (o : Inputs) (scope : AccessScope) (call : ScopedCall)
    → scope.operator ≡ false
    → Grown s.control.config (handle_scoped c s o scope call).0.control.config
unfolding handle_scoped set_house_emails create_invitation delete_house_request
handle_scoped-Grown c s o scope (show_outcome id) h = Grown-refl s.control.config
handle_scoped-Grown c s o scope show_houses h = Grown-refl s.control.config
handle_scoped-Grown c s o scope show_waitlist h = Grown-refl s.control.config
handle_scoped-Grown c s o scope show_packages h = Grown-refl s.control.config
handle_scoped-Grown c s o scope (drop_house id) h = rw h (Grown-refl s.control.config)
handle_scoped-Grown c s o scope (show_zone id method) h = Grown-refl s.control.config
handle_scoped-Grown c s o scope (put_emails id body) h = rw h (Grown-refl s.control.config)
handle_scoped-Grown c s o scope (invite_family body) h = rw h (Grown-refl s.control.config)
handle_scoped-Grown c s o scope (on_profiles r) h =
    profiles_collection-Grown c.env c.suffix s.control scope r
handle_scoped-Grown c s o scope (on_profile r) h =
    profile_resource-Grown c.env c.suffix s.control s.events scope r

scope_of_house-operator :
    (hash : Text → Text) (houses : List House) (provided : Text)
    (x : Magiclink.Manager × Option Text) (scope : AccessScope)
    → (scope_of_house hash houses provided x).1 ≡ some scope
    → scope.operator ≡ false
scope_of_house-operator hash houses provided (m, some id) scope h = ground (arith, h)
scope_of_house-operator hash houses provided (m, none) scope h =
    elim (Bool-cases (is_empty (house_by_hash (hash provided) [] houses))) [
      | inl unknown ↦ absurd (ground (arith, unknown, h))
      | inr known ↦ ground (arith, rw known at h)
    ]

-- The request does not show the operator's token.
abbrev pub Keyless : Text → Call → Type 0
Keyless token (scoped_call header call) =
    texts_equal (trim_prefix header (codes "Bearer ")) token ≡ false
Keyless token _ = Unit

scoped-Grown :
    (c : Settings) (s : State) (o : Inputs) (call : ScopedCall)
    (x : Magiclink.Manager × Option AccessScope)
    → ((scope : AccessScope) → x.1 ≡ some scope → scope.operator ≡ false)
    → Grown s.control.config (scoped_or_401 c s o call x).0.control.config
unfolding scoped_or_401
scoped-Grown c s o call (links, none) h = Grown-refl s.control.config
scoped-Grown c s o call (links, some scope) h =
    handle_scoped-Grown c (record s { links = links }) o scope call (h scope refl)

handle-Grown :
    (c : Settings) (s : State) (o : Inputs) (call : Call)
    → Keyless c.token call
    → Grown s.control.config (handle c s o call).0.control.config
unfolding handle authorize
handle-Grown c s o health h = Grown-refl s.control.config
handle-Grown c s o (open_call call) h = handle_open-Grown c s o call
handle-Grown c s o (scoped_call header call) h = rw h (
    scoped-Grown c s o call _
      (λ scope found. scope_of_house-operator c.hash s.control.config.houses _ _ scope found))

-- Whatever households, devices and strangers ask for, in any order and with whatever outcome of the
-- clock, the randomness, the files and the mail, as long as no request shows the operator's token:
-- no profile is removed or moves to another household, no house is removed, no invitation is
-- issued or deleted, and the number of houses and of unused invitations together stays the same, so
-- that each house that joins uses up an invitation that the operator has issued.
pub run-Grown :
    (c : Settings) (s : State) (calls : List (Inputs × Call))
    → All (λ (x : Inputs × Call). Keyless c.token x.1) calls
    → Grown s.control.config (run c s calls).control.config
unfolding run
run-Grown c s [] h = Grown-refl s.control.config
run-Grown c s ((o, call) ∷ calls) h =
    Grown-trans _ _ _ (handle-Grown c s o call h.0) (run-Grown c (handle c s o call).0 calls h.1)
