-- ===== src/Admin/Server.antt =====
-- Handler: which handler answers a request, behind which of them `authorize` stands, and what state
-- they share. A history is a sequence of whole requests: what another request does between two
-- readings of the state by one handler is left out.
pub mod Grown
pub mod Histories
use teen_dns.Base.{ℕ, Bool, List, [], ◌∷◌, Option, none, some, Text, Result, ok, err}
use teen_dns.Platform.{Platform, Instant}
use teen_dns.Policy.{Profile}
use teen_dns.Config.{House, WaitlistEntry}
use teen_dns.Gateway.Events.{EventBuffer}
use teen_dns.Pairing.{Challenge, Status}
use teen_dns.Digest.{Store}
use teen_dns.Admin.{Control}
use teen_dns.Admin.Access.{AccessScope, authorize}
use teen_dns.Admin.Houses.{RegisterError, Registration, Supplies, register_house, not_updated}
use teen_dns.Admin.Links.{LinkError, LinkAnswer, request_magic_link}
use teen_dns.Admin.Letters.{Site, Mail}
use teen_dns.Admin.Console.{
  InvitationResponse, HouseSummary, HouseEmails, create_invitation, create_session, admin_guard,
  house_time_zone, set_house_emails, list_houses, list_waitlist, delete_house_request,
}
use teen_dns.Admin.Packages.{CatalogFiles, CatalogPackage, catalog_packages}
use teen_dns.Admin.Resource.{Request, Reply, profile_resource, profiles_collection}
use teen_dns.Admin.Youth.{
  PairingOutcome, YouthProfile, ExtensionPolicy, create_challenge, challenge_status,
  challenge_outcome, youth_profile, extension_policy,
}
use teen_dns.Pairing
use teen_dns.Magiclink

-- What stays the same: the settings of the server and what it calls.
pub record Settings : Type 0 where
  pub env : Platform
  pub hash : Text → Text
  pub equal_fold : Text → Text → Bool
  pub suffix : Text
  pub token : Text
  pub site : Site
  pub files : CatalogFiles
  pub catalog_dir : Text

-- What the handlers share.
pub record State : Type 0 where
  pub control : Control
  pub links : Magiclink.Manager
  pub pairings : Pairing.Manager
  pub observed : Store
  pub events : EventBuffer

-- What one request reads from outside: the clock, when `authorize` asks and then twice by the handler,
-- two random tokens, and whether the files can be written and the letter can be sent.
pub record Inputs : Type 0 where
  pub asked_at : Instant
  pub now : Instant
  pub later : Instant
  pub first_token : Option Text
  pub second_token : Option Text
  pub writable : Bool
  pub purged : Bool
  pub sends : Mail → Bool

pub data OpenCall : Type 0 where
  guard youth extension : Text → OpenCall
  new_challenge : OpenCall
  show_challenge : Text → OpenCall
  join_house : Option Registration → Supplies → OpenCall
  ask_link open_session : Option Text → OpenCall

pub data ScopedCall : Type 0 where
  show_outcome : Text → ScopedCall
  show_houses show_waitlist show_packages : ScopedCall
  drop_house : Text → ScopedCall
  show_zone : Text → Text → ScopedCall
  put_emails : Text → Option (List Text) → ScopedCall
  invite_family : Option Text → ScopedCall
  on_profiles on_profile : Request → ScopedCall

pub data Call : Type 0 where
  health : Call
  open_call : OpenCall → Call
  scoped_call : Text → ScopedCall → Call

pub data Response : Type 0 where
  healthy : Response
  failure : ℕ → Response
  guarded : Bool → Response
  challenged : Challenge → Response
  challenge_is : Status → Response
  outcome_is : PairingOutcome → Response
  youth_is : YouthProfile → Response
  extension_is : ExtensionPolicy → Response
  joined_as : House → Profile → Response
  not_joined : RegisterError → Response
  linked : LinkAnswer → Response
  not_linked : LinkError → Response
  session_is : Text → Response
  houses_are : List HouseSummary → Response
  dropped : Text → Response
  zone_is : Text → Response
  emails_are : HouseEmails → Response
  invited : InvitationResponse → Response
  waitlist_is : List WaitlistEntry → Response
  packages_are : List CatalogPackage → Response
  replied : Reply → Response

abbrev pub respond : {A : Type 0} → (A → Response) → Result ℕ A → Response
respond f (ok a) = f a
respond f (err status) = failure status

abbrev pub with_pairings :
    {A : Type 0} → State → (A → Response) → Pairing.Manager × Result ℕ A → State × Response
with_pairings s f x = (record s { pairings = x.0 }, respond f x.1)

abbrev pub with_control :
    {A : Type 0} → State → (A → Response) → Control × Result ℕ A → State × Response
with_control s f x = (record s { control = x.0 }, respond f x.1)

abbrev pub join_response : Result RegisterError (House × Profile) → Response
join_response (ok made) = joined_as made.0 made.1
join_response (err e) = not_joined e

abbrev pub link_response : Result LinkError LinkAnswer → Response
link_response (ok answer) = linked answer
link_response (err e) = not_linked e

-- The routes without `authorize`.
unfoldable pub handle_open : Settings → State → Inputs → OpenCall → State × Response
handle_open c s o (guard header) = (s, respond guarded (admin_guard c.token header))
handle_open c s o new_challenge =
    with_pairings s challenged
      (create_challenge s.pairings o.now o.later o.first_token o.second_token)
handle_open c s o (show_challenge id) =
    with_pairings s challenge_is (challenge_status s.pairings id o.now)
handle_open c s o (youth header) =
    with_pairings s youth_is (youth_profile s.control.config s.pairings header o.now)
handle_open c s o (extension header) =
    with_pairings s extension_is (extension_policy s.control.config s.pairings header o.now)
handle_open c s o (join_house none supplies) = (s, failure 400)
handle_open c s o (join_house (some input) supplies) =
    let x = register_house c.env c.hash c.suffix s.control input supplies in
    (record s { control = x.0 }, join_response x.1)
handle_open c s o (ask_link none) = (s, failure 400)
handle_open c s o (ask_link (some email)) =
    let x =
      request_magic_link c.env c.equal_fold s.control s.links email o.now o.later o.first_token
        o.writable in
    (record s { control = x.0; links = x.1 }, link_response x.2)
handle_open c s o (open_session body) =
    let x = create_session s.links body o.now o.later o.first_token in
    (record s { links = x.0 }, respond session_is x.1)

-- The routes behind `authorize`, in the scope that it finds.
unfoldable pub handle_scoped :
    Settings → State → Inputs → AccessScope → ScopedCall → State × Response
handle_scoped c s o scope (show_outcome id) =
    with_pairings s outcome_is (challenge_outcome scope s.control.config s.pairings id o.now)
handle_scoped c s o scope show_houses = (s, respond houses_are (list_houses scope s.control.config))
handle_scoped c s o scope show_waitlist =
    (s, respond waitlist_is (list_waitlist scope s.control.config))
handle_scoped c s o scope show_packages =
    (s, respond packages_are (catalog_packages c.env c.files c.catalog_dir))
handle_scoped c s o scope (drop_house id) =
    let x = delete_house_request c.env s.control s.observed scope id o.writable o.purged in
    (record s { control = x.0; observed = x.1 }, respond dropped x.2)
handle_scoped c s o scope (show_zone id method) =
    (s, respond zone_is (house_time_zone scope s.control.config id method))
handle_scoped c s o scope (put_emails id body) =
    with_control s emails_are (set_house_emails c.env s.control scope id body o.writable)
handle_scoped c s o scope (invite_family body) = with_control s invited (
    create_invitation c.env c.hash c.site s.control scope body o.first_token o.now o.sends
      o.writable)
handle_scoped c s o scope (on_profiles r) =
    let x = profiles_collection c.env c.suffix s.control scope r in
    (record s { control = x.0 }, replied x.1)
handle_scoped c s o scope (on_profile r) =
    let x = profile_resource c.env c.suffix s.control s.events scope r in
    (record s { control = x.0 }, replied x.1)

unfoldable pub scoped_or_401 :
    Settings
    → State
    → Inputs
    → ScopedCall
    → Magiclink.Manager × Option AccessScope
    → State × Response
scoped_or_401 c s o call (links, none) = (record s { links = links }, failure 401)
scoped_or_401 c s o call (links, some scope) =
    handle_scoped c (record s { links = links }) o scope call

unfoldable pub handle : Settings → State → Inputs → Call → State × Response
unfolding handle_open scoped_or_401
handle c s o health = (s, healthy)
handle c s o (open_call call) = handle_open c s o call
handle c s o (scoped_call header call) =
    scoped_or_401 c s o call
      (authorize c.hash c.token s.links s.control.config.houses header o.asked_at)

unfoldable pub run : Settings → State → List (Inputs × Call) → State
unfolding handle
run c s [] = s
run c s ((o, call) ∷ calls) = run c (handle c s o call).0 calls
