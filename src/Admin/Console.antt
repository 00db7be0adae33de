-- ===== src/Admin/Console.antt =====
-- The handlers of the operator's console and of logging in, behind `authorize` where Handler puts it
-- there. A body is what it decodes to, `none` where decodeJSON fails; a failure is the status of its
-- reply. Sending a letter does not change the state: its success is an argument.
use teen_dns.Base.{
  ◌+◌, ℕ, Bool, true, ◌||◌, if◌then◌else◌, List, [], ◌∷◌, Option, none, some, Text, codes,
  texts_equal, trim_space, trim_prefix, Result, ok, err, ◌>>◌, require,
}
use teen_dns.Platform.{Platform, Instant}
use teen_dns.Policy.{Profile}
use teen_dns.Policy.Schedule.{zone_or_default}
use teen_dns.Config.{House, WaitlistEntry, Config}
use teen_dns.Magiclink.{Manager, redeem}
use teen_dns.Digest.{Store}
use teen_dns.Admin.{Control, UpdateError, update}
use teen_dns.Admin.Access.{AccessScope}
use teen_dns.Admin.Emails.{
  looks_like_email, house_emails, normalize_emails, set_emails, first_or_none,
}
use teen_dns.Admin.Houses.{add_invitation, invitation_validity, delete_house}
use teen_dns.Admin.Letters.{
  Site, Mail, public_link, invitation_email_body, magic_link_email_body, waitlist_email_body,
}
use teen_dns.Admin.Links.{LinkAnswer, waitlisted, magic_link_sent}
use teen_dns.Admin.Profiles.{find_house}

pub record InvitationResponse : Type 0 where
  pub email : Text
  pub expires_at : Instant
  pub code : Text
  pub link : Text
  pub email_sent : Bool

pub record HouseSummary : Type 0 where
  pub id : Text
  pub name : Text
  pub email : Text
  pub emails : List Text
  pub profile_count : ℕ

pub record HouseEmails : Type 0 where
  pub id : Text
  pub email : Text
  pub emails : List Text

-- What an update leads to: `status` where it fails.
abbrev pub updated_reply :
    {A : Type 0} → ℕ → A → Control × Option UpdateError → Control × Result ℕ A
updated_reply status a (s, none) = (s, ok a)
updated_reply status a (s, some e) = (s, err status)

abbrev pub invitation_letter : Site → Text → Text → Mail
invitation_letter site email link = record {
  to = email;
  subject = codes "Convite para o teenDNS";
  body = invitation_email_body site link;
}

abbrev pub invitation_reply : Site → Text → Text → Instant → (Mail → Bool) → InvitationResponse
invitation_reply site email code now sends =
    let link = public_link site (codes "/comecar") (codes "convite") code in
    record {
      email = email;
      expires_at = now + invitation_validity;
      code = code;
      link = link;
      email_sent = sends (invitation_letter site email link);
    }

abbrev pub invite :
    Platform
    → (Text → Text)
    → Site
    → Control
    → Text
    → Option Text
    → Instant
    → (Mail → Bool)
    → Bool
    → Control × Result ℕ InvitationResponse
invite env hash site s email none now sends writable = (s, err 500)
invite env hash site s email (some code) now sends writable =
    updated_reply 500 (invitation_reply site email code now sends)
      (update env s (some (add_invitation (hash code) email now s.config)) writable)

abbrev pub invite_address :
    Platform
    → (Text → Text)
    → Site
    → Control
    → Option Text
    → Option Text
    → Instant
    → (Mail → Bool)
    → Bool
    → Control × Result ℕ InvitationResponse
invite_address env hash site s none code now sends writable = (s, err 400)
invite_address env hash site s (some address) code now sends writable =
    if looks_like_email (trim_space address)
    then invite env hash site s (trim_space address) code now sends writable
    else (s, err 400)

-- createInvitation
unfoldable pub create_invitation :
    Platform
    → (Text → Text)
    → Site
    → Control
    → AccessScope
    → Option Text
    → Option Text
    → Instant
    → (Mail → Bool)
    → Bool
    → Control × Result ℕ InvitationResponse
create_invitation env hash site s scope body code now sends writable =
    if scope.operator
    then invite_address env hash site s body code now sends writable
    else (s, err 403)

-- The letter that requestMagicLink sends with its answer.
unfoldable pub link_letter : Site → Text → LinkAnswer → Mail
link_letter site email waitlisted = record {
  to = email;
  subject = codes "Lista de espera do teenDNS";
  body = waitlist_email_body;
}
link_letter site email (magic_link_sent token) = record {
  to = email;
  subject = codes "Seu link de acesso ao teenDNS";
  body = magic_link_email_body site (public_link site (codes "/entrar") (codes "token") token);
}

abbrev pub session_reply : Manager × Option (Text × Text) → Manager × Result ℕ Text
session_reply (m, none) = (m, err 403)
session_reply (m, some made) = (m, ok made.1)

-- createSession
unfoldable pub create_session :
    Manager → Option Text → Instant → Instant → Option Text → Manager × Result ℕ Text
create_session m none now later token = (m, err 400)
create_session m (some link) now later token =
    session_reply (redeem m (trim_space link) now later token)

-- adminGuard
unfoldable pub admin_guard : Text → Text → Result ℕ Bool
admin_guard token header =
    if texts_equal (trim_prefix header (codes "Bearer ")) token then ok true else err 401

abbrev pub zone_reply : AccessScope → Text → Text → Option House → Result ℕ Text
zone_reply scope id method none = err 404
zone_reply scope id method (some h) = do
  require (scope.operator || texts_equal scope.house_id id) 404
  require (texts_equal method (codes "GET")) 405
  ok (zone_or_default h.time_zone)

-- houseTimeZone
unfoldable pub house_time_zone : AccessScope → Config → Text → Text → Result ℕ Text
house_time_zone scope cfg id method = zone_reply scope id method (find_house id cfg.houses)

abbrev pub with_houses : Config → Option (List House) → Option Config
with_houses cfg none = none
with_houses cfg (some hs) = some (record cfg { houses = hs })

abbrev pub write_emails :
    Platform → Control → Text → Result Text (List Text) → Bool → Control × Result ℕ HouseEmails
write_emails env s id (err raw) writable = (s, err 400)
write_emails env s id (ok emails) writable =
    updated_reply 404 (record { id = id; email = first_or_none emails; emails = emails })
      (update env s (with_houses s.config (set_emails id emails s.config.houses)) writable)

abbrev pub house_emails_of :
    Platform → Control → Text → Option (List Text) → Bool → Control × Result ℕ HouseEmails
house_emails_of env s id none writable = (s, err 400)
house_emails_of env s id (some values) writable =
    write_emails env s id (normalize_emails env [] values) writable

-- setHouseEmails
unfoldable pub set_house_emails :
    Platform
    → Control
    → AccessScope
    → Text
    → Option (List Text)
    → Bool
    → Control × Result ℕ HouseEmails
set_house_emails env s scope id body writable =
    if scope.operator then house_emails_of env s id body writable else (s, err 403)

unfoldable pub profile_count : Text → List Profile → ℕ
profile_count house [] = 0
profile_count house (p ∷ ps) =
    let rest = profile_count house ps in if texts_equal p.house_id house then rest + 1 else rest

unfoldable pub house_summaries : List Profile → List House → List HouseSummary
unfolding profile_count
house_summaries ps [] = []
house_summaries ps (h ∷ hs) =
    record {
      id = h.id;
      name = h.name;
      email = h.email;
      emails = house_emails h;
      profile_count = profile_count h.id ps;
    }
    ∷ house_summaries ps hs

-- listHouses
unfoldable pub list_houses : AccessScope → Config → Result ℕ (List HouseSummary)
unfolding house_summaries
list_houses scope cfg = do require scope.operator 403; ok (house_summaries cfg.profiles cfg.houses)

-- listWaitlist
unfoldable pub list_waitlist : AccessScope → Config → Result ℕ (List WaitlistEntry)
list_waitlist scope cfg = do require scope.operator 403; ok cfg.waitlist

abbrev pub deleted_reply : Control × Store × Option UpdateError → Control × Store × Result ℕ Text
deleted_reply (s, observed, none) = (s, observed, ok (codes "deleted"))
deleted_reply (s, observed, some e) = (s, observed, err 404)

-- deleteHouse
unfoldable pub delete_house_request :
    Platform → Control → Store → AccessScope → Text → Bool → Bool → Control × Store × Result ℕ Text
delete_house_request env s observed scope id writable purged =
    if scope.operator
    then deleted_reply (delete_house env s observed id writable purged)
    else (s, observed, err 403)
