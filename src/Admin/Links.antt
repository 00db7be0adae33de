-- ===== src/Admin/Links.antt =====
-- requestMagicLink: a login link for the house that has the address, or a place on the waiting list.
-- Mail is left out; `strings.EqualFold` needs Unicode's case folding, so it is an argument.
use teen_dns.Base.{
  ◌≡◌, refl, Bool, true, not, ◌||◌, any, if◌then◌else◌, List, [], ◌∷◌, ◌++◌, Option, none, some,
  Text, is_empty, trim_space, Result, ok, err,
}
use teen_dns.Platform.{Platform, Instant, to_lower}
use teen_dns.Config.{House, WaitlistEntry, Config}
use teen_dns.Magiclink.{Manager, IssueError, issue_link}
use teen_dns.Admin.{Control, UpdateError, update}
use teen_dns.Admin.Emails.{looks_like_email}

-- houseHasEmail
unfoldable pub house_has_email : (Text → Text → Bool) → House → Text → Bool
house_has_email equal_fold h email =
    equal_fold h.email email || any (λ candidate. equal_fold candidate email) h.emails

-- The id of the first house with the address, "" where there is none.
unfoldable pub house_for_email : (Text → Text → Bool) → Text → List House → Text
unfolding house_has_email
house_for_email equal_fold email [] = []
house_for_email equal_fold email (h ∷ hs) =
    let rest = house_for_email equal_fold email hs in
    if house_has_email equal_fold h email then h.id else rest

unfoldable pub join_waitlist : (Text → Text → Bool) → Text → Instant → Config → Config
join_waitlist equal_fold email now cfg =
    if any (λ (w : WaitlistEntry). equal_fold w.email email) cfg.waitlist
    then cfg
    else record cfg { waitlist = cfg.waitlist ++ record { email = email; created_at = now } ∷ [] }

pub data LinkError : Type 0 where
  invalid_email : LinkError
  not_waitlisted : UpdateError → LinkError
  not_issued : IssueError → LinkError

pub data LinkAnswer : Type 0 where
  waitlisted : LinkAnswer
  magic_link_sent : Text → LinkAnswer

abbrev pub waitlist_answer :
    Manager → Control × Option UpdateError → Control × Manager × Result LinkError LinkAnswer
waitlist_answer m (s, none) = (s, m, ok waitlisted)
waitlist_answer m (s, some e) = (s, m, err (not_waitlisted e))

abbrev pub link_answer :
    Control → Manager × Result IssueError Text → Control × Manager × Result LinkError LinkAnswer
link_answer s (m, ok token) = (s, m, ok (magic_link_sent token))
link_answer s (m, err e) = (s, m, err (not_issued e))

unfoldable pub request_magic_link :
    Platform
    → (Text → Text → Bool)
    → Control
    → Manager
    → Text
    → Instant
    → Instant
    → Option Text
    → Bool
    → Control × Manager × Result LinkError LinkAnswer
unfolding house_for_email join_waitlist
request_magic_link env equal_fold s m input now later token writable =
    let email = to_lower env (trim_space input) in
    let house = house_for_email equal_fold email s.config.houses in
    if not (looks_like_email email)
    then (s, m, err invalid_email)
    else if is_empty house
    then waitlist_answer m
        (update env s (some (join_waitlist equal_fold email now s.config)) writable)
    else link_answer s (issue_link m house now later token)

waitlist_keeps : (m : Manager) (u : Control × Option UpdateError) → (waitlist_answer m u).1 ≡ m
waitlist_keeps m (s, none) = refl
waitlist_keeps m (s, some e) = refl

-- An unknown address gets no link: the links and sessions stay as they were.
unknown_gets_no_link :
    (env : Platform) (equal_fold : Text → Text → Bool) (s : Control) (m : Manager) (input : Text)
    (now later : Instant) (token : Option Text) (writable : Bool)
    → looks_like_email (to_lower env (trim_space input)) ≡ true
    → house_for_email equal_fold (to_lower env (trim_space input)) s.config.houses ≡ []
    → (request_magic_link env equal_fold s m input now later token writable).1 ≡ m
unfolding request_magic_link is_empty
unknown_gets_no_link env equal_fold s m input now later token writable good missing =
    rw (good, missing)
      (waitlist_keeps m (
        update env s
          (some (join_waitlist equal_fold (to_lower env (trim_space input)) now s.config))
          writable))
