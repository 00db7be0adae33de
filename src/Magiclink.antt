-- ===== src/Magiclink.antt =====
-- internal/magiclink/manager.go: one-time login links and the sessions that they are exchanged for.
-- Tokens and the clock are arguments as in the module Pairing.
pub mod Histories
pub mod Flow
mod Samples
use mathlib.Core.Option
use teen_dns.Base.{
  ℕ, ◌+◌, Bool, not, ltb, leb, if◌then◌else◌, [], ◌∷◌, length, Option, none, some, Text, Map,
  lookup, insert, delete, retain, text_eq, Result, ok, err,
}
use teen_dns.Platform.{Instant}

abbrev pub max_pending_links : ℕ
max_pending_links = 10_000

-- linkRecord and sessionRecord have the same fields.
pub record HouseRecord : Type 0 where
  pub house_id : Text
  pub expires_at : Instant

pub record Manager : Type 0 where
  pub link_ttl : ℕ
  pub session_ttl : ℕ
  pub links : Map Text HouseRecord
  pub sessions : Map Text HouseRecord

unfoldable pub new_manager : ℕ → ℕ → Manager
new_manager link_ttl session_ttl = record {
  link_ttl = link_ttl;
  session_ttl = session_ttl;
  links = [];
  sessions = [];
}

abbrev pub live : Instant → Text → HouseRecord → Bool
live now token r = not (ltb r.expires_at now)

unfoldable pub cleanup : Manager → Instant → Manager
cleanup m now = record m {
  links = retain (live now) m.links;
  sessions = retain (live now) m.sessions;
}

pub data IssueError : Type 0 where
  too_many_links no_randomness : IssueError

unfoldable pub add_link : Manager → Text → Instant → Option Text → Manager × Result IssueError Text
add_link m house_id later none = (m, err no_randomness)
add_link m house_id later (some t) = (
  record m {
    links = insert t (record { house_id = house_id; expires_at = later + m.link_ttl }) m.links;
  },
  ok t,
)

-- IssueLink
unfoldable pub issue_link :
    Manager → Text → Instant → Instant → Option Text → Manager × Result IssueError Text
issue_link m house_id now later token =
    let clean = cleanup m now in
    if leb max_pending_links (length clean.links)
    then (clean, err too_many_links)
    else add_link clean house_id later token

unfoldable pub start_session :
    Manager → HouseRecord → Instant → Option Text → Manager × Option (Text × Text)
start_session m r later none = (m, none)
start_session m r later (some t) = (
  record m {
    sessions =
        insert t (record { house_id = r.house_id; expires_at = later + m.session_ttl }) m.sessions;
  },
  some (r.house_id, t),
)

-- The part of Redeem that follows the deletion of the link.
unfoldable pub mint : Manager → HouseRecord → Instant → Option Text → Manager × Option (Text × Text)
mint m r later token = if ltb r.expires_at later then (m, none) else start_session m r later token

-- Redeem: the house and the new session's token
unfoldable pub redeem :
    Manager → Text → Instant → Instant → Option Text → Manager × Option (Text × Text)
redeem m link now later token =
    let clean = cleanup m now in
    elim (lookup link clean.links) [
      | none ↦ (clean, none)
      | some r ↦ mint (record clean { links = delete link clean.links }) r later token
    ]

-- HouseID
unfoldable pub house_id : Manager → Text → Instant → Manager × Option Text
house_id m session now =
    let clean = cleanup m now in
    (clean, Option.map (λ (r : HouseRecord). r.house_id) (lookup session clean.sessions))
