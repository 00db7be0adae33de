-- ===== src/Gateway.antt =====
-- internal/gateway: a DNS query of a profile's device, its answer and the event that it leaves.
-- Events models events.go, Resolve models resolve and its helpers of server.go, Doh models handleDoH.
pub mod Events
pub mod Resolve
pub mod Doh
mod Samples
use teen_dns.Base.{ℕ, Text}
use teen_dns.Platform.{Instant}
use teen_dns.Policy.{Action}

pub record Event : Type 0 where
  pub timestamp : Instant
  pub profile_id : Text
  pub query : Text
  pub query_type : ℕ
  pub action : Action
  pub category : Text
  pub reason : Text
  pub matched_domain : Text
  pub group_name : Text
  pub policy_version : ℕ
