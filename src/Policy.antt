-- ===== src/Policy.antt =====
-- internal/policy: the data that a family edits, and what a query is answered by.
-- The children model policy.go and schedule.go, and prove what they promise.
pub mod Names
pub mod Schedule
pub mod Decide
pub mod Store
mod Samples
use teen_dns.Base.{ℕ, ℤ, Bool, true, false, List, Option, Text}

-- `Action` is a string type: `other` is any string but the three that the program knows.
pub data Action : Type 0 where
  allow block observe : Action
  other : Text → Action

pub record Rule : Type 0 where
  pub domain : Text
  pub include_subdomains : Bool
  pub action : Action
  pub category : Text
  pub reason : Text

pub record TimeWindow : Type 0 where
  pub id : Text
  pub label : Text
  pub days : List ℤ
  pub start : Text
  pub end : Text

pub record ScheduledAction : Type 0 where
  pub window : TimeWindow
  pub action : Action

pub record RuleGroup : Type 0 where
  pub id : Text
  pub name : Text
  pub action : Action
  pub category : Text
  pub reason : Text
  pub domains : List Text
  pub default_domains : List Text
  pub domain_source : Text
  pub customized : Bool
  pub schedules : List ScheduledAction

-- `Location` is the name of the loaded zone, `none` for the nil pointer.
pub record Profile : Type 0 where
  pub id : Text
  pub house_id : Text
  pub label : Text
  pub hostname : Text
  pub disabled : Bool
  pub default_action : Action
  pub version : ℕ
  pub rules : List Rule
  pub groups : List RuleGroup
  pub pauses : List TimeWindow
  pub time_zone : Text
  pub location : Option Text

pub record Decision : Type 0 where
  pub action : Action
  pub category : Text
  pub reason : Text
  pub matched_domain : Text
  pub group_name : Text
  pub schedule_label : Text
  pub policy_version : ℕ

-- validAction
unfoldable pub valid_action : Action → Bool
valid_action allow = true
valid_action block = true
valid_action observe = true
valid_action (other _) = false

unfoldable pub is_block : Action → Bool
is_block block = true
is_block _ = false

unfoldable pub is_observe : Action → Bool
is_observe observe = true
is_observe _ = false

-- `schedule.Action != ActionAllow && schedule.Action != ActionBlock` fails
unfoldable pub schedule_action : Action → Bool
schedule_action allow = true
schedule_action block = true
schedule_action _ = false
