-- ===== src/Classifier.antt =====
-- classifier: the data of types.go, and ClassifyURL of classifier.go. Catalog models catalog.go, Engine
-- the reading of an engine's answer in simplejev.go, Extract the limits of extract.go. A score is a
-- number of equal steps, `quarter` of which make 0.25; the doubles that are not negative are such
-- numbers for steps of 2^-1074.
pub mod Catalog
pub mod Engine
pub mod Extract
pub mod Fetch
pub mod Http
pub mod Rating
mod Samples
use teen_dns.Base.{ℕ, ℤ, List, Text}
use teen_dns.Platform.{Instant}

pub record PageProfile : Type 0 where
  pub url : Text
  pub final_url : Text
  pub domain : Text
  pub title : Text
  pub description : Text
  pub text : Text
  pub links : List Text

pub record Criterion : Type 0 where
  pub id : Text
  pub label : Text
  pub axis : Text
  pub rating : Text
  pub definition : Text
  pub signals : List Text

pub record Question : Type 0 where
  pub instructions : Text
  pub true_label : Text
  pub false_label : Text

pub record Evidence : Type 0 where
  pub kind : Text
  pub description : Text
  pub locator : Text

pub record CriterionResult : Type 0 where
  pub axis : Text
  pub criterion_id : Text
  pub label : Text
  pub confidence : ℕ
  pub evidence : List Evidence

pub record ClassifierInfo : Type 0 where
  pub name : Text
  pub version : Text

pub record Classification : Type 0 where
  pub taxonomy_version : Text
  pub profile_id : Text
  pub subject_url : Text
  pub subject_scope : Text
  pub rating : Text
  pub criteria : List CriterionResult
  pub decision : Text
  pub decision_reasons : List Text
  pub review_status : Text
  pub classified_at : Instant
  pub classifier : ClassifierInfo
