-- ===== src/Profiles.antt =====
-- Obligation profiles and what their evaluation gives (internal/profiles/schema.go, evaluate.go).
pub mod Fields
pub mod Text
pub mod Evaluate
pub mod Dsl
use atb.Prelude.{ℕ, String, Bool, List, [], ◌∷◌, ◌++◌, Option}
use atb.Prelude.Int.{ℤ}

-- requiredWhenRule
pub record RequiredWhenRule : Type 0 where
  pub when_type : String
  pub at_or_after : Bool
  pub message : String

-- EventRule
pub record EventRule : Type 0 where
  pub type_id : String
  pub fields : List String
  pub message : String
  pub severity : String
  pub required_when : List RequiredWhenRule

-- RelationPredicate
pub record RelationPredicate : Type 0 where
  pub side : String
  pub field : String
  pub equals : String

-- RelationRule
pub record RelationRule : Type 0 where
  pub name : String
  pub from : String
  pub to : String
  pub field : String
  pub message : String
  pub predicates : List RelationPredicate

-- ProfileSchema, the fields that Evaluate reads.
pub record ProfileSchema : Type 0 where
  pub blind_spots : List String
  pub required : List EventRule
  pub optional : List EventRule
  pub relations : List RelationRule

-- CriticalFailure
pub record CriticalFailure : Type 0 where
  pub id : String
  pub kind : String
  pub detail : String

-- EvaluationResult
pub record EvaluationResult : Type 0 where
  pub pass : Bool
  pub critical_failures : List CriticalFailure
  pub required_warnings : List String
  pub informational_notes : List String

-- The parts of Go's library that stand on tables and formats: strings.EqualFold, fmt's %q, and
-- time.Parse with RFC 3339, as the instant.
pub record Library : Type 0 where
  pub equal_fold : String → String → Bool
  pub quoted : String → String
  pub parse_time : String → Option ℤ

-- result.CriticalFailures = append(result.CriticalFailures, failure)
abbrev pub add_failure : CriticalFailure → EvaluationResult → EvaluationResult
add_failure f r = record r { critical_failures = r.critical_failures ++ f ∷ [] }

-- result.RequiredWarnings = append(result.RequiredWarnings, warning)
abbrev pub add_warning : String → EvaluationResult → EvaluationResult
add_warning w r = record r { required_warnings = r.required_warnings ++ w ∷ [] }
