-- ===== src/Profiles/Evaluate/Passes.antt =====
-- Evaluate against what the rules of a profile ask (internal/profiles/evaluate.go).
use atb.Prelude.{◌≡◌, ◌↔◌, refl, Bool, true, List, [], ◌∷◌, ◌++◌, Bool-cases, List-cases, inl, inr}
use atb.Bundle.{Record}
use atb.Profiles.{EventRule, RelationRule, ProfileSchema, EvaluationResult, Library}
use atb.Profiles.Fields.{at_key, index_records_by_type}
use atb.Profiles.Evaluate.{
  no_elements, for_each, evaluate_required_rule, evaluate_optional_rule, evaluate_relation_rule,
  evaluate_condition, evaluate_conditions, required_step, optional_step, relation_step,
  evaluate_required_when_rules, inserted, sorted, failure_less, finalise_evaluation_result,
  empty_result, evaluate,
}
use atb.Profiles.Evaluate.Indexed.{of_type, index_records_by_type-of_type}
use atb.Profiles.Evaluate.Holds.{
  IsEventMet, IsRelated, IsConditionMet, AreConditionsMet, IsCompliant,
}
use atb.Profiles.Evaluate.Compliant.{Checks, for_each-Checks, cons-ne-nil}
use atb.Profiles.Evaluate.Compliant.Events.{
  evaluate_required_rule-Checks, evaluate_optional_rule-Checks,
}
use atb.Profiles.Evaluate.Compliant.Relations.{evaluate_relation_rule-Checks}
use atb.Profiles.Evaluate.Compliant.Conditions.{condition_finding-Checks}

inserted-ne-nil :
    {A : Type 0} (less : A → A → Bool) (x : A) (xs : List A) → inserted less x xs ≡ [] → ⊥
unfolding inserted
inserted-ne-nil less x [] e = cc
inserted-ne-nil less x (y ∷ ys) e = elim (Bool-cases (less y x)) [
  | inl l ↦ cons-ne-nil (rw (inserted, l) at e)
  | inr l ↦ cons-ne-nil (rw (inserted, l) at e)
]

-- Sorting finds as many failures: none exactly if there were none.
no_elements-sorted :
    {A : Type 0} (less : A → A → Bool) (xs : List A)
    → (no_elements (sorted less xs) ≡ true) ↔ (xs ≡ [])
unfolding sorted
no_elements-sorted less [] = (λ e. refl, λ e. refl)
no_elements-sorted less (x ∷ xs) = elim (List-cases (inserted less x (sorted less xs))) [
  | inl e ↦ absurd (inserted-ne-nil less x (sorted less xs) e)
  | inr (y, ys, e) ↦ (λ h. cc (rw (e) at h), λ h. cc h)
]

module _ (lib : Library) (rs : List Record) where
  required-Checks :
      (r : EvaluationResult) (rule : EventRule)
      → Checks r
          (evaluate_required_rule lib r (at_key (index_records_by_type rs) rule.type_id) rule)
          (IsEventMet lib rs rule)
  required-Checks r rule =
      rw (index_records_by_type-of_type rule.type_id rs)
        (evaluate_required_rule-Checks lib r (of_type rule.type_id rs) rule)

  optional-Checks :
      (r : EvaluationResult) (rule : EventRule)
      → Checks r
          (evaluate_optional_rule lib r (at_key (index_records_by_type rs) rule.type_id) rule)
          (IsEventMet lib rs rule)
  optional-Checks r rule =
      rw (index_records_by_type-of_type rule.type_id rs)
        (evaluate_optional_rule-Checks lib r (of_type rule.type_id rs) rule)

  relations-Checks :
      (r : EvaluationResult) (rule : RelationRule)
      → Checks r
          (evaluate_relation_rule lib r (index_records_by_type rs) rule)
          (IsRelated lib rs rule)
  relations-Checks r rule =
      rw (index_records_by_type-of_type rule.to rs, index_records_by_type-of_type rule.from rs) at
        (evaluate_relation_rule-Checks lib rule r (index_records_by_type rs))

  conditions-Checks :
      (r : EvaluationResult) (rule : EventRule)
      → Checks r
          (evaluate_conditions lib (index_records_by_type rs) r rule)
          (AreConditionsMet lib rs rule)
  unfolding evaluate_conditions
  conditions-Checks r rule =
      for_each-Checks (evaluate_condition lib (index_records_by_type rs) rule)
        (λ c. IsConditionMet lib c (of_type c.when_type rs) (of_type rule.type_id rs))
        (λ before c.
          rw
            (
              index_records_by_type-of_type c.when_type rs,
              index_records_by_type-of_type rule.type_id rs,
            )
            (condition_finding-Checks lib rule c before (of_type c.when_type rs)
              (of_type rule.type_id rs)))
        r rule.required_when

-- Evaluate passes exactly the records that meet the profile: the first record of each type that a rule
-- names is there with the fields of the rule, unless the rule is a warning; where both sides of a
-- relation occur, each record of the one has a record of the other with the same value in the field
-- that meets the predicates; and where the type of a required_when condition occurs, a target is
-- there, and at or after the first record of that type when the condition asks for it and both
-- sides have a timestamp that can be read.
pub evaluate-pass_iff :
    (lib : Library) (schema : ProfileSchema) (rs : List Record)
    → ((evaluate lib schema rs).pass ≡ true) ↔ IsCompliant lib schema rs
unfolding evaluate finalise_evaluation_result evaluate_required_when_rules
evaluate-pass_iff lib schema rs =
    let m = index_records_by_type rs in
    let required = for_each (required_step lib m) empty_result schema.required in
    let optional = for_each (optional_step lib m) required schema.optional in
    let related = for_each (relation_step lib m) optional schema.relations in
    let last = for_each (evaluate_conditions lib m) related (schema.required ++ schema.optional) in
    let by_required =
      for_each-Checks (required_step lib m) (IsEventMet lib rs) (required-Checks lib rs)
        empty_result schema.required in
    let by_optional =
      for_each-Checks (optional_step lib m) (IsEventMet lib rs) (optional-Checks lib rs) required
        schema.optional in
    let by_relations =
      for_each-Checks (relation_step lib m) (IsRelated lib rs) (relations-Checks lib rs) optional
        schema.relations in
    let by_conditions =
      for_each-Checks (evaluate_conditions lib m) (AreConditionsMet lib rs)
        (conditions-Checks lib rs) related (schema.required ++ schema.optional) in
    let counted = no_elements-sorted failure_less last.critical_failures in
    (
      λ pass.
          let (c₃, conditions) = by_conditions.0 (counted.0 pass) in
          let (c₂, relations) = by_relations.0 c₃ in
          let (c₁, optional_met) = by_optional.0 c₂ in
          ((by_required.0 c₁).1, optional_met, relations, conditions),
      λ met. counted.1 (
          by_conditions.1
            (by_relations.1 (by_optional.1 (by_required.1 (refl, met.0), met.1), met.2), met.3)),
    )
