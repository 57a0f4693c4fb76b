-- ===== src/Profiles/Evaluate/Compliant/Events.antt =====
-- The rules on events as checks (internal/profiles/evaluate.go).
use atb.Prelude.{
  ◌≡◌, ◌⊎◌, ◌↔◌, refl, String, true, List, [], ◌∷◌, Option, All, Bool-cases, inl, inr,
}
use atb.Json.{Fields}
use atb.Bundle.{Record}
use atb.Profiles.{EventRule, EvaluationResult, Library}
use atb.Profiles.Fields.{data_map, has_field, missing_fields}
use atb.Profiles.Evaluate.{
  append_rule_finding, missing_field_finding, evaluate_required_rule, evaluate_optional_rule,
}
use atb.Profiles.Evaluate.Holds.{IsPresent}
use atb.Profiles.Evaluate.Compliant.{Checks, kept, failed, cons-ne-nil}

missing_fields-nil :
    (fs : Option Fields) (ks : List String)
    → (missing_fields fs ks ≡ []) ↔ All (λ k. has_field fs k ≡ true) ks
unfolding missing_fields
missing_fields-nil fs [] = (λ e. tt, λ h. refl)
missing_fields-nil fs (k ∷ ks) =
    let more = missing_fields-nil fs ks in
    elim (Bool-cases (has_field fs k)) [
      | inl e ↦
          (λ m. (e, more.0 (rw (missing_fields, e) at m)), λ h. rw (missing_fields, e) (more.1 h.1))
      | inr e ↦ (λ m. absurd (cons-ne-nil (rw (missing_fields, e) at m)), λ h. cc (h.0, e))
    ]

module _ (lib : Library) where
  append_rule_finding-Checks :
      {Q : Type 0} (r : EvaluationResult) (rule : EventRule) (id kind detail : String)
      → (Q → ⊥)
      → Checks r
          (append_rule_finding lib r rule id kind detail)
          ((lib.equal_fold rule.severity "warning" ≡ true) ⊎ Q)
  unfolding append_rule_finding
  append_rule_finding-Checks r rule id kind detail refuted =
      elim (Bool-cases (lib.equal_fold rule.severity "warning")) [
        | inl e ↦ rw (append_rule_finding, e) (kept r (inl refl))
        | inr e ↦
            rw (append_rule_finding, e)
              (failed r _ λ q. elim q [ inl w ↦ cc w | inr p ↦ refuted p ])
      ]

  missing_field_finding-Checks :
      {Q : Type 0} (r : EvaluationResult) (rule : EventRule) (missing : List String)
      → (missing ≡ []) ↔ Q
      → Checks r
          (missing_field_finding lib r rule missing)
          ((lib.equal_fold rule.severity "warning" ≡ true) ⊎ Q)
  unfolding missing_field_finding
  missing_field_finding-Checks r rule [] q = kept r (inr (q.0 refl))
  missing_field_finding-Checks r rule (k ∷ ks) q =
      append_rule_finding-Checks r rule _ _ _ λ h. cons-ne-nil (q.1 h)

  pub evaluate_required_rule-Checks :
      (r : EvaluationResult) (rs : List Record) (rule : EventRule)
      → Checks r
          (evaluate_required_rule lib r rs rule)
          ((lib.equal_fold rule.severity "warning" ≡ true) ⊎ IsPresent rule rs)
  unfolding evaluate_required_rule
  evaluate_required_rule-Checks r [] rule = append_rule_finding-Checks r rule _ _ _ λ h. h
  evaluate_required_rule-Checks r (x ∷ xs) rule =
      missing_field_finding-Checks r rule _
        (missing_fields-nil (data_map x.event.payload) rule.fields)

  pub evaluate_optional_rule-Checks :
      (r : EvaluationResult) (rs : List Record) (rule : EventRule)
      → Checks r
          (evaluate_optional_rule lib r rs rule)
          ((lib.equal_fold rule.severity "warning" ≡ true) ⊎ IsPresent rule rs)
  unfolding evaluate_optional_rule
  evaluate_optional_rule-Checks r [] rule = append_rule_finding-Checks r rule _ _ _ λ h. h
  evaluate_optional_rule-Checks r (x ∷ xs) rule =
      missing_field_finding-Checks r rule _
        (missing_fields-nil (data_map x.event.payload) rule.fields)
