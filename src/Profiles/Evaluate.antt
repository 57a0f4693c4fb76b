-- ===== src/Profiles/Evaluate.antt =====
-- Evaluate and its rules (internal/profiles/evaluate.go). The result that the code passes by pointer is
-- an argument and the value.
pub mod Indexed
pub mod Holds
pub mod Compliant
pub mod Passes
use atb.Prelude.{
  ℕ, String, Bool, true, false, not, ◌&&◌, ◌||◌, List, [], ◌∷◌, ◌++◌, Option, none, some, codes,
  str_eq, if◌then◌else◌,
}
use atb.Prelude.Int.{ℤ, ltb_ℤ}
use atb.Prelude.Map.{Map, lookup, put}
use atb.Canonicalize.Keys.{less_units}
use atb.CaptureJournal.Space.{is_blank}
use atb.Bundle.{Record}
use atb.Profiles.{
  RequiredWhenRule, EventRule, RelationPredicate, RelationRule, ProfileSchema, CriticalFailure,
  EvaluationResult, Library, add_failure, add_warning,
}
use atb.Profiles.Fields.{
  data_map, missing_fields, field_string, at_key, index_records_by_type, index_by_field, Timestamp,
  no_timestamp, invalid_timestamp, at_time, parse_event_timestamp,
}
use atb.Profiles.Text.{
  message_or_default, missing_message, missing_fields_message, relation_default_message,
  required_event_id, optional_event_id, required_field_id, relation_id, relation_predicate_id,
  relation_predicate_message, required_when_id, condition_timestamp_warning,
  target_timestamp_warning, required_when_missing, required_when_order,
}

abbrev pub no_elements : {A : Type 0} → List A → Bool
no_elements [] = true
no_elements (x ∷ xs) = false

-- The record that a predicate reads.
abbrev pub target_of : RelationPredicate → Record → Record → Record
target_of p from to = if str_eq p.side "from" then from else to

-- The failure kept so far, or else the new one.
abbrev pub first_failure : Option CriticalFailure → CriticalFailure → CriticalFailure
first_failure none f = f
first_failure (some first) f = first

abbrev pub add_found : Option CriticalFailure → EvaluationResult → EvaluationResult
add_found none result = result
add_found (some f) result = add_failure f result

-- A range loop whose body changes the result.
abbrev pub for_each : {R A : Type 0} → (R → A → R) → R → List A → R
for_each body r [] = r
for_each body r (x ∷ xs) = for_each body (body r x) xs

module _ (lib : Library) where
  unfoldable pub append_rule_finding :
      EvaluationResult → EventRule → String → String → String → EvaluationResult
  append_rule_finding result rule id kind detail =
      if lib.equal_fold rule.severity "warning"
      then add_warning detail result
      else add_failure (record { id = id; kind = kind; detail = detail }) result

  -- What both kinds of rules do with the fields that the first record of the type lacks; a rule
  -- without fields lacks none.
  unfoldable pub missing_field_finding :
      EvaluationResult → EventRule → List String → EvaluationResult
  missing_field_finding result rule [] = result
  missing_field_finding result rule (field ∷ more) =
      append_rule_finding result rule (required_field_id rule.type_id field) "missing_field"
        (message_or_default rule.message (missing_fields_message rule.type_id))

  unfoldable pub evaluate_required_rule :
      EvaluationResult → List Record → EventRule → EvaluationResult
  evaluate_required_rule result [] rule =
      append_rule_finding result rule (required_event_id rule.type_id) "missing_event"
        (message_or_default rule.message (missing_message rule.type_id))
  evaluate_required_rule result (r ∷ rs) rule =
      missing_field_finding result rule (missing_fields (data_map r.event.payload) rule.fields)

  unfoldable pub evaluate_optional_rule :
      EvaluationResult → List Record → EventRule → EvaluationResult
  evaluate_optional_rule result [] rule =
      append_rule_finding result rule (optional_event_id rule.type_id) "missing_event"
        (message_or_default rule.message (missing_message rule.type_id))
  evaluate_optional_rule result (r ∷ rs) rule =
      missing_field_finding result rule (missing_fields (data_map r.event.payload) rule.fields)

  -- firstRelationPredicateFailure from a predicate on.
  unfoldable pub first_predicate_failure :
      RelationRule → Record → Record → List RelationPredicate → Option CriticalFailure
  first_predicate_failure rule from to [] = none
  first_predicate_failure rule from to (p ∷ ps) =
      let rest = first_predicate_failure rule from to ps in
      let actual = field_string (target_of p from to) p.field in
      if lib.equal_fold actual p.equals
      then rest
      else some (record {
        id = relation_predicate_id rule p;
        kind = "relation_violation";
        detail = relation_predicate_message lib rule p actual;
      })

  -- The loop of relationPredicateFailure. The zero CriticalFailure, which no failure equals since each
  -- has an ID, is `none`.
  unfoldable pub relation_predicate_failure :
      RelationRule → Record → List Record → Option CriticalFailure → Option CriticalFailure
  relation_predicate_failure rule from [] first = first
  relation_predicate_failure rule from (to ∷ tos) first =
      elim (first_predicate_failure rule from to rule.predicates) [
        | none ↦ none
        | some f ↦ relation_predicate_failure rule from tos (some (first_failure first f))
      ]

  -- The body of the loop of evaluateRelationRule, on the records linked by the value.
  unfoldable pub linked_finding :
      EvaluationResult → RelationRule → Record → List Record → EvaluationResult
  linked_finding result rule from linked =
      let reachable = not (str_eq (field_string from rule.field) "") && not (no_elements linked) in
      if reachable && no_elements rule.predicates
      then result
      else if reachable
      then add_found (relation_predicate_failure rule from linked none) result
      else add_failure
          (record {
            id = relation_id rule;
            kind = "relation_violation";
            detail = message_or_default rule.message (relation_default_message rule);
          })
          result

  abbrev pub relate :
      RelationRule → Map (List Record) → EvaluationResult → Record → EvaluationResult
  relate rule to_by_field result from =
      linked_finding result rule from (at_key to_by_field (field_string from rule.field))

  unfoldable pub evaluate_relation_rule :
      EvaluationResult → Map (List Record) → RelationRule → EvaluationResult
  evaluate_relation_rule result by_type rule =
      if no_elements (at_key by_type rule.from) || no_elements (at_key by_type rule.to)
      then result
      else for_each (relate rule (index_by_field (at_key by_type rule.to) rule.field)) result
          (at_key by_type rule.from)

  -- The loop over the target records: whether one has a valid timestamp, and whether one is at or
  -- after the condition.
  unfoldable pub target_times : ℤ → List Record → Bool → Bool × Bool
  target_times t [] any_valid = (any_valid, false)
  target_times t (r ∷ rs) any_valid = elim (parse_event_timestamp lib r) [
    | no_timestamp ↦ target_times t rs any_valid
    | invalid_timestamp ↦ target_times t rs any_valid
    | at_time u ↦ elim (ltb_ℤ u t) [ true ↦ target_times t rs true | false ↦ (true, true) ]
  ]

  unfoldable pub order_finding :
      EvaluationResult → EventRule → RequiredWhenRule → Bool × Bool → EvaluationResult
  order_finding result rule c (false, at_or_after) =
      add_warning (target_timestamp_warning rule.type_id c.when_type) result
  order_finding result rule c (true, true) = result
  order_finding result rule c (true, false) =
      add_failure
        (record {
          id = required_when_id rule.type_id c.when_type;
          kind = "temporal_violation";
          detail = required_when_order rule.type_id c.when_type;
        })
        result

  unfoldable pub ordering :
      EvaluationResult → EventRule → RequiredWhenRule → List Record → Timestamp → EvaluationResult
  ordering result rule c targets no_timestamp =
      add_warning (condition_timestamp_warning rule.type_id c.when_type false) result
  ordering result rule c targets invalid_timestamp =
      add_warning (condition_timestamp_warning rule.type_id c.when_type true) result
  ordering result rule c targets (at_time t) =
      order_finding result rule c (target_times t targets false)

  -- The body of the inner loop of evaluateRequiredWhenRules, on the records of both types.
  unfoldable pub condition_finding :
      EvaluationResult → EventRule → RequiredWhenRule → List Record → List Record → EvaluationResult
  condition_finding result rule c [] targets = result
  condition_finding result rule c (first ∷ more) [] =
      add_failure
        (record {
          id = required_when_id rule.type_id c.when_type;
          kind = "missing_event";
          detail = message_or_default c.message (required_when_missing rule.type_id c.when_type);
        })
        result
  condition_finding result rule c (first ∷ more) (target ∷ targets) =
      if c.at_or_after
      then ordering result rule c (target ∷ targets) (parse_event_timestamp lib first)
      else result

  abbrev pub evaluate_condition :
      Map (List Record) → EventRule → EvaluationResult → RequiredWhenRule → EvaluationResult
  evaluate_condition by_type rule result c =
      condition_finding result rule c (at_key by_type c.when_type) (at_key by_type rule.type_id)

  unfoldable pub evaluate_conditions :
      Map (List Record) → EvaluationResult → EventRule → EvaluationResult
  evaluate_conditions by_type result rule =
      for_each (evaluate_condition by_type rule) result rule.required_when

  unfoldable pub evaluate_required_when_rules :
      EvaluationResult → ProfileSchema → Map (List Record) → EvaluationResult
  unfolding evaluate_conditions
  evaluate_required_when_rules result schema by_type =
      for_each (evaluate_conditions by_type) result (schema.required ++ schema.optional)

-- `<` on strings, by their code points, which order UTF-8 as its bytes do.
abbrev pub text_less : String → String → Bool
text_less a b = less_units (codes a) (codes b)

-- sort.Strings and sort.Slice, as an insertion sort: sort.Slice leaves the order of failures with the
-- same kind and detail open.
module _ {A : Type 0} (less : A → A → Bool) where
  unfoldable pub inserted : A → List A → List A
  inserted x [] = x ∷ []
  inserted x (y ∷ ys) = let rest = inserted x ys in if less y x then y ∷ rest else x ∷ y ∷ ys

  unfoldable pub sorted : List A → List A
  unfolding inserted
  sorted [] = []
  sorted (x ∷ xs) = inserted x (sorted xs)

abbrev pub failure_less : CriticalFailure → CriticalFailure → Bool
failure_less f g =
    if str_eq f.kind g.kind then text_less f.detail g.detail else text_less f.kind g.kind

-- appendUniqueStrings: the values that are not in `dst` yet, in order.
abbrev pub contains : String → List String → Bool
contains s [] = false
contains s (t ∷ ts) = str_eq t s || contains s ts

unfoldable pub append_unique_strings : List String → List String → List String
append_unique_strings dst [] = dst
append_unique_strings dst (s ∷ values) =
    append_unique_strings (if contains s dst then dst else dst ++ s ∷ []) values

unfoldable pub finalise_evaluation_result : EvaluationResult → EvaluationResult
unfolding sorted append_unique_strings
finalise_evaluation_result r =
    let failures = sorted failure_less r.critical_failures in
    record {
      pass = no_elements failures;
      critical_failures = failures;
      required_warnings = sorted text_less (append_unique_strings [] r.required_warnings);
      informational_notes = sorted text_less (append_unique_strings [] r.informational_notes);
    }

abbrev pub empty_result : EvaluationResult
empty_result = record {
  pass = false;
  critical_failures = [];
  required_warnings = [];
  informational_notes = [];
}

abbrev pub add_notes : List String → EvaluationResult → EvaluationResult
add_notes notes r = record r { informational_notes = r.informational_notes ++ notes }

-- The bodies of the first three loops of Evaluate.
module _ (lib : Library) (by_type : Map (List Record)) where
  abbrev pub required_step : EvaluationResult → EventRule → EvaluationResult
  required_step r rule = evaluate_required_rule lib r (at_key by_type rule.type_id) rule

  abbrev pub optional_step : EvaluationResult → EventRule → EvaluationResult
  optional_step r rule = evaluate_optional_rule lib r (at_key by_type rule.type_id) rule

  abbrev pub relation_step : EvaluationResult → RelationRule → EvaluationResult
  relation_step r rule = evaluate_relation_rule lib r by_type rule

unfoldable pub evaluate : Library → ProfileSchema → List Record → EvaluationResult
unfolding evaluate_required_when_rules finalise_evaluation_result index_records_by_type
evaluate lib schema rs =
    let by_type = index_records_by_type rs in
    let required = for_each (required_step lib by_type) empty_result schema.required in
    let optional = for_each (optional_step lib by_type) required schema.optional in
    let related = for_each (relation_step lib by_type) optional schema.relations in
    finalise_evaluation_result
      (add_notes schema.blind_spots (evaluate_required_when_rules lib related schema by_type))
