-- ===== src/Examples/Profiles.antt =====
-- Evaluate at a decision that links to its request, and at one that does not.
use atb.Prelude.{All, map, ◌≡◌, ◌↔◌, refl, String, true, false, List, [], ◌∷◌, some, str_eq}
use atb.Prelude.Int.{pos}
use atb.Json.{str, obj, end, field}
use atb.Bundle.{Record, no_prefix}
use atb.Profiles.{ProfileSchema, Library}
use atb.Profiles.Fields.{missing_fields, index_by_field, parse_event_timestamp}
use atb.Profiles.Evaluate.{
  evaluate, evaluate_required_rule, missing_field_finding, evaluate_relation_rule, linked_finding,
  relation_predicate_failure, first_predicate_failure, evaluate_optional_rule, condition_finding,
  ordering, target_times, order_finding,
}
use atb.Profiles.Evaluate.Holds.{IsCompliant}
use atb.Profiles.Evaluate.Passes.{evaluate-pass_iff}
use atb.Profiles.Dsl.{
  compile_dsl_events, compiled_rule, IsGiven, IsDistinct, compile_dsl_events-IsDistinct,
}
use atb.Prelude.Result.{ok}
use atb.Examples.{plain_event}

abbrev library : Library
library = record { equal_fold = str_eq; quoted = λ s. s; parse_time = λ s. some (pos 3) }

abbrev with_id : String → String → Record
with_id type_id id = record {
  event = record (plain_event type_id (obj (field "id" (str id) end))) { timestamp = "now" };
  hash = "";
  prefix = no_prefix;
}

abbrev schema : ProfileSchema
schema = record {
  blind_spots = "the network" ∷ [];
  required =
      record {
        type_id = "request";
        fields = "id" ∷ [];
        message = "";
        severity = "critical";
        required_when = [];
      }
      ∷ [];
  optional =
      record {
        type_id = "decision";
        fields = [];
        message = "";
        severity = "warning";
        required_when = record { when_type = "request"; at_or_after = true; message = "" } ∷ [];
      }
      ∷ [];
  relations =
      record {
        name = "";
        from = "decision";
        to = "request";
        field = "id";
        message = "";
        predicates = record { side = "from"; field = "id"; equals = "7" } ∷ [];
      }
      ∷ [];
}

abbrev linked : List Record
linked = with_id "request" "7" ∷ with_id "decision" "7" ∷ []

evaluate-pass_iff_example :
    ((evaluate library schema linked).pass ≡ true) ↔ IsCompliant library schema linked
evaluate-pass_iff_example = evaluate-pass_iff library schema linked

linked_passes : (evaluate library schema linked).pass ≡ true
unfolding evaluate condition_finding ordering parse_event_timestamp order_finding target_times
    evaluate_relation_rule linked_finding index_by_field relation_predicate_failure
    first_predicate_failure evaluate_optional_rule missing_field_finding missing_fields
    evaluate_required_rule
linked_passes = refl

unlinked_fails :
    (evaluate library schema (with_id "request" "7" ∷ with_id "decision" "8" ∷ [])).pass ≡ false
unfolding evaluate condition_finding ordering parse_event_timestamp order_finding target_times
    evaluate_relation_rule linked_finding index_by_field relation_predicate_failure
    first_predicate_failure evaluate_optional_rule missing_field_finding missing_fields
    evaluate_required_rule
unlinked_fails = refl

compile_dsl_events-IsDistinct_example :
    (compile_dsl_events (" request" ∷ "decision" ∷ []) "critical"
      ≡ ok (compiled_rule "critical" "request" ∷ compiled_rule "critical" "decision" ∷ []))
    ↔ (All IsGiven ("request" ∷ "decision" ∷ [])
        × IsDistinct ("request" ∷ "decision" ∷ [])
        × (compiled_rule "critical" "request" ∷ compiled_rule "critical" "decision" ∷ []
            ≡ map (compiled_rule "critical") ("request" ∷ "decision" ∷ [])))
compile_dsl_events-IsDistinct_example =
    compile_dsl_events-IsDistinct (" request" ∷ "decision" ∷ []) "critical"
      (compiled_rule "critical" "request" ∷ compiled_rule "critical" "decision" ∷ [])
