-- ===== src/Examples/Import.antt =====
-- The theorem on imports, at two events of one source record.
use atb.Prelude.{◌≡◌, refl, String, true, false, List, [], ◌∷◌, none, some, All}
use atb.Prelude.Result.{Result, ok}
use atb.Json.{str}
use atb.Json.Float
use atb.Canonicalize.{marshal, is_encodable, write_value, serialize_number, join_members}
use atb.Canonicalize.Text.{write_string}
use atb.Canonicalize.Sort.{sort}
use atb.Canonicalize.Keys.{utf16_less}
use atb.Event.{event_value, omit_empty}
use atb.HashChain.{compute, verify_step}
use atb.Bundle.{Record, has_manifest_record}
use atb.Bundle.Manifest.{manifest, parse_manifest_data}
use atb.Bundle.Manifest.Scan.{scan_int}
use atb.Bundle.Append.{new_with_options, append_with_options}
use atb.Bundle.Append.TypeName.{is_event_type}
use atb.Bundle.Verify.{verify_bundle}
use atb.Acquisition.Reconcile.{load_from_bundle, is_unstable, reconcile}
use atb.Acquisition.Import.{ImportEvent, ReconcileCounts, writes_acquisition, no_counts}
use atb.Acquisition.Import.Plan.{plan_reconciliation, decide}
use atb.Acquisition.Import.Write.{ImportError, apply_reconciliation, write_action}
use atb.Acquisition.Import.Sourced.{HasSource}
use atb.Acquisition.Import.Quiet.{IsQuiet}
use atb.Acquisition.Import.Again.{reimport-unchanged}
use atb.Examples.{platform, codec}
use atb.Examples.Status.{captured}
use atb.Examples.Acquisition.{acquisition}

abbrev pub said : String → ImportEvent
said text = record {
  type_id = "ai.chat.message";
  payload = str text;
  timestamp = "";
  trace_id = "";
  span_id = "";
  parent_span_id = "";
  acquisition = some (acquisition "a");
}

abbrev exchange : List ImportEvent
exchange = said "hi" ∷ said "ho" ∷ []

abbrev one_digest : String → String
one_digest key = "a"

have_source : All (HasSource one_digest) exchange
unfolding is_unstable
have_source = ((acquisition "a", refl, refl, refl), ((acquisition "a", refl, refl, refl), tt))

abbrev applied : Result ImportError (ReconcileCounts × List Record) → ReconcileCounts × List Record
applied (ok x) = x
applied _ = (no_counts, [])

abbrev outcome : ReconcileCounts × List Record
outcome = applied (
    apply_reconciliation platform codec (λ n. "t") captured
      (plan_reconciliation exchange (load_from_bundle [] captured) true))

is_applied :
    apply_reconciliation platform codec
      (λ n. "t")
      captured
      (plan_reconciliation exchange (load_from_bundle [] captured) true)
    ≡ ok (outcome.0, outcome.1)
unfolding apply_reconciliation plan_reconciliation decide write_action load_from_bundle reconcile
    is_unstable manifest parse_manifest_data scan_int append_with_options new_with_options
    is_event_type compute event_value omit_empty marshal is_encodable write_value serialize_number
    Float.is_finite Float.of_int join_members write_string sort utf16_less
is_applied = refl

is_verified : verify_bundle platform captured ≡ none
unfolding verify_bundle verify_step manifest parse_manifest_data scan_int append_with_options
    new_with_options is_event_type compute event_value omit_empty marshal is_encodable write_value
    serialize_number Float.is_finite Float.of_int join_members write_string sort utf16_less
is_verified = refl

has_manifest : has_manifest_record captured ≡ true
unfolding append_with_options new_with_options is_event_type compute event_value omit_empty marshal
    is_encodable write_value serialize_number Float.is_finite Float.of_int join_members write_string
    sort utf16_less
has_manifest = refl

reimport-unchanged_example :
    let again = plan_reconciliation exchange (load_from_bundle [] outcome.1) true in
    (verify_bundle platform outcome.1 ≡ none)
    × IsQuiet again
    × (writes_acquisition again ≡ false)
    × (apply_reconciliation platform codec (λ n. "later") outcome.1 again
        ≡ ok (again.counts, outcome.1))
reimport-unchanged_example =
    reimport-unchanged platform codec (λ n. "t") (λ n. "later") one_digest captured outcome.1
      exchange true outcome.0 is_verified has_manifest have_source is_applied
