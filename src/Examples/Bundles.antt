-- ===== src/Examples/Bundles.antt =====
-- The theorems on bundles at a new bundle, and at one that a tool event was appended to.
use atb.Prelude.{◌≡◌, ◌≢◌, ◌↔◌, refl, String, List, [], Option, none, some, length, eq_iff, arith}
use atb.Prelude.Int.{pos}
use atb.Prelude.Result.{Result, ok}
use atb.Json.{Value, str, obj, end, field, int}
use atb.Json.Float
use atb.Canonicalize.{marshal, is_encodable, write_value, serialize_number, join_members}
use atb.Canonicalize.Text.{write_string}
use atb.Canonicalize.Sort.{sort}
use atb.Canonicalize.Keys.{utf16_less}
use atb.Event.{event_value, omit_empty}
use atb.HashChain.{compute, genesis_hash}
use atb.HashChain.Spec.{IsChain}
use atb.Bundle.{Record, AppendOptions, Error, ManifestData, pairs, manifest_event_type}
use atb.Bundle.Manifest.{parse_manifest_data, manifest}
use atb.Bundle.Append.{NewOptions, new_with_options, append_with_options}
use atb.Bundle.Append.TypeName.{is_event_type}
use atb.Bundle.Append.Laws.{verify-append}
use atb.Bundle.Append.Laws.New.{manifest-new, written, ReadsBack}
use atb.Bundle.Append.Laws.Floor.{built_empty, built_append, Built-IsSound, IsFloored}
use atb.Bundle.Verify.{verify_bundle}
use atb.Bundle.Verify.Laws.{verify_bundle_iff, first_sequence}
use atb.Examples.{platform, codec}
use atb.Examples.Acquisition.{acquisition}

abbrev pub records_of : Result Error (List Record) → List Record
records_of (ok rs) = rs
records_of _ = []

abbrev pub v1 : NewOptions
v1 = record { manifest_version = pos 0; capture_run_id = "" }

abbrev pub fresh : List Record
fresh = records_of (new_with_options platform codec v1 "2026-01-01T00:00:00Z" "ab")

made : new_with_options platform codec v1 "2026-01-01T00:00:00Z" "ab" ≡ ok fresh
unfolding new_with_options is_event_type compute event_value marshal is_encodable write_value
    serialize_number Float.is_finite Float.of_int join_members write_string sort utf16_less
made = refl

no_time : ◌≢◌ {A = String} "2026-01-01T00:00:00Z" ""
no_time = ground (arith, eq_iff "2026-01-01T00:00:00Z" "")

no_id : ◌≢◌ {A = String} "ab" ""
no_id = ground (arith, eq_iff "ab" "")

reads_back : ReadsBack codec (written v1 "2026-01-01T00:00:00Z" "ab")
reads_back = record { version_back = refl; manifest_back = refl }

manifest-new_example :
    (verify_bundle platform fresh ≡ none)
    × (length fresh ≡ 1)
    × (manifest codec fresh ≡ some (written v1 "2026-01-01T00:00:00Z" "ab"))
manifest-new_example =
    manifest-new codec v1 "2026-01-01T00:00:00Z" "ab" no_time no_id reads_back platform fresh made

abbrev longer : List Record
longer = records_of (append_with_options platform codec fresh "ai.tool.exec" (str "ls") none)

appended : append_with_options platform codec fresh "ai.tool.exec" (str "ls") none ≡ ok longer
unfolding append_with_options new_with_options is_event_type compute event_value marshal
    is_encodable write_value serialize_number Float.is_finite Float.of_int join_members write_string
    sort utf16_less
appended = refl

verify-append_example : verify_bundle platform longer ≡ none
verify-append_example =
    verify-append platform codec fresh longer "ai.tool.exec" (str "ls") none manifest-new_example.0
      appended

verify_bundle_iff_example :
    (verify_bundle platform longer ≡ none)
    ↔ IsChain platform (first_sequence longer) genesis_hash (pairs longer)
verify_bundle_iff_example = verify_bundle_iff platform longer

abbrev v3_payload : Value
v3_payload = obj (
    field "version" (int (pos 3))
      (field "created_at" (str "2026-01-01T00:00:00Z") (field "bundle_id" (str "ab") end)))

abbrev first : List Record
first = records_of (append_with_options platform codec [] manifest_event_type v3_payload none)

first_appended :
    append_with_options platform codec [] manifest_event_type v3_payload none ≡ ok first
unfolding append_with_options is_event_type compute event_value marshal is_encodable write_value
    serialize_number Float.is_finite Float.of_int join_members write_string sort utf16_less
first_appended = refl

abbrev acquired_options : Option AppendOptions
acquired_options = some (record {
  actor_id = none;
  org_id = none;
  workspace_id = none;
  timestamp = "";
  trace_id = "";
  span_id = "";
  parent_span_id = "";
  acquisition = some (acquisition "a");
})

abbrev second : List Record
second =
    records_of
      (append_with_options platform codec first "ai.chat.message" (str "hi") acquired_options)

second_appended :
    append_with_options platform codec first "ai.chat.message" (str "hi") acquired_options
    ≡ ok second
unfolding append_with_options is_event_type compute event_value marshal is_encodable write_value
    serialize_number Float.is_finite Float.of_int join_members write_string sort utf16_less
    omit_empty parse_manifest_data
second_appended = refl

-- An acquisition behind a manifest of version 3.
Built-IsSound_example : (verify_bundle platform second ≡ none) × IsFloored codec second
Built-IsSound_example = Built-IsSound platform codec (
    built_append "ai.chat.message" (str "hi") acquired_options
      (built_append manifest_event_type v3_payload none built_empty first_appended) second_appended)

abbrev v2_data : Value
v2_data = obj (
    field "version" (int (pos 2)) (field "created_at" (str "t") (field "bundle_id" (str "ab") end)))

abbrev v2_manifest : ManifestData
v2_manifest = record { version = "2"; created_at = "t"; bundle_id = "ab"; capture_run_id = "" }
