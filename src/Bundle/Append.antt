-- ===== src/Bundle/Append.antt =====
-- AppendWithOptions and NewWithOptions (internal/bundle/bundle.go).
pub mod TypeName
pub mod Laws
use atb.Prelude.{
  ℕ, suc, ◌+◌, ◌≡◌, String, Bool, true, false, not, ◌&&◌, ◌||◌, List, [], ◌∷◌, ◌++◌, Option, none,
  some, length, str_eq, ◌==◌, if◌then◌else◌,
}
use atb.Prelude.Int.{ℤ, pos, eqb_ℤ}
use atb.Prelude.Result.{Result, ok, err, ◌>>=◌, ◌>>◌, fail_if}
use atb.Json.{Value, int, str, obj, Fields, end, field}
use atb.Event.{Event, AcquisitionInfo}
use atb.Canonicalize.{Platform}
use atb.HashChain.{compute, genesis_hash}
use atb.Bundle.{
  Record, no_prefix, ManifestData, AppendOptions, Error, manifest_not_first,
  acquisition_without_manifest, acquisition_below_v3, unreadable_manifest, bad_event_type,
  not_encodable, unsupported_manifest_version, Codec, manifest_event_type, has_manifest_record,
}
use atb.Bundle.Manifest.{parse_manifest_data}
use atb.Bundle.Append.TypeName.{is_event_type}

-- opts.Acquisition, where there are options.
abbrev pub acquisition_of : Option AppendOptions → Option AcquisitionInfo
acquisition_of none = none
acquisition_of (some o) = o.acquisition

-- An acquisition may be appended only behind a manifest that declares version 3.
acquisition_floor : Codec → List Record → Result Error (Unit {0})
acquisition_floor c [] = err acquisition_without_manifest
acquisition_floor c (r ∷ rs) =
    if not (has_manifest_record (r ∷ rs))
    then err acquisition_without_manifest
    else elim (parse_manifest_data c r.event) [
      | err e ↦ err (unreadable_manifest e)
      | ok m ↦ fail_if (not (str_eq m.version "3")) (acquisition_below_v3 m.version)
    ]

pub check_acquisition :
    Codec → List Record → String → Option AcquisitionInfo → Result Error (Unit {0})
unfolding acquisition_floor
check_acquisition c rs type_id none = ok tt
check_acquisition c rs type_id (some a) =
    if str_eq type_id manifest_event_type then ok tt else acquisition_floor c rs

-- The hash of the last record.
abbrev pub head_hash : List Record → String
head_hash [] = genesis_hash
head_hash (r ∷ []) = r.hash
head_hash (r ∷ s ∷ rs) = head_hash (s ∷ rs)

-- The sequence of the next record: a manifest has 0, and behind one the count starts at 1; without
-- one (the legacy form) the first record has 1.
unfoldable pub next_sequence : List Record → String → ℤ
next_sequence rs type_id =
    if str_eq type_id manifest_event_type
    then pos 0
    else if has_manifest_record rs
    then pos (length rs)
    else pos (length rs + 1)

base_event : List Record → String → Value → Event
unfolding next_sequence
base_event rs type_id payload = record {
  sequence = next_sequence rs type_id;
  prev_hash = head_hash rs;
  type_id = type_id;
  hash_algo = "sha256";
  payload = payload;
  actor_id = none;
  org_id = none;
  workspace_id = none;
  timestamp = "";
  trace_id = "";
  span_id = "";
  parent_span_id = "";
  acquisition = none;
}

with_options : Event → Option AppendOptions → Event
with_options e none = e
with_options e (some o) = record e {
  actor_id = o.actor_id;
  org_id = o.org_id;
  workspace_id = o.workspace_id;
  timestamp = o.timestamp;
  trace_id = o.trace_id;
  span_id = o.span_id;
  parent_span_id = o.parent_span_id;
  acquisition = o.acquisition;
}

-- AppendWithOptions: the records of the bundle afterwards. On an error the bundle is unchanged.
unfoldable pub append_with_options :
    Platform
    → Codec
    → List Record
    → String
    → Value
    → Option AppendOptions
    → Result Error (List Record)
unfolding check_acquisition base_event with_options
append_with_options pf c rs type_id payload opts = do
  fail_if (str_eq type_id manifest_event_type && not (length rs == 0)) manifest_not_first
  check_acquisition c rs type_id (acquisition_of opts)
  fail_if (not (is_event_type type_id)) (bad_event_type type_id)
  let e = with_options (base_event rs type_id payload) opts
  elim (compute pf e) [
    | none ↦ err not_encodable
    | some h ↦ ok (rs ++ record { event = e; hash = h; prefix = no_prefix } ∷ [])
  ]

-- NewOptions
pub record NewOptions : Type 0 where
  pub manifest_version : ℤ
  pub capture_run_id : String

unfoldable pub created_only : String → Option AppendOptions
created_only created_at = some (record {
  actor_id = none;
  org_id = none;
  workspace_id = none;
  timestamp = created_at;
  trace_id = "";
  span_id = "";
  parent_span_id = "";
  acquisition = none;
})

-- The data object of a structured manifest.
pub structured_data : ℤ → String → String → String → Fields
structured_data version created_at bundle_id run = field "version" (int version) (
    field "created_at" (str created_at) (
      field "bundle_id" (str bundle_id)
        (if str_eq run "" then end else field "capture_run_id" (str run) end)))

pub v1_payload : Codec → NewOptions → String → String → Value
v1_payload c o created_at bundle_id = str (
    c.encode_manifest (record {
      version = "1";
      created_at = created_at;
      bundle_id = bundle_id;
      capture_run_id = o.capture_run_id;
    }))

-- The data of the manifest that NewWithOptions writes.
pub manifest_payload : Codec → NewOptions → String → String → Result Error Value
unfolding structured_data v1_payload
manifest_payload c o created_at bundle_id =
    if eqb_ℤ o.manifest_version (pos 0) || eqb_ℤ o.manifest_version (pos 1)
    then ok (v1_payload c o created_at bundle_id)
    else if eqb_ℤ o.manifest_version (pos 2) || eqb_ℤ o.manifest_version (pos 3)
    then ok (obj (structured_data o.manifest_version created_at bundle_id o.capture_run_id))
    else err (unsupported_manifest_version o.manifest_version)

-- NewWithOptions, with the time of the clock and a random identifier.
unfoldable pub new_with_options :
    Platform → Codec → NewOptions → String → String → Result Error (List Record)
unfolding manifest_payload created_only append_with_options
new_with_options pf c o created_at bundle_id = do
  payload ← manifest_payload c o created_at bundle_id
  append_with_options pf c [] manifest_event_type payload (created_only created_at)
