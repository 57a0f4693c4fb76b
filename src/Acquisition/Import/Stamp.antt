-- ===== src/Acquisition/Import/Stamp.antt =====
-- stampManifestProvenance (internal/acquisition/import_integration.go).
use atb.Prelude.{String, not, List, [], ◌∷◌, Option, none, some, str_eq, if◌then◌else◌}
use atb.Prelude.Result.{Result, ok, err, ◌>>=◌, ◌>>◌, fail_if}
use atb.Json.{Value, str, obj, Fields, end, field, get}
use atb.Canonicalize.{Platform}
use atb.HashChain.{compute}
use atb.Bundle.{Record, manifest_event_type}
use atb.CaptureJournal.Space.{is_blank}

-- encoding/json on the object that a v1 manifest's text holds.
pub record ObjectCodec : Type 0 where
  pub encode : Fields → String
  pub decode : String → Option Fields

-- The errors of stampManifestProvenance.
pub data StampError : Type 0 where
  empty_bundle : StampError
  no_manifest_first : StampError
  empty_key : StampError
  unparsed_payload : StampError
  payload_type : StampError
  no_manifest_hash : StampError

-- m[key] = value on the map of a JSON object.
abbrev pub set_field : String → Value → Fields → Fields
set_field k v end = field k v end
set_field k v (field j w rest) =
    let more = set_field k v rest in if str_eq j k then field k v rest else field j w more

abbrev pub metadata_of : Option Value → Fields
metadata_of (some (obj fs)) = fs
metadata_of _ = end

-- The payload with one more entry in its metadata.
abbrev pub with_metadata : String → String → Fields → Fields
with_metadata key value fs =
    set_field "metadata" (obj (set_field key (str value) (metadata_of (get "metadata" fs)))) fs

-- The switch on the type of the data.
unfoldable pub stamped_data : ObjectCodec → String → String → Value → Result StampError Value
stamped_data oc key value (obj fs) = ok (obj (with_metadata key value fs))
stamped_data oc key value (str text) = elim (oc.decode text) [
  | none ↦ err unparsed_payload
  | some fs ↦ ok (str (oc.encode (with_metadata key value fs)))
]
stamped_data oc key value _ = err payload_type

unfoldable pub rehashed : Platform → Record → List Record → Value → Result StampError (List Record)
rehashed pf r rs data' =
    let e = record r.event { payload = data' } in
    elim (compute pf e) [
      | none ↦ err no_manifest_hash
      | some h ↦ ok (record r { event = e; hash = h } ∷ rs)
    ]

-- stampManifestProvenance: the records afterwards.
unfoldable pub stamp_manifest_provenance :
    Platform → ObjectCodec → List Record → String → String → Result StampError (List Record)
unfolding rehashed
stamp_manifest_provenance pf oc [] key value = err empty_bundle
stamp_manifest_provenance pf oc (r ∷ rs) key value = do
  fail_if (not (str_eq r.event.type_id manifest_event_type)) no_manifest_first
  fail_if (is_blank key) empty_key
  stamped_data oc key value r.event.payload >>= rehashed pf r rs
