-- ===== src/Bundle.antt =====
-- internal/bundle/bundle.go and errors.go: records, bundles, and the errors of their operations.
pub mod Manifest
pub mod Append
pub mod Verify
pub mod Load
pub mod Sign
pub mod Lock
use atb.Prelude.{
  ℕ, ◌≡◌, String, Bool, true, false, List, [], ◌∷◌, ◌++◌, Option, none, some, str_eq, map,
}
use atb.Prelude.Int.{ℤ}
use atb.Json.{Value}
use atb.Event.{Event, AcquisitionInfo}
use atb.HashChain.{VerifyError}

abbrev pub manifest_event_type : String
manifest_event_type = "atb.bundle.manifest"

abbrev pub bundle_signature_type : String
bundle_signature_type = "atb.bundle.signature"

-- The SHA-256 of the source bytes before a signature record, with and without the last line feed:
-- sourcePrefixHash, sourcePrefixWithoutLFHash and sourcePrefixWithoutLFPresent.
pub record SourcePrefix : Type 0 where
  pub with_lf : Option (List ℕ)
  pub without_lf : Option (List ℕ)
  pub has_without_lf : Bool

abbrev pub no_prefix : SourcePrefix
no_prefix = record { with_lf = none; without_lf = none; has_without_lf = false }

-- Record
pub record Record : Type 0 where
  pub event : Event
  pub hash : String
  pub prefix : SourcePrefix

-- ManifestData
pub record ManifestData : Type 0 where
  pub version : String
  pub created_at : String
  pub bundle_id : String
  pub capture_run_id : String

-- AppendOptions
pub record AppendOptions : Type 0 where
  pub actor_id : Option String
  pub org_id : Option String
  pub workspace_id : Option String
  pub timestamp : String
  pub trace_id : String
  pub span_id : String
  pub parent_span_id : String
  pub acquisition : Option AcquisitionInfo

-- The errors of parseManifestData, in the order of the code.
pub data ManifestError : Type 0 where
  manifest_absent : ManifestError
  not_json : ManifestError
  version_not_integer : String → ManifestError
  version_type : ManifestError
  data_type : ManifestError
  too_new : ℤ → ManifestError
  string_form : ℤ → ManifestError
  v1_undecodable : ManifestError
  v1_names_v2 : ManifestError
  version_unsupported : ManifestError
  structured_version : String → ManifestError
  missing_field : ManifestError

-- Whether errors.Is(err, ErrMalformed) holds.
abbrev pub is_malformed : ManifestError → Bool
is_malformed not_json = true
is_malformed (version_not_integer s) = true
is_malformed version_type = true
is_malformed data_type = true
is_malformed (too_new n) = true
is_malformed (string_form n) = true
is_malformed _ = false

-- The errors of the operations on bundles.
pub data Error : Type 0 where
  manifest_not_first : Error
  acquisition_without_manifest : Error
  acquisition_below_v3 : String → Error
  unreadable_manifest : ManifestError → Error
  bad_event_type : String → Error
  not_encodable : Error
  unsupported_manifest_version : ℤ → Error
  -- hash.Verify's errors, as they are
  chain_broken : VerifyError → Error
  -- with ErrTamper
  tampered : VerifyError → Error
  -- ErrNoManifest and ErrNotABundle
  no_manifest : Error
  not_a_bundle : String → Error
  -- with ErrResourceLimit
  limits_not_positive : Error
  too_many_bytes : Error
  line_too_long : Error
  too_many_records : Error
  -- with ErrMalformed
  bad_record : Error
  scan_failed : Error

-- Whether errors.Is(err, ErrTamper) holds.
abbrev pub is_tamper : Error → Bool
is_tamper (tampered e) = true
is_tamper _ = false

-- encoding/json on the two shapes of a v1 manifest and on the lines of a bundle, and the random and
-- clock values that a new bundle takes.
pub record Codec : Type 0 where
  -- json.Unmarshal into a struct whose only field is `version`: its value, null where it is absent
  pub decode_version : String → Option Value
  pub decode_manifest : String → Option ManifestData
  pub encode_manifest : ManifestData → String
  pub decode_record : List ℕ → Option (Event × String)

-- hasManifestRecord
abbrev pub has_manifest_record : List Record → Bool
has_manifest_record [] = false
has_manifest_record (r ∷ rs) = str_eq r.event.type_id manifest_event_type

-- What Verify takes of each record.
abbrev pub pairs : List Record → List (Event × String)
pairs [] = []
pairs (r ∷ rs) = (r.event, r.hash) ∷ pairs rs
