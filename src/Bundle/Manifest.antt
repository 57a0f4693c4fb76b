-- ===== src/Bundle/Manifest.antt =====
-- The manifest record of a bundle: parseManifestData and what it calls (internal/bundle/bundle.go).
pub mod Scan
pub mod Laws
pub mod Structured
use atb.Prelude.{
  ℕ, ◌≡◌, String, Bool, true, false, not, ◌&&◌, ◌||◌, List, [], ◌∷◌, Option, none, some, str_eq,
  if◌then◌else◌,
}
use atb.Prelude.Int.{ℤ, pos, leb_ℤ, ltb_ℤ, eqb_ℤ}
use atb.Prelude.Result.{Result, ok, err, ◌>>=◌}
use atb.Json.{Value, null, bool, num, int, str, arr, obj, Fields, get}
use atb.Json.Float
use atb.Event.{Event}
use atb.Bundle.{
  Record, ManifestData, ManifestError, manifest_absent, not_json, version_not_integer, version_type,
  data_type, too_new, string_form, v1_undecodable, v1_names_v2, version_unsupported,
  structured_version, missing_field, Error, no_manifest, unreadable_manifest, Codec,
  manifest_event_type, has_manifest_record,
}
use atb.Bundle.Manifest.Scan.{scan_int}

abbrev pub manifest_version_max : ℤ
manifest_version_max = pos 3

-- A missing key reads as nil.
abbrev pub get_any : String → Fields → Value
get_any k fs = elim (get k fs) [ none ↦ null | some v ↦ v ]

-- manifestVersionToInt
version_to_int : Value → Result ManifestError ℤ
version_to_int null = ok (pos 1)
version_to_int (num f) = ok (Float.to_int f)
version_to_int (int n) = ok n
version_to_int (str s) =
    if str_eq s ""
    then ok (pos 1)
    else elim (scan_int s) [ none ↦ err (version_not_integer s) | some n ↦ ok n ]
version_to_int _ = err version_type

-- manifestVersionFromRecord
pub version_of_data : Codec → Value → Result ManifestError ℤ
unfolding version_to_int
version_of_data c (str s) = elim (c.decode_version s) [
  | none ↦ err not_json
  | some v ↦ version_to_int v
]
version_of_data c (obj fs) = version_to_int (get_any "version" fs)
version_of_data c _ = err data_type

-- manifestVersionString
version_string : Value → Result ManifestError String
version_string (num f) =
    if Float.eq_const f Float.two
    then ok "2"
    else if Float.eq_const f Float.three
    then ok "3"
    else err version_unsupported
version_string (int n) =
    if eqb_ℤ n (pos 2) then ok "2" else if eqb_ℤ n (pos 3) then ok "3" else err version_unsupported
version_string (str s) = if str_eq s "" then err version_unsupported else ok s
version_string _ = err version_unsupported

-- fields[key].(string), with "" for anything else
pub string_field : String → Fields → String
string_field k fs = elim (get_any k fs) [ str s ↦ s | _ ↦ "" ]

-- parseManifestDataV1
parse_v1 : Codec → String → Result ManifestError ManifestData
parse_v1 c raw = elim (c.decode_manifest raw) [
  | none ↦ err v1_undecodable
  | some m ↦ if str_eq m.version "2" then err v1_names_v2 else ok m
]

-- parseManifestDataV2
parse_v2 : Fields → Result ManifestError ManifestData
unfolding version_string string_field
parse_v2 fs = do
  version ← version_string (get_any "version" fs)
  let created_at = string_field "created_at" fs
  let bundle_id = string_field "bundle_id" fs
  if not (str_eq version "2") && not (str_eq version "3")
      then err (structured_version version)
      else if str_eq created_at "" || str_eq bundle_id ""
      then err missing_field
      else ok (record {
        version = version;
        created_at = created_at;
        bundle_id = bundle_id;
        capture_run_id = string_field "capture_run_id" fs;
      })

-- The switch on the type of the data.
parse_data : Codec → ℤ → Value → Result ManifestError ManifestData
unfolding parse_v1 parse_v2
parse_data c version (str s) =
    if leb_ℤ version (pos 1) then parse_v1 c s else err (string_form version)
parse_data c version (obj fs) = parse_v2 fs
parse_data c version _ = err data_type

-- parseManifestData
unfoldable pub parse_manifest_data : Codec → Event → Result ManifestError ManifestData
unfolding version_of_data parse_data
parse_manifest_data c e =
    if not (str_eq e.type_id manifest_event_type) then err manifest_absent else do
      version ← version_of_data c e.payload
      if ltb_ℤ manifest_version_max version
          then err (too_new version)
          else parse_data c version e.payload

-- ManifestE
unfoldable pub manifest_e : Codec → List Record → Result Error ManifestData
manifest_e c [] = err no_manifest
manifest_e c (r ∷ rs) =
    if not (has_manifest_record (r ∷ rs))
    then err no_manifest
    else elim (parse_manifest_data c r.event) [ ok m ↦ ok m | err e ↦ err (unreadable_manifest e) ]

-- Manifest; `none` is nil.
unfoldable pub manifest : Codec → List Record → Option ManifestData
manifest c [] = none
manifest c (r ∷ rs) =
    if not (has_manifest_record (r ∷ rs))
    then none
    else elim (parse_manifest_data c r.event) [ ok m ↦ some m | err e ↦ none ]
