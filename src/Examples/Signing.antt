-- ===== src/Examples/Signing.antt =====
-- The theorems on signing: a file with one line, which does not end in a line feed.
use atb.Prelude.{ℕ, ◌≡◌, ◌≤◌, refl, String, true, List, [], ◌∷◌, ◌++◌, Option, none, some, length}
use atb.Prelude.Result.{Result, ok}
use atb.Json.Float
use atb.Canonicalize.{marshal, is_encodable, write_value, serialize_number, join_members}
use atb.Canonicalize.Text.{write_string}
use atb.Canonicalize.Sort.{sort}
use atb.Canonicalize.Keys.{utf16_less}
use atb.Event.{Event, event_value, omit_empty}
use atb.HashChain.{compute, verify_step}
use atb.Bundle.{Record, Error, Codec}
use atb.Bundle.Append.{new_with_options, append_with_options}
use atb.Bundle.Append.TypeName.{is_event_type}
use atb.Bundle.Manifest.{parse_manifest_data}
use atb.Bundle.Manifest.Scan.{scan_int}
use atb.Bundle.Verify.{verify_bundle}
use atb.Bundle.Load.{load_reader, load_line, prefix_for}
use atb.Bundle.Load.Lines.{raw_lines, trim}
use atb.Bundle.Load.Prefix.{add, snapshot}
use atb.Bundle.Sign.{
  Signing, new_bundle_signature_record, append_signed_record, signed_payload_metrics, sign_limited,
}
use atb.Bundle.Sign.Laws.{append_signed_record-bounds}
use atb.Bundle.Sign.Binding.{IsBoundTo, signed-IsBoundTo}
use atb.Bundle.Sign.Limited.{IsSigned, sign_limited-IsSigned}
use atb.Examples.{platform, codec}
use atb.Examples.Loading.{by_first_byte, plain_sum, limits, read_all, event_at}
use atb.Examples.Bundles.{fresh}

abbrev payload : List ℕ
payload = 84 ∷ 10 ∷ 83 ∷ 10 ∷ []

appends : append_signed_record (84 ∷ []) (83 ∷ []) 10 ≡ ok payload
unfolding append_signed_record signed_payload_metrics
appends = refl

append_signed_record-bounds_example :
    (payload ≡ payload)
    × (length payload ≤ 10)
    × ((sizes : ℕ × ℕ) × (signed_payload_metrics 1 1 true ≡ ok sizes)
        × (length payload ≡ sizes.0)
        × (length payload ≤ sizes.1)
        × (sizes.1 ≤ 9_223_372_036_854_775_807))
append_signed_record-bounds_example =
    append_signed_record-bounds (84 ∷ []) (83 ∷ []) payload 10 appends

abbrev records_of : Result Error (List Record) → List Record
records_of (ok rs) = rs
records_of _ = []

abbrev reloaded : List Record
reloaded = records_of (load_reader plain_sum by_first_byte limits read_all payload)

reloads : load_reader plain_sum by_first_byte limits read_all payload ≡ ok reloaded
unfolding load_reader load_line prefix_for raw_lines trim add snapshot
reloads = refl

second : trim (83 ∷ 10 ∷ []) ≡ 83 ∷ []
unfolding trim
second = refl

signed-IsBoundTo_example :
    (front : List Record) × (last : Record) × (reloaded ≡ front ++ last ∷ [])
    × (last.event ≡ event_at 83)
    × IsBoundTo last.prefix (84 ∷ [])
signed-IsBoundTo_example =
    signed-IsBoundTo plain_sum by_first_byte limits read_all (84 ∷ []) (83 ∷ []) reloaded 83 []
      (event_at 83, "h") (refl, tt) second refl refl reloads

abbrev first_of : List Record → Option (Event × String)
first_of [] = none
first_of (r ∷ rs) = some (r.event, r.hash)

-- Every line stands for the first record of the new bundle.
abbrev one_record : Codec
one_record = record codec { decode_record = λ line. first_of fresh }

abbrev key : List ℕ
key =
    1 ∷ 2 ∷ 3 ∷ 4 ∷ 5 ∷ 6 ∷ 7 ∷ 8 ∷ 9 ∷ 10 ∷ 11 ∷ 12 ∷ 13 ∷ 14 ∷ 15 ∷ 16 ∷ 17 ∷ 18 ∷ 19 ∷ 20 ∷ 21
    ∷ 22 ∷ 23 ∷ 24 ∷ 25 ∷ 26 ∷ 27 ∷ 28 ∷ 29 ∷ 30 ∷ 31 ∷ 32 ∷ []

abbrev signing : Signing
signing = record {
  sum = plain_sum;
  hex = λ bytes. "h";
  base64 = λ bytes. "b";
  encode_record = λ r. 83 ∷ [];
  sign = λ digest.
      some (record {
        signature = 7 ∷ [];
        public_key = key;
        key_id = "";
        backend = "";
        algorithm = "";
      });
}

signs :
    sign_limited signing platform one_record read_all (84 ∷ []) 10 "2026-01-01T00:00:00Z"
    ≡ ok ("h", payload)
unfolding sign_limited new_bundle_signature_record append_signed_record signed_payload_metrics
    load_reader load_line prefix_for raw_lines trim add snapshot verify_bundle verify_step
    parse_manifest_data append_with_options new_with_options is_event_type compute event_value
    omit_empty marshal is_encodable write_value serialize_number Float.is_finite Float.of_int
    join_members write_string sort utf16_less scan_int
signs = refl

sign_limited-IsSigned_example :
    IsSigned signing platform one_record read_all (84 ∷ []) payload
    × (length payload ≤ 10)
    × (◌≡◌ {A = String} "h" "h")
sign_limited-IsSigned_example =
    sign_limited-IsSigned signing platform one_record read_all (84 ∷ []) 10 "2026-01-01T00:00:00Z"
      ("h", payload) signs
