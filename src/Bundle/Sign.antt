-- ===== src/Bundle/Sign.antt =====
-- Signing a bundle (internal/bundle/sign.go, and the signature record of internal/sign/bundle.go). The
-- signer, the hash, and the encodings of bytes as text are parameters.
pub mod Laws
pub mod Binding
pub mod Limited
use atb.Prelude.{
  ℕ, suc, ◌+◌, ◌-◌, ◌*◌, ◌^◌, ◌≡◌, String, Bool, true, false, not, ◌&&◌, ◌||◌, List, [], ◌∷◌, ◌++◌,
  Option, none, some, length, ltb, ◌==◌, str_eq, if◌then◌else◌,
}
use atb.Prelude.Int.{ℤ, pos}
use atb.Prelude.Result.{Result, ok, err, ◌>>=◌, ◌>>◌, fail_if}
use atb.Json.{Value, Fields, str, obj, end, field}
use atb.Canonicalize.{Platform}
use atb.Bundle.{Record, AppendOptions, Error, Codec, bundle_signature_type, no_prefix}
use atb.Bundle.Append.{append_with_options}
use atb.Bundle.Verify.{verify_bundle}
use atb.Bundle.Load.{load_reader, default_limits}
use atb.Bundle.Load.Prefix.{last_byte}

-- What signer.Signer returns.
pub record Signature : Type 0 where
  pub signature : List ℕ
  pub public_key : List ℕ
  pub key_id : String
  pub backend : String
  pub algorithm : String

-- What signing takes from outside: SHA-256, hex and base64, encoding/json on records, and the signer.
pub record Signing : Type 0 where
  pub sum : List ℕ → List ℕ
  pub hex : List ℕ → String
  pub base64 : List ℕ → String
  pub encode_record : Record → List ℕ
  pub sign : List ℕ → Option Signature

-- The errors of signToWithSignerLimited, in the order of the code.
pub data SignError : Type 0 where
  invalid_read_limit : SignError
  input_too_large : SignError
  bundle_error : Error → SignError
  signer_failed : SignError
  empty_signature : SignError
  wrong_key_length : ℕ → SignError
  unsupported_algorithm : String → SignError
  no_record : SignError
  capacity_exceeded : SignError
  invalid_output_limit : SignError
  output_too_large : SignError

-- math.MaxInt and math.MaxInt64
abbrev pub max_int : ℕ
max_int = 2 ^ 63 - 1

-- readSigningInput on a reader that gives `raw`
unfoldable pub read_signing_input : List ℕ → ℕ → Result SignError (List ℕ)
read_signing_input raw max_bytes = do
  fail_if (max_bytes == 0 || max_bytes == max_int) invalid_read_limit
  fail_if (ltb max_bytes (length raw)) input_too_large
  ok raw

-- The algorithm that is recorded.
check_algorithm : Signature → Result SignError String
check_algorithm s =
    if str_eq s.algorithm "" || str_eq s.algorithm "ed25519"
    then (if length s.public_key == 32
        then ok "ed25519"
        else err (wrong_key_length (length s.public_key)))
    else if str_eq s.algorithm "ecdsa-p256"
    then (if length s.public_key == 65
        then ok "ecdsa-p256"
        else err (wrong_key_length (length s.public_key)))
    else err (unsupported_algorithm s.algorithm)

-- NewBundleSignatureRecord; it is called with an algorithm and a time.
unfoldable pub new_bundle_signature_record : Signing → List ℕ → Signature → String → String → Value
new_bundle_signature_record g digest s algorithm signed_at = obj (
    field "bundle_hash" (str (g.hex digest)) (
      field "signature" (str (g.base64 s.signature)) (
        field "pubkey" (str (g.base64 s.public_key)) (
          field "algorithm" (str algorithm) (
            field "backend" (str (if str_eq s.backend "" then "local" else s.backend)) (
              field "signed_at" (str signed_at)
                (if str_eq s.key_id "" then end else field "key_id" (str s.key_id) end)))))))

-- signedPayloadCapacity; lengths are not negative.
unfoldable pub signed_payload_capacity : ℕ → ℕ → Result SignError ℕ
signed_payload_capacity raw_size record_size = do
  fail_if (ltb (max_int - 2) raw_size) capacity_exceeded
  fail_if (ltb (max_int - 2 - raw_size) record_size) capacity_exceeded
  ok (raw_size + record_size + 2)

-- signedPayloadMetrics: the output size and the capacity.
unfoldable pub signed_payload_metrics : ℕ → ℕ → Bool → Result SignError (ℕ × ℕ)
unfolding signed_payload_capacity
signed_payload_metrics raw_size record_size needs_separator = do
  capacity ← signed_payload_capacity raw_size record_size
  ok (if needs_separator && ltb 0 raw_size then capacity else capacity - 1, capacity)

abbrev pub needs_separator : List ℕ → Bool
needs_separator [] = false
needs_separator (b ∷ raw) = not (last_byte b raw == 10)

abbrev pub separator : List ℕ → List ℕ
separator raw = if needs_separator raw then 10 ∷ [] else []

-- appendSignedRecord: the payload that is written.
unfoldable pub append_signed_record : List ℕ → List ℕ → ℕ → Result SignError (List ℕ)
append_signed_record raw encoded max_bytes = do
  sizes ← signed_payload_metrics (length raw) (length encoded) (needs_separator raw)
  fail_if (max_bytes == 0) invalid_output_limit
  fail_if (ltb max_bytes sizes.0) output_too_large
  ok (raw ++ (separator raw ++ (encoded ++ 10 ∷ [])))

lift : {A : Type 0} → Result Error A → Result SignError A
lift (err e) = err (bundle_error e)
lift (ok a) = ok a

verified : Option Error → Result SignError (Unit {0})
verified none = ok tt
verified (some e) = err (bundle_error e)

signed : Option Signature → Result SignError Signature
signed none = err signer_failed
signed (some s) = if length s.signature == 0 then err empty_signature else ok s

abbrev pub at_time : String → Option AppendOptions
at_time now = some (record {
  actor_id = none;
  org_id = none;
  workspace_id = none;
  timestamp = now;
  trace_id = "";
  span_id = "";
  parent_span_id = "";
  acquisition = none;
})

abbrev pub last_record : List Record → Result SignError Record
last_record [] = err no_record
last_record (r ∷ []) = ok r
last_record (r ∷ s ∷ rs) = last_record (s ∷ rs)

-- The last part of signToWithSignerLimited: the payload and the digest's text.
write_signed : Signing → List ℕ → ℕ → List Record → Result SignError (String × List ℕ)
unfolding append_signed_record
write_signed g raw max_bytes rs' = do
  r ← last_record rs'
  payload ← append_signed_record raw (g.encode_record r) max_bytes
  ok (g.hex (g.sum raw), payload)

-- The record is made and appended.
record_signature :
    Signing
    → Platform
    → Codec
    → List ℕ
    → ℕ
    → String
    → List Record
    → Signature
    → Result SignError (String × List ℕ)
unfolding check_algorithm lift write_signed
record_signature g pf c raw max_bytes now rs s = do
  algorithm ← check_algorithm s
  rs' ← lift (
      append_with_options pf c rs bundle_signature_type
        (new_bundle_signature_record g (g.sum raw) s algorithm now) (at_time now))
  write_signed g raw max_bytes rs'

sign_records :
    Signing
    → Platform
    → Codec
    → List ℕ
    → ℕ
    → String
    → List Record
    → Result SignError (String × List ℕ)
unfolding verified signed record_signature
sign_records g pf c raw max_bytes now rs = do
  verified (verify_bundle pf rs)
  s ← signed (g.sign (g.sum raw))
  record_signature g pf c raw max_bytes now rs s

-- signToWithSignerLimited on a file that holds `input`, at the time `now`: the digest's text and what
-- is written.
unfoldable pub sign_limited :
    Signing → Platform → Codec → (ℕ → ℕ) → List ℕ → ℕ → String → Result SignError (String × List ℕ)
unfolding read_signing_input lift sign_records
sign_limited g pf c reads input max_bytes now = do
  raw ← read_signing_input input max_bytes
  rs ← lift (load_reader g.sum c default_limits reads raw)
  sign_records g pf c raw max_bytes now rs
