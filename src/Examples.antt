-- ===== src/Examples.antt =====
-- Tests, and the theorems at concrete inputs. The digest stands in for SHA-256, the codec for
-- encoding/json on the one manifest that the tests write.
mod Canonical
mod Chain
mod Bundles
mod Access
mod Status
mod Signing
mod Journal
mod Acquisition
mod Loading
mod Session
mod Import
mod Run
mod Lock
mod Profiles
use atb.Prelude.{
  ℕ, ◌+◌, ◌%◌, ◌≡◌, refl, String, List, [], ◌∷◌, Option, none, some, codes, length, ◌==◌,
  Bool-cases, inl, inr, if◌then◌else◌,
}
use atb.Prelude.Int.{pos}
use atb.Json.{Value, str}
use atb.Canonicalize.{Platform}
use atb.Event.{Event}
use atb.Bundle.{Codec, ManifestData}

abbrev pub sum : List ℕ → ℕ
sum (rune ∷ text) = sum text + rune
sum [] = 0

abbrev pub digest : List ℕ → String
digest t =
    if sum t % 2 == 0
    then "00000000000000000000000000000000000000000000000000000000000000aa"
    else "00000000000000000000000000000000000000000000000000000000000000bb"

pub length-digest : (t : List ℕ) → length (codes (digest t)) ≡ 64
length-digest t = elim (Bool-cases (sum t % 2 == 0)) [ inl e ↦ rw e refl | inr e ↦ rw e refl ]

-- Numbers are printed as one digit, which serves the sequences of the tests.
abbrev pub platform : Platform
platform = record { format_e = λ f. 101 ∷ []; format_f = λ f. 48 ∷ []; sha256_hex = digest }

abbrev pub codec : Codec
codec = record {
  decode_version = λ s. some (str "1");
  decode_manifest = λ s. some (record {
    version = "1";
    created_at = "2026-01-01T00:00:00Z";
    bundle_id = "ab";
    capture_run_id = "";
  });
  encode_manifest = λ m. "{\"version\":\"1\"}";
  decode_record = λ line. none;
}

abbrev pub plain_event : String → Value → Event
plain_event type_id payload = record {
  sequence = pos 7;
  prev_hash = "";
  type_id = type_id;
  hash_algo = "sha256";
  payload = payload;
  actor_id = none;
  org_id = none;
  workspace_id = none;
  timestamp = "";
  trace_id = "";
  span_id = "";
  parent_span_id = "";
  acquisition = none;
}
