-- ===== src/Examples/Status.antt =====
-- The theorem on the capture status, at a capture of one observation that is committed.
use atb.Prelude.{◌≡◌, refl, String, true, false, List, [], ◌∷◌, none, some}
use atb.Prelude.Int.{pos}
use atb.Prelude.Result.{Result, ok}
use atb.Json.{str}
use atb.Json.Float
use atb.Canonicalize.{marshal, is_encodable, write_value, serialize_number, join_members}
use atb.Canonicalize.Text.{write_string}
use atb.Canonicalize.Sort.{sort}
use atb.Canonicalize.Keys.{utf16_less}
use atb.Event.{event_value, omit_empty}
use atb.HashChain.{compute}
use atb.Bundle.{Record, Error}
use atb.Bundle.Manifest.{manifest, parse_manifest_data}
use atb.Bundle.Manifest.Scan.{scan_int}
use atb.Bundle.Append.{NewOptions, new_with_options, append_with_options}
use atb.Bundle.Append.TypeName.{is_event_type}
use atb.Acquisition.Checkpoint.{Checkpoint, created, validate}
use atb.CaptureJournal.{Entry}
use atb.CaptureStatus.{
  verified, Readings, capture_source, read_capture_status, journal_inconsistent, is_of_capture,
  valid_prefix, checkpoint_unreadable, checkpoint_mismatch,
}
use atb.CaptureStatus.Position.{checkpoint_position}
use atb.CaptureStatus.Laws.{is_healthy}
use atb.CaptureStatus.Healthy.{IsHealthy, read_capture_status-IsHealthy}
use atb.Examples.{platform, codec}

abbrev pub v3 : NewOptions
v3 = record { manifest_version = pos 3; capture_run_id = "" }

abbrev records_of : Result Error (List Record) → List Record
records_of (ok rs) = rs
records_of _ = []

abbrev pub captured : List Record
captured = records_of (new_with_options platform codec v3 "2026-01-01T00:00:00Z" "ab")

abbrev first_hash : List Record → String
first_hash [] = ""
first_hash (r ∷ rs) = r.hash

-- The digest is that of the payload's canonical text.
abbrev pub seen : Entry
seen = record {
  format_version = pos 1;
  position = pos 1;
  prev_hash = "";
  observation_id = "o1";
  source_system = "atb.proxy";
  source_incarnation = "i";
  representation_version = "atb.intercept.event.v1";
  representation_digest = "00000000000000000000000000000000000000000000000000000000000000bb";
  observation_type = "message";
  payload = some (str "hi");
  source_timestamp = "";
  observed_at = "t";
  adapter = "atb.intercept";
  adapter_version = "1.0.0";
  hash = "h";
}

abbrev committed : Checkpoint
committed = record (created (capture_source "run") "t") {
  position = " 1";
  bundle_head_hash = first_hash captured;
  bundle_record_count = pos 1;
}

abbrev readings : Readings
readings = record {
  degradation = none;
  bundle = verified captured;
  journal = ok (seen ∷ [], false);
  checkpoint = ok committed;
}

is_healthy_now : is_healthy (read_capture_status platform codec "run" readings).capture_state ≡ true
unfolding read_capture_status journal_inconsistent is_of_capture valid_prefix checkpoint_unreadable
    checkpoint_mismatch checkpoint_position validate manifest parse_manifest_data scan_int
    append_with_options new_with_options is_event_type compute event_value omit_empty marshal
    is_encodable write_value serialize_number Float.is_finite Float.of_int join_members write_string
    sort utf16_less
is_healthy_now = refl

read_capture_status-IsHealthy_example :
    (rs : List Record) × (verified captured ≡ verified rs)
    × IsHealthy platform codec "run" readings rs
    × ((read_capture_status platform codec "run" readings).known_gap ≡ false)
    × ((read_capture_status platform codec "run" readings).journal_last_position
        ≡ (read_capture_status platform codec "run" readings).committed_position)
read_capture_status-IsHealthy_example =
    read_capture_status-IsHealthy platform codec "run" readings is_healthy_now
