-- ===== src/Examples/Session.antt =====
-- The theorems on capture runs, at a journal of one observation that no commit has reached.
use atb.Prelude.{◌≡◌, refl, true, false, [], ◌∷◌, none, some, All, arith}
use atb.Prelude.Int.{pos}
use atb.Prelude.Decimal.{format_int}
use atb.Prelude.Saving.{saved, kept_old}
use atb.Prelude.Result.{Result, ok}
use atb.Json.Float
use atb.Canonicalize.{marshal, is_encodable, write_value, serialize_number, join_members}
use atb.Canonicalize.Text.{write_string}
use atb.Canonicalize.Sort.{sort}
use atb.Canonicalize.Keys.{utf16_less}
use atb.Event.{event_value, omit_empty}
use atb.HashChain.{compute, verify_step}
use atb.Bundle.Manifest.{manifest, parse_manifest_data}
use atb.Bundle.Manifest.Scan.{scan_int}
use atb.Bundle.Append.{new_with_options, append_with_options}
use atb.Bundle.Append.TypeName.{is_event_type}
use atb.Bundle.Verify.{verify_bundle}
use atb.Bundle.Load.{check_verified}
use atb.Acquisition.Checkpoint.{created, bind_bundle, update_position}
use atb.CaptureJournal.{Entry}
use atb.CaptureJournal.Append.{entries_from}
use atb.CaptureStatus.{unknown, capture_source, valid_prefix, digest_representation}
use atb.CaptureStatus.Position.{checkpoint_position}
use atb.CaptureStatus.Decimal.{checkpoint_position-format_int}
use atb.CaptureSession.{
  CaptureError, ObservationCodec, append_materialised, validate_entry, validate_entries,
  verify_entry_digest, journal_accounts_for_evidence,
}
use atb.CaptureSession.Drain.{drain_entry, replay}
use atb.CaptureSession.Recover.{Coordinator, Store, Outside, recover, load_bundle_for_capture}
use atb.CaptureSession.Pending.{commit_pending}
use atb.CaptureSession.Settled.{IsCommitted}
use atb.CaptureSession.Loaded.{IsStored, stored}
use atb.CaptureSession.Runs.{IsReachable, starts, steps, journals, commits, IsSound}
use atb.CaptureSession.Runs.Sound.{IsReachable-IsSound}
use atb.CaptureSession.Runs.Once.{recover-once}
use atb.Examples.{platform, codec}
use atb.Examples.Status.{seen}

-- Every payload is the data of a tool event.
abbrev observations : ObservationCodec
observations = record {
  encode = λ o. o.payload;
  decode = λ v. some (record {
    type_id = "ai.tool.exec";
    payload = some v;
    actor_id = none;
    org_id = none;
    workspace_id = none;
    timestamp = "";
    trace_id = "";
    span_id = "";
    parent_span_id = "";
  });
}

abbrev idle : Coordinator
idle = record {
  stream_id = "run";
  incarnation = "i";
  journal = record { is_open = true; entries = []; repaired = false; failed = false };
  checkpoint = created (capture_source "run") "t";
  fresh = true;
  state = unknown;
  last_observation_at = "";
  last_commit_at = "";
  replayed = 0;
  last_err = none;
  known_gap = false;
}

abbrev no_files : Store
no_files = record { bundle = none; checkpoint = none }

abbrev seen_by : Coordinator
seen_by = record idle { journal = record idle.journal { entries = seen ∷ [] } }

-- The bundle is saved, and the process ends before the checkpoint is.
abbrev cut : Outside
cut = record {
  saving_bundle = saved;
  saving_checkpoint = kept_old;
  now = "t1";
  created_at = "2026-01-01T00:00:00Z";
  bundle_id = "ab";
}

abbrev well : Outside
well = record cut { saving_checkpoint = saved }

reachable : IsReachable platform codec observations (seen_by, no_files)
reachable = steps (starts idle refl refl) (journals idle no_files seen refl refl (omega arith))

cut_off :
    IsReachable platform codec observations
      (commit_pending platform codec observations seen_by cut no_files "o1").1
cut_off = steps reachable (commits seen_by no_files cut "o1")

IsReachable-IsSound_example :
    IsSound platform (commit_pending platform codec observations seen_by cut no_files "o1").1
IsReachable-IsSound_example = IsReachable-IsSound platform codec observations cut_off

checkpoint_position-format_int_example : checkpoint_position (format_int (pos 4711)) ≡ some 4711
checkpoint_position-format_int_example = checkpoint_position-format_int 4711 (omega arith)

abbrev state_of : Result CaptureError Coordinator × Store → Coordinator × Store
state_of (ok k, st) = (k, st)
state_of (_, st) = (idle, st)

abbrev rebuilt : Coordinator × Store
rebuilt = state_of (recover platform codec observations seen_by well no_files)

recovered_now :
    recover platform codec observations seen_by well no_files ≡ (ok rebuilt.0, rebuilt.1)
unfolding recover load_bundle_for_capture check_verified replay drain_entry entries_from
    append_materialised validate_entries validate_entry verify_entry_digest
    journal_accounts_for_evidence digest_representation valid_prefix checkpoint_position bind_bundle
    update_position format_int verify_bundle verify_step manifest parse_manifest_data scan_int
    append_with_options new_with_options is_event_type compute event_value omit_empty marshal
    is_encodable write_value serialize_number Float.is_finite Float.of_int join_members write_string
    sort utf16_less
recovered_now = refl

abbrev again : Coordinator
again = record seen_by { checkpoint = rebuilt.0.checkpoint; fresh = false }

abbrev third : Coordinator × Store
third = state_of (recover platform codec observations again well rebuilt.1)

recovered_again : recover platform codec observations again well rebuilt.1 ≡ (ok third.0, third.1)
unfolding recover load_bundle_for_capture check_verified replay drain_entry entries_from
    append_materialised validate_entries validate_entry verify_entry_digest
    journal_accounts_for_evidence digest_representation valid_prefix checkpoint_position bind_bundle
    update_position format_int verify_bundle verify_step manifest parse_manifest_data scan_int
    append_with_options new_with_options is_event_type compute event_value omit_empty marshal
    is_encodable write_value serialize_number Float.is_finite Float.of_int join_members write_string
    sort utf16_less
recovered_again = refl

recover-once_example :
    IsStored platform rebuilt.1.bundle
    × All (IsCommitted (stored rebuilt.1.bundle)) (seen ∷ [])
    × ((e : Entry) → IsCommitted [] e → IsCommitted (stored rebuilt.1.bundle) e)
    × (third.0.replayed ≡ 0)
    × (third.1.bundle ≡ rebuilt.1.bundle)
recover-once_example =
    recover-once platform codec observations seen_by seen_by rebuilt.0 again third.0 no_files
      rebuilt.1 third.1 well well reachable refl refl recovered_now refl recovered_again
