-- ===== src/CaptureSession/Recover.antt =====
-- loadBundleForCapture and captureCoordinator.recover (internal/proxy/capture.go). The bundle's file holds
-- the records that Load reads from it, the checkpoint's what Load makes of it.
use atb.Prelude.Saving.{Saving, saved, kept_old, replaced_unsynced}
use atb.Prelude.{
  ℕ, String, Bool, true, false, not, ◌&&◌, ◌||◌, List, Option, none, some, length, ◌==◌,
  if◌then◌else◌,
}
use atb.Prelude.Int.{pos, ltb_ℤ}
use atb.Prelude.Decimal.{format_int}
use atb.Prelude.Result.{Result, ok, err, ◌>>=◌, ◌>>◌, fail_if}
use atb.Canonicalize.{Platform}
use atb.Bundle.{Record, Error, Codec}
use atb.Bundle.Manifest.{manifest}
use atb.Bundle.Append.{new_with_options}
use atb.Bundle.Verify.{verify_bundle}
use atb.Bundle.Load.{check_verified}
use atb.Acquisition.Checkpoint.{Checkpoint, bind_bundle, update_position, versioned}
use atb.Acquisition.Import.{committed_bundle_head}
use atb.CaptureJournal.Read.{Journal}
use atb.CaptureJournal.Append.{last_position, entries_from}
use atb.CaptureStatus.{
  CaptureState, healthy, degraded, version_three, has_acquisition, valid_prefix,
}
use atb.CaptureStatus.Position.{checkpoint_position}
use atb.CaptureSession.{
  CaptureError, bundle_not_loaded, not_v3, checkpoint_binding, bad_position, continuity_lost,
  checkpoint_ahead, bundle_not_saved, checkpoint_not_saved, ObservationCodec, validate_entries,
  journal_accounts_for_evidence, index_acquisition,
}
use atb.CaptureSession.Drain.{Drained, replay}

-- captureCoordinator, without its paths and the texts of its details.
pub record Coordinator : Type 0 where
  pub stream_id : String
  pub incarnation : String
  pub journal : Journal
  pub checkpoint : Checkpoint
  pub fresh : Bool
  pub state : CaptureState
  pub last_observation_at : String
  pub last_commit_at : String
  pub replayed : ℕ
  pub last_err : Option CaptureError
  pub known_gap : Bool

-- The files of the bundle and of the checkpoint; `none` is no file.
pub record Store : Type 0 where
  pub bundle : Option (List Record)
  pub checkpoint : Option Checkpoint

-- What the operating system and the clock do in one call: how the saves of the bundle and of the
-- checkpoint end, the time, and the time and the identifier of a new bundle.
pub record Outside : Type 0 where
  pub saving_bundle : Saving
  pub saving_checkpoint : Saving
  pub now : String
  pub created_at : String
  pub bundle_id : String

unfoldable pub created_bundle :
    Result Error (List Record) → Result CaptureError (List Record × Bool)
created_bundle (err e) = err (bundle_not_loaded e)
created_bundle (ok rs) = ok (rs, true)

unfoldable pub checked_bundle :
    Result Error (List Record) → Result CaptureError (List Record × Bool)
checked_bundle (err e) = err (bundle_not_loaded e)
checked_bundle (ok rs) = ok (rs, false)

-- loadBundleForCapture: the records, and whether they are a new bundle's.
unfoldable pub load_bundle_for_capture :
    Platform → Codec → Outside → Option (List Record) → Result CaptureError (List Record × Bool)
unfolding created_bundle checked_bundle
load_bundle_for_capture pf c o none = created_bundle (
    new_with_options pf c (record { manifest_version = pos 3; capture_run_id = "" }) o.created_at
      o.bundle_id)
load_bundle_for_capture pf c o (some rs) = checked_bundle (check_verified pf rs)

-- The checks on a bundle that was there.
pub check_existing : Platform → Codec → List Record → Bool → Result CaptureError (Unit {0})
check_existing pf c rs true = ok tt
check_existing pf c rs false = elim (verify_bundle pf rs) [
  | some e ↦ err (bundle_not_loaded e)
  | none ↦ fail_if (not (version_three (manifest c rs))) not_v3
]

abbrev pub parsed : Option ℕ → Result CaptureError ℕ
parsed none = err bad_position
parsed (some n) = ok n

-- checkpointPosition
abbrev pub committed_position : Checkpoint → Result CaptureError ℕ
committed_position cp = parsed (checkpoint_position cp.position)

-- The checks of recover on the journal, behind the committed position.
pub check_journal : Platform → Coordinator → List Record → ℕ → Result CaptureError (Unit {0})
check_journal pf k rs committed = do
  fail_if (has_acquisition rs && (length k.journal.entries == 0 && committed == 0)) continuity_lost
  if k.fresh then journal_accounts_for_evidence k.journal.entries rs else ok tt
  fail_if (ltb_ℤ (last_position k.journal.entries) (pos committed))
      (checkpoint_ahead committed (last_position k.journal.entries))
  validate_entries pf k.incarnation k.journal.entries

-- The checks of recover, up to the loop over the pending entries; the result is the committed position.
unfoldable pub check_continuity :
    Platform → Codec → Coordinator → List Record → Bool → Result CaptureError ℕ
unfolding check_existing check_journal
check_continuity pf c k rs created = do
  check_existing pf c rs created
  fail_if (not (valid_prefix k.checkpoint rs)) checkpoint_binding
  committed ← committed_position k.checkpoint
  check_journal pf k rs committed
  ok committed

-- The checkpoint that recover binds.
unfoldable pub recovered_checkpoint : Coordinator → Outside → Bool → Drained → Checkpoint
recovered_checkpoint k o created d =
    let changed = not created || not (d.appended == 0) in
    if changed
    then update_position
        (bind_bundle k.checkpoint (committed_bundle_head d.records) (pos (length d.records)))
        (format_int (last_position k.journal.entries)) "" (pos (length k.journal.entries)) o.now
    else k.checkpoint

-- The coordinator behind a recovery.
unfoldable pub recovered : Coordinator → Checkpoint → ℕ → Coordinator
recovered k cp appended = record k {
  checkpoint = cp;
  replayed = appended;
  last_commit_at = cp.observed_at;
  state = if k.known_gap then degraded else healthy;
}

-- Saving the checkpoint, at the end of recover.
unfoldable pub save_recovered :
    Saving → Coordinator → Store → Checkpoint → ℕ → Result CaptureError Coordinator × Store
unfolding recovered
save_recovered saved k st cp appended =
    (ok (recovered k (versioned cp) appended), record st { checkpoint = some (versioned cp) })
save_recovered kept_old k st cp appended = (err checkpoint_not_saved, st)
save_recovered replaced_unsynced k st cp appended =
    (err checkpoint_not_saved, record st { checkpoint = some (versioned cp) })

-- Saving the bundle that entries were added to, and then the checkpoint.
unfoldable pub save_replayed :
    Saving
    → Coordinator
    → Outside
    → Store
    → Checkpoint
    → Drained
    → Result CaptureError Coordinator × Store
unfolding save_recovered
save_replayed saved k o st cp d =
    save_recovered o.saving_checkpoint k (record st { bundle = some d.records }) cp d.appended
save_replayed kept_old k o st cp d = (err bundle_not_saved, st)
save_replayed replaced_unsynced k o st cp d =
    (err bundle_not_saved, record st { bundle = some d.records })

-- The part of recover behind the loop.
unfoldable pub finish_recovery :
    Coordinator → Outside → Store → Bool → Drained → Result CaptureError Coordinator × Store
unfolding recovered_checkpoint save_recovered save_replayed
finish_recovery k o st created d =
    let cp = recovered_checkpoint k o created d in
    elim (d.appended == 0) [
      | true ↦ save_recovered o.saving_checkpoint k st cp d.appended
      | false ↦ save_replayed o.saving_bundle k o st cp d
    ]

-- What recover finds and replays: the loaded bundle's being new, and the drained records.
unfoldable pub replayed_bundle :
    Platform
    → Codec
    → ObservationCodec
    → Coordinator
    → Outside
    → Store
    → Result CaptureError (Bool × Drained)
unfolding check_continuity replay
replayed_bundle pf c oc k o st = do
  (rs, created) ← load_bundle_for_capture pf c o st.bundle
  committed ← check_continuity pf c k rs created
  d ←
      replay pf c oc k.stream_id
        (record { records = rs; index = index_acquisition rs; appended = 0 })
        (entries_from (pos committed) k.journal.entries)
  ok (created, d)

-- captureCoordinator.recover: the coordinator or the error, and what it leaves on disk.
unfoldable pub recover :
    Platform
    → Codec
    → ObservationCodec
    → Coordinator
    → Outside
    → Store
    → Result CaptureError Coordinator × Store
unfolding finish_recovery replayed_bundle
recover pf c oc k o st = elim (replayed_bundle pf c oc k o st) [
  | err e ↦ (err e, st)
  | ok found ↦ finish_recovery k o st found.0 found.1
]
