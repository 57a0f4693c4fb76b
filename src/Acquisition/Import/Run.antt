-- ===== src/Acquisition/Import/Run.antt =====
-- ImportChatlog and ImportOTel (internal/acquisition/import_integration.go). The packages that read the
-- input are parameters; a bundle's file holds what Load makes of it.
use atb.Prelude.{
  ℕ, ◌+◌, String, concat, Bool, true, false, not, ◌&&◌, ◌||◌, List, [], ◌∷◌, Option, none, some,
  length, str_eq, if◌then◌else◌,
}
use atb.Prelude.Int.{pos}
use atb.Prelude.Saving.{Saving, saved, kept_old, replaced_unsynced}
use atb.Prelude.Decimal.{decimal}
use atb.Prelude.Result.{Result, ok, err, ◌>>=◌, ◌>>◌, fail_if}
use atb.Canonicalize.{Platform}
use atb.Event.{SourceIdentity}
use atb.Bundle.{Record, Error, Codec}
use atb.Bundle.Append.{new_with_options}
use atb.Bundle.Verify.{verify_bundle}
use atb.Acquisition.Reconcile.{load_from_bundle}
use atb.Acquisition.Checkpoint.{
  Checkpoint, CheckpointError, CheckpointCodec, File, Source, load_or_create, validate,
  validate_bundle, update_position, bind_bundle, save,
}
use atb.Acquisition.Import.{
  ImportEvent, ReconcileCounts, ReconciliationPlan, committed_bundle_head, stamp_acquisition_stream,
  unique_source_records, writes_acquisition,
}
use atb.Acquisition.Import.Plan.{plan_reconciliation}
use atb.Acquisition.Import.Write.{ImportError, apply_reconciliation, require_acquisition_profile}
use atb.Acquisition.Import.Stamp.{ObjectCodec, StampError, stamp_manifest_provenance}

-- ImportOptions, without the fields that the import does not read and the standard input; the paths
-- stand for themselves.
pub record ImportOptions : Type 0 where
  pub input_path : String
  pub bundle_path : String
  pub continue : Bool
  pub reconcile : Bool
  pub source_identity : SourceIdentity
  pub source_incarnation : String

-- The errors, in the order of the code.
pub data RunError : Type 0 where
  no_bundle_path : RunError
  no_input_path : RunError
  checkpoint_failed : CheckpointError → RunError
  input_failed : RunError
  no_translatable_spans : RunError
  bundle_not_loaded : Error → RunError
  provenance : StampError → RunError
  unverified_bundle : Error → RunError
  binding_failed : CheckpointError → RunError
  below_v3 : RunError
  not_applied : ImportError → RunError
  bundle_not_saved : RunError
  checkpoint_not_saved : RunError

-- What bundle.Load finds.
pub data BundleOnDisk : Type 0 where
  no_file : BundleOnDisk
  bad_file : Error → BundleOnDisk
  records_in : List Record → BundleOnDisk

-- The bundle's and the checkpoint's files.
pub record Files : Type 0 where
  pub bundle : BundleOnDisk
  pub checkpoint : File

-- The libraries, and what the clock and the file system do during the import.
pub record World : Type 0 where
  pub platform : Platform
  pub codec : Codec
  pub objects : ObjectCodec
  pub checkpoints : CheckpointCodec
  pub clock : ℕ → String
  pub now : String
  pub created_at : String
  pub bundle_id : String
  pub saving_bundle : Saving
  pub saving_checkpoint : Saving

-- ImportResult, without the paths and the fields that are constants.
pub record ImportResult : Type 0 where
  pub events_written : ℕ
  pub skipped_records : ℕ
  pub counts : ReconcileCounts

abbrev pub relabelled : {A E F : Type 0} → (E → F) → Result E A → Result F A
relabelled f (err e) = err (f e)
relabelled f (ok a) = ok a

abbrev pub failing : Option Error → Result RunError (Unit {0})
failing none = ok tt
failing (some e) = err (unverified_bundle e)

-- loadSnapshotBundle: the records, and whether the bundle is new.
unfoldable pub load_snapshot_bundle : World → BundleOnDisk → Result RunError (List Record × Bool)
load_snapshot_bundle w (bad_file e) = err (bundle_not_loaded e)
load_snapshot_bundle w (records_in rs) = ok (rs, false)
load_snapshot_bundle w no_file =
    relabelled bundle_not_loaded (
      new_with_options w.platform w.codec (record { manifest_version = pos 3; capture_run_id = "" })
        w.created_at w.bundle_id)
    >>= λ rs. ok (rs, true)

-- A new bundle gets its provenance.
unfoldable pub provided : World → List Record × Bool → Result RunError (List Record × Bool)
provided w (rs, false) = ok (rs, false)
provided w (rs, true) =
    relabelled provenance
      (stamp_manifest_provenance w.platform w.objects rs "bundle_provenance" "retrospective")
    >>= λ stamped. ok (stamped, true)

-- The bundle that the import goes on with.
unfoldable pub opened_bundle : World → BundleOnDisk → Result RunError (List Record × Bool)
opened_bundle w file = load_snapshot_bundle w file >>= provided w

-- The checks before reconciliation.
unfoldable pub check_bundle :
    World → Bool → Checkpoint → List Record → Bool → Result RunError (Unit {0})
check_bundle w false cp rs created = ok tt
check_bundle w true cp rs created = do
  if created then ok tt else failing (verify_bundle w.platform rs)
  relabelled binding_failed (validate_bundle cp (committed_bundle_head rs) (pos (length rs)))

-- The plan, against what is known of the bundle where the import reconciles.
abbrev pub planned : Bool → List ImportEvent → List Record → ReconciliationPlan
planned re evs rs = plan_reconciliation evs (if re then load_from_bundle [] rs else []) re

-- From the opened bundle to the counts and the records to save.
unfoldable pub imported :
    World
    → Bool
    → Checkpoint
    → List ImportEvent
    → BundleOnDisk
    → Result RunError (ReconcileCounts × List Record)
imported w re cp evs file = do
  (rs, created) ← opened_bundle w file
  check_bundle w re cp rs created
  fail_if
      (writes_acquisition (planned re evs rs)
        && not (require_acquisition_profile w.codec rs created))
      below_v3
  relabelled not_applied (apply_reconciliation w.platform w.codec w.clock rs (planned re evs rs))

abbrev pub imported_result : ℕ → ReconcileCounts → ImportResult
imported_result skipped counts = record {
  events_written = counts.written;
  skipped_records = skipped + counts.unchanged;
  counts = counts;
}

-- The checkpoint's save behind the bundle's, and the result.
unfoldable pub finish_checkpoint :
    World → Saving → Files → Checkpoint → ImportResult → Result RunError ImportResult × Files
finish_checkpoint w saved files cp r = (ok r, record files { checkpoint = save w.checkpoints cp })
finish_checkpoint w kept_old files cp r = (err checkpoint_not_saved, files)
finish_checkpoint w replaced_unsynced files cp r =
    (err checkpoint_not_saved, record files { checkpoint = save w.checkpoints cp })

-- The checkpoint that is bound to the saved records.
abbrev pub bound_checkpoint :
    World → Checkpoint → String → ReconcileCounts → List Record → Checkpoint
bound_checkpoint w cp position counts rs =
    bind_bundle (update_position cp position "" (pos counts.written) w.now)
      (committed_bundle_head rs) (pos (length rs))

-- The end of an import: the bundle is saved before the checkpoint.
unfoldable pub save_import :
    World
    → Saving
    → Files
    → Checkpoint
    → String
    → ℕ
    → ReconcileCounts × List Record
    → Result RunError ImportResult × Files
unfolding finish_checkpoint
save_import w kept_old files cp position skipped (counts, rs) = (err bundle_not_saved, files)
save_import w replaced_unsynced files cp position skipped (counts, rs) =
    (err bundle_not_saved, record files { bundle = records_in rs })
save_import w saved files cp position skipped (counts, rs) =
    finish_checkpoint w w.saving_checkpoint (record files { bundle = records_in rs })
      (bound_checkpoint w cp position counts rs) (imported_result skipped counts)

unfoldable pub finish_import :
    World
    → Files
    → Checkpoint
    → String
    → ℕ
    → ReconcileCounts × List Record
    → Result RunError ImportResult × Files
unfolding save_import
finish_import w files cp position skipped done =
    save_import w w.saving_bundle files cp position skipped done

-- The part that both imports share: the translated events, with the number of records that the
-- translation has dropped, go into the bundle.
unfoldable pub import_events :
    World
    → ImportOptions
    → Files
    → Checkpoint
    → (List ImportEvent → String)
    → Result RunError (List ImportEvent × ℕ)
    → Result RunError ImportResult × Files
import_events w o files cp position (err e) = (err e, files)
import_events w o files cp position (ok (translated, skipped)) =
    let evs = stamp_acquisition_stream translated o.input_path in
    elim (imported w (o.continue || o.reconcile) cp evs files.bundle) [
      | err e ↦ (err e, files)
      | ok done ↦ finish_import w files cp (position evs) skipped done
    ]

-- The source that the options name, or the one of the adapter.
unfoldable pub import_source : ImportOptions → String → String → Source
import_source o system adapter = record {
  system = system;
  stream = o.input_path;
  adapter = adapter;
  adapter_version = "1.0.0";
  incarnation = o.source_incarnation;
  identity =
      if not (str_eq o.source_identity.system "") || not (str_eq o.source_identity.record_id "")
      then o.source_identity
      else record { system = system; record_id = o.input_path; derived = true };
}

-- The guards on the paths, and the checkpoint of the source.
unfoldable pub start_import : World → ImportOptions → Files → Source → Result RunError Checkpoint
start_import w o files source = do
  fail_if (str_eq o.bundle_path "") no_bundle_path
  fail_if (str_eq o.input_path "") no_input_path
  cp ← relabelled checkpoint_failed (load_or_create w.checkpoints files.checkpoint source w.now)
  if o.continue || o.reconcile
      then relabelled checkpoint_failed (validate cp source) >> ok cp
      else ok cp

-- ImportOTel behind the receiver.
unfoldable pub received_events :
    World
    → ImportOptions
    → Files
    → Checkpoint
    → Option (List ImportEvent × ℕ)
    → Result RunError ImportResult × Files
received_events w o files cp none = (err input_failed, files)
received_events w o files cp (some ([], dropped)) = (err no_translatable_spans, files)
received_events w o files cp (some (ev ∷ evs, dropped)) =
    import_events w o files cp (λ all. concat "span:" (decimal (length all)))
      (ok (ev ∷ evs, dropped))

-- ImportOTel; `received` is what the receiver makes of the input, read through the cap.
unfoldable pub import_otel :
    World
    → ImportOptions
    → Files
    → Option (List ImportEvent × ℕ)
    → Result RunError ImportResult × Files
unfolding received_events
import_otel w o files received =
    elim (start_import w o files (import_source o "otel" "atb.otel.otlp-json")) [
      | err e ↦ (err e, files)
      | ok cp ↦ received_events w o files cp received
    ]

-- The messages of a chat log: MapMessagesToEvents, which fails on turns that it does not know or
-- otherwise, and FilterKnownTurns, with the number of messages that it drops.
pub data Mapping : Type 0 where
  mapped : List ImportEvent → ℕ → Mapping
  unknown_turn : Mapping
  unmappable : Mapping

pub record ChatlogReader (Message : Type 0) : Type 0 where
  pub map_messages : List Message → Mapping
  pub filter_known : List Message → List Message × ℕ

abbrev pub after_filter : Mapping → ℕ → Result RunError (List ImportEvent × ℕ)
after_filter (mapped evs skipped) n = ok (evs, skipped + n)
after_filter _ n = err input_failed

-- Mapping, and mapping again without the unknown turns.
unfoldable pub map_known :
    {Message : Type 0}
    → ChatlogReader Message
    → List Message
    → Result RunError (List ImportEvent × ℕ)
map_known r messages = elim (r.map_messages messages) [
  | mapped evs skipped ↦ ok (evs, skipped)
  | unmappable ↦ err input_failed
  | unknown_turn ↦
      let (known, dropped) = r.filter_known messages in after_filter (r.map_messages known) dropped
]

-- ImportChatlog behind the parser.
unfoldable pub parsed_messages :
    {Message : Type 0}
    → World
    → ImportOptions
    → Files
    → Checkpoint
    → ChatlogReader Message
    → Option (List Message)
    → Result RunError ImportResult × Files
parsed_messages w o files cp r none = (err input_failed, files)
parsed_messages w o files cp r (some ms) =
    import_events w o files cp (λ all. concat "exchange:" (decimal (unique_source_records all)))
      (map_known r ms)

-- ImportChatlog; `messages` is what the parser makes of the input, read through the cap.
unfoldable pub import_chatlog :
    {Message : Type 0}
    → World
    → ImportOptions
    → Files
    → ChatlogReader Message
    → Option (List Message)
    → Result RunError ImportResult × Files
unfolding parsed_messages
import_chatlog w o files r messages =
    elim (start_import w o files (import_source o "chatlog" "atb.chatlog.generic-jsonl")) [
      | err e ↦ (err e, files)
      | ok cp ↦ parsed_messages w o files cp r messages
    ]
