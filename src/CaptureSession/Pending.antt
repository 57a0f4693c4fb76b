-- ===== src/CaptureSession/Pending.antt =====
-- commitPending (internal/proxy/capture.go).
use atb.Prelude.Saving.{Saving, saved, kept_old, replaced_unsynced}
use atb.Prelude.{
  Bool, true, false, String, true, false, not, ◌&&◌, List, [], ◌∷◌, Option, none, some, length,
  ◌==◌, str_eq, if◌then◌else◌,
}
use atb.Prelude.Int.{pos}
use atb.Prelude.Decimal.{format_int}
use atb.Prelude.Result.{Result, ok, err, ◌>>=◌, ◌>>◌, fail_if}
use atb.Canonicalize.{Platform}
use atb.Bundle.{Record, Codec}
use atb.Bundle.Manifest.{manifest}
use atb.Acquisition.Checkpoint.{Checkpoint, bind_bundle, update_position, versioned}
use atb.Acquisition.Import.{committed_bundle_head}
use atb.CaptureJournal.Append.{last_position, entries_from}
use atb.CaptureStatus.{version_three}
use atb.CaptureSession.{
  CaptureError, not_v3, bundle_not_saved, checkpoint_not_saved, record_not_found, ObservationCodec,
  index_acquisition,
}
use atb.CaptureSession.Drain.{Drained, drain}
use atb.CaptureSession.Recover.{
  Coordinator, Store, Outside, load_bundle_for_capture, committed_position,
}

-- The hash of the last record of the observation; commitPending looks for it from the end.
unfoldable pub hash_of_observation : String → List Record → Option String
hash_of_observation id [] = none
hash_of_observation id (r ∷ rs) = elim (hash_of_observation id rs) [
  | some h ↦ some h
  | none ↦ elim r.event.acquisition [
    | none ↦ none
    | some acq ↦ if str_eq acq.source_record_id id then some r.hash else none
  ]
]

unfoldable pub hash_found : String → Option String → Result CaptureError String
hash_found id none = err (record_not_found id)
hash_found id (some h) = ok h

-- What commitPending brings into the bundle.
unfoldable pub drained_bundle :
    Platform
    → Codec
    → ObservationCodec
    → Coordinator
    → Outside
    → Store
    → Result CaptureError Drained
drained_bundle pf c oc k o st = do
  committed ← committed_position k.checkpoint
  (rs, created) ← load_bundle_for_capture pf c o st.bundle
  fail_if (created && not (version_three (manifest c rs))) not_v3
  drain pf c oc k.stream_id k.incarnation
      (record { records = rs; index = index_acquisition rs; appended = 0 })
      (entries_from (pos committed) k.journal.entries)

-- The checkpoint behind the loop.
unfoldable pub advanced_checkpoint : Coordinator → Outside → Drained → Checkpoint
advanced_checkpoint k o d =
    bind_bundle
      (update_position k.checkpoint (format_int (last_position k.journal.entries)) ""
        (pos (length k.journal.entries)) o.now)
      (committed_bundle_head d.records) (pos (length d.records))

-- Whether the save of the bundle succeeds, and the files behind it.
unfoldable pub save_drained : Saving → Store → Drained → Bool × Store
save_drained saved st d = (true, record st { bundle = some d.records })
save_drained kept_old st d = (false, st)
save_drained replaced_unsynced st d = (false, record st { bundle = some d.records })

-- The same, where nothing is saved if nothing was appended.
unfoldable pub saved_bundle : Outside → Store → Drained → Bool × Store
unfolding save_drained
saved_bundle o st d = elim (d.appended == 0) [
  | true ↦ (true, st)
  | false ↦ save_drained o.saving_bundle st d
]

-- Saving the checkpoint; the one in memory moves on even if it cannot be saved.
unfoldable pub save_advanced :
    Saving
    → Result CaptureError String
    → Coordinator
    → Store
    → Checkpoint
    → Result CaptureError String × (Coordinator × Store)
save_advanced saved found k st cp = (
  found,
  (record k { checkpoint = versioned cp }, record st { checkpoint = some (versioned cp) }),
)
save_advanced kept_old found k st cp =
    (err checkpoint_not_saved, (record k { checkpoint = versioned cp }, st))
save_advanced replaced_unsynced found k st cp = (
  err checkpoint_not_saved,
  (record k { checkpoint = versioned cp }, record st { checkpoint = some (versioned cp) }),
)

-- The part of commitPending behind the save of the bundle.
unfoldable pub behind_bundle :
    Coordinator
    → Outside
    → String
    → Drained
    → Bool × Store
    → Result CaptureError String × (Coordinator × Store)
unfolding hash_found save_advanced
behind_bundle k o id d (false, st) = (err bundle_not_saved, (k, st))
behind_bundle k o id d (true, st) =
    save_advanced o.saving_checkpoint (hash_found id (hash_of_observation id d.records)) k st
      (advanced_checkpoint k o d)

-- The part of commitPending behind the loop: the hash or the error, and what it leaves in memory and on
-- disk.
unfoldable pub finish_commit :
    Coordinator
    → Outside
    → Store
    → String
    → Drained
    → Result CaptureError String × (Coordinator × Store)
unfolding saved_bundle behind_bundle
finish_commit k o st id d = behind_bundle k o id d (saved_bundle o st d)

-- commitPending
unfoldable pub commit_pending :
    Platform
    → Codec
    → ObservationCodec
    → Coordinator
    → Outside
    → Store
    → String
    → Result CaptureError String × (Coordinator × Store)
commit_pending pf c oc k o st id = elim (drained_bundle pf c oc k o st) [
  | err e ↦ (err e, (k, st))
  | ok d ↦ finish_commit k o st id d
]
