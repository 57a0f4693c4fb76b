-- ===== src/CaptureSession/Runs/Commits.antt =====
-- The invariant over commitPending (internal/proxy/capture.go).
use atb.Prelude.{◌≡◌, refl, String, some, ◌==◌, inl, inr, Bool-cases}
use atb.Prelude.Saving.{Saving, saved, kept_old, replaced_unsynced}
use atb.Prelude.Result.{Result, Result-cases}
use atb.Canonicalize.{Platform}
use atb.Bundle.{Codec}
use atb.Acquisition.Checkpoint.{bind_bundle, update_position}
use atb.CaptureSession.{CaptureError, ObservationCodec}
use atb.CaptureSession.Drain.{Drained}
use atb.CaptureSession.Recover.{Coordinator, Store, Outside}
use atb.CaptureSession.Pending.{
  commit_pending, drained_bundle, finish_commit, saved_bundle, advanced_checkpoint, save_drained,
  save_advanced, behind_bundle, hash_found, hash_of_observation,
}
use atb.CaptureSession.Loaded.{stored}
use atb.CaptureSession.Flushed.{Flushed}
use atb.CaptureSession.Runs.{IsSound, IsBacked}
use atb.CaptureSession.Runs.Backed.{IsBacked-end, IsBacked-kept}
use atb.CaptureSession.Runs.Drains.{Drains, drained_bundle-Drains, Drains-saved, Drains-unsaved}
use atb.CaptureSession.Runs.Leaves.{Flushed-LeavesSound}

module _ (pf : Platform) (c : Codec) (oc : ObservationCodec) (k : Coordinator) (st : Store)
    (sound : IsSound pf (k, st)) where
  -- The new bundle with the new checkpoint in memory, whether the file's is the old or the new one.
  save_advanced-IsSound :
      (o : Outside) (found : Result CaptureError String) (d : Drained) (st' : Store)
      → st'.checkpoint ≡ st.checkpoint
      → Flushed pf st.bundle st'.bundle k.journal.entries
      → (saving : Saving)
      → IsSound pf (save_advanced saving found k st' (advanced_checkpoint k o d)).1
  unfolding save_advanced advanced_checkpoint update_position bind_bundle
  save_advanced-IsSound o found d st' same fl saving = by_saving saving
    where
      all : IsBacked (advanced_checkpoint k o d).position (stored st'.bundle) k.journal.entries
      all =
          IsBacked-end (stored st'.bundle) k.journal.entries sound.numbered sound.short fl.committed

      by_saving :
          (saving : Saving)
          → IsSound pf (save_advanced saving found k st' (advanced_checkpoint k o d)).1
      by_saving saved = record {
        numbered = sound.numbered;
        named = sound.named;
        short = sound.short;
        bundle_sound = fl.is_stored;
        memory_backed = all;
        disk_backed = all;
      }
      by_saving replaced_unsynced = record {
        numbered = sound.numbered;
        named = sound.named;
        short = sound.short;
        bundle_sound = fl.is_stored;
        memory_backed = all;
        disk_backed = all;
      }
      by_saving kept_old = record {
        numbered = sound.numbered;
        named = sound.named;
        short = sound.short;
        bundle_sound = fl.is_stored;
        memory_backed = all;
        disk_backed =
            (Flushed-LeavesSound pf k.journal.entries sound.numbered sound.short st
              sound.disk_backed st' same fl).disk_backed;
      }

  -- The new bundle with the old checkpoints.
  Flushed-IsSound :
      (st' : Store)
      → st'.checkpoint ≡ st.checkpoint
      → Flushed pf st.bundle st'.bundle k.journal.entries
      → IsSound pf (k, st')
  Flushed-IsSound st' same fl = record {
    numbered = sound.numbered;
    named = sound.named;
    short = sound.short;
    bundle_sound = fl.is_stored;
    memory_backed =
        IsBacked-kept _ (stored st.bundle) (stored st'.bundle) k.journal.entries fl.kept
          sound.memory_backed;
    disk_backed =
        (Flushed-LeavesSound pf k.journal.entries sound.numbered sound.short st sound.disk_backed
          st' same fl).disk_backed;
  }

  behind_bundle-IsSound :
      (o : Outside) (id : String) (d : Drained)
      → Flushed pf st.bundle (some d.records) k.journal.entries
      → (saving : Saving) → IsSound pf (behind_bundle k o id d (save_drained saving st d)).1
  unfolding behind_bundle save_drained
  behind_bundle-IsSound o id d fl saved =
      save_advanced-IsSound o (hash_found id (hash_of_observation id d.records)) d
        (record st { bundle = some d.records }) refl fl o.saving_checkpoint
  behind_bundle-IsSound o id d fl kept_old = sound
  behind_bundle-IsSound o id d fl replaced_unsynced =
      Flushed-IsSound (record st { bundle = some d.records }) refl fl

  finish_commit-IsSound :
      (o : Outside) (id : String) (d : Drained)
      → Drains pf c oc k.stream_id st.bundle k.checkpoint.position k.journal.entries d
      → IsSound pf (finish_commit k o st id d).1
  unfolding finish_commit saved_bundle behind_bundle
  finish_commit-IsSound o id d drains = elim (Bool-cases (d.appended == 0)) [
    | inl e ↦
        rw (finish_commit, saved_bundle, e)
          (save_advanced-IsSound o (hash_found id (hash_of_observation id d.records)) d st refl
            (Drains-unsaved pf c oc k.stream_id k.checkpoint.position st.bundle k.journal.entries d
              sound.bundle_sound sound.named sound.memory_backed drains e)
            o.saving_checkpoint)
    | inr e ↦
        rw (finish_commit, saved_bundle, e)
          (behind_bundle-IsSound o id d
            (Drains-saved pf c oc k.stream_id k.checkpoint.position st.bundle k.journal.entries d
              sound.bundle_sound sound.named sound.memory_backed drains)
            o.saving_bundle)
  ]

  -- Whatever commitPending returns, and whichever saves fail.
  pub commit_pending-IsSound :
      (o : Outside) (id : String) → IsSound pf (commit_pending pf c oc k o st id).1
  unfolding commit_pending
  commit_pending-IsSound o id = elim (Result-cases (drained_bundle pf c oc k o st)) [
    | inr (e, q) ↦ rw (commit_pending, q) sound
    | inl (d, q) ↦
        rw (commit_pending, q)
          (finish_commit-IsSound o id d
            (drained_bundle-Drains pf c oc k o st d sound.bundle_sound q))
  ]
