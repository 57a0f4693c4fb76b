-- ===== src/CaptureSession/Runs/Recovers.antt =====
-- The invariant over recover (internal/proxy/capture.go).
use atb.Prelude.{
  ℕ, ◌^◌, ◌<◌, ◌≡◌, refl, Bool, not, ◌||◌, List, Option, some, length, All, ◌==◌, inl, inr,
  Bool-cases,
}
use atb.Prelude.Saving.{Saving, saved, kept_old, replaced_unsynced}
use atb.Prelude.Result.{Result, ok, err, Result-cases}
use atb.Canonicalize.{Platform}
use atb.Bundle.{Record, Codec}
use atb.Acquisition.Checkpoint.{Checkpoint, bind_bundle, update_position}
use atb.CaptureSession.{CaptureError, ObservationCodec}
use atb.CaptureSession.Drain.{Drained}
use atb.CaptureSession.Recover.{
  Coordinator, Store, Outside, recover, replayed_bundle, finish_recovery, save_recovered,
  save_replayed, recovered, recovered_checkpoint,
}
use atb.CaptureSession.Settled.{IsCommitted, IsNamed}
use atb.CaptureSession.Loaded.{stored, IsStored}
use atb.CaptureSession.Flushed.{Flushed}
use atb.CaptureSession.Runs.{saved_position, IsBacked, ArePlaced}
use atb.CaptureSession.Runs.Backed.{IsBacked-kept, IsBacked-end}
use atb.CaptureSession.Runs.Drains.{Drains, replayed_bundle-Drains, Drains-saved, Drains-unsaved}
use atb.CaptureSession.Runs.Leaves.{LeavesSound, Flushed-LeavesSound, Flushed-checkpoint}

-- The coordinator of a successful recovery, beside what is left on disk.
pub record Recovered (pf : Platform) (k : Coordinator) (before after : Store) (k' : Coordinator)
    : Type 0 where
  pub same_journal : k'.journal.entries ≡ k.journal.entries
  pub all_committed : All (IsCommitted (stored after.bundle)) k.journal.entries
  pub memory_backed : IsBacked k'.checkpoint.position (stored after.bundle) k.journal.entries

-- What recover has done, for either result.
abbrev pub Recovery :
    Platform → Coordinator → Store → Result CaptureError Coordinator × Store → Type 0
Recovery pf k st (err e, after) = LeavesSound pf k.journal.entries st after
Recovery pf k st (ok k', after) =
    LeavesSound pf k.journal.entries st after × Recovered pf k st after k'

module _ (pf : Platform) (c : Codec) (oc : ObservationCodec) (k : Coordinator) (st : Store)
    (placed : ArePlaced 0 k.journal.entries) (named : All IsNamed k.journal.entries)
    (short : length k.journal.entries < 2 ^ 63) (ready : IsStored pf st.bundle)
    (disk : IsBacked (saved_position st.checkpoint) (stored st.bundle) k.journal.entries)
    (memory : IsBacked k.checkpoint.position (stored st.bundle) k.journal.entries) where
  unchanged_leaves : LeavesSound pf k.journal.entries st st
  unchanged_leaves = record { is_stored = ready; kept = λ e q. q; disk_backed = disk }

  -- The checkpoint that recover binds has a position that the flushed bundle backs.
  recovered_checkpoint-IsBacked :
      (o : Outside) (created : Bool) (d : Drained) (b : Option (List Record))
      → Flushed pf st.bundle b k.journal.entries
      → IsBacked (recovered_checkpoint k o created d).position (stored b) k.journal.entries
  unfolding recovered_checkpoint update_position bind_bundle
  recovered_checkpoint-IsBacked o created d b fl =
      elim (Bool-cases (not created || not (d.appended == 0))) [
        | inl q ↦
            rw (recovered_checkpoint, q)
              (IsBacked-end (stored b) k.journal.entries placed short fl.committed)
        | inr q ↦
            rw (recovered_checkpoint, q)
              (IsBacked-kept _ (stored st.bundle) (stored b) k.journal.entries fl.kept memory)
      ]

  save_recovered-Recovery :
      (st' : Store) (cp : Checkpoint) (n : ℕ)
      → st'.checkpoint ≡ st.checkpoint
      → Flushed pf st.bundle st'.bundle k.journal.entries
      → IsBacked cp.position (stored st'.bundle) k.journal.entries
      → (saving : Saving) → Recovery pf k st (save_recovered saving k st' cp n)
  unfolding save_recovered recovered
  save_recovered-Recovery st' cp n same fl backed saved = (
    Flushed-checkpoint pf k.journal.entries placed short st disk st'.bundle cp fl backed,
    record { same_journal = refl; all_committed = fl.committed; memory_backed = backed },
  )
  save_recovered-Recovery st' cp n same fl backed kept_old =
      Flushed-LeavesSound pf k.journal.entries placed short st disk st' same fl
  save_recovered-Recovery st' cp n same fl backed replaced_unsynced =
      Flushed-checkpoint pf k.journal.entries placed short st disk st'.bundle cp fl backed

  save_replayed-Recovery :
      (o : Outside) (cp : Checkpoint) (d : Drained)
      → Flushed pf st.bundle (some d.records) k.journal.entries
      → IsBacked cp.position (stored (some d.records)) k.journal.entries
      → (saving : Saving) → Recovery pf k st (save_replayed saving k o st cp d)
  unfolding save_replayed
  save_replayed-Recovery o cp d fl backed saved =
      save_recovered-Recovery (record st { bundle = some d.records }) cp d.appended refl fl backed
        o.saving_checkpoint
  save_replayed-Recovery o cp d fl backed kept_old = unchanged_leaves
  save_replayed-Recovery o cp d fl backed replaced_unsynced =
      Flushed-LeavesSound pf k.journal.entries placed short st disk
        (record st { bundle = some d.records }) refl fl

  finish_recovery-Recovery :
      (o : Outside) (created : Bool) (d : Drained)
      → Drains pf c oc k.stream_id st.bundle k.checkpoint.position k.journal.entries d
      → Recovery pf k st (finish_recovery k o st created d)
  unfolding finish_recovery
  finish_recovery-Recovery o created d drains =
      let cp = recovered_checkpoint k o created d in
      elim (Bool-cases (d.appended == 0)) [
        | inl e ↦
            let fl =
              Drains-unsaved pf c oc k.stream_id k.checkpoint.position st.bundle k.journal.entries d
                ready named memory drains e in
            rw (finish_recovery, e)
              (save_recovered-Recovery st cp d.appended refl fl
                (recovered_checkpoint-IsBacked o created d st.bundle fl) o.saving_checkpoint)
        | inr e ↦
            let fl =
              Drains-saved pf c oc k.stream_id k.checkpoint.position st.bundle k.journal.entries d
                ready named memory drains in
            rw (finish_recovery, e)
              (save_replayed-Recovery o cp d fl
                (recovered_checkpoint-IsBacked o created d (some d.records) fl) o.saving_bundle)
      ]

  -- Whatever recover returns, and whichever saves fail.
  pub recover-Recovery : (o : Outside) → Recovery pf k st (recover pf c oc k o st)
  unfolding recover
  recover-Recovery o = elim (Result-cases (replayed_bundle pf c oc k o st)) [
    | inr (e, q) ↦ rw (recover, q) unchanged_leaves
    | inl (found, q) ↦
        rw (recover, q)
          (finish_recovery-Recovery o found.0 found.1
            (replayed_bundle-Drains pf c oc k o st found.0 found.1 ready q))
  ]
