-- ===== src/CaptureSession/Runs/Leaves.antt =====
-- What a call leaves on disk (internal/proxy/capture.go).
use atb.Prelude.{◌^◌, ◌<◌, ◌≡◌, sym, subst, List, Option, some, length}
use atb.Canonicalize.{Platform}
use atb.Bundle.{Record}
use atb.Acquisition.Checkpoint.{Checkpoint, versioned}
use atb.CaptureJournal.{Entry}
use atb.CaptureSession.Recover.{Store}
use atb.CaptureSession.Settled.{IsCommitted}
use atb.CaptureSession.Loaded.{stored, IsStored}
use atb.CaptureSession.Flushed.{Flushed}
use atb.CaptureSession.Runs.{saved_position, IsBacked, ArePlaced}
use atb.CaptureSession.Runs.Backed.{IsBacked-kept}

-- What a call has left on disk, for a journal with the entries.
pub record LeavesSound (pf : Platform) (es : List Entry) (before after : Store) : Type 0 where
  pub is_stored : IsStored pf after.bundle
  pub kept :
      (e : Entry) → IsCommitted (stored before.bundle) e → IsCommitted (stored after.bundle) e
  pub disk_backed : IsBacked (saved_position after.checkpoint) (stored after.bundle) es

module _ (pf : Platform) (es : List Entry) (placed : ArePlaced 0 es) (short : length es < 2 ^ 63)
    (st : Store) (backed : IsBacked (saved_position st.checkpoint) (stored st.bundle) es) where
  -- The bundle is saved, if need be, and the checkpoint not.
  pub Flushed-LeavesSound :
      (st' : Store)
      → st'.checkpoint ≡ st.checkpoint
      → Flushed pf st.bundle st'.bundle es
      → LeavesSound pf es st st'
  Flushed-LeavesSound st' same fl = record {
    is_stored = fl.is_stored;
    kept = fl.kept;
    disk_backed =
        subst (λ x. IsBacked (saved_position x) (stored st'.bundle) es) (sym same)
          (IsBacked-kept _ (stored st.bundle) (stored st'.bundle) es fl.kept backed);
  }

  -- The checkpoint is saved with a position that the bundle backs.
  pub Flushed-checkpoint :
      (b : Option (List Record)) (cp : Checkpoint)
      → Flushed pf st.bundle b es
      → IsBacked cp.position (stored b) es
      → LeavesSound pf es st (record { bundle = b; checkpoint = some (versioned cp) })
  Flushed-checkpoint b cp fl new = record {
    is_stored = fl.is_stored;
    kept = fl.kept;
    disk_backed = new;
  }
