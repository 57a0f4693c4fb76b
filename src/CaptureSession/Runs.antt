-- ===== src/CaptureSession/Runs.antt =====
-- A capture run with commits, crashes and restarts (internal/proxy/capture.go).
pub mod Backed
pub mod Drains
pub mod Leaves
pub mod Commits
pub mod Recovers
pub mod Sound
pub mod Once
use atb.Prelude.{
  ℕ, zero, suc, ◌+◌, ◌^◌, ◌<◌, ◌≤◌, ◌≡◌, ◌⊎◌, refl, sym, ap, subst, ◌∙◌, String, Bool, true, false,
  not, List, [], ◌∷◌, ◌++◌, Option, none, some, length, All, str_eq, ◌==◌, ==_iff, arith, inl, inr,
  Bool-cases, Option-cases, List-cases, length-append, if◌then◌else◌,
}
use atb.Prelude.Int.{ℤ, pos, ltb_ℤ}
use atb.Prelude.Decimal.{format_int}
use atb.Prelude.Result.{Result, ok, err, ◌>>=◌, ◌>>◌, >>=-eq-ok, Result-cases}
use atb.Canonicalize.{Platform}
use atb.Bundle.{Record, Codec}
use atb.Acquisition.Checkpoint.{Checkpoint}
use atb.CaptureJournal.{Entry}
use atb.CaptureJournal.Append.{entries_from, last_position}
use atb.CaptureStatus.Position.{checkpoint_position}
use atb.CaptureStatus.Decimal.{checkpoint_position-format_int}
use atb.CaptureSession.{CaptureError, ObservationCodec}
use atb.CaptureSession.Drain.{Drained, replay, drain}
use atb.CaptureSession.Recover.{Coordinator, Store, Outside, recover}
use atb.CaptureSession.Pending.{commit_pending}
use atb.CaptureSession.Settled.{IsCommitted, IsNamed}
use atb.CaptureSession.Loaded.{stored, IsStored, AreCovered}

-- The position of the checkpoint that a restart loads or creates.
abbrev pub saved_position : Option Checkpoint → String
saved_position none = "start"
saved_position (some cp) = cp.position

module _ (pf : Platform) (c : Codec) (oc : ObservationCodec) where
  -- What can happen to a coordinator and its files: an entry becomes durable in the journal, as its next
  -- one; commitPending runs, whatever it returns; or the process ends, and a new coordinator, on the same
  -- journal and the checkpoint of the file, recovers or fails to.
  pub data Step : Coordinator × Store → Coordinator × Store → Type 0 where
    journals :
        (k : Coordinator) (st : Store) (e : Entry)
        → e.position ≡ pos (length k.journal.entries + 1)
        → IsNamed e
        → length k.journal.entries + 1 < 2 ^ 63
        → Step
            (k, st)
            (record k { journal = record k.journal { entries = k.journal.entries ++ e ∷ [] } }, st)
    commits :
        (k : Coordinator) (st : Store) (o : Outside) (id : String)
        → Step (k, st) (commit_pending pf c oc k o st id).1
    restarts :
        (k k₀ k' : Coordinator) (st st' : Store) (o : Outside)
        → k₀.journal.entries ≡ k.journal.entries
        → k₀.checkpoint.position ≡ saved_position st.checkpoint
        → recover pf c oc k₀ o st ≡ (ok k', st')
        → Step (k, st) (k', st')
    fails :
        (k k₀ : Coordinator) (st st' : Store) (o : Outside) (e : CaptureError)
        → k₀.journal.entries ≡ k.journal.entries
        → k₀.checkpoint.position ≡ saved_position st.checkpoint
        → recover pf c oc k₀ o st ≡ (err e, st')
        → Step (k, st) (k, st')

  -- What a run from a coordinator with an empty journal and no files can reach.
  pub data IsReachable : Coordinator × Store → Type 0 where
    starts :
        (k : Coordinator)
        → k.journal.entries ≡ []
        → k.checkpoint.position ≡ "start"
        → IsReachable (k, record { bundle = none; checkpoint = none })
    steps : {s t : Coordinator × Store} → IsReachable s → Step s t → IsReachable t

-- A position up to which the entries are committed.
pub record IsBacked (position : String) (rs : List Record) (es : List Entry) : Type 0 where
  pub reached : ℕ
  pub read : checkpoint_position position ≡ some reached
  pub bounded : reached ≤ length es
  pub covered : AreCovered rs reached es

-- The positions are those of a journal, from `n` on.
abbrev pub ArePlaced : ℕ → List Entry → Type 0
ArePlaced n [] = Unit
ArePlaced n (e ∷ es) = (e.position ≡ pos (n + 1)) × ArePlaced (suc n) es

-- The invariant of a run.
pub record IsSound (pf : Platform) (s : Coordinator × Store) : Type 0 where
  pub numbered : ArePlaced 0 s.0.journal.entries
  pub named : All IsNamed s.0.journal.entries
  pub short : length s.0.journal.entries < 2 ^ 63
  pub bundle_sound : IsStored pf s.1.bundle
  pub memory_backed : IsBacked s.0.checkpoint.position (stored s.1.bundle) s.0.journal.entries
  pub disk_backed : IsBacked (saved_position s.1.checkpoint) (stored s.1.bundle) s.0.journal.entries
