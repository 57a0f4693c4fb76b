-- ===== src/CaptureSession/Runs/Sound.antt =====
-- The invariant of capture runs (internal/proxy/capture.go).
use atb.Prelude.{
  ◌^◌, ◌<◌, ◌≡◌, refl, sym, ap, subst, ◌∙◌, List, [], ◌∷◌, length, All, arith, length-append,
}
use atb.Prelude.Int.{pos}
use atb.Canonicalize.{Platform}
use atb.Bundle.{Record, Codec}
use atb.CaptureStatus.Position.{checkpoint_position}
use atb.CaptureSession.{ObservationCodec}
use atb.CaptureSession.Recover.{Coordinator, Store, Outside, recover}
use atb.CaptureSession.Settled.{IsNamed}
use atb.CaptureSession.Loaded.{stored}
use atb.CaptureSession.Runs.{
  saved_position, Step, journals, commits, restarts, fails, IsReachable, starts, steps, IsBacked,
  ArePlaced, IsSound,
}
use atb.CaptureSession.Runs.Backed.{ArePlaced-snoc, All-snoc, IsBacked-kept, IsBacked-more}
use atb.CaptureSession.Runs.Commits.{commit_pending-IsSound}
use atb.CaptureSession.Runs.Recovers.{Recovery, recover-Recovery}

module _ (pf : Platform) (c : Codec) (oc : ObservationCodec) where
  -- A restart from sound files, on the journal of the run and the checkpoint of its file.
  pub restart-Recovery :
      (k k₀ : Coordinator) (st : Store) (o : Outside)
      → IsSound pf (k, st)
      → k₀.journal.entries ≡ k.journal.entries
      → k₀.checkpoint.position ≡ saved_position st.checkpoint
      → Recovery pf k₀ st (recover pf c oc k₀ o st)
  restart-Recovery k k₀ st o sound j p =
      let disk =
        subst (λ es. IsBacked (saved_position st.checkpoint) (stored st.bundle) es) (sym j)
          sound.disk_backed in
      recover-Recovery pf c oc k₀ st (subst (ArePlaced 0) (sym j) sound.numbered)
        (subst (All IsNamed) (sym j) sound.named)
        (subst (λ es. length es < 2 ^ 63) (sym j) sound.short) sound.bundle_sound disk
        (subst (λ q. IsBacked q (stored st.bundle) k₀.journal.entries) (sym p) disk) o

  Step-IsSound : (s t : Coordinator × Store) → IsSound pf s → Step pf c oc s t → IsSound pf t
  Step-IsSound _ _ sound (journals k st e q n short) =
      let es = k.journal.entries in
      record {
        numbered = ArePlaced-snoc 0 es e sound.numbered (q ∙ ap pos (omega arith));
        named = All-snoc IsNamed es e sound.named n;
        short = omega (arith, short, length-append es (e ∷ []));
        bundle_sound = sound.bundle_sound;
        memory_backed = IsBacked-more _ (stored st.bundle) es e q sound.memory_backed;
        disk_backed = IsBacked-more _ (stored st.bundle) es e q sound.disk_backed;
      }
  Step-IsSound _ _ sound (commits k st o id) = commit_pending-IsSound pf c oc k st sound o id
  Step-IsSound _ _ sound (restarts k k₀ k' st st' o j p h) =
      let (leaves, r) = subst (Recovery pf k₀ st) h (restart-Recovery k k₀ st o sound j p) in
      let es=es : k₀.journal.entries ≡ k'.journal.entries = sym r.same_journal in
      record {
        numbered = subst (ArePlaced 0) (sym j ∙ es=es) sound.numbered;
        named = subst (All IsNamed) (sym j ∙ es=es) sound.named;
        short = subst (λ es. length es < 2 ^ 63) (sym j ∙ es=es) sound.short;
        bundle_sound = leaves.is_stored;
        memory_backed =
            subst (IsBacked k'.checkpoint.position (stored st'.bundle)) es=es r.memory_backed;
        disk_backed =
            subst (IsBacked (saved_position st'.checkpoint) (stored st'.bundle)) es=es
              leaves.disk_backed;
      }
  Step-IsSound _ _ sound (fails k k₀ st st' o e j p h) =
      let leaves = subst (Recovery pf k₀ st) h (restart-Recovery k k₀ st o sound j p) in
      record {
        numbered = sound.numbered;
        named = sound.named;
        short = sound.short;
        bundle_sound = leaves.is_stored;
        memory_backed =
            IsBacked-kept _ (stored st.bundle) (stored st'.bundle) k.journal.entries leaves.kept
              sound.memory_backed;
        disk_backed =
            subst (IsBacked (saved_position st'.checkpoint) (stored st'.bundle)) j
              leaves.disk_backed;
      }

  start-IsBacked : (rs : List Record) → IsBacked "start" rs []
  unfolding checkpoint_position
  start-IsBacked rs = record { reached = 0; read = refl; bounded = omega arith; covered = tt }

  -- In every state that a run can reach, with commits that fail to save, crashes and restarts in any
  -- order, the bundle's file is missing or passes Verify, and every journal entry up to the position of
  -- the checkpoint, in memory and on disk, has a record with its digest in the bundle.
  pub IsReachable-IsSound : {s : Coordinator × Store} → IsReachable pf c oc s → IsSound pf s
  IsReachable-IsSound (starts k j p) =
      let none_backed = start-IsBacked [] in
      record {
        numbered = subst (ArePlaced 0) (sym j) tt;
        named = subst (All IsNamed) (sym j) tt;
        short = subst (λ es. length es < 2 ^ 63) (sym j) (omega arith);
        bundle_sound = tt;
        memory_backed =
            subst (λ q. IsBacked q [] k.journal.entries) (sym p)
              (subst (IsBacked "start" []) (sym j) none_backed);
        disk_backed = subst (IsBacked "start" []) (sym j) none_backed;
      }
  IsReachable-IsSound (steps {s} {t} r step) = Step-IsSound s t (IsReachable-IsSound r) step
