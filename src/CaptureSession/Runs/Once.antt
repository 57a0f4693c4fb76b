-- ===== src/CaptureSession/Runs/Once.antt =====
-- Recovering again brings nothing more into the bundle (internal/proxy/capture.go).
use atb.Prelude.{
  ℕ, ◌≡◌, refl, sym, ap, subst, ◌∙◌, String, List, [], ◌∷◌, Option, All, ==_iff, inl, inr,
  Bool-cases,
}
use atb.Prelude.Int.{ℤ, pos, ltb_ℤ}
use atb.Prelude.Saving.{Saving, saved, kept_old, replaced_unsynced}
use atb.Prelude.Result.{Result, ok, err, ok_injective, Result-cases}
use atb.Canonicalize.{Platform}
use atb.Bundle.{Record, Codec}
use atb.Acquisition.Checkpoint.{Checkpoint}
use atb.CaptureJournal.{Entry}
use atb.CaptureJournal.Append.{entries_from}
use atb.CaptureSession.{CaptureError, ObservationCodec}
use atb.CaptureSession.Drain.{Drained}
use atb.CaptureSession.Recover.{
  Coordinator, Store, Outside, recover, replayed_bundle, finish_recovery, save_recovered, recovered,
  recovered_checkpoint,
}
use atb.CaptureSession.Settled.{IsCommitted}
use atb.CaptureSession.Loaded.{stored, IsStored, Loaded}
use atb.CaptureSession.Flushed.{at_start}
use atb.CaptureSession.Runs.{saved_position, IsReachable}
use atb.CaptureSession.Runs.Drains.{Drains, replayed_bundle-Drains}
use atb.CaptureSession.Runs.Recovers.{Recovery}
use atb.CaptureSession.Settled.{replay-committed}
use atb.CaptureSession.Loaded.{Loaded-committed}
use atb.CaptureSession.Runs.Sound.{restart-Recovery, IsReachable-IsSound}
use atb.CaptureSession.Runs.Drains.{Drains, replayed_bundle-Drains}

pending_committed :
    (rs : List Record) (p : ℤ) (es : List Entry)
    → All (IsCommitted rs) es
    → All (IsCommitted rs) (entries_from p es)
unfolding entries_from
pending_committed rs p [] all = tt
pending_committed rs p (e ∷ es) (k, all) = elim (Bool-cases (ltb_ℤ p e.position)) [
  | inl q ↦ rw (entries_from, q) (k, pending_committed rs p es all)
  | inr q ↦ rw (entries_from, q) (pending_committed rs p es all)
]

loaded_committed :
    (pf : Platform) (b : Option (List Record)) (rs : List Record) (es : List Entry)
    → Loaded pf b rs
    → All (IsCommitted (stored b)) es
    → All (IsCommitted rs) es
loaded_committed pf b rs [] l all = tt
loaded_committed pf b rs (e ∷ es) l (k, all) =
    (Loaded-committed pf b rs e l k, loaded_committed pf b rs es l all)

module _ (pf : Platform) (c : Codec) (oc : ObservationCodec) where
  -- What was drained of committed entries is nothing.
  Drains-nothing :
      (stream position : String) (b : Option (List Record)) (es : List Entry) (d : Drained)
      → All (IsCommitted (stored b)) es
      → Drains pf c oc stream b position es d
      → d.appended ≡ 0
  Drains-nothing stream position b es d all drains =
      let pending =
        pending_committed drains.from_records (pos drains.reached) es
          (loaded_committed pf b drains.from_records es drains.is_loaded all) in
      let same = ok_injective (
        sym drains.replays
        ∙ replay-committed pf c oc stream (at_start drains.from_records)
            (entries_from (pos drains.reached) es) (λ key. refl) pending) in
      ap (λ s. s.appended) same

  -- A successful recovery has replayed nothing and left the bundle's file as it was.
  abbrev AddsNothing : Store → Result CaptureError Coordinator × Store → Type 0
  AddsNothing st (err e, after) = Unit
  AddsNothing st (ok k', after) = (k'.replayed ≡ 0) × (after.bundle ≡ st.bundle)

  save_recovered-AddsNothing :
      (k : Coordinator) (st : Store) (cp : Checkpoint) (n : ℕ) (saving : Saving)
      → n ≡ 0
      → AddsNothing st (save_recovered saving k st cp n)
  unfolding save_recovered recovered
  save_recovered-AddsNothing k st cp n saved z = (z, refl)
  save_recovered-AddsNothing k st cp n kept_old z = tt
  save_recovered-AddsNothing k st cp n replaced_unsynced z = tt

  recover-AddsNothing :
      (k : Coordinator) (o : Outside) (st : Store)
      → IsStored pf st.bundle
      → All (IsCommitted (stored st.bundle)) k.journal.entries
      → AddsNothing st (recover pf c oc k o st)
  unfolding recover finish_recovery
  recover-AddsNothing k o st ready all = elim (Result-cases (replayed_bundle pf c oc k o st)) [
    | inr (e, q) ↦ rw (recover, q) tt
    | inl (found, q) ↦
        let z =
          Drains-nothing k.stream_id k.checkpoint.position st.bundle k.journal.entries found.1 all
            (replayed_bundle-Drains pf c oc k o st found.0 found.1 ready q) in
        rw (recover, q, finish_recovery, (==_iff found.1.appended 0).1 z)
          (save_recovered-AddsNothing k st (recovered_checkpoint k o found.0 found.1)
            found.1.appended o.saving_checkpoint z)
  ]

  -- In every state that a run can reach, a recovery that succeeds leaves a bundle that passes Verify, with
  -- every entry of the journal in it and all that was in it before; and a further recovery that succeeds,
  -- on that journal, replays nothing and leaves the bundle's file as it is.
  pub recover-once :
      (k k₀ k₁ k₂ k₃ : Coordinator) (st st₁ st₃ : Store) (o o₂ : Outside)
      → IsReachable pf c oc (k, st)
      → k₀.journal.entries ≡ k.journal.entries
      → k₀.checkpoint.position ≡ saved_position st.checkpoint
      → recover pf c oc k₀ o st ≡ (ok k₁, st₁)
      → k₂.journal.entries ≡ k.journal.entries
      → recover pf c oc k₂ o₂ st₁ ≡ (ok k₃, st₃)
      → IsStored pf st₁.bundle
        × All (IsCommitted (stored st₁.bundle)) k.journal.entries
        × ((e : Entry) → IsCommitted (stored st.bundle) e → IsCommitted (stored st₁.bundle) e)
        × (k₃.replayed ≡ 0)
        × (st₃.bundle ≡ st₁.bundle)
  recover-once k k₀ k₁ k₂ k₃ st st₁ st₃ o o₂ reachable j p h j₂ h₂ =
      let sound = IsReachable-IsSound pf c oc reachable in
      let (leaves, r) =
        subst (Recovery pf k₀ st) h (restart-Recovery pf c oc k k₀ st o sound j p) in
      let all = subst (All (IsCommitted (stored st₁.bundle))) j r.all_committed in
      let (none_more, same) = subst (AddsNothing st₁) h₂ (
        recover-AddsNothing k₂ o₂ st₁ leaves.is_stored
          (subst (All (IsCommitted (stored st₁.bundle))) (sym j₂) all)) in
      (leaves.is_stored, all, leaves.kept, none_more, same)
