-- ===== src/CaptureSession/Runs/Drains.antt =====
-- What the loops of recover and commitPending have found (internal/proxy/capture.go).
use atb.Prelude.{
  ℕ, ◌≡◌, sym, ap, subst, ◌∙◌, String, Bool, true, not, ◌&&◌, List, Option, some, All, ◌==◌, ==_iff,
}
use atb.Prelude.Int.{pos}
use atb.Prelude.Result.{ok, >>=-eq-ok, >>-then, ok_injective, fail_if}
use atb.Canonicalize.{Platform}
use atb.Bundle.{Record, Codec}
use atb.Bundle.Manifest.{manifest}
use atb.CaptureJournal.{Entry}
use atb.CaptureJournal.Append.{entries_from}
use atb.CaptureStatus.{version_three}
use atb.CaptureStatus.Position.{checkpoint_position}
use atb.CaptureSession.{ObservationCodec, not_v3}
use atb.CaptureSession.Drain.{Drained, replay}
use atb.CaptureSession.Recover.{
  Coordinator, Store, Outside, replayed_bundle, check_continuity, load_bundle_for_capture,
  committed_position,
}
use atb.CaptureSession.Pending.{drained_bundle}
use atb.CaptureSession.Settled.{IsNamed}
use atb.CaptureSession.Loaded.{stored, IsStored, AreCovered, Loaded, load_bundle_for_capture-Loaded}
use atb.CaptureSession.Flushed.{at_start, Flushed, drain-replay, saved-Flushed, unsaved-Flushed}
use atb.CaptureSession.Runs.{IsBacked}
use atb.CaptureSession.Runs.Backed.{committed_position-ok, check_continuity-ok}

module _ (pf : Platform) (c : Codec) (oc : ObservationCodec) where
  -- What both loops have found of a journal, from a position on.
  pub record Drains (stream : String) (b : Option (List Record)) (position : String)
      (es : List Entry) (d : Drained) : Type 0 where
    pub from_records : List Record
    pub is_loaded : Loaded pf b from_records
    pub reached : ℕ
    pub read : checkpoint_position position ≡ some reached
    pub replays :
        replay pf c oc stream (at_start from_records) (entries_from (pos reached) es) ≡ ok d

  pub drained_bundle-Drains :
      (k : Coordinator) (o : Outside) (st : Store) (d : Drained)
      → IsStored pf st.bundle
      → drained_bundle pf c oc k o st ≡ ok d
      → Drains k.stream_id st.bundle k.checkpoint.position k.journal.entries d
  unfolding drained_bundle
  drained_bundle-Drains k o st d ready h =
      let (p, read, h₁) = >>=-eq-ok (committed_position k.checkpoint) _ h in
      let ((rs, created), loaded, h₂) = >>=-eq-ok (load_bundle_for_capture pf c o st.bundle) _ h₁ in
      let h₃ = >>-then (fail_if (created && not (version_three (manifest c rs))) not_v3) _ h₂ in
      record {
        from_records = rs;
        is_loaded = load_bundle_for_capture-Loaded pf c o st.bundle rs created ready loaded;
        reached = p;
        read = committed_position-ok k.checkpoint p read;
        replays =
            drain-replay pf c oc k.stream_id k.incarnation (at_start rs) d
              (entries_from (pos p) k.journal.entries) h₃;
      }

  pub replayed_bundle-Drains :
      (k : Coordinator) (o : Outside) (st : Store) (created : Bool) (d : Drained)
      → IsStored pf st.bundle
      → replayed_bundle pf c oc k o st ≡ ok (created, d)
      → Drains k.stream_id st.bundle k.checkpoint.position k.journal.entries d
  unfolding replayed_bundle
  replayed_bundle-Drains k o st created d ready h =
      let ((rs, new), loaded, h₁) = >>=-eq-ok (load_bundle_for_capture pf c o st.bundle) _ h in
      let (p, read, h₂) = >>=-eq-ok (check_continuity pf c k rs new) _ h₁ in
      let (d', replays, h₃) =
        >>=-eq-ok
          (replay pf c oc k.stream_id (at_start rs) (entries_from (pos p) k.journal.entries)) _
          h₂ in
      record {
        from_records = rs;
        is_loaded = load_bundle_for_capture-Loaded pf c o st.bundle rs new ready loaded;
        reached = p;
        read = check_continuity-ok pf c k rs new p read;
        replays = replays ∙ ap (λ x. ok x.1) (ok_injective h₃);
      }

  -- The entries at the position that was read are those that the bundle backs.
  module _ (stream position : String) (b : Option (List Record)) (es : List Entry) (d : Drained)
      (ready : IsStored pf b) (named : All IsNamed es) (backed : IsBacked position (stored b) es)
      (drains : Drains stream b position es d) where
    covered_from : AreCovered (stored b) drains.reached es
    covered_from =
        let same : backed.reached ≡ drains.reached =
          some_injective (sym backed.read ∙ drains.read) in
        subst (λ p. AreCovered (stored b) p es) same backed.covered
      where
        some_injective : {p q : ℕ} → ◌≡◌ {A = Option ℕ} (some p) (some q) → p ≡ q
        some_injective e = cc

    pub Drains-saved : Flushed pf b (some d.records) es
    Drains-saved =
        saved-Flushed pf c oc stream b drains.from_records drains.reached es d drains.is_loaded
          named covered_from drains.replays

    pub Drains-unsaved : (d.appended == 0) ≡ true → Flushed pf b b es
    Drains-unsaved e =
        unsaved-Flushed pf c oc stream b drains.from_records drains.reached es d drains.is_loaded
          named covered_from drains.replays ready ((==_iff d.appended 0).0 e)
