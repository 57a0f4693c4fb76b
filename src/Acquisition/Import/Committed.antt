-- ===== src/Acquisition/Import/Committed.antt =====
-- What an import leaves on disk, whatever fails (internal/acquisition/import_integration.go).
use atb.Prelude.{
  ℕ, ◌≡◌, refl, ap, subst, String, Bool, true, false, not, ◌&&◌, ◌||◌, List, [], ◌∷◌, Option, none,
  some, length, arith, inl, inr, Option-cases,
}
use atb.Prelude.Int.{pos}
use atb.Prelude.Saving.{Saving, saved, kept_old, replaced_unsynced}
use atb.Prelude.Result.{Result, ok, err, >>=-eq-ok, >>-then, ok_injective, Result-cases, fail_if}
use atb.Bundle.{Record}
use atb.Bundle.Verify.{verify_bundle}
use atb.Acquisition.Checkpoint.{Checkpoint, bind_bundle, save}
use atb.Acquisition.Import.{
  ImportEvent, ReconcileCounts, committed_bundle_head, writes_acquisition, stamp_acquisition_stream,
}
use atb.Acquisition.Import.Write.{apply_reconciliation, require_acquisition_profile}
use atb.Acquisition.Import.Stamp.{stamp_manifest_provenance}
use atb.Acquisition.Import.Verified.{
  apply_from-verify, new_with_options-single, stamp_manifest_provenance-verify,
}
use atb.Acquisition.Import.Run.{
  ImportOptions, RunError, below_v3, bundle_not_loaded, provenance, provided, BundleOnDisk, no_file,
  bad_file, records_in, Files, World, ImportResult, relabelled, failing, load_snapshot_bundle,
  opened_bundle, check_bundle, planned, imported, finish_import, save_import, finish_checkpoint,
  bound_checkpoint, imported_result, import_events, start_import, import_source, import_otel,
  import_chatlog, received_events, parsed_messages, ChatlogReader, map_known, input_failed,
  no_translatable_spans, not_applied, bundle_not_saved, checkpoint_not_saved,
}

relabelled-ok :
    {A E F : Type 0} (f : E → F) (m : Result E A) {a : A} → relabelled f m ≡ ok a → m ≡ ok a
relabelled-ok f (err e) p = cc
relabelled-ok f (ok b) p = ap ok (ok_injective p)

-- The checkpoint names the last record and the number of the records, and so admits exactly this bundle.
abbrev pub Names : Checkpoint → List Record → Type 0
Names cp rs =
    (cp.bundle_head_hash ≡ committed_bundle_head rs) × (cp.bundle_record_count ≡ pos (length rs))

-- An import that continues or reconciles saves only bundles that pass Verify.
abbrev pub IsChecked : World → Bool → List Record → Type 0
IsChecked w false rs = Unit
IsChecked w true rs = verify_bundle w.platform rs ≡ none

-- What an import leaves: the files as they were; or the bundle saved, and the checkpoint as it was; or
-- the bundle and the checkpoint that names it. Only the last comes without an error, and it comes with
-- one where the checkpoint's directory cannot be synchronised.
pub data Leaves (w : World) (re : Bool) (files : Files)
    : Result RunError ImportResult × Files → Type 0 where
  leaves_all : (e : RunError) → Leaves w re files (err e, files)
  leaves_checkpoint :
      (e : RunError) (rs : List Record)
      → IsChecked w re rs
      → Leaves w re files (err e, record files { bundle = records_in rs })
  leaves_both :
      (r : Result RunError ImportResult) (rs : List Record) (cp : Checkpoint)
      → IsChecked w re rs
      → Names cp rs
      → Leaves w re files (r, record { bundle = records_in rs; checkpoint = save w.checkpoints cp })

module _ (w : World) where
  load_snapshot_bundle-new :
      (file : BundleOnDisk) (rs : List Record)
      → load_snapshot_bundle w file ≡ ok (rs, true)
      → (verify_bundle w.platform rs ≡ none) × (r : Record) × (rs ≡ r ∷ [])
  unfolding load_snapshot_bundle
  load_snapshot_bundle-new (bad_file e) rs h = cc
  load_snapshot_bundle-new (records_in old) rs h =
      absurd (true_false (ap (λ p. p.1) (ok_injective h)))
    where
      true_false : false ≡ true → ⊥
      true_false p = cc
  load_snapshot_bundle-new no_file rs h =
      let (fresh, p, q) = >>=-eq-ok (relabelled bundle_not_loaded _) _ h in
      let made = relabelled-ok bundle_not_loaded _ p in
      subst (λ l. (verify_bundle w.platform l ≡ none) × (r : Record) × (l ≡ r ∷ []))
        (ap (λ x. x.0) (ok_injective q))
        (new_with_options-single w.platform w.codec _ w.created_at w.bundle_id fresh made)

  opened_bundle-new :
      (file : BundleOnDisk) (rs : List Record)
      → opened_bundle w file ≡ ok (rs, true)
      → verify_bundle w.platform rs ≡ none
  unfolding opened_bundle provided
  opened_bundle-new file rs h = go (>>=-eq-ok (load_snapshot_bundle w file) (provided w) h)
    where
      go :
          ((x : List Record × Bool) × (load_snapshot_bundle w file ≡ ok x)
            × (provided w x ≡ ok (rs, true)))
          → verify_bundle w.platform rs ≡ none
      go ((fresh, false), p, q) = absurd (ground arith)
      go ((fresh, true), p, q) =
          let (v, r, single) = load_snapshot_bundle-new file fresh p in
          let (stamped, s, same) = >>=-eq-ok (relabelled provenance _) _ q in
          let stamps = relabelled-ok provenance _ s in
          subst (λ l. verify_bundle w.platform l ≡ none) (ap (λ x. x.0) (ok_injective same))
            (stamp_manifest_provenance-verify w.platform w.objects r "bundle_provenance"
              "retrospective" stamped (subst (λ l. verify_bundle w.platform l ≡ none) single v)
              (subst
                (λ l.
                  stamp_manifest_provenance w.platform w.objects l "bundle_provenance"
                    "retrospective"
                  ≡ ok stamped)
                single stamps))

  check_bundle-verified :
      (cp : Checkpoint) (rs : List Record)
      → check_bundle w true cp rs false ≡ ok tt
      → verify_bundle w.platform rs ≡ none
  unfolding check_bundle
  check_bundle-verified cp rs h =
      let (_, p, _) = >>=-eq-ok (failing (verify_bundle w.platform rs)) _ h in
      elim (Option-cases (verify_bundle w.platform rs)) [
        | inl e ↦ e
        | inr (x, e) ↦ absurd (ground arith)
      ]

  -- What a continuing import goes on with passes Verify.
  opened_checked :
      (cp : Checkpoint) (file : BundleOnDisk) (rs : List Record) (created : Bool)
      → opened_bundle w file ≡ ok (rs, created)
      → check_bundle w true cp rs created ≡ ok tt
      → verify_bundle w.platform rs ≡ none
  opened_checked cp file rs true p h = opened_bundle-new file rs p
  opened_checked cp file rs false p h = check_bundle-verified cp rs h

  imported-IsChecked :
      (re : Bool) (cp : Checkpoint) (evs : List ImportEvent) (file : BundleOnDisk)
      (counts : ReconcileCounts) (rs : List Record)
      → imported w re cp evs file ≡ ok (counts, rs)
      → IsChecked w re rs
  unfolding imported apply_reconciliation
  imported-IsChecked false cp evs file counts rs h = tt
  imported-IsChecked true cp evs file counts rs h =
      let ((old, created), p, h₁) = >>=-eq-ok (opened_bundle w file) _ h in
      let (_, q, h₂) = >>=-eq-ok (check_bundle w true cp old created) _ h₁ in
      let plan = planned true evs old in
      let applied = apply_reconciliation w.platform w.codec w.clock old plan in
      let refused =
        writes_acquisition plan && not (require_acquisition_profile w.codec old created) in
      let h₃ = >>-then (fail_if refused below_v3) (relabelled not_applied applied) h₂ in
      apply_from-verify w.platform w.codec w.clock old rs plan.counts counts plan.actions
        (opened_checked cp file old created p q) (relabelled-ok not_applied applied h₃)

  finish_checkpoint-Leaves :
      (re : Bool) (files : Files) (cp : Checkpoint) (rs : List Record) (r : ImportResult)
      → IsChecked w re rs
      → Names cp rs
      → (saving : Saving)
      → Leaves w re files
          (finish_checkpoint w saving (record files { bundle = records_in rs }) cp r)
  unfolding finish_checkpoint
  finish_checkpoint-Leaves re files cp rs r checked names saved =
      leaves_both (ok r) rs cp checked names
  finish_checkpoint-Leaves re files cp rs r checked names kept_old =
      leaves_checkpoint checkpoint_not_saved rs checked
  finish_checkpoint-Leaves re files cp rs r checked names replaced_unsynced =
      leaves_both (err checkpoint_not_saved) rs cp checked names

  save_import-Leaves :
      (re : Bool) (files : Files) (cp : Checkpoint) (position : String) (skipped : ℕ)
      (counts : ReconcileCounts) (rs : List Record)
      → IsChecked w re rs
      → (saving : Saving)
      → Leaves w re files (save_import w saving files cp position skipped (counts, rs))
  unfolding save_import bind_bundle
  save_import-Leaves re files cp position skipped counts rs checked kept_old =
      leaves_all bundle_not_saved
  save_import-Leaves re files cp position skipped counts rs checked replaced_unsynced =
      leaves_checkpoint bundle_not_saved rs checked
  save_import-Leaves re files cp position skipped counts rs checked saved =
      finish_checkpoint-Leaves re files (bound_checkpoint w cp position counts rs) rs
        (imported_result skipped counts) checked (refl, refl) w.saving_checkpoint

  finish_import-Leaves :
      (re : Bool) (files : Files) (cp : Checkpoint) (position : String) (skipped : ℕ)
      (counts : ReconcileCounts) (rs : List Record)
      → IsChecked w re rs
      → Leaves w re files (finish_import w files cp position skipped (counts, rs))
  unfolding finish_import
  finish_import-Leaves re files cp position skipped counts rs checked =
      save_import-Leaves re files cp position skipped counts rs checked w.saving_bundle

  import_events-Leaves :
      (o : ImportOptions) (files : Files) (cp : Checkpoint) (position : List ImportEvent → String)
      (translated : Result RunError (List ImportEvent × ℕ))
      → Leaves w (o.continue || o.reconcile) files (import_events w o files cp position translated)
  unfolding import_events
  import_events-Leaves o files cp position (err e) = leaves_all e
  import_events-Leaves o files cp position (ok (translated, skipped)) =
      let re = o.continue || o.reconcile in
      let evs = stamp_acquisition_stream translated o.input_path in
      elim (Result-cases (imported w re cp evs files.bundle)) [
        | inr (e, q) ↦ rw (import_events, q) (leaves_all e)
        | inl (done, q) ↦
            rw (import_events, q)
              (finish_import-Leaves re files cp (position evs) skipped done.0 done.1
                (imported-IsChecked re cp evs files.bundle done.0 done.1 q))
      ]

  module _ (o : ImportOptions) (files : Files) where
    import_otel-Leaves :
        (received : Option (List ImportEvent × ℕ))
        → Leaves w (o.continue || o.reconcile) files (import_otel w o files received)
    unfolding import_otel
    import_otel-Leaves received =
        elim (Result-cases (start_import w o files (import_source o "otel" "atb.otel.otlp-json"))) [
          | inr (e, q) ↦ rw (import_otel, q) (leaves_all e)
          | inl (cp, q) ↦ rw (import_otel, q) (by_input cp received)
        ]
      where
        by_input :
            (cp : Checkpoint) (received : Option (List ImportEvent × ℕ))
            → Leaves w (o.continue || o.reconcile) files (received_events w o files cp received)
        by_input cp none = leaves_all input_failed
        by_input cp (some ([], dropped)) = leaves_all no_translatable_spans
        by_input cp (some (ev ∷ evs, dropped)) = import_events-Leaves o files cp _ _

    import_chatlog-Leaves :
        {Message : Type 0} (reader : ChatlogReader Message) (messages : Option (List Message))
        → Leaves w (o.continue || o.reconcile) files (import_chatlog w o files reader messages)
    unfolding import_chatlog
    import_chatlog-Leaves reader messages =
        elim (Result-cases
          (start_import w o files (import_source o "chatlog" "atb.chatlog.generic-jsonl"))) [
            | inr (e, q) ↦ rw (import_chatlog, q) (leaves_all e)
            | inl (cp, q) ↦ rw (import_chatlog, q) (by_messages cp reader messages)
          ]
      where
        by_messages :
            {Message : Type 0} (cp : Checkpoint) (reader : ChatlogReader Message)
            (messages : Option (List Message))
            → Leaves w
                (o.continue || o.reconcile)
                files
                (parsed_messages w o files cp reader messages)
        by_messages cp reader none = leaves_all input_failed
        by_messages cp reader (some ms) = import_events-Leaves o files cp _ (map_known reader ms)

    -- Neither import changes the checkpoint's file without the bundle's, whichever save fails, also one
    -- that fails behind its rename: it fails and leaves both files as they were; or it fails and leaves
    -- the new bundle with the checkpoint as it was; or it leaves the new bundle and a checkpoint that
    -- names its last record and the number of its records, as it does whenever it succeeds. One that
    -- continues or reconciles saves only bundles that pass Verify.
    pub import-Leaves :
        {Message : Type 0} (received : Option (List ImportEvent × ℕ))
        (reader : ChatlogReader Message) (messages : Option (List Message))
        → Leaves w (o.continue || o.reconcile) files (import_otel w o files received)
          × Leaves w (o.continue || o.reconcile) files (import_chatlog w o files reader messages)
    import-Leaves received reader messages =
        (import_otel-Leaves received, import_chatlog-Leaves reader messages)
