-- ===== src/Acquisition/Import/Decide.antt =====
-- What one decision of planReconciliation depends on (internal/acquisition/import_integration.go).
use atb.Prelude.{
  ℕ, ◌≡◌, refl, sym, ap, ◌∙◌, String, Bool, true, false, ◌||◌, Option, none, some, str_eq, eq_iff,
  arith, inl, inr, Bool-cases,
}
use atb.Prelude.Map.{Map, lookup}
use atb.Event.{AcquisitionInfo, SourceIdentity}
use atb.Acquisition.Reconcile.{
  ReconciliationOutcome, unchanged, KnownRecord, identity_key, identity_of, is_unstable, reconcile,
  against,
}
use atb.Acquisition.Reconcile.Laws.{classify, digest_of, against-classify, against-other}
use atb.Acquisition.Import.{ImportEvent}
use atb.Acquisition.Import.Plan.{decide, decided, undecided, is_unchanged, decision_key}
use atb.Acquisition.Import.Known.{known_digest}

named : (a b : Bool) → a || b ≡ false → b ≡ false
named true b p = cc
named false b p = p

classify-unchanged :
    (o : Option String) (digest : String)
    → is_unchanged (classify o digest) ≡ true
    → o ≡ some digest
unfolding is_unchanged
classify-unchanged none digest p = cc
classify-unchanged (some old) digest p = elim (Bool-cases (str_eq old digest)) [
  | inl e ↦ ap some ((eq_iff old digest).0 e)
  | inr e ↦ absurd (ground arith)
]

against-known :
    (o : Option KnownRecord) (m : Map KnownRecord) (id : SourceIdentity) (digest at : String)
    (acq : Option AcquisitionInfo)
    → digest_of o ≡ some digest
    → ((against o m id digest at acq).0.result ≡ unchanged) × ((against o m id digest at acq).1 ≡ m)
unfolding against
against-known none m id digest at acq p = cc
against-known (some known) m id digest at acq p =
    let e : str_eq known.digest digest ≡ true = (eq_iff known.digest digest).1 (cc) in
    (rw e refl, rw e refl)

module _ (acq : AcquisitionInfo) (u : is_unstable (identity_of acq) ≡ false) where
  has_record_id : str_eq acq.source_record_id "" ≡ false
  unfolding is_unstable
  has_record_id = named (str_eq acq.source_system "") (str_eq acq.source_record_id "") u

  -- A stable identity is the key of the decision.
  pub decision_key-stable :
      (i : ℕ) (ev : ImportEvent)
      → ev.acquisition ≡ some acq
      → decision_key i ev ≡ identity_key (identity_of acq)
  unfolding decision_key
  decision_key-stable i ev q = rw (q, decision_key, has_record_id) refl

  reconcile-against :
      (m : Map KnownRecord)
      → reconcile m (identity_of acq) acq.source_digest acq.acquired_at (some acq)
        ≡ against
            (lookup (identity_key (identity_of acq)) m)
            m
            (identity_of acq)
            acq.source_digest
            acq.acquired_at
            (some acq)
  unfolding reconcile
  reconcile-against m = rw u refl

  module _ (m : Map KnownRecord) where
    abbrev outcome_of : ReconciliationOutcome × Map KnownRecord
    outcome_of =
        against (lookup (identity_key (identity_of acq)) m) m (identity_of acq) acq.source_digest
          acq.acquired_at (some acq)

    decide-against : decide true m (some acq) ≡ (decided outcome_of.0, outcome_of.1)
    unfolding decide
    decide-against = rw (has_record_id, reconcile-against m) refl

    -- A source is skipped only if its digest is the known one, and the records of other sources stay.
    pub decide-skip :
        (re : Bool)
        → (decide re m (some acq)).0.skip ≡ true
        → known_digest m (identity_key (identity_of acq)) ≡ some acq.source_digest
    unfolding decide undecided decided
    decide-skip false s = cc
    decide-skip true s =
        classify-unchanged (known_digest m (identity_key (identity_of acq))) acq.source_digest (
          ap is_unchanged (
            sym (
              (against-classify (lookup (identity_key (identity_of acq)) m) m (identity_of acq)
                acq.source_digest acq.acquired_at (some acq)).0))
          ∙ (sym (ap (λ d. d.0.skip) decide-against) ∙ s))

    pub decide-other :
        (re : Bool) (key : String)
        → str_eq (identity_key (identity_of acq)) key ≡ false
        → lookup key (decide re m (some acq)).1 ≡ lookup key m
    unfolding decide
    decide-other false key e = refl
    decide-other true key e =
        ap (λ d. lookup key d.1) decide-against
        ∙ against-other (lookup (identity_key (identity_of acq)) m) m (identity_of acq)
            acq.source_digest acq.acquired_at (some acq) key e

    -- A source whose digest is known is unchanged.
    pub decide-known :
        known_digest m (identity_key (identity_of acq)) ≡ some acq.source_digest
        → ((decide true m (some acq)).0.skip ≡ true)
          × ((decide true m (some acq)).0.result ≡ some unchanged)
          × ((decide true m (some acq)).1 ≡ m)
    unfolding decided
    decide-known k =
        let (result, kept) =
          against-known (lookup (identity_key (identity_of acq)) m) m (identity_of acq)
            acq.source_digest acq.acquired_at (some acq) k in
        (
          ap (λ d. d.0.skip) decide-against ∙ ap is_unchanged result ∙ unfold is_unchanged in refl,
          ap (λ d. d.0.result) decide-against ∙ ap some result,
          ap (λ d. d.1) decide-against ∙ kept,
        )
