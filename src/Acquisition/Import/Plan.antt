-- ===== src/Acquisition/Import/Plan.antt =====
-- planReconciliation (internal/acquisition/import_integration.go).
use atb.Prelude.{
  ℕ, suc, String, concat, Bool, true, false, List, [], ◌∷◌, Option, none, some, str_eq,
  if◌then◌else◌,
}
use atb.Prelude.Decimal.{decimal}
use atb.Prelude.Map.{Map, lookup, put}
use atb.Event.{AcquisitionInfo}
use atb.Acquisition.Reconcile.{
  ReconciliationResult, new, unchanged, changed, unknown, FindingInfo, KnownRecord,
  ReconciliationOutcome, reconcile, identity_of,
}
use atb.Acquisition.Import.{
  ImportEvent, ReconcileCounts, no_counts, source_key, ReconcileAction, ReconciliationPlan,
}

-- decision; its result is empty where nothing is reconciled.
pub record Decision : Type 0 where
  pub result : Option ReconciliationResult
  pub skip : Bool
  pub finding : Option FindingInfo

-- The key under which the event at index `i` is decided.
unfoldable pub decision_key : ℕ → ImportEvent → String
decision_key i ev = elim (source_key ev.acquisition) [
  | none ↦ concat "__unknown__:" (decimal i)
  | some key ↦ key
]

unfoldable pub is_unchanged : ReconciliationResult → Bool
is_unchanged unchanged = true
is_unchanged _ = false

unfoldable pub decided : ReconciliationOutcome → Decision
unfolding is_unchanged
decided o = record { result = some o.result; skip = is_unchanged o.result; finding = o.finding }

unfoldable pub undecided : Option ReconciliationResult → Decision
undecided r = record { result = r; skip = false; finding = none }

-- The decision on a new key, and the known records after it.
unfoldable pub decide : Bool → Map KnownRecord → Option AcquisitionInfo → Decision × Map KnownRecord
unfolding decided undecided
decide false m acq = (undecided none, m)
decide true m none = (undecided (some unknown), m)
decide true m (some acq) =
    if str_eq acq.source_record_id ""
    then (undecided (some unknown), m)
    else (let (o, known) =
          reconcile m (identity_of acq) acq.source_digest acq.acquired_at (some acq) in
        (decided o, known))

-- The switch on the result of a new decision.
unfoldable pub tally : Option ReconciliationResult → ReconcileCounts → ReconcileCounts
tally none c = c
tally (some new) c = record c { new_count = suc c.new_count }
tally (some changed) c = record c { changed = suc c.changed }
tally (some unchanged) c = record c { unchanged = suc c.unchanged }
tally (some unknown) c = record c { unknown = suc c.unknown }

-- A decision whose finding was given out.
unfoldable pub settled : Decision → Decision
settled d = record d { finding = none }

unfoldable pub action_of : ImportEvent → Decision → ReconcileAction
action_of ev d = record { event = ev; finding = d.finding; skip = d.skip }

abbrev pub with_action : ReconcileAction → ReconciliationPlan → ReconciliationPlan
with_action a p = record { actions = a ∷ p.actions; counts = p.counts }

-- The loop of planReconciliation, at the index `i`.
unfoldable pub plan_from :
    Bool
    → ℕ
    → Map Decision
    → Map KnownRecord
    → ReconcileCounts
    → List ImportEvent
    → ReconciliationPlan
unfolding decision_key settled action_of
plan_from re i ds m c [] = record { actions = []; counts = c }
plan_from re i ds m c (ev ∷ evs) = elim (lookup (decision_key i ev) ds) [
  | some d ↦
      with_action (action_of ev d)
        (plan_from re (suc i) (put (decision_key i ev) (settled d) ds) m c evs)
  | none ↦
      let (d, known) = decide re m ev.acquisition in
      with_action (action_of ev d)
        (plan_from re (suc i) (put (decision_key i ev) (settled d) ds) known (tally d.result c) evs)
]

-- planReconciliation; its Reconciler never fails.
unfoldable pub plan_reconciliation : List ImportEvent → Map KnownRecord → Bool → ReconciliationPlan
unfolding plan_from
plan_reconciliation evs m re = plan_from re 0 [] m no_counts evs
