-- ===== src/Acquisition/Import/Write.antt =====
-- applyReconciliation (internal/acquisition/import_integration.go). The clock is a function of the number
-- of records at the call.
use atb.Prelude.{
  ℕ, suc, String, Bool, true, false, ◌||◌, List, [], ◌∷◌, Option, none, some, length, str_eq,
}
use atb.Prelude.Result.{Result, ok, err, ◌>>=◌}
use atb.Json.{Value, str, obj, end, field}
use atb.Canonicalize.{Platform}
use atb.Event.{AcquisitionInfo}
use atb.Bundle.{Record, AppendOptions, Error, Codec}
use atb.Bundle.Manifest.{manifest}
use atb.Bundle.Append.{append_with_options}
use atb.Acquisition.Reconcile.{FindingInfo}
use atb.Acquisition.Import.{ImportEvent, ReconcileCounts, ReconcileAction, ReconciliationPlan}

-- The data of an acquisition finding.
finding_payload : FindingInfo → AcquisitionInfo → Value
finding_payload f acq = obj (
    field "finding_type" (str f.flag) (
      field "source_system" (str acq.source_system) (
        field "source_record_id" (str f.source_record_id) (
          field "previous_digest" (str f.previous_digest) (
            field "current_digest" (str f.current_digest) (
              field "previous_acquired_at" (str f.acquired_at_previous) (
                field "current_acquired_at" (str f.acquired_at) (
                  field "adapter" (str acq.adapter)
                    (field "adapter_version" (str acq.adapter_version) end)))))))))

abbrev pub acquisition_finding_type : String
acquisition_finding_type = "atb.acquisition.finding"

unfoldable pub finding_options : String → Option AppendOptions
finding_options now = some (record {
  actor_id = none;
  org_id = none;
  workspace_id = none;
  timestamp = now;
  trace_id = "";
  span_id = "";
  parent_span_id = "";
  acquisition = none;
})

-- appendAcquisitionFinding
unfoldable pub append_acquisition_finding :
    Platform
    → Codec
    → String
    → List Record
    → FindingInfo
    → AcquisitionInfo
    → Result Error (List Record)
unfolding finding_payload
append_acquisition_finding pf c now rs f acq =
    append_with_options pf c rs acquisition_finding_type (finding_payload f acq)
      (finding_options now)

-- The errors of an import.
pub data ImportError : Type 0 where
  -- append finding, append event
  finding_not_appended : Error → ImportError
  event_not_appended : Error → ImportError
  -- a nil acquisition behind a finding is dereferenced
  nil_acquisition : ImportError

abbrev pub relabel :
    (Error → ImportError) → Result Error (List Record) → Result ImportError (List Record)
relabel f (err e) = err (f e)
relabel f (ok rs) = ok rs

unfoldable pub append_finding :
    Platform → Codec → String → List Record → ReconcileAction → Result ImportError (List Record)
unfolding append_acquisition_finding
append_finding pf c now rs a = elim a.finding [
  | none ↦ ok rs
  | some f ↦ elim a.event.acquisition [
    | none ↦ err nil_acquisition
    | some acq ↦ relabel finding_not_appended (append_acquisition_finding pf c now rs f acq)
  ]
]

unfoldable pub event_options : ImportEvent → Option AppendOptions
event_options ev = some (record {
  actor_id = none;
  org_id = none;
  workspace_id = none;
  timestamp = ev.timestamp;
  trace_id = ev.trace_id;
  span_id = ev.span_id;
  parent_span_id = ev.parent_span_id;
  acquisition = ev.acquisition;
})

unfoldable pub append_event :
    Platform → Codec → List Record → ImportEvent → Result ImportError (List Record)
unfolding event_options
append_event pf c rs ev =
    relabel event_not_appended
      (append_with_options pf c rs ev.type_id ev.payload (event_options ev))

-- What an action that is not skipped appends.
unfoldable pub write_action :
    Platform
    → Codec
    → (ℕ → String)
    → List Record
    → ReconcileAction
    → Result ImportError (List Record)
unfolding append_finding append_event
write_action pf c clock rs a =
    append_finding pf c (clock (length rs)) rs a >>= λ found. append_event pf c found a.event

-- The loop of applyReconciliation.
unfoldable pub apply_from :
    Platform
    → Codec
    → (ℕ → String)
    → List Record
    → ReconcileCounts
    → List ReconcileAction
    → Result ImportError (ReconcileCounts × List Record)
apply_from pf c clock rs counts [] = ok (counts, rs)
apply_from pf c clock rs counts (a ∷ rest) = elim a.skip [
  | true ↦ apply_from pf c clock rs counts rest
  | false ↦ write_action pf c clock rs a >>= λ longer.
      apply_from pf c clock longer (record counts { written = suc counts.written }) rest
]

-- applyReconciliation: the counts and the records of the bundle afterwards.
unfoldable pub apply_reconciliation :
    Platform
    → Codec
    → (ℕ → String)
    → List Record
    → ReconciliationPlan
    → Result ImportError (ReconcileCounts × List Record)
unfolding apply_from
apply_reconciliation pf c clock rs p = apply_from pf c clock rs p.counts p.actions

-- requireAcquisitionProfile; `false` is its error.
unfoldable pub require_acquisition_profile : Codec → List Record → Bool → Bool
require_acquisition_profile c rs created =
    created || elim (manifest c rs) [ none ↦ false | some m ↦ str_eq m.version "3" ]
