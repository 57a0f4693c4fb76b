-- ===== src/Acquisition/Import.antt =====
-- The events, actions and counts of an import (internal/acquisition/import_integration.go).
pub mod Plan
pub mod Write
pub mod Known
pub mod Sourced
pub mod Decide
pub mod Planned
pub mod Quiet
pub mod Apply
pub mod Again
pub mod Stamp
pub mod Capped
pub mod Run
pub mod Verified
pub mod Committed
use atb.Prelude.{
  ℕ, zero, suc, ◌+◌, ◌/◌, ◌%◌, String, concat, Bool, true, false, not, ◌&&◌, ◌||◌, List, [], ◌∷◌,
  Option, none, some, length, get_elem?, str_eq, ◌==◌, if◌then◌else◌,
}
use atb.Prelude.Map.{Map, lookup, put}
use atb.Prelude.Result.{Result, ok, err, ◌>>=◌}
use atb.Json.{Value, str, obj, end, field}
use atb.Canonicalize.{Platform}
use atb.Event.{AcquisitionInfo, CheckpointInfo}
use atb.Bundle.{Record, AppendOptions, Error, Codec, ManifestData}
use atb.Bundle.Manifest.{manifest}
use atb.Bundle.Append.{append_with_options}
use atb.Acquisition.Reconcile.{
  ReconciliationResult, new, unchanged, changed, unknown, FindingInfo, KnownRecord,
  ReconciliationOutcome, reconcile, identity_of, identity_key,
}

-- importEvent
pub record ImportEvent : Type 0 where
  pub type_id : String
  pub payload : Value
  pub timestamp : String
  pub trace_id : String
  pub span_id : String
  pub parent_span_id : String
  pub acquisition : Option AcquisitionInfo

-- committedBundleHead
abbrev pub committed_bundle_head : List Record → String
committed_bundle_head [] = ""
committed_bundle_head (r ∷ []) = r.hash
committed_bundle_head (r ∷ s ∷ rs) = committed_bundle_head (s ∷ rs)

-- reconcileCounts
pub record ReconcileCounts : Type 0 where
  pub written : ℕ
  pub new_count : ℕ
  pub changed : ℕ
  pub unchanged : ℕ
  pub unknown : ℕ

abbrev pub no_counts : ReconcileCounts
no_counts = record { written = 0; new_count = 0; changed = 0; unchanged = 0; unknown = 0 }

with_stream : String → CheckpointInfo → CheckpointInfo
with_stream stream c = record c { acquisition_stream = stream }

stamp_acquisition : String → AcquisitionInfo → AcquisitionInfo
unfolding with_stream
stamp_acquisition stream acq = record acq {
  checkpoint = elim acq.checkpoint [ none ↦ none | some c ↦ some (with_stream stream c) ];
}

stamp_event : String → ImportEvent → ImportEvent
unfolding stamp_acquisition
stamp_event stream ev = record ev {
  acquisition = elim ev.acquisition [ none ↦ none | some a ↦ some (stamp_acquisition stream a) ];
}

stamp_all : String → List ImportEvent → List ImportEvent
unfolding stamp_event
stamp_all stream [] = []
stamp_all stream (ev ∷ evs) = stamp_event stream ev ∷ stamp_all stream evs

-- stampAcquisitionStream: the events afterwards.
unfoldable pub stamp_acquisition_stream : List ImportEvent → String → List ImportEvent
unfolding stamp_all
stamp_acquisition_stream evs stream = if str_eq stream "" then evs else stamp_all stream evs

-- Whether an event names its source record, and the key under which it does.
abbrev pub source_key : Option AcquisitionInfo → Option String
source_key none = none
source_key (some acq) =
    if not (str_eq acq.source_record_id "") then some (identity_key (identity_of acq)) else none

-- The loop of uniqueSourceRecords over what it has seen.
unique_from : Map (Unit {0}) → ℕ → List ImportEvent → ℕ
unique_from seen n [] = n
unique_from seen n (ev ∷ evs) = elim (source_key ev.acquisition) [
  | none ↦ unique_from seen n evs
  | some key ↦ elim (lookup key seen) [
    | some u ↦ unique_from seen n evs
    | none ↦ unique_from (put key tt seen) (suc n) evs
  ]
]

-- uniqueSourceRecords
unfoldable pub unique_source_records : List ImportEvent → ℕ
unfolding unique_from
unique_source_records evs = unique_from [] 0 evs

-- reconcileAction
pub record ReconcileAction : Type 0 where
  pub event : ImportEvent
  pub finding : Option FindingInfo
  pub skip : Bool

-- reconciliationPlan
pub record ReconciliationPlan : Type 0 where
  pub actions : List ReconcileAction
  pub counts : ReconcileCounts

-- The loop of writesAcquisition.
abbrev pub writes_from : List ReconcileAction → Bool
writes_from [] = false
writes_from (a ∷ rest) =
    (not a.skip && elim a.event.acquisition [ none ↦ false | some acq ↦ true ]) || writes_from rest

-- writesAcquisition
abbrev pub writes_acquisition : ReconciliationPlan → Bool
writes_acquisition p = writes_from p.actions
