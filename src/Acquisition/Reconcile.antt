-- ===== src/Acquisition/Reconcile.antt =====
-- Reconciler (internal/acquisition/reconcile.go). A call returns the outcome and the known records that
-- it leaves.
pub mod Laws
pub mod Latest
use atb.Prelude.{
  ℕ, String, concat, Bool, true, false, ◌||◌, List, [], ◌∷◌, Option, none, some, str_eq,
  if◌then◌else◌,
}
use atb.Prelude.Int.{ℤ, pos, ltb_ℤ}
use atb.Prelude.Map.{Map, lookup, put}
use atb.Event.{SourceIdentity, AcquisitionInfo}
use atb.Bundle.{Record, manifest_event_type}

-- ReconciliationResult
pub data ReconciliationResult : Type 0 where
  new : ReconciliationResult
  unchanged : ReconciliationResult
  changed : ReconciliationResult
  unknown : ReconciliationResult

-- FindingInfo
pub record FindingInfo : Type 0 where
  pub flag : String
  pub severity : String
  pub title : String
  pub detail : String
  pub source_record_id : String
  pub previous_digest : String
  pub current_digest : String
  pub acquired_at : String
  pub acquired_at_previous : String

-- ReconciliationOutcome
pub record ReconciliationOutcome : Type 0 where
  pub result : ReconciliationResult
  pub previous_digest : String
  pub current_digest : String
  pub source_identity : SourceIdentity
  pub finding : Option FindingInfo

-- KnownRecord
pub record KnownRecord : Type 0 where
  pub source_identity : SourceIdentity
  pub digest : String
  pub acquired_at : String
  pub event_sequence : ℤ
  pub acquisition : Option AcquisitionInfo

-- identityKey
abbrev pub identity_key : SourceIdentity → String
identity_key id = concat id.system (concat ":" id.record_id)

-- The test for an identity that cannot be followed.
unfoldable pub is_unstable : SourceIdentity → Bool
is_unstable id = str_eq id.system "" || str_eq id.record_id ""

-- The text of Detail.
detail_of : SourceIdentity → String → String → String
detail_of id previous current = concat "Source record " (
    concat id.system (
      concat ":" (
        concat id.record_id (
          concat " was previously acquired with digest "
            (concat previous (concat ", now has digest " current))))))

changed_finding : SourceIdentity → String → String → KnownRecord → FindingInfo
unfolding detail_of
changed_finding id current at known = record {
  flag = "source_record_changed";
  severity = "high";
  title = "Source record representation changed";
  detail = detail_of id known.digest current;
  source_record_id = id.record_id;
  previous_digest = known.digest;
  current_digest = current;
  acquired_at = at;
  acquired_at_previous = known.acquired_at;
}

abbrev pub acquired : SourceIdentity → String → String → Option AcquisitionInfo → KnownRecord
acquired id digest at acquisition = record {
  source_identity = id;
  digest = digest;
  acquired_at = at;
  event_sequence = pos 0;
  acquisition = acquisition;
}

-- Reconcile behind the lookup of the key.
unfoldable pub against :
    Option KnownRecord
    → Map KnownRecord
    → SourceIdentity
    → String
    → String
    → Option AcquisitionInfo
    → ReconciliationOutcome × Map KnownRecord
unfolding changed_finding
against none m id digest at acquisition = (
  record {
    result = new;
    previous_digest = "";
    current_digest = digest;
    source_identity = id;
    finding = none;
  },
  put (identity_key id) (acquired id digest at acquisition) m,
)
against (some known) m id digest at acquisition =
    if str_eq known.digest digest
    then (
      record {
        result = unchanged;
        previous_digest = known.digest;
        current_digest = digest;
        source_identity = id;
        finding = none;
      },
      m,
    )
    else (
      record {
        result = changed;
        previous_digest = known.digest;
        current_digest = digest;
        source_identity = id;
        finding = some (changed_finding id digest at known);
      },
      put (identity_key id) (acquired id digest at acquisition) m,
    )

-- Reconcile; it never returns an error.
unfoldable pub reconcile :
    Map KnownRecord
    → SourceIdentity
    → String
    → String
    → Option AcquisitionInfo
    → ReconciliationOutcome × Map KnownRecord
unfolding against
reconcile m id digest at acquisition =
    if is_unstable id
    then (
      record {
        result = unknown;
        previous_digest = "";
        current_digest = digest;
        source_identity = id;
        finding = none;
      },
      m,
    )
    else against (lookup (identity_key id) m) m id digest at acquisition

-- GetKnownRecord
abbrev pub get_known_record : Map KnownRecord → SourceIdentity → Option KnownRecord
get_known_record m id = lookup (identity_key id) m

-- The identity that LoadFromBundle gives an acquired record.
abbrev pub identity_of : AcquisitionInfo → SourceIdentity
identity_of acq = record {
  system = acq.source_system;
  record_id = acq.source_record_id;
  derived = true;
}

abbrev pub loaded_record : AcquisitionInfo → ℤ → KnownRecord
loaded_record acq sequence = record {
  source_identity = identity_of acq;
  digest = acq.source_digest;
  acquired_at = acq.acquired_at;
  event_sequence = sequence;
  acquisition = some acq;
}

-- `!exists || sequence > existing.EventSequence`
abbrev pub is_later : ℤ → Option KnownRecord → Bool
is_later sequence none = true
is_later sequence (some existing) = ltb_ℤ existing.event_sequence sequence

pub keep_latest : Map KnownRecord → ℤ → AcquisitionInfo → Map KnownRecord
keep_latest m sequence acq =
    if is_unstable (identity_of acq)
    then m
    else if is_later sequence (lookup (identity_key (identity_of acq)) m)
    then put (identity_key (identity_of acq)) (loaded_record acq sequence) m
    else m

-- One round of LoadFromBundle.
unfoldable pub load_record : Map KnownRecord → Record → Map KnownRecord
unfolding keep_latest
load_record m r =
    if str_eq r.event.type_id manifest_event_type
    then m
    else elim r.event.acquisition [ none ↦ m | some acq ↦ keep_latest m r.event.sequence acq ]

-- LoadFromBundle
unfoldable pub load_from_bundle : Map KnownRecord → List Record → Map KnownRecord
unfolding load_record
load_from_bundle m [] = m
load_from_bundle m (r ∷ rs) = load_from_bundle (load_record m r) rs
