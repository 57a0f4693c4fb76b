-- ===== src/CaptureSession.antt =====
-- The capture coordinator (internal/proxy/capture.go): what one journal entry is checked for and becomes
-- in the bundle.
pub mod Drain
pub mod Recover
pub mod Pending
pub mod Commit
pub mod Settled
pub mod Loaded
pub mod Flushed
pub mod Runs
use atb.Prelude.{
  ℕ, suc, String, Bool, true, false, not, ◌&&◌, ◌||◌, List, [], ◌∷◌, Option, none, some, str_eq,
  if◌then◌else◌,
}
use atb.Prelude.Int.{ℤ}
use atb.Prelude.Map.{Map, lookup, put}
use atb.Prelude.Decimal.{format_int}
use atb.Prelude.Result.{Result, ok, err, ◌>>=◌, ◌>>◌, fail_if}
use atb.Json.{Value, null}
use atb.Canonicalize.{Platform, marshal}
use atb.Event.{AcquisitionInfo}
use atb.Bundle.{Record, AppendOptions, Error, Codec}
use atb.Bundle.Append.{append_with_options}
use atb.CaptureJournal.{Entry, JournalError}
use atb.CaptureStatus.{
  capture_source_system, capture_adapter, capture_adapter_version, capture_representation_version,
  is_live, digest_representation,
}

-- observationPayload; `payload` is its data.
pub record Observation : Type 0 where
  pub type_id : String
  pub payload : Option Value
  pub actor_id : Option String
  pub org_id : Option String
  pub workspace_id : Option String
  pub timestamp : String
  pub trace_id : String
  pub span_id : String
  pub parent_span_id : String

-- encoding/json on observations.
pub record ObservationCodec : Type 0 where
  pub encode : Observation → Option Value
  pub decode : Value → Option Observation

-- The errors of the coordinator.
pub data CaptureError : Type 0 where
  bundle_not_loaded : Error → CaptureError
  not_v3 : CaptureError
  checkpoint_binding : CaptureError
  bad_position : CaptureError
  continuity_lost : CaptureError
  not_accounted : String → CaptureError
  checkpoint_ahead : ℕ → ℤ → CaptureError
  wrong_source : String → CaptureError
  wrong_adapter : String → CaptureError
  wrong_adapter_version : String → CaptureError
  wrong_representation : String → CaptureError
  wrong_incarnation : String → CaptureError
  no_digest : String → CaptureError
  digest_mismatch : String → CaptureError
  different_digest : String → CaptureError
  not_decodable : CaptureError
  not_appended : Error → CaptureError
  bundle_not_saved : CaptureError
  checkpoint_not_saved : CaptureError
  record_not_found : String → CaptureError
  not_marshalled : CaptureError
  not_journalled : JournalError → CaptureError

compare_digest : Option String → Entry → Result CaptureError (Unit {0})
compare_digest none e = err (no_digest e.observation_id)
compare_digest (some d) e =
    fail_if (not (str_eq d e.representation_digest)) (digest_mismatch e.observation_id)

-- verifyEntryDigest; `ok` is a nil error.
unfoldable pub verify_entry_digest : Platform → Entry → Result CaptureError (Unit {0})
unfolding compare_digest
verify_entry_digest pf e = compare_digest (digest_representation pf e) e

-- validateEntry
unfoldable pub validate_entry : Platform → String → Entry → Result CaptureError (Unit {0})
validate_entry pf incarnation e = do
  fail_if (not (str_eq e.source_system capture_source_system)) (wrong_source e.source_system)
  fail_if (not (str_eq e.adapter capture_adapter)) (wrong_adapter e.adapter)
  fail_if (not (str_eq e.adapter_version capture_adapter_version))
      (wrong_adapter_version e.adapter_version)
  fail_if (not (str_eq e.representation_version capture_representation_version))
      (wrong_representation e.representation_version)
  fail_if (not (str_eq e.source_incarnation "") && not (str_eq e.source_incarnation incarnation))
      (wrong_incarnation e.source_incarnation)
  verify_entry_digest pf e

-- The loop of recover over all entries of the journal.
unfoldable pub validate_entries : Platform → String → List Entry → Result CaptureError (Unit {0})
validate_entries pf incarnation [] = ok tt
validate_entries pf incarnation (e ∷ es) =
    validate_entry pf incarnation e >> validate_entries pf incarnation es

-- present[id]
abbrev pub present : String → List Entry → Bool
present id [] = false
present id (e ∷ rest) = str_eq e.observation_id id || present id rest

-- The live record of an observation whose identifier has no entry.
unaccounted : List Entry → Option AcquisitionInfo → Option String
unaccounted es none = none
unaccounted es (some acq) =
    if str_eq acq.source_record_id ""
    then none
    else if not (is_live (some acq))
    then none
    else if present acq.source_record_id es
    then none
    else some acq.source_record_id

-- journalAccountsForEvidence: its loop over the records. Without a live record it finds nothing.
unfoldable pub journal_accounts_for_evidence :
    List Entry → List Record → Result CaptureError (Unit {0})
unfolding unaccounted
journal_accounts_for_evidence es [] = ok tt
journal_accounts_for_evidence es (r ∷ rs) = elim (unaccounted es r.event.acquisition) [
  | some id ↦ err (not_accounted id)
  | none ↦ journal_accounts_for_evidence es rs
]

-- One round of indexAcquisition.
abbrev pub index_record : Map String → Option AcquisitionInfo → Map String
index_record m none = m
index_record m (some acq) =
    if str_eq acq.source_record_id "" then m else put acq.source_record_id acq.source_digest m

abbrev pub index_from : Map String → List Record → Map String
index_from m [] = m
index_from m (r ∷ rs) = index_from (index_record m r.event.acquisition) rs

-- indexAcquisition
abbrev pub index_acquisition : List Record → Map String
index_acquisition rs = index_from [] rs

-- The acquisition of a materialised entry.
unfoldable pub live_acquisition : String → Entry → String → AcquisitionInfo
live_acquisition stream e digest = record {
  mode = "live";
  source_system = e.source_system;
  source_record_id = e.observation_id;
  source_timestamp = e.source_timestamp;
  acquired_at = e.observed_at;
  source_digest = digest;
  adapter = e.adapter;
  adapter_version = e.adapter_version;
  checkpoint = some (record {
    source_system = e.source_system;
    acquisition_stream = stream;
    position = format_int e.position;
    observed_at = e.observed_at;
    adapter = e.adapter;
    adapter_version = e.adapter_version;
  });
}

unfoldable pub observation_options : Observation → AcquisitionInfo → Option AppendOptions
observation_options p acq = some (record {
  actor_id = p.actor_id;
  org_id = p.org_id;
  workspace_id = p.workspace_id;
  timestamp = p.timestamp;
  trace_id = p.trace_id;
  span_id = p.span_id;
  parent_span_id = p.parent_span_id;
  acquisition = some acq;
})

abbrev pub or_null : Option Value → Value
or_null none = null
or_null (some v) = v

abbrev pub appended : Result Error (List Record) → Result CaptureError (List Record)
appended (err e) = err (not_appended e)
appended (ok rs) = ok rs

abbrev pub decoded : ObservationCodec → Option Value → Option Observation
decoded oc none = none
decoded oc (some v) = oc.decode v

-- appendMaterialised: the records of the bundle afterwards.
unfoldable pub append_materialised :
    Platform
    → Codec
    → ObservationCodec
    → String
    → List Record
    → Entry
    → Result CaptureError (List Record)
unfolding live_acquisition observation_options
append_materialised pf c oc stream rs e = elim (decoded oc e.payload) [
  | none ↦ err not_decodable
  | some p ↦ elim (digest_representation pf e) [
    | none ↦ err (no_digest e.observation_id)
    | some digest ↦
        fail_if (not (str_eq digest e.representation_digest)) (digest_mismatch e.observation_id)
        >> appended (
            append_with_options pf c rs p.type_id (or_null p.payload)
              (observation_options p (live_acquisition stream e digest)))
  ]
]
