-- ===== src/CaptureStatus.antt =====
-- ReadCaptureStatus (internal/proxy/status.go) and what it calls in internal/proxy/capture.go: the offline
-- view of a capture run, as a function of what the packages below it have read.
pub mod Position
pub mod Decimal
pub mod Laws
pub mod Contract
pub mod Healthy
use atb.Prelude.{
  ℕ, zero, suc, ◌-◌, String, Bool, true, false, not, ◌&&◌, ◌||◌, List, [], ◌∷◌, Option, none, some,
  length, ltb, get_elem?, ◌==◌, str_eq, if◌then◌else◌,
}
use atb.Prelude.Int.{ℤ, pos, negsuc, ltb_ℤ, eqb_ℤ}
use atb.Prelude.Result.{Result, ok, err, is_ok}
use atb.Canonicalize.{Platform, marshal}
use atb.Event.{AcquisitionInfo}
use atb.Bundle.{Record, Codec, ManifestData}
use atb.Bundle.Manifest.{manifest}
use atb.Acquisition.Checkpoint.{Checkpoint, CheckpointError, Source, not_found, validate}
use atb.CaptureJournal.{Entry, JournalError}
use atb.CaptureJournal.Read.{is_some}
use atb.CaptureJournal.Append.{last_position}
use atb.CaptureStatus.Position.{checkpoint_position}

-- captureState, and the state that is written as "not_established"
pub data CaptureState : Type 0 where
  healthy : CaptureState
  recovery_required : CaptureState
  degraded : CaptureState
  unknown : CaptureState
  not_established : CaptureState

-- LoadVerified on the bundle's path.
pub data BundleFile : Type 0 where
  missing : BundleFile
  unverified : BundleFile
  verified : List Record → BundleFile

-- What is read: the marker of lost observations with its reason, the bundle, the journal, and the
-- checkpoint.
pub record Readings : Type 0 where
  pub degradation : Option String
  pub bundle : BundleFile
  pub journal : Result JournalError (List Entry × Bool)
  pub checkpoint : Result CheckpointError Checkpoint

-- CaptureStatus, without the paths, the fields that only copy or name what was read, and the texts of
-- Detail; `observed` stands for an observation currency of "unknown" instead of "none".
pub record CaptureStatus : Type 0 where
  pub capture_state : CaptureState
  pub journal_entries : ℕ
  pub journal_last_position : ℤ
  pub committed_position : ℤ
  pub journal_backlog : ℤ
  pub observed : Bool
  pub known_gap : Bool
  pub possible_unknown_gap : Bool

abbrev pub capture_source_system : String
capture_source_system = "atb.proxy"

abbrev pub capture_adapter : String
capture_adapter = "atb.intercept"

abbrev pub capture_adapter_version : String
capture_adapter_version = "1.0.0"

abbrev pub capture_representation_version : String
capture_representation_version = "atb.intercept.event.v1"

-- What the capture's checkpoint is validated against.
abbrev pub capture_source : String → Source
capture_source stream = record {
  system = capture_source_system;
  stream = stream;
  adapter = capture_adapter;
  adapter_version = capture_adapter_version;
  incarnation = "";
  identity = record { system = ""; record_id = ""; derived = false };
}

-- The test of a record for live acquisition by this capture.
abbrev pub is_live : Option AcquisitionInfo → Bool
is_live none = false
is_live (some a) =
    str_eq a.mode "live"
    && (str_eq a.source_system capture_source_system && str_eq a.adapter capture_adapter)

abbrev pub has_acquisition : List Record → Bool
has_acquisition [] = false
has_acquisition (r ∷ rs) = is_live r.event.acquisition || has_acquisition rs

abbrev pub version_three : Option ManifestData → Bool
version_three none = false
version_three (some m) = str_eq m.version "3"

-- digestRepresentation
unfoldable pub digest_representation : Platform → Entry → Option String
digest_representation pf e = elim e.payload [
  | none ↦ none
  | some payload ↦ elim (marshal pf payload) [ none ↦ none | some text ↦ some (pf.sha256_hex text) ]
]

unfoldable pub has_digest : Option String → Entry → Bool
has_digest none e = false
has_digest (some d) e = str_eq d e.representation_digest

-- The contract of one entry.
unfoldable pub is_of_capture : Platform → Entry → Bool
unfolding digest_representation has_digest
is_of_capture pf e =
    str_eq e.source_system capture_source_system
    && (str_eq e.adapter capture_adapter
        && (str_eq e.adapter_version capture_adapter_version
            && (str_eq e.representation_version capture_representation_version
                && has_digest (digest_representation pf e) e)))

abbrev pub all_of_capture : Platform → List Entry → Bool
all_of_capture pf [] = true
all_of_capture pf (e ∷ es) = is_of_capture pf e && all_of_capture pf es

-- Whether all entries have one incarnation: len(seenIncarnation) is at most 1.
abbrev pub one_incarnation : String → List Entry → Bool
one_incarnation i [] = true
one_incarnation i (e ∷ es) = str_eq e.source_incarnation i && one_incarnation i es

abbrev pub seen_incarnation : String → List Entry → Bool
seen_incarnation i [] = false
seen_incarnation i (e ∷ es) = str_eq e.source_incarnation i || seen_incarnation i es

unfoldable pub foreign_checkpoint : List Entry → Result CheckpointError Checkpoint → Bool
foreign_checkpoint es (err x) = false
foreign_checkpoint es (ok cp) =
    not (str_eq cp.source_incarnation "") && not (seen_incarnation cp.source_incarnation es)

-- journalInconsistent
unfoldable pub journal_inconsistent :
    Platform → List Entry → Result CheckpointError Checkpoint → Bool
unfolding foreign_checkpoint
journal_inconsistent pf [] cp = false
journal_inconsistent pf (e ∷ es) cp =
    not (all_of_capture pf (e ∷ es))
    || (not (one_incarnation e.source_incarnation es) || foreign_checkpoint (e ∷ es) cp)

-- validateCheckpointPrefix; true is a nil error.
unfoldable pub head_at : String → Option Record → Bool
head_at h none = false
head_at h (some r) = str_eq r.hash h

unfoldable pub valid_prefix : Checkpoint → List Record → Bool
unfolding head_at
valid_prefix cp rs =
    if str_eq cp.bundle_head_hash "" && eqb_ℤ cp.bundle_record_count (pos 0)
    then true
    else if str_eq cp.bundle_head_hash "" || not (ltb_ℤ (pos 0) cp.bundle_record_count)
    then false
    else elim cp.bundle_record_count [
      | negsuc n ↦ false
      | pos n ↦
          if ltb (length rs) n then false else head_at cp.bundle_head_hash (get_elem? rs (n - 1))
    ]

-- The committed position, none if the checkpoint's is malformed.
abbrev committed_of : Result CheckpointError Checkpoint → Option ℕ
committed_of (err x) = some 0
committed_of (ok cp) = checkpoint_position cp.position

abbrev or_zero : Option ℕ → ℕ
or_zero none = 0
or_zero (some n) = n

abbrev is_missing : CheckpointError → Bool
is_missing not_found = true
is_missing _ = false

-- checkpointUnreadable
unfoldable pub checkpoint_unreadable : Result CheckpointError Checkpoint → Bool
checkpoint_unreadable (err x) = not (is_missing x)
checkpoint_unreadable (ok cp) = not (is_some (checkpoint_position cp.position))

unfoldable pub checkpoint_mismatch : String → Result CheckpointError Checkpoint → Bool
checkpoint_mismatch stream (err x) = false
checkpoint_mismatch stream (ok cp) = not (is_ok (validate cp (capture_source stream)))

-- JournalBacklog
abbrev pub backlog : ℤ → ℕ → ℤ
backlog (pos last) committed = if ltb committed last then pos (last - committed) else pos 0
backlog (negsuc n) committed = pos 0

abbrev entries_of : Result JournalError (List Entry × Bool) → List Entry
entries_of (err x) = []
entries_of (ok x) = x.0

abbrev last_observed_at : List Entry → String
last_observed_at [] = ""
last_observed_at (e ∷ []) = e.observed_at
last_observed_at (e ∷ f ∷ es) = last_observed_at (f ∷ es)

abbrev was_repaired : Result JournalError (List Entry × Bool) → Bool
was_repaired (err x) = false
was_repaired (ok x) = x.1

-- A case of the switch: the state, whether it sets known_gap, and whether possible_unknown_gap.
abbrev pub Verdict : Type 0
Verdict = CaptureState × (Bool × Bool)

-- The cases where a checkpoint is there, or none.
with_checkpoint :
    String → Result CheckpointError Checkpoint → List Record → ℕ → Bool → Verdict → Verdict
with_checkpoint stream (err x) rs committed acquired otherwise = otherwise
with_checkpoint stream (ok cp) rs committed acquired otherwise =
    if not (is_ok (validate cp (capture_source stream)))
    then (degraded, (false, false))
    else if ltb 0 committed
        && (str_eq cp.bundle_head_hash "" || eqb_ℤ cp.bundle_record_count (pos 0))
    then (degraded, (false, true))
    else if not (valid_prefix cp rs)
    then (degraded, (false, false))
    else (healthy, (false, false))

-- The switch.
unfoldable pub assess : Platform → Codec → String → Readings → List Record → Verdict
unfolding with_checkpoint
assess pf c stream r rs =
    let es = entries_of r.journal in
    let committed = or_zero (committed_of r.checkpoint) in
    let acquired = has_acquisition rs in
    if not (version_three (manifest c rs))
    then (degraded, (false, false))
    else if not (is_ok r.journal)
    then (degraded, (true, false))
    else if is_some r.degradation
    then (degraded, (true, false))
    else if was_repaired r.journal
    then (degraded, (true, false))
    else if journal_inconsistent pf es r.checkpoint
    then (degraded, (true, false))
    else if checkpoint_unreadable r.checkpoint
    then (degraded, (false, false))
    else if ltb_ℤ (last_position es) (pos committed)
    then (degraded, (false, true))
    else if checkpoint_mismatch stream r.checkpoint
    then (degraded, (false, false))
    else if committed == 0 && (length es == 0 && acquired)
    then (degraded, (false, true))
    else if committed == 0 && (length es == 0 && not acquired)
    then (not_established, (false, false))
    else if ltb_ℤ (pos 0) (backlog (last_position es) committed)
    then (recovery_required, (false, false))
    else with_checkpoint stream r.checkpoint rs committed acquired (
        if length es == 0 && not acquired
        then (not_established, (false, false))
        else if acquired
        then (unknown, (false, true))
        else (unknown, (false, false)))

-- The status before the bundle is read.
unread : Readings → CaptureState → CaptureStatus
unread r state = record {
  capture_state = state;
  journal_entries = 0;
  journal_last_position = pos 0;
  committed_position = pos 0;
  journal_backlog = pos 0;
  observed = false;
  known_gap = is_some r.degradation;
  possible_unknown_gap = false;
}

-- The status of a bundle that was verified.
pub assessed : Platform → Codec → String → Readings → List Record → CaptureStatus
assessed pf c stream r rs =
    let es = entries_of r.journal in
    let committed = or_zero (committed_of r.checkpoint) in
    let verdict = assess pf c stream r rs in
    record {
      capture_state = verdict.0;
      journal_entries = length es;
      journal_last_position = last_position es;
      committed_position = pos committed;
      journal_backlog = backlog (last_position es) committed;
      observed = not (str_eq (last_observed_at es) "") || (has_acquisition rs || ltb 0 committed);
      known_gap = is_some r.degradation || (not (is_ok r.journal) || verdict.1.0);
      possible_unknown_gap = verdict.1.1;
    }

status_of : Platform → Codec → String → Readings → BundleFile → CaptureStatus
unfolding unread assessed assess
status_of pf c stream r missing = unread r (if is_some r.degradation then degraded else unknown)
status_of pf c stream r unverified = unread r degraded
status_of pf c stream r (verified rs) = assessed pf c stream r rs

-- ReadCaptureStatus for the stream of the bundle.
unfoldable pub read_capture_status : Platform → Codec → String → Readings → CaptureStatus
unfolding status_of
read_capture_status pf c stream r = status_of pf c stream r r.bundle
