-- ===== src/CaptureJournal.antt =====
-- internal/capturejournal/journal.go: the entries of the journal of observations, their hashes, and what
-- is on disk beside the journal.
pub mod Space
pub mod Read
pub mod Append
use atb.Prelude.{ℕ, ◌*◌, String, List, Option, none, some, str_eq, if◌then◌else◌}
use atb.Prelude.Int.{ℤ, pos}
use atb.Json.{Value, Fields, int, str, obj, end, field}
use atb.Canonicalize.{Platform}
use atb.Event.{Event, omit_empty}
use atb.HashChain.{compute}

-- JournalFormatVersion
abbrev pub journal_format_version : ℤ
journal_format_version = pos 1

-- maxLineBytes
abbrev pub max_line_bytes : ℕ
max_line_bytes = 16 * 1024 * 1024

-- Entry. The payload is the JSON value that its bytes stand for, `none` for bytes that are no JSON.
pub record Entry : Type 0 where
  pub format_version : ℤ
  pub position : ℤ
  pub prev_hash : String
  pub observation_id : String
  pub source_system : String
  pub source_incarnation : String
  pub representation_version : String
  pub representation_digest : String
  pub observation_type : String
  pub payload : Option Value
  pub source_timestamp : String
  pub observed_at : String
  pub adapter : String
  pub adapter_version : String
  pub hash : String

-- hashable, as the JSON object that encoding/json makes of it.
hashable : Entry → Value → Value
unfolding omit_empty
hashable e payload = obj (
    field "position" (int e.position) (
      field "observation_id" (str e.observation_id) (
        field "source_system" (str e.source_system) (
          omit_empty "source_incarnation" e.source_incarnation (
            field "representation_version" (str e.representation_version) (
              field "representation_digest" (str e.representation_digest) (
                field "observation_type" (str e.observation_type) (
                  field "payload" payload (
                    omit_empty "source_timestamp" e.source_timestamp (
                      field "observed_at" (str e.observed_at) (
                        field "adapter" (str e.adapter)
                          (field "adapter_version" (str e.adapter_version) end))))))))))))

-- The event that stands for the entry in the hash chain.
entry_event : Entry → Value → Event
unfolding hashable
entry_event e payload = record {
  sequence = e.position;
  prev_hash = e.prev_hash;
  type_id = "atb.capture.journal.entry";
  hash_algo = "";
  payload = hashable e payload;
  actor_id = none;
  org_id = none;
  workspace_id = none;
  timestamp = "";
  trace_id = "";
  span_id = "";
  parent_span_id = "";
  acquisition = none;
}

-- computeHash
unfoldable pub compute_hash : Platform → Entry → Option String
unfolding entry_event
compute_hash pf e = elim e.payload [
  | none ↦ none
  | some payload ↦ compute pf (entry_event e payload)
]

-- The errors of the package, with what their messages report, and the other errors of Append.
pub data JournalError : Type 0 where
  not_an_entry : ℕ → JournalError
  unsupported_version : ℤ → JournalError
  wrong_position : ℕ → ℤ → ℕ → JournalError
  wrong_prev_hash : ℕ → JournalError
  wrong_hash : ℕ → JournalError
  no_hash : JournalError
  line_overflow : JournalError
  too_large : ℕ → JournalError
  closed : JournalError
  failed_before : JournalError
  no_observation_id : JournalError
  write_error : JournalError
  sync_error : JournalError

-- encoding/json on entries.
pub record EntryCodec : Type 0 where
  pub encode : Entry → List ℕ
  pub decode : List ℕ → Option Entry

-- The files at the journal's path: the journal, the repair marker (with the number of discarded bytes),
-- and the marker of lost observations (with its reason, without the numbers that its text quotes).
pub record Disk : Type 0 where
  pub file : Option (List ℕ)
  pub repair_marker : Option ℕ
  pub degraded_marker : Option String
