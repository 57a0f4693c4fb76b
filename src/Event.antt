-- ===== src/Event.antt =====
-- internal/event/event.go: the event that hashes and bundles share, and the JSON object that
-- encoding/json makes of it by the struct tags.
use atb.Prelude.{String, Bool, Option, none, some, str_eq, if◌then◌else◌}
use atb.Prelude.Int.{ℤ}
use atb.Json.{Value, int, str, obj, Fields, end, field}

-- CheckpointInfo
pub record CheckpointInfo : Type 0 where
  pub source_system : String
  pub acquisition_stream : String
  pub position : String
  pub observed_at : String
  pub adapter : String
  pub adapter_version : String

-- AcquisitionInfo
pub record AcquisitionInfo : Type 0 where
  pub mode : String
  pub source_system : String
  pub source_record_id : String
  pub source_timestamp : String
  pub acquired_at : String
  pub source_digest : String
  pub adapter : String
  pub adapter_version : String
  pub checkpoint : Option CheckpointInfo

-- SourceIdentity
pub record SourceIdentity : Type 0 where
  pub system : String
  pub record_id : String
  pub derived : Bool

-- Event
pub record Event : Type 0 where
  pub sequence : ℤ
  pub prev_hash : String
  pub type_id : String
  pub hash_algo : String
  pub payload : Value
  pub actor_id : Option String
  pub org_id : Option String
  pub workspace_id : Option String
  pub timestamp : String
  pub trace_id : String
  pub span_id : String
  pub parent_span_id : String
  pub acquisition : Option AcquisitionInfo

-- A string field with `omitempty`.
unfoldable pub omit_empty : String → String → Fields → Fields
omit_empty k s rest = if str_eq s "" then rest else field k (str s) rest

-- A pointer field with `omitempty`.
omit_nil : String → Option String → Fields → Fields
omit_nil k none rest = rest
omit_nil k (some s) rest = field k (str s) rest

checkpoint_value : CheckpointInfo → Value
unfolding omit_empty
checkpoint_value c = obj (
    field "source_system" (str c.source_system) (
      field "acquisition_stream" (str c.acquisition_stream) (
        field "position" (str c.position) (
          field "observed_at" (str c.observed_at) (
            field "adapter" (str c.adapter)
              (omit_empty "adapter_version" c.adapter_version end))))))

omit_checkpoint : Option CheckpointInfo → Fields
unfolding checkpoint_value
omit_checkpoint none = end
omit_checkpoint (some c) = field "checkpoint" (checkpoint_value c) end

acquisition_value : AcquisitionInfo → Value
unfolding omit_empty omit_checkpoint
acquisition_value a = obj (
    omit_empty "mode" a.mode (
      omit_empty "source_system" a.source_system (
        omit_empty "source_record_id" a.source_record_id (
          omit_empty "source_timestamp" a.source_timestamp (
            omit_empty "acquired_at" a.acquired_at (
              omit_empty "source_digest" a.source_digest (
                omit_empty "adapter" a.adapter (
                  omit_empty "adapter_version" a.adapter_version
                    (omit_checkpoint a.checkpoint)))))))))

omit_acquisition : Option AcquisitionInfo → Fields
unfolding acquisition_value
omit_acquisition none = end
omit_acquisition (some a) = field "acquisition" (acquisition_value a) end

-- json.Marshal of an event, as the value that json.Unmarshal reads back.
unfoldable pub event_value : Event → Value
unfolding omit_empty omit_nil omit_acquisition
event_value e = obj (
    field "seq" (int e.sequence) (
      field "prev_hash" (str e.prev_hash) (
        field "type" (str e.type_id) (
          omit_empty "hash_algo" e.hash_algo (
            field "data" e.payload (
              omit_nil "actor_id" e.actor_id (
                omit_nil "org_id" e.org_id (
                  omit_nil "workspace_id" e.workspace_id (
                    omit_empty "timestamp" e.timestamp (
                      omit_empty "trace_id" e.trace_id (
                        omit_empty "span_id" e.span_id (
                          omit_empty "parent_span_id" e.parent_span_id
                            (omit_acquisition e.acquisition)))))))))))))
