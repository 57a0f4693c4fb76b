-- ===== src/CaptureSession/Commit.antt =====
-- journalObservation and commit (internal/proxy/capture.go).
use atb.Prelude.{String, concat, true, none, some, if◌then◌else◌}
use atb.Prelude.Int.{pos}
use atb.Prelude.Decimal.{format_int}
use atb.Prelude.Result.{Result, ok, err}
use atb.Json.{Value}
use atb.Canonicalize.{Platform}
use atb.Event.{Event}
use atb.Bundle.{Codec}
use atb.CaptureJournal.{Entry, JournalError, EntryCodec, Disk}
use atb.CaptureJournal.Read.{Journal}
use atb.CaptureJournal.Append.{Io, last_position, next_int, append, mark_degraded}
use atb.CaptureStatus.{
  healthy, degraded, capture_source_system, capture_adapter, capture_adapter_version,
  capture_representation_version, digest_representation,
}
use atb.CaptureSession.{
  CaptureError, not_marshalled, not_journalled, no_digest, Observation, ObservationCodec,
}
use atb.CaptureSession.Recover.{Coordinator, Store, Outside}
use atb.CaptureSession.Pending.{commit_pending}

-- The observation of an event.
abbrev pub observation_of : Event → Observation
observation_of ev = record {
  type_id = ev.type_id;
  payload = some ev.payload;
  actor_id = ev.actor_id;
  org_id = ev.org_id;
  workspace_id = ev.workspace_id;
  timestamp = ev.timestamp;
  trace_id = ev.trace_id;
  span_id = ev.span_id;
  parent_span_id = ev.parent_span_id;
}

-- "%s/%s:%d" of incarnation, stream and position.
unfoldable pub new_observation_id : Coordinator → String
new_observation_id k = concat k.incarnation (
    concat "/"
      (concat k.stream_id (concat ":" (format_int (next_int (last_position k.journal.entries))))))

-- The entry that journalObservation appends, its digest left open.
unfoldable pub journal_entry : Coordinator → Event → Value → String → Entry
journal_entry k ev payload now = record {
  format_version = pos 0;
  position = pos 0;
  prev_hash = "";
  observation_id = new_observation_id k;
  source_system = capture_source_system;
  source_incarnation = k.incarnation;
  representation_version = capture_representation_version;
  representation_digest = "";
  observation_type = ev.type_id;
  payload = some payload;
  source_timestamp = ev.timestamp;
  observed_at = now;
  adapter = capture_adapter;
  adapter_version = capture_adapter_version;
  hash = "";
}

journalled :
    Result JournalError Entry × (Journal × Disk) → Result CaptureError Entry × (Journal × Disk)
journalled (err e, rest) = (err (not_journalled e), rest)
journalled (ok e, rest) = (ok e, rest)

-- journalObservation: the entry or the error, and the journal in memory and on disk.
unfoldable pub journal_observation :
    Platform
    → EntryCodec
    → ObservationCodec
    → Io
    → Coordinator
    → Disk
    → Event
    → String
    → Result CaptureError Entry × (Journal × Disk)
unfolding journalled journal_entry new_observation_id
journal_observation pf ec oc io k d ev now = elim (oc.encode (observation_of ev)) [
  | none ↦ (err not_marshalled, (k.journal, mark_degraded "capture: marshal event data" d))
  | some payload ↦ elim (digest_representation pf (journal_entry k ev payload now)) [
    | none ↦ (
      err (no_digest (new_observation_id k)),
      (k.journal, mark_degraded "capture: canonicalize observation" d),
    )
    | some digest ↦ journalled (
        append pf ec io k.journal d
          (record (journal_entry k ev payload now) { representation_digest = digest }))
  ]
]

-- fail
abbrev pub fail : CaptureError → Coordinator → Coordinator
fail e k = record k { last_err = some e; state = degraded }

-- commit behind commitPending; `now` is the time of its end.
settle_commit :
    Entry
    → String
    → Result CaptureError String × (Coordinator × Store)
    → Result CaptureError String × (Coordinator × Store)
settle_commit e now (err x, (k, st)) = (err x, (fail x k, st))
settle_commit e now (ok h, (k, st)) = (
  ok h,
  (
    record k {
      last_err = none;
      last_observation_at = e.observed_at;
      last_commit_at = now;
      state = if k.known_gap then degraded else healthy;
    },
    st,
  ),
)

-- captureCoordinator.commit: the hash or the error, the coordinator, and the files.
unfoldable pub commit :
    Platform
    → Codec
    → EntryCodec
    → ObservationCodec
    → Io
    → Coordinator
    → Outside
    → Store
    → Disk
    → Event
    → Result CaptureError String × (Coordinator × (Store × Disk))
unfolding settle_commit
commit pf c ec oc io k o st d ev =
    let (result, (j, d')) = journal_observation pf ec oc io k d ev o.now in
    let k' = record k { journal = j } in
    elim result [
      | err x ↦ (err x, (fail x (record k' { known_gap = true }), (st, d')))
      | ok e ↦
          let (r, (k'', st')) =
            settle_commit e o.now (commit_pending pf c oc k' o st e.observation_id) in
          (r, (k'', (st', d')))
    ]
