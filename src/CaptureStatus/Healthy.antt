-- ===== src/CaptureStatus/Healthy.antt =====
-- A healthy capture (internal/proxy/status.go), described without the cases of the switch.
use atb.Prelude.{
  ℕ, zero, suc, ◌<◌, ◌≡◌, ◌⊎◌, inl, inr, refl, ap, subst, String, Bool, true, false, not, ◌&&◌,
  List, [], ◌∷◌, Option, none, some, All, length, ◌==◌, eq_iff, arith,
}
use atb.Prelude.Int.{pos}
use atb.Prelude.Result.{Result, ok, err, is_ok, ok_injective}
use atb.Canonicalize.{Platform}
use atb.Bundle.{Record, Codec, ManifestData}
use atb.Bundle.Manifest.{manifest}
use atb.Acquisition.Checkpoint.{Checkpoint, CheckpointError, validate}
use atb.CaptureJournal.{Entry, JournalError}
use atb.CaptureJournal.Read.{is_some}
use atb.CaptureJournal.Append.{last_position}
use atb.CaptureStatus.{
  verified, Readings, capture_source, version_three, has_acquisition, checkpoint_unreadable,
  read_capture_status, entries_of, was_repaired, committed_of, or_zero,
}
use atb.CaptureStatus.Position.{checkpoint_position}
use atb.CaptureStatus.Laws.{is_healthy, Passed, read_capture_status-Passed, level}
use atb.CaptureStatus.Contract.{IsOfCapture, IsOfRun, NamesRecord, consistent, bound_by}

-- The readings of a healthy capture: the manifest, the journal with its one incarnation, and the
-- checkpoint with its position.
pub record IsHealthy (pf : Platform) (c : Codec) (stream : String) (r : Readings) (rs : List Record)
    : Type 0 where
  pub m : ManifestData
  pub declared : manifest c rs ≡ some m
  pub version : m.version ≡ "3"
  pub unmarked : r.degradation ≡ none
  pub entries : List Entry
  pub journal_read : r.journal ≡ ok (entries, false)
  pub of_capture : All (IsOfCapture pf) entries
  pub incarnation : String
  pub one_run : All (λ e. e.source_incarnation ≡ incarnation) entries
  pub one_source : IsOfRun incarnation entries r.checkpoint
  pub cp : Checkpoint
  pub checkpoint_read : r.checkpoint ≡ ok cp
  pub checkpoint_valid : validate cp (capture_source stream) ≡ ok tt
  pub committed : ℕ
  pub position_read : checkpoint_position cp.position ≡ some committed
  pub caught_up : last_position entries ≡ pos committed
  pub bound :
      NamesRecord cp rs
      ⊎ ((committed ≡ 0) × (cp.bundle_head_hash ≡ "") × (cp.bundle_record_count ≡ pos 0))
  pub established : (0 < committed) ⊎ (0 < length entries)

declared_v3 :
    (o : Option ManifestData)
    → version_three o ≡ true
    → (m : ManifestData) × (o ≡ some m) × (m.version ≡ "3")
declared_v3 none h = cc
declared_v3 (some m) h = (m, refl, (eq_iff m.version "3").0 h)

none_set : (o : Option String) → is_some o ≡ false → o ≡ none
none_set none h = refl
none_set (some s) h = absurd (ground arith)

read_whole :
    (o : Result JournalError (List Entry × Bool))
    → is_ok o ≡ true
    → was_repaired o ≡ false
    → o ≡ ok (entries_of o, false)
read_whole (err e) h g = cc
read_whole (ok (es, repaired)) h g = ap (λ b. ok (es, b)) g

valid_ok : (o : Result CheckpointError (Unit {0})) → is_ok o ≡ true → o ≡ ok tt
valid_ok (err e) h = cc
valid_ok (ok tt) h = refl

present : (o : Option ℕ) → not (is_some o) ≡ false → o ≡ some (or_zero o)
present none h = absurd (ground arith)
present (some n) h = refl

read_position :
    (o : Result CheckpointError Checkpoint) (cp : Checkpoint)
    → o ≡ ok cp
    → checkpoint_unreadable o ≡ false
    → checkpoint_position cp.position ≡ some (or_zero (committed_of o))
unfolding checkpoint_unreadable
read_position (err x) cp q h = cc
read_position (ok found) cp q h =
    subst
      (λ x. checkpoint_position x.position ≡ some (or_zero (checkpoint_position found.position)))
      (ok_injective q) (present (checkpoint_position found.position) h)

established_by :
    (committed : ℕ) (es : List Entry) (acquired : Bool)
    → (committed == 0 && (length es == 0 && acquired)) ≡ false
    → (committed == 0 && (length es == 0 && not acquired)) ≡ false
    → (0 < committed) ⊎ (0 < length es)
established_by (suc n) es acquired p q = inl (omega arith)
established_by zero (e ∷ es) acquired p q = inr (omega arith)
established_by zero [] true p q = absurd (ground arith)
established_by zero [] false p q = absurd (ground arith)

Passed-IsHealthy :
    (pf : Platform) (c : Codec) (stream : String) (r : Readings) (rs : List Record)
    → Passed pf c stream r rs
    → IsHealthy pf c stream r rs
Passed-IsHealthy pf c stream r rs g =
    let (m, declared, version) = declared_v3 (manifest c rs) g.version in
    let (all, i, one_run, one_source) =
      consistent pf (entries_of r.journal) r.checkpoint g.consistent in
    record {
      m = m;
      declared = declared;
      version = version;
      unmarked = none_set r.degradation g.not_degraded;
      entries = entries_of r.journal;
      journal_read = read_whole r.journal g.journal_read g.not_repaired;
      of_capture = all;
      incarnation = i;
      one_run = one_run;
      one_source = one_source;
      cp = g.cp;
      checkpoint_read = g.checkpoint_read;
      checkpoint_valid = valid_ok (validate g.cp (capture_source stream)) g.checkpoint_valid;
      committed = or_zero (committed_of r.checkpoint);
      position_read = read_position r.checkpoint g.cp g.checkpoint_read g.position_read;
      caught_up =
          level (last_position (entries_of r.journal)) (or_zero (committed_of r.checkpoint))
            g.not_behind g.no_backlog;
      bound = bound_by g.cp rs (or_zero (committed_of r.checkpoint)) g.bound g.not_unbound;
      established =
          established_by (or_zero (committed_of r.checkpoint)) (entries_of r.journal)
            (has_acquisition rs) g.not_empty g.established;
    }

-- A status says healthy only if the bundle is verified and declares manifest version 3, no loss is
-- marked, the journal was read without a repair, its entries are observations of this capture and of
-- one incarnation with the digests of their payloads, the checkpoint is one of this capture, its
-- position is that of the last entry, it has their incarnation or none if there are entries, and it
-- names a record of the bundle by hash and count, or it has position 0 and names none. The position is
-- above 0 or there are entries. The status then reports no known gap, and the journal's last position
-- is the committed one.
pub read_capture_status-IsHealthy :
    (pf : Platform) (c : Codec) (stream : String) (r : Readings)
    → is_healthy (read_capture_status pf c stream r).capture_state ≡ true
    → (rs : List Record) × (r.bundle ≡ verified rs)
      × IsHealthy pf c stream r rs
      × ((read_capture_status pf c stream r).known_gap ≡ false)
      × ((read_capture_status pf c stream r).journal_last_position
          ≡ (read_capture_status pf c stream r).committed_position)
read_capture_status-IsHealthy pf c stream r h =
    let (rs, file, passed, gap, same) = read_capture_status-Passed pf c stream r h in
    (rs, file, Passed-IsHealthy pf c stream r rs passed, gap, same)
