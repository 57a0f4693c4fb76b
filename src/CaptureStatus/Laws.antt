-- ===== src/CaptureStatus/Laws.antt =====
-- The cases that a healthy capture status has passed over (internal/proxy/status.go).
use atb.Prelude.{
  ℕ, ◌≡◌, refl, ap, String, Bool, true, false, not, ◌&&◌, ◌||◌, List, length, ltb, ◌==◌, str_eq,
  double_negative, if◌then◌else◌, arith,
}
use atb.Prelude.Int.{ℤ, pos, negsuc, ltb_ℤ, eqb_ℤ}
use atb.Prelude.Result.{Result, ok, err, is_ok}
use atb.Canonicalize.{Platform}
use atb.Bundle.{Record, Codec}
use atb.Bundle.Manifest.{manifest}
use atb.Acquisition.Checkpoint.{Checkpoint, CheckpointError, validate}
use atb.CaptureJournal.Read.{is_some}
use atb.CaptureJournal.Append.{last_position}
use atb.CaptureStatus.{
  CaptureState, healthy, recovery_required, degraded, unknown, not_established, BundleFile, missing,
  unverified, verified, Readings, Verdict, capture_source, version_three, has_acquisition,
  journal_inconsistent, valid_prefix, checkpoint_unreadable, checkpoint_mismatch, backlog,
  entries_of, was_repaired, committed_of, or_zero, with_checkpoint, assess, assessed, status_of,
  unread, read_capture_status,
}

abbrev pub is_healthy : CaptureState → Bool
is_healthy healthy = true
is_healthy _ = false

-- A case that is not healthy was passed over, and the gap is reported as it is by the cases behind it.
past :
    (b : Bool) (v w : Verdict)
    → is_healthy v.0 ≡ false
    → is_healthy (if b then v else w).0 ≡ true
    → (b ≡ false) × (is_healthy w.0 ≡ true) × (w.1.0 ≡ false → (if b then v else w).1.0 ≡ false)
past true v w n h = absurd (ground arith)
past false v w n h = (refl, h, λ g. g)

-- The tests behind which the status is healthy.
pub record Passed (pf : Platform) (c : Codec) (stream : String) (r : Readings) (rs : List Record)
    : Type 0 where
  pub version : version_three (manifest c rs) ≡ true
  pub journal_read : is_ok r.journal ≡ true
  pub not_degraded : is_some r.degradation ≡ false
  pub not_repaired : was_repaired r.journal ≡ false
  pub consistent : journal_inconsistent pf (entries_of r.journal) r.checkpoint ≡ false
  pub not_behind :
      ltb_ℤ (last_position (entries_of r.journal)) (pos (or_zero (committed_of r.checkpoint)))
      ≡ false
  pub no_backlog :
      ltb_ℤ
        (pos 0)
        (backlog (last_position (entries_of r.journal)) (or_zero (committed_of r.checkpoint)))
      ≡ false
  pub cp : Checkpoint
  pub checkpoint_read : r.checkpoint ≡ ok cp
  pub checkpoint_valid : is_ok (validate cp (capture_source stream)) ≡ true
  pub not_unbound :
      (ltb 0 (or_zero (committed_of r.checkpoint))
        && (str_eq cp.bundle_head_hash "" || eqb_ℤ cp.bundle_record_count (pos 0)))
      ≡ false
  pub bound : valid_prefix cp rs ≡ true
  pub position_read : checkpoint_unreadable r.checkpoint ≡ false
  pub not_empty :
      ((or_zero (committed_of r.checkpoint) == 0)
        && (length (entries_of r.journal) == 0 && has_acquisition rs))
      ≡ false
  pub established :
      ((or_zero (committed_of r.checkpoint) == 0)
        && (length (entries_of r.journal) == 0 && not (has_acquisition rs)))
      ≡ false
  pub no_gap_set : (assess pf c stream r rs).1.0 ≡ false

checked :
    (stream : String) (o : Result CheckpointError Checkpoint) (rs : List Record) (committed : ℕ)
    (acquired : Bool) (w : Verdict)
    → is_healthy w.0 ≡ false
    → is_healthy (with_checkpoint stream o rs committed acquired w).0 ≡ true
    → (cp : Checkpoint) × (o ≡ ok cp)
      × (is_ok (validate cp (capture_source stream)) ≡ true)
      × ((ltb 0 committed
            && (str_eq cp.bundle_head_hash "" || eqb_ℤ cp.bundle_record_count (pos 0)))
          ≡ false)
      × (valid_prefix cp rs ≡ true)
      × ((with_checkpoint stream o rs committed acquired w).1.0 ≡ false)
unfolding with_checkpoint
checked stream (err x) rs committed acquired w n h = absurd (ground arith)
checked stream (ok cp) rs committed acquired w n h =
    let (a, p, ga) =
      past (not (is_ok (validate cp (capture_source stream)))) (degraded, (false, false)) _ refl
        h in
    let (b, q, gb) =
      past
        (ltb 0 committed && (str_eq cp.bundle_head_hash "" || eqb_ℤ cp.bundle_record_count (pos 0)))
        (degraded, (false, true)) _ refl p in
    let (d, _, gd) =
      past (not (valid_prefix cp rs)) (degraded, (false, false)) (healthy, (false, false)) refl q in
    (
      cp,
      refl,
      double_negative (is_ok (validate cp (capture_source stream))) a,
      b,
      double_negative (valid_prefix cp rs) d,
      ga (gb (gd refl)),
    )

abbrev without_checkpoint : Bool → Bool → Verdict
without_checkpoint a b =
    if a
    then (not_established, (false, false))
    else if b
    then (unknown, (false, true))
    else (unknown, (false, false))

unhealthy : (a b : Bool) → is_healthy (without_checkpoint a b).0 ≡ false
unhealthy true b = refl
unhealthy false true = refl
unhealthy false false = refl

unread_unhealthy : (b : Bool) → is_healthy (if b then degraded else unknown) ≡ true → ⊥
unread_unhealthy true h = ground arith
unread_unhealthy false h = ground arith

all_false : {a b d : Bool} → a ≡ false → b ≡ false → d ≡ false → (a || (b || d)) ≡ false
all_false p q r = rw (p, q, r) refl

assess-Passed :
    (pf : Platform) (c : Codec) (stream : String) (r : Readings) (rs : List Record)
    → is_healthy (assess pf c stream r rs).0 ≡ true
    → Passed pf c stream r rs
unfolding assess
assess-Passed pf c stream r rs h =
    let es = entries_of r.journal in
    let committed = or_zero (committed_of r.checkpoint) in
    let acquired = has_acquisition rs in
    let (a, p, g1) =
      past (not (version_three (manifest c rs))) (degraded, (false, false)) _ refl h in
    let (b, q, g2) = past (not (is_ok r.journal)) (degraded, (true, false)) _ refl p in
    let (d, s, g3) = past (is_some r.degradation) (degraded, (true, false)) _ refl q in
    let (e, t, g4) = past (was_repaired r.journal) (degraded, (true, false)) _ refl s in
    let (f, u, g5) =
      past (journal_inconsistent pf es r.checkpoint) (degraded, (true, false)) _ refl t in
    let (j, v, g6) =
      past (checkpoint_unreadable r.checkpoint) (degraded, (false, false)) _ refl u in
    let (g, w, g7) =
      past (ltb_ℤ (last_position es) (pos committed)) (degraded, (false, true)) _ refl v in
    let (_, x, g8) =
      past (checkpoint_mismatch stream r.checkpoint) (degraded, (false, false)) _ refl w in
    let (y₁, y, g9) =
      past (committed == 0 && (length es == 0 && acquired)) (degraded, (false, true)) _ refl x in
    let (z₁, z, g10) =
      past (committed == 0 && (length es == 0 && not acquired)) (not_established, (false, false)) _
        refl y in
    let (k, l, g11) =
      past (ltb_ℤ (pos 0) (backlog (last_position es) committed))
        (recovery_required, (false, false)) _ refl z in
    let (cp, m, n, unbound, o, last) =
      checked stream r.checkpoint rs committed acquired
        (if length es == 0 && not acquired
          then (not_established, (false, false))
          else if acquired
          then (unknown, (false, true))
          else (unknown, (false, false)))
        (unhealthy (length es == 0 && not acquired) acquired) l in
    record {
      version = double_negative (version_three (manifest c rs)) a;
      journal_read = double_negative (is_ok r.journal) b;
      not_degraded = d;
      not_repaired = e;
      consistent = f;
      not_behind = g;
      no_backlog = k;
      cp = cp;
      checkpoint_read = m;
      checkpoint_valid = n;
      not_unbound = unbound;
      bound = o;
      position_read = j;
      not_empty = y₁;
      established = z₁;
      no_gap_set = g1 (g2 (g3 (g4 (g5 (g6 (g7 (g8 (g9 (g10 (g11 last))))))))));
    }

-- Neither behind nor ahead.
pub level :
    (l : ℤ) (k : ℕ) → ltb_ℤ l (pos k) ≡ false → ltb_ℤ (pos 0) (backlog l k) ≡ false → l ≡ pos k
level (pos n) k p q = ap pos (ground arith)
level (negsuc n) k p q = cc

no_gap :
    (pf : Platform) (c : Codec) (stream : String) (r : Readings) (rs : List Record)
    → is_healthy (assess pf c stream r rs).0 ≡ true
    → (assessed pf c stream r rs).known_gap ≡ false
unfolding assessed
no_gap pf c stream r rs h =
    let g = assess-Passed pf c stream r rs h in
    all_false g.not_degraded (ap not g.journal_read) g.no_gap_set

status_of-Passed :
    (pf : Platform) (c : Codec) (stream : String) (r : Readings) (b : BundleFile)
    → is_healthy (status_of pf c stream r b).capture_state ≡ true
    → (rs : List Record) × (b ≡ verified rs)
      × Passed pf c stream r rs
      × ((status_of pf c stream r b).known_gap ≡ false)
      × ((status_of pf c stream r b).journal_last_position
          ≡ (status_of pf c stream r b).committed_position)
unfolding status_of assessed unread
status_of-Passed pf c stream r missing h = absurd (unread_unhealthy (is_some r.degradation) h)
status_of-Passed pf c stream r unverified h = absurd (ground arith)
status_of-Passed pf c stream r (verified rs) h =
    let g = assess-Passed pf c stream r rs h in
    (
      rs,
      refl,
      g,
      no_gap pf c stream r rs h,
      level (last_position (entries_of r.journal)) (or_zero (committed_of r.checkpoint))
          g.not_behind g.no_backlog,
    )

pub read_capture_status-Passed :
    (pf : Platform) (c : Codec) (stream : String) (r : Readings)
    → is_healthy (read_capture_status pf c stream r).capture_state ≡ true
    → (rs : List Record) × (r.bundle ≡ verified rs)
      × Passed pf c stream r rs
      × ((read_capture_status pf c stream r).known_gap ≡ false)
      × ((read_capture_status pf c stream r).journal_last_position
          ≡ (read_capture_status pf c stream r).committed_position)
unfolding read_capture_status
read_capture_status-Passed pf c stream r h = status_of-Passed pf c stream r r.bundle h
