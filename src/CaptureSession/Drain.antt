-- ===== src/CaptureSession/Drain.antt =====
-- The loops that bring journal entries into the bundle (internal/proxy/capture.go, recover and
-- commitPending).
use atb.Prelude.{ℕ, suc, String, not, List, [], ◌∷◌, none, some, str_eq}
use atb.Prelude.Map.{Map, lookup, put}
use atb.Prelude.Result.{Result, ok, ◌>>=◌, ◌>>◌, fail_if}
use atb.Canonicalize.{Platform}
use atb.Bundle.{Record, Codec}
use atb.CaptureJournal.{Entry}
use atb.CaptureSession.{
  CaptureError, different_digest, ObservationCodec, append_materialised, validate_entry,
}

-- The records, the index and the number of records that were appended.
pub record Drained : Type 0 where
  pub records : List Record
  pub index : Map String
  pub appended : ℕ

module _ (pf : Platform) (c : Codec) (oc : ObservationCodec) (stream : String) where
  -- One round: an observation that is indexed with its digest is passed over.
  unfoldable pub drain_entry : Drained → Entry → Result CaptureError Drained
  drain_entry s e = elim (lookup e.observation_id s.index) [
    | some d ↦
        fail_if (not (str_eq d e.representation_digest)) (different_digest e.observation_id) >> ok s
    | none ↦ append_materialised pf c oc stream s.records e >>= λ longer. ok (record {
      records = longer;
      index = put e.observation_id e.representation_digest s.index;
      appended = suc s.appended;
    })
  ]

  -- The loop of recover, whose entries were validated before.
  unfoldable pub replay : Drained → List Entry → Result CaptureError Drained
  unfolding drain_entry
  replay s [] = ok s
  replay s (e ∷ es) = drain_entry s e >>= λ more. replay more es

  -- The loop of commitPending.
  unfoldable pub drain : String → Drained → List Entry → Result CaptureError Drained
  unfolding drain_entry
  drain incarnation s [] = ok s
  drain incarnation s (e ∷ es) =
      validate_entry pf incarnation e >> (drain_entry s e >>= λ more. drain incarnation more es)
