-- ===== src/HashChain.antt =====
-- internal/hash/hash.go: the SHA-256 chain over events.
pub mod Spec
pub mod Linked
pub mod Tamper
use atb.Prelude.{
  ℕ, zero, suc, ◌+◌, ◌≡◌, String, Bool, true, false, not, List, [], ◌∷◌, ◌++◌, Option, none, some,
  length, codes, str_eq, ◌==◌, if◌then◌else◌,
}
use atb.Prelude.Int.{ℤ, pos, eqb_ℤ}
use atb.Prelude.Result.{Result, ok, err}
use atb.Canonicalize.{Platform, marshal}
use atb.Event.{Event, event_value}

abbrev pub genesis_hash : String
genesis_hash = "0000000000000000000000000000000000000000000000000000000000000000"

-- What is hashed: the previous hash, then the canonical event.
unfoldable pub message : Platform → Event → Option (List ℕ)
message pf e = elim (marshal pf (event_value e)) [
  | none ↦ none
  | some canonical ↦ some (codes e.prev_hash ++ canonical)
]

-- Compute; `none` is an event that cannot be encoded.
unfoldable pub compute : Platform → Event → Option String
unfolding message
compute pf e = elim (message pf e) [ none ↦ none | some text ↦ some (pf.sha256_hex text) ]

-- The errors of Verify, each with what its message reports.
pub data VerifyError : Type 0 where
  count_mismatch : ℕ → ℕ → VerifyError
  not_canonical : ℕ → VerifyError
  sequence_mismatch : ℕ → ℤ → ℤ → VerifyError
  prev_hash_mismatch : ℕ → String → String → VerifyError
  record_hash_mismatch : ℕ → ℤ → String → String → VerifyError

-- The loop of Chain: the events with their links set, up to an event that cannot be encoded, and the
-- hash of the last one, or the index of the failure.
chain_from : Platform → ℕ → String → List Event → List Event × Result ℕ String
chain_from pf i prev [] = ([], ok prev)
chain_from pf i prev (e ∷ es) =
    let linked = record e { prev_hash = prev; sequence = pos (i + 1) } in
    elim (compute pf linked) [
      | none ↦ (linked ∷ es, err i)
      | some h ↦ let (done, result) = chain_from pf (suc i) h es in (linked ∷ done, result)
    ]

-- Chain
unfoldable pub chain : Platform → List Event → List Event × Result ℕ String
unfolding chain_from
chain pf events = chain_from pf 0 genesis_hash events

-- One round of the loops of Verify and of verifyManifestBundle: the checks on an event at index `i`
-- whose sequence should be `expected`, with its hash recomputed from the expected links.
unfoldable pub verify_step : Platform → ℕ → ℤ → String → Event → String → Result VerifyError String
verify_step pf i expected prev e stored =
    elim (compute pf (record e { prev_hash = prev; sequence = expected })) [
      | none ↦ err (not_canonical i)
      | some computed ↦
          if not (eqb_ℤ e.sequence expected)
          then err (sequence_mismatch i expected e.sequence)
          else if not (str_eq e.prev_hash prev)
          then err (prev_hash_mismatch i prev e.prev_hash)
          else if not (str_eq computed stored)
          then err (record_hash_mismatch i expected stored computed)
          else ok computed
    ]

-- The loop from index `i`, where the event at index `i` should have the sequence `base + i`.
unfoldable pub verify_from : Platform → ℕ → ℕ → String → List (Event × String) → Option VerifyError
verify_from pf base i prev [] = none
verify_from pf base i prev ((e, h) ∷ rest) = elim (verify_step pf i (pos (base + i)) prev e h) [
  | err x ↦ some x
  | ok computed ↦ verify_from pf base (suc i) computed rest
]

abbrev pub zip : List Event → List String → List (Event × String)
zip [] hs = []
zip (e ∷ es) [] = []
zip (e ∷ es) (h ∷ hs) = (e, h) ∷ zip es hs

-- Verify; `none` is a nil error. Sequences start at 1.
unfoldable pub verify : Platform → List Event → List String → Option VerifyError
verify pf events hashes =
    if not (length events == length hashes)
    then some (count_mismatch (length events) (length hashes))
    else verify_from pf 1 0 genesis_hash (zip events hashes)
