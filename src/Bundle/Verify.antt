-- ===== src/Bundle/Verify.antt =====
-- Bundle.Verify and verifyManifestBundle (internal/bundle/bundle.go).

pub mod Laws
use atb.Prelude.{ℕ, suc, String, List, [], ◌∷◌, Option, none, some, if◌then◌else◌}
use atb.Prelude.Int.{pos}
use atb.Prelude.Result.{ok, err}
use atb.Canonicalize.{Platform}
use atb.HashChain.{
  VerifyError, count_mismatch, not_canonical, sequence_mismatch, prev_hash_mismatch,
  record_hash_mismatch, verify, verify_step, genesis_hash,
}
use atb.Event.{Event}
use atb.Bundle.{Record, Error, chain_broken, tampered, has_manifest_record}

-- The mismatches are wrapped with ErrTamper, an event that cannot be encoded is not.
wrap : VerifyError → Error
wrap (count_mismatch m n) = chain_broken (count_mismatch m n)
wrap (not_canonical i) = chain_broken (not_canonical i)
wrap (sequence_mismatch i q s) = tampered (sequence_mismatch i q s)
wrap (prev_hash_mismatch i p h) = tampered (prev_hash_mismatch i p h)
wrap (record_hash_mismatch i q h c) = tampered (record_hash_mismatch i q h c)

-- The loop of verifyManifestBundle: the record at index `i` has the sequence `i`.
manifest_from : Platform → ℕ → String → List Record → Option Error
unfolding wrap
manifest_from pf i prev [] = none
manifest_from pf i prev (r ∷ rs) = elim (verify_step pf i (pos i) prev r.event r.hash) [
  | err x ↦ some (wrap x)
  | ok computed ↦ manifest_from pf (suc i) computed rs
]

abbrev pub events : List Record → List Event
events [] = []
events (r ∷ rs) = r.event ∷ events rs

abbrev pub record_hashes : List Record → List String
record_hashes [] = []
record_hashes (r ∷ rs) = r.hash ∷ record_hashes rs

legacy : Option VerifyError → Option Error
legacy none = none
legacy (some x) = some (chain_broken x)

-- Verify; `none` is a nil error.
unfoldable pub verify_bundle : Platform → List Record → Option Error
unfolding manifest_from legacy
verify_bundle pf rs =
    if has_manifest_record rs
    then manifest_from pf 0 genesis_hash rs
    else legacy (verify pf (events rs) (record_hashes rs))
