-- ===== src/Examples/Chain.antt =====
-- The theorems on hash chains at a chain of two events.
use atb.Prelude.{◌≡◌, ◌⊎◌, ◌↔◌, refl, String, List, [], ◌∷◌, none, length, last_or, map}
use atb.Prelude.Result.{ok}
use atb.Json.{str, null}
use atb.Canonicalize.{marshal, is_encodable, write_value, serialize_number, join_members}
use atb.Canonicalize.Text.{write_string}
use atb.Canonicalize.Sort.{sort}
use atb.Canonicalize.Keys.{utf16_less}
use atb.Json.Float
use atb.Event.{Event, event_value}
use atb.HashChain.{compute, chain, verify, zip, genesis_hash}
use atb.HashChain.Spec.{IsChain, verify_iff}
use atb.HashChain.Linked.{hashes, body, verify-chain}
use atb.HashChain.Tamper.{Collision, canonical_texts, last_hash, tamper_evidence}
use atb.Examples.{platform, plain_event, length-digest}

abbrev two_events : List Event
two_events = plain_event "ai.tool.exec" (str "ls") ∷ plain_event "ai.tool.exec" null ∷ []

abbrev last : String
last = "00000000000000000000000000000000000000000000000000000000000000aa"

chained : (chain platform two_events).1 ≡ ok last
unfolding chain compute event_value marshal is_encodable write_value serialize_number
    Float.is_finite Float.of_int join_members write_string sort utf16_less
chained = refl

verify-chain_example :
    (verify platform (chain platform two_events).0 (hashes platform (chain platform two_events).0)
      ≡ none)
    × (last_or genesis_hash (hashes platform (chain platform two_events).0) ≡ last)
    × (map body (chain platform two_events).0 ≡ map body two_events)
verify-chain_example = verify-chain platform two_events last chained

verify_iff_example : (verify platform two_events [] ≡ none) ↔ (
    (length two_events ≡ length {A = String} [])
    × IsChain platform 1 genesis_hash (zip two_events []))
verify_iff_example = verify_iff platform two_events []

-- Another payload with the same sum, which the digest of the tests does not tell apart.
abbrev other_events : List Event
other_events = plain_event "ai.tool.exec" (str "sl") ∷ plain_event "ai.tool.exec" null ∷ []

other_chained : (chain platform other_events).1 ≡ ok last
unfolding chain compute event_value marshal is_encodable write_value serialize_number
    Float.is_finite Float.of_int join_members write_string sort utf16_less
other_chained = refl

abbrev left : List Event
left = (chain platform two_events).0

abbrev right : List Event
right = (chain platform other_events).0

same_length : length (zip left (hashes platform left)) ≡ length (zip right (hashes platform right))
unfolding chain compute event_value marshal is_encodable write_value serialize_number
    Float.is_finite Float.of_int join_members write_string sort utf16_less
same_length = refl

same_end :
    last_hash genesis_hash (zip left (hashes platform left))
    ≡ last_hash genesis_hash (zip right (hashes platform right))
unfolding chain compute event_value marshal is_encodable write_value serialize_number
    Float.is_finite Float.of_int join_members write_string sort utf16_less
same_end = refl

tamper_evidence_example :
    (canonical_texts platform (zip left (hashes platform left))
      ≡ canonical_texts platform (zip right (hashes platform right)))
    ⊎ Collision platform
tamper_evidence_example =
    tamper_evidence platform length-digest left right (hashes platform left) (hashes platform right)
      (verify-chain platform two_events last chained).0
      (verify-chain platform other_events last other_chained).0 same_length same_end
