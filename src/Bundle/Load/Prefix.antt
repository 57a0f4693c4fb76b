-- ===== src/Bundle/Load/Prefix.antt =====
-- sourcePrefixTracker (internal/bundle/bundle.go). The state of a running SHA-256 is the bytes written
-- to it.
use atb.Prelude.{
  ℕ, zero, suc, ◌+◌, ◌≡◌, Bool, true, false, not, ◌&&◌, List, [], ◌∷◌, ◌++◌, Option, none, some,
  length, ltb, ◌==◌, if◌then◌else◌,
}
pub mod Laws
pub mod Bound
use atb.Bundle.{SourcePrefix}

-- sourcePrefixTracker, with `ensure` done from the start
pub record Tracker : Type 0 where
  pub with_lf : List ℕ
  pub without_last_byte : List ℕ
  pub processed : ℕ
  pub previous : ℕ
  pub before_previous : ℕ

abbrev pub start : Tracker
start = record {
  with_lf = [];
  without_last_byte = [];
  processed = 0;
  previous = 0;
  before_previous = 0;
}

-- A line without its last byte.
abbrev pub init : List ℕ → List ℕ
init [] = []
init (b ∷ []) = []
init (b ∷ c ∷ r) = b ∷ init (c ∷ r)

-- The last byte, or `d`.
abbrev pub last_byte : ℕ → List ℕ → ℕ
last_byte d [] = d
last_byte d (b ∷ r) = last_byte b r

-- The last byte but one, or `d`.
abbrev pub byte_before : ℕ → List ℕ → ℕ
byte_before d [] = d
byte_before d (b ∷ []) = d
byte_before d (b ∷ c ∷ r) = byte_before b (c ∷ r)

-- add
unfoldable pub add : Tracker → List ℕ → Tracker
add t [] = t
add t (b ∷ []) = record {
  with_lf = t.with_lf ++ b ∷ [];
  without_last_byte =
      if ltb 0 t.processed then t.without_last_byte ++ t.previous ∷ [] else t.without_last_byte;
  processed = t.processed + 1;
  previous = b;
  before_previous = t.previous;
}
add t (b ∷ c ∷ r) = record {
  with_lf = t.with_lf ++ b ∷ c ∷ r;
  without_last_byte =
      (if ltb 0 t.processed then t.without_last_byte ++ t.previous ∷ [] else t.without_last_byte)
      ++ init (b ∷ c ∷ r);
  processed = t.processed + length (b ∷ c ∷ r);
  previous = last_byte c r;
  before_previous = byte_before b (c ∷ r);
}

-- snapshot; `sum` is SHA-256
unfoldable pub snapshot : (List ℕ → List ℕ) → Tracker → SourcePrefix
snapshot sum t =
    let plain = ltb 1 t.processed && t.previous == 10 && not (t.before_previous == 10) in
    record {
      with_lf = some (sum t.with_lf);
      without_lf = if plain then some (sum t.without_last_byte) else none;
      has_without_lf = plain;
    }
