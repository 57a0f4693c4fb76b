-- ===== src/Acquisition/Import/Capped.antt =====
-- cappedReader (internal/acquisition/import_integration.go). A reader gives its bytes in pieces.
use atb.Prelude.{
  ℕ, suc, ◌+◌, ◌≤◌, ◌≡◌, ◌↔◌, refl, sym, ap, ◌∙◌, true, false, List, [], ◌∷◌, ◌++◌, Option, none,
  some, length, ltb, arith, Bool-cases, inl, inr, length-append,
}

-- cappedReader.Read on a piece: the bytes counted afterwards, `none` where they exceed the maximum.
unfoldable pub capped_read : ℕ → ℕ → List ℕ → Option ℕ
capped_read max n piece = elim (ltb max (n + length piece)) [
  | true ↦ none
  | false ↦ some (n + length piece)
]

-- io.ReadAll over a cappedReader that has counted `n` bytes.
unfoldable pub read_all : ℕ → ℕ → List (List ℕ) → Option (List ℕ)
unfolding capped_read
read_all max n [] = some []
read_all max n (piece ∷ rest) = elim (capped_read max n piece) [
  | none ↦ none
  | some m ↦ elim (read_all max m rest) [ none ↦ none | some bytes ↦ some (piece ++ bytes) ]
]

abbrev pub joined : List (List ℕ) → List ℕ
joined [] = []
joined (piece ∷ rest) = piece ++ joined rest

-- From `n` bytes within the limit on: everything, or nothing where the limit is exceeded.
read_all-joined :
    (max n : ℕ) (pieces : List (List ℕ))
    → n ≤ max
    → read_all max n pieces
      ≡ elim (ltb max (n + length (joined pieces))) [ true ↦ none | false ↦ some (joined pieces) ]
unfolding read_all capped_read
read_all-joined max n [] h = let fits : ltb max (n + 0) ≡ false = ground (arith, h) in rw fits refl
read_all-joined max n (piece ∷ rest) h = elim (Bool-cases (ltb max (n + length piece))) [
  | inl e ↦
      let over : ltb max (n + length (piece ++ joined rest)) ≡ true =
        ground (arith, e, length-append piece (joined rest)) in
      rw (read_all, capped_read, e, over) refl
  | inr e ↦
      let same : ltb max (n + length (piece ++ joined rest))
          ≡ ltb max (n + length piece + length (joined rest)) =
        ap (ltb max) (omega (arith, length-append piece (joined rest))) in
      let rest_read = read_all-joined max (n + length piece) rest (ground (arith, e)) in
      elim (Bool-cases (ltb max (n + length piece + length (joined rest)))) [
        | inl o ↦ rw (read_all, capped_read, e, rest_read, o, same, o) refl
        | inr o ↦ rw (read_all, capped_read, e, rest_read, o, same, o) refl
      ]
]

-- Reading through the cap gives the whole input if it has at most `max` bytes, and fails otherwise,
-- into whatever pieces the reader below cuts it.
pub read_all-capped :
    (max : ℕ) (pieces : List (List ℕ))
    → ((read_all max 0 pieces ≡ some (joined pieces)) ↔ (length (joined pieces) ≤ max))
      × ((read_all max 0 pieces ≡ none) ↔ (suc max ≤ length (joined pieces)))
read_all-capped max pieces =
    let read = read_all-joined max 0 pieces (omega arith) in
    elim (Bool-cases (ltb max (0 + length (joined pieces)))) [
      | inl e ↦
          let over : read_all max 0 pieces ≡ none = read ∙ rw e refl in
          (
            (λ p. cc (sym p ∙ over), λ h. absurd (ground (arith, e))),
            (λ p. ground (arith, e), λ h. over),
          )
      | inr e ↦
          let whole : read_all max 0 pieces ≡ some (joined pieces) = read ∙ rw e refl in
          (
            (λ p. ground (arith, e), λ h. whole),
            (λ p. cc (sym p ∙ whole), λ h. absurd (ground (arith, e))),
          )
    ]
