-- ===== src/Bundle/Load/Prefix/Bound.antt =====
-- What a signature record is bound to, by the bytes before it (internal/bundle/bundle.go, snapshot).
use atb.Prelude.{
  ℕ, ◌≡◌, ◌≢◌, ◌⊎◌, refl, sym, ap, ◌∙◌, subst, Bool, true, false, not, ◌&&◌, List, [], ◌∷◌, ◌++◌,
  none, some, length, length-append, ltb, ◌==◌, arith, inl, inr, if◌then◌else◌,
}
use atb.Bundle.{SourcePrefix}
use atb.Bundle.Load.Prefix.{init, last_byte, byte_before, snapshot}
use atb.Bundle.Load.Prefix.Laws.{behind, init-append, last_byte-append, byte_before-append}

-- The bytes end in one line feed, and something else is before it.
abbrev pub EndsOnce : List ℕ → Type 0
EndsOnce bytes = (front : List ℕ) × (c : ℕ) × (c ≢ 10) × (bytes ≡ front ++ c ∷ 10 ∷ [])

-- The hash of the bytes, and where they end in one line feed that of the bytes without it.
pub data IsPrefixOf (sum : List ℕ → List ℕ) : List ℕ → SourcePrefix → Type 0 where
  one_end :
      (front : List ℕ) (c : ℕ)
      → c ≢ 10
      → IsPrefixOf sum (front ++ c ∷ 10 ∷ []) (record {
        with_lf = some (sum (front ++ c ∷ 10 ∷ []));
        without_lf = some (sum (front ++ c ∷ []));
        has_without_lf = true;
      })
  other_end :
      (bytes : List ℕ)
      → ¬ EndsOnce bytes
      → IsPrefixOf sum bytes
          (record { with_lf = some (sum bytes); without_lf = none; has_without_lf = false })

-- The test of snapshot.
abbrev one_line_feed : List ℕ → Bool
one_line_feed bytes =
    ltb 1 (length bytes) && last_byte 0 bytes == 10 && not (byte_before 0 bytes == 10)

-- Bytes by their last two.
ends :
    (bytes : List ℕ)
    → ((front : List ℕ) × (c : ℕ) × (d : ℕ) × (bytes ≡ front ++ c ∷ d ∷ []))
      ⊎ (ltb 1 (length bytes) ≡ false)
ends [] = inr (ground arith)
ends (b ∷ []) = inr (ground arith)
ends (b ∷ c ∷ []) = inl ([], b, c, refl)
ends (b ∷ c ∷ d ∷ r) = elim (ends (c ∷ d ∷ r)) [
  | inl (front, x, y, e) ↦ inl (b ∷ front, x, y, ap (λ l. b ∷ l) e)
  | inr short ↦ absurd (ground arith)
]

one_line_feed-two :
    (front : List ℕ) (c d : ℕ) → one_line_feed (front ++ c ∷ d ∷ []) ≡ ((d == 10) && not (c == 10))
one_line_feed-two front c d =
    let long : ltb 1 (length (front ++ c ∷ d ∷ [])) ≡ true =
      ground (arith, length-append front (c ∷ d ∷ [])) in
    rw (long, last_byte-append 0 front c (d ∷ []), byte_before-append 0 front c d []) refl

one_line_feed-EndsOnce : (bytes : List ℕ) → one_line_feed bytes ≡ true → EndsOnce bytes
one_line_feed-EndsOnce bytes h = elim (ends bytes) [
  | inr short ↦ cc (rw (short) at h)
  | inl (front, c, d, e) ↦
      let test = sym (one_line_feed-two front c d) ∙ subst (λ l. one_line_feed l ≡ true) e h in
      let last : d ≡ 10 = ground arith in
      (front, c, ground arith, subst (λ x. bytes ≡ front ++ c ∷ x ∷ []) last e)
]

EndsOnce-one_line_feed : (bytes : List ℕ) → EndsOnce bytes → one_line_feed bytes ≡ true
EndsOnce-one_line_feed bytes (front, c, other, e) =
    subst (λ l. one_line_feed l ≡ true) (sym e) (one_line_feed-two front c 10 ∙ ground arith)

bound_when : (List ℕ → List ℕ) → List ℕ → Bool → SourcePrefix
bound_when sum bytes plain = record {
  with_lf = some (sum bytes);
  without_lf = if plain then some (sum (init bytes)) else none;
  has_without_lf = plain;
}

bound_when-IsPrefixOf :
    (sum : List ℕ → List ℕ) (bytes : List ℕ) (plain : Bool)
    → one_line_feed bytes ≡ plain
    → IsPrefixOf sum bytes (bound_when sum bytes plain)
unfolding bound_when
bound_when-IsPrefixOf sum bytes false h =
    other_end bytes λ once. cc (sym h ∙ EndsOnce-one_line_feed bytes once)
bound_when-IsPrefixOf sum bytes true h =
    let (front, c, other, e) = one_line_feed-EndsOnce bytes h in
    subst (λ l. IsPrefixOf sum l (bound_when sum l true)) (sym e)
      (rw (init-append front c (10 ∷ [])) (one_end front c other))

pub snapshot-IsPrefixOf :
    (sum : List ℕ → List ℕ) (bytes : List ℕ) → IsPrefixOf sum bytes (snapshot sum (behind bytes))
unfolding snapshot bound_when
snapshot-IsPrefixOf sum bytes = bound_when-IsPrefixOf sum bytes (one_line_feed bytes) refl
