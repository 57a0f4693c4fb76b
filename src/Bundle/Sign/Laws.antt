-- ===== src/Bundle/Sign/Laws.antt =====
-- The size of a signed bundle, and what binds the signature record to the bytes that were signed
-- (internal/bundle/sign.go).
use atb.Prelude.{
  ℕ, ◌+◌, ◌-◌, ◌≤◌, ◌<◌, ◌≡◌, sym, ap, ◌∙◌, subst, inl, inr, Bool, true, false, ◌&&◌, List, [], ◌∷◌,
  ◌++◌, length, length-append, ltb, ◌==◌, arith, Bool-cases, if◌then◌else◌,
}
use atb.Prelude.Result.{ok, ◌>>◌, fail_if, >>=-eq-ok, fail_if-then, ok_injective}
use atb.Bundle.Sign.{
  max_int, signed_payload_capacity, signed_payload_metrics, needs_separator, separator,
  append_signed_record, capacity_exceeded, invalid_output_limit, output_too_large,
}

capacity-ok :
    (raw record_size capacity : ℕ)
    → signed_payload_capacity raw record_size ≡ ok capacity
    → (capacity ≡ raw + record_size + 2) × (capacity ≤ max_int)
unfolding signed_payload_capacity
capacity-ok raw record_size capacity p =
    let whole =
      fail_if (ltb (max_int - 2 - raw) record_size) capacity_exceeded
      >> ok (raw + record_size + 2) in
    let (a, q) = fail_if-then (ltb (max_int - 2) raw) capacity_exceeded whole p in
    let (b, r) =
      fail_if-then (ltb (max_int - 2 - raw) record_size) capacity_exceeded
        (ok (raw + record_size + 2)) q in
    let e = ok_injective r in (sym e, subst (λ n. n ≤ max_int) e (ground arith))

parts :
    (raw sep encoded : List ℕ)
    → length (raw ++ (sep ++ (encoded ++ 10 ∷ [])))
      ≡ length raw + (length sep + (length encoded + 1))
parts raw sep encoded =
    length-append raw (sep ++ (encoded ++ 10 ∷ []))
    ∙ ap (λ n. length raw + n)
        (length-append sep (encoded ++ 10 ∷ [])
          ∙ ap (λ n. length sep + n) (length-append encoded (10 ∷ [])))

-- The computed size.
abbrev size : Bool → ℕ → ℕ → ℕ
size s r e = if s && ltb 0 r then r + e + 2 else r + e + 2 - 1

size-eq :
    (s : Bool) (r e : ℕ)
    → (if s then 0 < r else Unit)
    → r + (length {A = ℕ} (if s then 10 ∷ [] else []) + (e + 1)) ≡ size s r e
size-eq true r e h = ground arith
size-eq false r e h = omega arith

separator_behind : (raw : List ℕ) → if needs_separator raw then 0 < length raw else Unit
separator_behind [] = tt
separator_behind (b ∷ raw) = elim (Bool-cases (needs_separator (b ∷ raw))) [
  | inl t ↦ rw t (omega arith)
  | inr t ↦ rw t tt
]

-- The payload's length, by whether a separator is written.
length-payload :
    (raw encoded : List ℕ)
    → length (raw ++ (separator raw ++ (encoded ++ 10 ∷ [])))
      ≡ size (needs_separator raw) (length raw) (length encoded)
length-payload raw encoded =
    parts raw (separator raw) encoded
    ∙ size-eq (needs_separator raw) (length raw) (length encoded) (separator_behind raw)

size-capacity : (s : Bool) (r e : ℕ) → size s r e ≤ r + e + 2
size-capacity true r e = ground arith
size-capacity false r e = ground arith

metrics-ok :
    (r e : ℕ) (s : Bool) (sizes : ℕ × ℕ)
    → signed_payload_metrics r e s ≡ ok sizes
    → (sizes.0 ≡ size s r e) × (sizes.1 ≡ r + e + 2) × (sizes.1 ≤ max_int)
unfolding signed_payload_metrics
metrics-ok r e s sizes p =
    let (capacity, q, t) =
      >>=-eq-ok (signed_payload_capacity r e) (λ k. ok (if s && ltb 0 r then k else k - 1, k)) p in
    let (whole, bound) = capacity-ok r e capacity q in
    let same = ok_injective t in
    (
      sym (ap (λ x. x.0) same) ∙ ap (λ k. if s && ltb 0 r then k else k - 1) whole,
      sym (ap (λ x. x.1) same) ∙ whole,
      subst (λ k. k ≤ max_int) (ap (λ x. x.1) same) bound,
    )

-- What is written of a signed bundle is the original bytes, a line feed if they do not end in one, the
-- record and a line feed. Its length is the computed size, which is within the limit and the computed
-- capacity, and the capacity does not overflow an int.
pub append_signed_record-bounds :
    (raw encoded payload : List ℕ) (max_bytes : ℕ)
    → append_signed_record raw encoded max_bytes ≡ ok payload
    → (payload ≡ raw ++ (separator raw ++ (encoded ++ 10 ∷ [])))
      × (length payload ≤ max_bytes)
      × ((sizes : ℕ × ℕ) × (signed_payload_metrics
              (length raw)
              (length encoded)
              (needs_separator raw)
            ≡ ok sizes)
          × (length payload ≡ sizes.0)
          × (length payload ≤ sizes.1)
          × (sizes.1 ≤ max_int))
unfolding append_signed_record
append_signed_record-bounds raw encoded payload max_bytes p =
    let s = needs_separator raw in
    let bytes = raw ++ (separator raw ++ (encoded ++ 10 ∷ [])) in
    let (sizes, m, q) =
      >>=-eq-ok (signed_payload_metrics (length raw) (length encoded) s)
        (λ z.
          fail_if (max_bytes == 0) invalid_output_limit
          >> (fail_if (ltb max_bytes z.0) output_too_large >> ok bytes))
        p in
    let (_, t) =
      fail_if-then (max_bytes == 0) invalid_output_limit
        (fail_if (ltb max_bytes sizes.0) output_too_large >> ok bytes) q in
    let (room, u) = fail_if-then (ltb max_bytes sizes.0) output_too_large (ok bytes) t in
    let same = sym (ok_injective u) in
    let (a, b, c) = metrics-ok (length raw) (length encoded) s sizes m in
    let long : length payload ≡ sizes.0 = ap length same ∙ length-payload raw encoded ∙ sym a in
    (
      same,
      subst (λ n. n ≤ max_bytes) (sym long) (ground arith),
      (
        sizes,
        m,
        long,
        subst (λ n. n ≤ sizes.1) (sym (ap length same ∙ length-payload raw encoded))
            (subst (λ n. size s (length raw) (length encoded) ≤ n) (sym b)
              (size-capacity s (length raw) (length encoded))),
        c,
      ),
    )
