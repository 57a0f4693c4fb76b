-- ===== src/Bundle/Sign/Binding.antt =====
-- How a signature record that is loaded back is bound to the bytes that were signed (internal/bundle/sign.go
-- and bundle.go).
use atb.Prelude.{
  ℕ, ◌≡◌, refl, sym, ap, ◌∙◌, subst, ◌⊎◌, inl, inr, String, true, false, List, [], ◌∷◌, ◌++◌, some,
  length, ltb, ◌==◌, arith, Bool-cases, ==_iff, append_assoc', length-append, str_eq,
}
use atb.Prelude.Result.{ok}
use atb.Event.{Event}
use atb.Bundle.{Record, SourcePrefix, Codec, bundle_signature_type}
use atb.Bundle.Load.{LoadLimits, load_reader, prefix_for}
use atb.Bundle.Load.Lines.{
  raw_lines, trim, flat, flat-raw_lines, HasNoLineFeed, IsComplete, no_line, some_lines,
  raw_lines-more,
}
use atb.Bundle.Load.Prefix.{Tracker, init, last_byte, snapshot}
use atb.Bundle.Load.Prefix.Laws.{
  behind, append_nil, init-append, init-snoc, last_byte-append, byte_before-snoc,
}
use atb.Bundle.Load.Laws.{Reads, reads_end, reads_blank, reads_record, load_reader-Reads}
use atb.Bundle.Sign.{separator}

-- One of the two hashes of a prefix is that of the signed bytes.
abbrev pub IsBoundTo : SourcePrefix → List ℕ → Type 0
IsBoundTo p digest =
    (p.with_lf ≡ some digest) ⊎ ((p.has_without_lf ≡ true) × (p.without_lf ≡ some digest))

nil_cons : {A : Type 0} {a : A} {r : List A} → [] ≡ a ∷ r → ⊥
nil_cons p = cc

some_injective : {A : Type 0} {a b : A} → some a ≡ some b → a ≡ b
some_injective p = cc

Reads-nothing :
    (sum : List ℕ → List ℕ) (c : Codec) (before : List ℕ) (rs : List Record)
    → Reads sum c before [] rs
    → rs ≡ []
Reads-nothing sum c before _ (reads_end _) = refl

module _ (sum : List ℕ → List ℕ) where
  snapshot-whole : (t : Tracker) → (snapshot sum t).with_lf ≡ some (sum t.with_lf)
  unfolding snapshot
  snapshot-whole t = refl

  snapshot-plain :
      (t : Tracker)
      → ltb 1 t.processed ≡ true
      → (t.previous == 10) ≡ true
      → (t.before_previous == 10) ≡ false
      → ((snapshot sum t).has_without_lf ≡ true)
        × ((snapshot sum t).without_lf ≡ some (sum t.without_last_byte))
  unfolding snapshot
  snapshot-plain t p q r = (rw (p, q, r) refl, rw (p, q, r) refl)

  two_bytes : (b : ℕ) (raw : List ℕ) → ltb 1 (length ((b ∷ raw) ++ 10 ∷ [])) ≡ true
  two_bytes b raw =
      subst (λ n. ltb 1 n ≡ true) (sym (length-append (b ∷ raw) (10 ∷ []))) (ground arith)

  snapshot-separated :
      (b : ℕ) (raw : List ℕ)
      → (last_byte b raw == 10) ≡ false
      → IsBoundTo (snapshot sum (behind ((b ∷ raw) ++ 10 ∷ []))) (sum (b ∷ raw))
  snapshot-separated b raw h =
      let (has, hash) =
        snapshot-plain (behind ((b ∷ raw) ++ 10 ∷ [])) (two_bytes b raw)
          (ap (λ x. x == 10) (last_byte-append 0 (b ∷ raw) 10 []))
          (ap (λ x. x == 10) (byte_before-snoc b raw 10 0) ∙ h) in
      inr (
        has,
        hash ∙ ap (λ x. some (sum x)) (init-append (b ∷ raw) 10 [] ∙ sym (append_nil (b ∷ raw))),
      )

  -- The prefix in front of the record binds it to the signed bytes.
  snapshot-IsBoundTo :
      (raw : List ℕ) → IsBoundTo (snapshot sum (behind (raw ++ separator raw))) (sum raw)
  snapshot-IsBoundTo [] = inl (snapshot-whole (behind []))
  snapshot-IsBoundTo (b ∷ raw) = elim (Bool-cases (last_byte b raw == 10)) [
    | inl t ↦ rw t (
        inl (
          snapshot-whole (behind ((b ∷ raw) ++ []))
          ∙ ap (λ x. some (sum x)) (sym (append_nil (b ∷ raw)))))
    | inr t ↦ rw t (snapshot-separated b raw t)
  ]

  -- The record of a line behind the bytes `before`.
  abbrev bound_record : Event × String → List ℕ → Record
  bound_record x before = record {
    event = x.0;
    hash = x.1;
    prefix = prefix_for sum x.0.type_id (behind before);
  }

  prefix_for-signature :
      (x : Event × String) (before : List ℕ)
      → str_eq x.0.type_id bundle_signature_type ≡ true
      → (bound_record x before).prefix ≡ snapshot sum (behind before)
  unfolding prefix_for
  prefix_for-signature x before s = rw s refl

  -- The last line's record.
  Reads-last :
      (c : Codec) (raws : List (List ℕ)) (before line : List ℕ) (rs : List Record) (b : ℕ)
      (l : List ℕ) (x : Event × String)
      → Reads sum c before (raws ++ line ∷ []) rs
      → trim line ≡ b ∷ l
      → c.decode_record (b ∷ l) ≡ some x
      → (front : List Record) × (rs ≡ front ++ bound_record x (before ++ flat raws) ∷ [])
  Reads-last c [] before line _ b l x (reads_blank _ _ _ rs q r) t d = absurd (nil_cons (sym q ∙ t))
  Reads-last c [] before line _ b l x (reads_record _ _ _ rs b' l' e' h' q d' r) t d =
      let same = some_injective (sym d' ∙ ap c.decode_record (sym q ∙ t) ∙ d) in
      (
        [],
        ap (λ k. bound_record (e', h') before ∷ k) (Reads-nothing sum c (before ++ line) rs r)
            ∙ ap (λ y. bound_record y before ∷ []) same
            ∙ ap (λ y. bound_record x y ∷ []) (append_nil before),
      )
  Reads-last c (raw ∷ raws) before line _ b l x (reads_blank _ _ _ rs q r) t d =
      let (front, e) = Reads-last c raws (before ++ raw) line rs b l x r t d in
      (front, e ∙ ap (λ y. front ++ bound_record x y ∷ []) (append_assoc' before raw (flat raws)))
  Reads-last c (raw ∷ raws) before line _ b l x (reads_record _ _ _ rs b' l' e' h' q d' r) t d =
      let (front, e) = Reads-last c raws (before ++ raw) line rs b l x r t d in
      (
        bound_record (e', h') before ∷ front,
        ap (λ k. bound_record (e', h') before ∷ k)
            (e ∙ ap (λ y. front ++ bound_record x y ∷ []) (append_assoc' before raw (flat raws))),
      )

  -- The original bytes with the separator end in a line feed, if there are any.
  separated : (raw : List ℕ) → IsComplete (raw ++ separator raw)
  separated [] = no_line
  separated (b ∷ raw) = elim (Bool-cases (last_byte b raw == 10)) [
    | inl t ↦
        let ends : (b ∷ raw) ≡ init (b ∷ raw) ++ 10 ∷ [] =
          sym (init-snoc b raw)
          ∙ ap (λ k. init (b ∷ raw) ++ k ∷ []) ((==_iff (last_byte b raw) 10).0 t) in
        rw t (subst IsComplete (sym ends ∙ append_nil (b ∷ raw)) (some_lines (init (b ∷ raw))))
    | inr t ↦ rw t (some_lines (b ∷ raw))
  ]

  payload_lines :
      (raw encoded : List ℕ)
      → HasNoLineFeed encoded
      → raw_lines (raw ++ (separator raw ++ (encoded ++ 10 ∷ [])))
        ≡ raw_lines (raw ++ separator raw) ++ (encoded ++ 10 ∷ []) ∷ []
  payload_lines raw encoded h =
      ap raw_lines (sym (append_assoc' raw (separator raw) (encoded ++ 10 ∷ [])))
      ∙ raw_lines-more (raw ++ separator raw) encoded (separated raw) h

  -- Where the bytes that signing writes are loaded, and the record's line has no line feed in it and is
  -- decoded as a signature record, the last record is that one, and one of its two prefix hashes is the
  -- hash of the bytes that were signed, whether or not these ended in a line feed.
  pub signed-IsBoundTo :
      (c : Codec) (limits : LoadLimits) (reads : ℕ → ℕ) (raw encoded : List ℕ) (rs : List Record)
      (b : ℕ) (l : List ℕ) (x : Event × String)
      → HasNoLineFeed encoded
      → trim (encoded ++ 10 ∷ []) ≡ b ∷ l
      → c.decode_record (b ∷ l) ≡ some x
      → str_eq x.0.type_id bundle_signature_type ≡ true
      → load_reader sum c limits reads (raw ++ (separator raw ++ (encoded ++ 10 ∷ []))) ≡ ok rs
      → (front : List Record) × (last : Record) × (rs ≡ front ++ last ∷ [])
        × (last.event ≡ x.0)
        × IsBoundTo last.prefix (sum raw)
  signed-IsBoundTo c limits reads raw encoded rs b l x one_line t d s p =
      let before = raw ++ separator raw in
      let read =
        load_reader-Reads sum c limits reads (raw ++ (separator raw ++ (encoded ++ 10 ∷ []))) rs
          p in
      let lines = subst (λ k. Reads sum c [] k rs) (payload_lines raw encoded one_line) read.0 in
      let (front, e) = Reads-last c (raw_lines before) [] (encoded ++ 10 ∷ []) rs b l x lines t d in
      (
        front,
        bound_record x (flat (raw_lines before)),
        e,
        refl,
        subst (λ k. IsBoundTo k (sum raw))
            (sym (prefix_for-signature x (flat (raw_lines before)) s))
            (subst (λ k. IsBoundTo (snapshot sum (behind k)) (sum raw))
              (sym (flat-raw_lines before)) (snapshot-IsBoundTo raw)),
      )
