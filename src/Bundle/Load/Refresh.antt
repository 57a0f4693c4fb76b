-- ===== src/Bundle/Load/Refresh.antt =====
-- setSourcePrefixHashes against the loader: what Save leaves in memory is what Load reads back
-- (internal/bundle/bundle.go).
use atb.Prelude.{
  ◌==◌, Bool-cases, length, zero, suc, ◌≤◌, arith, ℕ, ◌≡◌, refl, ap, sym, ◌∙◌, map, List-cases, inl,
  inr, List, [], ◌∷◌, ◌++◌,
}
use atb.Prelude.Result.{ok}
use atb.Bundle.{Record, Codec}
use atb.Bundle.Load.{
  LoadLimits, load_reader, prefix_for, reset, next_line, set_prefixes_from,
  set_source_prefix_hashes,
}
use atb.Bundle.Load.Laws.{Reads, reads_end, reads_blank, reads_record, load_reader-Reads}
use atb.Bundle.Load.Lines.{raw_lines, attach, trim}
use atb.Bundle.Load.Prefix.{Tracker, start, add}
use atb.Bundle.Load.Prefix.Laws.{behind, add-behind}

map-reset : (rs : List Record) → map reset (map reset rs) ≡ map reset rs
map-reset [] = refl
map-reset (r ∷ rs) = ap (λ l. reset r ∷ l) (map-reset rs)

-- What the loop leaves, by the lines of the loader.
by_lines : (List ℕ → List ℕ) → Tracker → List (List ℕ) → List Record → List Record
by_lines sum t [] rs = map reset rs
by_lines sum t (raw ∷ raws) [] = []
by_lines sum t (raw ∷ raws) (r ∷ rs) = elim (trim raw) [
  | [] ↦ by_lines sum (add t raw) raws (r ∷ rs)
  | _ ∷ _ ↦
      record r { prefix = prefix_for sum r.event.type_id t } ∷ by_lines sum (add t raw) raws rs
]

-- The loop cuts the bytes into the lines of the scanner.
raw_lines-next_line :
    (b : ℕ) (bs : List ℕ)
    → raw_lines (b ∷ bs) ≡ (next_line (b ∷ bs)).0 ∷ raw_lines (next_line (b ∷ bs)).1
unfolding raw_lines attach next_line
raw_lines-next_line b [] = elim (Bool-cases (b == 10)) [ inl e ↦ rw e refl | inr e ↦ rw e refl ]
raw_lines-next_line b (c ∷ cs) = elim (Bool-cases (b == 10)) [
  | inl e ↦ rw e refl
  | inr e ↦ rw e (ap (attach b) (raw_lines-next_line c cs))
]

length-next_line : (b : ℕ) (bs : List ℕ) → length (next_line (b ∷ bs)).1 ≤ length bs
unfolding next_line
length-next_line b [] = elim (Bool-cases (b == 10)) [
  | inl e ↦ rw e (omega arith)
  | inr e ↦ rw e (omega arith)
]
length-next_line b (c ∷ cs) = elim (Bool-cases (b == 10)) [
  | inl e ↦ rw e (omega arith)
  | inr e ↦ rw e (omega (arith, length-next_line c cs))
]

module _ (sum : List ℕ → List ℕ) where
  by_lines-blank :
      (t : Tracker) (raw : List ℕ) (raws : List (List ℕ)) (rs : List Record)
      → trim raw ≡ []
      → by_lines sum t (raw ∷ raws) rs ≡ by_lines sum (add t raw) raws rs
  unfolding by_lines
  by_lines-blank t raw [] [] q = refl
  by_lines-blank t raw (l ∷ raws) [] q = refl
  by_lines-blank t raw raws (r ∷ rs) q = rw (q, by_lines)

  by_lines-record :
      (t : Tracker) (raw : List ℕ) (raws : List (List ℕ)) (r : Record) (rs : List Record) (b : ℕ)
      (line : List ℕ)
      → trim raw ≡ b ∷ line
      → by_lines sum t (raw ∷ raws) (r ∷ rs)
        ≡ record r { prefix = prefix_for sum r.event.type_id t } ∷ by_lines sum (add t raw) raws rs
  unfolding by_lines
  by_lines-record t raw raws r rs b line q = rw (q, by_lines)

  set_prefixes_from-blank :
      (left : ℕ) (t : Tracker) (b : ℕ) (bs : List ℕ) (r : Record) (rs : List Record)
      → trim (next_line (b ∷ bs)).0 ≡ []
      → set_prefixes_from sum (suc left) t (b ∷ bs) (r ∷ rs)
        ≡ set_prefixes_from sum left (add t (next_line (b ∷ bs)).0) (next_line (b ∷ bs)).1 (r ∷ rs)
  unfolding set_prefixes_from
  set_prefixes_from-blank left t b bs r rs q = rw (q, set_prefixes_from)

  set_prefixes_from-record :
      (left : ℕ) (t : Tracker) (b : ℕ) (bs : List ℕ) (r : Record) (rs : List Record) (x : ℕ)
      (text : List ℕ)
      → trim (next_line (b ∷ bs)).0 ≡ x ∷ text
      → set_prefixes_from sum (suc left) t (b ∷ bs) (r ∷ rs)
        ≡ record r { prefix = prefix_for sum r.event.type_id t }
          ∷ set_prefixes_from sum left (add t (next_line (b ∷ bs)).0) (next_line (b ∷ bs)).1 rs
  unfolding set_prefixes_from
  set_prefixes_from-record left t b bs r rs x text q = rw (q, set_prefixes_from)

  -- As many rounds as there are bytes are enough.
  set_prefixes_from-by_lines :
      (left : ℕ) (t : Tracker) (raw : List ℕ) (rs : List Record)
      → length raw ≤ left
      → set_prefixes_from sum left t raw rs ≡ by_lines sum t (raw_lines raw) rs
  unfolding set_prefixes_from raw_lines by_lines
  set_prefixes_from-by_lines zero t [] rs le = refl
  set_prefixes_from-by_lines zero t (b ∷ bs) rs le = absurd (omega arith)
  set_prefixes_from-by_lines (suc left) t [] rs le = refl
  set_prefixes_from-by_lines (suc left) t (b ∷ bs) [] le = rw (raw_lines-next_line b bs) refl
  set_prefixes_from-by_lines (suc left) t (b ∷ bs) (r ∷ rs) le =
      let line = (next_line (b ∷ bs)).0 in
      let rest = (next_line (b ∷ bs)).1 in
      let fewer : length rest ≤ left = omega (arith, length-next_line b bs) in
      let lines = ap (λ l. by_lines sum t l (r ∷ rs)) (raw_lines-next_line b bs) in
      elim (List-cases (trim line)) [
        | inl q ↦
            set_prefixes_from-blank left t b bs r rs q
            ∙ set_prefixes_from-by_lines left (add t line) rest (r ∷ rs) fewer
            ∙ sym (by_lines-blank t line (raw_lines rest) (r ∷ rs) q)
            ∙ sym lines
        | inr (x, text, q) ↦
            set_prefixes_from-record left t b bs r rs x text q
            ∙ ap (λ l. record r { prefix = prefix_for sum r.event.type_id t } ∷ l)
                (set_prefixes_from-by_lines left (add t line) rest rs fewer)
            ∙ sym (by_lines-record t line (raw_lines rest) r rs x text q)
            ∙ sym lines
      ]

  -- The metadata that the records had before does not matter.
  by_lines-reset :
      (t : Tracker) (raws : List (List ℕ)) (rs : List Record)
      → by_lines sum t raws (map reset rs) ≡ by_lines sum t raws rs
  by_lines-reset t [] [] = refl
  by_lines-reset t [] (r ∷ rs) = unfold by_lines in ap (λ l. reset r ∷ l) (map-reset rs)
  by_lines-reset t (raw ∷ raws) [] = refl
  by_lines-reset t (raw ∷ raws) (r ∷ rs) = elim (List-cases (trim raw)) [
    | inl q ↦
        by_lines-blank t raw raws (map reset (r ∷ rs)) q
        ∙ by_lines-reset (add t raw) raws (r ∷ rs)
        ∙ sym (by_lines-blank t raw raws (r ∷ rs) q)
    | inr (b, line, q) ↦
        by_lines-record t raw raws (reset r) (map reset rs) b line q
        ∙ ap (λ l. record r { prefix = prefix_for sum r.event.type_id t } ∷ l)
            (by_lines-reset (add t raw) raws rs)
        ∙ sym (by_lines-record t raw raws r rs b line q)
  ]

  restored :
      (c : Codec) (before : List ℕ) (raws : List (List ℕ)) (rs : List Record)
      → Reads sum c before raws rs
      → by_lines sum (behind before) raws rs ≡ rs
  restored c _ _ _ (reads_end before) = unfold by_lines in refl
  restored c _ _ _ (reads_blank before raw raws rs q r) =
      by_lines-blank (behind before) raw raws rs q
      ∙ ap (λ t. by_lines sum t raws rs) (add-behind before raw)
      ∙ restored c (before ++ raw) raws rs r
  restored c _ _ _ (reads_record before raw raws rs b line e h q d r) =
      let tail = λ (t : Tracker). by_lines sum t raws rs in
      let rec : Record = record {
        event = e;
        hash = h;
        prefix = prefix_for sum e.type_id (behind before);
      } in
      by_lines-record (behind before) raw raws rec rs b line q
      ∙ ap (λ l. rec ∷ l) (ap tail (add-behind before raw) ∙ restored c (before ++ raw) raws rs r)

  -- Records that agree with those that a file loads as, apart from the metadata, get exactly the
  -- metadata of the loaded records from setSourcePrefixHashes on the bytes of the file.
  pub set_source_prefix_hashes-load :
      (c : Codec) (limits : LoadLimits) (reads : ℕ → ℕ) (input : List ℕ) (old loaded : List Record)
      → load_reader sum c limits reads input ≡ ok loaded
      → map reset old ≡ map reset loaded
      → set_source_prefix_hashes sum old input ≡ loaded
  unfolding set_source_prefix_hashes
  set_source_prefix_hashes-load c limits reads input old loaded p q =
      set_prefixes_from-by_lines (length input) start input old (omega arith)
      ∙ sym (by_lines-reset start (raw_lines input) old)
      ∙ ap (by_lines sum start (raw_lines input)) q
      ∙ by_lines-reset start (raw_lines input) loaded
      ∙ restored c [] (raw_lines input) loaded
          (load_reader-Reads sum c limits reads input loaded p).0
