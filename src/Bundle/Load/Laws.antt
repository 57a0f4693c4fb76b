-- ===== src/Bundle/Load/Laws.antt =====
-- What the rounds of the loader have read, line by line (internal/bundle/bundle.go).
use atb.Prelude.{
  ℕ, true, ◌||◌, suc, ◌+◌, ◌≤◌, ◌≡◌, refl, subst, Bool, false, List, [], ◌∷◌, ◌++◌, Option, none,
  some, length, ltb, String, arith,
}
use atb.Prelude.Int.{ℤ, pos, negsuc, leb_ℤ, ltb_ℤ}
use atb.Prelude.Result.{Result, ok, ◌>>=◌, ◌>>◌, fail_if, >>=-eq-ok, fail_if-then, ok_injective}
use atb.Event.{Event}
use atb.Bundle.{
  Record, Error, Codec, too_many_records, scan_failed, too_many_bytes, line_too_long,
  limits_not_positive,
}
use atb.Bundle.Load.{
  LoadLimits, max_line_size, overflows, decoded, record_of, load_line, load_lines, load_reader,
  finish, check_manifest, prefix_for, cons?, count_one,
}
use atb.Bundle.Load.Lines.{raw_lines, trim}
use atb.Bundle.Load.Prefix.{Tracker, start, add}
use atb.Bundle.Load.Prefix.Laws.{behind, add-behind}

-- The records of the lines `raws` that stand behind the bytes `before`: one for each line that is not
-- blank, decoded from it, and if it is a signature bound to the bytes before its line.
pub data Reads (sum : List ℕ → List ℕ) (c : Codec)
    : List ℕ → List (List ℕ) → List Record → Type 0 where
  reads_end : (before : List ℕ) → Reads sum c before [] []
  reads_blank :
      (before raw : List ℕ) (raws : List (List ℕ)) (rs : List Record)
      → trim raw ≡ []
      → Reads sum c (before ++ raw) raws rs
      → Reads sum c before (raw ∷ raws) rs
  reads_record :
      (before raw : List ℕ) (raws : List (List ℕ)) (rs : List Record) (b : ℕ) (line : List ℕ)
      (e : Event) (h : String)
      → trim raw ≡ b ∷ line
      → c.decode_record (b ∷ line) ≡ some (e, h)
      → Reads sum c (before ++ raw) raws rs
      → Reads sum c before
          (raw ∷ raws)
          (record { event = e; hash = h; prefix = prefix_for sum e.type_id (behind before) } ∷ rs)

-- A number against a limit.
abbrev pub IsWithin : ℕ → ℤ → Type 0
IsWithin n (pos m) = n ≤ m
IsWithin n (negsuc m) = ⊥

within : (n : ℕ) (limit : ℤ) → ltb_ℤ limit (pos n) ≡ false → IsWithin n limit
within n (pos m) h = ground arith
within n (negsuc m) h = cc

one_within : (n : ℕ) (limit : ℤ) → leb_ℤ limit (pos n) ≡ false → IsWithin (suc n) limit
one_within n (pos m) h = ground arith
one_within n (negsuc m) h = cc

zero_within : (a : Bool) (limit : ℤ) → (a || leb_ℤ limit (pos 0)) ≡ false → IsWithin 0 limit
zero_within true limit h = cc
zero_within false (pos m) h = omega arith
zero_within false (negsuc m) h = cc

past :
    {B : Type 0} (b : Bool) (e : Error) (k : Result Error B) {y : B}
    → (fail_if b e >> k) ≡ ok y
    → k ≡ ok y
past b e k p = (fail_if-then b e k p).1

-- What one round has found in a line without its end.
data Found (sum : List ℕ → List ℕ) (c : Codec) (limits : LoadLimits) (count : ℕ) (t : Tracker)
    : List ℕ → Option Record → Type 0 where
  found_blank : Found sum c limits count t [] none
  found_record :
      (b : ℕ) (line : List ℕ) (e : Event) (h : String)
      → c.decode_record (b ∷ line) ≡ some (e, h)
      → leb_ℤ limits.max_records (pos count) ≡ false
      → Found sum c limits count t
          (b ∷ line)
          (some (record { event = e; hash = h; prefix = prefix_for sum e.type_id t }))

module _ (sum : List ℕ → List ℕ) (c : Codec) (limits : LoadLimits) where
  decoded-ok :
      (count : ℕ) (t : Tracker) (b : ℕ) (line : List ℕ) (o : Option (Event × String)) (r : Record)
      → c.decode_record (b ∷ line) ≡ o
      → leb_ℤ limits.max_records (pos count) ≡ false
      → decoded sum t o ≡ ok r
      → Found sum c limits count t (b ∷ line) (some r)
  unfolding decoded
  decoded-ok count t b line none r d p q = cc
  decoded-ok count t b line (some (e, h)) r d p q =
      subst (λ x. Found sum c limits count t (b ∷ line) (some x)) (ok_injective q)
        (found_record b line e h d p)

  record_of-Found :
      (count : ℕ) (t : Tracker) (line : List ℕ) (found : Option Record)
      → record_of sum c limits count t line ≡ ok found
      → Found sum c limits count t line found
  unfolding record_of
  record_of-Found count t [] found p =
      subst (λ x. Found sum c limits count t [] x) (ok_injective p) found_blank
  record_of-Found count t (b ∷ line) found p =
      let rest = decoded sum t (c.decode_record (b ∷ line)) >>= (λ r. ok (some r)) in
      let (room, q) = fail_if-then (leb_ℤ limits.max_records (pos count)) too_many_records rest p in
      let (r, d, s) = >>=-eq-ok (decoded sum t (c.decode_record (b ∷ line))) (λ r. ok (some r)) q in
      subst (λ x. Found sum c limits count t (b ∷ line) x) (ok_injective s)
        (decoded-ok count t b line (c.decode_record (b ∷ line)) r refl room d)

  load_line-Found :
      (read count : ℕ) (t : Tracker) (raw : List ℕ) (found : Option Record)
      → load_line sum c limits read count t raw ≡ ok found
      → Found sum c limits count t (trim raw) found
  unfolding load_line
  load_line-Found read count t raw found p = record_of-Found count t (trim raw) found (
      past (ltb max_line_size (length (trim raw))) line_too_long
        (record_of sum c limits count t (trim raw))
        (past (ltb_ℤ limits.max_bytes (pos read)) too_many_bytes _
          (past (overflows raw) scan_failed _ p)))

  load_lines-step :
      (reads : ℕ → ℕ) (i count : ℕ) (t : Tracker) (raw : List ℕ) (raws : List (List ℕ))
      (rs : List Record)
      → load_lines sum c limits reads i count t (raw ∷ raws) ≡ ok rs
      → (found : Option Record) × (rest : List Record) × (load_line sum c limits
            (reads i)
            count
            t
            raw
          ≡ ok found)
        × (load_lines sum c limits reads (suc i) (count_one found count) (add t raw) raws ≡ ok rest)
        × (cons? found rest ≡ rs)
  unfolding load_lines
  load_lines-step reads i count t raw raws rs p =
      let after = λ (found : Option Record).
        load_lines sum c limits reads (suc i) (count_one found count) (add t raw) raws in
      let (found, l, q) =
        >>=-eq-ok (load_line sum c limits (reads i) count t raw)
          (λ found. after found >>= λ rest. ok (cons? found rest)) p in
      let (rest, m, r) = >>=-eq-ok (after found) (λ rest. ok (cons? found rest)) q in
      (found, rest, l, m, ok_injective r)

  -- A round's record goes in front of those of the rounds behind it.
  Reads-round :
      (count : ℕ) (before raw : List ℕ) (raws : List (List ℕ)) (rest : List Record) (line : List ℕ)
      (found : Option Record)
      → trim raw ≡ line
      → Found sum c limits count (behind before) line found
      → Reads sum c (before ++ raw) raws rest
      → Reads sum c before (raw ∷ raws) (cons? found rest)
  Reads-round count before raw raws rest _ _ q found_blank r = reads_blank before raw raws rest q r
  Reads-round count before raw raws rest _ _ q (found_record b line e h d room) r =
      reads_record before raw raws rest b line e h q d r

  load_lines-Reads :
      (reads : ℕ → ℕ) (i count : ℕ) (before : List ℕ) (raws : List (List ℕ)) (rs : List Record)
      → load_lines sum c limits reads i count (behind before) raws ≡ ok rs
      → Reads sum c before raws rs
  unfolding load_lines
  load_lines-Reads reads i count before [] rs p =
      subst (Reads sum c before []) (ok_injective p) (reads_end before)
  load_lines-Reads reads i count before (raw ∷ raws) rs p =
      let (found, rest, l, m, q) = load_lines-step reads i count (behind before) raw raws rs p in
      let m' =
        subst (λ t. load_lines sum c limits reads (suc i) (count_one found count) t raws ≡ ok rest)
          (add-behind before raw) m in
      subst (Reads sum c before (raw ∷ raws)) q (
        Reads-round count before raw raws rest (trim raw) found refl
          (load_line-Found (reads i) count (behind before) raw found l)
          (load_lines-Reads reads (suc i) (count_one found count) (before ++ raw) raws rest m'))

  counted :
      (count : ℕ) (t : Tracker) (line : List ℕ) (found : Option Record)
      → Found sum c limits count t line found
      → IsWithin count limits.max_records
      → IsWithin (count_one found count) limits.max_records
  counted count t _ _ found_blank le = le
  counted count t _ _ (found_record b line e h d room) le = one_within count limits.max_records room

  add_zero' : (n : ℕ) → n ≡ n + 0
  add_zero' n = omega arith

  zero_add : (n : ℕ) → 0 + n ≡ n
  zero_add n = omega arith

  length-cons? :
      (count : ℕ) (found : Option Record) (rest : List Record)
      → count_one found count + length rest ≡ count + length (cons? found rest)
  length-cons? count none rest = refl
  length-cons? count (some r) rest = omega arith

  load_lines-count :
      (reads : ℕ → ℕ) (i count : ℕ) (t : Tracker) (raws : List (List ℕ)) (rs : List Record)
      → load_lines sum c limits reads i count t raws ≡ ok rs
      → IsWithin count limits.max_records
      → IsWithin (count + length rs) limits.max_records
  unfolding load_lines
  load_lines-count reads i count t [] rs p le =
      subst (λ l. IsWithin (count + length l) limits.max_records) (ok_injective p)
        (subst (λ n. IsWithin n limits.max_records) (add_zero' count) le)
  load_lines-count reads i count t (raw ∷ raws) rs p le =
      let (found, rest, l, m, q) = load_lines-step reads i count t raw raws rs p in
      let next =
        counted count t (trim raw) found (load_line-Found (reads i) count t raw found l) le in
      let all =
        load_lines-count reads (suc i) (count_one found count) (add t raw) raws rest m next in
      subst (λ l. IsWithin (count + length l) limits.max_records) q
        (subst (λ n. IsWithin n limits.max_records) (length-cons? count found rest) all)

  load_lines-limit :
      (reads : ℕ → ℕ) (raws : List (List ℕ)) (rs : List Record)
      → load_lines sum c limits reads 0 0 start raws ≡ ok rs
      → IsWithin 0 limits.max_records
      → IsWithin (length rs) limits.max_records
  load_lines-limit reads raws rs p positive =
      subst (λ n. IsWithin n limits.max_records) (zero_add (length rs))
        (load_lines-count reads 0 0 start raws rs p positive)

  -- The checks behind the loop pass the records on.
  finish-ok :
      (input : List ℕ) (found rs : List Record)
      → finish c limits input found ≡ ok rs
      → (IsWithin (length input) limits.max_bytes) × (found ≡ rs)
  unfolding finish
  finish-ok input found rs p =
      let (room, q) =
        fail_if-then (ltb_ℤ limits.max_bytes (pos (length input))) too_many_bytes
          (check_manifest c found >> ok found) p in
      let (_, _, r) = >>=-eq-ok (check_manifest c found) (λ _. ok found) q in
      (within (length input) limits.max_bytes room, ok_injective r)

  -- A loaded bundle has one record for each line of the file that is not blank, in the order of the
  -- lines, decoded from the line without its end, with the hash of the bytes in front of the line if it
  -- is a signature record. The file and the bundle are within the limits.
  pub load_reader-Reads :
      (reads : ℕ → ℕ) (input : List ℕ) (rs : List Record)
      → load_reader sum c limits reads input ≡ ok rs
      → Reads sum c [] (raw_lines input) rs
        × (IsWithin (length rs) limits.max_records)
        × (IsWithin (length input) limits.max_bytes)
  unfolding load_reader
  load_reader-Reads reads input rs p =
      let lines = load_lines sum c limits reads 0 0 start (raw_lines input) in
      let (positive, q) =
        fail_if-then (leb_ℤ limits.max_bytes (pos 0) || leb_ℤ limits.max_records (pos 0))
          limits_not_positive (lines >>= finish c limits input) p in
      let (found, l, r) = >>=-eq-ok lines (finish c limits input) q in
      let (room, e) = finish-ok input found rs r in
      subst
        (λ l.
          Reads sum c [] (raw_lines input) l
          × (IsWithin (length l) limits.max_records)
          × (IsWithin (length input) limits.max_bytes))
        e
        (
          load_lines-Reads reads 0 0 [] (raw_lines input) found l,
          load_lines-limit reads (raw_lines input) found l
              (zero_within (leb_ℤ limits.max_bytes (pos 0)) limits.max_records positive),
          room,
        )
