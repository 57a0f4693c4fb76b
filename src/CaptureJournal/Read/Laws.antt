-- ===== src/CaptureJournal/Read/Laws.antt =====
-- What readEntries accepts (internal/capturejournal/journal.go).
use atb.Prelude.{
  ℕ, suc, ◌+◌, ◌≡◌, refl, sym, ap, ◌∙◌, subst, String, Bool, false, not, List, [], ◌∷◌, ◌++◌,
  Option, none, some, length, ltb, str_eq, eq_iff, eq_refl, double_negative, same_iff, inl, inr,
  Bool-cases, arith,
}
use atb.Prelude.Int.{pos, eqb_ℤ, eqb_ℤ→eq, eqb_ℤ-refl}
use atb.Prelude.Result.{
  Result, ok, err, ◌>>=◌, ◌>>◌, fail_if, >>=-eq-ok, fail_if-then, ok_injective,
}
use atb.Canonicalize.{Platform}
use atb.CaptureJournal.{
  Entry, JournalError, EntryCodec, compute_hash, journal_format_version, max_line_bytes,
  unsupported_version, wrong_position, wrong_prev_hash, line_overflow,
}
use atb.CaptureJournal.Space.{trim_space}
use atb.CaptureJournal.Read.{
  check_entry, check_hash, found_in, entry_in, read_line, read_lines, count_of, hash_of, last_hash,
  cons?,
}

err_ok : {E A : Type 0} {x : E} {a : A} → ◌≡◌ {A = Result E A} (err x) (ok a) → ⊥
err_ok p = cc

-- An entry that stands behind `n` others of which the last has the hash `prev`.
pub record IsNext (pf : Platform) (n : ℕ) (prev : String) (e : Entry) : Type 0 where
  pub version_one : e.format_version ≡ pos 1
  pub in_place : e.position ≡ pos (n + 1)
  pub on_previous : e.prev_hash ≡ prev
  pub hash_right : compute_hash pf e ≡ some e.hash

-- Entries with the positions n + 1, n + 2 and so on, each on the hash of the one before, with the hashes
-- that their contents have.
abbrev pub IsJournal : Platform → ℕ → String → List Entry → Type 0
IsJournal pf n prev [] = Unit
IsJournal pf n prev (e ∷ es) = IsNext pf n prev e × IsJournal pf (suc n) e.hash es

pass_three :
    (a b c : Bool) (u v w : JournalError) {k : Result JournalError Entry}
    → a ≡ false
    → b ≡ false
    → c ≡ false
    → (fail_if a u >> (fail_if b v >> (fail_if c w >> k))) ≡ k
pass_three a b c u v w p q r = rw (p, q, r) refl

module _ (pf : Platform) (i n : ℕ) (prev : String) where
  check_hash-ok :
      (e e' : Entry) (o : Option String) → check_hash i e o ≡ ok e' → (o ≡ some e.hash) × (e ≡ e')
  unfolding check_hash
  check_hash-ok e e' none p = cc
  check_hash-ok e e' (some h) p = elim (Bool-cases (str_eq h e.hash)) [
    | inl t ↦ (ap some ((eq_iff h e.hash).0 t), ok_injective (rw t at p))
    | inr t ↦ absurd (err_ok (rw t at p))
  ]

  check_hash_complete : (e : Entry) (o : Option String) → o ≡ some e.hash → check_hash i e o ≡ ok e
  unfolding check_hash
  check_hash_complete e o p = rw (p, check_hash, eq_refl e.hash) refl

  check_entry-ok :
      (e e' : Entry) → check_entry pf i n prev e ≡ ok e' → IsNext pf n prev e × (e ≡ e')
  unfolding check_entry
  check_entry-ok e e' p =
      let last = check_hash i e (compute_hash pf e) in
      let third = fail_if (not (str_eq e.prev_hash prev)) (wrong_prev_hash i) >> last in
      let second =
        fail_if (not (eqb_ℤ e.position (pos (n + 1)))) (wrong_position i e.position (n + 1))
        >> third in
      let (v, q) =
        fail_if-then (not (eqb_ℤ e.format_version journal_format_version))
          (unsupported_version e.format_version) second p in
      let (w, r) =
        fail_if-then (not (eqb_ℤ e.position (pos (n + 1)))) (wrong_position i e.position (n + 1))
          third q in
      let (x, s) = fail_if-then (not (str_eq e.prev_hash prev)) (wrong_prev_hash i) last r in
      let (h, same) = check_hash-ok e e' (compute_hash pf e) s in
      (
        record {
          version_one =
              eqb_ℤ→eq e.format_version (pos 1)
                (double_negative (eqb_ℤ e.format_version (pos 1)) v);
          in_place =
              eqb_ℤ→eq e.position (pos (n + 1))
                (double_negative (eqb_ℤ e.position (pos (n + 1))) w);
          on_previous = (same_iff e.prev_hash prev).0 x;
          hash_right = h;
        },
        same,
      )

  check_entry_complete : (e : Entry) → IsNext pf n prev e → check_entry pf i n prev e ≡ ok e
  unfolding check_entry
  check_entry_complete e h =
      pass_three (not (eqb_ℤ e.format_version journal_format_version))
        (not (eqb_ℤ e.position (pos (n + 1)))) (not (str_eq e.prev_hash prev))
        (unsupported_version e.format_version) (wrong_position i e.position (n + 1))
        (wrong_prev_hash i) (ap (λ v. not (eqb_ℤ v (pos 1))) h.version_one)
        (ap (λ v. not (eqb_ℤ v (pos (n + 1)))) h.in_place ∙ ap not (eqb_ℤ-refl (pos (n + 1))))
        ((same_iff e.prev_hash prev).1 h.on_previous)
      ∙ check_hash_complete e (compute_hash pf e) h.hash_right

-- What a round has found: nothing, or an entry that is the next one.
abbrev IsFound : Platform → ℕ → String → Option Entry → Type 0
IsFound pf n prev none = Unit
IsFound pf n prev (some e) = IsNext pf n prev e

module _ (pf : Platform) (c : EntryCodec) where
  found_in-IsFound :
      (i n : ℕ) (prev : String) (o found : Option Entry)
      → found_in pf i n prev o ≡ ok found
      → IsFound pf n prev found
  unfolding found_in
  found_in-IsFound i n prev none found p = cc
  found_in-IsFound i n prev (some e) found p =
      let (e', q, r) = >>=-eq-ok (check_entry pf i n prev e) (λ x. ok (some x)) p in
      let (next, same) = check_entry-ok pf i n prev e e' q in
      subst (IsFound pf n prev) (ok_injective r) (subst (IsNext pf n prev) same next)

  entry_in-IsFound :
      (i n : ℕ) (prev : String) (line : List ℕ) (found : Option Entry)
      → entry_in pf c i n prev line ≡ ok found
      → IsFound pf n prev found
  unfolding entry_in
  entry_in-IsFound i n prev [] found p = subst (IsFound pf n prev) (ok_injective p) tt
  entry_in-IsFound i n prev (b ∷ line) found p =
      found_in-IsFound i n prev (c.decode (b ∷ line)) found p

  read_line-IsFound :
      (i n : ℕ) (prev : String) (raw : List ℕ) (found : Option Entry)
      → read_line pf c i n prev raw ≡ ok found
      → IsFound pf n prev found
  unfolding read_line
  read_line-IsFound i n prev raw found p =
      entry_in-IsFound i n prev (trim_space raw) found
        (fail_if-then (ltb max_line_bytes (length raw)) line_overflow
          (entry_in pf c i n prev (trim_space raw)) p).1

  IsJournal-cons? :
      (n : ℕ) (prev : String) (found : Option Entry) (rest : List Entry)
      → IsFound pf n prev found
      → IsJournal pf (count_of found n) (hash_of found prev) rest
      → IsJournal pf n prev (cons? found rest)
  IsJournal-cons? n prev none rest h k = k
  IsJournal-cons? n prev (some e) rest h k = (h, k)

  read_lines-step :
      (i n : ℕ) (prev : String) (raw : List ℕ) (raws : List (List ℕ)) (es : List Entry)
      → read_lines pf c i n prev (raw ∷ raws) ≡ ok es
      → (found : Option Entry) × (rest : List Entry) × (read_line pf c i n prev raw ≡ ok found)
        × (read_lines pf c (suc i) (count_of found n) (hash_of found prev) raws ≡ ok rest)
        × (cons? found rest ≡ es)
  unfolding read_lines
  read_lines-step i n prev raw raws es p =
      let after =
        λ (f : Option Entry). read_lines pf c (suc i) (count_of f n) (hash_of f prev) raws in
      let (found, l, q) =
        >>=-eq-ok (read_line pf c i n prev raw) (λ f. after f >>= λ rest. ok (cons? f rest)) p in
      let (rest, m, r) = >>=-eq-ok (after found) (λ rest. ok (cons? found rest)) q in
      (found, rest, l, m, ok_injective r)

  -- What the loop returns is a journal.
  pub read_lines-IsJournal :
      (i n : ℕ) (prev : String) (raws : List (List ℕ)) (es : List Entry)
      → read_lines pf c i n prev raws ≡ ok es
      → IsJournal pf n prev es
  unfolding read_lines
  read_lines-IsJournal i n prev [] es p = subst (IsJournal pf n prev) (ok_injective p) tt
  read_lines-IsJournal i n prev (raw ∷ raws) es p =
      let (found, rest, l, m, q) = read_lines-step i n prev raw raws es p in
      subst (IsJournal pf n prev) q (
        IsJournal-cons? n prev found rest (read_line-IsFound i n prev raw found l)
          (read_lines-IsJournal (suc i) (count_of found n) (hash_of found prev) raws rest m))

  read_lines-join :
      (i n : ℕ) (prev : String) (raw : List ℕ) (raws : List (List ℕ)) (found : Option Entry)
      (rest : List Entry)
      → read_line pf c i n prev raw ≡ ok found
      → read_lines pf c (suc i) (count_of found n) (hash_of found prev) raws ≡ ok rest
      → read_lines pf c i n prev (raw ∷ raws) ≡ ok (cons? found rest)
  unfolding read_lines
  read_lines-join i n prev raw raws found rest p q = rw (p, q) refl

  -- What the first round found, taken out of the state behind the whole.
  state_of :
      (n : ℕ) (prev : String) (found : Option Entry) (rest : List Entry) (P : ℕ → String → Type 0)
      → P (n + length (cons? found rest)) (last_hash prev (cons? found rest))
      → P (count_of found n + length rest) (last_hash (hash_of found prev) rest)
  state_of n prev none rest P h = h
  state_of n prev (some e) rest P h = subst (λ k. P k (last_hash e.hash rest)) (omega arith) h

  cons?-append :
      (found : Option Entry) (rest : List Entry) (e : Entry)
      → cons? found (rest ++ e ∷ []) ≡ cons? found rest ++ e ∷ []
  cons?-append none rest e = refl
  cons?-append (some f) rest e = refl

  read_lines-last :
      (i n : ℕ) (prev : String) (raw : List ℕ) (e : Entry)
      → read_line pf c i n prev raw ≡ ok (some e)
      → read_lines pf c i n prev (raw ∷ []) ≡ ok (e ∷ [])
  unfolding read_lines
  read_lines-last i n prev raw e p = read_lines-join i n prev raw [] (some e) [] p refl

  -- One more line, with an entry on the last one.
  pub read_lines-snoc :
      (i n : ℕ) (prev : String) (raws : List (List ℕ)) (raw : List ℕ) (es : List Entry) (e : Entry)
      → read_lines pf c i n prev raws ≡ ok es
      → ((j : ℕ) → read_line pf c j (n + length es) (last_hash prev es) raw ≡ ok (some e))
      → read_lines pf c i n prev (raws ++ raw ∷ []) ≡ ok (es ++ e ∷ [])
  unfolding read_lines
  read_lines-snoc i n prev [] raw es e p h =
      let none_yet : es ≡ [] = sym (ok_injective p) in
      let here =
        subst (λ l. (j : ℕ) → read_line pf c j (n + length l) (last_hash prev l) raw ≡ ok (some e))
          none_yet h in
      subst (λ l. read_lines pf c i n prev (raw ∷ []) ≡ ok (l ++ e ∷ [])) (sym none_yet)
        (read_lines-last i n prev raw e
          (subst (λ k. read_line pf c i k prev raw ≡ ok (some e)) (omega arith) (here i)))
  read_lines-snoc i n prev (r ∷ raws) raw es e p h =
      let (found, rest, l, m, q) = read_lines-step i n prev r raws es p in
      let here =
        subst (λ x. (j : ℕ) → read_line pf c j (n + length x) (last_hash prev x) raw ≡ ok (some e))
          (sym q) h in
      let later =
        read_lines-snoc (suc i) (count_of found n) (hash_of found prev) raws raw rest e m (
          state_of n prev found rest (λ k x. (j : ℕ) → read_line pf c j k x raw ≡ ok (some e))
            here) in
      subst (λ x. read_lines pf c i n prev (r ∷ (raws ++ raw ∷ [])) ≡ ok x)
        (cons?-append found rest e ∙ ap (λ x. x ++ e ∷ []) q)
        (read_lines-join i n prev r (raws ++ raw ∷ []) found (rest ++ e ∷ []) l later)

  entry_in-next :
      (i n : ℕ) (prev : String) (b : ℕ) (line : List ℕ) (e : Entry)
      → c.decode (b ∷ line) ≡ some e
      → IsNext pf n prev e
      → entry_in pf c i n prev (b ∷ line) ≡ ok (some e)
  unfolding entry_in found_in
  entry_in-next i n prev b line e d h = rw (d, found_in, check_entry_complete pf i n prev e h) refl

  -- A line that fits, and stands for the next entry, is read as that entry.
  pub read_line-next :
      (i n : ℕ) (prev : String) (raw : List ℕ) (b : ℕ) (line : List ℕ) (e : Entry)
      → trim_space raw ≡ b ∷ line
      → c.decode (b ∷ line) ≡ some e
      → IsNext pf n prev e
      → ltb max_line_bytes (length raw) ≡ false
      → read_line pf c i n prev raw ≡ ok (some e)
  unfolding read_line
  read_line-next i n prev raw b line e t d h fits =
      rw (fits, t) (entry_in-next i n prev b line e d h)
