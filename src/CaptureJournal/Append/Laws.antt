-- ===== src/CaptureJournal/Append/Laws.antt =====
-- What an append leaves on disk, whatever becomes of the write (internal/capturejournal/journal.go).
use atb.Prelude.{
  ℕ, zero, suc, ◌+◌, ◌≡◌, refl, sym, ap, ◌∙◌, subst, String, false, not, List, [], ◌∷◌, ◌++◌,
  Option, none, some, length, ltb, if◌then◌else◌, arith, append_assoc',
}
use atb.Prelude.Int.{ℤ, pos, negsuc, eqb_ℤ, ltb_ℤ}
use atb.Prelude.Result.{ok, ◌>>◌, fail_if, fail_if-then, ok_injective}
use atb.Canonicalize.{Platform}
use atb.HashChain.{genesis_hash}
use atb.Bundle.Load.Lines.{HasNoLineFeed, raw_lines}
use atb.CaptureJournal.{
  Entry, EntryCodec, closed, failed_before, unsupported_version, no_observation_id, compute_hash,
  max_line_bytes,
}
use atb.CaptureJournal.Space.{trim_space, is_blank}
use atb.CaptureJournal.Space.Laws.{trim_space-line}
use atb.CaptureJournal.Read.{Journal, read_line, read_lines, last_hash}
use atb.CaptureJournal.Read.Bytes.{IsComplete, IsComplete-more, raw_lines-more}
use atb.CaptureJournal.Read.Laws.{IsNext, IsJournal, read_line-next, read_lines-snoc}
use atb.CaptureJournal.Append.{prepare, hashed, placed, with_version, last_position, next_int}

-- What encoding/json does with the entry: an object on one line, which is read back as the entry.
pub record IsEncoded (c : EntryCodec) (e : Entry) : Type 0 where
  pub body : List ℕ
  pub object : c.encode e ≡ 123 ∷ (body ++ 125 ∷ [])
  pub on_one_line : HasNoLineFeed (c.encode e)
  pub read_back : c.decode (c.encode e) ≡ some e

last_position-IsJournal :
    (pf : Platform) (n : ℕ) (prev : String) (e : Entry) (es : List Entry)
    → IsJournal pf n prev (e ∷ es)
    → last_position (e ∷ es) ≡ pos (n + length (e ∷ es))
last_position-IsJournal pf n prev e [] h = h.0.in_place
last_position-IsJournal pf n prev e (f ∷ es) h =
    last_position-IsJournal pf (suc n) e.hash f es h.1 ∙ ap pos (omega arith)

-- The place behind a journal is the next one.
next_position :
    (pf : Platform) (es : List Entry)
    → IsJournal pf 0 genesis_hash es
    → next_int (last_position es) ≡ pos (length es + 1)
next_position pf [] h = refl
next_position pf (e ∷ es) h =
    ap next_int (last_position-IsJournal pf 0 genesis_hash e es h) ∙ ap pos (omega arith)

supported_is_one :
    (v : ℤ)
    → ltb_ℤ v (pos 0) ≡ false
    → ltb_ℤ (pos 1) (if eqb_ℤ v (pos 0) then pos 1 else v) ≡ false
    → (if eqb_ℤ v (pos 0) then pos 1 else v) ≡ pos 1
supported_is_one (pos zero) p q = refl
supported_is_one (pos (suc zero)) p q = refl
supported_is_one (pos (suc (suc n))) p q = absurd (ground arith)
supported_is_one (negsuc n) p q = cc

hashed-ok :
    (pf : Platform) (e e' : Entry) (o : Option String)
    → hashed e o ≡ ok e'
    → compute_hash pf e ≡ o
    → (h : String) × (e' ≡ record e { hash = h })
      × (compute_hash pf (record e { hash = h }) ≡ some h)
unfolding hashed compute_hash
hashed-ok pf e e' none p q = cc
hashed-ok pf e e' (some h) p q = (h, sym (ok_injective p), q)

-- What Append will write is the next entry of the journal.
pub prepare-IsNext :
    (pf : Platform) (j : Journal) (e e' : Entry)
    → IsJournal pf 0 genesis_hash j.entries
    → ltb_ℤ e.format_version (pos 0) ≡ false
    → prepare pf j e ≡ ok e'
    → IsNext pf (length j.entries) (last_hash genesis_hash j.entries) e'
unfolding prepare
prepare-IsNext pf j e e' h v p =
    let fifth = hashed (placed j.entries e) (compute_hash pf (placed j.entries e)) in
    let fourth = fail_if (is_blank e.observation_id) no_observation_id >> fifth in
    let version = (with_version e).format_version in
    let third = fail_if (ltb_ℤ (pos 1) version) (unsupported_version version) >> fourth in
    let second = fail_if j.failed failed_before >> third in
    let q =
      (fail_if-then j.failed failed_before third
        (fail_if-then (not j.is_open) closed second p).1).1 in
    let (w, r) = fail_if-then (ltb_ℤ (pos 1) version) (unsupported_version version) fourth q in
    let (b, s) = fail_if-then (is_blank e.observation_id) no_observation_id fifth r in
    let (hash, same, right) =
      hashed-ok pf (placed j.entries e) e' (compute_hash pf (placed j.entries e)) s refl in
    subst (IsNext pf (length j.entries) (last_hash genesis_hash j.entries)) (sym same) (record {
      version_one = supported_is_one e.format_version v w;
      in_place = next_position pf j.entries h;
      on_previous = refl;
      hash_right = right;
    })

-- A line with the next entry is read as that entry.
read_line-encoded :
    (pf : Platform) (c : EntryCodec) (i n : ℕ) (prev : String) (e : Entry)
    → IsEncoded c e
    → IsNext pf n prev e
    → ltb max_line_bytes (length (c.encode e ++ 10 ∷ [])) ≡ false
    → read_line pf c i n prev (c.encode e ++ 10 ∷ []) ≡ ok (some e)
read_line-encoded pf c i n prev e enc next fits =
    let tail = enc.body ++ 125 ∷ [] in
    let trimmed : trim_space (c.encode e ++ 10 ∷ []) ≡ 123 ∷ tail =
      ap (λ l. trim_space (l ++ 10 ∷ [])) enc.object
      ∙ ap (λ l. trim_space (123 ∷ l)) (append_assoc' enc.body (125 ∷ []) (10 ∷ []))
      ∙ trim_space-line enc.body in
    read_line-next pf c i n prev (c.encode e ++ 10 ∷ []) 123 tail e trimmed
      (subst (λ l. c.decode l ≡ some e) enc.object enc.read_back) next fits

-- The file's bytes hold the entries, and end in a line feed.
pub record Holds (pf : Platform) (c : EntryCodec) (bytes : List ℕ) (es : List Entry) : Type 0 where
  pub ended : IsComplete bytes
  pub lines_read : read_lines pf c 1 0 genesis_hash (raw_lines bytes) ≡ ok es

-- The file with one more line.
pub Holds-more :
    (pf : Platform) (c : EntryCodec) (bytes : List ℕ) (es : List Entry) (e : Entry)
    → Holds pf c bytes es
    → IsEncoded c e
    → IsNext pf (length es) (last_hash genesis_hash es) e
    → ltb max_line_bytes (length (c.encode e ++ 10 ∷ [])) ≡ false
    → Holds pf c (bytes ++ (c.encode e ++ 10 ∷ [])) (es ++ e ∷ [])
Holds-more pf c bytes es e h enc next fits = record {
  ended = IsComplete-more bytes (c.encode e);
  lines_read =
      ap (read_lines pf c 1 0 genesis_hash)
        (raw_lines-more bytes (c.encode e) h.ended enc.on_one_line)
      ∙ read_lines-snoc pf c 1 0 genesis_hash (raw_lines bytes) (c.encode e ++ 10 ∷ []) es e
          h.lines_read
          (λ j.
            subst
              (λ k.
                read_line pf c j k (last_hash genesis_hash es) (c.encode e ++ 10 ∷ [])
                ≡ ok (some e))
              (omega arith)
              (read_line-encoded pf c j (length es) (last_hash genesis_hash es) e enc next fits));
}
