-- ===== src/Bundle/Load.antt =====
-- LoadReaderWithLimits, LoadVerified and the metadata that ties a signature record to the bytes before
-- it (internal/bundle/bundle.go). A file is its bytes.
pub mod Prefix
pub mod Lines
pub mod Laws
pub mod Described
pub mod Verified
pub mod Refresh
use atb.Prelude.{
  ℕ, zero, suc, ◌+◌, ◌*◌, ◌≡◌, map, String, Bool, true, false, not, ◌&&◌, ◌||◌, List, [], ◌∷◌, ◌++◌,
  Option, none, some, length, ltb, leb, ◌==◌, str_eq, if◌then◌else◌,
}
use atb.Prelude.Int.{ℤ, pos, leb_ℤ, ltb_ℤ}
use atb.Prelude.Result.{Result, ok, err, ◌>>=◌, ◌>>◌, fail_if}
use atb.Canonicalize.{Platform}
use atb.Event.{Event}
use atb.Bundle.{
  Record, SourcePrefix, no_prefix, Error, unreadable_manifest, no_manifest, not_a_bundle,
  limits_not_positive, too_many_bytes, line_too_long, too_many_records, bad_record, scan_failed,
  Codec, bundle_signature_type, manifest_event_type, has_manifest_record,
}
use atb.Bundle.Manifest.{parse_manifest_data}
use atb.Bundle.Verify.{verify_bundle}
use atb.Bundle.Load.Prefix.{Tracker, start, add, snapshot, last_byte}
use atb.Bundle.Load.Lines.{raw_lines, trim}

-- MaxLineSizeBytes
abbrev pub max_line_size : ℕ
max_line_size = 16 * 1024 * 1024

-- LoadLimits
pub record LoadLimits : Type 0 where
  pub max_bytes : ℤ
  pub max_records : ℤ

-- What the scanner does not deliver: a line that fills its buffer of MaxLineSizeBytes + 2 bytes before
-- its end is seen. A line feed is seen in the last byte, the end of the input is not.
overflows : List ℕ → Bool
overflows raw =
    if last_byte 0 raw == 10
    then ltb (max_line_size + 2) (length raw)
    else leb (max_line_size + 2) (length raw)

-- The metadata of a record: only a signature record is bound to the bytes before it.
unfoldable pub prefix_for : (List ℕ → List ℕ) → String → Tracker → SourcePrefix
unfolding snapshot
prefix_for sum type_id t =
    if str_eq type_id bundle_signature_type then snapshot sum t else no_prefix

-- The result of decoding one line that is not empty.
decoded : (List ℕ → List ℕ) → Tracker → Option (Event × String) → Result Error Record
decoded sum t none = err bad_record
decoded sum t (some (e, h)) =
    ok (record { event = e; hash = h; prefix = prefix_for sum e.type_id t })

-- The record of a line without its line end, if it is not blank.
record_of :
    (List ℕ → List ℕ) → Codec → LoadLimits → ℕ → Tracker → List ℕ → Result Error (Option Record)
unfolding decoded
record_of sum c limits count t [] = ok none
record_of sum c limits count t (b ∷ line) = do
  fail_if (leb_ℤ limits.max_records (pos count)) too_many_records
  r ← decoded sum t (c.decode_record (b ∷ line))
  ok (some r)

-- One round of the loop: the record that the line holds, if it holds one. `read` is the number of bytes
-- that the scanner has taken from the reader so far, and `count` the number of records before.
unfoldable pub load_line :
    (List ℕ → List ℕ) → Codec → LoadLimits → ℕ → ℕ → Tracker → List ℕ → Result Error (Option Record)
unfolding record_of overflows
load_line sum c limits read count t raw = do
  fail_if (overflows raw) scan_failed
  fail_if (ltb_ℤ limits.max_bytes (pos read)) too_many_bytes
  fail_if (ltb max_line_size (length (trim raw))) line_too_long
  record_of sum c limits count t (trim raw)

abbrev pub cons? : Option Record → List Record → List Record
cons? none rs = rs
cons? (some r) rs = r ∷ rs

abbrev pub count_one : Option Record → ℕ → ℕ
count_one none n = n
count_one (some r) n = suc n

-- The loop over the lines from number `i` on, behind `count` records; `reads i` is how far the scanner
-- has read when it delivers line `i`.
pub load_lines :
    (List ℕ → List ℕ)
    → Codec
    → LoadLimits
    → (ℕ → ℕ)
    → ℕ
    → ℕ
    → Tracker
    → List (List ℕ)
    → Result Error (List Record)
load_lines sum c limits reads i count t [] = ok []
load_lines sum c limits reads i count t (raw ∷ raws) = do
  found ← load_line sum c limits (reads i) count t raw
  rest ← load_lines sum c limits reads (suc i) (count_one found count) (add t raw) raws
  ok (cons? found rest)

-- The checks behind the loop.
check_manifest : Codec → List Record → Result Error (Unit {0})
check_manifest c [] = ok tt
check_manifest c (r ∷ rs) =
    if has_manifest_record (r ∷ rs)
    then elim (parse_manifest_data c r.event) [ ok m ↦ ok tt | err e ↦ err (unreadable_manifest e) ]
    else ok tt

finish : Codec → LoadLimits → List ℕ → List Record → Result Error (List Record)
unfolding check_manifest
finish c limits input rs = do
  fail_if (ltb_ℤ limits.max_bytes (pos (length input))) too_many_bytes
  check_manifest c rs
  ok rs

-- LoadReaderWithLimits on a reader that gives `input`; `sum` is SHA-256.
unfoldable pub load_reader :
    (List ℕ → List ℕ) → Codec → LoadLimits → (ℕ → ℕ) → List ℕ → Result Error (List Record)
unfolding load_lines finish
load_reader sum c limits reads input = do
  fail_if (leb_ℤ limits.max_bytes (pos 0) || leb_ℤ limits.max_records (pos 0)) limits_not_positive
  load_lines sum c limits reads 0 0 start (raw_lines input) >>= finish c limits input

-- LoadVerified on a file with the default limits.
unfoldable pub check_verified : Platform → List Record → Result Error (List Record)
check_verified pf [] = err no_manifest
check_verified pf (r ∷ rs) =
    if not (str_eq r.event.type_id manifest_event_type)
    then err (not_a_bundle r.event.type_id)
    else elim (verify_bundle pf (r ∷ rs)) [ none ↦ ok (r ∷ rs) | some e ↦ err e ]

abbrev pub default_limits : LoadLimits
default_limits = record { max_bytes = pos (512 * 1024 * 1024); max_records = pos 1_000_000 }

unfoldable pub load_verified :
    (List ℕ → List ℕ) → Platform → Codec → (ℕ → ℕ) → List ℕ → Result Error (List Record)
unfolding check_verified
load_verified sum pf c reads input =
    load_reader sum c default_limits reads input >>= check_verified pf

-- The next line of some bytes, with its line feed, and what is behind it.
next_line : List ℕ → List ℕ × List ℕ
next_line [] = ([], [])
next_line (b ∷ bs) =
    let (line, rest) = next_line bs in if b == 10 then (b ∷ [], bs) else (b ∷ line, rest)

abbrev pub reset : Record → Record
reset r = record r { prefix = no_prefix }

-- The loop of setSourcePrefixHashes over the saved bytes and the records, side by side, of at most
-- `left` rounds. Each round takes a line of one byte or more, so that as many rounds as there are bytes
-- are enough.
set_prefixes_from : (List ℕ → List ℕ) → ℕ → Tracker → List ℕ → List Record → List Record
unfolding prefix_for next_line
set_prefixes_from sum zero t raw rs = map reset rs
set_prefixes_from sum (suc left) t [] rs = map reset rs
set_prefixes_from sum (suc left) t (b ∷ bs) [] = []
set_prefixes_from sum (suc left) t (b ∷ bs) (r ∷ rs) =
    let (line, rest) = next_line (b ∷ bs) in
    elim (trim line) [
      | [] ↦ set_prefixes_from sum left (add t line) rest (r ∷ rs)
      | _ ∷ _ ↦
          record r { prefix = prefix_for sum r.event.type_id t }
          ∷ set_prefixes_from sum left (add t line) rest rs
    ]

-- setSourcePrefixHashes
unfoldable pub set_source_prefix_hashes : (List ℕ → List ℕ) → List Record → List ℕ → List Record
unfolding set_prefixes_from
set_source_prefix_hashes sum rs raw = set_prefixes_from sum (length raw) start raw rs
