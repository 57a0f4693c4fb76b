-- ===== src/CaptureJournal/Read.antt =====
-- readEntries, lastCompleteOffset, Open and Read (internal/capturejournal/journal.go).
pub mod Bytes
pub mod Fragment
pub mod Laws
use atb.Prelude.{
  ℕ, zero, suc, ◌+◌, ◌-◌, String, Bool, true, false, not, ◌&&◌, ◌||◌, List, [], ◌∷◌, ◌++◌, Option,
  none, some, length, ltb, ◌==◌, str_eq, if◌then◌else◌,
}
use atb.Prelude.Int.{ℤ, pos, eqb_ℤ}
use atb.Prelude.Result.{Result, ok, err, ◌>>=◌, ◌>>◌, fail_if}
use atb.Canonicalize.{Platform}
use atb.HashChain.{genesis_hash}
use atb.Bundle.Load.Lines.{raw_lines}
use atb.Bundle.Load.Prefix.{last_byte}
use atb.CaptureJournal.{
  Entry, JournalError, not_an_entry, unsupported_version, wrong_position, wrong_prev_hash,
  wrong_hash, no_hash, line_overflow, EntryCodec, Disk, compute_hash, journal_format_version,
  max_line_bytes,
}
use atb.CaptureJournal.Space.{trim_space}

-- The bytes up to the last line feed.
unfoldable pub complete : List ℕ → List ℕ
complete [] = []
complete (b ∷ r) = elim (complete r) [ [] ↦ if b == 10 then b ∷ [] else [] | c ∷ s ↦ b ∷ c ∷ s ]

-- Whether the last byte is a line feed.
abbrev pub is_terminated : List ℕ → Bool
is_terminated bytes = last_byte 0 bytes == 10

-- lastCompleteOffset
abbrev pub last_complete_offset : List ℕ → ℕ
last_complete_offset bytes = if is_terminated bytes then length bytes else length (complete bytes)

check_hash : ℕ → Entry → Option String → Result JournalError Entry
check_hash i e none = err no_hash
check_hash i e (some h) = if str_eq h e.hash then ok e else err (wrong_hash i)

-- The checks on the entry of line `i`, behind `n` entries of which the last has the hash `prev`.
check_entry : Platform → ℕ → ℕ → String → Entry → Result JournalError Entry
unfolding check_hash
check_entry pf i n prev e = do
  fail_if (not (eqb_ℤ e.format_version journal_format_version))
      (unsupported_version e.format_version)
  fail_if (not (eqb_ℤ e.position (pos (n + 1)))) (wrong_position i e.position (n + 1))
  fail_if (not (str_eq e.prev_hash prev)) (wrong_prev_hash i)
  check_hash i e (compute_hash pf e)

found_in : Platform → ℕ → ℕ → String → Option Entry → Result JournalError (Option Entry)
unfolding check_entry
found_in pf i n prev none = err (not_an_entry i)
found_in pf i n prev (some e) = check_entry pf i n prev e >>= λ e'. ok (some e')

entry_in : Platform → EntryCodec → ℕ → ℕ → String → List ℕ → Result JournalError (Option Entry)
unfolding found_in
entry_in pf c i n prev [] = ok none
entry_in pf c i n prev (b ∷ line) = found_in pf i n prev (c.decode (b ∷ line))

-- One round of the loop. The scanner delivers lines of up to maxLineBytes with their line feed; that it
-- drops a carriage return before it makes no difference to TrimSpace.
unfoldable pub read_line :
    Platform → EntryCodec → ℕ → ℕ → String → List ℕ → Result JournalError (Option Entry)
unfolding entry_in
read_line pf c i n prev raw = do
  fail_if (ltb max_line_bytes (length raw)) line_overflow
  entry_in pf c i n prev (trim_space raw)

abbrev pub count_of : Option Entry → ℕ → ℕ
count_of none n = n
count_of (some e) n = suc n

abbrev pub hash_of : Option Entry → String → String
hash_of none prev = prev
hash_of (some e) prev = e.hash

-- The hash of the last entry, or `prev`.
abbrev pub last_hash : String → List Entry → String
last_hash prev [] = prev
last_hash prev (e ∷ es) = last_hash e.hash es

abbrev pub cons? : Option Entry → List Entry → List Entry
cons? none es = es
cons? (some e) es = e ∷ es

unfoldable pub read_lines :
    Platform → EntryCodec → ℕ → ℕ → String → List (List ℕ) → Result JournalError (List Entry)
read_lines pf c i n prev [] = ok []
read_lines pf c i n prev (raw ∷ raws) = do
  found ← read_line pf c i n prev raw
  rest ← read_lines pf c (suc i) (count_of found n) (hash_of found prev) raws
  ok (cons? found rest)

-- readEntries on the contents of a file that is there.
unfoldable pub read_data : Platform → EntryCodec → List ℕ → Result JournalError (List Entry × Bool)
read_data pf c [] = ok ([], false)
read_data pf c (b ∷ bytes) =
    let torn = not (is_terminated (b ∷ bytes)) in
    read_lines pf c 1 0 genesis_hash (raw_lines (if torn then complete (b ∷ bytes) else b ∷ bytes))
    >>= λ es. ok (es, torn)

-- readEntries
unfoldable pub read_entries :
    Platform → EntryCodec → Option (List ℕ) → Result JournalError (List Entry × Bool)
read_entries pf c none = ok ([], false)
read_entries pf c (some bytes) = read_data pf c bytes

-- Journal, without its path and stream; `is_open` says that it has a file.
pub record Journal : Type 0 where
  pub is_open : Bool
  pub entries : List Entry
  pub repaired : Bool
  pub failed : Bool

abbrev pub is_some {ℓ} : {A : Type ℓ} → Option A → Bool
is_some none = false
is_some (some a) = true

-- What Open does to the files once the entries are read.
abbrev pub repaired_disk : Disk → Bool → Disk
repaired_disk d torn = elim d.file [
  | none ↦ record d { file = some []; repair_marker = none }
  | some bytes ↦
      if torn
      then record d {
        file = some (complete bytes);
        repair_marker = some (length bytes - last_complete_offset bytes);
      }
      else d
]

-- Open, if no call of the operating system fails.
unfoldable pub open_journal : Platform → EntryCodec → Disk → Result JournalError (Journal × Disk)
unfolding read_entries
open_journal pf c d = do
  (es, torn) ← read_entries pf c d.file
  ok (
    record {
      is_open = true;
      entries = es;
      repaired = is_some (repaired_disk d torn).repair_marker;
      failed = false;
    },
    repaired_disk d torn,
  )

-- Read
unfoldable pub read : Platform → EntryCodec → Disk → Result JournalError (List Entry × Bool)
unfolding read_entries
read pf c d = do
  (es, torn) ← read_entries pf c d.file
  ok (es, torn || (is_some d.file && is_some d.repair_marker))
