-- ===== src/CaptureJournal/Append.antt =====
-- Append, Close, EntriesFrom and MarkDegraded (internal/capturejournal/journal.go). The file system's
-- part in an append is a value: both calls succeed, the write stops after some bytes, or the sync fails.
pub mod Laws
pub mod Durable
pub mod Recover
use atb.Prelude.{
  ℕ, zero, suc, ◌+◌, String, Bool, true, false, not, List, [], ◌∷◌, ◌++◌, Option, none, some,
  length, ltb, codes, str_eq, if◌then◌else◌,
}
use atb.Prelude.Int.{ℤ, pos, negsuc, eqb_ℤ, ltb_ℤ}
use atb.Prelude.Result.{Result, ok, err, ◌>>=◌, ◌>>◌, fail_if}
use atb.Canonicalize.{Platform}
use atb.HashChain.{genesis_hash}
use atb.CaptureJournal.{
  Entry, JournalError, unsupported_version, no_hash, too_large, closed, failed_before,
  no_observation_id, write_error, sync_error, EntryCodec, Disk, compute_hash,
  journal_format_version, max_line_bytes,
}
use atb.CaptureJournal.Space.{is_blank}
use atb.CaptureJournal.Read.{Journal, last_hash}

-- What becomes of the write and the sync.
pub data Io : Type 0 where
  done : Io
  cut_after : ℕ → Io
  not_synced : Io

abbrev pub take : ℕ → List ℕ → List ℕ
take zero bs = []
take (suc n) [] = []
take (suc n) (b ∷ bs) = b ∷ take n bs

abbrev pub next_int : ℤ → ℤ
next_int (pos n) = pos (n + 1)
next_int (negsuc zero) = pos 0
next_int (negsuc (suc n)) = negsuc n

-- LastPosition
abbrev pub last_position : List Entry → ℤ
last_position [] = pos 0
last_position (e ∷ []) = e.position
last_position (e ∷ f ∷ es) = last_position (f ∷ es)

-- The version that an entry without one gets.
abbrev pub with_version : Entry → Entry
with_version e = record e {
  format_version =
      if eqb_ℤ e.format_version (pos 0) then journal_format_version else e.format_version;
}

-- The entry with its place in the chain.
abbrev pub placed : List Entry → Entry → Entry
placed es e = record (with_version e) {
  position = next_int (last_position es);
  prev_hash = last_hash genesis_hash es;
}

hashed : Entry → Option String → Result JournalError Entry
hashed e none = err no_hash
hashed e (some h) = ok (record e { hash = h })

-- The guards of Append, and the entry that it will write.
unfoldable pub prepare : Platform → Journal → Entry → Result JournalError Entry
unfolding hashed
prepare pf j e = do
  fail_if (not j.is_open) closed
  fail_if j.failed failed_before
  fail_if (ltb_ℤ journal_format_version (with_version e).format_version)
      (unsupported_version (with_version e).format_version)
  fail_if (is_blank e.observation_id) no_observation_id
  hashed (placed j.entries e) (compute_hash pf (placed j.entries e))

-- The bytes behind those of the file.
abbrev pub extended : Disk → List ℕ → Disk
extended d bytes = record d { file = elim d.file [ none ↦ none | some old ↦ some (old ++ bytes) ] }

abbrev pub degraded : String → Disk → Disk
degraded reason d = record d { degraded_marker = some reason }

-- Append behind the guards: the line is measured, written and synced.
write_entry :
    EntryCodec → Io → Journal → Disk → Entry → Result JournalError Entry × (Journal × Disk)
write_entry c io j d e =
    let line = c.encode e ++ 10 ∷ [] in
    if ltb max_line_bytes (length line)
    then (err (too_large (length line)), (j, degraded "rejected oversized entry" d))
    else elim io [
      | done ↦ (ok e, (record j { entries = j.entries ++ e ∷ [] }, extended d line))
      | cut_after n ↦ (
        err write_error,
        (record j { failed = true }, degraded "journal write failed" (extended d (take n line))),
      )
      | not_synced ↦ (
        err sync_error,
        (record j { failed = true }, degraded "journal fsync failed" (extended d line)),
      )
    ]

-- Append: the entry or the error, and what it leaves in memory and on disk.
unfoldable pub append :
    Platform
    → EntryCodec
    → Io
    → Journal
    → Disk
    → Entry
    → Result JournalError Entry × (Journal × Disk)
unfolding write_entry prepare
append pf c io j d e = elim (prepare pf j e) [
  | err x ↦ (err x, (j, d))
  | ok e' ↦ write_entry c io j d e'
]

-- Close
unfoldable pub close : Journal → Journal
close j = record j { is_open = false }

-- EntriesFrom
unfoldable pub entries_from : ℤ → List Entry → List Entry
entries_from position [] = []
entries_from position (e ∷ es) =
    let rest = entries_from position es in if ltb_ℤ position e.position then e ∷ rest else rest

-- MarkDegraded
unfoldable pub mark_degraded : String → Disk → Disk
mark_degraded reason d = degraded reason d
