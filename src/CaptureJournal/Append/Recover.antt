-- ===== src/CaptureJournal/Append/Recover.antt =====
-- Open on what an append has left, and on any other file (internal/capturejournal/journal.go).
use atb.Prelude.{
  ℕ, ◌≡◌, refl, ap, subst, Bool, true, false, ◌||◌, not, if◌then◌else◌, List, [], ◌∷◌, ◌++◌, Option,
  none, some,
}
use atb.Prelude.Result.{Result, ok, ◌>>=◌, >>=-eq-ok, ok_injective}
use atb.Canonicalize.{Platform}
use atb.HashChain.{genesis_hash}
use atb.Bundle.Load.Lines.{HasNoLineFeed, raw_lines}
use atb.CaptureJournal.{Entry, JournalError, EntryCodec, Disk}
use atb.CaptureJournal.Read.{
  Journal, read_data, read_lines, read_entries, open_journal, repaired_disk, complete,
  is_terminated, is_some,
}
use atb.CaptureJournal.Read.Bytes.{IsComplete, complete-IsComplete}
use atb.CaptureJournal.Read.Fragment.{is_cons, append_nil, read_data-fragment}
use atb.CaptureJournal.Read.Laws.{IsJournal, read_lines-IsJournal}
use atb.CaptureJournal.Append.Laws.{Holds}
use atb.CaptureJournal.Append.Durable.{IsOpenOn}

module _ (pf : Platform) (c : EntryCodec) where
  -- The journal in memory that Open makes of the entries.
  abbrev opened : Disk → List Entry → Bool → Journal
  opened d es torn = record {
    is_open = true;
    entries = es;
    repaired = is_some (repaired_disk d torn).repair_marker;
    failed = false;
  }

  abbrev finish : Disk → List Entry × Bool → Result JournalError (Journal × Disk)
  finish d x = ok (opened d x.0 x.1, repaired_disk d x.1)

  open_journal-eq :
      (d : Disk) (bytes : List ℕ) (es : List Entry) (torn : Bool)
      → d.file ≡ some bytes
      → read_data pf c bytes ≡ ok (es, torn)
      → open_journal pf c d ≡ ok (opened d es torn, repaired_disk d torn)
  unfolding open_journal read_entries
  open_journal-eq d bytes es torn q r =
      let read : read_entries pf c d.file ≡ ok (es, torn) = rw q r in ap (λ x. x >>= finish d) read

  file-repaired_disk :
      (d : Disk) (bytes p : List ℕ)
      → d.file ≡ some (bytes ++ p)
      → IsComplete bytes
      → HasNoLineFeed p
      → (repaired_disk d (is_cons p)).file ≡ some bytes
  file-repaired_disk d bytes [] q n h = rw q (ap some (append_nil bytes))
  file-repaired_disk d bytes (b ∷ p) q n h = rw q (ap some (complete-IsComplete bytes (b ∷ p) n h))

  marker-repaired_disk :
      (d : Disk) (bytes p : List ℕ)
      → d.file ≡ some bytes
      → is_some (repaired_disk d (is_cons p)).repair_marker ≡ (is_cons p || is_some d.repair_marker)
  marker-repaired_disk d bytes [] q = rw q refl
  marker-repaired_disk d bytes (b ∷ p) q = rw q refl

  -- If a file holds entries, and behind its last line feed a fragment, then Open returns a journal of
  -- these entries, leaves the file without the fragment, and reports a repair if there was a fragment or
  -- a marker of an earlier one.
  pub open_journal-fragment :
      (d : Disk) (bytes p : List ℕ) (es : List Entry)
      → d.file ≡ some (bytes ++ p)
      → Holds pf c bytes es
      → HasNoLineFeed p
      → (j' : Journal) × (d' : Disk) × (open_journal pf c d ≡ ok (j', d'))
        × (j'.entries ≡ es)
        × (j'.repaired ≡ (is_cons p || is_some d.repair_marker))
        × (d'.file ≡ some bytes)
        × IsOpenOn pf c j' d'
  open_journal-fragment d bytes p es q h n =
      let d' = repaired_disk d (is_cons p) in
      let file = file-repaired_disk d bytes p q h.ended n in
      (
        opened d es (is_cons p),
        d',
        open_journal-eq d (bytes ++ p) es (is_cons p) q
            (read_data-fragment pf c es bytes p h.ended h.lines_read n),
        refl,
        marker-repaired_disk d (bytes ++ p) p q,
        file,
        record { bytes = bytes; on_disk = file; holds = h },
      )

  read_data-IsJournal :
      (bytes : List ℕ) (es : List Entry) (torn : Bool)
      → read_data pf c bytes ≡ ok (es, torn)
      → IsJournal pf 0 genesis_hash es
  unfolding read_data
  read_data-IsJournal [] es torn p =
      subst (IsJournal pf 0 genesis_hash) (ap (λ x. x.0) (ok_injective p)) tt
  read_data-IsJournal (b ∷ bytes) es torn p =
      let open_end = not (is_terminated (b ∷ bytes)) in
      let lines = raw_lines (if open_end then complete (b ∷ bytes) else b ∷ bytes) in
      let (found, l, q) =
        >>=-eq-ok (read_lines pf c 1 0 genesis_hash lines) (λ x. ok (x, open_end)) p in
      subst (IsJournal pf 0 genesis_hash) (ap (λ x. x.0) (ok_injective q))
        (read_lines-IsJournal pf c 1 0 genesis_hash lines found l)

  read_entries-IsJournal :
      (file : Option (List ℕ)) (es : List Entry) (torn : Bool)
      → read_entries pf c file ≡ ok (es, torn)
      → IsJournal pf 0 genesis_hash es
  unfolding read_entries
  read_entries-IsJournal none es torn p =
      subst (IsJournal pf 0 genesis_hash) (ap (λ x. x.0) (ok_injective p)) tt
  read_entries-IsJournal (some bytes) es torn p = read_data-IsJournal bytes es torn p

  -- Whatever is on disk, the entries that Open accepts are a journal.
  pub open_journal-IsJournal :
      (d d' : Disk) (j : Journal)
      → open_journal pf c d ≡ ok (j, d')
      → IsJournal pf 0 genesis_hash j.entries
  unfolding open_journal
  open_journal-IsJournal d d' j p =
      let (x, r, q) = >>=-eq-ok (read_entries pf c d.file) (finish d) p in
      subst (λ es. IsJournal pf 0 genesis_hash es) (ap (λ y. y.0.entries) (ok_injective q))
        (read_entries-IsJournal d.file x.0 x.1 r)
