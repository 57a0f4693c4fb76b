-- ===== src/CaptureJournal/Append/Durable.antt =====
-- What a later Open finds of an append, by what became of the write (internal/capturejournal/journal.go).
use atb.Prelude.{
  ℕ, zero, suc, ◌≤◌, ◌≡◌, refl, ap, ◌∙◌, subst, Bool, false, List, [], ◌∷◌, ◌++◌, some, length, ltb,
  arith,
}
use atb.Prelude.Int.{pos, ltb_ℤ}
use atb.Prelude.Result.{ok}
use atb.Canonicalize.{Platform}
use atb.HashChain.{genesis_hash}
use atb.Bundle.Load.Lines.{HasNoLineFeed, raw_lines}
use atb.CaptureJournal.{Entry, EntryCodec, Disk, max_line_bytes}
use atb.CaptureJournal.Read.{Journal, read_data, read_entries}
use atb.CaptureJournal.Read.Fragment.{is_cons, append_nil, read_data-fragment}
use atb.CaptureJournal.Read.Laws.{read_lines-IsJournal}
use atb.CaptureJournal.Append.{Io, done, cut_after, not_synced, take, prepare, append, write_entry}
use atb.CaptureJournal.Append.Laws.{IsEncoded, Holds, Holds-more, prepare-IsNext}

-- Part of a line has no line feed.
take-HasNoLineFeed :
    (n : ℕ) (line : List ℕ)
    → HasNoLineFeed line
    → n ≤ length line
    → HasNoLineFeed (take n (line ++ 10 ∷ []))
take-HasNoLineFeed zero line h le = tt
take-HasNoLineFeed (suc n) [] h le = absurd (ground arith)
take-HasNoLineFeed (suc n) (b ∷ line) h le = (h.0, take-HasNoLineFeed n line h.1 (ground arith))

is_cons-take : (n : ℕ) (line : List ℕ) → is_cons (take n (line ++ 10 ∷ [])) ≡ ltb 0 n
is_cons-take zero line = refl
is_cons-take (suc n) [] = ground arith
is_cons-take (suc n) (b ∷ line) = ground arith

-- A journal in memory and the file that it was read from.
pub record IsOpenOn (pf : Platform) (c : EntryCodec) (j : Journal) (d : Disk) : Type 0 where
  pub bytes : List ℕ
  pub on_disk : d.file ≡ some bytes
  pub holds : Holds pf c bytes j.entries

module _ (pf : Platform) (c : EntryCodec) (j : Journal) (d : Disk) (e e' : Entry) where
  append-prepared :
      (io : Io) → prepare pf j e ≡ ok e' → append pf c io j d e ≡ write_entry c io j d e'
  unfolding append
  append-prepared io p = rw (p, append) refl

  -- The bytes that an append adds to the file.
  abbrev pub added : Io → List ℕ
  added done = c.encode e' ++ 10 ∷ []
  added (cut_after n) = take n (c.encode e' ++ 10 ∷ [])
  added not_synced = c.encode e' ++ 10 ∷ []

  file-write_entry :
      (io : Io) (bytes : List ℕ)
      → ltb max_line_bytes (length (c.encode e' ++ 10 ∷ [])) ≡ false
      → d.file ≡ some bytes
      → (write_entry c io j d e').1.1.file ≡ some (bytes ++ added io)
  unfolding write_entry
  file-write_entry done bytes f q = rw (f, q) refl
  file-write_entry (cut_after n) bytes f q = rw (f, q) refl
  file-write_entry not_synced bytes f q = rw (f, q) refl

  memory-write_entry :
      ltb max_line_bytes (length (c.encode e' ++ 10 ∷ [])) ≡ false
      → ((write_entry c done j d e').0 ≡ ok e')
        × ((write_entry c done j d e').1.0.entries ≡ j.entries ++ e' ∷ [])
  unfolding write_entry
  memory-write_entry f = (rw f refl, rw f refl)

  file-append :
      (io : Io) (bytes : List ℕ)
      → prepare pf j e ≡ ok e'
      → ltb max_line_bytes (length (c.encode e' ++ 10 ∷ [])) ≡ false
      → d.file ≡ some bytes
      → (append pf c io j d e).1.1.file ≡ some (bytes ++ added io)
  file-append io bytes p f q =
      ap (λ x. x.1.1.file) (append-prepared io p) ∙ file-write_entry io bytes f q

  read_entries-file :
      (io : Io) (bytes : List ℕ) (result : List Entry × Bool)
      → (append pf c io j d e).1.1.file ≡ some (bytes ++ added io)
      → read_data pf c (bytes ++ added io) ≡ ok result
      → read_entries pf c (append pf c io j d e).1.1.file ≡ ok result
  unfolding read_entries
  read_entries-file io bytes result p q = rw p q

  -- For a journal that was read from its file, and an entry whose version is not negative: if the guards
  -- of Append pass, the line fits and JSON gives back what it encoded, then after a write that succeeds
  -- the entry is returned and held in memory, and the file is read as the entries before and this one;
  -- it is read so too if only the sync fails. After a write that is cut before the line feed the file is
  -- read as the entries before, with a torn tail if a byte was written.
  pub append-durable :
      IsOpenOn pf c j d
      → ltb_ℤ e.format_version (pos 0) ≡ false
      → prepare pf j e ≡ ok e'
      → IsEncoded c e'
      → ltb max_line_bytes (length (c.encode e' ++ 10 ∷ [])) ≡ false
      → ((append pf c done j d e).0 ≡ ok e')
        × ((append pf c done j d e).1.0.entries ≡ j.entries ++ e' ∷ [])
        × (read_entries pf c (append pf c done j d e).1.1.file ≡ ok (j.entries ++ e' ∷ [], false))
        × (read_entries pf c (append pf c not_synced j d e).1.1.file
            ≡ ok (j.entries ++ e' ∷ [], false))
        × ((n : ℕ)
            → n ≤ length (c.encode e')
            → read_entries pf c (append pf c (cut_after n) j d e).1.1.file
              ≡ ok (j.entries, ltb 0 n))
  append-durable h v p enc f =
      let journal =
        read_lines-IsJournal pf c 1 0 genesis_hash (raw_lines h.bytes) j.entries
          h.holds.lines_read in
      let more =
        Holds-more pf c h.bytes j.entries e' h.holds enc (prepare-IsNext pf j e e' journal v p) f in
      let whole : read_data pf c (h.bytes ++ (c.encode e' ++ 10 ∷ []))
          ≡ ok (j.entries ++ e' ∷ [], false) =
        subst (λ x. read_data pf c x ≡ ok (j.entries ++ e' ∷ [], false))
          (append_nil (h.bytes ++ (c.encode e' ++ 10 ∷ [])))
          (read_data-fragment pf c (j.entries ++ e' ∷ []) (h.bytes ++ (c.encode e' ++ 10 ∷ [])) []
            more.ended more.lines_read tt) in
      (
        ap (λ x. x.0) (append-prepared done p) ∙ (memory-write_entry f).0,
        ap (λ x. x.1.0.entries) (append-prepared done p) ∙ (memory-write_entry f).1,
        read_entries-file done h.bytes (j.entries ++ e' ∷ [], false)
            (file-append done h.bytes p f h.on_disk) whole,
        read_entries-file not_synced h.bytes (j.entries ++ e' ∷ [], false)
            (file-append not_synced h.bytes p f h.on_disk) whole,
        λ n le.
            read_entries-file (cut_after n) h.bytes (j.entries, ltb 0 n)
              (file-append (cut_after n) h.bytes p f h.on_disk)
              (read_data-fragment pf c j.entries h.bytes (take n (c.encode e' ++ 10 ∷ []))
                  h.holds.ended h.holds.lines_read
                  (take-HasNoLineFeed n (c.encode e') enc.on_one_line le)
                ∙ ap (λ t. ok (j.entries, t)) (is_cons-take n (c.encode e'))),
      )
