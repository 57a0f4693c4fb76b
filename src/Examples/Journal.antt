-- ===== src/Examples/Journal.antt =====
-- The theorems on the capture journal, at a first observation.
use atb.Prelude.{ℕ, ◌≡◌, ◌≤◌, refl, true, false, List, [], ◌∷◌, none, some, ltb}
use atb.Prelude.Int.{pos}
use atb.Prelude.Result.{Result, ok}
use atb.Json.{str}
use atb.Json.Float
use atb.Canonicalize.{marshal, is_encodable, write_value, serialize_number, join_members}
use atb.Canonicalize.Text.{write_string}
use atb.Canonicalize.Sort.{sort}
use atb.Canonicalize.Keys.{utf16_less}
use atb.Event.{event_value, omit_empty}
use atb.HashChain.{compute, genesis_hash}
use atb.Bundle.Load.Lines.{raw_lines}
use atb.CaptureJournal.{Entry, JournalError, EntryCodec, Disk, compute_hash}
use atb.CaptureJournal.Space.{is_blank, trim_space}
use atb.CaptureJournal.Read.{Journal, read_entries, read_lines, read_line, read_data, open_journal}
use atb.CaptureJournal.Read.Bytes.{no_line}
use atb.CaptureJournal.Read.Laws.{IsJournal}
use atb.CaptureJournal.Append.{done, cut_after, not_synced, prepare, append}
use atb.CaptureJournal.Append.Laws.{IsEncoded, Holds}
use atb.CaptureJournal.Append.Durable.{IsOpenOn, append-durable}
use atb.CaptureJournal.Append.Recover.{open_journal-fragment, open_journal-IsJournal}
use atb.Examples.{platform}

abbrev observed : Entry
observed = record {
  format_version = pos 0;
  position = pos 0;
  prev_hash = "";
  observation_id = "o1";
  source_system = "chatlog";
  source_incarnation = "";
  representation_version = "1";
  representation_digest = "d";
  observation_type = "message";
  payload = some (str "hi");
  source_timestamp = "";
  observed_at = "t";
  adapter = "chatlog";
  adapter_version = "1";
  hash = "";
}

abbrev empty : Journal
empty = record { is_open = true; entries = []; repaired = false; failed = false }

abbrev entry_of : Result JournalError Entry → Entry
entry_of (ok e) = e
entry_of _ = observed

abbrev stored : Entry
stored = entry_of (prepare platform empty observed)

prepared : prepare platform empty observed ≡ ok stored
unfolding prepare is_blank compute_hash compute omit_empty event_value marshal is_encodable
    write_value serialize_number Float.is_finite Float.of_int join_members write_string sort
    utf16_less
prepared = refl

-- The text "{}" stands for the stored entry.
abbrev braces : EntryCodec
braces = record { encode = λ e. 123 ∷ 125 ∷ []; decode = λ line. some stored }

abbrev disk : List ℕ → Disk
disk bytes = record { file = some bytes; repair_marker = none; degraded_marker = none }

Holds-nothing : Holds platform braces [] []
unfolding read_lines raw_lines
Holds-nothing = record { ended = no_line; lines_read = refl }

opened : IsOpenOn platform braces empty (disk [])
opened = record { bytes = []; on_disk = refl; holds = Holds-nothing }

in_braces : IsEncoded braces stored
in_braces = record { body = []; object = refl; on_one_line = (refl, (refl, tt)); read_back = refl }

append-durable_example :
    ((append platform braces done empty (disk []) observed).0 ≡ ok stored)
    × ((append platform braces done empty (disk []) observed).1.0.entries ≡ stored ∷ [])
    × (read_entries platform braces (append platform braces done empty (disk []) observed).1.1.file
        ≡ ok (stored ∷ [], false))
    × (read_entries platform braces
          (append platform braces not_synced empty (disk []) observed).1.1.file
        ≡ ok (stored ∷ [], false))
    × ((n : ℕ)
        → n ≤ 2
        → read_entries platform braces
            (append platform braces (cut_after n) empty (disk []) observed).1.1.file
          ≡ ok ([], ltb 0 n))
append-durable_example =
    append-durable platform braces empty (disk []) observed stored opened refl prepared in_braces
      refl

open_journal-fragment_example :
    (j' : Journal) × (d' : Disk) × (open_journal platform braces (disk (123 ∷ [])) ≡ ok (j', d'))
    × (j'.entries ≡ [])
    × (j'.repaired ≡ true)
    × (d'.file ≡ some [])
    × IsOpenOn platform braces j' d'
open_journal-fragment_example =
    open_journal-fragment platform braces (disk (123 ∷ [])) [] (123 ∷ []) [] refl Holds-nothing
      (refl, tt)

abbrev reopened : Journal
reopened = record empty { entries = stored ∷ [] }

opens :
    open_journal platform braces (disk (123 ∷ 125 ∷ 10 ∷ []))
    ≡ ok (reopened, disk (123 ∷ 125 ∷ 10 ∷ []))
unfolding open_journal read_entries read_data read_lines read_line raw_lines trim_space prepare
    is_blank compute_hash compute omit_empty event_value marshal is_encodable write_value
    serialize_number Float.is_finite Float.of_int join_members write_string sort utf16_less
opens = refl

open_journal-IsJournal_example : IsJournal platform 0 genesis_hash (stored ∷ [])
open_journal-IsJournal_example =
    open_journal-IsJournal platform braces (disk (123 ∷ 125 ∷ 10 ∷ [])) (disk (123 ∷ 125 ∷ 10 ∷ []))
      reopened opens
