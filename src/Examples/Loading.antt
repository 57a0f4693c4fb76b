-- ===== src/Examples/Loading.antt =====
-- The theorems on loading, at a file of a blank line, a tool event and a signature record.
use atb.Prelude.{
  ℕ, true, ◌≡◌, ◌↔◌, ◌≤◌, refl, List, [], ◌∷◌, none, some, length, map, if◌then◌else◌, ◌==◌,
}
use atb.Prelude.Int.{pos}
use atb.Prelude.Result.{ok}
use atb.Json.{str}
use atb.Event.{Event}
use atb.Bundle.{Record, Codec, no_prefix, bundle_signature_type}
use atb.Bundle.Load.{
  LoadLimits, load_line, prefix_for, load_reader, load_verified, reset, set_source_prefix_hashes,
  default_limits,
}
use atb.Bundle.Load.Lines.{raw_lines, trim}
use atb.Bundle.Load.Prefix.{add, snapshot}
use atb.Bundle.Load.Lines.Cut.{IsCut}
use atb.Bundle.Load.Described.{Holds, load_reader-Holds}
use atb.Bundle.Load.Refresh.{set_source_prefix_hashes-load}
use atb.Bundle.Load.Verified.{IsVerified, load_verified_iff}
use atb.Examples.{platform, codec, plain_event}

abbrev pub event_at : ℕ → Event
event_at b = plain_event (if b == 83 then bundle_signature_type else "ai.tool.exec") (str "ls")

-- A line is decoded by its first byte.
abbrev pub by_first_byte : Codec
by_first_byte = record codec {
  decode_record = λ line. elim line [ [] ↦ none | b ∷ rest ↦ some (event_at b, "h") ];
}

-- The hash of some bytes: the bytes.
abbrev pub plain_sum : List ℕ → List ℕ
plain_sum bs = bs

abbrev input : List ℕ
input = 10 ∷ 84 ∷ 13 ∷ 10 ∷ 83 ∷ []

abbrev pub limits : LoadLimits
limits = record { max_bytes = pos 100; max_records = pos 2 }

abbrev pub read_all : ℕ → ℕ
read_all i = 5

abbrev loaded : List Record
loaded =
    record { event = event_at 84; hash = "h"; prefix = no_prefix }
    ∷ record {
      event = event_at 83;
      hash = "h";
      prefix = record {
        with_lf = some (10 ∷ 84 ∷ 13 ∷ 10 ∷ []);
        without_lf = some (10 ∷ 84 ∷ 13 ∷ []);
        has_without_lf = true;
      };
    }
    ∷ []

loads : load_reader plain_sum by_first_byte limits read_all input ≡ ok loaded
unfolding load_reader load_line prefix_for raw_lines trim add snapshot
loads = refl

load_reader-Holds_example :
    (lines : List (List ℕ)) × IsCut input lines
    × Holds plain_sum by_first_byte [] lines loaded
    × (length loaded ≤ 2)
    × (length input ≤ 100)
load_reader-Holds_example =
    load_reader-Holds plain_sum by_first_byte limits read_all input loaded loads

set_source_prefix_hashes-load_example :
    set_source_prefix_hashes plain_sum (map reset loaded) input ≡ loaded
set_source_prefix_hashes-load_example =
    set_source_prefix_hashes-load plain_sum by_first_byte limits read_all input (map reset loaded)
      loaded loads refl

load_verified_iff_example :
    (load_verified plain_sum platform by_first_byte read_all input ≡ ok loaded) ↔ (
      (load_reader plain_sum by_first_byte default_limits read_all input ≡ ok loaded)
      × IsVerified platform loaded)
load_verified_iff_example = load_verified_iff plain_sum platform by_first_byte read_all input loaded
