-- ===== src/Examples/Run.antt =====
-- The theorems on whole imports and on the cap, at one span, one message and three pieces.
use atb.Prelude.{ℕ, ◌≤◌, ◌≡◌, ◌↔◌, refl, String, true, false, List, [], ◌∷◌, none, some}
use atb.Prelude.Saving.{saved, replaced_unsynced}
use atb.Acquisition.Import.Capped.{read_all, read_all-capped}
use atb.Acquisition.Import.Run.{
  ImportOptions, no_file, Files, World, ChatlogReader, mapped, import_otel, import_chatlog,
}
use atb.Acquisition.Import.Committed.{Leaves, import-Leaves}
use atb.Acquisition.Checkpoint.{missing}
use atb.Json.{end}
use atb.Examples.{platform, codec}
use atb.Examples.Acquisition.{one_text}
use atb.Examples.Import.{said}

abbrev world : World
world = record {
  platform = platform;
  codec = codec;
  objects = record { encode = λ fs. "{}"; decode = λ text. some end };
  checkpoints = one_text;
  clock = λ n. "2026-01-02T00:00:00Z";
  now = "2026-01-02T00:00:00Z";
  created_at = "2026-01-01T00:00:00Z";
  bundle_id = "ab";
  saving_bundle = saved;
  saving_checkpoint = replaced_unsynced;
}

abbrev options : ImportOptions
options = record {
  input_path = "in.jsonl";
  bundle_path = "out.jsonl";
  continue = false;
  reconcile = true;
  source_identity = record { system = ""; record_id = ""; derived = false };
  source_incarnation = "";
}

abbrev no_files : Files
no_files = record { bundle = no_file; checkpoint = missing }

abbrev reader : ChatlogReader String
reader = record {
  map_messages = λ texts. mapped (said "hi" ∷ []) 0;
  filter_known = λ texts. (texts, 0);
}

import-Leaves_example :
    Leaves world true no_files (import_otel world options no_files (some (said "hi" ∷ [], 0)))
    × Leaves world true no_files (import_chatlog world options no_files reader (some ("hi" ∷ [])))
import-Leaves_example =
    import-Leaves world options no_files (some (said "hi" ∷ [], 0)) reader (some ("hi" ∷ []))

abbrev pieces : List (List ℕ)
pieces = (1 ∷ 2 ∷ []) ∷ [] ∷ (3 ∷ []) ∷ []

read_all-capped_example :
    ((read_all 2 0 pieces ≡ some (1 ∷ 2 ∷ 3 ∷ [])) ↔ (3 ≤ 2))
    × ((read_all 2 0 pieces ≡ none) ↔ (3 ≤ 3))
read_all-capped_example = read_all-capped 2 pieces

-- The third byte is over a cap of two.
over_the_cap : read_all 2 0 pieces ≡ none
unfolding read_all
over_the_cap = refl
