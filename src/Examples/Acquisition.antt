-- ===== src/Examples/Acquisition.antt =====
-- The theorems on acquisition, at two sources and at one checkpoint.
use atb.Prelude.{
  ℕ, ◌≡◌, ◌≢◌, ◌↔◌, refl, String, List, [], ◌∷◌, none, some, All, true, eq_iff, arith,
}
use atb.Prelude.Int.{ℤ, pos}
use atb.Prelude.Map.{lookup}
use atb.Prelude.Result.{ok}
use atb.Json.{str}
use atb.Event.{SourceIdentity, AcquisitionInfo}
use atb.Bundle.{Record, no_prefix}
use atb.Acquisition.Reconcile.{changed, reconcile, is_unstable, load_from_bundle, loaded_record}
use atb.Acquisition.Reconcile.Laws.{Incoming, after, digests, reconcile-classify}
use atb.Acquisition.Reconcile.Latest.{ComesFrom, IsCovered, acquisition_of, load_from_bundle-latest}
use atb.Acquisition.Checkpoint.{
  Checkpoint, CheckpointCodec, Source, created, load_or_create, save, bind_bundle, update_position,
  validate, validate_bundle,
}
use atb.Acquisition.Checkpoint.Laws.{resume}
use atb.Examples.{plain_event}

abbrev chat : SourceIdentity
chat = record { system = "chatlog"; record_id = "m1"; derived = true }

abbrev seen : String → Incoming
seen digest = record { identity = chat; digest = digest; at = "t"; acquisition = none }

-- The third record of a source whose second was like its first.
abbrev history : List Incoming
history = seen "a" ∷ seen "a" ∷ []

reconcile-classify_example :
    let outcome = (reconcile (after [] history) chat "b" "t" none).0 in
    (outcome.result ≡ changed) × (digests outcome.finding ≡ some ("a", "b"))
unfolding is_unstable
reconcile-classify_example = reconcile-classify history (seen "b")

abbrev pub acquisition : String → AcquisitionInfo
acquisition digest = record {
  mode = "snapshot";
  source_system = "chatlog";
  source_record_id = "m1";
  source_timestamp = "";
  acquired_at = "t";
  source_digest = digest;
  adapter = "chatlog";
  adapter_version = "1";
  checkpoint = none;
}

abbrev record_at : ℕ → String → Record
record_at n digest = record {
  event = record (plain_event "ai.chat.message" (str "hi")) {
    sequence = pos n;
    acquisition = some (acquisition digest);
  };
  hash = "h";
  prefix = no_prefix;
}

-- The later record stands first.
abbrev shuffled : List Record
shuffled = record_at 5 "new" ∷ record_at 2 "old" ∷ []

kept :
    lookup "chatlog:m1" (load_from_bundle [] shuffled)
    ≡ some (loaded_record (acquisition "new") (pos 5))
unfolding load_from_bundle is_unstable
kept = refl

load_from_bundle-latest_example :
    let o = lookup "chatlog:m1" (load_from_bundle [] shuffled) in
    ComesFrom "chatlog:m1" none shuffled o
    × Unit {0}
    × All (λ r. IsCovered o r.event.sequence (acquisition_of "chatlog:m1" r)) shuffled
load_from_bundle-latest_example = load_from_bundle-latest "chatlog:m1" [] shuffled

abbrev source : Source
source = record {
  system = "chatlog";
  stream = "log.json";
  adapter = "chatlog";
  adapter_version = "1";
  incarnation = "";
  identity = chat;
}

abbrev fresh : Checkpoint
fresh = created source "t0"

abbrev head : String
head = "aa"

head_given : head ≢ ""
head_given = ground (arith, eq_iff head "")

abbrev moved : Checkpoint
moved = record fresh {
  position = "7";
  last_record_digest = "d";
  processed_count = pos 7;
  observed_at = "t1";
  bundle_head_hash = head;
  bundle_record_count = pos 8;
}

-- A decoder for the one text that the test writes.
abbrev pub one_text : CheckpointCodec
one_text = record { encode = λ cp. cp.position; decode = λ text. some moved }

fresh_valid : validate fresh source ≡ ok tt
unfolding validate
fresh_valid = refl

resume_example :
    (load_or_create one_text (save one_text moved) source "t2" ≡ ok moved)
    × (validate moved source ≡ ok tt)
    × ((other : String) (n : ℤ)
        → (validate_bundle moved other n ≡ ok tt) ↔ ((head ≡ other) × (pos 8 ≡ n)))
unfolding bind_bundle update_position
resume_example =
    resume one_text fresh source "7" "d" "t1" "t2" head (pos 7) (pos 8) refl fresh_valid refl
      head_given
