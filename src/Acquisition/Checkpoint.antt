-- ===== src/Acquisition/Checkpoint.antt =====
-- Checkpoints for incremental continuation (internal/acquisition/checkpoint.go and
-- checkpoint_integration.go). A path holds no file, one that cannot be read, or a text.
pub mod Laws
use atb.Prelude.{
  ℕ, String, Bool, true, false, not, ◌&&◌, ◌||◌, List, [], Option, none, some, str_eq,
  if◌then◌else◌,
}
use atb.Prelude.Int.{ℤ, pos, eqb_ℤ, ltb_ℤ}
use atb.Prelude.Map.{Map}
use atb.Prelude.Result.{Result, ok, err, ◌>>=◌, fail_if, ◌>>◌}
use atb.Event.{SourceIdentity}

-- Checkpoint
pub record Checkpoint : Type 0 where
  pub format_version : ℤ
  pub source_system : String
  pub acquisition_stream : String
  pub position : String
  pub observed_at : String
  pub adapter : String
  pub adapter_version : String
  pub source_identity : SourceIdentity
  pub source_incarnation : String
  pub processed_count : ℤ
  pub last_record_digest : String
  pub bundle_head_hash : String
  pub bundle_record_count : ℤ
  pub metadata : Map String

-- The errors of the package, and those of the operating system.
pub data CheckpointError : Type 0 where
  not_found : CheckpointError
  version_unsupported : ℤ → CheckpointError
  corrupted : CheckpointError
  source_mismatch : String → String → CheckpointError
  adapter_mismatch : String → String → CheckpointError
  bundle_mismatch : String → ℤ → String → ℤ → CheckpointError
  incarnation_mismatch : String → String → CheckpointError
  not_readable : CheckpointError
  not_loaded : CheckpointError

-- What a path holds.
pub data File : Type 0 where
  missing : File
  unreadable : File
  holding : String → File

-- encoding/json on checkpoints.
pub record CheckpointCodec : Type 0 where
  pub encode : Checkpoint → String
  pub decode : String → Option Checkpoint

-- The version that a legacy checkpoint gets.
abbrev pub versioned : Checkpoint → Checkpoint
versioned cp = record cp {
  format_version = if eqb_ℤ cp.format_version (pos 0) then pos 1 else cp.format_version;
}

supported : Checkpoint → Result CheckpointError Checkpoint
supported cp =
    if ltb_ℤ (pos 1) cp.format_version then err (version_unsupported cp.format_version) else ok cp

decoded_file : Option Checkpoint → Result CheckpointError Checkpoint
unfolding supported
decoded_file none = err corrupted
decoded_file (some cp) = supported (versioned cp)

-- Load
unfoldable pub load : CheckpointCodec → File → Result CheckpointError Checkpoint
unfolding decoded_file
load c missing = err not_found
load c unreadable = err not_readable
load c (holding text) = decoded_file (c.decode text)

-- Save: what the path holds afterwards, if no call of the operating system fails.
unfoldable pub save : CheckpointCodec → Checkpoint → File
save c cp = holding (c.encode (versioned cp))

-- What a caller knows of its source.
pub record Source : Type 0 where
  pub system : String
  pub stream : String
  pub adapter : String
  pub adapter_version : String
  pub incarnation : String
  pub identity : SourceIdentity

-- The checkpoint that LoadOrCreate makes at the time `now`.
abbrev pub created : Source → String → Checkpoint
created s now = record {
  format_version = pos 1;
  source_system = s.system;
  acquisition_stream = s.stream;
  position = "start";
  observed_at = now;
  adapter = s.adapter;
  adapter_version = s.adapter_version;
  source_identity = s.identity;
  source_incarnation = s.incarnation;
  processed_count = pos 0;
  last_record_digest = "";
  bundle_head_hash = "";
  bundle_record_count = pos 0;
  metadata = [];
}

or_create : Source → String → Result CheckpointError Checkpoint → Result CheckpointError Checkpoint
or_create s now (ok cp) = ok cp
or_create s now (err not_found) = ok (created s now)
or_create s now (err e) = err e

-- LoadOrCreate
unfoldable pub load_or_create :
    CheckpointCodec → File → Source → String → Result CheckpointError Checkpoint
unfolding load or_create
load_or_create c file s now = or_create s now (load c file)

-- Two names that are both given and differ.
abbrev pub differ : String → String → Bool
differ expected recorded =
    not (str_eq expected "") && (not (str_eq recorded "") && not (str_eq recorded expected))

-- Validate; `ok` is a nil error.
unfoldable pub validate : Checkpoint → Source → Result CheckpointError (Unit {0})
validate cp s = do
  fail_if (not (str_eq cp.source_system s.system)) (source_mismatch s.system cp.source_system)
  fail_if (not (str_eq cp.acquisition_stream s.stream))
      (source_mismatch s.stream cp.acquisition_stream)
  fail_if (not (str_eq cp.adapter s.adapter)) (adapter_mismatch s.adapter cp.adapter)
  fail_if (differ s.adapter_version cp.adapter_version)
      (adapter_mismatch s.adapter_version cp.adapter_version)
  fail_if (differ s.incarnation cp.source_incarnation)
      (incarnation_mismatch s.incarnation cp.source_incarnation)

-- UpdatePosition at the time `now`
unfoldable pub update_position : Checkpoint → String → String → ℤ → String → Checkpoint
update_position cp position digest count now = record cp {
  position = position;
  last_record_digest = digest;
  processed_count = count;
  observed_at = now;
}

-- BindBundle
unfoldable pub bind_bundle : Checkpoint → String → ℤ → Checkpoint
bind_bundle cp head count = record cp { bundle_head_hash = head; bundle_record_count = count }

-- ValidateBundle; `ok` is a nil error.
unfoldable pub validate_bundle : Checkpoint → String → ℤ → Result CheckpointError (Unit {0})
validate_bundle cp head count =
    if str_eq cp.bundle_head_hash ""
    then ok tt
    else fail_if (not (str_eq cp.bundle_head_hash head) || not (eqb_ℤ cp.bundle_record_count count))
        (bundle_mismatch cp.bundle_head_hash cp.bundle_record_count head count)

-- RebindBundleCheckpoint: what the path holds afterwards.
rebound :
    CheckpointCodec
    → File
    → String
    → ℤ
    → Result CheckpointError Checkpoint
    → Result CheckpointError File
unfolding save bind_bundle
rebound c file head count (ok cp) = ok (save c (bind_bundle cp head count))
rebound c file head count (err not_found) = ok file
rebound c file head count (err e) = err e

unfoldable pub rebind_bundle_checkpoint :
    CheckpointCodec → File → String → ℤ → Result CheckpointError File
unfolding load rebound
rebind_bundle_checkpoint c file head count = rebound c file head count (load c file)
