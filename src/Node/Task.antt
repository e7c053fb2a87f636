-- ===== src/Node/Task.antt =====
-- The durable task of src/node/core/task_model.rs: identifiers, states, the manifest's identity.
-- Strings are their code points. BLAKE3 and the hex crate are not under src/.
pub mod Record
pub mod Edits
pub mod Binding
pub mod Frame
pub mod Lifecycle
pub mod Creation
pub mod Publication
pub mod Runs
use p2p_file.Common.{
  ℕ, ◌+◌, ◌-◌, ◌/◌, Bool, true, false, not, ◌&&◌, ◌||◌, List, [], ◌∷◌, Option, none, some,
  if◌then◌else◌, leb, ◌==◌, ◌!=◌, length,
}
use p2p_file.Common.Bytes.{same_bytes}
use p2p_file.Common.Ints.{ℤ}
use p2p_file.Common.Text.{all_chars}
use p2p_file.Common.Paths.{PathBuf}

-- What the model takes from other packages.
pub record External : Type 0 where
  pub blake3 : List ℕ → List ℕ
  pub hex_encode : List ℕ → List ℕ
  pub hex_decode : List ℕ → Option (List ℕ)

pub data TaskState : Type 0 where
  scanning queued connecting negotiating transferring pausing paused finalizing : TaskState
  completed interrupted failed : TaskState

pub data TaskModelError : Type 0 where
  invalid_task_id invalid_peer_id invalid_manifest_identity relative_local_path : TaskModelError
  direction_path_mismatch : TaskModelError
  unsupported_schema_version : ℕ → TaskModelError
  invalid_timestamps invalid_progress_hint missing_failure_diagnostic : TaskModelError
  invalid_transition : TaskState → TaskState → TaskModelError
  not_recoverable immutable_binding clock_out_of_range : TaskModelError

pub data Result {ℓ} (A : Type ℓ) : Type ℓ where
  ok : A → Result A
  err : TaskModelError → Result A

infixl 5 ◌>>=◌
abbrev pub ◌>>=◌ {ℓ κ} : {A : Type ℓ} {B : Type κ} → Result A → (A → Result B) → Result B
ok a >>= f = f a
err e >>= f = err e

-- `if refused { return Err(e) }`
abbrev pub refuse_if : Bool → TaskModelError → Result (Unit {0})
refuse_if true e = err e
refuse_if false e = ok tt

abbrev pub is_lower_hex : ℕ → Bool
is_lower_hex c = (leb b'0' c && leb c b'9') || (leb b'a' c && leb c b'f')

-- `hex::decode(text).map_or(true, |bytes| bytes.len() != n)`
abbrev pub decodes_to_other : Option (List ℕ) → ℕ → Bool
decodes_to_other none n = true
decodes_to_other (some bytes) n = length bytes != n

pub data TaskDirection : Type 0 where
  send receive : TaskDirection

abbrev pub is_send : TaskDirection → Bool
is_send send = true
is_send receive = false

pub data LocalTaskPath : Type 0 where
  source receive_root : PathBuf → LocalTaskPath

abbrev pub path_of : LocalTaskPath → PathBuf
path_of (source path) = path
path_of (receive_root path) = path

abbrev pub is_sender_source : LocalTaskPath → Bool
is_sender_source (source _) = true
is_sender_source (receive_root _) = false

unfoldable pub new_source : PathBuf → Result LocalTaskPath
new_source path = if not path.is_absolute then err relative_local_path else ok (source path)

unfoldable pub new_receive_root : PathBuf → Result LocalTaskPath
new_receive_root path =
    if not path.is_absolute then err relative_local_path else ok (receive_root path)

abbrev pub state_index : TaskState → ℕ
state_index scanning = 0
state_index queued = 1
state_index connecting = 2
state_index negotiating = 3
state_index transferring = 4
state_index pausing = 5
state_index paused = 6
state_index finalizing = 7
state_index completed = 8
state_index interrupted = 9
state_index failed = 10

abbrev pub same_state : TaskState → TaskState → Bool
same_state a b = state_index a == state_index b

unfoldable pub is_terminal : TaskState → Bool
is_terminal completed = true
is_terminal failed = true
is_terminal _ = false

unfoldable pub needs_startup_recovery : TaskState → Bool
needs_startup_recovery scanning = true
needs_startup_recovery queued = true
needs_startup_recovery connecting = true
needs_startup_recovery negotiating = true
needs_startup_recovery transferring = true
needs_startup_recovery pausing = true
needs_startup_recovery finalizing = true
needs_startup_recovery _ = false

unfoldable pub allows : TaskState → TaskState → Bool → Bool
allows scanning next retryable = elim next [
  | queued ↦ true
  | interrupted ↦ true
  | failed ↦ true
  | _ ↦ false
]
allows queued next retryable = elim next [
  | connecting ↦ true
  | pausing ↦ true
  | interrupted ↦ true
  | failed ↦ true
  | _ ↦ false
]
allows connecting next retryable = elim next [
  | negotiating ↦ true
  | pausing ↦ true
  | interrupted ↦ true
  | failed ↦ true
  | _ ↦ false
]
allows negotiating next retryable = elim next [
  | transferring ↦ true
  | pausing ↦ true
  | interrupted ↦ true
  | failed ↦ true
  | _ ↦ false
]
allows transferring next retryable = elim next [
  | pausing ↦ true
  | finalizing ↦ true
  | interrupted ↦ true
  | failed ↦ true
  | _ ↦ false
]
allows pausing next retryable = elim next [
  | paused ↦ true
  | finalizing ↦ true
  | interrupted ↦ true
  | failed ↦ true
  | _ ↦ false
]
allows paused next retryable = elim next [
  | queued ↦ true
  | interrupted ↦ true
  | failed ↦ true
  | _ ↦ false
]
allows finalizing next retryable = elim next [
  | completed ↦ true
  | interrupted ↦ true
  | failed ↦ true
  | _ ↦ false
]
allows completed next retryable = false
allows interrupted next retryable = elim next [ queued ↦ true | failed ↦ true | _ ↦ false ]
allows failed next retryable = elim next [ queued ↦ retryable | _ ↦ false ]

pub data TaskErrorCode : Type 0 where
  source_unavailable source_changed peer_unavailable peer_busy permission_denied : TaskErrorCode
  disk_full integrity_mismatch invalid_remote_data unsupported_peer : TaskErrorCode
  network_interrupted application_restarted storage_unavailable user_cancelled : TaskErrorCode
  other space_check_unavailable receive_budget_busy filesystem_mismatch : TaskErrorCode

pub record TaskDiagnostic : Type 0 where
  pub code : TaskErrorCode
  pub retryable : Bool

pub record ProgressHint : Type 0 where
  pub verified_bytes : ℕ  -- u64
  pub sampled_at_unix_ms : ℤ

-- The one hash algorithm, `Blake3V1`, leaves nothing to store.
pub record ManifestIdentity : Type 0 where
  pub root_hash : List ℕ
  pub total_bytes : ℕ  -- u64
  pub chunk_size : ℕ  -- u32
  pub chunk_count : ℕ  -- u64

abbrev pub div_ceil : ℕ → ℕ → ℕ
div_ceil a b = (a + b - 1) / b

abbrev pub same_identity : ManifestIdentity → ManifestIdentity → Bool
same_identity a b =
    same_bytes a.root_hash b.root_hash
    && a.total_bytes == b.total_bytes
    && a.chunk_size == b.chunk_size
    && a.chunk_count == b.chunk_count

module _ (x : External) where
  unfoldable pub parse_task_id : List ℕ → Result (List ℕ)
  parse_task_id value =
      if length value != 32
        || not (all_chars is_lower_hex value)
        || decodes_to_other (x.hex_decode value) 16
      then err invalid_task_id
      else ok value

  unfoldable pub parse_peer_id : List ℕ → Result (List ℕ)
  parse_peer_id value = elim (x.hex_decode value) [
    | none ↦ err invalid_peer_id
    | some decoded ↦
        if length decoded != 16 || length value != 32 || not (all_chars is_lower_hex value)
        then err invalid_peer_id
        else ok value
  ]

  unfoldable pub validate_identity : ManifestIdentity → Result (Unit {0})
  validate_identity identity =
      refuse_if
        (length identity.root_hash != 64
          || not (all_chars is_lower_hex identity.root_hash)
          || decodes_to_other (x.hex_decode identity.root_hash) 32
          || identity.chunk_size == 0
          || identity.chunk_count != div_ceil identity.total_bytes identity.chunk_size)
        invalid_manifest_identity

  -- `ManifestIdentity::blake3`
  unfoldable pub identity_of : List ℕ → ℕ → ℕ → Result ManifestIdentity
  identity_of root_hash total_bytes chunk_size =
      if chunk_size == 0 then err invalid_manifest_identity else do
        let identity : ManifestIdentity = record {
          root_hash = x.hex_encode root_hash;
          total_bytes = total_bytes;
          chunk_size = chunk_size;
          chunk_count = div_ceil total_bytes chunk_size;
        }
        _ ← validate_identity identity
        ok identity
