-- ===== src/Node/Task/Record.antt =====
-- `TaskRecord` of src/node/core/task_model.rs and its `validate`.
use p2p_file.Common.{
  ℕ, Bool, true, false, not, ◌&&◌, ◌||◌, List, [], Option, none, some, ltb, ◌==◌, ◌!=◌, length,
}
use p2p_file.Common.Bytes.{same_bytes}
use p2p_file.Common.Ints.{ℤ, pos, ltb_int}
use p2p_file.Common.Text.{utf8, split, split_once, last_or}
use p2p_file.Common.Paths.{
  PathBuf, same_path, same_names, same_bool, starts_with, all_unicode, file_name_text, join,
}
use p2p_file.Storage.RelativePath.{validate_relative_path}
use p2p_file.Storage.RelativePath
use p2p_file.Transfer.Manifest.{FileManifest}
use p2p_file.Transfer.Manifest
use p2p_file.Node.Task.{
  External, TaskState, completed, failed, invalid_manifest_identity, unsupported_schema_version,
  relative_local_path, direction_path_mismatch, invalid_timestamps, invalid_progress_hint,
  missing_failure_diagnostic, immutable_binding, Result, ok, err, refuse_if, ◌>>=◌, TaskDirection,
  is_send, LocalTaskPath, path_of, is_sender_source, same_state, TaskDiagnostic, ProgressHint,
  ManifestIdentity, same_identity, validate_identity, identity_of,
}

abbrev pub task_record_schema_version : ℕ
task_record_schema_version = 1

-- `MAX_CHUNKS` of src/node/core/protocol.rs.
abbrev pub max_chunks : ℕ
max_chunks = 65536

pub record FileTaskDetails : Type 0 where
  pub relative_path : List ℕ
  pub manifest : FileManifest
  pub publish_prepared : Bool
  pub receipt_committed : Bool
  pub source_root : Option PathBuf
  pub incremental : Bool
  pub skipped_existing : Bool

pub record DirectoryTaskDetails : Type 0 where
  pub relative_path : List ℕ
  pub publish_prepared : Bool
  pub receipt_committed : Bool

pub record TaskRecord : Type 0 where
  pub schema_version : ℕ  -- u32
  pub task_id : List ℕ
  pub peer_id : List ℕ
  pub direction : TaskDirection
  pub local_path : LocalTaskPath
  pub manifest_identity : ManifestIdentity
  pub state : TaskState
  pub created_at_unix_ms : ℤ
  pub updated_at_unix_ms : ℤ
  pub diagnostic : Option TaskDiagnostic
  pub progress_hint : Option ProgressHint
  pub file_details : Option FileTaskDetails
  pub directory_details : Option DirectoryTaskDetails
  pub group_id : Option (List ℕ)

abbrev pub is_some {ℓ} : {A : Type ℓ} → Option A → Bool
is_some none = false
is_some (some _) = true

abbrev pub is_completed : TaskRecord → Bool
is_completed r = same_state r.state completed

unfoldable pub relative_path : TaskRecord → Option (List ℕ)
relative_path r = elim r.file_details [
  | some d ↦ some d.relative_path
  | none ↦ elim r.directory_details [ none ↦ none | some d ↦ some d.relative_path ]
]

abbrev pub file_committed : Option FileTaskDetails → Bool
file_committed none = false
file_committed (some d) = d.receipt_committed

abbrev pub directory_committed : Option DirectoryTaskDetails → Bool
directory_committed none = false
directory_committed (some d) = d.receipt_committed

unfoldable pub receipt_committed : TaskRecord → Bool
receipt_committed r = file_committed r.file_details || directory_committed r.directory_details

-- `.map_err(|_| InvalidManifestIdentity)`
abbrev pub path_result : RelativePath.Result → Result (Unit {0})
path_result RelativePath.ok = ok tt
path_result (RelativePath.err _) = err invalid_manifest_identity

abbrev pub manifest_result : Manifest.Result (Unit {0}) → Result (Unit {0})
manifest_result (Manifest.ok _) = ok tt
manifest_result (Manifest.err _) = err invalid_manifest_identity

-- The flags of a file that may not stand together.
abbrev pub file_flags_clash : TaskRecord → FileTaskDetails → Bool
file_flags_clash r d =
    ltb max_chunks (length d.manifest.chunks)
    || not (same_bool d.receipt_committed (is_completed r))
    || (is_send r.direction && d.publish_prepared)
    || (not (is_send r.direction)
        && d.receipt_committed
        && not d.publish_prepared
        && not d.skipped_existing)
    || (d.incremental && not (is_some r.group_id))
    || (d.skipped_existing && (not d.incremental || not d.receipt_committed || d.publish_prepared))

abbrev pub directory_flags_clash : TaskRecord → DirectoryTaskDetails → Bool
directory_flags_clash r d =
    not (same_bool d.receipt_committed (is_completed r))
    || (is_send r.direction && d.publish_prepared)
    || (not (is_send r.direction) && d.receipt_committed && not d.publish_prepared)

abbrev pub hint_clashes : TaskRecord → Option ProgressHint → Bool
hint_clashes r none = false
hint_clashes r (some hint) =
    ltb r.manifest_identity.total_bytes hint.verified_bytes
    || ltb_int hint.sampled_at_unix_ms (pos 0)

-- `root.file_name().and_then(|n| n.to_str()) != Some(top)`
abbrev pub differs_from : Option (List ℕ) → List ℕ → Bool
differs_from none top = true
differs_from (some name) top = not (same_bytes name top)

abbrev pub check_root : TaskRecord → FileTaskDetails → PathBuf → Result (Unit {0})
check_root r d root = do
  _ ←
      refuse_if
        (not (is_send r.direction)
          || not root.is_absolute
          || not (starts_with (path_of r.local_path) root))
        invalid_manifest_identity
  elim (split_once b'/' d.relative_path) [
    | none ↦ err invalid_manifest_identity
    | some (top, relative) ↦
        refuse_if
          (differs_from (file_name_text root) top
            || not (same_path (join root relative) (path_of r.local_path))
            || not (all_unicode root.names))
          invalid_manifest_identity
  ]

abbrev pub validate_root : TaskRecord → Option FileTaskDetails → Result (Unit {0})
validate_root r none = ok tt
validate_root r (some d) = elim d.source_root [ none ↦ ok tt | some root ↦ check_root r d root ]

module _ (x : External) where
  abbrev pub validate_file : TaskRecord → Option FileTaskDetails → Result (Unit {0})
  validate_file r none = ok tt
  validate_file r (some d) = do
    _ ← manifest_result (Manifest.validate x.blake3 d.manifest)
    _ ← path_result (validate_relative_path d.relative_path)
    _ ←
        refuse_if
          (not (same_bytes (utf8 (last_or [] (split b'/' d.relative_path))) d.manifest.file_name))
          invalid_manifest_identity
    expected ← identity_of x d.manifest.root_hash d.manifest.total_len d.manifest.chunk_size
    _ ← refuse_if (not (same_identity r.manifest_identity expected)) invalid_manifest_identity
    refuse_if (file_flags_clash r d) invalid_manifest_identity

  abbrev pub validate_directory : TaskRecord → Option DirectoryTaskDetails → Result (Unit {0})
  validate_directory r none = ok tt
  validate_directory r (some d) = do
    _ ← path_result (validate_relative_path d.relative_path)
    expected ← identity_of x (x.blake3 (utf8 d.relative_path)) 0 1
    _ ← refuse_if (not (same_identity r.manifest_identity expected)) invalid_manifest_identity
    refuse_if (directory_flags_clash r d) invalid_manifest_identity

  unfoldable pub validate : TaskRecord → Result (Unit {0})
  validate r = do
    _ ←
        refuse_if (r.schema_version != task_record_schema_version)
          (unsupported_schema_version r.schema_version)
    _ ← validate_identity x r.manifest_identity
    _ ← validate_file r r.file_details
    _ ← refuse_if (is_some r.file_details && is_some r.directory_details) invalid_manifest_identity
    _ ← validate_directory r r.directory_details
    _ ← validate_root r r.file_details
    _ ← refuse_if (not (path_of r.local_path).is_absolute) relative_local_path
    _ ←
        refuse_if (not (same_bool (is_send r.direction) (is_sender_source r.local_path)))
          direction_path_mismatch
    _ ←
        refuse_if
          (ltb_int r.created_at_unix_ms (pos 0)
            || ltb_int r.updated_at_unix_ms r.created_at_unix_ms)
          invalid_timestamps
    _ ← refuse_if (hint_clashes r r.progress_hint) invalid_progress_hint
    refuse_if (same_state r.state failed && not (is_some r.diagnostic)) missing_failure_diagnostic

abbrev pub same_option {ℓ} : {A : Type ℓ} → (A → A → Bool) → Option A → Option A → Bool
same_option same none none = true
same_option same none (some b) = false
same_option same (some a) none = false
same_option same (some a) (some b) = same a b

abbrev pub same_manifest : FileManifest → FileManifest → Bool
same_manifest a b =
    same_bytes a.file_name b.file_name
    && a.total_len == b.total_len
    && a.chunk_size == b.chunk_size
    && same_names a.chunks b.chunks
    && same_bytes a.root_hash b.root_hash

abbrev pub same_direction : TaskDirection → TaskDirection → Bool
same_direction a b = same_bool (is_send a) (is_send b)

abbrev pub same_local_path : LocalTaskPath → LocalTaskPath → Bool
same_local_path a b =
    same_bool (is_sender_source a) (is_sender_source b) && same_path (path_of a) (path_of b)

-- What `validate_binding_unchanged` compares of two files.
abbrev pub same_file : FileTaskDetails → FileTaskDetails → Bool
same_file a b =
    same_option same_path a.source_root b.source_root
    && same_bytes a.relative_path b.relative_path
    && same_manifest a.manifest b.manifest

abbrev pub same_directory : DirectoryTaskDetails → DirectoryTaskDetails → Bool
same_directory a b = same_bytes a.relative_path b.relative_path

unfoldable pub validate_binding_unchanged : TaskRecord → TaskRecord → Result (Unit {0})
validate_binding_unchanged a b =
    refuse_if
      (not (same_bytes a.task_id b.task_id)
        || not (same_bytes a.peer_id b.peer_id)
        || not (same_direction a.direction b.direction)
        || not (same_local_path a.local_path b.local_path)
        || not (same_identity a.manifest_identity b.manifest_identity)
        || not (same_option same_bytes a.group_id b.group_id)
        || not (same_option same_directory a.directory_details b.directory_details)
        || not (same_option same_file a.file_details b.file_details))
      immutable_binding
