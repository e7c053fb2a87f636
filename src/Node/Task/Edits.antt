-- ===== src/Node/Task/Edits.antt =====
-- The constructors and the operations of `TaskRecord`. An operation on `&mut self` gives the record
-- that it leaves and what it returns: two of them have written to the record when they fail. The
-- clock and the random identifier are arguments.
use p2p_file.Common.{
  ℕ, Bool, true, false, not, ◌&&◌, ◌||◌, List, Option, none, some, if◌then◌else◌, ltb,
}
use p2p_file.Common.Ints.{ℤ, pos, ltb_int, max_int}
use p2p_file.Common.Text.{utf8}
use p2p_file.Common.Paths.{PathBuf}
use p2p_file.Transfer.Manifest.{FileManifest}
use p2p_file.Node.Task.{
  External, TaskState, scanning, queued, completed, failed, finalizing, invalid_manifest_identity,
  invalid_progress_hint, missing_failure_diagnostic, immutable_binding, not_recoverable,
  invalid_transition, user_cancelled, Result, ok, err, ◌>>=◌, TaskDirection, send, receive, is_send,
  LocalTaskPath, new_source, new_receive_root, same_state, allows, TaskDiagnostic, ProgressHint,
  ManifestIdentity, identity_of,
}
use p2p_file.Node.Task.Record.{
  TaskRecord, FileTaskDetails, DirectoryTaskDetails, task_record_schema_version, is_some,
  is_completed, file_committed, directory_committed, validate,
}

abbrev pub Outcome : Type 0
Outcome = TaskRecord × Result (Unit {0})

unfoldable pub local_path_for : TaskDirection → PathBuf → Result LocalTaskPath
local_path_for send path = new_source path
local_path_for receive path = new_receive_root path

abbrev pub is_retryable : Option TaskDiagnostic → Bool
is_retryable none = false
is_retryable (some d) = d.retryable

abbrev pub file_prepared : Option FileTaskDetails → Bool
file_prepared none = false
file_prepared (some d) = d.publish_prepared

abbrev pub directory_prepared : Option DirectoryTaskDetails → Bool
directory_prepared none = false
directory_prepared (some d) = d.publish_prepared

-- `now.max(created).max(updated)`
abbrev pub later : ℤ → TaskRecord → ℤ
later now r = max_int (max_int now r.created_at_unix_ms) r.updated_at_unix_ms

-- The diagnostic that a transition leaves.
abbrev pub next_diagnostic : TaskRecord → TaskState → Option TaskDiagnostic → Option TaskDiagnostic
next_diagnostic r next diagnostic =
    if same_state next queued then none else if is_some diagnostic then diagnostic else r.diagnostic

-- The copy takes the record's place if it is valid.
abbrev pub replace_by : TaskRecord → TaskRecord → Result (Unit {0}) → Outcome
replace_by r updated (ok _) = (updated, ok tt)
replace_by r updated (err e) = (r, err e)

unfoldable pub set_progress_hint : TaskRecord → ProgressHint → Outcome
set_progress_hint r hint =
    if ltb r.manifest_identity.total_bytes hint.verified_bytes
      || ltb_int hint.sampled_at_unix_ms (pos 0)
    then (r, err invalid_progress_hint)
    else (record r { progress_hint = some hint }, ok tt)

unfoldable pub prepare_publication : TaskRecord → Outcome
prepare_publication r =
    if is_send r.direction || not (same_state r.state finalizing)
    then (r, err not_recoverable)
    else elim r.file_details [
      | some d ↦ (record r { file_details = some (record d { publish_prepared = true }) }, ok tt)
      | none ↦ elim r.directory_details [
        | some d ↦
            (record r { directory_details = some (record d { publish_prepared = true }) }, ok tt)
        | none ↦ (r, err invalid_manifest_identity)
      ]
    ]

unfoldable pub enable_incremental : TaskRecord → Outcome
enable_incremental r = elim r.file_details [
  | none ↦ (r, err not_recoverable)
  | some d ↦
      if not (is_some r.group_id) || is_completed r
      then (r, err not_recoverable)
      else (record r { file_details = some (record d { incremental = true }) }, ok tt)
]

module _ (x : External) where
  unfoldable pub new :
      List ℕ → List ℕ → TaskDirection → LocalTaskPath → ManifestIdentity → ℤ → Result TaskRecord
  new task_id peer_id direction local_path manifest_identity now = do
    let r : TaskRecord = record {
      schema_version = task_record_schema_version;
      task_id = task_id;
      peer_id = peer_id;
      direction = direction;
      local_path = local_path;
      manifest_identity = manifest_identity;
      state = scanning;
      created_at_unix_ms = now;
      updated_at_unix_ms = now;
      diagnostic = none;
      progress_hint = none;
      file_details = none;
      directory_details = none;
      group_id = none;
    }
    _ ← validate x r
    ok r

  unfoldable pub new_sender : List ℕ → List ℕ → PathBuf → ManifestIdentity → ℤ → Result TaskRecord
  new_sender task_id peer_id source_path identity now = do
    path ← new_source source_path
    new task_id peer_id send path identity now

  unfoldable pub new_receiver : List ℕ → List ℕ → PathBuf → ManifestIdentity → ℤ → Result TaskRecord
  new_receiver task_id peer_id receive_path identity now = do
    path ← new_receive_root receive_path
    new task_id peer_id receive path identity now

  unfoldable pub new_file :
      List ℕ → List ℕ → TaskDirection → PathBuf → List ℕ → FileManifest → ℤ → Result TaskRecord
  new_file task_id peer_id direction local_path relative_path manifest now = do
    identity ← identity_of x manifest.root_hash manifest.total_len manifest.chunk_size
    path ← local_path_for direction local_path
    r ← new task_id peer_id direction path identity now
    let details : FileTaskDetails = record {
      relative_path = relative_path;
      manifest = manifest;
      publish_prepared = false;
      receipt_committed = false;
      source_root = none;
      incremental = false;
      skipped_existing = false;
    }
    _ ← validate x (record r { file_details = some details })
    ok (record r { file_details = some details })

  unfoldable pub new_directory :
      List ℕ → List ℕ → TaskDirection → PathBuf → List ℕ → Option (List ℕ) → ℤ → Result TaskRecord
  new_directory task_id peer_id direction local_path relative_path group_id now = do
    path ← local_path_for direction local_path
    identity ← identity_of x (x.blake3 (utf8 relative_path)) 0 1
    r ← new task_id peer_id direction path identity now
    let details : DirectoryTaskDetails = record {
      relative_path = relative_path;
      publish_prepared = false;
      receipt_committed = false;
    }
    _ ← validate x (record r { directory_details = some details; group_id = group_id })
    ok (record r { directory_details = some details; group_id = group_id })

  unfoldable pub transition_to : TaskRecord → TaskState → Option TaskDiagnostic → ℤ → Outcome
  transition_to r next diagnostic now =
      if not (allows r.state next (is_retryable r.diagnostic))
      then (r, err (invalid_transition r.state next))
      else (if same_state next failed && not (is_some diagnostic)
          then (r, err missing_failure_diagnostic)
          else let updated : TaskRecord = record r {
            state = next;
            diagnostic = next_diagnostic r next diagnostic;
            updated_at_unix_ms = later now r;
          } in
            replace_by r updated (validate x updated))

  unfoldable pub cancel : TaskRecord → ℤ → Outcome
  cancel r now =
      if is_completed r
        || file_prepared r.file_details
        || file_committed r.file_details
        || directory_prepared r.directory_details
        || directory_committed r.directory_details
      then (r, err (invalid_transition r.state failed))
      else let updated : TaskRecord = record r {
        state = failed;
        diagnostic = some (record { code = user_cancelled; retryable = false });
        updated_at_unix_ms = later now r;
      } in
        replace_by r updated (validate x updated)

  -- The record keeps the new binding even if it is not valid.
  unfoldable pub set_selection_binding : TaskRecord → Option (List ℕ) → Option PathBuf → Outcome
  set_selection_binding r group source_root =
      if not (same_state r.state scanning)
      then (r, err immutable_binding)
      else let bound : TaskRecord = record r {
        group_id = group;
        file_details = elim r.file_details [
          | none ↦ none
          | some d ↦ some (record d { source_root = source_root })
        ];
      } in
        (bound, validate x bound)

  -- The receipt is set before the transition is tried.
  unfoldable pub commit_receipt : TaskRecord → ℤ → Outcome
  commit_receipt r now = elim r.file_details [
    | some d ↦
        if not (is_send r.direction) && not (d.publish_prepared || d.skipped_existing)
        then (r, err not_recoverable)
        else transition_to
            (record r { file_details = some (record d { receipt_committed = true }) }) completed
            none now
    | none ↦ elim r.directory_details [
      | none ↦ (r, err invalid_manifest_identity)
      | some d ↦
          if not (is_send r.direction) && not d.publish_prepared
          then (r, err not_recoverable)
          else transition_to
              (record r { directory_details = some (record d { receipt_committed = true }) })
              completed none now
    ]
  ]

  unfoldable pub commit_skipped : TaskRecord → ℤ → Outcome
  commit_skipped r now = elim r.file_details [
    | none ↦ (r, err not_recoverable)
    | some d ↦
        if not d.incremental || d.publish_prepared || not (same_state r.state finalizing)
        then (r, err not_recoverable)
        else commit_receipt
            (record r { file_details = some (record d { skipped_existing = true }) }) now
  ]
