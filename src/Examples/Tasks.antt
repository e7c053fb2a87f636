-- ===== src/Examples/Tasks.antt =====
-- Durable tasks on small records: a directory to receive and a file to send.
use p2p_file.Common.{
  ℕ, ◌+◌, ◌/◌, ◌%◌, ◌≤◌, ◌≡◌, ◌≢◌, refl, ◌⊎◌, true, false, not, ◌&&◌, List, [], ◌∷◌, Option, none,
  some, if◌then◌else◌, ltb, length, replicate, All,
}
use p2p_file.Common.Ints.{pos, ltb_int}
use p2p_file.Common.Text.{intercalate}
use p2p_file.Storage.RelativePath.{
  validate_relative_path, check_components, bad_name, is_device, IsEntry,
  validate_relative_path_lem,
}
use p2p_file.Storage.RelativePath
use p2p_file.Node.Task.{
  new_source, External, scanning, queued, finalizing, completed, failed, TaskModelError, ok, err,
  send, receive, source, receive_root, same_state, allows, ProgressHint, validate_identity,
  identity_of,
}
use p2p_file.Node.Task.Record.{
  TaskRecord, FileTaskDetails, is_some, validate, validate_binding_unchanged,
}
use p2p_file.Node.Task.Edits.{
  new_file, new, local_path_for, transition_to, cancel, commit_receipt, is_retryable,
  set_progress_hint,
}
use p2p_file.Node.Task.Lifecycle.{
  transition_to_cases, transition_to_succeeds, cancel_lem, published, moved,
}
use p2p_file.Common.Paths.{PathBuf}
use p2p_file.Node.Progress.{RateSampler, group_progress, group_progress_lem}
use p2p_file.Transfer.Manifest
use p2p_file.Node.Task.Runs.{cancels, hints, step, run, step-validate, published_forever}

-- A hash that ignores its input, and hexadecimal digits for bytes.
abbrev digit : ℕ → ℕ
digit n = if ltb n 10 then b'0' + n else 87 + n

abbrev hex_digits : List ℕ → List ℕ
hex_digits [] = []
hex_digits (b ∷ bs) = digit (b / 16) ∷ digit (b % 16) ∷ hex_digits bs

abbrev hex_bytes : List ℕ → Option (List ℕ)
hex_bytes [] = some []
hex_bytes (a ∷ []) = none
hex_bytes (a ∷ b ∷ cs) = elim (hex_bytes cs) [ none ↦ none | some bs ↦ some (0 ∷ bs) ]

abbrev packages : External
packages = record { blake3 = λ s. replicate 32 7; hex_encode = hex_digits; hex_decode = hex_bytes }

abbrev folder : TaskRecord
folder = record {
  schema_version = 1;
  task_id = replicate 32 b'a';
  peer_id = replicate 32 b'b';
  direction = receive;
  local_path = receive_root (record { is_absolute = true; names = (b'd' ∷ []) ∷ [] });
  manifest_identity = record {
    root_hash = hex_digits (replicate 32 7);
    total_bytes = 0;
    chunk_size = 1;
    chunk_count = 0;
  };
  state = finalizing;
  created_at_unix_ms = pos 5;
  updated_at_unix_ms = pos 9;
  diagnostic = none;
  progress_hint = none;
  file_details = none;
  directory_details = some (record {
    relative_path = b'a' ∷ b'/' ∷ b'b' ∷ [];
    publish_prepared = true;
    receipt_committed = false;
  });
  group_id = none;
}

abbrev waiting : TaskRecord
waiting = record folder {
  state = scanning;
  directory_details = some (record {
    relative_path = b'a' ∷ b'/' ∷ b'b' ∷ [];
    publish_prepared = false;
    receipt_committed = false;
  });
}

folder_valid : validate packages folder ≡ ok tt
unfolding validate validate_identity identity_of validate_relative_path check_components bad_name
    is_device
folder_valid = refl

waiting_valid : validate packages waiting ≡ ok tt
unfolding validate validate_identity identity_of validate_relative_path check_components bad_name
    is_device
waiting_valid = refl

transition_to_cases_example :
    ((e : TaskModelError) × (transition_to packages waiting queued none (pos 12)
        ≡ (waiting, err e)))
    ⊎ ((s : TaskRecord) × (transition_to packages waiting queued none (pos 12) ≡ (s, ok tt))
        × (allows scanning queued false ≡ true)
        × (s.state ≡ queued)
        × (validate packages s ≡ ok tt)
        × (validate_binding_unchanged s waiting ≡ ok tt)
        × (ltb_int s.updated_at_unix_ms (pos 9) ≡ false)
        × ((same_state queued failed && not (is_some s.diagnostic)) ≡ false)
        × (s ≡ moved waiting queued none (pos 12)))
transition_to_cases_example = transition_to_cases packages waiting queued none (pos 12)

transition_to_succeeds_example :
    transition_to packages waiting queued none (pos 12)
    ≡ (moved waiting queued none (pos 12), ok tt)
unfolding allows
transition_to_succeeds_example =
    transition_to_succeeds packages waiting queued none (pos 12) waiting_valid refl refl refl

cancel_lem_example :
    ((published waiting ≡ true)
      × (cancel packages waiting (pos 3)
          ≡ (waiting, err (TaskModelError.invalid_transition scanning failed))))
    ⊎ ((s : TaskRecord) × (cancel packages waiting (pos 3) ≡ (s, ok tt))
        × (validate packages s ≡ ok tt)
        × (s.state ≡ failed)
        × (is_retryable s.diagnostic ≡ false)
        × (ltb_int s.updated_at_unix_ms (pos 9) ≡ false))
cancel_lem_example = cancel_lem packages waiting (pos 3) waiting_valid

abbrev received : TaskRecord
received = record folder {
  state = completed;
  updated_at_unix_ms = pos 11;
  directory_details = some (record {
    relative_path = b'a' ∷ b'/' ∷ b'b' ∷ [];
    publish_prepared = true;
    receipt_committed = true;
  });
}

folder_committed : commit_receipt packages folder (pos 11) ≡ (received, ok tt)
unfolding commit_receipt transition_to allows validate validate_identity identity_of
    validate_relative_path check_components bad_name is_device
folder_committed = refl

abbrev sent_file : FileTaskDetails
sent_file = record {
  relative_path = b'a' ∷ [];
  manifest = record {
    file_name = b'a' ∷ [];
    total_len = 0;
    chunk_size = 16384;
    chunks = [];
    root_hash = replicate 32 7;
  };
  publish_prepared = false;
  receipt_committed = false;
  source_root = none;
  incremental = false;
  skipped_existing = false;
}

abbrev hint : ProgressHint
hint = record { verified_bytes = 0; sampled_at_unix_ms = pos 10 }

abbrev hinted : TaskRecord
hinted = record waiting { progress_hint = some hint }

waiting_hinted : step packages waiting (hints hint) ≡ (hinted, ok tt)
unfolding step set_progress_hint
waiting_hinted = refl

step-validate_example : validate packages hinted ≡ ok tt
step-validate_example =
    step-validate packages waiting hinted (hints hint) waiting_valid waiting_hinted

published_forever_example :
    (published (run packages folder (cancels (pos 1) ∷ [])) ≡ true)
    × ((cancel packages (run packages folder (cancels (pos 1) ∷ [])) (pos 2)).0
        ≡ run packages folder (cancels (pos 1) ∷ []))
    × ((cancel packages (run packages folder (cancels (pos 1) ∷ [])) (pos 2)).1 ≢ ok tt)
published_forever_example = published_forever packages folder (cancels (pos 1) ∷ []) (pos 2) refl

path_accepted : validate_relative_path (b'a' ∷ b'/' ∷ b'b' ∷ []) ≡ RelativePath.ok
unfolding validate_relative_path check_components bad_name is_device
path_accepted = refl

validate_relative_path_lem_example :
    (cs : List (List ℕ)) × (b'a' ∷ b'/' ∷ b'b' ∷ [] ≡ intercalate b'/' cs)
    × (length cs ≤ 64)
    × All IsEntry cs
validate_relative_path_lem_example =
    validate_relative_path_lem (b'a' ∷ b'/' ∷ b'b' ∷ []) path_accepted

abbrev fresh_file : TaskRecord
fresh_file = record folder {
  direction = send;
  local_path = source (record { is_absolute = true; names = (b'a' ∷ []) ∷ [] });
  manifest_identity = record {
    root_hash = hex_digits (replicate 32 7);
    total_bytes = 0;
    chunk_size = 16384;
    chunk_count = 0;
  };
  state = scanning;
  created_at_unix_ms = pos 4;
  updated_at_unix_ms = pos 4;
  file_details = some sent_file;
  directory_details = none;
}

abbrev source_path : PathBuf
source_path = record { is_absolute = true; names = (b'a' ∷ []) ∷ [] }

file_created :
    new_file packages
      (replicate 32 b'a')
      (replicate 32 b'b')
      send
      source_path
      (b'a' ∷ [])
      sent_file.manifest
      (pos 4)
    ≡ ok fresh_file
unfolding new_file new local_path_for new_source validate validate_identity identity_of
    validate_relative_path check_components bad_name is_device Manifest.validate
    Manifest.validate_chunk_size Manifest.chunk_count Manifest.verify_root_hash
    Manifest.root_hash_of
file_created = refl

group_progress_lem_example :
    ((group_progress (received ∷ fresh_file ∷ [])).completed_children
        + (group_progress (received ∷ fresh_file ∷ [])).failed_children
      ≤ (group_progress (received ∷ fresh_file ∷ [])).children)
    × ((group_progress (received ∷ fresh_file ∷ [])).confirmed_bytes
        ≤ (group_progress (received ∷ fresh_file ∷ [])).total_bytes)
    × ((group_progress (received ∷ fresh_file ∷ [])).complete ≡ true
        → (group_progress (received ∷ fresh_file ∷ [])).confirmed_bytes
          ≡ (group_progress (received ∷ fresh_file ∷ [])).total_bytes)
group_progress_lem_example = group_progress_lem (received ∷ fresh_file ∷ [])

abbrev sampler : RateSampler
sampler = record { points = (100, 5) ∷ []; latest = 5; last_ms = 100 }
