-- ===== src/Node/Task/Binding.antt =====
-- What `validate_binding_unchanged` compares, and the edits that keep it.
use p2p_file.Common.{
  ℕ, ◌≡◌, refl, Bool, true, false, List, [], ◌∷◌, Option, none, some, arith, ◌==◌,
}
use p2p_file.Common.Bytes.{same_bytes, same_bytes_iff}
use p2p_file.Common.Ints.{ℤ}
use p2p_file.Common.Paths.{PathBuf, same_bool, same_names, same_path}
use p2p_file.Node.Task.{
  TaskState, ok, is_send, is_sender_source, path_of, ProgressHint, TaskDiagnostic,
}
use p2p_file.Node.Task.Record.{
  TaskRecord, FileTaskDetails, DirectoryTaskDetails, validate_binding_unchanged, same_option,
  same_directory, same_file,
}

same_bytes_refl : (s : List ℕ) → same_bytes s s ≡ true
same_bytes_refl s = (same_bytes_iff s s).1 refl

same_names_refl : (s : List (List ℕ)) → same_names s s ≡ true
same_names_refl [] = refl
same_names_refl (p ∷ ps) = rw (same_bytes_refl p, same_names_refl ps) refl

same_bool_refl : (b : Bool) → same_bool b b ≡ true
same_bool_refl true = refl
same_bool_refl false = refl

same_option_refl {ℓ} :
    {A : Type ℓ} (same : A → A → Bool) (o : Option A)
    → ((a : A) → same a a ≡ true)
    → same_option same o o ≡ true
same_option_refl same none h = refl
same_option_refl same (some a) h = h a

same_number_refl : (n : ℕ) → (n == n) ≡ true
same_number_refl n = ground arith

same_path_refl : (p : PathBuf) → same_path p p ≡ true
same_path_refl p = rw (same_bool_refl p.is_absolute, same_names_refl p.names) refl

pub same_directory_refl : (d : DirectoryTaskDetails) → same_directory d d ≡ true
same_directory_refl d = same_bytes_refl d.relative_path

pub same_file_refl : (d : FileTaskDetails) → same_file d d ≡ true
same_file_refl d =
    rw
      (
        same_option_refl same_path d.source_root same_path_refl,
        same_bytes_refl d.relative_path,
        same_bytes_refl d.manifest.file_name,
        same_number_refl d.manifest.total_len,
        same_number_refl d.manifest.chunk_size,
        same_names_refl d.manifest.chunks,
        same_bytes_refl d.manifest.root_hash,
      )
      refl

pub same_details_refl :
    (r : TaskRecord)
    → (same_option same_directory r.directory_details r.directory_details ≡ true)
      × (same_option same_file r.file_details r.file_details ≡ true)
same_details_refl r = (
  same_option_refl same_directory r.directory_details same_directory_refl,
  same_option_refl same_file r.file_details same_file_refl,
)

-- The fields of a record that the operations after its binding write.
abbrev pub rewritten :
    TaskRecord
    → TaskState
    → Option TaskDiagnostic
    → ℤ
    → Option ProgressHint
    → Option FileTaskDetails
    → Option DirectoryTaskDetails
    → TaskRecord
rewritten r st d now hint fs ds = record r {
  state = st;
  diagnostic = d;
  updated_at_unix_ms = now;
  progress_hint = hint;
  file_details = fs;
  directory_details = ds;
}

-- Writing them keeps the binding if the details keep theirs.
pub binding_rewritten :
    (r : TaskRecord) (st : TaskState) (d : Option TaskDiagnostic) (now : ℤ)
    (hint : Option ProgressHint) (fs : Option FileTaskDetails) (ds : Option DirectoryTaskDetails)
    → same_option same_directory ds r.directory_details ≡ true
    → same_option same_file fs r.file_details ≡ true
    → validate_binding_unchanged (rewritten r st d now hint fs ds) r ≡ ok tt
unfolding validate_binding_unchanged
binding_rewritten r st d now hint fs ds h l =
    rw
      (
        h,
        l,
        same_bytes_refl r.task_id,
        same_bytes_refl r.peer_id,
        same_bool_refl (is_send r.direction),
        same_bool_refl (is_sender_source r.local_path),
        same_path_refl (path_of r.local_path),
        same_bytes_refl r.manifest_identity.root_hash,
        same_number_refl r.manifest_identity.total_bytes,
        same_number_refl r.manifest_identity.chunk_size,
        same_number_refl r.manifest_identity.chunk_count,
        same_option_refl same_bytes r.group_id same_bytes_refl,
      )
      refl
