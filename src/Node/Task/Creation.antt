-- ===== src/Node/Task/Creation.antt =====
-- What the constructors of a task record return.
use p2p_file.Common.{ℕ, ◌≡◌, refl, inl, inr, ◌⊎◌, true, false, List, some, arith}
use p2p_file.Common.Ints.{ℤ}
use p2p_file.Common.Paths.{PathBuf}
use p2p_file.Transfer.Manifest.{FileManifest}
use p2p_file.Node.Task.{
  External, scanning, Result, ok, err, TaskDirection, path_of, identity_of, new_source,
  new_receive_root, LocalTaskPath, TaskModelError, send, receive,
}
use p2p_file.Node.Task.Record.{TaskRecord, relative_path, validate}
use p2p_file.Node.Task.Edits.{new, new_file, local_path_for}
use p2p_file.Node.Task.Lifecycle.{published}

Result-cases {ℓ} :
    {A : Type ℓ} (c : Result A) → ((a : A) × (c ≡ ok a)) ⊎ ((e : TaskModelError) × (c ≡ err e))
Result-cases (ok a) = inl (a, refl)
Result-cases (err e) = inr (e, refl)

module _ (x : External) where
  path_kept :
      (direction : TaskDirection) (path : PathBuf) (p : LocalTaskPath)
      → local_path_for direction path ≡ ok p
      → (path_of p ≡ path) × (path.is_absolute ≡ true)
  unfolding local_path_for new_source new_receive_root
  path_kept send path p h = ground arith
  path_kept receive path p h = ground arith

  -- A record that new_file returns is valid and scanning, has the path, the name and the identity
  -- of the manifest that were given, has an absolute path, and nothing of it is published.
  pub new_file_lem :
      (task_id peer_id : List ℕ) (direction : TaskDirection) (local_path : PathBuf) (name : List ℕ)
      (manifest : FileManifest) (now : ℤ) (r : TaskRecord)
      → new_file x task_id peer_id direction local_path name manifest now ≡ ok r
      → (validate x r ≡ ok tt)
        × (r.state ≡ scanning)
        × (published r ≡ false)
        × (relative_path r ≡ some name)
        × (path_of r.local_path ≡ local_path)
        × (local_path.is_absolute ≡ true)
        × (identity_of x manifest.root_hash manifest.total_len manifest.chunk_size
            ≡ ok r.manifest_identity)
  unfolding new_file new relative_path
  new_file_lem task_id peer_id direction local_path name manifest now r h =
      elim (Result-cases
        (identity_of x manifest.root_hash manifest.total_len manifest.chunk_size)) [
          | inr (e, p) ↦ absurd (ground arith)
          | inl (identity, p) ↦ elim (Result-cases (local_path_for direction local_path)) [
            | inr (e, q) ↦ absurd (ground arith)
            | inl (path, q) ↦ ground (arith, path_kept direction local_path path q)
          ]
        ]
