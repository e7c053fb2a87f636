-- ===== src/Node/Task/Frame.antt =====
-- What `validate` of a task record accepts, condition by condition.
use p2p_file.Common.{◌≡◌, refl, true, false, not, ◌&&◌, ◌||◌, arith, ◌!=◌}
use p2p_file.Common.Ints.{pos, ltb_int}
use p2p_file.Common.Paths.{same_bool}
use p2p_file.Node.Task.{
  External, failed, ok, is_send, path_of, is_sender_source, same_state, validate_identity,
}
use p2p_file.Node.Task.Record.{
  TaskRecord, task_record_schema_version, is_some, validate_file, validate_directory, validate_root,
  hint_clashes, validate,
}

pub record IsValid (x : External) (r : TaskRecord) : Type 0 where
  pub schema : (r.schema_version != task_record_schema_version) ≡ false
  pub identity : validate_identity x r.manifest_identity ≡ ok tt
  pub file : validate_file x r r.file_details ≡ ok tt
  pub one_kind : (is_some r.file_details && is_some r.directory_details) ≡ false
  pub directory : validate_directory x r r.directory_details ≡ ok tt
  pub root : validate_root r r.file_details ≡ ok tt
  pub absolute : (path_of r.local_path).is_absolute ≡ true
  pub side : same_bool (is_send r.direction) (is_sender_source r.local_path) ≡ true
  pub times :
      (ltb_int r.created_at_unix_ms (pos 0) || ltb_int r.updated_at_unix_ms r.created_at_unix_ms)
      ≡ false
  pub hint : hint_clashes r r.progress_hint ≡ false
  pub diagnosed : (same_state r.state failed && not (is_some r.diagnostic)) ≡ false

pub IsValid-validate : (x : External) (r : TaskRecord) → IsValid x r → validate x r ≡ ok tt
unfolding validate
IsValid-validate x r v =
    rw
      (
        v.schema, v.identity, v.file, v.one_kind, v.directory, v.root, v.absolute, v.side, v.times,
        v.hint, v.diagnosed,
      )
      refl

pub validate-IsValid : (x : External) (r : TaskRecord) → validate x r ≡ ok tt → IsValid x r
unfolding validate
validate-IsValid x r h = record {
  schema = ground arith;
  identity = ground arith;
  file = ground arith;
  one_kind = ground arith;
  directory = ground arith;
  root = ground arith;
  absolute = ground arith;
  side = ground arith;
  times = ground arith;
  hint = ground arith;
  diagnosed = ground arith;
}
