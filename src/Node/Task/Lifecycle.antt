-- ===== src/Node/Task/Lifecycle.antt =====
-- The transitions of a task: which succeed, and what they keep.
use p2p_file.Common.{
  ◌≡◌, refl, sym, ◌∙◌, ◌⊎◌, inl, inr, Bool, true, false, not, ◌&&◌, ◌||◌, Option, none, some, arith,
  Bool-cases, if◌then◌else◌,
}
use p2p_file.Common.Ints.{ℤ, ltb_int, max_int, max_int_left, max_int_right, ltb_int_trans}
use p2p_file.Node.Task.{
  External, TaskState, completed, failed, queued, user_cancelled, TaskModelError, Result, ok, err,
  same_state, allows, TaskDiagnostic,
}
use p2p_file.Node.Task.Record.{
  TaskRecord, FileTaskDetails, DirectoryTaskDetails, is_some, is_completed, validate_file,
  validate_directory, validate, validate_binding_unchanged, file_committed, directory_committed,
}
use p2p_file.Node.Task.Edits.{
  transition_to, cancel, later, next_diagnostic, is_retryable, file_prepared, directory_prepared,
}
use p2p_file.Node.Task.Frame.{IsValid, IsValid-validate, validate-IsValid}
use p2p_file.Node.Task.Binding.{binding_rewritten, same_details_refl}

pub Result-cases : (c : Result (Unit {0})) → (c ≡ ok tt) ⊎ ((e : TaskModelError) × (c ≡ err e))
Result-cases (ok tt) = inl refl
Result-cases (err e) = inr (e, refl)

-- The record that a transition or a cancellation puts in place.
abbrev pub moved : TaskRecord → TaskState → Option TaskDiagnostic → ℤ → TaskRecord
moved r next diagnostic now = record r {
  state = next;
  diagnostic = diagnostic;
  updated_at_unix_ms = later now r;
}

later_after : (now : ℤ) (r : TaskRecord) → ltb_int (later now r) r.updated_at_unix_ms ≡ false
later_after now r = max_int_right (max_int now r.created_at_unix_ms) r.updated_at_unix_ms

later_created : (now : ℤ) (r : TaskRecord) → ltb_int (later now r) r.created_at_unix_ms ≡ false
later_created now r =
    ltb_int_trans r.created_at_unix_ms (max_int now r.created_at_unix_ms) (later now r)
      (max_int_right now r.created_at_unix_ms)
      (max_int_left (max_int now r.created_at_unix_ms) r.updated_at_unix_ms)

-- The record is completed, or its publication is prepared or committed.
abbrev pub published : TaskRecord → Bool
published r =
    is_completed r
    || file_prepared r.file_details
    || file_committed r.file_details
    || directory_prepared r.directory_details
    || directory_committed r.directory_details

module _ (x : External) where
  moved_file :
      (r : TaskRecord) (next : TaskState) (d : Option TaskDiagnostic) (now : ℤ)
      (o : Option FileTaskDetails)
      → same_state next completed ≡ same_state r.state completed
      → validate_file x (moved r next d now) o ≡ validate_file x r o
  moved_file r next d now none h = refl
  moved_file r next d now (some f) h = rw h refl

  moved_directory :
      (r : TaskRecord) (next : TaskState) (d : Option TaskDiagnostic) (now : ℤ)
      (o : Option DirectoryTaskDetails)
      → same_state next completed ≡ same_state r.state completed
      → validate_directory x (moved r next d now) o ≡ validate_directory x r o
  moved_directory r next d now none h = refl
  moved_directory r next d now (some f) h = rw h refl

  pub moved-IsValid :
      (r : TaskRecord) (next : TaskState) (d : Option TaskDiagnostic) (now : ℤ)
      → IsValid x r
      → same_state next completed ≡ same_state r.state completed
      → (same_state next failed && not (is_some d)) ≡ false
      → IsValid x (moved r next d now)
  moved-IsValid r next d now v same diagnosed = record {
    schema = v.schema;
    identity = v.identity;
    file = moved_file r next d now r.file_details same ∙ v.file;
    one_kind = v.one_kind;
    directory = moved_directory r next d now r.directory_details same ∙ v.directory;
    root = v.root;
    absolute = v.absolute;
    side = v.side;
    times = ground (arith, v.times, later_created now r);
    hint = v.hint;
    diagnosed = diagnosed;
  }

  -- A transition either changes nothing and returns an error, or takes an edge of the state graph
  -- to a valid record in the state asked for, with the same binding, an update time that does not
  -- go back, and a diagnostic if the task has failed.
  pub transition_to_cases :
      (r : TaskRecord) (next : TaskState) (d : Option TaskDiagnostic) (now : ℤ)
      → ((e : TaskModelError) × (transition_to x r next d now ≡ (r, err e)))
        ⊎ ((s : TaskRecord) × (transition_to x r next d now ≡ (s, ok tt))
            × (allows r.state next (is_retryable r.diagnostic) ≡ true)
            × (s.state ≡ next)
            × (validate x s ≡ ok tt)
            × (validate_binding_unchanged s r ≡ ok tt)
            × (ltb_int s.updated_at_unix_ms r.updated_at_unix_ms ≡ false)
            × ((same_state next failed && not (is_some s.diagnostic)) ≡ false)
            × (s ≡ moved r next (next_diagnostic r next d) now))
  unfolding transition_to
  transition_to_cases r next d now =
      elim (Bool-cases (allows r.state next (is_retryable r.diagnostic))) [
        | inr a ↦ inl (TaskModelError.invalid_transition r.state next, rw a refl)
        | inl a ↦ elim (Bool-cases (same_state next failed && not (is_some d))) [
          | inl f ↦ inl (TaskModelError.missing_failure_diagnostic, rw (a, f) refl)
          | inr f ↦
              let s : TaskRecord = moved r next (next_diagnostic r next d) now in
              elim (Result-cases (validate x s)) [
                | inr (e, q) ↦ inl (e, rw (a, f, q) refl)
                | inl q ↦ inr (
                  s,
                  rw (a, f, q) refl,
                  a,
                  refl,
                  q,
                  binding_rewritten r next (next_diagnostic r next d) (later now r) r.progress_hint
                      r.file_details r.directory_details (same_details_refl r).0
                      (same_details_refl r).1,
                  later_after now r,
                  (validate-IsValid x s q).diagnosed,
                  refl,
                )
              ]
        ]
      ]

  pub unfinished :
      (s t : TaskState) (b : Bool) → allows s t b ≡ true → same_state s completed ≡ false
  unfolding allows
  unfinished s t b h = ground arith

  kept :
      (o : Option TaskDiagnostic) (t : TaskState) (e : Option TaskDiagnostic)
      → (same_state t failed && not (is_some e)) ≡ false
      → (same_state t failed
          && not (is_some (if same_state t queued then none else if is_some e then e else o)))
        ≡ false
  kept o t e h = ground arith

  -- A transition of a valid record along an edge of the state graph to a state other than
  -- completed succeeds, if a failure comes with its diagnostic.
  pub transition_to_succeeds :
      (r : TaskRecord) (next : TaskState) (d : Option TaskDiagnostic) (now : ℤ)
      → validate x r ≡ ok tt
      → allows r.state next (is_retryable r.diagnostic) ≡ true
      → same_state next completed ≡ false
      → (same_state next failed && not (is_some d)) ≡ false
      → transition_to x r next d now ≡ (moved r next (next_diagnostic r next d) now, ok tt)
  unfolding transition_to
  transition_to_succeeds r next d now v a c f =
      rw
        (
          a,
          f,
          IsValid-validate x (moved r next (next_diagnostic r next d) now) (
              moved-IsValid r next (next_diagnostic r next d) now (validate-IsValid x r v)
                (c ∙ sym (unfinished r.state next (is_retryable r.diagnostic) a))
                (kept r.diagnostic next d f)),
        )
        refl

  -- A cancellation of a valid record is refused, without a change, if the task is completed or
  -- its publication is prepared or committed, and otherwise makes a valid record that has failed
  -- for good.
  pub cancel_lem :
      (r : TaskRecord) (now : ℤ)
      → validate x r ≡ ok tt
      → (published r ≡ true)
          × (cancel x r now ≡ (r, err (TaskModelError.invalid_transition r.state failed)))
        ⊎ ((s : TaskRecord) × (cancel x r now ≡ (s, ok tt))
            × (validate x s ≡ ok tt)
            × (s.state ≡ failed)
            × (is_retryable s.diagnostic ≡ false)
            × (ltb_int s.updated_at_unix_ms r.updated_at_unix_ms ≡ false))
  unfolding cancel
  cancel_lem r now v = elim (Bool-cases (published r)) [
    | inl p ↦ inl (p, rw p refl)
    | inr p ↦
        let d : TaskDiagnostic = record { code = user_cancelled; retryable = false } in
        let s : TaskRecord = moved r failed (some d) now in
        let q : validate x s ≡ ok tt =
          IsValid-validate x s
            (moved-IsValid r failed (some d) now (validate-IsValid x r v) (ground arith) refl) in
        inr (s, rw (p, q) refl, q, refl, refl, later_after now r)
  ]
