-- ===== src/Node/Task/Publication.antt =====
-- The receipt of a task: what a commit does when it succeeds, and when it fails.
use p2p_file.Common.{
  ◌≡◌, refl, subst, ◌≢◌, ◌⊎◌, inl, inr, Bool, true, not, ◌&&◌, ◌||◌, Option, none, some, arith,
  Bool-cases, Option-cases, if◌then◌else◌,
}
use p2p_file.Common.Ints.{ℤ}
use p2p_file.Node.Task.{
  External, TaskState, completed, finalizing, TaskModelError, ok, err, is_send, send, allows,
}
use p2p_file.Node.Task.Record.{
  TaskRecord, FileTaskDetails, DirectoryTaskDetails, is_some, validate, receipt_committed,
}
use p2p_file.Node.Task.Edits.{transition_to, commit_receipt, is_retryable}
use p2p_file.Node.Task.Lifecycle.{transition_to_cases}

abbrev pub mark_file : Option FileTaskDetails → Option FileTaskDetails
mark_file none = none
mark_file (some d) = some (record d { receipt_committed = true })

abbrev pub mark_directory : Option DirectoryTaskDetails → Option DirectoryTaskDetails
mark_directory none = none
mark_directory (some d) = some (record d { receipt_committed = true })

-- The record with its receipt set.
abbrev pub marked : TaskRecord → TaskRecord
marked r = record r {
  file_details = mark_file r.file_details;
  directory_details =
      if is_some r.file_details then r.directory_details else mark_directory r.directory_details;
}

module _ (x : External) where
  from_finalizing : (s : TaskState) (b : Bool) → allows s completed b ≡ true → s ≡ finalizing
  unfolding allows
  from_finalizing s b h = ground arith

  pub commit_receipt_cases :
      (r : TaskRecord) (now : ℤ)
      → ((e : TaskModelError) × (commit_receipt x r now ≡ (r, err e)))
        ⊎ ((commit_receipt x r now ≡ transition_to x (marked r) completed none now)
            × (receipt_committed (marked r) ≡ true))
  unfolding commit_receipt receipt_committed
  commit_receipt_cases r now = elim (Option-cases r.file_details) [
    | inr (d, e) ↦
        elim (Bool-cases
          (not (is_send r.direction) && not (d.publish_prepared || d.skipped_existing))) [
            | inl b ↦ inl (TaskModelError.not_recoverable, rw (e, b) refl)
            | inr b ↦ inr (rw (e, b) refl, rw e refl)
          ]
    | inl n ↦ elim (Option-cases r.directory_details) [
      | inl m ↦ inl (TaskModelError.invalid_manifest_identity, ground arith)
      | inr (d, e) ↦ elim (Bool-cases (not (is_send r.direction) && not d.publish_prepared)) [
        | inl b ↦ inl (TaskModelError.not_recoverable, ground arith)
        | inr b ↦ inr (ground arith, ground arith)
      ]
    ]
  ]

  -- A commit that succeeds has taken a task that was finalizing to a valid record of a completed
  -- task with its receipt.
  pub commit_receipt_lem :
      (r s : TaskRecord) (now : ℤ)
      → commit_receipt x r now ≡ (s, ok tt)
      → (validate x s ≡ ok tt)
        × (s.state ≡ completed)
        × (receipt_committed s ≡ true)
        × (r.state ≡ finalizing)
  unfolding receipt_committed
  commit_receipt_lem r s now h = elim (commit_receipt_cases r now) [
    | inl (e, p) ↦ absurd (ground arith)
    | inr (p, m) ↦ elim (transition_to_cases x (marked r) completed none now) [
      | inl (e, q) ↦ absurd (ground arith)
      | inr (t, q, a, c, v, b, l, g, u) ↦
          let same : t ≡ s = ground arith in
          (
            subst (λ z. validate x z ≡ ok tt) same v,
            subst (λ z. z.state ≡ completed) same c,
            subst (λ z. receipt_committed z ≡ true) same (rw (u, receipt_committed) m),
            from_finalizing r.state (is_retryable r.diagnostic) a,
          )
    ]
  ]

  -- A commit of a file that is being sent and is not finalizing fails, and the receipt has been
  -- written to the record.
  pub commit_receipt_early :
      (r : TaskRecord) (d : FileTaskDetails) (now : ℤ)
      → r.file_details ≡ some d
      → r.direction ≡ send
      → r.state ≢ finalizing
      → (commit_receipt x r now
          ≡ (marked r, err (TaskModelError.invalid_transition r.state completed)))
        × (receipt_committed (marked r) ≡ true)
  unfolding commit_receipt transition_to receipt_committed
  commit_receipt_early r d now f s n =
      elim (Bool-cases (allows r.state completed (is_retryable r.diagnostic))) [
        | inl a ↦ absurd (n (from_finalizing r.state (is_retryable r.diagnostic) a))
        | inr a ↦ rw (f, s, a) (refl, refl)
      ]
