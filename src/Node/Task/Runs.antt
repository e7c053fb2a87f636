-- ===== src/Node/Task/Runs.antt =====
-- Sequences of operations on a task: validity, the binding, and what publication makes final.
use p2p_file.Common.{
  ℕ, ◌≡◌, refl, ◌≢◌, inl, inr, true, not, ◌||◌, List, [], ◌∷◌, Option, none, some, arith,
  Bool-cases, Option-cases,
}
use p2p_file.Common.Ints.{ℤ}
use p2p_file.Common.Paths.{PathBuf}
use p2p_file.Node.Task.{
  External, TaskState, completed, finalizing, ok, same_state, TaskDiagnostic, ProgressHint,
}
use p2p_file.Node.Task.Record.{TaskRecord, validate}
use p2p_file.Node.Task.Edits.{
  Outcome, transition_to, cancel, set_progress_hint, prepare_publication, enable_incremental,
  set_selection_binding, commit_receipt, commit_skipped, is_retryable,
}
use p2p_file.Node.Task.Publication.{marked, commit_receipt_cases, commit_receipt_lem}
use p2p_file.Node.Task.Frame.{IsValid-validate, validate-IsValid}
use p2p_file.Node.Task.Lifecycle.{transition_to_cases, cancel_lem, unfinished, published}

-- What the node does to a stored record.
pub data Op : Type 0 where
  transitions : TaskState → Option TaskDiagnostic → ℤ → Op
  cancels : ℤ → Op
  hints : ProgressHint → Op
  prepares : Op
  increments : Op
  commits : ℤ → Op
  skips : ℤ → Op
  binds : Option (List ℕ) → Option PathBuf → Op

unfoldable pub step : External → TaskRecord → Op → Outcome
step x r (transitions next d now) = transition_to x r next d now
step x r (cancels now) = cancel x r now
step x r (hints hint) = set_progress_hint r hint
step x r prepares = prepare_publication r
step x r increments = enable_incremental r
step x r (commits now) = commit_receipt x r now
step x r (skips now) = commit_skipped x r now
step x r (binds group source_root) = set_selection_binding x r group source_root

unfoldable pub run : External → TaskRecord → List Op → TaskRecord
run x r [] = r
run x r (o ∷ os) = run x (step x r o).0 os

module _ (x : External) where
  prepare-validate :
      (r s : TaskRecord)
      → validate x r ≡ ok tt
      → prepare_publication r ≡ (s, ok tt)
      → validate x s ≡ ok tt
  unfolding prepare_publication
  prepare-validate r s v h =
      let w = validate-IsValid x r v in
      IsValid-validate x s (record {
        schema = ground (arith, w.schema);
        identity = ground (arith, w.identity);
        file = ground (arith, w.file);
        one_kind = ground (arith, w.one_kind);
        directory = ground (arith, w.directory);
        root = ground (arith, w.root);
        absolute = ground (arith, w.absolute);
        side = ground (arith, w.side);
        times = ground (arith, w.times);
        hint = ground (arith, w.hint);
        diagnosed = ground (arith, w.diagnosed);
      })

  increment-validate :
      (r s : TaskRecord)
      → validate x r ≡ ok tt
      → enable_incremental r ≡ (s, ok tt)
      → validate x s ≡ ok tt
  unfolding enable_incremental
  increment-validate r s v h =
      let w = validate-IsValid x r v in
      IsValid-validate x s (record {
        schema = ground (arith, w.schema);
        identity = ground (arith, w.identity);
        file = ground (arith, w.file);
        one_kind = ground (arith, w.one_kind);
        directory = ground (arith, w.directory);
        root = ground (arith, w.root);
        absolute = ground (arith, w.absolute);
        side = ground (arith, w.side);
        times = ground (arith, w.times);
        hint = ground (arith, w.hint);
        diagnosed = ground (arith, w.diagnosed);
      })

  hint-validate :
      (r s : TaskRecord) (hint : ProgressHint)
      → validate x r ≡ ok tt
      → set_progress_hint r hint ≡ (s, ok tt)
      → validate x s ≡ ok tt
  unfolding set_progress_hint
  hint-validate r s hint v h =
      let w = validate-IsValid x r v in
      IsValid-validate x s (record {
        schema = ground (arith, w.schema);
        identity = ground (arith, w.identity);
        file = ground (arith, w.file);
        one_kind = ground (arith, w.one_kind);
        directory = ground (arith, w.directory);
        root = ground (arith, w.root);
        absolute = ground (arith, w.absolute);
        side = ground (arith, w.side);
        times = ground (arith, w.times);
        hint = ground (arith, w.hint);
        diagnosed = ground (arith, w.diagnosed);
      })

  transition-validate :
      (r s : TaskRecord) (next : TaskState) (d : Option TaskDiagnostic) (now : ℤ)
      → transition_to x r next d now ≡ (s, ok tt)
      → (validate x s ≡ ok tt) × (s.state ≡ next)
  transition-validate r s next d now h = elim (transition_to_cases x r next d now) [
    | inl (e, p) ↦ absurd (ground arith)
    | inr (t, p, a, q, v, b, l, g, m) ↦ ground arith
  ]

  skip-validate :
      (r s : TaskRecord) (now : ℤ) → commit_skipped x r now ≡ (s, ok tt) → validate x s ≡ ok tt
  unfolding commit_skipped
  skip-validate r s now h = elim (Option-cases r.file_details) [
    | inl n ↦ absurd (ground arith)
    | inr (d, e) ↦
        elim (Bool-cases
          (not d.incremental || d.publish_prepared || not (same_state r.state finalizing))) [
            | inl b ↦ absurd (ground arith)
            | inr b ↦
                (commit_receipt_lem x
                  (record r { file_details = some (record d { skipped_existing = true }) }) s now
                  (ground arith)).0
          ]
  ]

  bind-validate :
      (r s : TaskRecord) (group : Option (List ℕ)) (source_root : Option PathBuf)
      → set_selection_binding x r group source_root ≡ (s, ok tt)
      → validate x s ≡ ok tt
  unfolding set_selection_binding
  bind-validate r s group source_root h = ground arith

  -- An operation on a valid task record that returns no error leaves a valid record.
  pub step-validate :
      (r s : TaskRecord) (o : Op)
      → validate x r ≡ ok tt
      → step x r o ≡ (s, ok tt)
      → validate x s ≡ ok tt
  unfolding step
  step-validate r s (transitions next d now) v h = (transition-validate r s next d now h).0
  step-validate r s (cancels now) v h = elim (cancel_lem x r now v) [
    | inl (p, e) ↦ absurd (ground arith)
    | inr (t, e, w, c, n, l) ↦ ground arith
  ]
  step-validate r s (hints hint) v h = hint-validate r s hint v h
  step-validate r s prepares v h = prepare-validate r s v h
  step-validate r s increments v h = increment-validate r s v h
  step-validate r s (commits now) v h = (commit_receipt_lem x r s now h).0
  step-validate r s (skips now) v h = skip-validate r s now h
  step-validate r s (binds group source_root) v h = bind-validate r s group source_root h

  transition_keeps :
      (r : TaskRecord) (next : TaskState) (d : Option TaskDiagnostic) (now : ℤ)
      → published r ≡ true
      → published (transition_to x r next d now).0 ≡ true
  transition_keeps r next d now h = elim (transition_to_cases x r next d now) [
    | inl (e, p) ↦ rw p h
    | inr (t, p, a, c, v, b, l, g, u) ↦
        rw (p, u) (ground (arith, unfinished x r.state next (is_retryable r.diagnostic) a))
  ]

  commit_keeps :
      (r : TaskRecord) (now : ℤ) → published r ≡ true → published (commit_receipt x r now).0 ≡ true
  commit_keeps r now h = elim (commit_receipt_cases x r now) [
    | inl (e, p) ↦ rw p h
    | inr (p, m) ↦ rw p (transition_keeps (marked r) completed none now (marked_keeps h))
  ]
    where
      marked_keeps : published r ≡ true → published (marked r) ≡ true
      marked_keeps e = ground arith

  skip_keeps :
      (r : TaskRecord) (now : ℤ) → published r ≡ true → published (commit_skipped x r now).0 ≡ true
  unfolding commit_skipped
  skip_keeps r now h = elim (Option-cases r.file_details) [
    | inl n ↦ ground arith
    | inr (d, e) ↦
        let t : TaskRecord = record r {
          file_details = some (record d { skipped_existing = true });
        } in
        ground (arith, commit_keeps t now)
  ]

  step_keeps : (r : TaskRecord) (o : Op) → published r ≡ true → published (step x r o).0 ≡ true
  unfolding step
  step_keeps r (transitions next d now) h = transition_keeps r next d now h
  step_keeps r (cancels now) h = unfold cancel in ground arith
  step_keeps r (hints hint) h = unfold set_progress_hint in ground arith
  step_keeps r prepares h = unfold prepare_publication in ground arith
  step_keeps r increments h = unfold enable_incremental in ground arith
  step_keeps r (commits now) h = commit_keeps r now h
  step_keeps r (skips now) h = skip_keeps r now h
  step_keeps r (binds group source_root) h = unfold set_selection_binding in ground arith

  run_keeps : (r : TaskRecord) (os : List Op) → published r ≡ true → published (run x r os) ≡ true
  unfolding run
  run_keeps r [] h = h
  run_keeps r (o ∷ os) h = run_keeps (step x r o).0 os (step_keeps r o h)

  -- Once a task is completed, or its publication is prepared or committed, that stays so whatever
  -- operations follow, and a cancellation is then refused and changes nothing.
  pub published_forever :
      (r : TaskRecord) (os : List Op) (now : ℤ)
      → published r ≡ true
      → (published (run x r os) ≡ true)
        × ((cancel x (run x r os) now).0 ≡ run x r os)
        × ((cancel x (run x r os) now).1 ≢ ok tt)
  unfolding cancel
  published_forever r os now h = let k = run_keeps r os h in (k, rw k refl, rw k (λ e. cc))
