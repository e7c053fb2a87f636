-- ===== src/Examples/Queues.antt =====
-- The node's queues on small inputs.
use p2p_file.Common.{
  ℕ, ◌<◌, ◌≡◌, refl, ◌⊎◌, true, false, List, [], ◌∷◌, none, some, arith, All, get_elem?,
}
use p2p_file.Node.Queue.{
  TaskQueue, QueueEntry, default, enqueue, dispatch, finish_if, slot_generation, occupy, next,
  remove_at, admit_each, admit, eligible,
}
use p2p_file.Node.Queue.Slots.{has_room}
use p2p_file.Node.Queue.Admission.{PendingValid, Extends, Bound, enqueue_lem}
use p2p_file.Node.Queue.Steps.{
  IsValid, Op, enqueues, dispatches, reserves, step, run, dispatch_cases,
}
use p2p_file.Node.Queue.Runs.{run-default-IsValid, release_once}

abbrev photo : QueueEntry
photo = record { id = 1; peer = 7; metadata = false }

abbrev listing : QueueEntry
listing = record { id = 2; peer = 7; metadata = true }

abbrev busy : List Op
busy = enqueues (photo ∷ listing ∷ []) ∷ dispatches (λ _. true) ∷ []

abbrev running : TaskQueue
running = record {
  pending = listing ∷ [];
  active = (1, photo) ∷ [];
  limit = 1;
  generations = (1, 1) ∷ [];
  next_generation = 1;
}

busy_runs : run default busy ≡ running
unfolding run step default enqueue admit_each admit dispatch eligible
busy_runs = refl

run-default-IsValid_example : IsValid (run default busy)
run-default-IsValid_example = run-default-IsValid busy

release_once_example :
    finish_if (run (finish_if (run default busy) 1 1) (reserves photo ∷ [])) 1 1
    ≡ run (finish_if (run default busy) 1 1) (reserves photo ∷ [])
release_once_example =
    release_once (run default busy) 1 1 (reserves photo ∷ []) (run-default-IsValid busy)
      (unfold slot_generation in rw busy_runs refl)

dispatch_cases_example :
    ((dispatch running (λ _. true) ≡ (running, none))
      × (((j : ℕ) (f : QueueEntry)
            → get_elem? (listing ∷ []) j ≡ some f
            → has_room running f ≡ false)
          ⊎ (next running ≡ none)))
    ⊎ ((i : ℕ) × (g : ℕ) × (e : QueueEntry) × (get_elem? (listing ∷ []) i ≡ some e)
        × (true ≡ true)
        × (has_room running e ≡ true)
        × ((j : ℕ) (f : QueueEntry)
            → j < i
            → get_elem? (listing ∷ []) j ≡ some f
            → has_room running f ≡ false)
        × (next running ≡ some g)
        × (dispatch running (λ _. true)
            ≡ (occupy (record running { pending = remove_at i (listing ∷ []) }) e g, some e)))
dispatch_cases_example = dispatch_cases running (λ _. true)

abbrev waiting : TaskQueue
waiting = record running { pending = listing ∷ photo ∷ [] }

enqueue_lem_example :
    PendingValid running.active running.pending
    × (running.active ≡ running.active)
    × Extends running.pending running.pending 2
    × All (Bound running.active running.pending) (photo ∷ listing ∷ [])
unfolding enqueue admit_each admit
enqueue_lem_example =
    enqueue_lem running (photo ∷ listing ∷ []) running
      (record { distinct = (refl, tt); disjoint = λ k h. ground arith; bounded = omega arith }) refl
