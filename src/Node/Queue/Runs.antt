-- ===== src/Node/Queue/Runs.antt =====
-- What holds of the send queue after any sequence of operations.
use p2p_file.Common.{
  ℕ, ◌≤◌, ◌≡◌, ◌≢◌, refl, subst, ◌&&◌, List, [], ◌∷◌, some, leb, arith, Bool-cases, inl, inr,
}
use p2p_file.Common.Assoc.{lookup, lookup-insert, lookup-remove, contains_key-remove}
use p2p_file.Node.Queue.{
  TaskQueue, QueueEntry, ok, set_limit, enqueue, slot_generation, is_current, finish_if,
  reserve_direct, clear, default, occupy, next, remove_at,
}
use p2p_file.Node.Queue.Slots.{SlotsValid, slots_pending, slots_limit, release-SlotsValid}
use p2p_file.Node.Queue.Admission.{Result-cases, enqueue_lem, remove_queued_lem}
use p2p_file.Node.Queue.Steps.{
  IsValid, Op, set_limits, enqueues, dispatches, finishes, reserves, removes, clears, step, run,
  dispatch_cases, dispatch-IsValid, reserve_direct_ok, reserve_direct-IsValid,
}

default-IsValid : IsValid default
unfolding default
default-IsValid = record {
  slots = record {
    active_map = tt;
    keyed = λ k e h. cc;
    generations_map = tt;
    same_keys = λ k. refl;
    issued = λ k g h. cc;
    next_u64 = omega arith;
    limit_low = omega arith;
    limit_high = omega arith;
    files = omega arith;
    directories = omega arith;
    per_peer = λ p. omega arith;
  };
  waiting = record { distinct = tt; disjoint = λ k h. cc; bounded = omega arith };
}

finish_if-IsValid : (q : TaskQueue) (id g : ℕ) → IsValid q → IsValid (finish_if q id g)
unfolding finish_if
finish_if-IsValid q id g v = elim (Bool-cases (is_current (slot_generation q id) g)) [
  | inr e ↦ rw e v
  | inl e ↦ rw e (record {
    slots = release-SlotsValid q id v.slots;
    waiting = record {
      distinct = v.waiting.distinct;
      disjoint = λ k c. v.waiting.disjoint k (ground (arith, contains_key-remove id k q.active));
      bounded = v.waiting.bounded;
    };
  })
]

clear-IsValid : (q : TaskQueue) → IsValid q → IsValid (clear q)
unfolding clear
clear-IsValid q v = record {
  slots = record {
    active_map = tt;
    keyed = λ k e h. cc;
    generations_map = tt;
    same_keys = λ k. refl;
    issued = λ k g h. cc;
    next_u64 = v.slots.next_u64;
    limit_low = v.slots.limit_low;
    limit_high = v.slots.limit_high;
    files = omega arith;
    directories = omega arith;
    per_peer = λ p. omega arith;
  };
  waiting = record { distinct = tt; disjoint = λ k h. cc; bounded = omega arith };
}

set_limit-IsValid : (q r : TaskQueue) (value : ℕ) → IsValid q → set_limit q value ≡ ok r → IsValid r
unfolding set_limit
set_limit-IsValid q r value v h = elim (Bool-cases (leb 1 value && leb value 3)) [
  | inr e ↦ absurd (ground arith)
  | inl e ↦
      let same : record q { limit = value } ≡ r = ground arith in
      subst IsValid same (record {
        slots = slots_limit q value (ground arith) (ground arith) v.slots;
        waiting = record {
          distinct = v.waiting.distinct;
          disjoint = v.waiting.disjoint;
          bounded = v.waiting.bounded;
        };
      })
]

enqueue_keeps :
    (q r : TaskQueue) (entries : List QueueEntry)
    → enqueue q entries ≡ ok r
    → record q { pending = r.pending } ≡ r
unfolding enqueue
enqueue_keeps q r entries h = ground arith

enqueue-IsValid :
    (q r : TaskQueue) (entries : List QueueEntry) → IsValid q → enqueue q entries ≡ ok r → IsValid r
enqueue-IsValid q r entries v h = record {
  slots = subst SlotsValid (enqueue_keeps q r entries h) (slots_pending q r.pending v.slots);
  waiting = (enqueue_lem q entries r v.waiting h).0;
}

-- Every operation keeps the queue well formed.
step-IsValid : (q : TaskQueue) (o : Op) → IsValid q → IsValid (step q o)
unfolding step
step-IsValid q (set_limits value) v = elim (Result-cases (set_limit q value)) [
  | inl (r, e) ↦ rw (e, step) (set_limit-IsValid q r value v e)
  | inr (x, e) ↦ rw (e, step) v
]
step-IsValid q (enqueues entries) v = elim (Result-cases (enqueue q entries)) [
  | inl (r, e) ↦ rw (e, step) (enqueue-IsValid q r entries v e)
  | inr (x, e) ↦ rw (e, step) v
]
step-IsValid q (dispatches connected) v = dispatch-IsValid q connected v
step-IsValid q (finishes id g) v = finish_if-IsValid q id g v
step-IsValid q (reserves entry) v = elim (Result-cases (reserve_direct q entry)) [
  | inl ((r, g), e) ↦ rw (e, step) (reserve_direct-IsValid q entry r g v e)
  | inr (x, e) ↦ rw (e, step) v
]
step-IsValid q (removes id) v =
    let (rest, p, d, l, f) = remove_queued_lem q id v.waiting.distinct in
    rw p (record {
      slots = slots_pending q rest v.slots;
      waiting = record {
        distinct = d;
        disjoint = λ k c. ground (arith, f k, v.waiting.disjoint k c);
        bounded = omega (arith, v.waiting.bounded);
      };
    })
step-IsValid q clears v = clear-IsValid q v

run-IsValid : (q : TaskQueue) (os : List Op) → IsValid q → IsValid (run q os)
unfolding run
run-IsValid q [] v = v
run-IsValid q (o ∷ os) v = run-IsValid (step q o) os (step-IsValid q o v)

-- After any sequence of operations on a new send queue it is well formed: slots and generations
-- have the same keys, no task is pending twice or pending and active, at most 4096 entries wait,
-- at most 3 files, 8 listings and 2 listings of one peer are active.
pub run-default-IsValid : (os : List Op) → IsValid (run default os)
run-default-IsValid os = run-IsValid default os default-IsValid

-- The generation has been issued, and the task's slot is not under it.
abbrev IsSpent : TaskQueue → ℕ → ℕ → Type 0
IsSpent q id g = (g ≤ q.next_generation) × (lookup id q.generations ≢ some g)

occupy-IsSpent :
    (q : TaskQueue) (entry : QueueEntry) (rest : List QueueEntry) (id g g' : ℕ)
    → next q ≡ some g'
    → IsSpent q id g
    → IsSpent (occupy (record q { pending = rest }) entry g') id g
occupy-IsSpent q entry rest id g g' n (l, s) =
    (ground arith, λ h. ground (arith, lookup-insert entry.id id g' q.generations))

step-IsSpent :
    (q : TaskQueue) (o : Op) (id g : ℕ) → IsValid q → IsSpent q id g → IsSpent (step q o) id g
unfolding step
step-IsSpent q (set_limits value) id g v s =
    unfold set_limit in
    elim (Bool-cases (leb 1 value && leb value 3)) [ inl e ↦ rw e s | inr e ↦ rw e s ]
step-IsSpent q (enqueues entries) id g v s = elim (Result-cases (enqueue q entries)) [
  | inl (r, e) ↦ rw (e, step) (subst (λ t. IsSpent t id g) (enqueue_keeps q r entries e) s)
  | inr (x, e) ↦ rw (e, step) s
]
step-IsSpent q (dispatches connected) id g v s = elim (dispatch_cases q connected) [
  | inl (e, why) ↦ rw (e, step) s
  | inr (i, g', x, at, c, room, first, n, e) ↦
      rw (e, step) (occupy-IsSpent q x (remove_at i q.pending) id g g' n s)
]
step-IsSpent q (finishes j h) id g v s =
    unfold finish_if in
    elim (Bool-cases (is_current (slot_generation q j) h)) [
      | inl e ↦ rw e (s.0, λ p. ground (arith, lookup-remove j id q.generations))
      | inr e ↦ rw e s
    ]
step-IsSpent q (reserves entry) id g v s = elim (Result-cases (reserve_direct q entry)) [
  | inl ((r, g'), e) ↦
      let (absent, room, n, b, p) = reserve_direct_ok q entry r g' e in
      let (rest, p', d, l, f) = remove_queued_lem q entry.id v.waiting.distinct in
      rw (e, step) (rw (p, p') (occupy-IsSpent q entry rest id g g' n s))
  | inr (x, e) ↦ rw (e, step) s
]
step-IsSpent q (removes j) id g v s =
    let (rest, p, d, l, f) = remove_queued_lem q j v.waiting.distinct in rw (p, step) s
step-IsSpent q clears id g v s = unfold clear in (s.0, λ h. cc)

run-IsSpent :
    (q : TaskQueue) (os : List Op) (id g : ℕ) → IsValid q → IsSpent q id g → IsSpent (run q os) id g
unfolding run
run-IsSpent q [] id g v s = s
run-IsSpent q (o ∷ os) id g v s =
    run-IsSpent (step q o) os id g (step-IsValid q o v) (step-IsSpent q o id g v s)

finish_if-IsSpent :
    (q : TaskQueue) (id g : ℕ)
    → IsValid q
    → slot_generation q id ≡ some g
    → IsSpent (finish_if q id g) id g
unfolding finish_if slot_generation
finish_if-IsSpent q id g v h =
    (ground (arith, v.slots.issued id g h), λ p. ground (arith, lookup-remove id id q.generations))

finish_if_idle : (q : TaskQueue) (id g : ℕ) → IsSpent q id g → finish_if q id g ≡ q
unfolding finish_if slot_generation
finish_if_idle q id g s = elim (Bool-cases (is_current (lookup id q.generations) g)) [
  | inl e ↦ absurd (s.1 (ground arith))
  | inr e ↦ rw e
]

-- Once the slot that a task of a well-formed queue holds under a generation has been released, no
-- later release under that generation changes the queue, whatever operations happen in between.
pub release_once :
    (q : TaskQueue) (id g : ℕ) (os : List Op)
    → IsValid q
    → slot_generation q id ≡ some g
    → finish_if (run (finish_if q id g) os) id g ≡ run (finish_if q id g) os
release_once q id g os v h = finish_if_idle (run (finish_if q id g) os) id g (
    run-IsSpent (finish_if q id g) os id g (finish_if-IsValid q id g v)
      (finish_if-IsSpent q id g v h))
