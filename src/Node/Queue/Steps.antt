-- ===== src/Node/Queue/Steps.antt =====
-- Any sequence of operations on the send queue.
use p2p_file.Common.{
  ℕ, ◌≤◌, ◌<◌, ◌≡◌, ◌∙◌, sym, ◌⊎◌, Bool, true, false, ◌&&◌, List, [], ◌∷◌, none, some,
  if◌then◌else◌, ◌==◌, length, arith, Bool-cases, inl, inr, Option-cases, get_elem?,
}
use p2p_file.Common.Assoc.{contains_key, contains_key-insert}
use p2p_file.Node.Queue.{
  TaskQueue, QueueEntry, Result, ok, err, max_queued, find, metrics, occupy, next, eligible,
  position, remove_at, set_limit, enqueue, dispatch, finish_if, remove_queued, reserve_direct,
  clear, binds_otherwise,
}
use p2p_file.Node.Queue.Slots.{
  SlotsValid, slots_pending, has_room, files_and_metadata, occupy-SlotsValid,
}
use p2p_file.Node.Queue.Admission.{
  PendingValid, Distinct, find_of_get, find-remove_at, Distinct-remove_at, length-remove_at_le,
  position_lem, position_absent, remove_queued_lem,
}

pub record IsValid (q : TaskQueue) : Type 0 where
  pub slots : SlotsValid q
  pub waiting : PendingValid q.active q.pending

eligible_lem :
    (q : TaskQueue) (connected : ℕ → Bool) (e : QueueEntry)
    → eligible q connected e ≡ (connected e.peer && has_room q e)
unfolding eligible metrics
eligible_lem q connected e = ground (arith, files_and_metadata q.active)

-- Giving a slot to an entry that was taken out of the pending list.
occupy-IsValid :
    (q : TaskQueue) (entry : QueueEntry) (g : ℕ) (rest : List QueueEntry)
    → IsValid q
    → contains_key entry.id q.active ≡ false
    → has_room q entry ≡ true
    → next q ≡ some g
    → Distinct rest
    → length rest ≤ max_queued
    → ((k : ℕ) → find k rest ≡ (if entry.id == k then none else find k q.pending))
    → IsValid (occupy (record q { pending = rest }) entry g)
occupy-IsValid q entry g rest v absent room n d l f = record {
  slots =
      occupy-SlotsValid (record q { pending = rest }) entry g (slots_pending q rest v.slots) absent
        room n;
  waiting = record {
    distinct = d;
    disjoint = λ k c.
        ground (arith, f k, v.waiting.disjoint k, contains_key-insert entry.id k entry q.active);
    bounded = l;
  };
}

-- dispatch either changes nothing, and then no pending entry has a connected peer and room for
-- its kind or the generations are used up, or moves the first pending entry that has both into a
-- slot under the next generation.
pub dispatch_cases :
    (q : TaskQueue) (connected : ℕ → Bool)
    → ((dispatch q connected ≡ (q, none))
        × (((j : ℕ) (f : QueueEntry)
              → get_elem? q.pending j ≡ some f
              → (connected f.peer && has_room q f) ≡ false)
            ⊎ (next q ≡ none)))
      ⊎ ((i : ℕ) × (g : ℕ) × (e : QueueEntry) × (get_elem? q.pending i ≡ some e)
          × (connected e.peer ≡ true)
          × (has_room q e ≡ true)
          × ((j : ℕ) (f : QueueEntry)
              → j < i
              → get_elem? q.pending j ≡ some f
              → (connected f.peer && has_room q f) ≡ false)
          × (next q ≡ some g)
          × (dispatch q connected
              ≡ (occupy (record q { pending = remove_at i q.pending }) e g, some e)))
unfolding dispatch
dispatch_cases q connected = elim (Option-cases (position (eligible q connected) q.pending)) [
  | inl e ↦ inl (
    ground arith,
    inl (λ j f h.
        sym (eligible_lem q connected f)
        ∙ position_absent (eligible q connected) q.pending j f e h),
  )
  | inr (i, e) ↦ elim (Option-cases (next q)) [
    | inl n ↦ inl (ground arith, inr n)
    | inr (g, n) ↦
        let (x, at, t, first) = position_lem (eligible q connected) q.pending i e in
        inr (
          i,
          g,
          x,
          at,
          ground (arith, eligible_lem q connected x),
          ground (arith, eligible_lem q connected x),
          (λ j f l h. sym (eligible_lem q connected f) ∙ first j f l h),
          n,
          ground arith,
        )
  ]
]

pub dispatch-IsValid :
    (q : TaskQueue) (connected : ℕ → Bool) → IsValid q → IsValid (dispatch q connected).0
dispatch-IsValid q connected v = elim (dispatch_cases q connected) [
  | inl (e, why) ↦ rw e v
  | inr (i, g, x, at, c, room, first, n, e) ↦ rw e (
      occupy-IsValid q x g (remove_at i q.pending) v (absent x i at) room n
        (Distinct-remove_at q.pending i v.waiting.distinct)
        (omega (arith, length-remove_at_le q.pending i, v.waiting.bounded))
        (λ k. find-remove_at q.pending i x k at v.waiting.distinct))
]
  where
    absent :
        (x : QueueEntry) (i : ℕ)
        → get_elem? q.pending i ≡ some x
        → contains_key x.id q.active ≡ false
    absent x i at = elim (Bool-cases (contains_key x.id q.active)) [
      | inl t ↦ absurd (find_of_get q.pending i x at (v.waiting.disjoint x.id t))
      | inr f ↦ f
    ]

-- What `reserve_direct` does on success: a slot under the next generation for an entry that has none.
pub reserve_direct_ok :
    (q : TaskQueue) (entry : QueueEntry) (r : TaskQueue) (g : ℕ)
    → reserve_direct q entry ≡ ok (r, g)
    → (contains_key entry.id q.active ≡ false)
      × (has_room q entry ≡ true)
      × (next q ≡ some g)
      × (binds_otherwise (find entry.id q.pending) entry ≡ false)
      × (r ≡ occupy (remove_queued q entry.id).0 entry g)
unfolding reserve_direct metrics
reserve_direct_ok q entry r g h = ground (arith, files_and_metadata q.active)

pub reserve_direct-IsValid :
    (q : TaskQueue) (entry : QueueEntry) (r : TaskQueue) (g : ℕ)
    → IsValid q
    → reserve_direct q entry ≡ ok (r, g)
    → IsValid r
reserve_direct-IsValid q entry r g v h =
    let (absent, room, n, b, e) = reserve_direct_ok q entry r g h in
    let (rest, p, d, l, f) = remove_queued_lem q entry.id v.waiting.distinct in
    rw (e, p) (occupy-IsValid q entry g rest v absent room n d (omega (arith, v.waiting.bounded)) f)

-- What a caller may do to the queue.
pub data Op : Type 0 where
  set_limits : ℕ → Op
  enqueues : List QueueEntry → Op
  dispatches : (ℕ → Bool) → Op
  finishes : ℕ → ℕ → Op
  reserves : QueueEntry → Op
  removes : ℕ → Op
  clears : Op

abbrev pub after : TaskQueue → Result TaskQueue → TaskQueue
after q (ok r) = r
after q (err e) = q

abbrev pub after_slot : TaskQueue → Result (TaskQueue × ℕ) → TaskQueue
after_slot q (ok (r, g)) = r
after_slot q (err e) = q

-- An operation that returns an error leaves the queue as it was.
unfoldable pub step : TaskQueue → Op → TaskQueue
step q (set_limits value) = after q (set_limit q value)
step q (enqueues entries) = after q (enqueue q entries)
step q (dispatches connected) = (dispatch q connected).0
step q (finishes id generation) = finish_if q id generation
step q (reserves entry) = after_slot q (reserve_direct q entry)
step q (removes id) = (remove_queued q id).0
step q clears = clear q

unfoldable pub run : TaskQueue → List Op → TaskQueue
run q [] = q
run q (o ∷ os) = run (step q o) os
