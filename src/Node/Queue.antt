-- ===== src/Node/Queue.antt =====
-- The send queue of src/node/core/queue.rs: `TaskQueue`. A `VecDeque` is a list, front first.
pub mod Admission
pub mod Slots
pub mod Steps
pub mod Runs
use p2p_file.Common.{
  ℕ, zero, suc, ◌+◌, ◌-◌, Bool, true, false, not, ◌&&◌, ◌||◌, List, [], ◌∷◌, ◌++◌, Option, none,
  some, if◌then◌else◌, leb, ltb, ◌==◌, length, get_elem?,
}
use p2p_file.Common.Bytes.{u64_mod}
use p2p_file.Common.Assoc.{lookup, contains_key, insert, remove, count_values}

pub data Error : Type 0 where
  bad_limit rebound queue_full slot_taken limit_reached generations_exhausted : Error

pub data Result {ℓ} (A : Type ℓ) : Type ℓ where
  ok : A → Result A
  err : Error → Result A

abbrev pub max_queued : ℕ
max_queued = 4096

abbrev pub max_metadata_active : ℕ
max_metadata_active = 8

pub record QueueEntry : Type 0 where
  pub id : ℕ  -- TaskId
  pub peer : ℕ  -- NodeId
  pub metadata : Bool

pub record QueueMetrics : Type 0 where
  pub pending : ℕ
  pub active_files : ℕ
  pub active_metadata : ℕ
  pub limit : ℕ
  pub converging : Bool

pub record TaskQueue : Type 0 where
  pub pending : List QueueEntry
  pub active : List (ℕ × QueueEntry)
  pub limit : ℕ  -- u8
  pub generations : List (ℕ × ℕ)
  pub next_generation : ℕ  -- u64

unfoldable pub default : TaskQueue
default = record { pending = []; active = []; limit = 1; generations = []; next_generation = 0 }

abbrev pub same_bool : Bool → Bool → Bool
same_bool true b = b
same_bool false b = not b

abbrev pub same_entry : QueueEntry → QueueEntry → Bool
same_entry a b = a.id == b.id && a.peer == b.peer && same_bool a.metadata b.metadata

unfoldable pub set_limit : TaskQueue → ℕ → Result TaskQueue
set_limit q value =
    if leb 1 value && leb value 3 then ok (record q { limit = value }) else err bad_limit

-- `iter().find(|e| e.id == id)`
abbrev pub find : ℕ → List QueueEntry → Option QueueEntry
find id [] = none
find id (e ∷ es) = if e.id == id then some e else find id es

abbrev pub or_else {ℓ} : {A : Type ℓ} → Option A → Option A → Option A
or_else none b = b
or_else (some a) b = some a

-- One round of the loop of `enqueue`, on the candidate for `pending`.
unfoldable pub admit :
    List (ℕ × QueueEntry) → List QueueEntry → QueueEntry → Result (List QueueEntry)
admit active candidate entry = elim (or_else (lookup entry.id active) (find entry.id candidate)) [
  | some existing ↦ if same_entry existing entry then ok candidate else err rebound
  | none ↦ if length candidate == max_queued then err queue_full else ok (candidate ++ (entry ∷ []))
]

unfoldable pub admit_each :
    List (ℕ × QueueEntry) → List QueueEntry → List QueueEntry → Result (List QueueEntry)
admit_each active candidate [] = ok candidate
admit_each active candidate (entry ∷ rest) = elim (admit active candidate entry) [
  | ok next ↦ admit_each active next rest
  | err e ↦ err e
]

unfoldable pub enqueue : TaskQueue → List QueueEntry → Result TaskQueue
enqueue q entries = elim (admit_each q.active q.pending entries) [
  | ok candidate ↦ ok (record q { pending = candidate })
  | err e ↦ err e
]

abbrev pub is_file : QueueEntry → Bool
is_file e = not e.metadata

unfoldable pub metrics : TaskQueue → QueueMetrics
metrics q = record {
  pending = length q.pending;
  active_files = active_files;
  active_metadata = length q.active - active_files;
  limit = q.limit;
  converging = ltb q.limit active_files;
}
  where
    active_files : ℕ
    active_files = count_values is_file q.active

-- `filter(|a| a.metadata && a.peer == peer).count()` over the active entries
abbrev pub metadata_of : ℕ → TaskQueue → ℕ
metadata_of peer q = count_values (λ a. a.metadata && a.peer == peer) q.active

unfoldable pub eligible : TaskQueue → (ℕ → Bool) → QueueEntry → Bool
unfolding metrics
eligible q connected entry =
    if not (connected entry.peer)
    then false
    else (if entry.metadata
        then ltb (metrics q).active_metadata max_metadata_active && ltb (metadata_of entry.peer q) 2
        else ltb (metrics q).active_files q.limit)

abbrev pub position : (QueueEntry → Bool) → List QueueEntry → Option ℕ
position p [] = none
position p (e ∷ es) =
    if p e then some 0 else elim (position p es) [ none ↦ none | some i ↦ some (suc i) ]

abbrev pub remove_at : ℕ → List QueueEntry → List QueueEntry
remove_at i [] = []
remove_at zero (e ∷ es) = es
remove_at (suc i) (e ∷ es) = e ∷ remove_at i es

-- A slot for the entry under a new generation.
abbrev pub occupy : TaskQueue → QueueEntry → ℕ → TaskQueue
occupy q entry generation = record q {
  next_generation = generation;
  generations = insert entry.id generation q.generations;
  active = insert entry.id entry q.active;
}

-- `next_generation.checked_add(1)`
abbrev pub next : TaskQueue → Option ℕ
next q = if ltb (q.next_generation + 1) u64_mod then some (q.next_generation + 1) else none

unfoldable pub dispatch : TaskQueue → (ℕ → Bool) → TaskQueue × Option QueueEntry
dispatch q connected = elim (position (eligible q connected) q.pending) [
  | none ↦ (q, none)
  | some i ↦ elim (next q) [
    | none ↦ (q, none)
    | some generation ↦ elim (get_elem? q.pending i) [
      | none ↦ (q, none)
      | some entry ↦
          (occupy (record q { pending = remove_at i q.pending }) entry generation, some entry)
    ]
  ]
]

unfoldable pub slot_generation : TaskQueue → ℕ → Option ℕ
slot_generation q id = lookup id q.generations

abbrev pub is_current : Option ℕ → ℕ → Bool
is_current none generation = false
is_current (some g) generation = g == generation

unfoldable pub finish_if : TaskQueue → ℕ → ℕ → TaskQueue
unfolding slot_generation
finish_if q id generation =
    if is_current (slot_generation q id) generation
    then record q { active = remove id q.active; generations = remove id q.generations }
    else q

unfoldable pub remove_queued : TaskQueue → ℕ → TaskQueue × Option QueueEntry
remove_queued q id = elim (position (λ e. e.id == id) q.pending) [
  | none ↦ (q, none)
  | some i ↦ (record q { pending = remove_at i q.pending }, get_elem? q.pending i)
]

unfoldable pub is_queued : TaskQueue → ℕ → Bool
is_queued q id = elim (find id q.pending) [ none ↦ false | some _ ↦ true ]

abbrev pub binds_otherwise : Option QueueEntry → QueueEntry → Bool
binds_otherwise none entry = false
binds_otherwise (some existing) entry = not (same_entry existing entry)

unfoldable pub reserve_direct : TaskQueue → QueueEntry → Result (TaskQueue × ℕ)
unfolding metrics
reserve_direct q entry =
    if contains_key entry.id q.active
    then err slot_taken
    else (if (not entry.metadata && leb q.limit (metrics q).active_files)
          || (entry.metadata
              && (leb max_metadata_active (metrics q).active_metadata
                  || leb 2 (metadata_of entry.peer q)))
        then err limit_reached
        else elim (next q) [
          | none ↦ err generations_exhausted
          | some generation ↦
              if binds_otherwise (find entry.id q.pending) entry
              then err rebound
              else ok (occupy (remove_queued q entry.id).0 entry generation, generation)
        ])

-- The generation counter survives, so that an old guard cannot release a new slot.
unfoldable pub clear : TaskQueue → TaskQueue
clear q = record q { pending = []; active = []; generations = [] }
