-- ===== src/Node/Queue/Slots.antt =====
-- The active slots: what holds of them between two operations of the queue.
use p2p_file.Common.{
  ℕ, ◌+◌, ◌≤◌, ◌<◌, ◌≡◌, Bool, true, false, ◌&&◌, List, [], ◌∷◌, some, if◌then◌else◌, ltb, ◌==◌,
  length, arith,
}
use p2p_file.Common.Bytes.{u64_mod}
use p2p_file.Common.Assoc.{
  lookup, contains_key, remove, count_values, IsMap, insert-IsMap, remove-IsMap,
  contains_key-insert, contains_key-remove, count_values-insert, lookup-insert, lookup-remove,
}
use p2p_file.Node.Queue.{
  TaskQueue, QueueEntry, is_file, metadata_of, occupy, next, max_metadata_active,
}

abbrev pub is_metadata : QueueEntry → Bool
is_metadata e = e.metadata

pub record SlotsValid (q : TaskQueue) : Type 0 where
  pub active_map : IsMap q.active
  pub keyed : (k : ℕ) (e : QueueEntry) → lookup k q.active ≡ some e → e.id ≡ k
  pub generations_map : IsMap q.generations
  pub same_keys : (k : ℕ) → contains_key k q.generations ≡ contains_key k q.active
  pub issued : (k : ℕ) (g : ℕ) → lookup k q.generations ≡ some g → g ≤ q.next_generation
  pub next_u64 : q.next_generation < u64_mod
  pub limit_low : 1 ≤ q.limit
  pub limit_high : q.limit ≤ 3
  pub files : count_values is_file q.active ≤ 3
  pub directories : count_values is_metadata q.active ≤ max_metadata_active
  pub per_peer : (peer : ℕ) → metadata_of peer q ≤ 2

-- Files and directory metadata are all that is active.
pub files_and_metadata :
    (m : List (ℕ × QueueEntry)) → length m ≡ count_values is_file m + count_values is_metadata m
files_and_metadata [] = omega arith
files_and_metadata ((k, e) ∷ m) = ground (arith, files_and_metadata m)

-- The test that `dispatch` and `reserve_direct` make before they give an entry a slot.
abbrev pub has_room : TaskQueue → QueueEntry → Bool
has_room q entry =
    if entry.metadata
    then ltb (count_values is_metadata q.active) max_metadata_active
      && ltb (metadata_of entry.peer q) 2
    else ltb (count_values is_file q.active) q.limit

pub occupy-SlotsValid :
    (q : TaskQueue) (entry : QueueEntry) (g : ℕ)
    → SlotsValid q
    → contains_key entry.id q.active ≡ false
    → has_room q entry ≡ true
    → next q ≡ some g
    → SlotsValid (occupy q entry g)
occupy-SlotsValid q entry g v absent room n = record {
  active_map = insert-IsMap entry.id entry q.active v.active_map;
  keyed = λ k e h. ground (arith, lookup-insert entry.id k entry q.active, v.keyed k e);
  generations_map = insert-IsMap entry.id g q.generations v.generations_map;
  same_keys = λ k. ground (
    arith,
    contains_key-insert entry.id k g q.generations,
    contains_key-insert entry.id k entry q.active,
    v.same_keys k,
  );
  issued = λ k h e. ground (arith, lookup-insert entry.id k g q.generations, v.issued k h);
  next_u64 = ground arith;
  limit_low = v.limit_low;
  limit_high = v.limit_high;
  files =
      ground
        (arith, v.files, v.limit_high, count_values-insert is_file entry.id entry q.active absent);
  directories =
      ground (arith, v.directories, count_values-insert is_metadata entry.id entry q.active absent);
  per_peer = λ peer. ground (
    arith,
    v.per_peer peer,
    count_values-insert (λ a. a.metadata && a.peer == peer) entry.id entry q.active absent,
  );
}

pub release-SlotsValid :
    (q : TaskQueue) (id : ℕ)
    → SlotsValid q
    → SlotsValid (record q { active = remove id q.active; generations = remove id q.generations })
release-SlotsValid q id v = record {
  active_map = remove-IsMap id q.active v.active_map;
  keyed = λ k e h. ground (arith, lookup-remove id k q.active, v.keyed k e);
  generations_map = remove-IsMap id q.generations v.generations_map;
  same_keys = λ k. ground (
    arith,
    contains_key-remove id k q.generations,
    contains_key-remove id k q.active,
    v.same_keys k,
  );
  issued = λ k h e. ground (arith, lookup-remove id k q.generations, v.issued k h);
  next_u64 = v.next_u64;
  limit_low = v.limit_low;
  limit_high = v.limit_high;
  files = omega (arith, v.files, fewer is_file);
  directories = omega (arith, v.directories, fewer is_metadata);
  per_peer = λ peer. omega (arith, v.per_peer peer, fewer (λ a. a.metadata && a.peer == peer));
}
  where
    count_values-remove_le :
        (p : QueueEntry → Bool) (m : List (ℕ × QueueEntry))
        → count_values p (remove id m) ≤ count_values p m
    count_values-remove_le p [] = omega arith
    count_values-remove_le p ((k, e) ∷ m) = ground (arith, count_values-remove_le p m)

    fewer : (p : QueueEntry → Bool) → count_values p (remove id q.active) ≤ count_values p q.active
    fewer p = count_values-remove_le p q.active

-- The pending entries do not matter to the slots.
pub slots_pending :
    (q : TaskQueue) (rest : List QueueEntry)
    → SlotsValid q
    → SlotsValid (record q { pending = rest })
slots_pending q rest v = record {
  active_map = v.active_map;
  keyed = v.keyed;
  generations_map = v.generations_map;
  same_keys = v.same_keys;
  issued = v.issued;
  next_u64 = v.next_u64;
  limit_low = v.limit_low;
  limit_high = v.limit_high;
  files = v.files;
  directories = v.directories;
  per_peer = v.per_peer;
}

pub slots_limit :
    (q : TaskQueue) (value : ℕ)
    → 1 ≤ value
    → value ≤ 3
    → SlotsValid q
    → SlotsValid (record q { limit = value })
slots_limit q value low high v = record {
  active_map = v.active_map;
  keyed = v.keyed;
  generations_map = v.generations_map;
  same_keys = v.same_keys;
  issued = v.issued;
  next_u64 = v.next_u64;
  limit_low = low;
  limit_high = high;
  files = v.files;
  directories = v.directories;
  per_peer = v.per_peer;
}
