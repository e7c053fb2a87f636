-- ===== src/Node/Activity.antt =====
-- The admission of files and speed tests of src/node/core/activity.rs. The shared state is the value
-- that the lock protects; a permit that is dropped is an operation of its own. The channel that tells
-- the user interface of a change is left out.
pub mod Exclusion
use p2p_file.Common.{
  ℕ, ◌+◌, ◌-◌, Bool, true, false, not, ◌&&◌, ◌||◌, List, [], ◌∷◌, Option, none, some, if◌then◌else◌,
  ltb, ◌==◌,
}
use p2p_file.Common.Bytes.{u64_mod}
use p2p_file.Common.Assoc.{lookup, insert, remove}

pub record Entry : Type 0 where
  pub files : ℕ  -- usize
  pub speed : Option ℕ  -- TaskId

pub record State : Type 0 where
  pub peers : List (ℕ × Entry)

pub data Error : Type 0 where
  in_use speed_running too_many_files : Error

pub data Result : Type 0 where
  ok : Result
  err : Error → Result

abbrev pub idle : Entry
idle = record { files = 0; speed = none }

abbrev pub is_running : Option ℕ → Bool
is_running none = false
is_running (some _) = true

abbrev pub is_idle : Entry → Bool
is_idle e = e.files == 0 && not (is_running e.speed)

-- `entry(peer).or_default()`
abbrev pub entry_of : Option Entry → Entry
entry_of none = idle
entry_of (some e) = e

unfoldable pub can_speed : State → ℕ → Bool
can_speed s peer = elim (lookup peer s.peers) [ none ↦ true | some e ↦ is_idle e ]

unfoldable pub speed_active : State → ℕ → Bool
speed_active s peer = elim (lookup peer s.peers) [ none ↦ false | some e ↦ is_running e.speed ]

-- An entry is there after a refusal, too.
unfoldable pub add_file : State → ℕ → State × Result
add_file s peer =
    let entry = entry_of (lookup peer s.peers) in
    let kept : State = record { peers = insert peer entry s.peers } in
    if is_running entry.speed
    then (kept, err speed_running)
    else if ltb (entry.files + 1) u64_mod
    then (record { peers = insert peer (record entry { files = entry.files + 1 }) s.peers }, ok)
    else (kept, err too_many_files)

unfoldable pub speed : State → ℕ → ℕ → State × Result
speed s peer id =
    let entry = entry_of (lookup peer s.peers) in
    if not (entry.files == 0) || is_running entry.speed
    then (record { peers = insert peer entry s.peers }, err in_use)
    else (record { peers = insert peer (record entry { speed = some id }) s.peers }, ok)

unfoldable pub prune : State → ℕ → State
prune s peer = elim (lookup peer s.peers) [
  | none ↦ s
  | some e ↦ if is_idle e then record { peers = remove peer s.peers } else s
]

-- The drop of a `FilePermit`, which panics without an entry that counts a file: here it then
-- changes nothing.
unfoldable pub drop_file : State → ℕ → State
unfolding prune
drop_file s peer = elim (lookup peer s.peers) [
  | none ↦ s
  | some e ↦
      if e.files == 0
      then s
      else prune (record { peers = insert peer (record e { files = e.files - 1 }) s.peers }) peer
]

abbrev pub is_speed : Option ℕ → ℕ → Bool
is_speed none id = false
is_speed (some j) id = j == id

-- The drop of a `SpeedPermit`.
unfoldable pub drop_speed : State → ℕ → ℕ → State
unfolding prune
drop_speed s peer id = elim (lookup peer s.peers) [
  | none ↦ prune s peer
  | some e ↦
      if is_speed e.speed id
      then prune (record { peers = insert peer (record e { speed = none }) s.peers }) peer
      else prune s peer
]
