-- ===== src/Storage/Disk.antt =====
-- The operating system under src/storage/mod.rs: one part file, its bitmap file with the temporary
-- file that replaces it, and the names under which the part file may be published. A call gives the
-- new state and whether it succeeded.
use p2p_file.Common.{
  ℕ, ◌+◌, ◌≤◌, ◌≡◌, ◌⊎◌, Bool, true, false, List, Option, none, some, if◌then◌else◌, length, take,
  drop, ◌<◌, All,
}
use p2p_file.Common.Streams.{Exact, exactly, early_end}

-- What opening a file for reading gives.
pub data Found {ℓ} (A : Type ℓ) : Type ℓ where
  found : A → Found A
  not_found unreadable : Found A

pub data Linked : Type 0 where
  linked taken refused : Linked

pub data DirEntry : Type 0 where
  present absent unknown : DirEntry

pub record Disk : Type 1 where
  pub State : Type 0
  -- The length of an existing part file.
  pub part_len : State → Found ℕ
  pub create_part : State → State × Bool
  pub set_len : State → ℕ → State × Bool
  -- `seek` and `read_exact`, `seek` and `write_all`
  pub read_at : State → ℕ → ℕ → Exact
  pub write_at : State → ℕ → List ℕ → State × Bool
  pub sync_data : State → State × Bool
  pub sync_all : State → State × Bool
  pub read_state : State → Found (List ℕ)
  -- `File::create` and `write_all`
  pub write_tmp : State → List ℕ → State × Bool
  pub sync_tmp : State → State × Bool
  pub rename_tmp : State → State × Bool
  pub sync_dir : State → State × Bool
  pub hard_link : State → ℕ → State × Linked
  pub entry : State → ℕ → DirEntry
  pub remove_part : State → State × Bool
  pub remove_state : State → State × Bool

infixl 5 ◌>=>◌
abbrev pub ◌>=>◌ : {S : Type 0} → S × Bool → (S → S × Bool) → S × Bool
r >=> f = if r.1 then f r.0 else r

-- The bytes from an offset on.
abbrev pub slice : ℕ → ℕ → List ℕ → List ℕ
slice offset len bytes = take len (drop offset bytes)

module _ (D : Disk) where
  -- Two states have the same part file and, wherever the stable storage had its bytes, it still has.
  pub record Keeps (content stable : D.State → List ℕ) (s t : D.State) : Type 0 where
    pub same : content t ≡ content s
    pub still :
        (o l : ℕ)
        → slice o l (stable s) ≡ slice o l (content s)
        → slice o l (stable t) ≡ slice o l (content t)

  -- The documented behaviour. `content` is the part file as reads see it, `stable` is what a crash
  -- leaves of it, `bitmap` is the bitmap file and `tmp` its temporary file; `linked_file` is the file
  -- of a number under which the part file was linked when stable storage had all of it, `lasting`
  -- what a crash leaves under the name of that number.
  pub record IsReliable : Type 1 where
    pub content : D.State → List ℕ
    pub stable : D.State → List ℕ
    pub bitmap : D.State → Option (List ℕ)
    pub tmp : D.State → Option (List ℕ)
    pub linked_file : D.State → ℕ → Option (List ℕ)
    pub lasting : D.State → ℕ → Option (List ℕ)
    -- Bytes that the file has elsewhere stay.
    pub write_elsewhere :
        (s : D.State) (offset : ℕ) (data' : List ℕ) (o l : ℕ)
        → (o + l ≤ offset) ⊎ (offset + length data' ≤ o)
        → length (slice o l (content s)) ≡ l
        → slice o l (content (D.write_at s offset data').0) ≡ slice o l (content s)
    pub write_stable :
        (s : D.State) (offset : ℕ) (data' : List ℕ) (o l : ℕ)
        → (o + l ≤ offset) ⊎ (offset + length data' ≤ o)
        → length (slice o l (stable s)) ≡ l
        → slice o l (stable (D.write_at s offset data').0) ≡ slice o l (stable s)
    pub write_there :
        (s t : D.State) (offset : ℕ) (data' : List ℕ)
        → D.write_at s offset data' ≡ (t, true)
        → slice offset (length data') (content t) ≡ data'
    -- Bytes that the file has already change nothing.
    pub write_again :
        (s : D.State) (offset : ℕ) (data' : List ℕ)
        → 0 < length data'
        → slice offset (length data') (content s) ≡ data'
        → Keeps content stable s (D.write_at s offset data').0
    pub write_bitmap :
        (s : D.State) (offset : ℕ) (data' : List ℕ)
        → bitmap (D.write_at s offset data').0 ≡ bitmap s
    pub sync_keeps : (s : D.State) → Keeps content stable s (D.sync_data s).0
    pub sync_bitmap : (s : D.State) → bitmap (D.sync_data s).0 ≡ bitmap s
    pub sync_done : (s t : D.State) → D.sync_data s ≡ (t, true) → stable t ≡ content t
    pub sync_all_keeps : (s : D.State) → Keeps content stable s (D.sync_all s).0
    pub sync_all_bitmap : (s : D.State) → bitmap (D.sync_all s).0 ≡ bitmap s
    pub sync_all_done : (s t : D.State) → D.sync_all s ≡ (t, true) → stable t ≡ content t
    pub tmp_keeps : (s : D.State) (bytes : List ℕ) → Keeps content stable s (D.write_tmp s bytes).0
    pub tmp_bitmap : (s : D.State) (bytes : List ℕ) → bitmap (D.write_tmp s bytes).0 ≡ bitmap s
    pub tmp_written :
        (s t : D.State) (bytes : List ℕ) → D.write_tmp s bytes ≡ (t, true) → tmp t ≡ some bytes
    pub sync_tmp_keeps : (s : D.State) → Keeps content stable s (D.sync_tmp s).0
    pub sync_tmp_bitmap :
        (s : D.State) → (bitmap (D.sync_tmp s).0 ≡ bitmap s) × (tmp (D.sync_tmp s).0 ≡ tmp s)
    pub rename_keeps : (s : D.State) → Keeps content stable s (D.rename_tmp s).0
    pub rename_done : (s t : D.State) → D.rename_tmp s ≡ (t, true) → bitmap t ≡ tmp s
    pub rename_failed : (s t : D.State) → D.rename_tmp s ≡ (t, false) → bitmap t ≡ bitmap s
    pub sync_dir_keeps : (s : D.State) → Keeps content stable s (D.sync_dir s).0
    pub sync_dir_bitmap : (s : D.State) → bitmap (D.sync_dir s).0 ≡ bitmap s
    pub sync_dir_part : (s : D.State) → D.part_len (D.sync_dir s).0 ≡ D.part_len s
    pub sync_dir_file :
        (s : D.State) (k : ℕ) (bytes : List ℕ)
        → linked_file s k ≡ some bytes
        → linked_file (D.sync_dir s).0 k ≡ some bytes
    pub sync_dir_done :
        (s t : D.State) (k : ℕ) (bytes : List ℕ)
        → D.sync_dir s ≡ (t, true)
        → linked_file s k ≡ some bytes
        → lasting t k ≡ some bytes
    pub link_keeps : (s : D.State) (k : ℕ) → Keeps content stable s (D.hard_link s k).0
    pub link_bitmap : (s : D.State) (k : ℕ) → bitmap (D.hard_link s k).0 ≡ bitmap s
    pub link_synced :
        (s : D.State) (k : ℕ)
        → stable s ≡ content s
        → stable (D.hard_link s k).0 ≡ content (D.hard_link s k).0
    pub link_done :
        (s t : D.State) (k : ℕ)
        → D.hard_link s k ≡ (t, linked)
        → stable s ≡ content s
        → linked_file t k ≡ some (content s)
    pub remove_part_file :
        (s : D.State) (k : ℕ) (bytes : List ℕ)
        → linked_file s k ≡ some bytes
        → linked_file (D.remove_part s).0 k ≡ some bytes
    pub remove_part_bitmap : (s : D.State) → bitmap (D.remove_part s).0 ≡ bitmap s
    pub remove_part_done : (s t : D.State) → D.remove_part s ≡ (t, true) → D.part_len t ≡ not_found
    pub remove_part_failed :
        (s t : D.State) → D.remove_part s ≡ (t, false) → Keeps content stable s t
    pub remove_state_keeps : (s : D.State) → Keeps content stable s (D.remove_state s).0
    pub remove_state_part : (s : D.State) → D.part_len (D.remove_state s).0 ≡ D.part_len s
    pub remove_state_file :
        (s : D.State) (k : ℕ) (bytes : List ℕ)
        → linked_file s k ≡ some bytes
        → linked_file (D.remove_state s).0 k ≡ some bytes
    pub remove_state_done : (s t : D.State) → D.remove_state s ≡ (t, true) → bitmap t ≡ none
    pub remove_state_failed : (s t : D.State) → D.remove_state s ≡ (t, false) → bitmap t ≡ bitmap s
    pub read_whole :
        (s : D.State) (o l : ℕ) (bytes : List ℕ)
        → D.read_at s o l ≡ exactly bytes
        → bytes ≡ slice o l (content s)
    pub read_short :
        (s : D.State) (o l : ℕ) → D.read_at s o l ≡ early_end → length (slice o l (content s)) < l
    pub state_found :
        (s : D.State) (bytes : List ℕ)
        → D.read_state s ≡ found bytes
        → (bitmap s ≡ some bytes) × All (λ x. x < 256) bytes
    pub state_absent : (s : D.State) → D.read_state s ≡ not_found → bitmap s ≡ none
