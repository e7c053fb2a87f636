-- ===== src/Discovery/ShortIds.antt =====
-- The short device numbers of src/discovery/short_id.rs. The three tables of the SQLite file are a
-- record; a transaction that is not committed leaves it as it was, and `commits` tells whether the
-- commit succeeds. A device registers with the text of its identifier, the text that
-- the code stores; times are seconds.
pub mod Allocation
use p2p_file.Common.{
  ℕ, ◌+◌, ◌-◌, Bool, true, false, not, ◌&&◌, ◌||◌, List, [], ◌∷◌, Option, none, some, if◌then◌else◌,
  ltb, leb, ◌==◌,
}
use p2p_file.Common.Bytes.{same_bytes}
use p2p_file.Identity.{from_hex}

abbrev pub first_short_id : ℕ
first_short_id = 100000000

abbrev pub last_short_id : ℕ
last_short_id = 999999999

abbrev pub allocation_window_seconds : ℕ
allocation_window_seconds = 60

pub record AllocationLimits : Type 0 where
  pub max_mappings : ℕ  -- u32
  pub per_window : ℕ  -- u32

pub record Mapping : Type 0 where
  pub device_identity : List ℕ
  pub short_id : ℕ
  pub created_at : ℕ
  pub last_seen_at : ℕ

pub record ShortIdStore : Type 0 where
  pub mappings : List Mapping
  pub next_id : ℕ
  pub window_started : ℕ
  pub allocations : ℕ

pub data Error : Type 0 where
  out_of_range exhausted mappings_full limited not_admitted database bad_identity : Error

pub data Result {ℓ} (A : Type ℓ) : Type ℓ where
  ok : A → Result A
  err : Error → Result A

-- `ShortId::new`
unfoldable pub new_short_id : ℕ → Result ℕ
new_short_id value =
    if leb first_short_id value && leb value last_short_id then ok value else err out_of_range

-- The store that `open` makes of a file without tables.
abbrev pub empty_store : ShortIdStore
empty_store = record {
  mappings = [];
  next_id = first_short_id;
  window_started = 0;
  allocations = 0;
}

-- `SELECT short_id ... WHERE device_identity=?1`
abbrev pub id_of : List Mapping → List ℕ → Option ℕ
id_of [] identity = none
id_of (m ∷ ms) identity =
    if same_bytes m.device_identity identity then some m.short_id else id_of ms identity

-- `SELECT device_identity ... WHERE short_id=?1`
abbrev pub identity_of : List Mapping → ℕ → Option (List ℕ)
identity_of [] id = none
identity_of (m ∷ ms) id = if m.short_id == id then some m.device_identity else identity_of ms id

-- `UPDATE ... SET last_seen_at=?1 WHERE device_identity=?2`
abbrev pub touch : ℕ → List ℕ → List Mapping → List Mapping
touch now identity [] = []
touch now identity (m ∷ ms) =
    (if same_bytes m.device_identity identity then record m { last_seen_at = now } else m)
    ∷ touch now identity ms

-- `INSERT INTO device_id_mapping`, with the unique columns and the check of the table.
unfoldable pub insert : List Mapping → Mapping → Option (List Mapping)
insert ms m = elim (id_of ms m.device_identity) [
  | some id ↦ none
  | none ↦ elim (identity_of ms m.short_id) [
    | some identity ↦ none
    | none ↦
        if leb first_short_id m.short_id && leb m.short_id last_short_id
        then some (m ∷ ms)
        else none
  ]
]

-- The allocation of a new number, from the budget on.
unfoldable pub allocate :
    List ℕ → AllocationLimits → Bool → ℕ → Bool → ShortIdStore → ShortIdStore × Result ℕ
unfolding new_short_id insert
allocate identity limits admits now commits s =
    let expired = leb allocation_window_seconds (now - s.window_started) in
    let started = if expired then now else s.window_started in
    let allocations = if expired then 0 else s.allocations in
    if leb limits.per_window allocations
    then (s, err limited)
    else if not admits
    then (s, err not_admitted)
    else elim (new_short_id s.next_id) [
      | err e ↦ (s, err e)
      | ok id ↦
          elim (insert s.mappings (record {
            device_identity = identity;
            short_id = s.next_id;
            created_at = now;
            last_seen_at = now;
          })) [
            | none ↦ (s, err database)
            | some mappings ↦
                if commits
                then (
                  record {
                    mappings = mappings;
                    next_id = s.next_id + 1;
                    window_started = started;
                    allocations = allocations + 1;
                  },
                  ok id,
                )
                else (s, err database)
          ]
    ]

unfoldable pub register_with_limits :
    List ℕ → AllocationLimits → Bool → ℕ → Bool → ShortIdStore → ShortIdStore × Result ℕ
unfolding new_short_id allocate
register_with_limits identity limits admits now commits s = elim (id_of s.mappings identity) [
  | some id ↦
      if commits
      then (record s { mappings = touch now identity s.mappings }, new_short_id id)
      else (s, err database)
  | none ↦
      if ltb last_short_id s.next_id
      then (s, err exhausted)
      else if leb limits.max_mappings (s.next_id - first_short_id)
      then (s, err mappings_full)
      else allocate identity limits admits now commits s
]

-- What a text that is stored stands for.
abbrev pub converted : Option (List ℕ) → Result (Option (List ℕ))
converted none = err bad_identity
converted (some raw) = ok (some raw)

-- `lookup`
unfoldable pub lookup_short_id :
    (List ℕ → Option (List ℕ)) → ShortIdStore → ℕ → Result (Option (List ℕ))
lookup_short_id hex_decode s id = elim (identity_of s.mappings id) [
  | none ↦ ok none
  | some text ↦ converted (from_hex hex_decode text)
]
