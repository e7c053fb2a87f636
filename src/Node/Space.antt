-- ===== src/Node/Space.antt =====
-- The advisory receive-space budget of src/node/core/space_budget.rs. A probe of the filesystem is an
-- argument: a function that a round of `reserve_with_probe` calls while the accounts are unlocked,
-- so the accounts may have changed when the round locks them again.
pub mod Admission
use p2p_file.Common.{
  ℕ, zero, suc, ◌+◌, ◌-◌, ◌*◌, ◌%◌, min, max, Bool, true, false, not, ◌&&◌, ◌||◌, List, [], ◌∷◌,
  Option, none, some, if◌then◌else◌, leb, ltb, ◌==◌, ◌!=◌, length,
}
use p2p_file.Common.Bytes.{u64_mod, same_bytes}
use p2p_file.Common.Assoc.{lookup, insert, remove}
use p2p_file.Node.Task.{
  TaskErrorCode, disk_full, space_check_unavailable, receive_budget_busy, filesystem_mismatch,
}

-- `64 * 1024`
abbrev pub task_overhead : ℕ
task_overhead = 65536

abbrev pub max_reservations : ℕ
max_reservations = 64

pub record Filesystem : Type 0 where
  pub volume : ℕ  -- u64
  pub namespace_name : Option (List ℕ)

pub record Probe : Type 0 where
  pub filesystem : Filesystem
  pub available : ℕ  -- u64

pub data SpaceError : Type 0 where
  insufficient : ℕ → ℕ → SpaceError
  unavailable busy cross_filesystem : SpaceError

unfoldable pub diagnostic : SpaceError → TaskErrorCode
diagnostic (insufficient required available) = disk_full
diagnostic unavailable = space_check_unavailable
diagnostic busy = receive_budget_busy
diagnostic cross_filesystem = filesystem_mismatch

pub data Result {ℓ} (A : Type ℓ) : Type ℓ where
  ok : A → Result A
  err : SpaceError → Result A

infixl 5 ◌>>=◌
abbrev pub ◌>>=◌ {ℓ κ} : {A : Type ℓ} {B : Type κ} → Result A → (A → Result B) → Result B
ok a >>= f = f a
err e >>= f = err e

pub record Summary : Type 0 where
  pub reserved : ℕ
  pub filesystems : ℕ

pub record Accounts : Type 0 where
  pub version : ℕ  -- u64
  pub nonce : ℕ  -- u64
  pub reservations : List (ℕ × (Filesystem × ℕ))

abbrev pub same_namespace : Option (List ℕ) → Option (List ℕ) → Bool
same_namespace none none = true
same_namespace none (some b) = false
same_namespace (some a) none = false
same_namespace (some a) (some b) = same_bytes a b

abbrev pub same_filesystem : Filesystem → Filesystem → Bool
same_filesystem a b = a.volume == b.volume && same_namespace a.namespace_name b.namespace_name

abbrev pub saturating_add : ℕ → ℕ → ℕ
saturating_add a b = min (a + b) (u64_mod - 1)

abbrev pub checked_add : ℕ → ℕ → Option ℕ
checked_add a b = if ltb (a + b) u64_mod then some (a + b) else none

-- `fold(sum, saturating_add)`
abbrev pub reserved_from : ℕ → List (ℕ × (Filesystem × ℕ)) → ℕ
reserved_from sum [] = sum
reserved_from sum ((k, (fs, bytes)) ∷ m) = reserved_from (saturating_add sum bytes) m

abbrev pub contains_filesystem : Filesystem → List (ℕ × (Filesystem × ℕ)) → Bool
contains_filesystem fs [] = false
contains_filesystem fs ((k, (other, bytes)) ∷ m) =
    same_filesystem other fs || contains_filesystem fs m

-- `collect::<HashSet<_>>().len()`
abbrev pub count_filesystems : List (ℕ × (Filesystem × ℕ)) → ℕ
count_filesystems [] = 0
count_filesystems ((k, (fs, bytes)) ∷ m) =
    let rest = count_filesystems m in if contains_filesystem fs m then rest else suc rest

unfoldable pub summary : Accounts → Summary
summary a = record {
  reserved = reserved_from 0 a.reservations;
  filesystems = count_filesystems a.reservations;
}

-- `try_fold(sum, checked_add)` over the reservations on one filesystem
unfoldable pub held_from : ℕ → Filesystem → List (ℕ × (Filesystem × ℕ)) → Option ℕ
held_from sum fs [] = some sum
held_from sum fs ((k, (other, bytes)) ∷ m) =
    if same_filesystem other fs
    then elim (checked_add sum bytes) [ none ↦ none | some next ↦ held_from next fs m ]
    else held_from sum fs m

abbrev pub found : Option ℕ → Result ℕ
found none = err unavailable
found (some n) = ok n

-- What the accounts become when they admit a reservation.
abbrev pub admitted : Accounts → Filesystem → ℕ → Accounts
admitted a fs bytes = record {
  version = (a.version + 1) % u64_mod;
  nonce = (a.nonce + 1) % u64_mod;
  reservations = insert ((a.nonce + 1) % u64_mod) (fs, bytes) a.reservations;
}

-- The part of a round in which the accounts stay locked, for the probe made before it.
unfoldable pub admit : Accounts → ℕ → Probe → ℕ → Result (Accounts × ℕ)
admit a safety_mib space bytes =
    if leb max_reservations (length a.reservations) then err busy else do
      held ← found (held_from 0 space.filesystem a.reservations)
      wanted ← found (checked_add held bytes)
      required ← found (checked_add wanted (safety_mib * 1024 * 1024))
      if ltb space.available required
          then err (insufficient required space.available)
          else ok (admitted a space.filesystem bytes, (a.nonce + 1) % u64_mod)

-- The accounts as a round finds them at its two locks, and the probe between them.
pub record Round : Type 0 where
  pub first : Accounts
  pub probed : Result Probe
  pub second : Accounts

-- The rounds of one call, at most four: an answer with the accounts it leaves at that moment.
unfoldable pub reserve_rounds : List Round → ℕ → ℕ → Result (Accounts × ℕ)
reserve_rounds [] safety_mib bytes = err busy
reserve_rounds (r ∷ rs) safety_mib bytes =
    let rest = reserve_rounds rs safety_mib bytes in
    elim r.probed [
      | err e ↦ err e
      | ok space ↦
          if r.second.version != r.first.version
          then rest
          else admit r.second safety_mib space bytes
    ]

-- `reserve_with_probe`
unfoldable pub reserve : Round → Round → Round → Round → ℕ → ℕ → Result (Accounts × ℕ)
reserve r1 r2 r3 r4 safety_mib bytes = reserve_rounds (r1 ∷ r2 ∷ r3 ∷ r4 ∷ []) safety_mib bytes

-- The bytes that `reserve_file` reserves: the destination is opened, then the staging directory and
-- the destination are probed.
unfoldable pub file_bytes : Result (Unit {0}) → Result Probe → Result Probe → ℕ → Result ℕ
file_bytes opened staging target remaining = do
  _ ← opened
  here ← staging
  destination ← target
  if not (same_filesystem here.filesystem destination.filesystem)
      then err cross_filesystem
      else found (checked_add remaining task_overhead)

-- `reserve_file` with the rounds of its call of `reserve_with_probe`.
unfoldable pub reserve_file :
    Result (Unit {0})
    → Result Probe
    → Result Probe
    → ℕ
    → Round
    → Round
    → Round
    → Round
    → ℕ
    → Result (Accounts × ℕ)
reserve_file opened staging target remaining r1 r2 r3 r4 safety_mib =
    file_bytes opened staging target remaining >>= λ bytes. reserve r1 r2 r3 r4 safety_mib bytes

unfoldable pub reserve_directory :
    Result (Unit {0}) → Round → Round → Round → Round → ℕ → Result (Accounts × ℕ)
reserve_directory opened r1 r2 r3 r4 safety_mib =
    opened >>= λ _. reserve r1 r2 r3 r4 safety_mib task_overhead

abbrev pub default_safety_mib : ℕ
default_safety_mib = 64

abbrev pub max_safety_mib : ℕ
max_safety_mib = 4096

-- `set_safety_mib`: the margin that is then in force, or the refusal.
unfoldable pub set_safety_mib : ℕ → Option ℕ
set_safety_mib value = if ltb max_safety_mib value then none else some value

-- `Reservation::written`
unfoldable pub written : Accounts → ℕ → ℕ → Accounts
written a nonce bytes = elim (lookup nonce a.reservations) [
  | none ↦ a
  | some (fs, remaining) ↦ record a {
    reservations = insert nonce (fs, max (remaining - bytes) task_overhead) a.reservations;
    version = (a.version + 1) % u64_mod;
  }
]

-- `Lease::drop`
unfoldable pub release : Accounts → ℕ → Accounts
release a nonce = record a {
  reservations = remove nonce a.reservations;
  version = (a.version + 1) % u64_mod;
}
