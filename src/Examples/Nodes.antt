-- ===== src/Examples/Nodes.antt =====
-- The node's registries on small inputs: peers, reserved space, files and speed tests.
use p2p_file.Common.{
  ℕ, ◌+◌, ◌*◌, ◌≤◌, ◌<◌, ◌≡◌, ◌≢◌, refl, ◌⊎◌, true, false, [], ◌∷◌, none, some, arith, ◌==◌,
  if◌then◌else◌,
}
use p2p_file.Common.Bytes.{u64_mod}
use p2p_file.Common.Ints.{negsuc}
use p2p_file.Common.Assoc.{lookup, count_values}
use p2p_file.Node.Peers.{
  PeerRegistry, PeerRecord, peer_pending, disconnected, started, begin_attempt, begin_new,
  make_room, following, transition, state_of, generation_of, pending_record, reconnect_delay,
  base_seconds, is_terminal,
}
use p2p_file.Node.Peers.Fencing.{
  IsValid, IsKeptOrEvicted, begin_attempt_started, transition_cases, stale_callback,
  reconnect_delay_bounds,
}
use p2p_file.Node.Space.{
  Accounts, Filesystem, Probe, Round, ok, reserve, reserve_file, file_bytes, reserve_rounds, admit,
  held_from, written, release,
}
use p2p_file.Node.Space.Admission.{held_on, IsFrom, reserve_lem, reserve_file_lem, written-release}
use p2p_file.Node.Space.Admission
use p2p_file.Node.Activity.{State}
use p2p_file.Node.Activity.Exclusion.{
  IsExclusive, adds, speeds, step, run, view, meaning, step_lem, run-IsExclusive,
}

-- Peer 7 was disconnected under generation 1.
abbrev gone : PeerRecord
gone = record { generation = 1; state = disconnected; started_at = 0 }

abbrev retired : PeerRegistry
retired = record { peers = (7, gone) ∷ []; next_generation = 1 }

abbrev retried : PeerRegistry
retried = record {
  peers = (7, record { generation = 2; state = peer_pending; started_at = 40 }) ∷ [];
  next_generation = 2;
}

retired-IsValid : IsValid retired
retired-IsValid = record {
  map = (refl, tt);
  capacity = omega arith;
  issued = λ k r h. ground arith;
}

retired_attempt : begin_attempt retired 7 40 ≡ (retried, started 2)
unfolding begin_attempt begin_new make_room following
retired_attempt = refl

begin_attempt_started_example :
    IsValid retried
    × (2 ≡ 1 + 1)
    × (state_of retried 7 ≡ some peer_pending)
    × (generation_of retried 7 ≡ some 2)
    × (count_values pending_record retried.peers ≤ 8)
    × ((k : ℕ) → k ≢ 7 → IsKeptOrEvicted retired.peers retried.peers k)
begin_attempt_started_example =
    begin_attempt_started retired retried 7 40 2 retired-IsValid (omega arith) retired_attempt

stale_callback_example : transition retried 7 1 peer_pending ≡ (retried, false)
stale_callback_example =
    stale_callback retired retried 7 40 2 gone peer_pending retired-IsValid (omega arith) refl
      retired_attempt

transition_cases_example :
    ((transition retried 7 2 disconnected ≡ (retried, false))
      × ((r : PeerRecord)
          → lookup 7 retried.peers ≡ some r
          → (r.generation ≢ 2) ⊎ (is_terminal r.state ≡ true)))
    ⊎ ((s : PeerRegistry) × (r : PeerRecord) × (transition retried 7 2 disconnected ≡ (s, true))
        × (lookup 7 retried.peers ≡ some r)
        × (r.generation ≡ 2)
        × (is_terminal r.state ≡ false)
        × ((k : ℕ)
            → lookup k s.peers ≡ (
                if 7 == k
                then some (record r { state = disconnected })
                else lookup k retried.peers))
        × (IsValid retried → IsValid s))
transition_cases_example = transition_cases retried 7 2 disconnected

reconnect_delay_bounds_example :
    (250 ≤ reconnect_delay 3 (negsuc 49))
    × (reconnect_delay 3 (negsuc 49) ≤ 30000)
    × (800 * base_seconds 3 ≤ reconnect_delay 3 (negsuc 49))
    × (reconnect_delay 3 (negsuc 49) ≤ 1200 * base_seconds 3)
reconnect_delay_bounds_example = reconnect_delay_bounds 3 (negsuc 49)

abbrev disk : Filesystem
disk = record { volume = 3; namespace_name = none }

abbrev unused : Accounts
unused = record { version = 0; nonce = 0; reservations = [] }

abbrev changed : Accounts
changed = record unused { version = 1 }

abbrev probed : Probe
probed = record { filesystem = disk; available = 200000000 }

-- The accounts change during the first probe only.
abbrev first_round : Round
first_round = record { first = unused; probed = ok probed; second = changed }

abbrev later_round : Round
later_round = record { first = changed; probed = ok probed; second = changed }

abbrev reserved : Accounts
reserved = record { version = 2; nonce = 1; reservations = (1, (disk, 70000)) ∷ [] }

changed-IsValid : Admission.IsValid changed
changed-IsValid = record {
  map = tt;
  capacity = omega arith;
  issued = λ k h. ground arith;
  overhead = λ k fs b h. ground arith;
}

second_round_reserves :
    reserve first_round later_round later_round later_round 64 70000 ≡ ok (reserved, 1)
unfolding reserve reserve_rounds admit held_from
second_round_reserves = refl

here : Admission.IsValid changed × (0 + 1 < u64_mod)
here = (changed-IsValid, omega arith)

reserve_lem_example :
    (space : Probe) × IsFrom (first_round ∷ later_round ∷ later_round ∷ later_round ∷ []) space
    × Admission.IsValid reserved
    × (lookup 1 reserved.reservations ≡ some (space.filesystem, 70000))
    × (held_on space.filesystem reserved.reservations + 64 * 1024 * 1024 ≤ space.available)
reserve_lem_example =
    reserve_lem first_round later_round later_round later_round reserved 64 70000 1
      (here, (here, (here, (here, tt)))) (omega arith) second_round_reserves

file_reserves :
    reserve_file
      (ok tt)
      (ok probed)
      (ok probed)
      4464
      first_round
      later_round
      later_round
      later_round
      64
    ≡ ok (reserved, 1)
unfolding reserve_file file_bytes reserve reserve_rounds admit held_from
file_reserves = refl

reserved-IsValid : Admission.IsValid reserved
reserved-IsValid = record {
  map = (refl, tt);
  capacity = omega arith;
  issued = λ k h. ground arith;
  overhead = λ k fs b h. ground arith;
}

written-release_example :
    Admission.IsValid (written reserved 1 9000)
    × Admission.IsValid (release reserved 1)
    × (held_on disk (written reserved 1 9000).reservations ≤ held_on disk reserved.reservations)
    × (held_on disk (release reserved 1).reservations ≤ held_on disk reserved.reservations)
    × (lookup 1 (release reserved 1).reservations ≡ none)
written-release_example = written-release reserved 1 9000 disk reserved-IsValid

abbrev quiet : State
quiet = record { peers = [] }

step_lem_example : view (step quiet (speeds 7 1)) 7 ≡ meaning (speeds 7 1) 7 (view quiet 7)
step_lem_example = step_lem quiet (speeds 7 1) 7

quiet-IsExclusive : IsExclusive quiet
unfolding view
quiet-IsExclusive = λ k. refl

run-IsExclusive_example : IsExclusive (run quiet (speeds 7 1 ∷ adds 7 ∷ []))
run-IsExclusive_example = run-IsExclusive quiet (speeds 7 1 ∷ adds 7 ∷ []) quiet-IsExclusive
