-- ===== src/Node/Peers.antt =====
-- The peer registry of src/node/core/network_state.rs, with the capacity of a general build. An
-- `Instant` is a number of milliseconds.
pub mod Fencing
use p2p_file.Common.{
  ℕ, ◌+◌, ◌-◌, ◌*◌, ◌/◌, ◌%◌, min, max, Bool, true, false, not, ◌&&◌, ◌||◌, List, [], ◌∷◌, Option,
  none, some, if◌then◌else◌, leb, ltb, ◌==◌, length,
}
use p2p_file.Common.Bytes.{u64_mod}
use p2p_file.Common.Ints.{ℤ, pos, negsuc}
use p2p_file.Common.Assoc.{lookup, insert, remove, count_values}

abbrev pub max_peers : ℕ
max_peers = 16

abbrev pub max_pending_peers : ℕ
max_pending_peers = 8

-- In milliseconds.
abbrev pub peer_lookup_timeout : ℕ
peer_lookup_timeout = 15000

abbrev pub max_reconnect_delay : ℕ
max_reconnect_delay = 30000

-- `AuthorizationGrant` and `RemoteAuthorization` of src/node/core/remote_auth.rs.
pub record AuthorizationGrant : Type 0 where
  pub password : Bool
  pub trusted_device : Bool

pub record RemoteAuthorization : Type 0 where
  pub inbound : AuthorizationGrant
  pub outbound : AuthorizationGrant

abbrev pub authorized : AuthorizationGrant → Bool
authorized grant = grant.password || grant.trusted_device

pub data PeerLifecycle : Type 0 where
  peer_pending punching authenticating negotiating remote_auth_pending : PeerLifecycle
  connected : RemoteAuthorization → PeerLifecycle
  disconnected : PeerLifecycle
  failed : List ℕ → PeerLifecycle

abbrev pub is_connected : PeerLifecycle → Bool
is_connected (connected _) = true
is_connected _ = false

unfoldable pub outbound_authorized : PeerLifecycle → Bool
outbound_authorized (connected auth) = authorized auth.outbound
outbound_authorized _ = false

abbrev pub is_pending : PeerLifecycle → Bool
is_pending peer_pending = true
is_pending punching = true
is_pending authenticating = true
is_pending negotiating = true
is_pending remote_auth_pending = true
is_pending _ = false

abbrev pub is_active : PeerLifecycle → Bool
is_active state = is_pending state || is_connected state

abbrev pub is_terminal : PeerLifecycle → Bool
is_terminal disconnected = true
is_terminal (failed _) = true
is_terminal _ = false

abbrev pub is_peer_pending : PeerLifecycle → Bool
is_peer_pending peer_pending = true
is_peer_pending _ = false

pub data BeginPeerAttempt : Type 0 where
  started : ℕ → BeginPeerAttempt
  already_active : ℕ → BeginPeerAttempt
  at_capacity : BeginPeerAttempt

pub record PeerRecord : Type 0 where
  pub generation : ℕ  -- u64
  pub state : PeerLifecycle
  pub started_at : ℕ

pub record PeerRegistry : Type 0 where
  pub peers : List (ℕ × PeerRecord)
  pub next_generation : ℕ  -- u64

abbrev pub pending_record : PeerRecord → Bool
pending_record r = is_pending r.state

-- The entry of the lower generation, the first of two with the same.
abbrev pub older : ℕ × PeerRecord → Option (ℕ × PeerRecord) → Option (ℕ × PeerRecord)
older (k, r) none = some (k, r)
older (k, r) (some (j, s)) = if leb r.generation s.generation then some (k, r) else some (j, s)

-- `filter(is_terminal).min_by_key(generation)`
abbrev pub oldest_terminal : List (ℕ × PeerRecord) → Option (ℕ × PeerRecord)
oldest_terminal [] = none
oldest_terminal ((k, r) ∷ m) =
    let rest = oldest_terminal m in if is_terminal r.state then older (k, r) rest else rest

-- Room for one more record, made at the expense of the oldest that is at its end.
unfoldable pub make_room : List (ℕ × PeerRecord) → List (ℕ × PeerRecord)
make_room peers =
    if leb max_peers (length peers)
    then elim (oldest_terminal peers) [ none ↦ peers | some (k, r) ↦ remove k peers ]
    else peers

-- `wrapping_add(1).max(1)`
unfoldable pub following : ℕ → ℕ
following generation = max ((generation + 1) % u64_mod) 1

-- An attempt for a peer without an active record.
unfoldable pub begin_new : PeerRegistry → ℕ → ℕ → PeerRegistry × BeginPeerAttempt
begin_new g peer now =
    if leb max_pending_peers (count_values pending_record g.peers)
    then (g, at_capacity)
    else let peers = make_room g.peers in
      if leb max_peers (length peers)
      then (record g { peers = peers }, at_capacity)
      else let generation = following g.next_generation in
        let attempt : PeerRecord = record {
          generation = generation;
          state = peer_pending;
          started_at = now;
        } in
        (
          record { peers = insert peer attempt peers; next_generation = generation },
          started generation,
        )

unfoldable pub begin_attempt : PeerRegistry → ℕ → ℕ → PeerRegistry × BeginPeerAttempt
begin_attempt g peer now = elim (lookup peer g.peers) [
  | none ↦ begin_new g peer now
  | some r ↦ if is_active r.state then (g, already_active r.generation) else begin_new g peer now
]

unfoldable pub transition : PeerRegistry → ℕ → ℕ → PeerLifecycle → PeerRegistry × Bool
transition g peer generation state = elim (lookup peer g.peers) [
  | none ↦ (g, false)
  | some r ↦
      if not (r.generation == generation) || is_terminal r.state
      then (g, false)
      else (record g { peers = insert peer (record r { state = state }) g.peers }, true)
]

-- The keys and the generations of the records that a test accepts.
abbrev pub listed : (PeerRecord → Bool) → List (ℕ × PeerRecord) → List (ℕ × ℕ)
listed p [] = []
listed p ((k, r) ∷ m) = let rest = listed p m in if p r then (k, r.generation) ∷ rest else rest

unfoldable pub active_peers : PeerRegistry → List (ℕ × ℕ)
active_peers g = listed (λ r. is_active r.state) g.peers

unfoldable pub is_expired : ℕ → PeerRecord → Bool
is_expired now r = is_peer_pending r.state && leb peer_lookup_timeout (now - r.started_at)

unfoldable pub expired_lookups : PeerRegistry → ℕ → List (ℕ × ℕ)
expired_lookups g now = listed (is_expired now) g.peers

unfoldable pub generation_of : PeerRegistry → ℕ → Option ℕ
generation_of g peer = elim (lookup peer g.peers) [ none ↦ none | some r ↦ some r.generation ]

unfoldable pub state_of : PeerRegistry → ℕ → Option PeerLifecycle
state_of g peer = elim (lookup peer g.peers) [ none ↦ none | some r ↦ some r.state ]

unfoldable pub is_current : PeerRegistry → ℕ → ℕ → Bool
unfolding generation_of
is_current g peer generation = elim (generation_of g peer) [
  | none ↦ false
  | some n ↦ n == generation
]

unfoldable pub pending_peers : PeerRegistry → List (ℕ × ℕ)
pending_peers g = listed (λ r. is_peer_pending r.state) g.peers

unfoldable pub should_initiate_quic : ℕ → ℕ → Bool
should_initiate_quic local peer = ltb local peer

unfoldable pub base_seconds : ℕ → ℕ
base_seconds attempt =
    if attempt == 0
    then 1
    else if attempt == 1
    then 2
    else if attempt == 2
    then 4
    else if attempt == 3
    then 8
    else if attempt == 4
    then 16
    else 30

-- `base + base * jitter / 1000` for a clamped jitter; division rounds towards zero.
unfoldable pub jittered : ℕ → ℤ → ℕ
jittered base (pos n) = base + base * min n 200 / 1000
jittered base (negsuc n) = base - base * min (n + 1) 200 / 1000

-- In milliseconds, for a jitter in per mille.
unfoldable pub reconnect_delay : ℕ → ℤ → ℕ
unfolding base_seconds jittered
reconnect_delay attempt jitter_per_mille =
    min (max (jittered (base_seconds (min attempt 5) * 1000) jitter_per_mille) 250)
      max_reconnect_delay
