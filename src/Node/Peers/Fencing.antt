-- ===== src/Node/Peers/Fencing.antt =====
-- The bounds of the peer registry, and the fencing of late callbacks by generations.
use p2p_file.Common.{
  ℕ, ◌+◌, ◌*◌, ◌≤◌, ◌<◌, ◌≡◌, ◌≢◌, refl, ◌∙◌, ◌⊎◌, inl, inr, Bool, true, false, not, ◌||◌, List, [],
  ◌∷◌, Option, none, some, if◌then◌else◌, leb, ◌==◌, length, arith, Bool-cases, Option-cases,
}
use p2p_file.Common.Bytes.{u64_mod}
use p2p_file.Common.Ints.{ℤ, pos, negsuc}
use p2p_file.Common.Assoc.{
  lookup, insert, remove, count_values, IsMap, insert-IsMap, remove-IsMap, lookup-insert,
  lookup-remove, length-insert, length-remove-le, contains_key, contains_key-lookup,
}
use p2p_file.Node.Peers.{
  max_peers, max_pending_peers, PeerLifecycle, peer_pending, started, PeerRecord, PeerRegistry,
  pending_record, is_terminal, older, oldest_terminal, make_room, following, begin_new,
  begin_attempt, transition, state_of, generation_of, base_seconds, jittered, reconnect_delay,
}

pub record IsValid (g : PeerRegistry) : Type 0 where
  pub map : IsMap g.peers
  pub capacity : length g.peers ≤ max_peers
  pub issued :
      (k : ℕ) (r : PeerRecord) → lookup k g.peers ≡ some r → r.generation ≤ g.next_generation

count_values-insert_le :
    (p : PeerRecord → Bool) (k : ℕ) (v : PeerRecord) (m : List (ℕ × PeerRecord))
    → count_values p (insert k v m) ≤ (if p v then 1 else 0) + count_values p m
count_values-insert_le p k v [] = omega arith
count_values-insert_le p k v ((j, w) ∷ m) = ground (arith, count_values-insert_le p k v m)

count_values-remove_le :
    (p : PeerRecord → Bool) (k : ℕ) (m : List (ℕ × PeerRecord))
    → count_values p (remove k m) ≤ count_values p m
count_values-remove_le p k [] = omega arith
count_values-remove_le p k ((j, w) ∷ m) = ground (arith, count_values-remove_le p k m)

from_older :
    (k j : ℕ) (r s : PeerRecord) (o : Option (ℕ × PeerRecord))
    → older (k, r) o ≡ some (j, s)
    → ((k ≡ j) × (r ≡ s)) ⊎ (o ≡ some (j, s))
from_older k j r s none h = inl (ground arith, ground arith)
from_older k j r s (some (i, t)) h = elim (Bool-cases (leb r.generation t.generation)) [
  | inl e ↦ inl (ground arith, ground arith)
  | inr e ↦ inr (ground arith)
]

contains_some :
    (k : ℕ) (r : PeerRecord) (m : List (ℕ × PeerRecord))
    → lookup k m ≡ some r
    → contains_key k m ≡ true
contains_some k r m h = ground (arith, contains_key-lookup k m)

oldest_terminal_lem :
    (m : List (ℕ × PeerRecord)) (k : ℕ) (r : PeerRecord)
    → IsMap m
    → oldest_terminal m ≡ some (k, r)
    → (is_terminal r.state ≡ true) × (lookup k m ≡ some r)
oldest_terminal_lem [] k r u h = cc
oldest_terminal_lem ((j, s) ∷ m) k r u h = elim (Bool-cases (is_terminal s.state)) [
  | inr e ↦
      let q : oldest_terminal m ≡ some (k, r) = ground arith in
      later (oldest_terminal_lem m k r u.1 q)
  | inl e ↦ elim (from_older j k s r (oldest_terminal m) (ground arith)) [
    | inl (p, q) ↦ ground arith
    | inr q ↦ later (oldest_terminal_lem m k r u.1 q)
  ]
]
  where
    later :
        (is_terminal r.state ≡ true) × (lookup k m ≡ some r)
        → (is_terminal r.state ≡ true) × (lookup k ((j, s) ∷ m) ≡ some r)
    later (a, b) = ground (arith, contains_some k r m b)

-- The record of a peer is as it was, or it was at its end and is gone.
abbrev pub IsKeptOrEvicted : List (ℕ × PeerRecord) → List (ℕ × PeerRecord) → ℕ → Type 0
IsKeptOrEvicted old new k =
    (lookup k new ≡ lookup k old)
    ⊎ ((r : PeerRecord) × (lookup k old ≡ some r)
        × (is_terminal r.state ≡ true)
        × (lookup k new ≡ none))

make_room_lem :
    (m : List (ℕ × PeerRecord))
    → IsMap m
    → IsMap (make_room m)
      × (length (make_room m) ≤ length m)
      × (count_values pending_record (make_room m) ≤ count_values pending_record m)
      × ((k : ℕ) → IsKeptOrEvicted m (make_room m) k)
unfolding make_room
make_room_lem m u = elim (Bool-cases (leb max_peers (length m))) [
  | inr e ↦ rw e (u, omega arith, omega arith, λ k. inl refl)
  | inl e ↦ elim (Option-cases (oldest_terminal m)) [
    | inl n ↦ rw (e, n) (u, omega arith, omega arith, λ k. inl refl)
    | inr ((j, r), n) ↦
        let (t, at) = oldest_terminal_lem m j r u n in
        rw (e, n)
          (
            remove-IsMap j m u,
            length-remove-le j m,
            count_values-remove_le pending_record j m,
            λ k. elim (Bool-cases (j == k)) [
              | inl q ↦ inr (r, ground arith, t, ground (arith, lookup-remove j k m))
              | inr q ↦ inl (ground (arith, lookup-remove j k m))
            ],
          )
  ]
]

begin_new_lem :
    (g s : PeerRegistry) (peer now n : ℕ)
    → begin_new g peer now ≡ (s, started n)
    → (count_values pending_record g.peers < max_pending_peers)
      × (length (make_room g.peers) < max_peers)
      × (n ≡ following g.next_generation)
      × (s ≡ record {
        peers =
            insert peer
              (record { generation = n; state = peer_pending; started_at = now })
              (make_room g.peers);
        next_generation = n;
      })
unfolding begin_new
begin_new_lem g s peer now n h = ground arith

begin_attempt_new :
    (g s : PeerRegistry) (peer now n : ℕ)
    → begin_attempt g peer now ≡ (s, started n)
    → begin_new g peer now ≡ (s, started n)
unfolding begin_attempt
begin_attempt_new g s peer now n h = ground arith

fresh : (n : ℕ) → n + 1 < u64_mod → following n ≡ n + 1
unfolding following
fresh n h = ground arith

kept_issued :
    (g : PeerRegistry) (k : ℕ) (t : PeerRecord)
    → IsKeptOrEvicted g.peers (make_room g.peers) k
    → (lookup k g.peers ≡ some t → t.generation ≤ g.next_generation)
    → lookup k (make_room g.peers) ≡ some t
    → t.generation ≤ g.next_generation
kept_issued g k t (inl e) h l = h (ground arith)
kept_issued g k t (inr (r, a, b, c)) h l = absurd (ground arith)

still :
    (n old new : List (ℕ × PeerRecord)) (k : ℕ)
    → lookup k n ≡ lookup k new
    → IsKeptOrEvicted old new k
    → IsKeptOrEvicted old n k
still n old new k h (inl e) = inl (h ∙ e)
still n old new k h (inr (r, a, b, c)) = inr (r, a, b, h ∙ c)

-- An attempt that starts in a well-formed registry whose generations last leaves a well-formed
-- registry with at most 8 pending peers; the peer is pending under the next generation, and every
-- other record is as it was or was at its end and has made room.
pub begin_attempt_started :
    (g s : PeerRegistry) (peer now n : ℕ)
    → IsValid g
    → g.next_generation + 1 < u64_mod
    → begin_attempt g peer now ≡ (s, started n)
    → IsValid s
      × (n ≡ g.next_generation + 1)
      × (state_of s peer ≡ some peer_pending)
      × (generation_of s peer ≡ some n)
      × (count_values pending_record s.peers ≤ max_pending_peers)
      × ((k : ℕ) → k ≢ peer → IsKeptOrEvicted g.peers s.peers k)
unfolding state_of generation_of
begin_attempt_started g s peer now n v u64 h =
    let (few, room, next, same) =
      begin_new_lem g s peer now n (begin_attempt_new g s peer now n h) in
    let (u, l, c, kept) = make_room_lem g.peers v.map in
    let r : PeerRecord = record { generation = n; state = peer_pending; started_at = now } in
    let m : List (ℕ × PeerRecord) = make_room g.peers in
    rw same (
      record {
        map = insert-IsMap peer r m u;
        capacity = ground (arith, length-insert peer r m);
        issued = λ k t e. ground (
          arith,
          lookup-insert peer k r m,
          fresh g.next_generation u64,
          kept_issued g k t (kept k) (v.issued k t),
        );
      },
      ground (arith, fresh g.next_generation u64),
      ground (arith, lookup-insert peer peer r m),
      ground (arith, lookup-insert peer peer r m),
      omega (arith, count_values-insert_le pending_record peer r m),
      λ k d.
          still (insert peer r m) g.peers m k (ground (arith, lookup-insert peer k r m)) (kept k),
    )

-- A callback changes the registry exactly if its generation is the one of the record of the peer
-- and the record is not at its end; it then sets the state of that peer only and keeps the
-- registry well formed.
pub transition_cases :
    (g : PeerRegistry) (peer n : ℕ) (state : PeerLifecycle)
    → ((transition g peer n state ≡ (g, false))
        × ((r : PeerRecord)
            → lookup peer g.peers ≡ some r
            → (r.generation ≢ n) ⊎ (is_terminal r.state ≡ true)))
      ⊎ ((s : PeerRegistry) × (r : PeerRecord) × (transition g peer n state ≡ (s, true))
          × (lookup peer g.peers ≡ some r)
          × (r.generation ≡ n)
          × (is_terminal r.state ≡ false)
          × ((k : ℕ)
              → lookup k s.peers
                ≡ (if peer == k then some (record r { state = state }) else lookup k g.peers))
          × (IsValid g → IsValid s))
unfolding transition
transition_cases g peer n state = elim (Option-cases (lookup peer g.peers)) [
  | inl e ↦ inl (rw (transition, e) refl, λ r h. absurd (ground arith))
  | inr (r, e) ↦ elim (Bool-cases (not (r.generation == n) || is_terminal r.state)) [
    | inl b ↦ inl (rw (transition, e, b) refl, λ t h. refused r t (ground arith) b)
    | inr b ↦
        let t : PeerRecord = record r { state = state } in
        inr (
          record g { peers = insert peer t g.peers },
          r,
          rw (transition, e, b) refl,
          e,
          ground arith,
          ground arith,
          λ k. lookup-insert peer k t g.peers,
          λ v. record {
            map = insert-IsMap peer t g.peers v.map;
            capacity =
                ground
                  (arith, v.capacity, length-insert peer t g.peers, contains_some peer r g.peers e);
            issued = λ k u h.
                ground (arith, lookup-insert peer k t g.peers, v.issued k u, v.issued peer r e);
          },
        )
  ]
]
  where
    refused :
        (r t : PeerRecord)
        → r ≡ t
        → (not (r.generation == n) || is_terminal r.state) ≡ true
        → (t.generation ≢ n) ⊎ (is_terminal t.state ≡ true)
    refused r t same b = elim (Bool-cases (is_terminal r.state)) [
      | inl q ↦ inr (rw⁻¹ same q)
      | inr q ↦ inl (rw⁻¹ same (λ p. ground arith))
    ]

-- In a well-formed registry whose generations last, when a peer with a record gets a new attempt,
-- a callback under the generation of the old record changes nothing.
pub stale_callback :
    (g s : PeerRegistry) (peer now n : ℕ) (r : PeerRecord) (state : PeerLifecycle)
    → IsValid g
    → g.next_generation + 1 < u64_mod
    → lookup peer g.peers ≡ some r
    → begin_attempt g peer now ≡ (s, started n)
    → transition s peer r.generation state ≡ (s, false)
unfolding generation_of
stale_callback g s peer now n r state v u64 e h =
    let (w, next, p, q, c, kept) = begin_attempt_started g s peer now n v u64 h in
    elim (transition_cases s peer r.generation state) [
      | inl (t, why) ↦ t
      | inr (t, o, a, b, d, l, k, i) ↦ absurd (ground (arith, v.issued peer r e))
    ]

-- The delay before a reconnection lies between a quarter of a second and half a minute, at least
-- four fifths and at most six fifths of the base delay of the attempt.
pub reconnect_delay_bounds :
    (attempt : ℕ) (jitter : ℤ)
    → (250 ≤ reconnect_delay attempt jitter)
      × (reconnect_delay attempt jitter ≤ 30000)
      × (800 * base_seconds attempt ≤ reconnect_delay attempt jitter)
      × (reconnect_delay attempt jitter ≤ 1200 * base_seconds attempt)
unfolding reconnect_delay base_seconds jittered
reconnect_delay_bounds attempt (pos n) = ground arith
reconnect_delay_bounds attempt (negsuc n) = ground arith
