-- ===== src/Node/Activity/Exclusion.antt =====
-- Files and a speed test with one peer exclude each other, and permits are counted.
use p2p_file.Common.{
  ℕ, ◌+◌, ◌-◌, ◌≡◌, refl, ◌↔◌, inl, inr, true, not, ◌&&◌, ◌||◌, List, [], ◌∷◌, none, some,
  if◌then◌else◌, ltb, ◌==◌, arith, Option-cases,
}
use p2p_file.Common.Bytes.{u64_mod}
use p2p_file.Common.Assoc.{lookup, insert, lookup-insert, lookup-remove}
use p2p_file.Node.Activity.{
  State, Entry, ok, err, speed_running, entry_of, is_running, is_idle, idle, add_file, speed, prune,
  drop_file, drop_speed, is_speed, can_speed, speed_active,
}

-- How many files of a peer are active, and the speed test with it.
unfoldable pub view : State → ℕ → Entry
view s k = entry_of (lookup k s.peers)

-- No peer has files and a speed test at once.
abbrev pub IsExclusive : State → Type 0
IsExclusive s = (k : ℕ) → ((view s k).files == 0 || not (is_running (view s k).speed)) ≡ true

pub data Op : Type 0 where
  adds : ℕ → Op
  speeds : ℕ → ℕ → Op
  drops : ℕ → Op
  speed_drops : ℕ → ℕ → Op

unfoldable pub step : State → Op → State
step s (adds peer) = (add_file s peer).0
step s (speeds peer id) = (speed s peer id).0
step s (drops peer) = drop_file s peer
step s (speed_drops peer id) = drop_speed s peer id

unfoldable pub run : State → List Op → State
run s [] = s
run s (o ∷ os) = run (step s o) os

-- What an operation means for one peer, without the map.
unfoldable pub meaning : Op → ℕ → Entry → Entry
meaning (adds peer) k e =
    if peer == k && not (is_running e.speed) && ltb (e.files + 1) u64_mod
    then record e { files = e.files + 1 }
    else e
meaning (speeds peer id) k e = if peer == k && is_idle e then record e { speed = some id } else e
meaning (drops peer) k e = if peer == k then record e { files = e.files - 1 } else e
meaning (speed_drops peer id) k e =
    if peer == k && is_speed e.speed id then record e { speed = none } else e

idle_entry : (e : Entry) → is_idle e ≡ true → idle ≡ e
idle_entry e h = elim (Option-cases e.speed) [
  | inl q ↦ let z : e.files ≡ 0 = ground arith in rw (z, q) refl
  | inr (i, q) ↦ absurd (ground arith)
]

here : (peer k : ℕ) → (peer == k) ≡ true → peer ≡ k
here peer k h = ground arith

view-prune : (s : State) (peer k : ℕ) → view (prune s peer) k ≡ view s k
unfolding view prune
view-prune s peer k = elim (Option-cases (lookup peer s.peers)) [
  | inl n ↦ ground arith
  | inr (e, n) ↦ ground (arith, lookup-remove peer k s.peers, idle_entry e, here peer k)
]

view-insert :
    (m : List (ℕ × Entry)) (peer k : ℕ) (e : Entry)
    → view (record { peers = insert peer e m }) k
      ≡ (if peer == k then e else view (record { peers = m }) k)
unfolding view
view-insert m peer k e = ground (arith, lookup-insert peer k e m)

-- Every operation on the shared map of files and speed tests does to the entry of each peer what
-- it means for that peer alone.
pub step_lem : (s : State) (o : Op) (k : ℕ) → view (step s o) k ≡ meaning o k (view s k)
unfolding step meaning view
step_lem s (adds peer) k =
    let e = entry_of (lookup peer s.peers) in
    unfold add_file in
    ground (
      arith,
      lookup-insert peer k e s.peers,
      lookup-insert peer k (record e { files = e.files + 1 }) s.peers,
      here peer k,
    )
step_lem s (speeds peer id) k =
    let e = entry_of (lookup peer s.peers) in
    unfold speed in
    ground (
      arith,
      lookup-insert peer k e s.peers,
      lookup-insert peer k (record e { speed = some id }) s.peers,
      here peer k,
    )
step_lem s (drops peer) k = elim (Option-cases (lookup peer s.peers)) [
  | inl n ↦ unfold drop_file in ground (arith, here peer k)
  | inr (e, n) ↦
      let m = insert peer (record e { files = e.files - 1 }) s.peers in
      unfold drop_file in
      ground (
        arith,
        view-prune (record { peers = m }) peer k,
        lookup-insert peer k (record e { files = e.files - 1 }) s.peers,
        here peer k,
      )
]
step_lem s (speed_drops peer id) k = elim (Option-cases (lookup peer s.peers)) [
  | inl n ↦ unfold drop_speed in ground (arith, here peer k, view-prune s peer k)
  | inr (e, n) ↦
      let m = insert peer (record e { speed = none }) s.peers in
      unfold drop_speed in
      ground (
        arith,
        view-prune (record { peers = m }) peer k,
        view-prune s peer k,
        lookup-insert peer k (record e { speed = none }) s.peers,
        here peer k,
      )
]

meaning_exclusive :
    (o : Op) (k : ℕ) (e : Entry)
    → (e.files == 0 || not (is_running e.speed)) ≡ true
    → ((meaning o k e).files == 0 || not (is_running (meaning o k e).speed)) ≡ true
unfolding meaning
meaning_exclusive (adds peer) k e h = ground arith
meaning_exclusive (speeds peer id) k e h = ground arith
meaning_exclusive (drops peer) k e h = ground arith
meaning_exclusive (speed_drops peer id) k e h = ground arith

-- From a state in which no peer has files and a speed test at once, no sequence of operations
-- leads to one.
pub run-IsExclusive : (s : State) (os : List Op) → IsExclusive s → IsExclusive (run s os)
unfolding run
run-IsExclusive s [] h = h
run-IsExclusive s (o ∷ os) h =
    run-IsExclusive (step s o) os
      (λ k. rw (step_lem s o k) (meaning_exclusive o k (view s k) (h k)))

-- can_speed tells whether the peer is idle, a speed test starts exactly if it does, and a file is
-- refused while a speed test runs.
pub refusals :
    (s : State) (peer id : ℕ)
    → (can_speed s peer ≡ is_idle (view s peer))
      × (((speed s peer id).1 ≡ ok) ↔ (can_speed s peer ≡ true))
      × (speed_active s peer ≡ true → (add_file s peer).1 ≡ err speed_running)
unfolding can_speed speed speed_active add_file view
refusals s peer id = elim (Option-cases (lookup peer s.peers)) [
  | inl n ↦ ground arith
  | inr (e, n) ↦ ground arith
]
