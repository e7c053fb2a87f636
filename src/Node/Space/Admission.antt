-- ===== src/Node/Space/Admission.antt =====
-- What the receive-space budget promises of the reservations on one filesystem.
use p2p_file.Common.{
  ℕ, All, ◌%◌, ◌+◌, ◌-◌, max, ◌*◌, ◌≤◌, ◌<◌, ◌≡◌, refl, ◌⊎◌, inl, inr, true, false, List, [], ◌∷◌,
  Option, none, some, if◌then◌else◌, ltb, ◌!=◌, length, arith, Bool-cases, Option-cases,
}
use p2p_file.Common.Bytes.{u64_mod, same_bytes_iff}
use p2p_file.Common.Assoc.{
  lookup, insert, remove, contains_key, contains_key-lookup, IsMap, insert-IsMap, remove-IsMap,
  contains_key-insert, contains_key-remove, lookup-insert, lookup-remove, length-insert,
  length-remove-le,
}
use p2p_file.Node.Space.{
  task_overhead, max_reservations, Filesystem, Probe, Accounts, Round, Result, ok, err, SpaceError,
  same_namespace, same_filesystem, held_from, admit, admitted, reserve_rounds, reserve,
  reserve_file, file_bytes, written, release,
}

-- The bytes reserved on a filesystem.
abbrev pub held_on : Filesystem → List (ℕ × (Filesystem × ℕ)) → ℕ
held_on fs [] = 0
held_on fs ((k, (other, bytes)) ∷ m) =
    (if same_filesystem other fs then bytes else 0) + held_on fs m

pub record IsValid (a : Accounts) : Type 0 where
  pub map : IsMap a.reservations
  pub capacity : length a.reservations ≤ max_reservations
  pub issued : (k : ℕ) → contains_key k a.reservations ≡ true → k ≤ a.nonce
  pub overhead :
      (k : ℕ) (fs : Filesystem) (bytes : ℕ)
      → lookup k a.reservations ≡ some (fs, bytes)
      → task_overhead ≤ bytes

held_from_lem :
    (fs : Filesystem) (m : List (ℕ × (Filesystem × ℕ))) (sum t : ℕ)
    → held_from sum fs m ≡ some t
    → t ≡ sum + held_on fs m
unfolding held_from
held_from_lem fs [] sum t h = ground arith
held_from_lem fs ((k, (other, bytes)) ∷ m) sum t h = elim (Bool-cases (same_filesystem other fs)) [
  | inr e ↦ ground (arith, held_from_lem fs m sum t)
  | inl e ↦ elim (Bool-cases (ltb (sum + bytes) u64_mod)) [
    | inl l ↦ ground (arith, held_from_lem fs m (sum + bytes) t)
    | inr l ↦ absurd (ground arith)
  ]
]

held_on-insert :
    (fs other : Filesystem) (k bytes : ℕ) (m : List (ℕ × (Filesystem × ℕ)))
    → contains_key k m ≡ false
    → held_on fs (insert k (other, bytes) m)
      ≡ (if same_filesystem other fs then bytes else 0) + held_on fs m
held_on-insert fs other k bytes [] h = refl
held_on-insert fs other k bytes ((j, (o, b)) ∷ m) h =
    ground (arith, held_on-insert fs other k bytes m)

held_on-replace :
    (fs other : Filesystem) (k before after : ℕ) (m : List (ℕ × (Filesystem × ℕ)))
    → lookup k m ≡ some (other, before)
    → after ≤ before
    → held_on fs (insert k (other, after) m) ≤ held_on fs m
held_on-replace fs other k before after [] h l = cc
held_on-replace fs other k before after ((j, (o, b)) ∷ m) h l =
    ground (arith, held_on-replace fs other k before after m)

held_on-remove :
    (fs : Filesystem) (k : ℕ) (m : List (ℕ × (Filesystem × ℕ)))
    → held_on fs (remove k m) ≤ held_on fs m
held_on-remove fs k [] = omega arith
held_on-remove fs k ((j, (o, b)) ∷ m) = ground (arith, held_on-remove fs k m)

admit_ok :
    (a b : Accounts) (safety_mib bytes n : ℕ) (space : Probe)
    → a.nonce + 1 < u64_mod
    → admit a safety_mib space bytes ≡ ok (b, n)
    → (length a.reservations < max_reservations)
      × (held_on space.filesystem a.reservations + bytes + safety_mib * 1024 * 1024
          ≤ space.available)
      × (n ≡ a.nonce + 1)
      × (b ≡ admitted a space.filesystem bytes)
unfolding admit
admit_ok a b safety_mib bytes n space u64 h =
    elim (Option-cases (held_from 0 space.filesystem a.reservations)) [
      | inl e ↦ absurd (ground arith)
      | inr (held, e) ↦ ground (arith, held_from_lem space.filesystem a.reservations 0 held e)
    ]

absent :
    (a : Accounts) (n : ℕ) → IsValid a → n ≡ a.nonce + 1 → contains_key n a.reservations ≡ false
absent a n v e = elim (Bool-cases (contains_key n a.reservations)) [
  | inl h ↦ absurd (omega (arith, v.issued n h))
  | inr h ↦ h
]

same_filesystem_refl : (fs : Filesystem) → same_filesystem fs fs ≡ true
same_filesystem_refl fs = ground (arith, namespaces fs.namespace_name)
  where
    namespaces : (o : Option (List ℕ)) → same_namespace o o ≡ true
    namespaces none = refl
    namespaces (some s) = (same_bytes_iff s s).1 refl

-- A reservation that is admitted fits: all that is then reserved on the filesystem, together with
-- the safety margin, is no more than the probe found available. The accounts stay well formed.
pub admit_lem :
    (a b : Accounts) (safety_mib bytes n : ℕ) (space : Probe)
    → IsValid a
    → a.nonce + 1 < u64_mod
    → task_overhead ≤ bytes
    → admit a safety_mib space bytes ≡ ok (b, n)
    → IsValid b
      × (lookup n b.reservations ≡ some (space.filesystem, bytes))
      × (held_on space.filesystem b.reservations + safety_mib * 1024 * 1024 ≤ space.available)
admit_lem a b safety_mib bytes n space v u64 o h =
    let (room, fits, next, same) = admit_ok a b safety_mib bytes n space u64 h in
    let entry : Filesystem × ℕ = (space.filesystem, bytes) in
    let small : (a.nonce + 1) % u64_mod ≡ n = omega arith in
    rw (same, small)
      (
        record {
          map = insert-IsMap n entry a.reservations v.map;
          capacity = ground (arith, length-insert n entry a.reservations, v.capacity);
          issued = λ k c. ground (arith, contains_key-insert n k entry a.reservations, v.issued k);
          overhead = λ k fs was e.
              ground (arith, lookup-insert n k entry a.reservations, v.overhead k fs was);
        },
        ground (arith, lookup-insert n n entry a.reservations),
        ground (
          arith,
          held_on-insert space.filesystem space.filesystem n bytes a.reservations
              (absent a n v next),
          same_filesystem_refl space.filesystem,
        ),
      )

-- The probe of a round whose accounts had one version at both locks.
abbrev pub IsFrom : List Round → Probe → Type 0
IsFrom [] space = ⊥
IsFrom (r ∷ rs) space =
    ((r.probed ≡ ok space) × (r.second.version ≡ r.first.version)) ⊎ IsFrom rs space

Result-cases : (c : Result Probe) → ((p : Probe) × (c ≡ ok p)) ⊎ ((e : SpaceError) × (c ≡ err e))
Result-cases (ok p) = inl (p, refl)
Result-cases (err e) = inr (e, refl)

reserve_rounds_lem :
    (rs : List Round) (b : Accounts) (safety_mib bytes n : ℕ)
    → All (λ r. IsValid r.second × (r.second.nonce + 1 < u64_mod)) rs
    → task_overhead ≤ bytes
    → reserve_rounds rs safety_mib bytes ≡ ok (b, n)
    → (space : Probe) × IsFrom rs space
      × IsValid b
      × (lookup n b.reservations ≡ some (space.filesystem, bytes))
      × (held_on space.filesystem b.reservations + safety_mib * 1024 * 1024 ≤ space.available)
unfolding reserve_rounds
reserve_rounds_lem [] b safety_mib bytes n v o h = absurd (ground arith)
reserve_rounds_lem (r ∷ rs) b safety_mib bytes n v o h = elim (Result-cases r.probed) [
  | inr (e, p) ↦ absurd (ground arith)
  | inl (space, p) ↦ elim (Bool-cases (r.second.version != r.first.version)) [
    | inl q ↦
        let (s, f, w, l, fits) = reserve_rounds_lem rs b safety_mib bytes n v.1 o (ground arith) in
        (s, inr f, w, l, fits)
    | inr q ↦
        let (w, l, fits) =
          admit_lem r.second b safety_mib bytes n space v.0.0 v.0.1 o (ground arith) in
        (space, inl (p, ground arith), w, l, fits)
  ]
]

-- A reservation that succeeds, from well-formed accounts whose nonces last and for at least the
-- overhead of a task, comes from a round whose accounts had one version at both locks, and all
-- that is then reserved on the probed filesystem fits with the safety margin into what the probe
-- found.
pub reserve_lem :
    (r1 r2 r3 r4 : Round) (b : Accounts) (safety_mib bytes n : ℕ)
    → All (λ r. IsValid r.second × (r.second.nonce + 1 < u64_mod)) (r1 ∷ r2 ∷ r3 ∷ r4 ∷ [])
    → task_overhead ≤ bytes
    → reserve r1 r2 r3 r4 safety_mib bytes ≡ ok (b, n)
    → (space : Probe) × IsFrom (r1 ∷ r2 ∷ r3 ∷ r4 ∷ []) space
      × IsValid b
      × (lookup n b.reservations ≡ some (space.filesystem, bytes))
      × (held_on space.filesystem b.reservations + safety_mib * 1024 * 1024 ≤ space.available)
unfolding reserve
reserve_lem r1 r2 r3 r4 b safety_mib bytes n v o h =
    reserve_rounds_lem (r1 ∷ r2 ∷ r3 ∷ r4 ∷ []) b safety_mib bytes n v o h

-- A reservation for a file that succeeds, from well-formed accounts whose nonces last, holds the
-- missing bytes and the overhead of a task, and all that is then reserved on the probed
-- filesystem fits with the safety margin into what a probe found whose accounts had one version
-- at both locks.
pub reserve_file_lem :
    (opened : Result (Unit {0})) (staging target : Result Probe) (remaining : ℕ)
    (r1 r2 r3 r4 : Round) (b : Accounts) (safety_mib n : ℕ)
    → All (λ r. IsValid r.second × (r.second.nonce + 1 < u64_mod)) (r1 ∷ r2 ∷ r3 ∷ r4 ∷ [])
    → reserve_file opened staging target remaining r1 r2 r3 r4 safety_mib ≡ ok (b, n)
    → (space : Probe) × IsFrom (r1 ∷ r2 ∷ r3 ∷ r4 ∷ []) space
      × (lookup n b.reservations ≡ some (space.filesystem, remaining + task_overhead))
      × (held_on space.filesystem b.reservations + safety_mib * 1024 * 1024 ≤ space.available)
unfolding reserve_file file_bytes
reserve_file_lem opened staging target remaining r1 r2 r3 r4 b safety_mib n v h =
    let bytes : ℕ = remaining + task_overhead in
    let called : reserve r1 r2 r3 r4 safety_mib bytes ≡ ok (b, n) = ground arith in
    let (space, f, w, l, fits) =
      reserve_lem r1 r2 r3 r4 b safety_mib bytes n v (omega arith) called in
    (space, f, l, fits)

written_lem :
    (a : Accounts) (nonce bytes : ℕ) (fs : Filesystem)
    → IsValid a
    → IsValid (written a nonce bytes)
      × (held_on fs (written a nonce bytes).reservations ≤ held_on fs a.reservations)
unfolding written
written_lem a nonce bytes fs v = elim (Option-cases (lookup nonce a.reservations)) [
  | inl e ↦ rw (written, e) (v, omega arith)
  | inr ((other, remaining), e) ↦
      let left : ℕ = max (remaining - bytes) task_overhead in
      let entry : Filesystem × ℕ = (other, left) in
      rw (written, e)
        (
          record {
            map = insert-IsMap nonce entry a.reservations v.map;
            capacity = ground (
              arith,
              length-insert nonce entry a.reservations,
              v.capacity,
              contains_key-lookup nonce a.reservations,
            );
            issued = λ k c. ground (
              arith,
              contains_key-insert nonce k entry a.reservations,
              contains_key-lookup nonce a.reservations,
              v.issued k,
              v.issued nonce,
            );
            overhead = λ k o was c.
                ground (arith, lookup-insert nonce k entry a.reservations, v.overhead k o was);
          },
          held_on-replace fs other nonce remaining left a.reservations e
              (omega (arith, v.overhead nonce other remaining e)),
        )
]

-- Progress and the end of a reservation keep well-formed accounts well formed, no filesystem has
-- more reserved on it than before, and a released reservation is gone.
pub written-release :
    (a : Accounts) (nonce bytes : ℕ) (fs : Filesystem)
    → IsValid a
    → IsValid (written a nonce bytes)
      × IsValid (release a nonce)
      × (held_on fs (written a nonce bytes).reservations ≤ held_on fs a.reservations)
      × (held_on fs (release a nonce).reservations ≤ held_on fs a.reservations)
      × (lookup nonce (release a nonce).reservations ≡ none)
unfolding release
written-release a nonce bytes fs v =
    let (w, h) = written_lem a nonce bytes fs v in
    (
      w,
      record {
        map = remove-IsMap nonce a.reservations v.map;
        capacity = omega (arith, v.capacity, length-remove-le nonce a.reservations);
        issued = λ k c. ground (arith, contains_key-remove nonce k a.reservations, v.issued k);
        overhead =
            λ k o was e. ground (arith, lookup-remove nonce k a.reservations, v.overhead k o was);
      },
      h,
      held_on-remove fs nonce a.reservations,
      ground (arith, lookup-remove nonce nonce a.reservations),
    )
