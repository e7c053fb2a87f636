-- ===== src/Node/Queue/Admission.antt =====
-- The pending list: `enqueue` admits a whole batch or nothing, and the queue stays well formed.
use mathlib.Core.List.{append-nil, append_assoc}
use p2p_file.Common.{
  ℕ, zero, suc, ◌≤◌, ◌<◌, ◌≡◌, ◌≢◌, refl, ◌∙◌, ap, sym, subst, Bool, true, false, List, [], ◌∷◌,
  ◌⊎◌, ◌++◌, none, some, if◌then◌else◌, ◌==◌, length, length-append, All, arith, Bool-cases, inl,
  inr, Option-cases, get_elem?,
}
use p2p_file.Common.Assoc.{lookup, contains_key, contains_key-lookup}
use p2p_file.Node.Queue.{
  TaskQueue, QueueEntry, Error, Result, ok, err, max_queued, find, or_else, same_entry, admit,
  admit_each, enqueue, position, remove_at, remove_queued,
}

-- No two pending entries share an identifier.
abbrev pub Distinct : List QueueEntry → Type 0
Distinct [] = Unit
Distinct (e ∷ es) = (find e.id es ≡ none) × Distinct es

-- What holds of the pending entries beside the active ones.
pub record PendingValid (active : List (ℕ × QueueEntry)) (pending : List QueueEntry) : Type 0 where
  pub distinct : Distinct pending
  pub disjoint : (k : ℕ) → contains_key k active ≡ true → find k pending ≡ none
  pub bounded : length pending ≤ max_queued

pub Result-cases {ℓ} :
    {A : Type ℓ} (r : Result A) → ((a : A) × (r ≡ ok a)) ⊎ ((e : Error) × (r ≡ err e))
Result-cases (ok a) = inl (a, refl)
Result-cases (err e) = inr (e, refl)

find-append :
    (k : ℕ) (xs ys : List QueueEntry) → find k (xs ++ ys) ≡ or_else (find k xs) (find k ys)
find-append k [] ys = refl
find-append k (x ∷ xs) ys = ground (arith, find-append k xs ys)

Distinct-append :
    (xs : List QueueEntry) (e : QueueEntry)
    → Distinct xs
    → find e.id xs ≡ none
    → Distinct (xs ++ (e ∷ []))
Distinct-append [] e d h = (refl, tt)
Distinct-append (x ∷ xs) e d h =
    (find-append x.id xs (e ∷ []) ∙ ground arith, Distinct-append xs e d.1 (ground arith))

admit-PendingValid :
    (active : List (ℕ × QueueEntry)) (candidate : List QueueEntry) (entry : QueueEntry)
    (out : List QueueEntry)
    → PendingValid active candidate
    → admit active candidate entry ≡ ok out
    → PendingValid active out
unfolding admit
admit-PendingValid active candidate entry out v h =
    elim (Option-cases (or_else (lookup entry.id active) (find entry.id candidate))) [
      | inr (e, q) ↦ record {
        distinct = ground (arith, v.distinct);
        disjoint = λ k c. ground (arith, v.disjoint k c);
        bounded = ground (arith, v.bounded);
      }
      | inl q ↦ record {
        distinct = ground (arith, Distinct-append candidate entry v.distinct);
        disjoint = λ k c. ground (
          arith,
          v.disjoint k c,
          find-append k candidate (entry ∷ []),
          contains_key-lookup k active,
        );
        bounded = ground (arith, v.bounded, length-append candidate (entry ∷ []));
      }
    ]

admit_each-PendingValid :
    (active : List (ℕ × QueueEntry)) (candidate entries : List QueueEntry) (out : List QueueEntry)
    → PendingValid active candidate
    → admit_each active candidate entries ≡ ok out
    → PendingValid active out
unfolding admit_each
admit_each-PendingValid active candidate [] out v h =
    ground (arith, v.distinct, v.disjoint, v.bounded)
admit_each-PendingValid active candidate (entry ∷ rest) out v h =
    elim (Result-cases (admit active candidate entry)) [
      | inl (next, e) ↦
          admit_each-PendingValid active next rest out
            (admit-PendingValid active candidate entry next v e) (ground arith)
      | inr (x, e) ↦ absurd (ground arith)
    ]

pub find_of_get :
    (xs : List QueueEntry) (i : ℕ) (e : QueueEntry) → get_elem? xs i ≡ some e → find e.id xs ≢ none
find_of_get [] i e h = λ _. cc
find_of_get (x ∷ xs) zero e h = λ n. ground arith
find_of_get (x ∷ xs) (suc i) e h = λ n. ground (arith, find_of_get xs i e h)

-- Taking one entry out.
pub find-remove_at :
    (xs : List QueueEntry) (i : ℕ) (e : QueueEntry) (k : ℕ)
    → get_elem? xs i ≡ some e
    → Distinct xs
    → find k (remove_at i xs) ≡ (if e.id == k then none else find k xs)
find-remove_at [] i e k h d = cc
find-remove_at (x ∷ xs) zero e k h d = ground (arith, d.0)
find-remove_at (x ∷ xs) (suc i) e k h d =
    ground (arith, find-remove_at xs i e k h d.1, find_of_get xs i e h)

pub Distinct-remove_at : (xs : List QueueEntry) (i : ℕ) → Distinct xs → Distinct (remove_at i xs)
Distinct-remove_at [] i d = tt
Distinct-remove_at (x ∷ xs) zero d = d.1
Distinct-remove_at (x ∷ xs) (suc i) d = (still xs i d.0, Distinct-remove_at xs i d.1)
  where
    still : (ys : List QueueEntry) (j : ℕ) → find x.id ys ≡ none → find x.id (remove_at j ys) ≡ none
    still [] j h = refl
    still (y ∷ ys) zero h = ground arith
    still (y ∷ ys) (suc j) h = ground (arith, still ys j)

pub length-remove_at_le : (xs : List QueueEntry) (i : ℕ) → length (remove_at i xs) ≤ length xs
length-remove_at_le [] i = omega arith
length-remove_at_le (x ∷ xs) zero = omega arith
length-remove_at_le (x ∷ xs) (suc i) = omega (arith, length-remove_at_le xs i)

-- `position` finds the first entry that the test accepts.
pub position_lem :
    (p : QueueEntry → Bool) (xs : List QueueEntry) (i : ℕ)
    → position p xs ≡ some i
    → (e : QueueEntry) × (get_elem? xs i ≡ some e)
      × (p e ≡ true)
      × ((j : ℕ) (f : QueueEntry) → j < i → get_elem? xs j ≡ some f → p f ≡ false)
position_lem p [] i h = cc
position_lem p (x ∷ xs) zero h = elim (Bool-cases (p x)) [
  | inl e ↦ (x, refl, e, λ j f l. elim l [ ])
  | inr e ↦ absurd (ground arith)
]
position_lem p (x ∷ xs) (suc i) h = elim (Bool-cases (p x)) [
  | inl e ↦ absurd (ground arith)
  | inr e ↦ let (y, g, t, first) = position_lem p xs i (ground arith) in (y, g, t, earlier e first)
]
  where
    earlier :
        p x ≡ false
        → ((j : ℕ) (f : QueueEntry) → j < i → get_elem? xs j ≡ some f → p f ≡ false)
        → (j : ℕ) (f : QueueEntry) → j < suc i
        → get_elem? (x ∷ xs) j ≡ some f
        → p f ≡ false
    earlier e first zero f l q = ground (arith, e)
    earlier e first (suc j) f l q = first j f (omega arith) q

-- `position` finds nothing only if the test accepts nothing.
pub position_absent :
    (p : QueueEntry → Bool) (xs : List QueueEntry) (j : ℕ) (f : QueueEntry)
    → position p xs ≡ none
    → get_elem? xs j ≡ some f
    → p f ≡ false
position_absent p [] j f h g = cc
position_absent p (x ∷ xs) zero f h g = ground arith
position_absent p (x ∷ xs) (suc j) f h g = position_absent p xs j f (ground arith) g

-- The entry is active or pending, bound as given.
abbrev pub Bound : List (ℕ × QueueEntry) → List QueueEntry → QueueEntry → Type 0
Bound active pending e =
    (e' : QueueEntry) × (or_else (lookup e.id active) (find e.id pending) ≡ some e')
    × (same_entry e' e ≡ true)

abbrev pub Extends : List QueueEntry → List QueueEntry → ℕ → Type 0
Extends old new most = (added : List QueueEntry) × (new ≡ old ++ added) × (length added ≤ most)

same_entry_refl : (e : QueueEntry) → same_entry e e ≡ true
same_entry_refl e = elim (Bool-cases e.metadata) [ inl h ↦ ground arith | inr h ↦ ground arith ]

Bound-append :
    (active : List (ℕ × QueueEntry)) (c added : List QueueEntry) (e : QueueEntry)
    → Bound active c e
    → Bound active (c ++ added) e
Bound-append active c added e (e', f, s) = (e', ground (arith, find-append e.id c added), s)

admit_lem :
    (active : List (ℕ × QueueEntry)) (c : List QueueEntry) (entry : QueueEntry)
    (out : List QueueEntry)
    → admit active c entry ≡ ok out
    → Extends c out 1 × Bound active out entry
unfolding admit
admit_lem active c entry out h =
    elim (Option-cases (or_else (lookup entry.id active) (find entry.id c))) [
      | inr (e, q) ↦
          (([], ground (arith, append-nil c), omega arith), (e, ground arith, ground arith))
      | inl q ↦ (
        (entry ∷ [], ground arith, omega arith),
        (entry, ground (arith, find-append entry.id c (entry ∷ [])), same_entry_refl entry),
      )
    ]

admit_each_lem :
    (active : List (ℕ × QueueEntry)) (c entries : List QueueEntry) (out : List QueueEntry)
    → admit_each active c entries ≡ ok out
    → Extends c out (length entries) × All (Bound active out) entries
unfolding admit_each
admit_each_lem active c [] out h = (([], ground (arith, append-nil c), omega arith), tt)
admit_each_lem active c (entry ∷ rest) out h = elim (Result-cases (admit active c entry)) [
  | inr (x, e) ↦ absurd (ground arith)
  | inl (next, e) ↦
      let ((a, p, l), b) = admit_lem active c entry next e in
      let ((a', p', l'), b') = admit_each_lem active next rest out (ground arith) in
      (
        (
          a ++ a',
          p' ∙ ap (λ t. t ++ a') p ∙ append_assoc c a a',
          omega (arith, length-append a a'),
        ),
        (subst (λ t. Bound active t entry) (sym p') (Bound-append active next a' entry b), b'),
      )
]

-- A batch that is accepted beside a well-formed pending list leaves the active entries alone,
-- extends the pending list at its end by at most the batch, keeps it well formed, and afterwards
-- every entry of the batch is active or pending with the same binding.
pub enqueue_lem :
    (q : TaskQueue) (entries : List QueueEntry) (r : TaskQueue)
    → PendingValid q.active q.pending
    → enqueue q entries ≡ ok r
    → PendingValid r.active r.pending
      × (r.active ≡ q.active)
      × Extends q.pending r.pending (length entries)
      × All (Bound r.active r.pending) entries
unfolding enqueue
enqueue_lem q entries r v h = elim (Result-cases (admit_each q.active q.pending entries)) [
  | inr (x, e) ↦ absurd (ground arith)
  | inl (out, e) ↦
      let (x, b) = admit_each_lem q.active q.pending entries out e in
      let same : r ≡ record q { pending = out } = ground arith in
      rw same (admit_each-PendingValid q.active q.pending entries out v e, refl, x, b)
]

position-none :
    (k : ℕ) (xs : List QueueEntry) → position (λ e. e.id == k) xs ≡ none → find k xs ≡ none
position-none k [] h = refl
position-none k (x ∷ xs) h = ground (arith, position-none k xs)

-- `remove_queued` leaves the entries of every other identifier, and none of the one given.
pub remove_queued_lem :
    (q : TaskQueue) (id : ℕ)
    → Distinct q.pending
    → (rest : List QueueEntry) × ((remove_queued q id).0 ≡ record q { pending = rest })
      × Distinct rest
      × (length rest ≤ length q.pending)
      × ((k : ℕ) → find k rest ≡ (if id == k then none else find k q.pending))
unfolding remove_queued
remove_queued_lem q id d = elim (Option-cases (position (λ e. e.id == id) q.pending)) [
  | inl e ↦
      (q.pending, ground arith, d, omega arith, λ k. ground (arith, position-none id q.pending e))
  | inr (i, e) ↦
      let (x, at, t, first) = position_lem (λ e. e.id == id) q.pending i e in
      (
        remove_at i q.pending,
        ground arith,
        Distinct-remove_at q.pending i d,
        length-remove_at_le q.pending i,
        λ k. find-remove_at q.pending i x k at d ∙ ground (arith, t),
      )
]
