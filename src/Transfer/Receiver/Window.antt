-- ===== src/Transfer/Receiver/Window.antt =====
-- What holds in every round of the receiver.
use p2p_file.Common.{
  ℕ, zero, suc, ◌+◌, ◌≤◌, ◌<◌, ◌≡◌, refl, ◌∙◌, ap, inl, inr, Bool, true, false, not, ◌||◌, ◌&&◌,
  ◌==◌, List, [], ◌∷◌, leb, ltb, length, select, arith, Bool-cases, ==_iff,
}
use p2p_file.Transfer.Bitmap.{ChunkBitmap, is_set, missing, indices}
use p2p_file.Transfer.Bitmap.Fill.{contains}
use p2p_file.Storage.Download.Rechecking.{listed}
use p2p_file.Transfer.Receiver.{default_window, request, complete_chunk}

abbrev pub Distinct : List ℕ → Type 0
Distinct [] = Unit
Distinct (i ∷ is) = (contains is i ≡ false) × Distinct is

-- The lists of a round over a bitmap: at most a window is outstanding, and a chunk is written, or
-- outstanding, or pending, but no two of these.
pub record IsWindow (b : ChunkBitmap) (pending outstanding : List ℕ) : Type 0 where
  pub bounded : length outstanding ≤ default_window
  pub distinct : Distinct pending
  pub apart : (j : ℕ) → contains pending j ≡ true → contains outstanding j ≡ false
  pub unwritten :
      (j : ℕ) → (contains pending j || contains outstanding j) ≡ true → is_set b j ≡ false
  pub covered :
      (j : ℕ)
      → j < b.chunk_count
      → (is_set b j || (contains pending j || contains outstanding j)) ≡ true

pub moved :
    (b : ChunkBitmap) (i : ℕ) (pending outstanding : List ℕ)
    → IsWindow b (i ∷ pending) outstanding
    → leb default_window (length outstanding) ≡ false
    → IsWindow b pending (request i outstanding)
moved b i pending outstanding w h =
    let free : contains outstanding i ≡ false = w.apart i (ground (arith, ==_iff i i)) in
    rw free (record {
      bounded = ground arith;
      distinct = w.distinct.1;
      apart = λ j p. elim (Bool-cases (i == j)) [
        | inl e ↦
            let same = ap (contains pending) ((==_iff i j).0 e) in
            absurd (ground (arith, w.distinct.0))
        | inr e ↦ let q = w.apart j (ground arith) in ground arith
      ];
      unwritten =
          λ j p. w.unwritten j (swap (i == j) (contains pending j) (contains outstanding j) p);
      covered = λ j l.
          swap_in (is_set b j) (i == j) (contains pending j) (contains outstanding j)
            (w.covered j l);
    })
  where
    swap : (x y z : Bool) → (y || (x || z)) ≡ true → ((x || y) || z) ≡ true
    swap x y z h = ground arith

    swap_in : (v x y z : Bool) → (v || ((x || y) || z)) ≡ true → (v || (y || (x || z))) ≡ true
    swap_in v x y z h = ground arith

contains-complete_chunk :
    (i j : ℕ) (is : List ℕ) → contains (complete_chunk i is) j ≡ (not (i == j) && contains is j)
contains-complete_chunk i j [] = ground arith
contains-complete_chunk i j (k ∷ is) = elim (Bool-cases (i == k)) [
  | inl e ↦
      let same = ap (λ x. x == j) ((==_iff i k).0 e) in
      ground (arith, contains-complete_chunk i j is)
  | inr e ↦ elim (Bool-cases (k == j)) [
    | inl f ↦
        let same = ap (λ x. i == x) ((==_iff k j).0 f) in
        ground (arith, contains-complete_chunk i j is)
    | inr f ↦ ground (arith, contains-complete_chunk i j is)
  ]
]

pub length-complete_chunk : (i : ℕ) (is : List ℕ) → length (complete_chunk i is) ≤ length is
length-complete_chunk i [] = omega arith
length-complete_chunk i (k ∷ is) = ground (arith, length-complete_chunk i is)

-- A chunk that was outstanding is written.
pub arrived :
    (b c : ChunkBitmap) (i : ℕ) (pending outstanding : List ℕ)
    → IsWindow b pending outstanding
    → contains outstanding i ≡ true
    → c.chunk_count ≡ b.chunk_count
    → ((j : ℕ) → is_set c j ≡ (i == j || is_set b j))
    → IsWindow c pending (complete_chunk i outstanding)
arrived b c i pending outstanding w o n m = record {
  bounded = omega (arith, w.bounded, length-complete_chunk i outstanding);
  distinct = w.distinct;
  apart =
      λ j p. let q = w.apart j p in let r = contains-complete_chunk i j outstanding in ground arith;
  unwritten = λ j p.
      let r = contains-complete_chunk i j outstanding in
      let k = m j in
      elim (Bool-cases (i == j)) [
        | inl e ↦
            let same = ap (contains outstanding) ((==_iff i j).0 e) in
            let q = w.apart j in
            absurd (elim (Bool-cases (contains pending j)) [
              | inl f ↦ let g = q f in ground arith
              | inr f ↦ ground arith
            ])
        | inr e ↦ let q = w.unwritten j (ground arith) in ground arith
      ];
  covered = λ j l.
      let r = contains-complete_chunk i j outstanding in
      let k = m j in let q = w.covered j (omega arith) in ground arith;
}

-- The start: everything that is missing is pending.
nothing_twice : (p : ℕ → Bool) (s n : ℕ) → Distinct (select p (indices s n))
unfolding indices
nothing_twice p s zero = tt
nothing_twice p s (suc n) = elim (Bool-cases (p s)) [
  | inl e ↦ rw e (listed p (suc s) n s ∙ below (p s), nothing_twice p (suc s) n)
  | inr e ↦ rw e (nothing_twice p (suc s) n)
]
  where
    below : (x : Bool) → (leb (suc s) s && (ltb s (suc s + n) && x)) ≡ false
    below x = ground arith

pub initial_window : (b : ChunkBitmap) → IsWindow b (missing b) []
unfolding missing is_set
initial_window b = record {
  bounded = omega arith;
  distinct = nothing_twice (λ i. not (is_set b i)) 0 b.chunk_count;
  apart = λ j p. refl;
  unwritten = λ j p. let l = listed (λ i. not (is_set b i)) 0 b.chunk_count j in ground arith;
  covered = λ j h. let l = listed (λ i. not (is_set b i)) 0 b.chunk_count j in ground arith;
}
