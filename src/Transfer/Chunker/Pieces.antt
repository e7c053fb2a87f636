-- ===== src/Transfer/Chunker/Pieces.antt =====
-- The manifest of a reader's stream is the manifest of the stream cut into pieces.
use mathlib.Core.List.{append-nil}
use p2p_file.Common.{
  ℕ, zero, suc, ◌+◌, ◌*◌, ◌%◌, ◌≤◌, ◌<◌, ◌≡◌, refl, sym, ◌∙◌, ap, ◌↔◌, inl, inr, true, false, List,
  [], ◌∷◌, ◌++◌, map, ltb, length, length-append, take, drop, arith, take_append, Bool-cases,
  ltb→lt, length-drop,
}
use p2p_file.Common.Bytes.{u64_mod}
use p2p_file.Common.Streams.{
  Reader, IsLawful, fill, Filled-cases, fill_lem, fill_ends, fill_healthy, fill_interruptions,
}
use p2p_file.Transfer.Manifest.{chunk_count}
use p2p_file.Transfer.Manifest.Ranges.{lt-chunk_count}
use p2p_file.Transfer.Chunker.{ok, read_full, hash_chunks}

-- The data cut every `size` bytes; the last piece may be shorter.
abbrev pub cut : ℕ → ℕ → List ℕ → List (List ℕ)
cut zero size data' = []
cut (suc n) size [] = []
cut (suc n) size (b ∷ bs) = take size (b ∷ bs) ∷ cut n size (drop size (b ∷ bs))

abbrev pub pieces : ℕ → List ℕ → List (List ℕ)
pieces size data' = cut (length data') size data'

pub cut_fuel :
    (n m size : ℕ) (xs : List ℕ)
    → 0 < size
    → length xs ≤ n
    → length xs ≤ m
    → cut n size xs ≡ cut m size xs
cut_fuel zero zero size xs p l k = refl
cut_fuel zero (suc m) size [] p l k = refl
cut_fuel zero (suc m) size (x ∷ xs) p l k = absurd (omega arith)
cut_fuel (suc n) zero size [] p l k = refl
cut_fuel (suc n) zero size (x ∷ xs) p l k = absurd (omega arith)
cut_fuel (suc n) (suc m) size [] p l k = refl
cut_fuel (suc n) (suc m) size (x ∷ xs) p l k =
    ap (λ t. take size (x ∷ xs) ∷ t)
      (cut_fuel n m size (drop size (x ∷ xs)) p (omega (arith, length-drop size (x ∷ xs)))
        (omega (arith, length-drop size (x ∷ xs))))

take_short : (n : ℕ) (xs : List ℕ) → length xs ≤ n → (take n xs ≡ xs) × (drop n xs ≡ [])
take_short zero [] h = (refl, refl)
take_short zero (x ∷ xs) h = absurd (omega arith)
take_short (suc n) [] h = (refl, refl)
take_short (suc n) (x ∷ xs) h = ground (arith, take_short n xs)

cut_index :
    (n size i : ℕ) (xs : List ℕ)
    → 0 < size
    → length xs ≤ n
    → (i < length (cut n size xs)) ↔ (i * size < length xs)
cut_index zero size i [] p l = (λ h. omega arith, λ h. omega arith)
cut_index zero size i (x ∷ xs) p l = absurd (omega arith)
cut_index (suc n) size i [] p l = (λ h. omega arith, λ h. omega arith)
cut_index (suc n) size zero (x ∷ xs) p l = (λ h. omega arith, λ h. omega arith)
cut_index (suc n) size (suc i) (x ∷ xs) p l =
    let ih = cut_index n size i (drop size (x ∷ xs)) p (omega (arith, length-drop size (x ∷ xs))) in
    (
      λ h. omega (arith, ih.0 (omega arith), length-drop size (x ∷ xs)),
      λ h. omega (arith, ih.1 (omega (arith, length-drop size (x ∷ xs)))),
    )

-- A file has as many pieces as its length calls for.
pub length-cut :
    (n size : ℕ) (xs : List ℕ)
    → 0 < size
    → length xs ≤ n
    → length (cut n size xs) ≡ chunk_count (length xs) size
length-cut n size xs p l =
    let k = length (cut n size xs) in
    let c = chunk_count (length xs) size in
    elim (Bool-cases (ltb k c)) [
      | inl h ↦
          let i =
            (cut_index n size k xs p l).1
              ((lt-chunk_count k (length xs) size p).0 (ltb→lt k c h)) in
          absurd (omega arith)
      | inr h ↦ elim (Bool-cases (ltb c k)) [
        | inl g ↦
            let i =
              (lt-chunk_count c (length xs) size p).1
                ((cut_index n size c xs p l).0 (ltb→lt c k g)) in
            absurd (omega arith)
        | inr g ↦ even k c h g
      ]
    ]
  where
    even : (k c : ℕ) → ltb k c ≡ false → ltb c k ≡ false → k ≡ c
    even k c h g = ground arith

cut_none : (n size : ℕ) → cut n size [] ≡ []
cut_none zero size = refl
cut_none (suc n) size = refl

cut_last :
    (n size b : ℕ) (bs : List ℕ)
    → suc (length bs) ≤ size
    → cut (suc n) size (b ∷ bs) ≡ (b ∷ bs) ∷ []
cut_last n size b bs h = ground (arith, take_short size (b ∷ bs) h, cut_none n size)

cut_more :
    (n size b : ℕ) (bs ys : List ℕ)
    → length (b ∷ bs) ≡ size
    → cut (suc n) size ((b ∷ bs) ++ ys) ≡ (b ∷ bs) ∷ cut n size ys
cut_more n size b bs ys h = ground (arith, take_append (b ∷ bs) ys)

module _ (R : Reader) (L : IsLawful R) (blake3 : List ℕ → List ℕ) where
  open L use {rest, interruptions, IsHealthy}

  filled_step :
      (s : R.State) (calls size : ℕ)
      → IsHealthy s
      → size + interruptions s ≤ calls
      → (t : R.State) × (bs : List ℕ) × (read_full R calls s size ≡ ok (t, bs))
        × (rest s ≡ bs ++ rest t)
        × (length bs ≤ size)
        × (length bs < size → rest t ≡ [])
        × IsHealthy t
        × (interruptions t ≤ interruptions s)
  unfolding read_full
  filled_step s calls size k f =
      let (never, still) = fill_healthy R L calls s size k in
      elim (Filled-cases R (fill R calls s size)) [
        | inr (inl (e, p)) ↦ absurd (never e p)
        | inr (inr p) ↦ absurd (fill_ends R L calls s size f p)
        | inl (t, bs, p) ↦
            let (a, b, c) = fill_lem R L calls s t size bs p in
            (
              t,
              bs,
              rw (read_full, p) refl,
              a,
              b,
              c,
              still t bs p,
              fill_interruptions R L calls s t size bs p,
            )
      ]

  step_empty :
      (rounds calls size : ℕ) (s t : R.State)
      → read_full R calls s size ≡ ok (t, [])
      → hash_chunks R blake3 (suc rounds) calls s size ≡ ok (0, [])
  unfolding hash_chunks
  step_empty rounds calls size s t q = rw (hash_chunks, q) refl

  step_last :
      (rounds calls size : ℕ) (s t : R.State) (b : ℕ) (bs : List ℕ)
      → read_full R calls s size ≡ ok (t, b ∷ bs)
      → ltb (suc (length bs)) size ≡ true
      → hash_chunks R blake3 (suc rounds) calls s size ≡ ok (suc (length bs), blake3 (b ∷ bs) ∷ [])
  unfolding hash_chunks
  step_last rounds calls size s t b bs q c = rw (hash_chunks, q, c) refl

  step_more :
      (rounds calls size : ℕ) (s t : R.State) (b : ℕ) (bs : List ℕ) (n : ℕ) (hs : List (List ℕ))
      → read_full R calls s size ≡ ok (t, b ∷ bs)
      → ltb (suc (length bs)) size ≡ false
      → hash_chunks R blake3 rounds calls t size ≡ ok (n, hs)
      → hash_chunks R blake3 (suc rounds) calls s size
        ≡ ok ((suc (length bs) + n) % u64_mod, blake3 (b ∷ bs) ∷ hs)
  unfolding hash_chunks
  step_more rounds calls size s t b bs n hs q c h = ground arith

  -- One round more than there are bytes reads them all.
  pub hash_chunks_lem :
      (rounds calls size : ℕ) (s : R.State)
      → 0 < size
      → IsHealthy s
      → size + interruptions s ≤ calls
      → length (rest s) < rounds
      → length (rest s) < u64_mod
      → hash_chunks R blake3 rounds calls s size
        ≡ ok (length (rest s), map blake3 (cut rounds size (rest s)))
  hash_chunks_lem zero calls size s p k f r u = absurd (omega arith)
  hash_chunks_lem (suc rounds) calls size s p k f r u =
      let (t, bs, q, a, l, e, k', i) = filled_step s calls size k f in
      by_buffer t bs q a l e u
        (λ (h : length (rest t) < rounds). hash_chunks_lem rounds calls size t p k' (omega arith) h)
    where
      by_buffer :
          (t : R.State) (bs : List ℕ)
          → read_full R calls s size ≡ ok (t, bs)
          → rest s ≡ bs ++ rest t
          → length bs ≤ size
          → (length bs < size → rest t ≡ [])
          → length (rest s) < u64_mod
          → (length (rest t) < rounds
              → length (rest t) < u64_mod
              → hash_chunks R blake3 rounds calls t size
                ≡ ok (length (rest t), map blake3 (cut rounds size (rest t))))
          → hash_chunks R blake3 (suc rounds) calls s size
            ≡ ok (length (rest s), map blake3 (cut (suc rounds) size (rest s)))
      by_buffer t [] q a l e u ih =
          let z : rest s ≡ [] = a ∙ e p in rw z (step_empty rounds calls size s t q)
      by_buffer t (b ∷ bs) q a l e u ih =
          elim (Bool-cases (ltb (suc (length bs)) size))
            as (λ _.
              hash_chunks R blake3 (suc rounds) calls s size
              ≡ ok (length (rest s), map blake3 (cut (suc rounds) size (rest s)))) [
                | inl c ↦
                    let z : rest s ≡ b ∷ bs =
                      a
                      ∙ ap (λ y. (b ∷ bs) ++ y) (e (ltb→lt (suc (length bs)) size c))
                      ∙ append-nil (b ∷ bs) in
                    step_last rounds calls size s t b bs q c
                    ∙ ap (λ y. ok (suc (length bs), map blake3 y))
                        (sym (cut_last rounds size b bs l))
                    ∙ ap (λ y. ok (length y, map blake3 (cut (suc rounds) size y))) (sym z)
                | inr c ↦
                    let n = ap length a ∙ length-append (b ∷ bs) (rest t) in
                    let full : length (b ∷ bs) ≡ size = ground arith in
                    let h = ih (omega arith) (omega arith) in
                    step_more rounds calls size s t b bs (length (rest t))
                      (map blake3 (cut rounds size (rest t))) q c h
                    ∙ ap (λ z. ok (z, blake3 (b ∷ bs) ∷ map blake3 (cut rounds size (rest t))))
                        (omega arith)
                    ∙ ap (λ z. ok (length (rest s), map blake3 z))
                        (sym (cut_more rounds size b bs (rest t) full))
                    ∙ ap (λ z. ok (length (rest s), map blake3 (cut (suc rounds) size z))) (sym a)
              ]
