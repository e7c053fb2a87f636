-- ===== src/Storage/Download/Rechecking.antt =====
-- What `create` makes of the bitmap that it finds.
use p2p_file.Common.{
  ℕ, zero, suc, ◌+◌, ◌*◌, ◌≤◌, ◌<◌, ◌≡◌, refl, sym, ◌∙◌, ap, ◌⊎◌, inl, inr, Bool, true, false, not,
  ◌||◌, ◌&&◌, List, [], ◌∷◌, none, ltb, leb, ◌==◌, length, arith, Bool-cases, select, subst, ==_iff,
}
use p2p_file.Common.Streams.{Exact-cases}
use p2p_file.Transfer.Bitmap.{ChunkBitmap, is_set, indices, present}
use p2p_file.Transfer.Bitmap.Digits
use p2p_file.Transfer.Bitmap.Fill.{contains}
use p2p_file.Transfer.Bitmap.Operations.{clear_lem}
use p2p_file.Transfer.Manifest.{
  FileManifest, verify_chunk, chunk_offset, chunk_range, manifest_chunk_count,
}
use p2p_file.Transfer.Manifest.Ranges.{IsSized, chunk_range_in}
use p2p_file.Storage.Disk.{Disk, IsReliable}
use p2p_file.Storage.Download.{Result, ok, err, Error, recheck, recheck_each}
use p2p_file.Storage.Download.Soundness.{size_of, part}

-- `present` lists what is marked.
pub listed :
    (p : ℕ → Bool) (s n j : ℕ)
    → contains (select p (indices s n)) j ≡ (leb s j && (ltb j (s + n) && p j))
unfolding indices
listed p s zero j = ground arith
listed p s (suc n) j = elim (Bool-cases (s == j)) [
  | inl e ↦ let same = (==_iff s j).0 e in ground (arith, listed p (suc s) n j, ap p same)
  | inr e ↦ ground (arith, listed p (suc s) n j)
]

pub contains-present : (b : ChunkBitmap) (j : ℕ) → contains (present b) j ≡ is_set b j
unfolding present is_set
contains-present b j = ground (arith, listed (λ i. is_set b i) 0 b.chunk_count j)

range_none : (m : FileManifest) (i : ℕ) → IsSized m → length m.chunks ≤ i → chunk_range m i ≡ none
unfolding chunk_range chunk_offset manifest_chunk_count
range_none m i z h = ground (arith, z.count_u32)

module _ (blake3 : List ℕ → List ℕ) where
  too_short :
      (m : FileManifest) (i : ℕ) (bytes : List ℕ)
      → IsSized m
      → i < length m.chunks
      → length bytes < size_of m i
      → verify_chunk blake3 m i bytes ≡ false
  unfolding verify_chunk
  too_short m i bytes z h l = let (a, b, c, d) = chunk_range_in m i z h in ground (arith, b)

module _ (D : Disk) (R : IsReliable D) (blake3 : List ℕ → List ℕ) where
  open R use {content}

  -- The part file has the chunk as the manifest describes it.
  abbrev pub there : D.State → FileManifest → ℕ → Bool
  there s m j = verify_chunk blake3 m j (part m j (content s))

  abbrev Rechecked :
      D.State → FileManifest → Bool → (ℕ → Bool) → ChunkBitmap → ChunkBitmap × Bool → Type 0
  Rechecked s m c asked b (b', c') =
      Digits.IsValid b'
      × (b'.chunk_count ≡ b.chunk_count)
      × ((j : ℕ) → is_set b' j ≡ (is_set b j && (not (asked j) || there s m j)))
      × (c' ≡ false → (b' ≡ b) × (c ≡ false))

  same_bitmap :
      (s : D.State) (m : FileManifest) (i : ℕ) (b : ChunkBitmap) (c : Bool)
      → Digits.IsValid b
      → there s m i ≡ true
      → Rechecked s m c (λ j. i == j) b (b, c)
  same_bitmap s m i b c v h = (v, refl, λ j. kept j, λ e. (refl, e))
    where
      kept : (j : ℕ) → is_set b j ≡ (is_set b j && (not (i == j) || there s m j))
      kept j = elim (Bool-cases (i == j)) [
        | inl e ↦ let same = ap (there s m) ((==_iff i j).0 e) in ground arith
        | inr e ↦ ground arith
      ]

  unmarked :
      (s : D.State) (m : FileManifest) (i : ℕ) (b b' : ChunkBitmap) (c : Bool)
      → there s m i ≡ false
      → Digits.IsValid b'
      → b'.chunk_count ≡ b.chunk_count
      → ((j : ℕ) → is_set b' j ≡ (not (i == j) && is_set b j))
      → Rechecked s m c (λ j. i == j) b (b', true)
  unmarked s m i b b' c h w n k = (
    w,
    n,
    λ j. elim (Bool-cases (i == j)) [
      | inl q ↦ let gone = ap (there s m) ((==_iff i j).0 q) in ground (arith, k j)
      | inr q ↦ ground (arith, k j)
    ],
    λ q. absurd (ground arith),
  )

  recheck_lem :
      (s : D.State) (m : FileManifest) (i : ℕ) (b : ChunkBitmap) (c : Bool) (r : ChunkBitmap × Bool)
      → IsSized m
      → Digits.IsValid b
      → recheck D blake3 s m i (b, c) ≡ ok r
      → Rechecked s m c (λ j. i == j) b r
  unfolding recheck
  recheck_lem s m i b c (b', c') z v h = elim (Bool-cases (ltb i (length m.chunks))) [
    | inr e ↦ let n = range_none m i z (ground arith) in absurd (ground arith)
    | inl e ↦
        let (x, y, w, range) = chunk_range_in m i z (ground arith) in
        elim (Exact-cases (D.read_at s (i * m.chunk_size) (size_of m i))) [
          | inl (bytes, p) ↦
              let q = R.read_whole s (i * m.chunk_size) (size_of m i) bytes p in
              elim (Bool-cases (verify_chunk blake3 m i bytes)) [
                | inl t ↦
                    let same : (b, c) ≡ (b', c') = ground arith in
                    subst (Rechecked s m c (λ j. i == j) b) same
                      (same_bitmap s m i b c v (ap (verify_chunk blake3 m i) (sym q) ∙ t))
                | inr t ↦ elim (clear_lem b i v) [
                  | inl (l, f) ↦ absurd (ground arith)
                  | inr (l, (g, f, u, n, k)) ↦
                      let same : (g, true) ≡ (b', c') = ground arith in
                      subst (Rechecked s m c (λ j. i == j) b) same
                        (unmarked s m i b g c (ap (verify_chunk blake3 m i) (sym q) ∙ t) u n k)
                ]
              ]
          | inr (inl p) ↦
              let few =
                too_short blake3 m i (part m i (content s)) z (ground arith)
                  (R.read_short s (i * m.chunk_size) (size_of m i) p) in
              elim (clear_lem b i v) [
                | inl (l, f) ↦ absurd (ground arith)
                | inr (l, (g, f, u, n, k)) ↦
                    let same : (g, true) ≡ (b', c') = ground arith in
                    subst (Rechecked s m c (λ j. i == j) b) same (unmarked s m i b g c few u n k)
              ]
          | inr (inr (x, p)) ↦ absurd (ground arith)
        ]
  ]

  pub Result-cases {ℓ} :
      {A : Type ℓ} (r : Result A) → ((a : A) × (r ≡ ok a)) ⊎ ((e : Error) × (r ≡ err e))
  Result-cases (ok a) = inl (a, refl)
  Result-cases (err e) = inr (e, refl)

  -- The chunks asked for stay marked exactly if they are there; the others stay as they are.
  pub recheck_each_lem :
      (s : D.State) (m : FileManifest) (js : List ℕ) (b : ChunkBitmap) (c : Bool)
      (r : ChunkBitmap × Bool)
      → IsSized m
      → Digits.IsValid b
      → recheck_each D blake3 s m js (b, c) ≡ ok r
      → Rechecked s m c (λ j. contains js j) b r
  unfolding recheck_each
  recheck_each_lem s m [] b c r z v h =
      let same : (b, c) ≡ r = ground arith in
      subst (Rechecked s m c (λ j. false) b) same (v, refl, λ j. ground arith, λ e. (refl, e))
  recheck_each_lem s m (i ∷ js) b c r z v h = elim (Result-cases (recheck D blake3 s m i (b, c))) [
    | inr (e, p) ↦ absurd (ground arith)
    | inl (q, p) ↦
        let (w, n, k, f) = recheck_lem s m i b c q z v p in
        let (w', n', k', f') = recheck_each_lem s m js q.0 q.1 r z w (ground arith) in
        (
          w',
          n' ∙ n,
          λ j. ground (arith, k j, k' j),
          λ e. let (x, y) = f' e in let (x', y') = f y in (x ∙ x', y'),
        )
  ]
