-- ===== src/Storage/Download/Resuming.antt =====
-- Starting or resuming a download.
use p2p_file.Common.{
  ℕ, ◌≡◌, refl, sym, ◌∙◌, ap, subst, ◌⊎◌, inl, inr, Bool, true, false, List, none, some, ◌!=◌,
  arith, Bool-cases,
}
use p2p_file.Transfer.Bitmap.{ChunkBitmap, is_set, to_bytes, from_bytes, present, new}
use p2p_file.Transfer.Bitmap
use p2p_file.Transfer.Bitmap.Digits
use p2p_file.Transfer.Bitmap.Bytes.{from_bytes_lem}
use p2p_file.Transfer.Bitmap.Fill.{new_clear}
use p2p_file.Transfer.Bitmap.Operations.{new-IsValid}
use p2p_file.Transfer.Manifest.{FileManifest, manifest_chunk_count}
use p2p_file.Transfer.Manifest.Ranges.{IsSized}
use p2p_file.Storage.Disk.{Disk, IsReliable, Found, found, not_found, unreadable, ◌>=>◌}
use p2p_file.Storage.Download.{ok, load_bitmap, recheck_each, survey}
use p2p_file.Storage.Download.Rechecking.{there, recheck_each_lem, contains-present, Result-cases}

pub Found-cases {ℓ} :
    {A : Type ℓ} (r : Found A) → ((a : A) × (r ≡ found a)) ⊎ ((r ≡ not_found) ⊎ (r ≡ unreadable))
Found-cases (found a) = inl (a, refl)
Found-cases not_found = inr (inl refl)
Found-cases unreadable = inr (inr refl)

Decoded-cases :
    (r : Bitmap.Result ChunkBitmap)
    → ((b : ChunkBitmap) × (r ≡ Bitmap.ok b)) ⊎ ((e : Bitmap.Error) × (r ≡ Bitmap.err e))
Decoded-cases (Bitmap.ok b) = inl (b, refl)
Decoded-cases (Bitmap.err e) = inr (e, refl)

pub chain_done :
    {S : Type 0} (r : S × Bool) (f : S → S × Bool) → (r >=> f).1 ≡ true → (r >=> f) ≡ f r.0
chain_done (t, true) f h = refl
chain_done (t, false) f h = absurd (ground arith)

module _ (D : Disk) (R : IsReliable D) where
  open R use {content, stable, bitmap}

  -- The bitmap file names chunk `j`.
  abbrev pub Names : D.State → ℕ → ℕ → Type 0
  Names s n j =
      (bytes : List ℕ) × (b : ChunkBitmap) × (bitmap s ≡ some bytes)
      × (from_bytes n bytes ≡ Bitmap.ok b)
      × (is_set b j ≡ true)

  -- The bitmap file is of no use, or it is bitmap `b`.
  abbrev pub Reads : D.State → ℕ → ChunkBitmap → Type 0
  Reads s n b =
      (bitmap s ≡ none)
      ⊎ ((bytes : List ℕ) × (bitmap s ≡ some bytes) × (from_bytes n bytes ≡ Bitmap.ok b))

  load_bitmap_lem :
      (s : D.State) (n : ℕ) (b : ChunkBitmap) (repair : Bool)
      → load_bitmap D s n ≡ ok (b, repair)
      → Digits.IsValid b
        × (b.chunk_count ≡ n)
        × ((j : ℕ) → is_set b j ≡ true → Names s n j)
        × (repair ≡ false → Reads s n b)
  unfolding load_bitmap new
  load_bitmap_lem s n b repair h = elim (Found-cases (D.read_state s)) [
    | inl (bytes, p) ↦ elim (Decoded-cases (from_bytes n bytes)) [
      | inl (x, q) ↦
          let (e, small) = R.state_found s bytes p in
          let same : x ≡ b = ground arith in
          let q' = q ∙ ap Bitmap.ok same in
          let (v, c, _) = from_bytes_lem n bytes b small q' in
          (v, c, λ j f. (bytes, b, e, q', f), λ f. inr (bytes, e, q'))
      | inr (x, q) ↦ empty (ground arith) (λ f. absurd (ground arith))
    ]
    | inr (inl p) ↦ empty (ground arith) (λ f. inl (R.state_absent s p))
    | inr (inr p) ↦ absurd (ground arith)
  ]
    where
      empty :
          new n ≡ b
          → (repair ≡ false → Reads s n b)
          → Digits.IsValid b
            × (b.chunk_count ≡ n)
            × ((j : ℕ) → is_set b j ≡ true → Names s n j)
            × (repair ≡ false → Reads s n b)
      empty same r = (
        subst Digits.IsValid same (new-IsValid n),
        ap (λ z. z.chunk_count) (sym same),
        λ j f. absurd (let z = ap (λ k. is_set k j) same in ground (arith, new_clear n j)),
        r,
      )

  module _ (blake3 : List ℕ → List ℕ) where
    -- What `create` knows before it changes anything.
    abbrev pub Surveyed : D.State → FileManifest → ChunkBitmap → Bool → Bool → Type 0
    Surveyed s m b changed reset =
        Digits.IsValid b
        × (b.chunk_count ≡ manifest_chunk_count m)
        × (((reset ≡ true) × ((j : ℕ) → is_set b j ≡ false))
            ⊎ ((reset ≡ false)
                × ((len : ℕ) × (D.part_len s ≡ found len))
                × ((j : ℕ)
                    → is_set b j ≡ true
                    → Names s (manifest_chunk_count m) j × (there D R blake3 s m j ≡ true))
                × (changed ≡ false → Reads s (manifest_chunk_count m) b)))

    pub survey_lem :
        (s : D.State) (m : FileManifest) (b : ChunkBitmap) (changed reset : Bool)
        → IsSized m
        → survey D blake3 s m ≡ ok (b, changed, reset)
        → Surveyed s m b changed reset
    unfolding survey new
    survey_lem s m b changed reset z h =
        elim (Result-cases D R blake3 (load_bitmap D s (manifest_chunk_count m))) [
          | inr (e, p) ↦ absurd (ground arith)
          | inl ((l, repair), p) ↦
              let (v, c, names, reads) = load_bitmap_lem s (manifest_chunk_count m) l repair p in
              elim (Found-cases (D.part_len s)) [
                | inr (inr q) ↦ absurd (ground arith)
                | inr (inl q) ↦ anew (ground arith) (ground arith)
                | inl (len, q) ↦ elim (Bool-cases (len != m.total_len)) [
                  | inl f ↦ anew (ground arith) (ground arith)
                  | inr f ↦
                      elim (Result-cases D R blake3
                        (recheck_each D blake3 s m (present l) (l, repair))) [
                          | inr (e, g) ↦ absurd (ground arith)
                          | inl ((x, y), g) ↦
                              let (w, n, k, same) =
                                recheck_each_lem D R blake3 s m (present l) l repair (x, y) z v g in
                              let xb : x ≡ b = ground arith in
                              let yc : y ≡ changed = ground arith in
                              (
                                subst Digits.IsValid xb w,
                                ap (λ t. t.chunk_count) (sym xb) ∙ n ∙ c,
                                inr (
                                  ground arith,
                                  (len, q),
                                  λ j t.
                                      let tx = ap (λ u. is_set u j) xb ∙ t in
                                      let kj = k j in
                                      let cp = contains-present l j in
                                      (names j (ground arith), ground arith),
                                  λ t.
                                      let (i, o) = same (yc ∙ t) in
                                      subst (Reads s (manifest_chunk_count m)) (sym i ∙ xb)
                                        (reads o),
                                ),
                              )
                        ]
                ]
              ]
        ]
      where
        anew : new (manifest_chunk_count m) ≡ b → reset ≡ true → Surveyed s m b changed reset
        anew e r = (
          subst Digits.IsValid e (new-IsValid (manifest_chunk_count m)),
          ap (λ t. t.chunk_count) (sym e),
          inl (r, λ j. ap (λ t. is_set t j) (sym e) ∙ new_clear (manifest_chunk_count m) j),
        )
