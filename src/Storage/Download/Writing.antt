-- ===== src/Storage/Download/Writing.antt =====
-- Writing a chunk that is missing.
use p2p_file.Common.{
  ℕ, ◌+◌, ◌-◌, ◌*◌, ◌≤◌, ◌≡◌, ◌≢◌, refl, sym, ◌∙◌, ap, subst, ◌⊎◌, inl, inr, true, false, not, ◌||◌,
  List, leb, ◌==◌, length, arith, Bool-cases, if_lem, ==_iff,
}
use p2p_file.Transfer.Bitmap.{ChunkBitmap, is_set, set_chunk, to_bytes, from_bytes}
use p2p_file.Transfer.Bitmap
use p2p_file.Transfer.Bitmap.Digits
use p2p_file.Transfer.Bitmap.Operations.{set_chunk_lem}
use p2p_file.Transfer.Manifest.{verify_chunk}
use p2p_file.Transfer.Manifest.Ranges.{chunk_range_in}
use p2p_file.Storage.Disk.{Disk, IsReliable, slice}
use p2p_file.Storage.Download.{
  PartialDownload, ok, err, io, already_finished, rejected_chunk, bad_bitmap, Outcome,
  saturating_add, checkpoint, checkpoint_if_due, store_chunk, write_chunk,
}
use p2p_file.Storage.Download.Soundness.{
  size_of, part, IsSound, kept, checkpoint_lem, verified_inside, apart,
}

module _ (D : Disk) (R : IsReliable D) (blake3 : List ℕ → List ℕ) where
  open R use {content, stable, bitmap}

  abbrev Sound : D.State → PartialDownload → Type 0
  Sound s d = IsSound D R blake3 s d

  missing_other :
      (d : PartialDownload) (i j : ℕ)
      → is_set d.written_bitmap i ≡ false
      → is_set d.written_bitmap j ≡ true
      → i ≢ j
  missing_other d i j a b e = let c = ap (is_set d.written_bitmap) e in ground arith

  -- A write in the place of a missing chunk, done or not, touches no chunk that a bitmap names.
  after_write :
      (s : D.State) (d : PartialDownload) (i : ℕ) (bytes : List ℕ)
      → Sound s d
      → is_set d.written_bitmap i ≡ false
      → length bytes ≡ size_of d.manifest i
      → Sound (D.write_at s (i * d.manifest.chunk_size) bytes).0 d
  after_write s d i bytes v free l = record {
    sized = v.sized;
    valid = v.valid;
    count = v.count;
    stored = λ j h. ap (λ z. verify_chunk blake3 d.manifest j z) (elsewhere j h) ∙ v.stored j h;
    durable = λ j h. let (w, q) = v.durable j h in (w, stays j w q);
    saved = λ f b j p q h.
        let (w, e) = v.saved f b j (sym (R.write_bitmap s offset bytes) ∙ p) q h in
        (w, stays j w e);
  }
    where
      offset : ℕ
      offset = i * d.manifest.chunk_size

      clear_of :
          (j : ℕ)
          → is_set d.written_bitmap j ≡ true
          → (j * d.manifest.chunk_size + size_of d.manifest j ≤ offset)
            ⊎ (offset + length bytes ≤ j * d.manifest.chunk_size)
      clear_of j h = elim (apart d.manifest i j (missing_other d i j free h)) [
        | inl a ↦ inl a
        | inr a ↦ inr (omega (arith, l))
      ]

      whole :
          (j : ℕ)
          → is_set d.written_bitmap j ≡ true
          → length (part d.manifest j (content s)) ≡ size_of d.manifest j
      whole j h =
          (verified_inside blake3 d.manifest j (part d.manifest j (content s)) v.sized
            (v.stored j h)).1

      elsewhere :
          (j : ℕ)
          → is_set d.written_bitmap j ≡ true
          → part d.manifest j (content (D.write_at s offset bytes).0)
            ≡ part d.manifest j (content s)
      elsewhere j h =
          R.write_elsewhere s offset bytes (j * d.manifest.chunk_size) (size_of d.manifest j)
            (clear_of j h) (whole j h)

      stays :
          (j : ℕ)
          → is_set d.written_bitmap j ≡ true
          → part d.manifest j (stable s) ≡ part d.manifest j (content s)
          → part d.manifest j (stable (D.write_at s offset bytes).0)
            ≡ part d.manifest j (content (D.write_at s offset bytes).0)
      stays j h q =
          R.write_stable s offset bytes (j * d.manifest.chunk_size) (size_of d.manifest j)
            (clear_of j h) (ap length q ∙ whole j h)
          ∙ q
          ∙ sym (elsewhere j h)

  -- The chunk that is there may be marked.
  after_set :
      (s : D.State) (d : PartialDownload) (i n : ℕ) (b : ChunkBitmap)
      → Sound s d
      → verify_chunk blake3 d.manifest i (part d.manifest i (content s)) ≡ true
      → Digits.IsValid b
      → b.chunk_count ≡ d.written_bitmap.chunk_count
      → ((j : ℕ) → is_set b j ≡ (i == j || is_set d.written_bitmap j))
      → Sound s (record d { written_bitmap = b; dirty_bytes = n })
  after_set s d i n b v there z c m = record {
    sized = v.sized;
    valid = z;
    count = c ∙ v.count;
    stored = λ j h. elim (Bool-cases (i == j)) [
      | inl e ↦
          let same : i ≡ j = (==_iff i j).0 e in
          subst (λ k. verify_chunk blake3 d.manifest k (part d.manifest k (content s)) ≡ true) same
            there
      | inr e ↦ v.stored j (ground (arith, m j))
    ];
    durable = λ j h. let (w, q) = v.durable j h in (ground (arith, m j), q);
    saved = λ f g j p q h.
        let (w, e) = v.saved f g j p (ap (λ k. from_bytes k f) (sym c) ∙ q) h in
        (ground (arith, m j), e);
  }

  -- What an operation leaves: sound bitmaps, the same manifest, and nothing unmarked.
  abbrev Left : PartialDownload → Outcome D (Unit {0}) → Type 0
  Left d (s, c, r) = Sound s c × (c.manifest ≡ d.manifest) × (c.written_bitmap ≡ d.written_bitmap)

  checkpoint_if_due_lem :
      (now : ℕ) (s : D.State) (d : PartialDownload)
      → Sound s d
      → Left d (checkpoint_if_due D now s d)
  unfolding checkpoint_if_due
  checkpoint_if_due_lem now s d v =
      if_lem (Left d)
        (leb d.checkpoint_policy.bytes d.dirty_bytes
          || leb d.checkpoint_policy.interval (now - d.last_checkpoint))
        (checkpoint D now s d) (s, d, ok tt)
        (λ e. let (a, b, c, x) = checkpoint_lem D R blake3 now s d v in (a, c, b))
        (λ e. (v, refl, refl))

  -- What a write of chunk `i` leaves: nothing new is marked and the write has failed, or the chunk is
  -- marked beside the others.
  abbrev pub Wrote : PartialDownload → ℕ → Outcome D (Unit {0}) → Type 0
  Wrote d i (t, c, r) =
      Sound t c
      × (c.manifest ≡ d.manifest)
      × (((c.written_bitmap ≡ d.written_bitmap) × (r ≢ ok tt))
          ⊎ ((j : ℕ) → is_set c.written_bitmap j ≡ (i == j || is_set d.written_bitmap j)))

  marked_lem :
      (now : ℕ) (t : D.State) (d : PartialDownload) (i n : ℕ)
      → Sound t d
      → verify_chunk blake3 d.manifest i (part d.manifest i (content t)) ≡ true
      → Wrote d i (elim (set_chunk d.written_bitmap i) [
        | Bitmap.err e ↦ (t, d, err (bad_bitmap e))
        | Bitmap.ok written ↦
            checkpoint_if_due D now t (record d { written_bitmap = written; dirty_bytes = n })
      ])
  marked_lem now t d i n v there = elim (set_chunk_lem d.written_bitmap i v.valid) [
    | inl (l, e) ↦ rw e (v, refl, inl (refl, λ h. absurd (ground arith)))
    | inr (l, (b, e, z, c, m)) ↦
        let marked = record d { written_bitmap = b; dirty_bytes = n } in
        let (a, f, g) = checkpoint_if_due_lem now t marked (after_set t d i n b v there z c m) in
        rw e (a, f, inr (λ j. ap (λ k. is_set k j) g ∙ m j))
  ]

  store_chunk_lem :
      (now : ℕ) (s : D.State) (d : PartialDownload) (i : ℕ) (bytes : List ℕ)
      → Sound s d
      → Sound (D.write_at s (i * d.manifest.chunk_size) bytes).0 d
      → length bytes ≡ size_of d.manifest i
      → verify_chunk blake3 d.manifest i bytes ≡ true
      → Wrote d i (store_chunk D now s d i (i * d.manifest.chunk_size) bytes)
  unfolding store_chunk
  store_chunk_lem now s d i bytes v w l h =
      let offset = i * d.manifest.chunk_size in
      let t = (D.write_at s offset bytes).0 in
      if_lem (Wrote d i) (not d.is_open) (s, d, err already_finished) _
        (λ e. (v, refl, inl (refl, λ x. absurd (ground arith))))
        (λ o.
          if_lem (Wrote d i) (not (D.write_at s offset bytes).1) (t, d, err io) _
            (λ e. (w, refl, inl (refl, λ x. absurd (ground arith))))
            (λ e.
              let stored : slice offset (length bytes) (content t) ≡ bytes =
                R.write_there s t offset bytes (ap (λ q. (t, q)) (ground arith)) in
              marked_lem now t d i (saturating_add d.dirty_bytes (length bytes)) w (
                ap (λ z. verify_chunk blake3 d.manifest i (slice offset z (content t))) (sym l)
                ∙ ap (verify_chunk blake3 d.manifest i) stored
                ∙ h)))

  -- Writing a chunk that is missing to a sound download leaves it sound with the same manifest,
  -- and either it has failed and marked nothing or the chunk is marked beside the others.
  pub write_chunk_lem :
      (now : ℕ) (s : D.State) (d : PartialDownload) (i : ℕ) (bytes : List ℕ)
      → IsSound D R blake3 s d
      → is_set d.written_bitmap i ≡ false
      → Wrote d i (write_chunk D blake3 now s d i bytes)
  unfolding write_chunk
  write_chunk_lem now s d i bytes v free =
      if_lem (Wrote d i) (not (verify_chunk blake3 d.manifest i bytes)) (s, d, err rejected_chunk) _
        (λ e. (v, refl, inl (refl, λ x. absurd (ground arith))))
        (λ e.
          let h : verify_chunk blake3 d.manifest i bytes ≡ true = ground arith in
          let (a, l, o) = verified_inside blake3 d.manifest i bytes v.sized h in
          rw o (store_chunk_lem now s d i bytes v (after_write s d i bytes v free l) l h))

  -- Writing a chunk again with the bytes that the part file has, or with bytes that are refused.
  pub write_again_lem :
      (now : ℕ) (s : D.State) (d : PartialDownload) (i : ℕ) (bytes : List ℕ)
      → IsSound D R blake3 s d
      → (verify_chunk blake3 d.manifest i bytes ≡ true → part d.manifest i (content s) ≡ bytes)
      → Wrote d i (write_chunk D blake3 now s d i bytes)
  unfolding write_chunk
  write_again_lem now s d i bytes v same =
      if_lem (Wrote d i) (not (verify_chunk blake3 d.manifest i bytes)) (s, d, err rejected_chunk) _
        (λ e. (v, refl, inl (refl, λ x. absurd (ground arith))))
        (λ e.
          let h : verify_chunk blake3 d.manifest i bytes ≡ true = ground arith in
          let (a, l, o) = verified_inside blake3 d.manifest i bytes v.sized h in
          let offset = i * d.manifest.chunk_size in
          let (inside, a1, a2, a3) = chunk_range_in d.manifest i v.sized a in
          let k =
            R.write_again s offset bytes (omega (arith, l, inside, v.sized.size_pos))
              (ap (λ n. slice offset n (content s)) l ∙ same h) in
          let w =
            kept D R blake3 s (D.write_at s offset bytes).0 d v k (R.write_bitmap s offset bytes) in
          rw o (store_chunk_lem now s d i bytes v w l h))
