-- ===== src/Storage/Download/Soundness.antt =====
-- What the bitmaps of a download say of its part file, whatever fails.
use p2p_file.Common.{
  ℕ, ◌+◌, ◌-◌, ◌*◌, ◌≤◌, ◌<◌, min, ◌≡◌, ◌≢◌, refl, sym, ◌∙◌, ap, subst, ◌⊎◌, inl, inr, Bool, true,
  false, not, List, some, ltb, length, arith, Bool-cases, if_lem,
}
use native.Mathlib.Nat.{mul-le-mul_right}
use p2p_file.Transfer.Bitmap.{ChunkBitmap, is_set, set_chunk, to_bytes, from_bytes}
use p2p_file.Transfer.Bitmap
use p2p_file.Transfer.Bitmap.Digits
use p2p_file.Transfer.Bitmap.Bytes.{from_bytes-to_bytes}
use p2p_file.Transfer.Manifest.{FileManifest, chunk_offset, chunk_len, chunk_len_at, verify_chunk}
use p2p_file.Transfer.Manifest.Ranges.{IsSized, chunk_range_in}
use p2p_file.Storage.Disk.{Disk, IsReliable, Keeps, slice, ◌>=>◌}
use p2p_file.Storage.Download.{
  PartialDownload, ok, err, io, already_finished, Outcome, save_bitmap, checkpoint,
}

abbrev pub size_of : FileManifest → ℕ → ℕ
size_of m j = min (m.total_len - j * m.chunk_size) m.chunk_size

-- The bytes of a chunk in a file.
abbrev pub part : FileManifest → ℕ → List ℕ → List ℕ
part m j bytes = slice (j * m.chunk_size) (size_of m j) bytes

module _ (blake3 : List ℕ → List ℕ) where
  pub verified_inside :
      (m : FileManifest) (i : ℕ) (bytes : List ℕ)
      → IsSized m
      → verify_chunk blake3 m i bytes ≡ true
      → (i < length m.chunks)
        × (length bytes ≡ size_of m i)
        × (chunk_offset m i ≡ some (i * m.chunk_size))
  unfolding verify_chunk chunk_len chunk_len_at
  verified_inside m i bytes z h = elim (Bool-cases (ltb i (length m.chunks))) [
    | inl e ↦
        let (a, b, c, d) = chunk_range_in m i z (ground arith) in
        (ground arith, ground (arith, b), c)
    | inr e ↦ absurd (ground (arith, z.count))
  ]

pub apart :
    (m : FileManifest) (i j : ℕ)
    → i ≢ j
    → (j * m.chunk_size + size_of m j ≤ i * m.chunk_size)
      ⊎ (i * m.chunk_size + size_of m i ≤ j * m.chunk_size)
apart m i j n = elim (Bool-cases (ltb i j)) [
  | inl e ↦ let h : i + 1 ≤ j = ground arith in inr (omega (arith, mul-le-mul_right m.chunk_size h))
  | inr e ↦ let h : j + 1 ≤ i = ground arith in inl (omega (arith, mul-le-mul_right m.chunk_size h))
]

module _ (D : Disk) (R : IsReliable D) where
  open R use {content, stable, bitmap, tmp}

  abbrev pub Holds : D.State → D.State → Type 0
  Holds s t = Keeps D content stable s t

  holds_trans : (s t u : D.State) → Holds s t → Holds t u → Holds s u
  holds_trans s t u a b = record {
    same = b.same ∙ a.same;
    still = λ o l h. b.still o l (a.still o l h);
  }

  pub chain {κ} :
      (P : D.State × Bool → Type κ) (r : D.State × Bool) (f : D.State → D.State × Bool)
      → (r.1 ≡ false → P r)
      → (r.1 ≡ true → P (f r.0))
      → P (r >=> f)
  chain P (t, true) f a b = b refl
  chain P (t, false) f a b = a refl

  abbrev Written : D.State → List ℕ → D.State × Bool → Type 0
  Written s bytes r = Holds s r.0 × (bitmap r.0 ≡ bitmap s) × (r.1 ≡ true → tmp r.0 ≡ some bytes)

  abbrev pub Saved : D.State → List ℕ → D.State × Bool → Type 0
  Saved s bytes r =
      Holds s r.0
      × ((bitmap r.0 ≡ bitmap s) ⊎ (bitmap r.0 ≡ some bytes))
      × (r.1 ≡ true → bitmap r.0 ≡ some bytes)

  tmp_stage : (s : D.State) (bytes : List ℕ) → Written s bytes (D.write_tmp s bytes >=> D.sync_tmp)
  tmp_stage s bytes =
      let w = D.write_tmp s bytes in
      chain (Written s bytes) w D.sync_tmp
        (λ e. (R.tmp_keeps s bytes, R.tmp_bitmap s bytes, λ h. absurd (ground arith)))
        (λ e.
          let (a, b) = R.sync_tmp_bitmap w.0 in
          (
            holds_trans s w.0 (D.sync_tmp w.0).0 (R.tmp_keeps s bytes) (R.sync_tmp_keeps w.0),
            a ∙ R.tmp_bitmap s bytes,
            λ h. b ∙ R.tmp_written s w.0 bytes (ap (λ q. (w.0, q)) e),
          ))

  rename_stage :
      (s t : D.State) (bytes : List ℕ)
      → Holds s t
      → bitmap t ≡ bitmap s
      → tmp t ≡ some bytes
      → Saved s bytes (D.rename_tmp t)
  rename_stage s t bytes k b h =
      let r = D.rename_tmp t in
      let held = holds_trans s t r.0 k (R.rename_keeps t) in
      elim (Bool-cases r.1) [
        | inl e ↦ let n = R.rename_done t r.0 (ap (λ q. (r.0, q)) e) ∙ h in (held, inr n, λ _. n)
        | inr e ↦ (
          held,
          inl (R.rename_failed t r.0 (ap (λ q. (r.0, q)) e) ∙ b),
          λ x. absurd (ground arith),
        )
      ]

  -- Saving a bitmap leaves the part file alone, and the bitmap file is the old one or the new one.
  pub save_bitmap_lem : (s : D.State) (b : ChunkBitmap) → Saved s (to_bytes b) (save_bitmap D s b)
  unfolding save_bitmap
  save_bitmap_lem s b =
      let bytes = to_bytes b in
      let w = D.write_tmp s bytes >=> D.sync_tmp in
      let (k, same, new) = tmp_stage s bytes in
      let r = w >=> D.rename_tmp in
      let (k', either, done) =
        chain (Saved s bytes) w D.rename_tmp (λ e. (k, inl same, λ h. absurd (ground arith)))
          (λ e. rename_stage s w.0 bytes k same (new e)) in
      chain (Saved s bytes) r D.sync_dir (λ e. (k', either, λ h. absurd (ground arith)))
        (λ e.
          let n = R.sync_dir_bitmap r.0 ∙ done e in
          (holds_trans s r.0 (D.sync_dir r.0).0 k' (R.sync_dir_keeps r.0), inr n, λ h. n))

  module _ (blake3 : List ℕ → List ℕ) where
    -- Each chunk that is written is in the part file as the manifest has it; each that is durable, or
    -- named by a readable bitmap file, is written, and the same on stable storage.
    pub record IsSound (s : D.State) (d : PartialDownload) : Type 0 where
      pub sized : IsSized d.manifest
      pub valid : Digits.IsValid d.written_bitmap
      pub count : d.written_bitmap.chunk_count ≡ length d.manifest.chunks
      pub stored :
          (j : ℕ)
          → is_set d.written_bitmap j ≡ true
          → verify_chunk blake3 d.manifest j (part d.manifest j (content s)) ≡ true
      pub durable :
          (j : ℕ)
          → is_set d.durable_bitmap j ≡ true
          → (is_set d.written_bitmap j ≡ true)
            × (part d.manifest j (stable s) ≡ part d.manifest j (content s))
      pub saved :
          (bytes : List ℕ) (b : ChunkBitmap) (j : ℕ)
          → bitmap s ≡ some bytes
          → from_bytes d.written_bitmap.chunk_count bytes ≡ Bitmap.ok b
          → is_set b j ≡ true
          → (is_set d.written_bitmap j ≡ true)
            × (part d.manifest j (stable s) ≡ part d.manifest j (content s))

    pub kept :
        (s t : D.State) (d : PartialDownload)
        → IsSound s d
        → Holds s t
        → bitmap t ≡ bitmap s
        → IsSound t d
    kept s t d v k e = record {
      sized = v.sized;
      valid = v.valid;
      count = v.count;
      stored = λ j h.
          ap (λ z. verify_chunk blake3 d.manifest j (part d.manifest j z)) k.same ∙ v.stored j h;
      durable = λ j h. (
        (v.durable j h).0,
        k.still (j * d.manifest.chunk_size) (size_of d.manifest j) (v.durable j h).1,
      );
      saved = λ bytes b j p q h.
          let w = v.saved bytes b j (sym e ∙ p) q h in
          (w.0, k.still (j * d.manifest.chunk_size) (size_of d.manifest j) w.1);
    }

    -- After the part file has been synced everything is stable, and a bitmap file that is the old one
    -- or that of what is written is sound.
    after_save :
        (s t : D.State) (d : PartialDownload)
        → IsSound s d
        → Holds s t
        → ((o l : ℕ) → slice o l (stable t) ≡ slice o l (content t))
        → (bitmap t ≡ bitmap s) ⊎ (bitmap t ≡ some (to_bytes d.written_bitmap))
        → IsSound t d
    after_save s t d v k all (inl e) = kept s t d v k e
    after_save s t d v k all (inr e) = record {
      sized = v.sized;
      valid = v.valid;
      count = v.count;
      stored = λ j h.
          ap (λ z. verify_chunk blake3 d.manifest j (part d.manifest j z)) k.same ∙ v.stored j h;
      durable = λ j h. ((v.durable j h).0, all (j * d.manifest.chunk_size) (size_of d.manifest j));
      saved = λ bytes b j p q h.
          let same : b ≡ d.written_bitmap =
            ground (arith, from_bytes-to_bytes d.written_bitmap v.valid) in
          (
            subst (λ z. is_set z j ≡ true) same h,
            all (j * d.manifest.chunk_size) (size_of d.manifest j),
          );
    }

    published :
        (s : D.State) (d : PartialDownload) (now : ℕ)
        → IsSound s d
        → ((o l : ℕ) → slice o l (stable s) ≡ slice o l (content s))
        → IsSound s
            (record d { durable_bitmap = d.written_bitmap; dirty_bytes = 0; last_checkpoint = now })
    published s d now v all = record {
      sized = v.sized;
      valid = v.valid;
      count = v.count;
      stored = v.stored;
      durable = λ j h. (h, all (j * d.manifest.chunk_size) (size_of d.manifest j));
      saved = v.saved;
    }

    -- What a checkpoint leaves.
    abbrev pub Checked : PartialDownload → Outcome D (Unit {0}) → Type 0
    Checked d (s, c, r) =
        IsSound s c
        × (c.written_bitmap ≡ d.written_bitmap)
        × (c.manifest ≡ d.manifest)
        × (r ≡ ok tt
            → (c.durable_bitmap ≡ d.written_bitmap) × (bitmap s ≡ some (to_bytes d.written_bitmap)))

    pub checkpoint_lem :
        (now : ℕ) (s : D.State) (d : PartialDownload)
        → IsSound s d
        → Checked d (checkpoint D now s d)
    unfolding checkpoint
    checkpoint_lem now s d v =
        let t = (D.sync_data s).0 in
        let synced = kept s t d v (R.sync_keeps s) (R.sync_bitmap s) in
        let (k, either, done) = save_bitmap_lem t d.written_bitmap in
        let u = (save_bitmap D t d.written_bitmap).0 in
        if_lem (Checked d) (not d.is_open) (s, d, err already_finished) _
          (λ o. (v, refl, refl, λ h. absurd (ground arith)))
          (λ o.
            if_lem (Checked d) (not (D.sync_data s).1) (t, d, err io) _
              (λ e. (synced, refl, refl, λ h. absurd (ground arith)))
              (λ e.
                let stab : stable t ≡ content t =
                  R.sync_done s t (ap (λ q. (t, q)) (ground arith)) in
                let all = λ (o : ℕ) (l : ℕ). k.still o l (ap (slice o l) stab) in
                let w = after_save t u d synced k all either in
                if_lem (Checked d) (not (save_bitmap D t d.written_bitmap).1) (u, d, err io) _
                  (λ f. (w, refl, refl, λ h. absurd (ground arith)))
                  (λ f. (published u d now w all, refl, refl, λ h. (refl, done (ground arith))))))
