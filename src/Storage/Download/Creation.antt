-- ===== src/Storage/Download/Creation.antt =====
-- The download that `create` gives.
use p2p_file.Common.{
  ℕ, ◌-◌, ◌*◌, ◌<◌, ◌≡◌, refl, sym, ◌∙◌, ap, subst, ◌⊎◌, inl, inr, Bool, true, false, List, some,
  length, arith, Bool-cases,
}
use p2p_file.Common.Bytes.{u64_mod}
use p2p_file.Transfer.Bitmap.{ChunkBitmap, is_set, to_bytes, from_bytes, present, new}
use p2p_file.Transfer.Bitmap
use p2p_file.Transfer.Bitmap.Bytes.{from_bytes-to_bytes}
use p2p_file.Transfer.Manifest.{FileManifest, verify_chunk, manifest_chunk_count, validate}
use p2p_file.Transfer.Manifest
use p2p_file.Transfer.Manifest.Ranges.{IsSized}
use p2p_file.Transfer.Manifest.Validity.{validate_iff, IsValid-IsSized}
use p2p_file.Storage.Disk.{Disk, IsReliable, ◌>=>◌}
use p2p_file.Storage.Download.{
  PartialDownload, CheckpointPolicy, ok, survey, prepare, verified_bytes, create, save_bitmap,
}
use p2p_file.Storage.Download.{part_opened, part_emptied}
use p2p_file.Storage.Download.Soundness.{size_of, part, IsSound, Holds, save_bitmap_lem}
use p2p_file.Storage.Download.Rechecking.{there, Result-cases}
use p2p_file.Storage.Download.Resuming.{Surveyed, survey_lem, Names, chain_done}

module _ (D : Disk) (R : IsReliable D) (blake3 : List ℕ → List ℕ) where
  open R use {content, stable, bitmap}

  same_state : (s : D.State) → Holds D R s s
  same_state s = record { same = refl; still = λ o l h. h }

  -- What the preparation leaves.
  abbrev Prepared : D.State → ChunkBitmap → Bool → Bool → D.State → Type 0
  Prepared s b changed reset t =
      ((reset ≡ true) × (bitmap t ≡ some (to_bytes b)))
      ⊎ ((reset ≡ false)
          × Holds D R s t
          × ((bitmap t ≡ some (to_bytes b)) ⊎ ((changed ≡ false) × (bitmap t ≡ bitmap s))))

  prepare_lem :
      (s t : D.State) (m : FileManifest) (b : ChunkBitmap) (changed reset : Bool)
      → Surveyed D R blake3 s m b changed reset
      → prepare D s m b changed reset ≡ (t, true)
      → Prepared s b changed reset t
  unfolding prepare
  prepare_lem s t m b changed true (v, c, o) h =
      let body = λ (x : D.State). part_emptied D m x >=> λ u. save_bitmap D u b in
      let o = part_opened D s in
      let first = chain_done o body (ap (λ q. q.1) h) in
      let e = part_emptied D m o.0 in
      let last = chain_done e (λ u. save_bitmap D u b) (ap (λ q. q.1) (sym first ∙ h)) in
      inl (refl, saved e.0 (sym last ∙ sym first ∙ h))
    where
      saved : (u : D.State) → save_bitmap D u b ≡ (t, true) → bitmap t ≡ some (to_bytes b)
      saved u e = ap bitmap (ap (λ q. q.0) (sym e)) ∙ (save_bitmap_lem D R u b).2 (ap (λ q. q.1) e)
  prepare_lem s t m b changed false (v, c, inl (r, k)) h = absurd (ground arith)
  prepare_lem s t m b true false (v, c, inr (r, (len, f), k, x)) h =
      let e : save_bitmap D s b ≡ (t, true) = ground arith in
      let (w, either, done) = save_bitmap_lem D R s b in
      let at = ap (λ q. q.0) e in
      inr (refl, subst (Holds D R s) at w, inl (ap bitmap (sym at) ∙ done (ap (λ q. q.1) e)))
  prepare_lem s t m b false false (v, c, inr (r, (len, f), k, x)) h =
      let same : s ≡ t = ground arith in
      inr (refl, subst (Holds D R s) same (same_state s), inr (refl, ap bitmap (sym same)))

  abbrev opened : ℕ → CheckpointPolicy → FileManifest → ChunkBitmap → PartialDownload
  opened now policy m b = record {
    manifest = m;
    is_open = true;
    written_bitmap = b;
    durable_bitmap = b;
    dirty_bytes = 0;
    last_checkpoint = now;
    checkpoint_policy = policy;
  }

  pub count_of : (m : FileManifest) → IsSized m → manifest_chunk_count m ≡ length m.chunks
  unfolding manifest_chunk_count
  count_of m z = omega (arith, z.count_u32)

  -- The bitmap file that is left, if it is readable, is the bitmap of the download.
  same_saved :
      (s t : D.State) (m : FileManifest) (b x : ChunkBitmap) (changed reset : Bool) (bytes : List ℕ)
      → Surveyed D R blake3 s m b changed reset
      → Prepared s b changed reset t
      → bitmap t ≡ some bytes
      → from_bytes b.chunk_count bytes ≡ Bitmap.ok x
      → x ≡ b
  same_saved s t m b x changed reset bytes (v, c, o) p e q = elim o [
    | inl (r, k) ↦ elim p [ inl (r', f) ↦ written f | inr (r', w, o') ↦ absurd (ground arith) ]
    | inr (r, len, k, reads) ↦ elim p [
      | inl (r', f) ↦ absurd (ground arith)
      | inr (r', w, o') ↦ elim o' [
        | inl f ↦ written f
        | inr (u, f) ↦ elim (reads u) [
          | inl g ↦ absurd (ground arith)
          | inr (bytes', g, h) ↦ ground (arith, ap (λ n. from_bytes n bytes) c)
        ]
      ]
    ]
  ]
    where
      written : bitmap t ≡ some (to_bytes b) → x ≡ b
      written f = ground (arith, from_bytes-to_bytes b v)

  opened-IsSound :
      (s t : D.State) (m : FileManifest) (b : ChunkBitmap) (changed reset : Bool) (now : ℕ)
      (policy : CheckpointPolicy)
      → IsSized m
      → ((j : ℕ)
          → Names D R s (manifest_chunk_count m) j
          → part m j (stable s) ≡ part m j (content s))
      → Surveyed D R blake3 s m b changed reset
      → Prepared s b changed reset t
      → IsSound D R blake3 t (opened now policy m b)
  opened-IsSound s t m b changed reset now policy z fresh sv p = record {
    sized = z;
    valid = sv.0;
    count = sv.1 ∙ count_of m z;
    stored = λ j h. (marked j h).0;
    durable = λ j h. (h, (marked j h).1);
    saved = λ bytes x j e q h.
        let same = same_saved s t m b x changed reset bytes sv p e q in
        let h' = ap (λ k. is_set k j) (sym same) ∙ h in (h', (marked j h').1);
  }
    where
      marked :
          (j : ℕ)
          → is_set b j ≡ true
          → (there D R blake3 t m j ≡ true) × (part m j (stable t) ≡ part m j (content t))
      marked j h = elim sv.2 [
        | inl (r, k) ↦ absurd (let n = k j in ground arith)
        | inr (r, len, k, reads) ↦ elim p [
          | inl (r', f) ↦ absurd (ground arith)
          | inr (r', w, o') ↦
              let (names, good) = k j h in
              (
                ap (λ y. verify_chunk blake3 m j (part m j y)) w.same ∙ good,
                w.still (j * m.chunk_size) (size_of m j) (fresh j names),
              )
        ]
      ]

  pub Validated-cases :
      (r : Manifest.Result (Unit {0}))
      → (r ≡ Manifest.ok tt) ⊎ ((e : Manifest.Error) × (r ≡ Manifest.err e))
  Validated-cases (Manifest.ok tt) = inl refl
  Validated-cases (Manifest.err e) = inr (e, refl)

  -- A download that create makes of a manifest whose length is a u64, on a reliable disk whose
  -- stable storage has what the part file has of the chunks that the bitmap file names, is sound
  -- and open, has that manifest, and what is written is what is durable.
  pub create_lem :
      (now : ℕ) (policy : CheckpointPolicy) (admit : ℕ → Bool) (s t : D.State) (m : FileManifest)
      (d : PartialDownload)
      → m.total_len < u64_mod
      → ((j : ℕ)
          → Names D R s (manifest_chunk_count m) j
          → part m j (stable s) ≡ part m j (content s))
      → create D blake3 now policy admit s m ≡ (t, ok d)
      → IsSound D R blake3 t d
        × (d.manifest ≡ m)
        × (d.is_open ≡ true)
        × (d.durable_bitmap ≡ d.written_bitmap)
  unfolding create
  create_lem now policy admit s t m d small fresh h = elim (Validated-cases (validate blake3 m)) [
    | inr (e, p) ↦ absurd (ground arith)
    | inl p ↦ elim (Result-cases D R blake3 (survey D blake3 s m)) [
      | inr (e, q) ↦ absurd (ground arith)
      | inl ((b, changed, reset), q) ↦
          elim (Result-cases D R blake3 (verified_bytes D blake3 m (present b) 0)) [
            | inr (e, r) ↦ absurd (ground arith)
            | inl (n, r) ↦ elim (Bool-cases (admit (m.total_len - n))) [
              | inr a ↦ absurd (ground arith)
              | inl a ↦
                  let o = prepare D s m b changed reset in
                  elim (Bool-cases o.1) [
                    | inr f ↦ absurd (ground arith)
                    | inl f ↦
                        let z = IsValid-IsSized blake3 m small ((validate_iff blake3 m).0 p) in
                        let sv = survey_lem D R blake3 s m b changed reset z q in
                        let w = prepare_lem s o.0 m b changed reset sv (ap (λ k. (o.0, k)) f) in
                        let k = opened-IsSound s o.0 m b changed reset now policy z fresh sv w in
                        let x : o.0 ≡ t = ground arith in
                        let y : opened now policy m b ≡ d = ground arith in
                        (
                          subst (λ i. IsSound D R blake3 i d) x
                              (subst (IsSound D R blake3 o.0) y k),
                          ap (λ i. i.manifest) (sym y),
                          ap (λ i. i.is_open) (sym y),
                          ap (λ i. i.durable_bitmap) (sym y) ∙ ap (λ i. i.written_bitmap) y,
                        )
                  ]
            ]
          ]
    ]
  ]
