-- ===== src/Storage/Download/Runs.antt =====
-- A download from its creation to its end, through operations and failures of the disk.
use p2p_file.Common.{
  ℕ, ◌<◌, ◌≡◌, refl, sym, ◌∙◌, ap, subst, ◌⊎◌, inl, inr, Bool, true, false, List, length, arith,
  Bool-cases,
}
use p2p_file.Common.Bytes.{u64_mod}
use p2p_file.Transfer.Bitmap.{is_set, from_bytes}
use p2p_file.Transfer.Bitmap.Counts.{is_complete_iff}
use p2p_file.Transfer.Manifest.{FileManifest, manifest_chunk_count, verify_chunk}
use p2p_file.Storage.Disk.{Disk, IsReliable, not_found}
use p2p_file.Storage.Download.{
  PartialDownload, CheckpointPolicy, ok, checkpoint, write_chunk, prepare_desktop_publication,
  create, finalize, discard,
}
use p2p_file.Storage.Download.Soundness.{part, IsSound, checkpoint_lem}
use p2p_file.Storage.Download.Writing.{write_chunk_lem, write_again_lem}
use p2p_file.Storage.Download.Resuming.{Names}
use p2p_file.Storage.Download.Creation.{create_lem, count_of}
use p2p_file.Storage.Download.Ending.{prepare_desktop_publication_lem, finalize_left, discard_left}

module _ (D : Disk) (R : IsReliable D) (blake3 : List ℕ → List ℕ) where
  open R use {content, stable, bitmap}

  abbrev Sound : D.State → PartialDownload → Type 0
  Sound s d = IsSound D R blake3 s d

  -- One operation, done or failed: the write of a chunk, a checkpoint, the preparation of the
  -- publication, or another creation that succeeds, also after a crash, which leaves of the part file
  -- what is stable and any bitmap file. When a chunk that is marked is written again, bytes that
  -- verify are those that the part file has.
  pub data Step : D.State → PartialDownload → D.State → PartialDownload → Type 0 where
    wrote :
        {s : D.State} {d : PartialDownload} (now index : ℕ) (bytes : List ℕ)
        → (is_set d.written_bitmap index ≡ true
            → verify_chunk blake3 d.manifest index bytes ≡ true
            → part d.manifest index (content s) ≡ bytes)
        → Step s d
            (write_chunk D blake3 now s d index bytes).0
            (write_chunk D blake3 now s d index bytes).1
    checkpointed :
        {s : D.State} {d : PartialDownload} (now : ℕ)
        → Step s d (checkpoint D now s d).0 (checkpoint D now s d).1
    prepared :
        {s : D.State} {d : PartialDownload} (now : ℕ)
        → Step s d
            (prepare_desktop_publication D now s d).0
            (prepare_desktop_publication D now s d).1
    recreated :
        {s t : D.State} {d c : PartialDownload} (now : ℕ) (policy : CheckpointPolicy)
        (admit : ℕ → Bool)
        → create D blake3 now policy admit s d.manifest ≡ (t, ok c)
        → Step s d t c
    restarted :
        {s t u : D.State} {d c : PartialDownload} (now : ℕ) (policy : CheckpointPolicy)
        (admit : ℕ → Bool)
        → content t ≡ stable s
        → stable t ≡ stable s
        → create D blake3 now policy admit t d.manifest ≡ (u, ok c)
        → Step s d u c

  pub data Run : D.State → PartialDownload → D.State → PartialDownload → Type 0 where
    stop : {s : D.State} {d : PartialDownload} → Run s d s d
    go : {s t u : D.State} {d c b : PartialDownload} → Step s d t c → Run t c u b → Run s d u b

  -- The end of a download: it stays open, or it is consumed, by a finalization or by its removal.
  pub data Last : Bool → D.State → PartialDownload → D.State → PartialDownload → Type 0 where
    stays_open : {s : D.State} {d : PartialDownload} → Last false s d s d
    finalized :
        {s : D.State} {d : PartialDownload} (now : ℕ)
        → Last true s d (finalize D now s d).0 (finalize D now s d).1
    discarded : {s : D.State} {d : PartialDownload} → Last true s d (discard D s) d

  -- Another creation finds on stable storage what the bitmap file names.
  recreated_lem :
      (now : ℕ) (policy : CheckpointPolicy) (admit : ℕ → Bool) (s t : D.State)
      (d c : PartialDownload)
      → Sound s d
      → create D blake3 now policy admit s d.manifest ≡ (t, ok c)
      → Sound t c × (c.manifest ≡ d.manifest)
  recreated_lem now policy admit s t d c v h =
      let n = v.count ∙ sym (count_of D R blake3 d.manifest v.sized) in
      let (a, b, o, w) =
        create_lem D R blake3 now policy admit s t d.manifest c v.sized.total_u64
          (λ j (bytes, x, e, q, f). (v.saved bytes x j e (ap (λ k. from_bytes k bytes) n ∙ q) f).1)
          h in
      (a, b)

  step_lem :
      {s : D.State} {d : PartialDownload} {t : D.State} {c : PartialDownload}
      → Step s d t c
      → Sound s d
      → Sound t c × (c.manifest ≡ d.manifest)
  step_lem {d = d} (wrote now i bytes same) v = elim (Bool-cases (is_set d.written_bitmap i)) [
    | inl e ↦ let (a, b, c) = write_again_lem D R blake3 now _ _ i bytes v (same e) in (a, b)
    | inr e ↦ let (a, b, c) = write_chunk_lem D R blake3 now _ _ i bytes v e in (a, b)
  ]
  step_lem (checkpointed now) v = let (a, b, c, x) = checkpoint_lem D R blake3 now _ _ v in (a, c)
  step_lem (prepared now) v =
      let (a, b, c) = prepare_desktop_publication_lem D R blake3 now _ _ v in (a, b)
  step_lem (recreated now policy admit h) v = recreated_lem now policy admit _ _ _ _ v h
  step_lem (restarted {t = t} {d = d} now policy admit e f h) v =
      let same = λ (j : ℕ) (n : Names D R t (manifest_chunk_count d.manifest) j).
        ap (part d.manifest j) (f ∙ sym e) in
      let (a, b, o, w) =
        create_lem D R blake3 now policy admit t _ d.manifest _ v.sized.total_u64 same h in
      (a, b)

  run_lem :
      {s : D.State} {d : PartialDownload} {t : D.State} {c : PartialDownload}
      → Run s d t c
      → Sound s d
      → Sound t c × (c.manifest ≡ d.manifest)
  run_lem stop v = (v, refl)
  run_lem (go x r) v = let (a, e) = step_lem x v in let (b, f) = run_lem r a in (b, f ∙ e)

  -- What an end leaves: only one that consumes the download removes the part file.
  last_lem :
      {ended : Bool} {s : D.State} {d : PartialDownload} {t : D.State} {c : PartialDownload}
      → Last ended s d t c
      → Sound s d
      → ((ended ≡ true) × (D.part_len t ≡ not_found)) ⊎ (Sound t c × (c.manifest ≡ d.manifest))
  last_lem stays_open v = inr (v, refl)
  last_lem (finalized now) v = elim (finalize_left D R blake3 now _ _ v) [
    | inl e ↦ inl (refl, e)
    | inr w ↦ inr w
  ]
  last_lem discarded v = elim (discard_left D R blake3 _ _ v) [
    | inl e ↦ inl (refl, e)
    | inr w ↦ inr w
  ]

  named_lem :
      (t : D.State) (c : PartialDownload) (m : FileManifest) (j : ℕ)
      → Sound t c
      → c.manifest ≡ m
      → Names D R t (length m.chunks) j
      → verify_chunk blake3 m j (part m j (stable t)) ≡ true
  named_lem t c m j u same (bytes, b, e, q, f) =
      let n = u.count ∙ ap (λ x. length x.chunks) same in
      let (marked, p) = u.saved bytes b j e (ap (λ x. from_bytes x bytes) n ∙ q) f in
      subst (λ x. verify_chunk blake3 x j (part x j (stable t)) ≡ true) same
        (ap (verify_chunk blake3 c.manifest j) p ∙ u.stored j marked)

  -- Take a download that create has made of a manifest whose length is a u64, on a reliable disk
  -- whose stable storage had what the part file had of the chunks that the bitmap file named;
  -- writes of chunks, checkpoints and preparations of the publication, done or failed, and
  -- further creations that succeed, on the disk as it is or after a crash that leaves of the part
  -- file what is stable and any bitmap file, where bytes that verify and are written for a chunk
  -- already marked are those that the part file has; and an end at which the download stays open,
  -- is finalized or is discarded, done or failed. Of each chunk that the bitmap file then names,
  -- stable storage holds data that verifies, unless the download was finalized or discarded and
  -- its part file is gone.
  pub named_chunks_stable :
      (now : ℕ) (policy : CheckpointPolicy) (admit : ℕ → Bool) (r s u t : D.State)
      (m : FileManifest) (d b c : PartialDownload) (ended : Bool) (j : ℕ)
      → m.total_len < u64_mod
      → ((i : ℕ)
          → Names D R r (manifest_chunk_count m) i
          → part m i (stable r) ≡ part m i (content r))
      → create D blake3 now policy admit r m ≡ (s, ok d)
      → Run s d u b
      → Last ended u b t c
      → Names D R t (length m.chunks) j
      → ((ended ≡ true) × (D.part_len t ≡ not_found))
        ⊎ (verify_chunk blake3 m j (part m j (stable t)) ≡ true)
  named_chunks_stable now policy admit r s u t m d b c ended j small fresh h run last names =
      let (v, k, o, w) = create_lem D R blake3 now policy admit r s m d small fresh h in
      let (x, f) = run_lem run v in
      elim (last_lem last x) [
        | inl gone ↦ inl gone
        | inr (y, g) ↦ inr (named_lem t c m j y (g ∙ f ∙ k) names)
      ]

  -- When the publication of a sound download has been prepared without an error, every chunk of
  -- its manifest lies on stable storage and verifies.
  pub prepare_desktop_publication_safe :
      (now : ℕ) (s t : D.State) (d c : PartialDownload) (j : ℕ)
      → IsSound D R blake3 s d
      → prepare_desktop_publication D now s d ≡ (t, c, ok tt)
      → j < length d.manifest.chunks
      → verify_chunk blake3 d.manifest j (part d.manifest j (stable t)) ≡ true
  prepare_desktop_publication_safe now s t d c j v h l =
      let (a, m, done) = prepare_desktop_publication_lem D R blake3 now s d v in
      let o = prepare_desktop_publication D now s d in
      let (full, w, x, all) = done (ap (λ q. q.2) h) in
      let set : is_set d.written_bitmap j ≡ true =
        (is_complete_iff d.written_bitmap v.valid).0 full j (omega (arith, v.count)) in
      let (y, p) = a.durable j (ap (λ q. is_set q j) x ∙ set) in
      subst (λ i. verify_chunk blake3 i j (part i j (stable t)) ≡ true) m
        (subst (λ i. verify_chunk blake3 o.1.manifest j (part o.1.manifest j (stable i)) ≡ true)
          (ap (λ q. q.0) h) (ap (verify_chunk blake3 o.1.manifest j) p ∙ a.stored j y))
