-- ===== src/Transfer/Receiver/Outcome.antt =====
-- What has happened when the receiver reports a file.
use p2p_file.Common.{
  ℕ, suc, ◌<◌, ◌≡◌, ◌≢◌, refl, sym, ◌∙◌, ap, subst, inl, inr, Bool, true, List, none, some, ◌∷◌, [],
  length, arith, Bool-cases,
}
use p2p_file.Common.Bytes.{u64_mod}
use p2p_file.Transfer.Bitmap.{is_complete, to_bytes}
use p2p_file.Transfer.Manifest.{FileManifest, manifest_chunk_count, verify_chunk, validate}
use p2p_file.Storage.Disk.{Disk, IsReliable}
use p2p_file.Storage.Download.{
  PartialDownload, default_policy, ok, err, create, prepare_desktop_publication, publish_from,
  finalize, clean_up, max_finalize_suffix,
}
use p2p_file.Storage.Download
use p2p_file.Storage.Download.Soundness.{part, IsSound}
use p2p_file.Storage.Download.Rechecking.{Result-cases}
use p2p_file.Storage.Download.Resuming.{Names}
use p2p_file.Storage.Download.Creation.{create_lem, Validated-cases}
use p2p_file.Storage.Download.Ending.{prepare_desktop_publication_lem}
use p2p_file.Storage.Download.Publication.{publish_from-IsNamed, clean_up_lem}
use p2p_file.Storage.Download.Runs.{prepare_desktop_publication_safe}
use p2p_file.Transfer.Receiver.{
  Message, complete, resume, Event, Report, done, receive_chunks, conclude, confirm, initial,
  receive_file_on_stream,
}
use p2p_file.Transfer.Receiver.Window.{initial_window}
use p2p_file.Transfer.Receiver.Rounds.{Moves, IsGood, Done-cases, receive_chunks_lem}

module _ (D : Disk) (R : IsReliable D) (blake3 : List ℕ → List ℕ)
    (writable : List Message → Message → Bool) where
  open R use {content, stable, bitmap, lasting}

  -- On a disk the file of a number lasts with every chunk of a manifest, and no bitmap file is left.
  abbrev pub Lasts : FileManifest → D.State → ℕ → Type 0
  Lasts m t k =
      (bytes : List ℕ) × (lasting t k ≡ some bytes)
      × ((j : ℕ) → j < length m.chunks → verify_chunk blake3 m j (part m j bytes) ≡ true)
      × (bitmap t ≡ none)

  err-ok : (e : Download.Error) (k : ℕ) → err e ≢ ok k
  err-ok e k h = ground arith

  finalize_lem :
      (now : ℕ) (s t : D.State) (d c : PartialDownload) (k : ℕ)
      → IsSound D R blake3 s d
      → finalize D now s d ≡ (t, c, ok k)
      → Lasts d.manifest t k
  unfolding finalize
  finalize_lem now s t d c k v h =
      let o = prepare_desktop_publication D now s d in
      let (w, m, prepared) = prepare_desktop_publication_lem D R blake3 now s d v in
      elim (Result-cases D R blake3 o.2) [
        | inr (e, p) ↦ absurd (
            let q : (o.0, o.1, err e) ≡ (t, c, ok k) = sym (rw (finalize, p) refl) ∙ h in
            err-ok e k (ap (λ z. z.2) q))
        | inl (_, p) ↦
            let (full, x, y, synced) = prepared p in
            let u = publish_from D (suc max_finalize_suffix) 0 o.0 in
            let (name, gone) =
              clean_up_lem D R o.1 c u.0 t u.1 k (content o.0)
                (publish_from-IsNamed D R (suc max_finalize_suffix) 0 o.0 (content o.0) synced refl)
                (sym (rw (finalize, p) refl) ∙ h) in
            (
              content o.0,
              name,
              λ j l.
                  subst (λ z. verify_chunk blake3 d.manifest j (part d.manifest j z) ≡ true) synced
                    (prepare_desktop_publication_safe D R blake3 now s o.0 d o.1 j v
                      (ap (λ z. (o.0, o.1, z)) p) l),
              gone,
            )
      ]

  conclude_lem :
      (now : ℕ) (m : FileManifest) (t : Moves D R blake3 writable) (s : D.State)
      (sent : List Message) (report : Report)
      → IsSound D R blake3 t.disk t.download
      → conclude D blake3 writable now m t ≡ (s, sent, done report)
      → Lasts t.download.manifest s report.candidate
        × (sent ≡ complete m.root_hash ∷ t.sent)
        × (report.chunks_received ≡ t.received)
  unfolding conclude confirm
  conclude_lem now m t s sent report v h =
      elim (Bool-cases (is_complete t.download.written_bitmap)) [
        | inr e ↦ absurd (ground arith)
        | inl e ↦
            let f = finalize D now t.disk t.download in
            elim (Result-cases D R blake3 f.2) [
              | inr (x, p) ↦ absurd (ground arith)
              | inl (k, p) ↦ elim (Bool-cases (writable t.sent (complete m.root_hash))) [
                | inr g ↦ absurd (ground arith)
                | inl g ↦
                    let number : k ≡ report.candidate = ground arith in
                    let disk : f.0 ≡ s = ground arith in
                    (
                      subst (Lasts t.download.manifest s) number (
                          subst (λ z. Lasts t.download.manifest z k) disk
                            (finalize_lem now t.disk f.0 t.download f.1 k v
                              (ap (λ z. (f.0, f.1, z)) p))),
                      ground arith,
                      ground arith,
                    )
              ]
            ]
      ]

  -- What a report says of the disk and of the messages.
  abbrev pub Reported : FileManifest → D.State → List Message → ℕ → Type 0
  Reported m t sent candidate =
      Lasts m t candidate × ((earlier : List Message) × (sent ≡ complete m.root_hash ∷ earlier))

  reported :
      (now : ℕ) (m : FileManifest) (t : Moves D R blake3 writable) (s : D.State)
      (sent : List Message) (report : Report)
      → IsGood D R blake3 writable t
      → t.download.manifest ≡ m
      → conclude D blake3 writable now m t ≡ (s, sent, done report)
      → Reported m s sent report.candidate
  reported now m t s sent report g e h =
      let (p, told, n) = conclude_lem now m t s sent report g.sound h in
      (subst (λ x. Lasts x s report.candidate) e p, (t.sent, told))

  -- When the receiver reports a file of a manifest whose length is a u64, from a reliable disk
  -- whose stable storage had what the part file had of the chunks that the bitmap file named,
  -- then on the disk that it leaves the name reported has a file that a crash keeps and in which
  -- every chunk of the manifest verifies, the bitmap file is gone, and the last message sent is
  -- the confirmation with the root hash.
  pub receive_file_on_stream_lem :
      (start end : ℕ) (events : List Event) (s t : D.State) (m : FileManifest) (sent : List Message)
      (report : Report)
      → m.total_len < u64_mod
      → ((j : ℕ)
          → Names D R s (manifest_chunk_count m) j
          → part m j (stable s) ≡ part m j (content s))
      → receive_file_on_stream D blake3 writable start end events s m ≡ (t, sent, done report)
      → Reported m t sent report.candidate
  unfolding receive_file_on_stream
  receive_file_on_stream_lem start end events s t m sent report small fresh h =
      elim (Validated-cases D R blake3 (validate blake3 m)) [
        | inr (e, p) ↦ absurd (ground arith)
        | inl p ↦
            let c = create D blake3 start default_policy (λ n. true) s m in
            elim (Result-cases D R blake3 c.1) [
              | inr (e, q) ↦ absurd (ground arith)
              | inl (d, q) ↦ elim (Bool-cases (writable [] (resume (to_bytes d.written_bitmap)))) [
                | inr w ↦ absurd (ground arith)
                | inl w ↦
                    let (v, k, o, same) =
                      create_lem D R blake3 start default_policy (λ n. true) s c.0 m d small fresh
                        (ap (λ z. (c.0, z)) q) in
                    let begin = initial D blake3 writable c.0 d in
                    let good : IsGood D R blake3 writable begin = record {
                      sound = v;
                      window = initial_window d.written_bitmap;
                    } in
                    let r = receive_chunks D blake3 writable events begin in
                    elim (Done-cases r.1) [
                      | inr (e, x) ↦ absurd (ground arith)
                      | inl (tt, x) ↦
                          let (g, manifest, full) =
                            receive_chunks_lem D R blake3 writable events begin good x in
                          reported end m r.0 t sent report g (manifest ∙ k) (ground arith)
                    ]
              ]
            ]
      ]
