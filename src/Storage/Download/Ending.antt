-- ===== src/Storage/Download/Ending.antt =====
-- What the end of a download leaves, whatever fails.
use p2p_file.Common.{
  ℕ, zero, suc, ◌*◌, ◌≡◌, refl, ◌∙◌, ap, ◌⊎◌, inl, inr, Bool, true, false, not, List, none, arith,
  Bool-cases, if_lem,
}
use p2p_file.Transfer.Bitmap.{is_complete}
use p2p_file.Transfer.Manifest.{verify_chunk}
use p2p_file.Storage.Disk.{Disk, IsReliable, Keeps, not_found, ◌>=>◌}
use p2p_file.Storage.Download.{
  PartialDownload, Error, Result, ok, err, io, names_exhausted, incomplete, Outcome, checkpoint,
  max_finalize_suffix, publish_from, clean_up, prepare_desktop_publication, finalize, discard,
}
use p2p_file.Storage.Download.Soundness.{IsSound, checkpoint_lem, kept, part, size_of, chain}
use p2p_file.Storage.Download.Rechecking.{Result-cases}
use p2p_file.Storage.Download.Publication.{any_outcome, any_entry}

module _ (D : Disk) (R : IsReliable D) (blake3 : List ℕ → List ℕ) where
  open R use {content, stable, bitmap}

  abbrev Sound : D.State → PartialDownload → Type 0
  Sound s d = IsSound D R blake3 s d

  pub closed :
      (s : D.State) (d : PartialDownload) → Sound s d → Sound s (record d { is_open = false })
  closed s d v = record {
    sized = v.sized;
    valid = v.valid;
    count = v.count;
    stored = v.stored;
    durable = v.durable;
    saved = v.saved;
  }

  abbrev pub Prepares : PartialDownload → Outcome D (Unit {0}) → Type 0
  Prepares d (s, c, r) =
      Sound s c
      × (c.manifest ≡ d.manifest)
      × (r ≡ ok tt
          → (is_complete d.written_bitmap ≡ true)
            × (c.written_bitmap ≡ d.written_bitmap)
            × (c.durable_bitmap ≡ d.written_bitmap)
            × (stable s ≡ content s))

  pub prepare_desktop_publication_lem :
      (now : ℕ) (s : D.State) (d : PartialDownload)
      → Sound s d
      → Prepares d (prepare_desktop_publication D now s d)
  unfolding prepare_desktop_publication
  prepare_desktop_publication_lem now s d v =
      let o = checkpoint D now s d in
      let (k, w, m, durable) = checkpoint_lem D R blake3 now s d v in
      let u = (D.sync_all o.0).0 in
      let k' = kept D R blake3 o.0 u o.1 k (R.sync_all_keeps o.0) (R.sync_all_bitmap o.0) in
      if_lem (Prepares d) (not (is_complete d.written_bitmap)) (s, d, err incomplete) _
        (λ e. (v, refl, λ h. absurd (ground arith)))
        (λ e. elim (Result-cases D R blake3 o.2) [
          | inr (x, p) ↦ rw p (k, m, λ h. absurd (ground arith))
          | inl (tt, p) ↦ rw p (
              if_lem (Prepares d) (D.sync_all o.0).1 (u, record (o.1) { is_open = false }, ok tt)
                (u, o.1, err io)
                (λ f. (
                  closed u o.1 k',
                  m,
                  λ h. (ground arith, w, (durable p).0, R.sync_all_done o.0 u (ap (λ q. (u, q)) f)),
                ))
                (λ f. (k', m, λ h. absurd (ground arith))))
        ])

  -- The part file is gone, or the publication has failed and the download is sound.
  abbrev GoneOrFailed : PartialDownload → D.State × Result ℕ → Type 0
  GoneOrFailed c (u, r) = (D.part_len u ≡ not_found) ⊎ (Sound u c × (e : Error) × (r ≡ err e))

  publish_from_left :
      (left candidate : ℕ) (s : D.State) (c : PartialDownload)
      → Sound s c
      → GoneOrFailed c (publish_from D left candidate s)
  unfolding publish_from
  publish_from_left zero candidate s c v = inr (v, names_exhausted, refl)
  publish_from_left (suc left) candidate s c v =
      let (t, o) = D.hard_link s candidate in
      let w = kept D R blake3 s t c v (R.link_keeps s candidate) (R.link_bitmap s candidate) in
      let u = (D.remove_part t).0 in
      let later = publish_from_left left (suc candidate) t c w in
      any_outcome (GoneOrFailed c) o _ (publish_from D left (suc candidate) t) _
        (λ l.
          if_lem (GoneOrFailed c) (D.remove_part t).1 (u, ok candidate) (u, err io)
            (λ e. inl (R.remove_part_done t u (ap (λ q. (u, q)) e)))
            (λ e. inr (
              kept D R blake3 t u c w (R.remove_part_failed t u (ap (λ q. (u, q)) e))
                  (R.remove_part_bitmap t),
              io,
              refl,
            )))
        later
        (any_entry (GoneOrFailed c) (D.entry t candidate) (publish_from D left (suc candidate) t)
          (t, err io) later (inr (w, io, refl)))

  -- The part file is gone, or the download is sound with its manifest.
  abbrev pub GoneOrSound : {A : Type 0} → PartialDownload → D.State × PartialDownload × A → Type 0
  GoneOrSound d (u, c, r) = (D.part_len u ≡ not_found) ⊎ (Sound u c × (c.manifest ≡ d.manifest))

  clean_up_left :
      (d c : PartialDownload) (o : D.State × Result ℕ)
      → c.manifest ≡ d.manifest
      → GoneOrFailed c o
      → GoneOrSound d (clean_up D c o)
  unfolding clean_up
  clean_up_left d c (u, r) m (inr (v, e, q)) = rw q (inr (v, m))
  clean_up_left d c (u, err e) m (inl gone) = inl gone
  clean_up_left d c (u, ok k) m (inl gone) =
      let first = D.sync_dir u in
      let second = first >=> D.remove_state in
      let last = second >=> D.sync_dir in
      let Gone = λ (q : D.State × Bool). D.part_len q.0 ≡ not_found in
      let one : Gone first = R.sync_dir_part u ∙ gone in
      let two : Gone second =
        chain D R Gone first D.remove_state (λ e. one) (λ e. R.remove_state_part first.0 ∙ one) in
      let three : Gone last =
        chain D R Gone second D.sync_dir (λ e. two) (λ e. R.sync_dir_part second.0 ∙ two) in
      if_lem (GoneOrSound d) last.1 (last.0, c, ok k) (last.0, c, err io) (λ e. inl three)
        (λ e. inl three)

  pub finalize_left :
      (now : ℕ) (s : D.State) (d : PartialDownload) → Sound s d → GoneOrSound d (finalize D now s d)
  unfolding finalize
  finalize_left now s d v =
      let o = prepare_desktop_publication D now s d in
      let (w, m, done) = prepare_desktop_publication_lem now s d v in
      elim (Result-cases D R blake3 o.2) [
        | inr (e, p) ↦ rw (finalize, p) (inr (w, m))
        | inl (_, p) ↦
            rw (finalize, p)
              (clean_up_left d o.1 (publish_from D (suc max_finalize_suffix) 0 o.0) m
                (publish_from_left (suc max_finalize_suffix) 0 o.0 o.1 w))
      ]

  -- Without a bitmap file nothing is named.
  nameless :
      (s t : D.State) (d : PartialDownload)
      → Sound s d
      → Keeps D content stable s t
      → bitmap t ≡ none
      → Sound t d
  nameless s t d v k e = record {
    sized = v.sized;
    valid = v.valid;
    count = v.count;
    stored = λ j h.
        ap (λ z. verify_chunk blake3 d.manifest j (part d.manifest j z)) k.same ∙ v.stored j h;
    durable = λ j h. (
      (v.durable j h).0,
      k.still (j * d.manifest.chunk_size) (size_of d.manifest j) (v.durable j h).1,
    );
    saved = λ bytes b j p q h. absurd (ground arith);
  }

  pub discard_left :
      (s : D.State) (d : PartialDownload) → Sound s d → GoneOrSound d (discard D s, d, tt)
  unfolding discard
  discard_left s d v =
      let t = (D.remove_part s).0 in
      let u = (D.remove_state t).0 in
      elim (Bool-cases (D.remove_part s).1) [
        | inl e ↦ inl (R.remove_state_part t ∙ R.remove_part_done s t (ap (λ q. (t, q)) e))
        | inr e ↦
            let w =
              kept D R blake3 s t d v (R.remove_part_failed s t (ap (λ q. (t, q)) e))
                (R.remove_part_bitmap s) in
            let k = R.remove_state_keeps t in
            inr (
              elim (Bool-cases (D.remove_state t).1) [
                | inl f ↦ nameless t u d w k (R.remove_state_done t u (ap (λ q. (u, q)) f))
                | inr f ↦ kept D R blake3 t u d w k (R.remove_state_failed t u (ap (λ q. (u, q)) f))
              ],
              refl,
            )
      ]
