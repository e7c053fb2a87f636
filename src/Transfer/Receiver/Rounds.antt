-- ===== src/Transfer/Receiver/Rounds.antt =====
-- The rounds of the receiver from the first to the last.
use p2p_file.Common.{
  ℕ, ◌≡◌, refl, sym, ◌∙◌, ap, subst, ◌⊎◌, inl, inr, Bool, true, List, [], ◌∷◌, leb, length, arith,
  Bool-cases, if_lem,
}
use p2p_file.Transfer.Bitmap.{ChunkBitmap, is_complete}
use p2p_file.Transfer.Bitmap.Fill.{contains}
use p2p_file.Transfer.Bitmap.Counts.{is_complete_iff}
use p2p_file.Storage.Disk.{Disk, IsReliable}
use p2p_file.Storage.Download.{write_chunk}
use p2p_file.Storage.Download.Soundness.{IsSound}
use p2p_file.Storage.Download.Writing.{write_chunk_lem}
use p2p_file.Storage.Download.Rechecking.{Result-cases}
use p2p_file.Transfer.Receiver.{
  Transfer, Message, Event, chunk, keep_alive, abort, other, broken_stream, Result, done, failed,
  Error, default_window, request, request_chunk, refill, request_missing, take_chunk, on_event,
  receive_chunks, is_empty, Loop,
}
use p2p_file.Transfer.Receiver.Window.{IsWindow, moved, arrived}

pub Done-cases {ℓ} :
    {A : Type ℓ} (r : Result A) → ((a : A) × (r ≡ done a)) ⊎ ((e : Error) × (r ≡ failed e))
Done-cases (done a) = inl (a, refl)
Done-cases (failed e) = inr (e, refl)

refill_lem :
    (writable : List Message → Message → Bool) (b : ChunkBitmap) (p o p' o' : List ℕ)
    (sent sent' : List Message)
    → IsWindow b p o
    → refill writable p o sent ≡ done (p', o', sent')
    → IsWindow b p' o' × (o' ≡ [] → p' ≡ [])
unfolding refill
refill_lem w b [] o p' o' s s' v h =
    let x : [] ≡ p' = ground arith in
    let y : o ≡ o' = ground arith in
    (subst (λ k. IsWindow b k o') x (subst (IsWindow b []) y v), λ e. sym x)
refill_lem w b (i ∷ p) o p' o' s s' v h = elim (Bool-cases (leb default_window (length o))) [
  | inl e ↦
      let x : i ∷ p ≡ p' = ground arith in
      let y : o ≡ o' = ground arith in
      (
        subst (λ k. IsWindow b k o') x (subst (IsWindow b (i ∷ p)) y v),
        λ q. let z = ap length (y ∙ q) in absurd (ground arith),
      )
  | inr e ↦ elim (Bool-cases (w s (request_chunk i))) [
    | inl f ↦
        refill_lem w b p (request i o) p' o' (request_chunk i ∷ s) s' (moved b i p o v e)
          (ground arith)
    | inr f ↦ absurd (ground arith)
  ]
]

module _ (D : Disk) (R : IsReliable D) (blake3 : List ℕ → List ℕ)
    (writable : List Message → Message → Bool) where
  abbrev pub Moves : Type 0
  Moves = Transfer D blake3 writable

  -- A sound download, and the lists of the round.
  pub record IsGood (t : Moves) : Type 0 where
    pub sound : IsSound D R blake3 t.disk t.download
    pub window : IsWindow t.download.written_bitmap t.pending t.outstanding

  -- What was done without an error.
  abbrev Kept : Moves → Loop D blake3 writable → Type 0
  Kept t (u, r) = r ≡ done tt → IsGood u × (u.download.manifest ≡ t.download.manifest)

  take_chunk_lem :
      (now i : ℕ) (bytes : List ℕ) (t : Moves)
      → IsGood t
      → contains t.outstanding i ≡ true
      → Kept t (take_chunk D blake3 writable now i bytes t)
  unfolding take_chunk
  take_chunk_lem now i bytes t g o =
      let w = write_chunk D blake3 now t.disk t.download i bytes in
      let free = g.window.unwritten i (ground arith) in
      let (v, m, k) = write_chunk_lem D R blake3 now t.disk t.download i bytes g.sound free in
      elim (Result-cases D R blake3 w.2) [
        | inr (e, p) ↦ rw (take_chunk, p) (λ h. absurd (ground arith))
        | inl (tt, p) ↦
            rw (take_chunk, p)
              (λ h. elim k [
                | inl (same, never) ↦ absurd (never p)
                | inr marked ↦ (
                  record {
                    sound = v;
                    window =
                        arrived t.download.written_bitmap w.1.written_bitmap i t.pending
                          t.outstanding g.window o
                          (v.count ∙ ap (λ x. length x.chunks) m ∙ sym g.sound.count) marked;
                  },
                  m,
                )
              ])
      ]

  on_event_lem : (e : Event) (t : Moves) → IsGood t → Kept t (on_event D blake3 writable e t)
  unfolding on_event
  on_event_lem (chunk now i bytes) t g =
      if_lem (Kept t) (contains t.outstanding i) (take_chunk D blake3 writable now i bytes t) _
        (λ o. take_chunk_lem now i bytes t g o) (λ o h. absurd (ground arith))
  on_event_lem keep_alive t g = λ h. (g, refl)
  on_event_lem abort t g = λ h. absurd (ground arith)
  on_event_lem other t g = λ h. absurd (ground arith)
  on_event_lem broken_stream t g = λ h. absurd (ground arith)

  -- After the requests of a round: when nothing is outstanding, nothing is pending.
  abbrev Asked : Moves → Loop D blake3 writable → Type 0
  Asked t (u, r) =
      r ≡ done tt
      → IsGood u
        × (u.download.manifest ≡ t.download.manifest)
        × (u.outstanding ≡ [] → u.pending ≡ [])

  request_missing_lem : (t : Moves) → IsGood t → Asked t (request_missing D blake3 writable t)
  unfolding request_missing
  request_missing_lem t g = elim (Done-cases (refill writable t.pending t.outstanding t.sent)) [
    | inr (e, p) ↦ rw (request_missing, p) (λ h. absurd (ground arith))
    | inl ((p', o', s'), p) ↦
        let (w, k) =
          refill_lem writable t.download.written_bitmap t.pending t.outstanding p' o' t.sent s'
            g.window p in
        rw (request_missing, p) (λ h. (record { sound = g.sound; window = w }, refl, k))
  ]

  abbrev pub Finished : Moves → Loop D blake3 writable → Type 0
  Finished t (u, r) =
      r ≡ done tt
      → IsGood u
        × (u.download.manifest ≡ t.download.manifest)
        × (is_complete u.download.written_bitmap ≡ true)

  all_written :
      (u : Moves)
      → IsGood u
      → u.outstanding ≡ []
      → u.pending ≡ []
      → is_complete u.download.written_bitmap ≡ true
  all_written u g o p = (is_complete_iff u.download.written_bitmap g.sound.valid).1 (λ j l.
      let c = g.window.covered j l in
      let x = ap (λ z. contains z j) o in let y = ap (λ z. contains z j) p in ground arith)

  empty_lem : (o : List ℕ) → is_empty D blake3 writable o ≡ true → o ≡ []
  empty_lem [] h = refl
  empty_lem (i ∷ o) h = absurd (ground arith)

  -- A loop that ends without an error leaves a sound and complete download of the same manifest.
  pub receive_chunks_lem :
      (events : List Event) (t : Moves)
      → IsGood t
      → Finished t (receive_chunks D blake3 writable events t)
  unfolding receive_chunks
  receive_chunks_lem [] t g =
      let u = (request_missing D blake3 writable t).0 in
      let asked = request_missing_lem t g in
      elim (Done-cases (request_missing D blake3 writable t).1) [
        | inr (e, p) ↦ rw (receive_chunks, p) (λ h. absurd (ground arith))
        | inl (tt, p) ↦
            let (k, m, none_pending) = asked p in
            elim (Bool-cases (is_empty D blake3 writable u.outstanding)) [
              | inl e ↦
                  let o = empty_lem u.outstanding e in
                  rw (receive_chunks, p, e) (λ h. (k, m, all_written u k o (none_pending o)))
              | inr e ↦ rw (receive_chunks, p, e) (λ h. absurd (ground arith))
            ]
      ]
  receive_chunks_lem (event ∷ events) t g =
      let u = (request_missing D blake3 writable t).0 in
      let asked = request_missing_lem t g in
      elim (Done-cases (request_missing D blake3 writable t).1) [
        | inr (e, p) ↦ rw (receive_chunks, p) (λ h. absurd (ground arith))
        | inl (tt, p) ↦
            let (k, m, none_pending) = asked p in
            elim (Bool-cases (is_empty D blake3 writable u.outstanding)) [
              | inl e ↦
                  let o = empty_lem u.outstanding e in
                  rw (receive_chunks, p, e) (λ h. (k, m, all_written u k o (none_pending o)))
              | inr e ↦
                  let v = (on_event D blake3 writable event u).0 in
                  elim (Done-cases (on_event D blake3 writable event u).1) [
                    | inr (x, q) ↦ rw (receive_chunks, p, e, q) (λ h. absurd (ground arith))
                    | inl (tt, q) ↦
                        let (k', m') = on_event_lem event u k q in
                        let ih = receive_chunks_lem events v k' in
                        rw (receive_chunks, p, e, q)
                          (λ h. let (a, b, c) = ih h in (a, b ∙ m' ∙ m, c))
                  ]
            ]
      ]
