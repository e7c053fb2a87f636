-- ===== src/Transfer/Receiver/Bounds.antt =====
-- How much is outstanding at once.
use p2p_file.Common.{
  ℕ, suc, ◌≤◌, ◌≡◌, refl, subst, inl, inr, Bool, List, [], ◌∷◌, leb, length, arith, Bool-cases,
  if_lem,
}
use p2p_file.Transfer.Bitmap.Fill.{contains}
use p2p_file.Storage.Disk.{Disk}
use p2p_file.Storage.Download.{ok, err, write_chunk}
use p2p_file.Storage.Download
use p2p_file.Transfer.Receiver.{
  Transfer, Message, Event, chunk, keep_alive, abort, other, broken_stream, done, default_window,
  Loop, request, request_chunk, refill, request_missing, take_chunk, on_event, receive_chunks,
  is_empty,
}
use p2p_file.Transfer.Receiver.Window.{length-complete_chunk}
use p2p_file.Transfer.Receiver.Rounds.{Done-cases}

length-request : (i : ℕ) (o : List ℕ) → length (request i o) ≤ suc (length o)
length-request i o = ground arith

refill_bound :
    (writable : List Message → Message → Bool) (p o p' o' : List ℕ) (sent sent' : List Message)
    → length o ≤ default_window
    → refill writable p o sent ≡ done (p', o', sent')
    → length o' ≤ default_window
unfolding refill
refill_bound w [] o p' o' s s' l h =
    let y : o ≡ o' = ground arith in subst (λ k. length k ≤ default_window) y l
refill_bound w (i ∷ p) o p' o' s s' l h = elim (Bool-cases (leb default_window (length o))) [
  | inl e ↦ let y : o ≡ o' = ground arith in subst (λ k. length k ≤ default_window) y l
  | inr e ↦ elim (Bool-cases (w s (request_chunk i))) [
    | inl f ↦
        refill_bound w p (request i o) p' o' (request_chunk i ∷ s) s'
          (ground (arith, length-request i o)) (ground arith)
    | inr f ↦ absurd (ground arith)
  ]
]

module _ (D : Disk) (blake3 : List ℕ → List ℕ) (writable : List Message → Message → Bool) where
  abbrev IsBounded : Loop D blake3 writable → Type 0
  IsBounded (u, r) = length u.outstanding ≤ default_window

  request_bound :
      (t : Transfer D blake3 writable)
      → length t.outstanding ≤ default_window
      → IsBounded (request_missing D blake3 writable t)
  unfolding request_missing
  request_bound t l = elim (Done-cases (refill writable t.pending t.outstanding t.sent)) [
    | inr (e, p) ↦ rw (request_missing, p) l
    | inl ((p', o', s'), p) ↦
        rw (request_missing, p) (refill_bound writable t.pending t.outstanding p' o' t.sent s' l p)
  ]

  take_bound :
      (now i : ℕ) (bytes : List ℕ) (t : Transfer D blake3 writable)
      → length t.outstanding ≤ default_window
      → IsBounded (take_chunk D blake3 writable now i bytes t)
  unfolding take_chunk
  take_bound now i bytes t l = either (write_chunk D blake3 now t.disk t.download i bytes).2 refl
    where
      either :
          (r : Download.Result (Unit {0}))
          → (write_chunk D blake3 now t.disk t.download i bytes).2 ≡ r
          → IsBounded (take_chunk D blake3 writable now i bytes t)
      either (ok tt) p =
          rw (take_chunk, p) (omega (arith, l, length-complete_chunk i t.outstanding))
      either (err e) p = rw (take_chunk, p) l

  event_bound :
      (e : Event) (t : Transfer D blake3 writable)
      → length t.outstanding ≤ default_window
      → IsBounded (on_event D blake3 writable e t)
  unfolding on_event
  event_bound (chunk now i bytes) t l =
      if_lem IsBounded (contains t.outstanding i) (take_chunk D blake3 writable now i bytes t) _
        (λ o. take_bound now i bytes t l) (λ o. l)
  event_bound keep_alive t l = l
  event_bound abort t l = l
  event_bound other t l = l
  event_bound broken_stream t l = l

  -- Whatever the peer sends, a loop that starts with at most 16 chunks outstanding ends with at
  -- most 16.
  pub receive_chunks_bound :
      (events : List Event) (t : Transfer D blake3 writable)
      → length t.outstanding ≤ default_window
      → length (receive_chunks D blake3 writable events t).0.outstanding ≤ default_window
  unfolding receive_chunks
  receive_chunks_bound [] t l =
      let k = request_bound t l in
      elim (Done-cases (request_missing D blake3 writable t).1) [
        | inr (e, p) ↦ rw (receive_chunks, p) k
        | inl (tt, p) ↦ rw (receive_chunks, p) (if_lem IsBounded _ _ _ (λ e. k) (λ e. k))
      ]
  receive_chunks_bound (event ∷ events) t l =
      let u = (request_missing D blake3 writable t).0 in
      let k = request_bound t l in
      elim (Done-cases (request_missing D blake3 writable t).1) [
        | inr (e, p) ↦ rw (receive_chunks, p) k
        | inl (tt, p) ↦ elim (Bool-cases (is_empty D blake3 writable u.outstanding)) [
          | inl e ↦ rw (receive_chunks, p, e) k
          | inr e ↦
              let v = (on_event D blake3 writable event u).0 in
              let b = event_bound event u k in
              elim (Done-cases (on_event D blake3 writable event u).1) [
                | inr (x, q) ↦ rw (receive_chunks, p, e, q) b
                | inl (tt, q) ↦ rw (receive_chunks, p, e, q) (receive_chunks_bound events v b)
              ]
        ]
      ]
