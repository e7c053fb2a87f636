-- ===== src/Protocol/Frame/Writing.antt =====
-- What is written as a frame is read back as its payload.
use mathlib.Core.List.{append_assoc}
use p2p_file.Common.{
  ℕ, ◌+◌, ◌%◌, ◌≤◌, ◌<◌, ◌≡◌, sym, ◌∙◌, ap, inl, inr, List, ◌++◌, some, length, drop, take_append,
  arith, Option-cases,
}
use p2p_file.Common.Bytes.{u32_mod, to_le_bytes}
use p2p_file.Common.Streams.{Reader, IsLawful, Writer, IsFaithful}
use p2p_file.Protocol.Frame.{ok, write_raw_frame_limited, read_raw_frame_limited}
use p2p_file.Protocol.Frame.Reading.{read_raw_frame_complete}

module _ (W : Writer) (F : IsFaithful W) where
  open F use {written}

  write_raw_frame_lem :
      (w v : W.State) (payload : List ℕ) (max_len : ℕ)
      → max_len < u32_mod
      → write_raw_frame_limited W w payload max_len ≡ ok v
      → (length payload ≤ max_len)
        × (written v ≡ written w ++ (to_le_bytes 4 (length payload) ++ payload))
  unfolding write_raw_frame_limited
  write_raw_frame_lem w v payload max_len m h =
      elim (Option-cases (W.write_all w (to_le_bytes 4 (length payload % u32_mod)))) [
        | inl p ↦ absurd (ground arith)
        | inr (a, p) ↦ elim (Option-cases (W.write_all a payload)) [
          | inl q ↦ absurd (ground arith)
          | inr (b, q) ↦ elim (Option-cases (W.flush b)) [
            | inl r ↦ absurd (ground arith)
            | inr (c, r) ↦
                let l : length payload ≤ max_len = ground arith in
                let n : length payload % u32_mod ≡ length payload = omega arith in
                let x = F.write_appends w a (to_le_bytes 4 (length payload % u32_mod)) p in
                let y = F.write_appends a b payload q in
                let z = F.flush_keeps b c r in
                let same : c ≡ v = ground arith in
                (
                  l,
                  ap written (sym same)
                      ∙ z
                      ∙ y
                      ∙ ap (λ t. t ++ payload) (x ∙ ap (λ k. written w ++ to_le_bytes 4 k) n)
                      ∙ append_assoc (written w) (to_le_bytes 4 (length payload)) payload,
                )
          ]
        ]
      ]

  -- A frame that is written within a limit below 2^32 adds bytes to the stream from which a
  -- healthy reader with that limit, and with fuel for its interruptions, reads the payload, to
  -- stand before what follows.
  pub read-write_raw_frame :
      (R : Reader) (L : IsLawful R) (w v : W.State) (payload more : List ℕ) (max_len fuel : ℕ)
      (s : R.State)
      → max_len < u32_mod
      → write_raw_frame_limited W w payload max_len ≡ ok v
      → L.rest s ≡ drop (length (written w)) (written v) ++ more
      → L.IsHealthy s
      → 4 + L.interruptions s ≤ fuel
      → (t : R.State) × (read_raw_frame_limited R fuel s max_len ≡ ok (t, some payload))
        × (L.rest t ≡ more)
        × L.IsHealthy t
  read-write_raw_frame R L w v payload more max_len fuel s m h r k f =
      let (l, e) = write_raw_frame_lem w v payload max_len m h in
      let bytes = to_le_bytes 4 (length payload) ++ payload in
      let added : drop (length (written w)) (written v) ≡ bytes =
        ap (drop (length (written w))) e ∙ (take_append (written w) bytes).1 in
      read_raw_frame_complete R L fuel s max_len payload more k f l m
        (r ∙ ap (λ z. z ++ more) added ∙ append_assoc (to_le_bytes 4 (length payload)) payload more)
