-- ===== src/Protocol/Frame/Reading.antt =====
-- What a frame that is read has to do with the stream.
use p2p_file.Common.{
  ℕ, ◌+◌, ◌≤◌, ◌<◌, ◌≡◌, ◌≢◌, refl, sym, ◌∙◌, ap, ◌↔◌, inl, inr, List, [], ◌∷◌, ◌++◌, none, some,
  length, length-append, append_injective, arith,
}
use p2p_file.Common.Bytes.{
  u32_mod, to_le_bytes, from_le_bytes, length-to_le_bytes, from_le_bytes-to_le_bytes,
}
use p2p_file.Common.Streams.{
  Reader, IsLawful, filled, fill, Exact, exactly, early_end, Exact-cases, Filled-cases, fill_lem,
  fill_ends, fill_healthy,
}
use p2p_file.Protocol.Frame.{ok, read_payload, read_raw_frame_limited}

module _ (R : Reader) (L : IsLawful R) where
  open L use {rest, interruptions, IsHealthy}

  exact_result :
      (s : R.State) (n : ℕ) (r : Exact)
      → (R.read_exact s n).1 ≡ r
      → R.read_exact s n ≡ ((R.read_exact s n).0, r)
  exact_result s n r h = ap (λ q. ((R.read_exact s n).0, q)) h

  payload_sound :
      (s t : R.State) (len max_len : ℕ) (payload : List ℕ)
      → read_payload R s len max_len ≡ ok (t, some payload)
      → (rest s ≡ payload ++ rest t) × (length payload ≡ len) × (len ≤ max_len)
  unfolding read_payload
  payload_sound s t len max_len payload h = elim (Exact-cases (R.read_exact s len).1) [
    | inl (bs, p) ↦
        let (a, b) =
          L.exact_got s (R.read_exact s len).0 len bs (exact_result s len (exactly bs) p) in
        ground arith
    | inr (inl p) ↦ absurd (ground arith)
    | inr (inr (e, p)) ↦ absurd (ground arith)
  ]

  -- A payload that is read from a lawful reader is what the stream has after four bytes that
  -- spell its length, and it is within the limit.
  pub read_raw_frame_sound :
      (fuel : ℕ) (s t : R.State) (max_len : ℕ) (payload : List ℕ)
      → read_raw_frame_limited R fuel s max_len ≡ ok (t, some payload)
      → (head : List ℕ) × (length head ≡ 4)
        × (from_le_bytes head ≡ length payload)
        × (rest s ≡ head ++ (payload ++ rest t))
        × (length payload ≤ max_len)
  unfolding read_raw_frame_limited
  read_raw_frame_sound fuel s t max_len payload h = elim (Filled-cases R (fill R fuel s 4)) [
    | inr (inl (e, p)) ↦ absurd (ground arith)
    | inr (inr p) ↦ absurd (ground arith)
    | inl (u, head, p) ↦
        let (a, b, c) = fill_lem R L fuel s u 4 head p in
        let q : read_payload R u (from_le_bytes head) max_len ≡ ok (t, some payload) =
          ground arith in
        let (x, y, z) = payload_sound u t (from_le_bytes head) max_len payload q in
        (head, ground arith, sym y, a ∙ ap (λ r. head ++ r) x, omega arith)
  ]

  filled_head :
      (s u : R.State) (fuel : ℕ) (head bytes tail : List ℕ)
      → fill R fuel s 4 ≡ filled u head
      → length bytes ≡ 4
      → rest s ≡ bytes ++ tail
      → (head ≡ bytes) × (rest u ≡ tail)
  filled_head s u fuel head bytes tail p l h =
      let (a, b, c) = fill_lem R L fuel s u 4 head p in
      append_injective head bytes (rest u) tail
        (ground
          (arith, ap length (sym a ∙ h), length-append head (rest u), length-append bytes tail))
        (sym a ∙ h)

  payload_complete :
      (s : R.State) (max_len : ℕ) (payload more : List ℕ)
      → IsHealthy s
      → rest s ≡ payload ++ more
      → length payload ≤ max_len
      → (t : R.State) × (read_payload R s (length payload) max_len ≡ ok (t, some payload))
        × (rest t ≡ more)
        × IsHealthy t
  unfolding read_payload
  payload_complete s max_len payload more k h l =
      let n = length payload in
      let t = (R.read_exact s n).0 in
      let (k', never) = L.exact_healthy s t n (R.read_exact s n).1 k refl in
      elim (Exact-cases (R.read_exact s n).1) [
        | inl (bs, p) ↦
            let (a, b) = L.exact_got s t n bs (exact_result s n (exactly bs) p) in
            let (x, y) = append_injective bs payload (rest t) more b (sym a ∙ h) in
            (t, ground arith, y, k')
        | inr (inl p) ↦
            let short = L.exact_early s t n (exact_result s n early_end p) in
            absurd (omega (arith, ap length h, length-append payload more))
        | inr (inr (e, p)) ↦ absurd (never e p)
      ]

  after_head :
      (s u : R.State) (fuel max_len : ℕ) (head : List ℕ)
      → fill R fuel s 4 ≡ filled u head
      → length head ≡ 4
      → read_raw_frame_limited R fuel s max_len ≡ read_payload R u (from_le_bytes head) max_len
  unfolding read_raw_frame_limited
  after_head s u fuel max_len head p l = ground arith

  -- From a healthy reader whose stream begins with a frame, the payload is read and the stream stands
  -- behind it.
  pub read_raw_frame_complete :
      (fuel : ℕ) (s : R.State) (max_len : ℕ) (payload more : List ℕ)
      → IsHealthy s
      → 4 + interruptions s ≤ fuel
      → length payload ≤ max_len
      → max_len < u32_mod
      → rest s ≡ to_le_bytes 4 (length payload) ++ (payload ++ more)
      → (t : R.State) × (read_raw_frame_limited R fuel s max_len ≡ ok (t, some payload))
        × (rest t ≡ more)
        × IsHealthy t
  unfolding read_raw_frame_limited
  read_raw_frame_complete fuel s max_len payload more k f l m h =
      let (never, still) = fill_healthy R L fuel s 4 k in
      elim (Filled-cases R (fill R fuel s 4)) [
        | inr (inl (e, p)) ↦ absurd (never e p)
        | inr (inr p) ↦ absurd (fill_ends R L fuel s 4 f p)
        | inl (u, head, p) ↦
            let bytes = to_le_bytes 4 (length payload) in
            let (x, y) =
              filled_head s u fuel head bytes (payload ++ more) p
                (length-to_le_bytes 4 (length payload)) h in
            let (t, q, r, k') = payload_complete u max_len payload more (still u head p) y l in
            let n : from_le_bytes bytes ≡ length payload =
              from_le_bytes-to_le_bytes 4 (length payload) (omega arith) in
            (
              t,
              after_head s u fuel max_len bytes (p ∙ ap (λ z. filled u z) x)
                    (length-to_le_bytes 4 (length payload))
                  ∙ ap (λ z. read_payload R u z max_len) n
                  ∙ q,
              r,
              k',
            )
      ]

  no_frame : (s t : R.State) (len max_len : ℕ) → read_payload R s len max_len ≢ ok (t, none)
  unfolding read_payload
  no_frame s t len max_len h = elim (Exact-cases (R.read_exact s len).1) [
    | inl (bs, p) ↦ ground arith
    | inr (inl p) ↦ ground arith
    | inr (inr (e, p)) ↦ ground arith
  ]

  empty_list : (xs : List ℕ) → length xs ≡ 0 → xs ≡ []
  empty_list [] h = refl
  empty_list (x ∷ xs) h = absurd (omega arith)

  empty_part : (xs ys : List ℕ) → xs ++ ys ≡ [] → xs ≡ []
  empty_part [] ys h = refl
  empty_part (x ∷ xs) ys h = cc

  -- From a healthy reader no frame is read exactly at the end of the stream.
  pub read_raw_frame_end :
      (fuel : ℕ) (s : R.State) (max_len : ℕ)
      → IsHealthy s
      → 4 + interruptions s ≤ fuel
      → (rest s ≡ []) ↔ ((t : R.State) × (read_raw_frame_limited R fuel s max_len ≡ ok (t, none)))
  unfolding read_raw_frame_limited
  read_raw_frame_end fuel s max_len k f =
      let (never, still) = fill_healthy R L fuel s 4 k in
      elim (Filled-cases R (fill R fuel s 4)) [
        | inr (inl (e, p)) ↦ absurd (never e p)
        | inr (inr p) ↦ absurd (fill_ends R L fuel s 4 f p)
        | inl (u, head, p) ↦
            let (a, b, c) = fill_lem R L fuel s u 4 head p in
            (
              λ h. let z = empty_part head (rest u) (sym a ∙ h) in (u, ground arith),
              λ (t, h).
                  let z = no_frame u t (from_le_bytes head) max_len in
                  let y : length head ≡ 0 = ground arith in ground (arith, empty_list head y),
            )
      ]
