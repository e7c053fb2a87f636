-- ===== src/Protocol/Frame.antt =====
-- The frames of src/protocol/frame.rs: a length of four bytes, lowest first, and the payload. A
-- reader and a writer are those of Common.Streams. The encoding of control messages is postcard's,
-- and is a parameter.
pub mod Reading
pub mod Writing
use p2p_file.Common.{
  ℕ, ◌+◌, ◌%◌, Bool, List, [], ◌∷◌, Option, none, some, if◌then◌else◌, ltb, ◌==◌, length,
}
use p2p_file.Common.Bytes.{u32_mod, to_le_bytes, from_le_bytes}
use p2p_file.Common.Streams.{
  Reader, Writer, Filled, filled, failed, exhausted, fill, Exact, exactly, early_end, exact_broken,
}

-- `16 * 1024 * 1024 + 4096`
abbrev pub max_frame_len : ℕ
max_frame_len = 16781312

pub data Error : Type 0 where
  frame_too_large : ℕ → Error
  length_cut : ℕ → Error
  length_over_limit : ℕ → Error
  payload_cut : Error
  undecodable : Error
  io : ℕ → Error
  write_failed : Error
  out_of_fuel : Error

pub data Result {ℓ} (A : Type ℓ) : Type ℓ where
  ok : A → Result A
  err : Error → Result A

infixl 5 ◌>>=◌
abbrev pub ◌>>=◌ {ℓ κ} : {A : Type ℓ} {B : Type κ} → Result A → (A → Result B) → Result B
ok a >>= f = f a
err e >>= f = err e

abbrev pub or_failed {ℓ} : {A : Type ℓ} → Option A → Result A
or_failed none = err write_failed
or_failed (some a) = ok a

module _ (W : Writer) where
  unfoldable pub write_raw_frame_limited : W.State → List ℕ → ℕ → Result W.State
  write_raw_frame_limited w payload max_len =
      if ltb max_len (length payload) then err (frame_too_large (length payload)) else do
        v ← or_failed (W.write_all w (to_le_bytes 4 (length payload % u32_mod)))
        u ← or_failed (W.write_all v payload)
        or_failed (W.flush u)

  unfoldable pub write_raw_frame : W.State → List ℕ → Result W.State
  write_raw_frame w payload = write_raw_frame_limited w payload max_frame_len

  -- `write_frame`, on the encoded message or the error of the encoding.
  unfoldable pub write_frame : W.State → Option (List ℕ) → Result W.State
  write_frame w encoded = elim encoded [
    | none ↦ err undecodable
    | some payload ↦
        if ltb max_frame_len (length payload)
        then err (frame_too_large (length payload))
        else write_raw_frame w payload
  ]

module _ (R : Reader) where
  -- What follows the four bytes of the length.
  unfoldable pub read_payload : R.State → ℕ → ℕ → Result (R.State × Option (List ℕ))
  read_payload s len max_len =
      if ltb max_len len
      then err (length_over_limit len)
      else let (t, r) = R.read_exact s len in
        elim r [
          | exactly payload ↦ ok (t, some payload)
          | early_end ↦ err payload_cut
          | exact_broken e ↦ err (io e)
        ]

  -- The fuel bounds the calls that read the length.
  unfoldable pub read_raw_frame_limited : ℕ → R.State → ℕ → Result (R.State × Option (List ℕ))
  unfolding read_payload
  read_raw_frame_limited fuel s max_len = elim (fill R fuel s 4) [
    | failed e ↦ err (io e)
    | exhausted ↦ err out_of_fuel
    | filled t head ↦
        if length head == 0
        then ok (t, none)
        else if ltb (length head) 4
        then err (length_cut (length head))
        else read_payload t (from_le_bytes head) max_len
  ]

  unfoldable pub read_raw_frame : ℕ → R.State → Result (R.State × Option (List ℕ))
  read_raw_frame fuel s = read_raw_frame_limited fuel s max_frame_len

  -- `read_frame`, with the decoder of control messages.
  unfoldable pub read_frame {ℓ} :
      {M : Type ℓ} → (List ℕ → Option M) → ℕ → R.State → Result (R.State × Option M)
  read_frame decode fuel s = do
    (t, frame) ← read_raw_frame fuel s
    elim frame [
      | none ↦ ok (t, none)
      | some payload ↦ elim (decode payload) [
        | none ↦ err undecodable
        | some message ↦ ok (t, some message)
      ]
    ]
