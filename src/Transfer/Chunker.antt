-- ===== src/Transfer/Chunker.antt =====
-- The chunks of a file, src/transfer/chunker.rs: a manifest from a reader, and one chunk of a file.
-- BLAKE3 is a parameter as in Transfer.Manifest.
pub mod Pieces
pub mod Whole
use p2p_file.Common.{
  ℕ, zero, suc, ◌+◌, ◌%◌, Bool, List, [], ◌∷◌, Option, none, some, if◌then◌else◌, ltb, ◌==◌, length,
}
use p2p_file.Common.Bytes.{u64_mod}
use p2p_file.Common.Streams.{
  Reader, Filled, filled, failed, exhausted, fill, exactly, early_end, exact_broken,
}
use p2p_file.Transfer.Manifest.{FileManifest, max_chunk_size, validate_chunk_size}
use p2p_file.Transfer.Manifest

pub data Error : Type 0 where
  io : ℕ → Error
  out_of_fuel : Error
  bad_manifest : Manifest.Error → Error
  chunk_too_long unexpected_end seek_failed : Error

pub data Result {ℓ} (A : Type ℓ) : Type ℓ where
  ok : A → Result A
  err : Error → Result A

infixl 5 ◌>>=◌
abbrev pub ◌>>=◌ {ℓ κ} : {A : Type ℓ} {B : Type κ} → Result A → (A → Result B) → Result B
ok a >>= f = f a
err e >>= f = err e

abbrev pub manifest_result {ℓ} : {A : Type ℓ} → Manifest.Result A → Result A
manifest_result (Manifest.ok a) = ok a
manifest_result (Manifest.err e) = err (bad_manifest e)

module _ (R : Reader) where
  -- `read_full`
  unfoldable pub read_full : ℕ → R.State → ℕ → Result (R.State × List ℕ)
  read_full fuel s n = elim (fill R fuel s n) [
    | filled t bytes ↦ ok (t, bytes)
    | failed e ↦ err (io e)
    | exhausted ↦ err out_of_fuel
  ]

  -- The loop of `manifest_from_reader`: the length and the hashes of the chunks from here on. One fuel
  -- bounds the rounds, the other the calls of a round.
  unfoldable pub hash_chunks : (List ℕ → List ℕ) → ℕ → ℕ → R.State → ℕ → Result (ℕ × List (List ℕ))
  hash_chunks blake3 zero calls s size = err out_of_fuel
  hash_chunks blake3 (suc rounds) calls s size = do
    (t, buffer) ← read_full calls s size
    elim (length buffer) [
      | zero ↦ ok (0, [])
      | suc n ↦ if ltb (suc n) size then ok (suc n, blake3 buffer ∷ []) else do
        (total, chunks) ← hash_chunks blake3 rounds calls t size
        ok ((suc n + total) % u64_mod, blake3 buffer ∷ chunks)
    ]

  unfoldable pub manifest_from_reader :
      (List ℕ → List ℕ) → ℕ → ℕ → List ℕ → ℕ → R.State → Result FileManifest
  manifest_from_reader blake3 rounds calls file_name chunk_size s = do
    _ ← manifest_result (validate_chunk_size chunk_size)
    (total_len, chunks) ← hash_chunks blake3 rounds calls s chunk_size
    manifest_result (Manifest.new blake3 file_name total_len chunk_size chunks)

  -- `seek` moves the file to an offset, or fails.
  unfoldable pub read_chunk :
      (R.State → ℕ → Option R.State) → R.State → ℕ → ℕ → Result (R.State × List ℕ)
  read_chunk seek s offset len =
      if ltb max_chunk_size len then err chunk_too_long else elim (seek s offset) [
        | none ↦ err seek_failed
        | some t ↦
            let (u, r) = R.read_exact t len in
            elim r [
              | exactly bytes ↦ ok (u, bytes)
              | early_end ↦ err unexpected_end
              | exact_broken e ↦ err (io e)
            ]
      ]
