-- ===== src/Transfer/Manifest/Validity.antt =====
-- What `validate`, `new` and `from_bytes` accept.
use p2p_file.Common.{ℕ, ◌≤◌, ◌<◌, ◌≡◌, ◌↔◌, Option, some, List, arith, length}
use p2p_file.Common.Bytes.{u32_mod, u64_mod, same_bytes_iff}
use p2p_file.Transfer.Manifest.{
  FileManifest, ok, min_chunk_size, max_chunk_size, chunk_count, validate, new, from_bytes,
  root_hash_of, verify_root_hash,
}
use p2p_file.Transfer.Manifest.Ranges.{IsSized}

-- What the manifest's fields have to do with one another.
pub record IsValid (blake3 : List ℕ → List ℕ) (m : FileManifest) : Type 0 where
  pub size_low : min_chunk_size ≤ m.chunk_size
  pub size_high : m.chunk_size ≤ max_chunk_size
  pub count_u32 : length m.chunks < u32_mod
  pub count : length m.chunks ≡ chunk_count m.total_len m.chunk_size
  pub root : m.root_hash ≡ root_hash_of blake3 m.file_name m.total_len m.chunk_size m.chunks

module _ (blake3 : List ℕ → List ℕ) where
  -- validate accepts exactly the manifests with a chunk size in range, fewer than 2^32 chunk
  -- hashes, as many as the length calls for, and the root hash of the other fields.
  pub validate_iff : (m : FileManifest) → (validate blake3 m ≡ ok tt) ↔ IsValid blake3 m
  unfolding validate verify_root_hash
  validate_iff m = (
    λ e. record {
      size_low = ground arith;
      size_high = ground arith;
      count_u32 = ground arith;
      count = ground arith;
      root =
          (same_bytes_iff m.root_hash
              (root_hash_of blake3 m.file_name m.total_len m.chunk_size m.chunks)).0
            (ground arith);
    },
    λ v. ground (
      arith,
      v.count,
      (same_bytes_iff m.root_hash
            (root_hash_of blake3 m.file_name m.total_len m.chunk_size m.chunks)).1
          v.root,
    ),
  )

  pub IsValid-IsSized : (m : FileManifest) → m.total_len < u64_mod → IsValid blake3 m → IsSized m
  IsValid-IsSized m h v = record {
    size_pos = omega (arith, v.size_low);
    size_u32 = omega (arith, v.size_high);
    total_u64 = h;
    count_u32 = v.count_u32;
    count = v.count;
  }

  -- A manifest that new returns passes validate and has the fields given.
  pub new-validate :
      (file_name : List ℕ) (total_len chunk_size : ℕ) (chunks : List (List ℕ)) (m : FileManifest)
      → new blake3 file_name total_len chunk_size chunks ≡ ok m
      → (validate blake3 m ≡ ok tt)
        × (m.file_name ≡ file_name)
        × (m.total_len ≡ total_len)
        × (m.chunk_size ≡ chunk_size)
        × (m.chunks ≡ chunks)
  unfolding new
  new-validate f t s cs m e = ground arith

  -- A manifest read from bytes is what the codec decoded and passes validate.
  pub from_bytes-validate :
      (decode : List ℕ → Option FileManifest) (input : List ℕ) (m : FileManifest)
      → from_bytes blake3 decode input ≡ ok m
      → (decode input ≡ some m) × (validate blake3 m ≡ ok tt)
  unfolding from_bytes
  from_bytes-validate decode input m e = ground arith
