-- ===== src/Transfer/Manifest.antt =====
-- The file manifest of src/protocol/manifest.rs. BLAKE3 and the postcard codec are not under src/:
-- `blake3` is the hash of a byte string (a `Hasher` fed piece by piece gives the hash of the pieces
-- joined), and `decode` is postcard's reader of manifests. A string is its UTF-8 bytes.
pub mod Ranges
pub mod Validity
use p2p_file.Common.{
  ℕ, zero, suc, ◌+◌, ◌-◌, ◌*◌, ◌/◌, ◌%◌, ◌<◌, min, Bool, true, false, not, ◌&&◌, ◌||◌, List, [],
  ◌∷◌, ◌++◌, Option, none, some, if◌then◌else◌, leb, ltb, ◌==◌, ◌!=◌, length, get_or, get_elem?,
}
use p2p_file.Common.Bytes.{u32_mod, u64_mod, same_bytes, to_le_bytes}

pub data Error : Type 0 where
  bad_chunk_size too_many_chunks wrong_chunk_count wrong_root_hash undecodable : Error

pub data Result {ℓ} (A : Type ℓ) : Type ℓ where
  ok : A → Result A
  err : Error → Result A

infixl 5 ◌>>=◌
abbrev pub ◌>>=◌ {ℓ κ} : {A : Type ℓ} {B : Type κ} → Result A → (A → Result B) → Result B
ok a >>= f = f a
err e >>= f = err e

abbrev pub default_chunk_size : ℕ
default_chunk_size = 262144

abbrev pub min_chunk_size : ℕ
min_chunk_size = 16384

abbrev pub max_chunk_size : ℕ
max_chunk_size = 16777216

-- `b"p2p_file/manifest/v1"`
abbrev pub root_hash_domain : List ℕ
root_hash_domain =
    b'p' ∷ b'2' ∷ b'p' ∷ b'_' ∷ b'f' ∷ b'i' ∷ b'l' ∷ b'e' ∷ b'/' ∷ b'm' ∷ b'a' ∷ b'n' ∷ b'i' ∷ b'f'
    ∷ b'e' ∷ b's' ∷ b't' ∷ b'/' ∷ b'v' ∷ b'1' ∷ []

unfoldable pub validate_chunk_size : ℕ → Result (Unit {0})
validate_chunk_size chunk_size =
    if leb min_chunk_size chunk_size && leb chunk_size max_chunk_size
    then ok tt
    else err bad_chunk_size

-- `total_len.div_ceil(chunk_size)`, and 0 for a chunk size of 0.
unfoldable pub chunk_count : ℕ → ℕ → ℕ
chunk_count total_len chunk_size =
    if total_len == 0 || chunk_size == 0 then 0 else (total_len + chunk_size - 1) / chunk_size

abbrev pub checked_mul : ℕ → ℕ → Option ℕ
checked_mul a b = if ltb (a * b) u64_mod then some (a * b) else none

abbrev pub checked_sub : ℕ → ℕ → Option ℕ
checked_sub a b = if leb b a then some (a - b) else none

infixl 5 ◌>>=?◌
abbrev pub ◌>>=?◌ {ℓ κ} : {A : Type ℓ} {B : Type κ} → Option A → (A → Option B) → Option B
none >>=? f = none
some a >>=? f = f a

unfoldable pub chunk_len_at : ℕ → ℕ → ℕ → Option ℕ
chunk_len_at index total_len chunk_size =
    if leb (chunk_count total_len chunk_size) index
    then none
    else (checked_mul index chunk_size >>=? λ offset.
        checked_sub total_len offset >>=? λ remaining. some (min remaining chunk_size % u32_mod))

pub record FileManifest : Type 0 where
  pub file_name : List ℕ
  pub total_len : ℕ  -- u64
  pub chunk_size : ℕ  -- u32
  pub chunks : List (List ℕ)
  pub root_hash : List ℕ

abbrev pub join : List (List ℕ) → List ℕ
join [] = []
join (c ∷ cs) = c ++ join cs

-- `self.chunks.len() as u32`
unfoldable pub manifest_chunk_count : FileManifest → ℕ
manifest_chunk_count m = length m.chunks % u32_mod

unfoldable pub chunk_offset : FileManifest → ℕ → Option ℕ
unfolding manifest_chunk_count
chunk_offset m index =
    if leb (manifest_chunk_count m) index then none else checked_mul index m.chunk_size

unfoldable pub chunk_len : FileManifest → ℕ → Option ℕ
chunk_len m index = chunk_len_at index m.total_len m.chunk_size

unfoldable pub chunk_range : FileManifest → ℕ → Option (ℕ × ℕ)
chunk_range m index =
    chunk_offset m index >>=? λ offset. chunk_len m index >>=? λ len. some (offset, len)

module _ (blake3 : List ℕ → List ℕ) where
  unfoldable pub root_hash_of : List ℕ → ℕ → ℕ → List (List ℕ) → List ℕ
  root_hash_of file_name total_len chunk_size chunks = blake3 (
      root_hash_domain
      ++ (to_le_bytes 8 (length file_name)
          ++ (file_name
              ++ (to_le_bytes 8 total_len
                  ++ (to_le_bytes 4 chunk_size
                      ++ (to_le_bytes 8 (length chunks) ++ join chunks))))))

  unfoldable pub verify_root_hash : FileManifest → Bool
  verify_root_hash m =
      same_bytes m.root_hash (root_hash_of m.file_name m.total_len m.chunk_size m.chunks)

  unfoldable pub validate : FileManifest → Result (Unit {0})
  unfolding validate_chunk_size
  validate m = do
    _ ← validate_chunk_size m.chunk_size
    if ltb (u32_mod - 1) (length m.chunks)
        then err too_many_chunks
        else if length m.chunks != chunk_count m.total_len m.chunk_size
        then err wrong_chunk_count
        else if not (verify_root_hash m)
        then err wrong_root_hash
        else ok tt

  unfoldable pub new : List ℕ → ℕ → ℕ → List (List ℕ) → Result FileManifest
  unfolding validate_chunk_size
  new file_name total_len chunk_size chunks = do
    _ ← validate_chunk_size chunk_size
    let manifest : FileManifest = record {
      file_name = file_name;
      total_len = total_len;
      chunk_size = chunk_size;
      chunks = chunks;
      root_hash = root_hash_of file_name total_len chunk_size chunks;
    }
    _ ← validate manifest
    ok manifest

  -- `ChunkHash::verify`
  unfoldable pub verify : List ℕ → List ℕ → Bool
  verify chunk_hash bytes = same_bytes chunk_hash (blake3 bytes)

  -- Rust panics on `self.chunks[index]` past the end; here the answer is no.
  unfoldable pub verify_chunk : FileManifest → ℕ → List ℕ → Bool
  unfolding verify
  verify_chunk m index bytes = elim (chunk_len m index) [
    | none ↦ false
    | some expected_len ↦
        if length bytes != expected_len then false else elim (get_elem? m.chunks index) [
          | none ↦ false
          | some chunk_hash ↦ verify chunk_hash bytes
        ]
  ]

  unfoldable pub from_bytes : (List ℕ → Option FileManifest) → List ℕ → Result FileManifest
  from_bytes decode bytes = elim (decode bytes) [
    | none ↦ err undecodable
    | some manifest ↦ validate manifest >>= λ _. ok manifest
  ]
