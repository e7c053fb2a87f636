-- ===== src/Examples/Transfers.antt =====
-- The transfer core on small inputs: a bitmap of ten chunks, a manifest, file names.
use p2p_file.Common.{
  ℕ, ◌+◌, ◌≤◌, ◌<◌, ◌≡◌, ◌≢◌, refl, ◌⊎◌, ◌↔◌, true, false, ◌||◌, List, [], ◌∷◌, Option, none, some,
  arith, length, ◌==◌,
}
use p2p_file.Transfer.Bitmap.{
  ChunkBitmap, ok, err, index_out_of_range, count_mismatch, new, is_set, set_chunk, is_complete,
  missing, present, merge, to_bytes, from_bytes, clear_padding_bits, padding_bits_are_clear,
}
use p2p_file.Transfer.Bitmap.Digits
use p2p_file.Transfer.Bitmap.Operations.{new-IsValid, set_chunk_lem}
use p2p_file.Transfer.Bitmap.Whole.{merge_lem}
use p2p_file.Transfer.Bitmap.Bytes.{from_bytes-to_bytes, from_bytes_lem}
use p2p_file.Transfer.Bitmap.Counts.{is_complete_iff}
use p2p_file.Transfer.Manifest.{
  FileManifest, chunk_range, chunk_offset, validate, from_bytes as read_manifest,
}
use p2p_file.Transfer.Manifest
use p2p_file.Transfer.Manifest.Ranges.{IsSized, chunk_range_tiles}
use p2p_file.Transfer.Manifest.Validity.{IsValid, validate_iff}
use p2p_file.Transfer.FileName.{
  safe_file_name, is_empty, is_separator, is_control, some_char, safe_file_name_clean,
  safe_file_name_dots,
}

-- Chunks 0, 3 and 9 of ten.
abbrev some_chunks : ChunkBitmap
some_chunks = record { chunk_count = 10; bits = 9 ∷ 2 ∷ [] }

some_chunks_bytes : from_bytes 10 (9 ∷ 2 ∷ []) ≡ ok some_chunks
unfolding from_bytes clear_padding_bits padding_bits_are_clear
some_chunks_bytes = refl

some_chunks-IsValid : Digits.IsValid some_chunks
some_chunks-IsValid = (from_bytes_lem 10 (9 ∷ 2 ∷ []) some_chunks (omega arith) some_chunks_bytes).0

present_some : present some_chunks ≡ 0 ∷ 3 ∷ 9 ∷ []
unfolding present is_set
present_some = refl

missing_some : missing some_chunks ≡ 1 ∷ 2 ∷ 4 ∷ 5 ∷ 6 ∷ 7 ∷ 8 ∷ []
unfolding missing is_set
missing_some = refl

set_chunk_lem_example :
    ((10 ≤ 9) × (set_chunk some_chunks 9 ≡ err index_out_of_range))
    ⊎ ((9 < 10)
        × ((c : ChunkBitmap) × (set_chunk some_chunks 9 ≡ ok c)
            × Digits.IsValid c
            × (c.chunk_count ≡ 10)
            × ((j : ℕ) → is_set c j ≡ (9 == j || is_set some_chunks j))))
set_chunk_lem_example = set_chunk_lem some_chunks 9 some_chunks-IsValid

merge_lem_example :
    ((10 ≢ (new 10).chunk_count) × (merge some_chunks (new 10) ≡ err count_mismatch))
    ⊎ ((c : ChunkBitmap) × (merge some_chunks (new 10) ≡ ok c)
        × Digits.IsValid c
        × (c.chunk_count ≡ 10)
        × ((j : ℕ) → is_set c j ≡ (is_set some_chunks j || is_set (new 10) j)))
merge_lem_example = merge_lem some_chunks (new 10) some_chunks-IsValid (new-IsValid 10)

from_bytes-to_bytes_example : from_bytes 10 (to_bytes some_chunks) ≡ ok some_chunks
from_bytes-to_bytes_example = from_bytes-to_bytes some_chunks some_chunks-IsValid

from_bytes_lem_example :
    Digits.IsValid some_chunks
    × (some_chunks.chunk_count ≡ 10)
    × (to_bytes some_chunks ≡ 9 ∷ 2 ∷ [])
from_bytes_lem_example = from_bytes_lem 10 (9 ∷ 2 ∷ []) some_chunks (omega arith) some_chunks_bytes

is_complete_iff_example :
    (is_complete some_chunks ≡ true) ↔ ((i : ℕ) → i < 10 → is_set some_chunks i ≡ true)
is_complete_iff_example = is_complete_iff some_chunks some_chunks-IsValid

-- A file of 20000 bytes in chunks of 16 KiB. The hash here keeps nothing of its input.
abbrev no_hash : List ℕ → List ℕ
no_hash _ = []

abbrev small_manifest : FileManifest
small_manifest = record {
  file_name = b'a' ∷ [];
  total_len = 20000;
  chunk_size = 16384;
  chunks = [] ∷ [] ∷ [];
  root_hash = [];
}

small_manifest_ok : validate no_hash small_manifest ≡ Manifest.ok tt
unfolding validate Manifest.chunk_count Manifest.verify_root_hash Manifest.root_hash_of
small_manifest_ok = refl

small_manifest-IsSized : IsSized small_manifest
unfolding Manifest.chunk_count
small_manifest-IsSized = omega arith

chunk_range_tiles_example :
    ((2 ≤ 1) × (chunk_range small_manifest 1 ≡ none))
    ⊎ ((offset : ℕ) × (len : ℕ) × (chunk_range small_manifest 1 ≡ some (offset, len))
        × (0 < len)
        × (len ≤ 16384)
        × ((chunk_offset small_manifest 2 ≡ some (offset + len))
            ⊎ ((2 ≡ length small_manifest.chunks) × (offset + len ≡ 20000))))
chunk_range_tiles_example = chunk_range_tiles small_manifest 1 small_manifest-IsSized

validate_iff_example :
    (validate no_hash small_manifest ≡ Manifest.ok tt) ↔ IsValid no_hash small_manifest
validate_iff_example = validate_iff no_hash small_manifest

new_small : Manifest.new no_hash (b'a' ∷ []) 20000 16384 ([] ∷ [] ∷ []) ≡ Manifest.ok small_manifest
unfolding Manifest.new validate Manifest.chunk_count Manifest.verify_root_hash Manifest.root_hash_of
new_small = refl

abbrev always_small : List ℕ → Option FileManifest
always_small _ = some small_manifest

read_small : read_manifest no_hash always_small (1 ∷ []) ≡ Manifest.ok small_manifest
unfolding read_manifest validate Manifest.chunk_count Manifest.verify_root_hash
    Manifest.root_hash_of
read_small = refl

-- `../../etc/passwd`
abbrev climbing : List ℕ
climbing =
    b'.' ∷ b'.' ∷ b'/' ∷ b'.' ∷ b'.' ∷ b'/' ∷ b'e' ∷ b't' ∷ b'c' ∷ b'/' ∷ b'p' ∷ b'a' ∷ b's' ∷ b's'
    ∷ b'w' ∷ b'd' ∷ []

safe_file_name_clean_example :
    (is_empty (safe_file_name climbing) ≡ false)
    × (some_char is_separator (safe_file_name climbing) ≡ false)
    × (some_char is_control (safe_file_name climbing) ≡ false)
safe_file_name_clean_example = safe_file_name_clean climbing

safe_file_name_dots_example : safe_file_name (1 ∷ b'.' ∷ b'.' ∷ 2 ∷ []) ≡ b'.' ∷ b'.' ∷ []
safe_file_name_dots_example = safe_file_name_dots 1 2 refl refl refl refl
