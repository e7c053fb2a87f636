-- ===== src/Transfer/Bitmap/Operations.antt =====
-- The operations of src/transfer/resume.rs against the set of chunks that a bitmap stands for.
use p2p_file.Common.{
  ℕ, zero, suc, ◌-◌, ◌/◌, ◌%◌, ◌^◌, ◌≤◌, ◌<◌, ◌≡◌, refl, ◌∙◌, ◌⊎◌, ◌||◌, ◌&&◌, not, if◌then◌else◌,
  ◌==◌, leb, arith, get_or, set, All, replicate, length-set, All-set, Bool-cases, inl, inr,
  length-replicate, get_or-replicate,
}
use p2p_file.Common.Bits.{bit_or-lt, bit_and-lt, zero-bit}
use p2p_file.Transfer.Bitmap.{
  ChunkBitmap, ok, err, index_out_of_range, byte_len, is_set, set_chunk, clear, new,
}
use p2p_file.Transfer.Bitmap.Digits.{digit, IsValid, byte_of, slot_in_range, is_set-digit}
use p2p_file.Transfer.Bitmap.Edits.{digit-set_chunk, clear_digit, pow_lt}
use Prim.Native.Nat.{bit_and, bit_or}

pub new-IsValid : (n : ℕ) → IsValid (new n)
unfolding new
new-IsValid n = record {
  sized = length-replicate (byte_len n) 0;
  bytes = zeroes (byte_len n);
  padding = λ i h. rw (get_or-replicate {A = ℕ} (byte_len n) (i / 8) 0) (zero-bit (i % 8));
}
  where
    zeroes : (k : ℕ) → All (λ (x : ℕ). x < 256) (replicate k 0)
    zeroes zero = tt
    zeroes (suc k) = (omega arith, zeroes k)

-- One digit of a valid bitmap rewritten.
rewritten :
    (b : ChunkBitmap) (i v : ℕ)
    → IsValid b
    → i < b.chunk_count
    → v < 256
    → (d : ℕ) → ((j : ℕ) → digit (set b.bits (i / 8) v) j ≡ (if i == j then d else digit b.bits j))
    → IsValid (record b { bits = set b.bits (i / 8) v })
rewritten b i v w h l d e = record {
  sized = length-set b.bits (i / 8) v ∙ w.sized;
  bytes = All-set (λ x. x < 256) b.bits (i / 8) v l w.bytes;
  padding = λ j q. e j ∙ ground (arith, w.padding j q);
}

-- On a well-formed bitmap set fails exactly past the last chunk, and otherwise marks the one
-- chunk, changes no other and keeps the bitmap well formed.
pub set_chunk_lem :
    (b : ChunkBitmap) (index : ℕ)
    → IsValid b
    → ((b.chunk_count ≤ index) × (set_chunk b index ≡ err index_out_of_range))
      ⊎ ((index < b.chunk_count)
          × ((c : ChunkBitmap) × (set_chunk b index ≡ ok c)
              × IsValid c
              × (c.chunk_count ≡ b.chunk_count)
              × ((j : ℕ) → is_set c j ≡ (index == j || is_set b j))))
unfolding set_chunk
set_chunk_lem b index v = elim (Bool-cases (leb b.chunk_count index)) [
  | inl e ↦ inl (ground arith, rw (e, set_chunk))
  | inr e ↦ inr (
    ground arith,
    (
      c,
      rw (e, set_chunk),
      valid (ground arith),
      refl,
      λ j.
          is_set-digit c j (valid (ground arith))
          ∙ ground (arith, digits (ground arith) j, is_set-digit b j v),
    ),
  )
]
  where
    slot : ℕ
    slot = get_or b.bits (index / 8) 0

    value : ℕ
    value = bit_or slot (2 ^ (index % 8))

    c : ChunkBitmap
    c = record b { bits = set b.bits (index / 8) value }

    digits :
        index < b.chunk_count
        → (j : ℕ) → digit c.bits j ≡ (if index == j then 1 else digit b.bits j)
    digits h j = digit-set_chunk b.bits index j (slot_in_range b index v h)

    valid : index < b.chunk_count → IsValid c
    valid h =
        rewritten b index value v h
          (bit_or-lt 8 slot (2 ^ (index % 8)) (byte_of b.bits (index / 8) v.bytes)
            (pow_lt (index % 8) (omega arith)))
          1 (digits h)

-- On a well-formed bitmap clear fails exactly past the last chunk, and otherwise unmarks the one
-- chunk, changes no other and keeps the bitmap well formed.
pub clear_lem :
    (b : ChunkBitmap) (index : ℕ)
    → IsValid b
    → ((b.chunk_count ≤ index) × (clear b index ≡ err index_out_of_range))
      ⊎ ((index < b.chunk_count)
          × ((c : ChunkBitmap) × (clear b index ≡ ok c)
              × IsValid c
              × (c.chunk_count ≡ b.chunk_count)
              × ((j : ℕ) → is_set c j ≡ (not (index == j) && is_set b j))))
unfolding clear
clear_lem b index v = elim (Bool-cases (leb b.chunk_count index)) [
  | inl e ↦ inl (ground arith, rw (e, clear))
  | inr e ↦ inr (
    ground arith,
    (
      c,
      rw (e, clear),
      valid (ground arith),
      refl,
      λ j.
          is_set-digit c j (valid (ground arith))
          ∙ ground (arith, digits (ground arith) j, is_set-digit b j v),
    ),
  )
]
  where
    slot : ℕ
    slot = get_or b.bits (index / 8) 0

    value : ℕ
    value = bit_and slot (255 - 2 ^ (index % 8))

    c : ChunkBitmap
    c = record b { bits = set b.bits (index / 8) value }

    digits :
        index < b.chunk_count
        → (j : ℕ) → digit c.bits j ≡ (if index == j then 0 else digit b.bits j)
    digits h j = clear_digit b.bits index j (slot_in_range b index v h)

    valid : index < b.chunk_count → IsValid c
    valid h =
        rewritten b index value v h
          (bit_and-lt 8 slot (255 - 2 ^ (index % 8)) (byte_of b.bits (index / 8) v.bytes)) 0
          (digits h)
