-- ===== src/Transfer/Bitmap/Whole.antt =====
-- The operations on whole bitmaps: `clear_padding_bits`, `merge`, `mark_all`, `from_present`.
use p2p_file.Common.{
  ℕ, zero, suc, ◌-◌, ◌/◌, ◌%◌, ◌^◌, ◌<◌, ◌≡◌, ◌≢◌, refl, ap, ◌∙◌, ◌⊎◌, true, ◌||◌, List, [], ◌∷◌,
  if◌then◌else◌, ◌==◌, leb, arith, length, get_or, All, length-set, All-set, Bool-cases, inl, inr,
  ==_iff, max,
}
use p2p_file.Common.Bits.{bit-le, bit-or, bit_or-lt, bit_and-lt}
use p2p_file.Transfer.Bitmap.{
  ChunkBitmap, ok, err, count_mismatch, byte_len, is_set, clear_padding_bits, merge, is_empty,
  or_each,
}
use p2p_file.Transfer.Bitmap.Digits.{digit, IsValid, byte_of, is_set-digit}
use p2p_file.Transfer.Bitmap.Edits.{clear_padding_digit, clear_padding_cases, masked}
use Prim.Native.Nat.{bit_and, bit_or}

pub clear_padding_count : (b : ChunkBitmap) → (clear_padding_bits b).chunk_count ≡ b.chunk_count
unfolding clear_padding_bits
clear_padding_count b = elim (Bool-cases (b.chunk_count % 8 == 0 || is_empty b.bits)) [
  | inl e ↦ rw e
  | inr e ↦ rw e
]

-- Padding cleared, any vector of bytes of the right length is well formed.
pub clear_padding-IsValid :
    (b : ChunkBitmap)
    → length b.bits ≡ byte_len b.chunk_count
    → All (λ x. x < 256) b.bits
    → IsValid (clear_padding_bits b)
unfolding masked
clear_padding-IsValid b h a = record {
  sized = elim (clear_padding_cases b h) [
    | inl (_, e) ↦ rw e h
    | inr (_, e) ↦ rw e (length-set b.bits (b.chunk_count / 8) masked_byte ∙ h)
  ];
  bytes = elim (clear_padding_cases b h) [
    | inl (_, e) ↦ rw e a
    | inr (_, e) ↦ rw e (All-set (λ x. x < 256) b.bits (b.chunk_count / 8) masked_byte below a)
  ];
  padding = λ i l. clear_padding_digit b i h ∙ ground (arith, clear_padding_count b);
}
  where
    masked_byte : ℕ
    masked_byte = bit_and (get_or b.bits (b.chunk_count / 8) 0) (2 ^ (b.chunk_count % 8) - 1)

    below : masked_byte < 256
    below =
        bit_and-lt 8 (get_or b.bits (b.chunk_count / 8) 0) _ (byte_of b.bits (b.chunk_count / 8) a)

or_each_shape :
    (xs ys : List ℕ)
    → length xs ≡ length ys
    → All (λ x. x < 256) xs
    → All (λ x. x < 256) ys
    → (length (or_each xs ys) ≡ length xs) × All (λ x. x < 256) (or_each xs ys)
unfolding or_each
or_each_shape [] ys h a c = (refl, tt)
or_each_shape (x ∷ xs) [] h a c = absurd (omega arith)
or_each_shape (x ∷ xs) (y ∷ ys) h a c =
    let (l, r) = or_each_shape xs ys (omega arith) a.1 c.1 in
    (ap suc l, (bit_or-lt 8 x y a.0 c.0, r))

or_each_byte :
    (xs ys : List ℕ) (i : ℕ)
    → length xs ≡ length ys
    → get_or (or_each xs ys) i 0 ≡ bit_or (get_or xs i 0) (get_or ys i 0)
unfolding or_each
or_each_byte [] [] i h = refl
or_each_byte [] (y ∷ ys) i h = absurd (omega arith)
or_each_byte (x ∷ xs) [] i h = absurd (omega arith)
or_each_byte (x ∷ xs) (y ∷ ys) zero h = refl
or_each_byte (x ∷ xs) (y ∷ ys) (suc i) h = or_each_byte xs ys i (omega arith)

-- merge of well-formed bitmaps fails exactly on different chunk counts, and otherwise gives the
-- well-formed bitmap of the union.
pub merge_lem :
    (b other : ChunkBitmap)
    → IsValid b
    → IsValid other
    → ((b.chunk_count ≢ other.chunk_count) × (merge b other ≡ err count_mismatch))
      ⊎ ((c : ChunkBitmap) × (merge b other ≡ ok c)
          × IsValid c
          × (c.chunk_count ≡ b.chunk_count)
          × ((j : ℕ) → is_set c j ≡ (is_set b j || is_set other j)))
unfolding merge
merge_lem b other v w = elim (Bool-cases (b.chunk_count == other.chunk_count)) [
  | inl e ↦ inr (
    clear_padding_bits joined,
    ground arith,
    valid (same e),
    clear_padding_count joined,
    λ j.
        is_set-digit (clear_padding_bits joined) j (valid (same e))
        ∙ ground (
          arith,
          digits (same e) j,
          is_set-digit b j v,
          is_set-digit other j w,
          v.padding j,
          w.padding j,
          bit-le (get_or b.bits (j / 8) 0) (j % 8),
          bit-le (get_or other.bits (j / 8) 0) (j % 8),
        ),
  )
  | inr e ↦ inl (λ q. ground arith, ground arith)
]
  where
    joined : ChunkBitmap
    joined = record b { bits = or_each b.bits other.bits }

    same : (b.chunk_count == other.chunk_count) ≡ true → b.chunk_count ≡ other.chunk_count
    same e = (==_iff b.chunk_count other.chunk_count).0 e

    lengths : b.chunk_count ≡ other.chunk_count → length b.bits ≡ length other.bits
    lengths e = omega (arith, v.sized, w.sized)

    sized : b.chunk_count ≡ other.chunk_count → length joined.bits ≡ byte_len b.chunk_count
    sized e = (or_each_shape b.bits other.bits (lengths e) v.bytes w.bytes).0 ∙ v.sized

    valid : b.chunk_count ≡ other.chunk_count → IsValid (clear_padding_bits joined)
    valid e =
        clear_padding-IsValid joined (sized e)
          (or_each_shape b.bits other.bits (lengths e) v.bytes w.bytes).1

    digits :
        b.chunk_count ≡ other.chunk_count
        → (j : ℕ)
        → digit (clear_padding_bits joined).bits j
          ≡ (if leb b.chunk_count j then 0 else max (digit b.bits j) (digit other.bits j))
    digits e j =
        clear_padding_digit joined j (sized e)
        ∙ rw (or_each_byte b.bits other.bits (j / 8) (lengths e))
            (rw (bit-or (j % 8) (get_or b.bits (j / 8) 0) (get_or other.bits (j / 8) 0)))
