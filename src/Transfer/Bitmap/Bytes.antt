-- ===== src/Transfer/Bitmap/Bytes.antt =====
-- The byte form of a bitmap: `to_bytes`, `from_bytes`, and that a set of chunks has one form only.
use p2p_file.Common.{
  ℕ, ◌+◌, ◌-◌, ◌*◌, ◌/◌, ◌%◌, ◌^◌, ◌≤◌, ◌<◌, ◌≡◌, refl, sym, ap, subst, ◌∙◌, true, false, List, [],
  ◌∷◌, ◌==◌, leb, arith, length, get_or, All, Bool-cases, inl, inr, ==_iff, get_or_beyond,
}
use p2p_file.Common.Bits.{
  bit, bit-le, bit-and, bit_and-lt, zero-bit, byte_ext, bit_complement, bit-ones_below,
  bit-ones_above,
}
use p2p_file.Transfer.Bitmap.{
  ChunkBitmap, ok, byte_len, is_set, clear_padding_bits, padding_bits_are_clear, to_bytes,
  from_bytes, is_empty, last,
}
use p2p_file.Transfer.Bitmap.Digits.{digit, IsValid, byte_of, is_set-digit, digit_ext}
use p2p_file.Transfer.Bitmap.Edits.{clear_padding_digit, pow_lt}
use p2p_file.Transfer.Bitmap.Whole.{clear_padding-IsValid, clear_padding_count}
use Prim.Native.Nat.{bit_and}

-- Well-formed bitmaps of one chunk count that mark the same chunks are equal.
pub bitmap_ext :
    (b c : ChunkBitmap)
    → IsValid b
    → IsValid c
    → b.chunk_count ≡ c.chunk_count
    → ((i : ℕ) → is_set b i ≡ is_set c i)
    → b ≡ c
bitmap_ext b c v w n h = ground (arith, bits)
  where
    same : (i : ℕ) → digit b.bits i ≡ digit c.bits i
    same i = ground (
      arith,
      h i,
      is_set-digit b i v,
      is_set-digit c i w,
      bit-le (get_or b.bits (i / 8) 0) (i % 8),
      bit-le (get_or c.bits (i / 8) 0) (i % 8),
    )

    bits : b.bits ≡ c.bits
    bits = digit_ext b.bits c.bits (omega (arith, v.sized, w.sized)) v.bytes w.bytes same

-- The digits of the last byte that stand for no chunk.
high_mask : (r k : ℕ) → r < 8 → k < 8 → bit (255 - (2 ^ r - 1)) k ≡ 1 - bit (2 ^ r - 1) k
high_mask r k h l = bit_complement 8 k (2 ^ r - 1) l (omega (arith, pow_lt r h))

high_digits_clear :
    (x r k : ℕ) → r < 8 → k < 8 → r ≤ k → bit_and x (255 - (2 ^ r - 1)) ≡ 0 → bit x k ≡ 0
high_digits_clear x r k h l q e = omega (
  arith,
  bit-and k x (255 - (2 ^ r - 1)),
  ap (λ t. bit t k) e,
  zero-bit k,
  high_mask r k h l,
  bit-ones_above r k q,
  bit-le x k,
)

mask_of_clear :
    (x r : ℕ)
    → x < 256
    → r < 8
    → ((k : ℕ) → r ≤ k → k < 8 → bit x k ≡ 0)
    → bit_and x (255 - (2 ^ r - 1)) ≡ 0
mask_of_clear x r hx h c = byte_ext _ 0 (bit_and-lt 8 x _ hx) (omega arith) λ k l.
    elim (Bool-cases (leb r k)) [
      | inl e ↦ omega (arith, bit-and k x (255 - (2 ^ r - 1)), zero-bit k, c k (ground arith) l)
      | inr e ↦ omega (
        arith,
        bit-and k x (255 - (2 ^ r - 1)),
        zero-bit k,
        high_mask r k h l,
        bit-ones_below r k (ground arith),
      )
    ]

nonempty : (l : List ℕ) → 0 < length l → is_empty l ≡ false
nonempty [] h = elim h [ ]
nonempty (x ∷ l) h = refl

last_slot :
    (b : ChunkBitmap)
    → length b.bits ≡ byte_len b.chunk_count
    → 0 < b.chunk_count % 8
    → (last b.bits ≡ get_or b.bits (b.chunk_count / 8) 0) × (is_empty b.bits ≡ false)
last_slot b h p = (ap (λ t. get_or b.bits t 0) back, nonempty b.bits (omega arith))
  where
    back : length b.bits - 1 ≡ b.chunk_count / 8
    back = omega arith

-- The code's test of the padding against the digits past the last chunk.
padding_of_test :
    (b : ChunkBitmap) (j : ℕ)
    → length b.bits ≡ byte_len b.chunk_count
    → padding_bits_are_clear b ≡ true
    → b.chunk_count ≤ j
    → digit b.bits j ≡ 0
unfolding padding_bits_are_clear
padding_of_test b j h t l = elim (Bool-cases (b.chunk_count / 8 == j / 8)) [
  | inl e ↦ elim (Bool-cases (b.chunk_count % 8 == 0)) [
    | inl z ↦ beyond (ground arith)
    | inr z ↦
        ap (λ s. bit (get_or b.bits s 0) (j % 8)) (sym ((==_iff (b.chunk_count / 8) (j / 8)).0 e))
        ∙ high_digits_clear _ (b.chunk_count % 8) (j % 8) (omega arith) (omega arith) (ground arith)
            (ground (arith, last_slot b h (ground arith)))
  ]
  | inr e ↦ beyond (ground arith)
]
  where
    beyond : length b.bits ≤ j / 8 → digit b.bits j ≡ 0
    beyond q = rw (get_or_beyond b.bits (j / 8) 0 q) (zero-bit (j % 8))

test_of_padding : (b : ChunkBitmap) → IsValid b → padding_bits_are_clear b ≡ true
unfolding padding_bits_are_clear
test_of_padding b v = elim (Bool-cases (b.chunk_count % 8 == 0)) [
  | inl z ↦ rw z
  | inr z ↦
      rw (z, (last_slot b v.sized (ground arith)).1, (last_slot b v.sized (ground arith)).0)
        ((==_iff _ 0).1 (
          mask_of_clear _ (b.chunk_count % 8) (byte_of b.bits (b.chunk_count / 8) v.bytes)
            (omega arith) clear_above))
]
  where
    clear_above :
        (k : ℕ) → b.chunk_count % 8 ≤ k → k < 8 → bit (get_or b.bits (b.chunk_count / 8) 0) k ≡ 0
    clear_above k q l =
        digit_at (omega arith) (omega arith) ∙ v.padding (b.chunk_count / 8 * 8 + k) (omega arith)
      where
        digit_at :
            b.chunk_count / 8 ≡ (b.chunk_count / 8 * 8 + k) / 8
            → k ≡ (b.chunk_count / 8 * 8 + k) % 8
            → bit (get_or b.bits (b.chunk_count / 8) 0) k ≡ digit b.bits (b.chunk_count / 8 * 8 + k)
        digit_at p r = rw (← p, ← r)

-- Clearing the padding of a well-formed bitmap changes nothing.
clear_padding_idle : (b : ChunkBitmap) → IsValid b → clear_padding_bits b ≡ b
clear_padding_idle b v = bitmap_ext (clear_padding_bits b) b valid v (clear_padding_count b) λ i.
    ground (
      arith,
      is_set-digit (clear_padding_bits b) i valid,
      is_set-digit b i v,
      clear_padding_digit b i v.sized,
      v.padding i,
    )
  where
    valid : IsValid (clear_padding_bits b)
    valid = clear_padding-IsValid b v.sized v.bytes

-- Reading back the bytes of a well-formed bitmap gives the bitmap.
pub from_bytes-to_bytes :
    (b : ChunkBitmap) → IsValid b → from_bytes b.chunk_count (to_bytes b) ≡ ok b
unfolding from_bytes to_bytes
from_bytes-to_bytes b v = ground (arith, v.sized, test_of_padding b v, clear_padding_idle b v)

-- What from_bytes accepts from a byte string is a well-formed bitmap of the chunk count given
-- with that byte string as its bytes.
pub from_bytes_lem :
    (n : ℕ) (input : List ℕ) (b : ChunkBitmap)
    → All (λ x. x < 256) input
    → from_bytes n input ≡ ok b
    → IsValid b × (b.chunk_count ≡ n) × (to_bytes b ≡ input)
unfolding from_bytes to_bytes
from_bytes_lem n input b a e =
    (subst IsValid raw-b raw_valid, ground (arith, raw-b), ground (arith, raw-b))
  where
    raw : ChunkBitmap
    raw = record { chunk_count = n; bits = input }

    sized : length input ≡ byte_len n
    sized = ground arith

    raw_valid : IsValid raw
    raw_valid = record {
      sized = sized;
      bytes = a;
      padding = λ i l. padding_of_test raw i sized (ground arith) l;
    }

    raw-b : raw ≡ b
    raw-b = ground (arith, clear_padding_idle raw raw_valid)
