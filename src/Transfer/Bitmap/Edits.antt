-- ===== src/Transfer/Bitmap/Edits.antt =====
-- What `set`, `clear`, `merge` and `mark_all` do to the digits.
use p2p_file.Common.{
  ℕ, zero, suc, ◌-◌, ◌/◌, ◌%◌, ◌^◌, ◌≤◌, ◌<◌, ◌≡◌, ◌≢◌, refl, sym, ap, ◌∙◌, true, false, ◌⊎◌, List,
  [], ◌∷◌, if◌then◌else◌, ◌==◌, leb, arith, length, get_or, set, Bool-cases, inl, inr, ==_iff,
  get_or_beyond,
}
use p2p_file.Common.Bits.{
  bit, bit-le, bit-or, bit-and, bit-pow_self, bit-pow_ne, bit_complement, bit-ones_below,
  bit-ones_above, zero-bit,
}
use p2p_file.Transfer.Bitmap.{is_empty, ChunkBitmap, byte_len, clear_padding_bits}
use p2p_file.Transfer.Bitmap.Digits.{digit, digit-set}
use Prim.Native.Nat.{bit_and, bit_or}

pub pow_lt : (k : ℕ) → k < 8 → 2 ^ k < 256
pow_lt zero h = omega arith
pow_lt (suc zero) h = omega arith
pow_lt (suc (suc zero)) h = omega arith
pow_lt (suc (suc (suc zero))) h = omega arith
pow_lt (suc (suc (suc (suc zero)))) h = omega arith
pow_lt (suc (suc (suc (suc (suc zero))))) h = omega arith
pow_lt (suc (suc (suc (suc (suc (suc zero)))))) h = omega arith
pow_lt (suc (suc (suc (suc (suc (suc (suc zero))))))) h = omega arith
pow_lt (suc (suc (suc (suc (suc (suc (suc (suc k)))))))) h = absurd (omega arith)

-- A write of digit `i` alone, whatever operation on the byte brings it about.
one_digit :
    (bits : List ℕ) (i j v d : ℕ)
    → i / 8 < length bits
    → bit v (i % 8) ≡ d
    → (i % 8 ≢ j % 8 → bit v (j % 8) ≡ bit (get_or bits (i / 8) 0) (j % 8))
    → digit (set bits (i / 8) v) j ≡ (if i == j then d else digit bits j)
one_digit bits i j v d h here there =
    rw (digit-set bits (i / 8) v j h) (elim (Bool-cases (i / 8 == j / 8)) [
      | inl e ↦ rw e (elim (Bool-cases (i % 8 == j % 8)) [
        | inl f ↦ rw (same e f) (ap (bit v) (sym ((==_iff (i % 8) (j % 8)).0 f)) ∙ here)
        | inr f ↦ rw (other f) (
            there (λ q. ground arith)
            ∙ ap (λ t. bit (get_or bits t 0) (j % 8)) ((==_iff (i / 8) (j / 8)).0 e))
      ])
      | inr e ↦ rw (e, apart e)
    ])
  where
    same : (i / 8 == j / 8) ≡ true → (i % 8 == j % 8) ≡ true → (i == j) ≡ true
    same e f = ground (arith, (==_iff (i / 8) (j / 8)).0 e, (==_iff (i % 8) (j % 8)).0 f)

    other : (i % 8 == j % 8) ≡ false → (i == j) ≡ false
    other f = ground arith

    apart : (i / 8 == j / 8) ≡ false → (i == j) ≡ false
    apart f = ground arith

pub digit-set_chunk :
    (bits : List ℕ) (i j : ℕ)
    → i / 8 < length bits
    → digit (set bits (i / 8) (bit_or (get_or bits (i / 8) 0) (2 ^ (i % 8)))) j
      ≡ (if i == j then 1 else digit bits j)
digit-set_chunk bits i j h =
    one_digit bits i j _ 1 h
      (omega (
        arith,
        bit-or (i % 8) (get_or bits (i / 8) 0) (2 ^ (i % 8)),
        bit-pow_self (i % 8),
        bit-le (get_or bits (i / 8) 0) (i % 8),
      ))
      (λ ne. omega (
        arith,
        bit-or (j % 8) (get_or bits (i / 8) 0) (2 ^ (i % 8)),
        bit-pow_ne (i % 8) (j % 8) ne,
      ))

pub clear_digit :
    (bits : List ℕ) (i j : ℕ)
    → i / 8 < length bits
    → digit (set bits (i / 8) (bit_and (get_or bits (i / 8) 0) (255 - 2 ^ (i % 8)))) j
      ≡ (if i == j then 0 else digit bits j)
clear_digit bits i j h =
    one_digit bits i j _ 0 h
      (omega (
        arith,
        bit-and (i % 8) (get_or bits (i / 8) 0) (255 - 2 ^ (i % 8)),
        mask (i % 8) (omega arith),
        bit-pow_self (i % 8),
      ))
      (λ ne. omega (
        arith,
        bit-and (j % 8) (get_or bits (i / 8) 0) (255 - 2 ^ (i % 8)),
        mask (j % 8) (omega arith),
        bit-pow_ne (i % 8) (j % 8) ne,
        bit-le (get_or bits (i / 8) 0) (j % 8),
      ))
  where
    mask : (k : ℕ) → k < 8 → bit (255 - 2 ^ (i % 8)) k ≡ 1 - bit (2 ^ (i % 8)) k
    mask k l = bit_complement 8 k (2 ^ (i % 8)) l (pow_lt (i % 8) (omega arith))

unfoldable pub masked : ChunkBitmap → ChunkBitmap
masked b = record b {
  bits =
      set b.bits (b.chunk_count / 8)
        (bit_and (get_or b.bits (b.chunk_count / 8) 0) (2 ^ (b.chunk_count % 8) - 1));
}

-- Either the last byte is full and nothing is done, or its high digits are masked off.
pub clear_padding_cases :
    (b : ChunkBitmap)
    → length b.bits ≡ byte_len b.chunk_count
    → ((b.chunk_count % 8 ≡ 0) × (clear_padding_bits b ≡ b))
      ⊎ ((0 < b.chunk_count % 8) × (clear_padding_bits b ≡ masked b))
unfolding clear_padding_bits masked
clear_padding_cases b h = elim (Bool-cases (b.chunk_count % 8 == 0)) [
  | inl e ↦ inl ((==_iff (b.chunk_count % 8) 0).0 e, rw e)
  | inr e ↦ inr (ground arith, rw (e, nonempty b.bits (omega (arith, pos e)), back e) refl)
]
  where
    pos : (b.chunk_count % 8 == 0) ≡ false → 0 < b.chunk_count % 8
    pos e = ground arith

    back : (b.chunk_count % 8 == 0) ≡ false → length b.bits - 1 ≡ b.chunk_count / 8
    back e = omega (arith, pos e)

    nonempty : (l : List ℕ) → 0 < length l → is_empty l ≡ false
    nonempty [] q = elim q [ ]
    nonempty (x ∷ xs) q = refl

digit-masked :
    (b : ChunkBitmap) (j : ℕ)
    → length b.bits ≡ byte_len b.chunk_count
    → 0 < b.chunk_count % 8
    → digit (masked b).bits j ≡ (if leb b.chunk_count j then 0 else digit b.bits j)
unfolding masked
digit-masked b j h p =
    rw (digit-set b.bits (b.chunk_count / 8) (bit_and slot ones) j (omega arith))
      (elim (Bool-cases (b.chunk_count / 8 == j / 8)) [
        | inl e ↦ rw e (ground (arith, here ((==_iff (b.chunk_count / 8) (j / 8)).0 e)))
        | inr e ↦ rw e (ground (arith, beyond e))
      ])
  where
    slot : ℕ
    slot = get_or b.bits (b.chunk_count / 8) 0

    ones : ℕ
    ones = 2 ^ (b.chunk_count % 8) - 1

    here :
        b.chunk_count / 8 ≡ j / 8
        → bit (bit_and slot ones) (j % 8) ≡ (if leb b.chunk_count j then 0 else digit b.bits j)
    here e = elim (Bool-cases (leb b.chunk_count j)) [
      | inl l ↦ rw l (
          omega (
            arith,
            bit-and (j % 8) slot ones,
            bit-ones_above (b.chunk_count % 8) (j % 8) (ground arith),
          ))
      | inr l ↦ rw l (
          omega (
            arith,
            bit-and (j % 8) slot ones,
            bit-le slot (j % 8),
            bit-ones_below (b.chunk_count % 8) (j % 8) (ground arith),
            ap (λ t. bit (get_or b.bits t 0) (j % 8)) e,
          ))
    ]

    beyond : (b.chunk_count / 8 == j / 8) ≡ false → b.chunk_count ≤ j → digit b.bits j ≡ 0
    beyond e l = rw (get_or_beyond b.bits (j / 8) 0 (ground arith)) (zero-bit (j % 8))

-- `clear_padding_bits` zeroes the digits past the last chunk and no other.
pub clear_padding_digit :
    (b : ChunkBitmap) (j : ℕ)
    → length b.bits ≡ byte_len b.chunk_count
    → digit (clear_padding_bits b).bits j ≡ (if leb b.chunk_count j then 0 else digit b.bits j)
clear_padding_digit b j h = elim (clear_padding_cases b h) [
  | inl (z, e) ↦ rw e (ground (arith, beyond z))
  | inr (p, e) ↦ rw e (digit-masked b j h p)
]
  where
    beyond : b.chunk_count % 8 ≡ 0 → b.chunk_count ≤ j → digit b.bits j ≡ 0
    beyond z l = rw (get_or_beyond b.bits (j / 8) 0 (omega arith)) (zero-bit (j % 8))
