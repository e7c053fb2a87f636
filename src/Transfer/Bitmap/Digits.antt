-- ===== src/Transfer/Bitmap/Digits.antt =====
-- The bitmap seen as a function from chunk numbers to digits, and what a well-formed bitmap is.
use p2p_file.Common.{
  ℕ, zero, suc, ◌+◌, ◌/◌, ◌%◌, ◌≤◌, ◌<◌, ◌≡◌, refl, sym, ap, ◌∙◌, List, [], ◌∷◌, if◌then◌else◌,
  ◌==◌, arith, length, get_or, set, All, get_or-set_self, get_or-set_ne, Bool-cases, inl, inr,
  ==_iff,
}
use p2p_file.Common.Bits.{bit, bit_and_test, byte_ext}
use p2p_file.Transfer.Bitmap.{ChunkBitmap, byte_len, is_set}

abbrev pub digit : List ℕ → ℕ → ℕ
digit bits i = bit (get_or bits (i / 8) 0) (i % 8)

-- The vector has the length that the chunk count calls for, its elements are bytes, and no digit
-- past the last chunk is set.
pub record IsValid (b : ChunkBitmap) : Type 0 where
  pub sized : length b.bits ≡ byte_len b.chunk_count
  pub bytes : All (λ x. x < 256) b.bits
  pub padding : (i : ℕ) → b.chunk_count ≤ i → digit b.bits i ≡ 0

pub byte_of : (bits : List ℕ) (i : ℕ) → All (λ x. x < 256) bits → get_or bits i 0 < 256
byte_of [] i h = omega arith
byte_of (x ∷ xs) zero h = h.0
byte_of (x ∷ xs) (suc i) h = byte_of xs i h.1

pub slot_in_range :
    (b : ChunkBitmap) (i : ℕ) → IsValid b → i < b.chunk_count → i / 8 < length b.bits
slot_in_range b i v h = omega (arith, v.sized)

-- `is_set` reads the digit, and answers no past the last chunk.
pub is_set-digit : (b : ChunkBitmap) (i : ℕ) → IsValid b → is_set b i ≡ (digit b.bits i == 1)
unfolding is_set
is_set-digit b i v = ground (arith, v.padding i, bit_and_test (i % 8) (get_or b.bits (i / 8) 0))

-- A write of one byte changes the digits of that byte.
pub digit-set :
    (bits : List ℕ) (byte v j : ℕ)
    → byte < length bits
    → digit (set bits byte v) j ≡ (if byte == j / 8 then bit v (j % 8) else digit bits j)
digit-set bits byte v j h = elim (Bool-cases (byte == j / 8)) [
  | inl e ↦ rw e (
      ap (λ t. bit t (j % 8))
        (ap (λ t. get_or (set bits byte v) t 0) (sym ((==_iff byte (j / 8)).0 e))
          ∙ get_or-set_self bits byte v 0 h))
  | inr e ↦ rw e (ap (λ t. bit t (j % 8)) (get_or-set_ne bits byte (j / 8) v 0 (λ q. ground arith)))
]

pub digit-tail : (x : ℕ) (xs : List ℕ) (i : ℕ) → digit (x ∷ xs) (i + 8) ≡ digit xs i
digit-tail x xs i = ap₂' quotient remainder
  where
    quotient : (i + 8) / 8 ≡ suc (i / 8)
    quotient = omega arith

    remainder : (i + 8) % 8 ≡ i % 8
    remainder = omega arith

    ap₂' : {p q r s : ℕ} → p ≡ suc q → r ≡ s → bit (get_or (x ∷ xs) p 0) r ≡ bit (get_or xs q 0) s
    ap₂' e f = rw (e, f)

-- Byte lists of one length with the same digits are the same.
pub digit_ext :
    (xs ys : List ℕ)
    → length xs ≡ length ys
    → All (λ x. x < 256) xs
    → All (λ x. x < 256) ys
    → ((i : ℕ) → digit xs i ≡ digit ys i)
    → xs ≡ ys
digit_ext [] [] n h k e = refl
digit_ext [] (y ∷ ys) n h k e = absurd (omega arith)
digit_ext (x ∷ xs) [] n h k e = absurd (omega arith)
digit_ext (x ∷ xs) (y ∷ ys) n h k e = cc (
  byte_ext x y h.0 k.0 head,
  digit_ext xs ys (omega arith) h.1 k.1
      (λ i. sym (digit-tail x xs i) ∙ e (i + 8) ∙ digit-tail y ys i),
)
  where
    low : (i : ℕ) → i < 8 → i / 8 ≡ 0
    low i l = omega arith

    same : (i : ℕ) → i < 8 → i % 8 ≡ i
    same i l = omega arith

    first : (z : ℕ) (zs : List ℕ) (i : ℕ) → i < 8 → digit (z ∷ zs) i ≡ bit z i
    first z zs i l = rw (low i l, same i l)

    head : (i : ℕ) → i < 8 → bit x i ≡ bit y i
    head i l = sym (first x xs i l) ∙ e i ∙ first y ys i l
