-- ===== src/Transfer/Bitmap/Fill.antt =====
-- `mark_all` and `from_present`.
use p2p_file.Common.{
  ℕ, zero, suc, ◌/◌, ◌%◌, ◌<◌, ◌≡◌, refl, ap, ◌∙◌, ◌⊎◌, Bool, true, false, ◌||◌, List, [], ◌∷◌,
  if◌then◌else◌, ◌==◌, ltb, leb, arith, length, get_or, get_or-replicate, All, inl, inr,
}
use p2p_file.Common.Bits.{bit, zero-bit}
use p2p_file.Transfer.Bitmap.{
  ChunkBitmap, ok, err, index_out_of_range, is_set, is_complete, mark_all, new, from_present,
  fill_ones, set_each, clear_padding_bits, byte_len,
}
use p2p_file.Transfer.Bitmap.Digits.{digit, IsValid, is_set-digit}
use p2p_file.Transfer.Bitmap.Edits.{clear_padding_digit}
use p2p_file.Transfer.Bitmap.Operations.{new-IsValid, set_chunk_lem}
use p2p_file.Transfer.Bitmap.Whole.{clear_padding-IsValid, clear_padding_count}
use p2p_file.Transfer.Bitmap.Counts.{is_complete_iff}

ones_bytes : (xs : List ℕ) → All (λ x. x < 256) (fill_ones xs)
unfolding fill_ones
ones_bytes [] = tt
ones_bytes (x ∷ xs) = (omega arith, ones_bytes xs)

length-fill_ones : (xs : List ℕ) → length (fill_ones xs) ≡ length xs
unfolding fill_ones
length-fill_ones [] = refl
length-fill_ones (x ∷ xs) = ap suc (length-fill_ones xs)

get_or-fill_ones : (xs : List ℕ) (i : ℕ) → i < length xs → get_or (fill_ones xs) i 0 ≡ 255
unfolding fill_ones
get_or-fill_ones [] i h = elim h [ ]
get_or-fill_ones (x ∷ xs) zero h = refl
get_or-fill_ones (x ∷ xs) (suc i) h = get_or-fill_ones xs i (omega arith)

bit_255 : (k : ℕ) → k < 8 → bit 255 k ≡ 1
bit_255 zero h = refl
bit_255 (suc zero) h = refl
bit_255 (suc (suc zero)) h = refl
bit_255 (suc (suc (suc zero))) h = refl
bit_255 (suc (suc (suc (suc zero)))) h = refl
bit_255 (suc (suc (suc (suc (suc zero))))) h = refl
bit_255 (suc (suc (suc (suc (suc (suc zero)))))) h = refl
bit_255 (suc (suc (suc (suc (suc (suc (suc zero))))))) h = refl
bit_255 (suc (suc (suc (suc (suc (suc (suc (suc k)))))))) h = absurd (omega arith)

-- mark_all of a well-formed bitmap is well formed, marks exactly the chunks below the chunk
-- count, and is complete.
pub mark_all_lem :
    (b : ChunkBitmap)
    → IsValid b
    → IsValid (mark_all b)
      × ((j : ℕ) → is_set (mark_all b) j ≡ ltb j b.chunk_count)
      × (is_complete (mark_all b) ≡ true)
unfolding mark_all
mark_all_lem b v = (
  valid,
  marked,
  (is_complete_iff (clear_padding_bits full) valid).1
      λ i l. marked i ∙ ground (arith, clear_padding_count full),
)
  where
    full : ChunkBitmap
    full = record b { bits = fill_ones b.bits }

    sized : length full.bits ≡ byte_len b.chunk_count
    sized = length-fill_ones b.bits ∙ v.sized

    valid : IsValid (clear_padding_bits full)
    valid = clear_padding-IsValid full sized (ones_bytes b.bits)

    one : (j : ℕ) → j < b.chunk_count → digit full.bits j ≡ 1
    one j l =
        ap (λ t. bit t (j % 8)) (get_or-fill_ones b.bits (j / 8) (omega (arith, v.sized)))
        ∙ bit_255 (j % 8) (omega arith)

    marked : (j : ℕ) → is_set (clear_padding_bits full) j ≡ ltb j b.chunk_count
    marked j =
        is_set-digit (clear_padding_bits full) j valid
        ∙ ground (arith, clear_padding_digit full j sized, one j)

abbrev pub contains : List ℕ → ℕ → Bool
contains [] j = false
contains (i ∷ is) j = i == j || contains is j

abbrev pub all_below : ℕ → List ℕ → Bool
all_below n [] = true
all_below n (i ∷ is) = if leb n i then false else all_below n is

set_each_lem :
    (b : ChunkBitmap) (present : List ℕ)
    → IsValid b
    → ((all_below b.chunk_count present ≡ false) × (set_each b present ≡ err index_out_of_range))
      ⊎ ((all_below b.chunk_count present ≡ true)
          × ((c : ChunkBitmap) × (set_each b present ≡ ok c)
              × IsValid c
              × (c.chunk_count ≡ b.chunk_count)
              × ((j : ℕ) → is_set c j ≡ (is_set b j || contains present j))))
unfolding set_each
set_each_lem b [] v = inr (refl, (b, refl, v, refl, λ j. ground arith))
set_each_lem b (i ∷ is) v = elim (set_chunk_lem b i v) [
  | inl (h, e) ↦ inl (ground arith, rw e)
  | inr (h, (c, e, w, n, m)) ↦ elim (set_each_lem c is w) [
    | inl (h', e') ↦ inl (ground arith, rw e e')
    | inr (h', (d, e', w', n', m')) ↦
        inr (ground arith, (d, rw e e', w', n' ∙ n, λ j. ground (arith, m j, m' j)))
  ]
]

pub new_clear : (n j : ℕ) → is_set (new n) j ≡ false
unfolding new
new_clear n j =
    is_set-digit (new n) j (new-IsValid n)
    ∙ rw (get_or-replicate {A = ℕ} (byte_len n) (j / 8) 0, zero-bit (j % 8))

-- from_present fails exactly if a chunk number lies past the last chunk, and otherwise gives the
-- well-formed bitmap that marks exactly the chunks listed.
pub from_present_lem :
    (n : ℕ) (present : List ℕ)
    → ((all_below n present ≡ false) × (from_present n present ≡ err index_out_of_range))
      ⊎ ((all_below n present ≡ true)
          × ((c : ChunkBitmap) × (from_present n present ≡ ok c)
              × IsValid c
              × (c.chunk_count ≡ n)
              × ((j : ℕ) → is_set c j ≡ contains present j)))
unfolding from_present new
from_present_lem n present = elim (set_each_lem (new n) present (new-IsValid n)) [
  | inl (h, e) ↦ inl (h, e)
  | inr (h, (c, e, v, m, s)) ↦ inr (h, (c, e, v, m, λ j. ground (arith, s j, new_clear n j)))
]
