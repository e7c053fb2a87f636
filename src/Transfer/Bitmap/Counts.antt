-- ===== src/Transfer/Bitmap/Counts.antt =====
-- Counting: `count_set`, `is_complete`, `missing` and `present` against the digits.
use p2p_file.Common.{
  ℕ, zero, suc, ◌+◌, ◌-◌, ◌*◌, ◌/◌, ◌%◌, ◌≤◌, ◌<◌, ◌≡◌, refl, sym, ap, ◌∙◌, Bool, true, not, ◌↔◌,
  List, [], ◌∷◌, ◌==◌, arith, length, select, Bool-cases, inl, inr, ==_iff, get_or,
}
use p2p_file.Common.Bits.{bit-le}
use p2p_file.Transfer.Bitmap.{
  ChunkBitmap, is_set, indices, sum_ones, count_set, is_complete, missing, present,
}
use p2p_file.Transfer.Bitmap.Digits.{digit, digit-tail, IsValid, is_set-digit}

-- The sum of `f` over `start`, …, `start + n - 1`.
sum_over : (ℕ → ℕ) → ℕ → ℕ → ℕ
sum_over f start zero = 0
sum_over f start (suc n) = f start + sum_over f (suc start) n

sum_over_shift :
    (f g : ℕ → ℕ) (s t n : ℕ) → ((i : ℕ) → f (i + s) ≡ g (i + t)) → sum_over f s n ≡ sum_over g t n
unfolding sum_over
sum_over_shift f g s t zero h = refl
sum_over_shift f g s t (suc n) h = omega (
  arith,
  head,
  sum_over_shift f g (suc s) (suc t) n (λ i. ap f (omega arith) ∙ h (suc i) ∙ ap g (omega arith)),
)
  where
    head : f s ≡ g t
    head = ap f (omega arith) ∙ h 0 ∙ ap g (omega arith)

sum_over-add :
    (f : ℕ → ℕ) (s n m : ℕ) → sum_over f s (n + m) ≡ sum_over f s n + sum_over f (s + n) m
unfolding sum_over
sum_over-add f s zero m =
    omega (arith, ap (λ t. sum_over f s t) zero_left, ap (λ t. sum_over f t m) zero_right)
  where
    zero_left : zero + m ≡ m
    zero_left = omega arith

    zero_right : s + zero ≡ s
    zero_right = omega arith
sum_over-add f s (suc n) m = omega (
  arith,
  ap (λ t. sum_over f s t) left,
  sum_over-add f (suc s) n m,
  ap (λ t. sum_over f t m) right,
)
  where
    left : suc n + m ≡ suc (n + m)
    left = omega arith

    right : suc s + n ≡ s + suc n
    right = omega arith

sum_over_zero : (f : ℕ → ℕ) (s n : ℕ) → ((i : ℕ) → s ≤ i → f i ≡ 0) → sum_over f s n ≡ 0
unfolding sum_over
sum_over_zero f s zero h = refl
sum_over_zero f s (suc n) h =
    omega (arith, h s (omega arith), sum_over_zero f (suc s) n (λ i l. h i (omega arith)))

-- The ones of the bytes are the digits of the whole.
sum_ones-digits : (bits : List ℕ) → sum_ones bits ≡ sum_over (digit bits) 0 (length bits * 8)
unfolding sum_ones sum_over
sum_ones-digits [] = refl
sum_ones-digits (x ∷ xs) = omega (
  arith,
  ap (λ t. sum_over (digit (x ∷ xs)) 0 t) split,
  sum_over-add (digit (x ∷ xs)) 0 8 (length xs * 8),
  sum_over_shift (digit (x ∷ xs)) (digit xs) 8 0 (length xs * 8)
      (λ i. digit-tail x xs i ∙ ap (digit xs) (plus_zero i)),
  sum_ones-digits xs,
)
  where
    split : suc (length xs) * 8 ≡ 8 + length xs * 8
    split = omega arith

    plus_zero : (i : ℕ) → i ≡ i + 0
    plus_zero i = omega arith

-- So `count_set` is the number of chunks marked.
count_set-digits :
    (b : ChunkBitmap) → IsValid b → count_set b ≡ sum_over (digit b.bits) 0 b.chunk_count
unfolding count_set
count_set-digits b v = omega (
  arith,
  sum_ones-digits b.bits,
  ap (λ t. sum_over (digit b.bits) 0 t) split,
  sum_over-add (digit b.bits) 0 b.chunk_count (length b.bits * 8 - b.chunk_count),
  sum_over_zero (digit b.bits) (0 + b.chunk_count) (length b.bits * 8 - b.chunk_count)
      (λ i l. v.padding i (omega arith)),
)
  where
    split : length b.bits * 8 ≡ b.chunk_count + (length b.bits * 8 - b.chunk_count)
    split = omega (arith, v.sized)

select_count :
    (f : ℕ → ℕ) (p : ℕ → Bool) (s n : ℕ)
    → ((i : ℕ) → f i ≤ 1)
    → ((i : ℕ) → p i ≡ (f i == 1))
    → length (select p (indices s n)) ≡ sum_over f s n
unfolding indices sum_over
select_count f p s zero h e = refl
select_count f p s (suc n) h e = ground (arith, h s, e s, select_count f p (suc s) n h e)

digit-le : (bits : List ℕ) (i : ℕ) → digit bits i ≤ 1
digit-le bits i = bit-le (get_or bits (i / 8) 0) (i % 8)

both :
    (p : ℕ → Bool) (s n : ℕ)
    → length (select p (indices s n)) + length (select (λ i. not (p i)) (indices s n)) ≡ n
unfolding indices
both p s zero = refl
both p s (suc n) = ground (arith, both p (suc s) n)

-- In a well-formed bitmap the number of one bits is the number of chunks that present lists, and
-- present and missing together list as many chunks as there are.
pub count_set-present :
    (b : ChunkBitmap)
    → IsValid b
    → (count_set b ≡ length (present b)) × (length (present b) + length (missing b) ≡ b.chunk_count)
unfolding present missing
count_set-present b v = (count_set-digits b v ∙ sym listed, split 0 b.chunk_count)
  where
    listed :
        length (select (λ i. is_set b i) (indices 0 b.chunk_count))
        ≡ sum_over (digit b.bits) 0 b.chunk_count
    listed =
        select_count (digit b.bits) (λ i. is_set b i) 0 b.chunk_count (digit-le b.bits)
          (λ i. is_set-digit b i v)

    split :
        (s n : ℕ)
        → length (select (λ i. is_set b i) (indices s n))
            + length (select (λ i. not (is_set b i)) (indices s n))
          ≡ n
    split s n = both (λ i. is_set b i) s n

full_sum :
    (f : ℕ → ℕ) (s n : ℕ)
    → ((i : ℕ) → f i ≤ 1)
    → (sum_over f s n ≡ n) ↔ ((i : ℕ) → s ≤ i → i < s + n → f i ≡ 1)
unfolding sum_over
full_sum f s n h = (all_ones s n, sum_of s n)
  where
    at_most : (s n : ℕ) → sum_over f s n ≤ n
    at_most s zero = omega arith
    at_most s (suc n) = omega (arith, h s, at_most (suc s) n)

    all_ones : (s n : ℕ) → sum_over f s n ≡ n → (i : ℕ) → s ≤ i → i < s + n → f i ≡ 1
    all_ones s zero e i l m = absurd (omega arith)
    all_ones s (suc n) e i l m = elim (Bool-cases (i == s)) [
      | inl q ↦ ap f ((==_iff i s).0 q) ∙ omega (arith, h s, at_most (suc s) n)
      | inr q ↦
          all_ones (suc s) n (omega (arith, h s, at_most (suc s) n)) i (ground arith) (omega arith)
    ]

    sum_of : (s n : ℕ) → ((i : ℕ) → s ≤ i → i < s + n → f i ≡ 1) → sum_over f s n ≡ n
    sum_of s zero g = refl
    sum_of s (suc n) g = omega (
      arith,
      g s (omega arith) (omega arith),
      sum_of (suc s) n (λ i l m. g i (omega arith) (omega arith)),
    )

-- A well-formed bitmap is complete exactly when every chunk below the chunk count is marked.
pub is_complete_iff :
    (b : ChunkBitmap)
    → IsValid b
    → (is_complete b ≡ true) ↔ ((i : ℕ) → i < b.chunk_count → is_set b i ≡ true)
unfolding is_complete
is_complete_iff b v = (
  λ e i l.
      is_set-digit b i v
      ∙ (==_iff _ 1).1 (
          (full_sum (digit b.bits) 0 b.chunk_count (digit-le b.bits)).0
            (sym (count_set-digits b v) ∙ (==_iff _ b.chunk_count).0 e) i (omega arith)
            (omega arith)),
  λ g. (==_iff _ b.chunk_count).1 (
      count_set-digits b v
      ∙ (full_sum (digit b.bits) 0 b.chunk_count (digit-le b.bits)).1
          (λ i l m. (==_iff _ 1).0 (sym (is_set-digit b i v) ∙ g i (omega arith)))),
)
