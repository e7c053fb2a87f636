-- ===== src/Common/Bits.antt =====
-- The binary digits of a number, lowest first, and what the bit operations do to each of them.
use Prim.Native.Nat.{
  ℕ, zero, suc, ◌+◌, ◌-◌, ◌*◌, ◌/◌, ◌%◌, ◌^◌, ◌≤◌, ◌<◌, min, max, bit_and, bit_or, digits,
  bit_and-bitwise, bit_or-bitwise,
}
use mathlib.Core.Path.{◌≡◌, refl, sym, ap, ◌∙◌}
use mathlib.Core.Logic.{◌≢◌}
use native.Mathlib.Nat.{pow-suc}
use native.Mathlib.Omega.{arith}
use p2p_file.Common.Tests.{◌==◌, ◌!=◌}

-- Digit `i` of `a`: 0 or 1.
abbrev pub bit : ℕ → ℕ → ℕ
bit a zero = a % 2
bit a (suc i) = bit (a / 2) i

pub bit-le : (a i : ℕ) → bit a i ≤ 1
bit-le a zero = omega arith
bit-le a (suc i) = bit-le (a / 2) i

pub zero-bit : (i : ℕ) → bit 0 i ≡ 0
zero-bit zero = refl
zero-bit (suc i) = zero-bit i

-- What holds of every operation that works digit by digit.
module _ (z : ℕ → ℕ) (f : ℕ → ℕ → ℕ) where
  by_digit : ℕ → ℕ → ℕ
  by_digit a b = digits z f a a b

  more_fuel : (n m a b : ℕ) → a ≤ n → a ≤ m → digits z f n a b ≡ digits z f m a b
  more_fuel zero zero a b p q = refl
  more_fuel zero (suc m) zero b p q = refl
  more_fuel zero (suc m) (suc a) b p q = elim p [ ]
  more_fuel (suc n) zero zero b p q = refl
  more_fuel (suc n) zero (suc a) b p q = elim q [ ]
  more_fuel (suc n) (suc m) zero b p q = refl
  more_fuel (suc n) (suc m) (suc a) b p q =
      omega (arith, more_fuel n m (suc a / 2) (b / 2) (omega arith) (omega arith))

  by_digit_step :
      ((b : ℕ) → z b ≡ z (b / 2) * 2 + f 0 (b % 2))
      → (a b : ℕ) → by_digit a b ≡ by_digit (a / 2) (b / 2) * 2 + f (a % 2) (b % 2)
  unfolding by_digit
  by_digit_step h zero b = h b
  by_digit_step h (suc a) b =
      omega (arith, more_fuel a (suc a / 2) (suc a / 2) (b / 2) (omega arith) (omega arith))

pub bit_and_step : (a b : ℕ) → bit_and a b ≡ bit_and (a / 2) (b / 2) * 2 + min (a % 2) (b % 2)
unfolding by_digit
bit_and_step a b =
    bit_and-bitwise a b
    ∙ by_digit_step (λ c. 0) min (λ c. omega arith) a b
    ∙ ap (λ (t : ℕ). t * 2 + min (a % 2) (b % 2)) (sym (bit_and-bitwise (a / 2) (b / 2)))

pub bit_or_step : (a b : ℕ) → bit_or a b ≡ bit_or (a / 2) (b / 2) * 2 + max (a % 2) (b % 2)
unfolding by_digit
bit_or_step a b =
    bit_or-bitwise a b
    ∙ by_digit_step (λ c. c) max (λ c. omega arith) a b
    ∙ ap (λ (t : ℕ). t * 2 + max (a % 2) (b % 2)) (sym (bit_or-bitwise (a / 2) (b / 2)))

pub bit-and : (i a b : ℕ) → bit (bit_and a b) i ≡ min (bit a i) (bit b i)
bit-and zero a b = omega (arith, bit_and_step a b)
bit-and (suc i) a b = ap (λ t. bit t i) half ∙ bit-and i (a / 2) (b / 2)
  where
    half : bit_and a b / 2 ≡ bit_and (a / 2) (b / 2)
    half = omega (arith, bit_and_step a b)

pub bit-or : (i a b : ℕ) → bit (bit_or a b) i ≡ max (bit a i) (bit b i)
bit-or zero a b = omega (arith, bit_or_step a b)
bit-or (suc i) a b = ap (λ t. bit t i) half ∙ bit-or i (a / 2) (b / 2)
  where
    half : bit_or a b / 2 ≡ bit_or (a / 2) (b / 2)
    half = omega (arith, bit_or_step a b)

-- Two bytes with the same eight digits are the same byte.
pub byte_ext : (a b : ℕ) → a < 256 → b < 256 → ((i : ℕ) → i < 8 → bit a i ≡ bit b i) → a ≡ b
byte_ext a b ha hb h = omega (
  arith,
  h 0 (omega arith),
  h 1 (omega arith),
  h 2 (omega arith),
  h 3 (omega arith),
  h 4 (omega arith),
  h 5 (omega arith),
  h 6 (omega arith),
  h 7 (omega arith),
)

bit_and-zero : (a : ℕ) → bit_and a 0 ≡ 0
bit_and-zero a = bit_and-bitwise a 0 ∙ go a a
  where
    go : (n c : ℕ) → digits (λ b. 0) min n c 0 ≡ 0
    go zero c = refl
    go (suc n) zero = refl
    go (suc n) (suc c) = omega (arith, go n (suc c / 2))

-- Masking by `1 << k` leaves digit `k` in its place.
pub bit_and-pow : (k a : ℕ) → bit_and a (2 ^ k) ≡ bit a k * 2 ^ k
bit_and-pow zero a = omega (arith, bit_and_step a 1, bit_and-zero (a / 2))
bit_and-pow (suc k) a = omega (
  arith,
  pow-suc 2 k,
  bit_and_step a (2 ^ suc k),
  ap (bit_and (a / 2)) half,
  bit_and-pow k (a / 2),
  ap (λ (t : ℕ). bit (a / 2) k * t) (pow-suc 2 k),
)
  where
    half : 2 ^ suc k / 2 ≡ 2 ^ k
    half = omega (arith, pow-suc 2 k)

pub bit-pow_self : (k : ℕ) → bit (2 ^ k) k ≡ 1
bit-pow_self zero = refl
bit-pow_self (suc k) = ap (λ t. bit t k) half ∙ bit-pow_self k
  where
    half : 2 ^ suc k / 2 ≡ 2 ^ k
    half = omega (arith, pow-suc 2 k)

pub bit-pow_ne : (k i : ℕ) → k ≢ i → bit (2 ^ k) i ≡ 0
bit-pow_ne zero zero h = absurd (h refl)
bit-pow_ne zero (suc i) h = zero-bit i
bit-pow_ne (suc k) zero h = omega (arith, pow-suc 2 k)
bit-pow_ne (suc k) (suc i) h = ap (λ t. bit t i) half ∙ bit-pow_ne k i (λ e. h (ap suc e))
  where
    half : 2 ^ suc k / 2 ≡ 2 ^ k
    half = omega (arith, pow-suc 2 k)

pub pow_pos : (k : ℕ) → 0 < 2 ^ k
pow_pos zero = omega arith
pow_pos (suc k) = omega (arith, pow-suc 2 k, pow_pos k)

scaled : (d m : ℕ) → d ≤ 1 → 0 < m → (d * m != 0) ≡ (d == 1)
scaled zero m h p = ground arith
scaled (suc zero) m h p = ground arith
scaled (suc (suc d)) m h p = absurd (omega arith)

-- `a & (1 << k) != 0` tests digit `k`.
pub bit_and_test : (k a : ℕ) → (bit_and a (2 ^ k) != 0) ≡ (bit a k == 1)
bit_and_test k a = rw (bit_and-pow k a) (scaled (bit a k) (2 ^ k) (bit-le a k) (pow_pos k))

-- `(1 << r) - 1` has the digits below `r`.
pub bit-ones_below : (r i : ℕ) → i < r → bit (2 ^ r - 1) i ≡ 1
bit-ones_below zero i h = elim h [ ]
bit-ones_below (suc r) zero h = omega (arith, pow-suc 2 r, pow_pos r)
bit-ones_below (suc r) (suc i) h = ap (λ t. bit t i) half ∙ bit-ones_below r i (omega arith)
  where
    half : (2 ^ suc r - 1) / 2 ≡ 2 ^ r - 1
    half = omega (arith, pow-suc 2 r, pow_pos r)

pub bit-ones_above : (r i : ℕ) → r ≤ i → bit (2 ^ r - 1) i ≡ 0
bit-ones_above zero i h = zero-bit i
bit-ones_above (suc r) zero h = elim h [ ]
bit-ones_above (suc r) (suc i) h = ap (λ t. bit t i) half ∙ bit-ones_above r i (omega arith)
  where
    half : (2 ^ suc r - 1) / 2 ≡ 2 ^ r - 1
    half = omega (arith, pow-suc 2 r, pow_pos r)

-- `!m` on a word of `n` bits.
pub bit_complement : (n i m : ℕ) → i < n → m < 2 ^ n → bit (2 ^ n - 1 - m) i ≡ 1 - bit m i
bit_complement zero i m h l = elim h [ ]
bit_complement (suc n) zero m h l = omega (arith, pow-suc 2 n)
bit_complement (suc n) (suc i) m h l =
    ap (λ t. bit t i) half ∙ bit_complement n i (m / 2) (omega arith) (omega (arith, pow-suc 2 n))
  where
    half : (2 ^ suc n - 1 - m) / 2 ≡ 2 ^ n - 1 - m / 2
    half = omega (arith, pow-suc 2 n)

pub bit_or-lt : (n a b : ℕ) → a < 2 ^ n → b < 2 ^ n → bit_or a b < 2 ^ n
bit_or-lt zero zero zero h l = omega arith
bit_or-lt zero zero (suc b) h l = absurd (omega arith)
bit_or-lt zero (suc a) b h l = absurd (omega arith)
bit_or-lt (suc n) a b h l = omega (
  arith,
  pow-suc 2 n,
  bit_or_step a b,
  bit_or-lt n (a / 2) (b / 2) (omega (arith, pow-suc 2 n)) (omega (arith, pow-suc 2 n)),
)

pub bit_and-lt : (n a b : ℕ) → a < 2 ^ n → bit_and a b < 2 ^ n
bit_and-lt zero zero b h = omega (arith, bit_and-bitwise 0 b)
bit_and-lt zero (suc a) b h = absurd (omega arith)
bit_and-lt (suc n) a b h = omega (
  arith,
  pow-suc 2 n,
  bit_and_step a b,
  bit_and-lt n (a / 2) (b / 2) (omega (arith, pow-suc 2 n)),
)
