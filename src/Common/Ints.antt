-- ===== src/Common/Ints.antt =====
-- The signed integers, for `i64` time stamps.
use Prim.Native.Nat.{ℕ}
use mathlib.Core.Path.{◌≡◌}
use mathlib.Core.Bool.{Bool, true, false}
use native.Mathlib.Omega.{arith}
use p2p_file.Common.Tests.{ltb, if◌then◌else◌}

pub data ℤ : Type 0 where
  pos : ℕ → ℤ
  negsuc : ℕ → ℤ  -- negsuc n is -(n + 1)

abbrev pub ltb_int : ℤ → ℤ → Bool
ltb_int (pos a) (pos b) = ltb a b
ltb_int (pos a) (negsuc b) = false
ltb_int (negsuc a) (pos b) = true
ltb_int (negsuc a) (negsuc b) = ltb b a

-- `Ord::max`
abbrev pub max_int : ℤ → ℤ → ℤ
max_int a b = if ltb_int b a then a else b

pub max_int_left : (a b : ℤ) → ltb_int (max_int a b) a ≡ false
max_int_left (pos a) (pos b) = ground arith
max_int_left (pos a) (negsuc b) = ground arith
max_int_left (negsuc a) (pos b) = ground arith
max_int_left (negsuc a) (negsuc b) = ground arith

pub max_int_right : (a b : ℤ) → ltb_int (max_int a b) b ≡ false
max_int_right (pos a) (pos b) = ground arith
max_int_right (pos a) (negsuc b) = ground arith
max_int_right (negsuc a) (pos b) = ground arith
max_int_right (negsuc a) (negsuc b) = ground arith

pub ltb_int_trans : (a b c : ℤ) → ltb_int b a ≡ false → ltb_int c b ≡ false → ltb_int c a ≡ false
ltb_int_trans (pos a) (pos b) (pos c) h l = ground arith
ltb_int_trans (pos a) (pos b) (negsuc c) h l = ground arith
ltb_int_trans (pos a) (negsuc b) (pos c) h l = ground arith
ltb_int_trans (pos a) (negsuc b) (negsuc c) h l = ground arith
ltb_int_trans (negsuc a) (pos b) (pos c) h l = ground arith
ltb_int_trans (negsuc a) (pos b) (negsuc c) h l = ground arith
ltb_int_trans (negsuc a) (negsuc b) (pos c) h l = ground arith
ltb_int_trans (negsuc a) (negsuc b) (negsuc c) h l = ground arith
