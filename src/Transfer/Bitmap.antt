-- ===== src/Transfer/Bitmap.antt =====
-- The chunk bitmap of src/transfer/resume.rs: bit `i` is 1 once chunk `i` has been verified.
-- A `Vec<u8>` is a list of bytes. Rust panics on an index out of range; here such a read gives 0
-- and such a write changes nothing, and a well-formed bitmap meets neither.
pub mod Digits
pub mod Edits
pub mod Operations
pub mod Whole
pub mod Bytes
pub mod Counts
pub mod Fill
use p2p_file.Common.{
  ℕ, zero, suc, ◌+◌, ◌-◌, ◌/◌, ◌%◌, ◌^◌, Bool, true, false, not, ◌||◌, List, [], ◌∷◌, if◌then◌else◌,
  leb, ◌==◌, ◌!=◌, length, get_or, set, replicate, select,
}
use p2p_file.Common.Bits.{bit}
use Prim.Native.Nat.{bit_and, bit_or}

pub data Error : Type 0 where
  index_out_of_range count_mismatch wrong_length padding_not_zero : Error

pub data Result {ℓ} (A : Type ℓ) : Type ℓ where
  ok : A → Result A
  err : Error → Result A

infixl 5 ◌>>=◌
abbrev pub ◌>>=◌ {ℓ κ} : {A : Type ℓ} {B : Type κ} → Result A → (A → Result B) → Result B
ok a >>= f = f a
err e >>= f = err e

pub record ChunkBitmap : Type 0 where
  pub chunk_count : ℕ  -- u32
  pub bits : List ℕ  -- Vec<u8>

-- `chunk_count.div_ceil(8)`
abbrev pub byte_len : ℕ → ℕ
byte_len chunk_count = (chunk_count + 7) / 8

unfoldable pub new : ℕ → ChunkBitmap
new chunk_count = record { chunk_count = chunk_count; bits = replicate (byte_len chunk_count) 0 }

unfoldable pub is_set : ChunkBitmap → ℕ → Bool
is_set b index =
    if leb b.chunk_count index
    then false
    else bit_and (get_or b.bits (index / 8) 0) (2 ^ (index % 8)) != 0

unfoldable pub check_index : ChunkBitmap → ℕ → Result (Unit {0})
check_index b index = if leb b.chunk_count index then err index_out_of_range else ok tt

-- `set`; the name is that of the list's write here.
unfoldable pub set_chunk : ChunkBitmap → ℕ → Result ChunkBitmap
unfolding check_index
set_chunk b index = do
  _ ← check_index b index
  let byte = index / 8
  let slot = get_or b.bits byte 0
  ok (record b { bits = set b.bits byte (bit_or slot (2 ^ (index % 8))) })

-- `clear`; `!(1 << bit)` on a u8 is `255 - 2 ^ bit`.
unfoldable pub clear : ChunkBitmap → ℕ → Result ChunkBitmap
unfolding check_index
clear b index = do
  _ ← check_index b index
  let byte = index / 8
  let slot = get_or b.bits byte 0
  ok (record b { bits = set b.bits byte (bit_and slot (255 - 2 ^ (index % 8))) })

-- `u8::count_ones`
abbrev pub count_ones : ℕ → ℕ
count_ones b = bit b 0 + bit b 1 + bit b 2 + bit b 3 + bit b 4 + bit b 5 + bit b 6 + bit b 7

unfoldable pub sum_ones : List ℕ → ℕ
sum_ones [] = 0
sum_ones (b ∷ bs) = count_ones b + sum_ones bs

unfoldable pub count_set : ChunkBitmap → ℕ
count_set b = sum_ones b.bits

unfoldable pub is_complete : ChunkBitmap → Bool
unfolding count_set
is_complete b = count_set b == b.chunk_count

-- `start..start + n`
unfoldable pub indices : ℕ → ℕ → List ℕ
indices start zero = []
indices start (suc n) = start ∷ indices (suc start) n

unfoldable pub missing : ChunkBitmap → List ℕ
unfolding indices
missing b = select (λ index. not (is_set b index)) (indices 0 b.chunk_count)

unfoldable pub present : ChunkBitmap → List ℕ
unfolding indices
present b = select (λ index. is_set b index) (indices 0 b.chunk_count)

abbrev pub last : List ℕ → ℕ
last bits = get_or bits (length bits - 1) 0

abbrev pub is_empty : List ℕ → Bool
is_empty [] = true
is_empty (_ ∷ _) = false

unfoldable pub clear_padding_bits : ChunkBitmap → ChunkBitmap
clear_padding_bits b =
    let remainder = b.chunk_count % 8 in
    if remainder == 0 || is_empty b.bits then b else record b {
      bits = set b.bits (length b.bits - 1) (bit_and (last b.bits) (2 ^ remainder - 1));
    }

-- `!((1u8 << remainder) - 1)` is `255 - (2 ^ remainder - 1)`.
unfoldable pub padding_bits_are_clear : ChunkBitmap → Bool
padding_bits_are_clear b =
    let remainder = b.chunk_count % 8 in
    if remainder == 0 || is_empty b.bits
    then true
    else bit_and (last b.bits) (255 - (2 ^ remainder - 1)) == 0

pub fill_ones : List ℕ → List ℕ
fill_ones [] = []
fill_ones (b ∷ bs) = 255 ∷ fill_ones bs

unfoldable pub mark_all : ChunkBitmap → ChunkBitmap
unfolding fill_ones clear_padding_bits
mark_all b = clear_padding_bits (record b { bits = fill_ones b.bits })

pub set_each : ChunkBitmap → List ℕ → Result ChunkBitmap
set_each b [] = ok b
set_each b (index ∷ rest) = set_chunk b index >>= λ c. set_each c rest

unfoldable pub from_present : ℕ → List ℕ → Result ChunkBitmap
unfolding set_each
from_present chunk_count present = set_each (new chunk_count) present

-- `zip` stops at the shorter list, and what is left of the left one stays as it is.
pub or_each : List ℕ → List ℕ → List ℕ
or_each [] incoming = []
or_each (s ∷ slots) [] = s ∷ slots
or_each (s ∷ slots) (i ∷ incoming) = bit_or s i ∷ or_each slots incoming

unfoldable pub merge : ChunkBitmap → ChunkBitmap → Result ChunkBitmap
unfolding or_each
merge b other =
    if b.chunk_count != other.chunk_count
    then err count_mismatch
    else ok (clear_padding_bits (record b { bits = or_each b.bits other.bits }))

unfoldable pub to_bytes : ChunkBitmap → List ℕ
to_bytes b = b.bits

unfoldable pub from_bytes : ℕ → List ℕ → Result ChunkBitmap
from_bytes chunk_count bytes =
    if length bytes != byte_len chunk_count
    then err wrong_length
    else let bitmap : ChunkBitmap = record { chunk_count = chunk_count; bits = bytes } in
      if not (padding_bits_are_clear bitmap)
      then err padding_not_zero
      else ok (clear_padding_bits bitmap)
