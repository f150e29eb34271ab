-- ===== src/Support/Bits.antt =====
-- src/support/bits.rs: bit tricks on `w`-bit words, and the multiword bitmap.
pub mod Digits
pub mod Align
pub mod Powers
pub mod Bitmap
pub mod Join
use propeller_kernel.Prelude.{
  ℕ, zero, suc, ◌+◌, ◌-◌, ◌*◌, ◌/◌, ◌%◌, ◌^◌, Bool, true, false, not, ◌&&◌, Option, none, some,
  List, [], ◌∷◌, Run, ok, panic, ltb, leb, ◌==◌, if◌then◌else◌, length, replicate, min, bit_and,
  bit_or, bit_xor,
}
use propeller_kernel.Prelude.Monad.{◌>>=◌, add, sub, load, store}

-- `usize::MAX` and `!n`.
abbrev pub max_word : ℕ → ℕ
max_word w = 2 ^ w - 1

abbrev pub complement : ℕ → ℕ → ℕ
complement w n = max_word w - n

-- `n << k` with the bits above the word cut off, and `n >> k`.
abbrev pub shl : ℕ → ℕ → ℕ → ℕ
shl w n k = n * 2 ^ k % 2 ^ w

abbrev pub shr : ℕ → ℕ → ℕ
shr n k = n / 2 ^ k

unfoldable pub align_down : ℕ → ℕ → ℕ → Run ℕ
align_down w addr boundary = do b ← sub boundary 1; ok (bit_and addr (complement w b))

unfoldable pub align_up : ℕ → ℕ → ℕ → Run ℕ
align_up w addr boundary = do
  b ← sub boundary 1
  sum ← add w addr b
  ok (bit_and sum (complement w b))

unfoldable pub is_aligned : ℕ → ℕ → ℕ → Run Bool
is_aligned w addr boundary = do b ← sub boundary 1; ok (bit_and addr (complement w b) == addr)

unfoldable pub is_power_of_2 : ℕ → Bool
is_power_of_2 n = not (n == 0) && bit_and n (n - 1) == 0

-- `n & (!n).wrapping_add(1)`
unfoldable pub least_significant_bit : ℕ → ℕ → ℕ
least_significant_bit w n = bit_and n ((complement w n + 1) % 2 ^ w)

unfoldable pub xor_checksum : ℕ → List ℕ → ℕ
xor_checksum sum [] = sum
xor_checksum sum (word ∷ words) = xor_checksum (bit_xor sum word) words
