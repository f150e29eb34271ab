-- ===== src/Arch/Bits/Bits32.antt =====
-- src/arch/common/bits/bits32.rs. A sum or difference that overflows panics.
use propeller_kernel.Prelude.{ℕ, ◌+◌, ◌-◌, ◌%◌, ◌^◌, Run, ok, bit_and, bit_or}
use propeller_kernel.Prelude.Monad.{◌>>=◌, add, sub}
use propeller_kernel.Support.Bits.{shl, shr, complement}

abbrev pub checksum_seed : ℕ
checksum_seed = 0xe9daacd5

unfoldable pub ones : ℕ → Run ℕ
ones n = do
  pairs ← sub n (bit_and (shr n 1) 0x55555555)
  nibbles ← add 32 (bit_and (shr pairs 2) 0x33333333) (bit_and pairs 0x33333333)
  sum ← add 32 (shr nibbles 4) nibbles
  let bytes = bit_and sum 0x0f0f0f0f
  halves ← add 32 bytes (shr bytes 8)
  words ← add 32 halves (shr halves 16)
  ok (bit_and words 0x3f)

-- All bits below the highest one are set.
unfoldable pub fill_below : ℕ → ℕ
fill_below n =
    let a = bit_or n (shr n 1) in
    let b = bit_or a (shr a 2) in
    let c = bit_or b (shr b 4) in let d = bit_or c (shr c 8) in bit_or d (shr d 16)

unfoldable pub floor_log2 : ℕ → Run ℕ
floor_log2 n = ones (shr (fill_below n) 1)

-- `n.wrapping_sub(1)`
unfoldable pub wrapping_pred : ℕ → ℕ
wrapping_pred n = (n + (2 ^ 32 - 1)) % 2 ^ 32

unfoldable pub ceil_log2 : ℕ → Run ℕ
ceil_log2 n = do
  let below = bit_and n (wrapping_pred n)
  let m = shr (bit_or below (complement 32 (wrapping_pred below))) 31
  log ← ones (shr (fill_below n) 1)
  add 32 log m

unfoldable pub compact_odd_bits : ℕ → ℕ
compact_odd_bits n =
    let a = bit_or (shr (bit_and n 0x44444444) 1) (bit_and n 0x11111111) in
    let b = bit_or (shr (bit_and a 0x30303030) 2) (bit_and a 0x03030303) in
    let c = bit_or (shr (bit_and b 0x0f000f00) 4) (bit_and b 0x000f000f) in
    bit_or (shr (bit_and c 0x00ff0000) 8) (bit_and c 0x000000ff)

unfoldable pub compact_even_bits : ℕ → ℕ
compact_even_bits n = compact_odd_bits (shr n 1)

-- The low half of the bits moved to the odd places, counted from one.
unfoldable pub spread : ℕ → ℕ
spread x =
    let a = bit_and (bit_or x (shl 32 x 8)) 0x00ff00ff in
    let b = bit_and (bit_or a (shl 32 a 4)) 0x0f0f0f0f in
    let c = bit_and (bit_or b (shl 32 b 2)) 0x33333333 in bit_and (bit_or c (shl 32 c 1)) 0x55555555

unfoldable pub interleave_bits : ℕ → ℕ → ℕ
interleave_bits a b = bit_or (spread a) (shl 32 (spread b) 1)
