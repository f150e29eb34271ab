-- ===== src/Arch/Bits/Bits64.antt =====
-- src/arch/common/bits/bits64.rs. A sum or difference that overflows panics.
use propeller_kernel.Prelude.{ℕ, ◌+◌, ◌-◌, ◌%◌, ◌^◌, Run, ok, bit_and, bit_or}
use propeller_kernel.Prelude.Monad.{◌>>=◌, add, sub}
use propeller_kernel.Support.Bits.{shl, shr, complement}

abbrev pub checksum_seed : ℕ
checksum_seed = 0x09a52af1c62bd04b

unfoldable pub ones : ℕ → Run ℕ
ones n = do
  pairs ← sub n (bit_and (shr n 1) 0x5555555555555555)
  nibbles ← add 64 (bit_and (shr pairs 2) 0x3333333333333333) (bit_and pairs 0x3333333333333333)
  sum ← add 64 (shr nibbles 4) nibbles
  let bytes = bit_and sum 0x0f0f0f0f0f0f0f0f
  halves ← add 64 bytes (shr bytes 8)
  words ← add 64 halves (shr halves 16)
  all ← add 64 words (shr words 32)
  ok (bit_and all 0x7f)

-- All bits below the highest one are set.
unfoldable pub fill_below : ℕ → ℕ
fill_below n =
    let a = bit_or n (shr n 1) in
    let b = bit_or a (shr a 2) in
    let c = bit_or b (shr b 4) in
    let d = bit_or c (shr c 8) in let e = bit_or d (shr d 16) in bit_or e (shr e 32)

unfoldable pub floor_log2 : ℕ → Run ℕ
floor_log2 n = ones (shr (fill_below n) 1)

-- `n.wrapping_sub(1)`
unfoldable pub wrapping_pred : ℕ → ℕ
wrapping_pred n = (n + (2 ^ 64 - 1)) % 2 ^ 64

unfoldable pub ceil_log2 : ℕ → Run ℕ
ceil_log2 n = do
  let below = bit_and n (wrapping_pred n)
  let m = shr (bit_or below (complement 64 (wrapping_pred below))) 63
  log ← ones (shr (fill_below n) 1)
  add 64 log m

unfoldable pub compact_odd_bits : ℕ → ℕ
compact_odd_bits n =
    let a = bit_or (shr (bit_and n 0x4444444444444444) 1) (bit_and n 0x1111111111111111) in
    let b = bit_or (shr (bit_and a 0x3030303030303030) 2) (bit_and a 0x0303030303030303) in
    let c = bit_or (shr (bit_and b 0x0f000f000f000f00) 4) (bit_and b 0x000f000f000f000f) in
    let d = bit_or (shr (bit_and c 0x00ff000000ff0000) 8) (bit_and c 0x000000ff000000ff) in
    bit_or (shr (bit_and d 0x0000ffff00000000) 16) (bit_and d 0x000000000000ffff)

unfoldable pub compact_even_bits : ℕ → ℕ
compact_even_bits n = compact_odd_bits (shr n 1)

-- The low half of the bits moved to the odd places, counted from one.
unfoldable pub spread : ℕ → ℕ
spread x =
    let a = bit_and (bit_or x (shl 64 x 16)) 0x0000ffff0000ffff in
    let b = bit_and (bit_or a (shl 64 a 8)) 0x00ff00ff00ff00ff in
    let c = bit_and (bit_or b (shl 64 b 4)) 0x0f0f0f0f0f0f0f0f in
    let d = bit_and (bit_or c (shl 64 c 2)) 0x3333333333333333 in
    bit_and (bit_or d (shl 64 d 1)) 0x5555555555555555

unfoldable pub interleave_bits : ℕ → ℕ → ℕ
interleave_bits a b = bit_or (spread a) (shl 64 (spread b) 1)
