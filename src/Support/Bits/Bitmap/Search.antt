-- ===== src/Support/Bits/Bitmap/Search.antt =====
-- The searches in a `Bitmap` of src/support/bits.rs, and its iterator, on words of `2 ^ k` bits.
use propeller_kernel.Prelude.{
  ℕ, zero, suc, ◌+◌, ◌/◌, ◌%◌, ◌^◌, not, Option, none, some, List, [], ◌∷◌, Run, ok, panic,
  out_of_fuel, ltb, leb, ◌==◌, if◌then◌else◌, bit_and,
}
use propeller_kernel.Prelude.Monad.{◌>>=◌, add, load}
use propeller_kernel.Support.Bits.{shl, complement}
use propeller_kernel.Support.Bits.Bitmap.{Bitmap, word_bits}
use propeller_kernel.Arch.Bits

-- `trailing_zeros` of a word of so many bits.
unfoldable pub trailing_zeros : ℕ → ℕ → ℕ
trailing_zeros zero n = 0
trailing_zeros (suc left) n =
    let rest = trailing_zeros left (n / 2) in if n % 2 == 0 then rest + 1 else 0

unfoldable pub len : Bitmap → ℕ
len b = b.bits

-- The iterator's fields beside the bitmap.
pub record BitmapIter : Type 0 where
  pub index : ℕ
  pub word : ℕ
  pub bit : ℕ

unfoldable pub into_iter : BitmapIter
into_iter = record { index = 0; word = 0; bit = 0 }

module _ (k : ℕ) where
  -- The index of the first zero in the words, counted from `index`.
  unfoldable pub first_zero_loop : List ℕ → ℕ → Run ℕ
  first_zero_loop [] index = ok index
  first_zero_loop (value ∷ words) index =
      let z = trailing_zeros (word_bits k) (complement (word_bits k) value) in
      if ltb z (word_bits k)
      then add (word_bits k) index z
      else do next ← add (word_bits k) index (word_bits k); first_zero_loop words next

  unfoldable pub first_zero : Bitmap → Run (Option ℕ)
  first_zero b = do
    index ← first_zero_loop b.bitmap 0
    if leb b.bits index then ok none else ok (some index)

  unfoldable pub ones_loop : List ℕ → ℕ → Run ℕ
  ones_loop [] count = ok count
  ones_loop (value ∷ words) count = do
    n ← Bits.ones (word_bits k) value
    total ← add (word_bits k) count n
    ones_loop words total

  unfoldable pub ones : Bitmap → Run ℕ
  ones b = ones_loop b.bitmap 0

  -- The loop of `BitmapIter::next`. A shift by the width of a word or more panics.
  unfoldable pub next_loop : ℕ → Bitmap → BitmapIter → Run (BitmapIter × Option ℕ)
  next_loop zero b it = out_of_fuel
  next_loop (suc fuel) b it = if leb b.bits it.index then ok (it, none) else do
    value ← load b.bitmap it.word
    mask ← (if ltb it.index (word_bits k) then ok (shl (word_bits k) 1 it.index) else panic)
    index ← add (word_bits k) it.index 1
    word ← (if (it.bit + 1) % 2 ^ word_bits k == 0 then add (word_bits k) it.word 1 else ok it.word)
    let it' : BitmapIter = record { index = index; word = word; bit = it.bit }
    let rest = next_loop fuel b it'
    if not (bit_and value mask == 0) then ok (it', some it.index) else rest

  -- Each turn passes a bit.
  unfoldable pub next : Bitmap → BitmapIter → Run (BitmapIter × Option ℕ)
  next b it = next_loop (b.bits + 1) b it
