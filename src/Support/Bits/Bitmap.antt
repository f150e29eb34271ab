-- ===== src/Support/Bits/Bitmap.antt =====
-- `Bitmap` of src/support/bits.rs, on words of `2 ^ k` bits; `cap` is `MAP_WORDS`.
pub mod Toggle
pub mod Search
pub mod Least
use propeller_kernel.Prelude.{
  ℕ, zero, suc, ◌+◌, ◌-◌, ◌*◌, ◌/◌, ◌%◌, ◌^◌, Bool, true, false, not, Option, none, some, List, [],
  ◌∷◌, Run, ok, panic, ltb, leb, ◌==◌, if◌then◌else◌, length, replicate, min, bit_and, bit_or,
  bit_xor,
}
use propeller_kernel.Prelude.Monad.{◌>>=◌, add, load, store}
use propeller_kernel.Support.Bits.{shl, shr, complement, max_word}

pub record Bitmap : Type 0 where
  pub bitmap : List ℕ
  pub bits : ℕ

each : (ℕ → ℕ) → List ℕ → List ℕ
each f [] = []
each f (x ∷ xs) = f x ∷ each f xs

module _ (k : ℕ) where
  abbrev pub word_bits : ℕ
  word_bits = 2 ^ k

  unfoldable pub new : ℕ → ℕ → Bitmap
  new cap bits = record { bitmap = replicate cap 0; bits = min bits (shl word_bits cap k) }

  unfoldable pub get_word_and_shift : ℕ → ℕ × ℕ
  get_word_and_shift bit = (shr bit k, bit_and bit (word_bits - 1))

  -- The word of a bit changed by `f`, which is given the mask of the bit.
  unfoldable pub update_bit : (ℕ → ℕ → ℕ) → Bitmap → ℕ → Run Bitmap
  update_bit f b bit = if leb b.bits bit then ok b else do
    let (word, shift) = get_word_and_shift bit
    value ← load b.bitmap word
    bitmap ← store b.bitmap word (f value (shl word_bits 1 shift))
    ok (record b { bitmap = bitmap })

  unfoldable pub set_bit : Bitmap → ℕ → Run Bitmap
  set_bit = update_bit bit_or

  unfoldable pub clear_bit : Bitmap → ℕ → Run Bitmap
  clear_bit = update_bit (λ value mask. bit_and value (complement word_bits mask))

  unfoldable pub toggle_bit : Bitmap → ℕ → Run Bitmap
  toggle_bit = update_bit bit_xor

  unfoldable pub set_all_bits : Bitmap → Bitmap
  unfolding each
  set_all_bits b = record b { bitmap = each (λ value. max_word word_bits) b.bitmap }

  unfoldable pub clear_all_bits : Bitmap → Bitmap
  unfolding each
  clear_all_bits b = record b { bitmap = each (λ value. 0) b.bitmap }

  unfoldable pub toggle_all_bits : Bitmap → Bitmap
  unfolding each
  toggle_all_bits b = record b {
    bitmap = each (λ value. bit_xor value (max_word word_bits)) b.bitmap;
  }

  unfoldable pub test_bit : Bitmap → ℕ → Run (Option Bool)
  test_bit b bit = if leb b.bits bit then ok none else do
    let (word, shift) = get_word_and_shift bit
    value ← load b.bitmap word
    ok (some (not (bit_and value (shl word_bits 1 shift) == 0)))
