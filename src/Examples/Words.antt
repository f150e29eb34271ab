-- ===== src/Examples/Words.antt =====
-- The bit operations of src/support/bits.rs on 32-bit words.
use propeller_kernel.Prelude.{ℕ, ◌+◌, ◌*◌, ◌%◌, ◌^◌, ◌≤◌, ◌<◌, ◌≡◌, ◌↔◌, true, ok, arith}
use propeller_kernel.Support.Bits.{align_up, is_power_of_2, least_significant_bit}
use propeller_kernel.Support.Bits.Align.{align_up-least}
use propeller_kernel.Support.Bits.Powers.{is_power_of_2_iff, least_significant_bit-two_pow}

align_up-least_example :
    (r : ℕ) × (align_up 32 5000 (2 ^ 12) ≡ ok r)
    × (r % 2 ^ 12 ≡ 0)
    × (5000 ≤ r)
    × (r < 5000 + 2 ^ 12)
align_up-least_example = align_up-least 32 12 (omega arith) 5000 (omega arith)

is_power_of_2_iff_example : (is_power_of_2 4096 ≡ true) ↔ ((k : ℕ) × (4096 ≡ 2 ^ k))
is_power_of_2_iff_example = is_power_of_2_iff 4096

least_significant_bit-two_pow_example :
    (k q : ℕ) × (least_significant_bit 32 493 ≡ 2 ^ k) × (493 ≡ 2 ^ k * (2 * q + 1))
least_significant_bit-two_pow_example =
    least_significant_bit-two_pow 32 493 (omega arith) (omega arith)
