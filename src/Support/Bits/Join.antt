-- ===== src/Support/Bits/Join.antt =====
-- Or of two numbers with no digit in common.
use native.Mathlib.Nat.{pow-suc}
use Prim.Native.Nat.{bit_or-bitwise}
use propeller_kernel.Prelude.{ℕ, zero, suc, ◌+◌, ◌/◌, ◌%◌, ◌^◌, ◌≤◌, ◌<◌, ◌≡◌, bit_or, arith}
use propeller_kernel.Support.Bits.Digits.{or_step, mod-two_pow_suc}

or-zero_below : (k n : ℕ) → n ≤ k → bit_or n 0 ≡ n
or-zero_below k zero h = bit_or-bitwise 0 0
or-zero_below zero (suc n) h = absurd (omega arith)
or-zero_below (suc k) (suc n) h =
    omega (arith, or_step (suc n) 0, or-zero_below k (suc n / 2) (omega arith))

pub or-zero : (n : ℕ) → bit_or n 0 ≡ n
or-zero n = or-zero_below n n (omega arith)

-- A multiple of `2 ^ k` and a number below it.
pub or-add : (k a b : ℕ) → a % 2 ^ k ≡ 0 → b < 2 ^ k → bit_or a b ≡ a + b
or-add zero a zero d l = omega (arith, or-zero a)
or-add zero a (suc b) d l = absurd (omega arith)
or-add (suc k) a b d l = omega (
  arith,
  or_step a b,
  mod-two_pow_suc k a,
  or-add k (a / 2) (b / 2) (omega (arith, mod-two_pow_suc k a)) (omega (arith, pow-suc 2 k)),
)
