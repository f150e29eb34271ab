-- ===== src/Arch/Bits/Ending.antt =====
-- The operations of src/arch/common/bits end.
use propeller_kernel.Prelude.{ℕ, bit_and, ◌==◌}
use propeller_kernel.Prelude.Ends.{Ends, ok-Ends, >>=-Ends, if-Ends, add-Ends, sub-Ends}
use propeller_kernel.Support.Bits.{shr}
use propeller_kernel.Arch.Bits.{floor_log2}
use propeller_kernel.Arch.Bits.Bits32
use propeller_kernel.Arch.Bits.Bits64

ones32-Ends : (n : ℕ) → Ends (Bits32.ones n)
unfolding Bits32.ones
ones32-Ends n = >>=-Ends _ (sub-Ends n (bit_and (shr n 1) 0x55555555)) (λ pairs.
    >>=-Ends _ (add-Ends 32 (bit_and (shr pairs 2) 0x33333333) (bit_and pairs 0x33333333))
      (λ nibbles. >>=-Ends _ (add-Ends 32 (shr nibbles 4) nibbles) (λ sum.
        >>=-Ends _ (add-Ends 32 (bit_and sum 0x0f0f0f0f) (shr (bit_and sum 0x0f0f0f0f) 8))
          (λ halves. >>=-Ends _ (add-Ends 32 halves (shr halves 16)) (λ words. ok-Ends _)))))

ones64-Ends : (n : ℕ) → Ends (Bits64.ones n)
unfolding Bits64.ones
ones64-Ends n = >>=-Ends _ (sub-Ends n (bit_and (shr n 1) 0x5555555555555555)) (λ pairs.
    >>=-Ends _
      (add-Ends 64 (bit_and (shr pairs 2) 0x3333333333333333) (bit_and pairs 0x3333333333333333))
      (λ nibbles. >>=-Ends _ (add-Ends 64 (shr nibbles 4) nibbles) (λ sum.
        >>=-Ends _
          (add-Ends 64 (bit_and sum 0x0f0f0f0f0f0f0f0f) (shr (bit_and sum 0x0f0f0f0f0f0f0f0f) 8))
          (λ halves.
            >>=-Ends _ (add-Ends 64 halves (shr halves 16))
              (λ words. >>=-Ends _ (add-Ends 64 words (shr words 32)) (λ all. ok-Ends _))))))

pub floor_log2-Ends : (w n : ℕ) → Ends (floor_log2 w n)
unfolding floor_log2 Bits32.floor_log2 Bits64.floor_log2
floor_log2-Ends w n = if-Ends (w == 64) (ones64-Ends _) (ones32-Ends _)
