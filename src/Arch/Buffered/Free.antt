-- ===== src/Arch/Buffered/Free.antt =====
-- `BufferedPageAllocator::free` of src/arch/common/memory.rs on a page that it has allocated.
use native.Mathlib.Nat.{le-div_iff_mul-le, one-le-pow}
use propeller_kernel.Prelude.{
  ℕ, ◌*◌, ◌/◌, ◌^◌, ◌≤◌, ◌<◌, ◌≡◌, refl, true, ok, le→leb, lt→ltb, arith,
}
use propeller_kernel.Support.Bits.{is_aligned}
use propeller_kernel.Support.Bits.Bitmap.{word_bits, clear_bit, update_bit}
use propeller_kernel.Arch.Buffered.{BufferedPageAllocator, free}

-- When the pages of the allocator begin at or above the address at which as many pages from address zero
-- on end, freeing a page of its range, at an aligned address, changes nothing: the page stays allocated,
-- and there is no error.
pub free-nothing :
    (k : ℕ) (a : BufferedPageAllocator) (addr : ℕ)
    → a.bitmap.bits * 2 ^ a.page_shift ≤ a.start_addr
    → a.start_addr ≤ addr
    → addr < a.end_addr
    → is_aligned (word_bits k) addr a.page_size ≡ ok true
    → free k a addr 1 ≡ ok a
unfolding free clear_bit update_bit
free-nothing k a addr beyond above below aligned =
    rw
      (
        le→leb a.start_addr addr above,
        lt→ltb addr a.end_addr below,
        aligned,
        le→leb a.bitmap.bits (addr / 2 ^ a.page_shift) higher,
      )
      refl
  where
    higher : a.bitmap.bits ≤ addr / 2 ^ a.page_shift
    higher =
        (le-div_iff_mul-le {k = 2 ^ a.page_shift} (one-le-pow a.page_shift 2 (omega arith))).1
          (omega (arith, beyond, above))
