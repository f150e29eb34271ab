-- ===== src/Arch/Buffered.antt =====
-- `BufferedPageAllocator` of src/arch/common/memory.rs, on words of `2 ^ k` bits; `cap` is `BITMAP_WORDS`.
pub mod Free
pub mod Alloc
use propeller_kernel.Prelude.{
  ℕ, ◌+◌, ◌-◌, ◌*◌, ◌^◌, Bool, true, false, not, ◌&&◌, Option, none, some, Run, ok, check, ltb, leb,
  ◌==◌, if◌then◌else◌,
}
use propeller_kernel.Prelude.Monad.{◌>>=◌, ◌>>◌, add, sub, mul}
use propeller_kernel.Support.Bits.{shl, shr, is_power_of_2, is_aligned}
use propeller_kernel.Support.Bits.Bitmap.{Bitmap, word_bits, set_bit, clear_bit}
use propeller_kernel.Support.Bits.Bitmap
use propeller_kernel.Support.Bits.Bitmap.Search.{len, first_zero, ones}
use propeller_kernel.Arch.Bits.{floor_log2}

pub record BufferedPageAllocator : Type 0 where
  pub bitmap : Bitmap
  pub page_size : ℕ
  pub page_shift : ℕ
  pub start_addr : ℕ
  pub end_addr : ℕ

module _ (k : ℕ) where
  unfoldable pub new : ℕ → ℕ → ℕ → ℕ → Run BufferedPageAllocator
  new cap start_addr end_addr page_size = do
    check (is_power_of_2 page_size)
    start_aligned ← is_aligned (word_bits k) start_addr page_size
    check start_aligned
    end_aligned ← is_aligned (word_bits k) end_addr page_size
    check end_aligned
    check (ltb start_addr end_addr)
    page_shift ← floor_log2 (word_bits k) page_size
    bytes ← sub end_addr start_addr
    ok (record {
      bitmap = Bitmap.new k cap (shr bytes page_shift);
      page_size = page_size;
      page_shift = page_shift;
      start_addr = start_addr;
      end_addr = end_addr;
    })

  unfoldable pub alloc : BufferedPageAllocator → ℕ → Run (BufferedPageAllocator × Option (ℕ × ℕ))
  alloc a pages = if not (pages == 1) then ok (a, none) else do
    found ← first_zero k a.bitmap
    elim found [
      | none ↦ ok (a, none)
      | some z ↦ do
        bitmap ← set_bit k a.bitmap z
        offset ← mul (word_bits k) z a.page_size
        addr ← add (word_bits k) a.start_addr offset
        ok (record a { bitmap = bitmap }, some (addr, 1))
    ]

  unfoldable pub free : BufferedPageAllocator → ℕ → ℕ → Run BufferedPageAllocator
  free a addr pages = do
    check (pages == 1)
    check (leb a.start_addr addr && ltb addr a.end_addr)
    aligned ← is_aligned (word_bits k) addr a.page_size
    check aligned
    bitmap ← clear_bit k a.bitmap (shr addr a.page_shift)
    ok (record a { bitmap = bitmap })

  unfoldable pub get_alloc_mem : BufferedPageAllocator → Run ℕ
  get_alloc_mem a = do pages ← ones k a.bitmap; ok (shl (word_bits k) pages a.page_shift)

  unfoldable pub get_free_mem : BufferedPageAllocator → Run ℕ
  get_free_mem a = do
    allocated ← ones k a.bitmap
    pages ← sub (len a.bitmap) allocated
    ok (shl (word_bits k) pages a.page_shift)
