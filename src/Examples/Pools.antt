-- ===== src/Examples/Pools.antt =====
-- The allocator of src/arch/common/memory.rs with one word of 32 bits, for eight pages of 4 KiB.
use propeller_kernel.Prelude.{
  ◌≡◌, ◌<◌, ◌+◌, ◌*◌, ℕ, Bool, true, false, ◌⊎◌, none, some, [], ◌∷◌, ok, refl, arith, ◌==◌,
  if◌then◌else◌,
}
use propeller_kernel.Support.Bits.{is_aligned}
use propeller_kernel.Arch.Buffered.{BufferedPageAllocator, alloc, free}
use propeller_kernel.Arch.Buffered.Alloc.{IsAllocator, page_used, alloc-free_page}
use propeller_kernel.Arch.Buffered.Free.{free-nothing}

-- The first two pages and the fourth one are allocated.
abbrev pool : BufferedPageAllocator
pool = record {
  bitmap = record { bitmap = 11 ∷ []; bits = 8 };
  page_size = 4096;
  page_shift = 12;
  start_addr = 0x40000;
  end_addr = 0x48000;
}

pool-IsAllocator : IsAllocator 5 pool
pool-IsAllocator = record {
  words = omega arith;
  small = (omega arith, tt);
  room = omega arith;
  pages = omega arith;
}

alloc-free_page_example :
    ((alloc 5 pool 1 ≡ ok (pool, none)) × ((j : ℕ) → j < 8 → page_used 5 pool j ≡ ok (some true)))
    ⊎ ((a' : BufferedPageAllocator) × (z : ℕ) × (alloc 5 pool 1
          ≡ ok (a', some (0x40000 + z * 4096, 1)))
        × (page_used 5 pool z ≡ ok (some false))
        × ((j : ℕ) → j < z → page_used 5 pool j ≡ ok (some true))
        × ((j : ℕ)
            → j < 8
            → (used : Bool) × (page_used 5 pool j ≡ ok (some used))
              × (page_used 5 a' j ≡ ok (some (if z == j then true else used)))))
alloc-free_page_example = alloc-free_page 5 pool pool-IsAllocator

free-nothing_example : free 5 pool 0x41000 1 ≡ ok pool
unfolding is_aligned
free-nothing_example = free-nothing 5 pool 0x41000 (omega arith) (omega arith) (omega arith) refl
