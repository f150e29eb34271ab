-- ===== src/Arch/Buffered/Alloc.antt =====
-- `BufferedPageAllocator::alloc` of src/arch/common/memory.rs as a choice of a free page.
use native.Mathlib.Nat.{mul-le-mul_right}
use propeller_kernel.Prelude.{
  ℕ, ◌+◌, ◌*◌, ◌^◌, ◌≤◌, ◌<◌, ◌≡◌, refl, ◌⊎◌, inl, inr, Bool, true, false, Option, none, some, Run,
  ok, lt→ltb, ◌==◌, if◌then◌else◌, length, arith,
}
use propeller_kernel.Support.Bits.Bitmap.{Bitmap, set_bit, test_bit}
use propeller_kernel.Support.Bits.Bitmap.Toggle.{HasWords, test_bit-set_bit}
use propeller_kernel.Support.Bits.Bitmap.Least.{AllSmall, first_zero-test_bit}
use propeller_kernel.Arch.Buffered.{BufferedPageAllocator, alloc}

module _ (k : ℕ) where
  -- The words of the bitmap hold its bits, have fewer bits than a word counts, and the last page ends in
  -- the address space.
  pub record IsAllocator (a : BufferedPageAllocator) : Type 0 where
    pub words : HasWords k a.bitmap
    pub small : AllSmall k a.bitmap.bitmap
    pub room : length a.bitmap.bitmap * 2 ^ k < 2 ^ (2 ^ k)
    pub pages : a.start_addr + a.bitmap.bits * a.page_size < 2 ^ (2 ^ k)

  -- Whether a page is allocated.
  abbrev pub page_used : BufferedPageAllocator → ℕ → Run (Option Bool)
  page_used b j = test_bit k b.bitmap j

  module _ (a : BufferedPageAllocator) (v : IsAllocator a) where
    set_bit-page :
        (z j : ℕ) (b' : Bitmap)
        → z < a.bitmap.bits
        → j < a.bitmap.bits
        → set_bit k a.bitmap z ≡ ok b'
        → (used : Bool) × (test_bit k a.bitmap j ≡ ok (some used))
          × (test_bit k b' j ≡ ok (some (if z == j then true else used)))
    set_bit-page z j b' l l' run =
        let (b'', used, run'', before, after) = test_bit-set_bit k a.bitmap z j v.words l l' in
        let same : b'' ≡ b' = cc in (used, before, rw same at after)

    -- On a well formed allocator, the request of one page does not panic. It gives nothing and changes
    -- nothing when every page is allocated. Otherwise it gives the address of a page that was free, all
    -- pages before it being allocated; that page is allocated then, and the others are as before.
    pub alloc-free_page :
        ((alloc k a 1 ≡ ok (a, none))
          × ((j : ℕ) → j < a.bitmap.bits → page_used a j ≡ ok (some true)))
        ⊎ ((a' : BufferedPageAllocator) × (z : ℕ) × (alloc k a 1
              ≡ ok (a', some (a.start_addr + z * a.page_size, 1)))
            × (page_used a z ≡ ok (some false))
            × ((j : ℕ) → j < z → page_used a j ≡ ok (some true))
            × ((j : ℕ)
                → j < a.bitmap.bits
                → (used : Bool) × (page_used a j ≡ ok (some used))
                  × (page_used a' j ≡ ok (some (if z == j then true else used)))))
    unfolding alloc
    alloc-free_page = elim (first_zero-test_bit k a.bitmap v.words v.small v.room) [
      | inl (full, all) ↦ inl (rw full refl, all)
      | inr (z, inside, found, clear, before) ↦
          let (b', used, run, was, now) = test_bit-set_bit k a.bitmap z z v.words inside inside in
          inr (
            record a { bitmap = b' },
            z,
            rw found (
                rw
                  (
                    run,
                    lt→ltb (z * a.page_size) (2 ^ (2 ^ k)) (omega (arith, v.pages, below z inside)),
                    lt→ltb (a.start_addr + z * a.page_size) (2 ^ (2 ^ k))
                        (omega (arith, v.pages, below z inside)),
                  )
                  refl),
            clear,
            before,
            λ j l. set_bit-page z j b' inside l run,
          )
    ]
      where
        below : (z : ℕ) → z < a.bitmap.bits → z * a.page_size ≤ a.bitmap.bits * a.page_size
        below z l = mul-le-mul_right a.page_size (omega (arith, l))
