-- ===== src/Mm/PageAllocator/Init.antt =====
-- `BuddyPageAllocator::new` and `init_metadata` of src/mm/page_allocator.rs.
use propeller_kernel.Prelude.{
  ℕ, zero, suc, ◌+◌, ◌-◌, ◌/◌, ◌||◌, Option, none, some, List, [], ◌∷◌, Run, ok, out_of_fuel, ltb,
  leb, ◌==◌, if◌then◌else◌, length, replicate, min,
}
use propeller_kernel.Prelude.Monad.{◌>>=◌, add, sub}
use propeller_kernel.Support.Bits.{shl, shr, align_down, align_up, least_significant_bit}
use propeller_kernel.Support.Range.{Range}
use propeller_kernel.Arch.Bits.{floor_log2}
use propeller_kernel.Mm.Machine.{Machine}
use propeller_kernel.Mm.PageAllocator.{
  block_levels, page_size, BlockNode, Buddy, make_levels, add_to_list,
}

module _ (m : Machine) where
  open m use {word_bits, word_shift, page_shift, max_physical}

  -- Level of the largest block that is aligned at `addr` and fits `remaining`.
  unfoldable pub level_at : ℕ → ℕ → Run ℕ
  level_at addr remaining = do
    aligned ← floor_log2 word_bits (least_significant_bit word_bits (shr addr page_shift))
    let max_level = min aligned (block_levels - 1)
    fitting ← floor_log2 word_bits (shr remaining page_shift)
    ok (min fitting max_level)

  -- The loop over one available range.
  unfoldable pub init_range : ℕ → ℕ → ℕ → Buddy → Run Buddy
  init_range zero addr remaining s = out_of_fuel
  init_range (suc fuel) addr remaining s =
      if leb (page_size m) remaining
      then (do
        level ← level_at addr remaining
        let size = shl word_bits (shl word_bits 1 level) page_shift
        s' ← add_to_list m s level addr
        addr' ← add word_bits addr size
        remaining' ← sub remaining size
        init_range fuel addr' remaining' s')
      else ok s

  unfoldable pub init_ranges {ℓ} : {T : Type ℓ} → List (Range T) → Buddy → Run Buddy
  init_ranges [] s = ok s
  init_ranges (range ∷ avail) s = do
    s' ← init_range (range.size / page_size m + 1) range.base range.size s
    init_ranges avail s'

  unfoldable pub init_metadata {ℓ} : {T : Type ℓ} → List (Range T) → Buddy → Run Buddy
  init_metadata avail s = init_ranges avail (record s { flags = replicate (length s.flags) 0 })

  -- The check of the available ranges: their total size, or `none` when one lies outside.
  unfoldable pub check_ranges {ℓ} : {T : Type ℓ} → List (Range T) → ℕ → ℕ → ℕ → Run (Option ℕ)
  check_ranges [] base end free_mem = ok (some free_mem)
  check_ranges (range ∷ avail) base end free_mem = do
    n ← sub range.size 1
    range_end ← add word_bits range.base n
    let rest = (do total ← add word_bits free_mem range.size; check_ranges avail base end total)
    if ltb range.base base || ltb end range_end then ok none else rest

  -- `words` is what the flag words hold before they are cleared; their number is what
  -- `slice::from_raw_parts_mut` is given.
  unfoldable pub construct {ℓ} :
      {T : Type ℓ} → ℕ → ℕ → ℕ → List (Range T) → ℕ → (ℕ → BlockNode) → Run (Option Buddy)
  construct base size end avail metadata memory =
      if ltb size (page_size m) || metadata == 0 || length avail == 0 then ok none else do
        checked ← check_ranges avail base end 0
        elim checked [
          | none ↦ ok none
          | some free_mem ↦ do
            (levels, meta_size) ← make_levels m size
            s ← init_metadata avail (record {
              base = base;
              size = size;
              levels = levels;
              flags = replicate (shr meta_size word_shift) 0;
              alloc_mem = 0;
              free_mem = free_mem;
              memory = memory;
            })
            ok (some s)
        ]

  unfoldable pub new {ℓ} :
      {T : Type ℓ} → ℕ → ℕ → ℕ → List (Range T) → (ℕ → BlockNode) → Run (Option Buddy)
  new base size metadata avail memory = if ltb max_physical base then ok none else do
    n ← sub size 1
    if ltb (max_physical - base) n then ok none else do
      limit ← add word_bits base size
      end ← sub limit 1
      base' ← align_up word_bits base (page_size m)
      room ← sub end base'
      rounded ← add word_bits room 1
      size' ← align_down word_bits rounded (page_size m)
      construct base' size' end avail metadata memory
