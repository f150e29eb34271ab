-- ===== src/Arch/Tagger.antt =====
-- `RangeZoneTagger` of src/arch/aarch64/mod.rs and of src/arch/arm/mod.rs.
pub mod Zones
use propeller_kernel.Prelude.{ℕ, Option, none, some, Run, ok, panic}
use propeller_kernel.Prelude.Monad.{◌>>=◌}
use propeller_kernel.Support.Range.{Range, Split, err, parts, split}
use propeller_kernel.Support.RangeSet.{insert_range}
use propeller_kernel.Arch.Memory.{
  MemoryZone, invalid_zone, linear_memory_zone, high_memory_zone, max_mem_ranges, MemoryRange,
  MemoryConfig,
}

module _ (w : ℕ) where
  -- Whether the range was inserted is ignored.
  unfoldable pub insert_tagged : MemoryZone → MemoryConfig → ℕ → ℕ → Run MemoryConfig
  insert_tagged zone config base size = do
    (config', inserted) ←
        insert_range w max_mem_ranges config (record { tag = zone; base = base; size = size })
    ok config'

  -- On AArch64 all memory is linear.
  unfoldable pub handle_range_aarch64 : MemoryConfig → ℕ → ℕ → Run MemoryConfig
  handle_range_aarch64 config base size = insert_tagged linear_memory_zone config base size

  unfoldable pub insert_part : MemoryZone → MemoryConfig → Option MemoryRange → Run MemoryConfig
  insert_part zone config none = ok config
  insert_part zone config (some part) = insert_tagged zone config part.base part.size

  unfoldable pub insert_parts : MemoryConfig → Split MemoryZone → Run MemoryConfig
  insert_parts config err = panic
  insert_parts config (parts rl rh) = do
    config' ← insert_part linear_memory_zone config rl
    insert_part high_memory_zone config' rh

  -- On ARM the memory from `high_mem_base` on is high memory.
  unfoldable pub handle_range_arm : ℕ → MemoryConfig → ℕ → ℕ → Run MemoryConfig
  handle_range_arm high_mem_base config base size = do
    let range : MemoryRange = record { tag = invalid_zone; base = base; size = size }
    pieces ← split w range high_mem_base
    insert_parts config pieces
