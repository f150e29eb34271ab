-- ===== src/Arch/Memory.antt =====
-- src/arch/common/memory.rs: the zones, and the configuration of the memory.
use propeller_kernel.Prelude.{ℕ, Run}
use propeller_kernel.Support.Range.{Range}
use propeller_kernel.Support.RangeSet.{RangeSet}

pub data MemoryZone : Type 0 where
  invalid_zone : MemoryZone
  linear_memory_zone : MemoryZone
  high_memory_zone : MemoryZone

abbrev pub max_mem_ranges : ℕ
max_mem_ranges = 64

abbrev pub MemoryRange : Type 0
MemoryRange = Range MemoryZone

abbrev pub MemoryConfig : Type 0
MemoryConfig = RangeSet MemoryZone

-- `MemoryRangeHandler::handle_range`
abbrev pub MemoryRangeHandler : Type 0
MemoryRangeHandler = MemoryConfig → ℕ → ℕ → Run MemoryConfig
