-- ===== src/Examples/Zones.antt =====
-- The placement of the allocators' metadata of src/mm/mod.rs in two banks of a 32-bit machine.
use propeller_kernel.Prelude.{
  ℕ, ◌-◌, ◌≡◌, refl, true, false, ◌&&◌, not, ◌⊎◌, List, [], ◌∷◌, ◌++◌, ok, panic, ltb, leb,
  replicate, arith,
}
use propeller_kernel.Support.Range.Order.{limit}
use propeller_kernel.Support.RangeSet.View.{IsView}
use propeller_kernel.Support.RangeSet.Difference.{contains_any}
use propeller_kernel.Arch.Memory.{
  invalid_zone, linear_memory_zone, high_memory_zone, max_mem_ranges, MemoryRange, MemoryConfig,
}
use propeller_kernel.Mm.Machine.{Machine}
use propeller_kernel.Mm.Zones.{ZoneInfo, meta_total_loop, init_allocator_memory_config}
use propeller_kernel.Mm.Zones.Reserve.{Holds, is_roomy, init_allocator_memory_config-contains_any}

abbrev arm32 : Machine
arm32 = record {
  word_bits = 32;
  word_bit_shift = 5;
  word_shift = 2;
  page_shift = 12;
  max_physical = 0xffffffff;
  word_bits_pow = refl;
  page_fits = omega arith;
}

abbrev banks : List MemoryRange
banks =
    record { tag = linear_memory_zone; base = 0x100000; size = 0x400000 }
    ∷ record { tag = high_memory_zone; base = 0x40000000; size = 0x800000 }
    ∷ []

abbrev spare_ranges : List MemoryRange
spare_ranges = replicate 62 (record { tag = invalid_zone; base = 0; size = 0 })

abbrev two_banks : MemoryConfig
two_banks = record { ranges = banks ++ spare_ranges; count = 2 }

two_banks-IsView : IsView max_mem_ranges two_banks banks
two_banks-IsView = record { spare = spare_ranges; slots = refl; size = refl; used = refl }

-- Each bank is a zone with metadata of one page.
abbrev two_zones : List ZoneInfo
two_zones =
    record {
      range = record { tag = linear_memory_zone; base = 0x100000; size = 0x400000 };
      meta_size = 4096;
      zone_index = 0;
      start_index = 0;
      end_index = 0;
    }
    ∷ record {
      range = record { tag = high_memory_zone; base = 0x40000000; size = 0x800000 };
      meta_size = 4096;
      zone_index = 1;
      start_index = 1;
      end_index = 1;
    }
    ∷ []

init_allocator_memory_config-contains_any_example :
    ((init_allocator_memory_config arm32 two_banks two_zones ≡ panic)
      × ((r : MemoryRange) → Holds r banks → is_roomy 8192 r ≡ false))
    ⊎ ((r : MemoryRange) × (s' : MemoryConfig) × (ys : List MemoryRange)
        × (init_allocator_memory_config arm32 two_banks two_zones ≡ ok (s', limit r - 8192))
        × Holds r banks
        × (is_roomy 8192 r ≡ true)
        × IsView max_mem_ranges s' ys
        × ((x : ℕ)
            → contains_any ys x
              ≡ (contains_any banks x && not (leb (limit r - 8192) x && ltb x (limit r)))))
unfolding meta_total_loop
init_allocator_memory_config-contains_any_example =
    init_allocator_memory_config-contains_any arm32 8192 two_zones two_banks banks refl
      (omega arith) two_banks-IsView
      (
        record { not_empty = omega arith; fits = omega arith },
        (record { not_empty = omega arith; fits = omega arith }, tt),
      )
      (omega arith, (omega arith, tt)) (omega arith)
