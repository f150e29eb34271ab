-- ===== src/Mm/Zones.antt =====
-- src/mm/mod.rs: the zones of memory and their page allocators.
pub mod Reserve
use propeller_kernel.Prelude.{
  ℕ, zero, suc, ◌+◌, ◌-◌, ◌≤◌, Bool, true, false, ◌&&◌, not, Option, none, some, List, [], ◌∷◌, Run,
  ok, panic, unwrap, check, ltb, leb, ◌==◌, if◌then◌else◌, length, take, drop, replicate,
}
use propeller_kernel.Prelude.Monad.{◌>>=◌, ◌>>◌, add, sub, load, store}
use propeller_kernel.Support.Bits.{align_up}
use propeller_kernel.Support.Range.{Range}
use propeller_kernel.Support.RangeSet.{RangeSet, get_ranges, exclude_range}
use propeller_kernel.Arch.Memory.{
  MemoryZone, invalid_zone, linear_memory_zone, high_memory_zone, max_mem_ranges, MemoryRange,
  MemoryConfig,
}
use propeller_kernel.Mm.Machine.{Machine}
use propeller_kernel.Mm.PageAllocator.{BlockNode, Buddy, page_size, calc_metadata_size}
use propeller_kernel.Mm.PageAllocator.Init.{new}

pub record ZoneInfo : Type 0 where
  pub range : MemoryRange
  pub meta_size : ℕ
  pub zone_index : ℕ
  pub start_index : ℕ
  pub end_index : ℕ

abbrev pub zone_allocator_count : ℕ
zone_allocator_count = 2

abbrev pub linear_memory_allocator : ℕ
linear_memory_allocator = 0

abbrev pub high_memory_allocator : ℕ
high_memory_allocator = 1

unfoldable pub get_zone_index : MemoryZone → Option ℕ
get_zone_index invalid_zone = none
get_zone_index linear_memory_zone = some linear_memory_allocator
get_zone_index high_memory_zone = some high_memory_allocator

-- The equality of the zones.
unfoldable pub same_zone : MemoryZone → MemoryZone → Bool
same_zone invalid_zone invalid_zone = true
same_zone linear_memory_zone linear_memory_zone = true
same_zone high_memory_zone high_memory_zone = true
same_zone invalid_zone linear_memory_zone = false
same_zone invalid_zone high_memory_zone = false
same_zone linear_memory_zone invalid_zone = false
same_zone linear_memory_zone high_memory_zone = false
same_zone high_memory_zone invalid_zone = false
same_zone high_memory_zone linear_memory_zone = false

abbrev pub zone_info_initializer : ZoneInfo
zone_info_initializer = record {
  range = record { tag = invalid_zone; base = 0; size = 0 };
  meta_size = 0;
  zone_index = 0;
  start_index = 0;
  end_index = 0;
}

-- `&xs[first..=last]`
unfoldable pub slice_inclusive {ℓ} : {A : Type ℓ} → List A → ℕ → ℕ → Run (List A)
slice_inclusive xs first last =
    if leb first (last + 1) && leb (last + 1) (length xs)
    then ok (take (last + 1 - first) (drop first xs))
    else panic

module _ (m : Machine) where
  open m use {word_bits}

  -- What one range of the configuration adds to what is known of its zone.
  unfoldable pub widen : ZoneInfo → MemoryRange → ℕ → ℕ → Run ZoneInfo
  widen info range zone_index index =
      if same_zone info.range.tag invalid_zone
      then ok (record info {
        range = range;
        zone_index = zone_index;
        start_index = index;
        end_index = index;
      })
      else if same_zone info.range.tag range.tag
      then (do
        n ← sub range.size 1
        end ← add word_bits range.base n
        room ← sub end info.range.base
        size ← add word_bits room 1
        let wider : MemoryRange = record {
          tag = info.range.tag;
          base = info.range.base;
          size = size;
        }
        ok (record info { range = wider; end_index = index }))
      else ok info

  unfoldable pub widen_loop : List MemoryRange → ℕ → List ZoneInfo → Run (List ZoneInfo)
  widen_loop [] index zone_info = ok zone_info
  widen_loop (range ∷ ranges) index zone_info = do
    zone_index ← unwrap (get_zone_index range.tag)
    info ← load zone_info zone_index
    info' ← widen info range zone_index index
    zone_info' ← store zone_info zone_index info'
    widen_loop ranges (index + 1) zone_info'

  unfoldable pub measure_loop : List ZoneInfo → Run (List ZoneInfo)
  measure_loop [] = ok []
  measure_loop (zone ∷ zones) = do
    size ← calc_metadata_size m zone.range.size
    meta_size ← align_up word_bits size (page_size m)
    zones' ← measure_loop zones
    ok (record zone { meta_size = meta_size } ∷ zones')

  unfoldable pub init_zone_info : List ZoneInfo → MemoryConfig → Run (List ZoneInfo)
  init_zone_info zone_info mem_config = do
    ranges ← get_ranges mem_config
    widened ← widen_loop ranges 0 zone_info
    measure_loop widened

  -- The sum of the metadata sizes.
  unfoldable pub meta_total_loop : List ZoneInfo → ℕ → Run ℕ
  meta_total_loop [] acc = ok acc
  meta_total_loop (zone ∷ zones) acc = do
    acc' ← add word_bits acc zone.meta_size
    meta_total_loop zones acc'

  -- The end of the first linear range that is larger than the metadata, less their size, or zero.
  unfoldable pub find_meta_base : ℕ → List MemoryRange → Run ℕ
  find_meta_base meta_total [] = ok 0
  find_meta_base meta_total (range ∷ ranges) =
      let rest = find_meta_base meta_total ranges in
      if same_zone range.tag linear_memory_zone && ltb meta_total range.size
      then (do
        n ← sub range.size 1
        end ← add word_bits range.base n
        below ← sub end meta_total
        add word_bits below 1)
      else rest

  -- The configuration without the metadata, and the base of the metadata.
  unfoldable pub init_allocator_memory_config :
      MemoryConfig → List ZoneInfo → Run (MemoryConfig × ℕ)
  init_allocator_memory_config mem_config zone_info = do
    meta_total ← meta_total_loop zone_info 0
    ranges ← get_ranges mem_config
    meta_base ← find_meta_base meta_total ranges
    check (not (meta_base == 0))
    let excl : MemoryRange = record { tag = invalid_zone; base = meta_base; size = meta_total }
    alloc_config ← exclude_range word_bits max_mem_ranges mem_config excl
    ok (alloc_config, meta_base)

  -- The allocators of the zones, each with the memory that the one before it has left.
  unfoldable pub construct_loop :
      MemoryConfig
      → List ZoneInfo
      → List (Option Buddy)
      → ℕ
      → (ℕ → BlockNode)
      → Run (List (Option Buddy))
  construct_loop alloc_config [] allocators curr_meta_base memory = ok allocators
  construct_loop alloc_config (zone ∷ zones) allocators curr_meta_base memory =
      if same_zone zone.range.tag invalid_zone
      then construct_loop alloc_config zones allocators curr_meta_base memory
      else do
        ranges ← get_ranges alloc_config
        avail ← slice_inclusive ranges zone.start_index zone.end_index
        made ← new m zone.range.base zone.range.size curr_meta_base avail memory
        allocator ← unwrap made
        allocators' ← store allocators zone.zone_index (some allocator)
        next_base ← add word_bits curr_meta_base zone.meta_size
        construct_loop alloc_config zones allocators' next_base allocator.memory

  -- `virtual_base` is `get_kernel_virtual_base()`.
  unfoldable pub init_allocators :
      ℕ → MemoryConfig → (ℕ → BlockNode) → Run (MemoryConfig × List (Option Buddy))
  init_allocators virtual_base mem_config memory = do
    zone_info ← init_zone_info (replicate zone_allocator_count zone_info_initializer) mem_config
    (alloc_config, meta_base) ← init_allocator_memory_config mem_config zone_info
    curr_meta_base ← add word_bits virtual_base meta_base
    allocators ←
        construct_loop alloc_config zone_info (replicate zone_allocator_count none) curr_meta_base
          memory
    ok (alloc_config, allocators)

  -- `INITIALIZED`, and what `init_allocators` leaves in the other globals.
  unfoldable pub init :
      Bool → ℕ → MemoryConfig → (ℕ → BlockNode) → Run (Bool × MemoryConfig × List (Option Buddy))
  init initialized virtual_base mem_config memory = do
    check (not initialized)
    (alloc_config, allocators) ← init_allocators virtual_base mem_config memory
    ok (true, alloc_config, allocators)

unfoldable pub get_zone_allocator : List (Option Buddy) → MemoryZone → Run (Option Buddy)
get_zone_allocator allocators zone = do index ← unwrap (get_zone_index zone); load allocators index
