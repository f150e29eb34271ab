-- ===== src/Lib.antt =====
-- The support containers and the memory management of the Propeller kernel.
--
-- The boot loader passes the kernel a flattened device tree. src/support/dtb.rs reads it; the scanners
-- src/arch/arm_common/dtb_memory.rs and src/arch/arm_common/dtb_cpu.rs collect the ranges of memory and
-- the cores from it, the former by a handler that tags each range with its zone. The kernel keeps its
-- memory as ranges of physical addresses in range sets (src/support/range_set.rs, on the ranges of
-- src/support/range.rs), takes the reserved ranges out of them, and hands what is left to the buddy page
-- allocator (src/mm/page_allocator.rs). The cores are kept in src/arch/common/cpu.rs.
--
-- Files:
--   Prelude               Shared names. `Run` is the result of kernel code: a value, a panic, or fuel
--                         used up. Arithmetic that overflows panics, as with the dev profile.
--   Support/Range         `Range` of src/support/range.rs: `cmp`, `exclude`, `split`.
--   Support/RangeSet      `RangeSet` of src/support/range_set.rs: all operations on the array of slots.
--   Support/HashMap       `HashMap` of src/support/hash_map.rs, with the hash of a key as a parameter.
--   Support/Bits          The alignment and checksum functions of src/support/bits.rs, and its `Bitmap`
--                         with the searches and the iterator.
--   Support/Hash          The FNV-1a hasher of src/support/hash.rs.
--   Support/Dtb           `DtbReader` of src/support/dtb.rs: the reads at a cursor, the header, the walks
--                         over properties and nodes, and `scan` with any scanner. A cursor is a location.
--   Arch/Bits             src/arch/common/bits.rs, which selects bits/bits32.rs or bits/bits64.rs.
--   Arch/Memory           The types of the configuration in src/arch/common/memory.rs.
--   Arch/Buffered         `BufferedPageAllocator` of src/arch/common/memory.rs.
--   Arch/Tagger           `RangeZoneTagger` of src/arch/aarch64/mod.rs and src/arch/arm/mod.rs.
--   Arch/DtbMemory        The memory scanner src/arch/arm_common/dtb_memory.rs and `get_memory_layout`.
--   Arch/Cpu              `CoreConfig` of src/arch/common/cpu.rs.
--   Arch/DtbCpu           The core scanner src/arch/arm_common/dtb_cpu.rs and `get_core_config`.
--   Arch/ArmTask          The mappings of a task in src/arch/arm/task.rs, and `map_page_local` and
--                         `unmap_page_local` of src/arch/arm/mm.rs.
--   Mm/Machine            What the page allocator takes from the architecture.
--   Mm/PageAllocator      `BuddyPageAllocator` of src/mm/page_allocator.rs: the nodes, the lists of the
--                         levels, the flags, `new`, `allocate` and `free`.
--   Mm/Zones              src/mm/mod.rs: the zones, the place of the allocators' metadata, and `init`.
--   Examples              Runs at concrete inputs.
--
-- State is passed explicitly. A range set is its array of slots and its count; a `for` loop is recursion
-- on the number of turns left, a `while` loop is recursion on fuel. `trim_empty_ranges` and
-- `exclude_range` are given `count + 1` turns, which is enough, since each turn passes one of the ranges
-- that are there at the start. `trim_overlapping_ranges` takes its fuel as an argument, since it may not
-- end. The loop over one available range of the page allocator has one turn more than the range has
-- pages; each turn takes at least one page, if the address space is larger than the largest block.
--
-- Code that returns `Result<_, DtbError>` is a `Parse`; a scanner's method is a `Scan`, which passes the
-- scanner's state on and keeps it when there is an error. The loops over a tree have one turn more than
-- the tree has bytes, which is enough: each turn moves the cursor on, and `get_u32` gives nothing at the
-- end; the loop over the cores' properties stays at `reg` for one turn, but has passed its header.
-- The fuel of `trim_ranges` is an argument of `get_memory_layout` too. What the standard library passes
-- to a hasher for a key, and the identifier of the running core, are parameters.
--
-- The physical memory of the page allocator is a function from the address of a page to the list node
-- that its first bytes hold. The page allocator's mappings of pages into the running task are not
-- modelled, nor is the memory's content but for the nodes and the flag words. The word size, the page
-- size and the highest physical address are fields of a record that the definitions take. The words of a
-- bitmap have `2 ^ k` bits; the loop of its iterator has one turn more than the map has bits, which is
-- enough, since each turn passes a bit.
--
-- Not modelled: the slab allocator, the page tables but for a task's local mappings, the bootstrap and
-- the current task, and locks with those around the allocators; the trait of the page allocators and
-- the mapping strategies in src/arch/common/memory.rs, the poison value of src/arch/common/bits, and
-- the pair of configurations of src/arch/common/device_tree.rs; the assembly code but for the write of
-- a table entry, and input and output. The order of work is the core that all of these stand on first.
pub mod Prelude
pub mod Support
pub mod Arch
pub mod Mm
pub mod Examples
