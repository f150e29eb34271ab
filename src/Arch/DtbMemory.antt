-- ===== src/Arch/DtbMemory.antt =====
-- src/arch/arm_common/dtb_memory.rs: the scanner that collects the memory ranges of a device tree. The
-- handler of the ranges is a parameter, as in the source, where it is a trait object; so is `writes`,
-- what the standard library hashes of a key.
pub mod Scanner
pub mod Invariant
pub mod Layout
pub mod Blocks
use propeller_kernel.Prelude.{
  ℕ, zero, suc, ◌+◌, ◌-◌, ◌/◌, ◌%◌, ◌^◌, Bool, true, false, ◌||◌, Option, none, some, List, [], ◌∷◌,
  Run, ok, panic, out_of_fuel, ltb, leb, ◌==◌, if◌then◌else◌, length, min, not,
}
use propeller_kernel.Prelude.Monad
use propeller_kernel.Support.Dtb.Names.{bytes_eq}
use propeller_kernel.Support.HashMap.{Table, insert, find}
use propeller_kernel.Support.HashMap
use propeller_kernel.Support.Hash.{hash_key}
use propeller_kernel.Support.Dtb.{
  DtbReader, DtbPropertyHeader, DtbError, invalid_dtb, get_u32, skip_and_align,
  get_null_terminated_u8_slice, get_reg_pair_size, get_reg_pair, get_next_property,
}
use propeller_kernel.Support.Dtb.Parse.{
  Result, value, error, Parse, return, fail, ok_or, run, ◌>>=◌,
}
use propeller_kernel.Support.Dtb.Walk.{same_bytes}
use propeller_kernel.Support.RangeSet.{is_empty}
use propeller_kernel.Arch.Memory.{MemoryConfig, MemoryRangeHandler}

pub data StringTag : Type 0 where
  dtb_prop_address_cells : StringTag
  dtb_prop_size_cells : StringTag
  dtb_prop_device_type : StringTag
  dtb_prop_reg : StringTag

abbrev pub StringMap : Type 0
StringMap = Table (List ℕ) StringTag

-- "#address-cells"
abbrev pub address_cells_name : List ℕ
address_cells_name =
    35 ∷ 97 ∷ 100 ∷ 100 ∷ 114 ∷ 101 ∷ 115 ∷ 115 ∷ 45 ∷ 99 ∷ 101 ∷ 108 ∷ 108 ∷ 115 ∷ []

-- "#size-cells"
abbrev pub size_cells_name : List ℕ
size_cells_name = 35 ∷ 115 ∷ 105 ∷ 122 ∷ 101 ∷ 45 ∷ 99 ∷ 101 ∷ 108 ∷ 108 ∷ 115 ∷ []

-- "device_type"
abbrev pub device_type_name : List ℕ
device_type_name = 100 ∷ 101 ∷ 118 ∷ 105 ∷ 99 ∷ 101 ∷ 95 ∷ 116 ∷ 121 ∷ 112 ∷ 101 ∷ []

-- "reg"
abbrev pub reg_name : List ℕ
reg_name = 114 ∷ 101 ∷ 103 ∷ []

-- "memory"
abbrev pub memory_name : List ℕ
memory_name = 109 ∷ 101 ∷ 109 ∷ 111 ∷ 114 ∷ 121 ∷ []

-- The scanner; the handler is a parameter of the functions.
pub record DtbMemoryScanner : Type 0 where
  pub config : MemoryConfig
  pub string_map : StringMap
  pub addr_cells : ℕ
  pub size_cells : ℕ

-- The positions and the cell counts that the loop over a device's properties finds.
pub record DeviceNode : Type 0 where
  pub dev_type : Option (ℕ × ℕ)
  pub reg : Option (ℕ × ℕ)
  pub addr_cells : ℕ
  pub size_cells : ℕ

module _ (w : ℕ) (r : DtbReader) where
  -- A turn of the loop of `scan_device_node`: what it has found, and the location.
  unfoldable pub device_property : DeviceNode → Option StringTag → ℕ → ℕ → Parse (DeviceNode × ℕ)
  device_property d (some dtb_prop_device_type) size loc = do
    loc' ← run (skip_and_align w r size loc)
    return (record d { dev_type = some (loc, size) }, loc')
  device_property d (some dtb_prop_reg) size loc = do
    loc' ← run (skip_and_align w r size loc)
    return (record d { reg = some (loc, size) }, loc')
  device_property d (some dtb_prop_address_cells) size loc = do
    (cells, loc') ← ok_or (get_u32 w r loc) invalid_dtb
    return (record d { addr_cells = cells }, loc')
  device_property d (some dtb_prop_size_cells) size loc = do
    (cells, loc') ← ok_or (get_u32 w r loc) invalid_dtb
    return (record d { size_cells = cells }, loc')
  device_property d none size loc = do loc' ← run (skip_and_align w r size loc); return (d, loc')

module _ (writes : List ℕ → List (List ℕ)) where
  -- Insertions one after the other, of which the results are ignored.
  unfoldable pub insert_all :
      {T : Type 0} → Table (List ℕ) T → List (List ℕ × T) → Run (Table (List ℕ) T)
  insert_all map [] = ok map
  insert_all map ((key, tag) ∷ rest) =
      Monad.◌>>=◌ (insert (hash_key writes) map key tag) (λ (map', inserted). insert_all map' rest)

  unfoldable pub build_string_map : Run StringMap
  build_string_map = insert_all (HashMap.new 31) (
      (address_cells_name, dtb_prop_address_cells)
      ∷ (size_cells_name, dtb_prop_size_cells)
      ∷ (device_type_name, dtb_prop_device_type)
      ∷ (reg_name, dtb_prop_reg)
      ∷ [])

  module _ (w : ℕ) (r : DtbReader) (string_map : StringMap) where
    -- Each turn passes a word.
    unfoldable pub device_loop : ℕ → DeviceNode → ℕ → Parse DeviceNode
    device_loop zero d loc = out_of_fuel
    device_loop (suc fuel) d loc = do
      (found, loc1) ← run (get_next_property w r loc)
      elim found [
        | none ↦ return d
        | some header ↦ do
          tag ← run (find (hash_key writes) string_map header.name)
          (d', loc2) ← device_property w r d tag header.size loc1
          device_loop fuel d' loc2
      ]

unfoldable pub check_device_type : (w : ℕ) → DtbReader → ℕ → Run Bool
check_device_type w r loc =
    Monad.◌>>=◌ (get_null_terminated_u8_slice w r loc) (λ found. elim found [
      | none ↦ ok false
      | some (name, end) ↦ ok (same_bytes name memory_name)
    ])

-- The size of a range that does not reach above the address space.
unfoldable pub clip_size : ℕ → ℕ → ℕ → ℕ
clip_size w base size = if base == 0 then min size (2 ^ w - 1) else min size (2 ^ w - 1 - base + 1)
