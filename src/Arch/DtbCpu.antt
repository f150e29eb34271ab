-- ===== src/Arch/DtbCpu.antt =====
-- src/arch/arm_common/dtb_cpu.rs: the scanner that collects the cores of a device tree. `writes` is what
-- the standard library hashes of a name, `hash` the hash of a core's identifier.
pub mod Scanner
pub mod Reads
pub mod Invariant
pub mod Config
pub mod Reserve
pub mod Registers
use propeller_kernel.Prelude.{
  ℕ, zero, suc, ◌+◌, ◌/◌, ◌%◌, ◌^◌, Bool, true, false, Option, none, some, List, [], ◌∷◌, ◌++◌, Run,
  ok, panic, out_of_fuel, ltb, leb, ◌==◌, if◌then◌else◌, length, take, drop, min,
}
use propeller_kernel.Prelude.Monad
use propeller_kernel.Support.HashMap.{Table, find}
use propeller_kernel.Support.HashMap
use propeller_kernel.Support.Hash.{hash_key}
use propeller_kernel.Support.Dtb.{
  DtbReader, DtbPropertyHeader, invalid_dtb, unknown_value, unsupported_value, get_u32, get_u64,
  skip_and_align, get_null_terminated_u8_slice, get_reg_pair_size, get_reg_pair, get_next_property,
}
use propeller_kernel.Support.Dtb.Parse.{
  Result, value, error, Parse, return, fail, ok_or, run, ◌>>=◌,
}
use propeller_kernel.Support.Dtb.Names.{bytes_eq}
use propeller_kernel.Arch.Cpu.{Core, CoreEnableMethod, invalid, spin_table, bcm2836, CoreConfig}
use propeller_kernel.Arch.DtbMemory.{insert_all, address_cells_name, size_cells_name, reg_name}

pub data DtbStringTag : Type 0 where
  dtb_prop_address_cells : DtbStringTag
  dtb_prop_size_cells : DtbStringTag
  dtb_prop_compatible : DtbStringTag
  dtb_prop_enable_method : DtbStringTag
  dtb_prop_cpu_release_addr : DtbStringTag
  dtb_prop_reg : DtbStringTag
  dtb_value_spin_table : DtbStringTag
  dtb_value_bcm2836 : DtbStringTag

abbrev pub StringMap : Type 0
StringMap = Table (List ℕ) DtbStringTag

-- "compatible"
abbrev pub compatible_name : List ℕ
compatible_name = 99 ∷ 111 ∷ 109 ∷ 112 ∷ 97 ∷ 116 ∷ 105 ∷ 98 ∷ 108 ∷ 101 ∷ []

-- "enable-method"
abbrev pub enable_method_name : List ℕ
enable_method_name = 101 ∷ 110 ∷ 97 ∷ 98 ∷ 108 ∷ 101 ∷ 45 ∷ 109 ∷ 101 ∷ 116 ∷ 104 ∷ 111 ∷ 100 ∷ []

-- "cpu-release-addr"
abbrev pub cpu_release_addr_name : List ℕ
cpu_release_addr_name =
    99 ∷ 112 ∷ 117 ∷ 45 ∷ 114 ∷ 101 ∷ 108 ∷ 101 ∷ 97 ∷ 115 ∷ 101 ∷ 45 ∷ 97 ∷ 100 ∷ 100 ∷ 114 ∷ []

-- "spin-table"
abbrev pub spin_table_name : List ℕ
spin_table_name = 115 ∷ 112 ∷ 105 ∷ 110 ∷ 45 ∷ 116 ∷ 97 ∷ 98 ∷ 108 ∷ 101 ∷ []

-- "brcm,bcm2836-smp"
abbrev pub bcm2836_name : List ℕ
bcm2836_name =
    98 ∷ 114 ∷ 99 ∷ 109 ∷ 44 ∷ 98 ∷ 99 ∷ 109 ∷ 50 ∷ 56 ∷ 51 ∷ 54 ∷ 45 ∷ 115 ∷ 109 ∷ 112 ∷ []

-- "cpus"
abbrev pub cpus_name : List ℕ
cpus_name = 99 ∷ 112 ∷ 117 ∷ 115 ∷ []

-- "cpu@"
abbrev pub cpu_prefix : List ℕ
cpu_prefix = 99 ∷ 112 ∷ 117 ∷ 64 ∷ []

pub record DtbCoreScanner : Type 0 where
  pub config : CoreConfig
  pub primary_id : ℕ
  pub string_map : StringMap
  pub addr_cells : ℕ
  pub def_enable_method : CoreEnableMethod

unfoldable pub build_string_map : (writes : List ℕ → List (List ℕ)) → Run StringMap
build_string_map writes = insert_all writes (HashMap.new 31) (
    (address_cells_name, dtb_prop_address_cells)
    ∷ (size_cells_name, dtb_prop_size_cells)
    ∷ (compatible_name, dtb_prop_compatible)
    ∷ (enable_method_name, dtb_prop_enable_method)
    ∷ (cpu_release_addr_name, dtb_prop_cpu_release_addr)
    ∷ (reg_name, dtb_prop_reg)
    ∷ (spin_table_name, dtb_value_spin_table)
    ∷ (bcm2836_name, dtb_value_bcm2836)
    ∷ [])

-- The enable method that a string of a device tree stands for.
unfoldable pub method_of : DtbStringTag → Parse CoreEnableMethod
method_of dtb_value_spin_table = return spin_table
method_of dtb_value_bcm2836 = return bcm2836
method_of _ = fail unsupported_value

module _ (w : ℕ) (r : DtbReader) where
  unfoldable pub read_compatible : List ℕ → ℕ → Parse (List ℕ × ℕ)
  read_compatible core_type loc = do
    (compatible, loc1) ← ok_or (get_null_terminated_u8_slice w r loc) invalid_dtb
    loc2 ← run (skip_and_align w r 1 loc1)
    let len = min (length compatible) (length core_type)
    return (take len compatible ++ drop len core_type, loc2)

  unfoldable pub read_cpu_release_addr : ℕ → ℕ → Parse (ℕ × ℕ)
  read_cpu_release_addr size loc =
      if size == 4
      then ok_or (get_u32 w r loc) invalid_dtb
      else if size == 8
      then (do
        (addr, loc') ← ok_or (get_u64 w r loc) invalid_dtb
        if ltb addr (2 ^ w) then return (addr, loc') else fail invalid_dtb)
      else fail unsupported_value

  -- The source reads with a copy of the cursor. The number of identifiers is not used.
  unfoldable pub read_thread_id : ℕ → ℕ → ℕ → Parse ℕ
  read_thread_id size addr_cells loc = do
    pair_size ← run (get_reg_pair_size w r addr_cells 0)
    count ← run (Monad.div size pair_size)
    ((id, none_left), loc') ← ok_or (get_reg_pair w r addr_cells 0 loc) invalid_dtb
    return id

  module _ (writes : List ℕ → List (List ℕ)) (string_map : StringMap) where
    unfoldable pub read_enable_method : ℕ → Parse (CoreEnableMethod × ℕ)
    read_enable_method loc = do
      (enable_method, loc1) ← ok_or (get_null_terminated_u8_slice w r loc) invalid_dtb
      loc2 ← run (skip_and_align w r 1 loc1)
      tag ← ok_or (find (hash_key writes) string_map enable_method) unknown_value
      method ← method_of tag
      return (method, loc2)

    -- A turn of the loop of `scan_cpu_node`. The cursor stays where the identifier is.
    unfoldable pub cpu_property : ℕ → Core → Option DtbStringTag → ℕ → ℕ → Parse (Core × ℕ)
    cpu_property addr_cells core (some dtb_prop_compatible) size loc = do
      (core_type, loc') ← read_compatible core.core_type loc
      return (record core { core_type = core_type }, loc')
    cpu_property addr_cells core (some dtb_prop_enable_method) size loc = do
      (method, loc') ← read_enable_method loc
      return (record core { enable_method = method }, loc')
    cpu_property addr_cells core (some dtb_prop_cpu_release_addr) size loc = do
      (addr, loc') ← read_cpu_release_addr size loc
      return (record core { release_addr = addr }, loc')
    cpu_property addr_cells core (some dtb_prop_reg) size loc = do
      id ← read_thread_id size addr_cells loc
      return (record core { id = id % 2 ^ w }, loc)
    cpu_property addr_cells core _ size loc = do
      loc' ← run (skip_and_align w r size loc)
      return (core, loc')

    unfoldable pub cpu_loop : ℕ → ℕ → Core → ℕ → Parse Core
    cpu_loop addr_cells zero core loc = out_of_fuel
    cpu_loop addr_cells (suc fuel) core loc = do
      (found, loc1) ← run (get_next_property w r loc)
      elim found [
        | none ↦ return core
        | some header ↦ do
          tag ← run (find (hash_key writes) string_map header.name)
          (core', loc2) ← cpu_property addr_cells core tag header.size loc1
          cpu_loop addr_cells fuel core' loc2
      ]
