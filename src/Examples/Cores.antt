-- ===== src/Examples/Cores.antt =====
-- The cores that src/arch/arm_common/dtb_cpu.rs finds in a device tree.
use propeller_kernel.Prelude.{
  ℕ, zero, suc, ◌%◌, ◌^◌, ◌≡◌, ◌<◌, refl, Option, true, false, ◌⊎◌, inl, inr, List, [], ◌∷◌, ◌++◌,
  ok, none, some, replicate, take, drop, length-replicate, arith,
}
use propeller_kernel.Prelude.Monad.{load, store}
use propeller_kernel.Support.HashMap.{Table, find, find_loop, insert, insert_loop, make_probe_index}
use propeller_kernel.Support.HashMap
use propeller_kernel.Support.HashMap.Keys.{id_eq}
use propeller_kernel.Support.Hash.{hash_key, write, write_all, finish, build_hasher, new}
use propeller_kernel.Support.Dtb.{
  slice, get_slice_from_string_table, get_null_terminated_u8_slice, find_null,
}
use propeller_kernel.Support.Dtb.Parse.{value, return}
use propeller_kernel.Support.Dtb.Walk.{same_bytes}
use propeller_kernel.Support.Dtb.Names.{bytes_eq}
use propeller_kernel.Support.Dtb.RoundTrip.{encode_cells, to_be_bytes, cells_value}
use propeller_kernel.Arch.Cpu.{
  Core, CoreConfig, invalid, spin_table, empty_core, max_cores, core_map_size, add_core,
  move_primary, get_core_index,
}
use propeller_kernel.Arch.Cpu
use propeller_kernel.Arch.Cpu.Cores.{IsCores, arrange}
use propeller_kernel.Arch.Cpu.Search.{index_of}
use propeller_kernel.Arch.Cpu.Index.{IsIndexed, new-IsIndexed, add_core-get_core_index}
use propeller_kernel.Arch.DtbMemory.{reg_name}
use propeller_kernel.Arch.DtbCpu.{dtb_prop_reg, StringMap, DtbCoreScanner, cpu_loop}
use propeller_kernel.Arch.DtbCpu.Scanner.{with_default, add_scanned, get_core_config}
use propeller_kernel.Arch.DtbCpu.Config.{Configures, get_core_config-Configures}
use propeller_kernel.Arch.DtbCpu.Reserve.{add_scanned-takes_last}
use propeller_kernel.Arch.DtbCpu.Registers.{cpu_loop-reg}
use propeller_kernel.Examples.Trees.{blob, tree}

abbrev hash : ℕ → ℕ
hash id = id % 2 ^ 32

hash-lt : (id : ℕ) → hash id < 2 ^ 32
hash-lt id = omega arith

abbrev writes : List ℕ → List (List ℕ)
writes name = name ∷ []

abbrev core : ℕ → Core
core id = record {
  id = id;
  core_type = replicate 64 0;
  enable_method = spin_table;
  release_addr = 4096;
}

-- A configuration of so many cores with the same identifier.
abbrev some_cores : ℕ → ℕ → CoreConfig
some_cores n left = record {
  cores = replicate n (core 7) ++ replicate left (core 0);
  core_count = n;
  id_map = replicate 29 none;
}

-- The configuration after one core is added.
abbrev one_core : CoreConfig
one_core = record {
  cores = core 7 ∷ replicate 15 empty_core;
  core_count = 1;
  id_map = replicate 7 none ++ (some (7, 0) ∷ replicate 21 none);
}

one_core-IsIndexed : IsIndexed 32 hash hash-lt one_core (core 7 ∷ [])
unfolding add_core Cpu.new HashMap.new insert insert_loop make_probe_index load store move_primary
    arrange
one_core-IsIndexed =
    let (c', run, v', both) =
      add_core-get_core_index 32 hash hash-lt (omega arith) (Cpu.new 32) (core 7) false []
        (new-IsIndexed 32 hash hash-lt) (omega arith) tt in
    let same : c' ≡ one_core = cc in
    elim both [ inl (indexed, found) ↦ rw same at indexed | inr (full, few) ↦ absurd (cc) ]

add_core-get_core_index_example :
    (c' : CoreConfig) × (add_core 32 hash one_core (core 3) true ≡ ok (c', true))
    × IsCores 32 c' (core 3 ∷ (core 7 ∷ []))
    × ((IsIndexed 32 hash hash-lt c' (core 3 ∷ (core 7 ∷ []))
          × ((id : ℕ) → get_core_index 32 hash c' id ≡ ok (index_of id 0 (core 3 ∷ (core 7 ∷ [])))))
        ⊎ ((insert hash one_core.id_map 3 1 ≡ ok (one_core.id_map, false))
            × (1 < 32
                → (id : ℕ)
                → get_core_index 32 hash c' id ≡ ok (index_of id 0 (core 3 ∷ (core 7 ∷ []))))))
unfolding arrange
add_core-get_core_index_example =
    add_core-get_core_index 32 hash hash-lt (omega arith) one_core (core 3) true (core 7 ∷ [])
      one_core-IsIndexed (omega arith) (refl, tt)

abbrev full_but_one : DtbCoreScanner
full_but_one = record {
  config = some_cores 15 1;
  primary_id = 3;
  string_map = [];
  addr_cells = 1;
  def_enable_method = invalid;
}

add_scanned-takes_last_example :
    (s' : DtbCoreScanner) × (add_scanned 32 hash (core 8) full_but_one ≡ ok (s', value tt))
    × IsCores 32 s'.config (replicate 15 (core 7) ++ (with_default invalid (core 8) ∷ []))
    × (add_scanned 32 hash (core 3) s' ≡ ok (s', value tt))
add_scanned-takes_last_example =
    add_scanned-takes_last 32 hash hash-lt (omega arith) full_but_one (core 8) (core 3)
      (replicate 15 (core 7))
      (record { spare = core 0 ∷ []; slots = refl; size = refl; used = refl; map_size = refl }) refl
      refl refl

abbrev byte_at : List ℕ → ℕ → ℕ
byte_at [] i = 0
byte_at (b ∷ bytes) zero = b % 256
byte_at (b ∷ bytes) (suc i) = byte_at bytes i

byte_at-lt : (bytes : List ℕ) (i : ℕ) → byte_at bytes i < 256
byte_at-lt [] i = omega arith
byte_at-lt (b ∷ bytes) zero = omega arith
byte_at-lt (b ∷ bytes) (suc i) = byte_at-lt bytes i

-- A memory that begins with a page of zeros and the tree behind it.
abbrev memory : ℕ → ℕ
memory a = byte_at (replicate 4096 0 ++ blob) a

get_core_config-Configures_example :
    Configures 64 0 (get_core_config 64 hash writes 0 memory (Cpu.new 64) 4096)
unfolding Cpu.new HashMap.new
get_core_config-Configures_example =
    get_core_config-Configures 64 hash writes hash-lt (omega arith) memory
      (λ a. byte_at-lt (replicate 4096 0 ++ blob) a) (Cpu.new 64) 0 4096
      (record {
        cores = length-replicate 256 empty_core;
        map = length-replicate {A = Option (ℕ × ℕ)} 389 none;
      })

abbrev reg_map : StringMap
reg_map = some (reg_name, dtb_prop_reg) ∷ []

-- The core of the tree, whose `reg` stands before its enable method.
cpu_loop-reg_example :
    cpu_loop 64 tree writes reg_map 1 306 empty_core 192
    ≡ return (record empty_core { id = cells_value 0 (0 ∷ []) % 2 ^ 64 })
unfolding get_slice_from_string_table get_null_terminated_u8_slice find_null slice load find
    find_loop make_probe_index hash_key write write_all finish build_hasher new same_bytes bytes_eq
    encode_cells to_be_bytes
cpu_loop-reg_example =
    cpu_loop-reg 64 tree (omega arith) 4 39 0 [] (take 192 blob) (drop 208 blob) refl
      (omega arith, (omega arith, (omega arith, tt))) writes reg_map 304 empty_core reg_name refl
      refl (λ e. absurd (omega (arith, e))) (λ e. absurd (omega (arith, e)))
