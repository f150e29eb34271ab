-- ===== src/Examples/Trees.antt =====
-- A device tree with a memory node and a `cpus` node with one core, as src/support/dtb.rs reads it.
use propeller_kernel.Prelude.{
  ℕ, ◌+◌, ◌^◌, ◌≤◌, ◌<◌, ◌≡◌, refl, ◌⊎◌, inr, Bool, true, ◌&&◌, none, some, List, [], ◌∷◌, ok, ltb,
  length, take, drop, arith,
}
use propeller_kernel.Support.Dtb.{DtbReader, get_u32, get_reg_pair}
use propeller_kernel.Support.Dtb.Parse.{value}
use propeller_kernel.Support.Dtb.Scan.{Scan, scan}
use propeller_kernel.Support.Dtb.Cursor.{AllBytes, IsReader, get_u32_cases}
use propeller_kernel.Support.Dtb.Invariant.{Runs, returns, scan-Runs}
use propeller_kernel.Support.Dtb.RoundTrip.{
  to_be_bytes, encode_cells, cells_value, get_reg_pair-encode_cells,
}

abbrev pub blob : List ℕ
blob =
    208 ∷ 13 ∷ 254 ∷ 237 ∷ 0 ∷ 0 ∷ 1 ∷ 49 ∷ 0 ∷ 0 ∷ 0 ∷ 40 ∷ 0 ∷ 0 ∷ 0 ∷ 248 ∷ 0 ∷ 0 ∷ 0 ∷ 40 ∷ 0
    ∷ 0 ∷ 0 ∷ 17 ∷ 0 ∷ 0 ∷ 0 ∷ 16 ∷ 0 ∷ 0 ∷ 0 ∷ 0 ∷ 0 ∷ 0 ∷ 0 ∷ 57 ∷ 0 ∷ 0 ∷ 0 ∷ 208 ∷ 0 ∷ 0 ∷ 0 ∷ 1
    ∷ 0 ∷ 0 ∷ 0 ∷ 0 ∷ 0 ∷ 0 ∷ 0 ∷ 3 ∷ 0 ∷ 0 ∷ 0 ∷ 4 ∷ 0 ∷ 0 ∷ 0 ∷ 0 ∷ 0 ∷ 0 ∷ 0 ∷ 1 ∷ 0 ∷ 0 ∷ 0 ∷ 3
    ∷ 0 ∷ 0 ∷ 0 ∷ 4 ∷ 0 ∷ 0 ∷ 0 ∷ 15 ∷ 0 ∷ 0 ∷ 0 ∷ 1 ∷ 0 ∷ 0 ∷ 0 ∷ 1 ∷ 109 ∷ 101 ∷ 109 ∷ 111 ∷ 114
    ∷ 121 ∷ 0 ∷ 0 ∷ 0 ∷ 0 ∷ 0 ∷ 3 ∷ 0 ∷ 0 ∷ 0 ∷ 7 ∷ 0 ∷ 0 ∷ 0 ∷ 27 ∷ 109 ∷ 101 ∷ 109 ∷ 111 ∷ 114
    ∷ 121 ∷ 0 ∷ 0 ∷ 0 ∷ 0 ∷ 0 ∷ 3 ∷ 0 ∷ 0 ∷ 0 ∷ 8 ∷ 0 ∷ 0 ∷ 0 ∷ 39 ∷ 0 ∷ 0 ∷ 16 ∷ 0 ∷ 0 ∷ 0 ∷ 64 ∷ 0
    ∷ 0 ∷ 0 ∷ 0 ∷ 2 ∷ 0 ∷ 0 ∷ 0 ∷ 1 ∷ 99 ∷ 112 ∷ 117 ∷ 115 ∷ 0 ∷ 0 ∷ 0 ∷ 0 ∷ 0 ∷ 0 ∷ 0 ∷ 3 ∷ 0 ∷ 0
    ∷ 0 ∷ 4 ∷ 0 ∷ 0 ∷ 0 ∷ 0 ∷ 0 ∷ 0 ∷ 0 ∷ 1 ∷ 0 ∷ 0 ∷ 0 ∷ 3 ∷ 0 ∷ 0 ∷ 0 ∷ 4 ∷ 0 ∷ 0 ∷ 0 ∷ 15 ∷ 0 ∷ 0
    ∷ 0 ∷ 0 ∷ 0 ∷ 0 ∷ 0 ∷ 1 ∷ 99 ∷ 112 ∷ 117 ∷ 64 ∷ 48 ∷ 0 ∷ 0 ∷ 0 ∷ 0 ∷ 0 ∷ 0 ∷ 3 ∷ 0 ∷ 0 ∷ 0 ∷ 4
    ∷ 0 ∷ 0 ∷ 0 ∷ 39 ∷ 0 ∷ 0 ∷ 0 ∷ 0 ∷ 0 ∷ 0 ∷ 0 ∷ 3 ∷ 0 ∷ 0 ∷ 0 ∷ 11 ∷ 0 ∷ 0 ∷ 0 ∷ 43 ∷ 115 ∷ 112
    ∷ 105 ∷ 110 ∷ 45 ∷ 116 ∷ 97 ∷ 98 ∷ 108 ∷ 101 ∷ 0 ∷ 0 ∷ 0 ∷ 0 ∷ 0 ∷ 2 ∷ 0 ∷ 0 ∷ 0 ∷ 2 ∷ 0 ∷ 0 ∷ 0
    ∷ 2 ∷ 0 ∷ 0 ∷ 0 ∷ 9 ∷ 35 ∷ 97 ∷ 100 ∷ 100 ∷ 114 ∷ 101 ∷ 115 ∷ 115 ∷ 45 ∷ 99 ∷ 101 ∷ 108 ∷ 108
    ∷ 115 ∷ 0 ∷ 35 ∷ 115 ∷ 105 ∷ 122 ∷ 101 ∷ 45 ∷ 99 ∷ 101 ∷ 108 ∷ 108 ∷ 115 ∷ 0 ∷ 100 ∷ 101 ∷ 118
    ∷ 105 ∷ 99 ∷ 101 ∷ 95 ∷ 116 ∷ 121 ∷ 112 ∷ 101 ∷ 0 ∷ 114 ∷ 101 ∷ 103 ∷ 0 ∷ 101 ∷ 110 ∷ 97 ∷ 98
    ∷ 108 ∷ 101 ∷ 45 ∷ 109 ∷ 101 ∷ 116 ∷ 104 ∷ 111 ∷ 100 ∷ 0 ∷ []

abbrev pub tree : DtbReader
tree = record {
  dtb = blob;
  dt_struct_offset = 40;
  dt_strings_offset = 248;
  mem_rsv_map_offset = 40;
  version = 17;
  last_comp_version = 16;
  boot_cpuid_phys = 0;
  dt_strings_size = 57;
  dt_struct_size = 208;
}

abbrev all_bytes : List ℕ → Bool
all_bytes [] = true
all_bytes (b ∷ bytes) = ltb b 256 && all_bytes bytes

all_bytes-AllBytes : (bytes : List ℕ) → all_bytes bytes ≡ true → AllBytes bytes
all_bytes-AllBytes [] h = tt
all_bytes-AllBytes (b ∷ bytes) h = (ground (arith, h), all_bytes-AllBytes bytes (ground (arith, h)))

pub blob-AllBytes : AllBytes blob
blob-AllBytes = all_bytes-AllBytes blob refl

pub tree-IsReader : IsReader 64 tree
tree-IsReader = record { header = omega arith; fits = omega arith; bytes = blob-AllBytes }

get_u32_cases_example :
    ((get_u32 64 tree 40 ≡ ok none) × (length blob < 44))
    ⊎ ((value : ℕ) × (get_u32 64 tree 40 ≡ ok (some (value, 44)))
        × (44 ≤ length blob)
        × (value < 2 ^ 32))
get_u32_cases_example = get_u32_cases 64 tree tree-IsReader 40

-- The pair of the memory node.
get_reg_pair-encode_cells_example : get_reg_pair 64 tree 1 1 124 ≡ ok (some ((4096, 16384), 132))
unfolding encode_cells to_be_bytes cells_value
get_reg_pair-encode_cells_example =
    get_reg_pair-encode_cells 64 tree (omega arith) (4096 ∷ []) (16384 ∷ []) (take 124 blob)
      (drop 132 blob) (omega arith) (omega arith, tt) (omega arith, tt) refl

-- A scanner that counts the nodes.
abbrev count_node : DtbReader → List ℕ → ℕ → Scan ℕ Bool
count_node r name loc n = ok (n + 1, value true)

scan-Runs_example : Runs ⊥ (λ n. 5 ≤ n) (λ u. Unit {0}) (scan 64 tree count_node 5)
scan-Runs_example =
    scan-Runs 64 tree tree-IsReader (inr (omega arith)) (λ n. 5 ≤ n) count_node
      (λ name loc n inside h. returns (omega arith) tt) 5 (omega arith)
