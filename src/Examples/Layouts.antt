-- ===== src/Examples/Layouts.antt =====
-- The memory that src/arch/arm_common/dtb_memory.rs finds in a device tree.
use propeller_kernel.Prelude.{ℕ, ◌≡◌, refl, List, [], ◌∷◌, ok, take, drop, arith}
use propeller_kernel.Prelude.Monad
use propeller_kernel.Support.Dtb.Parse.{value}
use propeller_kernel.Support.Dtb.Scan.{scan}
use propeller_kernel.Support.Dtb.Invariant.{Runs}
use propeller_kernel.Support.Dtb.RoundTrip.{to_be_bytes, encode_cells}
use propeller_kernel.Support.RangeSet.{new}
use propeller_kernel.Support.RangeSet.View.{new-IsView}
use propeller_kernel.Arch.Memory.{invalid_zone}
use propeller_kernel.Arch.Tagger.{handle_range_aarch64, handle_range_arm}
use propeller_kernel.Arch.Tagger.Zones.{IsConfig, IsZoned}
use propeller_kernel.Arch.DtbMemory.{DtbMemoryScanner}
use propeller_kernel.Arch.DtbMemory.Scanner.{scan_node, add_memory_blocks}
use propeller_kernel.Arch.DtbMemory.Layout.{scan-IsZoned}
use propeller_kernel.Arch.DtbMemory.Blocks.{
  Block, encode_blocks, hand_over, block_values, add_memory_blocks-hand_over,
}
use propeller_kernel.Examples.Trees.{blob, tree, tree-IsReader}

abbrev writes : List ℕ → List (List ℕ)
writes name = name ∷ []

abbrev scanner : DtbMemoryScanner
scanner = record { config = new 64 invalid_zone; string_map = []; addr_cells = 1; size_cells = 1 }

scanner-IsConfig : IsConfig (IsZoned 64 4096) scanner.config
scanner-IsConfig = record { ranges = []; view = new-IsView 64 invalid_zone; sorted = tt; each = tt }

scan-IsZoned_example :
    Runs Unit
      (λ t. IsConfig (IsZoned 64 4096) t.config)
      (λ u. Unit {0})
      (scan 64 tree (scan_node 64 (handle_range_arm 64 4096) writes) scanner)
scan-IsZoned_example = scan-IsZoned 64 writes tree tree-IsReader scanner 4096 scanner-IsConfig

abbrev bank : List Block
bank = (4096 ∷ [], 16384 ∷ []) ∷ []

add_memory_blocks-hand_over_example :
    add_memory_blocks 64 (handle_range_aarch64 64) tree 8 1 1 124 scanner
    ≡ Monad.◌>>=◌
        (hand_over 64
          (handle_range_aarch64 64)
          scanner.config
          (block_values 64 (handle_range_aarch64 64) bank))
        (λ config'. ok (record scanner { config = config' }, value tt))
unfolding encode_blocks encode_cells to_be_bytes
add_memory_blocks-hand_over_example =
    add_memory_blocks-hand_over 64 (handle_range_aarch64 64) tree (omega arith) 1 1 (omega arith)
      bank (take 124 blob) (drop 132 blob) scanner (omega arith)
      (refl, refl, (omega arith, tt), (omega arith, tt), tt) refl
