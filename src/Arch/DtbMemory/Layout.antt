-- ===== src/Arch/DtbMemory/Layout.antt =====
-- The memory configuration that src/arch/arm_common/dtb_memory.rs collects on each architecture.
use propeller_kernel.Prelude.{ℕ, List}
use propeller_kernel.Support.Dtb.{DtbReader}
use propeller_kernel.Support.Dtb.Scan.{scan}
use propeller_kernel.Support.Dtb.Cursor.{IsReader}
use propeller_kernel.Support.Dtb.Invariant.{Runs}
use propeller_kernel.Arch.Tagger.{handle_range_aarch64, handle_range_arm}
use propeller_kernel.Arch.Tagger.Zones.{
  IsConfig, IsLinear, IsZoned, Configures-Ends, handle_range_aarch64-Configures,
  handle_range_arm-Configures,
}
use propeller_kernel.Arch.DtbMemory.{DtbMemoryScanner}
use propeller_kernel.Arch.DtbMemory.Scanner.{scan_node}
use propeller_kernel.Arch.DtbMemory.Invariant.{scan-Keeps}

module _ (w : ℕ) (writes : List ℕ → List (List ℕ)) (r : DtbReader) (v : IsReader w r)
    (s : DtbMemoryScanner) where
  -- Whatever bytes a device tree of an admitted size holds: its scan for memory on ARM ends, in a result,
  -- an error or a panic. If it does not panic, it leaves at most 64 ranges, sorted by base; each is a
  -- range of the address space that is not empty; it is tagged as linear and ends at or below the base of
  -- high memory, or is tagged as high and begins at or above it. This is so if it was before the scan.
  pub scan-IsZoned :
      (high_mem_base : ℕ)
      → IsConfig (IsZoned w high_mem_base) s.config
      → Runs Unit
          (λ t. IsConfig (IsZoned w high_mem_base) t.config)
          (λ u. Unit {0})
          (scan w r (scan_node w (handle_range_arm w high_mem_base) writes) s)
  scan-IsZoned high_mem_base c =
      scan-Keeps w writes r v tt (handle_range_arm w high_mem_base)
        (IsConfig (IsZoned w high_mem_base))
        (λ config base size c' h small inside.
          Configures-Ends
            (handle_range_arm-Configures w high_mem_base config base size c' h small inside))
        s c

  -- Whatever bytes a device tree of an admitted size holds: its scan for memory on AArch64 ends, in a
  -- result, an error or a panic. If it does not panic, it leaves at most 64 ranges, sorted by base, each
  -- a range of the address space that is not empty and is tagged as linear. This is so if it was before
  -- the scan.
  pub scan-IsLinear :
      IsConfig (IsLinear w) s.config
      → Runs Unit
          (λ t. IsConfig (IsLinear w) t.config)
          (λ u. Unit {0})
          (scan w r (scan_node w (handle_range_aarch64 w) writes) s)
  scan-IsLinear c =
      scan-Keeps w writes r v tt (handle_range_aarch64 w) (IsConfig (IsLinear w))
        (λ config base size c' h small inside.
          Configures-Ends (handle_range_aarch64-Configures w config base size c' h small inside))
        s c
