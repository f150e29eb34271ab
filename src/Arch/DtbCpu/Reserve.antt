-- ===== src/Arch/DtbCpu/Reserve.antt =====
-- The place that `scan_cpu_node` of src/arch/arm_common/dtb_cpu.rs means to keep for the primary core.
use propeller_kernel.Prelude.{
  ℕ, suc, ◌-◌, ◌^◌, ◌<◌, ◌≡◌, refl, true, false, List, [], ◌∷◌, ◌++◌, ok, ltb-false, ◌==◌, length,
  length-append, arith,
}
use propeller_kernel.Support.Dtb.Parse.{value}
use propeller_kernel.Arch.Cpu.{Core, max_cores, get_core_count}
use propeller_kernel.Arch.Cpu.Cores.{IsCores, arrange, add_core-arrange}
use propeller_kernel.Arch.DtbCpu.{DtbCoreScanner}
use propeller_kernel.Arch.DtbCpu.Scanner.{with_default, add_scanned}

module _ (w : ℕ) (hash : ℕ → ℕ) (small : (k : ℕ) → hash k < 2 ^ 32)
    (word : max_cores w < 2 ^ w) where
  -- With hashes of 32 bits and one slot left: a core that is not the primary one takes the slot, and the
  -- primary core, found after it, is then left out; there is no error.
  pub add_scanned-takes_last :
      (s : DtbCoreScanner) (core primary : Core) (xs : List Core)
      → IsCores w s.config xs
      → suc (length xs) ≡ max_cores w
      → (core.id == s.primary_id) ≡ false
      → (primary.id == s.primary_id) ≡ true
      → (s' : DtbCoreScanner) × (add_scanned w hash core s ≡ ok (s', value tt))
        × IsCores w s'.config (xs ++ (with_default s.def_enable_method core ∷ []))
        × (add_scanned w hash primary s' ≡ ok (s', value tt))
  unfolding add_scanned get_core_count arrange
  add_scanned-takes_last s core primary xs v one other same =
      let (c', run, v') =
        (add_core-arrange w hash small word s.config (with_default s.def_enable_method core) false
            v).0
          (omega (arith, one)) in
      (
        record s { config = c' },
        rw (other, ltb-false (max_cores w - 1) s.config.core_count (omega (arith, one, v.used)))
            (rw run refl),
        v',
        rw same (
            rw
              ((add_core-arrange w hash small word c' (with_default s.def_enable_method primary)
                  true v').1
                (omega (arith, one, length-append xs (with_default s.def_enable_method core ∷ []))))
              refl),
      )
