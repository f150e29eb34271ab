-- ===== src/Examples/Tasks.antt =====
-- A task of src/arch/arm/task.rs with one mapping, on the second of four cores.
use propeller_kernel.Prelude.{
  ℕ, ◌+◌, ◌≡◌, refl, none, some, List, [], ◌∷◌, ok, replicate, ◌==◌, if◌then◌else◌, arith,
}
use propeller_kernel.Prelude.Monad.{load}
use propeller_kernel.Arch.ArmTask.{
  Globals, TaskContext, get_page_virtual_address_for_virtual_address, get_thread_local_virtual_base,
  local_base, map_page, unmap_page,
}
use propeller_kernel.Arch.ArmTask.Mapping.{map_page-unmap_page}

abbrev four_cores : Globals
four_cores = record {
  high_mem_base = 0x38000000;
  kernel_virtual_base = 0xc0000000;
  thread_local_base = 0xfe000000;
  core_count = 4;
  core_idx = 1;
}

-- Pinned to the second core.
abbrev pinned_task : TaskContext
pinned_task = record {
  table_addr = 0x8000;
  map_count = 1;
  pin_mask = some (record { bitmap = 2 ∷ []; bits = 16 });
}

abbrev one_page : List ℕ
one_page = 0x38000403 ∷ replicate 1023 0

section_base : local_base four_cores ≡ ok 0xfe200000
unfolding local_base get_thread_local_virtual_base get_page_virtual_address_for_virtual_address
section_base = refl

map_page-unmap_page_example :
    (context' : TaskContext) × (table' : List ℕ) × (addr : ℕ) × (map_page four_cores pinned_task
        one_page 0x38001000
      ≡ ok (context', table', addr))
    × (context'.map_count ≡ 1 + 1)
    × (unmap_page four_cores context' table'
        ≡ ok (
          record pinned_task { pin_mask = if 1 == 0 then none else context'.pin_mask },
          one_page,
        ))
unfolding load
map_page-unmap_page_example =
    map_page-unmap_page four_cores pinned_task one_page 0x38001000 0xfe200000 (omega arith)
      section_base (omega arith) refl (omega arith) refl refl (λ low. absurd (omega arith))
