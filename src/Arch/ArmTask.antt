-- ===== src/Arch/ArmTask.antt =====
-- The mappings of a task in src/arch/arm/task.rs, with the mappings of one page in src/arch/arm/mm.rs.
-- A local mapping table is its list of 1024 words.
pub mod Mapping
use propeller_kernel.Prelude.{
  ℕ, ◌+◌, ◌-◌, ◌*◌, ◌/◌, ◌^◌, Bool, false, Option, none, some, List, Run, ok, panic, unwrap, check,
  ltb, leb, ◌==◌, if◌then◌else◌, bit_and, bit_or,
}
use propeller_kernel.Prelude.Monad.{◌>>=◌, ◌>>◌, add, sub, load, store}
use propeller_kernel.Support.Bits.{shl}
use propeller_kernel.Support.Bits.Bitmap.{Bitmap, set_bit}
use propeller_kernel.Support.Bits.Bitmap
use propeller_kernel.Arch.Cpu.{max_cores}

-- What the functions take from the kernel's globals and from the running core.
pub record Globals : Type 0 where
  pub high_mem_base : ℕ
  pub kernel_virtual_base : ℕ
  pub thread_local_base : ℕ
  pub core_count : ℕ
  pub core_idx : ℕ

-- The fields of a context beside the saved registers.
pub record TaskContext : Type 0 where
  pub table_addr : ℕ
  pub map_count : ℕ
  pub pin_mask : Option Bitmap

abbrev pub page_shift : ℕ
page_shift = 12

abbrev pub section_shift : ℕ
section_shift = 21

abbrev pub cpu_mask_words : ℕ
cpu_mask_words = 1

abbrev pub max_local_mappings : ℕ
max_local_mappings = 512

abbrev pub recursive_map_area : ℕ
recursive_map_area = 0xffc00000

unfoldable pub default : TaskContext
default = record { table_addr = 0; map_count = 0; pin_mask = none }

unfoldable pub get_page_virtual_address_for_virtual_address : ℕ → Option ℕ
get_page_virtual_address_for_virtual_address virt_addr =
    if ltb virt_addr 0xc0000000
    then none
    else some
        (recursive_map_area + shl 32 ((virt_addr - 0xc0000000) / 2 ^ section_shift) page_shift)

-- The low and the high word of a page's descriptor in normal memory.
unfoldable pub make_page_descriptor : ℕ → ℕ → ℕ × ℕ
make_page_descriptor phys_addr mair_idx =
    (bit_or (bit_or (bit_or phys_addr (shl 32 mair_idx 2)) 0x400) 3, 0)

unfoldable pub make_descriptor_level3 : ℕ → Bool → ℕ × ℕ
make_descriptor_level3 phys_addr device =
    make_page_descriptor (bit_and phys_addr 0xfffff000) (if device then 1 else 0)

-- The write of an entry by `mmu_update_table_entry_local`.
unfoldable pub update_table_entry_local : List ℕ → ℕ → ℕ × ℕ → Run (List ℕ)
update_table_entry_local table idx (desc, desc_high) = do
  table' ← store table idx desc
  store table' (idx + 1) desc_high

unfoldable pub map_page_local : List ℕ → ℕ → ℕ → ℕ → Bool → Run (List ℕ × ℕ)
map_page_local table section_vaddr page_addr count device = do
  check (ltb count max_local_mappings)
  page_vaddr ← add 32 section_vaddr (shl 32 count page_shift)
  table' ← update_table_entry_local table (shl 32 count 1) (make_descriptor_level3 page_addr device)
  ok (table', page_vaddr)

unfoldable pub unmap_page_local : List ℕ → ℕ → ℕ → Run (List ℕ)
unmap_page_local table section_vaddr count = do
  check (ltb 0 count)
  last ← sub count 1
  entry ← load table (shl 32 last 1)
  if entry == 0 then ok table else do
    page_vaddr ← add 32 section_vaddr (shl 32 last page_shift)
    update_table_entry_local table (shl 32 last 1) (0, 0)

module _ (g : Globals) where
  unfoldable pub get_thread_local_virtual_base : Run ℕ
  get_thread_local_virtual_base = do
    check (ltb g.core_idx g.core_count)
    add 32 g.thread_local_base (shl 32 g.core_idx section_shift)

  -- The base of the core's local section, whose table can be edited.
  unfoldable pub local_base : Run ℕ
  local_base = do
    base ← get_thread_local_virtual_base
    table_vaddr ← unwrap (get_page_virtual_address_for_virtual_address base)
    ok base

  -- The mask after the task is pinned to the running core, if it is not pinned.
  unfoldable pub pin : Option Bitmap → Run (Option Bitmap)
  pin (some mask) = ok (some mask)
  pin none = do
    mask ← set_bit 5 (Bitmap.new 5 cpu_mask_words (max_cores 32)) g.core_idx
    ok (some mask)

  unfoldable pub map_page : TaskContext → List ℕ → ℕ → Run (TaskContext × List ℕ × ℕ)
  map_page context table page_addr =
      if ltb page_addr g.high_mem_base
      then (do
        count ← add 32 context.map_count 1
        addr ← add 32 g.kernel_virtual_base page_addr
        ok (record context { map_count = count }, table, addr))
      else do
        pin_mask ← pin context.pin_mask
        base ← local_base
        (table', page_vaddr) ← map_page_local table base page_addr context.map_count false
        count ← add 32 context.map_count 1
        ok (record context { map_count = count; pin_mask = pin_mask }, table', page_vaddr)

  unfoldable pub unmap_page : TaskContext → List ℕ → Run (TaskContext × List ℕ)
  unmap_page context table = if context.map_count == 0 then ok (context, table) else do
    base ← local_base
    table' ← unmap_page_local table base context.map_count
    count ← sub context.map_count 1
    ok (
      record context {
        map_count = count;
        pin_mask = if count == 0 then none else context.pin_mask;
      },
      table',
    )
