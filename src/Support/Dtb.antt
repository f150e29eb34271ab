-- ===== src/Support/Dtb.antt =====
-- src/support/dtb.rs: the reads of a flattened device tree. A cursor is the location that it holds; an
-- operation that moves it returns the new location. `w` is the number of bits of `usize`.
pub mod Parse
pub mod Walk
pub mod Names
pub mod Scan
pub mod Cursor
pub mod Safety
pub mod Ending
pub mod Property
pub mod Invariant
pub mod New
pub mod RoundTrip
use propeller_kernel.Prelude.{
  ℕ, zero, suc, ◌+◌, ◌-◌, ◌*◌, ◌%◌, ◌^◌, Bool, true, false, ◌||◌, Option, none, some, List, [], ◌∷◌,
  Run, ok, panic, out_of_fuel, ltb, leb, ◌==◌, if◌then◌else◌, length, take, drop, min, bit_or,
}
use propeller_kernel.Prelude.Monad.{◌>>=◌, add, sub, mul, load}
use propeller_kernel.Support.Bits.{align_up, shl}

abbrev pub fdt_begin_node : ℕ
fdt_begin_node = 0x1

abbrev pub fdt_end_node : ℕ
fdt_end_node = 0x2

abbrev pub fdt_prop : ℕ
fdt_prop = 0x3

abbrev pub fdt_noop : ℕ
fdt_noop = 0x4

abbrev pub fdt_end : ℕ
fdt_end = 0x9

abbrev pub fdt_magic : ℕ
fdt_magic = 0xd00dfeed

abbrev pub fdt_max_size : ℕ
fdt_max_size = 64 * 1024 * 1024

abbrev pub fdt_word_bits : ℕ
fdt_word_bits = 32

abbrev pub fdt_word_bytes : ℕ
fdt_word_bytes = 4

abbrev pub fdt_header_size : ℕ
fdt_header_size = 32

pub data DtbError : Type 0 where
  not_a_dtb : DtbError
  invalid_dtb : DtbError
  unknown_property : DtbError
  unknown_value : DtbError
  unsupported_value : DtbError

-- The bytes of the tree, and the header.
pub record DtbReader : Type 0 where
  pub dtb : List ℕ
  pub dt_struct_offset : ℕ
  pub dt_strings_offset : ℕ
  pub mem_rsv_map_offset : ℕ
  pub version : ℕ
  pub last_comp_version : ℕ
  pub boot_cpuid_phys : ℕ
  pub dt_strings_size : ℕ
  pub dt_struct_size : ℕ

pub record DtbPropertyHeader : Type 0 where
  pub size : ℕ
  pub name_offset : ℕ
  pub name : List ℕ

-- `&bytes[from..to]`
unfoldable pub slice : List ℕ → ℕ → ℕ → Run (List ℕ)
slice bytes from to =
    if leb from to
    then if leb to (length bytes) then ok (take (to - from) (drop from bytes)) else panic
    else panic

-- `u32::from_be_bytes`
unfoldable pub from_be_bytes : ℕ → List ℕ → ℕ
from_be_bytes acc [] = acc
from_be_bytes acc (b ∷ bytes) = from_be_bytes (acc * 256 + b) bytes

module _ (w : ℕ) (r : DtbReader) where
  unfoldable pub get_u32_unchecked : ℕ → Run (ℕ × ℕ)
  get_u32_unchecked loc = do
    end_loc ← add w loc fdt_word_bytes
    bytes ← slice r.dtb loc end_loc
    ok (from_be_bytes 0 bytes, end_loc)

  unfoldable pub get_u32 : ℕ → Run (Option (ℕ × ℕ))
  get_u32 loc = do
    last ← sub (length r.dtb) fdt_word_bytes
    let read = get_u32_unchecked loc
    if ltb last loc then ok none else do (value, end_loc) ← read; ok (some (value, end_loc))

  unfoldable pub get_u64 : ℕ → Run (Option (ℕ × ℕ))
  get_u64 loc = do
    last ← sub (length r.dtb) (fdt_word_bytes * 2)
    if ltb last loc then ok none else do
      (high, loc') ← get_u32_unchecked loc
      (low, loc'') ← get_u32_unchecked loc'
      ok (some (bit_or (shl 64 high fdt_word_bits) low, loc''))

  unfoldable pub skip_and_align : ℕ → ℕ → Run ℕ
  skip_and_align skip_bytes loc = do
    let len = length r.dtb
    room ← sub len loc
    let offset = min room skip_bytes
    target ← add w loc offset
    last ← sub len fdt_word_bytes
    if ltb last target then ok len else align_up w target fdt_word_bytes

  -- The search for the terminator with `left` bytes to go.
  unfoldable pub find_null : ℕ → ℕ → Run ℕ
  find_null zero end = ok end
  find_null (suc left) end = do
    byte ← load r.dtb end
    let rest = find_null left (end + 1)
    if byte == 0 then ok end else rest

  unfoldable pub get_null_terminated_u8_slice : ℕ → Run (Option (List ℕ × ℕ))
  get_null_terminated_u8_slice loc = do
    let len = length r.dtb
    end ← find_null (len - loc) loc
    if end == len then ok none else do name ← slice r.dtb loc end; ok (some (name, end))

  unfoldable pub get_slice_from_string_table : ℕ → Run (Option (List ℕ))
  get_slice_from_string_table str_offset = do
    loc ← add w r.dt_strings_offset str_offset
    found ← get_null_terminated_u8_slice loc
    elim found [ none ↦ ok none | some (name, end) ↦ ok (some name) ]

  -- A value of so many cells in a 64-bit number, each shifted in by `shift` bits.
  unfoldable pub read_cells : ℕ → ℕ → ℕ → ℕ → Run (ℕ × ℕ)
  read_cells shift zero value loc = ok (value, loc)
  read_cells shift (suc cells) value loc = do
    (cell, loc') ← get_u32_unchecked loc
    read_cells shift cells (bit_or (shl 64 value shift) cell) loc'

  unfoldable pub get_reg_pair_size : ℕ → ℕ → Run ℕ
  get_reg_pair_size addr_cells size_cells = do
    cells ← add w addr_cells size_cells
    mul w fdt_word_bytes cells

  unfoldable pub get_reg_pair : ℕ → ℕ → ℕ → Run (Option ((ℕ × ℕ) × ℕ))
  get_reg_pair addr_cells size_cells loc = if addr_cells == 0 then ok none else do
    pair_size ← get_reg_pair_size addr_cells size_cells
    last ← sub (length r.dtb) pair_size
    if ltb last loc then ok none else do
      (addr, loc') ← read_cells fdt_word_bits addr_cells 0 loc
      (size, loc'') ← read_cells fdt_word_bits size_cells 0 loc'
      ok (some ((addr, size), loc''))

  unfoldable pub get_range_size : ℕ → ℕ → ℕ → Run ℕ
  get_range_size child_addr_cells parent_addr_cells size_cells = do
    addr_cells ← add w child_addr_cells parent_addr_cells
    cells ← add w addr_cells size_cells
    mul w fdt_word_bytes cells

  -- The cells are shifted by the bytes of a word.
  unfoldable pub get_range : ℕ → ℕ → ℕ → ℕ → Run (Option ((ℕ × ℕ × ℕ) × ℕ))
  get_range child_addr_cells parent_addr_cells size_cells loc =
      if child_addr_cells == 0 || (parent_addr_cells == 0 || size_cells == 0) then ok none else do
        count ← get_range_size child_addr_cells parent_addr_cells size_cells
        last ← sub (length r.dtb) count
        if ltb last loc then ok none else do
          (child_addr, loc1) ← read_cells fdt_word_bytes child_addr_cells 0 loc
          (parent_addr, loc2) ← read_cells fdt_word_bytes parent_addr_cells 0 loc1
          (size, loc3) ← read_cells fdt_word_bytes size_cells 0 loc2
          ok (some ((child_addr, parent_addr, size), loc3))

  -- The fields of a property behind its marker.
  unfoldable pub property_header : ℕ → Run (Option DtbPropertyHeader × ℕ)
  property_header loc = do
    first ← get_u32 loc
    elim first [
      | none ↦ ok (none, loc)
      | some (size, loc1) ↦ do
        second ← get_u32 loc1
        elim second [
          | none ↦ ok (none, loc1)
          | some (name_offset, loc2) ↦ do
            found ← get_slice_from_string_table name_offset
            elim found [
              | none ↦ ok (none, loc2)
              | some name ↦
                  ok (some (record { size = size; name_offset = name_offset; name = name }), loc2)
            ]
        ]
    ]

  -- The loop of `get_next_property`, with the location at which the cursor is left.
  unfoldable pub next_property_loop : ℕ → ℕ → Run (Option DtbPropertyHeader × ℕ)
  next_property_loop zero loc = out_of_fuel
  next_property_loop (suc fuel) loc = do
    read ← get_u32 loc
    elim read [
      | none ↦ ok (none, loc)
      | some (marker, loc1) ↦
          let again = next_property_loop fuel loc1 in
          if marker == fdt_noop
          then again
          else if marker == fdt_prop
          then property_header loc1
          else do back ← sub loc1 fdt_word_bytes; ok (none, back)
    ]

  -- Each turn of the loop passes a word.
  unfoldable pub get_next_property : ℕ → Run (Option DtbPropertyHeader × ℕ)
  get_next_property loc = next_property_loop (length r.dtb + 1) loc
