-- ===== src/Support/Dtb/Walk.antt =====
-- src/support/dtb.rs: the header, and the walks over nodes and properties.
use propeller_kernel.Prelude.{
  ℕ, zero, suc, ◌+◌, ◌-◌, ◌*◌, Bool, true, false, ◌&&◌, ◌||◌, Option, List, [], ◌∷◌, Run, ok,
  out_of_fuel, ltb, ◌==◌, if◌then◌else◌, length,
}
use propeller_kernel.Prelude.Monad.{add, sub}
use propeller_kernel.Support.Dtb.{
  fdt_begin_node, fdt_end_node, fdt_prop, fdt_noop, fdt_magic, fdt_max_size, fdt_word_bytes,
  fdt_header_size, not_a_dtb, invalid_dtb, DtbReader, from_be_bytes, get_u32, skip_and_align,
  get_null_terminated_u8_slice,
}
use propeller_kernel.Support.Dtb.Parse.{
  Result, value, error, Parse, return, fail, ◌>>=◌, ok_or, run, option,
}

-- So many bytes of the memory from an address on.
unfoldable pub bytes_at : (ℕ → ℕ) → ℕ → ℕ → List ℕ
bytes_at memory addr zero = []
bytes_at memory addr (suc n) = memory addr ∷ bytes_at memory (addr + 1) n

-- `u32::from_be(*dtb.add(i))`
unfoldable pub word_at : (ℕ → ℕ) → ℕ → ℕ → ℕ
word_at memory blob i = from_be_bytes 0 (bytes_at memory (blob + i * fdt_word_bytes) fdt_word_bytes)

unfoldable pub check_dtb : (ℕ → ℕ) → ℕ → Result ℕ
check_dtb memory blob =
    if blob == 0
    then error not_a_dtb
    else if word_at memory blob 0 == fdt_magic
    then (let total_size = word_at memory blob 1 in
        if ltb total_size fdt_header_size || ltb fdt_max_size total_size
        then error invalid_dtb
        else value total_size)
    else error not_a_dtb

-- Two names are equal.
unfoldable pub same_bytes : List ℕ → List ℕ → Bool
same_bytes [] [] = true
same_bytes [] (b ∷ bs) = false
same_bytes (a ∷ as') [] = false
same_bytes (a ∷ as') (b ∷ bs) = a == b && same_bytes as' bs

module _ (w : ℕ) where
  unfoldable pub new : (ℕ → ℕ) → ℕ → Parse DtbReader
  new memory blob = do
    total_size ← ok (check_dtb memory blob)
    let empty : DtbReader = record {
      dtb = bytes_at memory blob total_size;
      dt_struct_offset = 0;
      dt_strings_offset = 0;
      mem_rsv_map_offset = 0;
      version = 0;
      last_comp_version = 0;
      boot_cpuid_phys = 0;
      dt_strings_size = 0;
      dt_struct_size = 0;
    }
    (struct_offset, c1) ← ok_or (get_u32 w empty (fdt_word_bytes * 2)) invalid_dtb
    (strings_offset, c2) ← ok_or (get_u32 w empty c1) invalid_dtb
    (rsv_offset, c3) ← ok_or (get_u32 w empty c2) invalid_dtb
    (version, c4) ← ok_or (get_u32 w empty c3) invalid_dtb
    (last_version, c5) ← ok_or (get_u32 w empty c4) invalid_dtb
    (boot_cpuid, c6) ← ok_or (get_u32 w empty c5) invalid_dtb
    (strings_size, c7) ← ok_or (get_u32 w empty c6) invalid_dtb
    (struct_size, c8) ← ok_or (get_u32 w empty c7) invalid_dtb
    return (record {
      dtb = empty.dtb;
      dt_struct_offset = struct_offset;
      dt_strings_offset = strings_offset;
      mem_rsv_map_offset = rsv_offset;
      version = version;
      last_comp_version = last_version;
      boot_cpuid_phys = boot_cpuid;
      dt_strings_size = strings_size;
      dt_struct_size = struct_size;
    })

  module _ (r : DtbReader) where
    -- The name of a node, and the location behind its padding.
    unfoldable pub node_name : ℕ → Parse (List ℕ × ℕ)
    node_name loc = do
      (name, end) ← ok_or (get_null_terminated_u8_slice w r loc) invalid_dtb
      loc' ← run (skip_and_align w r 1 end)
      return (name, loc')

    unfoldable pub skip_properties_loop : ℕ → ℕ → Parse ℕ
    skip_properties_loop zero loc = out_of_fuel
    skip_properties_loop (suc fuel) loc = do
      (marker, loc1) ← ok_or (get_u32 w r loc) invalid_dtb
      let again = skip_properties_loop fuel loc1
      let skip = (do
        (prop_size, loc2) ← ok_or (get_u32 w r loc1) invalid_dtb
        skip_bytes ← run (add w prop_size fdt_word_bytes)
        loc3 ← run (skip_and_align w r skip_bytes loc2)
        skip_properties_loop fuel loc3)
      if marker == fdt_prop
          then skip
          else if marker == fdt_begin_node || marker == fdt_end_node
          then run (sub loc1 fdt_word_bytes)
          else if marker == fdt_noop
          then again
          else fail invalid_dtb

    -- Each turn of a loop passes a word, in this and the other walks.
    unfoldable pub skip_node_properties : ℕ → Parse ℕ
    skip_node_properties loc = skip_properties_loop (length r.dtb + 1) loc

    unfoldable pub root_node : Parse ℕ
    root_node = do
      (marker, loc) ← ok_or (get_u32 w r r.dt_struct_offset) invalid_dtb
      if marker == fdt_begin_node
          then (do (name, loc') ← node_name loc; return loc')
          else fail invalid_dtb

    unfoldable pub get_root_node : Run (Option ℕ)
    get_root_node = option root_node

    -- The inner loop of `find_child_node`: the next node that begins, and its depth. It fails where
    -- the node ends.
    unfoldable pub next_child_loop : ℕ → ℕ → ℕ → Parse (ℕ × ℕ)
    next_child_loop zero loc depth = out_of_fuel
    next_child_loop (suc fuel) loc depth = do
      (marker, loc1) ← ok_or (get_u32 w r loc) invalid_dtb
      let up = next_child_loop fuel loc1 (depth - 1)
      let again = next_child_loop fuel loc1 depth
      if marker == fdt_begin_node
          then (do depth' ← run (add w depth 1); return (loc1, depth'))
          else if marker == fdt_end_node
          then if depth == 0 then fail invalid_dtb else up
          else if marker == fdt_noop
          then again
          else fail invalid_dtb

    unfoldable pub find_child_loop : ℕ → ℕ → ℕ → List ℕ → Parse ℕ
    find_child_loop zero loc depth child_name = out_of_fuel
    find_child_loop (suc fuel) loc depth child_name = do
      loc1 ← skip_node_properties loc
      (loc2, depth') ← next_child_loop (length r.dtb + 1) loc1 depth
      (name, loc3) ← node_name loc2
      let rest = find_child_loop fuel loc3 depth' child_name
      if depth' == 1 && same_bytes child_name name then return loc3 else rest

    -- The source gives `None` where the loop fails.
    unfoldable pub find_child_node : ℕ → List ℕ → Run (Option ℕ)
    find_child_node loc child_name = option (find_child_loop (length r.dtb + 1) loc 0 child_name)
