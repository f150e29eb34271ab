-- ===== src/Arch/DtbCpu/Registers.antt =====
-- The loop of `scan_cpu_node` of src/arch/arm_common/dtb_cpu.rs at a `reg` property.
use propeller_kernel.Prelude.{
  ℕ, zero, suc, ◌+◌, ◌*◌, ◌/◌, ◌%◌, ◌^◌, ◌<◌, ◌≡◌, ◌≢◌, ◌∙◌, refl, ap, false, none, some, List, [],
  ◌∷◌, ◌++◌, ok, le→leb, lt→ltb, ◌==◌, length, length-append, arith,
}
use propeller_kernel.Prelude.Monad.{div}
use propeller_kernel.Support.HashMap.{find}
use propeller_kernel.Support.Hash.{hash_key}
use propeller_kernel.Support.Dtb.{
  DtbReader, DtbPropertyHeader, get_u32, get_slice_from_string_table, get_reg_pair_size,
  property_header, next_property_loop, get_next_property, fdt_noop, fdt_prop,
}
use propeller_kernel.Support.Dtb.Parse.{return}
use propeller_kernel.Support.Dtb.Names.{bytes_eq}
use propeller_kernel.Support.Dtb.RoundTrip.{
  AllWords, encode_cells, cells_value, length-encode_cells, encode_cells-split,
  get_u32-encode_cells, get_reg_pair-encode_cells,
}
use propeller_kernel.Arch.Cpu.{Core}
use propeller_kernel.Arch.DtbCpu.{dtb_prop_reg, StringMap, read_thread_id, cpu_property, cpu_loop}

module _ (w : ℕ) (r : DtbReader) where
  -- A word that marks neither a property nor a gap ends the properties.
  get_next_property-other :
      (loc marker : ℕ)
      → get_u32 w r loc ≡ ok (some (marker, loc + 4))
      → (marker == fdt_noop) ≡ false
      → (marker == fdt_prop) ≡ false
      → get_next_property w r loc ≡ ok (none, loc)
  unfolding get_next_property next_property_loop
  get_next_property-other loc marker read no_gap no_property =
      at_fuel (length r.dtb + 1) (omega arith)
    where
      at_fuel : (fuel : ℕ) → ¬ (fuel ≡ 0) → next_property_loop w r fuel loc ≡ ok (none, loc)
      at_fuel zero h = absurd (h refl)
      at_fuel (suc fuel) h = rw read (
          rw (no_gap, no_property, le→leb 4 (loc + 4) (omega arith))
            (ap (λ n. ok (none, n)) (omega arith)))

distinct : (a b : ℕ) → a ≢ b → (a == b) ≡ false
distinct a b h = ground (arith, h)

div-eq : (a b : ℕ) → 0 < b → div a b ≡ ok (a / b)
div-eq a zero h = absurd (omega arith)
div-eq a (suc b) h = refl

module _ (w : ℕ) (r : DtbReader) (fits : length r.dtb < 2 ^ w) (size name_offset cell : ℕ)
    (cells pre post : List ℕ)
    (bytes : r.dtb ≡ pre ++ (encode_cells (fdt_prop ∷ size ∷ name_offset ∷ cell ∷ cells) ++ post))
    (words : AllWords (size ∷ name_offset ∷ cell ∷ cells)) where
  -- The value of the property, behind its header.
  value_bytes :
      r.dtb
      ≡ (pre ++ encode_cells (fdt_prop ∷ size ∷ name_offset ∷ []))
        ++ (encode_cells (cell ∷ cells) ++ post)
  value_bytes =
      bytes ∙ encode_cells-split pre (fdt_prop ∷ size ∷ name_offset ∷ []) (cell ∷ cells) post

  behind_header :
      length (pre ++ encode_cells (fdt_prop ∷ size ∷ name_offset ∷ [])) ≡ length pre + 12
  behind_header =
      length-append pre (encode_cells (fdt_prop ∷ size ∷ name_offset ∷ []))
      ∙ omega (arith, length-encode_cells (fdt_prop ∷ size ∷ name_offset ∷ []))

  get_next_property-encode_cells :
      (name : List ℕ)
      → get_slice_from_string_table w r name_offset ≡ ok (some name)
      → get_next_property w r (length pre)
        ≡ ok
            (some (record { size = size; name_offset = name_offset; name = name }), length pre + 12)
  unfolding get_next_property next_property_loop property_header
  get_next_property-encode_cells name named = at_fuel (length r.dtb + 1) (omega arith)
    where
      marker : get_u32 w r (length pre) ≡ ok (some (fdt_prop, length pre + 4))
      marker =
          get_u32-encode_cells w r fits [] fdt_prop (size ∷ name_offset ∷ cell ∷ cells) pre post
            (length pre) (omega arith) bytes (omega arith)

      size_word : get_u32 w r (length pre + 4) ≡ ok (some (size, length pre + 4 + 4))
      size_word =
          get_u32-encode_cells w r fits (fdt_prop ∷ []) size (name_offset ∷ cell ∷ cells) pre post
            (length pre + 4) (words.0) bytes (omega arith)

      name_word : get_u32 w r (length pre + 4 + 4) ≡ ok (some (name_offset, length pre + 4 + 4 + 4))
      name_word =
          get_u32-encode_cells w r fits (fdt_prop ∷ size ∷ []) name_offset (cell ∷ cells) pre post
            (length pre + 4 + 4) (words.1.0) bytes (omega arith)

      header : DtbPropertyHeader
      header = record { size = size; name_offset = name_offset; name = name }

      at_fuel :
          (fuel : ℕ)
          → ¬ (fuel ≡ 0)
          → next_property_loop w r fuel (length pre) ≡ ok (some header, length pre + 12)
      at_fuel zero h = absurd (h refl)
      at_fuel (suc fuel) h =
          rw (marker, size_word, name_word) (rw named (ap (λ n. ok (some header, n)) (omega arith)))

  read_thread_id-encode_cells :
      read_thread_id w r size (suc (length cells)) (length pre + 12)
      ≡ return (cells_value 0 (cell ∷ cells))
  unfolding read_thread_id get_reg_pair_size encode_cells
  read_thread_id-encode_cells =
      rw
        (
          lt→ltb (suc (length cells) + 0) (2 ^ w) (omega (arith, room)),
          lt→ltb (4 * (suc (length cells) + 0)) (2 ^ w) (omega (arith, room)),
          div-eq size (4 * (suc (length cells) + 0)) (omega arith),
          ← behind_header,
          get_reg_pair-encode_cells w r fits (cell ∷ cells) []
              (pre ++ encode_cells (fdt_prop ∷ size ∷ name_offset ∷ [])) post (omega arith)
              (words.1.1) tt value_bytes,
        )
        refl
    where
      room : 4 * suc (length cells) < 2 ^ w
      room = omega (
        arith,
        fits,
        ap (λ t. length t) value_bytes,
        length-append (pre ++ encode_cells (fdt_prop ∷ size ∷ name_offset ∷ []))
            (encode_cells (cell ∷ cells) ++ post),
        length-append (encode_cells (cell ∷ cells)) post,
        length-encode_cells (cell ∷ cells),
      )

  -- Let a tree that is shorter than the address space hold, at the location of the cursor, the header
  -- of a property, whose name the map of the strings takes for `reg`, and behind it the cells of an
  -- identifier, of which the first is neither 3 nor 4; and let a core's identifier have that many
  -- cells. Then the loop over the properties of the core, with two turns or more, sets the identifier
  -- and ends, without an error, whatever stands behind the cells: no property behind `reg` is read.
  pub cpu_loop-reg :
      (writes : List ℕ → List (List ℕ)) (string_map : StringMap) (fuel : ℕ) (core : Core)
      (name : List ℕ)
      → get_slice_from_string_table w r name_offset ≡ ok (some name)
      → find (hash_key writes) string_map name ≡ ok (some dtb_prop_reg)
      → cell ≢ fdt_prop
      → cell ≢ fdt_noop
      → cpu_loop w r writes string_map (suc (length cells)) (suc (suc fuel)) core (length pre)
        ≡ return (record core { id = cells_value 0 (cell ∷ cells) % 2 ^ w })
  unfolding cpu_loop cpu_property
  cpu_loop-reg writes string_map fuel core name named tag no_property no_gap =
      rw (get_next_property-encode_cells name named, tag, read_thread_id-encode_cells)
        (rw
          (get_next_property-other w r (length pre + 12) cell first_cell
            (distinct cell fdt_noop no_gap) (distinct cell fdt_prop no_property))
          refl)
    where
      first_cell : get_u32 w r (length pre + 12) ≡ ok (some (cell, length pre + 12 + 4))
      first_cell =
          get_u32-encode_cells w r fits (fdt_prop ∷ size ∷ name_offset ∷ []) cell cells pre post
            (length pre + 12) (words.1.1.0) bytes (omega arith)
