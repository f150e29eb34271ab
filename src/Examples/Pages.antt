-- ===== src/Examples/Pages.antt =====
-- Lists of the page allocator of src/mm/page_allocator.rs on a 32-bit machine with 4 KiB pages.
use propeller_kernel.Prelude.{
  true, ℕ, zero, suc, ◌+◌, ◌≡◌, refl, List, [], ◌∷◌, ◌++◌, ok, arith, replicate,
}
use propeller_kernel.Prelude.Monad.{◌>>=◌, load}
use propeller_kernel.Support.Bits.{xor_checksum}
use propeller_kernel.Mm.Machine.{Machine}
use propeller_kernel.Mm.PageAllocator.{
  Buddy, BlockNode, BlockLevel, write, new_node, update_checksum, verify_checksum, add_to_list,
  remove_from_list, get_flag_index_and_bit, make_levels, calc_metadata_size, calc_first_level,
  levels_loop, calc_next_level,
}
use propeller_kernel.Mm.PageAllocator.Nodes.{verify-update}
use propeller_kernel.Mm.PageAllocator.Ring.{IsRing}
use propeller_kernel.Mm.PageAllocator.Add.{IsRelisted, add_to_list-IsRelisted}
use propeller_kernel.Mm.PageAllocator.Remove.{
  remove_from_list-IsRelisted, remove_from_list-single, remove_from_list-loses,
}
use propeller_kernel.Mm.PageAllocator.Levels.{make_levels-calc_metadata_size}
use propeller_kernel.Support.Range.{Range}
use propeller_kernel.Mm.PageAllocator.Init.{new}
use propeller_kernel.Mm.PageAllocator.Termination.{new-Ends}
use propeller_kernel.Prelude.{◌≢◌, out_of_fuel}

abbrev arm32 : Machine
arm32 = record {
  word_bits = 32;
  word_bit_shift = 5;
  word_shift = 2;
  page_shift = 12;
  max_physical = 4294967295;
  word_bits_pow = refl;
  page_fits = omega arith;
}

-- Sixteen pages from `4096` on, with the levels and flags that `make_levels` lays out.
abbrev higher_levels : List BlockLevel
higher_levels = levels_from 4 1 ++ replicate 6 (record { head = 0; offset = 5 })
  where
    levels_from : ℕ → ℕ → List BlockLevel
    levels_from zero offset = []
    levels_from (suc left) offset =
        record { head = 0; offset = offset } ∷ levels_from left (offset + 1)

abbrev area_with : ℕ → (ℕ → BlockNode) → Buddy
area_with head memory = record {
  base = 4096;
  size = 65536;
  levels = record { head = head; offset = 0 } ∷ higher_levels;
  flags = replicate 5 0;
  alloc_mem = 0;
  free_mem = 65536;
  memory = memory;
}

abbrev blank : ℕ → BlockNode
blank a = record { next = 0; prev = 0; checksum = 0 }

abbrev two_pages : ℕ → BlockNode
two_pages = write (write blank 4096 (new_node arm32 12288 12288)) 12288 (new_node arm32 4096 4096)

abbrev one_page : ℕ → BlockNode
one_page = write blank 4096 (new_node arm32 4096 4096)

two-IsRing : IsRing arm32 two_pages 4096 (4096 ∷ 12288 ∷ [])
unfolding write new_node verify_checksum xor_checksum
two-IsRing = record {
  head_is = refl;
  links = (
    record { prev_is = refl; next_is = refl; verified = refl },
    (record { prev_is = refl; next_is = refl; verified = refl }, tt),
  );
  distinct = (refl, (refl, tt));
  pages = (omega arith, (omega arith, refl), (omega arith, (omega arith, refl), tt));
}

one-IsRing : IsRing arm32 one_page 4096 (4096 ∷ [])
unfolding write new_node verify_checksum xor_checksum
one-IsRing = record {
  head_is = refl;
  links = (record { prev_is = refl; next_is = refl; verified = refl }, tt);
  distinct = (refl, tt);
  pages = (omega arith, (omega arith, refl), tt);
}

abbrev single : Buddy
single = area_with 4096 one_page

abbrev listed : Buddy
listed = area_with 4096 two_pages

-- The levels are those that the allocator computes.
levels_of_area : make_levels arm32 65536 ≡ ok (record { head = 0; offset = 0 } ∷ higher_levels, 20)
unfolding make_levels calc_first_level levels_loop calc_next_level
levels_of_area = refl

flag_of_20480 : get_flag_index_and_bit arm32 listed 20480 0 ≡ ok (0, 2)
unfolding get_flag_index_and_bit load
flag_of_20480 = refl

flag_of_12288 : get_flag_index_and_bit arm32 listed 12288 0 ≡ ok (0, 1)
unfolding get_flag_index_and_bit load
flag_of_12288 = refl

flag_of_4096 : get_flag_index_and_bit arm32 listed 4096 0 ≡ ok (0, 0)
unfolding get_flag_index_and_bit load
flag_of_4096 = refl

single-flag : get_flag_index_and_bit arm32 single 4096 0 ≡ ok (0, 0)
unfolding get_flag_index_and_bit load
single-flag = refl

listed-word : load listed.flags 0 ≡ ok 0
unfolding load
listed-word = refl

listed-level : load listed.levels 0 ≡ ok (record { head = 4096; offset = 0 })
unfolding load
listed-level = refl

verify-update_example :
    (verify_checksum arm32 (update_checksum arm32 (blank 0)) ≡ true)
    × (verify_checksum arm32 (new_node arm32 4096 8192) ≡ true)
verify-update_example = verify-update arm32 (blank 0) 4096 8192

add_to_list-IsRelisted_example :
    (s' : Buddy) × (add_to_list arm32 listed 0 20480 ≡ ok s')
    × IsRelisted arm32 listed s' 0
        (record { head = 4096; offset = 0 })
        (0, 2)
        (20480 ∷ 4096 ∷ 12288 ∷ [])
        (4096 ∷ 12288 ∷ 20480 ∷ [])
add_to_list-IsRelisted_example =
    add_to_list-IsRelisted arm32 listed 0 20480 flag_of_20480 listed-word listed-level (omega arith)
      (omega arith, refl) (4096 ∷ 12288 ∷ []) two-IsRing refl

remove_from_list-IsRelisted_example :
    (s' : Buddy) × (remove_from_list arm32 listed 0 12288 ≡ ok s')
    × IsRelisted arm32 listed s' 0
        (record { head = 4096; offset = 0 })
        (0, 1)
        (4096 ∷ 12288 ∷ [])
        (4096 ∷ [])
remove_from_list-IsRelisted_example =
    remove_from_list-IsRelisted arm32 listed 0 12288 flag_of_12288 listed-word listed-level 4096 []
      [] two-IsRing

remove_from_list-single_example :
    (s' : Buddy) × (remove_from_list arm32 single 0 4096 ≡ ok s')
    × IsRelisted arm32 single s' 0 (record { head = 4096; offset = 0 }) (0, 0) [] []
remove_from_list-single_example =
    remove_from_list-single arm32 single 0 4096 single-flag listed-word listed-level one-IsRing

remove_from_list-loses_example :
    (s' : Buddy) × (remove_from_list arm32 listed 0 4096 ≡ ok s')
    × (load s'.levels 0 ≡ ok (record { head = 0; offset = 0 }))
remove_from_list-loses_example =
    remove_from_list-loses arm32 listed 0 4096 flag_of_4096 listed-word listed-level 12288 []
      two-IsRing

make_levels-calc_metadata_size_example :
    (make_levels arm32 65536 >>= λ r. ok (r.1)) ≡ calc_metadata_size arm32 65536
make_levels-calc_metadata_size_example = make_levels-calc_metadata_size arm32 65536

abbrev available : List (Range ℕ)
available = record { tag = 0; base = 4096; size = 65536 } ∷ []

new-Ends_example : new arm32 4096 65536 1 available blank ≢ out_of_fuel
new-Ends_example = new-Ends arm32 (omega arith) 4096 65536 1 available blank
