-- ===== src/Arch/DtbCpu/Reads.antt =====
-- The reads of src/arch/arm_common/dtb_cpu.rs end inside the tree.
use propeller_kernel.Prelude.{
  ℕ, zero, suc, ◌+◌, ◌^◌, ◌≤◌, ◌<◌, refl, inl, inr, Option, none, some, List, ltb, ◌==◌, length,
  arith,
}
use propeller_kernel.Support.Hash.{hash_key}
use propeller_kernel.Support.Dtb.{DtbReader, invalid_dtb, unknown_value, unsupported_value, get_u64}
use propeller_kernel.Support.Dtb.Parse.{ok_or}
use propeller_kernel.Support.Dtb.Names.{bytes_eq}
use propeller_kernel.Support.Dtb.Cursor.{IsReader, get_u64_cases}
use propeller_kernel.Support.Dtb.Safety.{
  Safe, returns, fails, Safe-bind, Safe-if, Safe-eq, Safe-weaken, After, word-Safe, skip-Safe,
  name-Safe,
}
use propeller_kernel.Support.Dtb.Ending.{
  Ends-Safe, ok_or-Safe, find-Ends, get_reg_pair-Ends, get_reg_pair_size-Ends, div-Ends,
}
use propeller_kernel.Support.Dtb.Property.{found-Safe, get_next_property-Safe}
use propeller_kernel.Arch.Cpu.{Core}
use propeller_kernel.Arch.DtbCpu.{
  DtbStringTag, dtb_prop_address_cells, dtb_prop_size_cells, dtb_prop_compatible,
  dtb_prop_enable_method, dtb_prop_cpu_release_addr, dtb_prop_reg, dtb_value_spin_table,
  dtb_value_bcm2836, StringMap, method_of, read_compatible, read_cpu_release_addr, read_thread_id,
  read_enable_method, cpu_property, cpu_loop,
}

module _ (w : ℕ) (r : DtbReader) (v : IsReader w r) {M : Type 0} (m : M) where
  long-Safe : (loc : ℕ) → Safe M (λ p. After r loc (p.1)) (ok_or (get_u64 w r loc) invalid_dtb)
  long-Safe loc = elim (get_u64_cases w r v loc) [
    | inl past ↦ Safe-eq (rw past refl) (fails {e = invalid_dtb})
    | inr (number, read, room) ↦
        Safe-eq (rw read refl) (returns {a = (number, loc + 8)} (omega arith, room))
  ]

  read_compatible-Safe :
      (core_type : List ℕ) (loc : ℕ)
      → loc ≤ length r.dtb
      → Safe M (λ p. After r loc (p.1)) (read_compatible w r core_type loc)
  unfolding read_compatible
  read_compatible-Safe core_type loc h =
      Safe-bind (name-Safe w r v loc h) (λ (name, end) (above, below).
        Safe-bind (skip-Safe w r v 1 end below)
          (λ loc' (above', below'). returns (omega arith, below')))

  read_cpu_release_addr-Safe :
      (size loc : ℕ) → Safe M (λ p. After r loc (p.1)) (read_cpu_release_addr w r size loc)
  unfolding read_cpu_release_addr
  read_cpu_release_addr-Safe size loc =
      Safe-if (size == 4)
        (Safe-weaken (word-Safe w r v loc) (λ p (moved, inside, small). (omega arith, inside)))
        (Safe-if (size == 8)
          (Safe-bind (long-Safe loc) (λ (addr, loc') a.
            Safe-if (ltb addr (2 ^ w)) (returns {a = (addr, loc')} a) (fails {e = invalid_dtb})))
          (fails {e = unsupported_value}))

  read_thread_id-Safe :
      (size addr_cells loc : ℕ) → Safe M (λ id. Unit {0}) (read_thread_id w r size addr_cells loc)
  unfolding read_thread_id
  read_thread_id-Safe size addr_cells loc =
      Safe-bind (Ends-Safe _ m (get_reg_pair_size-Ends w r addr_cells 0)) (λ pair_size u.
        Safe-bind (Ends-Safe _ m (div-Ends size pair_size)) (λ count u'.
          Safe-bind (ok_or-Safe invalid_dtb m (get_reg_pair-Ends w r addr_cells 0 loc))
            (λ pair u''. returns tt)))

  method_of-Safe : (tag : DtbStringTag) → Safe M (λ method. Unit {0}) (method_of tag)
  unfolding method_of
  method_of-Safe dtb_value_spin_table = returns tt
  method_of-Safe dtb_value_bcm2836 = returns tt
  method_of-Safe dtb_prop_address_cells = fails
  method_of-Safe dtb_prop_size_cells = fails
  method_of-Safe dtb_prop_compatible = fails
  method_of-Safe dtb_prop_enable_method = fails
  method_of-Safe dtb_prop_cpu_release_addr = fails
  method_of-Safe dtb_prop_reg = fails

  module _ (writes : List ℕ → List (List ℕ)) (map : StringMap) where
    pub read_enable_method-Safe :
        (loc : ℕ)
        → loc ≤ length r.dtb
        → Safe M (λ p. After r loc (p.1)) (read_enable_method w r writes map loc)
    unfolding read_enable_method
    read_enable_method-Safe loc h = Safe-bind (name-Safe w r v loc h) (λ (name, end) (above, below).
        Safe-bind (skip-Safe w r v 1 end below) (λ loc' (above', below').
          Safe-bind (ok_or-Safe unknown_value m (find-Ends (hash_key writes) map name))
            (λ tag u. Safe-bind (method_of-Safe tag) (λ method u'. returns (omega arith, below')))))

    cpu_property-Safe :
        (addr_cells : ℕ) (core : Core) (tag : Option DtbStringTag) (size loc : ℕ)
        → loc ≤ length r.dtb
        → Safe M (λ p. After r loc (p.1)) (cpu_property w r writes map addr_cells core tag size loc)
    unfolding cpu_property
    cpu_property-Safe addr_cells core (some dtb_prop_compatible) size loc h =
        Safe-bind (read_compatible-Safe core.core_type loc h) (λ p a. returns a)
    cpu_property-Safe addr_cells core (some dtb_prop_enable_method) size loc h =
        Safe-bind (read_enable_method-Safe loc h) (λ p a. returns a)
    cpu_property-Safe addr_cells core (some dtb_prop_cpu_release_addr) size loc h =
        Safe-bind (read_cpu_release_addr-Safe size loc) (λ p a. returns a)
    cpu_property-Safe addr_cells core (some dtb_prop_reg) size loc h =
        Safe-bind (read_thread_id-Safe size addr_cells loc) (λ id u. returns (omega arith, h))
    cpu_property-Safe addr_cells core (some dtb_prop_address_cells) size loc h =
        Safe-bind (skip-Safe w r v size loc h) (λ l a. returns a)
    cpu_property-Safe addr_cells core (some dtb_prop_size_cells) size loc h =
        Safe-bind (skip-Safe w r v size loc h) (λ l a. returns a)
    cpu_property-Safe addr_cells core (some dtb_value_spin_table) size loc h =
        Safe-bind (skip-Safe w r v size loc h) (λ l a. returns a)
    cpu_property-Safe addr_cells core (some dtb_value_bcm2836) size loc h =
        Safe-bind (skip-Safe w r v size loc h) (λ l a. returns a)
    cpu_property-Safe addr_cells core none size loc h =
        Safe-bind (skip-Safe w r v size loc h) (λ l a. returns a)

    pub cpu_loop-Safe :
        (addr_cells fuel : ℕ) (core : Core) (loc : ℕ)
        → loc ≤ length r.dtb
        → length r.dtb < loc + fuel
        → Safe M (λ core'. Unit {0}) (cpu_loop w r writes map addr_cells fuel core loc)
    unfolding cpu_loop
    cpu_loop-Safe addr_cells zero core loc h f = absurd (omega arith)
    cpu_loop-Safe addr_cells (suc fuel) core loc h f =
        Safe-bind (get_next_property-Safe w r v m loc h) (λ (found, loc1) p.
          found-Safe r loc loc1 found _ p (returns tt) (λ header moved inside.
            Safe-bind (Ends-Safe _ m (find-Ends (hash_key writes) map header.name)) (λ tag u.
              Safe-bind (cpu_property-Safe addr_cells core tag header.size loc1 inside)
                (λ (core', loc2) (above, below).
                  cpu_loop-Safe addr_cells fuel core' loc2 below (omega arith)))))
