-- ===== src/Mm/Zones/Reserve.antt =====
-- `init_allocator_memory_config` of src/mm/mod.rs: the place of the page allocators' metadata.
use propeller_kernel.Prelude.{
  ℕ, ◌+◌, ◌-◌, ◌*◌, ◌^◌, ◌≤◌, ◌<◌, ◌≡◌, ◌⊎◌, inl, inr, refl, sym, ◌∙◌, Bool, true, false, ◌&&◌, not,
  List, [], ◌∷◌, ok, panic, ltb, leb, ◌==◌, length, Bool-cases, arith,
}
use propeller_kernel.Support.Range.{Range}
use propeller_kernel.Support.Range.Order.{limit}
use propeller_kernel.Support.RangeSet.View.{IsView, get_ranges-IsView}
use propeller_kernel.Support.RangeSet.Remaining.{splits, AllValid}
use propeller_kernel.Support.RangeSet.Difference.{contains_any, exclude_range-contains_any}
use propeller_kernel.Arch.Memory.{
  invalid_zone, linear_memory_zone, max_mem_ranges, MemoryRange, MemoryConfig,
}
use propeller_kernel.Mm.Machine.{Machine}
use propeller_kernel.Mm.Zones.{
  ZoneInfo, same_zone, meta_total_loop, find_meta_base, init_allocator_memory_config,
}

-- The range stands in the list.
abbrev pub Holds : MemoryRange → List MemoryRange → Type 0
Holds r [] = ⊥
Holds r (x ∷ xs) = (x ≡ r) ⊎ Holds r xs

-- All ranges end below the top of the address space.
abbrev pub AllInside : ℕ → List MemoryRange → Type 0
AllInside w [] = Unit
AllInside w (x ∷ xs) = (limit x < 2 ^ w) × AllInside w xs

-- A linear range that is larger than the metadata.
abbrev pub is_roomy : ℕ → MemoryRange → Bool
is_roomy total r = same_zone r.tag linear_memory_zone && ltb total r.size

-- The base that the metadata of so many bytes have at the end of a range.
abbrev pub meta_base_in : ℕ → MemoryRange → ℕ
meta_base_in total r = limit r - total

splits_le : {T : Type 0} (excl : Range T) (xs : List (Range T)) → splits excl xs ≤ length xs
unfolding splits
splits_le excl [] = omega arith
splits_le excl (x ∷ xs) = ground (arith, splits_le excl xs)

module _ (m : Machine) (total : ℕ) where
  open m use {word_bits}

  find_meta_base-Holds :
      (xs : List MemoryRange)
      → AllInside word_bits xs
      → ((find_meta_base m total xs ≡ ok 0)
          × ((r : MemoryRange) → Holds r xs → is_roomy total r ≡ false))
        ⊎ ((r : MemoryRange) × Holds r xs
            × (is_roomy total r ≡ true)
            × (limit r < 2 ^ word_bits)
            × (find_meta_base m total xs ≡ ok (meta_base_in total r)))
  unfolding find_meta_base
  find_meta_base-Holds [] inside = inl (refl, λ r h. absurd h)
  find_meta_base-Holds (x ∷ xs) (below, inside) = elim (Bool-cases (is_roomy total x)) [
    | inl roomy ↦ inr (x, inl refl, roomy, below, rw roomy (ground (arith, below, roomy)))
    | inr small ↦ elim (find_meta_base-Holds xs inside) [
      | inl (run, none_in) ↦
          inl (rw small run, λ r h. elim h [ inl e ↦ rw (sym e) small | inr h' ↦ none_in r h' ])
      | inr (r, h, roomy, l, run) ↦ inr (r, inr h, roomy, l, rw small run)
    ]
  ]

  -- When the sizes of the zones' metadata have a nonzero sum, at most half of the slots of the
  -- configuration are in use, and its ranges are not empty and end below the top of the address space:
  -- `init_allocator_memory_config` panics exactly when no linear range is larger than the metadata.
  -- Otherwise it places the metadata at the end of a linear range of the configuration, and leaves
  -- ranges that hold exactly the addresses outside the metadata.
  pub init_allocator_memory_config-contains_any :
      (zone_info : List ZoneInfo) (s : MemoryConfig) (xs : List MemoryRange)
      → meta_total_loop m zone_info 0 ≡ ok total
      → 0 < total
      → IsView max_mem_ranges s xs
      → AllValid word_bits xs
      → AllInside word_bits xs
      → 2 * length xs ≤ max_mem_ranges
      → ((init_allocator_memory_config m s zone_info ≡ panic)
          × ((r : MemoryRange) → Holds r xs → is_roomy total r ≡ false))
        ⊎ ((r : MemoryRange) × (s' : MemoryConfig) × (ys : List MemoryRange)
            × (init_allocator_memory_config m s zone_info ≡ ok (s', limit r - total))
            × Holds r xs
            × (is_roomy total r ≡ true)
            × IsView max_mem_ranges s' ys
            × ((x : ℕ)
                → contains_any ys x
                  ≡ (contains_any xs x && not (leb (limit r - total) x && ltb x (limit r)))))
  unfolding init_allocator_memory_config
  init_allocator_memory_config-contains_any zone_info s xs sum some_meta v valid inside room =
      elim (find_meta_base-Holds xs inside) [
        | inl (run, none_in) ↦ inl (rw (sum, (get_ranges-IsView v).0, run) refl, none_in)
        | inr (r, h, roomy, below, run) ↦
            let excl : MemoryRange = record {
              tag = invalid_zone;
              base = meta_base_in total r;
              size = total;
            } in
            let ends : meta_base_in total r + total ≡ limit r = ground (arith, roomy) in
            let (s', ys, run', v', left) =
              exclude_range-contains_any word_bits excl
                (record { not_empty = some_meta; fits = omega (arith, ends, below) })
                (omega (arith, ends, below)) s xs v valid
                (omega (arith, room, splits_le excl xs)) in
            (inr (
              r,
              s',
              ys,
              rw (sum, (get_ranges-IsView v).0, run)
                  (rw
                    (
                      (let e : (meta_base_in total r == 0) ≡ false = ground (arith, roomy) in e),
                      run',
                    )
                    refl),
              h,
              roomy,
              v',
              λ x. left x ∙ rw ends refl,
            ))
      ]
