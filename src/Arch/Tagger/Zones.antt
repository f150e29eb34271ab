-- ===== src/Arch/Tagger/Zones.antt =====
-- The memory configuration that the range handlers of src/arch/aarch64/mod.rs and src/arch/arm/mod.rs build.
use propeller_kernel.Prelude.{
  ℕ, ◌+◌, ◌-◌, ◌^◌, ◌&&◌, ◌≤◌, ◌<◌, ◌≡◌, refl, ◌⊎◌, inl, inr, Bool-cases, true, Option, none, some,
  List, [], ◌∷◌, Run, ok, arith, ltb, leb, length,
}
use mathlib.Core.Path.{subst}
use propeller_kernel.Prelude.Ends.{Ends}
use propeller_kernel.Support.Range.{split}
use propeller_kernel.Support.Range.Elements.{IsValid, contains, contains?}
use propeller_kernel.Support.Range.Cut.{split-IsCut, IsCut, IsValidPart}
use propeller_kernel.Support.RangeSet.View.{IsView}
use propeller_kernel.Support.RangeSet.Insert.{
  insert_sorted, insert_range-insert_sorted, insert_range-Refuses, IsSorted, insert_sorted-IsSorted,
}
use propeller_kernel.Arch.Memory.{
  MemoryZone, invalid_zone, linear_memory_zone, high_memory_zone, max_mem_ranges, MemoryRange,
  MemoryConfig,
}
use propeller_kernel.Arch.Tagger.{
  insert_tagged, insert_part, insert_parts, handle_range_aarch64, handle_range_arm,
}

abbrev pub All : (MemoryRange → Type 0) → List MemoryRange → Type 0
All P [] = Unit
All P (x ∷ xs) = P x × All P xs

All-insert_sorted :
    (P : MemoryRange → Type 0) (r : MemoryRange) (xs : List MemoryRange)
    → P r
    → All P xs
    → All P (insert_sorted r xs)
unfolding insert_sorted
All-insert_sorted P r [] p a = (p, tt)
All-insert_sorted P r (x ∷ xs) p (q, a) = elim (Bool-cases (ltb r.base x.base)) [
  | inl before ↦ rw before (p, (q, a))
  | inr behind ↦ rw behind (q, All-insert_sorted P r xs p a)
]

-- A configuration of at most 64 ranges, sorted by base, all of which satisfy `P`.
pub record IsConfig (P : MemoryRange → Type 0) (config : MemoryConfig) : Type 0 where
  pub ranges : List MemoryRange
  pub view : IsView max_mem_ranges config ranges
  pub sorted : IsSorted ranges
  pub each : All P ranges

-- The code returns such a configuration.
abbrev Configures : (MemoryRange → Type 0) → Run MemoryConfig → Type 0
Configures P code = (config : MemoryConfig) × (code ≡ ok config) × IsConfig P config

pub Configures-Ends :
    {P : MemoryRange → Type 0} {code : Run MemoryConfig}
    → Configures P code
    → Ends code × ((config : MemoryConfig) → code ≡ ok config → IsConfig P config)
Configures-Ends {P = P} (config, e, c) =
    (λ h. cc, λ config' e'. subst (IsConfig P) (let same : config ≡ config' = cc in same) c)

-- A range of the address space, in its zone: linear memory ends at or below `high_mem_base`, high memory
-- begins at or above it.
pub record IsZoned (w high_mem_base : ℕ) (r : MemoryRange) : Type 0 where
  pub valid : IsValid w r
  pub zone :
      ((r.tag ≡ linear_memory_zone) × (r.base + r.size ≤ high_mem_base))
      ⊎ ((r.tag ≡ high_memory_zone) × (high_mem_base ≤ r.base))

-- A range of the address space, of linear memory.
pub record IsLinear (w : ℕ) (r : MemoryRange) : Type 0 where
  pub valid : IsValid w r
  pub zone : r.tag ≡ linear_memory_zone

module _ (w : ℕ) where
  insert_tagged-Configures :
      (P : MemoryRange → Type 0) (zone : MemoryZone) (config : MemoryConfig) (base size : ℕ)
      → IsConfig P config
      → 0 < size
      → size < 2 ^ w
      → base + size ≤ 2 ^ w
      → P (record { tag = zone; base = base; size = size })
      → Configures P (insert_tagged w zone config base size)
  unfolding insert_tagged
  insert_tagged-Configures P zone config base size c h small inside p =
      elim (Bool-cases (leb 64 (length c.ranges))) [
        | inl full ↦ (
          config,
          rw (insert_range-Refuses w range c.view (inl (ground (arith, full))) small) refl,
          c,
        )
        | inr room ↦
            let (config', run, view) =
              insert_range-insert_sorted w range c.view (record { not_empty = h; fits = inside })
                (ground (arith, room)) in
            (
              config',
              rw run refl,
              record {
                ranges = insert_sorted range c.ranges;
                view = view;
                sorted = insert_sorted-IsSorted range c.ranges c.sorted;
                each = All-insert_sorted P range c.ranges p c.each;
              },
            )
      ]
    where
      range : MemoryRange
      range = record { tag = zone; base = base; size = size }

  pub handle_range_aarch64-Configures :
      (config : MemoryConfig) (base size : ℕ)
      → IsConfig (IsLinear w) config
      → 0 < size
      → size < 2 ^ w
      → base + size ≤ 2 ^ w
      → Configures (IsLinear w) (handle_range_aarch64 w config base size)
  unfolding handle_range_aarch64
  handle_range_aarch64-Configures config base size c h small inside =
      insert_tagged-Configures (IsLinear w) linear_memory_zone config base size c h small inside
        (record { valid = record { not_empty = h; fits = inside }; zone = refl })

  -- Where a part of a range lies, given the elements that it has.
  part_bounds :
      (r p : MemoryRange)
      → IsValid w r
      → IsValid w p
      → ((x : ℕ) → contains p x ≡ true → contains r x ≡ true)
      → (r.base ≤ p.base) × (p.base + p.size ≤ r.base + r.size)
  part_bounds r p vr vp sub = (
    ground (arith, sub p.base (ground (arith, vp.not_empty))),
    ground (arith, vp.not_empty, sub (p.base + p.size - 1) (ground (arith, vp.not_empty))),
  )

  module _ (high_mem_base : ℕ) where
    -- A part that may be put into the configuration with a tag.
    abbrev Fit : MemoryZone → Option MemoryRange → Type 0
    Fit zone none = Unit
    Fit zone (some p) = (p.size < 2 ^ w) × IsZoned w high_mem_base (record p { tag = zone })

    insert_part-Configures :
        (zone : MemoryZone) (config : MemoryConfig) (part : Option MemoryRange)
        → IsConfig (IsZoned w high_mem_base) config
        → Fit zone part
        → Configures (IsZoned w high_mem_base) (insert_part w zone config part)
    unfolding insert_part
    insert_part-Configures zone config none c h = (config, refl, c)
    insert_part-Configures zone config (some p) c (small, zoned) =
        insert_tagged-Configures (IsZoned w high_mem_base) zone config p.base p.size c
          zoned.valid.not_empty small zoned.valid.fits zoned

    module _ (r : MemoryRange) (v : IsValid w r) (small : r.size < 2 ^ w) where
      low-Fit :
          (part : Option MemoryRange)
          → ((x : ℕ) → contains? part x ≡ (contains r x && ltb x high_mem_base))
          → IsValidPart w r part
          → Fit linear_memory_zone part
      low-Fit none below valid = tt
      low-Fit (some p) below (tag, vp) = (
        omega (arith, bounds.0, bounds.1),
        record {
          valid = record { not_empty = vp.not_empty; fits = vp.fits };
          zone = inl (refl, ground (arith, vp.not_empty, below (p.base + p.size - 1)));
        },
      )
        where
          bounds : (r.base ≤ p.base) × (p.base + p.size ≤ r.base + r.size)
          bounds = part_bounds r p v vp (λ x e. ground (arith, e, below x))

      high-Fit :
          (part : Option MemoryRange)
          → ((x : ℕ) → contains? part x ≡ (contains r x && leb high_mem_base x))
          → IsValidPart w r part
          → Fit high_memory_zone part
      high-Fit none above valid = tt
      high-Fit (some p) above (tag, vp) = (
        omega (arith, bounds.0, bounds.1),
        record {
          valid = record { not_empty = vp.not_empty; fits = vp.fits };
          zone = inr (refl, ground (arith, vp.not_empty, above p.base));
        },
      )
        where
          bounds : (r.base ≤ p.base) × (p.base + p.size ≤ r.base + r.size)
          bounds = part_bounds r p v vp (λ x e. ground (arith, e, above x))

    pub handle_range_arm-Configures :
        (config : MemoryConfig) (base size : ℕ)
        → IsConfig (IsZoned w high_mem_base) config
        → 0 < size
        → size < 2 ^ w
        → base + size ≤ 2 ^ w
        → Configures (IsZoned w high_mem_base) (handle_range_arm w high_mem_base config base size)
    unfolding handle_range_arm insert_parts
    handle_range_arm-Configures config base size c h small inside =
        let (config1, run1, c1) =
          insert_part-Configures linear_memory_zone config cut.low c
            (low-Fit range valid small cut.low cut.below cut.low_valid) in
        let (config2, run2, c2) =
          insert_part-Configures high_memory_zone config1 cut.high c1
            (high-Fit range valid small cut.high cut.above cut.high_valid) in
        (config2, rw cut.returns (rw run1 run2), c2)
      where
        range : MemoryRange
        range = record { tag = invalid_zone; base = base; size = size }

        valid : IsValid w range
        valid = record { not_empty = h; fits = inside }

        cut : IsCut w range high_mem_base (split w range high_mem_base)
        cut = split-IsCut w range valid high_mem_base
