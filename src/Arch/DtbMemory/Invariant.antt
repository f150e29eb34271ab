-- ===== src/Arch/DtbMemory/Invariant.antt =====
-- What the handler of the memory ranges keeps, the scan by src/arch/arm_common/dtb_memory.rs keeps.
use propeller_kernel.Prelude.{
  ℕ, zero, suc, ◌+◌, ◌-◌, ◌/◌, ◌^◌, ◌≤◌, ◌<◌, ◌≡◌, refl, inl, inr, false, ◌||◌, not, Option, none,
  some, List, Run, ok, panic, out_of_fuel, ltb, ◌==◌, if◌then◌else◌, Bool-cases, length, arith,
}
use propeller_kernel.Prelude.Monad
use propeller_kernel.Support.Hash.{hash_key}
use propeller_kernel.Support.Dtb.{DtbReader, invalid_dtb}
use propeller_kernel.Support.Dtb.Parse.{Result, value, run}
use propeller_kernel.Support.Dtb.Names.{bytes_eq}
use propeller_kernel.Support.Dtb.Scan.{Scan, ◌>>=◌, lift, done, scan}
use propeller_kernel.Support.Dtb.Cursor.{IsReader}
use propeller_kernel.Support.Dtb.Safety.{Safe, Safe-bind, After, word-Safe, skip-Safe}
use propeller_kernel.Support.Dtb.Safety
use propeller_kernel.Prelude.Ends.{Ends, >>=-Ends, option-Ends, ok-Ends}
use propeller_kernel.Support.Dtb.Ending.{
  Ends-Safe, ok_or-Safe, find-Ends, get_reg_pair-Ends, get_reg_pair_size-Ends, rem-Ends,
  get_null_terminated_u8_slice-Ends,
}
use propeller_kernel.Support.Dtb.Property.{found-Safe, get_next_property-Safe}
use propeller_kernel.Support.Dtb.Invariant.{
  Runs, returns, fails, panics, Runs-bind, Runs-if, Runs-lift, found-Runs, scan-Runs,
}
use propeller_kernel.Arch.Memory.{MemoryConfig, MemoryRangeHandler}
use propeller_kernel.Arch.DtbMemory.{
  StringTag, dtb_prop_address_cells, dtb_prop_size_cells, dtb_prop_device_type, dtb_prop_reg,
  StringMap, DtbMemoryScanner, DeviceNode, device_property, device_loop, check_device_type,
  clip_size,
}
use propeller_kernel.Arch.DtbMemory.Scanner.{
  ignore, add_block, add_blocks_loop, add_memory_blocks, root_property, root_loop, scan_root_node,
  add_device, scan_device_node, scan_node,
}

clip_size-valid :
    (w base size : ℕ)
    → 2 ≤ 2 ^ w
    → base ≤ 2 ^ w - 1
    → 0 < size
    → (0 < clip_size w base size)
      × (clip_size w base size < 2 ^ w)
      × (base + clip_size w base size ≤ 2 ^ w)
unfolding clip_size
clip_size-valid w base size h b s = ground arith

check_device_type-Ends : (w : ℕ) (r : DtbReader) (loc : ℕ) → Ends (check_device_type w r loc)
unfolding check_device_type
check_device_type-Ends w r loc =
    >>=-Ends _ (get_null_terminated_u8_slice-Ends w r loc)
      (λ found. option-Ends found (ok-Ends false) (λ name. ok-Ends _))

module _ (w : ℕ) (writes : List ℕ → List (List ℕ)) (r : DtbReader) (v : IsReader w r) {M : Type 0}
    (m : M) where
  module _ (map : StringMap) where
    device_property-Safe :
        (d : DeviceNode) (tag : Option StringTag) (size loc : ℕ)
        → loc ≤ length r.dtb
        → Safe M (λ p. After r loc (p.1)) (device_property w r d tag size loc)
    unfolding device_property
    device_property-Safe d (some dtb_prop_device_type) size loc h =
        Safe-bind (skip-Safe w r v size loc h) (λ l a. Safety.returns a)
    device_property-Safe d (some dtb_prop_reg) size loc h =
        Safe-bind (skip-Safe w r v size loc h) (λ l a. Safety.returns a)
    device_property-Safe d (some dtb_prop_address_cells) size loc h =
        Safe-bind (word-Safe w r v loc)
          (λ l (moved, inside, small). Safety.returns (omega arith, inside))
    device_property-Safe d (some dtb_prop_size_cells) size loc h =
        Safe-bind (word-Safe w r v loc)
          (λ l (moved, inside, small). Safety.returns (omega arith, inside))
    device_property-Safe d none size loc h =
        Safe-bind (skip-Safe w r v size loc h) (λ l a. Safety.returns a)

    device_loop-Safe :
        (fuel : ℕ) (d : DeviceNode) (loc : ℕ)
        → loc ≤ length r.dtb
        → length r.dtb < loc + fuel
        → Safe M (λ d'. Unit {0}) (device_loop writes w r map fuel d loc)
    unfolding device_loop
    device_loop-Safe zero d loc h f = absurd (omega arith)
    device_loop-Safe (suc fuel) d loc h f =
        Safe-bind (get_next_property-Safe w r v m loc h) (λ (found, loc1) p.
          found-Safe r loc loc1 found _ p (Safety.returns tt) (λ header moved inside.
            Safe-bind (Ends-Safe _ m (find-Ends (hash_key writes) map header.name)) (λ tag u.
              Safe-bind (device_property-Safe d tag header.size loc1 inside)
                (λ (d', loc2) (above, below). device_loop-Safe fuel d' loc2 below (omega arith)))))

  -- The handler ends, and what it returns for a range of the address space keeps the property.
  module _ (handle_range : MemoryRangeHandler) (C : MemoryConfig → Type 0)
      (handles : (config : MemoryConfig) (base size : ℕ)
        → C config
        → 0 < size
        → size < 2 ^ w
        → base + size ≤ 2 ^ w
        → Ends (handle_range config base size)
          × ((config' : MemoryConfig)
              → handle_range config base size ≡ ok config'
              → C config')) where
    abbrev Keeps : {A : Type 0} → Run (DtbMemoryScanner × Result A) → Type 0
    Keeps {A = A} out = Runs M (λ s. C s.config) (λ a. Unit {0}) out

    handled :
        (s : DtbMemoryScanner) (code : Run MemoryConfig)
        → Ends code
        → ((config' : MemoryConfig) → code ≡ ok config' → C config')
        → Keeps (Monad.◌>>=◌ code (λ config'. ok (record s { config = config' }, value (tt {0}))))
    handled s (ok config') e k = returns (k config' refl) tt
    handled s panic e k = panics m
    handled s out_of_fuel e k = absurd (e refl)

    add_block-Keeps :
        (base size : ℕ) (s : DtbMemoryScanner)
        → C s.config
        → Keeps (add_block w handle_range base size s)
    unfolding add_block
    add_block-Keeps base size s c = elim (Bool-cases (ltb (2 ^ w - 1) base)) [
      | inl beyond ↦ rw beyond (returns c tt)
      | inr reached ↦ rw reached (elim (Bool-cases (size == 0)) [
        | inl empty ↦ rw empty (returns c tt)
        | inr some_bytes ↦
            let (filled, small, inside) =
              clip_size-valid w base size (omega (arith, v.header, v.fits))
                (ground (arith, reached)) (ground (arith, some_bytes)) in
            let (ends, keeps) =
              handles s.config base (clip_size w base size) c filled small inside in
            rw some_bytes (handled s _ ends keeps)
      ])
    ]

    add_blocks_loop-Keeps :
        (a z left loc : ℕ) (s : DtbMemoryScanner)
        → C s.config
        → Keeps (add_blocks_loop w handle_range r a z left loc s)
    unfolding add_blocks_loop
    add_blocks_loop-Keeps a z zero loc s c = returns c tt
    add_blocks_loop-Keeps a z (suc left) loc s c =
        Runs-bind _ (Runs-lift s c (ok_or-Safe invalid_dtb m (get_reg_pair-Ends w r a z loc)))
          (λ ((base, size), loc') s1 u c1.
            Runs-bind _ (add_block-Keeps base size s1 c1)
              (λ u' s2 u'' c2. add_blocks_loop-Keeps a z left loc' s2 c2))

    add_memory_blocks-Keeps :
        (prop_size a z loc : ℕ) (s : DtbMemoryScanner)
        → C s.config
        → Keeps (add_memory_blocks w handle_range r prop_size a z loc s)
    unfolding add_memory_blocks
    add_memory_blocks-Keeps prop_size a z loc s c =
        Runs-bind _ (Runs-lift s c (Ends-Safe _ m (get_reg_pair_size-Ends w r a z)))
          (λ pair_size s1 u c1.
            elim (Bool-cases (pair_size == 0 || (prop_size == 0 || ltb prop_size pair_size))) [
              | inl bad ↦ rw bad (fails c1)
              | inr good ↦ rw good (
                  Runs-bind _ (Runs-lift s1 c1 (Ends-Safe _ m (rem-Ends prop_size pair_size)))
                    (λ rest s2 u' c2. elim (Bool-cases (not (rest == 0))) [
                      | inl broken ↦ rw broken (fails c2)
                      | inr whole ↦
                          rw whole (add_blocks_loop-Keeps a z (prop_size / pair_size) loc s2 c2)
                    ]))
            ])

    ignore-Keeps :
        {A : Type 0} (code : Scan DtbMemoryScanner A) (s : DtbMemoryScanner)
        → Keeps (code s)
        → Keeps (ignore code s)
    ignore-Keeps code s k = ignored k
      where
        ignored :
            {B : Type 0} {out : Run (DtbMemoryScanner × Result B)}
            → Keeps out
            → Keeps (Monad.◌>>=◌ out (λ (s', result). ok (s', value (tt {0}))))
        ignored (returns c u) = returns c tt
        ignored (fails c) = returns c tt
        ignored (panics m) = panics m

    add_device-Keeps :
        (d : DeviceNode) (s : DtbMemoryScanner)
        → C s.config
        → Keeps (add_device w handle_range writes r d s)
    unfolding add_device
    add_device-Keeps d s c = at_type d.dev_type
      where
        at_reg :
            (reg : Option (ℕ × ℕ)) (s1 : DtbMemoryScanner)
            → C s1.config
            → Keeps (
                elim reg as (λ o. Scan DtbMemoryScanner (Unit {0})) [
                  | none ↦ done tt
                  | some (pos', size') ↦
                      ignore
                        (add_memory_blocks w handle_range r size' d.addr_cells d.size_cells pos')
                ]
                  s1)
        at_reg none s1 c1 = returns c1 tt
        at_reg (some (pos', size')) s1 c1 =
            ignore-Keeps (add_memory_blocks w handle_range r size' d.addr_cells d.size_cells pos')
              s1 (add_memory_blocks-Keeps size' d.addr_cells d.size_cells pos' s1 c1)

        at_type :
            (dev_type : Option (ℕ × ℕ))
            → Keeps (
                elim dev_type as (λ o. Scan DtbMemoryScanner (Unit {0})) [
                  | none ↦ done tt
                  | some (pos, size) ↦ ◌>>=◌ (lift (run (check_device_type w r pos))) (λ is_memory.
                      if is_memory
                      then elim d.reg as (λ o. Scan DtbMemoryScanner (Unit {0})) [
                        | none ↦ done tt
                        | some (pos', size') ↦ ignore (
                            add_memory_blocks w handle_range r size' d.addr_cells d.size_cells pos')
                      ]
                      else done tt)
                ]
                  s)
        at_type none = returns c tt
        at_type (some (pos, size)) =
            Runs-bind _ (Runs-lift s c (Ends-Safe _ m (check_device_type-Ends w r pos)))
              (λ is_memory s1 u c1.
                Runs-if is_memory _ (done tt) s1 (at_reg d.reg s1 c1) (returns c1 tt))

    root_property-Keeps :
        (tag : Option StringTag) (size loc : ℕ) (s : DtbMemoryScanner)
        → loc ≤ length r.dtb
        → C s.config
        → Runs M
            (λ s. C s.config)
            (After r loc)
            (root_property w handle_range writes r tag size loc s)
    unfolding root_property
    root_property-Keeps (some dtb_prop_address_cells) size loc s h c =
        Runs-bind _ (Runs-lift s c (word-Safe w r v loc))
          (λ l s1 (moved, inside, small) c1. returns c1 (omega arith, inside))
    root_property-Keeps (some dtb_prop_size_cells) size loc s h c =
        Runs-bind _ (Runs-lift s c (word-Safe w r v loc))
          (λ l s1 (moved, inside, small) c1. returns c1 (omega arith, inside))
    root_property-Keeps (some dtb_prop_device_type) size loc s h c =
        Runs-lift s c (skip-Safe w r v size loc h)
    root_property-Keeps (some dtb_prop_reg) size loc s h c =
        Runs-lift s c (skip-Safe w r v size loc h)
    root_property-Keeps none size loc s h c = Runs-lift s c (skip-Safe w r v size loc h)

    root_loop-Keeps :
        (fuel loc : ℕ) (s : DtbMemoryScanner)
        → loc ≤ length r.dtb
        → length r.dtb < loc + fuel
        → C s.config
        → Keeps (root_loop w handle_range writes r fuel loc s)
    unfolding root_loop
    root_loop-Keeps zero loc s h f c = absurd (omega arith)
    root_loop-Keeps (suc fuel) loc s h f c =
        Runs-bind _ (Runs-lift s c (get_next_property-Safe w r v m loc h)) (λ (found, loc1) s1 p c1.
          found-Runs r loc loc1 found (done tt) _ s1 p (returns c1 tt) (λ header moved inside.
            Runs-bind _
              (Runs-lift s1 c1
                (Ends-Safe _ m (find-Ends (hash_key writes) s1.string_map header.name)))
              (λ tag s2 u c2.
                Runs-bind _ (root_property-Keeps tag header.size loc1 s2 inside c2)
                  (λ loc2 s3 (above, below) c3.
                    root_loop-Keeps fuel loc2 s3 below (omega arith) c3))))

    scan_node-Keeps :
        (name : List ℕ) (loc : ℕ) (s : DtbMemoryScanner)
        → loc ≤ length r.dtb
        → C s.config
        → Keeps (scan_node w handle_range writes r name loc s)
    unfolding scan_node scan_root_node scan_device_node
    scan_node-Keeps name loc s h c =
        Runs-if (length name == 0) _ _ s
          (Runs-bind _ (root_loop-Keeps (length r.dtb + 1) loc s h (omega arith) c)
            (λ u s1 u' c1. returns c1 tt))
          (Runs-bind _
            (Runs-bind _
              (Runs-lift s c
                (device_loop-Safe s.string_map (length r.dtb + 1) _ loc h (omega arith)))
              (λ d s1 u c1. add_device-Keeps d s1 c1))
            (λ u s1 u' c1. returns c1 tt))

    pub scan-Keeps :
        (s : DtbMemoryScanner) → C s.config → Keeps (scan w r (scan_node w handle_range writes) s)
    scan-Keeps s c =
        scan-Runs w r v (inl m) (λ s. C s.config) (scan_node w handle_range writes) scan_node-Keeps
          s c
