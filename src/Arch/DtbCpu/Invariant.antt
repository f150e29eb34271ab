-- ===== src/Arch/DtbCpu/Invariant.antt =====
-- The cores that the scan by src/arch/arm_common/dtb_cpu.rs collects.
use propeller_kernel.Prelude.{
  ℕ, zero, suc, ◌+◌, ◌-◌, ◌^◌, ◌≤◌, ◌<◌, ◌≡◌, refl, inl, inr, ◌⊎◌, Bool, true, false, not, ◌&&◌,
  Bool-cases, Option, none, some, List, [], ◌∷◌, ◌++◌, Run, ok, ltb, leb, ◌==◌, length, take, arith,
}
use propeller_kernel.Support.Hash.{hash_key}
use propeller_kernel.Support.Dtb.{DtbReader, invalid_dtb}
use propeller_kernel.Support.Dtb.Parse.{Result, fail}
use propeller_kernel.Support.Dtb.Names.{bytes_eq}
use propeller_kernel.Support.Dtb.Walk.{same_bytes}
use propeller_kernel.Support.Dtb.Scan.{lift, done, scan}
use propeller_kernel.Support.Dtb.Cursor.{IsReader}
use propeller_kernel.Support.Dtb.Safety.{After, word-Safe, skip-Safe}
use propeller_kernel.Support.Dtb.Ending.{Ends-Safe, find-Ends}
use propeller_kernel.Support.Dtb.Property.{get_next_property-Safe}
use propeller_kernel.Support.Dtb.Invariant.{
  Runs, returns, fails, Runs-bind, Runs-if, Runs-lift, found-Runs, scan-Runs,
}
use propeller_kernel.Arch.Cpu.{
  Core, CoreEnableMethod, invalid, spin_table, bcm2836, CoreConfig, max_cores, get_core_count,
  add_core,
}
use propeller_kernel.Arch.Cpu.Cores.{IsCores, arrange, add_core-arrange}
use propeller_kernel.Arch.Cpu.Search.{AllOther}
use propeller_kernel.Arch.DtbCpu.{
  DtbStringTag, dtb_prop_address_cells, dtb_prop_size_cells, dtb_prop_compatible,
  dtb_prop_enable_method, dtb_prop_cpu_release_addr, dtb_prop_reg, dtb_value_spin_table,
  dtb_value_bcm2836, DtbCoreScanner, cpus_name, cpu_prefix,
}
use propeller_kernel.Arch.DtbCpu.Scanner.{
  with_default, cpus_property, cpus_loop, scan_cpus_node, add_scanned, scan_cpu_node, scan_node,
}
use propeller_kernel.Arch.DtbCpu.Reads.{read_enable_method-Safe, cpu_loop-Safe}

-- If the primary core is there, it has index zero.
abbrev pub PrimaryFirst : ℕ → List Core → Type 0
PrimaryFirst id [] = Unit
PrimaryFirst id (x ∷ xs) = ((x.id == id) ≡ true) ⊎ AllOther id (x ∷ xs)

-- A configuration of at most `max_cores` cores, the primary one first.
pub record IsConfig (w primary_id : ℕ) (c : CoreConfig) : Type 0 where
  pub all : List Core
  pub cores : IsCores w c all
  pub first : PrimaryFirst primary_id all

AllOther-append :
    (id : ℕ) (xs : List Core) (core : Core)
    → AllOther id xs
    → (core.id == id) ≡ false
    → AllOther id (xs ++ (core ∷ []))
AllOther-append id [] core h n = (n, tt)
AllOther-append id (x ∷ xs) core (m, h) n = (m, AllOther-append id xs core h n)

PrimaryFirst-arrange :
    (id : ℕ) (primary : Bool) (core : Core) (xs : List Core)
    → (core.id == id) ≡ primary
    → PrimaryFirst id xs
    → PrimaryFirst id (arrange primary core xs)
unfolding arrange
PrimaryFirst-arrange id false core [] e p = inr (e, tt)
PrimaryFirst-arrange id false core (x ∷ xs) e (inl first) = inl first
PrimaryFirst-arrange id false core (x ∷ xs) e (inr (n, others)) =
    inr (n, AllOther-append id xs core others e)
PrimaryFirst-arrange id true core [] e p = inl e
PrimaryFirst-arrange id true core (x ∷ xs) e p = inl e

pub with_default-id :
    (default : CoreEnableMethod) (core : Core) → (with_default default core).id ≡ core.id
unfolding with_default
with_default-id default core = kept core.enable_method
  where
    kept :
        (method : CoreEnableMethod)
        → (elim method as (λ m. Core) [
          | invalid ↦ record core { enable_method = default }
          | spin_table ↦ core
          | bcm2836 ↦ core
        ]).id
          ≡ core.id
    kept invalid = refl
    kept spin_table = refl
    kept bcm2836 = refl

-- The scanner's configuration, and its primary core.
pub record IsScanner (w primary_id : ℕ) (s : DtbCoreScanner) : Type 0 where
  pub config : IsConfig w primary_id s.config
  pub primary : s.primary_id ≡ primary_id

module _ (w : ℕ) (hash : ℕ → ℕ) (writes : List ℕ → List (List ℕ))
    (small : (k : ℕ) → hash k < 2 ^ 32) (word : max_cores w < 2 ^ w) (r : DtbReader)
    (v : IsReader w r) {M : Type 0} (m : M) (primary_id : ℕ) where
  abbrev Keeps : {A : Type 0} → Run (DtbCoreScanner × Result A) → Type 0
  Keeps {A = A} out = Runs M (IsScanner w primary_id) (λ a. Unit {0}) out

  add_scanned-Keeps :
      (core : Core) (s : DtbCoreScanner)
      → IsScanner w primary_id s
      → Keeps (add_scanned w hash core s)
  unfolding add_scanned
  add_scanned-Keeps core s i =
      elim (Bool-cases
        (not (core.id == s.primary_id) && ltb (max_cores w - 1) (get_core_count s.config))) [
          | inl full ↦ rw full (returns i tt)
          | inr room ↦ rw room (elim (Bool-cases (leb (max_cores w) (length i.config.all))) [
            | inl no_slot ↦
                rw (place_core.1 (ground (arith, no_slot)))
                  (returns (record { config = i.config; primary = i.primary }) tt)
            | inr slot ↦
                let (c', run, cores) = place_core.0 (ground (arith, slot)) in
                rw run (
                  returns
                    (record {
                      config = record {
                        all = _;
                        cores = cores;
                        first =
                            PrimaryFirst-arrange primary_id _ _ i.config.all same_primary
                              i.config.first;
                      };
                      primary = i.primary;
                    })
                    tt)
          ])
        ]
    where
      added : Core
      added = with_default s.def_enable_method core

      place_core :
          (length i.config.all < max_cores w
            → (c' : CoreConfig) × (add_core w hash s.config added (core.id == s.primary_id)
                ≡ ok (c', true))
              × IsCores w c' (arrange (core.id == s.primary_id) added i.config.all))
          × (max_cores w ≤ length i.config.all
              → add_core w hash s.config added (core.id == s.primary_id) ≡ ok (s.config, false))
      place_core =
          add_core-arrange w hash small word s.config added (core.id == s.primary_id) i.config.cores

      same_primary : (added.id == primary_id) ≡ (core.id == s.primary_id)
      same_primary = rw (with_default-id s.def_enable_method core, i.primary) refl

  cpus_property-Keeps :
      (tag : Option DtbStringTag) (size loc : ℕ) (s : DtbCoreScanner)
      → loc ≤ length r.dtb
      → IsScanner w primary_id s
      → Runs M (IsScanner w primary_id) (After r loc) (cpus_property w hash writes r tag size loc s)
  unfolding cpus_property
  cpus_property-Keeps (some dtb_prop_address_cells) size loc s h i =
      Runs-bind _ (Runs-lift s i (word-Safe w r v loc)) (λ l s1 (moved, inside, little) i1.
        returns (record { config = i1.config; primary = i1.primary }) (omega arith, inside))
  cpus_property-Keeps (some dtb_prop_size_cells) size loc s h i =
      Runs-bind _ (Runs-lift s i (word-Safe w r v loc)) (λ (cells, l) s1 (moved, inside, little) i1.
        Runs-if (cells == 0) (done l) (lift (fail invalid_dtb)) s1
          (returns i1 (omega arith, inside)) (fails i1))
  cpus_property-Keeps (some dtb_prop_enable_method) size loc s h i =
      Runs-bind _ (Runs-lift s i (read_enable_method-Safe w r v m writes s.string_map loc h))
        (λ p s1 a i1. returns (record { config = i.config; primary = i.primary }) a)
  cpus_property-Keeps (some dtb_prop_compatible) size loc s h i =
      Runs-lift s i (skip-Safe w r v size loc h)
  cpus_property-Keeps (some dtb_prop_cpu_release_addr) size loc s h i =
      Runs-lift s i (skip-Safe w r v size loc h)
  cpus_property-Keeps (some dtb_prop_reg) size loc s h i =
      Runs-lift s i (skip-Safe w r v size loc h)
  cpus_property-Keeps (some dtb_value_spin_table) size loc s h i =
      Runs-lift s i (skip-Safe w r v size loc h)
  cpus_property-Keeps (some dtb_value_bcm2836) size loc s h i =
      Runs-lift s i (skip-Safe w r v size loc h)
  cpus_property-Keeps none size loc s h i = Runs-lift s i (skip-Safe w r v size loc h)

  cpus_loop-Keeps :
      (fuel loc : ℕ) (s : DtbCoreScanner)
      → loc ≤ length r.dtb
      → length r.dtb < loc + fuel
      → IsScanner w primary_id s
      → Keeps (cpus_loop w hash writes r fuel loc s)
  unfolding cpus_loop
  cpus_loop-Keeps zero loc s h f i = absurd (omega arith)
  cpus_loop-Keeps (suc fuel) loc s h f i =
      Runs-bind _ (Runs-lift s i (get_next_property-Safe w r v m loc h)) (λ (found, loc1) s1 p i1.
        found-Runs r loc loc1 found (done tt) _ s1 p (returns i1 tt) (λ header moved inside.
          Runs-bind _
            (Runs-lift s1 i1
              (Ends-Safe _ m (find-Ends (hash_key writes) s1.string_map header.name)))
            (λ tag s2 u i2.
              Runs-bind _ (cpus_property-Keeps tag header.size loc1 s2 inside i2)
                (λ loc2 s3 (above, below) i3.
                  cpus_loop-Keeps fuel loc2 s3 below (omega arith) i3))))

  scan_cpus_node-Keeps :
      (loc : ℕ) (s : DtbCoreScanner)
      → loc ≤ length r.dtb
      → IsScanner w primary_id s
      → Keeps (scan_cpus_node w hash writes r loc s)
  unfolding scan_cpus_node
  scan_cpus_node-Keeps loc s h i =
      Runs-bind _ (cpus_loop-Keeps (length r.dtb + 1) loc s h (omega arith) i) (λ u s1 u' i1.
        Runs-if (s1.addr_cells == 0) (lift (fail invalid_dtb)) (done tt) s1 (fails i1)
          (returns i1 tt))

  scan_cpu_node-Keeps :
      (loc : ℕ) (s : DtbCoreScanner)
      → loc ≤ length r.dtb
      → IsScanner w primary_id s
      → Keeps (scan_cpu_node w hash writes r loc s)
  unfolding scan_cpu_node
  scan_cpu_node-Keeps loc s h i =
      Runs-bind _
        (Runs-lift s i (
          cpu_loop-Safe w r v m writes s.string_map s.addr_cells (length r.dtb + 1) _ loc h
            (omega arith)))
        (λ core s1 u i1. add_scanned-Keeps core s1 i1)

  scan_node-Keeps :
      (name : List ℕ) (loc : ℕ) (s : DtbCoreScanner)
      → loc ≤ length r.dtb
      → IsScanner w primary_id s
      → Keeps (scan_node w hash writes r name loc s)
  unfolding scan_node
  scan_node-Keeps name loc s h i = elim (Bool-cases (same_bytes name cpus_name)) [
    | inl cpus ↦
        rw cpus (Runs-bind _ (scan_cpus_node-Keeps loc s h i) (λ u s1 u' i1. returns i1 tt))
    | inr other ↦
        rw other (elim (Bool-cases (leb 5 (length name) && same_bytes (take 4 name) cpu_prefix)) [
          | inl cpu ↦
              rw cpu (Runs-bind _ (scan_cpu_node-Keeps loc s h i) (λ u s1 u' i1. returns i1 tt))
          | inr neither ↦ rw neither (returns i tt)
        ])
  ]

  pub scan-IsScanner :
      (s : DtbCoreScanner) → IsScanner w primary_id s → Keeps (scan w r (scan_node w hash writes) s)
  scan-IsScanner s i =
      scan-Runs w r v (inl m) (IsScanner w primary_id) (scan_node w hash writes) scan_node-Keeps s i
