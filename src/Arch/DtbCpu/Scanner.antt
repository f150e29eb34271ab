-- ===== src/Arch/DtbCpu/Scanner.antt =====
-- The operations of `DtbCoreScanner`, and `get_core_config`.
use propeller_kernel.Prelude.{
  ℕ, zero, suc, ◌+◌, ◌-◌, Bool, true, false, ◌&&◌, Option, none, some, List, [], ◌∷◌, Run, ok,
  out_of_fuel, ltb, leb, ◌==◌, if◌then◌else◌, length, take, not,
}
use propeller_kernel.Prelude.Monad
use propeller_kernel.Support.HashMap.{find}
use propeller_kernel.Support.Hash.{hash_key}
use propeller_kernel.Support.Dtb.{
  DtbReader, invalid_dtb, get_u32, skip_and_align, get_next_property,
}
use propeller_kernel.Support.Dtb.Parse.{value, error, fail, ok_or, run}
use propeller_kernel.Support.Dtb.Walk.{same_bytes, new}
use propeller_kernel.Support.Dtb.Names.{bytes_eq}
use propeller_kernel.Support.Dtb.Scan.{Scan, ◌>>=◌, ◌>>◌, get, put, done, lift, scan}
use propeller_kernel.Arch.Cpu.{
  Core, CoreEnableMethod, invalid, empty_core, CoreConfig, max_cores, reset, get_core_count,
  get_cores, add_core,
}
use propeller_kernel.Arch.DtbCpu.{
  DtbStringTag, dtb_prop_address_cells, dtb_prop_size_cells, dtb_prop_enable_method, cpus_name,
  cpu_prefix, DtbCoreScanner, build_string_map, read_enable_method, cpu_loop,
}

-- The scanner's method where the core has none.
unfoldable pub with_default : CoreEnableMethod → Core → Core
with_default default core = elim core.enable_method [
  | invalid ↦ record core { enable_method = default }
  | _ ↦ core
]

module _ (w : ℕ) (hash : ℕ → ℕ) where
  -- One place is kept for the primary core.
  unfoldable pub add_scanned : Core → Scan DtbCoreScanner (Unit {0})
  add_scanned core s =
      let is_primary = core.id == s.primary_id in
      if not is_primary && ltb (max_cores w - 1) (get_core_count s.config)
      then done tt s
      else Monad.◌>>=◌ (add_core w hash s.config (with_default s.def_enable_method core) is_primary)
          (λ (config', added). put (record s { config = config' }) s)

module _ (w : ℕ) (hash : ℕ → ℕ) (writes : List ℕ → List (List ℕ)) (r : DtbReader) where
  -- A turn of the loop of `scan_cpus_node`: the location behind the property.
  unfoldable pub cpus_property : Option DtbStringTag → ℕ → ℕ → Scan DtbCoreScanner ℕ
  cpus_property (some dtb_prop_address_cells) size loc = do
    (cells, loc') ← lift (ok_or (get_u32 w r loc) invalid_dtb)
    s ← get
    put (record s { addr_cells = cells })
    done loc'
  cpus_property (some dtb_prop_size_cells) size loc = do
    (size_cells, loc') ← lift (ok_or (get_u32 w r loc) invalid_dtb)
    if size_cells == 0 then done loc' else lift (fail invalid_dtb)
  cpus_property (some dtb_prop_enable_method) size loc = do
    s ← get
    (method, loc') ← lift (read_enable_method w r writes s.string_map loc)
    put (record s { def_enable_method = method })
    done loc'
  cpus_property _ size loc = lift (run (skip_and_align w r size loc))

  unfoldable pub cpus_loop : ℕ → ℕ → Scan DtbCoreScanner (Unit {0})
  cpus_loop zero loc = λ s. out_of_fuel
  cpus_loop (suc fuel) loc = do
    (found, loc1) ← lift (run (get_next_property w r loc))
    elim found [
      | none ↦ done tt
      | some header ↦ do
        s ← get
        tag ← lift (run (find (hash_key writes) s.string_map header.name))
        loc2 ← cpus_property tag header.size loc1
        cpus_loop fuel loc2
    ]

  unfoldable pub scan_cpus_node : ℕ → Scan DtbCoreScanner (Unit {0})
  scan_cpus_node loc = do
    cpus_loop (length r.dtb + 1) loc
    s ← get
    if s.addr_cells == 0 then lift (fail invalid_dtb) else done tt

  -- Each turn of the loop reads a property.
  unfoldable pub scan_cpu_node : ℕ → Scan DtbCoreScanner (Unit {0})
  scan_cpu_node loc = do
    s ← get
    core ← lift (cpu_loop w r writes s.string_map s.addr_cells (length r.dtb + 1) empty_core loc)
    add_scanned w hash core

unfoldable pub scan_node :
    (w : ℕ) (hash : ℕ → ℕ) (writes : List ℕ → List (List ℕ))
    → DtbReader
    → List ℕ
    → ℕ
    → Scan DtbCoreScanner Bool
scan_node w hash writes r name loc =
    if same_bytes name cpus_name
    then (do scan_cpus_node w hash writes r loc; done true)
    else if leb 5 (length name) && same_bytes (take 4 name) cpu_prefix
    then (do scan_cpu_node w hash writes r loc; done true)
    else done true

-- Every core has an enable method.
unfoldable pub all_enabled : List Core → Bool
all_enabled [] = true
all_enabled (core ∷ cores) = elim core.enable_method [ invalid ↦ false | _ ↦ all_enabled cores ]

-- `primary_id` is what `cpu::get_id` reads. The configuration is changed also where the result is false.
unfoldable pub get_core_config :
    (w : ℕ) (hash : ℕ → ℕ) (writes : List ℕ → List (List ℕ)) (primary_id : ℕ) (memory : ℕ → ℕ)
    → CoreConfig
    → ℕ
    → Run (CoreConfig × Bool)
get_core_config w hash writes primary_id memory config blob_vaddr =
    Monad.◌>>=◌ (reset config) (λ config'. Monad.◌>>=◌ (build_string_map writes) (λ string_map.
      Monad.◌>>=◌ (new w memory blob_vaddr) (λ found. elim found [
        | error e ↦ ok (config', false)
        | value r ↦
            let scanner : DtbCoreScanner = record {
              config = config';
              primary_id = primary_id;
              string_map = string_map;
              addr_cells = 0;
              def_enable_method = invalid;
            } in
            Monad.◌>>=◌ (scan w r (scan_node w hash writes) scanner) (λ (scanner', result).
              elim result [
                | error e ↦ ok (scanner'.config, false)
                | value u ↦
                    if get_core_count scanner'.config == 0
                    then ok (scanner'.config, false)
                    else Monad.◌>>=◌ (get_cores scanner'.config)
                        (λ cores. ok (scanner'.config, all_enabled cores))
              ])
      ])))
