-- ===== src/Arch/DtbMemory/Scanner.antt =====
-- The operations of `DtbMemoryScanner`, and `get_memory_layout`.
use propeller_kernel.Prelude.{
  ℕ, zero, suc, ◌+◌, ◌-◌, ◌/◌, ◌^◌, Bool, true, false, ◌||◌, Option, none, some, List, Run, ok,
  out_of_fuel, ltb, ◌==◌, if◌then◌else◌, length, not, check,
}
use propeller_kernel.Prelude.Monad
use propeller_kernel.Support.HashMap.{find}
use propeller_kernel.Support.Hash.{hash_key}
use propeller_kernel.Support.Dtb.{
  DtbReader, invalid_dtb, get_u32, skip_and_align, get_reg_pair_size, get_reg_pair,
  get_next_property,
}
use propeller_kernel.Support.Dtb.Parse.{value, error, fail, ok_or, run}
use propeller_kernel.Support.Dtb.Walk.{new}
use propeller_kernel.Support.Dtb.Names.{bytes_eq}
use propeller_kernel.Support.Dtb.Scan.{Scan, ◌>>=◌, ◌>>◌, get, put, done, lift, scan}
use propeller_kernel.Support.RangeSet.{is_empty, trim_ranges}
use propeller_kernel.Arch.Memory.{MemoryConfig, MemoryRangeHandler, max_mem_ranges}
use propeller_kernel.Arch.DtbMemory.{
  StringTag, dtb_prop_address_cells, dtb_prop_size_cells, DtbMemoryScanner, DeviceNode,
  build_string_map, device_loop, check_device_type, clip_size,
}

-- The result of code is ignored; its effects are not.
abbrev pub ignore : {S A : Type 0} → Scan S A → Scan S (Unit {0})
ignore code s = Monad.◌>>=◌ (code s) (λ (s', result). ok (s', value tt))

module _ (w : ℕ) (handle_range : MemoryRangeHandler) where
  -- One pair of a `reg` property.
  unfoldable pub add_block : ℕ → ℕ → Scan DtbMemoryScanner (Unit {0})
  add_block base size s =
      if ltb (2 ^ w - 1) base
      then done tt s
      else if size == 0
      then done tt s
      else Monad.◌>>=◌ (handle_range s.config base (clip_size w base size))
          (λ config'. put (record s { config = config' }) s)

  module _ (r : DtbReader) where
    unfoldable pub add_blocks_loop : ℕ → ℕ → ℕ → ℕ → Scan DtbMemoryScanner (Unit {0})
    add_blocks_loop addr_cells size_cells zero loc = done tt
    add_blocks_loop addr_cells size_cells (suc left) loc = do
      ((base, size), loc') ← lift (ok_or (get_reg_pair w r addr_cells size_cells loc) invalid_dtb)
      add_block base size
      add_blocks_loop addr_cells size_cells left loc'

    unfoldable pub add_memory_blocks : ℕ → ℕ → ℕ → ℕ → Scan DtbMemoryScanner (Unit {0})
    add_memory_blocks prop_size addr_cells size_cells loc = do
      pair_size ← lift (run (get_reg_pair_size w r addr_cells size_cells))
      if pair_size == 0 || (prop_size == 0 || ltb prop_size pair_size)
          then lift (fail invalid_dtb)
          else do
            rest ← lift (run (Monad.rem prop_size pair_size))
            if not (rest == 0)
                then lift (fail invalid_dtb)
                else add_blocks_loop addr_cells size_cells (prop_size / pair_size) loc

  module _ (writes : List ℕ → List (List ℕ)) (r : DtbReader) where
    -- A turn of the loop of `scan_root_node`: the location behind the property.
    unfoldable pub root_property : Option StringTag → ℕ → ℕ → Scan DtbMemoryScanner ℕ
    root_property (some dtb_prop_address_cells) size loc = do
      (cells, loc') ← lift (ok_or (get_u32 w r loc) invalid_dtb)
      s ← get
      put (record s { addr_cells = cells })
      done loc'
    root_property (some dtb_prop_size_cells) size loc = do
      (cells, loc') ← lift (ok_or (get_u32 w r loc) invalid_dtb)
      s ← get
      put (record s { size_cells = cells })
      done loc'
    root_property _ size loc = lift (run (skip_and_align w r size loc))

    unfoldable pub root_loop : ℕ → ℕ → Scan DtbMemoryScanner (Unit {0})
    root_loop zero loc = λ s. out_of_fuel
    root_loop (suc fuel) loc = do
      (found, loc1) ← lift (run (get_next_property w r loc))
      elim found [
        | none ↦ done tt
        | some header ↦ do
          s ← get
          tag ← lift (run (find (hash_key writes) s.string_map header.name))
          loc2 ← root_property tag header.size loc1
          root_loop fuel loc2
      ]

    unfoldable pub scan_root_node : ℕ → Scan DtbMemoryScanner (Unit {0})
    scan_root_node loc = root_loop (length r.dtb + 1) loc

    -- The ranges of a device that says that it is memory. Errors in its ranges are ignored.
    unfoldable pub add_device : DeviceNode → Scan DtbMemoryScanner (Unit {0})
    add_device d = elim d.dev_type [
      | none ↦ done tt
      | some (pos, size) ↦ do
        is_memory ← lift (run (check_device_type w r pos))
        if is_memory
            then elim d.reg [
              | none ↦ done tt
              | some (pos', size') ↦
                  ignore (add_memory_blocks r size' d.addr_cells d.size_cells pos')
            ]
            else done tt
    ]

    unfoldable pub scan_device_node : ℕ → Scan DtbMemoryScanner (Unit {0})
    scan_device_node loc = do
      s ← get
      let d : DeviceNode = record {
        dev_type = none;
        reg = none;
        addr_cells = s.addr_cells;
        size_cells = s.size_cells;
      }
      d' ← lift (device_loop writes w r s.string_map (length r.dtb + 1) d loc)
      add_device d'

  unfoldable pub scan_node :
      (writes : List ℕ → List (List ℕ)) → DtbReader → List ℕ → ℕ → Scan DtbMemoryScanner Bool
  scan_node writes r name loc =
      if length name == 0
      then (do scan_root_node writes r loc; done true)
      else (do scan_device_node writes r loc; done true)

  -- `fuel` is what `trim_ranges` is given. The configuration is changed also where the result is false.
  unfoldable pub get_memory_layout :
      (writes : List ℕ → List (List ℕ)) (fuel : ℕ) (memory : ℕ → ℕ)
      → MemoryConfig
      → ℕ
      → Run (MemoryConfig × Bool)
  get_memory_layout writes fuel memory config blob = Monad.◌>>◌ (check (is_empty config)) (
      Monad.◌>>=◌ (build_string_map writes) (λ string_map. Monad.◌>>=◌ (new w memory blob) (λ found.
        elim found [
          | error e ↦ ok (config, false)
          | value r ↦
              let scanner : DtbMemoryScanner = record {
                config = config;
                string_map = string_map;
                addr_cells = 0;
                size_cells = 0;
              } in
              Monad.◌>>=◌ (scan w r (scan_node writes) scanner) (λ (scanner', result). elim result [
                | error e ↦ ok (scanner'.config, false)
                | value u ↦
                    Monad.◌>>=◌ (trim_ranges w max_mem_ranges fuel scanner'.config)
                      (λ config'. ok (config', not (is_empty config')))
              ])
        ])))
