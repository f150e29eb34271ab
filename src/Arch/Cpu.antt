-- ===== src/Arch/Cpu.antt =====
-- src/arch/common/cpu.rs: the cores of the machine. `w` is the number of bits of `usize`, on which the
-- limits depend; `hash` is the hash of a core's identifier.
pub mod Cores
pub mod Search
pub mod Index
use propeller_kernel.Prelude.{
  ℕ, zero, suc, ◌+◌, Bool, true, false, Option, none, some, List, [], Run, ok, panic, ltb, leb,
  ◌==◌, if◌then◌else◌, length, take, replicate,
}
use propeller_kernel.Prelude.Monad.{◌>>=◌, add, load, store}
use propeller_kernel.Support.HashMap.{Eq, Table, insert, find}
use propeller_kernel.Support.HashMap
use propeller_kernel.Support.HashMap.Keys.{id_eq}

-- `MAX_CORES`
abbrev pub max_cores : ℕ → ℕ
max_cores w = if w == 64 then 256 else 16

abbrev pub core_type_len : ℕ
core_type_len = 64

-- `CORE_MAP_SIZE`
abbrev pub core_map_size : ℕ → ℕ
core_map_size w = if w == 64 then 389 else 29

pub data CoreEnableMethod : Type 0 where
  invalid : CoreEnableMethod
  spin_table : CoreEnableMethod
  bcm2836 : CoreEnableMethod

pub record Core : Type 0 where
  pub id : ℕ
  pub core_type : List ℕ
  pub enable_method : CoreEnableMethod
  pub release_addr : ℕ

-- `Core::new`
unfoldable pub empty_core : Core
empty_core = record {
  id = 0;
  core_type = replicate core_type_len 0;
  enable_method = invalid;
  release_addr = 0;
}

abbrev pub IdMap : Type 0
IdMap = Table ℕ ℕ

pub record CoreConfig : Type 0 where
  pub cores : List Core
  pub core_count : ℕ
  pub id_map : IdMap

unfoldable pub new : ℕ → CoreConfig
new w = record {
  cores = replicate (max_cores w) empty_core;
  core_count = 0;
  id_map = HashMap.new (core_map_size w);
}

-- The loop of `clear` on the map of the identifiers.
unfoldable pub reset : CoreConfig → Run CoreConfig
reset c = do map ← HashMap.clear c.id_map; ok (record c { core_count = 0; id_map = map })

unfoldable pub get_core_count : CoreConfig → ℕ
get_core_count c = c.core_count

unfoldable pub get_cores : CoreConfig → Run (List Core)
get_cores c = if leb c.core_count (length c.cores) then ok (take c.core_count c.cores) else panic

-- `slice::swap`
unfoldable pub swap {ℓ} : {A : Type ℓ} → List A → ℕ → ℕ → Run (List A)
swap xs i j = do a ← load xs i; b ← load xs j; xs' ← store xs i b; store xs' j a

-- The search among the first cores, with `left` to look at from index `i`.
unfoldable pub find_core : ℕ → ℕ → List Core → ℕ → Run (Option ℕ)
find_core id zero cores i = ok none
find_core id (suc left) cores i = do
  core ← load cores i
  let rest = find_core id left cores (i + 1)
  if core.id == id then ok (some i) else rest

module _ (w : ℕ) (hash : ℕ → ℕ) where
  -- The primary core takes index zero; the core that was there takes the new index. Whether the map
  -- takes an identifier is ignored.
  unfoldable pub move_primary : Bool → ℕ → List Core → IdMap → Run (List Core × IdMap)
  move_primary false count cores map = ok (cores, map)
  move_primary true count cores map = do
    first ← load cores 0
    (map1, moved) ← insert hash map first.id count
    added ← load cores count
    (map2, placed) ← insert hash map1 added.id 0
    cores' ← swap cores 0 count
    ok (cores', map2)

  unfoldable pub add_core : CoreConfig → Core → Bool → Run (CoreConfig × Bool)
  add_core c core is_primary = if leb (max_cores w) c.core_count then ok (c, false) else do
    (map, inserted) ← insert hash c.id_map core.id c.core_count
    cores ← store c.cores c.core_count core
    (cores', map') ← move_primary is_primary c.core_count cores map
    count ← add w c.core_count 1
    ok (record { cores = cores'; core_count = count; id_map = map' }, true)

  unfoldable pub get_core_index : CoreConfig → ℕ → Run (Option ℕ)
  get_core_index c id =
      if leb c.core_count 32 then find_core id c.core_count c.cores 0 else find hash c.id_map id
