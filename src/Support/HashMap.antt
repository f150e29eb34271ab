-- ===== src/Support/HashMap.antt =====
-- src/support/hash_map.rs: a fixed-size hash table with quadratic probing. The hash of a key, which the
-- source computes with the hasher that it is given, is a parameter.
pub mod Probe
pub mod Lookup
pub mod Erase
pub mod Keys
pub mod Empty
use propeller_kernel.Prelude.{
  ℕ, zero, suc, ◌+◌, ◌≡◌, ◌↔◌, Bool, true, false, Option, none, some, List, Run, ok, if◌then◌else◌,
  length, replicate,
}
use propeller_kernel.Prelude.Monad.{◌>>=◌, add, mul, load, store, rem}

-- `core::cmp::Eq`.
pub record Eq (K : Type 0) : Type 0 where
  pub beq : K → K → Bool
  pub beq_iff : (a b : K) → (beq a b ≡ true) ↔ (a ≡ b)

-- The calculation is in `u64`.
unfoldable pub make_probe_index : ℕ → ℕ → ℕ → Run ℕ
make_probe_index h i m = do square ← mul 64 i i; sum ← add 64 h square; rem sum m

-- The array `map`; its length is `N`.
abbrev pub Table : Type 0 → Type 0 → Type 0
Table K V = List (Option (K × V))

unfoldable pub new : {K V : Type 0} → ℕ → Table K V
new n = replicate n none

module _ {K V : Type 0} ⦃e : Eq K⦄ where
  -- The loop of `insert` with `left` probes to go from probe `i`.
  unfoldable pub insert_loop : ℕ → K → V → ℕ → ℕ → Table K V → Run (Table K V × Bool)
  insert_loop h key value zero i map = ok (map, false)
  insert_loop h key value (suc left) i map = do
    idx ← make_probe_index h i (length map)
    slot ← load map idx
    elim slot [
      | none ↦ do map' ← store map idx (some (key, value)); ok (map', true)
      | some (k, v) ↦
          let rest = insert_loop h key value left (i + 1) map in
          if e.beq k key then (do map' ← store map idx (some (k, value)); ok (map', true)) else rest
    ]

  unfoldable pub find_loop : ℕ → K → ℕ → ℕ → Table K V → Run (Option V)
  find_loop h key zero i map = ok none
  find_loop h key (suc left) i map = do
    idx ← make_probe_index h i (length map)
    slot ← load map idx
    let rest = find_loop h key left (i + 1) map
    elim slot [ none ↦ rest | some (k, v) ↦ if e.beq k key then ok (some v) else rest ]

  unfoldable pub erase_loop : ℕ → K → ℕ → ℕ → Table K V → Run (Table K V × Bool)
  erase_loop h key zero i map = ok (map, false)
  erase_loop h key (suc left) i map = do
    idx ← make_probe_index h i (length map)
    slot ← load map idx
    let rest = erase_loop h key left (i + 1) map
    elim slot [
      | none ↦ rest
      | some (k, v) ↦ if e.beq k key then (do map' ← store map idx none; ok (map', true)) else rest
    ]

  module _ (hash : K → ℕ) where
    unfoldable pub insert : Table K V → K → V → Run (Table K V × Bool)
    insert map key value = insert_loop (hash key) key value (length map) 0 map

    unfoldable pub find : Table K V → K → Run (Option V)
    find map key = find_loop (hash key) key (length map) 0 map

    unfoldable pub erase : Table K V → K → Run (Table K V × Bool)
    erase map key = erase_loop (hash key) key (length map) 0 map

-- The loop of `clear` with `left` slots to go from slot `i`.
unfoldable pub clear_loop : {K V : Type 0} → ℕ → ℕ → Table K V → Run (Table K V)
clear_loop zero i map = ok map
clear_loop (suc left) i map = do map' ← store map i none; clear_loop left (i + 1) map'

unfoldable pub clear : {K V : Type 0} → Table K V → Run (Table K V)
clear map = clear_loop (length map) 0 map
