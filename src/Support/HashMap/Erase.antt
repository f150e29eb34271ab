-- ===== src/Support/HashMap/Erase.antt =====
-- `HashMap::erase` of src/support/hash_map.rs beside `HashMap::find`.
use propeller_kernel.Prelude.{
  ℕ, zero, suc, ◌+◌, ◌≤◌, ◌≡◌, refl, ◌∙◌, true, false, ◌⊎◌, inl, inr, Option, none, some, ok, arith,
  Bool-cases, length, set, length-set,
}
use propeller_kernel.Prelude.Monad.{load}
use propeller_kernel.Prelude.Access.{lt-load, load-lt, store_lem}
use propeller_kernel.Support.HashMap.{
  Eq, Table, make_probe_index, find_loop, erase_loop, find, erase, clear, clear_loop,
}
use propeller_kernel.Support.HashMap.Probe.{Fits, make_probe_index-ok, holds, find_loop-set}

module _ {K V : Type 0} ⦃e : Eq K⦄ (h : ℕ) (key : K) where
  -- The slot that a search finds is cleared.
  record IsCleared (left i : ℕ) (map : Table K V) : Type 0 where
    value : V
    found : find_loop h key left i map ≡ ok (some value)
    idx : ℕ
    old : Option (K × V)
    was : load map idx ≡ ok old
    runs : erase_loop h key left i map ≡ ok (set map idx none, true)
    old_others : (k : K) → e.beq key k ≡ false → holds k old ≡ false

  abbrev Erases : ℕ → ℕ → Table K V → Type 0
  Erases left i map =
      ((find_loop h key left i map ≡ ok none) × (erase_loop h key left i map ≡ ok (map, false)))
      ⊎ IsCleared left i map

  -- One step at a slot, given what the rest of the search does.
  step-Erases :
      (left i : ℕ) (map : Table K V) (idx : ℕ) (slot : Option (K × V))
      → make_probe_index h i (length map) ≡ ok idx
      → load map idx ≡ ok slot
      → Erases left (i + 1) map
      → Erases (suc left) i map
  unfolding find_loop erase_loop
  step-Erases left i map idx none probe at (inl (absent, runs)) =
      inl (rw (probe, at) absent, rw (probe, at) runs)
  step-Erases left i map idx none probe at (inr c) = inr (record {
    value = c.value;
    found = rw (probe, at) c.found;
    idx = c.idx;
    old = c.old;
    was = c.was;
    runs = rw (probe, at) c.runs;
    old_others = c.old_others;
  })
  step-Erases left i map idx (some (k, v)) probe at rest = elim (Bool-cases (e.beq k key)) [
    | inl same ↦ inr (record {
      value = v;
      found = rw (probe, at) (rw same refl);
      idx = idx;
      old = some (k, v);
      was = at;
      runs = rw (probe, at) (rw same (rw (store_lem map idx none (load-lt map idx at)) refl));
      old_others = λ k' n. rw ((e.beq_iff k key).0 same) n;
    })
    | inr miss ↦ elim rest [
      | inl absent ↦ inl (rw (probe, at) (rw miss (absent.0)), rw (probe, at) (rw miss (absent.1)))
      | inr c ↦ inr (record {
        value = c.value;
        found = rw (probe, at) (rw miss c.found);
        idx = c.idx;
        old = c.old;
        was = c.was;
        runs = rw (probe, at) (rw miss c.runs);
        old_others = c.old_others;
      })
    ]
  ]

  loop-Erases :
      (left i : ℕ) (map : Table K V)
      → Fits h (length map)
      → i + left ≤ length map
      → Erases left i map
  unfolding find_loop erase_loop
  loop-Erases zero i map fits l = inl (refl, refl)
  loop-Erases (suc left) i map fits l =
      let (idx, probe, inside) = make_probe_index-ok h i (length map) fits (omega arith) in
      let (slot, at) = lt-load map idx inside in
      step-Erases left i map idx slot probe at (loop-Erases left (i + 1) map fits (omega arith))

-- When no probe overflows, `erase` does not panic. It returns false and changes nothing when `find` finds
-- nothing for the key; it returns true when `find` finds a value, and `find` for another key then gives
-- what it gave before.
pub erase-find :
    {K V : Type 0} ⦃e : Eq K⦄ (hash : K → ℕ) (map : Table K V) (key other : K)
    → Fits (hash key) (length map)
    → e.beq key other ≡ false
    → ((find hash map key ≡ ok none) × (erase hash map key ≡ ok (map, false)))
      ⊎ ((value : V) × (map' : Table K V) × (find hash map key ≡ ok (some value))
          × (erase hash map key ≡ ok (map', true))
          × (find hash map' other ≡ find hash map other))
unfolding find erase
erase-find hash map key other fits ne =
    elim (loop-Erases (hash key) key (length map) 0 map fits (omega arith)) [
      | inl absent ↦ inl absent
      | inr c ↦ inr (
        c.value,
        set map c.idx none,
        c.found,
        c.runs,
        rw (length-set map c.idx none) (
            find_loop-set (hash other) other (length map) 0 map c.idx none c.was
              (c.old_others other ne) refl),
      )
    ]

clear_loop-length :
    {K V : Type 0} (left i : ℕ) (map : Table K V)
    → i + left ≤ length map
    → (map' : Table K V) × (clear_loop left i map ≡ ok map') × (length map' ≡ length map)
unfolding clear_loop
clear_loop-length zero i map h = (map, refl, refl)
clear_loop-length (suc left) i map h =
    let (map', run, same) =
      clear_loop-length left (i + 1) (set map i none) (omega (arith, h, length-set map i none)) in
    (map', rw (store_lem map i none (omega arith)) run, same ∙ length-set map i none)

-- `clear` does not panic, and the table keeps its slots.
pub clear-length :
    {K V : Type 0} (map : Table K V)
    → (map' : Table K V) × (clear map ≡ ok map') × (length map' ≡ length map)
unfolding clear
clear-length map = clear_loop-length (length map) 0 map (omega arith)
