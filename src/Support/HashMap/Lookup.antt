-- ===== src/Support/HashMap/Lookup.antt =====
-- `HashMap::insert` of src/support/hash_map.rs, seen by `HashMap::find`.
use propeller_kernel.Prelude.{
  ℕ, zero, suc, ◌+◌, ◌≤◌, ◌<◌, ◌≡◌, ◌≢◌, refl, ap, sym, ◌∙◌, Bool, true, false, not, ◌⊎◌, inl, inr,
  Option, none, some, ok, arith, ◌==◌, ==_iff, Bool-cases, length, set, length-set,
}
use propeller_kernel.Prelude.Monad.{load}
use propeller_kernel.Prelude.Access.{lt-load, store_lem, load-set_self, load-set_ne}
use propeller_kernel.Support.HashMap.{
  Eq, Table, make_probe_index, find_loop, insert_loop, find, insert,
}
use propeller_kernel.Support.HashMap.Probe.{Fits, make_probe_index-ok, holds, find_loop-set}

module _ {K V : Type 0} ⦃e : Eq K⦄ where
  -- The slot holds another key.
  abbrev passes : K → Option (K × V) → Bool
  passes key none = false
  passes key (some (k, v)) = not (e.beq k key)

  -- The value is stored in one slot, where a search from the same probe on finds it. The slot was
  -- empty or held the key.
  record IsStored (h : ℕ) (key : K) (value : V) (left i : ℕ) (map : Table K V) : Type 0 where
    map' : Table K V
    runs : insert_loop h key value left i map ≡ ok (map', true)
    found : find_loop h key left i map' ≡ ok (some value)
    idx : ℕ
    old : Option (K × V)
    new : Option (K × V)
    was : load map idx ≡ ok old
    now : map' ≡ set map idx new
    takes : passes key old ≡ false
    old_others : (k : K) → e.beq key k ≡ false → holds k old ≡ false
    new_others : (k : K) → e.beq key k ≡ false → holds k new ≡ false

  module _ (h : ℕ) (key : K) (value : V) where
    module _ (left i : ℕ) (map : Table K V) (idx : ℕ)
        (probe : make_probe_index h i (length map) ≡ ok idx) (inside : idx < length map) where
      find-at :
          (k : K)
          → e.beq k key ≡ true
          → find_loop h key (suc left) i (set map idx (some (k, value))) ≡ ok (some value)
      unfolding find_loop
      find-at k same =
          rw (length-set map idx (some (k, value)), probe)
            (rw (load-set_self map idx (some (k, value)) inside) (rw same refl))

      store-IsStored :
          (slot : Option (K × V))
          → load map idx ≡ ok slot
          → passes key slot ≡ false
          → IsStored h key value (suc left) i map
      unfolding insert_loop
      store-IsStored none at takes = record {
        map' = set map idx (some (key, value));
        runs = rw (probe, at) (rw (store_lem map idx (some (key, value)) inside) refl);
        found = find-at key ((e.beq_iff key key).1 refl);
        idx = idx;
        old = none;
        new = some (key, value);
        was = at;
        now = refl;
        takes = refl;
        old_others = λ k n. refl;
        new_others = λ k n. n;
      }
      store-IsStored (some (k, v)) at takes = record {
        map' = set map idx (some (k, value));
        runs = rw (probe, at) (rw same (rw (store_lem map idx (some (k, value)) inside) refl));
        found = find-at k same;
        idx = idx;
        old = some (k, v);
        new = some (k, value);
        was = at;
        now = refl;
        takes = takes;
        old_others = λ k' n. rw ((e.beq_iff k key).0 same) n;
        new_others = λ k' n. rw ((e.beq_iff k key).0 same) n;
      }
        where
          same : e.beq k key ≡ true
          same = ground (arith, takes)

      -- Past a slot that holds another key.
      skip-IsStored :
          (k : K) (v : V)
          → load map idx ≡ ok (some (k, v))
          → e.beq k key ≡ false
          → IsStored h key value left (i + 1) map
          → IsStored h key value (suc left) i map
      unfolding insert_loop find_loop
      skip-IsStored k v at miss st = record {
        map' = st.map';
        runs = rw (probe, at) (rw miss st.runs);
        found = rw (same_length, probe) (rw kept (rw miss st.found));
        idx = st.idx;
        old = st.old;
        new = st.new;
        was = st.was;
        now = st.now;
        takes = st.takes;
        old_others = st.old_others;
        new_others = st.new_others;
      }
        where
          same_length : length st.map' ≡ length map
          same_length = ap (λ t. length t) st.now ∙ length-set map st.idx st.new

          kept : load st.map' idx ≡ ok (some (k, v))
          kept = elim (Bool-cases (st.idx == idx)) [
            | inl same ↦ absurd (overwrites ((==_iff st.idx idx).0 same))
            | inr other ↦
                ap (λ t. load t idx) st.now
                ∙ (load-set_ne map st.idx idx st.new (λ p. ground (arith, p, other)) ∙ at)
          ]
            where
              overwrites : st.idx ≢ idx
              overwrites p =
                  let o : ok st.old ≡ ok (some (k, v)) =
                    sym st.was ∙ (ap (λ t. load map t) p ∙ at) in
                  let o' : st.old ≡ some (k, v) = cc in cc (ap (passes key) o', st.takes, miss)

    insert_loop-IsStored :
        (left i : ℕ) (map : Table K V)
        → Fits h (length map)
        → i + left ≤ length map
        → (insert_loop h key value left i map ≡ ok (map, false)) ⊎ IsStored h key value left i map
    unfolding insert_loop
    insert_loop-IsStored zero i map fits l = inl refl
    insert_loop-IsStored (suc left) i map fits l =
        let (idx, probe, inside) = make_probe_index-ok h i (length map) fits (omega arith) in
        let (slot, at) = lt-load map idx inside in
        at_slot idx probe inside slot at (insert_loop-IsStored left (i + 1) map fits (omega arith))
      where
        at_slot :
            (idx : ℕ)
            → make_probe_index h i (length map) ≡ ok idx
            → idx < length map
            → (slot : Option (K × V)) → load map idx ≡ ok slot
            → (insert_loop h key value left (i + 1) map ≡ ok (map, false))
              ⊎ IsStored h key value left (i + 1) map
            → (insert_loop h key value (suc left) i map ≡ ok (map, false))
              ⊎ IsStored h key value (suc left) i map
        at_slot idx probe inside none at rest =
            inr (store-IsStored left i map idx probe inside none at refl)
        at_slot idx probe inside (some (k, v)) at rest = elim (Bool-cases (e.beq k key)) [
          | inl same ↦
              inr (store-IsStored left i map idx probe inside (some (k, v)) at (rw same refl))
          | inr miss ↦ elim rest [
            | inl full ↦ inl (rw (probe, at) (rw miss full))
            | inr st ↦ inr (skip-IsStored left i map idx probe inside k v at miss st)
          ]
        ]

    -- Where `insert` finds no place, `find` finds no pair.
    find_loop-full :
        (left i : ℕ) (map map' : Table K V)
        → Fits h (length map)
        → i + left ≤ length map
        → insert_loop h key value left i map ≡ ok (map', false)
        → find_loop h key left i map ≡ ok none
    unfolding find_loop insert_loop
    find_loop-full zero i map map' fits l full = refl
    find_loop-full (suc left) i map map' fits l full =
        let (idx, probe, inside) = make_probe_index-ok h i (length map) fits (omega arith) in
        let (slot, at) = lt-load map idx inside in
        at_slot idx probe inside slot at (find_loop-full left (i + 1) map map' fits (omega arith))
      where
        at_slot :
            (idx : ℕ)
            → make_probe_index h i (length map) ≡ ok idx
            → idx < length map
            → (slot : Option (K × V)) → load map idx ≡ ok slot
            → (insert_loop h key value left (i + 1) map ≡ ok (map', false)
                → find_loop h key left (i + 1) map ≡ ok none)
            → find_loop h key (suc left) i map ≡ ok none
        at_slot idx probe inside none at rest =
            absurd (cc (rw (probe, at, store_lem map idx (some (key, value)) inside) at full))
        at_slot idx probe inside (some (k, v)) at rest = elim (Bool-cases (e.beq k key)) [
          | inl same ↦
              absurd (cc (rw (probe, at, same, store_lem map idx (some (k, value)) inside) at full))
          | inr miss ↦ rw (probe, at) (rw miss (rest (rw (probe, at, miss) at full)))
        ]

  -- `insert` refuses the pair, which changes nothing and happens only when the key is not in the table, or
  -- stores it.
  unfoldable pub Puts : (K → ℕ) → Table K V → K → V → Table K V → Bool → Type 0
  Puts hash map key value map' taken =
      (length map' ≡ length map)
      × (((taken ≡ false) × (map' ≡ map) × (find hash map key ≡ ok none))
          ⊎ ((taken ≡ true)
              × (find hash map' key ≡ ok (some value))
              × ((other : K)
                  → e.beq key other ≡ false
                  → find hash map' other ≡ find hash map other)))

  pub insert-Puts :
      (hash : K → ℕ) (map : Table K V) (key : K) (value : V)
      → Fits (hash key) (length map)
      → (map' : Table K V) × (taken : Bool) × (insert hash map key value ≡ ok (map', taken))
        × Puts hash map key value map' taken
  unfolding insert find Puts
  insert-Puts hash map key value fits =
      elim (insert_loop-IsStored (hash key) key value (length map) 0 map fits (omega arith)) [
        | inl full ↦ (
          map,
          false,
          full,
          (
            refl,
            inl (
              refl,
              refl,
              find_loop-full (hash key) key value (length map) 0 map map fits (omega arith) full,
            ),
          ),
        )
        | inr st ↦
            let same_length : length st.map' ≡ length map =
              ap (λ t. length t) st.now ∙ length-set map st.idx st.new in
            (
              st.map',
              true,
              st.runs,
              (
                same_length,
                inr (
                  refl,
                  rw same_length st.found,
                  λ other ne. rw same_length (
                      rw st.now (
                        find_loop-set (hash other) other (length map) 0 map st.idx st.new st.was
                          (st.old_others other ne) (st.new_others other ne))),
                ),
              ),
            )
      ]

  -- When no probe overflows, `insert` does not panic. Either it refuses the pair and changes nothing, or
  -- it returns true; `find` then gives the value for the key, and for another key what it gave before.
  pub insert-find :
      (hash : K → ℕ) (map : Table K V) (key : K) (value : V) (other : K)
      → Fits (hash key) (length map)
      → e.beq key other ≡ false
      → (insert hash map key value ≡ ok (map, false))
        ⊎ ((map' : Table K V) × (insert hash map key value ≡ ok (map', true))
            × (find hash map' key ≡ ok (some value))
            × (find hash map' other ≡ find hash map other))
  unfolding Puts
  insert-find hash map key value other fits ne =
      let (map', taken, run, put) = insert-Puts hash map key value fits in
      elim put.1 [
        | inl (full, kept, absent) ↦ inl (rw (full, kept) at run)
        | inr (stored, found, others) ↦ inr (map', rw stored at run, found, others other ne)
      ]

  -- When no probe overflows, `insert` does not panic, and the table keeps its slots.
  pub insert-length :
      (hash : K → ℕ) (map : Table K V) (key : K) (value : V)
      → Fits (hash key) (length map)
      → (map' : Table K V) × (taken : Bool) × (insert hash map key value ≡ ok (map', taken))
        × (length map' ≡ length map)
  unfolding Puts
  insert-length hash map key value fits =
      let (map', taken, run, put) = insert-Puts hash map key value fits in (map', taken, run, put.0)
