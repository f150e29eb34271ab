-- ===== src/Arch/Cpu/Cores.antt =====
-- The cores that a `CoreConfig` of src/arch/common/cpu.rs holds, as a list.
use mathlib.Core.List.{append_assoc}
use propeller_kernel.Prelude.{
  ℕ, suc, ◌+◌, ◌^◌, ◌≤◌, ◌<◌, ◌≡◌, refl, ap, ◌∙◌, sym, Bool, true, false, inl, inr, Bool-cases,
  List, [], ◌∷◌, ◌++◌, ok, arith, leb-false, le→leb, lt→ltb, ◌==◌, length, length-append,
}
use propeller_kernel.Support.HashMap.{insert}
use propeller_kernel.Support.HashMap.Keys.{id_eq}
use propeller_kernel.Support.HashMap.Probe.{Fits}
use propeller_kernel.Support.HashMap.Lookup.{insert-length}
use propeller_kernel.Support.RangeSet.Slots.{load-append, store-append}
use propeller_kernel.Arch.Cpu.{
  Core, CoreConfig, IdMap, max_cores, core_map_size, swap, move_primary, add_core,
}

-- The first `core_count` slots hold `xs`, and the map has its slots.
pub record IsCores (w : ℕ) (c : CoreConfig) (xs : List Core) : Type 0 where
  pub spare : List Core
  pub slots : c.cores ≡ xs ++ spare
  pub size : length xs + length spare ≡ max_cores w
  pub used : c.core_count ≡ length xs
  pub map_size : length c.id_map ≡ core_map_size w

-- The primary core goes to the front, and the core that was there to the end.
unfoldable pub arrange : Bool → Core → List Core → List Core
arrange false core xs = xs ++ (core ∷ [])
arrange true core [] = core ∷ []
arrange true core (x ∷ xs) = core ∷ (xs ++ (x ∷ []))

pub length-arrange :
    (primary : Bool) (core : Core) (xs : List Core)
    → length (arrange primary core xs) ≡ suc (length xs)
unfolding arrange
length-arrange false core xs = length-append xs (core ∷ []) ∙ omega arith
length-arrange true core [] = refl
length-arrange true core (x ∷ xs) = ap suc (length-append xs (x ∷ []) ∙ omega arith)

swap-first :
    {A : Type 0} (x y : A) (xs ys : List A)
    → swap (x ∷ (xs ++ (y ∷ ys))) 0 (suc (length xs)) ≡ ok (y ∷ (xs ++ (x ∷ ys)))
unfolding swap
swap-first x y xs ys =
    rw
      (
        load-append [] (xs ++ (y ∷ ys)) x 0 refl,
        load-append (x ∷ xs) ys y (suc (length xs)) refl,
        store-append [] (xs ++ (y ∷ ys)) x y 0 refl,
        store-append (y ∷ xs) ys y x (suc (length xs)) refl,
      )
      refl

swap_self : {A : Type 0} (x : A) (ys : List A) → swap (x ∷ ys) 0 0 ≡ ok (x ∷ ys)
unfolding swap
swap_self x ys =
    rw (load-append [] ys x 0 refl, store-append [] ys x x 0 refl, store-append [] ys x x 0 refl)
      refl

pub id_map-Fits : (w : ℕ) (hash : ℕ → ℕ) (k : ℕ) → hash k < 2 ^ 32 → Fits (hash k) (core_map_size w)
id_map-Fits w hash k h = elim (Bool-cases (w == 64)) [
  | inl wide ↦ rw wide (record { some_slot = omega arith; no_overflow = omega arith })
  | inr narrow ↦ rw narrow (record { some_slot = omega arith; no_overflow = omega arith })
]

module _ (w : ℕ) (hash : ℕ → ℕ) (small : (k : ℕ) → hash k < 2 ^ 32) where
  insert-ok :
      (map : IdMap) (k v : ℕ)
      → length map ≡ core_map_size w
      → (map' : IdMap) × (taken : Bool) × (insert hash map k v ≡ ok (map', taken))
        × (length map' ≡ core_map_size w)
  insert-ok map k v n =
      let (map', taken, run, same) =
        insert-length hash map k v (rw n (id_map-Fits w hash k (small k))) in
      (map', taken, run, same ∙ n)

  -- The insertions with which the primary core takes index zero and the core that was there moves to
  -- the end.
  abbrev pub Reindexes : Bool → Core → List Core → IdMap → IdMap → Type 0
  Reindexes false core xs map map' = map' ≡ map
  Reindexes true core [] map map' =
      (map1 : IdMap) × (t1 : Bool) × (t2 : Bool) × (insert hash map core.id 0 ≡ ok (map1, t1))
      × (insert hash map1 core.id 0 ≡ ok (map', t2))
  Reindexes true core (x ∷ xs) map map' =
      (map1 : IdMap) × (t1 : Bool) × (t2 : Bool) × (insert hash map x.id (suc (length xs))
        ≡ ok (map1, t1))
      × (insert hash map1 core.id 0 ≡ ok (map', t2))

  -- The cores are moved; the map keeps its slots.
  record Moves (primary : Bool) (core : Core) (xs spare : List Core) (map : IdMap) : Type 0 where
    map' : IdMap
    runs :
        move_primary w hash primary (length xs) (xs ++ (core ∷ spare)) map
        ≡ ok (arrange primary core xs ++ spare, map')
    same : length map' ≡ core_map_size w
    reindexes : Reindexes primary core xs map map'

  move_primary-Moves :
      (primary : Bool) (core : Core) (xs spare : List Core) (map : IdMap)
      → length map ≡ core_map_size w
      → Moves primary core xs spare map
  unfolding move_primary arrange
  move_primary-Moves false core xs spare map n = record {
    map' = map;
    runs = ap (λ t. ok (t, map)) (sym (append_assoc xs (core ∷ []) spare));
    same = n;
    reindexes = refl;
  }
  move_primary-Moves true core [] spare map n =
      let (map1, t1, run1, n1) = insert-ok map core.id 0 n in
      let (map2, t2, run2, n2) = insert-ok map1 core.id 0 n1 in
      record {
        map' = map2;
        runs = rw (load-append [] spare core 0 refl, run1) (rw (run2, swap_self core spare) refl);
        same = n2;
        reindexes = (map1, t1, t2, run1, run2);
      }
  move_primary-Moves true core (x ∷ xs) spare map n =
      let (map1, t1, run1, n1) = insert-ok map x.id (suc (length xs)) n in
      let (map2, t2, run2, n2) = insert-ok map1 core.id 0 n1 in
      record {
        map' = map2;
        runs =
            rw (load-append [] (xs ++ (core ∷ spare)) x 0 refl, run1)
              (rw
                (
                  load-append (x ∷ xs) spare core (suc (length xs)) refl,
                  run2,
                  swap-first x core xs spare,
                )
                (ap (λ t. ok (core ∷ t, map2)) (sym (append_assoc xs (x ∷ []) spare))));
        same = n2;
        reindexes = (map1, t1, t2, run1, run2);
      }

  module _ (word : max_cores w < 2 ^ w) (c : CoreConfig) (core : Core) (primary : Bool)
      {xs : List Core} (v : IsCores w c xs) where
    -- The insertions of `add_core` into the map of the identifiers.
    abbrev pub Inserts : IdMap → Type 0
    Inserts map' =
        (map : IdMap) × (taken : Bool) × (insert hash c.id_map core.id (length xs)
          ≡ ok (map, taken))
        × Reindexes primary core xs map map'

    -- A core is added at its place in the list, by these insertions.
    pub add_core-Inserts :
        length xs < max_cores w
        → (c' : CoreConfig) × (add_core w hash c core primary ≡ ok (c', true))
          × IsCores w c' (arrange primary core xs)
          × Inserts c'.id_map
    unfolding add_core
    add_core-Inserts room = added v.spare v.slots v.size room
      where
        added :
            (spare : List Core)
            → c.cores ≡ xs ++ spare
            → length xs + length spare ≡ max_cores w
            → length xs < max_cores w
            → (c' : CoreConfig) × (add_core w hash c core primary ≡ ok (c', true))
              × IsCores w c' (arrange primary core xs)
              × Inserts c'.id_map
        added [] e n room = absurd (omega arith)
        added (y ∷ sp) e n room =
            let (map, taken, run, kept) = insert-ok c.id_map core.id (length xs) v.map_size in
            let moves = move_primary-Moves primary core xs sp map kept in
            (
              record {
                cores = arrange primary core xs ++ sp;
                core_count = length xs + 1;
                id_map = moves.map';
              },
              rw v.used (
                  rw
                    (
                      leb-false (max_cores w) (length xs) room,
                      run,
                      e,
                      store-append xs sp y core (length xs) refl,
                      moves.runs,
                      lt→ltb (length xs + 1) (2 ^ w) (omega (arith, word, room)),
                    )
                    refl),
              record {
                spare = sp;
                slots = refl;
                size = omega (arith, length-arrange primary core xs, n);
                used = omega (arith, length-arrange primary core xs);
                map_size = moves.same;
              },
              (map, taken, run, moves.reindexes),
            )

    -- A full configuration refuses the core. Otherwise it is added: the primary core at index zero, with
    -- the core that was there moved to the end, any other core at the end.
    pub add_core-arrange :
        (length xs < max_cores w
          → (c' : CoreConfig) × (add_core w hash c core primary ≡ ok (c', true))
            × IsCores w c' (arrange primary core xs))
        × (max_cores w ≤ length xs → add_core w hash c core primary ≡ ok (c, false))
    unfolding add_core
    add_core-arrange = (
      λ room. let (c', run, v', inserts) = add_core-Inserts room in (c', run, v'),
      λ full. rw (le→leb (max_cores w) c.core_count (omega (arith, v.used, full))) refl,
    )
