-- ===== src/Arch/Cpu/Index.antt =====
-- `CoreConfig::add_core` of src/arch/common/cpu.rs beside `get_core_index`, with the map of the identifiers.
use mathlib.Core.Path.{subst}
use propeller_kernel.Prelude.{
  ℕ, suc, ◌^◌, ◌<◌, ◌≡◌, refl, ap, ◌∙◌, sym, ◌⊎◌, Bool, true, false, inl, inr, Bool-cases, Option,
  none, some, List, [], ◌∷◌, ◌++◌, ok, arith, leb, ◌==◌, ==_iff, length, replicate,
  length-replicate,
}
use propeller_kernel.Support.HashMap.{find, insert}
use propeller_kernel.Support.HashMap
use propeller_kernel.Support.HashMap.Keys.{id_eq, id_eq-beq}
use propeller_kernel.Support.HashMap.Lookup.{Puts, insert-Puts}
use propeller_kernel.Support.HashMap.Empty.{find-new}
use propeller_kernel.Arch.Cpu.{
  Core, CoreConfig, IdMap, max_cores, core_map_size, add_core, get_core_index, new, empty_core,
}
use propeller_kernel.Arch.Cpu.Cores.{
  IsCores, arrange, length-arrange, id_map-Fits, Reindexes, add_core-Inserts,
}
use propeller_kernel.Arch.Cpu.Search.{
  index_of, get_core_index-index_of, AllOther, index_of-append_self, index_of-append_other,
}

-- No two cores have the same identifier.
abbrev pub AllDistinct : List Core → Type 0
AllDistinct [] = Unit
AllDistinct (x ∷ xs) = AllOther x.id xs × AllDistinct xs

==_sym : (a b : ℕ) → (a == b) ≡ false → (b == a) ≡ false
==_sym a b h = ground (arith, h)

AllOther-append :
    (id : ℕ) (core : Core) (xs : List Core)
    → AllOther id xs
    → (core.id == id) ≡ false
    → AllOther id (xs ++ (core ∷ []))
AllOther-append id core [] h n = (n, tt)
AllOther-append id core (x ∷ xs) (h, hs) n = (h, AllOther-append id core xs hs n)

AllDistinct-append :
    (core : Core) (xs : List Core)
    → AllDistinct xs
    → AllOther core.id xs
    → AllDistinct (xs ++ (core ∷ []))
AllDistinct-append core [] d h = (tt, tt)
AllDistinct-append core (x ∷ xs) (h, d) (n, hs) =
    (AllOther-append x.id core xs h (==_sym x.id core.id n), AllDistinct-append core xs d hs)

AllDistinct-arrange :
    (primary : Bool) (core : Core) (xs : List Core)
    → AllDistinct xs
    → AllOther core.id xs
    → AllDistinct (arrange primary core xs)
unfolding arrange
AllDistinct-arrange false core xs d h = AllDistinct-append core xs d h
AllDistinct-arrange true core [] d h = (tt, tt)
AllDistinct-arrange true core (x ∷ xs) (h, d) (n, hs) =
    (AllOther-append core.id x xs hs n, AllDistinct-append x xs d h)

module _ (w : ℕ) (hash : ℕ → ℕ) (small : (k : ℕ) → hash k < 2 ^ 32) where
  -- The map gives each identifier the index of its core.
  abbrev pub Agrees : IdMap → List Core → Type 0
  Agrees map xs = (id : ℕ) → find hash map id ≡ ok (index_of id 0 xs)

  abbrev Stores : IdMap → ℕ → ℕ → IdMap → Type 0
  Stores map k v map' =
      (length map' ≡ core_map_size w)
      × (find hash map' k ≡ ok (some v))
      × ((other : ℕ) → (k == other) ≡ false → find hash map' other ≡ find hash map other)

  insert-cases :
      (map map' : IdMap) (k v : ℕ) (taken : Bool)
      → length map ≡ core_map_size w
      → insert hash map k v ≡ ok (map', taken)
      → ((insert hash map k v ≡ ok (map, false)) × (find hash map k ≡ ok none))
        ⊎ Stores map k v map'
  unfolding Puts
  insert-cases map map' k v taken n run =
      let (m, t, run', put) = insert-Puts hash map k v (rw n (id_map-Fits w hash k (small k))) in
      let same : m ≡ map' = cc in
      elim put.1 [
        | inl (full, kept, absent) ↦ inl (rw (full, kept) at run', absent)
        | inr (stored, found, others) ↦ inr (
          ap (λ t. length t) (sym same) ∙ (put.0 ∙ n),
          rw same at found,
          λ other h. rw same at (others other (id_eq-beq k other ∙ h)),
        )
      ]

  -- The value of an identifier that is in the map is replaced.
  insert-present :
      (map map' : IdMap) (k v old : ℕ) (taken : Bool)
      → length map ≡ core_map_size w
      → find hash map k ≡ ok (some old)
      → insert hash map k v ≡ ok (map', taken)
      → Stores map k v map'
  insert-present map map' k v old taken n present run =
      elim (insert-cases map map' k v taken n run) [
        | inl (full, absent) ↦ absurd (cc)
        | inr st ↦ st
      ]

  Agrees-append :
      (map map' : IdMap) (core : Core) (xs : List Core)
      → Agrees map xs
      → AllOther core.id xs
      → Stores map core.id (length xs) map'
      → Agrees map' (xs ++ (core ∷ []))
  Agrees-append map map' core xs agrees fresh (n, found, others) id =
      elim (Bool-cases (core.id == id)) [
        | inl same ↦
            subst (λ t. find hash map' t ≡ ok (index_of t 0 (xs ++ (core ∷ []))))
              ((==_iff core.id id).0 same)
              (found ∙ ap ok (sym (index_of-append_self core xs 0 fresh ∙ ap some (omega arith))))
        | inr other ↦
            others id other ∙ (agrees id ∙ ap ok (sym (index_of-append_other id core xs 0 other)))
      ]

  -- The primary core takes index zero, and the core that was there the last one.
  Agrees-arrange :
      (primary : Bool) (core : Core) (xs : List Core) (map map1 map' : IdMap)
      → Agrees map xs
      → AllDistinct xs
      → AllOther core.id xs
      → Stores map core.id (length xs) map1
      → Reindexes w hash small primary core xs map1 map'
      → Agrees map' (arrange primary core xs)
  unfolding arrange
  Agrees-arrange false core xs map map1 map' agrees d fresh st kept id =
      rw kept (Agrees-append map map1 core xs agrees fresh st id)
  Agrees-arrange true core [] map map1 map' agrees d fresh (n1, found1, others1)
        (map2, t2, t3, run2, run3) id =
      let (n2, found2, others2) = insert-present map1 map2 core.id 0 0 t2 n1 found1 run2 in
      let (n3, found3, others3) = insert-present map2 map' core.id 0 0 t3 n2 found2 run3 in
      elim (Bool-cases (core.id == id)) [
        | inl same ↦
            rw same
              (subst (λ t. find hash map' t ≡ ok (some 0)) ((==_iff core.id id).0 same) found3)
        | inr other ↦
            rw other (others3 id other ∙ (others2 id other ∙ (others1 id other ∙ agrees id)))
      ]
  Agrees-arrange true core (x ∷ xs) map map1 map' agrees (dx, d) (nx, fresh) (n1, found1, others1)
        (map2, t2, t3, run2, run3) id =
      let there : find hash map1 x.id ≡ ok (some 0) =
        others1 x.id (==_sym x.id core.id nx)
        ∙ (agrees x.id ∙ rw ((==_iff x.id x.id).1 refl) refl) in
      let (n2, found2, others2) =
        insert-present map1 map2 x.id (suc (length xs)) 0 t2 n1 there run2 in
      let (n3, found3, others3) =
        insert-present map2 map' core.id 0 (suc (length xs)) t3 n2 (others2 core.id nx ∙ found1)
          run3 in
      elim (Bool-cases (core.id == id)) [
        | inl same ↦
            rw same
              (subst (λ t. find hash map' t ≡ ok (some 0)) ((==_iff core.id id).0 same) found3)
        | inr other ↦ rw other (
            others3 id other ∙ elim (Bool-cases (x.id == id)) [
              | inl moved ↦
                  subst (λ t. find hash map2 t ≡ ok (index_of t 1 (xs ++ (x ∷ []))))
                    ((==_iff x.id id).0 moved)
                    (found2 ∙ ap ok (sym (index_of-append_self x xs 1 dx ∙ ap some (omega arith))))
              | inr kept ↦
                  others2 id kept
                  ∙ (others1 id other
                      ∙ (agrees id ∙ rw kept (ap ok (sym (index_of-append_other id x xs 1 kept)))))
            ])
      ]

  -- The configuration holds these cores, each with an identifier of its own, and the map gives the index
  -- of each.
  pub record IsIndexed (c : CoreConfig) (xs : List Core) : Type 0 where
    pub cores : IsCores w c xs
    pub distinct : AllDistinct xs
    pub agrees : Agrees c.id_map xs

  -- A configuration with no core and an empty map.
  pub new-IsIndexed : IsIndexed (new w) []
  unfolding new HashMap.new
  new-IsIndexed = record {
    cores = record {
      spare = replicate (max_cores w) empty_core;
      slots = refl;
      size = omega (arith, length-replicate (max_cores w) empty_core);
      used = refl;
      map_size = length-replicate {A = Option (ℕ × ℕ)} (core_map_size w) none;
    };
    distinct = tt;
    agrees = λ id. find-new hash id (core_map_size w) (id_map-Fits w hash id (small id));
  }

  -- Of an indexed configuration the search gives the index of any core, whether it uses the map or not.
  get_core_index-IsIndexed :
      (c : CoreConfig) (xs : List Core) (id : ℕ)
      → IsIndexed c xs
      → get_core_index w hash c id ≡ ok (index_of id 0 xs)
  unfolding get_core_index
  get_core_index-IsIndexed c xs id v = elim (Bool-cases (leb c.core_count 32)) [
    | inl few ↦ get_core_index-index_of w hash c id v.cores (ground (arith, few, v.cores.used))
    | inr many ↦ rw many (v.agrees id)
  ]

  -- With hashes of 32 bits and words that hold the number of cores, let each core of a configuration
  -- have an identifier of its own and the map give its index. With a free slot, a core with an
  -- identifier that no core has is added at its place: the primary core takes index zero, and the core
  -- that was there the last one; any other core takes the last one. Either the map gives the index of
  -- each core then, and the search gives for every identifier the index of its core, the displaced one
  -- included, or nothing where there is none. Or the map has no place for the new identifier; the
  -- search gives the same then if there were fewer than 32 cores.
  pub add_core-get_core_index :
      (word : max_cores w < 2 ^ w) (c : CoreConfig) (core : Core) (primary : Bool) (xs : List Core)
      → IsIndexed c xs
      → length xs < max_cores w
      → AllOther core.id xs
      → (c' : CoreConfig) × (add_core w hash c core primary ≡ ok (c', true))
        × IsCores w c' (arrange primary core xs)
        × ((IsIndexed c' (arrange primary core xs)
              × ((id : ℕ)
                  → get_core_index w hash c' id ≡ ok (index_of id 0 (arrange primary core xs))))
            ⊎ ((insert hash c.id_map core.id (length xs) ≡ ok (c.id_map, false))
                × (length xs < 32
                    → (id : ℕ)
                    → get_core_index w hash c' id ≡ ok (index_of id 0 (arrange primary core xs)))))
  add_core-get_core_index word c core primary xs v room fresh =
      let (c', run, v', (map, taken, inserted, reindexed)) =
        add_core-Inserts w hash small word c core primary v.cores room in
      (
        c',
        run,
        v',
        elim (insert-cases c.id_map map core.id (length xs) taken v.cores.map_size inserted) [
          | inl full ↦ inr (
            full.0,
            λ few id.
                get_core_index-index_of w hash c' id v'
                  (omega (arith, few, length-arrange primary core xs)),
          )
          | inr stored ↦
              let indexed : IsIndexed c' (arrange primary core xs) = record {
                cores = v';
                distinct = AllDistinct-arrange primary core xs v.distinct fresh;
                agrees =
                    Agrees-arrange primary core xs c.id_map map c'.id_map v.agrees v.distinct fresh
                      stored reindexed;
              } in
              inl (indexed, λ id. get_core_index-IsIndexed c' (arrange primary core xs) id indexed)
        ],
      )
