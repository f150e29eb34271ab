-- ===== src/Examples/Tables.antt =====
-- The hash table of src/support/hash_map.rs with five slots.
use propeller_kernel.Prelude.{
  ℕ, ◌%◌, ◌≡◌, refl, true, false, ◌⊎◌, none, some, [], ◌∷◌, ok, arith, ◌==◌, ==_iff,
}
use propeller_kernel.Prelude.Monad.{◌>>=◌, load, store}
use propeller_kernel.Support.HashMap.{
  Eq, Table, make_probe_index, find_loop, insert_loop, erase_loop, find, insert, erase,
}
use propeller_kernel.Support.HashMap.Probe.{Fits}
use propeller_kernel.Support.HashMap.Lookup.{insert-find}
use propeller_kernel.Support.HashMap.Erase.{erase-find}

instance number_eq : Eq ℕ
number_eq = record { beq = ◌==◌; beq_iff = λ a b. ((==_iff a b).0, (==_iff a b).1) }

abbrev hash : ℕ → ℕ
hash key = key % 5

abbrev table : Table ℕ ℕ
table = some (5, 50) ∷ some (10, 100) ∷ none ∷ none ∷ none ∷ []

table-Fits : Fits (hash 10) 5
table-Fits = record { some_slot = omega arith; no_overflow = omega arith }

insert-find_example :
    (insert hash table 10 7 ≡ ok (table, false))
    ⊎ ((map' : Table ℕ ℕ) × (insert hash table 10 7 ≡ ok (map', true))
        × (find hash map' 10 ≡ ok (some 7))
        × (find hash map' 5 ≡ find hash table 5))
unfolding number_eq
insert-find_example = insert-find hash table 10 7 5 table-Fits refl

erase-find_example :
    ((find hash table 10 ≡ ok none) × (erase hash table 10 ≡ ok (table, false)))
    ⊎ ((value : ℕ) × (map' : Table ℕ ℕ) × (find hash table 10 ≡ ok (some value))
        × (erase hash table 10 ≡ ok (map', true))
        × (find hash map' 5 ≡ find hash table 5))
unfolding number_eq
erase-find_example = erase-find hash table 10 5 table-Fits refl

-- Key 5 is erased, and key 10 is inserted again and erased: its old value is found.
erase-uncovers :
    (erase hash table 5 >>= λ (a, done).
    insert hash a 10 7 >>= λ (b, done'). erase hash b 10 >>= λ (c, done''). find hash c 10)
    ≡ ok (some 100)
unfolding number_eq find insert erase find_loop insert_loop erase_loop make_probe_index load store
erase-uncovers = refl
