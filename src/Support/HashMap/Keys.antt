-- ===== src/Support/HashMap/Keys.antt =====
-- The numbers as keys of src/support/hash_map.rs.
use propeller_kernel.Prelude.{ℕ, ◌≡◌, refl, ◌==◌, ==_iff}
use propeller_kernel.Support.HashMap.{Eq}

instance pub id_eq : Eq ℕ
id_eq = record { beq = ◌==◌; beq_iff = λ a b. ((==_iff a b).0, (==_iff a b).1) }

-- Two identifiers are compared as numbers.
pub id_eq-beq : (a b : ℕ) → id_eq.beq a b ≡ (a == b)
unfolding id_eq
id_eq-beq a b = refl
