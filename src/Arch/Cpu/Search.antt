-- ===== src/Arch/Cpu/Search.antt =====
-- The search of `CoreConfig::get_core_index` in src/arch/common/cpu.rs.
use mathlib.Core.List.{append_assoc}
use propeller_kernel.Prelude.{
  ℕ, ◌+◌, ◌≤◌, ◌≡◌, refl, ap, ◌∙◌, false, inl, inr, Bool-cases, Option, none, some, List, [], ◌∷◌,
  ◌++◌, ok, arith, le→leb, ◌==◌, ==_iff, if◌then◌else◌, length, length-append,
}
use propeller_kernel.Support.RangeSet.Slots.{load-append}
use propeller_kernel.Arch.Cpu.{Core, CoreConfig, find_core, get_core_index}
use propeller_kernel.Arch.Cpu.Cores.{IsCores}

-- The index of the first core with an identifier, counted from `i`.
abbrev pub index_of : ℕ → ℕ → List Core → Option ℕ
index_of id i [] = none
index_of id i (x ∷ xs) = if x.id == id then some i else index_of id (i + 1) xs

find_core-index_of :
    (id : ℕ) (pre xs spare : List Core) (i : ℕ)
    → i ≡ length pre
    → find_core id (length xs) (pre ++ (xs ++ spare)) i ≡ ok (index_of id i xs)
unfolding find_core
find_core-index_of id pre [] spare i h = refl
find_core-index_of id pre (x ∷ xs) spare i h =
    rw (load-append pre (xs ++ spare) x i h) (elim (Bool-cases (x.id == id)) [
      | inl same ↦ rw same refl
      | inr other ↦ rw other (
          rw append_assoc at (
            find_core-index_of id (pre ++ (x ∷ [])) xs spare (i + 1)
              (omega (arith, h, length-append pre (x ∷ [])))))
    ])

-- Of a configuration of at most 32 cores the search gives the first core with the identifier.
pub get_core_index-index_of :
    (w : ℕ) (hash : ℕ → ℕ) (c : CoreConfig) (id : ℕ) {xs : List Core}
    → IsCores w c xs
    → length xs ≤ 32
    → get_core_index w hash c id ≡ ok (index_of id 0 xs)
unfolding get_core_index
get_core_index-index_of w hash c id {xs} v h =
    rw v.used (rw (le→leb (length xs) 32 h, v.slots) (find_core-index_of id [] xs v.spare 0 refl))

-- No core has the identifier.
abbrev pub AllOther : ℕ → List Core → Type 0
AllOther id [] = Unit
AllOther id (x ∷ xs) = ((x.id == id) ≡ false) × AllOther id xs

pub index_of-append_self :
    (core : Core) (xs : List Core) (i : ℕ)
    → AllOther core.id xs
    → index_of core.id i (xs ++ (core ∷ [])) ≡ some (i + length xs)
index_of-append_self core [] i h = rw ((==_iff core.id core.id).1 refl) (ap some (omega arith))
index_of-append_self core (x ∷ xs) i (n, h) =
    rw n (index_of-append_self core xs (i + 1) h ∙ ap some (omega arith))

pub index_of-append_other :
    (id : ℕ) (core : Core) (xs : List Core) (i : ℕ)
    → (core.id == id) ≡ false
    → index_of id i (xs ++ (core ∷ [])) ≡ index_of id i xs
index_of-append_other id core [] i h = rw h refl
index_of-append_other id core (x ∷ xs) i h = elim (Bool-cases (x.id == id)) [
  | inl same ↦ rw same refl
  | inr other ↦ rw other (index_of-append_other id core xs (i + 1) h)
]
