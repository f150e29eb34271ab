-- ===== src/Support/Dtb/Names.antt =====
-- Names of a device tree as keys of src/support/hash_map.rs.
use propeller_kernel.Prelude.{ℕ, ◌≡◌, refl, true, List, [], ◌∷◌, ◌==◌, ==_iff, Bool-cases, inl, inr}
use propeller_kernel.Support.HashMap.{Eq}
use propeller_kernel.Support.Dtb.Walk.{same_bytes}

pub same_bytes_self : (as' : List ℕ) → same_bytes as' as' ≡ true
unfolding same_bytes
same_bytes_self [] = refl
same_bytes_self (a ∷ as') = rw ((==_iff a a).1 refl, same_bytes_self as') refl

pub same_bytes-≡ : (as' bs : List ℕ) → same_bytes as' bs ≡ true → as' ≡ bs
unfolding same_bytes
same_bytes-≡ [] [] h = refl
same_bytes-≡ [] (b ∷ bs) h = absurd (cc h)
same_bytes-≡ (a ∷ as') [] h = absurd (cc h)
same_bytes-≡ (a ∷ as') (b ∷ bs) h = elim (Bool-cases (a == b)) [
  | inl same ↦ rw ((==_iff a b).0 same, same_bytes-≡ as' bs (rw same at h)) refl
  | inr other ↦ absurd (cc (rw other at h))
]

instance unfoldable pub bytes_eq : Eq (List ℕ)
bytes_eq = record {
  beq = same_bytes;
  beq_iff = λ a b. (same_bytes-≡ a b, λ e. rw e (same_bytes_self b));
}
