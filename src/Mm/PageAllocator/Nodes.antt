-- ===== src/Mm/PageAllocator/Nodes.antt =====
-- The list nodes of src/mm/page_allocator.rs: checksums, and reads and writes of a node.
use native.Mathlib.Nat.{one-le-pow}
use propeller_kernel.Prelude.{
  ℕ, ◌-◌, ◌%◌, ◌^◌, ◌<◌, ◌≡◌, refl, ap, true, false, ok, arith, ◌==◌, ==_iff, ==_refl, le→leb,
  bit_and,
}
use propeller_kernel.Support.Bits.{align_down, xor_checksum, complement}
use propeller_kernel.Support.Bits.Digits.{xor_right_comm, and-high_ones}
use propeller_kernel.Arch.Bits.{checksum_seed}
use propeller_kernel.Mm.Machine.{Machine}
use propeller_kernel.Mm.PageAllocator.{
  BlockNode, Buddy, write, page_size, new_node, update_checksum, verify_checksum,
  get_block_node_unchecked, get_block_node,
}

-- A write is read at its address, and nowhere else.
pub write_self : (memory : ℕ → BlockNode) (a : ℕ) (n : BlockNode) → write memory a n a ≡ n
unfolding write
write_self memory a n = rw (==_refl a)

pub write_ne :
    (memory : ℕ → BlockNode) (a : ℕ) (n : BlockNode) (b : ℕ)
    → (b == a) ≡ false
    → write memory a n b ≡ memory b
unfolding write
write_ne memory a n b h = rw h

module _ (m : Machine) where
  open m use {word_bits, page_shift}

  -- A node whose checksum is updated verifies, although the two checksums read the links in
  -- different orders, and so does a new node.
  pub verify-update :
      (n : BlockNode) (next prev : ℕ)
      → (verify_checksum m (update_checksum m n) ≡ true)
        × (verify_checksum m (new_node m next prev) ≡ true)
  unfolding verify_checksum update_checksum new_node xor_checksum
  verify-update n next prev =
      ((==_iff _ _).1 (xor_right_comm (checksum_seed word_bits) n.next n.prev), ==_refl _)

  -- The address of a page.
  abbrev pub IsPage : ℕ → Type 0
  IsPage a = (a < 2 ^ word_bits) × (a % page_size m ≡ 0)

  pub get_block_node_unchecked_lem :
      (s : Buddy) (a : ℕ) → IsPage a → get_block_node_unchecked m s a ≡ ok (s.memory a)
  unfolding get_block_node_unchecked align_down
  get_block_node_unchecked_lem s a (l, p) =
      rw (le→leb 1 (page_size m) (one-le-pow page_shift 2 (omega arith)))
        (rw ((==_iff _ _).1 rounded) refl)
    where
      rounded : bit_and a (complement word_bits (page_size m - 1)) ≡ a
      rounded = omega (
        arith,
        ap (λ (t : ℕ). bit_and a t) same,
        and-high_ones page_shift word_bits a (omega (arith, m.page_fits)) l,
      )
        where
          same : complement word_bits (page_size m - 1) ≡ 2 ^ word_bits - 2 ^ page_shift
          same = omega (arith, one-le-pow page_shift 2)

  pub get_block_node_lem :
      (s : Buddy) (a : ℕ)
      → IsPage a
      → verify_checksum m (s.memory a) ≡ true
      → get_block_node m s a ≡ ok (s.memory a)
  unfolding get_block_node
  get_block_node_lem s a p v = rw (get_block_node_unchecked_lem s a p, v) refl
