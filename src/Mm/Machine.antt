-- ===== src/Mm/Machine.antt =====
-- What the page allocator of src/mm takes from the architecture: the word size and the page size.
use propeller_kernel.Prelude.{ℕ, ◌^◌, ◌<◌, ◌≡◌}

pub record Machine : Type 0 where
  -- `usize::BITS`, `WORD_BIT_SHIFT` and `WORD_SHIFT`.
  pub word_bits : ℕ
  pub word_bit_shift : ℕ
  pub word_shift : ℕ
  -- `get_page_shift()` and `get_maximum_physical_address()`.
  pub page_shift : ℕ
  pub max_physical : ℕ
  pub word_bits_pow : word_bits ≡ 2 ^ word_bit_shift
  pub page_fits : page_shift < word_bits
