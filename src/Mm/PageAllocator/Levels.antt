-- ===== src/Mm/PageAllocator/Levels.antt =====
-- `make_levels` and `calc_metadata_size` of src/mm/page_allocator.rs compute one layout of the flags.
use propeller_kernel.Prelude.{ℕ, zero, suc, ◌≡◌, refl, ap, sym, ◌∙◌, Run, ok}
use propeller_kernel.Prelude.Monad.{◌>>=◌, bind_assoc, bind_cong}
use propeller_kernel.Support.Bits.{shl, shr}
use propeller_kernel.Mm.Machine.{Machine}
use propeller_kernel.Mm.PageAllocator.{
  block_levels, calc_first_level, calc_next_level, metadata_loop, calc_metadata_size, levels_loop,
  make_levels,
}

module _ (m : Machine) where
  levels_loop-metadata_loop :
      (left blocks offset : ℕ)
      → (levels_loop m left blocks offset >>= λ r. ok (r.1)) ≡ metadata_loop m left blocks offset
  unfolding levels_loop metadata_loop
  levels_loop-metadata_loop zero blocks offset = refl
  levels_loop-metadata_loop (suc left) blocks offset =
      bind_assoc (calc_next_level m blocks offset) _ _
      ∙ bind_cong (calc_next_level m blocks offset) (λ p.
        bind_assoc (levels_loop m left (p.0) (p.1)) _ _
        ∙ levels_loop-metadata_loop left (p.0) (p.1))

  -- The layout of the levels takes as many bytes as the metadata of the area is computed to take, and
  -- the one computation panics where the other does.
  pub make_levels-calc_metadata_size :
      (size : ℕ) → (make_levels m size >>= λ r. ok (r.1)) ≡ calc_metadata_size m size
  unfolding make_levels calc_metadata_size calc_first_level
  make_levels-calc_metadata_size size =
      bind_assoc (levels_loop m block_levels (shr size m.page_shift) 0) _ _
      ∙ (sym (bind_assoc (levels_loop m block_levels (shr size m.page_shift) 0) _ _)
          ∙ ap (λ (r : Run ℕ). r >>= λ w. ok (shl m.word_bits w m.word_shift))
              (levels_loop-metadata_loop block_levels (shr size m.page_shift) 0))
