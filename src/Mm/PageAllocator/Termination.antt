-- ===== src/Mm/PageAllocator/Termination.antt =====
-- The loops of `BuddyPageAllocator::new` in src/mm/page_allocator.rs end.
use native.Mathlib.Nat.{
  pow-suc, one-le-pow, pow-le-pow_right, mod-eq_of_lt, mul-le-mul_right, div-add-mod, mod-lt,
}
use propeller_kernel.Prelude.{
  ℕ, zero, suc, ◌+◌, ◌-◌, ◌*◌, ◌/◌, ◌^◌, ◌≤◌, ◌<◌, ◌≡◌, ◌≢◌, ap, none, some, List, [], ◌∷◌, Run, ok,
  panic, out_of_fuel, min, arith, leb, Bool-cases, inl, inr, ◌==◌,
}
use propeller_kernel.Prelude.Monad.{◌>>=◌, add, sub, load, check}
use propeller_kernel.Prelude.Ends.{
  Ends, ok-Ends, >>=-Ends, >>=-Ends_eq, sub-eq-ok, if-Ends, add-Ends, sub-Ends, check-Ends,
  load-Ends, store-Ends, option-Ends,
}
use propeller_kernel.Support.Bits.{shl, shr, align_down, align_up}
use propeller_kernel.Support.Range.{Range}
use propeller_kernel.Arch.Bits.{floor_log2}
use propeller_kernel.Arch.Bits.Ending.{floor_log2-Ends}
use propeller_kernel.Mm.Machine.{Machine}
use propeller_kernel.Mm.PageAllocator.{
  Buddy, BlockNode, add_to_list, get_flag_index_and_bit, get_block_node, get_block_node_unchecked,
  toggle_flag, set_head, make_levels, levels_loop, calc_next_level, page_size, calc_first_level,
  block_levels,
}
use propeller_kernel.Mm.PageAllocator.Init.{
  level_at, init_range, init_ranges, init_metadata, check_ranges, construct, new,
}

pow-mul : (a b : ℕ) → 2 ^ a * 2 ^ b ≡ 2 ^ (a + b)
pow-mul zero b = omega (arith, ap (λ (t : ℕ). 2 ^ t) (let e : 0 + b ≡ b = omega arith in e))
pow-mul (suc a) b = grind (
  arith,
  ap (λ (t : ℕ). t * 2 ^ b) (pow-suc 2 a),
  pow-mul a b,
  pow-suc 2 (a + b),
  ap (λ (t : ℕ). 2 ^ t) (let e : suc a + b ≡ suc (a + b) = omega arith in e),
)

module _ (m : Machine) where
  align_down-Ends : (w addr b : ℕ) → Ends (align_down w addr b)
  unfolding align_down
  align_down-Ends w addr b = >>=-Ends (sub b 1) (sub-Ends b 1) (λ r. ok-Ends _)

  align_up-Ends : (w addr b : ℕ) → Ends (align_up w addr b)
  unfolding align_up
  align_up-Ends w addr b =
      >>=-Ends (sub b 1) (sub-Ends b 1)
        (λ r. >>=-Ends (add w addr r) (add-Ends w addr r) (λ t. ok-Ends _))

  flag-Ends : (s : Buddy) (a level : ℕ) → Ends (get_flag_index_and_bit m s a level)
  unfolding get_flag_index_and_bit
  flag-Ends s a level = >>=-Ends (sub a s.base) (sub-Ends a s.base) (λ r.
      >>=-Ends (load s.levels level) (load-Ends s.levels level)
        (λ l. >>=-Ends _ (add-Ends m.word_bits _ _) (λ i. ok-Ends _)))

  unchecked-Ends : (s : Buddy) (a : ℕ) → Ends (get_block_node_unchecked m s a)
  unfolding get_block_node_unchecked
  unchecked-Ends s a =
      >>=-Ends _ (align_down-Ends m.word_bits a (page_size m))
        (λ r. >>=-Ends (check (r == a)) (check-Ends (r == a)) (λ d. ok-Ends _))

  node-Ends : (s : Buddy) (a : ℕ) → Ends (get_block_node m s a)
  unfolding get_block_node
  node-Ends s a = >>=-Ends _ (unchecked-Ends s a) (λ n. >>=-Ends _ (check-Ends _) (λ d. ok-Ends _))

  toggle-Ends : (s : Buddy) (i b : ℕ) → Ends (toggle_flag m s i b)
  unfolding toggle_flag
  toggle-Ends s i b =
      >>=-Ends _ (load-Ends s.flags i) (λ r. >>=-Ends _ (store-Ends s.flags i _) (λ f. ok-Ends _))

  set_head-Ends : (s : Buddy) (level h : ℕ) → Ends (set_head m s level h)
  unfolding set_head
  set_head-Ends s level h =
      >>=-Ends _ (load-Ends s.levels level)
        (λ r. >>=-Ends _ (store-Ends s.levels level _) (λ f. ok-Ends _))

  add_to_list-Ends : (s : Buddy) (level a : ℕ) → Ends (add_to_list m s level a)
  unfolding add_to_list
  add_to_list-Ends s level a = >>=-Ends _ (flag-Ends s a level) (λ f.
      >>=-Ends _ (load-Ends s.levels level) (λ l. >>=-Ends _ (unchecked-Ends s a) (λ b.
        >>=-Ends _
          (if-Ends (l.head == 0) (>>=-Ends _ (set_head-Ends s level a) (λ s1. ok-Ends _)) (
            >>=-Ends _ (node-Ends s l.head)
              (λ h. >>=-Ends _ (node-Ends s h.prev) (λ t. ok-Ends _))))
          (λ s'. toggle-Ends s' (f.0) (f.1)))))

  -- The largest block is smaller than the address space.
  module _ (fits : m.page_shift + 10 < m.word_bits) where
    block-at_least :
        (level : ℕ)
        → level ≤ 10
        → page_size m ≤ shl m.word_bits (shl m.word_bits 1 level) m.page_shift
    block-at_least level l =
        rw (mod-eq_of_lt one_block) (rw (mod-eq_of_lt below) (omega (arith, positive)))
      where
        small : (a : ℕ) → a < m.word_bits → 2 ^ a < 2 ^ m.word_bits
        small a h = omega (
          arith,
          pow-le-pow_right {n = 2} (omega arith) (let h' : suc a ≤ m.word_bits = omega arith in h'),
          pow-suc 2 a,
          one-le-pow a 2,
        )

        one_block : 1 * 2 ^ level < 2 ^ m.word_bits
        one_block = omega (arith, small level (omega arith))

        below : 1 * 2 ^ level * 2 ^ m.page_shift < 2 ^ m.word_bits
        below =
            omega (arith, pow-mul level m.page_shift, small (level + m.page_shift) (omega arith))

        positive : 2 ^ m.page_shift ≤ 1 * 2 ^ level * 2 ^ m.page_shift
        positive =
            omega (arith, mul-le-mul_right (2 ^ m.page_shift) (one-le-pow level 2 (omega arith)))

    level_at-Ends : (addr remaining : ℕ) → Ends (level_at m addr remaining)
    unfolding level_at
    level_at-Ends addr remaining =
        >>=-Ends _ (floor_log2-Ends m.word_bits _)
          (λ a. >>=-Ends _ (floor_log2-Ends m.word_bits _) (λ b. ok-Ends _))

    bounded :
        (aligned fitting : Run ℕ) {level : ℕ}
        → (aligned >>= λ a. fitting >>= λ f. ok (min f (min a 10))) ≡ ok level
        → level ≤ 10
    bounded (ok a) (ok f) {level} e =
        let same : min f (min a 10) ≡ level = cc in omega (arith, same)
    bounded (ok a) panic e = absurd (cc e)
    bounded (ok a) out_of_fuel e = absurd (cc e)
    bounded panic fitting e = absurd (cc e)
    bounded out_of_fuel fitting e = absurd (cc e)

    level_at-le :
        (addr remaining : ℕ) {level : ℕ} → level_at m addr remaining ≡ ok level → level ≤ 10
    unfolding level_at
    level_at-le addr remaining e = bounded (floor_log2 _ _) (floor_log2 _ _) e

    init_range-Ends :
        (fuel addr remaining : ℕ) (s : Buddy)
        → remaining < fuel * page_size m
        → Ends (init_range m fuel addr remaining s)
    unfolding init_range
    init_range-Ends zero addr remaining s h = absurd (omega arith)
    init_range-Ends (suc fuel) addr remaining s h =
        elim (Bool-cases (leb (page_size m) remaining)) [
          | inr few ↦ rw few (ok-Ends s)
          | inl some_page ↦ rw some_page (
              >>=-Ends_eq _ (level_at-Ends addr remaining) (λ level at.
                >>=-Ends _ (add_to_list-Ends s level addr) (λ s'.
                  >>=-Ends _ (add-Ends m.word_bits addr _) (λ addr'.
                    >>=-Ends_eq _ (sub-Ends remaining _) (λ r e. init_range-Ends fuel addr' r s' (
                      omega (
                        arith,
                        sub-eq-ok remaining _ e,
                        block-at_least level (level_at-le addr remaining at),
                      )))))))
        ]

    init_ranges-Ends :
        {T : Type 0} (avail : List (Range T)) (s : Buddy) → Ends (init_ranges m avail s)
    unfolding init_ranges
    init_ranges-Ends [] s = ok-Ends s
    init_ranges-Ends (range ∷ avail) s =
        >>=-Ends _
          (init_range-Ends (range.size / page_size m + 1) range.base range.size s
            (enough range.size))
          (λ s'. init_ranges-Ends avail s')
      where
        enough : (n : ℕ) → n < (n / page_size m + 1) * page_size m
        enough n =
            omega (
              arith,
              div-add-mod n (page_size m),
              mod-lt n (one-le-pow m.page_shift 2 (omega arith)),
            )

    check_ranges-Ends :
        {T : Type 0} (avail : List (Range T)) (base end free_mem : ℕ)
        → Ends (check_ranges m avail base end free_mem)
    unfolding check_ranges
    check_ranges-Ends [] base end free_mem = ok-Ends _
    check_ranges-Ends (range ∷ avail) base end free_mem = >>=-Ends _ (sub-Ends range.size 1) (λ n.
        >>=-Ends _ (add-Ends m.word_bits range.base n) (λ range_end. if-Ends _ (ok-Ends _) (
          >>=-Ends _ (add-Ends m.word_bits free_mem range.size)
            (λ total. check_ranges-Ends avail base end total))))

    next_level-Ends : (blocks offset : ℕ) → Ends (calc_next_level m blocks offset)
    unfolding calc_next_level
    next_level-Ends blocks offset = >>=-Ends _ (add-Ends m.word_bits blocks 1) (λ a.
        >>=-Ends _ (add-Ends m.word_bits (shr a 1) m.word_bits) (λ b.
          >>=-Ends _ (add-Ends m.word_bits offset (shr (b - 1) m.word_bit_shift))
            (λ c. ok-Ends (shr blocks 1, c))))

    levels_loop-Ends : (left blocks offset : ℕ) → Ends (levels_loop m left blocks offset)
    unfolding levels_loop
    levels_loop-Ends zero blocks offset = ok-Ends _
    levels_loop-Ends (suc left) blocks offset =
        >>=-Ends _ (next_level-Ends blocks offset)
          (λ p. >>=-Ends _ (levels_loop-Ends left (p.0) (p.1)) (λ q. ok-Ends _))

    construct-Ends :
        {T : Type 0} (base size end : ℕ) (avail : List (Range T)) (metadata : ℕ)
        (memory : ℕ → BlockNode)
        → Ends (construct m base size end avail metadata memory)
    unfolding construct make_levels calc_first_level init_metadata
    construct-Ends base size end avail metadata memory = if-Ends _ (ok-Ends none) (
        >>=-Ends _ (check_ranges-Ends avail base end 0) (λ checked.
          option-Ends checked (ok-Ends none) (λ free_mem.
            >>=-Ends _
              (>>=-Ends _ (levels_loop-Ends block_levels (shr size m.page_shift) 0)
                (λ q. ok-Ends _))
              (λ p. >>=-Ends _ (init_ranges-Ends avail _) (λ s. ok-Ends (some s))))))

    -- When the largest block is smaller than the address space, the constructor ends: the turns given
    -- to its loop over each available range are enough, whatever the two logarithms are.
    pub new-Ends :
        {T : Type 0} (base size metadata : ℕ) (avail : List (Range T)) (memory : ℕ → BlockNode)
        → new m base size metadata avail memory ≢ out_of_fuel
    unfolding new
    new-Ends base size metadata avail memory = if-Ends _ (ok-Ends none) (
        >>=-Ends _ (sub-Ends size 1) (λ n. if-Ends _ (ok-Ends none) (
          >>=-Ends _ (add-Ends m.word_bits base size) (λ limit.
            >>=-Ends _ (sub-Ends limit 1) (λ end.
              >>=-Ends _ (align_up-Ends m.word_bits base (page_size m)) (λ base'.
                >>=-Ends _ (sub-Ends end base') (λ room.
                  >>=-Ends _ (add-Ends m.word_bits room 1) (λ rounded.
                    >>=-Ends _ (align_down-Ends m.word_bits rounded (page_size m))
                      (λ size'. construct-Ends base' size' end avail metadata memory)))))))))
