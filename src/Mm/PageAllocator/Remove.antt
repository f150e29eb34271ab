-- ===== src/Mm/PageAllocator/Remove.antt =====
-- `BuddyPageAllocator::remove_from_list` of src/mm/page_allocator.rs, by the place of the block in its
-- list.
use propeller_kernel.Prelude.{
  ℕ, ◌≡◌, refl, ap, ◌∙◌, true, false, List, [], ◌∷◌, ◌++◌, arith, ◌==◌, ==_iff, ==_refl, set,
  Bool-cases, inl, inr, bit_xor, ok,
}
use propeller_kernel.Prelude.Monad.{load, ◌>>=◌}
use propeller_kernel.Prelude.Access.{load-lt, load-set_self, load-set_ne}
use propeller_kernel.Mm.PageAllocator.Add.{toggle_flag_lem, set_head_lem, IsRelisted}
use propeller_kernel.Support.Bits.{shl}
use propeller_kernel.Mm.Machine.{Machine}
use propeller_kernel.Mm.PageAllocator.{
  get_block_node, Buddy, BlockNode, BlockLevel, put_node, unlink, remove_from_list,
  get_flag_index_and_bit, set_head, toggle_flag,
}
use propeller_kernel.Mm.PageAllocator.Nodes.{write_self, write_ne, get_block_node_lem}
use propeller_kernel.Mm.PageAllocator.Ring.{
  has, Distinct, head_or, last_or, IsNode, Links, AllPages, IsRing, IsRing-head, Distinct-split,
  has-last_or, has-append, has-false-ne, not_left,
}
use propeller_kernel.Mm.PageAllocator.Unlink.{cleared, IsNode-of, unlink-IsRing}

module _ (m : Machine) (s : Buddy) (level : ℕ) {l : BlockLevel} {flag : ℕ × ℕ} {word : ℕ} (b : ℕ)
    (f : get_flag_index_and_bit m s b level ≡ ok flag) (was : load s.flags flag.0 ≡ ok word)
    (at : load s.levels level ≡ ok l) where
  abbrev flags' : List ℕ
  flags' = set s.flags flag.0 (bit_xor word (shl m.word_bits 1 flag.1))

  -- The nodes of a list read with no panic.
  get-node :
      (xs : List ℕ) (a before after : ℕ)
      → Links m s.memory before xs after
      → AllPages m xs
      → has a xs ≡ true
      → get_block_node m s a ≡ ok (s.memory a)
  get-node [] a before after l p h = cc
  get-node (x ∷ xs) a before after (node, l) (nz, p, ps) h = elim (Bool-cases (a == x)) [
    | inl e ↦ rw ((==_iff a x).0 e) (get_block_node_lem m s x p node.verified)
    | inr e ↦ get-node xs a x after l ps (ground arith)
  ]

  toggle_unlinked :
      (n : BlockNode)
      → toggle_flag m (unlink m s b n) flag.0 flag.1
        ≡ ok (record (unlink m s b n) { flags = flags' })
  unfolding unlink put_node
  toggle_unlinked n = toggle_flag_lem m (unlink m s b n) flag.0 flag.1 was

  module _ (x : ℕ) (pre vs : List ℕ) (r : IsRing m s.memory l.head ((x ∷ pre) ++ (b ∷ vs))) where
    node : IsNode m (s.memory b) (last_or x pre) (head_or x vs)
    node = IsNode-of m s x pre b vs (IsRing-head m r)

    get-member :
        (a : ℕ) → has a ((x ∷ pre) ++ (b ∷ vs)) ≡ true → get_block_node m s a ≡ ok (s.memory a)
    get-member a = get-node ((x ∷ pre) ++ (b ∷ vs)) a _ _ r.links r.pages

    not_front : has b (x ∷ pre) ≡ false
    not_front =
        not_left (x ∷ pre) (b ∷ vs) b (Distinct-split (x ∷ pre) (b ∷ vs) r.distinct).2
          (ground arith)

    next_ne : (head_or x vs == b) ≡ false
    next_ne = ne vs (Distinct-split (x ∷ pre) (b ∷ vs) r.distinct).1
      where
        ne : (vs : List ℕ) → Distinct (b ∷ vs) → (head_or x vs == b) ≡ false
        ne [] d = ground (arith, not_front)
        ne (w ∷ ws) d = ground (arith, d.0)

    has-next : has (head_or x vs) ((x ∷ pre) ++ (b ∷ vs)) ≡ true
    has-next = among vs
      where
        among : (vs : List ℕ) → has (head_or x vs) ((x ∷ pre) ++ (b ∷ vs)) ≡ true
        among [] = ground arith
        among (w ∷ ws) = ground (arith, has-append w (x ∷ pre) (b ∷ w ∷ ws))

    has-prev : has (last_or x pre) ((x ∷ pre) ++ (b ∷ vs)) ≡ true
    has-prev = rw (has-append (last_or x pre) (x ∷ pre) (b ∷ vs), has-last_or x pre) refl

    has_self : has b ((x ∷ pre) ++ (b ∷ vs)) ≡ true
    has_self = rw (has-append b (x ∷ pre) (b ∷ vs), not_front, ==_refl b) refl

    not_head : (b == l.head) ≡ false
    not_head = ground (arith, not_front, r.head_is)

    remove_inner :
        remove_from_list m s level b ≡ ok (record (unlink m s b (s.memory b)) { flags = flags' })
    unfolding remove_from_list
    remove_inner =
        rw (f, at, get-member b has_self)
          (rw (next-ne, get-prev, get-next, not_head) (toggle_unlinked (s.memory b)))
      where
        next-ne : ((s.memory b).next == b) ≡ false
        next-ne = rw node.next_is next_ne

        get-prev : get_block_node m s (s.memory b).prev ≡ ok (s.memory (s.memory b).prev)
        get-prev = rw node.prev_is (get-member (last_or x pre) has-prev)

        get-next : get_block_node m s (s.memory b).next ≡ ok (s.memory (s.memory b).next)
        get-next = rw node.next_is (get-member (head_or x vs) has-next)

    unlink-other_pages :
        (a : ℕ)
        → has a ((x ∷ pre) ++ (b ∷ vs)) ≡ false
        → (unlink m s b (s.memory b)).memory a ≡ s.memory a
    unfolding unlink put_node
    unlink-other_pages a o =
        rw (node.prev_is, node.next_is)
          (write_ne _ b _ a (has-false-ne a b ((x ∷ pre) ++ (b ∷ vs)) o has_self)
            ∙ (write_ne _ (last_or x pre) _ a
                  (has-false-ne a (last_or x pre) ((x ∷ pre) ++ (b ∷ vs)) o has-prev)
                ∙ write_ne s.memory (head_or x vs) _ a
                    (has-false-ne a (head_or x vs) ((x ∷ pre) ++ (b ∷ vs)) o has-next)))

    -- Let `level` be in range, its list be well formed, the flag word of the block be in range, and
    -- the block stand behind the head of the list. Then `remove_from_list` does not panic. The list
    -- has all other blocks in the same order and is well formed, the flag is toggled, and the other
    -- levels, the other flags, the nodes outside the list and the accounts are as before.
    pub remove_from_list-IsRelisted :
        (s' : Buddy) × (remove_from_list m s level b ≡ ok s')
        × IsRelisted m s s' level l flag ((x ∷ pre) ++ (b ∷ vs)) ((x ∷ pre) ++ vs)
    unfolding unlink put_node
    remove_from_list-IsRelisted = (
      record (unlink m s b (s.memory b)) { flags = flags' },
      remove_inner,
      record {
        at_level = at ∙ ap (λ h. ok (record l { head = h })) r.head_is;
        ring = unlink-IsRing m s x pre b vs (IsRing-head m r);
        other_levels = λ k ne. refl;
        other_pages = unlink-other_pages;
        word = word;
        was = was;
        toggled = refl;
        area = (refl, refl);
        accounts = (refl, refl);
      },
    )

  -- Let `level` be in range, its well formed list hold one block only, and the flag word of the block
  -- be in range. Then `remove_from_list` of that block does not panic and leaves the list empty. The
  -- flag is toggled, and the other levels, the other flags, all nodes and the accounts are as before.
  pub remove_from_list-single :
      IsRing m s.memory l.head (b ∷ [])
      → (s' : Buddy) × (remove_from_list m s level b ≡ ok s') × IsRelisted m s s' level l flag [] []
  unfolding remove_from_list
  remove_from_list-single r = (
    record s { levels = set s.levels level (record l { head = 0 }); flags = flags' },
    rw (f, at, get-node (b ∷ []) b _ _ r.links r.pages (ground arith))
        (rw ((r.links).0.prev_is, (r.links).0.next_is, r.head_is, ==_refl b)
          (rw (set_head_lem m s level 0 at) (toggle_flag_lem m _ flag.0 flag.1 was))),
    record {
      at_level = load-set_self s.levels level (record l { head = 0 }) (load-lt s.levels level at);
      ring = record { head_is = refl; links = tt; distinct = tt; pages = tt };
      other_levels = λ k ne. load-set_ne s.levels level k (record l { head = 0 }) ne;
      other_pages = λ a o. refl;
      word = word;
      was = was;
      toggled = refl;
      area = (refl, refl);
      accounts = (refl, refl);
    },
  )

  head_reset :
      (n : BlockNode)
      → (set_head m (unlink m s b n) level ((unlink m s b n).memory b).next >>= λ s'.
          toggle_flag m s' flag.0 flag.1)
        ≡ ok (record (unlink m s b n) {
          levels = set s.levels level (record l { head = 0 });
          flags = flags';
        })
  unfolding unlink put_node
  head_reset n =
      rw (write_self _ b cleared)
        (rw (set_head_lem m (unlink m s b n) level 0 at) (toggle_flag_lem m _ flag.0 flag.1 was))

  module _ (w : ℕ) (ws : List ℕ) (r : IsRing m s.memory l.head (b ∷ w ∷ ws)) where
    remove_head :
        remove_from_list m s level b
        ≡ ok (record (unlink m s b (s.memory b)) {
          levels = set s.levels level (record l { head = 0 });
          flags = flags';
        })
    unfolding remove_from_list
    remove_head =
        rw (f, at, get-member b (ground arith))
          (rw (next-ne, get-prev, get-next, is_head) (head_reset (s.memory b)))
      where
        get-member : (a : ℕ) → has a (b ∷ w ∷ ws) ≡ true → get_block_node m s a ≡ ok (s.memory a)
        get-member a = get-node (b ∷ w ∷ ws) a _ _ r.links r.pages

        next-ne : ((s.memory b).next == b) ≡ false
        next-ne = rw (r.links).0.next_is (ground (arith, r.distinct))

        get-next : get_block_node m s (s.memory b).next ≡ ok (s.memory (s.memory b).next)
        get-next = rw (r.links).0.next_is (get-member w (ground arith))

        get-prev : get_block_node m s (s.memory b).prev ≡ ok (s.memory (s.memory b).prev)
        get-prev =
            rw (r.links).0.prev_is (get-member (last_or w ws) (ground (arith, has-last_or w ws)))

        is_head : (b == l.head) ≡ true
        is_head = rw r.head_is (==_refl b)

    -- Let `level` be in range, its list be well formed with two blocks or more, and the flag word of
    -- the head be in range. Then `remove_from_list` of the head does not panic and leaves the level
    -- with the head 0, that of an empty list, whatever blocks stand behind the head.
    pub remove_from_list-loses :
        (s' : Buddy) × (remove_from_list m s level b ≡ ok s')
        × (load s'.levels level ≡ ok (record l { head = 0 }))
    remove_from_list-loses = (
      _,
      remove_head,
      load-set_self s.levels level (record l { head = 0 }) (load-lt s.levels level at),
    )
