-- ===== src/Mm/PageAllocator/Add.antt =====
-- `BuddyPageAllocator::add_to_list` of src/mm/page_allocator.rs appends to a list.
use propeller_kernel.Prelude.{ℕ, ◌≡◌, ◌≢◌, refl, ap, ◌∙◌, false, List, [], ◌∷◌, ◌++◌, arith, ◌==◌}
use propeller_kernel.Mm.Machine.{Machine}
use propeller_kernel.Mm.PageAllocator.{
  Buddy, BlockNode, write, update_checksum, put_node, link_tail,
}
use propeller_kernel.Mm.PageAllocator.Nodes.{write_self, write_ne, IsPage}
use propeller_kernel.Mm.PageAllocator.Ring.{
  has, head_or, last_or, IsNode, Links, IsNode-update, Links-frame, Links-append, Links-set_before,
  Links-set_after, AllPages, IsRing, IsRing-head, last_or-append, Links-last, AllPages-last,
  Distinct-snoc, has-last_or, has-false-ne,
}
use propeller_kernel.Prelude.{set, bit_xor, ok}
use propeller_kernel.Prelude.Monad.{load}
use propeller_kernel.Prelude.Access.{load-lt, store_lem, load-set_self, load-set_ne}
use propeller_kernel.Support.Bits.{shl}
use propeller_kernel.Mm.PageAllocator.{
  BlockLevel, get_flag_index_and_bit, add_to_list, toggle_flag, set_head,
}
use propeller_kernel.Mm.PageAllocator.Nodes.{get_block_node_unchecked_lem, get_block_node_lem}

module _ (m : Machine) where
  AllPages-snoc :
      (xs : List ℕ) (b : ℕ) → AllPages m xs → b ≢ 0 → IsPage m b → AllPages m (xs ++ (b ∷ []))
  AllPages-snoc [] b h nz p = (nz, p, tt)
  AllPages-snoc (x ∷ xs) b (nx, px, h) nz p = (nx, px, AllPages-snoc xs b h nz p)

  pub singleton-IsRing :
      (memory : ℕ → BlockNode) (n : BlockNode) (b : ℕ)
      → b ≢ 0
      → IsPage m b
      → IsRing m (write memory b (update_checksum m (record n { prev = b; next = b }))) b (b ∷ [])
  singleton-IsRing memory n b nz p = record {
    head_is = refl;
    links = (
      rw (write_self memory b (update_checksum m (record n { prev = b; next = b })))
          (IsNode-update m _ b b refl refl),
      tt,
    );
    distinct = (refl, tt);
    pages = (nz, p, tt);
  }

  -- Linking a page that is not in a list behind its tail appends it to the list.
  pub link_tail-IsRing :
      (s : Buddy) (b x : ℕ) (xs : List ℕ)
      → IsRing m s.memory x (x ∷ xs)
      → has b (x ∷ xs) ≡ false
      → b ≢ 0
      → IsPage m b
      → IsRing m (link_tail m s b x (last_or x xs)).memory x (x ∷ (xs ++ (b ∷ [])))
  unfolding link_tail put_node
  link_tail-IsRing s b x xs r out nz p = record {
    head_is = refl;
    links =
        rw (last_or-append x xs b) (Links-append m mem3 b (x ∷ xs) (b ∷ []) x front (node_b, tt));
    distinct = Distinct-snoc (x ∷ xs) b r.distinct out;
    pages = AllPages-snoc (x ∷ xs) b r.pages nz p;
  }
    where
      tail : ℕ
      tail = last_or x xs

      node1 : BlockNode
      node1 = update_checksum m (record (s.memory b) { prev = tail; next = x })

      mem1 : ℕ → BlockNode
      mem1 = write s.memory b node1

      node2 : BlockNode
      node2 = update_checksum m (record (mem1 x) { prev = b })

      mem2 : ℕ → BlockNode
      mem2 = write mem1 x node2

      node3 : BlockNode
      node3 = update_checksum m (record (mem2 tail) { next = b })

      mem3 : ℕ → BlockNode
      mem3 = write mem2 tail node3

      front : Links m mem3 b (x ∷ xs) b
      front = Links-set_after m mem2 b x xs x b r.distinct (
          Links-set_before m mem1 tail b x xs x (r.distinct).0
            (Links-frame m s.memory b node1 tail (x ∷ xs) x out r.links))

      not_tail : (b == tail) ≡ false
      not_tail = has-false-ne b tail (x ∷ xs) out (has-last_or x xs)

      node_b : IsNode m (mem3 b) tail x
      node_b =
          rw
            (
              write_ne mem2 tail node3 b not_tail,
              write_ne mem1 x node2 b (ground (arith, out)),
              write_self s.memory b node1,
            )
            (IsNode-update m _ tail x refl refl)

module _ (m : Machine) (s : Buddy) (b x : ℕ) (xs : List ℕ) (a : ℕ) where
  -- The three writes are at the new page and at two pages of the list.
  link_tail-memory :
      has a (b ∷ x ∷ xs) ≡ false → (link_tail m s b x (last_or x xs)).memory a ≡ s.memory a
  unfolding link_tail put_node
  link_tail-memory o =
      write_ne _ (last_or x xs) _ a
        (has-false-ne a (last_or x xs) (x ∷ xs) (ground (arith, o)) (has-last_or x xs))
      ∙ (write_ne _ x _ a (ground (arith, o)) ∙ write_ne s.memory b _ a (ground (arith, o)))

-- `s'` is `s` with the list of `level` replaced by `ys` and the flag toggled. Nothing else is changed
-- but the nodes at the pages `touched`.
pub record IsRelisted (m : Machine) (s s' : Buddy) (level : ℕ) (l : BlockLevel) (flag : ℕ × ℕ)
    (touched ys : List ℕ) : Type 0 where
  pub at_level : load s'.levels level ≡ ok (record l { head = head_or 0 ys })
  pub ring : IsRing m s'.memory (head_or 0 ys) ys
  pub other_levels : (k : ℕ) → level ≢ k → load s'.levels k ≡ load s.levels k
  pub other_pages : (a : ℕ) → has a touched ≡ false → s'.memory a ≡ s.memory a
  pub word : ℕ
  pub was : load s.flags flag.0 ≡ ok word
  pub toggled : s'.flags ≡ set s.flags flag.0 (bit_xor word (shl m.word_bits 1 flag.1))
  pub area : (s'.base ≡ s.base) × (s'.size ≡ s.size)
  pub accounts : (s'.alloc_mem ≡ s.alloc_mem) × (s'.free_mem ≡ s.free_mem)

module _ (m : Machine) (s : Buddy) where
  pub set_head_lem :
      (level head : ℕ) {l : BlockLevel}
      → load s.levels level ≡ ok l
      → set_head m s level head
        ≡ ok (record s { levels = set s.levels level (record l { head = head }) })
  unfolding set_head
  set_head_lem level head at = rw at (rw (store_lem s.levels level _ (load-lt s.levels level at)))

  pub toggle_flag_lem :
      (index bit : ℕ) {word : ℕ}
      → load s.flags index ≡ ok word
      → toggle_flag m s index bit
        ≡ ok (record s { flags = set s.flags index (bit_xor word (shl m.word_bits 1 bit)) })
  unfolding toggle_flag
  toggle_flag_lem index bit was =
      rw was (rw (store_lem s.flags index _ (load-lt s.flags index was)))

module _ (m : Machine) (s : Buddy) (level b : ℕ) {l : BlockLevel} {flag : ℕ × ℕ} {word : ℕ}
    (f : get_flag_index_and_bit m s b level ≡ ok flag) (was : load s.flags flag.0 ≡ ok word)
    (at : load s.levels level ≡ ok l) (nz : b ≢ 0) (p : IsPage m b) where
  abbrev flags' : List ℕ
  flags' = set s.flags flag.0 (bit_xor word (shl m.word_bits 1 flag.1))

  abbrev first : Buddy
  first =
      record (put_node m (record s { levels = set s.levels level (record l { head = b }) }) b
        (record (s.memory b) { prev = b; next = b })) { flags = flags' }

  add_first : IsRing m s.memory l.head [] → add_to_list m s level b ≡ ok first
  unfolding add_to_list put_node
  add_first r =
      rw (f, at)
        (rw (get_block_node_unchecked_lem m s b p, r.head_is)
          (rw (set_head_lem m s level b at) (toggle_flag_lem m _ flag.0 flag.1 was)))

  abbrev linked : ℕ → ℕ → Buddy
  linked x tail = record (link_tail m s b x tail) { flags = flags' }

  add_linked :
      (x : ℕ) (xs : List ℕ)
      → IsRing m s.memory l.head (x ∷ xs)
      → add_to_list m s level b ≡ ok (linked x (last_or x xs))
  unfolding add_to_list link_tail put_node
  add_linked x xs r =
      rw (f, at)
        (rw (get_block_node_unchecked_lem m s b p, r.head_is)
          (rw (head_nz, get_block_node_lem m s x (r.pages).1 (r.links).0.verified)
            (rw
              (
                (r.links).0.prev_is,
                get_block_node_lem m s (last_or x xs) (AllPages-last m x xs r.pages).1
                    (Links-last m s.memory _ x xs _ r.links),
              )
              (toggle_flag_lem m (link_tail m s b x (last_or x xs)) flag.0 flag.1 was))))
    where
      head_nz : (x == 0) ≡ false
      head_nz = ground (arith, (r.pages).0)

  -- Let `level` be in range, its list be well formed, the flag word of the page be in range, and the
  -- page be aligned, not zero and not in the list. Then `add_to_list` does not panic. The list has
  -- the page behind its last one and is well formed, its flag is toggled, and the other levels, the
  -- other flags, the nodes at all other pages and the accounts are as before.
  pub add_to_list-IsRelisted :
      (xs : List ℕ)
      → IsRing m s.memory l.head xs
      → has b xs ≡ false
      → (s' : Buddy) × (add_to_list m s level b ≡ ok s')
        × IsRelisted m s s' level l flag (b ∷ xs) (xs ++ (b ∷ []))
  unfolding put_node link_tail
  add_to_list-IsRelisted [] r out = (
    first,
    add_first r,
    record {
      at_level = load-set_self s.levels level (record l { head = b }) (load-lt s.levels level at);
      ring = singleton-IsRing m s.memory (s.memory b) b nz p;
      other_levels = λ k ne. load-set_ne s.levels level k (record l { head = b }) ne;
      other_pages = λ a o. write_ne s.memory b _ a (ground (arith, o));
      word = word;
      was = was;
      toggled = refl;
      area = (refl, refl);
      accounts = (refl, refl);
    },
  )
  add_to_list-IsRelisted (x ∷ xs) r out = (
    linked x (last_or x xs),
    add_linked x xs r,
    record {
      at_level = at ∙ ap (λ h. ok (record l { head = h })) r.head_is;
      ring = link_tail-IsRing m s b x xs (IsRing-head m r) out nz p;
      other_levels = λ k ne. refl;
      other_pages = λ a o. link_tail-memory m s b x xs a o;
      word = word;
      was = was;
      toggled = refl;
      area = (refl, refl);
      accounts = (refl, refl);
    },
  )
