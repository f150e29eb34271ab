-- ===== src/Mm/PageAllocator/Unlink.antt =====
-- The writes of `BuddyPageAllocator::remove_from_list` of src/mm/page_allocator.rs that take a block out of
-- a list with other blocks.
use mathlib.Core.List.{append-nil}
use mathlib.Core.Path.{subst}
use propeller_kernel.Prelude.{ℕ, ◌≡◌, refl, sym, false, List, [], ◌∷◌, ◌++◌, arith}
use propeller_kernel.Mm.Machine.{Machine}
use propeller_kernel.Mm.PageAllocator.{Buddy, BlockNode, write, update_checksum, put_node, unlink}
use propeller_kernel.Mm.PageAllocator.Ring.{
  has, Distinct, Disjoint, head_or, last_or, IsNode, Links, Links-frame, Links-append, Links-split,
  Links-set_before, Links-set_after, AllPages, IsRing, last_or-append_cons, Distinct-split,
  Distinct-join, AllPages-split, AllPages-join, has-last_or, not_left,
}

abbrev pub cleared : BlockNode
cleared = record { next = 0; prev = 0; checksum = 0 }

module _ (m : Machine) (memory : ℕ → BlockNode) (x : ℕ) (pre : List ℕ) (a : ℕ) where
  abbrev before_a : ℕ
  before_a = last_or x pre

  -- The memory after the writes to the nodes before and behind `a`.
  abbrev node1 : ℕ → BlockNode
  node1 next = update_checksum m (record (memory next) { prev = before_a })

  abbrev mem1 : ℕ → ℕ → BlockNode
  mem1 next = write memory next (node1 next)

  abbrev node2 : ℕ → BlockNode
  node2 next = update_checksum m (record (mem1 next before_a) { next = next })

  abbrev mem2 : ℕ → ℕ → BlockNode
  mem2 next = write (mem1 next) before_a (node2 next)

  abbrev unlinked : ℕ → ℕ → BlockNode
  unlinked next = write (mem2 next) a cleared

  module _ (d : Distinct (x ∷ pre)) (out : has a (x ∷ pre) ≡ false) where
    -- `a` is the last node, and the head is behind it.
    unlink_last : Links m memory a (x ∷ pre) a → Links m (unlinked x) before_a (x ∷ pre) x
    unlink_last l = Links-frame m (mem2 x) a cleared before_a (x ∷ pre) x out (
        Links-set_after m (mem1 x) before_a x pre a x d
          (Links-set_before m memory a before_a x pre a (d.0) l))

    -- There is a node `w` behind `a`.
    unlink_inner :
        (w : ℕ) (ws : List ℕ)
        → Distinct (a ∷ w ∷ ws)
        → Disjoint (x ∷ pre) (a ∷ w ∷ ws)
        → Links m memory (last_or w ws) (x ∷ pre) a
        → Links m memory a (w ∷ ws) x
        → Links m (unlinked w) (last_or w ws) ((x ∷ pre) ++ (w ∷ ws)) x
    unlink_inner w ws dw apart front back =
        Links-append m (unlinked w) (last_or w ws) (x ∷ pre) (w ∷ ws) x
          (Links-frame m (mem2 w) a cleared _ (x ∷ pre) w out (
            Links-set_after m (mem1 w) _ x pre a w d (
              Links-frame m memory w (node1 w) _ (x ∷ pre) a
                (not_left (x ∷ pre) (a ∷ w ∷ ws) w apart (ground arith)) front)))
          (Links-frame m (mem2 w) a cleared before_a (w ∷ ws) x (dw.0) (
            Links-frame m (mem1 w) before_a (node2 w) before_a (w ∷ ws) x
              (ground (arith, apart before_a (has-last_or x pre)))
              (Links-set_before m memory a before_a w ws x ((dw.1).0) back)))

module _ (m : Machine) (s : Buddy) (x : ℕ) (pre : List ℕ) (a : ℕ) where
  -- The nodes of `a` and of its neighbours.
  pub IsNode-of :
      (vs : List ℕ)
      → IsRing m s.memory x ((x ∷ pre) ++ (a ∷ vs))
      → IsNode m (s.memory a) (last_or x pre) (head_or x vs)
  IsNode-of vs r = (Links-split m s.memory _ (x ∷ pre) (a ∷ vs) x r.links).1.0

  -- Unlinking a block behind the head removes it from the list.
  pub unlink-IsRing :
      (vs : List ℕ)
      → IsRing m s.memory x ((x ∷ pre) ++ (a ∷ vs))
      → IsRing m (unlink m s a (s.memory a)).memory x ((x ∷ pre) ++ vs)
  unfolding unlink put_node
  unlink-IsRing vs r =
      rw ((IsNode-of vs r).prev_is, (IsNode-of vs r).next_is)
        (record {
          head_is = refl;
          links = linked vs r;
          distinct = Distinct-join (x ∷ pre) vs (ds.0) ((ds.1).1) (λ c h. ground (arith, ds.2 c h));
          pages = AllPages-join m (x ∷ pre) vs (ps.0) (((ps.1).2));
        })
    where
      ds : Distinct (x ∷ pre) × Distinct (a ∷ vs) × Disjoint (x ∷ pre) (a ∷ vs)
      ds = Distinct-split (x ∷ pre) (a ∷ vs) r.distinct

      out : has a (x ∷ pre) ≡ false
      out = not_left (x ∷ pre) (a ∷ vs) a (ds.2) (ground arith)

      ps : AllPages m (x ∷ pre) × AllPages m (a ∷ vs)
      ps = AllPages-split m (x ∷ pre) (a ∷ vs) r.pages

      linked :
          (vs : List ℕ)
          → IsRing m s.memory x ((x ∷ pre) ++ (a ∷ vs))
          → Links m
              (unlinked m s.memory x pre a (head_or x vs))
              (last_or 0 ((x ∷ pre) ++ vs))
              ((x ∷ pre) ++ vs)
              x
      linked [] r =
          let (front, back) = Links-split m s.memory _ (x ∷ pre) (a ∷ []) x r.links in
          subst (λ q. Links m (unlinked m s.memory x pre a x) (last_or x q) (x ∷ q) x)
            (sym (append-nil pre))
            (unlink_last m s.memory x pre a (ds.0) out
              (subst (λ t. Links m s.memory t (x ∷ pre) a) (last_or-append_cons x pre a []) front))
      linked (w ∷ ws) r =
          let (front, back) = Links-split m s.memory _ (x ∷ pre) (a ∷ w ∷ ws) x r.links in
          let (dx, dw, apart) = Distinct-split (x ∷ pre) (a ∷ w ∷ ws) r.distinct in
          subst (λ t. Links m (unlinked m s.memory x pre a w) t ((x ∷ pre) ++ (w ∷ ws)) x)
            (sym (last_or-append_cons x pre w ws))
            (unlink_inner m s.memory x pre a dx out w ws dw apart
              (subst (λ t. Links m s.memory t (x ∷ pre) a) (last_or-append_cons x pre a (w ∷ ws))
                front)
              (back.1))

-- Removal from the list of a level, given the flag of the block and the level.
