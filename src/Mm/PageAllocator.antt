-- ===== src/Mm/PageAllocator.antt =====
-- src/mm/page_allocator.rs: the buddy page allocator. The list nodes stand in the free blocks
-- themselves; `memory` is the physical memory that `Task::map_page` makes visible, with the node that
-- the first bytes of a page read as. A mapping does not change it, so two mappings of one page alias.
pub mod Init
pub mod Nodes
pub mod Ring
pub mod Add
pub mod Unlink
pub mod Remove
pub mod Levels
pub mod Termination
use propeller_kernel.Prelude.{
  ℕ, zero, suc, ◌+◌, ◌-◌, ◌*◌, ◌^◌, Bool, true, false, ◌&&◌, ◌||◌, not, Option, none, some, List,
  [], ◌∷◌, Run, ok, panic, out_of_fuel, check, ltb, leb, ◌==◌, if◌then◌else◌, length, replicate,
  min, bit_and, bit_or, bit_xor,
}
use propeller_kernel.Prelude.Monad.{◌>>=◌, ◌>>◌, add, sub, load, store}
use propeller_kernel.Support.Bits.{
  shl, shr, align_down, align_up, is_power_of_2, least_significant_bit, xor_checksum,
}
use propeller_kernel.Arch.Bits.{floor_log2, ceil_log2, checksum_seed}
use propeller_kernel.Mm.Machine.{Machine}

-- `BLOCK_LEVELS`
abbrev pub block_levels : ℕ
block_levels = 11

pub record BlockNode : Type 0 where
  pub next : ℕ
  pub prev : ℕ
  pub checksum : ℕ

pub record BlockLevel : Type 0 where
  pub head : ℕ
  pub offset : ℕ

pub record Buddy : Type 0 where
  pub base : ℕ
  pub size : ℕ
  pub levels : List BlockLevel
  pub flags : List ℕ
  pub alloc_mem : ℕ
  pub free_mem : ℕ
  pub memory : ℕ → BlockNode

-- A write to the node of one page.
unfoldable pub write : (ℕ → BlockNode) → ℕ → BlockNode → ℕ → BlockNode
write memory addr node a = if a == addr then node else memory a

module _ (m : Machine) where
  open m use {word_bits, word_bit_shift, word_shift, page_shift}

  abbrev pub page_size : ℕ
  page_size = 2 ^ page_shift

  unfoldable pub new_node : ℕ → ℕ → BlockNode
  new_node next prev = record {
    next = next;
    prev = prev;
    checksum = xor_checksum (checksum_seed word_bits) (next ∷ prev ∷ []);
  }

  unfoldable pub update_checksum : BlockNode → BlockNode
  update_checksum n = record n {
    checksum = xor_checksum (checksum_seed word_bits) (n.prev ∷ n.next ∷ []);
  }

  unfoldable pub verify_checksum : BlockNode → Bool
  verify_checksum n = xor_checksum (checksum_seed word_bits) (n.next ∷ n.prev ∷ []) == n.checksum

  unfoldable pub calc_first_level : ℕ → ℕ × ℕ
  calc_first_level size = (shr size page_shift, 0)

  unfoldable pub calc_next_level : ℕ → ℕ → Run (ℕ × ℕ)
  calc_next_level blocks offset = do
    pairs ← add word_bits blocks 1
    rounded ← add word_bits (shr pairs 1) word_bits
    offset' ← add word_bits offset (shr (rounded - 1) word_bit_shift)
    ok (shr blocks 1, offset')

  -- The loop of `calc_metadata_size`.
  unfoldable pub metadata_loop : ℕ → ℕ → ℕ → Run ℕ
  metadata_loop zero blocks offset = ok offset
  metadata_loop (suc left) blocks offset = do
    (blocks', offset') ← calc_next_level blocks offset
    metadata_loop left blocks' offset'

  unfoldable pub calc_metadata_size : ℕ → Run ℕ
  calc_metadata_size size = do
    let (blocks, offset) = calc_first_level size
    words ← metadata_loop block_levels blocks offset
    ok (shl word_bits words word_shift)

  -- The loop of `make_levels`: the levels and the offset behind the last one.
  unfoldable pub levels_loop : ℕ → ℕ → ℕ → Run (List BlockLevel × ℕ)
  levels_loop zero blocks offset = ok ([], offset)
  levels_loop (suc left) blocks offset = do
    (blocks', offset') ← calc_next_level blocks offset
    (levels, end) ← levels_loop left blocks' offset'
    ok (record { head = 0; offset = offset } ∷ levels, end)

  unfoldable pub make_levels : ℕ → Run (List BlockLevel × ℕ)
  make_levels size = do
    let (blocks, offset) = calc_first_level size
    (levels, end) ← levels_loop block_levels blocks offset
    ok (levels, shl word_bits end word_shift)

  -- `get_block_node_unchecked_mut` and `get_block_node_mut`: the node at a page, after the checks.
  unfoldable pub get_block_node_unchecked : Buddy → ℕ → Run BlockNode
  get_block_node_unchecked s addr = do
    aligned ← align_down word_bits addr page_size
    check (aligned == addr)
    ok (s.memory addr)

  unfoldable pub get_block_node : Buddy → ℕ → Run BlockNode
  get_block_node s addr = do
    node ← get_block_node_unchecked s addr
    check (verify_checksum node)
    ok node

  -- Word and bit of the flag for the pair of a block.
  unfoldable pub get_flag_index_and_bit : Buddy → ℕ → ℕ → Run (ℕ × ℕ)
  get_flag_index_and_bit s block_addr level = do
    relative ← sub block_addr s.base
    let block_pair = shr (shr (shr relative page_shift) level) 1
    l ← load s.levels level
    index ← add word_bits l.offset (shr block_pair word_bit_shift)
    ok (index, bit_and block_pair (word_bits - 1))

  unfoldable pub toggle_flag : Buddy → ℕ → ℕ → Run Buddy
  toggle_flag s index bit = do
    word ← load s.flags index
    flags ← store s.flags index (bit_xor word (shl word_bits 1 bit))
    ok (record s { flags = flags })

  unfoldable pub set_head : Buddy → ℕ → ℕ → Run Buddy
  set_head s level head = do
    l ← load s.levels level
    levels ← store s.levels level (record l { head = head })
    ok (record s { levels = levels })

  -- `node` written to the page at `addr`, with its checksum.
  unfoldable pub put_node : Buddy → ℕ → BlockNode → Buddy
  put_node s addr node = record s { memory = write s.memory addr (update_checksum node) }

  -- The writes of `add_to_list` on a list that is not empty. Each reads the memory that the writes
  -- before it have left, since the head and the tail may be one page.
  unfoldable pub link_tail : Buddy → ℕ → ℕ → ℕ → Buddy
  link_tail s block_addr head_addr prev_addr =
      let block = s.memory block_addr in
      let s1 = put_node s block_addr (record block { prev = prev_addr; next = head_addr }) in
      let s2 = put_node s1 head_addr (record (s1.memory head_addr) { prev = block_addr }) in
      put_node s2 prev_addr (record (s2.memory prev_addr) { next = block_addr })

  unfoldable pub add_to_list : Buddy → ℕ → ℕ → Run Buddy
  add_to_list s level block_addr = do
    (index, bit_idx) ← get_flag_index_and_bit s block_addr level
    l ← load s.levels level
    block ← get_block_node_unchecked s block_addr
    s' ←
        (if l.head == 0
          then (do
            s1 ← set_head s level block_addr
            ok (put_node s1 block_addr (record block { prev = block_addr; next = block_addr })))
          else do
            head ← get_block_node s l.head
            tail ← get_block_node s head.prev
            ok (link_tail s block_addr l.head head.prev))
    toggle_flag s' index bit_idx

  -- The writes of `remove_from_list` on a list with other blocks. The fields of the removed node are
  -- cleared, and its checksum with them.
  unfoldable pub unlink : Buddy → ℕ → BlockNode → Buddy
  unlink s block_addr block =
      let s1 = put_node s block.next (record (s.memory block.next) { prev = block.prev }) in
      let s2 = put_node s1 block.prev (record (s1.memory block.prev) { next = block.next }) in
      record s2 {
        memory = write s2.memory block_addr (record { next = 0; prev = 0; checksum = 0 });
      }

  unfoldable pub remove_from_list : Buddy → ℕ → ℕ → Run Buddy
  remove_from_list s level block_addr = do
    (index, bit_idx) ← get_flag_index_and_bit s block_addr level
    l ← load s.levels level
    block ← get_block_node s block_addr
    s' ←
        (if block.next == block_addr
          then (do
            check (block.prev == block.next)
            check (l.head == block_addr)
            set_head s level 0)
          else do
            prev ← get_block_node s block.prev
            next ← get_block_node s block.next
            let s1 = unlink s block_addr block
            -- The head is read from the cleared node.
            if block_addr == l.head then set_head s1 level (s1.memory block_addr).next else ok s1)
    toggle_flag s' index bit_idx

  unfoldable pub pop_from_list : Buddy → ℕ → Run (Buddy × ℕ)
  pop_from_list s level = do
    l ← load s.levels level
    s' ← remove_from_list s level l.head
    ok (s', l.head)

  -- The loop of `split_free_block`, from level `l - 1` down, with `left` levels to go.
  unfoldable pub split_loop : ℕ → ℕ → ℕ → Buddy → Run Buddy
  split_loop zero l block_addr s = ok s
  split_loop (suc left) l block_addr s = do
    s' ← add_to_list s (l - 1) (bit_or block_addr (shl word_bits page_size (l - 1)))
    split_loop left (l - 1) block_addr s'

  unfoldable pub split_free_block : Buddy → ℕ → ℕ → Run (Buddy × ℕ)
  split_free_block s level min_level = do
    (s1, block_addr) ← pop_from_list s level
    s2 ← split_loop (level - min_level) level block_addr s1
    ok (s2, block_addr)

  -- The search of `allocate` for a level with a free block, from `level` on.
  unfoldable pub allocate_loop : ℕ → ℕ → ℕ → Buddy → Run (Buddy × Option (ℕ × ℕ))
  allocate_loop zero level min_level s = ok (s, none)
  allocate_loop (suc left) level min_level s = do
    l ← load s.levels level
    let rest = allocate_loop left (level + 1) min_level s
    if l.head == 0 then rest else do
      (s', block) ← split_free_block s level min_level
      let pages = shl word_bits 1 min_level
      let block_size = shl word_bits pages page_shift
      free_mem ← sub s'.free_mem block_size
      alloc_mem ← add word_bits s'.alloc_mem block_size
      ok (record s' { free_mem = free_mem; alloc_mem = alloc_mem }, some (block, pages))

  unfoldable pub allocate : Buddy → ℕ → Run (Buddy × Option (ℕ × ℕ))
  allocate s pages = if pages == 0 then ok (s, none) else (do
    min_level ← ceil_log2 word_bits pages
    allocate_loop (block_levels - min_level) min_level min_level s)

  -- The loop of `free`: the block is joined with its buddy until the flag says that the buddy is in
  -- use.
  unfoldable pub free_loop : ℕ → ℕ → ℕ → Buddy → Run Buddy
  free_loop zero level base s = ok s
  free_loop (suc left) level base s = do
    (index, bit_idx) ← get_flag_index_and_bit s base level
    word ← load s.flags index
    if bit_and word (shl word_bits 1 bit_idx) == 0 then add_to_list s level base else do
      relative ← sub base s.base
      buddy_addr ←
          add word_bits (bit_xor relative (shl word_bits (shl word_bits 1 level) page_shift)) s.base
      s' ← remove_from_list s level buddy_addr
      free_loop left (level + 1) (min base buddy_addr) s'

  unfoldable pub free : Buddy → ℕ → ℕ → Run Buddy
  free s base pages = if base == 0 || pages == 0 then ok s else do
    check (is_power_of_2 pages)
    min_level ← floor_log2 word_bits pages
    check (ltb min_level block_levels)
    let block_size = shl word_bits pages page_shift
    mask ← sub block_size 1
    check (bit_and base mask == 0)
    limit ← add word_bits base block_size
    range_end ← sub limit 1
    size ← sub s.size 1
    alloc_end ← add word_bits s.base size
    check (leb s.base base && leb range_end alloc_end)
    s' ← free_loop (block_levels - min_level) min_level base s
    free_mem ← add word_bits s'.free_mem block_size
    alloc_mem ← sub s'.alloc_mem block_size
    ok (record s' { free_mem = free_mem; alloc_mem = alloc_mem })
