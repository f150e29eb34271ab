-- ===== src/Arch/DtbMemory/Blocks.antt =====
-- `add_memory_blocks` of src/arch/arm_common/dtb_memory.rs on a `reg` property that is written as the
-- device tree's format says.
use mathlib.Core.List.{append_assoc}
use native.Mathlib.Nat.{le-mul_of_pos_right, mul-mod_right, mul-div_right}
use propeller_kernel.Prelude.{
  ℕ, zero, suc, ◌+◌, ◌-◌, ◌*◌, ◌%◌, ◌^◌, ◌≤◌, ◌<◌, ◌≡◌, refl, ap, sym, ◌∙◌, inl, inr, Bool-cases,
  true, false, ◌||◌, ◌&&◌, ◌==◌, ltb, lt→ltb, if◌then◌else◌, min, max, some, List, [], ◌∷◌, ◌++◌,
  Run, ok, panic, out_of_fuel, length, length-append, arith,
}
use propeller_kernel.Prelude.Monad
use propeller_kernel.Support.Dtb.{DtbReader, get_reg_pair_size, get_reg_pair}
use propeller_kernel.Support.Dtb.Parse.{Result, value}
use propeller_kernel.Support.Dtb.RoundTrip.{
  AllWords, encode_cells, cells_value, length-encode_cells, get_reg_pair-encode_cells,
}
use propeller_kernel.Support.Dtb.Scan.{Scan, and_then}
use propeller_kernel.Arch.Memory.{MemoryConfig, MemoryRangeHandler}
use propeller_kernel.Arch.DtbMemory.{DtbMemoryScanner, clip_size}
use propeller_kernel.Arch.DtbMemory.Scanner.{add_block, add_blocks_loop, add_memory_blocks}

-- A block of memory as its cells: those of the address, and those of the size.
abbrev pub Block : Type 0
Block = List ℕ × List ℕ

-- Blocks of so many cells each.
abbrev pub AllBlocks : ℕ → ℕ → List Block → Type 0
AllBlocks a z [] = Unit
AllBlocks a z ((addr, size) ∷ blocks) =
    (length addr ≡ a) × (length size ≡ z) × AllWords addr × AllWords size × AllBlocks a z blocks

unfoldable pub encode_blocks : List Block → List ℕ
encode_blocks [] = []
encode_blocks ((addr, size) ∷ blocks) =
    encode_cells addr ++ (encode_cells size ++ encode_blocks blocks)

encode_blocks-room :
    (a z : ℕ) (blocks : List Block)
    → 0 < length blocks
    → AllBlocks a z blocks
    → 4 * (a + z) ≤ length (encode_blocks blocks)
unfolding encode_blocks
encode_blocks-room a z [] n h = absurd (omega arith)
encode_blocks-room a z ((addr, size) ∷ blocks) n (la, lz, wa, wz, h) = omega (
  arith,
  la,
  lz,
  length-append (encode_cells addr) (encode_cells size ++ encode_blocks blocks),
  length-append (encode_cells size) (encode_blocks blocks),
  length-encode_cells addr,
  length-encode_cells size,
)

-- A whole number of pairs is no error.
sound :
    (size total : ℕ)
    → 0 < size
    → size ≤ total
    → (size == 0 || (total == 0 || ltb total size)) ≡ false
sound size total h l = ground arith

rem_lem : (total size : ℕ) → 0 < size → Monad.rem total size ≡ ok (total % size)
rem_lem total zero h = absurd (omega arith)
rem_lem total (suc size) h = refl

module _ (w : ℕ) (handle_range : MemoryRangeHandler) where
  -- What is handed to the handler: the blocks in their order, without those that are empty or begin
  -- beyond the address space, and cut where the address space ends. A block at address zero is one byte
  -- shorter than the address space at most.
  unfoldable pub hand_over : MemoryConfig → List (ℕ × ℕ) → Run MemoryConfig
  hand_over config [] = ok config
  hand_over config ((base, size) ∷ blocks) =
      if ltb base (2 ^ w) && ltb 0 size
      then Monad.◌>>=◌ (handle_range config base (min size (2 ^ w - max 1 base)))
          (λ config'. hand_over config' blocks)
      else hand_over config blocks

  abbrev pub block_values : List Block → List (ℕ × ℕ)
  block_values [] = []
  block_values ((addr, size) ∷ blocks) =
      (cells_value 0 addr, cells_value 0 size) ∷ block_values blocks

  abbrev keep : DtbMemoryScanner → Run MemoryConfig → Run (DtbMemoryScanner × Result (Unit {0}))
  keep s code = Monad.◌>>=◌ code (λ config'. ok (record s { config = config' }, value tt))

  -- A block that is handed over, or nothing.
  add_block-true :
      (base size : ℕ) (s : DtbMemoryScanner)
      → (ltb base (2 ^ w) && ltb 0 size) ≡ true
      → add_block w handle_range base size s
        ≡ keep s (handle_range s.config base (min size (2 ^ w - max 1 base)))
  unfolding add_block clip_size
  add_block-true base size s h = rw (beyond, empty, clipped) refl
    where
      beyond : ltb (2 ^ w - 1) base ≡ false
      beyond = ground (arith, h)

      empty : (size == 0) ≡ false
      empty = ground (arith, h)

      clipped : clip_size w base size ≡ min size (2 ^ w - max 1 base)
      clipped = ground (arith, h)

  unread :
      (size : ℕ) {base : ℕ}
      → base < 2 ^ w
      → (ltb base (2 ^ w) && ltb 0 size) ≡ false
      → (size == 0) ≡ true
  unread size b h = ground (arith, b, h)

  add_block-false :
      (base size : ℕ) (s : DtbMemoryScanner)
      → 0 < 2 ^ w
      → (ltb base (2 ^ w) && ltb 0 size) ≡ false
      → add_block w handle_range base size s ≡ ok (s, value tt)
  unfolding add_block
  add_block-false base size s p h = elim (Bool-cases (ltb (2 ^ w - 1) base)) [
    | inl beyond ↦ rw beyond refl
    | inr reached ↦
        rw
          (
            reached,
            (let empty : (size == 0) ≡ true = unread size (ground (arith, p, reached)) h in empty),
          )
          refl
  ]

  -- The rest runs on what the handler returns.
  keep-and_then :
      (s : DtbMemoryScanner) (code : Run MemoryConfig) (rest : Scan DtbMemoryScanner (Unit {0}))
      (after : MemoryConfig → Run MemoryConfig)
      → ((config : MemoryConfig) → rest (record s { config = config }) ≡ keep s (after config))
      → Monad.◌>>=◌ (keep s code) (and_then (λ u. rest)) ≡ keep s (Monad.◌>>=◌ code after)
  keep-and_then s (ok config) rest after h = h config
  keep-and_then s panic rest after h = refl
  keep-and_then s out_of_fuel rest after h = refl

  module _ (r : DtbReader) (fits : length r.dtb < 2 ^ w) (a z : ℕ) (some_cell : 0 < a) where
    add_blocks_loop-encode_blocks :
        (blocks : List Block) (loc : ℕ) (pre post : List ℕ) (s : DtbMemoryScanner)
        → AllBlocks a z blocks
        → r.dtb ≡ pre ++ (encode_blocks blocks ++ post)
        → loc ≡ length pre
        → add_blocks_loop w handle_range r a z (length blocks) loc s
          ≡ keep s (hand_over s.config (block_values blocks))
    unfolding add_blocks_loop encode_blocks hand_over
    add_blocks_loop-encode_blocks [] loc pre post s h e at = refl
    add_blocks_loop-encode_blocks ((addr, size) ∷ blocks) loc pre post s (la, lz, wa, wz, h) e at =
        let rest : (t : DtbMemoryScanner)
            → add_blocks_loop w handle_range r a z (length blocks) (loc + 4 * (a + z)) t
              ≡ keep t (hand_over t.config (block_values blocks)) =
          λ t.
            add_blocks_loop-encode_blocks blocks (loc + 4 * (a + z)) before post t h there moved in
        rw read (elim (Bool-cases (ltb base (2 ^ w) && ltb 0 bytes)) [
          | inl handed ↦
              rw (add_block-true base bytes s handed, handed)
                (keep-and_then s (handle_range s.config base (min bytes (2 ^ w - max 1 base)))
                  (add_blocks_loop w handle_range r a z (length blocks) (loc + 4 * (a + z)))
                  (λ config'. hand_over config' (block_values blocks))
                  (λ config'. rest (record s { config = config' })))
          | inr skipped ↦
              rw (add_block-false base bytes s (omega (arith, fits)) skipped, skipped) (rest s)
        ])
      where
        base : ℕ
        base = cells_value 0 addr

        bytes : ℕ
        bytes = cells_value 0 size

        here :
            r.dtb
            ≡ pre ++ (encode_cells addr ++ (encode_cells size ++ (encode_blocks blocks ++ post)))
        here =
            e
            ∙ ap (λ t. pre ++ t)
                (append_assoc (encode_cells addr) (encode_cells size ++ encode_blocks blocks) post
                  ∙ ap (λ t. encode_cells addr ++ t)
                      (append_assoc (encode_cells size) (encode_blocks blocks) post))

        read : get_reg_pair w r a z loc ≡ ok (some ((base, bytes), loc + 4 * (a + z)))
        read =
            rw (la, lz, sym at) at
              (get_reg_pair-encode_cells w r fits addr size pre (encode_blocks blocks ++ post)
                (omega (arith, la)) wa wz here)

        before : List ℕ
        before = pre ++ (encode_cells addr ++ encode_cells size)

        there : r.dtb ≡ before ++ (encode_blocks blocks ++ post)
        there =
            here
            ∙ ap (λ t. pre ++ t)
                (sym (
                  append_assoc (encode_cells addr) (encode_cells size)
                    (encode_blocks blocks ++ post)))
            ∙ sym (
                append_assoc pre (encode_cells addr ++ encode_cells size)
                  (encode_blocks blocks ++ post))

        moved : loc + 4 * (a + z) ≡ length before
        moved = omega (
          arith,
          at,
          la,
          lz,
          length-append pre (encode_cells addr ++ encode_cells size),
          length-append (encode_cells addr) (encode_cells size),
          length-encode_cells addr,
          length-encode_cells size,
        )

    -- A `reg` property that holds one or more blocks, written big-endian cell by cell, the address with
    -- at least one cell: the blocks are handed to the handler in their order, without those that are
    -- empty or begin beyond the address space, each cut where the address space ends. The code ends as
    -- the handler does and changes nothing but the configuration that the handler returns.
    pub add_memory_blocks-hand_over :
        (blocks : List Block) (pre post : List ℕ) (s : DtbMemoryScanner)
        → 0 < length blocks
        → AllBlocks a z blocks
        → r.dtb ≡ pre ++ (encode_blocks blocks ++ post)
        → add_memory_blocks w handle_range r (4 * (a + z) * length blocks) a z (length pre) s
          ≡ Monad.◌>>=◌
              (hand_over s.config (block_values blocks))
              (λ config'. ok (record s { config = config' }, value tt))
    unfolding add_memory_blocks get_reg_pair_size
    add_memory_blocks-hand_over blocks pre post s some_block h e =
        rw
          (
            lt→ltb (a + z) (2 ^ w) (omega (arith, room)),
            lt→ltb (4 * (a + z)) (2 ^ w) (omega (arith, room)),
          )
          (rw
            (
              sound (4 * (a + z)) (4 * (a + z) * length blocks) (omega arith) some_size,
              rem_lem (4 * (a + z) * length blocks) (4 * (a + z)) (omega arith),
              mul-mod_right (4 * (a + z)) (length blocks),
              mul-div_right (length blocks) {m = 4 * (a + z)} (omega arith),
            )
            (add_blocks_loop-encode_blocks blocks (length pre) pre post s h e refl))
      where
        some_size : 4 * (a + z) ≤ 4 * (a + z) * length blocks
        some_size = le-mul_of_pos_right (4 * (a + z)) some_block

        room : 4 * (a + z) ≤ length r.dtb
        room = omega (
          arith,
          encode_blocks-room a z blocks some_block h,
          ap (λ t. length t) e,
          length-append pre (encode_blocks blocks ++ post),
          length-append (encode_blocks blocks) post,
        )
