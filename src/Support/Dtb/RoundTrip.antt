-- ===== src/Support/Dtb/RoundTrip.antt =====
-- Numbers written big-endian are read back by src/support/dtb.rs.
use propeller_kernel.Prelude.{
  ℕ, ◌+◌, ◌-◌, ◌*◌, ◌/◌, ◌%◌, ◌^◌, ◌≤◌, ◌<◌, ◌≡◌, refl, ap, sym, ◌∙◌, some, List, [], ◌∷◌, ◌++◌, ok,
  false, ltb, lt→ltb, ltb-false, le→leb, ◌==◌, length, length-append, drop-length_append,
  take-length_append, bit_or, arith,
}
use mathlib.Core.List.{append_assoc}
use propeller_kernel.Support.Bits.{shl}
use propeller_kernel.Support.Bits.Join.{or-add}
use propeller_kernel.Support.Dtb.{
  DtbReader, from_be_bytes, get_u32_unchecked, get_u32, read_cells, get_reg_pair_size, get_reg_pair,
}
use propeller_kernel.Support.Dtb.Cursor.{slice_lem}

-- `u32::to_be_bytes`
unfoldable pub to_be_bytes : ℕ → List ℕ
to_be_bytes v = v / 2 ^ 24 % 256 ∷ v / 2 ^ 16 % 256 ∷ v / 2 ^ 8 % 256 ∷ v % 256 ∷ []

length-to_be_bytes : (v : ℕ) → length (to_be_bytes v) ≡ 4
unfolding to_be_bytes
length-to_be_bytes v = refl

from_be_bytes-to_be_bytes : (v : ℕ) → v < 2 ^ 32 → from_be_bytes 0 (to_be_bytes v) ≡ v
unfolding from_be_bytes to_be_bytes
from_be_bytes-to_be_bytes v h = omega arith

-- Words, each below `2 ^ 32`, one behind the other.
abbrev pub AllWords : List ℕ → Type 0
AllWords [] = Unit
AllWords (c ∷ cells) = (c < 2 ^ 32) × AllWords cells

unfoldable pub encode_cells : List ℕ → List ℕ
encode_cells [] = []
encode_cells (c ∷ cells) = to_be_bytes c ++ encode_cells cells

-- The 64-bit number of which they are the last digits to the base `2 ^ 32`.
unfoldable pub cells_value : ℕ → List ℕ → ℕ
cells_value acc [] = acc
cells_value acc (c ∷ cells) = cells_value ((acc * 2 ^ 32 + c) % 2 ^ 64) cells

pub length-encode_cells : (cells : List ℕ) → length (encode_cells cells) ≡ 4 * length cells
unfolding encode_cells
length-encode_cells [] = refl
length-encode_cells (c ∷ cells) =
    length-append (to_be_bytes c) (encode_cells cells)
    ∙ omega (arith, length-to_be_bytes c, length-encode_cells cells)

encode_cells-append :
    (before after : List ℕ)
    → encode_cells (before ++ after) ≡ encode_cells before ++ encode_cells after
unfolding encode_cells
encode_cells-append [] after = refl
encode_cells-append (c ∷ before) after =
    ap (λ t. to_be_bytes c ++ t) (encode_cells-append before after)
    ∙ sym (append_assoc (to_be_bytes c) (encode_cells before) (encode_cells after))

-- The bytes before and behind one of the words.
pub encode_cells-split :
    (pre before after post : List ℕ)
    → pre ++ (encode_cells (before ++ after) ++ post)
      ≡ (pre ++ encode_cells before) ++ (encode_cells after ++ post)
encode_cells-split pre before after post = simp (encode_cells-append, append_assoc)

module _ (w : ℕ) (r : DtbReader) (fits : length r.dtb < 2 ^ w) where
  get_u32_unchecked-to_be_bytes :
      (v loc : ℕ) (pre post : List ℕ)
      → v < 2 ^ 32
      → r.dtb ≡ pre ++ (to_be_bytes v ++ post)
      → loc ≡ length pre
      → get_u32_unchecked w r loc ≡ ok (v, loc + 4)
  unfolding get_u32_unchecked
  get_u32_unchecked-to_be_bytes v loc pre post h e at =
      rw
        (
          lt→ltb (loc + 4) (2 ^ w) (omega (arith, room)),
          slice_lem r.dtb loc (loc + 4) (omega arith) (omega (arith, room)),
          (let four : loc + 4 - loc ≡ 4 = omega arith in four),
          e,
          drop-length_append pre (to_be_bytes v ++ post) loc at,
          take-length_append (to_be_bytes v) post 4 (sym (length-to_be_bytes v)),
          from_be_bytes-to_be_bytes v h,
        )
        refl
    where
      room : loc + 4 ≤ length r.dtb
      room = omega (
        arith,
        ap (λ t. length t) e,
        length-append pre (to_be_bytes v ++ post),
        length-append (to_be_bytes v) post,
        length-to_be_bytes v,
      )

  -- A word among others is read.
  pub get_u32-encode_cells :
      (before : List ℕ) (v : ℕ) (after pre post : List ℕ) (loc : ℕ)
      → v < 2 ^ 32
      → r.dtb ≡ pre ++ (encode_cells (before ++ (v ∷ after)) ++ post)
      → loc ≡ length pre + 4 * length before
      → get_u32 w r loc ≡ ok (some (v, loc + 4))
  unfolding get_u32 encode_cells
  get_u32-encode_cells before v after pre post loc small e here =
      rw
        (
          le→leb 4 (length r.dtb) (omega (arith, room)),
          ltb-false (length r.dtb - 4) loc (omega (arith, room, here)),
          get_u32_unchecked-to_be_bytes v loc (pre ++ encode_cells before)
              (encode_cells after ++ post) small at
              (omega
                (arith, here, length-append pre (encode_cells before), length-encode_cells before)),
        )
        refl
    where
      at : r.dtb ≡ (pre ++ encode_cells before) ++ (to_be_bytes v ++ (encode_cells after ++ post))
      at =
          e
          ∙ (encode_cells-split pre before (v ∷ after) post
              ∙ ap (λ t. (pre ++ encode_cells before) ++ t)
                  (append_assoc (to_be_bytes v) (encode_cells after) post))

      room : length pre + 4 * length before + 4 ≤ length r.dtb
      room = omega (
        arith,
        ap (λ t. length t) at,
        length-append (pre ++ encode_cells before) (to_be_bytes v ++ (encode_cells after ++ post)),
        length-append pre (encode_cells before),
        length-append (to_be_bytes v) (encode_cells after ++ post),
        length-to_be_bytes v,
        length-encode_cells before,
      )

  read_cells-encode_cells :
      (cells : List ℕ) (acc loc : ℕ) (pre post : List ℕ)
      → AllWords cells
      → r.dtb ≡ pre ++ (encode_cells cells ++ post)
      → loc ≡ length pre
      → read_cells w r 32 (length cells) acc loc
        ≡ ok (cells_value acc cells, loc + 4 * length cells)
  unfolding read_cells encode_cells cells_value
  read_cells-encode_cells [] acc loc pre post h e at = ap (λ n. ok (acc, n)) (omega arith)
  read_cells-encode_cells (c ∷ cells) acc loc pre post (small, h) e at =
      rw
        (
          get_u32_unchecked-to_be_bytes c loc pre (encode_cells cells ++ post) small after at,
          joined,
        )
        (read_cells-encode_cells cells ((acc * 2 ^ 32 + c) % 2 ^ 64) (loc + 4)
            (pre ++ to_be_bytes c) post h
            (after ∙ sym (append_assoc pre (to_be_bytes c) (encode_cells cells ++ post)))
            (omega (arith, at, length-append pre (to_be_bytes c), length-to_be_bytes c))
          ∙ ap (λ n. ok (cells_value ((acc * 2 ^ 32 + c) % 2 ^ 64) cells, n)) (omega arith))
    where
      after : r.dtb ≡ pre ++ (to_be_bytes c ++ (encode_cells cells ++ post))
      after = e ∙ ap (λ t. pre ++ t) (append_assoc (to_be_bytes c) (encode_cells cells) post)

      joined : bit_or (shl 64 acc 32) c ≡ (acc * 2 ^ 32 + c) % 2 ^ 64
      joined = or-add 32 (shl 64 acc 32) c (omega arith) small ∙ omega arith

  -- On a tree that holds an address of at least one cell and behind it a size, written big-endian cell
  -- by cell, at the location of the cursor: reading the pair gives the two 64-bit numbers of which the
  -- cells are the digits to the base 2 ^ 32, and moves the cursor behind the pair.
  pub get_reg_pair-encode_cells :
      (addr size pre post : List ℕ)
      → 0 < length addr
      → AllWords addr
      → AllWords size
      → r.dtb ≡ pre ++ (encode_cells addr ++ (encode_cells size ++ post))
      → get_reg_pair w r (length addr) (length size) (length pre)
        ≡ ok (
            some (
              (cells_value 0 addr, cells_value 0 size),
              length pre + 4 * (length addr + length size),
            ))
  unfolding get_reg_pair get_reg_pair_size
  get_reg_pair-encode_cells addr size pre post some_cell words words' e =
      rw
        (
          nonzero,
          lt→ltb (length addr + length size) (2 ^ w) (omega (arith, room)),
          lt→ltb (4 * (length addr + length size)) (2 ^ w) (omega (arith, room)),
          le→leb (4 * (length addr + length size)) (length r.dtb) (omega (arith, room)),
          inside,
          read_cells-encode_cells addr 0 (length pre) pre (encode_cells size ++ post) words e refl,
          read_cells-encode_cells size 0 (length pre + 4 * length addr) (pre ++ encode_cells addr)
              post words'
              (e ∙ sym (append_assoc pre (encode_cells addr) (encode_cells size ++ post)))
              (omega (arith, length-append pre (encode_cells addr), length-encode_cells addr)),
        )
        (ap (λ n. ok (some ((cells_value 0 addr, cells_value 0 size), n))) (omega arith))
    where
      room : length pre + 4 * (length addr + length size) ≤ length r.dtb
      room = omega (
        arith,
        ap (λ t. length t) e,
        length-append pre (encode_cells addr ++ (encode_cells size ++ post)),
        length-append (encode_cells addr) (encode_cells size ++ post),
        length-append (encode_cells size) post,
        length-encode_cells addr,
        length-encode_cells size,
      )

      nonzero : (length addr == 0) ≡ false
      nonzero = ground (arith, some_cell)

      inside : ltb (length r.dtb - 4 * (length addr + length size)) (length pre) ≡ false
      inside = ltb-false _ _ (omega (arith, room))
