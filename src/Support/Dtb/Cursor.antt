-- ===== src/Support/Dtb/Cursor.antt =====
-- The reads of src/support/dtb.rs at any location inside the tree: they stay inside, and do not panic.
use propeller_kernel.Prelude.{
  ℕ, zero, suc, ◌+◌, ◌-◌, ◌^◌, ◌≤◌, ◌<◌, ◌≡◌, refl, ap, ◌⊎◌, inl, inr, none, some, List, [], ◌∷◌,
  ok, ltb, ◌==◌, le→leb, lt→ltb, Bool-cases, length, take, drop, length-drop, min, bit_or, arith,
}
use propeller_kernel.Prelude.Access.{lt-load}
use propeller_kernel.Support.Bits.{shl}
use propeller_kernel.Support.Bits.Align.{align_up-least}
use propeller_kernel.Support.Dtb.{
  DtbReader, slice, from_be_bytes, get_u32_unchecked, get_u32, get_u64, skip_and_align, find_null,
  get_null_terminated_u8_slice,
}

abbrev pub AllBytes : List ℕ → Type 0
AllBytes [] = Unit
AllBytes (b ∷ bytes) = (b < 256) × AllBytes bytes

AllBytes-drop : (n : ℕ) (bytes : List ℕ) → AllBytes bytes → AllBytes (drop n bytes)
AllBytes-drop zero bytes h = h
AllBytes-drop (suc n) [] h = tt
AllBytes-drop (suc n) (b ∷ bytes) h = AllBytes-drop n bytes (h.1)

from_be_bytes-lt :
    (bytes : List ℕ) → AllBytes bytes → 4 ≤ length bytes → from_be_bytes 0 (take 4 bytes) < 2 ^ 32
unfolding from_be_bytes
from_be_bytes-lt [] h l = absurd (omega arith)
from_be_bytes-lt (a ∷ []) h l = absurd (omega arith)
from_be_bytes-lt (a ∷ (b ∷ [])) h l = absurd (omega arith)
from_be_bytes-lt (a ∷ (b ∷ (c ∷ []))) h l = absurd (omega arith)
from_be_bytes-lt (a ∷ (b ∷ (c ∷ (d ∷ bytes)))) h l = omega arith

-- A tree of the size that `check_dtb` admits, on words that hold its locations.
pub record IsReader (w : ℕ) (r : DtbReader) : Type 0 where
  pub header : 32 ≤ length r.dtb
  pub fits : length r.dtb + 4 ≤ 2 ^ w
  pub bytes : AllBytes r.dtb

pub slice_lem :
    (bytes : List ℕ) (from to : ℕ)
    → from ≤ to
    → to ≤ length bytes
    → slice bytes from to ≡ ok (take (to - from) (drop from bytes))
unfolding slice
slice_lem bytes from to h l = rw (le→leb from to h, le→leb to (length bytes) l)

module _ (w : ℕ) (r : DtbReader) (v : IsReader w r) where
  -- A read at the end of the tree gives nothing; any other gives a 32-bit value and moves by a word.
  pub get_u32_cases :
      (loc : ℕ)
      → ((get_u32 w r loc ≡ ok none) × (length r.dtb < loc + 4))
        ⊎ ((value : ℕ) × (get_u32 w r loc ≡ ok (some (value, loc + 4)))
            × (loc + 4 ≤ length r.dtb)
            × (value < 2 ^ 32))
  unfolding get_u32 get_u32_unchecked
  get_u32_cases loc = elim (Bool-cases (ltb (length r.dtb - 4) loc)) [
    | inl past ↦ inl (
      rw (le→leb 4 (length r.dtb) (omega (arith, v.header))) (rw past refl),
      ground (arith, v.header),
    )
    | inr inside ↦
        let room : loc + 4 ≤ length r.dtb = ground (arith, inside, v.header) in
        inr (
          from_be_bytes 0 (take 4 (drop loc r.dtb)),
          rw (le→leb 4 (length r.dtb) (omega (arith, v.header))) (
              rw
                (
                  inside,
                  lt→ltb (loc + 4) (2 ^ w) (omega (arith, v.fits)),
                  slice_lem r.dtb loc (loc + 4) (omega arith) room,
                  (let four : loc + 4 - loc ≡ 4 = omega arith in four),
                )
                refl),
          room,
          from_be_bytes-lt (drop loc r.dtb) (AllBytes-drop loc r.dtb v.bytes)
              (omega (arith, length-drop loc r.dtb)),
        )
  ]

  get_u32_unchecked-ok :
      (loc : ℕ)
      → loc + 4 ≤ length r.dtb
      → (value : ℕ) × (get_u32_unchecked w r loc ≡ ok (value, loc + 4))
  unfolding get_u32_unchecked
  get_u32_unchecked-ok loc room = (
    from_be_bytes 0 (take 4 (drop loc r.dtb)),
    rw
        (
          lt→ltb (loc + 4) (2 ^ w) (omega (arith, v.fits)),
          slice_lem r.dtb loc (loc + 4) (omega arith) room,
          (let four : loc + 4 - loc ≡ 4 = omega arith in four),
        )
        refl,
  )

  -- A read of two words at the end of the tree gives nothing; any other moves by two words.
  pub get_u64_cases :
      (loc : ℕ)
      → (get_u64 w r loc ≡ ok none)
        ⊎ ((number : ℕ) × (get_u64 w r loc ≡ ok (some (number, loc + 8)))
            × (loc + 8 ≤ length r.dtb))
  unfolding get_u64
  get_u64_cases loc = elim (Bool-cases (ltb (length r.dtb - 8) loc)) [
    | inl past ↦ inl (rw (le→leb 8 (length r.dtb) (omega (arith, v.header)), past) refl)
    | inr inside ↦
        let room : loc + 8 ≤ length r.dtb = ground (arith, inside, v.header) in
        let (high, read) = get_u32_unchecked-ok loc (omega (arith, room)) in
        let (low, read') = get_u32_unchecked-ok (loc + 4) (omega (arith, room)) in
        inr (
          bit_or (shl 64 high 32) low,
          rw (le→leb 8 (length r.dtb) (omega (arith, v.header)), inside, read, read')
              (ap (λ n. ok (some (bit_or (shl 64 high 32) low, n))) (omega arith)),
          room,
        )
  ]

  -- A skip from inside the tree moves forward and stays inside.
  pub skip_and_align-ok :
      (n loc : ℕ)
      → loc ≤ length r.dtb
      → (loc' : ℕ) × (skip_and_align w r n loc ≡ ok loc') × (loc ≤ loc') × (loc' ≤ length r.dtb)
  unfolding skip_and_align
  skip_and_align-ok n loc h =
      elim (Bool-cases (ltb (length r.dtb - 4) (loc + min (length r.dtb - loc) n))) [
        | inl past ↦ (
          length r.dtb,
          rw
              (
                le→leb loc (length r.dtb) h,
                lt→ltb (loc + min (length r.dtb - loc) n) (2 ^ w) (omega (arith, v.fits)),
              )
              (rw (le→leb 4 (length r.dtb) (omega (arith, v.header)), past) refl),
          h,
          omega arith,
        )
        | inr inside ↦
            let target = loc + min (length r.dtb - loc) n in
            let (loc', aligned, divides, above, below) =
              align_up-least w 2 (word_small w (omega (arith, v.header, v.fits))) target
                (ground (arith, inside, v.fits, v.header)) in
            (
              loc',
              rw
                  (
                    le→leb loc (length r.dtb) h,
                    lt→ltb (loc + min (length r.dtb - loc) n) (2 ^ w) (omega (arith, v.fits)),
                  )
                  (rw (le→leb 4 (length r.dtb) (omega (arith, v.header)), inside) aligned),
              omega (arith, above),
              ground (arith, inside, below, v.header),
            )
      ]
    where
      word_small : (w : ℕ) → 4 ≤ 2 ^ w → 2 ≤ w
      word_small zero e = absurd (omega arith)
      word_small (suc zero) e = absurd (omega arith)
      word_small (suc (suc w)) e = omega arith

  find_null-ok :
      (left end : ℕ)
      → end + left ≡ length r.dtb
      → (end' : ℕ) × (find_null w r left end ≡ ok end') × (end ≤ end') × (end' ≤ length r.dtb)
  unfolding find_null
  find_null-ok zero end h = (end, refl, omega arith, omega arith)
  find_null-ok (suc left) end h =
      let (byte, at) = lt-load r.dtb end (omega arith) in
      let (end', found, above, below) = find_null-ok left (end + 1) (omega arith) in
      elim (Bool-cases (byte == 0)) [
        | inl zero_byte ↦ (end, rw at (rw zero_byte refl), omega arith, omega arith)
        | inr more ↦ (end', rw at (rw more found), omega arith, below)
      ]

  -- A name that starts inside the tree ends inside it, or has no terminator.
  pub get_null_terminated_u8_slice_cases :
      (loc : ℕ)
      → loc ≤ length r.dtb
      → (get_null_terminated_u8_slice w r loc ≡ ok none)
        ⊎ ((name : List ℕ) × (end : ℕ) × (get_null_terminated_u8_slice w r loc
              ≡ ok (some (name, end)))
            × (loc ≤ end)
            × (end < length r.dtb))
  unfolding get_null_terminated_u8_slice
  get_null_terminated_u8_slice_cases loc h =
      let (end, found, above, below) = find_null-ok (length r.dtb - loc) loc (omega arith) in
      elim (Bool-cases (end == length r.dtb)) [
        | inl none_left ↦ inl (rw (found, none_left) refl)
        | inr terminated ↦ inr (
          take (end - loc) (drop loc r.dtb),
          end,
          rw (found, terminated, slice_lem r.dtb loc end above below) refl,
          above,
          ground (arith, terminated),
        )
      ]
