-- ===== src/Support/Range.antt =====
-- src/support/range.rs: contiguous ranges `[base, base + size)` with a tag, on `w`-bit addresses.
pub mod Elements
pub mod Order
pub mod Exclude
pub mod Cut
use propeller_kernel.Prelude.{
  ℕ, ◌&&◌, ◌||◌, Option, none, some, Run, ok, ltb, leb, ◌==◌, if◌then◌else◌,
}
use propeller_kernel.Prelude.Monad.{◌>>=◌, add, sub}

pub data RangeOrdering : Type 0 where
  less : RangeOrdering
  less_equal : RangeOrdering
  greater_equal : RangeOrdering
  greater : RangeOrdering
  equal : RangeOrdering
  superset : RangeOrdering
  subset : RangeOrdering

pub record Range {ℓ} (T : Type ℓ) : Type ℓ where
  pub tag : T
  pub base : ℕ
  pub size : ℕ

-- The comparison of two ranges that are not empty, given their last elements.
unfoldable pub order_of {ℓ} : {T : Type ℓ} → Range T → Range T → ℕ → ℕ → RangeOrdering
order_of r rhs lhs_end rhs_end =
    if r.base == rhs.base && r.size == rhs.size
    then equal
    else if ltb lhs_end rhs.base
    then less
    else if ltb rhs_end r.base
    then greater
    else if leb r.base rhs.base && leb rhs_end lhs_end
    then superset
    else if leb rhs.base r.base && leb lhs_end rhs_end
    then subset
    else if ltb r.base rhs.base
    then less_equal
    else greater_equal

-- The last element of a range that is not empty.
unfoldable pub last_of {ℓ} : {T : Type ℓ} (w : ℕ) → Range T → Run ℕ
last_of w r = do n ← sub r.size 1; add w r.base n

unfoldable pub cmp {ℓ} : {T : Type ℓ} (w : ℕ) → Range T → Range T → Run (Option RangeOrdering)
unfolding order_of
cmp w r rhs = if r.size == 0 || rhs.size == 0 then ok none else do
  lhs_end ← last_of w r
  rhs_end ← last_of w rhs
  ok (some (order_of r rhs lhs_end rhs_end))

pub data Split {ℓ} (T : Type ℓ) : Type ℓ where
  err : Split T
  parts : Option (Range T) → Option (Range T) → Split T

-- The low part that is left beside an exclusion range.
unfoldable pub low_part {ℓ} :
    {T : Type ℓ} → RangeOrdering → Range T → Range T → Run (Option (Range T))
low_part less_equal r excl = do n ← sub excl.base r.base; ok (some (record r { size = n }))
low_part superset r excl = do n ← sub excl.base r.base; ok (some (record r { size = n }))
low_part _ r excl = ok none

-- The high part that is left beside an exclusion range.
unfoldable pub high_part {ℓ} :
    {T : Type ℓ} (w : ℕ) → RangeOrdering → Range T → ℕ → ℕ → Run (Option (Range T))
high_part w greater_equal r my_end excl_end = do
  b ← add w excl_end 1
  n ← sub my_end excl_end
  ok (some (record r { base = b; size = n }))
high_part w superset r my_end excl_end = do
  b ← add w excl_end 1
  n ← sub my_end excl_end
  ok (some (record r { base = b; size = n }))
high_part w _ r my_end excl_end = ok none

-- The two parts of an overlap.
unfoldable pub exclude_overlap {ℓ} :
    {T : Type ℓ} (w : ℕ) → RangeOrdering → Range T → Range T → Run (Split T)
unfolding low_part high_part
exclude_overlap w order r excl = do
  my_end ← last_of w r
  excl_end ← last_of w excl
  a ← low_part order r excl
  b ← high_part w order r my_end excl_end
  ok (parts a b)

unfoldable pub exclude_by {ℓ} :
    {T : Type ℓ} (w : ℕ) → Option RangeOrdering → Range T → Range T → Run (Split T)
unfolding exclude_overlap
exclude_by w none r excl = ok err
exclude_by w (some less) r excl = ok (parts (some r) none)
exclude_by w (some greater) r excl = ok (parts (some r) none)
exclude_by w (some equal) r excl = ok (parts none none)
exclude_by w (some subset) r excl = ok (parts none none)
exclude_by w (some order) r excl = exclude_overlap w order r excl

unfoldable pub exclude {ℓ} : {T : Type ℓ} (w : ℕ) → Range T → Range T → Run (Split T)
unfolding cmp exclude_by
exclude w r excl = do order ← cmp w r excl; exclude_by w order r excl

unfoldable pub split {ℓ} : {T : Type ℓ} (w : ℕ) → Range T → ℕ → Run (Split T)
split w r at = if r.size == 0 then ok err else do
  my_end ← last_of w r
  if leb at r.base
      then ok (parts none (some r))
      else if ltb my_end at
      then ok (parts (some r) none)
      else do
        low ← sub at r.base
        n ← sub my_end at
        high ← add w n 1
        ok (parts (some (record r { size = low })) (some (record r { base = at; size = high })))
