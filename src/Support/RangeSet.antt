-- ===== src/Support/RangeSet.antt =====
-- src/support/range_set.rs: a fixed-size set of ranges, an array of `cap` slots (`SET_SIZE`) of which
-- the first `count` are in use.
pub mod Slots
pub mod View
pub mod Insert
pub mod Trim
pub mod Exclude
pub mod Remaining
pub mod Difference
pub mod Collision
pub mod Overlap
use propeller_kernel.Prelude.{
  ℕ, zero, suc, ◌+◌, ◌-◌, ◌^◌, Bool, true, false, ◌||◌, Option, none, some, List, ◌++◌, Run, ok,
  panic, out_of_fuel, unwrap, check, ltb, leb, ◌==◌, if◌then◌else◌, length, get_elem?, set, take,
  drop, replicate,
}
use propeller_kernel.Prelude.Monad.{◌>>=◌, ◌>>◌, add, sub, load, store}
use propeller_kernel.Support.Range.{
  Range, RangeOrdering, less, less_equal, greater_equal, greater, equal, superset, subset, Split,
  err, parts, cmp, exclude,
}

-- `slice::copy_within(from..to, dest)`, which panics when a bound is out of range.
unfoldable pub copy_within {ℓ} : {A : Type ℓ} → List A → ℕ → ℕ → ℕ → Run (List A)
copy_within xs from to dest =
    if leb from to
    then if leb to (length xs)
      then if leb (dest + (to - from)) (length xs)
        then ok (take dest xs ++ (take (to - from) (drop from xs) ++ drop (dest + (to - from)) xs))
        else panic
      else panic
    else panic

pub record RangeSet {ℓ} (T : Type ℓ) : Type ℓ where
  pub ranges : List (Range T)
  pub count : ℕ

module _ {ℓ} {T : Type ℓ} where
  unfoldable pub new : ℕ → T → RangeSet T
  new cap default_tag = record {
    ranges = replicate cap (record { tag = default_tag; base = 0; size = 0 });
    count = 0;
  }

  unfoldable pub clear : RangeSet T → RangeSet T
  clear s = record s { count = 0 }

  unfoldable pub is_empty : RangeSet T → Bool
  is_empty s = s.count == 0

  unfoldable pub len : RangeSet T → ℕ
  len s = s.count

  -- `&self.ranges[..self.count]`
  unfoldable pub get_ranges : RangeSet T → Run (List (Range T))
  get_ranges s = if leb s.count (length s.ranges) then ok (take s.count s.ranges) else panic

  -- The search for the insertion point, with `left` slots to look at from slot `i`.
  unfoldable pub find_slot : ℕ → List (Range T) → ℕ → ℕ → Run ℕ
  find_slot base ranges zero i = ok i
  find_slot base ranges (suc left) i = do
    r ← load ranges i
    if ltb base r.base then ok i else find_slot base ranges left (i + 1)

  unfoldable pub insert_at : Range T → RangeSet T → ℕ → Run (RangeSet T)
  insert_at range s ins = do
    moved ← copy_within s.ranges ins s.count (ins + 1)
    ranges ← store moved ins range
    ok (record { ranges = ranges; count = s.count + 1 })

  -- The removal of the empty ranges, from slot `i` on.
  unfoldable pub trim_empty_loop : ℕ → RangeSet T → ℕ → Run (RangeSet T)
  trim_empty_loop zero s i = out_of_fuel
  trim_empty_loop (suc fuel) s i =
      if ltb i s.count
      then (do
        r ← load s.ranges i
        let keep = trim_empty_loop fuel s (i + 1)
        if ltb 0 r.size then keep else do
          ranges ← copy_within s.ranges (i + 1) s.count i
          trim_empty_loop fuel (record { ranges = ranges; count = s.count - 1 }) i)
      else ok s

  unfoldable pub trim_empty_ranges : RangeSet T → Run (RangeSet T)
  trim_empty_ranges s = trim_empty_loop (s.count + 1) s 0

module _ {ℓ} {T : Type ℓ} (w cap : ℕ) where
  unfoldable pub insert_range : RangeSet T → Range T → Run (RangeSet T × Bool)
  insert_range s range =
      if leb cap s.count
      then ok (s, false)
      else if range.size == 0 || ltb (2 ^ w - 1 - range.size + 1) range.base
      then ok (s, false)
      else do
        ins ← find_slot range.base s.ranges s.count 0
        s' ← insert_at range s ins
        ok (s', true)

  -- One turn of the loop of `exclude_range` at slot `i`: the set, and the next `i`.
  unfoldable pub place : RangeSet T → ℕ → Option (Range T) → Option (Range T) → Run (RangeSet T × ℕ)
  place s i none none = do
    ranges ← copy_within s.ranges (i + 1) s.count i
    ok (record { ranges = ranges; count = s.count - 1 }, i)
  place s i (some a) none = do ranges ← store s.ranges i a; ok (record s { ranges = ranges }, i + 1)
  place s i none (some b) = do ranges ← store s.ranges i b; ok (record s { ranges = ranges }, i + 1)
  place s i (some a) (some b) = do
    replaced ← store s.ranges i a
    check (ltb s.count cap)
    moved ← copy_within replaced i s.count (i + 1)
    ranges ← store moved (i + 1) b
    ok (record { ranges = ranges; count = s.count + 1 }, i + 2)

  -- The loop of `exclude_range`, and whether it ran to its end: on an error of `Range::exclude` the
  -- source returns at once.
  unfoldable pub exclude_loop : ℕ → RangeSet T → Range T → ℕ → Run (RangeSet T × Bool)
  exclude_loop zero s excl i = out_of_fuel
  exclude_loop (suc fuel) s excl i =
      if ltb i s.count
      then (do
        r ← load s.ranges i
        split ← exclude w r excl
        elim split [
          | err ↦ ok (s, false)
          | parts a b ↦ do (s', next) ← place s i a b; exclude_loop fuel s' excl next
        ])
      else ok (s, true)

  unfoldable pub exclude_range : RangeSet T → Range T → Run (RangeSet T)
  exclude_range s excl = do
    (s', finished) ← exclude_loop (s.count + 1) s excl 0
    if finished then trim_empty_ranges s' else ok s'

  -- The union of the overlapping ranges in slots `i` and `i + 1`.
  unfoldable pub unite : RangeSet T → ℕ → Run (RangeSet T × ℕ)
  unite s i = do
    r ← load s.ranges i
    r' ← load s.ranges (i + 1)
    limit ← add w r'.base r'.size
    size ← sub limit r.base
    grown ← store s.ranges i (record r { size = size })
    ranges ← copy_within grown (i + 2) s.count (i + 1)
    ok (record s { ranges = ranges }, i)

  -- One turn of the loop of `trim_overlapping_ranges` at slot `i`. No branch changes the count.
  unfoldable pub merge : RangeOrdering → RangeSet T → ℕ → Run (RangeSet T × ℕ)
  merge equal s i = do
    ranges ← copy_within s.ranges (i + 2) s.count (i + 1)
    ok (record s { ranges = ranges }, i)
  merge superset s i = do
    ranges ← copy_within s.ranges (i + 2) s.count (i + 1)
    ok (record s { ranges = ranges }, i)
  merge subset s i = do
    ranges ← copy_within s.ranges (i + 1) s.count i
    ok (record s { ranges = ranges }, i)
  merge less_equal s i = unite s i
  merge greater_equal s i = unite s i
  merge less s i = ok (s, i + 1)
  merge greater s i = ok (s, i + 1)

  unfoldable pub trim_overlapping_loop : ℕ → RangeSet T → ℕ → Run (RangeSet T)
  trim_overlapping_loop zero s i = out_of_fuel
  trim_overlapping_loop (suc fuel) s i =
      if ltb i (s.count - 1)
      then (do
        r ← load s.ranges i
        r' ← load s.ranges (i + 1)
        order ← (cmp w r r' >>= unwrap)
        (s', next) ← merge order s i
        trim_overlapping_loop fuel s' next)
      else ok s

  unfoldable pub trim_overlapping_ranges : ℕ → RangeSet T → Run (RangeSet T)
  trim_overlapping_ranges fuel s = if ltb s.count 2 then ok s else trim_overlapping_loop fuel s 0

  unfoldable pub trim_ranges : ℕ → RangeSet T → Run (RangeSet T)
  trim_ranges fuel s = trim_overlapping_ranges fuel s >>= trim_empty_ranges
