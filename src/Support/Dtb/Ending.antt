-- ===== src/Support/Dtb/Ending.antt =====
-- The reads of src/support/dtb.rs end, and the search in src/support/hash_map.rs ends: in a result or a panic.
use propeller_kernel.Prelude.{
  ℕ, zero, suc, ◌+◌, ◌-◌, refl, Bool, true, false, Option, none, some, List, Run, ok, panic,
  out_of_fuel, ◌==◌, if◌then◌else◌, length,
}
use propeller_kernel.Prelude.Monad.{mul, div, rem}
use propeller_kernel.Prelude.Ends.{
  Ends, ok-Ends, panic-Ends, >>=-Ends, if-Ends, add-Ends, sub-Ends, load-Ends, store-Ends,
  option-Ends,
}
use propeller_kernel.Support.HashMap.{
  Eq, Table, make_probe_index, find_loop, find, insert_loop, insert,
}
use propeller_kernel.Support.Dtb.{
  DtbReader, DtbError, slice, find_null, get_null_terminated_u8_slice, get_slice_from_string_table,
  get_u32_unchecked, read_cells, get_reg_pair_size, get_reg_pair,
}
use propeller_kernel.Support.Dtb.Parse.{ok_or, run}
use propeller_kernel.Support.Dtb.Safety.{Safe, returns, fails, panics}

pub mul-Ends : (w a b : ℕ) → Ends (mul w a b)
mul-Ends w a b = if-Ends _ (ok-Ends _) panic-Ends

pub rem-Ends : (a b : ℕ) → Ends (rem a b)
rem-Ends a zero = panic-Ends
rem-Ends a (suc b) = ok-Ends _

pub div-Ends : (a b : ℕ) → Ends (div a b)
div-Ends a zero = panic-Ends
div-Ends a (suc b) = ok-Ends _

make_probe_index-Ends : (h i m : ℕ) → Ends (make_probe_index h i m)
unfolding make_probe_index
make_probe_index-Ends h i m =
    >>=-Ends _ (mul-Ends 64 i i)
      (λ square. >>=-Ends _ (add-Ends 64 h square) (λ sum. rem-Ends sum m))

module _ {K V : Type 0} ⦃e : Eq K⦄ where
  find_loop-Ends :
      (h : ℕ) (key : K) (left i : ℕ) (map : Table K V) → Ends (find_loop h key left i map)
  unfolding find_loop
  find_loop-Ends h key zero i map = ok-Ends none
  find_loop-Ends h key (suc left) i map =
      >>=-Ends _ (make_probe_index-Ends h i (length map)) (λ idx.
        >>=-Ends _ (load-Ends map idx) (λ slot.
          option-Ends slot (find_loop-Ends h key left (i + 1) map)
            (λ (k, v). if-Ends (e.beq k key) (ok-Ends _) (find_loop-Ends h key left (i + 1) map))))

  insert_loop-Ends :
      (h : ℕ) (key : K) (v : V) (left i : ℕ) (map : Table K V)
      → Ends (insert_loop h key v left i map)
  unfolding insert_loop
  insert_loop-Ends h key v zero i map = ok-Ends _
  insert_loop-Ends h key v (suc left) i map =
      >>=-Ends _ (make_probe_index-Ends h i (length map)) (λ idx.
        >>=-Ends _ (load-Ends map idx) (λ slot.
          option-Ends slot (>>=-Ends _ (store-Ends map idx _) (λ map'. ok-Ends _)) (λ (k, old).
            if-Ends (e.beq k key) (>>=-Ends _ (store-Ends map idx _) (λ map'. ok-Ends _))
              (insert_loop-Ends h key v left (i + 1) map))))

  pub insert-Ends :
      (hash : K → ℕ) (map : Table K V) (key : K) (v : V) → Ends (insert hash map key v)
  unfolding insert
  insert-Ends hash map key v = insert_loop-Ends (hash key) key v (length map) 0 map

  pub find-Ends : (hash : K → ℕ) (map : Table K V) (key : K) → Ends (find hash map key)
  unfolding find
  find-Ends hash map key = find_loop-Ends (hash key) key (length map) 0 map

slice-Ends : (bytes : List ℕ) (from to : ℕ) → Ends (slice bytes from to)
unfolding slice
slice-Ends bytes from to = if-Ends _ (if-Ends _ (ok-Ends _) panic-Ends) panic-Ends

module _ (w : ℕ) (r : DtbReader) where
  find_null-Ends : (left end : ℕ) → Ends (find_null w r left end)
  unfolding find_null
  find_null-Ends zero end = ok-Ends end
  find_null-Ends (suc left) end =
      >>=-Ends _ (load-Ends r.dtb end)
        (λ byte. if-Ends (byte == 0) (ok-Ends end) (find_null-Ends left (end + 1)))

  pub get_null_terminated_u8_slice-Ends : (loc : ℕ) → Ends (get_null_terminated_u8_slice w r loc)
  unfolding get_null_terminated_u8_slice
  get_null_terminated_u8_slice-Ends loc =
      >>=-Ends _ (find_null-Ends (length r.dtb - loc) loc) (λ end.
        if-Ends (end == length r.dtb) (ok-Ends none)
          (>>=-Ends _ (slice-Ends r.dtb loc end) (λ name. ok-Ends _)))

  pub get_slice_from_string_table-Ends :
      (offset : ℕ) → Ends (get_slice_from_string_table w r offset)
  unfolding get_slice_from_string_table
  get_slice_from_string_table-Ends offset =
      >>=-Ends _ (add-Ends w r.dt_strings_offset offset) (λ loc.
        >>=-Ends _ (get_null_terminated_u8_slice-Ends loc)
          (λ found. option-Ends found (ok-Ends none) (λ name. ok-Ends _)))

  get_u32_unchecked-Ends : (loc : ℕ) → Ends (get_u32_unchecked w r loc)
  unfolding get_u32_unchecked
  get_u32_unchecked-Ends loc =
      >>=-Ends _ (add-Ends w loc 4)
        (λ end. >>=-Ends _ (slice-Ends r.dtb loc end) (λ bytes. ok-Ends _))

  read_cells-Ends : (shift cells acc loc : ℕ) → Ends (read_cells w r shift cells acc loc)
  unfolding read_cells
  read_cells-Ends shift zero acc loc = ok-Ends _
  read_cells-Ends shift (suc cells) acc loc =
      >>=-Ends _ (get_u32_unchecked-Ends loc) (λ (cell, loc'). read_cells-Ends shift cells _ loc')

  pub get_reg_pair_size-Ends :
      (addr_cells size_cells : ℕ) → Ends (get_reg_pair_size w r addr_cells size_cells)
  unfolding get_reg_pair_size
  get_reg_pair_size-Ends a s = >>=-Ends _ (add-Ends w a s) (λ cells. mul-Ends w 4 cells)

  pub get_reg_pair-Ends :
      (addr_cells size_cells loc : ℕ) → Ends (get_reg_pair w r addr_cells size_cells loc)
  unfolding get_reg_pair
  get_reg_pair-Ends a s loc = if-Ends (a == 0) (ok-Ends none) (
      >>=-Ends _ (get_reg_pair_size-Ends a s) (λ pair_size.
        >>=-Ends _ (sub-Ends (length r.dtb) pair_size) (λ last. if-Ends _ (ok-Ends none) (
          >>=-Ends _ (read_cells-Ends 32 a 0 loc) (λ (addr, loc').
            >>=-Ends _ (read_cells-Ends 32 s 0 loc') (λ (size, loc''). ok-Ends _))))))

-- Code that ends, where panics are admitted.
pub Ends-Safe : {M A : Type 0} (code : Run A) → M → Ends code → Safe M (λ a. Unit {0}) (run code)
Ends-Safe (ok a) m e = returns tt
Ends-Safe panic m e = panics m
Ends-Safe out_of_fuel m e = absurd (e refl)

pub if-Safe :
    {M A : Type 0} {P : A → Type 0} (test : Bool) (yes no : Run A)
    → Safe M P (run yes)
    → Safe M P (run no)
    → Safe M P (run (if test then yes else no))
if-Safe true a b y n = y
if-Safe false a b y n = n

pub ok_or-Safe :
    {M A : Type 0} {code : Run (Option A)} (e : DtbError)
    → M
    → Ends code
    → Safe M (λ a. Unit {0}) (ok_or code e)
ok_or-Safe {code = ok none} e m h = fails
ok_or-Safe {code = ok (some a)} e m h = returns tt
ok_or-Safe {code = panic} e m h = panics m
ok_or-Safe {code = out_of_fuel} e m h = absurd (h refl)
