-- ===== src/Arch/ArmTask/Mapping.antt =====
-- Mapping a page for a task and unmapping it, in src/arch/arm/task.rs.
use propeller_kernel.Prelude.{
  ℕ, zero, suc, ◌+◌, ◌-◌, ◌*◌, ◌^◌, ◌≤◌, ◌<◌, ◌≡◌, refl, ap, sym, ◌∙◌, false, Option, none, some,
  List, [], ◌∷◌, ok, ltb, lt→ltb, le→leb, ◌==◌, if◌then◌else◌, length, set, length-set, Bool-cases,
  inl, inr, arith,
}
use propeller_kernel.Prelude.Monad.{load}
use propeller_kernel.Prelude.Access.{store_lem, load-set_self, load-set_ne}
use propeller_kernel.Support.Bits.{shl}
use propeller_kernel.Support.Bits.Bitmap.{Bitmap, set_bit}
use propeller_kernel.Support.Bits.Bitmap
use propeller_kernel.Support.Bits.Bitmap.Toggle.{test_bit-set_bit}
use propeller_kernel.Arch.ArmTask.{
  Globals, TaskContext, make_descriptor_level3, make_page_descriptor, update_table_entry_local,
  map_page_local, unmap_page_local, local_base, pin, map_page, unmap_page,
}

module _ {ℓ} {A : Type ℓ} where
  set-load : (xs : List A) (i : ℕ) {a : A} → load xs i ≡ ok a → set xs i a ≡ xs
  unfolding load
  set-load [] i h = refl
  set-load (x ∷ xs) zero h = let e : x ≡ _ = cc h in ap (λ y. y ∷ xs) (sym e)
  set-load (x ∷ xs) (suc i) h = ap (λ ys. x ∷ ys) (set-load xs i h)

  set-set_self : (xs : List A) (i : ℕ) (a b : A) → set (set xs i a) i b ≡ set xs i b
  set-set_self [] i a b = refl
  set-set_self (x ∷ xs) zero a b = refl
  set-set_self (x ∷ xs) (suc i) a b = ap (λ ys. x ∷ ys) (set-set_self xs i a b)

  set-set_suc :
      (xs : List A) (i : ℕ) (a b : A) → set (set xs i a) (suc i) b ≡ set (set xs (suc i) b) i a
  set-set_suc [] i a b = refl
  set-set_suc (x ∷ xs) zero a b = refl
  set-set_suc (x ∷ xs) (suc i) a b = ap (λ ys. x ∷ ys) (set-set_suc xs i a b)

  set-set_next :
      (xs : List A) (i : ℕ) (a b : A) → set (set xs i a) (i + 1) b ≡ set (set xs (i + 1) b) i a
  set-set_next xs i a b = rw (let e : i + 1 ≡ suc i = omega arith in e) (set-set_suc xs i a b)

written : List ℕ → ℕ → ℕ × ℕ → List ℕ
written table idx (desc, desc_high) = set (set table idx desc) (idx + 1) desc_high

update_lem :
    (table : List ℕ) (idx : ℕ) (d : ℕ × ℕ)
    → idx + 1 < length table
    → update_table_entry_local table idx d ≡ ok (written table idx d)
unfolding update_table_entry_local written
update_lem table idx (desc, desc_high) h = rw (store_lem table idx desc (omega (arith, h))) (
    store_lem (set table idx desc) (idx + 1) desc_high
      (omega (arith, h, length-set table idx desc)))

written-restored :
    (table : List ℕ) (idx : ℕ) (d : ℕ × ℕ)
    → load table idx ≡ ok 0
    → load table (idx + 1) ≡ ok 0
    → written (written table idx d) idx (0, 0) ≡ table
unfolding written
written-restored table idx (desc, desc_high) low high =
    ap (λ ts. set ts (idx + 1) 0) (ap (λ ts. set ts idx 0) (set-set_next table idx desc desc_high))
    ∙ (ap (λ ts. set ts (idx + 1) 0) (set-set_self (set table (idx + 1) desc_high) idx desc 0)
        ∙ (set-set_next (set table (idx + 1) desc_high) idx 0 0
            ∙ (ap (λ ts. set ts idx 0) (set-set_self table (idx + 1) desc_high 0)
                ∙ (ap (λ ts. set ts idx 0) (set-load table (idx + 1) high)
                    ∙ set-load table idx low))))

slot : (count : ℕ) → count < 512 → shl 32 count 1 ≡ 2 * count
slot count h = omega (arith, h)

page_offset : (count : ℕ) → count < 512 → shl 32 count 12 ≡ 4096 * count
page_offset count h = omega (arith, h)

max_page_vaddr :
    (base count : ℕ) → base + 0x200000 ≤ 2 ^ 32 → count < 512 → base + shl 32 count 12 < 2 ^ 32
max_page_vaddr base count space h = omega (arith, space, page_offset count h)

map_page_local_lem :
    (table : List ℕ) (base page_addr count : ℕ)
    → base + 0x200000 ≤ 2 ^ 32
    → length table ≡ 1024
    → count < 512
    → map_page_local table base page_addr count false
      ≡ ok (
        written table (2 * count) (make_descriptor_level3 page_addr false),
        base + shl 32 count 12,
      )
unfolding map_page_local
map_page_local_lem table base page_addr count space long h =
    rw
      (
        lt→ltb count 512 h,
        lt→ltb (base + shl 32 count 12) (2 ^ 32) (max_page_vaddr base count space h),
        slot count h,
        update_lem table (2 * count) (make_descriptor_level3 page_addr false)
            (omega (arith, long, h)),
      )
      refl

add-sub_one : (n : ℕ) → n + 1 - 1 ≡ n
add-sub_one n = omega arith

unmap_page_local_lem :
    (table : List ℕ) (base count entry : ℕ)
    → base + 0x200000 ≤ 2 ^ 32
    → length table ≡ 1024
    → count < 512
    → load table (2 * count) ≡ ok entry
    → unmap_page_local table base (count + 1)
      ≡ ok (if entry == 0 then table else written table (2 * count) (0, 0))
unfolding unmap_page_local
unmap_page_local_lem table base count entry space long h e =
    rw (lt→ltb 0 (count + 1) (omega arith), le→leb 1 (count + 1) (omega arith), add-sub_one count)
      (rw (slot count h) (
        rw e (elim (Bool-cases (entry == 0)) [
          | inl gone ↦ rw gone refl
          | inr there ↦ rw there (
              rw (lt→ltb (base + shl 32 count 12) (2 ^ 32) (max_page_vaddr base count space h))
                (update_lem table (2 * count) (0, 0) (omega (arith, long, h))))
        ])))

written-load :
    (table : List ℕ) (idx : ℕ) (d : ℕ × ℕ)
    → idx + 1 < length table
    → load (written table idx d) idx ≡ ok (d.0)
unfolding written
written-load table idx (desc, desc_high) h =
    load-set_ne (set table idx desc) (idx + 1) idx desc_high (λ e. absurd (omega (arith, e)))
    ∙ load-set_self table idx desc (omega (arith, h))

length-written :
    (table : List ℕ) (idx : ℕ) (d : ℕ × ℕ) → length (written table idx d) ≡ length table
unfolding written
length-written table idx (desc, desc_high) =
    length-set (set table idx desc) (idx + 1) desc_high ∙ length-set table idx desc

-- The table after a page is mapped in a free entry and unmapped, whether its descriptor is zero or not.
unmapped-restored :
    (table : List ℕ) (idx : ℕ) (d : ℕ × ℕ)
    → d.1 ≡ 0
    → load table idx ≡ ok 0
    → load table (idx + 1) ≡ ok 0
    → (if d.0 == 0 then written table idx d else written (written table idx d) idx (0, 0)) ≡ table
unfolding written
unmapped-restored table idx (desc, desc_high) zero_high low high = elim (Bool-cases (desc == 0)) [
  | inl gone ↦
      let zero_low : desc ≡ 0 = ground (arith, gone) in
      rw gone (
        rw (zero_low, zero_high)
          (ap (λ ts. set ts (idx + 1) 0) (set-load table idx low) ∙ set-load table (idx + 1) high))
  | inr there ↦ rw there (written-restored table idx (desc, desc_high) low high)
]

module _ (g : Globals) where
  unmap_page_lem :
      (table_addr count base : ℕ) (pin_mask : Option Bitmap) (table table' : List ℕ)
      → local_base g ≡ ok base
      → unmap_page_local table' base (count + 1) ≡ ok table
      → unmap_page g
          (record { table_addr = table_addr; map_count = count + 1; pin_mask = pin_mask })
          table'
        ≡ ok (
          record {
            table_addr = table_addr;
            map_count = count;
            pin_mask = if count == 0 then none else pin_mask;
          },
          table,
        )
  unfolding unmap_page
  unmap_page_lem table_addr count base pin_mask table table' section run =
      rw (let some_mapped : (count + 1 == 0) ≡ false = ground arith in some_mapped)
        (rw (section, run, le→leb 1 (count + 1) (omega arith), add-sub_one count) refl)

  pin-ok :
      (pin_mask : Option Bitmap)
      → g.core_idx < 16
      → (mask : Bitmap) × (pin g pin_mask ≡ ok (some mask))
  unfolding pin Bitmap.new
  pin-ok (some mask) h = (mask, refl)
  pin-ok none h =
      let (mask, used, run, before, after) =
        test_bit-set_bit 5 (Bitmap.new 5 1 16) g.core_idx g.core_idx (omega arith)
          (omega (arith, h)) (omega (arith, h)) in
      (mask, rw run refl)

  -- On one of sixteen cores, whose local section is in the address space and has a table of 1024 words:
  -- with fewer than 512 mappings and a free entry for the next one, and a page that is in high memory
  -- or has a linear address, `map_page` does not panic and counts one mapping more. `unmap_page` then
  -- takes back the count and the table, and the pin when there was no mapping before.
  pub map_page-unmap_page :
      (context : TaskContext) (table : List ℕ) (page_addr base : ℕ)
      → g.core_idx < 16
      → local_base g ≡ ok base
      → base + 0x200000 ≤ 2 ^ 32
      → length table ≡ 1024
      → context.map_count < 512
      → load table (2 * context.map_count) ≡ ok 0
      → load table (2 * context.map_count + 1) ≡ ok 0
      → (page_addr < g.high_mem_base → g.kernel_virtual_base + page_addr < 2 ^ 32)
      → (context' : TaskContext) × (table' : List ℕ) × (addr : ℕ) × (map_page g context table
            page_addr
          ≡ ok (context', table', addr))
        × (context'.map_count ≡ context.map_count + 1)
        × (unmap_page g context' table'
            ≡ ok (
              record context {
                pin_mask = if context.map_count == 0 then none else context'.pin_mask;
              },
              table,
            ))
  unfolding map_page make_descriptor_level3 make_page_descriptor
  map_page-unmap_page context table page_addr base core section space long few low high linear =
      elim (Bool-cases (ltb page_addr g.high_mem_base)) [
        | inl in_linear ↦ (
          record context { map_count = context.map_count + 1 },
          table,
          g.kernel_virtual_base + page_addr,
          rw in_linear (
              rw
                (
                  lt→ltb (context.map_count + 1) (2 ^ 32) (omega (arith, few)),
                  lt→ltb (g.kernel_virtual_base + page_addr) (2 ^ 32)
                      (linear (ground (arith, in_linear))),
                )
                refl),
          refl,
          unmap_page_lem context.table_addr context.map_count base context.pin_mask table table
              section (unmap_page_local_lem table base context.map_count 0 space long few low),
        )
        | inr in_high ↦
            let (mask, pinned) = pin-ok context.pin_mask core in
            (
              record context { map_count = context.map_count + 1; pin_mask = some mask },
              written table (2 * context.map_count) (make_descriptor_level3 page_addr false),
              base + shl 32 context.map_count 12,
              rw in_high (
                  rw
                    (
                      pinned,
                      section,
                      map_page_local_lem table base page_addr context.map_count space long few,
                    )
                    (rw (lt→ltb (context.map_count + 1) (2 ^ 32) (omega (arith, few))) refl)),
              refl,
              unmap_page_lem context.table_addr context.map_count base (some mask) table
                  (mapped_table context.map_count) section
                  (unmap_page_local_lem (mapped_table context.map_count) base context.map_count
                      entry.0 space (length-written table (2 * context.map_count) entry ∙ long) few
                      (written-load table (2 * context.map_count) entry (omega (arith, long, few)))
                    ∙ ap ok (unmapped-restored table (2 * context.map_count) entry refl low high)),
            )
      ]
    where
      entry : ℕ × ℕ
      entry = make_descriptor_level3 page_addr false

      mapped_table : ℕ → List ℕ
      mapped_table count = written table (2 * count) entry
