-- ===== src/Support/RangeSet/Insert.antt =====
-- `RangeSet::insert_range` of src/support/range_set.rs as insertion into an ordered list.
use mathlib.Core.List.{append_assoc}
use propeller_kernel.Prelude.{
  ℕ, suc, ◌+◌, ◌-◌, ◌^◌, ◌≤◌, ◌<◌, ◌≡◌, refl, ap, ◌∙◌, ◌↔◌, Bool, true, false, inl, inr, ◌⊎◌, sym,
  List, [], ◌∷◌, ◌++◌, ok, arith, ltb, leb, ◌==◌, ◌||◌, if◌then◌else◌, Bool-cases, length,
  length-append, leb-false,
}
use propeller_kernel.Support.Range.{Range}
use propeller_kernel.Support.Range.Elements.{IsValid}
use propeller_kernel.Support.RangeSet.{RangeSet, find_slot, insert_at, insert_range}
use propeller_kernel.Support.RangeSet.Slots.{
  load-append, store-append, copy_within-right, copy_within-none,
}
use propeller_kernel.Support.RangeSet.View.{IsView}

module _ {ℓ} {T : Type ℓ} where
  -- Behind the ranges whose base is not above that of `r`.
  unfoldable pub insert_sorted : Range T → List (Range T) → List (Range T)
  insert_sorted r [] = r ∷ []
  insert_sorted r (x ∷ xs) = if ltb r.base x.base then r ∷ x ∷ xs else x ∷ insert_sorted r xs

  -- The search finds the place where the ordered insertion puts the range.
  pub record Found (r : Range T) (pre xs spare : List (Range T)) : Type ℓ where
    pub before : List (Range T)
    pub after : List (Range T)
    pub parts : xs ≡ before ++ after
    pub inserted : insert_sorted r xs ≡ before ++ (r ∷ after)
    pub slot :
        (i : ℕ)
        → i ≡ length pre
        → find_slot r.base (pre ++ (xs ++ spare)) (length xs) i ≡ ok (i + length before)

  find_slot-Found : (r : Range T) (pre xs spare : List (Range T)) → Found r pre xs spare
  unfolding insert_sorted find_slot
  find_slot-Found r pre [] spare = record {
    before = [];
    after = [];
    parts = refl;
    inserted = refl;
    slot = λ i h. ap ok (omega arith);
  }
  find_slot-Found r pre (x ∷ xs) spare = elim (Bool-cases (ltb r.base x.base)) [
    | inl here ↦ record {
      before = [];
      after = x ∷ xs;
      parts = refl;
      inserted = rw here;
      slot = λ i h. rw (load-append pre (xs ++ spare) x i h) (rw here (ap ok (omega arith)));
    }
    | inr on ↦
        let rest = find_slot-Found r (pre ++ (x ∷ [])) xs spare in
        record {
          before = x ∷ rest.before;
          after = rest.after;
          parts = ap (λ t. x ∷ t) rest.parts;
          inserted = rw on (ap (λ t. x ∷ t) rest.inserted);
          slot = λ i h. rw (load-append pre (xs ++ spare) x i h) (
              rw on (
                rw append_assoc at (rest.slot (i + 1) (omega (arith, length-append pre (x ∷ []))))
                ∙ ap ok (omega arith)));
        }
  ]

  insert_at_slots :
      (r : Range T) (before after sp : List (Range T)) (y : Range T) (s : RangeSet T) (ins : ℕ)
      → s.ranges ≡ before ++ (after ++ (y ∷ sp))
      → s.count ≡ length before + length after
      → ins ≡ length before
      → insert_at r s ins
        ≡ ok (record { ranges = before ++ (r ∷ (after ++ sp)); count = s.count + 1 })
  unfolding insert_at
  insert_at_slots r before [] sp y s ins e n h = rw e (
      rw
        (
          copy_within-none (before ++ (y ∷ sp)) ins s.count (ins + 1) (omega arith)
              (omega (arith, length-append before (y ∷ sp)))
              (omega (arith, length-append before (y ∷ sp))),
          store-append before sp y r ins h,
        )
        refl)
  insert_at_slots r before (x ∷ mid) sp y s ins e n h = rw e (
      rw
        (
          copy_within-right before mid sp x y ins s.count (ins + 1) (omega arith) (omega arith)
              (omega arith),
          store-append before (x ∷ (mid ++ sp)) x r ins h,
        )
        refl)

  length-insert_sorted :
      (r : Range T) (xs : List (Range T)) → length (insert_sorted r xs) ≡ suc (length xs)
  unfolding insert_sorted
  length-insert_sorted r [] = refl
  length-insert_sorted r (x ∷ xs) = ground (arith, length-insert_sorted r xs)

  module _ {cap : ℕ} {s : RangeSet T} {xs : List (Range T)} (w : ℕ) (r : Range T)
      (v : IsView cap s xs) where
    -- With a free slot, a valid range is put behind the ranges whose base is not above its own, the
    -- others keep their order, and the result is true.
    pub insert_range-insert_sorted :
        IsValid w r
        → length xs < cap
        → (s' : RangeSet T) × (insert_range w cap s r ≡ ok (s', true))
          × IsView cap s' (insert_sorted r xs)
    unfolding insert_range
    insert_range-insert_sorted valid room = go v.spare v.slots v.size
      where
        accepted : (r.size == 0 || ltb (2 ^ w - 1 - r.size + 1) r.base) ≡ false
        accepted = ground (arith, valid.not_empty, valid.fits)

        go :
            (spare : List (Range T))
            → s.ranges ≡ xs ++ spare
            → length xs + length spare ≡ cap
            → (s' : RangeSet T) × (insert_range w cap s r ≡ ok (s', true))
              × IsView cap s' (insert_sorted r xs)
        go [] e n = absurd (omega arith)
        go (y ∷ sp) e n = (
          record { ranges = f.before ++ (r ∷ (f.after ++ sp)); count = s.count + 1 },
          rw (leb-false cap s.count (omega (arith, v.used)), accepted)
              (rw
                (
                  searched,
                  insert_at_slots r f.before f.after sp y s (length f.before) split counted refl,
                )
                refl),
          record {
            spare = sp;
            slots = rw f.inserted (sym (append_assoc f.before (r ∷ f.after) sp));
            size = omega (arith, length-insert_sorted r xs);
            used = omega (arith, length-insert_sorted r xs, v.used);
          },
        )
          where
            f : Found r [] xs (y ∷ sp)
            f = find_slot-Found r [] xs (y ∷ sp)

            split : s.ranges ≡ f.before ++ (f.after ++ (y ∷ sp))
            split = e ∙ ap (λ t. t ++ (y ∷ sp)) f.parts ∙ append_assoc f.before f.after (y ∷ sp)

            counted : s.count ≡ length f.before + length f.after
            counted = v.used ∙ ap (λ t. length t) f.parts ∙ length-append f.before f.after

            searched : find_slot r.base s.ranges s.count 0 ≡ ok (length f.before)
            searched = rw (e, v.used) (f.slot 0 refl ∙ ap ok (omega arith))

    -- The set is full, or the range is empty or ends above the address space.
    abbrev pub Refuses : Type 0
    Refuses = (cap ≤ length xs) ⊎ (r.size ≡ 0) ⊎ (2 ^ w < r.base + r.size)

    -- A set that refuses the range is not changed.
    pub insert_range-Refuses : Refuses → r.size < 2 ^ w → insert_range w cap s r ≡ ok (s, false)
    unfolding insert_range
    insert_range-Refuses (inl full) fits = ground (arith, v.used)
    insert_range-Refuses (inr bad) fits = elim (Bool-cases (leb cap s.count)) [
      | inl full ↦ rw full
      | inr room ↦ rw (room, rejected bad)
    ]
      where
        rejected :
            (r.size ≡ 0) ⊎ (2 ^ w < r.base + r.size)
            → (r.size == 0 || ltb (2 ^ w - 1 - r.size + 1) r.base) ≡ true
        rejected (inl empty) = ground arith
        rejected (inr over) = ground arith

    refuses_or_takes : Refuses ⊎ (¬ Refuses × IsValid w r × (length xs < cap))
    refuses_or_takes = elim (Bool-cases (leb cap (length xs))) [
      | inl full ↦ inl (inl (ground (arith, full)))
      | inr room ↦ elim (Bool-cases (r.size == 0)) [
        | inl empty ↦ inl (inr (inl (ground (arith, empty))))
        | inr some_size ↦ elim (Bool-cases (ltb (2 ^ w) (r.base + r.size))) [
          | inl over ↦ inl (inr (inr (ground (arith, over))))
          | inr fits ↦ inr (
            (λ refuses. ground (arith, room, some_size, fits, refuses)),
            record { not_empty = ground (arith, some_size); fits = ground (arith, fits) },
            ground (arith, room),
          )
        ]
      ]
    ]

    -- Of any set and any range whose size fits the word: `insert_range` does not panic. Its result is
    -- false exactly when the set is full, or the range is empty or ends above the address space, and
    -- the set is not changed then. Otherwise the set has the range inserted in order.
    pub insert_range-refused :
        r.size < 2 ^ w
        → (s' : RangeSet T) × (inserted : Bool) × (insert_range w cap s r ≡ ok (s', inserted))
          × ((inserted ≡ false) ↔ Refuses)
          × ((inserted ≡ false) → s' ≡ s)
          × IsView cap s' (if inserted then insert_sorted r xs else xs)
    insert_range-refused fits = elim refuses_or_takes [
      | inl refuses ↦ (
        s,
        false,
        insert_range-Refuses refuses fits,
        ((λ e. refuses), (λ h. refl)),
        (λ e. refl),
        v,
      )
      | inr (takes, valid, room) ↦
          let (s', run, v') = insert_range-insert_sorted valid room in
          (s', true, run, ((λ e. absurd (cc e)), (λ h. absurd (takes h))), (λ e. absurd (cc e)), v')
    ]

  -- Sorted by base.
  abbrev pub IsSorted : List (Range T) → Type 0
  IsSorted [] = Unit
  IsSorted (x ∷ []) = Unit
  IsSorted (x ∷ (y ∷ xs)) = (x.base ≤ y.base) × IsSorted (y ∷ xs)

  pub insert_sorted-IsSorted :
      (r : Range T) (xs : List (Range T)) → IsSorted xs → IsSorted (insert_sorted r xs)
  unfolding insert_sorted
  insert_sorted-IsSorted r [] h = tt
  insert_sorted-IsSorted r (x ∷ []) h = ground arith
  insert_sorted-IsSorted r (x ∷ (y ∷ xs)) h = ground (arith, insert_sorted-IsSorted r (y ∷ xs))

  -- Inserting a valid range into a set that has a free slot and is sorted by base keeps it sorted, with
  -- one range more.
  pub insert_range-IsSorted :
      {cap : ℕ} (w : ℕ) (r : Range T) (s : RangeSet T) (xs : List (Range T))
      → IsView cap s xs
      → IsSorted xs
      → IsValid w r
      → length xs < cap
      → (s' : RangeSet T) × (ys : List (Range T)) × (insert_range w cap s r ≡ ok (s', true))
        × IsView cap s' ys
        × IsSorted ys
        × (length ys ≡ suc (length xs))
  insert_range-IsSorted w r s xs v sorted valid room =
      let (s', run, v') = insert_range-insert_sorted w r v valid room in
      (
        s',
        insert_sorted r xs,
        run,
        v',
        insert_sorted-IsSorted r xs sorted,
        length-insert_sorted r xs,
      )
