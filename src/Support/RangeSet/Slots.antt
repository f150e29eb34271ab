-- ===== src/Support/RangeSet/Slots.antt =====
-- What the moves within an array of src/support/range_set.rs do to the used slots, seen as lists.
use mathlib.Core.List.{append_assoc, append-nil}
use propeller_kernel.Prelude.{
  ℕ, suc, ◌+◌, ◌-◌, ◌≤◌, ◌≡◌, refl, List, [], ◌∷◌, ◌++◌, ok, arith, length, drop, length-append,
  lt→ltb, le→leb, take-append, drop-append, take-length_append, get_elem?-append, set-append,
  take-append-drop,
}
use propeller_kernel.Prelude.Monad.{load, store}
use propeller_kernel.Support.RangeSet.{copy_within}

module _ {ℓ} {A : Type ℓ} where
  pub load-append :
      (pre post : List A) (x : A) (i : ℕ) → i ≡ length pre → load (pre ++ (x ∷ post)) i ≡ ok x
  unfolding load
  load-append pre post x i h = rw (get_elem?-append pre post x i h)

  pub store-append :
      (pre post : List A) (x v : A) (i : ℕ)
      → i ≡ length pre
      → store (pre ++ (x ∷ post)) i v ≡ ok (pre ++ (v ∷ post))
  unfolding store
  store-append pre post x v i h =
      rw
        (
          lt→ltb i (length (pre ++ (x ∷ post))) (omega (arith, length-append pre (x ∷ post))),
          set-append pre post x v i h,
        )
        refl

  pub load-append_next :
      (pre post : List A) (x y : A) (i : ℕ)
      → i ≡ suc (length pre)
      → load (pre ++ (x ∷ (y ∷ post))) i ≡ ok y
  load-append_next pre post x y i h =
      rw (append_assoc pre (x ∷ []) (y ∷ post)) at
        (load-append (pre ++ (x ∷ [])) post y i (omega (arith, length-append pre (x ∷ []))))

  pub store-append_next :
      (pre post : List A) (x y v : A) (i : ℕ)
      → i ≡ suc (length pre)
      → store (pre ++ (x ∷ (y ∷ post))) i v ≡ ok (pre ++ (x ∷ (v ∷ post)))
  store-append_next pre post x y v i h =
      rw (append_assoc pre (x ∷ []) (y ∷ post), append_assoc pre (x ∷ []) (v ∷ post)) at
        (store-append (pre ++ (x ∷ [])) post y v i (omega (arith, length-append pre (x ∷ []))))

  -- A move of `mid` by one slot to the right.
  pub copy_within-right :
      (pre mid post : List A) (x y : A) (from to dest : ℕ)
      → from ≡ length pre
      → to ≡ length pre + suc (length mid)
      → dest ≡ suc (length pre)
      → copy_within (pre ++ (x ∷ (mid ++ (y ∷ post)))) from to dest
        ≡ ok (pre ++ (x ∷ (x ∷ (mid ++ post))))
  unfolding copy_within
  copy_within-right pre mid post x y from to dest hf ht hd =
      rw
        (
          le→leb from to (omega arith),
          le→leb to (length (pre ++ (x ∷ (mid ++ (y ∷ post))))) (omega (arith, total)),
          le→leb (dest + (to - from)) (length (pre ++ (x ∷ (mid ++ (y ∷ post)))))
              (omega (arith, total)),
          take-append pre (x ∷ (mid ++ (y ∷ post))) 1 dest (omega arith),
          drop-append pre (x ∷ (mid ++ (y ∷ post))) 0 from (omega arith),
          drop-append pre (x ∷ (mid ++ (y ∷ post))) (length mid + 2) (dest + (to - from))
              (omega arith),
        )
        (rw
          (
            take-append (x ∷ mid) (y ∷ post) 0 (to - from) (omega arith),
            drop-append (x ∷ mid) (y ∷ post) 1 (length mid + 2) (omega arith),
          )
          (simp (append_assoc, append-nil)))
    where
      total : length (pre ++ (x ∷ (mid ++ (y ∷ post)))) ≡ length pre + length mid + length post + 2
      total =
          omega (arith, length-append pre (x ∷ (mid ++ (y ∷ post))), length-append mid (y ∷ post))

  -- A move of no slots.
  pub copy_within-none :
      (xs : List A) (from to dest : ℕ)
      → from ≡ to
      → to ≤ length xs
      → dest ≤ length xs
      → copy_within xs from to dest ≡ ok xs
  unfolding copy_within
  copy_within-none xs from to dest e ht hd =
      rw
        (
          le→leb from to (omega arith),
          le→leb to (length xs) ht,
          le→leb (dest + (to - from)) (length xs) (omega arith),
          (let n : to - from ≡ 0 = omega arith in n),
          (let n : dest + 0 ≡ dest = omega arith in n),
          take-append-drop dest xs,
        )
        refl

  abbrev pub last : A → List A → A
  last a [] = a
  last a (b ∷ bs) = last b bs

  drop-last : (a : A) (m s : List A) → drop (length m) (a ∷ (m ++ s)) ≡ last a m ∷ s
  drop-last a [] s = refl
  drop-last a (b ∷ bs) s = drop-last b bs s

  -- A move of `mid` by one slot to the left, over the slot of `x`. The last slot keeps its value.
  pub copy_within-left_last :
      (pre mid spare : List A) (x : A) (from to dest : ℕ)
      → from ≡ suc (length pre)
      → to ≡ suc (length pre + length mid)
      → dest ≡ length pre
      → copy_within (pre ++ (x ∷ (mid ++ spare))) from to dest
        ≡ ok (pre ++ (mid ++ (last x mid ∷ spare)))
  unfolding copy_within
  copy_within-left_last pre mid spare x from to dest hf ht hd =
      rw
        (
          le→leb from to (omega arith),
          le→leb to (length (pre ++ (x ∷ (mid ++ spare)))) (omega (arith, total)),
          le→leb (dest + (to - from)) (length (pre ++ (x ∷ (mid ++ spare)))) (omega (arith, total)),
          take-length_append pre (x ∷ (mid ++ spare)) dest hd,
          drop-append pre (x ∷ (mid ++ spare)) 1 from (omega arith),
          drop-append pre (x ∷ (mid ++ spare)) (length mid) (dest + (to - from)) (omega arith),
          take-length_append mid spare (to - from) (omega arith),
          drop-last x mid spare,
        )
        refl
    where
      total : length (pre ++ (x ∷ (mid ++ spare))) ≡ length pre + length mid + length spare + 1
      total = omega (arith, length-append pre (x ∷ (mid ++ spare)), length-append mid spare)

  pub copy_within-left :
      (pre mid spare : List A) (x : A) (from to dest : ℕ)
      → from ≡ suc (length pre)
      → to ≡ suc (length pre + length mid)
      → dest ≡ length pre
      → (z : A) × (copy_within (pre ++ (x ∷ (mid ++ spare))) from to dest
          ≡ ok (pre ++ (mid ++ (z ∷ spare))))
  copy_within-left pre mid spare x from to dest hf ht hd =
      (last x mid, copy_within-left_last pre mid spare x from to dest hf ht hd)
