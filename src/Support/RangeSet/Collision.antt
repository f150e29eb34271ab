-- ===== src/Support/RangeSet/Collision.antt =====
-- One turn of the loop of `RangeSet::trim_overlapping_ranges` in src/support/range_set.rs on a set in
-- which two neighbours overlap.
use mathlib.Core.List.{append_assoc}
use propeller_kernel.Prelude.{
  ℕ, ◌+◌, ◌-◌, ◌^◌, ◌<◌, ◌≡◌, refl, ap, sym, ◌∙◌, List, [], ◌∷◌, ◌++◌, Run, ok, unwrap, arith,
  lt→ltb, le→leb, length, length-append,
}
use propeller_kernel.Prelude.Monad.{◌>>=◌}
use propeller_kernel.Support.Range.{
  Range, RangeOrdering, less, less_equal, greater_equal, greater, equal, superset, subset, cmp,
  order_of,
}
use propeller_kernel.Support.Range.Elements.{IsValid}
use propeller_kernel.Support.Range.Order.{limit, Relates, cmp-order_of, order_of_iff}
use propeller_kernel.Prelude.Monad.{load, store}
use propeller_kernel.Support.RangeSet.{RangeSet, copy_within, merge, unite}
use propeller_kernel.Support.RangeSet.Slots.{
  load-append, load-append_next, store-append, last, copy_within-left_last,
}

module _ {ℓ} {T : Type ℓ} (w : ℕ) where
  abbrev pub ordering : Range T → Range T → Run RangeOrdering
  ordering x y = cmp w x y >>= unwrap

  -- Not empty, and ends below the top of the address space.
  pub record IsProper (r : Range T) : Type 0 where
    pub valid : IsValid w r
    pub inside : limit r < 2 ^ w

  abbrev pub AllProper : List (Range T) → Type 0
  AllProper [] = Unit
  AllProper (x ∷ xs) = IsProper x × AllProper xs

  -- The two ranges share an address, if they are not empty.
  abbrev pub Meets : Range T → Range T → Type 0
  Meets x y = (x.base < limit y) × (y.base < limit x)

  -- Two neighbours in the list meet.
  pub data HasCollision : List (Range T) → Type ℓ where
    here : {x y : Range T} {xs : List (Range T)} → Meets x y → HasCollision (x ∷ (y ∷ xs))
    there : {x : Range T} {xs : List (Range T)} → HasCollision xs → HasCollision (x ∷ xs)

  -- The ordering of two ranges is computed, and says how they lie.
  pub ordering-Relates :
      (x y : Range T)
      → IsProper x
      → IsProper y
      → (o : RangeOrdering) × (ordering x y ≡ ok o) × Relates o x y
  ordering-Relates x y px py = (
    order_of x y (limit x - 1) (limit y - 1),
    rw (cmp-order_of w x y px.valid py.valid) refl,
    (order_of_iff w x y px.valid py.valid (order_of x y (limit x - 1) (limit y - 1))).0 refl,
  )

  Meets-self : (x : Range T) → IsProper x → Meets x x
  Meets-self x p = omega (arith, p.valid.not_empty)

  -- A slot that is copied meets itself.
  HasCollision-last :
      (x : Range T) (xs : List (Range T))
      → AllProper (x ∷ xs)
      → HasCollision (x ∷ (xs ++ (last x xs ∷ [])))
  HasCollision-last x [] (p, ps) = here (Meets-self x p)
  HasCollision-last x (y ∷ ys) (p, ps) = there (HasCollision-last y ys ps)

  -- A list that ends in a copied slot behind two ranges that meet.
  HasCollision-shifted :
      (x y : Range T) (rest : List (Range T))
      → Meets x y
      → AllProper (y ∷ rest)
      → HasCollision (x ∷ (rest ++ (last y rest ∷ [])))
  HasCollision-shifted x y [] c ps = here c
  HasCollision-shifted x y (z ∷ rest) c (p, ps) = there (HasCollision-last z rest ps)

  AllProper-last :
      (x : Range T) (xs : List (Range T)) → AllProper (x ∷ xs) → AllProper (xs ++ (last x xs ∷ []))
  AllProper-last x [] ps = ps
  AllProper-last x (y ∷ ys) (p, (p', ps)) = (p', AllProper-last y ys (p', ps))

  -- The slots of a set: those before slot `i`, those from `i` on, and the unused ones.
  pub record IsSlots (pre xs spare : List (Range T)) (s : RangeSet T) (i : ℕ) : Type ℓ where
    pub slots : s.ranges ≡ pre ++ (xs ++ spare)
    pub used : s.count ≡ length pre + length xs
    pub at : i ≡ length pre

  -- What a turn of the loop returns: a set with a collision at or behind its index.
  pub record KeepsCollision (result : RangeSet T × ℕ) : Type ℓ where
    pub pre : List (Range T)
    pub xs : List (Range T)
    pub spare : List (Range T)
    pub holds : IsSlots pre xs spare result.0 result.1
    pub proper : AllProper xs
    pub collides : HasCollision xs

  module _ (cap : ℕ) {pre rest spare : List (Range T)} {x y : Range T} {s : RangeSet T} {i : ℕ}
      (sl : IsSlots pre (x ∷ (y ∷ rest)) spare s i) where
    pub load_here : load s.ranges i ≡ ok x
    load_here = rw sl.slots (load-append pre (y ∷ (rest ++ spare)) x i sl.at)

    pub load_next : load s.ranges (i + 1) ≡ ok y
    load_next =
        rw sl.slots (load-append_next pre (rest ++ spare) x y (i + 1) (omega (arith, sl.at)))

    shift_next :
        (x' : Range T) (ranges : List (Range T))
        → ranges ≡ pre ++ (x' ∷ (y ∷ (rest ++ spare)))
        → copy_within ranges (i + 2) s.count (i + 1)
          ≡ ok (pre ++ (x' ∷ (rest ++ (last y rest ∷ spare))))
    shift_next x' ranges e =
        rw (e, ← append_assoc pre (x' ∷ []) (y ∷ (rest ++ spare)))
          (copy_within-left_last (pre ++ (x' ∷ [])) rest spare y (i + 2) s.count (i + 1)
              (omega (arith, sl.at, length-append {ℓ}))
              (omega (arith, sl.at, sl.used, length-append {ℓ}))
              (omega (arith, sl.at, length-append {ℓ}))
            ∙ ap ok (append_assoc pre (x' ∷ []) (rest ++ (last y rest ∷ spare))))

    shift_here :
        copy_within s.ranges (i + 1) s.count i ≡ ok (pre ++ (y ∷ (rest ++ (last y rest ∷ spare))))
    shift_here = rw sl.slots (
        copy_within-left_last pre (y ∷ rest) spare x (i + 1) s.count i (omega (arith, sl.at))
          (omega (arith, sl.at, sl.used)) sl.at)

    module _ (px : IsProper x) (py : IsProper y) (ps : AllProper rest) where
      -- The state after a shift behind `x'`.
      after_next :
          (x' : Range T)
          → IsProper x'
          → Meets x' y
          → KeepsCollision (record s { ranges = pre ++ (x' ∷ (rest ++ (last y rest ∷ spare))) }, i)
      after_next x' p c = record {
        pre = pre;
        xs = x' ∷ (rest ++ (last y rest ∷ []));
        spare = spare;
        holds = record {
          slots = simp append_assoc;
          used = omega (arith, sl.used, length-append {ℓ});
          at = sl.at;
        };
        proper = (p, AllProper-last y rest (py, ps));
        collides = HasCollision-shifted x' y rest c (py, ps);
      }

      after_here :
          KeepsCollision (record s { ranges = pre ++ (y ∷ (rest ++ (last y rest ∷ spare))) }, i)
      after_here = record {
        pre = pre;
        xs = y ∷ (rest ++ (last y rest ∷ []));
        spare = spare;
        holds = record {
          slots = simp append_assoc;
          used = omega (arith, sl.used, length-append {ℓ});
          at = sl.at;
        };
        proper = (py, AllProper-last y rest (py, ps));
        collides = HasCollision-last y rest (py, ps);
      }

      after_skip : HasCollision (y ∷ rest) → KeepsCollision (s, i + 1)
      after_skip c = record {
        pre = pre ++ (x ∷ []);
        xs = y ∷ rest;
        spare = spare;
        holds = record {
          slots = sl.slots ∙ sym (append_assoc pre (x ∷ []) (y ∷ (rest ++ spare)));
          used = omega (arith, sl.used, length-append {ℓ});
          at = omega (arith, sl.at, length-append {ℓ});
        };
        proper = (py, ps);
        collides = c;
      }

      -- The union of two ranges that meet ends where the second one does, and meets it.
      unite-KeepsCollision :
          Meets x y → (out : RangeSet T × ℕ) × (unite w cap s i ≡ ok out) × KeepsCollision out
      unfolding unite
      unite-KeepsCollision (before, behind) = (
        _,
        rw (load_here, load_next)
            (rw
              (
                lt→ltb (limit y) (2 ^ w) py.inside,
                le→leb x.base (limit y) (omega (arith, before)),
                stored,
                shift_next grown (pre ++ (grown ∷ (y ∷ (rest ++ spare)))) refl,
              )
              refl),
        after_next grown
            (record {
              valid = record {
                not_empty = omega (arith, before);
                fits = omega (arith, before, py.inside);
              };
              inside = omega (arith, before, py.inside);
            })
            (omega (arith, before, py.valid.not_empty)),
      )
        where
          grown : Range T
          grown = record x { size = limit y - x.base }

          stored : store s.ranges i grown ≡ ok (pre ++ (grown ∷ (y ∷ (rest ++ spare))))
          stored = rw sl.slots (store-append pre (y ∷ (rest ++ spare)) x grown i sl.at)

      -- A turn of the loop on two ranges that meet, or with a collision behind them, does not panic.
      pub merge-KeepsCollision :
          (o : RangeOrdering)
          → Relates o x y
          → HasCollision (x ∷ (y ∷ rest))
          → (out : RangeSet T × ℕ) × (merge w cap o s i ≡ ok out) × KeepsCollision out
      unfolding merge
      merge-KeepsCollision less rel (here c) = absurd (omega (arith, rel, c.1))
      merge-KeepsCollision less rel (there c) = (_, refl, after_skip c)
      merge-KeepsCollision greater rel (here c) = absurd (omega (arith, rel, c.0))
      merge-KeepsCollision greater rel (there c) = (_, refl, after_skip c)
      merge-KeepsCollision equal rel c = (
        _,
        rw (shift_next x s.ranges sl.slots) refl,
        after_next x px (omega (arith, rel.0, rel.1, px.valid.not_empty)),
      )
      merge-KeepsCollision superset rel c = (
        _,
        rw (shift_next x s.ranges sl.slots) refl,
        after_next x px (omega (arith, rel.0, rel.1, py.valid.not_empty)),
      )
      merge-KeepsCollision subset rel c = (_, rw shift_here refl, after_here)
      merge-KeepsCollision less_equal rel c =
          unite-KeepsCollision (omega (arith, rel.0, rel.1, rel.2))
      merge-KeepsCollision greater_equal rel c =
          unite-KeepsCollision (omega (arith, rel.0, rel.1, rel.2))
