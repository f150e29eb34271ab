-- ===== src/Support/RangeSet/Exclude.antt =====
-- `RangeSet::exclude_range` of src/support/range_set.rs as an operation on the list of ranges.
use mathlib.Core.List.{append_assoc, append-nil}
use propeller_kernel.Prelude.{
  ℕ, zero, suc, ◌+◌, ◌-◌, ◌≤◌, ◌<◌, ◌≡◌, refl, ap, ◌∙◌, true, Option, none, some, List, [], ◌∷◌,
  ◌++◌, Run, ok, arith, length, length-append, lt→ltb, ltb-false,
}
use propeller_kernel.Support.Range.{Range, parts, exclude}
use propeller_kernel.Prelude.Monad.{load, store}
use propeller_kernel.Support.RangeSet.{RangeSet, copy_within, place, exclude_loop}
use propeller_kernel.Support.RangeSet.Slots.{
  load-append, store-append, store-append_next, copy_within-left, copy_within-right,
}
use propeller_kernel.Support.RangeSet.View.{IsView}
use propeller_kernel.Prelude.Monad.{◌>>=◌}

module _ {ℓ} {T : Type ℓ} where
  abbrev pub to_list : Option (Range T) → Option (Range T) → List (Range T)
  to_list none none = []
  to_list (some a) none = a ∷ []
  to_list none (some b) = b ∷ []
  to_list (some a) (some b) = a ∷ b ∷ []

  -- One when a slot is needed for a second part.
  abbrev pub extra : Option (Range T) → Option (Range T) → ℕ
  extra (some a) (some b) = 1
  extra _ _ = 0

  record Placed (cap : ℕ) (front xs : List (Range T)) (result : Run (RangeSet T × ℕ)) : Type ℓ where
    set : RangeSet T
    returns : result ≡ ok (set, length front)
    view : IsView cap set (front ++ xs)

  module _ {cap : ℕ} {s : RangeSet T} (pre : List (Range T)) (x : Range T) (xs : List (Range T))
      (v : IsView cap s (pre ++ (x ∷ xs))) (i : ℕ) (at : i ≡ length pre) where
    slots : s.ranges ≡ pre ++ (x ∷ (xs ++ v.spare))
    slots = v.slots ∙ append_assoc pre (x ∷ xs) v.spare

    place_one :
        (a : Range T) {result : Run (RangeSet T × ℕ)}
        → result ≡ (store s.ranges i a >>= λ ranges. ok (record s { ranges = ranges }, i + 1))
        → Placed cap (pre ++ (a ∷ [])) xs result
    place_one a run = record {
      set = record s { ranges = pre ++ (a ∷ (xs ++ v.spare)) };
      returns =
          run
          ∙ rw slots (
              rw (store-append pre (xs ++ v.spare) x a i at) (
                ap (λ n. ok (record s { ranges = pre ++ (a ∷ (xs ++ v.spare)) }, n))
                  (omega (arith, length-append pre (a ∷ [])))));
      view = record {
        spare = v.spare;
        slots = simp append_assoc;
        size = omega (arith, v.size, length-append {ℓ});
        used = omega (arith, v.used, length-append {ℓ});
      };
    }

    place-Placed :
        (w : ℕ) (a b : Option (Range T))
        → length pre + length xs + 1 + extra a b ≤ cap
        → Placed cap (pre ++ to_list a b) xs (place w cap s i a b)
    unfolding place
    place-Placed w none none h = record {
      set = record { ranges = pre ++ (xs ++ (moved.0 ∷ v.spare)); count = s.count - 1 };
      returns =
          rw (moved.1, append-nil)
            (ap
              (λ n.
                ok (record { ranges = pre ++ (xs ++ (moved.0 ∷ v.spare)); count = s.count - 1 }, n))
              at);
      view = record {
        spare = moved.0 ∷ v.spare;
        slots = simp (append_assoc, append-nil);
        size = omega (arith, v.size, length-append {ℓ});
        used = omega (arith, v.used, length-append {ℓ});
      };
    }
      where
        moved :
            (z : Range T) × (copy_within s.ranges (i + 1) s.count i
              ≡ ok (pre ++ (xs ++ (z ∷ v.spare))))
        moved = rw slots (
            copy_within-left pre xs v.spare x (i + 1) s.count i (omega arith)
              (omega (arith, v.used, length-append pre (x ∷ xs))) at)
    place-Placed w (some a) none h = place_one a refl
    place-Placed w none (some b) h = place_one b refl
    place-Placed w (some a) (some b) h = go v.spare slots v.size
      where
        go :
            (spare : List (Range T))
            → s.ranges ≡ pre ++ (x ∷ (xs ++ spare))
            → length (pre ++ (x ∷ xs)) + length spare ≡ cap
            → Placed cap (pre ++ (a ∷ b ∷ [])) xs (place w cap s i (some a) (some b))
        go [] e n = absurd (omega (arith, length-append {ℓ}))
        go (y ∷ sp) e n = record {
          set = record { ranges = pre ++ (a ∷ b ∷ (xs ++ sp)); count = s.count + 1 };
          returns = rw e (
              rw
                (
                  store-append pre (xs ++ (y ∷ sp)) x a i at,
                  lt→ltb s.count cap (omega (arith, v.used, length-append {ℓ})),
                  copy_within-right pre xs sp a y i s.count (i + 1) (omega arith)
                      (omega (arith, v.used, length-append {ℓ})) (omega arith),
                  store-append_next pre (xs ++ sp) a a b (i + 1) (omega arith),
                )
                (ap
                  (λ n.
                    ok (record { ranges = pre ++ (a ∷ b ∷ (xs ++ sp)); count = s.count + 1 }, n))
                  (omega (arith, length-append {ℓ}))));
          view = record {
            spare = sp;
            slots = simp append_assoc;
            size = omega (arith, n, length-append {ℓ});
            used = omega (arith, v.used, length-append {ℓ});
          };
        }

  -- The parts that are left of each range, in order, and the number of slots that this takes more.
  pub data Pieces (w : ℕ) (excl : Range T) : List (Range T) → List (Range T) → ℕ → Type ℓ where
    nil : Pieces w excl [] [] 0
    cons :
        {x : Range T} {xs ys : List (Range T)} {k : ℕ} (a b : Option (Range T))
        → exclude w x excl ≡ ok (parts a b)
        → Pieces w excl xs ys k
        → Pieces w excl (x ∷ xs) (to_list a b ++ ys) (extra a b + k)

  length-to_list : (a b : Option (Range T)) → length (to_list a b) ≤ 1 + extra a b
  length-to_list none none = omega arith
  length-to_list none (some b) = omega arith
  length-to_list (some a) none = omega arith
  length-to_list (some a) (some b) = omega arith

  pub exclude_loop-Pieces :
      {cap : ℕ} (w : ℕ) (excl : Range T) (fuel : ℕ) {xs ys : List (Range T)} {k : ℕ}
      (pre : List (Range T)) (s : RangeSet T) (i : ℕ)
      → Pieces w excl xs ys k
      → IsView cap s (pre ++ xs)
      → length pre + length xs + k ≤ cap
      → length xs < fuel
      → i ≡ length pre
      → (s' : RangeSet T) × (exclude_loop w cap fuel s excl i ≡ ok (s', true))
        × IsView cap s' (pre ++ ys)
  unfolding exclude_loop
  exclude_loop-Pieces w excl zero pre s i p v room h e = absurd (omega arith)
  exclude_loop-Pieces w excl (suc fuel) pre s i nil v room h e =
      (s, rw (ltb-false i s.count (omega (arith, v.used, length-append {ℓ}))), v)
  exclude_loop-Pieces {cap} w excl (suc fuel) pre s i (cons {x} {xs} {ys} a b run p) v room h e =
      rw (lt→ltb i s.count (omega (arith, v.used, length-append {ℓ}))) (
        rw (loaded, run, placed.returns)
          (rw append_assoc at (
            exclude_loop-Pieces w excl fuel (pre ++ to_list a b) placed.set _ p placed.view
              (omega (arith, room, length-to_list a b, length-append pre (to_list a b)))
              (omega arith) refl)))
    where
      loaded : load s.ranges i ≡ ok x
      loaded = rw (slots pre x xs v i e) (load-append pre (xs ++ v.spare) x i e)

      placed : Placed cap (pre ++ to_list a b) xs (place w cap s i a b)
      placed = place-Placed pre x xs v i e w a b (omega (arith, room))
