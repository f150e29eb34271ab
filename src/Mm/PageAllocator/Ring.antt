-- ===== src/Mm/PageAllocator/Ring.antt =====
-- The circular, doubly linked lists of src/mm/page_allocator.rs as lists of addresses.
use propeller_kernel.Prelude.{
  ℕ, ◌≡◌, ◌≢◌, refl, Bool, true, false, ◌||◌, inl, inr, List, [], ◌∷◌, ◌++◌, arith, ◌==◌, ==_iff,
  Bool-cases,
}
use propeller_kernel.Mm.Machine.{Machine}
use propeller_kernel.Mm.PageAllocator.{BlockNode, write, update_checksum, verify_checksum}
use propeller_kernel.Mm.PageAllocator.Nodes.{write_self, write_ne, verify-update, IsPage}

abbrev pub has : ℕ → List ℕ → Bool
has a [] = false
has a (x ∷ xs) = (a == x) || has a xs

abbrev pub Distinct : List ℕ → Type 0
Distinct [] = Unit
Distinct (x ∷ xs) = (has x xs ≡ false) × Distinct xs

-- The first address of a list, or the one behind it; the last address, or the one before it.
abbrev pub head_or : ℕ → List ℕ → ℕ
head_or d [] = d
head_or d (x ∷ xs) = x

abbrev pub last_or : ℕ → List ℕ → ℕ
last_or d [] = d
last_or d (x ∷ xs) = last_or x xs

module _ (m : Machine) where
  -- A verified node with the given neighbours.
  pub record IsNode (n : BlockNode) (prev next : ℕ) : Type 0 where
    pub prev_is : n.prev ≡ prev
    pub next_is : n.next ≡ next
    pub verified : verify_checksum m n ≡ true

  -- The nodes of `xs` are linked in order, from `before` to `after`.
  abbrev pub Links : (ℕ → BlockNode) → ℕ → List ℕ → ℕ → Type 0
  Links memory before [] after = Unit
  Links memory before (x ∷ xs) after =
      IsNode (memory x) before (head_or after xs) × Links memory x xs after

  pub IsNode-update :
      (n : BlockNode) (prev next : ℕ)
      → n.prev ≡ prev
      → n.next ≡ next
      → IsNode (update_checksum m n) prev next
  unfolding update_checksum
  IsNode-update n prev next p q = record {
    prev_is = p;
    next_is = q;
    verified = (verify-update m n next prev).0;
  }

  module _ (memory : ℕ → BlockNode) where
    -- A write elsewhere keeps the links.
    pub Links-frame :
        (a : ℕ) (n : BlockNode) (before : ℕ) (xs : List ℕ) (after : ℕ)
        → has a xs ≡ false
        → Links memory before xs after
        → Links (write memory a n) before xs after
    Links-frame a n before [] after out l = tt
    Links-frame a n before (x ∷ xs) after out (node, l) = (
      rw (write_ne memory a n x (ground (arith, out))) node,
      Links-frame a n x xs after (ground (arith, out)) l,
    )

    pub Links-append :
        (before : ℕ) (xs ys : List ℕ) (after : ℕ)
        → Links memory before xs (head_or after ys)
        → Links memory (last_or before xs) ys after
        → Links memory before (xs ++ ys) after
    Links-append before [] ys after l k = k
    Links-append before (x ∷ []) ys after (node, l) k = (node, k)
    Links-append before (x ∷ (x' ∷ xs)) ys after (node, l) k =
        (node, Links-append x (x' ∷ xs) ys after l k)

    pub Links-split :
        (before : ℕ) (xs ys : List ℕ) (after : ℕ)
        → Links memory before (xs ++ ys) after
        → Links memory before xs (head_or after ys) × Links memory (last_or before xs) ys after
    Links-split before [] ys after l = (tt, l)
    Links-split before (x ∷ []) ys after (node, l) = ((node, tt), l)
    Links-split before (x ∷ (x' ∷ xs)) ys after (node, l) =
        let (front, back) = Links-split x (x' ∷ xs) ys after l in ((node, front), back)

    -- The first node gets another predecessor.
    pub Links-set_before :
        (before before' x : ℕ) (xs : List ℕ) (after : ℕ)
        → has x xs ≡ false
        → Links memory before (x ∷ xs) after
        → Links
            (write memory x (update_checksum m (record (memory x) { prev = before' })))
            before'
            (x ∷ xs)
            after
    Links-set_before before before' x xs after out (node, l) = (
      rw (write_self memory x (update_checksum m (record (memory x) { prev = before' })))
          (IsNode-update _ before' (head_or after xs) refl node.next_is),
      Links-frame x _ x xs after out l,
    )

    -- The last node gets another successor.
    pub Links-set_after :
        (before x : ℕ) (xs : List ℕ) (after after' : ℕ)
        → Distinct (x ∷ xs)
        → Links memory before (x ∷ xs) after
        → Links
            (write memory
              (last_or x xs)
              (update_checksum m (record (memory (last_or x xs)) { next = after' })))
            before
            (x ∷ xs)
            after'
    Links-set_after before x [] after after' d (node, l) = (
      rw (write_self memory x (update_checksum m (record (memory x) { next = after' })))
          (IsNode-update _ before after' node.prev_is refl),
      tt,
    )
    Links-set_after before x (x' ∷ xs) after after' (out, d) (node, l) = (
      rw
          (write_ne memory (last_or x' xs)
            (update_checksum m (record (memory (last_or x' xs)) { next = after' })) x
            (not_last x x' xs out))
          node,
      Links-set_after x x' xs after after' d l,
    )
      where
        not_last : (a b : ℕ) (bs : List ℕ) → has a (b ∷ bs) ≡ false → (a == last_or b bs) ≡ false
        not_last a b [] h = ground (arith, h)
        not_last a b (c ∷ bs) h = not_last a c bs (ground (arith, h))

  abbrev pub AllPages : List ℕ → Type 0
  AllPages [] = Unit
  AllPages (x ∷ xs) = (x ≢ 0) × IsPage m x × AllPages xs

  -- From `head` the links lead round the distinct pages `xs`; the empty list has the head 0.
  pub record IsRing (memory : ℕ → BlockNode) (head : ℕ) (xs : List ℕ) : Type 0 where
    pub head_is : head ≡ head_or 0 xs
    pub links : Links memory (last_or 0 xs) xs (head_or 0 xs)
    pub distinct : Distinct xs
    pub pages : AllPages xs

  pub IsRing-head :
      {memory : ℕ → BlockNode} {head : ℕ} {xs : List ℕ}
      → IsRing memory head xs
      → IsRing memory (head_or 0 xs) xs
  IsRing-head r = record { head_is = refl; links = r.links; distinct = r.distinct; pages = r.pages }

  -- A list at other pages is not changed by a write.
  pub IsRing-write :
      (memory : ℕ → BlockNode) (a : ℕ) (n : BlockNode) {head : ℕ} {xs : List ℕ}
      → has a xs ≡ false
      → IsRing memory head xs
      → IsRing (write memory a n) head xs
  IsRing-write memory a n {xs = xs} out r = record {
    head_is = r.head_is;
    links = Links-frame memory a n _ xs _ out r.links;
    distinct = r.distinct;
    pages = r.pages;
  }

module _ (m : Machine) (memory : ℕ → BlockNode) where
  pub Links-last :
      (before x : ℕ) (xs : List ℕ) (after : ℕ)
      → Links m memory before (x ∷ xs) after
      → verify_checksum m (memory (last_or x xs)) ≡ true
  Links-last before x [] after (node, l) = node.verified
  Links-last before x (y ∷ ys) after (node, l) = Links-last x y ys after l

pub AllPages-last :
    (m : Machine) (x : ℕ) (xs : List ℕ)
    → AllPages m (x ∷ xs)
    → (last_or x xs ≢ 0) × IsPage m (last_or x xs)
AllPages-last m x [] (nz, p, h) = (nz, p)
AllPages-last m x (y ∷ ys) (nz, p, h) = AllPages-last m y ys h

pub last_or-append : (d : ℕ) (xs : List ℕ) (x : ℕ) → last_or d (xs ++ (x ∷ [])) ≡ x
last_or-append d [] x = refl
last_or-append d (y ∷ ys) x = last_or-append y ys x

pub has-append : (a : ℕ) (xs ys : List ℕ) → has a (xs ++ ys) ≡ (has a xs || has a ys)
has-append a [] ys = refl
has-append a (x ∷ xs) ys = ground (arith, has-append a xs ys)

pub Distinct-snoc :
    (xs : List ℕ) (b : ℕ) → Distinct xs → has b xs ≡ false → Distinct (xs ++ (b ∷ []))
Distinct-snoc [] b d out = (refl, tt)
Distinct-snoc (x ∷ xs) b (o, d) out =
    (ground (arith, has-append x xs (b ∷ [])), Distinct-snoc xs b d (ground (arith, out)))

pub has-last_or : (x : ℕ) (xs : List ℕ) → has (last_or x xs) (x ∷ xs) ≡ true
has-last_or x [] = ground arith
has-last_or x (y ∷ ys) = ground (arith, has-last_or y ys)

pub has-false-ne : (a b : ℕ) (xs : List ℕ) → has a xs ≡ false → has b xs ≡ true → (a == b) ≡ false
has-false-ne a b [] h t = cc
has-false-ne a b (x ∷ xs) h t = ground (arith, has-false-ne a b xs)

pub last_or-append_cons :
    (d : ℕ) (xs : List ℕ) (y : ℕ) (ys : List ℕ) → last_or d (xs ++ (y ∷ ys)) ≡ last_or y ys
last_or-append_cons d [] y ys = refl
last_or-append_cons d (x ∷ xs) y ys = last_or-append_cons x xs y ys

abbrev pub Disjoint : List ℕ → List ℕ → Type 0
Disjoint xs ys = (a : ℕ) → has a xs ≡ true → has a ys ≡ false

pub Distinct-split :
    (xs ys : List ℕ) → Distinct (xs ++ ys) → Distinct xs × Distinct ys × Disjoint xs ys
Distinct-split [] ys d = (tt, d, λ a h. cc)
Distinct-split (x ∷ xs) ys (o, d) =
    let (front, back, apart) = Distinct-split xs ys d in
    (
      (ground (arith, has-append x xs ys), front),
      back,
      λ a h. elim (Bool-cases (a == x)) [
        | inl e ↦ rw ((==_iff a x).0 e) (ground (arith, has-append x xs ys))
        | inr e ↦ apart a (ground arith)
      ],
    )

pub Distinct-join :
    (xs ys : List ℕ) → Distinct xs → Distinct ys → Disjoint xs ys → Distinct (xs ++ ys)
Distinct-join [] ys d k apart = k
Distinct-join (x ∷ xs) ys (o, d) k apart = (
  ground (arith, has-append x xs ys, apart x),
  Distinct-join xs ys d k (λ a h. apart a (ground arith)),
)

pub AllPages-split :
    (m : Machine) (xs ys : List ℕ) → AllPages m (xs ++ ys) → AllPages m xs × AllPages m ys
AllPages-split m [] ys h = (tt, h)
AllPages-split m (x ∷ xs) ys (nz, p, h) =
    let (front, back) = AllPages-split m xs ys h in ((nz, p, front), back)

pub AllPages-join :
    (m : Machine) (xs ys : List ℕ) → AllPages m xs → AllPages m ys → AllPages m (xs ++ ys)
AllPages-join m [] ys h k = k
AllPages-join m (x ∷ xs) ys (nz, p, h) k = (nz, p, AllPages-join m xs ys h k)

pub not_left : (xs ys : List ℕ) (a : ℕ) → Disjoint xs ys → has a ys ≡ true → has a xs ≡ false
not_left xs ys a apart h = elim (Bool-cases (has a xs)) [ inl t ↦ cc (apart a t) | inr f ↦ f ]
