-- ===== src/Database/Order/Keyset.antt =====
-- The laws of ordered tables: a condition commutes with `ORDER BY`, and a keyset condition keeps
-- exactly the rows after the one that it names.
use public_parks.Prelude.{
  ◌≡◌, refl, sym, ◌∙◌, inl, inr, Bool, true, false, ◌&&◌, List, [], ◌∷◌, ◌++◌, if◌then◌else◌,
  Bool-cases, All, All-map,
}
use public_parks.Database.Order.{filter, insert, order_by, Sorted, Apart, AllApart, Pairwise}

module _ {R : Type 0} where
  pub All-filter {κ} :
      (P : R → Type κ) (p : R → Bool) (rs : List R) → All P rs → All P (filter p rs)
  All-filter P p [] a = tt
  All-filter P p (r ∷ rs) a = elim (Bool-cases (p r)) [
    | inl kept ↦ rw kept (a.0, All-filter P p rs a.1)
    | inr left ↦ rw left (All-filter P p rs a.1)
  ]

  pub filter_kept : (p : R → Bool) (rs : List R) → All (λ r. p r ≡ true) rs → filter p rs ≡ rs
  filter_kept p [] a = refl
  filter_kept p (r ∷ rs) a = rw (a.0, filter_kept p rs a.1)

  pub filter-and :
      (p q : R → Bool) (rs : List R) → filter (λ r. p r && q r) rs ≡ filter q (filter p rs)
  filter-and p q [] = refl
  filter-and p q (r ∷ rs) = elim (Bool-cases (p r)) [
    | inl kept ↦ elim (Bool-cases (q r)) [
      | inl also ↦ rw (kept, also, filter-and p q rs)
      | inr not_also ↦ rw (kept, not_also, filter-and p q rs)
    ]
    | inr left ↦ rw (left, filter-and p q rs)
  ]

  pub filter_agree :
      (p q : R → Bool) (rs : List R) → All (λ r. p r ≡ q r) rs → filter p rs ≡ filter q rs
  filter_agree p q [] a = refl
  filter_agree p q (r ∷ rs) a = rw (a.0, filter_agree p q rs a.1)

  pub Pairwise-filter {κ} :
      (Q : R → R → Type κ) (p : R → Bool) (rs : List R) → Pairwise Q rs → Pairwise Q (filter p rs)
  Pairwise-filter Q p [] a = tt
  Pairwise-filter Q p (r ∷ rs) a = elim (Bool-cases (p r)) [
    | inl kept ↦ rw kept (All-filter (λ y. Q r y) p rs a.0, Pairwise-filter Q p rs a.1)
    | inr left ↦ rw left (Pairwise-filter Q p rs a.1)
  ]

  pub All-last {κ} :
      (P : R → Type κ) (xs : List R) (l : R) (ys : List R) → All P (xs ++ l ∷ ys) → P l
  All-last P [] l ys a = a.0
  All-last P (x ∷ xs) l ys a = All-last P xs l ys a.1

  module _ (before : R → R → Bool) (irreflexive : (a : R) → before a a ≡ false)
      (transitive : (a b c : R) → before a b ≡ true → before b c ≡ true → before a c ≡ true) where
    All-insert {κ} :
        (P : R → Type κ) (x : R) (xs : List R) → P x → All P xs → All P (insert before x xs)
    All-insert P x [] px a = (px, tt)
    All-insert P x (y ∷ ys) px a = elim (Bool-cases (before x y)) [
      | inl first ↦ rw first (px, a)
      | inr later ↦ rw later (a.0, All-insert P x ys px a.1)
    ]

    pub All-order_by {κ} : (P : R → Type κ) (xs : List R) → All P xs → All P (order_by before xs)
    All-order_by P [] a = tt
    All-order_by P (x ∷ xs) a = All-insert P x (order_by before xs) a.0 (All-order_by P xs a.1)

    later_rows :
        (x y : R) (ys : List R)
        → before x y ≡ true
        → All (λ z. before y z ≡ true) ys
        → All (λ z. before x z ≡ true) (y ∷ ys)
    later_rows x y ys h a = (
      h,
      All-map (λ z. before y z ≡ true) (λ z. before x z ≡ true) (λ z k. transitive x y z h k) ys a,
    )

    insert-Sorted :
        (x : R) (xs : List R)
        → All (λ y. Apart before x y) xs
        → Sorted before xs
        → Sorted before (insert before x xs)
    insert-Sorted x [] a s = (tt, tt)
    insert-Sorted x (y ∷ ys) a s = elim (Bool-cases (before x y)) [
      | inl first ↦ rw first (later_rows x y ys first s.0, s)
      | inr later ↦ elim a.0 [
        | inl first ↦ absurd (cc (first, later))
        | inr back ↦
            rw later (All-insert (λ z. before y z ≡ true) x ys back s.0, insert-Sorted x ys a.1 s.1)
      ]
    ]

    pub order_by-Sorted : (xs : List R) → AllApart before xs → Sorted before (order_by before xs)
    order_by-Sorted [] a = tt
    order_by-Sorted (x ∷ xs) a =
        insert-Sorted x (order_by before xs) (All-order_by (λ y. Apart before x y) xs a.0)
          (order_by-Sorted xs a.1)

    insert-first :
        (x : R) (xs : List R) → All (λ y. before x y ≡ true) xs → insert before x xs ≡ x ∷ xs
    insert-first x [] a = refl
    insert-first x (y ∷ ys) a = rw a.0

    filter-insert :
        (p : R → Bool) (x : R) (xs : List R)
        → Sorted before xs
        → filter p (insert before x xs)
          ≡ (if p x then insert before x (filter p xs) else filter p xs)
    filter-insert p x [] s = refl
    filter-insert p x (y ∷ ys) s = elim (Bool-cases (before x y)) [
      | inl first ↦ elim (Bool-cases (p x)) [
        | inl kept ↦
            rw (first, kept)
              (sym (
                insert-first x (filter p (y ∷ ys))
                  (All-filter (λ z. before x z ≡ true) p (y ∷ ys) (later_rows x y ys first s.0))))
        | inr left ↦ rw (first, left)
      ]
      | inr later ↦ elim (Bool-cases (p y)) [
        | inl kept ↦ elim (Bool-cases (p x)) [
          | inl also ↦ rw (later, kept, filter-insert p x ys s.1, also, later)
          | inr not_also ↦ rw (later, kept, filter-insert p x ys s.1, not_also)
        ]
        | inr left ↦ rw (later, left, filter-insert p x ys s.1)
      ]
    ]

    -- A condition commutes with `ORDER BY`.
    pub filter-order_by :
        (p : R → Bool) (xs : List R)
        → AllApart before xs
        → filter p (order_by before xs) ≡ order_by before (filter p xs)
    filter-order_by p [] a = refl
    filter-order_by p (x ∷ xs) a =
        filter-insert p x (order_by before xs) (order_by-Sorted xs a.1) ∙ (elim (Bool-cases (p x)) [
          | inl kept ↦ rw (kept, filter-order_by p xs a.1)
          | inr left ↦ rw (left, filter-order_by p xs a.1)
        ])

    asymmetric : (a b : R) → before a b ≡ true → before b a ≡ false
    asymmetric a b h = elim (Bool-cases (before b a)) [
      | inl back ↦ absurd (cc (transitive a b a h back, irreflexive a))
      | inr fine ↦ fine
    ]

    -- Of a sorted table, a keyset condition keeps the rows that follow the named one.
    pub filter-after :
        (xs : List R) (l : R) (ys : List R)
        → Sorted before (xs ++ l ∷ ys)
        → filter (before l) (xs ++ l ∷ ys) ≡ ys
    filter-after [] l ys s = rw (irreflexive l, filter_kept (before l) ys s.0)
    filter-after (x ∷ xs) l ys s =
        rw (asymmetric x l (All-last (λ y. before x y ≡ true) xs l ys s.0))
          (filter-after xs l ys s.1)
