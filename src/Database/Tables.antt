-- ===== src/Database/Tables.antt =====
-- Tables as lists of rows: `SELECT … WHERE`, `UPDATE … WHERE` and the laws that the
-- repositories' proofs use. The order of a table's rows has no meaning; a new row is put first.
use public_parks.Prelude.{
  ℕ, ◌+◌, ◌≤◌, ◌≡◌, refl, subst, inl, inr, Bool, true, false, Option, none, some, List, [], ◌∷◌,
  arith, if◌then◌else◌, Bool-cases, any, All,
}
use mathlib.Core.Option

module _ {R : Type 0} where
  -- `SELECT … WHERE p` and its first row.
  abbrev pub find? : (R → Bool) → List R → Option R
  find? p [] = none
  find? p (r ∷ rs) = if p r then some r else find? p rs

  -- `UPDATE … SET f WHERE p`
  abbrev pub update_where : (R → Bool) → (R → R) → List R → List R
  update_where p f [] = []
  update_where p f (r ∷ rs) = (if p r then f r else r) ∷ update_where p f rs

  -- The number of rows that a condition selects.
  abbrev pub count : (R → Bool) → List R → ℕ
  count p [] = 0
  count p (r ∷ rs) = (if p r then 1 else 0) + count p rs

  pub find?-sound : (p : R → Bool) (rs : List R) {r : R} → find? p rs ≡ some r → p r ≡ true
  find?-sound p [] h = cc
  find?-sound p (x ∷ rs) h = elim (Bool-cases (p x)) [
    | inl hit ↦ ground arith
    | inr miss ↦ find?-sound p rs (rw miss at h)
  ]

  -- A row that a condition selects has what all rows have.
  pub find?-All {κ} :
      (P : R → Type κ) (p : R → Bool) (rs : List R) {r : R} → All P rs → find? p rs ≡ some r → P r
  find?-All P p [] a h = cc
  find?-All P p (x ∷ rs) {r} a h = elim (Bool-cases (p x)) [
    | inl hit ↦ let same : x ≡ r = ground arith in subst P same a.0
    | inr miss ↦ find?-All P p rs a.1 (rw miss at h)
  ]

  -- A property of all rows after an update, told of the rows before it.
  pub All-update_where {κ} :
      (P : R → Type κ) (p : R → Bool) (f : R → R) (rs : List R)
      → All (λ r. P (if p r then f r else r)) rs
      → All P (update_where p f rs)
  All-update_where P p f [] a = tt
  All-update_where P p f (r ∷ rs) a = (a.0, All-update_where P p f rs a.1)

  pub count-update_where :
      (q p : R → Bool) (f : R → R) (rs : List R)
      → count q (update_where p f rs) ≡ count (λ r. q (if p r then f r else r)) rs
  count-update_where q p f [] = refl
  count-update_where q p f (r ∷ rs) = omega (arith, count-update_where q p f rs)

  pub count_le :
      (p q : R → Bool) (rs : List R)
      → All (λ r. p r ≡ true → q r ≡ true) rs
      → count p rs ≤ count q rs
  count_le p q [] a = omega arith
  count_le p q (r ∷ rs) a = elim (Bool-cases (p r)) [
    | inl hit ↦ rw (hit, a.0 hit) (omega (arith, count_le p q rs a.1))
    | inr miss ↦ rw miss (omega (arith, count_le p q rs a.1))
  ]

  pub any-update_where :
      (q p : R → Bool) (f : R → R)
      → ((r : R) → q (f r) ≡ q r)
      → (rs : List R) → any q (update_where p f rs) ≡ any q rs
  any-update_where q p f same [] = refl
  any-update_where q p f same (r ∷ rs) = elim (Bool-cases (p r)) [
    | inl hit ↦ rw (hit, same r, any-update_where q p f same rs) refl
    | inr miss ↦ rw (miss, any-update_where q p f same rs) refl
  ]

  pub any-false→All : (p : R → Bool) (rs : List R) → any p rs ≡ false → All (λ r. p r ≡ false) rs
  any-false→All p [] h = tt
  any-false→All p (r ∷ rs) h = (ground arith, any-false→All p rs (ground arith))

  pub All→any-false : (p : R → Bool) (rs : List R) → All (λ r. p r ≡ false) rs → any p rs ≡ false
  All→any-false p [] a = refl
  All→any-false p (r ∷ rs) a = ground (arith, All→any-false p rs a.1)

  pub count_zero : (p : R → Bool) (rs : List R) → All (λ r. p r ≡ false) rs → count p rs ≡ 0
  count_zero p [] a = refl
  count_zero p (r ∷ rs) a = rw a.0 (omega (arith, count_zero p rs a.1))

  -- Finding by a condition that an update does not touch: the row is found, updated if it was
  -- among those to update.
  pub find?-update_where :
      (p q : R → Bool) (f : R → R)
      → ((r : R) → p (f r) ≡ p r)
      → (rs : List R)
      → find? p (update_where q f rs) ≡ Option.map (λ r. if q r then f r else r) (find? p rs)
  find?-update_where p q f same [] = refl
  find?-update_where p q f same (r ∷ rs) = elim (Bool-cases (q r)) [
    | inl hit ↦ ground (arith, same r, find?-update_where p q f same rs)
    | inr miss ↦ ground (arith, find?-update_where p q f same rs)
  ]

  -- Two conditions that agree on all rows find the same row.
  pub find?-agree :
      (p q : R → Bool) (rs : List R) → All (λ r. p r ≡ q r) rs → find? p rs ≡ find? q rs
  find?-agree p q [] a = refl
  find?-agree p q (r ∷ rs) a = cc (a.0, find?-agree p q rs a.1)
