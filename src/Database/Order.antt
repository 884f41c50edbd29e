-- ===== src/Database/Order.antt =====
-- `ORDER BY … LIMIT …`, and its laws: what a keyset condition keeps of an ordered table.
pub mod Texts
pub mod Lexicographic
pub mod Keyset
use public_parks.Prelude.{
  ℕ, zero, suc, ◌≡◌, refl, ap, ◌≢◌, ◌⊎◌, inl, inr, Bool, true, false, ◌&&◌, ◌||◌, List, [], ◌∷◌,
  ◌++◌, arith, if◌then◌else◌, Bool-cases, All, All-map,
}

-- A strict order, total on the rows that it tells apart.
pub record StrictOrder {ℓ} (A : Type ℓ) : Type ℓ where
  pub before : A → A → Bool
  pub irreflexive : (a : A) → before a a ≡ false
  pub transitive : (a b c : A) → before a b ≡ true → before b c ≡ true → before a c ≡ true
  pub total : (a b : A) → (a ≡ b) ⊎ ((before a b ≡ true) ⊎ (before b a ≡ true))

-- Of two columns: by the first, and by the second where the first agree.
abbrev pub lexicographic {ℓ κ} :
    {A : Type ℓ} {B : Type κ}
    → (A → A → Bool)
    → (A → A → Bool)
    → (B → B → Bool)
    → A × B
    → A × B
    → Bool
lexicographic first same second (a, b) (c, d) = first a c || (same c a && second b d)

module _ {R : Type 0} where
  -- `WHERE p`
  abbrev pub filter : (R → Bool) → List R → List R
  filter p [] = []
  filter p (r ∷ rs) = if p r then r ∷ filter p rs else filter p rs

  -- `LIMIT n`
  abbrev pub limit : ℕ → List R → List R
  limit zero rs = []
  limit (suc n) [] = []
  limit (suc n) (r ∷ rs) = r ∷ limit n rs

  -- A relation of each row to every later one.
  abbrev pub Pairwise {κ} : (R → R → Type κ) → List R → Type κ
  Pairwise Q [] = Unit
  Pairwise Q (x ∷ xs) = All (λ y. Q x y) xs × Pairwise Q xs

  module _ (before : R → R → Bool) where
    abbrev pub insert : R → List R → List R
    insert x [] = x ∷ []
    insert x (y ∷ ys) = if before x y then x ∷ y ∷ ys else y ∷ insert x ys

    -- `ORDER BY`, the earlier row before the later
    abbrev pub order_by : List R → List R
    order_by [] = []
    order_by (x ∷ xs) = insert x (order_by xs)

    -- Every row is before all later ones.
    abbrev pub Sorted : List R → Type 0
    Sorted [] = Unit
    Sorted (x ∷ xs) = All (λ y. before x y ≡ true) xs × Sorted xs

    abbrev pub Apart : R → R → Type 0
    Apart x y = (before x y ≡ true) ⊎ (before y x ≡ true)

    -- Any two rows are ordered.
    abbrev pub AllApart : List R → Type 0
    AllApart xs = Pairwise Apart xs
