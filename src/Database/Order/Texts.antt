-- ===== src/Database/Order/Texts.antt =====
-- The order of texts by their characters' codes, as PostgreSQL orders uuids and, in the "C"
-- collation, texts.
use Prim.Native.Char.{code}
use Prim.Native.String.{String, [], ◌∷◌}
use text.Mathlib.TextEquality.{codes_equal}
use public_parks.Prelude.{
  ◌≡◌, refl, ◌⊎◌, inl, inr, Bool, true, false, ◌&&◌, ◌||◌, ◌==◌, ltb, arith, Bool-cases,
}

unfoldable pub text_before : String → String → Bool
text_before [] [] = false
text_before [] (d ∷ t) = true
text_before (c ∷ s) [] = false
text_before (c ∷ s) (d ∷ t) = ltb (code c) (code d) || (code c == code d && text_before s t)

pub text_before_irrefl : (s : String) → text_before s s ≡ false
unfolding text_before
text_before_irrefl [] = refl
text_before_irrefl (c ∷ s) = ground (arith, text_before_irrefl s)

pub text_before_trans :
    (s t u : String) → text_before s t ≡ true → text_before t u ≡ true → text_before s u ≡ true
unfolding text_before
text_before_trans [] [] u h k = cc
text_before_trans [] (d ∷ t) [] h k = cc
text_before_trans [] (d ∷ t) (e ∷ u) h k = refl
text_before_trans (c ∷ s) [] u h k = cc
text_before_trans (c ∷ s) (d ∷ t) [] h k = cc
text_before_trans (c ∷ s) (d ∷ t) (e ∷ u) h k = ground (arith, text_before_trans s t u)

pub text_before_total :
    (s t : String) → (s ≡ t) ⊎ ((text_before s t ≡ true) ⊎ (text_before t s ≡ true))
unfolding text_before
text_before_total [] [] = inl refl
text_before_total [] (d ∷ t) = inr (inl refl)
text_before_total (c ∷ s) [] = inr (inr refl)
text_before_total (c ∷ s) (d ∷ t) = elim (Bool-cases (code c == code d)) [
  | inl same ↦ elim (text_before_total s t) [
    | inl equal ↦ inl (cc (codes_equal c d (ground arith), equal))
    | inr (inl first) ↦ inr (inl (ground arith))
    | inr (inr second) ↦ inr (inr (ground arith))
  ]
  | inr apart ↦ elim (Bool-cases (ltb (code c) (code d))) [
    | inl first ↦ inr (inl (ground arith))
    | inr second ↦ inr (inr (ground arith))
  ]
]
