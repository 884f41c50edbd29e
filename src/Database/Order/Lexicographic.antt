-- ===== src/Database/Order/Lexicographic.antt =====
-- The order of two columns is a strict order if those of the columns are.
use public_parks.Prelude.{
  ◌≡◌, refl, sym, ap, ◌∙◌, subst, ◌↔◌, ◌⊎◌, inl, inr, Bool, true, false, ◌&&◌, ◌||◌, arith,
  Bool-cases,
}
use public_parks.Database.Order.{StrictOrder, lexicographic}

or_cases : (x y : Bool) → (x || y) ≡ true → (x ≡ true) ⊎ (y ≡ true)
or_cases x y h = ground arith

module _ {A B : Type 0} (first : StrictOrder A) (same : A → A → Bool) (second : StrictOrder B)
    (same_iff : (a c : A) → (same a c ≡ true) ↔ (a ≡ c)) where
  lex_cases :
      (p q : A × B)
      → lexicographic first.before same second.before p q ≡ true
      → (first.before p.0 q.0 ≡ true) ⊎ ((q.0 ≡ p.0) × (second.before p.1 q.1 ≡ true))
  lex_cases (a, b) (c, d) h = elim (or_cases (first.before a c) (same c a && second.before b d) h) [
    | inl less ↦ inl less
    | inr tie ↦ elim (Bool-cases (same c a)) [
      | inl equal ↦ inr ((same_iff c a).0 equal, rw equal at tie)
      | inr apart ↦ absurd (cc (rw apart at tie))
    ]
  ]

  lex_first :
      (p q : A × B)
      → first.before p.0 q.0 ≡ true
      → lexicographic first.before same second.before p q ≡ true
  lex_first (a, b) (c, d) h = rw h

  lex_second :
      (p q : A × B)
      → q.0 ≡ p.0
      → second.before p.1 q.1 ≡ true
      → lexicographic first.before same second.before p q ≡ true
  lex_second (a, b) (c, d) e h = let equal = (same_iff c a).1 e in ground (arith, equal, h)

  pub lex_irreflexive : (p : A × B) → lexicographic first.before same second.before p p ≡ false
  lex_irreflexive (a, b) = rw (first.irreflexive a, (same_iff a a).1 refl, second.irreflexive b)

  pub lex_transitive :
      (p q r : A × B)
      → lexicographic first.before same second.before p q ≡ true
      → lexicographic first.before same second.before q r ≡ true
      → lexicographic first.before same second.before p r ≡ true
  lex_transitive p q r h k = elim (lex_cases p q h) [
    | inl less ↦ elim (lex_cases q r k) [
      | inl also ↦ lex_first p r (first.transitive p.0 q.0 r.0 less also)
      | inr tie ↦ lex_first p r (subst (λ x. first.before p.0 x ≡ true) (sym tie.0) less)
    ]
    | inr tie ↦ elim (lex_cases q r k) [
      | inl less ↦ lex_first p r (subst (λ x. first.before x r.0 ≡ true) tie.0 less)
      | inr also ↦ lex_second p r (also.0 ∙ tie.0) (second.transitive p.1 q.1 r.1 tie.1 also.1)
    ]
  ]

  pub lex_total :
      (p q : A × B)
      → (p ≡ q)
        ⊎ ((lexicographic first.before same second.before p q ≡ true)
            ⊎ (lexicographic first.before same second.before q p ≡ true))
  lex_total p q = elim (first.total p.0 q.0) [
    | inr (inl less) ↦ inr (inl (lex_first p q less))
    | inr (inr more) ↦ inr (inr (lex_first q p more))
    | inl equal ↦ elim (second.total p.1 q.1) [
      | inl also ↦ inl (ap (λ a. (a, p.1)) equal ∙ ap (λ b. (q.0, b)) also)
      | inr (inl less) ↦ inr (inl (lex_second p q (sym equal) less))
      | inr (inr more) ↦ inr (inr (lex_second q p equal more))
    ]
  ]

  -- Of two columns: by the first, and by the second where the first agree.
  unfoldable pub two_columns : StrictOrder (A × B)
  two_columns = record {
    before = lexicographic first.before same second.before;
    irreflexive = lex_irreflexive;
    transitive = lex_transitive;
    total = lex_total;
  }
