-- ===== src/Facilities/Order.antt =====
-- The order of the rows of src/facilities/facilities.repository.ts and its keyset conditions.
use public_parks.Database.Order.{StrictOrder, Apart}
use public_parks.Database.Order.Lexicographic.{lex_irreflexive, lex_transitive, lex_total}
use public_parks.Database.Order.Texts.{
  text_before, text_before_irrefl, text_before_trans, text_before_total,
}
use public_parks.Facilities.Types.{Point, FacilityDiscoveryRow, Distance}
use public_parks.Facilities.Repository.{
  Postgres, distance_before, same_distance, row_before, after_cursor,
}
use public_parks.Facilities.Service.{cursor_of_row}
use public_parks.Prelude.{
  String, ◌≡◌, refl, ap, ◌≢◌, ◌↔◌, ◌⊎◌, inl, inr, true, false, Option, none, some, arith, str_eq,
  eq_iff, ltb, ◌==◌, ==_iff, Bool-cases, is_none,
}

unfoldable ids : StrictOrder String
ids = record {
  before = text_before;
  irreflexive = text_before_irrefl;
  transitive = text_before_trans;
  total = text_before_total;
}

same_distance_iff : (a b : Option Distance) → (same_distance a b ≡ true) ↔ (a ≡ b)
same_distance_iff none none = (λ h. refl, λ h. refl)
same_distance_iff none (some e) = (λ h. cc, λ h. cc)
same_distance_iff (some d) none = (λ h. cc, λ h. cc)
same_distance_iff (some d) (some e) = (λ h. ap some ((==_iff d e).0 h), λ h. (==_iff d e).1 (cc))

distance_before_irrefl : (a : Option Distance) → distance_before a a ≡ false
distance_before_irrefl none = refl
distance_before_irrefl (some d) = ground arith

distance_before_trans :
    (a b c : Option Distance)
    → distance_before a b ≡ true
    → distance_before b c ≡ true
    → distance_before a c ≡ true
distance_before_trans none b c h k = cc
distance_before_trans (some d) none c h k = cc
distance_before_trans (some d) (some e) none h k = refl
distance_before_trans (some d) (some e) (some f) h k = ground arith

distance_before_total :
    (a b : Option Distance)
    → (a ≡ b) ⊎ ((distance_before a b ≡ true) ⊎ (distance_before b a ≡ true))
distance_before_total none none = inl refl
distance_before_total none (some e) = inr (inr refl)
distance_before_total (some d) none = inr (inl refl)
distance_before_total (some d) (some e) = elim (Bool-cases (d == e)) [
  | inl same ↦ inl (ap some ((==_iff d e).0 same))
  | inr apart ↦ elim (Bool-cases (ltb d e)) [
    | inl less ↦ inr (inl less)
    | inr more ↦ inr (inr (ground arith))
  ]
]

unfoldable distances : StrictOrder (Option Distance)
distances = record {
  before = distance_before;
  irreflexive = distance_before_irrefl;
  transitive = distance_before_trans;
  total = distance_before_total;
}

-- A row has a distance exactly if the query has a point.
abbrev pub Located : Option Point → FacilityDiscoveryRow → Type 0
Located point row = is_none row.distance_meters ≡ is_none point

module _ (pg : Postgres) where
  pub row_before_irrefl :
      (point : Option Point) (a : FacilityDiscoveryRow) → row_before pg point a a ≡ false
  unfolding row_before ids distances
  row_before_irrefl none a = lex_irreflexive pg.names str_eq ids eq_iff (a.name, a.id)
  row_before_irrefl (some p) a =
      lex_irreflexive distances same_distance ids same_distance_iff (a.distance_meters, a.id)

  pub row_before_trans :
      (point : Option Point) (a b c : FacilityDiscoveryRow)
      → row_before pg point a b ≡ true
      → row_before pg point b c ≡ true
      → row_before pg point a c ≡ true
  unfolding row_before ids distances
  row_before_trans none a b c =
      lex_transitive pg.names str_eq ids eq_iff (a.name, a.id) (b.name, b.id) (c.name, c.id)
  row_before_trans (some p) a b c =
      lex_transitive distances same_distance ids same_distance_iff (a.distance_meters, a.id)
        (b.distance_meters, b.id) (c.distance_meters, c.id)

  pub row_before-Apart :
      (point : Option Point) (a b : FacilityDiscoveryRow)
      → a.id ≢ b.id
      → Apart (row_before pg point) a b
  unfolding row_before ids distances
  row_before-Apart none a b apart =
      elim (lex_total pg.names str_eq ids eq_iff (a.name, a.id) (b.name, b.id)) [
        | inl same ↦ absurd (apart (ap (λ k. k.1) same))
        | inr ordered ↦ ordered
      ]
  row_before-Apart (some p) a b apart =
      elim (lex_total distances same_distance ids same_distance_iff (a.distance_meters, a.id)
        (b.distance_meters, b.id)) [
          | inl same ↦ absurd (apart (ap (λ k. k.1) same))
          | inr ordered ↦ ordered
        ]

  located-cursor :
      (point : Option Point) (distance other : Option Distance) (query_key : String)
      (l r : FacilityDiscoveryRow)
      → l.distance_meters ≡ distance
      → r.distance_meters ≡ other
      → is_none distance ≡ is_none point
      → is_none other ≡ is_none point
      → after_cursor pg point (some (cursor_of_row query_key l)) r ≡ row_before pg point l r
  unfolding after_cursor cursor_of_row row_before
  located-cursor none none none k l r h i a b = rw h
  located-cursor (some p) (some d) (some e) k l r h i a b = rw (h, i)
  located-cursor none (some d) other k l r h i a b = cc
  located-cursor none none (some e) k l r h i a b = cc
  located-cursor (some p) none other k l r h i a b = cc
  located-cursor (some p) (some d) none k l r h i a b = cc

  -- The condition of a row's cursor selects the rows after it.
  pub after_cursor-cursor_of_row :
      (point : Option Point) (query_key : String) (l r : FacilityDiscoveryRow)
      → Located point l
      → Located point r
      → after_cursor pg point (some (cursor_of_row query_key l)) r ≡ row_before pg point l r
  after_cursor-cursor_of_row point k l r a b =
      located-cursor point l.distance_meters r.distance_meters k l r refl refl a b
