-- ===== src/Facilities/Rows.antt =====
-- What the rows that a query selects have in common.
use public_parks.Database.Order.{AllApart, Pairwise, Apart, filter}
use public_parks.Database.Order.Keyset.{Pairwise-filter}
use public_parks.Database.{find?}
use public_parks.Facilities.Order.{row_before-Apart, Located}
use public_parks.Facilities.Types.{Facility, FacilityType, Point, ListFacilitiesQuery}
use public_parks.Facilities.Repository.{
  Postgres, Tables, row_before, joined, join_type, matching, matches_query, selected, query_point,
  distance_of, discovery_row,
}
use mathlib.Core.Option
use public_parks.Prelude.{
  ◌≡◌, refl, ◌≢◌, Option, none, some, List, [], ◌∷◌, ◌++◌, map, str_eq, is_none, All, All-map,
  All-of,
}

-- The ids of the facilities differ: the primary key.
abbrev pub Distinct : List Facility → Type 0
Distinct fs = Pairwise (λ f g. f.id ≢ g.id) fs

module _ (types : List FacilityType) where
  All-join_type {κ} :
      (P : Facility → Type κ) (f : Facility) (t : Option FacilityType)
      (rest : List (Facility × FacilityType))
      → P f
      → All (λ pair. P pair.0) rest
      → All (λ pair. P pair.0) (join_type f t ++ rest)
  unfolding join_type
  All-join_type P f none rest p a = a
  All-join_type P f (some t) rest p a = (p, a)

  All-joined {κ} :
      (P : Facility → Type κ) (fs : List Facility)
      → All P fs
      → All (λ pair. P pair.0) (joined types fs)
  unfolding joined
  All-joined P [] a = tt
  All-joined P (f ∷ fs) a =
      All-join_type P f (find? (λ t. str_eq f.facility_type_id t.id) types) (joined types fs) a.0
        (All-joined P fs a.1)

  Pairwise-join_type {κ} :
      (Q : Facility → Facility → Type κ) (f : Facility) (t : Option FacilityType)
      (rest : List (Facility × FacilityType))
      → All (λ pair. Q f pair.0) rest
      → Pairwise (λ p q. Q p.0 q.0) rest
      → Pairwise (λ p q. Q p.0 q.0) (join_type f t ++ rest)
  unfolding join_type
  Pairwise-join_type Q f none rest a w = w
  Pairwise-join_type Q f (some t) rest a w = (a, w)

  Pairwise-joined {κ} :
      (Q : Facility → Facility → Type κ) (fs : List Facility)
      → Pairwise Q fs
      → Pairwise (λ p q. Q p.0 q.0) (joined types fs)
  unfolding joined
  Pairwise-joined Q [] w = tt
  Pairwise-joined Q (f ∷ fs) w =
      Pairwise-join_type Q f (find? (λ t. str_eq f.facility_type_id t.id) types) (joined types fs)
        (All-joined (λ g. Q f g) fs w.0) (Pairwise-joined Q fs w.1)

module _ {A B : Type 0} (f : A → B) where
  pub All-of_map {κ} : (P : B → Type κ) (xs : List A) → All (λ x. P (f x)) xs → All P (map f xs)
  All-of_map P [] a = tt
  All-of_map P (x ∷ xs) a = (a.0, All-of_map P xs a.1)

  Pairwise-map {κ ι} :
      (Q : A → A → Type κ) (Q' : B → B → Type ι)
      → ((x y : A) → Q x y → Q' (f x) (f y))
      → (xs : List A) → Pairwise Q xs
      → Pairwise Q' (map f xs)
  Pairwise-map Q Q' g [] w = tt
  Pairwise-map Q Q' g (x ∷ xs) w = (
    All-of_map (λ y. Q' (f x) y) xs (All-map (λ y. Q x y) (λ y. Q' (f x) (f y)) (g x) xs w.0),
    Pairwise-map Q Q' g xs w.1,
  )

module _ (pg : Postgres) (query : ListFacilitiesQuery) (tables : Tables) where
  -- Any two selected rows are ordered, if the ids of the facilities differ.
  pub matching-AllApart :
      (point : Option Point)
      → Distinct tables.facilities
      → AllApart (row_before pg point) (matching pg query tables)
  unfolding matching selected discovery_row
  matching-AllApart point distinct =
      Pairwise-map (selected pg query) (λ p q. p.0.id ≢ q.0.id) (Apart (row_before pg point))
        (λ p q apart. row_before-Apart pg point (selected pg query p) (selected pg query q) apart)
        (filter (matches_query pg query) (joined tables.facility_types tables.facilities))
        (Pairwise-filter (λ p q. p.0.id ≢ q.0.id) (matches_query pg query)
          (joined tables.facility_types tables.facilities)
          (Pairwise-joined tables.facility_types (λ f g. f.id ≢ g.id) tables.facilities distinct))

  is_none-map : {A B : Type 0} (f : A → B) (o : Option A) → is_none (Option.map f o) ≡ is_none o
  is_none-map f none = refl
  is_none-map f (some a) = refl

  pub matching-Located :
      All (Located (query_point query.near_lat query.near_lng)) (matching pg query tables)
  unfolding matching selected discovery_row distance_of
  matching-Located =
      let point = query_point query.near_lat query.near_lng in
      All-of_map (selected pg query) (Located point)
        (filter (matches_query pg query) (joined tables.facility_types tables.facilities))
        (All-of (λ pair. Located point (selected pg query pair))
          (λ pair. is_none-map (λ p. pg.st_distance pair.0.location p) point)
          (filter (matches_query pg query) (joined tables.facility_types tables.facilities)))
