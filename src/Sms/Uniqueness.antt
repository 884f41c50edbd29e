-- ===== src/Sms/Uniqueness.antt =====
-- The rows of `sms_provider_configurations` that the unique indexes keep apart: no two rows collide,
-- so that a condition on the id selects at most one row.
use public_parks.Prelude.{
  ◌≤◌, String, ◌≡◌, refl, ◌∙◌, inl, inr, Bool, true, false, some, List, [], ◌∷◌, arith, str_eq,
  eq_iff, if◌then◌else◌, Bool-cases, any, All, All-map,
}
use public_parks.Database.{find?, update_where, count, count_zero, any-false→All}
use public_parks.Sms.Types.{SmsConfigurationRecord}
use public_parks.Sms.Rows.{has_id, collides}

-- No row collides with a later one.
abbrev pub Separate : List SmsConfigurationRecord → Type 0
Separate [] = Unit
Separate (r ∷ rs) = (any (collides r) rs ≡ false) × Separate rs

-- The rows agree in all that an insertion may collide in.
pub record SameKey (a b : SmsConfigurationRecord) : Type 0 where
  pub id : a.id ≡ b.id
  pub scope_type : a.scope_type ≡ b.scope_type
  pub scope_id : a.scope_id ≡ b.scope_id
  pub provider_key : a.provider_key ≡ b.provider_key
  pub revision : a.revision ≡ b.revision

collides-SameKey :
    {r r' q q' : SmsConfigurationRecord}
    → SameKey r r'
    → SameKey q q'
    → collides r q ≡ collides r' q'
unfolding collides
collides-SameKey {r} {r'} {q} {q'} k m = rw (
  k.id, k.scope_type, k.scope_id, k.provider_key, k.revision, m.id, m.scope_type, m.scope_id,
  m.provider_key, m.revision,
)

module _ (p : SmsConfigurationRecord → Bool) (f : SmsConfigurationRecord → SmsConfigurationRecord)
    (keeps : (r : SmsConfigurationRecord) → SameKey (f r) r) where
  SameKey-if : (r : SmsConfigurationRecord) → SameKey (if p r then f r else r) r
  SameKey-if r = elim (Bool-cases (p r)) [
    | inl hit ↦ rw hit (keeps r)
    | inr miss ↦ rw miss (record {
      id = refl;
      scope_type = refl;
      scope_id = refl;
      provider_key = refl;
      revision = refl;
    })
  ]

  any-collides-update_where :
      {r r' : SmsConfigurationRecord}
      → SameKey r' r
      → (rs : List SmsConfigurationRecord)
      → any (collides r') (update_where p f rs) ≡ any (collides r) rs
  any-collides-update_where k [] = refl
  any-collides-update_where {r} {r'} k (q ∷ rs) =
      cc (collides-SameKey k (SameKey-if q), any-collides-update_where k rs)

  -- An update that leaves the key columns alone keeps the rows apart.
  pub Separate-update_where :
      (rs : List SmsConfigurationRecord) → Separate rs → Separate (update_where p f rs)
  Separate-update_where [] h = tt
  Separate-update_where (r ∷ rs) h =
      (any-collides-update_where (SameKey-if r) rs ∙ h.0, Separate-update_where rs h.1)

collides→id : (r q : SmsConfigurationRecord) → collides r q ≡ false → str_eq q.id r.id ≡ false
unfolding collides
collides→id r q h = ground arith

other_ids :
    (r : SmsConfigurationRecord) (id : String) (rs : List SmsConfigurationRecord)
    → any (collides r) rs ≡ false
    → r.id ≡ id
    → All (λ q. has_id id q ≡ false) rs
other_ids r id rs h e =
    All-map _ _ (λ q c. rw (← e) (collides→id r q c)) rs (any-false→All (collides r) rs h)

-- The row that is found by its id is the only one with that id.
pub found_is_only :
    (id : String) (rs : List SmsConfigurationRecord) {target : SmsConfigurationRecord}
    → Separate rs
    → find? (has_id id) rs ≡ some target
    → All (λ r. has_id id r ≡ true → r ≡ target) rs
found_is_only id [] h e = tt
found_is_only id (r ∷ rs) {target} h e = elim (Bool-cases (has_id id r)) [
  | inl hit ↦ (
    λ _. ground arith,
    All-map _ _ (λ q n t. cc) rs (other_ids r id rs h.0 ((eq_iff r.id id).0 hit)),
  )
  | inr miss ↦ (λ t. cc, found_is_only id rs h.1 (rw miss at e))
]

pub count-has_id :
    (id : String) (rs : List SmsConfigurationRecord) → Separate rs → count (has_id id) rs ≤ 1
count-has_id id [] h = omega arith
count-has_id id (r ∷ rs) h = elim (Bool-cases (has_id id r)) [
  | inl hit ↦
      rw hit
        (omega (arith, count_zero (has_id id) rs (other_ids r id rs h.0 ((eq_iff r.id id).0 hit))))
  | inr miss ↦ rw miss (omega (arith, count-has_id id rs h.1))
]
