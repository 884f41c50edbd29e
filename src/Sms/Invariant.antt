-- ===== src/Sms/Invariant.antt =====
-- The invariant of `sms_provider_configurations` under all the methods of
-- src/notifications/sms-configuration.repository.ts that write to it.
use public_parks.Prelude.{
  ◌≤◌, ◌≡◌, ◌∙◌, ◌↔◌, inl, inr, Bool, true, false, ◌&&◌, List, arith, if◌then◌else◌, Bool-cases,
  is_none, All, All-map, All-map₂, All-of, opt_eq_iff,
}
use public_parks.Database.{update_where, count, All-update_where, count-update_where, count_le}
use public_parks.Sms.Types.{SmsConfigurationRecord}
use public_parks.Sms.Rows.{same_scope, row_allowed}
use public_parks.Sms.Activation.{passed_test}
use public_parks.Sms.Uniqueness.{Separate, SameKey, Separate-update_where}

-- The active rows of a row's scope.
abbrev pub active_in : SmsConfigurationRecord → SmsConfigurationRecord → Bool
active_in t r = r.is_active && same_scope r t

-- An active row is enabled, it has been tested at its revision, and the time of its activation is
-- set, so that `patchDraft` refuses it.
abbrev pub IsReady : SmsConfigurationRecord → Type 0
IsReady r =
    r.is_active ≡ true
    → (r.is_enabled ≡ true) × (passed_test r ≡ true) × (is_none r.activated_at ≡ false)

-- Rows have different ids, and different revisions in a scope and provider; a scope has at most one
-- active row; active rows are ready; rows meet the checks of the table.
pub record IsConsistent (rows : List SmsConfigurationRecord) : Type 0 where
  pub separate : Separate rows
  pub single : (t : SmsConfigurationRecord) → count (active_in t) rows ≤ 1
  pub ready : All IsReady rows
  pub allowed : All (λ r. row_allowed r ≡ true) rows

pub same_scope_iff :
    (a b : SmsConfigurationRecord)
    → (same_scope a b ≡ true) ↔ ((a.scope_type ≡ b.scope_type) × (a.scope_id ≡ b.scope_id))
same_scope_iff a b = (
  λ h. ground (arith, opt_eq_iff a.scope_id b.scope_id),
  λ h. ground (arith, opt_eq_iff a.scope_id b.scope_id),
)

same_scope-SameKey :
    {a b : SmsConfigurationRecord} (t : SmsConfigurationRecord)
    → SameKey a b
    → same_scope a t ≡ same_scope b t
same_scope-SameKey t k = rw (k.scope_type, k.scope_id)

-- An update by an id, or by any condition, of columns that are not in a key.
module _ (p : SmsConfigurationRecord → Bool) (f : SmsConfigurationRecord → SmsConfigurationRecord)
    (keeps : (r : SmsConfigurationRecord) → SameKey (f r) r)
    (checked : (r : SmsConfigurationRecord) → row_allowed (f r) ≡ row_allowed r)
    (rows : List SmsConfigurationRecord) (inv : IsConsistent rows) where
  still-IsReady :
      (r : SmsConfigurationRecord)
      → (p r ≡ true → IsReady (f r))
      → IsReady r
      → IsReady (if p r then f r else r)
  still-IsReady r changed old = elim (Bool-cases (p r)) [
    | inl hit ↦ rw hit (changed hit)
    | inr miss ↦ rw miss old
  ]

  still_allowed :
      (r : SmsConfigurationRecord)
      → row_allowed r ≡ true
      → row_allowed (if p r then f r else r) ≡ true
  still_allowed r old = elim (Bool-cases (p r)) [
    | inl hit ↦ rw hit (checked r ∙ old)
    | inr miss ↦ rw miss old
  ]

  -- It keeps the invariant if the rows that it changes stay ready, and the scopes keep their one
  -- active row.
  pub update-IsConsistent :
      All (λ r. p r ≡ true → IsReady (f r)) rows
      → ((t : SmsConfigurationRecord) → count (active_in t) (update_where p f rows) ≤ 1)
      → IsConsistent (update_where p f rows)
  update-IsConsistent ready single = record {
    separate = Separate-update_where p f keeps rows inv.separate;
    single = single;
    ready = All-update_where _ p f rows (All-map₂ _ _ _ still-IsReady rows ready inv.ready);
    allowed = All-update_where _ p f rows (All-map _ _ still_allowed rows inv.allowed);
  }

  module _
      (quiet : (r : SmsConfigurationRecord) → (f r).is_active ≡ true → r.is_active ≡ true) where
    still_active :
        (t r : SmsConfigurationRecord)
        → active_in t (if p r then f r else r) ≡ true
        → active_in t r ≡ true
    still_active t r = elim (Bool-cases (p r)) [
      | inl hit ↦ rw hit λ h. ground (arith, quiet r, same_scope-SameKey t (keeps r))
      | inr miss ↦ rw miss λ h. h
    ]

    -- An update that makes no row active keeps the number of active rows down.
    pub quiet_single :
        (t : SmsConfigurationRecord) → count (active_in t) (update_where p f rows) ≤ 1
    quiet_single t = omega (
      arith,
      count-update_where (active_in t) p f rows,
      count_le (λ r. active_in t (if p r then f r else r)) (active_in t) rows
          (All-of _ (still_active t) rows),
      inv.single t,
    )
