-- ===== src/Sms/ActivationConsistency.antt =====
-- `activate` of src/notifications/sms-configuration.repository.ts keeps the invariant of the
-- configurations: retiring the active rows of the scope makes room for the one that it activates.
use public_parks.Prelude.{
  ◌≤◌, String, ◌≡◌, refl, sym, ap, ◌∙◌, inl, inr, Bool, true, false, ◌&&◌, some, List, arith,
  if◌then◌else◌, Bool-cases, &&-eq-true, All, All-map, All-map₂, All-of,
}
use public_parks.Database.{
  ok, find?, update_where, count, All-update_where, count-update_where, count_le,
}
use public_parks.Sms.Types.{SmsConfigurationRecord, SmsStore}
use public_parks.Sms.Rows.{is_platform, same_scope, has_id}
use public_parks.Sms.Statements.{Call, resolve_platform_active}
use public_parks.Sms.Activation.{activate, activated, retired, passed_test}
use public_parks.Sms.Outcomes.{after_retiring, activate-IsActivation, found_after_activation}
use public_parks.Sms.Uniqueness.{found_is_only, count-has_id}
use public_parks.Database.{find?-update_where, find?-agree}
use public_parks.Sms.Invariant.{
  IsConsistent, IsReady, active_in, update-IsConsistent, same_scope_iff,
}
use public_parks.Sms.Consistency.{
  Keeps, Refused-Keeps, retiring-IsConsistent, activated-SameKey, activated-allowed,
}

same_scope_trans :
    (a b t : SmsConfigurationRecord)
    → same_scope a t ≡ true
    → same_scope b t ≡ true
    → same_scope a b ≡ true
same_scope_trans a b t h k =
    let (e, f) = (same_scope_iff a t).0 h in
    let (e', f') = (same_scope_iff b t).0 k in (same_scope_iff a b).1 (e ∙ sym e', f ∙ sym f')

module _ (id : String) (c : Call) (rows : List SmsConfigurationRecord) (inv : IsConsistent rows)
    (target : SmsConfigurationRecord) (found : find? (has_id id) rows ≡ some target)
    (enabled : target.is_enabled ≡ true) (passed : passed_test target ≡ true) where
  retired_rows : List SmsConfigurationRecord
  retired_rows = after_retiring target c rows

  -- The row as the first update leaves it.
  target' : SmsConfigurationRecord
  target' = if same_scope target target && target.is_active then retired c target else target

  retired_inv : IsConsistent retired_rows
  unfolding retired_rows
  retired_inv = retiring-IsConsistent (λ r. same_scope r target && r.is_active) c rows inv

  only_target : All (λ r. has_id id r ≡ true → r ≡ target') retired_rows
  only_target = found_is_only id retired_rows retired_inv.separate (
      unfold retired_rows target' in
      (find?-update_where (has_id id) (λ r. same_scope r target && r.is_active) (retired c)
          (λ r. refl) rows
        ∙ rw found))

  target'-enabled : (target'.is_enabled ≡ true) × (passed_test target' ≡ true)
  unfolding target'
  target'-enabled = ground arith

  scope_empty : All (λ r. active_in target r ≡ false) retired_rows
  unfolding retired_rows
  scope_empty = All-update_where _ _ (retired c) rows (All-of _ (λ r. ground arith) rows)

  activated-IsReady : All (λ r. has_id id r ≡ true → IsReady (activated c r)) retired_rows
  activated-IsReady =
      All-map _ _ (λ r only hit active. rw (only hit) (target'-enabled.0, target'-enabled.1, refl))
        retired_rows only_target

  module _ (t : SmsConfigurationRecord) where
    inside_id :
        same_scope target t ≡ true
        → (r : SmsConfigurationRecord) → active_in target r ≡ false
        → active_in t (if has_id id r then activated c r else r) ≡ true
        → has_id id r ≡ true
    inside_id inside r e h = elim (Bool-cases (has_id id r)) [
      | inl hit ↦ hit
      | inr miss ↦
          let (active, scope) = &&-eq-true r.is_active (same_scope r t) (rw miss at h) in
          let both = same_scope_trans r target t scope inside in cc (e, active, both)
    ]

    outside_active :
        same_scope target t ≡ false
        → (r : SmsConfigurationRecord) → (has_id id r ≡ true → r ≡ target')
        → active_in t (if has_id id r then activated c r else r) ≡ true
        → active_in t r ≡ true
    unfolding target'
    outside_active outside r only h = elim (Bool-cases (has_id id r)) [
      | inl hit ↦ ground (arith, only hit)
      | inr miss ↦ rw miss at h
    ]

  activated_single :
      (t : SmsConfigurationRecord)
      → count (active_in t) (update_where (has_id id) (activated c) retired_rows) ≤ 1
  activated_single t = elim (Bool-cases (same_scope target t)) [
    | inl inside ↦ omega (
      arith,
      count-update_where (active_in t) (has_id id) (activated c) retired_rows,
      count_le (λ r. active_in t (if has_id id r then activated c r else r)) (has_id id)
          retired_rows (All-map _ _ (inside_id t inside) retired_rows scope_empty),
      count-has_id id retired_rows retired_inv.separate,
    )
    | inr outside ↦ omega (
      arith,
      count-update_where (active_in t) (has_id id) (activated c) retired_rows,
      count_le (λ r. active_in t (if has_id id r then activated c r else r)) (active_in t)
          retired_rows (All-map _ _ (outside_active t outside) retired_rows only_target),
      retired_inv.single t,
    )
  ]

  activation-IsConsistent :
      IsConsistent (update_where (has_id id) (activated c) (after_retiring target c rows))
  unfolding retired_rows
  activation-IsConsistent =
      update-IsConsistent (has_id id) (activated c) (activated-SameKey c) (activated-allowed c)
        retired_rows retired_inv activated-IsReady activated_single

  is_resolved : SmsConfigurationRecord → Bool
  is_resolved r = is_platform r && (r.is_active && r.is_enabled)

  module _ (on_platform : is_platform target ≡ true) where
    platform_scope :
        (r : SmsConfigurationRecord) → is_platform r ≡ true → same_scope r target ≡ true
    platform_scope r h = (same_scope_iff r target).1 (ground arith, ground arith)

    is_resolved-has_id :
        (r : SmsConfigurationRecord)
        → (has_id id r ≡ true → r ≡ target')
        → active_in target r ≡ false
        → is_resolved (if has_id id r then activated c r else r)
          ≡ has_id id (if has_id id r then activated c r else r)
    unfolding is_resolved target'
    is_resolved-has_id r only idle = elim (Bool-cases (has_id id r)) [
      | inl hit ↦ ground (arith, only hit)
      | inr miss ↦ ground (arith, platform_scope r)
    ]

    resolved_after :
        find? is_resolved (update_where (has_id id) (activated c) retired_rows)
        ≡ find? (has_id id) (update_where (has_id id) (activated c) retired_rows)
    resolved_after =
        find?-agree is_resolved (has_id id) (update_where (has_id id) (activated c) retired_rows) (
          All-update_where _ (has_id id) (activated c) retired_rows
            (All-map₂ _ _ _ is_resolved-has_id retired_rows only_target scope_empty))

pub activate-Keeps : (id : String) (c : Call) (s : SmsStore) → Keeps s (activate id c s).1
activate-Keeps id c s inv = elim (activate-IsActivation id c s) [
  | inl refused ↦ Refused-Keeps refused inv
  | inr a ↦
      rw a.stored
        (activation-IsConsistent id c s.configurations inv a.target a.found a.enabled a.passed)
]

-- From consistent tables, a successful activation of a platform configuration makes it the one that
-- the dispatcher sends with: the resolver's query finds the row that the call returns.
pub activate-resolved :
    (id : String) (c : Call) (s : SmsStore) (row : SmsConfigurationRecord)
    → IsConsistent s.configurations
    → (activate id c s).0 ≡ ok row
    → is_platform row ≡ true
    → resolve_platform_active (activate id c s).1 ≡ some row
unfolding resolve_platform_active
activate-resolved id c s row inv done on_platform = elim (activate-IsActivation id c s) [
  | inl (e, failed, _) ↦ cc
  | inr a ↦
      let same : activated c a.target ≡ row = ground (arith, a.answer) in
      let here : is_platform a.target ≡ true = ground (arith, same) in
      rw a.stored (
        unfold is_resolved retired_rows in
        resolved_after id c s.configurations inv a.target a.found a.enabled a.passed here
        ∙ found_after_activation id c s a.target a.found
        ∙ ap some same)
]
