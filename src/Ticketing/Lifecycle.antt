-- ===== src/Ticketing/Lifecycle.antt =====
-- The lifecycle that src/entrance-ticketing/entrance-ticket-state.policy.ts permits.
use public_parks.Prelude.{
  ℕ, ◌+◌, ◌≤◌, ◌<◌, ◌≡◌, refl, subst, ◌↔◌, ◌⊎◌, true, false, List, [], ◌∷◌, arith, All,
}
use public_parks.Ticketing.{
  EntranceTicketStatus, TicketTransitionClassification, pending_payment, confirmed, partially_used,
  fully_used, canceled, expired, refunded, disputed, legal, noop, classify_transition,
  can_transition, assert_transition, classified, illegal_transition, is_terminal,
}

-- The forward steps of a ticket, each named for the event that causes it.
pub data Advance : EntranceTicketStatus → EntranceTicketStatus → Type 0 where
  pay : Advance pending_payment confirmed
  lapse : Advance pending_payment expired
  abandon : Advance pending_payment canceled
  admit_some : Advance confirmed partially_used
  admit_all : Advance confirmed fully_used
  admit_rest : Advance partially_used fully_used
  cancel : Advance confirmed canceled
  refund : Advance confirmed refunded
  refund_rest : Advance partially_used refunded
  dispute : Advance confirmed disputed
  dispute_rest : Advance partially_used disputed
  dispute_used : Advance fully_used disputed

Advance-legal :
    {from to : EntranceTicketStatus} → Advance from to → classify_transition from to ≡ legal
unfolding classify_transition
Advance-legal pay = refl
Advance-legal lapse = refl
Advance-legal abandon = refl
Advance-legal admit_some = refl
Advance-legal admit_all = refl
Advance-legal admit_rest = refl
Advance-legal cancel = refl
Advance-legal refund = refl
Advance-legal refund_rest = refl
Advance-legal dispute = refl
Advance-legal dispute_rest = refl
Advance-legal dispute_used = refl

legal-Advance :
    (from to : EntranceTicketStatus) → classify_transition from to ≡ legal → Advance from to
unfolding classify_transition
legal-Advance pending_payment confirmed h = pay
legal-Advance pending_payment expired h = lapse
legal-Advance pending_payment canceled h = abandon
legal-Advance confirmed partially_used h = admit_some
legal-Advance confirmed fully_used h = admit_all
legal-Advance partially_used fully_used h = admit_rest
legal-Advance confirmed canceled h = cancel
legal-Advance confirmed refunded h = refund
legal-Advance partially_used refunded h = refund_rest
legal-Advance confirmed disputed h = dispute
legal-Advance partially_used disputed h = dispute_rest
legal-Advance fully_used disputed h = dispute_used
legal-Advance _ _ h = ground arith

-- The status of a ticket rises with every forward step.
abbrev stage : EntranceTicketStatus → ℕ
stage pending_payment = 0
stage confirmed = 1
stage partially_used = 2
stage fully_used = 3
stage _ = 4

Advance-stage : {from to : EntranceTicketStatus} → Advance from to → stage from < stage to
Advance-stage pay = omega arith
Advance-stage _ = omega arith

noop_iff : (from to : EntranceTicketStatus) → (classify_transition from to ≡ noop) ↔ (from ≡ to)
unfolding classify_transition
noop_iff from to = (λ h. ground arith, λ h. ground arith)

classified_iff :
    (from to : EntranceTicketStatus)
    → (assert_transition from to ≡ classified (classify_transition from to))
      ↔ (can_transition from to ≡ true)
unfolding assert_transition can_transition classify_transition
classified_iff from to = (λ h. ground arith, λ h. ground arith)

refused_iff :
    (from to : EntranceTicketStatus)
    → (assert_transition from to ≡ illegal_transition from to) ↔ (can_transition from to ≡ false)
unfolding assert_transition can_transition classify_transition
refused_iff from to = (λ h. ground arith, λ h. ground arith)

-- A transition is classified `legal` exactly for the twelve forward steps of the lifecycle, `noop`
-- exactly for the status that the ticket has, and it is refused in all other cases: the assertion
-- then throws with its two statuses, and otherwise returns the classification.
pub classify_transition-cases :
    (from to : EntranceTicketStatus)
    → ((classify_transition from to ≡ legal) ↔ Advance from to)
      × ((classify_transition from to ≡ noop) ↔ (from ≡ to))
      × ((assert_transition from to ≡ classified (classify_transition from to))
          ↔ (can_transition from to ≡ true))
      × ((assert_transition from to ≡ illegal_transition from to)
          ↔ (can_transition from to ≡ false))
classify_transition-cases from to = (
  (legal-Advance from to, Advance-legal),
  noop_iff from to,
  classified_iff from to,
  refused_iff from to,
)

-- A ticket's history: each requested status was asserted in turn, and none was refused.
abbrev pub Accepted : EntranceTicketStatus → List EntranceTicketStatus → Type 0
Accepted from [] = Unit
Accepted from (to ∷ later) = (can_transition from to ≡ true) × Accepted to later

abbrev is_legal : TicketTransitionClassification → ℕ
is_legal legal = 1
is_legal _ = 0

-- The number of `legal` classifications in a history.
abbrev pub advances : EntranceTicketStatus → List EntranceTicketStatus → ℕ
advances from [] = 0
advances from (to ∷ later) = is_legal (classify_transition from to) + advances to later

stage-step :
    (from to : EntranceTicketStatus)
    → can_transition from to ≡ true
    → is_legal (classify_transition from to) + stage from ≤ stage to
unfolding can_transition classify_transition
stage-step from to h = ground arith

stage-le : (s : EntranceTicketStatus) → stage s ≤ 4
stage-le pending_payment = omega arith
stage-le _ = omega arith

-- However often events are repeated, a ticket advances at most four times, and at most four less
-- the stages that it has behind it.
pub advances-le :
    (from : EntranceTicketStatus) (history : List EntranceTicketStatus)
    → Accepted from history
    → advances from history + stage from ≤ 4
advances-le from [] h = omega (arith, stage-le from)
advances-le from (to ∷ later) h = omega (arith, stage-step from to h.0, advances-le to later h.1)

terminal_stays :
    (from to : EntranceTicketStatus)
    → is_terminal from ≡ true
    → can_transition from to ≡ true
    → to ≡ from
unfolding is_terminal can_transition classify_transition
terminal_stays from to t c = ground arith

-- From a status without outgoing transitions every accepted request is a replay of that status.
is_terminal-absorbs :
    (from : EntranceTicketStatus) (history : List EntranceTicketStatus)
    → is_terminal from ≡ true
    → Accepted from history
    → All (λ to. to ≡ from) history
is_terminal-absorbs from [] t h = tt
is_terminal-absorbs from (to ∷ later) t h =
    let same = terminal_stays from to t h.0 in
    let rest = is_terminal-absorbs to later (rw same t) h.1 in
    (same, subst (λ s. All (λ u. u ≡ s) later) same rest)

used_next :
    (from to : EntranceTicketStatus)
    → (from ≡ fully_used) ⊎ (from ≡ disputed)
    → can_transition from to ≡ true
    → (to ≡ fully_used) ⊎ (to ≡ disputed)
unfolding can_transition classify_transition
used_next from to u c = ground arith

-- A ticket that is fully used or disputed is never refunded: every status of an accepted history
-- from there on is `fully_used` or `disputed`.
pub fully_used-keeps_money :
    (from : EntranceTicketStatus) (history : List EntranceTicketStatus)
    → (from ≡ fully_used) ⊎ (from ≡ disputed)
    → Accepted from history
    → All (λ s. (s ≡ fully_used) ⊎ (s ≡ disputed)) history
fully_used-keeps_money from [] u h = tt
fully_used-keeps_money from (to ∷ later) u h =
    let u' = used_next from to u h.0 in (u', fully_used-keeps_money to later u' h.1)
