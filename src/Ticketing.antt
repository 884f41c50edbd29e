-- ===== src/Ticketing.antt =====
-- src/entrance-ticketing/entrance-ticket-state.policy.ts, over the enum `entrance_ticket_status` of
-- src/database/drizzle.schema.ts.
pub mod Lifecycle
use Prim.Native.Nat.{compare}
use public_parks.Prelude.{
  ℕ, Bool, true, false, not, ◌||◌, List, [], ◌∷◌, ◌==◌, length, any, if◌then◌else◌,
}

pub data EntranceTicketStatus : Type 0 where
  pending_payment confirmed partially_used fully_used : EntranceTicketStatus
  canceled expired refunded disputed : EntranceTicketStatus

pub data TicketTransitionClassification : Type 0 where
  legal noop illegal : TicketTransitionClassification

-- The place of a status in the enum's list of values, by which `===` is decided.
abbrev pub ordinal : EntranceTicketStatus → ℕ
ordinal pending_payment = 0
ordinal confirmed = 1
ordinal partially_used = 2
ordinal fully_used = 3
ordinal canceled = 4
ordinal expired = 5
ordinal refunded = 6
ordinal disputed = 7

unfoldable pub same_status : EntranceTicketStatus → EntranceTicketStatus → Bool
same_status a b = ordinal a == ordinal b

-- `INITIAL_STATUS` and `initialStatus`
unfoldable pub initial_status : EntranceTicketStatus
initial_status = pending_payment

-- `ALLOWED_TRANSITIONS` and `allowedTransitions`
unfoldable pub allowed_transitions : EntranceTicketStatus → List EntranceTicketStatus
allowed_transitions pending_payment = confirmed ∷ expired ∷ canceled ∷ []
allowed_transitions confirmed = partially_used ∷ fully_used ∷ canceled ∷ refunded ∷ disputed ∷ []
allowed_transitions partially_used = fully_used ∷ refunded ∷ disputed ∷ []
allowed_transitions fully_used = disputed ∷ []
allowed_transitions canceled = []
allowed_transitions expired = []
allowed_transitions refunded = []
allowed_transitions disputed = []

-- `isTerminal`
unfoldable pub is_terminal : EntranceTicketStatus → Bool
unfolding allowed_transitions
is_terminal status = length (allowed_transitions status) == 0

-- `classifyTransition`
unfoldable pub classify_transition :
    EntranceTicketStatus → EntranceTicketStatus → TicketTransitionClassification
unfolding same_status allowed_transitions
classify_transition from to =
    if same_status from to
    then noop
    else (if any (λ s. same_status s to) (allowed_transitions from) then legal else illegal)

abbrev is_illegal : TicketTransitionClassification → Bool
is_illegal illegal = true
is_illegal _ = false

-- `canTransition`
unfoldable pub can_transition : EntranceTicketStatus → EntranceTicketStatus → Bool
unfolding classify_transition
can_transition from to = not (is_illegal (classify_transition from to))

-- The result of `assertTransition`: the classification, or an IllegalEntranceTicketTransitionError
-- with its two statuses.
pub data Asserted : Type 0 where
  classified : TicketTransitionClassification → Asserted
  illegal_transition : (from to : EntranceTicketStatus) → Asserted

abbrev refuse_illegal :
    EntranceTicketStatus → EntranceTicketStatus → TicketTransitionClassification → Asserted
refuse_illegal from to illegal = illegal_transition from to
refuse_illegal from to c = classified c

-- `assertTransition`
unfoldable pub assert_transition : EntranceTicketStatus → EntranceTicketStatus → Asserted
unfolding classify_transition
assert_transition from to = refuse_illegal from to (classify_transition from to)
