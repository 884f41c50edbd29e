-- ===== src/Examples/Failing.antt =====
-- Errors of src/common/errors, and ticket histories of
-- src/entrance-ticketing/entrance-ticket-state.policy.ts.
use public_parks.Prelude.{
  ◌+◌, ◌≤◌, ◌≡◌, refl, ◌↔◌, ◌⊎◌, inl, true, false, none, List, [], ◌∷◌, arith, All,
}
use public_parks.Errors.{http, catch_exception, internal_error_message}
use public_parks.Errors.Rendering.{catch_exception-generic}
use public_parks.Ticketing.{
  EntranceTicketStatus, confirmed, partially_used, fully_used, disputed, legal, noop,
  classify_transition, can_transition, assert_transition, classified, illegal_transition,
  pending_payment,
}
use public_parks.Ticketing.Lifecycle.{
  Advance, Accepted, advances, classify_transition-cases, advances-le, fully_used-keeps_money,
}

bad_gateway_status : 500 ≤ (catch_exception (http 502 "upstream at 10.0.0.7 refused") "r1").status
unfolding catch_exception
bad_gateway_status = omega arith

catch_exception-generic_example :
    ((catch_exception (http 502 "upstream at 10.0.0.7 refused") "r1").body.message
      ≡ internal_error_message)
    × ((catch_exception (http 502 "upstream at 10.0.0.7 refused") "r1").body.details ≡ none)
catch_exception-generic_example =
    catch_exception-generic (http 502 "upstream at 10.0.0.7 refused") "r1" (λ none_such. none_such)
      bad_gateway_status

classify_transition-cases_example :
    ((classify_transition confirmed partially_used ≡ legal) ↔ Advance confirmed partially_used)
    × ((classify_transition confirmed partially_used ≡ noop) ↔ (confirmed ≡ partially_used))
    × ((assert_transition confirmed partially_used
          ≡ classified (classify_transition confirmed partially_used))
        ↔ (can_transition confirmed partially_used ≡ true))
    × ((assert_transition confirmed partially_used ≡ illegal_transition confirmed partially_used)
        ↔ (can_transition confirmed partially_used ≡ false))
classify_transition-cases_example = classify_transition-cases confirmed partially_used

abbrev visits : List EntranceTicketStatus
visits = confirmed ∷ partially_used ∷ partially_used ∷ fully_used ∷ disputed ∷ []

visits-Accepted : Accepted pending_payment visits
unfolding can_transition
visits-Accepted = (refl, (refl, (refl, (refl, (refl, tt)))))

advances-le_example : advances pending_payment visits + 0 ≤ 4
advances-le_example = advances-le pending_payment visits visits-Accepted

used-Accepted : Accepted fully_used (fully_used ∷ disputed ∷ [])
unfolding can_transition
used-Accepted = (refl, (refl, tt))

fully_used-keeps_money_example :
    All (λ s. (s ≡ fully_used) ⊎ (s ≡ disputed)) (fully_used ∷ disputed ∷ [])
fully_used-keeps_money_example =
    fully_used-keeps_money fully_used (fully_used ∷ disputed ∷ []) (inl refl) used-Accepted
