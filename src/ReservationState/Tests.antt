-- ===== src/ReservationState/Tests.antt =====
-- Runs of the lifecycle, and its theorems at concrete histories.
use lodgiva.Common.{◌≤◌, ◌≡◌, List, [], ◌∷◌, length, refl}
use lodgiva.Store.{
  ReservationState, draft, held, confirmed, checked_in, checked_out, cancelled, no_show,
}
use lodgiva.ReservationState.{can_transition, terminal_states}
use lodgiva.ReservationState.Lifecycle.{History, rest, move, History-bounded}
use lodgiva.ReservationState.Messages.{codes, explain_rejection}

ends : terminal_states ≡ checked_out ∷ cancelled ∷ no_show ∷ []
unfolding terminal_states
ends = refl

no_show_after_arrival :
    explain_rejection checked_in no_show
    ≡ codes "Only a confirmed reservation can be marked as a no-show."
unfolding explain_rejection
no_show_after_arrival = refl

from_hold :
    explain_rejection held checked_in
    ≡ codes
        "Cannot move a reservation from HOLD to CHECKED_IN. Allowed from here: PENDING_PAYMENT, CONFIRMED, CANCELLED."
unfolding explain_rejection
from_hold = refl

abbrev stay : List ReservationState
stay = held ∷ confirmed ∷ checked_in ∷ checked_out ∷ []

full_stay : History draft stay checked_out
unfolding can_transition
full_stay = move refl (move refl (move refl (move refl rest)))

History-bounded_example : (length stay ≤ 5) × (draft ≡ checked_out → stay ≡ [])
History-bounded_example = History-bounded draft checked_out stay full_stay
