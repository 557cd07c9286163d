-- ===== src/ReservationState.antt =====
-- The lifecycle of a reservation as data: apps/api/src/common/reservation-state.ts.
pub mod Lifecycle
pub mod Messages
mod Tests
use lodgiva.Common.{ℕ, Bool, true, false, List, [], ◌∷◌, ◌==◌, any, filter}
use lodgiva.Store.{
  ReservationState, draft, held, pending_payment, confirmed, checked_in, checked_out, cancelled,
  no_show,
}

-- The place of a state in `RESERVATION_STATES`, by which two states are compared.
abbrev pub index : ReservationState → ℕ
index draft = 0
index held = 1
index pending_payment = 2
index confirmed = 3
index checked_in = 4
index checked_out = 5
index cancelled = 6
index no_show = 7

abbrev pub same_state : ReservationState → ReservationState → Bool
same_state a b = index a == index b

-- `RESERVATION_STATES`
abbrev pub reservation_states : List ReservationState
reservation_states =
    draft ∷ held ∷ pending_payment ∷ confirmed ∷ checked_in ∷ checked_out ∷ cancelled ∷ no_show ∷ []

-- `TRANSITIONS`
unfoldable pub transitions : ReservationState → List ReservationState
transitions draft = held ∷ pending_payment ∷ confirmed ∷ cancelled ∷ []
transitions held = pending_payment ∷ confirmed ∷ cancelled ∷ []
transitions pending_payment = confirmed ∷ cancelled ∷ []
transitions confirmed = checked_in ∷ cancelled ∷ no_show ∷ []
transitions checked_in = checked_out ∷ []
transitions checked_out = []
transitions cancelled = []
transitions no_show = []

-- `INVENTORY_HOLDING_STATES`
abbrev pub inventory_holding_states : List ReservationState
inventory_holding_states = held ∷ pending_payment ∷ confirmed ∷ checked_in ∷ []

-- `MODIFIABLE_STATES`
abbrev pub modifiable_states : List ReservationState
modifiable_states = draft ∷ held ∷ pending_payment ∷ confirmed ∷ []

abbrev pub is_empty : List ReservationState → Bool
is_empty [] = true
is_empty (_ ∷ _) = false

unfoldable pub is_terminal : ReservationState → Bool
unfolding transitions
is_terminal state = is_empty (transitions state)

-- `TERMINAL_STATES`
unfoldable pub terminal_states : List ReservationState
unfolding is_terminal
terminal_states = filter is_terminal reservation_states

unfoldable pub can_transition : ReservationState → ReservationState → Bool
unfolding transitions
can_transition from to = any (λ s. same_state s to) (transitions from)

unfoldable pub holds_inventory : ReservationState → Bool
holds_inventory state = any (λ s. same_state s state) inventory_holding_states

unfoldable pub is_modifiable : ReservationState → Bool
is_modifiable state = any (λ s. same_state s state) modifiable_states
