-- ===== src/ReservationState/Messages.antt =====
-- The reason that a refused transition is given: `explainRejection` of
-- apps/api/src/common/reservation-state.ts. A text is the list of its code points.
use Prim.Native.Char.{code}
use lodgiva.Common.{ℕ, ◌+◌, List, [], ◌∷◌, ◌++◌, String, map, ◌==◌, leb, ◌&&◌, not, if◌then◌else◌}
use lodgiva.Store.{
  ReservationState, draft, held, pending_payment, confirmed, checked_in, checked_out, cancelled,
  no_show,
}
use lodgiva.ReservationState.{transitions, is_terminal, same_state, is_empty}

abbrev pub codes : String → List ℕ
codes String.[] = []
codes (String.◌∷◌ c s) = code c ∷ codes s

-- The string that stands for a state.
abbrev pub state_text : ReservationState → List ℕ
state_text draft = codes "DRAFT"
state_text held = codes "HOLD"
state_text pending_payment = codes "PENDING_PAYMENT"
state_text confirmed = codes "CONFIRMED"
state_text checked_in = codes "CHECKED_IN"
state_text checked_out = codes "CHECKED_OUT"
state_text cancelled = codes "CANCELLED"
state_text no_show = codes "NO_SHOW"

-- `s.replace("_", " ")` replaces the first occurrence.
abbrev replace_underscore : List ℕ → List ℕ
replace_underscore [] = []
replace_underscore (c ∷ s) = if c == b'_' then b' ' ∷ s else c ∷ replace_underscore s

-- `toLowerCase` on the letters A to Z
abbrev to_lower : ℕ → ℕ
to_lower c = if leb b'A' c && leb c b'Z' then c + 32 else c

abbrev spoken : ReservationState → List ℕ
spoken s = map to_lower (replace_underscore (state_text s))

-- `legal.join(", ")`
abbrev join_states : List ReservationState → List ℕ
join_states [] = []
join_states (s ∷ []) = state_text s
join_states (s ∷ t ∷ l) = state_text s ++ (codes ", " ++ join_states (t ∷ l))

unfoldable pub explain_rejection : ReservationState → ReservationState → List ℕ
unfolding is_terminal transitions
explain_rejection from to =
    if same_state from to
    then codes "The reservation is already " ++ (spoken from ++ codes ".")
    else if is_terminal from
    then codes "This reservation is " ++ (spoken from ++ codes " and cannot change state again.")
    else if same_state from checked_in && same_state to cancelled
    then codes "An in-house guest cannot be cancelled — check them out instead."
    else if same_state from confirmed && same_state to checked_out
    then codes "The guest must be checked in before they can be checked out."
    else if same_state to no_show && not (same_state from confirmed)
    then codes "Only a confirmed reservation can be marked as a no-show."
    else if not (is_empty (transitions from))
    then codes "Cannot move a reservation from "
      ++ (state_text from
          ++ (codes " to "
              ++ (state_text to
                  ++ (codes ". Allowed from here: "
                      ++ (join_states (transitions from) ++ codes ".")))))
    else codes "Cannot move a reservation from "
      ++ (state_text from ++ (codes " to " ++ (state_text to ++ codes ".")))
