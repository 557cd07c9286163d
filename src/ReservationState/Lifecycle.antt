-- ===== src/ReservationState/Lifecycle.antt =====
-- What the transition table guarantees: reachability, ends, inventory and changes.
use lodgiva.Common.{
  ℕ, ◌<◌, ◌≤◌, ◌+◌, suc, Bool, true, false, ◌≡◌, ◌≢◌, ◌⊎◌, ◌↔◌, inl, inr, refl, arith, List, [],
  ◌∷◌, length, any, ap, ◌||◌,
}
use lodgiva.Store.{
  ReservationState, draft, held, pending_payment, confirmed, checked_in, checked_out, cancelled,
  no_show,
}
use lodgiva.ReservationState.{
  can_transition, is_terminal, holds_inventory, is_modifiable, same_state,
}

-- A history: the states that a reservation takes after `s`, each by a legal transition.
pub data History : ReservationState → List ReservationState → ReservationState → Type 0 where
  rest : {s : ReservationState} → History s [] s
  move :
      {s t u : ReservationState} {l : List ReservationState}
      → can_transition s t ≡ true
      → History t l u
      → History s (t ∷ l) u

-- How many transitions can still follow, at most.
abbrev remaining : ReservationState → ℕ
remaining draft = 5
remaining held = 4
remaining pending_payment = 3
remaining confirmed = 2
remaining checked_in = 1
remaining checked_out = 0
remaining cancelled = 0
remaining no_show = 0

transition_spends : (s t : ReservationState) → can_transition s t ≡ true → remaining t < remaining s
unfolding can_transition
transition_spends draft t h = ground arith
transition_spends s t h = ground arith

length-History :
    {s u : ReservationState} {l : List ReservationState}
    → History s l u
    → length l + remaining u ≤ remaining s
length-History rest = omega arith
length-History (move {s} {t} h later) = omega (arith, transition_spends s t h, length-History later)

remaining-le : (s : ReservationState) → remaining s ≤ 5
remaining-le draft = omega arith
remaining-le s = omega arith

no_return : (s u : ReservationState) (l : List ReservationState) → History s l u → s ≡ u → l ≡ []
no_return s u [] h e = refl
no_return s u (t ∷ l) h e =
    let spent : suc (length l) + remaining u ≤ remaining s = length-History h in
    let same : remaining s ≡ remaining u = ap remaining e in absurd (omega arith)

-- A reservation passes through at most five transitions, and never returns to a state: a history
-- that ends where it began is empty.
pub History-bounded :
    (s u : ReservationState) (l : List ReservationState)
    → History s l u
    → (length l ≤ 5) × (s ≡ u → l ≡ [])
History-bounded s u l h = (omega (arith, length-History h, remaining-le s), no_return s u l h)

checked_out_from : (s : ReservationState) → can_transition s checked_out ≡ true → s ≡ checked_in
unfolding can_transition
checked_out_from checked_in h = refl
checked_out_from s h = cc

state-cases :
    (t : ReservationState)
    → (t ≡ checked_in) ⊎ ((t ≡ checked_out) ⊎ ((t ≢ checked_in) × (t ≢ checked_out)))
state-cases checked_in = inl refl
state-cases checked_out = inr (inl refl)
state-cases t = inr (inr ((λ e. cc), (λ e. cc)))

or-true : (b : Bool) → (b || true) ≡ true
or-true true = refl
or-true false = refl

passes_in_house :
    {s u : ReservationState} {l : List ReservationState}
    → History s l u
    → u ≡ checked_out
    → s ≢ checked_in
    → s ≢ checked_out
    → any (same_state checked_in) l ≡ true
passes_in_house rest e n m = absurd (m e)
passes_in_house (move {s} {t} h later) e n m = elim (state-cases t) [
  | inl in_house ↦ rw in_house
  | inr (inl out) ↦ absurd (n (checked_out_from s (rw out at h)))
  | inr (inr (p, q)) ↦ rw (passes_in_house later e p q) (or-true _)
]

-- A reservation that was neither in house nor checked out, and that ends up checked out, has been
-- in house: CHECKED_IN stands in its history.
checked_out_was_in_house :
    (s : ReservationState) (l : List ReservationState)
    → History s l checked_out
    → s ≢ checked_in
    → s ≢ checked_out
    → any (same_state checked_in) l ≡ true
checked_out_was_in_house s l h n m = passes_in_house h refl n m

-- A state is terminal exactly when no transition leaves it, and a history from it is empty.
is_terminal_iff :
    (s : ReservationState)
    → ((is_terminal s ≡ true) ↔ ((t : ReservationState) → can_transition s t ≡ false))
unfolding is_terminal can_transition
is_terminal_iff draft = (λ h. cc, λ h. cc (h held))
is_terminal_iff held = (λ h. cc, λ h. cc (h confirmed))
is_terminal_iff pending_payment = (λ h. cc, λ h. cc (h confirmed))
is_terminal_iff confirmed = (λ h. cc, λ h. cc (h checked_in))
is_terminal_iff checked_in = (λ h. cc, λ h. cc (h checked_out))
is_terminal_iff s = (λ h t. refl, λ h. refl)

-- A transition gives inventory back only by ending the reservation: from a state that holds
-- inventory, each next state still holds it or is terminal.
inventory_until_end :
    (s t : ReservationState)
    → can_transition s t ≡ true
    → holds_inventory s ≡ true
    → (holds_inventory t ≡ true) ⊎ (is_terminal t ≡ true)
unfolding can_transition holds_inventory is_terminal
inventory_until_end s draft h k = ground arith
inventory_until_end s held h k = inl refl
inventory_until_end s pending_payment h k = inl refl
inventory_until_end s confirmed h k = inl refl
inventory_until_end s checked_in h k = inl refl
inventory_until_end s t h k = inr refl

-- The states in which a stay may be modified are those from which it may be cancelled.
is_modifiable-eq-can_transition :
    (s : ReservationState) → is_modifiable s ≡ can_transition s cancelled
unfolding is_modifiable can_transition
is_modifiable-eq-can_transition draft = refl
is_modifiable-eq-can_transition s = refl
