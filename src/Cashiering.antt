-- ===== src/Cashiering.antt =====
-- Cashier shifts: `CashieringService` of apps/api/src/modules/cashiering.module.ts. The bodies are
-- what the zod schemas of that file let through; the movements of a shift are ordered by their
-- creation, the oldest first.
pub mod Drawer
pub mod Closing
pub mod History
mod Tests
use package.text.Mathlib.Text.{◌==◌ as str_eq}
use lodgiva.Common.{
  ℕ, ◌+◌, Bool, true, false, ◌&&◌, not, Option, none, some, List, [], ◌∷◌, ◌++◌, map, String, ◌==◌,
  ltb, find, filter, any, count, update_where, if◌then◌else◌,
}
use lodgiva.Common.Int.{ℤ, pos, neg, ◌+ℤ◌, ◌-ℤ◌, ◌==ℤ◌}
use lodgiva.Store.{
  Key, ShiftStatus, shift_open, shift_closed, shift_pending, is_shift_open, is_shift_closed,
  is_shift_pending, MovementType, payment_in, refund_out, drop_to_safe, petty_cash_out, float_in,
  text, number, missing, Json, CashierShift, CashMovement, M, pure, gets, require, modify, fresh,
  throw_if, when, ◌>>=◌, ◌>>◌, not_found, conflict, forbidden, shift_not_found, shift_already_open,
  shift_is_closed, shift_already_closed, variance_reason_required, not_pending, permission_denied,
  self_approval,
}
use lodgiva.Access.{Auth, log, emit, assert_property}
use lodgiva.Permissions.{role_has_permission, cashier_approve_variance}

-- `OUTFLOWS.includes(type)`
abbrev pub is_outflow : MovementType → Bool
is_outflow refund_out = true
is_outflow drop_to_safe = true
is_outflow petty_cash_out = true
is_outflow _ = false

abbrev pub movement_text : MovementType → String
movement_text payment_in = "PAYMENT_IN"
movement_text refund_out = "REFUND_OUT"
movement_text drop_to_safe = "DROP_TO_SAFE"
movement_text petty_cash_out = "PETTY_CASH_OUT"
movement_text float_in = "FLOAT_IN"

abbrev pub status_text : ShiftStatus → String
status_text shift_open = "OPEN"
status_text shift_closed = "CLOSED"
status_text shift_pending = "PENDING_APPROVAL"

-- `movements.reduce((s, m) => s + m.amountMinor, 0n)` over the movements of a shift
abbrev pub expected_in : Key → List CashMovement → ℤ
expected_in shift_id [] = pos 0
expected_in shift_id (m ∷ ms) =
    if m.shift_id == shift_id
    then m.amount_minor +ℤ expected_in shift_id ms
    else expected_in shift_id ms

-- `getOpenShift`, which does not ask whether the shift is open
unfoldable pub get_open_shift : Auth → Key → M CashierShift
get_open_shift auth shift_id = do
  require (← gets (λ db. find (λ s. s.id == shift_id && s.tenant_id == auth.tenant_id) db.shifts))
      (not_found shift_not_found)

-- `tx.cashMovement.create`
abbrev pub movement_row :
    Auth → Key → MovementType → ℤ → Option String → Option String → Key → CashMovement
movement_row auth shift_id type amount reference note id = record {
  id = id;
  tenant_id = auth.tenant_id;
  shift_id = shift_id;
  type = type;
  amount_minor = amount;
  reference = reference;
  note = note;
  recorded_by_id = auth.user_id;
}

unfoldable pub create_movement : (Key → CashMovement) → M CashMovement
create_movement row = do
  id ← fresh
  modify (λ db. record db { movements = row id ∷ db.movements })
  pure (row id)

-- The body of `open`.
pub record OpenShift : Type 0 where
  pub property_id : Key
  pub opening_float_minor : ℕ

-- The row of a new shift; the number stands for the text `S-…`.
abbrev pub shift_row : Auth → Key → ℕ → ℕ → Key → CashierShift
shift_row auth property_id shift_no opening_float_minor id = record {
  id = id;
  tenant_id = auth.tenant_id;
  property_id = property_id;
  shift_number = shift_no;
  user_id = auth.user_id;
  status = shift_open;
  opening_float_minor = opening_float_minor;
  counted_minor = none;
  expected_minor = none;
  variance_minor = none;
  variance_reason = none;
  approved_by_id = none;
}

-- An open shift of a user at a property.
abbrev pub is_open_of : Key → Key → Key → CashierShift → Bool
is_open_of tenant_id property_id user_id s =
    s.tenant_id == tenant_id
    && (s.property_id == property_id && (s.user_id == user_id && is_shift_open s.status))

-- `open`
unfoldable pub open_shift : Auth → OpenShift → M CashierShift
unfolding assert_property create_movement log
open_shift auth dto = do
  property ← assert_property auth dto.property_id
  throw_if (← gets (λ db. any (is_open_of auth.tenant_id property.id auth.user_id) db.shifts))
      (conflict shift_already_open)
  existing ←
      gets
        (λ db. count (λ s. s.tenant_id == auth.tenant_id && s.property_id == property.id) db.shifts)
  id ← fresh
  let shift = shift_row auth property.id (400 + existing + 1) dto.opening_float_minor id
  modify (λ db. record db { shifts = shift ∷ db.shifts })
  when (ltb 0 dto.opening_float_minor) (
      create_movement
        (movement_row auth id float_in (pos dto.opening_float_minor) none (some "Opening float"))
      >> pure tt)
  log auth "cashiering.shift_opened" "cashier_shift" id (some property.id) (
      ("shiftNumber", number (pos shift.shift_number))
      ∷ ("openingFloatMinor", number (pos dto.opening_float_minor))
      ∷ [])
  pure shift

-- The body of `addMovement`; the amount is positive.
pub record AddMovement : Type 0 where
  pub type : MovementType
  pub amount_minor : ℕ
  pub reference : Option String
  pub note : Option String

-- The signed amount of a movement.
abbrev pub signed : AddMovement → ℤ
signed dto = if is_outflow dto.type then neg (pos dto.amount_minor) else pos dto.amount_minor

-- `addMovement`
unfoldable pub add_movement : Auth → Key → AddMovement → M CashMovement
unfolding get_open_shift create_movement log
add_movement auth shift_id dto = do
  shift ← get_open_shift auth shift_id
  throw_if (not (is_shift_open shift.status)) (conflict shift_is_closed)
  movement ←
      create_movement (movement_row auth shift.id dto.type (signed dto) dto.reference dto.note)
  log auth "cashiering.movement_recorded" "cash_movement" movement.id (some shift.property_id) (
      ("shiftNumber", number (pos shift.shift_number))
      ∷ ("type", text (movement_text dto.type))
      ∷ ("amountMinor", number (signed dto))
      ∷ [])
  pure movement

abbrev pub oldest_first : List CashMovement → List CashMovement
oldest_first [] = []
oldest_first (m ∷ ms) = oldest_first ms ++ (m ∷ [])

-- `get`: the shift, its movements and what the drawer should hold
unfoldable pub get : Auth → Key → M (CashierShift × List CashMovement × ℤ)
unfolding get_open_shift
get auth shift_id = do
  shift ← get_open_shift auth shift_id
  movements ← gets (λ db. oldest_first (filter (λ m. m.shift_id == shift.id) db.movements))
  pure (shift, movements, expected_in shift.id movements)

-- The body of `close`.
pub record CloseShift : Type 0 where
  pub counted_minor : ℕ
  pub variance_reason : Option String

-- `!!dto.varianceReason`: the empty text is no reason
abbrev pub has_reason : Option String → Bool
has_reason none = false
has_reason (some reason) = not (str_eq reason "")

-- The variance of a count.
abbrev pub variance : CloseShift → ℤ → ℤ
variance dto expected = pos dto.counted_minor -ℤ expected

-- A column that is given `undefined` keeps its value.
abbrev pub reason_or_kept : Option String → Option String → Option String
reason_or_kept none before = before
reason_or_kept (some reason) before = some reason

-- The columns that `close` updates.
abbrev pub closed_row : CloseShift → ℤ → CashierShift → CashierShift
closed_row dto expected s = record s {
  status = if variance dto expected ==ℤ pos 0 then shift_closed else shift_pending;
  counted_minor = some (pos dto.counted_minor);
  expected_minor = some expected;
  variance_minor = some (variance dto expected);
  variance_reason = reason_or_kept dto.variance_reason s.variance_reason;
}

abbrev pub reason_json : Option String → Json
reason_json none = missing
reason_json (some reason) = text reason

-- `close`
unfoldable pub close : Auth → Key → CloseShift → M CashierShift
unfolding get_open_shift log emit
close auth shift_id dto = do
  shift ← get_open_shift auth shift_id
  throw_if (is_shift_closed shift.status) (conflict shift_already_closed)
  expected ← gets (λ db. expected_in shift.id db.movements)
  throw_if (not (variance dto expected ==ℤ pos 0) && not (has_reason dto.variance_reason))
      (conflict variance_reason_required)
  let closed = closed_row dto expected shift
  modify (λ db. record db {
    shifts = update_where (λ s. s.id == shift.id) (closed_row dto expected) db.shifts;
  })
  log auth "cashiering.shift_closed" "cashier_shift" shift.id (some shift.property_id) (
      ("shiftNumber", number (pos shift.shift_number))
      ∷ ("expectedMinor", number expected)
      ∷ ("countedMinor", number (pos dto.counted_minor))
      ∷ ("varianceMinor", number (variance dto expected))
      ∷ ("reason", reason_json dto.variance_reason)
      ∷ ("status", text (status_text closed.status))
      ∷ [])
  emit auth.tenant_id "cashier_shift" shift.id "cashiering.shift_closed" (
      ("shiftNumber", number (pos shift.shift_number))
      ∷ ("varianceMinor", number (variance dto expected))
      ∷ ("status", text (status_text closed.status))
      ∷ [])
  pure closed

-- The columns that `approve` updates.
abbrev pub approved_row : Auth → CashierShift → CashierShift
approved_row auth s = record s { status = shift_closed; approved_by_id = some auth.user_id }

abbrev pub variance_json : Option ℤ → Json
variance_json none = number (pos 0)
variance_json (some v) = number v

-- `approve`
unfoldable pub approve : Auth → Key → M CashierShift
unfolding get_open_shift log
approve auth shift_id = do
  shift ← get_open_shift auth shift_id
  throw_if (not (is_shift_pending shift.status)) (conflict not_pending)
  throw_if (not (role_has_permission auth.role cashier_approve_variance))
      (forbidden permission_denied)
  throw_if (shift.user_id == auth.user_id) (conflict self_approval)
  modify (λ db. record db {
    shifts = update_where (λ s. s.id == shift.id) (approved_row auth) db.shifts;
  })
  log auth "cashiering.variance_approved" "cashier_shift" shift.id (some shift.property_id) (
      ("shiftNumber", number (pos shift.shift_number))
      ∷ ("varianceMinor", variance_json shift.variance_minor)
      ∷ [])
  pure (approved_row auth shift)
