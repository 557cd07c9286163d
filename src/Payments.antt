-- ===== src/Payments.antt =====
-- Payments that staff record by hand: `PaymentsService.record` of
-- apps/api/src/modules/payments.module.ts. The providers there are `ManualProvider`s, which verify
-- whatever they are given.
pub mod Recording
pub mod History
mod Tests
use package.text.Mathlib.Text.{◌==◌ as str_eq}
use lodgiva.Common.{
  ℕ, Bool, true, false, ◌&&◌, ◌||◌, not, Option, none, some, List, [], ◌∷◌, String, ◌&◌, ◌==◌, find,
  any, or_else, if◌then◌else◌,
}
use lodgiva.Common.Text.{has_text, is_blank}
use lodgiva.Common.Int.{pos, neg}
use lodgiva.Store.{
  Key, IsoDate, payment, is_open_folio, PaymentMethod, by_cash, by_bank_transfer, by_pos_terminal,
  payment_confirmed, text, number, ident, Folio, FolioEntry, Payment, M, pure, gets, modify, fresh,
  throw_if, ◌>>=◌, ◌>>◌, bad_request, crash, folio_closed, payment_not_verified, validation,
}
use lodgiva.Access.{Auth, log, emit, property_or_throw}
use lodgiva.Folios.{get_folio_or_throw, create_entry}

-- `recordPaymentSchema`; the amount is positive.
pub record RecordPayment : Type 0 where
  pub folio_id : Key
  pub method : PaymentMethod
  pub amount_minor : ℕ
  pub external_reference : Option String
  pub idempotency_key : Option String

abbrev pub is_cash : PaymentMethod → Bool
is_cash by_cash = true
is_cash _ = false

-- `Boolean(v.externalReference?.trim())`
abbrev pub has_reference : Option String → Bool
has_reference none = false
has_reference (some reference) = not (is_blank reference)

-- The refinement of the schema: all but cash needs a reference.
abbrev pub is_witnessed : RecordPayment → Bool
is_witnessed dto = is_cash dto.method || has_reference dto.external_reference

abbrev pub method_text : PaymentMethod → String
method_text by_cash = "CASH"
method_text by_bank_transfer = "BANK_TRANSFER"
method_text by_pos_terminal = "POS_TERMINAL"

-- `providers`, by their names
abbrev pub provider_name : PaymentMethod → String
provider_name by_cash = "FrontDesk"
provider_name by_bank_transfer = "ManualTransfer"
provider_name by_pos_terminal = "POSTerminal"

pub record Verification : Type 0 where
  pub verified : Bool
  pub note : String

-- `ManualProvider.verifyTransaction`
unfoldable pub verify_transaction : String → Verification
verify_transaction reference = record {
  verified = true;
  note =
      "Manually confirmed by staff ("
      & ((if str_eq reference "" then "no reference" else reference) & ").");
}

-- `idempotencyKey: key` in a `where`
abbrev pub has_key : String → Option String → Bool
has_key key none = false
has_key key (some k) = str_eq k key

-- A payment of the tenant under an idempotency key.
abbrev pub is_keyed : Key → String → Payment → Bool
is_keyed tenant_id key p = p.tenant_id == tenant_id && has_key key p.idempotency_key

-- The payment that was recorded under the key of the body, `if (dto.idempotencyKey)`.
abbrev pub existing : Key → Option String → List Payment → Option Payment
existing tenant_id none payments = none
existing tenant_id (some key) payments =
    if has_text (some key) then find (is_keyed tenant_id key) payments else none

-- The unique index on the tenant and the key; rows without a key never clash.
abbrev pub is_key_taken : Key → Option String → List Payment → Bool
is_key_taken tenant_id none payments = false
is_key_taken tenant_id (some key) payments = any (is_keyed tenant_id key) payments

-- The row of a payment.
abbrev pub payment_row : Auth → Folio → RecordPayment → Key → Payment
payment_row auth folio dto id = record {
  id = id;
  tenant_id = auth.tenant_id;
  property_id = folio.property_id;
  folio_id = folio.id;
  method = dto.method;
  provider = provider_name dto.method;
  amount_minor = pos dto.amount_minor;
  status = payment_confirmed;
  external_reference = dto.external_reference;
  idempotency_key = dto.idempotency_key;
  recorded_by_id = auth.user_id;
}

-- `${dto.externalReference ? ` (${dto.externalReference})` : ""}`
abbrev pub reference_text : Option String → String
reference_text none = ""
reference_text (some reference) = if str_eq reference "" then "" else " (" & (reference & ")")

-- The row of the ledger: a payment lowers the balance.
abbrev pub payment_entry : Auth → Folio → RecordPayment → IsoDate → Key → FolioEntry
payment_entry auth folio dto date id = record {
  id = id;
  tenant_id = auth.tenant_id;
  folio_id = folio.id;
  type = payment;
  description = method_text dto.method & (" payment" & reference_text dto.external_reference);
  amount_minor = neg (pos dto.amount_minor);
  tax_code = none;
  tax_rule_id = none;
  tax_rule_version = none;
  transfer_group_id = none;
  reversal_of_id = none;
  business_date = date;
  posted_by_id = auth.user_id;
}

-- `tx.payment.create`
unfoldable pub create_payment : Auth → Folio → RecordPayment → M Payment
create_payment auth folio dto = do
  throw_if (← gets (λ db. is_key_taken auth.tenant_id dto.idempotency_key db.payments)) crash
  id ← fresh
  modify (λ db. record db { payments = payment_row auth folio dto id ∷ db.payments })
  pure (payment_row auth folio dto id)

-- The transaction of `record`.
unfoldable pub take_payment : Auth → RecordPayment → String → M Payment
unfolding get_folio_or_throw property_or_throw create_payment create_entry log emit
take_payment auth dto note = do
  folio ← get_folio_or_throw auth dto.folio_id
  throw_if (not (is_open_folio folio.status)) (bad_request folio_closed)
  property ← property_or_throw folio.property_id
  paid ← create_payment auth folio dto
  create_entry (payment_entry auth folio dto property.business_date)
  log auth "payment.confirmed" "payment" paid.id (some folio.property_id) (
      ("method", text (method_text dto.method))
      ∷ ("amountMinor", number (pos dto.amount_minor))
      ∷ ("note", text note)
      ∷ [])
  emit auth.tenant_id "payment" paid.id "payment.confirmed" (
      ("folioId", ident folio.id)
      ∷ ("method", text (method_text dto.method))
      ∷ ("amountMinor", number (pos dto.amount_minor))
      ∷ [])
  pure paid

-- What `record` returns.
pub record Receipt : Type 0 where
  pub payment : Payment
  pub is_duplicate : Bool
  pub verification : Option String

-- The part of `record` after the look-up of the key.
unfoldable pub record_new : Auth → RecordPayment → M Receipt
unfolding verify_transaction take_payment
record_new auth dto = do
  let verification = verify_transaction (or_else dto.external_reference "")
  throw_if (not verification.verified) (bad_request payment_not_verified)
  paid ← take_payment auth dto verification.note
  pure (record { payment = paid; is_duplicate = false; verification = some verification.note })

-- `record`
unfoldable pub record_payment : Auth → RecordPayment → M Receipt
unfolding record_new
record_payment auth dto = do
  throw_if (not (is_witnessed dto)) (bad_request validation)
  found ← gets (λ db. existing auth.tenant_id dto.idempotency_key db.payments)
  elim found [
    | some old ↦ pure (record { payment = old; is_duplicate = true; verification = none })
    | none ↦ record_new auth dto
  ]
