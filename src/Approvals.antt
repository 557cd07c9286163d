-- ===== src/Approvals.antt =====
-- Approvals: `ApprovalsService` of apps/api/src/modules/approvals.module.ts. The payload of a
-- request stands in its row as the folio and the amount that `JSON.parse` gives back.
pub mod Discounts
pub mod Decisions
mod Tests
use lodgiva.Common.{
  ℕ, ◌+◌, ◌*◌, ◌/◌, Bool, true, false, ◌&&◌, ◌||◌, not, Option, none, some, List, [], ◌∷◌, String,
  ◌&◌, ◌==◌, ltb, leb, find, update_where, if◌then◌else◌,
}
use lodgiva.Common.Int.{ℤ, pos, pos_part, neg}
use lodgiva.Store.{
  Key, IsoDate, discount, is_open_folio, ApprovalType, discount_request, pos_void, other_request,
  RequestPayload, of_discount, of_void, ApprovalStatus, pending, approved, rejected, is_pending,
  OrderStatus, order_open, voided, is_void_pending, text, number, ident, missing, Json, Folio,
  FolioEntry, ApprovalRequest, PosOrder, M, pure, gets, require, modify, fresh, throw, throw_if,
  when, ◌>>=◌, ◌>>◌, not_found, conflict, forbidden, crash, folio_closed, nothing_to_discount,
  request_not_found, already_decided, permission_denied, self_approval, order_not_found,
  order_not_pending,
}
use lodgiva.Access.{Auth, log, property_or_throw}
use lodgiva.Permissions.{role_has_permission, approval_decide}
use lodgiva.Folios.{get_folio_or_throw, create_entry}

-- `SELF_SERVICE_DISCOUNT_BP`
abbrev pub self_service_discount_bp : ℕ
self_service_discount_bp = 500

-- `discountSchema`; the amount is positive.
pub record RequestDiscount : Type 0 where
  pub folio_id : Key
  pub amount_minor : ℕ
  pub reason : String

-- The sum of the positive entries of a folio.
abbrev pub charge_total : Key → List FolioEntry → ℕ
charge_total folio_id [] = 0
charge_total folio_id (e ∷ entries) =
    if e.folio_id == folio_id && ltb 0 (pos_part e.amount_minor)
    then pos_part e.amount_minor + charge_total folio_id entries
    else charge_total folio_id entries

-- `shareBp`, of a total that is not zero
abbrev pub share_bp : RequestDiscount → ℕ → ℕ
share_bp dto total = dto.amount_minor * 10000 / total

-- What `requestDiscount` returns.
pub data Outcome : Type 0 where
  applied : ℕ → FolioEntry → Outcome
  awaiting : ℕ → ApprovalRequest → Outcome

-- The row of a discount.
abbrev pub discount_row : Auth → Key → String → ℕ → IsoDate → Key → FolioEntry
discount_row auth folio_id description amount_minor date id = record {
  id = id;
  tenant_id = auth.tenant_id;
  folio_id = folio_id;
  type = discount;
  description = description;
  amount_minor = neg (pos amount_minor);
  tax_code = none;
  tax_rule_id = none;
  tax_rule_version = none;
  transfer_group_id = none;
  reversal_of_id = none;
  business_date = date;
  posted_by_id = auth.user_id;
}

-- The row of a request.
abbrev pub request_row : Auth → Folio → RequestDiscount → Key → ApprovalRequest
request_row auth folio dto id = record {
  id = id;
  tenant_id = auth.tenant_id;
  property_id = folio.property_id;
  type = discount_request;
  entity_type = "folio";
  entity_id = folio.id;
  amount_minor = some (pos dto.amount_minor);
  reason = dto.reason;
  payload = of_discount folio.id dto.amount_minor;
  status = pending;
  requested_by_id = auth.user_id;
  decided_by_id = none;
  decision_note = none;
}

-- The discount is posted at once.
unfoldable pub apply_discount : Auth → Folio → RequestDiscount → ℕ → IsoDate → M Outcome
unfolding create_entry log
apply_discount auth folio dto share date = do
  entry ←
      create_entry (discount_row auth folio.id ("Discount — " & dto.reason) dto.amount_minor date)
  log auth "folio.discount_applied" "folio_entry" entry.id (some folio.property_id) (
      ("amountMinor", number (pos dto.amount_minor))
      ∷ ("shareBp", number (pos share))
      ∷ ("reason", text dto.reason)
      ∷ ("approval", text "not required")
      ∷ [])
  pure (applied share entry)

-- A request is raised, and the ledger is left alone.
unfoldable pub raise_request : Auth → Folio → RequestDiscount → ℕ → M Outcome
unfolding log
raise_request auth folio dto share = do
  id ← fresh
  modify (λ db. record db { approvals = request_row auth folio dto id ∷ db.approvals })
  log auth "approval.requested" "approval_request" id (some folio.property_id) (
      ("type", text "DISCOUNT")
      ∷ ("amountMinor", number (pos dto.amount_minor))
      ∷ ("shareBp", number (pos share))
      ∷ [])
  pure (awaiting share (request_row auth folio dto id))

-- `withinSelfService`
abbrev pub within_self_service : Auth → ℕ → Bool
within_self_service auth share =
    leb share self_service_discount_bp || role_has_permission auth.role approval_decide

-- `requestDiscount`
unfoldable pub request_discount : Auth → RequestDiscount → M Outcome
unfolding get_folio_or_throw property_or_throw
request_discount auth dto = do
  folio ← get_folio_or_throw auth dto.folio_id
  throw_if (not (is_open_folio folio.status)) (conflict folio_closed)
  total ← gets (λ db. charge_total folio.id db.entries)
  throw_if (total == 0) (conflict nothing_to_discount)
  property ← property_or_throw folio.property_id
  let share = share_bp dto total
  if within_self_service auth share
      then apply_discount auth folio dto share property.business_date
      else raise_request auth folio dto share

abbrev pub is_pos_void : ApprovalType → Bool
is_pos_void pos_void = true
is_pos_void _ = false

abbrev pub is_discount : ApprovalType → Bool
is_discount discount_request = true
is_discount _ = false

-- The columns that a decision updates in the request and in the order.
abbrev pub decided_row : Auth → Bool → Option String → ApprovalRequest → ApprovalRequest
decided_row auth approve note r = record r {
  status = if approve then approved else rejected;
  decided_by_id = some auth.user_id;
  decision_note = note;
}

abbrev pub order_row : Bool → PosOrder → PosOrder
order_row true o = record o { status = voided; void_request_id = none }
order_row false o = record o { status = order_open; void_request_id = none; void_reason = none }

-- The decision on the void of an order.
unfoldable pub decide_void : Auth → Bool → ApprovalRequest → M (Unit {0})
unfolding log
decide_void auth approve request = do
  order ←
      require
        (← gets
          (λ db. find (λ o. o.id == request.entity_id && o.tenant_id == auth.tenant_id) db.orders))
        (not_found order_not_found)
  throw_if (not (is_void_pending order.status)) (conflict order_not_pending)
  modify (λ db. record db {
    orders = update_where (λ o. o.id == order.id) (order_row approve) db.orders;
  })
  log auth (if approve then "pos.order_voided" else "pos.void_rejected") "pos_order" order.id
      (some order.property_id)
      (("orderNumber", text order.order_number)
        ∷ ("amountMinor", number order.total_minor)
        ∷ ("reason", text request.reason)
        ∷ ("requestedBy", ident request.requested_by_id)
        ∷ ("approval", text "supervisor")
        ∷ [])

-- An approved discount is posted to the folio of the payload, whose status is not asked.
unfoldable pub post_discount_to : Auth → ApprovalRequest → Key → ℕ → M (Unit {0})
unfolding get_folio_or_throw property_or_throw create_entry
post_discount_to auth request folio_id amount_minor = do
  folio ← get_folio_or_throw auth folio_id
  property ← property_or_throw folio.property_id
  create_entry (
      discount_row auth folio.id ("Approved discount — " & request.reason) amount_minor
        property.business_date)
  pure tt

-- `BigInt` of the amount that the payload of a void lacks throws.
unfoldable pub post_discount : Auth → ApprovalRequest → M (Unit {0})
unfolding post_discount_to
post_discount auth request = elim request.payload [
  | of_discount folio_id amount_minor ↦ post_discount_to auth request folio_id amount_minor
  | of_void order_id order_number ↦ throw crash
]

abbrev pub request_text : ApprovalType → String
request_text discount_request = "DISCOUNT"
request_text pos_void = "POS_VOID"
request_text other_request = "OTHER"

abbrev pub amount_json : Option ℤ → Json
amount_json none = number (pos 0)
amount_json (some a) = number a

abbrev pub note_json : Option String → Json
note_json none = missing
note_json (some note) = text note

-- `decide`
unfoldable pub decide : Auth → Key → Bool → Option String → M ApprovalRequest
unfolding log
decide auth id approve note = do
  request ←
      require (← gets (λ db. find (λ r. r.id == id && r.tenant_id == auth.tenant_id) db.approvals))
        (not_found request_not_found)
  throw_if (not (is_pending request.status)) (conflict already_decided)
  throw_if (not (role_has_permission auth.role approval_decide)) (forbidden permission_denied)
  throw_if (request.requested_by_id == auth.user_id) (conflict self_approval)
  modify (λ db. record db {
    approvals = update_where (λ r. r.id == request.id) (decided_row auth approve note) db.approvals;
  })
  when (is_pos_void request.type) (decide_void auth approve request)
  when (approve && is_discount request.type) (post_discount auth request)
  log auth (if approve then "approval.approved" else "approval.rejected") "approval_request"
      request.id (some request.property_id)
      (("type", text (request_text request.type))
        ∷ ("amountMinor", amount_json request.amount_minor)
        ∷ ("requestedBy", ident request.requested_by_id)
        ∷ ("note", note_json note)
        ∷ [])
  pure (decided_row auth approve note request)
