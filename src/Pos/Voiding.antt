-- ===== src/Pos/Voiding.antt =====
-- `void` of apps/api/src/modules/pos.module.ts, by the rule of Restrictions. The age of an order is
-- in milliseconds, of which the source has the 60,000th part; an order is not opened after now.
use lodgiva.Common.{
  ℕ, ◌+◌, ◌-◌, ◌/◌, Bool, true, false, none, some, [], ◌∷◌, String, ◌==◌, find, update_where,
  if◌then◌else◌,
}
use lodgiva.Common.Int.{pos}
use lodgiva.Store.{
  Key, voided, void_pending, is_settled, is_voided, is_void_pending, pos_void, of_void, pending,
  text, number, PosOrder, ApprovalRequest, M, pure, gets, require, modify, fresh, throw_if, ◌>>=◌,
  ◌>>◌, not_found, conflict, order_not_found, order_settled, already_voided, void_awaiting,
}
use lodgiva.Access.{Auth, log}
use lodgiva.Permissions.{role_has_permission, approval_decide}
use lodgiva.Restrictions.{VoidDecision, self_service, decide_void_rule}
use lodgiva.Pos.Settlement.{is_order}

-- What `void` returns.
pub data VoidOutcome : Type 0 where
  void_raised : ApprovalRequest → VoidDecision → VoidOutcome
  void_done : PosOrder → VoidOutcome

-- `decision.requiresApproval`
abbrev pub requires_approval : VoidDecision → Bool
requires_approval self_service = false
requires_approval _ = true

-- The row of a request.
abbrev pub void_request_row : Auth → PosOrder → String → Key → ApprovalRequest
void_request_row auth order reason id = record {
  id = id;
  tenant_id = auth.tenant_id;
  property_id = order.property_id;
  type = pos_void;
  entity_type = "pos_order";
  entity_id = order.id;
  amount_minor = some order.total_minor;
  reason = reason;
  payload = of_void order.id order.order_number;
  status = pending;
  requested_by_id = auth.user_id;
  decided_by_id = none;
  decision_note = none;
}

-- The columns that a request and a void update in the order.
abbrev pub awaiting_row : Key → String → PosOrder → PosOrder
awaiting_row request_id reason o = record o {
  status = void_pending;
  void_request_id = some request_id;
  void_reason = some reason;
}

abbrev pub voided_row : String → PosOrder → PosOrder
voided_row reason o = record o { status = voided; void_reason = some reason }

-- A supervisor is asked, and the order waits.
unfoldable pub raise_void : Auth → PosOrder → String → ℕ → VoidDecision → M VoidOutcome
unfolding log
raise_void auth order reason age decision = do
  id ← fresh
  modify (λ db. record db { approvals = void_request_row auth order reason id ∷ db.approvals })
  modify (λ db. record db {
    orders = update_where (λ o. o.id == order.id) (awaiting_row id reason) db.orders;
  })
  log auth "approval.requested" "approval_request" id (some order.property_id) (
      ("type", text "POS_VOID")
      ∷ ("orderNumber", text order.order_number)
      ∷ ("amountMinor", number order.total_minor)
      ∷ ("ageMinutes", number (pos ((age + 30000) / 60000)))
      ∷ ("reason", text reason)
      ∷ [])
  pure (void_raised (void_request_row auth order reason id) decision)

-- The order is voided at once.
unfoldable pub void_now : Auth → PosOrder → String → Bool → M VoidOutcome
unfolding log
void_now auth order reason can_approve = do
  modify (λ db. record db {
    orders = update_where (λ o. o.id == order.id) (voided_row reason) db.orders;
  })
  log auth "pos.order_voided" "pos_order" order.id (some order.property_id) (
      ("orderNumber", text order.order_number)
      ∷ ("reason", text reason)
      ∷ ("amountMinor", number order.total_minor)
      ∷ (
        "approval",
        text (if can_approve then "self (approver)" else "not required (within correction window)"),
      )
      ∷ [])
  pure (void_done (voided_row reason order))

-- `void`
unfoldable pub void_order : Auth → Key → String → M VoidOutcome
unfolding raise_void void_now
void_order auth order_id reason = do
  order ←
      require (← gets (λ db. find (is_order auth order_id) db.orders)) (not_found order_not_found)
  throw_if (is_settled order.status) (conflict order_settled)
  throw_if (is_voided order.status) (conflict already_voided)
  throw_if (is_void_pending order.status) (conflict void_awaiting)
  age ← gets (λ db. db.now - order.created_at)
  let can_approve = role_has_permission auth.role approval_decide
  let decision = decide_void_rule order.total_minor age can_approve
  if requires_approval decision
      then raise_void auth order reason age decision
      else void_now auth order reason can_approve
