-- ===== src/Pos/Settlement.antt =====
-- `settle` of apps/api/src/modules/pos.module.ts.
use lodgiva.Common.{
  Bool, true, ◌&&◌, not, Option, none, some, List, [], ◌∷◌, String, ◌&◌, ◌==◌, find, update_where,
}
use lodgiva.Store.{
  Key, Instant, pos_charge, is_open_folio, is_shift_open, payment_in, settled, is_order_open,
  is_void_pending, Settlement, room_posting, cash, card, pos_terminal, transfer_in, text, number,
  Json, Outlet, PosOrder, M, pure, gets, require, modify, throw_if, ◌>>=◌, ◌>>◌, not_found,
  bad_request, conflict, crash, order_not_found, void_awaiting, order_not_open, folio_required,
  property_mismatch, folio_closed, shift_required, shift_not_open,
}
use lodgiva.Access.{Auth, log, emit}
use lodgiva.Folios.{Charge, get_folio_or_throw, post_charge_tx}
use lodgiva.Cashiering.{movement_row, create_movement}

-- `settleSchema`
pub record Settle : Type 0 where
  pub settlement : Settlement
  pub folio_id : Option Key
  pub shift_id : Option Key

abbrev pub settlement_text : Settlement → String
settlement_text room_posting = "ROOM_POSTING"
settlement_text cash = "CASH"
settlement_text card = "CARD"
settlement_text pos_terminal = "POS_TERMINAL"
settlement_text transfer_in = "TRANSFER"

abbrev pub is_order : Auth → Key → PosOrder → Bool
is_order auth id o = o.id == id && o.tenant_id == auth.tenant_id

-- The charge of an order: its pre-tax subtotal, of which the ledger derives the taxes anew.
abbrev pub order_charge : Outlet → PosOrder → Charge
order_charge outlet order = record {
  type = pos_charge;
  description = outlet.name & (" order " & order.order_number);
  amount_minor = order.subtotal_minor;
  apply_taxes = true;
  business_date = order.business_date;
}

-- The branch `ROOM_POSTING`.
unfoldable pub post_to_room : Auth → PosOrder → Outlet → Option Key → M (Unit {0})
unfolding get_folio_or_throw
post_to_room auth order outlet folio_id = do
  id ← require folio_id (bad_request folio_required)
  folio ← get_folio_or_throw auth id
  throw_if (not (folio.property_id == order.property_id)) (bad_request property_mismatch)
  throw_if (not (is_open_folio folio.status)) (conflict folio_closed)
  post_charge_tx auth folio (order_charge outlet order)
  pure tt

-- The branch `CASH`: the money goes into the drawer of an open shift.
unfoldable pub put_in_drawer : Auth → PosOrder → Outlet → Option Key → M (Unit {0})
unfolding create_movement
put_in_drawer auth order outlet shift_id = do
  id ← require shift_id (bad_request shift_required)
  shift ←
      require
        (← gets (λ db.
          find
            (λ s.
              s.id == id
              && (s.tenant_id == auth.tenant_id
                  && (s.property_id == order.property_id && is_shift_open s.status)))
            db.shifts))
        (not_found shift_not_open)
  create_movement (
      movement_row auth shift.id payment_in order.total_minor (some order.order_number)
        (some ("POS cash settlement — " & outlet.name)))
  pure tt

-- Where the money of an order goes.
unfoldable pub collect : Auth → PosOrder → Outlet → Settle → M (Unit {0})
unfolding post_to_room put_in_drawer
collect auth order outlet dto = elim dto.settlement [
  | room_posting ↦ post_to_room auth order outlet dto.folio_id
  | cash ↦ put_in_drawer auth order outlet dto.shift_id
  | card ↦ pure tt
  | pos_terminal ↦ pure tt
  | transfer_in ↦ pure tt
]

-- `dto.settlement === "ROOM_POSTING" ? dto.folioId : null`
abbrev pub posted_folio : Settlement → Option Key → Option Key
posted_folio room_posting folio_id = folio_id
posted_folio _ folio_id = none

-- A column that is given `undefined` keeps its value.
abbrev pub given_or_kept : Option Key → Option Key → Option Key
given_or_kept none before = before
given_or_kept (some id) before = some id

-- The columns that `settle` updates.
abbrev pub settled_row : Instant → Settle → PosOrder → PosOrder
settled_row now dto o = record o {
  status = settled;
  settlement = some dto.settlement;
  folio_id = posted_folio dto.settlement dto.folio_id;
  shift_id = given_or_kept dto.shift_id o.shift_id;
  settled_at = some now;
}

abbrev pub settled_summary : PosOrder → Settle → List (String × Json)
settled_summary order dto =
    ("orderNumber", text order.order_number)
    ∷ ("settlement", text (settlement_text dto.settlement))
    ∷ ("totalMinor", number order.total_minor)
    ∷ []

-- `settle`
unfoldable pub settle_order : Auth → Key → Settle → M PosOrder
unfolding collect log emit
settle_order auth order_id dto = do
  order ←
      require (← gets (λ db. find (is_order auth order_id) db.orders)) (not_found order_not_found)
  outlet ← require (← gets (λ db. find (λ o. o.id == order.outlet_id) db.outlets)) crash
  throw_if (is_void_pending order.status) (conflict void_awaiting)
  throw_if (not (is_order_open order.status)) (conflict order_not_open)
  collect auth order outlet dto
  now ← gets (λ db. db.now)
  modify (λ db. record db {
    orders = update_where (λ o. o.id == order.id) (settled_row now dto) db.orders;
  })
  log auth "pos.order_settled" "pos_order" order.id (some order.property_id)
      (settled_summary order dto)
  emit auth.tenant_id "pos_order" order.id "pos.order_settled" (settled_summary order dto)
  pure (settled_row now dto order)
