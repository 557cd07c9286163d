-- ===== src/Approvals/Tests.antt =====
-- A discount above the self-service limit: asked for at the desk, decided by the manager.
use lodgiva.Common.{true, false, none, some, [], ◌∷◌, ◌≡◌, ◌≢◌, refl, find, ◌⊎◌}
use lodgiva.Common.Int.{pos}
use lodgiva.Store.{
  Db, ok, Folio, FolioEntry, ApprovalRequest, open_folio, closed_folio, room_charge,
}
use lodgiva.Store.Sample.{empty_db}
use lodgiva.Access.{Auth}
use lodgiva.Permissions.{role_has_permission, role_named, grants, role_permissions, read_only}
use lodgiva.Folios.{is_reachable}
use lodgiva.Approvals.{
  charge_total, RequestDiscount, Outcome, request_discount, apply_discount, raise_request,
  request_row, decide, decide_void, post_discount,
}
use lodgiva.Approvals.Discounts.{Applied, Raised, request_discount-Applied_or_Raised}
use lodgiva.Approvals.Decisions.{Decided, decide-Decided}

abbrev desk : Auth
desk = record {
  user_id = 3;
  tenant_id = 1;
  role = "FRONT_DESK";
  all_properties = false;
  property_ids = 2 ∷ [];
}

abbrev head : Auth
head = record desk { user_id = 4; role = "GENERAL_MANAGER" }

abbrev bill : Folio
bill = record {
  id = 10;
  tenant_id = 1;
  property_id = 2;
  reservation_id = some 5;
  guest_id = 6;
  label = "Main";
  is_primary = true;
  status = open_folio;
}

abbrev room_night : FolioEntry
room_night = record {
  id = 20;
  tenant_id = 1;
  folio_id = 10;
  type = room_charge;
  description = "Room 12 night";
  amount_minor = pos 10000;
  tax_code = none;
  tax_rule_id = none;
  tax_rule_version = none;
  transfer_group_id = none;
  reversal_of_id = none;
  business_date = 150;
  posted_by_id = 3;
}

abbrev ledger_db : Db
ledger_db = record empty_db {
  properties = record { id = 2; tenant_id = 1; business_date = 150 } ∷ [];
  folios = bill ∷ [];
  entries = room_night ∷ [];
}

-- 6% of the charges
abbrev wish : RequestDiscount
wish = record { folio_id = 10; amount_minor = 600; reason = "noise at night" }

asked : (o : Outcome) × (db : Db) × (request_discount desk wish ledger_db ≡ ok (o, db))
unfolding request_discount apply_discount raise_request role_has_permission role_named grants
    role_permissions read_only
asked = (_, _, refl)

-- The folio is closed before the request is decided.
abbrev closed_bill : Folio
closed_bill = record bill { status = closed_folio }

abbrev later_db : Db
later_db = record ledger_db {
  folios = closed_bill ∷ [];
  approvals = request_row desk bill wish 100 ∷ [];
}

decision : (r : ApprovalRequest) × (db : Db) × (decide head 100 true none later_db ≡ ok (r, db))
unfolding decide decide_void post_discount role_has_permission role_named grants role_permissions
    read_only
decision = (_, _, refl)

request_discount-Applied_or_Raised_example :
    (folio : Folio) × (find (is_reachable desk 10) ledger_db.folios ≡ some folio)
    × (folio.status ≡ open_folio)
    × (charge_total folio.id ledger_db.entries ≢ 0)
    × (Applied desk wish folio ledger_db asked.0 (asked.1)
        ⊎ Raised desk wish folio ledger_db asked.0 (asked.1))
request_discount-Applied_or_Raised_example =
    request_discount-Applied_or_Raised desk wish ledger_db asked.0 (asked.1) asked.2

decide-Decided_example : Decided head 100 true none later_db (decision.1)
decide-Decided_example =
    decide-Decided head 100 true none later_db (decision.0, decision.1) decision.2
