-- ===== src/Pos/Tests.antt =====
-- A dinner: an order at the restaurant, posted to the room; an order that is voided; and a price with
-- its tax inside, of which the room is charged less than the order's total.
use lodgiva.Common.{true, false, none, some, [], ◌∷◌, ◌≡◌, refl, arith, find}
use lodgiva.Common.Int.{pos, times, ◌+ℤ◌, ◌-ℤ◌, mul_div}
use lodgiva.Common.Members.{Member}
use lodgiva.Common.Text.{decimal}
use lodgiva.Store.{
  Key, Db, ok, Folio, PosOrder, open_folio, room_posting, exclusive, inclusive, scope_all, TaxRule,
}
use lodgiva.Store.Sample.{empty_db}
use lodgiva.Access.{Auth}
use lodgiva.Permissions.{role_has_permission, role_named, grants, role_permissions, read_only}
use lodgiva.Restrictions.{decide_void_rule}
use lodgiva.Tax.{compute, run_rules, apply_rules, apply_rule, rule_amount}
use lodgiva.Folios.{is_reachable, post_charge_tx, post_tax_lines, announce, create_entry, balance}
use lodgiva.Folios.Charges.{Grows}
use lodgiva.Pos.Orders.{CreateOrder, create_order}
use lodgiva.Pos.Settlement.{Settle, settle_order}
use lodgiva.Pos.Voiding.{VoidOutcome, void_order}
use lodgiva.Pos.Priced.{Opened, create_order-Opened}
use lodgiva.Pos.Settled.{Settled, settle_order-Settled}
use lodgiva.Pos.Totals.{room_posting-total}
use lodgiva.Pos.Voids.{Voided, void_order-Voided}
use lodgiva.Pos.Life.Effects.{OrdersSafe, OrderFate}
use lodgiva.Pos.Life.Steps.{settle_step, still, after, Steps-OrderFate}

abbrev waiter : Auth
waiter = record {
  user_id = 3;
  tenant_id = 1;
  role = "RESTAURANT_CASHIER";
  all_properties = false;
  property_ids = 2 ∷ [];
}

abbrev bill : Folio
bill = record {
  id = 10;
  tenant_id = 1;
  property_id = 2;
  reservation_id = some 5;
  guest_id = 6;
  label = "Main";
  is_primary = true;
  status = open_folio;
}

abbrev vat : TaxRule
vat = record {
  id = 40;
  tenant_id = 1;
  property_id = 2;
  code = "VAT";
  name = "Value Added Tax";
  rate_bp = 1000;
  applies_to = scope_all;
  basis = exclusive;
  compound_order = 1;
  tax_on_service_charge = false;
  version = 1;
  effective_from = 100;
  effective_to = none;
}

abbrev evening : Db
evening = record empty_db {
  properties = record { id = 2; tenant_id = 1; business_date = 150 } ∷ [];
  outlets = record { id = 20; tenant_id = 1; property_id = 2; code = "RST"; name = "Grill" } ∷ [];
  menu_items =
      record {
        id = 30;
        tenant_id = 1;
        outlet_id = 20;
        name = "Suya";
        price_minor = pos 11000;
        is_on_sale = true;
      }
      ∷ [];
  folios = bill ∷ [];
  tax_rules = vat ∷ [];
}

abbrev dinner : CreateOrder
dinner = record {
  outlet_id = 20;
  table_ref = none;
  lines = record { menu_item_id = 30; quantity = 2 } ∷ [];
}

abbrev to_room : Settle
to_room = record { settlement = room_posting; folio_id = some 10; shift_id = none }

an_order : (o : PosOrder) × (db : Db) × (create_order waiter dinner evening ≡ ok (o, db))
unfolding create_order compute run_rules apply_rules apply_rule rule_amount times ◌+ℤ◌ ◌-ℤ◌ mul_div
    decimal
an_order = (_, _, refl)

a_settlement :
    (o : PosOrder) × (db : Db) × (settle_order waiter 100 to_room (an_order.1) ≡ ok (o, db))
unfolding an_order settle_order compute run_rules apply_rules apply_rule rule_amount times ◌+ℤ◌ ◌-ℤ◌
    mul_div decimal post_charge_tx post_tax_lines announce create_entry
a_settlement = (_, _, refl)

a_void :
    (o : VoidOutcome) × (db : Db) × (void_order waiter 100 "keyed twice" (an_order.1) ≡ ok (o, db))
unfolding an_order void_order decide_void_rule compute run_rules apply_rules apply_rule rule_amount
    times ◌+ℤ◌ ◌-ℤ◌ mul_div decimal role_has_permission role_named grants role_permissions read_only
a_void = (_, _, refl)

create_order-Opened_example : Opened waiter dinner evening an_order.0 (an_order.1)
create_order-Opened_example =
    create_order-Opened waiter dinner evening an_order.0 (an_order.1) an_order.2

settle_order-Settled_example :
    Settled waiter 100 to_room (an_order.1) a_settlement.0 (a_settlement.1)
settle_order-Settled_example =
    settle_order-Settled waiter 100 to_room (an_order.1) a_settlement.0 (a_settlement.1)
      a_settlement.2

room_posting-total_example :
    (id : Key) × (folio : Folio) × (some 10 ≡ some id)
    × (find (is_reachable waiter id) (an_order.1).folios ≡ some folio)
    × Grows folio.id an_order.0.total_minor (an_order.1).entries (a_settlement.1).entries
unfolding an_order
room_posting-total_example =
    room_posting-total waiter dinner evening an_order.0 (an_order.1) an_order.2 (refl, tt) waiter
      to_room (an_order.1) a_settlement.0 (a_settlement.1) refl refl refl a_settlement.2

void_order-Voided_example : Voided waiter 100 "keyed twice" (an_order.1) a_void.0 (a_void.1)
void_order-Voided_example =
    void_order-Voided waiter 100 "keyed twice" (an_order.1) a_void.0 (a_void.1) a_void.2

Steps-OrderFate_example :
    OrdersSafe (a_settlement.1)
    × ((o : PosOrder) → Member o (an_order.1).orders → OrderFate o (a_settlement.1))
unfolding an_order
Steps-OrderFate_example =
    Steps-OrderFate (after (settle_step waiter 100 to_room a_settlement.0 a_settlement.2) still)
      (record { unique = (tt, tt); given_out = (omega arith, tt) })

-- A price of 110.00 with 10% inside: the order's total is 110.00, and the room is charged 109.09.
abbrev inside : Db
inside = record evening { tax_rules = record vat { basis = inclusive } ∷ [] }

abbrev one_plate : CreateOrder
one_plate = record dinner { lines = record { menu_item_id = 30; quantity = 1 } ∷ [] }

an_inclusive_order :
    (o : PosOrder) × (db : Db) × (create_order waiter one_plate inside ≡ ok (o, db))
unfolding create_order compute run_rules apply_rules apply_rule rule_amount times ◌+ℤ◌ ◌-ℤ◌ mul_div
    decimal
an_inclusive_order = (_, _, refl)

its_posting :
    (o : PosOrder) × (db : Db) × (settle_order waiter 100 to_room (an_inclusive_order.1)
      ≡ ok (o, db))
    × (o.total_minor ≡ pos 11000)
    × (balance 10 db.entries ≡ pos 10909)
unfolding an_inclusive_order settle_order compute run_rules apply_rules apply_rule rule_amount times
    ◌+ℤ◌ ◌-ℤ◌ mul_div decimal post_charge_tx post_tax_lines announce create_entry
its_posting = (_, _, refl, refl, refl)
