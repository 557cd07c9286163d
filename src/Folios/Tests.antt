-- ===== src/Folios/Tests.antt =====
-- Runs of the folio services, and their theorems at a stay with two folios.
use lodgiva.Common.{true, false, none, some, [], ◌∷◌, ◌≡◌, refl}
use lodgiva.Common.Int.{pos}
use lodgiva.Store.{
  Folio, FolioEntry, open_folio, closed_folio, room_charge, scope_all, inclusive, exclusive,
  TaxRule, Db, ok, err, bad_request, folio_closed,
}
use lodgiva.Store.Sample.{empty_db}
use lodgiva.Access.{Auth, log, emit, property_or_throw}
use lodgiva.Tax.{ordered_rules}
use lodgiva.Folios.{
  Charge, PostCharge, Moved, post_charge, post_charge_tx, create_entry, announce, reverse, transfer,
  check_folios, check_entries, carry_out, move_entries, move_entry, mark, balance_minor,
  get_folio_or_throw, tax_input,
}
use lodgiva.Folios.Charges.{Grows, due, post_charge_tx-Due}
use lodgiva.Folios.Reversal.{Reversed, reverse-Reversed}
use lodgiva.Folios.Moves.{Transferred, transfer-Transferred}

abbrev clerk : Auth
clerk = record {
  user_id = 3;
  tenant_id = 1;
  role = "FRONT_DESK";
  all_properties = false;
  property_ids = 2 ∷ [];
}

-- Staff of another property of the same tenant.
abbrev neighbour : Auth
neighbour = record clerk { property_ids = 9 ∷ [] }

abbrev main : Folio
main = record {
  id = 10;
  tenant_id = 1;
  property_id = 2;
  reservation_id = some 5;
  guest_id = 6;
  label = "Main";
  is_primary = true;
  status = open_folio;
}

abbrev extras : Folio
extras = record main { id = 11; label = "Extras"; is_primary = false }

abbrev night : FolioEntry
night = record {
  id = 20;
  tenant_id = 1;
  folio_id = 10;
  type = room_charge;
  description = "Room 12 night";
  amount_minor = pos 10000;
  tax_code = none;
  tax_rule_id = none;
  tax_rule_version = none;
  transfer_group_id = none;
  reversal_of_id = none;
  business_date = 150;
  posted_by_id = 3;
}

abbrev vat_rule : TaxRule
vat_rule = record {
  id = 7;
  tenant_id = 1;
  property_id = 2;
  code = "VAT";
  name = "Value Added Tax";
  rate_bp = 750;
  applies_to = scope_all;
  basis = inclusive;
  compound_order = 2;
  tax_on_service_charge = true;
  version = 2;
  effective_from = 100;
  effective_to = none;
}

abbrev db : Db
db = record empty_db {
  properties = record { id = 2; tenant_id = 1; business_date = 150 } ∷ [];
  folios = extras ∷ main ∷ [];
  entries = night ∷ [];
  tax_rules = vat_rule ∷ [];
}

abbrev breakfast : Charge
breakfast = record {
  type = room_charge;
  description = "Breakfast";
  amount_minor = pos 10750;
  apply_taxes = true;
  business_date = 150;
}

abbrev exclusive_rule : TaxRule
exclusive_rule = record vat_rule { basis = exclusive }

abbrev taxed_db : Db
taxed_db = record db { tax_rules = exclusive_rule ∷ [] }

the_rule : ordered_rules (tax_input main breakfast) taxed_db.tax_rules ≡ exclusive_rule ∷ []
unfolding ordered_rules
the_rule = refl

post_charge_tx-Due_example :
    (main.status ≡ closed_folio
      → post_charge_tx clerk main breakfast taxed_db ≡ err (bad_request folio_closed))
    × (main.status ≡ open_folio
        → (e : FolioEntry) × (db' : Db) × (post_charge_tx clerk main breakfast taxed_db
            ≡ ok (e, db'))
          × Grows 10 (due main breakfast taxed_db) taxed_db.entries db'.entries)
post_charge_tx-Due_example =
    post_charge_tx-Due clerk main breakfast taxed_db (rw the_rule (refl, tt))

reversed : (row : FolioEntry) × (db' : Db) × (reverse clerk 10 20 "wrong room" db ≡ ok (row, db'))
unfolding reverse
reversed = (_, _, refl)

reverse-Reversed_example : Reversed clerk 10 20 reversed.0 db reversed.1
reverse-Reversed_example =
    reverse-Reversed clerk 10 20 "wrong room" db reversed.0 reversed.1 reversed.2

moved : (m : Moved) × (db' : Db) × (transfer clerk 10 11 (20 ∷ []) "to company" db ≡ ok (m, db'))
unfolding transfer get_folio_or_throw check_folios check_entries carry_out move_entries move_entry
    mark create_entry property_or_throw balance_minor log
moved = (_, _, refl)

transfer-Transferred_example : Transferred clerk 10 11 (20 ∷ []) moved.0 db moved.1
transfer-Transferred_example =
    transfer-Transferred clerk 10 11 (20 ∷ []) "to company" db moved.0 moved.1 moved.2

abbrev drink : PostCharge
drink = record {
  type = room_charge;
  description = "Water";
  amount_minor = 500;
  apply_taxes = false;
}

posted : (r : FolioEntry × Db) × (post_charge clerk 10 drink db ≡ ok r)
unfolding post_charge post_charge_tx create_entry announce log emit
posted = (_, refl)
