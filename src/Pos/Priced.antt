-- ===== src/Pos/Priced.antt =====
-- An order is priced from the menu, and its totals add up.
use lodgiva.Common.{
  ◌≤◌, ◌<◌, ◌+◌, true, false, ◌&&◌, Option, ◌&◌, count, List, [], ◌∷◌, String, ◌≡◌, refl, sym, ◌∙◌,
  ap, subst, arith, ◌==◌, find, any, inl, inr, Option-cases, Bool-cases,
}
use lodgiva.Common.Int.{ℤ, pos_part, neg_part, ◌+ℤ◌, int_laws}
use lodgiva.Common.Text.{decimal}
use lodgiva.Common.Search.{find-eq-some}
use lodgiva.Common.Members.{Member, find-Member}
use lodgiva.Store.{Key, Property, MenuItem, Outlet, PosOrder, Db, ok, Result-cases}
use lodgiva.Access.{Auth}
use lodgiva.Tax.{TaxLine, compute, sum_lines}
use lodgiva.Pos.Orders.{
  OrderLine, CreateOrder, LineData, is_item, line_data, price_lines, subtotal, order_tax_input,
  service_of, tax_of, pos_order_row, create_lines, has_number, open_order, create_order,
}

-- Each line is an item on sale at the outlet, at the price of the menu times the quantity.
abbrev pub Priced : Auth → Outlet → Db → List OrderLine → List LineData → Type 0
Priced auth outlet db [] [] = Unit
Priced auth outlet db [] (d ∷ ds) = ⊥
Priced auth outlet db (l ∷ ls) [] = ⊥
Priced auth outlet db (l ∷ ls) (d ∷ ds) =
    ((item : MenuItem) × Member item db.menu_items
      × (is_item auth outlet l.menu_item_id item ≡ true)
      × (d ≡ line_data item l.quantity))
    × Priced auth outlet db ls ds

price_lines-Priced :
    (auth : Auth) (outlet : Outlet) (ls : List OrderLine) (db : Db) (priced : List LineData)
    (db' : Db)
    → price_lines auth outlet ls db ≡ ok (priced, db')
    → (db' ≡ db) × Priced auth outlet db ls priced
unfolding price_lines
price_lines-Priced auth outlet [] db priced db' h =
    let facts : (db' ≡ db) × ([] ≡ priced) = ground arith in
    (facts.0, subst (Priced auth outlet db []) facts.1 tt)
price_lines-Priced auth outlet (l ∷ ls) db priced db' h =
    elim (Option-cases (find (is_item auth outlet l.menu_item_id) db.menu_items)) [
      | inl missing ↦ absurd (ground arith)
      | inr (item, found) ↦ elim (Result-cases (price_lines auth outlet ls db)) [
        | inr (e, failed) ↦ absurd (ground arith)
        | inl ((rest, mid), ran) ↦
            let (same, later) = price_lines-Priced auth outlet ls db rest mid ran in
            let facts : (db' ≡ mid) × (line_data item l.quantity ∷ rest ≡ priced) = ground arith in
            (
              facts.0 ∙ same,
              subst (Priced auth outlet db (l ∷ ls)) facts.1 (
                (
                  item,
                  find-Member _ db.menu_items item found,
                  find-eq-some _ db.menu_items item found,
                  refl,
                ),
                later,
              ),
            )
      ]
    ]

-- The service charge and the taxes are all the lines.
pub split_lines : (lines : List TaxLine) → service_of lines +ℤ tax_of lines ≡ sum_lines lines
split_lines [] = omega int_laws
split_lines (l ∷ lines) =
    let rest = split_lines lines in
    elim (Bool-cases l.is_service_charge) [
      | inl e ↦
          let service : service_of (l ∷ lines) ≡ l.amount_minor +ℤ service_of lines =
            ground (arith, e) in
          let taxes : tax_of (l ∷ lines) ≡ tax_of lines = ground (arith, e) in
          rw (service, taxes) (omega (int_laws, ap pos_part rest, ap neg_part rest))
      | inr e ↦
          let service : service_of (l ∷ lines) ≡ service_of lines = ground (arith, e) in
          let taxes : tax_of (l ∷ lines) ≡ l.amount_minor +ℤ tax_of lines = ground (arith, e) in
          rw (service, taxes) (omega (int_laws, ap pos_part rest, ap neg_part rest))
    ]

create_lines-orders :
    (auth : Auth) (id : Key) (ds : List LineData) (db : Db)
    → (db' : Db) × (create_lines auth id ds db ≡ ok (tt, db'))
      × (db'.orders ≡ db.orders)
      × (db'.entries ≡ db.entries)
      × (db'.movements ≡ db.movements)
      × (db.next_id ≤ db'.next_id)
unfolding create_lines
create_lines-orders auth id [] db = (db, refl, refl, refl, refl, omega arith)
create_lines-orders auth id (d ∷ ds) db =
    let (end, ran, os, es, ms, ids) = create_lines-orders auth id ds _ in
    (end, ran, os, es, ms, omega (arith, ids))

-- An order was opened: what it is, and what it leaves alone.
pub record Opened (auth : Auth) (dto : CreateOrder) (db : Db) (order : PosOrder) (db' : Db)
    : Type 0 where
  pub outlet : Outlet
  pub property : Property
  pub priced : List LineData
  pub outlet_found : Member outlet db.outlets
  pub its_id : outlet.id ≡ dto.outlet_id
  pub its_tenant : outlet.tenant_id ≡ auth.tenant_id
  pub its_property : property.id ≡ outlet.property_id
  pub from_menu : Priced auth outlet db dto.lines priced
  pub row :
      order
      ≡ pos_order_row auth outlet property dto.table_ref order.order_number
          (compute db.tax_rules (order_tax_input auth outlet property (subtotal priced)))
          db.now
          db.next_id
  pub new_number :
      any (has_number auth.tenant_id outlet.property_id order.order_number) db.orders ≡ false
  pub adds_up : order.subtotal_minor +ℤ (order.service_minor +ℤ order.tax_minor) ≡ order.total_minor
  pub orders : db'.orders ≡ order ∷ db.orders
  pub entries : db'.entries ≡ db.entries
  pub movements : db'.movements ≡ db.movements
  pub ids : db.next_id < db'.next_id

-- The totals of a row add up.
row_adds_up :
    (auth : Auth) (outlet : Outlet) (property : Property) (table_ref : Option String)
    (number : String) (base : ℤ) (db : Db)
    → let computed = compute db.tax_rules (order_tax_input auth outlet property base) in
      let o = pos_order_row auth outlet property table_ref number computed db.now db.next_id in
      o.subtotal_minor +ℤ (o.service_minor +ℤ o.tax_minor) ≡ o.total_minor
unfolding compute
row_adds_up auth outlet property table_ref number base db =
    ap (λ t. (compute db.tax_rules (order_tax_input auth outlet property base)).base +ℤ t)
      (split_lines (compute db.tax_rules (order_tax_input auth outlet property base)).lines)

open_order-Opened :
    (auth : Auth) (outlet : Outlet) (property : Property) (table_ref : Option String)
    (priced : List LineData) (db : Db) (order : PosOrder) (db' : Db)
    → open_order auth outlet property table_ref priced db ≡ ok (order, db')
    → (order
        ≡ pos_order_row auth outlet property table_ref order.order_number
            (compute db.tax_rules (order_tax_input auth outlet property (subtotal priced)))
            db.now
            db.next_id)
      × (any (has_number auth.tenant_id outlet.property_id order.order_number) db.orders ≡ false)
      × (db'.orders ≡ order ∷ db.orders)
      × (db'.entries ≡ db.entries)
      × (db'.movements ≡ db.movements)
      × (db.next_id < db'.next_id)
unfolding open_order
open_order-Opened auth outlet property table_ref priced db order db' h =
    let computed = compute db.tax_rules (order_tax_input auth outlet property (subtotal priced)) in
    let existing =
      count (λ o. o.tenant_id == auth.tenant_id && o.property_id == outlet.property_id) db.orders in
    let number = outlet.code & ("-" & decimal (1000 + existing + 1)) in
    let row = pos_order_row auth outlet property table_ref number computed db.now db.next_id in
    let mid : Db = record db { next_id = db.next_id + 1; orders = row ∷ db.orders } in
    let (end, ran, os, es, ms, ids) = create_lines-orders auth db.next_id priced mid in
    elim (Bool-cases (any (has_number auth.tenant_id outlet.property_id number) db.orders)) [
      | inl taken ↦ absurd (ground (arith, taken))
      | inr free ↦
          let facts : (order ≡ row)
              × (db'.orders ≡ end.orders)
              × (db'.entries ≡ end.entries)
              × (db'.movements ≡ end.movements)
              × (db'.next_id ≡ end.next_id) =
            ground (arith, free, ran) in
          let numbered : order.order_number ≡ number = ap (λ o. o.order_number) facts.0 in
          (
            subst
                (λ n.
                  order ≡ pos_order_row auth outlet property table_ref n computed db.now db.next_id)
                (sym numbered) facts.0,
            subst (λ n. any (has_number auth.tenant_id outlet.property_id n) db.orders ≡ false)
                (sym numbered) free,
            facts.1 ∙ (os ∙ ap (λ o. o ∷ db.orders) (sym facts.0)),
            facts.2 ∙ es,
            facts.3 ∙ ms,
            omega (arith, facts.4, ids),
          )
    ]

-- An order is opened at an outlet of the tenant, with items on sale there, each line at the price of
-- the menu times its quantity. Its total is what the tax engine makes of the sum of the lines, its
-- parts add up to it, its number is new at the property, and neither ledger nor drawer changes.
pub create_order-Opened :
    (auth : Auth) (dto : CreateOrder) (db : Db) (order : PosOrder) (db' : Db)
    → create_order auth dto db ≡ ok (order, db')
    → Opened auth dto db order db'
unfolding create_order
create_order-Opened auth dto db order db' h =
    elim (Option-cases
      (find (λ o. o.id == dto.outlet_id && o.tenant_id == auth.tenant_id) db.outlets)) [
        | inl missing ↦ absurd (ground arith)
        | inr (outlet, found) ↦
            elim (Option-cases (find (λ p. p.id == outlet.property_id) db.properties)) [
              | inl missing ↦ absurd (ground arith)
              | inr (property, its) ↦ elim (Result-cases (price_lines auth outlet dto.lines db)) [
                | inr (e, failed) ↦ absurd (ground arith)
                | inl ((priced, mid), ran) ↦
                    let (same, menu) = price_lines-Priced auth outlet dto.lines db priced mid ran in
                    let left : open_order auth outlet property dto.table_ref priced db
                        ≡ ok (order, db') =
                      subst
                        (λ d.
                          open_order auth outlet property dto.table_ref priced d ≡ ok (order, db'))
                        same (ground arith) in
                    let (row, number, os, es, ms, ids) =
                      open_order-Opened auth outlet property dto.table_ref priced db order db'
                        left in
                    let test = find-eq-some _ db.outlets outlet found in
                    let test_property = find-eq-some _ db.properties property its in
                    record {
                      outlet = outlet;
                      property = property;
                      priced = priced;
                      outlet_found = find-Member _ db.outlets outlet found;
                      its_id = ground arith;
                      its_tenant = ground arith;
                      its_property = ground arith;
                      from_menu = menu;
                      row = row;
                      new_number = number;
                      adds_up =
                          subst
                            (λ o.
                              o.subtotal_minor +ℤ (o.service_minor +ℤ o.tax_minor) ≡ o.total_minor)
                            (sym row)
                            (row_adds_up auth outlet property dto.table_ref order.order_number
                              (subtotal priced) db);
                      orders = os;
                      entries = es;
                      movements = ms;
                      ids = ids;
                    }
              ]
            ]
      ]
