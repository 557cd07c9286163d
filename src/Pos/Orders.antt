-- ===== src/Pos/Orders.antt =====
-- `createOrder` of apps/api/src/modules/pos.module.ts. The decimals of a number in a template are
-- those of Common.Text.
use package.text.Mathlib.Text.{◌==◌ as str_eq}
use lodgiva.Common.{
  ℕ, ◌+◌, Bool, ◌&&◌, not, Option, none, some, List, [], ◌∷◌, String, ◌&◌, ◌==◌, find, filter, any,
  count,
}
use lodgiva.Common.Text.{decimal}
use lodgiva.Common.Int.{ℤ, pos, ◌+ℤ◌, times}
use lodgiva.Store.{
  Key, Instant, order_open, text, number, Property, MenuItem, Outlet, PosOrder, PosOrderLine, M,
  pure, gets, require, modify, fresh, throw_if, ◌>>=◌, ◌>>◌, not_found, crash, outlet_not_found,
  menu_item_not_found,
}
use lodgiva.Access.{Auth, log, property_or_throw}
use lodgiva.Tax.{TaxLine, TaxInput, TaxComputation, fb_kind, compute, sum_lines}

-- A line of the body; the quantity is between 1 and 99.
pub record OrderLine : Type 0 where
  pub menu_item_id : Key
  pub quantity : ℕ

-- `createOrderSchema`; there is one line at least.
pub record CreateOrder : Type 0 where
  pub outlet_id : Key
  pub table_ref : Option String
  pub lines : List OrderLine

-- An element of `lineData`.
pub record LineData : Type 0 where
  pub menu_item_id : Key
  pub description : String
  pub quantity : ℕ
  pub unit_minor : ℤ
  pub line_minor : ℤ

-- The `where` of the look-up of an item.
abbrev pub is_item : Auth → Outlet → Key → MenuItem → Bool
is_item auth outlet id i =
    i.id == id && (i.tenant_id == auth.tenant_id && (i.outlet_id == outlet.id && i.is_on_sale))

abbrev pub line_data : MenuItem → ℕ → LineData
line_data item quantity = record {
  menu_item_id = item.id;
  description = item.name;
  quantity = quantity;
  unit_minor = item.price_minor;
  line_minor = times item.price_minor quantity;
}

-- The loop over `dto.lines`, which prices each line from the menu.
unfoldable pub price_lines : Auth → Outlet → List OrderLine → M (List LineData)
price_lines auth outlet [] = pure []
price_lines auth outlet (l ∷ ls) = do
  item ←
      require (← gets (λ db. find (is_item auth outlet l.menu_item_id) db.menu_items))
        (not_found menu_item_not_found)
  rest ← price_lines auth outlet ls
  pure (line_data item l.quantity ∷ rest)

-- `subtotal`
abbrev pub subtotal : List LineData → ℤ
subtotal [] = pos 0
subtotal (l ∷ ls) = l.line_minor +ℤ subtotal ls

abbrev pub order_tax_input : Auth → Outlet → Property → ℤ → TaxInput
order_tax_input auth outlet property base = record {
  tenant_id = auth.tenant_id;
  property_id = outlet.property_id;
  base_minor = base;
  charge_kind = fb_kind;
  business_date = property.business_date;
}

-- `serviceMinor` and `taxMinor`
abbrev pub service_of : List TaxLine → ℤ
service_of lines = sum_lines (filter (λ l. l.is_service_charge) lines)

abbrev pub tax_of : List TaxLine → ℤ
tax_of lines = sum_lines (filter (λ l. not l.is_service_charge) lines)

-- The row of an order.
abbrev pub pos_order_row :
    Auth → Outlet → Property → Option String → String → TaxComputation → Instant → Key → PosOrder
pos_order_row auth outlet property table_ref order_number computed now id = record {
  id = id;
  tenant_id = auth.tenant_id;
  property_id = outlet.property_id;
  outlet_id = outlet.id;
  order_number = order_number;
  status = order_open;
  settlement = none;
  folio_id = none;
  table_ref = table_ref;
  subtotal_minor = computed.base;
  service_minor = service_of computed.lines;
  tax_minor = tax_of computed.lines;
  total_minor = computed.total;
  business_date = property.business_date;
  shift_id = none;
  void_reason = none;
  void_request_id = none;
  opened_by_id = auth.user_id;
  settled_at = none;
  created_at = now;
}

abbrev pub line_row : Auth → Key → LineData → Key → PosOrderLine
line_row auth order_id l id = record {
  id = id;
  tenant_id = auth.tenant_id;
  order_id = order_id;
  menu_item_id = l.menu_item_id;
  description = l.description;
  quantity = l.quantity;
  unit_minor = l.unit_minor;
  line_minor = l.line_minor;
}

-- `lines: { create: lineData }`
unfoldable pub create_lines : Auth → Key → List LineData → M (Unit {0})
create_lines auth order_id [] = pure tt
create_lines auth order_id (l ∷ ls) = do
  id ← fresh
  modify (λ db. record db { order_lines = line_row auth order_id l id ∷ db.order_lines })
  create_lines auth order_id ls

-- The unique index on the number of an order.
abbrev pub has_number : Key → Key → String → PosOrder → Bool
has_number tenant_id property_id order_number o =
    o.tenant_id == tenant_id && (o.property_id == property_id && str_eq o.order_number order_number)

-- `createOrder`, after the lines are priced
unfoldable pub open_order : Auth → Outlet → Property → Option String → List LineData → M PosOrder
unfolding create_lines log
open_order auth outlet property table_ref priced = do
  rules ← gets (λ db. db.tax_rules)
  let computed = compute rules (order_tax_input auth outlet property (subtotal priced))
  existing ← gets (λ db.
      count (λ o. o.tenant_id == auth.tenant_id && o.property_id == outlet.property_id) db.orders)
  let order_number = outlet.code & ("-" & decimal (1000 + existing + 1))
  throw_if
      (← gets (λ db. any (has_number auth.tenant_id outlet.property_id order_number) db.orders))
      crash
  now ← gets (λ db. db.now)
  id ← fresh
  let order = pos_order_row auth outlet property table_ref order_number computed now id
  modify (λ db. record db { orders = order ∷ db.orders })
  create_lines auth id priced
  log auth "pos.order_created" "pos_order" id (some outlet.property_id)
      (("orderNumber", text order_number) ∷ ("totalMinor", number computed.total) ∷ [])
  pure order

-- `createOrder`
unfoldable pub create_order : Auth → CreateOrder → M PosOrder
unfolding property_or_throw price_lines open_order
create_order auth dto = do
  outlet ←
      require
        (← gets
          (λ db. find (λ o. o.id == dto.outlet_id && o.tenant_id == auth.tenant_id) db.outlets))
        (not_found outlet_not_found)
  property ← property_or_throw outlet.property_id
  priced ← price_lines auth outlet dto.lines
  open_order auth outlet property dto.table_ref priced
