-- ===== src/Pos/Totals.antt =====
-- An order that is posted to a room and the total that the guest was shown.
use mathlib.Core.Path.{ap₂}
use lodgiva.Common.{some, List, ◌≡◌, refl, sym, ◌∙◌, ap, subst, arith, find, All, inl, inr}
use lodgiva.Common.Int.{ℤ, ◌+ℤ◌}
use lodgiva.Common.Search.{find-eq-some}
use lodgiva.Store.{Key, room_posting, exclusive, Folio, PosOrder, Db, ok}
use lodgiva.Access.{Auth}
use lodgiva.Tax.{TaxInput, compute, sum_lines, TaxLine}
use lodgiva.Tax.Exclusive.{exclusive_base, ordered_rules-All}
use lodgiva.Folios.{is_reachable, tax_input}
use lodgiva.Folios.Charges.{Grows, charged}
use lodgiva.Folios.Scope.{reachable-Permitted}
use lodgiva.Pos.Orders.{CreateOrder, create_order, order_tax_input, subtotal}
use lodgiva.Pos.Settlement.{Settle, settle_order, is_order, order_charge}
use lodgiva.Pos.Priced.{create_order-Opened}
use lodgiva.Pos.Settled.{settle_order-Settled}

-- Equal inputs by their fields.
input_eq :
    (a b : TaxInput)
    → a.tenant_id ≡ b.tenant_id
    → a.property_id ≡ b.property_id
    → a.base_minor ≡ b.base_minor
    → a.charge_kind ≡ b.charge_kind
    → a.business_date ≡ b.business_date
    → a ≡ b
input_eq a b p q r s t = λ i. record {
  tenant_id = p i;
  property_id = q i;
  base_minor = r i;
  charge_kind = s i;
  business_date = t i;
}

-- Under exclusive rules an order that is posted to a room raises the balance of the guest's folio,
-- and of no other, by exactly the total of the order: the ledger derives the same taxes again, if the
-- tax rules have not changed since the order was opened.
pub room_posting-total :
    (auth : Auth) (dto : CreateOrder) (db : Db) (order : PosOrder) (db' : Db)
    → create_order auth dto db ≡ ok (order, db')
    → All (λ r. r.basis ≡ exclusive) db.tax_rules
    → (auth' : Auth) (s : Settle) (now : Db) (result : PosOrder) (end : Db)
    → find (is_order auth' order.id) now.orders ≡ some order
    → now.tax_rules ≡ db.tax_rules
    → s.settlement ≡ room_posting
    → settle_order auth' order.id s now ≡ ok (result, end)
    → (id : Key) × (folio : Folio) × (s.folio_id ≡ some id)
      × (find (is_reachable auth' id) now.folios ≡ some folio)
      × Grows folio.id order.total_minor now.entries end.entries
unfolding compute
room_posting-total auth dto db order db' h ex auth' s now result end there same_rules kind h' =
    let opened = create_order-Opened auth dto db order db' h in
    let done = settle_order-Settled auth' order.id s now result end h' in
    let its : done.order ≡ order = ground (arith, done.named, there) in
    elim done.money [
      | inr other ↦ absurd (ground (arith, other, kind))
      | inl (_, posted) ↦
          let folio = posted.folio in
          let input = order_tax_input auth opened.outlet opened.property (subtotal opened.priced) in
          let base : order.subtotal_minor ≡ subtotal opened.priced =
            ap (λ o. o.subtotal_minor) opened.row
            ∙ exclusive_base db.tax_rules input (ordered_rules-All _ input db.tax_rules ex) in
          let mine = (reachable-Permitted auth' posted.id folio now posted.reached).1 in
          let tenant : order.tenant_id ≡ auth'.tenant_id =
            ground (arith, find-eq-some (is_order auth' order.id) now.orders order there) in
          let same_input : tax_input folio (order_charge done.outlet done.order) ≡ input =
            input_eq (tax_input folio (order_charge done.outlet done.order)) input
              (mine.0 ∙ sym tenant ∙ ap (λ o. o.tenant_id) opened.row)
              (posted.same_property
                ∙ ap (λ o. o.property_id) its
                ∙ ap (λ o. o.property_id) opened.row)
              (ap (λ o. o.subtotal_minor) its ∙ base) refl
              (ap (λ o. o.business_date) its ∙ ap (λ o. o.business_date) opened.row) in
          let total : charged folio (order_charge done.outlet done.order) now ≡ order.total_minor =
            ap₂ (λ (a : ℤ) (l : List TaxLine). a +ℤ sum_lines l) (ap (λ o. o.subtotal_minor) its)
              (ap₂ (λ rules i. (compute rules i).lines) same_rules same_input)
            ∙ ap (λ (a : ℤ). a +ℤ sum_lines (compute db.tax_rules input).lines)
                (ap (λ o. o.subtotal_minor) opened.row)
            ∙ sym (ap (λ o. o.total_minor) opened.row) in
          (
            posted.id,
            folio,
            posted.named,
            posted.reached,
            subst (λ a. Grows folio.id a now.entries end.entries) total posted.ledger,
          )
    ]
