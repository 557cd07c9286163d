-- ===== src/Pos/Life/Decision.antt =====
-- What a decision of Approvals does to the orders.
use lodgiva.Common.{
  Bool, true, false, ◌&&◌, Option, ◌≡◌, refl, ◌∙◌, String, arith, ◌==◌, find, ◌≤◌, update_where,
  inl, inr, Option-cases, Bool-cases,
}
use lodgiva.Common.Members.{Member, find-Member}
use lodgiva.Store.{Key, void_pending, PosOrder, ApprovalRequest, Db, ok, Result-cases}
use lodgiva.Access.{Auth}
use lodgiva.Folios.{is_reachable}
use lodgiva.Approvals.{
  is_discount, is_pos_void, decided_row, order_row, decide_void, post_discount, decide,
}
use lodgiva.Approvals.Decisions.{payload-cases}
use lodgiva.Pos.Life.Effects.{
  OrderMove, approve_move, reject_move, SameOrder, OrderEffect, untouched, moved,
}

order_row-Same : (approve : Bool) (o : PosOrder) → SameOrder o (order_row approve o)
order_row-Same true o = record {
  id = refl;
  tenant_id = refl;
  property_id = refl;
  order_number = refl;
  total_minor = refl;
  business_date = refl;
}
order_row-Same false o = record {
  id = refl;
  tenant_id = refl;
  property_id = refl;
  order_number = refl;
  total_minor = refl;
  business_date = refl;
}

order_row-move :
    (approve : Bool) (o : PosOrder)
    → o.status ≡ void_pending
    → OrderMove o.status (order_row approve o).status
order_row-move true o h = rw h approve_move
order_row-move false o h = rw h reject_move

-- A discount leaves the orders alone.
post_discount-orders :
    (auth : Auth) (request : ApprovalRequest) (db : Db) (u : Unit {0}) (db' : Db)
    → post_discount auth request db ≡ ok (u, db')
    → (db'.orders ≡ db.orders) × (db.next_id ≤ db'.next_id)
unfolding post_discount
post_discount-orders auth request db u db' h = elim (payload-cases request.payload) [
  | inr (order_id, number, void) ↦ absurd (ground (arith, void))
  | inl (folio_id, amount, payload) ↦
      elim (Option-cases (find (is_reachable auth folio_id) db.folios)) [
        | inl missing ↦ absurd (ground (arith, payload))
        | inr (folio, there) ↦
            elim (Option-cases (find (λ p. p.id == folio.property_id) db.properties)) [
              | inl missing ↦ absurd (ground (arith, payload))
              | inr (property, its) ↦ (ground (arith, payload), ground (arith, payload))
            ]
      ]
]

-- The decision on a void moves the order that waits.
decide_void-moves :
    (auth : Auth) (approve : Bool) (request : ApprovalRequest) (db : Db) (u : Unit {0}) (db' : Db)
    → decide_void auth approve request db ≡ ok (u, db')
    → (o : PosOrder) × Member o db.orders
      × (o.status ≡ void_pending)
      × (db'.orders ≡ update_where (λ x. x.id == o.id) (order_row approve) db.orders)
      × (db'.next_id ≡ db.next_id)
unfolding decide_void
decide_void-moves auth approve request db u db' h =
    elim (Option-cases
      (find (λ o. o.id == request.entity_id && o.tenant_id == auth.tenant_id) db.orders)) [
        | inl missing ↦ absurd (ground arith)
        | inr (o, found) ↦
            (o, find-Member _ db.orders o found, ground arith, ground arith, ground arith)
      ]

-- A decision rewrites the order of a void that waits, or leaves the orders alone.
pub decide-OrderEffect :
    (auth : Auth) (id : Key) (approve : Bool) (note : Option String) (db : Db) (r : ApprovalRequest)
    (db' : Db)
    → decide auth id approve note db ≡ ok (r, db')
    → OrderEffect db db'
unfolding decide
decide-OrderEffect auth id approve note db r db' h =
    elim (Option-cases (find (λ x. x.id == id && x.tenant_id == auth.tenant_id) db.approvals)) [
      | inl missing ↦ absurd (ground arith)
      | inr (request, found) ↦
          let mid : Db = record db {
            approvals =
                update_where (λ x. x.id == request.id) (decided_row auth approve note) db.approvals;
          } in
          elim (Bool-cases (is_pos_void request.type)) [
            | inl void ↦ elim (Result-cases (decide_void auth approve request mid)) [
              | inr (e, failed) ↦ absurd (ground (arith, void))
              | inl ((u, end), ran) ↦
                  let (o, here, waits, rows, ids) =
                    decide_void-moves auth approve request mid u end ran in
                  let plain : (approve && is_discount request.type) ≡ false =
                    ground (arith, void) in
                  let facts : (db'.orders ≡ end.orders) × (db'.next_id ≡ end.next_id) =
                    ground (arith, void, plain, ran) in
                  moved o (order_row approve) here (order_row-Same approve)
                    (order_row-move approve o waits) (facts.0 ∙ rows) (omega (arith, facts.1, ids))
            ]
            | inr other ↦ elim (Bool-cases (approve && is_discount request.type)) [
              | inr plain ↦ untouched (ground (arith, other, plain)) (ground (arith, other, plain))
              | inl posted ↦ elim (Result-cases (post_discount auth request mid)) [
                | inr (e, failed) ↦ absurd (ground (arith, other, posted))
                | inl ((u, end), ran) ↦
                    let (orders, ids) = post_discount-orders auth request mid u end ran in
                    let facts : (db'.orders ≡ end.orders) × (db'.next_id ≡ end.next_id) =
                      ground (arith, other, posted, ran) in
                    untouched (facts.0 ∙ orders) (omega (arith, facts.1, ids))
              ]
            ]
          ]
    ]
