-- ===== src/Pos/Settled.antt =====
-- What the settlement of an order does.
use lodgiva.Common.{
  ◌≤◌, some, ◌≡◌, sym, ◌∙◌, arith, ◌==◌, find, update_where, inl, inr, Option-cases, ap,
}
use lodgiva.Common.Search.{find-eq-some}
use lodgiva.Store.{Key, Instant, order_open, Outlet, PosOrder, Db, ok, Result-cases}
use lodgiva.Access.{Auth}
use lodgiva.Pos.Settlement.{Settle, is_order, collect, settled_row, settle_order}
use lodgiva.Pos.Collected.{Collected, collect-Collected}

-- The writes after the money do not touch it.
moved_on :
    (auth : Auth) (order : PosOrder) (outlet : Outlet) (dto : Settle) (db mid db' : Db)
    → Collected auth order outlet db mid dto
    → db'.entries ≡ mid.entries
    → db'.movements ≡ mid.movements
    → Collected auth order outlet db db' dto
moved_on auth order outlet dto db mid db' (inl (kind, p)) es ms = inl (
  kind,
  record {
    id = p.id;
    folio = p.folio;
    named = p.named;
    reached = p.reached;
    same_property = p.same_property;
    unlocked = p.unlocked;
    ledger = rw es p.ledger;
    drawers = ms ∙ p.drawers;
  },
)
moved_on auth order outlet dto db mid db' (inr (inl (kind, p))) es ms = inr (
    inl (
      kind,
      record {
        shift = p.shift;
        named = p.named;
        found = p.found;
        same_tenant = p.same_tenant;
        same_property = p.same_property;
        unlocked = p.unlocked;
        here = rw ms p.here;
        elsewhere = λ other n. rw ms (p.elsewhere other n);
        ledger = es ∙ p.ledger;
      },
    ))
moved_on auth order outlet dto db mid db' (inr (inr (n, m, e, v))) es ms =
    inr (inr (n, m, es ∙ e, ms ∙ v))

-- An order was settled.
pub record Settled (auth : Auth) (order_id : Key) (dto : Settle) (db : Db) (result : PosOrder)
    (db' : Db) : Type 0 where
  pub order : PosOrder
  pub outlet : Outlet
  pub now : Instant
  pub named : find (is_order auth order_id) db.orders ≡ some order
  pub its_outlet : outlet.id ≡ order.outlet_id
  pub was_open : order.status ≡ order_open
  pub row : result ≡ settled_row now dto order
  pub orders : db'.orders ≡ update_where (λ o. o.id == order.id) (settled_row now dto) db.orders
  pub ids : db.next_id ≤ db'.next_id
  pub money : Collected auth order outlet db db' dto

-- Only an open order of the tenant is settled, and its row alone is rewritten. Posted to a room it is
-- charged to an open folio within reach at its property, and the balance of that folio alone grows by
-- its subtotal and all the tax lines; paid in cash, its total goes into the drawer of an open shift at
-- its property and into no other; paid otherwise, neither ledger nor drawer changes.
pub settle_order-Settled :
    (auth : Auth) (order_id : Key) (dto : Settle) (db : Db) (result : PosOrder) (db' : Db)
    → settle_order auth order_id dto db ≡ ok (result, db')
    → Settled auth order_id dto db result db'
unfolding settle_order
settle_order-Settled auth order_id dto db result db' h =
    elim (Option-cases (find (is_order auth order_id) db.orders)) [
      | inl missing ↦ absurd (ground arith)
      | inr (order, named) ↦ elim (Option-cases (find (λ o. o.id == order.outlet_id) db.outlets)) [
        | inl missing ↦ absurd (ground arith)
        | inr (outlet, found) ↦ elim (Result-cases (collect auth order outlet dto db)) [
          | inr (e, failed) ↦ absurd (ground arith)
          | inl ((u, mid), ran) ↦
              let (money, orders, ids) = collect-Collected auth order outlet db dto u mid ran in
              let facts : (order.status ≡ order_open)
                  × (settled_row mid.now dto order ≡ result)
                  × (db'.orders
                      ≡ update_where (λ o. o.id == order.id) (settled_row mid.now dto) mid.orders)
                  × (db'.entries ≡ mid.entries)
                  × (db'.movements ≡ mid.movements)
                  × (db'.next_id ≡ mid.next_id) =
                ground arith in
              record {
                order = order;
                outlet = outlet;
                now = mid.now;
                named = named;
                its_outlet = ground (arith, find-eq-some _ db.outlets outlet found);
                was_open = facts.0;
                row = sym facts.1;
                orders =
                    ◌∙◌
                      {b = update_where (λ o. o.id == order.id) (settled_row mid.now dto)
                        mid.orders}
                      facts.2
                      (ap (λ l. update_where (λ o. o.id == order.id) (settled_row mid.now dto) l)
                        orders);
                ids = omega (arith, ids, facts.5);
                money = moved_on auth order outlet dto db mid db' money facts.3 facts.4;
              }
        ]
      ]
    ]
