-- ===== src/Pos/Voids.antt =====
-- Who may void an order, and what a void does.
use lodgiva.Common.{
  ℕ, ◌-◌, ◌*◌, ◌≤◌, Bool, true, false, ◌∷◌, String, some, ◌≡◌, refl, arith, ◌==◌, find,
  update_where, ◌⊎◌, inl, inr, Option-cases, Bool-cases,
}
use lodgiva.Common.Int.{ℤ, pos, ◌≤ℤ◌}
use lodgiva.Store.{Key, order_open, PosOrder, Db, ok}
use lodgiva.Access.{Auth}
use lodgiva.Permissions.{role_has_permission, approval_decide}
use lodgiva.Restrictions.{decide_void_rule, pos_void_self_service_minor, pos_void_grace_minutes}
use lodgiva.Pos.Settlement.{is_order}
use lodgiva.Pos.Voiding.{
  VoidOutcome, void_done, requires_approval, void_request_row, awaiting_row, voided_row, void_order,
}

-- The order is small and young.
abbrev pub IsKeyingMistake : PosOrder → Db → Type 0
IsKeyingMistake order db =
    (order.total_minor ≤ℤ pos pos_void_self_service_minor)
    × (db.now - order.created_at ≤ pos_void_grace_minutes * 60000)

rule_allows :
    (total : ℤ) (age : ℕ) (may : Bool)
    → requires_approval (decide_void_rule total age may) ≡ false
    → (may ≡ true)
      ⊎ ((total ≤ℤ pos pos_void_self_service_minor) × (age ≤ pos_void_grace_minutes * 60000))
unfolding decide_void_rule
rule_allows total age true h = inl refl
rule_allows total age false h = inr (ground arith)

rule_asks :
    (total : ℤ) (age : ℕ) (may : Bool)
    → requires_approval (decide_void_rule total age may) ≡ true
    → (may ≡ false)
      × ((total ≤ℤ pos pos_void_self_service_minor) × (age ≤ pos_void_grace_minutes * 60000) → ⊥)
unfolding decide_void_rule
rule_asks total age true h = absurd (ground arith)
rule_asks total age false h = (refl, λ k. ground arith)

-- What a void shows of the order and the caller, and what it does.
pub record Voided (auth : Auth) (order_id : Key) (reason : String) (db : Db) (outcome : VoidOutcome)
    (db' : Db) : Type 0 where
  pub order : PosOrder
  pub named : find (is_order auth order_id) db.orders ≡ some order
  pub was_open : order.status ≡ order_open
  pub written :
      (((role_has_permission auth.role approval_decide ≡ true) ⊎ IsKeyingMistake order db)
        × (outcome ≡ void_done (voided_row reason order))
        × (db'.orders ≡ update_where (λ o. o.id == order.id) (voided_row reason) db.orders)
        × (db'.approvals ≡ db.approvals))
      ⊎ ((role_has_permission auth.role approval_decide ≡ false)
          × (¬ IsKeyingMistake order db)
          × (db'.orders
              ≡ update_where (λ o. o.id == order.id) (awaiting_row db.next_id reason) db.orders)
          × (db'.approvals ≡ void_request_row auth order reason db.next_id ∷ db.approvals))
  pub ledger : db'.entries ≡ db.entries
  pub drawers : db'.movements ≡ db.movements
  pub ids : db.next_id ≤ db'.next_id

-- Only an open order is voided. It is voided at once by a role that may decide requests, or where its
-- total is at most 5,000 naira and it was opened at most 15 minutes ago; otherwise it waits, and a
-- request of the caller is raised that names it. Neither ledger nor drawer changes.
pub void_order-Voided :
    (auth : Auth) (order_id : Key) (reason : String) (db : Db) (outcome : VoidOutcome) (db' : Db)
    → void_order auth order_id reason db ≡ ok (outcome, db')
    → Voided auth order_id reason db outcome db'
unfolding void_order
void_order-Voided auth order_id reason db outcome db' h =
    elim (Option-cases (find (is_order auth order_id) db.orders)) [
      | inl missing ↦ absurd (ground arith)
      | inr (order, named) ↦
          let may = role_has_permission auth.role approval_decide in
          let decision = decide_void_rule order.total_minor (db.now - order.created_at) may in
          elim (Bool-cases (requires_approval decision)) [
            | inr free ↦
                let facts : (order.status ≡ order_open)
                    × (outcome ≡ void_done (voided_row reason order))
                    × (db'.orders
                        ≡ update_where (λ o. o.id == order.id) (voided_row reason) db.orders)
                    × (db'.approvals ≡ db.approvals)
                    × (db'.entries ≡ db.entries)
                    × (db'.movements ≡ db.movements)
                    × (db.next_id ≤ db'.next_id) =
                  ground (arith, free) in
                record {
                  order = order;
                  named = named;
                  was_open = facts.0;
                  written = inl (
                    rule_allows order.total_minor (db.now - order.created_at) may free,
                    facts.1,
                    facts.2,
                    facts.3,
                  );
                  ledger = facts.4;
                  drawers = facts.5;
                  ids = facts.6;
                }
            | inl asks ↦
                let facts : (order.status ≡ order_open)
                    × (db'.orders
                        ≡ update_where (λ o. o.id == order.id) (awaiting_row db.next_id reason)
                            db.orders)
                    × (db'.approvals ≡ void_request_row auth order reason db.next_id ∷ db.approvals)
                    × (db'.entries ≡ db.entries)
                    × (db'.movements ≡ db.movements)
                    × (db.next_id ≤ db'.next_id) =
                  ground (arith, asks) in
                let (cannot, large) =
                  rule_asks order.total_minor (db.now - order.created_at) may asks in
                record {
                  order = order;
                  named = named;
                  was_open = facts.0;
                  written = inr (cannot, large, facts.1, facts.2);
                  ledger = facts.3;
                  drawers = facts.4;
                  ids = facts.5;
                }
          ]
    ]
