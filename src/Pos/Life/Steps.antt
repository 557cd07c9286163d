-- ===== src/Pos/Life/Steps.antt =====
-- Any sequence of operations on orders: createOrder, settle and void of PosService, and the decisions
-- of ApprovalsService.
use lodgiva.Common.{Bool, Option, String, ◌≡◌, refl, ap, subst, sym, arith, inl, inr, ◌⊎◌}
use lodgiva.Common.Members.{Member, find-Member}
use lodgiva.Store.{
  Key, settled, voided, void_pending, PosOrder, ApprovalRequest, Db, ok, OrderStatus,
}
use lodgiva.Access.{Auth}
use lodgiva.Approvals.{decide}
use lodgiva.Pos.Orders.{CreateOrder, create_order}
use lodgiva.Pos.Settlement.{Settle, settle_order, settled_row, is_order}
use lodgiva.Pos.Voiding.{VoidOutcome, void_order, voided_row, awaiting_row}
use lodgiva.Pos.Priced.{create_order-Opened}
use lodgiva.Pos.Settled.{settle_order-Settled}
use lodgiva.Pos.Voids.{void_order-Voided}
use lodgiva.Pos.Life.Effects.{
  OrderMove, settle_move, void_move, ask_move, approve_move, reject_move, OrderPath, rest,
  then_move, OrderEffect, moved, opened, OrdersSafe, OrderEffect-OrdersSafe, OrderFate,
  OrderEffect-Fate, kept-Fate, OrderFate-trans,
}
use lodgiva.Pos.Life.Decision.{decide-OrderEffect}

-- One operation that went through.
pub data Step : Db → Db → Type 0 where
  create_step :
      {db db' : Db} (auth : Auth) (dto : CreateOrder) (o : PosOrder)
      → create_order auth dto db ≡ ok (o, db')
      → Step db db'
  settle_step :
      {db db' : Db} (auth : Auth) (id : Key) (dto : Settle) (o : PosOrder)
      → settle_order auth id dto db ≡ ok (o, db')
      → Step db db'
  void_step :
      {db db' : Db} (auth : Auth) (id : Key) (reason : String) (out : VoidOutcome)
      → void_order auth id reason db ≡ ok (out, db')
      → Step db db'
  decide_step :
      {db db' : Db} (auth : Auth) (id : Key) (approve : Bool) (note : Option String)
      (r : ApprovalRequest)
      → decide auth id approve note db ≡ ok (r, db')
      → Step db db'

pub data Steps : Db → Db → Type 0 where
  still : {db : Db} → Steps db db
  after : {a b c : Db} → Step a b → Steps b c → Steps a c

Step-Effect : {db db' : Db} → Step db db' → OrderEffect db db'
Step-Effect {db} {db'} (create_step auth dto o h) =
    let done = create_order-Opened auth dto db o db' h in
    opened o (ap (λ x. x.id) done.row) (ap (λ x. x.status) done.row) done.orders done.ids
Step-Effect {db} {db'} (settle_step auth id dto o h) =
    let done = settle_order-Settled auth id dto db o db' h in
    moved done.order (settled_row done.now dto)
      (find-Member (is_order auth id) db.orders done.order done.named)
      (λ x. record {
        id = refl;
        tenant_id = refl;
        property_id = refl;
        order_number = refl;
        total_minor = refl;
        business_date = refl;
      })
      (subst (λ s. OrderMove s settled) (sym done.was_open) settle_move) done.orders done.ids
Step-Effect {db} {db'} (void_step auth id reason out h) =
    let done = void_order-Voided auth id reason db out db' h in
    let here = find-Member (is_order auth id) db.orders done.order done.named in
    elim done.written [
      | inl (_, _, rows, _) ↦
          moved done.order (voided_row reason) here
            (λ x. record {
              id = refl;
              tenant_id = refl;
              property_id = refl;
              order_number = refl;
              total_minor = refl;
              business_date = refl;
            })
            (subst (λ s. OrderMove s voided) (sym done.was_open) void_move) rows done.ids
      | inr (_, _, rows, _) ↦
          moved done.order (awaiting_row db.next_id reason) here
            (λ x. record {
              id = refl;
              tenant_id = refl;
              property_id = refl;
              order_number = refl;
              total_minor = refl;
              business_date = refl;
            })
            (subst (λ s. OrderMove s void_pending) (sym done.was_open) ask_move) rows done.ids
    ]
Step-Effect {db} {db'} (decide_step auth id approve note r h) =
    decide-OrderEffect auth id approve note db r db' h

-- However orders are opened, settled, voided and decided on, by whomever, ids of orders stay different,
-- no order is lost, each keeps its id, tenant, property, number, total and business date, and its
-- state moves only from OPEN to SETTLED, VOIDED or VOID_PENDING, and from there to VOIDED or OPEN.
pub Steps-OrderFate :
    {db db' : Db}
    → Steps db db'
    → OrdersSafe db
    → OrdersSafe db' × ((o : PosOrder) → Member o db.orders → OrderFate o db')
Steps-OrderFate {db} still safe = (safe, λ o here. kept-Fate o db here)
Steps-OrderFate (after s later) safe =
    let e = Step-Effect s in
    let (end, fates) = Steps-OrderFate later (OrderEffect-OrdersSafe e safe) in
    (
      end,
      λ o here.
          let first = OrderEffect-Fate e safe o here in
          OrderFate-trans first (fates first.later first.found),
    )

-- A state that no move leaves.
abbrev pub IsFinal : OrderStatus → Type 0
IsFinal s = (s ≡ settled) ⊎ (s ≡ voided)

no_move : {s t : OrderStatus} → OrderMove s t → IsFinal s → ⊥
no_move settle_move f = ground arith
no_move void_move f = ground arith
no_move ask_move f = ground arith
no_move approve_move f = ground arith
no_move reject_move f = ground arith

final_path : {s t : OrderStatus} → OrderPath s t → IsFinal s → t ≡ s
final_path rest f = refl
final_path (then_move p m) f =
    let same = final_path p f in absurd (no_move m (subst IsFinal (sym same) f))

-- An order that is settled or voided stays so, and with the same total, whatever is done later.
pub final_for_good :
    {db db' : Db}
    → Steps db db'
    → OrdersSafe db
    → (o : PosOrder) → Member o db.orders
    → IsFinal o.status
    → (later : PosOrder) × Member later db'.orders
      × (later.id ≡ o.id)
      × (later.total_minor ≡ o.total_minor)
      × (later.status ≡ o.status)
final_for_good steps safe o here f =
    let fate = (Steps-OrderFate steps safe).1 o here in
    (fate.later, fate.found, fate.same.id, fate.same.total_minor, final_path fate.path f)
