-- ===== src/Pos/Life/Effects.antt =====
-- What an operation may do to the orders, and what that keeps.
use lodgiva.Common.{
  ℕ, ◌≤◌, ◌<◌, List, ◌∷◌, ◌≡◌, refl, sym, ◌∙◌, subst, arith, ◌==◌, update_where, inl, inr, All,
  Bool-cases,
}
use lodgiva.Common.Sorting.{All-map}
use lodgiva.Common.Members.{
  Member, All-Member, unique-Member, UniqueBy, UniqueBy-update_where, All-update_where,
}
use lodgiva.Reservations.House.Fate.{Member-update_where}
use lodgiva.Store.{OrderStatus, order_open, void_pending, settled, voided, PosOrder, Db}

-- The moves of an order.
pub data OrderMove : OrderStatus → OrderStatus → Type 0 where
  settle_move : OrderMove order_open settled
  void_move : OrderMove order_open voided
  ask_move : OrderMove order_open void_pending
  approve_move : OrderMove void_pending voided
  reject_move : OrderMove void_pending order_open

-- Moves one after the other.
pub data OrderPath (s : OrderStatus) : OrderStatus → Type 0 where
  rest : OrderPath s s
  then_move : {t u : OrderStatus} → OrderPath s t → OrderMove t u → OrderPath s u

pub OrderPath-append : {s t u : OrderStatus} → OrderPath s t → OrderPath t u → OrderPath s u
OrderPath-append p rest = p
OrderPath-append p (then_move q m) = then_move (OrderPath-append p q) m

-- What no operation changes of an order.
pub record SameOrder (o o' : PosOrder) : Type 0 where
  pub id : o'.id ≡ o.id
  pub tenant_id : o'.tenant_id ≡ o.tenant_id
  pub property_id : o'.property_id ≡ o.property_id
  pub order_number : o'.order_number ≡ o.order_number
  pub total_minor : o'.total_minor ≡ o.total_minor
  pub business_date : o'.business_date ≡ o.business_date

pub SameOrder-refl : (o : PosOrder) → SameOrder o o
SameOrder-refl o = record {
  id = refl;
  tenant_id = refl;
  property_id = refl;
  order_number = refl;
  total_minor = refl;
  business_date = refl;
}

pub SameOrder-trans : {a b c : PosOrder} → SameOrder a b → SameOrder b c → SameOrder a c
SameOrder-trans p q = record {
  id = q.id ∙ p.id;
  tenant_id = q.tenant_id ∙ p.tenant_id;
  property_id = q.property_id ∙ p.property_id;
  order_number = q.order_number ∙ p.order_number;
  total_minor = q.total_minor ∙ p.total_minor;
  business_date = q.business_date ∙ p.business_date;
}

-- Ids of orders are different and have been given out.
pub record OrdersSafe (db : Db) : Type 0 where
  pub unique : UniqueBy (λ o. o.id) db.orders
  pub given_out : All (λ o. o.id < db.next_id) db.orders

-- An operation leaves the orders, rewrites the rows of one id along a move, or opens an order.
pub data OrderEffect (db db' : Db) : Type 0 where
  untouched : db'.orders ≡ db.orders → db.next_id ≤ db'.next_id → OrderEffect db db'
  moved :
      (o : PosOrder) (f : PosOrder → PosOrder)
      → Member o db.orders
      → ((x : PosOrder) → SameOrder x (f x))
      → OrderMove o.status (f o).status
      → db'.orders ≡ update_where (λ x. x.id == o.id) f db.orders
      → db.next_id ≤ db'.next_id
      → OrderEffect db db'
  opened :
      (o : PosOrder)
      → o.id ≡ db.next_id
      → o.status ≡ order_open
      → db'.orders ≡ o ∷ db.orders
      → db.next_id < db'.next_id
      → OrderEffect db db'

grown : (l : List PosOrder) (n m : ℕ) → n ≤ m → All (λ o. o.id < n) l → All (λ o. o.id < m) l
grown l n m h = All-map (λ o. o.id < n) (λ o k. omega arith) l

pub OrderEffect-OrdersSafe : {db db' : Db} → OrderEffect db db' → OrdersSafe db → OrdersSafe db'
OrderEffect-OrdersSafe {db} {db'} (untouched same ids) safe = record {
  unique = rw same safe.unique;
  given_out = rw same (grown db.orders db.next_id db'.next_id ids safe.given_out);
}
OrderEffect-OrdersSafe {db} {db'} (moved o f found keeps move rows ids) safe = record {
  unique = rw rows (
      UniqueBy-update_where (λ x. x.id == o.id) f (λ x. x.id) (λ x. (keeps x).id) db.orders
        safe.unique);
  given_out = rw rows (
      All-update_where (λ x. x.id == o.id) f (λ x. x.id < db.next_id) (λ x. x.id < db'.next_id)
        (λ x h e. omega (arith, (keeps x).id)) (λ x h e. omega arith) db.orders safe.given_out);
}
OrderEffect-OrdersSafe {db} {db'} (opened o id status rows ids) safe = record {
  unique = rw rows (
    All-map (λ x. x.id < db.next_id) (λ x h e. absurd (omega (arith, id))) db.orders safe.given_out,
    safe.unique,
  );
  given_out =
      rw rows
        (omega (arith, id), grown db.orders db.next_id db'.next_id (omega arith) safe.given_out);
}

-- The row of an order is there still, and its state has come along the moves.
pub record OrderFate (o : PosOrder) (db' : Db) : Type 0 where
  pub later : PosOrder
  pub found : Member later db'.orders
  pub same : SameOrder o later
  pub path : OrderPath o.status later.status

pub OrderEffect-Fate :
    {db db' : Db}
    → OrderEffect db db'
    → OrdersSafe db
    → (x : PosOrder) → Member x db.orders
    → OrderFate x db'
OrderEffect-Fate (untouched same ids) safe x here = record {
  later = x;
  found = subst (Member x) (sym same) here;
  same = SameOrder-refl x;
  path = rest;
}
OrderEffect-Fate (opened o id status rows ids) safe x here = record {
  later = x;
  found = subst (Member x) (sym rows) (inr here);
  same = SameOrder-refl x;
  path = rest;
}
OrderEffect-Fate {db} {db'} (moved o f found keeps move rows ids) safe x here =
    let there = Member-update_where (λ x. x.id == o.id) f db.orders x here in
    elim (Bool-cases (x.id == o.id)) [
      | inl hit ↦
          let its : x ≡ o =
            All-Member (λ y. y.id ≡ o.id → y ≡ o) db.orders x
              (unique-Member (λ y. y.id) db.orders o safe.unique found) here
              (ground (arith, hit)) in
          record {
            later = f x;
            found = subst (Member (f x)) (sym rows) (rw hit at there);
            same = keeps x;
            path = then_move rest (subst (λ y. OrderMove y.status (f y).status) (sym its) move);
          }
      | inr miss ↦ record {
        later = x;
        found = subst (Member x) (sym rows) (rw miss at there);
        same = SameOrder-refl x;
        path = rest;
      }
    ]

pub kept-Fate : (o : PosOrder) (db : Db) → Member o db.orders → OrderFate o db
kept-Fate o db here = record { later = o; found = here; same = SameOrder-refl o; path = rest }

pub OrderFate-trans :
    {o : PosOrder} {db db' : Db} (a : OrderFate o db) (b : OrderFate a.later db') → OrderFate o db'
OrderFate-trans a b = record {
  later = b.later;
  found = b.found;
  same = SameOrder-trans a.same b.same;
  path = OrderPath-append a.path b.path;
}
