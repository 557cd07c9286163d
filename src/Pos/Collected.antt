-- ===== src/Pos/Collected.antt =====
-- Where the money of an order goes: to a room, into a drawer, or elsewhere.
use lodgiva.Common.{
  ◌≤◌, Option, some, ◌∷◌, ◌≡◌, ◌≢◌, refl, sym, ◌∙◌, subst, arith, ◌==◌, find, ◌&◌, ◌⊎◌, inl, inr,
  Option-cases, Bool, true, ◌&&◌, ap,
}
use lodgiva.Common.Int.{◌+ℤ◌}
use lodgiva.Common.Search.{find-eq-some}
use lodgiva.Common.Members.{Member, find-Member}
use lodgiva.Store.{
  Key, open_folio, Settlement, room_posting, cash, card, pos_terminal, transfer_in, payment_in,
  is_shift_open, Folio, CashierShift, Outlet, PosOrder, Db, ok, pure, ◌>>◌,
}
use lodgiva.Access.{Auth}
use lodgiva.Folios.{is_reachable, post_charge_tx}
use lodgiva.Folios.Charges.{Grows, charged, post_charge_tx-Grows}
use lodgiva.Folios.Frame.{post_charge_tx-LedgerOnly}
use lodgiva.Cashiering.{expected_in, movement_row}
use lodgiva.Cashiering.Drawer.{expected_in-cons}
use lodgiva.Pos.Settlement.{Settle, order_charge, post_to_room, put_in_drawer, collect}

module _ (auth : Auth) (order : PosOrder) (outlet : Outlet) (db : Db) (db' : Db) where
  -- The order is charged to an open folio of its property, within reach; no drawer changes.
  pub record PostedToRoom (folio_id : Option Key) : Type 0 where
    pub id : Key
    pub folio : Folio
    pub named : folio_id ≡ some id
    pub reached : find (is_reachable auth id) db.folios ≡ some folio
    pub same_property : folio.property_id ≡ order.property_id
    pub unlocked : folio.status ≡ open_folio
    pub ledger :
        Grows folio.id (charged folio (order_charge outlet order) db) db.entries db'.entries
    pub drawers : db'.movements ≡ db.movements

  -- The total goes into the drawer of an open shift at the property; no folio changes.
  pub record PutInDrawer (shift_id : Option Key) : Type 0 where
    pub shift : CashierShift
    pub named : shift_id ≡ some shift.id
    pub found : Member shift db.shifts
    pub same_tenant : shift.tenant_id ≡ auth.tenant_id
    pub same_property : shift.property_id ≡ order.property_id
    pub unlocked : is_shift_open shift.status ≡ true
    pub here :
        expected_in shift.id db'.movements ≡ order.total_minor +ℤ expected_in shift.id db.movements
    pub elsewhere :
        (other : Key)
        → shift.id ≢ other
        → expected_in other db'.movements ≡ expected_in other db.movements
    pub ledger : db'.entries ≡ db.entries

  -- Where the money of an order went.
  abbrev pub Collected : Settle → Type 0
  Collected dto =
      ((dto.settlement ≡ room_posting) × PostedToRoom dto.folio_id)
      ⊎ ((dto.settlement ≡ cash) × PutInDrawer dto.shift_id)
      ⊎ ((dto.settlement ≢ room_posting)
          × (dto.settlement ≢ cash)
          × (db'.entries ≡ db.entries)
          × (db'.movements ≡ db.movements))

module _ (auth : Auth) (order : PosOrder) (outlet : Outlet) (db : Db) where
  charge_posted :
      (folio : Folio) (u : Unit {0}) (db' : Db)
      → folio.status ≡ open_folio
      → (post_charge_tx auth folio (order_charge outlet order) >> pure tt) db ≡ ok (u, db')
      → Grows folio.id (charged folio (order_charge outlet order) db) db.entries db'.entries
        × (db'.movements ≡ db.movements)
        × (db'.orders ≡ db.orders)
        × (db.next_id ≤ db'.next_id)
  charge_posted folio u db' unlocked h =
      let c = order_charge outlet order in
      let (e, end, ran, grown) = (post_charge_tx-Grows auth folio c db).1 unlocked in
      let (e', end', ran', kept, _) = post_charge_tx-LedgerOnly auth folio c db unlocked in
      let same : end ≡ db' = ground (arith, ran) in
      let same' : end' ≡ db' = ground (arith, ran') in
      (
        subst (λ (d : Db). Grows folio.id (charged folio c db) db.entries d.entries) same grown,
        subst (λ (d : Db). d.movements ≡ db.movements) same' kept.movements,
        subst (λ (d : Db). d.orders ≡ db.orders) same' kept.orders,
        subst (λ (d : Db). db.next_id ≤ d.next_id) same' kept.ids,
      )

  post_to_room-Posted :
      (folio_id : Option Key) (u : Unit {0}) (db' : Db)
      → post_to_room auth order outlet folio_id db ≡ ok (u, db')
      → PostedToRoom auth order outlet db db' folio_id
        × (db'.orders ≡ db.orders)
        × (db.next_id ≤ db'.next_id)
  unfolding post_to_room
  post_to_room-Posted folio_id u db' h = elim (Option-cases folio_id) [
    | inl missing ↦ absurd (ground (arith, missing))
    | inr (id, named) ↦ elim (Option-cases (find (is_reachable auth id) db.folios)) [
      | inl missing ↦ absurd (ground (arith, named, missing))
      | inr (folio, reached) ↦
          let facts : (folio.property_id ≡ order.property_id)
              × (folio.status ≡ open_folio)
              × ((post_charge_tx auth folio (order_charge outlet order) >> pure tt) db
                  ≡ ok (u, db')) =
            ground (arith, named, reached) in
          let (grown, drawers, orders, ids) = charge_posted folio u db' facts.1 facts.2 in
          (
            record {
              id = id;
              folio = folio;
              named = named;
              reached = reached;
              same_property = facts.0;
              unlocked = facts.1;
              ledger = grown;
              drawers = drawers;
            },
            orders,
            ids,
          )
    ]
  ]

  put_in_drawer-Put :
      (shift_id : Option Key) (u : Unit {0}) (db' : Db)
      → put_in_drawer auth order outlet shift_id db ≡ ok (u, db')
      → PutInDrawer auth order outlet db db' shift_id
        × (db'.orders ≡ db.orders)
        × (db.next_id ≤ db'.next_id)
  unfolding put_in_drawer
  put_in_drawer-Put shift_id u db' h = elim (Option-cases shift_id) [
    | inl missing ↦ absurd (ground (arith, missing))
    | inr (id, named) ↦
        let test : CashierShift → Bool = λ s.
          s.id == id
          && (s.tenant_id == auth.tenant_id
              && (s.property_id == order.property_id && is_shift_open s.status)) in
        elim (Option-cases (find test db.shifts)) [
          | inl missing ↦ absurd (ground (arith, named, missing))
          | inr (shift, found) ↦
              let row =
                movement_row auth shift.id payment_in order.total_minor (some order.order_number)
                  (some ("POS cash settlement — " & outlet.name)) db.next_id in
              let facts : (db'.movements ≡ row ∷ db.movements)
                  × (db'.entries ≡ db.entries)
                  × (db'.orders ≡ db.orders)
                  × (db.next_id ≤ db'.next_id) =
                ground (arith, named, found) in
              let passed : (shift.id ≡ id)
                  × (shift.tenant_id ≡ auth.tenant_id)
                  × (shift.property_id ≡ order.property_id)
                  × (is_shift_open shift.status ≡ true) =
                ground (arith, find-eq-some test db.shifts shift found) in
              (
                record {
                  shift = shift;
                  named = named ∙ ap some (sym passed.0);
                  found = find-Member test db.shifts shift found;
                  same_tenant = passed.1;
                  same_property = passed.2;
                  unlocked = passed.3;
                  here = rw facts.0 ((expected_in-cons shift.id row db.movements).0 refl);
                  elsewhere = λ other n. rw facts.0 ((expected_in-cons other row db.movements).1 n);
                  ledger = facts.1;
                },
                facts.2,
                facts.3,
              )
        ]
  ]

  Settlement-cases :
      (s : Settlement) → (s ≡ room_posting) ⊎ (s ≡ cash) ⊎ ((s ≢ room_posting) × (s ≢ cash))
  Settlement-cases room_posting = inl refl
  Settlement-cases cash = inr (inl refl)
  Settlement-cases card = inr (inr (λ e. cc, λ e. cc))
  Settlement-cases pos_terminal = inr (inr (λ e. cc, λ e. cc))
  Settlement-cases transfer_in = inr (inr (λ e. cc, λ e. cc))

  pub collect-Collected :
      (dto : Settle) (u : Unit {0}) (db' : Db)
      → collect auth order outlet dto db ≡ ok (u, db')
      → Collected auth order outlet db db' dto
        × (db'.orders ≡ db.orders)
        × (db.next_id ≤ db'.next_id)
  unfolding collect
  collect-Collected dto u db' h = elim (Settlement-cases dto.settlement) [
    | inl room ↦
        let (posted, orders, ids) = post_to_room-Posted dto.folio_id u db' (ground (arith, room)) in
        (inl (room, posted), orders, ids)
    | inr (inl drawer) ↦
        let (put, orders, ids) = put_in_drawer-Put dto.shift_id u db' (ground (arith, drawer)) in
        (inr (inl (drawer, put)), orders, ids)
    | inr (inr (n, m)) ↦
        let same : db' ≡ db = ground (arith, n, m) in
        (
          inr (inr (n, m, ap (λ d. d.entries) same, ap (λ d. d.movements) same)),
          ap (λ d. d.orders) same,
          omega (arith, ap (λ d. d.next_id) same),
        )
  ]
