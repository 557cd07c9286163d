-- ===== src/Folios/Frame.antt =====
-- What a posted charge leaves as it was.
use lodgiva.Common.{◌+◌, ◌≤◌, any, Bool, true, false, List, [], ◌∷◌, ◌≡◌, refl, ◌∙◌, arith}
use lodgiva.Store.{Folio, FolioEntry, open_folio, Db, ok, when}
use lodgiva.Access.{Auth, log, emit}
use lodgiva.Tax.{TaxLine, compute}
use lodgiva.Folios.Entries.{create_entry}
use lodgiva.Folios.Operations.{
  Charge, tax_input, tax_row, charge_row, post_tax_lines, post_charge_tx, announce,
}

-- Only the ledger, the events and the counter have changed.
pub record LedgerOnly (db db' : Db) : Type 0 where
  pub reservations : db'.reservations ≡ db.reservations
  pub stays : db'.reservation_rooms ≡ db.reservation_rooms
  pub rooms : db'.rooms ≡ db.rooms
  pub folios : db'.folios ≡ db.folios
  pub properties : db'.properties ≡ db.properties
  pub allocations : db'.allocations ≡ db.allocations
  pub tax_rules : db'.tax_rules ≡ db.tax_rules
  pub orders : db'.orders ≡ db.orders
  pub movements : db'.movements ≡ db.movements
  pub shifts : db'.shifts ≡ db.shifts
  pub approvals : db'.approvals ≡ db.approvals
  pub audit_runs : db'.audit_runs ≡ db.audit_runs
  pub ids : db.next_id ≤ db'.next_id
  pub standing : (p : FolioEntry → Bool) → any p db.entries ≡ true → any p db'.entries ≡ true

pub LedgerOnly-refl : (db : Db) → LedgerOnly db db
LedgerOnly-refl db = record {
  reservations = refl;
  stays = refl;
  rooms = refl;
  folios = refl;
  properties = refl;
  allocations = refl;
  tax_rules = refl;
  orders = refl;
  movements = refl;
  shifts = refl;
  approvals = refl;
  audit_runs = refl;
  ids = omega arith;
  standing = λ p h. h;
}

pub LedgerOnly-trans : {a b c : Db} → LedgerOnly a b → LedgerOnly b c → LedgerOnly a c
LedgerOnly-trans f g = record {
  reservations = g.reservations ∙ f.reservations;
  stays = g.stays ∙ f.stays;
  rooms = g.rooms ∙ f.rooms;
  folios = g.folios ∙ f.folios;
  properties = g.properties ∙ f.properties;
  allocations = g.allocations ∙ f.allocations;
  tax_rules = g.tax_rules ∙ f.tax_rules;
  orders = g.orders ∙ f.orders;
  movements = g.movements ∙ f.movements;
  shifts = g.shifts ∙ f.shifts;
  approvals = g.approvals ∙ f.approvals;
  audit_runs = g.audit_runs ∙ f.audit_runs;
  ids = omega (arith, f.ids, g.ids);
  standing = λ p h. g.standing p (f.standing p h);
}

-- A new row of the ledger.
posted :
    (db : Db) (e : FolioEntry)
    → LedgerOnly db (record db { next_id = db.next_id + 1; entries = e ∷ db.entries })
posted db e = record {
  reservations = refl;
  stays = refl;
  rooms = refl;
  folios = refl;
  properties = refl;
  allocations = refl;
  tax_rules = refl;
  orders = refl;
  movements = refl;
  shifts = refl;
  approvals = refl;
  audit_runs = refl;
  ids = omega arith;
  standing = λ p h. ground (arith, h);
}

post_tax_lines-LedgerOnly :
    (auth : Auth) (folio : Folio) (c : Charge) (lines : List TaxLine) (db : Db)
    → (db' : Db) × (post_tax_lines auth folio c lines db ≡ ok (tt, db')) × LedgerOnly db db'
unfolding post_tax_lines create_entry
post_tax_lines-LedgerOnly auth folio c [] db = (db, refl, LedgerOnly-refl db)
post_tax_lines-LedgerOnly auth folio c (line ∷ lines) db =
    let e = tax_row auth folio c line db.next_id in
    let mid : Db = record db { next_id = db.next_id + 1; entries = e ∷ db.entries } in
    let (end, ran, kept) = post_tax_lines-LedgerOnly auth folio c lines mid in
    (end, ran, LedgerOnly-trans (posted db e) kept)

announce-LedgerOnly :
    (auth : Auth) (folio : Folio) (c : Charge) (e : FolioEntry) (db : Db)
    → (db' : Db) × (announce auth folio c e db ≡ ok (e, db')) × LedgerOnly db db'
unfolding announce log emit
announce-LedgerOnly auth folio c e db = (
  _,
  refl,
  record {
    reservations = refl;
    stays = refl;
    rooms = refl;
    folios = refl;
    properties = refl;
    allocations = refl;
    tax_rules = refl;
    orders = refl;
    movements = refl;
    shifts = refl;
    approvals = refl;
    audit_runs = refl;
    ids = omega arith;
    standing = λ p h. h;
  },
)

lines-LedgerOnly :
    (auth : Auth) (folio : Folio) (c : Charge) (taxed : Bool) (lines : List TaxLine) (db : Db)
    → (db' : Db) × (when taxed (post_tax_lines auth folio c lines) db ≡ ok (tt, db'))
      × LedgerOnly db db'
lines-LedgerOnly auth folio c true lines db = post_tax_lines-LedgerOnly auth folio c lines db
lines-LedgerOnly auth folio c false lines db = (db, refl, LedgerOnly-refl db)

-- A charge on an open folio is posted, changes the ledger only, and its row stands there.
pub post_charge_tx-LedgerOnly :
    (auth : Auth) (folio : Folio) (c : Charge) (db : Db)
    → folio.status ≡ open_folio
    → (e : FolioEntry) × (db' : Db) × (post_charge_tx auth folio c db ≡ ok (e, db'))
      × LedgerOnly db db'
      × ((p : FolioEntry → Bool)
          → p (charge_row auth folio c db.next_id) ≡ true
          → any p db'.entries ≡ true)
unfolding post_charge_tx create_entry
post_charge_tx-LedgerOnly auth folio c db h =
    let row = charge_row auth folio c db.next_id in
    let mid : Db = record db { next_id = db.next_id + 1; entries = row ∷ db.entries } in
    let lines = (compute db.tax_rules (tax_input folio c)).lines in
    let (end, ran, kept) = lines-LedgerOnly auth folio c c.apply_taxes lines mid in
    let (last, told, same) = announce-LedgerOnly auth folio c row end in
    (
      row,
      last,
      ground (arith, h, ran, told),
      LedgerOnly-trans (posted db row) (LedgerOnly-trans kept same),
      λ p hit. same.standing p (kept.standing p (ground (arith, hit))),
    )
