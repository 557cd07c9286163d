-- ===== src/Reservations/Settling.antt =====
-- The second transaction of a check-out: what it asks for, and what it does.
use lodgiva.Common.{
  ℕ, ◌≤◌, true, false, ◌&&◌, not, Option, List, String, ◌&◌, ◌≡◌, sym, ap, ◌∙◌, subst, arith, ◌==◌,
  update_where, inl, inr, Option-cases,
}
use lodgiva.Common.Int.{ℤ, pos, ltb_ℤ}
use lodgiva.Common.Members.{Member}
use lodgiva.Store.{
  Key, IsoDate, ReservationState, checked_in, checked_out, Property, Reservation, ReservationRoom,
  Room, Folio, Db, ok, Result-cases,
}
use lodgiva.Access.{Auth, log, emit, property_or_throw}
use lodgiva.ReservationState.{can_transition}
use lodgiva.Folios.{get_folio_or_throw, balance_minor}
use lodgiva.Reservations.Rooms.{get_or_throw, room_of, first_folio, update_stay}
use lodgiva.Reservations.Departure.{
  CheckOut, settle, settle_rest, settle_out, post_nights, vacate, charged_nights, night_text,
  room_of_stay, close_folio, departed_row, checked_out_row,
}
use lodgiva.Reservations.Nights.{post_nights-LedgerOnly}
use lodgiva.Reservations.Effects.{Named, get_or_throw-Named, room_of-Member}
use lodgiva.Reservations.Leaving.{
  Account, get_folio_or_throw-Account, get_folio_or_throw-eq, SettledOut,
}
use lodgiva.Reservations.InHouse.{vacate-keeps, property_or_throw-eq}

pub balance_minor-eq :
    (id : Key) (db mid : Db) (balance : ℤ) → balance_minor id db ≡ ok (balance, mid) → mid ≡ db
unfolding balance_minor
balance_minor-eq id db mid balance h = ground arith

pub settle_out_writes :
    (auth : Auth) (res : Reservation) (stay : ReservationRoom) (room : Option Room) (folio : Folio)
    (date : IsoDate) (notes : String) (balance : ℤ) (db : Db) (r : Reservation) (db' : Db)
    → settle_out auth res stay room folio date notes balance db ≡ ok (r, db')
    → (db'.folios ≡ (close_folio folio.id db).folios)
      × (db'.entries ≡ db.entries)
      × (db'.reservations ≡ update_where (λ r. r.id == res.id) checked_out_row db.reservations)
      × (db'.reservation_rooms
          ≡ update_where (λ s. s.id == stay.id) departed_row db.reservation_rooms)
      × (db.next_id ≤ db'.next_id)
unfolding settle_out log emit
settle_out_writes auth res stay room folio date notes balance db r db' h =
    let cleared = update_stay stay.id departed_row (close_folio folio.id db) in
    elim (Result-cases (vacate auth res.property_id date notes room cleared)) [
      | inr (e, failed) ↦ absurd (ground arith)
      | inl ((u, mid), ran) ↦
          let kept = vacate-keeps auth res.property_id date notes room cleared mid u ran in
          (
            ground (arith, kept.4),
            ground (arith, kept.5),
            ground (arith, kept.0),
            ground (arith, kept.1),
            ground (arith, kept.3),
          )
    ]

can_check_out : (s : ReservationState) → can_transition s checked_out ≡ true → s ≡ checked_in
unfolding can_transition
can_check_out s h = ground arith

-- The part of `settle` after its look-ups.
settle_end :
    (iso : IsoDate → String) (auth : Auth) (id : Key) (dto : CheckOut) (res : Reservation)
    (stay : ReservationRoom) (folio : Folio) (property : Property) (notes : String)
    (db before mid : Db) (balance : ℤ) (r : Reservation) (db' : Db)
    → Named auth id db res
    → Member stay db.reservation_rooms
    → stay.reservation_id ≡ res.id
    → Account auth res db folio property
    → can_transition res.status checked_out ≡ true
    → post_nights auth folio stay
        (night_text iso (room_of_stay stay.room_id db.rooms))
        property.business_date
        (charged_nights res property.business_date)
        db
      ≡ ok (tt, before)
    → balance_minor folio.id before ≡ ok (balance, mid)
    → (ltb_ℤ (pos 0) balance && not dto.allow_outstanding_balance) ≡ false
    → settle_out auth res stay
        (room_of_stay stay.room_id db.rooms)
        folio
        property.business_date
        notes
        balance
        mid
      ≡ ok (r, db')
    → SettledOut iso auth id dto db db'
settle_end iso auth id dto res stay folio property notes db before mid balance r db' named
      stay_found its account legal posted due asked left =
    let e = balance_minor-eq folio.id before mid balance due in
    let room = room_of_stay stay.room_id db.rooms in
    let (kept, done) =
      post_nights-LedgerOnly auth folio stay (night_text iso room) property.business_date
        (charged_nights res property.business_date) db before posted in
    let (fs, es, rs, ss, ids) =
      settle_out_writes auth res stay room folio property.business_date notes balance before r db' (
        subst
          (λ d.
            settle_out auth res stay room folio property.business_date notes balance d
            ≡ ok (r, db'))
          e left) in
    record {
      res = res;
      stay = stay;
      folio = folio;
      property = property;
      before = before;
      balance = balance;
      named = named;
      stay_found = stay_found;
      its = its;
      account = account;
      was_in_house = can_check_out res.status legal;
      ledger = kept;
      charged = done;
      its_balance = due ∙ ap (λ d. ok (balance, d)) e;
      asked = ground (arith, asked);
      folios = fs;
      entries = es;
      reservations =
          rs ∙ ap (λ l. update_where (λ r. r.id == res.id) checked_out_row l) kept.reservations;
      stays = ss ∙ ap (λ l. update_where (λ s. s.id == stay.id) departed_row l) kept.stays;
      counter = omega (arith, ids, kept.ids);
    }

settle_tail :
    (iso : IsoDate → String) (spell : List ℕ → String) (auth : Auth) (id : Key) (dto : CheckOut)
    (res : Reservation) (stay : ReservationRoom) (folio : Folio) (property : Property) (db : Db)
    (r : Reservation) (db' : Db)
    → Named auth id db res
    → Member stay db.reservation_rooms
    → stay.reservation_id ≡ res.id
    → Account auth res db folio property
    → can_transition res.status checked_out ≡ true
    → settle_rest iso spell auth dto res stay folio property db ≡ ok (r, db')
    → SettledOut iso auth id dto db db'
unfolding settle_rest
settle_tail iso spell auth id dto res stay folio property db r db' named stay_found its account
      legal h =
    let room = room_of_stay stay.room_id db.rooms in
    elim (Result-cases (
      post_nights auth folio stay (night_text iso room) property.business_date
        (charged_nights res property.business_date) db)) [
          | inr (e, failed) ↦ absurd (ground arith)
          | inl ((u, before), posted) ↦ elim (Result-cases (balance_minor folio.id before)) [
            | inr (e, failed) ↦ absurd (ground arith)
            | inl ((balance, mid), due) ↦
                let notes = "Post-checkout turnover (" & spell res.confirmation_code & ")" in
                settle_end iso auth id dto res stay folio property notes db before mid balance r db'
                  named stay_found its account legal posted due (ground arith) (ground arith)
          ]
        ]

pub settle-SettledOut :
    (iso : IsoDate → String) (spell : List ℕ → String) (auth : Auth) (id : Key) (dto : CheckOut)
    (db : Db) (r : Reservation) (db' : Db)
    → settle iso spell auth id dto db ≡ ok (r, db')
    → SettledOut iso auth id dto db db'
unfolding settle
settle-SettledOut iso spell auth id dto db r db' h = elim (Result-cases (get_or_throw auth id db)) [
  | inr (e, failed) ↦ absurd (ground arith)
  | inl ((res, d1), r1) ↦ elim (Result-cases (property_or_throw res.property_id d1)) [
    | inr (e, failed) ↦ absurd (ground arith)
    | inl ((property, d2), r2) ↦ elim (Option-cases (first_folio res.id d2)) [
      | inl missing ↦ absurd (ground arith)
      | inr (row, found) ↦ elim (Result-cases (get_folio_or_throw auth row.id d2)) [
        | inr (e, failed) ↦ absurd (ground arith)
        | inl ((folio, d3), r3) ↦ elim (Result-cases (room_of res.id d3)) [
          | inr (e, failed) ↦ absurd (ground arith)
          | inl ((stay, d4), r4) ↦
              let (e1, named) = get_or_throw-Named auth id db d1 res r1 in
              let e2 = property_or_throw-eq res.property_id d1 d2 property r2 in
              let e3 = get_folio_or_throw-eq auth row.id d2 d3 folio r3 in
              let (e4, stay_found, its) = room_of-Member res.id d3 d4 stay r4 in
              let same3 : d3 ≡ db = e3 ∙ e2 ∙ e1 in
              let legal : can_transition res.status checked_out ≡ true = ground arith in
              let rest : settle_rest iso spell auth dto res stay folio property d4 ≡ ok (r, db') =
                ground arith in
              settle_tail iso spell auth id dto res stay folio property db r db' named
                (subst (λ d. Member stay d.reservation_rooms) same3 stay_found) its
                (subst (λ d. Account auth res d folio property) (e2 ∙ e1)
                  (get_folio_or_throw-Account auth res d2 d2 d3 row folio property
                    (subst (λ d. property_or_throw res.property_id d ≡ ok (property, d2)) (sym e2)
                      r2)
                    found r3))
                legal
                (subst (λ d. settle_rest iso spell auth dto res stay folio property d ≡ ok (r, db'))
                  (e4 ∙ same3) rest)
        ]
      ]
    ]
  ]
]
