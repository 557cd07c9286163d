-- ===== src/Reservations/Leaving.antt =====
-- Check-outs: what they ask for, and what they do.
use lodgiva.Common.{
  ◌≤◌, true, false, some, find, is_id, String, ◌≡◌, ap, sym, ◌∙◌, subst, arith, ◌==◌, update_where,
  All, ◌⊎◌, inl, inr, Bool-cases, Option-cases,
}
use lodgiva.Common.Int.{ℤ, pos, ltb_ℤ}
use lodgiva.Common.Members.{Member, filter-Member, last-Member}
use lodgiva.Common.Search.{find-eq-some}
use lodgiva.Store.{
  Key, IsoDate, checked_in, Property, Reservation, ReservationRoom, Folio, Db, is_open_folio, ok,
  Result-cases,
}
use lodgiva.Access.{Auth, property_or_throw}
use lodgiva.ReservationState.{same_state}
use lodgiva.Folios.{get_folio_or_throw, is_reachable, balance_minor}
use lodgiva.Folios.Frame.{LedgerOnly, LedgerOnly-refl}
use lodgiva.Reservations.Rooms.{get_or_throw, room_of, first_folio}
use lodgiva.Reservations.Departure.{
  CheckOut, post_stayed_nights, post_stayed_on, charged_nights, night_text, room_of_stay,
  close_folio, departed_row, checked_out_row,
}
use lodgiva.Reservations.Nights.{Charged, post_nights-LedgerOnly}
use lodgiva.Reservations.Effects.{Named, get_or_throw-Named, room_of-Member}
use lodgiva.Reservations.InHouse.{property_or_throw-eq}

pub get_folio_or_throw-eq :
    (auth : Auth) (id : Key) (db mid : Db) (folio : Folio)
    → get_folio_or_throw auth id db ≡ ok (folio, mid)
    → mid ≡ db
unfolding get_folio_or_throw
get_folio_or_throw-eq auth id db mid folio h = ground arith

-- Posting the nights of a stay changes the ledger only.
post_stayed_on-LedgerOnly :
    (iso : IsoDate → String) (auth : Auth) (res : Reservation) (property : Property) (row : Folio)
    (db db' : Db)
    → post_stayed_on iso auth res property row db ≡ ok (tt, db')
    → LedgerOnly db db'
unfolding post_stayed_on
post_stayed_on-LedgerOnly iso auth res property row db db' h =
    elim (Result-cases (get_folio_or_throw auth row.id db)) [
      | inr (e, failed) ↦ absurd (ground arith)
      | inl ((folio, d1), r1) ↦
          let e1 = get_folio_or_throw-eq auth row.id db d1 folio r1 in
          elim (Bool-cases (is_open_folio folio.status)) [
            | inr shut ↦
                let same : db' ≡ d1 = ground arith in
                subst (LedgerOnly db) (sym (same ∙ e1)) (LedgerOnly-refl db)
            | inl unlocked ↦ elim (Result-cases (room_of res.id d1)) [
              | inr (e, failed) ↦ absurd (ground arith)
              | inl ((stay, d2), r2) ↦
                  let e2 = (room_of-Member res.id d1 d2 stay r2).0 in
                  let room = room_of_stay stay.room_id d2.rooms in
                  let kept =
                    (post_nights-LedgerOnly auth folio stay (night_text iso room)
                      property.business_date (charged_nights res property.business_date) d2 db'
                      (ground arith)).0 in
                  subst (λ d. LedgerOnly d db') (e2 ∙ e1) kept
            ]
          ]
    ]

pub post_stayed_nights-LedgerOnly :
    (iso : IsoDate → String) (auth : Auth) (id : Key) (db db' : Db)
    → post_stayed_nights iso auth id db ≡ ok (tt, db')
    → LedgerOnly db db'
unfolding post_stayed_nights
post_stayed_nights-LedgerOnly iso auth id db db' h = elim (Result-cases (get_or_throw auth id db)) [
  | inr (e, failed) ↦ absurd (ground arith)
  | inl ((res, d1), r1) ↦
      let e1 = (get_or_throw-Named auth id db d1 res r1).0 in
      elim (Bool-cases (same_state res.status checked_in)) [
        | inr out ↦
            let same : db' ≡ d1 = ground arith in
            subst (LedgerOnly db) (sym (same ∙ e1)) (LedgerOnly-refl db)
        | inl inside ↦ elim (Result-cases (property_or_throw res.property_id d1)) [
          | inr (e, failed) ↦ absurd (ground arith)
          | inl ((property, d2), r2) ↦
              let e2 = property_or_throw-eq res.property_id d1 d2 property r2 in
              elim (Option-cases (first_folio res.id d2)) [
                | inl missing ↦
                    let same : db' ≡ d2 = ground arith in
                    subst (LedgerOnly db) (sym (same ∙ e2 ∙ e1)) (LedgerOnly-refl db)
                | inr (folio, found) ↦
                    subst (λ d. LedgerOnly d db') (e2 ∙ e1)
                      (post_stayed_on-LedgerOnly iso auth res property folio d2 db' (ground arith))
              ]
        ]
      ]
]

-- The ledger that a stay is settled on: the folio of the reservation that was created first, which the
-- caller reaches, and the property of the reservation.
pub record Account (auth : Auth) (res : Reservation) (db : Db) (folio : Folio) (property : Property)
    : Type 0 where
  pub row : Folio
  pub first : first_folio res.id db ≡ some row
  pub row_found : Member row db.folios
  pub its_stay : is_id row.reservation_id res.id ≡ true
  pub reached : find (is_reachable auth row.id) db.folios ≡ some folio
  pub same_id : folio.id ≡ row.id
  pub its_property : find (λ p. p.id == res.property_id) db.properties ≡ some property

get_folio_or_throw-row :
    (auth : Auth) (id : Key) (db mid : Db) (folio : Folio)
    → get_folio_or_throw auth id db ≡ ok (folio, mid)
    → (find (is_reachable auth id) db.folios ≡ some folio) × (folio.id ≡ id)
unfolding get_folio_or_throw
get_folio_or_throw-row auth id db mid folio h =
    elim (Option-cases (find (is_reachable auth id) db.folios)) [
      | inl missing ↦ absurd (ground arith)
      | inr (f, found) ↦
          let same : f ≡ folio = ground arith in
          let test = find-eq-some _ db.folios f found in
          (found ∙ ap (λ x. some x) same, subst (λ x. x.id ≡ id) same (ground arith))
    ]

property_or_throw-row :
    (id : Key) (db mid : Db) (property : Property)
    → property_or_throw id db ≡ ok (property, mid)
    → find (λ p. p.id == id) db.properties ≡ some property
unfolding property_or_throw
property_or_throw-row id db mid property h =
    elim (Option-cases (find (λ p. p.id == id) db.properties)) [
      | inl missing ↦ absurd (ground arith)
      | inr (p, found) ↦ let same : p ≡ property = ground arith in found ∙ ap (λ x. some x) same
    ]

pub get_folio_or_throw-Account :
    (auth : Auth) (res : Reservation) (db mid end : Db) (row folio : Folio) (property : Property)
    → property_or_throw res.property_id db ≡ ok (property, mid)
    → first_folio res.id db ≡ some row
    → get_folio_or_throw auth row.id db ≡ ok (folio, end)
    → Account auth res db folio property
get_folio_or_throw-Account auth res db mid end row folio property asked first reached =
    let (here, its) =
      filter-Member (λ f. is_id f.reservation_id res.id) db.folios row (last-Member _ row first) in
    let (found, same) = get_folio_or_throw-row auth row.id db end folio reached in
    record {
      row = row;
      first = first;
      row_found = here;
      its_stay = its;
      reached = found;
      same_id = same;
      its_property = property_or_throw-row res.property_id db mid property asked;
    }

-- A guest has left: the nights that the stay is charged for stand on the folio, its balance is not
-- positive or the caller lets it stand, and that folio is closed.
pub record SettledOut (iso : IsoDate → String) (auth : Auth) (id : Key) (dto : CheckOut)
    (db db' : Db) : Type 0 where
  pub res : Reservation
  pub stay : ReservationRoom
  pub folio : Folio
  pub property : Property
  pub before : Db
  pub balance : ℤ
  pub named : Named auth id db res
  pub stay_found : Member stay db.reservation_rooms
  pub its : stay.reservation_id ≡ res.id
  pub account : Account auth res db folio property
  pub was_in_house : res.status ≡ checked_in
  pub ledger : LedgerOnly db before
  pub charged :
      All
        (Charged auth folio stay
          (night_text iso (room_of_stay stay.room_id db.rooms))
          property.business_date
          before)
        (charged_nights res property.business_date)
  pub its_balance : balance_minor folio.id before ≡ ok (balance, before)
  pub asked : (ltb_ℤ (pos 0) balance ≡ false) ⊎ (dto.allow_outstanding_balance ≡ true)
  pub folios : db'.folios ≡ (close_folio folio.id before).folios
  pub entries : db'.entries ≡ before.entries
  pub reservations :
      db'.reservations ≡ update_where (λ r. r.id == res.id) checked_out_row db.reservations
  pub stays :
      db'.reservation_rooms ≡ update_where (λ s. s.id == stay.id) departed_row db.reservation_rooms
  pub counter : db.next_id ≤ db'.next_id
