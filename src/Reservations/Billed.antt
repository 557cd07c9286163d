-- ===== src/Reservations/Billed.antt =====
-- A check-out of a guest whose nights are all charged posts nothing.
use lodgiva.Common.{
  ℕ, true, some, List, String, ◌&◌, ◌≡◌, refl, sym, ◌∙◌, ap, arith, ◌==◌, find, All, inl, inr,
  Bool-cases,
}
use lodgiva.Store.{
  Key, IsoDate, checked_in, Property, Reservation, ReservationRoom, Folio, Db, is_open_folio, ok,
  Result-cases,
}
use lodgiva.Access.{Auth, assert_property, property_or_throw}
use lodgiva.ReservationState.{same_state}
use lodgiva.Folios.{get_folio_or_throw, is_reachable, balance_minor}
use lodgiva.Reservations.Rooms.{is_reservation, get_or_throw, room_of, first_room, first_folio}
use lodgiva.Reservations.Departure.{
  CheckOut, check_out, settle, settle_rest, settle_out, post_nights, post_stayed_nights,
  post_stayed_on, charged_nights, night_text, room_of_stay,
}
use lodgiva.Reservations.Nights.{Charged, post_nights-again}
use lodgiva.Reservations.Effects.{assert_property-eq}
use lodgiva.Reservations.Settling.{settle_out_writes, balance_minor-eq}

-- The rows that a check-out of a guest in house reads.
pub record GuestOf (auth : Auth) (id : Key) (db : Db) (res : Reservation) (stay : ReservationRoom)
    (folio : Folio) (property : Property) : Type 0 where
  pub named : find (is_reservation auth id) db.reservations ≡ some res
  pub inside : res.status ≡ checked_in
  pub its_property : find (λ p. p.id == res.property_id) db.properties ≡ some property
  pub its_folio : first_folio res.id db ≡ some folio
  pub reached : find (is_reachable auth folio.id) db.folios ≡ some folio
  pub its_stay : first_room res.id db ≡ some stay

module _ (iso : IsoDate → String) (spell : List ℕ → String) (auth : Auth) (id : Key) (db : Db)
    (res : Reservation) (stay : ReservationRoom) (folio : Folio) (property : Property)
    (guest : GuestOf auth id db res stay folio property)
    (charged : All
      (Charged auth folio stay
        (night_text iso (room_of_stay stay.room_id db.rooms))
        property.business_date
        db)
      (charged_nights res property.business_date)) where
  again :
      post_nights auth folio stay
        (night_text iso (room_of_stay stay.room_id db.rooms))
        property.business_date
        (charged_nights res property.business_date)
        db
      ≡ ok (tt, db)
  again =
      post_nights-again auth folio stay (night_text iso (room_of_stay stay.room_id db.rooms))
        property.business_date (charged_nights res property.business_date) db charged

  named_only :
      (mid : Db) (r : Reservation)
      → get_or_throw auth id db ≡ ok (r, mid)
      → get_or_throw auth id db ≡ ok (res, db)
  unfolding get_or_throw
  named_only mid r h = elim (Result-cases (assert_property auth res.property_id db)) [
    | inr (e, failed) ↦ absurd (ground (arith, guest.named))
    | inl ((p, d1), ran) ↦
        let same = assert_property-eq auth res.property_id db d1 p ran in
        ground (arith, guest.named, ran, same)
  ]

  owner : property_or_throw res.property_id db ≡ ok (property, db)
  unfolding property_or_throw
  owner = ground (arith, guest.its_property)

  account : get_folio_or_throw auth folio.id db ≡ ok (folio, db)
  unfolding get_folio_or_throw
  account = ground (arith, guest.reached)

  stayed : room_of res.id db ≡ ok (stay, db)
  unfolding room_of
  stayed = ground (arith, guest.its_stay)

  post_stayed_nights-quiet :
      (mid : Db) → post_stayed_nights iso auth id db ≡ ok (tt, mid) → mid ≡ db
  unfolding post_stayed_nights post_stayed_on
  post_stayed_nights-quiet mid h = elim (Result-cases (get_or_throw auth id db)) [
    | inr (e, failed) ↦ absurd (ground arith)
    | inl ((r, d1), found) ↦
        let here = named_only d1 r found in
        let inside : same_state res.status checked_in ≡ true = rw guest.inside refl in
        elim (Bool-cases (is_open_folio folio.status)) [
          | inl unlocked ↦
              ground (arith, here, inside, owner, guest.its_folio, account, unlocked, stayed, again)
          | inr shut ↦ ground (arith, here, inside, owner, guest.its_folio, account, shut)
        ]
  ]

  settle-quiet :
      (dto : CheckOut) (r : Reservation) (end : Db)
      → settle iso spell auth id dto db ≡ ok (r, end)
      → end.entries ≡ db.entries
  unfolding settle settle_rest
  settle-quiet dto r end h = elim (Result-cases (get_or_throw auth id db)) [
    | inr (e, failed) ↦ absurd (ground arith)
    | inl ((x, d1), found) ↦
        let here = named_only d1 x found in
        let room = room_of_stay stay.room_id db.rooms in
        let notes = "Post-checkout turnover (" & spell res.confirmation_code & ")" in
        elim (Result-cases (balance_minor folio.id db)) [
          | inr (e, failed) ↦
              absurd (ground (arith, here, owner, guest.its_folio, account, stayed, again))
          | inl ((balance, d2), due) ↦
              let same = balance_minor-eq folio.id db d2 balance due in
              let left : settle_out auth res stay room folio property.business_date notes balance db
                  ≡ ok (r, end) =
                ground (arith, here, owner, guest.its_folio, account, stayed, again, due, same) in
              (settle_out_writes auth res stay room folio property.business_date notes balance db r
                end left).1
        ]
  ]

  -- A check-out that goes through leaves the ledger as it is.
  pub check_out-quiet :
      (dto : CheckOut) (r : Reservation) (end : Db)
      → check_out iso spell auth id dto db ≡ (ok r, end)
      → end.entries ≡ db.entries
  unfolding check_out
  check_out-quiet dto r end h = elim (Result-cases (post_stayed_nights iso auth id db)) [
    | inr (e, failed) ↦ absurd (ground arith)
    | inl ((u, mid), posted) ↦
        let quiet = post_stayed_nights-quiet mid posted in
        elim (Result-cases (settle iso spell auth id dto db)) [
          | inr (e, failed) ↦ absurd (ground (arith, quiet))
          | inl ((x, last), left) ↦
              let facts : (x ≡ r) × (last ≡ end) = ground (arith, quiet, left) in
              sym (ap (λ d. d.entries) facts.1) ∙ settle-quiet dto x last left
        ]
  ]
