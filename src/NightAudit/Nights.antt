-- ===== src/NightAudit/Nights.antt =====
-- A night that the close has charged, and the check-out that charges the nights of the stay.
use lodgiva.Common.{
  ℕ, ◌+◌, ◌≤◌, ◌<◌, true, some, List, [], ◌∷◌, String, ◌≡◌, refl, sym, ◌∙◌, ap, subst, arith, ◌==◌,
  Bool, Option, find, any, contains, All, inl, inr, if◌then◌else◌, ltb, update_where, Bool-cases,
  filter, last?, is_id,
}
use lodgiva.Common.Search.{find-update_where}
use lodgiva.Common.Members.{Member, All-Member}
use lodgiva.Money.{nights_between}
use lodgiva.Money.Rounding.{nights_between_range, nights_between-head}
use lodgiva.Store.{
  Key, IsoDate, Folio, FolioEntry, Property, Room, Reservation, ReservationRoom, Db, ok,
}
use lodgiva.Access.{Auth, assert_property}
use lodgiva.Folios.{is_reachable}
use lodgiva.Reservations.{
  CheckOut, check_out, night_text, room_of_stay, is_night_charge, charged_nights, is_reservation,
}
use lodgiva.Reservations.Nights.{Charged}
use lodgiva.Reservations.Billed.{GuestOf, check_out-quiet}
use lodgiva.NightAudit.Run.{
  InHouse, RunAudit, Floats, AuditReport, dated, in_house_tonight, tonight_rows, run,
}
use lodgiva.NightAudit.Posting.{NightCharged}
use lodgiva.NightAudit.Outcome.{run-Closed}

All-contains : (P : ℕ → Type 0) (l : List ℕ) → ((x : ℕ) → contains x l ≡ true → P x) → All P l
All-contains P [] h = tt
All-contains P (x ∷ l) h = (h x (ground arith), All-contains P l (λ y m. h y (ground (arith, m))))

-- The day after a night of the stay, the nights up to it are charged.
charged_nights-next :
    (res : Reservation) (date : IsoDate)
    → res.arrival_date ≤ date
    → date < res.departure_date
    → charged_nights res (date + 1) ≡ nights_between res.arrival_date (date + 1)
unfolding charged_nights
charged_nights-next res date from to =
    let (later, head) = nights_between-head res.arrival_date (date + 1) (omega (arith, from)) in
    let until : (if ltb (date + 1) res.departure_date then date + 1 else res.departure_date)
        ≡ date + 1 =
      elim (Bool-cases (ltb (date + 1) res.departure_date)) [
        | inl before ↦ ground (arith, before)
        | inr last ↦ ground (arith, last, to)
      ] in
    rw (until, head) refl

module _ (property : Property) (db db' : Db) (auth' : Auth) (id : Key) (res : Reservation)
    (stay : ReservationRoom) (folio : Folio)
    (guest : GuestOf auth' id db res stay folio property) where
  -- After the close the guest is found as before, at the property with its next day.
  GuestOf-next :
      (date : IsoDate)
      → db'.properties ≡ update_where (λ p. p.id == property.id) (dated date) db.properties
      → db'.reservations ≡ db.reservations
      → db'.reservation_rooms ≡ db.reservation_rooms
      → db'.folios ≡ db.folios
      → GuestOf auth' id db' res stay folio (dated date property)
  GuestOf-next date properties reservations stays folios = record {
    named = ap (λ l. find (is_reservation auth' id) l) reservations ∙ guest.named;
    inside = guest.inside;
    its_property =
        ap (λ l. find (λ p. p.id == res.property_id) l) properties
        ∙ find-update_where (λ p. p.id) (λ p. p.id == res.property_id) (dated date) db.properties
            property (λ x. refl) guest.its_property;
    its_folio =
        ap (λ l. last? (filter (λ f. is_id f.reservation_id res.id) l)) folios ∙ guest.its_folio;
    reached = ap (λ l. find (is_reachable auth' folio.id) l) folios ∙ guest.reached;
    its_stay = ap (λ l. last? (filter (λ r. r.reservation_id == res.id) l)) stays ∙ guest.its_stay;
  }

-- The rows of the night carry the room of their stay.
tonight_rows-room :
    (db : Db) (ss : List ReservationRoom) (h : InHouse)
    → Member h (tonight_rows db ss)
    → h.room ≡ room_of_stay h.stay.room_id db.rooms
tonight_rows-room db [] h m = absurd m
tonight_rows-room db (s ∷ ss) h (inl e) =
    subst (λ x. x.room ≡ room_of_stay x.stay.room_id db.rooms) e refl
tonight_rows-room db (s ∷ ss) h (inr m) = tonight_rows-room db ss h m

-- Where the nights before a day are charged in a ledger, and that day in a later one that loses
-- nothing, the nights of the stay up to that day are charged in the later one.
charged_nights-All :
    (iso : IsoDate → String) (room : Option Room) (folio : Folio) (res : Reservation)
    (date : IsoDate) (db db' : Db)
    → res.arrival_date ≤ date
    → date < res.departure_date
    → ((p : FolioEntry → Bool) → any p db.entries ≡ true → any p db'.entries ≡ true)
    → ((night : IsoDate)
        → res.arrival_date ≤ night
        → night < date
        → any (is_night_charge folio.id (night_text iso room night)) db.entries ≡ true)
    → any (is_night_charge folio.id (night_text iso room date)) db'.entries ≡ true
    → All
        (λ d. any (is_night_charge folio.id (night_text iso room d)) db'.entries ≡ true)
        (charged_nights res (date + 1))
charged_nights-All iso room folio res date db db' from to standing before tonight =
    subst (All here) (sym (charged_nights-next res date from to))
      (All-contains here (nights_between res.arrival_date (date + 1)) charged)
  where
    here : IsoDate → Type 0
    here d = any (is_night_charge folio.id (night_text iso room d)) db'.entries ≡ true

    charged :
        (night : ℕ)
        → contains night (nights_between res.arrival_date (date + 1)) ≡ true
        → here night
    charged night listed =
        let within = ((nights_between_range res.arrival_date (date + 1)).1 night).0 listed in
        elim (Bool-cases (ltb night date)) [
          | inl earlier ↦ standing _ (before night within.0 (ground (arith, earlier)))
          | inr last ↦ subst here (ground (arith, last, within)) tonight
        ]

-- A close and the check-out of the next day together charge a night once. Take a guest of whom the
-- close finds a stay in house, on the first folio of the reservation, and whose nights before the
-- open day are charged there in the wording of the present room: a check-out that goes through
-- right after the close, by whomever, leaves the ledger as the close left it.
pub check_out-after_close :
    (iso : IsoDate → String) (spell : List ℕ → String) (fl : Floats) (auth : Auth) (dto : RunAudit)
    (db : Db) (report : AuditReport) (db' : Db)
    → run iso fl auth dto db ≡ ok (report, db')
    → (property : Property) → assert_property auth dto.property_id db ≡ ok (property, db)
    → (auth' : Auth) (id : Key) (res : Reservation) (h : InHouse) (folio : Folio)
    → GuestOf auth' id db res h.stay folio property
    → Member h (in_house_tonight auth property db)
    → h.folio ≡ some folio
    → res.arrival_date ≤ property.business_date
    → property.business_date < res.departure_date
    → ((night : IsoDate)
        → res.arrival_date ≤ night
        → night < property.business_date
        → any (is_night_charge folio.id (night_text iso h.room night)) db.entries ≡ true)
    → (co : CheckOut) (r : Reservation) (end : Db)
    → check_out iso spell auth' id co db' ≡ (ok r, end)
    → end.entries ≡ db'.entries
check_out-after_close iso spell fl auth dto db report db' ran property asserted auth' id res h folio
      guest here its from to before co r end left =
    let done = run-Closed iso fl auth dto db report db' ran in
    let same : done.property ≡ property = ground (arith, done.found, asserted) in
    let closed = done.audited in
    let next = property.business_date + 1 in
    let later =
      GuestOf-next property db db' auth' id res h.stay folio guest next
        (subst
          (λ p.
            db'.properties
            ≡ update_where (λ q. q.id == p.id) (dated (p.business_date + 1)) db.properties)
          same closed.date)
        closed.reservations closed.stays closed.folios in
    let tonight : any (is_night_charge folio.id (night_text iso h.room property.business_date))
          db'.entries
        ≡ true =
      All-Member (NightCharged iso auth property.business_date db')
        (in_house_tonight auth property db) h
        (subst (λ p. All (NightCharged iso auth p.business_date db') (in_house_tonight auth p db))
          same closed.charged)
        here folio its in
    let charged =
      charged_nights-All iso h.room folio res property.business_date db db' from to closed.standing
        before tonight in
    let present : h.room ≡ room_of_stay h.stay.room_id db'.rooms =
      tonight_rows-room db _ h here ∙ ap (room_of_stay h.stay.room_id) (sym closed.rooms) in
    check_out-quiet iso spell auth' id db' res h.stay folio (dated next property) later
      (subst
        (λ x.
          All (Charged auth' folio h.stay (night_text iso x) next db') (charged_nights res next))
        present charged)
      co r end left
