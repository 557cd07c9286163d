-- ===== src/Reservations/CheckIn.antt =====
-- What a check-in has established, and what it does.
use lodgiva.Common.{
  ◌≤◌, ◌<◌, Bool, true, false, ◌&&◌, Option, none, some, find, Option-cases, String, ◌≡◌, refl, ap,
  ◌∙◌, subst, arith, ◌==◌, update_where, ◌⊎◌, inl, inr,
}
use lodgiva.Common.Members.{Member, none_of_any}
use lodgiva.Store.{
  Key, ReservationState, confirmed, checked_in, occupied_clean, Property, Reservation,
  ReservationRoom, Room, Db, ok, Result-cases,
}
use lodgiva.Access.{Auth, assert_property}
use lodgiva.ReservationState.{can_transition}
use lodgiva.Reservations.Rooms.{get_or_throw, room_of, update_room_status}
use lodgiva.Reservations.Arrival.{
  CheckIn, check_in, pick_room, find_room, first_given, check_fit, settle_in, is_manager,
  in_house_row, checked_in_row,
}
use lodgiva.Reservations.Effects.{
  Named, get_or_throw-Named, room_of-Member, assert_property-eq, pick_room-eq, find_room-Member,
  Fit, check_fit-Fit, settle_in-eq,
}
use lodgiva.Reservations.House.{Touch}

-- A guest has arrived: a confirmed reservation of the caller's tenant, within the dates of the stay,
-- into a room that fits, which a dirty room does only for a manager.
pub record Arrived (auth : Auth) (id : Key) (dto : CheckIn) (db : Db) (r : Reservation) (db' : Db)
    : Type 0 where
  pub res : Reservation
  pub stay : ReservationRoom
  pub room : Room
  pub property : Property
  pub named : Named auth id db res
  pub its_property :
      find (λ p. p.id == res.property_id && p.tenant_id == auth.tenant_id) db.properties
      ≡ some property
  pub stay_found : Member stay db.reservation_rooms
  pub its : stay.reservation_id ≡ res.id
  pub room_found : Member room db.rooms
  pub as_asked : (dto.room_id ≡ none) ⊎ (dto.room_id ≡ some room.id)
  pub room_tenant : room.tenant_id ≡ auth.tenant_id
  pub room_property : room.property_id ≡ res.property_id
  pub was_confirmed : res.status ≡ confirmed
  pub in_time :
      (res.arrival_date ≤ property.business_date) × (property.business_date < res.departure_date)
  pub fit : Fit auth res stay room dto.override_dirty_room db
  pub authorised : (dto.override_dirty_room ≡ false) ⊎ (is_manager auth.role ≡ true)
  pub result : r ≡ checked_in_row res
  pub reservations :
      db'.reservations ≡ update_where (λ r. r.id == res.id) checked_in_row db.reservations
  pub stays :
      db'.reservation_rooms
      ≡ update_where (λ s. s.id == stay.id) (in_house_row room.id) db.reservation_rooms
  pub rooms : db'.rooms ≡ (update_room_status room.id occupied_clean db).rooms
  pub counter : db'.next_id ≡ db.next_id

assert_property-row :
    (auth : Auth) (id : Key) (db mid : Db) (property : Property)
    → assert_property auth id db ≡ ok (property, mid)
    → find (λ p. p.id == id && p.tenant_id == auth.tenant_id) db.properties ≡ some property
unfolding assert_property
assert_property-row auth id db mid property h =
    elim (Option-cases (find (λ p. p.id == id && p.tenant_id == auth.tenant_id) db.properties)) [
      | inl missing ↦ absurd (ground arith)
      | inr (p, found) ↦ let same : p ≡ property = ground arith in found ∙ ap (λ x. some x) same
    ]

-- A room that the caller names is the one that is taken.
picked_as_asked :
    (before : String → String → Bool) (auth : Auth) (res : Reservation) (stay : ReservationRoom)
    (asked other : Option Key) (db mid : Db) (k : Key) (room : Room)
    → room.id ≡ k
    → pick_room before auth res stay (first_given asked other) db ≡ ok (k, mid)
    → (asked ≡ none) ⊎ (asked ≡ some room.id)
unfolding pick_room
picked_as_asked before auth res stay none other db mid k room same h = inl refl
picked_as_asked before auth res stay (some id) other db mid k room same h = inr (ground arith)

can_check_in : (s : ReservationState) → can_transition s checked_in ≡ true → s ≡ confirmed
unfolding can_transition
can_check_in s h = ground arith

-- A guest is checked in only on a confirmed reservation of the caller's tenant, while the business
-- date of its property is within the stay, into a room at that property, the one that was asked for
-- if any, of the reserved type that is in service, not blocked or booked for another stay on these
-- dates and with nobody in house, and that is clean or inspected unless a manager overrides. The
-- reservation becomes CHECKED_IN, its stay IN_HOUSE in that room and the room OCCUPIED_CLEAN, and
-- no other row of those tables changes.
pub check_in-Arrived :
    (before : String → String → Bool) (auth : Auth) (id : Key) (dto : CheckIn) (db : Db)
    (r : Reservation) (db' : Db)
    → check_in before auth id dto db ≡ ok (r, db')
    → Arrived auth id dto db r db'
unfolding check_in
check_in-Arrived before auth id dto db r db' h = elim (Result-cases (get_or_throw auth id db)) [
  | inr (e, failed) ↦ absurd (ground arith)
  | inl ((res, d1), r1) ↦ elim (Result-cases (assert_property auth res.property_id d1)) [
    | inr (e, failed) ↦ absurd (ground arith)
    | inl ((property, d2), r2) ↦ elim (Result-cases (room_of res.id d2)) [
      | inr (e, failed) ↦ absurd (ground arith)
      | inl ((stay, d3), r3) ↦
          elim (Result-cases
            (pick_room before auth res stay (first_given dto.room_id stay.room_id) d3)) [
              | inr (e, failed) ↦ absurd (ground arith)
              | inl ((k, d4), r4) ↦ elim (Result-cases (find_room auth res.property_id k d4)) [
                | inr (e, failed) ↦ absurd (ground arith)
                | inl ((room, d5), r5) ↦
                    elim (Result-cases (check_fit auth res stay room dto.override_dirty_room d5)) [
                      | inr (e, failed) ↦ absurd (ground arith)
                      | inl ((u, d6), r6) ↦
                          let (e1, named) = get_or_throw-Named auth id db d1 res r1 in
                          let e2 = assert_property-eq auth res.property_id d1 d2 property r2 in
                          let (e3, stay_found, its) = room_of-Member res.id d2 d3 stay r3 in
                          let e4 = pick_room-eq before auth res stay _ d3 d4 k r4 in
                          let (e5, room_found, same_room, room_tenant, room_property) =
                            find_room-Member auth res.property_id k d4 d5 room r5 in
                          let (e6, fit) =
                            check_fit-Fit auth res stay room dto.override_dirty_room d5 d6 u r6 in
                          let same2 : d2 ≡ db = e2 ∙ e1 in
                          let same4 : d4 ≡ db = e4 ∙ e3 ∙ same2 in
                          let same5 : d5 ≡ db = e5 ∙ same4 in
                          let facts : ((dto.override_dirty_room ≡ false)
                                ⊎ (is_manager auth.role ≡ true))
                              × (can_transition res.status checked_in ≡ true)
                              × ((res.arrival_date ≤ property.business_date)
                                  × (property.business_date < res.departure_date))
                              × (settle_in auth res stay room dto.override_dirty_room d6
                                  ≡ ok (r, db')) =
                            ground arith in
                          let done =
                            settle_in-eq auth res stay room dto.override_dirty_room db db' r (
                              subst
                                (λ d.
                                  settle_in auth res stay room dto.override_dirty_room d
                                  ≡ ok (r, db'))
                                (e6 ∙ same5) facts.3) in
                          record {
                            res = res;
                            stay = stay;
                            room = room;
                            property = property;
                            named = named;
                            its_property =
                                subst
                                  (λ d.
                                    find
                                      (λ p.
                                        p.id == res.property_id && p.tenant_id == auth.tenant_id)
                                      d.properties
                                    ≡ some property)
                                  e1 (assert_property-row auth res.property_id d1 d2 property r2);
                            stay_found =
                                subst (λ d. Member stay d.reservation_rooms) same2 stay_found;
                            its = its;
                            room_found = subst (λ d. Member room d.rooms) same4 room_found;
                            as_asked =
                                picked_as_asked before auth res stay dto.room_id stay.room_id d3 d4
                                  k room same_room r4;
                            room_tenant = room_tenant;
                            room_property = room_property;
                            was_confirmed = can_check_in res.status facts.1;
                            in_time = facts.2;
                            fit = subst (Fit auth res stay room dto.override_dirty_room) same5 fit;
                            authorised = facts.0;
                            result = done.0;
                            reservations = done.1;
                            stays = done.2;
                            rooms = done.3;
                            counter = done.4;
                          }
                    ]
              ]
            ]
    ]
  ]
]

-- A check-in touches one stay.
pub Arrived-Touch :
    {auth : Auth} {id : Key} {dto : CheckIn} {db : Db} {r : Reservation} {db' : Db}
    → (a : Arrived auth id dto db r db')
    → Touch db db' a.res a.stay checked_in_row (in_house_row a.room.id)
unfolding can_transition
Arrived-Touch {auth} {id} {dto} {db} {r} {db'} a = record {
  found = a.named.found;
  stay_found = a.stay_found;
  its = a.its;
  keeps = λ x. (refl, refl);
  stay_keeps = λ x. (refl, refl, refl);
  step = inr (rw a.was_confirmed refl);
  housed = λ _ _. refl;
  fits = λ same _ t k into.
      let who : (auth.tenant_id ≡ t) × (a.room.id ≡ k) =
        ground (arith, same, into, a.named.same_tenant) in
      inr (none_of_any _ db.reservation_rooms (rw (← who.0, ← who.1) a.fit.empty));
  reservations = a.reservations;
  stays = a.stays;
  ids = omega (arith, a.counter);
}
