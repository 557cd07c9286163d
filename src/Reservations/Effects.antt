-- ===== src/Reservations/Effects.antt =====
-- What the operations at the desk do to the reservations and their stays.
use lodgiva.Common.{
  Bool, true, false, Option, none, some, String, ◌≡◌, subst, arith, ◌==◌, find, any, update_where,
  ◌⊎◌, inl, inr, Option-cases,
}
use lodgiva.Common.Search.{find-eq-some}
use lodgiva.Common.Members.{Member, find-Member, filter-Member, last-Member}
use lodgiva.Store.{
  Key, is_out, occupied_clean, Property, Reservation, ReservationRoom, Room, Db, ok,
}
use lodgiva.Access.{Auth, assert_property}
use lodgiva.Reservations.Rooms.{
  is_reservation, get_or_throw, first_room, room_of, occupies, is_clash, blocks_room, is_ready,
  update_room_status,
}
use lodgiva.Reservations.Arrival.{
  pick_room, find_room, is_room_of, check_fit, settle_in, in_house_row, checked_in_row,
}

-- The reservation that a caller names.
pub record Named (auth : Auth) (id : Key) (db : Db) (res : Reservation) : Type 0 where
  pub found : Member res db.reservations
  pub same_id : res.id ≡ id
  pub same_tenant : res.tenant_id ≡ auth.tenant_id

pub get_or_throw-Named :
    (auth : Auth) (id : Key) (db mid : Db) (res : Reservation)
    → get_or_throw auth id db ≡ ok (res, mid)
    → (mid ≡ db) × Named auth id db res
unfolding get_or_throw
get_or_throw-Named auth id db mid res h =
    elim (Option-cases (find (is_reservation auth id) db.reservations)) [
      | inl missing ↦ absurd (ground arith)
      | inr (r, found) ↦
          let facts : (mid ≡ db) × (r ≡ res) = ground arith in
          let test = find-eq-some _ db.reservations r found in
          let row : Named auth id db r = record {
            found = find-Member _ db.reservations r found;
            same_id = ground arith;
            same_tenant = ground arith;
          } in
          (facts.0, subst (Named auth id db) facts.1 row)
    ]

pub room_of-Member :
    (id : Key) (db mid : Db) (stay : ReservationRoom)
    → room_of id db ≡ ok (stay, mid)
    → (mid ≡ db) × Member stay db.reservation_rooms × (stay.reservation_id ≡ id)
unfolding room_of
room_of-Member id db mid stay h = elim (Option-cases (first_room id db)) [
  | inl missing ↦ absurd (ground arith)
  | inr (s, found) ↦
      let facts : (mid ≡ db) × (s ≡ stay) = ground arith in
      let (here, its) =
        filter-Member (λ r. r.reservation_id == id) db.reservation_rooms s
          (last-Member _ s found) in
      (
        facts.0,
        subst (λ x. Member x db.reservation_rooms) facts.1 here,
        subst (λ x. x.reservation_id ≡ id) facts.1 (ground (arith, its)),
      )
]

pub assert_property-eq :
    (auth : Auth) (id : Key) (db mid : Db) (property : Property)
    → assert_property auth id db ≡ ok (property, mid)
    → mid ≡ db
unfolding assert_property
assert_property-eq auth id db mid property h = ground arith

pub pick_room-eq :
    (before : String → String → Bool) (auth : Auth) (res : Reservation) (stay : ReservationRoom)
    (o : Option Key) (db mid : Db) (k : Key)
    → pick_room before auth res stay o db ≡ ok (k, mid)
    → mid ≡ db
unfolding pick_room
pick_room-eq before auth res stay (some id) db mid k h = ground arith
pick_room-eq before auth res stay none db mid k h = ground arith

pub find_room-Member :
    (auth : Auth) (property_id id : Key) (db mid : Db) (room : Room)
    → find_room auth property_id id db ≡ ok (room, mid)
    → (mid ≡ db)
      × Member room db.rooms
      × (room.id ≡ id)
      × (room.tenant_id ≡ auth.tenant_id)
      × (room.property_id ≡ property_id)
unfolding find_room
find_room-Member auth property_id id db mid room h =
    elim (Option-cases (find (is_room_of auth property_id id) db.rooms)) [
      | inl missing ↦ absurd (ground arith)
      | inr (r, found) ↦
          let facts : (mid ≡ db) × (r ≡ room) = ground arith in
          let test = find-eq-some _ db.rooms r found in
          (
            facts.0,
            subst (λ x. Member x db.rooms) facts.1 (find-Member _ db.rooms r found),
            subst (λ x. x.id ≡ id) facts.1 (ground arith),
            subst (λ x. x.tenant_id ≡ auth.tenant_id) facts.1 (ground arith),
            subst (λ x. x.property_id ≡ property_id) facts.1 (ground arith),
          )
    ]

-- What the guards of `checkIn` on the room have established.
pub record Fit (auth : Auth) (res : Reservation) (stay : ReservationRoom) (room : Room)
    (override : Bool) (db : Db) : Type 0 where
  pub right_type : room.room_type_id ≡ stay.room_type_id
  pub in_service : is_out room.operational_status ≡ false
  pub not_blocked :
      any (blocks_room auth.tenant_id room.id res.arrival_date res.departure_date) db.blocks ≡ false
  pub not_booked :
      any
        (is_clash stay.id auth.tenant_id room.id res.arrival_date res.departure_date)
        db.reservation_rooms
      ≡ false
  pub ready : (is_ready room.operational_status ≡ true) ⊎ (override ≡ true)
  pub empty : any (occupies auth.tenant_id room.id) db.reservation_rooms ≡ false

pub check_fit-Fit :
    (auth : Auth) (res : Reservation) (stay : ReservationRoom) (room : Room) (override : Bool)
    (db mid : Db) (u : Unit {0})
    → check_fit auth res stay room override db ≡ ok (u, mid)
    → (mid ≡ db) × Fit auth res stay room override db
unfolding check_fit
check_fit-Fit auth res stay room override db mid u h = (
  ground arith,
  record {
    right_type = ground arith;
    in_service = ground arith;
    not_blocked = ground arith;
    not_booked = ground arith;
    ready = ground arith;
    empty = ground arith;
  },
)

pub settle_in-eq :
    (auth : Auth) (res : Reservation) (stay : ReservationRoom) (room : Room) (override : Bool)
    (db db' : Db) (r : Reservation)
    → settle_in auth res stay room override db ≡ ok (r, db')
    → (r ≡ checked_in_row res)
      × (db'.reservations ≡ update_where (λ r. r.id == res.id) checked_in_row db.reservations)
      × (db'.reservation_rooms
          ≡ update_where (λ s. s.id == stay.id) (in_house_row room.id) db.reservation_rooms)
      × (db'.rooms ≡ (update_room_status room.id occupied_clean db).rooms)
      × (db'.next_id ≡ db.next_id)
unfolding settle_in
settle_in-eq auth res stay room override db db' r h = ground arith
