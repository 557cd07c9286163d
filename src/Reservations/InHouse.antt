-- ===== src/Reservations/InHouse.antt =====
-- Room moves: what they ask for, and what they do.
use lodgiva.Common.{
  ℕ, ◌≤◌, true, false, Option, none, some, List, String, ◌≡◌, refl, ◌∙◌, subst, arith, ◌==◌, any,
  is_id, update_where, ◌⊎◌, inl, inr,
}
use lodgiva.Common.Members.{Member, none_of_any}
use lodgiva.Store.{
  Key, IsoDate, ReservationState, checked_in, occupied_clean, Property, Reservation,
  ReservationRoom, Room, Db, ok, Result-cases,
}
use lodgiva.Access.{Auth, log, emit, property_or_throw}
use lodgiva.ReservationState.{same_state}
use lodgiva.Reservations.Rooms.{
  get_or_throw, room_of, occupies, is_ready, update_stay, update_room_status, create_turnover,
}
use lodgiva.Reservations.Arrival.{find_room}
use lodgiva.Reservations.Departure.{room_of_stay, vacate}
use lodgiva.Reservations.Moves.{RoomMove, room_move, move_end, moved_row, next_version, move_note}
use lodgiva.Reservations.Effects.{Named, get_or_throw-Named, room_of-Member, find_room-Member}
use lodgiva.Reservations.House.{Touch}

-- Vacating a room leaves the reservations and their stays.
pub vacate-keeps :
    (auth : Auth) (property_id : Key) (date : IsoDate) (notes : String) (o : Option Room)
    (db db' : Db) (u : Unit {0})
    → vacate auth property_id date notes o db ≡ ok (u, db')
    → (db'.reservations ≡ db.reservations)
      × (db'.reservation_rooms ≡ db.reservation_rooms)
      × (db'.allocations ≡ db.allocations)
      × (db.next_id ≤ db'.next_id)
      × (db'.folios ≡ db.folios)
      × (db'.entries ≡ db.entries)
unfolding vacate create_turnover
vacate-keeps auth property_id date notes none db db' u h = ground arith
vacate-keeps auth property_id date notes (some room) db db' u h = ground arith

-- A guest in house has moved: to another room of the property that nobody was in, and that is clean
-- or inspected unless the caller overrides.
pub record Moved (auth : Auth) (id : Key) (dto : RoomMove) (db db' : Db) : Type 0 where
  pub res : Reservation
  pub stay : ReservationRoom
  pub target : Room
  pub named : Named auth id db res
  pub stay_found : Member stay db.reservation_rooms
  pub its : stay.reservation_id ≡ res.id
  pub target_found : Member target db.rooms
  pub as_asked : target.id ≡ dto.room_id
  pub its_tenant : target.tenant_id ≡ auth.tenant_id
  pub its_property : target.property_id ≡ res.property_id
  pub was_in_house : res.status ≡ checked_in
  pub other_room : is_id stay.room_id target.id ≡ false
  pub empty : any (occupies auth.tenant_id target.id) db.reservation_rooms ≡ false
  pub ready : (is_ready target.operational_status ≡ true) ⊎ (dto.override_dirty_room ≡ true)
  pub reservations :
      db'.reservations ≡ update_where (λ r. r.id == res.id) next_version db.reservations
  pub stays :
      db'.reservation_rooms
      ≡ update_where (λ s. s.id == stay.id) (moved_row target.id) db.reservation_rooms
  pub allocations : db'.allocations ≡ db.allocations
  pub counter : db.next_id ≤ db'.next_id

pub property_or_throw-eq :
    (id : Key) (db mid : Db) (property : Property)
    → property_or_throw id db ≡ ok (property, mid)
    → mid ≡ db
unfolding property_or_throw
property_or_throw-eq id db mid property h = ground arith

move_writes :
    (spell : List ℕ → String) (auth : Auth) (res : Reservation) (stay : ReservationRoom)
    (target : Room) (property : Property) (dto : RoomMove) (db : Db) (r : Reservation × String)
    (db' : Db)
    → move_end spell auth res stay target property dto db ≡ ok (r, db')
    → (db'.reservations ≡ update_where (λ r. r.id == res.id) next_version db.reservations)
      × (db'.reservation_rooms
          ≡ update_where (λ s. s.id == stay.id) (moved_row target.id) db.reservation_rooms)
      × (db'.allocations ≡ db.allocations)
      × (db.next_id ≤ db'.next_id)
unfolding move_end log emit
move_writes spell auth res stay target property dto db r db' h =
    let previous = room_of_stay stay.room_id db.rooms in
    let notes = move_note spell res previous target in
    let before =
      update_room_status target.id occupied_clean (update_stay stay.id (moved_row target.id) db) in
    elim (Result-cases (vacate auth res.property_id property.business_date notes previous before)) [
      | inr (e, failed) ↦ absurd (ground arith)
      | inl ((u, mid), ran) ↦
          let kept =
            vacate-keeps auth res.property_id property.business_date notes previous before mid u
              ran in
          ground (arith, kept.0, kept.1, kept.2, kept.3)
    ]

same_checked_in : (s : ReservationState) → same_state s checked_in ≡ true → s ≡ checked_in
same_checked_in s h = ground arith

-- A move is made for a checked-in reservation of the tenant, to the room that was asked for, which is
-- another one of the tenant at the property of the reservation, that nobody is in house in and that
-- is clean or inspected unless the caller, of any role, overrides. It raises the version of the
-- reservation, puts that stay into the room and changes no other reservation or stay, and no
-- allocation.
pub room_move-Moved :
    (spell : List ℕ → String) (auth : Auth) (id : Key) (dto : RoomMove) (db : Db)
    (r : Reservation × String) (db' : Db)
    → room_move spell auth id dto db ≡ ok (r, db')
    → Moved auth id dto db db'
unfolding room_move log emit
room_move-Moved spell auth id dto db r db' h = elim (Result-cases (get_or_throw auth id db)) [
  | inr (e, failed) ↦ absurd (ground arith)
  | inl ((res, d1), r1) ↦ elim (Result-cases (room_of res.id d1)) [
    | inr (e, failed) ↦ absurd (ground arith)
    | inl ((stay, d2), r2) ↦ elim (Result-cases (find_room auth res.property_id dto.room_id d2)) [
      | inr (e, failed) ↦ absurd (ground arith)
      | inl ((target, d3), r3) ↦ elim (Result-cases (property_or_throw res.property_id d3)) [
        | inr (e, failed) ↦ absurd (ground arith)
        | inl ((property, d4), r4) ↦
            let (e1, named) = get_or_throw-Named auth id db d1 res r1 in
            let (e2, stay_found, its) = room_of-Member res.id d1 d2 stay r2 in
            let (e3, target_found, as_asked, its_tenant, its_property) =
              find_room-Member auth res.property_id dto.room_id d2 d3 target r3 in
            let same2 : d2 ≡ db = e2 ∙ e1 in
            let same4 : d4 ≡ db =
              property_or_throw-eq res.property_id d3 d4 property r4 ∙ e3 ∙ same2 in
            let facts : (res.status ≡ checked_in)
                × (is_id stay.room_id target.id ≡ false)
                × (any (occupies auth.tenant_id target.id) d3.reservation_rooms ≡ false)
                × ((is_ready target.operational_status ≡ true) ⊎ (dto.override_dirty_room ≡ true)) =
              ground arith in
            let written = move_writes spell auth res stay target property dto db r db' (
              subst (λ d. move_end spell auth res stay target property dto d ≡ ok (r, db')) same4
                (ground arith)) in
            record {
              res = res;
              stay = stay;
              target = target;
              named = named;
              stay_found = subst (λ d. Member stay d.reservation_rooms) e1 stay_found;
              its = its;
              target_found = subst (λ d. Member target d.rooms) same2 target_found;
              as_asked = as_asked;
              its_tenant = its_tenant;
              its_property = its_property;
              was_in_house = facts.0;
              other_room = facts.1;
              empty =
                  subst (λ d. any (occupies auth.tenant_id target.id) d.reservation_rooms ≡ false)
                    (e3 ∙ same2) facts.2;
              ready = facts.3;
              reservations = written.0;
              stays = written.1;
              allocations = written.2;
              counter = written.3;
            }
      ]
    ]
  ]
]

pub Moved-Touch :
    {auth : Auth} {id : Key} {dto : RoomMove} {db db' : Db}
    → (m : Moved auth id dto db db')
    → Touch db db' m.res m.stay next_version (moved_row m.target.id)
Moved-Touch {auth} {id} {dto} {db} {db'} m = record {
  found = m.named.found;
  stay_found = m.stay_found;
  its = m.its;
  keeps = λ x. (refl, refl);
  stay_keeps = λ x. (refl, refl, refl);
  step = inl refl;
  housed = λ _ _. m.was_in_house;
  fits = λ same _ t k into.
      let who : (auth.tenant_id ≡ t) × (m.target.id ≡ k) =
        ground (arith, same, into, m.named.same_tenant) in
      inr (none_of_any _ db.reservation_rooms (rw (← who.0, ← who.1) m.empty));
  reservations = m.reservations;
  stays = m.stays;
  ids = m.counter;
}
