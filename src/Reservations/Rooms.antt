-- ===== src/Reservations/Rooms.antt =====
-- The look-ups, guards and updates that the operations on reservations share.
use lodgiva.Common.{
  ℕ, Bool, true, false, ◌&&◌, not, Option, none, some, List, ◌∷◌, String, ◌==◌, ltb, find, filter,
  any, last?, is_id, update_where, sort_by, if◌then◌else◌,
}
use lodgiva.Store.{
  Key, IsoDate, StayStatus, reserved, in_house, RoomStatus, vacant_clean, vacant_dirty, inspected,
  occupied_clean, occupied_dirty, is_out, ReservationState, Room, RoomBlock, Reservation,
  ReservationRoom, Folio, HousekeepingTask, task_pending, Db, M, pure, gets, require, modify, fresh,
  throw_if, ◌>>=◌, ◌>>◌, not_found, conflict, crash, reservation_not_found,
  invalid_state_transition,
}
use lodgiva.Access.{Auth, assert_property}
use lodgiva.ReservationState.{can_transition}

-- `assertTransition`
abbrev pub assert_transition : ReservationState → ReservationState → M (Unit {0})
assert_transition from to =
    throw_if (not (can_transition from to)) (conflict invalid_state_transition)

-- The `where` of `getOrThrow`.
abbrev pub is_reservation : Auth → Key → Reservation → Bool
is_reservation auth id r = r.id == id && r.tenant_id == auth.tenant_id

-- `getOrThrow`
unfoldable pub get_or_throw : Auth → Key → M Reservation
unfolding assert_property
get_or_throw auth id = do
  res ←
      require (← gets (λ db. find (is_reservation auth id) db.reservations))
        (not_found reservation_not_found)
  assert_property auth res.property_id
  pure res

-- `res.rooms[0]`
abbrev pub first_room : Key → Db → Option ReservationRoom
first_room id db = last? (filter (λ r. r.reservation_id == id) db.reservation_rooms)

-- `res.folios[0]`
abbrev pub first_folio : Key → Db → Option Folio
first_folio id db = last? (filter (λ f. is_id f.reservation_id id) db.folios)

-- Reading a field of `res.rooms[0]` throws where there is none.
unfoldable pub room_of : Key → M ReservationRoom
room_of id = do require (← gets (first_room id)) crash

-- `["RESERVED", "IN_HOUSE"].includes(status)`
abbrev pub is_booked : StayStatus → Bool
is_booked reserved = true
is_booked in_house = true
is_booked _ = false

abbrev pub is_in_house : StayStatus → Bool
is_in_house in_house = true
is_in_house _ = false

-- A stay that is booked into a room on a night of a range (`overlapWhere`).
abbrev pub books_room : Key → Key → IsoDate → IsoDate → ReservationRoom → Bool
books_room tenant_id room_id arrival departure r =
    r.tenant_id == tenant_id
    && (is_id r.room_id room_id
        && (is_booked r.status && (ltb r.arrival_date departure && ltb arrival r.departure_date)))

-- Another stay that is.
abbrev pub is_clash : Key → Key → Key → IsoDate → IsoDate → ReservationRoom → Bool
is_clash own tenant_id room_id arrival departure r =
    not (r.id == own) && books_room tenant_id room_id arrival departure r

-- An active block on a room that overlaps a range.
abbrev pub blocks_room : Key → Key → IsoDate → IsoDate → RoomBlock → Bool
blocks_room tenant_id room_id arrival departure b =
    b.tenant_id == tenant_id
    && (b.room_id == room_id
        && (b.is_in_force && (ltb b.start_date departure && ltb arrival b.end_date)))

-- A guest of the tenant is in house in the room.
abbrev pub occupies : Key → Key → ReservationRoom → Bool
occupies tenant_id room_id r =
    r.tenant_id == tenant_id && (is_id r.room_id room_id && is_in_house r.status)

-- `["VACANT_CLEAN", "INSPECTED"].includes(status)`
abbrev pub is_ready : RoomStatus → Bool
is_ready vacant_clean = true
is_ready inspected = true
is_ready _ = false

-- `READINESS[status] ?? 9`
abbrev pub readiness : RoomStatus → ℕ
readiness inspected = 0
readiness vacant_clean = 1
readiness vacant_dirty = 2
readiness occupied_clean = 3
readiness occupied_dirty = 3
readiness _ = 9

-- The input of `allocateRoom`; nothing passes an `excludeRoomId`.
pub record RoomInput : Type 0 where
  pub tenant_id : Key
  pub property_id : Key
  pub room_type_id : Key
  pub arrival : IsoDate
  pub departure : IsoDate

abbrev pub is_candidate : RoomInput → Room → Bool
is_candidate i r =
    r.tenant_id == i.tenant_id
    && (r.property_id == i.property_id
        && (r.room_type_id == i.room_type_id && not (is_out r.operational_status)))

-- No stay is booked into the room and no block is on it.
abbrev pub is_free : RoomInput → List ReservationRoom → List RoomBlock → Room → Bool
is_free i stays blocks r =
    not (any (books_room i.tenant_id r.id i.arrival i.departure) stays)
    && not (any (blocks_room i.tenant_id r.id i.arrival i.departure) blocks)

abbrev pub more_ready : Room → Room → Bool
more_ready a b = ltb (readiness a.operational_status) (readiness b.operational_status)

-- `orderBy: [{ floor: "asc" }, { roomNumber: "asc" }]`, by the test on room numbers that the
-- database has
abbrev pub by_floor : (String → String → Bool) → Room → Room → Bool
by_floor before a b =
    if a.floor == b.floor then before a.room_number b.room_number else ltb a.floor b.floor

-- `allocateRoom`
unfoldable pub allocate_room : (String → String → Bool) → RoomInput → M (Option Room)
unfolding sort_by
allocate_room before i = gets λ db.
    find (is_free i db.reservation_rooms db.blocks)
      (sort_by more_ready (sort_by (by_floor before) (filter (is_candidate i) db.rooms)))

-- Updates of one row.
abbrev pub update_stay : Key → (ReservationRoom → ReservationRoom) → Db → Db
update_stay id f db = record db {
  reservation_rooms = update_where (λ r. r.id == id) f db.reservation_rooms;
}

abbrev pub update_room_status : Key → RoomStatus → Db → Db
update_room_status id status db = record db {
  rooms = update_where (λ r. r.id == id) (λ r. record r { operational_status = status }) db.rooms;
}

abbrev pub update_reservation : Key → (Reservation → Reservation) → Db → Db
update_reservation id f db = record db {
  reservations = update_where (λ r. r.id == id) f db.reservations;
}

-- The task that a vacated room gets.
abbrev pub turnover_row : Auth → Key → Key → IsoDate → String → Key → HousekeepingTask
turnover_row auth property_id room_id date notes id = record {
  id = id;
  tenant_id = auth.tenant_id;
  property_id = property_id;
  room_id = room_id;
  business_date = date;
  type = "TURNOVER";
  priority = "HIGH";
  assigned_to = none;
  assigned_user_id = none;
  notes = some notes;
  status = task_pending;
  started_at = none;
  completed_at = none;
  version = 1;
}

unfoldable pub create_turnover : Auth → Key → Key → IsoDate → String → M (Unit {0})
create_turnover auth property_id room_id date notes = do
  id ← fresh
  modify
      (λ db. record db { tasks = turnover_row auth property_id room_id date notes id ∷ db.tasks })
