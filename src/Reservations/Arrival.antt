-- ===== src/Reservations/Arrival.antt =====
-- `checkIn` of
-- apps/api/src/modules/reservations.module.ts. `before` is the order that the database has
-- on room numbers.
use package.text.Mathlib.Text.{◌==◌ as str_eq}
use lodgiva.Common.{
  ◌+◌, Bool, ◌&&◌, ◌||◌, not, Option, none, some, [], ◌∷◌, String, ◌==◌, ltb, leb, find, any,
  if◌then◌else◌,
}
use lodgiva.Store.{
  Key, checked_in, in_house, is_out, occupied_clean, text, code_points, missing, Room, Reservation,
  ReservationRoom, M, pure, gets, require, modify, throw_if, ◌>>=◌, ◌>>◌, not_found, conflict,
  forbidden, override_forbidden, outside_stay_dates, no_room_available, room_not_found,
  room_type_mismatch, room_blocked, room_not_available, room_not_ready, room_occupied,
}
use lodgiva.Access.{Auth, log, emit, assert_property}
use lodgiva.Reservations.Rooms.{
  assert_transition, get_or_throw, room_of, is_clash, blocks_room, occupies, is_ready, RoomInput,
  allocate_room, update_stay, update_room_status, update_reservation,
}

-- `["TENANT_OWNER", "GENERAL_MANAGER"].includes(role)`
abbrev pub is_manager : String → Bool
is_manager role = str_eq role "TENANT_OWNER" || str_eq role "GENERAL_MANAGER"

-- `checkInSchema`
pub record CheckIn : Type 0 where
  pub room_id : Option Key
  pub override_dirty_room : Bool

abbrev pub room_input : Auth → Reservation → ReservationRoom → RoomInput
room_input auth res stay = record {
  tenant_id = auth.tenant_id;
  property_id = res.property_id;
  room_type_id = stay.room_type_id;
  arrival = res.arrival_date;
  departure = res.departure_date;
}

-- `dto.roomId ?? resRoom.roomId`
abbrev pub first_given : Option Key → Option Key → Option Key
first_given none other = other
first_given (some id) other = some id

-- The room that is named, or one that is picked.
unfoldable pub pick_room :
    (String → String → Bool) → Auth → Reservation → ReservationRoom → Option Key → M Key
unfolding allocate_room
pick_room before auth res stay (some id) = pure id
pick_room before auth res stay none = do
  picked ← require (← allocate_room before (room_input auth res stay)) (conflict no_room_available)
  pure picked.id

abbrev pub is_room_of : Auth → Key → Key → Room → Bool
is_room_of auth property_id room_id r =
    r.id == room_id && (r.tenant_id == auth.tenant_id && r.property_id == property_id)

unfoldable pub find_room : Auth → Key → Key → M Room
find_room auth property_id room_id = do
  require (← gets (λ db. find (is_room_of auth property_id room_id) db.rooms))
      (not_found room_not_found)

-- The guards of `checkIn` on the room.
unfoldable pub check_fit : Auth → Reservation → ReservationRoom → Room → Bool → M (Unit {0})
check_fit auth res stay room override = do
  throw_if (not (room.room_type_id == stay.room_type_id)) (conflict room_type_mismatch)
  blocked ←
      gets (λ db.
        any (blocks_room auth.tenant_id room.id res.arrival_date res.departure_date) db.blocks)
  throw_if (blocked || is_out room.operational_status) (conflict room_blocked)
  throw_if
      (← gets (λ db.
        any (is_clash stay.id auth.tenant_id room.id res.arrival_date res.departure_date)
          db.reservation_rooms))
      (conflict room_not_available)
  throw_if (not (is_ready room.operational_status) && not override) (conflict room_not_ready)
  throw_if (← gets (λ db. any (occupies auth.tenant_id room.id) db.reservation_rooms))
      (conflict room_occupied)

abbrev pub in_house_row : Key → ReservationRoom → ReservationRoom
in_house_row room_id r = record r { room_id = some room_id; status = in_house }

abbrev pub checked_in_row : Reservation → Reservation
checked_in_row r = record r { status = checked_in; version = r.version + 1 }

-- The writes of `checkIn`.
unfoldable pub settle_in : Auth → Reservation → ReservationRoom → Room → Bool → M Reservation
unfolding log emit
settle_in auth res stay room override = do
  modify (update_stay stay.id (in_house_row room.id))
  modify (update_room_status room.id occupied_clean)
  modify (update_reservation res.id checked_in_row)
  log auth "frontdesk.check_in" "reservation" res.id (some res.property_id) (
      ("room", text room.room_number)
      ∷ (
        "override",
        if override && not (is_ready room.operational_status)
            then text "dirty-room-override"
            else missing,
      )
      ∷ [])
  emit auth.tenant_id "reservation" res.id "guest.checked_in" (
      ("confirmationCode", code_points res.confirmation_code)
      ∷ ("room", text room.room_number)
      ∷ [])
  pure (checked_in_row res)

-- `checkIn`
unfoldable pub check_in : (String → String → Bool) → Auth → Key → CheckIn → M Reservation
check_in before auth id dto = do
  throw_if (dto.override_dirty_room && not (is_manager auth.role)) (forbidden override_forbidden)
  res ← get_or_throw auth id
  assert_transition res.status checked_in
  property ← assert_property auth res.property_id
  throw_if
      (ltb property.business_date res.arrival_date || leb res.departure_date property.business_date)
      (conflict outside_stay_dates)
  stay ← room_of res.id
  room_id ← pick_room before auth res stay (first_given dto.room_id stay.room_id)
  room ← find_room auth res.property_id room_id
  check_fit auth res stay room dto.override_dirty_room
  settle_in auth res stay room dto.override_dirty_room
