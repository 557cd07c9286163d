-- ===== src/Reservations/Moves.antt =====
-- `roomMove`, `extendStay` and `assignRoom` of
-- apps/api/src/modules/reservations.module.ts.
use lodgiva.Common.{
  ℕ, ◌+◌, Bool, true, false, ◌&&◌, not, Option, none, some, List, [], ◌∷◌, String, ◌&◌, ◌==◌, ltb,
  leb, find, any, count, length, is_some, is_id, if◌then◌else◌,
}
use lodgiva.Common.Int.{pos}
use lodgiva.Money.{nights_between}
use lodgiva.Store.{
  Property, Key, IsoDate, checked_in, occupied_clean, text, number, code_points, missing, Json,
  Room, Reservation, ReservationRoom, M, pure, gets, require, modify, throw_if, when, ◌>>=◌, ◌>>◌,
  bad_request, not_found, conflict, no_room_available, room_not_found, room_not_available,
  room_not_ready, room_occupied, not_in_house, same_room, ReservationState, confirmed,
  pending_payment, held, not_extendable, invalid_date_range, record_not_found, already_in_house,
  day, ident,
}
use lodgiva.Access.{Auth, log, emit, property_or_throw}
use lodgiva.ReservationState.{same_state}
use lodgiva.Reservations.Rooms.{
  assert_transition, get_or_throw, room_of, is_booked, is_clash, occupies, is_ready, allocate_room,
  update_stay, update_room_status, update_reservation,
}
use lodgiva.Reservations.Arrival.{find_room, room_input}
use lodgiva.Reservations.Departure.{room_of_stay, vacate}

-- `roomMoveSchema`
pub record RoomMove : Type 0 where
  pub room_id : Key
  pub reason : String
  pub override_dirty_room : Bool

abbrev pub moved_row : Key → ReservationRoom → ReservationRoom
moved_row room_id r = record r { room_id = some room_id }

abbrev pub next_version : Reservation → Reservation
next_version r = record r { version = r.version + 1 }

abbrev pub number_of_room : Option Room → Json
number_of_room none = missing
number_of_room (some room) = text room.room_number

abbrev pub move_note : (List ℕ → String) → Reservation → Option Room → Room → String
move_note spell res none target = ""
move_note spell res (some previous) target =
    "Room move "
    & previous.room_number
    & " → "
    & target.room_number
    & " ("
    & spell res.confirmation_code
    & ")"

-- The writes of `roomMove`.
unfoldable pub move_end :
    (List ℕ → String)
    → Auth
    → Reservation
    → ReservationRoom
    → Room
    → Property
    → RoomMove
    → M (Reservation × String)
move_end spell auth res stay target property dto = do
  previous ← gets (λ db. room_of_stay stay.room_id db.rooms)
  modify (update_stay stay.id (moved_row target.id))
  modify (update_room_status target.id occupied_clean)
  vacate auth res.property_id property.business_date (move_note spell res previous target) previous
  modify (update_reservation res.id next_version)
  log auth "frontdesk.room_move" "reservation" res.id (some res.property_id) (
      ("from", number_of_room previous)
      ∷ ("to", text target.room_number)
      ∷ ("reason", text dto.reason)
      ∷ (
        "override",
        if not (is_ready target.operational_status) then text "dirty-room-override" else missing,
      )
      ∷ [])
  emit auth.tenant_id "reservation" res.id "reservation.room_moved" (
      ("confirmationCode", code_points res.confirmation_code)
      ∷ ("to", text target.room_number)
      ∷ [])
  pure (next_version res, target.room_number)

-- `roomMove`
unfoldable pub room_move : (List ℕ → String) → Auth → Key → RoomMove → M (Reservation × String)
room_move spell auth id dto = do
  res ← get_or_throw auth id
  throw_if (not (same_state res.status checked_in)) (conflict not_in_house)
  stay ← room_of res.id
  target ← find_room auth res.property_id dto.room_id
  throw_if (is_id stay.room_id target.id) (bad_request same_room)
  throw_if (← gets (λ db. any (occupies auth.tenant_id target.id) db.reservation_rooms))
      (conflict room_occupied)
  throw_if (not (is_ready target.operational_status) && not dto.override_dirty_room)
      (conflict room_not_ready)
  property ← property_or_throw res.property_id
  move_end spell auth res stay target property dto

-- `extendSchema`
pub record ExtendStay : Type 0 where
  pub departure_date : IsoDate
  pub reason : Option String

-- `["CHECKED_IN", "CONFIRMED"].includes(status)`
abbrev pub is_extendable : ReservationState → Bool
is_extendable checked_in = true
is_extendable confirmed = true
is_extendable _ = false

-- `["CONFIRMED", "CHECKED_IN", "PENDING_PAYMENT", "HOLD"].includes(status)`
abbrev pub counts_as_sold : ReservationState → Bool
counts_as_sold confirmed = true
counts_as_sold checked_in = true
counts_as_sold pending_payment = true
counts_as_sold held = true
counts_as_sold _ = false

-- A stay that is sold on one of the added nights.
abbrev pub is_sold :
    Auth → ReservationRoom → IsoDate → IsoDate → List Reservation → ReservationRoom → Bool
is_sold auth stay from to reservations r =
    r.tenant_id == auth.tenant_id
    && (r.room_type_id == stay.room_type_id
        && (is_booked r.status
            && (not (r.id == stay.id)
                && ((ltb r.arrival_date to && ltb from r.departure_date)
                    && any (λ x. x.id == r.reservation_id && counts_as_sold x.status)
                        reservations))))

-- The room that a stay has is free on the added nights.
abbrev pub is_room_clash : Auth → ReservationRoom → IsoDate → IsoDate → List ReservationRoom → Bool
is_room_clash auth stay from to stays = elim stay.room_id [
  | none ↦ false
  | some room_id ↦ any (is_clash stay.id auth.tenant_id room_id from to) stays
]

-- The checks on the added nights.
unfoldable pub check_added : Auth → ReservationRoom → IsoDate → IsoDate → M (Unit {0})
check_added auth stay from to = do
  sold ← gets (λ db. count (is_sold auth stay from to db.reservations) db.reservation_rooms)
  room_type ←
      require (← gets (λ db. find (λ t. t.id == stay.room_type_id) db.room_types))
        (not_found record_not_found)
  throw_if (leb (← gets (λ db. count (λ r. r.room_type_id == room_type.id) db.rooms)) sold)
      (conflict room_not_available)
  throw_if (← gets (λ db. is_room_clash auth stay from to db.reservation_rooms))
      (conflict room_not_available)

abbrev pub until_row : IsoDate → ReservationRoom → ReservationRoom
until_row date r = record r { departure_date = date }

abbrev pub extended_row : IsoDate → Reservation → Reservation
extended_row date r = record r { departure_date = date; version = r.version + 1 }

abbrev pub text_or_missing : Option String → Json
text_or_missing none = missing
text_or_missing (some s) = text s

-- `extendStay`
unfoldable pub extend_stay : Auth → Key → ExtendStay → M Reservation
extend_stay auth id dto = do
  res ← get_or_throw auth id
  throw_if (not (is_extendable res.status)) (conflict not_extendable)
  throw_if (leb dto.departure_date res.arrival_date) (bad_request invalid_date_range)
  stay ← room_of res.id
  when (ltb res.departure_date dto.departure_date)
      (check_added auth stay res.departure_date dto.departure_date)
  modify (update_stay stay.id (until_row dto.departure_date))
  modify (update_reservation res.id (extended_row dto.departure_date))
  log auth
      (if ltb res.departure_date dto.departure_date
        then "frontdesk.stay_extended"
        else "frontdesk.early_departure")
      "reservation" res.id (some res.property_id)
      (("from", day res.departure_date)
        ∷ ("to", day dto.departure_date)
        ∷ ("nights", number (pos (length (nights_between res.arrival_date dto.departure_date))))
        ∷ ("reason", text_or_missing dto.reason)
        ∷ [])
  pure (extended_row dto.departure_date res)

abbrev pub is_room_of_type : Auth → Reservation → ReservationRoom → Key → Room → Bool
is_room_of_type auth res stay room_id r =
    r.id == room_id
    && (r.tenant_id == auth.tenant_id
        && (r.property_id == res.property_id && r.room_type_id == stay.room_type_id))

-- The room that is assigned: the one that is named, where it is free, or one that is picked.
unfoldable pub choose_room :
    (String → String → Bool) → Auth → Reservation → ReservationRoom → Option Key → M Room
choose_room before auth res stay (some room_id) = do
  room ←
      require (← gets (λ db. find (is_room_of_type auth res stay room_id) db.rooms))
        (not_found room_not_found)
  throw_if
      (← gets (λ db.
        any (is_clash stay.id auth.tenant_id room.id res.arrival_date res.departure_date)
          db.reservation_rooms))
      (conflict room_not_available)
  pure room
choose_room before auth res stay none = do
  require (← allocate_room before (room_input auth res stay)) (conflict no_room_available)

abbrev pub key_or_missing : Option Key → Json
key_or_missing none = missing
key_or_missing (some k) = ident k

-- `assignRoom`
unfoldable pub assign_room : (String → String → Bool) → Auth → Key → Option Key → M Room
assign_room before auth id room_id = do
  res ← get_or_throw auth id
  throw_if (same_state res.status checked_in) (conflict already_in_house)
  assert_transition res.status checked_in
  stay ← room_of res.id
  room ← choose_room before auth res stay room_id
  modify (update_stay stay.id (moved_row room.id))
  log auth "reservation.room_assigned" "reservation" res.id (some res.property_id) (
      ("room", text room.room_number)
      ∷ ("method", if is_some room_id then text "manual" else text "auto")
      ∷ ("previousRoomId", key_or_missing stay.room_id)
      ∷ [])
  pure room
