-- ===== src/Reservations/Changes.antt =====
-- `modify`, `cancel` and `noShow` of apps/api/src/modules/reservations.module.ts.
use lodgiva.Common.{
  ℕ, ◌+◌, Bool, true, false, ◌&&◌, ◌||◌, not, Option, none, some, List, [], ◌∷◌, ◌++◌, String, ◌==◌,
  ltb, leb, find, filter, any, or_else, is_some, update_where, if◌then◌else◌,
}
use lodgiva.Common.Int.{ℤ, pos}
use lodgiva.Store.{
  Key, IsoDate, ReservationState, span, cancelled, no_show, released, text, number, code_points,
  day, ident, Json, RoomType, Reservation, ReservationRoom, Db, M, pure, gets, require, modify,
  throw_if, when, ◌>>=◌, ◌>>◌, bad_request, not_found, conflict, no_changes, not_modifiable,
  invalid_date_range, room_type_not_found, occupancy_exceeded,
}
use lodgiva.Access.{Auth, log, emit}
use lodgiva.ReservationState.{is_modifiable}
use lodgiva.Inventory.{StayInput, allocate_stay, release_reservation_room}
use lodgiva.Reservations.Rooms.{
  assert_transition, get_or_throw, room_of, is_clash, update_stay, update_reservation,
}
use lodgiva.Reservations.Moves.{text_or_missing, key_or_missing}

-- `modifySchema`
pub record Modify : Type 0 where
  pub arrival_date : Option IsoDate
  pub departure_date : Option IsoDate
  pub room_type_id : Option Key
  pub adults : Option ℕ
  pub children : Option ℕ
  pub notes : Option String
  pub reason : Option String

-- `Object.keys(dto).length === 0`
abbrev pub has_no_field : Modify → Bool
has_no_field dto = not (
    is_some dto.arrival_date
    || (is_some dto.departure_date
        || (is_some dto.room_type_id
            || (is_some dto.adults
                || (is_some dto.children || (is_some dto.notes || is_some dto.reason))))))

-- The values that the stay will have.
pub record Wanted : Type 0 where
  pub arrival_date : IsoDate
  pub departure_date : IsoDate
  pub room_type_id : Key
  pub adults : ℕ
  pub children : ℕ
  pub notes : Option String

abbrev pub wanted_of : Modify → Reservation → ReservationRoom → Wanted
wanted_of dto res stay = record {
  arrival_date = or_else dto.arrival_date res.arrival_date;
  departure_date = or_else dto.departure_date res.departure_date;
  room_type_id = or_else dto.room_type_id stay.room_type_id;
  adults = or_else dto.adults res.adults;
  children = or_else dto.children res.children;
  notes = elim dto.notes [ none ↦ res.notes | some notes ↦ some notes ];
}

abbrev pub dates_changed : Wanted → Reservation → Bool
dates_changed w res =
    not (w.arrival_date == res.arrival_date) || not (w.departure_date == res.departure_date)

abbrev pub type_changed : Wanted → ReservationRoom → Bool
type_changed w stay = not (w.room_type_id == stay.room_type_id)

abbrev pub inventory_changed : Wanted → Reservation → ReservationRoom → Bool
inventory_changed w res stay = dates_changed w res || type_changed w stay

abbrev pub claim_of : Auth → Reservation → ReservationRoom → Wanted → StayInput
claim_of auth res stay w = record {
  tenant_id = auth.tenant_id;
  property_id = res.property_id;
  room_type_id = w.room_type_id;
  arrival = w.arrival_date;
  departure = w.departure_date;
  hold_id = none;
  reservation_room_id = some stay.id;
  consuming_hold_id = none;
}

-- The inventory of a modified stay: released, then claimed anew.
unfoldable pub reclaim_nights : Auth → Reservation → ReservationRoom → Wanted → M (Unit {0})
unfolding release_reservation_room
reclaim_nights auth res stay w = do
  release_reservation_room stay.id
  allocate_stay (claim_of auth res stay w)
  pure tt

-- The room fits the type, and no other stay is booked into it.
abbrev pub still_fits : Auth → ReservationRoom → Wanted → Key → Db → Bool
still_fits auth stay w room_id db =
    any (λ r. r.id == room_id && r.room_type_id == w.room_type_id) db.rooms
    && not (
        any (is_clash stay.id auth.tenant_id room_id w.arrival_date w.departure_date)
          db.reservation_rooms)

-- The room that the stay keeps, or none.
abbrev pub kept_room : Auth → Reservation → ReservationRoom → Wanted → Db → Option Key
kept_room auth res stay w db = elim stay.room_id [
  | none ↦ none
  | some room_id ↦
      if inventory_changed w res stay && not (still_fits auth stay w room_id db)
      then none
      else some room_id
]

abbrev pub modified_stay : Wanted → Option Key → ℤ → ReservationRoom → ReservationRoom
modified_stay w room_id rate r = record r {
  room_type_id = w.room_type_id;
  room_id = room_id;
  arrival_date = w.arrival_date;
  departure_date = w.departure_date;
  adults = w.adults;
  children = w.children;
  nightly_rate_minor = rate;
}

abbrev pub modified_row : Wanted → Reservation → Reservation
modified_row w r = record r {
  arrival_date = w.arrival_date;
  departure_date = w.departure_date;
  adults = w.adults;
  children = w.children;
  notes = w.notes;
  version = r.version + 1;
}

abbrev pub rate_of : Wanted → ReservationRoom → RoomType → ℤ
rate_of w stay room_type =
    if type_changed w stay then room_type.base_rate_minor else stay.nightly_rate_minor

-- One of the `changes`, where it is there: its old and its new value.
abbrev pub change_if : Bool → String → String → Json → Json → List (String × Json)
change_if true from_key to_key before after = (from_key, before) ∷ (to_key, after) ∷ []
change_if false from_key to_key before after = []

abbrev pub same_room_id : Option Key → Option Key → Bool
same_room_id none none = true
same_room_id (some a) (some b) = a == b
same_room_id _ _ = false

-- `changes`
abbrev pub changes_of : Reservation → ReservationRoom → Wanted → Option Key → List (String × Json)
changes_of res stay w room_id =
    change_if (dates_changed w res) "changes.dates.from" "changes.dates.to"
      (span res.arrival_date res.departure_date) (span w.arrival_date w.departure_date)
    ++ (change_if (type_changed w stay) "changes.roomType.from" "changes.roomType.to"
          (ident stay.room_type_id) (ident w.room_type_id)
        ++ (change_if (not (w.adults == res.adults)) "changes.adults.from" "changes.adults.to"
              (number (pos res.adults)) (number (pos w.adults))
            ++ (change_if (not (w.children == res.children)) "changes.children.from"
                  "changes.children.to" (number (pos res.children)) (number (pos w.children))
                ++ change_if (not (same_room_id room_id stay.room_id)) "changes.roomAssignment.from"
                    "changes.roomAssignment.to" (key_or_missing stay.room_id)
                    (key_or_missing room_id))))

abbrev pub is_type_of_property : Auth → Reservation → Wanted → RoomType → Bool
is_type_of_property auth res w t =
    t.id == w.room_type_id && (t.tenant_id == auth.tenant_id && t.property_id == res.property_id)

-- The transaction of `modify`.
unfoldable pub rebook :
    Auth → Reservation → ReservationRoom → Wanted → Option String → M Reservation
rebook auth res stay w reason = do
  room_type ←
      require (← gets (λ db. find (is_type_of_property auth res w) db.room_types))
        (not_found room_type_not_found)
  throw_if (ltb room_type.max_occupancy (w.adults + w.children)) (conflict occupancy_exceeded)
  when (inventory_changed w res stay) (reclaim_nights auth res stay w)
  room_id ← gets (kept_room auth res stay w)
  modify (update_stay stay.id (modified_stay w room_id (rate_of w stay room_type)))
  modify (update_reservation res.id (modified_row w))
  log auth "reservation.modified" "reservation" res.id (some res.property_id) (
      ("confirmationCode", code_points res.confirmation_code)
      ∷ (changes_of res stay w room_id ++ (("reason", text_or_missing reason) ∷ [])))
  emit auth.tenant_id "reservation" res.id "reservation.modified" (
      ("confirmationCode", code_points res.confirmation_code)
      ∷ ("arrivalDate", day w.arrival_date)
      ∷ ("departureDate", day w.departure_date)
      ∷ changes_of res stay w room_id)
  pure (modified_row w res)

-- `modify`
unfoldable pub modify_stay : Auth → Key → Modify → M Reservation
modify_stay auth id dto = do
  throw_if (has_no_field dto) (bad_request no_changes)
  res ← get_or_throw auth id
  throw_if (not (is_modifiable res.status)) (conflict not_modifiable)
  stay ← room_of res.id
  let w = wanted_of dto res stay
  throw_if (leb w.departure_date w.arrival_date) (bad_request invalid_date_range)
  rebook auth res stay w dto.reason

-- `tx.reservationRoom.updateMany` to RELEASED
abbrev pub release_stays : Key → Db → Db
release_stays id db = record db {
  reservation_rooms =
      update_where (λ r. r.reservation_id == id) (λ r. record r { status = released })
        db.reservation_rooms;
}

-- The loop over `res.rooms`.
unfoldable pub free_rooms : List ReservationRoom → M (Unit {0})
unfolding release_reservation_room
free_rooms [] = pure tt
free_rooms (r ∷ rooms) = release_reservation_room r.id >> free_rooms rooms

abbrev pub ended_row : ReservationState → Reservation → Reservation
ended_row status r = record r { status = status; version = r.version + 1 }

-- What `cancel` and `noShow` write before their events.
unfoldable pub end_stay : Reservation → ReservationState → M (Unit {0})
end_stay res status = do
  rooms ← gets (λ db. filter (λ r. r.reservation_id == res.id) db.reservation_rooms)
  modify (release_stays res.id)
  free_rooms rooms
  modify (update_reservation res.id (ended_row status))

-- `cancel`
unfoldable pub cancel : Auth → Key → String → M Reservation
cancel auth id reason = do
  res ← get_or_throw auth id
  assert_transition res.status cancelled
  end_stay res cancelled
  log auth "reservation.cancelled" "reservation" res.id (some res.property_id)
      (("reason", text reason) ∷ [])
  emit auth.tenant_id "reservation" res.id "reservation.cancelled"
      (("confirmationCode", code_points res.confirmation_code) ∷ ("reason", text reason) ∷ [])
  pure (ended_row cancelled res)

-- `noShow`
unfoldable pub mark_no_show : Auth → Key → M Reservation
mark_no_show auth id = do
  res ← get_or_throw auth id
  assert_transition res.status no_show
  end_stay res no_show
  log auth "reservation.no_show" "reservation" res.id (some res.property_id) []
  emit auth.tenant_id "reservation" res.id "reservation.no_show" (
      ("confirmationCode", code_points res.confirmation_code)
      ∷ ("arrivalDate", day res.arrival_date)
      ∷ [])
  pure (ended_row no_show res)
