-- ===== src/Reservations/Creation.antt =====
-- `create` and `nextConfirmationCode` of apps/api/src/modules/reservations.module.ts, and
-- `consumeHoldTx` of apps/api/src/modules/booking.module.ts.
use package.text.Mathlib.Text.{◌==◌ as str_eq}
use lodgiva.Common.{
  ℕ, zero, suc, Bool, true, false, ◌&&◌, ◌||◌, not, Option, none, some, List, [], ◌∷◌, String, ◌&◌,
  ◌==◌, ltb, leb, find, any, update_where, if◌then◌else◌,
}
use lodgiva.Store.{
  Key, IsoDate, is_active, consumed, confirmed, reserved, open_folio, text, code_points, day, Guest,
  Hold, Reservation, ReservationRoom, RoomType, Folio, Room, M, pure, gets, require, modify, fresh,
  throw, throw_if, ◌>>=◌, ◌>>◌, bad_request, not_found, conflict, invalid_date_range,
  arrival_in_past, room_type_not_found, hold_mismatch, guest_not_found, code_generation_failed,
  hold_not_found, hold_not_active, hold_expired, room_type_mismatch, room_not_available,
}
use lodgiva.Access.{Auth, log, emit, assert_property}
use lodgiva.ConfirmationCode.{generate_confirmation_code}
use lodgiva.Inventory.{StayInput, allocate_stay}
use lodgiva.Reservations.Rooms.{books_room}

-- `createSchema`
pub record CreateReservation : Type 0 where
  pub property_id : Key
  pub guest_id : Key
  pub room_type_id : Key
  pub room_id : Option Key
  pub arrival_date : IsoDate
  pub departure_date : IsoDate
  pub adults : ℕ
  pub children : ℕ
  pub source : String
  pub notes : Option String
  pub hold_token : Option String

-- Equality of two codes.
abbrev pub same_code : List ℕ → List ℕ → Bool
same_code [] [] = true
same_code (a ∷ s) (b ∷ t) = a == b && same_code s t
same_code _ _ = false

abbrev pub has_code : Key → Key → List ℕ → Reservation → Bool
has_code tenant_id property_id code r =
    r.tenant_id == tenant_id && (r.property_id == property_id && same_code r.confirmation_code code)

-- The loop of `nextConfirmationCode`, with the attempts that are left: attempt k draws its glyphs by
-- the numbers `rand k`.
unfoldable pub next_code : (ℕ → ℕ → ℕ) → Key → Key → ℕ → ℕ → M (List ℕ)
next_code rand tenant_id property_id attempt zero = throw (conflict code_generation_failed)
next_code rand tenant_id property_id attempt (suc left) =
    let code = generate_confirmation_code (rand attempt) in
    let again = next_code rand tenant_id property_id (suc attempt) left in
    gets (λ db. any (has_code tenant_id property_id code) db.reservations) >>= λ clash.
    if clash then again else pure code

unfoldable pub next_confirmation_code : (ℕ → ℕ → ℕ) → Key → Key → M (List ℕ)
next_confirmation_code rand tenant_id property_id = next_code rand tenant_id property_id 0 6

-- `consumeHoldTx`, with the hash of the program's crypto library
unfoldable pub consume_hold_tx : (String → String) → Key → String → M Hold
consume_hold_tx sha256 tenant_id token = do
  hold ←
      require
        (← gets (λ db.
          find (λ h. h.tenant_id == tenant_id && str_eq h.token_hash (sha256 token)) db.holds))
        (not_found hold_not_found)
  throw_if (not (is_active hold.status)) (conflict hold_not_active)
  throw_if (← gets (λ db. leb hold.expires_at db.now)) (conflict hold_expired)
  pure hold

-- `if (dto.holdToken)`: the empty text is no token
abbrev pub given : Option String → Option String
given none = none
given (some token) = if str_eq token "" then none else some token

-- The hold that `create` converts, if a token is given; it is for the same type and dates.
unfoldable pub held_for :
    (String → String) → Auth → CreateReservation → Option String → M (Option Hold)
unfolding consume_hold_tx
held_for sha256 auth dto none = pure none
held_for sha256 auth dto (some token) = do
  hold ← consume_hold_tx sha256 auth.tenant_id token
  throw_if
      (not (hold.room_type_id == dto.room_type_id)
        || (not (hold.arrival_date == dto.arrival_date)
            || not (hold.departure_date == dto.departure_date)))
      (conflict hold_mismatch)
  pure (some hold)

abbrev pub is_assignable : Auth → CreateReservation → Key → Room → Bool
is_assignable auth dto room_id r =
    r.id == room_id
    && (r.tenant_id == auth.tenant_id
        && (r.property_id == dto.property_id && r.room_type_id == dto.room_type_id))

-- The checks on the room that is asked for.
unfoldable pub check_room : Auth → CreateReservation → Option Key → M (Unit {0})
check_room auth dto none = pure tt
check_room auth dto (some room_id) = do
  require (← gets (λ db. find (is_assignable auth dto room_id) db.rooms))
      (bad_request room_type_mismatch)
  throw_if
      (← gets (λ db.
        any (books_room auth.tenant_id room_id dto.arrival_date dto.departure_date)
          db.reservation_rooms))
      (conflict room_not_available)

abbrev pub reservation_row : Auth → CreateReservation → Key → List ℕ → Key → Reservation
reservation_row auth dto guest_id code id = record {
  id = id;
  tenant_id = auth.tenant_id;
  property_id = dto.property_id;
  confirmation_code = code;
  primary_guest_id = guest_id;
  source = dto.source;
  status = confirmed;
  arrival_date = dto.arrival_date;
  departure_date = dto.departure_date;
  adults = dto.adults;
  children = dto.children;
  notes = dto.notes;
  version = 1;
}

abbrev pub stay_row : Auth → CreateReservation → RoomType → Key → Key → ReservationRoom
stay_row auth dto room_type reservation_id id = record {
  id = id;
  tenant_id = auth.tenant_id;
  reservation_id = reservation_id;
  room_type_id = room_type.id;
  room_id = dto.room_id;
  arrival_date = dto.arrival_date;
  departure_date = dto.departure_date;
  adults = dto.adults;
  children = dto.children;
  nightly_rate_minor = room_type.base_rate_minor;
  status = reserved;
}

-- `tx.reservation.create`, with the room of the stay
unfoldable pub create_rows :
    Auth → CreateReservation → RoomType → Key → List ℕ → M (Reservation × ReservationRoom)
create_rows auth dto room_type guest_id code = do
  id ← fresh
  stay_id ← fresh
  let stay = stay_row auth dto room_type id stay_id
  let row = reservation_row auth dto guest_id code id
  modify (λ db. record db {
    reservations = row ∷ db.reservations;
    reservation_rooms = stay ∷ db.reservation_rooms;
  })
  pure (row, stay)

abbrev pub stay_input : Auth → CreateReservation → RoomType → Key → Option Hold → StayInput
stay_input auth dto room_type stay_id hold = record {
  tenant_id = auth.tenant_id;
  property_id = dto.property_id;
  room_type_id = room_type.id;
  arrival = dto.arrival_date;
  departure = dto.departure_date;
  hold_id = none;
  reservation_room_id = some stay_id;
  consuming_hold_id = elim hold [ none ↦ none | some h ↦ some h.id ];
}

-- `tx.hold.update`, where there is a hold
unfoldable pub consume : Option Hold → M (Unit {0})
consume none = pure tt
consume (some hold) = modify λ db. record db {
  holds = update_where (λ h. h.id == hold.id) (λ h. record h { status = consumed }) db.holds;
}

abbrev pub folio_row : Auth → CreateReservation → Key → Key → Key → Folio
folio_row auth dto guest_id reservation_id id = record {
  id = id;
  tenant_id = auth.tenant_id;
  property_id = dto.property_id;
  reservation_id = some reservation_id;
  guest_id = guest_id;
  label = "Main";
  is_primary = true;
  status = open_folio;
}

-- The writes of `create`: the reservation, its inventory, the hold, the folio and the events.
unfoldable pub book :
    Auth → CreateReservation → RoomType → Guest → List ℕ → Option Hold → M Reservation
book auth dto room_type guest code hold = do
  (row, stay) ← create_rows auth dto room_type guest.id code
  allocate_stay (stay_input auth dto room_type stay.id hold)
  consume hold
  folio_id ← fresh
  modify (λ db. record db { folios = folio_row auth dto guest.id row.id folio_id ∷ db.folios })
  log auth "reservation.created" "reservation" row.id (some dto.property_id) (
      ("confirmationCode", code_points code)
      ∷ ("guest", text (guest.first_name & " " & guest.last_name))
      ∷ [])
  emit auth.tenant_id "reservation" row.id "reservation.confirmed"
      (("confirmationCode", code_points code) ∷ ("arrivalDate", day dto.arrival_date) ∷ [])
  pure row

abbrev pub is_type_for : Auth → CreateReservation → RoomType → Bool
is_type_for auth dto t =
    t.id == dto.room_type_id && (t.tenant_id == auth.tenant_id && t.property_id == dto.property_id)

abbrev pub is_guest_for : Auth → CreateReservation → Guest → Bool
is_guest_for auth dto g = g.id == dto.guest_id && g.tenant_id == auth.tenant_id

-- `create`
unfoldable pub create : (String → String) → (ℕ → ℕ → ℕ) → Auth → CreateReservation → M Reservation
create sha256 rand auth dto = do
  throw_if (leb dto.departure_date dto.arrival_date) (bad_request invalid_date_range)
  property ← assert_property auth dto.property_id
  throw_if (ltb dto.arrival_date property.business_date) (bad_request arrival_in_past)
  room_type ←
      require (← gets (λ db. find (is_type_for auth dto) db.room_types))
        (not_found room_type_not_found)
  hold ← held_for sha256 auth dto (given dto.hold_token)
  check_room auth dto dto.room_id
  guest ←
      require (← gets (λ db. find (is_guest_for auth dto) db.guests)) (not_found guest_not_found)
  code ← next_confirmation_code rand auth.tenant_id dto.property_id
  book auth dto room_type guest code hold
