-- ===== src/Reservations/Departure.antt =====
-- `postStayedNights` and `checkOut` of
-- apps/api/src/modules/reservations.module.ts. `iso` is the text
-- of a date, `spell` the text of code points.
use package.text.Mathlib.Text.{◌==◌ as str_eq}
use lodgiva.Common.{
  ℕ, ◌+◌, Bool, true, ◌&&◌, not, Option, none, some, List, [], ◌∷◌, String, ◌&◌, ◌==◌, ltb, find,
  any, update_where, if◌then◌else◌,
}
use lodgiva.Common.Int.{ℤ, pos, ltb_ℤ}
use lodgiva.Money.{nights_between}
use lodgiva.Store.{
  Key, IsoDate, is_room_charge, room_charge, is_open_folio, closed_folio, checked_in, checked_out,
  departed, vacant_dirty, text, truth, number, code_points, missing, Room, Reservation,
  ReservationRoom, Folio, FolioEntry, Property, Db, Result, ok, err, M, pure, gets, require, modify,
  throw_if, when, ◌>>=◌, ◌>>◌, conflict, forbidden, crash, override_forbidden, outstanding_balance,
}
use lodgiva.Access.{Auth, log, emit, property_or_throw}
use lodgiva.ReservationState.{same_state}
use lodgiva.Folios.{Charge, get_folio_or_throw, balance_minor, post_charge_tx}
use lodgiva.Reservations.Rooms.{
  assert_transition, get_or_throw, room_of, first_folio, update_stay, update_room_status,
  update_reservation, create_turnover,
}
use lodgiva.Reservations.Arrival.{is_manager}

-- `tx.room.findUnique`, where the stay has a room
abbrev pub room_of_stay : Option Key → List Room → Option Room
room_of_stay none rooms = none
room_of_stay (some id) rooms = find (λ r. r.id == id) rooms

-- `nights.slice(0, 1)`
abbrev pub first_night : List IsoDate → List IsoDate
first_night [] = []
first_night (d ∷ _) = d ∷ []

abbrev pub or_first : List IsoDate → List IsoDate → List IsoDate
or_first [] all_nights = first_night all_nights
or_first (d ∷ ds) all_nights = d ∷ ds

-- The nights that are charged: those stayed so far, and the first one at least.
unfoldable pub charged_nights : Reservation → IsoDate → List IsoDate
charged_nights res today =
    let until = if ltb today res.departure_date then today else res.departure_date in
    or_first (nights_between res.arrival_date until)
      (nights_between res.arrival_date res.departure_date)

-- The description of a night's charge. `trim` leaves it as it is: it begins with a letter and ends
-- with a digit.
abbrev pub night_text : (IsoDate → String) → Option Room → IsoDate → String
night_text iso none night = "Room  night " & iso night
night_text iso (some room) night = "Room " & room.room_number & " night " & iso night

abbrev pub is_night_charge : Key → String → FolioEntry → Bool
is_night_charge folio_id description e =
    e.folio_id == folio_id && (is_room_charge e.type && str_eq e.description description)

-- The charge of a night.
abbrev pub night_charge : ReservationRoom → String → IsoDate → Charge
night_charge stay description date = record {
  type = room_charge;
  description = description;
  amount_minor = stay.nightly_rate_minor;
  apply_taxes = true;
  business_date = date;
}

-- The loop over the nights: each is posted unless an entry with its description stands.
unfoldable pub post_nights :
    Auth → Folio → ReservationRoom → (IsoDate → String) → IsoDate → List IsoDate → M (Unit {0})
post_nights auth folio stay describe date [] = pure tt
post_nights auth folio stay describe date (night ∷ nights) = do
  already ← gets (λ db. any (is_night_charge folio.id (describe night)) db.entries)
  when (not already)
      (post_charge_tx auth folio (night_charge stay (describe night) date) >> pure tt)
  post_nights auth folio stay describe date nights

-- `postStayedNights`, after the first look-ups
unfoldable pub post_stayed_on :
    (IsoDate → String) → Auth → Reservation → Property → Folio → M (Unit {0})
post_stayed_on iso auth res property folio_row = do
  folio ← get_folio_or_throw auth folio_row.id
  if not (is_open_folio folio.status)
      then pure tt
      else (room_of res.id >>= λ stay. gets (λ db. room_of_stay stay.room_id db.rooms) >>= λ room.
          post_nights auth folio stay (night_text iso room) property.business_date
            (charged_nights res property.business_date))

-- `postStayedNights`
unfoldable pub post_stayed_nights : (IsoDate → String) → Auth → Key → M (Unit {0})
post_stayed_nights iso auth id = do
  res ← get_or_throw auth id
  if not (same_state res.status checked_in)
      then pure tt
      else (property_or_throw res.property_id >>= λ property. gets (first_folio res.id) >>= λ found.
          elim found [ none ↦ pure tt | some folio ↦ post_stayed_on iso auth res property folio ])

-- `checkOutSchema`
pub record CheckOut : Type 0 where
  pub allow_outstanding_balance : Bool

abbrev pub departed_row : ReservationRoom → ReservationRoom
departed_row r = record r { status = departed }

abbrev pub checked_out_row : Reservation → Reservation
checked_out_row r = record r { status = checked_out; version = r.version + 1 }

abbrev pub close_folio : Key → Db → Db
close_folio id db = record db {
  folios = update_where (λ f. f.id == id) (λ f. record f { status = closed_folio }) db.folios;
}

-- The vacated room goes dirty and gets a task.
unfoldable pub vacate : Auth → Key → IsoDate → String → Option Room → M (Unit {0})
unfolding create_turnover
vacate auth property_id date notes none = pure tt
vacate auth property_id date notes (some room) = do
  modify (update_room_status room.id vacant_dirty)
  create_turnover auth property_id room.id date notes

-- The writes of `checkOut`, with the text of the code for the task's note.
unfoldable pub settle_out :
    Auth
    → Reservation
    → ReservationRoom
    → Option Room
    → Folio
    → IsoDate
    → String
    → ℤ
    → M Reservation
settle_out auth res stay room folio date notes balance = do
  modify (close_folio folio.id)
  modify (update_stay stay.id departed_row)
  vacate auth res.property_id date notes room
  modify (update_reservation res.id checked_out_row)
  log auth "frontdesk.check_out" "reservation" res.id (some res.property_id) (
      ("balanceMinor", number balance)
      ∷ ("receivable", if ltb_ℤ (pos 0) balance then truth true else missing)
      ∷ [])
  emit auth.tenant_id "reservation" res.id "guest.checked_out"
      (("confirmationCode", code_points res.confirmation_code) ∷ [])
  pure (checked_out_row res)

-- The second transaction of `checkOut` after its look-ups: the nights are posted again, and the balance
-- is asked for.
unfoldable pub settle_rest :
    (IsoDate → String)
    → (List ℕ → String)
    → Auth
    → CheckOut
    → Reservation
    → ReservationRoom
    → Folio
    → Property
    → M Reservation
settle_rest iso spell auth dto res stay folio property = do
  room ← gets (λ db. room_of_stay stay.room_id db.rooms)
  post_nights auth folio stay (night_text iso room) property.business_date
      (charged_nights res property.business_date)
  balance ← balance_minor folio.id
  throw_if (ltb_ℤ (pos 0) balance && not dto.allow_outstanding_balance)
      (conflict outstanding_balance)
  settle_out auth res stay room folio property.business_date
      ("Post-checkout turnover (" & spell res.confirmation_code & ")") balance

-- The second transaction of `checkOut`.
unfoldable pub settle :
    (IsoDate → String) → (List ℕ → String) → Auth → Key → CheckOut → M Reservation
settle iso spell auth id dto = do
  res ← get_or_throw auth id
  assert_transition res.status checked_out
  property ← property_or_throw res.property_id
  folio_row ← require (← gets (first_folio res.id)) crash
  folio ← get_folio_or_throw auth folio_row.id
  stay ← room_of res.id
  settle_rest iso spell auth dto res stay folio property

-- `checkOut`. The nights are posted in a transaction of their own, so what a refusal leaves behind is
-- the database after it.
unfoldable pub check_out :
    (IsoDate → String) → (List ℕ → String) → Auth → Key → CheckOut → Db → Result Reservation × Db
check_out iso spell auth id dto db =
    if dto.allow_outstanding_balance && not (is_manager auth.role)
    then (err (forbidden override_forbidden), db)
    else elim (post_stayed_nights iso auth id db) [
      | err e ↦ (err e, db)
      | ok (done, mid) ↦ elim (settle iso spell auth id dto mid) [
        | err e ↦ (err e, mid)
        | ok (res, end) ↦ (ok res, end)
      ]
    ]
