-- ===== src/Reservations/Tests.antt =====
-- A stay from its creation to its check-out, in a hotel of two rooms.
use lodgiva.Common.{
  ℕ, ◌+◌, ◌*◌, ◌%◌, true, false, none, some, [], ◌∷◌, String, ◌≡◌, refl, arith, All, inl, ◌⊎◌, ◌==◌,
  if◌then◌else◌,
}
use lodgiva.Common.Int.{pos, ◌+ℤ◌, mul_div}
use lodgiva.Money.{nights_between}
use lodgiva.Store.{
  IsoDate, Db, ok, err, Room, RoomType, Folio, Reservation, ReservationRoom, vacant_clean,
  vacant_dirty, cancelled, conflict, outstanding_balance,
}
use lodgiva.Store.Sample.{empty_db}
use lodgiva.Access.{Auth, log, emit, assert_property, property_or_throw}
use lodgiva.ReservationState.{can_transition, same_state}
use lodgiva.ConfirmationCode.{generate_confirmation_code}
use lodgiva.Tax.{run_rules, apply_fallbacks, apply_fallback, compute, sum_lines, ordered_rules}
use lodgiva.Inventory.{allocate_stay, claim_nights, claim_night, place, release_reservation_room}
use lodgiva.Folios.{
  post_tax_lines, post_charge_tx, create_entry, announce, balance_minor, get_folio_or_throw,
}
use lodgiva.Folios.Frame.{LedgerOnly}
use lodgiva.Reservations.Rooms.{get_or_throw, room_of, allocate_room, create_turnover}
use lodgiva.Reservations.Creation.{
  CreateReservation, create, next_code, next_confirmation_code, held_for, check_room, create_rows,
  consume, book, folio_row, stay_row,
}
use lodgiva.Reservations.Arrival.{
  CheckIn, check_in, pick_room, find_room, check_fit, settle_in, is_manager,
}
use lodgiva.Reservations.Departure.{
  check_out, settle, settle_rest, settle_out, post_stayed_nights, post_stayed_on, charged_nights,
  post_nights, night_text, vacate,
}
use lodgiva.Reservations.Moves.{RoomMove, room_move, move_end, ExtendStay, extend_stay, check_added}
use lodgiva.Reservations.Changes.{cancel, end_stay, free_rooms}
use lodgiva.Reservations.Nights.{Charged, post_nights-idempotent}
use lodgiva.Reservations.CheckIn.{Arrived, check_in-Arrived}
use lodgiva.Reservations.InHouse.{Moved, room_move-Moved}
use lodgiva.Reservations.Endings.{Ended, cancel-Ended}
use lodgiva.Reservations.Leaving.{SettledOut}
use lodgiva.Reservations.Outcomes.{check_out-SettledOut, check_out-refused}
use lodgiva.Reservations.House.{Safe}
use lodgiva.Reservations.House.Fate.{Fate}
use lodgiva.Reservations.Steps.{
  World, Steps, create_step, check_in_step, refused_step, room_move_step, check_out_step, still,
  after, Steps-Safe, Steps-Fate,
}

abbrev rolls : ℕ → ℕ → ℕ
rolls attempt i = (attempt + i * 7) % 25

abbrev world : World
world = record {
  iso = λ date. if date == 150 then "2026-03-01" else "2026-03-02";
  spell = λ code. "LDG-AJT6-ENY9";
  before = λ a b. false;
  sha256 = λ s. s;
}

abbrev manager : Auth
manager = record {
  user_id = 3;
  tenant_id = 1;
  role = "GENERAL_MANAGER";
  all_properties = false;
  property_ids = 2 ∷ [];
}

abbrev room_101 : Room
room_101 = record {
  id = 30;
  tenant_id = 1;
  property_id = 2;
  room_type_id = 8;
  room_number = "101";
  floor = 1;
  operational_status = vacant_clean;
}

abbrev standard : RoomType
standard = record {
  id = 8;
  tenant_id = 1;
  property_id = 2;
  code = "STD";
  name = "Standard";
  max_occupancy = 2;
  base_rate_minor = pos 45000;
}

abbrev hotel : Db
hotel = record empty_db {
  properties = record { id = 2; tenant_id = 1; business_date = 150 } ∷ [];
  rooms =
      record room_101 { id = 31; room_number = "102"; operational_status = vacant_dirty }
      ∷ room_101
      ∷ [];
  room_types = standard ∷ [];
  guests = record { id = 6; tenant_id = 1; first_name = "Ada"; last_name = "Obi" } ∷ [];
}

abbrev request : CreateReservation
request = record {
  property_id = 2;
  guest_id = 6;
  room_type_id = 8;
  room_id = none;
  arrival_date = 150;
  departure_date = 152;
  adults = 1;
  children = 0;
  source = "DIRECT";
  notes = none;
  hold_token = none;
}

created :
    (r : Reservation) × (db : Db) × (create world.sha256 rolls manager request hotel ≡ ok (r, db))
unfolding create next_confirmation_code next_code generate_confirmation_code held_for check_room
    create_rows consume book allocate_stay claim_nights claim_night place nights_between
    assert_property log emit
created = (_, _, refl)

abbrev arrive : CheckIn
arrive = record { room_id = none; override_dirty_room = false }

arrived :
    (r : Reservation) × (db : Db) × (check_in world.before manager 100 arrive created.1
      ≡ ok (r, db))
unfolding created check_in get_or_throw assert_property can_transition room_of pick_room
    allocate_room find_room check_fit settle_in log emit
arrived = (_, _, refl)

abbrev to_102 : RoomMove
to_102 = record { room_id = 31; reason = "noise"; override_dirty_room = true }

-- The move goes into a dirty room.
moved :
    (r : Reservation × String) × (db : Db) × (room_move world.spell manager 100 to_102 arrived.1
      ≡ ok (r, db))
unfolding created arrived room_move move_end get_or_throw assert_property same_state room_of
    find_room property_or_throw vacate create_turnover log emit
moved = (_, _, refl)

abbrev longer : ExtendStay
longer = record { departure_date = 153; reason = none }

extended : (r : Reservation) × (db : Db) × (extend_stay manager 100 longer created.1 ≡ ok (r, db))
unfolding created extend_stay check_added get_or_throw assert_property room_of log
extended = (_, _, refl)

-- The check-out is refused, and the night that was posted stands.
refused :
    (db : Db) × (check_out world.iso world.spell manager 100
        (record { allow_outstanding_balance = false })
        moved.1
      ≡ (err (conflict outstanding_balance), db))
unfolding created arrived moved check_out settle settle_rest post_stayed_nights post_stayed_on
    charged_nights post_nights get_or_throw assert_property same_state room_of property_or_throw
    get_folio_or_throw post_charge_tx create_entry compute sum_lines ordered_rules nights_between
    announce balance_minor can_transition log emit post_tax_lines run_rules apply_fallbacks
    apply_fallback ◌+ℤ◌ mul_div
refused = (_, refl)

left :
    (r : Reservation) × (db : Db) × (check_out world.iso world.spell manager 100
        (record { allow_outstanding_balance = true })
        refused.0
      ≡ (ok r, db))
unfolding created arrived moved refused check_out settle settle_rest settle_out vacate
    create_turnover post_stayed_nights post_stayed_on charged_nights post_nights get_or_throw
    assert_property same_state room_of property_or_throw get_folio_or_throw nights_between
    balance_minor can_transition log emit post_charge_tx create_entry compute sum_lines
    ordered_rules announce post_tax_lines run_rules apply_fallbacks apply_fallback ◌+ℤ◌ mul_div
left = (_, _, refl)

abbrev describe : IsoDate → String
describe = night_text world.iso (some room_101)

abbrev main : Folio
main = folio_row manager request 6 100 103

abbrev its_room : ReservationRoom
its_room = stay_row manager request standard 100 101

posted :
    (db : Db) × (post_nights manager main its_room describe 150 (150 ∷ 151 ∷ []) created.1
      ≡ ok (tt, db))
unfolding created post_nights post_charge_tx create_entry compute sum_lines ordered_rules announce
    log emit post_tax_lines run_rules apply_fallbacks apply_fallback ◌+ℤ◌ mul_div
posted = (_, refl)

post_nights-idempotent_example :
    All (Charged manager main its_room describe 150 posted.0) (150 ∷ 151 ∷ [])
    × (post_nights manager main its_room describe 150 (150 ∷ 151 ∷ []) posted.0 ≡ ok (tt, posted.0))
post_nights-idempotent_example =
    post_nights-idempotent manager main its_room describe 150 (150 ∷ 151 ∷ []) created.1 posted.0
      posted.1

given_up :
    (r : Reservation) × (db : Db) × (cancel manager 100 "plans changed" created.1 ≡ ok (r, db))
unfolding created cancel end_stay free_rooms release_reservation_room get_or_throw assert_property
    can_transition log emit
given_up = (_, _, refl)

cancel-Ended_example : Ended manager 100 cancelled created.1 given_up.1
cancel-Ended_example =
    cancel-Ended manager 100 "plans changed" created.1 given_up.0 given_up.1 given_up.2

check_in-Arrived_example : Arrived manager 100 arrive created.1 arrived.0 arrived.1
check_in-Arrived_example =
    check_in-Arrived world.before manager 100 arrive created.1 arrived.0 arrived.1 arrived.2

room_move-Moved_example : Moved manager 100 to_102 arrived.1 moved.1
room_move-Moved_example =
    room_move-Moved world.spell manager 100 to_102 arrived.1 moved.0 moved.1 moved.2

check_out-refused_example : LedgerOnly moved.1 refused.0
check_out-refused_example =
    check_out-refused world.iso world.spell manager 100
      (record { allow_outstanding_balance = false }) moved.1 (conflict outstanding_balance)
      refused.0 refused.1

check_out-SettledOut_example :
    (mid : Db) × LedgerOnly refused.0 mid
    × SettledOut world.iso manager 100 (record { allow_outstanding_balance = true }) mid left.1
    × ((true ≡ false) ⊎ (is_manager manager.role ≡ true))
check_out-SettledOut_example =
    check_out-SettledOut world.iso world.spell manager 100
      (record { allow_outstanding_balance = true }) refused.0 left.0 left.1 left.2

whole_stay : Steps world hotel left.1
whole_stay = after (create_step rolls manager request created.0 created.2) (
    after (check_in_step manager 100 arrive arrived.0 arrived.2) (
      after (room_move_step manager 100 to_102 moved.0 moved.2) (
        after (refused_step manager 100 _ _ refused.1)
          (after (check_out_step manager 100 _ left.0 left.2) still))))

hotel-Safe : Safe hotel
hotel-Safe = record {
  reservations_below = tt;
  stays_below = tt;
  reservation_ids = tt;
  stay_ids = tt;
  one_stay = tt;
  linked = tt;
  one_guest = λ t k. omega arith;
}

Steps-Safe_example : Safe left.1
Steps-Safe_example = Steps-Safe world hotel left.1 whole_stay hotel-Safe

stay_in_house : Steps world created.1 left.1
stay_in_house = after (check_in_step manager 100 arrive arrived.0 arrived.2) (
    after (room_move_step manager 100 to_102 moved.0 moved.2) (
      after (refused_step manager 100 _ _ refused.1)
        (after (check_out_step manager 100 _ left.0 left.2) still)))

created-Safe : Safe created.1
created-Safe =
    Steps-Safe world hotel created.1
      (after (create_step rolls manager request created.0 created.2) still) hotel-Safe

Steps-Fate_example : Fate created.0 left.1
unfolding created
Steps-Fate_example =
    Steps-Fate world created.1 left.1 stay_in_house created-Safe created.0 (inl refl)
