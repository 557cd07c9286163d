-- ===== src/NightAudit/Tests.antt =====
-- Two nights at a small hotel: one guest in room 12, whose nights are closed, and the check-out.
use lodgiva.Common.{true, false, none, some, [], ◌∷◌, String, ◌≡◌, refl, arith, inl, any, subst}
use lodgiva.Common.Int.{pos, ◌+ℤ◌, ◌-ℤ◌, mul_div}
use lodgiva.Common.Text.{decimal}
use lodgiva.Store.{
  IsoDate, Db, ok, Folio, Property, Room, Reservation, ReservationRoom, open_folio, checked_in,
  in_house, occupied_clean, vacant_clean,
}
use lodgiva.Store.Sample.{empty_db}
use lodgiva.Access.{Auth, assert_property, property_or_throw, log, emit}
use lodgiva.ReservationState.{can_transition}
use lodgiva.Money.{add_days_iso, nights_between}
use lodgiva.Tax.{compute, ordered_rules, run_rules, apply_fallbacks, apply_fallback}
use lodgiva.Folios.{
  balance, balance_minor, get_folio_or_throw, post_charge_tx, post_tax_lines, announce,
  create_entry,
}
use lodgiva.Reservations.{
  is_night_charge, night_text, get_or_throw, room_of, create_turnover, check_out, settle,
  settle_rest, settle_out, post_stayed_nights, post_stayed_on, charged_nights, post_nights, vacate,
}
use lodgiva.NightAudit.Run.{
  Floats, RunAudit, AuditReport, dated, tonight_row, post_rooms, post_room, post_on, run,
}
use lodgiva.NightAudit.Outcome.{Closed, run-Closed}
use lodgiva.NightAudit.Days.{DaysInOrder, closed, stop, Steps-DaysInOrder, next_day_succeeds}
use lodgiva.NightAudit.Nights.{check_out-after_close}

abbrev auditor : Auth
auditor = record {
  user_id = 3;
  tenant_id = 1;
  role = "NIGHT_AUDITOR";
  all_properties = false;
  property_ids = 2 ∷ [];
}

abbrev manager : Auth
manager = record auditor { user_id = 4; role = "GENERAL_MANAGER" }

abbrev hotel : Property
hotel = record { id = 2; tenant_id = 1; business_date = 150 }

abbrev twelve : Room
twelve = record {
  id = 11;
  tenant_id = 1;
  property_id = 2;
  room_type_id = 8;
  room_number = "12";
  floor = 1;
  operational_status = occupied_clean;
}

abbrev fourteen : Room
fourteen = record twelve { id = 13; room_number = "14"; operational_status = vacant_clean }

abbrev bill : Folio
bill = record {
  id = 10;
  tenant_id = 1;
  property_id = 2;
  reservation_id = some 5;
  guest_id = 6;
  label = "Main";
  is_primary = true;
  status = open_folio;
}

abbrev booking : Reservation
booking = record {
  id = 5;
  tenant_id = 1;
  property_id = 2;
  confirmation_code = [];
  primary_guest_id = 6;
  source = "DIRECT";
  status = checked_in;
  arrival_date = 150;
  departure_date = 152;
  adults = 1;
  children = 0;
  notes = none;
  version = 1;
}

abbrev guest_stay : ReservationRoom
guest_stay = record {
  id = 7;
  tenant_id = 1;
  reservation_id = 5;
  room_type_id = 8;
  room_id = some 11;
  arrival_date = 150;
  departure_date = 152;
  adults = 1;
  children = 0;
  nightly_rate_minor = pos 40000;
  status = in_house;
}

abbrev late : Db
late = record empty_db {
  properties = hotel ∷ [];
  rooms = twelve ∷ fourteen ∷ [];
  reservations = booking ∷ [];
  reservation_rooms = guest_stay ∷ [];
  folios = bill ∷ [];
}

abbrev plain : IsoDate → String
plain d = decimal d

abbrev rounded : Floats
rounded = record { percent = λ a b. 50; mean = λ a b. a }

abbrev tonight : RunAudit
tonight = record { property_id = 2; acknowledge_warnings = true }

a_close :
    (report : AuditReport) × (db : Db) × (run plain rounded auditor tonight late ≡ ok (report, db))
unfolding run post_rooms post_room post_on post_charge_tx post_tax_lines announce create_entry
    compute run_rules apply_fallbacks apply_fallback ◌+ℤ◌ ◌-ℤ◌ mul_div decimal add_days_iso
a_close = (_, _, refl)

-- The night, the service charge and the VAT.
billed : balance 10 (a_close.1).entries ≡ pos 45150
unfolding a_close ◌+ℤ◌ ◌-ℤ◌ mul_div
billed = refl

run-Closed_example : Closed plain auditor tonight late a_close.0 (a_close.1)
run-Closed_example = run-Closed plain rounded auditor tonight late a_close.0 (a_close.1) a_close.2

Steps-DaysInOrder_example : DaysInOrder (a_close.1)
Steps-DaysInOrder_example =
    Steps-DaysInOrder plain rounded (closed auditor tonight a_close.0 (a_close.1) a_close.2 stop)
      (record { over = tt; once = λ k d. omega arith })

-- The second night is closed too, and the guest leaves.
b_close :
    (report : AuditReport) × (db : Db) × (run plain rounded auditor tonight (a_close.1)
      ≡ ok (report, db))
unfolding a_close run post_rooms post_room post_on post_charge_tx post_tax_lines announce
    create_entry compute run_rules apply_fallbacks apply_fallback ◌+ℤ◌ ◌-ℤ◌ mul_div decimal
    add_days_iso
b_close = (_, _, refl)

a_leave :
    (r : Reservation) × (db : Db) × (check_out plain
        (λ c. "")
        manager
        5
        (record { allow_outstanding_balance = true })
        (b_close.1)
      ≡ (ok r, db))
unfolding a_close b_close check_out settle settle_rest settle_out vacate create_turnover
    post_stayed_nights post_stayed_on charged_nights post_nights get_or_throw assert_property
    room_of property_or_throw get_folio_or_throw nights_between balance_minor can_transition log
    emit post_charge_tx create_entry compute ordered_rules announce post_tax_lines run_rules
    apply_fallbacks apply_fallback ◌+ℤ◌ ◌-ℤ◌ mul_div decimal add_days_iso
a_leave = (_, _, refl)

first_night :
    any (is_night_charge 10 (night_text plain (some twelve) 150)) (a_close.1).entries ≡ true
unfolding a_close decimal
first_night = refl

check_out-after_close_example : (a_leave.1).entries ≡ (b_close.1).entries
unfolding a_close assert_property
check_out-after_close_example =
    check_out-after_close plain (λ c. "") rounded auditor tonight (a_close.1) b_close.0 (b_close.1)
      b_close.2 (dated 151 hotel) refl manager 5 booking (tonight_row (a_close.1) guest_stay) bill
      (record {
        named = refl;
        inside = refl;
        its_property = refl;
        its_folio = refl;
        reached = refl;
        its_stay = refl;
      })
      (inl refl) refl (omega arith) (omega arith)
      (λ night from before.
        let it : 150 ≡ night = omega (arith, from, before) in
        subst
          (λ d.
            any (is_night_charge 10 (night_text plain (some twelve) d)) (a_close.1).entries ≡ true)
          it first_night)
      (record { allow_outstanding_balance = true }) a_leave.0 (a_leave.1) a_leave.2

next_day_succeeds_example :
    (report : AuditReport) × (db' : Db) × (run plain rounded auditor tonight late
      ≡ ok (report, db'))
    × Closed plain auditor tonight late report db'
unfolding assert_property
next_day_succeeds_example =
    next_day_succeeds plain rounded (record { over = tt; once = λ k d. omega arith }) stop auditor
      hotel refl refl
