-- ===== src/Booking/Tests.antt =====
-- A stay of two nights that is held, redeemed and released.
use lodgiva.Common.{true, false, none, some, [], ◌∷◌, String, ◌&◌, ◌≡◌, refl, ltb, if◌then◌else◌}
use lodgiva.Common.Int.{pos, ◌+ℤ◌, ◌-ℤ◌, mul_div}
use lodgiva.Money.{nights_between}
use lodgiva.Store.{
  Key, vacant_clean, exclusive, scope_all, Hold, Db, ok, err, conflict, hold_expired, min_stay_code,
}
use lodgiva.Store.Sample.{empty_db}
use lodgiva.Access.{Auth, assert_property}
use lodgiva.Tax.{compute, run_rules, apply_rules, apply_rule, rule_amount, ordered_rules}
use lodgiva.Inventory.{
  allocate_stay, claim_nights, claim_night, place, expire_holds, availability_of,
}
use lodgiva.Restrictions.{evaluate_restrictions, violations_of}
use lodgiva.Reservations.{consume_hold_tx}
use lodgiva.Booking.Quotes.{quote}
use lodgiva.Booking.Holds.{CreateHold, HoldReceipt, create_hold, release_stay_hold}
use lodgiva.Booking.Held.{Held, create_hold-Held}
use lodgiva.Booking.Redeemed.{redeem-create_hold, Released, release_stay_hold-Released}

abbrev sha256 : String → String
sha256 s = "#" & s

abbrev id_text : Key → String
id_text id = "id"

abbrev agent : Auth
agent = record {
  user_id = 5;
  tenant_id = 1;
  role = "FRONT_DESK";
  all_properties = false;
  property_ids = 2 ∷ [];
}

abbrev hotel : Db
hotel = record empty_db {
  properties = record { id = 2; tenant_id = 1; business_date = 150 } ∷ [];
  rooms =
      record {
        id = 30;
        tenant_id = 1;
        property_id = 2;
        room_type_id = 8;
        room_number = "101";
        floor = 1;
        operational_status = vacant_clean;
      }
      ∷ [];
  room_types =
      record {
        id = 8;
        tenant_id = 1;
        property_id = 2;
        code = "STD";
        name = "Standard";
        max_occupancy = 2;
        base_rate_minor = pos 45000;
      }
      ∷ [];
  rate_plans =
      record {
        id = 9;
        tenant_id = 1;
        property_id = 2;
        room_type_id = 8;
        code = "BAR";
        name = "Best available";
        refundable = true;
        min_stay = 1;
        is_active_plan = true;
      }
      ∷ [];
  daily_rates = record { rate_plan_id = 9; date = 160; rate_minor = pos 60000 } ∷ [];
  restrictions =
      record {
        rate_plan_id = 9;
        date = 160;
        closed = false;
        closed_to_arrival = false;
        closed_to_departure = false;
        min_stay = some 2;
        max_stay = none;
        min_advance_days = none;
      }
      ∷ [];
  tax_rules =
      record {
        id = 40;
        tenant_id = 1;
        property_id = 2;
        code = "VAT";
        name = "Value Added Tax";
        rate_bp = 1000;
        applies_to = scope_all;
        basis = exclusive;
        compound_order = 1;
        tax_on_service_charge = false;
        version = 1;
        effective_from = 100;
        effective_to = none;
      }
      ∷ [];
}

abbrev two_nights : CreateHold
two_nights = record {
  property_id = 2;
  rate_plan_id = 9;
  arrival_date = 160;
  departure_date = 162;
  adults = 2;
  children = 0;
}

a_hold :
    (r : HoldReceipt) × (db : Db) × (create_hold sha256 "token" 15 agent two_nights hotel
      ≡ ok (r, db))
unfolding create_hold nights_between evaluate_restrictions violations_of compute ordered_rules
    run_rules apply_rules apply_rule rule_amount ◌+ℤ◌ ◌-ℤ◌ mul_div allocate_stay claim_nights
    claim_night place assert_property expire_holds availability_of
a_hold = (_, _, refl)

its_price : a_hold.0.quoted.total_minor ≡ pos 115500
unfolding a_hold
its_price = refl

one_night_is_too_short : quote agent 2 9 160 161 1 0 hotel ≡ err (conflict min_stay_code)
unfolding quote nights_between evaluate_restrictions violations_of assert_property expire_holds
one_night_is_too_short = refl

create_hold-Held_example : Held sha256 "token" 15 agent two_nights hotel a_hold.0 (a_hold.1)
create_hold-Held_example =
    create_hold-Held sha256 "token" 15 agent two_nights hotel a_hold.0 (a_hold.1) tt a_hold.2

abbrev in_time : Db
in_time = record (a_hold.1) { now = 900999 }

redeem-create_hold_example :
    (hold : Hold) × (hold.id ≡ a_hold.0.hold_id)
    × (hold.quoted_total_minor ≡ a_hold.0.quoted.total_minor)
    × (consume_hold_tx sha256 1 a_hold.0.hold_token in_time ≡ (
        if ltb 900999 a_hold.0.expires_at then ok (hold, in_time) else err (conflict hold_expired)))
redeem-create_hold_example =
    redeem-create_hold sha256 "token" 15 agent two_nights hotel a_hold.0 (a_hold.1) tt a_hold.2
      in_time [] refl tt

-- It is the first branch.
still_valid : ltb 900999 a_hold.0.expires_at ≡ true
unfolding a_hold
still_valid = refl

a_release :
    (h : Hold) × (db : Db) × (release_stay_hold id_text sha256 agent "token" (a_hold.1)
      ≡ ok (h, db))
unfolding release_stay_hold a_hold nights_between compute ordered_rules run_rules apply_rules
    apply_rule rule_amount ◌+ℤ◌ ◌-ℤ◌ mul_div
a_release = (_, _, refl)

release_stay_hold-Released_example :
    Released id_text sha256 agent "token" (a_hold.1) a_release.0 (a_release.1)
release_stay_hold-Released_example =
    release_stay_hold-Released id_text sha256 agent "token" (a_hold.1) a_release.0 (a_release.1)
      a_release.2
