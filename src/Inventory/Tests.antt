-- ===== src/Inventory/Tests.antt =====
-- Two rooms of a type, one slot of which a lapsed hold still occupies.
use lodgiva.Common.{ℕ, none, some, List, [], ◌∷◌, map, ◌≡◌, refl, All}
use lodgiva.Common.Int.{pos}
use lodgiva.Money.{nights_between}
use lodgiva.Store.{IsoDate, Db, ok, Room, Allocation, vacant_clean, active}
use lodgiva.Store.Sample.{empty_db}
use lodgiva.Inventory.{StayInput, allocate_stay, claim_nights, claim_night, place}
use lodgiva.Inventory.Claims.{Claimed}
use lodgiva.Inventory.Slots.{UniqueSlots}
use lodgiva.Inventory.Stays.{Below, allocate_stay-Below}

abbrev first_room : Room
first_room = record {
  id = 30;
  tenant_id = 1;
  property_id = 2;
  room_type_id = 8;
  room_number = "101";
  floor = 1;
  operational_status = vacant_clean;
}

abbrev lapsed : Allocation
lapsed = record {
  id = 40;
  tenant_id = 1;
  property_id = 2;
  room_type_id = 8;
  date = 150;
  slot_index = 0;
  hold_id = some 50;
  reservation_room_id = none;
}

abbrev stock : Db
stock = record empty_db {
  rooms = record first_room { id = 31 } ∷ first_room ∷ [];
  holds =
      record {
        id = 50;
        tenant_id = 1;
        property_id = 2;
        room_type_id = 8;
        rate_plan_id = none;
        token_hash = "";
        arrival_date = 150;
        departure_date = 151;
        adults = 1;
        children = 0;
        quoted_total_minor = pos 0;
        quoted_nights = [];
        quoted_taxes = [];
        status = active;
        expires_at = 900;
        released_at = none;
      }
      ∷ [];
  allocations = lapsed ∷ [];
}

abbrev two_nights : StayInput
two_nights = record {
  tenant_id = 1;
  property_id = 2;
  room_type_id = 8;
  arrival = 150;
  departure = 152;
  hold_id = none;
  reservation_room_id = some 60;
  consuming_hold_id = none;
}

allocated :
    (claims : List (IsoDate × ℕ)) × (db : Db) × (allocate_stay two_nights stock ≡ ok (claims, db))
unfolding allocate_stay claim_nights claim_night place nights_between
allocated = (_, _, refl)

-- The slot of the lapsed hold is reclaimed.
both_at_zero : allocated.0 ≡ (150, 0) ∷ (151, 0) ∷ []
unfolding allocated
both_at_zero = refl

allocate_stay-Below_example :
    UniqueSlots (allocated.1).allocations
    × (map (λ c. c.0) allocated.0 ≡ nights_between 150 152)
    × (two_nights.consuming_hold_id ≡ none → Below two_nights stock allocated.0)
    × All (Claimed two_nights (allocated.1)) allocated.0
allocate_stay-Below_example =
    allocate_stay-Below two_nights stock (allocated.1) allocated.0 (tt, tt) allocated.2
