-- ===== src/Inventory.antt =====
-- Room-night inventory: `InventoryService` of apps/api/src/common/inventory.service.ts. A sold
-- room-night is a row with a slot; the table's unique index on room type, date and slot refuses a
-- second row (P2002).
pub mod Slots
pub mod Claims
pub mod Stays
mod Tests
use lodgiva.Common.{
  ℕ, zero, suc, ◌+◌, ◌-◌, Bool, true, false, ◌&&◌, ◌||◌, not, Option, none, some, List, [], ◌∷◌,
  map, ◌==◌, ltb, leb, find, filter, any, count, length, contains, update_where, is_some, is_id,
  or_else, if◌then◌else◌,
}
use lodgiva.Money.{nights_between}
use lodgiva.Store.{
  Key, IsoDate, Instant, is_active, expired, is_out, Room, RoomBlock, Hold, Allocation, Db, M, pure,
  ok, gets, modify, fresh, throw, throw_if, ◌>>=◌, ◌>>◌, conflict, sold_out,
}

-- A room type on a night: the argument of `capacityForNight` and `takenSlots`.
pub record Night : Type 0 where
  pub tenant_id : Key
  pub room_type_id : Key
  pub date : IsoDate

-- An active block that covers the night.
abbrev pub blocks_night : Night → Key → RoomBlock → Bool
blocks_night n room_id b =
    b.room_id == room_id
    && (b.tenant_id == n.tenant_id
        && (b.is_in_force && (leb b.start_date n.date && ltb n.date b.end_date)))

abbrev pub is_sellable : Night → List RoomBlock → Room → Bool
is_sellable n blocks r =
    r.tenant_id == n.tenant_id
    && (r.room_type_id == n.room_type_id
        && (not (is_out r.operational_status) && not (any (blocks_night n r.id) blocks)))

-- `capacityForNight`
unfoldable pub capacity_for_night : Night → M ℕ
capacity_for_night n = gets λ db. count (is_sellable n db.blocks) db.rooms

-- A hold that is active and not expired, by its id.
abbrev pub is_held : Instant → List Hold → Option Key → Bool
is_held now holds hold_id =
    any (λ h. is_id hold_id h.id && (is_active h.status && ltb now h.expires_at)) holds

-- The `where` of `takenSlots`.
abbrev pub is_taken : Instant → List Hold → Night → Allocation → Bool
is_taken now holds n a =
    a.tenant_id == n.tenant_id
    && (a.room_type_id == n.room_type_id
        && (a.date == n.date && (is_some a.reservation_room_id || is_held now holds a.hold_id)))

-- `new Set(…)`
abbrev pub set_of : List ℕ → List ℕ
set_of [] = []
set_of (x ∷ xs) = if contains x (set_of xs) then set_of xs else x ∷ set_of xs

-- `takenSlots`
unfoldable pub taken_slots : Night → M (List ℕ)
taken_slots n =
    gets λ db. set_of (map (λ a. a.slot_index) (filter (is_taken db.now db.holds n) db.allocations))

pub record NightAvailability : Type 0 where
  pub date : IsoDate
  pub capacity : ℕ
  pub sold : ℕ
  pub available : ℕ

abbrev pub night_of : Key → Key → IsoDate → Night
night_of tenant_id room_type_id date = record {
  tenant_id = tenant_id;
  room_type_id = room_type_id;
  date = date;
}

-- `Math.max(0, capacity - taken.size)`: the subtraction of natural numbers
abbrev pub availability_row : IsoDate → ℕ → ℕ → NightAvailability
availability_row date capacity sold = record {
  date = date;
  capacity = capacity;
  sold = sold;
  available = capacity - sold;
}

unfoldable pub availability_of : Key → Key → List IsoDate → M (List NightAvailability)
unfolding capacity_for_night taken_slots
availability_of tenant_id room_type_id [] = pure []
availability_of tenant_id room_type_id (date ∷ dates) = do
  capacity ← capacity_for_night (night_of tenant_id room_type_id date)
  taken ← taken_slots (night_of tenant_id room_type_id date)
  rest ← availability_of tenant_id room_type_id dates
  pure (availability_row date capacity (length taken) ∷ rest)

-- `availabilityByNight`
unfoldable pub availability_by_night : Key → Key → IsoDate → IsoDate → M (List NightAvailability)
availability_by_night tenant_id room_type_id arrival departure =
    availability_of tenant_id room_type_id (nights_between arrival departure)

-- The input of `allocateStay`.
pub record StayInput : Type 0 where
  pub tenant_id : Key
  pub property_id : Key
  pub room_type_id : Key
  pub arrival : IsoDate
  pub departure : IsoDate
  pub hold_id : Option Key
  pub reservation_room_id : Option Key
  pub consuming_hold_id : Option Key

-- The key of the unique index.
abbrev pub is_slot : Key → IsoDate → ℕ → Allocation → Bool
is_slot room_type_id date slot a =
    a.room_type_id == room_type_id && (a.date == date && a.slot_index == slot)

-- The hold of an allocation is there, and no longer active or expired.
abbrev pub is_lapsed : Instant → List Hold → Option Key → Bool
is_lapsed now holds hold_id =
    any (λ h. is_id hold_id h.id && (not (is_active h.status) || leb h.expires_at now)) holds

-- The `where` of the stale row.
abbrev pub is_stale : Instant → List Hold → Key → IsoDate → ℕ → Allocation → Bool
is_stale now holds room_type_id date slot a =
    is_slot room_type_id date slot a
    && (not (is_some a.reservation_room_id) && is_lapsed now holds a.hold_id)

abbrev pub allocation_row : StayInput → IsoDate → ℕ → Key → Allocation
allocation_row input date slot id = record {
  id = id;
  tenant_id = input.tenant_id;
  property_id = input.property_id;
  room_type_id = input.room_type_id;
  date = date;
  slot_index = slot;
  hold_id = input.hold_id;
  reservation_room_id = input.reservation_room_id;
}

-- The new owner of a stale row.
abbrev pub reclaim : StayInput → Allocation → Allocation
reclaim input a = record a {
  hold_id = input.hold_id;
  reservation_room_id = input.reservation_room_id;
}

-- The owner of a row whose hold becomes a stay; a field that is not given is left as it is.
abbrev pub take_over : StayInput → Allocation → Allocation
take_over input a = record a {
  hold_id = none;
  reservation_room_id = elim input.reservation_room_id [
    | none ↦ a.reservation_room_id
    | some id ↦ some id
  ];
}

-- `tx.roomNightAllocation.update` of one row
abbrev pub update_allocation : Key → (Allocation → Allocation) → Db → Db
update_allocation id f db = record db {
  allocations = update_where (λ a. a.id == id) f db.allocations;
}

abbrev pub insert_allocation : Allocation → Db → Db
insert_allocation a db = record db { allocations = a ∷ db.allocations }

-- The attempt at one slot: true where the row is created, or a stale row reclaimed.
unfoldable pub try_slot : StayInput → IsoDate → ℕ → M Bool
try_slot input date slot db =
    if any (is_slot input.room_type_id date slot) db.allocations
    then elim (find (is_stale db.now db.holds input.room_type_id date slot) db.allocations) [
      | none ↦ ok (false, db)
      | some stale ↦ ok (true, update_allocation stale.id (reclaim input) db)
    ]
    else ok (
      true,
      insert_allocation (allocation_row input date slot db.next_id)
          (record db { next_id = db.next_id + 1 }),
    )

-- The loop `for (let slot …)`, with the slot and how many are left.
unfoldable pub place : StayInput → IsoDate → List ℕ → ℕ → ℕ → M (Option ℕ)
unfolding try_slot
place input date taken slot zero = pure none
place input date taken slot (suc left) =
    let later = place input date taken (suc slot) left in
    if contains slot taken
    then later
    else (try_slot input date slot >>= λ placed. if placed then pure (some slot) else later)

-- The row that a hold owns on a night.
abbrev pub is_owned : StayInput → IsoDate → Key → Allocation → Bool
is_owned input date hold_id a =
    a.tenant_id == input.tenant_id
    && (a.room_type_id == input.room_type_id && (a.date == date && is_id a.hold_id hold_id))

abbrev pub owned_row : StayInput → IsoDate → List Allocation → Option Allocation
owned_row input date allocations = elim input.consuming_hold_id [
  | none ↦ none
  | some hold_id ↦ find (is_owned input date hold_id) allocations
]

-- The body of the loop over the nights: the slot that is claimed.
unfoldable pub claim_night : StayInput → IsoDate → M ℕ
unfolding capacity_for_night taken_slots
claim_night input date = do
  let night = night_of input.tenant_id input.room_type_id date
  capacity ← capacity_for_night night
  throw_if (capacity == 0) (conflict sold_out)
  owned ← gets (λ db. owned_row input date db.allocations)
  elim owned [
    | some row ↦ modify (update_allocation row.id (take_over input)) >> pure row.slot_index
    | none ↦ taken_slots night >>= λ taken. place input date taken 0 capacity >>= λ placed.
        elim placed [ none ↦ throw (conflict sold_out) | some slot ↦ pure slot ]
  ]

unfoldable pub claim_nights : StayInput → List IsoDate → M (List (IsoDate × ℕ))
claim_nights input [] = pure []
claim_nights input (date ∷ dates) = do
  slot ← claim_night input date
  rest ← claim_nights input dates
  pure ((date, slot) ∷ rest)

-- `allocateStay`
unfoldable pub allocate_stay : StayInput → M (List (IsoDate × ℕ))
allocate_stay input = claim_nights input (nights_between input.arrival input.departure)

-- `releaseHold`
unfoldable pub release_hold : Key → M (Unit {0})
release_hold hold_id =
    modify
      λ db. record db { allocations = filter (λ a. not (is_id a.hold_id hold_id)) db.allocations }

-- `releaseReservationRoom`
unfoldable pub release_reservation_room : Key → M (Unit {0})
release_reservation_room room_id = modify λ db. record db {
  allocations = filter (λ a. not (is_id a.reservation_room_id room_id)) db.allocations;
}

abbrev pub is_overdue : Instant → Option Key → Hold → Bool
is_overdue now tenant_id h =
    is_active h.status
    && (leb h.expires_at now && elim tenant_id [ none ↦ true | some t ↦ h.tenant_id == t ])

abbrev pub first_rows : {A : Type 0} → ℕ → List A → List A
first_rows zero xs = []
first_rows (suc n) [] = []
first_rows (suc n) (x ∷ xs) = x ∷ first_rows n xs

-- The transaction of `expireStaleHolds`.
unfoldable pub expire_holds : List Hold → M (Unit {0})
unfolding release_hold
expire_holds [] = pure tt
expire_holds (h ∷ hs) = do
  release_hold h.id
  modify (λ db. record db {
    holds = update_where (λ x. x.id == h.id) (λ x. record x { status = expired }) db.holds;
  })
  expire_holds hs

-- `expireStaleHolds`
unfoldable pub expire_stale_holds : Option Key → M ℕ
expire_stale_holds tenant_id = do
  stale ← gets (λ db. first_rows 200 (filter (is_overdue db.now tenant_id) db.holds))
  expire_holds stale
  pure (length stale)
