-- ===== src/Inventory/Stays.antt =====
-- A stay claims one slot for every night.
use lodgiva.Common.{
  ℕ, ◌<◌, false, none, some, List, [], ◌∷◌, map, ◌≡◌, filter, refl, sym, ap, subst, arith, ◌==◌,
  any, count, contains, update_where, All, inl, inr, Option-cases,
}
use lodgiva.Common.Sorting.{All-map}
use lodgiva.Money.{nights_between}
use lodgiva.Store.{IsoDate, Db, ok, Result-cases}
use lodgiva.Inventory.{
  is_sellable, night_of, StayInput, is_slot, take_over, owned_row, place, claim_night, claim_nights,
  allocate_stay, taken_slots, set_of, is_taken, update_allocation,
}
use lodgiva.Inventory.Claims.{Claimed, Standing, place-Claimed, owned_row-Claimed}
use lodgiva.Inventory.Slots.{
  UniqueSlots, Frame, Frame-trans, Frame-eq, Frame-update, place_lem, place_finds,
}

-- The rooms of the type that can be sold on a night.
abbrev pub capacity : StayInput → IsoDate → Db → ℕ
capacity input date db =
    count (is_sellable (night_of input.tenant_id input.room_type_id date) db.blocks) db.rooms

claim_night_lem :
    (input : StayInput) (date : IsoDate) (db db' : Db) (slot : ℕ)
    → claim_night input date db ≡ ok (slot, db')
    → Frame db db'
      × (input.consuming_hold_id ≡ none → slot < capacity input date db)
      × Standing input db db'
      × Claimed input db' (date, slot)
unfolding claim_night
claim_night_lem input date db db' slot h =
    elim (Option-cases (owned_row input date db.allocations)) [
      | inr (row, found) ↦
          let same : db'.allocations
              ≡ update_where (λ a. a.id == row.id) (take_over input) db.allocations =
            ground arith in
          let its : row.slot_index ≡ slot = ground arith in
          let (stood, stands) = owned_row-Claimed input date db db' row found same in
          (
            Frame-update db db' row.id (take_over input) (λ x. (refl, refl, refl)) (ground arith),
            λ e. absurd (ground (arith, e)),
            stood,
            subst (λ n. Claimed input db' (date, n)) its stands,
          )
      | inl free ↦
          let night = night_of input.tenant_id input.room_type_id date in
          elim (Result-cases (taken_slots night db)) [
            | inr (e, failed) ↦ absurd (ground arith)
            | inl ((taken, mid), seen) ↦
                elim (Result-cases (place input date taken 0 (capacity input date db) mid)) [
                  | inr (e, failed) ↦ absurd (ground arith)
                  | inl ((o, end), ran) ↦
                      let (f, below) =
                        place_lem input date taken (capacity input date db) 0 mid end o ran in
                      let facts : (o ≡ some slot) × (db' ≡ end) = ground arith in
                      let same : mid ≡ db = ground (arith, seen) in
                      let (stood, stands) =
                        place-Claimed input date taken (capacity input date db) 0 mid end o ran in
                      (
                        Frame-trans (Frame-eq same) (subst (λ d. Frame mid d) (sym facts.1) f),
                        λ e. omega (arith, below slot facts.0),
                        λ c k.
                            subst (λ d. Claimed input d c) (sym facts.1)
                              (stood c (subst (λ d. Claimed input d c) (sym same) k)),
                        subst (λ d. Claimed input d (date, slot)) (sym facts.1)
                            (stands slot facts.0),
                      )
                ]
          ]
    ]

-- The slots of a list of claims are below the capacity of their nights.
abbrev pub Below : StayInput → Db → List (IsoDate × ℕ) → Type 0
Below input db = All (λ c. c.1 < capacity input c.0 db)

claim_nights_lem :
    (input : StayInput) (dates : List IsoDate) (db db' : Db) (claims : List (IsoDate × ℕ))
    → claim_nights input dates db ≡ ok (claims, db')
    → Frame db db'
      × (map (λ c. c.0) claims ≡ dates)
      × (input.consuming_hold_id ≡ none → Below input db claims)
      × Standing input db db'
      × All (Claimed input db') claims
unfolding claim_nights
claim_nights_lem input [] db db' claims h =
    let facts : (claims ≡ []) × (db' ≡ db) = ground arith in
    (
      Frame-eq facts.1,
      rw facts.0 refl,
      λ e. rw facts.0 tt,
      λ c k. subst (λ d. Claimed input d c) (sym facts.1) k,
      rw facts.0 tt,
    )
claim_nights_lem input (date ∷ dates) db db' claims h =
    elim (Result-cases (claim_night input date db)) [
      | inr (e, failed) ↦ absurd (ground arith)
      | inl ((slot, mid), ran) ↦ elim (Result-cases (claim_nights input dates mid)) [
        | inr (e, failed) ↦ absurd (ground arith)
        | inl ((rest, end), later) ↦
            let facts : (claims ≡ (date, slot) ∷ rest) × (db' ≡ end) = ground arith in
            let (f, below, stood, stands) = claim_night_lem input date db mid slot ran in
            let (g, dated, under, later_stood, all) =
              claim_nights_lem input dates mid end rest later in
            (
              Frame-trans f (subst (λ d. Frame mid d) (sym facts.1) g),
              rw facts.0 (ap (λ l. date ∷ l) dated),
              λ e. rw facts.0 (
                below e,
                All-map (λ c. c.1 < capacity input c.0 mid) (λ c u. rw (← f.rooms, ← f.blocks) u)
                    rest (under e),
              ),
              λ c k. subst (λ d. Claimed input d c) (sym facts.1) (later_stood c (stood c k)),
              subst (λ d. All (Claimed input d) claims) (sym facts.1)
                  (rw facts.0 (later_stood (date, slot) stands, all)),
            )
      ]
    ]

pub allocate_stay-Frame :
    (input : StayInput) (db db' : Db) (claims : List (IsoDate × ℕ))
    → allocate_stay input db ≡ ok (claims, db')
    → Frame db db'
unfolding allocate_stay
allocate_stay-Frame input db db' claims h =
    (claim_nights_lem input (nights_between input.arrival input.departure) db db' claims h).0

-- On a table whose rows are at different slots an allocation claims one slot for every night of the
-- stay, in order. For each a row of the room type stands in the table after it, at that night and
-- slot, for the hold or the stay of the input, or taken over from the hold that is consumed. The rows
-- stay at different slots, and where no hold is consumed the slots are below the number of rooms that
-- can be sold on each night.
pub allocate_stay-Below :
    (input : StayInput) (db db' : Db) (claims : List (IsoDate × ℕ))
    → UniqueSlots db.allocations
    → allocate_stay input db ≡ ok (claims, db')
    → UniqueSlots db'.allocations
      × (map (λ c. c.0) claims ≡ nights_between input.arrival input.departure)
      × (input.consuming_hold_id ≡ none → Below input db claims)
      × All (Claimed input db') claims
unfolding allocate_stay
allocate_stay-Below input db db' claims u h =
    let (f, dated, below, _, claimed) =
      claim_nights_lem input (nights_between input.arrival input.departure) db db' claims h in
    (f.unique u, dated, below, claimed)

-- The slots that count as taken on a night.
abbrev pub slots_taken : StayInput → IsoDate → Db → List ℕ
slots_taken input date db = set_of (
    map (λ a. a.slot_index)
      (filter (is_taken db.now db.holds (night_of input.tenant_id input.room_type_id date))
        db.allocations))

-- A night is never refused as sold out while a slot below its capacity is neither taken nor held by
-- any row.
claim_night_succeeds :
    (input : StayInput) (date : IsoDate) (db : Db) (s : ℕ)
    → s < capacity input date db
    → contains s (slots_taken input date db) ≡ false
    → any (is_slot input.room_type_id date s) db.allocations ≡ false
    → (slot : ℕ) × (db' : Db) × (claim_night input date db ≡ ok (slot, db'))
unfolding claim_night
claim_night_succeeds input date db s u free clear =
    let night = night_of input.tenant_id input.room_type_id date in
    let some_room : (capacity input date db == 0) ≡ false = ground (arith, u) in
    elim (Option-cases (owned_row input date db.allocations)) [
      | inr (row, found) ↦ (
        row.slot_index,
        update_allocation row.id (take_over input) db,
        ground (arith, some_room, found),
      )
      | inl none_owned ↦
          let (t, db', ran) =
            place_finds input date (slots_taken input date db) (capacity input date db) 0 s db
              (omega arith) (omega (arith, u)) free clear in
          (t, db', ground (arith, some_room, none_owned, ran))
    ]
