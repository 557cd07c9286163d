-- ===== src/Booking/Held.antt =====
-- What `createHold` leaves behind.
use lodgiva.Common.{
  ℕ, ◌+◌, ◌*◌, ◌≤◌, ◌<◌, some, List, ◌∷◌, String, map, ◌≡◌, refl, sym, ap, ◌∙◌, subst, arith,
  length, inl, inr, All, Any, [],
}
use mathlib.Core.Path.{subst₂}
use lodgiva.Common.Sorting.{All-map}
use lodgiva.Money.{nights_between}
use lodgiva.Money.Rounding.{nights_between-head}
use lodgiva.Store.{IsoDate, Property, Hold, Allocation, Db, ok, Result-cases}
use lodgiva.Access.{Auth, assert_property}
use lodgiva.Inventory.{allocate_stay, expire_stale_holds}
use lodgiva.Inventory.Slots.{UniqueSlots}
use lodgiva.Inventory.Claims.{At, For, Claimed}
use lodgiva.Inventory.Stays.{capacity, Below, allocate_stay-Below, allocate_stay-Frame}
use lodgiva.Restrictions.Rules.{Sellable, evaluate_restrictions_iff}
use lodgiva.Reservations.Effects.{assert_property-eq}
use lodgiva.Booking.Quotes.{QuoteResult, rules_input, assert_range, price_stay}
use lodgiva.Booking.Priced.{Priced, assert_range-Range, price_stay-Priced}
use lodgiva.Booking.Sweep.{expire_stale_holds-Swept}
use lodgiva.Booking.Holds.{
  CreateHold, HoldReceipt, hold_query, hold_row, hold_input, place_hold, create_hold,
}

-- A row of the table that stands for a claim of a hold, on its night and slot.
abbrev pub Kept : Hold → Db → IsoDate × ℕ → Type 0
Kept row db c =
    Any
      (λ a.
        (a.room_type_id ≡ row.room_type_id)
        × (a.date ≡ c.0)
        × (a.slot_index ≡ c.1)
        × (a.hold_id ≡ some row.id))
      db.allocations

Kept-of_Claimed :
    (row : Hold) (db : Db) (c : IsoDate × ℕ) → Claimed (hold_input row) db c → Kept row db c
Kept-of_Claimed row db c = go db.allocations
  where
    go :
        (l : List Allocation)
        → Any (λ a. At (hold_input row) c a × For (hold_input row) a) l
        → Any
            (λ a.
              (a.room_type_id ≡ row.room_type_id)
              × (a.date ≡ c.0)
              × (a.slot_index ≡ c.1)
              × (a.hold_id ≡ some row.id))
            l
    go [] h = absurd h
    go (a ∷ l) (inl (at, inl (its, _))) = inl (at.0, at.1, at.2, its)
    go (a ∷ l) (inl (at, inr (k, e, _, _))) = absurd (ground (arith, e))
    go (a ∷ l) (inr h) = inr (go l h)

-- The writes of a hold that is placed.
pub record Stored (sha256 : String → String) (token : String) (minutes : ℕ) (auth : Auth)
    (dto : CreateHold) (property : Property) (quoted : QuoteResult) (mid : Db) (row : Hold)
    (db' : Db) : Type 0 where
  pub is_row :
      row ≡ hold_row auth dto property quoted (sha256 token) (mid.now + minutes * 60000) mid.next_id
  pub holds : db'.holds ≡ row ∷ mid.holds
  pub claims : List (IsoDate × ℕ)
  pub dated : map (λ c. c.0) claims ≡ nights_between dto.arrival_date dto.departure_date
  pub claimed : All (Kept row db') claims
  pub below : Below (hold_input row) mid claims
  pub unique : UniqueSlots db'.allocations
  pub reservations : db'.reservations ≡ mid.reservations
  pub stays : db'.reservation_rooms ≡ mid.reservation_rooms

place_hold-Stored :
    (sha256 : String → String) (token : String) (minutes : ℕ) (auth : Auth) (dto : CreateHold)
    (property : Property) (quoted : QuoteResult) (mid : Db) (row : Hold) (db' : Db)
    → UniqueSlots mid.allocations
    → place_hold sha256 token minutes auth dto property quoted mid ≡ ok (row, db')
    → Stored sha256 token minutes auth dto property quoted mid row db'
unfolding place_hold
place_hold-Stored sha256 token minutes auth dto property quoted mid row db' u h =
    let expires_at = mid.now + minutes * 60000 in
    let placed = hold_row auth dto property quoted (sha256 token) expires_at mid.next_id in
    let before : Db = record mid { next_id = mid.next_id + 1; holds = placed ∷ mid.holds } in
    elim (Result-cases (allocate_stay (hold_input placed) before)) [
      | inr (e, failed) ↦ absurd (ground arith)
      | inl ((claims, after), ran) ↦
          let (apart, dated, below, stands) =
            allocate_stay-Below (hold_input placed) before after claims u ran in
          let kept = allocate_stay-Frame (hold_input placed) before after claims ran in
          let facts : (row ≡ placed)
              × (db'.holds ≡ after.holds)
              × (db'.allocations ≡ after.allocations)
              × (db'.reservations ≡ after.reservations)
              × (db'.reservation_rooms ≡ after.reservation_rooms) =
            ground (arith, ran) in
          record {
            is_row = facts.0;
            holds = facts.1 ∙ kept.holds ∙ ap (λ r. r ∷ mid.holds) (sym facts.0);
            claims = claims;
            dated = dated;
            claimed =
                All-map (Claimed (hold_input placed) after)
                  (λ c s. rw (facts.0, facts.2) (Kept-of_Claimed placed after c s)) claims stands;
            below = subst (λ r. Below (hold_input r) mid claims) (sym facts.0) (below refl);
            unique = rw facts.2 apart;
            reservations = facts.3 ∙ kept.reservations;
            stays = facts.4 ∙ kept.stays;
          }
    ]

-- A hold was created: for a caller `auth`, from the body `dto`, with the token that is handed out.
pub record Held (sha256 : String → String) (token : String) (minutes : ℕ) (auth : Auth)
    (dto : CreateHold) (db : Db) (r : HoldReceipt) (db' : Db) : Type 0 where
  pub property : Property
  pub stale : ℕ
  pub mid : Db
  pub row : Hold
  pub reached : assert_property auth dto.property_id db ≡ ok (property, db)
  pub range : dto.arrival_date < dto.departure_date
  pub within : length (nights_between dto.arrival_date dto.departure_date) ≤ 60
  pub swept : expire_stale_holds (some auth.tenant_id) db ≡ ok (stale, mid)
  pub priced : Priced (hold_query auth dto property) mid r.quoted
  pub sellable :
      Sellable
        (rules_input (hold_query auth dto property) r.quoted.rate_plan mid.restrictions)
        dto.arrival_date
  pub stored : Stored sha256 token minutes auth dto property r.quoted mid row db'
  pub its_id : r.hold_id ≡ row.id
  pub its_token : r.hold_token ≡ token
  pub its_end : r.expires_at ≡ row.expires_at
  pub below : Below (hold_input row) db stored.claims
  pub reservations : db'.reservations ≡ db.reservations
  pub stays : db'.reservation_rooms ≡ db.reservation_rooms

-- The parts of a hold that was created.
assembled :
    (sha256 : String → String) (token : String) (minutes : ℕ) (auth : Auth) (dto : CreateHold)
    (db : Db) (r : HoldReceipt) (db' : Db)
    → UniqueSlots db.allocations
    → (property : Property) → assert_property auth dto.property_id db ≡ ok (property, db)
    → dto.arrival_date < dto.departure_date
    → length (nights_between dto.arrival_date dto.departure_date) ≤ 60
    → (stale : ℕ) (mid : Db) → expire_stale_holds (some auth.tenant_id) db ≡ ok (stale, mid)
    → Priced (hold_query auth dto property) mid r.quoted
    → (row : Hold) → place_hold sha256 token minutes auth dto property r.quoted mid ≡ ok (row, db')
    → r.hold_id ≡ row.id
    → r.hold_token ≡ token
    → r.expires_at ≡ row.expires_at
    → Held sha256 token minutes auth dto db r db'
assembled sha256 token minutes auth dto db r db' u property reached range within stale mid swept
      priced row placed e k t =
    let input = hold_query auth dto property in
    let kept = expire_stale_holds-Swept auth db mid stale swept in
    let stored =
      place_hold-Stored sha256 token minutes auth dto property r.quoted mid row db' (kept.unique u)
        placed in
    let (later, head) = nights_between-head dto.arrival_date dto.departure_date range in
    record {
      property = property;
      stale = stale;
      mid = mid;
      row = row;
      reached = reached;
      range = range;
      within = within;
      swept = swept;
      priced = priced;
      sellable =
          (evaluate_restrictions_iff (rules_input input r.quoted.rate_plan mid.restrictions)
              dto.arrival_date later head).0
            priced.allowed;
      stored = stored;
      its_id = e;
      its_token = k;
      its_end = t;
      below =
          All-map (λ c. c.1 < capacity (hold_input row) c.0 mid)
            (λ c b. rw (← kept.rooms, ← kept.blocks) b) stored.claims stored.below;
      reservations = stored.reservations ∙ kept.reservations;
      stays = stored.stays ∙ kept.stays;
    }

-- Where the slots of the table are apart, a hold is created at a property of the caller, for 1 to
-- 60 nights of an active plan that the rules on selling allow and whose rooms sleep the guests,
-- after the lapsed holds have been swept. It is the newest row, active, with the hash of its token,
-- and the price of the quote, which is what the tax engine makes of the nights. For every night a
-- row of the table with a slot below the number of rooms that can be sold is allocated to it; the
-- slots stay apart, and reservations and stays are as they were.
pub create_hold-Held :
    (sha256 : String → String) (token : String) (minutes : ℕ) (auth : Auth) (dto : CreateHold)
    (db : Db) (r : HoldReceipt) (db' : Db)
    → UniqueSlots db.allocations
    → create_hold sha256 token minutes auth dto db ≡ ok (r, db')
    → Held sha256 token minutes auth dto db r db'
unfolding create_hold
create_hold-Held sha256 token minutes auth dto db r db' u h =
    elim (Result-cases (assert_range dto.arrival_date dto.departure_date db)) [
      | inr (e, failed) ↦ absurd (ground arith)
      | inl ((x, d1), ranged) ↦
          let (range, within, same1) =
            assert_range-Range dto.arrival_date dto.departure_date db d1 x ranged in
          elim (Result-cases (assert_property auth dto.property_id db)) [
            | inr (e, failed) ↦ absurd (ground (arith, same1))
            | inl ((property, d2), asserted) ↦
                let same2 = assert_property-eq auth dto.property_id db d2 property asserted in
                elim (Result-cases (expire_stale_holds (some auth.tenant_id) db)) [
                  | inr (e, failed) ↦ absurd (ground (arith, same1, same2))
                  | inl ((stale, mid), swept) ↦
                      elim (Result-cases (price_stay (hold_query auth dto property) mid)) [
                        | inr (e, failed) ↦ absurd (ground (arith, same1, same2))
                        | inl ((quoted, d3), ran) ↦
                            let (priced, same3) =
                              price_stay-Priced (hold_query auth dto property) mid quoted d3 ran in
                            elim (Result-cases
                              (place_hold sha256 token minutes auth dto property quoted mid)) [
                                | inr (e, failed) ↦ absurd (ground (arith, same1, same2, same3))
                                | inl ((row, end), placed) ↦
                                    let facts : (r.hold_id ≡ row.id)
                                        × (r.hold_token ≡ token)
                                        × (r.expires_at ≡ row.expires_at)
                                        × (r.quoted ≡ quoted)
                                        × (db' ≡ end) =
                                      ground (arith, same1, same2, same3, placed) in
                                    assembled sha256 token minutes auth dto db r db' u property
                                      (asserted ∙ ap (λ d. ok (property, d)) same2) range within
                                      stale mid swept
                                      (subst (λ q. Priced (hold_query auth dto property) mid q)
                                        (sym facts.3) priced)
                                      row
                                      (subst₂
                                        (λ q d.
                                          place_hold sha256 token minutes auth dto property q mid
                                          ≡ ok (row, d))
                                        (sym facts.3) (sym facts.4) placed)
                                      facts.0 facts.1 facts.2
                              ]
                      ]
                ]
          ]
    ]
