-- ===== src/Booking/Holds.antt =====
-- `createHold`, for a caller who is signed in as its only route demands, `getHold` and `releaseHold`
-- of apps/api/src/modules/booking.module.ts. Parameters are the hash of the program's crypto library,
-- the token that is drawn at random, the text of an id, and HOLD_MINUTES of the environment.
use package.text.Mathlib.Text.{◌==◌ as str_eq}
use lodgiva.Common.{
  ℕ, ◌+◌, ◌*◌, Bool, ◌&&◌, ◌||◌, not, none, some, [], ◌∷◌, String, ◌==◌, leb, find, any,
  update_where,
}
use lodgiva.Store.{
  Key, IsoDate, Instant, active, hold_released, is_active, number, day, RoomType, Property, Hold, M,
  pure, gets, require, modify, fresh, throw_if, ◌>>=◌, ◌>>◌, not_found, conflict, crash,
  hold_not_found, hold_not_active,
}
use lodgiva.Access.{Auth, assert_property, log}
use lodgiva.Inventory.{StayInput, allocate_stay, release_hold, expire_stale_holds}
use lodgiva.Booking.Quotes.{StayQuery, QuoteResult, assert_range, price_stay}

-- `holdSchema`
pub record CreateHold : Type 0 where
  pub property_id : Key
  pub rate_plan_id : Key
  pub arrival_date : IsoDate
  pub departure_date : IsoDate
  pub adults : ℕ
  pub children : ℕ

abbrev pub hold_query : Auth → CreateHold → Property → StayQuery
hold_query auth dto property = record {
  tenant_id = auth.tenant_id;
  property_id = property.id;
  business_date = property.business_date;
  rate_plan_id = dto.rate_plan_id;
  arrival_date = dto.arrival_date;
  departure_date = dto.departure_date;
  adults = dto.adults;
  children = dto.children;
}

-- The row of a hold.
abbrev pub hold_row : Auth → CreateHold → Property → QuoteResult → String → Instant → Key → Hold
hold_row auth dto property quoted token_hash expires_at id = record {
  id = id;
  tenant_id = auth.tenant_id;
  property_id = property.id;
  room_type_id = quoted.room_type.id;
  rate_plan_id = some quoted.rate_plan.id;
  token_hash = token_hash;
  arrival_date = dto.arrival_date;
  departure_date = dto.departure_date;
  adults = dto.adults;
  children = dto.children;
  quoted_total_minor = quoted.total_minor;
  quoted_nights = quoted.nights;
  quoted_taxes = quoted.taxes;
  status = active;
  expires_at = expires_at;
  released_at = none;
}

-- The claim of the nights of a hold.
abbrev pub hold_input : Hold → StayInput
hold_input h = record {
  tenant_id = h.tenant_id;
  property_id = h.property_id;
  room_type_id = h.room_type_id;
  arrival = h.arrival_date;
  departure = h.departure_date;
  hold_id = some h.id;
  reservation_room_id = none;
  consuming_hold_id = none;
}

pub record HoldReceipt : Type 0 where
  pub hold_id : Key
  pub hold_token : String
  pub expires_at : Instant
  pub expires_in_seconds : ℕ
  pub quoted : QuoteResult

-- The transaction of `createHold`, after the price; hashes of tokens have a unique index.
unfoldable pub place_hold :
    (String → String) → String → ℕ → Auth → CreateHold → Property → QuoteResult → M Hold
unfolding allocate_stay log
place_hold sha256 token minutes auth dto property quoted = do
  throw_if (← gets (λ db. any (λ h. str_eq h.token_hash (sha256 token)) db.holds)) crash
  now ← gets (λ db. db.now)
  id ← fresh
  let row = hold_row auth dto property quoted (sha256 token) (now + minutes * 60000) id
  modify (λ db. record db { holds = row ∷ db.holds })
  allocate_stay (hold_input row)
  log auth "reservation.hold_created" "hold" id (some property.id) (
      ("arrival", day dto.arrival_date)
      ∷ ("departure", day dto.departure_date)
      ∷ ("totalMinor", number quoted.total_minor)
      ∷ [])
  pure row

-- `createHold`
unfoldable pub create_hold : (String → String) → String → ℕ → Auth → CreateHold → M HoldReceipt
unfolding assert_range assert_property expire_stale_holds price_stay place_hold
create_hold sha256 token minutes auth dto = do
  assert_range dto.arrival_date dto.departure_date
  property ← assert_property auth dto.property_id
  expire_stale_holds (some auth.tenant_id)
  quoted ← price_stay (hold_query auth dto property)
  created ← place_hold sha256 token minutes auth dto property quoted
  pure (record {
    hold_id = created.id;
    hold_token = token;
    expires_at = created.expires_at;
    expires_in_seconds = minutes * 60;
    quoted = quoted;
  })

-- `OR: [{ id }, { tokenHash }]`
abbrev pub is_named : (Key → String) → (String → String) → String → Hold → Bool
is_named id_text sha256 given h = str_eq (id_text h.id) given || str_eq h.token_hash (sha256 given)

pub record HoldView : Type 0 where
  pub hold : Hold
  pub room_type : RoomType
  pub is_expired : Bool

-- `getHold`
unfoldable pub get_hold : (Key → String) → (String → String) → String → M HoldView
unfolding expire_stale_holds
get_hold id_text sha256 given = do
  expire_stale_holds none
  hold ←
      require (← gets (λ db. find (is_named id_text sha256 given) db.holds))
        (not_found hold_not_found)
  type ← require (← gets (λ db. find (λ t. t.id == hold.room_type_id) db.room_types)) crash
  now ← gets (λ db. db.now)
  pure (record {
    hold = hold;
    room_type = type;
    is_expired = is_active hold.status && leb hold.expires_at now;
  })

-- The columns that `releaseHold` updates.
abbrev pub released_row : Instant → Hold → Hold
released_row now h = record h { status = hold_released; released_at = some now }

-- `releaseHold`
unfoldable pub release_stay_hold : (Key → String) → (String → String) → Auth → String → M Hold
unfolding release_hold log
release_stay_hold id_text sha256 auth given = do
  hold ←
      require
        (← gets (λ db.
          find (λ h. h.tenant_id == auth.tenant_id && is_named id_text sha256 given h) db.holds))
        (not_found hold_not_found)
  throw_if (not (is_active hold.status)) (conflict hold_not_active)
  release_hold hold.id
  now ← gets (λ db. db.now)
  modify
      (λ db. record db { holds = update_where (λ h. h.id == hold.id) (released_row now) db.holds })
  log auth "reservation.hold_released" "hold" hold.id (some hold.property_id) []
  pure (released_row now hold)
