-- ===== src/Reservations/House.antt =====
-- What holds of the reservations and their stays between any two operations.
pub mod OneStay
pub mod Others
pub mod Fate
use lodgiva.Common.{
  ℕ, ◌+◌, ◌≤◌, ◌<◌, Bool, true, false, ◌&&◌, Option, none, some, List, [], ◌∷◌, ◌≡◌, ◌≢◌, refl, sym,
  ap, ◌∙◌, subst, arith, ◌==◌, count, update_where, is_id, All, ◌⊎◌, inl, inr, Bool-cases,
  if◌then◌else◌,
}
use lodgiva.Common.Sorting.{Pairs, All-map}
use lodgiva.Common.Members.{
  Member, All-Member, All-zip, UniqueBy, unique-Member, All-update_where, UniqueBy-update_where,
  count-update_where_mono, count-update_where_one,
}
use lodgiva.Store.{
  Key, ReservationState, confirmed, checked_in, in_house, reserved, Reservation, ReservationRoom,
  Db,
}
use lodgiva.ReservationState.{can_transition}
use lodgiva.Reservations.Rooms.{occupies}

-- A stay belongs to the tenant of its reservation, and is in house only while that is checked in.
abbrev pub Agrees : Reservation → ReservationRoom → Type 0
Agrees r s =
    r.id ≡ s.reservation_id
    → (r.tenant_id ≡ s.tenant_id) × (s.status ≡ in_house → r.status ≡ checked_in)

abbrev pub Linked : List Reservation → List ReservationRoom → Type 0
Linked rs ss = All (λ s. All (λ r. Agrees r s) rs) ss

-- Ids are below the counter and pairwise different, each reservation has one stay at most, and no
-- room has two guests in house.
pub record Safe (db : Db) : Type 0 where
  pub reservations_below : All (λ r. r.id < db.next_id) db.reservations
  pub stays_below :
      All (λ s. (s.id < db.next_id) × (s.reservation_id < db.next_id)) db.reservation_rooms
  pub reservation_ids : UniqueBy (λ r. r.id) db.reservations
  pub stay_ids : UniqueBy (λ s. s.id) db.reservation_rooms
  pub one_stay : UniqueBy (λ s. s.reservation_id) db.reservation_rooms
  pub linked : Linked db.reservations db.reservation_rooms
  pub one_guest : (t k : Key) → count (occupies t k) db.reservation_rooms ≤ 1

-- Two lists hold the same rows after an operation that leaves them.
pub record Quiet (db db' : Db) : Type 0 where
  pub reservations : db'.reservations ≡ db.reservations
  pub stays : db'.reservation_rooms ≡ db.reservation_rooms
  pub ids : db.next_id ≤ db'.next_id

-- One reservation moved along an edge of the state table or kept its state, and its stay was
-- rewritten. Where the stay comes in house the reservation is checked in, and it takes a room that
-- was its own or that nobody of the tenant was in.
pub record Touch (db db' : Db) (res : Reservation) (stay : ReservationRoom)
    (f : Reservation → Reservation) (g : ReservationRoom → ReservationRoom) : Type 0 where
  pub found : Member res db.reservations
  pub stay_found : Member stay db.reservation_rooms
  pub its : stay.reservation_id ≡ res.id
  pub keeps : (r : Reservation) → ((f r).id ≡ r.id) × ((f r).tenant_id ≡ r.tenant_id)
  pub stay_keeps :
      (s : ReservationRoom)
      → ((g s).id ≡ s.id)
        × ((g s).tenant_id ≡ s.tenant_id)
        × ((g s).reservation_id ≡ s.reservation_id)
  pub step : ((f res).status ≡ res.status) ⊎ (can_transition res.status (f res).status ≡ true)
  pub housed :
      (stay.status ≡ in_house → res.status ≡ checked_in)
      → (g stay).status ≡ in_house
      → (f res).status ≡ checked_in
  pub fits :
      res.tenant_id ≡ stay.tenant_id
      → (stay.status ≡ in_house → res.status ≡ checked_in)
      → (t k : Key) → occupies t k (g stay) ≡ true
      → (occupies t k stay ≡ true) ⊎ (count (occupies t k) db.reservation_rooms ≡ 0)
  pub reservations : db'.reservations ≡ update_where (λ r. r.id == res.id) f db.reservations
  pub stays : db'.reservation_rooms ≡ update_where (λ s. s.id == stay.id) g db.reservation_rooms
  pub ids : db.next_id ≤ db'.next_id

-- A reservation ended, and its stays were given up.
pub record End (db db' : Db) (res : Reservation) (f : Reservation → Reservation)
    (g : ReservationRoom → ReservationRoom) : Type 0 where
  pub found : Member res db.reservations
  pub keeps : (r : Reservation) → ((f r).id ≡ r.id) × ((f r).tenant_id ≡ r.tenant_id)
  pub stay_keeps :
      (s : ReservationRoom)
      → ((g s).id ≡ s.id)
        × ((g s).tenant_id ≡ s.tenant_id)
        × ((g s).reservation_id ≡ s.reservation_id)
  pub step : can_transition res.status (f res).status ≡ true
  pub given_up : (s : ReservationRoom) → (g s).status ≢ in_house
  pub reservations : db'.reservations ≡ update_where (λ r. r.id == res.id) f db.reservations
  pub stays :
      db'.reservation_rooms ≡ update_where (λ s. s.reservation_id == res.id) g db.reservation_rooms
  pub ids : db.next_id ≤ db'.next_id

-- A reservation and its stay were created.
pub record Birth (db db' : Db) (row : Reservation) (stay : ReservationRoom) : Type 0 where
  pub row_id : row.id ≡ db.next_id
  pub stay_id : stay.id ≡ db.next_id + 1
  pub its : stay.reservation_id ≡ row.id
  pub same_tenant : row.tenant_id ≡ stay.tenant_id
  pub is_confirmed : row.status ≡ confirmed
  pub is_reserved : stay.status ≡ reserved
  pub reservations : db'.reservations ≡ row ∷ db.reservations
  pub stays : db'.reservation_rooms ≡ stay ∷ db.reservation_rooms
  pub ids : db.next_id + 2 ≤ db'.next_id

-- What an operation does to the two tables.
pub data Effect (db db' : Db) : Type 0 where
  quiet : Quiet db db' → Effect db db'
  touched :
      {res : Reservation} {stay : ReservationRoom} {f : Reservation → Reservation}
      {g : ReservationRoom → ReservationRoom}
      → Touch db db' res stay f g
      → Effect db db'
  ended :
      {res : Reservation} {f : Reservation → Reservation} {g : ReservationRoom → ReservationRoom}
      → End db db' res f g
      → Effect db db'
  born : {row : Reservation} {stay : ReservationRoom} → Birth db db' row stay → Effect db db'
