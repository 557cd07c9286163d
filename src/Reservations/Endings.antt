-- ===== src/Reservations/Endings.antt =====
-- Cancellations and no-shows: what they do to the reservations, their stays and the inventory.
use lodgiva.Common.{
  ◌≤◌, Bool, true, List, [], ◌∷◌, String, ◌≡◌, refl, ap, ◌∙◌, arith, ◌==◌, any, filter, is_id,
  update_where, inl, inr, not, ◌||◌,
}
use lodgiva.Store.{
  Key, ReservationState, cancelled, no_show, released, Reservation, ReservationRoom, Allocation, Db,
  ok, Result-cases,
}
use lodgiva.Access.{Auth, log, emit}
use lodgiva.ReservationState.{can_transition}
use lodgiva.Inventory.{release_reservation_room}
use lodgiva.Reservations.Rooms.{get_or_throw}
use lodgiva.Reservations.Changes.{
  cancel, mark_no_show, end_stay, free_rooms, release_stays, ended_row,
}
use lodgiva.Reservations.Effects.{Named, get_or_throw-Named}
use lodgiva.Reservations.House.{End, Effect, ended}

-- A row of the inventory is allocated to one of the stays.
abbrev pub is_row_of : List ReservationRoom → Allocation → Bool
is_row_of rooms a = any (λ r. is_id a.reservation_room_id r.id) rooms

filter-twice :
    (p q : Allocation → Bool) (l : List Allocation)
    → filter (λ a. not (q a)) (filter (λ a. not (p a)) l) ≡ filter (λ a. not (p a || q a)) l
filter-twice p q [] = refl
filter-twice p q (x ∷ l) = ground (arith, filter-twice p q l)

filter-all : (l : List Allocation) → filter (λ a. true) l ≡ l
filter-all [] = refl
filter-all (x ∷ l) = ground (arith, filter-all l)

-- The loop frees exactly the nights of the stays.
pub free_rooms_lem :
    (rooms : List ReservationRoom) (db : Db)
    → free_rooms rooms db
      ≡ ok (tt, record db { allocations = filter (λ a. not (is_row_of rooms a)) db.allocations })
unfolding free_rooms release_reservation_room
free_rooms_lem [] db = rw (filter-all db.allocations) refl
free_rooms_lem (r ∷ rooms) db =
    let freed : Db = record db {
      allocations = filter (λ a. not (is_id a.reservation_room_id r.id)) db.allocations;
    } in
    let twice =
      filter-twice (λ a. is_id a.reservation_room_id r.id) (is_row_of rooms) db.allocations in
    free_rooms_lem rooms freed ∙ ap (λ l. ok (tt, record db { allocations = l })) twice

-- A reservation has ended, with its stays and their nights of the inventory.
pub record Ended (auth : Auth) (id : Key) (status : ReservationState) (db db' : Db) : Type 0 where
  pub res : Reservation
  pub named : Named auth id db res
  pub legal : can_transition res.status status ≡ true
  pub reservations :
      db'.reservations ≡ update_where (λ r. r.id == res.id) (ended_row status) db.reservations
  pub stays :
      db'.reservation_rooms
      ≡ update_where
          (λ s. s.reservation_id == res.id)
          (λ s. record s { status = released })
          db.reservation_rooms
  pub allocations :
      db'.allocations
      ≡ filter
          (λ a. not (is_row_of (filter (λ s. s.reservation_id == res.id) db.reservation_rooms) a))
          db.allocations
  pub counter : db.next_id ≤ db'.next_id

end_writes :
    (res : Reservation) (status : ReservationState) (db : Db)
    → end_stay res status db
      ≡ ok (
        tt,
        record db {
          reservations = update_where (λ r. r.id == res.id) (ended_row status) db.reservations;
          reservation_rooms =
              update_where
                (λ s. s.reservation_id == res.id)
                (λ s. record s { status = released })
                db.reservation_rooms;
          allocations =
              filter
                (λ a.
                  not (is_row_of (filter (λ s. s.reservation_id == res.id) db.reservation_rooms) a))
                db.allocations;
        },
      )
unfolding end_stay
end_writes res status db =
    let rooms = filter (λ s. s.reservation_id == res.id) db.reservation_rooms in
    ground (arith, free_rooms_lem rooms (release_stays res.id db))

-- A cancellation is a legal transition of a reservation of the tenant. It cancels the reservation,
-- releases its stays, and frees exactly the nights of the inventory that were allocated to them.
pub cancel-Ended :
    (auth : Auth) (id : Key) (reason : String) (db : Db) (r : Reservation) (db' : Db)
    → cancel auth id reason db ≡ ok (r, db')
    → Ended auth id cancelled db db'
unfolding cancel log emit
cancel-Ended auth id reason db r db' h = elim (Result-cases (get_or_throw auth id db)) [
  | inr (e, failed) ↦ absurd (ground arith)
  | inl ((res, d1), r1) ↦
      let (e1, named) = get_or_throw-Named auth id db d1 res r1 in
      let same : get_or_throw auth id db ≡ ok (res, db) = r1 ∙ ap (λ d. ok (res, d)) e1 in
      let writes = end_writes res cancelled db in
      record {
        res = res;
        named = named;
        legal = ground (arith, same);
        reservations = ground (arith, same, writes);
        stays = ground (arith, same, writes);
        allocations = ground (arith, same, writes);
        counter = ground (arith, same, writes);
      }
]

pub mark_no_show-Ended :
    (auth : Auth) (id : Key) (db : Db) (r : Reservation) (db' : Db)
    → mark_no_show auth id db ≡ ok (r, db')
    → Ended auth id no_show db db'
unfolding mark_no_show log emit
mark_no_show-Ended auth id db r db' h = elim (Result-cases (get_or_throw auth id db)) [
  | inr (e, failed) ↦ absurd (ground arith)
  | inl ((res, d1), r1) ↦
      let (e1, named) = get_or_throw-Named auth id db d1 res r1 in
      let same : get_or_throw auth id db ≡ ok (res, db) = r1 ∙ ap (λ d. ok (res, d)) e1 in
      let writes = end_writes res no_show db in
      record {
        res = res;
        named = named;
        legal = ground (arith, same);
        reservations = ground (arith, same, writes);
        stays = ground (arith, same, writes);
        allocations = ground (arith, same, writes);
        counter = ground (arith, same, writes);
      }
]

pub Ended-Effect :
    {auth : Auth} {id : Key} {status : ReservationState} {db db' : Db}
    → Ended auth id status db db'
    → Effect db db'
Ended-Effect {auth} {id} {status} {db} {db'} e =
    let over : End db db' e.res (ended_row status) (λ s. record s { status = released }) = record {
      found = e.named.found;
      keeps = λ r. (refl, refl);
      stay_keeps = λ s. (refl, refl, refl);
      step = e.legal;
      given_up = λ s k. cc;
      reservations = e.reservations;
      stays = e.stays;
      ids = e.counter;
    } in
    ended over
