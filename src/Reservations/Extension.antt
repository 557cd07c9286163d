-- ===== src/Reservations/Extension.antt =====
-- Changed departures: what they ask for, and what they do.
use lodgiva.Common.{
  ◌<◌, Bool, true, false, ◌≡◌, refl, ap, ◌∙◌, subst, arith, ◌==◌, ltb, update_where, inl, inr,
}
use lodgiva.Common.Members.{Member}
use lodgiva.Store.{Key, IsoDate, Reservation, ReservationRoom, Db, ok, when, Result-cases}
use lodgiva.Access.{Auth, log}
use lodgiva.Reservations.Rooms.{get_or_throw, room_of}
use lodgiva.Reservations.Moves.{
  ExtendStay, extend_stay, check_added, until_row, extended_row, is_extendable,
}
use lodgiva.Reservations.Effects.{Named, get_or_throw-Named, room_of-Member}
use lodgiva.Reservations.House.{Touch}

-- The departure of a stay has been changed: only the dates of the reservation and of its stay.
pub record Extended (auth : Auth) (id : Key) (dto : ExtendStay) (db db' : Db) : Type 0 where
  pub res : Reservation
  pub stay : ReservationRoom
  pub named : Named auth id db res
  pub stay_found : Member stay db.reservation_rooms
  pub its : stay.reservation_id ≡ res.id
  pub was_extendable : is_extendable res.status ≡ true
  pub after_arrival : res.arrival_date < dto.departure_date
  pub reservations :
      db'.reservations
      ≡ update_where (λ r. r.id == res.id) (extended_row dto.departure_date) db.reservations
  pub stays :
      db'.reservation_rooms
      ≡ update_where (λ s. s.id == stay.id) (until_row dto.departure_date) db.reservation_rooms
  pub allocations : db'.allocations ≡ db.allocations
  pub counter : db'.next_id ≡ db.next_id

when_added-eq :
    (auth : Auth) (stay : ReservationRoom) (b : Bool) (from to : IsoDate) (db mid : Db)
    (u : Unit {0})
    → when b (check_added auth stay from to) db ≡ ok (u, mid)
    → mid ≡ db
unfolding check_added
when_added-eq auth stay true from to db mid u h = ground arith
when_added-eq auth stay false from to db mid u h = ground arith

-- A change of the departure is made on a confirmed or checked-in reservation of the tenant, to a day
-- after the arrival. It rewrites the departure of the reservation and of its stay, and the table of
-- the inventory's nights stays as it was, whether the stay grows longer or shorter.
pub extend_stay-Extended :
    (auth : Auth) (id : Key) (dto : ExtendStay) (db : Db) (r : Reservation) (db' : Db)
    → extend_stay auth id dto db ≡ ok (r, db')
    → Extended auth id dto db db'
unfolding extend_stay log
extend_stay-Extended auth id dto db r db' h = elim (Result-cases (get_or_throw auth id db)) [
  | inr (e, failed) ↦ absurd (ground arith)
  | inl ((res, d1), r1) ↦ elim (Result-cases (room_of res.id d1)) [
    | inr (e, failed) ↦ absurd (ground arith)
    | inl ((stay, d2), r2) ↦
        elim (Result-cases (
          when (ltb res.departure_date dto.departure_date)
            (check_added auth stay res.departure_date dto.departure_date) d2)) [
              | inr (e, failed) ↦ absurd (ground arith)
              | inl ((u, d3), r3) ↦
                  let (e1, named) = get_or_throw-Named auth id db d1 res r1 in
                  let (e2, stay_found, its) = room_of-Member res.id d1 d2 stay r2 in
                  let e3 : d3 ≡ db = when_added-eq auth stay _ _ _ d2 d3 u r3 ∙ e2 ∙ e1 in
                  let facts : (is_extendable res.status ≡ true)
                      × (res.arrival_date < dto.departure_date)
                      × (db'.reservations
                          ≡ update_where (λ r. r.id == res.id) (extended_row dto.departure_date)
                              d3.reservations)
                      × (db'.reservation_rooms
                          ≡ update_where (λ s. s.id == stay.id) (until_row dto.departure_date)
                              d3.reservation_rooms)
                      × (db'.allocations ≡ d3.allocations)
                      × (db'.next_id ≡ d3.next_id) =
                    ground arith in
                  record {
                    res = res;
                    stay = stay;
                    named = named;
                    stay_found = subst (λ d. Member stay d.reservation_rooms) e1 stay_found;
                    its = its;
                    was_extendable = facts.0;
                    after_arrival = facts.1;
                    reservations =
                        facts.2
                        ∙ ap
                            (λ d.
                              update_where (λ r. r.id == res.id) (extended_row dto.departure_date)
                                d.reservations)
                            e3;
                    stays =
                        facts.3
                        ∙ ap
                            (λ d.
                              update_where (λ s. s.id == stay.id) (until_row dto.departure_date)
                                d.reservation_rooms)
                            e3;
                    allocations = facts.4 ∙ ap (λ d. d.allocations) e3;
                    counter = facts.5 ∙ ap (λ d. d.next_id) e3;
                  }
            ]
  ]
]

pub Extended-Touch :
    {auth : Auth} {id : Key} {dto : ExtendStay} {db db' : Db}
    → (x : Extended auth id dto db db')
    → Touch db db' x.res x.stay (extended_row dto.departure_date) (until_row dto.departure_date)
Extended-Touch x = record {
  found = x.named.found;
  stay_found = x.stay_found;
  its = x.its;
  keeps = λ r. (refl, refl);
  stay_keeps = λ s. (refl, refl, refl);
  step = inl refl;
  housed = λ house inside. house inside;
  fits = λ _ _ t k into. inl into;
  reservations = x.reservations;
  stays = x.stays;
  ids = omega (arith, x.counter);
}
