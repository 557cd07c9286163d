-- ===== src/Reservations/Created.antt =====
-- New reservations: what `create` does to the reservations and their stays.
use lodgiva.Common.{
  ℕ, zero, suc, ◌+◌, ◌<◌, false, Option, none, some, List, ◌∷◌, String, ◌≡◌, refl, sym, ap, ◌∙◌,
  subst, arith, any, inl, inr, Bool-cases, Option-cases, find,
}
use lodgiva.Store.{Key, Guest, Hold, Reservation, RoomType, Db, ok, Result-cases}
use lodgiva.Access.{Auth, log, emit, assert_property}
use lodgiva.ConfirmationCode.{generate_confirmation_code}
use lodgiva.Inventory.{allocate_stay}
use lodgiva.Inventory.Stays.{allocate_stay-Frame}
use lodgiva.Reservations.Creation.{
  CreateReservation, create, book, next_code, next_confirmation_code, held_for, given, check_room,
  create_rows, consume, consume_hold_tx, reservation_row, stay_row, stay_input, has_code,
  is_type_for, is_guest_for,
}
use lodgiva.Reservations.Effects.{assert_property-eq}
use lodgiva.Reservations.House.{Birth}

held_for-eq :
    (sha256 : String → String) (auth : Auth) (dto : CreateReservation) (o : Option String)
    (db mid : Db) (hold : Option Hold)
    → held_for sha256 auth dto o db ≡ ok (hold, mid)
    → mid ≡ db
unfolding held_for consume_hold_tx
held_for-eq sha256 auth dto none db mid hold h = ground arith
held_for-eq sha256 auth dto (some token) db mid hold h = ground arith

check_room-eq :
    (auth : Auth) (dto : CreateReservation) (o : Option Key) (db mid : Db) (u : Unit {0})
    → check_room auth dto o db ≡ ok (u, mid)
    → mid ≡ db
unfolding check_room
check_room-eq auth dto none db mid u h = ground arith
check_room-eq auth dto (some k) db mid u h = ground arith

-- A code that is drawn is the code of no reservation of the property yet.
pub next_code-fresh :
    (rand : ℕ → ℕ → ℕ) (tenant_id property_id attempt left : ℕ) (db mid : Db) (code : List ℕ)
    → next_code rand tenant_id property_id attempt left db ≡ ok (code, mid)
    → (mid ≡ db) × (any (has_code tenant_id property_id code) db.reservations ≡ false)
unfolding next_code
next_code-fresh rand tenant_id property_id attempt zero db mid code h = absurd (ground arith)
next_code-fresh rand tenant_id property_id attempt (suc left) db mid code h =
    elim (Bool-cases (
      any (has_code tenant_id property_id (generate_confirmation_code (rand attempt)))
        db.reservations)) [
          | inl clash ↦
              next_code-fresh rand tenant_id property_id (suc attempt) left db mid code
                (ground (arith, clash))
          | inr free ↦
              let facts : (mid ≡ db) × (generate_confirmation_code (rand attempt) ≡ code) =
                ground (arith, free) in
              (
                facts.0,
                subst (λ c. any (has_code tenant_id property_id c) db.reservations ≡ false) facts.1
                    free,
              )
        ]

consume-eq :
    (o : Option Hold) (db : Db)
    → (mid : Db) × (consume o db ≡ ok (tt, mid))
      × (mid.reservations ≡ db.reservations)
      × (mid.reservation_rooms ≡ db.reservation_rooms)
      × (mid.next_id ≡ db.next_id)
unfolding consume
consume-eq none db = (db, refl, refl, refl, refl)
consume-eq (some hold) db = (_, refl, refl, refl, refl)

-- The writes of `create`: a confirmed reservation with a reserved stay.
pub book-Birth :
    (auth : Auth) (dto : CreateReservation) (room_type : RoomType) (guest : Guest) (code : List ℕ)
    (hold : Option Hold) (db : Db) (r : Reservation) (db' : Db)
    → book auth dto room_type guest code hold db ≡ ok (r, db')
    → (r ≡ reservation_row auth dto guest.id code db.next_id)
      × Birth db db' r (stay_row auth dto room_type db.next_id (db.next_id + 1))
unfolding book create_rows log emit
book-Birth auth dto room_type guest code hold db r db' h =
    let row = reservation_row auth dto guest.id code db.next_id in
    let stay = stay_row auth dto room_type db.next_id (db.next_id + 1) in
    let first : Db = record db {
      next_id = db.next_id + 1 + 1;
      reservations = row ∷ db.reservations;
      reservation_rooms = stay ∷ db.reservation_rooms;
    } in
    let input = stay_input auth dto room_type stay.id hold in
    elim (Result-cases (allocate_stay input first)) [
      | inr (e, failed) ↦ absurd (ground arith)
      | inl ((claims, mid), ran) ↦
          let f = allocate_stay-Frame input first mid claims ran in
          let (end, used, rs, ss, ids) = consume-eq hold mid in
          let facts : (r ≡ row)
              × (db'.reservations ≡ end.reservations)
              × (db'.reservation_rooms ≡ end.reservation_rooms)
              × (db'.next_id ≡ end.next_id + 1) =
            ground (arith, ran, used) in
          (
            facts.0,
            record {
              row_id = ap (λ x. x.id) facts.0;
              stay_id = refl;
              its = sym (ap (λ x. x.id) facts.0);
              same_tenant = ap (λ x. x.tenant_id) facts.0;
              is_confirmed = ap (λ x. x.status) facts.0;
              is_reserved = refl;
              reservations =
                  facts.1 ∙ rs ∙ f.reservations ∙ ap (λ x. x ∷ db.reservations) (sym facts.0);
              stays = facts.2 ∙ ss ∙ f.stays;
              ids = omega (arith, f.ids, ids, facts.3);
            },
          )
    ]

-- A reservation has been created: confirmed, with a code that no reservation of the property had,
-- and with one reserved stay.
pub record Created (auth : Auth) (dto : CreateReservation) (db : Db) (r : Reservation) (db' : Db)
    : Type 0 where
  pub room_type : RoomType
  pub in_order : dto.arrival_date < dto.departure_date
  pub fresh_code :
      any (has_code auth.tenant_id dto.property_id r.confirmation_code) db.reservations ≡ false
  pub birth : Birth db db' r (stay_row auth dto room_type db.next_id (db.next_id + 1))

pub create-Created :
    (sha256 : String → String) (rand : ℕ → ℕ → ℕ) (auth : Auth) (dto : CreateReservation) (db : Db)
    (r : Reservation) (db' : Db)
    → create sha256 rand auth dto db ≡ ok (r, db')
    → Created auth dto db r db'
unfolding create next_confirmation_code
create-Created sha256 rand auth dto db r db' h =
    elim (Result-cases (assert_property auth dto.property_id db)) [
      | inr (e, failed) ↦ absurd (ground arith)
      | inl ((property, d1), r1) ↦ elim (Option-cases (find (is_type_for auth dto) d1.room_types)) [
        | inl missing ↦ absurd (ground arith)
        | inr (room_type, found) ↦
            elim (Result-cases (held_for sha256 auth dto (given dto.hold_token) d1)) [
              | inr (e, failed) ↦ absurd (ground arith)
              | inl ((hold, d2), r2) ↦ elim (Result-cases (check_room auth dto dto.room_id d2)) [
                | inr (e, failed) ↦ absurd (ground arith)
                | inl ((u, d3), r3) ↦ elim (Option-cases (find (is_guest_for auth dto) d3.guests)) [
                  | inl missing ↦ absurd (ground arith)
                  | inr (guest, known) ↦
                      elim (Result-cases (next_code rand auth.tenant_id dto.property_id 0 6 d3)) [
                        | inr (e, failed) ↦ absurd (ground arith)
                        | inl ((code, d4), r4) ↦
                            let same : d3 ≡ db =
                              check_room-eq auth dto dto.room_id d2 d3 u r3
                              ∙ held_for-eq sha256 auth dto _ d1 d2 hold r2
                              ∙ assert_property-eq auth dto.property_id db d1 property r1 in
                            let (e4, unused) =
                              next_code-fresh rand auth.tenant_id dto.property_id 0 6 d3 d4 code
                                r4 in
                            let facts : (dto.arrival_date < dto.departure_date)
                                × (book auth dto room_type guest code hold d4 ≡ ok (r, db')) =
                              ground arith in
                            let (row, birth) =
                              book-Birth auth dto room_type guest code hold db r db' (
                                subst (λ d. book auth dto room_type guest code hold d ≡ ok (r, db'))
                                  (e4 ∙ same) facts.1) in
                            record {
                              room_type = room_type;
                              in_order = facts.0;
                              fresh_code =
                                  subst
                                    (λ c.
                                      any (has_code auth.tenant_id dto.property_id c)
                                        db.reservations
                                      ≡ false)
                                    (sym (ap (λ x. x.confirmation_code) row))
                                    (subst
                                      (λ d.
                                        any (has_code auth.tenant_id dto.property_id code)
                                          d.reservations
                                        ≡ false)
                                      same unused);
                              birth = birth;
                            }
                      ]
                ]
              ]
            ]
      ]
    ]
