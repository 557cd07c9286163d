-- ===== src/Reservations/Rebooked.antt =====
-- Room assignments and modified stays: what they do to the reservations and their stays.
use lodgiva.Common.{
  ◌≤◌, Bool, true, false, ◌&&◌, not, Option, none, some, List, [], ◌∷◌, String, ◌≡◌, refl, sym, ap,
  ◌∙◌, subst, arith, ◌==◌, is_id, update_where, find, filter, Option-cases, ◌⊎◌, inl, inr,
  Bool-cases,
}
use lodgiva.Common.Members.{Member}
use lodgiva.Common.Int.{ℤ}
use lodgiva.Store.{
  Key, checked_in, in_house, Reservation, ReservationRoom, Room, Db, ok, when, Result-cases,
}
use lodgiva.Access.{Auth, log, emit}
use lodgiva.ReservationState.{same_state}
use lodgiva.Inventory.{allocate_stay, release_reservation_room}
use lodgiva.Inventory.Stays.{allocate_stay-Frame}
use lodgiva.Reservations.Rooms.{allocate_room, get_or_throw, room_of}
use lodgiva.Reservations.Moves.{assign_room, choose_room, moved_row}
use lodgiva.Reservations.Changes.{
  Modify, modify_stay, rebook, Wanted, wanted_of, modified_stay, modified_row, kept_room, rate_of,
  reclaim_nights, inventory_changed, still_fits, claim_of, is_type_of_property,
}
use lodgiva.Reservations.Effects.{Named, get_or_throw-Named, room_of-Member}
use lodgiva.Reservations.House.{Touch, Effect, touched}

pub update_where-id : {A : Type 0} (q : A → Bool) (l : List A) → update_where q (λ x. x) l ≡ l
update_where-id q [] = refl
update_where-id q (x ∷ l) = ground (arith, update_where-id q l)

choose_room-eq :
    (before : String → String → Bool) (auth : Auth) (res : Reservation) (stay : ReservationRoom)
    (o : Option Key) (db mid : Db) (room : Room)
    → choose_room before auth res stay o db ≡ ok (room, mid)
    → mid ≡ db
unfolding choose_room allocate_room
choose_room-eq before auth res stay (some id) db mid room h = ground arith
choose_room-eq before auth res stay none db mid room h = ground arith

pub assign_room-Effect :
    (before : String → String → Bool) (auth : Auth) (id : Key) (o : Option Key) (db : Db) (r : Room)
    (db' : Db)
    → assign_room before auth id o db ≡ ok (r, db')
    → Effect db db'
unfolding assign_room log
assign_room-Effect before auth id o db r db' h = elim (Result-cases (get_or_throw auth id db)) [
  | inr (e, failed) ↦ absurd (ground arith)
  | inl ((res, d1), r1) ↦ elim (Result-cases (room_of res.id d1)) [
    | inr (e, failed) ↦ absurd (ground arith)
    | inl ((stay, d2), r2) ↦ elim (Result-cases (choose_room before auth res stay o d2)) [
      | inr (e, failed) ↦ absurd (ground arith)
      | inl ((room, d3), r3) ↦
          let (e1, named) = get_or_throw-Named auth id db d1 res r1 in
          let (e2, stay_found, its) = room_of-Member res.id d1 d2 stay r2 in
          let e3 = choose_room-eq before auth res stay o d2 d3 room r3 in
          let same : d3 ≡ db = e3 ∙ e2 ∙ e1 in
          let facts : (same_state res.status checked_in ≡ false)
              × (db'.reservations ≡ d3.reservations)
              × (db'.reservation_rooms
                  ≡ update_where (λ s. s.id == stay.id) (moved_row room.id) d3.reservation_rooms)
              × (db'.next_id ≡ d3.next_id) =
            ground arith in
          assigned stay room named stay_found its same e1 facts.0 facts.1 facts.2 facts.3
    ]
  ]
]
  where
    assigned :
        {res : Reservation} (stay : ReservationRoom) (room : Room) {d1 d3 : Db}
        → Named auth id db res
        → Member stay d1.reservation_rooms
        → stay.reservation_id ≡ res.id
        → d3 ≡ db
        → d1 ≡ db
        → same_state res.status checked_in ≡ false
        → db'.reservations ≡ d3.reservations
        → db'.reservation_rooms
          ≡ update_where (λ s. s.id == stay.id) (moved_row room.id) d3.reservation_rooms
        → db'.next_id ≡ d3.next_id
        → Effect db db'
    assigned {res} stay room named stay_found its same e1 out rs ss ids =
        let touch : Touch db db' res stay (λ r. r) (moved_row room.id) = record {
          found = named.found;
          stay_found = subst (λ d. Member stay d.reservation_rooms) e1 stay_found;
          its = its;
          keeps = λ r. (refl, refl);
          stay_keeps = λ s. (refl, refl, refl);
          step = inl refl;
          housed = λ house inside. house inside;
          fits = λ _ house t k into.
              let inside : stay.status ≡ in_house = ground (arith, into) in
              absurd (ground (arith, house inside, out));
          reservations =
              rs ∙ ap (λ d. d.reservations) same ∙ sym (update_where-id _ db.reservations);
          stays =
              ss
              ∙ ap
                  (λ d. update_where (λ s. s.id == stay.id) (moved_row room.id) d.reservation_rooms)
                  same;
          ids = omega (arith, ids, ap (λ d. d.next_id) same);
        } in
        touched touch

-- A modified stay: claimed anew where its dates or type changed, it keeps its state, and its room or
-- none.
reclaim_nights-Frame :
    (auth : Auth) (res : Reservation) (stay : ReservationRoom) (w : Wanted) (b : Bool) (db mid : Db)
    (u : Unit {0})
    → when b (reclaim_nights auth res stay w) db ≡ ok (u, mid)
    → (mid.reservations ≡ db.reservations)
      × (mid.reservation_rooms ≡ db.reservation_rooms)
      × (db.next_id ≤ mid.next_id)
unfolding reclaim_nights release_reservation_room
reclaim_nights-Frame auth res stay w false db mid u h = ground arith
reclaim_nights-Frame auth res stay w true db mid u h =
    let freed : Db = record db {
      allocations = filter (λ a. not (is_id a.reservation_room_id stay.id)) db.allocations;
    } in
    elim (Result-cases (allocate_stay (claim_of auth res stay w) freed)) [
      | inr (e, failed) ↦ absurd (ground arith)
      | inl ((claims, end), ran) ↦
          let f = allocate_stay-Frame (claim_of auth res stay w) freed end claims ran in
          let same : mid ≡ end = ground arith in
          (
            ap (λ d. d.reservations) same ∙ f.reservations,
            ap (λ d. d.reservation_rooms) same ∙ f.stays,
            omega (arith, f.ids, ap (λ d. d.next_id) same),
          )
    ]

kept_room-cases :
    (auth : Auth) (res : Reservation) (stay : ReservationRoom) (w : Wanted) (db : Db)
    → (kept_room auth res stay w db ≡ none) ⊎ (kept_room auth res stay w db ≡ stay.room_id)
kept_room-cases auth res stay w db = elim (Option-cases stay.room_id) [
  | inl missing ↦ inl (ground (arith, missing))
  | inr (k, found) ↦
      elim (Bool-cases (inventory_changed w res stay && not (still_fits auth stay w k db))) [
        | inl lost ↦ inl (ground (arith, found, lost))
        | inr stays ↦ inr (ground (arith, found, stays))
      ]
]

rebook_writes :
    (auth : Auth) (res : Reservation) (stay : ReservationRoom) (w : Wanted) (reason : Option String)
    (db : Db) (r : Reservation) (db' : Db)
    → rebook auth res stay w reason db ≡ ok (r, db')
    → (mid : Db) × (rate : ℤ) × (db'.reservations
        ≡ update_where (λ r. r.id == res.id) (modified_row w) db.reservations)
      × (db'.reservation_rooms
          ≡ update_where
              (λ s. s.id == stay.id)
              (modified_stay w (kept_room auth res stay w mid) rate)
              db.reservation_rooms)
      × (db.next_id ≤ db'.next_id)
unfolding rebook log emit
rebook_writes auth res stay w reason db r db' h =
    elim (Option-cases (find (is_type_of_property auth res w) db.room_types)) [
      | inl missing ↦ absurd (ground arith)
      | inr (room_type, found) ↦
          elim (Result-cases
            (when (inventory_changed w res stay) (reclaim_nights auth res stay w) db)) [
              | inr (e, failed) ↦ absurd (ground arith)
              | inl ((u, mid), ran) ↦
                  let kept = reclaim_nights-Frame auth res stay w _ db mid u ran in
                  (
                    mid,
                    rate_of w stay room_type,
                    ground (arith, kept.0),
                    ground (arith, kept.1),
                    ground (arith, kept.2),
                  )
            ]
    ]

pub modify_stay-Effect :
    (auth : Auth) (id : Key) (dto : Modify) (db : Db) (r : Reservation) (db' : Db)
    → modify_stay auth id dto db ≡ ok (r, db')
    → Effect db db'
unfolding modify_stay
modify_stay-Effect auth id dto db r db' h = elim (Result-cases (get_or_throw auth id db)) [
  | inr (e, failed) ↦ absurd (ground arith)
  | inl ((res, d1), r1) ↦ elim (Result-cases (room_of res.id d1)) [
    | inr (e, failed) ↦ absurd (ground arith)
    | inl ((stay, d2), r2) ↦
        let w = wanted_of dto res stay in
        let (e1, named) = get_or_throw-Named auth id db d1 res r1 in
        let (e2, stay_found, its) = room_of-Member res.id d1 d2 stay r2 in
        let ran : rebook auth res stay w dto.reason d2 ≡ ok (r, db') = ground arith in
        modified stay w named (subst (λ d. Member stay d.reservation_rooms) e1 stay_found) its (
          rebook_writes auth res stay w dto.reason db r db'
            (subst (λ d. rebook auth res stay w dto.reason d ≡ ok (r, db')) (e2 ∙ e1) ran))
  ]
]
  where
    modified :
        {res : Reservation} (stay : ReservationRoom) (w : Wanted)
        → Named auth id db res
        → Member stay db.reservation_rooms
        → stay.reservation_id ≡ res.id
        → (mid : Db) × (rate : ℤ) × (db'.reservations
            ≡ update_where (λ r. r.id == res.id) (modified_row w) db.reservations)
          × (db'.reservation_rooms
              ≡ update_where
                  (λ s. s.id == stay.id)
                  (modified_stay w (kept_room auth res stay w mid) rate)
                  db.reservation_rooms)
          × (db.next_id ≤ db'.next_id)
        → Effect db db'
    modified {res} stay w named stay_found its (mid, rate, rs, ss, ids) =
        let touch : Touch db db' res stay (modified_row w)
            (modified_stay w (kept_room auth res stay w mid) rate) =
          record {
            found = named.found;
            stay_found = stay_found;
            its = its;
            keeps = λ r. (refl, refl);
            stay_keeps = λ s. (refl, refl, refl);
            step = inl refl;
            housed = λ house inside. house inside;
            fits = λ _ _ t k into. inl (elim (kept_room-cases auth res stay w mid) [
              | inl lost ↦ absurd (ground (arith, lost, into))
              | inr kept ↦ ground (arith, kept, into)
            ]);
            reservations = rs;
            stays = ss;
            ids = ids;
          } in
        touched touch
