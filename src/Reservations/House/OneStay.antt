-- ===== src/Reservations/House/OneStay.antt =====
-- An operation on one stay keeps the house safe.
use lodgiva.Common.{
  ◌≤◌, ◌<◌, true, ◌≡◌, ◌≢◌, sym, ap, ◌∙◌, subst, arith, ◌==◌, count, update_where, All, inl, inr,
  Bool-cases,
}
use lodgiva.Common.Sorting.{All-map}
use lodgiva.Common.Members.{
  All-Member, All-zip, UniqueBy, unique-Member, All-update_where, UniqueBy-update_where,
  count-update_where_mono, count-update_where_one,
}
use lodgiva.Store.{Key, checked_in, in_house, Reservation, ReservationRoom, Db}
use lodgiva.Reservations.Rooms.{occupies}
use lodgiva.Reservations.House.{Agrees, Linked, Safe, Touch}

module _ {db db' : Db} {res : Reservation} {stay : ReservationRoom} {f : Reservation → Reservation}
    {g : ReservationRoom → ReservationRoom} (safe : Safe db) (e : Touch db db' res stay f g) where
  -- A stay with the id of the touched one is the touched one.
  the_stay : All (λ s. s.id ≡ stay.id → s ≡ stay) db.reservation_rooms
  the_stay = unique-Member (λ s. s.id) db.reservation_rooms stay safe.stay_ids e.stay_found

  the_reservation : All (λ r. r.id ≡ res.id → r ≡ res) db.reservations
  the_reservation = unique-Member (λ r. r.id) db.reservations res safe.reservation_ids e.found

  agreed : (res.tenant_id ≡ stay.tenant_id) × (stay.status ≡ in_house → res.status ≡ checked_in)
  agreed =
      All-Member (λ r. Agrees r stay) db.reservations res
        (All-Member (λ s. All (λ r. Agrees r s) db.reservations) db.reservation_rooms stay
          safe.linked e.stay_found)
        e.found (sym e.its)

  Touch-one_guest : (t k : Key) → count (occupies t k) db'.reservation_rooms ≤ 1
  Touch-one_guest t k =
      subst (λ l. count (occupies t k) l ≤ 1) (sym e.stays)
        (elim (Bool-cases (occupies t k (g stay))) [
          | inr out ↦ kept (λ x same h. cc (same, h, out))
          | inl into ↦ elim (e.fits agreed.0 agreed.1 t k into) [
            | inl own ↦ kept (λ x same h. subst (λ y. occupies t k y ≡ true) (sym same) own)
            | inr empty ↦
                count-update_where_one (λ s. s.id) stay.id g (occupies t k) db.reservation_rooms
                  safe.stay_ids empty
          ]
        ])
    where
      kept :
          ((x : ReservationRoom) → x ≡ stay → occupies t k (g x) ≡ true → occupies t k x ≡ true)
          → count (occupies t k) (update_where (λ s. s.id == stay.id) g db.reservation_rooms) ≤ 1
      kept h = omega (
        arith,
        safe.one_guest t k,
        count-update_where_mono (λ s. s.id == stay.id) g (occupies t k) db.reservation_rooms
            (All-map (λ s. s.id ≡ stay.id → s ≡ stay)
              (λ x same hit. h x (same (ground (arith, hit)))) db.reservation_rooms the_stay),
      )

  -- What is known of a stay, and of a reservation, before the operation.
  abbrev Known : ReservationRoom → Type 0
  Known s =
      All (λ r. Agrees r s) db.reservations
      × ((s.id ≡ stay.id → s ≡ stay) × (s.reservation_id ≡ res.id → s ≡ stay))

  known : All Known db.reservation_rooms
  known =
      All-zip (λ s. All (λ r. Agrees r s) db.reservations) _ db.reservation_rooms safe.linked
        (All-zip (λ s. s.id ≡ stay.id → s ≡ stay) (λ s. s.reservation_id ≡ res.id → s ≡ stay)
          db.reservation_rooms the_stay
          (All-map (λ s. s.reservation_id ≡ stay.reservation_id → s ≡ stay)
            (λ s h k. h (k ∙ sym e.its)) db.reservation_rooms
            (unique-Member (λ s. s.reservation_id) db.reservation_rooms stay safe.one_stay
              e.stay_found)))

  -- The rows of the reservations after the operation agree with a stay if each old row does.
  updated :
      (s' : ReservationRoom)
      → ((r : Reservation) → r ≡ res → Agrees (f r) s')
      → All (λ r. r.id ≢ res.id → Agrees r s') db.reservations
      → All (λ r. Agrees r s') (update_where (λ r. r.id == res.id) f db.reservations)
  updated s' hit rest =
      All-update_where (λ r. r.id == res.id) f
        (λ r. (r.id ≡ res.id → r ≡ res) × (r.id ≢ res.id → Agrees r s')) (λ r. Agrees r s')
        (λ r h same. hit r (h.0 (ground (arith, same))))
        (λ r h other. h.1 (λ k. ground (arith, other, k))) db.reservations
        (All-zip (λ r. r.id ≡ res.id → r ≡ res) (λ r. r.id ≢ res.id → Agrees r s') db.reservations
          the_reservation rest)

  Touch-Linked : Linked db'.reservations db'.reservation_rooms
  Touch-Linked =
      subst (λ l. Linked l db'.reservation_rooms) (sym e.reservations)
        (subst (Linked (update_where (λ r. r.id == res.id) f db.reservations)) (sym e.stays) (
          All-update_where (λ s. s.id == stay.id) g Known
            (λ s. All (λ r. Agrees r s) (update_where (λ r. r.id == res.id) f db.reservations))
            (λ s h same.
              updated (g s)
                (λ r is_res k.
                  let is_stay = h.1.0 (ground (arith, same)) in
                  (
                    (e.keeps r).1
                        ∙ ap (λ x. x.tenant_id) is_res
                        ∙ agreed.0
                        ∙ sym (ap (λ x. x.tenant_id) is_stay)
                        ∙ sym (e.stay_keeps s).1,
                    λ i.
                        ap (λ x. (f x).status) is_res
                        ∙ e.housed agreed.1 (sym (ap (λ x. (g x).status) is_stay) ∙ i),
                  ))
                (All-map (λ r. Agrees r s)
                  (λ r a other k.
                    let is_stay = h.1.0 (ground (arith, same)) in
                    absurd
                      (other (k ∙ (e.stay_keeps s).2 ∙ ap (λ x. x.reservation_id) is_stay ∙ e.its)))
                  db.reservations h.0))
            (λ s h other.
              updated s
                (λ r is_res k.
                  let is_stay = h.1.1 (sym k ∙ (e.keeps r).0 ∙ ap (λ x. x.id) is_res) in
                  absurd (ground (arith, other, ap (λ x. x.id) is_stay)))
                (All-map (λ r. Agrees r s) (λ r a _. a) db.reservations h.0))
            db.reservation_rooms known))

  pub Touch-Safe : Safe db'
  Touch-Safe = record {
    reservations_below = subst (All (λ r. r.id < db'.next_id)) (sym e.reservations) (
        All-update_where _ f (λ r. r.id < db.next_id) (λ r. r.id < db'.next_id)
          (λ r h _. omega (arith, (e.keeps r).0, e.ids)) (λ r h _. omega (arith, e.ids))
          db.reservations safe.reservations_below);
    stays_below =
        subst (All (λ s. (s.id < db'.next_id) × (s.reservation_id < db'.next_id))) (sym e.stays) (
          All-update_where _ g (λ s. (s.id < db.next_id) × (s.reservation_id < db.next_id))
            (λ s. (s.id < db'.next_id) × (s.reservation_id < db'.next_id))
            (λ s h _. (
              omega (arith, h.0, (e.stay_keeps s).0, e.ids),
              omega (arith, h.1, (e.stay_keeps s).2, e.ids),
            ))
            (λ s h _. (omega (arith, h.0, e.ids), omega (arith, h.1, e.ids))) db.reservation_rooms
            safe.stays_below);
    reservation_ids = subst (UniqueBy (λ r. r.id)) (sym e.reservations) (
        UniqueBy-update_where _ f (λ r. r.id) (λ r. (e.keeps r).0) db.reservations
          safe.reservation_ids);
    stay_ids = subst (UniqueBy (λ s. s.id)) (sym e.stays) (
        UniqueBy-update_where _ g (λ s. s.id) (λ s. (e.stay_keeps s).0) db.reservation_rooms
          safe.stay_ids);
    one_stay = subst (UniqueBy (λ s. s.reservation_id)) (sym e.stays) (
        UniqueBy-update_where _ g (λ s. s.reservation_id) (λ s. (e.stay_keeps s).2)
          db.reservation_rooms safe.one_stay);
    linked = Touch-Linked;
    one_guest = Touch-one_guest;
  }
