-- ===== src/Reservations/House/Others.antt =====
-- Operations that end or create a reservation, or leave all, keep the house safe.
use lodgiva.Common.{
  ◌≤◌, ◌<◌, true, false, ◌∷◌, ◌≡◌, refl, sym, ◌∙◌, subst, arith, ◌==◌, count, update_where, All,
}
use lodgiva.Common.Sorting.{All-map, All-intro}
use lodgiva.Common.Members.{
  All-zip, UniqueBy, All-update_where, UniqueBy-update_where, count-update_where_mono,
}
use lodgiva.Store.{Key, in_house, reserved, Reservation, ReservationRoom, Db}
use lodgiva.Reservations.Rooms.{occupies}
use lodgiva.Reservations.House.{
  Agrees, Linked, Safe, Quiet, End, Birth, Effect, quiet, touched, ended, born,
}
use lodgiva.Reservations.House.OneStay.{Touch-Safe}

Quiet-Safe : {db db' : Db} → Safe db → Quiet db db' → Safe db'
Quiet-Safe {db} {db'} safe e = record {
  reservations_below = subst (All (λ r. r.id < db'.next_id)) (sym e.reservations) (
      All-map (λ r. r.id < db.next_id) (λ r h. omega (arith, h, e.ids)) db.reservations
        safe.reservations_below);
  stays_below =
      subst (All (λ s. (s.id < db'.next_id) × (s.reservation_id < db'.next_id))) (sym e.stays) (
        All-map (λ s. (s.id < db.next_id) × (s.reservation_id < db.next_id))
          (λ s h. (omega (arith, h.0, e.ids), omega (arith, h.1, e.ids))) db.reservation_rooms
          safe.stays_below);
  reservation_ids = subst (UniqueBy (λ r. r.id)) (sym e.reservations) safe.reservation_ids;
  stay_ids = subst (UniqueBy (λ s. s.id)) (sym e.stays) safe.stay_ids;
  one_stay = subst (UniqueBy (λ s. s.reservation_id)) (sym e.stays) safe.one_stay;
  linked =
      subst (λ l. Linked l db'.reservation_rooms) (sym e.reservations)
        (subst (Linked db.reservations) (sym e.stays) safe.linked);
  one_guest = λ t k. subst (λ l. count (occupies t k) l ≤ 1) (sym e.stays) (safe.one_guest t k);
}

occupies-in_house : (t k : Key) (s : ReservationRoom) → occupies t k s ≡ true → s.status ≡ in_house
occupies-in_house t k s h = ground arith

End-Linked :
    {db db' : Db} {res : Reservation} {f : Reservation → Reservation}
    {g : ReservationRoom → ReservationRoom}
    → Safe db
    → End db db' res f g
    → Linked db'.reservations db'.reservation_rooms
End-Linked {db} {db'} {res} {f} {g} safe e =
    subst (λ l. Linked l db'.reservation_rooms) (sym e.reservations)
      (subst (Linked (update_where (λ r. r.id == res.id) f db.reservations)) (sym e.stays) (
        All-update_where (λ s. s.reservation_id == res.id) g
          (λ s. All (λ r. Agrees r s) db.reservations)
          (λ s. All (λ r. Agrees r s) (update_where (λ r. r.id == res.id) f db.reservations))
          (λ s h of_it.
            All-update_where (λ r. r.id == res.id) f (λ r. Agrees r s) (λ r. Agrees r (g s))
              (λ r a hit k. gone s r (f r) a ((e.keeps r).0) ((e.keeps r).1) k)
              (λ r a miss k. gone s r r a refl refl k) db.reservations h)
          (λ s h other.
            All-update_where (λ r. r.id == res.id) f (λ r. Agrees r s) (λ r. Agrees r s)
              (λ r a hit k. absurd (ground (arith, other, hit, (e.keeps r).0, k))) (λ r a miss. a)
              db.reservations h)
          db.reservation_rooms safe.linked))
  where
    gone :
        (s : ReservationRoom) (r r' : Reservation)
        → Agrees r s
        → r'.id ≡ r.id
        → r'.tenant_id ≡ r.tenant_id
        → Agrees r' (g s)
    gone s r r' a same_id same_tenant k = (
      same_tenant ∙ (a (sym same_id ∙ k ∙ (e.stay_keeps s).2)).0 ∙ sym (e.stay_keeps s).1,
      λ i. absurd (e.given_up s i),
    )

End-Safe :
    {db db' : Db} {res : Reservation} {f : Reservation → Reservation}
    {g : ReservationRoom → ReservationRoom}
    → Safe db
    → End db db' res f g
    → Safe db'
End-Safe {db} {db'} {res} {f} {g} safe e = record {
  reservations_below = subst (All (λ r. r.id < db'.next_id)) (sym e.reservations) (
      All-update_where _ f (λ r. r.id < db.next_id) (λ r. r.id < db'.next_id)
        (λ r h _. omega (arith, (e.keeps r).0, e.ids)) (λ r h _. omega (arith, e.ids))
        db.reservations safe.reservations_below);
  stays_below =
      subst (All (λ s. (s.id < db'.next_id) × (s.reservation_id < db'.next_id))) (sym e.stays) (
        All-update_where _ g (λ s. (s.id < db.next_id) × (s.reservation_id < db.next_id))
          (λ s. (s.id < db'.next_id) × (s.reservation_id < db'.next_id))
          (λ s h _. (
            omega (arith, h.0, (e.stay_keeps s).0, e.ids),
            omega (arith, h.1, (e.stay_keeps s).2, e.ids),
          ))
          (λ s h _. (omega (arith, h.0, e.ids), omega (arith, h.1, e.ids))) db.reservation_rooms
          safe.stays_below);
  reservation_ids = subst (UniqueBy (λ r. r.id)) (sym e.reservations) (
      UniqueBy-update_where _ f (λ r. r.id) (λ r. (e.keeps r).0) db.reservations
        safe.reservation_ids);
  stay_ids = subst (UniqueBy (λ s. s.id)) (sym e.stays) (
      UniqueBy-update_where _ g (λ s. s.id) (λ s. (e.stay_keeps s).0) db.reservation_rooms
        safe.stay_ids);
  one_stay = subst (UniqueBy (λ s. s.reservation_id)) (sym e.stays) (
      UniqueBy-update_where _ g (λ s. s.reservation_id) (λ s. (e.stay_keeps s).2)
        db.reservation_rooms safe.one_stay);
  linked = End-Linked safe e;
  one_guest = λ t k.
      subst (λ l. count (occupies t k) l ≤ 1) (sym e.stays)
        (omega (
          arith,
          safe.one_guest t k,
          count-update_where_mono (λ s. s.reservation_id == res.id) g (occupies t k)
              db.reservation_rooms
              (All-intro _ (λ x _ h. absurd (e.given_up x (occupies-in_house t k (g x) h)))
                db.reservation_rooms),
        ));
}

Birth-Safe :
    {db db' : Db} {row : Reservation} {stay : ReservationRoom}
    → Safe db
    → Birth db db' row stay
    → Safe db'
Birth-Safe {db} {db'} {row} {stay} safe e = record {
  reservations_below = subst (All (λ r. r.id < db'.next_id)) (sym e.reservations) (
    omega (arith, e.row_id, e.ids),
    All-map (λ r. r.id < db.next_id) (λ r h. omega (arith, h, e.ids)) db.reservations
        safe.reservations_below,
  );
  stays_below =
      subst (All (λ s. (s.id < db'.next_id) × (s.reservation_id < db'.next_id))) (sym e.stays) (
        (omega (arith, e.stay_id, e.ids), omega (arith, e.its, e.row_id, e.ids)),
        All-map (λ s. (s.id < db.next_id) × (s.reservation_id < db.next_id))
            (λ s h. (omega (arith, h.0, e.ids), omega (arith, h.1, e.ids))) db.reservation_rooms
            safe.stays_below,
      );
  reservation_ids = subst (UniqueBy (λ r. r.id)) (sym e.reservations) (
    All-map (λ r. r.id < db.next_id) (λ r h k. absurd (omega (arith, h, e.row_id, k)))
        db.reservations safe.reservations_below,
    safe.reservation_ids,
  );
  stay_ids = subst (UniqueBy (λ s. s.id)) (sym e.stays) (
    All-map (λ s. (s.id < db.next_id) × (s.reservation_id < db.next_id))
        (λ s h k. absurd (omega (arith, h.0, e.stay_id, k))) db.reservation_rooms safe.stays_below,
    safe.stay_ids,
  );
  one_stay = subst (UniqueBy (λ s. s.reservation_id)) (sym e.stays) (
    All-map (λ s. (s.id < db.next_id) × (s.reservation_id < db.next_id))
        (λ s h k. absurd (omega (arith, h.1, e.its, e.row_id, k))) db.reservation_rooms
        safe.stays_below,
    safe.one_stay,
  );
  linked =
      subst (λ l. Linked l db'.reservation_rooms) (sym e.reservations)
        (subst (Linked (row ∷ db.reservations)) (sym e.stays) (
          (
            λ k. (e.same_tenant, λ i. absurd (ground (arith, i, e.is_reserved))),
            All-map (λ r. r.id < db.next_id)
                (λ r h k. absurd (omega (arith, h, k, e.its, e.row_id))) db.reservations
                safe.reservations_below,
          ),
          All-map
              (λ s.
                ((s.id < db.next_id) × (s.reservation_id < db.next_id))
                × All (λ r. Agrees r s) db.reservations)
              (λ s h. (λ k. absurd (omega (arith, h.0.1, k, e.row_id)), h.1)) db.reservation_rooms
              (All-zip _ _ db.reservation_rooms safe.stays_below safe.linked),
        ));
  one_guest = λ t k.
      subst (λ l. count (occupies t k) l ≤ 1) (sym e.stays)
        (let out : occupies t k stay ≡ false = not_in_house t k stay e.is_reserved in
          ground (arith, out, safe.one_guest t k));
}
  where
    not_in_house : (t k : Key) (s : ReservationRoom) → s.status ≡ reserved → occupies t k s ≡ false
    not_in_house t k s h = ground arith

-- Every effect keeps the house safe.
pub Effect-Safe : {db db' : Db} → Safe db → Effect db db' → Safe db'
Effect-Safe safe (quiet e) = Quiet-Safe safe e
Effect-Safe safe (touched e) = Touch-Safe safe e
Effect-Safe safe (ended e) = End-Safe safe e
Effect-Safe safe (born e) = Birth-Safe safe e
