-- ===== src/Reservations/House/Fate.antt =====
-- What becomes of one reservation.
use lodgiva.Common.{
  Bool, true, List, [], ◌∷◌, ◌++◌, ◌≡◌, refl, sym, ap, subst, arith, ◌==◌, update_where, ◌⊎◌, inl,
  inr, Bool-cases, if◌then◌else◌,
}
use lodgiva.Common.Members.{Member, All-Member, unique-Member}
use lodgiva.Store.{ReservationState, Reservation, Db}
use lodgiva.ReservationState.{can_transition}
use lodgiva.ReservationState.Lifecycle.{History, rest, move}
use lodgiva.Reservations.House.{Safe, Effect, quiet, touched, ended, born}

pub History-append :
    {s t u : ReservationState} {k l : List ReservationState}
    → History s k t
    → History t l u
    → History s (k ++ l) u
History-append rest h = h
History-append (move e later) h = move e (History-append later h)

-- The row of a reservation is there still, and its state has a history.
pub record Fate (r : Reservation) (db' : Db) : Type 0 where
  pub later : Reservation
  pub found : Member later db'.reservations
  pub same_id : later.id ≡ r.id
  pub same_tenant : later.tenant_id ≡ r.tenant_id
  pub states : List ReservationState
  pub history : History r.status states later.status

pub Member-update_where :
    {A : Type 0} (q : A → Bool) (f : A → A) (l : List A) (x : A)
    → Member x l
    → Member (if q x then f x else x) (update_where q f l)
Member-update_where q f [] x m = absurd m
Member-update_where q f (y ∷ l) x (inl e) = inl (ap (λ z. if q z then f z else z) e)
Member-update_where q f (y ∷ l) x (inr m) = inr (Member-update_where q f l x m)

one_move :
    (s t : ReservationState)
    → (t ≡ s) ⊎ (can_transition s t ≡ true)
    → (l : List ReservationState) × History s l t
one_move s t (inl e) = ([], subst (History s []) (sym e) rest)
one_move s t (inr e) = (t ∷ [], move e rest)

-- The rows of one id are rewritten along an edge of the state table, or in place.
updated-Fate :
    {db db' : Db} {res : Reservation} (f : Reservation → Reservation)
    → Safe db
    → Member res db.reservations
    → ((r : Reservation) → ((f r).id ≡ r.id) × ((f r).tenant_id ≡ r.tenant_id))
    → ((f res).status ≡ res.status) ⊎ (can_transition res.status (f res).status ≡ true)
    → db'.reservations ≡ update_where (λ r. r.id == res.id) f db.reservations
    → (r : Reservation) → Member r db.reservations
    → Fate r db'
updated-Fate {db} {db'} {res} f safe found keeps step rows r here =
    elim (Bool-cases (r.id == res.id)) [
      | inl hit ↦
          let same : r ≡ res =
            All-Member (λ y. y.id ≡ res.id → y ≡ res) db.reservations r
              (unique-Member (λ x. x.id) db.reservations res safe.reservation_ids found) here
              (ground (arith, hit)) in
          let stepped : ((f r).status ≡ r.status) ⊎ (can_transition r.status (f r).status ≡ true) =
            subst (λ x. ((f x).status ≡ x.status) ⊎ (can_transition x.status (f x).status ≡ true))
              (sym same) step in
          let (states, history) = one_move r.status (f r).status stepped in
          record {
            later = f r;
            found = subst (Member (f r)) (sym rows) (rw hit at moved);
            same_id = (keeps r).0;
            same_tenant = (keeps r).1;
            states = states;
            history = history;
          }
      | inr miss ↦ record {
        later = r;
        found = subst (Member r) (sym rows) (rw miss at moved);
        same_id = refl;
        same_tenant = refl;
        states = [];
        history = rest;
      }
    ]
  where
    moved :
        Member
          (if r.id == res.id then f r else r)
          (update_where (λ r. r.id == res.id) f db.reservations)
    moved = Member-update_where (λ r. r.id == res.id) f db.reservations r here

pub kept-Fate : {db : Db} (r : Reservation) → Member r db.reservations → Fate r db
kept-Fate r here = record {
  later = r;
  found = here;
  same_id = refl;
  same_tenant = refl;
  states = [];
  history = rest;
}

pub Effect-Fate :
    {db db' : Db}
    → Safe db
    → Effect db db'
    → (r : Reservation) → Member r db.reservations
    → Fate r db'
Effect-Fate safe (quiet e) r here = kept-Fate r (subst (Member r) (sym e.reservations) here)
Effect-Fate safe (touched {res} {stay} {f} {g} e) r here =
    updated-Fate f safe e.found e.keeps e.step e.reservations r here
Effect-Fate safe (ended {res} {f} {g} e) r here =
    updated-Fate f safe e.found e.keeps (inr e.step) e.reservations r here
Effect-Fate safe (born e) r here = kept-Fate r (subst (Member r) (sym e.reservations) (inr here))
