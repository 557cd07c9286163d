-- ===== src/Reservations/Outcomes.antt =====
-- Both outcomes of a check-out.
use lodgiva.Common.{
  ℕ, true, false, ◌&&◌, not, List, String, ◌≡◌, refl, sym, subst, arith, ◌⊎◌, inl, inr, Bool-cases,
}
use lodgiva.Store.{Key, IsoDate, Reservation, Db, Error, ok, err, Result-cases}
use lodgiva.Access.{Auth}
use lodgiva.ReservationState.{can_transition}
use lodgiva.Folios.Frame.{LedgerOnly, LedgerOnly-refl}
use lodgiva.Reservations.Arrival.{is_manager}
use lodgiva.Reservations.Departure.{
  CheckOut, check_out, settle, post_stayed_nights, departed_row, checked_out_row,
}
use lodgiva.Reservations.Leaving.{post_stayed_nights-LedgerOnly, SettledOut}
use lodgiva.Reservations.House.{Touch, Effect, quiet, touched}
use lodgiva.Reservations.Settling.{settle-SettledOut}

-- A check-out that succeeds posts the stayed nights, which changes the ledger only, and then
-- settles. Only a manager may let a balance stand. The guest was in house on a reservation of the
-- tenant; each charged night stands on the folio of that reservation that was created first, whose
-- balance is not positive or is let stand; that folio is closed, the reservation becomes
-- CHECKED_OUT and its stay DEPARTED, and no other row of those tables changes.
pub check_out-SettledOut :
    (iso : IsoDate → String) (spell : List ℕ → String) (auth : Auth) (id : Key) (dto : CheckOut)
    (db : Db) (r : Reservation) (db' : Db)
    → check_out iso spell auth id dto db ≡ (ok r, db')
    → (mid : Db) × LedgerOnly db mid
      × SettledOut iso auth id dto mid db'
      × ((dto.allow_outstanding_balance ≡ false) ⊎ (is_manager auth.role ≡ true))
unfolding check_out
check_out-SettledOut iso spell auth id dto db r db' h =
    elim (Result-cases (post_stayed_nights iso auth id db)) [
      | inr (e, failed) ↦ absurd (ground arith)
      | inl ((u, mid), posted) ↦ elim (Result-cases (settle iso spell auth id dto mid)) [
        | inr (e, failed) ↦ absurd (ground arith)
        | inl ((res, end), left) ↦
            let facts : ((dto.allow_outstanding_balance ≡ false) ⊎ (is_manager auth.role ≡ true))
                × (end ≡ db') =
              ground arith in
            (
              mid,
              post_stayed_nights-LedgerOnly iso auth id db mid posted,
              subst (SettledOut iso auth id dto mid) facts.1
                  (settle-SettledOut iso spell auth id dto mid res end left),
              facts.0,
            )
      ]
    ]

-- A check-out that is refused, at whatever point, has changed the ledger only.
pub check_out-refused :
    (iso : IsoDate → String) (spell : List ℕ → String) (auth : Auth) (id : Key) (dto : CheckOut)
    (db : Db) (e : Error) (db' : Db)
    → check_out iso spell auth id dto db ≡ (err e, db')
    → LedgerOnly db db'
unfolding check_out
check_out-refused iso spell auth id dto db e db' h =
    elim (Result-cases (post_stayed_nights iso auth id db)) [
      | inr (x, failed) ↦
          let same : db' ≡ db = ground arith in
          subst (LedgerOnly db) (sym same) (LedgerOnly-refl db)
      | inl ((u, mid), posted) ↦
          let kept = post_stayed_nights-LedgerOnly iso auth id db mid posted in
          elim (Bool-cases (dto.allow_outstanding_balance && not (is_manager auth.role))) [
            | inl forbidden ↦
                let same : db' ≡ db = ground arith in
                subst (LedgerOnly db) (sym same) (LedgerOnly-refl db)
            | inr allowed ↦ elim (Result-cases (settle iso spell auth id dto mid)) [
              | inr (x, failed) ↦
                  let same : db' ≡ mid = ground arith in subst (LedgerOnly db) (sym same) kept
              | inl ((res, end), left) ↦ absurd (ground arith)
            ]
          ]
    ]

pub LedgerOnly-Effect : {db db' : Db} → LedgerOnly db db' → Effect db db'
LedgerOnly-Effect kept =
    quiet (record { reservations = kept.reservations; stays = kept.stays; ids = kept.ids })

pub SettledOut-Effect :
    {iso : IsoDate → String} {auth : Auth} {id : Key} {dto : CheckOut} {db db' : Db}
    → SettledOut iso auth id dto db db'
    → Effect db db'
unfolding can_transition
SettledOut-Effect {iso} {auth} {id} {dto} {db} {db'} x =
    let touch : Touch db db' x.res x.stay checked_out_row departed_row = record {
      found = x.named.found;
      stay_found = x.stay_found;
      its = x.its;
      keeps = λ r. (refl, refl);
      stay_keeps = λ s. (refl, refl, refl);
      step = inr (rw x.was_in_house refl);
      housed = λ house inside. cc;
      fits = λ _ _ t k into. inl (ground (arith, into));
      reservations = x.reservations;
      stays = x.stays;
      ids = x.counter;
    } in
    touched touch
