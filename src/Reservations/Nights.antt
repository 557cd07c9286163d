-- ===== src/Reservations/Nights.antt =====
-- The nights that a stay is charged for: each is posted, and posting again changes nothing.
use lodgiva.Common.{
  true, List, [], ◌∷◌, String, ◌≡◌, refl, subst, arith, any, All, ◌⊎◌, inl, inr, Bool-cases,
}
use package.text.Mathlib.TextPositions.{eq_refl}
use lodgiva.Store.{IsoDate, FolioStatus, Folio, ReservationRoom, Db, ok, open_folio, closed_folio}
use lodgiva.Access.{Auth}
use lodgiva.Folios.{charge_row}
use lodgiva.Folios.Charges.{post_charge_tx-Grows}
use lodgiva.Folios.Frame.{LedgerOnly, LedgerOnly-refl, LedgerOnly-trans, post_charge_tx-LedgerOnly}
use lodgiva.Reservations.Departure.{is_night_charge, night_charge, post_nights}

status-cases : (s : FolioStatus) → (s ≡ open_folio) ⊎ (s ≡ closed_folio)
status-cases open_folio = inl refl
status-cases closed_folio = inr refl

module _ (auth : Auth) (folio : Folio) (stay : ReservationRoom) (describe : IsoDate → String)
    (date : IsoDate) where
  -- A room charge for the night stands on the folio.
  abbrev pub Charged : Db → IsoDate → Type 0
  Charged db night = any (is_night_charge folio.id (describe night)) db.entries ≡ true

  -- The nights that are charged for already are passed over.
  pub post_nights-again :
      (nights : List IsoDate) (db : Db)
      → All (Charged db) nights
      → post_nights auth folio stay describe date nights db ≡ ok (tt, db)
  unfolding post_nights
  post_nights-again [] db h = refl
  post_nights-again (night ∷ nights) db h = ground (arith, h.0, post_nights-again nights db h.1)

  -- On an open folio every night is charged, and only the ledger changes.
  pub post_nights-Charged :
      (nights : List IsoDate) (db : Db)
      → folio.status ≡ open_folio
      → (db' : Db) × (post_nights auth folio stay describe date nights db ≡ ok (tt, db'))
        × LedgerOnly db db'
        × All (Charged db') nights
  unfolding post_nights
  post_nights-Charged [] db h = (db, refl, LedgerOnly-refl db, tt)
  post_nights-Charged (night ∷ nights) db h =
      elim (Bool-cases (any (is_night_charge folio.id (describe night)) db.entries)) [
        | inl already ↦
            let (end, ran, kept, done) = post_nights-Charged nights db h in
            (end, ground (arith, already, ran), kept, (kept.standing _ already, done))
        | inr fresh ↦
            let c = night_charge stay (describe night) date in
            let (e, mid, posted, first, stands) = post_charge_tx-LedgerOnly auth folio c db h in
            let (end, ran, kept, done) = post_nights-Charged nights mid h in
            let here =
              stands (is_night_charge folio.id (describe night)) (is_its_charge db.next_id night) in
            (
              end,
              ground (arith, fresh, posted, ran),
              LedgerOnly-trans first kept,
              (kept.standing _ here, done),
            )
      ]
    where
      is_its_charge :
          (id night : IsoDate)
          → is_night_charge folio.id
              (describe night)
              (charge_row auth folio (night_charge stay (describe night) date) id)
            ≡ true
      is_its_charge id night = ground (arith, eq_refl (describe night))

  -- Whatever the folio, a run that ends has changed the ledger only.
  pub post_nights-LedgerOnly :
      (nights : List IsoDate) (db db' : Db)
      → post_nights auth folio stay describe date nights db ≡ ok (tt, db')
      → LedgerOnly db db' × All (Charged db') nights
  unfolding post_nights
  post_nights-LedgerOnly [] db db' h =
      (subst (LedgerOnly db) (ground arith) (LedgerOnly-refl db), tt)
  post_nights-LedgerOnly (night ∷ nights) db db' h =
      elim (Bool-cases (any (is_night_charge folio.id (describe night)) db.entries)) [
        | inl already ↦
            let (kept, done) = post_nights-LedgerOnly nights db db' (ground (arith, already)) in
            (kept, (kept.standing _ already, done))
        | inr fresh ↦ elim (status-cases folio.status) [
          | inr shut ↦
              let refused =
                (post_charge_tx-Grows auth folio (night_charge stay (describe night) date) db).0
                  shut in
              absurd (ground (arith, fresh, refused))
          | inl unlocked ↦
              let (e, mid, posted, first, stands) =
                post_charge_tx-LedgerOnly auth folio (night_charge stay (describe night) date) db
                  unlocked in
              let (kept, done) =
                post_nights-LedgerOnly nights mid db' (ground (arith, fresh, posted)) in
              let here =
                stands (is_night_charge folio.id (describe night))
                  (ground (arith, eq_refl (describe night))) in
              (LedgerOnly-trans first kept, (kept.standing _ here, done))
        ]
      ]

-- The nights that a run has charged are not charged again: a second run changes nothing.
pub post_nights-idempotent :
    (auth : Auth) (folio : Folio) (stay : ReservationRoom) (describe : IsoDate → String)
    (date : IsoDate) (nights : List IsoDate) (db db' : Db)
    → post_nights auth folio stay describe date nights db ≡ ok (tt, db')
    → All (Charged auth folio stay describe date db') nights
      × (post_nights auth folio stay describe date nights db' ≡ ok (tt, db'))
post_nights-idempotent auth folio stay describe date nights db db' h =
    let done = (post_nights-LedgerOnly auth folio stay describe date nights db db' h).1 in
    (done, post_nights-again auth folio stay describe date nights db' done)
