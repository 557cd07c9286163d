-- ===== src/NightAudit/Posting.antt =====
-- The room charges of the night: each stay of the night is charged, and only the ledger changes.
use lodgiva.Common.{
  Bool, true, false, some, List, [], ◌∷◌, String, ◌≡◌, refl, arith, any, filter, All, inl, inr,
  Option-cases, Bool-cases,
}
use package.text.Mathlib.TextPositions.{eq_refl}
use lodgiva.Common.Members.{last-Member, filter-Member}
use lodgiva.Store.{IsoDate, open_folio, Folio, ReservationRoom, Db, ok}
use lodgiva.Access.{Auth}
use lodgiva.Folios.Frame.{LedgerOnly, LedgerOnly-refl, LedgerOnly-trans, post_charge_tx-LedgerOnly}
use lodgiva.Reservations.{night_text, is_night_charge, night_charge}
use lodgiva.NightAudit.Run.{
  InHouse, Tally, add_posted, tonight_row, tonight_rows, open_folio_of, post_on, post_room,
  post_rooms,
}

-- The folio of a stay, where it has one, is open.
abbrev pub Billable : InHouse → Type 0
Billable h = (folio : Folio) → h.folio ≡ some folio → folio.status ≡ open_folio

module _ (iso : IsoDate → String) (auth : Auth) (date : IsoDate) where
  -- The charge of the night stands on the folio of the stay, where it has one.
  abbrev pub NightCharged : Db → InHouse → Type 0
  NightCharged db h =
      (folio : Folio)
      → h.folio ≡ some folio
      → any (is_night_charge folio.id (night_text iso h.room date)) db.entries ≡ true

  post_on-Charged :
      (h : InHouse) (folio : Folio) (db : Db)
      → folio.status ≡ open_folio
      → (b : Bool) × (db' : Db) × (post_on iso auth date h folio db ≡ ok (b, db'))
        × LedgerOnly db db'
        × (any (is_night_charge folio.id (night_text iso h.room date)) db'.entries ≡ true)
  unfolding post_on
  post_on-Charged h folio db unlocked =
      let describe = night_text iso h.room date in
      elim (Bool-cases (any (is_night_charge folio.id describe) db.entries)) [
        | inl already ↦ (false, db, ground (arith, already), LedgerOnly-refl db, already)
        | inr fresh ↦
            let c = night_charge h.stay describe date in
            let (e, end, ran, kept, stands) = post_charge_tx-LedgerOnly auth folio c db unlocked in
            (
              true,
              end,
              ground (arith, fresh, ran),
              kept,
              stands (is_night_charge folio.id describe) (ground (arith, eq_refl describe)),
            )
      ]

  post_room-Charged :
      (h : InHouse) (db : Db)
      → Billable h
      → (b : Bool) × (db' : Db) × (post_room iso auth date h db ≡ ok (b, db'))
        × LedgerOnly db db'
        × NightCharged db' h
  unfolding post_room
  post_room-Charged h db open_one = elim (Option-cases h.folio) [
    | inl missing ↦
        (false, db, ground (arith, missing), LedgerOnly-refl db, λ folio e. cc (missing, e))
    | inr (folio, its) ↦
        let (b, end, ran, kept, charged) = post_on-Charged h folio db (open_one folio its) in
        (
          b,
          end,
          ground (arith, its, ran),
          kept,
          λ other e. let same : folio ≡ other = ground (arith, its, e) in rw (← same) charged,
        )
  ]

  -- The loop ends, and has charged each stay.
  pub post_rooms-Charged :
      (hs : List InHouse) (db : Db)
      → All Billable hs
      → (t : Tally) × (db' : Db) × (post_rooms iso auth date hs db ≡ ok (t, db'))
        × LedgerOnly db db'
        × All (NightCharged db') hs
  unfolding post_rooms
  post_rooms-Charged [] db h = (_, db, refl, LedgerOnly-refl db, tt)
  post_rooms-Charged (h ∷ hs) db (open_one, others) =
      let (b, mid, ran, kept, charged) = post_room-Charged h db open_one in
      let (t, end, later, still, all) = post_rooms-Charged hs mid others in
      (
        add_posted b h.stay t,
        end,
        ground (arith, ran, later),
        LedgerOnly-trans kept still,
        (λ folio e. still.standing _ (charged folio e), all),
      )

-- The folios of the stays of the night are open.
pub tonight_rows-Billable :
    (db : Db) (ss : List ReservationRoom) → All Billable (tonight_rows db ss)
tonight_rows-Billable db [] = tt
tonight_rows-Billable db (s ∷ ss) = (opened, tonight_rows-Billable db ss)
  where
    opened : Billable (tonight_row db s)
    opened folio e =
        let here = last-Member (filter (open_folio_of s.reservation_id) db.folios) folio e in
        let passed = filter-Member (open_folio_of s.reservation_id) db.folios folio here in
        ground (arith, passed.1)
