-- ===== src/Payments/Recording.antt =====
-- What the recording of a payment does, and that a key is used once.
use package.text.Mathlib.TextPositions.{eq_refl}
use lodgiva.Common.{
  ◌+◌, true, false, none, some, ◌∷◌, String, ◌≡◌, refl, sym, ◌∙◌, ap, subst, arith, ◌==◌, find, ◌⊎◌,
  inl, inr, Option-cases, Bool-cases,
}
use lodgiva.Common.Text.{has_text}
use lodgiva.Common.Int.{pos, neg}
use lodgiva.Store.{Key, Folio, Property, Payment, open_folio, Db, ok}
use lodgiva.Access.{Auth}
use lodgiva.Folios.{is_reachable}
use lodgiva.Folios.Charges.{Grows, cons-Grows_at}
use lodgiva.Payments.{
  RecordPayment, Receipt, is_witnessed, is_keyed, existing, is_key_taken, payment_row,
  payment_entry, record_payment, record_new,
}

-- A payment was taken: its folio is open and within reach, the payment stands in the table, and the
-- balance of that folio alone falls by its amount.
pub record Taken (auth : Auth) (dto : RecordPayment) (paid : Payment) (db db' : Db) : Type 0 where
  pub folio : Folio
  pub property : Property
  pub reached : find (is_reachable auth dto.folio_id) db.folios ≡ some folio
  pub unlocked : folio.status ≡ open_folio
  pub row : paid ≡ payment_row auth folio dto db.next_id
  pub free : is_key_taken auth.tenant_id dto.idempotency_key db.payments ≡ false
  pub payments : db'.payments ≡ paid ∷ db.payments
  pub entries :
      db'.entries
      ≡ payment_entry auth folio dto property.business_date (db.next_id + 1) ∷ db.entries
  pub ledger : Grows folio.id (neg (pos dto.amount_minor)) db.entries db'.entries

take :
    (auth : Auth) (dto : RecordPayment) (db : Db) (r : Receipt) (db' : Db)
    → record_new auth dto db ≡ ok (r, db')
    → (r.is_duplicate ≡ false) × Taken auth dto r.payment db db'
unfolding record_new
take auth dto db r db' h = elim (Option-cases (find (is_reachable auth dto.folio_id) db.folios)) [
  | inl missing ↦ absurd (ground arith)
  | inr (folio, found) ↦ elim (Option-cases (find (λ p. p.id == folio.property_id) db.properties)) [
    | inl missing ↦ absurd (ground arith)
    | inr (property, its) ↦
        let entry = payment_entry auth folio dto property.business_date (db.next_id + 1) in
        let facts : (folio.status ≡ open_folio)
            × (is_key_taken auth.tenant_id dto.idempotency_key db.payments ≡ false)
            × (r.is_duplicate ≡ false)
            × (r.payment ≡ payment_row auth folio dto db.next_id)
            × (db'.payments ≡ payment_row auth folio dto db.next_id ∷ db.payments)
            × (db'.entries ≡ entry ∷ db.entries) =
          ground arith in
        (
          facts.2,
          record {
            folio = folio;
            property = property;
            reached = found;
            unlocked = facts.0;
            row = facts.3;
            free = facts.1;
            payments = facts.4 ∙ ap (λ p. p ∷ db.payments) (sym facts.3);
            entries = facts.5;
            ledger = rw facts.5 (cons-Grows_at folio.id _ entry db.entries refl refl);
          },
        )
  ]
]

-- The payment that was recorded under the key of the body is handed back.
pub record Repeated (auth : Auth) (dto : RecordPayment) (r : Receipt) (db db' : Db) : Type 0 where
  pub found : existing auth.tenant_id dto.idempotency_key db.payments ≡ some r.payment
  pub flagged : r.is_duplicate ≡ true
  pub unchanged : db' ≡ db

-- A payment that is recorded has a reference or is cash. Where one of the tenant stands under the
-- key of the body, it is handed back and nothing changes. Otherwise a row is added for an open folio
-- within reach, and the balance of that folio alone falls by the amount.
pub record_payment-Recorded :
    (auth : Auth) (dto : RecordPayment) (db : Db) (r : Receipt) (db' : Db)
    → record_payment auth dto db ≡ ok (r, db')
    → (is_witnessed dto ≡ true)
      × (Repeated auth dto r db db'
          ⊎ (existing auth.tenant_id dto.idempotency_key db.payments ≡ none)
            × (r.is_duplicate ≡ false)
            × Taken auth dto r.payment db db')
unfolding record_payment
record_payment-Recorded auth dto db r db' h = elim (Bool-cases (is_witnessed dto)) [
  | inr bare ↦ absurd (ground (arith, bare))
  | inl witnessed ↦ elim (Option-cases (existing auth.tenant_id dto.idempotency_key db.payments)) [
    | inl free ↦
        let (flag, taken) = take auth dto db r db' (ground (arith, witnessed, free)) in
        (witnessed, inr (free, flag, taken))
    | inr (old, found) ↦ (
      witnessed,
      inl (record {
        found = found ∙ ground (arith, witnessed, found);
        flagged = ground (arith, witnessed, found);
        unchanged = ground (arith, witnessed, found);
      }),
    )
  ]
]

keyed_row :
    (auth : Auth) (folio : Folio) (dto : RecordPayment) (key : String) (id : Key)
    → dto.idempotency_key ≡ some key
    → is_keyed auth.tenant_id key (payment_row auth folio dto id) ≡ true
keyed_row auth folio dto key id h = ground (arith, h, eq_refl key)

-- After a payment has been recorded under a key, the payment of that tenant under that key is that
-- payment.
found_again :
    (auth : Auth) (dto : RecordPayment) (key : String) (db : Db) (r : Receipt) (db' : Db)
    → dto.idempotency_key ≡ some key
    → has_text (some key) ≡ true
    → record_payment auth dto db ≡ ok (r, db')
    → existing auth.tenant_id (some key) db'.payments ≡ some r.payment
found_again auth dto key db r db' k t h =
    let (_, outcome) = record_payment-Recorded auth dto db r db' h in
    elim outcome [
      | inl again ↦
          subst (λ o. existing auth.tenant_id o db'.payments ≡ some r.payment) k
            (subst
              (λ (d : Db). existing auth.tenant_id dto.idempotency_key d.payments ≡ some r.payment)
              (sym again.unchanged) again.found)
      | inr (free, flag, taken) ↦
          let hit : is_keyed auth.tenant_id key r.payment ≡ true =
            subst (λ p. is_keyed auth.tenant_id key p ≡ true) (sym taken.row)
              (keyed_row auth taken.folio dto key db.next_id k) in
          rw (taken.payments, t, hit) refl
    ]

-- A key is used once: after a payment has been recorded under a key that is not empty, whoever of the
-- tenant sends that key again, with whatever body, is given the same payment, flagged as a duplicate,
-- and nothing changes.
pub record_payment_once :
    (auth : Auth) (dto : RecordPayment) (key : String) (db : Db) (r : Receipt) (db' : Db)
    → dto.idempotency_key ≡ some key
    → has_text (some key) ≡ true
    → record_payment auth dto db ≡ ok (r, db')
    → (auth' : Auth) (dto' : RecordPayment) → auth'.tenant_id ≡ auth.tenant_id
    → dto'.idempotency_key ≡ some key
    → is_witnessed dto' ≡ true
    → record_payment auth' dto' db'
      ≡ ok (record { payment = r.payment; is_duplicate = true; verification = none }, db')
unfolding record_payment
record_payment_once auth dto key db r db' k t h auth' dto' same k' w =
    let there : existing auth'.tenant_id dto'.idempotency_key db'.payments ≡ some r.payment =
      rw (k', same) (found_again auth dto key db r db' k t h) in
    ground (arith, there, w)
