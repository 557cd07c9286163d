-- ===== src/Payments/History.antt =====
-- Payments over time: runs of `record` in any order and by any callers.
use package.text.Mathlib.TextEquality.{eq_iff}
use lodgiva.Common.{
  ◌+◌, ◌≤◌, Bool, true, false, ◌&&◌, List, [], ◌∷◌, String, ◌≡◌, refl, sym, ◌∙◌, ap, subst, arith,
  ◌==◌, any, count, Bool-cases, Option-cases, inl, inr, if◌then◌else◌,
}
use lodgiva.Common.Int.{ℤ, pos, pos_part, neg_part, neg, ◌+ℤ◌, int_laws}
use lodgiva.Common.Members.{none_of_any}
use lodgiva.Store.{Key, EntryType, payment, FolioEntry, Payment, Db, ok}
use lodgiva.Access.{Auth}
use lodgiva.Payments.{
  RecordPayment, Receipt, is_keyed, is_key_taken, payment_row, payment_entry, record_payment,
}
use lodgiva.Payments.Recording.{record_payment-Recorded}

-- The payments of a folio, in the table of payments and in the ledger.
abbrev pub paid_on : Key → List Payment → ℤ
paid_on f [] = pos 0
paid_on f (p ∷ ps) = if p.folio_id == f then p.amount_minor +ℤ paid_on f ps else paid_on f ps

abbrev pub is_payment : EntryType → Bool
is_payment payment = true
is_payment _ = false

abbrev pub booked_on : Key → List FolioEntry → ℤ
booked_on f [] = pos 0
booked_on f (e ∷ es) =
    if e.folio_id == f && is_payment e.type
    then e.amount_minor +ℤ booked_on f es
    else booked_on f es

-- No tenant has two payments under one key, and on every folio the payments and their entries cancel.
pub record Agrees (db : Db) : Type 0 where
  pub keys : (t : Key) (k : String) → count (is_keyed t k) db.payments ≤ 1
  pub sums : (f : Key) → paid_on f db.payments +ℤ booked_on f db.entries ≡ pos 0

pub data Steps : Db → Db → Type 0 where
  stop : {db : Db} → Steps db db
  recorded :
      (auth : Auth) (dto : RecordPayment) {a c : Db} (r : Receipt × Db)
      → record_payment auth dto a ≡ ok r
      → Steps r.1 c
      → Steps a c

-- A new row under a key that is free, or under none.
keys-cons :
    (row : Payment) (l : List Payment)
    → is_key_taken row.tenant_id row.idempotency_key l ≡ false
    → ((t : Key) (k : String) → count (is_keyed t k) l ≤ 1)
    → (t : Key) (k : String) → count (is_keyed t k) (row ∷ l) ≤ 1
keys-cons row l free one t k = elim (Bool-cases (is_keyed t k row)) [
  | inr miss ↦ ground (arith, miss, one t k)
  | inl hit ↦ elim (Option-cases row.idempotency_key) [
    | inl keyless ↦ absurd (ground (arith, hit, keyless))
    | inr (key, its) ↦
        let same : (row.tenant_id ≡ t) × (key ≡ k) = ground (arith, hit, its, eq_iff key k) in
        let absent : any (is_keyed row.tenant_id key) l ≡ false = ground (arith, free, its) in
        let nobody : any (is_keyed t k) l ≡ false = rw (← same.0, ← same.1) absent in
        ground (arith, hit, none_of_any (is_keyed t k) l nobody)
  ]
]

sums_cancel : (a x y : ℤ) → x +ℤ y ≡ pos 0 → (a +ℤ x) +ℤ (neg a +ℤ y) ≡ pos 0
sums_cancel a x y h = omega (int_laws, ap pos_part h, ap neg_part h)

sums-cons :
    (p : Payment) (e : FolioEntry) (ps : List Payment) (es : List FolioEntry)
    → e.folio_id ≡ p.folio_id
    → e.type ≡ payment
    → e.amount_minor ≡ neg p.amount_minor
    → (f : Key) → paid_on f ps +ℤ booked_on f es ≡ pos 0
    → paid_on f (p ∷ ps) +ℤ booked_on f (e ∷ es) ≡ pos 0
sums-cons p e ps es same kind amount f before = elim (Bool-cases (p.folio_id == f)) [
  | inl here ↦
      let left : paid_on f (p ∷ ps) ≡ p.amount_minor +ℤ paid_on f ps = ground (arith, here) in
      let right : booked_on f (e ∷ es) ≡ neg p.amount_minor +ℤ booked_on f es =
        ground (arith, here, same, kind, amount) in
      rw (left, right) (sums_cancel p.amount_minor (paid_on f ps) (booked_on f es) before)
  | inr there ↦
      let left : paid_on f (p ∷ ps) ≡ paid_on f ps = ground (arith, there) in
      let right : booked_on f (e ∷ es) ≡ booked_on f es = ground (arith, there, same) in
      rw (left, right) before
]

record_payment-Agrees :
    (auth : Auth) (dto : RecordPayment) (db : Db) (r : Receipt) (db' : Db)
    → record_payment auth dto db ≡ ok (r, db')
    → Agrees db
    → Agrees db'
record_payment-Agrees auth dto db r db' h before =
    let (_, outcome) = record_payment-Recorded auth dto db r db' h in
    elim outcome [
      | inl again ↦ subst Agrees (sym again.unchanged) before
      | inr (free, flag, taken) ↦
          let row = payment_row auth taken.folio dto db.next_id in
          let rows : db'.payments ≡ row ∷ db.payments =
            taken.payments ∙ ap (λ p. p ∷ db.payments) taken.row in
          record {
            keys = rw rows (keys-cons row db.payments taken.free before.keys);
            sums = λ f.
                rw (rows, taken.entries)
                  (sums-cons row
                    (payment_entry auth taken.folio dto taken.property.business_date
                      (db.next_id + 1))
                    db.payments db.entries refl refl refl f (before.sums f));
          }
    ]

-- However payments are recorded, in whatever order and by whomever, no tenant has two payments under
-- one idempotency key, and on every folio the payments recorded and the payments in the ledger
-- cancel, if they did at the start.
pub Steps-Agrees : {db db' : Db} → Steps db db' → Agrees db → Agrees db'
Steps-Agrees stop before = before
Steps-Agrees (recorded auth dto {a} r h later) before =
    Steps-Agrees later (record_payment-Agrees auth dto a r.0 r.1 h before)
