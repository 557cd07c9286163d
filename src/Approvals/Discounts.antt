-- ===== src/Approvals/Discounts.antt =====
-- What asking for a discount does.
use lodgiva.Common.{
  ◌≤◌, leb, ℕ, true, false, some, List, ◌∷◌, String, ◌&◌, ◌≡◌, ◌≢◌, refl, arith, ◌==◌, find, ◌⊎◌,
  inl, inr, Option-cases, Bool-cases,
}
use lodgiva.Common.Int.{pos, neg, pos_part}
use lodgiva.Store.{Key, Folio, FolioEntry, open_folio, Db, ok}
use lodgiva.Access.{Auth}
use lodgiva.Permissions.{role_has_permission, approval_decide}
use lodgiva.Folios.{is_reachable}
use lodgiva.Folios.Charges.{Grows, cons-Grows_at}
use lodgiva.Approvals.{
  RequestDiscount, Outcome, charge_total, share_bp, within_self_service, discount_row, request_row,
  apply_discount, raise_request, request_discount,
}

-- The discount was posted: the share is small or the role may decide, the balance of the folio alone
-- falls by the amount, no request is raised, and the total that the next share is taken of is as
-- before.
pub record Applied (auth : Auth) (dto : RequestDiscount) (folio : Folio) (db : Db) (o : Outcome)
    (db' : Db) : Type 0 where
  pub allowed :
      (share_bp dto (charge_total folio.id db.entries) ≤ 500)
      ⊎ (role_has_permission auth.role approval_decide ≡ true)
  pub lowered : Grows folio.id (neg (pos dto.amount_minor)) db.entries db'.entries
  pub same_total : charge_total folio.id db'.entries ≡ charge_total folio.id db.entries
  pub no_request : db'.approvals ≡ db.approvals

-- A request was raised: one pending row in the caller's name, and no entry.
pub record Raised (auth : Auth) (dto : RequestDiscount) (folio : Folio) (db : Db) (o : Outcome)
    (db' : Db) : Type 0 where
  pub share_above : 501 ≤ share_bp dto (charge_total folio.id db.entries)
  pub role_below : role_has_permission auth.role approval_decide ≡ false
  pub ledger_kept : db'.entries ≡ db.entries
  pub raised : db'.approvals ≡ request_row auth folio dto db.next_id ∷ db.approvals

within_cases :
    (auth : Auth) (share : ℕ)
    → within_self_service auth share ≡ true
    → (share ≤ 500) ⊎ (role_has_permission auth.role approval_decide ≡ true)
within_cases auth share h = elim (Bool-cases (leb share 500)) [
  | inl small ↦ inl (ground arith)
  | inr large ↦ inr (ground (arith, large))
]

beyond :
    (auth : Auth) (share : ℕ)
    → within_self_service auth share ≡ false
    → (501 ≤ share) × (role_has_permission auth.role approval_decide ≡ false)
beyond auth share h = ground arith

pos_part-neg : (n : ℕ) → pos_part (neg (pos n)) ≡ 0
unfolding neg
pos_part-neg n = ground arith

charge_total-discount :
    (auth : Auth) (f g : Key) (note : String) (n date id : ℕ) (l : List FolioEntry)
    → charge_total f (discount_row auth g note n date id ∷ l) ≡ charge_total f l
charge_total-discount auth f g note n date id l = ground (arith, pos_part-neg n)

-- A discount is asked for on an open folio within reach that holds charges. It is posted where its
-- share of the charges is at most 5% or the caller's role may decide requests, and then lowers that
-- folio's balance alone, and not the total that the next share is taken of; otherwise a pending
-- request is raised and the ledger is as before.
pub request_discount-Applied_or_Raised :
    (auth : Auth) (dto : RequestDiscount) (db : Db) (o : Outcome) (db' : Db)
    → request_discount auth dto db ≡ ok (o, db')
    → (folio : Folio) × (find (is_reachable auth dto.folio_id) db.folios ≡ some folio)
      × (folio.status ≡ open_folio)
      × (charge_total folio.id db.entries ≢ 0)
      × (Applied auth dto folio db o db' ⊎ Raised auth dto folio db o db')
unfolding request_discount apply_discount raise_request
request_discount-Applied_or_Raised auth dto db o db' h =
    elim (Option-cases (find (is_reachable auth dto.folio_id) db.folios)) [
      | inl missing ↦ absurd (ground arith)
      | inr (folio, found) ↦
          let share = share_bp dto (charge_total folio.id db.entries) in
          elim (Option-cases (find (λ p. p.id == folio.property_id) db.properties)) [
            | inl missing ↦ absurd (ground arith)
            | inr (property, there) ↦ elim (Bool-cases (within_self_service auth share)) [
              | inl within ↦
                  let row =
                    discount_row auth folio.id ("Discount — " & dto.reason) dto.amount_minor
                      property.business_date db.next_id in
                  let facts : (folio.status ≡ open_folio)
                      × (charge_total folio.id db.entries ≢ 0)
                      × (db'.entries ≡ row ∷ db.entries)
                      × (db'.approvals ≡ db.approvals) =
                    ground arith in
                  (
                    folio,
                    found,
                    facts.0,
                    facts.1,
                    inl (record {
                      allowed = within_cases auth share within;
                      lowered = rw facts.2 (cons-Grows_at folio.id _ row db.entries refl refl);
                      same_total = rw facts.2 (
                          charge_total-discount auth folio.id folio.id ("Discount — " & dto.reason)
                            dto.amount_minor property.business_date db.next_id db.entries);
                      no_request = facts.3;
                    }),
                  )
              | inr above ↦
                  let facts : (folio.status ≡ open_folio)
                      × (charge_total folio.id db.entries ≢ 0)
                      × (db'.entries ≡ db.entries)
                      × (db'.approvals ≡ request_row auth folio dto db.next_id ∷ db.approvals) =
                    ground arith in
                  (
                    folio,
                    found,
                    facts.0,
                    facts.1,
                    inr (record {
                      share_above = (beyond auth share above).0;
                      role_below = (beyond auth share above).1;
                      ledger_kept = facts.2;
                      raised = facts.3;
                    }),
                  )
            ]
          ]
    ]
