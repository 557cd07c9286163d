-- ===== src/Approvals/Decisions.antt =====
-- Who decides a request, once, and what the decision does to the ledger.
use lodgiva.Common.{
  ℕ, Bool, true, false, ◌&&◌, Option, some, List, [], ◌∷◌, String, ◌&◌, ◌≡◌, ◌≢◌, refl, sym, ◌∙◌,
  subst, arith, ◌==◌, find, update_where, All, ◌⊎◌, inl, inr, Option-cases, Bool-cases,
  if◌then◌else◌,
}
use lodgiva.Common.Int.{pos, neg}
use lodgiva.Common.Search.{find-eq-some, find-All}
use lodgiva.Store.{
  Key, RequestPayload, of_discount, of_void, closed_folio, Folio, Property, ApprovalRequest,
  pending, is_pending, discount_request, Db, ok, Result-cases,
}
use lodgiva.Access.{Auth}
use lodgiva.Permissions.{role_has_permission, approval_decide}
use lodgiva.Folios.{is_reachable}
use lodgiva.Folios.Charges.{Grows, cons-Grows_at}
use lodgiva.Approvals.{decided_row, discount_row, is_discount, decide_void, post_discount, decide}

-- The request that a caller of its tenant names.
abbrev pub Asks : Auth → Key → Db → ApprovalRequest → Type 0
Asks auth id db r = find (λ x. x.id == id && x.tenant_id == auth.tenant_id) db.approvals ≡ some r

pub payload-cases :
    (p : RequestPayload)
    → ((folio_id : Key) × (amount : ℕ) × (p ≡ of_discount folio_id amount))
      ⊎ ((order_id : Key) × (number : String) × (p ≡ of_void order_id number))
payload-cases (of_discount f a) = inl (f, a, refl)
payload-cases (of_void o n) = inr (o, n, refl)

-- What a decision shows of the request and of the caller, and what it does.
pub record Decided (auth : Auth) (id : Key) (approve : Bool) (note : Option String) (db : Db)
    (db' : Db) : Type 0 where
  pub request : ApprovalRequest
  pub named : Asks auth id db request
  pub was_pending : request.status ≡ pending
  pub permitted : role_has_permission auth.role approval_decide ≡ true
  pub not_own : request.requested_by_id ≢ auth.user_id
  pub written :
      db'.approvals
      ≡ update_where (λ x. x.id == request.id) (decided_row auth approve note) db.approvals
  pub ledger :
      ((approve && is_discount request.type ≡ false) × (db'.entries ≡ db.entries))
      ⊎ ((approve && is_discount request.type ≡ true)
          × ((folio_id : Key) × (amount : ℕ) × (folio : Folio) × (request.payload
                ≡ of_discount folio_id amount)
              × (find (is_reachable auth folio_id) db.folios ≡ some folio)
              × Grows folio.id (neg (pos amount)) db.entries db'.entries))

-- A decision is made on a pending request, by a role that may decide, never by the user who asked.
-- The request's row alone is rewritten. The ledger changes only where a discount is approved: the
-- balance of the folio of the request, which is within the caller's reach, falls by the amount of the
-- request.
pub decide-Decided :
    (auth : Auth) (id : Key) (approve : Bool) (note : Option String) (db : Db)
    (r : ApprovalRequest × Db)
    → decide auth id approve note db ≡ ok r
    → Decided auth id approve note db r.1
unfolding decide decide_void post_discount
decide-Decided auth id approve note db r h =
    elim (Option-cases (find (λ x. x.id == id && x.tenant_id == auth.tenant_id) db.approvals)) [
      | inl missing ↦ absurd (ground arith)
      | inr (request, found) ↦ elim (Bool-cases (approve && is_discount request.type)) [
        | inr none_posted ↦
            let facts : (request.status ≡ pending)
                × (role_has_permission auth.role approval_decide ≡ true)
                × (request.requested_by_id ≢ auth.user_id)
                × (r.1.approvals
                    ≡ update_where (λ x. x.id == request.id) (decided_row auth approve note)
                        db.approvals)
                × (r.1.entries ≡ db.entries) =
              ground arith in
            record {
              request = request;
              named = found;
              was_pending = facts.0;
              permitted = facts.1;
              not_own = facts.2;
              written = facts.3;
              ledger = inl (none_posted, facts.4);
            }
        | inl posted ↦ elim (payload-cases request.payload) [
          | inr (order_id, number, void) ↦ absurd (ground (arith, void))
          | inl (folio_id, amount, payload) ↦
              elim (Option-cases (find (is_reachable auth folio_id) db.folios)) [
                | inl missing ↦ absurd (ground (arith, payload))
                | inr (folio, there) ↦
                    elim (Option-cases (find (λ p. p.id == folio.property_id) db.properties)) [
                      | inl missing ↦ absurd (ground (arith, payload))
                      | inr (property, its) ↦
                          let row =
                            discount_row auth folio.id ("Approved discount — " & request.reason)
                              amount property.business_date db.next_id in
                          let facts : (request.status ≡ pending)
                              × (role_has_permission auth.role approval_decide ≡ true)
                              × (request.requested_by_id ≢ auth.user_id)
                              × (r.1.approvals
                                  ≡ update_where (λ x. x.id == request.id)
                                      (decided_row auth approve note) db.approvals)
                              × (r.1.entries ≡ row ∷ db.entries) =
                            ground (arith, payload) in
                          record {
                            request = request;
                            named = found;
                            was_pending = facts.0;
                            permitted = facts.1;
                            not_own = facts.2;
                            written = facts.3;
                            ledger = inr (
                              posted,
                              (
                                folio_id,
                                amount,
                                folio,
                                payload,
                                there,
                                rw facts.4 (cons-Grows_at folio.id _ row db.entries refl refl),
                              ),
                            );
                          }
                    ]
              ]
        ]
      ]
    ]

-- Each row that a decision rewrites is no longer pending.
decided_rows :
    (auth : Auth) (approve : Bool) (remark : Option String) (k : Key) (l : List ApprovalRequest)
    → All
        (λ x. x.id ≡ k → is_pending x.status ≡ false)
        (update_where (λ x. x.id == k) (decided_row auth approve remark) l)
decided_rows auth approve remark k [] = tt
decided_rows auth approve remark k (x ∷ l) = (settled approve, decided_rows auth approve remark k l)
  where
    settled :
        (approve : Bool)
        → (if x.id == k then decided_row auth approve remark x else x).id ≡ k
        → is_pending (if x.id == k then decided_row auth approve remark x else x).status ≡ false
    settled true h = ground arith
    settled false h = ground arith

-- A request is decided once: after a decision nobody can decide it again, either way.
decide_once :
    (auth : Auth) (id : Key) (approve : Bool) (remark : Option String) (db : Db)
    (r : ApprovalRequest × Db)
    → decide auth id approve remark db ≡ ok r
    → (auth' : Auth) (approve' : Bool) (remark' : Option String) (again : ApprovalRequest × Db)
    → decide auth' id approve' remark' r.1 ≢ ok again
decide_once auth id approve remark db r h auth' approve' remark' again h' =
    let first = decide-Decided auth id approve remark db r h in
    let second = decide-Decided auth' id approve' remark' r.1 again h' in
    let here : first.request.id ≡ id =
      ground (arith, find-eq-some _ db.approvals first.request first.named) in
    let there : second.request.id ≡ id =
      ground (arith, find-eq-some _ r.1.approvals second.request second.named) in
    let rows =
      subst (All (λ x. x.id ≡ first.request.id → is_pending x.status ≡ false)) (sym first.written)
        (decided_rows auth approve remark first.request.id db.approvals) in
    let over : is_pending second.request.status ≡ false =
      find-All _ _ r.1.approvals second.request rows second.named (there ∙ sym here) in
    ground (arith, over, second.was_pending)

-- An approved discount is posted to the folio of its request whatever the status of that folio is, a
-- closed one included.
approved_discount_on_closed :
    (auth : Auth) (id : Key) (note : Option String) (db : Db) (request : ApprovalRequest)
    (folio_id : Key) (amount : ℕ) (folio : Folio) (property : Property)
    → Asks auth id db request
    → request.status ≡ pending
    → request.type ≡ discount_request
    → role_has_permission auth.role approval_decide ≡ true
    → request.requested_by_id ≢ auth.user_id
    → request.payload ≡ of_discount folio_id amount
    → find (is_reachable auth folio_id) db.folios ≡ some folio
    → folio.status ≡ closed_folio
    → find (λ p. p.id == folio.property_id) db.properties ≡ some property
    → (r : ApprovalRequest × Db) × (decide auth id true note db ≡ ok r)
      × Grows folio.id (neg (pos amount)) db.entries r.1.entries
unfolding decide post_discount
approved_discount_on_closed auth id note db request folio_id amount folio property named p d role
      other payload reach closed its =
    elim (Result-cases (decide auth id true note db)) [
      | inr (e, failed) ↦ absurd (ground (arith, named, p, d, role, other, payload, reach, its))
      | inl (r, ran) ↦
          let row =
            discount_row auth folio.id ("Approved discount — " & request.reason) amount
              property.business_date db.next_id in
          let posted : r.1.entries ≡ row ∷ db.entries =
            ground (arith, named, p, d, role, other, payload, reach, its) in
          (r, ran, rw posted (cons-Grows_at folio.id _ row db.entries refl refl))
    ]
