-- ===== src/Booking/Redeemed.antt =====
-- The end of a hold: `consumeHoldTx` redeems it by its token, `releaseHold` gives it up.
use package.text.Mathlib.Text.{◌==◌ as str_eq}
use package.text.Mathlib.TextPositions.{eq_refl}
use lodgiva.Common.{
  ℕ, Bool, true, false, ◌&&◌, not, some, List, [], ◌∷◌, ◌++◌, String, ◌≡◌, refl, sym, ap, ◌∙◌,
  arith, ◌==◌, find, filter, update_where, All, inl, inr, Option-cases, is_id, ltb, if◌then◌else◌,
}
use lodgiva.Common.Search.{find-update_where}
use lodgiva.Common.Sorting.{All-map}
use lodgiva.Store.{
  Key, Hold, Db, ok, err, conflict, hold_expired, hold_not_active, is_active, active,
}
use lodgiva.Access.{Auth}
use lodgiva.Inventory.{release_hold}
use lodgiva.Inventory.Slots.{UniqueSlots}
use lodgiva.Reservations.{consume_hold_tx}
use lodgiva.Booking.Holds.{
  CreateHold, HoldReceipt, create_hold, release_stay_hold, is_named, released_row,
}
use lodgiva.Booking.Held.{create_hold-Held}

-- The look-up passes over rows with other hashes.
find_after :
    (p : Hold → Bool) (news rest : List Hold) (row : Hold)
    → All (λ h. p h ≡ false) news
    → p row ≡ true
    → find p (news ++ (row ∷ rest)) ≡ some row
find_after p [] rest row h hit = ground (arith, hit)
find_after p (x ∷ news) rest row h hit =
    let miss : p x ≡ false = h.0 in ground (arith, miss, find_after p news rest row h.1 hit)

-- The token of a hold that was created where the slots of the table are apart redeems it until it
-- ends, at its frozen price, and is refused as expired from then on: in any later state where the
-- table of holds is as it left it but for newer holds with other hashes.
pub redeem-create_hold :
    (sha256 : String → String) (token : String) (minutes : ℕ) (auth : Auth) (dto : CreateHold)
    (db : Db) (r : HoldReceipt) (db' : Db)
    → UniqueSlots db.allocations
    → create_hold sha256 token minutes auth dto db ≡ ok (r, db')
    → (later : Db) (news : List Hold) → later.holds ≡ news ++ db'.holds
    → All (λ h. str_eq h.token_hash (sha256 r.hold_token) ≡ false) news
    → (hold : Hold) × (hold.id ≡ r.hold_id)
      × (hold.quoted_total_minor ≡ r.quoted.total_minor)
      × (consume_hold_tx sha256 auth.tenant_id r.hold_token later
          ≡ (if ltb later.now r.expires_at then ok (hold, later) else err (conflict hold_expired)))
unfolding consume_hold_tx
redeem-create_hold sha256 token minutes auth dto db r db' u h later news same others =
    let done = create_hold-Held sha256 token minutes auth dto db r db' u h in
    let row = done.row in
    let test : Hold → Bool =
      λ x. x.tenant_id == auth.tenant_id && str_eq x.token_hash (sha256 r.hold_token) in
    let is_row = done.stored.is_row in
    let hashed : row.token_hash ≡ sha256 token = ap (λ x. x.token_hash) is_row in
    let its_hash : str_eq row.token_hash (sha256 r.hold_token) ≡ true =
      rw (hashed, done.its_token) (eq_refl (sha256 token)) in
    let tenant : row.tenant_id ≡ auth.tenant_id = ap (λ x. x.tenant_id) is_row in
    let hit : test row ≡ true = ground (arith, its_hash, tenant) in
    let passed =
      All-map (λ x. str_eq x.token_hash (sha256 r.hold_token) ≡ false)
        (λ x miss. other_tenant x miss) news others in
    let found : find test later.holds ≡ some row =
      ap (λ l. find test l) (same ∙ ap (λ l. news ++ l) done.stored.holds)
      ∙ find_after test news done.mid.holds row passed hit in
    let live : row.status ≡ active = ap (λ x. x.status) is_row in
    let ends : r.expires_at ≡ row.expires_at = done.its_end in
    (row, sym done.its_id, ap (λ x. x.quoted_total_minor) is_row, ground (arith, found, live, ends))
  where
    other_tenant :
        (x : Hold)
        → str_eq x.token_hash (sha256 r.hold_token) ≡ false
        → (x.tenant_id == auth.tenant_id && str_eq x.token_hash (sha256 r.hold_token)) ≡ false
    other_tenant x miss = ground (arith, miss)

-- A hold was released.
pub record Released (id_text : Key → String) (sha256 : String → String) (auth : Auth)
    (given : String) (db : Db) (h : Hold) (db' : Db) : Type 0 where
  pub hold : Hold
  pub named :
      find (λ x. x.tenant_id == auth.tenant_id && is_named id_text sha256 given x) db.holds
      ≡ some hold
  pub was_active : is_active hold.status ≡ true
  pub row : h ≡ released_row db.now hold
  pub holds : db'.holds ≡ update_where (λ x. x.id == hold.id) (released_row db.now) db.holds
  pub freed : db'.allocations ≡ filter (λ a. not (is_id a.hold_id hold.id)) db.allocations
  pub once : release_stay_hold id_text sha256 auth given db' ≡ err (conflict hold_not_active)

-- Only an active hold of the tenant is released, by its id or its token; its row alone is rewritten.
-- Exactly the nights that were claimed for it are freed, and sending the same id or token again is
-- refused.
pub release_stay_hold-Released :
    (id_text : Key → String) (sha256 : String → String) (auth : Auth) (given : String) (db : Db)
    (h : Hold) (db' : Db)
    → release_stay_hold id_text sha256 auth given db ≡ ok (h, db')
    → Released id_text sha256 auth given db h db'
unfolding release_stay_hold release_hold
release_stay_hold-Released id_text sha256 auth given db h db' ran =
    elim (Option-cases
      (find (λ x. x.tenant_id == auth.tenant_id && is_named id_text sha256 given x) db.holds)) [
        | inl missing ↦ absurd (ground arith)
        | inr (hold, named) ↦
            let facts : (is_active hold.status ≡ true)
                × (h ≡ released_row db.now hold)
                × (db'.holds ≡ update_where (λ x. x.id == hold.id) (released_row db.now) db.holds)
                × (db'.allocations ≡ filter (λ a. not (is_id a.hold_id hold.id)) db.allocations) =
              ground (arith, named) in
            record {
              hold = hold;
              named = named;
              was_active = facts.0;
              row = facts.1;
              holds = facts.2;
              freed = facts.3;
              once =
                  let again =
                    find-update_where (λ x. x.id)
                      (λ x. x.tenant_id == auth.tenant_id && is_named id_text sha256 given x)
                      (released_row db.now) db.holds hold (λ x. refl) named in
                  ground (arith, facts.2, again);
            }
      ]
