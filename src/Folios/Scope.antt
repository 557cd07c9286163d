-- ===== src/Folios/Scope.antt =====
-- Whose folios a request reaches.
use lodgiva.Common.{true, ◌&&◌, some, ◌≡◌, arith, ◌==◌, find, contains, ◌⊎◌, Option-cases, inl, inr}
use lodgiva.Common.Search.{find-eq-some}
use lodgiva.Store.{Key, Folio, FolioEntry, open_folio, Db, ok}
use lodgiva.Access.{Auth}
use lodgiva.Folios.Entries.{balance, is_reachable}
use lodgiva.Folios.Operations.{PostCharge, get, post_charge, post_charge_tx}

-- A folio of the caller's tenant, at a property that the caller may touch.
abbrev pub Permitted : Auth → Folio → Type 0
Permitted auth f =
    (f.tenant_id ≡ auth.tenant_id)
    × ((auth.all_properties ≡ true) ⊎ (contains f.property_id auth.property_ids ≡ true))

pub reachable-Permitted :
    (auth : Auth) (id : Key) (f : Folio) (db : Db)
    → find (is_reachable auth id) db.folios ≡ some f
    → (f.id ≡ id) × Permitted auth f
reachable-Permitted auth id f db h = ground (arith, find-eq-some _ db.folios f h)

-- A charge is posted only to an open folio with the id that was asked for, of the caller's tenant and
-- at a property that the caller may touch.
post_charge-Permitted :
    (auth : Auth) (folio_id : Key) (dto : PostCharge) (db : Db) (r : FolioEntry × Db)
    → post_charge auth folio_id dto db ≡ ok r
    → (f : Folio) × (f.id ≡ folio_id) × Permitted auth f × (f.status ≡ open_folio)
unfolding post_charge post_charge_tx
post_charge-Permitted auth folio_id dto db r h =
    elim (Option-cases (find (is_reachable auth folio_id) db.folios)) [
      | inl missing ↦ absurd (ground arith)
      | inr (f, found) ↦
          let (same, permitted) = reachable-Permitted auth folio_id f db found in
          (f, same, permitted, ground arith)
    ]

-- Reading a folio asks for the tenant only: a caller of the tenant is given any folio with its
-- balance, at whatever property, even where its scope does not hold that property.
get_ignores_scope :
    (auth : Auth) (folio_id : Key) (db : Db) (f : Folio)
    → find (λ f. f.id == folio_id && f.tenant_id == auth.tenant_id) db.folios ≡ some f
    → get auth folio_id db ≡ ok ((f, balance folio_id db.entries), db)
unfolding get
get_ignores_scope auth folio_id db f h = ground arith
