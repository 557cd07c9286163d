-- ===== src/Folios/Reversal.antt =====
-- What a reversal does: it cancels one entry, once, and changes no row.
use lodgiva.Common.{
  ◌+◌, false, ◌&&◌, Option, some, [], ◌∷◌, ◌≡◌, ◌≢◌, subst, arith, ◌==◌, find, any, is_id, String,
  Option-cases, inl, inr,
}
use lodgiva.Common.Search.{find-eq-some}
use lodgiva.Common.Int.{neg}
use lodgiva.Store.{Key, Folio, FolioEntry, Property, Db, ok, is_reversal, ident, text}
use lodgiva.Access.{Auth}
use lodgiva.Folios.Entries.{is_reachable}
use lodgiva.Folios.Operations.{reverse, reversal_row}
use lodgiva.Folios.Charges.{Grows, cons-Grows_at}

-- The database after a reversal: the row, and the audit event.
abbrev recorded : Auth → Folio → FolioEntry → String → FolioEntry → Db → Db
recorded auth folio original reason row db = record db {
  next_id = db.next_id + 1;
  entries = row ∷ db.entries;
  audit_events =
      record {
        tenant_id = auth.tenant_id;
        property_id = some folio.property_id;
        actor_id = auth.user_id;
        action = "folio.entry_reversed";
        entity_type = "folio_entry";
        entity_id = row.id;
        summary = ("originalEntryId", ident original.id) ∷ ("reason", text reason) ∷ [];
      }
      ∷ db.audit_events;
}

-- The entry that `reverse` looks up.
abbrev pub original_of : Auth → Folio → Key → Db → Option FolioEntry
original_of auth folio entry_id db =
    find (λ e. e.id == entry_id && (e.folio_id == folio.id && e.tenant_id == auth.tenant_id))
      db.entries

-- What a successful reversal has established.
pub record Reversed (auth : Auth) (folio_id entry_id : Key) (row : FolioEntry) (db db' : Db)
    : Type 0 where
  pub folio : Folio
  pub original : FolioEntry
  pub found : original_of auth folio entry_id db ≡ some original
  pub reachable : find (is_reachable auth folio_id) db.folios ≡ some folio
  pub appended : db'.entries ≡ row ∷ db.entries
  pub negated : row.amount_minor ≡ neg original.amount_minor
  pub points_back : row.reversal_of_id ≡ some original.id
  pub first : any (λ e. is_id e.reversal_of_id original.id) db.entries ≡ false
  pub grown : Grows folio.id (neg original.amount_minor) db.entries db'.entries

-- A successful reversal adds one row in front of the ledger and changes no other; the row cancels
-- the amount of an entry that stands on a folio within the caller's reach and that nothing has
-- reversed before, points back at it, and lowers the balance of that folio alone.
pub reverse-Reversed :
    (auth : Auth) (folio_id entry_id : Key) (reason : String) (db : Db) (row : FolioEntry)
    (db' : Db)
    → reverse auth folio_id entry_id reason db ≡ ok (row, db')
    → Reversed auth folio_id entry_id row db db'
unfolding reverse
reverse-Reversed auth folio_id entry_id reason db row db' h =
    elim (Option-cases (find (is_reachable auth folio_id) db.folios)) [
      | inl missing ↦ absurd (ground arith)
      | inr (folio, reachable) ↦ elim (Option-cases (original_of auth folio entry_id db)) [
        | inl missing ↦ absurd (ground arith)
        | inr (original, found) ↦
            let same : (row.amount_minor ≡ neg original.amount_minor)
                × (db'.entries ≡ row ∷ db.entries)
                × (row.folio_id ≡ folio.id)
                × (row.reversal_of_id ≡ some original.id)
                × (any (λ e. is_id e.reversal_of_id original.id) db.entries ≡ false) =
              ground arith in
            record {
              folio = folio;
              original = original;
              found = found;
              reachable = reachable;
              appended = same.1;
              negated = same.0;
              points_back = same.3;
              first = same.4;
              grown = rw same.1 (cons-Grows_at folio.id _ row db.entries same.2 same.0);
            }
      ]
    ]

id_of_original :
    (auth : Auth) (folio : Folio) (entry_id : Key) (db : Db) (e : FolioEntry)
    → original_of auth folio entry_id db ≡ some e
    → e.id ≡ entry_id
id_of_original auth folio entry_id db e h = ground (arith, find-eq-some _ db.entries e h)

-- An entry is reversed at most once: after a reversal no caller can reverse the same entry again,
-- for whatever reason and through whichever folio.
reverse_once :
    (auth : Auth) (folio_id entry_id : Key) (reason : String) (db : Db) (row : FolioEntry)
    (db' : Db)
    → reverse auth folio_id entry_id reason db ≡ ok (row, db')
    → (auth' : Auth) (folio_id' : Key) (reason' : String) (again : FolioEntry × Db)
    → reverse auth' folio_id' entry_id reason' db' ≢ ok again
reverse_once auth folio_id entry_id reason db row db' h auth' folio_id' reason' again h' =
    let r = reverse-Reversed auth folio_id entry_id reason db row db' h in
    let s = reverse-Reversed auth' folio_id' entry_id reason' db' again.0 again.1 h' in
    let here : r.original.id ≡ entry_id =
      id_of_original auth r.folio entry_id db r.original r.found in
    let there : s.original.id ≡ entry_id =
      id_of_original auth' s.folio entry_id db' s.original s.found in
    let unused : any (λ e. is_id e.reversal_of_id s.original.id) (row ∷ db.entries) ≡ false =
      subst (λ l. any (λ e. is_id e.reversal_of_id s.original.id) l ≡ false) r.appended s.first in
    ground (arith, r.points_back)

-- The conditions under which an entry is reversed, of which none asks whether it was transferred:
-- the folio is within reach, the entry stands on it and is no reversal, the folio's property is
-- there, and no row points back at the entry. Then the reversal succeeds.
reverse_succeeds :
    (auth : Auth) (folio_id entry_id : Key) (reason : String) (db : Db) (folio : Folio)
    (original : FolioEntry) (property : Property)
    → find (is_reachable auth folio_id) db.folios ≡ some folio
    → original_of auth folio entry_id db ≡ some original
    → is_reversal original.type ≡ false
    → find (λ p. p.id == folio.property_id) db.properties ≡ some property
    → any (λ e. is_id e.reversal_of_id original.id) db.entries ≡ false
    → (row : FolioEntry) × (db' : Db) × (reverse auth folio_id entry_id reason db ≡ ok (row, db'))
unfolding reverse
reverse_succeeds auth folio_id entry_id reason db folio original property f o t p a =
    let row = reversal_row auth folio original reason property.business_date db.next_id in
    (row, recorded auth folio original reason row db, ground arith)
