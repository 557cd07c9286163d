-- ===== src/Folios/Entries.antt =====
-- The rows of the ledger and the look-ups of apps/api/src/modules/folios.module.ts.
use lodgiva.Common.{Bool, ◌&&◌, List, [], ◌∷◌, String, ◌==◌, find, if◌then◌else◌}
use lodgiva.Common.Int.{ℤ, pos, ◌+ℤ◌}
use lodgiva.Store.{
  Key, EntryType, room_charge, pos_charge, laundry, minibar, other_charge, service_charge, tax,
  discount, payment, refund, reversal, Folio, FolioEntry, M, pure, gets, require, modify, fresh,
  ◌>>=◌, ◌>>◌, not_found, folio_not_found,
}
use lodgiva.Access.{Auth, in_scope}

-- The sum of a folio's entries, `agg._sum.amountMinor ?? 0n`.
abbrev pub balance : Key → List FolioEntry → ℤ
balance folio_id [] = pos 0
balance folio_id (e ∷ entries) =
    if e.folio_id == folio_id
    then e.amount_minor +ℤ balance folio_id entries
    else balance folio_id entries

-- `balanceMinor`
unfoldable pub balance_minor : Key → M ℤ
balance_minor folio_id = gets λ db. balance folio_id db.entries

-- The `where` of `getFolioOrThrow`.
abbrev pub is_reachable : Auth → Key → Folio → Bool
is_reachable auth folio_id f =
    f.id == folio_id && (f.tenant_id == auth.tenant_id && in_scope auth f.property_id)

-- `getFolioOrThrow`
unfoldable pub get_folio_or_throw : Auth → Key → M Folio
get_folio_or_throw auth folio_id = do
  require (← gets (λ db. find (is_reachable auth folio_id) db.folios)) (not_found folio_not_found)

-- The string of an entry's type, in a summary.
abbrev pub type_text : EntryType → String
type_text room_charge = "ROOM_CHARGE"
type_text pos_charge = "POS_CHARGE"
type_text laundry = "LAUNDRY"
type_text minibar = "MINIBAR"
type_text other_charge = "OTHER"
type_text service_charge = "SERVICE_CHARGE"
type_text tax = "TAX"
type_text discount = "DISCOUNT"
type_text payment = "PAYMENT"
type_text refund = "REFUND"
type_text reversal = "REVERSAL"

-- `tx.folioEntry.create`: the data given the id of the new row
unfoldable pub create_entry : (Key → FolioEntry) → M FolioEntry
create_entry row = do
  id ← fresh
  modify (λ db. record db { entries = row id ∷ db.entries })
  pure (row id)
