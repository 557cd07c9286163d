-- ===== src/Folios/Transfer.antt =====
-- `transfer` of apps/api/src/modules/folios.module.ts: entries move between two folios of a stay by
-- a reversal on the source and a copy on the target.
use lodgiva.Common.{
  ℕ, Bool, false, ◌&&◌, ◌||◌, not, Option, none, some, is_some, List, [], ◌∷◌, String, ◌&◌, ◌==◌,
  filter, all, contains, length, update_where,
}
use lodgiva.Common.Int.{ℤ, pos, ◌+ℤ◌, neg}
use lodgiva.Store.{
  Key, IsoDate, is_reversal, reversal, is_open_folio, text, number, ident, Folio, FolioEntry, Db, M,
  pure, gets, modify, fresh, throw_if, ◌>>=◌, ◌>>◌, bad_request, conflict, not_found, same_folio,
  folio_closed, different_stay, entry_not_found, entry_not_transferable,
}
use lodgiva.Access.{Auth, log, property_or_throw}
use lodgiva.Folios.Entries.{balance_minor, get_folio_or_throw, create_entry}

-- `reservationId` of both folios is present and the same.
abbrev pub same_stay : Option Key → Option Key → Bool
same_stay none _ = false
same_stay (some a) none = false
same_stay (some a) (some b) = a == b

abbrev pub sum_entries : List FolioEntry → ℤ
sum_entries [] = pos 0
sum_entries (e ∷ entries) = e.amount_minor +ℤ sum_entries entries

-- The two rows that are created for an entry.
abbrev pub out_row : Auth → Folio → IsoDate → Key → FolioEntry → Key → FolioEntry
out_row auth source date group e id = record e {
  id = id;
  tenant_id = auth.tenant_id;
  folio_id = source.id;
  type = reversal;
  description = "Transferred out: " & e.description;
  amount_minor = neg e.amount_minor;
  transfer_group_id = some group;
  reversal_of_id = none;
  business_date = date;
  posted_by_id = auth.user_id;
}

abbrev pub in_row : Auth → Folio → IsoDate → Key → FolioEntry → Key → FolioEntry
in_row auth target date group e id = record e {
  id = id;
  tenant_id = auth.tenant_id;
  folio_id = target.id;
  description = "Transferred in: " & e.description;
  transfer_group_id = some group;
  reversal_of_id = none;
  business_date = date;
  posted_by_id = auth.user_id;
}

-- `tx.folioEntry.update`: the original cannot be transferred twice.
unfoldable pub mark : Key → Key → List FolioEntry → List FolioEntry
mark id group = update_where (λ e. e.id == id) (λ e. record e { transfer_group_id = some group })

-- One round of the loop over the entries.
unfoldable pub move_entry : Auth → Folio → Folio → IsoDate → Key → FolioEntry → M (Unit {0})
move_entry auth source target date group e = do
  create_entry (out_row auth source date group e)
  create_entry (in_row auth target date group e)
  modify λ db. record db { entries = mark e.id group db.entries }

unfoldable pub move_entries : Auth → Folio → Folio → IsoDate → Key → List FolioEntry → M (Unit {0})
move_entries auth source target date group [] = pure tt
move_entries auth source target date group (e ∷ entries) = do
  move_entry auth source target date group e
  move_entries auth source target date group entries

abbrev pub is_transferable : FolioEntry → Bool
is_transferable e = not (is_reversal e.type || is_some e.transfer_group_id)

-- The result of `transfer`.
pub record Moved : Type 0 where
  pub transfer_group_id : Key
  pub moved_entries : ℕ
  pub moved_minor : ℤ
  pub source_balance_minor : ℤ
  pub target_balance_minor : ℤ

-- The entries that are asked for and stand on the source folio.
abbrev pub selected : Auth → Folio → List Key → Db → List FolioEntry
selected auth source ids db =
    filter (λ e. contains e.id ids && (e.folio_id == source.id && e.tenant_id == auth.tenant_id))
      db.entries

-- The checks of `transfer` on the two folios.
unfoldable pub check_folios : Folio → Folio → M (Unit {0})
check_folios source target = do
  throw_if (not (is_open_folio source.status)) (conflict folio_closed)
  throw_if (not (is_open_folio target.status)) (conflict folio_closed)
  throw_if (not (same_stay source.reservation_id target.reservation_id)) (conflict different_stay)

-- The checks of `transfer` on the entries.
unfoldable pub check_entries : List Key → List FolioEntry → M (Unit {0})
check_entries ids entries = do
  throw_if (not (length entries == length ids)) (not_found entry_not_found)
  throw_if (not (all is_transferable entries)) (conflict entry_not_transferable)

-- The writes of `transfer`, once the checks have passed.
unfoldable pub carry_out : Auth → Folio → Folio → String → List FolioEntry → M Moved
carry_out auth source target reason entries = do
  property ← property_or_throw source.property_id
  group ← fresh
  move_entries auth source target property.business_date group entries
  log auth "folio.charges_transferred" "folio" source.id (some source.property_id) (
      ("targetFolioId", ident target.id)
      ∷ ("entries", number (pos (length entries)))
      ∷ ("movedMinor", number (sum_entries entries))
      ∷ ("transferGroupId", ident group)
      ∷ ("reason", text reason)
      ∷ [])
  source_due ← balance_minor source.id
  target_due ← balance_minor target.id
  pure (record {
    transfer_group_id = group;
    moved_entries = length entries;
    moved_minor = sum_entries entries;
    source_balance_minor = source_due;
    target_balance_minor = target_due;
  })

-- `transfer`
unfoldable pub transfer : Auth → Key → Key → List Key → String → M Moved
transfer auth source_id target_id ids reason = do
  throw_if (source_id == target_id) (bad_request same_folio)
  source ← get_folio_or_throw auth source_id
  target ← get_folio_or_throw auth target_id
  check_folios source target
  entries ← gets (selected auth source ids)
  check_entries ids entries
  carry_out auth source target reason entries
