-- ===== src/Folios/Operations.antt =====
-- `get`, `postChargeTx`, `postCharge`, `reverse`, `split` and `listForReservation` of
-- apps/api/src/modules/folios.module.ts.
use lodgiva.Common.{
  ℕ, Bool, true, false, ◌&&◌, not, none, some, List, [], ◌∷◌, String, ◌&◌, ◌==◌, leb, find, filter,
  any, length, is_id, if◌then◌else◌,
}
use lodgiva.Common.Int.{ℤ, pos, neg}
use lodgiva.Store.{
  Key, IsoDate, EntryType, is_room_charge, is_reversal, service_charge, tax, reversal,
  is_open_folio, open_folio, ReservationState, checked_out, cancelled, no_show, text, number, ident,
  Folio, FolioEntry, Reservation, M, pure, gets, require, modify, fresh, throw_if, when, ◌>>=◌,
  ◌>>◌, not_found, bad_request, conflict, folio_not_found, entry_not_found, folio_closed,
  cannot_reverse_reversal, already_reversed, reservation_not_found, stay_closed, too_many_folios,
}
use lodgiva.Access.{Auth, log, emit, property_or_throw}
use lodgiva.Tax.{TaxLine, TaxInput, room_kind, fb_kind, compute}
use lodgiva.Folios.Entries.{balance_minor, get_folio_or_throw, type_text, create_entry}

-- `get`: the folio with its balance
unfoldable pub get : Auth → Key → M (Folio × ℤ)
unfolding balance_minor
get auth folio_id = do
  folio ←
      require
        (← gets (λ db. find (λ f. f.id == folio_id && f.tenant_id == auth.tenant_id) db.folios))
        (not_found folio_not_found)
  due ← balance_minor folio_id
  pure (folio, due)

-- The `input` of `postChargeTx`.
pub record Charge : Type 0 where
  pub type : EntryType
  pub description : String
  pub amount_minor : ℤ
  pub apply_taxes : Bool
  pub business_date : IsoDate

abbrev pub tax_input : Folio → Charge → TaxInput
tax_input folio c = record {
  tenant_id = folio.tenant_id;
  property_id = folio.property_id;
  base_minor = c.amount_minor;
  charge_kind = if is_room_charge c.type then room_kind else fb_kind;
  business_date = c.business_date;
}

-- The row of the charge itself.
abbrev pub charge_row : Auth → Folio → Charge → Key → FolioEntry
charge_row auth folio c id = record {
  id = id;
  tenant_id = folio.tenant_id;
  folio_id = folio.id;
  type = c.type;
  description = c.description;
  amount_minor = c.amount_minor;
  tax_code = none;
  tax_rule_id = none;
  tax_rule_version = none;
  transfer_group_id = none;
  reversal_of_id = none;
  business_date = c.business_date;
  posted_by_id = auth.user_id;
}

-- The row of a tax line.
abbrev pub tax_row : Auth → Folio → Charge → TaxLine → Key → FolioEntry
tax_row auth folio c line id = record (charge_row auth folio c id) {
  type = if line.is_service_charge then service_charge else tax;
  description = line.name & " — " & c.description;
  amount_minor = line.amount_minor;
  tax_code = some line.code;
  tax_rule_id = some line.tax_rule_id;
  tax_rule_version = some line.tax_rule_version;
}

-- The loop over `computed.lines`.
unfoldable pub post_tax_lines : Auth → Folio → Charge → List TaxLine → M (Unit {0})
post_tax_lines auth folio c [] = pure tt
post_tax_lines auth folio c (line ∷ lines) = do
  create_entry (tax_row auth folio c line)
  post_tax_lines auth folio c lines

-- The audit row and the event of a posting, the end of `postChargeTx`.
unfoldable pub announce : Auth → Folio → Charge → FolioEntry → M FolioEntry
announce auth folio c entry = do
  log auth "folio.entry_posted" "folio_entry" entry.id (some folio.property_id) (
      ("folioId", ident folio.id)
      ∷ ("type", text (type_text c.type))
      ∷ ("amountMinor", number c.amount_minor)
      ∷ [])
  emit folio.tenant_id "folio" folio.id "folio.entry_posted" (
      ("entryId", ident entry.id)
      ∷ ("type", text (type_text c.type))
      ∷ ("amountMinor", number c.amount_minor)
      ∷ [])
  pure entry

-- `postChargeTx`
unfoldable pub post_charge_tx : Auth → Folio → Charge → M FolioEntry
post_charge_tx auth folio c = do
  throw_if (not (is_open_folio folio.status)) (bad_request folio_closed)
  entry ← create_entry (charge_row auth folio c)
  rules ← gets (λ db. db.tax_rules)
  when c.apply_taxes (post_tax_lines auth folio c (compute rules (tax_input folio c)).lines)
  announce auth folio c entry

-- The body of `postCharge`; its amount is a positive integer.
pub record PostCharge : Type 0 where
  pub type : EntryType
  pub description : String
  pub amount_minor : ℕ
  pub apply_taxes : Bool

-- `postCharge`
unfoldable pub post_charge : Auth → Key → PostCharge → M FolioEntry
unfolding get_folio_or_throw property_or_throw
post_charge auth folio_id dto = do
  folio ← get_folio_or_throw auth folio_id
  property ← property_or_throw folio.property_id
  post_charge_tx auth folio (record {
    type = dto.type;
    description = dto.description;
    amount_minor = pos dto.amount_minor;
    apply_taxes = dto.apply_taxes;
    business_date = property.business_date;
  })

-- The row of a reversal.
abbrev pub reversal_row : Auth → Folio → FolioEntry → String → IsoDate → Key → FolioEntry
reversal_row auth folio original reason date id = record {
  id = id;
  tenant_id = auth.tenant_id;
  folio_id = folio.id;
  type = reversal;
  description = "Reversal of \"" & original.description & "\" — " & reason;
  amount_minor = neg original.amount_minor;
  tax_code = none;
  tax_rule_id = none;
  tax_rule_version = none;
  transfer_group_id = none;
  reversal_of_id = some original.id;
  business_date = date;
  posted_by_id = auth.user_id;
}

-- `reverse`. The unique index on `reversalOfId` refuses a second reversal of an entry (P2002).
unfoldable pub reverse : Auth → Key → Key → String → M FolioEntry
unfolding get_folio_or_throw property_or_throw create_entry log
reverse auth folio_id entry_id reason = do
  folio ← get_folio_or_throw auth folio_id
  original ←
      require
        (← gets (λ db.
          find (λ e. e.id == entry_id && (e.folio_id == folio.id && e.tenant_id == auth.tenant_id))
            db.entries))
        (not_found entry_not_found)
  throw_if (is_reversal original.type) (bad_request cannot_reverse_reversal)
  property ← property_or_throw folio.property_id
  throw_if (← gets (λ db. any (λ e. is_id e.reversal_of_id original.id) db.entries))
      (bad_request already_reversed)
  row ← create_entry (reversal_row auth folio original reason property.business_date)
  log auth "folio.entry_reversed" "folio_entry" row.id (some folio.property_id)
      (("originalEntryId", ident original.id) ∷ ("reason", text reason) ∷ [])
  pure row

-- `["CHECKED_OUT", "CANCELLED", "NO_SHOW"].includes(status)`
abbrev pub is_closed_stay : ReservationState → Bool
is_closed_stay checked_out = true
is_closed_stay cancelled = true
is_closed_stay no_show = true
is_closed_stay _ = false

-- The row of an additional folio.
abbrev pub split_row : Auth → Reservation → String → Key → Folio
split_row auth reservation label id = record {
  id = id;
  tenant_id = auth.tenant_id;
  property_id = reservation.property_id;
  reservation_id = some reservation.id;
  guest_id = reservation.primary_guest_id;
  label = label;
  is_primary = false;
  status = open_folio;
}

-- `split`
unfoldable pub split : Auth → Key → String → M Folio
split auth reservation_id label = do
  reservation ←
      require
        (← gets (λ db.
          find (λ r. r.id == reservation_id && r.tenant_id == auth.tenant_id) db.reservations))
        (not_found reservation_not_found)
  throw_if (is_closed_stay reservation.status) (conflict stay_closed)
  throw_if
      (leb 6
        (← gets (λ db. length (filter (λ f. is_id f.reservation_id reservation.id) db.folios))))
      (conflict too_many_folios)
  id ← fresh
  let folio = split_row auth reservation label id
  modify (λ db. record db { folios = folio ∷ db.folios })
  log auth "folio.split" "folio" id (some reservation.property_id)
      (("reservationId", ident reservation.id) ∷ ("label", text label) ∷ [])
  pure folio
