-- ===== src/Store/Monad.antt =====
-- A service method: state and exceptions. A request runs in one transaction (apps/api/src/
-- prisma.service.ts, `runWithTenant`), so a method that throws leaves the database as it was: the
-- error case carries no state.
use lodgiva.Common.{◌+◌, Bool, true, false, Option, none, some, ◌≡◌, refl, ◌⊎◌, inl, inr}
use lodgiva.Store.Rows.{Db}
use lodgiva.Store.Values.{Key}

-- The `error.code` of an exception.
pub data Code : Type 0 where
  reservation_not_found folio_not_found entry_not_found property_not_found shift_not_found : Code
  request_not_found order_not_found room_not_found : Code
  folio_closed same_folio different_stay entry_not_transferable too_many_folios stay_closed : Code
  cannot_reverse_reversal already_reversed invalid_state_transition sold_out : Code
  shift_already_open shift_is_closed shift_already_closed variance_reason_required : Code
  not_pending already_decided permission_denied self_approval nothing_to_discount : Code
  order_not_pending override_forbidden outside_stay_dates no_room_available : Code
  room_type_mismatch room_blocked room_not_available room_not_ready room_occupied : Code
  outstanding_balance not_in_house same_room not_extendable invalid_date_range : Code
  arrival_in_past room_type_not_found hold_mismatch guest_not_found : Code
  code_generation_failed hold_not_found hold_not_active hold_expired : Code
  no_changes not_modifiable occupancy_exceeded already_in_house task_not_found task_final : Code
  outlet_not_found menu_item_not_found void_awaiting order_not_open folio_required : Code
  property_mismatch shift_required shift_not_open order_settled already_voided : Code
  payment_not_verified night_audit_blocked night_audit_warnings night_audit_already_run : Code
  stay_too_long rate_plan_not_found task_finished assignee_not_found : Code
  dates_closed_code closed_to_arrival_code closed_to_departure_code : Code
  min_stay_code max_stay_code min_advance_code : Code
  validation record_not_found : Code

-- Nest's exception classes, with the code of the body; `crash` is an error that nothing catches: a
-- `TypeError`, where a field of `undefined` is read, or the refusal of an insert by a unique index.
pub data Error : Type 0 where
  bad_request not_found conflict forbidden : Code → Error
  crash : Error

pub data Result (A : Type 0) : Type 0 where
  ok : A → Result A
  err : Error → Result A

pub Result-cases :
    {A : Type 0} (r : Result A) → ((a : A) × (r ≡ ok a)) ⊎ ((e : Error) × (r ≡ err e))
Result-cases (ok a) = inl (a, refl)
Result-cases (err e) = inr (e, refl)

abbrev pub M : Type 0 → Type 0
M A = Db → Result (A × Db)

module _ {A : Type 0} where
  abbrev pub pure : A → M A
  pure a db = ok (a, db)

  abbrev pub throw : Error → M A
  throw e db = err e

  abbrev pub gets : (Db → A) → M A
  gets f db = ok (f db, db)

  -- `if (!found) throw …`
  abbrev pub require : Option A → Error → M A
  require none e = throw e
  require (some a) e = pure a

infixl 5 ◌>>=◌ ◌>>◌
abbrev pub ◌>>=◌ : {A B : Type 0} → M A → (A → M B) → M B
◌>>=◌ m f db = elim (m db) [ ok r ↦ f r.0 r.1 | err e ↦ err e ]

abbrev pub ◌>>◌ : {A B : Type 0} → M A → M B → M B
m >> k = m >>= λ _. k

abbrev pub modify : (Db → Db) → M (Unit {0})
modify f db = ok (tt, f db)

-- `if (b) throw e`
abbrev pub throw_if : Bool → Error → M (Unit {0})
throw_if true e = throw e
throw_if false e = pure tt

abbrev pub when : Bool → M (Unit {0}) → M (Unit {0})
when true m = m
when false m = pure tt

-- A fresh id for a row that is created.
abbrev pub fresh : M Key
fresh db = ok (db.next_id, record db { next_id = db.next_id + 1 })

pub >>=-eq-ok :
    {A B : Type 0} (m : M A) (f : A → M B) (db : Db) {b : B} {end : Db}
    → (m >>= f) db ≡ ok (b, end)
    → (a : A) × (mid : Db) × (m db ≡ ok (a, mid)) × (f a mid ≡ ok (b, end))
>>=-eq-ok {A} {B} m f db {b} {end} h = go (m db) refl h
  where
    go :
        (r : Result (A × Db))
        → m db ≡ r
        → elim r [ ok s ↦ f s.0 s.1 | err e ↦ err e ] ≡ ok (b, end)
        → (a : A) × (mid : Db) × (m db ≡ ok (a, mid)) × (f a mid ≡ ok (b, end))
    go (ok (a, mid)) e h = (a, mid, e, h)
    go (err x) e h = cc
