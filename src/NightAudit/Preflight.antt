-- ===== src/NightAudit/Preflight.antt =====
-- `preflight` of apps/api/src/modules/night-audit.module.ts: what stands in the way of closing the
-- day, and what has to be acknowledged.
use lodgiva.Common.{
  ℕ, Bool, true, false, ◌&&◌, Option, none, some, List, [], ◌∷◌, ◌++◌, ◌==◌, leb, ltb, find, count,
}
use lodgiva.Store.{
  Key, IsoDate, is_shift_open, is_shift_pending, is_order_open, is_void_pending, checked_in,
  confirmed, is_completed_run, AuditWarning, shifts_awaiting_approval, due_out_still_in_house,
  unarrived_bookings, CashierShift, PosOrder, Reservation, NightAuditRun, Property, Db, M, gets,
  ◌>>=◌,
}
use lodgiva.Access.{Auth, assert_property}
use lodgiva.ReservationState.{same_state}

-- The `code` and the `count` of a blocker.
pub data Blocker : Type 0 where
  already_run : IsoDate → Blocker
  open_cashier_shifts open_pos_orders pos_voids_awaiting_approval : ℕ → Blocker

-- The `where` of each count.
abbrev pub open_shift_at : Auth → Key → CashierShift → Bool
open_shift_at auth property_id s =
    s.tenant_id == auth.tenant_id && (s.property_id == property_id && is_shift_open s.status)

abbrev pub pending_shift_at : Auth → Key → CashierShift → Bool
pending_shift_at auth property_id s =
    s.tenant_id == auth.tenant_id && (s.property_id == property_id && is_shift_pending s.status)

abbrev pub open_order_at : Auth → Key → PosOrder → Bool
open_order_at auth property_id o =
    o.tenant_id == auth.tenant_id && (o.property_id == property_id && is_order_open o.status)

abbrev pub pending_void_at : Auth → Key → PosOrder → Bool
pending_void_at auth property_id o =
    o.tenant_id == auth.tenant_id && (o.property_id == property_id && is_void_pending o.status)

abbrev pub due_out_at : Auth → Key → IsoDate → Reservation → Bool
due_out_at auth property_id date r =
    r.tenant_id == auth.tenant_id
    && (r.property_id == property_id
        && (same_state r.status checked_in && leb r.departure_date date))

abbrev pub unarrived_at : Auth → Key → IsoDate → Reservation → Bool
unarrived_at auth property_id date r =
    r.tenant_id == auth.tenant_id
    && (r.property_id == property_id && (same_state r.status confirmed && leb r.arrival_date date))

abbrev pub is_run_of : Key → IsoDate → NightAuditRun → Bool
is_run_of property_id date r = r.property_id == property_id && r.business_date == date

-- `alreadyRun && alreadyRun.status === "COMPLETED"`
abbrev pub is_done : Option NightAuditRun → Bool
is_done none = false
is_done (some r) = is_completed_run r.status

-- `if (test) list.push(x)`
abbrev pub push_if : {A : Type 0} → Bool → A → List A
push_if true x = x ∷ []
push_if false x = []

abbrev pub blockers_of : Auth → Key → IsoDate → Db → List Blocker
blockers_of auth property_id date db =
    let shifts = count (open_shift_at auth property_id) db.shifts in
    let orders = count (open_order_at auth property_id) db.orders in
    let voids = count (pending_void_at auth property_id) db.orders in
    push_if (is_done (find (is_run_of property_id date) db.audit_runs)) (already_run date)
    ++ (push_if (ltb 0 shifts) (open_cashier_shifts shifts)
        ++ (push_if (ltb 0 orders) (open_pos_orders orders)
            ++ push_if (ltb 0 voids) (pos_voids_awaiting_approval voids)))

abbrev pub warnings_of : Auth → Key → IsoDate → Db → List AuditWarning
warnings_of auth property_id date db =
    let shifts = count (pending_shift_at auth property_id) db.shifts in
    let due_out = count (due_out_at auth property_id date) db.reservations in
    let unarrived = count (unarrived_at auth property_id date) db.reservations in
    push_if (ltb 0 shifts) (shifts_awaiting_approval shifts)
    ++ (push_if (ltb 0 due_out) (due_out_still_in_house due_out)
        ++ push_if (ltb 0 unarrived) (unarrived_bookings unarrived))

-- `blockers.length === 0`
abbrev pub is_empty : {A : Type 0} → List A → Bool
is_empty [] = true
is_empty (_ ∷ _) = false

-- What `preflight` returns.
pub record Checks : Type 0 where
  pub business_date : IsoDate
  pub can_run : Bool
  pub blockers : List Blocker
  pub warnings : List AuditWarning

abbrev pub checks_of : Auth → Property → Db → Checks
checks_of auth property db = record {
  business_date = property.business_date;
  can_run = is_empty (blockers_of auth property.id property.business_date db);
  blockers = blockers_of auth property.id property.business_date db;
  warnings = warnings_of auth property.id property.business_date db;
}

-- `preflight`
unfoldable pub preflight : Auth → Key → M Checks
unfolding assert_property
preflight auth property_id = do
  property ← assert_property auth property_id
  gets (checks_of auth property)
