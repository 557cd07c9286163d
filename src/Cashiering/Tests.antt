-- ===== src/Cashiering/Tests.antt =====
-- A cashier's day: a float, a payment, a drop to the safe, and the count.
use lodgiva.Common.{false, none, some, [], ◌∷◌, ◌≡◌, refl, arith}
use lodgiva.Common.Int.{◌+ℤ◌, ◌-ℤ◌, neg}
use lodgiva.Store.{Db, ok, CashierShift, CashMovement, payment_in, drop_to_safe}
use lodgiva.Store.Sample.{empty_db}
use lodgiva.Access.{Auth}
use lodgiva.Permissions.{role_has_permission, role_named, grants, role_permissions, read_only}
use lodgiva.Cashiering.{
  OpenShift, AddMovement, CloseShift, open_shift, add_movement, close, approve,
}
use lodgiva.Cashiering.Closing.{Settled, Cleared, close-Settled, approve-Cleared}
use lodgiva.Cashiering.History.{OneOpen, opened, recorded, stop, ◌▸◌, Steps-OneOpen}

abbrev teller : Auth
teller = record {
  user_id = 3;
  tenant_id = 1;
  role = "CASHIER";
  all_properties = false;
  property_ids = 2 ∷ [];
}

abbrev boss : Auth
boss = record teller { user_id = 4; role = "GENERAL_MANAGER" }

abbrev morning : Db
morning = record empty_db {
  properties = record { id = 2; tenant_id = 1; business_date = 150 } ∷ [];
}

abbrev opening : OpenShift
opening = record { property_id = 2; opening_float_minor = 5000 }

abbrev paid : AddMovement
paid = record { type = payment_in; amount_minor = 2000; reference = none; note = none }

abbrev drop : AddMovement
drop = record { type = drop_to_safe; amount_minor = 3000; reference = none; note = none }

abbrev short : CloseShift
short = record { counted_minor = 3900; variance_reason = some "a note is missing" }

a_shift : (s : CashierShift) × (db : Db) × (open_shift teller opening morning ≡ ok (s, db))
unfolding open_shift
a_shift = (_, _, refl)

a_payment : (m : CashMovement) × (db : Db) × (add_movement teller 100 paid (a_shift.1) ≡ ok (m, db))
unfolding a_shift add_movement
a_payment = (_, _, refl)

a_drop : (m : CashMovement) × (db : Db) × (add_movement teller 100 drop (a_payment.1) ≡ ok (m, db))
unfolding a_payment a_shift add_movement
a_drop = (_, _, refl)

a_close : (s : CashierShift) × (db : Db) × (close teller 100 short (a_drop.1) ≡ ok (s, db))
unfolding a_drop a_payment a_shift close ◌-ℤ◌ ◌+ℤ◌ neg
a_close = (_, _, refl)

an_approval : (s : CashierShift) × (db : Db) × (approve boss 100 (a_close.1) ≡ ok (s, db))
unfolding a_close a_drop a_payment a_shift ◌-ℤ◌ ◌+ℤ◌ neg approve role_has_permission role_named
    grants role_permissions read_only
an_approval = (_, _, refl)

close-Settled_example : Settled short (a_drop.1) a_shift.0 a_close.0 (a_close.1)
unfolding a_drop a_payment a_shift
close-Settled_example =
    close-Settled teller 100 short (a_drop.1) a_shift.0 a_close.0 (a_close.1) refl refl a_close.2

approve-Cleared_example : Cleared boss 100 (a_close.1) an_approval.0 (an_approval.1)
approve-Cleared_example =
    approve-Cleared boss 100 (a_close.1) an_approval.0 (an_approval.1) an_approval.2

pending_shift : (a_close.1).shifts ≡ a_close.0 ∷ []
unfolding a_close a_drop a_payment a_shift ◌-ℤ◌ ◌+ℤ◌ neg
pending_shift = refl

Steps-OneOpen_example : OneOpen (a_payment.1).shifts
Steps-OneOpen_example =
    Steps-OneOpen
      (opened teller opening morning (a_shift.0, a_shift.1) a_shift.2
        ▸ recorded teller 100 paid (a_shift.1) (a_payment.0, a_payment.1) a_payment.2
        ▸ stop)
      (λ t p u. omega arith)
