-- ===== src/Payments/Tests.antt =====
-- A deposit is paid, and the same request arrives again.
use lodgiva.Common.{true, false, none, some, [], ◌∷◌, ◌≡◌, refl, arith, ◌⊎◌}
use lodgiva.Common.Int.{◌+ℤ◌}
use lodgiva.Store.{Db, ok, Folio, open_folio, by_bank_transfer}
use lodgiva.Store.Sample.{empty_db}
use lodgiva.Access.{Auth}
use lodgiva.Payments.{RecordPayment, Receipt, is_witnessed, existing, record_payment}
use lodgiva.Payments.Recording.{Taken, Repeated, record_payment-Recorded, record_payment_once}
use lodgiva.Payments.History.{Agrees, recorded, stop, Steps-Agrees}

abbrev desk : Auth
desk = record {
  user_id = 3;
  tenant_id = 1;
  role = "FRONT_DESK";
  all_properties = false;
  property_ids = 2 ∷ [];
}

abbrev bill : Folio
bill = record {
  id = 10;
  tenant_id = 1;
  property_id = 2;
  reservation_id = some 5;
  guest_id = 6;
  label = "Main";
  is_primary = true;
  status = open_folio;
}

abbrev desk_db : Db
desk_db = record empty_db {
  properties = record { id = 2; tenant_id = 1; business_date = 150 } ∷ [];
  folios = bill ∷ [];
}

abbrev deposit : RecordPayment
deposit = record {
  folio_id = 10;
  method = by_bank_transfer;
  amount_minor = 20000;
  external_reference = some "NIP 7781";
  idempotency_key = some "k-1";
}

a_deposit : (r : Receipt) × (db : Db) × (record_payment desk deposit desk_db ≡ ok (r, db))
unfolding record_payment
a_deposit = (_, _, refl)

record_payment-Recorded_example :
    (is_witnessed deposit ≡ true)
    × (Repeated desk deposit a_deposit.0 desk_db (a_deposit.1)
        ⊎ (existing 1 (some "k-1") desk_db.payments ≡ none)
          × (a_deposit.0.is_duplicate ≡ false)
          × Taken desk deposit a_deposit.0.payment desk_db (a_deposit.1))
record_payment-Recorded_example =
    record_payment-Recorded desk deposit desk_db a_deposit.0 (a_deposit.1) a_deposit.2

record_payment_once_example :
    record_payment desk deposit (a_deposit.1)
    ≡ ok (
      record { payment = a_deposit.0.payment; is_duplicate = true; verification = none },
      a_deposit.1,
    )
record_payment_once_example =
    record_payment_once desk deposit "k-1" desk_db a_deposit.0 (a_deposit.1) refl refl a_deposit.2
      desk deposit refl refl refl

Steps-Agrees_example : Agrees (a_deposit.1)
unfolding ◌+ℤ◌
Steps-Agrees_example =
    Steps-Agrees (recorded desk deposit (a_deposit.0, a_deposit.1) a_deposit.2 stop)
      (record { keys = λ t k. omega arith; sums = λ f. refl })
