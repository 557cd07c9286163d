-- ===== src/Housekeeping/Tests.antt =====
-- A room that is out of order, whose task is completed.
use lodgiva.Common.{true, length, false, none, some, [], ◌∷◌, ◌≡◌, refl}
use lodgiva.Store.{HousekeepingTask, Db, ok, out_of_order, task_in_progress}
use lodgiva.Store.Sample.{empty_db}
use lodgiva.Access.{Auth, log, emit}
use lodgiva.Housekeeping.{advance}
use lodgiva.Housekeeping.Advance.{Advanced, advance-Advanced}
use lodgiva.Housekeeping.Tasks.{Assign, CreateTask, create_task, assign}
use lodgiva.Housekeeping.Assigned.{Assigned, assign-Assigned}

abbrev cleaner : Auth
cleaner = record {
  user_id = 4;
  tenant_id = 1;
  role = "HOUSEKEEPING";
  all_properties = false;
  property_ids = [];
}

abbrev floor_one : Db
floor_one = record empty_db {
  properties = record { id = 2; tenant_id = 1; business_date = 150 } ∷ [];
  memberships =
      record { tenant_id = 1; user_id = 4; is_active_member = true; full_name = "Ngozi" } ∷ [];
  rooms =
      record {
        id = 30;
        tenant_id = 1;
        property_id = 2;
        room_type_id = 8;
        room_number = "101";
        floor = 1;
        operational_status = out_of_order;
      }
      ∷ [];
  tasks =
      record {
        id = 70;
        tenant_id = 1;
        property_id = 2;
        room_id = 30;
        business_date = 150;
        type = "TURNOVER";
        priority = "HIGH";
        assigned_to = none;
        assigned_user_id = none;
        notes = none;
        status = task_in_progress;
        started_at = some 900;
        completed_at = none;
        version = 2;
      }
      ∷ [];
}

done : (t : HousekeepingTask) × (db : Db) × (advance cleaner 70 floor_one ≡ ok (t, db))
unfolding advance log emit
done = (_, _, refl)

advance-Advanced_example : Advanced cleaner 70 done.0 floor_one done.1
advance-Advanced_example = advance-Advanced cleaner 70 floor_one done.0 done.1 done.2

abbrev to_ngozi : Assign
to_ngozi = record { assigned_user_id = 4; assigned_to = none }

handed_over :
    (t : HousekeepingTask) × (db : Db) × (assign cleaner 70 to_ngozi floor_one ≡ ok (t, db))
unfolding assign
handed_over = (_, _, refl)

assign-Assigned_example : Assigned cleaner 70 to_ngozi handed_over.0 floor_one handed_over.1
assign-Assigned_example =
    assign-Assigned cleaner 70 to_ngozi floor_one handed_over.0 handed_over.1 handed_over.2

abbrev for_a_stranger : CreateTask
for_a_stranger = record {
  property_id = 2;
  room_id = 30;
  type = "TURNOVER";
  priority = "HIGH";
  assigned_to = none;
  assigned_user_id = some 99;
  notes = none;
}

-- User 99 is no member of the tenant.
stranger_is_told :
    (t : HousekeepingTask) × (db : Db) × (create_task cleaner for_a_stranger floor_one ≡ ok (t, db))
    × (length db.outbox ≡ 1)
unfolding create_task
stranger_is_told = (_, _, refl, refl)
