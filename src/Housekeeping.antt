-- ===== src/Housekeeping.antt =====
-- The cleaning of rooms: `HousekeepingService` of apps/api/src/modules/housekeeping.module.ts;
-- `advance` is here, and Tasks has `create` and `assign`.
pub mod Advance
pub mod Tasks
pub mod Assigned
mod Tests
use lodgiva.Common.{
  ℕ, ◌+◌, Bool, true, false, ◌&&◌, not, Option, none, some, List, [], ◌∷◌, String, ◌==◌, find,
  update_where,
}
use lodgiva.Store.{
  Key, Instant, RoomStatus, vacant_clean, inspected, is_occupied, TaskStatus, task_pending,
  task_in_progress, task_completed, task_inspected, Room, HousekeepingTask, Db, text, M, pure, gets,
  require, modify, when, ◌>>=◌, ◌>>◌, bad_request, not_found, crash, task_not_found, task_final,
}
use lodgiva.Access.{Auth, log, emit}

-- `FLOW[idx + 1]`, where there is one
abbrev pub next_status : TaskStatus → Option TaskStatus
next_status task_pending = some task_in_progress
next_status task_in_progress = some task_completed
next_status task_completed = some task_inspected
next_status task_inspected = none

-- The texts of `FLOW`.
abbrev pub status_text : TaskStatus → String
status_text task_pending = "PENDING"
status_text task_in_progress = "IN_PROGRESS"
status_text task_completed = "COMPLETED"
status_text task_inspected = "INSPECTED"

abbrev pub is_task_of : Auth → Key → HousekeepingTask → Bool
is_task_of auth id t = t.id == id && t.tenant_id == auth.tenant_id

abbrev pub started : Instant → TaskStatus → Option Instant → Option Instant
started now task_in_progress before = some now
started now _ before = before

abbrev pub completed : Instant → TaskStatus → Option Instant → Option Instant
completed now task_completed before = some now
completed now _ before = before

-- The row of a task that has moved on.
abbrev pub advanced_row : Instant → TaskStatus → HousekeepingTask → HousekeepingTask
advanced_row now next t = record t {
  status = next;
  started_at = started now next t.started_at;
  completed_at = completed now next t.completed_at;
  version = t.version + 1;
}

-- The condition of a vacant room follows the task.
abbrev pub cleaned : TaskStatus → Room → Room
cleaned task_completed r = record r { operational_status = vacant_clean }
cleaned task_inspected r = record r { operational_status = inspected }
cleaned _ r = r

abbrev pub clean_room : Key → TaskStatus → Db → Db
clean_room id next db = record db { rooms = update_where (λ r. r.id == id) (cleaned next) db.rooms }

abbrev pub event_of : TaskStatus → String
event_of task_completed = "housekeeping.task_completed"
event_of _ = "housekeeping.task_advanced"

-- `advance`
unfoldable pub advance : Auth → Key → M HousekeepingTask
unfolding log emit
advance auth id = do
  task ← require (← gets (λ db. find (is_task_of auth id) db.tasks)) (not_found task_not_found)
  room ← require (← gets (λ db. find (λ r. r.id == task.room_id) db.rooms)) crash
  next ← require (next_status task.status) (bad_request task_final)
  now ← gets (λ db. db.now)
  modify (λ db. record db {
    tasks = update_where (λ t. t.id == task.id) (advanced_row now next) db.tasks;
  })
  when (not (is_occupied room.operational_status)) (modify (clean_room task.room_id next))
  log auth "housekeeping.task_advanced" "housekeeping_task" task.id (some task.property_id) (
      ("room", text room.room_number)
      ∷ ("from", text (status_text task.status))
      ∷ ("to", text (status_text next))
      ∷ [])
  emit auth.tenant_id "housekeeping_task" task.id (event_of next) (
      ("room", text room.room_number)
      ∷ ("type", text task.type)
      ∷ ("status", text (status_text next))
      ∷ [])
  pure (advanced_row now next task)
