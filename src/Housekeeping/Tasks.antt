-- ===== src/Housekeeping/Tasks.antt =====
-- `create` and `assign` of apps/api/src/modules/housekeeping.module.ts, and `queueAssignment` of
-- apps/api/src/modules/push.module.ts, which they notify a member of staff by.
use lodgiva.Common.{
  ◌+◌, Bool, true, false, ◌&&◌, Option, none, some, List, [], ◌∷◌, String, ◌==◌, find, update_where,
  or_else,
}
use lodgiva.Store.{
  Key, IsoDate, TaskStatus, task_pending, task_completed, task_inspected, text, ident, Json, Room,
  HousekeepingTask, Membership, M, pure, gets, require, modify, fresh, throw_if, ◌>>=◌, ◌>>◌,
  bad_request, not_found, crash, property_not_found, task_not_found, task_finished,
  assignee_not_found,
}
use lodgiva.Access.{Auth, log, emit}
use lodgiva.Housekeeping.{is_task_of}

-- `createTaskSchema`
pub record CreateTask : Type 0 where
  pub property_id : Key
  pub room_id : Key
  pub type : String
  pub priority : String
  pub assigned_to : Option String
  pub assigned_user_id : Option Key
  pub notes : Option String

-- `assignSchema`
pub record Assign : Type 0 where
  pub assigned_user_id : Key
  pub assigned_to : Option String

-- The payload of the event that notifies a member of staff.
abbrev pub assignment_payload : Key → HousekeepingTask → Room → List (String × Json)
assignment_payload user_id task room =
    ("userId", ident user_id)
    ∷ ("taskId", ident task.id)
    ∷ ("roomNumber", text room.room_number)
    ∷ ("taskType", text task.type)
    ∷ ("priority", text task.priority)
    ∷ []

unfoldable pub queue_assignment : Key → Key → HousekeepingTask → Room → M (Unit {0})
unfolding emit
queue_assignment tenant_id user_id task room =
    emit tenant_id "housekeeping_task" task.id "housekeeping.task_assigned"
      (assignment_payload user_id task room)

abbrev pub task_row : Auth → CreateTask → IsoDate → Key → HousekeepingTask
task_row auth dto date id = record {
  id = id;
  tenant_id = auth.tenant_id;
  property_id = dto.property_id;
  room_id = dto.room_id;
  business_date = date;
  type = dto.type;
  priority = dto.priority;
  assigned_to = dto.assigned_to;
  assigned_user_id = dto.assigned_user_id;
  notes = dto.notes;
  status = task_pending;
  started_at = none;
  completed_at = none;
  version = 1;
}

-- `if (dto.assignedUserId)`
unfoldable pub notify : Key → Option Key → HousekeepingTask → Room → M (Unit {0})
unfolding queue_assignment
notify tenant_id none task room = pure tt
notify tenant_id (some user_id) task room = queue_assignment tenant_id user_id task room

-- `create`; the foreign key of the room refuses an id that no room has.
unfoldable pub create_task : Auth → CreateTask → M HousekeepingTask
unfolding notify
create_task auth dto = do
  property ←
      require
        (← gets (λ db.
          find (λ p. p.id == dto.property_id && p.tenant_id == auth.tenant_id) db.properties))
        (not_found property_not_found)
  room ← require (← gets (λ db. find (λ r. r.id == dto.room_id) db.rooms)) crash
  id ← fresh
  let task = task_row auth dto property.business_date id
  modify (λ db. record db { tasks = task ∷ db.tasks })
  notify auth.tenant_id dto.assigned_user_id task room
  pure task

-- `["COMPLETED", "INSPECTED"].includes(task.status)`
abbrev pub is_finished : TaskStatus → Bool
is_finished task_completed = true
is_finished task_inspected = true
is_finished _ = false

-- An active member of the tenant, by its user.
abbrev pub is_member_of : Auth → Key → Membership → Bool
is_member_of auth user_id m =
    m.tenant_id == auth.tenant_id && (m.user_id == user_id && m.is_active_member)

-- The columns that `assign` updates.
abbrev pub assigned_row : Assign → Membership → HousekeepingTask → HousekeepingTask
assigned_row dto member t = record t {
  assigned_user_id = some dto.assigned_user_id;
  assigned_to = some (or_else dto.assigned_to member.full_name);
  version = t.version + 1;
}

-- `assign`
unfoldable pub assign : Auth → Key → Assign → M HousekeepingTask
unfolding queue_assignment log
assign auth id dto = do
  task ← require (← gets (λ db. find (is_task_of auth id) db.tasks)) (not_found task_not_found)
  room ← require (← gets (λ db. find (λ r. r.id == task.room_id) db.rooms)) crash
  throw_if (is_finished task.status) (bad_request task_finished)
  member ←
      require (← gets (λ db. find (is_member_of auth dto.assigned_user_id) db.memberships))
        (not_found assignee_not_found)
  modify (λ db. record db {
    tasks = update_where (λ t. t.id == task.id) (assigned_row dto member) db.tasks;
  })
  queue_assignment auth.tenant_id dto.assigned_user_id task room
  log auth "housekeeping.task_assigned" "housekeeping_task" task.id (some task.property_id)
      (("room", text room.room_number) ∷ ("assignedTo", text member.full_name) ∷ [])
  pure (assigned_row dto member task)
