-- ===== src/Housekeeping/Advance.antt =====
-- What moving a task on does to the task and to its room.
use lodgiva.Common.{
  true, false, some, ◌≡◌, arith, ◌==◌, find, update_where, Bool-cases, Option-cases, ◌⊎◌, inl, inr,
}
use lodgiva.Common.Search.{find-eq-some}
use lodgiva.Common.Members.{Member, find-Member}
use lodgiva.Store.{Key, is_occupied, TaskStatus, Room, HousekeepingTask, Db, ok}
use lodgiva.Access.{Auth}
use lodgiva.Housekeeping.{next_status, is_task_of, advanced_row, clean_room, advance}

-- A task has moved on by one, and its room, where nobody is in it, with it.
pub record Advanced (auth : Auth) (id : Key) (t : HousekeepingTask) (db db' : Db) : Type 0 where
  pub task : HousekeepingTask
  pub room : Room
  pub next : TaskStatus
  pub found : Member task db.tasks
  pub same_id : task.id ≡ id
  pub same_tenant : task.tenant_id ≡ auth.tenant_id
  pub room_found : Member room db.rooms
  pub its_room : room.id ≡ task.room_id
  pub in_flow : next_status task.status ≡ some next
  pub result : t ≡ advanced_row db.now next task
  pub tasks : db'.tasks ≡ update_where (λ x. x.id == task.id) (advanced_row db.now next) db.tasks
  pub rooms :
      ((is_occupied room.operational_status ≡ true) × (db'.rooms ≡ db.rooms))
      ⊎ ((is_occupied room.operational_status ≡ false)
          × (db'.rooms ≡ (clean_room task.room_id next db).rooms))

-- A task of the tenant moves on by one state of the flow. Its room, where it is not occupied, becomes
-- clean with a completed task and inspected with an inspected one, whatever its state was, out of
-- order included; an occupied room and all other rooms and tasks stay as they were.
pub advance-Advanced :
    (auth : Auth) (id : Key) (db : Db) (t : HousekeepingTask) (db' : Db)
    → advance auth id db ≡ ok (t, db')
    → Advanced auth id t db db'
unfolding advance
advance-Advanced auth id db t db' h = elim (Option-cases (find (is_task_of auth id) db.tasks)) [
  | inl missing ↦ absurd (ground arith)
  | inr (task, r1) ↦ elim (Option-cases (find (λ r. r.id == task.room_id) db.rooms)) [
    | inl missing ↦ absurd (ground arith)
    | inr (room, r2) ↦ elim (Option-cases (next_status task.status)) [
      | inl final ↦ absurd (ground arith)
      | inr (next, r3) ↦
          let test = find-eq-some _ db.tasks task r1 in
          let test_room = find-eq-some _ db.rooms room r2 in
          record {
            task = task;
            room = room;
            next = next;
            found = find-Member _ db.tasks task r1;
            same_id = ground arith;
            same_tenant = ground arith;
            room_found = find-Member _ db.rooms room r2;
            its_room = ground arith;
            in_flow = r3;
            result = ground arith;
            tasks = ground arith;
            rooms = elim (Bool-cases (is_occupied room.operational_status)) [
              | inl inside ↦ inl (inside, ground arith)
              | inr vacant ↦ inr (vacant, ground arith)
            ];
          }
    ]
  ]
]
