-- ===== src/Housekeeping/Assigned.antt =====
-- Who is told of a task.
use lodgiva.Common.{
  true, false, ◌∷◌, ◌≡◌, refl, arith, ◌==◌, find, update_where, Bool-cases, Option-cases, inl, inr,
}
use lodgiva.Common.Search.{find-eq-some}
use lodgiva.Common.Members.{Member, find-Member}
use lodgiva.Store.{Key, OutboxEvent, Membership, Room, HousekeepingTask, Db, ok}
use lodgiva.Access.{Auth}
use lodgiva.Housekeeping.{is_task_of}
use lodgiva.Housekeeping.Tasks.{
  Assign, is_finished, is_member_of, assignment_payload, assigned_row, assign,
}

-- A task was given to a member of staff, who is notified.
pub record Assigned (auth : Auth) (id : Key) (dto : Assign) (t : HousekeepingTask) (db db' : Db)
    : Type 0 where
  pub task : HousekeepingTask
  pub room : Room
  pub member : Membership
  pub event : OutboxEvent
  pub found : Member task db.tasks
  pub same_id : task.id ≡ id
  pub same_tenant : task.tenant_id ≡ auth.tenant_id
  pub unfinished : is_finished task.status ≡ false
  pub member_found : Member member db.memberships
  pub its_tenant : member.tenant_id ≡ auth.tenant_id
  pub its_user : member.user_id ≡ dto.assigned_user_id
  pub is_staff : member.is_active_member ≡ true
  pub result : t ≡ assigned_row dto member task
  pub tasks : db'.tasks ≡ update_where (λ x. x.id == task.id) (assigned_row dto member) db.tasks
  pub outbox : db'.outbox ≡ event ∷ db.outbox
  pub about : event.aggregate_id ≡ task.id
  pub tells : event.payload ≡ assignment_payload dto.assigned_user_id task room
  pub rooms : db'.rooms ≡ db.rooms

-- Only an unfinished task of the tenant is assigned, and only to an active member of the tenant; its
-- row alone is rewritten, one event notifies the member, and no room changes.
pub assign-Assigned :
    (auth : Auth) (id : Key) (dto : Assign) (db : Db) (t : HousekeepingTask) (db' : Db)
    → assign auth id dto db ≡ ok (t, db')
    → Assigned auth id dto t db db'
unfolding assign
assign-Assigned auth id dto db t db' h = elim (Option-cases (find (is_task_of auth id) db.tasks)) [
  | inl missing ↦ absurd (ground arith)
  | inr (task, r1) ↦ elim (Option-cases (find (λ r. r.id == task.room_id) db.rooms)) [
    | inl missing ↦ absurd (ground arith)
    | inr (room, r2) ↦
        elim (Option-cases (find (is_member_of auth dto.assigned_user_id) db.memberships)) [
          | inl missing ↦ absurd (elim (Bool-cases (is_finished task.status)) [
            | inl over ↦ ground arith
            | inr before ↦ ground arith
          ])
          | inr (member, r3) ↦ elim (Bool-cases (is_finished task.status)) [
            | inl over ↦ absurd (ground arith)
            | inr before ↦
                let test = find-eq-some _ db.tasks task r1 in
                let test_member = find-eq-some _ db.memberships member r3 in
                record {
                  task = task;
                  room = room;
                  member = member;
                  event = record {
                    tenant_id = auth.tenant_id;
                    aggregate_type = "housekeeping_task";
                    aggregate_id = task.id;
                    event_type = "housekeeping.task_assigned";
                    payload = assignment_payload dto.assigned_user_id task room;
                  };
                  found = find-Member _ db.tasks task r1;
                  same_id = ground arith;
                  same_tenant = ground arith;
                  unfinished = before;
                  member_found = find-Member _ db.memberships member r3;
                  its_tenant = ground arith;
                  its_user = ground arith;
                  is_staff = ground arith;
                  result = ground arith;
                  tasks = ground arith;
                  outbox = ground arith;
                  about = refl;
                  tells = refl;
                  rooms = ground arith;
                }
          ]
        ]
  ]
]
