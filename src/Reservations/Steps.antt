-- ===== src/Reservations/Steps.antt =====
-- Any sequence of operations on reservations: create, checkIn, roomMove, extendStay, modify,
-- assignRoom, cancel, noShow, and checkOut with both of its outcomes. An operation that throws leaves
-- its transaction undone; a refused check-out keeps the nights that it posted.
use lodgiva.Common.{ℕ, Bool, Option, List, String, ◌≡◌, ◌∙◌, ◌++◌}
use lodgiva.Common.Members.{Member}
use lodgiva.Store.{Key, IsoDate, Reservation, Room, Db, Error, ok, err}
use lodgiva.Access.{Auth}
use lodgiva.Reservations.Creation.{CreateReservation, create}
use lodgiva.Reservations.Arrival.{CheckIn, check_in}
use lodgiva.Reservations.Departure.{CheckOut, check_out}
use lodgiva.Reservations.Moves.{RoomMove, room_move, ExtendStay, extend_stay, assign_room}
use lodgiva.Reservations.Changes.{Modify, modify_stay, cancel, mark_no_show}
use lodgiva.Reservations.CheckIn.{check_in-Arrived, Arrived-Touch}
use lodgiva.Reservations.InHouse.{room_move-Moved, Moved-Touch}
use lodgiva.Reservations.Extension.{extend_stay-Extended, Extended-Touch}
use lodgiva.Reservations.Rebooked.{assign_room-Effect, modify_stay-Effect}
use lodgiva.Reservations.Endings.{cancel-Ended, mark_no_show-Ended, Ended-Effect}
use lodgiva.Reservations.Created.{create-Created}
use lodgiva.Reservations.Outcomes.{
  check_out-SettledOut, check_out-refused, LedgerOnly-Effect, SettledOut-Effect,
}
use lodgiva.Reservations.House.{Safe, Effect, touched, born}
use lodgiva.Reservations.House.Others.{Effect-Safe}
use lodgiva.Reservations.House.Fate.{Fate, Effect-Fate, History-append, kept-Fate}

-- What stands outside the program: the text of a date and of code points, the order of texts, and
-- the hash.
pub record World : Type 0 where
  pub iso : IsoDate → String
  pub spell : List ℕ → String
  pub before : String → String → Bool
  pub sha256 : String → String

-- One operation that went through, or a check-out that was refused.
pub data Step (w : World) : Db → Db → Type 0 where
  create_step :
      {db db' : Db} (rand : ℕ → ℕ → ℕ) (auth : Auth) (dto : CreateReservation) (r : Reservation)
      → create w.sha256 rand auth dto db ≡ ok (r, db')
      → Step w db db'
  check_in_step :
      {db db' : Db} (auth : Auth) (id : Key) (dto : CheckIn) (r : Reservation)
      → check_in w.before auth id dto db ≡ ok (r, db')
      → Step w db db'
  check_out_step :
      {db db' : Db} (auth : Auth) (id : Key) (dto : CheckOut) (r : Reservation)
      → check_out w.iso w.spell auth id dto db ≡ (ok r, db')
      → Step w db db'
  refused_step :
      {db db' : Db} (auth : Auth) (id : Key) (dto : CheckOut) (e : Error)
      → check_out w.iso w.spell auth id dto db ≡ (err e, db')
      → Step w db db'
  room_move_step :
      {db db' : Db} (auth : Auth) (id : Key) (dto : RoomMove) (r : Reservation × String)
      → room_move w.spell auth id dto db ≡ ok (r, db')
      → Step w db db'
  extend_step :
      {db db' : Db} (auth : Auth) (id : Key) (dto : ExtendStay) (r : Reservation)
      → extend_stay auth id dto db ≡ ok (r, db')
      → Step w db db'
  modify_step :
      {db db' : Db} (auth : Auth) (id : Key) (dto : Modify) (r : Reservation)
      → modify_stay auth id dto db ≡ ok (r, db')
      → Step w db db'
  assign_step :
      {db db' : Db} (auth : Auth) (id : Key) (room_id : Option Key) (r : Room)
      → assign_room w.before auth id room_id db ≡ ok (r, db')
      → Step w db db'
  cancel_step :
      {db db' : Db} (auth : Auth) (id : Key) (reason : String) (r : Reservation)
      → cancel auth id reason db ≡ ok (r, db')
      → Step w db db'
  no_show_step :
      {db db' : Db} (auth : Auth) (id : Key) (r : Reservation)
      → mark_no_show auth id db ≡ ok (r, db')
      → Step w db db'

-- Operations one after the other.
pub data Steps (w : World) : Db → Db → Type 0 where
  still : {db : Db} → Steps w db db
  after : {a b c : Db} → Step w a b → Steps w b c → Steps w a c

-- The effects of operations, one after the other.
pub data Effects : Db → Db → Type 0 where
  none_more : {db : Db} → Effects db db
  first : {a b c : Db} → Effect a b → Effects b c → Effects a c

one : {a b : Db} → Effect a b → Effects a b
one e = first e none_more

Effects-append : {a b c : Db} → Effects a b → Effects b c → Effects a c
Effects-append none_more l = l
Effects-append (first e k) l = first e (Effects-append k l)

-- A step is made of such effects: a check-out posts, and then settles.
Step-Effects : (w : World) {db db' : Db} → Step w db db' → Effects db db'
Step-Effects w {db} {db'} (create_step rand auth dto r h) =
    one (born (create-Created w.sha256 rand auth dto db r db' h).birth)
Step-Effects w {db} {db'} (check_in_step auth id dto r h) =
    one (touched (Arrived-Touch (check_in-Arrived w.before auth id dto db r db' h)))
Step-Effects w {db} {db'} (check_out_step auth id dto r h) =
    let (mid, posted, left, _) = check_out-SettledOut w.iso w.spell auth id dto db r db' h in
    first (LedgerOnly-Effect posted) (one (SettledOut-Effect left))
Step-Effects w {db} {db'} (refused_step auth id dto e h) =
    one (LedgerOnly-Effect (check_out-refused w.iso w.spell auth id dto db e db' h))
Step-Effects w {db} {db'} (room_move_step auth id dto r h) =
    one (touched (Moved-Touch (room_move-Moved w.spell auth id dto db r db' h)))
Step-Effects w {db} {db'} (extend_step auth id dto r h) =
    one (touched (Extended-Touch (extend_stay-Extended auth id dto db r db' h)))
Step-Effects w {db} {db'} (modify_step auth id dto r h) =
    one (modify_stay-Effect auth id dto db r db' h)
Step-Effects w {db} {db'} (assign_step auth id room_id r h) =
    one (assign_room-Effect w.before auth id room_id db r db' h)
Step-Effects w {db} {db'} (cancel_step auth id reason r h) =
    one (Ended-Effect (cancel-Ended auth id reason db r db' h))
Step-Effects w {db} {db'} (no_show_step auth id r h) =
    one (Ended-Effect (mark_no_show-Ended auth id db r db' h))

Steps-Effects : (w : World) {db db' : Db} → Steps w db db' → Effects db db'
Steps-Effects w still = none_more
Steps-Effects w (after s l) = Effects-append (Step-Effects w s) (Steps-Effects w l)

Effects-Safe : {db db' : Db} → Safe db → Effects db db' → Safe db'
Effects-Safe safe none_more = safe
Effects-Safe safe (first e l) = Effects-Safe (Effect-Safe safe e) l

-- Whatever operations are made, in whatever order and by whomever, the house stays safe: ids stay
-- different, each reservation keeps one stay at most, a stay is in house only while its reservation
-- of the same tenant is checked in, and no room ever has two guests in house.
pub Steps-Safe : (w : World) (db db' : Db) → Steps w db db' → Safe db → Safe db'
Steps-Safe w db db' l safe = Effects-Safe safe (Steps-Effects w l)

Effects-Fate :
    {db db' : Db}
    → Safe db
    → Effects db db'
    → (r : Reservation) → Member r db.reservations
    → Fate r db'
Effects-Fate safe none_more r here = kept-Fate r here
Effects-Fate safe (first e l) r here =
    let now = Effect-Fate safe e r here in
    let afterwards = Effects-Fate (Effect-Safe safe e) l now.later now.found in
    record {
      later = afterwards.later;
      found = afterwards.found;
      same_id = afterwards.same_id ∙ now.same_id;
      same_tenant = afterwards.same_tenant ∙ now.same_tenant;
      states = now.states ++ afterwards.states;
      history = History-append now.history afterwards.history;
    }

-- The operations refine the state table: whatever operations are made, a reservation is never lost,
-- keeps its id and its tenant, and its state moves only along a history of legal transitions.
pub Steps-Fate :
    (w : World) (db db' : Db)
    → Steps w db db'
    → Safe db
    → (r : Reservation) → Member r db.reservations
    → Fate r db'
Steps-Fate w db db' l safe r here = Effects-Fate safe (Steps-Effects w l) r here
