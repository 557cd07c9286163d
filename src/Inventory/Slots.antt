-- ===== src/Inventory/Slots.antt =====
-- Allocation keeps the slots apart, and claims one for every night.
use lodgiva.Common.{
  ℕ, zero, suc, ◌+◌, ◌<◌, ◌≤◌, Bool, true, false, Option, some, List, [], ◌∷◌, ◌≡◌, ◌≢◌, refl, sym,
  ap, ◌∙◌, subst, arith, ◌==◌, find, any, contains, update_where, All, inl, inr, Option-cases,
  Bool-cases, if◌then◌else◌,
}
use lodgiva.Common.Sorting.{Pairs}
use lodgiva.Store.{Key, IsoDate, Allocation, Db, Error, ok, err, Result-cases}
use lodgiva.Inventory.{StayInput, is_slot, is_stale, allocation_row, reclaim, try_slot, place}

-- Two rows differ in room type, date or slot.
abbrev pub Differ : Allocation → Allocation → Type 0
Differ a b = is_slot a.room_type_id a.date a.slot_index b ≡ false

-- What the unique index promises of the table.
abbrev pub UniqueSlots : List Allocation → Type 0
UniqueSlots = Pairs Differ

module _ (p : Allocation → Bool) (f : Allocation → Allocation)
    (keeps : (x : Allocation)
      → ((f x).room_type_id ≡ x.room_type_id)
        × ((f x).date ≡ x.date)
        × ((f x).slot_index ≡ x.slot_index)) where
  Differ-updated :
      (a x : Allocation) → Differ a x → Differ (if p a then f a else a) (if p x then f x else x)
  Differ-updated a x h = ground (arith, keeps a, keeps x)

  All-updated :
      (a : Allocation) (l : List Allocation)
      → All (Differ a) l
      → All (Differ (if p a then f a else a)) (update_where p f l)
  All-updated a [] h = tt
  All-updated a (x ∷ l) h = (Differ-updated a x h.0, All-updated a l h.1)

  UniqueSlots-update_where :
      (l : List Allocation) → UniqueSlots l → UniqueSlots (update_where p f l)
  UniqueSlots-update_where [] h = tt
  UniqueSlots-update_where (a ∷ l) h = (All-updated a l h.0, UniqueSlots-update_where l h.1)

All-of_any :
    (q : Allocation → Bool) (l : List Allocation) → any q l ≡ false → All (λ x. q x ≡ false) l
All-of_any q [] h = tt
All-of_any q (x ∷ l) h = (ground arith, All-of_any q l (ground arith))

-- An allocation keeps the rooms and their blocks, and two slots that were different.
pub record Frame (db db' : Db) : Type 0 where
  pub unique : UniqueSlots db.allocations → UniqueSlots db'.allocations
  pub rooms : db'.rooms ≡ db.rooms
  pub blocks : db'.blocks ≡ db.blocks
  pub reservations : db'.reservations ≡ db.reservations
  pub stays : db'.reservation_rooms ≡ db.reservation_rooms
  pub holds : db'.holds ≡ db.holds
  pub ids : db.next_id ≤ db'.next_id

pub Frame-trans : {a b c : Db} → Frame a b → Frame b c → Frame a c
Frame-trans f g = record {
  unique = λ u. g.unique (f.unique u);
  rooms = g.rooms ∙ f.rooms;
  blocks = g.blocks ∙ f.blocks;
  reservations = g.reservations ∙ f.reservations;
  stays = g.stays ∙ f.stays;
  holds = g.holds ∙ f.holds;
  ids = omega (arith, f.ids, g.ids);
}

pub Frame-eq : {a b : Db} → b ≡ a → Frame a b
Frame-eq h = record {
  unique = λ u. subst (λ d. UniqueSlots d.allocations) (sym h) u;
  rooms = ap (λ d. d.rooms) h;
  blocks = ap (λ d. d.blocks) h;
  reservations = ap (λ d. d.reservations) h;
  stays = ap (λ d. d.reservation_rooms) h;
  holds = ap (λ d. d.holds) h;
  ids = omega (arith, ap (λ d. d.next_id) h);
}

pub Frame-update :
    (db db' : Db) (id : Key) (f : Allocation → Allocation)
    → ((x : Allocation)
        → ((f x).room_type_id ≡ x.room_type_id)
          × ((f x).date ≡ x.date)
          × ((f x).slot_index ≡ x.slot_index))
    → (db'.allocations ≡ update_where (λ a. a.id == id) f db.allocations)
      × (db'.rooms ≡ db.rooms)
      × (db'.blocks ≡ db.blocks)
      × (db'.reservations ≡ db.reservations)
      × (db'.reservation_rooms ≡ db.reservation_rooms)
      × (db'.holds ≡ db.holds)
      × (db'.next_id ≡ db.next_id)
    → Frame db db'
Frame-update db db' id f keeps (e, r, b, x, y, z, n) = record {
  unique = λ u. subst UniqueSlots (sym e) (UniqueSlots-update_where _ f keeps db.allocations u);
  rooms = r;
  blocks = b;
  reservations = x;
  stays = y;
  holds = z;
  ids = omega (arith, n);
}

try_slot-Frame :
    (input : StayInput) (date : IsoDate) (slot : ℕ) (db db' : Db) (placed : Bool)
    → try_slot input date slot db ≡ ok (placed, db')
    → Frame db db'
unfolding try_slot
try_slot-Frame input date slot db db' placed h =
    elim (Bool-cases (any (is_slot input.room_type_id date slot) db.allocations)) [
      | inl clash ↦
          elim (Option-cases
            (find (is_stale db.now db.holds input.room_type_id date slot) db.allocations)) [
              | inl fresh ↦ Frame-eq (ground arith)
              | inr (stale, found) ↦
                  Frame-update db db' stale.id (reclaim input) (λ x. (refl, refl, refl))
                    (ground arith)
            ]
      | inr clear ↦
          let row = allocation_row input date slot db.next_id in
          let facts : (db'.allocations ≡ row ∷ db.allocations)
              × (db'.rooms ≡ db.rooms)
              × (db'.blocks ≡ db.blocks)
              × (db'.reservations ≡ db.reservations)
              × (db'.reservation_rooms ≡ db.reservation_rooms)
              × (db'.holds ≡ db.holds)
              × (db'.next_id ≡ db.next_id + 1) =
            ground arith in
          record {
            unique = λ u. rw facts.0 (All-of_any _ db.allocations clear, u);
            rooms = facts.1;
            blocks = facts.2;
            reservations = facts.3;
            stays = facts.4;
            holds = facts.5;
            ids = omega (arith, facts.6);
          }
    ]

-- The loop over the slots stays below its end.
pub place_lem :
    (input : StayInput) (date : IsoDate) (taken : List ℕ) (left slot : ℕ) (db db' : Db)
    (o : Option ℕ)
    → place input date taken slot left db ≡ ok (o, db')
    → Frame db db' × ((s : ℕ) → o ≡ some s → s < slot + left)
unfolding place
place_lem input date taken zero slot db db' o h =
    (Frame-eq (ground arith), λ s e. absurd (ground arith))
place_lem input date taken (suc left) slot db db' o h = elim (Bool-cases (contains slot taken)) [
  | inl full ↦
      let (f, below) = place_lem input date taken left (suc slot) db db' o (ground arith) in
      (f, λ s e. omega (arith, below s e))
  | inr clear ↦ elim (Result-cases (try_slot input date slot db)) [
    | inr (e, failed) ↦ absurd (ground arith)
    | inl ((true, mid), ran) ↦
        let facts : (db' ≡ mid) × (o ≡ some slot) = ground arith in
        (
          subst (λ d. Frame db d) (sym facts.0) (try_slot-Frame input date slot db mid true ran),
          λ s e. ground arith,
        )
    | inl ((false, mid), ran) ↦
        let (f, below) = place_lem input date taken left (suc slot) mid db' o (ground arith) in
        (
          Frame-trans (try_slot-Frame input date slot db mid false ran) f,
          λ s e. omega (arith, below s e),
        )
  ]
]

try_slot_answers :
    (input : StayInput) (date : IsoDate) (slot : ℕ) (db : Db) (e : Error)
    → try_slot input date slot db ≢ err e
unfolding try_slot
try_slot_answers input date slot db e h =
    elim (Bool-cases (any (is_slot input.room_type_id date slot) db.allocations)) [
      | inl clash ↦
          elim (Option-cases
            (find (is_stale db.now db.holds input.room_type_id date slot) db.allocations)) [
              | inl fresh ↦ ground arith
              | inr (stale, found) ↦ ground arith
            ]
      | inr clear ↦ ground arith
    ]

-- A slot is lost only to a row that stands on it.
try_slot_lost :
    (input : StayInput) (date : IsoDate) (slot : ℕ) (db mid : Db)
    → try_slot input date slot db ≡ ok (false, mid)
    → (mid ≡ db) × (any (is_slot input.room_type_id date slot) db.allocations ≡ true)
unfolding try_slot
try_slot_lost input date slot db mid h =
    elim (Bool-cases (any (is_slot input.room_type_id date slot) db.allocations)) [
      | inl clash ↦
          elim (Option-cases
            (find (is_stale db.now db.holds input.room_type_id date slot) db.allocations)) [
              | inl fresh ↦ (ground arith, clash)
              | inr (stale, found) ↦ absurd (ground arith)
            ]
      | inr clear ↦ absurd (ground arith)
    ]

pub place_finds :
    (input : StayInput) (date : IsoDate) (taken : List ℕ) (left slot s : ℕ) (db : Db)
    → slot ≤ s
    → s < slot + left
    → contains s taken ≡ false
    → any (is_slot input.room_type_id date s) db.allocations ≡ false
    → (t : ℕ) × (db' : Db) × (place input date taken slot left db ≡ ok (some t, db'))
unfolding place
place_finds input date taken zero slot s db l u free clear = absurd (omega arith)
place_finds input date taken (suc left) slot s db l u free clear =
    elim (Bool-cases (contains slot taken)) [
      | inl full ↦
          let other : slot ≢ s = λ e. ground (arith, subst (λ n. contains n taken ≡ true) e full) in
          let (t, db', ran) =
            place_finds input date taken left (suc slot) s db (omega (arith, other)) (omega arith)
              free clear in
          (t, db', ground (arith, full, ran))
      | inr gap ↦ elim (Result-cases (try_slot input date slot db)) [
        | inr (e, failed) ↦ absurd (try_slot_answers input date slot db e failed)
        | inl ((true, mid), ran) ↦ (slot, mid, ground (arith, gap, ran))
        | inl ((false, mid), ran) ↦
            let lost = try_slot_lost input date slot db mid ran in
            let other : slot ≢ s = λ e. ground (
              arith,
              subst (λ n. any (is_slot input.room_type_id date n) db.allocations ≡ true) e lost.1,
            ) in
            let (t, db', later) =
              place_finds input date taken left (suc slot) s db (omega (arith, other)) (omega arith)
                free clear in
            (t, db', ground (arith, gap, ran, lost.0, later))
      ]
    ]
