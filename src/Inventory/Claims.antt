-- ===== src/Inventory/Claims.antt =====
-- A night that is claimed is a row of the table, and later claims of the stay leave it.
use lodgiva.Common.{
  ℕ, zero, suc, Bool, true, false, Option, none, some, List, [], ◌∷◌, ◌≡◌, refl, sym, subst, arith,
  ◌==◌, find, any, contains, update_where, Any, ◌⊎◌, inl, inr, Option-cases, Bool-cases,
}
use lodgiva.Common.Members.{Member, find-Member}
use lodgiva.Common.Search.{find-eq-some}
use lodgiva.Store.{Key, IsoDate, Allocation, Db, ok, Result-cases}
use lodgiva.Inventory.{
  StayInput, is_slot, is_stale, allocation_row, reclaim, take_over, owned_row, is_owned, try_slot,
  place,
}

-- The row is for the one that claims: for the hold or the stay that the input names, or, where a hold
-- is consumed, taken over from it for the stay.
abbrev pub For : StayInput → Allocation → Type 0
For input a =
    ((a.hold_id ≡ input.hold_id) × (a.reservation_room_id ≡ input.reservation_room_id))
    ⊎ ((k : Key) × (input.consuming_hold_id ≡ some k)
        × (a.hold_id ≡ none)
        × ((input.reservation_room_id ≡ none)
            ⊎ (a.reservation_room_id ≡ input.reservation_room_id)))

-- The row of a night and a slot.
abbrev pub At : StayInput → IsoDate × ℕ → Allocation → Type 0
At input c a = (a.room_type_id ≡ input.room_type_id) × (a.date ≡ c.0) × (a.slot_index ≡ c.1)

-- A row of the table stands for the claim.
abbrev pub Claimed : StayInput → Db → IsoDate × ℕ → Type 0
Claimed input db c = Any (λ a. At input c a × For input a) db.allocations

-- Claims that stood still stand.
abbrev pub Standing : StayInput → Db → Db → Type 0
Standing input db db' = (c : IsoDate × ℕ) → Claimed input db c → Claimed input db' c

-- An update of rows for the one that claims.
abbrev Claims : StayInput → (Allocation → Allocation) → Type 0
Claims input f =
    (a : Allocation)
    → ((f a).room_type_id ≡ a.room_type_id)
      × ((f a).date ≡ a.date)
      × ((f a).slot_index ≡ a.slot_index)
      × For input (f a)

reclaim-Claims : (input : StayInput) → Claims input (reclaim input)
reclaim-Claims input a = (refl, refl, refl, inl (refl, refl))

take_over-Claims :
    (input : StayInput) (k : Key)
    → input.consuming_hold_id ≡ some k
    → Claims input (take_over input)
take_over-Claims input k e a = (refl, refl, refl, inr (k, e, refl, given))
  where
    given :
        (input.reservation_room_id ≡ none)
        ⊎ ((take_over input a).reservation_room_id ≡ input.reservation_room_id)
    given = elim (Option-cases input.reservation_room_id) [
      | inl missing ↦ inl missing
      | inr (id, its) ↦ inr (ground (arith, its))
    ]

module _ (input : StayInput) (f : Allocation → Allocation) (claims : Claims input f)
    (q : Allocation → Bool) (c : IsoDate × ℕ) where
  At-updated : (a : Allocation) → At input c a → At input c (f a)
  At-updated a h = ground (arith, claims a, h)

  Any-updated :
      (l : List Allocation)
      → Any (λ a. At input c a × For input a) l
      → Any (λ a. At input c a × For input a) (update_where q f l)
  Any-updated [] h = absurd h
  Any-updated (a ∷ l) (inl (at, for)) = elim (Bool-cases (q a)) [
    | inl hit ↦ rw hit (inl (At-updated a at, (claims a).3))
    | inr miss ↦ rw miss (inl (at, for))
  ]
  Any-updated (a ∷ l) (inr h) = inr (Any-updated l h)

  -- The row that is updated is claimed.
  Any-claimed :
      (l : List Allocation) (a : Allocation)
      → Member a l
      → q a ≡ true
      → At input c a
      → Any (λ x. At input c x × For input x) (update_where q f l)
  Any-claimed [] a m hit at = absurd m
  Any-claimed (x ∷ l) a (inl e) hit at =
      let hits : q x ≡ true = subst (λ y. q y ≡ true) (sym e) hit in
      let here : At input c x = subst (λ y. At input c y) (sym e) at in
      rw hits (inl (At-updated x here, (claims x).3))
  Any-claimed (x ∷ l) a (inr m) hit at = inr (Any-claimed l a m hit at)

-- An attempt at a slot leaves the claims, and where it succeeds its row stands.
try_slot-Claimed :
    (input : StayInput) (date : IsoDate) (slot : ℕ) (db db' : Db) (placed : Bool)
    → try_slot input date slot db ≡ ok (placed, db')
    → Standing input db db' × (placed ≡ true → Claimed input db' (date, slot))
unfolding try_slot
try_slot-Claimed input date slot db db' placed h =
    elim (Bool-cases (any (is_slot input.room_type_id date slot) db.allocations)) [
      | inl clash ↦
          elim (Option-cases
            (find (is_stale db.now db.holds input.room_type_id date slot) db.allocations)) [
              | inl fresh ↦
                  let facts : (db' ≡ db) × (placed ≡ false) = ground arith in
                  (
                    λ c k. subst (λ d. Claimed input d c) (sym facts.0) k,
                    λ e. absurd (ground (arith, e)),
                  )
              | inr (stale, found) ↦
                  let same : db'.allocations
                      ≡ update_where (λ a. a.id == stale.id) (reclaim input) db.allocations =
                    ground arith in
                  let test = find-eq-some _ db.allocations stale found in
                  let here : (stale.id == stale.id) ≡ true = ground arith in
                  let at : At input (date, slot) stale = ground (arith, test) in
                  (
                    λ c k. rw same (
                        Any-updated input (reclaim input) (reclaim-Claims input)
                          (λ a. a.id == stale.id) c db.allocations k),
                    λ e. rw same (
                        Any-claimed input (reclaim input) (reclaim-Claims input)
                          (λ a. a.id == stale.id) (date, slot) db.allocations stale
                          (find-Member _ db.allocations stale found) here at),
                  )
            ]
      | inr clear ↦
          let same : db'.allocations ≡ allocation_row input date slot db.next_id ∷ db.allocations =
            ground arith in
          (λ c k. rw same (inr k), λ e. rw same (inl ((refl, refl, refl), inl (refl, refl))))
    ]

pub place-Claimed :
    (input : StayInput) (date : IsoDate) (taken : List ℕ) (left slot : ℕ) (db db' : Db)
    (o : Option ℕ)
    → place input date taken slot left db ≡ ok (o, db')
    → Standing input db db' × ((s : ℕ) → o ≡ some s → Claimed input db' (date, s))
unfolding place
place-Claimed input date taken zero slot db db' o h =
    let same : db' ≡ db = ground arith in
    (λ c k. subst (λ d. Claimed input d c) (sym same) k, λ s e. absurd (ground arith))
place-Claimed input date taken (suc left) slot db db' o h =
    elim (Bool-cases (contains slot taken)) [
      | inl full ↦ place-Claimed input date taken left (suc slot) db db' o (ground arith)
      | inr clear ↦ elim (Result-cases (try_slot input date slot db)) [
        | inr (e, failed) ↦ absurd (ground arith)
        | inl ((true, mid), ran) ↦
            let facts : (db' ≡ mid) × (o ≡ some slot) = ground arith in
            let (kept, stands) = try_slot-Claimed input date slot db mid true ran in
            (
              λ c k. subst (λ d. Claimed input d c) (sym facts.0) (kept c k),
              λ s e.
                  let its : slot ≡ s = ground (arith, facts.1, e) in
                  subst (λ n. Claimed input db' (date, n)) its
                    (subst (λ d. Claimed input d (date, slot)) (sym facts.0) (stands refl)),
            )
        | inl ((false, mid), ran) ↦
            let (kept, _) = try_slot-Claimed input date slot db mid false ran in
            let (later, stands) =
              place-Claimed input date taken left (suc slot) mid db' o (ground arith) in
            (λ c k. later c (kept c k), stands)
      ]
    ]

-- A hold's row that is taken over for the stay.
pub owned_row-Claimed :
    (input : StayInput) (date : IsoDate) (db db' : Db) (row : Allocation)
    → owned_row input date db.allocations ≡ some row
    → db'.allocations ≡ update_where (λ a. a.id == row.id) (take_over input) db.allocations
    → Standing input db db' × Claimed input db' (date, row.slot_index)
owned_row-Claimed input date db db' row owned same = elim (Option-cases input.consuming_hold_id) [
  | inl fresh ↦ absurd (ground (arith, fresh))
  | inr (k, e) ↦
      let found : find (is_owned input date k) db.allocations ≡ some row = ground (arith, e) in
      let test = find-eq-some _ db.allocations row found in
      let here : (row.id == row.id) ≡ true = ground arith in
      let at : At input (date, row.slot_index) row = ground (arith, test) in
      (
        λ c x. rw same (
            Any-updated input (take_over input) (take_over-Claims input k e) (λ a. a.id == row.id) c
              db.allocations x),
        rw same (
            Any-claimed input (take_over input) (take_over-Claims input k e) (λ a. a.id == row.id)
              (date, row.slot_index) db.allocations row (find-Member _ db.allocations row found)
              here at),
      )
]
