-- ===== src/Booking/Sweep.antt =====
-- The sweep of lapsed holds that precedes a quote and a hold.
use lodgiva.Common.{
  ℕ, Bool, some, List, [], ◌∷◌, ◌≡◌, refl, subst, arith, filter, All, inl, inr, Bool-cases,
}
use lodgiva.Store.{Hold, Allocation, Db, ok}
use lodgiva.Access.{Auth}
use lodgiva.Inventory.{first_rows, is_overdue, expire_stale_holds, expire_holds, release_hold}
use lodgiva.Inventory.Slots.{UniqueSlots, Differ}

All-filter :
    (P : Allocation → Type 0) (q : Allocation → Bool) (l : List Allocation)
    → All P l
    → All P (filter q l)
All-filter P q [] h = tt
All-filter P q (x ∷ l) h = elim (Bool-cases (q x)) [
  | inl hit ↦ rw hit (h.0, All-filter P q l h.1)
  | inr miss ↦ rw miss (All-filter P q l h.1)
]

-- Freeing slots keeps the slots apart.
UniqueSlots-filter :
    (q : Allocation → Bool) (l : List Allocation) → UniqueSlots l → UniqueSlots (filter q l)
UniqueSlots-filter q [] h = tt
UniqueSlots-filter q (x ∷ l) h = elim (Bool-cases (q x)) [
  | inl hit ↦ rw hit (All-filter (Differ x) q l h.0, UniqueSlots-filter q l h.1)
  | inr miss ↦ rw miss (UniqueSlots-filter q l h.1)
]

-- The sweep of lapsed holds frees slots, and touches no room, reservation or stay.
pub record Swept (db db' : Db) : Type 0 where
  pub unique : UniqueSlots db.allocations → UniqueSlots db'.allocations
  pub rooms : db'.rooms ≡ db.rooms
  pub blocks : db'.blocks ≡ db.blocks
  pub reservations : db'.reservations ≡ db.reservations
  pub stays : db'.reservation_rooms ≡ db.reservation_rooms

expire_holds-Swept :
    (hs : List Hold) (db : Db) → (db' : Db) × (expire_holds hs db ≡ ok (tt, db')) × Swept db db'
unfolding expire_holds release_hold
expire_holds-Swept [] db = (
  db,
  refl,
  record { unique = λ u. u; rooms = refl; blocks = refl; reservations = refl; stays = refl },
)
expire_holds-Swept (h ∷ hs) db =
    let (end, ran, kept) = expire_holds-Swept hs _ in
    (
      end,
      ran,
      record {
        unique = λ u. kept.unique (UniqueSlots-filter _ db.allocations u);
        rooms = kept.rooms;
        blocks = kept.blocks;
        reservations = kept.reservations;
        stays = kept.stays;
      },
    )

pub expire_stale_holds-Swept :
    (auth : Auth) (db mid : Db) (n : ℕ)
    → expire_stale_holds (some auth.tenant_id) db ≡ ok (n, mid)
    → Swept db mid
unfolding expire_stale_holds
expire_stale_holds-Swept auth db mid n h =
    let (end, ran, kept) =
      expire_holds-Swept
        (first_rows 200 (filter (is_overdue db.now (some auth.tenant_id)) db.holds)) db in
    let same : end ≡ mid = ground (arith, ran) in subst (λ d. Swept db d) same kept
