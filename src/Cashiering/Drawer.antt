-- ===== src/Cashiering/Drawer.antt =====
-- What a movement does to the sum that a drawer should hold.
use lodgiva.Common.{◌&&◌, List, ◌∷◌, ◌≡◌, ◌≢◌, arith, ◌==◌, find, inl, inr, Option-cases}
use lodgiva.Common.Int.{◌+ℤ◌}
use lodgiva.Common.Search.{find-eq-some}
use lodgiva.Store.{Key, CashMovement, Db, ok}
use lodgiva.Access.{Auth}
use lodgiva.Cashiering.{expected_in, AddMovement, signed, movement_row, add_movement}

pub expected_in-cons :
    (s : Key) (m : CashMovement) (ms : List CashMovement)
    → (m.shift_id ≡ s → expected_in s (m ∷ ms) ≡ m.amount_minor +ℤ expected_in s ms)
      × (m.shift_id ≢ s → expected_in s (m ∷ ms) ≡ expected_in s ms)
expected_in-cons s m ms = (λ h. ground arith, λ h. ground arith)

-- A recorded movement stands on an open shift, adds its signed amount, negative for an outflow, to
-- what that drawer should hold, and changes no other drawer and no shift.
pub add_movement_moves :
    (auth : Auth) (shift_id : Key) (dto : AddMovement) (db : Db) (r : CashMovement × Db)
    → add_movement auth shift_id dto db ≡ ok r
    → (expected_in shift_id r.1.movements ≡ signed dto +ℤ expected_in shift_id db.movements)
      × ((other : Key)
          → shift_id ≢ other
          → expected_in other r.1.movements ≡ expected_in other db.movements)
      × (r.1.shifts ≡ db.shifts)
unfolding add_movement
add_movement_moves auth shift_id dto db r h =
    elim (Option-cases (find (λ t. t.id == shift_id && t.tenant_id == auth.tenant_id) db.shifts)) [
      | inl missing ↦ absurd (ground arith)
      | inr (s, found) ↦
          let same : s.id ≡ shift_id = ground (arith, find-eq-some _ db.shifts s found) in
          let row =
            movement_row auth s.id dto.type (signed dto) dto.reference dto.note db.next_id in
          let facts : (r.1.movements ≡ row ∷ db.movements) × (r.1.shifts ≡ db.shifts) =
            ground arith in
          (
            rw facts.0 ((expected_in-cons shift_id row db.movements).0 same),
            λ other n.
                rw facts.0 ((expected_in-cons other row db.movements).1 (λ e. n (cc (same, e)))),
            facts.1,
          )
    ]
