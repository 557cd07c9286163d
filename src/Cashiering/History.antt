-- ===== src/Cashiering/History.antt =====
-- The shifts of a property over time: runs of the four operations that write, in any order and by
-- any callers.
use lodgiva.Common.{
  ◌+◌, ◌≤◌, Bool, false, ◌&&◌, List, [], ◌∷◌, ◌≡◌, refl, sym, ap, subst, Bool-cases, arith, ◌==◌,
  any, count, update_where, inl, inr,
}
use lodgiva.Common.Int.{ℤ}
use lodgiva.Store.{Key, CashierShift, CashMovement, is_shift_open, Property, Db, ok, Result-cases}
use lodgiva.Access.{Auth, assert_property}
use lodgiva.Cashiering.{
  expected_in, shift_row, closed_row, approved_row, is_open_of, OpenShift, open_shift, AddMovement,
  add_movement, CloseShift, close, approve,
}
use lodgiva.Cashiering.Drawer.{add_movement_moves}
use lodgiva.Cashiering.Closing.{close-Compared, approve-Cleared}

-- Each user has at most one open shift at each property.
abbrev pub OneOpen : List CashierShift → Type 0
OneOpen shifts = (t p u : Key) → count (is_open_of t p u) shifts ≤ 1

none_of_any : {A : Type 0} (p : A → Bool) (l : List A) → any p l ≡ false → count p l ≡ 0
none_of_any p [] h = ground arith
none_of_any p (x ∷ l) h = ground (arith, none_of_any p l)

-- Rewriting rows to rows that a test does not pick does not raise its count.
count-update_where_le :
    {A : Type 0} (p q : A → Bool) (f : A → A) (l : List A)
    → ((x : A) → p x ≡ false → p (f x) ≡ false)
    → count p (update_where q f l) ≤ count p l
count-update_where_le p q f [] h = ground arith
count-update_where_le p q f (x ∷ l) h = ground (arith, count-update_where_le p q f l h, h x)

-- One successful run of an operation.
pub data Step : Db → Db → Type 0 where
  opened :
      (auth : Auth) (dto : OpenShift) (db : Db) (r : CashierShift × Db)
      → open_shift auth dto db ≡ ok r
      → Step db r.1
  recorded :
      (auth : Auth) (shift_id : Key) (dto : AddMovement) (db : Db) (r : CashMovement × Db)
      → add_movement auth shift_id dto db ≡ ok r
      → Step db r.1
  settled :
      (auth : Auth) (shift_id : Key) (dto : CloseShift) (db : Db) (r : CashierShift × Db)
      → close auth shift_id dto db ≡ ok r
      → Step db r.1
  cleared :
      (auth : Auth) (shift_id : Key) (db : Db) (r : CashierShift × Db)
      → approve auth shift_id db ≡ ok r
      → Step db r.1

infixr 5 ◌▸◌
pub data Steps : Db → Db → Type 0 where
  stop : {db : Db} → Steps db db
  ◌▸◌ : {a b c : Db} → Step a b → Steps b c → Steps a c

cons-OneOpen :
    (row : CashierShift) (l : List CashierShift)
    → any (is_open_of row.tenant_id row.property_id row.user_id) l ≡ false
    → OneOpen l
    → OneOpen (row ∷ l)
cons-OneOpen row l h one t p u = elim (Bool-cases (is_open_of t p u row)) [
  | inr miss ↦ ground (arith, miss, one t p u)
  | inl hit ↦
      let same : (row.tenant_id ≡ t) × (row.property_id ≡ p) × (row.user_id ≡ u) = ground arith in
      let free : any (is_open_of t p u) l ≡ false = rw (← same.0, ← same.1, ← same.2) h in
      ground (arith, hit, none_of_any (is_open_of t p u) l free)
]

assert_property_keeps :
    (auth : Auth) (id : Key) (db mid : Db) (property : Property)
    → assert_property auth id db ≡ ok (property, mid)
    → mid ≡ db
unfolding assert_property
assert_property_keeps auth id db mid property h = ground arith

open_shift-keeps :
    (auth : Auth) (dto : OpenShift) (db : Db) (r : CashierShift × Db)
    → open_shift auth dto db ≡ ok r
    → OneOpen db.shifts
    → OneOpen r.1.shifts
unfolding open_shift
open_shift-keeps auth dto db r h one t p u =
    elim (Result-cases (assert_property auth dto.property_id db)) [
      | inr (e, refused) ↦ absurd (ground arith)
      | inl ((property, mid), found) ↦
          let n =
            count (λ s. s.tenant_id == auth.tenant_id && s.property_id == property.id) mid.shifts in
          let row = shift_row auth property.id (400 + n + 1) dto.opening_float_minor mid.next_id in
          let facts : (any (is_open_of auth.tenant_id property.id auth.user_id) mid.shifts ≡ false)
              × (r.1.shifts ≡ row ∷ mid.shifts) =
            ground arith in
          let same : mid.shifts ≡ db.shifts =
            ap (λ d. d.shifts) (assert_property_keeps auth dto.property_id db mid property found) in
          rw facts.1 (cons-OneOpen row mid.shifts facts.0 (rw same one) t p u)
    ]

closed_row-is_not_open :
    (dto : CloseShift) (e : ℤ) (s : CashierShift)
    → is_shift_open (closed_row dto e s).status ≡ false
closed_row-is_not_open dto e s = ground arith

row_not_open :
    (t p u : Key) (s : CashierShift) → is_shift_open s.status ≡ false → is_open_of t p u s ≡ false
row_not_open t p u s h = ground arith

update-OneOpen :
    (id : Key) (f : CashierShift → CashierShift) (l : List CashierShift)
    → ((s : CashierShift) → is_shift_open (f s).status ≡ false)
    → OneOpen l
    → OneOpen (update_where (λ s. s.id == id) f l)
update-OneOpen id f l h one t p u = omega (
  arith,
  one t p u,
  count-update_where_le (is_open_of t p u) (λ s. s.id == id) f l
      (λ s no. row_not_open t p u (f s) (h s)),
)

-- No order of openings, movements, closings and approvals, by whatever callers, gives a user two
-- open shifts at one property.
pub Steps-OneOpen : {db db' : Db} → Steps db db' → OneOpen db.shifts → OneOpen db'.shifts
Steps-OneOpen stop one = one
Steps-OneOpen (opened auth dto db r h ▸ later) one =
    Steps-OneOpen later (open_shift-keeps auth dto db r h one)
Steps-OneOpen (recorded auth shift_id dto db r h ▸ later) one =
    Steps-OneOpen later (subst OneOpen (sym (add_movement_moves auth shift_id dto db r h).2) one)
Steps-OneOpen (settled auth shift_id dto db r h ▸ later) one =
    let (shift, _, _, done) = close-Compared auth shift_id dto db r.0 r.1 h in
    Steps-OneOpen later (
      subst OneOpen (sym done.written) (
        update-OneOpen shift.id (closed_row dto (expected_in shift.id db.movements)) db.shifts
          (λ s. closed_row-is_not_open dto _ s) one))
Steps-OneOpen (cleared auth shift_id db r h ▸ later) one =
    let done = approve-Cleared auth shift_id db r.0 r.1 h in
    Steps-OneOpen later (
      subst OneOpen (sym done.written)
        (update-OneOpen done.shift.id (approved_row auth) db.shifts (λ s. refl) one))
