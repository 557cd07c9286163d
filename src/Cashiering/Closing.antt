-- ===== src/Cashiering/Closing.antt =====
-- When a shift closes, and who clears a variance.
use lodgiva.Common.{
  true, false, ◌&&◌, none, some, ◌≡◌, ◌≢◌, refl, sym, ap, ◌∙◌, subst, arith, ◌==◌, find,
  update_where, ◌⊎◌, inl, inr, Option-cases, Bool-cases,
}
use lodgiva.Common.Int.{ℤ, pos, pos_part, neg_part, ◌-ℤ◌, ◌==ℤ◌, int_laws}
use lodgiva.Store.{
  Key, CashierShift, shift_open, shift_closed, shift_pending, is_shift_closed, Db, ok, Result-cases,
}
use lodgiva.Access.{Auth}
use lodgiva.Permissions.{role_has_permission, cashier_approve_variance}
use lodgiva.Cashiering.{
  expected_in, CloseShift, variance, has_reason, closed_row, reason_or_kept, approved_row, close,
  approve,
}

-- The shift that a caller of its tenant names.
abbrev pub Names : Auth → Key → Db → CashierShift → Type 0
Names auth shift_id db s =
    find (λ t. t.id == shift_id && t.tenant_id == auth.tenant_id) db.shifts ≡ some s

-- What closing did: the count was compared with the sum of the shift's movements, and the shift is
-- closed where they agree, and otherwise pending with a reason.
pub record Settled (dto : CloseShift) (db : Db) (shift s' : CashierShift) (db' : Db) : Type 0 where
  pub expected : s'.expected_minor ≡ some (expected_in shift.id db.movements)
  pub counted : s'.counted_minor ≡ some (pos dto.counted_minor)
  pub outcome :
      ((expected_in shift.id db.movements ≡ pos dto.counted_minor) × (s'.status ≡ shift_closed))
      ⊎ ((expected_in shift.id db.movements ≢ pos dto.counted_minor)
          × ((s'.status ≡ shift_pending) × (has_reason dto.variance_reason ≡ true)))
  pub reason : s'.variance_reason ≡ reason_or_kept dto.variance_reason shift.variance_reason
  pub approver : s'.approved_by_id ≡ shift.approved_by_id
  pub written :
      db'.shifts
      ≡ update_where
          (λ s. s.id == shift.id)
          (closed_row dto (expected_in shift.id db.movements))
          db.shifts
  pub kept : db'.movements ≡ db.movements

agrees : (n e : ℤ) → (n -ℤ e ==ℤ pos 0) ≡ true → e ≡ n
agrees n e h = let z : pos_part (n -ℤ e) ≡ neg_part (n -ℤ e) = ground arith in omega int_laws

differs : (n e : ℤ) → (n -ℤ e ==ℤ pos 0) ≡ false → e ≢ n
differs n e h same =
    let z : pos_part (n -ℤ e) ≢ neg_part (n -ℤ e) = ground arith in
    absurd (omega (int_laws, z, ap pos_part same, ap neg_part same))

-- What any close does: an open shift, or one whose count is given again while it is pending.
pub close-Compared :
    (auth : Auth) (shift_id : Key) (dto : CloseShift) (db : Db) (s' : CashierShift) (db' : Db)
    → close auth shift_id dto db ≡ ok (s', db')
    → (shift : CashierShift) × Names auth shift_id db shift
      × (is_shift_closed shift.status ≡ false)
      × Settled dto db shift s' db'
unfolding close
close-Compared auth shift_id dto db s' db' h =
    elim (Option-cases (find (λ t. t.id == shift_id && t.tenant_id == auth.tenant_id) db.shifts)) [
      | inl missing ↦ absurd (ground arith)
      | inr (s, found) ↦
          let e = expected_in s.id db.movements in
          elim (Bool-cases (variance dto e ==ℤ pos 0)) [
            | inl zero ↦
                let facts : (is_shift_closed s.status ≡ false)
                    × (closed_row dto e s ≡ s')
                    × (db'.shifts ≡ update_where (λ t. t.id == s.id) (closed_row dto e) db.shifts)
                    × (db'.movements ≡ db.movements) =
                  ground arith in
                (
                  s,
                  found,
                  facts.0,
                  record {
                    expected = sym (ap (λ x. x.expected_minor) facts.1);
                    counted = sym (ap (λ x. x.counted_minor) facts.1);
                    outcome = inl (
                      agrees (pos dto.counted_minor) e zero,
                      sym (ap (λ x. x.status) facts.1) ∙ rw zero refl,
                    );
                    reason = sym (ap (λ x. x.variance_reason) facts.1);
                    approver = sym (ap (λ x. x.approved_by_id) facts.1);
                    written = facts.2;
                    kept = facts.3;
                  },
                )
            | inr off ↦
                let facts : (is_shift_closed s.status ≡ false)
                    × (closed_row dto e s ≡ s')
                    × (db'.shifts ≡ update_where (λ t. t.id == s.id) (closed_row dto e) db.shifts)
                    × (db'.movements ≡ db.movements)
                    × (has_reason dto.variance_reason ≡ true) =
                  ground arith in
                (
                  s,
                  found,
                  facts.0,
                  record {
                    expected = sym (ap (λ x. x.expected_minor) facts.1);
                    counted = sym (ap (λ x. x.counted_minor) facts.1);
                    outcome = inr (
                      differs (pos dto.counted_minor) e off,
                      (sym (ap (λ x. x.status) facts.1) ∙ rw off refl, facts.4),
                    );
                    reason = sym (ap (λ x. x.variance_reason) facts.1);
                    approver = sym (ap (λ x. x.approved_by_id) facts.1);
                    written = facts.2;
                    kept = facts.3;
                  },
                )
          ]
    ]

-- An open shift is closed by comparing its count with the sum of its movements: it becomes CLOSED
-- where they agree, and otherwise PENDING_APPROVAL, which needs a reason. A reason that is not given
-- leaves the one in the row, the approver stays, that row alone is updated and no movement changes.
pub close-Settled :
    (auth : Auth) (shift_id : Key) (dto : CloseShift) (db : Db) (shift s' : CashierShift) (db' : Db)
    → Names auth shift_id db shift
    → shift.status ≡ shift_open
    → close auth shift_id dto db ≡ ok (s', db')
    → Settled dto db shift s' db'
close-Settled auth shift_id dto db shift s' db' named was_open h =
    let (s, found, _, done) = close-Compared auth shift_id dto db s' db' h in
    let same : s ≡ shift = ground (arith, found, named) in
    subst (λ x. Settled dto db x s' db') same done

-- What an approval shows of the shift and of the approver.
pub record Cleared (auth : Auth) (shift_id : Key) (db : Db) (s' : CashierShift) (db' : Db)
    : Type 0 where
  pub shift : CashierShift
  pub named : Names auth shift_id db shift
  pub was_pending : shift.status ≡ shift_pending
  pub permitted : role_has_permission auth.role cashier_approve_variance ≡ true
  pub not_own : shift.user_id ≢ auth.user_id
  pub signed_by : s'.approved_by_id ≡ some auth.user_id
  pub closed : s'.status ≡ shift_closed
  pub written : db'.shifts ≡ update_where (λ s. s.id == shift.id) (approved_row auth) db.shifts

-- `approve` goes through only on a pending shift, for a role that may approve variances and for
-- another user than the one whose shift it is; it leaves the shift CLOSED with the caller as its
-- approver, and rewrites no other row of the table. What `close` does to a pending shift is not part
-- of this.
pub approve-Cleared :
    (auth : Auth) (shift_id : Key) (db : Db) (s' : CashierShift) (db' : Db)
    → approve auth shift_id db ≡ ok (s', db')
    → Cleared auth shift_id db s' db'
unfolding approve
approve-Cleared auth shift_id db s' db' h =
    elim (Option-cases (find (λ t. t.id == shift_id && t.tenant_id == auth.tenant_id) db.shifts)) [
      | inl missing ↦ absurd (ground arith)
      | inr (s, found) ↦
          let facts : (s.status ≡ shift_pending)
              × (role_has_permission auth.role cashier_approve_variance ≡ true)
              × (s.user_id ≢ auth.user_id)
              × (approved_row auth s ≡ s')
              × (db'.shifts ≡ update_where (λ t. t.id == s.id) (approved_row auth) db.shifts) =
            ground arith in
          record {
            shift = s;
            named = found;
            was_pending = facts.0;
            permitted = facts.1;
            not_own = facts.2;
            signed_by = sym (ap (λ x. x.approved_by_id) facts.3);
            closed = sym (ap (λ x. x.status) facts.3);
            written = facts.4;
          }
    ]

same_count : (n e : ℤ) → e ≡ n → (n -ℤ e ==ℤ pos 0) ≡ true
same_count n e h =
    let z : pos_part (n -ℤ e) ≡ neg_part (n -ℤ e) =
      omega (int_laws, ap pos_part h, ap neg_part h) in
    ground arith

-- A pending shift whose count is given again, equal to the sum of its movements, becomes CLOSED for
-- any caller of the tenant, with no reason asked, and keeps the approver that it had, who may be
-- nobody.
recount_skips_approval :
    (auth : Auth) (shift_id n : Key) (db : Db) (s : CashierShift)
    → Names auth shift_id db s
    → s.status ≡ shift_pending
    → expected_in s.id db.movements ≡ pos n
    → (s' : CashierShift) × (db' : Db) × (close auth shift_id
          (record { counted_minor = n; variance_reason = none })
          db
        ≡ ok (s', db'))
      × (s'.status ≡ shift_closed)
      × (s'.approved_by_id ≡ s.approved_by_id)
unfolding close
recount_skips_approval auth shift_id n db s named pending same =
    let dto : CloseShift = record { counted_minor = n; variance_reason = none } in
    let zero : (variance dto (expected_in s.id db.movements) ==ℤ pos 0) ≡ true =
      same_count (pos n) (expected_in s.id db.movements) same in
    elim (Result-cases (close auth shift_id dto db)) [
      | inr (e, failed) ↦ absurd (ground (arith, zero, named, pending))
      | inl ((s', db'), ran) ↦
          let same_row : closed_row dto (expected_in s.id db.movements) s ≡ s' =
            ground (arith, zero, named, pending) in
          (
            s',
            db',
            ran,
            sym (ap (λ x. x.status) same_row) ∙ rw zero refl,
            sym (ap (λ x. x.approved_by_id) same_row),
          )
    ]
