-- ===== src/Permissions/Duties.antt =====
-- What the matrix of apps/api/src/common/permissions.ts separates, by the names of the roles.
use text.Mathlib.TextEquality.{eq_iff}
use lodgiva.Common.{true, some, String, ◌≡◌, ◌⊎◌, inl, inr, refl, arith, Option-cases}
use lodgiva.Permissions.{
  Permission, Role, tenant_owner, general_manager, front_desk, cashier, housekeeping, maintenance,
  finance, auditor, role_named, grants, role_has_permission, cashier_approve_variance,
  cashier_close_shift, approval_decide, reservation_read, guest_read, folio_read, housekeeping_read,
  maintenance_read, report_operational_read, report_financial_read, audit_read,
}

-- The name that a role is stored under.
abbrev pub name_of : Role → String
name_of tenant_owner = "TENANT_OWNER"
name_of general_manager = "GENERAL_MANAGER"
name_of front_desk = "FRONT_DESK"
name_of cashier = "CASHIER"
name_of housekeeping = "HOUSEKEEPING"
name_of maintenance = "MAINTENANCE"
name_of finance = "FINANCE"
name_of auditor = "AUDITOR"

role_named-eq-some : (name : String) (r : Role) → role_named name ≡ some r → name ≡ name_of r
unfolding role_named
role_named-eq-some name r h = ground (
  arith,
  eq_iff name "TENANT_OWNER",
  eq_iff name "GENERAL_MANAGER",
  eq_iff name "FRONT_DESK",
  eq_iff name "CASHIER",
  eq_iff name "HOUSEKEEPING",
  eq_iff name "MAINTENANCE",
  eq_iff name "FINANCE",
  eq_iff name "AUDITOR",
)

-- A permission is held through a role of the matrix.
role-of :
    (name : String) (p : Permission)
    → role_has_permission name p ≡ true
    → (r : Role) × (role_named name ≡ some r) × (grants r p ≡ true)
unfolding role_has_permission
role-of name p h = elim (Option-cases (role_named name)) [
  | inl unknown ↦ cc (rw (unknown, role_has_permission) at h)
  | inr (r, found) ↦ (r, found, rw (found, role_has_permission) at h)
]

approves_and_closes :
    (r : Role)
    → grants r cashier_approve_variance ≡ true
    → grants r cashier_close_shift ≡ true
    → r ≡ general_manager
unfolding grants
approves_and_closes general_manager h k = refl
approves_and_closes tenant_owner h k = cc
approves_and_closes _ h k = cc

abbrev pub IsRead : Permission → Type 0
IsRead reservation_read = Unit
IsRead guest_read = Unit
IsRead folio_read = Unit
IsRead housekeeping_read = Unit
IsRead maintenance_read = Unit
IsRead report_operational_read = Unit
IsRead report_financial_read = Unit
IsRead audit_read = Unit
IsRead _ = ⊥

auditor_reads : (p : Permission) → grants auditor p ≡ true → IsRead p
unfolding grants
auditor_reads reservation_read h = tt
auditor_reads p h = ground arith

deciding_roles :
    (r : Role)
    → grants r approval_decide ≡ true
    → (r ≡ tenant_owner) ⊎ (r ≡ general_manager) ⊎ (r ≡ finance)
unfolding grants
deciding_roles tenant_owner h = inl refl
deciding_roles r h = ground arith

-- A role name that may both close a cashier shift and approve a cash variance is
-- GENERAL_MANAGER.
closes_and_approves-eq-manager :
    (name : String)
    → role_has_permission name cashier_close_shift ≡ true
    → role_has_permission name cashier_approve_variance ≡ true
    → name ≡ "GENERAL_MANAGER"
closes_and_approves-eq-manager name h k =
    let (r, found, close) = role-of name cashier_close_shift h in
    let (q, found', approve) = role-of name cashier_approve_variance k in
    let same : q ≡ r = cc in
    rw (role_named-eq-some name r found) (rw (approves_and_closes r (rw same at approve) close))

-- The role names that may decide an approval request are the owner, the general manager and finance.
decides-names :
    (name : String)
    → role_has_permission name approval_decide ≡ true
    → (name ≡ "TENANT_OWNER") ⊎ (name ≡ "GENERAL_MANAGER") ⊎ (name ≡ "FINANCE")
decides-names name h =
    let (r, found, decides) = role-of name approval_decide h in
    rw (role_named-eq-some name r found) (ground (arith, deciding_roles r decides))

auditor_named : (r : Role) → role_named "AUDITOR" ≡ some r → r ≡ auditor
unfolding role_named
auditor_named r e = cc

-- Every permission that the role AUDITOR holds is one of the eight reading ones.
auditor-IsRead : (p : Permission) → role_has_permission "AUDITOR" p ≡ true → IsRead p
auditor-IsRead p h =
    let (r, found, held) = role-of "AUDITOR" p h in
    auditor_reads p (rw (auditor_named r found) at held)
