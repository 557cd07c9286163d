-- ===== src/Permissions/Tests.antt =====
-- Runs of the permission checks.
use lodgiva.Common.{false, some, ◌≡◌, refl}
use lodgiva.Store.{err, forbidden, permission_denied}
use lodgiva.Permissions.{role_has_permission, can_activate, approval_decide, pos_operate}

owner_runs_no_till : role_has_permission "TENANT_OWNER" pos_operate ≡ false
unfolding role_has_permission
owner_runs_no_till = refl

unknown_role : can_activate (some approval_decide) (some "ROOT") ≡ err (forbidden permission_denied)
unfolding can_activate
unknown_role = refl
