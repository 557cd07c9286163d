-- ===== src/Permissions.antt =====
-- Roles and permissions: apps/api/src/common/permissions.ts and permissions.guard.ts. A role is
-- stored as a string; a string that names no role has no permission.
pub mod Duties
mod Tests
use text.Mathlib.Text.{◌==◌ as str_eq}
use lodgiva.Common.{
  ℕ, Bool, true, false, Option, none, some, List, [], ◌∷◌, ◌++◌, String, ◌==◌, any, ◌≡◌,
  if◌then◌else◌,
}
use lodgiva.Store.{Result, ok, err, Error, forbidden, permission_denied}

pub data Permission : Type 0 where
  reservation_read reservation_create reservation_modify reservation_cancel : Permission
  reservation_override_rate frontdesk_check_in frontdesk_check_out frontdesk_room_move : Permission
  guest_read guest_manage file_manage inventory_manage : Permission
  folio_read folio_post_charge folio_apply_discount folio_reverse_entry : Permission
  payment_capture payment_refund : Permission
  cashier_open_shift cashier_close_shift cashier_approve_variance pos_operate : Permission
  housekeeping_read housekeeping_update maintenance_read maintenance_manage room_block : Permission
  night_audit_run report_operational_read report_financial_read audit_read : Permission
  settings_property_manage settings_room_manage settings_rate_manage : Permission
  settings_tax_manage approval_decide user_manage support_lookup : Permission

pub data Role : Type 0 where
  tenant_owner general_manager front_desk cashier housekeeping maintenance finance auditor : Role

unfoldable pub read_only : List Permission
read_only =
    reservation_read ∷ guest_read ∷ folio_read ∷ housekeeping_read ∷ maintenance_read
    ∷ report_operational_read ∷ report_financial_read ∷ audit_read ∷ []

-- `ROLE_PERMISSIONS`
unfoldable pub role_permissions : Role → List Permission
unfolding read_only
role_permissions tenant_owner =
    read_only
    ++ (reservation_create ∷ reservation_modify ∷ reservation_cancel ∷ reservation_override_rate
        ∷ guest_manage ∷ frontdesk_check_in ∷ frontdesk_check_out ∷ frontdesk_room_move
        ∷ folio_post_charge ∷ payment_capture ∷ housekeeping_update ∷ maintenance_manage
        ∷ folio_apply_discount ∷ payment_refund ∷ cashier_approve_variance ∷ night_audit_run
        ∷ room_block ∷ settings_property_manage ∷ settings_room_manage ∷ settings_rate_manage
        ∷ settings_tax_manage ∷ approval_decide ∷ user_manage ∷ inventory_manage ∷ support_lookup
        ∷ [])
role_permissions general_manager =
    read_only
    ++ (reservation_create ∷ reservation_modify ∷ reservation_cancel ∷ reservation_override_rate
        ∷ frontdesk_check_in ∷ frontdesk_check_out ∷ frontdesk_room_move ∷ guest_manage
        ∷ file_manage ∷ inventory_manage ∷ folio_post_charge ∷ folio_apply_discount
        ∷ folio_reverse_entry ∷ payment_capture ∷ payment_refund ∷ cashier_open_shift
        ∷ cashier_close_shift ∷ cashier_approve_variance ∷ pos_operate ∷ housekeeping_update
        ∷ maintenance_manage ∷ room_block ∷ night_audit_run ∷ settings_property_manage
        ∷ settings_room_manage ∷ settings_rate_manage ∷ approval_decide ∷ user_manage
        ∷ support_lookup ∷ [])
role_permissions front_desk =
    reservation_read ∷ reservation_create ∷ reservation_modify ∷ reservation_cancel ∷ guest_read
    ∷ guest_manage ∷ file_manage ∷ inventory_manage ∷ frontdesk_check_in ∷ frontdesk_check_out
    ∷ frontdesk_room_move ∷ folio_read ∷ folio_post_charge ∷ folio_apply_discount ∷ payment_capture
    ∷ cashier_open_shift ∷ cashier_close_shift ∷ pos_operate ∷ housekeeping_read ∷ maintenance_read
    ∷ maintenance_manage ∷ report_operational_read ∷ []
role_permissions cashier =
    reservation_read ∷ guest_read ∷ folio_read ∷ folio_post_charge ∷ payment_capture
    ∷ cashier_open_shift ∷ cashier_close_shift ∷ pos_operate ∷ report_operational_read ∷ []
role_permissions housekeeping =
    housekeeping_read ∷ housekeeping_update ∷ maintenance_read ∷ maintenance_manage
    ∷ reservation_read ∷ []
role_permissions maintenance =
    maintenance_read ∷ maintenance_manage ∷ housekeeping_read ∷ room_block ∷ []
role_permissions finance =
    read_only
    ++ (folio_post_charge ∷ folio_reverse_entry ∷ folio_apply_discount ∷ payment_capture
        ∷ payment_refund ∷ cashier_approve_variance ∷ approval_decide ∷ settings_tax_manage
        ∷ support_lookup ∷ [])
role_permissions auditor = read_only

-- The place of a permission in `PERMISSIONS`, by which two are compared.
abbrev pub index : Permission → ℕ
index reservation_read = 0
index reservation_create = 1
index reservation_modify = 2
index reservation_cancel = 3
index reservation_override_rate = 4
index frontdesk_check_in = 5
index frontdesk_check_out = 6
index frontdesk_room_move = 7
index guest_read = 8
index guest_manage = 9
index file_manage = 10
index inventory_manage = 11
index folio_read = 12
index folio_post_charge = 13
index folio_apply_discount = 14
index folio_reverse_entry = 15
index payment_capture = 16
index payment_refund = 17
index cashier_open_shift = 18
index cashier_close_shift = 19
index cashier_approve_variance = 20
index pos_operate = 21
index housekeeping_read = 22
index housekeeping_update = 23
index maintenance_read = 24
index maintenance_manage = 25
index room_block = 26
index night_audit_run = 27
index report_operational_read = 28
index report_financial_read = 29
index audit_read = 30
index settings_property_manage = 31
index settings_room_manage = 32
index settings_rate_manage = 33
index settings_tax_manage = 34
index approval_decide = 35
index user_manage = 36
index support_lookup = 37

-- `ROLE_SET[role]`: a role by its name
unfoldable pub role_named : String → Option Role
role_named name =
    if str_eq name "TENANT_OWNER"
    then some tenant_owner
    else if str_eq name "GENERAL_MANAGER"
    then some general_manager
    else if str_eq name "FRONT_DESK"
    then some front_desk
    else if str_eq name "CASHIER"
    then some cashier
    else if str_eq name "HOUSEKEEPING"
    then some housekeeping
    else if str_eq name "MAINTENANCE"
    then some maintenance
    else if str_eq name "FINANCE"
    then some finance
    else if str_eq name "AUDITOR"
    then some auditor
    else none

-- `ROLE_SET[role].has(permission)`
unfoldable pub grants : Role → Permission → Bool
unfolding role_permissions
grants role p = any (λ q. index q == index p) (role_permissions role)

unfoldable pub role_has_permission : String → Permission → Bool
unfolding role_named grants
role_has_permission name p = elim (role_named name) [ none ↦ false | some role ↦ grants role p ]

unfoldable pub permissions_for_role : String → List Permission
unfolding role_named role_permissions
permissions_for_role name = elim (role_named name) [ none ↦ [] | some role ↦ role_permissions role ]

-- `PermissionsGuard.canActivate`, after `AuthGuard`: the required permission of the route, if it
-- declares one, and the role of the request, if it is authenticated.
unfoldable pub can_activate : Option Permission → Option String → Result Bool
unfolding role_has_permission
can_activate none role = ok true
can_activate (some required) none = ok false
can_activate (some required) (some role) =
    if role_has_permission role required then ok true else err (forbidden permission_denied)
