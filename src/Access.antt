-- ===== src/Access.antt =====
-- Who asks, and what every service writes: the claims of apps/api/src/common/auth.ts, the audit
-- and outbox rows of apps/api/src/common/audit.service.ts, and `assertProperty` of
-- apps/api/src/modules/properties.module.ts.
use lodgiva.Common.{
  Bool, true, ◌&&◌, not, Option, List, ◌∷◌, String, ◌==◌, find, contains, if◌then◌else◌,
}
use lodgiva.Store.{
  Key, Json, Property, M, pure, gets, require, modify, throw_if, ◌>>=◌, ◌>>◌, not_found,
  property_not_found, record_not_found,
}

-- `AuthContext`
pub record Auth : Type 0 where
  pub user_id : Key
  pub tenant_id : Key
  pub role : String
  pub all_properties : Bool
  pub property_ids : List Key

-- `auth.allProperties || auth.propertyIds.includes(id)`
abbrev pub in_scope : Auth → Key → Bool
in_scope auth property_id =
    if auth.all_properties then true else contains property_id auth.property_ids

unfoldable pub assert_property : Auth → Key → M Property
assert_property auth property_id = do
  property ←
      require
        (← gets
          (λ db. find (λ p. p.id == property_id && p.tenant_id == auth.tenant_id) db.properties))
        (not_found property_not_found)
  throw_if (not auth.all_properties && not (contains property.id auth.property_ids))
      (not_found property_not_found)
  pure property

-- `tx.property.findUniqueOrThrow({ where: { id } })`
unfoldable pub property_or_throw : Key → M Property
property_or_throw property_id = do
  require (← gets (λ db. find (λ p. p.id == property_id) db.properties))
      (not_found record_not_found)

-- `AuditService.log`
unfoldable pub log : Auth → String → String → Key → Option Key → List (String × Json) → M (Unit {0})
log auth action entity_type entity_id property_id summary = modify λ db. record db {
  audit_events =
      record {
        tenant_id = auth.tenant_id;
        property_id = property_id;
        actor_id = auth.user_id;
        action = action;
        entity_type = entity_type;
        entity_id = entity_id;
        summary = summary;
      }
      ∷ db.audit_events;
}

-- `AuditService.emit`
unfoldable pub emit : Key → String → Key → String → List (String × Json) → M (Unit {0})
emit tenant_id aggregate_type aggregate_id event_type payload = modify λ db. record db {
  outbox =
      record {
        tenant_id = tenant_id;
        aggregate_type = aggregate_type;
        aggregate_id = aggregate_id;
        event_type = event_type;
        payload = payload;
      }
      ∷ db.outbox;
}
