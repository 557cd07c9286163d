-- ===== src/NightAudit/Outcome.antt =====
-- What the close of a day asks for, and what it does.
use lodgiva.Common.{
  true, false, ◌&&◌, not, [], String, ◌≡◌, ◌≢◌, ◌∙◌, ap, subst, arith, ◌==◌, find, any, ◌⊎◌, inl,
  inr, Option-cases, Bool-cases,
}
use mathlib.Core.Path.{subst₂}
use lodgiva.Common.Search.{find-eq-some}
use lodgiva.Common.Members.{Member, find-Member}
use lodgiva.Store.{Key, IsoDate, Property, Db, ok, Result-cases}
use lodgiva.Access.{Auth, assert_property}
use lodgiva.NightAudit.Preflight.{Checks, checks_of, is_run_of, is_empty, blockers_of, warnings_of}
use lodgiva.NightAudit.Run.{RunAudit, Floats, AuditReport, audit_day, run}
use lodgiva.NightAudit.Closing.{Finished, blockers_none, empty_list, Audited, audit_day-Audited}

pub assert_property-found :
    (auth : Auth) (id : Key) (db mid : Db) (property : Property)
    → assert_property auth id db ≡ ok (property, mid)
    → (mid ≡ db)
      × Member property db.properties
      × (property.id ≡ id)
      × (property.tenant_id ≡ auth.tenant_id)
unfolding assert_property
assert_property-found auth id db mid property h =
    elim (Option-cases (find (λ p. p.id == id && p.tenant_id == auth.tenant_id) db.properties)) [
      | inl missing ↦ absurd (ground arith)
      | inr (p, found) ↦
          let same : p ≡ property = ground arith in
          let test = find-eq-some _ db.properties p found in
          (
            ground arith,
            subst (λ q. Member q db.properties) same (find-Member _ db.properties p found),
            subst (λ q. q.id ≡ id) same (ground arith),
            subst (λ q. q.tenant_id ≡ auth.tenant_id) same (ground arith),
          )
    ]

refused_date :
    (iso : IsoDate → String) (fl : Floats) (auth : Auth) (property : Property) (checks : Checks)
    (db : Db) {report : AuditReport} {db' : Db}
    → any (is_run_of property.id property.business_date) db.audit_runs ≡ true
    → audit_day iso fl auth property checks db ≢ ok (report, db')
unfolding audit_day
refused_date iso fl auth property checks db taken h = ground (arith, taken)

-- What a close asks for, and what it does.
pub record Closed (iso : IsoDate → String) (auth : Auth) (dto : RunAudit) (db : Db)
    (report : AuditReport) (db' : Db) : Type 0 where
  pub property : Property
  pub found : assert_property auth dto.property_id db ≡ ok (property, db)
  pub here : Member property db.properties
  pub its_id : property.id ≡ dto.property_id
  pub finished : Finished auth property.id db
  pub acknowledged :
      (warnings_of auth property.id property.business_date db ≡ [])
      ⊎ (dto.acknowledge_warnings ≡ true)
  pub audited : Audited iso auth property db report db'

module _ (iso : IsoDate → String) (fl : Floats) (auth : Auth) (dto : RunAudit) (db : Db) where
  -- A run that goes through: at a property of the caller no drawer and no order is open and no void
  -- undecided, and the warnings are acknowledged. The date has not been closed before. Every stay of
  -- the night is charged for it on its open folio, the date of that property alone moves on by one
  -- day, one row records the run with the warnings and the caller, and no entry is lost.
  pub run-Closed :
      (report : AuditReport) (db' : Db)
      → run iso fl auth dto db ≡ ok (report, db')
      → Closed iso auth dto db report db'
  unfolding run
  run-Closed report db' h = elim (Result-cases (assert_property auth dto.property_id db)) [
    | inr (e, failed) ↦ absurd (ground arith)
    | inl ((property, mid), asserted) ↦
        let (same, here, its, tenant) =
          assert_property-found auth dto.property_id db mid property asserted in
        let found : assert_property auth dto.property_id db ≡ ok (property, db) =
          asserted ∙ ap (λ d. ok (property, d)) same in
        let checks = checks_of auth property db in
        let facts : (checks.can_run ≡ true)
            × ((not (is_empty checks.warnings) && not dto.acknowledge_warnings) ≡ false)
            × (audit_day iso fl auth property checks db ≡ ok (report, db')) =
          ground (arith, found) in
        elim (Bool-cases (any (is_run_of property.id property.business_date) db.audit_runs)) [
          | inl taken ↦ absurd (refused_date iso fl auth property checks db taken facts.2)
          | inr free ↦
              let (report', end, ran, audited) = audit_day-Audited iso fl auth property db free in
              let same_report : report' ≡ report = ground (arith, ran, facts.2) in
              let same_end : end ≡ db' = ground (arith, ran, facts.2) in
              record {
                property = property;
                found = found;
                here = here;
                its_id = its;
                finished = blockers_none auth property.id property.business_date db facts.0;
                acknowledged = elim (Bool-cases (is_empty checks.warnings)) [
                  | inl none_at_all ↦ inl (empty_list checks.warnings none_at_all)
                  | inr some_left ↦ inr (ground (arith, facts.1, some_left))
                ];
                audited =
                    subst₂ (λ r d. Audited iso auth property db r d) same_report same_end audited;
              }
        ]
  ]

  -- A run goes through where the property is within the caller's reach, nothing blocks, the warnings
  -- are acknowledged or there are none, and the date has not been closed before: no charge that it
  -- posts can be refused.
  pub run_succeeds :
      (property : Property)
      → assert_property auth dto.property_id db ≡ ok (property, db)
      → blockers_of auth property.id property.business_date db ≡ []
      → (warnings_of auth property.id property.business_date db ≡ [])
        ⊎ (dto.acknowledge_warnings ≡ true)
      → any (is_run_of property.id property.business_date) db.audit_runs ≡ false
      → (report : AuditReport) × (db' : Db) × (run iso fl auth dto db ≡ ok (report, db'))
        × Closed iso auth dto db report db'
  unfolding run
  run_succeeds property found clear waived free =
      let checks = checks_of auth property db in
      let can_run : checks.can_run ≡ true = ap is_empty clear in
      let passed : (not (is_empty checks.warnings) && not dto.acknowledge_warnings) ≡ false =
        elim waived [
          | inl e ↦ ap (λ l. not (is_empty l) && not dto.acknowledge_warnings) e
          | inr e ↦ ground (arith, e)
        ] in
      let (report, end, ran, audited) = audit_day-Audited iso fl auth property db free in
      let done : run iso fl auth dto db ≡ ok (report, end) =
        ground (arith, found, can_run, passed, ran) in
      (report, end, done, run-Closed report end done)
