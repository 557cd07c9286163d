-- ===== src/NightAudit/Days.antt =====
-- The days of the properties: runs of the close, one after the other.
use mathlib.Core.Path.{subst, subst₂}
use lodgiva.Common.{
  ◌∙◌, ℕ, ◌+◌, ◌≤◌, ◌<◌, true, false, List, [], ◌∷◌, String, ◌≡◌, refl, sym, arith, ◌==◌, any,
  count, update_where, All, inl, inr, Bool-cases,
}
use lodgiva.Common.Sorting.{All-map}
use lodgiva.Common.Members.{Member, All-Member, All-update_where, none_of_any}
use lodgiva.Store.{Key, IsoDate, Property, NightAuditRun, Db, ok}
use lodgiva.Access.{Auth, assert_property}
use lodgiva.NightAudit.Preflight.{is_run_of, blockers_of}
use lodgiva.NightAudit.Run.{RunAudit, Floats, AuditReport, dated, run}
use lodgiva.NightAudit.Outcome.{Closed, assert_property-found, run-Closed, run_succeeds}

-- A run is of a day before the business date of its property.
abbrev pub Before : List Property → NightAuditRun → Type 0
Before properties r = All (λ p. p.id ≡ r.property_id → r.business_date < p.business_date) properties

-- Every run is of a day that is over, and each day of a property has one run at most.
pub record DaysInOrder (db : Db) : Type 0 where
  pub over : All (Before db.properties) db.audit_runs
  pub once :
      (property_id : Key) (date : IsoDate) → count (is_run_of property_id date) db.audit_runs ≤ 1

-- Runs of the close, by any callers and with any clock and quotients.
pub data Steps (iso : IsoDate → String) (fl : Floats) : Db → Db → Type 0 where
  stop : {db : Db} → Steps iso fl db db
  closed :
      {a c : Db} (auth : Auth) (dto : RunAudit) (report : AuditReport) (b : Db)
      → run iso fl auth dto a ≡ ok (report, b)
      → Steps iso fl b c
      → Steps iso fl a c

-- The date of a property moves on, and the runs are before it still.
Before-advanced :
    (k date : ℕ) (r : NightAuditRun) (l : List Property)
    → (r.property_id ≡ k → r.business_date < date + 1)
    → Before l r
    → Before (update_where (λ p. p.id == k) (dated (date + 1)) l) r
Before-advanced k date r l own h =
    All-update_where (λ p. p.id == k) (dated (date + 1))
      (λ p. p.id ≡ r.property_id → r.business_date < p.business_date)
      (λ p. p.id ≡ r.property_id → r.business_date < p.business_date)
      (λ p before hit same. own (ground (arith, hit, same))) (λ p before miss same. before same) l h

-- An earlier run of the property is before the day that is closed.
own_runs :
    (k date : ℕ) (property : Property) (properties : List Property) (r : NightAuditRun)
    → Member property properties
    → property.id ≡ k
    → property.business_date ≡ date
    → Before properties r
    → r.property_id ≡ k
    → r.business_date < date + 1
own_runs k date property properties r here its day before same =
    let earlier =
      All-Member (λ p. p.id ≡ r.property_id → r.business_date < p.business_date) properties property
        before here (its ∙ sym same) in
    omega (arith, earlier, day)

-- The new run is of the day before the new date.
new_row :
    (k date : ℕ) (r : NightAuditRun) (l : List Property)
    → r.property_id ≡ k
    → r.business_date ≡ date
    → Before (update_where (λ p. p.id == k) (dated (date + 1)) l) r
new_row k date r [] its day = tt
new_row k date r (p ∷ l) its day = (
  λ same. elim (Bool-cases (p.id == k)) [
    | inl hit ↦ ground (arith, hit, day)
    | inr miss ↦ absurd (ground (arith, miss, same, its))
  ],
  new_row k date r l its day,
)

-- A run of a day that has none.
count-cons :
    (k date : ℕ) (r : NightAuditRun) (l : List NightAuditRun)
    → count (is_run_of k date) l ≤ 1
    → any (is_run_of r.property_id r.business_date) l ≡ false
    → count (is_run_of k date) (r ∷ l) ≤ 1
count-cons k date r l one free = elim (Bool-cases (is_run_of k date r)) [
  | inr miss ↦ ground (arith, miss, one)
  | inl hit ↦
      let same : (r.property_id ≡ k) × (r.business_date ≡ date) = ground (arith, hit) in
      let nobody : any (is_run_of k date) l ≡ false = rw (← same.0, ← same.1) free in
      ground (arith, hit, none_of_any (is_run_of k date) l nobody)
]

run-DaysInOrder :
    (iso : IsoDate → String) (fl : Floats) (auth : Auth) (dto : RunAudit) (db : Db)
    (report : AuditReport) (db' : Db)
    → run iso fl auth dto db ≡ ok (report, db')
    → DaysInOrder db
    → DaysInOrder db'
run-DaysInOrder iso fl auth dto db report db' h before =
    let done = run-Closed iso fl auth dto db report db' h in
    let property = done.property in
    let a = done.audited in
    record {
      over =
          subst₂ (λ ps rs. All (Before ps) rs) (sym a.date) (sym a.runs)
            (
              new_row property.id property.business_date a.row db.properties a.row_property
                  a.row_date,
              All-map (Before db.properties)
                  (λ r b.
                    Before-advanced property.id property.business_date r db.properties
                      (own_runs property.id property.business_date property db.properties r
                        done.here refl refl b)
                      b)
                  db.audit_runs before.over,
            );
      once = λ k d.
          subst (λ rs. count (is_run_of k d) rs ≤ 1) (sym a.runs)
            (count-cons k d a.row db.audit_runs (before.once k d) (
              subst₂ (λ x y. any (is_run_of x y) db.audit_runs ≡ false) (sym a.row_property)
                (sym a.row_date) a.first_run));
    }

-- However days are closed, by whomever, every run is of a day that is over, and each day of a property
-- is closed once at most.
pub Steps-DaysInOrder :
    (iso : IsoDate → String) (fl : Floats) {db db' : Db}
    → Steps iso fl db db'
    → DaysInOrder db
    → DaysInOrder db'
Steps-DaysInOrder iso fl stop before = before
Steps-DaysInOrder iso fl (closed {a} auth dto report b h later) before =
    Steps-DaysInOrder iso fl later (run-DaysInOrder iso fl auth dto a report b h before)

-- No run of the day that is open.
not_yet :
    (property : Property) (db : Db) (l : List NightAuditRun)
    → Member property db.properties
    → All (Before db.properties) l
    → any (is_run_of property.id property.business_date) l ≡ false
not_yet property db [] here h = refl
not_yet property db (r ∷ l) here (b, h) =
    let earlier = λ (e : property.id ≡ r.property_id).
      All-Member (λ p. p.id ≡ r.property_id → r.business_date < p.business_date) db.properties
        property b here e in
    let rest = not_yet property db l here h in
    elim (Bool-cases (is_run_of property.id property.business_date r)) [
      | inl hit ↦ absurd (omega (arith, earlier (ground (arith, hit)), same_day hit))
      | inr miss ↦ ground (arith, miss, rest)
    ]
  where
    same_day :
        is_run_of property.id property.business_date r ≡ true
        → r.business_date ≡ property.business_date
    same_day hit = ground (arith, hit)

-- After whatever closes, the day that is open can be closed: a caller whose scope has the property
-- and who acknowledges the warnings is refused by a blocker only.
pub next_day_succeeds :
    (iso : IsoDate → String) (fl : Floats) {start db : Db}
    → DaysInOrder start
    → Steps iso fl start db
    → (auth : Auth) (property : Property) → assert_property auth property.id db ≡ ok (property, db)
    → blockers_of auth property.id property.business_date db ≡ []
    → let dto : RunAudit = record { property_id = property.id; acknowledge_warnings = true } in
      (report : AuditReport) × (db' : Db) × (run iso fl auth dto db ≡ ok (report, db'))
      × Closed iso auth dto db report db'
next_day_succeeds iso fl {start} {db} before steps auth property found clear =
    let now = Steps-DaysInOrder iso fl steps before in
    let (_, here, _, _) = assert_property-found auth property.id db db property found in
    run_succeeds iso fl auth (record { property_id = property.id; acknowledge_warnings = true }) db
      property found clear (inr refl) (not_yet property db db.audit_runs here now.over)
