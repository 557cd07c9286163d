-- ===== src/Restrictions.antt =====
-- Selling restrictions: `evaluateRestrictions` of apps/api/src/common/restrictions.ts, and the rule
-- on the voids of an order, apps/api/src/common/pos-void.ts.
pub mod Rules
mod Tests
use lodgiva.Common.{
  ℕ, ◌≤◌, ◌*◌, Bool, true, false, ◌&&◌, ◌||◌, not, Option, none, some, List, [], ◌∷◌, ◌++◌, ◌==◌,
  ltb, filter, length, if◌then◌else◌,
}
use lodgiva.Common.Int.{ℤ, pos, ◌-ℤ◌, ltb_ℤ}
use lodgiva.Store.{IsoDate}

-- A flag that is not given is false, `null` and `undefined` are `none`.
pub record RestrictionRow : Type 0 where
  pub date : IsoDate
  pub closed : Bool
  pub closed_to_arrival : Bool
  pub closed_to_departure : Bool
  pub min_stay : Option ℕ
  pub max_stay : Option ℕ
  pub min_advance_days : Option ℤ

-- The `code` and the `details` of a violation.
pub data RestrictionViolation : Type 0 where
  dates_closed : List IsoDate → RestrictionViolation
  closed_to_arrival closed_to_departure : IsoDate → RestrictionViolation
  min_stay_not_met max_stay_exceeded : ℕ → ℕ → IsoDate → RestrictionViolation
  min_advance_not_met : ℤ → ℤ → RestrictionViolation

pub record EvaluateInput : Type 0 where
  pub nights : List IsoDate
  pub departure_date : IsoDate
  pub restrictions : IsoDate → Option RestrictionRow
  pub plan_min_stay : ℕ
  pub business_date : IsoDate

-- `restrictions.get(d)?.closed`, and the other fields
abbrev pub flag : (RestrictionRow → Bool) → Option RestrictionRow → Bool
flag f none = false
flag f (some r) = f r

abbrev pub number_of : {A : Type 0} → (RestrictionRow → Option A) → Option RestrictionRow → Option A
number_of f none = none
number_of f (some r) = f r

-- `arrivalRule?.minStay ?? planMinStay`
abbrev pub min_stay_of : ℕ → Option ℕ → ℕ
min_stay_of plan none = plan
min_stay_of plan (some n) = n

-- `if (test) violations.push(v)`
abbrev pub when_broken : Bool → RestrictionViolation → List RestrictionViolation
when_broken true v = v ∷ []
when_broken false v = []

abbrev pub closed_nights : EvaluateInput → List IsoDate
closed_nights input = filter (λ d. flag (λ r. r.closed) (input.restrictions d)) input.nights

abbrev pub is_some_night : List IsoDate → Bool
is_some_night [] = false
is_some_night (_ ∷ _) = true

-- `daysBetween`, on the numbers of the days
abbrev pub days_between : IsoDate → IsoDate → ℤ
days_between from to = pos to -ℤ pos from

-- The rule on the longest stay: `maxStay && stayLength > maxStay`.
abbrev pub max_stay_broken : Option ℕ → ℕ → IsoDate → List RestrictionViolation
max_stay_broken none stay arrival = []
max_stay_broken (some m) stay arrival =
    when_broken (not (m == 0) && ltb m stay) (max_stay_exceeded m stay arrival)

-- The rule on booking ahead.
abbrev pub min_advance_broken : Option ℤ → ℤ → List RestrictionViolation
min_advance_broken none lead = []
min_advance_broken (some days) lead = when_broken (ltb_ℤ lead days) (min_advance_not_met days lead)

-- The rules, for a stay with nights.
unfoldable pub violations_of : EvaluateInput → IsoDate → List RestrictionViolation
violations_of input arrival =
    let stay = length input.nights in
    let arrival_rule = input.restrictions arrival in
    let min_stay = min_stay_of input.plan_min_stay (number_of (λ r. r.min_stay) arrival_rule) in
    when_broken (is_some_night (closed_nights input)) (dates_closed (closed_nights input))
    ++ (when_broken (flag (λ r. r.closed_to_arrival) arrival_rule) (closed_to_arrival arrival)
        ++ (when_broken
              (flag (λ r. r.closed_to_departure) (input.restrictions input.departure_date))
              (closed_to_departure input.departure_date)
            ++ (when_broken (not (min_stay == 0) && ltb stay min_stay)
                  (min_stay_not_met min_stay stay arrival)
                ++ (max_stay_broken (number_of (λ r. r.max_stay) arrival_rule) stay arrival
                    ++ min_advance_broken (number_of (λ r. r.min_advance_days) arrival_rule)
                        (days_between input.business_date arrival)))))

-- `evaluateRestrictions`
unfoldable pub evaluate_restrictions : EvaluateInput → List RestrictionViolation
unfolding violations_of
evaluate_restrictions input = elim input.nights [
  | [] ↦ []
  | arrival ∷ later ↦ violations_of input arrival
]

-- `POS_VOID_SELF_SERVICE_MINOR` and `POS_VOID_GRACE_MINUTES`
abbrev pub pos_void_self_service_minor : ℕ
pos_void_self_service_minor = 500000

abbrev pub pos_void_grace_minutes : ℕ
pos_void_grace_minutes = 15

-- Why a void needs a supervisor: the message that is shown.
pub data VoidDecision : Type 0 where
  self_service needs_approval_for_amount needs_approval_for_age : VoidDecision

-- `decideVoid`, with the age in milliseconds, of which the source has the 60,000th part
unfoldable pub decide_void_rule : ℤ → ℕ → Bool → VoidDecision
decide_void_rule total_minor age can_approve =
    let too_large = ltb_ℤ (pos pos_void_self_service_minor) total_minor in
    let too_old = ltb (pos_void_grace_minutes * 60000) age in
    if can_approve
    then self_service
    else if not too_large && not too_old
    then self_service
    else if too_large
    then needs_approval_for_amount
    else needs_approval_for_age
