-- ===== src/Booking/Quotes.antt =====
-- `assertRange`, `priceStay` and `quote` of apps/api/src/modules/booking.module.ts.
use lodgiva.Common.{
  ℕ, ◌+◌, Bool, ◌&&◌, Option, none, some, List, [], ◌∷◌, map, ◌==◌, leb, ltb, find, filter, length,
  last?, if◌then◌else◌,
}
use lodgiva.Common.Int.{ℤ, pos, ◌+ℤ◌}
use lodgiva.Money.{nights_between}
use lodgiva.Store.{
  Key, IsoDate, calendar, base_rate, RoomType, RatePlan, DailyRate, RateRestriction, NightRate,
  QuotedTax, Code, dates_closed_code, closed_to_arrival_code, closed_to_departure_code,
  min_stay_code, max_stay_code, min_advance_code, M, pure, gets, require, throw, throw_if, ◌>>=◌,
  ◌>>◌, bad_request, not_found, conflict, crash, invalid_date_range, stay_too_long,
  rate_plan_not_found, occupancy_exceeded,
}
use lodgiva.Access.{Auth, assert_property}
use lodgiva.Tax.{TaxLine, TaxInput, room_kind, compute}
use lodgiva.Inventory.{NightAvailability, availability_by_night, expire_stale_holds}
use lodgiva.Restrictions.{
  RestrictionRow, RestrictionViolation, EvaluateInput, dates_closed, closed_to_arrival,
  closed_to_departure, min_stay_not_met, max_stay_exceeded, min_advance_not_met,
  evaluate_restrictions,
}

-- `assertRange`
unfoldable pub assert_range : IsoDate → IsoDate → M (Unit {0})
assert_range arrival departure = do
  throw_if (leb departure arrival) (bad_request invalid_date_range)
  throw_if (ltb 60 (length (nights_between arrival departure))) (bad_request stay_too_long)

-- The input of `priceStay`.
pub record StayQuery : Type 0 where
  pub tenant_id : Key
  pub property_id : Key
  pub business_date : IsoDate
  pub rate_plan_id : Key
  pub arrival_date : IsoDate
  pub departure_date : IsoDate
  pub adults : ℕ
  pub children : ℕ

-- `QuoteResult`; the currency is always NGN. `none` is `Infinity`, the least of no numbers.
pub record QuoteResult : Type 0 where
  pub rate_plan : RatePlan
  pub room_type : RoomType
  pub nights : List NightRate
  pub base_minor : ℤ
  pub taxes : List QuotedTax
  pub total_minor : ℤ
  pub available_rooms : Option ℕ

-- The `where` of the look-up of the plan.
abbrev pub is_plan : StayQuery → RatePlan → Bool
is_plan input p =
    p.id == input.rate_plan_id
    && (p.tenant_id == input.tenant_id && (p.property_id == input.property_id && p.is_active_plan))

abbrev pub restriction_row : RateRestriction → RestrictionRow
restriction_row r = record {
  date = r.date;
  closed = r.closed;
  closed_to_arrival = r.closed_to_arrival;
  closed_to_departure = r.closed_to_departure;
  min_stay = r.min_stay;
  max_stay = r.max_stay;
  min_advance_days = r.min_advance_days;
}

-- `restrictions.get(date)`: of equal keys a `Map` keeps the last.
abbrev pub restriction_on : Key → List RateRestriction → IsoDate → Option RestrictionRow
restriction_on plan_id rows date =
    elim (last? (filter (λ r. r.rate_plan_id == plan_id && r.date == date) rows)) [
      | none ↦ none
      | some r ↦ some (restriction_row r)
    ]

-- The input of `evaluateRestrictions`.
abbrev pub rules_input : StayQuery → RatePlan → List RateRestriction → EvaluateInput
rules_input input plan rows = record {
  nights = nights_between input.arrival_date input.departure_date;
  departure_date = input.departure_date;
  restrictions = restriction_on plan.id rows;
  plan_min_stay = plan.min_stay;
  business_date = input.business_date;
}

-- `violation.code`
abbrev pub code_of : RestrictionViolation → Code
code_of (dates_closed dates) = dates_closed_code
code_of (closed_to_arrival date) = closed_to_arrival_code
code_of (closed_to_departure date) = closed_to_departure_code
code_of (min_stay_not_met least stay arrival) = min_stay_code
code_of (max_stay_exceeded most stay arrival) = max_stay_code
code_of (min_advance_not_met days lead) = min_advance_code

-- `if (violations.length) throw`
abbrev pub refuse : List RestrictionViolation → M (Unit {0})
refuse [] = pure tt
refuse (v ∷ vs) = throw (conflict (code_of v))

-- The price of a night: the calendar's, or the base rate of the type.
abbrev pub night_rate : Key → RoomType → List DailyRate → IsoDate → NightRate
night_rate plan_id type rates date =
    elim (last? (filter (λ o. o.rate_plan_id == plan_id && o.date == date) rates)) [
      | none ↦ record { date = date; rate_minor = type.base_rate_minor; source = base_rate }
      | some o ↦ record { date = date; rate_minor = o.rate_minor; source = calendar }
    ]

-- `breakdown.reduce((s, n) => s + …, 0n)`
abbrev pub sum_rates : List NightRate → ℤ
sum_rates [] = pos 0
sum_rates (n ∷ ns) = n.rate_minor +ℤ sum_rates ns

abbrev pub quote_tax_input : StayQuery → ℤ → TaxInput
quote_tax_input input base = record {
  tenant_id = input.tenant_id;
  property_id = input.property_id;
  base_minor = base;
  charge_kind = room_kind;
  business_date = input.business_date;
}

abbrev pub quoted_tax : TaxLine → QuotedTax
quoted_tax l = record {
  code = l.code;
  name = l.name;
  amount_minor = l.amount_minor;
  rule_version = l.tax_rule_version;
}

-- `Math.min(a, …)`
abbrev pub least : ℕ → Option ℕ → ℕ
least n none = n
least n (some m) = if leb n m then n else m

abbrev pub fewest : List NightAvailability → Option ℕ
fewest [] = none
fewest (n ∷ ns) = some (least n.available (fewest ns))

-- `priceStay`
unfoldable pub price_stay : StayQuery → M QuoteResult
unfolding availability_by_night
price_stay input = do
  plan ← require (← gets (λ db. find (is_plan input) db.rate_plans)) (not_found rate_plan_not_found)
  type ← require (← gets (λ db. find (λ t. t.id == plan.room_type_id) db.room_types)) crash
  throw_if (ltb type.max_occupancy (input.adults + input.children)) (conflict occupancy_exceeded)
  violations ← gets (λ db. evaluate_restrictions (rules_input input plan db.restrictions))
  refuse violations
  let nights = nights_between input.arrival_date input.departure_date
  breakdown ← gets (λ db. map (night_rate plan.id type db.daily_rates) nights)
  let base_minor = sum_rates breakdown
  computed ← gets (λ db. compute db.tax_rules (quote_tax_input input base_minor))
  per_night ←
      availability_by_night input.tenant_id plan.room_type_id input.arrival_date
        input.departure_date
  pure (record {
    rate_plan = plan;
    room_type = type;
    nights = breakdown;
    base_minor = base_minor;
    taxes = map quoted_tax computed.lines;
    total_minor = computed.total;
    available_rooms = fewest per_night;
  })

-- `quote`
unfoldable pub quote : Auth → Key → Key → IsoDate → IsoDate → ℕ → ℕ → M QuoteResult
unfolding assert_property assert_range expire_stale_holds price_stay
quote auth property_id rate_plan_id arrival departure adults children = do
  property ← assert_property auth property_id
  assert_range arrival departure
  expire_stale_holds (some auth.tenant_id)
  price_stay (record {
    tenant_id = auth.tenant_id;
    property_id = property_id;
    business_date = property.business_date;
    rate_plan_id = rate_plan_id;
    arrival_date = arrival;
    departure_date = departure;
    adults = adults;
    children = children;
  })
