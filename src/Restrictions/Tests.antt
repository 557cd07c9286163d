-- ===== src/Restrictions/Tests.antt =====
-- A stay of two nights under a longest stay and a closed night.
use lodgiva.Common.{true, false, Option, none, some, [], ◌∷◌, ◌≡◌, refl, ◌↔◌, ◌==◌, if◌then◌else◌}
use lodgiva.Common.Int.{pos}
use lodgiva.Store.{IsoDate}
use lodgiva.Restrictions.{
  RestrictionRow, EvaluateInput, dates_closed, max_stay_exceeded, evaluate_restrictions,
  needs_approval_for_amount, decide_void_rule,
}
use lodgiva.Restrictions.Rules.{Sellable, evaluate_restrictions_iff}

abbrev one_night : RestrictionRow
one_night = record {
  date = 150;
  closed = false;
  closed_to_arrival = false;
  closed_to_departure = false;
  min_stay = none;
  max_stay = some 1;
  min_advance_days = none;
}

abbrev sold_by_rule : IsoDate → Option RestrictionRow
sold_by_rule d =
    if d == 150
    then some one_night
    else if d == 151
    then some (record one_night { date = 151; closed = true })
    else none

abbrev weekend : EvaluateInput
weekend = record {
  nights = 150 ∷ 151 ∷ [];
  departure_date = 152;
  restrictions = sold_by_rule;
  plan_min_stay = 1;
  business_date = 140;
}

two_violations :
    evaluate_restrictions weekend ≡ dates_closed (151 ∷ []) ∷ max_stay_exceeded 1 2 150 ∷ []
unfolding evaluate_restrictions
two_violations = refl

large_void : decide_void_rule (pos 500001) 0 false ≡ needs_approval_for_amount
unfolding decide_void_rule
large_void = refl

evaluate_restrictions_iff_example : (evaluate_restrictions weekend ≡ []) ↔ Sellable weekend 150
evaluate_restrictions_iff_example = evaluate_restrictions_iff weekend 150 (151 ∷ []) refl
