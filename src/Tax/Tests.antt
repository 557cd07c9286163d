-- ===== src/Tax/Tests.antt =====
-- Runs of the tax engine, and its theorems at concrete rules.
use lodgiva.Common.{◌+◌, ◌*◌, ◌≤◌, ◌<◌, true, none, List, [], ◌∷◌, ◌≡◌, refl, All, filter}
use lodgiva.Common.Sorting.{Pairs}
use lodgiva.Common.Int.{pos, pos_part, neg_part, ◌+ℤ◌, ◌-ℤ◌, mul_div}
use lodgiva.Store.{TaxRule, scope_all, inclusive, exclusive}
use lodgiva.Tax.{
  TaxInput, room_kind, is_effective, ordered_rules, compute, run_rules, apply_rules, apply_rule,
  rule_amount, sum_lines,
}
use lodgiva.Tax.Reconcile.{exclusive_sum, compute_reconciles}
use lodgiva.Tax.Versions.{Among, Covered, OtherCode, InOrder, ordered_rules_newest}
use lodgiva.Tax.Amounts.{taxable_of, rule_amount_bounds}

abbrev vat_rule : TaxRule
vat_rule = record {
  id = 7;
  tenant_id = 1;
  property_id = 2;
  code = "VAT";
  name = "Value Added Tax";
  rate_bp = 750;
  applies_to = scope_all;
  basis = inclusive;
  compound_order = 2;
  tax_on_service_charge = true;
  version = 2;
  effective_from = 100;
  effective_to = none;
}

abbrev service_rule : TaxRule
service_rule = record vat_rule {
  id = 8;
  code = "SVC";
  basis = exclusive;
  rate_bp = 500;
  compound_order = 1;
}

abbrev table : List TaxRule
table = vat_rule ∷ record vat_rule { id = 6; version = 1; rate_bp = 500 } ∷ []

abbrev input : TaxInput
input = record {
  tenant_id = 1;
  property_id = 2;
  base_minor = pos 10750;
  charge_kind = room_kind;
  business_date = 150;
}

newest_wins : ordered_rules input (service_rule ∷ table) ≡ service_rule ∷ vat_rule ∷ []
unfolding ordered_rules
newest_wins = refl

inclusive_run : (compute table input).base ≡ pos 10000
unfolding compute run_rules apply_rules apply_rule rule_amount mul_div ◌+ℤ◌ ◌-ℤ◌
inclusive_run = refl

one_rule : ordered_rules input table ≡ vat_rule ∷ []
unfolding ordered_rules
one_rule = refl

compute_reconciles_example :
    let c = compute table input in
    (c.total ≡ c.base +ℤ sum_lines c.lines)
    × (c.total ≡ pos 10750 +ℤ exclusive_sum (pos 10750) (pos 0) (ordered_rules input table))
compute_reconciles_example = compute_reconciles table input (λ e. cc (one_rule, e))

nothing_configured : ordered_rules input [] ≡ []
unfolding ordered_rules
nothing_configured = refl

ordered_rules_newest_example :
    let l = ordered_rules input table in
    let in_force = filter (is_effective input) table in
    All (Among in_force) l × All (Covered l) in_force × Pairs OtherCode l × Pairs InOrder l
ordered_rules_newest_example = ordered_rules_newest input table

rule_amount_bounds_example :
    let t = pos_part (rule_amount (pos 10000) (pos 500) vat_rule) in
    let taxable = taxable_of 10000 500 vat_rule in
    (neg_part (rule_amount (pos 10000) (pos 500) vat_rule) ≡ 0)
    × (inclusive ≡ exclusive → (t * 10000 ≤ taxable * 750) × (taxable * 750 < (t + 1) * 10000))
    × (inclusive ≡ inclusive
        → (t * (10000 + 750) ≤ taxable * 750)
          × (taxable * 750 < (t + 1) * (10000 + 750))
          × (t ≤ taxable))
rule_amount_bounds_example = rule_amount_bounds 10000 500 vat_rule
