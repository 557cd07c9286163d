-- ===== src/Tax/Amounts.antt =====
-- The size of a tax line.
use lodgiva.Common.{ℕ, ◌+◌, ◌*◌, ◌/◌, ◌≤◌, ◌<◌, not, ◌&&◌, ◌≡◌, refl, arith, if◌then◌else◌}
use lodgiva.Common.Int.{pos, pos_part, neg_part, ◌+ℤ◌, mul_div}
use native.Mathlib.Nat.{div-le_of_le-mul, mul-le-mul_left}
use lodgiva.Store.{TaxRule, is_inclusive, inclusive, exclusive}
use lodgiva.Tax.{rule_amount, is_svc}

-- What a rule is applied to: the base, and the service charge where the rule taxes it.
abbrev pub taxable_of : ℕ → ℕ → TaxRule → ℕ
taxable_of base svc rule =
    if rule.tax_on_service_charge && not (is_svc rule.code) then base + svc else base

rule_amount-eq :
    (base svc : ℕ) (rule : TaxRule)
    → rule_amount (pos base) (pos svc) rule
      ≡ pos (
          if is_inclusive rule.basis
          then taxable_of base svc rule * rule.rate_bp / (10000 + rule.rate_bp)
          else taxable_of base svc rule * rule.rate_bp / 10000)
unfolding rule_amount mul_div ◌+ℤ◌
rule_amount-eq base svc rule = ground arith

div_bounds : (a d : ℕ) → 0 < d → (a / d * d ≤ a) × (a < (a / d + 1) * d)
div_bounds a d h = (grind arith, grind arith)

div-le : (a r d : ℕ) → r ≤ d → 0 < d → a * r / d ≤ a
div-le a r d h k = div-le_of_le-mul d (omega (arith, mul-le-mul_left a h))

-- On amounts of zero or more a rule of `rate` basis points takes a whole, non-negative number of
-- minor units, rounded down: of an exclusive rule, `rate` ten-thousandths of the taxable amount; of
-- an inclusive one, the tax t for which t is `rate` ten-thousandths of the taxable amount without t,
-- and never more than the taxable amount.
pub rule_amount_bounds :
    (base svc : ℕ) (rule : TaxRule)
    → let t = pos_part (rule_amount (pos base) (pos svc) rule) in
      let taxable = taxable_of base svc rule in
      (neg_part (rule_amount (pos base) (pos svc) rule) ≡ 0)
      × (rule.basis ≡ exclusive
          → (t * 10000 ≤ taxable * rule.rate_bp) × (taxable * rule.rate_bp < (t + 1) * 10000))
      × (rule.basis ≡ inclusive
          → (t * (10000 + rule.rate_bp) ≤ taxable * rule.rate_bp)
            × (taxable * rule.rate_bp < (t + 1) * (10000 + rule.rate_bp))
            × (t ≤ taxable))
rule_amount_bounds base svc rule =
    let taxed = taxable_of base svc rule * rule.rate_bp in
    rw (rule_amount-eq base svc rule) (
      refl,
      λ e. rw e (div_bounds taxed 10000 (omega arith)),
      λ e. rw e (
        (div_bounds taxed (10000 + rule.rate_bp) (omega arith)).0,
        (div_bounds taxed (10000 + rule.rate_bp) (omega arith)).1,
        div-le (taxable_of base svc rule) rule.rate_bp (10000 + rule.rate_bp) (omega arith)
            (omega arith),
      ),
    )
