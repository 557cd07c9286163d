-- ===== src/Tax/Reconcile.antt =====
-- The base, the lines and the total of a tax computation agree.
use lodgiva.Common.{
  true, List, [], ◌∷◌, ◌++◌, ◌≡◌, ◌≢◌, refl, All, if◌then◌else◌, Bool-cases, inl, inr, ◌∙◌, map, ap,
}
use lodgiva.Common.Int.{ℤ, pos, pos_part, neg_part, ◌+ℤ◌, ◌-ℤ◌, int_laws}
use lodgiva.Store.{is_inclusive, inclusive, TaxRule}
use lodgiva.Money.{compute_charge_lines}
use lodgiva.Tax.{
  TaxLine, TaxInput, Progress, nothing_yet, rule_amount, apply_rule, apply_rules, apply_fallbacks,
  apply_fallback, sum_lines, run_rules, ordered_rules, compute, is_svc,
}

pub sum_lines-snoc :
    (lines : List TaxLine) (l : TaxLine)
    → sum_lines (lines ++ l ∷ []) ≡ sum_lines lines +ℤ l.amount_minor
sum_lines-snoc [] l = omega int_laws
sum_lines-snoc (m ∷ lines) l = rw (sum_lines-snoc lines l) (omega int_laws)

-- The part of the lines' sum that comes from exclusive rules.
abbrev pub exclusive_sum : ℤ → ℤ → List TaxRule → ℤ
exclusive_sum base svc [] = pos 0
exclusive_sum base svc (r ∷ rules) =
    (if is_inclusive r.basis then pos 0 else rule_amount base svc r)
    +ℤ exclusive_sum base (if is_svc r.code then rule_amount base svc r else svc) rules

apply_rule-sum :
    (base : ℤ) (p : Progress) (r : TaxRule)
    → sum_lines (apply_rule base p r).lines -ℤ (apply_rule base p r).included_tax_minor
      ≡ sum_lines p.lines
        -ℤ p.included_tax_minor
        +ℤ (if is_inclusive r.basis then pos 0 else rule_amount base p.service_charge_minor r)
unfolding apply_rule
apply_rule-sum base p r = elim (Bool-cases (is_inclusive r.basis)) [
  | inl e ↦ rw (e, sum_lines-snoc) (omega int_laws)
  | inr e ↦ rw (e, sum_lines-snoc) (omega int_laws)
]

-- What the loop adds to the lines and has not counted as included, it adds for exclusive rules.
apply_rules-sum :
    (base : ℤ) (p : Progress) (rules : List TaxRule)
    → sum_lines (apply_rules base p rules).lines -ℤ (apply_rules base p rules).included_tax_minor
      ≡ sum_lines p.lines -ℤ p.included_tax_minor +ℤ exclusive_sum base p.service_charge_minor rules
unfolding apply_rules
apply_rules-sum base p [] = omega int_laws
apply_rules-sum base p (r ∷ rules) = apply_rules-sum base (apply_rule base p r) rules ∙ step
  where
    step :
        sum_lines (apply_rule base p r).lines
          -ℤ (apply_rule base p r).included_tax_minor
          +ℤ exclusive_sum base (apply_rule base p r).service_charge_minor rules
        ≡ sum_lines p.lines
          -ℤ p.included_tax_minor
          +ℤ exclusive_sum base p.service_charge_minor (r ∷ rules)
    step = unfold apply_rule in rw (apply_rule-sum base p r) (omega int_laws)

-- Exclusive rules of a list are all that it holds.
exclusive_sum_inclusive :
    (base svc : ℤ) (rules : List TaxRule)
    → All (λ r. r.basis ≡ inclusive) rules
    → exclusive_sum base svc rules ≡ pos 0
exclusive_sum_inclusive base svc [] h = refl
exclusive_sum_inclusive base svc (r ∷ rules) (i, h) =
    let kept : is_inclusive r.basis ≡ true = rw i refl in
    let later = if is_svc r.code then rule_amount base svc r else svc in
    let rest = exclusive_sum_inclusive base later rules h in rw (kept, rest) (omega int_laws)

-- For a property with configured rules the base and the lines add up to the total, and the total is
-- the price that was asked for plus the amounts of the exclusive rules: what inclusive rules hold is
-- in the price already.
pub compute_reconciles :
    (rules : List TaxRule) (input : TaxInput)
    → ordered_rules input rules ≢ []
    → let c = compute rules input in
      (c.total ≡ c.base +ℤ sum_lines c.lines)
      × (c.total
          ≡ input.base_minor +ℤ exclusive_sum input.base_minor (pos 0) (ordered_rules input rules))
compute_reconciles rules input some_rule =
    unfold compute run_rules in (refl, go (ordered_rules input rules) some_rule)
  where
    go :
        (l : List TaxRule)
        → l ≢ []
        → input.base_minor
            -ℤ (run_rules input.base_minor l).included_tax_minor
            +ℤ sum_lines (run_rules input.base_minor l).lines
          ≡ input.base_minor +ℤ exclusive_sum input.base_minor (pos 0) l
    go [] n = absurd (n refl)
    go (r ∷ rest) n =
        let h = apply_rules-sum input.base_minor nothing_yet (r ∷ rest) in
        unfold run_rules in omega (int_laws, ap pos_part h, ap neg_part h)

-- Where every rule that applies is inclusive, the total is exactly the price that was asked for.
pub inclusive_total :
    (rules : List TaxRule) (input : TaxInput)
    → ordered_rules input rules ≢ []
    → All (λ r. r.basis ≡ inclusive) (ordered_rules input rules)
    → (compute rules input).total ≡ input.base_minor
inclusive_total rules input some_rule h =
    (compute_reconciles rules input some_rule).1
    ∙ rw (exclusive_sum_inclusive input.base_minor (pos 0) (ordered_rules input rules) h)
        (omega int_laws)

-- A property with no rule in force is charged as `computeChargeLines` charges: the same base,
-- service charge, VAT and total.
defaults-eq-charge_lines :
    (rules : List TaxRule) (input : TaxInput)
    → ordered_rules input rules ≡ []
    → let c = compute rules input in
      let m = compute_charge_lines input.base_minor in
      (c.base ≡ m.base)
      × (map (λ l. l.amount_minor) c.lines ≡ m.service_charge ∷ m.vat ∷ [])
      × (c.total ≡ m.total)
unfolding compute run_rules compute_charge_lines apply_fallbacks apply_fallback
defaults-eq-charge_lines rules input none = rw none (omega int_laws, refl, omega int_laws)
